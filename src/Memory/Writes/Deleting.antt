-- ===== src/Memory/Writes/Deleting.antt =====
-- When a deletion goes through, and what it leaves.
use mathlib.Core.Path.{subst}
use session_flow.Base.{
  ℕ, ◌+◌, ◌≡◌, ◌≢◌, ◌⊎◌, inl, inr, refl, String, Bool, true, false, not, ◌&&◌, ◌||◌, Option, none,
  some, [], ◌∷◌, ◌++◌, ◌==◌, ◌∙◌, nat_eq, string_eq, arith, Bool-cases, Option-cases,
}
use session_flow.Base.Dict
use session_flow.Base.Dict.{lookup-insert_self, lookup-insert_other}
use session_flow.Memory.Record.{MemoryRow, MemoryTables, WriteError, WriteResult}
use session_flow.Memory.Select.{is_live, wrong_project}
use session_flow.Memory.Change.{next_time, put_row, reset_row_acks}
use session_flow.Memory.Acks.{find_ack, is_behind}
use session_flow.Memory.Acks.Laws.{is_behind_of_none, find-reset, find-reset_other}
use session_flow.Memory.Writes.Unique.{IsSound}
use session_flow.Memory.Writes.{delete_tx, committed}

-- A live record of the project that is expected: of any, when that is none, empty or `*`.
abbrev pub may_delete : Option String → Option MemoryRow → Bool
may_delete expect_project none = false
may_delete none (some r) = is_live r
may_delete (some expected) (some r) =
    is_live r && (expected == "" || (expected == "*" || r.project == expected))

-- What a deletion makes of a record: a tombstone of the next version, with a snapshot, on which every consumer is
-- behind, while the other records and their acks are as they were.
pub record Deleted (r : MemoryRow) (s s' : MemoryTables) : Type 0 where
  pub row : MemoryRow
  pub there : Dict.lookup r.memory_id s'.memories ≡ some row
  pub dead : is_live row ≡ false
  pub version : row.version ≡ r.version + 1
  pub content : (row.content_hash ≡ r.content_hash) × (row.text ≡ r.text)
  pub snapshot : s'.memory_versions ≡ s.memory_versions ++ row ∷ []
  pub behind : (consumer : String) → is_behind consumer s' row ≡ true
  pub others : (i : ℕ) → i ≢ r.memory_id → Dict.lookup i s'.memories ≡ Dict.lookup i s.memories
  pub other_acks :
      (consumer : String) (i : ℕ)
      → i ≢ r.memory_id
      → find_ack consumer i s'.memory_index_acks ≡ find_ack consumer i s.memory_index_acks

-- How a deletion may end: it raises and changes nothing, or it goes through.
abbrev pub Ends :
    ℕ → Option String → MemoryTables → WriteError ⊎ (WriteResult × MemoryTables) → Type 0
Ends memory_id expect_project s result =
    ((may_delete expect_project (Dict.lookup memory_id s.memories) ≡ false)
      × (e : WriteError) × (result ≡ inl e)
      × (committed s result ≡ s))
    ⊎ ((may_delete expect_project (Dict.lookup memory_id s.memories) ≡ true)
        × (r : MemoryRow) × (Dict.lookup memory_id s.memories ≡ some r)
        × Deleted r s (committed s result))

may_delete-some :
    (expect_project : Option String) (r : MemoryRow)
    → may_delete expect_project (some r) ≡ (is_live r && not (wrong_project expect_project r))
unfolding wrong_project
may_delete-some none r = ground arith
may_delete-some (some expected) r = ground arith

-- A record replaced by its tombstone.
put_row-Deleted :
    (r r' : MemoryRow) (s : MemoryTables)
    → r'.memory_id ≡ r.memory_id
    → is_live r' ≡ false
    → r'.version ≡ r.version + 1
    → (r'.content_hash ≡ r.content_hash) × (r'.text ≡ r.text)
    → Deleted r s (reset_row_acks r.memory_id (put_row r' s))
unfolding put_row reset_row_acks
put_row-Deleted r r' s same dead version content = record {
  row = r';
  there = rw⁻¹ same (lookup-insert_self r'.memory_id r' s.memories);
  dead = dead;
  version = version;
  content = content;
  snapshot = refl;
  behind = λ consumer.
      is_behind_of_none consumer r' _
        (rw same (find-reset consumer r.memory_id s.memory_index_acks));
  others = λ i n. lookup-insert_other i r'.memory_id r' s.memories (λ e. n (e ∙ same));
  other_acks = λ consumer i n. find-reset_other consumer r.memory_id i s.memory_index_acks n;
}

-- In a sound table, a deletion goes through exactly where the id has a live record of the expected project, when one is
-- expected. Else it raises and changes nothing. Where it goes through, the record is a tombstone of the next version
-- with the same text and hash and a snapshot, every consumer is behind on it, and the other records and what the consumers
-- hold of them are as they were.
pub delete_tx-Deleted :
    (clock : ℕ → ℕ) (memory_id : ℕ) (expect_project : Option String) (s : MemoryTables)
    → IsSound s.memories
    → Ends memory_id expect_project s (delete_tx clock (some memory_id) expect_project s)
unfolding delete_tx
delete_tx-Deleted clock memory_id expect_project s sound =
    elim (Option-cases (Dict.lookup memory_id s.memories)) [
      | inl gone ↦ rw (gone, delete_tx) (inl (refl, _, refl, refl))
      | inr (r, there) ↦ elim (Bool-cases (is_live r)) [
        | inr dead ↦
            rw (there, dead, delete_tx)
              (inl (may_delete-some expect_project r ∙ rw dead refl, _, refl, refl))
        | inl live ↦ elim (Bool-cases (wrong_project expect_project r)) [
          | inl wrong ↦
              rw (there, live, wrong, delete_tx)
                (inl (may_delete-some expect_project r ∙ rw (live, wrong) refl, _, refl, refl))
          | inr right ↦
              let now = next_time (clock s.next_change_seq) r in
              let dead : MemoryRow = record r {
                deleted_at = some now;
                updated_at = now;
                version = r.version + 1;
                change_seq = s.next_change_seq;
              } in
              rw (there, live, right, delete_tx)
                (inr (
                  may_delete-some expect_project r ∙ rw (live, right) refl,
                  r,
                  refl,
                  subst (λ i. Deleted r s (reset_row_acks i (put_row dead s)))
                      (sound.keyed memory_id r there)
                      (put_row-Deleted r dead s refl refl refl (refl, refl)),
                ))
        ]
      ]
    ]
