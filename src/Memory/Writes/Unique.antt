-- ===== src/Memory/Writes/Unique.antt =====
-- The unique indexes on content hashes and topic keys, under `update` and `delete`.
use session_flow.Base.{
  ℕ, ◌≡◌, refl, ◌∙◌, ap, ◌⊎◌, inl, inr, String, Bool, true, false, ◌&&◌, ◌||◌, Option, none, some,
  List, [], ◌∷◌, ◌==◌, string_eq, nat_eq, option_eq, arith, Bool-cases, Option-cases,
}
use session_flow.Base.Dict
use session_flow.Base.Dict.{Dict, NodupKeys, lookup-insert, insert-NodupKeys}
use session_flow.Memory.Record.{MemoryRow, Changes, MemoryTables, Outcome, updated}
use session_flow.Memory.Select.{is_live, live_in, has_topic, first_row, rows_where, wrong_project}
use session_flow.Memory.Change.{
  assign, no_effect, apply_change, changed_row, put_row, reset_row_acks,
}
use session_flow.Memory.Writes.{rival, update_tx, committed}

pub list_cases {ℓ} : {A : Type ℓ} (l : List A) → (l ≡ []) ⊎ ((a : A) × (k : List A) × (l ≡ a ∷ k))
list_cases [] = inl refl
list_cases (a ∷ k) = inr (a, k, refl)

abbrev pub Rows : Type 0
Rows = Dict ℕ MemoryRow

-- Two rows that one of the unique indexes does not let stand beside each other.
abbrev pub clashes : MemoryRow → MemoryRow → Bool
clashes a b =
    is_live a
    && (live_in a.user_id a.project b
        && (b.content_hash == a.content_hash || has_topic a.topic_key b))

pub record IsSound (rows : Rows) : Type 0 where
  pub nodup : NodupKeys rows
  pub keyed : (i : ℕ) (r : MemoryRow) → Dict.lookup i rows ≡ some r → r.memory_id ≡ i
  pub unique :
      (i j : ℕ) (a b : MemoryRow)
      → Dict.lookup i rows ≡ some a
      → Dict.lookup j rows ≡ some b
      → clashes a b ≡ true
      → i ≡ j

pub clashes_comm : (a b : MemoryRow) → clashes a b ≡ true → clashes b a ≡ true
clashes_comm a b h = ground arith

pub insert-IsSound :
    (r : MemoryRow) (rows : Rows)
    → IsSound rows
    → ((j : ℕ) (b : MemoryRow) → Dict.lookup j rows ≡ some b → clashes r b ≡ true → j ≡ r.memory_id)
    → IsSound (Dict.insert r.memory_id r rows)
insert-IsSound r rows s alone = record {
  nodup = insert-NodupKeys r.memory_id r rows s.nodup;
  keyed = λ i a h. ground (arith, lookup-insert i r.memory_id r rows, s.keyed i a);
  unique = λ i j a b h k clash. ground (
    arith,
    lookup-insert i r.memory_id r rows,
    lookup-insert j r.memory_id r rows,
    s.unique i j a b,
    alone j b,
    alone i a,
    clashes_comm a b clash,
  );
}

rows_where-none :
    (p : MemoryRow → Bool) (rows : Rows) (j : ℕ) (b : MemoryRow)
    → rows_where p rows ≡ []
    → Dict.lookup j rows ≡ some b
    → p b ≡ false
unfolding rows_where Dict.lookup
rows_where-none p [] j b e h = ground arith
rows_where-none p ((k, r) ∷ rows) j b e h = ground (arith, rows_where-none p rows j b)

pub first_row-none :
    (p : MemoryRow → Bool) (rows : Rows) (j : ℕ) (b : MemoryRow)
    → first_row p rows ≡ none
    → Dict.lookup j rows ≡ some b
    → p b ≡ false
unfolding first_row Dict.lookup
first_row-none p [] j b e h = ground arith
first_row-none p ((k, r) ∷ rows) j b e h = ground (arith, first_row-none p rows j b)

first_row-cases :
    (p : MemoryRow → Bool) (k : ℕ) (a : MemoryRow) (rows : Rows) (r : MemoryRow)
    → first_row p ((k, a) ∷ rows) ≡ some r
    → ((p r ≡ true) × (a ≡ r)) ⊎ (first_row p rows ≡ some r)
unfolding first_row
first_row-cases p k a rows r h = ground arith

pub lookup-tail :
    (i k : ℕ) (a r : MemoryRow) (rows : Rows)
    → Dict.lookup k rows ≡ none
    → Dict.lookup i rows ≡ some r
    → Dict.lookup i ((k, a) ∷ rows) ≡ some r
unfolding Dict.lookup
lookup-tail i k a r rows fresh h = ground arith

lookup-head : (k : ℕ) (a : MemoryRow) (rows : Rows) → Dict.lookup k ((k, a) ∷ rows) ≡ some a
unfolding Dict.lookup
lookup-head k a rows = ground arith

pub first_row-lookup :
    (p : MemoryRow → Bool) (rows : Rows) (r : MemoryRow)
    → NodupKeys rows
    → first_row p rows ≡ some r
    → (p r ≡ true) × (i : ℕ) × (Dict.lookup i rows ≡ some r)
unfolding first_row
first_row-lookup p [] r u h = absurd (ground arith)
first_row-lookup p ((k, a) ∷ rows) r (fresh, u) h = elim (first_row-cases p k a rows r h) [
  | inl (good, e) ↦ (good, k, lookup-head k a rows ∙ ap some e)
  | inr later ↦
      let (good, i, there) = first_row-lookup p rows r u later in
      (good, i, lookup-tail i k a r rows fresh there)
]

-- A row that a write puts in the place of one that is there, with the same scope, and no new hash or
-- topic key that another live row of the scope has.
assign-IsSound :
    (clock : ℕ → ℕ) (c : Changes) (r : MemoryRow) (s : MemoryTables) (rows : Rows)
    → IsSound rows
    → Dict.lookup r.memory_id rows ≡ some r
    → ((j : ℕ) (b : MemoryRow) → Dict.lookup j rows ≡ some b → rival c r b ≡ false)
    → IsSound (Dict.insert r.memory_id (changed_row clock c r s) rows)
unfolding changed_row assign rival
assign-IsSound clock c r s rows sound there free =
    insert-IsSound (changed_row clock c r s) rows sound (λ j b h clash. ground (
      arith,
      free j b h,
      sound.keyed j b h,
      sound.unique j r.memory_id b r h there,
      clashes_comm r b,
    ))

pub apply_change-IsSound :
    (clock : ℕ → ℕ) (outcome : Outcome) (c : Changes) (r : MemoryRow) (s : MemoryTables)
    → IsSound s.memories
    → Dict.lookup r.memory_id s.memories ≡ some r
    → ((j : ℕ) (b : MemoryRow) → Dict.lookup j s.memories ≡ some b → rival c r b ≡ false)
    → IsSound (apply_change clock outcome c r s).1.memories
unfolding apply_change put_row reset_row_acks changed_row
apply_change-IsSound clock outcome c r s sound there free = elim (Bool-cases (no_effect c r)) [
  | inl none_at_all ↦ rw (none_at_all, apply_change) sound
  | inr some_effect ↦
      rw (some_effect, apply_change) (assign-IsSound clock c r s s.memories sound there free)
]

rows_where-cases :
    (p : MemoryRow → Bool) (rows : Rows)
    → (rows_where p rows ≡ [])
      ⊎ ((a : MemoryRow) × (l : List MemoryRow) × (rows_where p rows ≡ a ∷ l))
rows_where-cases p rows = list_cases (rows_where p rows)

-- An update, whether it raises or not, keeps every memory under its own id, and no two live
-- memories of one user and project with the same content hash or topic key.
pub update_tx-IsSound :
    (clock : ℕ → ℕ) (memory_id : Option ℕ) (c : Changes) (expect_project : Option String)
    (s : MemoryTables)
    → IsSound s.memories
    → IsSound (committed s (update_tx clock memory_id c expect_project s)).memories
unfolding update_tx
update_tx-IsSound clock none c expect_project s sound = sound
update_tx-IsSound clock (some memory_id) c expect_project s sound =
    elim (Option-cases (Dict.lookup memory_id s.memories)) [
      | inl gone ↦ rw (gone, update_tx) sound
      | inr (r, there) ↦ elim (Bool-cases (is_live r)) [
        | inr dead ↦ rw (there, dead, update_tx) sound
        | inl live ↦ elim (Bool-cases (wrong_project expect_project r)) [
          | inl wrong ↦ rw (there, live, wrong, update_tx) sound
          | inr right ↦ elim (rows_where-cases (rival c r) s.memories) [
            | inr (a, l, some_rival) ↦ rw (there, live, right, some_rival, update_tx) sound
            | inl no_rival ↦
                rw (there, live, right, no_rival, update_tx)
                  (apply_change-IsSound clock updated c r s sound
                    (ap (λ i. Dict.lookup i s.memories) (sound.keyed memory_id r there) ∙ there)
                    (λ j b h. rows_where-none (rival c r) s.memories j b no_rival h))
          ]
        ]
      ]
    ]
