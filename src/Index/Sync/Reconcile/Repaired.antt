-- ===== src/Index/Sync/Reconcile/Repaired.antt =====
-- What `reconcile` does to the full-text file, whatever the file and the acks were.
use session_flow.Base.{
  ℕ, ◌≡◌, ◌≢◌, ◌⊎◌, refl, ap, ◌∙◌, String, Bool, true, false, Option, none, some, List, [], ◌∷◌,
  ◌++◌, contains, contains-append, keep, ◌==◌, nat_eq, string_eq, if◌then◌else◌, arith, Bool-cases,
  Option-cases, inl, inr, ℕ_discrete,
}
use session_flow.Base.Dict
use session_flow.Base.Dict.{Dict, NodupKeys, lookup-insert, lookup-erase}
use session_flow.Memory.Record.{MemoryRow}
use session_flow.Memory.Select.{is_live}
use session_flow.Memory.Acks.{find_ack, index_state, insert_by_seq, by_seq}
use session_flow.Memory.Writes.Unique.{IsSound, lookup-tail}
use session_flow.Index.Fts.{FtsRow, rows_by_id}
use session_flow.Index.Fts.Latest.{entries}
use session_flow.Index.Sync.{
  Machine, ids_of, is_stale, held_rows, stale_ids, strays, reconcile_fts, all_answer,
}
use session_flow.Index.Sync.Reconcile.{
  entries-forget, lookup-forget, find_ack-reset_stale, is_stray,
}

module _ (q : MemoryRow → Bool) where
  contains-keep-insert_by_seq :
      (i : ℕ) (r : MemoryRow) (rows : List MemoryRow)
      → contains (ids_of (keep q (insert_by_seq r rows))) i
        ≡ contains (ids_of (keep q (r ∷ rows))) i
  unfolding insert_by_seq
  contains-keep-insert_by_seq i r [] = refl
  contains-keep-insert_by_seq i r (x ∷ rows) = ground (arith, contains-keep-insert_by_seq i r rows)

  contains-keep-by_seq :
      (i : ℕ) (rows : List MemoryRow)
      → contains (ids_of (keep q (by_seq rows))) i ≡ contains (ids_of (keep q rows)) i
  unfolding by_seq
  contains-keep-by_seq i [] = refl
  contains-keep-by_seq i (r ∷ rows) =
      contains-keep-insert_by_seq i r (by_seq rows) ∙ ground (arith, contains-keep-by_seq i rows)

  -- Whether the row of an id passes.
  abbrev passes : Option MemoryRow → Bool
  passes none = false
  passes (some r) = q r

  contains-keep-values :
      (i : ℕ) (d : Dict ℕ MemoryRow)
      → NodupKeys d
      → ((j : ℕ) (r : MemoryRow) → Dict.lookup j d ≡ some r → r.memory_id ≡ j)
      → contains (ids_of (keep q (Dict.values d))) i ≡ passes (Dict.lookup i d)
  unfolding Dict.values Dict.lookup
  contains-keep-values i [] _ keyed = refl
  contains-keep-values i ((k, r) ∷ d) (fresh, u) keyed = ground (
    arith,
    keyed k r,
    fresh,
    contains-keep-values i d u (λ j x e. keyed j x (lookup-tail j k r x d fresh e)),
  )

has-rows_by_id :
    (i : ℕ) (rows : List FtsRow) (d : Dict ℕ (ℕ × String))
    → Dict.has i d ≡ true
    → Dict.has i (rows_by_id rows d) ≡ true
unfolding rows_by_id
has-rows_by_id i [] d h = h
has-rows_by_id i (r ∷ rows) d h =
    has-rows_by_id i rows (Dict.insert r.memory_id (r.version, r.content_hash) d)
      (ground (arith, lookup-insert i r.memory_id (r.version, r.content_hash) d, h))

rows_by_id-absent :
    (i : ℕ) (rows : List FtsRow) (d : Dict ℕ (ℕ × String))
    → Dict.has i (rows_by_id rows d) ≡ false
    → keep (λ (r : FtsRow). r.memory_id == i) rows ≡ []
unfolding rows_by_id
rows_by_id-absent i [] d h = refl
rows_by_id-absent i (r ∷ rows) d h = elim (ℕ_discrete i r.memory_id) [
  | yes e ↦ absurd (
      ground (
        arith,
        has-rows_by_id i rows (Dict.insert r.memory_id (r.version, r.content_hash) d) (
            rw e (
              ground (arith, lookup-insert r.memory_id r.memory_id (r.version, r.content_hash) d))),
        h,
      ))
  | no n ↦
      ground
        (arith, rows_by_id-absent i rows (Dict.insert r.memory_id (r.version, r.content_hash) d) h)
]

-- The version and the hash that a file which is not behind has of a record: its own, and none of a deleted one.
abbrev pub current : MemoryRow → Option (ℕ × String)
current r = if is_live r then some (r.version, r.content_hash) else none

-- What a reconcile should leave of a memory: without a record nothing in the file; with one of which the file has
-- what it should, what there was; with another nothing in the file, no watermark and no ack.
abbrev pub Repaired : String → Machine → Machine → ℕ → Option MemoryRow → Type 0
Repaired consumer m n i none = entries i n.fts ≡ []
Repaired consumer m n i (some r) =
    ((Dict.lookup i (held_rows m) ≡ current r)
      × (entries i n.fts ≡ entries i m.fts)
      × (Dict.lookup i n.fts.watermarks ≡ Dict.lookup i m.fts.watermarks)
      × (find_ack consumer i n.tables.memory_index_acks
          ≡ find_ack consumer i m.tables.memory_index_acks))
    ⊎ ((Dict.lookup i (held_rows m) ≢ current r)
        × (entries i n.fts ≡ [])
        × (Dict.lookup i n.fts.watermarks ≡ none)
        × (find_ack consumer i n.tables.memory_index_acks ≡ none))

-- The code's test is whether the file has what it should.
is_stale-false :
    (r : MemoryRow) (held : Option (ℕ × String)) → is_stale r held ≡ false → held ≡ current r
is_stale-false r none h = ground (arith, h)
is_stale-false r (some (version, content_hash)) h = ground (arith, h)

is_stale-true :
    (r : MemoryRow) (held : Option (ℕ × String)) → is_stale r held ≡ true → held ≢ current r
is_stale-true r none h e = ground (arith, h, e)
is_stale-true r (some (version, content_hash)) h e = ground (arith, h, e)

is_stale_id :
    (i : ℕ) (m : Machine)
    → IsSound m.tables.memories
    → contains (stale_ids m) i
      ≡ passes
          (λ r. is_stale r (Dict.lookup r.memory_id (held_rows m)))
          (Dict.lookup i m.tables.memories)
unfolding index_state
is_stale_id i m sound =
    let q = λ (r : MemoryRow). is_stale r (Dict.lookup r.memory_id (held_rows m)) in
    contains-keep-by_seq q i (Dict.values m.tables.memories)
    ∙ contains-keep-values q i m.tables.memories sound.nodup sound.keyed

-- Which ids a reconcile forgets.
forgotten_without :
    (i : ℕ) (m : Machine)
    → IsSound m.tables.memories
    → Dict.lookup i m.tables.memories ≡ none
    → contains (stale_ids m ++ strays m) i ≡ Dict.has i (held_rows m)
forgotten_without i m sound gone =
    ground
      (arith, contains-append (stale_ids m) (strays m) i, is_stale_id i m sound, is_stray i m, gone)

is_stale_row :
    (i : ℕ) (r : MemoryRow) (m : Machine)
    → IsSound m.tables.memories
    → Dict.lookup i m.tables.memories ≡ some r
    → contains (stale_ids m) i ≡ is_stale r (Dict.lookup i (held_rows m))
is_stale_row i r m sound there =
    is_stale_id i m sound
    ∙ ap (passes (λ x. is_stale x (Dict.lookup x.memory_id (held_rows m)))) there
    ∙ ap (λ j. is_stale r (Dict.lookup j (held_rows m))) (sound.keyed i r there)

forgotten_with :
    (i : ℕ) (r : MemoryRow) (m : Machine)
    → IsSound m.tables.memories
    → Dict.lookup i m.tables.memories ≡ some r
    → contains (stale_ids m ++ strays m) i ≡ contains (stale_ids m) i
forgotten_with i r m sound there =
    ground (arith, contains-append (stale_ids m) (strays m) i, is_stray i m, there)

-- In a sound store, after a reconcile none of whose calls raises and that no other pass runs beside, whatever the
-- file and the acks held, of every memory: one without a record is not in the file; one of which the
-- file has exactly the version and hash of its live record, or nothing where the record is deleted, keeps what
-- the file has of it, its watermark and its ack; and every other is out of the file and has no watermark and
-- no ack of the machine.
pub reconcile_fts-Repaired :
    (consumer : String) (m : Machine) (i : ℕ)
    → IsSound m.tables.memories
    → Repaired consumer m
        (reconcile_fts consumer all_answer m).1
        i
        (Dict.lookup i m.tables.memories)
unfolding reconcile_fts
reconcile_fts-Repaired consumer m i sound =
    let ids = stale_ids m ++ strays m in
    elim (Option-cases (Dict.lookup i m.tables.memories)) [
      | inl gone ↦ rw gone (
          entries-forget i ids m.fts
          ∙ ground (arith, forgotten_without i m sound gone, rows_by_id-absent i m.fts.rows []))
      | inr (r, there) ↦
          let stale = is_stale_row i r m sound there in
          let all_stale = forgotten_with i r m sound there ∙ stale in
          elim (Bool-cases (is_stale r (Dict.lookup i (held_rows m)))) [
            | inl differs ↦ rw there (
                inr (
                  is_stale-true r (Dict.lookup i (held_rows m)) differs,
                  entries-forget i ids m.fts ∙ rw (all_stale, differs) refl,
                  lookup-forget i ids m.fts ∙ rw (all_stale, differs) refl,
                  find_ack-reset_stale consumer i (stale_ids m) m.tables ∙ rw (stale, differs) refl,
                ))
            | inr agrees ↦ rw there (
                inl (
                  is_stale-false r (Dict.lookup i (held_rows m)) agrees,
                  entries-forget i ids m.fts ∙ rw (all_stale, agrees) refl,
                  lookup-forget i ids m.fts ∙ rw (all_stale, agrees) refl,
                  find_ack-reset_stale consumer i (stale_ids m) m.tables ∙ rw (stale, agrees) refl,
                ))
          ]
    ]
