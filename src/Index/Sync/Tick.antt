-- ===== src/Index/Sync/Tick.antt =====
-- A batch of passes, and the tick: which memories it brings up to date.
use mathlib.Core.Option.{some-injective}
use mathlib.Core.Path.{subst}
use session_flow.Base.{
  ℕ, ◌≡◌, ◌≢◌, ◌≤◌, refl, sym, ap, ◌∙◌, String, Bool, true, false, ◌||◌, Option, none, some, List,
  [], ◌∷◌, contains, keep, length, take_all, ◌==◌, nat_eq, string_eq, arith, Bool-cases, inl, inr,
  ℕ_discrete,
}
use session_flow.Base.Dict
use session_flow.Base.Dict.{Dict}
use session_flow.Memory.Record.{MemoryRow}
use session_flow.Memory.Acks.{is_behind, insert_by_seq, by_seq, pending}
use session_flow.Index.Fts.{shown}
use session_flow.Index.Fts.Latest.{entries}
use session_flow.Index.Sync.{
  Machine, Fault, no_fault, apply_fts, apply_batch, ids_of, tick_fts, tick_batch,
}
use session_flow.Index.Sync.Laws.{IsSynced}
use session_flow.Index.Sync.Passes.{apply_fts-IsSynced}
use session_flow.Index.Sync.CaughtUp.{
  UpToDate, UpToDate-entries, memories-Acked, apply_fts-Acked, apply_fts-UpToDate_still,
  apply_fts-UpToDate,
}

contains-insert_by_seq :
    (i : ℕ) (r : MemoryRow) (rows : List MemoryRow)
    → contains (ids_of (insert_by_seq r rows)) i ≡ (i == r.memory_id || contains (ids_of rows) i)
unfolding insert_by_seq
contains-insert_by_seq i r [] = refl
contains-insert_by_seq i r (x ∷ rows) = ground (arith, contains-insert_by_seq i r rows)

pub contains-by_seq :
    (i : ℕ) (rows : List MemoryRow) → contains (ids_of (by_seq rows)) i ≡ contains (ids_of rows) i
unfolding by_seq
contains-by_seq i [] = refl
contains-by_seq i (r ∷ rows) =
    contains-insert_by_seq i r (by_seq rows)
    ∙ ap (λ b. i == r.memory_id || b) (contains-by_seq i rows)

pub contains-keep :
    (p : MemoryRow → Bool) (i : ℕ) (r : MemoryRow) (d : Dict ℕ MemoryRow)
    → Dict.lookup i d ≡ some r
    → r.memory_id ≡ i
    → p r ≡ true
    → contains (ids_of (keep p (Dict.values d))) i ≡ true
unfolding Dict.lookup Dict.values
contains-keep p i r [] there own yes_p = absurd (ground (arith, there))
contains-keep p i r ((j, x) ∷ d) there own yes_p = ground (arith, contains-keep p i r d)

module _ (field : String → String → Option String) (consumer : String) where
  pub apply_batch-IsSynced :
      (faults : ℕ → Fault) (ids : List ℕ) (m : Machine)
      → IsSynced field consumer m
      → IsSynced field consumer (apply_batch field consumer faults ids m).1
  unfolding apply_batch
  apply_batch-IsSynced faults [] m h = h
  apply_batch-IsSynced faults (x ∷ ids) m h =
      apply_batch-IsSynced faults ids (apply_fts field consumer x (faults x) m).1
        (apply_fts-IsSynced field consumer x (faults x) m h)

  memories-apply_batch :
      (faults : ℕ → Fault) (ids : List ℕ) (m : Machine)
      → (apply_batch field consumer faults ids m).1.tables.memories ≡ m.tables.memories
  unfolding apply_batch
  memories-apply_batch faults [] m = refl
  memories-apply_batch faults (x ∷ ids) m =
      memories-apply_batch faults ids (apply_fts field consumer x (faults x) m).1
      ∙ memories-Acked field consumer m.tables (apply_fts field consumer x (faults x) m).1.tables
          (apply_fts-Acked field consumer x (faults x) m)

  apply_batch-UpToDate_still :
      (faults : ℕ → Fault) (i : ℕ) (ids : List ℕ) (m : Machine)
      → consumer ≢ "milvus"
      → IsSynced field consumer m
      → UpToDate field consumer i m
      → UpToDate field consumer i (apply_batch field consumer faults ids m).1
  unfolding apply_batch
  apply_batch-UpToDate_still faults i [] m other h current = current
  apply_batch-UpToDate_still faults i (x ∷ ids) m other h current =
      apply_batch-UpToDate_still faults i ids (apply_fts field consumer x (faults x) m).1 other
        (apply_fts-IsSynced field consumer x (faults x) m h)
        (apply_fts-UpToDate_still field consumer i x (faults x) m other h current)

  apply_batch-UpToDate :
      (faults : ℕ → Fault) (i : ℕ) (ids : List ℕ) (m : Machine)
      → consumer ≢ "milvus"
      → IsSynced field consumer m
      → contains ids i ≡ true
      → faults i ≡ no_fault
      → UpToDate field consumer i (apply_batch field consumer faults ids m).1
  unfolding apply_batch
  apply_batch-UpToDate faults i [] m other h among well = absurd (ground (arith, among))
  apply_batch-UpToDate faults i (x ∷ ids) m other h among well = elim (ℕ_discrete i x) [
    | yes e ↦
        apply_batch-UpToDate_still faults i ids (apply_fts field consumer x (faults x) m).1 other
          (apply_fts-IsSynced field consumer x (faults x) m h)
          (rw⁻¹ e (rw well (apply_fts-UpToDate field consumer i m h)))
    | no n ↦
        apply_batch-UpToDate faults i ids (apply_fts field consumer x (faults x) m).1 other
          (apply_fts-IsSynced field consumer x (faults x) m h) (ground arith) well
  ]

  -- A row that the consumer is behind on is in its batch, when the batch holds all that are pending.
  pending-contains :
      (i : ℕ) (r : MemoryRow) (m : Machine)
      → Dict.lookup i m.tables.memories ≡ some r
      → r.memory_id ≡ i
      → is_behind consumer m.tables r ≡ true
      → length (pending consumer none m.tables) ≤ tick_batch
      → contains (ids_of (pending consumer (some tick_batch) m.tables)) i ≡ true
  unfolding pending
  pending-contains i r m there own behind few =
      rw (take_all tick_batch (pending consumer none m.tables) few) (
        contains-by_seq i (keep (is_behind consumer m.tables) (Dict.values m.tables.memories))
        ∙ contains-keep (is_behind consumer m.tables) i r m.tables.memories there own behind)

  tick_fts-UpToDate :
      (faults : ℕ → Fault) (i : ℕ) (m : Machine)
      → consumer ≢ "milvus"
      → IsSynced field consumer m
      → length (pending consumer none m.tables) ≤ tick_batch
      → faults i ≡ no_fault
      → UpToDate field consumer i (tick_fts field consumer faults m).1
  unfolding tick_fts
  tick_fts-UpToDate faults i m other h few well r there' =
      let ids = ids_of (pending consumer (some tick_batch) m.tables) in
      let there : Dict.lookup i m.tables.memories ≡ some r =
        ap (λ d. Dict.lookup i d) (sym (memories-apply_batch faults ids m)) ∙ there' in
      elim (Bool-cases (is_behind consumer m.tables r)) [
        | inl behind ↦
            apply_batch-UpToDate faults i ids m other h
              (pending-contains i r m there (h.keyed i r there) behind few) well r there'
        | inr current ↦
            apply_batch-UpToDate_still faults i ids m other h
              (λ x e.
                subst (λ y. is_behind consumer m.tables y ≡ false)
                  (some-injective r x (sym there ∙ e)) current)
              r there'
      ]

  -- A machine whose consumer is not the one of the vectors and whose file is accounted for, with no
  -- more than 256 memories pending, ticks, and some of the calls may raise. Of every memory none of
  -- whose calls did, the file then holds exactly what the record has to show: the text of a live
  -- one, nothing of a deleted one or of one that never was. A memory that fails holds back no
  -- other.
  pub tick_fts-entries :
      (faults : ℕ → Fault) (i : ℕ) (m : Machine)
      → consumer ≢ "milvus"
      → IsSynced field consumer m
      → length (pending consumer none m.tables) ≤ tick_batch
      → faults i ≡ no_fault
      → entries i (tick_fts field consumer faults m).1.fts
        ≡ shown field (Dict.lookup i m.tables.memories)
  unfolding tick_fts
  tick_fts-entries faults i m other h few well =
      let ids = ids_of (pending consumer (some tick_batch) m.tables) in
      UpToDate-entries field consumer i (tick_fts field consumer faults m).1
        (apply_batch-IsSynced faults ids m h) (tick_fts-UpToDate faults i m other h few well)
      ∙ ap (λ d. shown field (Dict.lookup i d)) (memories-apply_batch faults ids m)
