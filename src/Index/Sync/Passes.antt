-- ===== src/Index/Sync/Passes.antt =====
-- The passes of a machine keep its file accounted for.
use session_flow.Base.{
  ℕ, ◌≡◌, ap, ◌∙◌, String, false, Option, none, some, List, [], ◌∷◌, nat_eq, string_eq, arith,
  Bool-cases, Option-cases, inl, inr, ◌⊎◌,
}
use session_flow.Base.Dict
use session_flow.Base.Dict.{Dict, lookup-insert}
use session_flow.Memory.Record.{MemoryRow, IndexAck}
use session_flow.Memory.Acks.{ack, canonical, find_ack, upsert_ack, is_older, is_of}
use session_flow.Index.Fts.{FtsRow, Watermark, MemoryFts, apply, is_marked}
use session_flow.Index.Fts.Latest.{entries, lookup-apply_self, apply_marked}
use session_flow.Index.Sync.{
  Machine, Fault, canonical_raises, apply_raises, ack_raises, ack_row, finish, check_mark,
  apply_row, apply_fts,
}
use session_flow.Index.Sync.Laws.{Reaches, Accounted, IsSynced, marked-Reaches, Accounted-apply}

-- What a consumer holds of a memory after an ack is what it held, or the ack.
find-upsert_ack_other :
    (new : IndexAck) (consumer : String) (i : ℕ) (acks : List IndexAck)
    → is_of consumer i new ≡ false
    → find_ack consumer i (upsert_ack new acks).1 ≡ find_ack consumer i acks
unfolding upsert_ack find_ack
find-upsert_ack_other new consumer i [] n = ground arith
find-upsert_ack_other new consumer i (a ∷ acks) n =
    ground (arith, find-upsert_ack_other new consumer i acks n)

find-upsert_ack_self :
    (new : IndexAck) (acks : List IndexAck)
    → (find_ack new.consumer new.memory_id (upsert_ack new acks).1
        ≡ find_ack new.consumer new.memory_id acks)
      ⊎ (find_ack new.consumer new.memory_id (upsert_ack new acks).1 ≡ some new)
unfolding upsert_ack find_ack
find-upsert_ack_self new [] = inr (ground arith)
find-upsert_ack_self new (a ∷ acks) = elim (Bool-cases (is_of new.consumer new.memory_id a)) [
  | inl own ↦ elim (Bool-cases (is_older a new.version new.generation)) [
    | inl older ↦ inr (ground arith)
    | inr newer ↦ inl (ground arith)
  ]
  | inr other ↦ elim (find-upsert_ack_self new acks) [
    | inl e ↦ inl (ground (arith, e))
    | inr e ↦ inr (ground (arith, e))
  ]
]

module _ (field : String → String → Option String) (consumer : String) where
  Accounted-new :
      (new : IndexAck) (o : Option MemoryRow) (mark : Option Watermark) (a : Option IndexAck)
      (held : List FtsRow)
      → (r : MemoryRow) × (o ≡ some r) × Reaches mark new.version
      → Accounted field o mark a held
      → Accounted field o mark (some new) held
  Accounted-new new none mark a held (r, there, reached) h = absurd (ground (arith, there))
  Accounted-new new (some x) mark a held (r, there, reached) h = (h.0, reached)

  Accounted-ack :
      (i : ℕ) (new : IndexAck) (acks : List IndexAck) (o : Option MemoryRow)
      (mark : Option Watermark) (held : List FtsRow)
      → (consumer ≡ new.consumer
          → i ≡ new.memory_id
          → (r : MemoryRow) × (o ≡ some r) × Reaches mark new.version)
      → Accounted field o mark (find_ack consumer i acks) held
      → Accounted field o mark (find_ack consumer i (upsert_ack new acks).1) held
  Accounted-ack i new acks o mark held own h = elim (Bool-cases (is_of consumer i new)) [
    | inr other ↦ rw (find-upsert_ack_other new consumer i acks other) h
    | inl same ↦
        let c : consumer ≡ new.consumer = ground arith in
        let e : i ≡ new.memory_id = ground arith in
        let h' : Accounted field o mark (find_ack new.consumer new.memory_id acks) held =
          rw (c, e) at h in
        rw (c, e)
          (elim (find-upsert_ack_self new acks) [
            | inl old ↦ rw old h'
            | inr written ↦ rw written (
                Accounted-new new o mark (find_ack new.consumer new.memory_id acks) held (own c e)
                  h')
          ])
  ]

  -- An ack of another consumer, or of what the file has, keeps the file accounted for.
  pub ack-IsSynced :
      (new : IndexAck) (m : Machine)
      → (consumer ≡ new.consumer → Reaches (Dict.lookup new.memory_id m.fts.watermarks) new.version)
      → IsSynced field consumer m
      → IsSynced field consumer (record m { tables = (ack new m.tables).1 })
  unfolding ack
  ack-IsSynced new m reached h = elim (Option-cases (Dict.lookup new.memory_id m.tables.memories)) [
    | inl gone ↦ rw (gone, ack) h
    | inr (r, there) ↦
        rw (there, ack)
          (record {
            keyed = h.keyed;
            accounted = λ i.
                Accounted-ack i new m.tables.memory_index_acks (Dict.lookup i m.tables.memories)
                  (Dict.lookup i m.fts.watermarks) (entries i m.fts)
                  (λ c e. (r, rw e there, rw e (reached c))) (h.accounted i);
          })
  ]

  pub apply-IsSynced :
      (r : MemoryRow) (m : Machine)
      → Dict.lookup r.memory_id m.tables.memories ≡ some r
      → IsSynced field consumer m
      → IsSynced field consumer (record m { fts = (apply field r m.fts).1 })
  apply-IsSynced r m there h = record {
    keyed = h.keyed;
    accounted = λ i.
        Accounted-apply field i (Dict.lookup i m.tables.memories) r m.fts
          (find_ack consumer i m.tables.memory_index_acks) (λ e. rw e there) (h.accounted i);
  }

  apply-Reaches :
      (r : MemoryRow) (f : MemoryFts)
      → Reaches (Dict.lookup r.memory_id (apply field r f).1.watermarks) r.version
  apply-Reaches r f =
      elim (Bool-cases (is_marked (Dict.lookup r.memory_id f.watermarks) r.version)) [
        | inl old ↦
            rw (apply_marked field r f old)
              (marked-Reaches field (Dict.lookup r.memory_id f.watermarks) r.version old)
        | inr fresh ↦ rw (lookup-apply_self field r f fresh) (omega arith)
      ]

  finish-IsSynced :
      (r : MemoryRow) (generation : ℕ) (fault : Fault) (m : Machine)
      → Reaches (Dict.lookup r.memory_id m.fts.watermarks) r.version
      → IsSynced field consumer m
      → IsSynced field consumer (finish consumer r generation fault m).1
  unfolding finish
  finish-IsSynced r generation ack_raises m reached h = h
  finish-IsSynced r generation fault m reached h =
      ack-IsSynced (ack_row consumer r generation) m (λ _. reached) h

  check_mark-IsSynced :
      (r : MemoryRow) (generation : ℕ) (fault : Fault) (m : Machine)
      → Reaches (Dict.lookup r.memory_id m.fts.watermarks) r.version
      → IsSynced field consumer m
      → IsSynced field consumer (check_mark consumer r generation fault m).1
  unfolding check_mark
  check_mark-IsSynced r generation fault m reached h =
      ground (arith, finish-IsSynced r generation fault m reached h, h)

  apply_row-IsSynced :
      (r : MemoryRow) (generation : ℕ) (fault : Fault) (m : Machine)
      → Dict.lookup r.memory_id m.tables.memories ≡ some r
      → IsSynced field consumer m
      → IsSynced field consumer (apply_row field consumer r generation fault m).1
  unfolding apply_row
  apply_row-IsSynced r generation apply_raises m there h = h
  apply_row-IsSynced r generation fault m there h =
      let m' : Machine = record m { fts = (apply field r m.fts).1 } in
      let h' = apply-IsSynced r m there h in
      let reached = apply-Reaches r m.fts in
      ground (
        arith,
        finish-IsSynced r generation fault m' reached h',
        check_mark-IsSynced r generation fault m' reached h',
      )

  -- A pass over one memory, whichever of its calls raises.
  pub apply_fts-IsSynced :
      (memory_id : ℕ) (fault : Fault) (m : Machine)
      → IsSynced field consumer m
      → IsSynced field consumer (apply_fts field consumer memory_id fault m).1
  unfolding apply_fts apply_row canonical
  apply_fts-IsSynced memory_id canonical_raises m h = h
  apply_fts-IsSynced memory_id fault m h =
      elim (Option-cases (Dict.lookup memory_id m.tables.memories)) [
        | inl gone ↦ rw (gone, apply_fts, canonical) h
        | inr (r, there) ↦
            rw (there, apply_fts, canonical)
              (apply_row-IsSynced r m.tables.generation fault m
                (ap (λ j. Dict.lookup j m.tables.memories) (h.keyed memory_id r there) ∙ there) h)
      ]
