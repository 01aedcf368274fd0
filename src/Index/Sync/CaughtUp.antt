-- ===== src/Index/Sync/CaughtUp.antt =====
-- What a machine's file holds once its consumer is not behind.
use mathlib.Core.Option
use mathlib.Core.Option.{some-injective}
use mathlib.Core.Path.{subst}
use session_flow.Base.{
  ℕ, ◌≡◌, ◌≢◌, ◌≤◌, refl, sym, ap, ◌∙◌, String, true, false, not, Option, none, some, List, nat_eq,
  string_eq, arith, Bool-cases, Option-cases, inl, inr, ◌⊎◌,
}
use session_flow.Base.Dict
use session_flow.Base.Dict.{Dict}
use session_flow.Memory.Record.{MemoryRow, IndexAck, MemoryTables}
use session_flow.Memory.Select.{is_live}
use session_flow.Memory.Acks.{ack, find_ack, canonical, is_behind}
use session_flow.Memory.Acks.Laws.{
  Advanced, NotOlder, Advanced-refl, ack-Advanced, ack-not_behind, HeldAtMost,
}
use session_flow.Index.Fts.{FtsRow, Watermark, apply, view, shown, is_marked, watermark}
use session_flow.Index.Fts.Latest.{entries}
use session_flow.Index.Sync.{
  Machine, Fault, no_fault, canonical_raises, apply_raises, watermark_raises, ack_raises, ack_row,
  finish, is_below, check_mark, apply_row, apply_fts,
}
use session_flow.Index.Sync.Laws.{Accounted, IsSynced}

-- A consumer that is not behind stays so as its acks advance.
is_behind-Advanced :
    (consumer : String) (r : MemoryRow) (s t : MemoryTables)
    → Advanced
        (find_ack consumer r.memory_id s.memory_index_acks)
        (find_ack consumer r.memory_id t.memory_index_acks)
    → consumer ≢ "milvus"
    → is_behind consumer s r ≡ false
    → is_behind consumer t r ≡ false
unfolding is_behind
is_behind-Advanced consumer r s t adv other h =
    elim (Option-cases (find_ack consumer r.memory_id s.memory_index_acks)) [
      | inl missing ↦ ground arith
      | inr (a, e) ↦ elim (Option-cases (find_ack consumer r.memory_id t.memory_index_acks)) [
        | inl missing ↦ absurd (rw (e, missing) at adv)
        | inr (b, f) ↦ let q : NotOlder a b = rw (e, f) at adv in ground arith
      ]
    ]

-- A consumer that is not behind on a row holds its version.
is_behind-held :
    (consumer : String) (r : MemoryRow) (s : MemoryTables)
    → is_behind consumer s r ≡ false
    → (a : IndexAck) × ((find_ack consumer r.memory_id s.memory_index_acks ≡ some a)
        × (r.version ≤ a.version))
unfolding is_behind
is_behind-held consumer r s h =
    elim (Option-cases (find_ack consumer r.memory_id s.memory_index_acks)) [
      | inl missing ↦ absurd (ground arith)
      | inr (a, e) ↦ (a, (e, ground arith))
    ]

module _ (field : String → String → Option String) (consumer : String) where
  -- The file where the consumer is not behind.
  Accounted-current :
      (r : MemoryRow) (mark : Option Watermark) (a : IndexAck) (held : List FtsRow)
      → Accounted field (some r) mark (some a) held
      → r.version ≤ a.version
      → held ≡ view field r
  Accounted-current r none a held ((_, acked)) le = absurd acked
  Accounted-current r (some m) a held ((below, at_version), acked) le =
      at_version (omega (arith, below, acked, le))

  abbrev pub UpToDate : ℕ → Machine → Type 0
  UpToDate i m =
      (r : MemoryRow)
      → Dict.lookup i m.tables.memories ≡ some r
      → is_behind consumer m.tables r ≡ false

  Accounted-at :
      (i : ℕ) (m : Machine) (o : Option MemoryRow) (a : Option IndexAck)
      → Dict.lookup i m.tables.memories ≡ o
      → find_ack consumer i m.tables.memory_index_acks ≡ a
      → IsSynced field consumer m
      → Accounted field o (Dict.lookup i m.fts.watermarks) a (entries i m.fts)
  Accounted-at i m o a e f h = rw⁻¹ (e, f) (h.accounted i)

  pub UpToDate-entries :
      (i : ℕ) (m : Machine)
      → IsSynced field consumer m
      → UpToDate i m
      → entries i m.fts ≡ shown field (Dict.lookup i m.tables.memories)
  UpToDate-entries i m h current = elim (Option-cases (Dict.lookup i m.tables.memories)) [
    | inl gone ↦
        rw gone
          (Accounted-at i m none (find_ack consumer i m.tables.memory_index_acks) gone refl h).2
    | inr (r, there) ↦
        let (a, (e, le)) = is_behind-held consumer r m.tables (current r there) in
        let e' : find_ack consumer i m.tables.memory_index_acks ≡ some a =
          ap (λ j. find_ack consumer j m.tables.memory_index_acks) (sym (h.keyed i r there)) ∙ e in
        rw there (
          Accounted-current r (Dict.lookup i m.fts.watermarks) a (entries i m.fts)
            (Accounted-at i m (some r) (some a) there e' h) le)
  ]

  -- The tables after a pass over one memory: as they were, or with an ack.
  abbrev Acked : MemoryTables → MemoryTables → Type 0
  Acked s t = (t ≡ s) ⊎ ((new : IndexAck) × (t ≡ (ack new s).1))

  finish-Acked :
      (r : MemoryRow) (generation : ℕ) (fault : Fault) (m : Machine)
      → Acked m.tables (finish consumer r generation fault m).1.tables
  unfolding finish
  finish-Acked r generation ack_raises m = inl refl
  finish-Acked r generation fault m = inr (ack_row consumer r generation, refl)

  check_mark-Acked :
      (r : MemoryRow) (generation : ℕ) (fault : Fault) (m : Machine)
      → Acked m.tables (check_mark consumer r generation fault m).1.tables
  unfolding check_mark
  check_mark-Acked r generation watermark_raises m = inl refl
  check_mark-Acked r generation fault m =
      elim (Bool-cases (is_below (watermark r.memory_id m.fts) r.version)) [
        | inl below ↦ rw (below, check_mark) (inl refl)
        | inr reached ↦ rw (reached, check_mark) (finish-Acked r generation fault m)
      ]

  apply_row-Acked :
      (r : MemoryRow) (generation : ℕ) (fault : Fault) (m : Machine)
      → Acked m.tables (apply_row field consumer r generation fault m).1.tables
  unfolding apply_row
  apply_row-Acked r generation apply_raises m = inl refl
  apply_row-Acked r generation fault m =
      let m' : Machine = record m { fts = (apply field r m.fts).1 } in
      elim (Bool-cases (apply field r m.fts).0) [
        | inl applied ↦ rw (applied, apply_row) (finish-Acked r generation fault m')
        | inr marked ↦ rw (marked, apply_row) (check_mark-Acked r generation fault m')
      ]

  pub apply_fts-Acked :
      (memory_id : ℕ) (fault : Fault) (m : Machine)
      → Acked m.tables (apply_fts field consumer memory_id fault m).1.tables
  unfolding apply_fts canonical
  apply_fts-Acked memory_id canonical_raises m = inl refl
  apply_fts-Acked memory_id fault m =
      elim (Option-cases (Dict.lookup memory_id m.tables.memories)) [
        | inl gone ↦ rw (gone, apply_fts, canonical) (inl refl)
        | inr (r, there) ↦
            rw (there, apply_fts, canonical) (apply_row-Acked r m.tables.generation fault m)
      ]

  memories-ack : (new : IndexAck) (s : MemoryTables) → (ack new s).1.memories ≡ s.memories
  unfolding ack
  memories-ack new s = ground arith

  pub memories-Acked : (s t : MemoryTables) → Acked s t → t.memories ≡ s.memories
  memories-Acked s t (inl same) = rw same refl
  memories-Acked s t (inr (new, e)) = rw e (memories-ack new s)

  Acked-Advanced :
      (i : ℕ) (s t : MemoryTables)
      → Acked s t
      → Advanced (find_ack consumer i s.memory_index_acks) (find_ack consumer i t.memory_index_acks)
  Acked-Advanced i s t (inl same) =
      rw same (Advanced-refl (find_ack consumer i s.memory_index_acks))
  Acked-Advanced i s t (inr (new, e)) = rw e (ack-Advanced new consumer i s)

  -- A pass over any memory, whichever call raises, leaves the consumer up to date on what it was.
  pub apply_fts-UpToDate_still :
      (i memory_id : ℕ) (fault : Fault) (m : Machine)
      → consumer ≢ "milvus"
      → IsSynced field consumer m
      → UpToDate i m
      → UpToDate i (apply_fts field consumer memory_id fault m).1
  apply_fts-UpToDate_still i memory_id fault m other h current r there =
      let t = (apply_fts field consumer memory_id fault m).1.tables in
      let acked = apply_fts-Acked memory_id fault m in
      is_behind-Advanced consumer r m.tables t (Acked-Advanced r.memory_id m.tables t acked) other
        (current r (rw⁻¹ (memories-Acked m.tables t acked) there))

  is_below_reached :
      (mark : Option Watermark) (version : ℕ)
      → is_marked mark version ≡ true
      → is_below (Option.map (λ (w : Watermark). w.version) mark) version ≡ false
  is_below_reached none version h = ground arith
  is_below_reached (some w) version h = ground arith

  -- A pass without a fault: the file takes the row, or has a later one, and the ack is sent.
  apply_row-run :
      (r : MemoryRow) (generation : ℕ) (m : Machine)
      → apply_row field consumer r generation no_fault m ≡ (
        true,
        record {
          tables = (ack (ack_row consumer r generation) m.tables).1;
          fts = (apply field r m.fts).1;
        },
      )
  unfolding apply_row finish check_mark watermark apply
  apply_row-run r generation m =
      elim (Bool-cases (is_marked (Dict.lookup r.memory_id m.fts.watermarks) r.version)) [
        | inr fresh ↦ rw (fresh, apply_row, apply) refl
        | inl marked ↦
            rw
              (
                marked,
                apply_row,
                apply,
                is_below_reached (Dict.lookup r.memory_id m.fts.watermarks) r.version marked,
              )
              refl
      ]

  CopyOf-HeldAtMost :
      (r : MemoryRow) (mark : Option Watermark) (a : Option IndexAck) (held : List FtsRow)
      → Accounted field (some r) mark a held
      → HeldAtMost r.version a
  CopyOf-HeldAtMost r mark none held h = tt
  CopyOf-HeldAtMost r none (some a) held (copy, acked) = absurd acked
  CopyOf-HeldAtMost r (some w) (some a) held ((below, _), acked) = omega (arith, below, acked)

  row_done :
      (r : MemoryRow) (m : Machine)
      → Dict.lookup r.memory_id m.tables.memories ≡ some r
      → IsSynced field consumer m
      → is_behind consumer (ack (ack_row consumer r m.tables.generation) m.tables).1 r ≡ false
  row_done r m there h = ack-not_behind consumer r (not (is_live r)) m.tables there (
      CopyOf-HeldAtMost r (Dict.lookup r.memory_id m.fts.watermarks)
        (find_ack consumer r.memory_id m.tables.memory_index_acks) (entries r.memory_id m.fts)
        (Accounted-at r.memory_id m (some r)
          (find_ack consumer r.memory_id m.tables.memory_index_acks) there refl h))

  -- A pass without a fault leaves the consumer up to date on its memory.
  pub apply_fts-UpToDate :
      (memory_id : ℕ) (m : Machine)
      → IsSynced field consumer m
      → UpToDate memory_id (apply_fts field consumer memory_id no_fault m).1
  unfolding apply_fts canonical
  apply_fts-UpToDate memory_id m h = elim (Option-cases (Dict.lookup memory_id m.tables.memories)) [
    | inl gone ↦ rw (gone, apply_fts, canonical) (λ r there. absurd (ground (arith, gone, there)))
    | inr (r, there) ↦
        rw (there, apply_fts, canonical, apply_row-run r m.tables.generation m)
          (λ x e.
            subst
              (λ y.
                is_behind consumer (ack (ack_row consumer r m.tables.generation) m.tables).1 y
                ≡ false)
              (some-injective r x (
                sym there
                ∙ rw (memories-ack (ack_row consumer r m.tables.generation) m.tables) at e))
              (row_done r m
                (ap (λ j. Dict.lookup j m.tables.memories) (h.keyed memory_id r there) ∙ there) h))
  ]
