-- ===== src/Index/Sync/Laws.antt =====
-- What a machine's acks say of its full-text file.
use session_flow.Base.{
  ℕ, ◌≡◌, ◌≤◌, refl, String, true, Option, none, some, List, [], nat_eq, string_eq, arith,
  Bool-cases, inl, inr, ℕ_discrete,
}
use mathlib.Core.Path.{subst}
use session_flow.Base.Dict
use session_flow.Base.Dict.{Dict, lookup-insert}
use session_flow.Memory.Record.{MemoryRow, IndexAck}
use session_flow.Memory.Acks.{find_ack}
use session_flow.Index.Fts.{FtsRow, Watermark, MemoryFts, apply, view, is_marked}
use session_flow.Index.Fts.Latest.{
  entries, mark_of, entries-apply_self, lookup-apply_self, apply_marked, entries-apply_other,
  lookup-apply_other,
}
use session_flow.Index.Sync.{Machine}

-- The watermark of a record reaches a version.
abbrev pub Reaches : Option Watermark → ℕ → Type 0
Reaches none version = ⊥
Reaches (some m) version = version ≤ m.version

abbrev pub AckReached : Option Watermark → Option IndexAck → Type 0
AckReached mark none = Unit
AckReached mark (some a) = Reaches mark a.version

module _ (field : String → String → Option String) where
  -- What the file may hold of a record: no version beyond the record's, and at that version its view.
  abbrev pub CopyOf : MemoryRow → Option Watermark → List FtsRow → Type 0
  CopyOf r none held = Unit
  CopyOf r (some m) held = (m.version ≤ r.version) × (m.version ≡ r.version → held ≡ view field r)

  abbrev pub Accounted :
      Option MemoryRow → Option Watermark → Option IndexAck → List FtsRow → Type 0
  Accounted none mark a held = (mark ≡ none) × (a ≡ none) × (held ≡ [])
  Accounted (some r) mark a held = CopyOf r mark held × AckReached mark a

  -- Of every id: without a record the file and the acks of the machine have nothing; with one, the file
  -- has no later version than the record's, what it has of that version is the record's view, and what
  -- the machine has acked the file has.
  pub record IsSynced (consumer : String) (m : Machine) : Type 0 where
    pub keyed : (i : ℕ) (r : MemoryRow) → Dict.lookup i m.tables.memories ≡ some r → r.memory_id ≡ i
    pub accounted :
        (i : ℕ)
        → Accounted
            (Dict.lookup i m.tables.memories)
            (Dict.lookup i m.fts.watermarks)
            (find_ack consumer i m.tables.memory_index_acks)
            (entries i m.fts)

  -- One application of a row of the store, seen from each id.
  pub marked-Reaches :
      (mark : Option Watermark) (version : ℕ) → is_marked mark version ≡ true → Reaches mark version
  marked-Reaches none version h = ground arith
  marked-Reaches (some m) version h = ground arith

  AckReached-mono :
      (r : MemoryRow) (mark : Option Watermark) (m : Watermark) (a : Option IndexAck)
      (held : List FtsRow)
      → CopyOf r mark held
      → AckReached mark a
      → r.version ≤ m.version
      → AckReached (some m) a
  AckReached-mono r mark m none held copy acked le = tt
  AckReached-mono r none m (some a) held copy acked le = absurd acked
  AckReached-mono r (some old) m (some a) held copy acked le = omega (arith, copy.0)

  Accounted-apply_self :
      (r : MemoryRow) (f : MemoryFts) (a : Option IndexAck)
      → Accounted (some r) (Dict.lookup r.memory_id f.watermarks) a (entries r.memory_id f)
      → Accounted
          (some r)
          (Dict.lookup r.memory_id (apply field r f).1.watermarks)
          a
          (entries r.memory_id (apply field r f).1)
        × Reaches (Dict.lookup r.memory_id (apply field r f).1.watermarks) r.version
  Accounted-apply_self r f a (copy, acked) =
      elim (Bool-cases (is_marked (Dict.lookup r.memory_id f.watermarks) r.version)) [
        | inl old ↦
            rw (apply_marked field r f old)
              ((copy, acked), marked-Reaches (Dict.lookup r.memory_id f.watermarks) r.version old)
        | inr fresh ↦
            rw (entries-apply_self field r f fresh, lookup-apply_self field r f fresh)
              (
                (
                  (omega arith, λ _. refl),
                  AckReached-mono r (Dict.lookup r.memory_id f.watermarks) (mark_of field r) a
                      (entries r.memory_id f) copy acked (omega arith),
                ),
                omega arith,
              )
      ]

  pub Accounted-apply :
      (i : ℕ) (o : Option MemoryRow) (r : MemoryRow) (f : MemoryFts) (a : Option IndexAck)
      → (i ≡ r.memory_id → o ≡ some r)
      → Accounted o (Dict.lookup i f.watermarks) a (entries i f)
      → Accounted o (Dict.lookup i (apply field r f).1.watermarks) a (entries i (apply field r f).1)
  Accounted-apply i o r f a own h = elim (ℕ_discrete i r.memory_id) [
    | yes e ↦ rw (own e) (
        rw e
          (Accounted-apply_self r f a (
            subst
              (λ (p : Option MemoryRow).
                Accounted p (Dict.lookup r.memory_id f.watermarks) a (entries r.memory_id f))
              (own e)
              (subst (λ j. Accounted o (Dict.lookup j f.watermarks) a (entries j f)) e h))).0)
    | no n ↦ rw (entries-apply_other field i r f n, lookup-apply_other field i r f n) h
  ]
