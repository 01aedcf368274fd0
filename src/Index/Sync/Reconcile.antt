-- ===== src/Index/Sync/Reconcile.antt =====
-- What `reconcile` forgets and takes back.
pub mod Repaired
use mathlib.Core.Path.{subst}
use mathlib.Core.Option.{some-injective}
use session_flow.Base.{
  ℕ, ◌+◌, ◌≡◌, ◌≢◌, refl, sym, ap, ◌∙◌, String, Bool, true, false, not, ◌&&◌, ◌||◌, Option, none,
  some, List, [], ◌∷◌, ◌++◌, map, contains, contains-append, contains-keep_at, keep, ◌==◌, nat_eq,
  string_eq, if◌then◌else◌, arith, Bool-cases, Option-cases, inl, inr, ◌⊎◌, ℕ_discrete,
}
use session_flow.Base.Dict
use session_flow.Base.Dict.{Dict, NodupKeys, lookup-insert, lookup-erase}
use session_flow.Memory.Record.{MemoryRow, IndexAck, MemoryTables}
use session_flow.Memory.Select.{is_live}
use session_flow.Memory.Acks.{find_ack, is_selected, reset_acks, index_state, insert_by_seq, by_seq}
use session_flow.Memory.Writes.Unique.{IsSound, lookup-tail}
use session_flow.Index.Fts.{FtsRow, Watermark, MemoryFts, delete_rows, forget, rows_by_id}
use session_flow.Index.Fts.Latest.{entries, entries-delete_self, entries-delete_other}
use session_flow.Index.Sync.{
  Machine, ids_of, is_stale, held_rows, stale_ids, strays, reset_stale, reconcile_fts,
  ReconcileFault, all_answer, read_raises, forget_raises, reset_raises, reset_answer_lost,
}
use session_flow.Index.Sync.Laws.{IsSynced, Accounted}
use session_flow.Index.Sync.Tick.{contains-by_seq}

entries-delete :
    (i j : ℕ) (rows : List FtsRow)
    → keep (λ (r : FtsRow). r.memory_id == i) (delete_rows j rows)
      ≡ (if i == j then [] else keep (λ (r : FtsRow). r.memory_id == i) rows)
entries-delete i j rows = elim (ℕ_discrete i j) [
  | yes e ↦ rw e (ground (arith, entries-delete_self j rows))
  | no n ↦ ground (arith, entries-delete_other i j rows n)
]

pub entries-forget :
    (i : ℕ) (ids : List ℕ) (f : MemoryFts)
    → entries i (forget ids f) ≡ (if contains ids i then [] else entries i f)
unfolding forget
entries-forget i [] f = refl
entries-forget i (x ∷ ids) f = ground (
  arith,
  entries-delete i x f.rows,
  entries-forget i ids
      (record { rows = delete_rows x f.rows; watermarks = Dict.erase x f.watermarks }),
)

pub lookup-forget :
    (i : ℕ) (ids : List ℕ) (f : MemoryFts)
    → Dict.lookup i (forget ids f).watermarks
      ≡ (if contains ids i then none else Dict.lookup i f.watermarks)
unfolding forget
lookup-forget i [] f = refl
lookup-forget i (x ∷ ids) f = ground (
  arith,
  lookup-erase i x f.watermarks,
  lookup-forget i ids
      (record { rows = delete_rows x f.rows; watermarks = Dict.erase x f.watermarks }),
)

find_ack-reset_some :
    (consumer : String) (i : ℕ) (ids : List ℕ) (acks : List IndexAck)
    → find_ack consumer i
        (keep (λ (a : IndexAck). not (is_selected (some ids) (some consumer) a)) acks)
      ≡ (if contains ids i then none else find_ack consumer i acks)
unfolding find_ack
find_ack-reset_some consumer i ids [] = ground arith
find_ack-reset_some consumer i ids (a ∷ acks) =
    ground (arith, find_ack-reset_some consumer i ids acks)

pub find_ack-reset_stale :
    (consumer : String) (i : ℕ) (ids : List ℕ) (s : MemoryTables)
    → find_ack consumer i (reset_stale consumer ids s).1.memory_index_acks
      ≡ (if contains ids i then none else find_ack consumer i s.memory_index_acks)
unfolding reset_stale reset_acks
find_ack-reset_stale consumer i [] s = refl
find_ack-reset_stale consumer i (x ∷ ids) s =
    find_ack-reset_some consumer i (x ∷ ids) s.memory_index_acks

memories-reset_stale :
    (consumer : String) (ids : List ℕ) (s : MemoryTables)
    → (reset_stale consumer ids s).1.memories ≡ s.memories
unfolding reset_stale reset_acks
memories-reset_stale consumer [] s = refl
memories-reset_stale consumer (x ∷ ids) s = refl

contains-keys : (i : ℕ) (d : Dict ℕ (ℕ × String)) → contains (Dict.keys d) i ≡ Dict.has i d
unfolding Dict.keys Dict.lookup
contains-keys i [] = refl
contains-keys i ((k, v) ∷ d) = ground (arith, contains-keys i d)

pub is_stray :
    (i : ℕ) (m : Machine)
    → contains (strays m) i ≡ (not (Dict.has i m.tables.memories) && Dict.has i (held_rows m))
is_stray i m =
    contains-keep_at (λ j. not (Dict.has j m.tables.memories)) i (Dict.keys (held_rows m))
    ∙ ap (λ b. not (Dict.has i m.tables.memories) && b) (contains-keys i (held_rows m))

module _ (field : String → String → Option String) where
  Accounted-forgotten :
      (o : Option MemoryRow) (mark : Option Watermark) (a : Option IndexAck) (held : List FtsRow)
      (reset forgotten : Bool)
      → (reset ≡ true → forgotten ≡ true)
      → (reset ≡ false → forgotten ≡ true → o ≡ none)
      → Accounted field o mark a held
      → Accounted field o
          (if forgotten then none else mark)
          (if reset then none else a)
          (if forgotten then [] else held)
  Accounted-forgotten none mark a held true true both stray h = (refl, refl, refl)
  Accounted-forgotten none mark a held false true both stray h = (refl, h.1, refl)
  Accounted-forgotten (some r) mark a held true true both stray h = (tt, tt)
  Accounted-forgotten (some r) mark a held false true both stray h =
      absurd (ground (arith, stray refl refl))
  Accounted-forgotten o mark a held true false both stray h = absurd (ground (arith, both refl))
  Accounted-forgotten o mark a held false false both stray h = h

  repaired-IsSynced :
      (consumer : String) (m : Machine)
      → IsSynced field consumer m
      → IsSynced field consumer (record {
        tables = (reset_stale consumer (stale_ids m) m.tables).1;
        fts = forget (stale_ids m ++ strays m) m.fts;
      })
  repaired-IsSynced consumer m h =
      let same = memories-reset_stale consumer (stale_ids m) m.tables in
      record {
        keyed = λ i r e. h.keyed i r (rw⁻¹ same e);
        accounted = λ i.
            rw
              (
                same,
                entries-forget i (stale_ids m ++ strays m) m.fts,
                lookup-forget i (stale_ids m ++ strays m) m.fts,
                find_ack-reset_stale consumer i (stale_ids m) m.tables,
              )
              (Accounted-forgotten (Dict.lookup i m.tables.memories)
                (Dict.lookup i m.fts.watermarks) (find_ack consumer i m.tables.memory_index_acks)
                (entries i m.fts) (contains (stale_ids m) i) (contains (stale_ids m ++ strays m) i)
                (λ stale. ground (arith, contains-append (stale_ids m) (strays m) i, stale))
                (λ fresh out.
                  ground
                    (arith, contains-append (stale_ids m) (strays m) i, is_stray i m, fresh, out))
                (h.accounted i));
      }

  -- A reconcile that takes copies out of the file also takes their acks back, unless that call raises.
  pub reconcile_fts-IsSynced :
      (consumer : String) (fault : ReconcileFault) (m : Machine)
      → fault ≢ reset_raises
      → IsSynced field consumer m
      → IsSynced field consumer (reconcile_fts consumer fault m).1
  unfolding reconcile_fts
  reconcile_fts-IsSynced consumer all_answer m n h = repaired-IsSynced consumer m h
  reconcile_fts-IsSynced consumer read_raises m n h = h
  reconcile_fts-IsSynced consumer forget_raises m n h = h
  reconcile_fts-IsSynced consumer reset_raises m n h = absurd (n refl)
  reconcile_fts-IsSynced consumer reset_answer_lost m n h = repaired-IsSynced consumer m h
