-- ===== src/Index/Sync.antt =====
-- The passes of `MemoryIndex` over the full-text file: `_apply_fts`, their half of `tick`, `reconcile`
-- and `_rebuild_fts`. Which call of the store or of the file raises is an argument,
-- the reset of the acks and of the file at the start of a rebuild apart. A pass runs by itself.
pub mod Laws
pub mod Passes
pub mod Steps
pub mod CaughtUp
pub mod Tick
pub mod Reconcile
use session_flow.Base.{
  ℕ, suc, ◌+◌, String, Bool, true, false, not, ◌&&◌, ◌||◌, Option, none, some, List, [], ◌∷◌, ◌++◌,
  map, ltb, length, keep, ◌==◌, string_eq, nat_eq, if◌then◌else◌,
}
use session_flow.Base.Dict
use session_flow.Base.Dict.{Dict}
use session_flow.Memory.Record.{MemoryRow, IndexAck, MemoryTables}
use session_flow.Memory.Select.{is_live}
use session_flow.Memory.Acks.{ack, canonical, pending, index_state, reset_acks}
use session_flow.Index.Fts.{MemoryFts, no_fts, apply, watermark, forget, rows_by_id}

abbrev pub tick_batch : ℕ
tick_batch = 256

-- The shared tables and this machine's file.
pub record Machine : Type 0 where
  pub tables : MemoryTables
  pub fts : MemoryFts

-- The call of `_apply_fts` that raises, if one does. A lost answer is an ack that was written, with an
-- error after it.
pub data Fault : Type 0 where
  no_fault canonical_raises apply_raises watermark_raises ack_raises answer_lost : Fault

abbrev pub ack_row : String → MemoryRow → ℕ → IndexAck
ack_row consumer r generation = record {
  consumer = consumer;
  memory_id = r.memory_id;
  version = r.version;
  generation = generation;
  deleted = not (is_live r);
}

unfoldable pub finish : String → MemoryRow → ℕ → Fault → Machine → Bool × Machine
finish consumer r generation ack_raises m = (false, m)
finish consumer r generation answer_lost m =
    (false, record m { tables = (ack (ack_row consumer r generation) m.tables).1 })
finish consumer r generation fault m =
    (true, record m { tables = (ack (ack_row consumer r generation) m.tables).1 })

abbrev pub is_below : Option ℕ → ℕ → Bool
is_below none version = true
is_below (some mark) version = ltb mark version

-- What follows a file that did not take the row.
unfoldable pub check_mark : String → MemoryRow → ℕ → Fault → Machine → Bool × Machine
unfolding finish watermark
check_mark consumer r generation watermark_raises m = (false, m)
check_mark consumer r generation fault m =
    if is_below (watermark r.memory_id m.fts) r.version
    then (false, m)
    else finish consumer r generation fault m

abbrev pub ids_of : List MemoryRow → List ℕ
ids_of = map (λ (r : MemoryRow). r.memory_id)

module _ (field : String → String → Option String) where
  unfoldable pub apply_row : String → MemoryRow → ℕ → Fault → Machine → Bool × Machine
  unfolding finish check_mark
  apply_row consumer r generation apply_raises m = (false, m)
  apply_row consumer r generation fault m =
      let (applied, fts) = apply field r m.fts in
      let m' = record m { fts = fts } in
      if applied
      then finish consumer r generation fault m'
      else check_mark consumer r generation fault m'

  unfoldable pub apply_fts : String → ℕ → Fault → Machine → Bool × Machine
  unfolding apply_row canonical
  apply_fts consumer memory_id canonical_raises m = (false, m)
  apply_fts consumer memory_id fault m = elim (canonical (some memory_id) m.tables) [
    | none ↦ (false, m)
    | some (r, generation) ↦ apply_row consumer r generation fault m
  ]

  -- The ids of a batch in turn, each with its fault, and how many were done.
  unfoldable pub apply_batch : String → (ℕ → Fault) → List ℕ → Machine → ℕ × Machine
  apply_batch consumer faults [] m = (0, m)
  apply_batch consumer faults (memory_id ∷ ids) m =
      let (ok, m') = apply_fts consumer memory_id (faults memory_id) m in
      let (done, m'') = apply_batch consumer faults ids m' in (if ok then suc done else done, m'')

  -- The full-text half of `tick`.
  unfoldable pub tick_fts : String → (ℕ → Fault) → Machine → ℕ × Machine
  unfolding apply_batch
  tick_fts consumer faults m =
      apply_batch consumer faults (ids_of (pending consumer (some tick_batch) m.tables)) m

  unfoldable pub rebuild_fts : String → (ℕ → Fault) → Machine → Machine
  unfolding apply_batch
  rebuild_fts consumer faults m =
      let emptied : Machine = record {
        tables = (reset_acks none (some consumer) m.tables).1;
        fts = no_fts;
      } in
      (apply_batch consumer faults (ids_of (index_state emptied.tables)) emptied).1

-- Whether the file's copy of a record differs from the record.
abbrev pub is_stale : MemoryRow → Option (ℕ × String) → Bool
is_stale r none = is_live r
is_stale r (some (version, content_hash)) =
    if is_live r then not (version == r.version) || not (content_hash == r.content_hash) else true

abbrev pub held_rows : Machine → Dict ℕ (ℕ × String)
held_rows m = rows_by_id m.fts.rows []

-- The records whose copy differs.
abbrev pub stale_ids : Machine → List ℕ
stale_ids m = ids_of (
    keep (λ (r : MemoryRow). is_stale r (Dict.lookup r.memory_id (held_rows m)))
      (index_state m.tables))

-- The copies of no record.
abbrev pub strays : Machine → List ℕ
strays m = keep (λ i. not (Dict.has i m.tables.memories)) (Dict.keys (held_rows m))

-- `if stale: reset += ...`
unfoldable pub reset_stale : String → List ℕ → MemoryTables → ℕ × MemoryTables
reset_stale consumer [] s = (0, s)
reset_stale consumer (i ∷ ids) s = reset_acks (some (i ∷ ids)) (some consumer) s

-- The call of `reconcile` that raises, if one does: a read of the index state or of the file's rows, `forget`, or
-- `reset_acks`. A lost answer is a reset that was done, with an error after it.
pub data ReconcileFault : Type 0 where
  all_answer read_raises forget_raises reset_raises reset_answer_lost : ReconcileFault

-- The full-text half of `reconcile` with no other pass between its calls, and how many acks it took back, or `none`
-- where it raises. A call is made only if it has something to do.
unfoldable pub reconcile_fts : String → ReconcileFault → Machine → Option ℕ × Machine
unfolding forget reset_stale
reconcile_fts consumer all_answer m =
    let (count, tables) = reset_stale consumer (stale_ids m) m.tables in
    (some count, record { tables = tables; fts = forget (stale_ids m ++ strays m) m.fts })
reconcile_fts consumer read_raises m = (none, m)
reconcile_fts consumer forget_raises m = (none, m)
reconcile_fts consumer reset_raises m =
    (none, record m { fts = forget (stale_ids m ++ strays m) m.fts })
reconcile_fts consumer reset_answer_lost m =
    let (count, tables) = reset_stale consumer (stale_ids m) m.tables in
    (none, record { tables = tables; fts = forget (stale_ids m ++ strays m) m.fts })
