-- ===== src/Tests/Index.antt =====
-- A machine that follows one memory.
use session_flow.Base.{false, List, ◌≡◌, refl, none, some, [], ◌∷◌, arith, nat_eq, string_eq}
use mathlib.Core.Bool.{false≢true}
use text.Mathlib.TextEquality.{eq_iff}
use session_flow.Base.Dict
use session_flow.Memory.Record.{MemoryRow, MemoryTables}
use session_flow.Memory.Change.{put_row}
use session_flow.Memory.Acks.{is_behind, by_seq, insert_by_seq, pending, find_ack}
use session_flow.Memory.Writes.{delete_tx, committed}
use session_flow.Memory.Writes.Unique.{IsSound}
use session_flow.Index.Fts.{no_fts, shown}
use session_flow.Index.Fts.Latest.{entries, apply_all, HoldsNewest, apply_all-HoldsNewest}
use session_flow.Index.Sync.{
  Machine, no_fault, ack_raises, tick_fts, reconcile_fts, all_answer, ack_row,
}
use session_flow.Index.Sync.Laws.{IsSynced}
use session_flow.Index.Sync.Tick.{tick_fts-entries}
use session_flow.Index.Sync.Steps.{tick, delete, insert, Reach, here, next, Reach-IsSynced}
use session_flow.Index.Sync.Reconcile.Repaired.{Repaired, reconcile_fts-Repaired}
use session_flow.Index.Vectors.{Round, apply_milvus}
use session_flow.Index.Vectors.Laws.{Ended, apply_milvus-Ended}
use session_flow.Tests.Listing.{memory, no_field}

abbrev later : MemoryRow
later = record (memory 1) { version = 2; text = "again" }

apply_all-HoldsNewest_example :
    HoldsNewest no_field 1
      (memory 1 ∷ later ∷ memory 2 ∷ [])
      (apply_all no_field (memory 1 ∷ later ∷ memory 2 ∷ []))
apply_all-HoldsNewest_example = apply_all-HoldsNewest no_field (memory 1 ∷ later ∷ memory 2 ∷ []) 1

abbrev empty : Machine
empty = record {
  tables = record {
    memories = [];
    memory_versions = [];
    memory_index_acks = [];
    generation = 1;
    next_change_seq = 1;
  };
  fts = no_fts;
}

empty-IsSynced : IsSynced no_field "fts:here" empty
unfolding Dict.lookup find_ack
empty-IsSynced = record {
  keyed = λ i r h. absurd (ground arith);
  accounted = λ i. (refl, refl, refl);
}

abbrev inserted : Machine
inserted = record empty { tables = put_row (memory 1) empty.tables }

inserts : Reach no_field "fts:here" empty inserted
unfolding Dict.lookup
inserts = next here (insert (memory 1) refl)

abbrev deleted_after_a_lost_pass : Machine
deleted_after_a_lost_pass =
    let m = (tick_fts no_field "fts:here" (λ i. ack_raises) inserted).1 in
    record m { tables = committed m.tables (delete_tx (λ n. n) (some 1) none m.tables) }

Reach-IsSynced_example : IsSynced no_field "fts:here" deleted_after_a_lost_pass
Reach-IsSynced_example =
    Reach-IsSynced no_field "fts:here" empty deleted_after_a_lost_pass
      (next (next inserts (tick (λ i. ack_raises))) (delete (λ n. n) (some 1) none)) empty-IsSynced

inserted-IsSynced : IsSynced no_field "fts:here" inserted
inserted-IsSynced = Reach-IsSynced no_field "fts:here" empty inserted inserts empty-IsSynced

tick_fts-entries_example :
    entries 1 (tick_fts no_field "fts:here" (λ i. no_fault) inserted).1.fts
    ≡ shown no_field (Dict.lookup 1 inserted.tables.memories)
unfolding pending is_behind find_ack by_seq insert_by_seq put_row Dict.insert Dict.values
tick_fts-entries_example =
    tick_fts-entries no_field "fts:here" (λ i. no_fault) 1 inserted
      (λ e. false≢true ((eq_iff "fts:here" "milvus").1 e)) inserted-IsSynced (omega arith) refl

abbrev emptied_behind_its_acks : Machine
emptied_behind_its_acks = record {
  tables = record inserted.tables { memory_index_acks = ack_row "fts:here" (memory 1) 1 ∷ [] };
  fts = no_fts;
}

inserted-IsSound : IsSound inserted.tables.memories
unfolding Dict.lookup put_row Dict.insert
inserted-IsSound = record {
  nodup = (refl, tt);
  keyed = λ i r h. ground arith;
  unique = λ i j a b h k clash. ground arith;
}

reconcile_fts-Repaired_example :
    Repaired "fts:here" emptied_behind_its_acks
      (reconcile_fts "fts:here" all_answer emptied_behind_its_acks).1
      1
      (Dict.lookup 1 emptied_behind_its_acks.tables.memories)
reconcile_fts-Repaired_example =
    reconcile_fts-Repaired "fts:here" emptied_behind_its_acks 1 inserted-IsSound

-- The text changes while it is embedded, and the second round writes it.
abbrev changed_meanwhile : MemoryTables
changed_meanwhile = record inserted.tables {
  memories = (1, record later { content_hash = "h2" }) ∷ [];
}

abbrev two_rounds : List Round
two_rounds =
    record {
      blocked = false;
      seen = inserted.tables;
      acked = inserted.tables;
      locked = changed_meanwhile;
      blocks = false;
    }
    ∷ record {
      blocked = false;
      seen = changed_meanwhile;
      acked = changed_meanwhile;
      locked = changed_meanwhile;
      blocks = false;
    }
    ∷ []

apply_milvus-Ended_example :
    Ended
      (λ i. i)
      (λ s n. s)
      1024
      no_field
      (λ text. text)
      1
      two_rounds
      []
      (apply_milvus (λ i. i) (λ s n. s) 1024 no_field (λ text. text) 1 two_rounds []).0
      (apply_milvus (λ i. i) (λ s n. s) 1024 no_field (λ text. text) 1 two_rounds []).1
apply_milvus-Ended_example =
    apply_milvus-Ended (λ i. i) (λ s n. s) 1024 no_field (λ text. text) 1 two_rounds []
