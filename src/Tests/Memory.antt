-- ===== src/Tests/Memory.antt =====
-- A store with one record, changes of it, and what index consumers see.
use session_flow.Base.{
  inr, ℕ, ◌+◌, ◌≡◌, ◌≢◌, refl, String, true, false, none, some, [], ◌∷◌, ◌++◌, arith, nat_eq,
  string_eq, option_eq,
}
use session_flow.Base.Dict
use session_flow.Memory.Record.{MemoryRow, NewMemory, Changes, MemoryTables, updated, deduplicated}
use session_flow.Memory.Sorted.{sorted_ids}
use session_flow.Memory.Select.{target_ids, target_rows, first_row}
use session_flow.Memory.Change.{
  result_of, apply_change, changed_row, no_effect, no_changes, put_row, supersede,
}
use session_flow.Memory.Writes.{
  add, update_tx, delete_tx, committed, resolve, add_resolved, new_row,
}
use session_flow.Memory.Writes.Unique.{IsSound, update_tx-IsSound}
use session_flow.Memory.Writes.Deleting.{Ends, delete_tx-Deleted}
use session_flow.Memory.Writes.Dedup.{add-deduplicated}
use session_flow.Memory.Writes.Adding.{add-IsSound}
use session_flow.Memory.Acks.{ack, find_ack, is_behind}
use session_flow.Memory.Acks.Laws.{
  Advanced, HeldAtMost, ack_of, ack-Advanced, ack-not_behind, apply_change-is_behind,
}

abbrev clock : ℕ → ℕ
clock n = 1000 + n

abbrev no_tables : MemoryTables
no_tables = record {
  memories = [];
  memory_versions = [];
  memory_index_acks = [];
  generation = 1;
  next_change_seq = 1;
}

abbrev note : String → String → NewMemory
note text content_hash = record {
  text = text;
  agent_id = "agent";
  project = "flow";
  type = "decision";
  content_hash = content_hash;
  user_id = "me";
  status = "active";
  topic_key = some "parser";
  extra = "{}";
  issue_ids = [];
  supersedes = [];
  source_session_id = none;
  source_provider = none;
  source_project_root = none;
  source_started_at = none;
  source_ended_at = none;
  created_at = none;
  updated_at = none;
}

no_tables-IsSound : IsSound no_tables.memories
unfolding Dict.lookup
no_tables-IsSound = record {
  nodup = tt;
  keyed = λ i r h. absurd (ground arith);
  unique = λ i j a b h k clash. absurd (ground arith);
}

abbrev one : MemoryTables
one = committed no_tables (add clock 7 (note "first" "h1") no_tables)

one-IsSound : IsSound one.memories
unfolding Dict.lookup
one-IsSound = add-IsSound clock 7 (note "first" "h1") no_tables no_tables-IsSound refl

seven_only : Dict.lookup 8 one.memories ≡ none
unfolding Dict.lookup Dict.insert add add_resolved target_ids target_rows sorted_ids first_row
    resolve put_row supersede new_row nat_eq
seven_only = refl

add-IsSound_example : IsSound (committed one (add clock 8 (note "second" "h2") one)).memories
add-IsSound_example = add-IsSound clock 8 (note "second" "h2") one one-IsSound seven_only

abbrev retitled : Changes
retitled = record no_changes { text = some "first, again"; content_hash = some "h3" }

update_tx-IsSound_example :
    IsSound (committed one (update_tx clock (some 7) retitled (some "flow") one)).memories
update_tx-IsSound_example = update_tx-IsSound clock (some 7) retitled (some "flow") one one-IsSound

delete_tx-Deleted_example : Ends 7 (some "flow") one (delete_tx clock (some 7) (some "flow") one)
delete_tx-Deleted_example = delete_tx-Deleted clock 7 (some "flow") one one-IsSound

abbrev first_note : MemoryRow
first_note = new_row clock 7 (note "first" "h1") (some "parser") [] no_tables

abbrev held : MemoryTables
held = record no_tables {
  memories = (7, first_note) ∷ [];
  memory_index_acks = ack_of "fts" first_note false no_tables ∷ [];
  next_change_seq = 2;
}

ack-Advanced_example :
    Advanced
      (find_ack "fts" 7 held.memory_index_acks)
      (find_ack "fts" 7 (ack (ack_of "milvus" first_note false held) held).1.memory_index_acks)
ack-Advanced_example = ack-Advanced (ack_of "milvus" first_note false held) "fts" 7 held

there_seven : Dict.lookup first_note.memory_id held.memories ≡ some first_note
unfolding Dict.lookup nat_eq new_row
there_seven = refl

milvus_holds_none :
    HeldAtMost first_note.version (find_ack "milvus" first_note.memory_id held.memory_index_acks)
unfolding find_ack new_row nat_eq string_eq
milvus_holds_none = tt

ack-not_behind_example :
    is_behind "milvus" (ack (ack_of "milvus" first_note false held) held).1 first_note ≡ false
ack-not_behind_example = ack-not_behind "milvus" first_note false held there_seven milvus_holds_none

retitled_effect : no_effect retitled first_note ≡ false
unfolding no_effect new_row string_eq
retitled_effect = refl

apply_change-is_behind_example :
    let s = (apply_change clock updated retitled first_note held).1 in
    let r = changed_row clock retitled first_note held in
    (Dict.lookup first_note.memory_id s.memories ≡ some r)
    × (r.version ≡ first_note.version + 1)
    × (s.memory_versions ≡ held.memory_versions ++ r ∷ [])
    × ((consumer : String) → is_behind consumer s r ≡ true)
    × ((consumer : String) (other : ℕ)
        → other ≢ first_note.memory_id
        → find_ack consumer other s.memory_index_acks
          ≡ find_ack consumer other held.memory_index_acks)
apply_change-is_behind_example =
    apply_change-is_behind clock updated retitled first_note held retitled_effect

seven_there : Dict.lookup 7 one.memories ≡ some first_note
unfolding Dict.lookup Dict.insert add add_resolved target_ids target_rows sorted_ids first_row
    resolve put_row supersede new_row nat_eq string_eq
seven_there = refl

add-deduplicated_example :
    add clock 9 (note "first" "h1") one ≡ inr (result_of deduplicated first_note, one)
unfolding string_eq new_row option_eq
add-deduplicated_example =
    add-deduplicated clock 9 (note "first" "h1") one first_note one-IsSound seven_there refl refl
      refl refl
