-- ===== src/Memory/Change.antt =====
-- `_apply_change`, `_supersede`, `_next_time`, `_snapshot` and `_reset_acks` of memory_store.py. The
-- clock is a parameter: the time that is read for the change with a number.
use session_flow.Base.{
  ℕ, ◌+◌, Bool, true, not, ◌&&◌, Option, none, some, List, [], ◌∷◌, ◌++◌, leb, keep, ◌==◌, Eq,
  string_eq, nat_eq, option_eq, if◌then◌else◌,
}
use session_flow.Base.Dict
use session_flow.Base.Dict.{Dict}
use session_flow.Memory.Record.{
  MemoryRow, Changes, Outcome, unchanged, superseded, WriteResult, IndexAck, MemoryTables,
}
use session_flow.Memory.Sorted.{sorted_ids, same_sorted}

abbrev pub no_changes : Changes
no_changes = record {
  text = none;
  content_hash = none;
  agent_id = none;
  type = none;
  status = none;
  topic_key = none;
  extra = none;
  issue_ids = none;
  supersedes = none;
  source_session_id = none;
  source_provider = none;
  source_project_root = none;
  source_started_at = none;
  source_ended_at = none;
  updated_at = none;
}

abbrev pub same {ℓ} : {A : Type ℓ} ⦃e : Eq A⦄ → Option A → A → Bool
same none old = true
same (some new) old = new == old

abbrev pub or_old {ℓ} : {A : Type ℓ} → Option A → A → A
or_old none old = old
or_old (some new) old = new

abbrev pub same_list {ℓ} : {A : Type ℓ} ⦃e : Eq A⦄ → Option (List A) → List A → Bool
same_list none old = true
same_list (some new) old = same_sorted new old

-- Whether `effective` is empty.
unfoldable pub no_effect : Changes → MemoryRow → Bool
no_effect c r =
    same c.text r.text
    && (same c.content_hash r.content_hash
        && (same c.agent_id r.agent_id
            && (same c.type r.type
                && (same c.status r.status
                    && (same c.topic_key r.topic_key
                        && (same c.extra r.extra
                            && (same_list c.issue_ids r.issue_ids
                                && (same_list c.supersedes r.supersedes
                                    && (same c.source_session_id r.source_session_id
                                        && (same c.source_provider r.source_provider
                                            && (same c.source_project_root r.source_project_root
                                                && (same c.source_started_at r.source_started_at
                                                    && same c.source_ended_at
                                                        r.source_ended_at))))))))))))

-- The row with the effective changes. A list that only changes its order is not one.
unfoldable pub assign : Changes → MemoryRow → MemoryRow
assign c r = record r {
  text = or_old c.text r.text;
  content_hash = or_old c.content_hash r.content_hash;
  agent_id = or_old c.agent_id r.agent_id;
  type = or_old c.type r.type;
  status = or_old c.status r.status;
  topic_key = or_old c.topic_key r.topic_key;
  extra = or_old c.extra r.extra;
  issue_ids =
      if same_list c.issue_ids r.issue_ids then r.issue_ids else or_old c.issue_ids r.issue_ids;
  supersedes =
      if same_list c.supersedes r.supersedes
      then r.supersedes
      else sorted_ids (or_old c.supersedes r.supersedes);
  source_session_id = or_old c.source_session_id r.source_session_id;
  source_provider = or_old c.source_provider r.source_provider;
  source_project_root = or_old c.source_project_root r.source_project_root;
  source_started_at = or_old c.source_started_at r.source_started_at;
  source_ended_at = or_old c.source_ended_at r.source_ended_at;
}

-- `_next_time`, from the time that the clock gives.
unfoldable pub next_time : ℕ → MemoryRow → ℕ
next_time now r = if leb (r.updated_at + 1) now then now else r.updated_at + 1

abbrev pub result_of : Outcome → MemoryRow → WriteResult
result_of outcome r = record {
  memory_id = r.memory_id;
  outcome = outcome;
  version = r.version;
  created_at = r.created_at;
  updated_at = r.updated_at;
  change_seq = r.change_seq;
}

-- A row in its place, its snapshot, and the number that it took.
unfoldable pub put_row : MemoryRow → MemoryTables → MemoryTables
put_row r s = record s {
  memories = Dict.insert r.memory_id r s.memories;
  memory_versions = s.memory_versions ++ r ∷ [];
  next_change_seq = s.next_change_seq + 1;
}

-- `_reset_acks` of one record.
unfoldable pub reset_row_acks : ℕ → MemoryTables → MemoryTables
reset_row_acks memory_id s = record s {
  memory_index_acks = keep (λ (a : IndexAck). not (a.memory_id == memory_id)) s.memory_index_acks;
}

module _ (clock : ℕ → ℕ) where
  unfoldable pub changed_row : Changes → MemoryRow → MemoryTables → MemoryRow
  unfolding assign next_time
  changed_row c r s = record (assign c r) {
    updated_at = or_old c.updated_at (next_time (clock s.next_change_seq) r);
    version = r.version + 1;
    change_seq = s.next_change_seq;
  }

  unfoldable pub apply_change :
      Outcome → Changes → MemoryRow → MemoryTables → WriteResult × MemoryTables
  unfolding put_row reset_row_acks
  apply_change outcome c r s =
      if no_effect c r
      then (result_of unchanged r, s)
      else let r' = changed_row c r s in
        (result_of outcome r', reset_row_acks r.memory_id (put_row r' s))

  -- `_supersede`
  unfoldable pub supersede : List MemoryRow → MemoryTables → MemoryTables
  supersede [] s = s
  supersede (r ∷ rows) s =
      if r.status == "superseded"
      then supersede rows s
      else supersede rows
          (apply_change superseded (record no_changes { status = some "superseded" }) r s).1
