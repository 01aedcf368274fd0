-- ===== src/Memory/Writes.antt =====
-- `add`, `update` and `delete` of `MemoryStore`. The clock is a parameter: the time that is read for the
-- change with a number. So is the new UUID that an insert draws.
pub mod Unique
pub mod Standing
pub mod Adding
pub mod Dedup
pub mod Deleting
use session_flow.Base.{
  ℕ, zero, suc, ◌+◌, String, Bool, true, false, not, ◌&&◌, ◌||◌, Option, none, some, List, [], ◌∷◌,
  ◌++◌, map, ltb, leb, contains, keep, ◌==◌, Eq, string_eq, nat_eq, option_eq, if◌then◌else◌, ◌⊎◌,
  inl, inr,
}
use mathlib.Core.Option
use session_flow.Base.Dict
use session_flow.Base.Dict.{Dict}
use session_flow.Memory.Record.{
  MemoryRow, NewMemory, Changes, Outcome, created, replaced, deduplicated, updated, unchanged,
  deleted, superseded, WriteResult, WriteError, memory_not_found, memory_conflict,
  invalid_supersede, project_mismatch, invalid_field, IndexAck, MemoryTables,
}
use session_flow.Memory.Sorted.{insert_id, sorted_ids, remove_one, same_sorted}
use session_flow.Memory.Select.{
  is_live, live_in, has_topic, first_row, wrong_project, has_hash, rows_where, target_ids,
  target_rows,
}
use session_flow.Memory.Change.{
  no_changes, same, or_old, same_list, no_effect, assign, next_time, result_of, put_row,
  reset_row_acks, changed_row, apply_change, supersede,
}

-- `value or None`
abbrev pub non_empty : Option String → Option String
non_empty none = none
non_empty (some k) = if k == "" then none else some k

pub data Resolution : Type 0 where
  two_rows : MemoryRow → MemoryRow → Resolution
  topic_moves already_there : MemoryRow → Resolution
  nothing_there : Resolution

-- The rows, by id, that would share a hash or a topic key with a changed record.
unfoldable pub rival : Changes → MemoryRow → MemoryRow → Bool
rival c r other =
    not (other.memory_id == r.memory_id)
    && (live_in r.user_id r.project other
        && (has_hash c.content_hash other || has_topic (or_old c.topic_key none) other))

-- What the two matches of an added record come to.
unfoldable pub resolve : NewMemory → Option MemoryRow → Option MemoryRow → Resolution
resolve rec none none = nothing_there
resolve rec none (some h) = already_there h
resolve rec (some t) none =
    if t.content_hash == rec.content_hash then already_there t else topic_moves t
resolve rec (some t) (some h) =
    if not (t.memory_id == h.memory_id)
    then two_rows t h
    else if t.content_hash == rec.content_hash
    then already_there t
    else topic_moves t

-- The changes of a replacement.
abbrev pub replacement : NewMemory → List ℕ → Changes
replacement rec targets = record {
  text = some rec.text;
  content_hash = some rec.content_hash;
  agent_id = some rec.agent_id;
  type = some rec.type;
  status = some rec.status;
  topic_key = none;
  extra = some rec.extra;
  issue_ids = some rec.issue_ids;
  supersedes = elim targets [ [] ↦ none | t ∷ more ↦ some (t ∷ more) ];
  source_session_id = some rec.source_session_id;
  source_provider = some rec.source_provider;
  source_project_root = some rec.source_project_root;
  source_started_at = some rec.source_started_at;
  source_ended_at = some rec.source_ended_at;
  updated_at = rec.updated_at;
}

-- The tables once the transaction ends: a raised error rolls back.
abbrev pub committed : MemoryTables → WriteError ⊎ (WriteResult × MemoryTables) → MemoryTables
committed s (inl error) = s
committed s (inr (result, s')) = s'

module _ (clock : ℕ → ℕ) where
  unfoldable pub delete_tx :
      Option ℕ → Option String → MemoryTables → WriteError ⊎ (WriteResult × MemoryTables)
  unfolding next_time
  delete_tx none expect_project s = inl memory_not_found
  delete_tx (some memory_id) expect_project s = elim (Dict.lookup memory_id s.memories) [
    | none ↦ inl memory_not_found
    | some r ↦
        let now = next_time (clock s.next_change_seq) r in
        let r' = record r {
          deleted_at = some now;
          updated_at = now;
          version = r.version + 1;
          change_seq = s.next_change_seq;
        } in
        if not (is_live r)
        then inl memory_not_found
        else if wrong_project expect_project r
        then inl (project_mismatch r.memory_id r.project)
        else inr (result_of deleted r', reset_row_acks memory_id (put_row r' s))
  ]

  unfoldable pub update_tx :
      Option ℕ → Changes → Option String → MemoryTables → WriteError ⊎ (WriteResult × MemoryTables)
  unfolding apply_change
  update_tx none c expect_project s = inl memory_not_found
  update_tx (some memory_id) c expect_project s = elim (Dict.lookup memory_id s.memories) [
    | none ↦ inl memory_not_found
    | some r ↦
        if not (is_live r)
        then inl memory_not_found
        else if wrong_project expect_project r
        then inl (project_mismatch r.memory_id r.project)
        else elim (rows_where (rival c r) s.memories) [
          | [] ↦ inr (apply_change clock updated c r s)
          | first ∷ more ↦ inl (
              memory_conflict
                (sorted_ids (r.memory_id ∷ map (λ (o : MemoryRow). o.memory_id) (first ∷ more))))
        ]
  ]

  -- `update`: a new text brings its hash, and an empty topic key is none. Of the fields of `Changes`
  -- only `supersedes` is not in `_UPDATABLE`.
  unfoldable pub update :
      (String → String)
      → Option ℕ
      → Changes
      → Option String
      → MemoryTables
      → WriteError ⊎ (WriteResult × MemoryTables)
  unfolding update_tx
  update content_hash memory_id c expect_project s =
      let hash : Option String = elim c.content_hash [
        | some h ↦ some h
        | none ↦ Option.map content_hash c.text
      ] in
      let topic = Option.map non_empty c.topic_key in
      elim c.supersedes [
        | some targets ↦ inl invalid_field
        | none ↦
            update_tx memory_id (record c { content_hash = hash; topic_key = topic }) expect_project
              s
      ]

  unfoldable pub new_row : ℕ → NewMemory → Option String → List ℕ → MemoryTables → MemoryRow
  new_row memory_id rec topic targets s =
      let born = or_old rec.created_at (clock s.next_change_seq) in
      record {
        memory_id = memory_id;
        user_id = rec.user_id;
        agent_id = rec.agent_id;
        project = rec.project;
        type = rec.type;
        status = rec.status;
        topic_key = topic;
        content_hash = rec.content_hash;
        text = rec.text;
        extra = rec.extra;
        issue_ids = rec.issue_ids;
        supersedes = targets;
        source_session_id = rec.source_session_id;
        source_provider = rec.source_provider;
        source_project_root = rec.source_project_root;
        source_started_at = rec.source_started_at;
        source_ended_at = rec.source_ended_at;
        created_at = born;
        updated_at = or_old rec.updated_at born;
        version = 1;
        change_seq = s.next_change_seq;
        deleted_at = none;
      }

  -- `_add_tx` once the targets are known to be good: `rows` are theirs.
  unfoldable pub add_resolved :
      ℕ
      → NewMemory
      → Option String
      → List ℕ
      → List MemoryRow
      → Resolution
      → MemoryTables
      → WriteError ⊎ (WriteResult × MemoryTables)
  unfolding supersede apply_change put_row
  add_resolved memory_id rec topic targets rows (two_rows t h) s =
      inl (memory_conflict (sorted_ids (t.memory_id ∷ h.memory_id ∷ [])))
  add_resolved memory_id rec topic targets rows (already_there r) s =
      inr (result_of deduplicated r, s)
  add_resolved memory_id rec topic targets rows (topic_moves t) s =
      let (result, s') = apply_change clock replaced (replacement rec targets) t s in
      inr (
        result,
        supersede clock (keep (λ (r : MemoryRow). not (r.memory_id == t.memory_id)) rows) s',
      )
  add_resolved memory_id rec topic targets rows nothing_there s =
      let r = new_row memory_id rec topic targets s in
      inr (result_of created r, supersede clock rows (put_row r s))

  -- `add`, with the UUID that an insert draws.
  unfoldable pub add : ℕ → NewMemory → MemoryTables → WriteError ⊎ (WriteResult × MemoryTables)
  unfolding add_resolved
  add memory_id rec s =
      let topic = non_empty rec.topic_key in
      elim (target_ids rec.supersedes) [
        | none ↦ inl (invalid_supersede rec.supersedes)
        | some ids ↦
            let targets = sorted_ids ids in
            let (rows, bad) = target_rows rec.user_id rec.project targets s.memories in
            elim bad [
              | [] ↦
                  let topic_row =
                    first_row (λ r. live_in rec.user_id rec.project r && has_topic topic r)
                      s.memories in
                  let hash_row =
                    first_row
                      (λ r. live_in rec.user_id rec.project r && r.content_hash == rec.content_hash)
                      s.memories in
                  add_resolved memory_id rec topic targets rows (resolve rec topic_row hash_row) s
              | first ∷ more ↦ inl (invalid_supersede (map (λ t. some t) (first ∷ more)))
            ]
      ]
