-- ===== src/Memory/Record.antt =====
-- The rows, requests, results and errors of memory_store.py. A memory's UUID is its 128-bit number.
-- `extra` is the JSON text with sorted keys, by which `_normalize` compares it. Times are microseconds.
use session_flow.Base.{ℕ, String, Bool, Option, List}
use session_flow.Base.Dict.{Dict}

pub record MemoryRow : Type 0 where
  pub memory_id : ℕ
  pub user_id : String
  pub agent_id : String
  pub project : String
  pub type : String
  pub status : String
  pub topic_key : Option String
  pub content_hash : String
  pub text : String
  pub extra : String
  pub issue_ids : List String
  pub supersedes : List ℕ
  pub source_session_id : Option String
  pub source_provider : Option String
  pub source_project_root : Option String
  pub source_started_at : Option ℕ
  pub source_ended_at : Option ℕ
  pub created_at : ℕ
  pub updated_at : ℕ
  pub version : ℕ
  pub change_seq : ℕ
  pub deleted_at : Option ℕ

-- A supersede target that is not the text of a UUID is `none`.
pub record NewMemory : Type 0 where
  pub text : String
  pub agent_id : String
  pub project : String
  pub type : String
  pub content_hash : String
  pub user_id : String
  pub status : String
  pub topic_key : Option String
  pub extra : String
  pub issue_ids : List String
  pub supersedes : List (Option ℕ)
  pub source_session_id : Option String
  pub source_provider : Option String
  pub source_project_root : Option String
  pub source_started_at : Option ℕ
  pub source_ended_at : Option ℕ
  pub created_at : Option ℕ
  pub updated_at : Option ℕ

-- The `changes` dict of `_apply_change`: `none` is a key that is not there.
pub record Changes : Type 0 where
  pub text : Option String
  pub content_hash : Option String
  pub agent_id : Option String
  pub type : Option String
  pub status : Option String
  pub topic_key : Option (Option String)
  pub extra : Option String
  pub issue_ids : Option (List String)
  pub supersedes : Option (List ℕ)
  pub source_session_id : Option (Option String)
  pub source_provider : Option (Option String)
  pub source_project_root : Option (Option String)
  pub source_started_at : Option (Option ℕ)
  pub source_ended_at : Option (Option ℕ)
  pub updated_at : Option ℕ

pub data Outcome : Type 0 where
  created replaced deduplicated updated unchanged deleted superseded : Outcome

pub record WriteResult : Type 0 where
  pub memory_id : ℕ
  pub outcome : Outcome
  pub version : ℕ
  pub created_at : ℕ
  pub updated_at : ℕ
  pub change_seq : ℕ

-- The errors that a write raises, with the ids that they name.
pub data WriteError : Type 0 where
  memory_not_found invalid_field : WriteError
  memory_conflict : List ℕ → WriteError
  invalid_supersede : List (Option ℕ) → WriteError
  project_mismatch : ℕ → String → WriteError

-- A row of `memory_index_acks`.
pub record IndexAck : Type 0 where
  pub consumer : String
  pub memory_id : ℕ
  pub version : ℕ
  pub generation : ℕ
  pub deleted : Bool

-- The tables, and the next number of `memory_change_seq`.
pub record MemoryTables : Type 0 where
  pub memories : Dict ℕ MemoryRow
  pub memory_versions : List MemoryRow
  pub memory_index_acks : List IndexAck
  pub generation : ℕ
  pub next_change_seq : ℕ
