-- ===== src/Index/Vectors.antt =====
-- `_apply_milvus` and `_milvus_write` of memory_index.py. The collection is a dict from the primary keys that the
-- parameter `pk` gives; `cut` is `_truncate_utf8`, and `embed` the embedding model. Between the awaits of a
-- round the store may change, so each of its reads has its own tables.
-- That a call after the upsert raises is not modelled.
pub mod Laws
use session_flow.Base.{
  ℕ, String, Bool, true, false, not, ◌&&◌, Option, none, some, List, [], ◌∷◌, ◌==◌, string_eq,
  nat_eq, if◌then◌else◌,
}
use session_flow.Base.Dict
use session_flow.Base.Dict.{Dict}
use session_flow.Memory.Record.{MemoryRow, IndexAck, MemoryTables}
use session_flow.Memory.Select.{is_live}
use session_flow.Memory.Acks.{ack, canonical, is_acked}
use session_flow.Index.Fts.{wrapped_ids, or_empty}

-- A row of the collection.
pub record VectorRow (V : Type 0) : Type 0 where
  pub memory_id : ℕ
  pub vector : V
  pub user_id : String
  pub agent_id : String
  pub project : String
  pub type : String
  pub status : String
  pub issue_ids : String
  pub source : String
  pub category : String
  pub created_at : ℕ
  pub version : ℕ
  pub generation : ℕ

abbrev pub Collection : Type 0 → Type 0
Collection V = Dict ℕ (VectorRow V)

abbrev pub milvus_consumer : String
milvus_consumer = "milvus"

-- `rag_engine._ISSUE_ID_FIELD_MAX` is the parameter `issue_id_max`.
module _ {V : Type 0} (pk : ℕ → ℕ) (cut : String → ℕ → String) (issue_id_max : ℕ)
    (field : String → String → Option String) where
  unfoldable pub vector_row : MemoryRow → ℕ → V → VectorRow V
  vector_row r generation vector = record {
    memory_id = r.memory_id;
    vector = vector;
    user_id = r.user_id;
    agent_id = r.agent_id;
    project = r.project;
    type = r.type;
    status = r.status;
    issue_ids = cut (wrapped_ids r.issue_ids) issue_id_max;
    source = cut (or_empty (field r.extra "source")) 128;
    category = cut (or_empty (field r.extra "category")) 128;
    created_at = r.created_at;
    version = r.version;
    generation = generation;
  }

  -- `_milvus_write` over the row that it locks; `blocks` says whether the model that the store names is not
  -- this machine's.
  unfoldable pub milvus_write :
      ℕ
      → String
      → Option V
      → Bool
      → MemoryTables
      → Collection V
      → Option (MemoryRow × ℕ) × Collection V
  unfolding vector_row canonical
  milvus_write memory_id embedded_hash vector blocks locked c =
      elim (canonical (some memory_id) locked) [
        | none ↦ (none, c)
        | some (r, generation) ↦
            if not (is_live r)
            then (some (r, generation), Dict.erase (pk memory_id) c)
            else elim vector [
              | none ↦ (none, c)
              | some v ↦
                  if not (r.content_hash == embedded_hash)
                  then (none, c)
                  else if blocks
                  then (none, c)
                  else (
                    some (r, generation),
                    Dict.insert (pk memory_id) (vector_row r generation v) c,
                  )
            ]
      ]

-- What a round of the loop reads: whether the machine is blocked, the tables at `canonical`, at `is_acked` and
-- under the lock, and whether the model of the locked row blocks.
pub record Round : Type 0 where
  pub blocked : Bool
  pub seen : MemoryTables
  pub acked : MemoryTables
  pub locked : MemoryTables
  pub blocks : Bool

-- How a pass ends: not done, done by another machine, or with a row written, which is then acked.
pub data PassEnd : Type 0 where
  not_done already_done : PassEnd
  written : MemoryRow → ℕ → PassEnd

-- `store.ack(MILVUS_CONSUMER, ...)`
abbrev pub ack_of_pass : MemoryRow → ℕ → IndexAck
ack_of_pass r generation = record {
  consumer = milvus_consumer;
  memory_id = r.memory_id;
  version = r.version;
  generation = generation;
  deleted = not (is_live r);
}

-- Whether a pass is done, and the tables after its ack.
unfoldable pub acknowledge : PassEnd → MemoryTables → Bool × MemoryTables
acknowledge not_done s = (false, s)
acknowledge already_done s = (true, s)
acknowledge (written r generation) s = (true, (ack (ack_of_pass r generation) s).1)

module _ {V : Type 0} (pk : ℕ → ℕ) (cut : String → ℕ → String) (issue_id_max : ℕ)
    (field : String → String → Option String) (embed : String → V) where
  abbrev pub vector_of : MemoryRow → Option V
  vector_of r = if is_live r then some (embed r.text) else none

  -- The rounds, of which the code allows three, up to a call that raises.
  unfoldable pub apply_milvus : ℕ → List Round → Collection V → PassEnd × Collection V
  unfolding milvus_write canonical is_acked
  apply_milvus memory_id [] c = (not_done, c)
  apply_milvus memory_id (t ∷ rounds) c =
      if t.blocked then (not_done, c) else elim (canonical (some memory_id) t.seen) [
        | none ↦ (not_done, c)
        | some (r, generation) ↦
            if is_acked milvus_consumer memory_id r.version generation t.acked
            then (already_done, c)
            else let (answer, c') =
                milvus_write pk cut issue_id_max field memory_id r.content_hash (vector_of r)
                  t.blocks t.locked c in
              elim answer [
                | none ↦ apply_milvus memory_id rounds c'
                | some (w, g) ↦ (written w g, c')
              ]
      ]
