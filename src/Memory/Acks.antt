-- ===== src/Memory/Acks.antt =====
-- What index consumers hold: `ack`, `is_acked`, `reset_acks`, `pending`, `canonical`, `index_state`,
-- `vectors_pending` and `bump_generation` of memory_store.py. A table has one row for a consumer and
-- a memory.
pub mod Laws
use session_flow.Base.{
  ℕ, ◌+◌, String, Bool, true, false, not, ◌&&◌, ◌||◌, Option, none, some, List, [], ◌∷◌, ◌++◌, map,
  ltb, contains, keep, any, length, take, find, ◌==◌, string_eq, nat_eq, if◌then◌else◌,
}
use session_flow.Base.Dict
use session_flow.Base.Dict.{Dict}
use session_flow.Memory.Record.{MemoryRow, IndexAck, MemoryTables}
use session_flow.Memory.Select.{is_live}

-- `(a.version, a.generation) < (version, generation)`
unfoldable pub is_older : IndexAck → ℕ → ℕ → Bool
is_older a version generation =
    ltb a.version version || (a.version == version && ltb a.generation generation)

abbrev pub is_of : String → ℕ → IndexAck → Bool
is_of consumer memory_id a = a.consumer == consumer && a.memory_id == memory_id

unfoldable pub find_ack : String → ℕ → List IndexAck → Option IndexAck
find_ack consumer memory_id [] = none
find_ack consumer memory_id (a ∷ acks) =
    if is_of consumer memory_id a then some a else find_ack consumer memory_id acks

-- `INSERT ... ON CONFLICT (consumer, memory_id) DO UPDATE ... WHERE`, and whether it wrote.
unfoldable pub upsert_ack : IndexAck → List IndexAck → Bool × List IndexAck
upsert_ack new [] = (true, new ∷ [])
upsert_ack new (a ∷ acks) =
    let (wrote, rest) = upsert_ack new acks in
    if is_of new.consumer new.memory_id a
    then (if is_older a new.version new.generation then (true, new ∷ acks) else (false, a ∷ acks))
    else (wrote, a ∷ rest)

-- An ack of a memory that has no row writes nothing.
unfoldable pub ack : IndexAck → MemoryTables → Bool × MemoryTables
unfolding upsert_ack
ack new s = elim (Dict.lookup new.memory_id s.memories) [
  | none ↦ (false, s)
  | some _ ↦
      let (wrote, acks) = upsert_ack new s.memory_index_acks in
      (wrote, record s { memory_index_acks = acks })
]

unfoldable pub is_acked : String → ℕ → ℕ → ℕ → MemoryTables → Bool
unfolding find_ack is_older
is_acked consumer memory_id version generation s =
    elim (find_ack consumer memory_id s.memory_index_acks) [
      | none ↦ false
      | some a ↦ not (is_older a version generation)
    ]

abbrev pub is_selected : Option (List ℕ) → Option String → IndexAck → Bool
is_selected memory_ids consumer a =
    elim memory_ids [ none ↦ true | some ids ↦ contains ids a.memory_id ]
    && elim consumer [ none ↦ true | some c ↦ a.consumer == c ]

-- How many rows went, and the tables without them.
unfoldable pub reset_acks : Option (List ℕ) → Option String → MemoryTables → ℕ × MemoryTables
reset_acks memory_ids consumer s = (
  length (keep (is_selected memory_ids consumer) s.memory_index_acks),
  record s {
    memory_index_acks = keep (λ a. not (is_selected memory_ids consumer a)) s.memory_index_acks;
  },
)

-- Whether a consumer is behind on a row. Only the consumer "milvus" minds the generation.
unfoldable pub is_behind : String → MemoryTables → MemoryRow → Bool
unfolding find_ack
is_behind consumer s r = elim (find_ack consumer r.memory_id s.memory_index_acks) [
  | none ↦ true
  | some a ↦ ltb a.version r.version || (consumer == "milvus" && ltb a.generation s.generation)
]

-- `ORDER BY m.change_seq`
unfoldable pub insert_by_seq : MemoryRow → List MemoryRow → List MemoryRow
insert_by_seq r [] = r ∷ []
insert_by_seq r (x ∷ rows) =
    if ltb x.change_seq r.change_seq then x ∷ insert_by_seq r rows else r ∷ x ∷ rows

unfoldable pub by_seq : List MemoryRow → List MemoryRow
unfolding insert_by_seq
by_seq [] = []
by_seq (r ∷ rows) = insert_by_seq r (by_seq rows)

-- The rows that `pending` lists, of which it returns id, version, generation and tombstone flag.
unfoldable pub pending : String → Option ℕ → MemoryTables → List MemoryRow
unfolding is_behind by_seq
pending consumer limit s =
    let rows = by_seq (keep (is_behind consumer s) (Dict.values s.memories)) in
    elim limit [ none ↦ rows | some n ↦ take n rows ]

-- The current row, a tombstone included.
unfoldable pub canonical : Option ℕ → MemoryTables → Option (MemoryRow × ℕ)
canonical none s = none
canonical (some memory_id) s = elim (Dict.lookup memory_id s.memories) [
  | none ↦ none
  | some r ↦ some (r, s.generation)
]

unfoldable pub index_state : MemoryTables → List MemoryRow
unfolding by_seq
index_state s = by_seq (Dict.values s.memories)

unfoldable pub vectors_pending : String → String → MemoryTables → Bool
unfolding is_behind
vectors_pending project user s =
    any
      (λ r.
        is_behind "milvus" s r
        && (r.user_id == user && (r.project == project && (is_live r && r.status == "active"))))
      (Dict.values s.memories)

unfoldable pub bump_generation : MemoryTables → ℕ × MemoryTables
bump_generation s = (s.generation + 1, record s { generation = s.generation + 1 })
