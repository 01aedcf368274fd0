-- ===== src/Tests/Listing.antt =====
-- Two pages of one row of a listing.
use session_flow.Base.{
  ℕ, ◌*◌, ◌≡◌, refl, String, Option, none, some, [], ◌∷◌, take, drop, inr, arith, string_eq, nat_eq,
}
use session_flow.Base.Dict
use session_flow.Memory.Record.{MemoryRow, MemoryTables}
use session_flow.Memory.Listing.{
  MemoryFilters, Cursor, list, rows_past, page, cursor_place, next_cursor, last_row, matches,
  newest_first,
}
use session_flow.Memory.Listing.Pages.{DistinctIds}
use session_flow.Memory.Listing.Next.{list-next}

abbrev pub memory : ℕ → MemoryRow
memory n = record {
  memory_id = n;
  user_id = "me";
  agent_id = "agent";
  project = "flow";
  type = "decision";
  status = "active";
  topic_key = none;
  content_hash = "h";
  text = "t";
  extra = "{}";
  issue_ids = [];
  supersedes = [];
  source_session_id = none;
  source_provider = none;
  source_project_root = none;
  source_started_at = none;
  source_ended_at = none;
  created_at = n * 10;
  updated_at = n * 10;
  version = 1;
  change_seq = n;
  deleted_at = none;
}

abbrev three_memories : MemoryTables
three_memories = record {
  memories = (1, memory 1) ∷ (2, memory 2) ∷ (3, memory 3) ∷ [];
  memory_versions = [];
  memory_index_acks = [];
  generation = 1;
  next_change_seq = 4;
}

abbrev active : MemoryFilters
active = record {
  project = "flow";
  user_id = "me";
  agent_id = none;
  type = none;
  status = some "active";
  issue_id = none;
  source = none;
  category = none;
  created_from = none;
  created_to = none;
  source_session_id = none;
}

abbrev pub no_field : String → String → Option String
no_field extra key = none

abbrev day_of : ℕ → ℕ
day_of d = d * 100

abbrev mark : MemoryFilters → String
mark f = "f"

abbrev after_three : Cursor
after_three = record { created_at = 30; memory_id = 3; fingerprint = "f" }

first_page :
    list no_field day_of mark active 1 none three_memories ≡ inr (memory 3 ∷ [], some after_three)
unfolding list rows_past page cursor_place next_cursor last_row matches newest_first Dict.values
    string_eq nat_eq
first_page = refl

three_distinct : DistinctIds (Dict.values three_memories.memories)
unfolding Dict.values
three_distinct = (
  ((λ e. absurd (omega (arith, e))), ((λ e. absurd (omega (arith, e))), tt)),
  (((λ e. absurd (omega (arith, e))), tt), (tt, tt)),
)

list-next_example :
    (from : Option (ℕ × ℕ)) × (memory 3 ∷ []
      ≡ take 1 (rows_past no_field day_of active from three_memories))
    × (list no_field day_of mark active 5 (some after_three) three_memories
        ≡ inr (page "f" 5 (drop 1 (rows_past no_field day_of active from three_memories))))
list-next_example =
    list-next no_field day_of mark active 1 5 none three_memories (memory 3 ∷ []) after_three
      three_distinct first_page
