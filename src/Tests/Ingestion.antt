-- ===== src/Tests/Ingestion.antt =====
-- A run over a queue of two jobs, of which one waits for its paused provider.
use session_flow.Base.{
  ℕ, ◌≡◌, refl, String, true, false, not, Option, none, some, List, [], ◌∷◌, ◌++◌, count_if, length,
  string_eq, pair_eq, nat_eq,
}
use session_flow.Base.Dict
use session_flow.Base.Dict.{Dict, NodupKeys, lookup-All}
use session_flow.Backfill.{BackfillJob, BackfillManager, status}
use session_flow.Ingestion.{
  Source, Adapter, Totals, Service, is_paused, select_sources, process_queued_jobs,
}
use session_flow.Ingestion.Laws.{IsWorking, left_queued, process_queued_jobs-drained}

abbrev job : String → String → BackfillJob
job id provider = record {
  job_id = id;
  provider = provider;
  mode = "full";
  priority = 1;
  source_id = "";
  since = "";
  limit = none;
  reason = "";
  created_at = 0;
}

abbrev manager : BackfillManager
manager = record {
  jobs = ("a", job "a" "codex") ∷ ("b", job "b" "opencode") ∷ [];
  paused_providers = "opencode" ∷ [];
  global_paused = false;
  provider_stats = [];
  state_file = none;
  budget_paused = false;
}

abbrev codex_source : Source
codex_source = record { provider = "codex"; source_id = "s"; status = "eligible"; mtime = some 5 }

-- The turns are numbers, and a cursor is a position.
abbrev codex : Adapter ℕ ℕ
codex = record {
  discover_sources = some (codex_source ∷ []);
  parse_source = λ _ _. some (record { turns = 1 ∷ 2 ∷ []; errors = 1; cursor = 9 });
}

abbrev adapters : Dict String (Adapter ℕ ℕ)
adapters = ("codex", codex) ∷ []

abbrev add_turns : List ℕ → List ℕ → Option ℕ × List ℕ
add_turns turns index = (some (length turns), index ++ turns)

abbrev service : Service ℕ (List ℕ)
service = record { index = []; saved = []; manager = manager }

IsWorking-adapters : IsWorking {X = List ℕ} 100 30 adapters add_turns (λ _. true)
IsWorking-adapters = (
  λ provider adapter.
      lookup-All (λ (_, a). (sources : List Source) × (a.discover_sources ≡ some sources)) provider
        adapter adapters ((codex_source ∷ [], refl), tt),
  λ _. refl,
)

jobs-NodupKeys : NodupKeys manager.jobs
unfolding Dict.lookup string_eq
jobs-NodupKeys = (refl, (refl, tt))

not_paused : (status manager).0.paused ≡ false
unfolding status Dict.lookup string_eq nat_eq Dict.insert
not_paused = refl

process_queued_jobs-drained_example :
    let s = (status manager).0 in
    let r = process_queued_jobs 100 30 adapters add_turns (λ _. true) none service in
    (t : Totals) × (r.0 ≡ some t)
    × (t.jobs ≡ count_if (λ j. not (is_paused s.providers j)) s.jobs)
    × ((id : String)
        → Dict.lookup id r.1.manager.jobs ≡ left_queued s.providers (Dict.lookup id manager.jobs))
process_queued_jobs-drained_example =
    process_queued_jobs-drained 100 30 adapters add_turns (λ _. true) service jobs-NodupKeys
      (refl, (refl, tt)) not_paused IsWorking-adapters

process_queued_jobs_totals :
    (process_queued_jobs 100 30 adapters add_turns (λ _. true) none service).0
    ≡ some (record { jobs = 1; processed_sources = 1; indexed_turns = 2; errors = 1 })
unfolding process_queued_jobs status nat_eq is_paused Dict.lookup Dict.insert string_eq
    select_sources
process_queued_jobs_totals = refl
