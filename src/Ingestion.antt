-- ===== src/Ingestion.antt =====
-- provider_ingestion.py: a service takes the queued jobs of the backfill manager, parses the sources of each with the
-- adapter of its provider, and indexes the turns. The adapters, the index and the clock are parameters; what raises
-- is `none`. Other tasks leave the manager alone meanwhile.
pub mod Laws
use session_flow.Base.{
  ℕ, suc, ◌+◌, ◌-◌, ◌*◌, String, Bool, true, false, not, ◌&&◌, Option, none, some, List, [], ◌∷◌,
  keep, take, length, ltb, leb, contains, ◌==◌, string_eq, pair_eq, if◌then◌else◌,
}
use session_flow.Base.Dict
use session_flow.Base.Dict.{Dict}
use session_flow.Backfill.{
  BackfillJob, BackfillManager, BackfillStatus, ProviderBackfillStatus, complete_job, status,
  Enqueued, queued, unknown_provider, unsupported_mode, enqueue_provider_backfill,
}

-- A source, with the time of its file's last change if there is a file.
pub record Source : Type 0 where
  pub provider : String
  pub source_id : String
  pub status : String
  pub mtime : Option ℕ

pub record ParseResult (T C : Type 0) : Type 0 where
  pub turns : List T
  pub errors : ℕ
  pub cursor : C

pub record Adapter (T C : Type 0) : Type 0 where
  pub discover_sources : Option (List Source)
  pub parse_source : Source → Option C → Option (ParseResult T C)

pub record Totals : Type 0 where
  pub jobs : ℕ
  pub processed_sources : ℕ
  pub indexed_turns : ℕ
  pub errors : ℕ

abbrev pub no_totals : Totals
no_totals = record { jobs = 0; processed_sources = 0; indexed_turns = 0; errors = 0 }

abbrev pub add_totals : Totals → Totals → Totals
add_totals a b = record {
  jobs = a.jobs + b.jobs;
  processed_sources = a.processed_sources + b.processed_sources;
  indexed_turns = a.indexed_turns + b.indexed_turns;
  errors = a.errors + b.errors;
}

-- The cursors of the index state, by provider and source.
abbrev pub Cursors : Type 0 → Type 0
Cursors C = Dict (String × String) C

-- Where a job stands.
pub record Progress (C X : Type 0) : Type 0 where
  pub index : X
  pub cursors : Cursors C
  pub totals : Totals

-- The index, the saved cursors and the manager.
pub record Service (C X : Type 0) : Type 0 where
  pub index : X
  pub saved : Cursors C
  pub manager : BackfillManager

abbrev mtime_or_zero : Source → ℕ
mtime_or_zero s = elim (s.mtime) [ none ↦ 0 | some t ↦ t ]

-- `selected.sort(key=..., reverse=True)`, which keeps the order of equal times.
unfoldable pub insert_source : Source → List Source → List Source
insert_source s [] = s ∷ []
insert_source s (t ∷ l) =
    let rest = insert_source s l in
    if ltb (mtime_or_zero s) (mtime_or_zero t) then t ∷ rest else s ∷ t ∷ l

unfoldable pub newest_first : List Source → List Source
unfolding insert_source
newest_first [] = []
newest_first (s ∷ l) = insert_source s (newest_first l)

abbrev is_recent : ℕ → Source → Bool
is_recent cutoff s = elim (s.mtime) [ none ↦ false | some t ↦ leb cutoff t ]

abbrev pub up_to : {A : Type 0} → Option ℕ → List A → List A
up_to none l = l
up_to (some limit) l = take limit l

unfoldable pub select_sources : ℕ → ℕ → List Source → BackfillJob → List Source
unfolding newest_first
select_sources now recent_days sources job =
    let eligible = newest_first (keep (λ (s : Source). s.status == "eligible") sources) in
    let recent =
      if job.mode == "recent"
      then keep (is_recent (now - recent_days * 86400)) eligible
      else eligible in
    let named =
      if job.source_id == ""
      then recent
      else keep (λ (s : Source). s.source_id == job.source_id) recent in
    up_to job.limit named

abbrev count_error : Totals → Totals
count_error t = record t { errors = t.errors + 1 }

-- `provider_status and provider_status.paused`
unfoldable pub is_paused : Dict String ProviderBackfillStatus → BackfillJob → Bool
is_paused providers job = elim (Dict.lookup job.provider providers) [
  | none ↦ false
  | some s ↦ s.paused
]

module _ {T C X : Type 0} (now recent_days : ℕ) (adapters : Dict String (Adapter T C))
    (add_turns : List T → X → Option ℕ × X) (saves : BackfillJob → Bool) where
  -- A source that was parsed, with its turns added if there are any.
  unfoldable pub finish_source :
      Source → ParseResult T C → Option ℕ × X → Progress C X → Progress C X
  finish_source s parsed (none, index) p = record p { index = index; totals = count_error p.totals }
  finish_source s parsed (some n, index) p = record p {
    index = index;
    cursors = Dict.insert (s.provider, s.source_id) parsed.cursor p.cursors;
    totals = record p.totals { indexed_turns = p.totals.indexed_turns + n };
  }

  abbrev add_if_any : List T → X → Option ℕ × X
  add_if_any [] index = (some 0, index)
  add_if_any (t ∷ turns) index = add_turns (t ∷ turns) index

  abbrev count_parse : ParseResult T C → Progress C X → Progress C X
  count_parse parsed p = record p {
    totals = record p.totals {
      processed_sources = p.totals.processed_sources + 1;
      errors = p.totals.errors + parsed.errors;
    };
  }

  -- What the parse of a source gave.
  unfoldable pub take_parsed : Source → Option (ParseResult T C) → Progress C X → Progress C X
  unfolding finish_source
  take_parsed s none p = record p { totals = count_error p.totals }
  take_parsed s (some parsed) p =
      finish_source s parsed (add_if_any parsed.turns p.index) (count_parse parsed p)

  unfoldable pub process_source : Adapter T C → Source → Progress C X → Progress C X
  unfolding take_parsed
  process_source adapter s p =
      take_parsed s (adapter.parse_source s (Dict.lookup (s.provider, s.source_id) p.cursors)) p

  unfoldable pub process_sources : Adapter T C → List Source → Progress C X → Progress C X
  unfolding process_source
  process_sources adapter [] p = p
  process_sources adapter (s ∷ sources) p =
      process_sources adapter sources (process_source adapter s p)

  abbrev complete : BackfillJob → Totals → BackfillManager → BackfillManager
  complete job t m = complete_job job.job_id t.processed_sources t.indexed_turns t.errors m

  unfoldable pub run_job :
      Adapter T C → BackfillJob → List Source → Service C X → Option Totals × Service C X
  unfolding process_sources
  run_job adapter job sources w =
      let p =
        process_sources adapter (select_sources now recent_days sources job)
          (record { index = w.index; cursors = w.saved; totals = record no_totals { jobs = 1 } }) in
      let saved = saves job in
      (
        if saved then some p.totals else none,
        record {
          index = p.index;
          saved = if saved then p.cursors else w.saved;
          manager = complete job p.totals w.manager;
        },
      )

  -- A job whose adapter has named its sources, or raised.
  unfoldable pub run_sources :
      Adapter T C → BackfillJob → Option (List Source) → Service C X → Option Totals × Service C X
  unfolding run_job
  run_sources adapter job none w = (none, w)
  run_sources adapter job (some sources) w = run_job adapter job sources w

  unfoldable pub run_adapter :
      Option (Adapter T C) → BackfillJob → Service C X → Option Totals × Service C X
  unfolding run_sources
  run_adapter none job w =
      let t = record no_totals { jobs = 1; errors = 1 } in
      (some t, record w { manager = complete_job job.job_id 0 0 1 w.manager })
  run_adapter (some adapter) job w = run_sources adapter job adapter.discover_sources w

  unfoldable pub process_job : BackfillJob → Service C X → Option Totals × Service C X
  unfolding run_adapter
  process_job job w = run_adapter (Dict.lookup job.provider adapters) job w

  -- What a job's outcome does to the loop: an exception ends it.
  unfoldable pub then_jobs :
      Option Totals × Service C X
      → (Totals → Service C X → Option Totals × Service C X)
      → Totals
      → Option Totals × Service C X
  then_jobs (none, w) rest totals = (none, w)
  then_jobs (some t, w) rest totals = rest (add_totals totals t) w

  unfoldable pub process_jobs :
      Dict String ProviderBackfillStatus
      → List BackfillJob
      → Totals
      → Service C X
      → Option Totals × Service C X
  unfolding process_job then_jobs
  process_jobs providers [] totals w = (some totals, w)
  process_jobs providers (job ∷ jobs) totals w = elim (is_paused providers job) [
    | true ↦ process_jobs providers jobs totals w
    | false ↦ then_jobs (process_job job w) (process_jobs providers jobs) totals
  ]

  unfoldable pub process_queued_jobs : Option ℕ → Service C X → Option Totals × Service C X
  unfolding process_jobs
  process_queued_jobs max_jobs w =
      let (s, m) = status w.manager in
      let w' = record w { manager = m } in
      if s.paused
      then (some no_totals, w')
      else process_jobs s.providers (up_to max_jobs s.jobs) no_totals w'

-- `process_startup_provider_backfill` after its delay. A provider that is not known raises.
module _ {T C X : Type 0} (digest : String → String → String → String → Option ℕ → String)
    (now recent_days max_files_per_run : ℕ) (adapters : Dict String (Adapter T C))
    (add_turns : List T → X → Option ℕ × X) (saves : BackfillJob → Bool) where
  unfoldable pub then_enqueue :
      Enqueued × BackfillManager
      → (BackfillManager → Bool × BackfillManager)
      → Bool × BackfillManager
  then_enqueue (queued _, m) rest = rest m
  then_enqueue (unknown_provider, m) rest = (false, m)
  then_enqueue (unsupported_mode, m) rest = (false, m)

  unfoldable pub enqueue_providers : String → List String → BackfillManager → Bool × BackfillManager
  unfolding then_enqueue
  enqueue_providers mode [] m = (true, m)
  enqueue_providers mode (provider ∷ providers) m =
      let startup_mode = if contains ("recent" ∷ "incremental" ∷ []) mode then mode else "recent" in
      then_enqueue
        (enqueue_provider_backfill digest now provider startup_mode (some max_files_per_run) "" 1 m)
        (enqueue_providers mode providers)

  unfoldable pub process_startup_provider_backfill :
      List String → String → Service C X → Option Totals × Service C X
  unfolding enqueue_providers
  process_startup_provider_backfill enabled_providers mode w =
      let (all, m) = enqueue_providers mode enabled_providers w.manager in
      if all
      then process_queued_jobs now recent_days adapters add_turns saves none
          (record w { manager = m })
      else (none, record w { manager = m })
