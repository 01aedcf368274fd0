-- ===== src/Ingestion/Laws.antt =====
-- A run over the queue takes away the jobs of every provider that is not paused.
use mathlib.Core.Path.{subst}
use session_flow.Base.{
  ℕ, ◌+◌, ◌≡◌, refl, sym, ap, ◌∙◌, String, Bool, true, false, not, ◌&&◌, Option, none, some, List,
  [], ◌∷◌, any, count_if, arith, ◌==◌, string_eq, pair_eq, if◌then◌else◌, Bool-cases, Option-cases,
  inl, inr,
}
use session_flow.Base.Dict
use session_flow.Base.Dict.{Dict, NodupKeys, lookup-erase}
use session_flow.Backfill.{
  BackfillJob, BackfillManager, ProviderBackfillStatus, complete_job, save_state, update_status,
  status,
}
use session_flow.Backfill.Durability.{Keyed}
use session_flow.Backfill.Order.{jobs-status, any-status}
use session_flow.Ingestion.{
  Source, ParseResult, Adapter, Totals, no_totals, add_totals, Progress, Service, select_sources,
  finish_source, take_parsed, process_source, process_sources, run_job, run_sources, run_adapter,
  process_job, is_paused, then_jobs, process_jobs, process_queued_jobs,
}

unchanged :
    (id k : String) (jobs : Dict String BackfillJob)
    → Dict.lookup k jobs ≡ none
    → Dict.lookup id jobs ≡ (if k == id then none else Dict.lookup id jobs)
unchanged id k jobs n = elim (string_eq.dec k id) [
  | yes same ↦ ground (arith, n, ap (λ i. Dict.lookup i jobs) same, same)
  | no other ↦ ground (arith, other)
]

lookup-complete_job :
    (id k : String) (sources turns errors : ℕ) (m : BackfillManager)
    → Dict.lookup id (complete_job k sources turns errors m).jobs
      ≡ (if k == id then none else Dict.lookup id m.jobs)
unfolding complete_job save_state update_status
lookup-complete_job id k sources turns errors m = elim (Option-cases (Dict.lookup k m.jobs)) [
  | inl n ↦ rw (n, complete_job) (unchanged id k m.jobs n)
  | inr (job, f) ↦ rw (f, complete_job) (ground (arith, lookup-erase id k m.jobs))
]

-- Whether a job is under an id and not paused.
abbrev runs : Dict String ProviderBackfillStatus → String → BackfillJob → Bool
runs providers id job = not (is_paused providers job) && (job.job_id == id)

module _ {T C X : Type 0} (now recent_days : ℕ) (adapters : Dict String (Adapter T C))
    (add_turns : List T → X → Option ℕ × X) (saves : BackfillJob → Bool) where
  abbrev after_source : Adapter T C → Source → Progress C X → Progress C X
  after_source = process_source now recent_days adapters add_turns saves

  abbrev after_sources : Adapter T C → List Source → Progress C X → Progress C X
  after_sources = process_sources now recent_days adapters add_turns saves

  jobs-finish_source :
      (s : Source) (parsed : ParseResult T C) (r : Option ℕ × X) (p : Progress C X)
      → (finish_source now recent_days adapters add_turns saves s parsed r p).totals.jobs
        ≡ p.totals.jobs
  unfolding finish_source
  jobs-finish_source s parsed (none, index) p = refl
  jobs-finish_source s parsed (some n, index) p = refl

  jobs-take_parsed :
      (s : Source) (r : Option (ParseResult T C)) (p : Progress C X)
      → (take_parsed now recent_days adapters add_turns saves s r p).totals.jobs ≡ p.totals.jobs
  unfolding take_parsed
  jobs-take_parsed s none p = refl
  jobs-take_parsed s (some parsed) p = jobs-finish_source s parsed _ _

  jobs-process_sources :
      (adapter : Adapter T C) (sources : List Source) (p : Progress C X)
      → (after_sources adapter sources p).totals.jobs ≡ p.totals.jobs
  unfolding process_sources process_source
  jobs-process_sources adapter [] p = refl
  jobs-process_sources adapter (s ∷ sources) p =
      jobs-process_sources adapter sources (after_source adapter s p) ∙ jobs-take_parsed s _ p

  -- Every known adapter names its sources, and the index state can be saved.
  abbrev pub IsWorking : Type 0
  IsWorking =
      ((provider : String) (adapter : Adapter T C)
        → Dict.lookup provider adapters ≡ some adapter
        → (sources : List Source) × (adapter.discover_sources ≡ some sources))
      × ((job : BackfillJob) → saves job ≡ true)

  -- A job returned, and is off the queue.
  abbrev IsDone : BackfillJob → Service C X → Option Totals × Service C X → Type 0
  IsDone job w r =
      (t : Totals) × (r.0 ≡ some t)
      × (t.jobs ≡ 1)
      × ((id : String)
          → Dict.lookup id r.1.manager.jobs
            ≡ (if job.job_id == id then none else Dict.lookup id w.manager.jobs))

  run_sources-IsDone :
      (adapter : Adapter T C) (job : BackfillJob) (sources : List Source) (w : Service C X)
      → saves job ≡ true
      → IsDone job w
          (run_sources now recent_days adapters add_turns saves adapter job (some sources) w)
  unfolding run_sources run_job
  run_sources-IsDone adapter job sources w saved =
      let chosen = select_sources now recent_days sources job in
      let before : Progress C X = record {
        index = w.index;
        cursors = w.saved;
        totals = record no_totals { jobs = 1 };
      } in
      let t = (after_sources adapter chosen before).totals in
      (
        t,
        rw saved refl,
        jobs-process_sources adapter chosen before,
        λ id.
            lookup-complete_job id job.job_id t.processed_sources t.indexed_turns t.errors
              w.manager,
      )

  process_job-IsDone :
      IsWorking
      → (job : BackfillJob) (w : Service C X)
      → IsDone job w (process_job now recent_days adapters add_turns saves job w)
  unfolding process_job run_adapter
  process_job-IsDone working job w = elim (Option-cases (Dict.lookup job.provider adapters)) [
    | inl n ↦ rw n (
      record no_totals { jobs = 1; errors = 1 },
      refl,
      refl,
      λ id. lookup-complete_job id job.job_id 0 0 1 w.manager,
    )
    | inr (adapter, e) ↦
        let (sources, d) = working.0 job.provider adapter e in
        rw e (
          subst
            (λ r.
              IsDone job w (run_sources now recent_days adapters add_turns saves adapter job r w))
            (sym d) (run_sources-IsDone adapter job sources w (working.1 job)))
  ]

  -- The loop takes the jobs of a list that are not paused off the queue.
  abbrev loop :
      Dict String ProviderBackfillStatus
      → List BackfillJob
      → Totals
      → Service C X
      → Option Totals × Service C X
  loop = process_jobs now recent_days adapters add_turns saves

  abbrev AreDone :
      Dict String ProviderBackfillStatus
      → List BackfillJob
      → Totals
      → Service C X
      → Option Totals × Service C X
      → Type 0
  AreDone providers jobs totals w r =
      (t : Totals) × (r.0 ≡ some t)
      × (t.jobs ≡ totals.jobs + count_if (λ j. not (is_paused providers j)) jobs)
      × ((id : String)
          → Dict.lookup id r.1.manager.jobs
            ≡ (if any (runs providers id) jobs then none else Dict.lookup id w.manager.jobs))

  then_jobs-some :
      (r : Option Totals × Service C X) (rest : Totals → Service C X → Option Totals × Service C X)
      (totals t : Totals)
      → r.0 ≡ some t
      → then_jobs now recent_days adapters add_turns saves r rest totals
        ≡ rest (add_totals totals t) r.1
  unfolding then_jobs
  then_jobs-some (none, w) rest totals t e = cc e
  then_jobs-some (some u, w) rest totals t e = let same : u ≡ t = cc e in rw same refl

  process_jobs-paused :
      (providers : Dict String ProviderBackfillStatus) (job : BackfillJob) (jobs : List BackfillJob)
      (totals : Totals) (w : Service C X)
      → is_paused providers job ≡ true
      → loop providers (job ∷ jobs) totals w ≡ loop providers jobs totals w
  unfolding process_jobs
  process_jobs-paused providers job jobs totals w p = rw (p, process_jobs) refl

  process_jobs-ran :
      (providers : Dict String ProviderBackfillStatus) (job : BackfillJob) (jobs : List BackfillJob)
      (totals t : Totals) (w : Service C X)
      → is_paused providers job ≡ false
      → (process_job now recent_days adapters add_turns saves job w).0 ≡ some t
      → loop providers (job ∷ jobs) totals w
        ≡ loop providers jobs
            (add_totals totals t)
            (process_job now recent_days adapters add_turns saves job w).1
  unfolding process_jobs
  process_jobs-ran providers job jobs totals t w p e =
      rw (p, process_jobs) (then_jobs-some _ (loop providers jobs) totals t e)

  process_jobs-AreDone :
      IsWorking
      → (providers : Dict String ProviderBackfillStatus) (jobs : List BackfillJob) (totals : Totals)
        (w : Service C X)
      → AreDone providers jobs totals w (loop providers jobs totals w)
  unfolding process_jobs
  process_jobs-AreDone working providers [] totals w = (totals, refl, omega arith, λ id. refl)
  process_jobs-AreDone working providers (job ∷ jobs) totals w =
      elim (Bool-cases (is_paused providers job)) [
        | inl p ↦
            let (t, e, n, left) = process_jobs-AreDone working providers jobs totals w in
            rw (process_jobs-paused providers job jobs totals w p)
              (t, e, ground (arith, n, p), λ id. left id ∙ ground (arith, p))
        | inr p ↦
            let (t, e, one, off) = process_job-IsDone working job w in
            let r = process_job now recent_days adapters add_turns saves job w in
            let (t', e', n, left) =
              process_jobs-AreDone working providers jobs (add_totals totals t) r.1 in
            rw (process_jobs-ran providers job jobs totals t w p e)
              (t', e', ground (arith, n, one, p), λ id. left id ∙ ground (arith, p, off id))
      ]

-- A test on the id of a job, where every job is under its own id and no id comes twice.
any-values :
    (providers : Dict String ProviderBackfillStatus) (id : String) (jobs : Dict String BackfillJob)
    → NodupKeys jobs
    → Keyed jobs
    → any (runs providers id) (Dict.values jobs)
      ≡ elim (Dict.lookup id jobs) [ none ↦ false | some j ↦ not (is_paused providers j) ]
unfolding Dict.values Dict.lookup
any-values providers id [] u k = refl
any-values providers id ((i, j) ∷ jobs) (fresh, u) (own, k) = elim (string_eq.dec i id) [
  | yes same ↦
      let absent : Dict.lookup id jobs ≡ none = ap (λ t. Dict.lookup t jobs) (sym same) ∙ fresh in
      ground (arith, any-values providers id jobs u k, absent, own, same)
  | no other ↦ ground (arith, any-values providers id jobs u k, own, other)
]

-- What a run leaves under an id.
abbrev pub left_queued :
    Dict String ProviderBackfillStatus → Option BackfillJob → Option BackfillJob
left_queued providers none = none
left_queued providers (some job) = if is_paused providers job then some job else none

if-left_queued :
    (providers : Dict String ProviderBackfillStatus) (o : Option BackfillJob)
    → (if elim o [ none ↦ false | some j ↦ not (is_paused providers j) ] then none else o)
      ≡ left_queued providers o
if-left_queued providers none = refl
if-left_queued providers (some j) = ground arith

-- Where every job is under its own id, the service is not paused, every known adapter names its
-- sources, and the index state can be saved, a run with no limit returns; then exactly the jobs
-- whose provider is paused are still queued, and the totals count all the others.
pub process_queued_jobs-drained :
    {T C X : Type 0} (now recent_days : ℕ) (adapters : Dict String (Adapter T C))
    (add_turns : List T → X → Option ℕ × X) (saves : BackfillJob → Bool) (w : Service C X)
    → NodupKeys w.manager.jobs
    → Keyed w.manager.jobs
    → (status w.manager).0.paused ≡ false
    → IsWorking now recent_days adapters add_turns saves
    → let s = (status w.manager).0 in
      let r = process_queued_jobs now recent_days adapters add_turns saves none w in
      (t : Totals) × (r.0 ≡ some t)
      × (t.jobs ≡ count_if (λ j. not (is_paused s.providers j)) s.jobs)
      × ((id : String)
          → Dict.lookup id r.1.manager.jobs
            ≡ left_queued s.providers (Dict.lookup id w.manager.jobs))
unfolding process_queued_jobs
process_queued_jobs-drained now recent_days adapters add_turns saves w unique keyed running
      working =
    let s = (status w.manager).0 in
    let (t, e, n, left) =
      process_jobs-AreDone now recent_days adapters add_turns saves working s.providers s.jobs
        no_totals (record w { manager = (status w.manager).1 }) in
    rw running (
      t,
      e,
      omega arith,
      λ id.
          left id
          ∙ rw
              (
                any-status (runs s.providers id) w.manager,
                any-values s.providers id w.manager.jobs unique keyed,
                jobs-status w.manager,
              )
              (if-left_queued s.providers (Dict.lookup id w.manager.jobs)),
    )
