-- ===== src/Backfill/Dedupe.antt =====
-- A second call for the same job.
use session_flow.Base.{ℕ, ◌≡◌, refl, ap, String, true, Option, some, string_eq, arith, contains}
use session_flow.Base.Dict
use session_flow.Base.Dict.{Dict, lookup-insert}
use session_flow.Backfill.Defs.{
  BackfillJob, BackfillManager, update_status, add_job, provider_job, queued, Enqueued, queued_for,
  enqueue_provider_backfill, legal_providers, backfill_modes,
}

add_job-there :
    (job : BackfillJob) (m : BackfillManager)
    → Dict.lookup job.job_id (add_job job m).jobs
      ≡ some (Dict.get_or job.job_id job (add_job job m).jobs)
unfolding add_job
add_job-there job m = ground (arith, lookup-insert job.job_id job.job_id job m.jobs)

add_job-again :
    (job old : BackfillJob) (m : BackfillManager)
    → Dict.lookup job.job_id m.jobs ≡ some old
    → add_job job m ≡ m
unfolding add_job
add_job-again job old m there = ground arith

found :
    (job old : BackfillJob) (m : BackfillManager)
    → Dict.lookup job.job_id m.jobs ≡ some old
    → Dict.get_or job.job_id job m.jobs ≡ old
found job old m there = ground arith

module _ (digest : String → String → String → String → Option ℕ → String) where
  -- What a call comes to whose provider and mode are known.
  abbrev known_call : BackfillJob → String → String → BackfillManager → Enqueued × BackfillManager
  known_call job p mode m = (
    queued (Dict.get_or job.job_id job m.jobs),
    update_status p (λ s. record s { mode = mode; queued_jobs = queued_for p m.jobs }) m,
  )

  known_call_lem :
      (now : ℕ) (p mode : String) (limit : Option ℕ) (since : String) (priority : ℕ)
      (m : BackfillManager)
      → contains legal_providers p ≡ true
      → contains backfill_modes mode ≡ true
      → enqueue_provider_backfill digest now p mode limit since priority m ≡ (
          let job = provider_job digest now p mode limit since priority in
          known_call job p mode (add_job job m))
  unfolding enqueue_provider_backfill
  known_call_lem now p mode limit since priority m legal known = rw (legal, known) refl

  -- For a provider and a mode that are known, a second call with the same provider, mode, limit and
  -- start, at any later time and with any priority, returns the job of the first call, unchanged, and
  -- changes neither the queue nor the state file.
  pub enqueue_provider_backfill-again :
      (now later : ℕ) (p mode : String) (limit : Option ℕ) (since : String) (priority other : ℕ)
      (m : BackfillManager)
      → contains legal_providers p ≡ true
      → contains backfill_modes mode ≡ true
      → let (outcome, m') = enqueue_provider_backfill digest now p mode limit since priority m in
        let (outcome', m'') = enqueue_provider_backfill digest later p mode limit since other m' in
        (outcome' ≡ outcome) × (m''.jobs ≡ m'.jobs) × (m''.state_file ≡ m'.state_file)
  enqueue_provider_backfill-again now later p mode limit since priority other m legal known =
      let job = provider_job digest now p mode limit since priority in
      let job' = provider_job digest later p mode limit since other in
      let m' = (known_call job p mode (add_job job m)).1 in
      let there = add_job-there job m in
      let again =
        add_job-again job' (Dict.get_or job.job_id job (add_job job m).jobs) m'
          (unfold update_status provider_job in there) in
      rw
        (
          known_call_lem now p mode limit since priority m legal known,
          known_call_lem later p mode limit since other m' legal known,
          again,
        )
        (unfold update_status provider_job in
          (ap (λ j. queued j) (found job' _ (add_job job m) there), refl, refl))
