-- ===== src/Backfill/Tracking.antt =====
-- The counters of queued jobs that `BackfillManager` keeps for each provider.
use session_flow.Base.{
  ℕ, ◌+◌, ◌≡◌, refl, ◌∙◌, String, Bool, true, false, Option, none, some, List, [], ◌∷◌, ◌==◌,
  string_eq, if◌then◌else◌, arith, map, ◌++◌, contains, Bool-cases, Option-cases, inl, inr,
}
use session_flow.Base.Dict
use session_flow.Base.Dict.{
  Dict, NodupKeys, lookup-insert, insert-NodupKeys, erase-NodupKeys, erase_absent,
}
use session_flow.Backfill.Calls.{
  call_enqueue, call_source, call_startup, call_pause, call_resume, call_complete, call_status,
  Call, perform, perform_all,
}
use session_flow.Backfill.Defs.{
  BackfillJob, ProviderBackfillStatus, BackfillManager, new_status, load_state, new_manager,
  queued_for, update_status, save_state, add_job, provider_job, source_job,
  enqueue_provider_backfill, enqueue_source, enqueue_all, then_queue, Enqueued,
  enqueue_startup_defaults, unknown_provider, unsupported_mode, queued, pause, resume, given,
  pause_given, resume_given, complete_job, refresh, status, add_counters, refreshed, set_add,
  set_discard,
}

abbrev Jobs : Type 0
Jobs = Dict String BackfillJob

abbrev one_of : String → BackfillJob → ℕ
one_of q j = if j.provider == q then 1 else 0

queued_for-insert :
    (q k : String) (j : BackfillJob) (jobs : Jobs)
    → Dict.lookup k jobs ≡ none
    → queued_for q (Dict.insert k j jobs) ≡ queued_for q jobs + one_of q j
unfolding queued_for Dict.lookup Dict.insert
queued_for-insert q k j [] h = ground arith
queued_for-insert q k j ((i, w) ∷ jobs) h = ground (arith, queued_for-insert q k j jobs)

queued_for-erase :
    (q k : String) (j : BackfillJob) (jobs : Jobs)
    → NodupKeys jobs
    → Dict.lookup k jobs ≡ some j
    → queued_for q jobs ≡ queued_for q (Dict.erase k jobs) + one_of q j
unfolding queued_for Dict.lookup Dict.erase
queued_for-erase q k j [] u h = cc
queued_for-erase q k j ((i, w) ∷ jobs) (fresh, u) h =
    ground (arith, queued_for-erase q k j jobs u, erase_absent k jobs)

abbrev pub counted : Option ProviderBackfillStatus → ℕ
counted none = 0
counted (some s) = s.queued_jobs

pub record IsTracked (m : BackfillManager) : Type 0 where
  pub unique : NodupKeys m.jobs
  pub tracked : (q : String) → counted (Dict.lookup q m.provider_stats) ≡ queued_for q m.jobs

-- `_ensure_provider`
abbrev current : String → BackfillManager → ProviderBackfillStatus
current p m = Dict.get_or p (new_status p) m.provider_stats

queued-current :
    (p : String) (m : BackfillManager)
    → (current p m).queued_jobs ≡ counted (Dict.lookup p m.provider_stats)
queued-current p m = ground arith

-- A new status of one provider, with the right counter, where the jobs of the others are as before.
update_status-IsTracked :
    (p : String) (f : ProviderBackfillStatus → ProviderBackfillStatus) (m : BackfillManager)
    → NodupKeys m.jobs
    → (f (current p m)).queued_jobs ≡ queued_for p m.jobs
    → ((q : String)
        → (p == q) ≡ false
        → counted (Dict.lookup q m.provider_stats) ≡ queued_for q m.jobs)
    → IsTracked (update_status p f m)
unfolding update_status
update_status-IsTracked p f m u own others = record {
  unique = u;
  tracked = λ q. rw lookup-insert (elim (Bool-cases (q == p)) [
    | inl same ↦ ground arith
    | inr other ↦ ground (arith, others q)
  ]);
}

add_job_unique :
    (job : BackfillJob) (m : BackfillManager) → NodupKeys m.jobs → NodupKeys (add_job job m).jobs
unfolding add_job
add_job_unique job m u = ground (arith, insert-NodupKeys job.job_id job m.jobs u)

add_job-others :
    (job : BackfillJob) (m : BackfillManager) (q : String)
    → (job.provider == q) ≡ false
    → queued_for q (add_job job m).jobs ≡ queued_for q m.jobs
unfolding add_job
add_job-others job m q other = ground (arith, queued_for-insert q job.job_id job m.jobs)

abbrev OthersTracked : String → BackfillManager → BackfillManager → Type 0
OthersTracked p m m' =
    (q : String)
    → (p == q) ≡ false
    → counted (Dict.lookup q m.provider_stats) ≡ queued_for q m'.jobs

add_job-OthersTracked :
    (job : BackfillJob) (m : BackfillManager)
    → IsTracked m
    → OthersTracked job.provider (add_job job m) (add_job job m)
unfolding add_job
add_job-OthersTracked job m t q other =
    ground (arith, t.tracked q, queued_for-insert q job.job_id job m.jobs)

module _ (digest : String → String → String → String → Option ℕ → String) where
  enqueue_provider_backfill-IsTracked :
      (now : ℕ) (p mode : String) (limit : Option ℕ) (since : String) (priority : ℕ)
      (m : BackfillManager)
      → IsTracked m
      → IsTracked (enqueue_provider_backfill digest now p mode limit since priority m).1
  unfolding enqueue_provider_backfill
  enqueue_provider_backfill-IsTracked now p mode limit since priority m t =
      let job = provider_job digest now p mode limit since priority in
      let m' = add_job job m in
      let kept =
        update_status-IsTracked p
          (λ s. record s { mode = mode; queued_jobs = queued_for p m'.jobs }) m'
          (add_job_unique job m t.unique) refl (add_job-OthersTracked job m t) in
      ground arith

  enqueue_source-IsTracked :
      (now : ℕ) (source_id p reason : String) (m : BackfillManager)
      → IsTracked m
      → IsTracked (enqueue_source digest now source_id p reason m).1
  unfolding enqueue_source
  enqueue_source-IsTracked now source_id p reason m t =
      let job = source_job digest now source_id p reason in
      let m' = add_job job m in
      update_status-IsTracked p (λ s. record s { queued_jobs = queued_for p m'.jobs }) m'
        (add_job_unique job m t.unique) refl (add_job-OthersTracked job m t)

new_manager-IsTracked : (b : Bool) → IsTracked (new_manager none b)
unfolding load_state Dict.lookup queued_for
new_manager-IsTracked b = record { unique = tt; tracked = λ q. refl }

save_state-IsTracked : (m : BackfillManager) → IsTracked m → IsTracked (save_state m)
unfolding save_state
save_state-IsTracked m t = record { unique = t.unique; tracked = t.tracked }

-- A change of the flag of a provider alone.
set_paused-IsTracked :
    (p : String) (flag : Bool) (m : BackfillManager)
    → IsTracked m
    → IsTracked (update_status p (λ s. record s { paused = flag }) m)
set_paused-IsTracked p flag m t =
    update_status-IsTracked p (λ s. record s { paused = flag }) m t.unique
      (queued-current p m ∙ t.tracked p) (λ q other. t.tracked q)

complete_job-IsTracked :
    (job_id : String) (sources turns errors : ℕ) (m : BackfillManager)
    → IsTracked m
    → IsTracked (complete_job job_id sources turns errors m)
unfolding complete_job
complete_job-IsTracked job_id sources turns errors m t =
    elim (Option-cases (Dict.lookup job_id m.jobs)) [
      | inl gone ↦ rw (gone, complete_job) t
      | inr (job, found) ↦
          let jobs = Dict.erase job_id m.jobs in
          rw (found, complete_job)
            (save_state-IsTracked _ (
              update_status-IsTracked job.provider
                (add_counters sources turns errors (queued_for job.provider jobs))
                (record m { jobs = jobs }) (erase-NodupKeys job_id m.jobs t.unique) refl
                (λ q other.
                  ground
                    (arith, t.tracked q, queued_for-erase q job_id job m.jobs t.unique found))))
    ]

pause_given-IsTracked :
    (p : Option String) (m : BackfillManager) → IsTracked m → IsTracked (pause_given p m)
unfolding pause_given
pause_given-IsTracked none m t = record { unique = t.unique; tracked = t.tracked }
pause_given-IsTracked (some p) m t = save_state-IsTracked _ (
    set_paused-IsTracked p true (record m { paused_providers = set_add p m.paused_providers })
      (record { unique = t.unique; tracked = t.tracked }))

resume_given-IsTracked :
    (p : Option String) (m : BackfillManager) → IsTracked m → IsTracked (resume_given p m)
unfolding resume_given
resume_given-IsTracked none m t = record { unique = t.unique; tracked = t.tracked }
resume_given-IsTracked (some p) m t = save_state-IsTracked _ (
    set_paused-IsTracked p false (record m { paused_providers = set_discard p m.paused_providers })
      (record { unique = t.unique; tracked = t.tracked }))

refresh-IsTracked :
    (ps : List String) (m : BackfillManager) → IsTracked m → IsTracked (refresh ps m)
unfolding refresh
refresh-IsTracked [] m t = t
refresh-IsTracked (p ∷ ps) m t =
    refresh-IsTracked ps _
      (update_status-IsTracked p (refreshed p m) m t.unique refl (λ q other. t.tracked q))

status-IsTracked : (m : BackfillManager) → IsTracked m → IsTracked (status m).1
unfolding status
status-IsTracked m t =
    refresh-IsTracked
      (map (λ (j : BackfillJob). j.provider) (Dict.values m.jobs) ++ Dict.keys m.provider_stats) m t

module _ (digest : String → String → String → String → Option ℕ → String) where
  then_queue-IsTracked :
      (o : Enqueued) (m : BackfillManager) (rest : Option (List BackfillJob) × BackfillManager)
      → IsTracked m
      → IsTracked rest.1
      → IsTracked (then_queue o m rest).1
  unfolding then_queue
  then_queue-IsTracked unknown_provider m rest t t' = t
  then_queue-IsTracked unsupported_mode m rest t t' = t
  then_queue-IsTracked (queued job) m rest t t' = t'

  enqueue_all-IsTracked :
      (now : ℕ) (mode : String) (ps : List String) (m : BackfillManager)
      → IsTracked m
      → IsTracked (enqueue_all digest now mode ps m).1
  unfolding enqueue_all
  enqueue_all-IsTracked now mode [] m t = t
  enqueue_all-IsTracked now mode (p ∷ ps) m t =
      let (outcome, m') = enqueue_provider_backfill digest now p mode none "" 1 m in
      let once = enqueue_provider_backfill-IsTracked digest now p mode none "" 1 m t in
      let rest = enqueue_all-IsTracked now mode ps _ once in
      then_queue-IsTracked outcome m' (enqueue_all digest now mode ps m') once rest

  perform-IsTracked :
      (c : Call) (m : BackfillManager) → IsTracked m → IsTracked (perform digest c m)
  unfolding perform pause resume
  perform-IsTracked (call_enqueue now p mode limit since priority) m t =
      enqueue_provider_backfill-IsTracked digest now p mode limit since priority m t
  perform-IsTracked (call_source now source_id p reason) m t =
      enqueue_source-IsTracked digest now source_id p reason m t
  perform-IsTracked (call_startup now enabled mode) m t =
      unfold enqueue_startup_defaults in
      enqueue_all-IsTracked now
        (if contains ("recent" ∷ "incremental" ∷ []) mode then mode else "recent") enabled m t
  perform-IsTracked (call_pause p) m t = pause_given-IsTracked (given p) m t
  perform-IsTracked (call_resume p) m t = resume_given-IsTracked (given p) m t
  perform-IsTracked (call_complete job_id sources turns errors) m t =
      complete_job-IsTracked job_id sources turns errors m t
  perform-IsTracked call_status m t = status-IsTracked m t

  perform_all-IsTracked :
      (cs : List Call) (m : BackfillManager) → IsTracked m → IsTracked (perform_all digest cs m)
  unfolding perform_all
  perform_all-IsTracked [] m t = t
  perform_all-IsTracked (c ∷ cs) m t =
      perform_all-IsTracked cs (perform digest c m) (perform-IsTracked c m t)

-- After any calls of a new manager's methods that started without a state file, no job id is queued
-- twice, and the counter of every provider is the number of its queued jobs.
pub perform_all-tracked :
    (digest : String → String → String → String → Option ℕ → String) (cs : List Call) (b : Bool)
    → let m = perform_all digest cs (new_manager none b) in
      NodupKeys m.jobs
      × ((q : String) → counted (Dict.lookup q m.provider_stats) ≡ queued_for q m.jobs)
perform_all-tracked digest cs b =
    let t = perform_all-IsTracked digest cs (new_manager none b) (new_manager-IsTracked b) in
    (t.unique, t.tracked)
