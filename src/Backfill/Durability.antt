-- ===== src/Backfill/Durability.antt =====
-- What the state file holds of a manager, call by call, and what a new process reads from it.
use session_flow.Base.{
  ℕ, ◌≡◌, refl, sym, ap, ◌∙◌, String, Bool, false, Option, none, some, List, [], ◌∷◌, ◌++◌, map,
  string_eq, if◌then◌else◌, arith, Option-cases, inl, inr, contains,
}
use session_flow.Base.Dict
use session_flow.Base.Dict.{
  Dict, NodupKeys, insert_fresh, lookup-insert, lookup-erase, insert-NodupKeys, erase-NodupKeys,
  lookup-append,
}
use session_flow.Backfill.Calls.{
  call_enqueue, call_source, call_startup, call_pause, call_resume, call_complete, call_status,
  Call, perform, perform_all,
}
use session_flow.Backfill.Defs.{
  BackfillJob, ProviderBackfillStatus, BackfillManager, SavedState, load_jobs, load_state,
  new_manager, update_status, save_state, queued_for, add_job, enqueue_provider_backfill,
  enqueue_source, enqueue_all, then_queue, Enqueued, unknown_provider, unsupported_mode, queued,
  enqueue_startup_defaults, pause, resume, given, pause_given, resume_given, complete_job, refresh,
  status, refreshed, provider_job, source_job,
}

abbrev Jobs : Type 0
Jobs = Dict String BackfillJob

-- Every job is under its own id.
abbrev pub Keyed : Jobs → Type 0
Keyed [] = Unit
Keyed ((k, j) ∷ jobs) = (k ≡ j.job_id) × Keyed jobs

insert-Keyed : (j : BackfillJob) (jobs : Jobs) → Keyed jobs → Keyed (Dict.insert j.job_id j jobs)
unfolding Dict.insert
insert-Keyed j [] _ = (refl, tt)
insert-Keyed j ((i, w) ∷ jobs) (own, rest) = ground (arith, insert-Keyed j jobs rest)

erase-Keyed : (k : String) (jobs : Jobs) → Keyed jobs → Keyed (Dict.erase k jobs)
unfolding Dict.erase
erase-Keyed k [] _ = tt
erase-Keyed k ((i, w) ∷ jobs) (own, rest) = ground (arith, erase-Keyed k jobs rest)

fresh_after :
    (d e : Jobs) (k : String) (j : BackfillJob)
    → NodupKeys (d ++ (k, j) ∷ e)
    → Dict.lookup k d ≡ none
unfolding Dict.lookup
fresh_after [] e k j u = refl
fresh_after ((i, w) ∷ d) e k j (fresh, u) =
    ground (arith, fresh_after d e k j u, lookup-append i d ((k, j) ∷ e))

append-nil : (d : Jobs) → d ++ [] ≡ d
append-nil [] = refl
append-nil (y ∷ d) = ap (λ r. y ∷ r) (append-nil d)

append_assoc : (d e : Jobs) (x : String × BackfillJob) → (d ++ x ∷ []) ++ e ≡ d ++ x ∷ e
append_assoc [] e x = refl
append_assoc (y ∷ d) e x = ap (λ r. y ∷ r) (append_assoc d e x)

load_jobs-values :
    (d e : Jobs) → NodupKeys (d ++ e) → Keyed e → load_jobs d (Dict.values e) ≡ d ++ e
unfolding load_jobs Dict.values
load_jobs-values d [] u _ = sym (append-nil d)
load_jobs-values d ((k, j) ∷ e) u (own, rest) =
    ap (λ (i : String). load_jobs (Dict.insert i j d) (Dict.values e)) (sym own)
    ∙ ap (λ (c : Jobs). load_jobs c (Dict.values e)) (insert_fresh k j d (fresh_after d e k j u))
    ∙ load_jobs-values (d ++ (k, j) ∷ []) e (rw (append_assoc d e (k, j)) u) rest
    ∙ append_assoc d e (k, j)

-- What a state file keeps, beside the counters of the providers.
abbrev Saved : Jobs → List String → Bool → Option SavedState → Type 0
Saved jobs paused_providers global_paused none =
    (jobs ≡ []) × (paused_providers ≡ []) × (global_paused ≡ false)
Saved jobs paused_providers global_paused (some s) =
    (s.jobs ≡ Dict.values jobs)
    × (s.paused_providers ≡ paused_providers)
    × (s.global_paused ≡ global_paused)

pub record IsDurable (m : BackfillManager) : Type 0 where
  pub unique : NodupKeys m.jobs
  pub keyed : Keyed m.jobs
  pub saved : Saved m.jobs m.paused_providers m.global_paused m.state_file

save_state-IsDurable :
    (m : BackfillManager) → NodupKeys m.jobs → Keyed m.jobs → IsDurable (save_state m)
unfolding save_state
save_state-IsDurable m u k = record { unique = u; keyed = k; saved = (refl, refl, refl) }

update_status-IsDurable :
    (p : String) (f : ProviderBackfillStatus → ProviderBackfillStatus) (m : BackfillManager)
    → IsDurable m
    → IsDurable (update_status p f m)
unfolding update_status
update_status-IsDurable p f m d = record { unique = d.unique; keyed = d.keyed; saved = d.saved }

add_job-IsDurable :
    (job : BackfillJob) (m : BackfillManager) → IsDurable m → IsDurable (add_job job m)
unfolding add_job
add_job-IsDurable job m d =
    let saved =
      save_state-IsDurable (record m { jobs = Dict.insert job.job_id job m.jobs })
        (insert-NodupKeys job.job_id job m.jobs d.unique) (insert-Keyed job m.jobs d.keyed) in
    ground arith

complete_job-IsDurable :
    (job_id : String) (sources turns errors : ℕ) (m : BackfillManager)
    → IsDurable m
    → IsDurable (complete_job job_id sources turns errors m)
unfolding complete_job update_status save_state
complete_job-IsDurable job_id sources turns errors m d =
    elim (Option-cases (Dict.lookup job_id m.jobs)) [
      | inl gone ↦ rw (gone, complete_job) d
      | inr (job, found) ↦
          rw (found, complete_job)
            (record {
              unique = erase-NodupKeys job_id m.jobs d.unique;
              keyed = erase-Keyed job_id m.jobs d.keyed;
              saved = (refl, refl, refl);
            })
    ]

pause_given-IsDurable :
    (p : Option String) (m : BackfillManager) → IsDurable m → IsDurable (pause_given p m)
unfolding pause_given update_status save_state
pause_given-IsDurable none m d = record {
  unique = d.unique;
  keyed = d.keyed;
  saved = (refl, refl, refl);
}
pause_given-IsDurable (some p) m d = record {
  unique = d.unique;
  keyed = d.keyed;
  saved = (refl, refl, refl);
}

resume_given-IsDurable :
    (p : Option String) (m : BackfillManager) → IsDurable m → IsDurable (resume_given p m)
unfolding resume_given update_status save_state
resume_given-IsDurable none m d = record {
  unique = d.unique;
  keyed = d.keyed;
  saved = (refl, refl, refl);
}
resume_given-IsDurable (some p) m d = record {
  unique = d.unique;
  keyed = d.keyed;
  saved = (refl, refl, refl);
}

refresh-IsDurable :
    (ps : List String) (m : BackfillManager) → IsDurable m → IsDurable (refresh ps m)
unfolding refresh
refresh-IsDurable [] m d = d
refresh-IsDurable (p ∷ ps) m d =
    refresh-IsDurable ps _ (update_status-IsDurable p (refreshed p m) m d)

then_queue-IsDurable :
    (o : Enqueued) (m : BackfillManager) (rest : Option (List BackfillJob) × BackfillManager)
    → IsDurable m
    → IsDurable rest.1
    → IsDurable (then_queue o m rest).1
unfolding then_queue
then_queue-IsDurable unknown_provider m rest d d' = d
then_queue-IsDurable unsupported_mode m rest d d' = d
then_queue-IsDurable (queued job) m rest d d' = d'

module _ (digest : String → String → String → String → Option ℕ → String) where
  enqueue_provider_backfill-IsDurable :
      (now : ℕ) (p mode : String) (limit : Option ℕ) (since : String) (priority : ℕ)
      (m : BackfillManager)
      → IsDurable m
      → IsDurable (enqueue_provider_backfill digest now p mode limit since priority m).1
  unfolding enqueue_provider_backfill
  enqueue_provider_backfill-IsDurable now p mode limit since priority m d =
      let job = provider_job digest now p mode limit since priority in
      let m' = add_job job m in
      let kept =
        update_status-IsDurable p
          (λ s. record s { mode = mode; queued_jobs = queued_for p m'.jobs }) m'
          (add_job-IsDurable job m d) in
      ground arith

  enqueue_source-IsDurable :
      (now : ℕ) (source_id p reason : String) (m : BackfillManager)
      → IsDurable m
      → IsDurable (enqueue_source digest now source_id p reason m).1
  unfolding enqueue_source
  enqueue_source-IsDurable now source_id p reason m d =
      let job = source_job digest now source_id p reason in
      let m' = add_job job m in
      update_status-IsDurable p (λ s. record s { queued_jobs = queued_for p m'.jobs }) m'
        (add_job-IsDurable job m d)

  enqueue_all-IsDurable :
      (now : ℕ) (mode : String) (ps : List String) (m : BackfillManager)
      → IsDurable m
      → IsDurable (enqueue_all digest now mode ps m).1
  unfolding enqueue_all
  enqueue_all-IsDurable now mode [] m d = d
  enqueue_all-IsDurable now mode (p ∷ ps) m d =
      let (outcome, m') = enqueue_provider_backfill digest now p mode none "" 1 m in
      let once = enqueue_provider_backfill-IsDurable now p mode none "" 1 m d in
      then_queue-IsDurable outcome m' (enqueue_all digest now mode ps m') once
        (enqueue_all-IsDurable now mode ps m' once)

  perform-IsDurable :
      (c : Call) (m : BackfillManager) → IsDurable m → IsDurable (perform digest c m)
  unfolding perform status enqueue_startup_defaults pause resume
  perform-IsDurable (call_enqueue now p mode limit since priority) m d =
      enqueue_provider_backfill-IsDurable now p mode limit since priority m d
  perform-IsDurable (call_source now source_id p reason) m d =
      enqueue_source-IsDurable now source_id p reason m d
  perform-IsDurable (call_startup now enabled mode) m d =
      enqueue_all-IsDurable now
        (if contains ("recent" ∷ "incremental" ∷ []) mode then mode else "recent") enabled m d
  perform-IsDurable (call_pause p) m d = pause_given-IsDurable (given p) m d
  perform-IsDurable (call_resume p) m d = resume_given-IsDurable (given p) m d
  perform-IsDurable (call_complete job_id sources turns errors) m d =
      complete_job-IsDurable job_id sources turns errors m d
  perform-IsDurable call_status m d =
      refresh-IsDurable
        (map (λ (j : BackfillJob). j.provider) (Dict.values m.jobs) ++ Dict.keys m.provider_stats) m
        d

  perform_all-IsDurable :
      (cs : List Call) (m : BackfillManager) → IsDurable m → IsDurable (perform_all digest cs m)
  unfolding perform_all
  perform_all-IsDurable [] m d = d
  perform_all-IsDurable (c ∷ cs) m d =
      perform_all-IsDurable cs (perform digest c m) (perform-IsDurable c m d)

-- The jobs and flags of a manager are those of another.
abbrev pub SameQueue : BackfillManager → BackfillManager → Type 0
SameQueue m n =
    (m.jobs ≡ n.jobs)
    × (m.paused_providers ≡ n.paused_providers)
    × (m.global_paused ≡ n.global_paused)

load_state-SameQueue :
    (f : Option SavedState) (b : Bool) (m : BackfillManager)
    → NodupKeys m.jobs
    → Keyed m.jobs
    → Saved m.jobs m.paused_providers m.global_paused f
    → SameQueue (new_manager f b) m
unfolding load_state
load_state-SameQueue none b m u k (j, p, g) = (sym j, sym p, sym g)
load_state-SameQueue (some s) b m u k (j, p, g) = (rw j (load_jobs-values [] m.jobs u k), p, g)

new_manager-IsDurable : (b : Bool) → IsDurable (new_manager none b)
unfolding load_state
new_manager-IsDurable b = record { unique = tt; keyed = tt; saved = (refl, refl, refl) }

-- After any calls of a new manager's methods that started without a state file, a process that starts
-- from the state file then has the same jobs, in the same order and under the same ids, and the
-- same paused providers and global pause.
pub restart-SameQueue :
    (digest : String → String → String → String → Option ℕ → String) (cs : List Call) (b c : Bool)
    → let m = perform_all digest cs (new_manager none b) in SameQueue (new_manager m.state_file c) m
restart-SameQueue digest cs b c =
    let d = perform_all-IsDurable digest cs (new_manager none b) (new_manager-IsDurable b) in
    load_state-SameQueue _ c (perform_all digest cs (new_manager none b)) d.unique d.keyed d.saved
