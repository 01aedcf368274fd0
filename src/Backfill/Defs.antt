-- ===== src/Backfill/Defs.antt =====
-- The state of `BackfillManager` and its methods. Times are microseconds. The digest in a job's id
-- (`hashlib.sha256` of a JSON text) is a parameter. Set elements are kept in the order of their
-- insertion, which the source sorts when it writes them.
use Prim.Native.String.{◌++◌ as ◌<>◌}
use session_flow.Base.{
  ℕ, ◌+◌, String, Bool, true, false, not, ◌&&◌, ◌||◌, Option, none, some, List, [], ◌∷◌, ◌++◌, map,
  ltb, contains, count_if, keep, ◌==◌, string_eq, nat_eq, if◌then◌else◌,
}
use mathlib.Core.Option
use session_flow.Base.Dict
use session_flow.Base.Dict.{Dict}

pub record BackfillJob : Type 0 where
  pub job_id : String
  pub provider : String
  pub mode : String
  pub priority : ℕ
  pub source_id : String
  pub since : String
  pub limit : Option ℕ
  pub reason : String
  pub created_at : ℕ

pub record ProviderBackfillStatus : Type 0 where
  pub provider : String
  pub mode : String
  pub queued_jobs : ℕ
  pub paused : Bool
  pub processed_sources : ℕ
  pub indexed_turns : ℕ
  pub error_count : ℕ

-- The state file. `os.replace` puts a new one in its place whole.
pub record SavedState : Type 0 where
  pub global_paused : Bool
  pub paused_providers : List String
  pub jobs : List BackfillJob
  pub providers : Dict String ProviderBackfillStatus

pub record BackfillManager : Type 0 where
  pub jobs : Dict String BackfillJob
  pub paused_providers : List String
  pub global_paused : Bool
  pub provider_stats : Dict String ProviderBackfillStatus
  pub state_file : Option SavedState
  -- `get_embedding_budget().paused`, which the whole process shares
  pub budget_paused : Bool

pub record BackfillStatus : Type 0 where
  pub jobs : List BackfillJob
  pub providers : Dict String ProviderBackfillStatus
  pub paused : Bool

-- The two `ValueError`s of `enqueue_provider_backfill`.
pub data Enqueued : Type 0 where
  unknown_provider unsupported_mode : Enqueued
  queued : BackfillJob → Enqueued

abbrev pub legal_providers : List String
legal_providers =
    "claude_code_cli" ∷ "claude_cowork_legacy" ∷ "codex" ∷ "opencode" ∷ "antigravity_cli"
    ∷ "antigravity_desktop" ∷ []

abbrev pub backfill_modes : List String
backfill_modes = "recent" ∷ "incremental" ∷ "full" ∷ []

-- `sum(1 for job in self.jobs.values() if job.provider == provider)`
unfoldable pub queued_for : String → Dict String BackfillJob → ℕ
unfolding Dict.values
queued_for provider jobs = count_if (λ (j : BackfillJob). j.provider == provider) (Dict.values jobs)

abbrev pub new_status : String → ProviderBackfillStatus
new_status provider = record {
  provider = provider;
  mode = "";
  queued_jobs = 0;
  paused = false;
  processed_sources = 0;
  indexed_turns = 0;
  error_count = 0;
}

-- `_ensure_provider(provider)`, and an assignment to fields of the status that it returns.
unfoldable pub update_status :
    String → (ProviderBackfillStatus → ProviderBackfillStatus) → BackfillManager → BackfillManager
update_status provider f m =
    let status = Dict.get_or provider (new_status provider) m.provider_stats in
    record m { provider_stats = Dict.insert provider (f status) m.provider_stats }

unfoldable pub save_state : BackfillManager → BackfillManager
unfolding Dict.values
save_state m = record m {
  state_file = some (record {
    global_paused = m.global_paused;
    paused_providers = m.paused_providers;
    jobs = Dict.values m.jobs;
    providers = m.provider_stats;
  });
}

-- `self.jobs[item["job_id"]] = BackfillJob(**item)` for each item in turn.
unfoldable pub load_jobs : Dict String BackfillJob → List BackfillJob → Dict String BackfillJob
load_jobs d [] = d
load_jobs d (j ∷ js) = load_jobs (Dict.insert j.job_id j d) js

unfoldable pub load_state : BackfillManager → BackfillManager
unfolding load_jobs
load_state m = elim m.state_file [
  | none ↦ m
  | some s ↦ record m {
    jobs = load_jobs [] s.jobs;
    paused_providers = s.paused_providers;
    global_paused = s.global_paused;
    provider_stats = s.providers;
  }
]

-- A process that starts with a state file, or without one.
abbrev pub new_manager : Option SavedState → Bool → BackfillManager
new_manager state_file budget_paused = load_state (record {
  jobs = [];
  paused_providers = [];
  global_paused = false;
  provider_stats = [];
  state_file = state_file;
  budget_paused = budget_paused;
})

-- A job that is not there yet is queued, and the state saved.
unfoldable pub add_job : BackfillJob → BackfillManager → BackfillManager
unfolding save_state
add_job job m =
    if Dict.has job.job_id m.jobs
    then m
    else save_state (record m { jobs = Dict.insert job.job_id job m.jobs })

-- What is queued after a provider and its outcome, which raised or not.
unfoldable pub then_queue :
    Enqueued
    → BackfillManager
    → Option (List BackfillJob) × BackfillManager
    → Option (List BackfillJob) × BackfillManager
then_queue unknown_provider m rest = (none, m)
then_queue unsupported_mode m rest = (none, m)
then_queue (queued job) m (jobs, m') = (Option.map (λ js. job ∷ js) jobs, m')

module _ (digest : String → String → String → String → Option ℕ → String) where
  unfoldable pub job_key : String → String → String → String → Option ℕ → String
  job_key provider mode source_id since limit =
      provider <> ":" <> mode <> ":" <> digest provider mode source_id since limit

  unfoldable pub provider_job : ℕ → String → String → Option ℕ → String → ℕ → BackfillJob
  unfolding job_key
  provider_job now provider mode limit since priority = record {
    job_id = job_key provider mode "" since limit;
    provider = provider;
    mode = mode;
    priority = priority;
    source_id = "";
    since = since;
    limit = limit;
    reason = mode <> " provider backfill";
    created_at = now;
  }

  unfoldable pub enqueue_provider_backfill :
      ℕ → String → String → Option ℕ → String → ℕ → BackfillManager → Enqueued × BackfillManager
  unfolding add_job update_status queued_for provider_job
  enqueue_provider_backfill now provider mode limit since priority m =
      if not (contains legal_providers provider)
      then (unknown_provider, m)
      else if not (contains backfill_modes mode)
      then (unsupported_mode, m)
      else let job = provider_job now provider mode limit since priority in
        let m' = add_job job m in
        let count = queued_for provider m'.jobs in
        (
          queued (Dict.get_or job.job_id job m'.jobs),
          update_status provider (λ s. record s { mode = mode; queued_jobs = count }) m',
        )

  unfoldable pub source_job : ℕ → String → String → String → BackfillJob
  unfolding job_key
  source_job now source_id provider reason = record {
    job_id = job_key provider "manual-source" source_id "" none;
    provider = provider;
    mode = "manual-source";
    priority = 0;
    source_id = source_id;
    since = "";
    limit = none;
    reason = reason;
    created_at = now;
  }

  unfoldable pub enqueue_source :
      ℕ → String → String → String → BackfillManager → BackfillJob × BackfillManager
  unfolding add_job update_status queued_for source_job
  enqueue_source now source_id provider reason m =
      let job = source_job now source_id provider reason in
      let m' = add_job job m in
      let count = queued_for provider m'.jobs in
      (
        Dict.get_or job.job_id job m'.jobs,
        update_status provider (λ s. record s { queued_jobs = count }) m',
      )

  -- The jobs, or `none` if an unknown provider raised; the jobs before it stay queued.
  unfoldable pub enqueue_all :
      ℕ → String → List String → BackfillManager → Option (List BackfillJob) × BackfillManager
  unfolding then_queue
  enqueue_all now mode [] m = (some [], m)
  enqueue_all now mode (provider ∷ providers) m =
      let (outcome, m') = enqueue_provider_backfill now provider mode none "" 1 m in
      then_queue outcome m' (enqueue_all now mode providers m')

  unfoldable pub enqueue_startup_defaults :
      ℕ → List String → String → BackfillManager → Option (List BackfillJob) × BackfillManager
  unfolding enqueue_all
  enqueue_startup_defaults now enabled mode m =
      let startup_mode = if contains ("recent" ∷ "incremental" ∷ []) mode then mode else "recent" in
      enqueue_all now startup_mode enabled m

-- `set.add` and `set.discard`
abbrev pub set_add : String → List String → List String
set_add x xs = if contains xs x then xs else xs ++ x ∷ []

abbrev pub set_discard : String → List String → List String
set_discard x xs = keep (λ y. not (x == y)) xs

-- `none` pauses everything, and the shared embedding budget with it.
-- `if provider:`, which the empty text is not.
abbrev pub given : Option String → Option String
given none = none
given (some provider) = if provider == "" then none else some provider

unfoldable pub pause_given : Option String → BackfillManager → BackfillManager
unfolding update_status save_state
pause_given none m = save_state (record m { global_paused = true; budget_paused = true })
pause_given (some provider) m = save_state (
    update_status provider (λ s. record s { paused = true })
      (record m { paused_providers = set_add provider m.paused_providers }))

unfoldable pub resume_given : Option String → BackfillManager → BackfillManager
unfolding update_status save_state
resume_given none m = save_state (record m { global_paused = false; budget_paused = false })
resume_given (some provider) m = save_state (
    update_status provider (λ s. record s { paused = false })
      (record m { paused_providers = set_discard provider m.paused_providers }))

unfoldable pub pause : Option String → BackfillManager → BackfillManager
unfolding pause_given
pause provider m = pause_given (given provider) m

unfoldable pub resume : Option String → BackfillManager → BackfillManager
unfolding resume_given
resume provider m = resume_given (given provider) m

abbrev pub add_counters : ℕ → ℕ → ℕ → ℕ → ProviderBackfillStatus → ProviderBackfillStatus
add_counters sources turns errors left s = record s {
  processed_sources = s.processed_sources + sources;
  indexed_turns = s.indexed_turns + turns;
  error_count = s.error_count + errors;
  queued_jobs = left;
}

-- A job that is not queued changes nothing.
unfoldable pub complete_job : String → ℕ → ℕ → ℕ → BackfillManager → BackfillManager
unfolding update_status save_state queued_for
complete_job job_id sources turns errors m = elim (Dict.lookup job_id m.jobs) [
  | none ↦ m
  | some job ↦
      let jobs = Dict.erase job_id m.jobs in
      save_state (
        update_status job.provider
          (add_counters sources turns errors (queued_for job.provider jobs))
          (record m { jobs = jobs }))
]

-- Whether a job comes before another: `key=lambda job: (-job.priority, job.created_at)`.
unfoldable pub runs_before : BackfillJob → BackfillJob → Bool
runs_before a b =
    ltb b.priority a.priority || ((a.priority == b.priority) && ltb a.created_at b.created_at)

-- `sorted` by that key, which keeps the order of equal jobs.
unfoldable pub sort_into : BackfillJob → List BackfillJob → List BackfillJob
sort_into j [] = j ∷ []
sort_into j (k ∷ l) = if runs_before k j then k ∷ sort_into j l else j ∷ k ∷ l

unfoldable pub sort_jobs : List BackfillJob → List BackfillJob
unfolding sort_into runs_before
sort_jobs [] = []
sort_jobs (j ∷ l) = sort_into j (sort_jobs l)

abbrev pub refreshed : String → BackfillManager → ProviderBackfillStatus → ProviderBackfillStatus
refreshed p m s = record s {
  queued_jobs = queued_for p m.jobs;
  paused = contains m.paused_providers p;
}

-- The counter and the flag of every provider, set anew.
unfoldable pub refresh : List String → BackfillManager → BackfillManager
unfolding update_status queued_for
refresh [] m = m
refresh (p ∷ ps) m = refresh ps (update_status p (refreshed p m) m)

unfoldable pub status : BackfillManager → BackfillStatus × BackfillManager
unfolding refresh sort_jobs Dict.values Dict.keys
status m =
    let providers =
      map (λ (j : BackfillJob). j.provider) (Dict.values m.jobs) ++ Dict.keys m.provider_stats in
    let m' = refresh providers m in
    (
      record {
        jobs = sort_jobs (Dict.values m'.jobs);
        providers = m'.provider_stats;
        paused = m'.global_paused;
      },
      m',
    )
