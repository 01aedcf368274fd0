-- ===== src/Backfill/Calls.antt =====
-- The calls that a manager gets, as data, and their run.
use session_flow.Base.{ℕ, String, Option, List, [], ◌∷◌}
use session_flow.Backfill.Defs.{
  BackfillManager, enqueue_provider_backfill, enqueue_source, enqueue_startup_defaults, pause,
  resume, complete_job, status,
}

-- A call of a method.
pub data Call : Type 0 where
  call_enqueue : ℕ → String → String → Option ℕ → String → ℕ → Call
  call_source : ℕ → String → String → String → Call
  call_startup : ℕ → List String → String → Call
  call_pause : Option String → Call
  call_resume : Option String → Call
  call_complete : String → ℕ → ℕ → ℕ → Call
  call_status : Call

module _ (digest : String → String → String → String → Option ℕ → String) where
  unfoldable pub perform : Call → BackfillManager → BackfillManager
  perform (call_enqueue now p mode limit since priority) m =
      (enqueue_provider_backfill digest now p mode limit since priority m).1
  perform (call_source now source_id p reason) m =
      (enqueue_source digest now source_id p reason m).1
  perform (call_startup now enabled mode) m = (enqueue_startup_defaults digest now enabled mode m).1
  perform (call_pause p) m = pause p m
  perform (call_resume p) m = resume p m
  perform (call_complete job_id sources turns errors) m = complete_job job_id sources turns errors m
  perform call_status m = (status m).1

  unfoldable pub perform_all : List Call → BackfillManager → BackfillManager
  unfolding perform
  perform_all [] m = m
  perform_all (c ∷ cs) m = perform_all cs (perform c m)
