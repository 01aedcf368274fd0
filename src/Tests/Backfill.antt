-- ===== src/Tests/Backfill.antt =====
-- A day of a manager.
use Prim.Native.String.{◌++◌ as ◌<>◌}
use mathlib.Core.List.{Perm}
use session_flow.Base.{
  ℕ, String, string_eq, ◌≡◌, refl, true, false, Option, none, some, List, [], ◌∷◌,
}
use session_flow.Base.Dict
use session_flow.Base.Dict.{NodupKeys}
use session_flow.Backfill.{
  BackfillManager, new_manager, queued_for, enqueue_provider_backfill, status,
}
use session_flow.Backfill.Calls.{
  Call, call_enqueue, call_source, call_startup, call_pause, call_resume, call_complete,
  call_status, perform_all,
}
use session_flow.Backfill.Tracking.{counted, perform_all-tracked}
use session_flow.Backfill.Durability.{SameQueue, restart-SameQueue}
use session_flow.Backfill.Order.{IsOrdered, status-jobs}
use session_flow.Backfill.Dedupe.{enqueue_provider_backfill-again}

abbrev plain_digest : String → String → String → String → Option ℕ → String
plain_digest provider mode source_id since limit = source_id <> since

abbrev day : List Call
day =
    call_startup 1 ("codex" ∷ "opencode" ∷ []) "recent"
    ∷ call_enqueue 5 "codex" "full" none "" 7
    ∷ call_source 6 "a.jsonl" "codex" "source changed"
    ∷ call_pause (some "opencode")
    ∷ call_complete "codex:recent:" 3 40 1
    ∷ call_status
    ∷ call_resume none
    ∷ []

abbrev evening : BackfillManager
evening = perform_all plain_digest day (new_manager none false)

perform_all-tracked_example :
    NodupKeys evening.jobs
    × ((q : String) → counted (Dict.lookup q evening.provider_stats) ≡ queued_for q evening.jobs)
perform_all-tracked_example = perform_all-tracked plain_digest day false

restart-SameQueue_example : SameQueue (new_manager evening.state_file true) evening
restart-SameQueue_example = restart-SameQueue plain_digest day false true

status-jobs_example :
    IsOrdered (status evening).0.jobs × Perm (status evening).0.jobs (Dict.values evening.jobs)
status-jobs_example = status-jobs evening

enqueue_provider_backfill-again_example :
    let (outcome, m) = enqueue_provider_backfill plain_digest 9 "codex" "full" none "" 1 evening in
    let (outcome', m') = enqueue_provider_backfill plain_digest 12 "codex" "full" none "" 4 m in
    (outcome' ≡ outcome) × (m'.jobs ≡ m.jobs) × (m'.state_file ≡ m.state_file)
unfolding string_eq
enqueue_provider_backfill-again_example =
    enqueue_provider_backfill-again plain_digest 9 12 "codex" "full" none "" 1 4 evening refl refl
