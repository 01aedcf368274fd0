-- ===== src/Embedding/Budget.antt =====
-- `EmbeddingBudget.before_batch` and `after_batch` of embedding_control.py.
-- A time of 0 in `last_batch_finished_at` means that no batch has finished.
-- Times are exact microseconds, read once in a call; the code has floats of seconds and reads the clock twice.
pub mod Laws
use session_flow.Base.{
  ℕ, zero, suc, ◌+◌, ◌-◌, ◌*◌, max, Bool, true, false, ltb, ◌==◌, nat_eq, if◌then◌else◌,
}
use session_flow.Embedding.Throttle.{EmbedThrottle, remaining, done}

pub data Mode : Type 0 where
  recent incremental full : Mode

pub record EmbeddingBudget : Type 0 where
  pub batch_size : ℕ
  pub cooldown_ms : ℕ
  pub max_turns_per_run : ℕ
  pub max_files_per_run : ℕ
  pub recent_days : ℕ
  pub mode : Mode
  pub paused : Bool
  pub turns_processed : ℕ
  pub batches_processed : ℕ
  pub errors : ℕ
  pub last_batch_finished_at : ℕ
  pub last_batch_duration : ℕ
  pub cap_warned : Bool

-- The message of a decision; the source formats the sizes into the third.
pub data Reason : Type 0 where
  no_reason is_paused cap_reached cooling : Reason
  too_big : ℕ → ℕ → Reason

pub record EmbeddingDecision : Type 0 where
  pub allowed : Bool
  pub reason : Reason
  pub retry_after : ℕ

abbrev pub deny : Reason → ℕ → EmbeddingDecision
deny r wait = record { allowed = false; reason = r; retry_after = wait }

abbrev pub allow : EmbeddingDecision
allow = record { allowed = true; reason = no_reason; retry_after = 0 }

-- The longer of the throttle's cooldown and the budget's own, at time `now`.
unfoldable pub cooldown_left : EmbeddingBudget → EmbedThrottle → ℕ → ℕ
cooldown_left b t now =
    if b.last_batch_finished_at == 0
    then remaining t now
    else max (remaining t now) ((b.cooldown_ms * 1000 + b.last_batch_finished_at) - now)

-- The budget comes back because the first refusal at the cap is noted in it.
unfoldable pub before_batch :
    EmbeddingBudget → EmbedThrottle → ℕ → ℕ → EmbeddingBudget × EmbeddingDecision
unfolding cooldown_left
before_batch b t now size =
    if b.paused
    then (b, deny is_paused 0)
    else if ltb b.max_turns_per_run (b.turns_processed + size)
    then (record b { cap_warned = true }, deny cap_reached 0)
    else if ltb b.batch_size size
    then (b, deny (too_big size b.batch_size) 0)
    else let left = cooldown_left b t now in
      if ltb 0 left then (b, deny cooling left) else (b, allow)

unfoldable pub after_batch :
    EmbeddingBudget → EmbedThrottle → ℕ → ℕ → ℕ → Bool → EmbeddingBudget × EmbedThrottle
after_batch b t now duration turns failed = (
  record b {
    last_batch_finished_at = now;
    last_batch_duration = duration;
    batches_processed = b.batches_processed + 1;
    turns_processed = b.turns_processed + turns;
    errors = if failed then b.errors + 1 else b.errors;
  },
  done t now,
)
