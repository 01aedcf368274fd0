-- ===== src/Embedding/Throttle.antt =====
-- `EmbedThrottle` of embedding_control.py. Times are exact microseconds; the code has floats of seconds.
pub mod Loop
use session_flow.Base.{ℕ, ◌+◌, ◌-◌, ◌*◌, max, ◌==◌, nat_eq, if◌then◌else◌}

abbrev pub min_cooldown_ms : ℕ
min_cooldown_ms = 200

-- `last_done` is 0 before the first batch has finished.
pub record EmbedThrottle : Type 0 where
  pub cooldown_ms : ℕ
  pub last_done : ℕ

abbrev pub cooldown : EmbedThrottle → ℕ
cooldown t = t.cooldown_ms * 1000

unfoldable pub new_throttle : ℕ → EmbedThrottle
new_throttle cooldown_ms = record { cooldown_ms = max cooldown_ms min_cooldown_ms; last_done = 0 }

-- `max(0.0, cooldown - (now - last_done))`, with the subtraction regrouped so that no part of it
-- is negative before the cut at 0.
unfoldable pub remaining : EmbedThrottle → ℕ → ℕ
remaining t now = if t.last_done == 0 then 0 else (cooldown t + t.last_done) - now

unfoldable pub done : EmbedThrottle → ℕ → EmbedThrottle
done t now = record t { last_done = now }
