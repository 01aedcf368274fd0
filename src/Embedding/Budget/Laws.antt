-- ===== src/Embedding/Budget/Laws.antt =====
-- What the decisions of `before_batch` mean.
use session_flow.Base.{ℕ, ◌+◌, ◌*◌, ◌≤◌, ◌<◌, ◌≡◌, ◌↔◌, Bool, true, false, arith, nat_eq}
use session_flow.Embedding.Throttle.{EmbedThrottle, cooldown, remaining}
use session_flow.Embedding.Budget.{EmbeddingBudget, before_batch, after_batch}

-- The conditions under which a batch of `size` turns may run at time `now`.
pub record MayRun (b : EmbeddingBudget) (t : EmbedThrottle) (now size : ℕ) : Type 0 where
  pub unpaused : b.paused ≡ false
  pub under_cap : b.turns_processed + size ≤ b.max_turns_per_run
  pub fits : size ≤ b.batch_size
  pub rested : 0 < t.last_done → t.last_done + cooldown t ≤ now
  pub own_rested :
      0 < b.last_batch_finished_at → b.last_batch_finished_at + b.cooldown_ms * 1000 ≤ now

pub MayRun-of_allowed :
    (b : EmbeddingBudget) (t : EmbedThrottle) (now size : ℕ)
    → (before_batch b t now size).1.allowed ≡ true
    → MayRun b t now size
unfolding before_batch remaining
MayRun-of_allowed b t now size h = record {
  unpaused = ground arith;
  under_cap = ground arith;
  fits = ground arith;
  rested = λ pos. ground arith;
  own_rested = λ pos. ground arith;
}

-- A batch may run exactly when the budget is not paused, the batch neither passes the cap of the
-- run nor the batch size, and both cooldowns are over.
pub allowed_iff_MayRun :
    (b : EmbeddingBudget) (t : EmbedThrottle) (now size : ℕ)
    → ((before_batch b t now size).1.allowed ≡ true) ↔ MayRun b t now size
unfolding before_batch remaining
allowed_iff_MayRun b t now size = (MayRun-of_allowed b t now size, λ m. ground arith)

-- The counters of a run: what a let-through batch of at most `size` turns adds stays under the cap.
pub turns-after_batch-le :
    (b : EmbeddingBudget) (t : EmbedThrottle) (now size finished duration turns : ℕ) (failed : Bool)
    → (before_batch b t now size).1.allowed ≡ true
    → turns ≤ size
    → (after_batch (before_batch b t now size).0 t finished duration turns failed).0.turns_processed
      ≤ b.max_turns_per_run
unfolding before_batch after_batch
turns-after_batch-le b t now size finished duration turns failed h fits = ground arith
