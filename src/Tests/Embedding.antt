-- ===== src/Tests/Embedding.antt =====
-- Runs of the throttle, the budget and the batches.
use native.Mathlib.Omega.{arith}
use session_flow.Base.{
  ℕ, ◌+◌, ◌*◌, ◌≤◌, ◌<◌, ◌⊎◌, ◌≡◌, ◌↔◌, refl, true, false, List, [], ◌∷◌, nat_eq, All, concat,
}
use session_flow.Embedding.Throttle.{EmbedThrottle, new_throttle, remaining, done}
use session_flow.Embedding.Throttle.Loop.{
  Loop, Reach, Reach-paced, tick, acquire, begin, finish, here, next, start, running,
}
use session_flow.Embedding.Budget.{EmbeddingBudget, before_batch, recent}
use session_flow.Embedding.Budget.Laws.{MayRun, allowed_iff_MayRun}
use session_flow.Embedding.Batches.{split_batches}
use session_flow.Embedding.Batches.Laws.{IsBatch, split_batches-cut}

abbrev budget : EmbeddingBudget
budget = record {
  batch_size = 4;
  cooldown_ms = 300;
  max_turns_per_run = 10;
  max_files_per_run = 5;
  recent_days = 7;
  mode = recent;
  paused = false;
  turns_processed = 2;
  batches_processed = 1;
  errors = 0;
  last_batch_finished_at = 1000;
  last_batch_duration = 10;
  cap_warned = false;
}

abbrev throttle : EmbedThrottle
throttle = record { cooldown_ms = 200; last_done = 1000 }

allowed_iff_MayRun_example :
    ((before_batch budget throttle 400000 4).1.allowed ≡ true) ↔ MayRun budget throttle 400000 4
allowed_iff_MayRun_example = allowed_iff_MayRun budget throttle 400000 4

abbrev three : List ℕ
three = 1 ∷ 2 ∷ 3 ∷ []

split_batches-cut_example :
    All (IsBatch 2) (split_batches 2 three) × (concat (split_batches 2 three) ≡ three)
split_batches-cut_example = split_batches-cut 2 three (omega arith)

split_batches-three : split_batches 2 three ≡ (1 ∷ 2 ∷ []) ∷ (3 ∷ []) ∷ []
unfolding split_batches
split_batches-three = refl

-- Two batches, the second as early as it may begin.
abbrev second_batch : Loop
second_batch = record {
  throttle = record { cooldown_ms = 200; last_done = 50 };
  clock = 200050;
  holder = running 50 50 200050;
}

two_batches : Reach (start 100 10) second_batch
unfolding new_throttle remaining done nat_eq
two_batches =
    next
      (next
        (next
          (next
            (next (next (next here (acquire refl)) (begin 10 0 10 refl (omega arith))) (tick 40))
            (finish true 10 0 10 refl))
          (acquire refl))
        (tick 200000))
      (begin 50 50 200050 refl (omega arith))

Reach-paced_example :
    (0 < 50 → 50 + 200 * 1000 ≤ 200050)
    × ((second_batch.throttle.last_done ≡ 50) ⊎ (50 ≤ second_batch.throttle.last_done))
Reach-paced_example = Reach-paced 100 10 50 50 200050 two_batches refl
