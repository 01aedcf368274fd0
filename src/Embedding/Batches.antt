-- ===== src/Embedding/Batches.antt =====
-- `EmbeddingBudget.split_batches` of embedding_control.py.
pub mod Laws
use session_flow.Base.{ℕ, zero, suc, ◌+◌, ◌-◌, ◌/◌, List, [], ◌∷◌, map, length, slice}

-- `range(start, stop, step)` with `count` members.
unfoldable pub range_step : ℕ → ℕ → ℕ → List ℕ
range_step zero start step = []
range_step (suc count) start step = start ∷ range_step count (start + step) step

-- How many members `range(0, stop, step)` has; Python refuses a step of 0.
unfoldable pub range_count : ℕ → ℕ → ℕ
range_count stop step = (stop + step - 1) / step

-- The budget's `batch_size` is the first argument.
unfoldable pub split_batches {ℓ} : {A : Type ℓ} → ℕ → List A → List (List A)
unfolding range_step range_count
split_batches size turns =
    map (λ i. slice turns i size) (range_step (range_count (length turns) size) 0 size)
