-- ===== src/Embedding/Batches/Laws.antt =====
-- What `split_batches` makes of a list of turns.
use native.Mathlib.Nat.{div-add-mod, mod-lt, zero-mul, suc-mul}
use session_flow.Base.{
  ℕ, zero, suc, ◌+◌, ◌-◌, ◌*◌, ◌≤◌, ◌<◌, ◌≡◌, ◌∙◌, List, map, arith, length, take, drop, slice,
  length-take, length-drop, take-add, drop-drop, take_all, All, concat,
}
use session_flow.Embedding.Batches.{range_step, range_count, split_batches}

pub range_count-le : (n b : ℕ) → 0 < b → n ≤ range_count n b * b
unfolding range_count
range_count-le n b h = grind (arith, div-add-mod (n + b - 1) b, mod-lt (n + b - 1) h)

range_count-lt : (n b : ℕ) → 0 < b → range_count n b * b < n + b
unfolding range_count
range_count-lt n b h = grind (arith, div-add-mod (n + b - 1) b, mod-lt (n + b - 1) h)

module _ {ℓ} {A : Type ℓ} where
  concat-slices :
      (xs : List A) (count i b : ℕ)
      → concat (map (λ j. slice xs j b) (range_step count i b)) ≡ take (count * b) (drop i xs)
  unfolding range_step
  concat-slices xs zero i b = rw zero-mul
  concat-slices xs (suc count) i b =
      let e : suc count * b ≡ b + count * b = rw suc-mul (omega arith) in
      rw (concat-slices xs count (i + b) b, e, take-add, drop-drop)

  pub concat-split_batches : (b : ℕ) (xs : List A) → 0 < b → concat (split_batches b xs) ≡ xs
  unfolding split_batches
  concat-split_batches b xs h =
      concat-slices xs (range_count (length xs) b) 0 b
      ∙ take_all _ xs (range_count-le (length xs) b h)

  abbrev pub IsBatch : ℕ → List A → Type 0
  IsBatch b xs = (0 < length xs) × (length xs ≤ b)

  All-slices :
      (xs : List A) (count i b : ℕ)
      → 0 < b
      → i + count * b < length xs + b
      → All (IsBatch b) (map (λ j. slice xs j b) (range_step count i b))
  unfolding range_step
  All-slices xs zero i b h k = tt
  All-slices xs (suc count) i b h k =
      let e : suc count * b ≡ b + count * b = rw suc-mul (omega arith) in
      (
        (
          omega (arith, length-take b (drop i xs), length-drop i xs),
          omega (arith, length-take b (drop i xs)),
        ),
        All-slices xs count (i + b) b h (omega arith),
      )

  split_batches-IsBatch : (b : ℕ) (xs : List A) → 0 < b → All (IsBatch b) (split_batches b xs)
  unfolding split_batches
  split_batches-IsBatch b xs h =
      All-slices xs (range_count (length xs) b) 0 b h
        (omega (arith, range_count-lt (length xs) b h))

  -- With a positive batch size, every batch has a turn and none has more than the batch size, and put
  -- together the batches are the turns, in order.
  pub split_batches-cut :
      (b : ℕ) (xs : List A)
      → 0 < b
      → All (IsBatch b) (split_batches b xs) × (concat (split_batches b xs) ≡ xs)
  split_batches-cut b xs h = (split_batches-IsBatch b xs h, concat-split_batches b xs h)
