-- ===== src/Passages/Spans/Laws.antt =====
-- The windows of `passage_spans`.
use mathlib.Core.List.{map, Mem, mem-map_of_mem, mem-cons_self, mem-cons_of_mem}
use session_flow.Base.{
  ℕ, zero, suc, ◌+◌, ◌-◌, ◌≤◌, ◌<◌, ◌≡◌, refl, some, List, [], ◌∷◌, arith, length, keep, ltb, leb,
  Bool-cases, inl, inr,
}
use session_flow.Passages.Spans.{
  Offset, token_at, window_starts, window_span, passage_spans, passage_tokens,
}

-- The windows from `start` on: each has its tokens, the next begins at most 386 tokens later, so
-- that 64 are shared, and the last one ends at the last token.
abbrev pub Chained : ℕ → ℕ → List ℕ → Type 0
Chained count start [] = ⊥
Chained count start (s ∷ []) = (s ≤ start) × (s + passage_tokens ≡ count)
Chained count start (s ∷ t ∷ l) =
    (s ≡ start) × (s + passage_tokens < count) × Chained count (s + 386) (t ∷ l)

Chained-cons :
    (count start : ℕ) (l : List ℕ)
    → start + passage_tokens < count
    → Chained count (start + 386) l
    → Chained count start (start ∷ l)
Chained-cons count start [] h c = absurd c
Chained-cons count start (t ∷ l) h c = (refl, h, c)

-- With as much fuel as there are tokens left the loop ends, in a chain of windows.
window_starts-Chained :
    (fuel count start : ℕ)
    → passage_tokens < count
    → start < count
    → count ≤ start + fuel
    → (l : List ℕ) × (window_starts fuel count start ≡ some l) × Chained count start l
unfolding window_starts
window_starts-Chained zero count start h inside enough = absurd (omega arith)
window_starts-Chained (suc fuel) count start h inside enough =
    elim (Bool-cases (leb count (start + passage_tokens))) [
      | inl last ↦ ((count - passage_tokens) ∷ [], rw last, (ground arith, ground arith))
      | inr more ↦
          let (l, e, c) =
            window_starts-Chained fuel count (start + 386) h (ground arith) (omega arith) in
          (start ∷ l, rw (more, e), Chained-cons count start l (ground arith) c)
    ]

-- Every token from the first of the chain on lies in a window of it.
window_of_token :
    (count start : ℕ) (l : List ℕ) (i : ℕ)
    → Chained count start l
    → start ≤ i
    → i < count
    → (s : ℕ) × Mem s l × (s ≤ i) × (i < s + passage_tokens) × (s + passage_tokens ≤ count)
window_of_token count start [] i c h k = absurd c
window_of_token count start (s ∷ []) i c h k =
    (s, mem-cons_self, omega arith, omega arith, omega arith)
window_of_token count start (s ∷ t ∷ l) i (e, inside, c) h k = elim (Bool-cases (ltb i (s + 386))) [
  | inl near ↦ (s, mem-cons_self, omega arith, ground arith, omega arith)
  | inr far ↦
      let (w, m, below, above, fits) =
        window_of_token count (s + 386) (t ∷ l) i c (ground arith) k in
      (w, mem-cons_of_mem s m, below, above, fits)
]

-- The tokens that count: those with a character.
abbrev pub real_tokens : List Offset → List Offset
real_tokens = keep (λ o. ltb o.0 o.1)

-- A tokenizer reads from left to right.
abbrev pub InOrder : List Offset → Type 0
InOrder tokens =
    (i j : ℕ)
    → i ≤ j
    → j < length tokens
    → ((token_at tokens i).0 ≤ (token_at tokens j).0)
      × ((token_at tokens i).1 ≤ (token_at tokens j).1)

-- The spans of a long text are those of a chain of windows from its first token to its last.
pub passage_spans-windows :
    (offsets : List Offset)
    → passage_tokens < length (real_tokens offsets)
    → (l : List ℕ) × (passage_spans offsets ≡ some (map (window_span (real_tokens offsets)) l))
      × Chained (length (real_tokens offsets)) 0 l
unfolding passage_spans
passage_spans-windows offsets long =
    let count = length (real_tokens offsets) in
    let (l, e, c) = window_starts-Chained count count 0 long (omega arith) (omega arith) in
    (l, ground arith, c)

-- Every token of a long text lies, from its first character to its last, in one of the spans.
pub passage_spans-covers :
    (offsets : List Offset)
    → passage_tokens < length (real_tokens offsets)
    → InOrder (real_tokens offsets)
    → (spans : List Offset) × (passage_spans offsets ≡ some spans)
      × ((i : ℕ)
          → i < length (real_tokens offsets)
          → (span : Offset) × Mem span spans
            × (span.0 ≤ (token_at (real_tokens offsets) i).0)
            × ((token_at (real_tokens offsets) i).1 ≤ span.1))
passage_spans-covers offsets long order =
    let tokens = real_tokens offsets in
    let (l, e, c) = passage_spans-windows offsets long in
    (
      map (window_span tokens) l,
      e,
      λ i inside.
          let (s, m, below, above, fits) =
            window_of_token (length tokens) 0 l i c (omega arith) inside in
          (
            window_span tokens s,
            mem-map_of_mem (window_span tokens) m,
            (order s i below inside).0,
            (order i (s + passage_tokens - 1) (omega arith) (omega arith)).1,
          ),
    )

-- A text of no more tokens than a window has none.
pub passage_spans_short :
    (offsets : List Offset)
    → length (real_tokens offsets) ≤ passage_tokens
    → passage_spans offsets ≡ some []
unfolding passage_spans
passage_spans_short offsets short = ground arith
