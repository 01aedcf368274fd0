-- ===== src/Passages/Spans.antt =====
-- `passage_spans` of passages.py.
pub mod Laws
use session_flow.Base.{
  ℕ, zero, suc, ◌+◌, ◌-◌, Option, none, some, List, [], ◌∷◌, ltb, leb, length, keep, if◌then◌else◌,
}
use mathlib.Core.List.{map}
use mathlib.Core.Option

abbrev pub passage_tokens : ℕ
passage_tokens = 450

abbrev pub passage_overlap : ℕ
passage_overlap = 64

-- The first character of a token and the one past its last.
abbrev pub Offset : Type 0
Offset = ℕ × ℕ

-- `tokens[i]`; every index that is used is in range.
abbrev pub token_at : List Offset → ℕ → Offset
token_at [] i = (0, 0)
token_at (t ∷ ts) zero = t
token_at (t ∷ ts) (suc i) = token_at ts i

-- The first token of each window, for the loop of `passage_spans`; `none` is for no fuel.
unfoldable pub window_starts : ℕ → ℕ → ℕ → Option (List ℕ)
window_starts zero count start = none
window_starts (suc fuel) count start =
    let rest = window_starts fuel count (start + (passage_tokens - passage_overlap)) in
    if leb count (start + passage_tokens)
    then some ((count - passage_tokens) ∷ [])
    else Option.map (λ l. start ∷ l) rest

-- The characters from the first token of a window to its last.
abbrev pub window_span : List Offset → ℕ → Offset
window_span tokens start =
    ((token_at tokens start).0, (token_at tokens (start + passage_tokens - 1)).1)

-- Empty spans are dropped first. The fuel of the loop is the number of tokens.
unfoldable pub passage_spans : List Offset → Option (List Offset)
unfolding window_starts
passage_spans offsets =
    let tokens = keep (λ o. ltb o.0 o.1) offsets in
    if leb (length tokens) passage_tokens
    then some []
    else Option.map (map (window_span tokens)) (window_starts (length tokens) (length tokens) 0)
