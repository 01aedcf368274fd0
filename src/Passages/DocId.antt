-- ===== src/Passages/DocId.antt =====
-- `passage_doc_id`, `passage_parent` and `passage_index` of passages.py, over code points.
-- The pattern `::p(\d+)$` is read with ASCII digits. Its `$` also stands before a last newline.
pub mod Laws
use session_flow.Base.{
  ℕ, zero, suc, ◌+◌, ◌-◌, ◌*◌, ◌/◌, ◌%◌, Bool, true, false, ◌&&◌, Option, none, some, List, [], ◌∷◌,
  ◌++◌, ltb, leb, ◌==◌, nat_eq, if◌then◌else◌,
}
use session_flow.Base.Texts.{Text}
use mathlib.Core.Option

unfoldable pub is_digit : ℕ → Bool
is_digit c = leb b'0' c && leb c b'9'

-- `str(n)`, with `rest` behind it.
unfoldable pub decimal_loop : ℕ → ℕ → Text → Text
decimal_loop zero n rest = rest
decimal_loop (suc fuel) n rest =
    let more = decimal_loop fuel (n / 10) ((b'0' + n % 10) ∷ rest) in
    if ltb n 10 then (b'0' + n % 10) ∷ rest else more

-- A number has fewer digits than its successor.
unfoldable pub decimal : ℕ → Text
unfolding decimal_loop
decimal n = decimal_loop (suc n) n []

-- `int(s)` for a run of digits, from the value of those before it.
unfoldable pub read_digits : ℕ → Text → ℕ
read_digits n [] = n
read_digits n (c ∷ s) = read_digits (n * 10 + (c - b'0')) s

-- `\d*$`: the digits up to the end of the text, or to its last newline.
unfoldable pub digits_to_end : Text → Option Text
unfolding is_digit
digits_to_end [] = some []
digits_to_end (c ∷ []) = if is_digit c then some (c ∷ []) else if c == 10 then some [] else none
digits_to_end (c ∷ d ∷ s) =
    let rest = digits_to_end (d ∷ s) in if is_digit c then Option.map (λ ds. c ∷ ds) rest else none

-- `::p(\d+)$` at the start of a text.
unfoldable pub match_here : Text → Option Text
unfolding digits_to_end is_digit
match_here (a ∷ b ∷ p ∷ d ∷ s) =
    if (a == b':') && ((b == b':') && ((p == b'p') && is_digit d))
    then digits_to_end (d ∷ s)
    else none
match_here s = none

-- `_SUFFIX.search`: the text before the leftmost match, and its digits.
unfoldable pub search_suffix : Text → Option (Text × Text)
unfolding match_here
search_suffix [] = none
search_suffix (c ∷ s) =
    let rest = search_suffix s in
    elim (match_here (c ∷ s)) [
      | some digits ↦ some ([], digits)
      | none ↦ Option.map (λ (before, digits). (c ∷ before, digits)) rest
    ]

unfoldable pub passage_doc_id : Text → ℕ → Text
unfolding decimal
passage_doc_id parent index = parent ++ (b':' ∷ b':' ∷ b'p' ∷ decimal index)

unfoldable pub passage_parent : Text → Option Text
unfolding search_suffix
passage_parent doc_id = Option.map (λ m. m.0) (search_suffix doc_id)

unfoldable pub passage_index : Text → Option ℕ
unfolding search_suffix read_digits
passage_index doc_id = Option.map (λ m. read_digits 0 m.1) (search_suffix doc_id)
