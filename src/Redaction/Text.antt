-- ===== src/Redaction/Text.antt =====
-- The patterns of a bracketed span in secret_redaction.py, and which places such spans meet.
use session_flow.Base.{
  ℕ, zero, suc, ◌+◌, ◌-◌, Bool, ◌&&◌, Option, none, some, List, [], ◌∷◌, leb, ltb, any, nat_eq,
  if◌then◌else◌,
}
use session_flow.Base.Texts.{Text, find_code, starts_with, text_eq}
use mathlib.Core.Option

-- The length of a match of `opening[^closing]*closing` at the start of a text. The opening has
-- no closing character in it.
unfoldable pub match_span : Text → ℕ → Text → Option ℕ
unfolding starts_with find_code
match_span opening closing s =
    if starts_with opening s then Option.map suc (find_code closing s) else none

-- What a search does at an offset with its match there, if any: `rest` is given how many of the
-- characters after this one the match took.
unfoldable pub spans_with : ℕ → Option ℕ → (ℕ → List (ℕ × ℕ)) → List (ℕ × ℕ)
spans_with i none rest = rest 0
spans_with i (some k) rest = (i, i + k) ∷ rest (k - 1)

-- `finditer` of that pattern, from an offset on, with so many characters taken by the last match.
unfoldable pub spans_from : Text → ℕ → ℕ → ℕ → Text → List (ℕ × ℕ)
unfolding match_span spans_with
spans_from opening closing i taken [] = []
spans_from opening closing i (suc taken) (c ∷ s) = spans_from opening closing (i + 1) taken s
spans_from opening closing i zero (c ∷ s) =
    spans_with i (match_span opening closing (c ∷ s))
      (λ taken. spans_from opening closing (i + 1) taken s)

-- `\[REDACTED:[^\]]*\]`
abbrev pub tag : Text
tag = b'[' ∷ b'R' ∷ b'E' ∷ b'D' ∷ b'A' ∷ b'C' ∷ b'T' ∷ b'E' ∷ b'D' ∷ b':' ∷ []

unfoldable pub placeholder_spans : Text → List (ℕ × ℕ)
unfolding spans_from
placeholder_spans s = spans_from tag b']' 0 0 s

-- `\$\{[^}]*\}`
unfoldable pub interpolation_spans : Text → List (ℕ × ℕ)
unfolding spans_from
interpolation_spans s = spans_from (b'$' ∷ b'{' ∷ []) b'}' 0 0 s

-- `any(start <= i < end for start, end in spans)`
unfoldable pub is_inside : List (ℕ × ℕ) → ℕ → Bool
is_inside spans i = any (λ (start, end). leb start i && ltb i end) spans

-- `any(start < e and s < end for s, e in spans)`
unfoldable pub overlaps : List (ℕ × ℕ) → ℕ → ℕ → Bool
overlaps spans start end = any (λ (s, e). ltb start e && ltb s end) spans
