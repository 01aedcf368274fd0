-- ===== src/Redaction/Masking/Known.antt =====
-- The steps of a scan for one value, and what it knows where it has decided on the next characters.
use mathlib.Core.List.{append_assoc}
use session_flow.Base.{
  ℕ, zero, suc, ◌≡◌, refl, ap, Bool, true, false, not, ◌&&◌, [], ◌∷◌, ◌++◌, length, arith, ◌==◌,
  nat_eq, Bool-cases, inl, inr,
}
use session_flow.Base.Texts.{Text, starts_with}
use session_flow.Redaction.Text.{tag}
use session_flow.Redaction.Mask.{placeholder, rule_or_fallback}
use session_flow.Redaction.Masking.Cover.{
  has_close, is_tagged, is_covered, is_plain, is_covered-next, starts_with-cons, tag-opens,
}
use session_flow.Redaction.Masking.Scan.{mask, mask_with}

-- Wherever the value stands in the rest of a text, its start is covered.
abbrev pub Masked : Text → Text → Text → Type 0
Masked value before [] = Unit
Masked value before (c ∷ s) =
    (starts_with value (c ∷ s) ≡ true → is_covered before (c ∷ s) ≡ true)
    × Masked value (c ∷ before) s

-- So many characters come, and none of them is a bracket.
unfoldable pub is_plain_for : ℕ → Text → Bool
is_plain_for zero s = true
is_plain_for (suc n) [] = false
is_plain_for (suc n) (c ∷ s) = (not (c == b'[') && not (c == b']')) && is_plain_for n s

pub is_plain_for-length :
    (p s : Text) → is_plain p ≡ true → starts_with p s ≡ true → is_plain_for (length p) s ≡ true
unfolding is_plain is_plain_for starts_with
is_plain_for-length [] s h k = refl
is_plain_for-length (c ∷ p) [] h k = cc k
is_plain_for-length (c ∷ p) (d ∷ s) h k = ground (arith, is_plain_for-length p s, h, k)

-- A position after a covered one that is no closing bracket is covered.
pub covered_on :
    (before s : Text) (c : ℕ)
    → is_covered before (c ∷ s) ≡ true
    → (c == b']') ≡ false
    → is_covered (c ∷ before) s ≡ true
covered_on before s c h n = ground (arith, is_covered-next before s c, h, n)

pub covered_by_tag :
    (before s : Text) → has_close s ≡ true → starts_with tag s ≡ true → is_covered before s ≡ true
unfolding is_covered is_tagged
covered_by_tag [] s h t = ground (arith, h, t)
covered_by_tag (c ∷ before) s h t = ground (arith, h, t)

-- What the scan knows where it keeps or drops characters that it has decided on.
abbrev pub Knows : ℕ → ℕ → Text → Text → Type 0
Knows zero zero before s = Unit {0}
Knows (suc kept) zero before s = (is_plain_for (suc kept) s ≡ true) × (is_covered before s ≡ true)
Knows zero (suc dropped) before s =
    (is_plain_for (suc dropped) s ≡ true) × (is_covered before s ≡ false)
Knows (suc kept) (suc dropped) before s = ⊥

pub Knows-kept :
    (n : ℕ) (before s : Text)
    → is_plain_for n s ≡ true
    → is_covered before s ≡ true
    → Knows n 0 before s
Knows-kept zero before s h k = tt
Knows-kept (suc n) before s h k = (h, k)

-- A dropped character is not covered, and the next one is only if a tag starts there.
pub Knows-dropped :
    (n : ℕ) (before s : Text) (c : ℕ)
    → is_plain_for n s ≡ true
    → is_covered before (c ∷ s) ≡ false
    → Knows 0 n (c ∷ before) s
unfolding is_plain_for
Knows-dropped zero before s c h k = tt
Knows-dropped (suc n) before [] c h k = cc h
Knows-dropped (suc n) before (d ∷ s) c h k =
    (h, ground (arith, h, k, is_covered-next before (d ∷ s) c, tag-opens d s))

-- Where the value stands at a character that is not covered, the next one is only if a tag starts there.
pub tag_after :
    (before s : Text) (c : ℕ)
    → is_covered before (c ∷ s) ≡ false
    → is_covered (c ∷ before) s ≡ true
    → (has_close s ≡ true) × (starts_with tag s ≡ true)
tag_after before s c h k = ground (arith, is_covered-next before s c, h, k)

pub placeholder-append :
    (rule s : Text) → placeholder rule ++ s ≡ (tag ++ rule_or_fallback rule) ++ (b']' ∷ s)
unfolding placeholder
placeholder-append rule s = ap (λ t. tag ++ t) (append_assoc (rule_or_fallback rule) (b']' ∷ []) s)

-- A scan for `first ∷ others` that puts a placeholder in.
module _ (first : ℕ) (others rule : Text) where
  abbrev pub scan : Text → ℕ → ℕ → Text → Text
  scan = mask first others (placeholder rule)

  abbrev pub matches : ℕ → Text → Bool
  matches c s = starts_with (first ∷ others) (c ∷ s)

  -- The three ways on from a position: no value, one that is covered, one that is not.
  pub scan-cases :
      (P : Text → Type 0) (before s : Text) (c : ℕ)
      → (matches c s ≡ false → P (c ∷ scan (c ∷ before) 0 0 s))
      → (matches c s ≡ true
          → is_covered before (c ∷ s) ≡ true
          → P (c ∷ scan (c ∷ before) (length others) 0 s))
      → (matches c s ≡ true
          → is_covered before (c ∷ s) ≡ false
          → P (placeholder rule ++ scan (c ∷ before) 0 (length others) s))
      → P (scan before 0 0 (c ∷ s))
  unfolding mask mask_with
  scan-cases P before s c other covered uncovered = elim (Bool-cases (matches c s)) [
    | inr n ↦ rw n (other n)
    | inl m ↦ elim (Bool-cases (is_covered before (c ∷ s))) [
      | inl h ↦ rw (m, h) (covered m h)
      | inr h ↦ rw (m, h) (uncovered m h)
    ]
  ]

module _ (first : ℕ) (others : Text) (plain : is_plain (first ∷ others) ≡ true) where
  pub others-plain :
      (c : ℕ) (s : Text)
      → starts_with (first ∷ others) (c ∷ s) ≡ true
      → is_plain_for (length others) s ≡ true
  unfolding is_plain
  others-plain c s h =
      is_plain_for-length others s (ground (arith, plain)) (starts_with-cons first others c s h).1

  pub first-plain :
      (c : ℕ) (s : Text)
      → starts_with (first ∷ others) (c ∷ s) ≡ true
      → ((c == b'[') ≡ false) × ((c == b']') ≡ false)
  unfolding is_plain
  first-plain c s h = ground (arith, plain, starts_with-cons first others c s h)
