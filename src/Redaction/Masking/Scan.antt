-- ===== src/Redaction/Masking/Scan.antt =====
-- The replacement as one scan: the loop that finds the value again and again goes over the text
-- character by character, and decides at each occurrence whether it is covered.
use native.Mathlib.Nat.{zero-add, suc-add}
use session_flow.Base.{
  ℕ, zero, suc, ◌+◌, ◌<◌, ◌≡◌, refl, ap, sym, ◌∙◌, Bool, true, false, none, some, List, [], ◌∷◌,
  ◌++◌, length, length-drop, drop, take, arith, nat_eq, Bool-cases, Option-cases, inl, inr,
  if◌then◌else◌,
}
use session_flow.Base.Texts.{Text, find_text, starts_with}
use session_flow.Redaction.Text.{is_inside, placeholder_spans}
use session_flow.Redaction.Mask.{replace_loop, replace_outside_placeholders}
use session_flow.Redaction.Masking.Cover.{is_covered, starts_with-cons}
use session_flow.Redaction.Masking.Found.{covered_at, is_inside-placeholder_spans}

-- What stands before the position so many characters on.
unfoldable pub behind : ℕ → Text → Text → Text
behind zero before s = before
behind (suc n) before [] = before
behind (suc n) before (c ∷ s) = behind n (c ∷ before) s

covered_at-nil : (before : Text) (j : ℕ) → covered_at before [] j ≡ false
unfolding covered_at is_covered
covered_at-nil before zero = refl
covered_at-nil before (suc j) = refl

covered_at-behind :
    (n : ℕ) (before s : Text) (j : ℕ)
    → covered_at (behind n before s) (drop n s) j ≡ covered_at before s (n + j)
unfolding behind covered_at
covered_at-behind zero before s j = rw zero-add refl
covered_at-behind (suc n) before [] j = rw suc-add (covered_at-nil before j)
covered_at-behind (suc n) before (c ∷ s) j = rw suc-add (covered_at-behind n (c ∷ before) s j)

-- The value is `first ∷ others`.
module _ (first : ℕ) (others replacement : Text) where
  unfoldable pub mask_with : Bool → Bool → ℕ → (ℕ → ℕ → Text) → Text
  mask_with false covered c rest = c ∷ rest 0 0
  mask_with true true c rest = c ∷ rest (length others) 0
  mask_with true false c rest = replacement ++ rest 0 (length others)

  -- The rest of a text, of which so many characters are kept and so many dropped first.
  unfoldable pub mask : Text → ℕ → ℕ → Text → Text
  unfolding mask_with
  mask before kept dropped [] = []
  mask before kept (suc dropped) (c ∷ s) = mask (c ∷ before) kept dropped s
  mask before (suc kept) zero (c ∷ s) = c ∷ mask (c ∷ before) kept 0 s
  mask before zero zero (c ∷ s) =
      mask_with (starts_with (first ∷ others) (c ∷ s)) (is_covered before (c ∷ s)) c
        (λ kept dropped. mask (c ∷ before) kept dropped s)

  mask-dropped :
      (n : ℕ) (before s : Text) → mask before 0 n s ≡ mask (behind n before s) 0 0 (drop n s)
  unfolding mask behind
  mask-dropped zero before s = refl
  mask-dropped (suc n) before [] = refl
  mask-dropped (suc n) before (c ∷ s) = mask-dropped n (c ∷ before) s

  mask-kept :
      (p before s : Text)
      → starts_with p s ≡ true
      → mask before (length p) 0 s ≡ p ++ mask (behind (length p) before s) 0 0 (drop (length p) s)
  unfolding mask behind starts_with
  mask-kept [] before s h = refl
  mask-kept (c ∷ p) before [] h = cc h
  mask-kept (c ∷ p) before (d ∷ s) h = ground (arith, mask-kept p (d ∷ before) s, h)

  mask-here :
      (before : Text) (c : ℕ) (s : Text)
      → starts_with (first ∷ others) (c ∷ s) ≡ true
      → mask before 0 0 (c ∷ s)
        ≡ (if is_covered before (c ∷ s) then (first ∷ others) else replacement)
          ++ mask (behind (length others) (c ∷ before) s) 0 0 (drop (length others) s)
  unfolding mask mask_with
  mask-here before c s h = elim (Bool-cases (is_covered before (c ∷ s))) [
    | inl t ↦
        rw (h, t)
          (let (e, p) = starts_with-cons first others c s h in
            cc (e, mask-kept others (c ∷ before) s p))
    | inr f ↦ rw (h, f) (ap (λ u. replacement ++ u) (mask-dropped (length others) (c ∷ before) s))
  ]

  mask-none : (before s : Text) → find_text (first ∷ others) s ≡ none → mask before 0 0 s ≡ s
  unfolding mask mask_with find_text
  mask-none before [] h = refl
  mask-none before (c ∷ s) h = elim (Bool-cases (starts_with (first ∷ others) (c ∷ s))) [
    | inl t ↦ absurd (ground (arith, h, t))
    | inr f ↦ rw f (
        ap (λ u. c ∷ u)
          (mask-none (c ∷ before) s
            (ground (arith, h, f, Option-cases (find_text (first ∷ others) s)))))
  ]

  mask-there :
      (before : Text) (c : ℕ) (s : Text)
      → starts_with (first ∷ others) (c ∷ s) ≡ false
      → mask before 0 0 (c ∷ s) ≡ c ∷ mask (c ∷ before) 0 0 s
  unfolding mask mask_with
  mask-there before c s f = rw f

  find_text-later :
      (c : ℕ) (s : Text) (k : ℕ)
      → starts_with (first ∷ others) (c ∷ s) ≡ false
      → find_text (first ∷ others) (c ∷ s) ≡ some k
      → (j : ℕ) × (k ≡ suc j) × (find_text (first ∷ others) s ≡ some j)
  unfolding find_text
  find_text-later c s k f h = elim (Option-cases (find_text (first ∷ others) s)) [
    | inl n ↦ absurd (ground (arith, h, f, n))
    | inr (j, e) ↦ (j, ground (arith, h, f, e), e)
  ]

  mask-some :
      (before s : Text) (k : ℕ)
      → find_text (first ∷ others) s ≡ some k
      → mask before 0 0 s
        ≡ take k s
          ++ ((if covered_at before s k then (first ∷ others) else replacement)
              ++ mask
                  (behind (k + length (first ∷ others)) before s)
                  0
                  0
                  (drop (k + length (first ∷ others)) s))
  unfolding behind find_text covered_at
  mask-some before [] k h = absurd (ground (arith, h))
  mask-some before (c ∷ s) k h = elim (Bool-cases (starts_with (first ∷ others) (c ∷ s))) [
    | inl t ↦ let z : k ≡ 0 = ground (arith, h, t) in rw (z, zero-add) (mask-here before c s t)
    | inr f ↦
        let (j, kj, e) = find_text-later c s k f h in
        rw (kj, suc-add) (mask-there before c s f ∙ ap (λ u. c ∷ u) (mask-some (c ∷ before) s j e))
  ]

  find_text-pos : (s : Text) (k : ℕ) → find_text (first ∷ others) s ≡ some k → 0 < length s
  unfolding find_text starts_with
  find_text-pos [] k h = absurd (ground (arith, h))
  find_text-pos (c ∷ s) k h = omega arith

  replace_loop-mask :
      (fuel : ℕ) (protected : List (ℕ × ℕ)) (cursor : ℕ) (before s : Text)
      → ((j : ℕ) → is_inside protected (cursor + j) ≡ covered_at before s j)
      → length s < fuel
      → replace_loop fuel protected (first ∷ others) replacement cursor s ≡ mask before 0 0 s
  unfolding replace_loop
  replace_loop-mask zero protected cursor before s h le = elim le [ ]
  replace_loop-mask (suc fuel) protected cursor before s h le =
      elim (Option-cases (find_text (first ∷ others) s)) [
        | inl n ↦ rw (n, replace_loop) (sym (mask-none before s n))
        | inr (k, e) ↦
            rw (e, replace_loop)
              (rw (h k) (
                ap
                  (λ u.
                    take k s
                    ++ ((if covered_at before s k then (first ∷ others) else replacement) ++ u))
                  (replace_loop-mask fuel protected (cursor + k + length (first ∷ others))
                    (behind (k + length (first ∷ others)) before s)
                    (drop (k + length (first ∷ others)) s)
                    (λ j.
                      let same : cursor + k + length (first ∷ others) + j
                          ≡ cursor + (k + length (first ∷ others) + j) =
                        omega arith in
                      rw same (
                        h (k + length (first ∷ others) + j)
                        ∙ sym (covered_at-behind (k + length (first ∷ others)) before s j)))
                    (omega
                      (arith, length-drop (k + length (first ∷ others)) s, find_text-pos s k e)))
                ∙ sym (mask-some before s k e)))
      ]

  pub replace_outside_placeholders-mask :
      (s : Text) → replace_outside_placeholders s (first ∷ others) replacement ≡ mask [] 0 0 s
  unfolding replace_outside_placeholders
  replace_outside_placeholders-mask s =
      replace_loop-mask (suc (length s)) (placeholder_spans s) 0 [] s
        (λ j. rw zero-add (is_inside-placeholder_spans s j)) (omega arith)
