-- ===== src/Redaction/Masking/Copied.antt =====
-- A scan for a plain value copies what is covered, keeps a closing bracket, and brings in no plain text
-- that was not there.
use session_flow.Base.{ℕ, zero, suc, ◌≡◌, refl, true, false, [], ◌∷◌, ◌++◌, length, arith, nat_eq}
use session_flow.Base.Texts.{Text, starts_with}
use session_flow.Redaction.Text.{tag}
use session_flow.Redaction.Mask.{placeholder, rule_or_fallback}
use session_flow.Redaction.Masking.Cover.{
  has_close, is_covered, is_plain, starts_with-cons, has_close-append,
}
use session_flow.Redaction.Masking.Scan.{mask}
use session_flow.Redaction.Masking.Known.{
  is_plain_for, Knows, Knows-kept, covered_on, scan, placeholder-append, scan-cases, others-plain,
}

has_close-placeholder : (rule s : Text) → has_close (placeholder rule ++ s) ≡ true
unfolding has_close
has_close-placeholder rule s =
    rw placeholder-append
      (has_close-append (tag ++ rule_or_fallback rule) (b']' ∷ s) (ground arith))

module _ (first : ℕ) (others rule : Text) (plain : is_plain (first ∷ others) ≡ true) where
  pub has_close-scan :
      (before s : Text) (kept dropped : ℕ)
      → is_plain_for dropped s ≡ true
      → has_close s ≡ true
      → has_close (scan first others rule before kept dropped s) ≡ true
  unfolding mask has_close is_plain_for
  has_close-scan before [] kept dropped p h = h
  has_close-scan before (c ∷ s) kept (suc dropped) p h =
      has_close-scan (c ∷ before) s kept dropped (ground (arith, p)) (ground (arith, p, h))
  has_close-scan before (c ∷ s) (suc kept) zero p h =
      ground (arith, h, has_close-scan (c ∷ before) s kept 0 refl)
  has_close-scan before (c ∷ s) zero zero p h =
      scan-cases first others rule (λ o. has_close o ≡ true) before s c
        (λ _. ground (arith, h, has_close-scan (c ∷ before) s 0 0 refl))
        (λ _ _. ground (arith, h, has_close-scan (c ∷ before) s (length others) 0 refl))
        (λ _ _. has_close-placeholder rule _)

  pub scan-copies :
      (u before s : Text) (kept : ℕ)
      → Knows kept 0 before s
      → is_covered before s ≡ true
      → has_close u ≡ false
      → starts_with u s ≡ true
      → starts_with u (scan first others rule before kept 0 s) ≡ true
  unfolding starts_with mask has_close is_plain_for
  scan-copies [] before s kept k h n t = refl
  scan-copies (d ∷ u) before [] kept k h n t = absurd (ground (arith, t))
  scan-copies (d ∷ u) before (c ∷ s) (suc kept) k h n t =
      let (e, more) = starts_with-cons d u c s t in
      let next = covered_on before s c h (ground (arith, n, e)) in
      ground (
        arith,
        e,
        scan-copies u (c ∷ before) s kept (Knows-kept kept (c ∷ before) s (ground (arith, k)) next)
            next (ground (arith, n)) more,
      )
  scan-copies (d ∷ u) before (c ∷ s) zero k h n t =
      let (e, more) = starts_with-cons d u c s t in
      let next = covered_on before s c h (ground (arith, n, e)) in
      scan-cases first others rule (λ o. starts_with (d ∷ u) o ≡ true) before s c
        (λ _. ground (arith, e, scan-copies u (c ∷ before) s 0 tt next (ground (arith, n)) more))
        (λ m _. ground (
          arith,
          e,
          scan-copies u (c ∷ before) s (length others)
              (Knows-kept (length others) (c ∷ before) s (others-plain first others plain c s m)
                next)
              next (ground (arith, n)) more,
        ))
        (λ _ f. cc (h, f))

  pub scan-plain :
      (u before s : Text) (kept : ℕ)
      → is_plain u ≡ true
      → starts_with u (scan first others rule before kept 0 s) ≡ true
      → starts_with u s ≡ true
  unfolding mask starts_with is_plain placeholder
  scan-plain [] before s kept p t = refl
  scan-plain (d ∷ u) before [] kept p t = t
  scan-plain (d ∷ u) before (c ∷ s) (suc kept) p t =
      ground (arith, p, t, scan-plain u (c ∷ before) s kept)
  scan-plain (d ∷ u) before (c ∷ s) zero p t =
      scan-cases first others rule
        (λ o. starts_with (d ∷ u) o ≡ true → starts_with (d ∷ u) (c ∷ s) ≡ true) before s c
        (λ _ t'. ground (arith, p, t', scan-plain u (c ∷ before) s 0))
        (λ _ _ t'. ground (arith, p, t', scan-plain u (c ∷ before) s (length others)))
        (λ _ _ t'. absurd (ground (arith, p, t'))) t
