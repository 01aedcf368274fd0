-- ===== src/Redaction/Masking/Masked.antt =====
-- A scan for a plain value leaves it only where it is covered, and uncovers no other plain value.
use session_flow.Base.{
  ℕ, zero, suc, ◌≡◌, ◌⊎◌, refl, true, false, [], ◌∷◌, ◌++◌, length, arith, ◌==◌, nat_eq, Bool-cases,
  inl, inr,
}
use session_flow.Base.Texts.{Text, starts_with}
use session_flow.Redaction.Text.{tag}
use session_flow.Redaction.Mask.{placeholder, rule_or_fallback}
use session_flow.Redaction.Masking.Cover.{
  has_close, is_tagged, is_covered, is_plain, is_covered-next, has_close-append,
}
use session_flow.Redaction.Masking.Scan.{mask}
use session_flow.Redaction.Masking.Known.{
  Masked, is_plain_for, Knows, Knows-kept, Knows-dropped, covered_on, covered_by_tag, tag_after,
  scan, matches, scan-cases, others-plain, first-plain, placeholder-append,
}
use session_flow.Redaction.Masking.Copied.{has_close-scan, scan-copies, scan-plain}

-- Every place before the closing bracket of a tag is covered.
Masked-closed :
    (w u before s : Text)
    → has_close u ≡ false
    → is_tagged before (u ++ (b']' ∷ s)) ≡ true
    → ((after : Text) → Masked w after s)
    → Masked w before (u ++ (b']' ∷ s))
unfolding has_close is_covered is_tagged
Masked-closed w [] before s n t later = ((λ _. ground (arith, t)), later (b']' ∷ before))
Masked-closed w (c ∷ u) before s n t later = (
  (λ _. ground (arith, t, has_close-append u (b']' ∷ s))),
  Masked-closed w u (c ∷ before) s (ground (arith, n)) (ground (arith, t, n)) later,
)

tagged_here : (before s : Text) → starts_with tag s ≡ true → is_tagged before s ≡ true
unfolding is_tagged
tagged_here [] s h = h
tagged_here (c ∷ before) s h = ground (arith, h)

Masked-placeholder :
    (w rule before s : Text)
    → has_close (rule_or_fallback rule) ≡ false
    → ((after : Text) → Masked w after s)
    → Masked w before (placeholder rule ++ s)
unfolding has_close starts_with
Masked-placeholder w rule before s n later = rw placeholder-append (
    Masked-closed w (tag ++ rule_or_fallback rule) before s (ground (arith, n))
      (tagged_here before _ (ground arith)) later)

no_close_tag : has_close tag ≡ false
unfolding has_close
no_close_tag = ground arith

came_on :
    (before s : Text) (c : ℕ)
    → starts_with tag s ≡ false
    → is_covered (c ∷ before) s ≡ true
    → (is_covered before (c ∷ s) ≡ true) × ((c == b']') ≡ false)
came_on before s c f h = ground (arith, is_covered-next before s c, f, h)

module _ (first : ℕ) (others rule : Text) (plain : is_plain (first ∷ others) ≡ true)
    (named : has_close (rule_or_fallback rule) ≡ false) where
  abbrev run : Text → ℕ → ℕ → Text → Text
  run = scan first others rule

  -- Where the value stands in the text that is scanned.
  abbrev pub Source : Text → Text → Text → Type 0
  Source w before s = (w ≡ first ∷ others) ⊎ Masked w before s

  Source-next : (w before s : Text) (c : ℕ) → Source w before (c ∷ s) → Source w (c ∷ before) s
  Source-next w before s c (inl e) = inl e
  Source-next w before s c (inr m) = inr m.1

  Source-covered :
      (w before s : Text) (c : ℕ)
      → Source w before (c ∷ s)
      → matches first others rule c s ≡ false
      → starts_with w (c ∷ s) ≡ true
      → is_covered before (c ∷ s) ≡ true
  Source-covered w before s c (inl e) n h = absurd (cc (n, h, e))
  Source-covered w before s c (inr m) n h = m.0 h

  -- What is covered in the text is covered in the result, `out` before it.
  abbrev Ready : ℕ → ℕ → Text → Text → Text → Type 0
  Ready kept zero before out s =
      is_covered before s ≡ true → is_covered out (run before kept 0 s) ≡ true
  Ready kept (suc dropped) before out s = Unit {0}

  covered_by_copy :
      (before out s : Text) (kept : ℕ)
      → Knows kept 0 before s
      → is_covered before s ≡ true
      → has_close s ≡ true
      → starts_with tag s ≡ true
      → is_covered out (run before kept 0 s) ≡ true
  unfolding is_plain_for
  covered_by_copy before out s kept k h closes t =
      covered_by_tag out _ (has_close-scan first others rule plain before s kept 0 refl closes)
        (scan-copies first others rule plain tag before s kept k h (no_close_tag) t)

  Ready-next :
      (before out s : Text) (c kept : ℕ)
      → Knows kept 0 (c ∷ before) s
      → (is_covered before (c ∷ s) ≡ true → is_covered out (c ∷ run (c ∷ before) kept 0 s) ≡ true)
      → Ready kept 0 (c ∷ before) (c ∷ out) s
  unfolding is_covered
  Ready-next before out s c kept k h covered = elim (Bool-cases (starts_with tag s)) [
    | inl t ↦ covered_by_copy (c ∷ before) (c ∷ out) s kept k covered (ground (arith, covered)) t
    | inr f ↦
        let (e, n) = came_on before s c f covered in
        covered_on out (run (c ∷ before) kept 0 s) c (h e) n
  ]

  Ready-fresh :
      (before out s : Text) (c n : ℕ)
      → is_covered before (c ∷ s) ≡ false
      → Ready 0 n (c ∷ before) out s
  Ready-fresh before out s c zero f = λ h.
      let (closes, t) = tag_after before s c f h in
      covered_by_copy (c ∷ before) out s 0 tt h closes t
  Ready-fresh before out s c (suc n) f = tt

  scan-Masked :
      (w before out s : Text) (kept dropped : ℕ)
      → is_plain w ≡ true
      → Source w before s
      → Knows kept dropped before s
      → Ready kept dropped before out s
      → Masked w out (run before kept dropped s)
  unfolding is_plain_for mask
  scan-Masked w before out [] kept dropped p source k r = tt
  scan-Masked w before out (c ∷ s) zero (suc dropped) p source k r =
      scan-Masked w (c ∷ before) out s 0 dropped p (Source-next w before s c source)
        (Knows-dropped dropped before s c (ground (arith, k)) k.1)
        (Ready-fresh before out s c dropped k.1)
  scan-Masked w before out (c ∷ s) (suc kept) (suc dropped) p source k r = absurd k
  scan-Masked w before out (c ∷ s) (suc kept) zero p source k r =
      let known =
        Knows-kept kept (c ∷ before) s (ground (arith, k))
          (covered_on before s c k.1 (ground (arith, k))) in
      (
        (λ _. r k.1),
        scan-Masked w (c ∷ before) (c ∷ out) s kept 0 p (Source-next w before s c source) known
            (Ready-next before out s c kept known r),
      )
  scan-Masked w before out (c ∷ s) zero zero p source k r =
      scan-cases first others rule
        (λ o.
          (is_covered before (c ∷ s) ≡ true → is_covered out o ≡ true)
          → (starts_with w o ≡ true → starts_with w (c ∷ s) ≡ true)
          → Masked w out o)
        before s c
        (λ n ready origin. (
          (λ h. ready (Source-covered w before s c source n (origin h))),
          scan-Masked w (c ∷ before) (c ∷ out) s 0 0 p (Source-next w before s c source) tt
              (Ready-next before out s c 0 tt ready),
        ))
        (λ m h ready origin.
          let known =
            Knows-kept (length others) (c ∷ before) s (others-plain first others plain c s m)
              (covered_on before s c h (first-plain first others plain c s m).1) in
          (
            (λ _. ready h),
            scan-Masked w (c ∷ before) (c ∷ out) s (length others) 0 p
                (Source-next w before s c source) known
                (Ready-next before out s c (length others) known ready),
          ))
        (λ m f _ _. Masked-placeholder w rule out _ named (λ after.
          scan-Masked w (c ∷ before) after s 0 (length others) p (Source-next w before s c source)
            (Knows-dropped (length others) before s c (others-plain first others plain c s m) f)
            (Ready-fresh before after s c (length others) f)))
        r (scan-plain first others rule plain w before (c ∷ s) 0 p)

  start : (s : Text) → Ready 0 0 [] [] s
  unfolding is_covered is_tagged
  start s h = covered_by_copy [] [] s 0 tt h (ground (arith, h)) (ground (arith, h))

  pub whole_scan-Masked :
      (w s : Text)
      → is_plain w ≡ true
      → Source w [] s
      → Masked w [] (mask first others (placeholder rule) [] 0 0 s)
  whole_scan-Masked w s p source = scan-Masked w [] [] s 0 0 p source tt (start s)
