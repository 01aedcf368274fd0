-- ===== src/Redaction/Masking/Redacted.antt =====
-- `redact` masks the values that it finds.
use session_flow.Base.{
  ℕ, ◌≡◌, refl, Bool, true, false, ◌&&◌, ◌||◌, List, [], ◌∷◌, All, All-zip, arith, ◌==◌, nat_eq,
  Bool-cases, inl, inr,
}
use session_flow.Base.Dict.{Dict}
use session_flow.Base.Texts.{Text, text_eq}
use session_flow.Redaction.Mask.{
  Entry, placeholder, rule_or_fallback, replace_outside_placeholders, is_of_tier, tier_items,
  mask_items, mask_tiers,
}
use session_flow.Redaction.Masking.Cover.{has_close, is_plain}
use session_flow.Redaction.Masking.Scan.{replace_outside_placeholders-mask}
use session_flow.Redaction.Masking.Known.{Masked}
use session_flow.Redaction.Masking.Tiers.{All-tier_items, tier_items-All}
use session_flow.Redaction.Masking.Masked.{whole_scan-Masked}

-- A value with no bracket in it, and a rule whose name has no closing one.
abbrev pub IsMaskable : Text → Text → Type 0
IsMaskable value rule = (is_plain value ≡ true) × (has_close (rule_or_fallback rule) ≡ false)

-- A value with a character stands only in placeholders.
abbrev pub IsGone : Text → Text → Type 0
IsGone [] out = Unit {0}
IsGone (c ∷ value) out = Masked (c ∷ value) [] out

replaced-Masked :
    (value rule s : Text)
    → IsMaskable value rule
    → IsGone value (replace_outside_placeholders s value (placeholder rule))
replaced-Masked [] rule s m = tt
replaced-Masked (c ∷ value) rule s (p, n) =
    rw replace_outside_placeholders-mask
      (whole_scan-Masked c value rule p n (c ∷ value) s p (inl refl))

replaced-keeps :
    (w value rule s : Text)
    → is_plain w ≡ true
    → Masked w [] s
    → IsMaskable value rule
    → Masked w [] (replace_outside_placeholders s value (placeholder rule))
unfolding replace_outside_placeholders
replaced-keeps w [] rule s h m k = m
replaced-keeps w (c ∷ value) rule s h m (p, n) =
    rw replace_outside_placeholders-mask (whole_scan-Masked c value rule p n w s h (inr m))

abbrev IsMaskableItem : Text × Text → Type 0
IsMaskableItem (value, rule) = IsMaskable value rule

mask_items-keeps :
    (w : Text) (items : List (Text × Text)) (out : Text)
    → is_plain w ≡ true
    → Masked w [] out
    → All IsMaskableItem items
    → Masked w [] (mask_items items out)
unfolding mask_items
mask_items-keeps w [] out p m h = m
mask_items-keeps w ((value, rule) ∷ items) out p m (k, h) =
    mask_items-keeps w items _ p (replaced-keeps w value rule out p m k) h

IsGone-mask_items :
    (w : Text) (items : List (Text × Text)) (out : Text)
    → is_plain w ≡ true
    → IsGone w out
    → All IsMaskableItem items
    → IsGone w (mask_items items out)
IsGone-mask_items [] items out p m h = tt
IsGone-mask_items (c ∷ w) items out p m h = mask_items-keeps (c ∷ w) items out p m h

mask_items-IsGone :
    (items : List (Text × Text)) (out : Text)
    → All IsMaskableItem items
    → All (λ (value, rule). IsGone value (mask_items items out)) items
unfolding mask_items
mask_items-IsGone [] out h = tt
mask_items-IsGone ((value, rule) ∷ items) out (k, h) =
    let next = replace_outside_placeholders out value (placeholder rule) in
    (
      IsGone-mask_items value items next k.0 (replaced-Masked value rule out k) h,
      mask_items-IsGone items next h,
    )

-- Entries whose values the masking of the tiers takes away.
abbrev pub is_masked : Entry → Bool
is_masked e = (e.tier == 1) || ((e.tier == 2) || ((e.tier == 3) && e.force))

abbrev IsMaskableEntry : Text × Entry → Type 0
IsMaskableEntry (value, e) = IsMaskable value e.rule

abbrev GoneOfTier : ℕ → Text → Text × Entry → Type 0
GoneOfTier target out (value, e) = is_of_tier target (value, e) ≡ true → IsGone value out

-- The masking of a tier, and what it leaves of those before.
mask_tier-IsGone :
    (target : ℕ) (agg : Dict Text Entry) (out : Text)
    → All IsMaskableEntry agg
    → All (GoneOfTier target (mask_items (tier_items target agg) out)) agg
mask_tier-IsGone target agg out h =
    let items = All-tier_items IsMaskableItem target agg h in
    tier_items-All (λ (value, _). IsGone value (mask_items (tier_items target agg) out)) target agg
      (mask_items-IsGone (tier_items target agg) out items)

mask_tier-keeps :
    (earlier target : ℕ) (agg : Dict Text Entry) (out : Text)
    → All IsMaskableEntry agg
    → All (GoneOfTier earlier out) agg
    → All (GoneOfTier earlier (mask_items (tier_items target agg) out)) agg
mask_tier-keeps earlier target agg out h gone =
    let items = All-tier_items IsMaskableItem target agg h in
    All-zip
      (λ (value, e) k m of_tier.
        IsGone-mask_items value (tier_items target agg) out k.0 (m of_tier) items)
      agg h gone

by_tier :
    (out : Text) (x : Text × Entry)
    → GoneOfTier 1 out x
    → GoneOfTier 2 out x × GoneOfTier 3 out x
    → is_masked x.1 ≡ true
    → IsGone x.0 out
by_tier out (value, e) one (two, three) h = elim (Bool-cases (e.tier == 1)) [
  | inl t ↦ one (ground (arith, t))
  | inr t ↦ elim (Bool-cases (e.tier == 2)) [
    | inl u ↦ two (ground (arith, u))
    | inr u ↦ three (ground (arith, h, t, u))
  ]
]

pub mask_tiers-IsGone :
    (agg : Dict Text Entry) (text : Text)
    → All IsMaskableEntry agg
    → All (λ (value, e). is_masked e ≡ true → IsGone value (mask_tiers agg text)) agg
unfolding mask_tiers
mask_tiers-IsGone agg text h =
    let one = mask_items (tier_items 1 agg) text in
    let two = mask_items (tier_items 2 agg) one in
    All-zip (λ x. by_tier _ x) agg
      (mask_tier-keeps 1 3 agg two h
        (mask_tier-keeps 1 2 agg one h (mask_tier-IsGone 1 agg text h)))
      (All-zip (λ x m n. (m, n)) agg (mask_tier-keeps 2 3 agg two h (mask_tier-IsGone 2 agg one h))
        (mask_tier-IsGone 3 agg two h))
