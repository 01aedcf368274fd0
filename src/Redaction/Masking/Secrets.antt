-- ===== src/Redaction/Masking/Secrets.antt =====
-- A redacted text has the found values in placeholders only.
use session_flow.Base.{
  ℕ, ◌≤◌, ◌≡◌, ◌≢◌, refl, sym, ap, ◌∙◌, Bool, true, false, ◌||◌, List, [], ◌∷◌, ◌++◌, length, keep,
  keep-append, keep-cons_true, any, All, All-map, All-zip, All-append_right, arith, ◌==◌, nat_eq,
  ltb, Bool-cases, Option-cases, inl, inr,
}
use mathlib.Core.List.{append_assoc}
use mathlib.Core.Path.{subst}
use session_flow.Base.Dict
use session_flow.Base.Dict.{Dict, lookup-All, insert-All}
use session_flow.Base.Texts.{Text, text_eq}
use session_flow.Redaction.Text.{is_inside, placeholder_spans}
use session_flow.Redaction.Mask.{
  Candidate, Entry, Exemptions, is_exempt, merged, aggregate, mask_tiers, enforce, redact_found,
}
use session_flow.Redaction.Detect.{Detectors}
use session_flow.Redaction.Collect.{collect_candidates, exemptions, redact}
use session_flow.Redaction.Masking.Cover.{is_plain, starts_with-append}
use session_flow.Redaction.Masking.Found.{covered_at, is_inside-placeholder_spans}
use session_flow.Redaction.Masking.Known.{Masked}
use session_flow.Redaction.Masking.Merged.{Described, counts_for, aggregate-Described}
use session_flow.Redaction.Masking.Redacted.{IsMaskable, IsGone, is_masked, mask_tiers-IsGone}
use session_flow.Redaction.Masking.Sources.{IsOfTier, collect_candidates-IsOfTier}

-- Every place where the value stands lies in a placeholder.
abbrev pub IsOnlyInside : Text → Text → Type 0
IsOnlyInside value out =
    (before after : Text)
    → out ≡ before ++ (value ++ after)
    → is_inside (placeholder_spans out) (length before) ≡ true

-- A candidate that `enforce` masks: of the first two tiers, or forced.
abbrev pub is_certain : Candidate → Bool
is_certain c = (c.tier == 1) || ((c.tier == 2) || c.force)

Masked-covered_at :
    (c : ℕ) (value before x after : Text)
    → Masked (c ∷ value) before (x ++ ((c ∷ value) ++ after))
    → covered_at before (x ++ ((c ∷ value) ++ after)) (length x) ≡ true
unfolding covered_at
Masked-covered_at c value before [] after m = m.0 (starts_with-append (c ∷ value) after)
Masked-covered_at c value before (d ∷ x) after m =
    Masked-covered_at c value (d ∷ before) x after m.1

IsGone-IsOnlyInside : (value out : Text) → value ≢ [] → IsGone value out → IsOnlyInside value out
IsGone-IsOnlyInside [] out n m before after e = absurd (n refl)
IsGone-IsOnlyInside (c ∷ value) out n m before after e =
    is_inside-placeholder_spans out (length before)
    ∙ rw e (Masked-covered_at c value [] before after (rw e at m))

-- What is known of a candidate and of an entry.
abbrev IsSound : Candidate → Type 0
IsSound c = (is_plain c.value ≡ true) × IsOfTier c

abbrev IsSoundEntry : Text × Entry → Type 0
IsSoundEntry (value, e) = IsMaskable value e.rule × (1 ≤ e.tier)

merged-IsSoundEntry :
    (agg : Dict Text Entry) (c : Candidate)
    → All IsSoundEntry agg
    → IsSound c
    → IsSoundEntry (c.value, merged (Dict.lookup c.value agg) c)
unfolding merged
merged-IsSoundEntry agg c h s = elim (Option-cases (Dict.lookup c.value agg)) [
  | inl n ↦ rw n ((s.0, s.1.2), s.1.0)
  | inr (e, f) ↦
      let known = lookup-All IsSoundEntry c.value e agg h f in
      rw f (elim (Bool-cases (ltb c.tier e.tier)) [
        | inl l ↦ rw l ((s.0, s.1.2), s.1.0)
        | inr l ↦ rw l known
      ])
]

aggregate-IsSoundEntry :
    (x : Exemptions) (cands : List Candidate) (agg : Dict Text Entry)
    → All IsSound cands
    → All IsSoundEntry agg
    → All IsSoundEntry (aggregate x cands agg)
unfolding aggregate
aggregate-IsSoundEntry x [] agg s h = h
aggregate-IsSoundEntry x (c ∷ cands) agg s h = elim (Bool-cases (is_exempt x c)) [
  | inl e ↦ rw e (aggregate-IsSoundEntry x cands agg s.1 h)
  | inr e ↦ rw e (
      aggregate-IsSoundEntry x cands _ s.1
        (insert-All IsSoundEntry c.value _ agg (merged-IsSoundEntry agg c h s.0) h))
]

any-middle :
    (u : List Candidate) (c : Candidate) (v : List Candidate)
    → c.force ≡ true
    → any (λ d. d.force) (u ++ c ∷ v) ≡ true
any-middle [] c v h = ground (arith, h)
any-middle (d ∷ u) c v h = ground (arith, any-middle u c v h)

-- The entry that a certain candidate counts for is masked.
is_masked-certain :
    (c : Candidate) (e : Entry)
    → is_certain c ≡ true
    → 1 ≤ e.tier
    → e.tier ≤ c.tier
    → c.tier ≤ 3
    → (c.force ≡ true → e.force ≡ true)
    → is_masked e ≡ true
is_masked-certain c e certain positive lower three forced = elim (Bool-cases c.force) [
  | inl t ↦ ground (arith, forced t)
  | inr f ↦ ground (arith, certain, f)
]

cons-ne-nil : {A : Type 0} (u : List A) (c : A) (v : List A) → u ++ c ∷ v ≢ []
cons-ne-nil [] c v e = cc e
cons-ne-nil (d ∷ u) c v e = cc e

module _ (x : Exemptions) (text : Text) where
  candidate-IsGone :
      (before : List Candidate) (c : Candidate) (after : List Candidate)
      → All IsSound (before ++ c ∷ after)
      → is_exempt x c ≡ false
      → is_certain c ≡ true
      → IsGone c.value (mask_tiers (aggregate x (before ++ c ∷ after) []) text)
  candidate-IsGone before c after sound counts certain =
      let agg = aggregate x (before ++ c ∷ after) [] in
      let mine = keep (counts_for x c.value) in
      let split : mine (before ++ c ∷ after) ≡ mine before ++ c ∷ mine after =
        keep-append (counts_for x c.value) before (c ∷ after)
        ∙ ap (λ l. mine before ++ l)
            (keep-cons_true (counts_for x c.value) c after (ground (arith, counts))) in
      let described : Described (mine before ++ c ∷ mine after) (Dict.lookup c.value agg) =
        subst (λ l. Described l (Dict.lookup c.value agg)) split
          (aggregate-Described x (before ++ c ∷ after) c.value) in
      let sound_agg = aggregate-IsSoundEntry x (before ++ c ∷ after) [] sound tt in
      elim (Option-cases (Dict.lookup c.value agg)) [
        | inl n ↦ absurd (
            cons-ne-nil (mine before) c (mine after)
              (subst (Described (mine before ++ c ∷ mine after)) n described))
        | inr (e, f) ↦
            let (forced, lowest, _) =
              subst (Described (mine before ++ c ∷ mine after)) f described in
            let own = (All-append_right _ before (c ∷ after) sound).0 in
            let known = lookup-All IsSoundEntry c.value e agg sound_agg f in
            lookup-All (λ (value, e). is_masked e ≡ true → IsGone value (mask_tiers agg text))
              c.value e agg
              (mask_tiers-IsGone agg text (All-map (λ (value, e) k. k.0) agg sound_agg)) f
              (is_masked-certain c e certain known.1
                (All-append_right _ (mine before) (c ∷ mine after) lowest).0 own.1.1
                (λ t. forced ∙ any-middle (mine before) c (mine after) t))
      ]

  -- What `enforce` does to one candidate of a list.
  abbrev pub IsHidden : List Candidate → Candidate → Type 0
  IsHidden candidates c =
      is_exempt x c ≡ false
      → is_certain c ≡ true
      → c.value ≢ []
      → IsOnlyInside c.value (redact_found x candidates enforce text).0

  found-IsHidden :
      (before after : List Candidate)
      → All IsSound (before ++ after)
      → All (IsHidden (before ++ after)) after
  unfolding redact_found
  found-IsHidden before [] sound = tt
  found-IsHidden before (c ∷ after) sound = (
    (λ counts certain some_text.
        IsGone-IsOnlyInside c.value _ some_text
          (candidate-IsGone before c after sound counts certain)),
    subst (λ l. All (IsHidden l) after) (append_assoc before (c ∷ []) after)
        (found-IsHidden (before ++ c ∷ []) after
          (subst (All IsSound) (sym (append_assoc before (c ∷ []) after)) sound)),
  )

  pub redact_found-IsHidden :
      (candidates : List Candidate) → All IsSound candidates → All (IsHidden candidates) candidates
  redact_found-IsHidden candidates sound = found-IsHidden [] candidates sound

-- If no value that is found has a bracket, then of all that is found in a text and is not
-- allowlisted, what is of the first two tiers or forced stands in the redacted text only within
-- `[REDACTED:...]` placeholders.
pub redact-IsOnlyInside :
    (d : Detectors) (allowlist : List (Text → Bool)) (text : Text)
    → All (λ (c : Candidate). is_plain c.value ≡ true) (collect_candidates d text)
    → All
        (λ (c : Candidate).
          is_exempt (exemptions d allowlist) c ≡ false
          → is_certain c ≡ true
          → c.value ≢ []
          → IsOnlyInside c.value (redact d allowlist enforce text).0)
        (collect_candidates d text)
unfolding redact
redact-IsOnlyInside d allowlist text plain =
    redact_found-IsHidden (exemptions d allowlist) text (collect_candidates d text) (
      All-zip (λ c h k. (h, k)) (collect_candidates d text) plain
        (collect_candidates-IsOfTier d text))
