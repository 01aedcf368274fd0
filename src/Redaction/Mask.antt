-- ===== src/Redaction/Mask.antt =====
-- `_aggregate_maskable_candidates`, `_replace_outside_placeholders` and `redact`.
use session_flow.Base.{
  ℕ, zero, suc, ◌+◌, Bool, ◌&&◌, ◌||◌, Option, none, some, List, [], ◌∷◌, ◌++◌, map, length, take,
  drop, keep, ltb, ◌==◌, nat_eq, if◌then◌else◌,
}
use session_flow.Base.Dict
use session_flow.Base.Dict.{Dict}
use session_flow.Base.Texts.{Text, find_text, text_eq}
use session_flow.Redaction.Text.{tag, placeholder_spans, is_inside}

pub record Candidate : Type 0 where
  pub value : Text
  pub rule_name : Text
  pub tier : ℕ
  pub force : Bool

pub record Entry : Type 0 where
  pub tier : ℕ
  pub rule : Text
  pub force : Bool

pub record Hit : Type 0 where
  pub rule_name : Text
  pub tier : ℕ

-- `_FALLBACK_RULE`
abbrev pub fallback_rule : Text
fallback_rule = b'S' ∷ b'E' ∷ b'C' ∷ b'R' ∷ b'E' ∷ b'T' ∷ []

abbrev pub rule_or_fallback : Text → Text
rule_or_fallback [] = fallback_rule
rule_or_fallback (c ∷ rule) = c ∷ rule

unfoldable pub placeholder : Text → Text
placeholder rule_name = tag ++ (rule_or_fallback rule_name ++ (b']' ∷ []))

-- Which values are exempt: an operator's pattern on every tier, a structural shape on the third.
pub record Exemptions : Type 0 where
  pub is_operator_allowlisted : Text → Bool
  pub is_structurally_allowlisted : Text → Bool

abbrev pub is_exempt : Exemptions → Candidate → Bool
is_exempt x c =
    x.is_operator_allowlisted c.value || ((c.tier == 3) && x.is_structurally_allowlisted c.value)

-- The entry of a value that another candidate names too: the lowest tier wins, `force` is kept.
unfoldable pub merged : Option Entry → Candidate → Entry
merged none c = record { tier = c.tier; rule = c.rule_name; force = c.force }
merged (some e) c =
    if ltb c.tier e.tier
    then record { tier = c.tier; rule = c.rule_name; force = e.force || c.force }
    else record e { force = e.force || c.force }

unfoldable pub aggregate : Exemptions → List Candidate → Dict Text Entry → Dict Text Entry
unfolding merged
aggregate x [] agg = agg
aggregate x (c ∷ candidates) agg =
    aggregate x candidates
      (if is_exempt x c then agg else Dict.insert c.value (merged (Dict.lookup c.value agg) c) agg)

-- The loop of `_replace_outside_placeholders`, over `text[cursor:]`.
unfoldable pub replace_loop : ℕ → List (ℕ × ℕ) → Text → Text → ℕ → Text → Text
unfolding find_text is_inside
replace_loop zero protected value replacement cursor rest = rest
replace_loop (suc fuel) protected value replacement cursor rest = elim (find_text value rest) [
  | none ↦ rest
  | some k ↦
      take k rest
      ++ ((if is_inside protected (cursor + k) then value else replacement)
          ++ replace_loop fuel protected value replacement (cursor + k + length value)
              (drop (k + length value) rest))
]

-- Each round takes a value off the text, which has a character.
unfoldable pub replace_outside_placeholders : Text → Text → Text → Text
unfolding replace_loop placeholder_spans
replace_outside_placeholders text [] replacement = text
replace_outside_placeholders text (c ∷ value) replacement =
    replace_loop (suc (length text)) (placeholder_spans text) (c ∷ value) replacement 0 text

-- `tier_items.sort(key=lambda pair: len(pair[0]), reverse=True)`
unfoldable pub insert_item : Text × Text → List (Text × Text) → List (Text × Text)
insert_item x [] = x ∷ []
insert_item x (y ∷ items) =
    let rest = insert_item x items in
    if ltb (length x.0) (length y.0) then y ∷ rest else x ∷ y ∷ items

unfoldable pub longest_first : List (Text × Text) → List (Text × Text)
unfolding insert_item
longest_first [] = []
longest_first (x ∷ items) = insert_item x (longest_first items)

abbrev pub is_of_tier : ℕ → Text × Entry → Bool
is_of_tier target (value, entry) =
    (entry.tier == target) && (((target == 1) || (target == 2)) || entry.force)

unfoldable pub tier_items : ℕ → Dict Text Entry → List (Text × Text)
unfolding longest_first
tier_items target agg =
    longest_first (map (λ (value, entry). (value, entry.rule)) (keep (is_of_tier target) agg))

unfoldable pub mask_items : List (Text × Text) → Text → Text
unfolding replace_outside_placeholders placeholder
mask_items [] out = out
mask_items ((value, rule_name) ∷ items) out =
    mask_items items (replace_outside_placeholders out value (placeholder rule_name))

-- The loop over the tiers 1, 2 and 3.
unfoldable pub mask_tiers : Dict Text Entry → Text → Text
unfolding tier_items mask_items
mask_tiers agg text =
    mask_items (tier_items 3 agg)
      (mask_items (tier_items 2 agg) (mask_items (tier_items 1 agg) text))

pub data Mode : Type 0 where
  enforce : Mode
  report : Mode

-- `redact` of the text, with what `_collect_candidates` finds in it.
unfoldable pub redact_found : Exemptions → List Candidate → Mode → Text → Text × List Hit
unfolding aggregate mask_tiers
redact_found x candidates mode text =
    let agg = aggregate x candidates [] in
    let hits = map (λ (_, e). record { rule_name = e.rule; tier = e.tier }) agg in
    elim mode [ enforce ↦ (mask_tiers agg text, hits) | report ↦ (text, hits) ]
