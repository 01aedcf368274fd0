-- ===== src/Redaction/Masking/Tiers.antt =====
-- The items of a tier are those of its entries, in another order.
use mathlib.Core.Path.{subst}
use session_flow.Base.{
  ℕ, ◌≡◌, sym, ap, keep-cons_true, keep-cons_false, Bool, true, false, List, [], ◌∷◌, length, map,
  keep, All, ltb, Bool-cases, inl, inr,
}
use session_flow.Base.Dict.{Dict}
use session_flow.Base.Texts.{Text, text_eq}
use session_flow.Redaction.Mask.{Entry, insert_item, longest_first, is_of_tier, tier_items}

module _ (P : Text × Text → Type 0) where
  All-insert_item :
      (x : Text × Text) (l : List (Text × Text)) → P x → All P l → All P (insert_item x l)
  unfolding insert_item
  All-insert_item x [] h k = (h, tt)
  All-insert_item x (y ∷ l) h k = elim (Bool-cases (ltb (length x.0) (length y.0))) [
    | inl e ↦ rw e (k.0, All-insert_item x l h k.1)
    | inr e ↦ rw e (h, k)
  ]

  All-longest_first : (l : List (Text × Text)) → All P l → All P (longest_first l)
  unfolding longest_first
  All-longest_first [] h = tt
  All-longest_first (x ∷ l) h = All-insert_item x (longest_first l) h.0 (All-longest_first l h.1)

  insert_item-All :
      (x : Text × Text) (l : List (Text × Text)) → All P (insert_item x l) → P x × All P l
  unfolding insert_item
  insert_item-All x [] h = h
  insert_item-All x (y ∷ l) h = elim (Bool-cases (ltb (length x.0) (length y.0))) [
    | inl e ↦
        let h' : P y × All P (insert_item x l) = rw e at h in
        let (first, rest) = insert_item-All x l h'.1 in (first, (h'.0, rest))
    | inr e ↦ rw e at h
  ]

  longest_first-All : (l : List (Text × Text)) → All P (longest_first l) → All P l
  unfolding longest_first
  longest_first-All [] h = tt
  longest_first-All (x ∷ l) h =
      let (first, rest) = insert_item-All x (longest_first l) h in (first, longest_first-All l rest)

  abbrev pub OfEntry : Text × Entry → Type 0
  OfEntry (value, entry) = P (value, entry.rule)

  abbrev items_of : (Text × Entry → Bool) → Dict Text Entry → List (Text × Text)
  items_of p agg = map (λ (value, entry). (value, entry.rule)) (keep p agg)

  items_of-true :
      (p : Text × Entry → Bool) (x : Text × Entry) (agg : Dict Text Entry)
      → p x ≡ true
      → items_of p (x ∷ agg) ≡ (x.0, x.1.rule) ∷ items_of p agg
  items_of-true p x agg e =
      ap (map (λ (value, entry). (value, entry.rule))) (keep-cons_true p x agg e)

  items_of-false :
      (p : Text × Entry → Bool) (x : Text × Entry) (agg : Dict Text Entry)
      → p x ≡ false
      → items_of p (x ∷ agg) ≡ items_of p agg
  items_of-false p x agg e =
      ap (map (λ (value, entry). (value, entry.rule))) (keep-cons_false p x agg e)

  All-items_of :
      (p : Text × Entry → Bool) (agg : Dict Text Entry) → All OfEntry agg → All P (items_of p agg)
  All-items_of p [] h = tt
  All-items_of p (x ∷ agg) h = elim (Bool-cases (p x)) [
    | inl e ↦ subst (All P) (sym (items_of-true p x agg e)) (h.0, All-items_of p agg h.1)
    | inr e ↦ subst (All P) (sym (items_of-false p x agg e)) (All-items_of p agg h.1)
  ]

  items_of-All :
      (p : Text × Entry → Bool) (agg : Dict Text Entry)
      → All P (items_of p agg)
      → All (λ x. p x ≡ true → OfEntry x) agg
  items_of-All p [] h = tt
  items_of-All p (x ∷ agg) h = elim (Bool-cases (p x)) [
    | inl e ↦
        let h' = subst (All P) (items_of-true p x agg e) h in ((λ _. h'.0), items_of-All p agg h'.1)
    | inr e ↦
        ((λ t. absurd (cc (t, e))), items_of-All p agg (subst (All P) (items_of-false p x agg e) h))
  ]

  pub All-tier_items :
      (target : ℕ) (agg : Dict Text Entry) → All OfEntry agg → All P (tier_items target agg)
  unfolding tier_items
  All-tier_items target agg h = All-longest_first _ (All-items_of (is_of_tier target) agg h)

  pub tier_items-All :
      (target : ℕ) (agg : Dict Text Entry)
      → All P (tier_items target agg)
      → All (λ x. is_of_tier target x ≡ true → OfEntry x) agg
  unfolding tier_items
  tier_items-All target agg h = items_of-All (is_of_tier target) agg (longest_first-All _ h)
