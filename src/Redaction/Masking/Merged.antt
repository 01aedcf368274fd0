-- ===== src/Redaction/Masking/Merged.antt =====
-- What `_aggregate_maskable_candidates` makes of the candidates of a value.
use mathlib.Core.Path.{subst}
use mathlib.Core.List.{append-nil, append_assoc}
use session_flow.Base.{
  ℕ, ◌≤◌, ◌<◌, ◌≡◌, refl, sym, Bool, true, false, not, ◌&&◌, ◌||◌, Option, none, some, List, [],
  ◌∷◌, ◌++◌, keep, keep-append, keep-cons_true, keep-cons_false, any, find, All, All-append,
  All-map, arith, ltb, ◌==◌, nat_eq, if◌then◌else◌, Bool-cases, inl, inr,
}
use session_flow.Base.Dict
use session_flow.Base.Dict.{Dict, lookup-insert_self, lookup-insert_other}
use session_flow.Base.Texts.{Text, text_eq}
use session_flow.Redaction.Mask.{Candidate, Entry, Exemptions, is_exempt, merged, aggregate}

-- An entry has the lowest tier of its candidates, the rule of the first of that tier, and
-- `force` if one of them has it; there is none only if there is no candidate.
abbrev pub Described : List Candidate → Option Entry → Type 0
Described l none = l ≡ []
Described l (some e) =
    (e.force ≡ any (λ c. c.force) l)
    × All (λ (c : Candidate). e.tier ≤ c.tier) l
    × ((c : Candidate) × (find (λ c. c.tier == e.tier) l ≡ some c) × (c.rule_name ≡ e.rule))

any-snoc :
    (l : List Candidate) (c : Candidate)
    → any (λ d. d.force) (l ++ c ∷ []) ≡ (any (λ d. d.force) l || c.force)
any-snoc [] c = ground arith
any-snoc (d ∷ l) c = ground (arith, any-snoc l c)

find-snoc_some :
    (n : ℕ) (l : List Candidate) (c d : Candidate)
    → find (λ c. c.tier == n) l ≡ some d
    → find (λ c. c.tier == n) (l ++ c ∷ []) ≡ some d
find-snoc_some n [] c d h = cc h
find-snoc_some n (x ∷ l) c d h = ground (arith, h, find-snoc_some n l c d)

find-snoc_new :
    (n : ℕ) (l : List Candidate) (c : Candidate)
    → All (λ (d : Candidate). n < d.tier) l
    → c.tier ≡ n
    → find (λ c. c.tier == n) (l ++ c ∷ []) ≡ some c
find-snoc_new n [] c h e = ground (arith, e)
find-snoc_new n (x ∷ l) c h e = ground (arith, h, e, find-snoc_new n l c h.1 e)

below_tier :
    (e : Entry) (c b : Candidate) → ltb c.tier e.tier ≡ true → e.tier ≤ b.tier → c.tier < b.tier
below_tier e c b h m = ground arith

merged-lower :
    (e : Entry) (c : Candidate)
    → ltb c.tier e.tier ≡ true
    → merged (some e) c ≡ record { tier = c.tier; rule = c.rule_name; force = e.force || c.force }
unfolding merged
merged-lower e c h = rw h

merged-kept :
    (e : Entry) (c : Candidate)
    → ltb c.tier e.tier ≡ false
    → merged (some e) c ≡ record e { force = e.force || c.force }
unfolding merged
merged-kept e c h = rw h

merged-Described :
    (l : List Candidate) (known : Option Entry) (c : Candidate)
    → Described l known
    → Described (l ++ c ∷ []) (some (merged known c))
unfolding merged
merged-Described l none c h = rw h (ground arith, (omega arith, tt), (c, ground arith, refl))
merged-Described l (some e) c (forced, lowest, (d, first, named)) =
    elim (Bool-cases (ltb c.tier e.tier)) [
      | inl lower ↦
          let below =
            All-map (λ (b : Candidate) (m : e.tier ≤ b.tier). below_tier e c b lower m) l lowest in
          rw (merged-lower e c lower) (
            rw forced (sym (any-snoc l c)),
            All-append _ l (c ∷ []) (All-map (λ b m. omega arith) l below) (omega arith, tt),
            (c, find-snoc_new c.tier l c below refl, refl),
          )
      | inr not_lower ↦ rw (merged-kept e c not_lower) (
        rw forced (sym (any-snoc l c)),
        All-append _ l (c ∷ []) lowest (ground (arith, not_lower), tt),
        (d, find-snoc_some e.tier l c d first, named),
      )
    ]

-- A candidate that counts for a value.
abbrev pub counts_for : Exemptions → Text → Candidate → Bool
counts_for x value c = (c.value == value) && not (is_exempt x c)

module _ (x : Exemptions) where
  abbrev AllDescribed : List Candidate → Dict Text Entry → Type 0
  AllDescribed done agg =
      (value : Text) → Described (keep (counts_for x value) done) (Dict.lookup value agg)

  abbrev absorbed : Candidate → Dict Text Entry → Dict Text Entry
  absorbed c agg =
      if is_exempt x c then agg else Dict.insert c.value (merged (Dict.lookup c.value agg) c) agg

  absorbed-Described :
      (done : List Candidate) (c : Candidate) (agg : Dict Text Entry)
      → AllDescribed done agg
      → AllDescribed (done ++ c ∷ []) (absorbed c agg)
  absorbed-Described done c agg h value = rw keep-append (elim (Bool-cases (is_exempt x c)) [
    | inl exempt ↦
        rw (exempt, keep-cons_false (counts_for x value) c [] (ground (arith, exempt)), append-nil)
          (h value)
    | inr counts ↦ rw counts (elim (text_eq.dec c.value value) [
      | yes same ↦
          subst
            (λ v.
              Described (keep (counts_for x v) done ++ keep (counts_for x v) (c ∷ []))
                (Dict.lookup v (Dict.insert c.value (merged (Dict.lookup c.value agg) c) agg)))
            same
            (rw
              (
                keep-cons_true (counts_for x c.value) c [] (ground (arith, counts)),
                lookup-insert_self,
              )
              (merged-Described _ (Dict.lookup c.value agg) c (h c.value)))
      | no other ↦
          rw
            (
              keep-cons_false (counts_for x value) c [] (ground (arith, other)),
              append-nil,
              lookup-insert_other value c.value _ agg (λ e. other (sym e)),
            )
            (h value)
    ])
  ])

  aggregate-AllDescribed :
      (done cands : List Candidate) (agg : Dict Text Entry)
      → AllDescribed done agg
      → AllDescribed (done ++ cands) (aggregate x cands agg)
  unfolding aggregate
  aggregate-AllDescribed done [] agg h value = rw append-nil (h value)
  aggregate-AllDescribed done (c ∷ cands) agg h value =
      subst
        (λ l.
          Described (keep (counts_for x value) l)
            (Dict.lookup value (aggregate x cands (absorbed c agg))))
        (append_assoc done (c ∷ []) cands)
        (aggregate-AllDescribed (done ++ c ∷ []) cands (absorbed c agg)
          (absorbed-Described done c agg h) value)

  pub aggregate-Described :
      (candidates : List Candidate) (value : Text)
      → Described
          (keep (counts_for x value) candidates)
          (Dict.lookup value (aggregate x candidates []))
  unfolding Dict.lookup
  aggregate-Described candidates value = aggregate-AllDescribed [] candidates [] (λ _. refl) value
