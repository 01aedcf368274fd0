-- ===== src/Redaction/Masking/Sources.antt =====
-- The candidates of a text have one of three tiers, and rules without a closing bracket.
use session_flow.Base.{
  ◌≤◌, ◌≡◌, refl, String, Bool, false, List, [], ◌∷◌, map, All, All-append, arith, ◌==◌, nat_eq,
  string_eq, Bool-cases, Option-cases, inl, inr,
}
use session_flow.Base.Dict
use session_flow.Base.Dict.{Dict, lookup-All}
use session_flow.Base.Texts.{Text, is_space, starts_with, strip_left, text_eq, codes}
use session_flow.Redaction.Mask.{Candidate, rule_or_fallback}
use session_flow.Redaction.Detect.{
  Detectors, Assignment, secret_type_map, TokenPattern, custom_tier1, find_tokens,
}
use session_flow.Redaction.Collect.{
  structured_candidates, entropy_candidates, assignment_candidates, line_candidates, scan_lines,
  pem_candidates, custom_candidates, collect_candidates, is_placeholder_value,
  is_nonliteral_assignment, lines_from,
}
use session_flow.Redaction.Masking.Cover.{has_close}

abbrev IsNamed : Text → Type 0
IsNamed rule = has_close (rule_or_fallback rule) ≡ false

abbrev pub IsOfTier : Candidate → Type 0
IsOfTier c = (1 ≤ c.tier) × (c.tier ≤ 3) × IsNamed c.rule_name

secret_types-IsNamed : All (λ (_, rule). IsNamed (codes rule)) secret_type_map
unfolding has_close nat_eq
secret_types-IsNamed = (refl, (refl, (refl, (refl, (refl, (refl, (refl, tt)))))))

customs-IsNamed : All (λ (rule, _). IsNamed (codes rule)) custom_tier1
unfolding has_close nat_eq
customs-IsNamed = (refl, (refl, (refl, (refl, (refl, tt)))))

structured_candidates-IsOfTier :
    (finds : List (String × Text)) → All IsOfTier (structured_candidates finds)
unfolding structured_candidates
structured_candidates-IsOfTier [] = tt
structured_candidates-IsOfTier ((type, value) ∷ finds) = elim (Bool-cases (value == [])) [
  | inl e ↦ rw e (structured_candidates-IsOfTier finds)
  | inr e ↦ rw e (elim (Option-cases (Dict.lookup type secret_type_map)) [
    | inl n ↦ rw n (structured_candidates-IsOfTier finds)
    | inr (rule, f) ↦ rw f (
      (
        omega arith,
        omega arith,
        lookup-All (λ (_, v). IsNamed (codes v)) type rule secret_type_map secret_types-IsNamed f,
      ),
      structured_candidates-IsOfTier finds,
    )
  ])
]

All-map_each :
    {A : Type 0} (f : A → Candidate)
    → ((a : A) → IsOfTier (f a))
    → (l : List A) → All IsOfTier (map f l)
All-map_each f h [] = tt
All-map_each f h (a ∷ l) = (h a, All-map_each f h l)

entropy_candidates-IsOfTier :
    (d : Detectors) (in_fence : Bool) (line : Text)
    → All IsOfTier (entropy_candidates d in_fence line)
unfolding entropy_candidates has_close nat_eq
entropy_candidates-IsOfTier d in_fence line =
    All-map_each _ (λ value. (omega arith, omega arith, refl)) _

assignment_candidates-IsOfTier :
    (line : Text) (matches : List Assignment) → All IsOfTier (assignment_candidates line matches)
unfolding assignment_candidates has_close nat_eq
assignment_candidates-IsOfTier line [] = tt
assignment_candidates-IsOfTier line (a ∷ matches) =
    elim (Bool-cases (is_placeholder_value a.value)) [
      | inl e ↦ rw e (assignment_candidates-IsOfTier line matches)
      | inr e ↦ rw e (elim (Bool-cases (is_nonliteral_assignment line a)) [
        | inl f ↦ rw f (assignment_candidates-IsOfTier line matches)
        | inr f ↦
            rw f ((omega arith, omega arith, refl), assignment_candidates-IsOfTier line matches)
      ])
    ]

scan_lines-IsOfTier :
    (d : Detectors) (in_fence : Bool) (lines : List Text)
    → All IsOfTier (scan_lines d in_fence lines)
unfolding scan_lines line_candidates
scan_lines-IsOfTier d in_fence [] = tt
scan_lines-IsOfTier d in_fence (line ∷ lines) =
    elim (Bool-cases (starts_with (codes "```") (strip_left is_space line))) [
      | inl e ↦ rw e (scan_lines-IsOfTier d _ lines)
      | inr e ↦ rw e (
          All-append IsOfTier _ _
            (All-append IsOfTier _ _ (structured_candidates-IsOfTier (d.scan_line line)) (
              All-append IsOfTier _ _ (entropy_candidates-IsOfTier d in_fence line)
                (assignment_candidates-IsOfTier line (d.assignments line))))
            (scan_lines-IsOfTier d in_fence lines))
    ]

custom_candidates-IsOfTier :
    (patterns : List (String × TokenPattern)) (work : Text)
    → All (λ (rule, _). IsNamed (codes rule)) patterns
    → All IsOfTier (custom_candidates patterns work)
unfolding custom_candidates
custom_candidates-IsOfTier [] work h = tt
custom_candidates-IsOfTier ((rule, p) ∷ patterns) work h =
    All-append IsOfTier _ _
      (All-map_each _ (λ value. (omega arith, omega arith, h.0)) (find_tokens p 0 work))
      (custom_candidates-IsOfTier patterns work h.1)

pub collect_candidates-IsOfTier :
    (d : Detectors) (text : Text) → All IsOfTier (collect_candidates d text)
unfolding collect_candidates pem_candidates has_close nat_eq
collect_candidates-IsOfTier d text =
    All-append IsOfTier _ _
      (All-map_each _ (λ value. (omega arith, omega arith, refl)) (d.pem_blocks text))
      (All-append IsOfTier _ _
        (custom_candidates-IsOfTier custom_tier1 (d.without_pem_blocks text) customs-IsNamed)
        (scan_lines-IsOfTier d false (lines_from [] false (d.without_pem_blocks text))))
