-- ===== src/Redaction/Spans/Laws.antt =====
-- The spans are apart, stand outside the placeholders, and account for every place of a value.
use session_flow.Base.{
  ℕ, zero, suc, ◌+◌, ◌≤◌, ◌<◌, ◌≡◌, refl, Bool, true, false, ◌&&◌, ◌||◌, some, List, [], ◌∷◌, ◌++◌,
  drop, All, arith, ltb, nat_eq, Bool-cases, Option-cases, inl, inr,
}
use session_flow.Base.Texts.{Text, find_text, starts_with}
use session_flow.Redaction.Text.{overlaps}
use session_flow.Redaction.Spans.{Maskable, Occurrence, ranges, claim, occurrence, locate_loop}

-- Each ends before the later ones start.
abbrev pub Apart : List Occurrence → Type 0
Apart [] = Unit {0}
Apart (o ∷ l) = All (λ (u : Occurrence). o.end ≤ u.start) l × Apart l

-- The place of a value, outside the protected ranges.
abbrev pub IsPlace : Text → List (ℕ × ℕ) → List Maskable → Occurrence → Type 0
IsPlace text protected values o =
    (overlaps protected o.start o.end ≡ false)
    × (o.start < o.end)
    × ((m : Maskable) × ((before : List Maskable) × (after : List Maskable) × (values
            ≡ before ++ m ∷ after))
        × (o ≡ occurrence m o.start)
        × (starts_with m.value (drop o.start text) ≡ true))

pub find_text-here : (v s : Text) (k : ℕ) → find_text v s ≡ some k → starts_with v (drop k s) ≡ true
unfolding find_text
find_text-here v [] zero h = ground (arith, h)
find_text-here v [] (suc k) h = absurd (ground (arith, h))
find_text-here v (c ∷ s) zero h = elim (Bool-cases (starts_with v (c ∷ s))) [
  | inl t ↦ t
  | inr f ↦ absurd (ground (arith, h, f, Option-cases (find_text v s)))
]
find_text-here v (c ∷ s) (suc k) h =
    find_text-here v s k (ground (arith, h, Option-cases (find_text v s)))

-- No place before the one that is found.
pub find_text-le :
    (v s : Text) (j : ℕ)
    → starts_with v (drop j s) ≡ true
    → (k : ℕ) × (find_text v s ≡ some k) × (k ≤ j)
unfolding find_text
find_text-le v [] zero h = (0, rw h refl, omega arith)
find_text-le v [] (suc j) h = (0, rw h refl, omega arith)
find_text-le v (c ∷ s) zero h = (0, rw h refl, omega arith)
find_text-le v (c ∷ s) (suc j) h = elim (Bool-cases (starts_with v (c ∷ s))) [
  | inl t ↦ (0, rw t refl, omega arith)
  | inr f ↦ let (k, e, le) = find_text-le v s j h in (suc k, ground (arith, f, e), omega arith)
]

pub overlaps-snoc :
    (raw : List Occurrence) (o : Occurrence) (s e : ℕ)
    → overlaps (ranges (raw ++ o ∷ [])) s e
      ≡ (overlaps (ranges raw) s e || (ltb s o.end && ltb o.start e))
unfolding overlaps ranges
overlaps-snoc [] o s e = ground arith
overlaps-snoc (u ∷ raw) o s e = ground (arith, overlaps-snoc raw o s e)

-- Whether a range meets a placeholder or a range that is claimed.
abbrev pub is_taken : List (ℕ × ℕ) → List Occurrence → ℕ → ℕ → Bool
is_taken protected raw s e = overlaps protected s e || overlaps (ranges raw) s e

pub claim-taken :
    (protected : List (ℕ × ℕ)) (o : Occurrence) (raw : List Occurrence)
    → o.start < o.end
    → is_taken protected (claim protected o raw) o.start o.end ≡ true
unfolding claim
claim-taken protected o raw h = elim (Bool-cases (overlaps protected o.start o.end)) [
  | inl t ↦ rw t refl
  | inr f ↦ elim (Bool-cases (overlaps (ranges raw) o.start o.end)) [
    | inl t ↦ rw (f, t) t
    | inr g ↦ rw (f, g) (ground (arith, overlaps-snoc raw o o.start o.end, h))
  ]
]

pub claim-grows :
    (protected : List (ℕ × ℕ)) (o : Occurrence) (raw : List Occurrence) (s e : ℕ)
    → is_taken protected raw s e ≡ true
    → is_taken protected (claim protected o raw) s e ≡ true
unfolding claim
claim-grows protected o raw s e h = elim (Bool-cases (overlaps protected o.start o.end)) [
  | inl t ↦ rw t h
  | inr f ↦ elim (Bool-cases (overlaps (ranges raw) o.start o.end)) [
    | inl t ↦ rw (f, t) h
    | inr g ↦ rw (f, g) (ground (arith, overlaps-snoc raw o s e, h))
  ]
]

pub locate_loop-grows :
    (fuel : ℕ) (protected : List (ℕ × ℕ)) (m : Maskable) (raw : List Occurrence) (cursor : ℕ)
    (rest : Text) (s e : ℕ)
    → is_taken protected raw s e ≡ true
    → is_taken protected (locate_loop fuel protected m raw cursor rest) s e ≡ true
unfolding locate_loop
locate_loop-grows zero protected m raw cursor rest s e h = h
locate_loop-grows (suc fuel) protected m raw cursor rest s e h =
    elim (Option-cases (find_text m.value rest)) [
      | inl n ↦ rw (n, locate_loop) h
      | inr (k, f) ↦
          rw (f, locate_loop)
            (locate_loop-grows fuel protected m _ _ _ s e
              (claim-grows protected (occurrence m (cursor + k)) raw s e h))
    ]
