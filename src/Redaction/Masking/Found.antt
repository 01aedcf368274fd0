-- ===== src/Redaction/Masking/Found.antt =====
-- The spans that the pattern of a placeholder finds hold the covered positions.
use session_flow.Base.{
  ℕ, zero, suc, ◌+◌, ◌-◌, ◌<◌, ◌≡◌, refl, ap, sym, ◌∙◌, Bool, true, false, ◌&&◌, ◌||◌, none, some,
  List, [], ◌∷◌, ltb, arith, nat_eq, Bool-cases, Option-cases, inl, inr,
}
use session_flow.Base.Texts.{Text, find_code, starts_with}
use session_flow.Redaction.Text.{
  match_span, tag, spans_from, spans_with, is_inside, placeholder_spans,
}
use session_flow.Redaction.Masking.Cover.{
  has_close, is_covered, is_covered-next, find_code-none, find_code-some, tag-opens,
}

-- Whether the position so many characters on is covered.
unfoldable pub covered_at : Text → Text → ℕ → Bool
covered_at before s zero = is_covered before s
covered_at before [] (suc j) = false
covered_at before (c ∷ s) (suc j) = covered_at (c ∷ before) s j

-- What the search knows at a position: no match is open, or one is, and where it closes.
abbrev Within : ℕ → Text → Text → Type 0
Within zero before s = is_covered before s ≡ (has_close s && starts_with tag s)
Within (suc k) before s = (is_covered before s ≡ true) × (find_code b']' s ≡ some k)

match_span-none :
    (before s : Text)
    → Within zero before s
    → match_span tag b']' s ≡ none
    → is_covered before s ≡ false
unfolding match_span
match_span-none before s w h = ground (arith, w, find_code-none s, Option-cases (find_code b']' s))

match_span-some :
    (c : ℕ) (s : Text) (k : ℕ)
    → match_span tag b']' (c ∷ s) ≡ some k
    → (m : ℕ) × (k ≡ suc (suc m))
      × (find_code b']' s ≡ some m)
      × (c ≡ b'[')
      × (starts_with tag (c ∷ s) ≡ true)
unfolding match_span find_code
match_span-some c s k h = elim (Bool-cases (starts_with tag (c ∷ s))) [
  | inr n ↦ absurd (ground (arith, h, n))
  | inl t ↦ elim (Option-cases (find_code b']' s)) [
    | inl n ↦ absurd (ground (arith, h, t, n, tag-opens c s t))
    | inr (m, e) ↦ (m, ground (arith, h, t, e, tag-opens c s t), e, tag-opens c s t, t)
  ]
]

spans_from-ge :
    (i taken : ℕ) (s : Text) (p : ℕ) → p < i → is_inside (spans_from tag b']' i taken s) p ≡ false
unfolding spans_from spans_with is_inside
spans_from-ge i taken [] p h = refl
spans_from-ge i (suc taken) (c ∷ s) p h = spans_from-ge (i + 1) taken s p (omega arith)
spans_from-ge i zero (c ∷ s) p h = elim (Option-cases (match_span tag b']' (c ∷ s))) [
  | inl n ↦ rw n (spans_from-ge (i + 1) 0 s p (omega arith))
  | inr (k, e) ↦ rw e (ground (arith, spans_from-ge (i + 1) (k - 1) s p))
]

Within-open :
    (k : ℕ) (before s : Text) (c : ℕ) → Within (suc k) before (c ∷ s) → Within k (c ∷ before) s
unfolding find_code
Within-open zero before s c (w, f) =
    ground (arith, w, f, is_covered-next before s c, Option-cases (find_code b']' s))
Within-open (suc k) before s c (w, f) = (
  ground (
    arith,
    w,
    f,
    is_covered-next before s c,
    Option-cases (find_code b']' s),
    find_code-some s k,
  ),
  ground (arith, f, Option-cases (find_code b']' s)),
)

Within-passed :
    (before s : Text) (c : ℕ)
    → Within zero before (c ∷ s)
    → match_span tag b']' (c ∷ s) ≡ none
    → Within zero (c ∷ before) s
Within-passed before s c w h =
    ground (arith, match_span-none before (c ∷ s) w h, is_covered-next before s c)

Within-matched :
    (before s : Text) (c m : ℕ)
    → Within zero before (c ∷ s)
    → find_code b']' s ≡ some m
    → c ≡ b'['
    → starts_with tag (c ∷ s) ≡ true
    → Within (suc m) (c ∷ before) s
unfolding has_close
Within-matched before s c m w f o t =
    (ground (arith, w, f, o, t, is_covered-next before s c, find_code-some s m), f)

matched-covered :
    (before s : Text) (c m : ℕ)
    → Within zero before (c ∷ s)
    → find_code b']' s ≡ some m
    → starts_with tag (c ∷ s) ≡ true
    → is_covered before (c ∷ s) ≡ true
unfolding has_close
matched-covered before s c m w f t = ground (arith, w, t, find_code-some s m)

inside_next :
    (spans : List (ℕ × ℕ)) (i j : ℕ) {b : Bool}
    → (is_inside spans (i + 1 + j) || ltb j 0) ≡ b
    → (is_inside spans (i + suc j) || ltb (suc j) 0) ≡ b
inside_next spans i j h = let e : i + suc j ≡ i + 1 + j = omega arith in rw e (ground (arith, h))

start : (s : Text) → Within 0 [] s
unfolding is_covered
start s = refl

is_inside-spans_from :
    (i taken : ℕ) (before s : Text) (j : ℕ)
    → Within taken before s
    → (is_inside (spans_from tag b']' i taken s) (i + j) || ltb j taken) ≡ covered_at before s j
unfolding spans_from spans_with is_inside covered_at find_code
is_inside-spans_from i zero before [] zero w = ground (arith, w)
is_inside-spans_from i zero before [] (suc j) w = ground arith
is_inside-spans_from i (suc k) before [] j w = cc (w.1)
is_inside-spans_from i (suc k) before (c ∷ s) zero w =
    ground (arith, w, spans_from-ge (i + 1) k s i)
is_inside-spans_from i (suc k) before (c ∷ s) (suc j) w =
    ground (arith, is_inside-spans_from (i + 1) k (c ∷ before) s j (Within-open k before s c w))
is_inside-spans_from i zero before (c ∷ s) zero w =
    elim (Option-cases (match_span tag b']' (c ∷ s))) [
      | inl n ↦ rw n (
          ap (λ b. b || ltb 0 0) (spans_from-ge (i + 1) 0 s (i + 0) (omega arith))
          ∙ sym (match_span-none before (c ∷ s) w n))
      | inr (k, e) ↦ rw e (
          let (m, km, f, o, t) = match_span-some c s k e in
          rw km (ground (arith, matched-covered before s c m w f t)))
    ]
is_inside-spans_from i zero before (c ∷ s) (suc j) w =
    elim (Option-cases (match_span tag b']' (c ∷ s))) [
      | inl n ↦ rw n (
          inside_next _ i j
            (is_inside-spans_from (i + 1) 0 (c ∷ before) s j (Within-passed before s c w n)))
      | inr (k, e) ↦ rw e (
          let (m, km, f, o, t) = match_span-some c s k e in
          rw km (
            ground (
              arith,
              is_inside-spans_from (i + 1) (suc m) (c ∷ before) s j
                  (Within-matched before s c m w f o t),
            )))
    ]

-- A position lies in one of the placeholders of a text if and only if it is covered.
pub is_inside-placeholder_spans :
    (s : Text) (j : ℕ) → is_inside (placeholder_spans s) j ≡ covered_at [] s j
unfolding placeholder_spans
is_inside-placeholder_spans s j = ground (arith, is_inside-spans_from 0 0 [] s j (start s))
