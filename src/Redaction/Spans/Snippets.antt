-- ===== src/Redaction/Spans/Snippets.antt =====
-- A snippet shows nothing of what the spans hold.
use session_flow.Base.{
  ℕ, ◌+◌, ◌-◌, ◌≤◌, ◌<◌, ◌≡◌, ◌⊎◌, refl, sym, ◌∙◌, false, ◌||◌, List, [], ◌∷◌, ◌++◌, map, max, min,
  All, All-append, All-map, arith, leb, ltb, if◌then◌else◌, Bool-cases, inl, inr,
}
use session_flow.Base.Texts.{Text}
use mathlib.Core.Path.{subst}
use native.Mathlib.Decide.{dec_lt}
use mathlib.Core.List.{append-nil, append_assoc}
use session_flow.Redaction.Mask.{placeholder}
use session_flow.Redaction.Spans.{
  Maskable, Occurrence, snippet_pad, text_between, fill_window, masked_snippet, occurrences,
  span_at, spans_of,
}
use session_flow.Redaction.Spans.Laws.{Apart}
use session_flow.Redaction.Spans.Located.{
  place_of, map-place_of, place_of-spans_of, spans_of-Located,
}

-- Stretches of a text outside all ranges, and placeholders, one after the other.
pub data Clean (text : Text) (raw : List Occurrence) : Text → Type 0 where
  nothing : Clean text raw []
  stretch :
      (i j : ℕ) {out : Text}
      → All (λ (o : Occurrence). (j ≤ o.start) ⊎ (o.end ≤ i)) raw
      → Clean text raw out
      → Clean text raw (text_between text i j ++ out)
  mark :
      (rule_name : Text) {out : Text}
      → Clean text raw out
      → Clean text raw (placeholder rule_name ++ out)

text_between-empty : (text : Text) (i j : ℕ) → j ≤ i → text_between text i j ≡ []
text_between-empty text i j h = let none : j - i ≡ 0 = omega arith in rw none refl

Clean-between :
    (text : Text) (raw : List Occurrence) (i j : ℕ) {out : Text}
    → (i < j → All (λ (o : Occurrence). (j ≤ o.start) ⊎ (o.end ≤ i)) raw)
    → Clean text raw out
    → Clean text raw (text_between text i j ++ out)
Clean-between text raw i j h c = elim (dec_lt i j) [
  | yes l ↦ stretch i j (h l) c
  | no n ↦ rw (text_between-empty text i j (omega arith)) c
]

module _ (text : Text) (w_start w_end : ℕ) (all : List Occurrence) where
  -- What is behind the cursor or beyond the window.
  abbrev IsPast : ℕ → Occurrence → Type 0
  IsPast cursor o = (o.end ≤ cursor) ⊎ ((w_end ≤ cursor) ⊎ (w_end ≤ o.start))

  before_end :
      (cursor : ℕ) (o : Occurrence)
      → cursor < w_end
      → IsPast cursor o
      → (w_end ≤ o.start) ⊎ (o.end ≤ cursor)
  before_end cursor o l (inl h) = inr h
  before_end cursor o l (inr (inl h)) = absurd (omega arith)
  before_end cursor o l (inr (inr h)) = inl h

  IsPast-later : (cursor n : ℕ) (o : Occurrence) → IsPast cursor o → IsPast (max cursor n) o
  IsPast-later cursor n o (inl h) = inl (omega arith)
  IsPast-later cursor n o (inr (inl h)) = inr (inl (omega arith))
  IsPast-later cursor n o (inr (inr h)) = inr (inr h)

  IsPast-own : (cursor : ℕ) (o : Occurrence) → IsPast (max cursor (min o.end w_end)) o
  IsPast-own cursor o = elim (dec_lt o.end w_end) [
    | yes l ↦ inl (omega arith)
    | no n ↦ inr (inl (omega arith))
  ]

  before_window :
      (cursor : ℕ) (o u : Occurrence)
      → cursor < max o.start w_start
      → o.start < w_end
      → w_start ≤ cursor
      → IsPast cursor u
      → (max o.start w_start ≤ u.start) ⊎ (u.end ≤ cursor)
  before_window cursor o u l reaches le (inl h) = inr h
  before_window cursor o u l reaches le (inr (inl h)) = absurd (omega arith)
  before_window cursor o u l reaches le (inr (inr h)) = inl (omega arith)

  -- The part of a window before an occurrence that reaches into it.
  before-stretch :
      (past : List Occurrence) (o : Occurrence) (rest : List Occurrence) (cursor : ℕ) {out : Text}
      → all ≡ past ++ o ∷ rest
      → Apart (o ∷ rest)
      → o.start < o.end
      → All (IsPast cursor) past
      → (leb o.end w_start || leb w_end o.start) ≡ false
      → w_start ≤ cursor
      → w_start < w_end
      → Clean text all out
      → Clean text all (
          (if ltb cursor (max o.start w_start)
            then text_between text cursor (max o.start w_start)
            else [])
          ++ out)
  before-stretch past o rest cursor e a r p meets le lt clean =
      elim (Bool-cases (ltb cursor (max o.start w_start))) [
        | inr n ↦ rw n clean
        | inl l ↦
            let reaches : o.start < w_end = ground (arith, meets) in
            let before : cursor < max o.start w_start = ground (arith, l) in
            rw l (
              stretch cursor (max o.start w_start)
                (rw e (
                  All-append _ past (o ∷ rest)
                    (All-map (λ u q. before_window cursor o u before reaches le q) past p)
                    (inl (omega arith), All-map (λ u later. inl (omega arith)) rest a.0)))
                clean)
      ]

  fill_window-Clean :
      (past rest : List Occurrence) (cursor : ℕ)
      → all ≡ past ++ rest
      → Apart rest
      → All (λ (o : Occurrence). o.start < o.end) rest
      → All (IsPast cursor) past
      → w_start ≤ cursor
      → w_start < w_end
      → Clean text all (fill_window text w_start w_end cursor rest)
  unfolding fill_window
  fill_window-Clean past [] cursor e a r p le lt =
      subst (Clean text all) (append-nil (text_between text cursor w_end)) (
        Clean-between text all cursor w_end
          (λ l. rw (e, append-nil) (All-map (λ o past. before_end cursor o l past) past p)) nothing)
  fill_window-Clean past (o ∷ rest) cursor e a r p le lt =
      elim (Bool-cases (leb o.end w_start || leb w_end o.start)) [
        | inl out ↦ rw out (
            fill_window-Clean (past ++ o ∷ []) rest cursor
              (e ∙ sym (append_assoc past (o ∷ []) rest)) a.1 r.1
              (All-append (IsPast cursor) past (o ∷ []) p (ground (arith, out, le), tt)) le lt)
        | inr meets ↦ rw meets (
            before-stretch past o rest cursor e a r.0 p meets le lt (
              mark o.rule_name (
                fill_window-Clean (past ++ o ∷ []) rest (max cursor (min o.end w_end))
                  (e ∙ sym (append_assoc past (o ∷ []) rest)) a.1 r.1
                  (All-append (IsPast (max cursor (min o.end w_end))) past (o ∷ [])
                    (All-map (λ u p. IsPast-later cursor (min o.end w_end) u p) past p)
                    (IsPast-own cursor o, tt))
                  (omega arith) lt)))
      ]

masked_snippet-Clean :
    (text : Text) (raw : List Occurrence) (o : Occurrence)
    → Apart raw
    → All (λ (o : Occurrence). o.start < o.end) raw
    → o.start < o.end
    → Clean text raw (masked_snippet text raw o)
unfolding masked_snippet
masked_snippet-Clean text raw o a r h =
    fill_window-Clean text (o.start - snippet_pad) (o.end + snippet_pad) raw [] raw
      (o.start - snippet_pad) refl a r tt (omega arith) (omega arith)

All-span_at :
    (text : Text) (raw l : List Occurrence)
    → All (λ o. Clean text raw (masked_snippet text raw o)) l
    → All (λ s. Clean text raw s.masked_snippet) (map (span_at text raw) l)
All-span_at text raw [] h = tt
All-span_at text raw (o ∷ l) h = (h.0, All-span_at text raw l h.1)

-- The snippet of every span is made of placeholders and of stretches of the text that no span meets.
pub spans_of-Clean :
    (text : Text) (values : List Maskable)
    → All
        (λ s. Clean text (map place_of (spans_of text values)) s.masked_snippet)
        (spans_of text values)
unfolding spans_of
spans_of-Clean text values =
    let raw = occurrences text values in
    let (apart, places, _) = spans_of-Located text values in
    let apart' : Apart raw = rw place_of-spans_of at apart in
    let ranges = All-map (λ o place. place.1) raw (rw place_of-spans_of at places) in
    rw (map-place_of text raw raw) (
      All-span_at text raw raw
        (All-map (λ o range. masked_snippet-Clean text raw o apart' ranges range) raw ranges))
