-- ===== src/Redaction/Spans/Located.antt =====
-- The spans are places of values, apart from each other and from the placeholders.
use session_flow.Base.{
  ℕ, zero, suc, ◌+◌, ◌≤◌, ◌<◌, ◌≡◌, ◌⊎◌, refl, sym, ap, ◌∙◌, true, false, ◌&&◌, List, [], ◌∷◌, ◌++◌,
  map, length, drop, drop-drop, All, All-append, All-map, All-zip, arith, ltb, nat_eq, Bool-cases,
  Option-cases, inl, inr,
}
use session_flow.Base.Texts.{Text, find_text, starts_with}
use mathlib.Core.List.{append_assoc}
use native.Mathlib.Decide.{dec_lt}
use session_flow.Redaction.Text.{placeholder_spans, overlaps}
use session_flow.Redaction.Spans.{
  Maskable, Occurrence, Span, ranges, claim, occurrence, locate_loop, locate, locate_all,
  insert_occurrence, by_start, occurrences, span_at, spans_of,
}
use session_flow.Redaction.Spans.Laws.{Apart, IsPlace, find_text-here}
use session_flow.Redaction.Spans.Seen.{SeesAll, locate-some, locate-empty, occurrences-Seen}

abbrev IsApart : Occurrence → Occurrence → Type 0
IsApart o u = (o.end ≤ u.start) ⊎ (u.end ≤ o.start)

abbrev PairsApart : List Occurrence → Type 0
PairsApart [] = Unit {0}
PairsApart (o ∷ l) = All (IsApart o) l × PairsApart l

PairsApart-snoc :
    (l : List Occurrence) (o : Occurrence)
    → PairsApart l
    → All (λ u. IsApart u o) l
    → PairsApart (l ++ o ∷ [])
PairsApart-snoc [] o h k = (tt, tt)
PairsApart-snoc (u ∷ l) o h k =
    (All-append (IsApart u) l (o ∷ []) h.0 (k.0, tt), PairsApart-snoc l o h.1 k.1)

IsApart-cases : (u o : Occurrence) → (ltb o.start u.end && ltb u.start o.end) ≡ false → IsApart u o
IsApart-cases u o h = elim (dec_lt o.start u.end) [
  | no n ↦ inl (omega arith)
  | yes l ↦ inr (ground (arith, h, l))
]

end-le-start :
    (u o : Occurrence)
    → o.start < o.end
    → IsApart o u
    → ltb u.start o.start ≡ true
    → u.end ≤ o.start
end-le-start u o h (inl a) e = absurd (ground (arith, h, a, e))
end-le-start u o h (inr a) e = a

end-le-next :
    (u o : Occurrence)
    → u.start < u.end
    → IsApart o u
    → ltb u.start o.start ≡ false
    → o.end ≤ u.start
end-le-next u o h (inl a) e = a
end-le-next u o h (inr a) e = absurd (ground (arith, h, a, e))

overlaps-false :
    (l : List Occurrence) (o : Occurrence)
    → overlaps (ranges l) o.start o.end ≡ false
    → All (λ u. IsApart u o) l
unfolding overlaps ranges
overlaps-false [] o h = tt
overlaps-false (u ∷ l) o h =
    (IsApart-cases u o (ground (arith, h)), overlaps-false l o (ground (arith, h)))

-- A search for the places of values keeps these.
module _ (text : Text) (protected : List (ℕ × ℕ)) (values : List Maskable) where
  abbrev IsRaw : List Occurrence → Type 0
  IsRaw raw = All (IsPlace text protected values) raw × PairsApart raw

  claim-IsRaw :
      (o : Occurrence) (raw : List Occurrence)
      → IsRaw raw
      → (overlaps protected o.start o.end ≡ false → IsPlace text protected values o)
      → IsRaw (claim protected o raw)
  unfolding claim
  claim-IsRaw o raw h place = elim (Bool-cases (overlaps protected o.start o.end)) [
    | inl t ↦ rw t h
    | inr f ↦ elim (Bool-cases (overlaps (ranges raw) o.start o.end)) [
      | inl t ↦ rw (f, t) h
      | inr g ↦
          rw (f, g)
            (
              All-append _ raw (o ∷ []) h.0 (place f, tt),
              PairsApart-snoc raw o h.1 (overlaps-false raw o g),
            )
    ]
  ]

  abbrev Among : Maskable → Type 0
  Among m = (before : List Maskable) × (after : List Maskable) × (values ≡ before ++ m ∷ after)

  locate_loop-IsRaw :
      (m : Maskable)
      → Among m
      → 0 < length m.value
      → (fuel : ℕ) (raw : List Occurrence) (cursor : ℕ) (rest : Text) → rest ≡ drop cursor text
      → IsRaw raw
      → IsRaw (locate_loop fuel protected m raw cursor rest)
  unfolding locate_loop
  locate_loop-IsRaw m among h zero raw cursor rest e r = r
  locate_loop-IsRaw m among h (suc fuel) raw cursor rest e r =
      elim (Option-cases (find_text m.value rest)) [
        | inl n ↦ rw (n, locate_loop) r
        | inr (k, f) ↦
            let found : starts_with m.value (drop (cursor + k) text) ≡ true =
              rw (← drop-drop cursor k text, ← e) (find_text-here m.value rest k f) in
            rw (f, locate_loop)
              (locate_loop-IsRaw m among h fuel _ (cursor + k + length m.value) _
                (ap (drop (k + length m.value)) e
                  ∙ (drop-drop cursor (k + length m.value) text
                      ∙ ap (λ (c : ℕ). drop c text) (omega arith)))
                (claim-IsRaw (occurrence m (cursor + k)) raw r
                  (λ free. (free, omega arith, (m, among, refl, found)))))
      ]

  locate-IsRaw :
      (m : Maskable) (raw : List Occurrence)
      → Among m
      → IsRaw raw
      → IsRaw (locate text protected m raw)
  locate-IsRaw m raw among r = elim (dec_lt 0 (length m.value)) [
    | yes h ↦
        rw (locate-some text protected m raw h)
          (locate_loop-IsRaw m among h (suc (length text)) raw 0 text refl r)
    | no n ↦ rw (locate-empty text protected m raw (omega arith)) r
  ]

  locate_all-IsRaw :
      (before after : List Maskable) (raw : List Occurrence)
      → values ≡ before ++ after
      → IsRaw raw
      → IsRaw (locate_all text protected after raw)
  unfolding locate_all
  locate_all-IsRaw before [] raw e r = r
  locate_all-IsRaw before (m ∷ after) raw e r =
      locate_all-IsRaw (before ++ m ∷ []) after (locate text protected m raw)
        (e ∙ sym (append_assoc before (m ∷ []) after)) (locate-IsRaw m raw (before, after, e) r)

All-insert_occurrence :
    (P : Occurrence → Type 0) (o : Occurrence) (l : List Occurrence)
    → P o
    → All P l
    → All P (insert_occurrence o l)
unfolding insert_occurrence
All-insert_occurrence P o [] h k = (h, tt)
All-insert_occurrence P o (u ∷ l) h k = elim (Bool-cases (ltb u.start o.start)) [
  | inl e ↦ rw e (k.0, All-insert_occurrence P o l h k.1)
  | inr e ↦ rw e (h, k)
]

All-by_start : (P : Occurrence → Type 0) (l : List Occurrence) → All P l → All P (by_start l)
unfolding by_start
All-by_start P [] h = tt
All-by_start P (o ∷ l) h = All-insert_occurrence P o (by_start l) h.0 (All-by_start P l h.1)

-- Each range has a character.
abbrev IsRange : Occurrence → Type 0
IsRange o = o.start < o.end

insert_occurrence-Apart :
    (o : Occurrence) (l : List Occurrence)
    → IsRange o
    → All IsRange l
    → All (IsApart o) l
    → Apart l
    → Apart (insert_occurrence o l)
unfolding insert_occurrence
insert_occurrence-Apart o [] h r a s = (tt, tt)
insert_occurrence-Apart o (u ∷ l) h r a s = elim (Bool-cases (ltb u.start o.start)) [
  | inl e ↦ rw e (
    All-insert_occurrence _ o l (end-le-start u o h a.0 e) s.0,
    insert_occurrence-Apart o l h r.1 a.1 s.1,
  )
  | inr e ↦
      let next = end-le-next u o r.0 a.0 e in
      rw e ((next, All-zip (λ v range later. omega arith) l r.1 s.0), s)
]

by_start-Apart : (l : List Occurrence) → All IsRange l → PairsApart l → Apart (by_start l)
unfolding by_start
by_start-Apart [] h a = tt
by_start-Apart (o ∷ l) h a =
    insert_occurrence-Apart o (by_start l) h.0 (All-by_start IsRange l h.1)
      (All-by_start (IsApart o) l a.0) (by_start-Apart l h.1 a.1)

-- Where a span stands.
abbrev pub place_of : Span → Occurrence
place_of s = record { rule_name = s.rule_name; tier = s.tier; start = s.start; end = s.end }

pub map-place_of :
    (text : Text) (raw l : List Occurrence) → map place_of (map (span_at text raw) l) ≡ l
map-place_of text raw [] = refl
map-place_of text raw (o ∷ l) = ap (λ t. o ∷ t) (map-place_of text raw l)

pub place_of-spans_of :
    (text : Text) (values : List Maskable)
    → map place_of (spans_of text values) ≡ occurrences text values
unfolding spans_of
place_of-spans_of text values =
    map-place_of text (occurrences text values) (occurrences text values)

occurrences-IsRaw :
    (text : Text) (values : List Maskable)
    → IsRaw text
        (placeholder_spans text)
        values
        (locate_all text (placeholder_spans text) values [])
occurrences-IsRaw text values =
    locate_all-IsRaw text (placeholder_spans text) values [] values [] refl (tt, tt)

-- The spans come by their start, each ends before the next begins, none meets a placeholder of the text, and
-- each is the place of one of the values, with its rule and tier. And wherever one of the values stands, that place, or
-- one of the same value that reaches into it from the left, meets a placeholder or a span.
pub spans_of-Located :
    (text : Text) (values : List Maskable)
    → Apart (map place_of (spans_of text values))
      × All (IsPlace text (placeholder_spans text) values) (map place_of (spans_of text values))
      × All (SeesAll text (placeholder_spans text) (map place_of (spans_of text values))) values
unfolding occurrences
spans_of-Located text values =
    let raw = occurrences-IsRaw text values in
    rw place_of-spans_of (
      by_start-Apart _ (All-map (λ o place. place.1) _ raw.0) raw.1,
      All-by_start (IsPlace text (placeholder_spans text) values) _ raw.0,
      occurrences-Seen text values,
    )
