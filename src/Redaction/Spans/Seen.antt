-- ===== src/Redaction/Spans/Seen.antt =====
-- Every place of a value is accounted for by the search for its places.
use session_flow.Base.{
  ℕ, zero, suc, ◌+◌, ◌-◌, ◌≤◌, ◌<◌, ◌≡◌, refl, true, List, [], ◌∷◌, length, length-drop, drop,
  drop-drop, All, All-map, arith, nat_eq,
}
use session_flow.Base.Texts.{Text, starts_with}
use mathlib.Core.Path.{subst}
use native.Mathlib.Decide.{dec_lt}
use session_flow.Redaction.Text.{placeholder_spans, overlaps}
use session_flow.Redaction.Spans.{
  Maskable, Occurrence, ranges, claim, occurrence, locate_loop, locate, locate_all,
  insert_occurrence, by_start, occurrences,
}
use session_flow.Redaction.Spans.Laws.{
  is_taken, find_text-here, find_text-le, claim-taken, locate_loop-grows,
}

-- The place, or one of the same value that it overlaps from the left, meets a placeholder or a span.
abbrev pub Seen : Text → List (ℕ × ℕ) → List Occurrence → Text → ℕ → Type 0
Seen text protected raw value p =
    (q : ℕ) × (starts_with value (drop q text) ≡ true)
    × (q ≤ p)
    × (p < q + length value)
    × (is_taken protected raw q (q + length value) ≡ true)

Seen-kept :
    (text : Text) (protected : List (ℕ × ℕ)) (old new : List Occurrence) (value : Text) (p : ℕ)
    → ((s e : ℕ) → is_taken protected old s e ≡ true → is_taken protected new s e ≡ true)
    → Seen text protected old value p
    → Seen text protected new value p
Seen-kept text protected old new value p grows (q, at, le, lt, taken) =
    (q, at, le, lt, grows q (q + length value) taken)

starts_with-length : (v s : Text) → starts_with v s ≡ true → length v ≤ length s
unfolding starts_with
starts_with-length [] s h = omega arith
starts_with-length (c ∷ v) [] h = absurd (ground (arith, h))
starts_with-length (c ∷ v) (d ∷ s) h =
    let more = starts_with-length v s (ground (arith, h)) in omega arith

module _ (text : Text) (protected : List (ℕ × ℕ)) (m : Maskable)
    (some_text : 0 < length m.value) where
  locate_loop-Seen :
      (fuel : ℕ) (raw : List Occurrence) (cursor p : ℕ)
      → length (drop cursor text) < fuel
      → cursor ≤ p
      → starts_with m.value (drop p text) ≡ true
      → Seen text protected (locate_loop fuel protected m raw cursor (drop cursor text)) m.value p
  unfolding locate_loop
  locate_loop-Seen zero raw cursor p h le at = elim h [ ]
  locate_loop-Seen (suc fuel) raw cursor p h le at =
      let shift : cursor + (p - cursor) ≡ p = omega arith in
      let here : starts_with m.value (drop (p - cursor) (drop cursor text)) ≡ true =
        rw (drop-drop, shift) at in
      let (k, f, first) = find_text-le m.value (drop cursor text) (p - cursor) here in
      let claimed = claim protected (occurrence m (cursor + k)) raw in
      let found : starts_with m.value (drop (cursor + k) text) ≡ true =
        rw (← drop-drop cursor k text) (find_text-here m.value (drop cursor text) k f) in
      rw (f, locate_loop)
        (elim (dec_lt p (cursor + k + length m.value)) [
          | yes inside ↦ (
            cursor + k,
            found,
            omega arith,
            inside,
            locate_loop-grows fuel protected m claimed _ _ _ _
                (claim-taken protected (occurrence m (cursor + k)) raw (omega arith)),
          )
          | no past ↦ rw drop-drop (
              subst
                (λ c.
                  Seen text protected
                    (locate_loop fuel protected m claimed (cursor + k + length m.value)
                      (drop c text))
                    m.value p)
                (omega arith)
                (locate_loop-Seen fuel claimed (cursor + k + length m.value) p
                  (omega (
                    arith,
                    length-drop cursor text,
                    length-drop p text,
                    length-drop (cursor + k + length m.value) text,
                    starts_with-length m.value (drop p text) at,
                  ))
                  (omega arith) at))
        ])

abbrev Grows : List (ℕ × ℕ) → List Occurrence → List Occurrence → Type 0
Grows protected old new =
    (s e : ℕ) → is_taken protected old s e ≡ true → is_taken protected new s e ≡ true

locate-Grows :
    (text : Text) (protected : List (ℕ × ℕ)) (m : Maskable) (raw : List Occurrence)
    → Grows protected raw (locate text protected m raw)
unfolding locate
locate-Grows text protected m raw s e h =
    elim (m.value)
      as (λ v.
        is_taken protected
          (elim v [ [] ↦ raw | _ ∷ _ ↦ locate_loop (suc (length text)) protected m raw 0 text ]) s e
        ≡ true) [
          | [] ↦ h
          | _ ∷ _ ↦ locate_loop-grows (suc (length text)) protected m raw 0 text s e h
        ]

pub locate-some :
    (text : Text) (protected : List (ℕ × ℕ)) (m : Maskable) (raw : List Occurrence)
    → 0 < length m.value
    → locate text protected m raw ≡ locate_loop (suc (length text)) protected m raw 0 text
unfolding locate
locate-some text protected m raw h =
    let found = locate_loop (suc (length text)) protected m raw 0 text in
    (elim (m.value) as (λ v. 0 < length v → (elim v [ [] ↦ raw | _ ∷ _ ↦ found ]) ≡ found) [
      | [] ↦ λ h. absurd (omega arith)
      | _ ∷ _ ↦ λ _. refl
    ])
      h

pub locate-empty :
    (text : Text) (protected : List (ℕ × ℕ)) (m : Maskable) (raw : List Occurrence)
    → length m.value ≡ 0
    → locate text protected m raw ≡ raw
unfolding locate
locate-empty text protected m raw h =
    let found = locate_loop (suc (length text)) protected m raw 0 text in
    (elim (m.value) as (λ v. length v ≡ 0 → (elim v [ [] ↦ raw | _ ∷ _ ↦ found ]) ≡ raw) [
      | [] ↦ λ _. refl
      | _ ∷ _ ↦ λ h. absurd (omega arith)
    ])
      h

locate-Seen :
    (text : Text) (protected : List (ℕ × ℕ)) (m : Maskable) (raw : List Occurrence) (p : ℕ)
    → 0 < length m.value
    → starts_with m.value (drop p text) ≡ true
    → Seen text protected (locate text protected m raw) m.value p
locate-Seen text protected m raw p h at =
    rw (locate-some text protected m raw h) (
      locate_loop-Seen text protected m h (suc (length text)) raw 0 p (omega arith) (omega arith)
        at)

locate_all-Grows :
    (text : Text) (protected : List (ℕ × ℕ)) (values : List Maskable) (raw : List Occurrence)
    → Grows protected raw (locate_all text protected values raw)
unfolding locate_all
locate_all-Grows text protected [] raw s e h = h
locate_all-Grows text protected (m ∷ values) raw s e h =
    locate_all-Grows text protected values _ s e (locate-Grows text protected m raw s e h)

-- What is known of the places of each value.
abbrev pub SeesAll : Text → List (ℕ × ℕ) → List Occurrence → Maskable → Type 0
SeesAll text protected raw m =
    (p : ℕ)
    → 0 < length m.value
    → starts_with m.value (drop p text) ≡ true
    → Seen text protected raw m.value p

locate_all-Seen :
    (text : Text) (protected : List (ℕ × ℕ)) (values : List Maskable) (raw : List Occurrence)
    → All (SeesAll text protected (locate_all text protected values raw)) values
unfolding locate_all
locate_all-Seen text protected [] raw = tt
locate_all-Seen text protected (m ∷ values) raw = (
  (λ p some_text at.
      Seen-kept text protected (locate text protected m raw) _ m.value p
        (locate_all-Grows text protected values (locate text protected m raw))
        (locate-Seen text protected m raw p some_text at)),
  locate_all-Seen text protected values (locate text protected m raw),
)

overlaps-insert_occurrence :
    (o : Occurrence) (l : List Occurrence) (s e : ℕ)
    → overlaps (ranges (insert_occurrence o l)) s e ≡ overlaps (ranges (o ∷ l)) s e
unfolding insert_occurrence overlaps ranges
overlaps-insert_occurrence o [] s e = refl
overlaps-insert_occurrence o (u ∷ l) s e = ground (arith, overlaps-insert_occurrence o l s e)

overlaps-by_start :
    (l : List Occurrence) (s e : ℕ) → overlaps (ranges (by_start l)) s e ≡ overlaps (ranges l) s e
unfolding by_start overlaps ranges
overlaps-by_start [] s e = refl
overlaps-by_start (o ∷ l) s e =
    ground (arith, overlaps-insert_occurrence o (by_start l) s e, overlaps-by_start l s e)

pub occurrences-Seen :
    (text : Text) (values : List Maskable)
    → All (SeesAll text (placeholder_spans text) (occurrences text values)) values
unfolding occurrences
occurrences-Seen text values =
    All-map
      (λ m sees p some_text at.
        Seen-kept text (placeholder_spans text) _ _ m.value p (λ s e h. rw overlaps-by_start h)
          (sees p some_text at))
      values (locate_all-Seen text (placeholder_spans text) values [])
