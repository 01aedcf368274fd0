-- ===== src/Redaction/Spans.antt =====
-- `_maskable_values`, `_collect_spans` and `scan_spans`: every place where a value stands, for an audit.
pub mod Laws
pub mod Seen
pub mod Located
pub mod Snippets
use session_flow.Base.{
  ℕ, zero, suc, ◌+◌, ◌-◌, Bool, true, false, ◌&&◌, ◌||◌, Option, none, some, List, [], ◌∷◌, ◌++◌,
  map, max, min, length, take, drop, keep, leb, ltb, ◌==◌, nat_eq, if◌then◌else◌,
}
use session_flow.Base.Dict.{Dict}
use session_flow.Base.Texts.{Text, find_text}
use session_flow.Redaction.Text.{placeholder_spans, overlaps}
use session_flow.Redaction.Mask.{
  Candidate, Entry, Exemptions, aggregate, placeholder, Mode, enforce, report,
}
use session_flow.Redaction.Detect.{Detectors}
use session_flow.Redaction.Collect.{collect_candidates, exemptions, redact}

pub record Maskable : Type 0 where
  pub value : Text
  pub rule_name : Text
  pub tier : ℕ

-- An item of `raw`.
pub record Occurrence : Type 0 where
  pub rule_name : Text
  pub tier : ℕ
  pub start : ℕ
  pub end : ℕ

pub record Span : Type 0 where
  pub rule_name : Text
  pub tier : ℕ
  pub start : ℕ
  pub end : ℕ
  pub masked_snippet : Text

abbrev pub snippet_pad : ℕ
snippet_pad = 24

-- `maskable.sort(key=lambda triple: (triple[2], -len(triple[0])))`
abbrev goes_before : Maskable → Maskable → Bool
goes_before a b = ltb a.tier b.tier || ((a.tier == b.tier) && ltb (length b.value) (length a.value))

unfoldable pub insert_maskable : Maskable → List Maskable → List Maskable
insert_maskable m [] = m ∷ []
insert_maskable m (n ∷ l) =
    let rest = insert_maskable m l in if goes_before n m then n ∷ rest else m ∷ n ∷ l

unfoldable pub sort_maskable : List Maskable → List Maskable
unfolding insert_maskable
sort_maskable [] = []
sort_maskable (m ∷ l) = insert_maskable m (sort_maskable l)

abbrev is_maskable : Text × Entry → Bool
is_maskable (_, e) = ((e.tier == 1) || (e.tier == 2)) || e.force

unfoldable pub maskable_values : Exemptions → List Candidate → List Maskable
unfolding aggregate sort_maskable
maskable_values x candidates = sort_maskable (
    map (λ (value, e). record { value = value; rule_name = e.rule; tier = e.tier })
      (keep is_maskable (aggregate x candidates [])))

-- `claimed`, the ranges of the occurrences so far.
unfoldable pub ranges : List Occurrence → List (ℕ × ℕ)
ranges = map (λ o. (o.start, o.end))

unfoldable pub claim : List (ℕ × ℕ) → Occurrence → List Occurrence → List Occurrence
unfolding overlaps ranges
claim protected o raw =
    if overlaps protected o.start o.end
    then raw
    else if overlaps (ranges raw) o.start o.end
    then raw
    else raw ++ o ∷ []

abbrev pub occurrence : Maskable → ℕ → Occurrence
occurrence m idx = record {
  rule_name = m.rule_name;
  tier = m.tier;
  start = idx;
  end = idx + length m.value;
}

-- The loop over the places of a value, over `text[cursor:]`.
unfoldable pub locate_loop :
    ℕ → List (ℕ × ℕ) → Maskable → List Occurrence → ℕ → Text → List Occurrence
unfolding find_text claim
locate_loop zero protected m raw cursor rest = raw
locate_loop (suc fuel) protected m raw cursor rest = elim (find_text m.value rest) [
  | none ↦ raw
  | some k ↦
      locate_loop fuel protected m (claim protected (occurrence m (cursor + k)) raw)
        (cursor + k + length m.value) (drop (k + length m.value) rest)
]

-- Each round takes a value off the text; an empty value is passed over.
unfoldable pub locate : Text → List (ℕ × ℕ) → Maskable → List Occurrence → List Occurrence
unfolding locate_loop
locate text protected m raw =
    let found = locate_loop (suc (length text)) protected m raw 0 text in
    elim (m.value) [ [] ↦ raw | _ ∷ _ ↦ found ]

unfoldable pub locate_all : Text → List (ℕ × ℕ) → List Maskable → List Occurrence → List Occurrence
unfolding locate
locate_all text protected [] raw = raw
locate_all text protected (m ∷ values) raw =
    locate_all text protected values (locate text protected m raw)

-- `raw.sort(key=lambda item: item[2])`
unfoldable pub insert_occurrence : Occurrence → List Occurrence → List Occurrence
insert_occurrence o [] = o ∷ []
insert_occurrence o (u ∷ l) =
    let rest = insert_occurrence o l in if ltb u.start o.start then u ∷ rest else o ∷ u ∷ l

unfoldable pub by_start : List Occurrence → List Occurrence
unfolding insert_occurrence
by_start [] = []
by_start (o ∷ l) = insert_occurrence o (by_start l)

-- `text[i:j]`
abbrev pub text_between : Text → ℕ → ℕ → Text
text_between text i j = take (j - i) (drop i text)

-- The loop over `raw` that fills a window, with `cursor` and what stands in `parts`.
unfoldable pub fill_window : Text → ℕ → ℕ → ℕ → List Occurrence → Text
unfolding placeholder
fill_window text w_start w_end cursor [] = text_between text cursor w_end
fill_window text w_start w_end cursor (o ∷ raw) =
    let clamped_start = max o.start w_start in
    let clamped_end = min o.end w_end in
    let before = if ltb cursor clamped_start then text_between text cursor clamped_start else [] in
    let outside = fill_window text w_start w_end cursor raw in
    let inside = fill_window text w_start w_end (max cursor clamped_end) raw in
    if leb o.end w_start || leb w_end o.start
    then outside
    else before ++ (placeholder o.rule_name ++ inside)

unfoldable pub masked_snippet : Text → List Occurrence → Occurrence → Text
unfolding fill_window
masked_snippet text raw o =
    fill_window text (o.start - snippet_pad) (o.end + snippet_pad) (o.start - snippet_pad) raw

unfoldable pub occurrences : Text → List Maskable → List Occurrence
unfolding locate_all by_start placeholder_spans
occurrences text values = by_start (locate_all text (placeholder_spans text) values [])

abbrev pub span_at : Text → List Occurrence → Occurrence → Span
span_at text raw o = record {
  rule_name = o.rule_name;
  tier = o.tier;
  start = o.start;
  end = o.end;
  masked_snippet = masked_snippet text raw o;
}

unfoldable pub spans_of : Text → List Maskable → List Span
unfolding occurrences masked_snippet
spans_of text values = let raw = occurrences text values in map (span_at text raw) raw

unfoldable pub collect_spans : Detectors → List (Text → Bool) → Text → List Span
unfolding maskable_values spans_of
collect_spans d allowlist text =
    spans_of text (maskable_values (exemptions d allowlist) (collect_candidates d text))

unfoldable pub scan_spans : Detectors → List (Text → Bool) → Mode → Text → Text × List Span
unfolding collect_spans redact
scan_spans d allowlist mode text =
    let scanned_text : Text = elim mode [
      | enforce ↦ (redact d allowlist enforce text).0
      | report ↦ text
    ] in
    (scanned_text, collect_spans d allowlist text)
