-- ===== src/Tests/Redaction.antt =====
-- A text with an assigned secret that stands in it twice.
use session_flow.Base.{
  ℕ, ◌≡◌, ◌≢◌, refl, true, false, List, [], ◌∷◌, length, drop, map, All, nat_eq, string_eq,
  if◌then◌else◌,
}
use session_flow.Base.Dict
use session_flow.Base.Texts.{Text, starts_with, text_eq, codes}
use session_flow.Redaction.Text.{placeholder_spans}
use session_flow.Redaction.Mask.{Candidate, enforce, is_exempt}
use session_flow.Redaction.Detect.{Detectors, Assignment}
use session_flow.Redaction.Collect.{collect_candidates, exemptions, is_operator_allowlisted, redact}
use session_flow.Redaction.Masking.Cover.{is_plain}
use session_flow.Redaction.Masking.Secrets.{IsOnlyInside, is_certain, redact-IsOnlyInside}
use session_flow.Redaction.Spans.{Maskable, spans_of}
use session_flow.Redaction.Spans.Laws.{Apart, IsPlace}
use session_flow.Redaction.Spans.Seen.{SeesAll}
use session_flow.Redaction.Spans.Located.{place_of, spans_of-Located}
use session_flow.Redaction.Spans.Snippets.{Clean, spans_of-Clean}

-- `key=` at the start of a line, and the rest of the line as the value.
abbrev key_assignments : Text → List Assignment
key_assignments line =
    if starts_with (codes "key=") line
    then record { value = drop 4 line; start = 0; end = length line } ∷ []
    else []

abbrev detectors : Detectors
detectors = record {
  pem_blocks = λ _. [];
  without_pem_blocks = λ text. text;
  keywords = λ _. [];
  assignments = key_assignments;
  scan_line = λ _. [];
  is_potential_uuid = λ _. false;
  has_high_entropy = λ _. false;
}

abbrev text : Text
text = codes "key=hunter22x\nthen hunter22x"

redact_text :
    (redact detectors [] enforce text).0
    ≡ codes "key=[REDACTED:ASSIGNMENT]\nthen [REDACTED:ASSIGNMENT]"
unfolding redact nat_eq text_eq is_operator_allowlisted Dict.insert Dict.lookup
redact_text = refl

-- A value behind an opening that is no placeholder stays, once a bracket closes behind it.
redact_unclosed :
    (redact detectors [] enforce (codes "[REDACTED: see\nkey=hunter22x\n]")).0
    ≡ codes "[REDACTED: see\nkey=hunter22x\n]"
unfolding redact nat_eq text_eq is_operator_allowlisted Dict.insert Dict.lookup
redact_unclosed = refl

text-IsPlain : All (λ (c : Candidate). is_plain c.value ≡ true) (collect_candidates detectors text)
unfolding collect_candidates is_plain nat_eq text_eq
text-IsPlain = (refl, tt)

redact-IsOnlyInside_example :
    All
      (λ (c : Candidate).
        is_exempt (exemptions detectors []) c ≡ false
        → is_certain c ≡ true
        → c.value ≢ []
        → IsOnlyInside c.value (redact detectors [] enforce text).0)
      (collect_candidates detectors text)
redact-IsOnlyInside_example = redact-IsOnlyInside detectors [] text text-IsPlain

abbrev values : List Maskable
values = record { value = codes "hunter22x"; rule_name = codes "ASSIGNMENT"; tier = 2 } ∷ []

spans_of-Located_example :
    Apart (map place_of (spans_of text values))
    × All (IsPlace text (placeholder_spans text) values) (map place_of (spans_of text values))
    × All (SeesAll text (placeholder_spans text) (map place_of (spans_of text values))) values
spans_of-Located_example = spans_of-Located text values

spans_of-Clean_example :
    All
      (λ s. Clean text (map place_of (spans_of text values)) s.masked_snippet)
      (spans_of text values)
spans_of-Clean_example = spans_of-Clean text values

spans_of_text :
    map {B = ℕ × ℕ} (λ s. (s.start, s.end)) (spans_of text values) ≡ (4, 13) ∷ (19, 28) ∷ []
unfolding spans_of nat_eq
spans_of_text = refl
