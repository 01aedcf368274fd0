-- ===== src/Redaction/Collect.antt =====
-- The line scan of `_collect_candidates`, its guards, and `redact` of a text.
use session_flow.Base.{
  ℕ, zero, suc, ◌+◌, ◌-◌, String, Bool, true, false, not, ◌&&◌, ◌||◌, none, some, List, [], ◌∷◌,
  ◌++◌, map, max, min, length, drop, keep, any, contains, ltb, leb, ◌==◌, nat_eq, string_eq,
  if◌then◌else◌,
}
use session_flow.Base.Dict
use session_flow.Base.Dict.{Dict}
use session_flow.Base.Texts.{
  Text, find_text, is_space, starts_with, strip, strip_left, text_eq, codes,
}
use session_flow.Passages.DocId.{is_digit}
use session_flow.Redaction.Text.{interpolation_spans, overlaps}
use session_flow.Redaction.Mask.{Candidate, Exemptions, Mode, Hit, redact_found}
use session_flow.Redaction.Detect.{
  Assignment, Detectors, secret_type_map, TokenPattern, is_upper, custom_tier1, entropy_token,
  find_tokens,
}

abbrev is_quote : ℕ → Bool
is_quote c = (c == b'"') || (c == 39)

abbrev is_angle : ℕ → Bool
is_angle c = (c == b'<') || (c == b'>')

-- `s.lower()`, as far as a text can equal an ASCII word: the capitals, and the Kelvin sign.
unfoldable pub lower : ℕ → ℕ
lower c = if is_upper c then c + 32 else if c == 8490 then b'k' else c

abbrev pub min_value_len : ℕ
min_value_len = 8

abbrev pub placeholder_words : List Text
placeholder_words =
    codes "changeme"
    ∷ codes "changethis"
    ∷ codes "password"
    ∷ codes "secret"
    ∷ codes "example"
    ∷ codes "test"
    ∷ codes "your-key"
    ∷ codes "yourkey"
    ∷ codes "redacted"
    ∷ codes "placeholder"
    ∷ codes "none"
    ∷ codes "null"
    ∷ codes "todo"
    ∷ []

-- `_PLACEHOLDER_SHAPE_RE`
unfoldable pub has_placeholder_shape : Text → Bool
has_placeholder_shape s =
    not (s == []) && not (any (λ c. not (contains (codes "*xX-_<>.") c || is_space c)) s)

unfoldable pub is_placeholder_value : Text → Bool
unfolding strip lower has_placeholder_shape
is_placeholder_value value =
    let stripped = strip is_quote (strip is_space value) in
    let inner = strip is_angle stripped in
    if ltb (length inner) min_value_len
    then true
    else if contains placeholder_words (map lower inner)
    then true
    else has_placeholder_shape stripped

unfoldable pub is_nonliteral_assignment : Text → Assignment → Bool
unfolding starts_with interpolation_spans overlaps
is_nonliteral_assignment line a =
    starts_with (codes "$(") a.value || overlaps (interpolation_spans line) a.start a.end

abbrev is_hex : ℕ → Bool
is_hex c = is_digit c || ((leb b'a' c && leb c b'f') || (leb b'A' c && leb c b'F'))

-- `_HEX_ALLOW_RE`, of a token, which has no newline.
unfoldable pub is_hash_shaped : Text → Bool
unfolding is_digit
is_hash_shaped value =
    ((length value == 40) || (length value == 64)) && not (any (λ c. not (is_hex c)) value)

-- `[A-Z0-9]+-\d+$`, after so many characters of its first run.
unfoldable pub is_issue_rest : Bool → Text → Bool
unfolding is_digit
is_issue_rest started [] = false
is_issue_rest started (c ∷ s) =
    let more = is_issue_rest true s in
    if is_upper c || is_digit c
    then more
    else started && ((c == b'-') && (not (s == []) && not (any (λ d. not (is_digit d)) s)))

-- `_ISSUE_ID_RE`, of a token.
unfoldable pub is_issue_id : Text → Bool
unfolding is_issue_rest
is_issue_id [] = false
is_issue_id (c ∷ s) = is_upper c && is_issue_rest false s

unfoldable pub is_structurally_allowlisted : Detectors → Text → Bool
unfolding is_hash_shaped is_issue_id
is_structurally_allowlisted d value =
    d.is_potential_uuid value || (is_hash_shaped value || is_issue_id value)

unfoldable pub is_operator_allowlisted : List (Text → Bool) → Text → Bool
is_operator_allowlisted allowlist value = any (λ pattern. pattern value) allowlist

unfoldable pub entropy_tokens : Detectors → Text → List Text
unfolding find_tokens
entropy_tokens d line = keep d.has_high_entropy (find_tokens entropy_token 0 line)

abbrev distance : ℕ → ℕ → ℕ
distance a b = max a b - min a b

-- The loop of `_keyword_adjacent`, over `line[cursor:]`.
unfoldable pub adjacent_loop : ℕ → List ℕ → Text → ℕ → Text → Bool
unfolding find_text
adjacent_loop zero positions value cursor rest = false
adjacent_loop (suc fuel) positions value cursor rest = elim (find_text value rest) [
  | none ↦ false
  | some k ↦
      let later = adjacent_loop fuel positions value (cursor + k + 1) (drop (k + 1) rest) in
      if any (λ pos. leb (distance pos (cursor + k)) 40) positions then true else later
]

-- Each round moves the cursor on.
unfoldable pub keyword_adjacent : Detectors → Text → Text → Bool
unfolding adjacent_loop
keyword_adjacent d line value = elim (d.keywords line) [
  | [] ↦ false
  | p ∷ positions ↦ adjacent_loop (suc (length line)) (p ∷ positions) value 0 line
]

-- `str.splitlines`: the characters of the line so far, and whether the last was a carriage return.
abbrev is_line_break : ℕ → Bool
is_line_break c =
    (leb 10 c && leb c 13) || ((leb 28 c && leb c 30) || contains (133 ∷ 8232 ∷ 8233 ∷ []) c)

unfoldable pub lines_from : Text → Bool → Text → List Text
lines_from [] after_return [] = []
lines_from (d ∷ line) after_return [] = (d ∷ line) ∷ []
lines_from line after_return (c ∷ s) =
    let skip = lines_from line false s in
    let next = lines_from [] (c == 13) s in
    let more = lines_from (line ++ c ∷ []) false s in
    if after_return && (c == 10) then skip else if is_line_break c then line ∷ next else more

-- `_SECRET_TYPE_MAP` on the finds of detect-secrets: a find with no value, or of a type that is
-- not mapped, is left out.
unfoldable pub structured_candidates : List (String × Text) → List Candidate
structured_candidates [] = []
structured_candidates ((type, value) ∷ finds) =
    let rest = structured_candidates finds in
    if value == [] then rest else elim (Dict.lookup type secret_type_map) [
      | none ↦ rest
      | some rule ↦ record { value = value; rule_name = codes rule; tier = 1; force = true } ∷ rest
    ]

unfoldable pub entropy_candidates : Detectors → Bool → Text → List Candidate
unfolding entropy_tokens keyword_adjacent
entropy_candidates d in_fence line =
    map
      (λ value. record {
        value = value;
        rule_name = codes "HIGH_ENTROPY";
        tier = 3;
        force = in_fence || keyword_adjacent d line value;
      })
      (entropy_tokens d line)

unfoldable pub assignment_candidates : Text → List Assignment → List Candidate
unfolding is_placeholder_value is_nonliteral_assignment
assignment_candidates line [] = []
assignment_candidates line (a ∷ matches) =
    let rest = assignment_candidates line matches in
    if is_placeholder_value a.value
    then rest
    else if is_nonliteral_assignment line a
    then rest
    else record { value = a.value; rule_name = codes "ASSIGNMENT"; tier = 2; force = true } ∷ rest

unfoldable pub line_candidates : Detectors → Bool → Text → List Candidate
unfolding structured_candidates entropy_candidates assignment_candidates
line_candidates d in_fence line =
    structured_candidates (d.scan_line line)
    ++ (entropy_candidates d in_fence line ++ assignment_candidates line (d.assignments line))

-- The loop over the lines, with `in_fence`.
unfoldable pub scan_lines : Detectors → Bool → List Text → List Candidate
unfolding strip_left starts_with line_candidates
scan_lines d in_fence [] = []
scan_lines d in_fence (line ∷ lines) =
    let fence = starts_with (codes "```") (strip_left is_space line) in
    let rest = scan_lines d (if fence then not in_fence else in_fence) lines in
    if fence then rest else line_candidates d in_fence line ++ rest

unfoldable pub pem_candidates : List Text → List Candidate
pem_candidates blocks =
    map (λ value. record { value = value; rule_name = codes "PRIVATE_KEY"; tier = 1; force = true })
      blocks

unfoldable pub custom_candidates : List (String × TokenPattern) → Text → List Candidate
unfolding find_tokens
custom_candidates [] work = []
custom_candidates ((rule, p) ∷ patterns) work =
    map (λ value. record { value = value; rule_name = codes rule; tier = 1; force = true })
      (find_tokens p 0 work)
    ++ custom_candidates patterns work

unfoldable pub collect_candidates : Detectors → Text → List Candidate
unfolding pem_candidates custom_candidates scan_lines lines_from
collect_candidates d text =
    let work = d.without_pem_blocks text in
    pem_candidates (d.pem_blocks text)
    ++ (custom_candidates custom_tier1 work ++ scan_lines d false (lines_from [] false work))

abbrev pub exemptions : Detectors → List (Text → Bool) → Exemptions
exemptions d allowlist = record {
  is_operator_allowlisted = is_operator_allowlisted allowlist;
  is_structurally_allowlisted = is_structurally_allowlisted d;
}

unfoldable pub redact : Detectors → List (Text → Bool) → Mode → Text → Text × List Hit
unfolding redact_found collect_candidates
redact d allowlist mode text =
    redact_found (exemptions d allowlist) (collect_candidates d text) mode text
