-- ===== src/Redaction/Detect.antt =====
-- `_collect_candidates`: what a text has of each tier. The searches for key blocks, keywords and assignments,
-- detect-secrets and the entropy are outside; the other patterns are read here.
use session_flow.Base.{
  ℕ, zero, suc, ◌+◌, ◌-◌, String, Bool, ◌&&◌, ◌||◌, Option, none, some, List, [], ◌∷◌, min, length,
  take, drop, leb, ◌==◌, nat_eq, string_eq, if◌then◌else◌,
}
use session_flow.Base.Dict.{Dict}
use session_flow.Base.Texts.{Text, starts_with, text_eq, codes}
use session_flow.Passages.DocId.{is_digit}

-- A match of `_ASSIGN_RE`, with its offsets in the line.
pub record Assignment : Type 0 where
  pub value : Text
  pub start : ℕ
  pub end : ℕ

pub record Detectors : Type 0 where
  pub pem_blocks : Text → List Text
  pub without_pem_blocks : Text → Text
  pub keywords : Text → List ℕ
  pub assignments : Text → List Assignment
  pub scan_line : Text → List (String × Text)
  pub is_potential_uuid : Text → Bool
  pub has_high_entropy : Text → Bool

abbrev pub secret_type_map : Dict String String
secret_type_map =
    ("AWS Access Key", "AWS")
    ∷ ("Slack Token", "SLACK")
    ∷ ("Stripe Access Key", "STRIPE")
    ∷ ("OpenAI Token", "OPENAI")
    ∷ ("NPM tokens", "NPM")
    ∷ ("JSON Web Token", "JWT")
    ∷ ("Private Key", "PRIVATE_KEY")
    ∷ []

-- One of some beginnings, and then a run of characters, as long as it may be.
pub record TokenPattern : Type 0 where
  pub beginnings : List Text
  pub belongs : ℕ → Bool
  pub least : ℕ
  pub most : Option ℕ

abbrev pub is_lower : ℕ → Bool
is_lower c = leb b'a' c && leb c b'z'

abbrev pub is_upper : ℕ → Bool
is_upper c = leb b'A' c && leb c b'Z'

abbrev is_alphanumeric : ℕ → Bool
is_alphanumeric c = is_lower c || (is_upper c || is_digit c)

abbrev is_word_or_dash : ℕ → Bool
is_word_or_dash c = is_alphanumeric c || ((c == b'_') || (c == b'-'))

abbrev pub custom_tier1 : List (String × TokenPattern)
custom_tier1 =
    (
      "ANTHROPIC",
      record {
        beginnings = codes "sk-ant-" ∷ [];
        belongs = is_word_or_dash;
        least = 20;
        most = none;
      },
    )
    ∷ (
      "GOOGLE_API_KEY",
      record {
        beginnings = codes "AIza" ∷ [];
        belongs = is_word_or_dash;
        least = 35;
        most = some 35;
      },
    )
    ∷ (
      "HUGGINGFACE",
      record { beginnings = codes "hf_" ∷ []; belongs = is_alphanumeric; least = 34; most = none },
    )
    ∷ (
      "GITHUB",
      record {
        beginnings = codes "ghp_" ∷ codes "gho_" ∷ codes "ghu_" ∷ codes "ghs_" ∷ codes "ghr_" ∷ [];
        belongs = is_alphanumeric;
        least = 36;
        most = none;
      },
    )
    ∷ (
      "GITLAB",
      record {
        beginnings = codes "glpat-" ∷ [];
        belongs = is_word_or_dash;
        least = 20;
        most = none;
      },
    )
    ∷ []

-- `_ENTROPY_TOKEN_RE`
abbrev pub entropy_token : TokenPattern
entropy_token = record {
  beginnings = [] ∷ [];
  belongs = λ c. is_word_or_dash c || ((c == b'+') || ((c == b'/') || (c == b'=')));
  least = 20;
  most = none;
}

unfoldable pub run_length : (ℕ → Bool) → Text → ℕ
run_length belongs [] = 0
run_length belongs (c ∷ s) = let more = suc (run_length belongs s) in if belongs c then more else 0

abbrev at_most : Option ℕ → ℕ → ℕ
at_most none n = n
at_most (some most) n = min most n

unfoldable pub match_token : TokenPattern → List Text → Text → Option ℕ
unfolding run_length starts_with is_digit
match_token p [] s = none
match_token p (beginning ∷ others) s =
    let n = at_most p.most (run_length p.belongs (drop (length beginning) s)) in
    let next = match_token p others s in
    if starts_with beginning s && leb p.least n then some (length beginning + n) else next

unfoldable pub tokens_with : Text → Option ℕ → (ℕ → List Text) → List Text
tokens_with s none rest = rest 0
tokens_with s (some k) rest = take k s ∷ rest (k - 1)

-- The texts of `finditer`, with so many characters taken by the last match.
unfoldable pub find_tokens : TokenPattern → ℕ → Text → List Text
unfolding tokens_with match_token
find_tokens p taken [] = []
find_tokens p (suc taken) (c ∷ s) = find_tokens p taken s
find_tokens p zero (c ∷ s) =
    tokens_with (c ∷ s) (match_token p p.beginnings (c ∷ s)) (λ taken. find_tokens p taken s)
