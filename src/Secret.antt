-- ===== src/Secret.antt =====
-- The secret detectors of src/secret.rs. A finding is the id of the detector alone.
pub mod Detectors
use hive_memory.Base.{
  ℕ, Bool, true, false, ◌&&◌, ◌||◌, not, Option, none, some, List, [], ◌∷◌, ◌==◌, leb, map, any,
  all, if◌then◌else◌,
}
use hive_memory.Text.{
  Text, codes, contains, contains_any, starts_with, words, byte_len, is_ascii_alphanumeric,
  is_ascii_upper, is_ascii_digit, lines, split_once, to_ascii_lowercase, trim, trim_matches,
}
use hive_memory.Text.Sets.{insert}

pub record SecretFinding : Type 0 where
  pub detector_id : Text

unfoldable pub looks_like_private_key : Text → Bool
looks_like_private_key text =
    contains text (codes "-----BEGIN ") && contains text (codes "PRIVATE KEY-----")

abbrev pub is_separator : ℕ → Bool
is_separator ch = not (is_ascii_alphanumeric ch || ch == b'_' || ch == b'-' || ch == b'.')

unfoldable pub tokens : Text → List Text
tokens text = words is_separator text

-- The test of one token in `contains_aws_access_key_id`.
unfoldable pub is_aws_key : Text → Bool
is_aws_key token =
    byte_len token == 20
    && (starts_with token (codes "AKIA") || starts_with token (codes "ASIA"))
    && all (λ ch. is_ascii_upper ch || is_ascii_digit ch) token

unfoldable pub contains_aws_access_key_id : Text → Bool
contains_aws_access_key_id text = any is_aws_key (tokens text)

abbrev pub github_prefixes : List Text
github_prefixes = codes "ghp_" ∷ codes "gho_" ∷ codes "ghu_" ∷ codes "ghs_" ∷ codes "ghr_" ∷ []

-- The test of one token in `contains_github_token`.
unfoldable pub is_github_token : Text → Bool
is_github_token token =
    any (λ prefix. starts_with token prefix) github_prefixes && leb 30 (byte_len token)

unfoldable pub contains_github_token : Text → Bool
contains_github_token text = any is_github_token (tokens text)

unfoldable pub split_assignment : Text → Option (Text × Text)
split_assignment line = elim (split_once b'=' line) [
  | some pair ↦ some pair
  | none ↦ split_once b':' line
]

abbrev pub sensitive_keys : List Text
sensitive_keys =
    codes "api_key"
    ∷ codes "api-key"
    ∷ codes "secret_key"
    ∷ codes "secret-key"
    ∷ codes "access_token"
    ∷ codes "access-token"
    ∷ codes "auth_token"
    ∷ codes "auth-token"
    ∷ codes "password"
    ∷ []

abbrev pub placeholder_words : List Text
placeholder_words =
    codes "example"
    ∷ codes "placeholder"
    ∷ codes "changeme"
    ∷ codes "redacted"
    ∷ codes "<token>"
    ∷ codes "<secret>"
    ∷ codes "your_"
    ∷ codes "dummy"
    ∷ []

abbrev unquote : Text → Text
unquote value =
    trim_matches (λ c. c == b'`')
      (trim_matches (λ c. c == b'\'') (trim_matches (λ c. c == b'"') (trim value)))

unfoldable pub value_looks_real : Text → Bool
value_looks_real value =
    let bare = unquote value in
    if leb 8 (byte_len bare)
    then not (contains_any (to_ascii_lowercase bare) placeholder_words)
    else false

unfoldable pub is_secret_assignment : Text → Bool
unfolding split_assignment
is_secret_assignment line = elim (split_assignment line) [
  | none ↦ false
  | some (key, value) ↦
      contains_any (to_ascii_lowercase key) sensitive_keys && value_looks_real value
]

unfoldable pub contains_assignment_secret : Text → Bool
contains_assignment_secret text = any is_secret_assignment (lines text)

abbrev pub private_key_id : Text
private_key_id = codes "private-key"

abbrev pub aws_access_key_id : Text
aws_access_key_id = codes "aws-access-key-id"

abbrev pub github_token_id : Text
github_token_id = codes "github-token"

abbrev pub secret_assignment_id : Text
secret_assignment_id = codes "secret-assignment"

-- `if test { detectors.insert(id); }`
abbrev pub insert_if : Bool → Text → List Text → List Text
insert_if true id detectors = insert id detectors
insert_if false id detectors = detectors

unfoldable pub detect : Text → List SecretFinding
detect text =
    map (λ id. record { detector_id = id })
      (insert_if (contains_assignment_secret text) secret_assignment_id (
        insert_if (contains_github_token text) github_token_id (
          insert_if (contains_aws_access_key_id text) aws_access_key_id
            (insert_if (looks_like_private_key text) private_key_id []))))
