-- ===== src/Capture.antt =====
-- Capture (src/capture.rs): the candidate facts of a model's answer, and those of them that are safe
-- to stage. The model's answer is any text, and the JSON parser is a parameter.
pub mod Filtering
use hive_memory.Base.{
  ℕ, ◌≤◌, ◌≡◌, ◌≢◌, ◌⊎◌, inl, inr, refl, Bool, true, false, ◌&&◌, not, Option, none, some, List, [],
  ◌∷◌, leb, length, is_empty, filter, filter_map, if◌then◌else◌,
}
use hive_memory.Text.{Text, trim, find_from}
use hive_memory.Text.Sets.{member, insert}
use hive_memory.Secret.{detect}
use hive_memory.Json.{Json}

abbrev pub max_fact_chars : ℕ
max_fact_chars = 280

-- The three tests of the first filter.
unfoldable pub is_stageable : Text → Bool
is_stageable candidate =
    not (is_empty candidate) && leb (length candidate) max_fact_chars && is_empty (detect candidate)

-- The chain of adapters, with the set of the candidates that were let through.
unfoldable pub filter_from : List Text → List Text → List Text
filter_from seen [] = []
filter_from seen (candidate ∷ candidates) =
    let text = trim candidate in
    let taken = text ∷ filter_from (insert text seen) candidates in
    let left = filter_from seen candidates in
    if is_stageable text && not (member text seen) then taken else left

unfoldable pub filter_candidates : List Text → List Text
unfolding filter_from
filter_candidates candidates = filter_from [] candidates

module _ (j : Json) where
  abbrev trimmed_str : j.Value → Option Text
  trimmed_str item = elim (j.as_str item) [ none ↦ none | some text ↦ some (trim text) ]

  abbrev candidate_texts : Option (List j.Value) → List Text
  candidate_texts none = []
  candidate_texts (some items) = filter (λ text. not (is_empty text)) (filter_map trimmed_str items)

  unfoldable pub parse_candidates : Text → List Text
  parse_candidates stdout = elim (find_from b'[' stdout) [
    | none ↦ []
    | some rest ↦ elim (j.first_value rest) [
      | none ↦ []
      | some value ↦ candidate_texts (j.as_array value)
    ]
  ]

  -- `extract`, with the outcome of the backend's call as an argument.
  unfoldable pub extract : {E : Type 0} → Text ⊎ E → List Text ⊎ E
  extract (inl raw) = inl (filter_candidates (parse_candidates raw))
  extract (inr err) = inr err
