-- ===== src/Classify/Signals.antt =====
-- src/signals.rs: the vocabulary and the date signal that writing and reading share.
use hive_memory.Base.{
  ℕ, ◌≡◌, Bool, true, false, ◌&&◌, ◌||◌, List, [], ◌∷◌, ◌==◌, any, if◌then◌else◌,
}
use hive_memory.Text.{
  Text, codes, contains, starts_with, is_ascii, is_ascii_digit, to_ascii_lowercase,
}

-- Lower case by the Unicode tables; on ASCII texts it is ASCII lower case.
pub record Unicode : Type 0 where
  pub to_lowercase : Text → Text
  pub on_ascii : (s : Text) → is_ascii s ≡ true → to_lowercase s ≡ to_ascii_lowercase s

abbrev pub operational_keywords : List Text
operational_keywords =
    codes "root cause"
    ∷ codes "postmortem"
    ∷ codes "cleanup"
    ∷ codes "freed"
    ∷ codes "leaked"
    ∷ codes "exhaustion"
    ∷ codes "regression"
    ∷ codes "hotfix"
    ∷ codes "emergency"
    ∷ codes "incident"
    ∷ codes "outage"
    ∷ codes "fixed"
    ∷ []

unfoldable pub reads_as_preference : Text → Bool
reads_as_preference lower =
    starts_with lower (codes "prefer ")
    || (starts_with lower (codes "when ") && contains lower (codes " prefer "))
    || contains lower (codes " prefers ")
    || starts_with lower (codes "always ")
    || contains lower (codes " always ")
    || starts_with lower (codes "never ")
    || contains lower (codes " never ")
    || starts_with lower (codes "use ")
    || starts_with lower (codes "avoid ")
    || contains lower (codes " avoid ")
    || starts_with lower (codes "add comments")
    || contains lower (codes " add comments")
    || (starts_with lower (codes "write ") && contains lower (codes "comments"))
    || starts_with lower (codes "do not ")
    || contains lower (codes " do not ")
    || starts_with lower (codes "don't ")
    || contains lower (codes " don't ")
    || contains lower (codes " wants coding agents ")
    || contains lower (codes " wants agents ")
    || contains lower (codes " wants the agent ")
    || contains lower (codes "agent should ")
    || contains lower (codes "agents should ")
    || contains lower (codes "coding agents should ")
    || contains lower (codes "default to ")

unfoldable pub looks_transient_status : Text → Bool
looks_transient_status lower =
    contains lower (codes "open/mergeable")
    || contains lower (codes "unmerged")
    || contains lower (codes "do not merge")
    || contains lower (codes "pending review")
    || contains lower (codes "pending owner review")
    || contains lower (codes "pending human review")

-- The tests of one window of ten, and all windows. The source looks at bytes; a byte of a character
-- outside ASCII is no digit and no dash, so windows of code points find the same dates.
abbrev pub fits : List (ℕ → Bool) → Text → Bool
fits [] s = true
fits (p ∷ ps) [] = false
fits (p ∷ ps) (c ∷ s) = p c && fits ps s

abbrev pub is_dash : ℕ → Bool
is_dash c = c == b'-'

abbrev pub iso_date : List (ℕ → Bool)
iso_date =
    is_ascii_digit ∷ is_ascii_digit ∷ is_ascii_digit ∷ is_ascii_digit ∷ is_dash ∷ is_ascii_digit
    ∷ is_ascii_digit ∷ is_dash ∷ is_ascii_digit ∷ is_ascii_digit ∷ []

unfoldable pub has_iso_date : Text → Bool
has_iso_date [] = false
has_iso_date (c ∷ s) = fits iso_date (c ∷ s) || has_iso_date s

unfoldable pub looks_operational : Unicode → Text → List Text → Bool
looks_operational u body keywords =
    if has_iso_date body
    then any (λ keyword. contains (u.to_lowercase body) (u.to_lowercase keyword)) keywords
    else false
