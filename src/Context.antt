-- ===== src/Context.antt =====
-- Context assembly (src/context.rs): which memories are rendered for an agent, how they are escaped, and
-- the budgets of the result. Sizes are natural numbers: no sum reaches the end of `usize`.
pub mod Escape
pub mod Render
pub mod Subset
pub mod Policy
pub mod Request
pub mod Assembly
use hive_memory.Base.{ℕ, ◌+◌, ◌/◌, Option, Bool, List, [], ◌∷◌, leb, ◌==◌, ◌||◌, if◌then◌else◌}
use hive_memory.Text.{Text, codes, byte_len, char_len}

pub data TrustLevel : Type 0 where
  curated remembered raw : TrustLevel

-- `TrustLevel::as_str`.
unfoldable pub trust_str : TrustLevel → Text
trust_str TrustLevel.curated = codes "curated"
trust_str TrustLevel.remembered = codes "remembered"
trust_str TrustLevel.raw = codes "raw"

pub record ContextSection : Type 0 where
  pub id : Text
  pub store : Text
  pub scope : Text
  pub project_id : Option Text
  pub trust : TrustLevel
  pub audience : List Text
  pub source_path : Text
  pub body : Text
  pub block : Text
  pub estimated_tokens : ℕ

pub record ContextDecision : Type 0 where
  pub id : Text
  pub source_path : Text
  pub action : Text
  pub reason : Text

pub record ContextWarning : Type 0 where
  pub source_path : Text
  pub message : Text

pub record ContextOutput : Type 0 where
  pub markdown : Text
  pub sections : List ContextSection
  pub decisions : List ContextDecision
  pub estimated_tokens : ℕ
  pub warnings : List ContextWarning

-- `len().div_ceil(4)`.
unfoldable pub estimate_tokens : Text → ℕ
estimate_tokens text = (byte_len text + 3) / 4

pub data SizeMeasure : Type 0 where
  bytes json_string : SizeMeasure

-- The size of one character in a JSON string.
abbrev pub json_len : ℕ → ℕ
json_len ch =
    if ch == b'"' || ch == b'\\' || ch == 10 || ch == 13 || ch == 9 || ch == 8 || ch == 12
    then 2
    else if leb ch 0x1F || ch == 0x7F
    then 6
    else char_len ch

abbrev pub json_size : Text → ℕ
json_size [] = 0
json_size (ch ∷ text) = json_len ch + json_size text

-- `SizeMeasure::of`.
unfoldable pub size_of : SizeMeasure → Text → ℕ
size_of SizeMeasure.bytes text = byte_len text
size_of SizeMeasure.json_string text = json_size text

pub record SizeLimit : Type 0 where
  pub max : ℕ
  pub alone_max : ℕ
  pub measure : SizeMeasure
  pub raw_max : ℕ
