-- ===== src/Record.antt =====
-- One row of the index (src/index.rs), with the enumerations of the note schema (src/note.rs) that
-- it holds.
use hive_memory.Base.{List, Option, ℕ, Bool, true, false}
use hive_memory.Text.{Text, codes}

pub data EntryKind : Type 0 where
  remember note : EntryKind

pub data MemoryKind : Type 0 where
  preference project_fact incident reference : MemoryKind

pub data Confidence : Type 0 where
  low medium high : Confidence

pub data ClassifierSource : Type 0 where
  llm manual : ClassifierSource

pub record ClassifiedBy : Type 0 where
  pub source : ClassifierSource
  pub backend : Option Text
  pub at : Text
  pub verdict_version : ℕ
  pub confidence : Option Text

pub record IndexEntry : Type 0 where
  pub id : Text
  pub store_id : Text
  pub entry_kind : EntryKind
  pub scope : Text
  pub project_id : Option Text
  pub audience : List Text
  pub tags : List Text
  pub subject : Option Text
  pub confidence : Confidence
  pub valid_from : Option Text
  pub valid_to : Option Text
  pub supersedes : List Text
  pub kind : Option MemoryKind
  pub entities : List Text
  pub classified : Option ClassifiedBy
  pub agent_id : Text
  pub host_id : Text
  pub created_at : Text
  pub body : Text
  pub note_path : Text
  pub event_path : Option Text

-- `kind_label` of src/note.rs.
unfoldable pub kind_label : MemoryKind → Text
kind_label MemoryKind.preference = codes "preference"
kind_label MemoryKind.project_fact = codes "project-fact"
kind_label MemoryKind.incident = codes "incident"
kind_label MemoryKind.reference = codes "reference"

abbrev pub is_remember : EntryKind → Bool
is_remember EntryKind.remember = true
is_remember EntryKind.note = false
