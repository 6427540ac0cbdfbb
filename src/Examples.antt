-- ===== src/Examples.antt =====
-- Concrete records and runs of the modelled code.
mod Links
mod Texts
mod Classes
mod Writes
mod Contexts
mod Hooks
mod Queue
use hive_memory.Base.{String, Option, none, some, List, [], ◌∷◌}
use hive_memory.Base.Int.{ℤ, pos}
use hive_memory.Text.{Text, codes}
use hive_memory.Record.{EntryKind, Confidence, IndexEntry}

-- A record of the user's scope; the fields that the examples do not look at are empty.
abbrev pub record_of : String → String → String → List Text → IndexEntry
record_of id created_at body supersedes = record {
  id = codes id;
  store_id = codes "default";
  entry_kind = EntryKind.remember;
  scope = codes "user";
  project_id = none;
  audience = [];
  tags = [];
  subject = none;
  confidence = Confidence.medium;
  valid_from = none;
  valid_to = none;
  supersedes = supersedes;
  kind = none;
  entities = [];
  classified = none;
  agent_id = codes "agent";
  host_id = codes "host";
  created_at = codes created_at;
  body = codes body;
  note_path = codes "note.md";
  event_path = none;
}

-- A clock for the examples: the first character of a time.
abbrev pub first_char : Text → Option ℤ
first_char [] = none
first_char (c ∷ s) = some (pos c)
