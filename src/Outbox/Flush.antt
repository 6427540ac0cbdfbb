-- ===== src/Outbox/Flush.antt =====
-- The flush of queued writes (src/outbox.rs). What the file system answers in one item is an argument:
-- the readings, the manifest of the store, the faults of each write and the removal. TOML, the clock
-- and the printing of paths are parameters.
pub mod Complete
pub mod Item
pub mod Published
pub mod Settled
use hive_memory.AtomicWrite.Calls.{write_atomic}
use hive_memory.Ident.Decimal.{decimal}
use hive_memory.AtomicWrite.{Outcome, AtomicWriteOptions}
use hive_memory.Outbox.{publish_payload, OutboxError, AtomicWriteError, PublishResult}
use hive_memory.AtomicWrite.Files.{join, Disk, parent, file_name, Bytes, Faults, FilePath}
use hive_memory.Base.{
  ◌||◌, ◌==◌, ◌&&◌, if◌then◌else◌, false, true, ℕ, ◌+◌, Bool, Option, none, some, List, [], ◌∷◌,
  ◌++◌, ◌⊎◌, inl, inr,
}
use hive_memory.Text.{Text, codes, same}

pub data OutboxState : Type 0 where
  pending unbound : OutboxState

pub record OutboxMeta : Type 0 where
  pub schema_version : ℕ
  pub id : Text
  pub store : Text
  pub expected_store_id : Option Text
  pub final_note_path : Text
  pub note_sha256 : Text
  pub final_event_path : Option Text
  pub event_sha256 : Option Text
  pub created_at : Text
  pub attempt_count : ℕ
  pub last_error : Option Text
  pub state : OutboxState

pub record FlushItemReport : Type 0 where
  pub id : Text
  pub store : Text
  pub state : Text
  pub result : Text
  pub message : Text

pub record FlushReport : Type 0 where
  pub flushed : ℕ
  pub skipped : ℕ
  pub failed : ℕ
  pub unbound : ℕ
  pub pending : ℕ
  pub items : List FlushItemReport

abbrev pub outbox_schema_version : ℕ
outbox_schema_version = 1

abbrev pub state_name : OutboxState → Text
state_name OutboxState.pending = codes "pending"
state_name OutboxState.unbound = codes "unbound"

unfoldable pub item_report : OutboxMeta → Text → Text → FlushItemReport
item_report meta result message = record {
  id = meta.id;
  store = meta.store;
  state = state_name meta.state;
  result = result;
  message = message;
}

abbrev pub or_empty : Option Text → Text
or_empty none = []
or_empty (some name) = name

abbrev pub parent_name : Option FilePath → Text
parent_name none = []
parent_name (some dir) = or_empty (file_name dir)

unfoldable pub path_item_report : FilePath → Text → Text → FlushItemReport
path_item_report item_dir result message = record {
  id = or_empty (file_name item_dir);
  store = parent_name (parent item_dir);
  state = codes "unknown";
  result = result;
  message = message;
}

-- `read_meta`: the reading of the file, and the outcome of the TOML parser.
unfoldable pub read_meta : FilePath → Text ⊎ (Text ⊎ OutboxMeta) → OutboxError ⊎ OutboxMeta
read_meta path (inl message) = inl (OutboxError.io (codes "read outbox metadata") path message)
read_meta path (inr (inl message)) = inl (OutboxError.parse_meta path message)
read_meta path (inr (inr meta)) =
    if meta.schema_version == outbox_schema_version
    then inr meta
    else inl (OutboxError.unsupported_schema path meta.schema_version)

-- The reading of a payload, by its fault and by what is there.
abbrev pub read_file : Option Text → Option Bytes → Bytes ⊎ Text
read_file (some message) held = inr message
read_file none none = inr (codes "not found")
read_file none (some contents) = inl contents

-- One publication or archive write: the faults of its readings and of its write.
pub record FileCalls : Type 0 where
  pub read : Option Text
  pub read_final : Option Text
  pub pid : ℕ
  pub uuid : Text
  pub faults : Faults

-- `remove_dir_all`: what a failed removal has removed before it failed, be it that another flush
-- removes the item at the same time.
pub data Removal : Type 0 where
  removed : Removal
  not_found : (FilePath → Bool) → Removal
  failing : Text → (FilePath → Bool) → Removal

pub record ItemCalls : Type 0 where
  pub meta : Text ⊎ (Text ⊎ OutboxMeta)
  pub meta_gone : Bool
  pub note : FileCalls
  pub event : FileCalls
  pub archive_dir : Option Text
  pub archive_meta : FileCalls
  pub archive_note : FileCalls
  pub archive_event : FileCalls
  pub removal : Removal

module _ (display_path : FilePath → Text) where
  -- `Display` of an error.
  unfoldable pub show_error : OutboxError → Text
  show_error (OutboxError.io action path message) =
      codes "failed to "
      ++ (action ++ (codes " " ++ (display_path path ++ (codes ": " ++ message))))
  show_error (OutboxError.parse_meta path message) =
      codes "failed to parse outbox metadata " ++ (display_path path ++ (codes ": " ++ message))
  show_error (OutboxError.render_meta message) =
      codes "failed to render outbox metadata: " ++ message
  show_error (OutboxError.bind message) = codes "failed to bind outbox item: " ++ message
  show_error (OutboxError.parse_identity_cache message) =
      codes "failed to parse store identity cache: " ++ message
  show_error (OutboxError.render_identity_cache message) =
      codes "failed to render store identity cache: " ++ message
  show_error (OutboxError.unsupported_schema path version) =
      codes "unsupported outbox schema_version "
      ++ (decimal version ++ (codes " in " ++ display_path path))

abbrev pub Published : Type 0
Published = Disk × (FlushItemReport ⊎ (PublishResult × Option PublishResult))

module _ (sha256 : Bytes → Text) (display : AtomicWriteError → Text) (rereadable : Bool)
    (display_path : FilePath → Text) (options : AtomicWriteOptions) where
  abbrev pub payload_of :
      FilePath → FilePath → Text → Text → FileCalls → Disk → Disk × (PublishResult ⊎ OutboxError)
  payload_of source store_root path hash calls files =
      publish_payload sha256 display rereadable (read_file calls.read (files source))
        calls.read_final source store_root path hash calls.pid calls.uuid options calls.faults files

  abbrev pub event_published :
      OutboxMeta → PublishResult → Disk × (PublishResult ⊎ OutboxError) → Published
  event_published meta note (files, inr err) =
      (files, inl (item_report meta (codes "failed") (show_error display_path err)))
  event_published meta note (files, inl event) = (files, inr (note, some event))

  abbrev pub note_published :
      OutboxMeta
      → FilePath
      → FilePath
      → Option (Text × Text)
      → ItemCalls
      → Disk × (PublishResult ⊎ OutboxError)
      → Published
  note_published meta item_dir store_root payload calls (files, inr err) =
      (files, inl (item_report meta (codes "failed") (show_error display_path err)))
  note_published meta item_dir store_root none calls (files, inl note) = (files, inr (note, none))
  note_published meta item_dir store_root (some (path, hash)) calls (files, inl note) =
      event_published meta note
        (payload_of (join item_dir (codes "event.json")) store_root path hash calls.event files)

  -- The publication of both payloads.
  unfoldable pub publish_item :
      OutboxMeta → FilePath → FilePath → Option (Text × Text) → ItemCalls → Disk → Published
  publish_item meta item_dir store_root payload calls files =
      note_published meta item_dir store_root payload calls (
        payload_of (join item_dir (codes "note.md")) store_root meta.final_note_path
          meta.note_sha256 calls.note files)
