-- ===== src/Outbox/Flush/Item.antt =====
-- `flush_item` and the loop of `flush`. The manifests of the stores are an argument: an id, or an error.
use hive_memory.Outbox.Flush.Complete.{complete_item}
use hive_memory.Outbox.{OutboxError}
use hive_memory.AtomicWrite.Files.{join, Disk}
use hive_memory.AtomicWrite.{AtomicWriteOptions}
use hive_memory.Text.Maps.{get, TextMap}
use hive_memory.Base.{
  not, true, false, if◌then◌else◌, ℕ, ◌+◌, Bool, Option, none, some, List, [], ◌∷◌, ◌++◌, ◌⊎◌, inl,
  inr,
}
use hive_memory.Text.{Text, codes, same}
use hive_memory.Outbox.Flush.{
  publish_item, show_error, path_item_report, item_report, read_meta, ItemCalls, FilePath,
  AtomicWriteError, FlushItemReport, FlushReport, OutboxState, Bytes, OutboxMeta,
}

-- The arguments of a flush: the roots of the stores, the host and the day of the clock.
pub record FlushInput : Type 0 where
  pub stores : TextMap FilePath
  pub manifest : FilePath → Text ⊎ Text
  pub host_id : Text
  pub date : Text

-- The path and the hash of the event: both, or neither.
abbrev pub event_payload : Option Text → Option Text → Option (Option (Text × Text))
event_payload (some path) (some hash) = some (some (path, hash))
event_payload none none = some none
event_payload none (some hash) = none
event_payload (some path) none = none

abbrev pub is_unbound : OutboxState → Bool
is_unbound OutboxState.pending = false
is_unbound OutboxState.unbound = true

abbrev pub count_if : Text → Text → ℕ → ℕ
count_if name result n = if same result name then n + 1 else n

-- One round of the loop of `flush`.
abbrev pub count_item : FlushItemReport → FlushReport → FlushReport
count_item item report = record {
  flushed = count_if (codes "flushed") item.result report.flushed;
  skipped = count_if (codes "skipped") item.result report.skipped;
  failed = count_if (codes "failed") item.result report.failed;
  unbound = count_if (codes "unbound") item.result report.unbound;
  pending = count_if (codes "pending") item.result report.pending;
  items = report.items ++ item ∷ [];
}

abbrev pub default_report : FlushReport
default_report = record {
  flushed = 0;
  skipped = 0;
  failed = 0;
  unbound = 0;
  pending = 0;
  items = [];
}

module _ (sha256 : Bytes → Text) (display : AtomicWriteError → Text) (rereadable : Bool)
    (display_path : FilePath → Text) (options : AtomicWriteOptions) where
  abbrev pub with_payload :
      FlushInput
      → FilePath
      → FilePath
      → OutboxMeta
      → ItemCalls
      → Disk
      → Option (Option (Text × Text))
      → Disk × FlushItemReport
  with_payload input store_root item_dir meta calls files none =
      (files, item_report meta (codes "failed") (codes "event path/hash metadata is incomplete"))
  with_payload input store_root item_dir meta calls files (some payload) =
      complete_item display display_path options input.host_id input.date store_root item_dir meta
        calls
        (publish_item sha256 display rereadable display_path options meta item_dir store_root
          payload calls files)

  abbrev pub with_manifest :
      FlushInput
      → FilePath
      → Text
      → FilePath
      → OutboxMeta
      → ItemCalls
      → Disk
      → Text ⊎ Text
      → Disk × FlushItemReport
  with_manifest input item_dir expected store_root meta calls files (inl message) =
      (files, item_report meta (codes "pending") (codes "target store is unavailable: " ++ message))
  with_manifest input item_dir expected store_root meta calls files (inr store_id) =
      if not (same store_id expected)
      then (
        files,
        item_report meta (codes "failed")
            (codes "target store manifest id does not match outbox metadata"),
      )
      else with_payload input store_root item_dir meta calls files
          (event_payload meta.final_event_path meta.event_sha256)

  abbrev pub with_store :
      FlushInput
      → FilePath
      → Text
      → OutboxMeta
      → ItemCalls
      → Disk
      → Option FilePath
      → Disk × FlushItemReport
  with_store input item_dir expected meta calls files none =
      (files, item_report meta (codes "failed") (codes "target store is not configured"))
  with_store input item_dir expected meta calls files (some store_root) =
      with_manifest input item_dir expected store_root meta calls files (input.manifest store_root)

  abbrev pub with_expected :
      FlushInput → FilePath → OutboxMeta → ItemCalls → Disk → Option Text → Disk × FlushItemReport
  with_expected input item_dir meta calls files none =
      (files, item_report meta (codes "unbound") (codes "item has no expected store id"))
  with_expected input item_dir meta calls files (some expected) =
      with_store input item_dir expected meta calls files (get meta.store input.stores)

  abbrev pub with_meta :
      FlushInput → FilePath → ItemCalls → Disk → OutboxError ⊎ OutboxMeta → Disk × FlushItemReport
  with_meta input item_dir calls files (inl err) =
      if calls.meta_gone
      then (
        files,
        path_item_report item_dir (codes "skipped") (codes "item already removed by another flush"),
      )
      else (files, path_item_report item_dir (codes "failed") (show_error display_path err))
  with_meta input item_dir calls files (inr meta) =
      if is_unbound meta.state
      then (files, item_report meta (codes "unbound") (codes "item requires explicit binding"))
      else with_expected input item_dir meta calls files meta.expected_store_id

  unfoldable pub flush_item : FlushInput → FilePath → ItemCalls → Disk → Disk × FlushItemReport
  flush_item input item_dir calls files =
      with_meta input item_dir calls files
        (read_meta (join item_dir (codes "meta.toml")) calls.meta)

  abbrev pub flush_next :
      (FlushReport → Disk → Disk × FlushReport)
      → FlushReport
      → Disk × FlushItemReport
      → Disk × FlushReport
  flush_next next report (files, item) = next (count_item item report) files

  -- The items in the order of their directories, with the calls of each.
  unfoldable pub flush_items :
      FlushInput → List (FilePath × ItemCalls) → FlushReport → Disk → Disk × FlushReport
  unfolding flush_item
  flush_items input [] report files = (files, report)
  flush_items input ((item_dir, calls) ∷ items) report files =
      flush_next (λ counted left. flush_items input items counted left) report
        (flush_item input item_dir calls files)

  -- The outcome of the scan: an error, a missing directory, or the items.
  unfoldable pub flush :
      FlushInput
      → FilePath
      → Text ⊎ Option (List (FilePath × ItemCalls))
      → Disk
      → Disk × (OutboxError ⊎ FlushReport)
  unfolding flush_items
  flush input outbox_root (inl message) files =
      (files, inl (OutboxError.io (codes "scan outbox") outbox_root message))
  flush input outbox_root (inr none) files = (files, inr default_report)
  flush input outbox_root (inr (some items)) files =
      let (left, report) = flush_items input items default_report files in (left, inr report)
