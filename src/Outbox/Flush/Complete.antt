-- ===== src/Outbox/Flush/Complete.antt =====
-- What follows the publication of an item: the archive beside the store, and the removal from the queue.
use hive_memory.Outbox.Flush.{
  show_error, Published, item_report, FlushItemReport, ItemCalls, Removal, OutboxMeta, FileCalls,
}
use hive_memory.AtomicWrite.Calls.{write_atomic}
use hive_memory.AtomicWrite.{Outcome, AtomicWriteOptions}
use hive_memory.Outbox.{OutboxError, AtomicWriteError, PublishResult}
use hive_memory.AtomicWrite.Files.{join, Disk, Bytes, FilePath}
use hive_memory.Base.{
  ◌||◌, ◌&&◌, if◌then◌else◌, false, true, Bool, Option, none, some, [], ◌∷◌, ◌++◌, inl, inr,
}
use hive_memory.Text.{Text, codes, same}

abbrev pub is_under : FilePath → FilePath → Bool
is_under [] path = true
is_under (c ∷ dir) [] = false
is_under (c ∷ dir) (d ∷ path) = same c d && is_under dir path

-- Whether a result stops the item, and with which message.
abbrev pub is_result : PublishResult → PublishResult → Bool
is_result PublishResult.hash_mismatch PublishResult.hash_mismatch = true
is_result PublishResult.conflict PublishResult.conflict = true
is_result PublishResult.already_present PublishResult.already_present = true
is_result PublishResult.written PublishResult.written = true
is_result _ _ = false

abbrev pub is_event : Option PublishResult → PublishResult → Bool
is_event none result = false
is_event (some event) result = is_result event result

abbrev pub event_present : Option PublishResult → Bool
event_present none = true
event_present (some event) = is_result event PublishResult.already_present

module _ (display : AtomicWriteError → Text) (display_path : FilePath → Text)
    (options : AtomicWriteOptions) where
  abbrev pub archived : FilePath → Outcome → Disk × Option OutboxError
  archived target (files, inl warnings) = (files, none)
  archived target (files, inr err) =
      (files, some (OutboxError.io (codes "write archive file") target (display err)))

  -- A source that is no file is passed over.
  abbrev pub archive_from :
      Option Text
      → Option Bytes
      → FilePath
      → FilePath
      → FileCalls
      → Disk
      → Disk × Option OutboxError
  archive_from fault none source target calls files = (files, none)
  archive_from (some message) (some contents) source target calls files =
      (files, some (OutboxError.io (codes "read archive source") source message))
  archive_from none (some contents) source target calls files =
      archived target (write_atomic calls.pid calls.uuid target contents options calls.faults files)

  unfoldable pub archive_file :
      FilePath → FilePath → Text → FileCalls → Disk → Disk × Option OutboxError
  archive_file item_dir archive name calls files =
      archive_from calls.read (files (join item_dir name)) (join item_dir name) (join archive name)
        calls files

  abbrev pub and_then :
      (Disk → Disk × Option OutboxError) → Disk × Option OutboxError → Disk × Option OutboxError
  and_then next (files, some err) = (files, some err)
  and_then next (files, none) = next files

  abbrev pub archive_event_file :
      Option Text → FilePath → FilePath → FileCalls → Disk → Disk × Option OutboxError
  archive_event_file none item_dir archive calls files = (files, none)
  archive_event_file (some path) item_dir archive calls files =
      archive_file item_dir archive (codes "event.json") calls files

  abbrev pub archive_into :
      Option Text → FilePath → FilePath → OutboxMeta → ItemCalls → Disk → Disk × Option OutboxError
  archive_into (some message) item_dir archive meta calls files =
      (files, some (OutboxError.io (codes "create outbox archive") archive message))
  archive_into none item_dir archive meta calls files =
      and_then
        (λ left.
          and_then
            (λ rest.
              archive_event_file meta.final_event_path item_dir archive calls.archive_event rest)
            (archive_file item_dir archive (codes "note.md") calls.archive_note left))
        (archive_file item_dir archive (codes "meta.toml") calls.archive_meta files)

  -- `date` is the day of the clock.
  unfoldable pub write_archive :
      Text → Text → FilePath → FilePath → OutboxMeta → ItemCalls → Disk → Disk × Option OutboxError
  write_archive host_id date store_root item_dir meta calls files =
      archive_into calls.archive_dir item_dir
        (store_root ++ codes ".outbox-archive" ∷ host_id ∷ date ∷ meta.id ∷ []) meta calls files

  abbrev pub reported : OutboxMeta → PublishResult → Option PublishResult → FlushItemReport
  reported meta note event =
      if is_result note PublishResult.already_present && event_present event
      then item_report meta (codes "skipped") (codes "payload already present")
      else item_report meta (codes "flushed") (codes "payload flushed")

  abbrev pub remove_item :
      FilePath
      → OutboxMeta
      → PublishResult
      → Option PublishResult
      → Removal
      → Disk
      → Disk × FlushItemReport
  remove_item item_dir meta note event Removal.removed files =
      ((λ p. if is_under item_dir p then none else files p), reported meta note event)
  remove_item item_dir meta note event (Removal.not_found gone) files = (
    (λ p. if is_under item_dir p && gone p then none else files p),
    item_report meta (codes "skipped") (codes "item already removed by another flush"),
  )
  remove_item item_dir meta note event (Removal.failing message gone) files = (
    (λ p. if is_under item_dir p && gone p then none else files p),
    item_report meta (codes "failed")
        (show_error display_path (OutboxError.io (codes "remove flushed item") item_dir message)),
  )

  abbrev pub after_archive :
      FilePath
      → OutboxMeta
      → PublishResult
      → Option PublishResult
      → Removal
      → Disk × Option OutboxError
      → Disk × FlushItemReport
  after_archive item_dir meta note event outcome (files, some err) =
      (files, item_report meta (codes "failed") (show_error display_path err))
  after_archive item_dir meta note event outcome (files, none) =
      remove_item item_dir meta note event outcome files

  abbrev pub complete_item :
      Text
      → Text
      → FilePath
      → FilePath
      → OutboxMeta
      → ItemCalls
      → Published
      → Disk × FlushItemReport
  complete_item host_id date store_root item_dir meta calls (files, inl report) = (files, report)
  complete_item host_id date store_root item_dir meta calls (files, inr (note, event)) =
      if is_result note PublishResult.hash_mismatch || is_event event PublishResult.hash_mismatch
      then (
        files,
        item_report meta (codes "failed") (codes "payload hash does not match outbox metadata"),
      )
      else if is_result note PublishResult.conflict || is_event event PublishResult.conflict
      then (
        files,
        item_report meta (codes "failed") (codes "final path exists with different content"),
      )
      else after_archive item_dir meta note event calls.removal
          (write_archive host_id date store_root item_dir meta calls files)
