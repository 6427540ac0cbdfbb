-- ===== src/Examples/Queue.antt =====
-- A flush of one queued note.
use hive_memory.Outbox.Flush.Complete.{archive_file, write_archive}
use hive_memory.AtomicWrite.{
  sync_parent, copy_temp_create_new, publish_temp, write_temp_then_publish,
}
use hive_memory.AtomicWrite.Calls.{write_atomic, write_atomic_create_new}
use hive_memory.Outbox.{validate_relative_path, publish_payload}
use hive_memory.Examples.Writes.{best_effort, no_links}
use hive_memory.Outbox.Flush.Settled.{flush_item-Settled, ItemSettled}
use hive_memory.AtomicWrite.Files.{erase, write_at, arrive, parent, join, same_path, FilePath, Disk}
use hive_memory.Outbox.Flush.Item.{flush_item, FlushInput}
use hive_memory.Base.{if◌then◌else◌, ◌≡◌, ◌⊎◌, inr, refl, true, false, none, some, [], ◌∷◌}
use hive_memory.Text.{words, same, codes}
use hive_memory.Outbox.Flush.{
  item_report, publish_item, FlushItemReport, Removal, FileCalls, read_meta, OutboxState, ItemCalls,
  OutboxMeta,
}

abbrev item_dir : FilePath
item_dir = codes "outbox" ∷ codes "s" ∷ codes "i" ∷ []

-- The hash of the example is the payload itself.
abbrev queued_meta : OutboxMeta
queued_meta = record {
  schema_version = 1;
  id = codes "i";
  store = codes "s";
  expected_store_id = some (codes "st");
  final_note_path = codes "n.md";
  note_sha256 = codes "hello";
  final_event_path = none;
  event_sha256 = none;
  created_at = codes "1";
  attempt_count = 0;
  last_error = none;
  state = OutboxState.pending;
}

abbrev queue : Disk
queue = λ p. if same_path (join item_dir (codes "note.md")) p then some (codes "hello") else none

abbrev calm_file : FileCalls
calm_file = record { read = none; read_final = none; pid = 7; uuid = codes "u"; faults = no_links }

abbrev calm_item : ItemCalls
calm_item = record {
  meta = inr (inr queued_meta);
  meta_gone = false;
  note = calm_file;
  event = calm_file;
  archive_dir = none;
  archive_meta = calm_file;
  archive_note = calm_file;
  archive_event = calm_file;
  removal = Removal.removed;
}

abbrev one_store : FlushInput
one_store = record {
  stores = (codes "s", codes "store" ∷ []) ∷ [];
  manifest = λ root. inr (codes "st");
  host_id = codes "h";
  date = codes "2025-01-02";
}

abbrev flushed : Disk × FlushItemReport
flushed =
    flush_item (λ bytes. bytes) (λ err. codes "error") true (λ path. []) best_effort one_store
      item_dir calm_item queue

is_flushed : flushed.1.result ≡ codes "flushed"
unfolding flush_item read_meta same publish_item publish_payload same_path validate_relative_path
    words write_atomic_create_new parent write_temp_then_publish publish_temp copy_temp_create_new
    arrive write_at sync_parent write_archive archive_file erase write_atomic item_report
is_flushed = refl

now_stored : flushed.0 (codes "store" ∷ codes "n.md" ∷ []) ≡ some (codes "hello")
unfolding flush_item read_meta same publish_item publish_payload same_path validate_relative_path
    words write_atomic_create_new parent write_temp_then_publish publish_temp copy_temp_create_new
    arrive write_at sync_parent write_archive archive_file erase write_atomic
now_stored = refl

now_gone : flushed.0 (join item_dir (codes "note.md")) ≡ none
unfolding flush_item read_meta same publish_item publish_payload same_path validate_relative_path
    words write_atomic_create_new parent write_temp_then_publish publish_temp copy_temp_create_new
    arrive write_at sync_parent write_archive archive_file erase write_atomic
now_gone = refl

flush_item-Settled_example :
    (flushed.0 ≡ queue)
    ⊎ ((meta : OutboxMeta) × (read_meta (join item_dir (codes "meta.toml")) calm_item.meta
          ≡ inr meta)
        × ItemSettled
            (λ bytes. bytes)
            (λ err. codes "error")
            true
            (λ path. [])
            best_effort
            one_store
            item_dir
            calm_item
            queue
            meta
            flushed.0)
flush_item-Settled_example =
    flush_item-Settled (λ bytes. bytes) (λ err. codes "error") true (λ path. []) best_effort
      one_store item_dir calm_item queue
