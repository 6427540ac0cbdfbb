-- ===== src/Outbox/Flush/Published.antt =====
-- When a queued item may leave the queue.
use hive_memory.Outbox.Flush.Complete.{complete_item}
use hive_memory.Outbox.Present.{publish_payload-Reports, Present, Reports}
use hive_memory.AtomicWrite.{AtomicWriteOptions}
use hive_memory.AtomicWrite.Files.{join, Disk, FilePath}
use hive_memory.Base.{◌≡◌, ◌⊎◌, inl, inr, refl, Bool, Option, none, some}
use hive_memory.Text.{Text, codes}
use hive_memory.Outbox.{OutboxError, AtomicWriteError, Bytes, PublishResult}
use hive_memory.Outbox.Flush.{
  read_file, note_published, publish_item, FlushItemReport, payload_of, event_published, Published,
  ItemCalls, OutboxMeta,
}

module _ (sha256 : Bytes → Text) (display : AtomicWriteError → Text) (rereadable : Bool)
    (display_path : FilePath → Text) (options : AtomicWriteOptions) where
  -- The publication of the note alone, and of both payloads.
  abbrev pub note_step :
      OutboxMeta → FilePath → FilePath → ItemCalls → Disk → Disk × (PublishResult ⊎ OutboxError)
  note_step meta item_dir store_root calls files =
      payload_of sha256 display rereadable display_path options (join item_dir (codes "note.md"))
        store_root meta.final_note_path meta.note_sha256 calls.note files

  abbrev pub both_steps :
      OutboxMeta → FilePath → FilePath → Option (Text × Text) → ItemCalls → Disk → Published
  both_steps meta item_dir store_root payload calls files =
      publish_item sha256 display rereadable display_path options meta item_dir store_root payload
        calls files

  abbrev pub EventPresent : FilePath → Option (Text × Text) → Disk → Type 0
  EventPresent store_root none files = Unit
  EventPresent store_root (some (path, hash)) files =
      Present sha256 display rereadable store_root path hash files

  -- What a publication says of its payload.
  abbrev Says : FilePath → Text → Text → Disk → PublishResult → Type 0
  Says store_root path hash files result =
      Reports sha256 display rereadable store_root path hash (files, inl result)

  abbrev EventSays : FilePath → Option (Text × Text) → Disk → Option PublishResult → Type 0
  EventSays store_root none files event = event ≡ none
  EventSays store_root (some (path, hash)) files none = ⊥
  EventSays store_root (some (path, hash)) files (some result) =
      Says store_root path hash files result

  -- Nothing but the publication has happened, or both payloads are in the store.
  abbrev pub IsSettled : OutboxMeta → FilePath → Option (Text × Text) → Disk → Disk → Disk → Type 0
  IsSettled meta store_root payload noted published final =
      (final ≡ published)
      ⊎ (Present sha256 display rereadable store_root meta.final_note_path meta.note_sha256 noted
          × EventPresent store_root payload published)

  module _ (host_id date : Text) (store_root item_dir : FilePath) (meta : OutboxMeta)
      (calls : ItemCalls) where
    abbrev pub completed : Published → Disk × FlushItemReport
    completed p =
        complete_item display display_path options host_id date store_root item_dir meta calls p

    event_said :
        (payload : Option (Text × Text)) (noted files : Disk) (note : PublishResult)
        (event : Option PublishResult)
        → Present sha256 display rereadable store_root meta.final_note_path meta.note_sha256 noted
        → EventSays store_root payload files event
        → IsSettled meta store_root payload noted files (completed (files, inr (note, event))).0
    event_said none noted files note event p e = inr (p, tt)
    event_said (some (path, hash)) noted files note none p e = absurd e
    event_said (some (path, hash)) noted files note (some PublishResult.written) p e = inr (p, e)
    event_said (some (path, hash)) noted files note (some PublishResult.already_present) p e =
        inr (p, e)
    event_said (some (path, hash)) noted files PublishResult.written
          (some PublishResult.hash_mismatch) p e =
        inl refl
    event_said (some (path, hash)) noted files PublishResult.already_present
          (some PublishResult.hash_mismatch) p e =
        inl refl
    event_said (some (path, hash)) noted files PublishResult.hash_mismatch
          (some PublishResult.hash_mismatch) p e =
        inl refl
    event_said (some (path, hash)) noted files PublishResult.conflict
          (some PublishResult.hash_mismatch) p e =
        inl refl
    event_said (some (path, hash)) noted files PublishResult.written (some PublishResult.conflict) p
          e =
        inl refl
    event_said (some (path, hash)) noted files PublishResult.already_present
          (some PublishResult.conflict) p e =
        inl refl
    event_said (some (path, hash)) noted files PublishResult.hash_mismatch
          (some PublishResult.conflict) p e =
        inl refl
    event_said (some (path, hash)) noted files PublishResult.conflict (some PublishResult.conflict)
          p e =
        inl refl

    conflicting :
        (payload : Option (Text × Text)) (noted files : Disk) (event : Option PublishResult)
        → IsSettled meta store_root payload noted files
            (completed (files, inr (PublishResult.conflict, event))).0
    conflicting payload noted files none = inl refl
    conflicting payload noted files (some PublishResult.written) = inl refl
    conflicting payload noted files (some PublishResult.already_present) = inl refl
    conflicting payload noted files (some PublishResult.hash_mismatch) = inl refl
    conflicting payload noted files (some PublishResult.conflict) = inl refl

    note_said :
        (payload : Option (Text × Text)) (noted files : Disk) (note : PublishResult)
        (event : Option PublishResult)
        → Says store_root meta.final_note_path meta.note_sha256 noted note
        → EventSays store_root payload files event
        → IsSettled meta store_root payload noted files (completed (files, inr (note, event))).0
    note_said payload noted files PublishResult.written event p e =
        event_said payload noted files PublishResult.written event p e
    note_said payload noted files PublishResult.already_present event p e =
        event_said payload noted files PublishResult.already_present event p e
    note_said payload noted files PublishResult.hash_mismatch event p e = inl refl
    note_said payload noted files PublishResult.conflict event p e =
        conflicting payload noted files event

    event_step-IsSettled :
        (path hash : Text) (noted : Disk) (note : PublishResult)
        (r : Disk × (PublishResult ⊎ OutboxError))
        → Says store_root meta.final_note_path meta.note_sha256 noted note
        → Reports sha256 display rereadable store_root path hash r
        → IsSettled meta store_root
            (some (path, hash))
            noted
            (event_published sha256 display rereadable display_path options meta note r).0
            (completed
              (event_published sha256 display rereadable display_path options meta note r)).0
    event_step-IsSettled path hash noted note (files, inr err) p e = inl refl
    event_step-IsSettled path hash noted note (files, inl result) p e =
        note_said (some (path, hash)) noted files note (some result) p e

    note_step-IsSettled :
        (payload : Option (Text × Text)) (r : Disk × (PublishResult ⊎ OutboxError))
        → Reports sha256 display rereadable store_root meta.final_note_path meta.note_sha256 r
        → IsSettled meta store_root payload r.0
            (note_published sha256 display rereadable display_path options meta item_dir store_root
              payload calls r).0
            (completed (
              note_published sha256 display rereadable display_path options meta item_dir store_root
                payload calls r)).0
    note_step-IsSettled payload (files, inr err) p = inl refl
    note_step-IsSettled none (files, inl note) p = note_said none files files note none p refl
    note_step-IsSettled (some (path, hash)) (files, inl note) p =
        event_step-IsSettled path hash files note
          (payload_of sha256 display rereadable display_path options
            (join item_dir (codes "event.json")) store_root path hash calls.event files)
          p
          (publish_payload-Reports sha256 display rereadable
            (read_file calls.event.read (files (join item_dir (codes "event.json"))))
            calls.event.read_final (join item_dir (codes "event.json")) store_root path hash
            calls.event.pid calls.event.uuid options calls.event.faults files)

    pub completed-IsSettled :
        (payload : Option (Text × Text)) (files : Disk)
        → IsSettled meta store_root payload
            (note_step meta item_dir store_root calls files).0
            (both_steps meta item_dir store_root payload calls files).0
            (completed (both_steps meta item_dir store_root payload calls files)).0
    unfolding publish_item
    completed-IsSettled payload files =
        note_step-IsSettled payload (note_step meta item_dir store_root calls files) (
          publish_payload-Reports sha256 display rereadable
            (read_file calls.note.read (files (join item_dir (codes "note.md"))))
            calls.note.read_final (join item_dir (codes "note.md")) store_root meta.final_note_path
            meta.note_sha256 calls.note.pid calls.note.uuid options calls.note.faults files)
