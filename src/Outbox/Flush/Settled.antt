-- ===== src/Outbox/Flush/Settled.antt =====
-- What a flush of one item has done.
use hive_memory.Outbox.Flush.Published.{both_steps, note_step, IsSettled, completed-IsSettled}
use hive_memory.Text.Maps.{get}
use hive_memory.Outbox.Flush.Item.{
  is_unbound, with_payload, event_payload, with_manifest, with_store, with_expected, with_meta,
  flush_item, FlushInput,
}
use hive_memory.AtomicWrite.{AtomicWriteOptions}
use hive_memory.AtomicWrite.Files.{join, Disk, FilePath}
use hive_memory.Base.{Bool-cases, ◌≡◌, ◌⊎◌, inl, inr, refl, Bool, Option, none, some}
use hive_memory.Text.{same, Text, codes}
use hive_memory.Outbox.{OutboxError, AtomicWriteError, Bytes}
use hive_memory.Outbox.Flush.{read_meta, ItemCalls, OutboxMeta}

module _ (sha256 : Bytes → Text) (display : AtomicWriteError → Text) (rereadable : Bool)
    (display_path : FilePath → Text) (options : AtomicWriteOptions) where
  module _ (input : FlushInput) (item_dir : FilePath) (calls : ItemCalls) (files : Disk) where
    -- The item that the metadata describes is settled.
    abbrev pub ItemSettled : OutboxMeta → Disk → Type 0
    ItemSettled meta final =
        (store_root : FilePath) × (payload : Option (Text × Text)) × (get meta.store input.stores
          ≡ some store_root)
        × (event_payload meta.final_event_path meta.event_sha256 ≡ some payload)
        × IsSettled sha256 display rereadable display_path options meta store_root payload
            (note_step sha256 display rereadable display_path options meta item_dir store_root calls
              files).0
            (both_steps sha256 display rereadable display_path options meta item_dir store_root
              payload calls files).0
            final

    payload-Settled :
        (meta : OutboxMeta) (store_root : FilePath) (payload : Option (Option (Text × Text)))
        → get meta.store input.stores ≡ some store_root
        → event_payload meta.final_event_path meta.event_sha256 ≡ payload
        → let final =
            (with_payload sha256 display rereadable display_path options input store_root item_dir
              meta calls files payload).0 in
          (final ≡ files) ⊎ ItemSettled meta final
    payload-Settled meta store_root none g e = inl refl
    payload-Settled meta store_root (some payload) g e = inr (
      store_root,
      payload,
      g,
      e,
      completed-IsSettled sha256 display rereadable display_path options input.host_id input.date
          store_root item_dir meta calls payload files,
    )

    manifest-Settled :
        (meta : OutboxMeta) (expected : Text) (store_root : FilePath) (manifest : Text ⊎ Text)
        → get meta.store input.stores ≡ some store_root
        → let final =
            (with_manifest sha256 display rereadable display_path options input item_dir expected
              store_root meta calls files manifest).0 in
          (final ≡ files) ⊎ ItemSettled meta final
    manifest-Settled meta expected store_root (inl m) g = inl refl
    manifest-Settled meta expected store_root (inr store_id) g =
        elim (Bool-cases (same store_id expected)) [
          | inl t ↦ rw t (
              payload-Settled meta store_root
                (event_payload meta.final_event_path meta.event_sha256) g refl)
          | inr f ↦ rw f (inl refl)
        ]

    store-Settled :
        (meta : OutboxMeta) (expected : Text) (root : Option FilePath)
        → get meta.store input.stores ≡ root
        → let final =
            (with_store sha256 display rereadable display_path options input item_dir expected meta
              calls files root).0 in
          (final ≡ files) ⊎ ItemSettled meta final
    store-Settled meta expected none g = inl refl
    store-Settled meta expected (some store_root) g =
        manifest-Settled meta expected store_root (input.manifest store_root) g

    expected-Settled :
        (meta : OutboxMeta) (expected : Option Text)
        → let final =
            (with_expected sha256 display rereadable display_path options input item_dir meta calls
              files expected).0 in
          (final ≡ files) ⊎ ItemSettled meta final
    expected-Settled meta none = inl refl
    expected-Settled meta (some expected) =
        store-Settled meta expected (get meta.store input.stores) refl

    meta-Settled :
        (r : OutboxError ⊎ OutboxMeta)
        → let final =
            (with_meta sha256 display rereadable display_path options input item_dir calls files
              r).0 in
          (final ≡ files) ⊎ ((meta : OutboxMeta) × (r ≡ inr meta) × ItemSettled meta final)
    meta-Settled (inl err) = elim (Bool-cases calls.meta_gone) [
      | inl t ↦ rw t (inl refl)
      | inr f ↦ rw f (inl refl)
    ]
    meta-Settled (inr meta) = elim (Bool-cases (is_unbound meta.state)) [
      | inl t ↦ rw t (inl refl)
      | inr f ↦ rw f (elim (expected-Settled meta meta.expected_store_id) [
        | inl e ↦ inl e
        | inr s ↦ inr (meta, refl, s)
      ])
    ]

    -- A queued item is archived and removed only once its payloads are in its store: whatever calls fail,
    -- a flush of the item changes nothing, or only publishes, or the note was at its final path when it
    -- had been published, and then the event, if there is one, at its own, with the hashes of the metadata.
    pub flush_item-Settled :
        let final =
          (flush_item sha256 display rereadable display_path options input item_dir calls
            files).0 in
        (final ≡ files)
        ⊎ ((meta : OutboxMeta) × (read_meta (join item_dir (codes "meta.toml")) calls.meta
              ≡ inr meta)
            × ItemSettled meta final)
    unfolding flush_item
    flush_item-Settled = meta-Settled (read_meta (join item_dir (codes "meta.toml")) calls.meta)
