-- ===== src/AtomicWrite/Replaced.antt =====
-- What the replacing mode of publishing does to the file that it replaces.
use hive_memory.AtomicWrite.Kept.{apart_paths, remove-Keeps}
use hive_memory.AtomicWrite.Calls.{
  write_atomic_with_mode, fixed_temp, in_directory, cleaned, write_atomic,
}
use hive_memory.AtomicWrite.{
  sync_parent, AtomicWriteWarning, temp_synced, renamed, PublishMode, write_temp_then_publish,
  AtomicWriteError, published, temp_opened, temp_created, publish_temp, AtomicWriteOptions, Outcome,
}
use hive_memory.AtomicWrite.Files.{
  arrive-Keeps, erase, arrive, parent, write_at-Keeps, same_path, same_path_refl, Faults, Disk,
  Bytes, write_at, FilePath,
}
use hive_memory.Base.{List, ℕ, ◌≡◌, refl, false, Option, none, some, inl, inr, ◌⊎◌}
use hive_memory.Text.{Text}

-- A result that reports no error has stored the contents.
abbrev pub Stores : FilePath → Bytes → Outcome → Type 0
Stores p contents (files, inl warnings) = files p ≡ some contents
Stores p contents (files, inr err) = Unit

-- The path holds the new contents, or the old ones and an error is reported.
abbrev pub IsWhole : FilePath → Bytes → Bytes → Outcome → Type 0
IsWhole p old contents (files, inl warnings) = files p ≡ some contents
IsWhole p old contents (files, inr err) = (files p ≡ some contents) ⊎ (files p ≡ some old)

written :
    (p : FilePath) (contents : Bytes) (files : Disk) → write_at p contents files p ≡ some contents
unfolding write_at
written p contents files = rw (same_path_refl p) refl

module _ (final_path temp_path : FilePath) (contents : Bytes) (options : AtomicWriteOptions)
    (faults : Faults) where
  published-Stores :
      (o : Option Text) (files : Disk)
      → Stores final_path contents
          (published (renamed o temp_path final_path contents files) final_path options faults)
  published-Stores (some m) files = tt
  published-Stores none files = go (sync_parent final_path options faults)
    where
      go :
          (r : List AtomicWriteWarning ⊎ AtomicWriteError)
          → Stores final_path contents (write_at final_path contents (erase temp_path files), r)
      go (inl w) = written final_path contents (erase temp_path files)
      go (inr e) = tt

  temp_synced-Stores :
      (o : Option AtomicWriteError) (files : Disk)
      → Stores final_path contents
          (temp_synced o temp_path final_path contents options PublishMode.replace faults files)
  unfolding publish_temp
  temp_synced-Stores (some err) files = tt
  temp_synced-Stores none files = published-Stores faults.rename (arrive faults.arrivals files)

  temp_created-Stores :
      (o : Option Text) (files : Disk)
      → Stores final_path contents
          (temp_created o temp_path final_path contents options PublishMode.replace faults files)
  temp_created-Stores (some m) files = tt
  temp_created-Stores none files = temp_synced-Stores _ (write_at temp_path contents files)

  temp_opened-Stores :
      (held : Option Bytes) (o : Option Text) (files : Disk)
      → Stores final_path contents (
          temp_opened held o temp_path final_path contents options PublishMode.replace faults files)
  temp_opened-Stores held (some m) files = tt
  temp_opened-Stores (some old) none files = tt
  temp_opened-Stores none none files = temp_created-Stores faults.write_temp files

  cleaned-Stores :
      (r : Outcome)
      → Stores final_path contents r
      → Stores final_path contents (cleaned temp_path faults r)
  cleaned-Stores (files, inl w) h = h
  cleaned-Stores (files, inr err) h = tt

  module _ (old : Bytes) (apart : same_path temp_path final_path ≡ false) where
    published-IsWhole :
        (o : Option Text) (files : Disk)
        → files final_path ≡ some old
        → IsWhole final_path old contents
            (published (renamed o temp_path final_path contents files) final_path options faults)
    published-IsWhole (some m) files h = inr h
    published-IsWhole none files h = go (sync_parent final_path options faults)
      where
        go :
            (r : List AtomicWriteWarning ⊎ AtomicWriteError)
            → IsWhole final_path old contents
                (write_at final_path contents (erase temp_path files), r)
        go (inl w) = written final_path contents (erase temp_path files)
        go (inr e) = inl (written final_path contents (erase temp_path files))

    temp_synced-IsWhole :
        (o : Option AtomicWriteError) (files : Disk)
        → files final_path ≡ some old
        → IsWhole final_path old contents
            (temp_synced o temp_path final_path contents options PublishMode.replace faults files)
    unfolding publish_temp
    temp_synced-IsWhole (some err) files h = inr h
    temp_synced-IsWhole none files h =
        published-IsWhole faults.rename (arrive faults.arrivals files)
          (arrive-Keeps final_path faults.arrivals files old h)

    temp_created-IsWhole :
        (o : Option Text) (files : Disk)
        → files temp_path ≡ none
        → files final_path ≡ some old
        → IsWhole final_path old contents
            (temp_created o temp_path final_path contents options PublishMode.replace faults files)
    temp_created-IsWhole (some m) files n h =
        inr (write_at-Keeps final_path temp_path faults.partial files n old h)
    temp_created-IsWhole none files n h =
        temp_synced-IsWhole _ (write_at temp_path contents files)
          (write_at-Keeps final_path temp_path contents files n old h)

    temp_opened-IsWhole :
        (held : Option Bytes) (o : Option Text) (files : Disk)
        → files temp_path ≡ held
        → files final_path ≡ some old
        → IsWhole final_path old contents (
            temp_opened held o temp_path final_path contents options PublishMode.replace faults
              files)
    temp_opened-IsWhole held (some m) files n h = inr h
    temp_opened-IsWhole (some other) none files n h = inr h
    temp_opened-IsWhole none none files n h = temp_created-IsWhole faults.write_temp files n h

    cleaned-IsWhole :
        (r : Outcome)
        → IsWhole final_path old contents r
        → IsWhole final_path old contents (cleaned temp_path faults r)
    cleaned-IsWhole (files, inl w) h = h
    cleaned-IsWhole (files, inr err) (inl h) =
        inl (remove-Keeps final_path temp_path faults files apart contents h)
    cleaned-IsWhole (files, inr err) (inr h) =
        inr (remove-Keeps final_path temp_path faults files apart old h)

module _ (pid : ℕ) (uuid : Text) (final_path dir : FilePath) (contents : Bytes)
    (options : AtomicWriteOptions) (faults : Faults) (files : Disk) where
  -- A write that reports no error has stored its contents.
  pub write_atomic-Stores :
      parent final_path ≡ some dir
      → Stores final_path contents (write_atomic pid uuid final_path contents options faults files)
  unfolding write_atomic write_temp_then_publish
  write_atomic-Stores e = rw (e, write_atomic_with_mode) (made faults.mkdir)
    where
      made :
          (o : Option Text)
          → Stores final_path contents (
              in_directory o pid uuid dir final_path contents options PublishMode.replace faults
                files)
      made (some m) = tt
      made none =
          let temp_path = fixed_temp pid uuid dir final_path in
          cleaned-Stores final_path temp_path contents options faults _ (
            temp_opened-Stores final_path temp_path contents options faults (files temp_path)
              faults.create_temp files)

  -- A file that is replaced is never lost or torn: whatever calls fail, it holds the new contents, or the
  -- old ones, and the old ones only where the write reports an error, if the temporary path is fresh.
  pub write_atomic-IsWhole :
      (old : Bytes)
      → parent final_path ≡ some dir
      → files (fixed_temp pid uuid dir final_path) ≡ none
      → files final_path ≡ some old
      → IsWhole final_path old contents
          (write_atomic pid uuid final_path contents options faults files)
  unfolding write_atomic write_temp_then_publish
  write_atomic-IsWhole old e n h = rw (e, write_atomic_with_mode) (made faults.mkdir)
    where
      made :
          (o : Option Text)
          → IsWhole final_path old contents (
              in_directory o pid uuid dir final_path contents options PublishMode.replace faults
                files)
      made (some m) = inr h
      made none =
          let temp_path = fixed_temp pid uuid dir final_path in
          let apart = apart_paths temp_path final_path files old n h in
          cleaned-IsWhole final_path temp_path contents options faults old apart _ (
            temp_opened-IsWhole final_path temp_path contents options faults old apart
              (files temp_path) faults.create_temp files refl h)
