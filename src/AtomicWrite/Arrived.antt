-- ===== src/AtomicWrite/Arrived.antt =====
-- What the exclusive write does to the files that other processes create while it runs.
use hive_memory.Base.{Option, inr, inl, ◌∙◌, ◌≡◌, refl, false, none, some, ℕ}
use hive_memory.Text.{Text, codes}
use hive_memory.AtomicWrite.Files.{
  FilePath, same_path, parent, Bytes, Disk, write_at, Faults, arrive, arrive_agree,
}
use hive_memory.AtomicWrite.Kept.{remove-Keeps, published-Keeps, linked-Keeps, remove-Keeps}
use hive_memory.AtomicWrite.{
  temp_opened, temp_created, AtomicWriteError, Outcome, FsyncPolicy, sync_file, temp_synced,
  publish_temp, write_temp_then_publish, AtomicWriteOptions, PublishMode,
}
use hive_memory.AtomicWrite.Calls.{
  cleaned, fixed_temp, in_directory, write_atomic_with_mode, write_atomic_create_new,
}

write_elsewhere :
    (p q : FilePath) (contents : Bytes) (files : Disk)
    → same_path p q ≡ false
    → write_at p contents files q ≡ files q
unfolding write_at
write_elsewhere p q contents files f = rw f refl

sync_succeeds :
    (policy : FsyncPolicy) (o : Option Text) (action : Text) (p : FilePath)
    → o ≡ none
    → sync_file policy o action p ≡ none
sync_succeeds FsyncPolicy.never o action p e = refl
sync_succeeds FsyncPolicy.best_effort o action p e = refl
sync_succeeds FsyncPolicy.required none action p e = refl
sync_succeeds FsyncPolicy.required (some m) action p e = absurd (cc)

module _ (q final_path : FilePath) (contents : Bytes) (options : AtomicWriteOptions)
    (faults : Faults) (temp_path : FilePath) (apart : same_path temp_path q ≡ false) where
  -- What arrives is there when the file is published, and is kept.
  temp_synced-arrived :
      (files : Disk) (c : Bytes)
      → arrive faults.arrivals files q ≡ some c
      → (temp_synced none temp_path final_path contents options PublishMode.create_new faults
            (write_at temp_path contents files)).0
          q
        ≡ some c
  temp_synced-arrived files c h =
      let now = arrive faults.arrivals (write_at temp_path contents files) in
      published-Keeps q final_path contents options faults temp_path apart
        (publish_temp temp_path final_path contents PublishMode.create_new options faults now) now
        (unfold publish_temp in
          linked-Keeps q final_path contents options faults temp_path apart faults.link
            (now final_path) now refl)
        c
        (arrive_agree q faults.arrivals (write_at temp_path contents files) files
            (write_elsewhere temp_path q contents files apart)
          ∙ h)

  write_temp-arrived :
      (files : Disk) (c : Bytes)
      → files temp_path ≡ none
      → faults.create_temp ≡ none
      → faults.write_temp ≡ none
      → faults.sync_temp ≡ none
      → arrive faults.arrivals files q ≡ some c
      → (write_temp_then_publish temp_path final_path contents options PublishMode.create_new faults
            files).0
          q
        ≡ some c
  unfolding write_temp_then_publish
  write_temp-arrived files c n created written synced h =
      opened (files temp_path) faults.create_temp n created
    where
      at_sync :
          (o : Option AtomicWriteError)
          → o ≡ none
          → (temp_synced o temp_path final_path contents options PublishMode.create_new faults
                (write_at temp_path contents files)).0
              q
            ≡ some c
      at_sync none e = temp_synced-arrived files c h
      at_sync (some err) e = absurd (cc)

      at_write :
          (o : Option Text)
          → o ≡ none
          → (temp_created o temp_path final_path contents options PublishMode.create_new faults
                files).0
              q
            ≡ some c
      at_write none e =
          at_sync (sync_file options.fsync faults.sync_temp (codes "sync temporary file") temp_path)
            (sync_succeeds options.fsync faults.sync_temp (codes "sync temporary file") temp_path
              synced)
      at_write (some m) e = absurd (cc)

      opened :
          (held : Option Bytes) (o : Option Text)
          → held ≡ none
          → o ≡ none
          → (temp_opened held o temp_path final_path contents options PublishMode.create_new faults
                files).0
              q
            ≡ some c
      opened none none e f = at_write faults.write_temp written
      opened (some old) o e f = absurd (cc)
      opened none (some m) e f = absurd (cc)

-- A write that must create its file, once it has written its temporary file at a fresh path, leaves every
-- other path with the file that it held before, or else with the file that another process has
-- created there meanwhile, the final path included, whatever calls fail from then on.
pub write_atomic_create_new-arrived :
    (pid : ℕ) (uuid : Text) (final_path dir q : FilePath) (contents : Bytes)
    (options : AtomicWriteOptions) (faults : Faults) (files : Disk) (c : Bytes)
    → parent final_path ≡ some dir
    → files (fixed_temp pid uuid dir final_path) ≡ none
    → faults.mkdir ≡ none
    → faults.create_temp ≡ none
    → faults.write_temp ≡ none
    → faults.sync_temp ≡ none
    → same_path (fixed_temp pid uuid dir final_path) q ≡ false
    → arrive faults.arrivals files q ≡ some c
    → (write_atomic_create_new pid uuid final_path contents options faults files).0 q ≡ some c
unfolding write_atomic_create_new
write_atomic_create_new-arrived pid uuid final_path dir q contents options faults files c e n made
      created written synced apart h =
    rw (e, write_atomic_with_mode) (entered faults.mkdir made)
  where
    cleaned-arrived :
        (r : Outcome)
        → r.0 q ≡ some c
        → (cleaned (fixed_temp pid uuid dir final_path) faults r).0 q ≡ some c
    cleaned-arrived (left, inl w) k = k
    cleaned-arrived (left, inr err) k =
        remove-Keeps q (fixed_temp pid uuid dir final_path) faults left apart c k

    entered :
        (o : Option Text)
        → o ≡ none
        → (in_directory o pid uuid dir final_path contents options PublishMode.create_new faults
              files).0
            q
          ≡ some c
    entered (some m) f = absurd (cc)
    entered none f =
        cleaned-arrived
          (write_temp_then_publish (fixed_temp pid uuid dir final_path) final_path contents options
            PublishMode.create_new faults files)
          (write_temp-arrived q final_path contents options faults
            (fixed_temp pid uuid dir final_path) apart files c n created written synced h)
