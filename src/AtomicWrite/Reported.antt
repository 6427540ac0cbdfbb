-- ===== src/AtomicWrite/Reported.antt =====
-- What an exclusive write reports, and what its final path then holds.
use hive_memory.Base.{
  ℕ, ◌≡◌, refl, ap, false, Option, none, some, List, ◌⊎◌, inl, inr, arith, Bool-cases,
}
use hive_memory.Text.{Text}
use hive_memory.AtomicWrite.Files.{
  NotAmong, arrive-NotAmong, FilePath, same_path, same_path_refl, same_path→eq, Bytes, Disk,
  write_at, Faults, arrive, arrive-Keeps,
}
use hive_memory.AtomicWrite.{
  PublishMode, AtomicWriteOptions, AtomicWriteWarning, AtomicWriteError, copy_synced, copy_created,
  copy_opened, copy_from, copy_temp_create_new, after_copy, linked, publish_temp, Outcome,
  published, temp_synced, temp_created, temp_opened, sync_parent,
}
use hive_memory.AtomicWrite.Calls.{UniqueOutcome, final_of}
use hive_memory.AtomicWrite.Kept.{remove-Keeps}

-- A reported path is the one of a generated id. Its file holds the contents, was not there before, and
-- is not among the files that other processes create during the attempt with that id.
abbrev pub IsInstalled :
    FilePath → Text → Bytes → (ℕ → Text) → (ℕ → Faults) → Disk → UniqueOutcome → Type 0
IsInstalled dir extension contents next_id faults before (after, inl r) =
    (after r.path ≡ some contents)
    × (before r.path ≡ none)
    × (r.path ≡ final_of dir extension r.id)
    × ((k : ℕ) × (r.id ≡ next_id k) × NotAmong r.path (faults k).arrivals)
IsInstalled dir extension contents next_id faults before (after, inr err) = Unit

written_at :
    (p : FilePath) (contents : Bytes) (files : Disk) → write_at p contents files p ≡ some contents
unfolding write_at
written_at p contents files = rw (same_path_refl p) refl

distinct_paths :
    (p q : FilePath) (files : Disk) (c : Bytes)
    → files p ≡ some c
    → files q ≡ none
    → same_path p q ≡ false
distinct_paths p q files c h n = elim (Bool-cases (same_path p q)) [
  | inl t ↦ absurd (ground (arith, ap files (same_path→eq p q t)))
  | inr f ↦ f
]

module _ (final_path : FilePath) (contents : Bytes) (options : AtomicWriteOptions)
    (faults : Faults) where
  -- A publication without an error has created the final file.
  abbrev IsCreated : Disk → Disk × Option AtomicWriteError → Type 0
  IsCreated before (after, none) = (after final_path ≡ some contents) × (before final_path ≡ none)
  IsCreated before (after, some err) = Unit

  -- A write without an error holds the contents, and no other process has created its final file.
  abbrev pub IsWritten : Outcome → Type 0
  IsWritten (after, inl warnings) =
      (after final_path ≡ some contents) × NotAmong final_path faults.arrivals
  IsWritten (after, inr err) = Unit

  copy_synced-IsCreated :
      (o : Option AtomicWriteError) (files : Disk)
      → files final_path ≡ none
      → IsCreated files (copy_synced o final_path contents faults files)
  copy_synced-IsCreated none files n = (written_at final_path contents files, n)
  copy_synced-IsCreated (some err) files n = tt

  copy_created-IsCreated :
      (o : Option Text) (files : Disk)
      → files final_path ≡ none
      → IsCreated files (copy_created o final_path contents options faults files)
  copy_created-IsCreated none files n = copy_synced-IsCreated _ files n
  copy_created-IsCreated (some m) files n = tt

  copy_opened-IsCreated :
      (held : Option Bytes) (o : Option Text) (files : Disk)
      → files final_path ≡ held
      → IsCreated files (copy_opened held o final_path contents options faults files)
  copy_opened-IsCreated held (some m) files e = tt
  copy_opened-IsCreated (some old) none files e = tt
  copy_opened-IsCreated none none files e = copy_created-IsCreated faults.copy files e

  copy_from-IsCreated :
      (o : Option Text) (temp_path : FilePath) (files : Disk)
      → IsCreated files (copy_from o temp_path final_path contents options faults files)
  copy_from-IsCreated (some m) temp_path files = tt
  copy_from-IsCreated none temp_path files =
      copy_opened-IsCreated (files final_path) faults.create_final files refl

  module _ (temp_path : FilePath) where
    after_copy-IsCreated :
        (r : Disk × Option AtomicWriteError) (files : Disk) (c : Bytes)
        → files temp_path ≡ some c
        → IsCreated files r
        → IsCreated files (after_copy temp_path faults r)
    after_copy-IsCreated (left, some err) files c t h = tt
    after_copy-IsCreated (left, none) files c t (h, n) = (
      remove-Keeps final_path temp_path faults left
          (distinct_paths temp_path final_path files c t n) contents h,
      n,
    )

    linked-IsCreated :
        (o : Option Text) (held : Option Bytes) (files : Disk) (c : Bytes)
        → files final_path ≡ held
        → files temp_path ≡ some c
        → IsCreated files (linked o held temp_path final_path contents options faults files)
    linked-IsCreated none (some old) files c e t = tt
    linked-IsCreated none none files c e t = (
      remove-Keeps final_path temp_path faults (write_at final_path contents files)
          (distinct_paths temp_path final_path files c t e) contents
          (written_at final_path contents files),
      e,
    )
    linked-IsCreated (some m) held files c e t =
        after_copy-IsCreated
          (copy_temp_create_new temp_path final_path contents options faults files) files c t
          (unfold copy_temp_create_new in copy_from-IsCreated faults.open_temp temp_path files)

    result-IsWritten :
        (files : Disk) (o : List AtomicWriteWarning ⊎ AtomicWriteError)
        → files final_path ≡ some contents
        → NotAmong final_path faults.arrivals
        → IsWritten (files, o)
    result-IsWritten files (inl w) h a = (h, a)
    result-IsWritten files (inr err) h a = tt

    published-IsWritten :
        (r : Disk × Option AtomicWriteError) (files : Disk)
        → IsCreated (arrive faults.arrivals files) r
        → IsWritten (published r final_path options faults)
    published-IsWritten (left, some err) files h = tt
    published-IsWritten (left, none) files (h, n) =
        result-IsWritten left (sync_parent final_path options faults) h
          (arrive-NotAmong final_path faults.arrivals files n)

    temp_synced-IsWritten :
        (o : Option AtomicWriteError) (files : Disk)
        → files temp_path ≡ some contents
        → IsWritten (
            temp_synced o temp_path final_path contents options PublishMode.create_new faults files)
    temp_synced-IsWritten (some err) files t = tt
    temp_synced-IsWritten none files t =
        let now = arrive faults.arrivals files in
        published-IsWritten
          (publish_temp temp_path final_path contents PublishMode.create_new options faults now)
          files
          (unfold publish_temp in
            linked-IsCreated faults.link (now final_path) now contents refl
              (arrive-Keeps temp_path faults.arrivals files contents t))

    temp_created-IsWritten :
        (o : Option Text) (files : Disk)
        → IsWritten (
            temp_created o temp_path final_path contents options PublishMode.create_new faults
              files)
    temp_created-IsWritten (some m) files = tt
    temp_created-IsWritten none files =
        temp_synced-IsWritten _ (write_at temp_path contents files)
          (written_at temp_path contents files)

    pub temp_opened-IsWritten :
        (held : Option Bytes) (o : Option Text) (files : Disk)
        → IsWritten (
            temp_opened held o temp_path final_path contents options PublishMode.create_new faults
              files)
    temp_opened-IsWritten held (some m) files = tt
    temp_opened-IsWritten (some old) none files = tt
    temp_opened-IsWritten none none files = temp_created-IsWritten faults.write_temp files
