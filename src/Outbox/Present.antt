-- ===== src/Outbox/Present.antt =====
-- What a publication that reports success leaves in the store.
use hive_memory.Text.Equality.{same→eq}
use hive_memory.AtomicWrite.Reported.{temp_opened-IsWritten, IsWritten}
use hive_memory.AtomicWrite.Calls.{
  write_atomic_with_mode, fixed_temp, in_directory, cleaned, write_atomic_create_new,
}
use hive_memory.AtomicWrite.{PublishMode, Outcome, write_temp_then_publish, AtomicWriteOptions}
use hive_memory.AtomicWrite.Files.{parent, Faults, Disk, FilePath}
use hive_memory.Base.{
  Option-cases, Bool-cases, ◌++◌, ℕ, ◌≡◌, refl, Bool, Option, none, some, inl, inr, ◌⊎◌,
}
use hive_memory.Text.{codes, Text, same}
use hive_memory.Outbox.{
  at_final, after_write, validated, reread, compared, AtomicWriteError, Bytes, publish_payload,
  validate_relative_path, PublishResult, OutboxError,
}

module _ (sha256 : Bytes → Text) (display : AtomicWriteError → Text) (rereadable : Bool) where
  -- The final path of the payload holds contents of the expected hash.
  abbrev pub Present : FilePath → Text → Text → Disk → Type 0
  Present store_root path expected_hash files =
      (relative : FilePath) × (contents : Bytes) × (validate_relative_path path ≡ inl relative)
      × (files (store_root ++ relative) ≡ some contents)
      × (sha256 contents ≡ expected_hash)

  abbrev pub Reports : FilePath → Text → Text → Disk × (PublishResult ⊎ OutboxError) → Type 0
  Reports store_root path expected_hash (files, inl PublishResult.written) =
      Present store_root path expected_hash files
  Reports store_root path expected_hash (files, inl PublishResult.already_present) =
      Present store_root path expected_hash files
  Reports store_root path expected_hash (files, inl PublishResult.hash_mismatch) = Unit
  Reports store_root path expected_hash (files, inl PublishResult.conflict) = Unit
  Reports store_root path expected_hash (files, inr err) = Unit

  module _ (store_root relative : FilePath) (path expected_hash : Text)
      (v : validate_relative_path path ≡ inl relative) where
    compared-Reports :
        (files : Disk) (existing : Bytes)
        → files (store_root ++ relative) ≡ some existing
        → Reports store_root path expected_hash
            (files, inl (compared sha256 display rereadable expected_hash existing))
    compared-Reports files existing h = elim (Bool-cases (same (sha256 existing) expected_hash)) [
      | inl t ↦ rw t (relative, existing, v, h, same→eq (sha256 existing) expected_hash t)
      | inr f ↦ rw f tt
    ]

    reread-Reports :
        (files : Disk) (err : AtomicWriteError) (held : Option Bytes)
        → files (store_root ++ relative) ≡ held
        → Reports store_root path expected_hash (
          files,
          reread sha256 display rereadable expected_hash (store_root ++ relative) err held,
        )
    reread-Reports files err none h = tt
    reread-Reports files err (some existing) h = compared-Reports files existing h

    after_write-Reports :
        (contents : Bytes) (options : AtomicWriteOptions) (faults : Faults) (o : Outcome)
        → sha256 contents ≡ expected_hash
        → IsWritten (store_root ++ relative) contents options faults o
        → Reports store_root path expected_hash
            (after_write sha256 display rereadable expected_hash (store_root ++ relative) o)
    after_write-Reports contents options faults (files, inl w) s (h, a) =
        (relative, contents, v, h, s)
    after_write-Reports contents options faults (files, inr err) s h =
        elim (Bool-cases rereadable) [
          | inl t ↦ rw t (reread-Reports files err (files (store_root ++ relative)) refl)
          | inr f ↦ rw f tt
        ]

    created-Reports :
        (contents : Bytes) (pid : ℕ) (uuid : Text) (options : AtomicWriteOptions) (faults : Faults)
        (files : Disk)
        → sha256 contents ≡ expected_hash
        → Reports store_root path expected_hash (
            after_write sha256 display rereadable expected_hash (store_root ++ relative) (
              write_atomic_create_new pid uuid
                (store_root ++ relative)
                contents
                options
                faults
                files))
    unfolding write_atomic_create_new write_temp_then_publish
    created-Reports contents pid uuid options faults files s =
        elim (Option-cases (parent (store_root ++ relative))) [
          | inl n ↦
              rw (n, write_atomic_with_mode)
                (after_write-Reports contents options faults
                  (
                    files,
                    inr (
                        AtomicWriteError.io (codes "resolve parent directory")
                          (store_root ++ relative) (codes "path has no parent")),
                  )
                  s tt)
          | inr (dir, e) ↦ rw (e, write_atomic_with_mode) (made dir faults.mkdir)
        ]
      where
        clean :
            (temp_path : FilePath) (o : Outcome)
            → IsWritten (store_root ++ relative) contents options faults o
            → IsWritten
                (store_root ++ relative)
                contents
                options
                faults
                (cleaned temp_path faults o)
        clean temp_path (left, inl w) h = h
        clean temp_path (left, inr err) h = tt

        made :
            (dir : FilePath) (o : Option Text)
            → Reports store_root path expected_hash (
                after_write sha256 display rereadable expected_hash (store_root ++ relative) (
                  in_directory o pid uuid dir
                    (store_root ++ relative)
                    contents
                    options
                    PublishMode.create_new
                    faults
                    files))
        made dir (some m) =
            after_write-Reports contents options faults
              (in_directory (some m) pid uuid dir (store_root ++ relative) contents options
                PublishMode.create_new faults files)
              s tt
        made dir none =
            let temp_path = fixed_temp pid uuid dir (store_root ++ relative) in
            after_write-Reports contents options faults _ s (
              clean temp_path _ (
                temp_opened-IsWritten (store_root ++ relative) contents options faults temp_path
                  (files temp_path) faults.create_temp files))

    at_final-Reports :
        (read_fault : Option Text) (held : Option Bytes) (contents : Bytes) (pid : ℕ) (uuid : Text)
        (options : AtomicWriteOptions) (faults : Faults) (files : Disk)
        → files (store_root ++ relative) ≡ held
        → sha256 contents ≡ expected_hash
        → Reports store_root path expected_hash (
            at_final sha256 display rereadable read_fault held pid uuid expected_hash
              (store_root ++ relative)
              contents
              options
              faults
              files)
    at_final-Reports (some m) held contents pid uuid options faults files h s = tt
    at_final-Reports none (some existing) contents pid uuid options faults files h s =
        compared-Reports files existing h
    at_final-Reports none none contents pid uuid options faults files h s =
        created-Reports contents pid uuid options faults files s

  validated-Reports :
      (v : FilePath ⊎ OutboxError) (read_fault : Option Text) (store_root : FilePath)
      (path expected_hash : Text) (contents : Bytes) (pid : ℕ) (uuid : Text)
      (options : AtomicWriteOptions) (faults : Faults) (files : Disk)
      → validate_relative_path path ≡ v
      → sha256 contents ≡ expected_hash
      → Reports store_root path expected_hash (
          validated sha256 display rereadable v read_fault store_root pid uuid expected_hash
            contents options faults files)
  validated-Reports (inr err) read_fault store_root path expected_hash contents pid uuid options
        faults files e s =
      tt
  validated-Reports (inl relative) read_fault store_root path expected_hash contents pid uuid
        options faults files e s =
      at_final-Reports store_root relative path expected_hash e read_fault
        (files (store_root ++ relative)) contents pid uuid options faults files refl s

  -- A payload that is reported as written, or as there already, is in the store.
  pub publish_payload-Reports :
      (payload : Bytes ⊎ Text) (read_fault : Option Text) (source store_root : FilePath)
      (path expected_hash : Text) (pid : ℕ) (uuid : Text) (options : AtomicWriteOptions)
      (faults : Faults) (files : Disk)
      → Reports store_root path expected_hash (
          publish_payload sha256 display rereadable payload read_fault source store_root path
            expected_hash pid uuid options faults files)
  unfolding publish_payload
  publish_payload-Reports (inr m) read_fault source store_root path expected_hash pid uuid options
        faults files =
      tt
  publish_payload-Reports (inl contents) read_fault source store_root path expected_hash pid uuid
        options faults files =
      elim (Bool-cases (same (sha256 contents) expected_hash)) [
        | inr f ↦ rw f tt
        | inl t ↦ rw t (
            validated-Reports (validate_relative_path path) read_fault store_root path expected_hash
              contents pid uuid options faults files refl
              (same→eq (sha256 contents) expected_hash t))
      ]
