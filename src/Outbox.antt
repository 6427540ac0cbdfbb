-- ===== src/Outbox.antt =====
-- Publication of a queued payload into a store (src/outbox.rs). Paths are those of Unix: a path is split
-- at `/`, and empty components are left out. SHA-256 is a parameter.
pub mod Publication
pub mod Present
pub mod Flush
use hive_memory.Base.{
  ℕ, Bool, true, false, Option, none, some, List, [], ◌∷◌, ◌++◌, ◌⊎◌, inl, inr, if◌then◌else◌,
  is_empty, ◌==◌,
}
use hive_memory.Text.{Text, codes, same, words, split}
use hive_memory.AtomicWrite.Files.{FilePath, Bytes, Disk, Faults}
use hive_memory.AtomicWrite.{AtomicWriteOptions, AtomicWriteError, AtomicWriteWarning, Outcome}
use hive_memory.AtomicWrite.Calls.{write_atomic_create_new}

pub data OutboxError : Type 0 where
  io : Text → FilePath → Text → OutboxError
  parse_meta : FilePath → Text → OutboxError
  render_meta bind parse_identity_cache render_identity_cache : Text → OutboxError
  unsupported_schema : FilePath → ℕ → OutboxError

pub data PublishResult : Type 0 where
  written already_present hash_mismatch conflict : PublishResult

abbrev pub is_slash : ℕ → Bool
is_slash c = c == b'/'

abbrev is_absolute : Text → Bool
is_absolute [] = false
is_absolute (c ∷ path) = is_slash c

abbrev validation : Text → Text → FilePath ⊎ OutboxError
validation path message = inr (io (codes "validate final path") (split is_slash path) message)

-- The loop over the components; the second list is what has been pushed.
abbrev pub normalize : Text → List Text → FilePath → FilePath ⊎ OutboxError
normalize path [] [] = validation path (codes "path must not be empty")
normalize path [] (c ∷ normalized) = inl (c ∷ normalized)
normalize path (component ∷ components) normalized =
    let pushed = normalize path components (normalized ++ component ∷ []) in
    let skipped = normalize path components normalized in
    if same component (codes "..")
    then validation path (codes "path must not contain parent or prefix components")
    else if same component (codes ".")
    then skipped
    else pushed

unfoldable pub validate_relative_path : Text → FilePath ⊎ OutboxError
validate_relative_path path =
    if is_absolute path
    then validation path (codes "path must be relative")
    else normalize path (words is_slash path) []

-- The hash, how an error of the writer is printed, and whether the file can be read after a failed write.
module _ (sha256 : Bytes → Text) (display : AtomicWriteError → Text) (rereadable : Bool) where
  -- What a file at the final path says before the write, or after one that failed.
  abbrev pub compared : Text → Bytes → PublishResult
  compared expected_hash existing =
      if same (sha256 existing) expected_hash
      then PublishResult.already_present
      else PublishResult.conflict

  abbrev reread : Text → FilePath → AtomicWriteError → Option Bytes → PublishResult ⊎ OutboxError
  reread expected_hash final_path err (some existing) = inl (compared expected_hash existing)
  reread expected_hash final_path err none =
      inr (io (codes "write final payload") final_path (display err))

  abbrev pub after_write : Text → FilePath → Outcome → Disk × (PublishResult ⊎ OutboxError)
  after_write expected_hash final_path (files, inl warnings) = (files, inl PublishResult.written)
  after_write expected_hash final_path (files, inr err) =
      (files, reread expected_hash final_path err (if rereadable then files final_path else none))

  -- The first read of the final path: its fault, and what is there.
  abbrev pub at_final :
      Option Text
      → Option Bytes
      → ℕ
      → Text
      → Text
      → FilePath
      → Bytes
      → AtomicWriteOptions
      → Faults
      → Disk
      → Disk × (PublishResult ⊎ OutboxError)
  at_final (some message) held pid uuid expected_hash final_path contents options faults files =
      (files, inr (io (codes "read final payload") final_path message))
  at_final none (some existing) pid uuid expected_hash final_path contents options faults files =
      (files, inl (compared expected_hash existing))
  at_final none none pid uuid expected_hash final_path contents options faults files =
      after_write expected_hash final_path
        (write_atomic_create_new pid uuid final_path contents options faults files)

  abbrev pub validated :
      FilePath ⊎ OutboxError
      → Option Text
      → FilePath
      → ℕ
      → Text
      → Text
      → Bytes
      → AtomicWriteOptions
      → Faults
      → Disk
      → Disk × (PublishResult ⊎ OutboxError)
  validated (inr err) read_fault store_root pid uuid expected_hash contents options faults files =
      (files, inr err)
  validated (inl relative) read_fault store_root pid uuid expected_hash contents options faults
        files =
      at_final read_fault (files (store_root ++ relative)) pid uuid expected_hash
        (store_root ++ relative) contents options faults files

  -- The payload as it was read, or the fault of reading it.
  unfoldable pub publish_payload :
      Bytes ⊎ Text
      → Option Text
      → FilePath
      → FilePath
      → Text
      → Text
      → ℕ
      → Text
      → AtomicWriteOptions
      → Faults
      → Disk
      → Disk × (PublishResult ⊎ OutboxError)
  publish_payload (inr message) read_fault source store_root final_relative_path expected_hash pid
        uuid options faults files =
      (files, inr (io (codes "read outbox payload") source message))
  publish_payload (inl contents) read_fault source store_root final_relative_path expected_hash pid
        uuid options faults files =
      if same (sha256 contents) expected_hash
      then validated (validate_relative_path final_relative_path) read_fault store_root pid uuid
          expected_hash contents options faults files
      else (files, inl PublishResult.hash_mismatch)
