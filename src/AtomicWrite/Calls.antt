-- ===== src/AtomicWrite/Calls.antt =====
-- The calls of src/write.rs that the rest of the program makes. The process id and the random part of
-- a temporary name are arguments.
use hive_memory.Base.{
  ℕ, zero, suc, Bool, ◌||◌, Option, none, some, ◌++◌, ◌⊎◌, inl, inr, if◌then◌else◌, is_empty, any,
  ◌==◌,
}
use hive_memory.Text.{Text, codes, same}
use hive_memory.Ident.Decimal.{decimal}
use hive_memory.AtomicWrite.Files.{FilePath, parent, file_name, join, Bytes, Disk, Faults}
use hive_memory.AtomicWrite.{
  PublishMode, AtomicWriteOptions, AtomicWriteResult, AtomicWriteError, empty_extension,
  temp_exists, collision_limit, io, install, remove_temp, Outcome, write_temp_then_publish,
}

abbrev name_or_file : Option Text → Text
name_or_file none = codes "file"
name_or_file (some name) = name

abbrev pub fixed_temp : ℕ → Text → FilePath → FilePath → FilePath
fixed_temp pid uuid dir final_path = join dir (
    codes ".tmp."
    ++ (name_or_file (file_name final_path) ++ (codes "." ++ (decimal pid ++ (codes "-" ++ uuid)))))

-- A failure removes the temporary file.
abbrev pub cleaned : FilePath → Faults → Outcome → Outcome
cleaned temp_path faults (files, inl warnings) = (files, inl warnings)
cleaned temp_path faults (files, inr err) = (remove_temp faults temp_path files, inr err)

abbrev pub in_directory :
    Option Text
    → ℕ
    → Text
    → FilePath
    → FilePath
    → Bytes
    → AtomicWriteOptions
    → PublishMode
    → Faults
    → Disk
    → Outcome
in_directory (some message) pid uuid dir final_path contents options mode faults files =
    (files, inr (io (codes "create parent directory") dir message))
in_directory none pid uuid dir final_path contents options mode faults files =
    let temp_path = fixed_temp pid uuid dir final_path in
    cleaned temp_path faults
      (write_temp_then_publish temp_path final_path contents options mode faults files)

unfoldable pub write_atomic_with_mode :
    ℕ → Text → FilePath → Bytes → AtomicWriteOptions → PublishMode → Faults → Disk → Outcome
write_atomic_with_mode pid uuid final_path contents options mode faults files =
    elim (parent final_path) [
      | none ↦ (
        files,
        inr (io (codes "resolve parent directory") final_path (codes "path has no parent")),
      )
      | some dir ↦
          in_directory faults.mkdir pid uuid dir final_path contents options mode faults files
    ]

unfoldable pub write_atomic :
    ℕ → Text → FilePath → Bytes → AtomicWriteOptions → Faults → Disk → Outcome
unfolding write_atomic_with_mode
write_atomic pid uuid final_path contents options faults files =
    write_atomic_with_mode pid uuid final_path contents options PublishMode.replace faults files

unfoldable pub write_atomic_create_new :
    ℕ → Text → FilePath → Bytes → AtomicWriteOptions → Faults → Disk → Outcome
unfolding write_atomic_with_mode
write_atomic_create_new pid uuid final_path contents options faults files =
    write_atomic_with_mode pid uuid final_path contents options PublishMode.create_new faults files

abbrev pub UniqueOutcome : Type 0
UniqueOutcome = Disk × (AtomicWriteResult ⊎ AtomicWriteError)

abbrev pub final_of : FilePath → Text → Text → FilePath
final_of dir extension id = join dir (id ++ (codes "." ++ extension))

abbrev pub temp_of : ℕ → FilePath → Text → FilePath
temp_of pid dir id = join dir (codes ".tmp." ++ (id ++ (codes "." ++ decimal pid)))

-- One result: returned, tried again, or cleaned up and returned.
abbrev pub settle :
    (Disk → UniqueOutcome) → Text → FilePath → FilePath → Faults → Outcome → UniqueOutcome
settle retry id final_path temp_path faults (files, inl warnings) =
    (files, inl (record { id = id; path = final_path; warnings = warnings }))
settle retry id final_path temp_path faults (files, inr (io action path message)) =
    let removed = remove_temp faults temp_path files in
    if same action install then retry removed else (removed, inr (io action path message))
settle retry id final_path temp_path faults (files, inr (temp_exists path)) = retry files
settle retry id final_path temp_path faults (files, inr empty_extension) =
    (remove_temp faults temp_path files, inr empty_extension)
settle retry id final_path temp_path faults (files, inr (collision_limit attempts)) =
    (remove_temp faults temp_path files, inr (collision_limit attempts))

abbrev max_one : ℕ → ℕ
max_one zero = 1
max_one (suc n) = suc n

-- The attempts of one call: the generated ids and the faults of each attempt are numbered.
module _ (pid : ℕ) (dir : FilePath) (extension : Text) (contents : Bytes)
    (options : AtomicWriteOptions) (next_id : ℕ → Text) (faults : ℕ → Faults) where
  abbrev pub attempt : (Disk → UniqueOutcome) → ℕ → Disk → Option Bytes → UniqueOutcome
  attempt retry k files (some old) = retry files
  attempt retry k files none =
      let final_path = final_of dir extension (next_id k) in
      let temp_path = temp_of pid dir (next_id k) in
      settle retry (next_id k) final_path temp_path (faults k) (
        write_temp_then_publish temp_path final_path contents options PublishMode.create_new
          (faults k) files)

  unfoldable pub unique_attempts : ℕ → ℕ → Disk → UniqueOutcome
  unique_attempts zero k files = (files, inr (collision_limit (max_one options.max_attempts)))
  unique_attempts (suc n) k files =
      attempt (λ left. unique_attempts n (suc k) left) k files
        (files (final_of dir extension (next_id k)))

  abbrev pub bad_extension : Bool
  bad_extension = is_empty extension || any (λ c. c == b'/' || c == b'\\') extension

  abbrev pub with_directory : Option Text → Disk → UniqueOutcome
  with_directory (some message) files =
      (files, inr (io (codes "create parent directory") dir message))
  with_directory none files = unique_attempts (max_one options.max_attempts) 0 files

  unfoldable pub write_unique_with_id_generator : Disk → UniqueOutcome
  unfolding unique_attempts
  write_unique_with_id_generator files =
      if bad_extension then (files, inr empty_extension) else with_directory (faults 0).mkdir files
