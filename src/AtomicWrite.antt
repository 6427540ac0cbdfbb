-- ===== src/AtomicWrite.antt =====
-- Collision-safe publishing of files (src/write.rs). Each function takes the files and the faults of its
-- calls, and returns the files with its result.
pub mod Files
pub mod Calls
pub mod Kept
pub mod Arrived
pub mod Replaced
pub mod Calm
pub mod Unique
pub mod Reported
pub mod Fresh
use hive_memory.Base.{
  ℕ, zero, suc, Bool, true, false, ◌||◌, not, Option, none, some, List, [], ◌∷◌, ◌++◌, ◌⊎◌, inl,
  inr, if◌then◌else◌, is_empty,
}
use hive_memory.Text.{Text, codes, same, contains}
use hive_memory.Ident.Decimal.{decimal}
use hive_memory.AtomicWrite.Files.{
  FilePath, parent, file_name, join, Bytes, Disk, write_at, erase, Faults, arrive,
}

pub data PublishMode : Type 0 where
  replace create_new : PublishMode

pub data FsyncPolicy : Type 0 where
  never best_effort required : FsyncPolicy

pub record AtomicWriteOptions : Type 0 where
  pub fsync : FsyncPolicy
  pub max_attempts : ℕ
  pub skip_parent_fsync : Bool

pub record AtomicWriteWarning : Type 0 where
  pub message : Text

pub record AtomicWriteResult : Type 0 where
  pub id : Text
  pub path : FilePath
  pub warnings : List AtomicWriteWarning

pub data AtomicWriteError : Type 0 where
  empty_extension : AtomicWriteError
  temp_exists : FilePath → AtomicWriteError
  collision_limit : ℕ → AtomicWriteError
  io : Text → FilePath → Text → AtomicWriteError

abbrev pub install : Text
install = codes "install final file"

abbrev pub already_exists : Text
already_exists = codes "final path already exists"

-- The failure of one call, if it fails.
abbrev io_error : Text → FilePath → Option Text → Option AtomicWriteError
io_error action path none = none
io_error action path (some message) = some (io action path message)

abbrev remove_temp : Faults → FilePath → Disk → Disk
remove_temp faults path files = if faults.removable then erase path files else files

abbrev sync_file : FsyncPolicy → Option Text → Text → FilePath → Option AtomicWriteError
sync_file FsyncPolicy.never fault action path = none
sync_file FsyncPolicy.best_effort fault action path = none
sync_file FsyncPolicy.required fault action path = io_error action path fault

-- The sync of a parent directory, when it is asked for.
abbrev sync_dir : FsyncPolicy → FilePath → Option Text → List AtomicWriteWarning ⊎ AtomicWriteError
sync_dir policy dir none = inl []
sync_dir FsyncPolicy.never dir (some message) = inl []
sync_dir FsyncPolicy.best_effort dir (some message) =
    inl (record { message = codes "parent directory fsync skipped: " ++ message } ∷ [])
sync_dir FsyncPolicy.required dir (some message) =
    inr (io (codes "sync parent directory") dir message)

abbrev is_never : FsyncPolicy → Bool
is_never FsyncPolicy.never = true
is_never FsyncPolicy.best_effort = false
is_never FsyncPolicy.required = false

unfoldable pub sync_parent :
    FilePath → AtomicWriteOptions → Faults → List AtomicWriteWarning ⊎ AtomicWriteError
sync_parent final_path options faults =
    if is_never options.fsync || options.skip_parent_fsync
    then inl []
    else elim (parent final_path) [
      | none ↦ inl []
      | some dir ↦ sync_dir options.fsync dir faults.sync_dir
    ]

-- The end of the copy: the final file has been created here, so a failure removes it.
abbrev copy_synced :
    Option AtomicWriteError → FilePath → Bytes → Faults → Disk → Disk × Option AtomicWriteError
copy_synced none final_path contents faults files = (write_at final_path contents files, none)
copy_synced (some err) final_path contents faults files =
    (remove_temp faults final_path (write_at final_path contents files), some err)

abbrev copy_created :
    Option Text
    → FilePath
    → Bytes
    → AtomicWriteOptions
    → Faults
    → Disk
    → Disk × Option AtomicWriteError
copy_created (some message) final_path contents options faults files = (
  remove_temp faults final_path (write_at final_path faults.partial files),
  some (io (codes "write final file") final_path message),
)
copy_created none final_path contents options faults files =
    copy_synced (sync_file options.fsync faults.sync_final (codes "sync final file") final_path)
      final_path contents faults files

-- The exclusive creation of the final file: what it holds already, and the fault of the call, which
-- is any error but that the file exists.
abbrev copy_opened :
    Option Bytes
    → Option Text
    → FilePath
    → Bytes
    → AtomicWriteOptions
    → Faults
    → Disk
    → Disk × Option AtomicWriteError
copy_opened held (some message) final_path contents options faults files =
    (files, some (io (codes "create final file") final_path message))
copy_opened (some old) none final_path contents options faults files =
    (files, some (io install final_path already_exists))
copy_opened none none final_path contents options faults files =
    copy_created faults.copy final_path contents options faults files

-- The opening of the temporary file, by its fault.
abbrev pub copy_from :
    Option Text
    → FilePath
    → FilePath
    → Bytes
    → AtomicWriteOptions
    → Faults
    → Disk
    → Disk × Option AtomicWriteError
copy_from (some message) temp_path final_path contents options faults files =
    (files, some (io (codes "open temporary file") temp_path message))
copy_from none temp_path final_path contents options faults files =
    copy_opened (files final_path) faults.create_final final_path contents options faults files

unfoldable pub copy_temp_create_new :
    FilePath
    → FilePath
    → Bytes
    → AtomicWriteOptions
    → Faults
    → Disk
    → Disk × Option AtomicWriteError
copy_temp_create_new temp_path final_path contents options faults files =
    copy_from faults.open_temp temp_path final_path contents options faults files

-- `remove_temp` after a copy that worked.
abbrev after_copy :
    FilePath → Faults → Disk × Option AtomicWriteError → Disk × Option AtomicWriteError
after_copy temp_path faults (files, none) = (remove_temp faults temp_path files, none)
after_copy temp_path faults (files, some err) = (files, some err)

-- The hard link, by its fault and by what the final path holds.
abbrev linked :
    Option Text
    → Option Bytes
    → FilePath
    → FilePath
    → Bytes
    → AtomicWriteOptions
    → Faults
    → Disk
    → Disk × Option AtomicWriteError
linked none none temp_path final_path contents options faults files =
    (remove_temp faults temp_path (write_at final_path contents files), none)
linked none (some old) temp_path final_path contents options faults files =
    (files, some (io install final_path already_exists))
linked (some message) held temp_path final_path contents options faults files =
    after_copy temp_path faults
      (copy_temp_create_new temp_path final_path contents options faults files)

abbrev renamed : Option Text → FilePath → FilePath → Bytes → Disk → Disk × Option AtomicWriteError
renamed none temp_path final_path contents files =
    (write_at final_path contents (erase temp_path files), none)
renamed (some message) temp_path final_path contents files =
    (files, some (io install final_path message))

-- The contents are those of the temporary file.
unfoldable pub publish_temp :
    FilePath
    → FilePath
    → Bytes
    → PublishMode
    → AtomicWriteOptions
    → Faults
    → Disk
    → Disk × Option AtomicWriteError
publish_temp temp_path final_path contents PublishMode.replace options faults files =
    renamed faults.rename temp_path final_path contents files
publish_temp temp_path final_path contents PublishMode.create_new options faults files =
    linked faults.link (files final_path) temp_path final_path contents options faults files

abbrev pub Outcome : Type 0
Outcome = Disk × (List AtomicWriteWarning ⊎ AtomicWriteError)

abbrev published : Disk × Option AtomicWriteError → FilePath → AtomicWriteOptions → Faults → Outcome
published (files, some err) final_path options faults = (files, inr err)
published (files, none) final_path options faults = (files, sync_parent final_path options faults)

abbrev temp_synced :
    Option AtomicWriteError
    → FilePath
    → FilePath
    → Bytes
    → AtomicWriteOptions
    → PublishMode
    → Faults
    → Disk
    → Outcome
temp_synced (some err) temp_path final_path contents options mode faults files = (files, inr err)
temp_synced none temp_path final_path contents options mode faults files =
    published
      (publish_temp temp_path final_path contents mode options faults
        (arrive faults.arrivals files))
      final_path options faults

abbrev temp_created :
    Option Text
    → FilePath
    → FilePath
    → Bytes
    → AtomicWriteOptions
    → PublishMode
    → Faults
    → Disk
    → Outcome
temp_created (some message) temp_path final_path contents options mode faults files = (
  write_at temp_path faults.partial files,
  inr (io (codes "write temporary file") temp_path message),
)
temp_created none temp_path final_path contents options mode faults files =
    temp_synced (sync_file options.fsync faults.sync_temp (codes "sync temporary file") temp_path)
      temp_path final_path contents options mode faults (write_at temp_path contents files)

-- The exclusive creation of the temporary file: what it holds already, and the fault of the call, which
-- is any error but that the file exists, and may come also where it exists.
abbrev temp_opened :
    Option Bytes
    → Option Text
    → FilePath
    → FilePath
    → Bytes
    → AtomicWriteOptions
    → PublishMode
    → Faults
    → Disk
    → Outcome
temp_opened held (some message) temp_path final_path contents options mode faults files =
    (files, inr (io (codes "create temporary file") temp_path message))
temp_opened (some old) none temp_path final_path contents options mode faults files =
    (files, inr (temp_exists temp_path))
temp_opened none none temp_path final_path contents options mode faults files =
    temp_created faults.write_temp temp_path final_path contents options mode faults files

unfoldable pub write_temp_then_publish :
    FilePath → FilePath → Bytes → AtomicWriteOptions → PublishMode → Faults → Disk → Outcome
write_temp_then_publish temp_path final_path contents options mode faults files =
    temp_opened (files temp_path) faults.create_temp temp_path final_path contents options mode
      faults files
