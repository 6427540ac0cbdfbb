-- ===== src/AtomicWrite/Calm.antt =====
-- A write that replaces a file, where no call fails.
use hive_memory.AtomicWrite.Calls.{write_atomic_with_mode, fixed_temp, write_atomic}
use hive_memory.AtomicWrite.Files.{parent, Disk, Bytes, FilePath, Faults}
use hive_memory.AtomicWrite.{
  is_never, publish_temp, sync_file, write_temp_then_publish, sync_parent, FsyncPolicy,
  AtomicWriteOptions, Outcome,
}
use hive_memory.Base.{Option-cases, ◌||◌, Bool-cases, ◌≡◌, refl, ℕ, none, some, inl, inr, []}
use hive_memory.Text.{codes, Text}

-- The calls of the replacing mode that may fail.
pub record IsCalm (faults : Faults) : Type 0 where
  pub mkdir : faults.mkdir ≡ none
  pub create_temp : faults.create_temp ≡ none
  pub write_temp : faults.write_temp ≡ none
  pub sync_temp : faults.sync_temp ≡ none
  pub rename : faults.rename ≡ none
  pub sync_dir : faults.sync_dir ≡ none

abbrev pub Succeeds : Outcome → Type 0
Succeeds (files, inl warnings) = Unit
Succeeds (files, inr err) = ⊥

module _ (faults : Faults) (calm : IsCalm faults) (options : AtomicWriteOptions) where
  sync_file-none :
      (policy : FsyncPolicy) (action : Text) (path : FilePath)
      → sync_file policy faults.sync_temp action path ≡ none
  sync_file-none FsyncPolicy.never action path = refl
  sync_file-none FsyncPolicy.best_effort action path = refl
  sync_file-none FsyncPolicy.required action path = rw calm.sync_temp refl

  sync_parent-none : (path : FilePath) → sync_parent path options faults ≡ inl []
  unfolding sync_parent
  sync_parent-none path = elim (Bool-cases (is_never options.fsync || options.skip_parent_fsync)) [
    | inl t ↦ rw t refl
    | inr f ↦ elim (Option-cases (parent path)) [
      | inl n ↦ rw (f, n) refl
      | inr (dir, e) ↦ rw (f, e, calm.sync_dir) refl
    ]
  ]

  pub write_atomic-Succeeds :
      (pid : ℕ) (uuid : Text) (final_path dir : FilePath) (contents : Bytes) (files : Disk)
      → parent final_path ≡ some dir
      → files (fixed_temp pid uuid dir final_path) ≡ none
      → Succeeds (write_atomic pid uuid final_path contents options faults files)
  unfolding write_atomic write_temp_then_publish publish_temp sync_parent
  write_atomic-Succeeds pid uuid final_path dir contents files e n =
      rw
        (
          e,
          write_atomic_with_mode,
          calm.mkdir,
          n,
          calm.create_temp,
          calm.write_temp,
          sync_file-none options.fsync (codes "sync temporary file")
              (fixed_temp pid uuid dir final_path),
          calm.rename,
          sync_parent-none final_path,
        )
        tt
