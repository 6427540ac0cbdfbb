-- ===== src/Hook/Cycle.antt =====
-- `with_state_lock`, `load_state` and `save_state` over the files of src/write.rs. The outcomes of
-- `try_state_lock` up to the deadline are arguments; the JSON reader and writer, the decoder of UTF-8
-- and the text of a write error are parameters.
pub mod Session
pub mod Success
pub mod Refused
use hive_memory.AtomicWrite.Calls.{write_atomic}
use hive_memory.Ident.{sanitize_component}
use hive_memory.AtomicWrite.{Outcome, AtomicWriteError, AtomicWriteOptions}
use hive_memory.AtomicWrite.Files.{Disk, Faults, FilePath, Bytes}
use hive_memory.Base.{◌++◌, ℕ, ◌⊎◌, inl, inr, Option, none, some, List, [], ◌∷◌}
use hive_memory.Text.{Text, codes}
use hive_memory.Hook.{default_state, HookState}

pub data HookStateError : Type 0 where
  io : Text → FilePath → Text → HookStateError
  lock_timeout : FilePath → ℕ → HookStateError
  json : Text → HookStateError

-- One call of `try_state_lock`.
pub data LockAttempt : Type 0 where
  acquired : LockAttempt
  busy : LockAttempt
  failed : HookStateError → LockAttempt

pub record Codec : Type 0 where
  pub decode : Bytes → Text ⊎ Text
  pub from_str : Text → Text ⊎ HookState
  pub to_vec_pretty : HookState → Text ⊎ Bytes
  pub shown : AtomicWriteError → Text

abbrev pub run_path : FilePath → Text → Text → FilePath
run_path state_dir session_id name =
    state_dir ++ codes "runs" ∷ sanitize_component session_id ∷ name ∷ []

unfoldable pub state_path : FilePath → Text → FilePath
state_path state_dir session_id = run_path state_dir session_id (codes "hook-state.json")

unfoldable pub state_lock_path : FilePath → Text → FilePath
state_lock_path state_dir session_id =
    state_dir
    ++ codes "locks" ∷ codes "hook-state" ∷ (sanitize_component session_id ++ codes ".lock") ∷ []

abbrev pub state_lock_wait_ms : ℕ
state_lock_wait_ms = 500

-- The loop that waits for the lock: its first attempt, and those before the deadline.
unfoldable pub lock_state : FilePath → LockAttempt → List LockAttempt → Option HookStateError
lock_state path LockAttempt.acquired more = none
lock_state path (LockAttempt.failed err) more = some err
lock_state path LockAttempt.busy [] = some (HookStateError.lock_timeout path state_lock_wait_ms)
lock_state path LockAttempt.busy (next ∷ more) = lock_state path next more

-- What the environment does in one call.
pub record Call : Type 0 where
  pub first : LockAttempt
  pub more : List LockAttempt
  pub read : Option Text
  pub pid : ℕ
  pub uuid : Text
  pub faults : Faults

module _ (codec : Codec) where
  abbrev pub parsed : Text ⊎ HookState → HookStateError ⊎ HookState
  parsed (inl message) = inl (HookStateError.json message)
  parsed (inr state) = inr state

  abbrev pub decoded : FilePath → Text ⊎ Text → HookStateError ⊎ HookState
  decoded path (inl message) = inl (HookStateError.io (codes "read") path message)
  decoded path (inr contents) = parsed (codec.from_str contents)

  -- The reading, by its fault and by what the path holds.
  abbrev pub loaded : FilePath → Option Text → Option Bytes → HookStateError ⊎ HookState
  loaded path (some message) held = inl (HookStateError.io (codes "read") path message)
  loaded path none none = inr default_state
  loaded path none (some contents) = decoded path (codec.decode contents)

  unfoldable pub load_state : FilePath → Text → Option Text → Disk → HookStateError ⊎ HookState
  load_state state_dir session_id fault files =
      loaded (state_path state_dir session_id) fault (files (state_path state_dir session_id))

  abbrev pub saved : FilePath → HookState → Outcome → Disk × (HookStateError ⊎ HookState)
  saved path state (files, inl warnings) = (files, inr state)
  saved path state (files, inr err) =
      (files, inl (HookStateError.io (codes "write") path (codec.shown err)))

  abbrev pub save_json :
      FilePath
      → HookState
      → Text ⊎ Bytes
      → AtomicWriteOptions
      → Call
      → Disk
      → Disk × (HookStateError ⊎ HookState)
  save_json path state (inl message) options call files = (files, inl (HookStateError.json message))
  save_json path state (inr contents) options call files =
      saved path state (write_atomic call.pid call.uuid path contents options call.faults files)

  -- `save_state`, with the state as its result.
  unfoldable pub save_state :
      FilePath
      → Text
      → HookState
      → AtomicWriteOptions
      → Call
      → Disk
      → Disk × (HookStateError ⊎ HookState)
  save_state state_dir session_id state options call files =
      save_json (state_path state_dir session_id) state (codec.to_vec_pretty state) options call
        files

  abbrev pub save_mutated :
      FilePath
      → Text
      → (HookState → HookState)
      → AtomicWriteOptions
      → Call
      → Disk
      → HookStateError ⊎ HookState
      → Disk × (HookStateError ⊎ HookState)
  save_mutated state_dir session_id change options call files (inl err) = (files, inl err)
  save_mutated state_dir session_id change options call files (inr state) =
      save_state state_dir session_id (change state) options call files

  abbrev pub under_lock :
      FilePath
      → Text
      → (HookState → HookState)
      → AtomicWriteOptions
      → Call
      → Disk
      → Option HookStateError
      → Disk × (HookStateError ⊎ HookState)
  under_lock state_dir session_id change options call files (some err) = (files, inl err)
  under_lock state_dir session_id change options call files none =
      save_mutated state_dir session_id change options call files
        (load_state state_dir session_id call.read files)

  unfoldable pub with_state_lock :
      FilePath
      → Text
      → (HookState → HookState)
      → AtomicWriteOptions
      → Call
      → Disk
      → Disk × (HookStateError ⊎ HookState)
  with_state_lock state_dir session_id change options call files =
      under_lock state_dir session_id change options call files
        (lock_state (state_lock_path state_dir session_id) call.first call.more)
