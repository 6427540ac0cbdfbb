-- ===== src/Hook/Cycle/Success.antt =====
-- When an operation on the state of a session succeeds.
use hive_memory.AtomicWrite.Replaced.{write_atomic-Stores}
use hive_memory.AtomicWrite.Calls.{write_atomic, fixed_temp}
use hive_memory.Hook.Cycle.Session.{saved-Leaves, ReadsBack, Holds, Leaves}
use hive_memory.AtomicWrite.Calm.{write_atomic-Succeeds, IsCalm, Succeeds}
use hive_memory.AtomicWrite.{Outcome, AtomicWriteOptions}
use hive_memory.AtomicWrite.Files.{parent, Disk, FilePath}
use hive_memory.Base.{◌⊎◌, ◌≡◌, refl, none, some, inl, inr, [], List, ◌∷◌}
use hive_memory.Text.{Text}
use hive_memory.Hook.{HookState}
use hive_memory.Hook.Cycle.{
  state_lock_path, state_path, saved, save_state, HookStateError, with_state_lock, lock_state,
  Codec, Call, LockAttempt,
}

-- The lock is free at one of the attempts, and only held before.
abbrev pub Frees : LockAttempt → List LockAttempt → Type 0
Frees LockAttempt.acquired more = Unit
Frees (LockAttempt.failed err) more = ⊥
Frees LockAttempt.busy [] = ⊥
Frees LockAttempt.busy (next ∷ more) = Frees next more

lock_state-Frees :
    (path : FilePath) (first : LockAttempt) (more : List LockAttempt)
    → Frees first more
    → lock_state path first more ≡ none
unfolding lock_state
lock_state-Frees path LockAttempt.acquired more h = refl
lock_state-Frees path (LockAttempt.failed err) more h = absurd h
lock_state-Frees path LockAttempt.busy [] h = absurd h
lock_state-Frees path LockAttempt.busy (next ∷ more) h = lock_state-Frees path next more h

module _ (codec : Codec) (state_dir : FilePath) (session_id : Text)
    (options : AtomicWriteOptions) where
  -- The result of a call is this state, and it is stored.
  abbrev pub Stored : HookState → Disk × (HookStateError ⊎ HookState) → Type 0
  Stored state (files, inl err) = ⊥
  Stored state (files, inr result) = (result ≡ state) × Holds codec state_dir session_id files state

  saved-Stored :
      (state : HookState) (o : Outcome)
      → Succeeds o
      → Leaves codec state_dir session_id state
          (saved codec (state_path state_dir session_id) state o)
      → Stored state (saved codec (state_path state_dir session_id) state o)
  saved-Stored state (files, inl w) s l = l
  saved-Stored state (files, inr err) s l = s

  -- An operation whose session's lock is free at some attempt before the deadline, and in which no call
  -- fails, reports the changed state, which is what is read afterwards: if the state can be read before
  -- and is read back as it is written, and the temporary path is fresh.
  pub with_state_lock-Stored :
      (change : HookState → HookState) (call : Call) (files : Disk) (state : HookState)
      (dir : FilePath)
      → Frees call.first call.more
      → call.read ≡ none
      → IsCalm call.faults
      → parent (state_path state_dir session_id) ≡ some dir
      → files (fixed_temp call.pid call.uuid dir (state_path state_dir session_id)) ≡ none
      → Holds codec state_dir session_id files state
      → ReadsBack codec (change state)
      → Stored (change state) (with_state_lock codec state_dir session_id change options call files)
  unfolding with_state_lock save_state
  with_state_lock-Stored change call files state dir free read calm e n h (bytes, text, w, d, f) =
      rw
        (
          lock_state-Frees (state_lock_path state_dir session_id) call.first call.more free,
          read,
          h,
          w,
        )
        (saved-Stored (change state)
          (write_atomic call.pid call.uuid (state_path state_dir session_id) bytes options
            call.faults files)
          (write_atomic-Succeeds call.faults calm options call.pid call.uuid
            (state_path state_dir session_id) dir bytes files e n)
          (saved-Leaves codec state_dir session_id options (change state) bytes text
            (write_atomic call.pid call.uuid (state_path state_dir session_id) bytes options
              call.faults files)
            d f
            (write_atomic-Stores call.pid call.uuid (state_path state_dir session_id) dir bytes
              options call.faults files e)))
