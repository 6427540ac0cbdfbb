-- ===== src/Hook/Cycle/Session.antt =====
-- The calls of a session, one after the other under its lock.
use hive_memory.Ident.{sanitize_component}
use hive_memory.AtomicWrite.Replaced.{write_atomic-Stores, Stores}
use hive_memory.AtomicWrite.{Outcome, AtomicWriteOptions}
use hive_memory.Hook.Update.{replay, mutate, Mutation}
use hive_memory.AtomicWrite.Files.{parent, Disk, Bytes, FilePath}
use hive_memory.Base.{length, ◌≡◌, ◌⊎◌, inl, inr, refl, Option, none, some, List, [], ◌∷◌, arith}
use hive_memory.Text.{Text, codes}
use hive_memory.Hook.{HookState}
use hive_memory.Hook.Cycle.{
  state_lock_path, lock_state, run_path, under_lock, save_mutated, save_state, saved, state_path,
  with_state_lock, HookStateError, load_state, Codec, Call,
}

-- The directory of the run.
pub run_path-parent :
    (state_dir : FilePath) (session_id name : Text)
    → (dir : FilePath) × (parent (run_path state_dir session_id name) ≡ some dir)
unfolding parent
run_path-parent [] session_id name = (codes "runs" ∷ sanitize_component session_id ∷ [], refl)
run_path-parent (c ∷ state_dir) session_id name =
    let (dir, e) = run_path-parent state_dir session_id name in (c ∷ dir, rw e refl)

module _ (codec : Codec) where
  -- What is written for the state is read as that state.
  abbrev pub ReadsBack : HookState → Type 0
  ReadsBack state =
      (bytes : Bytes) × (text : Text) × (codec.to_vec_pretty state ≡ inr bytes)
      × (codec.decode bytes ≡ inr text)
      × (codec.from_str text ≡ inr state)

  abbrev pub AllReadBack : List (Text × Mutation) → HookState → Type 0
  AllReadBack [] state = Unit
  AllReadBack ((now, m) ∷ ms) state =
      ReadsBack (mutate now m state) × AllReadBack ms (mutate now m state)

  -- What the hooks of the session read and write: the state, where its file can be read.
  abbrev pub Holds : FilePath → Text → Disk → HookState → Type 0
  Holds state_dir session_id files state =
      load_state codec state_dir session_id none files ≡ inr state

  -- The calls up to the first that fails; the operations are applied by `mutate`.
  abbrev pub go_on :
      (Disk → HookStateError ⊎ Disk) → Disk × (HookStateError ⊎ HookState) → HookStateError ⊎ Disk
  go_on next (files, inl err) = inl err
  go_on next (files, inr state) = next files

  unfoldable pub run_session :
      FilePath
      → Text
      → AtomicWriteOptions
      → List Call
      → List (Text × Mutation)
      → Disk
      → HookStateError ⊎ Disk
  run_session state_dir session_id options calls [] files = inr files
  run_session state_dir session_id options [] (m ∷ ms) files = inr files
  run_session state_dir session_id options (call ∷ calls) ((now, m) ∷ ms) files =
      go_on (λ left. run_session state_dir session_id options calls ms left)
        (with_state_lock codec state_dir session_id (mutate now m) options call files)

  -- What a call leaves, where it reports success; and what a session leaves, where all its calls do.
  abbrev pub Leaves : FilePath → Text → HookState → Disk × (HookStateError ⊎ HookState) → Type 0
  Leaves state_dir session_id state (files, inl err) = Unit
  Leaves state_dir session_id state (files, inr result) =
      (result ≡ state) × Holds state_dir session_id files state

  abbrev pub Ends : FilePath → Text → HookState → HookStateError ⊎ Disk → Type 0
  Ends state_dir session_id state (inl err) = Unit
  Ends state_dir session_id state (inr files) = Holds state_dir session_id files state

  module _ (state_dir : FilePath) (session_id : Text) (options : AtomicWriteOptions) where
    pub saved-Leaves :
        (state : HookState) (bytes text : Text) (r : Outcome)
        → codec.decode bytes ≡ inr text
        → codec.from_str text ≡ inr state
        → Stores (state_path state_dir session_id) bytes r
        → Leaves state_dir session_id state (saved codec (state_path state_dir session_id) state r)
    unfolding load_state
    saved-Leaves state bytes text (left, inl w) d f h = (refl, rw (h, d, f) refl)
    saved-Leaves state bytes text (left, inr err) d f h = tt

    save_state-Leaves :
        (state : HookState) (call : Call) (files : Disk)
        → ReadsBack state
        → Leaves state_dir session_id state
            (save_state codec state_dir session_id state options call files)
    unfolding save_state
    save_state-Leaves state call files (bytes, text, w, d, f) =
        let (dir, e) = run_path-parent state_dir session_id (codes "hook-state.json") in
        rw w (
          saved-Leaves state bytes text _ d f (
            write_atomic-Stores call.pid call.uuid (state_path state_dir session_id) dir bytes
              options call.faults files (unfold state_path in e)))

    with_state_lock-Leaves :
        (change : HookState → HookState) (call : Call) (files : Disk) (state : HookState)
        → Holds state_dir session_id files state
        → ReadsBack (change state)
        → Leaves state_dir session_id
            (change state)
            (with_state_lock codec state_dir session_id change options call files)
    unfolding with_state_lock load_state
    with_state_lock-Leaves change call files state h b =
        locked (lock_state (state_lock_path state_dir session_id) call.first call.more)
      where
        reading :
            (fault : Option Text)
            → Leaves state_dir session_id (change state) (
                save_mutated codec state_dir session_id change options call files
                  (load_state codec state_dir session_id fault files))
        reading none = rw h (save_state-Leaves (change state) call files b)
        reading (some message) = tt

        locked :
            (o : Option HookStateError)
            → Leaves state_dir session_id
                (change state)
                (under_lock codec state_dir session_id change options call files o)
        locked none = reading call.read
        locked (some err) = tt

    -- No operation of a session is lost: where all its calls report success, the state that is read
    -- afterwards is what the operations make, in their order, of the state that was read before, if
    -- each of these states is read back as it was written. A missing file is the empty state.
    pub run_session-replay :
        (calls : List Call) (ms : List (Text × Mutation)) (files : Disk) (state : HookState)
        → length calls ≡ length ms
        → Holds state_dir session_id files state
        → AllReadBack ms state
        → Ends state_dir session_id
            (replay ms state)
            (run_session state_dir session_id options calls ms files)
    unfolding run_session replay
    run_session-replay calls [] files state n h b = h
    run_session-replay [] (m ∷ ms) files state n h b = absurd (omega (arith, n))
    run_session-replay (call ∷ calls) ((now, m) ∷ ms) files state n h (b, rest) =
        next (with_state_lock codec state_dir session_id (mutate now m) options call files)
          (with_state_lock-Leaves (mutate now m) call files state h b)
          (λ left k.
            run_session-replay calls ms left (mutate now m state) (omega (arith, n)) k rest)
      where
        next :
            (r : Disk × (HookStateError ⊎ HookState))
            → Leaves state_dir session_id (mutate now m state) r
            → ((left : Disk)
                → Holds state_dir session_id left (mutate now m state)
                → Ends state_dir session_id
                    (replay ms (mutate now m state))
                    (run_session state_dir session_id options calls ms left))
            → Ends state_dir session_id
                (replay ms (mutate now m state))
                (go_on (λ left. run_session state_dir session_id options calls ms left) r)
        next (left, inl err) k rest = tt
        next (left, inr result) (e, k) rest = rest left k
