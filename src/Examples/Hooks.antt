-- ===== src/Examples/Hooks.antt =====
-- Runs of the hooks of a session.
use hive_memory.Ident.{sanitize_component}
use hive_memory.Hook.Cycle.Success.{with_state_lock-Stored, Stored}
use hive_memory.AtomicWrite.Files.{parent, same_path}
use hive_memory.Hook.Update.Epochs.{stale_ignored}
use hive_memory.Examples.Writes.{best_effort, no_links, one_file}
use hive_memory.Hook.Update.Delivered.{replay-follow}
use hive_memory.Hook.Update.Receipts.{receipts_cursor}
use hive_memory.Hook.Update.Coherent.{replay-IsCoherent, IsCoherent}
use hive_memory.Hook.Receipts.Appended.{append_write_receipt-Adds, Adds}
use hive_memory.Hook.Receipts.{
  write_receipts_path, read_write_receipts_path, append_write_receipt_with_options,
  load_write_receipts, WriteReceipt, ReceiptCodec,
}
use hive_memory.Hook.Cycle.Session.{run_session-replay, run_session, Ends}
use hive_memory.Hook.Cycle.{with_state_lock, state_path, load_state, LockAttempt, Call, Codec}
use hive_memory.Base.{◌≡◌, refl, inl, inr, true, false, none, some, List, [], ◌∷◌, arith}
use hive_memory.Text.{trim, same, Text, codes}
use hive_memory.Hook.{has_delivered, HookState, default_state, DeliveryUpdate}
use hive_memory.Hook.Update.{mutate, set_recall_topic, apply_update, replay, Mutation}

-- A delivery of one memory in the first context.
abbrev one_memory : DeliveryUpdate
one_memory = record {
  epoch = 0;
  memories = record { id = codes "m"; digest = codes "d" } ∷ [];
  context_key = some (codes "k");
  prompt_recall_key = none;
  turn_recall_ids = [];
  turn_context_ids = none;
  untracked_context_key = some (codes "k");
  untracked_context_ids = codes "m" ∷ [];
  untracked_recall_key = none;
  untracked_recall_ids = [];
}

-- A delivery, a loss of the context, and two refreshes that end in the wrong order.
abbrev four_calls : List (Text × Mutation)
four_calls =
    (codes "1", Mutation.delivery one_memory)
    ∷ (codes "2", Mutation.context_reset)
    ∷ (codes "3", Mutation.receipts_refreshed 2 true)
    ∷ (codes "4", Mutation.receipts_refreshed 1 false)
    ∷ []

replay-IsCoherent_example : IsCoherent (replay four_calls default_state)
replay-IsCoherent_example = replay-IsCoherent four_calls default_state (tt, tt, tt, tt, omega arith)

receipts_cursor_example : (replay four_calls default_state).refreshed_receipts ≡ 2
receipts_cursor_example = receipts_cursor four_calls default_state

stale_ignored_example :
    (apply_update (codes "5") one_memory (replay four_calls default_state)
      ≡ replay four_calls default_state)
    × (set_recall_topic (codes "5") 0 none (replay four_calls default_state)
        ≡ replay four_calls default_state)
stale_ignored_example =
    stale_ignored four_calls default_state (codes "5") one_memory none (omega arith) (omega arith)
      (omega arith) refl

replay-follow_example :
    has_delivered (replay four_calls default_state) (codes "m") (codes "d") ≡ false
replay-follow_example = replay-follow four_calls default_state (codes "m") (codes "d")

-- What a session that only clears its debt leaves.
abbrev settled_state : HookState
settled_state = record default_state { updated_at = some (codes "1") }

-- A codec for that state.
abbrev settled_codec : Codec
settled_codec = record {
  decode = λ bytes. inr bytes;
  from_str = λ text. inr settled_state;
  to_vec_pretty = λ state. inr (codes "{}");
  shown = λ err. codes "error";
}

-- The lock is free at the second attempt, and no call fails.
abbrev calm_call : Call
calm_call = record {
  first = LockAttempt.busy;
  more = LockAttempt.acquired ∷ [];
  read = none;
  pid = 7;
  uuid = codes "u";
  faults = record no_links { link = none };
}

abbrev two_settled : List (Text × Mutation)
two_settled = (codes "1", Mutation.memory_satisfied) ∷ (codes "1", Mutation.memory_satisfied) ∷ []

run_session-replay_example :
    Ends settled_codec (codes "s" ∷ []) (codes "x") (replay two_settled default_state) (
      run_session settled_codec
        (codes "s" ∷ [])
        (codes "x")
        best_effort
        (calm_call ∷ calm_call ∷ [])
        two_settled
        one_file)
unfolding load_state same_path state_path same mutate
run_session-replay_example =
    run_session-replay settled_codec (codes "s" ∷ []) (codes "x") best_effort
      (calm_call ∷ calm_call ∷ []) two_settled one_file default_state refl refl
      ((codes "{}", codes "{}", refl, refl, refl), ((codes "{}", codes "{}", refl, refl, refl), tt))

with_state_lock-Stored_example :
    Stored settled_codec (codes "s" ∷ []) (codes "x") best_effort settled_state (
      with_state_lock settled_codec
        (codes "s" ∷ [])
        (codes "x")
        (mutate (codes "1") Mutation.memory_satisfied)
        best_effort
        calm_call
        one_file)
unfolding parent state_path sanitize_component same_path same load_state mutate
with_state_lock-Stored_example =
    with_state_lock-Stored settled_codec (codes "s" ∷ []) (codes "x") best_effort
      (mutate (codes "1") Mutation.memory_satisfied) calm_call one_file default_state
      (codes "s" ∷ codes "runs" ∷ codes "x" ∷ []) tt refl
      (record {
        mkdir = refl;
        create_temp = refl;
        write_temp = refl;
        sync_temp = refl;
        rename = refl;
        sync_dir = refl;
      })
      refl refl refl (codes "{}", codes "{}", refl, refl, refl)

-- Another process holds the lock until the deadline.
abbrev locked_call : Call
locked_call = record calm_call { more = LockAttempt.busy ∷ [] }

abbrev one_receipt : WriteReceipt
one_receipt = record {
  created_at = codes "1";
  store = codes "s";
  scope = codes "user";
  project_id = none;
  note_id = codes "n";
  created = true;
}

-- A codec for that receipt, on files of ASCII texts.
abbrev receipt_codec : ReceiptCodec
receipt_codec = record {
  decode = λ bytes. inr bytes;
  encode = λ text. text;
  from_str = λ text. inr one_receipt;
  to_writer = λ receipt. inr (codes "{}");
  shown = λ err. codes "error";
}

append_write_receipt-Adds_example :
    Adds receipt_codec
      (codes "s" ∷ [])
      (codes "x")
      (load_write_receipts receipt_codec (codes "s" ∷ []) (codes "x") none one_file)
      one_receipt
      (append_write_receipt_with_options receipt_codec
        (codes "s" ∷ [])
        (codes "x")
        one_receipt
        none
        none
        7
        (codes "u")
        best_effort
        no_links
        one_file)
unfolding trim read_write_receipts_path same_path write_receipts_path same
append_write_receipt-Adds_example =
    append_write_receipt-Adds receipt_codec (codes "s" ∷ []) (codes "x") one_receipt [] (codes "{}")
      (inl refl)
      (record {
        written = refl;
        one_line = ((refl, (refl, tt)), refl);
        present = refl;
        read = refl;
      })
      (λ t. refl) none none 7 (codes "u") best_effort no_links one_file refl
