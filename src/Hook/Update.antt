-- ===== src/Hook/Update.antt =====
-- What each operation of src/hook.rs does to the state under the lock of its session. `now` is the
-- time that it reads.
pub mod Coherent
pub mod Epochs
pub mod Receipts
pub mod Delivered
use hive_memory.Base.{
  map, ◌++◌, ◌==◌, ◌∷◌, max, if◌then◌else◌, ℕ, ◌+◌, ◌%◌, ◌^◌, Bool, true, false, Option, none, some,
  List, [],
}
use hive_memory.Base.Sorted.{sort_dedup}
use hive_memory.Text.{same_option, Text}
use hive_memory.Hook.{
  text_order, is_valid, memory_order, DeliveryUpdate, RecallTopic, DeliveredMemory, HookState,
}

unfoldable pub mark_memory_pending : Text → Text → HookState → HookState
mark_memory_pending now reason state = record state {
  memory_pending = true;
  pending_reason = some reason;
  updated_at = some now;
}

unfoldable pub mark_memory_satisfied : Text → HookState → HookState
mark_memory_satisfied now state = record state {
  memory_pending = false;
  pending_reason = none;
  updated_at = some now;
}

abbrev pub clear_pending : Bool → HookState → HookState
clear_pending true state = record state { memory_pending = false; pending_reason = none }
clear_pending false state = state

unfoldable pub mark_receipts_refreshed : Text → ℕ → Bool → HookState → HookState
mark_receipts_refreshed now receipt_count clear_memory_pending state =
    record (clear_pending clear_memory_pending
      (record state { refreshed_receipts = max state.refreshed_receipts receipt_count })) {
        updated_at = some now;
      }

unfoldable pub mark_context_key : Text → Text → HookState → HookState
mark_context_key now context_key state = record state {
  context_key = some context_key;
  updated_at = some now;
}

unfoldable pub mark_startup_context : Text → Text → List Text → HookState → HookState
mark_startup_context now context_key memory_ids state = record state {
  context_key = some context_key;
  startup_memory_ids = memory_ids;
  updated_at = some now;
}

-- The clock is read twice.
unfoldable pub mark_prompt_recall : Text → Text → Text → List Text → HookState → HookState
mark_prompt_recall recalled now recall_key memory_ids state = record state {
  prompt_recall_key = some recall_key;
  prompt_recall_memory_ids = sort_dedup text_order (state.prompt_recall_memory_ids ++ memory_ids);
  prompt_recall_updated_at = some recalled;
  updated_at = some now;
}

unfoldable pub reset_context_epoch : Text → HookState → HookState
reset_context_epoch now state = record state {
  recall_topic = none;
  delivered = [];
  delivered_context_key = none;
  delivered_recall_key = none;
  turn_recall_ids = [];
  turn_context_ids = [];
  context_epoch = (state.context_epoch + 1) % 2 ^ 64;
  context_key = none;
  startup_memory_ids = [];
  prompt_recall_key = none;
  prompt_recall_memory_ids = [];
  prompt_recall_updated_at = none;
  context_epoch_started_at = some now;
  updated_at = some now;
}

-- `topic.filter(RecallTopic::is_valid)`.
abbrev pub filter_topic : Option RecallTopic → Option RecallTopic
filter_topic none = none
filter_topic (some topic) = if is_valid topic then some topic else none

unfoldable pub set_recall_topic : Text → ℕ → Option RecallTopic → HookState → HookState
set_recall_topic now epoch topic state =
    if state.context_epoch == epoch
    then record state { recall_topic = filter_topic topic; updated_at = some now }
    else state

-- The steps of `apply_update`, one for each `if`.
abbrev pub deliver : List DeliveredMemory → HookState → HookState
deliver [] state = state
deliver (m ∷ ms) state = record state {
  delivered = sort_dedup memory_order (state.delivered ++ m ∷ ms);
}

abbrev pub select_context : Option Text → HookState → HookState
select_context none state = state
select_context (some context_key) state = record state { delivered_context_key = some context_key }

abbrev pub select_recall : Option Text → HookState → HookState
select_recall none state = state
select_recall (some recall_key) state = record state { delivered_recall_key = some recall_key }

abbrev pub add_turn_recall : List Text → HookState → HookState
add_turn_recall [] state = state
add_turn_recall (id ∷ ids) state = record state {
  turn_recall_ids = sort_dedup text_order (state.turn_recall_ids ++ id ∷ ids);
}

abbrev pub set_turn_context : Option (List Text) → HookState → HookState
set_turn_context none state = state
set_turn_context (some ids) state = record state { turn_context_ids = ids }

abbrev pub add_untracked_context : Option Text → List Text → HookState → HookState
add_untracked_context none ids state = state
add_untracked_context (some context_key) ids state =
    let startup : List Text =
      if same_option state.context_key (some context_key) then state.startup_memory_ids else [] in
    record state {
      context_key = some context_key;
      startup_memory_ids =
          sort_dedup text_order
            ((startup ++ ids) ++ map (λ (m : DeliveredMemory). m.id) state.delivered);
    }

abbrev pub add_untracked_recall : Text → Option Text → List Text → HookState → HookState
add_untracked_recall now none ids state = state
add_untracked_recall now (some recall_key) ids state = record state {
  prompt_recall_key = some recall_key;
  prompt_recall_memory_ids = sort_dedup text_order (state.prompt_recall_memory_ids ++ ids);
  prompt_recall_updated_at = some now;
}

abbrev pub touch : Text → HookState → HookState
touch now state = record state { updated_at = some now }

abbrev pub apply_current : Text → DeliveryUpdate → HookState → HookState
apply_current now update state = touch now (
    add_untracked_recall now update.untracked_recall_key update.untracked_recall_ids (
      add_untracked_context update.untracked_context_key update.untracked_context_ids (
        set_turn_context update.turn_context_ids (
          add_turn_recall update.turn_recall_ids (
            select_recall update.prompt_recall_key
              (select_context update.context_key (deliver update.memories state)))))))

unfoldable pub apply_update : Text → DeliveryUpdate → HookState → HookState
apply_update now update state =
    if update.epoch == state.context_epoch then apply_current now update state else state

-- One call of an operation, with its arguments; `recalled` is the first of two readings of the clock.
pub data Mutation : Type 0 where
  memory_pending : Text → Mutation
  memory_satisfied : Mutation
  receipts_refreshed : ℕ → Bool → Mutation
  context_key : Text → Mutation
  startup_context : Text → List Text → Mutation
  prompt_recall : Text → Text → List Text → Mutation
  context_reset : Mutation
  recall_topic : ℕ → Option RecallTopic → Mutation
  delivery : DeliveryUpdate → Mutation

unfoldable pub mutate : Text → Mutation → HookState → HookState
unfolding mark_memory_pending mark_memory_satisfied mark_receipts_refreshed mark_context_key
    mark_startup_context mark_prompt_recall reset_context_epoch set_recall_topic apply_update
mutate now (Mutation.memory_pending reason) state = mark_memory_pending now reason state
mutate now Mutation.memory_satisfied state = mark_memory_satisfied now state
mutate now (Mutation.receipts_refreshed n clear) state = mark_receipts_refreshed now n clear state
mutate now (Mutation.context_key key) state = mark_context_key now key state
mutate now (Mutation.startup_context key ids) state = mark_startup_context now key ids state
mutate now (Mutation.prompt_recall recalled key ids) state =
    mark_prompt_recall recalled now key ids state
mutate now Mutation.context_reset state = reset_context_epoch now state
mutate now (Mutation.recall_topic epoch topic) state = set_recall_topic now epoch topic state
mutate now (Mutation.delivery update) state = apply_update now update state

-- The operations of the hooks of a session, in the order in which they get its lock.
unfoldable pub replay : List (Text × Mutation) → HookState → HookState
replay [] state = state
replay ((now, m) ∷ ms) state = replay ms (mutate now m state)
