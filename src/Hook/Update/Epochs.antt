-- ===== src/Hook/Update/Epochs.antt =====
-- What was prepared before the context of a session was lost.
use hive_memory.Base.{
  ◌∙◌, inr, ◌≤◌, inl, ◌==◌, Bool-cases, Option, max, Bool, suc, ◌≡◌, refl, ℕ, ◌+◌, ◌%◌, ◌^◌, ◌<◌,
  false, true, List, [], ◌∷◌, arith,
}
use hive_memory.Text.{Text}
use hive_memory.Hook.{RecallTopic, DeliveryUpdate, HookState}
use hive_memory.Hook.Update.{
  apply_current, clear_pending, replay, set_recall_topic, mutate, apply_update, Mutation,
}

abbrev pub resets : List (Text × Mutation) → ℕ
resets [] = 0
resets ((now, Mutation.context_reset) ∷ ms) = suc (resets ms)
resets ((now, m) ∷ ms) = resets ms

clear_pending-epoch :
    (clear : Bool) (s : HookState) → (clear_pending clear s).context_epoch ≡ s.context_epoch
clear_pending-epoch true s = refl
clear_pending-epoch false s = refl

apply_current-epoch :
    (now : Text) (u : DeliveryUpdate) (s : HookState)
    → (apply_current now u s).context_epoch ≡ s.context_epoch
apply_current-epoch now u s = ground arith

pub apply_update-epoch :
    (now : Text) (u : DeliveryUpdate) (s : HookState)
    → (apply_update now u s).context_epoch ≡ s.context_epoch
unfolding apply_update
apply_update-epoch now u s = elim (Bool-cases (u.epoch == s.context_epoch)) [
  | inl t ↦ rw t (apply_current-epoch now u s)
  | inr f ↦ rw f refl
]

set_recall_topic-epoch :
    (now : Text) (epoch : ℕ) (topic : Option RecallTopic) (s : HookState)
    → (set_recall_topic now epoch topic s).context_epoch ≡ s.context_epoch
unfolding set_recall_topic
set_recall_topic-epoch now epoch topic s = ground arith

-- An operation that is no reset leaves the epoch alone.
abbrev stays : Mutation → ℕ → ℕ
stays Mutation.context_reset epoch = (epoch + 1) % 2 ^ 64
stays m epoch = epoch

mutate-epoch :
    (now : Text) (m : Mutation) (s : HookState)
    → (mutate now m s).context_epoch ≡ stays m s.context_epoch
unfolding mutate
mutate-epoch now (Mutation.memory_pending reason) s = refl
mutate-epoch now Mutation.memory_satisfied s = refl
mutate-epoch now (Mutation.receipts_refreshed n clear) s =
    clear_pending-epoch clear (record s { refreshed_receipts = max s.refreshed_receipts n })
mutate-epoch now (Mutation.context_key key) s = refl
mutate-epoch now (Mutation.startup_context key ids) s = refl
mutate-epoch now (Mutation.prompt_recall recalled key ids) s = refl
mutate-epoch now Mutation.context_reset s = refl
mutate-epoch now (Mutation.recall_topic epoch topic) s = set_recall_topic-epoch now epoch topic s
mutate-epoch now (Mutation.delivery u) s = apply_update-epoch now u s

resets_step :
    (now : Text) (m : Mutation) (ms : List (Text × Mutation)) (epoch : ℕ)
    → epoch < 2 ^ 64
    → (stays m epoch < 2 ^ 64)
      × ((stays m epoch + resets ms) % 2 ^ 64 ≡ (epoch + resets ((now, m) ∷ ms)) % 2 ^ 64)
resets_step now Mutation.context_reset ms epoch h = (omega arith, omega arith)
resets_step now m ms epoch h = (h, refl)

replay-epoch :
    (ms : List (Text × Mutation)) (s : HookState)
    → s.context_epoch < 2 ^ 64
    → (replay ms s).context_epoch ≡ (s.context_epoch + resets ms) % 2 ^ 64
unfolding replay
replay-epoch [] s h = omega arith
replay-epoch ((now, m) ∷ ms) s h =
    let (small, counted) = resets_step now m ms s.context_epoch h in
    let moved = mutate-epoch now m s in
    replay-epoch ms (mutate now m s) (rw moved small) ∙ (rw moved counted)

-- A delivery or a topic that was prepared before the context was lost changes nothing afterwards,
-- whatever operations run between, if the epoch is not counted round in the meantime.
pub stale_ignored :
    (ms : List (Text × Mutation)) (s : HookState) (now : Text) (u : DeliveryUpdate)
    (topic : Option RecallTopic)
    → s.context_epoch < 2 ^ 64
    → 1 ≤ resets ms
    → resets ms < 2 ^ 64
    → u.epoch ≡ s.context_epoch
    → (apply_update now u (replay ms s) ≡ replay ms s)
      × (set_recall_topic now s.context_epoch topic (replay ms s) ≡ replay ms s)
unfolding apply_update set_recall_topic
stale_ignored ms s now u topic h lo hi e =
    let moved = replay-epoch ms s h in
    let a : (u.epoch == (replay ms s).context_epoch) ≡ false = ground (arith, moved, e) in
    let b : ((replay ms s).context_epoch == s.context_epoch) ≡ false = ground (arith, moved) in
    (rw a refl, rw b refl)
