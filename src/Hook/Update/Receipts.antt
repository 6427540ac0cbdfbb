-- ===== src/Hook/Update/Receipts.antt =====
-- The cursor of the write receipts that a refresh has consumed.
use hive_memory.Base.{
  inr, inl, ◌==◌, Option, Bool-cases, Bool, ◌≡◌, refl, ℕ, max, true, false, List, [], ◌∷◌, arith,
}
use hive_memory.Text.{Text}
use hive_memory.Hook.{RecallTopic, DeliveryUpdate, HookState}
use hive_memory.Hook.Update.{
  mark_receipts_refreshed, apply_current, mutate, clear_pending, replay, set_recall_topic,
  apply_update, Mutation,
}

-- The highest count that a refresh reports.
abbrev pub highest_count : List (Text × Mutation) → ℕ
highest_count [] = 0
highest_count ((now, Mutation.receipts_refreshed n clear) ∷ ms) = max n (highest_count ms)
highest_count ((now, m) ∷ ms) = highest_count ms

clear_pending-refreshed :
    (clear : Bool) (s : HookState)
    → (clear_pending clear s).refreshed_receipts ≡ s.refreshed_receipts
clear_pending-refreshed true s = refl
clear_pending-refreshed false s = refl

apply_current-refreshed :
    (now : Text) (u : DeliveryUpdate) (s : HookState)
    → (apply_current now u s).refreshed_receipts ≡ s.refreshed_receipts
apply_current-refreshed now u s = ground arith

delivery-refreshed :
    (now : Text) (u : DeliveryUpdate) (s : HookState)
    → (apply_update now u s).refreshed_receipts ≡ s.refreshed_receipts
unfolding apply_update
delivery-refreshed now u s = elim (Bool-cases (u.epoch == s.context_epoch)) [
  | inl t ↦ rw t (apply_current-refreshed now u s)
  | inr f ↦ rw f refl
]

topic-refreshed :
    (now : Text) (epoch : ℕ) (topic : Option RecallTopic) (s : HookState)
    → (set_recall_topic now epoch topic s).refreshed_receipts ≡ s.refreshed_receipts
unfolding set_recall_topic
topic-refreshed now epoch topic s = ground arith

-- The cursor is the highest of its value and of the counts that refreshes report, in whatever order they
-- finish and whatever other operations run: it never moves back.
pub receipts_cursor :
    (ms : List (Text × Mutation)) (s : HookState)
    → (replay ms s).refreshed_receipts ≡ max s.refreshed_receipts (highest_count ms)
unfolding replay mutate
receipts_cursor [] s = omega arith
receipts_cursor ((now, Mutation.memory_pending reason) ∷ ms) s = receipts_cursor ms _
receipts_cursor ((now, Mutation.memory_satisfied) ∷ ms) s = receipts_cursor ms _
receipts_cursor ((now, Mutation.receipts_refreshed n clear) ∷ ms) s = omega (
  arith,
  receipts_cursor ms (mark_receipts_refreshed now n clear s),
  clear_pending-refreshed clear (record s { refreshed_receipts = max s.refreshed_receipts n }),
)
receipts_cursor ((now, Mutation.context_key key) ∷ ms) s = receipts_cursor ms _
receipts_cursor ((now, Mutation.startup_context key ids) ∷ ms) s = receipts_cursor ms _
receipts_cursor ((now, Mutation.prompt_recall recalled key ids) ∷ ms) s = receipts_cursor ms _
receipts_cursor ((now, Mutation.context_reset) ∷ ms) s = receipts_cursor ms _
receipts_cursor ((now, Mutation.recall_topic epoch topic) ∷ ms) s = omega (
  arith,
  receipts_cursor ms (set_recall_topic now epoch topic s),
  topic-refreshed now epoch topic s,
)
receipts_cursor ((now, Mutation.delivery u) ∷ ms) s =
    omega (arith, receipts_cursor ms (apply_update now u s), delivery-refreshed now u s)
