-- ===== src/Hook/Update/Coherent.antt =====
-- What holds of the state of a session after every operation.
use hive_memory.Secret.{detect}
use hive_memory.Hook.Update.{
  Mutation, apply_current, add_untracked_context, add_untracked_recall, add_turn_recall, mutate,
  replay, clear_pending, select_recall, set_turn_context, select_context, deliver, filter_topic,
}
use hive_memory.Base.{
  refl, ◌^◌, ◌==◌, max, ap, is_empty, not, length, inr, ◌≤◌, inl, ◌++◌, Bool-cases, ◌<◌, ◌≢◌, ◌≡◌,
  Bool, true, false, Option, none, some, List, [], ◌∷◌, arith,
}
use hive_memory.Base.Sorted.{IsSorted, sort_dedup-IsSorted}
use hive_memory.Text.{split_whitespace, byte_len, trim, Text}
use hive_memory.Hook.{
  DeliveryUpdate, text_order, is_valid, memory_order, DeliveredMemory, RecallTopic, HookState,
}

-- A topic that may be stored: short, not blank, and without a secret.
abbrev pub IsStorable : Option RecallTopic → Type 0
IsStorable none = Unit
IsStorable (some topic) =
    (trim topic.query ≢ [])
    × (byte_len topic.query ≤ 256)
    × (length (split_whitespace topic.query) ≤ 8)
    × (detect topic.query ≡ [])

-- The lists that operations extend are sorted and hold nothing twice, the topic may be stored, and the
-- epoch is a `u64`.
abbrev pub IsCoherent : HookState → Type 0
IsCoherent state =
    IsSorted memory_order state.delivered
    × IsSorted text_order state.turn_recall_ids
    × IsSorted text_order state.prompt_recall_memory_ids
    × IsStorable state.recall_topic
    × (state.context_epoch < 2 ^ 64)

empty_of : {A : Type 0} (xs : List A) → is_empty xs ≡ true → xs ≡ []
empty_of [] h = refl
empty_of (x ∷ xs) h = absurd (cc)

is_valid-IsStorable : (topic : RecallTopic) → is_valid topic ≡ true → IsStorable (some topic)
unfolding is_valid
is_valid-IsStorable topic h = (
  λ e. cc (ap is_empty e, not_empty (is_empty (trim topic.query)) (ground arith)),
  ground arith,
  ground arith,
  empty_of (detect topic.query) (ground arith),
)
  where
    not_empty : (b : Bool) → not b ≡ true → b ≡ false
    not_empty b h = ground arith

filter_topic-IsStorable : (topic : Option RecallTopic) → IsStorable (filter_topic topic)
filter_topic-IsStorable none = tt
filter_topic-IsStorable (some topic) = elim (Bool-cases (is_valid topic)) [
  | inl t ↦ rw t (is_valid-IsStorable topic t)
  | inr f ↦ rw f tt
]

deliver-IsCoherent :
    (ms : List DeliveredMemory) (s : HookState) → IsCoherent s → IsCoherent (deliver ms s)
deliver-IsCoherent [] s h = h
deliver-IsCoherent (m ∷ ms) s (d, t, p, r, e) =
    (sort_dedup-IsSorted memory_order (s.delivered ++ m ∷ ms), t, p, r, e)

select_context-IsCoherent :
    (key : Option Text) (s : HookState) → IsCoherent s → IsCoherent (select_context key s)
select_context-IsCoherent none s h = h
select_context-IsCoherent (some key) s h = h

select_recall-IsCoherent :
    (key : Option Text) (s : HookState) → IsCoherent s → IsCoherent (select_recall key s)
select_recall-IsCoherent none s h = h
select_recall-IsCoherent (some key) s h = h

add_turn_recall-IsCoherent :
    (ids : List Text) (s : HookState) → IsCoherent s → IsCoherent (add_turn_recall ids s)
add_turn_recall-IsCoherent [] s h = h
add_turn_recall-IsCoherent (id ∷ ids) s (d, t, p, r, e) =
    (d, sort_dedup-IsSorted text_order (s.turn_recall_ids ++ id ∷ ids), p, r, e)

set_turn_context-IsCoherent :
    (ids : Option (List Text)) (s : HookState) → IsCoherent s → IsCoherent (set_turn_context ids s)
set_turn_context-IsCoherent none s h = h
set_turn_context-IsCoherent (some ids) s h = h

add_untracked_context-IsCoherent :
    (key : Option Text) (ids : List Text) (s : HookState)
    → IsCoherent s
    → IsCoherent (add_untracked_context key ids s)
add_untracked_context-IsCoherent none ids s h = h
add_untracked_context-IsCoherent (some key) ids s h = h

add_untracked_recall-IsCoherent :
    (now : Text) (key : Option Text) (ids : List Text) (s : HookState)
    → IsCoherent s
    → IsCoherent (add_untracked_recall now key ids s)
add_untracked_recall-IsCoherent now none ids s h = h
add_untracked_recall-IsCoherent now (some key) ids s (d, t, p, r, e) =
    (d, t, sort_dedup-IsSorted text_order (s.prompt_recall_memory_ids ++ ids), r, e)

apply_current-IsCoherent :
    (now : Text) (u : DeliveryUpdate) (s : HookState)
    → IsCoherent s
    → IsCoherent (apply_current now u s)
apply_current-IsCoherent now u s h =
    add_untracked_recall-IsCoherent now u.untracked_recall_key u.untracked_recall_ids _ (
      add_untracked_context-IsCoherent u.untracked_context_key u.untracked_context_ids _ (
        set_turn_context-IsCoherent u.turn_context_ids _ (
          add_turn_recall-IsCoherent u.turn_recall_ids _ (
            select_recall-IsCoherent u.prompt_recall_key _
              (select_context-IsCoherent u.context_key _ (deliver-IsCoherent u.memories s h))))))

clear_pending-IsCoherent :
    (clear : Bool) (s : HookState) → IsCoherent s → IsCoherent (clear_pending clear s)
clear_pending-IsCoherent true s h = h
clear_pending-IsCoherent false s h = h

mutate-IsCoherent :
    (now : Text) (m : Mutation) (s : HookState) → IsCoherent s → IsCoherent (mutate now m s)
unfolding mutate
mutate-IsCoherent now (Mutation.memory_pending reason) s h = h
mutate-IsCoherent now Mutation.memory_satisfied s h = h
mutate-IsCoherent now (Mutation.receipts_refreshed n clear) s h =
    clear_pending-IsCoherent clear (record s { refreshed_receipts = max s.refreshed_receipts n }) h
mutate-IsCoherent now (Mutation.context_key key) s h = h
mutate-IsCoherent now (Mutation.startup_context key ids) s h = h
mutate-IsCoherent now (Mutation.prompt_recall recalled key ids) s (d, t, p, r, e) =
    (d, t, sort_dedup-IsSorted text_order (s.prompt_recall_memory_ids ++ ids), r, e)
mutate-IsCoherent now Mutation.context_reset s (d, t, p, r, e) = (tt, tt, tt, tt, omega arith)
mutate-IsCoherent now (Mutation.recall_topic epoch topic) s (d, t, p, r, e) =
    elim (Bool-cases (s.context_epoch == epoch)) [
      | inl b ↦ rw b (d, t, p, filter_topic-IsStorable topic, e)
      | inr b ↦ rw b (d, t, p, r, e)
    ]
mutate-IsCoherent now (Mutation.delivery u) s h = elim (Bool-cases (u.epoch == s.context_epoch)) [
  | inl b ↦ rw b (apply_current-IsCoherent now u s h)
  | inr b ↦ rw b h
]

-- Whatever operations the hooks of a session run, in whatever order, on a state where this holds: its
-- lists of delivered memories and of ids for recall stay sorted and without repetitions, the stored
-- topic is not blank, has at most 256 bytes and 8 words and holds no secret, and the epoch is a `u64`.
pub replay-IsCoherent :
    (ms : List (Text × Mutation)) (s : HookState) → IsCoherent s → IsCoherent (replay ms s)
unfolding replay
replay-IsCoherent [] s h = h
replay-IsCoherent ((now, m) ∷ ms) s h =
    replay-IsCoherent ms (mutate now m s) (mutate-IsCoherent now m s h)
