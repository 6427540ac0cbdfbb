-- ===== src/Hook/Update/Delivered.antt =====
-- The delivered memories of a session as a set that each context begins anew.
use hive_memory.Base.Sorted.{In-sort_dedup, In-sort_dedup_inv, sort_dedup, Order}
use hive_memory.Base.{
  inr, inl, Bool-cases, Option, max, any-append, any-In, ◌++◌, ap, ◌&&◌, any_witness, Bool_ext,
  ◌==◌, ◌∙◌, ◌||◌, any, ◌≡◌, refl, ℕ, ◌+◌, ◌%◌, ◌^◌, Bool, false, true, List, [], ◌∷◌, arith,
}
use hive_memory.Text.{Text}
use hive_memory.Hook.{
  RecallTopic, memory_order, is_memory, DeliveredMemory, DeliveryUpdate, has_delivered, HookState,
}
use hive_memory.Hook.Update.Epochs.{apply_update-epoch}
use hive_memory.Hook.Update.{
  clear_pending, apply_update, set_recall_topic, deliver, replay, apply_current, mutate, Mutation,
}

-- The view: the context that the model sees, and which memories it holds.
pub record Context : Type 0 where
  pub epoch : ℕ
  pub holds : Text → Text → Bool

abbrev pub context_of : HookState → Context
context_of s = record {
  epoch = s.context_epoch;
  holds = λ id digest. any (is_memory id digest) s.delivered;
}

-- A delivery that was prepared in this context adds its memories, and a lost context holds nothing.
abbrev pub receive : DeliveryUpdate → Context → Context
receive u c = record c {
  holds =
      λ id digest. c.holds id digest || u.epoch == c.epoch && any (is_memory id digest) u.memories;
}

abbrev pub follow : Mutation → Context → Context
follow Mutation.context_reset c = record {
  epoch = (c.epoch + 1) % 2 ^ 64;
  holds = λ id digest. false;
}
follow (Mutation.delivery u) c = receive u c
follow m c = c

abbrev pub follow_all : List (Text × Mutation) → Context → Context
follow_all [] c = c
follow_all ((now, m) ∷ ms) c = follow_all ms (follow m c)

any-sort_dedup :
    {A : Type 0} (o : Order A) (p : A → Bool) (xs : List A) → any p (sort_dedup o xs) ≡ any p xs
any-sort_dedup o p xs =
    Bool_ext (any p (sort_dedup o xs)) (any p xs)
      (λ h.
        let (a, i, t) = any_witness p (sort_dedup o xs) h in
        any-In p a xs (In-sort_dedup_inv o a xs i) t)
      (λ h.
        let (a, i, t) = any_witness p xs h in
        any-In p a (sort_dedup o xs) (In-sort_dedup o a xs i) t)

deliver_lem :
    (id digest : Text) (ms : List DeliveredMemory) (s : HookState)
    → any (is_memory id digest) (deliver ms s).delivered
      ≡ any (is_memory id digest) s.delivered || any (is_memory id digest) ms
deliver_lem id digest [] s = ground arith
deliver_lem id digest (m ∷ ms) s =
    any-sort_dedup memory_order (is_memory id digest) (s.delivered ++ m ∷ ms)
    ∙ any-append (is_memory id digest) s.delivered (m ∷ ms)

apply_current-delivered :
    (now : Text) (u : DeliveryUpdate) (s : HookState)
    → (apply_current now u s).delivered ≡ (deliver u.memories s).delivered
apply_current-delivered now u s = ground arith

clear_pending-context_of :
    (clear : Bool) (s : HookState) → context_of (clear_pending clear s) ≡ context_of s
clear_pending-context_of true s = refl
clear_pending-context_of false s = refl

received :
    (now : Text) (u : DeliveryUpdate) (s : HookState) (id digest : Text)
    → any (is_memory id digest) (apply_update now u s).delivered
      ≡ any (is_memory id digest) s.delivered
        || u.epoch == s.context_epoch && any (is_memory id digest) u.memories
unfolding apply_update
received now u s id digest = elim (Bool-cases (u.epoch == s.context_epoch)) [
  | inl t ↦ rw (t, apply_current-delivered now u s) (deliver_lem id digest u.memories s)
  | inr f ↦ rw f (ground arith)
]

topic-context_of :
    (now : Text) (epoch : ℕ) (topic : Option RecallTopic) (s : HookState)
    → context_of (set_recall_topic now epoch topic s) ≡ context_of s
unfolding set_recall_topic
topic-context_of now epoch topic s = elim (Bool-cases (s.context_epoch == epoch)) [
  | inl t ↦ rw t refl
  | inr f ↦ rw f refl
]

-- The abstract step has the view of the concrete one.
mutate-follow :
    (now : Text) (m : Mutation) (s : HookState)
    → context_of (mutate now m s) ≡ follow m (context_of s)
unfolding mutate
mutate-follow now (Mutation.memory_pending reason) s = refl
mutate-follow now Mutation.memory_satisfied s = refl
mutate-follow now (Mutation.receipts_refreshed n clear) s =
    clear_pending-context_of clear (record s { refreshed_receipts = max s.refreshed_receipts n })
mutate-follow now (Mutation.context_key key) s = refl
mutate-follow now (Mutation.startup_context key ids) s = refl
mutate-follow now (Mutation.prompt_recall recalled key ids) s = refl
mutate-follow now Mutation.context_reset s = refl
mutate-follow now (Mutation.recall_topic epoch topic) s = topic-context_of now epoch topic s
mutate-follow now (Mutation.delivery u) s = λ i. record {
  epoch = apply_update-epoch now u s i;
  holds = λ id digest. received now u s id digest i;
}

-- A memory counts as delivered exactly if the current context received it: after any operations in any
-- order, `has_delivered` answers what the set says to which deliveries prepared in the current
-- context add, and which each loss of the context empties.
pub replay-follow :
    (ms : List (Text × Mutation)) (s : HookState) (id digest : Text)
    → has_delivered (replay ms s) id digest ≡ (follow_all ms (context_of s)).holds id digest
unfolding has_delivered replay
replay-follow [] s id digest = refl
replay-follow ((now, m) ∷ ms) s id digest =
    replay-follow ms (mutate now m s) id digest
    ∙ ap (λ (c : Context). (follow_all ms c).holds id digest) (mutate-follow now m s)
