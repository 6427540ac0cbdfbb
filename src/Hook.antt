-- ===== src/Hook.antt =====
-- The state of a session that hooks keep (src/hook.rs): its fields, and the order of what was delivered.
-- Counters that only count files are natural numbers; the epoch wraps as `u64` does.
pub mod Update
pub mod Cycle
pub mod Receipts
pub mod Intent
use hive_memory.Base.Sorted.{Order}
use hive_memory.Text.Sets.{insert_all}
use hive_memory.Secret.{detect}
use hive_memory.Text.Equality.{
  text_le_refl, same_sym, eq→same, same→eq, text_le_antisym, text_le_trans, text_le_total,
}
use hive_memory.Base.{
  sym, subst, inr, ◌∙◌, ap, inl, Bool-cases, arith, length, leb, ◌⊎◌, false, is_empty, true, not,
  any, none, if◌then◌else◌, ◌≡◌, ℕ, Bool, ◌&&◌, Option, List, [], ◌∷◌,
}
use hive_memory.Text.{split_whitespace, byte_len, trim, text_le, same, Text}

abbrev pub recall_topic_max_bytes : ℕ
recall_topic_max_bytes = 256

abbrev pub recall_topic_max_terms : ℕ
recall_topic_max_terms = 8

pub record RecallTopic : Type 0 where
  pub query : Text
  pub store_key : Text
  pub project_id : Option Text

pub record DeliveredMemory : Type 0 where
  pub id : Text
  pub digest : Text

pub record HookState : Type 0 where
  pub recall_topic : Option RecallTopic
  pub memory_pending : Bool
  pub pending_reason : Option Text
  pub updated_at : Option Text
  pub refreshed_receipts : ℕ
  pub context_key : Option Text
  pub startup_memory_ids : List Text
  pub prompt_recall_key : Option Text
  pub prompt_recall_memory_ids : List Text
  pub prompt_recall_updated_at : Option Text
  pub delivered : List DeliveredMemory
  pub delivered_context_key : Option Text
  pub delivered_recall_key : Option Text
  pub turn_recall_ids : List Text
  pub turn_context_ids : List Text
  pub context_epoch : ℕ
  pub context_epoch_started_at : Option Text

-- `HookState::default`.
abbrev pub default_state : HookState
default_state = record {
  recall_topic = none;
  memory_pending = false;
  pending_reason = none;
  updated_at = none;
  refreshed_receipts = 0;
  context_key = none;
  startup_memory_ids = [];
  prompt_recall_key = none;
  prompt_recall_memory_ids = [];
  prompt_recall_updated_at = none;
  delivered = [];
  delivered_context_key = none;
  delivered_recall_key = none;
  turn_recall_ids = [];
  turn_context_ids = [];
  context_epoch = 0;
  context_epoch_started_at = none;
}

pub record DeliveryUpdate : Type 0 where
  pub epoch : ℕ
  pub memories : List DeliveredMemory
  pub context_key : Option Text
  pub prompt_recall_key : Option Text
  pub turn_recall_ids : List Text
  pub turn_context_ids : Option (List Text)
  pub untracked_context_key : Option Text
  pub untracked_context_ids : List Text
  pub untracked_recall_key : Option Text
  pub untracked_recall_ids : List Text

-- `RecallTopic::is_valid`.
unfoldable pub is_valid : RecallTopic → Bool
is_valid topic =
    not (is_empty (trim topic.query))
    && leb (byte_len topic.query) recall_topic_max_bytes
    && leb (length (split_whitespace topic.query)) recall_topic_max_terms
    && is_empty (detect topic.query)

abbrev pub is_memory : Text → Text → DeliveredMemory → Bool
is_memory id digest memory = same memory.id id && same memory.digest digest

unfoldable pub has_delivered : HookState → Text → Text → Bool
has_delivered state id digest = any (is_memory id digest) state.delivered

unfoldable pub known_session_memory_ids : HookState → List Text
known_session_memory_ids state =
    insert_all state.prompt_recall_memory_ids (insert_all state.startup_memory_ids [])

-- The derived order of delivered memories.
abbrev pub memory_le : DeliveredMemory → DeliveredMemory → Bool
memory_le left right =
    if same left.id right.id then text_le left.digest right.digest else text_le left.id right.id

abbrev pub memory_same : DeliveredMemory → DeliveredMemory → Bool
memory_same left right = same left.id right.id && same left.digest right.digest

pub text_order : Order Text
text_order = record {
  le = text_le;
  same = same;
  le_total = text_le_total;
  le_trans = text_le_trans;
  le_antisym = text_le_antisym;
  same→eq = same→eq;
  eq→same = eq→same;
}

memory_ext : (a b : DeliveredMemory) → a.id ≡ b.id → a.digest ≡ b.digest → a ≡ b
memory_ext a b e d = λ i. record { id = e i; digest = d i }

memory-same→eq : (a b : DeliveredMemory) → memory_same a b ≡ true → a ≡ b
memory-same→eq a b h =
    memory_ext a b (same→eq a.id b.id (ground arith)) (same→eq a.digest b.digest (ground arith))

memory-eq→same : (a b : DeliveredMemory) → a ≡ b → memory_same a b ≡ true
memory-eq→same a b h = ground (
  arith,
  eq→same a.id b.id (ap (λ (m : DeliveredMemory). m.id) h),
  eq→same a.digest b.digest (ap (λ (m : DeliveredMemory). m.digest) h),
)

memory_le_total : (a b : DeliveredMemory) → (memory_le a b ≡ true) ⊎ (memory_le b a ≡ true)
memory_le_total a b =
    ground (arith, same_sym a.id b.id, text_le_total a.id b.id, text_le_total a.digest b.digest)

memory_le_antisym : (a b : DeliveredMemory) → memory_le a b ≡ true → memory_le b a ≡ true → a ≡ b
memory_le_antisym a b h k = elim (Bool-cases (same a.id b.id)) [
  | inl t ↦
      memory_ext a b (same→eq a.id b.id t)
        (text_le_antisym a.digest b.digest (ground arith) (ground (arith, same_sym a.id b.id)))
  | inr f ↦ absurd (
      cc (
        f,
        eq→same a.id b.id
            (text_le_antisym a.id b.id (ground arith) (ground (arith, same_sym a.id b.id))),
      ))
]

-- The first parts, where they differ.
id_le : (a b : DeliveredMemory) → memory_le a b ≡ true → text_le a.id b.id ≡ true
id_le a b h = elim (Bool-cases (same a.id b.id)) [
  | inl t ↦ subst (λ (x : Text). text_le a.id x ≡ true) (same→eq a.id b.id t) (text_le_refl a.id)
  | inr f ↦ rw f at h
]

memory_le_trans :
    (a b c : DeliveredMemory) → memory_le a b ≡ true → memory_le b c ≡ true → memory_le a c ≡ true
memory_le_trans a b c h k = elim (Bool-cases (same a.id c.id)) [
  | inr f ↦ rw f (text_le_trans a.id b.id c.id (id_le a b h) (id_le b c k))
  | inl t ↦
      let e = same→eq a.id c.id t in
      let back : text_le b.id a.id ≡ true =
        subst (λ (x : Text). text_le b.id x ≡ true) (sym e) (id_le b c k) in
      let same_b = text_le_antisym a.id b.id (id_le a b h) back in
      rw t (
        text_le_trans a.digest b.digest c.digest (rw (eq→same a.id b.id same_b) at h)
          (rw (eq→same b.id c.id (sym same_b ∙ e)) at k))
]

pub memory_order : Order DeliveredMemory
memory_order = record {
  le = memory_le;
  same = memory_same;
  le_total = memory_le_total;
  le_trans = memory_le_trans;
  le_antisym = memory_le_antisym;
  same→eq = memory-same→eq;
  eq→same = memory-eq→same;
}
