-- ===== src/Reconcile.antt =====
-- The reconciliation decision (src/reconcile.rs). The model's answer is any text, and the JSON parser
-- is a parameter.
use hive_memory.Base.{
  ◌≡◌, ◌⊎◌, inl, inr, Bool, false, Option, none, some, List, [], any, if◌then◌else◌, arith, In,
  Option-cases, map,
}
use hive_memory.Text.{Text, codes, same, to_ascii_uppercase, find_from}
use hive_memory.Text.Equality.{any-same_iff}
use hive_memory.Json.{Json}

pub record ExistingMemory : Type 0 where
  pub id : Text
  pub text : Text

pub data Operation : Type 0 where
  add : Operation
  update : Text → Operation
  delete : Text → Operation
  noop : Operation

abbrev valid_target : List Text → Option Text → Bool
valid_target valid_ids none = false
valid_target valid_ids (some id) = any (λ valid. same valid id) valid_ids

-- The `match` of `parse_operation` on the upper-cased operation.
abbrev choose : Text → Option Text → Bool → Operation
choose op none target_valid =
    if same op (codes "DELETE") then noop else if same op (codes "NOOP") then noop else add
choose op (some target) target_valid =
    if same op (codes "UPDATE")
    then (if target_valid then update target else add)
    else if same op (codes "DELETE")
    then (if target_valid then delete target else noop)
    else if same op (codes "NOOP")
    then noop
    else add

abbrev or_empty : Option Text → Text
or_empty none = []
or_empty (some s) = s

module _ (j : Json) where
  -- The decision from a parsed value.
  unfoldable pub operation_of : j.Value → List Text → Operation
  unfolding to_ascii_uppercase
  operation_of value valid_ids =
      let op = to_ascii_uppercase (or_empty (j.get_str value (codes "op"))) in
      let target = j.get_str value (codes "id") in choose op target (valid_target valid_ids target)

  unfoldable pub parse_operation : Text → List Text → Operation
  parse_operation stdout valid_ids = elim (find_from b'{' stdout) [
    | none ↦ add
    | some rest ↦ elim (j.first_value rest) [
      | none ↦ add
      | some value ↦ operation_of value valid_ids
    ]
  ]

  -- `reconcile`, with the outcome of the backend's call as an argument.
  unfoldable pub reconcile : {E : Type 0} → Text ⊎ E → List ExistingMemory → Operation ⊎ E
  reconcile (inl raw) existing = inl (parse_operation raw (map (λ m. m.id) existing))
  reconcile (inr err) existing = inr err

-- The record that an operation would hide.
abbrev pub target_of : Operation → Option Text
target_of add = none
target_of (update t) = some t
target_of (delete t) = some t
target_of noop = none

choose_safe :
    (op : Text) (target : Option Text) (ids : List Text) (t : Text)
    → target_of (choose op target (valid_target ids target)) ≡ some t
    → In t ids
choose_safe op none ids t h = absurd (ground arith)
choose_safe op (some x) ids t h = (any-same_iff t ids).0 (ground arith)

module _ (j : Json) where
  operation_of_safe :
      (value : j.Value) (ids : List Text) (t : Text)
      → target_of (operation_of j value ids) ≡ some t
      → In t ids
  unfolding operation_of
  operation_of_safe value ids t h = choose_safe _ (j.get_str value (codes "id")) ids t h

  -- Whatever the model answers, an operation that hides a record names one of the records that
  -- were offered to it.
  pub parse_operation_safe :
      (stdout : Text) (valid_ids : List Text) (t : Text)
      → target_of (parse_operation j stdout valid_ids) ≡ some t
      → In t valid_ids
  unfolding parse_operation
  parse_operation_safe stdout ids t h = elim (Option-cases (find_from b'{' stdout)) [
    | inl e ↦ absurd (ground arith)
    | inr (rest, e) ↦ elim (Option-cases (j.first_value rest)) [
      | inl e' ↦ absurd (ground arith)
      | inr (value, e') ↦ operation_of_safe value ids t (rw (e, e', parse_operation) at h)
    ]
  ]
