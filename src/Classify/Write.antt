-- ===== src/Classify/Write.antt =====
-- src/write_classify.rs: the kind and the scope that a write is given when the caller names none.
use hive_memory.Base.{
  inr, inl, Bool-cases, ◌⊎◌, ◌≡◌, ◌≢◌, Bool, true, false, ◌&&◌, ◌||◌, Option, none, some, is_empty,
  if◌then◌else◌, arith,
}
use hive_memory.Text.{Text, codes, contains, same, trim}
use hive_memory.Text.Equality.{same→eq}
use hive_memory.Record.{MemoryKind}
use hive_memory.Classify.Signals.{
  Unicode, operational_keywords, reads_as_preference, looks_operational,
}

pub record InferKindInput : Type 0 where
  pub scope : Text
  pub project_id : Option Text
  pub body : Text

pub record KindInference : Type 0 where
  pub kind : MemoryKind
  pub reason : Text

pub record InferScopeInput : Type 0 where
  pub project_id : Option Text
  pub explicit_kind : Option MemoryKind
  pub body : Text

pub record ScopeInference : Type 0 where
  pub scope : Text
  pub reason : Text

abbrev pub project : Text
project = codes "project"

abbrev pub is_some {ℓ} : {A : Type ℓ} → Option A → Bool
is_some none = false
is_some (some a) = true

abbrev pub is_project_fact : Option MemoryKind → Bool
is_project_fact (some MemoryKind.project_fact) = true
is_project_fact _ = false

abbrev pub is_preference : Option MemoryKind → Bool
is_preference (some MemoryKind.preference) = true
is_preference _ = false

unfoldable pub reads_as_reference : Text → Bool
reads_as_reference lower =
    contains lower (codes "http://")
    || contains lower (codes "https://")
    || contains lower (codes "see `")
    || contains lower (codes "read `")
    || contains lower (codes "see ~/.")
    || contains lower (codes "read ~/.")
    || contains lower (codes "see /")
    || contains lower (codes "read /")

unfoldable pub reads_as_repo_local : Text → Bool
reads_as_repo_local lower =
    contains lower (codes "this repo")
    || contains lower (codes "this project")
    || contains lower (codes "this checkout")
    || contains lower (codes "the repo ")
    || contains lower (codes "repo ")
    || contains lower (codes "repository")
    || contains lower (codes "workflow")
    || contains lower (codes "ci ")
    || contains lower (codes "deploy")
    || contains lower (codes "test command")

module _ (u : Unicode) where
  unfoldable pub reads_as_incident : Text → Bool
  reads_as_incident lower = looks_operational u lower operational_keywords

  unfoldable pub infer_scope : InferScopeInput → Option ScopeInference
  infer_scope input =
      if is_some input.project_id
      then (if is_project_fact input.explicit_kind
          then some (record { scope = project; reason = codes "explicit-project-fact" })
          else let lower = u.to_lowercase (trim input.body) in
            if is_empty lower
            then none
            else if is_preference input.explicit_kind || reads_as_preference lower
            then none
            else if reads_as_repo_local lower
            then some (record { scope = project; reason = codes "repo-local-language" })
            else none)
      else none

  unfoldable pub infer_kind : InferKindInput → Option KindInference
  infer_kind input =
      let body = trim input.body in
      let lower = u.to_lowercase body in
      if is_empty body
      then none
      else if reads_as_preference lower
      then some (record { kind = MemoryKind.preference; reason = codes "preference-language" })
      else if reads_as_incident lower
      then some (record { kind = MemoryKind.incident; reason = codes "operational-language" })
      else if reads_as_reference lower
      then some (record { kind = MemoryKind.reference; reason = codes "reference-language" })
      else if same input.scope project && is_some input.project_id
      then some (record { kind = MemoryKind.project_fact; reason = codes "project-scoped-write" })
      else none

-- A scope is inferred only for a write with a project, it is always `project`, and never for an
-- explicit preference or for a text that reads as one, unless the caller says it is a project fact.
pub infer_scope_sound :
    (u : Unicode) (input : InferScopeInput) (r : ScopeInference)
    → infer_scope u input ≡ some r
    → (r.scope ≡ project)
      × (input.project_id ≢ none)
      × ((is_project_fact input.explicit_kind ≡ true)
          ⊎ ((is_preference input.explicit_kind ≡ false)
              × (reads_as_preference (u.to_lowercase (trim input.body)) ≡ false)))
unfolding infer_scope
infer_scope_sound u input r h = elim (Bool-cases (is_project_fact input.explicit_kind)) [
  | inl t ↦ (ground arith, ground arith, inl t)
  | inr f ↦ (ground arith, ground arith, inr (ground arith, ground arith))
]

-- A write is given the kind of a project fact only in the scope and with the id of a project.
pub infer_kind-project :
    (u : Unicode) (input : InferKindInput) (r : KindInference)
    → infer_kind u input ≡ some r
    → r.kind ≡ MemoryKind.project_fact
    → (input.scope ≡ project) × (input.project_id ≢ none)
unfolding infer_kind
infer_kind-project u input r h k = ground (arith, same→eq input.scope project)
