-- ===== src/Context/Request.antt =====
-- The request for a context, what an assembly keeps while it runs, and the rounds over curated files.
-- What the store's files give is an argument: the outcomes of `curated::collect`,
-- `project::related_project_ids` and `read_note_body`.
use hive_memory.Context.Escape.{escape_memory_body}
use hive_memory.Context.Policy.{trust_for, curated_scope_allowed}
use hive_memory.Context.{
  estimate_tokens, TrustLevel, ContextWarning, ContextDecision, ContextSection,
}
use hive_memory.Text.Maps.{TextMap}
use hive_memory.Context.Render.{render_curated_memory_block, render_memory_block, CuratedFile}
use hive_memory.Classify.Inject.{Strategy}
use hive_memory.Base.{ltb, ◌∷◌, ◌++◌, if◌then◌else◌, ℕ, ◌⊎◌, Bool, not, Option, List, []}
use hive_memory.Text.{Text, codes}
use hive_memory.Record.{IndexEntry}
use hive_memory.Base.{◌+◌}

pub record ContextInput : Type 0 where
  pub store_name : Text
  pub entries : List IndexEntry
  pub scopes : List Text
  pub sources : List Text
  pub include_inbox : Bool
  pub include_search_only : Bool
  pub agent_id : Option Text
  pub project_id : Option Text
  pub path_hint : Option Text
  pub max_tokens : ℕ
  pub inject_strategy : Strategy
  pub explain : Bool

pub data ContextError : Type 0 where
  read_note : Text → Text → ContextError
  parse_note : Text → Text → ContextError
  project_alias : Text → Text → ContextError

pub record StoreFiles : Type 0 where
  pub curated : Option Text → ContextError ⊎ List CuratedFile
  pub related : Text → ContextError ⊎ List Text
  pub note_body : Text → Text ⊎ Text

-- The parameters of `assemble_context_with_mode` beside the input.
pub record Mode : Type 0 where
  pub collect_curated : Bool
  pub filter_project : Bool
  pub resolve_project_aliases : Bool
  pub read_canonical_body_fallback : Bool
  pub local_project_aliases : Option (TextMap Text)

-- The variables of the assembly.
pub record Assembly : Type 0 where
  pub markdown : Text
  pub sections : List ContextSection
  pub decisions : List ContextDecision
  pub warnings : List ContextWarning
  pub estimated_tokens : ℕ
  pub seen_bodies : List Text

-- The end of one round of a loop: `continue`, or `break`.
pub data Progress : Type 0 where
  onward stopped : Assembly → Progress

unfoldable pub for_each : {X : Type 0} → (X → Assembly → Progress) → List X → Assembly → Assembly
for_each round [] a = a
for_each round (x ∷ xs) a = elim (round x a) [
  | Progress.onward b ↦ for_each round xs b
  | Progress.stopped b ↦ b
]

abbrev pub push_section : ContextSection → Assembly → Assembly
push_section section a = record a {
  markdown = a.markdown ++ section.block;
  estimated_tokens = a.estimated_tokens + section.estimated_tokens;
  sections = a.sections ++ section ∷ [];
}

abbrev pub push_warning : IndexEntry → Text → Assembly → Assembly
push_warning entry message a = record a {
  warnings = a.warnings ++ record { source_path = entry.note_path; message = message } ∷ [];
}

unfoldable pub push_decision : Bool → IndexEntry → Text → Text → Assembly → Assembly
push_decision explain entry action reason a = if not explain then a else record a {
  decisions =
      a.decisions
      ++ record { id = entry.id; source_path = entry.note_path; action = action; reason = reason }
        ∷ [];
}

abbrev pub skip : Bool → IndexEntry → Text → Assembly → Assembly
skip explain entry reason a = push_decision explain entry (codes "skipped") reason a

abbrev pub curated_section : Text → CuratedFile → ContextSection
curated_section store_name file =
    let block = render_curated_memory_block store_name file in
    record {
      id = file.id;
      store = store_name;
      scope = file.scope;
      project_id = file.project_id;
      trust = TrustLevel.curated;
      audience = [];
      source_path = file.relative_path;
      body = escape_memory_body file.body;
      block = block;
      estimated_tokens = estimate_tokens block;
    }

abbrev pub entry_section : Text → IndexEntry → Text → ContextSection
entry_section store_name entry record_body =
    let block = render_memory_block store_name entry (trust_for entry) record_body in
    record {
      id = entry.id;
      store = store_name;
      scope = entry.scope;
      project_id = entry.project_id;
      trust = trust_for entry;
      audience = entry.audience;
      source_path = entry.note_path;
      body = escape_memory_body record_body;
      block = block;
      estimated_tokens = estimate_tokens block;
    }

-- Whether a section goes past the budget.
abbrev pub overflows : ContextInput → ContextSection → Assembly → Bool
overflows input section a = ltb input.max_tokens (a.estimated_tokens + section.estimated_tokens)

unfoldable pub curated_round : ContextInput → CuratedFile → Assembly → Progress
curated_round input file a =
    let section = curated_section input.store_name file in
    if not (curated_scope_allowed file input.scopes)
    then Progress.onward a
    else if overflows input section a
    then Progress.stopped a
    else Progress.onward (push_section section a)
