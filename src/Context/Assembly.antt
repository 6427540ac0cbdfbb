-- ===== src/Context/Assembly.antt =====
-- `assemble_context_with_mode` and its four callers.
pub mod Loop
pub mod Bounds
pub mod Rendered
pub mod Eligible
pub mod Explain
use hive_memory.Context.Request.{
  push_section, push_decision, overflows, push_warning, entry_section, curated_round, skip,
  for_each, Progress, ContextInput, Mode, Assembly, ContextError, StoreFiles,
}
use hive_memory.Validity.{allows_current}
use hive_memory.Visibility.{audience_allows}
use hive_memory.Context.Escape.{escape_memory_body}
use hive_memory.Text.Sets.{insert, member}
use hive_memory.Base.Int.{ℤ}
use hive_memory.Context.Policy.{
  project_allowed, superseded_among, scope_allowed, project_family_keys, source_allowed,
  curated_source_allowed, duplicate_key, trust_for, sorted_candidates, alias_keys,
  curated_scope_allowed, local_project_family_ids,
}
use hive_memory.Context.{
  estimate_tokens, TrustLevel, ContextWarning, ContextOutput, ContextDecision, ContextSection,
}
use hive_memory.Classify.Signals.{Unicode}
use hive_memory.Text.Maps.{TextMap}
use hive_memory.Context.Render.{
  render_header, render_curated_memory_block, render_memory_block, CuratedFile,
}
use hive_memory.Classify.Inject.{default_markers, select, InjectClass, Strategy}
use hive_memory.Base.{
  ◌+◌, is_empty, ltb, ◌∷◌, ◌++◌, if◌then◌else◌, ℕ, ◌⊎◌, inl, inr, Bool, true, false, ◌&&◌, not,
  Option, none, some, List, [],
}
use hive_memory.Text.{Text, codes}
use hive_memory.Record.{remember, IndexEntry}

-- What the tests before the duplicate test make of an entry.
pub data Screened : Type 0 where
  skipped : Text → Screened
  unreadable : Text → Screened
  ready : Text → Screened

abbrev pub entry_body : StoreFiles → Bool → IndexEntry → Text ⊎ Text
entry_body files fallback entry =
    if is_empty entry.body && fallback
    then files.note_body entry.note_path
    else if is_empty entry.body
    then inl (codes "local index entry has no cached body")
    else inr entry.body

abbrev pub is_recency : Strategy → Bool
is_recency Strategy.recency = true
is_recency Strategy.relevance = false
is_recency Strategy.adaptive = false

abbrev pub is_search_only : InjectClass → Bool
is_search_only InjectClass.search_only = true
is_search_only InjectClass.always_on = false
is_search_only InjectClass.project_scoped = false

abbrev pub ok_of : {A B : Type 0} → A ⊎ B → Option B
ok_of (inl error) = none
ok_of (inr value) = some value

abbrev pub singleton_of : Option Text → Option (List Text)
singleton_of none = none
singleton_of (some project_id) = some (project_id ∷ [])

abbrev pub local_ids : Option Text → Option (TextMap Text) → Option (List Text)
local_ids (some project_id) (some aliases) = some (local_project_family_ids project_id aliases)
local_ids project_id none = singleton_of project_id
local_ids none (some aliases) = none

abbrev pub some_ids : ContextError ⊎ List Text → ContextError ⊎ Option (List Text)
some_ids (inl error) = inl error
some_ids (inr ids) = inr (some ids)

unfoldable pub project_filter_ids : StoreFiles → Option Text → ContextError ⊎ Option (List Text)
project_filter_ids files none = inr none
project_filter_ids files (some project_id) = some_ids (files.related project_id)

abbrev pub local_keys : Option (TextMap Text) → List IndexEntry → TextMap Text
local_keys (some aliases) entries = alias_keys aliases entries
local_keys none entries = alias_keys [] entries

-- The budget test, and the section.
abbrev pub admit : ContextInput → IndexEntry → Text → Assembly → Progress
admit input entry body a =
    let section = entry_section input.store_name entry body in
    if overflows input section a
    then Progress.stopped (skip input.explain entry (codes "budget") a)
    else Progress.onward (
        push_decision input.explain entry (codes "included") (codes "included")
          (push_section section a))

abbrev pub take_screened : ContextInput → TextMap Text → IndexEntry → Screened → Assembly → Progress
take_screened input keys entry (Screened.skipped reason) a =
    Progress.onward (skip input.explain entry reason a)
take_screened input keys entry (Screened.unreadable message) a =
    Progress.onward (skip input.explain entry (codes "unreadable") (push_warning entry message a))
take_screened input keys entry (Screened.ready body) a =
    let key = duplicate_key entry body keys in
    if member key a.seen_bodies
    then Progress.onward (skip input.explain entry (codes "duplicate") a)
    else admit input entry body (record a { seen_bodies = insert key a.seen_bodies })

abbrev pub header : ContextInput → Text
header input =
    render_header input.store_name input.agent_id input.project_id input.path_hint input.scopes
      input.sources

abbrev pub empty_assembly : ContextInput → Assembly
empty_assembly input = record {
  markdown = header input;
  sections = [];
  decisions = [];
  warnings = [];
  estimated_tokens = estimate_tokens (header input);
  seen_bodies = [];
}

abbrev pub output_of : Assembly → ContextOutput
output_of a = record {
  markdown = a.markdown;
  sections = a.sections;
  decisions = a.decisions;
  estimated_tokens = a.estimated_tokens;
  warnings = a.warnings;
}

module _ (u : Unicode) where
  abbrev pub withheld : ContextInput → IndexEntry → Text → Bool
  withheld input entry body =
      not (is_recency input.inject_strategy)
      && is_search_only (
          select u input.inject_strategy
            (record {
              scope = entry.scope;
              project_id = entry.project_id;
              entry_kind = entry.entry_kind;
              kind = entry.kind;
              body = body;
            })
            default_markers)
      && not input.include_search_only

  abbrev pub screen_body : ContextInput → IndexEntry → Text ⊎ Text → Screened
  screen_body input entry (inl message) = Screened.unreadable message
  screen_body input entry (inr body) =
      if withheld input entry body
      then Screened.skipped (codes "search-only")
      else Screened.ready body

module _ (files : StoreFiles) where
  abbrev pub family_ids : Mode → ContextInput → ContextError ⊎ Option (List Text)
  family_ids mode input =
      if mode.resolve_project_aliases
      then project_filter_ids files input.project_id
      else inr (local_ids input.project_id mode.local_project_aliases)

  abbrev pub project_keys : Mode → ContextInput → TextMap Text
  project_keys mode input =
      if mode.resolve_project_aliases
      then project_family_keys (λ id. ok_of (files.related id)) input.entries
      else local_keys mode.local_project_aliases input.entries

  abbrev pub collected : Mode → ContextInput → ContextError ⊎ List CuratedFile
  collected mode input =
      if mode.collect_curated && curated_source_allowed input.sources
      then files.curated input.project_id
      else inr []

module _ (u : Unicode) (parse_time : Text → Option ℤ) (now : ℤ) (files : StoreFiles) where
  unfoldable pub screen :
      ContextInput → Mode → Option (List Text) → List Text → IndexEntry → Screened
  screen input mode project_ids superseded entry =
      if not (source_allowed entry input.sources input.include_inbox)
      then Screened.skipped (codes "source")
      else if not (scope_allowed entry input.scopes)
      then Screened.skipped (codes "scope")
      else if mode.filter_project && not (project_allowed entry project_ids)
      then Screened.skipped (codes "project")
      else if not (audience_allows entry input.agent_id)
      then Screened.skipped (codes "audience")
      else if member entry.id superseded
      then Screened.skipped (codes "superseded")
      else if not (allows_current parse_time now entry)
      then Screened.skipped (codes "validity")
      else screen_body u input entry (entry_body files mode.read_canonical_body_fallback entry)

  unfoldable pub entry_round :
      ContextInput
      → Mode
      → Option (List Text)
      → TextMap Text
      → List Text
      → IndexEntry
      → Assembly
      → Progress
  unfolding screen
  entry_round input mode project_ids keys superseded entry a =
      take_screened input keys entry (screen input mode project_ids superseded entry) a

  -- The two loops.
  abbrev pub assemble : ContextInput → Mode → Option (List Text) → List CuratedFile → Assembly
  assemble input mode project_ids curated_files =
      let candidates = sorted_candidates parse_time input.entries in
      let superseded =
        superseded_among parse_time now candidates input.sources input.include_inbox
          input.agent_id in
      for_each (entry_round input mode project_ids (project_keys files mode input) superseded)
        candidates (for_each (curated_round input) curated_files (empty_assembly input))

  abbrev pub assemble_collected :
      ContextInput
      → Mode
      → Option (List Text)
      → ContextError ⊎ List CuratedFile
      → ContextError ⊎ ContextOutput
  assemble_collected input mode project_ids (inl error) = inl error
  assemble_collected input mode project_ids (inr curated_files) =
      inr (output_of (assemble input mode project_ids curated_files))

  abbrev pub assemble_related :
      ContextInput → Mode → ContextError ⊎ Option (List Text) → ContextError ⊎ ContextOutput
  assemble_related input mode (inl error) = inl error
  assemble_related input mode (inr project_ids) =
      assemble_collected input mode project_ids (collected files mode input)

  unfoldable pub assemble_context_with_mode : ContextInput → Mode → ContextError ⊎ ContextOutput
  assemble_context_with_mode input mode = assemble_related input mode (family_ids files mode input)

  unfoldable pub assemble_context : ContextInput → ContextError ⊎ ContextOutput
  unfolding assemble_context_with_mode
  assemble_context input = assemble_context_with_mode input (record {
    collect_curated = true;
    filter_project = true;
    resolve_project_aliases = true;
    read_canonical_body_fallback = true;
    local_project_aliases = none;
  })

  unfoldable pub assemble_selected_context : ContextInput → ContextError ⊎ ContextOutput
  unfolding assemble_context_with_mode
  assemble_selected_context input = assemble_context_with_mode input (record {
    collect_curated = false;
    filter_project = false;
    resolve_project_aliases = true;
    read_canonical_body_fallback = true;
    local_project_aliases = none;
  })

  unfoldable pub assemble_local_index_context :
      ContextInput → TextMap Text → ContextError ⊎ ContextOutput
  unfolding assemble_context_with_mode
  assemble_local_index_context input project_aliases = assemble_context_with_mode input (record {
    collect_curated = false;
    filter_project = true;
    resolve_project_aliases = false;
    read_canonical_body_fallback = false;
    local_project_aliases = some project_aliases;
  })

  unfoldable pub assemble_selected_local_index_context :
      ContextInput → TextMap Text → ContextError ⊎ ContextOutput
  unfolding assemble_context_with_mode
  assemble_selected_local_index_context input project_aliases =
      assemble_context_with_mode input (record {
        collect_curated = false;
        filter_project = false;
        resolve_project_aliases = false;
        read_canonical_body_fallback = false;
        local_project_aliases = some project_aliases;
      })
