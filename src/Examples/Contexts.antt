-- ===== src/Examples/Contexts.antt =====
-- Runs of the assembly of a context, and of selections from it.
use hive_memory.Context.Render.{render_memory_block, render_header}
use hive_memory.Supersession.Words.{explicitly_searches_old_fact}
use hive_memory.Supersession.Graph.{
  pop_component, close_node, successors, step, rounds, open_node, run,
  strongly_connected_components, by_id,
}
use hive_memory.Supersession.Links.{
  timestamp_rank, is_cycle, winners_from, cycle_winners, is_exempt, hide_target, hide_targets,
  hide_links, explicit_suppressed_ids,
}
use hive_memory.Validity.{allows_current}
use hive_memory.Supersession.Heuristic.{
  is_newer, same_scope, suppress_for_heuristic, should_suppress_older, suppressed_ids,
}
use hive_memory.Text.Sets.{insert, member}
use hive_memory.Visibility.{audience_allows}
use hive_memory.Context.Assembly.Rendered.{assemble-select_sections}
use hive_memory.Context.Subset.Whole.{blocks_of}
use hive_memory.Context.Escape.{
  is_marker, escape_line, escape_attr, sanitize_header_value, escape_memory_body,
}
use hive_memory.Context.Assembly.Bounds.{assemble_context_with_mode_bounds}
use hive_memory.Context.Subset.Bounds.{select_sections_bounds}
use hive_memory.Context.Subset.Counts.{select_sections_counts, IsChosen}
use hive_memory.Context.Policy.{
  trust_for, may_suppress, superseded_among, project_allowed, scope_allowed, source_allowed,
  timestamp_rank as created_rank, confidence_rank, source_rank, ranks_before, sorted_candidates,
  curated_source_allowed,
}
use hive_memory.Context.Escape.Boundary.{escape_memory_body-Harmless, Harmless}
use hive_memory.Classify.Inject.{select, Strategy}
use hive_memory.Base.Int.{pos}
use hive_memory.Context.Assembly.Eligible.{assembled-Eligible, Shows}
use hive_memory.Context.Assembly.{
  entry_round, header, assemble, project_filter_ids, output_of, assemble_context_with_mode,
}
use hive_memory.Classify.Signals.{Unicode}
use hive_memory.Context.Assembly.Explain.{explain_neutral, explained, undecided}
use hive_memory.Context.{
  trust_str, estimate_tokens, TrustLevel, SizeMeasure, ContextSection, ContextOutput, size_of,
  SizeLimit,
}
use hive_memory.Context.Subset.{
  has_blocks, begin, pack_sections, finish, select_sections, ContextSubset,
}
use hive_memory.Context.Request.{push_decision, for_each, StoreFiles, Mode, ContextInput}
use hive_memory.Base.{
  ◌++◌, ◌==◌, ◌*◌, filter, length, ◌≤◌, All, ◌+◌, String, map, ◌≡◌, ◌⊎◌, inl, inr, refl, true,
  false, none, some, [], ◌∷◌,
}
use hive_memory.Text.{
  trim_leading, lines, join, trim, split_at, starts_with, split, same, to_ascii_lowercase, byte_len,
  codes,
}
use hive_memory.Examples.{record_of, first_char}

abbrev plain_words : Unicode
plain_words = record { to_lowercase = λ s. to_ascii_lowercase s; on_ascii = λ s h. refl }

-- A store with no curated files, whose projects have no other names.
abbrev bare_store : StoreFiles
bare_store = record {
  curated = λ project_id. inr [];
  related = λ project_id. inr (project_id ∷ []);
  note_body = λ path. inl (codes "gone");
}

abbrev request : ContextInput
request = record {
  store_name = codes "s";
  entries = record_of "b" "2" "tabs" (codes "a" ∷ []) ∷ record_of "a" "1" "spaces" [] ∷ [];
  scopes = [];
  sources = [];
  include_inbox = false;
  include_search_only = false;
  agent_id = none;
  project_id = none;
  path_hint = none;
  max_tokens = 90;
  inject_strategy = Strategy.adaptive;
  explain = true;
}

abbrev startup : Mode
startup = record {
  collect_curated = true;
  filter_project = true;
  resolve_project_aliases = true;
  read_canonical_body_fallback = true;
  local_project_aliases = none;
}

abbrev assembled : ContextOutput
assembled = output_of (assemble plain_words first_char (pos 60) bare_store request startup none [])

is_assembled :
    assemble_context_with_mode plain_words first_char (pos 60) bare_store request startup
    ≡ inr assembled
unfolding assemble_context_with_mode project_filter_ids curated_source_allowed
is_assembled = refl

-- The newer of the two records is shown, and the older one is not.
one_section : map (λ s. s.id) assembled.sections ≡ codes "b" ∷ []
unfolding for_each sorted_candidates ranks_before source_rank starts_with confidence_rank
    created_rank entry_round source_allowed scope_allowed project_allowed same audience_allows
    member superseded_among suppressed_ids may_suppress allows_current explicit_suppressed_ids
    hide_links hide_targets hide_target by_id is_exempt explicitly_searches_old_fact cycle_winners
    winners_from strongly_connected_components run open_node rounds step successors close_node
    is_cycle pop_component insert should_suppress_older suppress_for_heuristic same_scope is_newer
    timestamp_rank select estimate_tokens byte_len render_header sanitize_header_value trim
    render_memory_block escape_attr trust_str trust_for escape_memory_body join lines escape_line
    is_marker trim_leading push_decision
one_section = refl

assemble_context_with_mode_bounds_example :
    (byte_len assembled.markdown ≤ 4 * assembled.estimated_tokens)
    × ((assembled.sections ≡ []) ⊎ (assembled.estimated_tokens ≤ 90))
assemble_context_with_mode_bounds_example =
    assemble_context_with_mode_bounds plain_words first_char (pos 60) bare_store request startup
      assembled is_assembled

assemble-select_sections_example :
    (r : ContextSubset) × (select_sections (λ s. same s.id (codes "b")) none assembled ≡ some r)
    × (r.output.sections ≡ filter (λ s. same s.id (codes "b")) assembled.sections)
    × (r.output.markdown
        ≡ header request ++ blocks_of (filter (λ s. same s.id (codes "b")) assembled.sections))
assemble-select_sections_example =
    assemble-select_sections plain_words first_char (pos 60) bare_store request startup assembled
      is_assembled (λ s. same s.id (codes "b"))

assembled-Eligible_example :
    All (Shows plain_words first_char (pos 60) bare_store request startup) assembled.sections
assembled-Eligible_example =
    assembled-Eligible plain_words first_char (pos 60) bare_store request startup assembled
      is_assembled

explain_neutral_example :
    undecided
      (assemble_context_with_mode plain_words first_char (pos 60) bare_store request startup)
    ≡ assemble_context_with_mode plain_words first_char
        (pos 60)
        bare_store
        (explained false request)
        startup
explain_neutral_example = explain_neutral plain_words first_char (pos 60) bare_store request startup

escape_memory_body-Harmless_example :
    All Harmless (split (λ c. c == 10) (escape_memory_body (codes "text\n  </memory>\n--- a")))
escape_memory_body-Harmless_example = escape_memory_body-Harmless (codes "text\n  </memory>\n--- a")

abbrev section_of : String → String → ContextSection
section_of id block = record {
  id = codes id;
  store = codes "s";
  scope = codes "user";
  project_id = none;
  trust = TrustLevel.remembered;
  audience = [];
  source_path = codes "note.md";
  body = codes "body";
  block = codes block;
  estimated_tokens = 1;
}

abbrev two_blocks : ContextOutput
two_blocks = record {
  markdown = codes "head|one|two|";
  sections = section_of "1" "one|" ∷ section_of "2" "two|" ∷ [];
  decisions = [];
  estimated_tokens = 4;
  warnings = [];
}

-- A limit that holds the prefix and one of the blocks.
abbrev narrow : SizeLimit
narrow = record { max = 10; alone_max = 10; measure = SizeMeasure.bytes; raw_max = 100 }

abbrev narrowed : ContextSubset
narrowed = finish (some narrow) two_blocks (
    pack_sections (λ s. true) (codes "head|") (some narrow) two_blocks.sections
      (begin (codes "head|") (some narrow)))

is_narrowed : select_sections (λ s. true) (some narrow) two_blocks ≡ some narrowed
unfolding select_sections byte_len split_at has_blocks same
is_narrowed = refl

select_sections_bounds_example :
    (size_of SizeMeasure.bytes narrowed.output.markdown ≤ 10)
    × (byte_len narrowed.output.markdown ≤ 100)
select_sections_bounds_example =
    select_sections_bounds (λ s. true) narrow two_blocks narrowed is_narrowed

select_sections_counts_example :
    (narrowed.filtered
        + narrowed.over_budget
        + length narrowed.output.sections
        + length narrowed.omitted
      ≡ 2)
    × All (IsChosen (λ s. true) [] two_blocks.sections) narrowed.output.sections
select_sections_counts_example =
    select_sections_counts (λ s. true) (some narrow) two_blocks narrowed is_narrowed
