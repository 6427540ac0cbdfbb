-- ===== src/Examples/Links.antt =====
-- Runs of the supersession code.
use hive_memory.Base.{◌≡◌, ◌↔◌, ◌⊎◌, ◌≤◌, refl, none, List, [], ◌∷◌, In, take, map, filter}
use hive_memory.Text.{
  Text, codes, byte_len, same, starts_with, contains, split, words, text_le, is_whitespace,
  split_whitespace, trim_start, trim_end, trim_matches, to_ascii_lowercase,
}
use hive_memory.Text.Sets.{insert, member}
use hive_memory.Supersession.Words.{
  body_tokens, contains_word, contains_phrase, has_stale_marker, has_replacement_marker,
  is_marker_word, is_query_stopword, query_tokens, topic_tokens, topic_overlap,
  explicitly_searches_old_fact,
}
use hive_memory.Record.{IndexEntry}
use hive_memory.Supersession.Graph.{
  start, search_roots, run, open_node, rounds, step, successors, by_id, close_node, pop_component,
  strongly_connected_components,
}
use hive_memory.Supersession.Graph.Disjoint.{count_all, components_disjoint}
use hive_memory.Supersession.Graph.Rounds.{search_ends}
use hive_memory.Supersession.Links.{
  is_exempt, timestamp_rank, has_links, cycle_winners, explicit_suppressed_ids,
}
use hive_memory.Supersession.Links.Hidden.{HiddenBy, explicit_suppressed_iff}
use hive_memory.Supersession.Heuristic.{same_scope, heuristic_scan_window, suppressed_ids}
use hive_memory.Supersession.Heuristic.Reasons.{IsReplaced, suppressed_iff}
use hive_memory.Supersession.Heuristic.Losses.{suppressed_both}
use hive_memory.Examples.{record_of, first_char}

abbrev three_cycle : List IndexEntry
three_cycle =
    record_of "a" "1" "first" (codes "c" ∷ [])
    ∷ record_of "b" "2" "second" (codes "a" ∷ [])
    ∷ record_of "c" "3" "third" (codes "b" ∷ [])
    ∷ []

abbrev three_ids : List Text
three_ids = codes "b" ∷ codes "c" ∷ codes "a" ∷ []

three_components : strongly_connected_components three_cycle ≡ three_ids ∷ []
unfolding strongly_connected_components run open_node rounds step successors by_id same close_node
    pop_component
three_components = refl

explicit_suppressed_iff_example :
    In (codes "a") (explicit_suppressed_ids first_char three_cycle none)
    ↔ HiddenBy three_cycle
        (cycle_winners first_char (filter has_links three_cycle))
        none
        three_cycle
        (codes "a")
explicit_suppressed_iff_example = explicit_suppressed_iff first_char three_cycle none (codes "a")

components_disjoint_example : count_all (codes "a") (strongly_connected_components three_cycle) ≤ 1
components_disjoint_example = components_disjoint three_cycle (codes "a")

search_ends_example :
    (search_roots three_cycle (map (λ (e : IndexEntry). e.id) three_cycle) start).frames ≡ []
search_ends_example = search_ends three_cycle

abbrev old_editor : IndexEntry
old_editor = record_of "a" "1" "the team used to edit with vim macros" (codes "b" ∷ [])

abbrev new_editor : IndexEntry
new_editor = record_of "b" "2" "the team now edit with helix macros" []

abbrev editors : List IndexEntry
editors = old_editor ∷ new_editor ∷ []

editors-IsReplaced : IsReplaced first_char none old_editor new_editor
unfolding same byte_len starts_with contains split words text_le is_whitespace split_whitespace
    trim_start trim_end trim_matches to_ascii_lowercase insert member body_tokens contains_word
    contains_phrase has_stale_marker has_replacement_marker is_marker_word is_query_stopword
    query_tokens topic_tokens topic_overlap explicitly_searches_old_fact is_exempt timestamp_rank
    same_scope
editors-IsReplaced = record {
  unnamed = refl;
  different = refl;
  older_remember = refl;
  newer_remember = refl;
  scopes = refl;
  later = refl;
  stale = refl;
  replacement = refl;
  not_asked = refl;
  overlap = refl;
}

suppressed_iff_example : In (codes "a") (suppressed_ids first_char editors none) ↔ (
    In (codes "a") (explicit_suppressed_ids first_char editors none)
    ⊎ ((older : IndexEntry) × In older (take heuristic_scan_window editors)
        × (older.id ≡ codes "a")
        × (newer : IndexEntry) × In newer (take heuristic_scan_window editors)
        × IsReplaced first_char none older newer))
suppressed_iff_example = suppressed_iff first_char none editors (codes "a")

suppressed_both_example :
    In (codes "a") (suppressed_ids first_char editors none)
    × In (codes "b") (suppressed_ids first_char editors none)
unfolding same byte_len starts_with contains split words text_le is_whitespace split_whitespace
    trim_start trim_end trim_matches to_ascii_lowercase insert member body_tokens contains_word
    contains_phrase has_stale_marker has_replacement_marker is_marker_word is_query_stopword
    query_tokens topic_tokens topic_overlap explicitly_searches_old_fact is_exempt timestamp_rank
    same_scope
suppressed_both_example =
    suppressed_both first_char none old_editor new_editor refl refl refl editors-IsReplaced
