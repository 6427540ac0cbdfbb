-- ===== src/Context/Policy.antt =====
-- Which records and files a context takes, in which order, and which records hide others. A set of
-- project ids is a sorted list. In a map of aliases each id stands once.
use hive_memory.Classify.Write.{is_some, project}
use hive_memory.Validity.{allows_current}
use hive_memory.Visibility.{audience_allows}
use hive_memory.Supersession.Heuristic.{suppressed_ids}
use hive_memory.Supersession.Links.{explicitly_suppressed_ids}
use hive_memory.Context.Render.{CuratedFile}
use hive_memory.Text.Maps.{put_all, get, put, TextMap}
use hive_memory.Base.Int.{eqb_ℤ, ltb_ℤ, pos, ℤ}
use hive_memory.Text.Sets.{insert, member}
use hive_memory.Base.{
  ◌++◌, ◌==◌, if◌then◌else◌, filter, ltb, ◌∷◌, is_empty, ℕ, any, Bool, true, false, ◌&&◌, ◌||◌, not,
  Option, none, some, List, [],
}
use hive_memory.Text.{
  text_le, starts_with, split_whitespace, join, to_ascii_lowercase, Text, codes, same,
}
use hive_memory.Record.{IndexEntry, EntryKind, Confidence}
use hive_memory.Context.{TrustLevel}

pub data EntrySource : Type 0 where
  curated remembered inbox : EntrySource

abbrev pub kind_source : EntryKind → EntrySource
kind_source EntryKind.remember = EntrySource.remembered
kind_source EntryKind.note = EntrySource.inbox

unfoldable pub entry_source : IndexEntry → EntrySource
entry_source entry =
    if starts_with entry.id (codes "curated:")
    then EntrySource.curated
    else kind_source entry.entry_kind

-- `sources.iter().any(|source| source == name)`.
abbrev pub names_source : List Text → Text → Bool
names_source sources name = any (λ source. same source name) sources

abbrev pub selects_source : EntrySource → List Text → Bool → Bool
selects_source EntrySource.curated sources include_inbox = names_source sources (codes "curated")
selects_source EntrySource.remembered sources include_inbox =
    is_empty sources || names_source sources (codes "remembered")
selects_source EntrySource.inbox sources include_inbox =
    include_inbox || names_source sources (codes "inbox")

unfoldable pub source_allowed : IndexEntry → List Text → Bool → Bool
unfolding entry_source
source_allowed entry sources include_inbox =
    if names_source sources (codes "all")
    then true
    else selects_source (entry_source entry) sources include_inbox

unfoldable pub curated_source_allowed : List Text → Bool
curated_source_allowed sources =
    any (λ source. same source (codes "curated") || same source (codes "all")) sources

unfoldable pub curated_scope_allowed : CuratedFile → List Text → Bool
curated_scope_allowed candidate scopes =
    is_empty scopes || any (λ scope. same scope candidate.scope) scopes

unfoldable pub scope_allowed : IndexEntry → List Text → Bool
scope_allowed entry scopes = is_empty scopes || any (λ scope. same scope entry.scope) scopes

abbrev pub in_family : Option Text → Option (List Text) → Bool
in_family project_id none = false
in_family none (some project_ids) = false
in_family (some project_id) (some project_ids) = member project_id project_ids

unfoldable pub project_allowed : IndexEntry → Option (List Text) → Bool
project_allowed entry project_ids =
    if not (same entry.scope project) then true else in_family entry.project_id project_ids

abbrev pub source_trust : EntrySource → TrustLevel
source_trust EntrySource.curated = TrustLevel.curated
source_trust EntrySource.remembered = TrustLevel.remembered
source_trust EntrySource.inbox = TrustLevel.raw

unfoldable pub trust_for : IndexEntry → TrustLevel
unfolding entry_source
trust_for entry = source_trust (entry_source entry)

abbrev pub rank_of_source : EntrySource → ℕ
rank_of_source EntrySource.curated = 0
rank_of_source EntrySource.remembered = 1
rank_of_source EntrySource.inbox = 2

unfoldable pub source_rank : IndexEntry → ℕ
unfolding entry_source
source_rank entry = rank_of_source (entry_source entry)

unfoldable pub confidence_rank : Confidence → ℕ
confidence_rank Confidence.high = 3
confidence_rank Confidence.medium = 2
confidence_rank Confidence.low = 1

abbrev pub or_self : Text → Option Text → Text
or_self project_id none = project_id
or_self project_id (some family) = family

-- The ids of the alias map that share the family of the project, and the project itself.
abbrev pub family_members : TextMap Text → Text → List Text
family_members [] family = []
family_members ((id, candidate) ∷ aliases) family =
    let rest = family_members aliases family in
    if same candidate family then insert id rest else rest

unfoldable pub local_project_family_ids : Text → TextMap Text → List Text
local_project_family_ids project_id aliases =
    insert project_id (family_members aliases (or_self project_id (get project_id aliases)))

abbrev pub or_alone : Text → Option (List Text) → List Text
or_alone project_id none = project_id ∷ []
or_alone project_id (some related) = related

abbrev pub first_of : Text → List Text → Text
first_of project_id [] = project_id
first_of project_id (id ∷ related) = id

-- `related` is the outcome of `project::related_project_ids`, with `none` for an error.
module _ (related : Text → Option (List Text)) where
  abbrev pub add_family : Option Text → TextMap Text → TextMap Text
  add_family none keys = keys
  add_family (some project_id) keys =
      let ids = or_alone project_id (related project_id) in
      if is_some (get project_id keys) then keys else put_all ids (first_of project_id ids) keys

  abbrev pub add_families : List IndexEntry → TextMap Text → TextMap Text
  add_families [] keys = keys
  add_families (entry ∷ entries) keys = add_families entries (add_family entry.project_id keys)

  unfoldable pub project_family_keys : List IndexEntry → TextMap Text
  project_family_keys entries = add_families entries []

-- The keys of the entries' projects under a map of aliases; with no map, each stands for itself.
abbrev pub alias_key : TextMap Text → Option Text → TextMap Text → TextMap Text
alias_key aliases none keys = keys
alias_key aliases (some project_id) keys =
    put project_id (or_self project_id (get project_id aliases)) keys

abbrev pub alias_keys : TextMap Text → List IndexEntry → TextMap Text
alias_keys aliases [] = []
alias_keys aliases (entry ∷ entries) =
    alias_key aliases entry.project_id (alias_keys aliases entries)

abbrev pub key_of : Option Text → TextMap Text → Text
key_of none keys = []
key_of (some project_id) keys = or_self project_id (get project_id keys)

unfoldable pub duplicate_key : IndexEntry → Text → TextMap Text → Text
duplicate_key entry body project_keys =
    let normalized : Text = to_ascii_lowercase (join (codes " ") (split_whitespace body)) in
    if not (same entry.scope project)
    then normalized
    else codes "project:" ++ (key_of entry.project_id project_keys ++ (codes ":" ++ normalized))

module _ (parse_time : Text → Option ℤ) where
  -- A time that cannot be read ranks as the epoch.
  unfoldable pub timestamp_rank : Text → ℤ
  timestamp_rank value = elim (parse_time value) [ some nanos ↦ nanos | none ↦ pos 0 ]

  -- Whether the comparison of the sort does not answer `Greater`.
  unfoldable pub ranks_before : IndexEntry → IndexEntry → Bool
  ranks_before left right =
      let recent = timestamp_rank right.created_at in
      let other = timestamp_rank left.created_at in
      let sure = confidence_rank right.confidence in
      let unsure = confidence_rank left.confidence in
      ltb (source_rank left) (source_rank right)
      || source_rank left == source_rank right
        && (ltb sure unsure
            || sure == unsure
              && (ltb_ℤ recent other
                  || eqb_ℤ recent other && text_le left.note_path right.note_path))

  abbrev pub place : IndexEntry → List IndexEntry → List IndexEntry
  place entry [] = entry ∷ []
  place entry (other ∷ others) =
      let rest = place entry others in
      if ranks_before entry other then entry ∷ other ∷ others else other ∷ rest

  -- A stable sort.
  unfoldable pub sorted_candidates : List IndexEntry → List IndexEntry
  sorted_candidates [] = []
  sorted_candidates (entry ∷ entries) = place entry (sorted_candidates entries)

  module _ (now : ℤ) where
    unfoldable pub may_suppress : List Text → Bool → Option Text → IndexEntry → Bool
    may_suppress sources include_inbox agent_id entry =
        source_allowed entry sources include_inbox
        && audience_allows entry agent_id
        && allows_current parse_time now entry

    unfoldable pub explicitly_superseded_ids :
        List IndexEntry → List Text → Bool → Option Text → List Text
    explicitly_superseded_ids entries sources include_inbox agent_id =
        explicitly_suppressed_ids parse_time
          (filter (may_suppress sources include_inbox agent_id) entries)

    unfoldable pub superseded_among : List IndexEntry → List Text → Bool → Option Text → List Text
    superseded_among candidates sources include_inbox agent_id =
        suppressed_ids parse_time (filter (may_suppress sources include_inbox agent_id) candidates)
          none
