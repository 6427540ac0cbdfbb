-- ===== src/Classify/Inject.antt =====
-- src/inject.rs: what is put in front of an agent at the start of a session.
use hive_memory.Base.{◌≡◌, ◌≢◌, ◌||◌, not, Option, none, some, List, if◌then◌else◌, arith}
use hive_memory.Text.{Text, codes, same, trim}
use hive_memory.Record.{EntryKind, MemoryKind}
use hive_memory.Classify.Signals.{
  Unicode, operational_keywords, reads_as_preference, looks_operational, looks_transient_status,
}
use hive_memory.Classify.Write.{project, is_some}

pub data Strategy : Type 0 where
  recency relevance adaptive : Strategy

pub data InjectClass : Type 0 where
  always_on project_scoped search_only : InjectClass

pub record IncidentMarkers : Type 0 where
  pub keywords : List Text

abbrev pub default_markers : IncidentMarkers
default_markers = record { keywords = operational_keywords }

pub record ClassifyInput : Type 0 where
  pub scope : Text
  pub project_id : Option Text
  pub entry_kind : EntryKind
  pub kind : Option MemoryKind
  pub body : Text

module _ (u : Unicode) where
  unfoldable pub from_config : Text → Strategy
  from_config value =
      let word = u.to_lowercase (trim value) in
      if same word (codes "recency")
      then Strategy.recency
      else if same word (codes "relevance")
      then Strategy.relevance
      else Strategy.adaptive

  -- The arms for an explicit kind.
  abbrev classify_kind : ClassifyInput → MemoryKind → InjectClass
  classify_kind input MemoryKind.preference =
      if not (is_some input.project_id) || reads_as_preference (u.to_lowercase input.body)
      then InjectClass.always_on
      else InjectClass.search_only
  classify_kind input MemoryKind.project_fact =
      if same input.scope project then InjectClass.project_scoped else InjectClass.search_only
  classify_kind input MemoryKind.incident = InjectClass.search_only
  classify_kind input MemoryKind.reference = InjectClass.search_only

  -- The heuristic for a record with no kind.
  abbrev classify_untagged : ClassifyInput → IncidentMarkers → InjectClass
  classify_untagged input markers =
      if same input.scope project
      then InjectClass.project_scoped
      else if looks_operational u input.body markers.keywords
      then InjectClass.search_only
      else if reads_as_preference (u.to_lowercase input.body)
      then InjectClass.always_on
      else InjectClass.search_only

  abbrev classify_remembered : ClassifyInput → IncidentMarkers → Option MemoryKind → InjectClass
  classify_remembered input markers (some kind) = classify_kind input kind
  classify_remembered input markers none = classify_untagged input markers

  abbrev classify_entry : ClassifyInput → IncidentMarkers → EntryKind → InjectClass
  classify_entry input markers EntryKind.note = InjectClass.search_only
  classify_entry input markers EntryKind.remember =
      if looks_transient_status (u.to_lowercase input.body)
      then InjectClass.search_only
      else classify_remembered input markers input.kind

  unfoldable pub classify : ClassifyInput → IncidentMarkers → InjectClass
  classify input markers = classify_entry input markers input.entry_kind

abbrev adaptive_kind : Text → Option MemoryKind → InjectClass
adaptive_kind scope (some MemoryKind.preference) = InjectClass.always_on
adaptive_kind scope (some MemoryKind.project_fact) =
    if same scope project then InjectClass.project_scoped else InjectClass.search_only
adaptive_kind scope (some MemoryKind.incident) = InjectClass.search_only
adaptive_kind scope (some MemoryKind.reference) = InjectClass.search_only
adaptive_kind scope none =
    if same scope project then InjectClass.project_scoped else InjectClass.always_on

abbrev adaptive_entry : ClassifyInput → EntryKind → InjectClass
adaptive_entry input EntryKind.note = InjectClass.search_only
adaptive_entry input EntryKind.remember = adaptive_kind input.scope input.kind

unfoldable pub classify_adaptive : ClassifyInput → InjectClass
classify_adaptive input = adaptive_entry input input.entry_kind

unfoldable pub select : Unicode → Strategy → ClassifyInput → IncidentMarkers → InjectClass
unfolding classify classify_adaptive
select u Strategy.recency input markers = InjectClass.always_on
select u Strategy.relevance input markers = classify u input markers
select u Strategy.adaptive input markers = classify_adaptive input

-- The relevance strategy only withholds: what it injects, always or in its project, the adaptive
-- strategy injects in the same way, whatever the markers.
pub relevance_within_adaptive :
    (u : Unicode) (input : ClassifyInput) (markers : IncidentMarkers)
    → select u Strategy.relevance input markers ≢ InjectClass.search_only
    → select u Strategy.adaptive input markers ≡ select u Strategy.relevance input markers
unfolding select
relevance_within_adaptive u input markers h = ground arith
