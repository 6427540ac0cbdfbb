-- ===== src/Examples/Classes.antt =====
-- Runs on records: who may read them, when they hold, and how they are classified.
use hive_memory.Base.{◌≡◌, ◌≢◌, ◌↔◌, ◌⊎◌, refl, true, false, none, some, [], ◌∷◌}
use hive_memory.Base.Int.{pos}
use hive_memory.Text.{is_ascii, starts_with, contains, codes, same, trim, to_ascii_lowercase}
use hive_memory.Record.{IndexEntry, MemoryKind}
use hive_memory.Visibility.{audience_allows, Readable, audience_allows_iff}
use hive_memory.Validity.{allows_search, InWindow, allows_search_iff}
use hive_memory.Classify.Signals.{
  has_iso_date, looks_transient_status, Unicode, reads_as_preference, looks_operational,
}
use hive_memory.Classify.Write.{
  reads_as_incident, reads_as_repo_local, InferKindInput, InferScopeInput, infer_kind, infer_scope,
  project, infer_scope_sound, is_project_fact, is_preference,
}
use hive_memory.Classify.Inject.{
  Strategy, InjectClass, ClassifyInput, select, classify, default_markers,
  relevance_within_adaptive,
}
use hive_memory.Classify.Agreement.{untagged, incident_withheld}
use hive_memory.Examples.{record_of, first_char}

abbrev ascii_only : Unicode
ascii_only = record { to_lowercase = λ s. to_ascii_lowercase s; on_ascii = λ s h. refl }

apart : InjectClass.always_on ≢ InjectClass.search_only
apart e = cc

abbrev private_record : IndexEntry
private_record = record (record_of "a" "1" "body" []) {
  scope = codes "agent-private";
  audience = codes "claude" ∷ [];
}

audience_allows_iff_example :
    (audience_allows private_record (some (codes "claude")) ≡ true)
    ↔ Readable private_record (some (codes "claude"))
audience_allows_iff_example = audience_allows_iff private_record (some (codes "claude"))

abbrev ended_record : IndexEntry
ended_record = record (record_of "a" "1" "body" []) { valid_to = some (codes "2") }

allows_search_iff_example :
    (allows_search first_char (pos 60) ended_record false ≡ true)
    ↔ InWindow first_char (pos 60) ended_record false
allows_search_iff_example = allows_search_iff first_char (pos 60) ended_record false

abbrev preference_input : ClassifyInput
preference_input = untagged (codes "user") none (codes "prefer tabs")

relevance_within_adaptive_example :
    select ascii_only Strategy.adaptive preference_input default_markers
    ≡ select ascii_only Strategy.relevance preference_input default_markers
unfolding select classify reads_as_preference looks_operational looks_transient_status contains
    to_ascii_lowercase starts_with same has_iso_date
relevance_within_adaptive_example =
    relevance_within_adaptive ascii_only preference_input default_markers apart

abbrev scope_input : InferScopeInput
scope_input = record {
  project_id = some (codes "p");
  explicit_kind = none;
  body = codes "this repo has ci";
}

infer_scope_sound_example :
    (project ≡ project)
    × (scope_input.project_id ≢ none)
    × ((is_project_fact scope_input.explicit_kind ≡ true)
        ⊎ ((is_preference scope_input.explicit_kind ≡ false)
            × (reads_as_preference (to_ascii_lowercase (trim scope_input.body)) ≡ false)))
unfolding infer_scope to_ascii_lowercase trim reads_as_preference starts_with contains
    reads_as_repo_local
infer_scope_sound_example =
    infer_scope_sound ascii_only scope_input
      (record { scope = project; reason = codes "repo-local-language" }) refl

abbrev incident_input : InferKindInput
incident_input = record {
  scope = codes "user";
  project_id = none;
  body = codes "2025-01-02 outage on db1";
}

incident_withheld_example :
    (select ascii_only Strategy.relevance
        (untagged (codes "user") none incident_input.body)
        default_markers
      ≡ InjectClass.search_only)
    × (select ascii_only Strategy.adaptive
          (untagged (codes "user") none incident_input.body)
          default_markers
        ≡ InjectClass.always_on)
unfolding infer_kind is_ascii trim reads_as_preference starts_with to_ascii_lowercase contains
    reads_as_incident looks_operational has_iso_date same
incident_withheld_example =
    incident_withheld ascii_only incident_input
      (record { kind = MemoryKind.incident; reason = codes "operational-language" }) (codes "user")
      none refl refl refl refl
