-- ===== src/Supersession/Links.antt =====
-- The explicit `supersedes` links: the winners of cycles, and what the links hide.
pub mod Winners
pub mod Hidden
use hive_memory.Base.{
  ℕ, zero, suc, ◌+◌, ◌^◌, ◌-◌, ◌≡◌, Bool, true, false, ◌&&◌, ◌||◌, not, Option, none, some, List,
  [], ◌∷◌, ◌++◌, any, filter, filter_map, is_empty, if◌then◌else◌, leb, length,
}
use hive_memory.Base.Int.{ℤ, negsuc, ltb_ℤ, eqb_ℤ}
use hive_memory.Text.{Text, same, text_le, to_ascii_lowercase}
use hive_memory.Text.Maps.{TextMap, get, put_all}
use hive_memory.Text.Sets.{insert}
use hive_memory.Record.{IndexEntry}
use hive_memory.Supersession.Words.{explicitly_searches_old_fact}
use hive_memory.Supersession.Graph.{by_id, strongly_connected_components}

-- Whether a record names another one in its links.
abbrev pub names : IndexEntry → Text → Bool
names entry target = any (λ id. same id target) entry.supersedes

abbrev pub has_links : IndexEntry → Bool
has_links entry = not (is_empty entry.supersedes)

-- The exception for a query about the older of two facts.
unfoldable pub is_exempt : IndexEntry → IndexEntry → Option Text → Bool
is_exempt older newer query =
    explicitly_searches_old_fact (to_ascii_lowercase older.body) (to_ascii_lowercase newer.body)
      query

abbrev links_itself : List IndexEntry → Text → Bool
links_itself entries id = elim (by_id entries id) [ none ↦ false | some entry ↦ names entry id ]

-- More than one record, or one that names itself.
unfoldable pub is_cycle : List IndexEntry → List Text → Bool
is_cycle entries [] = false
is_cycle entries (id ∷ []) = links_itself entries id
is_cycle entries (id ∷ other ∷ ids) = true

abbrev record_winner : List Text → Option Text → TextMap Text → TextMap Text
record_winner scc none winners = winners
record_winner scc (some winner) winners = put_all scc winner winners

module _ (parse_time : Text → Option ℤ) where
  -- `i128::MIN` ranks a time that cannot be read below all others.
  unfoldable pub timestamp_rank : Text → ℤ
  timestamp_rank value = elim (parse_time value) [
    | some nanos ↦ nanos
    | none ↦ negsuc (2 ^ 127 - 1)
  ]

  -- The order of `max_by`: by time, then by id.
  unfoldable pub rank_le : IndexEntry → IndexEntry → Bool
  rank_le left right =
      ltb_ℤ (timestamp_rank left.created_at) (timestamp_rank right.created_at)
      || eqb_ℤ (timestamp_rank left.created_at) (timestamp_rank right.created_at)
        && text_le left.id right.id

  -- `max_by` keeps the later of two equal elements.
  unfoldable pub max_from : IndexEntry → List IndexEntry → IndexEntry
  max_from best [] = best
  max_from best (e ∷ es) = max_from (if rank_le best e then e else best) es

  abbrev max_by : List IndexEntry → Option IndexEntry
  max_by [] = none
  max_by (e ∷ es) = some (max_from e es)

  unfoldable pub winner_of : List IndexEntry → List Text → Option Text
  winner_of entries scc = elim (max_by (filter_map (λ id. by_id entries id) scc)) [
    | none ↦ none
    | some entry ↦ some entry.id
  ]

  unfoldable pub winners_from : List IndexEntry → List (List Text) → TextMap Text → TextMap Text
  winners_from entries [] winners = winners
  winners_from entries (scc ∷ sccs) winners =
      winners_from entries sccs (
        if is_cycle entries scc then record_winner scc (winner_of entries scc) winners else winners)

  unfoldable pub cycle_winners : List IndexEntry → TextMap Text
  cycle_winners entries = winners_from entries (strongly_connected_components entries) []

-- A member of a cycle is hidden unless it is the winner; any other target is.
abbrev pub loses : TextMap Text → Text → Bool
loses winners id = elim (get id winners) [ none ↦ true | some winner ↦ not (same id winner) ]

-- One link of one record.
unfoldable pub hide_target :
    List IndexEntry → TextMap Text → IndexEntry → Option Text → Text → List Text → List Text
hide_target entries winners newer query target suppressed = elim (by_id entries target) [
  | none ↦ suppressed
  | some older ↦
      if is_exempt older newer query
      then suppressed
      else if loses winners older.id
      then insert older.id suppressed
      else suppressed
]

-- The inner loop, over the links of one record.
unfoldable pub hide_targets :
    List IndexEntry → TextMap Text → IndexEntry → Option Text → List Text → List Text → List Text
hide_targets entries winners newer query [] suppressed = suppressed
hide_targets entries winners newer query (target ∷ targets) suppressed =
    hide_targets entries winners newer query targets
      (hide_target entries winners newer query target suppressed)

-- The outer loop, over the records with links.
unfoldable pub hide_links :
    List IndexEntry → TextMap Text → Option Text → List IndexEntry → List Text → List Text
hide_links entries winners query [] suppressed = suppressed
hide_links entries winners query (newer ∷ linked) suppressed =
    hide_links entries winners query linked
      (hide_targets entries winners newer query newer.supersedes suppressed)

module _ (parse_time : Text → Option ℤ) where
  unfoldable pub explicit_suppressed_ids : List IndexEntry → Option Text → List Text
  explicit_suppressed_ids entries query =
      let linked = filter has_links entries in
      hide_links entries (cycle_winners parse_time linked) query linked []

  unfoldable pub explicitly_suppressed_ids : List IndexEntry → List Text
  unfolding explicit_suppressed_ids
  explicitly_suppressed_ids entries = explicit_suppressed_ids entries none
