-- ===== src/Supersession/Heuristic.antt =====
-- The heuristic on the words of two records, and the set of all hidden ids.
pub mod Reasons
pub mod Losses
use hive_memory.Base.{
  ℕ, zero, suc, ◌≡◌, Bool, true, false, ◌&&◌, ◌||◌, not, Option, none, some, List, [], ◌∷◌, ◌++◌,
  any, take, if◌then◌else◌, leb,
}
use hive_memory.Base.Int.{ℤ, ltb_ℤ, eqb_ℤ}
use hive_memory.Text.{Text, same, same_option, text_le, to_ascii_lowercase}
use hive_memory.Text.Sets.{insert, member}
use hive_memory.Record.{IndexEntry, is_remember}
use hive_memory.Supersession.Words.{
  explicitly_searches_old_fact, has_stale_marker, has_replacement_marker, topic_overlap,
}
use hive_memory.Supersession.Links.{names, is_exempt, timestamp_rank, explicit_suppressed_ids}

abbrev pub heuristic_scan_window : ℕ
heuristic_scan_window = 256

unfoldable pub same_scope : IndexEntry → IndexEntry → Bool
same_scope left right = same left.scope right.scope && same_option left.project_id right.project_id

module _ (parse_time : Text → Option ℤ) where
  unfoldable pub is_newer : IndexEntry → IndexEntry → Bool
  is_newer candidate older =
      ltb_ℤ (timestamp_rank parse_time older.created_at)
        (timestamp_rank parse_time candidate.created_at)

  unfoldable pub suppress_for_heuristic : IndexEntry → IndexEntry → Option Text → Bool
  suppress_for_heuristic older newer query =
      is_remember older.entry_kind
      && is_remember newer.entry_kind
      && same_scope older newer
      && is_newer newer older
      && has_stale_marker (to_ascii_lowercase older.body)
      && has_replacement_marker (to_ascii_lowercase newer.body)
      && not (is_exempt older newer query)
      && leb 2 (topic_overlap (to_ascii_lowercase older.body) (to_ascii_lowercase newer.body))

  -- The later of two records that name one another; the larger id if the times are equal.
  unfoldable pub cycle_winner_id : IndexEntry → IndexEntry → Text
  cycle_winner_id left right =
      if ltb_ℤ (timestamp_rank parse_time right.created_at)
        (timestamp_rank parse_time left.created_at)
      then left.id
      else if ltb_ℤ (timestamp_rank parse_time left.created_at)
          (timestamp_rank parse_time right.created_at)
      then right.id
      else if text_le right.id left.id
      then left.id
      else right.id

  unfoldable pub suppress_for_explicit_link : IndexEntry → IndexEntry → Option Text → Bool
  suppress_for_explicit_link older newer query =
      if is_exempt older newer query
      then false
      else if names older newer.id
      then not (same older.id (cycle_winner_id older newer))
      else true

  unfoldable pub should_suppress_older : IndexEntry → IndexEntry → Option Text → Bool
  should_suppress_older older newer query =
      if same older.id newer.id
      then false
      else if names newer older.id
      then suppress_for_explicit_link older newer query
      else suppress_for_heuristic older newer query

  -- One record of the window that hides the older one, where no link names it.
  abbrev pub hides : IndexEntry → Option Text → IndexEntry → Bool
  hides older query newer = not (names newer older.id) && should_suppress_older older newer query

  -- The loop over the older records of the window.
  unfoldable pub hide_stale :
      List IndexEntry → Option Text → List IndexEntry → List Text → List Text
  hide_stale window query [] suppressed = suppressed
  hide_stale window query (older ∷ rest) suppressed = hide_stale window query rest (
      if member older.id suppressed
      then suppressed
      else if any (hides older query) window
      then insert older.id suppressed
      else suppressed)

  unfoldable pub suppressed_ids : List IndexEntry → Option Text → List Text
  unfolding hide_stale
  suppressed_ids entries query =
      let window = take heuristic_scan_window entries in
      hide_stale window query window (explicit_suppressed_ids parse_time entries query)
