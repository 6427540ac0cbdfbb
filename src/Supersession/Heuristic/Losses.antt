-- ===== src/Supersession/Heuristic/Losses.antt =====
-- Where the words and the links of two records point in opposite directions.
use hive_memory.Base.{◌≡◌, inl, inr, refl, false, Option, some, none, [], ◌∷◌, In, arith, filter}
use hive_memory.Base.Int.{ℤ}
use hive_memory.Text.{Text, same}
use hive_memory.Text.Equality.{same_refl}
use hive_memory.Text.Maps.{get}
use hive_memory.Record.{IndexEntry}
use hive_memory.Supersession.Graph.{by_id}
use hive_memory.Supersession.Links.{
  is_exempt, has_links, loses, cycle_winners, explicit_suppressed_ids,
}
use hive_memory.Supersession.Links.Hidden.{explicit_suppressed_iff}
use hive_memory.Supersession.Links.Winners.{get-cycle_winners_absent}
use hive_memory.Supersession.Heuristic.{suppressed_ids}
use hive_memory.Supersession.Heuristic.Reasons.{IsReplaced, suppressed_iff}

only_first :
    (a b : IndexEntry) (id : Text)
    → a.supersedes ≡ id ∷ []
    → b.supersedes ≡ []
    → filter has_links (a ∷ b ∷ []) ≡ a ∷ []
only_first a b id f g = ground (arith, f, g)

not_among : (a : IndexEntry) (id : Text) → same a.id id ≡ false → by_id (a ∷ []) id ≡ none
unfolding by_id
not_among a id d = ground (arith, d)

last_found : (a b : IndexEntry) → by_id (a ∷ b ∷ []) b.id ≡ some b
unfolding by_id
last_found a b = ground (arith, same_refl b.id)

-- Of two records, where the first names the second in its one link, the second has no link, the
-- query does not ask for the second, and the words of the second, later in time, replace those of the
-- first, both are hidden.
pub suppressed_both :
    (parse_time : Text → Option ℤ) (query : Option Text) (a b : IndexEntry)
    → a.supersedes ≡ b.id ∷ []
    → b.supersedes ≡ []
    → is_exempt b a query ≡ false
    → IsReplaced parse_time query a b
    → In a.id (suppressed_ids parse_time (a ∷ b ∷ []) query)
      × In b.id (suppressed_ids parse_time (a ∷ b ∷ []) query)
suppressed_both parse_time query a b f g x r =
    let entries = a ∷ b ∷ [] in
    let no_winner : get b.id (cycle_winners parse_time (filter has_links entries)) ≡ none =
      rw (only_first a b b.id f g)
        (get-cycle_winners_absent parse_time (a ∷ []) b.id (not_among a b.id r.different)) in
    let named : In b.id a.supersedes = rw f (inl refl) in
    let by_link : In b.id (explicit_suppressed_ids parse_time entries query) =
      (explicit_suppressed_iff parse_time entries query b.id).1
        (a, inl refl, named, (b, last_found a b, x, rw (no_winner, loses) refl)) in
    (
      (suppressed_iff parse_time query entries a.id).1
          (inr (a, inl refl, refl, b, inr (inl refl), r)),
      (suppressed_iff parse_time query entries b.id).1 (inl by_link),
    )
