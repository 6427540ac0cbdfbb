-- ===== src/Supersession/Links/Winners.antt =====
-- The cycles of links and what is left of them.
use hive_memory.Base.{
  Bool-cases, ℕ, zero, suc, ◌≤◌, ◌≡◌, ◌⊎◌, ◌∙◌, inl, inr, refl, sym, ap, subst, Bool, true, false,
  Option, none, some, List, [], ◌∷◌, arith, In, All, filter, if◌then◌else◌, filter_map, All-In,
}
use hive_memory.Base.Int.{ℤ}
use hive_memory.Text.{Text}
use hive_memory.Text.Equality.{same→eq, same_refl, eq→same}
use hive_memory.Text.Maps.{TextMap, get, put, put_all}
use hive_memory.Record.{IndexEntry}
use hive_memory.Supersession.Graph.{by_id, strongly_connected_components}
use hive_memory.Supersession.Graph.Lookup.{by_id-id}
use hive_memory.Supersession.Graph.Disjoint.{count, count_all, components_disjoint}
use hive_memory.Supersession.Graph.Present.{IsHere, components-IsHere}
use hive_memory.Supersession.Links.{
  same, rank_le, has_links, cycle_winners, explicit_suppressed_ids, max_from, max_by, is_cycle,
  winner_of, record_winner, winners_from,
}
use hive_memory.Supersession.Links.Hidden.{HiddenBy, explicit_suppressed_iff}

In-count : (x : Text) (l : List Text) → In x l → 1 ≤ count x l
In-count x [] i = absurd i
In-count x (y ∷ l) (inl e) = ground (arith, eq→same y x (sym e))
In-count x (y ∷ l) (inr i) = omega (arith, In-count x l i)

count_zero-put_all :
    (x : Text) (ks : List Text) (v : Text) (m : TextMap Text)
    → count x ks ≡ 0
    → get x (put_all ks v m) ≡ get x m
count_zero-put_all x [] v m h = refl
count_zero-put_all x (k ∷ ks) v m h = ground (arith, count_zero-put_all x ks v (put k v m))

at_zero : (n : ℕ) → (n ≡ 0) ⊎ (1 ≤ n)
at_zero zero = inl refl
at_zero (suc n) = inr (omega arith)

count-put_all :
    (x : Text) (ks : List Text) (v : Text) (m : TextMap Text)
    → 1 ≤ count x ks
    → get x (put_all ks v m) ≡ some v
count-put_all x [] v m h = absurd (omega arith)
count-put_all x (k ∷ ks) v m h = elim (at_zero (count x ks)) [
  | inl z ↦ ground (arith, count_zero-put_all x ks v (put k v m) z)
  | inr p ↦ count-put_all x ks v (put k v m) p
]

abbrev AreDisjoint : List (List Text) → Type 0
AreDisjoint sccs = (x : Text) → count_all x sccs ≤ 1

module _ (parse_time : Text → Option ℤ) where
  pick_case :
      (b : Bool) (best e m : IndexEntry) (es : List IndexEntry)
      → In m ((if b then e else best) ∷ es)
      → In m (best ∷ e ∷ es)
  pick_case true best e m es i = inr i
  pick_case false best e m es (inl q) = inl q
  pick_case false best e m es (inr i) = inr (inr i)

  max_from-In :
      (best : IndexEntry) (es : List IndexEntry) → In (max_from parse_time best es) (best ∷ es)
  max_from-In best [] = unfold max_from in inl refl
  max_from-In best (e ∷ es) = step (max_from-In (if rank_le parse_time best e then e else best) es)
    where
      step :
          In
            (max_from parse_time (if rank_le parse_time best e then e else best) es)
            ((if rank_le parse_time best e then e else best) ∷ es)
          → In (max_from parse_time best (e ∷ es)) (best ∷ e ∷ es)
      step i = unfold max_from in pick_case (rank_le parse_time best e) best e _ es i

module _ (entries : List IndexEntry) where
  found_case :
      (e : IndexEntry) (id : Text) (scc : List Text) (rest : List IndexEntry)
      (o : Option IndexEntry)
      → by_id entries id ≡ o
      → (In e rest → In e.id scc)
      → In e (elim o [ none ↦ rest | some y ↦ y ∷ rest ])
      → In e.id (id ∷ scc)
  found_case e id scc rest none q ih j = inr (ih j)
  found_case e id scc rest (some y) q ih (inl p) =
      inl (ap (λ (x : IndexEntry). x.id) p ∙ by_id-id entries id y q)
  found_case e id scc rest (some y) q ih (inr j) = inr (ih j)

  In-found :
      (e : IndexEntry) (scc : List Text)
      → In e (filter_map (λ id. by_id entries id) scc)
      → In e.id scc
  In-found e [] i = absurd i
  In-found e (id ∷ scc) i =
      found_case e id scc (filter_map (λ x. by_id entries x) scc) (by_id entries id) refl
        (λ j. In-found e scc j) i

module _ (parse_time : Text → Option ℤ) (entries : List IndexEntry) where
  winner_case :
      (scc : List Text) (l : List IndexEntry) (w : Text)
      → ((e : IndexEntry) → In e l → In e.id scc)
      → (elim (max_by parse_time l) [ none ↦ none | some entry ↦ some entry.id ]) ≡ some w
      → In w scc
  winner_case scc [] w f h = absurd (cc)
  winner_case scc (e ∷ es) w f h =
      subst (λ x. In x scc) (same_winner h)
        (f (max_from parse_time e es) (max_from-In parse_time e es))
    where
      same_winner : some (max_from parse_time e es).id ≡ some w → (max_from parse_time e es).id ≡ w
      same_winner q = cc

  -- The winner of a component is one of its nodes.
  winner_of-In : (scc : List Text) (w : Text) → winner_of parse_time entries scc ≡ some w → In w scc
  unfolding winner_of
  winner_of-In scc w h =
      winner_case scc (filter_map (λ id. by_id entries id) scc) w (λ e i. In-found entries e scc i)
        h

  found_winner :
      (o : Option IndexEntry) (e : IndexEntry) (rest : List IndexEntry)
      → o ≡ some e
      → (w : Text) × ((elim (max_by parse_time (elim o [ none ↦ rest | some y ↦ y ∷ rest ])) [
        | none ↦ none
        | some entry ↦ some entry.id
      ])
          ≡ some w)
  found_winner none e rest q = absurd (cc)
  found_winner (some y) e rest q = ((max_from parse_time y rest).id, refl)

  -- A component of present records that is not empty has a winner.
  has_winner :
      (scc : List Text)
      → All (IsHere entries) scc
      → is_cycle entries scc ≡ true
      → (w : Text) × (winner_of parse_time entries scc ≡ some w)
  unfolding winner_of
  has_winner [] h c = absurd (unfold is_cycle in cc)
  has_winner (id ∷ scc) ((e, q), h) c =
      found_winner (by_id entries id) e (filter_map (λ x. by_id entries x) scc) q

  untouched :
      (sccs : List (List Text)) (m : TextMap Text) (w : Text)
      → count_all w sccs ≡ 0
      → get w (winners_from parse_time entries sccs m) ≡ get w m
  unfolding winners_from
  untouched [] m w h = refl
  untouched (scc ∷ sccs) m w h =
      untouched sccs _ w (omega arith)
      ∙ one (is_cycle entries scc) (winner_of parse_time entries scc)
    where
      one : (b : Bool) (o : Option Text) → get w (if b then record_winner scc o m else m) ≡ get w m
      one false o = refl
      one true none = refl
      one true (some v) = count_zero-put_all w scc v m (omega arith)

  -- The winner of each cycle is recorded as its own winner.
  covered :
      (sccs : List (List Text)) (m : TextMap Text) (scc : List Text) (w : Text)
      → AreDisjoint sccs
      → In scc sccs
      → is_cycle entries scc ≡ true
      → winner_of parse_time entries scc ≡ some w
      → get w (winners_from parse_time entries sccs m) ≡ some w
  unfolding winners_from
  covered [] m scc w d i c h = absurd i
  covered (s ∷ sccs) m scc w d (inl e) c h =
      let cycle : is_cycle entries s ≡ true = subst (λ x. is_cycle entries x ≡ true) e c in
      let winner : winner_of parse_time entries s ≡ some w =
        subst (λ x. winner_of parse_time entries x ≡ some w) e h in
      let member : 1 ≤ count w s = In-count w s (winner_of-In s w winner) in
      rw (cycle, winner)
        (untouched sccs (put_all s w m) w (omega (arith, d w)) ∙ count-put_all w s w m member)
  covered (s ∷ sccs) m scc w d (inr i) c h = covered sccs _ scc w (λ x. omega (arith, d x)) i c h

-- An id of no record among those with links has no winner recorded.
absent_count :
    (entries : List IndexEntry) (x : Text) (ids : List Text)
    → by_id entries x ≡ none
    → All (IsHere entries) ids
    → count x ids ≡ 0
absent_count entries x [] n h = refl
absent_count entries x (y ∷ ids) n ((e, q), h) = elim (Bool-cases (same y x)) [
  | inr f ↦ ground (arith, absent_count entries x ids n h)
  | inl t ↦ absurd (ground (arith, ap (by_id entries) (same→eq y x t)))
]

absent_count_all :
    (entries : List IndexEntry) (x : Text) (sccs : List (List Text))
    → by_id entries x ≡ none
    → All (All (IsHere entries)) sccs
    → count_all x sccs ≡ 0
absent_count_all entries x [] n h = refl
absent_count_all entries x (scc ∷ sccs) n (h, hs) =
    omega (arith, absent_count entries x scc n h, absent_count_all entries x sccs n hs)

pub get-cycle_winners_absent :
    (parse_time : Text → Option ℤ) (entries : List IndexEntry) (x : Text)
    → by_id entries x ≡ none
    → get x (cycle_winners parse_time entries) ≡ none
unfolding cycle_winners
get-cycle_winners_absent parse_time entries x n =
    untouched parse_time entries (strongly_connected_components entries) [] x (
      absent_count_all entries x (strongly_connected_components entries) n
        (components-IsHere entries))

-- The components of the links between the records that have links.
abbrev pub link_components : List IndexEntry → List (List Text)
link_components entries = strongly_connected_components (filter has_links entries)

-- Each component of the search that is flagged as a cycle keeps a member: one of its ids is not hidden
-- by the explicit links, whatever the query, the other links and the order of the records.
pub cycle_survivor :
    (parse_time : Text → Option ℤ) (entries : List IndexEntry) (query : Option Text)
    (scc : List Text)
    → In scc (link_components entries)
    → is_cycle (filter has_links entries) scc ≡ true
    → (w : Text) × In w scc × ¬ In w (explicit_suppressed_ids parse_time entries query)
cycle_survivor parse_time entries query scc i c =
    let linked = filter has_links entries in
    let (w, h) =
      has_winner parse_time linked scc
        (All-In (All (IsHere linked)) scc (link_components entries) (components-IsHere linked) i)
        c in
    let kept : get w (cycle_winners parse_time linked) ≡ some w =
      unfold cycle_winners in
      covered parse_time linked (link_components entries) [] scc w (components_disjoint linked) i c
        h in
    (
      w,
      winner_of-In parse_time linked scc w h,
      λ hidden. not_lost w kept ((explicit_suppressed_iff parse_time entries query w).0 hidden),
    )
  where
    not_lost :
        (w : Text)
        → get w (cycle_winners parse_time (filter has_links entries)) ≡ some w
        → HiddenBy entries (cycle_winners parse_time (filter has_links entries)) query entries w
        → ⊥
    not_lost w k (newer, j, t, (older, e, x, l)) = ground (arith, k, l, same_refl w)
