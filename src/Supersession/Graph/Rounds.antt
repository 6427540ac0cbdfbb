-- ===== src/Supersession/Graph/Rounds.antt =====
-- The rounds of the search and its fuel: what each round uses up.
use hive_memory.Base.{
  ◌∙◌, is_empty, ◌⊎◌, map, ◌<◌, All, ℕ, zero, suc, ◌+◌, ◌≤◌, ◌≡◌, refl, sym, ap, true, Option, none,
  some, List, [], ◌∷◌, ◌==◌, arith, Bool-cases, Option-cases, inl, inr, if◌then◌else◌, filter_map,
  length,
}
use hive_memory.Text.{Text, same}
use hive_memory.Text.Equality.{same→eq, eq→same}
use hive_memory.Text.Maps.{TextMap, get, put}
use hive_memory.Record.{IndexEntry}
use hive_memory.Supersession.Graph.{
  step, lower_parent, seen_child, start, from_root, pop_component, search_roots, close_node, rounds,
  step_frames, run, by_id, NodeState, Frame, Search, open_node, successors, present_id,
}
use hive_memory.Supersession.Graph.Disjoint.{
  pop_component_lem, seen-lower_parent, seen-seen_child, seen, seen-put,
}
use hive_memory.Supersession.Graph.Present.{
  step-IsPresent, ids-IsHere, root_case, open_node-IsPresent, IsPresent, IsHere,
}

-- What a record not yet seen may still cost.
abbrev cost : IndexEntry → TextMap NodeState → ℕ
cost e m = if seen e.id m == 0 then length e.supersedes + 1 else 0

abbrev unseen : List IndexEntry → TextMap NodeState → ℕ
unseen [] m = 0
unseen (e ∷ es) m = cost e m + unseen es m

abbrev frames_cost : List Frame → ℕ
frames_cost [] = 0
frames_cost (f ∷ fs) = length f.succs + 1 + frames_cost fs

unseen_same :
    (es : List IndexEntry) (m m' : TextMap NodeState)
    → ((x : Text) → seen x m ≡ seen x m')
    → unseen es m ≡ unseen es m'
unseen_same [] m m' h = refl
unseen_same (e ∷ es) m m' h =
    omega (
      arith,
      unseen_same es m m' h,
      ap (λ n. if n == 0 then length e.supersedes + 1 else 0) (h e.id),
    )

cost-put :
    (e : IndexEntry) (k : Text) (v : NodeState) (m : TextMap NodeState)
    → cost e (put k v m) ≤ cost e m
cost-put e k v m = ground arith

unseen-put :
    (es : List IndexEntry) (k : Text) (v : NodeState) (m : TextMap NodeState)
    → unseen es (put k v m) ≤ unseen es m
unseen-put [] k v m = omega arith
unseen-put (e ∷ es) k v m = omega (arith, unseen-put es k v m, cost-put e k v m)

-- A node that is opened costs no more than what its record is no longer counted for.
unseen_drop :
    (es : List IndexEntry) (k : Text) (v : NodeState) (m : TextMap NodeState) (e : IndexEntry)
    → get k m ≡ none
    → by_id es k ≡ some e
    → unseen es (put k v m) + (length e.supersedes + 1) ≤ unseen es m
unfolding by_id
unseen_drop [] k v m e n h = absurd (cc)
unseen_drop (x ∷ es) k v m e n h = elim (Option-cases (by_id es k)) [
  | inr (y, q) ↦ omega (arith, unseen_drop es k v m e n (ground arith), cost-put x k v m)
  | inl q ↦ elim (Bool-cases (same x.id k)) [
    | inr f ↦ absurd (ground arith)
    | inl t ↦
        let it : x ≡ e = ground arith in
        let was : cost x m ≡ length e.supersedes + 1 = ground (
          arith,
          ap (λ (y : IndexEntry). length y.supersedes) it,
          ap (λ z. get z m) (same→eq x.id k t),
        ) in
        let now : cost x (put k v m) ≡ 0 =
          ground (arith, seen-put x.id k v m, eq→same k x.id (sym (same→eq x.id k t))) in
        omega (arith, unseen-put es k v m, was, now)
  ]
]

length-filter_map :
    (entries : List IndexEntry) (ts : List Text)
    → length (filter_map (λ t. present_id (by_id entries t)) ts) ≤ length ts
length-filter_map entries [] = omega arith
length-filter_map entries (t ∷ ts) =
    at_most _ (present_id (by_id entries t)) (length-filter_map entries ts)
  where
    at_most :
        (l : List Text) (o : Option Text)
        → length l ≤ length ts
        → length (elim o [ none ↦ l | some y ↦ y ∷ l ]) ≤ suc (length ts)
    at_most l none h = omega arith
    at_most l (some y) h = omega arith

length-successors :
    (entries : List IndexEntry) (k : Text) (e : IndexEntry)
    → by_id entries k ≡ some e
    → length (successors entries k) ≤ length e.supersedes
unfolding successors
length-successors entries k e h = rw h (length-filter_map entries e.supersedes)

abbrev measure : List IndexEntry → Search → ℕ
measure entries s = unseen entries s.state + frames_cost s.frames

open_node-measure :
    (entries : List IndexEntry) (k : Text) (s : Search)
    → get k s.state ≡ none
    → IsHere entries k
    → measure entries (open_node entries k s) ≤ measure entries s
open_node-measure entries k s n (e, h) =
    unfold open_node in
    omega (
      arith,
      unseen_drop entries k
          (record { index = s.next_index; lowlink = s.next_index; on_stack = true }) s.state e n h,
      length-successors entries k e h,
    )

close_node-measure :
    (entries : List IndexEntry) (node : Text) (ns : NodeState) (frames : List Frame) (s : Search)
    → measure entries (close_node node ns frames s) ≤ unseen entries s.state + frames_cost frames
unfolding close_node
close_node-measure entries node ns frames s = elim (Bool-cases (ns.lowlink == ns.index)) [
  | inl t ↦
      let popped = pop_component node s.stack s.state in
      rw t (
        omega (
          arith,
          unseen_same entries (lower_parent frames ns.lowlink popped.2) s.state (λ x.
              seen-lower_parent x frames ns.lowlink popped.2
              ∙ (pop_component_lem x node s.stack s.state).1),
        ))
  | inr f ↦ rw f (
      omega (
        arith,
        unseen_same entries (lower_parent frames ns.lowlink s.state) s.state
            (λ x. seen-lower_parent x frames ns.lowlink s.state),
      ))
]

module _ (entries : List IndexEntry) where
  child_measure :
      (node child : Text) (succs : List Text) (frames : List Frame) (s : Search)
      (o : Option NodeState)
      → get child s.state ≡ o
      → IsHere entries child
      → measure entries
          (step_frames entries (record { node = node; succs = child ∷ succs } ∷ frames) s)
        < unseen entries s.state
          + frames_cost (record { node = node; succs = child ∷ succs } ∷ frames)
  child_measure node child succs frames s none e h =
      rw (e, step_frames)
        (omega (
          arith,
          open_node-measure entries child
              (record s { frames = record { node = node; succs = succs } ∷ frames }) e h,
        ))
  child_measure node child succs frames s (some cs) e h =
      rw (e, step_frames)
        (omega (
          arith,
          unseen_same entries (seen_child node cs s.state) s.state
              (λ x. seen-seen_child x node cs s.state),
        ))

  close_measure :
      (node : Text) (frames : List Frame) (s : Search) (o : Option NodeState)
      → get node s.state ≡ o
      → measure entries (step_frames entries (record { node = node; succs = [] } ∷ frames) s)
        < unseen entries s.state + (1 + frames_cost frames)
  close_measure node frames s none e = rw (e, step_frames) (omega arith)
  close_measure node frames s (some ns) e =
      rw (e, step_frames) (omega (arith, close_node-measure entries node ns frames s))

  frame_measure :
      (node : Text) (succs : List Text) (frames : List Frame) (s : Search)
      → All (IsHere entries) succs
      → measure entries (step_frames entries (record { node = node; succs = succs } ∷ frames) s)
        < unseen entries s.state + frames_cost (record { node = node; succs = succs } ∷ frames)
  frame_measure node [] frames s h = close_measure node frames s (get node s.state) refl
  frame_measure node (child ∷ succs) frames s (h, hs) =
      child_measure node child succs frames s (get child s.state) refl h

  frames_measure :
      (frames : List Frame) (s : Search)
      → All (λ f. All (IsHere entries) f.succs) frames
      → (frames ≡ [])
        ⊎ (measure entries (step_frames entries frames s)
            < unseen entries s.state + frames_cost frames)
  frames_measure [] s h = inl refl
  frames_measure (frame ∷ frames) s (h, hs) = inr (frame_measure frame.node frame.succs frames s h)

  -- Enough fuel ends the inner loop with no frame left.
  run_ends :
      (fuel : ℕ) (s : Search)
      → IsPresent entries s
      → measure entries s < fuel
      → (run entries fuel s).frames ≡ []
  unfolding run
  run_ends zero s p h = absurd (omega arith)
  run_ends (suc fuel) s p h = elim (Bool-cases (is_empty s.frames)) [
    | inl t ↦ rw t (none_left s.frames t)
    | inr f ↦ elim (frames_measure s.frames s p.frames) [
      | inl e ↦ absurd (ground arith)
      | inr m ↦
          rw f (
            run_ends fuel (step entries s) (step-IsPresent entries s p)
              (unfold step in omega arith))
    ]
  ]
    where
      none_left : (l : List Frame) → is_empty l ≡ true → l ≡ []
      none_left [] e = refl
      none_left (x ∷ l) e = absurd (ground arith)

  unseen-rounds : (es : List IndexEntry) (m : TextMap NodeState) → unseen es m ≤ rounds es
  unfolding rounds
  unseen-rounds [] m = omega arith
  unseen-rounds (e ∷ es) m = ground (arith, unseen-rounds es m)

  root_ends :
      (root : Text) (s : Search) (o : Option NodeState)
      → get root s.state ≡ o
      → IsHere entries root
      → IsPresent entries s
      → s.frames ≡ []
      → (from_root entries root s).frames ≡ []
  root_ends root s none e h p f =
      rw (e, from_root)
        (run_ends (suc (rounds entries)) (open_node entries root s)
          (open_node-IsPresent entries root s h p)
          (omega (
            arith,
            open_node-measure entries root s e h,
            unseen-rounds entries s.state,
            ap frames_cost f,
          )))
  root_ends root s (some v) e h p f = rw (e, from_root) f

  search_roots_ends :
      (roots : List Text) (s : Search)
      → All (IsHere entries) roots
      → IsPresent entries s
      → s.frames ≡ []
      → (search_roots entries roots s).frames ≡ []
  unfolding search_roots
  search_roots_ends [] s h p f = f
  search_roots_ends (root ∷ roots) s (h, hs) p f =
      search_roots_ends roots (from_root entries root s) hs
        (root_case entries root s (get root s.state) refl h p)
        (root_ends root s (get root s.state) refl h p f)

-- The depth-first search from every present record ends with no frame left within its fuel of one
-- more than the number of the records and of their links.
pub search_ends :
    (entries : List IndexEntry) → (search_roots entries (map (λ e. e.id) entries) start).frames ≡ []
search_ends entries =
    search_roots_ends entries (map (λ e. e.id) entries) start
      (ids-IsHere entries entries (λ e i. i)) (record { stack = tt; components = tt; frames = tt })
      refl
