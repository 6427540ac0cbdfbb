-- ===== src/Supersession/Graph/Disjoint.antt =====
-- The places of a node: on the stack, in a component, and the state that it has been given.
use hive_memory.Base.{
  min, ◌⊎◌, is_empty, ◌∙◌, ℕ, zero, suc, ◌+◌, ◌≤◌, ◌≡◌, refl, ap, Option, none, some, List, [], ◌∷◌,
  ◌++◌, ◌==◌, arith, Bool-cases, Option-cases, inl, inr, if◌then◌else◌, map,
}
use hive_memory.Text.{Text, same}
use hive_memory.Text.Equality.{same→eq}
use hive_memory.Text.Maps.{TextMap, get, put}
use hive_memory.Record.{IndexEntry}
use hive_memory.Supersession.Graph.{
  from_root, step_frames, NodeState, Frame, Search, start, adjust, lower_to, off_stack,
  pop_component, open_node, seen_child, lower_parent, close_node, step, run, rounds, search_roots,
  strongly_connected_components,
}

abbrev pub count : Text → List Text → ℕ
count x [] = 0
count x (y ∷ l) = (if same y x then 1 else 0) + count x l

abbrev pub count_all : Text → List (List Text) → ℕ
count_all x [] = 0
count_all x (c ∷ cs) = count x c + count_all x cs

abbrev pub seen : Text → TextMap NodeState → ℕ
seen x state = elim (get x state) [ none ↦ 0 | some s ↦ 1 ]

abbrev IsDisjoint : Search → Type 0
IsDisjoint s = (x : Text) → count x s.stack + count_all x s.components ≤ seen x s.state

count_all-snoc :
    (x : Text) (cs : List (List Text)) (c : List Text)
    → count_all x (cs ++ c ∷ []) ≡ count_all x cs + count x c
count_all-snoc x [] c = omega arith
count_all-snoc x (d ∷ cs) c = omega (arith, count_all-snoc x cs c)

pub seen-put :
    (x k : Text) (v : NodeState) (m : TextMap NodeState)
    → seen x (put k v m) ≡ (if same k x then 1 else seen x m)
seen-put x k v m = ground arith

pub seen-adjust :
    (x k : Text) (f : NodeState → NodeState) (m : TextMap NodeState)
    → seen x (adjust f k m) ≡ seen x m
seen-adjust x k f m = elim (Option-cases (get k m)) [
  | inl n ↦ ground arith
  | inr (s, e) ↦ elim (Bool-cases (same k x)) [
    | inl t ↦ ground (arith, ap (λ y. get y m) (same→eq k x t))
    | inr g ↦ ground arith
  ]
]

pub pop_component_lem :
    (x node : Text) (stack : List Text) (state : TextMap NodeState)
    → (count x stack
        ≡ count x (pop_component node stack state).0 + count x (pop_component node stack state).1)
      × (seen x (pop_component node stack state).2 ≡ seen x state)
unfolding pop_component
pop_component_lem x node [] state = (refl, refl)
pop_component_lem x node (top ∷ stack) state =
    let ih = pop_component_lem x node stack (adjust off_stack top state) in
    elim (Bool-cases (same top node)) [
      | inl t ↦ rw t (omega arith, seen-adjust x top off_stack state)
      | inr f ↦ rw f (omega (arith, ih.0), ih.1 ∙ seen-adjust x top off_stack state)
    ]

open_node-IsDisjoint :
    (entries : List IndexEntry) (node : Text) (s : Search)
    → get node s.state ≡ none
    → IsDisjoint s
    → IsDisjoint (open_node entries node s)
unfolding open_node
open_node-IsDisjoint entries node s n d x = elim (Bool-cases (same node x)) [
  | inl t ↦ ground (arith, d x, ap (λ y. get y s.state) (same→eq node x t))
  | inr f ↦ ground (arith, d x)
]

pub seen-lower_parent :
    (x : Text) (frames : List Frame) (l : ℕ) (m : TextMap NodeState)
    → seen x (lower_parent frames l m) ≡ seen x m
seen-lower_parent x [] l m = refl
seen-lower_parent x (parent ∷ frames) l m = seen-adjust x parent.node (lower_to l) m

close_node-IsDisjoint :
    (node : Text) (ns : NodeState) (frames : List Frame) (s : Search)
    → IsDisjoint s
    → IsDisjoint (close_node node ns frames s)
unfolding close_node
close_node-IsDisjoint node ns frames s d x = elim (Bool-cases (ns.lowlink == ns.index)) [
  | inl t ↦
      let popped = pop_component node s.stack s.state in
      let (c, e) = pop_component_lem x node s.stack s.state in
      rw t (
        omega (
          arith,
          d x,
          c,
          e,
          seen-lower_parent x frames ns.lowlink popped.2,
          count_all-snoc x s.components popped.0,
        ))
  | inr f ↦ rw f (omega (arith, d x, seen-lower_parent x frames ns.lowlink s.state))
]

pub seen-seen_child :
    (x node : Text) (child : NodeState) (m : TextMap NodeState)
    → seen x (seen_child node child m) ≡ seen x m
seen-seen_child x node child m = elim (Option-cases (get node m)) [
  | inl n ↦ ground arith
  | inr (s, e) ↦ elim (Bool-cases child.on_stack) [
    | inl t ↦ rw (e, t, seen_child) (seen-adjust x node (lower_to (min child.index s.index)) m)
    | inr f ↦ rw (e, f, seen_child)
  ]
]

step-IsDisjoint :
    (entries : List IndexEntry) (s : Search) → IsDisjoint s → IsDisjoint (step entries s)
unfolding step
step-IsDisjoint entries s d = frames_case s.frames
  where
    child_case :
        (node : Text) (child : Text) (succs : List Text) (frames : List Frame)
        → IsDisjoint
            (step_frames entries (record { node = node; succs = child ∷ succs } ∷ frames) s)
    child_case node child succs frames = elim (Option-cases (get child s.state)) [
      | inl n ↦ rw (n, step_frames) (open_node-IsDisjoint entries child _ n d)
      | inr (cs, e) ↦
          rw (e, step_frames) (λ x. omega (arith, d x, seen-seen_child x node cs s.state))
    ]

    close_case :
        (node : Text) (frames : List Frame)
        → IsDisjoint (step_frames entries (record { node = node; succs = [] } ∷ frames) s)
    close_case node frames = elim (Option-cases (get node s.state)) [
      | inl n ↦ rw (n, step_frames) d
      | inr (ns, e) ↦ rw (e, step_frames) (close_node-IsDisjoint node ns frames s d)
    ]

    frame_case :
        (node : Text) (succs : List Text) (frames : List Frame)
        → IsDisjoint (step_frames entries (record { node = node; succs = succs } ∷ frames) s)
    frame_case node [] frames = close_case node frames
    frame_case node (child ∷ succs) frames = child_case node child succs frames

    frames_case : (frames : List Frame) → IsDisjoint (step_frames entries frames s)
    frames_case [] = d
    frames_case (frame ∷ frames) = frame_case frame.node frame.succs frames

run-IsDisjoint :
    (entries : List IndexEntry) (fuel : ℕ) (s : Search)
    → IsDisjoint s
    → IsDisjoint (run entries fuel s)
unfolding run
run-IsDisjoint entries zero s d = d
run-IsDisjoint entries (suc fuel) s d = elim (Bool-cases (is_empty s.frames)) [
  | inl t ↦ rw t d
  | inr f ↦ rw f (run-IsDisjoint entries fuel (step entries s) (step-IsDisjoint entries s d))
]

search_roots-IsDisjoint :
    (entries : List IndexEntry) (roots : List Text) (s : Search)
    → IsDisjoint s
    → IsDisjoint (search_roots entries roots s)
unfolding search_roots
search_roots-IsDisjoint entries [] s d = d
search_roots-IsDisjoint entries (root ∷ roots) s d =
    search_roots-IsDisjoint entries roots _ (root_case (Option-cases (get root s.state)))
  where
    root_case :
        (get root s.state ≡ none) ⊎ ((v : NodeState) × (get root s.state ≡ some v))
        → IsDisjoint (from_root entries root s)
    root_case (inl n) =
        rw (n, from_root)
          (run-IsDisjoint entries (suc (rounds entries)) (open_node entries root s)
            (open_node-IsDisjoint entries root s n d))
    root_case (inr (v, e)) = rw (e, from_root) d

-- A node counts at most once in the components.
one_place : (o : Option NodeState) (n m : ℕ) → n + m ≤ (elim o [ none ↦ 0 | some v ↦ 1 ]) → m ≤ 1
one_place none n m h = omega arith
one_place (some v) n m h = omega arith

-- The components of the search are disjoint, and none holds a node twice.
pub components_disjoint :
    (entries : List IndexEntry) (x : Text) → count_all x (strongly_connected_components entries) ≤ 1
unfolding strongly_connected_components
components_disjoint entries x =
    let end = search_roots entries (map (λ e. e.id) entries) start in
    one_place (get x end.state) (count x end.stack) (count_all x end.components)
      (search_roots-IsDisjoint entries (map (λ e. e.id) entries) start (λ y. omega arith) x)
