-- ===== src/Supersession/Graph.antt =====
-- The strongly connected components of the `supersedes` links between present records: the iterative
-- Tarjan search of `strongly_connected_components`. A frame keeps the successors not yet followed
-- in place of an index into all of them. The fuel is the number of links and records, and one more.
pub mod Disjoint
pub mod Rounds
pub mod Lookup
pub mod Present
use hive_memory.Base.{
  ℕ, zero, suc, ◌+◌, Bool, true, false, Option, none, some, List, [], ◌∷◌, ◌++◌, ◌==◌, min,
  filter_map, is_empty, length, map, if◌then◌else◌,
}
use hive_memory.Text.{Text, same}
use hive_memory.Text.Maps.{TextMap, get, put}
use hive_memory.Record.{IndexEntry}

-- `by_id.get(id)` of the map collected from the records: the last record of that id.
unfoldable pub by_id : List IndexEntry → Text → Option IndexEntry
by_id [] id = none
by_id (e ∷ es) id = elim (by_id es id) [
  | some found ↦ some found
  | none ↦ if same e.id id then some e else none
]

pub record NodeState : Type 0 where
  pub index : ℕ
  pub lowlink : ℕ
  pub on_stack : Bool

pub record Frame : Type 0 where
  pub node : Text
  pub succs : List Text

pub record Search : Type 0 where
  pub state : TextMap NodeState
  pub stack : List Text
  pub next_index : ℕ
  pub components : List (List Text)
  pub frames : List Frame

abbrev pub start : Search
start = record { state = []; stack = []; next_index = 0; components = []; frames = [] }

abbrev present_id : Option IndexEntry → Option Text
present_id none = none
present_id (some e) = some e.id

abbrev links_of : Option IndexEntry → List Text
links_of none = []
links_of (some e) = e.supersedes

-- The present records that a node supersedes.
unfoldable pub successors : List IndexEntry → Text → List Text
successors entries node =
    filter_map (λ target. present_id (by_id entries target)) (links_of (by_id entries node))

-- A change of the state of a node that has one.
abbrev adjust : (NodeState → NodeState) → Text → TextMap NodeState → TextMap NodeState
adjust f node state = elim (get node state) [ none ↦ state | some s ↦ put node (f s) state ]

abbrev lower_to : ℕ → NodeState → NodeState
lower_to candidate s = record s { lowlink = min s.lowlink candidate }

abbrev off_stack : NodeState → NodeState
off_stack s = record s { on_stack = false }

-- Pops down to the node: the component, what is left of the stack, and the states.
unfoldable pub pop_component :
    Text → List Text → TextMap NodeState → List Text × List Text × TextMap NodeState
pop_component node [] state = ([], [], state)
pop_component node (top ∷ stack) state =
    let rest = pop_component node stack (adjust off_stack top state) in
    if same top node
    then (top ∷ [], stack, adjust off_stack top state)
    else (top ∷ rest.0, rest.1, rest.2)

-- A node that is seen for the first time gets the next index and a frame.
unfoldable pub open_node : List IndexEntry → Text → Search → Search
open_node entries node s = record {
  state =
      put node (record { index = s.next_index; lowlink = s.next_index; on_stack = true }) s.state;
  stack = node ∷ s.stack;
  next_index = s.next_index + 1;
  components = s.components;
  frames = record { node = node; succs = successors entries node } ∷ s.frames;
}

-- The link from a node to a child that has been seen.
abbrev seen_child : Text → NodeState → TextMap NodeState → TextMap NodeState
seen_child node child state = elim (get node state) [
  | none ↦ state
  | some s ↦
      if child.on_stack then adjust (lower_to (min child.index s.index)) node state else state
]

abbrev lower_parent : List Frame → ℕ → TextMap NodeState → TextMap NodeState
lower_parent [] node_lowlink state = state
lower_parent (parent ∷ frames) node_lowlink state = adjust (lower_to node_lowlink) parent.node state

-- A frame with no successor left: its component, if it is the root of one, and the parent's lowlink.
unfoldable pub close_node : Text → NodeState → List Frame → Search → Search
close_node node node_state frames s =
    if node_state.lowlink == node_state.index
    then (let popped = pop_component node s.stack s.state in
        record {
          state = lower_parent frames node_state.lowlink popped.2;
          stack = popped.1;
          next_index = s.next_index;
          components = s.components ++ popped.0 ∷ [];
          frames = frames;
        })
    else record s { state = lower_parent frames node_state.lowlink s.state; frames = frames }

-- One round of the inner loop, on the frames from the innermost outwards.
abbrev step_frames : List IndexEntry → List Frame → Search → Search
step_frames entries [] s = s
step_frames entries (frame ∷ frames) s = elim frame.succs [
  | child ∷ succs ↦
      let moved = record s { frames = record { node = frame.node; succs = succs } ∷ frames } in
      elim (get child s.state) [
        | some child_state ↦ record moved { state = seen_child frame.node child_state s.state }
        | none ↦ open_node entries child moved
      ]
  | [] ↦ elim (get frame.node s.state) [
    | none ↦ record s { frames = frames }
    | some node_state ↦ close_node frame.node node_state frames s
  ]
]

unfoldable pub step : List IndexEntry → Search → Search
step entries s = step_frames entries s.frames s

-- `while let Some(..) = frames.last_mut()`.
unfoldable pub run : List IndexEntry → ℕ → Search → Search
run entries zero s = s
run entries (suc fuel) s =
    let rest = run entries fuel (step entries s) in if is_empty s.frames then s else rest

-- A bound on the rounds: one for each link and for each record.
unfoldable pub rounds : List IndexEntry → ℕ
rounds [] = 0
rounds (e ∷ es) = length e.supersedes + 1 + rounds es

abbrev from_root : List IndexEntry → Text → Search → Search
from_root entries root s = elim (get root s.state) [
  | some seen ↦ s
  | none ↦ run entries (suc (rounds entries)) (open_node entries root s)
]

unfoldable pub search_roots : List IndexEntry → List Text → Search → Search
search_roots entries [] s = s
search_roots entries (root ∷ roots) s = search_roots entries roots (from_root entries root s)

unfoldable pub strongly_connected_components : List IndexEntry → List (List Text)
unfolding search_roots
strongly_connected_components entries =
    (search_roots entries (map (λ e. e.id) entries) start).components
