-- ===== src/Supersession/Graph/Present.antt =====
-- The nodes of the components and the present records.
use hive_memory.Base.{
  ℕ, zero, suc, ◌≡◌, refl, Option, none, some, List, [], ◌∷◌, ◌==◌, Bool-cases, inl, inr, map, All,
  All-append, filter_map, is_empty, In,
}
use hive_memory.Supersession.Graph.Lookup.{by_id_self, by_id_present}
use hive_memory.Text.{Text, same}
use hive_memory.Text.Maps.{TextMap, get}
use hive_memory.Record.{IndexEntry}
use hive_memory.Supersession.Graph.{
  by_id, NodeState, Frame, Search, start, adjust, off_stack, pop_component, open_node, close_node,
  step, step_frames, run, rounds, search_roots, from_root, strongly_connected_components,
  successors, present_id, links_of,
}

module _ (entries : List IndexEntry) where
  abbrev pub IsHere : Text → Type 0
  IsHere x = (e : IndexEntry) × (by_id entries x ≡ some e)

  pub record IsPresent (s : Search) : Type 0 where
    pub stack : All IsHere s.stack
    pub components : All (All IsHere) s.components
    pub frames : All (λ f. All IsHere f.succs) s.frames

  IsHere-cons :
      (t : Text) (o : Option IndexEntry) (l : List Text)
      → by_id entries t ≡ o
      → All IsHere l
      → All IsHere (elim (present_id o) [ none ↦ l | some y ↦ y ∷ l ])
  IsHere-cons t none l h k = k
  IsHere-cons t (some e) l h k = ((e, by_id_self entries t e h), k)

  IsHere-successors :
      (ts : List Text) → All IsHere (filter_map (λ t. present_id (by_id entries t)) ts)
  IsHere-successors [] = tt
  IsHere-successors (t ∷ ts) = IsHere-cons t (by_id entries t) _ refl (IsHere-successors ts)

  pub successors-IsHere : (node : Text) → All IsHere (successors entries node)
  unfolding successors
  successors-IsHere node = IsHere-successors (links_of (by_id entries node))

  pop_component-IsHere :
      (node : Text) (stack : List Text) (state : TextMap NodeState)
      → All IsHere stack
      → All IsHere (pop_component node stack state).0
        × All IsHere (pop_component node stack state).1
  unfolding pop_component
  pop_component-IsHere node [] state h = (tt, tt)
  pop_component-IsHere node (top ∷ stack) state (p, h) =
      let (a, b) = pop_component-IsHere node stack (adjust off_stack top state) h in
      elim (Bool-cases (same top node)) [ inl t ↦ rw t ((p, tt), h) | inr f ↦ rw f ((p, a), b) ]

  pub open_node-IsPresent :
      (node : Text) (s : Search) → IsHere node → IsPresent s → IsPresent (open_node entries node s)
  unfolding open_node
  open_node-IsPresent node s h p = record {
    stack = (h, p.stack);
    components = p.components;
    frames = (successors-IsHere node, p.frames);
  }

  close_node-IsPresent :
      (node : Text) (ns : NodeState) (frames : List Frame) (s : Search)
      → All (λ f. All IsHere f.succs) frames
      → IsPresent s
      → IsPresent (close_node node ns frames s)
  unfolding close_node
  close_node-IsPresent node ns frames s h p = elim (Bool-cases (ns.lowlink == ns.index)) [
    | inl t ↦
        let (a, b) = pop_component-IsHere node s.stack s.state p.stack in
        rw t (record {
          stack = b;
          components = All-append (All IsHere) s.components (_ ∷ []) p.components (a, tt);
          frames = h;
        })
    | inr f ↦ rw f (record { stack = p.stack; components = p.components; frames = h })
  ]

  seen_case :
      (node child : Text) (succs : List Text) (frames : List Frame) (s : Search)
      (o : Option NodeState)
      → get child s.state ≡ o
      → IsHere child
      → All IsHere succs
      → All (λ f. All IsHere f.succs) frames
      → IsPresent s
      → IsPresent (step_frames entries (record { node = node; succs = child ∷ succs } ∷ frames) s)
  seen_case node child succs frames s none e hc hs hf p =
      rw (e, step_frames)
        (open_node-IsPresent child _ hc
          (record { stack = p.stack; components = p.components; frames = (hs, hf) }))
  seen_case node child succs frames s (some cs) e hc hs hf p =
      rw (e, step_frames) (record { stack = p.stack; components = p.components; frames = (hs, hf) })

  close_case :
      (node : Text) (frames : List Frame) (s : Search) (o : Option NodeState)
      → get node s.state ≡ o
      → All (λ f. All IsHere f.succs) frames
      → IsPresent s
      → IsPresent (step_frames entries (record { node = node; succs = [] } ∷ frames) s)
  close_case node frames s none e hf p =
      rw (e, step_frames) (record { stack = p.stack; components = p.components; frames = hf })
  close_case node frames s (some ns) e hf p =
      rw (e, step_frames) (close_node-IsPresent node ns frames s hf p)

  frame_case :
      (node : Text) (succs : List Text) (frames : List Frame) (s : Search)
      → All IsHere succs
      → All (λ f. All IsHere f.succs) frames
      → IsPresent s
      → IsPresent (step_frames entries (record { node = node; succs = succs } ∷ frames) s)
  frame_case node [] frames s hs hf p = close_case node frames s (get node s.state) refl hf p
  frame_case node (child ∷ succs) frames s (hc, hs) hf p =
      seen_case node child succs frames s (get child s.state) refl hc hs hf p

  frames_case :
      (frames : List Frame) (s : Search)
      → All (λ f. All IsHere f.succs) frames
      → IsPresent s
      → IsPresent (step_frames entries frames s)
  frames_case [] s h p = p
  frames_case (frame ∷ frames) s (hs, hf) p = frame_case frame.node frame.succs frames s hs hf p

  pub step-IsPresent : (s : Search) → IsPresent s → IsPresent (step entries s)
  unfolding step
  step-IsPresent s p = frames_case s.frames s p.frames p

  pub run-IsPresent : (fuel : ℕ) (s : Search) → IsPresent s → IsPresent (run entries fuel s)
  unfolding run
  run-IsPresent zero s p = p
  run-IsPresent (suc fuel) s p = elim (Bool-cases (is_empty s.frames)) [
    | inl t ↦ rw t p
    | inr f ↦ rw f (run-IsPresent fuel (step entries s) (step-IsPresent s p))
  ]

  pub root_case :
      (root : Text) (s : Search) (o : Option NodeState)
      → get root s.state ≡ o
      → IsHere root
      → IsPresent s
      → IsPresent (from_root entries root s)
  root_case root s none e h p =
      rw (e, from_root) (run-IsPresent (suc (rounds entries)) _ (open_node-IsPresent root s h p))
  root_case root s (some v) e h p = rw (e, from_root) p

  search_roots-IsPresent :
      (roots : List Text) (s : Search)
      → All IsHere roots
      → IsPresent s
      → IsPresent (search_roots entries roots s)
  unfolding search_roots
  search_roots-IsPresent [] s h p = p
  search_roots-IsPresent (root ∷ roots) s (h, hs) p =
      search_roots-IsPresent roots _ hs (root_case root s (get root s.state) refl h p)

  pub ids-IsHere :
      (es : List IndexEntry)
      → ((e : IndexEntry) → In e es → In e entries)
      → All IsHere (map (λ e. e.id) es)
  ids-IsHere [] sub = tt
  ids-IsHere (e ∷ es) sub =
      (by_id_present entries e (sub e (inl refl)), ids-IsHere es (λ x i. sub x (inr i)))

  pub components-IsHere : All (All IsHere) (strongly_connected_components entries)
  unfolding strongly_connected_components
  components-IsHere =
      (search_roots-IsPresent (map (λ e. e.id) entries) start (ids-IsHere entries (λ e i. i))
        (record { stack = tt; components = tt; frames = tt })).components
