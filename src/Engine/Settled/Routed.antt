-- ===== src/Engine/Settled/Routed.antt =====
-- A run graph made from a valid definition, packages/core/src/pipeline.ts, is one that the engine's
-- tasks stay settled on.
use specmate.Prelude.{
  false, List, [], ◌∷◌, some, ok, ◌≡◌, refl, sym, ◌∙◌, subst, ap, Memᴰ, inl, inr, ◌⊎◌, get_elem?,
  includes, Option-cases, ok-injective, err-eq-ok,
}
use mathlib.Core.Option.{some-injective}
use specmate.Lifecycle.{
  TaskState, task_state_eq, same_state, archived, cancelled, waiting_human, paused, failed,
}
use specmate.Pipeline.Nodes.{
  PinnedGraph, PipelineDefinition, PipelineNode, stage, gate, key_of, reserved_states,
}
use specmate.Pipeline.Walk.{instantiate_definition}
use specmate.Pipeline.Walk.Lookup.{keys_of, keys_of-Memᴰ, keys_of_node}
use specmate.Pipeline.Validate.{validate_definition}
use specmate.Pipeline.Validate.Passes.{StandsBefore-Memᴰ}
use specmate.Pipeline.Validate.Sound.{IsWellFormed, validate_definition-IsWellFormed}
use specmate.Engine.Settled.{is_stopped, Routes}

unreserved-moves : (s : TaskState) → includes s reserved_states ≡ false → is_stopped s ≡ false
unfolding same_state
unreserved-moves waiting_human h = cc
unreserved-moves paused h = cc
unreserved-moves failed h = cc
unreserved-moves _ h = refl

ends_moves : (s : TaskState) → (s ≡ archived) ⊎ (s ≡ cancelled) → is_stopped s ≡ false
unfolding same_state
ends_moves s (inl e) = rw e refl
ends_moves s (inr e) = rw e refl

first-Memᴰ : (ns : List PipelineNode) (n : PipelineNode) → get_elem? ns 0 ≡ some n → Memᴰ n ns
first-Memᴰ [] n e = cc
first-Memᴰ (x ∷ ns) n e = Memᴰ.head (sym (some-injective x n e))

abbrev pinned : PipelineDefinition → PipelineNode → PinnedGraph
pinned d entry = record {
  pipeline = d.id;
  entry = key_of entry;
  terminal = d.terminal;
  nodes = d.nodes;
}

instantiated :
    (d : PipelineDefinition) (graph : PinnedGraph)
    → instantiate_definition d ≡ ok graph
    → (entry : PipelineNode) × Memᴰ entry d.nodes × (pinned d entry ≡ graph)
unfolding instantiate_definition
instantiated d graph h = elim (Option-cases (get_elem? d.nodes 0)) [
  | inl missing ↦ err-eq-ok _ graph (rw (missing, instantiate_definition) at h)
  | inr (entry, found) ↦ (
    entry,
    first-Memᴰ d.nodes entry found,
    ok-injective (rw (found, instantiate_definition) at h),
  )
]

pinned-Routes :
    (d : PipelineDefinition) (entry : PipelineNode)
    → IsWellFormed d
    → Memᴰ entry d.nodes
    → Routes (pinned d entry)
pinned-Routes d entry fine m =
    let moves = λ (s : TaskState) (k : Memᴰ s (keys_of d.nodes)).
      let (n, at, e) = keys_of_node s d.nodes k in
      unreserved-moves s (
        subst (λ (x : TaskState). includes x reserved_states ≡ false) e
          (fine.node_fits n at).unreserved) in
    record {
      keys_move = moves;
      terminal_moves = ends_moves d.terminal fine.ends;
      entry_key = keys_of-Memᴰ entry d.nodes m;
      approve_moves = λ g k. elim ((fine.edges_fit (gate g) k).approves g refl) [
        | inl key ↦ moves g.approve key
        | inr e ↦ ap is_stopped e ∙ ends_moves d.terminal fine.ends
      ];
      redirect_keys = λ g t k r. (fine.edges_fit (gate g) k).redirects g t refl r;
      rework_keys = λ g t k r. (fine.edges_fit (gate g) k).reworks g t refl r;
      loop_keys = λ n edge k e.
          StandsBefore-Memᴰ edge.target n.key (keys_of d.nodes)
            ((fine.edges_fit (stage n) k).loops_back n edge refl e);
    }

-- The run graph of a definition without a defect leads to no status that a task stops in: its keys,
-- its terminal and the targets of its gates' approvals are none, and its entry and the targets of its
-- loop edges and of its gates' redirects and reworks are keys.
pub instantiate_definition-Routes :
    (d : PipelineDefinition) (graph : PinnedGraph)
    → validate_definition d ≡ []
    → instantiate_definition d ≡ ok graph
    → Routes graph
instantiate_definition-Routes d graph silent h =
    let (entry, m, e) = instantiated d graph h in
    subst (λ (g : PinnedGraph). Routes g) e
      (pinned-Routes d entry (validate_definition-IsWellFormed d silent) m)
