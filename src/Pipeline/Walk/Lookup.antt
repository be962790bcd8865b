-- ===== src/Pipeline/Walk/Lookup.antt =====
-- Where the accessors of a graph find their node.
use mathlib.Core.List.Memᴰ
use specmate.Prelude.{
  ℕ, suc, List, [], ◌∷◌, map, some, ◌≡◌, inl, inr, refl, sym, arith, find?, find_idx_from,
  get_elem?, filter, filter-Memᴰ, Memᴰ, Memᴰ-cons, ok, beq_cases, zero, Option, none, ◌⊎◌, subst,
  Option-cases, err-eq-ok, ok-injective,
}
use mathlib.Core.Option.{some-injective}
use specmate.Lifecycle.{TaskState, task_state_eq}
use specmate.Pipeline.Nodes.{PipelineNode, PinnedGraph, StageNode, stage, key_of}
use specmate.Pipeline.Walk.{has_key, node_at, is_stage, stage_node_keys, key_or, forward_target}

abbrev pub keys_of : List PipelineNode → List TaskState
keys_of nodes = map key_of nodes

-- No two nodes share a key.
abbrev pub Distinct : List TaskState → Type 0
Distinct [] = Unit
Distinct (s ∷ ss) = (¬ Memᴰ s ss) × Distinct ss

pub keys_of-Memᴰ :
    (n : PipelineNode) (ns : List PipelineNode) → Memᴰ n ns → Memᴰ (key_of n) (keys_of ns)
keys_of-Memᴰ n [] m = absurd (Memᴰ.not-nil m)
keys_of-Memᴰ n (x ∷ ns) m =
    ground
      (arith, Memᴰ-cons n x ns, Memᴰ-cons (key_of n) (key_of x) (keys_of ns), keys_of-Memᴰ n ns)

-- A key is of some node.
pub keys_of_node :
    (s : TaskState) (ns : List PipelineNode)
    → Memᴰ s (keys_of ns)
    → (n : PipelineNode) × Memᴰ n ns × (key_of n ≡ s)
keys_of_node s [] m = absurd (Memᴰ.not-nil m)
keys_of_node s (x ∷ ns) (Memᴰ.head e) = (x, Memᴰ.head refl, sym e)
keys_of_node s (x ∷ ns) (Memᴰ.tail m) = let (n, at, e) = keys_of_node s ns m in (n, Memᴰ.tail at, e)

find_key :
    (s : TaskState) (ns : List PipelineNode) {n : PipelineNode}
    → find? (has_key s) ns ≡ some n
    → Memᴰ n ns × (key_of n ≡ s)
find_key s [] e = cc
find_key s (x ∷ ns) {n} e = elim (beq_cases (key_of x) s) [
  | inl (t, same) ↦ ground (arith, Memᴰ-cons n x ns)
  | inr (f, other) ↦ let (m, k) = find_key s ns (rw f at e) in (Memᴰ.tail m, k)
]

-- The node found under a key is in the graph, and has that key.
pub node_at-Memᴰ :
    (graph : PinnedGraph) (s : TaskState) {n : PipelineNode}
    → node_at graph s ≡ some n
    → Memᴰ n graph.nodes × (key_of n ≡ s)
unfolding node_at
node_at-Memᴰ graph s e = find_key s graph.nodes e

find_key_total :
    (s : TaskState) (ns : List PipelineNode)
    → Memᴰ s (keys_of ns)
    → (n : PipelineNode) × (find? (has_key s) ns ≡ some n)
find_key_total s [] m = absurd (Memᴰ.not-nil m)
find_key_total s (x ∷ ns) m = elim (beq_cases (key_of x) s) [
  | inl (t, same) ↦ (x, rw t)
  | inr (f, other) ↦
      let (n, e) = find_key_total s ns (ground (arith, Memᴰ-cons s (key_of x) (keys_of ns))) in
      (n, rw f e)
]

-- A key of the graph is found.
pub node_at_total :
    (graph : PinnedGraph) (s : TaskState)
    → Memᴰ s (keys_of graph.nodes)
    → (n : PipelineNode) × (node_at graph s ≡ some n)
unfolding node_at
node_at_total graph s m = find_key_total s graph.nodes m

find_idx_total :
    (s : TaskState) (k : ℕ) (ns : List PipelineNode)
    → Memᴰ s (keys_of ns)
    → (i : ℕ) × (find_idx_from (has_key s) k ns ≡ some i)
find_idx_total s k [] m = absurd (Memᴰ.not-nil m)
find_idx_total s k (x ∷ ns) m = elim (beq_cases (key_of x) s) [
  | inl (t, same) ↦ (k, rw t)
  | inr (f, other) ↦
      let (i, e) =
        find_idx_total s (suc k) ns (ground (arith, Memᴰ-cons s (key_of x) (keys_of ns))) in
      (i, rw f e)
]

-- From a key of the graph there is a next state.
pub forward_target_total :
    (graph : PinnedGraph) (s : TaskState)
    → Memᴰ s (keys_of graph.nodes)
    → (next : TaskState) × (forward_target graph s ≡ ok next)
unfolding forward_target
forward_target_total graph s m =
    let (i, e) = find_idx_total s 0 graph.nodes m in
    (key_or graph.terminal (get_elem? graph.nodes (suc i)), rw (e, forward_target))

get_elem?-Memᴰ :
    (ns : List PipelineNode) (i : ℕ) {n : PipelineNode} → get_elem? ns i ≡ some n → Memᴰ n ns
get_elem?-Memᴰ [] i e = cc
get_elem?-Memᴰ (x ∷ ns) zero {n} e = Memᴰ.head (sym (some-injective x n e))
get_elem?-Memᴰ (x ∷ ns) (suc i) e = Memᴰ.tail (get_elem?-Memᴰ ns i e)

key_or-cases :
    (graph : PinnedGraph) (i : ℕ) (found : Option PipelineNode)
    → get_elem? graph.nodes i ≡ found
    → Memᴰ (key_or graph.terminal found) (keys_of graph.nodes)
      ⊎ (key_or graph.terminal found ≡ graph.terminal)
key_or-cases graph i none e = inr refl
key_or-cases graph i (some n) e = inl (keys_of-Memᴰ n graph.nodes (get_elem?-Memᴰ graph.nodes i e))

-- The next state is a key of the graph, or its terminal.
pub forward_target-cases :
    (graph : PinnedGraph) (s next : TaskState)
    → forward_target graph s ≡ ok next
    → Memᴰ next (keys_of graph.nodes) ⊎ (next ≡ graph.terminal)
unfolding forward_target
forward_target-cases graph s next h =
    elim (Option-cases (find_idx_from (has_key s) 0 graph.nodes)) [
      | inl missed ↦ err-eq-ok _ next (rw (missed, forward_target) at h)
      | inr (i, found) ↦
          subst (λ (t : TaskState). Memᴰ t (keys_of graph.nodes) ⊎ (t ≡ graph.terminal))
            (ok-injective (rw (found, forward_target) at h))
            (key_or-cases graph (suc i) (get_elem? graph.nodes (suc i)) refl)
    ]

-- The stages of a graph are those of its keys.
pub stage_node_keys-Memᴰ :
    (graph : PinnedGraph) (n : StageNode)
    → Memᴰ (stage n) graph.nodes
    → Memᴰ n.key (stage_node_keys graph)
unfolding stage_node_keys
stage_node_keys-Memᴰ graph n m =
    keys_of-Memᴰ (stage n) (filter is_stage graph.nodes)
      ((filter-Memᴰ is_stage (stage n) graph.nodes).1 (m, refl))
