-- ===== src/Pipeline/Walk/Rows.antt =====
-- The table that `graphTransitions` derives: it is always built, and holds each node's own row.
use mathlib.Core.List.Memᴰ
use specmate.Prelude.{
  List, [], ◌∷◌, ◌≡◌, ◌∙◌, inl, inr, refl, Memᴰ, ok, ◌>>=◌, >>=-eq-ok, beq_cases, beq_refl,
}
use specmate.Lifecycle.{TaskState, task_state_eq}
use specmate.Pipeline.Nodes.{PipelineNode, PinnedGraph, stage, gate, action, key_of}
use specmate.Pipeline.Walk.{
  Table, set_row, stage_row, action_row, gate_row, base_table, row_of, fill_table,
  graph_transitions,
}
use specmate.Pipeline.Walk.Lookup.{keys_of, Distinct, keys_of-Memᴰ, forward_target_total}

row_of_total :
    (graph : PinnedGraph) (n : PipelineNode)
    → Memᴰ n graph.nodes
    → (row : List TaskState) × (row_of graph n ≡ ok row)
unfolding row_of
row_of_total graph (gate n) m = (gate_row n, refl)
row_of_total graph (stage n) m =
    let (next, e) = forward_target_total graph n.key (keys_of-Memᴰ (stage n) graph.nodes m) in
    (stage_row n next, rw (e, ◌>>=◌))
row_of_total graph (action n) m =
    let (next, e) = forward_target_total graph n.key (keys_of-Memᴰ (action n) graph.nodes m) in
    (action_row next, rw (e, ◌>>=◌))

fill_table_total :
    (graph : PinnedGraph) (table : Table) (ns : List PipelineNode)
    → ((n : PipelineNode) → Memᴰ n ns → Memᴰ n graph.nodes)
    → (filled : Table) × (fill_table graph table ns ≡ ok filled)
unfolding fill_table
fill_table_total graph table [] inside = (table, refl)
fill_table_total graph table (n ∷ ns) inside =
    let (row, e) = row_of_total graph n (inside n (Memᴰ.head refl)) in
    let (filled, f) =
      fill_table_total graph (set_row table (key_of n) row) ns (λ x m. inside x (Memᴰ.tail m)) in
    (filled, rw (e, ◌>>=◌) f)

-- `graphTransitions` throws for no graph.
pub graph_transitions_total :
    (graph : PinnedGraph) → (table : Table) × (graph_transitions graph ≡ ok table)
unfolding graph_transitions
graph_transitions_total graph = fill_table_total graph (base_table graph) graph.nodes (λ n m. m)

fill_table_other :
    (graph : PinnedGraph) (s : TaskState) (table filled : Table) (ns : List PipelineNode)
    → fill_table graph table ns ≡ ok filled
    → ¬ Memᴰ s (keys_of ns)
    → filled s ≡ table s
unfolding fill_table
fill_table_other graph s table filled [] e absent = cc
fill_table_other graph s table filled (n ∷ ns) e absent =
    let (row, _, f) = >>=-eq-ok (row_of graph n) _ e in
    let rest =
      fill_table_other graph s (set_row table (key_of n) row) filled ns f
        (λ m. absent (Memᴰ.tail m)) in
    elim (beq_cases s (key_of n)) [
      | inl (_, same) ↦ absurd (absent (Memᴰ.head same))
      | inr (differs, _) ↦ rest ∙ rw differs
    ]

fill_table_row :
    (graph : PinnedGraph) (n : PipelineNode) (table filled : Table) (ns : List PipelineNode)
    → fill_table graph table ns ≡ ok filled
    → Distinct (keys_of ns)
    → Memᴰ n ns
    → row_of graph n ≡ ok (filled (key_of n))
unfolding fill_table
fill_table_row graph n table filled [] e distinct m = absurd (Memᴰ.not-nil m)
fill_table_row graph n table filled (x ∷ ns) e (fresh, distinct) (Memᴰ.tail m) =
    let (row, _, f) = >>=-eq-ok (row_of graph x) _ e in
    fill_table_row graph n (set_row table (key_of x) row) filled ns f distinct m
fill_table_row graph n table filled (x ∷ ns) e (fresh, distinct) (Memᴰ.head same) =
    let (row, r, f) = >>=-eq-ok (row_of graph x) _ e in
    let kept = fill_table_other graph (key_of x) (set_row table (key_of x) row) filled ns f fresh in
    rw (same, kept, beq_refl (key_of x)) r

-- Where keys are distinct, the row of a node's key is the one that the node's kind says.
pub graph_transitions-row :
    (graph : PinnedGraph) (table : Table) (n : PipelineNode)
    → Distinct (keys_of graph.nodes)
    → graph_transitions graph ≡ ok table
    → Memᴰ n graph.nodes
    → row_of graph n ≡ ok (table (key_of n))
unfolding graph_transitions
graph_transitions-row graph table n distinct e m =
    fill_table_row graph n (base_table graph) table graph.nodes e distinct m

-- The row of a state that is no node is the one written before the loop.
pub graph_transitions-base :
    (graph : PinnedGraph) (table : Table) (s : TaskState)
    → graph_transitions graph ≡ ok table
    → ¬ Memᴰ s (keys_of graph.nodes)
    → table s ≡ base_table graph s
unfolding graph_transitions
graph_transitions-base graph table s e absent =
    fill_table_other graph s (base_table graph) table graph.nodes e absent
