-- ===== src/Pipeline/Walk/Moves.antt =====
-- The edges of a pinned graph, and that the derived table lists exactly those.
use mathlib.Core.List.Memᴰ
use specmate.Prelude.{
  List, [], ◌∷◌, ◌++◌, ◌≡◌, ◌↔◌, ◌⊎◌, inl, inr, sym, subst, arith, Memᴰ, Memᴰ-cons, Memᴰ-append,
  includes, includes-Memᴰ, dedupe-Memᴰ, ok, >>=-eq-ok, Bool-cases,
}
use specmate.Lifecycle.{TaskState, task_state_eq, cancelled, failed}
use specmate.Pipeline.Nodes.{PipelineNode, PinnedGraph, stage, gate, action, key_of, rework_targets}
use specmate.Pipeline.Walk.{
  Table, stage_row, action_row, forward_target, base_table, row_of, graph_transitions, loop_targets,
  redirect_targets,
}
use specmate.Pipeline.Walk.Lookup.{keys_of, Distinct, keys_of-Memᴰ, keys_of_node}
use specmate.Pipeline.Walk.Rows.{graph_transitions-row, graph_transitions-base}

-- The edges that a node's kind declares.
abbrev pub Leads : PinnedGraph → PipelineNode → TaskState → Type 0
Leads graph (stage n) to =
    (forward_target graph n.key ≡ ok to) ⊎ (Memᴰ to (loop_targets n) ⊎ (to ≡ failed))
Leads graph (action n) to =
    (forward_target graph n.key ≡ ok to) ⊎ ((to ≡ failed) ⊎ (to ≡ cancelled))
Leads graph (gate n) to =
    (to ≡ n.approve)
    ⊎ (Memᴰ to (redirect_targets n) ⊎ (Memᴰ to (rework_targets n) ⊎ (to ≡ cancelled)))

row_of-Leads :
    (graph : PinnedGraph) (n : PipelineNode) (row : List TaskState) (to : TaskState)
    → row_of graph n ≡ ok row
    → Memᴰ to row ↔ Leads graph n to
unfolding row_of
row_of-Leads graph (stage n) row to e =
    let (next, f, r) = >>=-eq-ok (forward_target graph n.key) (λ next. ok (stage_row n next)) e in
    ground (
      arith,
      dedupe-Memᴰ to (next ∷ loop_targets n ++ failed ∷ []),
      Memᴰ-cons to next (loop_targets n ++ failed ∷ []),
      Memᴰ-append to (loop_targets n) (failed ∷ []),
      Memᴰ-cons to failed [],
      Memᴰ.not-nil {a = to},
    )
row_of-Leads graph (action n) row to e =
    let (next, f, r) = >>=-eq-ok (forward_target graph n.key) (λ next. ok (action_row next)) e in
    ground (
      arith,
      Memᴰ-cons to next (failed ∷ cancelled ∷ []),
      Memᴰ-cons to failed (cancelled ∷ []),
      Memᴰ-cons to cancelled [],
      Memᴰ.not-nil {a = to},
    )
row_of-Leads graph (gate n) row to e = ground (
  arith,
  dedupe-Memᴰ to (n.approve ∷ redirect_targets n ++ (rework_targets n ++ cancelled ∷ [])),
  Memᴰ-cons to n.approve (redirect_targets n ++ (rework_targets n ++ cancelled ∷ [])),
  Memᴰ-append to (redirect_targets n) (rework_targets n ++ cancelled ∷ []),
  Memᴰ-append to (rework_targets n) (cancelled ∷ []),
  Memᴰ-cons to cancelled [],
  Memᴰ.not-nil {a = to},
)

-- An edge that the node of `source` declares, or one of the rows that no node owns.
abbrev pub Edge : PinnedGraph → TaskState → TaskState → Type 0
Edge graph source to =
    ((n : PipelineNode) × Memᴰ n graph.nodes × (key_of n ≡ source) × Leads graph n to)
    ⊎ ((¬ Memᴰ source (keys_of graph.nodes)) × Memᴰ to (base_table graph source))

module _ (graph : PinnedGraph) (distinct : Distinct (keys_of graph.nodes)) where
  row_of_node :
      (table : Table) (n : PipelineNode) (source to : TaskState)
      → graph_transitions graph ≡ ok table
      → Memᴰ n graph.nodes
      → key_of n ≡ source
      → Memᴰ to (table source) ↔ Leads graph n to
  row_of_node table n source to e m k = row_of-Leads graph n (table source) to (
      subst (λ s. row_of graph n ≡ ok (table s)) k
        (graph_transitions-row graph table n distinct e m))

  pub table-Edge :
      (table : Table) (source to : TaskState)
      → graph_transitions graph ≡ ok table
      → Memᴰ to (table source) ↔ Edge graph source to
  table-Edge table source to e = elim (Bool-cases (includes source (keys_of graph.nodes))) [
    | inl found ↦
        let inside = (includes-Memᴰ source (keys_of graph.nodes)).0 found in
        let (n, m, k) = keys_of_node source graph.nodes inside in
        (
          λ r. inl (n, m, k, (row_of_node table n source to e m k).0 r),
          λ edge. elim edge [
            | inl (x, at, same, leads) ↦ (row_of_node table x source to e at same).1 leads
            | inr (absent, _) ↦ absurd (absent inside)
          ],
        )
    | inr missing ↦
        let absent : ¬ Memᴰ source (keys_of graph.nodes) =
          λ m. cc ((includes-Memᴰ source (keys_of graph.nodes)).1 m) in
        let row = graph_transitions-base graph table source e absent in
        (
          λ r. inr (absent, subst (Memᴰ to) row r),
          λ edge. elim edge [
            | inl (x, at, same, leads) ↦ absurd (
                absent
                  (subst (λ s. Memᴰ s (keys_of graph.nodes)) same (keys_of-Memᴰ x graph.nodes at)))
            | inr (_, r) ↦ subst (Memᴰ to) (sym row) r
          ],
        )
  ]
