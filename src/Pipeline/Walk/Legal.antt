-- ===== src/Pipeline/Walk/Legal.antt =====
-- What `canTransition` and `isRestartable` allow, against the edges of the graph.
use specmate.Prelude.{
  Bool, true, false, not, ◌&&◌, ◌||◌, [], ◌≡◌, ◌∙◌, ap, ◌↔◌, ◌⊎◌, inl, inr, refl, sym, subst, arith,
  Memᴰ, includes, includes-Memᴰ, ok, ◌>>=◌, ◌==◌, is_some, is_some_value, Bool-cases,
}
use specmate.Lifecycle.{
  TaskState, task_state_eq, same_state, same_state_iff, waiting_human, paused, cancelled, archived,
  is_terminal,
}
use specmate.Pipeline.Nodes.{PinnedGraph}
use specmate.Pipeline.Walk.{
  base_table, graph_transitions, is_interrupt, can_transition, Table, node_at,
}
use specmate.Pipeline.Walk.Lookup.{keys_of, Distinct, keys_of-Memᴰ, node_at-Memᴰ, node_at_total}
use specmate.Pipeline.Walk.Rows.{graph_transitions_total, graph_transitions-base}
use specmate.Pipeline.Walk.Moves.{Edge, table-Edge}

-- The moves that the rules allow: back from an interrupt to any node, along an edge, or into an
-- interrupt from a state that is not terminal.
abbrev pub Allowed : PinnedGraph → TaskState → TaskState → Type 0
Allowed graph source to =
    (((source ≡ waiting_human) ⊎ (source ≡ paused)) × Memᴰ to (keys_of graph.nodes))
    ⊎ (Edge graph source to ⊎ ((is_interrupt to ≡ true) × (is_terminal source ≡ false)))

is_some-node_at :
    (graph : PinnedGraph) (s : TaskState)
    → (is_some (node_at graph s) ≡ true) ↔ Memᴰ s (keys_of graph.nodes)
is_some-node_at graph s = (
  λ h.
      let (n, e) = is_some_value (node_at graph s) h in
      let (m, k) = node_at-Memᴰ graph s e in
      subst (λ key. Memᴰ key (keys_of graph.nodes)) k (keys_of-Memᴰ n graph.nodes m),
  λ m. let (n, e) = node_at_total graph s m in rw e,
)

module _ (graph : PinnedGraph) (source to : TaskState) where
  abbrev returns : Bool
  returns = (source == waiting_human || source == paused) && is_some (node_at graph to)

  abbrev answer : Table → Bool
  answer table =
      returns || (includes to (table source) || (is_interrupt to && not (is_terminal source)))

  can_transition-eq :
      (table : Table)
      → graph_transitions graph ≡ ok table
      → can_transition graph source to ≡ ok (answer table)
  unfolding can_transition
  can_transition-eq table e = elim (Bool-cases returns) [
    | inl back ↦ rw back
    | inr onward ↦ rw (onward, e, ◌>>=◌)
  ]

  answer_iff :
      (table : Table)
      → Distinct (keys_of graph.nodes)
      → graph_transitions graph ≡ ok table
      → (answer table ≡ true) ↔ Allowed graph source to
  answer_iff table distinct e = ground (
    arith,
    same_state_iff source waiting_human,
    same_state_iff source paused,
    is_some-node_at graph to,
    includes-Memᴰ to (table source),
    table-Edge graph distinct table source to e,
  )

-- On a graph with distinct keys `canTransition` never throws, and answers true exactly for the
-- moves that the rules allow: back from an interrupt to a node of the graph, along an edge that the
-- source's node declares (or its row, where the source is no node), or into an interrupt from a
-- state that is not terminal.
pub can_transition_iff :
    (graph : PinnedGraph) (source to : TaskState)
    → Distinct (keys_of graph.nodes)
    → (b : Bool) × (can_transition graph source to ≡ ok b) × ((b ≡ true) ↔ Allowed graph source to)
can_transition_iff graph source to distinct =
    let (table, e) = graph_transitions_total graph in
    (
      answer graph source to table,
      can_transition-eq graph source to table e,
      answer_iff graph source to table distinct e,
    )

-- What is allowed is answered by true.
pub can_transition-Allowed :
    (graph : PinnedGraph) (source to : TaskState)
    → Distinct (keys_of graph.nodes)
    → Allowed graph source to
    → can_transition graph source to ≡ ok true
can_transition-Allowed graph source to distinct a =
    let (b, e, iff) = can_transition_iff graph source to distinct in e ∙ ap ok (iff.1 a)

abbrev Ends : PinnedGraph → TaskState → Type 0
Ends graph s =
    (base_table graph s ≡ [])
    × (is_terminal s ≡ true)
    × ((s == waiting_human) ≡ false)
    × ((s == paused) ≡ false)

Ends-of : (graph : PinnedGraph) (s : TaskState) → (s ≡ archived) ⊎ (s ≡ cancelled) → Ends graph s
unfolding base_table is_terminal same_state
Ends-of graph s (inl e) = subst (Ends graph) (sym e) (refl, refl, refl, refl)
Ends-of graph s (inr e) = subst (Ends graph) (sym e) (refl, refl, refl, refl)

-- Nothing leaves `archived` or `cancelled`, on a graph where they are no nodes.
pub can_transition_terminal :
    (graph : PinnedGraph) (source to : TaskState)
    → (source ≡ archived) ⊎ (source ≡ cancelled)
    → ¬ Memᴰ source (keys_of graph.nodes)
    → can_transition graph source to ≡ ok false
can_transition_terminal graph source to ends absent =
    let (table, e) = graph_transitions_total graph in
    let (row, terminal, w, p) = Ends-of graph source ends in
    let kept = graph_transitions-base graph table source e absent in
    can_transition-eq graph source to table e ∙ rw (kept, row, terminal, w, p) (ground arith)
