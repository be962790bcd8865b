-- ===== src/Pipeline/Reduction/Sound.antt =====
-- What an accepted reduction of packages/core/src/pipeline.ts guarantees.
use mathlib.Core.List.{Sublistᴰ}
use specmate.Prelude.{
  ◌≡◌, refl, Bool, true, false, List, [], ◌∷◌, some, Memᴰ, arith, append-eq-nil, includes,
  beq_cases, inl, inr, flat_map,
}
use specmate.Lifecycle.{TaskState, task_state_eq, same_state_iff}
use specmate.Pipeline.Nodes.{
  PipelineNode, StageNode, GateNode, stage, gate, key_of, PipelineDefinition, rework_targets,
}
use specmate.Pipeline.Walk.{loop_targets, redirect_targets}
use specmate.Pipeline.Validate.Passes.{flat_map-nil}
use specmate.Pipeline.Reach.{suffix_at}
use specmate.Pipeline.Reduction.{
  validate_reduction, order_defects, order_at, cursor_after, report, dropped, strand_defects,
  resumed_targets, ReductionElement, ReductionProblem, loop_edge, node, gate_of, target_dropped,
  redirect_dropped, rework_dropped, resumes_dropped, pipeline_node_eq,
}

nil-Sublistᴰ : (ys : List PipelineNode) → Sublistᴰ [] ys
nil-Sublistᴰ [] = Sublistᴰ.slnil
nil-Sublistᴰ (y ∷ ys) = Sublistᴰ.cons (nil-Sublistᴰ ys)

-- What stands from a key on can be read as a part of the whole.
suffix_at-Sublistᴰ :
    (key : TaskState) (xs ys : List PipelineNode) → Sublistᴰ xs (suffix_at key ys) → Sublistᴰ xs ys
suffix_at-Sublistᴰ key xs [] s = s
suffix_at-Sublistᴰ key xs (y ∷ ys) s = elim (beq_cases (key_of y) key) [
  | inl (t, _) ↦ rw t at s
  | inr (f, _) ↦ Sublistᴰ.cons (suffix_at-Sublistᴰ key xs ys (rw f at s))
]

-- A node without a defect stands at the head of what was found.
order_at-nil :
    (base reduction : PipelineDefinition) (n : PipelineNode) (found : List PipelineNode)
    → order_at base reduction n found ≡ []
    → (later : List PipelineNode) × (found ≡ n ∷ later)
unfolding order_at
order_at-nil base reduction n [] h = cc
order_at-nil base reduction n (b ∷ later) h = elim (beq_cases b n) [
  | inl (t, same) ↦ (later, rw same refl)
  | inr (f, _) ↦ absurd (cc (rw f at h))
]

order_defects-Sublistᴰ :
    (base reduction : PipelineDefinition) (remaining ns : List PipelineNode)
    → order_defects base reduction remaining ns ≡ []
    → Sublistᴰ ns remaining
unfolding order_defects
order_defects-Sublistᴰ base reduction remaining [] h = nil-Sublistᴰ remaining
order_defects-Sublistᴰ base reduction remaining (n ∷ ns) h =
    let parts = append-eq-nil _ _ h in
    let (later, e) = order_at-nil base reduction n (suffix_at (key_of n) remaining) parts.0 in
    suffix_at-Sublistᴰ (key_of n) (n ∷ ns) remaining (
      rw e (
        Sublistᴰ.cons-cons refl
          (order_defects-Sublistᴰ base reduction later ns (rw (e, cursor_after) at parts.1))))

-- What an accepted reduction keeps: the terminal, the order and the content of the base's nodes, and
-- no edge whose target it has dropped.
pub record IsReduction (base reduction : PipelineDefinition) : Type 0 where
  pub same_terminal : reduction.terminal ≡ base.terminal
  pub in_order : Sublistᴰ reduction.nodes base.nodes
  pub loops_kept :
      (s : StageNode)
      → Memᴰ (stage s) reduction.nodes
      → (t : TaskState) → Memᴰ t (loop_targets s)
      → includes t (dropped base reduction) ≡ false
  pub resumed_kept :
      (s : StageNode)
      → Memᴰ (stage s) reduction.nodes
      → (t : TaskState) → s.resumes ≡ some t
      → includes t (dropped base reduction) ≡ false
  pub approvals_kept :
      (g : GateNode)
      → Memᴰ (gate g) reduction.nodes
      → includes g.approve (dropped base reduction) ≡ false
  pub redirects_kept :
      (g : GateNode)
      → Memᴰ (gate g) reduction.nodes
      → (t : TaskState) → Memᴰ t (redirect_targets g)
      → includes t (dropped base reduction) ≡ false
  pub reworks_kept :
      (g : GateNode)
      → Memᴰ (gate g) reduction.nodes
      → (t : TaskState) → Memᴰ t (rework_targets g)
      → includes t (dropped base reduction) ≡ false

module _ (base reduction : PipelineDefinition) where
  report-nil :
      (broken : Bool) (e : ReductionElement) (p : ReductionProblem)
      → report base reduction broken e p ≡ []
      → broken ≡ false
  report-nil true e p h = cc
  report-nil false e p h = refl

  reports-nil :
      (e : ReductionElement) (p : TaskState → ReductionProblem) (ts : List TaskState)
      → flat_map (λ t. report base reduction (includes t (dropped base reduction)) e (p t)) ts ≡ []
      → (t : TaskState) → Memᴰ t ts
      → includes t (dropped base reduction) ≡ false
  reports-nil e p ts h t m = report-nil _ e (p t) (flat_map-nil _ ts h t m)

  loop_reports-nil :
      (key : TaskState) (ts : List TaskState)
      → flat_map
          (λ t.
            report base reduction
              (includes t (dropped base reduction))
              (loop_edge key t)
              target_dropped)
          ts
        ≡ []
      → (t : TaskState) → Memᴰ t ts
      → includes t (dropped base reduction) ≡ false
  loop_reports-nil key ts h t m =
      report-nil _ (loop_edge key t) target_dropped (flat_map-nil _ ts h t m)

  -- A reduction without a defect keeps the base's terminal, is made of nodes of the base in the
  -- base's order, and has no edge to a node that it drops.
  pub validate_reduction-IsReduction :
      validate_reduction base reduction ≡ [] → IsReduction base reduction
  unfolding validate_reduction strand_defects
  validate_reduction-IsReduction h =
      let (terminal_ok, rest) = append-eq-nil _ _ h in
      let (order_ok, strand_ok) = append-eq-nil _ _ rest in
      let at = flat_map-nil (strand_defects base reduction) reduction.nodes strand_ok in
      record {
        same_terminal =
            ground (
              arith,
              report-nil _ _ _ terminal_ok,
              same_state_iff reduction.terminal base.terminal,
            );
        in_order = order_defects-Sublistᴰ base reduction base.nodes reduction.nodes order_ok;
        loops_kept =
            λ s m. loop_reports-nil s.key (loop_targets s) (append-eq-nil _ _ (at (stage s) m)).0;
        resumed_kept = λ s m t e. report-nil _ (node s.key) (resumes_dropped t) (
            flat_map-nil _ (resumed_targets base reduction s) (append-eq-nil _ _ (at (stage s) m)).1
              t (rw (e, resumed_targets) (Memᴰ.head refl)));
        approvals_kept = λ g m. report-nil _ _ _ (append-eq-nil _ _ (at (gate g) m)).0;
        redirects_kept = λ g m.
            reports-nil (gate_of g.key) redirect_dropped (redirect_targets g)
              (append-eq-nil _ _ (append-eq-nil _ _ (at (gate g) m)).1).0;
        reworks_kept = λ g m.
            reports-nil (gate_of g.key) rework_dropped (rework_targets g)
              (append-eq-nil _ _ (append-eq-nil _ _ (at (gate g) m)).1).1;
      }
