-- ===== src/Pipeline/Advance/Moves.antt =====
-- Every decision of `advance` is a move that `canTransition` allows.
use specmate.Prelude.{
  Bool, true, false, List, Option, none, some, ◌≡◌, refl, sym, subst, arith, ok, inl, inr, Memᴰ,
}
use specmate.Lifecycle.{TaskState, task_state_eq, same_state, Caps, waiting_human, is_terminal}
use specmate.Findings.{ReviewVerdict, approve, revise, escalate, ReviewFinding}
use specmate.Pipeline.Nodes.{LoopEdge, StageNode, stage, PinnedGraph}
use specmate.Pipeline.Walk.{node_at, forward_target, can_transition}
use specmate.Pipeline.Walk.Lookup.{keys_of, Distinct, node_at-Memᴰ}
use specmate.Pipeline.Walk.Moves.{Leads}
use specmate.Pipeline.Walk.Legal.{can_transition-Allowed}
use specmate.Pipeline.Advance.{
  StageOutcomeSummary, RecordedRound, RoundToRecord, AdvanceDecision, loop_to, advance_to, park,
  or_empty, is_set, advance_edge, advance_stage, advance,
}
use specmate.Pipeline.Advance.Branches.{advance_of_stage, advance-loop_to_iff}

-- The status that a decision moves the task to.
abbrev pub destination : AdvanceDecision → TaskState
destination (advance_to to rec) = to
destination (loop_to to rec) = to
destination (park cause resume rec) = waiting_human

module _ (graph : PinnedGraph) (key : TaskState) (outcome : StageOutcomeSummary)
    (rounds : List RecordedRound) (caps : Caps) where
  edge_forward :
      (edge : LoopEdge) (v : Option ReviewVerdict) (b : Bool) (fs : List ReviewFinding)
      (to : TaskState) (rec : Option RoundToRecord)
      → advance_edge graph key edge v b fs rounds caps ≡ ok (advance_to to rec)
      → forward_target graph key ≡ ok to
  unfolding advance_edge
  edge_forward edge none true fs to rec h = cc
  edge_forward edge none false fs to rec h = cc
  edge_forward edge (some v) true fs to rec h = cc
  edge_forward edge (some approve) false fs to rec h = ground arith
  edge_forward edge (some escalate) false fs to rec h = cc
  edge_forward edge (some revise) false fs to rec h = absurd (ground arith)

  stage_forward :
      (n : StageNode) (le : Option LoopEdge) (to : TaskState) (rec : Option RoundToRecord)
      → n.loop_edge ≡ le
      → advance_stage graph key n outcome rounds caps ≡ ok (advance_to to rec)
      → forward_target graph key ≡ ok to
  unfolding advance_stage
  stage_forward n none to rec le h = ground arith
  stage_forward n (some edge) to rec le h =
      edge_forward edge outcome.verdict (is_set outcome.has_blocking_decision)
        (or_empty outcome.findings) to rec (rw (le, advance_stage) at h)

  -- A decision to go on leads to the forward target of its node.
  pub advance-advance_to :
      (to : TaskState) (rec : Option RoundToRecord)
      → advance graph key outcome rounds caps ≡ ok (advance_to to rec)
      → forward_target graph key ≡ ok to
  advance-advance_to to rec h =
      let (n, at, st) = advance_of_stage graph key outcome rounds caps h in
      stage_forward n n.loop_edge to rec refl st

  along :
      (n : StageNode) (to : TaskState)
      → Distinct (keys_of graph.nodes)
      → node_at graph key ≡ some (stage n)
      → Leads graph (stage n) to
      → can_transition graph key to ≡ ok true
  along n to distinct at leads =
      let (m, k) = node_at-Memᴰ graph key at in
      can_transition-Allowed graph key to distinct (inr (inl (inl (stage n, m, k, leads))))

  -- On a graph with distinct keys, at a stage that is not a terminal status, the orchestrator may
  -- always make the move that `advance` decides on: to the next node, back along the loop edge, or
  -- into `waiting_human` where it parks.
  pub advance-can_transition :
      (d : AdvanceDecision)
      → Distinct (keys_of graph.nodes)
      → is_terminal key ≡ false
      → advance graph key outcome rounds caps ≡ ok d
      → can_transition graph key (destination d) ≡ ok true
  unfolding same_state
  advance-can_transition (advance_to to rec) distinct live h =
      let (n, at, st) = advance_of_stage graph key outcome rounds caps h in
      let (m, k) = node_at-Memᴰ graph key at in
      along n to distinct at
        (inl (subst (λ s. forward_target graph s ≡ ok to) (sym k) (advance-advance_to to rec h)))
  advance-can_transition (loop_to to rec) distinct live h =
      let (n, edge, at, le, l, t, r) =
        (advance-loop_to_iff graph key outcome rounds caps to rec).0 h in
      along n to distinct at (inr (inl (rw le (Memᴰ.head t))))
  advance-can_transition (park cause resume rec) distinct live h =
      can_transition-Allowed graph key waiting_human distinct (inr (inr (refl, live)))
