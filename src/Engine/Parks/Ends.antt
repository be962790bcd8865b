-- ===== src/Engine/Parks/Ends.antt =====
-- A stage of apps/orchestrator/src/engine.ts that ended well leads its task where `advance` decides.
use specmate.Prelude.{
  ℕ, true, false, List, Option, some, String, ok, ◌≡◌, ◌≢◌, refl, ◌∙◌, ap, inl, inr, ◌⊎◌, beq_refl,
}
use specmate.Lifecycle.{TaskState, task_state_eq, is_terminal}
use specmate.Pipeline.Nodes.{StageNode, stage}
use specmate.Pipeline.Walk.{node_at, can_transition}
use specmate.Pipeline.Walk.Lookup.{keys_of, Distinct, node_at-Memᴰ, forward_target-cases}
use specmate.Pipeline.Advance.{
  needs_decision, RoundToRecord, RecordedRound, StageOutcomeSummary, AdvanceDecision, park,
  advance_to, loop_to, advance,
}
use specmate.Pipeline.Advance.Branches.{advance-loop_to_iff}
use specmate.Pipeline.Advance.Moves.{destination, advance-advance_to, advance-can_transition}
use specmate.Decisions.{blocking_open}
use specmate.Decisions.Escalation.{EscalationInput}
use specmate.Engine.State.{World}
use specmate.Engine.Raise.Unique.{AtMostOne}
use specmate.Engine.Transition.{MoveOptions, moved, apply_transition}
use specmate.Engine.Settled.{is_stopped, Routes, IsSettled, moved-task, apply_transition-moving}
use specmate.Engine.Parks.{finish_stage}
use specmate.Engine.Parks.Settles.{park_stage-IsSettled}

-- Where the agent asked the owner, a decision that blocks the task is open.
abbrev pub Asked : AdvanceDecision → World → Type 0
Asked (park reason resume rec) w = (reason ≢ needs_decision) ⊎ (blocking_open w.decisions ≡ true)
Asked (advance_to to rec) w = Unit
Asked (loop_to to rec) w = Unit

moves-IsSettled :
    (w : World) (to : TaskState) (opts : MoveOptions)
    → AtMostOne w.decisions
    → Routes w.graph
    → is_stopped to ≡ false
    → can_transition w.graph w.task.status to ≡ ok true
    → (after : World) × (apply_transition w w.graph w.task.status to opts ≡ ok after)
      × (after.task.status ≡ to)
      × IsSettled after
unfolding apply_transition
moves-IsSettled w to opts one routes moving legal =
    let (status, _, _) = moved-task w w.task.status to opts in
    let moves : apply_transition w w.graph w.task.status to opts
        ≡ ok (moved w w.task.status to opts) =
      rw (legal, beq_refl w.task.status) refl in
    (
      moved w w.task.status to opts,
      moves,
      status,
      apply_transition-moving w (moved w w.task.status to opts) w.graph w.task.status to opts one
          routes moving moves,
    )

module _ (show : ℕ → String) (prompt : EscalationInput → String) (w : World) (row : ℕ)
    (n : StageNode) (outcome : StageOutcomeSummary) (rounds : List RecordedRound) where
  forward_moves :
      (to : TaskState) (rec : Option RoundToRecord)
      → Routes w.graph
      → advance w.graph w.task.status outcome rounds w.task.caps ≡ ok (advance_to to rec)
      → is_stopped to ≡ false
  forward_moves to rec routes h =
      elim (forward_target-cases w.graph w.task.status to
        (advance-advance_to w.graph w.task.status outcome rounds w.task.caps to rec h)) [
          | inl key ↦ routes.keys_move to key
          | inr e ↦ ap is_stopped e ∙ routes.terminal_moves
        ]

  loop_moves :
      (to : TaskState) (rec : RoundToRecord)
      → Routes w.graph
      → advance w.graph w.task.status outcome rounds w.task.caps ≡ ok (loop_to to rec)
      → is_stopped to ≡ false
  loop_moves to rec routes h =
      let (m, edge, at, le, _, e, _) =
        (advance-loop_to_iff w.graph w.task.status outcome rounds w.task.caps to rec).0 h in
      ap is_stopped e
      ∙ routes.keys_move edge.target
          (routes.loop_keys m edge (node_at-Memᴰ w.graph w.task.status at).0 le)

  -- A task stands at a stage of a graph with distinct keys that routes tasks, in a status that is not
  -- terminal, and no two of its open decisions share node and key. Wherever `advance` leads it, the
  -- end of the stage is never refused: the task is then where the decision says, `waiting_human` for a
  -- park, and it is settled. Only a park that the agent asked for supposes that a blocking decision is
  -- open already.
  pub finish_stage-IsSettled :
      (d : AdvanceDecision)
      → Distinct (keys_of w.graph.nodes)
      → Routes w.graph
      → AtMostOne w.decisions
      → is_terminal w.task.status ≡ false
      → node_at w.graph w.task.status ≡ some (stage n)
      → advance w.graph w.task.status outcome rounds w.task.caps ≡ ok d
      → Asked d w
      → (after : World) × (finish_stage show prompt w row n d rounds ≡ ok after)
        × (after.task.status ≡ destination d)
        × IsSettled after
  unfolding finish_stage
  finish_stage-IsSettled (park reason resume rec) distinct routes one live at h asked =
      let (after, e, status, _, settled) =
        park_stage-IsSettled show prompt w row n outcome rounds reason resume rec distinct routes
          one live at h asked in
      (after, e, status, settled)
  finish_stage-IsSettled (advance_to to rec) distinct routes one live at h asked =
      moves-IsSettled w to _ one routes (forward_moves to rec routes h) (
        advance-can_transition w.graph w.task.status outcome rounds w.task.caps (advance_to to rec)
          distinct live h)
  finish_stage-IsSettled (loop_to to rec) distinct routes one live at h asked =
      moves-IsSettled w to _ one routes (loop_moves to rec routes h) (
        advance-can_transition w.graph w.task.status outcome rounds w.task.caps (loop_to to rec)
          distinct live h)
