-- ===== src/Engine/Parks.antt =====
-- The end of `completeStage` of apps/orchestrator/src/engine.ts, where the stage parks its task or moves
-- it on. The text of a number and the prompt of an escalation are given.
pub mod Settles
pub mod Ends
use specmate.Prelude.{ℕ, List, [], ◌∷◌, map, Option, some, none, String, Result, ok, ◌>>=◌}
use specmate.Lifecycle.{TaskState, waiting_human}
use specmate.Pipeline.Nodes.{StageNode}
use specmate.Pipeline.Advance.{
  ParkCause, escalate_cause, repeated_finding, cap_exhausted, needs_decision, RoundToRecord,
  RecordedRound, AdvanceDecision, park, advance_to, loop_to,
}
use specmate.Decisions.{DecisionInsert}
use specmate.Decisions.Escalation.{EscalationInput, escalation_for_park, escalation_evidence}
use specmate.Engine.State.{World, EngineError}
use specmate.Engine.Raise.{raise_decision}
use specmate.Engine.Transition.{MoveOptions, apply_transition}

-- One raise after the other.
abbrev pub raise_each : World → Option ℕ → List DecisionInsert → Result EngineError World
raise_each w asker [] = ok w
raise_each w asker (input ∷ inputs) =
    raise_decision w asker input >>= λ raised. raise_each raised asker inputs

abbrev cause_text : ParkCause → String
cause_text escalate_cause = "escalate"
cause_text repeated_finding = "repeated_finding"
cause_text cap_exhausted = "cap_exhausted"
cause_text needs_decision = "needs_decision"

abbrev pub park_options : ℕ → ParkCause → TaskState → MoveOptions
park_options row reason resume = record {
  cause = cause_text reason;
  actor = none;
  resume = some resume;
  stage_id = some row;
}

-- The transition of a park.
abbrev pub parks_at : World → ℕ → ParkCause → TaskState → Result EngineError World
parks_at w row reason resume =
    apply_transition w w.graph w.task.status waiting_human (park_options row reason resume)

module _ (show : ℕ → String) (prompt : EscalationInput → String) where
  -- The escalations of a park; one that the agent asked for has none.
  abbrev pub escalations :
      ParkCause
      → StageNode
      → Option RoundToRecord
      → List RecordedRound
      → World
      → List DecisionInsert
  escalations reason node rec rounds w =
      map (escalation_for_park show prompt) (escalation_evidence reason node rec rounds w.task.caps)

  -- The branch of `completeStage` that parks: the escalations, then the transition.
  unfoldable pub park_stage :
      World
      → ℕ
      → StageNode
      → ParkCause
      → TaskState
      → Option RoundToRecord
      → List RecordedRound
      → Result EngineError World
  park_stage w row node reason resume rec rounds =
      raise_each w (some row) (escalations reason node rec rounds w) >>= λ raised.
      parks_at raised row reason resume

  abbrev pub move_options : String → ℕ → MoveOptions
  move_options cause row = record {
    cause = cause;
    actor = none;
    resume = none;
    stage_id = some row;
  }

  -- The end of `completeStage`: the task parks, or moves as the stage's outcome leads.
  unfoldable pub finish_stage :
      World → ℕ → StageNode → AdvanceDecision → List RecordedRound → Result EngineError World
  finish_stage w row node (park reason resume rec) rounds =
      park_stage w row node reason resume rec rounds
  finish_stage w row node (advance_to to rec) rounds =
      apply_transition w w.graph w.task.status to (move_options "advance" row)
  finish_stage w row node (loop_to to rec) rounds =
      apply_transition w w.graph w.task.status to (move_options "revise" row)
