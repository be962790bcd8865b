-- ===== src/Engine/Resolve.antt =====
-- Resolving a decision: `resolveDecisionInTx`, `dismiss` and the coverage decision of
-- apps/orchestrator/src/engine.ts. Trimming a text is the platform's.
use specmate.Prelude.{
  ℕ, Bool, true, false, not, ◌&&◌, List, [], ◌∷◌, ◌++◌, map, find?, Option, none, some, String,
  ◌==◌, nat_eq, string_eq, if◌then◌else◌, Result, ok, err, ◌>>=◌,
}
use specmate.Lifecycle.{TaskState, task_state_eq, waiting_human}
use specmate.Roles.{AgentRole, ProviderId}
use specmate.Decisions.{
  StoredDecision, DecisionStatus, answered, dismissed, decision_status_eq, is_open, blocking_open,
  DecisionOption,
}
use specmate.Engine.State.{
  World, EngineError, HarnessStatus, unknown, adequate, partial, missing, waived,
  decision_not_found, decision_not_open, coverage_requires_option, budget_requires_option,
  no_resume_state, Stage, Feedback, decision_answer, on_decision, decision_answered,
  decision_dismissed, task_resumed, coverage_waiver_recorded, emit_event,
}
use specmate.Engine.Raise.{
  coverage_decision_node_key, coverage_decision_key, budget_decision_node_key, budget_decision_key,
  same_open,
}
use specmate.Engine.Transition.{apply_transition}

-- `answered` or `dismissed`.
pub data Resolution : Type 0 where
  by_answer by_dismissal : Resolution

pub record ResolutionInput : Type 0 where
  pub text : Option String
  pub option_id : Option String

abbrev pub resolved_status : Resolution → DecisionStatus
resolved_status by_answer = answered
resolved_status by_dismissal = dismissed

abbrev pub is_dismissal : Resolution → Bool
is_dismissal by_answer = false
is_dismissal by_dismissal = true

abbrev pub is_coverage_decision : StoredDecision → Bool
is_coverage_decision d = d.node_key == coverage_decision_node_key && d.key == coverage_decision_key

abbrev pub is_budget_decision : StoredDecision → Bool
is_budget_decision d = d.node_key == budget_decision_node_key && d.key == budget_decision_key

-- An absent text and an empty one are both false as a test.
abbrev pub given : Option String → Option String
given none = none
given (some text) = if text == "" then none else some text

abbrev label_or : String → Option DecisionOption → String
label_or id none = id
label_or id (some option) = option.label

abbrev has_option_id : String → DecisionOption → Bool
has_option_id id option = option.id == id

abbrev option_answer : Option String → List DecisionOption → Option String
option_answer none options = none
option_answer (some id) options = some (label_or id (find? (has_option_id id) options))

abbrev text_answer : Option String → ResolutionInput → List DecisionOption → Option String
text_answer (some text) input options = some text
text_answer none input options = option_answer (given input.option_id) options

abbrev pub has_id : ℕ → StoredDecision → Bool
has_id id d = d.id == id

abbrev is_stage : ℕ → Stage → Bool
is_stage id row = row.id == id

abbrev or_text : Option String → String
or_text none = ""
or_text (some text) = text

module _ (trim : String → String) where
  abbrev pub trimmed : Option String → Option String
  trimmed none = none
  trimmed (some text) = given (some (trim text))

  -- `resolveAnswerMd`.
  unfoldable pub resolve_answer_md : ResolutionInput → List DecisionOption → Option String
  resolve_answer_md input options = text_answer (trimmed input.text) input options

-- The update of the open row of this id.
abbrev pub resolved_row :
    ℕ → Resolution → Option String → String → ℕ → StoredDecision → StoredDecision
resolved_row id how answer actor now d =
    if d.id == id && is_open d
    then record d {
      status = resolved_status how;
      answer_md = answer;
      answered_by = some actor;
      answered_at = some now;
    }
    else d

abbrev role_of : Option Stage → Option AgentRole
role_of none = none
role_of (some row) = some row.role

abbrev provider_of : Option Stage → Option ProviderId
provider_of none = none
provider_of (some row) = some row.provider

-- The row of feedback that an answer leaves against the stage that asked.
abbrev answer_feedback : World → ℕ → String → ℕ → Feedback
answer_feedback w id text stage = record {
  kind = decision_answer;
  text_md = text;
  stage_id = some stage;
  role = role_of (find? (is_stage stage) w.stages);
  provider = provider_of (find? (is_stage stage) w.stages);
  target = on_decision id;
  consumed_by_stage_id = none;
}

abbrev pub with_feedback : World → ℕ → Resolution → Option String → Option ℕ → World
with_feedback w id by_answer answer (some stage) = record w {
  feedback = w.feedback ++ answer_feedback w id (or_text answer) stage ∷ [];
}
with_feedback w id _ answer _ = w

abbrev pub resolution_cause : Resolution → String
resolution_cause by_answer = "decision_answered"
resolution_cause by_dismissal = "decision_dismissed"

abbrev pub unpark_to : World → Resolution → String → Option TaskState → Result EngineError World
unpark_to w how actor none = err no_resume_state
unpark_to w how actor (some to) =
    apply_transition (emit_event w (task_resumed to) none) w.graph w.task.status to
      (record { cause = resolution_cause how; actor = some actor; resume = none; stage_id = none })

-- What follows the event: a parked task whose last blocking decision this was is resumed.
unfoldable pub unpark : World → Resolution → String → Result EngineError World
unpark w how actor =
    if not (w.task.status == waiting_human)
    then ok w
    else if blocking_open w.decisions
    then ok w
    else unpark_to w how actor w.task.resume_status

abbrev pub resolution_event : World → StoredDecision → Resolution → World
resolution_event w d by_answer = emit_event w (decision_answered d.id) d.stage_id
resolution_event w d by_dismissal = emit_event w (decision_dismissed d.id) d.stage_id

-- The row, the feedback and the event.
abbrev pub closed : World → StoredDecision → Resolution → String → Option String → World
closed w d how actor answer =
    resolution_event
      (with_feedback
        (record w { decisions = map (resolved_row d.id how answer actor w.now) w.decisions }) d.id
        how answer d.stage_id)
      d how

module _ (trim : String → String) where
  unfoldable pub resolve_row :
      World → StoredDecision → String → Resolution → ResolutionInput → Result EngineError World
  unfolding unpark resolve_answer_md
  resolve_row w d actor how input =
      if not (is_open d)
      then err (decision_not_open d.id d.status)
      else if is_dismissal how && is_coverage_decision d
      then err (coverage_requires_option d.id)
      else if is_dismissal how && is_budget_decision d
      then err (budget_requires_option d.id)
      else unpark (closed w d how actor (resolve_answer_md trim input d.options)) how actor

  abbrev pub resolve_found :
      World
      → ℕ
      → String
      → Resolution
      → ResolutionInput
      → Option StoredDecision
      → Result EngineError World
  resolve_found w id actor how input none = err (decision_not_found id)
  resolve_found w id actor how input (some d) = resolve_row w d actor how input

  -- `resolveDecisionInTx`. The update cannot miss the row that was read open in the transaction.
  unfoldable pub resolve_decision :
      World → ℕ → String → Resolution → ResolutionInput → Result EngineError World
  resolve_decision w id actor how input =
      resolve_found w id actor how input (find? (has_id id) w.decisions)

  -- `dismiss`.
  unfoldable pub dismiss : World → ℕ → String → Option String → Result EngineError World
  unfolding resolve_decision
  dismiss w id actor reason =
      resolve_decision w id actor by_dismissal (record { text = reason; option_id = none })

abbrev is_coverage_gap : HarnessStatus → Bool
is_coverage_gap unknown = false
is_coverage_gap adequate = false
is_coverage_gap partial = true
is_coverage_gap missing = true
is_coverage_gap waived = false

-- `waiveHarnessStatus`, with the insert of `recordCoverageWaiver`.
unfoldable pub waive_harness_status : World → World
waive_harness_status w =
    if not (is_coverage_gap w.task.harness_status)
    then w
    else if w.waiver
    then record w { task = record w.task { harness_status = waived } }
    else emit_event (record w { task = record w.task { harness_status = waived }; waiver = true })
        coverage_waiver_recorded none

module _ (trim : String → String) where
  abbrev pub proceed_with : World → String → Option StoredDecision → Result EngineError World
  proceed_with w actor none = ok w
  proceed_with w actor (some d) =
      resolve_decision trim w d.id actor by_answer
        (record { text = none; option_id = some "proceed" })
      >>= λ answered_world. ok (waive_harness_status answered_world)

  -- `resolveCoverageDecisionAsProceed`.
  unfoldable pub resolve_coverage_as_proceed : World → String → Result EngineError World
  resolve_coverage_as_proceed w actor =
      proceed_with w actor
        (find? (same_open coverage_decision_node_key coverage_decision_key) w.decisions)
