-- ===== src/Engine/Plan.antt =====
-- What a planning stage leaves of its task: `recordPlanOutcome`, `inheritCoverageWaiver` and
-- `dismissCoverageDecision` of apps/orchestrator/src/store.ts. The prompts are texts that are given.
pub mod Asks
pub mod Choice
pub mod Inherits
pub mod Keeps
pub mod Recorded
use specmate.Prelude.{
  ℕ, ◌+◌, Bool, true, false, not, ◌&&◌, ◌||◌, List, [], ◌∷◌, ◌++◌, map, any, find?, Option, none,
  some, is_some, String, concat, ◌==◌, nat_eq, string_eq, if◌then◌else◌, Result, ok, err, ◌>>=◌, Eq,
  eq_of_discrete,
}
use specmate.Lifecycle.{TaskState, task_state_eq, Caps}
use specmate.Pipeline.Catalog.{TaskType, PlanSize, definition_for_size}
use specmate.Decisions.{StoredDecision, DecisionInsert, question, answered, dismissed, is_open}
use specmate.Results.{
  PlanPrerequisite, PlanShape, HarnessClassification, adequate, partial, missing,
  HarnessCoverageAssessment,
}
use specmate.PlanChoice.{PlanChoice, plan_choice_for, plan_choice_options, needs_plan_choice}
use specmate.Engine.State.{
  World, Task, EngineError, HarnessStatus, waived, adequate as has_harness, partial as has_partial,
  missing as has_none, task_plan_recorded, task_renamed, decision_inherited, decision_dismissed,
  emit_event,
}
use specmate.Engine.Raise.{
  coverage_decision_node_key, coverage_decision_key, same_open, raise_decision,
}
use specmate.Engine.Transition.{dismissed_row}

-- The columns of the task that only its plan writes, and the depth that it stands at.
pub record PlanRow : Type 0 where
  pub title : String
  pub type : TaskType
  pub plan_size : Option PlanSize
  pub change_name : Option String
  pub plan_depth : ℕ

-- What `recordPlanOutcome` is called with; the caps are those that its caller read. `origin` is the
-- title of the task whose acceptance is in force.
pub record PlanResult : Type 0 where
  pub stage_id : ℕ
  pub caps : Caps
  pub assessment : Option HarnessCoverageAssessment
  pub plan : Option PlanShape
  pub running : String
  pub change_name : Option String
  pub origin : Option String

abbrev pub is_coverage_card : StoredDecision → Bool
is_coverage_card d = same_open coverage_decision_node_key coverage_decision_key d

-- `dismissCoverageDecision`.
unfoldable pub dismiss_coverage_decision : World → String → World
dismiss_coverage_decision w actor = elim (find? is_coverage_card w.decisions) [
  | none ↦ w
  | some d ↦
      emit_event
        (record w {
          decisions =
              map (λ x. if is_coverage_card x then dismissed_row actor w.now x else x) w.decisions;
        })
        (decision_dismissed d.id) d.stage_id
]

abbrev pub harness_status_of : HarnessClassification → HarnessStatus
harness_status_of adequate = has_harness
harness_status_of partial = has_partial
harness_status_of missing = has_none

abbrev pub with_status : Task → Option HarnessCoverageAssessment → Task
with_status task none = task
with_status task (some assessment) = record task {
  harness_status = harness_status_of assessment.classification;
}

abbrev pub is_adequate : Option HarnessCoverageAssessment → Bool
is_adequate none = false
is_adequate (some assessment) = elim assessment.classification [
  | adequate ↦ true
  | partial ↦ false
  | missing ↦ false
]

abbrev pub size_applies : PlanRow → String → PlanShape → Bool
size_applies row running plan = (definition_for_size row.type plan.size).id == running

abbrev or_kept_name : Option String → Option String → Option String
or_kept_name none old = old
or_kept_name (some name) old = some name

-- The update of the task's row: a name, a type or a size is taken where it applies.
abbrev pub with_plan : PlanRow → PlanResult → Option PlanShape → PlanRow
with_plan row result none = record row {
  change_name = or_kept_name result.change_name row.change_name;
}
with_plan row result (some plan) = record row {
  title = plan.title;
  type =
      if (definition_for_size plan.type plan.size).id == result.running
      then plan.type
      else row.type;
  plan_size = if size_applies row result.running plan then some plan.size else row.plan_size;
  change_name = or_kept_name result.change_name row.change_name;
}

unfoldable pub TaskType-discrete : Discrete TaskType
TaskType-discrete = hlevel

instance abbrev pub task_type_eq : Eq TaskType
task_type_eq = eq_of_discrete TaskType-discrete

abbrev prerequisite_key : PlanPrerequisite → String
prerequisite_key p = p.key

abbrev is_retyped : PlanRow → String → PlanShape → Bool
is_retyped row running plan =
    not (plan.type == row.type) && (definition_for_size plan.type plan.size).id == running

-- The events of a declared plan.
abbrev pub announced : World → PlanRow → PlanResult → Option PlanShape → World
announced w row result none = w
announced w row result (some plan) =
    let recorded =
      emit_event w
        (task_plan_recorded (size_applies row result.running plan)
          (map prerequisite_key plan.prerequisites))
        (some result.stage_id) in
    if not (plan.title == row.title) || is_retyped row result.running plan
    then emit_event recorded (task_renamed row.title plan.title) (some result.stage_id)
    else recorded

abbrev pub is_settled_card : StoredDecision → Bool
is_settled_card d =
    d.node_key == coverage_decision_node_key && (d.key == coverage_decision_key && not (is_open d))

abbrev origin_or : Option String → String
origin_or none = "an earlier task"
origin_or (some title) = title

module _ (inherited_prompt : HarnessCoverageAssessment → String → String)
    (prompt : PlanChoice → String) where
  abbrev pub inherited_row : World → PlanResult → HarnessCoverageAssessment → StoredDecision
  inherited_row w result assessment = record {
    id = w.next_id;
    stage_id = some result.stage_id;
    node_key = coverage_decision_node_key;
    key = coverage_decision_key;
    kind = question;
    prompt_md = inherited_prompt assessment (origin_or result.origin);
    options = [];
    blocking = false;
    status = answered;
    answer_md = some (
        concat (
          "Inherited: this repository's coverage gap was accepted on \""
          ∷ origin_or result.origin
          ∷ "\"."
          ∷ []));
    answered_by = some "system";
    answered_at = some w.now;
  }

  -- `inheritCoverageWaiver`, where one is in force.
  unfoldable pub inherit_coverage_waiver : World → PlanResult → HarnessCoverageAssessment → World
  inherit_coverage_waiver w result assessment =
      let accepted = record w { task = record w.task { harness_status = waived } } in
      if any is_settled_card w.decisions
      then accepted
      else emit_event
          (record accepted {
            decisions = w.decisions ++ inherited_row w result assessment ∷ [];
            next_id = w.next_id + 1;
          })
          decision_inherited (some result.stage_id)

  abbrev pub inherited : World → PlanResult → Option HarnessCoverageAssessment → World
  inherited w result none = w
  inherited w result (some assessment) =
      if is_adequate (some assessment)
      then record w { waiver = false }
      else if w.waiver
      then inherit_coverage_waiver w result assessment
      else w

  -- An acceptance settles the coverage half.
  abbrev pub is_inherited : World → Option HarnessCoverageAssessment → Bool
  is_inherited w assessment = is_some assessment && (not (is_adequate assessment) && w.waiver)

  unfoldable pub choice_of : World → PlanRow → PlanResult → PlanChoice
  unfolding plan_choice_for
  choice_of w row result =
      plan_choice_for result.caps row.plan_depth
        (if is_inherited w result.assessment then none else result.assessment) result.plan

  abbrev pub choice_insert : PlanChoice → DecisionInsert
  choice_insert choice = record {
    node_key = coverage_decision_node_key;
    key = coverage_decision_key;
    kind = question;
    prompt_md = prompt choice;
    options = plan_choice_options choice;
    blocking = false;
  }

  -- The rows before the question is asked or closed.
  abbrev pub planned_world : World → PlanRow → PlanResult → World
  planned_world w row result =
      inherited
        (announced (record w { task = with_status w.task result.assessment }) row result
          result.plan)
        result result.assessment

  -- `recordPlanOutcome`.
  unfoldable pub record_plan_outcome :
      World → PlanRow → PlanResult → Result EngineError (World × PlanRow)
  unfolding choice_of raise_decision dismiss_coverage_decision needs_plan_choice
  record_plan_outcome w row result =
      let choice = choice_of w row result in
      let planned = planned_world w row result in
      if not (needs_plan_choice choice)
      then ok (dismiss_coverage_decision planned "system", with_plan row result result.plan)
      else raise_decision planned (some result.stage_id) (choice_insert choice) >>= λ asked.
          ok (asked, with_plan row result result.plan)
