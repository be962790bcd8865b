-- ===== src/Engine/Answer.antt =====
-- Answering a decision: `answer`, `applyCoverageChoice` and `createPlannedPrerequisites` of
-- apps/orchestrator/src/engine.ts. Trimming a text, reading a number under the schema of a budget and
-- minting the ids of new tasks are the platform's.
pub mod Outcomes
pub mod Refused
pub mod Split
use specmate.Prelude.{
  ℕ, suc, ◌+◌, Bool, true, false, not, ◌&&◌, ◌||◌, List, [], ◌∷◌, ◌++◌, map, any, find?, Option,
  none, some, is_some, is_empty, String, concat, ◌==◌, nat_eq, string_eq, if◌then◌else◌, Result, ok,
  err, ◌>>=◌,
}
use specmate.Lifecycle.{TaskState, blocked, Budgets}
use specmate.Budget.{BudgetKey, Spend, budget_exhaustion}
use specmate.Decisions.{
  StoredDecision, DecisionOption, budget_from_raise_option, budget_decision_cancel_option,
}
use specmate.Results.{PlanPrerequisite, PlanShape, HarnessCoverageAssessment}
use specmate.PlanChoice.{PlanChoice, plan_choice_for, split_creates_work}
use specmate.Engine.State.{
  World, EngineError, decision_answer_empty, decision_not_found, budget_requires_option,
  coverage_requires_option, budget_raise_value, self_dependency, task_spend,
}
use specmate.Engine.Transition.{apply_transition}
use specmate.Engine.Resolve.{
  ResolutionInput, by_answer, resolve_decision, is_coverage_decision, is_budget_decision, has_id,
  given, trimmed, waive_harness_status,
}
use specmate.Engine.Gates.{by_actor, cancel}
use specmate.Engine.Spending.{raise_budget, with_budget}

-- What is read of the task and of its stages' results when its plan is split.
pub record Planned : Type 0 where
  pub task_id : String
  pub title : String
  pub plan_depth : ℕ
  pub assessment : Option HarnessCoverageAssessment
  pub plan : Option PlanShape

-- A row that `createTaskInTx` is asked for.
pub record NewTask : Type 0 where
  pub id : String
  pub title : String
  pub why_md : String
  pub origin_task_id : String
  pub plan_depth : ℕ

-- What a call leaves: the rows as they were last committed, what it threw after that, and the tasks that
-- it made.
pub record Outcome : Type 0 where
  pub world : World
  pub thrown : Option EngineError
  pub created : List NewTask

abbrev pub refused : World → EngineError → Outcome
refused w e = record { world = w; thrown = some e; created = [] }

abbrev pub done : World → Outcome
done w = record { world = w; thrown = none; created = [] }

-- One transaction: what it throws rolls it back.
abbrev pub committed : World → Result EngineError World → Outcome
committed w (ok after) = done after
committed w (err e) = refused w e

abbrev pub committed_tasks : World → Result EngineError (World × List NewTask) → Outcome
committed_tasks w (ok (after, made)) = record { world = after; thrown = none; created = made }
committed_tasks w (err e) = refused w e

abbrev evidence_text : Option HarnessCoverageAssessment → String
evidence_text none = "No evidence was recorded."
evidence_text (some assessment) = assessment.evidence_md

-- `harnessFallback`.
abbrev pub harness_fallback : Planned → PlanPrerequisite
harness_fallback planned = record {
  key = "harness";
  title = concat ("Harness: " ∷ planned.title ∷ []);
  why_md = concat (
      "Build the test harness \""
      ∷ planned.title
      ∷ "\" needs before it can be properly validated."
      ∷ "\n\nCoverage gap found while planning that task: "
      ∷ evidence_text planned.assessment
      ∷ []);
}

abbrev pub proposals_of : Planned → PlanChoice → List PlanPrerequisite
proposals_of planned choice =
    if is_empty choice.creates then harness_fallback planned ∷ [] else choice.creates

abbrev pub id_of : NewTask → String
id_of task = task.id

abbrev pub is_task : String → NewTask → Bool
is_task id task = id == task.id

module _ (mint : ℕ → String) where
  abbrev pub new_tasks : Planned → ℕ → List PlanPrerequisite → List NewTask
  new_tasks planned n [] = []
  new_tasks planned n (proposal ∷ proposals) =
      record {
        id = mint n;
        title = proposal.title;
        why_md =
            concat
              (proposal.why_md ∷ "\n\nProposed while planning \"" ∷ planned.title ∷ "\"." ∷ []);
        origin_task_id = planned.task_id;
        plan_depth = planned.plan_depth + 1;
      }
      ∷ new_tasks planned (suc n) proposals

  -- `createPlannedPrerequisites`.
  unfoldable pub create_planned_prerequisites :
      World → Planned → String → Result EngineError (World × List NewTask)
  unfolding plan_choice_for split_creates_work
  create_planned_prerequisites w planned actor =
      let choice = plan_choice_for w.task.caps planned.plan_depth planned.assessment planned.plan in
      let made = new_tasks planned 0 (proposals_of planned choice) in
      let ids = map id_of made in
      if not (split_creates_work choice)
      then ok (w, [])
      else if any (is_task planned.task_id) made
      then err (self_dependency planned.task_id)
      else apply_transition (record w { task = record w.task { blocked_by = ids } }) w.graph
          w.task.status blocked (by_actor "harness_split" actor)
        >>= λ after. ok (after, made)

  -- `applyCoverageChoice`, of the rows that the resolution left.
  unfoldable pub apply_coverage_choice : World → Planned → String → String → Outcome
  unfolding create_planned_prerequisites cancel waive_harness_status
  apply_coverage_choice w planned actor option_id =
      if option_id == "proceed"
      then done (waive_harness_status w)
      else if option_id == "split"
      then committed_tasks w (create_planned_prerequisites w planned actor)
      else if option_id == "cancel"
      then committed w (cancel w actor)
      else done w

abbrev offers_id : String → DecisionOption → Bool
offers_id id option = option.id == id

-- `decision.options.some((option) => option.id === options.optionId)`.
abbrev pub is_offered : StoredDecision → Option String → Bool
is_offered d none = false
is_offered d (some id) = any (offers_id id) d.options

abbrev raise_of : Option String → Option BudgetKey
raise_of none = none
raise_of (some id) = budget_from_raise_option id

abbrev pub budget_to_raise : StoredDecision → ResolutionInput → Option BudgetKey
budget_to_raise d input = if is_budget_decision d then raise_of (given input.option_id) else none

abbrev pub is_cancel : Option String → Bool
is_cancel none = false
is_cancel (some id) = id == budget_decision_cancel_option

-- `raised.resumed`: no budget is exhausted any more.
abbrev pub is_raised : World → BudgetKey → ℕ → Bool
is_raised w budget value =
    not (budget_exhaustion (task_spend w) (with_budget w.task.budgets budget value)).exhausted

abbrev read_value : (String → Option ℕ) → Option String → Option ℕ
read_value number none = none
read_value number (some text) = number text

module _ (trim : String → String) (prompt : Spend → Budgets → List BudgetKey → String)
    (number : BudgetKey → String → Option ℕ) (mint : ℕ → String) where
  -- A raise: applied first, and the decision answered if the task resumes by it.
  unfoldable pub answer_raise :
      World → ℕ → String → ResolutionInput → BudgetKey → Option ℕ → Outcome
  unfolding raise_budget resolve_decision
  answer_raise w id actor input budget none = refused w (budget_raise_value input.text)
  answer_raise w id actor input budget (some value) = committed w (
      raise_budget prompt w actor budget value >>= λ raised.
      if is_raised w budget value
      then resolve_decision trim raised id actor by_answer input
      else ok raised)

  abbrev pub chosen : World → Planned → StoredDecision → String → Option String → Outcome
  chosen w planned d actor none = done w
  chosen w planned d actor (some option_id) =
      if is_coverage_decision d
      then apply_coverage_choice mint w planned actor option_id
      else done w

  -- An answer that is no raise.
  unfoldable pub answer_plainly :
      World → Planned → StoredDecision → String → ResolutionInput → Outcome
  unfolding resolve_decision cancel apply_coverage_choice
  answer_plainly w planned d actor input =
      if is_budget_decision d && is_cancel input.option_id
      then committed w
          (resolve_decision trim w d.id actor by_answer input >>= λ answered. cancel answered actor)
      else elim (resolve_decision trim w d.id actor by_answer input) [
        | err e ↦ refused w e
        | ok answered ↦ chosen answered planned d actor (given input.option_id)
      ]

  unfoldable pub answer_found :
      World → Planned → StoredDecision → String → ResolutionInput → Outcome
  unfolding answer_raise answer_plainly
  answer_found w planned d actor input =
      if is_budget_decision d && not (is_offered d input.option_id)
      then refused w (budget_requires_option d.id)
      else if is_coverage_decision d
          && (is_some (given input.option_id) && not (is_offered d input.option_id))
      then refused w (coverage_requires_option d.id)
      else elim (budget_to_raise d input) [
        | none ↦ answer_plainly w planned d actor input
        | some budget ↦
            answer_raise w d.id actor input budget (read_value (number budget) (given input.text))
      ]

  -- `answer`.
  unfoldable pub answer : World → Planned → ℕ → String → ResolutionInput → Outcome
  unfolding answer_found
  answer w planned id actor input =
      if not (is_some (trimmed trim input.text)) && not (is_some (given input.option_id))
      then refused w (decision_answer_empty id)
      else elim (find? (has_id id) w.decisions) [
        | none ↦ refused w (decision_not_found id)
        | some d ↦ answer_found w planned d actor input
      ]
