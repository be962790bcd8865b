-- ===== src/PlanChoice.antt =====
-- What the owner chooses between at the kickoff gate: `planChoiceFor` and `planChoiceOptions` of
-- apps/orchestrator/src/store.ts, with the tests of packages/core/src/harness.ts.
pub mod Offers
use specmate.Prelude.{
  take, drop, ℕ, zero, suc, Bool, true, false, not, ◌&&◌, ◌||◌, List, [], ◌∷◌, ◌++◌, Option, none,
  some, is_empty, ltb, if◌then◌else◌,
}
use specmate.Lifecycle.{Caps}
use specmate.Decisions.{DecisionOption}
use specmate.Results.{
  PlanPrerequisite, PlanShape, HarnessClassification, adequate, partial, missing,
  HarnessCoverageAssessment,
}

pub data DropReason : Type 0 where
  count depth : DropReason

-- `PlanChoice`.
pub record PlanChoice : Type 0 where
  pub assessment : Option HarnessCoverageAssessment
  pub creates : List PlanPrerequisite
  pub dropped : List PlanPrerequisite
  pub drop_reason : Option DropReason
  pub splittable : Bool
  pub depth_cap : ℕ

abbrev pub proposed_of : Option PlanShape → List PlanPrerequisite
proposed_of none = []
proposed_of (some plan) = plan.prerequisites

-- `planChoiceFor`, of the caps and the depth of the task.
unfoldable pub plan_choice_for :
    Caps → ℕ → Option HarnessCoverageAssessment → Option PlanShape → PlanChoice
plan_choice_for caps plan_depth assessment plan =
    let proposed = proposed_of plan in
    let splittable = ltb plan_depth caps.max_plan_depth in
    let dropped = if splittable then drop caps.max_prerequisite_tasks proposed else proposed in
    record {
      assessment = assessment;
      creates = if splittable then take caps.max_prerequisite_tasks proposed else [];
      dropped = dropped;
      drop_reason =
          if is_empty dropped then none else if splittable then some count else some depth;
      splittable = splittable;
      depth_cap = caps.max_plan_depth;
    }

abbrev pub is_short : HarnessClassification → Bool
is_short adequate = false
is_short partial = true
is_short missing = true

-- `hasCoverageGap`.
abbrev pub has_coverage_gap : Option HarnessCoverageAssessment → Bool
has_coverage_gap none = false
has_coverage_gap (some assessment) = is_short assessment.classification

-- `needsPlanChoice`.
unfoldable pub needs_plan_choice : PlanChoice → Bool
needs_plan_choice choice =
    has_coverage_gap choice.assessment
    || (not (is_empty choice.creates) || not (is_empty choice.dropped))

-- `splitCreatesWork`.
unfoldable pub split_creates_work : PlanChoice → Bool
split_creates_work choice =
    choice.splittable && (not (is_empty choice.creates) || has_coverage_gap choice.assessment)

-- `planChoiceOptions`.
unfoldable pub plan_choice_options : PlanChoice → List DecisionOption
plan_choice_options choice =
    let waits = not (is_empty choice.creates) in
    (if choice.splittable
      then record {
        id = "split";
        label = if waits then "Do that work first" else "Build the harness first";
      }
        ∷ []
      else [])
    ++ record {
      id = "proceed";
      label = if waits then "Proceed as one task" else "Proceed without it";
    }
      ∷ record { id = "cancel"; label = "Cancel this task" }
      ∷ []
