-- ===== src/Results.antt =====
-- What a stage's result must carry: packages/core/src/result.ts, with the plan of
-- packages/core/src/plan.ts. The reading of the text, `JSON.parse` and the schema, is a parameter.
pub mod Laws
use specmate.Prelude.{
  ℕ, Bool, true, false, not, ◌&&◌, List, [], ◌∷◌, ◌++◌, map, Option, none, some, String, Eq,
  eq_of_discrete, ◌==◌, string_eq, includes, is_empty, is_some, if◌then◌else◌, Result, ok, err,
}
use specmate.Roles.{AgentRole, role_contract}
use specmate.Findings.{ReviewVerdict, revise, review_verdict_eq, ReviewFinding}
use specmate.Decisions.{DecisionRequest}
use specmate.Pipeline.Catalog.{TaskType, PlanSize}

pub data ResultStatus : Type 0 where
  done needs_decision failed : ResultStatus

unfoldable pub ResultStatus-discrete : Discrete ResultStatus
ResultStatus-discrete = hlevel

instance abbrev pub result_status_eq : Eq ResultStatus
result_status_eq = eq_of_discrete ResultStatus-discrete

pub record PlanPrerequisite : Type 0 where
  pub key : String
  pub title : String
  pub why_md : String

pub record PlanShape : Type 0 where
  pub title : String
  pub change : Option String
  pub type : TaskType
  pub size : PlanSize
  pub prerequisites : List PlanPrerequisite

pub data HarnessClassification : Type 0 where
  adequate partial missing : HarnessClassification

pub record HarnessCoverageAssessment : Type 0 where
  pub classification : HarnessClassification
  pub evidence_md : String

-- `StageResult`, without what no check reads: the version, the manifest, the notes and the usage.
pub record StageResult : Type 0 where
  pub role : AgentRole
  pub status : ResultStatus
  pub decisions_needed : List DecisionRequest
  pub verdict : Option ReviewVerdict
  pub findings : List ReviewFinding
  pub harness_coverage : Option HarnessCoverageAssessment
  pub plan : Option PlanShape

abbrev pub add_new : String → List String → List String
add_new key keys = if includes key keys then keys else keys ++ key ∷ []

-- The loop of `duplicatePrerequisiteKeys`, with its two sets.
unfoldable pub duplicates_from : List String → List String → List PlanPrerequisite → List String
duplicates_from seen duplicates [] = duplicates
duplicates_from seen duplicates (p ∷ prerequisites) =
    duplicates_from (add_new p.key seen)
      (if includes p.key seen then add_new p.key duplicates else duplicates) prerequisites

-- `duplicatePrerequisiteKeys`.
unfoldable pub duplicate_prerequisite_keys : PlanShape → List String
unfolding duplicates_from
duplicate_prerequisite_keys plan = duplicates_from [] [] plan.prerequisites

-- The sentences of the checks.
pub data ResultError : Type 0 where
  unreadable : String → ResultError
  no_verdict no_coverage no_plan no_decisions no_findings : AgentRole → ResultError
  duplicate_keys : AgentRole → List String → ResultError

-- `checkVerdictPresent`.
unfoldable pub check_verdict_present : StageResult → Option ResultError
unfolding role_contract
check_verdict_present result =
    if not (role_contract result.role).returns_verdict
    then none
    else if is_some result.verdict
    then none
    else some (no_verdict result.role)

-- `checkHarnessCoveragePresent`.
unfoldable pub check_harness_coverage_present : StageResult → Bool → Option ResultError
unfolding role_contract
check_harness_coverage_present result continuation =
    if continuation
    then none
    else if not (role_contract result.role).probes_harness
    then none
    else if not (result.status == done)
    then none
    else if is_some result.harness_coverage
    then none
    else some (no_coverage result.role)

plan_error : AgentRole → Option PlanShape → Option ResultError
unfolding duplicate_prerequisite_keys
plan_error role none = some (no_plan role)
plan_error role (some plan) =
    let duplicates = duplicate_prerequisite_keys plan in
    if is_empty duplicates then none else some (duplicate_keys role duplicates)

-- `checkPlanPresent`.
unfoldable pub check_plan_present : StageResult → Bool → Option ResultError
unfolding role_contract plan_error
check_plan_present result continuation =
    if continuation
    then none
    else if not (role_contract result.role).declares_plan
    then none
    else if not (result.status == done)
    then none
    else plan_error result.role result.plan

-- `checkDecisionsPresent`.
unfoldable pub check_decisions_present : StageResult → Option ResultError
check_decisions_present result =
    if not (result.status == needs_decision)
    then none
    else if is_empty result.decisions_needed
    then some (no_decisions result.role)
    else none

abbrev is_revise : Option ReviewVerdict → Bool
is_revise none = false
is_revise (some verdict) = verdict == revise

-- `checkReviseHasFindings`; a caller that names no findings passes the result's.
unfoldable pub check_revise_has_findings : StageResult → List ReviewFinding → Option ResultError
check_revise_has_findings result findings =
    if not (is_revise result.verdict)
    then none
    else if is_empty findings
    then some (no_findings result.role)
    else none

abbrev pub first_error :
    Option ResultError → Result ResultError StageResult → Result ResultError StageResult
first_error none next = next
first_error (some e) next = err e

-- What follows the reading in `parseStageResult`.
check_stage_result : StageResult → Bool → Result ResultError StageResult
unfolding check_verdict_present check_harness_coverage_present check_plan_present
    check_decisions_present
check_stage_result result continuation = first_error (check_verdict_present result) (
    first_error (check_harness_coverage_present result continuation) (
      first_error (check_plan_present result continuation)
        (first_error (check_decisions_present result) (ok result))))

abbrev checked : Result String StageResult → Bool → Result ResultError StageResult
checked (ok result) continuation = check_stage_result result continuation
checked (err text) continuation = err (unreadable text)

-- `parseStageResult`.
unfoldable pub parse_stage_result :
    (String → Result String StageResult) → String → Bool → Result ResultError StageResult
unfolding check_stage_result
parse_stage_result read raw continuation = checked (read raw) continuation
