-- ===== src/Results/Laws.antt =====
-- What an accepted result carries: packages/core/src/result.ts.
use specmate.Prelude.{◌≡◌, ◌≢◌, Bool, true, false, [], some, string_eq, is_some}
use specmate.Roles.{role_contract}
use specmate.Results.{
  StageResult, done, needs_decision, result_status_eq, PlanShape, duplicate_prerequisite_keys,
}

-- What the contract of its role and its status demand of a result.
pub record IsComplete (continuation : Bool) (result : StageResult) : Type 0 where
  pub verdict_given :
      (role_contract result.role).returns_verdict ≡ true → is_some result.verdict ≡ true
  pub coverage_given :
      continuation ≡ false
      → (role_contract result.role).probes_harness ≡ true
      → result.status ≡ done
      → is_some result.harness_coverage ≡ true
  pub plan_given :
      continuation ≡ false
      → (role_contract result.role).declares_plan ≡ true
      → result.status ≡ done
      → (plan : PlanShape) × ((result.plan ≡ some plan) × (duplicate_prerequisite_keys plan ≡ []))
  pub decision_given : result.status ≡ needs_decision → result.decisions_needed ≢ []
