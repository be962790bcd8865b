-- ===== src/Examples/Checking.antt =====
-- The checks on what a stage returns, of packages/core/src/result.ts, decisions.ts, failures.ts and
-- verification.ts, on small results.
use specmate.Prelude.{
  true, false, includes, arith, [], ◌∷◌, some, none, ok, Result, ◌≡◌, refl, Memᴰ, String, Bool,
  is_empty, discrete_beq, string_eq,
}
use specmate.Findings.{approve, ReviewFinding}
use specmate.Roles.{planner}
use specmate.Decisions.{DecisionRequest, question, partition_requests}
use specmate.Decisions.Partition.{IsPartition, partition_requests-IsPartition}
use specmate.Verification.{
  MatrixRow, pass, fail, MatrixOutcome-discrete, corroborate, derive_findings, derived_findings,
}
use specmate.Verification.Derived.{corroborate-derived_findings}
use specmate.Results.{StageResult, done, PlanShape, PlanPrerequisite}
use specmate.Lifecycle.{default_caps}
use specmate.PlanChoice.{plan_choice_for, needs_plan_choice, split_creates_work}
use specmate.PlanChoice.Offers.{option_ids, plan_choice_options-split}
use specmate.Pipeline.Catalog.{feature, small}

abbrev passing : MatrixRow
passing = record { scenario = "login"; assertion = "it logs in"; outcome = pass }

abbrev failing : MatrixRow
failing = record { scenario = "logout"; assertion = "it logs out"; outcome = fail }

corroborate-derived_findings_example :
    (corroborate ("login" ∷ "logout" ∷ []) (passing ∷ failing ∷ []) approve).ok
    ≡ is_empty (derived_findings (λ s. s) ("login" ∷ "logout" ∷ []) (passing ∷ failing ∷ []))
corroborate-derived_findings_example =
    corroborate-derived_findings (λ s. s) (passing ∷ failing ∷ []) ("login" ∷ "logout" ∷ [])

one_derived :
    (f : ReviewFinding) × (derived_findings (λ s. s) ("logout" ∷ []) (failing ∷ []) ≡ f ∷ [])
    × (f.id ≡ "logout")
unfolding derived_findings discrete_beq MatrixOutcome-discrete
one_derived = (_, refl, refl)

derived_reported : Memᴰ one_derived.0 (derive_findings (λ s. s) ("logout" ∷ []) (failing ∷ []) [])
unfolding derive_findings discrete_beq MatrixOutcome-discrete one_derived
derived_reported = Memᴰ.head refl

abbrev small_plan : PlanShape
small_plan = record {
  title = "Add a button";
  change = none;
  type = feature;
  size = small;
  prerequisites = [];
}

abbrev planned : StageResult
planned = record {
  role = planner;
  status = done;
  decisions_needed = [];
  verdict = none;
  findings = [];
  harness_coverage = none;
  plan = some small_plan;
}

abbrev read_planned : String → Result String StageResult
read_planned raw = ok planned

abbrev ask : Bool → String → DecisionRequest
ask blocking key = record {
  key = key;
  kind = question;
  prompt_md = "";
  options = [];
  blocking = blocking;
}

partition_requests-IsPartition_example :
    IsPartition 1 0
      (ask false "a" ∷ ask true "b" ∷ ask false "c" ∷ [])
      (partition_requests (ask false "a" ∷ ask true "b" ∷ ask false "c" ∷ []) 1)
partition_requests-IsPartition_example =
    partition_requests-IsPartition (ask false "a" ∷ ask true "b" ∷ ask false "c" ∷ []) 1

abbrev prerequisite : String → PlanPrerequisite
prerequisite key = record { key = key; title = "First"; why_md = "" }

abbrev wide_plan : PlanShape
wide_plan = record small_plan {
  prerequisites = prerequisite "a" ∷ prerequisite "b" ∷ prerequisite "c" ∷ [];
}

wide_plan_asks : needs_plan_choice (plan_choice_for default_caps 0 none (some wide_plan)) ≡ true
unfolding needs_plan_choice plan_choice_for
wide_plan_asks = refl

plan_choice_options-split_example :
    includes "split" (option_ids (plan_choice_for default_caps 0 none (some wide_plan)))
    ≡ split_creates_work (plan_choice_for default_caps 0 none (some wide_plan))
plan_choice_options-split_example =
    plan_choice_options-split default_caps 0 none (some wide_plan) (omega arith) wide_plan_asks
