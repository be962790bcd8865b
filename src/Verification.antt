-- ===== src/Verification.antt =====
-- Corroboration of a verdict: packages/core/src/verification.ts, on the scenarios and rows that have
-- been read from the texts.
pub mod Laws
pub mod Derived
use specmate.Prelude.{
  Bool, true, false, not, ◌||◌, ◌&&◌, List, [], ◌∷◌, ◌++◌, map, Option, none, some, String, Eq,
  eq_of_discrete, ◌==◌, string_eq, filter, any, is_empty, flat_map, includes, concat, join_lines,
  if◌then◌else◌,
}
use specmate.Findings.{ReviewVerdict, approve, review_verdict_eq, ReviewFinding, blocking}

-- `MatrixOutcome`.
pub data MatrixOutcome : Type 0 where
  pass fail uncovered : MatrixOutcome

unfoldable pub MatrixOutcome-discrete : Discrete MatrixOutcome
MatrixOutcome-discrete = hlevel

instance abbrev pub matrix_outcome_eq : Eq MatrixOutcome
matrix_outcome_eq = eq_of_discrete MatrixOutcome-discrete

pub record MatrixRow : Type 0 where
  pub scenario : String
  pub assertion : String
  pub outcome : MatrixOutcome

pub record CorroborationResult : Type 0 where
  pub ok : Bool
  pub violations : List String

abbrev pub rows_of : List MatrixRow → String → List MatrixRow
rows_of matrix scenario = filter (λ row. row.scenario == scenario) matrix

abbrev pub is_violation : List MatrixRow → String → Bool
is_violation matrix scenario =
    let rows = rows_of matrix scenario in
    is_empty rows || any (λ row. not (row.outcome == pass)) rows

-- `corroborate`.
unfoldable pub corroborate : List String → List MatrixRow → ReviewVerdict → CorroborationResult
corroborate inventory matrix verdict =
    let violations = filter (is_violation matrix) inventory in
    if not (verdict == approve)
    then record { ok = true; violations = [] }
    else record { ok = is_empty violations; violations = violations }

abbrev outcome_text : MatrixOutcome → String
outcome_text pass = "pass"
outcome_text fail = "fail"
outcome_text uncovered = "uncovered"

-- `describeScenarioRows`.
describe_scenario_rows : List MatrixRow → String
describe_scenario_rows [] = "No assertion in the report covers this scenario."
describe_scenario_rows (row ∷ rows) =
    join_lines
      (map (λ r. concat ("- `" ∷ r.assertion ∷ "`: " ∷ outcome_text r.outcome ∷ [])) (row ∷ rows))

abbrev pub is_failing : List MatrixRow → Bool
is_failing rows = any (λ row. row.outcome == fail) rows

abbrev pub is_uncovered : List MatrixRow → Bool
is_uncovered rows = is_empty rows || any (λ row. row.outcome == uncovered) rows

-- The identifier of a scenario's finding is `scenarioFindingId`, a search of its text.
module _ (scenario_finding_id : String → String) where
  finding_of : List MatrixRow → String → ReviewFinding
  unfolding describe_scenario_rows
  finding_of rows scenario = record {
    id = scenario_finding_id scenario;
    severity = blocking;
    title =
        if is_failing rows
        then concat ("Scenario failing: " ∷ scenario ∷ [])
        else concat ("Scenario uncovered: " ∷ scenario ∷ []);
    detail_md = describe_scenario_rows rows;
  }

  -- The findings that the loop of `deriveFindings` pushes.
  unfoldable pub derived_findings : List String → List MatrixRow → List ReviewFinding
  unfolding finding_of
  derived_findings [] matrix = []
  derived_findings (scenario ∷ inventory) matrix =
      let rows = rows_of matrix scenario in
      let rest = derived_findings inventory matrix in
      if not (is_failing rows) && not (is_uncovered rows)
      then rest
      else finding_of rows scenario ∷ rest

  -- `deriveFindings`.
  unfoldable pub derive_findings :
      List String → List MatrixRow → List ReviewFinding → List ReviewFinding
  unfolding derived_findings
  derive_findings inventory matrix agent_findings =
      let derived = derived_findings inventory matrix in
      let derived_ids = map (λ (f : ReviewFinding). f.id) derived in
      derived ++ filter (λ f. not (includes f.id derived_ids)) agent_findings
