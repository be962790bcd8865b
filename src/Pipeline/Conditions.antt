-- ===== src/Pipeline/Conditions.antt =====
-- Conditional nodes: the predicate registry, `conditionsOf`, `conditionDefects` and
-- `evaluateCondition` of packages/core/src/pipeline.ts. A reason is the sentence's data.
pub mod Laws
use specmate.Prelude.{
  ℕ, Bool, true, false, not, List, [], ◌∷◌, ◌++◌, Option, none, some, leb, if◌then◌else◌, is_some,
  any, filter, is_empty, ◌&&◌,
}
use specmate.Pipeline.Nodes.{
  PredicateId, spec_scenarios_at_least, spec_suite_in_force, NodeCondition, NodeConditions, one,
  every, PipelineNode, stage, gate, action,
}

pub data NodeFactKind : Type 0 where
  input outcome : NodeFactKind

pub data NodeFactKey : Type 0 where
  scenario_count_fact suite_in_force_fact checked_verdict_fact : NodeFactKey

-- `NODE_FACT_KINDS`, read by `factKind`.
unfoldable pub fact_kind : NodeFactKey → NodeFactKind
fact_kind scenario_count_fact = input
fact_kind suite_in_force_fact = input
fact_kind checked_verdict_fact = outcome

abbrev pub is_outcome : NodeFactKind → Bool
is_outcome input = false
is_outcome outcome = true

-- `NodeFacts`: a fact that nobody assembled is `none`, and an outcome fact never is assembled.
pub record NodeFacts : Type 0 where
  pub spec_scenario_count : Option ℕ
  pub spec_suite_in_force : Option Bool

abbrev pub is_present : NodeFacts → NodeFactKey → Bool
is_present facts scenario_count_fact = is_some facts.spec_scenario_count
is_present facts suite_in_force_fact = is_some facts.spec_suite_in_force
is_present facts checked_verdict_fact = false

-- The empty string, or what the sentence of a predicate is about.
pub data Reason : Type 0 where
  silent : Reason
  too_few_scenarios : (count threshold : Option ℕ) → Reason
  no_suite : Reason

pub record PredicateVerdict : Type 0 where
  pub holds : Bool
  pub reason : Reason

pub record PredicateSpec : Type 0 where
  pub reads : List NodeFactKey
  pub takes_threshold : Bool
  pub evaluate : NodeFacts → Option ℕ → PredicateVerdict

abbrev or_zero : Option ℕ → ℕ
or_zero none = 0
or_zero (some n) = n

-- A comparison with `undefined` is false, and so is `undefined` as a test.
abbrev at_least : Option ℕ → ℕ → Bool
at_least none bound = false
at_least (some n) bound = leb bound n

abbrev is_true : Option Bool → Bool
is_true none = false
is_true (some b) = b

-- `NODE_PREDICATES`.
unfoldable pub node_predicate : PredicateId → Option PredicateSpec
node_predicate spec_scenarios_at_least = some (record {
  reads = scenario_count_fact ∷ [];
  takes_threshold = true;
  evaluate = λ facts threshold. record {
    holds = at_least facts.spec_scenario_count (or_zero threshold);
    reason = too_few_scenarios facts.spec_scenario_count threshold;
  };
})
node_predicate spec_suite_in_force = some (record {
  reads = suite_in_force_fact ∷ [];
  takes_threshold = false;
  evaluate =
      λ facts threshold. record { holds = is_true facts.spec_suite_in_force; reason = no_suite };
})

abbrev as_list : Option NodeConditions → List NodeCondition
as_list none = []
as_list (some (one c)) = c ∷ []
as_list (some (every cs)) = cs

abbrev pub conditions_of : PipelineNode → List NodeCondition
conditions_of (stage n) = as_list n.condition
conditions_of (gate n) = as_list n.condition
conditions_of (action n) = []

pub data ConditionDefect : Type 0 where
  unknown_predicate : PredicateId → ConditionDefect
  circular : PredicateId → List NodeFactKey → ConditionDefect
  unwanted_threshold missing_threshold : PredicateId → ConditionDefect

abbrev when : {A : Type 0} → Bool → A → List A
when b a = if b then a ∷ [] else []

-- The body of `conditionDefects` behind its guard.
spec_defects : NodeCondition → PredicateSpec → List ConditionDefect
spec_defects condition spec =
    let outcomes = filter (λ fact. is_outcome (fact_kind fact)) spec.reads in
    let given = is_some condition.threshold in
    when (not (is_empty outcomes)) (circular condition.predicate outcomes)
    ++ (when (given && not spec.takes_threshold) (unwanted_threshold condition.predicate)
        ++ when (not given && spec.takes_threshold) (missing_threshold condition.predicate))

unfoldable pub condition_defects : NodeCondition → Option PredicateSpec → List ConditionDefect
unfolding spec_defects
condition_defects condition none = unknown_predicate condition.predicate ∷ []
condition_defects condition (some spec) = spec_defects condition spec

abbrev pub runs : PredicateVerdict
runs = record { holds = true; reason = silent }

abbrev reads_missing : NodeFacts → PredicateSpec → Bool
reads_missing facts spec = any (λ fact. not (is_present facts fact)) spec.reads

-- The verdict of one condition: `runs` where the loop goes on to the next.
evaluate_one : NodeFacts → NodeCondition → PredicateVerdict
evaluate_one facts condition = elim (node_predicate condition.predicate) [
  | none ↦ runs
  | some spec ↦
      let verdict = spec.evaluate facts condition.threshold in
      if reads_missing facts spec then runs else if verdict.holds then runs else verdict
]

evaluate_all : NodeFacts → List NodeCondition → PredicateVerdict
evaluate_all facts [] = runs
evaluate_all facts (c ∷ cs) =
    let rest = evaluate_all facts cs in
    let verdict = evaluate_one facts c in if verdict.holds then rest else verdict

unfoldable pub evaluate_condition : PipelineNode → NodeFacts → PredicateVerdict
unfolding evaluate_all evaluate_one node_predicate
evaluate_condition node facts = evaluate_all facts (conditions_of node)
