-- ===== src/Pipeline/Conditions/Laws.antt =====
-- What a node's conditions decide, and what the check of a condition lets through.
use mathlib.Core.Option.{some-injective}
use specmate.Prelude.{
  subst, sym, ℕ, ◌≤◌, Bool, true, false, List, [], ◌∷◌, Option, none, some, ◌≡◌, ◌≢◌, ◌↔◌, refl,
  ◌⊎◌, arith, is_some, leb_iff, filter,
}
use specmate.Pipeline.Nodes.{
  spec_scenarios_at_least, spec_suite_in_force, PredicateId, NodeCondition, PipelineNode,
}
use specmate.Pipeline.Conditions.{
  NodeFacts, NodeFactKey, input, fact_kind, is_outcome, silent, PredicateSpec, conditions_of,
  evaluate_one, evaluate_all, evaluate_condition, condition_defects, spec_defects,
}

-- What a predicate asks of the facts, where a fact that nobody assembled asks for nothing.
abbrev pub Asks : PredicateId → Option ℕ → NodeFacts → Type 0
Asks spec_scenarios_at_least none facts = Unit
Asks spec_scenarios_at_least (some floor) facts =
    (n : ℕ) → facts.spec_scenario_count ≡ some n → floor ≤ n
Asks spec_suite_in_force threshold facts = facts.spec_suite_in_force ≢ some false

abbrev facts_of : Option ℕ → Option Bool → NodeFacts
facts_of count suite = record { spec_scenario_count = count; spec_suite_in_force = suite }

-- The verdict of one condition is that the node runs exactly where its predicate asks no more.
one_holds :
    (count : Option ℕ) (suite : Option Bool) (p : PredicateId) (t : Option ℕ)
    → ((evaluate_one (facts_of count suite) (record { predicate = p; threshold = t })).holds ≡ true)
      ↔ Asks p t (facts_of count suite)
unfolding evaluate_condition
one_holds none suite spec_scenarios_at_least none = ground arith
one_holds (some n) suite spec_scenarios_at_least none = ground arith
one_holds none suite spec_scenarios_at_least (some floor) = (λ h n e. cc, λ h. refl)
one_holds (some n) suite spec_scenarios_at_least (some floor) =
    (λ h m e. ground (arith, leb_iff floor n), λ h. ground (arith, leb_iff floor n, h n refl))
one_holds count none spec_suite_in_force t = (λ h e. cc, λ h. refl)
one_holds count (some true) spec_suite_in_force t = (λ h e. cc, λ h. refl)
one_holds count (some false) spec_suite_in_force t = (λ h e. cc, λ h. absurd (h refl))

evaluate_one-holds :
    (facts : NodeFacts) (c : NodeCondition)
    → ((evaluate_one facts c).holds ≡ true) ↔ Asks c.predicate c.threshold facts
evaluate_one-holds facts c =
    one_holds facts.spec_scenario_count facts.spec_suite_in_force c.predicate c.threshold

abbrev pub AllAsk : List NodeCondition → NodeFacts → Type 0
AllAsk [] facts = Unit
AllAsk (c ∷ cs) facts = Asks c.predicate c.threshold facts × AllAsk cs facts

evaluate_all-holds :
    (facts : NodeFacts) (cs : List NodeCondition)
    → ((evaluate_all facts cs).holds ≡ true) ↔ AllAsk cs facts
unfolding evaluate_all
evaluate_all-holds facts [] = (λ h. tt, λ h. refl)
evaluate_all-holds facts (c ∷ cs) =
    ground (arith, evaluate_one-holds facts c, evaluate_all-holds facts cs)

-- A node runs exactly where each of its conditions is met by the facts that were assembled: its
-- scenario floor is at most the count, and the suite is not known to be missing. A fact that
-- nobody assembled skips no node, and a node with no condition runs.
pub evaluate_condition_iff :
    (node : PipelineNode) (facts : NodeFacts)
    → ((evaluate_condition node facts).holds ≡ true) ↔ AllAsk (conditions_of node) facts
unfolding evaluate_condition
evaluate_condition_iff node facts = evaluate_all-holds facts (conditions_of node)

one_reason :
    (p : PredicateId) (t : Option ℕ) (facts : NodeFacts)
    → ((evaluate_one facts (record { predicate = p; threshold = t })).holds ≡ true)
      ⊎ ((evaluate_one facts (record { predicate = p; threshold = t })).reason ≢ silent)
unfolding evaluate_condition
one_reason spec_scenarios_at_least t facts = ground arith
one_reason spec_suite_in_force t facts = ground arith

all_reason :
    (facts : NodeFacts) (cs : List NodeCondition)
    → ((evaluate_all facts cs).holds ≡ true) ↔ ((evaluate_all facts cs).reason ≡ silent)
unfolding evaluate_all
all_reason facts [] = (λ h. refl, λ h. refl)
all_reason facts (c ∷ cs) =
    ground (arith, one_reason c.predicate c.threshold facts, all_reason facts cs)

-- A node that is skipped carries a reason, and a node that runs carries none.
pub evaluate_condition-reason :
    (node : PipelineNode) (facts : NodeFacts)
    → ((evaluate_condition node facts).holds ≡ true)
      ↔ ((evaluate_condition node facts).reason ≡ silent)
unfolding evaluate_condition
evaluate_condition-reason node facts = all_reason facts (conditions_of node)

abbrev pub ReadsInputs : List NodeFactKey → Type 0
ReadsInputs [] = Unit
ReadsInputs (fact ∷ facts) = (fact_kind fact ≡ input) × ReadsInputs facts

no_outcomes :
    (facts : List NodeFactKey)
    → (filter (λ fact. is_outcome (fact_kind fact)) facts ≡ []) ↔ ReadsInputs facts
no_outcomes [] = (λ h. tt, λ h. refl)
no_outcomes (fact ∷ facts) = ground (arith, no_outcomes facts)

spec_defects_nil :
    (c : NodeCondition) (spec : PredicateSpec)
    → (spec_defects c spec ≡ [])
      ↔ (ReadsInputs spec.reads × (is_some c.threshold ≡ spec.takes_threshold))
unfolding spec_defects
spec_defects_nil c spec = ground (arith, no_outcomes spec.reads)

abbrev pub Fits : NodeCondition → PredicateSpec → Type 0
Fits c s = ReadsInputs s.reads × (is_some c.threshold ≡ s.takes_threshold)

-- A condition has no defect exactly where its predicate is registered, reads nothing that a stage
-- concluded, and a threshold is given if and only if the predicate takes one.
pub condition_defects_nil :
    (c : NodeCondition) (spec : Option PredicateSpec)
    → (condition_defects c spec ≡ []) ↔ ((s : PredicateSpec) × (spec ≡ some s) × Fits c s)
unfolding condition_defects
condition_defects_nil c none = (λ h. cc, λ (s, e, _). cc)
condition_defects_nil c (some spec) = (
  λ h. (spec, refl, (spec_defects_nil c spec).0 h),
  λ (s, e, fits). (spec_defects_nil c spec).1 (subst (Fits c) (sym (some-injective spec s e)) fits),
)
