-- ===== src/Examples/Answering.antt =====
-- The owner's answer to the decision on coverage: apps/orchestrator/src/engine.ts.
use specmate.Prelude.{
  ℕ, true, false, List, [], ◌∷◌, map, Option, none, some, String, ok, find?, ◌≡◌, ◌⊎◌, refl,
}
use specmate.Lifecycle.{human_kickoff_gate, same_state, is_terminal}
use specmate.Decisions.{StoredDecision, question, opened}
use specmate.Results.{missing}
use specmate.Engine.State.{World, self_dependency}
use specmate.Engine.Resolve.{ResolutionInput, has_id, resolve_decision}
use specmate.Engine.Raise.{coverage_decision_key}
use specmate.Engine.Settled.{IsSettled}
use specmate.Engine.Settled.Blocked.{moving-IsSettled}
use specmate.Engine.Answer.{Planned, NewTask, answer, create_planned_prerequisites}
use specmate.Engine.Answer.Outcomes.{answer-IsSettled}
use specmate.Engine.Answer.Refused.{answer-refused, OnlyAnswered}
use specmate.Engine.Answer.Split.{IsSplit, create_planned_prerequisites-IsSplit}
use specmate.Examples.Living.{world_at, shipped-Routes, no_trim, no_prompt, no_value, one_id}
use specmate.Lifecycle.{default_caps}
use specmate.Pipeline.Catalog.{feature}
use specmate.Results.{HarnessCoverageAssessment}
use specmate.PlanChoice.{PlanChoice}
use specmate.Engine.Plan.{PlanRow, PlanResult, record_plan_outcome}
use specmate.Engine.Plan.Recorded.{IsRecorded, record_plan_outcome-IsRecorded}

abbrev short : Planned
short = record {
  task_id = "t1";
  title = "Login";
  plan_depth = 0;
  assessment = some (record { classification = missing; evidence_md = "No tests." });
  plan = none;
}

abbrev coverage_card : StoredDecision
coverage_card = record {
  id = 7;
  stage_id = none;
  node_key = human_kickoff_gate;
  key = coverage_decision_key;
  kind = question;
  prompt_md = "No harness.";
  options = record { id = "split"; label = "Build the harness first" } ∷ [];
  blocking = false;
  status = opened;
  answer_md = none;
  answered_by = none;
  answered_at = none;
}

-- The task stands at its kickoff gate, with the card open.
abbrev asked : World
asked = record (world_at human_kickoff_gate) { decisions = coverage_card ∷ [] }

asked-IsSettled : IsSettled asked
unfolding same_state is_terminal
asked-IsSettled = moving-IsSettled asked refl refl ((λ o. refl), tt) shipped-Routes

abbrev split_it : ResolutionInput
split_it = record { text = none; option_id = some "split" }

answer-IsSettled_example :
    IsSettled (answer no_trim no_prompt no_value one_id asked short 7 "owner" split_it).world
answer-IsSettled_example =
    answer-IsSettled no_trim no_prompt no_value one_id asked short 7 "owner" split_it
      asked-IsSettled

-- A source of ids that repeats the task's own.
abbrev own_id : ℕ → String
own_id n = "t1"

breaks_off :
    (answer no_trim no_prompt no_value own_id asked short 7 "owner" split_it).thrown
    ≡ some (self_dependency "t1")
unfolding answer same_state specmate.Decisions.DecisionStatus-discrete
    specmate.Engine.Resolve.resolve_row specmate.Prelude.discrete_beq
breaks_off = refl

answer-refused_example :
    ((answer no_trim no_prompt no_value own_id asked short 7 "owner" split_it).world ≡ asked)
    ⊎ ((d : StoredDecision) × (find? (has_id 7) asked.decisions ≡ some d)
        × OnlyAnswered no_trim no_prompt no_value own_id asked d "owner" split_it
            (answer no_trim no_prompt no_value own_id asked short 7 "owner" split_it).world)
answer-refused_example =
    answer-refused no_trim no_prompt no_value own_id asked short 7 "owner" split_it
      (self_dependency "t1") breaks_off

splits :
    (r : World × List NewTask) × (create_planned_prerequisites one_id asked short "owner" ≡ ok r)
unfolding create_planned_prerequisites same_state is_terminal
    specmate.Engine.Transition.apply_transition specmate.Pipeline.Walk.can_transition
splits = (_, refl)

create_planned_prerequisites-IsSplit_example :
    ((splits.0.1 ≡ []) × (splits.0.0 ≡ asked)) ⊎ IsSplit one_id asked splits.0.0 short splits.0.1
create_planned_prerequisites-IsSplit_example =
    create_planned_prerequisites-IsSplit one_id asked splits.0.0 short "owner" splits.0.1 splits.1

abbrev probed : PlanResult
probed = record {
  stage_id = 3;
  caps = default_caps;
  assessment = some (record { classification = missing; evidence_md = "No tests." });
  plan = none;
  running = "feature_bugfix";
  change_name = none;
  origin = none;
}

abbrev unplanned : PlanRow
unplanned = record {
  title = "Login";
  type = feature;
  plan_size = none;
  change_name = none;
  plan_depth = 0;
}

abbrev no_inherited : HarnessCoverageAssessment → String → String
no_inherited assessment origin = ""

abbrev no_choice : PlanChoice → String
no_choice choice = ""

record_plan_outcome-IsRecorded_example :
    (r : World × PlanRow) × (record_plan_outcome no_inherited no_choice
        (world_at human_kickoff_gate)
        unplanned
        probed
      ≡ ok r)
    × IsRecorded (world_at human_kickoff_gate) unplanned probed r.0 r.1
record_plan_outcome-IsRecorded_example =
    record_plan_outcome-IsRecorded no_inherited no_choice (world_at human_kickoff_gate) unplanned
      probed
