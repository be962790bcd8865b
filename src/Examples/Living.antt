-- ===== src/Examples/Living.antt =====
-- The engine's operations, apps/orchestrator/src/engine.ts, on a task of the shipped graph: one that
-- waits for another task, one at its first gate, and one that is about to start.
use specmate.Prelude.{
  Option, ℕ, true, false, List, [], ◌∷◌, any, none, some, String, ok, ◌≡◌, refl, discrete_beq,
  string_eq,
}
use specmate.Lifecycle.{
  TaskState, task_state_eq, default_caps, default_budgets, Budgets, planning, human_kickoff_gate,
  blocked, waiting_human, is_terminal, same_state,
}
use specmate.Pipeline.Nodes.{StageNode, stage}
use specmate.Pipeline.Walk.{instantiate_definition, node_at}
use specmate.Pipeline.Catalog.{feature_bugfix_pipeline}
use specmate.Budget.{BudgetKey, Spend}
use specmate.Decisions.{DecisionInsert, question, is_open, blocking_open, DecisionStatus-discrete}
use specmate.Decisions.Escalation.{EscalationInput}
use specmate.Engine.State.{World, Task, unknown}
use specmate.Engine.Raise.{raise_decision, matches, attach_to_open_decision, same_open, inserted}
use specmate.Engine.Raise.Unique.{AtMostOne, raise_decision-AtMostOne}
use specmate.Engine.Raise.Outcome.{Recorded, raise_decision-Recorded}
use specmate.Engine.Gates.{redirect}
use specmate.Engine.Bounds.{Redirected, redirect-Redirected}
use specmate.Engine.Settled.{Routes, ResumesIn, IsSettled}
use specmate.Engine.Settled.Blocked.{moving-IsSettled}
use specmate.Engine.Settled.Routed.{instantiate_definition-Routes}
use specmate.Engine.Life.{losing, run, run-IsSettled, Reaches, Reaches-parked}
use specmate.Examples.Inputs.{shipped_graph, shipped_valid}

pub shipped-Routes : Routes shipped_graph
unfolding instantiate_definition
shipped-Routes =
    instantiate_definition-Routes feature_bugfix_pipeline shipped_graph shipped_valid refl

instantiate_definition-Routes_example : Routes shipped_graph
unfolding instantiate_definition
instantiate_definition-Routes_example =
    instantiate_definition-Routes feature_bugfix_pipeline shipped_graph shipped_valid refl

abbrev pub task_at : TaskState → Task
task_at status = record {
  status = status;
  resume_status = none;
  caps = default_caps;
  budgets = default_budgets;
  blocked_by = "dependency" ∷ [];
  harness_status = unknown;
}

abbrev pub world_at : TaskState → World
world_at status = record {
  task = task_at status;
  graph_id = 1;
  graph = shipped_graph;
  decisions = [];
  stages = [];
  feedback = [];
  events = [];
  message_costs = [];
  waiver = false;
  next_id = 2;
  now = 10;
}

world_at_blocked : IsSettled (world_at blocked)
unfolding same_state is_terminal
world_at_blocked = moving-IsSettled (world_at blocked) refl refl tt shipped-Routes

abbrev pub no_trim : String → String
no_trim text = text

abbrev pub no_prompt : Spend → Budgets → List BudgetKey → String
no_prompt spend budgets reached = ""

abbrev pub one_number : ℕ → String
one_number n = "1"

abbrev pub no_value : BudgetKey → String → Option ℕ
no_value budget text = none

abbrev pub one_id : ℕ → String
one_id n = "fresh"

abbrev pub one_prompt : EscalationInput → String
one_prompt input = "The loop does not move."

loses :
    (after : World) × (run no_trim no_prompt one_number one_prompt no_value one_id
        (losing "dependency")
        (world_at blocked)
      ≡ ok after)
unfolding run specmate.Engine.Dependents.raise_dead_blocker same_state raise_decision
    specmate.Engine.Transition.apply_transition specmate.Pipeline.Walk.can_transition is_terminal
loses = (_, refl)

loses_parked : loses.0.task.status ≡ waiting_human
unfolding loses
loses_parked = refl

run-IsSettled_example : IsSettled loses.0
run-IsSettled_example =
    run-IsSettled no_trim no_prompt one_number one_prompt no_value one_id (losing "dependency")
      (world_at blocked) loses.0 tt world_at_blocked loses.1

Reaches-parked_example :
    (loses.0.task.status ≡ waiting_human
      → (blocking_open loses.0.decisions ≡ true)
        × ResumesIn loses.0.graph loses.0.task.resume_status)
    × (is_terminal loses.0.task.status ≡ true → any is_open loses.0.decisions ≡ false)
Reaches-parked_example =
    Reaches-parked no_trim no_prompt one_number one_prompt no_value one_id (world_at blocked)
      loses.0 world_at_blocked (Reaches.runs Reaches.begins (losing "dependency") tt loses.1)

abbrev asked : DecisionInsert
asked = record {
  node_key = planning;
  key = "storage";
  kind = question;
  prompt_md = "Which storage?";
  options = [];
  blocking = true;
}

raises : (after : World) × (raise_decision (world_at planning) none asked ≡ ok after)
unfolding raise_decision
raises = (_, refl)

-- Asked again, without blocking: the question attaches to the row that is open.
abbrev asked_again : DecisionInsert
asked_again = record asked { blocking = false }

raises_again : (after : World) × (raise_decision raises.0 (some 4) asked_again ≡ ok after)
unfolding raise_decision raises same_state discrete_beq specmate.Engine.Raise.DecisionKind-discrete
    DecisionStatus-discrete
raises_again = (_, refl)

raises-AtMostOne : AtMostOne raises.0.decisions
unfolding raises
raises-AtMostOne = (λ o. refl, tt)

raise_decision-AtMostOne_example : AtMostOne raises_again.0.decisions
raise_decision-AtMostOne_example =
    raise_decision-AtMostOne raises.0 raises_again.0 (some 4) asked_again raises-AtMostOne
      raises_again.1

raise_decision-Recorded_example : Recorded asked_again raises_again.0
raise_decision-Recorded_example =
    raise_decision-Recorded raises.0 raises_again.0 (some 4) asked_again raises_again.1

redirects : (after : World) × (redirect (world_at human_kickoff_gate) "owner" none ≡ ok after)
unfolding redirect node_at same_state specmate.Engine.Gates.redirect_to
    specmate.Engine.Transition.apply_transition specmate.Pipeline.Walk.can_transition
redirects = (_, refl)

redirect-Redirected_example : Redirected (world_at human_kickoff_gate) redirects.0
redirect-Redirected_example =
    redirect-Redirected (world_at human_kickoff_gate) redirects.0 "owner" none redirects.1

planning_node : (n : StageNode) × (node_at shipped_graph planning ≡ some (stage n))
unfolding node_at same_state
planning_node = (_, refl)
