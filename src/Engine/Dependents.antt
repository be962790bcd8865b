-- ===== src/Engine/Dependents.antt =====
-- A blocked task whose blocker has ended: `releaseDependentTask` and `raiseDeadBlocker` of
-- apps/orchestrator/src/engine.ts.
use specmate.Prelude.{
  true, not, [], ◌∷◌, filter, is_empty, none, some, String, ◌==◌, string_eq, concat, if◌then◌else◌,
  Result, ok, ◌>>=◌,
}
use specmate.Lifecycle.{task_state_eq, blocked, waiting_human}
use specmate.Decisions.{DecisionInsert, escalation, blocking_open}
use specmate.Engine.State.{World, EngineError}
use specmate.Engine.Raise.{raise_decision}
use specmate.Engine.Transition.{apply_transition}

-- The task without one of its blockers.
abbrev pub without_blocker : World → String → World
without_blocker w blocker = record w {
  task = record w.task { blocked_by = filter (λ id. not (id == blocker)) w.task.blocked_by };
}

abbrev pub parked_at_entry : World → Result EngineError World
parked_at_entry w =
    apply_transition w w.graph w.task.status waiting_human (record {
      cause = "blocker_lost";
      actor = none;
      resume = some w.graph.entry;
      stage_id = none;
    })

-- `releaseDependentTask`.
unfoldable pub release_dependent_task : World → String → Result EngineError World
release_dependent_task w cleared =
    let rest = without_blocker w cleared in
    if not (w.task.status == blocked)
    then ok w
    else if not (is_empty rest.task.blocked_by)
    then ok rest
    else if blocking_open rest.decisions
    then parked_at_entry rest
    else apply_transition rest rest.graph rest.task.status rest.graph.entry
        (record { cause = "harness_released"; actor = none; resume = none; stage_id = none })

abbrev pub blocker_lost : String → DecisionInsert
blocker_lost dead = record {
  node_key = blocked;
  key = concat ("blocker-lost:" ∷ dead ∷ []);
  kind = escalation;
  prompt_md = concat (
      "A task this one was waiting on (" ∷ dead
      ∷ ") was cancelled or failed before it could complete. This task cannot be released automatically."
      ∷ []);
  options = [];
  blocking = true;
}

-- `raiseDeadBlocker`.
unfoldable pub raise_dead_blocker : World → String → Result EngineError World
raise_dead_blocker w dead =
    let rest = without_blocker w dead in
    if not (w.task.status == blocked)
    then ok w
    else raise_decision rest none (blocker_lost dead) >>= λ raised.
        if not (is_empty rest.task.blocked_by) then ok raised else parked_at_entry raised
