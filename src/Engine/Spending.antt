-- ===== src/Engine/Spending.antt =====
-- A task's budgets in the engine: `resume`, `raiseBudgetInTx` and `pauseForExhaustedBudget` of
-- apps/orchestrator/src/engine.ts. `budgetExhaustionPrompt` formats floats; the text is given.
use specmate.Prelude.{
  ℕ, ◌+◌, ◌*◌, Bool, not, List, Option, none, some, String, ◌==◌, leb, if◌then◌else◌, Result, ok,
  err, ◌>>=◌,
}
use specmate.Lifecycle.{TaskState, task_state_eq, paused, Budgets}
use specmate.Pipeline.Nodes.{PinnedGraph}
use specmate.Budget.{BudgetKey, max_cost_usd, max_wall_clock_minutes, Spend, budget_exhaustion}
use specmate.Decisions.{budget_exhaustion_decision}
use specmate.Engine.State.{
  World, EngineError, not_parked, no_resume_state, budget_exhausted_resume, budget_raise_too_low,
  task_resumed, task_budget_raised, task_spend, emit_event,
}
use specmate.Engine.Raise.{raise_decision}
use specmate.Engine.Transition.{apply_transition}
use specmate.Engine.Gates.{by_actor}

unfoldable pub resume_to : World → String → TaskState → Result EngineError World
resume_to w actor to =
    if (budget_exhaustion (task_spend w) w.task.budgets).exhausted
    then err budget_exhausted_resume
    else apply_transition (emit_event w (task_resumed to) none) w.graph w.task.status to
        (by_actor "resume" actor)

abbrev pub resume_after : World → String → Option TaskState → Result EngineError World
resume_after w actor none = err no_resume_state
resume_after w actor (some to) = resume_to w actor to

-- `resume`.
unfoldable pub resume : World → String → Result EngineError World
resume w actor =
    if not (w.task.status == paused)
    then err (not_parked w.task.status)
    else resume_after w actor w.task.resume_status

-- `value <= spendAgainstBudget(spend, budget) + BUDGET_EPSILON`: a cost is in billionths of a
-- dollar, and minutes are compared with both sides times 60,000 billions.
unfoldable pub too_low : Spend → BudgetKey → ℕ → Bool
too_low spend max_cost_usd value = leb value (spend.cost_usd + 1)
too_low spend max_wall_clock_minutes value =
    leb (60000 * (1000000000 * value)) (1000000000 * spend.duration_ms + 60000)

abbrev spend_against_budget : Spend → BudgetKey → ℕ
spend_against_budget spend max_cost_usd = spend.cost_usd
spend_against_budget spend max_wall_clock_minutes = spend.duration_ms

-- `{ ...task.budgets, [budget]: value }`.
abbrev pub with_budget : Budgets → BudgetKey → ℕ → Budgets
with_budget budgets max_cost_usd value = record budgets { max_cost_usd = value }
with_budget budgets max_wall_clock_minutes value = record budgets { max_wall_clock_minutes = value }

module _ (prompt : Spend → Budgets → List BudgetKey → String) where
  unfoldable pub raise_to : World → TaskState → String → BudgetKey → ℕ → Result EngineError World
  unfolding too_low
  raise_to w to actor budget value =
      let spend = task_spend w in
      let budgets = with_budget w.task.budgets budget value in
      let reached = (budget_exhaustion spend budgets).reached in
      let raised =
        emit_event (record w { task = record w.task { budgets = budgets } })
          (task_budget_raised budget value) none in
      if too_low spend budget value
      then err (budget_raise_too_low budget (spend_against_budget spend budget))
      else if (budget_exhaustion spend budgets).exhausted
      then raise_decision raised none
          (budget_exhaustion_decision reached (prompt spend budgets reached))
      else apply_transition raised w.graph w.task.status to (by_actor "budget_raised" actor)

  abbrev pub raise_after :
      World → String → BudgetKey → ℕ → Option TaskState → Result EngineError World
  raise_after w actor budget value none = err no_resume_state
  raise_after w actor budget value (some to) = raise_to w to actor budget value

  -- `raiseBudgetInTx`.
  unfoldable pub raise_budget : World → String → BudgetKey → ℕ → Result EngineError World
  raise_budget w actor budget value =
      if not (w.task.status == paused)
      then err (not_parked w.task.status)
      else raise_after w actor budget value w.task.resume_status

  -- `pauseForExhaustedBudget`, of a task at `about`; no world where it does not pause.
  unfoldable pub pause_for_exhausted_budget :
      World → PinnedGraph → Result EngineError (Option World)
  pause_for_exhausted_budget w graph =
      let spend = task_spend w in
      let exhaustion = budget_exhaustion spend w.task.budgets in
      if not exhaustion.exhausted
      then ok none
      else raise_decision w none (
          budget_exhaustion_decision exhaustion.reached
            (prompt spend w.task.budgets exhaustion.reached))
        >>= λ raised.
            apply_transition raised graph w.task.status paused (record {
              cause = "budget_exhausted";
              actor = none;
              resume = some w.task.status;
              stage_id = none;
            })
            >>= λ stopped. ok (some stopped)
