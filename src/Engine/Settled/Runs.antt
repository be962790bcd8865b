-- ===== src/Engine/Settled/Runs.antt =====
-- Budgets and attempts leave a task settled: apps/orchestrator/src/engine.ts.
use mathlib.Core.Option.{some-injective}
use specmate.Prelude.{
  ℕ, true, false, not, ◌||◌, List, any, Option, none, some, String, ◌==◌, leb, ok, >>=-eq-ok,
  ok-injective, refuse-eq-ok, require-eq-ok, err-eq-ok, ◌≡◌, ◌≢◌, refl, sym, ◌∙◌, subst, ap, Memᴰ,
  Bool-cases, inl, inr, beq_cases, clash,
}
use specmate.Lifecycle.{
  TaskState, task_state_eq, same_state, paused, failed, waiting_human, is_terminal, Budgets,
}
use specmate.Roles.{ProviderId}
use specmate.Pipeline.Nodes.{PinnedGraph, StageNode, stage}
use specmate.Pipeline.Walk.Lookup.{keys_of, keys_of-Memᴰ}
use specmate.Budget.{BudgetKey, Spend, budget_exhaustion}
use specmate.Decisions.{DecisionInsert}
use specmate.Failures.{is_retryable}
use specmate.Engine.State.{World, Task, Stage, task_spend, task_budget_raised, emit_event}
use specmate.Engine.Raise.{raise_decision}
use specmate.Engine.Raise.Unique.{raise_decision-AtMostOne}
use specmate.Engine.Raise.Outcome.{raise_decision-same}
use specmate.Engine.Transition.{apply_transition}
use specmate.Engine.Spending.{
  resume, resume_after, resume_to, raise_budget, raise_after, raise_to, too_low, with_budget,
  pause_for_exhausted_budget,
}
use specmate.Engine.Attempts.{
  attempt_streak, is_running, is_live, unless_paused, claim, fail_attempt, marked_failed,
  release_guidance, late_telemetry, cap_spent,
}
use specmate.Engine.Settled.{
  is_stopped, Routes, ResumesIn, IsSettled, apply_transition-IsSettled, apply_transition-moving,
}

paused_stops : is_stopped paused ≡ true
unfolding same_state
paused_stops = refl

paused_waits : paused ≢ waiting_human
unfolding same_state
paused_waits e =
    clash (same_state paused waiting_human) ((task_state_eq.beq_iff paused waiting_human).1 e) refl

resume_after-IsSettled :
    (w after : World) (actor : String) (resumed : Option TaskState)
    → ResumesIn w.graph resumed
    → IsSettled w
    → resume_after w actor resumed ≡ ok after
    → IsSettled after
unfolding resume_to
resume_after-IsSettled w after actor none there settled h = err-eq-ok _ _ h
resume_after-IsSettled w after actor (some to) (s, e, key) settled h =
    let (_, move) =
      refuse-eq-ok (budget_exhaustion (task_spend w) w.task.budgets).exhausted _ _ h in
    apply_transition-moving _ after w.graph w.task.status to _ settled.unique settled.routes
      (settled.routes.keys_move to (rw (some-injective to s e) key)) move

-- What a paused task resumes in is a node of the graph.
resumes_paused :
    (w : World)
    → IsSettled w
    → (w.task.status == paused) ≡ true
    → ResumesIn w.graph w.task.resume_status
resumes_paused w settled t =
    settled.resumes
      (ap is_stopped ((task_state_eq.beq_iff w.task.status paused).0 t) ∙ paused_stops)

-- `resume` leaves a settled task, at a node of the graph.
pub resume-IsSettled :
    (w after : World) (actor : String) → IsSettled w → resume w actor ≡ ok after → IsSettled after
unfolding resume
resume-IsSettled w after actor settled h =
    let (t, entered) = require-eq-ok (w.task.status == paused) _ _ h in
    resume_after-IsSettled w after actor w.task.resume_status (resumes_paused w settled t) settled
      entered

-- A task that a decision was raised for stays settled where it is not terminal.
raised-IsSettled :
    (w after : World) (input : DecisionInsert)
    → is_terminal w.task.status ≡ false
    → w.task.status ≢ waiting_human
    → IsSettled w
    → raise_decision w none input ≡ ok after
    → IsSettled after
raised-IsSettled w after input alive quiet settled h =
    let (task, graph, _) = raise_decision-same w after none input h in
    let status = ap (λ (k : Task). k.status) task in
    record {
      parked = λ e. absurd (quiet (sym status ∙ e));
      resumes = λ s. rw (task, graph) (settled.resumes (ap is_stopped (sym status) ∙ s));
      closed = λ t. clash (is_terminal w.task.status) (ap is_terminal (sym status) ∙ t) alive;
      unique = raise_decision-AtMostOne w after none input settled.unique h;
      routes = subst (λ (g : PinnedGraph). Routes g) (sym graph) settled.routes;
    }

paused_alive : is_terminal paused ≡ false
unfolding is_terminal same_state
paused_alive = refl

module _ (prompt : Spend → Budgets → List BudgetKey → String) where
  raise_after-IsSettled :
      (w after : World) (actor : String) (budget : BudgetKey) (value : ℕ)
      (resumed : Option TaskState)
      → w.task.status ≡ paused
      → ResumesIn w.graph resumed
      → IsSettled w
      → raise_after prompt w actor budget value resumed ≡ ok after
      → IsSettled after
  unfolding raise_to
  raise_after-IsSettled w after actor budget value none e there settled h = err-eq-ok _ _ h
  raise_after-IsSettled w after actor budget value (some to) e (s, q, key) settled h =
      let spend = task_spend w in
      let budgets = with_budget w.task.budgets budget value in
      let raised =
        emit_event (record w { task = record w.task { budgets = budgets } })
          (task_budget_raised budget value) none in
      let richer : IsSettled raised = record {
        parked = settled.parked;
        resumes = settled.resumes;
        closed = settled.closed;
        unique = settled.unique;
        routes = settled.routes;
      } in
      let (_, accepted) = refuse-eq-ok (too_low spend budget value) _ _ h in
      elim (Bool-cases (budget_exhaustion spend budgets).exhausted) [
        | inl still ↦
            raised-IsSettled raised after _ (ap is_terminal e ∙ paused_alive)
              (λ p. paused_waits (sym e ∙ p)) richer (rw still at accepted)
        | inr free ↦
            apply_transition-moving raised after w.graph w.task.status to _ settled.unique
              settled.routes (settled.routes.keys_move to (rw (some-injective to s q) key))
              (rw free at accepted)
      ]

  -- `raiseBudget` leaves a settled task: back in the state that it kept, or still paused, with the
  -- decision on its budgets renewed.
  pub raise_budget-IsSettled :
      (w after : World) (actor : String) (budget : BudgetKey) (value : ℕ)
      → IsSettled w
      → raise_budget prompt w actor budget value ≡ ok after
      → IsSettled after
  unfolding raise_budget
  raise_budget-IsSettled w after actor budget value settled h =
      let (t, entered) = require-eq-ok (w.task.status == paused) _ _ h in
      raise_after-IsSettled w after actor budget value w.task.resume_status
        ((task_state_eq.beq_iff w.task.status paused).0 t) (resumes_paused w settled t) settled
        entered

  -- A task that pauses on its budgets keeps the node that it stood at.
  pause-IsSettled :
      (w after : World) (graph : PinnedGraph)
      → Memᴰ w.task.status (keys_of w.graph.nodes)
      → IsSettled w
      → pause_for_exhausted_budget prompt w graph ≡ ok (some after)
      → IsSettled after
  unfolding pause_for_exhausted_budget
  pause-IsSettled w after graph key settled h =
      let exhaustion = budget_exhaustion (task_spend w) w.task.budgets in
      elim (Bool-cases exhaustion.exhausted) [
        | inr free ↦ cc (rw free at h)
        | inl spent ↦
            let (raised, made, rest) = >>=-eq-ok (raise_decision w none _) _ (rw spent at h) in
            let (stopped, move, done) =
              >>=-eq-ok (apply_transition raised graph w.task.status paused _) _ rest in
            let (_, same, _) = raise_decision-same w raised none _ made in
            subst (λ (u : World). IsSettled u) (some-injective stopped after (ok-injective done))
              (apply_transition-IsSettled raised stopped graph w.task.status paused _
                (raise_decision-AtMostOne w raised none _ settled.unique made)
                (subst (λ (g : PinnedGraph). Routes g) (sym same) settled.routes)
                (λ s. (w.task.status, refl, rw same key)) (λ e. absurd (paused_waits e)) move)
      ]

  claimed-IsSettled :
      (w after : World) (graph_id : ℕ) (graph : PinnedGraph) (node : StageNode)
      (provider : ProviderId) (attempt_cap : ℕ) (stopped : Option World)
      → Memᴰ w.task.status (keys_of w.graph.nodes)
      → IsSettled w
      → pause_for_exhausted_budget prompt w graph ≡ ok stopped
      → unless_paused prompt w graph_id node provider attempt_cap stopped ≡ ok after
      → IsSettled after
  claimed-IsSettled w after graph_id graph node provider attempt_cap (some rest) key settled p h =
      subst (λ (u : World). IsSettled u) (ok-injective h)
        (pause-IsSettled w rest graph key settled p)
  claimed-IsSettled w after graph_id graph node provider attempt_cap none key settled p h =
      elim (Bool-cases (leb attempt_cap (attempt_streak w graph_id node.key attempt_cap))) [
        | inl spent ↦ subst (λ (u : World). IsSettled u) (ok-injective (rw spent at h)) settled
        | inr fresh ↦
            subst (λ (u : World). IsSettled u) (ok-injective (rw fresh at h))
              (record {
                parked = settled.parked;
                resumes = settled.resumes;
                closed = settled.closed;
                unique = settled.unique;
                routes = settled.routes;
              })
      ]

  -- `claim` of a stage of the task's graph leaves a settled task: as it was, with an attempt running,
  -- or paused on a budget.
  pub claim-IsSettled :
      (w after : World) (graph_id : ℕ) (graph : PinnedGraph) (node : StageNode)
      (provider : ProviderId) (attempt_cap : ℕ)
      → Memᴰ (stage node) w.graph.nodes
      → IsSettled w
      → claim prompt w graph_id graph node provider attempt_cap ≡ ok after
      → IsSettled after
  unfolding claim
  claim-IsSettled w after graph_id graph node provider attempt_cap m settled h =
      elim (beq_cases w.task.status node.key) [
        | inr (f, _) ↦ subst (λ (u : World). IsSettled u) (ok-injective (rw f at h)) settled
        | inl (t, e) ↦ elim (Bool-cases (any is_running w.stages)) [
          | inl busy ↦ subst (λ (u : World). IsSettled u) (ok-injective (rw (t, busy) at h)) settled
          | inr idle ↦
              let (stopped, p, rest) =
                >>=-eq-ok (pause_for_exhausted_budget prompt w graph) _ (rw (t, idle) at h) in
              claimed-IsSettled w after graph_id graph node provider attempt_cap stopped
                (rw e (keys_of-Memᴰ (stage node) w.graph.nodes m)) settled p rest
        ]
      ]

late_telemetry-IsSettled :
    (w : World) (id : ℕ) (telemetry : Option (Option ℕ))
    → IsSettled w
    → IsSettled (late_telemetry w id telemetry)
late_telemetry-IsSettled w id none settled = settled
late_telemetry-IsSettled w id (some cost) settled = record {
  parked = settled.parked;
  resumes = settled.resumes;
  closed = settled.closed;
  unique = settled.unique;
  routes = settled.routes;
}

failed_waits : failed ≢ waiting_human
unfolding same_state
failed_waits e =
    clash (same_state failed waiting_human) ((task_state_eq.beq_iff failed waiting_human).1 e) refl

-- `failAttempt` of a node of the task's graph leaves a settled task: with attempts left, or failed,
-- with the node to restart from and nothing open.
pub fail_attempt-IsSettled :
    (w after : World) (observed : TaskState) (graph_id : ℕ) (graph : PinnedGraph) (key : TaskState)
    (row : Stage) (reason : String) (telemetry : Option (Option ℕ)) (attempt_cap : ℕ)
    → Memᴰ key (keys_of w.graph.nodes)
    → IsSettled w
    → fail_attempt w observed graph_id graph key row reason telemetry attempt_cap ≡ ok after
    → IsSettled after
unfolding fail_attempt release_guidance
fail_attempt-IsSettled w after observed graph_id graph key row reason telemetry attempt_cap m
      settled h =
    let marked = marked_failed w key row reason telemetry in
    elim (Bool-cases (any (is_live row.id) w.stages)) [
      | inr gone ↦
          subst (λ (u : World). IsSettled u) (ok-injective (rw gone at h))
            (late_telemetry-IsSettled w row.id telemetry settled)
      | inl live ↦
          elim (Bool-cases
            (not (is_retryable reason) || cap_spent marked graph_id key attempt_cap)) [
              | inl over ↦
                  apply_transition-IsSettled marked after graph observed failed _ settled.unique
                    settled.routes (λ s. (key, refl, m)) (λ e. absurd (failed_waits e))
                    (rw (live, over) at h)
              | inr again ↦
                  subst (λ (u : World). IsSettled u) (ok-injective (rw (live, again) at h))
                    (record {
                      parked = settled.parked;
                      resumes = settled.resumes;
                      closed = settled.closed;
                      unique = settled.unique;
                      routes = settled.routes;
                    })
            ]
    ]
