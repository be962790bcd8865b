-- ===== src/Engine/Life.antt =====
-- The life of a task under the operations of apps/orchestrator/src/engine.ts, in any order.
use specmate.Prelude.{
  ℕ, true, false, List, any, Option, some, String, Result, ok, ◌≡◌, ap, sym, ◌∙◌, subst, Memᴰ,
  ok-injective,
}
use specmate.Lifecycle.{TaskState, Budgets, waiting_human, is_terminal}
use specmate.Roles.{ProviderId}
use specmate.Pipeline.Nodes.{PinnedGraph, StageNode, stage}
use specmate.Pipeline.Walk.{node_at}
use specmate.Pipeline.Walk.Lookup.{keys_of, Distinct}
use specmate.Pipeline.Advance.{RecordedRound, StageOutcomeSummary, AdvanceDecision, advance}
use specmate.Budget.{BudgetKey, Spend}
use specmate.Decisions.{is_open, blocking_open}
use specmate.Decisions.Escalation.{EscalationInput}
use specmate.Engine.State.{World, EngineError, Stage}
use specmate.Engine.Resolve.{Resolution, ResolutionInput, resolve_decision}
use specmate.Engine.Gates.{approve, redirect, rework, restart, cancel}
use specmate.Engine.Spending.{resume, raise_budget}
use specmate.Engine.Dependents.{release_dependent_task, raise_dead_blocker}
use specmate.Engine.Attempts.{claim, fail_attempt}
use specmate.Engine.Answer.{Planned, answer}
use specmate.Engine.Answer.Outcomes.{answer-IsSettled}
use specmate.Engine.Parks.{finish_stage}
use specmate.Engine.Parks.Ends.{Asked, finish_stage-IsSettled}
use specmate.Engine.Settled.{is_stopped, ResumesIn, IsSettled, parking_stops}
use specmate.Engine.Settled.Owner.{
  redirect-IsSettled, rework-IsSettled, restart-IsSettled, cancel-IsSettled,
}
use specmate.Engine.Settled.Decided.{resolve_decision-IsSettled, approve-IsSettled}
use specmate.Engine.Settled.Blocked.{release_dependent_task-IsSettled, raise_dead_blocker-IsSettled}
use specmate.Engine.Settled.Runs.{
  resume-IsSettled, raise_budget-IsSettled, claim-IsSettled, fail_attempt-IsSettled,
}

-- One locked transaction on the task, with its arguments; an answer can be two of them.
pub data Command : Type 0 where
  approving : (actor : String) → Command
  redirecting : (actor : String) (comment : Option String) → Command
  reworking : (actor : String) (target : TaskState) (comment : Option String) → Command
  restarting : (actor : String) (to : Option TaskState) → Command
  cancelling : (actor : String) → Command
  resuming : (actor : String) → Command
  raising : (actor : String) (budget : BudgetKey) (value : ℕ) → Command
  resolving : (id : ℕ) (actor : String) (how : Resolution) (input : ResolutionInput) → Command
  answering : (planned : Planned) (id : ℕ) (actor : String) (input : ResolutionInput) → Command
  releasing : (cleared : String) → Command
  losing : (dead : String) → Command
  claiming :
      (graph_id : ℕ) (graph : PinnedGraph) (node : StageNode) (provider : ProviderId)
      (attempt_cap : ℕ)
      → Command
  failing :
      (observed : TaskState) (graph_id : ℕ) (graph : PinnedGraph) (key : TaskState) (row : Stage)
      (reason : String) (telemetry : Option (Option ℕ)) (attempt_cap : ℕ)
      → Command
  finishing :
      (row : ℕ) (node : StageNode) (decision : AdvanceDecision) (rounds : List RecordedRound)
      → Command

-- `advance` decides so on some outcome of the stage that the task is at; where the agent asked the
-- owner, a blocking decision of the agent is open.
pub record Decides (w : World) (node : StageNode) (decision : AdvanceDecision)
    (rounds : List RecordedRound) : Type 0 where
  pub outcome : StageOutcomeSummary
  pub distinct : Distinct (keys_of w.graph.nodes)
  pub alive : is_terminal w.task.status ≡ false
  pub here : node_at w.graph w.task.status ≡ some (stage node)
  pub decided : advance w.graph w.task.status outcome rounds w.task.caps ≡ ok decision
  pub asked : Asked decision w

module _ (trim : String → String) (prompt : Spend → Budgets → List BudgetKey → String)
    (show : ℕ → String) (escalate : EscalationInput → String)
    (number : BudgetKey → String → Option ℕ) (mint : ℕ → String) where
  unfoldable pub run : Command → World → Result EngineError World
  run (approving actor) w = approve trim w actor
  run (redirecting actor comment) w = redirect w actor comment
  run (reworking actor target comment) w = rework w actor target comment
  run (restarting actor to) w = restart w actor to
  run (cancelling actor) w = cancel w actor
  run (resuming actor) w = resume w actor
  run (raising actor budget value) w = raise_budget prompt w actor budget value
  run (resolving id actor how input) w = resolve_decision trim w id actor how input
  -- What an answer throws leaves what it had committed.
  run (answering planned id actor input) w =
      ok (answer trim prompt number mint w planned id actor input).world
  run (releasing cleared) w = release_dependent_task w cleared
  run (losing dead) w = raise_dead_blocker w dead
  run (claiming graph_id graph node provider attempt_cap) w =
      claim prompt w graph_id graph node provider attempt_cap
  run (failing observed graph_id graph key row reason telemetry attempt_cap) w =
      fail_attempt w observed graph_id graph key row reason telemetry attempt_cap
  run (finishing row node decision rounds) w = finish_stage show escalate w row node decision rounds

  -- An attempt is of a node of the task's graph, and a stage ends by the decision of `advance`;
  -- nothing else is asked of a command.
  abbrev pub Fits : Command → World → Type 0
  Fits (claiming graph_id graph node provider attempt_cap) w = Memᴰ (stage node) w.graph.nodes
  Fits (failing observed graph_id graph key row reason telemetry attempt_cap) w =
      Memᴰ key (keys_of w.graph.nodes)
  Fits (finishing row node decision rounds) w = Decides w node decision rounds
  Fits _ w = Unit

  -- Run on a settled task, each of the commands that succeeds, and an answer also where it throws, leaves
  -- it settled. A task is settled where, being parked, it has an open blocking decision, being parked,
  -- paused or failed, it has a node of its graph to resume in, being terminal, it has no open decision, no
  -- two open decisions share node and key, and its graph leads to no status that stops it. The commands
  -- are the owner's approval, redirect, rework, restart, cancel, resume, raise of a budget, resolution
  -- and answer of a decision, the end of a blocker of the task, the claim and the failure of an attempt,
  -- and the end of a stage. An attempt that is claimed or fails is of a node of the task's graph, and a
  -- stage ends by the decision of `advance`, on a graph with distinct keys, with a blocking decision open
  -- where its agent asked the owner.
  pub run-IsSettled :
      (c : Command) (w after : World)
      → Fits c w
      → IsSettled w
      → run c w ≡ ok after
      → IsSettled after
  unfolding run
  run-IsSettled (approving actor) w after fits settled h =
      approve-IsSettled trim w after actor settled h
  run-IsSettled (redirecting actor comment) w after fits settled h =
      redirect-IsSettled w after actor comment settled h
  run-IsSettled (reworking actor target comment) w after fits settled h =
      rework-IsSettled w after actor target comment settled h
  run-IsSettled (restarting actor to) w after fits settled h =
      restart-IsSettled w after actor to settled h
  run-IsSettled (cancelling actor) w after fits settled h = cancel-IsSettled w after actor settled h
  run-IsSettled (resuming actor) w after fits settled h = resume-IsSettled w after actor settled h
  run-IsSettled (raising actor budget value) w after fits settled h =
      raise_budget-IsSettled prompt w after actor budget value settled h
  run-IsSettled (resolving id actor how input) w after fits settled h =
      resolve_decision-IsSettled trim w after id actor how input settled h
  run-IsSettled (answering planned id actor input) w after fits settled h =
      subst (λ (u : World). IsSettled u) (ok-injective h)
        (answer-IsSettled trim prompt number mint w planned id actor input settled)
  run-IsSettled (releasing cleared) w after fits settled h =
      release_dependent_task-IsSettled w after cleared settled h
  run-IsSettled (losing dead) w after fits settled h =
      raise_dead_blocker-IsSettled w after dead settled h
  run-IsSettled (claiming graph_id graph node provider attempt_cap) w after fits settled h =
      claim-IsSettled prompt w after graph_id graph node provider attempt_cap fits settled h
  run-IsSettled (failing observed graph_id graph key row reason telemetry attempt_cap) w after fits
        settled h =
      fail_attempt-IsSettled w after observed graph_id graph key row reason telemetry attempt_cap
        fits settled h
  run-IsSettled (finishing row node decision rounds) w after fits settled h =
      let (ended, e, _, done) =
        finish_stage-IsSettled show escalate w row node fits.outcome rounds decision fits.distinct
          settled.routes settled.unique fits.alive fits.here fits.decided fits.asked in
      subst (λ (u : World). IsSettled u) (ok-injective (sym e ∙ h)) done

  -- The worlds that a task goes through from `start`: an operation that succeeds changes it, one that
  -- throws is rolled back, an answer as far as it was not committed, and time passes.
  pub data Reaches (start : World) : World → Type 0 where
    begins : Reaches start start
    runs :
        {w after : World}
        → Reaches start w
        → (c : Command) → Fits c w
        → run c w ≡ ok after
        → Reaches start after
    waits : {w : World} → Reaches start w → (now : ℕ) → Reaches start (record w { now = now })

  Reaches-IsSettled : (start w : World) → IsSettled start → Reaches start w → IsSettled w
  Reaches-IsSettled start w settled begins = settled
  Reaches-IsSettled start w settled (runs {w = before} path c fits h) =
      run-IsSettled c before w fits (Reaches-IsSettled start before settled path) h
  Reaches-IsSettled start w settled (waits {w = before} path now) =
      let earlier = Reaches-IsSettled start before settled path in
      record {
        parked = earlier.parked;
        resumes = earlier.resumes;
        closed = earlier.closed;
        unique = earlier.unique;
        routes = earlier.routes;
      }

  -- Whichever of the commands run on a settled task, in any order: while it is parked an open decision
  -- blocks it and it has a node of its graph to resume in, and once it is terminal no decision is open.
  -- An attempt that is claimed or fails is of a node of the task's graph, and a stage that ends leads
  -- where `advance` decides, with a blocking decision open where its agent asked the owner.
  pub Reaches-parked :
      (start w : World)
      → IsSettled start
      → Reaches start w
      → (w.task.status ≡ waiting_human
          → (blocking_open w.decisions ≡ true) × ResumesIn w.graph w.task.resume_status)
        × (is_terminal w.task.status ≡ true → any is_open w.decisions ≡ false)
  Reaches-parked start w settled path =
      let here = Reaches-IsSettled start w settled path in
      (λ e. (here.parked e, here.resumes (ap is_stopped e ∙ parking_stops)), here.closed)
