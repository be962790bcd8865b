-- ===== src/Engine/State.antt =====
-- What the engine keeps of one task: its row, its decisions, stages, feedback and events, with the
-- errors of apps/orchestrator/src/engine.ts. An operation runs under the task's lock in one
-- transaction, so it is a function from a world to a world or to the error that rolls it back.
use specmate.Prelude.{
  ℕ, ◌-◌, Bool, List, [], ◌∷◌, ◌++◌, map, filter, Option, none, some, String, Eq, eq_of_discrete,
  is_some, Result, ok, err,
}
use specmate.Lifecycle.{TaskState, Caps, Budgets}
use specmate.Roles.{AgentRole, ProviderId}
use specmate.Pipeline.Nodes.{PinnedGraph, CapKey}
use specmate.Pipeline.Walk.{WalkError}
use specmate.Budget.{BudgetKey, SpendAttempt, Spend, compute_spend}
use specmate.Decisions.{StoredDecision, DecisionStatus, DecisionInsert}

-- `HarnessStatus`.
pub data HarnessStatus : Type 0 where
  unknown adequate partial missing waived : HarnessStatus

-- The columns of a task that the engine's operations read or write.
pub record Task : Type 0 where
  pub status : TaskState
  pub resume_status : Option TaskState
  pub caps : Caps
  pub budgets : Budgets
  pub blocked_by : List String
  pub harness_status : HarnessStatus

-- `stage_status`.
pub data StageRowStatus : Type 0 where
  pending running succeeded failed_run skipped waiting_run interrupted : StageRowStatus

unfoldable pub StageRowStatus-discrete : Discrete StageRowStatus
StageRowStatus-discrete = hlevel

instance abbrev pub stage_row_status_eq : Eq StageRowStatus
stage_row_status_eq = eq_of_discrete StageRowStatus-discrete

-- A row of `stages`, one attempt of a node of one run graph.
pub record Stage : Type 0 where
  pub id : ℕ
  pub graph_id : ℕ
  pub node_key : TaskState
  pub role : AgentRole
  pub provider : ProviderId
  pub status : StageRowStatus
  pub attempt : ℕ
  pub started_at : Option ℕ
  pub finished_at : Option ℕ
  pub cost_usd : Option ℕ

pub data FeedbackKind : Type 0 where
  redirect_feedback decision_answer spec_edit rework_feedback overrule : FeedbackKind
  comment_feedback conversation_feedback intervention : FeedbackKind

unfoldable pub FeedbackKind-discrete : Discrete FeedbackKind
FeedbackKind-discrete = hlevel

instance abbrev pub feedback_kind_eq : Eq FeedbackKind
feedback_kind_eq = eq_of_discrete FeedbackKind-discrete

-- The two shapes of `target`.
pub data FeedbackTarget : Type 0 where
  at_node : TaskState → FeedbackTarget
  on_decision : ℕ → FeedbackTarget

pub record Feedback : Type 0 where
  pub kind : FeedbackKind
  pub text_md : String
  pub stage_id : Option ℕ
  pub role : Option AgentRole
  pub provider : Option ProviderId
  pub target : FeedbackTarget
  pub consumed_by_stage_id : Option ℕ

-- `cause` of the dismissal of open decisions.
pub data DismissCause : Type 0 where
  terminal gate_approved : DismissCause

-- The type of an event with the part of its payload that identifies what happened.
pub data EventType : Type 0 where
  task_transitioned task_parked task_failed :
      (source to : TaskState) (cause : String) (actor : Option String) (resume : Option TaskState)
      → EventType
  decision_raised decision_answered decision_dismissed conversation_created : ℕ → EventType
  decisions_dismissed : ℕ → DismissCause → EventType
  gate_approved_event : (gate to : TaskState) → EventType
  gate_redirected : (gate to : TaskState) (round : ℕ) → EventType
  gate_reworked : (gate to : TaskState) → EventType
  task_resumed task_restarted : TaskState → EventType
  task_cancelled coverage_waiver_recorded : EventType
  task_budget_raised : BudgetKey → ℕ → EventType
  stage_skipped : (node : TaskState) (graph : ℕ) → EventType
  task_plan_recorded : (applied : Bool) (prerequisites : List String) → EventType
  task_renamed : (source to : String) → EventType
  decision_inherited : EventType
  stage_failed : (node : TaskState) (attempt : ℕ) (reason : String) → EventType

pub record Event : Type 0 where
  pub type : EventType
  pub stage_id : Option ℕ
  pub created_at : ℕ

-- The rows of one task in the order of insertion, which is that of their creation. `graph` is the
-- latest run graph, `message_costs` are the settled attempts of its conversations, `waiver` says
-- whether a coverage waiver of the repository is in force, and `next_id` numbers the next row.
pub record World : Type 0 where
  pub task : Task
  pub graph_id : ℕ
  pub graph : PinnedGraph
  pub decisions : List StoredDecision
  pub stages : List Stage
  pub feedback : List Feedback
  pub events : List Event
  pub message_costs : List SpendAttempt
  pub waiver : Bool
  pub next_id : ℕ
  pub now : ℕ

-- The exceptions of engine.ts, with what their message interpolates.
pub data EngineError : Type 0 where
  walk : WalkError → EngineError
  not_at_gate : TaskState → EngineError
  no_gate_edge : TaskState → EngineError
  rework_target skipped_target : (gate target : TaskState) → EngineError
  redirect_cap_exhausted : (gate : TaskState) (cap : CapKey) (limit : ℕ) → EngineError
  not_parked not_restartable : TaskState → EngineError
  restart_target : (target failed_at : TaskState) → EngineError
  no_resume_state : EngineError
  budget_raise_too_low : BudgetKey → ℕ → EngineError
  budget_exhausted_resume : EngineError
  illegal_transition stale_transition : (source to : TaskState) → EngineError
  decision_not_found : ℕ → EngineError
  decision_not_open : ℕ → DecisionStatus → EngineError
  coverage_requires_option budget_requires_option : ℕ → EngineError
  unique_violation : DecisionInsert → EngineError
  decision_answer_empty : ℕ → EngineError
  budget_raise_value : Option String → EngineError
  self_dependency : String → EngineError

-- `emitEvent`.
abbrev pub emit_event : World → EventType → Option ℕ → World
emit_event w type stage_id = record w {
  events = w.events ++ record { type = type; stage_id = stage_id; created_at = w.now } ∷ [];
}

abbrev duration_of : Stage → Option ℕ
duration_of row = elim row.started_at [
  | none ↦ none
  | some start ↦ elim row.finished_at [ none ↦ none | some finish ↦ some (finish - start) ]
]

abbrev stage_spend : Stage → SpendAttempt
stage_spend row = record { cost_usd = row.cost_usd; duration_ms = duration_of row }

-- `taskSpend`.
unfoldable pub task_spend : World → Spend
unfolding compute_spend
task_spend w = compute_spend (
    map stage_spend (filter (λ (row : Stage). is_some row.finished_at) w.stages) ++ w.message_costs)

-- A rule of the pipeline that throws ends the operation.
abbrev pub rule {ℓ} : {A : Type ℓ} → Result WalkError A → Result EngineError A
rule (ok a) = ok a
rule (err e) = err (walk e)
