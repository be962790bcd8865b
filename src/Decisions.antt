-- ===== src/Decisions.antt =====
-- Decisions: packages/core/src/decisions.ts, with the requests of packages/core/src/result.ts.
pub mod Partition
pub mod Raise
pub mod Escalation
use specmate.Prelude.{
  ℕ, suc, ◌+◌, Bool, true, false, List, [], ◌∷◌, ◌++◌, map, Option, none, some, String, Eq,
  eq_of_discrete, ◌&&◌, ◌==◌, string_eq, leb, any, concat, if◌then◌else◌,
}
use specmate.Lifecycle.{TaskState, paused}
use specmate.Budget.{BudgetKey, max_cost_usd, max_wall_clock_minutes}

-- `DecisionKind`.
pub data DecisionKind : Type 0 where
  question escalation rework approval : DecisionKind

-- `DECISION_STATUSES`.
pub data DecisionStatus : Type 0 where
  opened answered dismissed : DecisionStatus

unfoldable pub DecisionStatus-discrete : Discrete DecisionStatus
DecisionStatus-discrete = hlevel

instance abbrev pub decision_status_eq : Eq DecisionStatus
decision_status_eq = eq_of_discrete DecisionStatus-discrete

pub record DecisionOption : Type 0 where
  pub id : String
  pub label : String

pub record DecisionRequest : Type 0 where
  pub key : String
  pub kind : DecisionKind
  pub prompt_md : String
  pub options : List DecisionOption
  pub blocking : Bool

pub record DecisionInsert : Type 0 where
  pub node_key : TaskState
  pub key : String
  pub kind : DecisionKind
  pub prompt_md : String
  pub options : List DecisionOption
  pub blocking : Bool

-- `decisionFromRequest`.
unfoldable pub decision_from_request : TaskState → DecisionRequest → DecisionInsert
decision_from_request node_key request = record {
  node_key = node_key;
  key = request.key;
  kind = request.kind;
  prompt_md = request.prompt_md;
  options = request.options;
  blocking = request.blocking;
}

pub record PartitionedRequests : Type 0 where
  pub recorded : List DecisionRequest
  pub refused : List DecisionRequest

abbrev pub with_recorded : DecisionRequest → PartitionedRequests → PartitionedRequests
with_recorded r p = record { recorded = r ∷ p.recorded; refused = p.refused }

abbrev pub with_refused : DecisionRequest → PartitionedRequests → PartitionedRequests
with_refused r p = record { recorded = p.recorded; refused = r ∷ p.refused }

-- The loop of `partitionRequests`, with `seen` non-blocking requests before.
unfoldable pub partition_from : ℕ → ℕ → List DecisionRequest → PartitionedRequests
partition_from cap seen [] = record { recorded = []; refused = [] }
partition_from cap seen (r ∷ requests) =
    let asked = partition_from cap seen requests in
    let counted = partition_from cap (suc seen) requests in
    if r.blocking
    then with_recorded r asked
    else if leb (suc seen) cap
    then with_recorded r counted
    else with_refused r counted

-- `partitionRequests`.
unfoldable pub partition_requests : List DecisionRequest → ℕ → PartitionedRequests
unfolding partition_from
partition_requests requests cap = partition_from cap 0 requests

-- `BudgetKey` as it is written.
abbrev budget_text : BudgetKey → String
budget_text max_cost_usd = "max_cost_usd"
budget_text max_wall_clock_minutes = "max_wall_clock_minutes"

-- `budgetRaiseOptionId`.
unfoldable pub budget_raise_option_id : BudgetKey → String
budget_raise_option_id budget = concat ("raise:" ∷ budget_text budget ∷ [])

-- `budgetFromRaiseOption`.
unfoldable pub budget_from_raise_option : String → Option BudgetKey
unfolding budget_raise_option_id
budget_from_raise_option option_id =
    if option_id == budget_raise_option_id max_cost_usd
    then some max_cost_usd
    else if option_id == budget_raise_option_id max_wall_clock_minutes
    then some max_wall_clock_minutes
    else none

-- `BUDGET_LABELS`.
abbrev budget_label : BudgetKey → String
budget_label max_cost_usd = "cost"
budget_label max_wall_clock_minutes = "agent-minutes"

abbrev raise_option : BudgetKey → DecisionOption
raise_option budget = record {
  id = budget_raise_option_id budget;
  label = concat ("Raise the " ∷ budget_label budget ∷ " budget" ∷ []);
}

abbrev pub budget_decision_cancel_option : String
budget_decision_cancel_option = "cancel"

-- `budgetExhaustionDecision`, from the budgets reached; the text of the prompt is given.
unfoldable pub budget_exhaustion_decision : List BudgetKey → String → DecisionInsert
budget_exhaustion_decision reached prompt = record {
  node_key = paused;
  key = "budget-exhausted";
  kind = escalation;
  prompt_md = prompt;
  options =
      map raise_option reached
      ++ record { id = budget_decision_cancel_option; label = "Cancel this task" } ∷ [];
  blocking = true;
}

-- `StoredDecision`: a row of `decisions`, less its task and its time of creation. Rows are numbered,
-- a time is a number.
pub record StoredDecision : Type 0 where
  pub id : ℕ
  pub stage_id : Option ℕ
  pub node_key : TaskState
  pub key : String
  pub kind : DecisionKind
  pub prompt_md : String
  pub options : List DecisionOption
  pub blocking : Bool
  pub status : DecisionStatus
  pub answer_md : Option String
  pub answered_by : Option String
  pub answered_at : Option ℕ

abbrev pub is_open : StoredDecision → Bool
is_open d = d.status == opened

-- `blockingOpen`.
unfoldable pub blocking_open : List StoredDecision → Bool
blocking_open decisions = any (λ d. d.blocking && is_open d) decisions
