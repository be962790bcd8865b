-- ===== src/Engine/Raise.antt =====
-- Raising a decision: `raiseDecision`, `findOpenDecision` and `attachToOpenDecision` of
-- apps/orchestrator/src/store.ts.
pub mod Unique
pub mod Outcome
use specmate.Prelude.{
  ℕ, suc, ◌+◌, Bool, true, false, not, ◌&&◌, ◌||◌, List, [], ◌∷◌, ◌++◌, map, any, all, find?,
  filter, Option, none, some, String, Eq, eq_of_discrete, ◌==◌, nat_eq, string_eq, if◌then◌else◌,
  Result, ok, err,
}
use specmate.Lifecycle.{TaskState, task_state_eq, human_kickoff_gate, paused}
use specmate.Decisions.{
  DecisionKind, question, DecisionOption, DecisionInsert, StoredDecision, opened, is_open,
}
use specmate.Engine.State.{
  World, EngineError, unique_violation, decision_raised, conversation_created, emit_event,
}

unfoldable pub DecisionKind-discrete : Discrete DecisionKind
DecisionKind-discrete = hlevel

instance abbrev pub decision_kind_eq : Eq DecisionKind
decision_kind_eq = eq_of_discrete DecisionKind-discrete

abbrev pub coverage_decision_node_key : TaskState
coverage_decision_node_key = human_kickoff_gate

abbrev pub coverage_decision_key : String
coverage_decision_key = "harness-coverage"

abbrev pub budget_decision_node_key : TaskState
budget_decision_node_key = paused

abbrev pub budget_decision_key : String
budget_decision_key = "budget-exhausted"

-- `ENGINE_DECISION_IDENTITIES`: does the node own the key, and is the node none of the key's owners?
abbrev pub engine_owned : TaskState → String → Bool
engine_owned node key =
    node == coverage_decision_node_key && key == coverage_decision_key
    || node == budget_decision_node_key && key == budget_decision_key

-- The three conditions that the query of `findOpenDecision` shares: key and status.
abbrev pub same_open : TaskState → String → StoredDecision → Bool
same_open node key d = d.node_key == node && (d.key == key && is_open d)

abbrev pub by_task_and_key : DecisionInsert → Bool
by_task_and_key input =
    not (engine_owned input.node_key input.key) && (not input.blocking && input.kind == question)

-- The row may be matched from another node: a non-blocking question, and none of the engine's.
abbrev pub widened : DecisionInsert → StoredDecision → Bool
widened input d =
    (d.node_key == input.node_key || (d.kind == question && not d.blocking))
    && (not (engine_owned d.node_key input.key) && (d.key == input.key && is_open d))

abbrev pub matches : DecisionInsert → StoredDecision → Bool
matches input d =
    if by_task_and_key input then widened input d else same_open input.node_key input.key d

-- `findOpenDecision`: the oldest row that matches.
unfoldable pub find_open_decision : World → DecisionInsert → Option StoredDecision
find_open_decision w input = find? (matches input) w.decisions

abbrev option_eq : DecisionOption → DecisionOption → Bool
option_eq a b = a.id == b.id && a.label == b.label

abbrev options_eq : List DecisionOption → List DecisionOption → Bool
options_eq [] [] = true
options_eq (a ∷ xs) (b ∷ ys) = option_eq a b && options_eq xs ys
options_eq _ _ = false

abbrev stage_eq : Option ℕ → Option ℕ → Bool
stage_eq none none = true
stage_eq (some a) (some b) = a == b
stage_eq _ _ = false

abbrev pub bool_eq : Bool → Bool → Bool
bool_eq true b = b
bool_eq false b = not b

abbrev or_kept : Option ℕ → Option ℕ → Option ℕ
or_kept none kept = kept
or_kept (some stage) kept = some stage

abbrev pub is_unchanged : Option ℕ → DecisionInsert → StoredDecision → Bool
is_unchanged stage input d =
    stage_eq d.stage_id stage
    && (d.kind == input.kind
        && (d.prompt_md == input.prompt_md
            && (bool_eq d.blocking input.blocking && options_eq d.options input.options)))

-- What the update sets; `stageId ?? undefined` leaves the column as it is.
abbrev pub rewritten : Option ℕ → DecisionInsert → StoredDecision → StoredDecision
rewritten stage input d = record d {
  stage_id = or_kept stage d.stage_id;
  kind = input.kind;
  prompt_md = input.prompt_md;
  options = input.options;
  blocking = input.blocking;
}

abbrev pub rewrite_row : ℕ → Option ℕ → DecisionInsert → StoredDecision → StoredDecision
rewrite_row id stage input d = if d.id == id then rewritten stage input d else d

-- `attachToOpenDecision`.
unfoldable pub attach_to_open_decision : World → Option ℕ → StoredDecision → DecisionInsert → World
attach_to_open_decision w stage open_row input =
    if is_unchanged stage input open_row
    then w
    else emit_event (record w { decisions = map (rewrite_row open_row.id stage input) w.decisions })
        (decision_raised open_row.id) stage

abbrev pub new_decision : ℕ → Option ℕ → DecisionInsert → StoredDecision
new_decision id stage input = record {
  id = id;
  stage_id = stage;
  node_key = input.node_key;
  key = input.key;
  kind = input.kind;
  prompt_md = input.prompt_md;
  options = input.options;
  blocking = input.blocking;
  status = opened;
  answer_md = none;
  answered_by = none;
  answered_at = none;
}

-- The rows and events of a new decision and of its conversation, which take the next two numbers.
abbrev pub inserted : World → Option ℕ → DecisionInsert → World
inserted w stage input =
    emit_event
      (emit_event
        (record w {
          decisions = w.decisions ++ new_decision w.next_id stage input ∷ [];
          next_id = w.next_id + 2;
        })
        (decision_raised w.next_id) stage)
      (conversation_created (w.next_id + 1)) none

-- The insert, which the index `decisions_open_node_key_idx` refuses where an open row has the node
-- and the key; then the search runs again and has to find that row. The conversation of a new
-- decision is about a new row, so its index is met by no other conversation.
insert_decision : World → Option ℕ → DecisionInsert → Result EngineError World
unfolding attach_to_open_decision find_open_decision
insert_decision w stage input =
    if any (same_open input.node_key input.key) w.decisions
    then elim (find_open_decision w input) [
      | none ↦ err (unique_violation input)
      | some existing ↦ ok (attach_to_open_decision w stage existing input)
    ]
    else ok (inserted w stage input)

-- `raiseDecision`.
unfoldable pub raise_decision : World → Option ℕ → DecisionInsert → Result EngineError World
unfolding insert_decision attach_to_open_decision find_open_decision
raise_decision w stage input = elim (find_open_decision w input) [
  | some open_row ↦ ok (attach_to_open_decision w stage open_row input)
  | none ↦ insert_decision w stage input
]
