-- ===== src/Engine/Attempts.antt =====
-- The attempts of a stage: `claim`, `failAttempt`, `attemptHistory`, `capSpent` and
-- `releaseGuidance` of apps/orchestrator/src/engine.ts. The lock that `claim` tries is held: without
-- it nothing is claimed.
use specmate.Prelude.{
  ℕ, zero, suc, ◌+◌, Bool, true, false, not, ◌&&◌, ◌||◌, List, [], ◌∷◌, ◌++◌, map, filter, any,
  Option, none, some, String, ◌==◌, nat_eq, leb, if◌then◌else◌, Result, ok, ◌>>=◌,
}
use specmate.Lifecycle.{TaskState, task_state_eq, failed, Budgets}
use specmate.Roles.{ProviderId}
use specmate.Pipeline.Nodes.{PinnedGraph, StageNode}
use specmate.Budget.{Spend, BudgetKey}
use specmate.Failures.{is_retryable}
use specmate.Engine.State.{
  World, Event, EngineError, Stage, running, failed_run, interrupted, stage_row_status_eq, Feedback,
  intervention, feedback_kind_eq, FeedbackTarget, at_node, on_decision, task_restarted,
  stage_failed, emit_event,
}
use specmate.Engine.Transition.{apply_transition}
use specmate.Engine.Spending.{pause_for_exhausted_budget}

abbrev restart_time : Option ℕ → Event → Option ℕ
restart_time before e = elim e.type [ task_restarted to ↦ some e.created_at | _ ↦ before ]

last_restart_from : Option ℕ → List Event → Option ℕ
last_restart_from last [] = last
last_restart_from last (e ∷ es) = last_restart_from (restart_time last e) es

-- `lastRestartAt`.
unfoldable pub last_restart_at : List Event → Option ℕ
unfolding last_restart_from
last_restart_at events = last_restart_from none events

insert_attempt : Stage → List Stage → List Stage
insert_attempt row [] = row ∷ []
insert_attempt row (x ∷ rows) =
    let rest = insert_attempt row rows in
    if leb x.attempt row.attempt then row ∷ x ∷ rows else x ∷ rest

-- `orderBy(desc(stages.attempt))`.
latest_first : List Stage → List Stage
unfolding insert_attempt
latest_first [] = []
latest_first (row ∷ rows) = insert_attempt row (latest_first rows)

abbrev take {ℓ} : {A : Type ℓ} → ℕ → List A → List A
take zero xs = []
take (suc n) [] = []
take (suc n) (x ∷ xs) = x ∷ take n xs

abbrev pub of_node : ℕ → TaskState → Stage → Bool
of_node graph_id key row = row.graph_id == graph_id && row.node_key == key

-- `restartedAt && (!row.startedAt || row.startedAt <= restartedAt)`.
abbrev before_restart : Option ℕ → Option ℕ → Bool
before_restart none started = false
before_restart (some at_time) none = true
before_restart (some at_time) (some start) = leb start at_time

-- The loop of `attemptHistory`.
streak_of : Option ℕ → List Stage → ℕ
streak_of restarted [] = 0
streak_of restarted (row ∷ rows) =
    let more = suc (streak_of restarted rows) in
    if before_restart restarted row.started_at || not (row.status == failed_run) then 0 else more

-- The `limit`ed rows of the query.
trailing_attempts : World → ℕ → TaskState → ℕ → List Stage
unfolding latest_first
trailing_attempts w graph_id key attempt_cap =
    take attempt_cap (latest_first (filter (of_node graph_id key) w.stages))

-- `attemptHistory`: the streak, and the number of the next attempt, `lastAttempt + 1`.
unfoldable pub attempt_streak : World → ℕ → TaskState → ℕ → ℕ
unfolding streak_of trailing_attempts last_restart_at
attempt_streak w graph_id key attempt_cap =
    streak_of (last_restart_at w.events) (trailing_attempts w graph_id key attempt_cap)

abbrev next_after : List Stage → ℕ
next_after [] = 0
next_after (row ∷ rows) = row.attempt + 1

unfoldable pub next_attempt : World → ℕ → TaskState → ℕ → ℕ
unfolding trailing_attempts
next_attempt w graph_id key attempt_cap = next_after (trailing_attempts w graph_id key attempt_cap)

-- `capSpent`.
unfoldable pub cap_spent : World → ℕ → TaskState → ℕ → Bool
unfolding attempt_streak
cap_spent w graph_id key attempt_cap = leb attempt_cap (attempt_streak w graph_id key attempt_cap)

abbrev is_at : TaskState → FeedbackTarget → Bool
is_at key (at_node k) = k == key
is_at key (on_decision id) = false

abbrev is_free : Option ℕ → Bool
is_free none = true
is_free (some stage) = false

-- The guidance that a claimed run takes.
abbrev taken_by : ℕ → TaskState → Feedback → Feedback
taken_by id key f =
    if f.kind == intervention && (is_free f.consumed_by_stage_id && is_at key f.target)
    then record f { consumed_by_stage_id = some id }
    else f

abbrev held_by : ℕ → Option ℕ → Bool
held_by id none = false
held_by id (some stage) = stage == id

abbrev released_from : ℕ → Feedback → Feedback
released_from id f =
    if held_by id f.consumed_by_stage_id then record f { consumed_by_stage_id = none } else f

-- `releaseGuidance`.
unfoldable pub release_guidance : World → ℕ → World
release_guidance w id = record w { feedback = map (released_from id) w.feedback }

abbrev pub is_running : Stage → Bool
is_running row = row.status == running

-- The insert of `claim` and its guidance.
abbrev pub dispatched : World → ℕ → StageNode → ProviderId → ℕ → World
dispatched w graph_id node provider attempt_cap = record w {
  stages =
      w.stages
      ++ record {
        id = w.next_id;
        graph_id = graph_id;
        node_key = node.key;
        role = node.role;
        provider = provider;
        status = running;
        attempt = next_attempt w graph_id node.key attempt_cap;
        started_at = some w.now;
        finished_at = none;
        cost_usd = none;
      }
        ∷ [];
  feedback = map (taken_by w.next_id node.key) w.feedback;
  next_id = w.next_id + 1;
}

module _ (prompt : Spend → Budgets → List BudgetKey → String) where
  abbrev pub unless_paused :
      World → ℕ → StageNode → ProviderId → ℕ → Option World → Result EngineError World
  unless_paused w graph_id node provider attempt_cap (some stopped) = ok stopped
  unless_paused w graph_id node provider attempt_cap none =
      if leb attempt_cap (attempt_streak w graph_id node.key attempt_cap)
      then ok w
      else ok (dispatched w graph_id node provider attempt_cap)

  -- `claim`, of a candidate that was read with this graph.
  unfoldable pub claim :
      World → ℕ → PinnedGraph → StageNode → ProviderId → ℕ → Result EngineError World
  claim w graph_id graph node provider attempt_cap =
      if not (w.task.status == node.key)
      then ok w
      else if any is_running w.stages
      then ok w
      else pause_for_exhausted_budget prompt w graph >>= λ stopped.
          unless_paused w graph_id node provider attempt_cap stopped

-- What `failAttempt` writes into the row, where it is still running.
abbrev pub failed_row : ℕ → ℕ → Option ℕ → Stage → Stage
failed_row id now cost row =
    if row.id == id && is_running row
    then record row { status = failed_run; finished_at = some now; cost_usd = cost }
    else row

-- Late telemetry lands on an interrupted row.
abbrev pub late_cost : ℕ → Option ℕ → Stage → Stage
late_cost id cost row =
    if row.id == id && row.status == interrupted then record row { cost_usd = cost } else row

abbrev pub late_telemetry : World → ℕ → Option (Option ℕ) → World
late_telemetry w id none = w
late_telemetry w id (some cost) = record w { stages = map (late_cost id cost) w.stages }

abbrev reported : Option (Option ℕ) → Option ℕ
reported none = none
reported (some cost) = cost

-- The failed row, the guidance released and the event.
abbrev pub marked_failed : World → TaskState → Stage → String → Option (Option ℕ) → World
marked_failed w key row reason telemetry =
    emit_event
      (release_guidance
        (record w { stages = map (failed_row row.id w.now (reported telemetry)) w.stages }) row.id)
      (stage_failed key row.attempt reason) (some row.id)

abbrev pub is_live : ℕ → Stage → Bool
is_live id row = row.id == id && is_running row

-- `failAttempt`, less the discarding of the tree; `observed` is the status of the task that was read
-- with the graph before the lock, and `telemetry` the reported cost, where there is a report.
unfoldable pub fail_attempt :
    World
    → TaskState
    → ℕ
    → PinnedGraph
    → TaskState
    → Stage
    → String
    → Option (Option ℕ)
    → ℕ
    → Result EngineError World
unfolding cap_spent
fail_attempt w observed graph_id graph key row reason telemetry attempt_cap =
    let marked = marked_failed w key row reason telemetry in
    if not (any (is_live row.id) w.stages)
    then ok (late_telemetry w row.id telemetry)
    else if not (is_retryable reason) || cap_spent marked graph_id key attempt_cap
    then apply_transition marked graph observed failed
        (record { cause = reason; actor = none; resume = some key; stage_id = some row.id })
    else ok marked
