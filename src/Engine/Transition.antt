-- ===== src/Engine/Transition.antt =====
-- The single door of every change of state: `applyTransition` and `dismissOpenDecisions` of
-- apps/orchestrator/src/engine.ts.
use specmate.Prelude.{
  ℕ, not, ◌++◌, map, filter, Option, none, some, String, ◌==◌, if◌then◌else◌, Result, ok, err,
  ◌>>=◌,
}
use specmate.Lifecycle.{TaskState, task_state_eq, waiting_human, failed, is_terminal}
use specmate.Pipeline.Nodes.{PinnedGraph}
use specmate.Pipeline.Walk.{can_transition}
use specmate.Decisions.{StoredDecision, dismissed, is_open}
use specmate.Engine.State.{
  World, Event, EventType, EngineError, illegal_transition, stale_transition, task_transitioned,
  task_parked, task_failed, decisions_dismissed, DismissCause, terminal, emit_event, rule,
}

-- `opts` of a transition, without the free payload.
pub record MoveOptions : Type 0 where
  pub cause : String
  pub actor : Option String
  pub resume : Option TaskState
  pub stage_id : Option ℕ

abbrev pub dismissed_row : String → ℕ → StoredDecision → StoredDecision
dismissed_row actor now d =
    if is_open d
    then record d { status = dismissed; answered_by = some actor; answered_at = some now }
    else d

abbrev pub dismissal : ℕ → DismissCause → StoredDecision → Event
dismissal now cause d = record {
  type = decisions_dismissed d.id cause;
  stage_id = d.stage_id;
  created_at = now;
}

-- `dismissOpenDecisions`.
unfoldable pub dismiss_open_decisions : World → String → DismissCause → World
dismiss_open_decisions w actor cause = record w {
  decisions = map (dismissed_row actor w.now) w.decisions;
  events = w.events ++ map (dismissal w.now cause) (filter is_open w.decisions);
}

abbrev pub move_event : TaskState → TaskState → MoveOptions → EventType
move_event source to opts =
    if to == failed
    then task_failed source to opts.cause opts.actor opts.resume
    else if to == waiting_human
    then task_parked source to opts.cause opts.actor opts.resume
    else task_transitioned source to opts.cause opts.actor opts.resume

abbrev or_system : Option String → String
or_system none = "system"
or_system (some actor) = actor

-- The write, the event, and the dismissal that a terminal status brings.
unfoldable pub moved : World → TaskState → TaskState → MoveOptions → World
unfolding dismiss_open_decisions
moved w source to opts =
    let written =
      emit_event (record w { task = record w.task { status = to; resume_status = opts.resume } })
        (move_event source to opts) opts.stage_id in
    if is_terminal to
    then dismiss_open_decisions written (or_system opts.actor) terminal
    else written

-- `applyTransition`, from the status that the caller observed.
unfoldable pub apply_transition :
    World → PinnedGraph → TaskState → TaskState → MoveOptions → Result EngineError World
unfolding moved
apply_transition w graph source to opts = rule (can_transition graph source to) >>= λ legal.
    if not legal
    then err (illegal_transition source to)
    else if not (w.task.status == source)
    then err (stale_transition source to)
    else ok (moved w source to opts)
