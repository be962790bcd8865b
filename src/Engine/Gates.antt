-- ===== src/Engine/Gates.antt =====
-- The owner's operations at a gate and on a task that stopped: `approve`, `redirect`, `rework`,
-- `restart` and `cancel` of apps/orchestrator/src/engine.ts.
use specmate.Prelude.{
  ℕ, suc, Bool, false, not, List, [], ◌∷◌, ◌++◌, filter, length, includes, Option, none, some,
  String, ◌==◌, nat_eq, leb, if◌then◌else◌, Result, ok, err, ◌>>=◌,
}
use specmate.Lifecycle.{TaskState, task_state_eq, failed, cancelled}
use specmate.Pipeline.Nodes.{PipelineNode, gate, GateNode, GateRedirect, rework_targets, cap_of}
use specmate.Pipeline.Walk.{node_at, is_restartable}
use specmate.Engine.State.{
  World, Event, EngineError, not_at_gate, no_gate_edge, skipped_target, rework_target,
  redirect_cap_exhausted, not_restartable, no_resume_state, restart_target, FeedbackKind,
  redirect_feedback, rework_feedback, at_node, gate_approved_event, gate_redirected, gate_reworked,
  task_restarted, task_cancelled, stage_skipped, gate_approved, emit_event,
}
use specmate.Engine.Raise.{coverage_decision_node_key}
use specmate.Engine.Transition.{MoveOptions, apply_transition, dismiss_open_decisions}
use specmate.Engine.Resolve.{resolve_coverage_as_proceed}

abbrev pub as_gate : TaskState → Option PipelineNode → Result EngineError GateNode
as_gate status (some (gate n)) = ok n
as_gate status _ = err (not_at_gate status)

-- `atGate`.
unfoldable pub at_gate : World → Result EngineError GateNode
at_gate w = as_gate w.task.status (node_at w.graph w.task.status)

abbrev pub by_actor : String → String → MoveOptions
by_actor cause actor = record { cause = cause; actor = some actor; resume = none; stage_id = none }

abbrev skipped_in : ℕ → List Event → List TaskState
skipped_in graph [] = []
skipped_in graph (e ∷ es) = elim e.type [
  | stage_skipped node g ↦ if g == graph then node ∷ skipped_in graph es else skipped_in graph es
  | _ ↦ skipped_in graph es
]

-- `skippedNodes`.
unfoldable pub skipped_nodes : World → List TaskState
skipped_nodes w = skipped_in w.graph_id w.events

abbrev pub is_redirect_of : TaskState → Event → Bool
is_redirect_of key e = elim e.type [ gate_redirected g to round ↦ g == key | _ ↦ false ]

-- `countRedirects`.
unfoldable pub count_redirects : List Event → TaskState → ℕ
count_redirects events key = length (filter (is_redirect_of key) events)

abbrev or_text : Option String → String
or_text none = ""
or_text (some text) = text

-- The insert of a gate action's feedback.
abbrev with_comment : World → FeedbackKind → Option String → TaskState → World
with_comment w kind comment target = record w {
  feedback =
      w.feedback
      ++ record {
        kind = kind;
        text_md = or_text comment;
        stage_id = none;
        role = none;
        provider = none;
        target = at_node target;
        consumed_by_stage_id = none;
      }
        ∷ [];
}

module _ (trim : String → String) where
  abbrev pub settled_coverage : World → GateNode → String → Result EngineError World
  settled_coverage w g actor =
      if g.key == coverage_decision_node_key then resolve_coverage_as_proceed trim w actor else ok w

  -- `approve`, without the release of the dependents, a transaction of its own.
  unfoldable pub approve : World → String → Result EngineError World
  unfolding at_gate
  approve w actor = at_gate w >>= λ g.
      settled_coverage (emit_event w (gate_approved_event g.key g.approve) none) g actor
      >>= λ answered_world.
          apply_transition (dismiss_open_decisions answered_world actor gate_approved) w.graph
            w.task.status g.approve (by_actor "approve" actor)

unfoldable pub redirect_to :
    World → GateNode → GateRedirect → String → Option String → Result EngineError World
unfolding skipped_nodes count_redirects
redirect_to w g edge actor comment =
    let used = count_redirects w.events g.key in
    let limit = cap_of w.task.caps edge.cap in
    if includes edge.target (skipped_nodes w)
    then err (skipped_target g.key edge.target)
    else if leb limit used
    then err (redirect_cap_exhausted g.key edge.cap limit)
    else apply_transition
        (emit_event (with_comment w redirect_feedback comment g.key)
          (gate_redirected g.key edge.target (suc used)) none)
        w.graph w.task.status edge.target (by_actor "redirect" actor)

abbrev pub redirect_along :
    World → GateNode → String → Option String → Option GateRedirect → Result EngineError World
redirect_along w g actor comment none = err (no_gate_edge g.key)
redirect_along w g actor comment (some edge) = redirect_to w g edge actor comment

-- `redirect`.
unfoldable pub redirect : World → String → Option String → Result EngineError World
unfolding at_gate
redirect w actor comment = at_gate w >>= λ g. redirect_along w g actor comment g.redirect

-- `rework`.
unfoldable pub rework : World → String → TaskState → Option String → Result EngineError World
unfolding at_gate skipped_nodes
rework w actor target comment = at_gate w >>= λ g.
    if not (includes target (rework_targets g))
    then err (rework_target g.key target)
    else if includes target (skipped_nodes w)
    then err (skipped_target g.key target)
    else apply_transition
        (emit_event (with_comment w rework_feedback comment target) (gate_reworked g.key target)
          none)
        w.graph w.task.status target (by_actor "rework" actor)

abbrev pub or_target : TaskState → Option TaskState → TaskState
or_target start none = start
or_target start (some to) = to

unfoldable pub restart_from : World → TaskState → String → TaskState → Result EngineError World
restart_from w failed_at actor target =
    if not (is_restartable w.graph target failed_at)
    then err (restart_target target failed_at)
    else apply_transition (emit_event w (task_restarted target) none) w.graph w.task.status target
        (by_actor "restart" actor)

abbrev pub restart_after :
    World → String → Option TaskState → Option TaskState → Result EngineError World
restart_after w actor to none = err no_resume_state
restart_after w actor to (some start) = restart_from w start actor (or_target start to)

-- `restart`.
unfoldable pub restart : World → String → Option TaskState → Result EngineError World
restart w actor to =
    if not (w.task.status == failed)
    then err (not_restartable w.task.status)
    else restart_after w actor to w.task.resume_status

-- `cancelInTx`.
unfoldable pub cancel : World → String → Result EngineError World
cancel w actor =
    apply_transition (emit_event w task_cancelled none) w.graph w.task.status cancelled
      (by_actor "cancel" actor)
