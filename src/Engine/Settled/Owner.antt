-- ===== src/Engine/Settled/Owner.antt =====
-- The owner's operations leave a task settled: apps/orchestrator/src/engine.ts.
use specmate.Prelude.{
  true, false, List, [], ◌∷◌, map, filter, Option, none, some, String, ◌==◌, ok, >>=-eq-ok,
  ok-injective, refuse-eq-ok, require-eq-ok, err-eq-ok, leb, Memᴰ-cons, Memᴰ-append, ◌≡◌, refl, sym,
  subst, ap, arith, Memᴰ, Bool-cases, inl, inr, includes, includes-Memᴰ,
}
use specmate.Lifecycle.{TaskState, task_state_eq, same_state, failed, cancelled}
use specmate.Pipeline.Nodes.{
  PinnedGraph, GateNode, GateRedirect, PipelineNode, stage, gate, action, cap_of, rework_targets,
  key_of,
}
use specmate.Pipeline.Walk.{node_at, stage_node_keys, is_restartable, is_stage, redirect_targets}
use specmate.Pipeline.Walk.Lookup.{keys_of, node_at-Memᴰ}
use specmate.Pipeline.Walk.Restart.{is_restartable-FromOn}
use specmate.Engine.State.{World}
use specmate.Engine.Gates.{
  as_gate, at_gate, redirect, redirect_to, redirect_along, rework, restart, restart_after,
  or_target, skipped_nodes, count_redirects, restart_from, cancel,
}
use specmate.Engine.Settled.{is_stopped, Routes, IsSettled, apply_transition-moving}

as_gate-ok :
    (s : TaskState) (o : Option PipelineNode) (g : GateNode)
    → as_gate s o ≡ ok g
    → o ≡ some (gate g)
as_gate-ok s (some (gate n)) g h = ap (λ (x : GateNode). some (gate x)) (ok-injective h)
as_gate-ok s (some (stage n)) g h = cc
as_gate-ok s (some (action n)) g h = cc
as_gate-ok s none g h = cc

-- The gate that the task stands at is a node of the graph.
pub at_gate-Memᴰ : (w : World) (g : GateNode) → at_gate w ≡ ok g → Memᴰ (gate g) w.graph.nodes
unfolding at_gate
at_gate-Memᴰ w g h =
    (node_at-Memᴰ w.graph w.task.status
      (as_gate-ok w.task.status (node_at w.graph w.task.status) g h)).0

redirect_to-IsSettled :
    (w after : World) (g : GateNode) (edge : GateRedirect) (actor : String)
    (comment : Option String)
    → Routes w.graph
    → Memᴰ (gate g) w.graph.nodes
    → Memᴰ edge.target (redirect_targets g)
    → IsSettled w
    → redirect_to w g edge actor comment ≡ ok after
    → IsSettled after
unfolding redirect_to
redirect_to-IsSettled w after g edge actor comment routes m t settled h =
    let moving = routes.keys_move edge.target (routes.redirect_keys g edge.target m t) in
    let (_, unspent) = refuse-eq-ok (includes edge.target (skipped_nodes w)) _ _ h in
    let (_, move) =
      refuse-eq-ok (leb (cap_of w.task.caps edge.cap) (count_redirects w.events g.key)) _ _
        unspent in
    apply_transition-moving _ after w.graph w.task.status edge.target _ settled.unique routes moving
      move

cancelled_moves : is_stopped cancelled ≡ false
unfolding same_state
cancelled_moves = refl

redirected-IsSettled :
    (w after : World) (g : GateNode) (r : Option GateRedirect) (actor : String)
    (comment : Option String)
    → Routes w.graph
    → Memᴰ (gate g) w.graph.nodes
    → g.redirect ≡ r
    → IsSettled w
    → redirect_along w g actor comment r ≡ ok after
    → IsSettled after
redirected-IsSettled w after g none actor comment routes m e settled h = err-eq-ok _ _ h
redirected-IsSettled w after g (some edge) actor comment routes m e settled h =
    redirect_to-IsSettled w after g edge actor comment routes m (rw e (Memᴰ.head refl)) settled h

-- `redirect` leaves a settled task, at a node of the graph.
pub redirect-IsSettled :
    (w after : World) (actor : String) (comment : Option String)
    → IsSettled w
    → redirect w actor comment ≡ ok after
    → IsSettled after
unfolding redirect
redirect-IsSettled w after actor comment settled h =
    let (g, at, move) = >>=-eq-ok (at_gate w) _ h in
    redirected-IsSettled w after g g.redirect actor comment settled.routes (at_gate-Memᴰ w g at)
      refl settled move

-- `rework` leaves a settled task, at a node of the graph.
pub rework-IsSettled :
    (w after : World) (actor : String) (target : TaskState) (comment : Option String)
    → IsSettled w
    → rework w actor target comment ≡ ok after
    → IsSettled after
unfolding rework
rework-IsSettled w after actor target comment settled h =
    let (g, at, guarded) = >>=-eq-ok (at_gate w) _ h in
    let (declared, open_target) = require-eq-ok (includes target (rework_targets g)) _ _ guarded in
    let (_, move) = refuse-eq-ok (includes target (skipped_nodes w)) _ _ open_target in
    let key =
      settled.routes.rework_keys g target (at_gate-Memᴰ w g at)
        ((includes-Memᴰ target (rework_targets g)).0 declared) in
    apply_transition-moving _ after w.graph w.task.status target _ settled.unique settled.routes
      (settled.routes.keys_move target key) move

-- `cancel` leaves a settled task.
pub cancel-IsSettled :
    (w after : World) (actor : String) → IsSettled w → cancel w actor ≡ ok after → IsSettled after
unfolding cancel
cancel-IsSettled w after actor settled h =
    apply_transition-moving _ after w.graph w.task.status cancelled _ settled.unique settled.routes
      cancelled_moves h

stage_keys-Memᴰ :
    (s : TaskState) (ns : List PipelineNode)
    → Memᴰ s (map key_of (filter is_stage ns))
    → Memᴰ s (keys_of ns)
stage_keys-Memᴰ s [] m = m
stage_keys-Memᴰ s (n ∷ ns) m = elim (Bool-cases (is_stage n)) [
  | inl yes_stage ↦ ground (
    arith,
    stage_keys-Memᴰ s ns,
    Memᴰ-cons s (key_of n) (keys_of ns),
    Memᴰ-cons s (key_of n) (map key_of (filter is_stage ns)),
    yes_stage,
    m,
  )
  | inr no_stage ↦ Memᴰ.tail (stage_keys-Memᴰ s ns (rw no_stage at m))
]

-- What a restart may enter is a node of the graph.
pub is_restartable-Memᴰ :
    (graph : PinnedGraph) (target start : TaskState)
    → is_restartable graph target start ≡ true
    → Memᴰ target (keys_of graph.nodes)
unfolding stage_node_keys
is_restartable-Memᴰ graph target start h =
    let (earlier, later, e, _, _) = is_restartable-FromOn graph target start h in
    stage_keys-Memᴰ target graph.nodes (
      subst (λ (xs : List TaskState). Memᴰ target xs) (sym e)
        ((Memᴰ-append target earlier (target ∷ later)).1 (inr (Memᴰ.head refl))))

restarted-IsSettled :
    (w after : World) (resume : Option TaskState) (actor : String) (to : Option TaskState)
    → Routes w.graph
    → IsSettled w
    → restart_after w actor to resume ≡ ok after
    → IsSettled after
unfolding restart_from
restarted-IsSettled w after none actor to routes settled h = err-eq-ok _ _ h
restarted-IsSettled w after (some start) actor to routes settled h =
    let target = or_target start to in
    let (allowed, move) = require-eq-ok (is_restartable w.graph target start) _ _ h in
    apply_transition-moving _ after w.graph w.task.status target _ settled.unique routes
      (routes.keys_move target (is_restartable-Memᴰ w.graph target start allowed)) move

-- `restart` leaves a settled task, at a node of the graph.
pub restart-IsSettled :
    (w after : World) (actor : String) (to : Option TaskState)
    → IsSettled w
    → restart w actor to ≡ ok after
    → IsSettled after
unfolding restart
restart-IsSettled w after actor to settled h =
    let (_, entered) = require-eq-ok (w.task.status == failed) _ _ h in
    restarted-IsSettled w after w.task.resume_status actor to settled.routes settled entered
