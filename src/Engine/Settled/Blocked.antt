-- ===== src/Engine/Settled/Blocked.antt =====
-- A blocked task whose blocker ended is settled after it: apps/orchestrator/src/engine.ts.
use specmate.Prelude.{
  Bool, true, false, not, none, String, string_eq, is_empty, if◌then◌else◌, ok, >>=-eq-ok,
  ok-injective, ◌≡◌, refl, sym, ◌∙◌, subst, ap, Bool-cases, inl, inr, beq_cases, clash,
}
use specmate.Lifecycle.{task_state_eq, same_state, blocked, waiting_human, is_terminal}
use specmate.Pipeline.Nodes.{PinnedGraph}
use specmate.Decisions.{blocking_open}
use specmate.Engine.State.{World, Task}
use specmate.Engine.Raise.{raise_decision}
use specmate.Engine.Raise.Unique.{AtMostOne, raise_decision-AtMostOne}
use specmate.Engine.Raise.Outcome.{raise_decision-same, raise_decision-blocking_open}
use specmate.Engine.Dependents.{
  without_blocker, parked_at_entry, release_dependent_task, blocker_lost, raise_dead_blocker,
}
use specmate.Engine.Settled.{
  is_stopped, Routes, IsSettled, apply_transition-IsSettled, apply_transition-moving,
}

-- A task in a status that neither stops nor ends is settled if its open decisions are unique.
pub moving-IsSettled :
    (w : World)
    → is_stopped w.task.status ≡ false
    → is_terminal w.task.status ≡ false
    → AtMostOne w.decisions
    → Routes w.graph
    → IsSettled w
unfolding same_state
moving-IsSettled w moving alive one routes = record {
  parked = λ e. clash (is_stopped w.task.status) (ap is_stopped e) moving;
  resumes = λ s. clash (is_stopped w.task.status) s moving;
  closed = λ t. clash (is_terminal w.task.status) t alive;
  unique = one;
  routes = routes;
}

pub blocked_moves : is_stopped blocked ≡ false
unfolding same_state
blocked_moves = refl

blocked_alive : is_terminal blocked ≡ false
unfolding is_terminal same_state
blocked_alive = refl

-- A task that is still blocked is settled.
blocked-IsSettled :
    (w : World) → w.task.status ≡ blocked → AtMostOne w.decisions → Routes w.graph → IsSettled w
blocked-IsSettled w e one routes =
    moving-IsSettled w (ap is_stopped e ∙ blocked_moves) (ap is_terminal e ∙ blocked_alive) one
      routes

parked_at_entry-IsSettled :
    (w after : World)
    → Routes w.graph
    → AtMostOne w.decisions
    → blocking_open w.decisions ≡ true
    → parked_at_entry w ≡ ok after
    → IsSettled after
parked_at_entry-IsSettled w after routes one blocks h =
    apply_transition-IsSettled w after w.graph w.task.status waiting_human _ one routes
      (λ s. (w.graph.entry, refl, routes.entry_key)) (λ e. blocks) h

-- The end of a blocker that succeeded leaves its dependent settled: still blocked, in its entry, or
-- parked with the decision that an earlier blocker left open.
pub release_dependent_task-IsSettled :
    (w after : World) (cleared : String)
    → IsSettled w
    → release_dependent_task w cleared ≡ ok after
    → IsSettled after
unfolding release_dependent_task
release_dependent_task-IsSettled w after cleared settled h =
    elim (beq_cases w.task.status blocked) [
      | inr (f, ne) ↦ subst (λ (u : World). IsSettled u) (ok-injective (rw f at h)) settled
      | inl (t, e) ↦ elim (Bool-cases (is_empty (without_blocker w cleared).task.blocked_by)) [
        | inr more ↦
            subst (λ (u : World). IsSettled u) (ok-injective (rw (t, more) at h))
              (blocked-IsSettled (without_blocker w cleared) e settled.unique settled.routes)
        | inl last ↦ elim (Bool-cases (blocking_open w.decisions)) [
          | inl blocks ↦
              parked_at_entry-IsSettled (without_blocker w cleared) after settled.routes
                settled.unique blocks (rw (t, last, blocks) at h)
          | inr free ↦
              apply_transition-moving (without_blocker w cleared) after w.graph w.task.status
                w.graph.entry _ settled.unique settled.routes
                (settled.routes.keys_move w.graph.entry settled.routes.entry_key)
                (rw (t, last, free) at h)
        ]
      ]
    ]

raised_dead-IsSettled :
    (w after : World) (last : Bool)
    → Routes w.graph
    → w.task.status ≡ blocked
    → AtMostOne w.decisions
    → blocking_open w.decisions ≡ true
    → (if not last then ok w else parked_at_entry w) ≡ ok after
    → IsSettled after
raised_dead-IsSettled w after false routes e one blocks h =
    subst (λ (u : World). IsSettled u) (ok-injective h) (blocked-IsSettled w e one routes)
raised_dead-IsSettled w after true routes e one blocks h =
    parked_at_entry-IsSettled w after routes one blocks h

-- The end of a blocker that did not succeed leaves its dependent settled, still blocked or parked
-- with an open blocking decision.
pub raise_dead_blocker-IsSettled :
    (w after : World) (dead : String)
    → IsSettled w
    → raise_dead_blocker w dead ≡ ok after
    → IsSettled after
unfolding raise_dead_blocker
raise_dead_blocker-IsSettled w after dead settled h = elim (beq_cases w.task.status blocked) [
  | inr (f, ne) ↦ subst (λ (u : World). IsSettled u) (ok-injective (rw f at h)) settled
  | inl (t, e) ↦
      let rest = without_blocker w dead in
      let (raised, made, ends) =
        >>=-eq-ok (raise_decision rest none (blocker_lost dead)) _ (rw t at h) in
      let (task, graph, _) = raise_decision-same rest raised none (blocker_lost dead) made in
      raised_dead-IsSettled raised after (is_empty rest.task.blocked_by)
        (subst (λ (g : PinnedGraph). Routes g) (sym graph) settled.routes)
        (ap (λ (k : Task). k.status) task ∙ e)
        (raise_decision-AtMostOne rest raised none (blocker_lost dead) settled.unique made)
        (raise_decision-blocking_open rest raised none (blocker_lost dead) refl made) ends
]
