-- ===== src/Engine/Settled/Decided.antt =====
-- Resolving a decision and approving a gate leave a task settled: apps/orchestrator/src/engine.ts.
use mathlib.Core.Option.{some-injective}
use specmate.Prelude.{
  ℕ, true, false, ◌&&◌, List, [], ◌∷◌, map, any, find?, Option, none, some, String, ◌==◌, nat_eq,
  ok, >>=-eq-ok, ok-injective, refuse-eq-ok, require-eq-ok, err-eq-ok, ◌≡◌, refl, sym, ◌∙◌, subst,
  arith, Bool-cases, beq_cases, inl, inr, &&-eq-true,
}
use specmate.Lifecycle.{TaskState, task_state_eq, waiting_human, is_terminal}
use specmate.Pipeline.Nodes.{PinnedGraph, GateNode}
use specmate.Decisions.{StoredDecision, is_open, blocking_open}
use specmate.Engine.State.{World, Task, emit_event, gate_approved, gate_approved_event}
use specmate.Engine.Raise.{coverage_decision_node_key, coverage_decision_key, same_open}
use specmate.Engine.Raise.Unique.{AtMostOne, AtMostOne-map, Keeps}
use specmate.Engine.Transition.{dismiss_open_decisions, dismissed_row}
use specmate.Engine.Resolve.{
  Resolution, ResolutionInput, by_answer, by_dismissal, is_dismissal, is_coverage_decision,
  is_budget_decision, resolved_row, with_feedback, resolution_event, closed, unpark, unpark_to,
  resolve_row, resolve_found, resolve_decision, resolve_answer_md, waive_harness_status,
  proceed_with, resolve_coverage_as_proceed, has_id,
}
use specmate.Engine.Gates.{at_gate, approve, settled_coverage}
use specmate.Engine.Settled.{
  is_stopped, Routes, ResumesIn, IsSettled, apply_transition-moving, dismissed_row-Keeps,
}
use specmate.Engine.Settled.Owner.{at_gate-Memᴰ}

any-is_open-map :
    (f : StoredDecision → StoredDecision) (ds : List StoredDecision)
    → Keeps f
    → any is_open ds ≡ false
    → any is_open (map f ds) ≡ false
any-is_open-map f [] keeps h = refl
any-is_open-map f (d ∷ ds) keeps h =
    let (_, _, opens) = keeps d in ground (arith, opens, any-is_open-map f ds keeps)

resolved_row-Keeps :
    (id : ℕ) (how : Resolution) (answer : Option String) (actor : String) (now : ℕ)
    → Keeps (resolved_row id how answer actor now)
resolved_row-Keeps id how answer actor now d = elim (Bool-cases (d.id == id && is_open d)) [
  | inl this ↦ (rw this refl, rw this refl, λ o. ((&&-eq-true (d.id == id) (is_open d)).0 this).1)
  | inr other ↦ (rw other refl, rw other refl, λ o. rw other at o)
]

with_feedback-same :
    (w : World) (id : ℕ) (how : Resolution) (answer : Option String) (stage : Option ℕ)
    → ((with_feedback w id how answer stage).task ≡ w.task)
      × ((with_feedback w id how answer stage).graph ≡ w.graph)
      × ((with_feedback w id how answer stage).decisions ≡ w.decisions)
with_feedback-same w id by_answer answer (some stage) = (refl, refl, refl)
with_feedback-same w id by_answer answer none = (refl, refl, refl)
with_feedback-same w id by_dismissal answer stage = (refl, refl, refl)

resolution_event-same :
    (w : World) (d : StoredDecision) (how : Resolution)
    → ((resolution_event w d how).task ≡ w.task)
      × ((resolution_event w d how).graph ≡ w.graph)
      × ((resolution_event w d how).decisions ≡ w.decisions)
resolution_event-same w d by_answer = (refl, refl, refl)
resolution_event-same w d by_dismissal = (refl, refl, refl)

-- A settled task, less the decision that it may be parked on.
record IsHeld (w : World) : Type 0 where
  resumes : is_stopped w.task.status ≡ true → ResumesIn w.graph w.task.resume_status
  shut : is_terminal w.task.status ≡ true → any is_open w.decisions ≡ false
  unique : AtMostOne w.decisions
  routes : Routes w.graph

held-IsSettled :
    (w : World)
    → IsHeld w
    → (w.task.status ≡ waiting_human → blocking_open w.decisions ≡ true)
    → IsSettled w
held-IsSettled w held blocks = record {
  parked = blocks;
  resumes = held.resumes;
  closed = held.shut;
  unique = held.unique;
  routes = held.routes;
}

unpark_to-IsSettled :
    (w after : World) (how : Resolution) (actor : String) (resume : Option TaskState)
    → IsHeld w
    → ResumesIn w.graph resume
    → unpark_to w how actor resume ≡ ok after
    → IsSettled after
unpark_to-IsSettled w after how actor none held there h = err-eq-ok _ _ h
unpark_to-IsSettled w after how actor (some to) held (s, e, key) h =
    apply_transition-moving _ after w.graph w.task.status to _ held.unique held.routes
      (held.routes.keys_move to (rw (some-injective to s e) key)) h

unpark-IsSettled :
    (w after : World) (how : Resolution) (actor : String)
    → IsHeld w
    → unpark w how actor ≡ ok after
    → IsSettled after
unfolding unpark
unpark-IsSettled w after how actor held h = elim (beq_cases w.task.status waiting_human) [
  | inr (f, ne) ↦
      subst (λ (u : World). IsSettled u) (ok-injective (rw f at h))
        (held-IsSettled w held (λ e. absurd (ne e)))
  | inl (t, e) ↦ elim (Bool-cases (blocking_open w.decisions)) [
    | inl blocked_still ↦
        subst (λ (u : World). IsSettled u) (ok-injective (rw (t, blocked_still) at h))
          (held-IsSettled w held (λ p. blocked_still))
    | inr none_left ↦
        unpark_to-IsSettled w after how actor w.task.resume_status held (held.resumes (rw t refl))
          (rw (t, none_left) at h)
  ]
]

rows-IsHeld :
    (u w : World) (f : StoredDecision → StoredDecision)
    → Keeps f
    → (u.task ≡ w.task) × (u.graph ≡ w.graph) × (u.decisions ≡ map f w.decisions)
    → Routes w.graph
    → IsSettled w
    → IsHeld u
rows-IsHeld u w f keeps (task, graph, decisions) routes settled = record {
  resumes = λ s.
      rw (task, graph) (settled.resumes (subst (λ (k : Task). is_stopped k.status ≡ true) task s));
  shut = λ t. rw decisions (
      any-is_open-map f w.decisions keeps
        (settled.closed (subst (λ (k : Task). is_terminal k.status ≡ true) task t)));
  unique = rw decisions (AtMostOne-map f w.decisions keeps settled.unique);
  routes = rw graph routes;
}

closed-IsHeld :
    (w : World) (d : StoredDecision) (how : Resolution) (actor : String) (answer : Option String)
    → Routes w.graph
    → IsSettled w
    → IsHeld (closed w d how actor answer)
closed-IsHeld w d how actor answer routes settled =
    let f = resolved_row d.id how answer actor w.now in
    let rows = record w { decisions = map f w.decisions } in
    let (t, g, ds) = with_feedback-same rows d.id how answer d.stage_id in
    let (t', g', ds') =
      resolution_event-same (with_feedback rows d.id how answer d.stage_id) d how in
    rows-IsHeld (closed w d how actor answer) w f (resolved_row-Keeps d.id how answer actor w.now)
      (t' ∙ t, g' ∙ g, ds' ∙ ds) routes settled

-- What an approval needs of the world in which the coverage decision is resolved.
abbrev Kept : World → Type 0
Kept w = AtMostOne w.decisions × Routes w.graph

waive_harness_status-same :
    (w : World)
    → ((waive_harness_status w).decisions ≡ w.decisions)
      × ((waive_harness_status w).graph ≡ w.graph)
unfolding waive_harness_status
waive_harness_status-same w = ground arith

waived-Kept : (w : World) → IsSettled w → Kept (waive_harness_status w)
waived-Kept w settled =
    let (rows, graph) = waive_harness_status-same w in
    (
      subst AtMostOne (sym rows) settled.unique,
      subst (λ (g : PinnedGraph). Routes g) (sym graph) settled.routes,
    )

dismiss-AtMostOne :
    (w : World) (actor : String)
    → AtMostOne w.decisions
    → AtMostOne (dismiss_open_decisions w actor gate_approved).decisions
unfolding dismiss_open_decisions
dismiss-AtMostOne w actor one =
    AtMostOne-map (dismissed_row actor w.now) w.decisions (dismissed_row-Keeps actor w.now) one

module _ (trim : String → String) where
  resolve_row-IsSettled :
      (w after : World) (d : StoredDecision) (actor : String) (how : Resolution)
      (input : ResolutionInput)
      → Routes w.graph
      → IsSettled w
      → resolve_row trim w d actor how input ≡ ok after
      → IsSettled after
  unfolding resolve_row
  resolve_row-IsSettled w after d actor how input routes settled h =
      let (_, closable) = require-eq-ok (is_open d) _ _ h in
      let (_, plain) = refuse-eq-ok (is_dismissal how && is_coverage_decision d) _ _ closable in
      let (_, done) = refuse-eq-ok (is_dismissal how && is_budget_decision d) _ _ plain in
      let answer = resolve_answer_md trim input d.options in
      unpark-IsSettled (closed w d how actor answer) after how actor
        (closed-IsHeld w d how actor answer routes settled) done

  resolve_found-IsSettled :
      (w after : World) (id : ℕ) (actor : String) (how : Resolution) (input : ResolutionInput)
      (o : Option StoredDecision)
      → Routes w.graph
      → IsSettled w
      → resolve_found trim w id actor how input o ≡ ok after
      → IsSettled after
  resolve_found-IsSettled w after id actor how input none routes settled h = err-eq-ok _ _ h
  resolve_found-IsSettled w after id actor how input (some d) routes settled h =
      resolve_row-IsSettled w after d actor how input routes settled h

  -- Resolving a decision leaves a settled task: a parked one keeps another open blocking decision, or
  -- it is back in the state that it kept.
  pub resolve_decision-IsSettled :
      (w after : World) (id : ℕ) (actor : String) (how : Resolution) (input : ResolutionInput)
      → IsSettled w
      → resolve_decision trim w id actor how input ≡ ok after
      → IsSettled after
  unfolding resolve_decision
  resolve_decision-IsSettled w after id actor how input settled h =
      resolve_found-IsSettled w after id actor how input (find? (has_id id) w.decisions)
        settled.routes settled h

  proceed_with-Kept :
      (w after : World) (actor : String) (o : Option StoredDecision)
      → Routes w.graph
      → IsSettled w
      → proceed_with trim w actor o ≡ ok after
      → Kept after
  proceed_with-Kept w after actor none routes settled h =
      subst (λ (u : World). Kept u) (ok-injective h) (settled.unique, settled.routes)
  proceed_with-Kept w after actor (some d) routes settled h =
      let (middle, answered, waived) =
        >>=-eq-ok
          (resolve_decision trim w d.id actor by_answer
            (record { text = none; option_id = some "proceed" }))
          _ h in
      subst (λ (u : World). Kept u) (ok-injective waived)
        (waived-Kept middle
          (resolve_decision-IsSettled w middle d.id actor by_answer _ settled answered))

  settled_coverage-Kept :
      (w after : World) (g : GateNode) (actor : String)
      → Routes w.graph
      → IsSettled w
      → settled_coverage trim w g actor ≡ ok after
      → Kept after
  unfolding resolve_coverage_as_proceed
  settled_coverage-Kept w after g actor routes settled h =
      elim (Bool-cases (g.key == coverage_decision_node_key)) [
        | inl here ↦
            proceed_with-Kept w after actor
              (find? (same_open coverage_decision_node_key coverage_decision_key) w.decisions)
              routes settled (rw here at h)
        | inr elsewhere ↦
            subst (λ (u : World). Kept u) (ok-injective (rw elsewhere at h))
              (settled.unique, settled.routes)
      ]

  -- `approve` leaves a settled task.
  pub approve-IsSettled :
      (w after : World) (actor : String)
      → IsSettled w
      → approve trim w actor ≡ ok after
      → IsSettled after
  unfolding approve dismiss_open_decisions
  approve-IsSettled w after actor settled h =
      let (g, at, rest) = >>=-eq-ok (at_gate w) _ h in
      let noted = emit_event w (gate_approved_event g.key g.approve) none in
      let (middle, answered, move) = >>=-eq-ok (settled_coverage trim noted g actor) _ rest in
      let (one, routes) =
        settled_coverage-Kept noted middle g actor settled.routes
          (record {
            parked = settled.parked;
            resumes = settled.resumes;
            closed = settled.closed;
            unique = settled.unique;
            routes = settled.routes;
          })
          answered in
      apply_transition-moving (dismiss_open_decisions middle actor gate_approved) after w.graph
        w.task.status g.approve _ (dismiss-AtMostOne middle actor one) routes
        (settled.routes.approve_moves g (at_gate-Memᴰ w g at)) move
