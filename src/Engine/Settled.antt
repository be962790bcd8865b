-- ===== src/Engine/Settled.antt =====
-- What holds of a task between any two operations of apps/orchestrator/src/engine.ts: a parked task
-- has an open blocking decision and a state to resume in, and a terminal one leaves nothing open.
pub mod Owner
pub mod Decided
pub mod Blocked
pub mod Runs
pub mod Routed
use mathlib.Core.List.Memᴰ
use specmate.Prelude.{
  ℕ, Bool, true, false, not, ◌&&◌, ◌||◌, List, [], ◌∷◌, ◌++◌, map, any, filter, Option, none, some,
  String, ◌==◌, if◌then◌else◌, Result, ok, err, ◌>>=◌, >>=-eq-ok, ok-injective, guards-eq-ok, clash,
  ◌≡◌, refl, sym, ◌∙◌, subst, ap, arith, Memᴰ, discrete_beq, Bool-cases, beq_cases, beq_refl, inl,
  inr, ◌⊎◌, Result-cases,
}
use specmate.Lifecycle.{
  TaskState, task_state_eq, same_state, waiting_human, paused, failed, is_terminal,
}
use specmate.Pipeline.Nodes.{
  PinnedGraph, GateNode, StageNode, LoopEdge, PipelineNode, stage, gate, rework_targets,
}
use specmate.Pipeline.Walk.{can_transition, redirect_targets, WalkError}
use specmate.Pipeline.Walk.Lookup.{keys_of}
use specmate.Decisions.{
  StoredDecision, is_open, blocking_open, decision_status_eq, DecisionStatus-discrete,
}
use specmate.Engine.State.{World, EngineError, DismissCause, rule}
use specmate.Engine.Raise.Unique.{AtMostOne, AtMostOne-map, Keeps}
use specmate.Engine.Transition.{
  MoveOptions, moved, apply_transition, dismissed_row, dismiss_open_decisions,
}

-- The statuses that a task leaves for the state that it keeps.
abbrev pub is_stopped : TaskState → Bool
is_stopped s = s == waiting_human || (s == paused || s == failed)

-- The graph leads to no stopped status.
pub record Routes (graph : PinnedGraph) : Type 0 where
  pub keys_move : (s : TaskState) → Memᴰ s (keys_of graph.nodes) → is_stopped s ≡ false
  pub terminal_moves : is_stopped graph.terminal ≡ false
  pub entry_key : Memᴰ graph.entry (keys_of graph.nodes)
  pub approve_moves : (g : GateNode) → Memᴰ (gate g) graph.nodes → is_stopped g.approve ≡ false
  pub redirect_keys :
      (g : GateNode) (t : TaskState)
      → Memᴰ (gate g) graph.nodes
      → Memᴰ t (redirect_targets g)
      → Memᴰ t (keys_of graph.nodes)
  pub rework_keys :
      (g : GateNode) (t : TaskState)
      → Memᴰ (gate g) graph.nodes
      → Memᴰ t (rework_targets g)
      → Memᴰ t (keys_of graph.nodes)
  pub loop_keys :
      (n : StageNode) (edge : LoopEdge)
      → Memᴰ (stage n) graph.nodes
      → n.loop_edge ≡ some edge
      → Memᴰ edge.target (keys_of graph.nodes)

-- The state to resume in is a node of the graph.
abbrev pub ResumesIn : PinnedGraph → Option TaskState → Type 0
ResumesIn graph resume = (s : TaskState) × (resume ≡ some s) × Memᴰ s (keys_of graph.nodes)

pub record IsSettled (w : World) : Type 0 where
  pub parked : w.task.status ≡ waiting_human → blocking_open w.decisions ≡ true
  pub resumes : is_stopped w.task.status ≡ true → ResumesIn w.graph w.task.resume_status
  pub closed : is_terminal w.task.status ≡ true → any is_open w.decisions ≡ false
  pub unique : AtMostOne w.decisions
  pub routes : Routes w.graph

rule-eq-ok {ℓ} : {A : Type ℓ} (r : Result WalkError A) {a : A} → rule r ≡ ok a → r ≡ ok a
rule-eq-ok (ok a) h = ap ok (ok-injective h)
rule-eq-ok (err e) h = cc

-- What a transition that succeeded did.
pub apply_transition-moved :
    (w after : World) (graph : PinnedGraph) (source to : TaskState) (opts : MoveOptions)
    → apply_transition w graph source to opts ≡ ok after
    → (after ≡ moved w source to opts)
      × (w.task.status ≡ source)
      × (can_transition graph source to ≡ ok true)
unfolding apply_transition
apply_transition-moved w after graph source to opts h =
    let (legal, answered, rest) = >>=-eq-ok (rule (can_transition graph source to)) _ h in
    let (allowed, here, done) =
      guards-eq-ok legal (w.task.status == source) _ _ (moved w source to opts) rest in
    (
      sym done,
      (task_state_eq.beq_iff w.task.status source).0 here,
      subst (λ (b : Bool). can_transition graph source to ≡ ok b) allowed
          (rule-eq-ok (can_transition graph source to) answered),
    )

pub dismissed_row-Keeps : (actor : String) (now : ℕ) → Keeps (dismissed_row actor now)
dismissed_row-Keeps actor now d = elim (Bool-cases (is_open d)) [
  | inl opened ↦ (rw opened refl, rw opened refl, λ o. opened)
  | inr other ↦ (rw other refl, rw other refl, λ o. rw other at o)
]

dismissed_row-closed :
    (actor : String) (now : ℕ) (ds : List StoredDecision)
    → any is_open (map (dismissed_row actor now) ds) ≡ false
unfolding DecisionStatus-discrete discrete_beq
dismissed_row-closed actor now [] = refl
dismissed_row-closed actor now (d ∷ ds) = elim (Bool-cases (is_open d)) [
  | inl opened ↦ rw opened (dismissed_row-closed actor now ds)
  | inr other ↦ rw (other, other) (dismissed_row-closed actor now ds)
]

-- What the move leaves of the decisions.
moved-decisions :
    (w : World) (source to : TaskState) (opts : MoveOptions)
    → ((is_terminal to ≡ true)
        × (any is_open (moved w source to opts).decisions ≡ false)
        × (AtMostOne w.decisions → AtMostOne (moved w source to opts).decisions))
      ⊎ ((is_terminal to ≡ false) × ((moved w source to opts).decisions ≡ w.decisions))
unfolding moved
moved-decisions w source to opts = elim (Bool-cases (is_terminal to)) [
  | inl ends ↦ inl (
    ends,
    rw ends (dismissed_row-closed _ _ w.decisions),
    λ one. rw ends (AtMostOne-map (dismissed_row _ _) w.decisions (dismissed_row-Keeps _ _) one),
  )
  | inr goes ↦ inr (goes, rw goes refl)
]

pub moved-task :
    (w : World) (source to : TaskState) (opts : MoveOptions)
    → ((moved w source to opts).task.status ≡ to)
      × ((moved w source to opts).task.resume_status ≡ opts.resume)
      × ((moved w source to opts).graph ≡ w.graph)
unfolding moved
moved-task w source to opts = elim (Bool-cases (is_terminal to)) [
  | inl ends ↦ (rw ends refl, rw ends refl, rw ends refl)
  | inr goes ↦ (rw goes refl, rw goes refl, rw goes refl)
]

parks_alive : is_terminal waiting_human ≡ false
unfolding is_terminal same_state
parks_alive = refl

moved-ResumesIn :
    (w : World) (source to : TaskState) (opts : MoveOptions)
    → (is_stopped to ≡ true → ResumesIn w.graph opts.resume)
    → is_stopped (moved w source to opts).task.status ≡ true
    → ResumesIn (moved w source to opts).graph (moved w source to opts).task.resume_status
moved-ResumesIn w source to opts resumed s =
    let (at_to, with_resume, on_graph) = moved-task w source to opts in
    let (r, kept, key) = resumed (subst (λ (x : TaskState). is_stopped x ≡ true) at_to s) in
    (
      r,
      with_resume ∙ kept,
      subst (λ (g : PinnedGraph). Memᴰ r (keys_of g.nodes)) (sym on_graph) key,
    )

moved-IsSettled :
    (w : World) (source to : TaskState) (opts : MoveOptions)
    → AtMostOne w.decisions
    → Routes w.graph
    → (is_stopped to ≡ true → ResumesIn w.graph opts.resume)
    → (to ≡ waiting_human → blocking_open w.decisions ≡ true)
    → IsSettled (moved w source to opts)
moved-IsSettled w source to opts one routes resumed blocks =
    let (at_to, with_resume, on_graph) = moved-task w source to opts in
    elim (moved-decisions w source to opts) [
      | inl (ends, shut, still) ↦ record {
        parked = λ e. cc (ends, sym at_to ∙ e, parks_alive);
        resumes = moved-ResumesIn w source to opts resumed;
        closed = λ t. shut;
        unique = still one;
        routes = subst (λ (g : PinnedGraph). Routes g) (sym on_graph) routes;
      }
      | inr (goes, same) ↦ record {
        parked = λ e. rw same (blocks (sym at_to ∙ e));
        resumes = moved-ResumesIn w source to opts resumed;
        closed = λ t. cc (t, at_to, goes);
        unique = subst AtMostOne (sym same) one;
        routes = subst (λ (g : PinnedGraph). Routes g) (sym on_graph) routes;
      }
    ]

-- A task that moves is settled where it arrives: it needs a state to resume in where it stops, and
-- an open blocking decision where it parks.
pub apply_transition-IsSettled :
    (w after : World) (graph : PinnedGraph) (source to : TaskState) (opts : MoveOptions)
    → AtMostOne w.decisions
    → Routes w.graph
    → (is_stopped to ≡ true → ResumesIn w.graph opts.resume)
    → (to ≡ waiting_human → blocking_open w.decisions ≡ true)
    → apply_transition w graph source to opts ≡ ok after
    → IsSettled after
apply_transition-IsSettled w after graph source to opts one routes resumed blocks h =
    let (e, _, _) = apply_transition-moved w after graph source to opts h in
    subst (λ (u : World). IsSettled u) (sym e)
      (moved-IsSettled w source to opts one routes resumed blocks)

pub parking_stops : is_stopped waiting_human ≡ true
unfolding same_state
parking_stops = refl

-- A task that moves on to a status it does not stop in is settled there.
pub apply_transition-moving :
    (w after : World) (graph : PinnedGraph) (source to : TaskState) (opts : MoveOptions)
    → AtMostOne w.decisions
    → Routes w.graph
    → is_stopped to ≡ false
    → apply_transition w graph source to opts ≡ ok after
    → IsSettled after
apply_transition-moving w after graph source to opts one routes moving h =
    apply_transition-IsSettled w after graph source to opts one routes
      (λ s. clash (is_stopped to) s moving)
      (λ e. clash (is_stopped to) (ap is_stopped e ∙ parking_stops) moving) h
