-- ===== src/Engine/Parks/Settles.antt =====
-- A stage of apps/orchestrator/src/engine.ts that parks its task leaves the task parked, with a
-- decision to answer and the node to resume in.
use specmate.Prelude.{
  ℕ, true, false, List, [], ◌∷◌, map, is_empty, Option, some, String, ok, ◌≡◌, ◌≢◌, refl, sym, ◌∙◌,
  subst, ap, Memᴰ, inl, inr, ◌⊎◌, beq_refl,
}
use specmate.Lifecycle.{TaskState, task_state_eq, waiting_human, is_terminal}
use specmate.Pipeline.Nodes.{PinnedGraph, StageNode, stage}
use specmate.Pipeline.Walk.{node_at, can_transition}
use specmate.Pipeline.Walk.Lookup.{keys_of, Distinct, keys_of-Memᴰ, node_at-Memᴰ}
use specmate.Pipeline.Advance.{
  ParkCause, needs_decision, RoundToRecord, RecordedRound, StageOutcomeSummary, park, advance,
}
use specmate.Pipeline.Advance.Moves.{advance-can_transition}
use specmate.Decisions.{DecisionInsert, blocking_open}
use specmate.Decisions.Escalation.{EscalationInput, escalation_for_park, escalation_evidence}
use specmate.Decisions.Escalation.Nonempty.{escalation_evidence-nonempty, advance-park}
use specmate.Engine.State.{World}
use specmate.Engine.Raise.{raise_decision}
use specmate.Engine.Raise.Unique.{AtMostOne, raise_decision-cases, raise_decision-AtMostOne}
use specmate.Engine.Raise.Outcome.{raise_decision-same, raise_decision-blocking_open}
use specmate.Engine.Transition.{moved, apply_transition}
use specmate.Engine.Settled.{Routes, IsSettled, moved-task, apply_transition-IsSettled}
use specmate.Engine.Parks.{raise_each, park_options, parks_at, park_stage}

-- Raising a decision never fails: a row that the insert would clash with is found first.
raise_decision-total :
    (w : World) (asker : Option ℕ) (input : DecisionInsert)
    → (after : World) × (raise_decision w asker input ≡ ok after)
raise_decision-total w asker input = elim (raise_decision-cases w asker input) [
  | inl (d, m, fits, e) ↦ (_, e)
  | inr (free, e) ↦ (_, e)
]

-- The same task, with an open decision that blocks it.
pub record Asks (w after : World) : Type 0 where
  pub task : after.task ≡ w.task
  pub graph : after.graph ≡ w.graph
  pub unique : AtMostOne after.decisions
  pub blocks : blocking_open after.decisions ≡ true

Asks-trans : (a b c : World) → (b.task ≡ a.task) × (b.graph ≡ a.graph) → Asks b c → Asks a c
Asks-trans a b c (task, graph) asks = record {
  task = asks.task ∙ task;
  graph = asks.graph ∙ graph;
  unique = asks.unique;
  blocks = asks.blocks;
}

-- Who is asked: an escalation is raised, or a decision is open already.
abbrev pub Demands : {A : Type 0} → List A → World → Type 0
Demands xs w = (is_empty xs ≡ false) ⊎ (blocking_open w.decisions ≡ true)

parks_at-moved :
    (v : World) (row : ℕ) (reason : ParkCause) (resume : TaskState)
    → can_transition v.graph v.task.status waiting_human ≡ ok true
    → parks_at v row reason resume
      ≡ ok (moved v v.task.status waiting_human (park_options row reason resume))
unfolding apply_transition
parks_at-moved v row reason resume legal = rw (legal, beq_refl v.task.status) refl

parks_at-IsSettled :
    (v : World) (row : ℕ) (reason : ParkCause) (resume : TaskState)
    → AtMostOne v.decisions
    → Routes v.graph
    → blocking_open v.decisions ≡ true
    → Memᴰ resume (keys_of v.graph.nodes)
    → can_transition v.graph v.task.status waiting_human ≡ ok true
    → (after : World) × (parks_at v row reason resume ≡ ok after)
      × (after.task.status ≡ waiting_human)
      × (after.task.resume_status ≡ some resume)
      × IsSettled after
parks_at-IsSettled v row reason resume one routes blocks key legal =
    let opts = park_options row reason resume in
    let (status, kept, _) = moved-task v v.task.status waiting_human opts in
    let moves = parks_at-moved v row reason resume legal in
    (
      moved v v.task.status waiting_human opts,
      moves,
      status,
      kept,
      apply_transition-IsSettled v (moved v v.task.status waiting_human opts) v.graph v.task.status
          waiting_human opts one routes (λ s. (resume, refl, key)) (λ e. blocks) moves,
    )

module _ (show : ℕ → String) (prompt : EscalationInput → String) where
  raise_each-Asks :
      (w : World) (asker : Option ℕ) (xs : List EscalationInput)
      → AtMostOne w.decisions
      → Demands xs w
      → (after : World) × (raise_each w asker (map (escalation_for_park show prompt) xs) ≡ ok after)
        × Asks w after
  unfolding escalation_for_park
  raise_each-Asks w asker [] one (inl more) = cc
  raise_each-Asks w asker [] one (inr blocks) =
      (w, refl, record { task = refl; graph = refl; unique = one; blocks = blocks })
  raise_each-Asks w asker (x ∷ xs) one demands =
      let input = escalation_for_park show prompt x in
      let (raised, e) = raise_decision-total w asker input in
      let (task, graph, _) = raise_decision-same w raised asker input e in
      let (after, rest, asks) =
        raise_each-Asks raised asker xs (raise_decision-AtMostOne w raised asker input one e)
          (inr (raise_decision-blocking_open w raised asker input refl e)) in
      (after, rw e rest, Asks-trans w raised after (task, graph) asks)

  demands :
      (w : World) (n : StageNode) (outcome : StageOutcomeSummary) (rounds : List RecordedRound)
      (reason : ParkCause) (resume : TaskState) (rec : Option RoundToRecord)
      → node_at w.graph w.task.status ≡ some (stage n)
      → advance w.graph w.task.status outcome rounds w.task.caps ≡ ok (park reason resume rec)
      → (reason ≢ needs_decision) ⊎ (blocking_open w.decisions ≡ true)
      → Demands (escalation_evidence reason n rec rounds w.task.caps) w
  demands w n outcome rounds reason resume rec at h (inl unasked) = inl (
      escalation_evidence-nonempty w.graph w.task.status n outcome rounds w.task.caps reason resume
        rec at h unasked)
  demands w n outcome rounds reason resume rec at h (inr blocks) = inr blocks

  -- A task stands at a stage of a graph with distinct keys that routes tasks, in a status that is not
  -- terminal, and no two of its open decisions share node and key. Where `advance` decides to park it,
  -- the park is never refused: the task then waits for the owner, resumes in the node of the stage,
  -- and is settled, so an open decision blocks it. Only a park that the agent asked for supposes that
  -- such a decision is open already.
  pub park_stage-IsSettled :
      (w : World) (row : ℕ) (n : StageNode) (outcome : StageOutcomeSummary)
      (rounds : List RecordedRound) (reason : ParkCause) (resume : TaskState)
      (rec : Option RoundToRecord)
      → Distinct (keys_of w.graph.nodes)
      → Routes w.graph
      → AtMostOne w.decisions
      → is_terminal w.task.status ≡ false
      → node_at w.graph w.task.status ≡ some (stage n)
      → advance w.graph w.task.status outcome rounds w.task.caps ≡ ok (park reason resume rec)
      → (reason ≢ needs_decision) ⊎ (blocking_open w.decisions ≡ true)
      → (after : World) × (park_stage show prompt w row n reason resume rec rounds ≡ ok after)
        × (after.task.status ≡ waiting_human)
        × (after.task.resume_status ≡ some w.task.status)
        × IsSettled after
  unfolding park_stage
  park_stage-IsSettled w row n outcome rounds reason resume rec distinct routes one live at h
        asked =
      let (m, k) = node_at-Memᴰ w.graph w.task.status at in
      let here =
        advance-park w.graph w.task.status n outcome rounds w.task.caps reason resume rec at h in
      let (raised, e, asks) =
        raise_each-Asks w (some row) (escalation_evidence reason n rec rounds w.task.caps) one
          (demands w n outcome rounds reason resume rec at h asked) in
      let (after, ends, status, kept, settled) =
        parks_at-IsSettled raised row reason resume asks.unique
          (subst (λ (g : PinnedGraph). Routes g) (sym asks.graph) routes) asks.blocks
          (rw (here, asks.graph)
            (subst (λ (s : TaskState). Memᴰ s (keys_of w.graph.nodes)) k
              (keys_of-Memᴰ (stage n) w.graph.nodes m)))
          (rw (asks.task, asks.graph)
            (advance-can_transition w.graph w.task.status outcome rounds w.task.caps
              (park reason resume rec) distinct live h)) in
      (after, rw e ends, status, kept ∙ ap some here, settled)
