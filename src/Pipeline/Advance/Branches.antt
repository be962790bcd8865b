-- ===== src/Pipeline/Advance/Branches.antt =====
-- When `advance` takes the loop edge, when it throws, and when it parks for the owner.
use specmate.Prelude.{
  ◌<◌, Bool, true, false, List, Option, none, some, ◌≡◌, ◌↔◌, ◌⊎◌, inl, inr, refl, arith, ◌&&◌,
  subst, ap, is_some, is_ok, ok, ltb_iff, Memᴰ,
}
use specmate.Lifecycle.{TaskState, Caps}
use specmate.Findings.{ReviewVerdict, approve, revise, escalate, ReviewFinding}
use specmate.Pipeline.Nodes.{
  LoopEdge, loop_cap, cap_of, PipelineNode, StageNode, stage, gate, action, PinnedGraph,
}
use specmate.Pipeline.Walk.{node_at, forward_target}
use specmate.Pipeline.Walk.Lookup.{keys_of, keys_of-Memᴰ, node_at-Memᴰ, forward_target_total}
use specmate.Pipeline.Advance.{
  StageOutcomeSummary, RecordedRound, RoundToRecord, AdvanceDecision, loop_to, park, needs_decision,
  or_empty, is_set, counted_rounds, is_stalled, used_rounds, record_of, advance_edge, advance_stage,
  dispatch, answer_verdict, advance,
}

-- What `advance` asks before it takes a loop edge once more.
pub record Loops (edge : LoopEdge) (outcome : StageOutcomeSummary) (rounds : List RecordedRound)
    (caps : Caps) : Type 0 where
  pub revised : outcome.verdict ≡ some revise
  pub unblocked : is_set outcome.has_blocking_decision ≡ false
  pub moving :
      is_stalled
        (or_empty outcome.findings)
        (counted_rounds edge.loop rounds)
        caps.repeated_finding_threshold
      ≡ false
  pub room : used_rounds edge.loop rounds < cap_of caps (loop_cap edge.loop)

module _ (graph : PinnedGraph) (key : TaskState) where
  edge_loops :
      (edge : LoopEdge) (v : Option ReviewVerdict) (b : Bool) (fs : List ReviewFinding)
      (rounds : List RecordedRound) (caps : Caps) (to : TaskState) (rec : RoundToRecord)
      → advance_edge graph key edge v b fs rounds caps ≡ ok (loop_to to rec)
      → (v ≡ some revise)
        × (b ≡ false)
        × (is_stalled fs (counted_rounds edge.loop rounds) caps.repeated_finding_threshold ≡ false)
        × (used_rounds edge.loop rounds < cap_of caps (loop_cap edge.loop))
        × (to ≡ edge.target)
        × (rec ≡ record_of edge revise fs rounds)
  unfolding advance_edge
  edge_loops edge none true fs rounds caps to rec h = cc
  edge_loops edge none false fs rounds caps to rec h = cc
  edge_loops edge (some v) true fs rounds caps to rec h = cc
  edge_loops edge (some approve) false fs rounds caps to rec h = ground arith
  edge_loops edge (some escalate) false fs rounds caps to rec h = cc
  edge_loops edge (some revise) false fs rounds caps to rec h = ground arith

  Loops-edge :
      (edge : LoopEdge) (outcome : StageOutcomeSummary) (rounds : List RecordedRound) (caps : Caps)
      → Loops edge outcome rounds caps
      → advance_edge graph key edge outcome.verdict
          (is_set outcome.has_blocking_decision)
          (or_empty outcome.findings)
          rounds
          caps
        ≡ ok (loop_to edge.target (record_of edge revise (or_empty outcome.findings) rounds))
  unfolding advance_edge
  Loops-edge edge outcome rounds caps l =
      rw (l.revised, l.unblocked, l.moving, (ltb_iff _ _).1 l.room, advance_edge, answer_verdict)

  dispatch_stage :
      (o : Option PipelineNode) (outcome : StageOutcomeSummary) (rounds : List RecordedRound)
      (caps : Caps) {d : AdvanceDecision}
      → dispatch graph key o outcome rounds caps ≡ ok d
      → (n : StageNode) × (o ≡ some (stage n))
        × (advance_stage graph key n outcome rounds caps ≡ ok d)
  dispatch_stage none outcome rounds caps h = cc
  dispatch_stage (some (stage n)) outcome rounds caps h = (n, refl, h)
  dispatch_stage (some (gate n)) outcome rounds caps h = cc
  dispatch_stage (some (action n)) outcome rounds caps h = cc

  -- A decision comes from the step of a stage of the graph.
  pub advance_of_stage :
      (outcome : StageOutcomeSummary) (rounds : List RecordedRound) (caps : Caps)
      {d : AdvanceDecision}
      → advance graph key outcome rounds caps ≡ ok d
      → (n : StageNode) × (node_at graph key ≡ some (stage n))
        × (advance_stage graph key n outcome rounds caps ≡ ok d)
  unfolding advance
  advance_of_stage outcome rounds caps h = dispatch_stage (node_at graph key) outcome rounds caps h

abbrev pub TakesLoop :
    PinnedGraph
    → TaskState
    → StageOutcomeSummary
    → List RecordedRound
    → Caps
    → TaskState
    → RoundToRecord
    → Type 0
TakesLoop graph key outcome rounds caps to rec =
    (n : StageNode) × (edge : LoopEdge) × (node_at graph key ≡ some (stage n))
    × (n.loop_edge ≡ some edge)
    × Loops edge outcome rounds caps
    × (to ≡ edge.target)
    × (rec ≡ record_of edge revise (or_empty outcome.findings) rounds)

module _ (graph : PinnedGraph) (key : TaskState) (outcome : StageOutcomeSummary)
    (rounds : List RecordedRound) (caps : Caps) where
  stage_loops :
      (n : StageNode) (e : Option LoopEdge) (to : TaskState) (rec : RoundToRecord)
      → n.loop_edge ≡ e
      → node_at graph key ≡ some (stage n)
      → advance_stage graph key n outcome rounds caps ≡ ok (loop_to to rec)
      → TakesLoop graph key outcome rounds caps to rec
  unfolding advance_stage
  stage_loops n none to rec le at h = absurd (ground arith)
  stage_loops n (some edge) to rec le at h =
      let (v, b, s, u, t, r) =
        edge_loops graph key edge outcome.verdict (is_set outcome.has_blocking_decision)
          (or_empty outcome.findings) rounds caps to rec (rw (le, advance_stage) at h) in
      (n, edge, at, le, record { revised = v; unblocked = b; moving = s; room = u }, t, r)

  -- `advance` goes round the loop exactly where its node has a loop edge, the verdict is revise, no
  -- blocking decision is open, no finding is stalled and the cap of the loop has room; it goes to
  -- the edge's target, with the round to record.
  pub advance-loop_to_iff :
      (to : TaskState) (rec : RoundToRecord)
      → (advance graph key outcome rounds caps ≡ ok (loop_to to rec))
        ↔ TakesLoop graph key outcome rounds caps to rec
  unfolding advance
  advance-loop_to_iff to rec = (
    λ h.
        let (n, at, st) = advance_of_stage graph key outcome rounds caps h in
        stage_loops n n.loop_edge to rec refl at st,
    λ (n, edge, at, le, l, t, r).
        rw (at, dispatch, le, advance_stage, t, r)
          (Loops-edge graph key edge outcome rounds caps l),
  )

-- A stage whose outcome `advance` can act on: it has no loop edge, or a verdict, or a decision that
-- blocks it.
abbrev pub IsAnswered : StageNode → StageOutcomeSummary → Type 0
IsAnswered n outcome =
    (n.loop_edge ≡ none)
    ⊎ ((is_some outcome.verdict ≡ true) ⊎ (is_set outcome.has_blocking_decision ≡ true))

IsAnswered-cast :
    {x y : StageNode} (outcome : StageOutcomeSummary)
    → x ≡ y
    → IsAnswered x outcome
    → IsAnswered y outcome
IsAnswered-cast outcome q a =
    subst
      (λ (le : Option LoopEdge).
        (le ≡ none)
        ⊎ ((is_some outcome.verdict ≡ true) ⊎ (is_set outcome.has_blocking_decision ≡ true)))
      (ap (λ (n : StageNode). n.loop_edge) q) a

module _ (graph : PinnedGraph) (key : TaskState) (outcome : StageOutcomeSummary)
    (rounds : List RecordedRound) (caps : Caps) where
  edge_answers :
      (edge : LoopEdge) (v : Option ReviewVerdict) (b : Bool) (fs : List ReviewFinding)
      {next : TaskState}
      → forward_target graph key ≡ ok next
      → (is_ok (advance_edge graph key edge v b fs rounds caps) ≡ true)
        ↔ ((is_some v ≡ true) ⊎ (b ≡ true))
  unfolding advance_edge
  edge_answers edge none true fs e = ground arith
  edge_answers edge none false fs e = ground arith
  edge_answers edge (some v) true fs e = ground arith
  edge_answers edge (some approve) false fs e = ground arith
  edge_answers edge (some escalate) false fs e = ground arith
  edge_answers edge (some revise) false fs e = ground arith

  stage_answers :
      (n : StageNode) (le : Option LoopEdge) {next : TaskState}
      → n.loop_edge ≡ le
      → forward_target graph key ≡ ok next
      → (is_ok (advance_stage graph key n outcome rounds caps) ≡ true) ↔ IsAnswered n outcome
  unfolding advance_stage
  stage_answers n none le e = (λ h. inl le, λ a. rw (le, advance_stage) (ground arith))
  stage_answers n (some edge) le e =
      let answers =
        edge_answers edge outcome.verdict (is_set outcome.has_blocking_decision)
          (or_empty outcome.findings) e in
      (
        λ h. inr (answers.0 (rw (le, advance_stage) at h)),
        λ a. rw (le, advance_stage) (answers.1 (elim a [ inl z ↦ cc | inr x ↦ x ])),
      )

  dispatch_answers :
      (o : Option PipelineNode)
      → node_at graph key ≡ o
      → (is_ok (dispatch graph key o outcome rounds caps) ≡ true)
        ↔ ((n : StageNode) × (o ≡ some (stage n)) × IsAnswered n outcome)
  dispatch_answers none at = (λ h. cc, λ (n, e, a). cc)
  dispatch_answers (some (gate n)) at = (λ h. cc, λ (m, e, a). cc)
  dispatch_answers (some (action n)) at = (λ h. cc, λ (m, e, a). cc)
  dispatch_answers (some (stage n)) at =
      let (m, k) = node_at-Memᴰ graph key at in
      let inside =
        subst (λ s. Memᴰ s (keys_of graph.nodes)) k (keys_of-Memᴰ (stage n) graph.nodes m) in
      let (next, e) = forward_target_total graph key inside in
      let answers = stage_answers n n.loop_edge refl e in
      (
        λ h. (n, refl, answers.0 h),
        λ (x, same, a). let q : x ≡ n = cc (same) in answers.1 (IsAnswered-cast outcome q a),
      )

  -- `advance` returns a decision exactly where the key is of a stage of the graph, and that stage has
  -- no loop edge, or returned a verdict, or was stopped by a blocking decision. It throws otherwise:
  -- silence is not approval.
  pub advance_ok_iff :
      (is_ok (advance graph key outcome rounds caps) ≡ true)
      ↔ ((n : StageNode) × (node_at graph key ≡ some (stage n)) × IsAnswered n outcome)
  unfolding advance
  advance_ok_iff = dispatch_answers (node_at graph key) refl

  -- A blocking decision parks the task at its node for the owner, whatever else the outcome says,
  -- and the round that it interrupted is on record exactly where there is a loop edge and a verdict.
  pub advance_blocked :
      (n : StageNode)
      → node_at graph key ≡ some (stage n)
      → is_set outcome.has_blocking_decision ≡ true
      → (rec : Option RoundToRecord) × (advance graph key outcome rounds caps
          ≡ ok (park needs_decision key rec))
        × (is_some rec ≡ (is_some n.loop_edge && is_some outcome.verdict))
  unfolding advance advance_stage advance_edge
  advance_blocked n at b = go n.loop_edge outcome.verdict refl refl
    where
      go :
          (le : Option LoopEdge) (v : Option ReviewVerdict)
          → n.loop_edge ≡ le
          → outcome.verdict ≡ v
          → (rec : Option RoundToRecord) × (advance graph key outcome rounds caps
              ≡ ok (park needs_decision key rec))
            × (is_some rec ≡ (is_some n.loop_edge && is_some outcome.verdict))
      go none v e f = (none, rw (at, dispatch, e, advance_stage, b), rw e)
      go (some edge) none e f = (none, rw (at, dispatch, e, f, b, advance_stage), rw (e, f))
      go (some edge) (some v) e f = (
        some (record_of edge v (or_empty outcome.findings) rounds),
        rw (at, dispatch, e, f, b, advance_stage),
        rw (e, f),
      )
