-- ===== src/Pipeline/Advance/Records.antt =====
-- The round that a decision of `advance` puts on record.
use specmate.Prelude.{Bool, true, false, List, Option, none, some, ◌≡◌, refl, arith, ok}
use specmate.Lifecycle.{TaskState, Caps}
use specmate.Findings.{ReviewVerdict, approve, revise, escalate, ReviewFinding}
use specmate.Pipeline.Nodes.{LoopEdge, StageNode, stage, PinnedGraph}
use specmate.Pipeline.Walk.{node_at}
use specmate.Pipeline.Advance.{
  StageOutcomeSummary, RecordedRound, RoundToRecord, AdvanceDecision, loop_to, advance_to, park,
  or_empty, is_set, record_of, advance_edge, advance_stage, advance,
}
use specmate.Pipeline.Advance.Branches.{advance_of_stage}

abbrev pub record_in : AdvanceDecision → Option RoundToRecord
record_in (advance_to to rec) = rec
record_in (loop_to to rec) = some rec
record_in (park cause resume rec) = rec

module _ (graph : PinnedGraph) (key : TaskState) (outcome : StageOutcomeSummary)
    (rounds : List RecordedRound) (caps : Caps) where
  edge_record :
      (edge : LoopEdge) (v : Option ReviewVerdict) (b : Bool) (fs : List ReviewFinding)
      (d : AdvanceDecision) (rec : RoundToRecord)
      → advance_edge graph key edge v b fs rounds caps ≡ ok d
      → record_in d ≡ some rec
      → (verdict : ReviewVerdict) × (v ≡ some verdict) × (rec ≡ record_of edge verdict fs rounds)
  unfolding advance_edge
  edge_record edge none true fs d rec h r = absurd (ground arith)
  edge_record edge none false fs d rec h r = cc
  edge_record edge (some v) true fs d rec h r = (v, refl, ground arith)
  edge_record edge (some approve) false fs d rec h r = (approve, refl, ground arith)
  edge_record edge (some escalate) false fs d rec h r = (escalate, refl, ground arith)
  edge_record edge (some revise) false fs d rec h r = (revise, refl, ground arith)

  stage_record :
      (n : StageNode) (le : Option LoopEdge) (d : AdvanceDecision) (rec : RoundToRecord)
      → n.loop_edge ≡ le
      → advance_stage graph key n outcome rounds caps ≡ ok d
      → record_in d ≡ some rec
      → (edge : LoopEdge) × (verdict : ReviewVerdict) × (n.loop_edge ≡ some edge)
        × (outcome.verdict ≡ some verdict)
        × (rec ≡ record_of edge verdict (or_empty outcome.findings) rounds)
  unfolding advance_stage
  stage_record n none d rec le h r = absurd (ground arith)
  stage_record n (some edge) d rec le h r =
      let (v, e, same) =
        edge_record edge outcome.verdict (is_set outcome.has_blocking_decision)
          (or_empty outcome.findings) d rec (rw (le, advance_stage) at h) r in
      (edge, v, le, e, same)

  -- Whatever the decision, a round that it puts on record is of the loop of the node's edge, has the
  -- outcome's verdict and findings, and the number after the last one of that loop.
  pub advance_record :
      (d : AdvanceDecision) (rec : RoundToRecord)
      → advance graph key outcome rounds caps ≡ ok d
      → record_in d ≡ some rec
      → (n : StageNode) × (edge : LoopEdge) × (verdict : ReviewVerdict) × (node_at graph key
          ≡ some (stage n))
        × (n.loop_edge ≡ some edge)
        × (outcome.verdict ≡ some verdict)
        × (rec ≡ record_of edge verdict (or_empty outcome.findings) rounds)
  advance_record d rec h r =
      let (n, at, st) = advance_of_stage graph key outcome rounds caps h in
      let (edge, v, le, e, same) = stage_record n n.loop_edge d rec refl st r in
      (n, edge, v, at, le, e, same)
