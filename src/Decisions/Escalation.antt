-- ===== src/Decisions/Escalation.antt =====
-- The escalations for a park that no agent asked for: `escalationForPark` of
-- packages/core/src/decisions.ts, and `escalationEvidence` of apps/orchestrator/src/engine.ts. The
-- text of a number is the platform's, and the prompt is given.
pub mod Nonempty
use specmate.Prelude.{
  ℕ, Bool, true, ◌&&◌, List, [], ◌∷◌, map, filter, Option, none, some, String, concat,
}
use specmate.Lifecycle.{TaskState, Caps}
use specmate.Findings.{ReviewVerdict, ReviewFinding}
use specmate.Pipeline.Nodes.{LoopKind, spec, impl, LoopEdge, StageNode, loop_cap, cap_of}
use specmate.Pipeline.Advance.{
  ParkCause, escalate_cause, repeated_finding, cap_exhausted, needs_decision, RoundToRecord,
  RecordedRound, StalledFinding, stalled_findings, in_loop, is_counted,
}
use specmate.Decisions.{DecisionInsert, escalation}

-- `EscalationInput`: the node, the loop and the round, with the evidence of each cause.
pub data EscalationInput : Type 0 where
  escalated :
      (node_key : TaskState) (loop : LoopKind) (round : ℕ) (verdict : ReviewVerdict)
      (findings : List ReviewFinding)
      → EscalationInput
  capped : (node_key : TaskState) (loop : LoopKind) (round loop_cap : ℕ) → EscalationInput
  repeated :
      (node_key : TaskState) (loop : LoopKind) (round : ℕ) (finding : StalledFinding)
      → EscalationInput

abbrev loop_text : LoopKind → String
loop_text spec = "spec"
loop_text impl = "impl"

abbrev pub node_of : EscalationInput → TaskState
node_of (escalated node loop round verdict findings) = node
node_of (capped node loop round bound) = node
node_of (repeated node loop round finding) = node

module _ (show : ℕ → String) (prompt : EscalationInput → String) where
  -- `escalationKey`.
  unfoldable pub escalation_key : EscalationInput → String
  escalation_key (escalated node loop round verdict findings) =
      concat ("escalate:" ∷ loop_text loop ∷ ":" ∷ show round ∷ [])
  escalation_key (capped node loop round bound) =
      concat ("cap:" ∷ loop_text loop ∷ ":" ∷ show round ∷ [])
  escalation_key (repeated node loop round finding) =
      concat ("repeat:" ∷ finding.id ∷ ":" ∷ loop_text loop ∷ ":" ∷ show round ∷ [])

  -- `escalationForPark`.
  unfoldable pub escalation_for_park : EscalationInput → DecisionInsert
  unfolding escalation_key
  escalation_for_park input = record {
    node_key = node_of input;
    key = escalation_key input;
    kind = escalation;
    prompt_md = prompt input;
    options = [];
    blocking = true;
  }

abbrev pub repeats : TaskState → LoopKind → ℕ → StalledFinding → EscalationInput
repeats key loop round finding = repeated key loop round finding

-- The evidence of a cause for a round that is on record; a request of the agent needs none.
abbrev pub evidence_of :
    ParkCause
    → TaskState
    → LoopKind
    → RoundToRecord
    → List RecordedRound
    → Caps
    → List EscalationInput
evidence_of escalate_cause key loop rec rounds caps =
    escalated key loop rec.round rec.verdict rec.findings ∷ []
evidence_of cap_exhausted key loop rec rounds caps =
    capped key loop rec.round (cap_of caps (loop_cap loop)) ∷ []
evidence_of repeated_finding key loop rec rounds caps = map (repeats key loop rec.round) (
    stalled_findings rec (filter (λ r. in_loop loop r && is_counted r) rounds)
      caps.repeated_finding_threshold)
evidence_of needs_decision key loop rec rounds caps = []

abbrev pub evidence_at :
    ParkCause
    → TaskState
    → Option RoundToRecord
    → Option LoopEdge
    → List RecordedRound
    → Caps
    → List EscalationInput
evidence_at reason key none edge rounds caps = []
evidence_at reason key (some rec) none rounds caps = []
evidence_at reason key (some rec) (some edge) rounds caps =
    evidence_of reason key edge.loop rec rounds caps

-- `escalationEvidence`.
unfoldable pub escalation_evidence :
    ParkCause → StageNode → Option RoundToRecord → List RecordedRound → Caps → List EscalationInput
escalation_evidence reason node rec rounds caps =
    evidence_at reason node.key rec node.loop_edge rounds caps
