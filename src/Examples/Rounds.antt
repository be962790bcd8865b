-- ===== src/Examples/Rounds.antt =====
-- The step of packages/core/src/pipeline.ts and the rounds it records, on the shipped graph: the
-- specification's review asks for a revision.
use specmate.Prelude.{
  true, ◌≢◌, [], ◌∷◌, some, none, ok, subst, sym, ◌≡◌, refl, arith, Memᴰ, ◌≤◌, discrete_beq,
  string_eq,
}
use specmate.Lifecycle.{task_state_eq, default_caps, spec_review, specify, same_state, is_terminal}
use specmate.Findings.{ReviewVerdict-discrete}
use specmate.Pipeline.Nodes.{spec, LoopKind-discrete, StageNode, stage}
use specmate.Pipeline.Walk.{can_transition, node_at}
use specmate.Pipeline.Advance.{
  StageOutcomeSummary, loop_to, park, needs_decision, repeated_finding, advance, stalled_findings,
  StalledFinding,
}
use specmate.Pipeline.Advance.Branches.{TakesLoop, IsAnswered, advance-loop_to_iff, advance_ok_iff}
use specmate.Pipeline.Advance.Moves.{advance-can_transition}
use specmate.Pipeline.Advance.Stalled.{stalled_findings-IsEvidence, IsEvidence}
use specmate.Iterations.{rounds_for, record_round, new_row}
use specmate.Iterations.History.{History}
use specmate.Iterations.Bounded.{History-bounded}
use specmate.Examples.Inputs.{
  shipped_graph, shipped-Distinct, revising, first_round, first_record, second_record,
}

pub loops :
    advance shipped_graph spec_review revising [] default_caps ≡ ok (loop_to specify first_record)
unfolding advance same_state ReviewVerdict-discrete LoopKind-discrete discrete_beq node_at
loops = refl

advance-loop_to_iff_example :
    TakesLoop shipped_graph spec_review revising [] default_caps specify first_record
advance-loop_to_iff_example =
    (advance-loop_to_iff shipped_graph spec_review revising [] default_caps specify first_record).0
      loops

advance_ok_iff_example :
    (n : StageNode) × (node_at shipped_graph spec_review ≡ some (stage n)) × IsAnswered n revising
unfolding advance same_state ReviewVerdict-discrete LoopKind-discrete discrete_beq node_at
advance_ok_iff_example = (advance_ok_iff shipped_graph spec_review revising [] default_caps).0 refl

abbrev asking : StageOutcomeSummary
asking = record revising { has_blocking_decision = some true }

pub review_node : (n : StageNode) × (node_at shipped_graph spec_review ≡ some (stage n))
unfolding node_at same_state
review_node = (_, refl)

advance-can_transition_example : can_transition shipped_graph spec_review specify ≡ ok true
unfolding is_terminal same_state
advance-can_transition_example =
    advance-can_transition shipped_graph spec_review revising [] default_caps
      (loop_to specify first_record) shipped-Distinct refl loops

abbrev stalled_one : StalledFinding
stalled_one = record { id = "R-1"; rounds = 2 ∷ 1 ∷ [] }

stalls : stalled_findings second_record (first_round ∷ []) 2 ≡ stalled_one ∷ []
unfolding stalled_findings
stalls = refl

stalled_one-Memᴰ : Memᴰ stalled_one (stalled_findings second_record (first_round ∷ []) 2)
stalled_one-Memᴰ = subst (Memᴰ stalled_one) (sym stalls) (Memᴰ.head refl)

stalled_findings-IsEvidence_example : IsEvidence second_record (first_round ∷ []) 2 stalled_one
stalled_findings-IsEvidence_example =
    stalled_findings-IsEvidence second_record (first_round ∷ []) 2 stalled_one stalled_one-Memᴰ

-- One round of the loop, taken at time 5.
one_round : History default_caps spec (new_row first_record 5 ∷ []) none 5 1
unfolding rounds_for record_round discrete_beq LoopKind-discrete
one_round =
    History.stage_ends {now = 3} History.start 5 (omega arith) shipped_graph spec_review revising
      (loop_to specify first_record) loops

History-bounded_example : 1 ≤ 3
History-bounded_example =
    History-bounded {caps = default_caps} {kind = spec} {rows = new_row first_record 5 ∷ []}
      {reworked = none} {now = 5} {n = 1} one_round

-- The second round in a row over a finding parks the task.
pub stalls_at_review :
    advance shipped_graph spec_review revising (first_round ∷ []) default_caps
    ≡ ok (park repeated_finding spec_review (some second_record))
unfolding advance same_state ReviewVerdict-discrete LoopKind-discrete discrete_beq node_at
stalls_at_review = refl

pub repeated_finding-unasked : repeated_finding ≢ needs_decision
repeated_finding-unasked h = cc
