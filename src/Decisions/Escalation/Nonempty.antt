-- ===== src/Decisions/Escalation/Nonempty.antt =====
-- Every park of `advance` that no agent asked for has evidence to raise: packages/core/src/pipeline.ts
-- and apps/orchestrator/src/engine.ts.
use specmate.Prelude.{
  Bool, true, false, ◌&&◌, List, [], ◌∷◌, map, filter, is_empty, Option, none, some, ok, ltb, ◌≡◌,
  ◌≢◌, refl, sym, ◌∙◌, subst, ap, Bool-cases, ok-injective, err-eq-ok, Result-cases, not-eq-true,
  ◌⊎◌, inl, inr,
}
use mathlib.Core.Option.{some-injective}
use specmate.Lifecycle.{TaskState, Caps}
use specmate.Findings.{ReviewVerdict, approve, revise, escalate, ReviewFinding}
use specmate.Pipeline.Nodes.{
  PinnedGraph, LoopEdge, StageNode, stage, gate, action, LoopKind, loop_cap, cap_of, PipelineNode,
}
use specmate.Pipeline.Walk.{node_at, forward_target}
use specmate.Pipeline.Walk.Lookup.{node_at-Memᴰ}
use specmate.Pipeline.Advance.{
  ParkCause, repeated_finding, needs_decision, RoundToRecord, advance_to, loop_to, forward,
  RecordedRound, StageOutcomeSummary, AdvanceDecision, park, advance, advance_stage, advance_edge,
  answer_verdict, is_stalled, stalled_findings, in_loop, is_counted, counted_rounds, used_rounds,
  record_of, or_empty, is_set,
}
use specmate.Pipeline.Advance.Branches.{advance_of_stage}
use specmate.Pipeline.Advance.Stalled.{is_stalled-stalled_findings}
use specmate.Decisions.Escalation.{repeats, evidence_of, evidence_at, escalation_evidence}

filter-filter {ℓ} :
    {A : Type ℓ} (p q : A → Bool) (xs : List A)
    → filter (λ x. p x && q x) xs ≡ filter q (filter p xs)
filter-filter p q [] = refl
filter-filter p q (x ∷ xs) = elim (Bool-cases (p x)) [
  | inr other ↦ rw other (filter-filter p q xs)
  | inl first ↦ elim (Bool-cases (q x)) [
    | inl second ↦ rw (first, second) (ap (λ ys. x ∷ ys) (filter-filter p q xs))
    | inr other ↦ rw (first, other) (filter-filter p q xs)
  ]
]

is_empty-map {ℓ κ} :
    {A : Type ℓ} {B : Type κ} (f : A → B) (xs : List A) → is_empty (map f xs) ≡ is_empty xs
is_empty-map f [] = refl
is_empty-map f (x ∷ xs) = refl

-- A stalled loop has a finding to show.
stalled-nonempty :
    (key : TaskState) (loop : LoopKind) (rec : RoundToRecord) (rounds : List RecordedRound)
    (caps : Caps)
    → is_stalled rec.findings (counted_rounds loop rounds) caps.repeated_finding_threshold ≡ true
    → is_empty (evidence_of repeated_finding key loop rec rounds caps) ≡ false
stalled-nonempty key loop rec rounds caps h =
    is_empty-map (repeats key loop rec.round) (
      stalled_findings rec (filter (λ r. in_loop loop r && is_counted r) rounds)
        caps.repeated_finding_threshold)
    ∙ (ap (λ rs. is_empty (stalled_findings rec rs caps.repeated_finding_threshold))
          (filter-filter (in_loop loop) is_counted rounds)
        ∙ (not-eq-true _).0 (
            sym (
              is_stalled-stalled_findings rec (counted_rounds loop rounds)
                caps.repeated_finding_threshold)
            ∙ h))

stage_or : StageNode → PipelineNode → StageNode
stage_or other (stage n) = n
stage_or other (gate n) = other
stage_or other (action n) = other

stage-injective : (a b : StageNode) → stage a ≡ stage b → a ≡ b
unfolding stage_or
stage-injective a b h = ap (stage_or a) h

-- A park stays at the node, and is one that the agent asked for or one that has an escalation to raise.
abbrev pub Shows :
    TaskState → Option LoopEdge → List RecordedRound → Caps → AdvanceDecision → Type 0
Shows key edge rounds caps (park reason resume rec) =
    (resume ≡ key)
    × ((reason ≡ needs_decision) ⊎ (is_empty (evidence_at reason key rec edge rounds caps) ≡ false))
Shows key edge rounds caps (advance_to to rec) = Unit
Shows key edge rounds caps (loop_to to rec) = Unit

module _ (graph : PinnedGraph) (key : TaskState) where
  forward-Shows :
      (edge : Option LoopEdge) (rounds : List RecordedRound) (caps : Caps)
      (rec : Option RoundToRecord) (d : AdvanceDecision)
      → forward graph key rec ≡ ok d
      → Shows key edge rounds caps d
  forward-Shows edge rounds caps rec d h = elim (Result-cases (forward_target graph key)) [
    | inl (next, e) ↦ subst (Shows key edge rounds caps) (ok-injective (rw (e, forward) at h)) tt
    | inr (thrown, e) ↦ err-eq-ok _ d (rw (e, forward) at h)
  ]

  revise-Shows :
      (edge : LoopEdge) (fs : List ReviewFinding) (rounds : List RecordedRound) (caps : Caps)
      (d : AdvanceDecision)
      → answer_verdict graph key edge revise fs rounds caps ≡ ok d
      → Shows key (some edge) rounds caps d
  unfolding answer_verdict
  revise-Shows edge fs rounds caps d h =
      let rec = record_of edge revise fs rounds in
      elim (Bool-cases
        (is_stalled fs (counted_rounds edge.loop rounds) caps.repeated_finding_threshold)) [
          | inl stalled ↦
              subst (Shows key (some edge) rounds caps) (ok-injective (rw stalled at h))
                (refl, inr (stalled-nonempty key edge.loop rec rounds caps stalled))
          | inr moving ↦
              elim (Bool-cases
                (ltb (used_rounds edge.loop rounds) (cap_of caps (loop_cap edge.loop)))) [
                  | inl room ↦
                      subst (Shows key (some edge) rounds caps)
                        (ok-injective (rw (moving, room) at h)) tt
                  | inr spent ↦
                      subst (Shows key (some edge) rounds caps)
                        (ok-injective (rw (moving, spent) at h)) (refl, inr refl)
                ]
        ]

  edge-Shows :
      (edge : LoopEdge) (v : Option ReviewVerdict) (b : Bool) (fs : List ReviewFinding)
      (rounds : List RecordedRound) (caps : Caps) (d : AdvanceDecision)
      → advance_edge graph key edge v b fs rounds caps ≡ ok d
      → Shows key (some edge) rounds caps d
  unfolding advance_edge answer_verdict
  edge-Shows edge none true fs rounds caps d h =
      subst (Shows key (some edge) rounds caps) (ok-injective h) (refl, inl refl)
  edge-Shows edge none false fs rounds caps d h = err-eq-ok _ d h
  edge-Shows edge (some v) true fs rounds caps d h =
      subst (Shows key (some edge) rounds caps) (ok-injective h) (refl, inl refl)
  edge-Shows edge (some approve) false fs rounds caps d h =
      forward-Shows (some edge) rounds caps (some (record_of edge approve fs rounds)) d h
  edge-Shows edge (some escalate) false fs rounds caps d h =
      subst (Shows key (some edge) rounds caps) (ok-injective h) (refl, inr refl)
  edge-Shows edge (some revise) false fs rounds caps d h = revise-Shows edge fs rounds caps d h

  stage-Shows :
      (n : StageNode) (e : Option LoopEdge) (outcome : StageOutcomeSummary)
      (rounds : List RecordedRound) (caps : Caps) (d : AdvanceDecision)
      → n.loop_edge ≡ e
      → advance_stage graph key n outcome rounds caps ≡ ok d
      → Shows key e rounds caps d
  unfolding advance_stage
  stage-Shows n none outcome rounds caps d e h =
      elim (Bool-cases (is_set outcome.has_blocking_decision)) [
        | inl asks ↦
            subst (Shows key none rounds caps) (ok-injective (rw (e, asks) at h)) (refl, inl refl)
        | inr quiet ↦ forward-Shows none rounds caps none d (rw (e, quiet) at h)
      ]
  stage-Shows n (some edge) outcome rounds caps d e h =
      edge-Shows edge outcome.verdict (is_set outcome.has_blocking_decision)
        (or_empty outcome.findings) rounds caps d (rw e at h)

  advance-Shows :
      (n : StageNode) (outcome : StageOutcomeSummary) (rounds : List RecordedRound) (caps : Caps)
      (d : AdvanceDecision)
      → node_at graph key ≡ some (stage n)
      → advance graph key outcome rounds caps ≡ ok d
      → Shows key n.loop_edge rounds caps d
  advance-Shows n outcome rounds caps d at h =
      let (m, at_m, step) = advance_of_stage graph key outcome rounds caps h in
      let same = stage-injective m n (some-injective (stage m) (stage n) (sym at_m ∙ at)) in
      subst (λ (x : StageNode). Shows key x.loop_edge rounds caps d) same
        (stage-Shows m m.loop_edge outcome rounds caps d refl step)

  -- A task that parks resumes in the node it was at.
  pub advance-park :
      (n : StageNode) (outcome : StageOutcomeSummary) (rounds : List RecordedRound) (caps : Caps)
      (reason : ParkCause) (resume : TaskState) (rec : Option RoundToRecord)
      → node_at graph key ≡ some (stage n)
      → advance graph key outcome rounds caps ≡ ok (park reason resume rec)
      → resume ≡ key
  advance-park n outcome rounds caps reason resume rec at h =
      (advance-Shows n outcome rounds caps (park reason resume rec) at h).0

  -- At a stage of the graph, a park that `advance` decides on for any cause but a request of the agent
  -- has at least one escalation to raise.
  pub escalation_evidence-nonempty :
      (n : StageNode) (outcome : StageOutcomeSummary) (rounds : List RecordedRound) (caps : Caps)
      (reason : ParkCause) (resume : TaskState) (rec : Option RoundToRecord)
      → node_at graph key ≡ some (stage n)
      → advance graph key outcome rounds caps ≡ ok (park reason resume rec)
      → reason ≢ needs_decision
      → is_empty (escalation_evidence reason n rec rounds caps) ≡ false
  unfolding escalation_evidence
  escalation_evidence-nonempty n outcome rounds caps reason resume rec at h unasked =
      let (_, key_same) = node_at-Memᴰ graph key at in
      elim (advance-Shows n outcome rounds caps (park reason resume rec) at h).1 [
        | inl asks ↦ absurd (unasked asks)
        | inr there ↦
            subst
              (λ (k : TaskState).
                is_empty (evidence_at reason k rec n.loop_edge rounds caps) ≡ false)
              (sym key_same) there
      ]
