-- ===== src/Engine/Plan/Inherits.antt =====
-- What a planning stage leaves of the task and of the repository's acceptance: `recordPlanOutcome`,
-- `inheritCoverageWaiver` and `dismissCoverageDecision` of apps/orchestrator/src/store.ts.
use mathlib.Core.Option.{some-injective}
use specmate.Prelude.{
  Bool, true, false, not, ◌&&◌, [], ◌∷◌, any, Option, none, some, String, nat_eq, string_eq,
  if◌then◌else◌, ◌≡◌, refl, sym, subst, ◌∙◌, ap, discrete_beq, arith, Bool-cases, inl, inr,
}
use specmate.Lifecycle.{same_state, task_state_eq}
use specmate.Decisions.{DecisionStatus-discrete}
use specmate.Results.{HarnessClassification, adequate, partial, missing, HarnessCoverageAssessment}
use specmate.PlanChoice.{PlanChoice}
use specmate.Engine.State.{
  World, Task, HarnessStatus, waived, adequate as has_harness, partial as has_partial,
  missing as has_none,
}
use specmate.Engine.Raise.Unique.{any-append}
use specmate.Engine.Plan.{
  PlanRow, PlanResult, is_adequate, is_settled_card, harness_status_of, inherit_coverage_waiver,
  inherited, inherited_row, announced, with_status, planned_world,
}
use specmate.Engine.Plan.Choice.{IsShort}
use specmate.Engine.Plan.Keeps.{announced-Kept}

-- What the task carries of its repository's harness after a stage that found this.
abbrev status_after : HarnessClassification → Bool → HarnessStatus
status_after adequate waiver = has_harness
status_after partial true = waived
status_after partial false = has_partial
status_after missing true = waived
status_after missing false = has_none

abbrev pub recorded_status : Bool → Option HarnessCoverageAssessment → HarnessStatus → HarnessStatus
recorded_status waiver none old = old
recorded_status waiver (some assessment) old = status_after assessment.classification waiver

-- The acceptance that is in force, where the stage found a gap.
pub record IsInherited (t : Task) (u : World) (found : Option HarnessCoverageAssessment) (v : World)
    : Type 0 where
  pub task : v.task ≡ record t { harness_status = recorded_status u.waiver found t.harness_status }
  pub waiver : v.waiver ≡ (u.waiver && not (is_adequate found))
  pub settled : IsShort found → u.waiver ≡ true → any is_settled_card v.decisions ≡ true

abbrev reported_gap : HarnessClassification → String → HarnessCoverageAssessment
reported_gap c text = record { classification = c; evidence_md = text }

module _ (inherited_prompt : HarnessCoverageAssessment → String → String)
    (prompt : PlanChoice → String) where
  inherit_coverage_waiver-accepted :
      (u : World) (result : PlanResult) (assessment : HarnessCoverageAssessment)
      → let v = inherit_coverage_waiver inherited_prompt prompt u result assessment in
        (v.task ≡ record u.task { harness_status = waived })
        × (v.waiver ≡ u.waiver)
        × (any is_settled_card v.decisions ≡ true)
  unfolding inherit_coverage_waiver same_state DecisionStatus-discrete discrete_beq
  inherit_coverage_waiver-accepted u result assessment =
      let card = inherited_row inherited_prompt prompt u result assessment in
      elim (Bool-cases (any is_settled_card u.decisions)) [
        | inl there ↦ rw (inherit_coverage_waiver, there) (refl, refl, there)
        | inr missed ↦
            rw (inherit_coverage_waiver, missed)
              (refl, refl, rw (any-append is_settled_card u.decisions (card ∷ [])) (ground arith))
      ]

  -- A gap that is accepted is inherited; one that is not leaves the rows.
  inherited-gap :
      (u : World) (result : PlanResult) (assessment : HarnessCoverageAssessment) (accepted : Bool)
      → is_adequate (some assessment) ≡ false
      → u.waiver ≡ accepted
      → inherited inherited_prompt prompt u result (some assessment) ≡ (
          if accepted
          then inherit_coverage_waiver inherited_prompt prompt u result assessment
          else u)
  inherited-gap u result assessment accepted short e =
      let taken = inherit_coverage_waiver inherited_prompt prompt u result assessment in
      ap (λ b. if b then record u { waiver = false } else if u.waiver then taken else u) short
      ∙ ap (λ b. if b then taken else u) e

  gap-IsInherited :
      (t : Task) (u : World) (result : PlanResult) (assessment : HarnessCoverageAssessment)
      → u.task ≡ with_status t (some assessment)
      → is_adequate (some assessment) ≡ false
      → status_after assessment.classification true ≡ waived
      → status_after assessment.classification false ≡ harness_status_of assessment.classification
      → IsInherited t u
          (some assessment)
          (inherited inherited_prompt prompt u result (some assessment))
  gap-IsInherited t u result assessment e short taken left = elim (Bool-cases u.waiver) [
    | inl accepted ↦
        let (task, waiver, settled) = inherit_coverage_waiver-accepted u result assessment in
        subst (λ v. IsInherited t u (some assessment) v)
          (sym (inherited-gap u result assessment true short accepted))
          (record {
            task =
                task
                ∙ ap (λ (k : Task). record k { harness_status = waived }) e
                ∙ ap (λ h. record t { harness_status = h })
                    (sym (ap (status_after assessment.classification) accepted ∙ taken));
            waiver = waiver ∙ (rw (accepted, short) refl);
            settled = λ gap h. settled;
          })
    | inr standing ↦
        subst (λ v. IsInherited t u (some assessment) v)
          (sym (inherited-gap u result assessment false short standing))
          (record {
            task =
                e
                ∙ ap (λ h. record t { harness_status = h })
                    (sym (ap (status_after assessment.classification) standing ∙ left));
            waiver = standing ∙ sym (ap (λ b. b && not (is_adequate (some assessment))) standing);
            settled = λ gap h. cc;
          })
  ]

  found-IsInherited :
      (t : Task) (u : World) (result : PlanResult) (c : HarnessClassification) (text : String)
      → let found = reported_gap c text in
        u.task ≡ with_status t (some found)
        → IsInherited t u (some found) (inherited inherited_prompt prompt u result (some found))
  found-IsInherited t u result adequate text e = record {
    task = e;
    waiver = ground arith;
    settled = λ gap h. absurd (
        gap.short (
          ap (λ (a : HarnessCoverageAssessment). a.classification)
            (sym (some-injective (reported_gap adequate text) gap.assessment gap.reported))));
  }
  found-IsInherited t u result partial text e =
      let found = reported_gap partial text in gap-IsInherited t u result found e refl refl refl
  found-IsInherited t u result missing text e =
      let found = reported_gap missing text in gap-IsInherited t u result found e refl refl refl

  inherited-IsInherited :
      (t : Task) (u : World) (result : PlanResult) (found : Option HarnessCoverageAssessment)
      → u.task ≡ with_status t found
      → IsInherited t u found (inherited inherited_prompt prompt u result found)
  inherited-IsInherited t u result none e = record {
    task = e;
    waiver = ground arith;
    settled = λ gap h. cc (gap.reported);
  }
  inherited-IsInherited t u result (some found) e =
      found-IsInherited t u result found.classification found.evidence_md e

  -- The rows that the question is then asked over.
  pub planned_world-IsInherited :
      (w : World) (row : PlanRow) (result : PlanResult)
      → IsInherited w.task w result.assessment (planned_world inherited_prompt prompt w row result)
  planned_world-IsInherited w row result =
      let stamped = record w { task = with_status w.task result.assessment } in
      let kept = announced-Kept stamped row result result.plan in
      let told = announced stamped row result result.plan in
      let inside = inherited-IsInherited w.task told result result.assessment kept.task in
      record {
        task =
            inside.task
            ∙ ap
                (λ b. record w.task {
                  harness_status = recorded_status b result.assessment w.task.harness_status;
                })
                kept.waiver;
        waiver = inside.waiver ∙ ap (λ b. b && not (is_adequate result.assessment)) kept.waiver;
        settled = λ gap h. inside.settled gap (kept.waiver ∙ h);
      }
