-- ===== src/Engine/Plan/Choice.antt =====
-- What leaves the owner of a plan a choice: the two halves of the question of `recordPlanOutcome` of
-- apps/orchestrator/src/store.ts, of what the planning stage returned.
use mathlib.Core.Option.{some-injective}
use specmate.Prelude.{
  ℕ, zero, Bool, true, false, not, ◌&&◌, ◌||◌, List, [], ◌∷◌, Option, none, some, is_empty, take,
  drop, ltb, if◌then◌else◌, is_some, sym, subst, suc, String, ◌≡◌, ◌≢◌, ◌⊎◌, ◌↔◌, refl, arith,
  Bool-cases, inl, inr,
}
use specmate.Results.{
  PlanShape, HarnessClassification, adequate, partial, missing, HarnessCoverageAssessment,
}
use specmate.PlanChoice.{
  PlanChoice, needs_plan_choice, plan_choice_for, is_short, has_coverage_gap, proposed_of,
}
use specmate.Engine.State.{World}
use specmate.Engine.Plan.{PlanRow, PlanResult, is_inherited, is_adequate, choice_of}

-- The coverage that was found is short.
pub record IsShort (found : Option HarnessCoverageAssessment) : Type 0 where
  pub assessment : HarnessCoverageAssessment
  pub reported : found ≡ some assessment
  pub short : assessment.classification ≢ adequate

-- The plan proposes work to do first.
pub record Proposes (declared : Option PlanShape) : Type 0 where
  pub plan : PlanShape
  pub planned : declared ≡ some plan
  pub work : plan.prerequisites ≢ []

nonempty_iff {ℓ} : {A : Type ℓ} (xs : List A) → (not (is_empty xs) ≡ true) ↔ (xs ≢ [])
nonempty_iff [] = ((λ e. cc), λ apart. absurd (apart refl))
nonempty_iff (x ∷ xs) = ((λ e same. cc), λ apart. refl)

take-drop-nonempty {ℓ} :
    {A : Type ℓ} (n : ℕ) (xs : List A)
    → (not (is_empty (take n xs)) || not (is_empty (drop n xs))) ≡ not (is_empty xs)
take-drop-nonempty zero [] = refl
take-drop-nonempty zero (x ∷ xs) = refl
take-drop-nonempty (suc n) [] = refl
take-drop-nonempty (suc n) (x ∷ xs) = refl

short_iff : (c : HarnessClassification) → (is_short c ≡ true) ↔ (c ≢ adequate)
short_iff adequate = ((λ e. cc), λ apart. absurd (apart refl))
short_iff partial = ((λ e same. cc), λ apart. refl)
short_iff missing = ((λ e same. cc), λ apart. refl)

pub has_coverage_gap_iff :
    (found : Option HarnessCoverageAssessment) → (has_coverage_gap found ≡ true) ↔ IsShort found
has_coverage_gap_iff none = ((λ e. cc), λ short. cc (short.reported))
has_coverage_gap_iff (some assessment) = (
  λ e. record {
    assessment = assessment;
    reported = refl;
    short = (short_iff assessment.classification).0 e;
  },
  λ short. (short_iff assessment.classification).1 (
      subst (λ (a : HarnessCoverageAssessment). a.classification ≢ adequate)
        (sym (some-injective assessment short.assessment short.reported)) short.short),
)

proposed_of_iff :
    (declared : Option PlanShape)
    → (not (is_empty (proposed_of declared)) ≡ true) ↔ Proposes declared
proposed_of_iff none = ((λ e. cc), λ proposes. cc (proposes.planned))
proposed_of_iff (some plan) = (
  λ e. record { plan = plan; planned = refl; work = (nonempty_iff plan.prerequisites).0 e },
  λ proposes. (nonempty_iff plan.prerequisites).1 (
      subst (λ (p : PlanShape). p.prerequisites ≢ [])
        (sym (some-injective plan proposes.plan proposes.planned)) proposes.work),
)

-- A gap is asked about where nobody has accepted it.
gap-class :
    (waiver : Bool) (c : HarnessClassification) (text : String)
    → has_coverage_gap (
        if not (is_adequate (some (record { classification = c; evidence_md = text }))) && waiver
        then none
        else some (record { classification = c; evidence_md = text }))
      ≡ (is_short c && not waiver)
gap-class true adequate text = refl
gap-class true partial text = refl
gap-class true missing text = refl
gap-class false adequate text = refl
gap-class false partial text = refl
gap-class false missing text = refl

gap-waived :
    (waiver : Bool) (found : Option HarnessCoverageAssessment)
    → has_coverage_gap
        (if is_some found && (not (is_adequate found) && waiver) then none else found)
      ≡ (has_coverage_gap found && not waiver)
gap-waived waiver none = refl
gap-waived waiver (some assessment) =
    gap-class waiver assessment.classification assessment.evidence_md

module _ (inherited_prompt : HarnessCoverageAssessment → String → String)
    (prompt : PlanChoice → String) (w : World) (row : PlanRow) (result : PlanResult) where
  needs_plan_choice-halves : needs_plan_choice (choice_of inherited_prompt prompt w row result) ≡ (
      has_coverage_gap (
        if is_inherited inherited_prompt prompt w result.assessment
        then none
        else result.assessment)
      || not (is_empty (proposed_of result.plan)))
  unfolding choice_of needs_plan_choice plan_choice_for
  needs_plan_choice-halves = elim (Bool-cases (ltb row.plan_depth result.caps.max_plan_depth)) [
    | inl shallow ↦
        rw
          (shallow, take-drop-nonempty result.caps.max_prerequisite_tasks (proposed_of result.plan))
          refl
    | inr too_deep ↦ rw too_deep refl
  ]

  pub needs_plan_choice_iff :
      (needs_plan_choice (choice_of inherited_prompt prompt w row result) ≡ true)
      ↔ ((IsShort result.assessment × (w.waiver ≡ false)) ⊎ Proposes result.plan)
  needs_plan_choice_iff =
      let (to_short, of_short) = has_coverage_gap_iff result.assessment in
      let (to_work, of_work) = proposed_of_iff result.plan in
      let gap = has_coverage_gap result.assessment in
      let work = not (is_empty (proposed_of result.plan)) in
      rw (needs_plan_choice-halves, gap-waived w.waiver result.assessment)
        (
          (λ e. elim (Bool-cases work) [
            | inl proposes ↦ inr (to_work proposes)
            | inr quiet ↦ inl (to_short (ground arith), ground arith)
          ]),
          (λ e. elim e [
            | inl (short, open_gap) ↦ let g = of_short short in ground arith
            | inr proposes ↦ let g = of_work proposes in ground arith
          ]),
        )
