-- ===== src/PlanChoice/Offers.antt =====
-- What a plan may create and when a split is offered: apps/orchestrator/src/store.ts and
-- packages/core/src/harness.ts.
use specmate.Prelude.{
  take, drop, take-drop, length-take, ℕ, zero, suc, ◌≤◌, ◌<◌, Bool, true, not, ◌||◌, List, [], ◌∷◌,
  ◌++◌, map, Option, none, is_empty, ltb, ltb_iff, length, ◌≡◌, ◌↔◌, refl, sym, arith, Bool-cases,
  inl, inr, includes, String, string_eq,
}
use specmate.Lifecycle.{Caps}
use specmate.Decisions.{DecisionOption}
use specmate.Results.{PlanPrerequisite, PlanShape, HarnessCoverageAssessment}
use specmate.PlanChoice.{
  PlanChoice, proposed_of, plan_choice_for, has_coverage_gap, needs_plan_choice, split_creates_work,
  plan_choice_options,
}

-- What is created and what is named as dropped.
pub record Splits (caps : Caps) (plan_depth : ℕ) (proposed : List PlanPrerequisite)
    (choice : PlanChoice) : Type 0 where
  pub nothing_lost : choice.creates ++ choice.dropped ≡ proposed
  pub bounded : length choice.creates ≤ caps.max_prerequisite_tasks
  pub closed_at_depth : caps.max_plan_depth ≤ plan_depth → choice.creates ≡ []
  pub explained : is_empty choice.dropped ≡ true ↔ choice.drop_reason ≡ none

-- Of a plan's proposals the first ones are created, at most as many as the cap, and none at the depth
-- cap; the others are named as dropped, so none is lost, and a reason is given exactly where some are.
pub plan_choice_for-Splits :
    (caps : Caps) (plan_depth : ℕ) (assessment : Option HarnessCoverageAssessment)
    (plan : Option PlanShape)
    → Splits caps plan_depth (proposed_of plan) (plan_choice_for caps plan_depth assessment plan)
unfolding plan_choice_for
plan_choice_for-Splits caps plan_depth assessment plan =
    let proposed = proposed_of plan in
    let n = caps.max_prerequisite_tasks in
    elim (Bool-cases (ltb plan_depth caps.max_plan_depth)) [
      | inl shallow ↦ record {
        nothing_lost = rw shallow (take-drop n proposed);
        bounded = rw shallow (length-take n proposed);
        closed_at_depth = λ deep. ground (arith, shallow, ltb_iff plan_depth caps.max_plan_depth);
        explained = rw shallow (ground arith);
      }
      | inr deep ↦ record {
        nothing_lost = rw deep refl;
        bounded = rw deep (omega arith);
        closed_at_depth = λ d. rw deep refl;
        explained = rw deep (ground arith);
      }
    ]

take-drop-empty {ℓ} :
    {A : Type ℓ} (n : ℕ) (xs : List A)
    → 0 < n
    → is_empty (take n xs) ≡ true
    → is_empty (drop n xs) ≡ true
take-drop-empty zero xs h e = ground arith
take-drop-empty (suc n) [] h e = refl
take-drop-empty (suc n) (x ∷ xs) h e = cc

abbrev pub option_ids : PlanChoice → List String
option_ids choice = map (λ (o : DecisionOption). o.id) (plan_choice_options choice)

work_of_need :
    (gap creates dropped : Bool)
    → (creates ≡ true → dropped ≡ true)
    → (gap || (not creates || not dropped)) ≡ true
    → (not creates || gap) ≡ true
work_of_need gap creates dropped f need = ground arith

-- Where the owner is asked about a plan, and prerequisites are allowed at all, the split is offered
-- exactly when it would create work.
pub plan_choice_options-split :
    (caps : Caps) (plan_depth : ℕ) (assessment : Option HarnessCoverageAssessment)
    (plan : Option PlanShape)
    → 0 < caps.max_prerequisite_tasks
    → needs_plan_choice (plan_choice_for caps plan_depth assessment plan) ≡ true
    → includes "split" (option_ids (plan_choice_for caps plan_depth assessment plan))
      ≡ split_creates_work (plan_choice_for caps plan_depth assessment plan)
unfolding plan_choice_for needs_plan_choice split_creates_work plan_choice_options
plan_choice_options-split caps plan_depth assessment plan some_allowed need =
    let proposed = proposed_of plan in
    let n = caps.max_prerequisite_tasks in
    elim (Bool-cases (ltb plan_depth caps.max_plan_depth)) [
      | inl shallow ↦ rw shallow (
          sym (
            work_of_need (has_coverage_gap assessment) (is_empty (take n proposed))
              (is_empty (drop n proposed)) (take-drop-empty n proposed some_allowed)
              (rw shallow at need)))
      | inr deep ↦ rw deep refl
    ]
