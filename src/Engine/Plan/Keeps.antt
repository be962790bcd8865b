-- ===== src/Engine/Plan/Keeps.antt =====
-- What raising, attaching and dismissing the card on coverage leave: `recordPlanOutcome` of
-- apps/orchestrator/src/store.ts.
use specmate.Prelude.{
  ℕ, Bool, true, false, not, ◌||◌, List, [], ◌∷◌, map, any, find?, Option, none, some, String, ◌==◌,
  nat_eq, string_eq, if◌then◌else◌, ◌≡◌, refl, arith, Bool-cases, Option-cases, inl, inr,
}
use specmate.Lifecycle.{task_state_eq}
use specmate.Decisions.{StoredDecision, DecisionInsert}
use specmate.Results.{PlanShape}
use specmate.Engine.State.{World}
use specmate.Engine.Raise.{
  rewrite_row, is_unchanged, new_decision, attach_to_open_decision, inserted,
}
use specmate.Engine.Raise.Unique.{any-append}
use specmate.Engine.Transition.{dismissed_row}
use specmate.Engine.Plan.{
  PlanRow, PlanResult, is_coverage_card, is_settled_card, is_retyped, dismiss_coverage_decision,
  announced,
}

-- The task and the acceptance stand, and a card that was settled is still there.
pub record Kept (u v : World) : Type 0 where
  pub task : v.task ≡ u.task
  pub waiver : v.waiver ≡ u.waiver
  pub settled : any is_settled_card u.decisions ≡ true → any is_settled_card v.decisions ≡ true

any-map_up {ℓ} :
    {A : Type ℓ} (p : A → Bool) (f : A → A) (xs : List A)
    → ((x : A) → p x ≡ true → p (f x) ≡ true)
    → any p xs ≡ true
    → any p (map f xs) ≡ true
any-map_up p f [] up h = h
any-map_up p f (x ∷ xs) up h = elim (Bool-cases (p x)) [
  | inl fits ↦ rw (up x fits) refl
  | inr not_here ↦ let rest = any-map_up p f xs up (rw not_here at h) in ground arith
]

dismissed-settled :
    (actor : String) (now : ℕ) (d : StoredDecision)
    → is_settled_card d ≡ true
    → is_settled_card (if is_coverage_card d then dismissed_row actor now d else d) ≡ true
dismissed-settled actor now d card =
    let other : is_coverage_card d ≡ false = ground (arith, card) in rw other card

rewrite_row-settled :
    (id : ℕ) (stage : Option ℕ) (input : DecisionInsert) (d : StoredDecision)
    → is_settled_card d ≡ true
    → is_settled_card (rewrite_row id stage input d) ≡ true
rewrite_row-settled id stage input d card = elim (Bool-cases (d.id == id)) [
  | inl same ↦ rw same card
  | inr other ↦ rw other card
]

pub dismiss_coverage_decision-Kept :
    (w : World) (actor : String) → Kept w (dismiss_coverage_decision w actor)
unfolding dismiss_coverage_decision
dismiss_coverage_decision-Kept w actor = elim (Option-cases (find? is_coverage_card w.decisions)) [
  | inl none_open ↦
      rw (dismiss_coverage_decision, none_open)
        (record { task = refl; waiver = refl; settled = λ h. h })
  | inr (d, found) ↦
      rw (dismiss_coverage_decision, found)
        (record {
          task = refl;
          waiver = refl;
          settled =
              any-map_up is_settled_card
                (λ x. if is_coverage_card x then dismissed_row actor w.now x else x) w.decisions
                (dismissed-settled actor w.now);
        })
]

pub attach-Kept :
    (w : World) (stage : Option ℕ) (d : StoredDecision) (input : DecisionInsert)
    → Kept w (attach_to_open_decision w stage d input)
unfolding attach_to_open_decision
attach-Kept w stage d input = elim (Bool-cases (is_unchanged stage input d)) [
  | inl same ↦ rw same (record { task = refl; waiver = refl; settled = λ h. h })
  | inr changed ↦ rw changed (record {
    task = refl;
    waiver = refl;
    settled =
        any-map_up is_settled_card (rewrite_row d.id stage input) w.decisions
          (rewrite_row-settled d.id stage input);
  })
]

pub inserted-Kept :
    (w : World) (stage : Option ℕ) (input : DecisionInsert) → Kept w (inserted w stage input)
inserted-Kept w stage input = record {
  task = refl;
  waiver = refl;
  settled = λ h.
      rw (any-append is_settled_card w.decisions (new_decision w.next_id stage input ∷ []), h) refl;
}

pub announced-Kept :
    (w : World) (row : PlanRow) (result : PlanResult) (declared : Option PlanShape)
    → Kept w (announced w row result declared)
announced-Kept w row result none = record { task = refl; waiver = refl; settled = λ h. h }
announced-Kept w row result (some plan) =
    elim (Bool-cases (not (plan.title == row.title) || is_retyped row result.running plan)) [
      | inl renamed ↦ rw renamed (record { task = refl; waiver = refl; settled = λ h. h })
      | inr alike ↦ rw alike (record { task = refl; waiver = refl; settled = λ h. h })
    ]
