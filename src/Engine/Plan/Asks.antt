-- ===== src/Engine/Plan/Asks.antt =====
-- When the owner is asked about a plan: `recordPlanOutcome` of apps/orchestrator/src/store.ts.
use specmate.Prelude.{
  ℕ, Bool, true, false, ◌||◌, List, [], ◌∷◌, map, any, find?, Option, none, some, String, ◌==◌,
  nat_eq, string_eq, if◌then◌else◌, ok, >>=-eq-ok, ok-injective, discrete_beq, ◌≡◌, refl, sym, ◌∙◌,
  ap, arith, Bool-cases, Option-cases, inl, inr,
}
use specmate.Lifecycle.{task_state_eq, same_state}
use specmate.Decisions.{
  StoredDecision, DecisionInsert, is_open, DecisionStatus-discrete, decision_status_eq,
}
use specmate.Results.{HarnessCoverageAssessment}
use specmate.PlanChoice.{PlanChoice, needs_plan_choice}
use specmate.Engine.State.{World}
use specmate.Engine.Raise.{
  matches, new_decision, rewrite_row, is_unchanged, attach_to_open_decision, inserted,
  raise_decision,
}
use specmate.Engine.Raise.Unique.{raise_decision-cases, any-append}
use specmate.Engine.Raise.Outcome.{any-Memᴰ}
use specmate.Engine.Transition.{dismissed_row}
use specmate.Engine.Plan.{
  PlanRow, PlanResult, is_coverage_card, dismiss_coverage_decision, choice_of, choice_insert,
  planned_world, with_plan, record_plan_outcome,
}

-- A row for the owner is open at the kickoff gate.
abbrev pub is_asked : World → Bool
is_asked w = any is_coverage_card w.decisions

any-map_same {ℓ} :
    {A : Type ℓ} (p : A → Bool) (f : A → A) (xs : List A)
    → ((x : A) → p (f x) ≡ p x)
    → any p (map f xs) ≡ any p xs
any-map_same p f [] same = refl
any-map_same p f (x ∷ xs) same = rw (same x) (ap (λ b. p x || b) (any-map_same p f xs same))

rewrite_row-card :
    (id : ℕ) (stage : Option ℕ) (input : DecisionInsert) (d : StoredDecision)
    → is_coverage_card (rewrite_row id stage input d) ≡ is_coverage_card d
rewrite_row-card id stage input d = elim (Bool-cases (d.id == id)) [
  | inl same ↦ rw same refl
  | inr other ↦ rw other refl
]

attach-asked :
    (w : World) (stage : Option ℕ) (d : StoredDecision) (input : DecisionInsert)
    → is_asked (attach_to_open_decision w stage d input) ≡ is_asked w
unfolding attach_to_open_decision
attach-asked w stage d input = elim (Bool-cases (is_unchanged stage input d)) [
  | inl same ↦ rw same refl
  | inr changed ↦ rw changed (
      any-map_same is_coverage_card (rewrite_row d.id stage input) w.decisions
        (rewrite_row-card d.id stage input))
]

card-open : (d : StoredDecision) → is_coverage_card d ≡ true → is_open d ≡ true
card-open d card = ground (arith, card)

dismissed_row-card :
    (actor : String) (now : ℕ) (d : StoredDecision)
    → is_open d ≡ true
    → is_coverage_card (dismissed_row actor now d) ≡ false
unfolding DecisionStatus-discrete discrete_beq
dismissed_row-card actor now d opened_row = rw opened_row (ground arith)

dismissed-closed :
    (actor : String) (now : ℕ) (ds : List StoredDecision)
    → any is_coverage_card
        (map (λ x. if is_coverage_card x then dismissed_row actor now x else x) ds)
      ≡ false
dismissed-closed actor now [] = refl
dismissed-closed actor now (d ∷ ds) = elim (Bool-cases (is_coverage_card d)) [
  | inl card ↦
      rw (card, dismissed_row-card actor now d (card-open d card)) (dismissed-closed actor now ds)
  | inr other ↦ rw (other, other) (dismissed-closed actor now ds)
]

none_found :
    (ds : List StoredDecision) → find? is_coverage_card ds ≡ none → any is_coverage_card ds ≡ false
none_found [] e = refl
none_found (d ∷ ds) e = elim (Bool-cases (is_coverage_card d)) [
  | inl card ↦ cc (rw card at e)
  | inr other ↦ rw other (none_found ds (rw other at e))
]

dismiss_coverage_decision-asked :
    (w : World) (actor : String) → is_asked (dismiss_coverage_decision w actor) ≡ false
unfolding dismiss_coverage_decision
dismiss_coverage_decision-asked w actor = elim (Option-cases (find? is_coverage_card w.decisions)) [
  | inl missing ↦ rw (dismiss_coverage_decision, missing) (none_found w.decisions missing)
  | inr (d, found) ↦
      rw (dismiss_coverage_decision, found) (dismissed-closed actor w.now w.decisions)
]

module _ (inherited_prompt : HarnessCoverageAssessment → String → String)
    (prompt : PlanChoice → String) where
  -- The engine's own card is matched by its node and key alone.
  matches-card :
      (choice : PlanChoice) (d : StoredDecision)
      → matches (choice_insert inherited_prompt prompt choice) d ≡ true
      → is_coverage_card d ≡ true
  unfolding same_state
  matches-card choice d fits = fits

  inserted-asked :
      (w : World) (stage : Option ℕ) (choice : PlanChoice)
      → is_asked (inserted w stage (choice_insert inherited_prompt prompt choice)) ≡ true
  unfolding same_state DecisionStatus-discrete discrete_beq
  inserted-asked w stage choice = ground (
    arith,
    any-append is_coverage_card w.decisions
        (new_decision w.next_id stage (choice_insert inherited_prompt prompt choice) ∷ []),
  )

  raised-asked :
      (w after : World) (stage : Option ℕ) (choice : PlanChoice)
      → raise_decision w stage (choice_insert inherited_prompt prompt choice) ≡ ok after
      → is_asked after ≡ true
  raised-asked w after stage choice h =
      let input = choice_insert inherited_prompt prompt choice in
      elim (raise_decision-cases w stage input) [
        | inl (d, m, fits, e) ↦
            ap is_asked (sym (ok-injective (sym e ∙ h)))
            ∙ (attach-asked w stage d input
                ∙ any-Memᴰ is_coverage_card d w.decisions m (matches-card choice d fits))
        | inr (free, e) ↦
            ap is_asked (sym (ok-injective (sym e ∙ h))) ∙ inserted-asked w stage choice
      ]

  -- The card is open where the choice that the code builds leaves one.
  pub record_plan_outcome-asks :
      (w after : World) (row saved : PlanRow) (result : PlanResult)
      → record_plan_outcome inherited_prompt prompt w row result ≡ ok (after, saved)
      → is_asked after ≡ needs_plan_choice (choice_of inherited_prompt prompt w row result)
  unfolding record_plan_outcome
  record_plan_outcome-asks w after row saved result h =
      let choice = choice_of inherited_prompt prompt w row result in
      let planned = planned_world inherited_prompt prompt w row result in
      elim (Bool-cases (needs_plan_choice choice)) [
        | inr settled ↦
            ap (λ (r : World × PlanRow). is_asked r.0) (sym (ok-injective (rw settled at h)))
            ∙ (dismiss_coverage_decision-asked planned "system" ∙ sym settled)
        | inl open_question ↦
            let (asked, raised, ends) =
              >>=-eq-ok
                (raise_decision planned (some result.stage_id)
                  (choice_insert inherited_prompt prompt choice))
                (λ u. ok (u, with_plan row result result.plan)) (rw open_question at h) in
            ap (λ (r : World × PlanRow). is_asked r.0) (sym (ok-injective ends))
            ∙ (raised-asked planned asked (some result.stage_id) choice raised ∙ sym open_question)
      ]
