-- ===== src/Engine/Answer/Refused.antt =====
-- What an answer that throws has written, and which answers are accepted: apps/orchestrator/src/engine.ts.
use specmate.Prelude.{
  ℕ, true, not, ◌&&◌, List, find?, Option, none, some, is_some, String, ◌==◌, string_eq, Result, ok,
  err, ◌≡◌, refl, sym, ap, arith, Bool-cases, Option-cases, Result-cases, inl, inr, ◌⊎◌,
}
use specmate.Lifecycle.{Budgets}
use specmate.Budget.{BudgetKey, Spend}
use specmate.Decisions.{StoredDecision}
use specmate.Engine.State.{World, EngineError}
use specmate.Engine.Resolve.{
  ResolutionInput, by_answer, resolve_decision, is_coverage_decision, is_budget_decision, has_id,
  given, trimmed,
}
use specmate.Engine.Gates.{cancel}
use specmate.Engine.Answer.{
  Planned, NewTask, committed, committed_tasks, create_planned_prerequisites, apply_coverage_choice,
  is_offered, budget_to_raise, is_cancel, read_value, answer_raise, chosen, answer_plainly,
  answer_found, answer,
}

committed-refused :
    (w : World) (r : Result EngineError World) {e : EngineError}
    → (committed w r).thrown ≡ some e
    → (committed w r).world ≡ w
committed-refused w (ok after) h = cc
committed-refused w (err e) h = refl

committed_tasks-refused :
    (w : World) (r : Result EngineError (World × List NewTask)) {e : EngineError}
    → (committed_tasks w r).thrown ≡ some e
    → (committed_tasks w r).world ≡ w
committed_tasks-refused w (ok (after, made)) h = cc
committed_tasks-refused w (err e) h = refl

apply_coverage_choice-refused :
    (mint : ℕ → String) (w : World) (planned : Planned) (actor option_id : String) {e : EngineError}
    → (apply_coverage_choice mint w planned actor option_id).thrown ≡ some e
    → (apply_coverage_choice mint w planned actor option_id).world ≡ w
unfolding apply_coverage_choice
apply_coverage_choice-refused mint w planned actor option_id h =
    elim (Bool-cases (option_id == "proceed")) [
      | inl proceeds ↦ cc (rw proceeds at h)
      | inr other ↦ elim (Bool-cases (option_id == "split")) [
        | inl splits ↦
            rw (other, splits)
              (committed_tasks-refused w (create_planned_prerequisites mint w planned actor)
                (rw (other, splits) at h))
        | inr neither ↦ elim (Bool-cases (option_id == "cancel")) [
          | inl cancels ↦
              rw (other, neither, cancels)
                (committed-refused w (cancel w actor) (rw (other, neither, cancels) at h))
          | inr nothing ↦ cc (rw (other, neither, nothing) at h)
        ]
      ]
    ]

module _ (trim : String → String) (prompt : Spend → Budgets → List BudgetKey → String)
    (number : BudgetKey → String → Option ℕ) (mint : ℕ → String) where
  -- The decision of coverage is answered, and that is all.
  abbrev pub OnlyAnswered : World → StoredDecision → String → ResolutionInput → World → Type 0
  OnlyAnswered w d actor input after =
      (is_coverage_decision d ≡ true)
      × (resolve_decision trim w d.id actor by_answer input ≡ ok after)

  answer_raise-refused :
      (w : World) (id : ℕ) (actor : String) (input : ResolutionInput) (budget : BudgetKey)
      (value : Option ℕ) {e : EngineError}
      → (answer_raise trim prompt number mint w id actor input budget value).thrown ≡ some e
      → (answer_raise trim prompt number mint w id actor input budget value).world ≡ w
  unfolding answer_raise
  answer_raise-refused w id actor input budget none h = refl
  answer_raise-refused w id actor input budget (some value) h = committed-refused w _ h

  chosen-refused :
      (w : World) (planned : Planned) (d : StoredDecision) (actor : String) (option : Option String)
      {e : EngineError}
      → (chosen trim prompt number mint w planned d actor option).thrown ≡ some e
      → (is_coverage_decision d ≡ true)
        × ((chosen trim prompt number mint w planned d actor option).world ≡ w)
  chosen-refused w planned d actor none h = cc
  chosen-refused w planned d actor (some option_id) h = elim (Bool-cases (is_coverage_decision d)) [
    | inl covers ↦ (
      covers,
      rw covers (apply_coverage_choice-refused mint w planned actor option_id (rw covers at h)),
    )
    | inr other ↦ cc (rw other at h)
  ]

  answer_plainly-refused :
      (w : World) (planned : Planned) (d : StoredDecision) (actor : String)
      (input : ResolutionInput) {e : EngineError}
      → (answer_plainly trim prompt number mint w planned d actor input).thrown ≡ some e
      → ((answer_plainly trim prompt number mint w planned d actor input).world ≡ w)
        ⊎ OnlyAnswered w d actor input
            (answer_plainly trim prompt number mint w planned d actor input).world
  unfolding answer_plainly
  answer_plainly-refused w planned d actor input h =
      elim (Bool-cases (is_budget_decision d && is_cancel input.option_id)) [
        | inl cancels ↦ inl (rw cancels (committed-refused w _ (rw cancels at h)))
        | inr other ↦ elim (Result-cases (resolve_decision trim w d.id actor by_answer input)) [
          | inr (e, failed) ↦ inl (rw (other, failed) refl)
          | inl (answered, made) ↦
              let (covers, same) =
                chosen-refused answered planned d actor (given input.option_id)
                  (rw (other, made) at h) in
              inr (covers, rw (other, made) (ap ok (sym same)))
        ]
      ]

  answer_found-refused :
      (w : World) (planned : Planned) (d : StoredDecision) (actor : String)
      (input : ResolutionInput) {e : EngineError}
      → (answer_found trim prompt number mint w planned d actor input).thrown ≡ some e
      → ((answer_found trim prompt number mint w planned d actor input).world ≡ w)
        ⊎ OnlyAnswered w d actor input
            (answer_found trim prompt number mint w planned d actor input).world
  unfolding answer_found
  answer_found-refused w planned d actor input h =
      elim (Bool-cases (is_budget_decision d && not (is_offered d input.option_id))) [
        | inl a ↦ inl (rw a refl)
        | inr b ↦
            elim (Bool-cases (
              is_coverage_decision d
              && (is_some (given input.option_id) && not (is_offered d input.option_id)))) [
                | inl a ↦ inl (rw (b, a) refl)
                | inr c ↦ elim (Option-cases (budget_to_raise d input)) [
                  | inl plain ↦
                      rw (b, c, plain)
                        (answer_plainly-refused w planned d actor input (rw (b, c, plain) at h))
                  | inr (budget, raises) ↦ inl (
                      rw (b, c, raises)
                        (answer_raise-refused w d.id actor input budget
                          (read_value (number budget) (given input.text)) (rw (b, c, raises) at h)))
                ]
              ]
      ]

  -- An answer that throws has written nothing; or it has answered the decision on coverage, and what the
  -- owner chose by it is not carried out.
  pub answer-refused :
      (w : World) (planned : Planned) (id : ℕ) (actor : String) (input : ResolutionInput)
      (e : EngineError)
      → (answer trim prompt number mint w planned id actor input).thrown ≡ some e
      → ((answer trim prompt number mint w planned id actor input).world ≡ w)
        ⊎ ((d : StoredDecision) × (find? (has_id id) w.decisions ≡ some d)
            × OnlyAnswered w d actor input
                (answer trim prompt number mint w planned id actor input).world)
  unfolding answer
  answer-refused w planned id actor input e h =
      elim (Bool-cases
        (not (is_some (trimmed trim input.text)) && not (is_some (given input.option_id)))) [
          | inl silent ↦ inl (rw silent refl)
          | inr said ↦ elim (Option-cases (find? (has_id id) w.decisions)) [
            | inl missing ↦ inl (rw (said, missing) refl)
            | inr (d, found) ↦
                elim (answer_found-refused w planned d actor input (rw (said, found) at h)) [
                  | inl same ↦ inl (rw (said, found) same)
                  | inr half ↦ inr (d, found, rw (said, found) half)
                ]
          ]
        ]

  -- An answer that goes through to the decision on the budgets, or by an option to the one on coverage,
  -- names an option that the decision offers.
  pub answer-offered :
      (w : World) (planned : Planned) (id : ℕ) (actor : String) (input : ResolutionInput)
      (d : StoredDecision)
      → find? (has_id id) w.decisions ≡ some d
      → (answer trim prompt number mint w planned id actor input).thrown ≡ none
      → (is_budget_decision d ≡ true → is_offered d input.option_id ≡ true)
        × (is_coverage_decision d ≡ true
            → is_some (given input.option_id) ≡ true
            → is_offered d input.option_id ≡ true)
  unfolding answer answer_found
  answer-offered w planned id actor input d found h =
      elim (Bool-cases
        (not (is_some (trimmed trim input.text)) && not (is_some (given input.option_id)))) [
          | inl silent ↦ cc (rw silent at h)
          | inr said ↦
              elim (Bool-cases (is_budget_decision d && not (is_offered d input.option_id))) [
                | inl a ↦ cc (rw (said, found, a) at h)
                | inr b ↦
                    elim (Bool-cases (
                      is_coverage_decision d
                      && (is_some (given input.option_id) && not (is_offered d input.option_id)))) [
                        | inl a ↦ cc (rw (said, found, b, a) at h)
                        | inr c ↦ (λ t. ground (arith, b, t), λ t g. ground (arith, c, t, g))
                      ]
              ]
        ]
