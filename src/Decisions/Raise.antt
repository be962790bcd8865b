-- ===== src/Decisions/Raise.antt =====
-- The options of a budget's decision, and what blocks a task: packages/core/src/decisions.ts.
use mathlib.Core.List.Memᴰ
use specmate.Prelude.{
  ◌≡◌, refl, ◌↔◌, inl, inr, List, [], ◌∷◌, ◌++◌, map, some, String, string_eq, arith, Memᴰ,
  Memᴰ-cons, Memᴰ-append, beq_cases, sym, ap, ◌∙◌,
}
use specmate.Budget.{BudgetKey, max_cost_usd, max_wall_clock_minutes}
use specmate.Decisions.{
  DecisionOption, budget_raise_option_id, budget_from_raise_option, budget_exhaustion_decision,
  raise_option, decision_status_eq, budget_decision_cancel_option,
}

distinct_options :
    ¬ (budget_raise_option_id max_cost_usd ≡ budget_raise_option_id max_wall_clock_minutes)
unfolding budget_raise_option_id
distinct_options e =
    let t = (string_eq.beq_iff "raise:max_cost_usd" "raise:max_wall_clock_minutes").1 e in cc

cancel_raises-nothing :
    (budget : BudgetKey) → ¬ (budget_decision_cancel_option ≡ budget_raise_option_id budget)
unfolding budget_raise_option_id
cancel_raises-nothing max_cost_usd e =
    let t = (string_eq.beq_iff "cancel" "raise:max_cost_usd").1 e in cc
cancel_raises-nothing max_wall_clock_minutes e =
    let t = (string_eq.beq_iff "cancel" "raise:max_wall_clock_minutes").1 e in cc

budget_raise_option_id-injective :
    (a b : BudgetKey) → budget_raise_option_id a ≡ budget_raise_option_id b → a ≡ b
budget_raise_option_id-injective max_cost_usd max_cost_usd e = refl
budget_raise_option_id-injective max_cost_usd max_wall_clock_minutes e = absurd (distinct_options e)
budget_raise_option_id-injective max_wall_clock_minutes max_cost_usd e =
    absurd (distinct_options (sym e))
budget_raise_option_id-injective max_wall_clock_minutes max_wall_clock_minutes e = refl

abbrev cancel_option : DecisionOption
cancel_option = record { id = budget_decision_cancel_option; label = "Cancel this task" }

-- An option with the id of a raise option is one of the reached budgets'.
offered :
    (reached : List BudgetKey) (budget : BudgetKey) (o : DecisionOption)
    → Memᴰ o (map raise_option reached ++ cancel_option ∷ [])
    → o.id ≡ budget_raise_option_id budget
    → Memᴰ budget reached
offered [] budget o m e = elim ((Memᴰ-cons o cancel_option []).0 m) [
  | inl same ↦
      absurd (cancel_raises-nothing budget (sym (ap (λ (x : DecisionOption). x.id) same) ∙ e))
  | inr later ↦ absurd (Memᴰ.not-nil later)
]
offered (b ∷ reached) budget o m e = elim ((Memᴰ-cons o (raise_option b) _).0 m) [
  | inl same ↦ Memᴰ.head (
      sym (
        budget_raise_option_id-injective b budget
          (sym (ap (λ (x : DecisionOption). x.id) same) ∙ e)))
  | inr later ↦ Memᴰ.tail (offered reached budget o later e)
]

offers :
    (reached : List BudgetKey) (budget : BudgetKey)
    → Memᴰ budget reached
    → Memᴰ (raise_option budget) (map raise_option reached)
offers [] budget m = absurd (Memᴰ.not-nil m)
offers (b ∷ reached) budget (Memᴰ.head e) = Memᴰ.head (ap raise_option e)
offers (b ∷ reached) budget (Memᴰ.tail m) = Memᴰ.tail (offers reached budget m)

-- An option's id names a budget exactly where it is the id of that budget's raise option.
pub budget_from_raise_option_iff :
    (id : String) (budget : BudgetKey)
    → (budget_from_raise_option id ≡ some budget) ↔ (id ≡ budget_raise_option_id budget)
unfolding budget_from_raise_option
budget_from_raise_option_iff id max_cost_usd =
    ground (arith, string_eq.beq_iff id (budget_raise_option_id max_cost_usd))
budget_from_raise_option_iff id max_wall_clock_minutes =
    elim (beq_cases id (budget_raise_option_id max_cost_usd)) [
      | inl (t, same) ↦
          (λ h. absurd (cc (rw t at h)), λ e. absurd (distinct_options ((sym same) ∙ e)))
      | inr (f, other) ↦ elim (beq_cases id (budget_raise_option_id max_wall_clock_minutes)) [
        | inl (t, same) ↦ (λ h. same, λ e. rw (f, t) refl)
        | inr (g, differs) ↦ (λ h. absurd (cc (rw (f, g) at h)), λ e. absurd (differs e))
      ]
    ]

-- The decision on a spent budget offers to raise a budget exactly where that budget is reached.
pub budget_exhaustion_decision-offers :
    (reached : List BudgetKey) (prompt : String) (budget : BudgetKey)
    → ((o : DecisionOption) × (Memᴰ o (budget_exhaustion_decision reached prompt).options
          × (budget_from_raise_option o.id ≡ some budget)))
      ↔ Memᴰ budget reached
unfolding budget_exhaustion_decision
budget_exhaustion_decision-offers reached prompt budget = (
  λ (o, (m, e)). offered reached budget o m ((budget_from_raise_option_iff o.id budget).0 e),
  λ m. (
    raise_option budget,
    (
      (Memᴰ-append _ (map raise_option reached) _).1 (inl (offers reached budget m)),
      (budget_from_raise_option_iff (budget_raise_option_id budget) budget).1 refl,
    ),
  ),
)
