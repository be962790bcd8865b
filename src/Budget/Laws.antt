-- ===== src/Budget/Laws.antt =====
-- What is counted and when a budget is reached: packages/core/src/budgets.ts.
use specmate.Prelude.{
  ℕ, ◌+◌, ◌*◌, ◌≤◌, ◌≡◌, refl, ◌↔◌, ◌⊎◌, inl, inr, Bool, true, false, not, List, [], ◌∷◌, ◌++◌,
  Option, none, some, leb_iff, is_empty, if◌then◌else◌, arith,
}
use specmate.Lifecycle.{Budgets}
use specmate.Budget.{
  BudgetKey, SpendAttempt, Spend, compute_spend, spend_from, budget_exhaustion, no_spend, add_cost,
  add_duration, max_cost_usd, max_wall_clock_minutes, cost_reached, minutes_reached,
}

module _ (ys : List SpendAttempt) where
  spend_from-append :
      (xs : List SpendAttempt) (s : Spend)
      → spend_from s (xs ++ ys) ≡ spend_from (spend_from s xs) ys
  spend_from-append [] s = refl
  spend_from-append (x ∷ xs) s =
      spend_from-append xs (add_duration x.duration_ms (add_cost x.cost_usd s))

-- The amounts of `s` are at most those of `t`.
record IsBelow (s t : Spend) : Type 0 where
  pub cost : s.cost_usd ≤ t.cost_usd
  pub time : s.duration_ms ≤ t.duration_ms

step-IsBelow : (c d : Option ℕ) (s : Spend) → IsBelow s (add_duration d (add_cost c s))
step-IsBelow none none s = record { cost = omega arith; time = omega arith }
step-IsBelow none (some d) s = record { cost = omega arith; time = omega arith }
step-IsBelow (some c) none s = record { cost = omega arith; time = omega arith }
step-IsBelow (some c) (some d) s = record { cost = omega arith; time = omega arith }

spend_from-IsBelow : (xs : List SpendAttempt) (s : Spend) → IsBelow s (spend_from s xs)
spend_from-IsBelow [] s = record { cost = omega arith; time = omega arith }
spend_from-IsBelow (x ∷ xs) s =
    let next = add_duration x.duration_ms (add_cost x.cost_usd s) in
    let one = step-IsBelow x.cost_usd x.duration_ms s in
    let more = spend_from-IsBelow xs next in
    record { cost = omega (arith, one.cost, more.cost); time = omega (arith, one.time, more.time) }

reached_of : Bool → Bool → List BudgetKey
reached_of minutes cost =
    (if minutes then max_wall_clock_minutes ∷ [] else [])
    ++ (if cost then max_cost_usd ∷ [] else [])

not_empty_iff :
    (minutes cost : Bool)
    → (not (is_empty (reached_of minutes cost)) ≡ true) ↔ ((minutes ≡ true) ⊎ (cost ≡ true))
unfolding reached_of
not_empty_iff true cost = (λ h. inl refl, λ e. refl)
not_empty_iff false true = (λ h. inr refl, λ e. refl)
not_empty_iff false false = (λ h. cc, λ e. ground arith)

-- A spend is exhausted exactly where its duration or its cost is at most the tolerance short of the
-- budget, whether or not the cost is complete.
pub budget_exhaustion-exhausted_iff :
    (spend : Spend) (budgets : Budgets)
    → ((budget_exhaustion spend budgets).exhausted ≡ true) ↔ (
        (60000 * (1000000000 * budgets.max_wall_clock_minutes)
          ≤ 1000000000 * spend.duration_ms + 60000)
        ⊎ (budgets.max_cost_usd ≤ spend.cost_usd + 1))
unfolding budget_exhaustion reached_of
budget_exhaustion-exhausted_iff spend budgets = ground (
  arith,
  not_empty_iff (minutes_reached spend budgets) (cost_reached spend budgets),
  leb_iff (60000 * (1000000000 * budgets.max_wall_clock_minutes))
      (1000000000 * spend.duration_ms + 60000),
  leb_iff budgets.max_cost_usd (spend.cost_usd + 1),
)

budget_exhaustion-IsBelow :
    (s t : Spend) (budgets : Budgets)
    → IsBelow s t
    → (budget_exhaustion s budgets).exhausted ≡ true
    → (budget_exhaustion t budgets).exhausted ≡ true
budget_exhaustion-IsBelow s t budgets below h =
    (budget_exhaustion-exhausted_iff t budgets).1
      (elim ((budget_exhaustion-exhausted_iff s budgets).0 h) [
        | inl m ↦ inl (omega (arith, below.time))
        | inr c ↦ inr (omega (arith, below.cost))
      ])

-- A task that has reached a budget stays there: whatever runs after it, known cost or not, the
-- spend of all its runs has reached one too.
pub budget_exhaustion-append :
    (before after : List SpendAttempt) (budgets : Budgets)
    → (budget_exhaustion (compute_spend before) budgets).exhausted ≡ true
    → (budget_exhaustion (compute_spend (before ++ after)) budgets).exhausted ≡ true
unfolding compute_spend
budget_exhaustion-append before after budgets h = rw (spend_from-append after before no_spend) (
    budget_exhaustion-IsBelow (spend_from no_spend before) _ budgets
      (spend_from-IsBelow after (spend_from no_spend before)) h)
