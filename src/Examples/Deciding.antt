-- ===== src/Examples/Deciding.antt =====
-- Budgets and the decision that a spent one raises, packages/core/src/budgets.ts and decisions.ts, on
-- the default budgets.
use specmate.Prelude.{true, [], ◌∷◌, some, none, ◌≡◌, refl, string_eq}
use specmate.Lifecycle.{default_budgets}
use specmate.Budget.{SpendAttempt, compute_spend, budget_exhaustion}

abbrev dear : SpendAttempt
dear = record { cost_usd = some 19999999999; duration_ms = some 5000 }

abbrev unpriced : SpendAttempt
unpriced = record { cost_usd = none; duration_ms = some 9 }

dear_exhausts : (budget_exhaustion (compute_spend (dear ∷ [])) default_budgets).exhausted ≡ true
unfolding budget_exhaustion compute_spend
dear_exhausts = refl
