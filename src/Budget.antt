-- ===== src/Budget.antt =====
-- Spend and its budgets: packages/core/src/budgets.ts. An amount of money is in billionths of a
-- dollar and a duration in milliseconds, exact numbers in place of the source's floats.
pub mod Laws
use specmate.Prelude.{
  ℕ, ◌+◌, ◌*◌, Bool, true, false, not, List, [], ◌∷◌, ◌++◌, Option, none, some, leb, is_empty,
  if◌then◌else◌, String,
}
use specmate.Lifecycle.{Budgets}

-- `BudgetKey`.
pub data BudgetKey : Type 0 where
  max_cost_usd max_wall_clock_minutes : BudgetKey

pub record SpendAttempt : Type 0 where
  pub cost_usd : Option ℕ
  pub duration_ms : Option ℕ

-- The source keeps `agentMinutes`, which is the duration over 60,000.
pub record Spend : Type 0 where
  pub cost_usd : ℕ
  pub cost_complete : Bool
  pub duration_ms : ℕ

abbrev pub no_spend : Spend
no_spend = record { cost_usd = 0; cost_complete = true; duration_ms = 0 }

abbrev add_cost : Option ℕ → Spend → Spend
add_cost none s = record s { cost_complete = false }
add_cost (some c) s = record s { cost_usd = s.cost_usd + c }

abbrev add_duration : Option ℕ → Spend → Spend
add_duration none s = s
add_duration (some ms) s = record s { duration_ms = s.duration_ms + ms }

-- The loop of `computeSpend`, from the sums so far.
abbrev pub spend_from : Spend → List SpendAttempt → Spend
spend_from s [] = s
spend_from s (a ∷ attempts) =
    spend_from (add_duration a.duration_ms (add_cost a.cost_usd s)) attempts

-- `computeSpend`.
unfoldable pub compute_spend : List SpendAttempt → Spend
compute_spend attempts = spend_from no_spend attempts

pub record BudgetExhaustion : Type 0 where
  pub exhausted : Bool
  pub reached : List BudgetKey

-- `agentMinutes >= max - BUDGET_EPSILON`, with both sides times 60,000 billions.
abbrev pub minutes_reached : Spend → Budgets → Bool
minutes_reached spend budgets =
    leb (60000 * (1000000000 * budgets.max_wall_clock_minutes))
      (1000000000 * spend.duration_ms + 60000)

-- `costUsd >= max - BUDGET_EPSILON`, in billionths.
abbrev pub cost_reached : Spend → Budgets → Bool
cost_reached spend budgets = leb budgets.max_cost_usd (spend.cost_usd + 1)

-- `budgetExhaustion`.
unfoldable pub budget_exhaustion : Spend → Budgets → BudgetExhaustion
budget_exhaustion spend budgets =
    let reached =
      (if minutes_reached spend budgets then max_wall_clock_minutes ∷ [] else [])
      ++ (if cost_reached spend budgets then max_cost_usd ∷ [] else []) in
    record { exhausted = not (is_empty reached); reached = reached }
