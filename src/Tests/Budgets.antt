-- ===== src/Tests/Budgets.antt =====
-- A budget of three calls.
use ai_rpg.Prelude.{◌≤◌, ◌≡◌, ◌↔◌, refl, ok, IsOk}
use ai_rpg.Prelude.Int.{pos, pos_part}
use ai_rpg.Budget.{CallBudget, call_budget, reserve_times, reserve_times-call_budget}

abbrev three_calls : CallBudget
three_calls = record { limit = 3; reserved = 0 }

made : call_budget (pos 3) ≡ ok three_calls
unfolding call_budget
made = refl

reserve_times-call_budget_example :
    (3 ≡ pos_part (pos 3)) × (IsOk (reserve_times 2 three_calls) ↔ (2 ≤ pos_part (pos 3)))
reserve_times-call_budget_example = reserve_times-call_budget (pos 3) three_calls 2 made
