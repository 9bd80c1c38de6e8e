-- ===== src/BuildPc/Budget.antt =====
-- The two ends of the budget slider.
use build_a_computer.Base.{ℕ, ◌+◌, ◌≤◌, arith}
use build_a_computer.BuildPc.{budget_min, budget_max, budget_step, handle_low, handle_high}

-- The ends are of the range, and a step apart.
unfoldable pub IsBudget : ℕ × ℕ → Type 0
IsBudget b = (budget_min ≤ b.0) × ((b.0 + budget_step ≤ b.1) × (b.1 ≤ budget_max))

pub handle_low-IsBudget :
    (v : ℕ) (b : ℕ × ℕ) → budget_min ≤ v → IsBudget b → IsBudget (handle_low v b)
unfolding IsBudget handle_low
handle_low-IsBudget v (low, high) h i = ground arith

pub handle_high-IsBudget :
    (v : ℕ) (b : ℕ × ℕ) → v ≤ budget_max → IsBudget b → IsBudget (handle_high v b)
unfolding IsBudget handle_high
handle_high-IsBudget v (low, high) h i = ground arith
