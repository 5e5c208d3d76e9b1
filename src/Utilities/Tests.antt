-- ===== src/Utilities/Tests.antt =====
-- Powers of two near a number.
use lone.Prelude.{ℕ, ◌≤◌, ◌^◌, ◌≡◌, arith}
use lone.Utilities.{next_power_of_2}
use lone.Utilities.Power.{next_power_of_2-IsLeast}

next_power_of_2-IsLeast_example :
    (k : ℕ) × (next_power_of_2 17 ≡ 2 ^ k) × (17 ≤ 2 ^ k) × ((j : ℕ) → 17 ≤ 2 ^ j → 2 ^ k ≤ 2 ^ j)
next_power_of_2-IsLeast_example = next_power_of_2-IsLeast 17 (omega arith)
