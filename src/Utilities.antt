-- ===== src/Utilities.antt =====
-- source/lone/utilities.c: the smaller and the larger of two numbers, and the next power of two.
pub mod Power
mod Tests
use lone.Prelude.{ℕ, ◌-◌, ◌*◌, ◌%◌, ◌^◌, Bool, true, false, ℤ, leb, leb_ℤ, if◌then◌else◌}
use lone.Bits.{clz}

unfoldable pub lone_min : ℤ → ℤ → ℤ
lone_min x y = if leb_ℤ x y then x else y

unfoldable pub lone_max : ℤ → ℤ → ℤ
lone_max x y = if leb_ℤ y x then x else y

-- A shift by 64 bits, which the C language leaves undefined, gives zero here.
unfoldable pub next_power_of_2 : ℕ → ℕ
next_power_of_2 n = if leb n 1 then 1 else 2 ^ (64 - clz 64 (n - 1)) % 2 ^ 64
