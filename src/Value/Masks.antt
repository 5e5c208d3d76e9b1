-- ===== src/Value/Masks.antt =====
-- Masks of the low and of the high bits of a word.
use lone.Prelude.{
  ℕ, zero, suc, ◌+◌, ◌-◌, ◌*◌, ◌/◌, ◌%◌, ◌^◌, ◌<◌, ◌≡◌, ap, arith, min, bit_and, bit_and_digit,
  bit_and-zero, bit_and-ones,
}
use native.Mathlib.Nat.{two-pow-succ, one-le-pow}

double_field : (q k : ℕ) → q * 2 ^ suc k ≡ q * 2 ^ k * 2
double_field q k = omega (arith, ap (λ (t : ℕ). q * t) (two-pow-succ k))

bit_and-low_sum : (k q r m : ℕ) → r < 2 ^ k → m < 2 ^ k → bit_and (q * 2 ^ k + r) m ≡ bit_and r m
bit_and-low_sum zero q r zero h g = ground (arith, bit_and-zero (q * 1 + r), bit_and-zero r)
bit_and-low_sum zero q r (suc m) h g = absurd (omega arith)
bit_and-low_sum (suc k) q r m h g = omega (
  arith,
  bit_and_digit (q * 2 ^ suc k + r) m,
  bit_and_digit r m,
  double_field q k,
  ap (λ (t : ℕ). min t (m % 2))
      (let e : (q * 2 ^ suc k + r) % 2 ≡ r % 2 = omega (arith, double_field q k) in e),
  ap (λ (t : ℕ). bit_and t (m / 2))
      (let e : (q * 2 ^ suc k + r) / 2 ≡ q * 2 ^ k + r / 2 = omega (arith, double_field q k) in e),
  bit_and-low_sum k q (r / 2) (m / 2) (omega (arith, two-pow-succ k))
      (omega (arith, two-pow-succ k)),
)

-- A mask that fits in `k` bits reads no higher bit.
pub bit_and-low : (k a m : ℕ) → m < 2 ^ k → bit_and a m ≡ bit_and (a % 2 ^ k) m
bit_and-low k a m h =
    let whole : a / 2 ^ k * 2 ^ k + a % 2 ^ k ≡ a = ground (arith, one-le-pow k 2) in
    let e : bit_and (a / 2 ^ k * 2 ^ k + a % 2 ^ k) m ≡ bit_and (a % 2 ^ k) m =
      bit_and-low_sum k (a / 2 ^ k) (a % 2 ^ k) m (ground (arith, one-le-pow k 2)) h in
    rw (whole) at e

pub bit_and-double : (a m : ℕ) → bit_and a (m * 2) ≡ bit_and (a / 2) m * 2
bit_and-double a m = omega (
  arith,
  bit_and_digit a (m * 2),
  ap (λ (t : ℕ). bit_and (a / 2) t) (let e : m * 2 / 2 ≡ m = omega arith in e),
)

-- Clearing the low byte of a word.
pub bit_and-high : (w : ℕ) → w < 2 ^ 64 → bit_and w (2 ^ 64 - 1 - 0xFF) ≡ w / 256 * 256
bit_and-high w h = omega (
  arith,
  bit_and-double w 0x7FFFFFFFFFFFFF80,
  bit_and-double (w / 2) 0x3FFFFFFFFFFFFFC0,
  bit_and-double (w / 2 / 2) 0x1FFFFFFFFFFFFFE0,
  bit_and-double (w / 2 / 2 / 2) 0xFFFFFFFFFFFFFF0,
  bit_and-double (w / 2 / 2 / 2 / 2) 0x7FFFFFFFFFFFFF8,
  bit_and-double (w / 2 / 2 / 2 / 2 / 2) 0x3FFFFFFFFFFFFFC,
  bit_and-double (w / 2 / 2 / 2 / 2 / 2 / 2) 0x1FFFFFFFFFFFFFE,
  bit_and-double (w / 2 / 2 / 2 / 2 / 2 / 2 / 2) 0xFFFFFFFFFFFFFF,
  bit_and-ones 56 (w / 2 / 2 / 2 / 2 / 2 / 2 / 2 / 2),
)
