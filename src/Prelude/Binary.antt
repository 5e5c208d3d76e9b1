-- ===== src/Prelude/Binary.antt =====
-- `|` and `&` as arithmetic: the law for the lowest binary digit, and from it the law of a sum of
-- fields that do not overlap and of a mask of low bits, at every width; and the check of an
-- equation at every number below a bound by evaluation.
use Prim.Native.Nat.{ℕ, zero, suc, ◌+◌, ◌-◌, ◌*◌, ◌/◌, ◌%◌, ◌^◌, ◌≤◌, ◌<◌, min, max}
use Prim.Native.Nat.{bit_and, bit_or, digits, bitwise, bit_and-bitwise, bit_or-bitwise}
use mathlib.Core.Path.{◌≡◌, refl, ap, ap₂}
use mathlib.Core.Bool.{Bool, true, false, ◌&&◌}
use native.Mathlib.Omega.{arith}
use native.Mathlib.Nat.{two-pow-succ, one-le-pow}
use lone.Prelude.Tests.{◌==◌}

module _ (left : ℕ → ℕ) (digit : ℕ → ℕ → ℕ) where
  -- Any two counts of digits that reach the first number's end give the same result.
  digits_enough : (a b n m : ℕ) → a ≤ n → a ≤ m → digits left digit n a b ≡ digits left digit m a b
  digits_enough zero b zero zero h g = refl
  digits_enough zero b zero (suc m) h g = refl
  digits_enough zero b (suc n) zero h g = refl
  digits_enough zero b (suc n) (suc m) h g = refl
  digits_enough (suc a) b zero m h g = absurd (omega arith)
  digits_enough (suc a) b (suc n) zero h g = absurd (omega arith)
  digits_enough (suc a) b (suc n) (suc m) h g =
      ap (λ t. t * 2 + digit (suc a % 2) (b % 2))
        (digits_enough (suc a / 2) (b / 2) n m (omega arith) (omega arith))

  -- One binary digit of the operation at a time.
  bitwise-digit :
      (a b : ℕ)
      → bitwise left digit (suc a) b
        ≡ bitwise left digit (suc a / 2) (b / 2) * 2 + digit (suc a % 2) (b % 2)
  bitwise-digit a b =
      ap (λ t. t * 2 + digit (suc a % 2) (b % 2))
        (digits_enough (suc a / 2) (b / 2) a (suc a / 2) (omega arith) (omega arith))

pub bit_or_digit : (a b : ℕ) → bit_or a b ≡ bit_or (a / 2) (b / 2) * 2 + max (a % 2) (b % 2)
bit_or_digit zero b = omega (arith, bit_or-bitwise 0 b, bit_or-bitwise 0 (b / 2))
bit_or_digit (suc a) b = omega (
  arith,
  bit_or-bitwise (suc a) b,
  bit_or-bitwise (suc a / 2) (b / 2),
  bitwise-digit (λ y. y) max a b,
)

pub bit_and_digit : (a b : ℕ) → bit_and a b ≡ bit_and (a / 2) (b / 2) * 2 + min (a % 2) (b % 2)
bit_and_digit zero b = omega (arith, bit_and-bitwise 0 b, bit_and-bitwise 0 (b / 2))
bit_and_digit (suc a) b = omega (
  arith,
  bit_and-bitwise (suc a) b,
  bit_and-bitwise (suc a / 2) (b / 2),
  bitwise-digit (λ y. 0) min a b,
)

pub zero-bit_or : (b : ℕ) → bit_or 0 b ≡ b
zero-bit_or b = bit_or-bitwise 0 b

pub zero-bit_and : (b : ℕ) → bit_and 0 b ≡ 0
zero-bit_and b = bit_and-bitwise 0 b

bit_or-zero_below : (n a : ℕ) → a ≤ n → bit_or a 0 ≡ a
bit_or-zero_below n zero h = refl
bit_or-zero_below zero (suc a) h = absurd (omega arith)
bit_or-zero_below (suc n) (suc a) h =
    omega (arith, bit_or_digit (suc a) 0, bit_or-zero_below n (suc a / 2) (omega arith))

pub bit_or-zero : (a : ℕ) → bit_or a 0 ≡ a
bit_or-zero a = bit_or-zero_below a a (omega arith)

bit_and-zero_below : (n a : ℕ) → a ≤ n → bit_and a 0 ≡ 0
bit_and-zero_below n zero h = refl
bit_and-zero_below zero (suc a) h = absurd (omega arith)
bit_and-zero_below (suc n) (suc a) h =
    omega (arith, bit_and_digit (suc a) 0, bit_and-zero_below n (suc a / 2) (omega arith))

pub bit_and-zero : (a : ℕ) → bit_and a 0 ≡ 0
bit_and-zero a = bit_and-zero_below a a (omega arith)

double_field : (q k : ℕ) → q * 2 ^ suc k ≡ q * 2 ^ k * 2
double_field q k = omega (arith, ap (λ (t : ℕ). q * t) (two-pow-succ k))

-- A field shifted above `k` bits, joined with a number that fits in them, is their sum.
pub bit_or-disjoint : (k q r : ℕ) → r < 2 ^ k → bit_or (q * 2 ^ k) r ≡ q * 2 ^ k + r
bit_or-disjoint zero q r h = ground (arith, bit_or-zero q)
bit_or-disjoint (suc k) q r h = omega (
  arith,
  bit_or_digit (q * 2 ^ suc k) r,
  double_field q k,
  two-pow-succ k,
  ap (λ (t : ℕ). bit_or t (r / 2))
      (let e : q * 2 ^ suc k / 2 ≡ q * 2 ^ k = omega (arith, double_field q k) in e),
  bit_or-disjoint k q (r / 2) (omega (arith, two-pow-succ k)),
)

-- The same with the fields in the other order.
pub disjoint-bit_or : (k q r : ℕ) → r < 2 ^ k → bit_or r (q * 2 ^ k) ≡ q * 2 ^ k + r
disjoint-bit_or zero q zero h = ground (arith, bit_or-bitwise 0 (q * 1))
disjoint-bit_or zero q (suc r) h = absurd (omega arith)
disjoint-bit_or (suc k) q r h = omega (
  arith,
  bit_or_digit r (q * 2 ^ suc k),
  double_field q k,
  two-pow-succ k,
  ap (λ (t : ℕ). bit_or (r / 2) t)
      (let e : q * 2 ^ suc k / 2 ≡ q * 2 ^ k = omega (arith, double_field q k) in e),
  disjoint-bit_or k q (r / 2) (omega (arith, two-pow-succ k)),
)

bit_and-ones_sum : (k q r : ℕ) → r < 2 ^ k → bit_and (q * 2 ^ k + r) (2 ^ k - 1) ≡ r
bit_and-ones_sum zero q r h = ground (arith, bit_and-zero (q * 1 + r))
bit_and-ones_sum (suc k) q r h = omega (
  arith,
  bit_and_digit (q * 2 ^ suc k + r) (2 ^ suc k - 1),
  double_field q k,
  two-pow-succ k,
  one-le-pow k 2 (omega arith),
  ap₂ bit_and
      (let e : (q * 2 ^ suc k + r) / 2 ≡ q * 2 ^ k + r / 2 = omega (arith, double_field q k) in e)
      (let e : (2 ^ suc k - 1) / 2 ≡ 2 ^ k - 1 = omega (arith, two-pow-succ k) in e),
  bit_and-ones_sum k q (r / 2) (omega (arith, two-pow-succ k)),
)

-- A mask of the `k` low bits is the remainder by `2 ^ k`.
pub bit_and-ones : (k a : ℕ) → bit_and a (2 ^ k - 1) ≡ a % 2 ^ k
bit_and-ones k a = ground (arith, one-le-pow k 2, bit_and-ones_sum k (a / 2 ^ k) (a % 2 ^ k))

module _ (f g : ℕ → ℕ) where
  unfoldable pub agree_below : ℕ → Bool
  agree_below zero = true
  agree_below (suc n) = f n == g n && agree_below n

  pub agree_below→eq : (n : ℕ) → agree_below n ≡ true → (i : ℕ) → i < n → f i ≡ g i
  unfolding agree_below
  agree_below→eq zero e i h = absurd (omega arith)
  agree_below→eq (suc n) e i h = ground (arith, agree_below→eq n (ground arith) i)

abbrev pub as_number : Bool → ℕ
as_number true = 1
as_number false = 0

pub as_number-injective : (a b : Bool) → as_number a ≡ as_number b → a ≡ b
as_number-injective true true e = refl
as_number-injective true false e = absurd (omega arith)
as_number-injective false true e = absurd (omega arith)
as_number-injective false false e = refl

-- Two predicates that agree on the numbers below `n` by evaluation.
pub agree_below→predicates :
    (p q : ℕ → Bool) (n : ℕ)
    → agree_below (λ i. as_number (p i)) (λ i. as_number (q i)) n ≡ true
    → (i : ℕ) → i < n
    → p i ≡ q i
agree_below→predicates p q n e i h =
    as_number-injective (p i) (q i)
      (agree_below→eq (λ i. as_number (p i)) (λ i. as_number (q i)) n e i h)
