-- ===== src/Utilities/Power.antt =====
-- That the next power of two is the least one that is not below the number.
use lone.Prelude.{
  ℕ, zero, suc, ◌+◌, ◌-◌, ◌%◌, ◌^◌, ◌≤◌, ◌<◌, ◌≡◌, inl, inr, refl, arith, leb, Bool-cases,
}
use native.Mathlib.Nat.{pow-le-pow_right}
use native.Mathlib.Decide.{dec_lt}
use lone.Bits.{clz}
use lone.Utilities.{next_power_of_2}

pub pow_mono : (a b : ℕ) → a ≤ b → 2 ^ a ≤ 2 ^ b
pow_mono a b h = let two : 0 < 2 = omega arith in pow-le-pow_right two h

pub pow_reflects : (a b : ℕ) → 2 ^ a < 2 ^ b → a < b
pow_reflects a b h = elim (dec_lt a b) [
  | yes l ↦ l
  | no l ↦ absurd (omega (arith, h, pow_mono b a (omega arith)))
]

-- The highest bit of a number is where its leading zeros end.
highest_bit :
    (w n : ℕ) → 0 < n → n < 2 ^ w → (b : ℕ) × (suc b + clz w n ≡ w) × (2 ^ b ≤ n) × (n < 2 ^ suc b)
unfolding clz
highest_bit zero n p h = absurd (omega arith)
highest_bit (suc w) n p h = elim (Bool-cases (leb (2 ^ w) n)) [
  | inl e ↦ (w, rw (e) (omega arith), ground (arith, e), h)
  | inr e ↦
      let rest = highest_bit w n p (ground (arith, e)) in
      (rest.0, rw (e) (omega (arith, rest.1)), rest.2, rest.3)
]

-- For a number of at most 2 ^ 63 the result is the least power of two that is not below it.
pub next_power_of_2-IsLeast :
    (n : ℕ)
    → n ≤ 2 ^ 63
    → (k : ℕ) × (next_power_of_2 n ≡ 2 ^ k) × (n ≤ 2 ^ k) × ((j : ℕ) → n ≤ 2 ^ j → 2 ^ k ≤ 2 ^ j)
unfolding next_power_of_2
next_power_of_2-IsLeast n h = elim (Bool-cases (leb n 1)) [
  | inl e ↦ (0, rw (e) refl, ground (arith, e), λ j l. pow_mono 0 j (omega arith))
  | inr e ↦
      let two : 1 < n = ground (arith, e) in
      let top = highest_bit 64 (n - 1) (omega arith) (omega arith) in
      let b : top.0 < 63 = pow_reflects top.0 63 (omega (arith, top.2)) in
      let shift : 64 - clz 64 (n - 1) ≡ suc top.0 = omega (arith, top.1) in
      let small = pow_mono (suc top.0) 63 b in
      let whole : 2 ^ suc top.0 % 2 ^ 64 ≡ 2 ^ suc top.0 = omega (arith, small) in
      (
        suc top.0,
        rw (e, shift) whole,
        omega (arith, top.3),
        λ j l. pow_mono (suc top.0) j (pow_reflects top.0 j (omega (arith, top.2, l))),
      )
]
