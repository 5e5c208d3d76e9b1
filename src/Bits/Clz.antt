-- ===== src/Bits/Clz.antt =====
-- Leading zeros of a word that is a field above others.
use lone.Prelude.{ℕ, zero, suc, ◌+◌, ◌*◌, ◌^◌, ◌≤◌, ◌<◌, ◌≡◌, ◌≢◌, ap, ◌∙◌, sym, arith}
use native.Mathlib.Nat.{two-pow-succ, pow-le-pow_right}
use native.Mathlib.Decide.{dec_lt}
use lone.Bits.{clz}

pub two_pow-add : (n k : ℕ) → 2 ^ (n + k) ≡ 2 ^ n * 2 ^ k
two_pow-add zero k = ap (λ (t : ℕ). 2 ^ t) (let e : zero + k ≡ k = omega arith in e) ∙ omega arith
two_pow-add (suc n) k =
    ap (λ (t : ℕ). 2 ^ t) (let e : suc n + k ≡ suc (n + k) = omega arith in e)
    ∙ two-pow-succ (n + k)
    ∙ omega (arith, two_pow-add n k, ap (λ (t : ℕ). t * 2 ^ k) (two-pow-succ n))

clz_zero_bit : (k w : ℕ) → w < 2 ^ k → clz (suc k) w ≡ suc (clz k w)
unfolding clz
clz_zero_bit k w h = ground arith

clz_one_bit : (k w : ℕ) → 2 ^ k ≤ w → clz (suc k) w ≡ 0
unfolding clz
clz_one_bit k w h = ground arith

-- Zeros above a word of `k` bits.
pub clz_skip : (n k w : ℕ) → w < 2 ^ k → clz (n + k) w ≡ n + clz k w
clz_skip zero k w h =
    ap (λ (t : ℕ). clz t w) (let e : zero + k ≡ k = omega arith in e) ∙ omega arith
clz_skip (suc n) k w h =
    ap (λ (t : ℕ). clz t w) (let e : suc n + k ≡ suc (n + k) = omega arith in e)
    ∙ clz_zero_bit (n + k) w
        (omega (arith, pow-le-pow_right {n = 2} (omega arith) {i = k} {j = n + k} (omega arith)))
    ∙ omega (arith, clz_skip n k w h)

-- A field that is not zero hides what stands below it.
pub clz_field :
    (n k b r : ℕ) → b < 2 ^ n → b ≢ 0 → r < 2 ^ k → clz (n + k) (b * 2 ^ k + r) ≡ clz n b
clz_field zero k b r hb ne hr = absurd (omega arith)
clz_field (suc n) k b r hb ne hr =
    ap (λ (t : ℕ). clz t (b * 2 ^ k + r)) (let e : suc n + k ≡ suc (n + k) = omega arith in e)
    ∙ elim (dec_lt b (2 ^ n)) [
      | yes low ↦
          clz_zero_bit (n + k) (b * 2 ^ k + r) (rw (two_pow-add n k) (grind arith))
          ∙ ap suc (clz_field n k b r low ne hr)
          ∙ sym (clz_zero_bit n b low)
      | no high ↦
          clz_one_bit (n + k) (b * 2 ^ k + r) (rw (two_pow-add n k) (grind arith))
          ∙ sym (clz_one_bit n b (omega arith))
    ]
