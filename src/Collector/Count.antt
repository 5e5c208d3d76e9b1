-- ===== src/Collector/Count.antt =====
-- The number of bits of a bitmap that are not set.
use lone.Prelude.{
  ℕ, zero, suc, ◌+◌, ◌≤◌, ◌<◌, ◌≡◌, refl, sym, ap, ◌∙◌, arith, true, false, List, if◌then◌else◌,
  ◌==◌, Bool-cases, inl, inr,
}
use lone.Bits.{get}

abbrev pub unset_bits : ℕ → List ℕ → ℕ
unset_bits zero bits = 0
unset_bits (suc n) bits = (if get bits n then 0 else 1) + unset_bits n bits

pub unset_bits_mono :
    (n : ℕ) (bits after : List ℕ)
    → ((x : ℕ) → get bits x ≡ true → get after x ≡ true)
    → unset_bits n after ≤ unset_bits n bits
unset_bits_mono zero bits after h = omega arith
unset_bits_mono (suc n) bits after h =
    let rest = unset_bits_mono n bits after h in
    elim (Bool-cases (get bits n)) [
      | inl e ↦ let f = h n e in ground (arith, e, f, rest)
      | inr e ↦ ground (arith, e, rest)
    ]

same_bits :
    (n : ℕ) (bits after : List ℕ) (i : ℕ)
    → ((j : ℕ) → get after j ≡ (if i == j then true else get bits j))
    → n ≤ i
    → unset_bits n after ≡ unset_bits n bits
same_bits zero bits after i h l = refl
same_bits (suc n) bits after i h l =
    let rest = same_bits n bits after i h (omega arith) in
    let here = h n in
    let apart : (i == n) ≡ false = ground arith in ground (arith, rest, here, apart)

-- A bit that is set is one fewer.
pub unset_bits_fewer :
    (n : ℕ) (bits after : List ℕ) (i : ℕ)
    → ((j : ℕ) → get after j ≡ (if i == j then true else get bits j))
    → get bits i ≡ false
    → i < n
    → unset_bits n after + 1 ≡ unset_bits n bits
unset_bits_fewer zero bits after i h e l = absurd (omega arith)
unset_bits_fewer (suc n) bits after i h e l =
    let here = h n in
    elim (Bool-cases (i == n)) [
      | inl s ↦
          let same_index : i ≡ n = ground (arith, s) in
          let rest = same_bits n bits after i h (omega arith) in
          let was : get bits n ≡ false = ap (get bits) (sym same_index) ∙ e in
          ground (arith, rest, here, s, was)
      | inr s ↦
          let rest = unset_bits_fewer n bits after i h e (ground (arith, s)) in
          ground (arith, rest, here, s)
    ]

pub unset_bits-le : (n : ℕ) (bits : List ℕ) → unset_bits n bits ≤ n
unset_bits-le zero bits = omega arith
unset_bits-le (suc n) bits = let rest = unset_bits-le n bits in ground (arith, rest)
