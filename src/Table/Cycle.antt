-- ===== src/Table/Cycle.antt =====
-- The places of a ring, as indexes below its size: the next place, the places from one up to
-- another, and the way between two.
use lone.Prelude.{
  ℕ, ◌+◌, ◌-◌, ◌%◌, ◌^◌, ◌<◌, ◌≡◌, ◌≢◌, ◌⊎◌, inl, inr, ap, ◌∙◌, arith, Bool, true, false, ltb, leb,
  ◌==◌, ◌&&◌, ◌||◌, if◌then◌else◌, bit_and, bit_and-ones, Bool-cases,
}
use native.Mathlib.Nat.{mod_self, mod-eq_of_lt}
use lone.Table.{wrap_around, fills_hole}

abbrev pub next : ℕ → ℕ → ℕ
next cap i = if i + 1 == cap then 0 else i + 1

-- Whether `x` is met from `h` on before `s`.
abbrev pub between : ℕ → ℕ → ℕ → Bool
between h s x = if leb h s then leb h x && ltb x s else leb h x || ltb x s

-- The number of steps from `i` to `e`.
abbrev pub distance : ℕ → ℕ → ℕ → ℕ
distance cap i e = if leb i e then e - i else cap - i + e

pub wrap_around-next : (k cap i : ℕ) → cap ≡ 2 ^ k → i < cap → wrap_around (i + 1) cap ≡ next cap i
unfolding wrap_around
wrap_around-next k cap i e h =
    let m : bit_and (i + 1) (cap - 1) ≡ (i + 1) % cap = rw (e) (bit_and-ones k (i + 1)) in
    m ∙ (elim (Bool-cases (i + 1 == cap)) [
      | inl f ↦
          rw (f)
            (ap (λ (t : ℕ). t % cap) (let w : i + 1 ≡ cap = ground (arith, f) in w) ∙ mod_self cap)
      | inr f ↦ rw (f) (let l : i + 1 < cap = ground (arith, f) in mod-eq_of_lt l)
    ])

module _ (cap : ℕ) where
  pub next-lt : (i : ℕ) → i < cap → next cap i < cap
  next-lt i h = ground arith

  pub distance-next :
      (i e : ℕ) → i < cap → e < cap → i ≢ e → distance cap (next cap i) e + 1 ≡ distance cap i e
  distance-next i e h g ne = ground arith

  pub distance-lt : (i e : ℕ) → i < cap → e < cap → distance cap i e < cap
  distance-lt i e h g = ground arith

  pub between-next :
      (i r x : ℕ)
      → i < cap
      → r < cap
      → x < cap
      → between i r x ≡ true
      → (x ≡ i) ⊎ (between (next cap i) r x ≡ true)
  between-next i r x h g l b = elim (Bool-cases (x == i)) [
    | inl e ↦ inl (ground (arith, e))
    | inr e ↦ inr (ground (arith, e, b))
  ]

pub between_total : (h r s : ℕ) → r ≢ s → between h r s ≡ false → between h s r ≡ true
between_total h r s ne b = ground arith

pub not-between_self : (h s : ℕ) → between h s s ≡ false
not-between_self h s = ground arith

pub fills_hole-between : (i j k : ℕ) → i ≢ j → fills_hole i j k ≡ between k j i
unfolding fills_hole
fills_hole-between i j k ne = ground arith

-- A place on the way from `h` to `s` that is met before `i` is met before `s`.
pub between_trans :
    (h s i x : ℕ) → between h s i ≡ true → between h i x ≡ true → between h s x ≡ true
between_trans h s i x a b = ground arith

-- A place `s` that is not met after `i` up to `n` has `n` on its way, where it has `i`.
pub between-beyond :
    (cap h s i n : ℕ)
    → i < cap
    → n < cap
    → s < cap
    → i ≢ n
    → s ≢ i
    → s ≢ n
    → between (next cap i) n s ≡ false
    → between h s i ≡ true
    → between h s n ≡ true
between-beyond cap h s i n li ln ls a b c out b1 = ground arith

-- The places up to the next one are those up to this one and this one.
pub between-extend :
    (cap i n s : ℕ)
    → i < cap
    → n < cap
    → s < cap
    → n ≢ i
    → between (next cap i) (next cap n) s ≡ true
    → (s ≡ n) ⊎ (between (next cap i) n s ≡ true)
between-extend cap i n s li ln ls ne b = elim (Bool-cases (s == n)) [
  | inl e ↦ inl (ground (arith, e))
  | inr e ↦ inr (ground (arith, e, b))
]

-- Whether `j` is met from `i` on no later than `e`.
abbrev pub Ahead : ℕ → ℕ → ℕ → ℕ → Type 0
Ahead cap i j e = distance cap i j + distance cap j e ≡ distance cap i e

pub Ahead-next :
    (cap i j e : ℕ)
    → i < cap
    → j < cap
    → e < cap
    → i ≢ e
    → j ≢ e
    → Ahead cap i j e
    → Ahead cap i (next cap j) e
Ahead-next cap i j e li lj le a b h = ground (arith, h)

pub next-apart :
    (cap i j e : ℕ) → i < cap → j < cap → e < cap → j ≢ e → Ahead cap i j e → next cap j ≢ i
next-apart cap i j e li lj le b h same = ground (arith, h, same)

pub Ahead-here : (cap i e : ℕ) → Ahead cap i i e
Ahead-here cap i e = ground arith
