-- ===== src/Memory/Words.antt =====
-- A word of memory and its eight bytes.
use lone.Prelude.{
  IsByte, ℕ, zero, suc, ◌+◌, ◌*◌, ◌≤◌, ◌≡◌, refl, sym, ap, ap₂, ◌∙◌, arith, List, [], ◌∷◌, length,
  length-take, take, drop, All, ◌==◌,
}
use lone.Bytes.{u64le_read}
use lone.Bytes.Endian.{u64le_read_sum}
use lone.Memory.{zero_bytes}

-- The number that bytes spell, lowest first.
pub number : List ℕ → ℕ
number [] = 0
number (b ∷ p) = b + number p * 256

-- A read of eight bytes or more is the number of the first eight.
pub u64le_read-number :
    (p : List ℕ) → All IsByte p → 8 ≤ length p → u64le_read p ≡ number (take 8 p)
unfolding number
u64le_read-number (b0 ∷ b1 ∷ b2 ∷ b3 ∷ b4 ∷ b5 ∷ b6 ∷ b7 ∷ p) h l =
    omega (arith, u64le_read_sum (b0 ∷ b1 ∷ b2 ∷ b3 ∷ b4 ∷ b5 ∷ b6 ∷ b7 ∷ p) h)
u64le_read-number [] h l = absurd (omega arith)
u64le_read-number (b0 ∷ []) h l = absurd (omega arith)
u64le_read-number (b0 ∷ b1 ∷ []) h l = absurd (omega arith)
u64le_read-number (b0 ∷ b1 ∷ b2 ∷ []) h l = absurd (omega arith)
u64le_read-number (b0 ∷ b1 ∷ b2 ∷ b3 ∷ []) h l = absurd (omega arith)
u64le_read-number (b0 ∷ b1 ∷ b2 ∷ b3 ∷ b4 ∷ []) h l = absurd (omega arith)
u64le_read-number (b0 ∷ b1 ∷ b2 ∷ b3 ∷ b4 ∷ b5 ∷ []) h l = absurd (omega arith)
u64le_read-number (b0 ∷ b1 ∷ b2 ∷ b3 ∷ b4 ∷ b5 ∷ b6 ∷ []) h l = absurd (omega arith)

number-injective :
    (p q : List ℕ) → All IsByte p → All IsByte q → length p ≡ length q → number p ≡ number q → p ≡ q
unfolding number
number-injective [] [] h g l e = refl
number-injective [] (b ∷ q) h g l e = absurd (omega arith)
number-injective (a ∷ p) [] h g l e = absurd (omega arith)
number-injective (a ∷ p) (b ∷ q) h g l e =
    let head : a ≡ b = omega (arith, h.0, g.0) in
    let tail : number p ≡ number q = omega (arith, h.0, g.0) in
    ap₂ (λ (x : ℕ) (xs : List ℕ). x ∷ xs) head (number-injective p q h.1 g.1 (omega arith) tail)

pub All-take : (n : ℕ) (p : List ℕ) → All IsByte p → All IsByte (take n p)
All-take zero p h = tt
All-take (suc n) [] h = tt
All-take (suc n) (b ∷ p) h = (h.0, All-take n p h.1)

pub All-drop : (n : ℕ) (p : List ℕ) → All IsByte p → All IsByte (drop n p)
All-drop zero p h = h
All-drop (suc n) [] h = h
All-drop (suc n) (b ∷ p) h = All-drop n p h.1

take_eight : (p : List ℕ) → 8 ≤ length p → length (take 8 p) ≡ 8
take_eight p l = omega (arith, length-take 8 p)

-- Equal words have equal bytes.
pub u64le_read-injective :
    (p q : List ℕ)
    → All IsByte p
    → All IsByte q
    → 8 ≤ length p
    → 8 ≤ length q
    → u64le_read p ≡ u64le_read q
    → take 8 p ≡ take 8 q
u64le_read-injective p q h g l m e =
    number-injective (take 8 p) (take 8 q) (All-take 8 p h) (All-take 8 q g)
      (take_eight p l ∙ sym (take_eight q m))
      (sym (u64le_read-number p h l) ∙ e ∙ u64le_read-number q g m)

number-zero : (p : List ℕ) → (number p == 0) ≡ zero_bytes p
unfolding number zero_bytes
number-zero [] = refl
number-zero (zero ∷ p) = ground (arith, number-zero p)
number-zero (suc b ∷ p) = ground (arith)

-- A word is zero where its bytes are.
pub u64le_read-zero :
    (p : List ℕ) → All IsByte p → 8 ≤ length p → (u64le_read p == 0) ≡ zero_bytes (take 8 p)
u64le_read-zero p h l = ap (λ (n : ℕ). n == 0) (u64le_read-number p h l) ∙ number-zero (take 8 p)
