-- ===== src/Memory/Compare.antt =====
-- `lone_memory_compare`, word by word, against the comparison byte by byte.
use lone.Prelude.{
  IsByte, ℕ, zero, suc, ◌+◌, ◌-◌, ◌*◌, ◌/◌, ◌≤◌, ◌<◌, ◌≡◌, ◌↔◌, ◌≢◌, refl, sym, ap, ap₂, ◌∙◌, arith,
  true, false, List, [], ◌∷◌, Option, none, some, length, length-drop, take, drop, drop-drop, All,
  ltb, ◌==◌, Bool-cases, inl, inr, ℤ, pos, negsuc, sub_ℕ, ◌++◌, ◌⊎◌,
}
use mathlib.Core.Path.{subst}
use native.Mathlib.Decide.{ℕ_discrete}
use lone.Bytes.{u64le_read}
use lone.Memory.{
  leading_bytes, mismatch, or_else, mismatch_words, difference, compare_memory, is_zero_result,
  is_equal,
}
use lone.Memory.Words.{All-drop, u64le_read-injective}

-- `z` is the byte `a` less the byte `b`.
abbrev pub Subtracts : ℕ → ℕ → ℤ → Type 0
Subtracts a b z = ((a < b) × (z ≡ negsuc (b - a - 1))) ⊎ ((b < a) × (z ≡ pos (a - b)))

-- The blocks are the same and the result is zero, or they part at two bytes that differ and the
-- result is the one less the other.
abbrev pub Compares : List ℕ → List ℕ → ℤ → Type 0
Compares p q z =
    ((p ≡ q) × (z ≡ pos 0))
    ⊎ ((front : List ℕ) × (a : ℕ) × (b : ℕ) × (p_rest : List ℕ) × (q_rest : List ℕ) × (p
          ≡ front ++ (a ∷ p_rest))
        × (q ≡ front ++ (b ∷ q_rest))
        × (a ≢ b)
        × Subtracts a b z)

pub or_else_assoc : (a b c : Option ℤ) → or_else (or_else a b) c ≡ or_else a (or_else b c)
unfolding or_else
or_else_assoc none b c = refl
or_else_assoc (some x) b c = refl

mismatch_self : (p : List ℕ) → mismatch p p ≡ none
unfolding mismatch
mismatch_self [] = refl
mismatch_self (b ∷ p) = ground (arith, mismatch_self p)

-- The search goes through the first `n` bytes, and then through the others.
mismatch-split :
    (n : ℕ) (p q : List ℕ)
    → length p ≡ length q
    → or_else (mismatch (take n p) (take n q)) (mismatch (drop n p) (drop n q)) ≡ mismatch p q
unfolding mismatch or_else
mismatch-split zero p q l = refl
mismatch-split (suc n) [] q l = refl
mismatch-split (suc n) (a ∷ p) [] l = absurd (omega arith)
mismatch-split (suc n) (a ∷ p) (b ∷ q) l = elim (Bool-cases (a == b)) [
  | inl e ↦ rw (e) (mismatch-split n p q (omega arith))
  | inr e ↦ rw (e) refl
]

-- The search by words through the first words, and then byte by byte.
mismatch_words-split :
    (n : ℕ) (p q : List ℕ)
    → All IsByte p
    → All IsByte q
    → length p ≡ length q
    → n * 8 ≤ length p
    → or_else (mismatch_words n p q) (mismatch (drop (n * 8) p) (drop (n * 8) q)) ≡ mismatch p q
unfolding mismatch_words or_else
mismatch_words-split zero p q h g l m = refl
mismatch_words-split (suc n) p q h g l m =
    let rest = mismatch_words n (drop 8 p) (drop 8 q) in
    let first = mismatch (take 8 p) (take 8 q) in
    let last = mismatch (drop (suc n * 8) p) (drop (suc n * 8) q) in
    let step : 8 + n * 8 ≡ suc n * 8 = omega arith in
    let later : or_else rest last ≡ mismatch (drop 8 p) (drop 8 q) =
      ap₂ (λ (x y : List ℕ). or_else rest (mismatch x y))
        (sym (drop-drop 8 (n * 8) p ∙ ap (λ (k : ℕ). drop k p) step))
        (sym (drop-drop 8 (n * 8) q ∙ ap (λ (k : ℕ). drop k q) step))
      ∙ mismatch_words-split n (drop 8 p) (drop 8 q) (All-drop 8 p h) (All-drop 8 q g)
          (length-drop 8 p ∙ ap (λ (k : ℕ). k - 8) l ∙ sym (length-drop 8 q))
          (omega (arith, length-drop 8 p)) in
    let whole : or_else first (or_else rest last) ≡ mismatch p q =
      ap (or_else first) later ∙ mismatch-split 8 p q l in
    elim (Bool-cases (u64le_read p == u64le_read q)) [
      | inl e ↦
          let same : u64le_read p ≡ u64le_read q = ground (arith, e) in
          let nothing : first ≡ none =
            ap (λ (x : List ℕ). mismatch x (take 8 q))
              (u64le_read-injective p q h g (omega arith) (omega arith) same)
            ∙ mismatch_self (take 8 q) in
          rw (e) (sym (ap (λ (o : Option ℤ). or_else o (or_else rest last)) nothing) ∙ whole)
      | inr e ↦ rw (e) (or_else_assoc first rest last ∙ whole)
    ]

leading_bytes-lt : (a : ℕ) → leading_bytes a < 8
unfolding leading_bytes
leading_bytes-lt a = ground arith

-- The three phases together.
phases :
    (a : ℕ) (p q : List ℕ)
    → All IsByte p
    → All IsByte q
    → length p ≡ length q
    → 8 ≤ length p
    → or_else (mismatch (take (leading_bytes a) p) (take (leading_bytes a) q)) (
        or_else
          (mismatch_words
            ((length p - leading_bytes a) / 8)
            (drop (leading_bytes a) p)
            (drop (leading_bytes a) q))
          (mismatch
            (drop (leading_bytes a + (length p - leading_bytes a) / 8 * 8) p)
            (drop (leading_bytes a + (length p - leading_bytes a) / 8 * 8) q)))
      ≡ mismatch p q
phases a p q h g l m =
    let k = leading_bytes a in
    let n = (length p - k) / 8 in
    ap (or_else (mismatch (take k p) (take k q))) (
      ap₂ (λ (x y : List ℕ). or_else (mismatch_words n (drop k p) (drop k q)) (mismatch x y))
        (sym (drop-drop k (n * 8) p)) (sym (drop-drop k (n * 8) q))
      ∙ mismatch_words-split n (drop k p) (drop k q) (All-drop k p h) (All-drop k q g)
          (length-drop k p ∙ ap (λ (t : ℕ). t - k) l ∙ sym (length-drop k q))
          (omega (arith, length-drop k p, leading_bytes-lt a)))
    ∙ mismatch-split k p q l

empty : (p q : List ℕ) → length p ≡ 0 → mismatch p q ≡ none
unfolding mismatch
empty [] q e = refl
empty (a ∷ p) q e = absurd (omega arith)

differing : (a b : ℕ) → a ≢ b → is_zero_result (sub_ℕ a b) ≢ true
unfolding sub_ℕ is_zero_result
differing a b ne e = elim (Bool-cases (ltb a b)) [
  | inl f ↦ ground (arith, rw (f) at e)
  | inr f ↦
      let positive : a - b ≡ suc (a - b - 1) = ground (arith, f, ne) in
      ground (arith, rw (f, positive) at e)
]

same_bytes : (q : List ℕ) → is_zero_result (difference (mismatch q q)) ≡ true
unfolding difference is_zero_result
same_bytes q = rw (mismatch_self q) refl

-- The three phases find what the search of single bytes finds.
compare_memory-mismatch :
    (a b : ℕ) (p q : List ℕ)
    → All IsByte p
    → All IsByte q
    → length p ≡ length q
    → (a ≡ b → p ≡ q)
    → compare_memory a b p q ≡ difference (mismatch p q)
unfolding compare_memory difference
compare_memory-mismatch a b p q h g l alias = elim (ℕ_discrete a b) [
  | yes same ↦
      let nothing : mismatch p q ≡ none =
        ap (λ (x : List ℕ). mismatch x q) (alias same) ∙ mismatch_self q in
      let test : (a == b) ≡ true = ground (arith, same) in rw (test, nothing) refl
  | no other ↦
      let test : (a == b) ≡ false = ground (arith, other) in
      rw (test) (elim (Bool-cases (length p == 0)) [
        | inl e ↦ rw (e, empty p q (ground (arith, e))) refl
        | inr e ↦ rw (e) (elim (Bool-cases (ltb (length p) 8)) [
          | inl f ↦ rw (f) refl
          | inr f ↦ rw (f) (ap difference (phases a p q h g l (ground (arith, f))))
        ])
      ])
]

-- The search of single bytes finds the first difference of two blocks of the same length.
mismatch-Compares : (p q : List ℕ) → length p ≡ length q → Compares p q (difference (mismatch p q))
unfolding mismatch difference sub_ℕ
mismatch-Compares [] [] l = inl (refl, refl)
mismatch-Compares [] (b ∷ q) l = absurd (omega arith)
mismatch-Compares (a ∷ p) [] l = absurd (omega arith)
mismatch-Compares (a ∷ p) (b ∷ q) l = elim (Bool-cases (a == b)) [
  | inr other ↦ inr (
    [],
    a,
    b,
    p,
    q,
    refl,
    refl,
    ground (arith, other),
    elim (Bool-cases (ltb a b)) [
      | inl less ↦ inl (ground (arith, less), rw (other, less) refl)
      | inr more ↦ inr (ground (arith, more, other), rw (other, more) refl)
    ],
  )
  | inl same ↦
      let head : a ≡ b = ground (arith, same) in
      elim (mismatch-Compares p q (omega arith)) [
        | inl r ↦ inl (ap₂ (λ (x : ℕ) (xs : List ℕ). x ∷ xs) head r.0, rw (same) r.1)
        | inr (front, x, y, p_rest, q_rest, e, f, ne, r) ↦ inr (
          a ∷ front,
          x,
          y,
          p_rest,
          q_rest,
          ap (λ (xs : List ℕ). a ∷ xs) e,
          ap₂ (λ (z : ℕ) (xs : List ℕ). z ∷ xs) (sym head) f,
          ne,
          rw (same) r,
        )
      ]
]

-- The comparison of two blocks of the same length, at any alignment, is zero where they are equal;
-- otherwise there are a first byte of the one and a byte of the other at the same place that differ,
-- with the same bytes before them, and the comparison is the former less the latter, with its sign.
-- Blocks at one address are one block.
pub compare_memory-Compares :
    (a b : ℕ) (p q : List ℕ)
    → All IsByte p
    → All IsByte q
    → length p ≡ length q
    → (a ≡ b → p ≡ q)
    → Compares p q (compare_memory a b p q)
compare_memory-Compares a b p q h g l alias =
    subst (Compares p q) (sym (compare_memory-mismatch a b p q h g l alias))
      (mismatch-Compares p q l)

equal-mismatch :
    (p q : List ℕ) → length p ≡ length q → is_zero_result (difference (mismatch p q)) ≡ true → p ≡ q
unfolding mismatch difference is_zero_result sub_ℕ
equal-mismatch [] [] l e = refl
equal-mismatch [] (b ∷ q) l e = absurd (omega arith)
equal-mismatch (a ∷ p) [] l e = absurd (omega arith)
equal-mismatch (a ∷ p) (b ∷ q) l e = elim (Bool-cases (a == b)) [
  | inl same ↦
      let head : a ≡ b = ground (arith, same) in
      ap₂ (λ (x : ℕ) (xs : List ℕ). x ∷ xs) head (equal-mismatch p q (omega arith) (rw (same) at e))
  | inr other ↦ absurd (differing a b (ground (arith, other)) (rw (other) at e))
]

-- Two blocks of the same length, at any alignment, are equal by `lone_memory_is_equal` exactly where
-- they have the same bytes. Blocks at one address are one block.
pub is_equal_iff :
    (a b : ℕ) (p q : List ℕ)
    → All IsByte p
    → All IsByte q
    → length p ≡ length q
    → (a ≡ b → p ≡ q)
    → (is_equal a b p q ≡ true) ↔ (p ≡ q)
unfolding is_equal
is_equal_iff a b p q h g l alias =
    let byte_wise = ap is_zero_result (compare_memory-mismatch a b p q h g l alias) in
    (
      λ e. equal-mismatch p q l (sym byte_wise ∙ e),
      λ e.
          byte_wise
          ∙ ap (λ (x : List ℕ). is_zero_result (difference (mismatch x q))) e
          ∙ same_bytes q,
    )
