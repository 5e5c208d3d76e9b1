-- ===== src/Equivalence/Strings.antt =====
-- Equivalence of texts and of byte values, however they are stored.
use lone.Prelude.{
  IsByte, ℕ, ◌≡◌, ◌↔◌, ap, arith, true, List, some, All, length, ◌==◌, ◌||◌, Bool-cases, inl, inr,
}
use mathlib.Core.Option.{some-injective}
use lone.Memory.{is_equal}
use lone.Memory.Compare.{is_equal_iff}
use lone.Value.{text_tag, bytes_tag, code, type_of, has_same_type}
use lone.Heap.{Heap}
use lone.Equivalence.{bytes_of, bytes_is_equal, is_equivalent}

-- Two blocks of bytes are found equal exactly where they have the same bytes, whatever their
-- lengths and alignments. Blocks at one address are one block.
pub bytes_is_equal_iff :
    (a b : ℕ) (p q : List ℕ)
    → All IsByte p
    → All IsByte q
    → (a ≡ b → p ≡ q)
    → (bytes_is_equal a b p q ≡ true) ↔ (p ≡ q)
unfolding bytes_is_equal is_equal
bytes_is_equal_iff a b p q h g alias = elim (Bool-cases (length p == length q)) [
  | inl e ↦ rw (e) (is_equal_iff a b p q h g (ground (arith, e)) alias)
  | inr e ↦
      rw (e) ((λ f. ground (arith, f)), (λ f. ground (arith, e, ap (λ (x : List ℕ). length x) f)))
]

-- Two texts, or two byte values, each stored in its word or on the heap, are equivalent exactly
-- where their bytes are the same.
pub is_equivalent-bytes :
    (address : ℕ → ℕ) (heap : Heap) (x y : ℕ) (p q : List ℕ)
    → has_same_type x y ≡ true
    → (type_of x == code text_tag || type_of x == code bytes_tag) ≡ true
    → bytes_of heap x ≡ some p
    → bytes_of heap y ≡ some q
    → All IsByte p
    → All IsByte q
    → (address x ≡ address y → p ≡ q)
    → (is_equivalent address heap x y ≡ some true) ↔ (p ≡ q)
unfolding is_equivalent
is_equivalent-bytes address heap x y p q same kind ex ey h g alias =
    let iff = bytes_is_equal_iff (address x) (address y) p q h g alias in
    rw (same, kind, ex, ey) ((λ e. iff.0 (some-injective _ _ e)), (λ e. ap some (iff.1 e)))
