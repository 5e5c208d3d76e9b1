-- ===== src/Memory/Strings.antt =====
-- `lone_c_string_length` on terminated strings.
use lone.Prelude.{
  ℕ, suc, ◌≡◌, ◌≢◌, ap, refl, arith, List, [], ◌∷◌, ◌++◌, Option, none, some, length, All, ◌==◌,
  false,
}
use lone.Memory.{zero_index, c_string_length}

zero_index-append :
    (s rest : List ℕ) → All (λ b. b ≢ 0) s → zero_index (s ++ 0 ∷ rest) ≡ some (length s)
unfolding zero_index
zero_index-append [] rest h = refl
zero_index-append (b ∷ s) rest h =
    let test : (b == 0) ≡ false = ground (arith, h.0) in
    rw (test) (
      ap (λ (o : Option ℕ). elim o [ none ↦ none | some n ↦ some (suc n) ])
        (zero_index-append s rest h.1))

-- The length of a string that is not at the null pointer is the number of the bytes before its
-- first zero byte, whatever follows.
pub c_string_length-append :
    (address : ℕ) (s rest : List ℕ)
    → address ≢ 0
    → All (λ b. b ≢ 0) s
    → c_string_length address (s ++ 0 ∷ rest) ≡ some (length s)
unfolding c_string_length
c_string_length-append address s rest ne h =
    let test : (address == 0) ≡ false = ground (arith, ne) in rw (test) (zero_index-append s rest h)
