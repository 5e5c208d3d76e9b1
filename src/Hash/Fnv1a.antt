-- ===== src/Hash/Fnv1a.antt =====
-- source/lone/hash/fnv_1a.c with the constants of include/lone/hash/fnv_1a.h, for 64-bit hashes.
use lone.Prelude.{ℕ, ◌*◌, ◌%◌, ◌^◌, ◌≡◌, refl, List, [], ◌∷◌, ◌++◌, bit_xor}

abbrev pub fnv_prime : ℕ
fnv_prime = 0x100000001B3

abbrev pub fnv_offset_basis : ℕ
fnv_offset_basis = 0xCBF29CE484222325

-- The state is the hash.
abbrev pub State : Type 0
State = ℕ

unfoldable pub initialize : ℕ → State
initialize offset_basis = offset_basis

-- The `while (count--)` loop: an exclusive or and a wrapping multiplication for each byte.
unfoldable pub update : State → List ℕ → State
update hash [] = hash
update hash (byte ∷ bytes) = update (bit_xor hash byte * fnv_prime % 2 ^ 64) bytes

unfoldable pub finish : State → ℕ
finish hash = hash

unfoldable pub fnv_1a : List ℕ → ℕ → ℕ
unfolding initialize update finish
fnv_1a bytes offset_basis = finish (update (initialize offset_basis) bytes)

-- Hashing in pieces is hashing the whole: the hash of what was read before is the offset basis for
-- what follows.
pub fnv_1a-append :
    (xs ys : List ℕ) (offset_basis : ℕ)
    → fnv_1a (xs ++ ys) offset_basis ≡ fnv_1a ys (fnv_1a xs offset_basis)
unfolding fnv_1a
fnv_1a-append [] ys offset_basis = refl
fnv_1a-append (x ∷ xs) ys offset_basis =
    fnv_1a-append xs ys (bit_xor offset_basis x * fnv_prime % 2 ^ 64)
