-- ===== src/Memory/Tests.antt =====
-- Blocks of memory at several alignments.
use lone.Prelude.{◌≢◌, IsByte, ℕ, ◌≡◌, ◌↔◌, refl, arith, true, List, [], ◌∷◌, ◌++◌, replicate, All}
use lone.Memory.{compare_memory, is_equal, is_zero}
use lone.Memory.Compare.{Compares, compare_memory-Compares, is_equal_iff}
use lone.Memory.Zero.{is_zero_iff}

-- Twenty bytes, and twenty that differ from them within an aligned word.
abbrev block : List ℕ
block = replicate 12 7 ++ (9 ∷ replicate 7 1)

abbrev other_block : List ℕ
other_block = replicate 12 7 ++ (200 ∷ replicate 7 1)

block-IsByte : All IsByte block × All IsByte other_block
block-IsByte = (omega arith, omega arith)

-- The string `lone`.
abbrev string : List ℕ
string = 0x6C ∷ 0x6F ∷ 0x6E ∷ 0x65 ∷ []

no_zeros : All (λ b. b ≢ 0) string
no_zeros = (
  (λ e. absurd (omega arith)),
  ((λ e. absurd (omega arith)), ((λ e. absurd (omega arith)), ((λ e. absurd (omega arith)), tt))),
)

compare_memory-Compares_example :
    Compares block other_block (compare_memory 3 1001 block other_block)
compare_memory-Compares_example =
    compare_memory-Compares 3 1001 block other_block block-IsByte.0 block-IsByte.1 refl
      (λ e. absurd (omega arith))

is_equal_iff_example : (is_equal 3 1001 block other_block ≡ true) ↔ (block ≡ other_block)
is_equal_iff_example =
    is_equal_iff 3 1001 block other_block block-IsByte.0 block-IsByte.1 refl
      (λ e. absurd (omega arith))

is_zero_iff_example : (is_zero 5 block ≡ true) ↔ All (λ b. b ≡ 0) block
is_zero_iff_example = is_zero_iff 5 block block-IsByte.0 (omega arith)
