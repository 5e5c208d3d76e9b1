-- ===== src/Memory.antt =====
-- source/lone/memory/functions.c and source/lone/memory/array.c. A block of memory is the list of
-- its bytes, and an address counts only by its alignment and by being the other one. A `long` has
-- 64 bits and the machine is little-endian. `none` stands for `linux_exit(-1)`, save in a search
-- of a difference, where it is the end of a loop.
pub mod Words
pub mod Compare
pub mod Zero
pub mod Strings
mod Tests
use lone.Prelude.{
  ℕ, zero, suc, ◌+◌, ◌-◌, ◌*◌, ◌/◌, ◌%◌, ◌^◌, Bool, true, false, List, [], ◌∷◌, Option, none, some,
  ltb, leb, ◌==◌, ◌&&◌, ◌||◌, not, if◌then◌else◌, length, take, drop, ℤ, pos, negsuc, sub_ℕ,
}
use lone.Bytes.{u64le_read}

-- The number of bytes up to the next aligned word.
unfoldable pub leading_bytes : ℕ → ℕ
leading_bytes address =
    let misalignment = address % 8 in if misalignment == 0 then 0 else 8 - misalignment

-- A loop over single bytes: the difference at the first place where two blocks differ.
unfoldable pub mismatch : List ℕ → List ℕ → Option ℤ
mismatch [] q = none
mismatch (a ∷ p) [] = none
mismatch (a ∷ p) (b ∷ q) = let rest = mismatch p q in if a == b then rest else some (sub_ℕ a b)

unfoldable pub or_else : Option ℤ → Option ℤ → Option ℤ
or_else none next = next
or_else (some difference) next = some difference

-- The loop over words, which looks for the byte within the first words that differ.
unfoldable pub mismatch_words : ℕ → List ℕ → List ℕ → Option ℤ
mismatch_words zero p q = none
mismatch_words (suc words) p q =
    let rest = mismatch_words words (drop 8 p) (drop 8 q) in
    if u64le_read p == u64le_read q then rest else or_else (mismatch (take 8 p) (take 8 q)) rest

unfoldable pub difference : Option ℤ → ℤ
difference none = pos 0
difference (some d) = d

unfoldable pub compare_memory : ℕ → ℕ → List ℕ → List ℕ → ℤ
compare_memory a b p q =
    let count = length p in
    let leading = leading_bytes a in
    let words = (count - leading) / 8 in
    let offset = leading + words * 8 in
    if a == b || count == 0
    then pos 0
    else if ltb count 8
    then difference (mismatch p q)
    else difference (
        or_else (mismatch (take leading p) (take leading q)) (
          or_else (mismatch_words words (drop leading p) (drop leading q))
            (mismatch (drop offset p) (drop offset q))))

unfoldable pub is_zero_result : ℤ → Bool
is_zero_result (pos zero) = true
is_zero_result (pos (suc n)) = false
is_zero_result (negsuc n) = false

unfoldable pub is_equal : ℕ → ℕ → List ℕ → List ℕ → Bool
is_equal a b p q = is_zero_result (compare_memory a b p q)

unfoldable pub zero_bytes : List ℕ → Bool
zero_bytes [] = true
zero_bytes (b ∷ p) = let rest = zero_bytes p in if not (b == 0) then false else rest

unfoldable pub zero_words : ℕ → List ℕ → Bool
zero_words zero p = true
zero_words (suc words) p =
    let rest = zero_words words (drop 8 p) in if not (u64le_read p == 0) then false else rest

-- `lone_memory_is_zero` of a block that is not at the null pointer.
unfoldable pub is_zero : ℕ → List ℕ → Bool
is_zero x p =
    let count = length p in
    let leading = leading_bytes x in
    let words = (count - leading) / 8 in
    let offset = leading + words * 8 in
    if x == 0
    then true
    else if ltb count 8
    then zero_bytes p
    else if not (zero_bytes (take leading p))
    then false
    else if not (zero_words words (drop leading p))
    then false
    else zero_bytes (drop offset p)

-- The loop of `lone_c_string_length` over the memory from the string's address on; `none` where the
-- memory has no zero byte.
unfoldable pub zero_index : List ℕ → Option ℕ
zero_index [] = none
zero_index (byte ∷ p) =
    let rest = zero_index p in
    if byte == 0 then some 0 else elim rest [ none ↦ none | some n ↦ some (suc n) ]

unfoldable pub c_string_length : ℕ → List ℕ → Option ℕ
c_string_length address p = if address == 0 then some 0 else zero_index p

unfoldable pub array_size_in_bytes : ℕ → ℕ → Option ℕ
array_size_in_bytes element_count element_size =
    let size_in_bytes = element_count * element_size in
    if leb (2 ^ 64) size_in_bytes then none else some size_in_bytes

unfoldable pub array_is_bounded : ℕ → ℕ → ℕ → Option Bool
array_is_bounded element_index element_capacity element_size =
    if leb (2 ^ 64) (element_index + 1)
    then some false
    else elim (array_size_in_bytes (element_index + 1) element_size) [
      | none ↦ none
      | some end_of_indexed_element ↦ elim (array_size_in_bytes element_capacity element_size) [
        | none ↦ none
        | some end_of_buffer ↦ some (not (ltb end_of_buffer end_of_indexed_element))
      ]
    ]
