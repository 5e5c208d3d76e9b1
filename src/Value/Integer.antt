-- ===== src/Value/Integer.antt =====
-- source/lone/lisp/value/integer.c: integers of 56 bits in the word, and their decimal notation.
-- Also `lone_lisp_integer_of` and the comparisons of source/lone/lisp/types.c.
pub mod RoundTrip
pub mod Parse
use lone.Prelude.{
  ℕ, ◌+◌, ◌-◌, ◌*◌, ◌/◌, ◌%◌, ◌^◌, Bool, true, false, List, [], ◌∷◌, Option, none, some, bit_or,
  ltb, ◌==◌, ◌||◌, ◌&&◌, not, if◌then◌else◌, ℤ, pos, negsuc, sub_ℕ, ◌+ℤ◌, negate, times_ten, fits,
  ltb_ℤ, leb_ℤ, to_word, of_word, shift_right,
}
use lone.Value.{integer_tag, code, is_integer}

abbrev pub integer_min : ℤ
integer_min = negsuc (2 ^ 55 - 1)

abbrev pub integer_max : ℤ
integer_max = pos (2 ^ 55 - 1)

unfoldable pub integer_create : ℤ → Option ℕ
integer_create integer =
    if ltb_ℤ integer integer_min || ltb_ℤ integer_max integer
    then none
    else some (bit_or (to_word integer * 2 ^ 8 % 2 ^ 64) (code integer_tag))

unfoldable pub integer_of : ℕ → ℤ
integer_of value = shift_right 8 (of_word value)

-- `digits[i] - '0'`
unfoldable pub digit_of : ℕ → ℤ
digit_of byte = sub_ℕ byte 0x30

-- The loop over the digits; `none` is the jump to `overflow`.
unfoldable pub parse_digits : Bool → ℤ → List ℕ → Option ℤ
parse_digits negative integer [] = some integer
parse_digits negative integer (byte ∷ digits) =
    let digit = if negative then negate (digit_of byte) else digit_of byte in
    let shifted = times_ten integer in
    let sum = shifted +ℤ digit in
    let rest = parse_digits negative sum digits in
    if not (fits 63 shifted) then none else if not (fits 63 sum) then none else rest

unfoldable pub integer_after : Option ℤ → Option ℕ
integer_after none = none
integer_after (some integer) = integer_create integer

unfoldable pub integer_parse : List ℕ → Option ℕ
integer_parse [] = integer_after (parse_digits false (pos 0) [])
integer_parse (byte ∷ digits) =
    if byte == 0x2D
    then integer_after (parse_digits true (pos 0) digits)
    else if byte == 0x2B
    then integer_after (parse_digits false (pos 0) digits)
    else integer_after (parse_digits false (pos 0) (byte ∷ digits))

unfoldable pub integers : ℕ → ℕ → Bool
integers x y = is_integer x && is_integer y

unfoldable pub integer_is_less_than : ℕ → ℕ → Option Bool
integer_is_less_than x y = if integers x y then some (ltb_ℤ (integer_of x) (integer_of y)) else none

unfoldable pub integer_is_less_than_or_equal_to : ℕ → ℕ → Option Bool
integer_is_less_than_or_equal_to x y =
    if integers x y then some (leb_ℤ (integer_of x) (integer_of y)) else none

unfoldable pub integer_is_greater_than : ℕ → ℕ → Option Bool
integer_is_greater_than x y =
    if integers x y then some (ltb_ℤ (integer_of y) (integer_of x)) else none

unfoldable pub integer_is_greater_than_or_equal_to : ℕ → ℕ → Option Bool
integer_is_greater_than_or_equal_to x y =
    if integers x y then some (leb_ℤ (integer_of y) (integer_of x)) else none

unfoldable pub zero_value : Option ℕ
zero_value = integer_create (pos 0)

unfoldable pub one_value : Option ℕ
one_value = integer_create (pos 1)

unfoldable pub minus_one_value : Option ℕ
minus_one_value = integer_create (negsuc 0)
