-- ===== src/Value/Integer/RoundTrip.antt =====
-- Integers survive the trip through a word.
use mathlib.Core.Option
use lone.Prelude.{
  ◌<◌, bit_or, ℕ, ◌+◌, ◌-◌, ◌*◌, ◌%◌, ◌^◌, ◌≡◌, refl, ap, arith, bit_or-disjoint, true, false, none,
  some, if◌then◌else◌, ℤ, pos, negsuc, fits, ltb_ℤ, to_word, of_word, shift_right, bit_and-ones,
  Bool-cases, inl, inr,
}
use lone.Value.{code, is_integer, has_tag}
use lone.Value.Integer.{integer_create, integer_of, integer_is_less_than, integers}

-- The words of the integers: the two's complement of 56 bits above the tag byte.
word_of : ℤ → ℕ
word_of (pos n) = n * 256 + 1
word_of (negsuc n) = (2 ^ 56 - 1 - n) * 256 + 1

created : (z : ℤ) → fits 55 z ≡ true → integer_create z ≡ some (word_of z)
unfolding integer_create word_of fits ltb_ℤ to_word code
created (pos n) h = ground (arith, bit_or-disjoint 8 (n % 2 ^ 56) 1)
created (negsuc n) h = ground (arith, bit_or-disjoint 8 (2 ^ 56 - 1 - n) 1)

pub integer_create-refused : (z : ℤ) → fits 55 z ≡ false → integer_create z ≡ none
unfolding integer_create fits ltb_ℤ
integer_create-refused (pos n) h = ground arith
integer_create-refused (negsuc n) h = ground arith

read_back : (z : ℤ) → fits 55 z ≡ true → integer_of (word_of z) ≡ z
unfolding integer_of word_of of_word shift_right fits
read_back (pos n) h = ground arith
read_back (negsuc n) h = ground arith

-- An integer in the data bits of any word reads as that integer, whatever the tag.
pub integer_of-tagged :
    (z : ℤ) (tag : ℕ)
    → fits 55 z ≡ true
    → tag < 256
    → integer_of (bit_or (to_word z * 2 ^ 8 % 2 ^ 64) tag) ≡ z
unfolding integer_of to_word of_word shift_right fits
integer_of-tagged (pos n) tag h l =
    let e : bit_or (n % 2 ^ 64 * 2 ^ 8 % 2 ^ 64) tag ≡ n * 2 ^ 8 + tag =
      ground (arith, bit_or-disjoint 8 (n % 2 ^ 56) tag) in
    rw (e) (ground arith)
integer_of-tagged (negsuc n) tag h l =
    let e : bit_or ((2 ^ 64 - 1 - n % 2 ^ 64) * 2 ^ 8 % 2 ^ 64) tag
        ≡ (2 ^ 56 - 1 - n) * 2 ^ 8 + tag =
      ground (arith, bit_or-disjoint 8 (2 ^ 56 - 1 - n) tag) in
    rw (e) (ground arith)

is_integer-word_of : (z : ℤ) → is_integer (word_of z) ≡ true
unfolding is_integer has_tag word_of code
is_integer-word_of (pos n) = ground (arith, bit_and-ones 8 (n * 256 + 1))
is_integer-word_of (negsuc n) = ground (arith, bit_and-ones 8 ((2 ^ 56 - 1 - n) * 256 + 1))

-- The word made for an integer reads as that integer, and exactly the integers of 56 bits have
-- one: for any other the program exits.
pub integer_of-create :
    (z : ℤ) → Option.map integer_of (integer_create z) ≡ (if fits 55 z then some z else none)
integer_of-create z = elim (Bool-cases (fits 55 z)) [
  | inl e ↦ rw (e, created z e) (ap some (read_back z e))
  | inr e ↦ rw (e, integer_create-refused z e) refl
]

-- Two integers of 56 bits have words, both are integer values, and the comparison of the words is
-- that of the integers.
pub integer_is_less_than-create :
    (x y : ℤ)
    → fits 55 x ≡ true
    → fits 55 y ≡ true
    → (v w : ℕ) × (integer_create x ≡ some v)
      × (integer_create y ≡ some w)
      × (integer_is_less_than v w ≡ some (ltb_ℤ x y))
unfolding integer_is_less_than integers
integer_is_less_than-create x y h g = (
  word_of x,
  word_of y,
  created x h,
  created y g,
  rw (is_integer-word_of x, is_integer-word_of y, read_back x h, read_back y g) refl,
)
