-- ===== src/Value/Tests.antt =====
-- Tests and applications of the theorems on tagged words.
use mathlib.Core.Option
use lone.Prelude.{
  IsByte, ◌<◌, if◌then◌else◌, ℕ, ◌≡◌, refl, arith, true, List, [], ◌∷◌, none, some, All, pos,
  negsuc, fits,
}
use lone.Value.{
  list_tag, code, type_of, heap_index, value_from_index, inline_symbol_create, inline_create,
  inline_join, inline_value_bytes, memory_bytes,
}
use lone.Value.Classes.{PredicatesAgree, predicates-type_of}
use lone.Value.Inline.{inline_symbol, type_byte, canonical, inline_create-read}
use lone.Value.Index.{heap_index-value_from_index}
use lone.Value.Integer.{integer_create, integer_of, integer_parse}
use lone.Value.Integer.RoundTrip.{integer_of-create}
use lone.Value.Integer.Parse.{IsDigit, minus, numeral, spells, integer_parse-numeral}

-- The symbol `car`, its word and its bytes.
abbrev car : List ℕ
car = 0x63 ∷ 0x61 ∷ 0x72 ∷ []

car_word : inline_symbol_create car ≡ some 0x72616387
unfolding inline_symbol_create inline_create inline_join
car_word = refl

car_bytes : inline_value_bytes 0x72616387 ≡ car
unfolding inline_value_bytes memory_bytes
car_bytes = refl

car-IsByte : All IsByte car
car-IsByte = omega arith

inline_create-read_example :
    (w : ℕ) × (inline_create (type_byte inline_symbol) car ≡ some w)
    × (inline_value_bytes w ≡ car)
    × (type_of w ≡ code (canonical inline_symbol))
inline_create-read_example = inline_create-read inline_symbol car car-IsByte (omega arith)

list_tag-lt : code list_tag < 256
unfolding code
list_tag-lt = omega arith

heap_index-value_from_index_example :
    (heap_index (value_from_index 77 list_tag) ≡ 77)
    × (type_of (value_from_index 77 list_tag) ≡ type_of (code list_tag))
heap_index-value_from_index_example =
    heap_index-value_from_index 77 list_tag (omega arith) list_tag-lt

fits_both : (fits 55 (negsuc 41) ≡ true) × (fits 55 (pos 7) ≡ true)
unfolding fits
fits_both = (refl, refl)

integer_of-create_example :
    Option.map integer_of (integer_create (negsuc 41))
    ≡ (if fits 55 (negsuc 41) then some (negsuc 41) else none)
integer_of-create_example = integer_of-create (negsuc 41)

abbrev forty_two : List ℕ
forty_two = 0x34 ∷ 0x32 ∷ []

forty_two-IsDigit : All IsDigit forty_two
forty_two-IsDigit = omega arith

integer_parse-numeral_example :
    integer_parse (numeral minus forty_two) ≡ integer_create (spells minus forty_two)
integer_parse-numeral_example = integer_parse-numeral minus forty_two forty_two-IsDigit

predicates-type_of_example : PredicatesAgree 0x72616387
predicates-type_of_example = predicates-type_of 0x72616387
