-- ===== src/Value.antt =====
-- The tagged words of include/lone/lisp/types.h, source/lone/lisp/types.c and
-- source/lone/lisp/value/integer.c. A `struct lone_lisp_value` is the 64-bit pattern of its
-- `long`, a number below 2 ^ 64. `none` stands for `linux_exit(-1)`.
pub mod Masks
pub mod Classes
pub mod Inline
pub mod Index
pub mod Integer
mod Tests
use lone.Prelude.{
  ℕ, zero, suc, ◌+◌, ◌-◌, ◌*◌, ◌/◌, ◌%◌, ◌^◌, Bool, true, false, List, [], ◌∷◌, Option, none, some,
  bit_and, bit_or, ltb, ◌==◌, ◌||◌, ◌&&◌, not, if◌then◌else◌, length,
}

pub data Tag : Type 0 where
  module_tag function_tag primitive_tag continuation_tag generator_tag list_tag vector_tag
        table_tag :
      Tag
  symbol_tag text_tag bytes_tag shape_tag integer_tag nil_tag true_tag false_tag : Tag
  inline_symbol_tag inline_text_tag inline_bytes_tag : ℕ → Tag
  tombstone_tag step_tag primitive_step_tag function_delimiter_tag continuation_delimiter_tag : Tag
  interceptor_delimiter_tag generator_delimiter_tag : Tag

unfoldable pub code : Tag → ℕ
code module_tag = 0x00
code function_tag = 0x02
code primitive_tag = 0x04
code continuation_tag = 0x06
code generator_tag = 0x08
code list_tag = 0x0A
code vector_tag = 0x0C
code table_tag = 0x0E
code symbol_tag = 0x10
code text_tag = 0x12
code bytes_tag = 0x14
code shape_tag = 0x16
code integer_tag = 0x01
code nil_tag = 0x03
code true_tag = 0x05
code false_tag = 0x07
code (inline_symbol_tag n) = 0x81 + 2 * n
code (inline_text_tag n) = 0x91 + 2 * n
code (inline_bytes_tag n) = 0xA1 + 2 * n
code tombstone_tag = 0x29
code step_tag = 0x21
code primitive_step_tag = 0x23
code function_delimiter_tag = 0x40
code continuation_delimiter_tag = 0x43
code interceptor_delimiter_tag = 0x45
code generator_delimiter_tag = 0x60

abbrev pub inline_type_symbol : ℕ
inline_type_symbol = 0x81

abbrev pub inline_type_text : ℕ
inline_type_text = 0x91

abbrev pub inline_type_bytes : ℕ
inline_type_bytes = 0xA1

unfoldable pub nil : ℕ
nil = code nil_tag

unfoldable pub false_value : ℕ
false_value = code false_tag

unfoldable pub true_value : ℕ
true_value = code true_tag

unfoldable pub boolean_for : Bool → ℕ
boolean_for value = if value then true_value else false_value

unfoldable pub tombstone : ℕ
tombstone = code tombstone_tag

unfoldable pub type_of : ℕ → ℕ
type_of value =
    let tag = bit_and value 0xFF in
    if bit_and tag 0xF1 == inline_type_symbol
    then code symbol_tag
    else if bit_and tag 0xF1 == inline_type_text
    then code text_tag
    else if bit_and tag 0xF1 == inline_type_bytes
    then code bytes_tag
    else tag

unfoldable pub has_same_type : ℕ → ℕ → Bool
has_same_type x y = type_of x == type_of y

unfoldable pub is_register_value : ℕ → Bool
is_register_value value = not (bit_and value 1 == 0)

unfoldable pub is_heap_value : ℕ → Bool
is_heap_value value = not (is_register_value value)

-- `(value.tagged & LONE_LISP_TAG_MASK) == tag`
unfoldable pub has_tag : ℕ → Tag → Bool
has_tag value tag = bit_and value 0xFF == code tag

unfoldable pub is_integer : ℕ → Bool
is_integer value = has_tag value integer_tag

unfoldable pub is_nil : ℕ → Bool
is_nil value = has_tag value nil_tag

unfoldable pub is_false : ℕ → Bool
is_false value = has_tag value false_tag

unfoldable pub is_true : ℕ → Bool
is_true value = has_tag value true_tag

unfoldable pub is_falsy : ℕ → Bool
is_falsy value = is_nil value || is_false value

unfoldable pub is_truthy : ℕ → Bool
is_truthy value = not (is_falsy value)

unfoldable pub is_module : ℕ → Bool
is_module value = has_tag value module_tag

unfoldable pub is_function : ℕ → Bool
is_function value = has_tag value function_tag

unfoldable pub is_primitive : ℕ → Bool
is_primitive value = has_tag value primitive_tag

unfoldable pub is_generator : ℕ → Bool
is_generator value = has_tag value generator_tag

unfoldable pub is_applicable : ℕ → Bool
is_applicable value =
    has_tag value function_tag
    || has_tag value primitive_tag
    || has_tag value continuation_tag
    || has_tag value generator_tag
    || has_tag value vector_tag
    || has_tag value table_tag

unfoldable pub is_list : ℕ → Bool
is_list value = has_tag value nil_tag || has_tag value list_tag

unfoldable pub is_vector : ℕ → Bool
is_vector value = has_tag value vector_tag

unfoldable pub is_table : ℕ → Bool
is_table value = has_tag value table_tag

unfoldable pub is_inline_symbol : ℕ → Bool
is_inline_symbol value = bit_and value 0xF1 == inline_type_symbol

unfoldable pub is_inline_text : ℕ → Bool
is_inline_text value = bit_and value 0xF1 == inline_type_text

unfoldable pub is_inline_bytes : ℕ → Bool
is_inline_bytes value = bit_and value 0xF1 == inline_type_bytes

unfoldable pub is_inline_value : ℕ → Bool
is_inline_value value = bit_and value 0x81 == 0x81

unfoldable pub has_bytes : ℕ → Bool
has_bytes value =
    has_tag value bytes_tag
    || has_tag value text_tag
    || has_tag value symbol_tag
    || is_inline_symbol value
    || is_inline_text value
    || is_inline_bytes value

unfoldable pub is_bytes : ℕ → Bool
is_bytes value = has_tag value bytes_tag || is_inline_bytes value

unfoldable pub is_text : ℕ → Bool
is_text value = has_tag value text_tag || is_inline_text value

unfoldable pub is_symbol : ℕ → Bool
is_symbol value = has_tag value symbol_tag || is_inline_symbol value

unfoldable pub is_tombstone : ℕ → Bool
is_tombstone value = value == code tombstone_tag

unfoldable pub is_identical : ℕ → ℕ → Bool
is_identical x y = x == y

-- The bytes of a word in memory, lowest first.
unfoldable pub memory_bytes : ℕ → ℕ → List ℕ
memory_bytes zero word = []
memory_bytes (suc count) word = word % 256 ∷ memory_bytes count (word / 256)

-- The pointer is one byte past the start of the word.
unfoldable pub inline_value_bytes : ℕ → List ℕ
inline_value_bytes value = memory_bytes (bit_and (value / 2 ^ 1) 0x07) (value / 256)

unfoldable pub inline_join : ℕ → List ℕ → ℕ → ℕ
inline_join tagged [] i = tagged
inline_join tagged (byte ∷ bytes) i =
    inline_join (bit_or tagged (byte * 2 ^ (8 + i * 8) % 2 ^ 64)) bytes (suc i)

unfoldable pub inline_create : ℕ → List ℕ → Option ℕ
inline_create type bytes =
    if ltb 7 (length bytes)
    then none
    else some (inline_join (bit_or type (length bytes * 2 ^ 1 % 2 ^ 64)) bytes 0)

unfoldable pub inline_symbol_create : List ℕ → Option ℕ
inline_symbol_create bytes = inline_create inline_type_symbol bytes

unfoldable pub inline_text_create : List ℕ → Option ℕ
inline_text_create bytes = inline_create inline_type_text bytes

unfoldable pub inline_bytes_create : List ℕ → Option ℕ
inline_bytes_create bytes = inline_create inline_type_bytes bytes

-- The index of the heap value that `lone_lisp_heap_value_of` points to.
unfoldable pub heap_index : ℕ → ℕ
heap_index value = value / 2 ^ 24

-- The word of the heap value at an index.
unfoldable pub value_from_index : ℕ → Tag → ℕ
value_from_index index tag = bit_or (index * 2 ^ 24 % 2 ^ 64) (code tag)

unfoldable pub retag : ℕ → Tag → ℕ
retag value new_tag = bit_or (bit_and value (2 ^ 64 - 1 - 0xFF)) (code new_tag)
