-- ===== src/Equivalence.antt =====
-- The bytes of a value and the equivalence of values, of source/lone/lisp/types.c, and
-- `lone_bytes_is_equal` of source/lone/types.c. `none` stands for `linux_exit(-1)`, and for the read
-- of a member that the union does not hold.
pub mod Strings
mod Tests
use lone.Prelude.{
  ℕ, Bool, true, false, List, Option, none, some, ◌==◌, ◌&&◌, ◌||◌, if◌then◌else◌, length,
}
use lone.Memory.{is_zero_result, compare_memory}
use lone.Value.{
  module_tag, function_tag, primitive_tag, continuation_tag, generator_tag, list_tag, vector_tag,
  table_tag, shape_tag, symbol_tag, text_tag, bytes_tag, integer_tag, nil_tag, true_tag, false_tag,
  Tag, code, type_of, has_same_type, is_inline_bytes, is_inline_value, is_vector, is_table,
  inline_value_bytes,
}
use lone.Heap.{
  Heap, HeapValue, Contents, unset, list_contents, vector_contents, symbol_contents, text_contents,
  bytes_contents,
}
use lone.Pairs.{heap_value_of}

abbrev pub symbol_name : Contents → Option (List ℕ)
symbol_name contents = elim contents [ symbol_contents bytes ↦ some bytes | _ ↦ none ]

abbrev pub text_bytes : Contents → Option (List ℕ)
text_bytes contents = elim contents [ text_contents bytes ↦ some bytes | _ ↦ none ]

abbrev pub bytes_data : Contents → Option (List ℕ)
bytes_data contents = elim contents [ bytes_contents bytes ↦ some bytes | _ ↦ none ]

unfoldable pub is_frozen : Heap → ℕ → Bool
is_frozen heap value =
    if is_inline_bytes value
    then true
    else if type_of value == code bytes_tag
    then (heap_value_of heap value).frozen
    else if is_vector value
    then false
    else if is_table value
    then false
    else true

unfoldable pub bytes_of : Heap → ℕ → Option (List ℕ)
bytes_of heap value =
    let contents = (heap_value_of heap value).contents in
    if is_inline_value value
    then some (inline_value_bytes value)
    else if type_of value == code symbol_tag
    then symbol_name contents
    else if type_of value == code text_tag
    then text_bytes contents
    else if type_of value == code bytes_tag
    then bytes_data contents
    else none

-- Two blocks of bytes at two addresses.
unfoldable pub bytes_is_equal : ℕ → ℕ → List ℕ → List ℕ → Bool
bytes_is_equal a b x y =
    if length x == length y then is_zero_result (compare_memory a b x y) else false

-- The cases of the `switch` that compare the words.
abbrev pub by_word : ℕ → Bool
by_word type =
    type == code nil_tag
    || type == code false_tag
    || type == code true_tag
    || type == code integer_tag
    || type == code module_tag
    || type == code function_tag
    || type == code primitive_tag
    || type == code continuation_tag
    || type == code generator_tag
    || type == code list_tag
    || type == code vector_tag
    || type == code table_tag
    || type == code shape_tag
    || type == code symbol_tag

-- `address` says where in memory the bytes of a value are.
unfoldable pub is_equivalent : (ℕ → ℕ) → Heap → ℕ → ℕ → Option Bool
is_equivalent address heap x y =
    if has_same_type x y
    then (if type_of x == code text_tag || type_of x == code bytes_tag
        then elim (bytes_of heap x) [
          | none ↦ none
          | some p ↦ elim (bytes_of heap y) [
            | none ↦ none
            | some q ↦ some (bytes_is_equal (address x) (address y) p q)
          ]
        ]
        else if by_word (type_of x)
        then some (x == y)
        else none)
    else some false
