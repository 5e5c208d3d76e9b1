-- ===== src/Printer.antt =====
-- source/lone/lisp/printer.c: the printer, which writes a value in the notation that the reader
-- reads. What it writes to the file descriptor is the list of bytes that a function returns.
pub mod RoundTrip
mod Tests
use lone.Prelude.{
  ℕ, zero, suc, ◌+◌, ◌-◌, ◌/◌, ◌%◌, ◌^◌, Bool, true, false, List, [], ◌∷◌, ◌++◌, Option, none, some,
  ltb, leb, ◌==◌, ◌&&◌, not, if◌then◌else◌, get_or, bit_and, ℤ, pos, negsuc, to_word,
}
use lone.Datum.{
  Datum, Items, Fields, nil, boolean, integer, module_value, function, primitive, continuation,
  generator, list, vector, table, shape, bytes, symbol, text, no_items, item, no_fields, field,
}

-- The loop that writes digits in front of those already written. The fuel is the buffer's size.
unfoldable pub digits_onto : ℕ → ℕ → List ℕ → List ℕ
digits_onto zero magnitude digits = digits
digits_onto (suc f) magnitude digits =
    let written = (b'0' + magnitude % 10) ∷ digits in
    let rest = digits_onto f (magnitude / 10) written in
    if magnitude / 10 == 0 then written else rest

-- `LONE_LISP_DECIMAL_DIGITS_PER_INTEGER`
abbrev pub decimal_digits_per_integer : ℕ
decimal_digits_per_integer = 20

unfoldable pub print_integer : ℤ → List ℕ
unfolding digits_onto
print_integer (pos n) = digits_onto decimal_digits_per_integer (to_word (pos n)) []
print_integer (negsuc n) =
    b'-' ∷ digits_onto decimal_digits_per_integer ((2 ^ 64 - to_word (negsuc n)) % 2 ^ 64) []

unfoldable pub hex : ℕ → ℕ
hex digit = if ltb digit 10 then b'0' + digit else b'a' + digit - 10

-- What is written for a byte in place of itself; `none` is the `continue` that leaves it in the run.
unfoldable pub escape : Bool → Bool → ℕ → Option (List ℕ)
unfolding hex
escape escape_non_ascii unicode_escapes byte =
    if byte == b'\\'
    then some (b'\\' ∷ b'\\' ∷ [])
    else if byte == b'"'
    then some (b'\\' ∷ b'"' ∷ [])
    else if byte == 10
    then some (b'\\' ∷ b'n' ∷ [])
    else if byte == 9
    then some (b'\\' ∷ b't' ∷ [])
    else if byte == 0
    then some (b'\\' ∷ b'0' ∷ [])
    else if leb 0x20 byte && leb byte 0x7E
    then none
    else if not escape_non_ascii && leb 0x80 byte
    then none
    else if unicode_escapes
    then (if leb 0x10 byte
        then some (
            b'\\'
            ∷ b'u'
            ∷ b'{'
            ∷ hex (bit_and (byte / 2 ^ 4) 0xF)
            ∷ hex (bit_and byte 0xF)
            ∷ b'}'
            ∷ [])
        else some (b'\\' ∷ b'u' ∷ b'{' ∷ hex (bit_and byte 0xF) ∷ b'}' ∷ []))
    else some (b'\\' ∷ b'x' ∷ hex (bit_and (byte / 2 ^ 4) 0xF) ∷ hex (bit_and byte 0xF) ∷ [])

-- The loop over the content; `run` are the bytes since `run_start`, which are not written yet.
unfoldable pub print_escaped_content : Bool → Bool → List ℕ → List ℕ → List ℕ
unfolding escape
print_escaped_content escape_non_ascii unicode_escapes run [] = run
print_escaped_content escape_non_ascii unicode_escapes run (byte ∷ content) =
    let longer =
      print_escaped_content escape_non_ascii unicode_escapes (run ++ byte ∷ []) content in
    let rest = print_escaped_content escape_non_ascii unicode_escapes [] content in
    elim (escape escape_non_ascii unicode_escapes byte) [
      | none ↦ longer
      | some escaped ↦ run ++ (escaped ++ rest)
    ]

unfoldable pub print_bytes : List ℕ → List ℕ
unfolding print_escaped_content
print_bytes content = b'b' ∷ b'"' ∷ print_escaped_content true false [] content ++ b'"' ∷ []

unfoldable pub print_text : List ℕ → List ℕ
unfolding print_escaped_content
print_text content = b'"' ∷ print_escaped_content false true [] content ++ b'"' ∷ []

-- What is written in front of a value that is no list: in a list behind its first, the dot.
abbrev pub dotted : Bool → List ℕ → List ℕ
dotted false printed = printed
dotted true printed = b' ' ∷ b'.' ∷ b' ' ∷ printed

-- The elements of a list: by themselves in its brackets, behind another's first in its brackets.
abbrev pub bracketed : Bool → List ℕ → List ℕ
bracketed false elements = b'(' ∷ elements ++ b')' ∷ []
bracketed true elements = b' ' ∷ elements

abbrev pub hash_notation : List ℕ → List ℕ → List ℕ
hash_notation descriptor value = b'#' ∷ b'<' ∷ descriptor ++ b' ' ∷ value ++ b'>' ∷ []

unfoldable pub print_boolean : Bool → List ℕ
print_boolean true = b't' ∷ b'r' ∷ b'u' ∷ b'e' ∷ []
print_boolean false = b'f' ∷ b'a' ∷ b'l' ∷ b's' ∷ b'e' ∷ []

abbrev module_word : List ℕ
module_word = b'm' ∷ b'o' ∷ b'd' ∷ b'u' ∷ b'l' ∷ b'e' ∷ []

abbrev primitive_word : List ℕ
primitive_word = b'p' ∷ b'r' ∷ b'i' ∷ b'm' ∷ b'i' ∷ b't' ∷ b'i' ∷ b'v' ∷ b'e' ∷ []

abbrev continuation_word : List ℕ
continuation_word =
    b'c' ∷ b'o' ∷ b'n' ∷ b't' ∷ b'i' ∷ b'n' ∷ b'u' ∷ b'a' ∷ b't' ∷ b'i' ∷ b'o' ∷ b'n' ∷ []

abbrev generator_word : List ℕ
generator_word = b'g' ∷ b'e' ∷ b'n' ∷ b'e' ∷ b'r' ∷ b'a' ∷ b't' ∷ b'o' ∷ b'r' ∷ []

abbrev shape_word : List ℕ
shape_word = b's' ∷ b'h' ∷ b'a' ∷ b'p' ∷ b'e' ∷ []

-- `(𝛌 `, in UTF-8
abbrev lambda : List ℕ
lambda = b'(' ∷ 0xF0 ∷ 0x9D ∷ 0x9B ∷ 0x8C ∷ b' ' ∷ []

-- Around the elements of a vector and the entries of a table.
abbrev pub print_vector : Items → List ℕ → List ℕ
print_vector no_items elements = b'[' ∷ b']' ∷ []
print_vector (item _ _) elements = b'[' ∷ b' ' ∷ elements ++ b']' ∷ []

abbrev pub print_table : Fields → List ℕ → List ℕ
print_table no_fields entries = b'{' ∷ b'}' ∷ []
print_table (field _ _ _) entries = b'{' ∷ b' ' ∷ entries ++ b'}' ∷ []

-- The flag says that the value is the rest of a list whose first is written: `false` is
-- `lone_lisp_print`, and `true` is what `lone_lisp_print_list` does with the rest.
unfoldable mutual
  unfolding print_integer print_bytes print_text print_boolean

  pub print_from : Bool → Datum → List ℕ
  print_from false nil = b'(' ∷ b')' ∷ []
  print_from true nil = []
  print_from behind (boolean b) = dotted behind (print_boolean b)
  print_from behind (integer z) = dotted behind (print_integer z)
  print_from behind (module_value name) =
      dotted behind (hash_notation module_word (print_from false name))
  print_from behind (function arguments expressions) =
      dotted behind (lambda ++ print_from false arguments ++ print_code expressions ++ b')' ∷ [])
  print_from behind (primitive name) =
      dotted behind (hash_notation primitive_word (print_from false name))
  print_from behind (continuation count) =
      dotted behind (hash_notation continuation_word (print_integer count))
  print_from behind (generator body) =
      dotted behind (hash_notation generator_word (print_from false body))
  print_from behind (list first rest) =
      bracketed behind (print_from false first ++ print_from true rest)
  print_from behind (vector items) = dotted behind (print_vector items (print_items items))
  print_from behind (table entries) = dotted behind (print_table entries (print_fields entries))
  print_from behind (shape count) = dotted behind (hash_notation shape_word (print_integer count))
  print_from behind (bytes content) = dotted behind (print_bytes content)
  print_from behind (symbol name) = dotted behind name
  print_from behind (text content) = dotted behind (print_text content)

  -- The loops of `lone_lisp_print_function`, `lone_lisp_print_vector` and `lone_lisp_print_table`.
  pub print_code : Items → List ℕ
  print_code no_items = []
  print_code (item expression rest) =
      10 ∷ b' ' ∷ b' ' ∷ print_from false expression ++ print_code rest

  pub print_items : Items → List ℕ
  print_items no_items = []
  print_items (item element rest) = print_from false element ++ b' ' ∷ print_items rest

  pub print_fields : Fields → List ℕ
  print_fields no_fields = []
  print_fields (field key value rest) =
      print_from false key ++ b' ' ∷ print_from false value ++ b' ' ∷ print_fields rest

unfoldable pub print : Datum → List ℕ
unfolding print_from
print = print_from false
