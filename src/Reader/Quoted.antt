-- ===== src/Reader/Quoted.antt =====
-- The content of text and byte literals, of source/lone/lisp/reader.c: escape sequences, the
-- measure of a literal and the two loops that decode one. A round of a loop is given the byte that
-- it looks at and the input behind it, and returns the bytes that it writes and the input that it
-- leaves; without bytes it jumps to the error, at that input.
use lone.Prelude.{
  ℕ, zero, suc, ◌+◌, ◌*◌, ◌%◌, ◌^◌, List, [], ◌∷◌, ◌++◌, Option, none, some, ltb, ◌==◌, ◌&&◌, not,
  if◌then◌else◌, bit_or, take, drop, length,
}
use lone.Unicode.{encode}
use lone.Reader.{Outcome, done, out_of_fuel, hex_digit_value, next_is}

abbrev pub Round : Type 0
Round = Option (List ℕ) × List ℕ

unfoldable pub map_common_escape_sequence : ℕ → Option ℕ
map_common_escape_sequence escape =
    if escape == b'\\'
    then some b'\\'
    else if escape == b'"'
    then some b'"'
    else if escape == b'n'
    then some 10
    else if escape == b't'
    then some 9
    else if escape == b'0'
    then some 0
    else none

unfoldable pub measure_from : ℕ → List ℕ → ℕ
measure_from n [] = 0
measure_from n (c ∷ []) = if c == b'"' then n else 0
measure_from n (c ∷ d ∷ input) =
    let escaped = measure_from (n + 2) input in
    let plain = measure_from (n + 1) (d ∷ input) in
    if c == b'"' then n else if c == b'\\' then escaped else plain

unfoldable pub measure_quoted_content : List ℕ → ℕ
unfolding measure_from
measure_quoted_content input = measure_from 0 input

-- What follows the digits of `\u{`: `}`, at least one digit, and a code point that has an encoding.
unfoldable pub close_code_point : ℕ → ℕ → List ℕ → Round
close_code_point code_point digits input =
    let encoded = encode code_point in
    if next_is (λ c. c == b'}') input && not (digits == 0) && not (encoded.bytes_written == 0)
    then (some (take encoded.bytes_written encoded.bytes), drop 1 input)
    else (none, input)

-- The loop over the digits.
unfoldable pub read_code_point : ℕ → ℕ → List ℕ → Round
read_code_point code_point digits [] = close_code_point code_point digits []
read_code_point code_point digits (c ∷ input) =
    if not (c == b'}') && ltb digits 6
    then (elim (hex_digit_value c) [
      | none ↦ (none, c ∷ input)
      | some value ↦ read_code_point (bit_or (code_point * 2 ^ 4 % 2 ^ 32) value) (digits + 1) input
    ])
    else close_code_point code_point digits (c ∷ input)

unfoldable pub unicode_escape : List ℕ → Round
unfolding read_code_point
unicode_escape [] = (none, [])
unicode_escape (c ∷ input) = if c == b'{' then read_code_point 0 0 input else (none, c ∷ input)

unfoldable pub text_escape : List ℕ → Round
unfolding map_common_escape_sequence unicode_escape
text_escape [] = (none, [])
text_escape (c ∷ input) = elim (map_common_escape_sequence c) [
  | some character ↦ (some (character ∷ []), input)
  | none ↦ if c == b'u' then unicode_escape input else (none, c ∷ input)
]

unfoldable pub text_round : ℕ → List ℕ → Round
unfolding text_escape
text_round c input = if c == b'\\' then text_escape input else (some (c ∷ []), input)

unfoldable pub second_digit : ℕ → List ℕ → Round
second_digit hi [] = (none, [])
second_digit hi (c ∷ input) = elim (hex_digit_value c) [
  | none ↦ (none, c ∷ input)
  | some lo ↦ (some (bit_or (hi * 2 ^ 4) lo % 2 ^ 8 ∷ []), input)
]

unfoldable pub byte_escape : List ℕ → Round
unfolding second_digit
byte_escape [] = (none, [])
byte_escape (c ∷ input) = elim (hex_digit_value c) [
  | none ↦ (none, c ∷ input)
  | some hi ↦ second_digit hi input
]

unfoldable pub bytes_escape : List ℕ → Round
unfolding map_common_escape_sequence byte_escape
bytes_escape [] = (none, [])
bytes_escape (c ∷ input) = elim (map_common_escape_sequence c) [
  | some character ↦ (some (character ∷ []), input)
  | none ↦ if c == b'x' then byte_escape input else (none, c ∷ input)
]

unfoldable pub bytes_round : ℕ → List ℕ → Round
unfolding bytes_escape
bytes_round c input = if c == b'\\' then bytes_escape input else (some (c ∷ []), input)

-- The loop up to the closing quote, which it consumes.
unfoldable pub content_loop : (ℕ → List ℕ → Round) → ℕ → List ℕ → List ℕ → Outcome Round
content_loop round fuel output [] = done (some output, [])
content_loop round zero output (c ∷ input) = out_of_fuel
content_loop round (suc fuel) output (c ∷ input) =
    let after = round c input in
    let rest = λ (written : List ℕ). content_loop round fuel (output ++ written) after.1 in
    if c == b'"'
    then done (some output, input)
    else elim after.0 [ none ↦ done (none, after.1) | some written ↦ rest written ]

-- Each round consumes a byte, so that as many rounds as bytes are enough.
unfoldable pub consume_content : (ℕ → List ℕ → Round) → List ℕ → Outcome Round
unfolding content_loop measure_quoted_content
consume_content round input =
    if measure_quoted_content input == 0 && not (next_is (λ c. c == b'"') input)
    then done (none, input)
    else content_loop round (length input) [] input

unfoldable pub consume_text_content : List ℕ → Outcome Round
unfolding consume_content text_round
consume_text_content = consume_content text_round

unfoldable pub consume_bytes_content : List ℕ → Outcome Round
unfolding consume_content bytes_round
consume_bytes_content = consume_content bytes_round
