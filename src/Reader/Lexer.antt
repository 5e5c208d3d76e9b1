-- ===== src/Reader/Lexer.antt =====
-- The lexer of source/lone/lisp/reader.c: one token at a time. A token is an atom, or the symbol of
-- a single character that the parser deals with.
use lone.Prelude.{
  ℕ, Bool, true, false, List, [], ◌∷◌, ◌++◌, Option, none, some, ◌==◌, ◌||◌, not, if◌then◌else◌,
}
use lone.Unicode.{validate}
use lone.Value.Integer.{integer_parse, integer_of}
use lone.Datum.{Datum, nil, integer, symbol, text, bytes}
use lone.Reader.{
  Reader, Outcome, done, exits, out_of_fuel, ◌>>=◌, Read, consume, at, fail, is_whitespace,
  is_digit, is_closing_bracket, is_token_separator, is_symbol_terminator, next_is, ends_or, span,
  past,
}
use lone.Reader.Quoted.{consume_text_content, consume_bytes_content}

unfoldable pub is_sign : ℕ → Bool
is_sign c = c == b'+' || c == b'-'

-- The sign at the front of the input, if there is one, and the input behind it.
unfoldable pub sign_of : List ℕ → List ℕ
unfolding is_sign
sign_of [] = []
sign_of (c ∷ input) = if is_sign c then c ∷ [] else []

unfoldable pub past_sign : List ℕ → List ℕ
unfolding is_sign
past_sign [] = []
past_sign (c ∷ input) = if is_sign c then input else c ∷ input

-- `lone_lisp_integer_parse` of a numeral, which exits where it has no word.
unfoldable pub integer_value : List ℕ → Outcome Datum
integer_value digits = elim (integer_parse digits) [
  | none ↦ exits
  | some word ↦ done (integer (integer_of word))
]

unfoldable pub consume_number : Reader → Read
unfolding sign_of past_sign is_digit span past is_token_separator integer_value fail
consume_number reader =
    let unsigned = past_sign reader.input in
    let after = past is_digit unsigned in
    let number = do
      value ← integer_value (sign_of reader.input ++ span is_digit unsigned)
      done (value, at reader after)
    in if not (next_is is_digit unsigned)
      then fail reader unsigned
      else if not (ends_or is_token_separator after)
      then fail reader after
      else number

abbrev pub not_terminator : ℕ → Bool
not_terminator c = not (is_symbol_terminator c)

abbrev pub after_symbol : ℕ → Bool
after_symbol c = is_whitespace c || is_closing_bracket c

abbrev pub is_empty : List ℕ → Bool
is_empty [] = true
is_empty (_ ∷ _) = false

unfoldable pub consume_symbol : Reader → Read
unfolding span past is_symbol_terminator is_whitespace is_closing_bracket fail
consume_symbol reader =
    let name = span not_terminator reader.input in
    let after = past not_terminator reader.input in
    if is_empty name
    then fail reader after
    else if not (ends_or after_symbol after)
    then fail reader after
    else done (symbol name, at reader after)

-- `lone_lisp_text_transfer` of bytes that are its own, which exits on bytes that are not UTF-8.
unfoldable pub text_transfer : List ℕ → Outcome Datum
text_transfer content = elim (validate content) [
  | none ↦ out_of_fuel
  | some validation ↦ if validation.valid then done (text content) else exits
]

-- `lone_lisp_bytes_transfer`, or the value with its bytes in the word.
unfoldable pub bytes_value : List ℕ → Outcome Datum
bytes_value content = done (bytes content)

-- What consumes a literal that starts with a quote.
unfoldable pub consume_literal :
    (List ℕ → Outcome (Option (List ℕ) × List ℕ)) → (List ℕ → Outcome Datum) → Reader → Read
unfolding is_token_separator fail
consume_literal consume_content transfer reader = elim reader.input [
  | [] ↦ fail reader []
  | c ∷ input ↦
      if not (c == b'"')
      then fail reader (c ∷ input)
      else consume_content input >>= λ (content, after). elim content [
        | none ↦ fail reader after
        | some output ↦
            if not (ends_or is_token_separator after)
            then fail reader after
            else transfer output >>= λ value. done (value, at reader after)
      ]
]

unfoldable pub consume_text : Reader → Read
unfolding consume_literal consume_text_content text_transfer
consume_text = consume_literal consume_text_content text_transfer

unfoldable pub consume_byte_literal : Reader → Read
unfolding consume_literal consume_bytes_content bytes_value
consume_byte_literal = consume_literal consume_bytes_content bytes_value

-- The characters that are tokens by themselves.
unfoldable pub is_token : ℕ → Bool
is_token c =
    c == b'('
    || c == b')'
    || c == b'['
    || c == b']'
    || c == b'{'
    || c == b'}'
    || c == 0x27
    || c == b'`'
    || c == b'.'

unfoldable pub consume_character : Reader → Read
unfolding is_token fail
consume_character reader = elim reader.input [
  | [] ↦ fail reader []
  | c ∷ input ↦
      if is_token c then done (symbol (c ∷ []), at reader input) else fail reader (c ∷ input)
]

-- The input behind whitespace and comments; the flag says that a comment is being skipped.
unfoldable pub skip_blank : Bool → List ℕ → List ℕ
unfolding is_whitespace
skip_blank comment [] = []
skip_blank false (c ∷ input) =
    if is_whitespace c
    then skip_blank false input
    else if c == b';'
    then skip_blank true input
    else c ∷ input
skip_blank true (c ∷ input) = if c == 10 then skip_blank false input else skip_blank true input

abbrev pub is_quote : ℕ → Bool
is_quote c = c == b'"'

-- The `switch` on the first byte of a token; `c1` is the input behind it.
unfoldable pub consume_token : ℕ → List ℕ → Reader → Read
unfolding is_sign is_digit is_token consume consume_number consume_symbol consume_text
    consume_byte_literal consume_character
consume_token c c1 reader =
    if is_sign c
    then (if next_is is_digit c1 then consume_number reader else consume_symbol reader)
    else if is_digit c
    then consume_number reader
    else if c == b'"'
    then consume_text reader
    else if is_token c
    then consume_character reader
    else if c == b'b'
    then (if next_is is_quote c1
        then consume_byte_literal (consume reader)
        else consume_symbol reader)
    else consume_symbol reader

-- What the lexer does once it has consumed a token. After an error it leaves `end_of_input` alone.
abbrev pub finish : Datum × Reader → Read
finish (token, reader) =
    if reader.error
    then done (nil, reader)
    else done (token, record reader { end_of_input = false })

-- On the input behind the blanks.
unfoldable pub lex_at : List ℕ → Reader → Read
unfolding consume_token
lex_at [] reader = done (nil, record reader { input = []; end_of_input = true })
lex_at (c ∷ input) reader = consume_token c input (at reader (c ∷ input)) >>= finish

unfoldable pub lex : Reader → Read
unfolding skip_blank lex_at
lex reader = lex_at (skip_blank false reader.input) reader
