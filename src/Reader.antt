-- ===== src/Reader.antt =====
-- source/lone/lisp/reader.c: the reader, which turns input into values. This file has its state, the
-- classes of characters and the scanning loops that the children share.
--
-- The reader is one over bytes in memory (`lone_lisp_reader_for_bytes`): `input` are the bytes from
-- the read position to the write position, so that peeking looks at the front of `input` and
-- consuming drops it. `exits` stands for `linux_exit(-1)`.
pub mod Quoted
pub mod Lexer
pub mod Outcomes
pub mod Contents
pub mod Measure
pub mod Buffer
pub mod Atoms
pub mod Progress
pub mod Parser
mod Tests
use lone.Prelude.{
  ℕ, zero, suc, ◌+◌, ◌-◌, Bool, true, false, List, [], ◌∷◌, Option, none, some, leb, ◌==◌, ◌&&◌,
  ◌||◌, if◌then◌else◌, drop, get_elem?,
}
use lone.Datum.{Datum, nil}

pub record Reader : Type 0 where
  pub input : List ℕ
  pub error : Bool
  pub end_of_input : Bool

unfoldable pub reader_for_bytes : List ℕ → Reader
reader_for_bytes bytes = record { input = bytes; error = false; end_of_input = false }

pub data Outcome {ℓ} (A : Type ℓ) : Type ℓ where
  done : A → Outcome A
  exits : Outcome A
  out_of_fuel : Outcome A

infixl 5 ◌>>=◌
abbrev pub ◌>>=◌ {ℓ κ} : {A : Type ℓ} {B : Type κ} → Outcome A → (A → Outcome B) → Outcome B
done a >>= f = f a
exits >>= f = exits
out_of_fuel >>= f = out_of_fuel

-- What a function of the reader returns, and the reader after it.
abbrev pub Read : Type 0
Read = Outcome (Datum × Reader)

unfoldable pub peek_k : Reader → ℕ → Option ℕ
peek_k reader k = get_elem? reader.input k

unfoldable pub peek : Reader → Option ℕ
unfolding peek_k
peek reader = peek_k reader 0

unfoldable pub consume_k : Reader → ℕ → Reader
consume_k reader k = record reader { input = drop k reader.input }

unfoldable pub consume : Reader → Reader
unfolding consume_k
consume reader = consume_k reader 1

-- The reader at the rest of its input.
abbrev pub at : Reader → List ℕ → Reader
at reader input = record reader { input = input }

-- The jump to `error`, with the read position at `input`.
unfoldable pub fail : Reader → List ℕ → Read
fail reader input = done (nil, record reader { input = input; error = true })

unfoldable pub is_whitespace : ℕ → Bool
is_whitespace c = c == b' ' || c == 9 || c == 10

unfoldable pub is_digit : ℕ → Bool
is_digit c = leb b'0' c && leb c b'9'

unfoldable pub hex_digit_value : ℕ → Option ℕ
hex_digit_value c =
    if leb b'0' c && leb c b'9'
    then some (c - b'0')
    else if leb b'a' c && leb c b'f'
    then some (c - b'a' + 10)
    else if leb b'A' c && leb c b'F'
    then some (c - b'A' + 10)
    else none

unfoldable pub is_opening_bracket : ℕ → Bool
is_opening_bracket c = c == b'(' || c == b'[' || c == b'{'

unfoldable pub is_closing_bracket : ℕ → Bool
is_closing_bracket c = c == b')' || c == b']' || c == b'}'

unfoldable pub is_token_separator : ℕ → Bool
unfolding is_whitespace is_closing_bracket
is_token_separator c = is_whitespace c || is_closing_bracket c || c == b';'

unfoldable pub is_symbol_terminator : ℕ → Bool
unfolding is_token_separator is_opening_bracket
is_symbol_terminator c = is_token_separator c || is_opening_bracket c || c == b'"'

-- Whether there is a next byte and it passes a test; and whether the input ends or passes it.
abbrev pub next_is : (ℕ → Bool) → List ℕ → Bool
next_is test [] = false
next_is test (c ∷ _) = test c

abbrev pub ends_or : (ℕ → Bool) → List ℕ → Bool
ends_or test [] = true
ends_or test (c ∷ _) = test c

-- A `while` loop that consumes the bytes which pass a test: those bytes, and the input after them.
unfoldable pub span : (ℕ → Bool) → List ℕ → List ℕ
span test [] = []
span test (c ∷ input) = if test c then c ∷ span test input else []

unfoldable pub past : (ℕ → Bool) → List ℕ → List ℕ
past test [] = []
past test (c ∷ input) = if test c then past test input else c ∷ input
