-- ===== src/Reader/Tests.antt =====
-- The reader on inputs, and its theorems at inputs.
use Prim.Native.Char.{code}
use Prim.Native.String.{String}
use lone.Prelude.{
  ℕ, ◌+◌, ◌≤◌, ◌≡◌, refl, false, List, [], ◌∷◌, length, inl, pos, fits, times_ten, ◌+ℤ◌, sub_ℕ,
  ltb_ℤ, to_word, of_word, shift_right,
}
use lone.Datum.{integer, list, symbol, text, list_onto}
use lone.Unicode.{
  encode, is_valid_code_point, continuation, validate, validate_loop, decode, is_overlong,
}
use lone.Value.{code as tag_code}
use lone.Value.Integer.{
  integer_parse, integer_after, parse_digits, digit_of, integer_create, integer_of,
}
use lone.Reader.{Reader, done, hex_digit_value, reader_for_bytes}
use lone.Reader.Outcomes.{Post}
use lone.Reader.Quoted.{close_code_point, measure_quoted_content, consume_text_content}
use lone.Reader.Buffer.{consume_content-fits}
use lone.Reader.Parser.Termination.{read-returns}
use lone.Reader.Lexer.{lex}
use lone.Reader.Parser.{
  action, next_token, with_value, parse, parse_list, parse_rest, is_expected_character_symbol, read,
}

abbrev codes : String → List ℕ
codes String.[] = []
codes (String.◌∷◌ c s) = code c ∷ codes s

abbrev start : String → Reader
start s = reader_for_bytes (codes s)

-- What is read off the front of an input, and what is left.
abbrev left : String → Reader
left s = record { input = codes s; error = false; end_of_input = false }

reads_list :
    read (start "(a 12 . \"x\\ty\\u{41}\") rest")
    ≡ done (
      list (symbol (codes "a")) (list (integer (pos 12)) (text (b'x' ∷ 9 ∷ b'y' ∷ b'A' ∷ []))),
      left " rest",
    )
unfolding read lex reader_for_bytes action next_token with_value parse parse_list parse_rest
    is_expected_character_symbol list_onto integer_parse integer_after parse_digits fits times_ten
    ◌+ℤ◌ digit_of sub_ℕ integer_create integer_of ltb_ℤ to_word of_word shift_right tag_code
    close_code_point hex_digit_value encode is_valid_code_point validate validate_loop decode
    is_overlong
reads_list = refl

read-returns_example : Post (λ a. length a.1.input ≤ 6) (read (start "(1 . 2"))
unfolding reader_for_bytes
read-returns_example = read-returns (start "(1 . 2")

consume_content-fits_example :
    (4 ≤ measure_quoted_content (codes "a\\u{e9}\\n\" b"))
    × (measure_quoted_content (codes "a\\u{e9}\\n\" b") + 1 + 2 ≡ length (codes "a\\u{e9}\\n\" b"))
consume_content-fits_example =
    consume_content-fits (codes "a\\u{e9}\\n\" b") (b'a' ∷ 0xC3 ∷ 0xA9 ∷ 10 ∷ []) (codes " b") (
      inl (
        unfold consume_text_content close_code_point encode is_valid_code_point continuation
          hex_digit_value in
        refl))
