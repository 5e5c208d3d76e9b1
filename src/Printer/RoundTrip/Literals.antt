-- ===== src/Printer/RoundTrip/Literals.antt =====
-- Text and byte literals, with their quotes.
use lone.Prelude.{
  ℕ, ◌≡◌, refl, arith, Bool, true, false, List, [], ◌∷◌, ◌++◌, append_assoc, All, IsByte, some,
}
use lone.Unicode.{Validated, validate}
use lone.Datum.{text, bytes}
use lone.Reader.{done, is_whitespace, is_closing_bracket, is_token_separator, ends_or}
use lone.Reader.Quoted.{text_round, bytes_round, consume_text_content, consume_bytes_content}
use lone.Reader.Lexer.{
  text_transfer, bytes_value, consume_literal, consume_text, consume_byte_literal, consume_token,
  lex,
}
use lone.Printer.{print_text, print_bytes}
use lone.Printer.RoundTrip.Scanning.{ready, Ends, lex-token}
use lone.Printer.RoundTrip.Contents.{
  forms, print_escaped_content-forms, AllRead, form-IsRead_text, form-IsRead_bytes,
  consume_content-forms,
}

-- A text that the validator accepts.
abbrev pub IsText : List ℕ → Type 0
IsText content = (v : Validated) × (validate content ≡ some v) × (v.valid ≡ true)

separated : (rest : List ℕ) → Ends rest → ends_or is_token_separator rest ≡ true
unfolding is_token_separator is_whitespace is_closing_bracket
separated [] h = refl
separated (c ∷ rest) h = ground (arith, h)

all_text : (content : List ℕ) → AllRead text_round false true content
all_text [] = tt
all_text (b ∷ content) = (form-IsRead_text b, all_text content)

all_bytes : (content : List ℕ) → All IsByte content → AllRead bytes_round true false content
all_bytes [] h = tt
all_bytes (b ∷ content) h = (form-IsRead_bytes b h.0, all_bytes content h.1)

pub lex-print_text :
    (content rest : List ℕ) (e : Bool)
    → IsText content
    → Ends rest
    → lex (ready (print_text content ++ rest) e) ≡ done (text content, ready rest false)
unfolding print_text consume_token consume_text consume_literal text_transfer consume_text_content
lex-print_text content rest e valid ends =
    let c = consume_content-forms text_round false true content rest (all_text content) in
    rw
      (
        print_escaped_content-forms false true [] content,
        append_assoc (forms false true content) (b'"' ∷ []) rest,
      )
      (lex-token b'"' (forms false true content ++ b'"' ∷ rest) e (text content) rest refl
        (rw (c, separated rest ends, text_transfer, valid.1, valid.2) refl))

pub lex-print_bytes :
    (content rest : List ℕ) (e : Bool)
    → All IsByte content
    → Ends rest
    → lex (ready (print_bytes content ++ rest) e) ≡ done (bytes content, ready rest false)
unfolding print_bytes consume_token consume_byte_literal consume_literal bytes_value
    consume_bytes_content
lex-print_bytes content rest e h ends =
    let c = consume_content-forms bytes_round true false content rest (all_bytes content h) in
    rw
      (
        print_escaped_content-forms true false [] content,
        append_assoc (forms true false content) (b'"' ∷ []) rest,
      )
      (lex-token b'b' (b'"' ∷ (forms true false content ++ b'"' ∷ rest)) e (bytes content) rest refl
        (rw (c, separated rest ends) refl))
