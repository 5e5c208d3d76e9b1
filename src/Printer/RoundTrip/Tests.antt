-- ===== src/Printer/RoundTrip/Tests.antt =====
-- The round trip at a value of every kind.
use lone.Prelude.{◌≡◌, refl, arith, true, false, [], ◌∷◌, ◌++◌, pos, negsuc, fits}
use lone.Unicode.{
  validate, validate_loop, decode, decode_sequence, continue_with, is_overlong,
  is_continuation_byte, is_valid_code_point,
}
use lone.Datum.{
  Datum, nil, integer, list, vector, table, bytes, symbol, text, no_items, item, no_fields, field,
}
use lone.Datum.Keys.{is_hashable, key_matches, same_bytes}
use lone.Reader.{
  done, reader_for_bytes, is_digit, is_symbol_terminator, is_whitespace, is_closing_bracket,
}
use lone.Reader.Lexer.{is_sign, is_token}
use lone.Reader.Parser.{read}
use lone.Printer.{print}
use lone.Printer.RoundTrip.Readable.{IsReadable, AreReadable, IsReadableTable, is_absent}
use lone.Printer.RoundTrip.{read-print}

-- (a-b "é\n" [-7 b"\xff"] {+ () "x" (1 . y)} . z)
abbrev sample : Datum
sample = list (symbol (b'a' ∷ b'-' ∷ b'b' ∷ [])) (
    list (text (0xC3 ∷ 0xA9 ∷ 10 ∷ [])) (
      list (vector (item (integer (negsuc 6)) (item (bytes (0xFF ∷ [])) no_items))) (
        list
          (table (
            field (symbol (b'+' ∷ [])) nil
              (field (text (b'x' ∷ [])) (list (integer (pos 1)) (symbol (b'y' ∷ []))) no_fields)))
          (symbol (b'z' ∷ [])))))

sample-IsReadable : IsReadable sample
unfolding IsReadable AreReadable IsReadableTable is_absent is_hashable key_matches same_bytes fits
    is_symbol_terminator is_digit is_token is_sign validate validate_loop decode decode_sequence
    continue_with is_overlong is_continuation_byte is_valid_code_point
sample-IsReadable =
    let name : IsReadable (symbol (b'y' ∷ [])) = ((refl, tt), refl, refl, refl) in
    (
      ((refl, (refl, (refl, tt))), refl, refl, refl),
      (
        (record { code_point_count = 2; valid = true }, refl, refl),
        (
          (refl, ((omega arith, tt), tt)),
          (
            (
              ((refl, tt), refl, refl, refl),
              refl,
              refl,
              tt,
              (
                (record { code_point_count = 1; valid = true }, refl, refl),
                refl,
                refl,
                (refl, name),
                tt,
              ),
            ),
            ((refl, tt), refl, refl, refl),
          ),
        ),
      ),
    )

read-print_example :
    read (reader_for_bytes (print sample ++ b' ' ∷ b'r' ∷ []))
    ≡ done (sample, record { input = b' ' ∷ b'r' ∷ []; error = false; end_of_input = false })
read-print_example =
    read-print sample (b' ' ∷ b'r' ∷ []) sample-IsReadable
      (unfold is_whitespace is_closing_bracket in refl)
