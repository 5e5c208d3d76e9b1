-- ===== src/Printer/Tests.antt =====
-- The printer on values.
use lone.Prelude.{◌≡◌, refl, [], ◌∷◌}
use lone.Datum.{nil, list, vector, table, bytes, text, no_items, item, no_fields, field}
use lone.Printer.{print}

-- ([ "\n\u{1}" ] . { () b"\xff" })
prints_nested :
    print (
      list
        (vector (item (text (10 ∷ 1 ∷ [])) no_items))
        (table (field nil (bytes (255 ∷ [])) no_fields)))
    ≡ b'(' ∷ b'[' ∷ b' ' ∷ b'"' ∷ b'\\' ∷ b'n' ∷ b'\\' ∷ b'u' ∷ b'{' ∷ b'1' ∷ b'}' ∷ b'"' ∷ b' '
      ∷ b']' ∷ b' ' ∷ b'.' ∷ b' ' ∷ b'{' ∷ b' ' ∷ b'(' ∷ b')' ∷ b' ' ∷ b'b' ∷ b'"' ∷ b'\\' ∷ b'x'
      ∷ b'f' ∷ b'f' ∷ b'"' ∷ b' ' ∷ b'}' ∷ b')' ∷ []
unfolding print
prints_nested = refl
