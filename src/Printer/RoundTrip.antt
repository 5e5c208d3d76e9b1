-- ===== src/Printer/RoundTrip.antt =====
-- Reading what the printer wrote gives the value back.
mod Scanning
mod Numbers
mod Symbols
mod Escapes
mod Contents
mod Literals
pub mod Readable
mod Values
mod Rests
mod Vectors
mod Tables
mod Tests
use lone.Prelude.{
  ℕ, ◌+◌, ◌<◌, ◌≡◌, refl, ap, arith, Bool, true, false, List, [], ◌∷◌, ◌++◌, append-nil, length,
  length-append, not, ◌==◌, Bool-cases, inl, inr,
}
use lone.Datum.{
  Datum, Items, Fields, nil, boolean, integer, list, vector, table, bytes, symbol, text, no_items,
  item, no_fields, field,
}
use lone.Reader.{done, reader_for_bytes}
use lone.Reader.Lexer.{is_token}
use lone.Reader.Parser.{keep, is_expected_character_symbol, character_action, action, read}
use lone.Printer.{print_from, print}
use lone.Printer.RoundTrip.Scanning.{ready, Ends}
use lone.Printer.RoundTrip.Numbers.{lex-print_integer}
use lone.Printer.RoundTrip.Symbols.{IsName, lex-symbol}
use lone.Printer.RoundTrip.Literals.{lex-print_text, lex-print_bytes}
use lone.Printer.RoundTrip.Readable.{IsReadable, AreReadable, IsReadableTable}
use lone.Printer.RoundTrip.Values.{
  IsInner, open_IsInner, ReadsFrom, ReadsRest, atom-ReadsFrom, list-ReadsFrom, list-ReadsRest,
}
use lone.Printer.RoundTrip.Rests.{nil-ReadsFrom, nil-ReadsRest, dotted-ReadsRest}
use lone.Printer.RoundTrip.Vectors.{
  ReadsItems, no_items-ReadsItems, item-ReadsItems, vector-ReadsFrom,
}
use lone.Printer.RoundTrip.Tables.{
  ReadsFields, no_fields-ReadsFields, field-ReadsFields, table-ReadsFrom,
}

-- A name is no character that the parser deals with.
name_action : (name : List ℕ) → IsName name → (action (symbol name) ≡ keep) × IsInner (symbol name)
unfolding action character_action is_token is_expected_character_symbol
name_action [] h = absurd h
name_action (c ∷ []) h = (
  ground (arith, h.2),
  open_IsInner c (ground (arith, h.2)) (ground (arith, h.2)) (ground (arith, h.2))
      (ground (arith, h.2)),
)
name_action (c ∷ d ∷ cs) h =
    (refl, record { no_list_end = refl; no_dot = refl; no_vector_end = refl; no_table_end = refl })

-- An atom is read back, by itself and behind a dot.
both :
    (d : Datum)
    → print_from true d ≡ b' ' ∷ b'.' ∷ b' ' ∷ print_from false d
    → ReadsFrom d
    → ReadsFrom d × ReadsRest d
both d same reads = (reads, dotted-ReadsRest d same reads)

inner : (d : Datum) → ((c : ℕ) → is_expected_character_symbol d c ≡ false) → IsInner d
inner d h = record {
  no_list_end = h b')';
  no_dot = h b'.';
  no_vector_end = h b']';
  no_table_end = h b'}';
}

mutual
  unfolding IsReadable AreReadable IsReadableTable print_from action is_expected_character_symbol

  reads : (d : Datum) → IsReadable d → ReadsFrom d × ReadsRest d
  reads nil h = (nil-ReadsFrom, nil-ReadsRest)
  reads (integer z) h = both (integer z) refl (
      atom-ReadsFrom (integer z) (λ rest e ends. lex-print_integer z rest e h ends) refl
        (inner (integer z) (λ c. refl)))
  reads (symbol name) h =
      let a = name_action name h in
      both (symbol name) refl
        (atom-ReadsFrom (symbol name) (λ rest e ends. lex-symbol name rest e h ends) a.0 a.1)
  reads (text content) h = both (text content) refl (
      atom-ReadsFrom (text content) (λ rest e ends. lex-print_text content rest e h ends) refl
        (inner (text content) (λ c. refl)))
  reads (bytes content) h = both (bytes content) refl (
      atom-ReadsFrom (bytes content) (λ rest e ends. lex-print_bytes content rest e h ends) refl
        (inner (bytes content) (λ c. refl)))
  reads (list first rest) h =
      let a = (reads first h.0).0 in
      let b = (reads rest h.1).1 in (list-ReadsFrom first rest a b, list-ReadsRest first rest a b)
  reads (vector items) h = both (vector items) refl (vector-ReadsFrom items (reads_items items h))
  reads (table entries) h =
      both (table entries) refl (table-ReadsFrom entries (reads_fields entries h))
  reads _ h = absurd h

  reads_items : (xs : Items) → AreReadable xs → ReadsItems xs
  reads_items no_items h = no_items-ReadsItems
  reads_items (item x xs) h = item-ReadsItems x xs (reads x h.0).0 (reads_items xs h.1)

  reads_fields : (xs : Fields) → IsReadableTable xs → ReadsFields xs
  reads_fields no_fields h = no_fields-ReadsFields
  reads_fields (field k v xs) h =
      field-ReadsFields k v xs (reads k h.0).0 h.1 h.2 (reads v h.3).0 (reads_fields xs h.4)

-- A value of nil, integers of 56 bits, symbols whose name is lexically one, texts in UTF-8, bytes,
-- and lists, vectors and tables of such, whose keys have hashes and are pairwise different, is read
-- back as it was printed: the lexer and the parser consume exactly the printed bytes, with no error,
-- whatever follows that is the end of the input, whitespace or a closing bracket. A name is lexically
-- one if it has one byte or more, none of them whitespace, a bracket, a semicolon or a double quote,
-- and does not start with a digit, with a quote, a backquote or a dot, or with a sign before a digit.
pub read-print :
    (d : Datum) (rest : List ℕ)
    → IsReadable d
    → Ends rest
    → read (reader_for_bytes (print d ++ rest)) ≡ done (d, ready rest false)
unfolding read reader_for_bytes print
read-print d rest h ends =
    let r = (reads d h).0 rest false ends in
    rw (r.2) (r.4 _ (omega (arith, length-append (print_from false d) rest)))

-- Two such values that print alike are the same.
pub print-injective : (a b : Datum) → IsReadable a → IsReadable b → print a ≡ print b → a ≡ b
print-injective a b ha hb same =
    let ra = read-print a [] ha refl in
    let rb = read-print b [] hb refl in
    let together : read (reader_for_bytes (print a ++ []))
        ≡ read (reader_for_bytes (print b ++ [])) =
      ap (λ (x : List ℕ). read (reader_for_bytes (x ++ []))) same in
    cc
