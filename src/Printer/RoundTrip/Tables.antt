-- ===== src/Printer/RoundTrip/Tables.antt =====
-- Tables: the parser's loop over the entries that the printer wrote.
use lone.Prelude.{
  ℕ, zero, suc, ◌+◌, ◌<◌, ◌≡◌, refl, sym, ap, ◌∙◌, arith, Bool, true, false, List, [], ◌∷◌, ◌++◌,
  append_assoc, length, length-append,
}
use lone.Datum.{Datum, Fields, table, symbol, no_fields, field}
use lone.Datum.Keys.{is_hashable, set_field, table_set}
use lone.Reader.{done, ◌>>=◌}
use lone.Reader.Lexer.{consume_token, lex}
use lone.Reader.Parser.{
  is_expected_character_symbol, action, next_token, with_value, parse, parse_table,
  parse_table_value,
}
use lone.Printer.{print_from, print_fields}
use lone.Printer.RoundTrip.Scanning.{ready, Ends-space, lex-token}
use lone.Printer.RoundTrip.Readable.{
  is_absent, fields_onto, fields_onto-no_fields, Apart, set_field-Apart, Apart-set_field,
}
use lone.Printer.RoundTrip.Values.{open_IsInner, ReadsFrom, lex-space}

-- The loop over a table, from the entries already read.
abbrev pub ReadsFields : Fields → Type 0
ReadsFields xs =
    (rest : List ℕ) (e : Bool) (read : Fields) (f : ℕ)
    → Apart read xs
    → length (print_fields xs) < f
    → parse_table f read (ready (print_fields xs ++ b'}' ∷ rest) e)
      ≡ done (table (fields_onto read xs), ready rest false)

lex-table_end :
    (rest : List ℕ) (e : Bool)
    → lex (ready (b'}' ∷ rest) e) ≡ done (symbol (b'}' ∷ []), ready rest false)
unfolding consume_token
lex-table_end rest e = lex-token b'}' rest e (symbol (b'}' ∷ [])) rest refl refl

pub no_fields-ReadsFields : ReadsFields no_fields
unfolding print_fields parse_table next_token with_value is_expected_character_symbol
no_fields-ReadsFields rest e read zero apart l = absurd (omega arith)
no_fields-ReadsFields rest e read (suc f) apart l =
    rw (lex-table_end rest e)
      (ap (λ (xs : Fields). done (table xs, ready rest false)) (sym (fields_onto-no_fields read)))

parse_table-space :
    (f : ℕ) (read : Fields) (input : List ℕ) (e : Bool)
    → parse_table (suc f) read (ready (b' ' ∷ input) e) ≡ parse_table (suc f) read (ready input e)
unfolding parse_table next_token with_value
parse_table-space f read input e = rw (lex-space input e) refl

key_round :
    (k : Datum) (rest : List ℕ) (read : Fields) (e : Bool) (f : ℕ)
    → ReadsFrom k
    → length (print_from false k) < f
    → parse_table (suc f) read (ready (print_from false k ++ b' ' ∷ rest) e)
      ≡ parse_table_value f read k (ready (b' ' ∷ rest) false)
unfolding parse_table next_token with_value
key_round k rest read e f reads l =
    let r = reads (b' ' ∷ rest) e (Ends-space rest) in
    rw (r.2, ◌>>=◌, r.3.no_table_end, r.4 f l) refl

value_round :
    (k v : Datum) (rest : List ℕ) (read : Fields) (f : ℕ)
    → ReadsFrom v
    → is_hashable k ≡ true
    → length (print_from false v) < f
    → parse_table_value (suc f) read k (ready (b' ' ∷ (print_from false v ++ b' ' ∷ rest)) false)
      ≡ parse_table f (set_field read k v) (ready (b' ' ∷ rest) false)
unfolding parse_table_value next_token with_value table_set
value_round k v rest read f reads h l =
    let r = reads (b' ' ∷ rest) false (Ends-space rest) in
    rw
      (
        lex-space (print_from false v ++ b' ' ∷ rest) false,
        r.2,
        ◌>>=◌,
        r.3.no_table_end,
        r.4 f l,
        h,
      )
      refl

-- An entry of the text, and the entries behind it.
module _ (k v : Datum) (xs : Fields) where
  abbrev written : List ℕ → List ℕ
  written rest =
      print_from false k ++ b' ' ∷ (print_from false v ++ b' ' ∷ (print_fields xs ++ b'}' ∷ rest))

  printed_field : (rest : List ℕ) → print_fields (field k v xs) ++ b'}' ∷ rest ≡ written rest
  unfolding print_fields
  printed_field rest = simp append_assoc

  length-field :
      length (print_fields (field k v xs))
      ≡ length (print_from false k) + length (print_from false v) + length (print_fields xs) + 2
  unfolding print_fields
  length-field = omega (
    arith,
    length-append (print_from false k ++ b' ' ∷ print_from false v) (b' ' ∷ print_fields xs),
    length-append (print_from false k) (b' ' ∷ print_from false v),
  )

  pub field-ReadsFields :
      ReadsFrom k
      → is_hashable k ≡ true
      → is_absent k xs ≡ true
      → ReadsFrom v
      → ReadsFields xs
      → ReadsFields (field k v xs)
  field-ReadsFields rk h fresh rv rxs rest e read zero apart l = absurd (omega arith)
  field-ReadsFields rk h fresh rv rxs rest e read (suc zero) apart l =
      absurd (omega (arith, length-field))
  field-ReadsFields rk h fresh rv rxs rest e read (suc (suc zero)) apart l =
      absurd (omega (arith, length-field))
  field-ReadsFields rk h fresh rv rxs rest e read (suc (suc (suc f))) apart l =
      let behind = print_fields xs ++ b'}' ∷ rest in
      let after = set_field read k v in
      ap (λ (i : List ℕ). parse_table (suc (suc (suc f))) read (ready i e)) (printed_field rest)
      ∙ key_round k (print_from false v ++ b' ' ∷ behind) read e (suc (suc f)) rk
          (omega (arith, length-field))
      ∙ value_round k v behind read (suc f) rv h (omega (arith, length-field))
      ∙ parse_table-space f after behind false
      ∙ rxs rest false after (suc f) (Apart-set_field read k v xs apart fresh)
          (omega (arith, length-field))
      ∙ ap (λ (ys : Fields). done (table ys, ready rest false)) (set_field-Apart read k v xs apart)

-- What stands behind the opening bracket.
behind_bracket : Fields → List ℕ → List ℕ
behind_bracket no_fields rest = b'}' ∷ rest
behind_bracket (field k v xs) rest = b' ' ∷ (print_fields (field k v xs) ++ b'}' ∷ rest)

printed_table :
    (xs : Fields) (rest : List ℕ)
    → print_from false (table xs) ++ rest ≡ b'{' ∷ behind_bracket xs rest
unfolding behind_bracket print_from
printed_table no_fields rest = refl
printed_table (field k v xs) rest =
    ap (λ (l : List ℕ). b'{' ∷ b' ' ∷ l)
      (append_assoc (print_fields (field k v xs)) (b'}' ∷ []) rest)

lex-table :
    (xs : Fields) (rest : List ℕ) (e : Bool)
    → lex (ready (print_from false (table xs) ++ rest) e)
      ≡ done (symbol (b'{' ∷ []), ready (behind_bracket xs rest) false)
unfolding consume_token
lex-table xs rest e =
    let after = behind_bracket xs rest in
    ap (λ (l : List ℕ). lex (ready l e)) (printed_table xs rest)
    ∙ lex-token b'{' after e (symbol (b'{' ∷ [])) after refl refl

parse-table :
    (xs : Fields) (rest : List ℕ) (f : ℕ)
    → ReadsFields xs
    → length (print_fields xs) + 1 < f
    → parse f (symbol (b'{' ∷ [])) (ready (behind_bracket xs rest) false)
      ≡ done (table xs, ready rest false)
unfolding parse action behind_bracket fields_onto Apart
parse-table xs rest zero reads l = absurd (omega arith)
parse-table xs rest (suc zero) reads l = absurd (omega arith)
parse-table no_fields rest (suc (suc f)) reads l =
    unfold print_fields in reads rest false no_fields (suc f) tt (omega arith)
parse-table (field k v xs) rest (suc (suc f)) reads l =
    parse_table-space f no_fields (print_fields (field k v xs) ++ b'}' ∷ rest) false
    ∙ reads rest false no_fields (suc f) tt (omega arith)

length-table : (xs : Fields) → length (print_fields xs) + 1 < length (print_from false (table xs))
unfolding print_from
length-table no_fields = omega arith
length-table (field k v xs) = omega (arith, length-append (print_fields (field k v xs)) (b'}' ∷ []))

-- A table is read back.
pub table-ReadsFrom : (xs : Fields) → ReadsFields xs → ReadsFrom (table xs)
table-ReadsFrom xs reads rest e ends = (
  symbol (b'{' ∷ []),
  behind_bracket xs rest,
  lex-table xs rest e,
  open_IsInner b'{' refl refl refl refl,
  λ f l. parse-table xs rest f reads (omega (arith, length-table xs)),
)
