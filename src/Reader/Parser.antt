-- ===== src/Reader/Parser.antt =====
-- The parser of source/lone/lisp/reader.c: recursive descent over the tokens of the lexer. A value
-- under construction is the loop's argument. Each call and each round of a loop costs a unit of
-- fuel.
pub mod Termination
use lone.Prelude.{
  ℕ, zero, suc, ◌+◌, ◌*◌, Bool, true, false, List, [], ◌∷◌, ◌++◌, Option, none, some, ◌==◌, ◌||◌,
  not, if◌then◌else◌, length,
}
use lone.Datum.{
  Datum, Items, Fields, nil, boolean, integer, list, vector, table, bytes, symbol, text, no_items,
  no_fields, list_onto, append_item,
}
use lone.Datum.Keys.{table_set}
use lone.Reader.{Reader, Outcome, done, exits, out_of_fuel, ◌>>=◌, Read, fail}
use lone.Reader.Lexer.{lex}

unfoldable pub is_expected_character_symbol : Datum → ℕ → Bool
is_expected_character_symbol (symbol (c ∷ [])) expected = c == expected
is_expected_character_symbol _ expected = false

-- What the parser does with a token.
pub data Action : Type 0 where
  keep special begin_list begin_vector begin_table reject : Action

unfoldable pub character_action : ℕ → Action
character_action c =
    if c == 0x27 || c == b'`'
    then special
    else if c == b'('
    then begin_list
    else if c == b'['
    then begin_vector
    else if c == b'{'
    then begin_table
    else if c == b')' || c == b']' || c == b'}'
    then reject
    else keep

unfoldable pub action : Datum → Action
unfolding character_action
action nil = keep
action (boolean b) = keep
action (integer z) = keep
action (bytes content) = keep
action (text content) = keep
action (symbol (c ∷ [])) = character_action c
action (symbol _) = keep
action _ = reject

-- The symbol in front of what a special character quotes.
unfoldable pub special_name : Datum → List ℕ
special_name (symbol (c ∷ [])) =
    if c == b'`'
    then b'q' ∷ b'u' ∷ b'a' ∷ b's' ∷ b'i' ∷ b'q' ∷ b'u' ∷ b'o' ∷ b't' ∷ b'e' ∷ []
    else b'q' ∷ b'u' ∷ b'o' ∷ b't' ∷ b'e' ∷ []
special_name _ = []

-- The jump to `error` of the parser's functions.
abbrev pub error_at : Reader → Read
error_at reader = fail reader reader.input

-- What the loops of the parser do first: take a token, and jump to `error` where there is none or
-- the lexer has failed. So too with the value that a token begins.
unfoldable pub next_token : Reader → (Datum → Reader → Read) → Read
unfolding fail
next_token reader go = lex reader >>= λ (token, r). elim (r.error || r.end_of_input) [
  | true ↦ error_at r
  | false ↦ go token r
]

unfoldable pub with_value : Read → (Datum → Reader → Read) → Read
unfolding fail
with_value parsed go =
    parsed >>= λ (value, r). elim r.error [ true ↦ error_at r | false ↦ go value r ]

unfoldable mutual
  unfolding fail

  pub parse : ℕ → Datum → Reader → Read
  parse zero token reader = out_of_fuel
  parse (suc f) token reader = elim reader.end_of_input [
    | true ↦ done (nil, reader)
    | false ↦ elim (action token) [
      | keep ↦ done (token, reader)
      | special ↦ parse_special_character f (special_name token) reader
      | begin_list ↦ parse_list f [] reader
      | begin_vector ↦ parse_vector f no_items reader
      | begin_table ↦ parse_table f no_fields reader
      | reject ↦ error_at reader
    ]
  ]

  -- No error is looked for here.
  pub parse_special_character : ℕ → List ℕ → Reader → Read
  parse_special_character zero name reader = out_of_fuel
  parse_special_character (suc f) name reader = lex reader >>= λ (token, r).
      parse f token r >>= λ (value, r'). done (list (symbol name) (list value nil), r')

  pub parse_list : ℕ → List Datum → Reader → Read
  parse_list zero firsts reader = out_of_fuel
  parse_list (suc f) firsts reader = next_token reader λ next r.
      elim (is_expected_character_symbol next b')') [
        | true ↦ done (list_onto firsts nil, r)
        | false ↦ elim (is_expected_character_symbol next b'.') [
          | true ↦ elim firsts [
            | [] ↦ error_at r
            | first ∷ others ↦ parse_rest f (first ∷ others) r
          ]
          | false ↦ with_value (parse f next r) λ value r'. parse_list f (firsts ++ value ∷ []) r'
        ]
      ]

  -- What follows the dot of the pair syntax.
  pub parse_rest : ℕ → List Datum → Reader → Read
  parse_rest zero firsts reader = out_of_fuel
  parse_rest (suc f) firsts reader = next_token reader λ next r.
      with_value (parse f next r) λ value r'. lex r' >>= λ (last, s).
      elim (s.error || not (is_expected_character_symbol last b')')) [
        | true ↦ error_at s
        | false ↦ done (list_onto firsts value, s)
      ]

  pub parse_vector : ℕ → Items → Reader → Read
  parse_vector zero items reader = out_of_fuel
  parse_vector (suc f) items reader = next_token reader λ token r.
      elim (is_expected_character_symbol token b']') [
        | true ↦ done (vector items, r)
        | false ↦
            with_value (parse f token r) λ value r'. parse_vector f (append_item items value) r'
      ]

  pub parse_table : ℕ → Fields → Reader → Read
  parse_table zero entries reader = out_of_fuel
  parse_table (suc f) entries reader = next_token reader λ token r.
      elim (is_expected_character_symbol token b'}') [
        | true ↦ done (table entries, r)
        | false ↦ with_value (parse f token r) λ key r'. parse_table_value f entries key r'
      ]

  -- The rest of a round, behind the key. The assignment exits on a key that has no hash.
  pub parse_table_value : ℕ → Fields → Datum → Reader → Read
  parse_table_value zero entries key reader = out_of_fuel
  parse_table_value (suc f) entries key reader = next_token reader λ token r.
      elim (is_expected_character_symbol token b'}') [
        | true ↦ error_at r
        | false ↦ with_value (parse f token r) λ value r'. elim (table_set entries key value) [
          | none ↦ exits
          | some after ↦ parse_table f after r'
        ]
      ]

unfoldable pub read_with : ℕ → Reader → Read
unfolding parse
read_with fuel reader = lex reader >>= λ (token, r). parse fuel token r

-- Every call and every round consumes a byte or comes right behind one that does.
unfoldable pub read : Reader → Read
unfolding read_with
read reader = read_with (2 * length reader.input + 3) reader
