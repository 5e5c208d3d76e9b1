-- ===== src/Printer/RoundTrip/Values.antt =====
-- What the parser does with a printed value: the cases that the round trip joins.
use lone.Prelude.{
  ℕ, zero, suc, ◌+◌, ◌<◌, ◌≡◌, refl, sym, ap, ◌∙◌, arith, Bool, true, false, List, [], ◌∷◌, ◌++◌,
  append_assoc, length, length-append, ◌==◌,
}
use lone.Datum.{Datum, nil, list, symbol, list_onto}
use lone.Reader.{done, ◌>>=◌, is_whitespace, is_closing_bracket}
use lone.Reader.Lexer.{skip_blank, consume_token, lex_at, lex}
use lone.Reader.Parser.{
  keep, is_expected_character_symbol, action, next_token, with_value, parse, parse_list,
}
use lone.Printer.{print_from}
use lone.Printer.RoundTrip.Scanning.{ready, Ends, lex-token}

-- A token that the loops of the parser hand on: no closing bracket and no dot.
pub record IsInner (token : Datum) : Type 0 where
  pub no_list_end : is_expected_character_symbol token b')' ≡ false
  pub no_dot : is_expected_character_symbol token b'.' ≡ false
  pub no_vector_end : is_expected_character_symbol token b']' ≡ false
  pub no_table_end : is_expected_character_symbol token b'}' ≡ false

pub open_IsInner :
    (c : ℕ)
    → (c == b')') ≡ false
    → (c == b'.') ≡ false
    → (c == b']') ≡ false
    → (c == b'}') ≡ false
    → IsInner (symbol (c ∷ []))
unfolding is_expected_character_symbol
open_IsInner c p q r s = record { no_list_end = p; no_dot = q; no_vector_end = r; no_table_end = s }

-- The printed value, with anything behind it that ends a value, is read back by the lexer and the
-- parser, on more fuel than it has bytes.
abbrev pub ReadsFrom : Datum → Type 0
ReadsFrom d =
    (rest : List ℕ) (e : Bool)
    → Ends rest
    → (token : Datum) × (after : List ℕ) × (lex (ready (print_from false d ++ rest) e)
        ≡ done (token, ready after false))
      × IsInner token
      × ((f : ℕ)
          → length (print_from false d) < f
          → parse f token (ready after false) ≡ done (d, ready rest false))

-- The rest of a list, read by the loop that has read the firsts before it.
abbrev pub ReadsRest : Datum → Type 0
ReadsRest d =
    (rest : List ℕ) (e : Bool) (first : Datum) (firsts : List Datum) (f : ℕ)
    → length (print_from true d) < f
    → parse_list f (first ∷ firsts) (ready (print_from true d ++ b')' ∷ rest) e)
      ≡ done (list_onto (first ∷ firsts) d, ready rest false)

-- A blank in front of what the lexer looks at makes no difference.
lex_at-ready :
    (input blanks : List ℕ) (e : Bool)
    → lex_at input (ready blanks e) ≡ lex_at input (ready input e)
unfolding lex_at
lex_at-ready [] blanks e = refl
lex_at-ready (c ∷ input) blanks e = refl

pub lex-space : (input : List ℕ) (e : Bool) → lex (ready (b' ' ∷ input) e) ≡ lex (ready input e)
unfolding lex skip_blank
lex-space input e =
    lex_at-ready (skip_blank false input) (b' ' ∷ input) e
    ∙ sym (lex_at-ready (skip_blank false input) input e)

-- A token that stands for itself.
parse-keep :
    (d : Datum) (rest : List ℕ) (f : ℕ)
    → action d ≡ keep
    → 0 < f
    → parse f d (ready rest false) ≡ done (d, ready rest false)
unfolding parse
parse-keep d rest zero h l = absurd (omega arith)
parse-keep d rest (suc f) h l = rw (parse, h) refl

pub atom-ReadsFrom :
    (d : Datum)
    → ((rest : List ℕ) (e : Bool)
        → Ends rest
        → lex (ready (print_from false d ++ rest) e) ≡ done (d, ready rest false))
    → action d ≡ keep
    → IsInner d
    → ReadsFrom d
atom-ReadsFrom d lexes kept inner rest e ends =
    (d, rest, lexes rest e ends, inner, λ f l. parse-keep d rest f kept (omega arith))

Ends-print_from : (d : Datum) (rest : List ℕ) → Ends (print_from true d ++ b')' ∷ rest)
unfolding print_from is_whitespace is_closing_bracket
Ends-print_from nil rest = refl
Ends-print_from (symbol name) rest = refl
Ends-print_from _ rest = refl

list_onto-append :
    (firsts : List Datum) (value rest : Datum)
    → list_onto (firsts ++ value ∷ []) rest ≡ list_onto firsts (list value rest)
unfolding list_onto
list_onto-append [] value rest = refl
list_onto-append (x ∷ firsts) value rest = ap (list x) (list_onto-append firsts value rest)

pub parse_list-space :
    (f : ℕ) (firsts : List Datum) (input : List ℕ) (e : Bool)
    → parse_list (suc f) firsts (ready (b' ' ∷ input) e) ≡ parse_list (suc f) firsts (ready input e)
unfolding parse_list next_token with_value
parse_list-space f firsts input e = rw (lex-space input e) refl

-- A round of the loop over a list: an element, and the rest of the list behind it.
module _ (a b : Datum) (ra : ReadsFrom a) (rb : ReadsRest b) (rest : List ℕ) where
  abbrev elements : List ℕ
  elements = print_from false a ++ (print_from true b ++ b')' ∷ rest)

  list_round :
      (firsts : List Datum) (first : Datum) (others : List Datum) (e : Bool) (f : ℕ)
      → firsts ++ a ∷ [] ≡ first ∷ others
      → length (print_from false a) < f
      → length (print_from true b) < f
      → parse_list (suc f) firsts (ready elements e)
        ≡ done (list_onto (first ∷ others) b, ready rest false)
  unfolding parse_list next_token with_value
  list_round firsts first others e f same la lb =
      let r = ra (print_from true b ++ b')' ∷ rest) e (Ends-print_from b rest) in
      rw (r.2, ◌>>=◌, r.3.no_list_end, r.3.no_dot, r.4 f la, same) (rb rest false first others f lb)

  printed_list : print_from false (list a b) ++ rest ≡ b'(' ∷ elements
  unfolding print_from
  printed_list =
      ap (λ (l : List ℕ). b'(' ∷ l)
        (append_assoc (print_from false a ++ print_from true b) (b')' ∷ []) rest
          ∙ append_assoc (print_from false a) (print_from true b) (b')' ∷ rest))

  lex-list :
      (e : Bool)
      → lex (ready (print_from false (list a b) ++ rest) e)
        ≡ done (symbol (b'(' ∷ []), ready elements false)
  unfolding consume_token
  lex-list e =
      ap (λ (l : List ℕ). lex (ready l e)) printed_list
      ∙ lex-token b'(' elements e (symbol (b'(' ∷ [])) elements refl refl

  length-list :
      length (print_from false (list a b))
      ≡ length (print_from false a) + length (print_from true b) + 2
  unfolding print_from
  length-list = omega (
    arith,
    length-append (print_from false a ++ print_from true b) (b')' ∷ []),
    length-append (print_from false a) (print_from true b),
  )

  parse-list :
      (f : ℕ)
      → length (print_from false a) + length (print_from true b) + 2 < f
      → parse f (symbol (b'(' ∷ [])) (ready elements false) ≡ done (list a b, ready rest false)
  unfolding parse action
  parse-list zero l = absurd (omega arith)
  parse-list (suc zero) l = absurd (omega arith)
  parse-list (suc (suc f)) l =
      unfold list_onto in list_round [] a [] false f refl (omega arith) (omega arith)

  printed_rest : print_from true (list a b) ++ b')' ∷ rest ≡ b' ' ∷ elements
  unfolding print_from
  printed_rest =
      ap (λ (l : List ℕ). b' ' ∷ l)
        (append_assoc (print_from false a) (print_from true b) (b')' ∷ rest))

  parse_list-list :
      (e : Bool) (first : Datum) (firsts : List Datum) (f : ℕ)
      → length (print_from false a) + length (print_from true b) + 1 < f
      → parse_list f (first ∷ firsts) (ready (print_from true (list a b) ++ b')' ∷ rest) e)
        ≡ done (list_onto (first ∷ firsts) (list a b), ready rest false)
  parse_list-list e first firsts zero l = absurd (omega arith)
  parse_list-list e first firsts (suc f) l =
      ap (λ (i : List ℕ). parse_list (suc f) (first ∷ firsts) (ready i e)) printed_rest
      ∙ parse_list-space f (first ∷ firsts) elements e
      ∙ list_round (first ∷ firsts) first (firsts ++ a ∷ []) e f refl (omega arith) (omega arith)
      ∙ ap (λ (d : Datum). done (d, ready rest false)) (list_onto-append (first ∷ firsts) a b)

-- A list is read back, by itself and as the rest of a list.
pub list-ReadsFrom : (a b : Datum) → ReadsFrom a → ReadsRest b → ReadsFrom (list a b)
list-ReadsFrom a b ra rb rest e ends = (
  symbol (b'(' ∷ []),
  elements a b ra rb rest,
  lex-list a b ra rb rest e,
  open_IsInner b'(' refl refl refl refl,
  λ f l. parse-list a b ra rb rest f (omega (arith, length-list a b ra rb rest)),
)

pub list-ReadsRest : (a b : Datum) → ReadsFrom a → ReadsRest b → ReadsRest (list a b)
unfolding print_from
list-ReadsRest a b ra rb rest e first firsts f l =
    parse_list-list a b ra rb rest e first firsts f
      (omega (arith, length-append (print_from false a) (print_from true b)))
