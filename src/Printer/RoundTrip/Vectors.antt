-- ===== src/Printer/RoundTrip/Vectors.antt =====
-- Vectors and tables: the parser's loops over what the printer's loops wrote.
use lone.Prelude.{
  ℕ, zero, suc, ◌+◌, ◌<◌, ◌≡◌, refl, sym, ap, ◌∙◌, arith, Bool, false, List, [], ◌∷◌, ◌++◌,
  append_assoc, length, length-append,
}
use lone.Datum.{Datum, Items, vector, symbol, no_items, item, append_item}
use lone.Reader.{done, ◌>>=◌}
use lone.Reader.Lexer.{consume_token, lex}
use lone.Reader.Parser.{
  is_expected_character_symbol, action, next_token, with_value, parse, parse_vector,
}
use lone.Printer.{print_from, print_items}
use lone.Printer.RoundTrip.Scanning.{ready, Ends-space, lex-token}
use lone.Printer.RoundTrip.Readable.{items_onto, items_onto-append_item, items_onto-no_items}
use lone.Printer.RoundTrip.Values.{open_IsInner, ReadsFrom, lex-space}

-- The loop over a vector, from the values already read.
abbrev pub ReadsItems : Items → Type 0
ReadsItems xs =
    (rest : List ℕ) (e : Bool) (read : Items) (f : ℕ)
    → length (print_items xs) < f
    → parse_vector f read (ready (print_items xs ++ b']' ∷ rest) e)
      ≡ done (vector (items_onto read xs), ready rest false)

lex-vector_end :
    (rest : List ℕ) (e : Bool)
    → lex (ready (b']' ∷ rest) e) ≡ done (symbol (b']' ∷ []), ready rest false)
unfolding consume_token
lex-vector_end rest e = lex-token b']' rest e (symbol (b']' ∷ [])) rest refl refl

pub no_items-ReadsItems : ReadsItems no_items
unfolding print_items parse_vector next_token with_value is_expected_character_symbol
no_items-ReadsItems rest e read zero l = absurd (omega arith)
no_items-ReadsItems rest e read (suc f) l =
    rw (lex-vector_end rest e)
      (ap (λ (xs : Items). done (vector xs, ready rest false)) (sym (items_onto-no_items read)))

parse_vector-space :
    (f : ℕ) (read : Items) (input : List ℕ) (e : Bool)
    → parse_vector (suc f) read (ready (b' ' ∷ input) e) ≡ parse_vector (suc f) read (ready input e)
unfolding parse_vector next_token with_value
parse_vector-space f read input e = rw (lex-space input e) refl

vector_round :
    (x : Datum) (rest : List ℕ) (read : Items) (e : Bool) (f : ℕ)
    → ReadsFrom x
    → length (print_from false x) < f
    → parse_vector (suc f) read (ready (print_from false x ++ b' ' ∷ rest) e)
      ≡ parse_vector f (append_item read x) (ready (b' ' ∷ rest) false)
unfolding parse_vector next_token with_value
vector_round x rest read e f reads l =
    let r = reads (b' ' ∷ rest) e (Ends-space rest) in
    rw (r.2, ◌>>=◌, r.3.no_vector_end, r.4 f l) refl

pub item-ReadsItems :
    (x : Datum) (xs : Items) → ReadsFrom x → ReadsItems xs → ReadsItems (item x xs)
unfolding print_items
item-ReadsItems x xs rx rxs rest e read zero l = absurd (omega arith)
item-ReadsItems x xs rx rxs rest e read (suc zero) l =
    absurd (omega (arith, length-append (print_from false x) (b' ' ∷ print_items xs)))
item-ReadsItems x xs rx rxs rest e read (suc (suc f)) l =
    let c = length-append (print_from false x) (b' ' ∷ print_items xs) in
    ap (λ (i : List ℕ). parse_vector (suc (suc f)) read (ready i e))
      (append_assoc (print_from false x) (b' ' ∷ print_items xs) (b']' ∷ rest))
    ∙ vector_round x (print_items xs ++ b']' ∷ rest) read e (suc f) rx (omega (arith, c))
    ∙ parse_vector-space f (append_item read x) (print_items xs ++ b']' ∷ rest) false
    ∙ rxs rest false (append_item read x) (suc f) (omega (arith, c))
    ∙ ap (λ (ys : Items). done (vector ys, ready rest false)) (items_onto-append_item read x xs)

-- What stands behind the opening bracket.
behind_bracket : Items → List ℕ → List ℕ
behind_bracket no_items rest = b']' ∷ rest
behind_bracket (item x xs) rest = b' ' ∷ (print_items (item x xs) ++ b']' ∷ rest)

printed_vector :
    (xs : Items) (rest : List ℕ)
    → print_from false (vector xs) ++ rest ≡ b'[' ∷ behind_bracket xs rest
unfolding behind_bracket print_from
printed_vector no_items rest = refl
printed_vector (item x xs) rest =
    ap (λ (l : List ℕ). b'[' ∷ b' ' ∷ l) (append_assoc (print_items (item x xs)) (b']' ∷ []) rest)

lex-vector :
    (xs : Items) (rest : List ℕ) (e : Bool)
    → lex (ready (print_from false (vector xs) ++ rest) e)
      ≡ done (symbol (b'[' ∷ []), ready (behind_bracket xs rest) false)
unfolding consume_token
lex-vector xs rest e =
    let after = behind_bracket xs rest in
    ap (λ (l : List ℕ). lex (ready l e)) (printed_vector xs rest)
    ∙ lex-token b'[' after e (symbol (b'[' ∷ [])) after refl refl

parse-vector :
    (xs : Items) (rest : List ℕ) (f : ℕ)
    → ReadsItems xs
    → length (print_items xs) + 1 < f
    → parse f (symbol (b'[' ∷ [])) (ready (behind_bracket xs rest) false)
      ≡ done (vector xs, ready rest false)
unfolding parse action behind_bracket items_onto
parse-vector xs rest zero reads l = absurd (omega arith)
parse-vector xs rest (suc zero) reads l = absurd (omega arith)
parse-vector no_items rest (suc (suc f)) reads l =
    unfold print_items in reads rest false no_items (suc f) (omega arith)
parse-vector (item x xs) rest (suc (suc f)) reads l =
    parse_vector-space f no_items (print_items (item x xs) ++ b']' ∷ rest) false
    ∙ reads rest false no_items (suc f) (omega arith)

length-vector : (xs : Items) → length (print_items xs) + 1 < length (print_from false (vector xs))
unfolding print_from
length-vector no_items = omega arith
length-vector (item x xs) = omega (arith, length-append (print_items (item x xs)) (b']' ∷ []))

-- A vector is read back.
pub vector-ReadsFrom : (xs : Items) → ReadsItems xs → ReadsFrom (vector xs)
vector-ReadsFrom xs reads rest e ends = (
  symbol (b'[' ∷ []),
  behind_bracket xs rest,
  lex-vector xs rest e,
  open_IsInner b'[' refl refl refl refl,
  λ f l. parse-vector xs rest f reads (omega (arith, length-vector xs)),
)
