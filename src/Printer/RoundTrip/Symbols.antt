-- ===== src/Printer/RoundTrip/Symbols.antt =====
-- Symbols: the names that the lexer reads back as they are printed.
use lone.Prelude.{
  ℕ, ◌≡◌, refl, ◌∙◌, arith, Bool, true, false, List, [], ◌∷◌, ◌++◌, All, ◌==◌, ◌&&◌, Bool-cases,
  inl, inr,
}
use lone.Datum.{symbol}
use lone.Reader.{done, is_digit, is_symbol_terminator, next_is}
use lone.Reader.Lexer.{
  not_terminator, is_sign, is_token, is_quote, consume_symbol, consume_token, lex,
}
use lone.Printer.RoundTrip.Scanning.{ready, Ends, span-append, is_blank, lex-token}

-- A name of one byte or more, none of which ends a symbol, that starts with no digit and no
-- character that is a token, nor with a sign before a digit.
abbrev pub IsName : List ℕ → Type 0
IsName [] = ⊥
IsName (c ∷ cs) =
    All (λ x. not_terminator x ≡ true) (c ∷ cs)
    × (is_digit c ≡ false)
    × (is_token c ≡ false)
    × ((is_sign c && next_is is_digit cs) ≡ false)

plain_tests : (c : ℕ) → not_terminator c ≡ true → (is_blank c ≡ false) × (is_quote c ≡ false)
unfolding is_symbol_terminator
plain_tests c h = (ground (arith, h), ground (arith, h))

-- What follows a symbol ends it, and neither makes a number of a sign nor a literal of a `b`.
rest_tests :
    (rest : List ℕ)
    → Ends rest
    → (next_is not_terminator rest ≡ false)
      × (next_is is_digit rest ≡ false)
      × (next_is is_quote rest ≡ false)
unfolding is_digit is_symbol_terminator
rest_tests [] h = (refl, refl, refl)
rest_tests (c ∷ rest) h = (ground (arith, h), ground (arith, h), ground (arith, h))

next_is-append :
    (test : ℕ → Bool) (xs rest : List ℕ)
    → next_is test xs ≡ false
    → next_is test rest ≡ false
    → next_is test (xs ++ rest) ≡ false
next_is-append test [] rest h g = g
next_is-append test (x ∷ xs) rest h g = h

no_quote : (xs : List ℕ) → All (λ x. not_terminator x ≡ true) xs → next_is is_quote xs ≡ false
no_quote [] h = refl
no_quote (x ∷ xs) h = (plain_tests x h.0).1

module _ (c : ℕ) (cs rest : List ℕ) (e : Bool) (name : IsName (c ∷ cs)) (ends : Ends rest) where
  consumed : consume_symbol (ready ((c ∷ cs) ++ rest) e) ≡ done (symbol (c ∷ cs), ready rest e)
  unfolding consume_symbol
  consumed =
      let t = rest_tests rest ends in
      let s = span-append not_terminator cs rest name.0.1 t.0 in rw (name.0.0, s.0, s.1, ends) refl

  chosen :
      consume_token c (cs ++ rest) (ready ((c ∷ cs) ++ rest) e)
      ≡ consume_symbol (ready ((c ∷ cs) ++ rest) e)
  unfolding consume_token
  chosen =
      let t = rest_tests rest ends in
      let no_literal = next_is-append is_quote cs rest (no_quote cs name.0.1) t.2 in
      elim (Bool-cases (is_sign c)) [
        | inl s ↦
            let n : next_is is_digit cs ≡ false = rw (s) at name.3 in
            rw (consume_token, s, next_is-append is_digit cs rest n t.1) refl
        | inr s ↦ elim (Bool-cases (c == b'b')) [
          | inl b ↦
              rw (consume_token, s, name.1, (plain_tests c name.0.0).1, name.2, b, no_literal) refl
          | inr b ↦ rw (consume_token, s, name.1, (plain_tests c name.0.0).1, name.2, b) refl
        ]
      ]

  lexed : lex (ready ((c ∷ cs) ++ rest) e) ≡ done (symbol (c ∷ cs), ready rest false)
  lexed =
      lex-token c (cs ++ rest) e (symbol (c ∷ cs)) rest (plain_tests c name.0.0).0
        (chosen ∙ consumed)

-- A name is read back off the front of the input.
pub lex-symbol :
    (name rest : List ℕ) (e : Bool)
    → IsName name
    → Ends rest
    → lex (ready (name ++ rest) e) ≡ done (symbol name, ready rest false)
lex-symbol [] rest e h ends = absurd h
lex-symbol (c ∷ cs) rest e h ends = lexed c cs rest e h ends
