-- ===== src/Printer/RoundTrip/Numbers.antt =====
-- Integers: the printed digits spell the number, and the lexer reads them back.
use mathlib.Core.Path.{subst}
use native.Mathlib.Nat.{pow-suc}
use lone.Prelude.{
  ℕ, zero, suc, ◌+◌, ◌-◌, ◌/◌, ◌%◌, ◌^◌, ◌<◌, ◌≡◌, refl, sym, ap, ◌∙◌, arith, Bool, true, false,
  List, [], ◌∷◌, ◌++◌, All, some, ◌==◌, Bool-cases, Option-cases, inl, inr, ℤ, pos, negsuc, negate,
  fits, to_word,
}
use lone.Value.Integer.{integer_create, integer_of, integer_parse}
use lone.Value.Integer.Parse.{IsDigit, spelled, unsigned, minus, integer_parse-numeral}
use lone.Value.Integer.RoundTrip.{integer_of-create}
use lone.Datum.{integer}
use lone.Reader.{
  done, is_whitespace, is_digit, is_closing_bracket, is_token_separator, next_is, ends_or, span,
  past,
}
use lone.Reader.Lexer.{
  is_sign, sign_of, past_sign, integer_value, consume_number, consume_token, lex,
}
use lone.Printer.{digits_onto, print_integer}
use lone.Printer.RoundTrip.Scanning.{ready, Ends, span-append, is_blank, lex-token}

digits_onto-IsDigit : (f m : ℕ) (ds : List ℕ) → All IsDigit ds → All IsDigit (digits_onto f m ds)
unfolding digits_onto
digits_onto-IsDigit zero m ds h = h
digits_onto-IsDigit (suc f) m ds h = elim (Bool-cases (m / 10 == 0)) [
  | inl e ↦ rw (e) ((omega arith, omega arith), h)
  | inr e ↦
      rw (e) (digits_onto-IsDigit f (m / 10) ((48 + m % 10) ∷ ds) ((omega arith, omega arith), h))
]

spelled-digits_onto :
    (f m : ℕ) (ds : List ℕ) → m < 10 ^ suc f → spelled 0 (digits_onto (suc f) m ds) ≡ spelled m ds
unfolding digits_onto spelled
spelled-digits_onto zero m ds h =
    let e : (m / 10 == 0) ≡ true = ground (arith, h) in
    rw (e) (ap (λ (n : ℕ). spelled n ds) (ground (arith, e)))
spelled-digits_onto (suc f) m ds h = elim (Bool-cases (m / 10 == 0)) [
  | inl e ↦ rw (e) (ap (λ (n : ℕ). spelled n ds) (ground (arith, e)))
  | inr e ↦ rw (e) (
      spelled-digits_onto f (m / 10) ((48 + m % 10) ∷ ds) (omega (arith, pow-suc 10 (suc f)))
      ∙ ap (λ (n : ℕ). spelled n ds) (omega arith))
]

digits_onto-cons :
    (f m : ℕ) (ds : List ℕ) → (d : ℕ) × (rest : List ℕ) × (digits_onto (suc f) m ds ≡ d ∷ rest)
unfolding digits_onto
digits_onto-cons zero m ds = elim (Bool-cases (m / 10 == 0)) [
  | inl e ↦ (48 + m % 10, ds, rw (e) refl)
  | inr e ↦ (48 + m % 10, ds, rw (e) refl)
]
digits_onto-cons (suc f) m ds = elim (Bool-cases (m / 10 == 0)) [
  | inl e ↦ (48 + m % 10, ds, rw (e) refl)
  | inr e ↦
      let r = digits_onto-cons f (m / 10) ((48 + m % 10) ∷ ds) in (r.0, r.1, rw (e, ← r.2) refl)
]

digit_tests : (d : ℕ) → IsDigit d → (is_digit d ≡ true) × (is_sign d ≡ false) × (is_blank d ≡ false)
unfolding is_digit is_sign is_whitespace
digit_tests d h = (ground (arith, h), ground (arith, h), ground (arith, h))

All-digits : (ds : List ℕ) → All IsDigit ds → All (λ c. is_digit c ≡ true) ds
All-digits [] h = tt
All-digits (d ∷ ds) h = ((digit_tests d h.0).0, All-digits ds h.1)

-- What ends a value ends a token, and is no digit.
rest_tests :
    (rest : List ℕ)
    → Ends rest
    → (next_is is_digit rest ≡ false) × (ends_or is_token_separator rest ≡ true)
unfolding is_digit is_token_separator is_whitespace is_closing_bracket
rest_tests [] h = (refl, refl)
rest_tests (c ∷ rest) h = (ground (arith, h), ground (arith, h))

created :
    (z : ℤ) → fits 55 z ≡ true → (word : ℕ) × (integer_create z ≡ some word) × (integer_of word ≡ z)
created z h =
    let made = integer_of-create z in
    elim (Option-cases (integer_create z)) [
      | inl e ↦ absurd (let b = rw (e, h) at made in cc)
      | inr e ↦ (e.0, e.1, let b = rw (e.1, h) at made in cc)
    ]

integer_value-created :
    (digits : List ℕ) (z : ℤ)
    → fits 55 z ≡ true
    → integer_parse digits ≡ integer_create z
    → integer_value digits ≡ done (integer z)
unfolding integer_value
integer_value-created digits z h p = let w = created z h in rw (integer_value, p, w.1, w.2) refl

-- A numeral of digits, with a minus sign or without one.
module _ (rest : List ℕ) (e : Bool) (z : ℤ) (d : ℕ) (ds : List ℕ) (ends : Ends rest)
    (h : All IsDigit (d ∷ ds)) (fit : fits 55 z ≡ true) where
  scanned : (span is_digit (ds ++ rest) ≡ ds) × (past is_digit (ds ++ rest) ≡ rest)
  scanned = span-append is_digit ds rest (All-digits ds h.1) (rest_tests rest ends).0

  lex-unsigned :
      integer_parse (d ∷ ds) ≡ integer_create z
      → lex (ready ((d ∷ ds) ++ rest) e) ≡ done (integer z, ready rest false)
  unfolding consume_number consume_token sign_of past_sign
  lex-unsigned p =
      let t = digit_tests d h.0 in
      lex-token d (ds ++ rest) e (integer z) rest t.2 (
        rw
          (
            consume_token,
            t.1,
            t.0,
            scanned.0,
            scanned.1,
            (rest_tests rest ends).1,
            integer_value-created (d ∷ ds) z fit p,
          )
          refl)

  lex-minus :
      integer_parse (0x2D ∷ d ∷ ds) ≡ integer_create z
      → lex (ready (0x2D ∷ (d ∷ ds) ++ rest) e) ≡ done (integer z, ready rest false)
  unfolding consume_number consume_token sign_of past_sign
  lex-minus p =
      let t = digit_tests d h.0 in
      lex-token 0x2D ((d ∷ ds) ++ rest) e (integer z) rest refl (
        rw
          (
            consume_token,
            t.0,
            scanned.0,
            scanned.1,
            (rest_tests rest ends).1,
            integer_value-created (0x2D ∷ d ∷ ds) z fit p,
          )
          refl)

-- The digits of a magnitude: they start with one, and they spell it.
digits_of :
    (m : ℕ)
    → m < 2 ^ 64
    → (d : ℕ) × (ds : List ℕ) × (digits_onto 20 m [] ≡ d ∷ ds)
      × All IsDigit (d ∷ ds)
      × (spelled 0 (d ∷ ds) ≡ m)
unfolding spelled
digits_of m h =
    let r = digits_onto-cons 19 m [] in
    let sp : spelled 0 (digits_onto 20 m []) ≡ m = spelled-digits_onto 19 m [] (omega arith) in
    let al : All IsDigit (digits_onto 20 m []) = digits_onto-IsDigit 20 m [] tt in
    (r.0, r.1, r.2, subst (All IsDigit) r.2 al, ap (spelled 0) (sym r.2) ∙ sp)

pub lex-print_integer :
    (z : ℤ) (rest : List ℕ) (e : Bool)
    → fits 55 z ≡ true
    → Ends rest
    → lex (ready (print_integer z ++ rest) e) ≡ done (integer z, ready rest false)
unfolding print_integer to_word fits negate
lex-print_integer (pos n) rest e fit ends =
    let small : n < 2 ^ 55 = ground (arith, fit) in
    let m : n % 2 ^ 64 ≡ n = omega (arith, small) in
    let g = digits_of n (omega (arith, small)) in
    rw (m, g.2)
      (lex-unsigned rest e (pos n) g.0 g.1 ends g.3 fit (
        integer_parse-numeral unsigned (g.0 ∷ g.1) g.3
        ∙ ap (λ (k : ℕ). integer_create (pos k)) g.4))
lex-print_integer (negsuc n) rest e fit ends =
    let small : n < 2 ^ 55 = ground (arith, fit) in
    let m : (2 ^ 64 - (2 ^ 64 - 1 - n % 2 ^ 64)) % 2 ^ 64 ≡ suc n = omega (arith, small) in
    let g = digits_of (suc n) (omega (arith, small)) in
    rw (m, g.2)
      (lex-minus rest e (negsuc n) g.0 g.1 ends g.3 fit (
        integer_parse-numeral minus (g.0 ∷ g.1) g.3
        ∙ ap (λ (k : ℕ). integer_create (negate (pos k))) g.4))
