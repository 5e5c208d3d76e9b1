-- ===== src/Reader/Atoms.antt =====
-- Numbers and symbols end, and consume a byte at least.
use lone.Prelude.{
  ℕ, ◌≤◌, ◌<◌, ◌≡◌, ◌⊎◌, refl, arith, Bool, true, false, List, [], ◌∷◌, ◌++◌, not, length,
  Option-cases, inl, inr,
}
use lone.Value.Integer.{integer_parse}
use lone.Datum.{Datum}
use lone.Reader.{Reader, fail, next_is, ends_or, span, past, is_digit, is_token_separator}
use lone.Reader.Outcomes.{Post, Post-bind, Post-if}
use lone.Reader.Lexer.{
  not_terminator, after_symbol, is_empty, sign_of, past_sign, integer_value, consume_number,
  consume_symbol,
}

-- Of `n` bytes, a token has consumed one at least, or there is an error.
abbrev pub Consumed : ℕ → Datum × Reader → Type 0
Consumed n a = (length a.1.input ≤ n) × ((length a.1.input < n) ⊎ (a.1.error ≡ true))

past-le : (test : ℕ → Bool) (input : List ℕ) → length (past test input) ≤ length input
unfolding past
past-le test [] = omega arith
past-le test (c ∷ input) = ground (arith, past-le test input)

past-lt :
    (test : ℕ → Bool) (input : List ℕ)
    → next_is test input ≡ true
    → length (past test input) < length input
unfolding past
past-lt test [] h = cc
past-lt test (c ∷ input) h = rw (h) (omega (arith, past-le test input))

span-nonempty :
    (test : ℕ → Bool) (input : List ℕ)
    → is_empty (span test input) ≡ false
    → next_is test input ≡ true
unfolding span
span-nonempty test [] h = cc
span-nonempty test (c ∷ input) h = ground (arith, h)

past_sign-le : (input : List ℕ) → length (past_sign input) ≤ length input
unfolding past_sign
past_sign-le [] = omega arith
past_sign-le (c ∷ input) = ground arith

pub fail-Post :
    (reader : Reader) (input : List ℕ) (n : ℕ)
    → length input ≤ n
    → Post (Consumed n) (fail reader input)
unfolding fail
fail-Post reader input n l = (l, inr refl)

true_of_not : (b : Bool) → not b ≡ false → b ≡ true
true_of_not true h = refl
true_of_not false h = cc

integer_value-Post : (digits : List ℕ) → Post (λ _. Unit {0}) (integer_value digits)
unfolding integer_value
integer_value-Post digits = elim (Option-cases (integer_parse digits)) [
  | inl e ↦ rw (integer_value, e) tt
  | inr e ↦ rw (integer_value, e.1) tt
]

pub consume_number-Post :
    (reader : Reader) → Post (Consumed (length reader.input)) (consume_number reader)
unfolding consume_number
consume_number-Post reader =
    let n = length reader.input in
    let unsigned = past_sign reader.input in
    let after = past is_digit unsigned in
    let le_ : length unsigned ≤ n = past_sign-le reader.input in
    Post-if (Consumed n) (not (next_is is_digit unsigned)) _ _
      (λ _. fail-Post reader unsigned n le_)
      (λ e.
        let lt_ : length after < n =
          omega (arith, le_, past-lt is_digit unsigned (true_of_not _ e)) in
        Post-if (Consumed n) (not (ends_or is_token_separator after)) _ _
          (λ _. fail-Post reader after n (omega (arith, lt_)))
          (λ _.
            Post-bind (λ _. Unit {0}) (Consumed n)
              (integer_value (sign_of reader.input ++ span is_digit unsigned)) _
              (integer_value-Post _) (λ value _. (omega (arith, lt_), inl lt_))))

pub consume_symbol-Post :
    (reader : Reader) → Post (Consumed (length reader.input)) (consume_symbol reader)
unfolding consume_symbol
consume_symbol-Post reader =
    let n = length reader.input in
    let after = past not_terminator reader.input in
    Post-if (Consumed n) (is_empty (span not_terminator reader.input)) _ _
      (λ _. fail-Post reader after n (past-le not_terminator reader.input))
      (λ e.
        let lt_ : length after < n =
          past-lt not_terminator reader.input (span-nonempty not_terminator reader.input e) in
        Post-if (Consumed n) (not (ends_or after_symbol after)) _ _
          (λ _. fail-Post reader after n (omega (arith, lt_))) (λ _. (omega (arith, lt_), inl lt_)))
