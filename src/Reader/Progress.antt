-- ===== src/Reader/Progress.antt =====
-- The lexer ends, and a token consumes a byte at least.
use lone.Prelude.{
  ℕ, suc, ◌≤◌, ◌<◌, ◌≡◌, ◌⊎◌, refl, sym, ◌∙◌, arith, Bool, true, false, List, [], ◌∷◌, ◌==◌, ◌||◌,
  not, length, inl, inr,
}
use lone.Unicode.{validate}
use lone.Datum.{Datum, nil}
use lone.Reader.{Reader, Outcome, at, next_is, ends_or, is_digit, is_token_separator}
use lone.Reader.Outcomes.{Post, Post-bind, Post-mono, Post-option, Post-if}
use lone.Reader.Contents.{
  Leaves, text_round-Leaves, bytes_round-Leaves, consume_content-Post, validate_loop-returns,
}
use lone.Reader.Quoted.{Round, consume_text_content, consume_bytes_content, text_round, bytes_round}
use lone.Reader.Lexer.{
  is_quote, is_sign, is_token, text_transfer, bytes_value, consume_literal, consume_text,
  consume_byte_literal, consume_character, skip_blank, consume_token, finish, lex_at, lex,
}
use lone.Reader.Atoms.{Consumed, fail-Post, consume_number-Post, consume_symbol-Post}

-- Of `n` bytes, the lexer has consumed one at least, or it returns nil at the end or with an error.
abbrev pub Lexed : ℕ → Datum × Reader → Type 0
Lexed n a =
    (length a.1.input ≤ n)
    × ((length a.1.input < n) ⊎ ((a.0 ≡ nil) × ((a.1.error || a.1.end_of_input) ≡ true)))

-- A literal, where what consumes its content and what makes its value end.
consume_literal-Post :
    (content : List ℕ → Outcome Round) (transfer : List ℕ → Outcome Datum)
    → ((input : List ℕ) → Post (Leaves (length input)) (content input))
    → ((output : List ℕ) → Post (λ _. Unit {0}) (transfer output))
    → (input : List ℕ) (error e : Bool)
    → Post (Consumed (length input)) (
        consume_literal content transfer
          (record { input = input; error = error; end_of_input = e }))
unfolding consume_literal
consume_literal-Post content transfer ends makes [] error e =
    fail-Post (record { input = []; error = error; end_of_input = e }) [] 0 (omega arith)
consume_literal-Post content transfer ends makes (c ∷ input) error e =
    let n = length (c ∷ input) in
    let reader : Reader = record { input = c ∷ input; error = error; end_of_input = e } in
    Post-if (Consumed n) (not (c == b'"')) _ _ (λ _. fail-Post reader (c ∷ input) n (omega arith))
      (λ _. Post-bind (Leaves (length input)) (Consumed n) (content input) _ (ends input) (λ r l.
        Post-option (Consumed n) r.0 _ _ (fail-Post reader r.1 n (omega (arith, l))) (λ output.
          Post-if (Consumed n) (not (ends_or is_token_separator r.1)) _ _
            (λ _. fail-Post reader r.1 n (omega (arith, l)))
            (λ _.
              Post-bind (λ _. Unit {0}) (Consumed n) (transfer output) _ (makes output)
                (λ value _. (omega (arith, l), inl (omega (arith, l))))))))

text_transfer-Post : (content : List ℕ) → Post (λ _. Unit {0}) (text_transfer content)
unfolding text_transfer validate
text_transfer-Post content =
    let v = validate_loop-returns (length content) content 0 (omega arith) in
    rw (text_transfer, v.1) (Post-if (λ _. Unit {0}) v.0.valid _ _ (λ _. tt) (λ _. tt))

consume_text-Post :
    (input : List ℕ) (error e : Bool)
    → Post
        (Consumed (length input))
        (consume_text (record { input = input; error = error; end_of_input = e }))
unfolding consume_text consume_text_content
consume_text-Post =
    consume_literal-Post consume_text_content text_transfer
      (consume_content-Post text_round text_round-Leaves) text_transfer-Post

consume_byte_literal-Post :
    (input : List ℕ) (error e : Bool)
    → Post
        (Consumed (length input))
        (consume_byte_literal (record { input = input; error = error; end_of_input = e }))
unfolding consume_byte_literal consume_bytes_content bytes_value
consume_byte_literal-Post =
    consume_literal-Post consume_bytes_content bytes_value
      (consume_content-Post bytes_round bytes_round-Leaves) (λ content. tt)

consume_character-Post :
    (c : ℕ) (input : List ℕ) (error e : Bool)
    → Post
        (Consumed (suc (length input)))
        (consume_character (record { input = c ∷ input; error = error; end_of_input = e }))
unfolding consume_character
consume_character-Post c input error e =
    Post-if (Consumed (suc (length input))) (is_token c) _ _ (λ _. (omega arith, inl (omega arith)))
      (λ _.
        fail-Post (record { input = c ∷ input; error = error; end_of_input = e }) (c ∷ input)
          (suc (length input)) (omega arith))

Consumed-suc : (n : ℕ) (a : Datum × Reader) → Consumed n a → Consumed (suc n) a
Consumed-suc n a h = (omega (arith, h.0), inl (omega (arith, h.0)))

-- One token of an input that has a byte.
consume_token-Post :
    (c : ℕ) (input : List ℕ) (error e : Bool)
    → Post
        (Consumed (suc (length input)))
        (consume_token c input (record { input = c ∷ input; error = error; end_of_input = e }))
unfolding consume_token
consume_token-Post c input error e =
    let n = suc (length input) in
    let P = Consumed n in
    let reader : Reader = record { input = c ∷ input; error = error; end_of_input = e } in
    Post-if P (is_sign c) _ _
      (λ _.
        Post-if P (next_is is_digit input) _ _ (λ _. consume_number-Post reader)
          (λ _. consume_symbol-Post reader))
      (λ _.
        Post-if P (is_digit c) _ _ (λ _. consume_number-Post reader)
          (λ _.
            Post-if P (c == b'"') _ _ (λ _. consume_text-Post (c ∷ input) error e)
              (λ _.
                Post-if P (is_token c) _ _ (λ _. consume_character-Post c input error e)
                  (λ _.
                    Post-if P (c == b'b') _ _
                      (λ _.
                        Post-if P (next_is is_quote input) _ _
                          (λ _.
                            Post-mono (Consumed (length input)) P _
                              (consume_byte_literal-Post input error e)
                              (Consumed-suc (length input)))
                          (λ _. consume_symbol-Post reader))
                      (λ _. consume_symbol-Post reader)))))

skip_blank-le : (comment : Bool) (input : List ℕ) → length (skip_blank comment input) ≤ length input
unfolding skip_blank
skip_blank-le comment [] = omega arith
skip_blank-le false (c ∷ input) =
    ground (arith, skip_blank-le false input, skip_blank-le true input)
skip_blank-le true (c ∷ input) = ground (arith, skip_blank-le false input, skip_blank-le true input)

finish-Post : (n : ℕ) (a : Datum × Reader) → Consumed n a → Post (Lexed n) (finish a)
finish-Post n a h =
    Post-if (Lexed n) a.1.error _ _ (λ e. (h.0, inr (refl, rw (e) refl)))
      (λ e. (h.0, elim h.1 [ inl l ↦ inl l | inr f ↦ absurd (let g = sym f ∙ e in cc) ]))

or_true : (b : Bool) → (b || true) ≡ true
or_true true = refl
or_true false = refl

lex_at-Post : (input : List ℕ) (reader : Reader) → Post (Lexed (length input)) (lex_at input reader)
unfolding lex_at
lex_at-Post [] reader = (omega arith, inr (refl, or_true reader.error))
lex_at-Post (c ∷ input) reader =
    Post-bind (Consumed (suc (length input))) (Lexed (suc (length input)))
      (consume_token c input (at reader (c ∷ input))) finish
      (consume_token-Post c input reader.error reader.end_of_input)
      (λ a h. finish-Post (suc (length input)) a h)

-- The lexer ends, whatever the input.
pub lex-Post : (reader : Reader) → Post (Lexed (length reader.input)) (lex reader)
unfolding lex
lex-Post reader =
    Post-mono (Lexed (length (skip_blank false reader.input))) (Lexed (length reader.input)) _
      (lex_at-Post (skip_blank false reader.input) reader)
      (λ a h.
        let l = skip_blank-le false reader.input in
        (omega (arith, h.0, l), elim h.1 [ inl k ↦ inl (omega (arith, k, l)) | inr e ↦ inr e ]))
