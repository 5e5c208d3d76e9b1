-- ===== src/Reader/Parser/Termination.antt =====
-- The reader ends on every input, and leaves a part of it.
use lone.Prelude.{
  ℕ, zero, suc, ◌+◌, ◌*◌, ◌≤◌, ◌<◌, ◌≡◌, refl, sym, ◌∙◌, arith, Bool, true, false, List, [], ◌∷◌,
  ◌++◌, ◌||◌, not, length, inl, inr,
}
use lone.Datum.{Datum, Items, Fields, nil, no_items, no_fields, append_item}
use lone.Datum.Keys.{table_set}
use lone.Reader.{Reader, done, exits, Read, fail}
use lone.Reader.Outcomes.{Post, Post-bind, Post-mono, Post-elim, Post-option}
use lone.Reader.Progress.{Lexed, lex-Post}
use lone.Reader.Lexer.{lex}
use lone.Reader.Parser.{
  Action, keep, special, begin_list, begin_vector, begin_table, reject,
  is_expected_character_symbol, action, special_name, error_at, next_token, with_value, parse,
  parse_special_character, parse_list, parse_rest, parse_vector, parse_table, parse_table_value,
  read,
}

abbrev Within : ℕ → Datum × Reader → Type 0
Within n a = length a.1.input ≤ n

error_at-Post :
    (reader : Reader) (n : ℕ) → length reader.input ≤ n → Post (Within n) (error_at reader)
unfolding fail
error_at-Post reader n l = l

Within-mono : (m n : ℕ) (o : Read) → Post (Within m) o → m ≤ n → Post (Within n) o
Within-mono m n o h l = Post-mono (Within m) (Within n) o h (λ a k. omega (arith, k, l))

-- A token that is neither the end nor an error.
consumed :
    (n : ℕ) (a : Datum × Reader)
    → Lexed n a
    → (a.1.error || a.1.end_of_input) ≡ false
    → length a.1.input < n
consumed n a h go = elim h.1 [ inl l ↦ l | inr e ↦ absurd (let f = sym e.1 ∙ go in cc) ]

or_false : (a b : Bool) → (a || b) ≡ false → (a ≡ false)
or_false true b h = cc
or_false false b h = refl

next_token-Post :
    (reader : Reader) (n : ℕ) (go : Datum → Reader → Read)
    → length reader.input ≤ n
    → ((token : Datum) (r : Reader)
        → length r.input < length reader.input
        → Post (Within n) (go token r))
    → Post (Within n) (next_token reader go)
unfolding next_token
next_token-Post reader n go l f =
    Post-bind (Lexed (length reader.input)) (Within n) (lex reader) _ (lex-Post reader) (λ a h.
      Post-elim (Within n) (a.1.error || a.1.end_of_input) (error_at a.1) (go a.0 a.1)
        (λ e. error_at-Post a.1 n (omega (arith, h.0, l)))
        (λ e. f a.0 a.1 (consumed (length reader.input) a h e)))

with_value-Post :
    (m n : ℕ) (parsed : Read) (go : Datum → Reader → Read)
    → m ≤ n
    → Post (Within m) parsed
    → ((v : Datum) (r : Reader) → length r.input ≤ m → Post (Within n) (go v r))
    → Post (Within n) (with_value parsed go)
unfolding with_value
with_value-Post m n parsed go b h f = Post-bind (Within m) (Within n) parsed _ h (λ a l.
    Post-elim (Within n) a.1.error (error_at a.1) (go a.0 a.1)
      (λ e. error_at-Post a.1 n (omega (arith, l, b))) (λ e. f a.0 a.1 l))

nil_parsed :
    (f : ℕ) (reader : Reader) → 0 < f → Post (Within (length reader.input)) (parse f nil reader)
unfolding parse action
nil_parsed zero reader l = absurd (omega arith)
nil_parsed (suc f) reader l =
    Post-elim (Within (length reader.input)) reader.end_of_input _ _ (λ e. omega arith)
      (λ e. omega arith)

dot-Post :
    (f : ℕ) (firsts : List Datum) (r : Reader) (n : ℕ)
    → length r.input ≤ n
    → Post (Within n) (parse_rest f firsts r)
    → Post
        (Within n)
        (elim firsts [ [] ↦ error_at r | first ∷ others ↦ parse_rest f (first ∷ others) r ])
dot-Post f [] r n b h = error_at-Post r n b
dot-Post f (first ∷ others) r n b h = h

nil_token :
    (f : ℕ) (a : Datum × Reader) (n : ℕ)
    → a.0 ≡ nil
    → length a.1.input ≤ n
    → 0 < f
    → Post (Within n) (parse f a.0 a.1)
nil_token f a n e b l = rw (e) (Within-mono (length a.1.input) n _ (nil_parsed f a.1 l) b)

Post-action :
    (n : ℕ) (a : Action) (kept specials lists vectors tables rejected : Read)
    → Post (Within n) kept
    → Post (Within n) specials
    → Post (Within n) lists
    → Post (Within n) vectors
    → Post (Within n) tables
    → Post (Within n) rejected
    → Post (Within n) (elim a [
      | keep ↦ kept
      | special ↦ specials
      | begin_list ↦ lists
      | begin_vector ↦ vectors
      | begin_table ↦ tables
      | reject ↦ rejected
    ])
Post-action n keep a b c d e f p q r s t u = p
Post-action n special a b c d e f p q r s t u = q
Post-action n begin_list a b c d e f p q r s t u = r
Post-action n begin_vector a b c d e f p q r s t u = s
Post-action n begin_table a b c d e f p q r s t u = t
Post-action n reject a b c d e f p q r s t u = u

-- With this much fuel for the input that is left, no call runs out of it.
mutual
  unfolding parse parse_special_character parse_list parse_rest parse_vector parse_table
      parse_table_value

  parse-Post :
      (f : ℕ) (token : Datum) (reader : Reader) (n : ℕ)
      → length reader.input ≤ n
      → 2 * length reader.input + 3 ≤ f
      → Post (Within n) (parse f token reader)
  parse-Post zero token reader n b l = absurd (omega arith)
  parse-Post (suc f) token reader n b l =
      Post-elim (Within n) reader.end_of_input _ _ (λ e. b)
        (λ e.
          Post-action n (action token) (done (token, reader)) _ _ _ _ (error_at reader) b
            (special-Post f (special_name token) reader n b (omega (arith, l)))
            (list-Post f [] reader n b (omega (arith, l)))
            (vector-Post f no_items reader n b (omega (arith, l)))
            (table-Post f no_fields reader n b (omega (arith, l))) (error_at-Post reader n b))

  special-Post :
      (f : ℕ) (name : List ℕ) (reader : Reader) (n : ℕ)
      → length reader.input ≤ n
      → 2 * length reader.input + 2 ≤ f
      → Post (Within n) (parse_special_character f name reader)
  special-Post zero name reader n b l = absurd (omega arith)
  special-Post (suc f) name reader n b l =
      Post-bind (Lexed (length reader.input)) (Within n) (lex reader) _ (lex-Post reader) (λ a h.
        Post-bind (Within n) (Within n) (parse f a.0 a.1) _
          (elim h.1 [
            | inl c ↦ parse-Post f a.0 a.1 n (omega (arith, c, b)) (omega (arith, c, l))
            | inr e ↦ nil_token f a n e.0 (omega (arith, h.0, b)) (omega (arith, l))
          ])
          (λ v k. k))

  list-Post :
      (f : ℕ) (firsts : List Datum) (reader : Reader) (n : ℕ)
      → length reader.input ≤ n
      → 2 * length reader.input + 2 ≤ f
      → Post (Within n) (parse_list f firsts reader)
  list-Post zero firsts reader n b l = absurd (omega arith)
  list-Post (suc f) firsts reader n b l = next_token-Post reader n _ b (λ token r c.
      let m = length r.input in
      Post-elim (Within n) (is_expected_character_symbol token b')') _ _ (λ _. omega (arith, c, b))
        (λ _.
          Post-elim (Within n) (is_expected_character_symbol token b'.') _ _
            (λ _.
              dot-Post f firsts r n (omega (arith, c, b))
                (rest-Post f firsts r n (omega (arith, c, b)) (omega (arith, c, l))))
            (λ _.
              with_value-Post m n (parse f token r) _ (omega (arith, c, b))
                (parse-Post f token r m (omega arith) (omega (arith, c, l)))
                (λ v s k.
                  list-Post f (firsts ++ v ∷ []) s n (omega (arith, k, c, b))
                    (omega (arith, k, c, l))))))

  rest-Post :
      (f : ℕ) (firsts : List Datum) (reader : Reader) (n : ℕ)
      → length reader.input ≤ n
      → 2 * length reader.input + 2 ≤ f
      → Post (Within n) (parse_rest f firsts reader)
  rest-Post zero firsts reader n b l = absurd (omega arith)
  rest-Post (suc f) firsts reader n b l = next_token-Post reader n _ b (λ token r c.
      let m = length r.input in
      with_value-Post m n (parse f token r) _ (omega (arith, c, b))
        (parse-Post f token r m (omega arith) (omega (arith, c, l)))
        (λ v s k. Post-bind (Lexed (length s.input)) (Within n) (lex s) _ (lex-Post s) (λ a h.
          let le_ : length a.1.input ≤ n = omega (arith, h.0, k, c, b) in
          Post-elim (Within n) (a.1.error || not (is_expected_character_symbol a.0 b')')) _ _
            (λ _. error_at-Post a.1 n le_) (λ _. le_))))

  vector-Post :
      (f : ℕ) (items : Items) (reader : Reader) (n : ℕ)
      → length reader.input ≤ n
      → 2 * length reader.input + 2 ≤ f
      → Post (Within n) (parse_vector f items reader)
  vector-Post zero items reader n b l = absurd (omega arith)
  vector-Post (suc f) items reader n b l = next_token-Post reader n _ b (λ token r c.
      let m = length r.input in
      Post-elim (Within n) (is_expected_character_symbol token b']') _ _ (λ _. omega (arith, c, b))
        (λ _.
          with_value-Post m n (parse f token r) _ (omega (arith, c, b))
            (parse-Post f token r m (omega arith) (omega (arith, c, l)))
            (λ v s k.
              vector-Post f (append_item items v) s n (omega (arith, k, c, b))
                (omega (arith, k, c, l)))))

  table-Post :
      (f : ℕ) (entries : Fields) (reader : Reader) (n : ℕ)
      → length reader.input ≤ n
      → 2 * length reader.input + 2 ≤ f
      → Post (Within n) (parse_table f entries reader)
  table-Post zero entries reader n b l = absurd (omega arith)
  table-Post (suc f) entries reader n b l = next_token-Post reader n _ b (λ token r c.
      let m = length r.input in
      Post-elim (Within n) (is_expected_character_symbol token b'}') _ _ (λ _. omega (arith, c, b))
        (λ _.
          with_value-Post m n (parse f token r) _ (omega (arith, c, b))
            (parse-Post f token r m (omega arith) (omega (arith, c, l)))
            (λ key s k.
              value-Post f entries key s n (omega (arith, k, c, b)) (omega (arith, k, c, l)))))

  value-Post :
      (f : ℕ) (entries : Fields) (key : Datum) (reader : Reader) (n : ℕ)
      → length reader.input ≤ n
      → 2 * length reader.input + 2 ≤ f
      → Post (Within n) (parse_table_value f entries key reader)
  value-Post zero entries key reader n b l = absurd (omega arith)
  value-Post (suc f) entries key reader n b l = next_token-Post reader n _ b (λ token r c.
      let m = length r.input in
      Post-elim (Within n) (is_expected_character_symbol token b'}') _ _
        (λ _. error_at-Post r n (omega (arith, c, b)))
        (λ _.
          with_value-Post m n (parse f token r) _ (omega (arith, c, b))
            (parse-Post f token r m (omega arith) (omega (arith, c, l)))
            (λ v s k.
              Post-option (Within n) (table_set entries key v) exits _ tt (λ after.
                table-Post f after s n (omega (arith, k, c, b)) (omega (arith, k, c, l))))))

-- Reading ends on every input, with a value, an error or the exit of the program, and leaves no more
-- of the input than there was.
pub read-returns : (reader : Reader) → Post (Within (length reader.input)) (read reader)
unfolding read
read-returns reader =
    let n = length reader.input in
    Post-bind (Lexed n) (Within n) (lex reader) _ (lex-Post reader)
      (λ a h. parse-Post (2 * n + 3) a.0 a.1 n h.0 (omega (arith, h.0)))
