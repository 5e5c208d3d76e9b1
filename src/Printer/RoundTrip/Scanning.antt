-- ===== src/Printer/RoundTrip/Scanning.antt =====
-- The scanning loops of the lexer on what the printer writes.
use lone.Prelude.{ℕ, ◌≡◌, refl, ap, Bool, true, false, List, [], ◌∷◌, ◌++◌, All, ◌==◌, ◌||◌}
use lone.Datum.{Datum}
use lone.Reader.{Reader, done, is_whitespace, is_closing_bracket, next_is, ends_or, span, past}
use lone.Reader.Lexer.{after_symbol, consume_token, lex}

-- A reader without an error.
abbrev pub ready : List ℕ → Bool → Reader
ready input e = record { input = input; error = false; end_of_input = e }

-- What may follow a printed value.
abbrev pub Ends : List ℕ → Type 0
Ends rest = ends_or after_symbol rest ≡ true

pub Ends-close : (rest : List ℕ) → Ends (b')' ∷ rest)
unfolding is_whitespace is_closing_bracket
Ends-close rest = refl

pub Ends-space : (rest : List ℕ) → Ends (b' ' ∷ rest)
unfolding is_whitespace is_closing_bracket
Ends-space rest = refl

pub span-append :
    (test : ℕ → Bool) (xs rest : List ℕ)
    → All (λ c. test c ≡ true) xs
    → next_is test rest ≡ false
    → (span test (xs ++ rest) ≡ xs) × (past test (xs ++ rest) ≡ rest)
unfolding span past
span-append test [] [] h n = (refl, refl)
span-append test [] (c ∷ rest) h n = rw (n) (refl, refl)
span-append test (x ∷ xs) rest h n =
    let ih = span-append test xs rest h.1 n in rw (h.0) (ap (λ l. x ∷ l) ih.0, ih.1)

pub or_false : (a b : Bool) → (a || b) ≡ false → (a ≡ false) × (b ≡ false)
or_false true b h = cc
or_false false b h = (refl, h)

abbrev pub is_blank : ℕ → Bool
is_blank c = is_whitespace c || c == b';'

-- A byte that is no blank starts a token.
pub lex-token :
    (c : ℕ) (input : List ℕ) (e : Bool) (token : Datum) (after : List ℕ)
    → is_blank c ≡ false
    → consume_token c input (ready (c ∷ input) e) ≡ done (token, ready after e)
    → lex (ready (c ∷ input) e) ≡ done (token, ready after false)
unfolding lex
lex-token c input e token after h k =
    let plain = or_false (is_whitespace c) (c == b';') h in rw (plain.0, plain.1, k) refl
