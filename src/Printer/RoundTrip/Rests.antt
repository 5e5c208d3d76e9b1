-- ===== src/Printer/RoundTrip/Rests.antt =====
-- Nil, and the rest of a list that is no list: what the printer writes behind a dot.
use lone.Prelude.{
  ℕ, zero, suc, ◌<◌, ◌≡◌, refl, ap, ◌∙◌, arith, Bool, true, false, List, [], ◌∷◌, ◌++◌, length,
}
use lone.Datum.{Datum, nil, symbol, list_onto}
use lone.Reader.{done, ◌>>=◌}
use lone.Reader.Lexer.{consume_token, lex}
use lone.Reader.Parser.{
  is_expected_character_symbol, action, next_token, with_value, parse, parse_list, parse_rest,
}
use lone.Printer.{dotted, print_from}
use lone.Printer.RoundTrip.Scanning.{ready, Ends-close, lex-token}
use lone.Printer.RoundTrip.Values.{open_IsInner, ReadsFrom, ReadsRest, lex-space, parse_list-space}

-- A closing bracket.
lex-close :
    (rest : List ℕ) (e : Bool)
    → lex (ready (b')' ∷ rest) e) ≡ done (symbol (b')' ∷ []), ready rest false)
unfolding consume_token
lex-close rest e = lex-token b')' rest e (symbol (b')' ∷ [])) rest refl refl

parse_list-close :
    (firsts : List Datum) (rest : List ℕ) (e : Bool) (f : ℕ)
    → 0 < f
    → parse_list f firsts (ready (b')' ∷ rest) e) ≡ done (list_onto firsts nil, ready rest false)
unfolding parse_list next_token with_value is_expected_character_symbol
parse_list-close firsts rest e zero l = absurd (omega arith)
parse_list-close firsts rest e (suc f) l = rw (lex-close rest e) refl

parse-nil :
    (rest : List ℕ) (f : ℕ)
    → 2 < f
    → parse f (symbol (b'(' ∷ [])) (ready (b')' ∷ rest) false) ≡ done (nil, ready rest false)
unfolding parse action list_onto
parse-nil rest zero l = absurd (omega arith)
parse-nil rest (suc f) l = parse_list-close [] rest false f (omega arith)

pub nil-ReadsFrom : ReadsFrom nil
unfolding print_from consume_token
nil-ReadsFrom rest e ends = (
  symbol (b'(' ∷ []),
  b')' ∷ rest,
  lex-token b'(' (b')' ∷ rest) e (symbol (b'(' ∷ [])) (b')' ∷ rest) refl refl,
  open_IsInner b'(' refl refl refl refl,
  λ f l. parse-nil rest f l,
)

pub nil-ReadsRest : ReadsRest nil
unfolding print_from
nil-ReadsRest rest e first firsts f l = parse_list-close (first ∷ firsts) rest e f (omega arith)

lex-dot :
    (input : List ℕ) (e : Bool)
    → lex (ready (b'.' ∷ input) e) ≡ done (symbol (b'.' ∷ []), ready input false)
unfolding consume_token
lex-dot input e = lex-token b'.' input e (symbol (b'.' ∷ [])) input refl refl

parse_list-dot :
    (f : ℕ) (first : Datum) (firsts : List Datum) (input : List ℕ) (e : Bool)
    → parse_list (suc f) (first ∷ firsts) (ready (b'.' ∷ input) e)
      ≡ parse_rest f (first ∷ firsts) (ready input false)
unfolding parse_list next_token with_value is_expected_character_symbol
parse_list-dot f first firsts input e = rw (lex-dot input e) refl

parse_rest-value :
    (d : Datum) (rest : List ℕ) (firsts : List Datum) (f : ℕ)
    → ReadsFrom d
    → length (print_from false d) < f
    → parse_rest (suc f) firsts (ready (b' ' ∷ (print_from false d ++ b')' ∷ rest)) false)
      ≡ done (list_onto firsts d, ready rest false)
unfolding parse_rest next_token with_value is_expected_character_symbol
parse_rest-value d rest firsts f reads l =
    let r = reads (b')' ∷ rest) false (Ends-close rest) in
    rw
      (
        lex-space (print_from false d ++ b')' ∷ rest) false,
        r.2,
        ◌>>=◌,
        r.4 f l,
        lex-close rest false,
      )
      refl

-- A value that is no list is read back as the rest of one.
pub dotted-ReadsRest :
    (d : Datum) → print_from true d ≡ dotted true (print_from false d) → ReadsFrom d → ReadsRest d
dotted-ReadsRest d same reads rest e first firsts zero l = absurd (omega arith)
dotted-ReadsRest d same reads rest e first firsts (suc zero) l =
    absurd (omega (arith, ap (λ (x : List ℕ). length x) same))
dotted-ReadsRest d same reads rest e first firsts (suc (suc f)) l =
    ap (λ (p : List ℕ). parse_list (suc (suc f)) (first ∷ firsts) (ready (p ++ b')' ∷ rest) e)) same
    ∙ parse_list-space (suc f) (first ∷ firsts) (b'.' ∷ b' ' ∷ (print_from false d ++ b')' ∷ rest))
        e
    ∙ parse_list-dot (suc f) first firsts (b' ' ∷ (print_from false d ++ b')' ∷ rest)) e
    ∙ parse_rest-value d rest (first ∷ firsts) f reads
        (omega (arith, ap (λ (x : List ℕ). length x) same))
