-- ===== src/Printer/RoundTrip/Contents.antt =====
-- The loops over the content of a literal: the printer writes the form of each byte, and the
-- decoder reads the forms back.
use lone.Prelude.{
  ℕ, zero, suc, ◌+◌, ◌/◌, ◌%◌, ◌≤◌, ◌<◌, ◌≡◌, refl, sym, ap, ◌∙◌, arith, Bool, true, false, List,
  [], ◌∷◌, ◌++◌, append-nil, append_assoc, All, none, some, leb, ◌==◌, ◌&&◌, not, Bool-cases,
  Option-cases, inl, inr, length, length-append,
}
use lone.Reader.{done, next_is}
use lone.Reader.Quoted.{
  Round, measure_from, measure_quoted_content, text_round, bytes_round, content_loop,
  consume_content,
}
use lone.Printer.{hex, escape, print_escaped_content}
use lone.Printer.RoundTrip.Escapes.{
  escape_cases, hex_plain, high_digit, low_digit, bytes_round-hex, text_round-hex, text_round-digit,
  text_round-common, bytes_round-common,
}

-- What is written for a byte, and for bytes.
pub form : Bool → Bool → ℕ → List ℕ
form n u b = elim (escape n u b) [ none ↦ b ∷ [] | some escaped ↦ escaped ]

pub forms : Bool → Bool → List ℕ → List ℕ
forms n u [] = []
forms n u (b ∷ content) = form n u b ++ forms n u content

pub print_escaped_content-forms :
    (n u : Bool) (run content : List ℕ)
    → print_escaped_content n u run content ≡ run ++ forms n u content
unfolding print_escaped_content forms form
print_escaped_content-forms n u run [] = sym (append-nil run)
print_escaped_content-forms n u run (b ∷ content) = elim (Option-cases (escape n u b)) [
  | inl e ↦
      rw (print_escaped_content, e, print_escaped_content-forms n u (run ++ b ∷ []) content, form)
        (append_assoc run (b ∷ []) (forms n u content))
  | inr e ↦ rw (print_escaped_content, e.1, print_escaped_content-forms n u [] content, form) refl
]

-- A form is read back by one round, and the measure goes over it.
pub record IsRead (round : ℕ → List ℕ → Round) (written : List ℕ) (b : ℕ) : Type 0 where
  pub decoded :
      (f : ℕ) (output input : List ℕ)
      → content_loop round (suc f) output (written ++ input)
        ≡ content_loop round f (output ++ b ∷ []) input
  pub measured :
      (k y : ℕ) (input : List ℕ)
      → measure_from k (written ++ y ∷ input) ≡ measure_from (k + length written) (y ∷ input)
  pub counted : 0 < length written

raw-IsRead :
    (round : ℕ → List ℕ → Round) (b : ℕ)
    → (b == b'\\') ≡ false
    → (b == b'"') ≡ false
    → ((input : List ℕ) → round b input ≡ (some (b ∷ []), input))
    → IsRead round (b ∷ []) b
unfolding content_loop measure_from
raw-IsRead round b p q r = record {
  decoded = λ f output input.
      rw (content_loop, q, r input)
        (ap (λ (p : Round). content_loop round f (output ++ b ∷ []) p.1) (r input));
  measured = λ k y input. rw (measure_from, q, p) refl;
  counted = omega arith;
}

-- An escape of more letters, none of which is a quote or a backslash.
IsQuiet : ℕ → Type 0
IsQuiet c = ((c == b'"') ≡ false) × ((c == b'\\') ≡ false)

measured_quiet :
    (cs : List ℕ) (k y : ℕ) (input : List ℕ)
    → All IsQuiet cs
    → measure_from k (cs ++ y ∷ input) ≡ measure_from (k + length cs) (y ∷ input)
unfolding IsQuiet
measured_quiet [] k y input h = ap (λ (t : ℕ). measure_from t (y ∷ input)) (omega arith)
measured_quiet (c ∷ []) k y input h = unfold measure_from in rw (measure_from, h.0.0, h.0.1) refl
measured_quiet (c ∷ d ∷ cs) k y input h =
    let ih = measured_quiet (d ∷ cs) (k + 1) y input h.1 in
    let here : measure_from k (c ∷ d ∷ (cs ++ y ∷ input))
        ≡ measure_from (k + 1) (d ∷ (cs ++ y ∷ input)) =
      unfold measure_from in rw (measure_from, h.0.0, h.0.1) refl in
    here ∙ ih ∙ ap (λ (t : ℕ). measure_from t (y ∷ input)) (omega arith)

escape-IsRead :
    (round : ℕ → List ℕ → Round) (letter : ℕ) (digits : List ℕ) (b : ℕ)
    → All IsQuiet digits
    → ((input : List ℕ) → round b'\\' (letter ∷ (digits ++ input)) ≡ (some (b ∷ []), input))
    → IsRead round (b'\\' ∷ letter ∷ digits) b
unfolding content_loop measure_from
escape-IsRead round letter digits b quiet r = record {
  decoded = λ f output input.
      rw (content_loop, r input)
        (ap (λ (p : Round). content_loop round f (output ++ b ∷ []) p.1) (r input));
  measured = λ k y input.
      measured_quiet digits (k + 2) y input quiet
      ∙ ap (λ (t : ℕ). measure_from t (y ∷ input)) (omega arith);
  counted = omega arith;
}

digit-IsQuiet : (d : ℕ) → d < 16 → IsQuiet (hex d)
unfolding IsQuiet
digit-IsQuiet d h = let q = hex_plain d h in (q.0, q.1)

raw_round :
    (b : ℕ) (input : List ℕ)
    → (b == b'\\') ≡ false
    → (text_round b input ≡ (some (b ∷ []), input)) × (bytes_round b input ≡ (some (b ∷ []), input))
unfolding text_round bytes_round
raw_round b input p = rw (p) (refl, refl)

-- The form of any byte of a text.
pub form-IsRead_text : (b : ℕ) → IsRead text_round (form false true b) b
unfolding form IsQuiet escape
form-IsRead_text b = elim (escape_cases false true b) [
  | inl c ↦
      rw (form, c.1)
        (escape-IsRead text_round c.0 [] b tt (λ input. text_round-common c.0 b input c.2))
  | inr p ↦ elim (Bool-cases (leb 0x20 b && leb b 0x7E)) [
    | inl e ↦
        rw (form, escape, p.0, p.1, p.2, p.3, p.4, e)
          (raw-IsRead text_round b p.0 p.1 (λ input. (raw_round b input p.0).0))
    | inr e ↦ elim (Bool-cases (leb 0x80 b)) [
      | inl g ↦
          rw (form, escape, p.0, p.1, p.2, p.3, p.4, e, g)
            (raw-IsRead text_round b p.0 p.1 (λ input. (raw_round b input p.0).0))
      | inr g ↦
          let small : b < 128 = ground (arith, g) in
          let lo = digit-IsQuiet (b % 16) (omega arith) in
          elim (Bool-cases (leb 0x10 b)) [
            | inl w ↦
                rw
                  (
                    form,
                    escape,
                    p.0,
                    p.1,
                    p.2,
                    p.3,
                    p.4,
                    e,
                    g,
                    w,
                    high_digit b (omega arith),
                    low_digit b,
                  )
                  (escape-IsRead text_round b'u' (b'{' ∷ hex (b / 16) ∷ hex (b % 16) ∷ b'}' ∷ []) b
                    ((refl, refl), (digit-IsQuiet (b / 16) (omega arith), (lo, ((refl, refl), tt))))
                    (λ input. text_round-hex b input small))
            | inr w ↦
                let one : b < 16 = ground (arith, w) in
                let same : b % 16 ≡ b = omega (arith, one) in
                rw (form, escape, p.0, p.1, p.2, p.3, p.4, e, g, w, low_digit b, same)
                  (escape-IsRead text_round b'u' (b'{' ∷ hex b ∷ b'}' ∷ []) b
                    ((refl, refl), (digit-IsQuiet b one, ((refl, refl), tt)))
                    (λ input. text_round-digit b input one))
          ]
    ]
  ]
]

-- The form of a byte of a byte string.
pub form-IsRead_bytes : (b : ℕ) → b < 256 → IsRead bytes_round (form true false b) b
unfolding form IsQuiet escape
form-IsRead_bytes b h = elim (escape_cases true false b) [
  | inl c ↦
      rw (form, c.1)
        (escape-IsRead bytes_round c.0 [] b tt (λ input. bytes_round-common c.0 b input c.2))
  | inr p ↦ elim (Bool-cases (leb 0x20 b && leb b 0x7E)) [
    | inl e ↦
        rw (form, escape, p.0, p.1, p.2, p.3, p.4, e)
          (raw-IsRead bytes_round b p.0 p.1 (λ input. (raw_round b input p.0).1))
    | inr e ↦
        rw (form, escape, p.0, p.1, p.2, p.3, p.4, e, high_digit b h, low_digit b)
          (escape-IsRead bytes_round b'x' (hex (b / 16) ∷ hex (b % 16) ∷ []) b
            (digit-IsQuiet (b / 16) (omega arith), (digit-IsQuiet (b % 16) (omega arith), tt))
            (λ input. bytes_round-hex b input h))
  ]
]

-- The content of a literal whose bytes are all read.
module _ (round : ℕ → List ℕ → Round) (n u : Bool) where
  abbrev pub AllRead : List ℕ → Type 0
  AllRead content = All (λ b. IsRead round (form n u b) b) content

  loop-forms :
      (f : ℕ) (output content rest : List ℕ)
      → AllRead content
      → length content < f
      → content_loop round f output (forms n u content ++ b'"' ∷ rest)
        ≡ done (some (output ++ content), rest)
  unfolding forms content_loop
  loop-forms zero output content rest h l = absurd (omega arith)
  loop-forms (suc f) output [] rest h l =
      ap (λ (o : List ℕ). done (some o, rest)) (sym (append-nil output))
  loop-forms (suc f) output (b ∷ content) rest h l =
      ap (content_loop round (suc f) output)
        (append_assoc (form n u b) (forms n u content) (b'"' ∷ rest))
      ∙ h.0.decoded f output (forms n u content ++ b'"' ∷ rest)
      ∙ loop-forms f (output ++ b ∷ []) content rest h.1 (omega arith)
      ∙ ap (λ (o : List ℕ). done (some o, rest)) (append_assoc output (b ∷ []) content)

  measured_on :
      (b k : ℕ) (input : List ℕ)
      → IsRead round (form n u b) b
      → 0 < length input
      → measure_from k (form n u b ++ input) ≡ measure_from (k + length (form n u b)) input
  measured_on b k [] r l = absurd (omega arith)
  measured_on b k (y ∷ input) r l = r.measured k y input

  measure_from-forms :
      (k : ℕ) (content rest : List ℕ)
      → AllRead content
      → measure_from k (forms n u content ++ b'"' ∷ rest) ≡ k + length (forms n u content)
  unfolding forms measure_from
  measure_from-forms k [] [] h = omega arith
  measure_from-forms k [] (y ∷ rest) h = omega arith
  measure_from-forms k (b ∷ content) rest h =
      let z = forms n u content ++ b'"' ∷ rest in
      ap (measure_from k) (append_assoc (form n u b) (forms n u content) (b'"' ∷ rest))
      ∙ measured_on b k z h.0 (omega (arith, length-append (forms n u content) (b'"' ∷ rest)))
      ∙ measure_from-forms (k + length (form n u b)) content rest h.1
      ∙ omega (arith, length-append (form n u b) (forms n u content))

  length-forms : (content : List ℕ) → AllRead content → length content ≤ length (forms n u content)
  unfolding forms
  length-forms [] h = omega arith
  length-forms (b ∷ content) h =
      omega (
        arith,
        length-append (form n u b) (forms n u content),
        h.0.counted,
        length-forms content h.1,
      )

  is_measured :
      (content rest : List ℕ)
      → AllRead content
      → (measure_quoted_content (forms n u content ++ b'"' ∷ rest) == 0
          && not (next_is (λ c. c == b'"') (forms n u content ++ b'"' ∷ rest)))
        ≡ false
  unfolding measure_quoted_content forms
  is_measured [] rest h = elim (Bool-cases (measure_from 0 (b'"' ∷ rest) == 0)) [
    | inl e ↦ rw (e) refl
    | inr e ↦ rw (e) refl
  ]
  is_measured (b ∷ content) rest h =
      let m = measure_from-forms 0 (b ∷ content) rest h in
      let l = length-append (form n u b) (forms n u content) in
      let p : (measure_from 0 (forms n u (b ∷ content) ++ b'"' ∷ rest) == 0) ≡ false =
        ground (arith, m, l, h.0.counted) in
      rw (p) refl

  -- The decoder reads the content that the printer wrote, up to the closing quote.
  pub consume_content-forms :
      (content rest : List ℕ)
      → AllRead content
      → consume_content round (forms n u content ++ b'"' ∷ rest) ≡ done (some content, rest)
  unfolding consume_content
  consume_content-forms content rest h =
      let input = forms n u content ++ b'"' ∷ rest in
      let enough : length content < length input =
        omega (arith, length-append (forms n u content) (b'"' ∷ rest), length-forms content h) in
      let go = loop-forms (length input) [] content rest h enough in
      rw (is_measured content rest h, go) refl
