-- ===== src/Reader/Measure.antt =====
-- The decoder of a literal against the measure that its buffer is allocated by.
use lone.Prelude.{
  ℕ, ◌+◌, ◌*◌, ◌%◌, ◌^◌, ◌≤◌, ◌≡◌, refl, ap, ◌∙◌, arith, Bool, true, false, List, [], ◌∷◌, Option,
  none, some, ltb, ◌==◌, ◌&&◌, not, if◌then◌else◌, bit_or, take, length, length-take,
}
use lone.Unicode.{encode}
use lone.Reader.{hex_digit_value}
use lone.Reader.Quoted.{
  Round, measure_from, close_code_point, read_code_point, unicode_escape, second_digit, byte_escape,
}

-- From `input` on the decoder has written `w` and left `rest`: it has passed what the measure has,
-- and that is no shorter than what it has written and what it had read before.
pub record Passes (before : ℕ) (input w rest : List ℕ) : Type 0 where
  pub used : ℕ
  pub measured : (k : ℕ) → measure_from k input ≡ measure_from (k + used) rest
  pub counted : used + length rest ≡ length input
  pub fits : length w ≤ before + used

plain :
    (k c : ℕ) (input : List ℕ)
    → (c == b'"') ≡ false
    → (c == b'\\') ≡ false
    → measure_from k (c ∷ input) ≡ measure_from (k + 1) input
unfolding measure_from
plain k c [] p q = rw (measure_from, p) refl
plain k c (d ∷ input) p q = rw (measure_from, p, q) refl

escaped :
    (k d : ℕ) (input : List ℕ) → measure_from k (b'\\' ∷ d ∷ input) ≡ measure_from (k + 2) input
unfolding measure_from
escaped k d input = refl

-- A plain byte in front.
pub plain-Passes :
    (before c : ℕ) (input w rest : List ℕ)
    → (c == b'"') ≡ false
    → (c == b'\\') ≡ false
    → Passes (before + 1) input w rest
    → Passes before (c ∷ input) w rest
plain-Passes before c input w rest p q h = record {
  used = h.used + 1;
  measured = λ k.
      plain k c input p q ∙ h.measured (k + 1) ∙ ap (λ (t : ℕ). measure_from t rest) (omega arith);
  counted = omega (arith, h.counted);
  fits = omega (arith, h.fits);
}

escaped-Passes :
    (d : ℕ) (input w rest : List ℕ) → Passes 2 input w rest → Passes 0 (b'\\' ∷ d ∷ input) w rest
escaped-Passes d input w rest h = record {
  used = h.used + 2;
  measured = λ k.
      escaped k d input ∙ h.measured (k + 2) ∙ ap (λ (t : ℕ). measure_from t rest) (omega arith);
  counted = omega (arith, h.counted);
  fits = omega (arith, h.fits);
}

none-Passes : (before : ℕ) (input w : List ℕ) → length w ≤ before → Passes before input w input
none-Passes before input w h = record {
  used = 0;
  measured = λ k. ap (λ (t : ℕ). measure_from t input) (omega arith);
  counted = omega arith;
  fits = omega (arith, h);
}

hex_digit_plain :
    (c v : ℕ) → hex_digit_value c ≡ some v → ((c == b'"') ≡ false) × ((c == b'\\') ≡ false)
unfolding hex_digit_value
hex_digit_plain c v h = (ground (arith, h), ground (arith, h))

encode-length : (c : ℕ) → length (encode c).bytes ≡ 4
unfolding encode
encode-length c = ground arith

abbrev or_empty : Option (List ℕ) → List ℕ
or_empty none = []
or_empty (some w) = w

-- What the rounds return, where they return bytes.
abbrev pub PassesTo : ℕ → List ℕ → Round → Type 0
PassesTo before input r = (w : List ℕ) → r.0 ≡ some w → Passes before input w r.1

pub if-PassesTo :
    (before : ℕ) (input : List ℕ) (b : Bool) (x y : Round)
    → (b ≡ true → PassesTo before input x)
    → (b ≡ false → PassesTo before input y)
    → PassesTo before input (if b then x else y)
if-PassesTo before input true x y f g = f refl
if-PassesTo before input false x y f g = g refl

pub option-PassesTo :
    (before : ℕ) (input : List ℕ) (o : Option ℕ) (x : Round) (y : ℕ → Round)
    → PassesTo before input x
    → ((v : ℕ) → o ≡ some v → PassesTo before input (y v))
    → PassesTo before input (elim o [ none ↦ x | some v ↦ y v ])
option-PassesTo before input none x y f g = f
option-PassesTo before input (some v) x y f g = g v refl

pub refused-PassesTo : (before : ℕ) (input rest : List ℕ) → PassesTo before input (none, rest)
refused-PassesTo before input rest w e = cc

pub written-PassesTo :
    (before : ℕ) (input w : List ℕ) → length w ≤ before → PassesTo before input (some w, input)
written-PassesTo before input w l v e =
    none-Passes before input v
      (omega (arith, l, ap (λ (x : Option (List ℕ)). length (or_empty x)) e))

pub later-PassesTo :
    (before c : ℕ) (input : List ℕ) (r : Round)
    → (c == b'"') ≡ false
    → (c == b'\\') ≡ false
    → PassesTo (before + 1) input r
    → PassesTo before (c ∷ input) r
later-PassesTo before c input r p q h w e = plain-Passes before c input w r.1 p q (h w e)

close-PassesTo :
    (before code_point digits : ℕ) (input : List ℕ)
    → 3 ≤ before
    → PassesTo before input (close_code_point code_point digits input)
unfolding close_code_point
close-PassesTo before code_point digits [] b = refused-PassesTo before [] []
close-PassesTo before code_point digits (c ∷ input) b =
    let encoded = encode code_point in
    let w = take encoded.bytes_written encoded.bytes in
    if-PassesTo before (c ∷ input)
      ((c == b'}') && not (digits == 0) && not (encoded.bytes_written == 0)) (some w, input)
      (none, c ∷ input)
      (λ t.
        let brace : c ≡ b'}' = ground (arith, t) in
        later-PassesTo before c input (some w, input) (ground (arith, brace))
          (ground (arith, brace))
          (written-PassesTo (before + 1) input w (
            omega (
              arith,
              length-take encoded.bytes_written encoded.bytes,
              encode-length code_point,
              b,
            ))))
      (λ _. refused-PassesTo before (c ∷ input) (c ∷ input))

code_point-PassesTo :
    (input : List ℕ) (before code_point digits : ℕ)
    → 3 ≤ before
    → PassesTo before input (read_code_point code_point digits input)
unfolding read_code_point
code_point-PassesTo [] before code_point digits b = close-PassesTo before code_point digits [] b
code_point-PassesTo (c ∷ input) before code_point digits b =
    if-PassesTo before (c ∷ input) (not (c == b'}') && ltb digits 6) _ _
      (λ _.
        option-PassesTo before (c ∷ input) (hex_digit_value c) (none, c ∷ input) _
          (refused-PassesTo before (c ∷ input) (c ∷ input))
          (λ v e.
            let p = hex_digit_plain c v e in
            later-PassesTo before c input _ p.0 p.1 (
              code_point-PassesTo input (before + 1) (bit_or (code_point * 2 ^ 4 % 2 ^ 32) v)
                (digits + 1) (omega arith))))
      (λ _. close-PassesTo before code_point digits (c ∷ input) b)

pub unicode-PassesTo : (input : List ℕ) → PassesTo 2 input (unicode_escape input)
unfolding unicode_escape
unicode-PassesTo [] = refused-PassesTo 2 [] []
unicode-PassesTo (c ∷ input) =
    if-PassesTo 2 (c ∷ input) (c == b'{') (read_code_point 0 0 input) (none, c ∷ input)
      (λ t.
        let brace : c ≡ b'{' = ground (arith, t) in
        later-PassesTo 2 c input (read_code_point 0 0 input) (ground (arith, brace))
          (ground (arith, brace)) (code_point-PassesTo input 3 0 0 (omega arith)))
      (λ _. refused-PassesTo 2 (c ∷ input) (c ∷ input))

second-PassesTo : (hi : ℕ) (input : List ℕ) → PassesTo 3 input (second_digit hi input)
unfolding second_digit
second-PassesTo hi [] = refused-PassesTo 3 [] []
second-PassesTo hi (c ∷ input) =
    option-PassesTo 3 (c ∷ input) (hex_digit_value c) (none, c ∷ input) _
      (refused-PassesTo 3 (c ∷ input) (c ∷ input))
      (λ v e.
        let p = hex_digit_plain c v e in
        later-PassesTo 3 c input _ p.0 p.1 (written-PassesTo 4 input _ (omega arith)))

pub byte-PassesTo : (input : List ℕ) → PassesTo 2 input (byte_escape input)
unfolding byte_escape
byte-PassesTo [] = refused-PassesTo 2 [] []
byte-PassesTo (c ∷ input) =
    option-PassesTo 2 (c ∷ input) (hex_digit_value c) (none, c ∷ input) _
      (refused-PassesTo 2 (c ∷ input) (c ∷ input))
      (λ v e.
        let p = hex_digit_plain c v e in
        later-PassesTo 2 c input _ p.0 p.1 (second-PassesTo v input))

-- A backslash and the letter of an escape in front.
pub after_letter :
    (d : ℕ) (input : List ℕ) (r : Round) → PassesTo 2 input r → PassesTo 0 (b'\\' ∷ d ∷ input) r
after_letter d input r h w e = escaped-Passes d input w r.1 (h w e)
