-- ===== src/Unicode/Validation.antt =====
-- The validator accepts the concatenations of encoded code points, and counts them.
use mathlib.Core.Option.{some-injective}
use lone.Prelude.{
  IsByte, ℕ, zero, suc, ◌+◌, ◌≤◌, ◌<◌, ◌≡◌, ◌≢◌, refl, ap, ◌∙◌, arith, true, false, List, [], ◌∷◌,
  ◌++◌, drop, All, Option, some, length, length-drop, length-append, drop-length_append, sym,
}
use native.Mathlib.Decide.{ℕ_discrete}
use lone.Unicode.{is_valid_code_point, decode, encode, Validated, validate_loop, validate}
use lone.Unicode.RoundTrip.{written, decode-encode}
use lone.Unicode.Sound.{decode-Reads}

abbrev pub IsCodePoint : ℕ → Type 0
IsCodePoint c = is_valid_code_point c ≡ true

-- The UTF-8 text of a list of code points.
unfoldable pub encode_all : List ℕ → List ℕ
encode_all [] = []
encode_all (c ∷ cs) = written c ++ encode_all cs

abbrev valid_count : ℕ → Validated
valid_count n = record { code_point_count = n; valid = true }

written_count :
    (c : ℕ)
    → IsCodePoint c
    → (length (written c) ≡ (encode c).bytes_written) × (1 ≤ (encode c).bytes_written)
unfolding encode
written_count c h = ground arith

validate_loop_step :
    (fuel : ℕ) (bs : List ℕ) (count : ℕ)
    → (decode bs).bytes_read ≢ 0
    → 0 < length bs
    → validate_loop (suc fuel) bs count
      ≡ validate_loop fuel (drop (decode bs).bytes_read bs) (count + 1)
unfolding validate_loop
validate_loop_step fuel [] count h ne = absurd (omega arith)
validate_loop_step fuel (b ∷ bs) count h ne = ground arith

drop-written :
    (c : ℕ) (rest : List ℕ)
    → IsCodePoint c
    → drop (encode c).bytes_written (written c ++ rest) ≡ rest
drop-written c rest h =
    ap (λ (n : ℕ). drop n (written c ++ rest)) (sym (written_count c h).0)
    ∙ drop-length_append (written c) rest

-- One round on an encoded code point.
validate_loop-written :
    (fuel c : ℕ) (rest : List ℕ) (count : ℕ)
    → IsCodePoint c
    → validate_loop (suc fuel) (written c ++ rest) count ≡ validate_loop fuel rest (count + 1)
validate_loop-written fuel c rest count h =
    validate_loop_step fuel (written c ++ rest) count
      (rw (decode-encode c rest h) (omega (arith, written_count c h)))
      (omega (arith, written_count c h, length-append (written c) rest))
    ∙ rw (decode-encode c rest h, drop-written c rest h)

validate_loop-encode_all :
    (cs : List ℕ) (fuel count : ℕ)
    → All IsCodePoint cs
    → length (encode_all cs) ≤ fuel
    → validate_loop fuel (encode_all cs) count ≡ some (valid_count (count + length cs))
unfolding encode_all
validate_loop-encode_all [] zero count h enough = unfold validate_loop in ground arith
validate_loop-encode_all [] (suc fuel) count h enough = unfold validate_loop in ground arith
validate_loop-encode_all (c ∷ cs) zero count h enough =
    absurd (omega (arith, length-append (written c) (encode_all cs), written_count c h.0))
validate_loop-encode_all (c ∷ cs) (suc fuel) count h enough =
    validate_loop-written fuel c (encode_all cs) count h.0
    ∙ validate_loop-encode_all cs fuel (count + 1) h.1
        (omega (arith, length-append (written c) (encode_all cs), written_count c h.0))
    ∙ ap (λ (n : ℕ). some (valid_count n))
        (let e : count + 1 + length cs ≡ count + length (c ∷ cs) = omega arith in e)

-- The validator accepts the encoding of any list of valid code points, and counts them.
pub validate-encode_all :
    (cs : List ℕ)
    → All IsCodePoint cs
    → validate (encode_all cs) ≡ some (record { code_point_count = length cs; valid = true })
unfolding validate
validate-encode_all cs h =
    validate_loop-encode_all cs (length (encode_all cs)) 0 h (omega arith)
    ∙ ap (λ (n : ℕ). some (valid_count n)) (let e : 0 + length cs ≡ length cs = omega arith in e)

-- What the loop says of the bytes `bs` that it has not read, when it has counted `count` before.
record Verdict (bs : List ℕ) (count : ℕ) (r : Option Validated) : Type 0 where
  verdict : Validated
  returns : r ≡ some verdict
  text :
      verdict.valid ≡ true
      → (cs : List ℕ) × All IsCodePoint cs
        × (encode_all cs ≡ bs)
        × (verdict.code_point_count ≡ count + length cs)

nothing_left : (fuel count : ℕ) → Verdict [] count (validate_loop fuel [] count)
unfolding validate_loop encode_all
nothing_left zero count = record {
  verdict = valid_count count;
  returns = refl;
  text = λ t. ([], tt, refl, omega arith);
}
nothing_left (suc fuel) count = record {
  verdict = valid_count count;
  returns = refl;
  text = λ t. ([], tt, refl, omega arith);
}

encode_all-cons : (c : ℕ) (cs : List ℕ) → encode_all (c ∷ cs) ≡ written c ++ encode_all cs
unfolding encode_all
encode_all-cons c cs = refl

All-drop : (n : ℕ) (bs : List ℕ) → All IsByte bs → All IsByte (drop n bs)
All-drop zero bs h = h
All-drop (suc n) [] h = h
All-drop (suc n) (b ∷ bs) h = All-drop n bs h.1

validate_loop-Verdict :
    (fuel : ℕ) (bs : List ℕ) (count : ℕ)
    → All IsByte bs
    → length bs ≤ fuel
    → Verdict bs count (validate_loop fuel bs count)
validate_loop-Verdict zero [] count h enough = nothing_left zero count
validate_loop-Verdict (suc fuel) [] count h enough = nothing_left (suc fuel) count
validate_loop-Verdict zero (b ∷ bs) count h enough = absurd (omega arith)
validate_loop-Verdict (suc fuel) (b ∷ bs) count h enough =
    elim (ℕ_discrete (decode (b ∷ bs)).bytes_read 0) [
      | yes e ↦ record {
        verdict = record { code_point_count = count; valid = false };
        returns = unfold validate_loop in ground arith;
        text = λ t. absurd (cc t);
      }
      | no ne ↦
          let r = decode-Reads (b ∷ bs) h ne in
          let n = (decode (b ∷ bs)).bytes_read in
          let v =
            validate_loop-Verdict fuel (drop n (b ∷ bs)) (count + 1) (All-drop n (b ∷ bs) h)
              (omega (arith, length-drop n (b ∷ bs))) in
          record {
            verdict = v.verdict;
            returns = validate_loop_step fuel (b ∷ bs) count ne (omega arith) ∙ v.returns;
            text = λ t.
                let (cs, valid, front, n) = v.text t in
                (
                  (decode (b ∷ bs)).code_point ∷ cs,
                  (r.valid, valid),
                  encode_all-cons (decode (b ∷ bs)).code_point cs
                      ∙ ap (λ t. written (decode (b ∷ bs)).code_point ++ t) front
                      ∙ r.front,
                  omega arith,
                );
          }
    ]

-- On every sequence of bytes the validator's loop ends and returns a verdict.
pub validate-returns : (bs : List ℕ) → All IsByte bs → (v : Validated) × (validate bs ≡ some v)
unfolding validate
validate-returns bs h =
    let v = validate_loop-Verdict (length bs) bs 0 h (omega arith) in (v.verdict, v.returns)

-- Bytes that the validator calls valid are the encoding of a list of valid code points, as many as
-- it counts.
pub validate_sound :
    (bs : List ℕ) (count : ℕ)
    → All IsByte bs
    → validate bs ≡ some (record { code_point_count = count; valid = true })
    → (cs : List ℕ) × All IsCodePoint cs × (encode_all cs ≡ bs) × (length cs ≡ count)
unfolding validate
validate_sound bs count h e =
    let v = validate_loop-Verdict (length bs) bs 0 h (omega arith) in
    let same = some-injective _ _ (sym v.returns ∙ e) in
    let (cs, valid, text, n) = v.text (ap (λ (d : Validated). d.valid) same) in
    let counted = ap (λ (d : Validated). d.code_point_count) same in (cs, valid, text, omega arith)
