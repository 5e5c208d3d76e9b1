-- ===== src/Reader/Contents.antt =====
-- The loops over the content of a literal end, and what they leave of the input.
use lone.Prelude.{
  ℕ, zero, suc, ◌+◌, ◌≤◌, ◌≡◌, refl, arith, true, false, List, [], ◌∷◌, ◌++◌, none, some, ltb, ◌==◌,
  ◌&&◌, not, ◌*◌, ◌%◌, ◌^◌, bit_or, length, drop, length-drop, Bool-cases, Option-cases, inl, inr,
}
use lone.Unicode.{Validated, decode, validate_loop}
use lone.Reader.{hex_digit_value, done, next_is}
use lone.Reader.Quoted.{
  Round, close_code_point, read_code_point, unicode_escape, map_common_escape_sequence, text_escape,
  text_round, second_digit, byte_escape, bytes_escape, bytes_round, measure_quoted_content,
  content_loop, consume_content,
}
use lone.Reader.Outcomes.{Post, Post-mono, Post-if}

-- What a round of a literal leaves is no longer than what it was given.
abbrev pub Leaves : ℕ → Round → Type 0
Leaves n r = length r.1 ≤ n

close_code_point-Leaves :
    (code_point digits : ℕ) (input : List ℕ)
    → Leaves (length input) (close_code_point code_point digits input)
unfolding close_code_point
close_code_point-Leaves code_point digits input = ground (arith, length-drop 1 input)

read_code_point-Leaves :
    (input : List ℕ) (code_point digits : ℕ)
    → Leaves (length input) (read_code_point code_point digits input)
unfolding read_code_point
read_code_point-Leaves [] code_point digits = close_code_point-Leaves code_point digits []
read_code_point-Leaves (c ∷ input) code_point digits =
    elim (Bool-cases (not (c == b'}') && ltb digits 6)) [
      | inl e ↦ elim (Option-cases (hex_digit_value c)) [
        | inl h ↦ rw (read_code_point, e, h) (omega arith)
        | inr h ↦
            let ih =
              read_code_point-Leaves input (bit_or (code_point * 2 ^ 4 % 2 ^ 32) h.0)
                (digits + 1) in
            rw (read_code_point, e, h.1) (omega (arith, ih))
      ]
      | inr e ↦ rw (read_code_point, e) (close_code_point-Leaves code_point digits (c ∷ input))
    ]

unicode_escape-Leaves : (input : List ℕ) → Leaves (length input) (unicode_escape input)
unfolding unicode_escape
unicode_escape-Leaves [] = omega arith
unicode_escape-Leaves (c ∷ input) = ground (arith, read_code_point-Leaves input 0 0)

pub text_round-Leaves : (c : ℕ) (input : List ℕ) → Leaves (length input) (text_round c input)
unfolding text_round
text_round-Leaves c [] = ground arith
text_round-Leaves c (d ∷ input) = elim (Bool-cases (c == b'\\')) [
  | inl e ↦ elim (Option-cases (map_common_escape_sequence d)) [
    | inl h ↦ rw (e, text_escape, h) (ground (arith, unicode_escape-Leaves input))
    | inr h ↦ rw (e, text_escape, h.1) (omega arith)
  ]
  | inr e ↦ rw (e) (omega arith)
]

second_digit-Leaves : (hi : ℕ) (input : List ℕ) → Leaves (length input) (second_digit hi input)
unfolding second_digit
second_digit-Leaves hi [] = omega arith
second_digit-Leaves hi (c ∷ input) = elim (Option-cases (hex_digit_value c)) [
  | inl h ↦ rw (second_digit, h) (omega arith)
  | inr h ↦ rw (second_digit, h.1) (omega arith)
]

byte_escape-Leaves : (input : List ℕ) → Leaves (length input) (byte_escape input)
unfolding byte_escape
byte_escape-Leaves [] = omega arith
byte_escape-Leaves (c ∷ input) = elim (Option-cases (hex_digit_value c)) [
  | inl h ↦ rw (byte_escape, h) (omega arith)
  | inr h ↦ rw (byte_escape, h.1) (omega (arith, second_digit-Leaves h.0 input))
]

pub bytes_round-Leaves : (c : ℕ) (input : List ℕ) → Leaves (length input) (bytes_round c input)
unfolding bytes_round
bytes_round-Leaves c [] = ground arith
bytes_round-Leaves c (d ∷ input) = elim (Bool-cases (c == b'\\')) [
  | inl e ↦ elim (Option-cases (map_common_escape_sequence d)) [
    | inl h ↦ rw (e, bytes_escape, h) (ground (arith, byte_escape-Leaves input))
    | inr h ↦ rw (e, bytes_escape, h.1) (omega arith)
  ]
  | inr e ↦ rw (e) (omega arith)
]

-- The loop over a content, with as many rounds as bytes.
content_loop-Post :
    (round : ℕ → List ℕ → Round)
    → ((c : ℕ) (input : List ℕ) → Leaves (length input) (round c input))
    → (f : ℕ) (output input : List ℕ) → length input ≤ f
    → Post (Leaves (length input)) (content_loop round f output input)
unfolding content_loop
content_loop-Post round leaves f output [] l = omega arith
content_loop-Post round leaves zero output (c ∷ input) l = absurd (omega arith)
content_loop-Post round leaves (suc f) output (c ∷ input) l = elim (Bool-cases (c == b'"')) [
  | inl e ↦ rw (content_loop, e) (omega arith)
  | inr e ↦
      let shorter = leaves c input in
      elim (Option-cases (round c input).0) [
        | inl h ↦ rw (content_loop, e, h) (omega (arith, shorter))
        | inr h ↦
            rw (content_loop, e, h.1)
              (Post-mono (Leaves (length (round c input).1)) (Leaves (length (c ∷ input)))
                (content_loop round f (output ++ h.0) (round c input).1)
                (content_loop-Post round leaves f (output ++ h.0) (round c input).1
                  (omega (arith, shorter)))
                (λ r q. omega (arith, q, shorter)))
      ]
]

pub consume_content-Post :
    (round : ℕ → List ℕ → Round)
    → ((c : ℕ) (input : List ℕ) → Leaves (length input) (round c input))
    → (input : List ℕ) → Post (Leaves (length input)) (consume_content round input)
unfolding consume_content
consume_content-Post round leaves input =
    Post-if (Leaves (length input))
      (measure_quoted_content input == 0 && not (next_is (λ c. c == b'"') input))
      (done (none, input)) (content_loop round (length input) [] input) (λ e. omega arith)
      (λ e. content_loop-Post round leaves (length input) [] input (omega arith))

-- The validator needs no more rounds than bytes.
pub validate_loop-returns :
    (f : ℕ) (input : List ℕ) (count : ℕ)
    → length input ≤ f
    → (v : Validated) × (validate_loop f input count ≡ some v)
unfolding validate_loop
validate_loop-returns zero [] count l = (record { code_point_count = count; valid = true }, refl)
validate_loop-returns (suc f) [] count l = (record { code_point_count = count; valid = true }, refl)
validate_loop-returns zero (b ∷ bs) count l = absurd (omega arith)
validate_loop-returns (suc f) (b ∷ bs) count l =
    let n = (decode (b ∷ bs)).bytes_read in
    elim (Bool-cases (n == 0)) [
      | inl e ↦ (record { code_point_count = count; valid = false }, rw (validate_loop, e) refl)
      | inr e ↦
          let r =
            validate_loop-returns f (drop n (b ∷ bs)) (count + 1)
              (ground (arith, e, length-drop n (b ∷ bs))) in
          (r.0, rw (validate_loop, e) r.1)
    ]
