-- ===== src/Printer/RoundTrip/Escapes.antt =====
-- What the printer writes for a byte of a literal, and that a round of the decoder reads it back.
use lone.Prelude.{
  ℕ, suc, ◌*◌, ◌/◌, ◌%◌, ◌^◌, ◌<◌, ◌≡◌, refl, sym, ap, arith, Bool, false, List, [], ◌∷◌, some,
  ◌==◌, ==_iff, Bool-cases, inl, inr, ◌⊎◌, bit_and, bit_or, bit_and-ones, bit_or-disjoint,
  zero-bit_or,
}
use lone.Unicode.{encode, is_valid_code_point}
use lone.Reader.{hex_digit_value}
use lone.Reader.Quoted.{
  map_common_escape_sequence, close_code_point, byte_escape, second_digit, text_escape,
  bytes_escape, text_round, bytes_round,
}
use lone.Printer.{hex, escape}

hex_digit_value-hex : (d : ℕ) → d < 16 → hex_digit_value (hex d) ≡ some d
unfolding hex_digit_value hex
hex_digit_value-hex d h = ground arith

pub hex_plain :
    (d : ℕ)
    → d < 16
    → ((hex d == b'"') ≡ false) × ((hex d == b'\\') ≡ false) × ((hex d == b'}') ≡ false)
unfolding hex
hex_plain d h = (ground arith, ground arith, ground arith)

-- The two digits of a byte.
pub high_digit : (b : ℕ) → b < 256 → bit_and (b / 2 ^ 4) 0xF ≡ b / 16
high_digit b h = omega (arith, bit_and-ones 4 (b / 16))

pub low_digit : (b : ℕ) → bit_and b 0xF ≡ b % 16
low_digit b = omega (arith, bit_and-ones 4 b)

joined : (b : ℕ) → bit_or (b / 16 * 16) (b % 16) ≡ b
joined b = omega (arith, bit_or-disjoint 4 (b / 16) (b % 16))

-- The five bytes with an escape of their own.
abbrev pub Common : Bool → Bool → ℕ → Type 0
Common n u b =
    (letter : ℕ) × (escape n u b ≡ some (b'\\' ∷ letter ∷ []))
    × (map_common_escape_sequence letter ≡ some b)

abbrev pub Plain : ℕ → Type 0
Plain b =
    ((b == b'\\') ≡ false)
    × ((b == b'"') ≡ false)
    × ((b == 10) ≡ false)
    × ((b == 9) ≡ false)
    × ((b == 0) ≡ false)

pub escape_cases : (n u : Bool) (b : ℕ) → Common n u b ⊎ Plain b
unfolding escape map_common_escape_sequence
escape_cases n u b = elim (Bool-cases (b == b'\\')) [
  | inl e ↦ inl (b'\\', rw (escape, e) refl, ap some (sym ((==_iff b b'\\').0 e)))
  | inr p ↦ elim (Bool-cases (b == b'"')) [
    | inl e ↦ inl (b'"', rw (escape, p, e) refl, ap some (sym ((==_iff b b'"').0 e)))
    | inr q ↦ elim (Bool-cases (b == 10)) [
      | inl e ↦ inl (b'n', rw (escape, p, q, e) refl, ap some (sym ((==_iff b 10).0 e)))
      | inr r ↦ elim (Bool-cases (b == 9)) [
        | inl e ↦ inl (b't', rw (escape, p, q, r, e) refl, ap some (sym ((==_iff b 9).0 e)))
        | inr s ↦ elim (Bool-cases (b == 0)) [
          | inl e ↦ inl (b'0', rw (escape, p, q, r, s, e) refl, ap some (sym ((==_iff b 0).0 e)))
          | inr t ↦ inr (p, q, r, s, t)
        ]
      ]
    ]
  ]
]

-- `\x` and two digits read as the byte that they make.
pub bytes_round-hex :
    (b : ℕ) (input : List ℕ)
    → b < 256
    → bytes_round b'\\' (b'x' ∷ hex (b / 16) ∷ hex (b % 16) ∷ input) ≡ (some (b ∷ []), input)
unfolding bytes_round
bytes_round-hex b input h =
    let byte : bit_or (b / 16 * 16) (b % 16) % 256 ≡ b = omega (arith, joined b) in
    rw
      (
        byte_escape,
        hex_digit_value-hex (b / 16) (omega arith),
        second_digit,
        hex_digit_value-hex (b % 16) (omega arith),
        byte,
      )
      refl

-- A code point below 128 is a byte.
encode-ascii :
    (b : ℕ) → b < 128 → encode b ≡ record { bytes = b ∷ 0 ∷ 0 ∷ 0 ∷ []; bytes_written = 1 }
unfolding encode is_valid_code_point
encode-ascii b h = ground arith

closed :
    (b digits : ℕ) (input : List ℕ)
    → b < 128
    → close_code_point b (suc digits) (b'}' ∷ input) ≡ (some (b ∷ []), input)
unfolding close_code_point
closed b digits input h =
    let d : (suc digits == 0) ≡ false = ground arith in rw (encode-ascii b h, d) refl

pub text_round-hex :
    (b : ℕ) (input : List ℕ)
    → b < 128
    → text_round b'\\' (b'u' ∷ b'{' ∷ hex (b / 16) ∷ hex (b % 16) ∷ b'}' ∷ input)
      ≡ (some (b ∷ []), input)
unfolding text_round
text_round-hex b input h =
    let hi : b / 16 < 16 = omega arith in
    let lo : b % 16 < 16 = omega arith in
    let small : b / 16 * 16 % 2 ^ 32 ≡ b / 16 * 16 = omega arith in
    rw
      (
        (hex_plain (b / 16) hi).2,
        hex_digit_value-hex (b / 16) hi,
        (hex_plain (b % 16) lo).2,
        hex_digit_value-hex (b % 16) lo,
        zero-bit_or (b / 16),
        small,
        joined b,
      )
      (closed b 1 input h)

pub text_round-digit :
    (b : ℕ) (input : List ℕ)
    → b < 16
    → text_round b'\\' (b'u' ∷ b'{' ∷ hex b ∷ b'}' ∷ input) ≡ (some (b ∷ []), input)
unfolding text_round
text_round-digit b input h =
    rw ((hex_plain b h).2, hex_digit_value-hex b h, zero-bit_or b) (closed b 0 input (omega arith))

pub text_round-common :
    (letter b : ℕ) (input : List ℕ)
    → map_common_escape_sequence letter ≡ some b
    → text_round b'\\' (letter ∷ input) ≡ (some (b ∷ []), input)
unfolding text_round
text_round-common letter b input h = rw (text_escape, h) refl

pub bytes_round-common :
    (letter b : ℕ) (input : List ℕ)
    → map_common_escape_sequence letter ≡ some b
    → bytes_round b'\\' (letter ∷ input) ≡ (some (b ∷ []), input)
unfolding bytes_round
bytes_round-common letter b input h = rw (bytes_escape, h) refl
