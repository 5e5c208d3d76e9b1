-- ===== src/Unicode/RoundTrip.antt =====
-- Decoding what the encoder wrote.
use lone.Prelude.{
  ℕ, ◌+◌, ◌-◌, ◌*◌, ◌/◌, ◌%◌, ◌^◌, ◌≤◌, ◌<◌, ◌≡◌, arith, true, List, [], ◌∷◌, ◌++◌, take, bit_and,
}
use native.Mathlib.Decide.{dec_lt}
use lone.Unicode.{
  code_point_max, is_valid_code_point, is_continuation_byte, continue_with, is_overlong,
  decode_sequence, decode, continuation, encode,
}
use lone.Unicode.Masks.{
  top_two, top_three, top_four, top_five, mark_continuation, mark_two, mark_three, mark_four,
  low_six, low_five, low_four, low_three, append_six,
}

pub continuation_lem : (c shift : ℕ) → continuation c shift ≡ 128 + c / 2 ^ shift % 64
unfolding continuation
continuation_lem c shift =
    ground (arith, low_six (c / 2 ^ shift), mark_continuation (c / 2 ^ shift % 64))

pub is_continuation_byte_lem : (b : ℕ) → 128 ≤ b → b < 192 → is_continuation_byte b ≡ true
unfolding is_continuation_byte
is_continuation_byte_lem b lo hi = ground (arith, top_two b)

-- Two continuation bytes and more, one round at a time.
pub decode_two :
    (c a b : ℕ) (rest : List ℕ)
    → 194 ≤ a
    → a < 224
    → 128 ≤ b
    → b < 192
    → c ≡ (a - 192) * 64 + (b - 128)
    → decode (a ∷ b ∷ rest) ≡ record { code_point = c; bytes_read = 2 }
unfolding decode decode_sequence continue_with is_overlong is_valid_code_point
decode_two c a b rest la ha lb hb sum =
    ground
      (arith, top_three a, low_five a, is_continuation_byte_lem b, append_six (bit_and a 0x1F) b)

pub decode_three :
    (c a b d : ℕ) (rest : List ℕ)
    → 224 ≤ a
    → a < 240
    → 128 ≤ b
    → b < 192
    → 128 ≤ d
    → d < 192
    → c ≡ ((a - 224) * 64 + (b - 128)) * 64 + (d - 128)
    → 0x800 ≤ c
    → is_valid_code_point c ≡ true
    → decode (a ∷ b ∷ d ∷ rest) ≡ record { code_point = c; bytes_read = 3 }
unfolding decode decode_sequence continue_with is_overlong
decode_three c a b d rest la ha lb hb ld hd sum long valid = ground (
  arith,
  top_three a,
  top_four a,
  low_four a,
  is_continuation_byte_lem b,
  is_continuation_byte_lem d,
  append_six (bit_and a 0x0F) b,
  append_six (a % 16 * 64 + b % 64) d,
)

pub decode_four :
    (c a b d e : ℕ) (rest : List ℕ)
    → 240 ≤ a
    → a < 248
    → 128 ≤ b
    → b < 192
    → 128 ≤ d
    → d < 192
    → 128 ≤ e
    → e < 192
    → c ≡ (((a - 240) * 64 + (b - 128)) * 64 + (d - 128)) * 64 + (e - 128)
    → 0x10000 ≤ c
    → is_valid_code_point c ≡ true
    → decode (a ∷ b ∷ d ∷ e ∷ rest) ≡ record { code_point = c; bytes_read = 4 }
unfolding decode decode_sequence continue_with is_overlong
decode_four c a b d e rest la ha lb hb ld hd le he sum long valid = ground (
  arith,
  top_three a,
  top_four a,
  top_five a,
  low_three a,
  is_continuation_byte_lem b,
  is_continuation_byte_lem d,
  is_continuation_byte_lem e,
  append_six (bit_and a 0x07) b,
  append_six (a % 8 * 64 + b % 64) d,
  append_six ((a % 8 * 64 + b % 64) * 64 + d % 64) e,
)

pub decode_one :
    (a : ℕ) (rest : List ℕ)
    → a < 128
    → decode (a ∷ rest) ≡ record { code_point = a; bytes_read = 1 }
unfolding decode
decode_one a rest h = ground arith

pub is_valid_code_point-le : (c : ℕ) → is_valid_code_point c ≡ true → c ≤ code_point_max
unfolding is_valid_code_point
is_valid_code_point-le c h = ground arith

-- The encoder, in plain arithmetic.
pub encode_one :
    (c : ℕ) → c < 0x80 → encode c ≡ record { bytes = c ∷ 0 ∷ 0 ∷ 0 ∷ []; bytes_written = 1 }
unfolding encode is_valid_code_point
encode_one c h = ground arith

pub encode_two :
    (c : ℕ)
    → 0x80 ≤ c
    → c < 0x800
    → encode c ≡ record { bytes = (192 + c / 64) ∷ (128 + c % 64) ∷ 0 ∷ 0 ∷ []; bytes_written = 2 }
unfolding encode is_valid_code_point
encode_two c lo hi = ground (arith, mark_two (c / 64), continuation_lem c 0)

pub encode_three :
    (c : ℕ)
    → 0x800 ≤ c
    → c < 0x10000
    → is_valid_code_point c ≡ true
    → encode c ≡ record {
      bytes = (224 + c / 4096) ∷ (128 + c / 64 % 64) ∷ (128 + c % 64) ∷ 0 ∷ [];
      bytes_written = 3;
    }
unfolding encode
encode_three c lo hi valid =
    ground (arith, mark_three (c / 4096), continuation_lem c 6, continuation_lem c 0)

pub encode_four :
    (c : ℕ)
    → 0x10000 ≤ c
    → is_valid_code_point c ≡ true
    → encode c ≡ record {
      bytes =
          (240 + c / 262144) ∷ (128 + c / 4096 % 64) ∷ (128 + c / 64 % 64) ∷ (128 + c % 64) ∷ [];
      bytes_written = 4;
    }
unfolding encode
encode_four c lo valid = ground (
  arith,
  is_valid_code_point-le c valid,
  mark_four (c / 262144),
  continuation_lem c 12,
  continuation_lem c 6,
  continuation_lem c 0,
)

-- The bytes of an encoded code point.
abbrev pub written : ℕ → List ℕ
written c = take (encode c).bytes_written (encode c).bytes

-- Every valid code point is encoded in one to four bytes, and decoding them, whatever follows,
-- gives the code point back and reads exactly these bytes.
pub decode-encode :
    (c : ℕ) (rest : List ℕ)
    → is_valid_code_point c ≡ true
    → decode (written c ++ rest) ≡ record { code_point = c; bytes_read = (encode c).bytes_written }
decode-encode c rest valid = elim (dec_lt c 0x80) [
  | yes h ↦ rw (encode_one c h) (decode_one c rest h)
  | no h ↦ elim (dec_lt c 0x800) [
    | yes h2 ↦
        rw (encode_two c (omega arith) h2)
          (ground (arith, decode_two c (192 + c / 64) (128 + c % 64) rest))
    | no h2 ↦ elim (dec_lt c 0x10000) [
      | yes h3 ↦
          rw (encode_three c (omega arith) h3 valid) (
            ground (arith, decode_three c (224 + c / 4096) (128 + c / 64 % 64) (128 + c % 64) rest))
      | no h3 ↦ rw (encode_four c (omega arith) valid) (
          ground (
            arith,
            is_valid_code_point-le c valid,
            decode_four c (240 + c / 262144) (128 + c / 4096 % 64) (128 + c / 64 % 64)
                (128 + c % 64) rest,
          ))
    ]
  ]
]
