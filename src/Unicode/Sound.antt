-- ===== src/Unicode/Sound.antt =====
-- What the decoder accepts: exactly the encodings of the valid code points.
use lone.Prelude.{
  IsByte, ℕ, ◌+◌, ◌-◌, ◌*◌, ◌%◌, ◌≤◌, ◌<◌, ◌≡◌, ◌≢◌, ◌⊎◌, refl, arith, true, List, [], ◌∷◌, ◌++◌,
  drop, All, bit_and, length,
}
use native.Mathlib.Decide.{dec_lt}
use lone.Unicode.{
  is_valid_code_point, is_continuation_byte, Decoded, continue_with, is_overlong, decode_sequence,
  decode, encode, failed,
}
use lone.Unicode.Masks.{
  top_two, top_three, top_four, top_five, low_five, low_four, low_three, append_six,
}
use lone.Unicode.RoundTrip.{
  written, encode_one, encode_two, encode_three, encode_four, decode_one, is_valid_code_point-le,
}

decode_nothing : (rest : List ℕ) (a : ℕ) → a < 256 → 128 ≤ a → a < 192 → decode (a ∷ rest) ≡ failed
unfolding decode
decode_nothing rest a byte lo hi = ground (arith, top_three a, top_four a, top_five a)

decode_too_large : (rest : List ℕ) (a : ℕ) → a < 256 → 248 ≤ a → decode (a ∷ rest) ≡ failed
unfolding decode
decode_too_large rest a byte lo = ground (arith, top_three a, top_four a, top_five a)

-- A successful run through `expected` bytes.
record Two (a b : ℕ) (d : Decoded) : Type 0 where
  range : (128 ≤ b) × (b < 192)
  point : d.code_point ≡ (a - 192) * 64 + (b - 128)
  long : 0x80 ≤ d.code_point
  count : d.bytes_read ≡ 2

is_continuation_byte_iff : (b : ℕ) → b < 256 → is_continuation_byte b ≡ true → (128 ≤ b) × (b < 192)
unfolding is_continuation_byte
is_continuation_byte_iff b h e = ground (arith, top_two b)

decode-Two :
    (a b : ℕ) (rest : List ℕ)
    → 192 ≤ a
    → a < 224
    → b < 256
    → (decode (a ∷ b ∷ rest)).bytes_read ≢ 0
    → Two a b (decode (a ∷ b ∷ rest))
unfolding decode decode_sequence continue_with is_overlong is_valid_code_point
decode-Two a b rest lo hi byte ne =
    ground
      (arith, top_three a, low_five a, is_continuation_byte_iff b, append_six (bit_and a 0x1F) b)

record Three (a b c : ℕ) (d : Decoded) : Type 0 where
  range : (128 ≤ b) × (b < 192) × (128 ≤ c) × (c < 192)
  point : d.code_point ≡ ((a - 224) * 64 + (b - 128)) * 64 + (c - 128)
  long : 0x800 ≤ d.code_point
  valid : is_valid_code_point d.code_point ≡ true
  count : d.bytes_read ≡ 3

decode-Three :
    (a b c : ℕ) (rest : List ℕ)
    → 224 ≤ a
    → a < 240
    → b < 256
    → c < 256
    → (decode (a ∷ b ∷ c ∷ rest)).bytes_read ≢ 0
    → Three a b c (decode (a ∷ b ∷ c ∷ rest))
unfolding decode decode_sequence continue_with is_overlong
decode-Three a b c rest lo hi byte_b byte_c ne = ground (
  arith,
  top_three a,
  top_four a,
  low_four a,
  is_continuation_byte_iff b,
  is_continuation_byte_iff c,
  append_six (bit_and a 0x0F) b,
  append_six (a % 16 * 64 + b % 64) c,
)

record Four (a b c e : ℕ) (d : Decoded) : Type 0 where
  range_b : (128 ≤ b) × (b < 192)
  range_c : (128 ≤ c) × (c < 192)
  range_e : (128 ≤ e) × (e < 192)
  point : d.code_point ≡ (((a - 240) * 64 + (b - 128)) * 64 + (c - 128)) * 64 + (e - 128)
  long : 0x10000 ≤ d.code_point
  valid : is_valid_code_point d.code_point ≡ true
  count : d.bytes_read ≡ 4

decode-Four :
    (a b c e : ℕ) (rest : List ℕ)
    → 240 ≤ a
    → a < 248
    → b < 256
    → c < 256
    → e < 256
    → (decode (a ∷ b ∷ c ∷ e ∷ rest)).bytes_read ≢ 0
    → Four a b c e (decode (a ∷ b ∷ c ∷ e ∷ rest))
unfolding decode decode_sequence continue_with is_overlong
decode-Four a b c e rest lo hi byte_b byte_c byte_e ne = ground (
  arith,
  top_three a,
  top_four a,
  top_five a,
  low_three a,
  is_continuation_byte_iff b,
  is_continuation_byte_iff c,
  is_continuation_byte_iff e,
  append_six (bit_and a 0x07) b,
  append_six (a % 8 * 64 + b % 64) c,
  append_six ((a % 8 * 64 + b % 64) * 64 + c % 64) e,
)

-- A sequence that the input cuts short is not decoded.
decode_short :
    (a : ℕ) (rest : List ℕ)
    → a < 256
    → (192 ≤ a) × (length rest < 1) ⊎ (224 ≤ a) × (length rest < 2) ⊎ (240 ≤ a) × (length rest < 3)
    → decode (a ∷ rest) ≡ failed
unfolding decode decode_sequence
decode_short a rest byte h = ground (arith, top_three a, top_four a, top_five a)

-- `d` is the result of decoding `bytes`: a valid code point whose encoding stands in front.
pub record Reads (bytes : List ℕ) (d : Decoded) : Type 0 where
  pub valid : is_valid_code_point d.code_point ≡ true
  pub front : written d.code_point ++ drop d.bytes_read bytes ≡ bytes
  pub count : (encode d.code_point).bytes_written ≡ d.bytes_read

Reads-one :
    (a : ℕ) (rest : List ℕ) → a < 128 → Reads (a ∷ rest) (record { code_point = a; bytes_read = 1 })
Reads-one a rest h = record {
  valid = unfold is_valid_code_point in ground arith;
  front = rw (encode_one a h);
  count = rw (encode_one a h);
}

Reads-Two :
    (a b : ℕ) (rest : List ℕ) {d : Decoded} → 192 ≤ a → a < 224 → Two a b d → Reads (a ∷ b ∷ rest) d
Reads-Two a b rest {d} lo hi t = record {
  valid = unfold is_valid_code_point in ground arith;
  front = ground (arith, encode_two d.code_point);
  count = ground (arith, encode_two d.code_point);
}

Reads-Three :
    (a b c : ℕ) (rest : List ℕ) {d : Decoded}
    → 224 ≤ a
    → a < 240
    → Three a b c d
    → Reads (a ∷ b ∷ c ∷ rest) d
Reads-Three a b c rest {d} lo hi t = record {
  valid = t.valid;
  front = ground (arith, encode_three d.code_point);
  count = ground (arith, encode_three d.code_point);
}

Reads-Four :
    (a b c e : ℕ) (rest : List ℕ) {d : Decoded}
    → 240 ≤ a
    → a < 248
    → Four a b c e d
    → Reads (a ∷ b ∷ c ∷ e ∷ rest) d
Reads-Four a b c e rest {d} lo hi t = record {
  valid = t.valid;
  front = ground (arith, encode_four d.code_point, is_valid_code_point-le d.code_point t.valid);
  count = ground (arith, encode_four d.code_point);
}

-- The decoder's success on a leading byte of each length, and on no other.
module _ (a : ℕ) (byte : a < 256) where
  sound_two :
      (rest : List ℕ)
      → All IsByte rest
      → 192 ≤ a
      → a < 224
      → (decode (a ∷ rest)).bytes_read ≢ 0
      → Reads (a ∷ rest) (decode (a ∷ rest))
  sound_two [] all lo hi ne = absurd (ground (arith, decode_short a []))
  sound_two (b ∷ rest) all lo hi ne = Reads-Two a b rest lo hi (decode-Two a b rest lo hi all.0 ne)

  sound_three :
      (rest : List ℕ)
      → All IsByte rest
      → 224 ≤ a
      → a < 240
      → (decode (a ∷ rest)).bytes_read ≢ 0
      → Reads (a ∷ rest) (decode (a ∷ rest))
  sound_three (b ∷ c ∷ rest) all lo hi ne =
      Reads-Three a b c rest lo hi (decode-Three a b c rest lo hi all.0 all.1.0 ne)
  sound_three rest all lo hi ne = absurd (ground (arith, decode_short a rest))

  sound_four :
      (rest : List ℕ)
      → All IsByte rest
      → 240 ≤ a
      → a < 248
      → (decode (a ∷ rest)).bytes_read ≢ 0
      → Reads (a ∷ rest) (decode (a ∷ rest))
  sound_four (b ∷ c ∷ e ∷ rest) all lo hi ne =
      Reads-Four a b c e rest lo hi (decode-Four a b c e rest lo hi all.0 all.1.0 all.1.1.0 ne)
  sound_four rest all lo hi ne = absurd (ground (arith, decode_short a rest))

  sound_leading :
      (rest : List ℕ)
      → All IsByte rest
      → (decode (a ∷ rest)).bytes_read ≢ 0
      → Reads (a ∷ rest) (decode (a ∷ rest))
  sound_leading rest all ne = elim (dec_lt a 128) [
    | yes h ↦ rw (decode_one a rest h) (Reads-one a rest h)
    | no h ↦ elim (dec_lt a 192) [
      | yes h2 ↦ absurd (ground (arith, decode_nothing rest a))
      | no h2 ↦ elim (dec_lt a 224) [
        | yes h3 ↦ sound_two rest all (omega arith) h3 ne
        | no h3 ↦ elim (dec_lt a 240) [
          | yes h4 ↦ sound_three rest all (omega arith) h4 ne
          | no h4 ↦ elim (dec_lt a 248) [
            | yes h5 ↦ sound_four rest all (omega arith) h5 ne
            | no h5 ↦ absurd (ground (arith, decode_too_large rest a))
          ]
        ]
      ]
    ]
  ]

-- Whatever bytes the decoder is given, when it reports that it has read some, the code point is
-- valid, and the bytes read are the encoding of the code point, in the length that it reports. So it
-- accepts no overlong form, no surrogate and no truncated sequence.
pub decode-Reads :
    (bytes : List ℕ) → All IsByte bytes → (decode bytes).bytes_read ≢ 0 → Reads bytes (decode bytes)
decode-Reads [] all ne = absurd (ne (unfold decode in refl))
decode-Reads (a ∷ rest) all ne = sound_leading a all.0 rest all.1 ne
