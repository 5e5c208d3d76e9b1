-- ===== src/Unicode.antt =====
-- The UTF-8 decoder, encoder and validator of source/lone/unicode.c, with the constants and the
-- result structures of include/lone/unicode.h. A `struct lone_bytes` is the list of the bytes that
-- it points to.
pub mod Masks
pub mod RoundTrip
pub mod Sound
pub mod Validation
mod Tests
use lone.Prelude.{
  ℕ, zero, suc, ◌+◌, ◌-◌, ◌*◌, ◌/◌, ◌%◌, ◌^◌, Bool, true, false, ◌&&◌, not, List, [], ◌∷◌, Option,
  none, some, bit_and, bit_or, ltb, leb, ◌==◌, if◌then◌else◌, length, get_or, drop,
}

abbrev pub code_point_max : ℕ
code_point_max = 0x10FFFF

abbrev pub surrogate_min : ℕ
surrogate_min = 0xD800

abbrev pub surrogate_max : ℕ
surrogate_max = 0xDFFF

unfoldable pub is_valid_code_point : ℕ → Bool
is_valid_code_point c =
    if ltb code_point_max c
    then false
    else if leb surrogate_min c && leb c surrogate_max
    then false
    else true

unfoldable pub is_continuation_byte : ℕ → Bool
is_continuation_byte byte = bit_and byte 0xC0 == 0x80

pub record Decoded : Type 0 where
  pub code_point : ℕ
  pub bytes_read : ℕ

-- The zero result that the decoder returns on every failure.
abbrev pub failed : Decoded
failed = record { code_point = 0; bytes_read = 0 }

-- The loop over the continuation bytes from index `i` on, with `left` of them to go. `none` is the
-- return on a byte that does not continue the sequence.
unfoldable pub continue_with : List ℕ → ℕ → ℕ → ℕ → Option ℕ
continue_with bytes i zero c = some c
continue_with bytes i (suc left) c =
    let byte = get_or bytes i 0 in
    let rest = continue_with bytes (i + 1) left (bit_or (c * 2 ^ 6 % 2 ^ 32) (bit_and byte 0x3F)) in
    if not (is_continuation_byte byte) then none else rest

-- The `switch` that rejects overlong encodings.
unfoldable pub is_overlong : ℕ → ℕ → Bool
is_overlong expected c =
    if expected == 2
    then ltb c 0x80
    else if expected == 3
    then ltb c 0x800
    else if expected == 4
    then ltb c 0x10000
    else false

-- What follows the choice of the expected length.
unfoldable pub decode_sequence : List ℕ → ℕ → ℕ → Decoded
decode_sequence bytes c expected =
    if ltb (length bytes) expected then failed else elim (continue_with bytes 1 (expected - 1) c) [
      | none ↦ failed
      | some c' ↦
          if is_overlong expected c'
          then failed
          else if not (is_valid_code_point c')
          then failed
          else record { code_point = c'; bytes_read = expected }
    ]

unfoldable pub decode : List ℕ → Decoded
decode bytes =
    let leading = get_or bytes 0 0 in
    if length bytes == 0
    then failed
    else if ltb leading 0x80
    then record { code_point = leading; bytes_read = 1 }
    else if bit_and leading 0xE0 == 0xC0
    then decode_sequence bytes (bit_and leading 0x1F) 2
    else if bit_and leading 0xF0 == 0xE0
    then decode_sequence bytes (bit_and leading 0x0F) 3
    else if bit_and leading 0xF8 == 0xF0
    then decode_sequence bytes (bit_and leading 0x07) 4
    else failed

pub record Encoded : Type 0 where
  pub bytes : List ℕ
  pub bytes_written : ℕ

-- The cast to `unsigned char`.
abbrev pub u8 : ℕ → ℕ
u8 n = n % 2 ^ 8

-- The byte that carries the six bits of `c` from bit `shift` on.
unfoldable pub continuation : ℕ → ℕ → ℕ
continuation c shift = u8 (bit_or 0x80 (bit_and (c / 2 ^ shift) 0x3F))

unfoldable pub encode : ℕ → Encoded
encode c =
    if not (is_valid_code_point c)
    then record { bytes = 0 ∷ 0 ∷ 0 ∷ 0 ∷ []; bytes_written = 0 }
    else if ltb c 0x80
    then record { bytes = u8 c ∷ 0 ∷ 0 ∷ 0 ∷ []; bytes_written = 1 }
    else if ltb c 0x800
    then record {
      bytes = u8 (bit_or 0xC0 (c / 2 ^ 6)) ∷ continuation c 0 ∷ 0 ∷ 0 ∷ [];
      bytes_written = 2;
    }
    else if ltb c 0x10000
    then record {
      bytes = u8 (bit_or 0xE0 (c / 2 ^ 12)) ∷ continuation c 6 ∷ continuation c 0 ∷ 0 ∷ [];
      bytes_written = 3;
    }
    else record {
      bytes =
          u8 (bit_or 0xF0 (c / 2 ^ 18))
          ∷ continuation c 12
          ∷ continuation c 6
          ∷ continuation c 0
          ∷ [];
      bytes_written = 4;
    }

pub record Validated : Type 0 where
  pub code_point_count : ℕ
  pub valid : Bool

-- The `while` loop; `none` means that the fuel ran out.
unfoldable pub validate_loop : ℕ → List ℕ → ℕ → Option Validated
validate_loop fuel [] count = some (record { code_point_count = count; valid = true })
validate_loop zero (b ∷ bs) count = none
validate_loop (suc fuel) (b ∷ bs) count =
    let read = (decode (b ∷ bs)).bytes_read in
    let rest = validate_loop fuel (drop read (b ∷ bs)) (count + 1) in
    if read == 0 then some (record { code_point_count = count; valid = false }) else rest

-- Each round reads a byte at least, so that as many rounds as bytes are enough.
unfoldable pub validate : List ℕ → Option Validated
validate bytes = validate_loop (length bytes) bytes 0
