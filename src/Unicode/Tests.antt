-- ===== src/Unicode/Tests.antt =====
-- Tests and applications of the UTF-8 theorems: "é€😀" and bytes that are no text.
use lone.Prelude.{ℕ, ◌≡◌, refl, arith, true, List, [], ◌∷◌, ◌++◌, some, length, All}
use lone.Unicode.{
  is_valid_code_point, is_continuation_byte, continue_with, is_overlong, decode_sequence, decode,
  failed, continuation, encode, Validated, validate,
}
use lone.Unicode.RoundTrip.{written, decode-encode}
use lone.Unicode.Sound.{Reads, decode-Reads}
use lone.Unicode.Validation.{
  IsCodePoint, encode_all, validate-encode_all, validate_sound, validate-returns,
}

abbrev points : List ℕ
points = 0x41 ∷ 0xE9 ∷ 0x20AC ∷ 0x1F600 ∷ []

abbrev text : List ℕ
text = 0x41 ∷ 0xC3 ∷ 0xA9 ∷ 0xE2 ∷ 0x82 ∷ 0xAC ∷ 0xF0 ∷ 0x9F ∷ 0x98 ∷ 0x80 ∷ []

encodes : encode_all points ≡ text
unfolding encode_all encode continuation is_valid_code_point
encodes = refl

-- An overlong form, a surrogate and a sequence cut short.
rejects :
    (decode (0xC0 ∷ 0x80 ∷ []) ≡ failed)
    × (decode (0xED ∷ 0xA0 ∷ 0x80 ∷ []) ≡ failed)
    × (decode (0xE2 ∷ 0x82 ∷ []) ≡ failed)
unfolding decode decode_sequence continue_with is_continuation_byte is_overlong is_valid_code_point
rejects = (refl, refl, refl)

decode-encode_example :
    decode (written 0x20AC ++ (0x41 ∷ [])) ≡ record { code_point = 0x20AC; bytes_read = 3 }
unfolding encode is_valid_code_point
decode-encode_example = decode-encode 0x20AC (0x41 ∷ []) refl

decode-Reads_example : Reads (0xC3 ∷ 0xA9 ∷ 0x41 ∷ []) (decode (0xC3 ∷ 0xA9 ∷ 0x41 ∷ []))
unfolding decode decode_sequence continue_with is_continuation_byte is_overlong is_valid_code_point
decode-Reads_example = decode-Reads (0xC3 ∷ 0xA9 ∷ 0x41 ∷ []) (omega arith) (omega arith)

validate-encode_all_example :
    validate (encode_all points) ≡ some (record { code_point_count = 4; valid = true })
unfolding is_valid_code_point
validate-encode_all_example = validate-encode_all points (refl, (refl, (refl, (refl, tt))))

validate-returns_example : (v : Validated) × (validate text ≡ some v)
validate-returns_example = validate-returns text (omega arith)

validated : validate text ≡ some (record { code_point_count = 4; valid = true })
validated = rw (← encodes) validate-encode_all_example

validate_sound_example :
    (cs : List ℕ) × All IsCodePoint cs × (encode_all cs ≡ text) × (length cs ≡ 4)
validate_sound_example = validate_sound text 4 (omega arith) validated
