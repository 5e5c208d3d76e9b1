-- ===== src/Bits.antt =====
-- source/lone/bits.c: a bitmap as the list of its bytes, with bit 0 the highest bit of byte 0. A
-- `long` has 64 bits and the machine is little-endian.
pub mod Clz
pub mod Access
pub mod Scan
mod Tests
use lone.Prelude.{
  ℕ, zero, suc, ◌+◌, ◌-◌, ◌*◌, ◌/◌, ◌%◌, ◌^◌, Bool, true, false, List, [], ◌∷◌, Option, none, some,
  bit_and, bit_or, ltb, leb, ◌==◌, not, if◌then◌else◌, length, get_or, set, take, drop,
}
use lone.Bytes.{u64le_read}

pub record BitPosition : Type 0 where
  pub byte : ℕ
  pub bit : ℕ

abbrev pub bit_position : ℕ → BitPosition
bit_position index = record { byte = index / 8; bit = 8 - 1 - index % 8 }

-- `(*position.byte) & (1 << position.bit)` as a truth value
unfoldable pub get_bit : ℕ → ℕ → Bool
get_bit byte bit = not (bit_and byte (2 ^ bit) == 0)

-- `~(1 << position.bit)` is an `int`, of which the assignment keeps the low byte.
pub set_bit : ℕ → ℕ → Bool → ℕ
set_bit byte bit value =
    if value then bit_or byte (2 ^ bit) % 2 ^ 8 else bit_and byte (2 ^ 32 - 1 - 2 ^ bit) % 2 ^ 8

unfoldable pub get : List ℕ → ℕ → Bool
get bits index =
    let position = bit_position index in get_bit (get_or bits position.byte 0) position.bit

-- The bitmap after the write; the C function returns the bit.
unfoldable pub put : List ℕ → ℕ → Bool → List ℕ
put bits index bit =
    let position = bit_position index in
    set bits position.byte (set_bit (get_or bits position.byte 0) position.bit bit)

unfoldable pub mark : List ℕ → ℕ → List ℕ
mark bits index = put bits index true

unfoldable pub clear : List ℕ → ℕ → List ℕ
clear bits index = put bits index false

-- `__builtin_clz` on a word of the given width
unfoldable pub clz : ℕ → ℕ → ℕ
clz zero w = 0
clz (suc k) w = let rest = clz k w in if leb (2 ^ k) w then 0 else suc rest

-- `__builtin_bswap64`
pub bswap64 : ℕ → ℕ
bswap64 w =
    w % 256 * 2 ^ 56
    + w / 2 ^ 8 % 256 * 2 ^ 48
    + w / 2 ^ 16 % 256 * 2 ^ 40
    + w / 2 ^ 24 % 256 * 2 ^ 32
    + w / 2 ^ 32 % 256 * 2 ^ 24
    + w / 2 ^ 40 % 256 * 2 ^ 16
    + w / 2 ^ 48 % 256 * 2 ^ 8
    + w / 2 ^ 56 % 256

pub load_word_msb_first : List ℕ → ℕ
load_word_msb_first p = bswap64 (u64le_read p)

pub find_first_one_in_byte : ℕ → ℕ
find_first_one_in_byte byte = clz 32 (byte * 2 ^ 24 % 2 ^ 32)

pub count_leading_unaligned_bytes : ℕ → ℕ → ℕ
count_leading_unaligned_bytes address size =
    let misalignment = address % 8 in
    let leading = 8 - misalignment in
    if misalignment == 0 then 0 else if ltb size leading then size else leading

-- How a loop of the scan ends: by a return, or with the bit index that it has reached.
pub data Progress : Type 0 where
  found : ℕ → Progress
  reached : ℕ → Progress

abbrev pub byte_mask : Bool → ℕ
byte_mask bit = if bit then 0 else 2 ^ 8 - 1

abbrev pub word_mask : Bool → ℕ
word_mask bit = if bit then 0 else 2 ^ 64 - 1

-- The loops over single bytes. The list is the bytes that they run over.
pub scan_bytes : Bool → List ℕ → ℕ → Progress
scan_bytes bit [] bit_index = reached bit_index
scan_bytes bit (byte ∷ bytes) bit_index =
    let rest = scan_bytes bit bytes (bit_index + 8) in
    let candidates = if bit then byte else 2 ^ 8 - 1 - byte in
    if byte == byte_mask bit then rest else found (bit_index + find_first_one_in_byte candidates)

-- The loop over aligned words, with `word_count` of them left.
pub scan_words : Bool → ℕ → List ℕ → ℕ → Progress
scan_words bit zero words bit_index = reached bit_index
scan_words bit (suc word_count) words bit_index =
    let rest = scan_words bit word_count (drop 8 words) (bit_index + 64) in
    let word = load_word_msb_first words in
    let candidates = if bit then word else 2 ^ 64 - 1 - word in
    if word == word_mask bit then rest else found (bit_index + clz 64 candidates)

-- `lone_bits_scan` on the bytes at an address, of which only the alignment matters.
pub scan : ℕ → List ℕ → Bool → Option ℕ
scan address bits bit =
    let size = length bits in
    let leading = count_leading_unaligned_bytes address size in
    let word_count = (size - leading) / 8 in
    let trailing = (size - leading) % 8 in
    elim (scan_bytes bit (take leading bits) 0) [
      | found i ↦ some i
      | reached i ↦ elim (scan_words bit word_count (drop leading bits) i) [
        | found j ↦ some j
        | reached j ↦
            elim (scan_bytes bit (take trailing (drop (leading + word_count * 8) bits)) j) [
              | found k ↦ some k
              | reached k ↦ none
            ]
      ]
    ]

unfoldable pub find_first_one : ℕ → List ℕ → Option ℕ
find_first_one address bits = scan address bits true

unfoldable pub find_first_zero : ℕ → List ℕ → Option ℕ
find_first_zero address bits = scan address bits false
