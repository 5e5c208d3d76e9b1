-- ===== src/Bytes.antt =====
-- The byte buffers of source/lone/types.c: the bounds tests, the unaligned and endian readers and
-- writers, and their bounds-checked forms over a `struct lone_bytes`. A buffer is the list of its
-- bytes, `pointer + offset` is `drop offset`, and a write returns the new buffer. The readers and
-- writers of native order are those of a little-endian machine, which the supported architectures
-- are. The signed forms cast the unsigned ones and are left out.
pub mod Endian
pub mod Access
mod Tests
use lone.Prelude.{
  ℕ, zero, suc, ◌+◌, ◌-◌, ◌*◌, ◌/◌, ◌%◌, ◌^◌, Bool, true, false, List, [], ◌∷◌, ◌++◌, Option, none,
  some, bit_or, ltb, leb, ◌==◌, if◌then◌else◌, length, get_or, set, take, drop, ◌&&◌, not,
}

-- The casts to `unsigned char`, `lone_u16`, `lone_u32` and `lone_u64`.
abbrev pub u8 : ℕ → ℕ
u8 n = n % 2 ^ 8

abbrev pub u64 : ℕ → ℕ
u64 n = n % 2 ^ 64

-- The byte at index `i` of a buffer that is long enough.
abbrev pub byte_at : List ℕ → ℕ → ℕ
byte_at p i = get_or p i 0

pub contains_offset : List ℕ → ℕ → Bool
contains_offset bytes offset = ltb offset (length bytes)

-- `__builtin_add_overflow` on `size_t`.
pub contains_block : List ℕ → ℕ → ℕ → Bool
contains_block bytes offset size =
    if leb (2 ^ 64) (offset + size) then false else leb (offset + size) (length bytes)

abbrev pub u8_read : List ℕ → ℕ
u8_read p = byte_at p 0

abbrev pub u8_write : List ℕ → ℕ → List ℕ
u8_write p v = set p 0 v

unfoldable pub u16le_read : List ℕ → ℕ
u16le_read p = bit_or (bit_or 0 (byte_at p 0)) (byte_at p 1 * 2 ^ 8)

unfoldable pub u16be_read : List ℕ → ℕ
u16be_read p = bit_or (bit_or 0 (byte_at p 0 * 2 ^ 8)) (byte_at p 1)

unfoldable pub u32le_read : List ℕ → ℕ
u32le_read p =
    bit_or (bit_or (bit_or (bit_or 0 (byte_at p 0)) (byte_at p 1 * 2 ^ 8)) (byte_at p 2 * 2 ^ 16))
      (byte_at p 3 * 2 ^ 24)

unfoldable pub u32be_read : List ℕ → ℕ
u32be_read p =
    bit_or
      (bit_or (bit_or (bit_or 0 (byte_at p 0 * 2 ^ 24)) (byte_at p 1 * 2 ^ 16))
        (byte_at p 2 * 2 ^ 8))
      (byte_at p 3)

unfoldable pub u64le_read : List ℕ → ℕ
u64le_read p =
    let v0 = bit_or 0 (byte_at p 0) in
    let v1 = bit_or v0 (byte_at p 1 * 2 ^ 8) in
    let v2 = bit_or v1 (byte_at p 2 * 2 ^ 16) in
    let v3 = bit_or v2 (byte_at p 3 * 2 ^ 24) in
    let v4 = bit_or v3 (byte_at p 4 * 2 ^ 32) in
    let v5 = bit_or v4 (byte_at p 5 * 2 ^ 40) in
    let v6 = bit_or v5 (byte_at p 6 * 2 ^ 48) in bit_or v6 (byte_at p 7 * 2 ^ 56)

unfoldable pub u64be_read : List ℕ → ℕ
u64be_read p =
    let v0 = bit_or 0 (byte_at p 0 * 2 ^ 56) in
    let v1 = bit_or v0 (byte_at p 1 * 2 ^ 48) in
    let v2 = bit_or v1 (byte_at p 2 * 2 ^ 40) in
    let v3 = bit_or v2 (byte_at p 3 * 2 ^ 32) in
    let v4 = bit_or v3 (byte_at p 4 * 2 ^ 24) in
    let v5 = bit_or v4 (byte_at p 5 * 2 ^ 16) in
    let v6 = bit_or v5 (byte_at p 6 * 2 ^ 8) in bit_or v6 (byte_at p 7)

pub u16le_write : List ℕ → ℕ → List ℕ
u16le_write p v = set (set p 0 (u8 v)) 1 (u8 (v / 2 ^ 8))

pub u16be_write : List ℕ → ℕ → List ℕ
u16be_write p v = set (set p 0 (u8 (v / 2 ^ 8))) 1 (u8 v)

pub u32le_write : List ℕ → ℕ → List ℕ
u32le_write p v =
    set (set (set (set p 0 (u8 v)) 1 (u8 (v / 2 ^ 8))) 2 (u8 (v / 2 ^ 16))) 3 (u8 (v / 2 ^ 24))

pub u32be_write : List ℕ → ℕ → List ℕ
u32be_write p v =
    set (set (set (set p 0 (u8 (v / 2 ^ 24))) 1 (u8 (v / 2 ^ 16))) 2 (u8 (v / 2 ^ 8))) 3 (u8 v)

pub u64le_write : List ℕ → ℕ → List ℕ
u64le_write p v =
    let p0 = set p 0 (u8 v) in
    let p1 = set p0 1 (u8 (v / 2 ^ 8)) in
    let p2 = set p1 2 (u8 (v / 2 ^ 16)) in
    let p3 = set p2 3 (u8 (v / 2 ^ 24)) in
    let p4 = set p3 4 (u8 (v / 2 ^ 32)) in
    let p5 = set p4 5 (u8 (v / 2 ^ 40)) in
    let p6 = set p5 6 (u8 (v / 2 ^ 48)) in set p6 7 (u8 (v / 2 ^ 56))

pub u64be_write : List ℕ → ℕ → List ℕ
u64be_write p v =
    let p0 = set p 0 (u8 (v / 2 ^ 56)) in
    let p1 = set p0 1 (u8 (v / 2 ^ 48)) in
    let p2 = set p1 2 (u8 (v / 2 ^ 40)) in
    let p3 = set p2 3 (u8 (v / 2 ^ 32)) in
    let p4 = set p3 4 (u8 (v / 2 ^ 24)) in
    let p5 = set p4 5 (u8 (v / 2 ^ 16)) in let p6 = set p5 6 (u8 (v / 2 ^ 8)) in set p6 7 (u8 v)

-- The unsigned types at which the macros make the bounds-checked readers and writers.
pub data Format : Type 0 where
  u8_native u16_native u32_native u64_native : Format
  u16_le u16_be u32_le u32_be u64_le u64_be : Format

-- `sizeof` of the type
abbrev pub size_of : Format → ℕ
size_of u8_native = 1
size_of u16_native = 2
size_of u16_le = 2
size_of u16_be = 2
size_of u32_native = 4
size_of u32_le = 4
size_of u32_be = 4
size_of u64_native = 8
size_of u64_le = 8
size_of u64_be = 8

pub read_as : Format → List ℕ → ℕ
read_as u8_native p = u8_read p
read_as u16_native p = u16le_read p
read_as u32_native p = u32le_read p
read_as u64_native p = u64le_read p
read_as u16_le p = u16le_read p
read_as u16_be p = u16be_read p
read_as u32_le p = u32le_read p
read_as u32_be p = u32be_read p
read_as u64_le p = u64le_read p
read_as u64_be p = u64be_read p

pub write_as : Format → List ℕ → ℕ → List ℕ
write_as u8_native p v = u8_write p v
write_as u16_native p v = u16le_write p v
write_as u32_native p v = u32le_write p v
write_as u64_native p v = u64le_write p v
write_as u16_le p v = u16le_write p v
write_as u16_be p v = u16be_write p v
write_as u32_le p v = u32le_write p v
write_as u32_be p v = u32be_write p v
write_as u64_le p v = u64le_write p v
write_as u64_be p v = u64be_write p v

-- `lone_bytes_read_*`: absent where the block does not lie in the buffer.
pub bytes_read : Format → List ℕ → ℕ → Option ℕ
bytes_read f bytes offset =
    if contains_block bytes offset (size_of f) then some (read_as f (drop offset bytes)) else none

-- `lone_bytes_write_*`: whether it wrote, and the buffer.
pub bytes_write : Format → List ℕ → ℕ → ℕ → Bool × List ℕ
bytes_write f bytes offset v =
    if contains_block bytes offset (size_of f)
    then (true, take offset bytes ++ write_as f (drop offset bytes) v)
    else (false, bytes)
