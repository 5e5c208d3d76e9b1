-- ===== src/Bytes/Tests.antt =====
-- Tests and applications of the byte buffer theorems.
use lone.Prelude.{
  ℕ, ◌+◌, ◌-◌, ◌≤◌, ◌^◌, ◌≡◌, ◌↔◌, refl, arith, true, false, List, [], ◌∷◌, some, none, length,
  take, drop,
}
use lone.Bytes.{
  u32_le, u16_be, u16be_read, u32le_read, contains_block, bytes_read, bytes_write, read_as,
}
use lone.Bytes.Access.{
  contains_block_iff, bytes_read-write, bytes_write-refused, bytes_write-refused,
}

abbrev buffer : List ℕ
buffer = 1 ∷ 2 ∷ 3 ∷ 4 ∷ 5 ∷ 6 ∷ []

reads :
    (bytes_read u16_be buffer 1 ≡ some 0x0203)
    × (bytes_read u32_le buffer 2 ≡ some 0x06050403)
    × (bytes_read u32_le buffer 3 ≡ none)
unfolding bytes_read contains_block read_as u16be_read u32le_read
reads = (refl, refl, refl)

-- A sum that wraps around is refused.
contains_block_wraps : contains_block buffer (2 ^ 64 - 1) 2 ≡ false
unfolding contains_block
contains_block_wraps = refl

contains_block_iff_example : (contains_block buffer 2 4 ≡ true) ↔ (2 + 4 ≤ 6)
contains_block_iff_example = contains_block_iff buffer 2 4 (omega arith)

bytes_read-write_example :
    let (written, out) = bytes_write u32_le buffer 1 0xA0B0C0D in
    (written ≡ true)
    × (bytes_read u32_le out 1 ≡ some 0xA0B0C0D)
    × (length out ≡ 6)
    × (take 1 out ≡ 1 ∷ [])
    × (drop 5 out ≡ 6 ∷ [])
bytes_read-write_example =
    bytes_read-write u32_le buffer 1 0xA0B0C0D (omega arith) (omega arith) (omega arith)
      (omega arith)

bytes_write-refused_example :
    (bytes_write u32_le buffer (2 ^ 64 - 1) 7 ≡ (false, buffer))
    × (bytes_read u32_le buffer (2 ^ 64 - 1) ≡ none)
bytes_write-refused_example =
    bytes_write-refused u32_le buffer (2 ^ 64 - 1) 7 (omega arith) (omega arith)
