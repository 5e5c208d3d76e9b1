-- ===== src/Bytes/Endian.antt =====
-- The readers as sums of the bytes at their places, and the round trip of each reader and writer.
use lone.Prelude.{
  IsByte, ℕ, ◌+◌, ◌*◌, ◌^◌, ◌<◌, ◌≡◌, ◌∙◌, arith, List, bit_or, All, All-get_or, disjoint-bit_or,
  zero-bit_or, add_comm, bit_or-disjoint,
}
use lone.Bytes.{byte_at, u16le_read, u16be_read, u32le_read, u32be_read, u64le_read, u64be_read}

-- One `value |= byte << k` above what was read before, and one below it.
above : (k : ℕ) {acc s : ℕ} (b : ℕ) → acc ≡ s → s < 2 ^ k → bit_or acc (b * 2 ^ k) ≡ s + b * 2 ^ k
above k {s = s} b e h = rw e (disjoint-bit_or k b s h ∙ add_comm (b * 2 ^ k) s)

below : (k q : ℕ) {acc r : ℕ} → acc ≡ q * 2 ^ k → r < 2 ^ k → bit_or acc r ≡ q * 2 ^ k + r
below k q {r = r} e h = rw e (bit_or-disjoint k q r h)

module _ (p : List ℕ) (bytes : All IsByte p) where
  byte : (i : ℕ) → IsByte (byte_at p i)
  byte i = All-get_or IsByte p i 0 (omega arith) bytes

  -- The sums of the bytes at their places, lowest first, up to the third, the fifth and the seventh.
  pub u16le_read_sum : u16le_read p ≡ byte_at p 0 + byte_at p 1 * 2 ^ 8
  unfolding u16le_read
  u16le_read_sum = above 8 (byte_at p 1) (zero-bit_or (byte_at p 0)) (omega (arith, byte 0))

  pub u32le_read_sum :
      u32le_read p ≡ byte_at p 0 + byte_at p 1 * 2 ^ 8 + byte_at p 2 * 2 ^ 16 + byte_at p 3 * 2 ^ 24
  unfolding u32le_read
  u32le_read_sum =
      let s1 = above 8 (byte_at p 1) (zero-bit_or (byte_at p 0)) (omega (arith, byte 0)) in
      let s2 = above 16 (byte_at p 2) s1 (omega (arith, byte 0, byte 1)) in
      above 24 (byte_at p 3) s2 (omega (arith, byte 0, byte 1, byte 2))

  pub u64le_read_sum :
      u64le_read p
      ≡ byte_at p 0
        + byte_at p 1 * 2 ^ 8
        + byte_at p 2 * 2 ^ 16
        + byte_at p 3 * 2 ^ 24
        + byte_at p 4 * 2 ^ 32
        + byte_at p 5 * 2 ^ 40
        + byte_at p 6 * 2 ^ 48
        + byte_at p 7 * 2 ^ 56
  unfolding u64le_read
  u64le_read_sum =
      let s1 = above 8 (byte_at p 1) (zero-bit_or (byte_at p 0)) (omega (arith, byte 0)) in
      let s2 = above 16 (byte_at p 2) s1 (omega (arith, byte 0, byte 1)) in
      let s3 = above 24 (byte_at p 3) s2 (omega (arith, byte 0, byte 1, byte 2)) in
      let s4 = above 32 (byte_at p 4) s3 (omega (arith, byte 0, byte 1, byte 2, byte 3)) in
      let s5 = above 40 (byte_at p 5) s4 (omega (arith, byte 0, byte 1, byte 2, byte 3, byte 4)) in
      let s6 =
        above 48 (byte_at p 6) s5 (omega (arith, byte 0, byte 1, byte 2, byte 3, byte 4, byte 5)) in
      above 56 (byte_at p 7) s6
        (omega (arith, byte 0, byte 1, byte 2, byte 3, byte 4, byte 5, byte 6))

  pub u16be_read_sum : u16be_read p ≡ byte_at p 0 * 2 ^ 8 + byte_at p 1
  unfolding u16be_read
  u16be_read_sum = below 8 (byte_at p 0) (zero-bit_or (byte_at p 0 * 2 ^ 8)) (omega (arith, byte 1))

  pub u32be_read_sum :
      u32be_read p
      ≡ ((byte_at p 0 * 2 ^ 8 + byte_at p 1) * 2 ^ 8 + byte_at p 2) * 2 ^ 8 + byte_at p 3
  unfolding u32be_read
  u32be_read_sum =
      let b = byte_at p in
      let s1 =
        below 24 (b 0) {r = b 1 * 2 ^ 16} (zero-bit_or (b 0 * 2 ^ 24)) (omega (arith, byte 1)) in
      let s2 =
        below 16 (b 0 * 2 ^ 8 + b 1) {r = b 2 * 2 ^ 8} (s1 ∙ omega arith) (omega (arith, byte 2)) in
      below 8 ((b 0 * 2 ^ 8 + b 1) * 2 ^ 8 + b 2) (s2 ∙ omega arith) (omega (arith, byte 3))

  pub u64be_read_sum :
      u64be_read p
      ≡ ((((((byte_at p 0 * 2 ^ 8 + byte_at p 1) * 2 ^ 8 + byte_at p 2) * 2 ^ 8 + byte_at p 3)
                      * 2 ^ 8
                    + byte_at p 4)
                  * 2 ^ 8
                + byte_at p 5)
              * 2 ^ 8
            + byte_at p 6)
          * 2 ^ 8
        + byte_at p 7
  unfolding u64be_read
  u64be_read_sum =
      let b = byte_at p in
      let s1 =
        below 56 (b 0) {r = b 1 * 2 ^ 48} (zero-bit_or (b 0 * 2 ^ 56)) (omega (arith, byte 1)) in
      let t1 = b 0 * 2 ^ 8 + b 1 in
      let s2 = below 48 t1 {r = b 2 * 2 ^ 40} (s1 ∙ omega arith) (omega (arith, byte 2)) in
      let t2 = t1 * 2 ^ 8 + b 2 in
      let s3 = below 40 t2 {r = b 3 * 2 ^ 32} (s2 ∙ omega arith) (omega (arith, byte 3)) in
      let t3 = t2 * 2 ^ 8 + b 3 in
      let s4 = below 32 t3 {r = b 4 * 2 ^ 24} (s3 ∙ omega arith) (omega (arith, byte 4)) in
      let t4 = t3 * 2 ^ 8 + b 4 in
      let s5 = below 24 t4 {r = b 5 * 2 ^ 16} (s4 ∙ omega arith) (omega (arith, byte 5)) in
      let t5 = t4 * 2 ^ 8 + b 5 in
      let s6 = below 16 t5 {r = b 6 * 2 ^ 8} (s5 ∙ omega arith) (omega (arith, byte 6)) in
      below 8 (t5 * 2 ^ 8 + b 6) (s6 ∙ omega arith) (omega (arith, byte 7))
