-- ===== src/Bytes/Access.antt =====
-- The bounds-checked readers and writers.
use lone.Prelude.{
  IsByte, ℕ, zero, suc, ◌+◌, ◌*◌, ◌/◌, ◌^◌, ◌≤◌, ◌<◌, ◌≡◌, ◌↔◌, drop-drop, drop-length_append,
  take-append, take-take, refl, ap, ◌∙◌, sym, arith, true, false, List, [], ◌∷◌, ◌++◌, length, take,
  drop, All, some, none, length-drop, length-take, length-append,
}
use lone.Bytes.{
  u8, Format, u8_native, u16_native, u32_native, u64_native, u16_le, u16_be, u32_le, u32_be, u64_le,
  u64_be, size_of, read_as, write_as, u16le_write, u16be_write, u32le_write, u32be_write,
  u64le_write, u64be_write, contains_block, bytes_read, bytes_write,
}
use lone.Bytes.Endian.{
  u16le_read_sum, u32le_read_sum, u64le_read_sum, u16be_read_sum, u32be_read_sum, u64be_read_sum,
}

abbrev pub range : Format → ℕ
range f = 2 ^ (8 * size_of f)

-- What a writer leaves of its buffer.
pub record Wrote (f : Format) (p : List ℕ) (v : ℕ) (q : List ℕ) : Type 0 where
  pub reads : read_as f q ≡ v
  pub same_length : length q ≡ length p
  pub beyond : drop (size_of f) q ≡ drop (size_of f) p
  pub bytes : All IsByte q

IsByte-of : (n : ℕ) → IsByte (u8 n)
IsByte-of n = omega arith

-- Each writer on a buffer of at least its size, in the two byte orders.
module _ (v : ℕ) (p : List ℕ) (h : All IsByte p) where
  Wrote-u16le : (a b : ℕ) → v < 2 ^ 16 → Wrote u16_le (a ∷ b ∷ p) v (u16le_write (a ∷ b ∷ p) v)
  unfolding read_as u16le_write
  Wrote-u16le a b fits =
      let bytes : All IsByte (u8 v ∷ u8 (v / 2 ^ 8) ∷ p) = (IsByte-of _, (IsByte-of _, h)) in
      record {
        reads = u16le_read_sum _ bytes ∙ omega arith;
        same_length = refl;
        beyond = refl;
        bytes = bytes;
      }

  Wrote-u16be : (a b : ℕ) → v < 2 ^ 16 → Wrote u16_be (a ∷ b ∷ p) v (u16be_write (a ∷ b ∷ p) v)
  unfolding read_as u16be_write
  Wrote-u16be a b fits =
      let bytes : All IsByte (u8 (v / 2 ^ 8) ∷ u8 v ∷ p) = (IsByte-of _, (IsByte-of _, h)) in
      record {
        reads = u16be_read_sum _ bytes ∙ omega arith;
        same_length = refl;
        beyond = refl;
        bytes = bytes;
      }

  Wrote-u32le :
      (a b c d : ℕ)
      → v < 2 ^ 32
      → Wrote u32_le (a ∷ b ∷ c ∷ d ∷ p) v (u32le_write (a ∷ b ∷ c ∷ d ∷ p) v)
  unfolding read_as u32le_write
  Wrote-u32le a b c d fits =
      let bytes : All IsByte (u8 v ∷ u8 (v / 2 ^ 8) ∷ u8 (v / 2 ^ 16) ∷ u8 (v / 2 ^ 24) ∷ p) =
        (IsByte-of _, (IsByte-of _, (IsByte-of _, (IsByte-of _, h)))) in
      record {
        reads = u32le_read_sum _ bytes ∙ omega arith;
        same_length = refl;
        beyond = refl;
        bytes = bytes;
      }

  Wrote-u32be :
      (a b c d : ℕ)
      → v < 2 ^ 32
      → Wrote u32_be (a ∷ b ∷ c ∷ d ∷ p) v (u32be_write (a ∷ b ∷ c ∷ d ∷ p) v)
  unfolding read_as u32be_write
  Wrote-u32be a b c d fits =
      let bytes : All IsByte (u8 (v / 2 ^ 24) ∷ u8 (v / 2 ^ 16) ∷ u8 (v / 2 ^ 8) ∷ u8 v ∷ p) =
        (IsByte-of _, (IsByte-of _, (IsByte-of _, (IsByte-of _, h)))) in
      record {
        reads = u32be_read_sum _ bytes ∙ omega arith;
        same_length = refl;
        beyond = refl;
        bytes = bytes;
      }

  Wrote-u64le :
      (a b c d e f g i : ℕ)
      → v < 2 ^ 64
      → Wrote u64_le
          (a ∷ b ∷ c ∷ d ∷ e ∷ f ∷ g ∷ i ∷ p)
          v
          (u64le_write (a ∷ b ∷ c ∷ d ∷ e ∷ f ∷ g ∷ i ∷ p) v)
  unfolding read_as u64le_write
  Wrote-u64le a b c d e f g i fits =
      let bytes : All IsByte (
          u8 v
          ∷ u8 (v / 2 ^ 8)
          ∷ u8 (v / 2 ^ 16)
          ∷ u8 (v / 2 ^ 24)
          ∷ u8 (v / 2 ^ 32)
          ∷ u8 (v / 2 ^ 40)
          ∷ u8 (v / 2 ^ 48)
          ∷ u8 (v / 2 ^ 56)
          ∷ p) =
        (
          IsByte-of _,
          (
            IsByte-of _,
            (
              IsByte-of _,
              (IsByte-of _, (IsByte-of _, (IsByte-of _, (IsByte-of _, (IsByte-of _, h))))),
            ),
          ),
        ) in
      record {
        reads = u64le_read_sum _ bytes ∙ omega arith;
        same_length = refl;
        beyond = refl;
        bytes = bytes;
      }

  Wrote-u64be :
      (a b c d e f g i : ℕ)
      → v < 2 ^ 64
      → Wrote u64_be
          (a ∷ b ∷ c ∷ d ∷ e ∷ f ∷ g ∷ i ∷ p)
          v
          (u64be_write (a ∷ b ∷ c ∷ d ∷ e ∷ f ∷ g ∷ i ∷ p) v)
  unfolding read_as u64be_write
  Wrote-u64be a b c d e f g i fits =
      let bytes : All IsByte (
          u8 (v / 2 ^ 56)
          ∷ u8 (v / 2 ^ 48)
          ∷ u8 (v / 2 ^ 40)
          ∷ u8 (v / 2 ^ 32)
          ∷ u8 (v / 2 ^ 24)
          ∷ u8 (v / 2 ^ 16)
          ∷ u8 (v / 2 ^ 8)
          ∷ u8 v
          ∷ p) =
        (
          IsByte-of _,
          (
            IsByte-of _,
            (
              IsByte-of _,
              (IsByte-of _, (IsByte-of _, (IsByte-of _, (IsByte-of _, (IsByte-of _, h))))),
            ),
          ),
        ) in
      record {
        reads = u64be_read_sum _ bytes ∙ omega arith;
        same_length = refl;
        beyond = refl;
        bytes = bytes;
      }

  Wrote-u8 : (a : ℕ) → v < 2 ^ 8 → Wrote u8_native (a ∷ p) v (v ∷ p)
  unfolding read_as
  Wrote-u8 a fits = record { reads = refl; same_length = refl; beyond = refl; bytes = (fits, h) }

-- The writers of native order write as those of little-endian order.
native :
    (f g : Format) (p : List ℕ) (v : ℕ) {q : List ℕ}
    → size_of f ≡ size_of g
    → read_as f q ≡ read_as g q
    → Wrote g p v q
    → Wrote f p v q
native f g p v {q} e r w = record {
  reads = r ∙ w.reads;
  same_length = w.same_length;
  beyond = rw e w.beyond;
  bytes = w.bytes;
}

-- Every writer, on a buffer of at least its size, writes a value of its width so that the reader of
-- its type gives it back, and leaves the rest of the buffer.
write_as-Wrote :
    (f : Format) (v : ℕ) (p : List ℕ)
    → All IsByte p
    → size_of f ≤ length p
    → v < range f
    → Wrote f p v (write_as f p v)
unfolding write_as
write_as-Wrote u8_native v (a ∷ p) h enough fits = Wrote-u8 v p h.1 a fits
write_as-Wrote u8_native v [] h enough fits = absurd (omega arith)
write_as-Wrote u16_le v (a ∷ b ∷ p) h enough fits = Wrote-u16le v p h.1.1 a b fits
write_as-Wrote u16_le v p h enough fits = absurd (omega arith)
write_as-Wrote u16_be v (a ∷ b ∷ p) h enough fits = Wrote-u16be v p h.1.1 a b fits
write_as-Wrote u16_be v p h enough fits = absurd (omega arith)
write_as-Wrote u32_le v (a ∷ b ∷ c ∷ d ∷ p) h enough fits = Wrote-u32le v p h.1.1.1.1 a b c d fits
write_as-Wrote u32_le v p h enough fits = absurd (omega arith)
write_as-Wrote u32_be v (a ∷ b ∷ c ∷ d ∷ p) h enough fits = Wrote-u32be v p h.1.1.1.1 a b c d fits
write_as-Wrote u32_be v p h enough fits = absurd (omega arith)
write_as-Wrote u64_le v (a ∷ b ∷ c ∷ d ∷ e ∷ f ∷ g ∷ i ∷ p) h enough fits =
    Wrote-u64le v p h.1.1.1.1.1.1.1.1 a b c d e f g i fits
write_as-Wrote u64_le v p h enough fits = absurd (omega arith)
write_as-Wrote u64_be v (a ∷ b ∷ c ∷ d ∷ e ∷ f ∷ g ∷ i ∷ p) h enough fits =
    Wrote-u64be v p h.1.1.1.1.1.1.1.1 a b c d e f g i fits
write_as-Wrote u64_be v p h enough fits = absurd (omega arith)
write_as-Wrote u16_native v (a ∷ b ∷ p) h enough fits =
    native u16_native u16_le _ v refl (unfold read_as in refl) (Wrote-u16le v p h.1.1 a b fits)
write_as-Wrote u16_native v p h enough fits = absurd (omega arith)
write_as-Wrote u32_native v (a ∷ b ∷ c ∷ d ∷ p) h enough fits =
    native u32_native u32_le _ v refl (unfold read_as in refl)
      (Wrote-u32le v p h.1.1.1.1 a b c d fits)
write_as-Wrote u32_native v p h enough fits = absurd (omega arith)
write_as-Wrote u64_native v (a ∷ b ∷ c ∷ d ∷ e ∷ f ∷ g ∷ i ∷ p) h enough fits =
    native u64_native u64_le _ v refl (unfold read_as in refl)
      (Wrote-u64le v p h.1.1.1.1.1.1.1.1 a b c d e f g i fits)
write_as-Wrote u64_native v p h enough fits = absurd (omega arith)

-- For a buffer shorter than 2 ^ 64, the bounds test holds exactly where the whole block lies within
-- the buffer, with no wrong answer from an end that overflows.
pub contains_block_iff :
    (bytes : List ℕ) (offset size : ℕ)
    → length bytes < 2 ^ 64
    → (contains_block bytes offset size ≡ true) ↔ (offset + size ≤ length bytes)
unfolding contains_block
contains_block_iff bytes offset size small = ground arith

-- The buffer with its bytes from `offset` on replaced by `q`, as many.
module _ (bytes q : List ℕ) (offset : ℕ) (within : offset ≤ length bytes)
    (fits : length q ≡ length (drop offset bytes)) where
  front : length (take offset bytes) ≡ offset
  front = omega (arith, length-take offset bytes)

  length-splice : length (take offset bytes ++ q) ≡ length bytes
  length-splice = omega (
    arith,
    length-append (take offset bytes) q,
    length-take offset bytes,
    length-drop offset bytes,
  )

  take-splice : take offset (take offset bytes ++ q) ≡ take offset bytes
  take-splice =
      take-append offset (take offset bytes) q (omega (arith, front)) ∙ take-take offset bytes

  drop-splice : drop offset (take offset bytes ++ q) ≡ q
  drop-splice =
      ap (λ (n : ℕ). drop n (take offset bytes ++ q)) (sym front)
      ∙ drop-length_append (take offset bytes) q

  drop-splice_beyond :
      (n : ℕ)
      → drop n q ≡ drop n (drop offset bytes)
      → drop (offset + n) (take offset bytes ++ q) ≡ drop (offset + n) bytes
  drop-splice_beyond n e =
      sym (drop-drop offset n (take offset bytes ++ q))
      ∙ ap (λ (r : List ℕ). drop n r) drop-splice
      ∙ e
      ∙ drop-drop offset n bytes

All-drop : (n : ℕ) (bs : List ℕ) → All IsByte bs → All IsByte (drop n bs)
All-drop zero bs h = h
All-drop (suc n) [] h = h
All-drop (suc n) (b ∷ bs) h = All-drop n bs h.1

-- In bounds, a checked write succeeds; the checked read at the same place then gives the value back,
-- and the length and the bytes before and behind the block are what they were.
pub bytes_read-write :
    (f : Format) (bytes : List ℕ) (offset v : ℕ)
    → All IsByte bytes
    → length bytes < 2 ^ 64
    → v < range f
    → offset + size_of f ≤ length bytes
    → let (written, out) = bytes_write f bytes offset v in
      (written ≡ true)
      × (bytes_read f out offset ≡ some v)
      × (length out ≡ length bytes)
      × (take offset out ≡ take offset bytes)
      × (drop (offset + size_of f) out ≡ drop (offset + size_of f) bytes)
unfolding bytes_write bytes_read
bytes_read-write f bytes offset v h small fits within =
    let w =
      write_as-Wrote f v (drop offset bytes) (All-drop offset bytes h)
        (omega (arith, length-drop offset bytes)) fits in
    let q = write_as f (drop offset bytes) v in
    let below : offset ≤ length bytes = omega arith in
    let same = length-splice bytes q offset below w.same_length in
    rw ((contains_block_iff bytes offset (size_of f) small).1 within) (
      refl,
      rw (
        (contains_block_iff (take offset bytes ++ q) offset (size_of f) (rw same small)).1
            (rw same within),
        drop-splice bytes q offset below w.same_length,
        w.reads,
      ),
      same,
      take-splice bytes q offset below w.same_length,
      drop-splice_beyond bytes q offset below w.same_length (size_of f) w.beyond,
    )

-- Out of bounds, the overflow of the end of the block included, the checked write answers false and
-- changes nothing, and the checked read gives no value.
pub bytes_write-refused :
    (f : Format) (bytes : List ℕ) (offset v : ℕ)
    → length bytes < 2 ^ 64
    → length bytes < offset + size_of f
    → (bytes_write f bytes offset v ≡ (false, bytes)) × (bytes_read f bytes offset ≡ none)
unfolding bytes_write bytes_read
bytes_write-refused f bytes offset v small beyond =
    let refused : contains_block bytes offset (size_of f) ≡ false =
      ground (arith, contains_block_iff bytes offset (size_of f) small) in
    (rw (refused) refl, rw (refused) refl)
