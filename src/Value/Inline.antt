-- ===== src/Value/Inline.antt =====
-- Values of at most seven bytes in the word itself: what is written is what is read.
use lone.Prelude.{
  IsByte, ℕ, suc, ◌+◌, ◌*◌, ◌/◌, ◌%◌, ◌^◌, ◌≤◌, ◌<◌, ◌≡◌, refl, ap, ap₂, ◌∙◌, arith, true, bit_and,
  bit_or, agree_below, agree_below→eq, disjoint-bit_or, All, [], ◌∷◌, List, length, some,
  bit_and-ones,
}
use lone.Value.{
  symbol_tag, text_tag, bytes_tag, code, type_of, memory_bytes, inline_join, inline_create,
  inline_value_bytes, Tag,
}
use lone.Value.Classes.{type_of-low}
use native.Mathlib.Nat.{two-pow-succ, one-le-pow, mul-le-mul_left, pow-le-pow_right}

-- The number that bytes in memory stand for, lowest first.
abbrev le : List ℕ → ℕ
le [] = 0
le (b ∷ bs) = b + le bs * 256

memory_bytes-le : (bs : List ℕ) → All IsByte bs → memory_bytes (length bs) (le bs) ≡ bs
unfolding memory_bytes
memory_bytes-le [] h = refl
memory_bytes-le (b ∷ bs) h =
    let low : (b + le bs * 256) % 256 ≡ b = omega arith in
    let high : (b + le bs * 256) / 256 ≡ le bs = omega arith in
    ap₂ (λ (x : ℕ) (xs : List ℕ). x ∷ xs) low
      (ap (memory_bytes (length bs)) high ∙ memory_bytes-le bs h.1)

next_byte : (i : ℕ) → 2 ^ (8 + suc i * 8) ≡ 256 * 2 ^ (8 + i * 8)
next_byte i =
    let e : 8 + suc i * 8 ≡ suc (suc (suc (suc (suc (suc (suc (suc (8 + i * 8)))))))) =
      omega arith in
    omega (
      arith,
      ap (λ (x : ℕ). 2 ^ x) e,
      two-pow-succ (8 + i * 8),
      two-pow-succ (suc (8 + i * 8)),
      two-pow-succ (suc (suc (8 + i * 8))),
      two-pow-succ (suc (suc (suc (8 + i * 8)))),
      two-pow-succ (suc (suc (suc (suc (8 + i * 8))))),
      two-pow-succ (suc (suc (suc (suc (suc (8 + i * 8)))))),
      two-pow-succ (suc (suc (suc (suc (suc (suc (8 + i * 8))))))),
      two-pow-succ (suc (suc (suc (suc (suc (suc (suc (8 + i * 8)))))))),
    )

sum_fits : (b p t : ℕ) → b < 256 → t < p → b * p + t < 256 * p
sum_fits b p t h l = let e : b ≤ 255 = omega arith in omega (arith, mul-le-mul_left p e)

byte_fits : (i b : ℕ) → i ≤ 6 → b < 256 → b * 2 ^ (8 + i * 8) < 2 ^ 64
byte_fits i b h g =
    let e : 8 + suc i * 8 ≤ 64 = omega arith in
    omega (
      arith,
      next_byte i,
      (let two : 0 < 2 = omega arith in pow-le-pow_right two e),
      sum_fits b (2 ^ (8 + i * 8)) 0 g (one-le-pow (8 + i * 8) 2 (omega arith)),
    )

join_field :
    (k b t : ℕ) → b * 2 ^ k < 2 ^ 64 → t < 2 ^ k → bit_or t (b * 2 ^ k % 2 ^ 64) ≡ b * 2 ^ k + t
join_field k b t h l =
    ap (bit_or t) (let e : b * 2 ^ k % 2 ^ 64 ≡ b * 2 ^ k = omega arith in e)
    ∙ disjoint-bit_or k b t l

inline_join-le :
    (bs : List ℕ) (i t : ℕ)
    → All IsByte bs
    → i + length bs ≤ 7
    → t < 2 ^ (8 + i * 8)
    → inline_join t bs i ≡ t + le bs * 2 ^ (8 + i * 8)
unfolding inline_join
inline_join-le [] i t h g l = omega arith
inline_join-le (b ∷ bs) i t h g l =
    let joined : bit_or t (b * 2 ^ (8 + i * 8) % 2 ^ 64) ≡ b * 2 ^ (8 + i * 8) + t =
      join_field (8 + i * 8) b t (byte_fits i b (omega arith) h.0) l in
    let bound : b * 2 ^ (8 + i * 8) + t < 2 ^ (8 + suc i * 8) =
      rw (next_byte i) (sum_fits b (2 ^ (8 + i * 8)) t h.0 l) in
    let rest : inline_join (b * 2 ^ (8 + i * 8) + t) bs (suc i)
        ≡ b * 2 ^ (8 + i * 8) + t + le bs * 2 ^ (8 + suc i * 8) =
      inline_join-le bs (suc i) (b * 2 ^ (8 + i * 8) + t) h.1 (omega arith) bound in
    rw (joined) (omega (arith, rest, ap (λ (x : ℕ). le bs * x) (next_byte i)))

-- The three inline encodings, by type byte and canonical tag.
pub data InlineType : Type 0 where
  inline_symbol inline_text inline_bytes : InlineType

abbrev pub type_byte : InlineType → ℕ
type_byte inline_symbol = 0x81
type_byte inline_text = 0x91
type_byte inline_bytes = 0xA1

abbrev pub canonical : InlineType → Tag
canonical inline_symbol = symbol_tag
canonical inline_text = text_tag
canonical inline_bytes = bytes_tag

abbrev header : InlineType → ℕ → ℕ
header t n = bit_or (type_byte t) (n * 2 ^ 1 % 2 ^ 64)

-- A word below 2 ^ 64 by its low byte: the length field and the type.
header_table : (t : InlineType) → agree_below (header t) (λ n. type_byte t + 2 * n) 8 ≡ true
unfolding agree_below
header_table inline_symbol = refl
header_table inline_text = refl
header_table inline_bytes = refl

header_sum : (t : InlineType) (n : ℕ) → n ≤ 7 → header t n ≡ type_byte t + 2 * n
header_sum t n h =
    agree_below→eq (header t) (λ n. type_byte t + 2 * n) 8 (header_table t) n (omega arith)

type_table :
    (t : InlineType)
    → agree_below (λ n. type_of (type_byte t + 2 * n)) (λ n. code (canonical t)) 8 ≡ true
unfolding agree_below type_of code
type_table inline_symbol = refl
type_table inline_text = refl
type_table inline_bytes = refl

type_byte-lt : (t : InlineType) → type_byte t < 0xA2
type_byte-lt inline_symbol = omega arith
type_byte-lt inline_text = omega arith
type_byte-lt inline_bytes = omega arith

type_byte-field : (t : InlineType) (n : ℕ) → n ≤ 7 → (type_byte t + 2 * n) / 2 % 8 ≡ n
type_byte-field inline_symbol n h = omega arith
type_byte-field inline_text n h = omega arith
type_byte-field inline_bytes n h = omega arith

abbrev pub inline_word : InlineType → List ℕ → ℕ
inline_word t bs = type_byte t + 2 * length bs + le bs * 256

created :
    (t : InlineType) (bs : List ℕ)
    → All IsByte bs
    → length bs ≤ 7
    → inline_create (type_byte t) bs ≡ some (inline_word t bs)
unfolding inline_create
created t bs h g = ground (
  arith,
  header_sum t (length bs) g,
  type_byte-lt t,
  inline_join-le bs 0 (header t (length bs)) h (omega arith),
)

count_field :
    (t : InlineType) (bs : List ℕ)
    → length bs ≤ 7
    → bit_and (inline_word t bs / 2 ^ 1) 7 ≡ length bs
count_field t bs g =
    omega (
      arith,
      bit_and-ones 3 (inline_word t bs / 2),
      type_byte-field t (length bs) g,
      type_byte-lt t,
    )

read_back :
    (t : InlineType) (bs : List ℕ)
    → All IsByte bs
    → length bs ≤ 7
    → inline_value_bytes (inline_word t bs) ≡ bs
unfolding inline_value_bytes
read_back t bs h g =
    let high : inline_word t bs / 256 ≡ le bs = omega (arith, type_byte-lt t) in
    rw (count_field t bs g, high) (memory_bytes-le bs h)

typed :
    (t : InlineType) (bs : List ℕ) → length bs ≤ 7 → type_of (inline_word t bs) ≡ code (canonical t)
typed t bs g =
    let low : inline_word t bs % 256 ≡ type_byte t + 2 * length bs =
      omega (arith, type_byte-lt t) in
    type_of-low (inline_word t bs)
    ∙ (ap type_of low
        ∙ agree_below→eq (λ n. type_of (type_byte t + 2 * n)) (λ n. code (canonical t)) 8
            (type_table t) (length bs) (omega arith))

-- A symbol, text or bytes value of at most seven bytes is created inline, its type is the canonical
-- one, and the bytes read back from the word are the ones given.
pub inline_create-read :
    (t : InlineType) (bs : List ℕ)
    → All IsByte bs
    → length bs ≤ 7
    → (w : ℕ) × (inline_create (type_byte t) bs ≡ some w)
      × (inline_value_bytes w ≡ bs)
      × (type_of w ≡ code (canonical t))
inline_create-read t bs h g = (inline_word t bs, created t bs h g, read_back t bs h g, typed t bs g)
