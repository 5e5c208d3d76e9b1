-- ===== src/Unicode/Masks.antt =====
-- The masks of the UTF-8 code as arithmetic on one byte, each checked at every value.
use lone.Prelude.{
  ℕ, ◌+◌, ◌*◌, ◌/◌, ◌%◌, ◌^◌, ◌<◌, ◌≡◌, refl, ap, ◌∙◌, arith, bit_and, bit_or, agree_below,
  agree_below→eq, bit_and-ones, bit_or-disjoint,
}

pub top_two : (b : ℕ) → b < 256 → bit_and b 0xC0 ≡ b / 64 * 64
unfolding agree_below
top_two = agree_below→eq _ _ 256 refl

pub top_three : (b : ℕ) → b < 256 → bit_and b 0xE0 ≡ b / 32 * 32
unfolding agree_below
top_three = agree_below→eq _ _ 256 refl

pub top_four : (b : ℕ) → b < 256 → bit_and b 0xF0 ≡ b / 16 * 16
unfolding agree_below
top_four = agree_below→eq _ _ 256 refl

pub top_five : (b : ℕ) → b < 256 → bit_and b 0xF8 ≡ b / 8 * 8
unfolding agree_below
top_five = agree_below→eq _ _ 256 refl

pub mark_continuation : (b : ℕ) → b < 64 → bit_or 0x80 b ≡ 0x80 + b
unfolding agree_below
mark_continuation = agree_below→eq _ _ 64 refl

pub mark_two : (b : ℕ) → b < 32 → bit_or 0xC0 b ≡ 0xC0 + b
unfolding agree_below
mark_two = agree_below→eq _ _ 32 refl

pub mark_three : (b : ℕ) → b < 16 → bit_or 0xE0 b ≡ 0xE0 + b
unfolding agree_below
mark_three = agree_below→eq _ _ 16 refl

pub mark_four : (b : ℕ) → b < 8 → bit_or 0xF0 b ≡ 0xF0 + b
unfolding agree_below
mark_four = agree_below→eq _ _ 8 refl

pub low_six : (b : ℕ) → bit_and b 0x3F ≡ b % 64
low_six b = bit_and-ones 6 b

pub low_five : (b : ℕ) → bit_and b 0x1F ≡ b % 32
low_five b = bit_and-ones 5 b

pub low_four : (b : ℕ) → bit_and b 0x0F ≡ b % 16
low_four b = bit_and-ones 4 b

pub low_three : (b : ℕ) → bit_and b 0x07 ≡ b % 8
low_three b = bit_and-ones 3 b

-- One round of the decoder's loop appends six bits.
pub append_six :
    (c b : ℕ) → c < 2 ^ 26 → bit_or (c * 2 ^ 6 % 2 ^ 32) (bit_and b 0x3F) ≡ c * 64 + b % 64
append_six c b h =
    ap (λ (t : ℕ). bit_or t (bit_and b 0x3F))
      (let e : c * 2 ^ 6 % 2 ^ 32 ≡ c * 2 ^ 6 = omega arith in e)
    ∙ ap (λ (t : ℕ). bit_or (c * 2 ^ 6) t) (low_six b)
    ∙ bit_or-disjoint 6 c (b % 64) (omega arith)
