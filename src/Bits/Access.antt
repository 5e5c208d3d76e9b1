-- ===== src/Bits/Access.antt =====
-- Reading a bit after writing one.
use lone.Prelude.{
  IsByte, ℕ, zero, suc, ◌+◌, ◌-◌, ◌*◌, ◌/◌, ◌%◌, ◌^◌, ◌≤◌, ◌<◌, ◌≡◌, refl, arith, Bool, true, false,
  List, ◌∷◌, agree_below, zero-bit_and, agree_below→eq, as_number, as_number-injective, length,
  get_or, set, ◌==◌, if◌then◌else◌, get_or-set_self, get_or-set_ne, length-set, All, All-get_or, [],
}
use native.Mathlib.Decide.{ℕ_discrete}
use lone.Bits.{get_bit, set_bit, get, put}

abbrev expected : Bool → ℕ → ℕ
expected value n =
    as_number (if n / 256 % 8 == n / 2048 then value else get_bit (n % 256) (n / 2048))

abbrev actual : Bool → ℕ → ℕ
actual value n = as_number (get_bit (set_bit (n % 256) (n / 256 % 8) value) (n / 2048))

marked_table : agree_below (actual true) (expected true) 16384 ≡ true
unfolding agree_below get_bit set_bit
marked_table = refl

cleared_table : agree_below (actual false) (expected false) 16384 ≡ true
unfolding agree_below get_bit set_bit
cleared_table = refl

table : (v : Bool) (n : ℕ) → n < 16384 → actual v n ≡ expected v n
table true = agree_below→eq (actual true) (expected true) 16384 marked_table
table false = agree_below→eq (actual false) (expected false) 16384 cleared_table

-- Within one byte, a write changes the bit that it names and no other.
get_bit-set_bit :
    (x k j : ℕ) (v : Bool)
    → x < 256
    → k < 8
    → j < 8
    → get_bit (set_bit x k v) j ≡ (if k == j then v else get_bit x j)
get_bit-set_bit x k j v hx hk hj =
    let n = j * 2048 + k * 256 + x in
    let ex : n % 256 ≡ x = omega arith in
    let ek : n / 256 % 8 ≡ k = omega arith in
    let ej : n / 2048 ≡ j = omega arith in
    rw (ex, ek, ej) at (as_number-injective _ _ (table v n (omega arith)))

set_bit-lt : (x k : ℕ) (v : Bool) → set_bit x k v < 256
unfolding set_bit
set_bit-lt x k true = omega arith
set_bit-lt x k false = omega arith

IsByte-of : (bits : List ℕ) (i : ℕ) → All IsByte bits → get_or bits i 0 < 256
IsByte-of bits i h = All-get_or IsByte bits i 0 (omega arith) h

get_or-out_of_range : (xs : List ℕ) (i d : ℕ) → length xs ≤ i → get_or xs i d ≡ d
get_or-out_of_range [] i d h = refl
get_or-out_of_range (x ∷ xs) zero d h = absurd (omega arith)
get_or-out_of_range (x ∷ xs) (suc i) d h = get_or-out_of_range xs i d (omega arith)

-- Past the end there are no bits.
pub get-out_of_range : (bits : List ℕ) (j : ℕ) → 8 * length bits ≤ j → get bits j ≡ false
unfolding get get_bit
get-out_of_range bits j h =
    rw (get_or-out_of_range bits (j / 8) 0 (omega arith), zero-bit_and (2 ^ (8 - 1 - j % 8))) refl

-- After writing a bit within the bitmap, reading it gives the value written, and reading any other
-- bit gives what it was.
pub get-put :
    (bits : List ℕ) (index j : ℕ) (v : Bool)
    → All IsByte bits
    → index < 8 * length bits
    → get (put bits index v) j ≡ (if index == j then v else get bits j)
unfolding get put
get-put bits index j v bytes within = elim (ℕ_discrete (index / 8) (j / 8)) [
  | yes same ↦
      rw
        (
          ← same,
          get_or-set_self bits (index / 8) (set_bit (get_or bits (index / 8) 0) (7 - index % 8) v) 0
              (omega arith),
        )
        (ground (
          arith,
          get_bit-set_bit (get_or bits (index / 8) 0) (7 - index % 8) (7 - j % 8) v
              (IsByte-of bits (index / 8) bytes),
        ))
  | no other ↦ ground (
    arith,
    get_or-set_ne bits (index / 8) (j / 8) (set_bit (get_or bits (index / 8) 0) (7 - index % 8) v) 0
        other,
  )
]

All-set : (bits : List ℕ) (i b : ℕ) → All IsByte bits → b < 256 → All IsByte (set bits i b)
All-set [] i b h hb = h
All-set (x ∷ bits) zero b h hb = (hb, h.1)
All-set (x ∷ bits) (suc i) b h hb = (h.0, All-set bits i b h.1 hb)

-- A write keeps the bitmap a sequence of as many bytes.
pub put_bytes :
    (bits : List ℕ) (index : ℕ) (v : Bool)
    → All IsByte bits
    → All IsByte (put bits index v) × (length (put bits index v) ≡ length bits)
unfolding put
put_bytes bits index v h =
    (All-set bits (index / 8) _ h (set_bit-lt _ _ v), length-set bits (index / 8) _)
