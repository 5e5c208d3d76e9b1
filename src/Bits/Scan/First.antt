-- ===== src/Bits/Scan/First.antt =====
-- What the scan returns, in terms of the reader of single bits.
use lone.Prelude.{
  IsByte, ℕ, suc, ◌+◌, ◌-◌, ◌*◌, ◌/◌, ◌%◌, ◌^◌, ◌≤◌, ◌<◌, ◌≡◌, ◌≢◌, refl, ap, ◌∙◌, arith, Bool,
  true, false, List, [], ◌∷◌, Option, some, none, ltb, if◌then◌else◌, Bool-cases, inl, inr, length,
  All, ◌==◌, agree_below, agree_below→eq, not,
}
use native.Mathlib.Decide.{dec_lt}
use lone.Bits.{
  clz, get_bit, get, find_first_one_in_byte, Progress, found, reached, scan_bytes, scan, byte_mask,
}
use lone.Bits.Scan.Words.{find_first_one_in_byte_lem, scan-scan_bytes, result}

-- The first bit of a byte that is set, checked at every byte and every place up to it.
abbrev bit_at : ℕ → ℕ
bit_at n = if get_bit (n / 8) (7 - n % 8) then 1 else 0

abbrev bit_expected : ℕ → ℕ
bit_expected n =
    let first = clz 8 (n / 8) in
    if ltb (n % 8) first then 0 else if n % 8 == first then 1 else bit_at n

bits_table : agree_below bit_at bit_expected 2048 ≡ true
unfolding agree_below get_bit clz
bits_table = refl

clz_small_table : agree_below (λ c. if ltb (clz 8 (c + 1)) 8 then 1 else 0) (λ c. 1) 255 ≡ true
unfolding agree_below clz
clz_small_table = refl

clz-lt : (c : ℕ) → c < 256 → c ≢ 0 → clz 8 c < 8
clz-lt c h ne =
    let e : c - 1 + 1 ≡ c = omega arith in
    let t =
      agree_below→eq (λ c. if ltb (clz 8 (c + 1)) 8 then 1 else 0) (λ c. 1) 255 clz_small_table
        (c - 1) (omega arith) in
    ground (arith, e, t)

clz_bits :
    (c k : ℕ)
    → c < 256
    → k < 8
    → (k < clz 8 c → get_bit c (7 - k) ≡ false) × (k ≡ clz 8 c → get_bit c (7 - k) ≡ true)
clz_bits c k hc hk =
    let n = c * 8 + k in
    let ec : n / 8 ≡ c = omega arith in
    let ek : n % 8 ≡ k = omega arith in
    let t = rw (ec, ek) at (agree_below→eq bit_at bit_expected 2048 bits_table n (omega arith)) in
    (λ h. ground (arith, t), λ h. ground (arith, t))

flip_table :
    agree_below (λ n. if get_bit (255 - n / 8) (7 - n % 8) then 1 else 0) (λ n. 1 - bit_at n) 2048
    ≡ true
unfolding agree_below get_bit
flip_table = refl

flip_bits : (b k : ℕ) → b < 256 → k < 8 → get_bit (255 - b) (7 - k) ≡ not (get_bit b (7 - k))
flip_bits b k hb hk =
    let n = b * 8 + k in
    let eb : n / 8 ≡ b = omega arith in
    let ek : n % 8 ≡ k = omega arith in
    let t = rw (eb, ek) at (agree_below→eq _ _ 2048 flip_table n (omega arith)) in ground (arith, t)

get_cons_low : (b : ℕ) (bs : List ℕ) (j : ℕ) → j < 8 → get (b ∷ bs) j ≡ get_bit b (7 - j)
unfolding get
get_cons_low b bs j h =
    let e : j / 8 ≡ 0 = omega arith in let m : 8 - 1 - j % 8 ≡ 7 - j = omega arith in rw (e, m)

get_cons_high : (b : ℕ) (bs : List ℕ) (j : ℕ) → get (b ∷ bs) (8 + j) ≡ get bs j
unfolding get
get_cons_high b bs j =
    let e : (8 + j) / 8 ≡ suc (j / 8) = omega arith in
    let m : 8 - 1 - (8 + j) % 8 ≡ 8 - 1 - j % 8 = omega arith in rw (e, m)

-- The first bit of the bitmap that has the value, if there is one.
abbrev pub IsFirst : List ℕ → Bool → Option ℕ → Type 0
IsFirst bits bit none = (j : ℕ) → j < 8 * length bits → get bits j ≡ not bit
IsFirst bits bit (some i) =
    (i < 8 * length bits) × (get bits i ≡ bit) × ((j : ℕ) → j < i → get bits j ≡ not bit)

-- What a scan from bit index `i` on has found.
abbrev Located : List ℕ → Bool → ℕ → Progress → Type 0
Located bits bit i (found j) = (i ≤ j) × IsFirst bits bit (some (j - i))
Located bits bit i (reached j) = IsFirst bits bit none

-- A byte in front without the value.
module _ (b : ℕ) (bs : List ℕ) (bit : Bool)
    (without : (k : ℕ) → k < 8 → get_bit b (7 - k) ≡ not bit) where
  absent_cons :
      (n : ℕ)
      → ((j : ℕ) → j < n → get bs j ≡ not bit)
      → (j : ℕ) → j < 8 + n
      → get (b ∷ bs) j ≡ not bit
  absent_cons n later j h = elim (dec_lt j 8) [
    | yes low ↦ get_cons_low b bs j low ∙ without j low
    | no high ↦
        ap (get (b ∷ bs)) (let e : j ≡ 8 + (j - 8) = omega arith in e)
        ∙ get_cons_high b bs (j - 8)
        ∙ later (j - 8) (omega arith)
  ]

  Located-cons : (i : ℕ) (p : Progress) → Located bs bit (i + 8) p → Located (b ∷ bs) bit i p
  Located-cons i (reached j) h = λ k hk. absent_cons (8 * length bs) h k (omega arith)
  Located-cons i (found j) h = (
    omega arith,
    (
      omega arith,
      ap (get (b ∷ bs)) (let e : j - i ≡ 8 + (j - (i + 8)) = omega arith in e)
          ∙ get_cons_high b bs (j - (i + 8))
          ∙ h.1.1,
      λ k hk. absent_cons (j - (i + 8)) h.1.2 k (omega arith),
    ),
  )

-- The byte in which the value is first met, at its place `k`.
Located-here :
    (b : ℕ) (bs : List ℕ) (bit : Bool) (i k : ℕ)
    → k < 8
    → get_bit b (7 - k) ≡ bit
    → ((j : ℕ) → j < k → get_bit b (7 - j) ≡ not bit)
    → Located (b ∷ bs) bit i (found (i + k))
Located-here b bs bit i k hk here before =
    let e : i + k - i ≡ k = omega arith in
    rw e (
      omega arith,
      (
        omega arith,
        get_cons_low b bs k hk ∙ here,
        λ j hj. get_cons_low b bs j (omega arith) ∙ before j hj,
      ),
    )

-- In a byte that is not the mask, the value is first met where the leading zeros end.
abbrev candidates : Bool → ℕ → ℕ
candidates bit b = if bit then b else 2 ^ 8 - 1 - b

candidate_bits :
    (bit : Bool) (b k : ℕ)
    → b < 256
    → k < 8
    → (get_bit (candidates bit b) (7 - k) ≡ true → get_bit b (7 - k) ≡ bit)
      × (get_bit (candidates bit b) (7 - k) ≡ false → get_bit b (7 - k) ≡ not bit)
candidate_bits true b k hb hk = (λ h. h, λ h. h)
candidate_bits false b k hb hk =
    (λ h. ground (arith, flip_bits b k hb hk), λ h. ground (arith, flip_bits b k hb hk))

Located-byte :
    (bit : Bool) (b : ℕ) (bs : List ℕ) (i : ℕ)
    → b < 256
    → candidates bit b ≢ 0
    → Located (b ∷ bs) bit i (found (i + find_first_one_in_byte (candidates bit b)))
Located-byte bit b bs i hb ne =
    let c = candidates bit b in
    let small : c < 256 = ground arith in
    let first = clz-lt c small ne in
    rw (find_first_one_in_byte_lem c small ne) (
      Located-here b bs bit i (clz 8 c) first
        ((candidate_bits bit b (clz 8 c) hb first).0 ((clz_bits c (clz 8 c) small first).1 refl))
        (λ j hj.
          (candidate_bits bit b j hb (omega arith)).1 ((clz_bits c j small (omega arith)).0 hj)))

zero_table : agree_below (λ k. if get_bit 0 (7 - k) then 1 else 0) (λ k. 0) 8 ≡ true
unfolding agree_below get_bit
zero_table = refl

mask_bits :
    (bit : Bool) (b k : ℕ) → b < 256 → candidates bit b ≡ 0 → k < 8 → get_bit b (7 - k) ≡ not bit
mask_bits bit b k hb e hk =
    let t = agree_below→eq _ _ 8 zero_table k hk in
    let z : get_bit (candidates bit b) (7 - k) ≡ false =
      ap (λ (c : ℕ). get_bit c (7 - k)) e ∙ ground (arith, t) in
    (candidate_bits bit b k hb hk).1 z

-- One round of the loop.
Located-step :
    (bit : Bool) (b : ℕ) (bs : List ℕ) (i : ℕ) (p : Progress)
    → b < 256
    → Located bs bit (i + 8) p
    → Located
        (b ∷ bs)
        bit
        i
        (if b == byte_mask bit then p else found (i + find_first_one_in_byte (candidates bit b)))
Located-step bit b bs i p hb later = elim (Bool-cases (b == byte_mask bit)) [
  | inl same ↦
      rw same (Located-cons b bs bit (λ k hk. mask_bits bit b k hb (ground arith) hk) i p later)
  | inr other ↦ rw other (Located-byte bit b bs i hb (ground arith))
]

scan_bytes-Located :
    (bit : Bool) (bits : List ℕ) (i : ℕ)
    → All IsByte bits
    → Located bits bit i (scan_bytes bit bits i)
unfolding scan_bytes
scan_bytes-Located bit [] i h = λ j hj. absurd (omega arith)
scan_bytes-Located bit (b ∷ bs) i h =
    Located-step bit b bs i (scan_bytes bit bs (i + 8)) h.0 (scan_bytes-Located bit bs (i + 8) h.1)

from_start :
    (bits : List ℕ) (bit : Bool) (p : Progress) → Located bits bit 0 p → IsFirst bits bit (result p)
from_start bits bit (reached j) h = h
from_start bits bit (found j) h = rw (let e : j - 0 ≡ j = omega arith in e) at h.1

-- The scan, at every alignment of the bitmap, returns the index of its first bit with the value, and
-- nothing where no bit has it.
pub scan-IsFirst :
    (address : ℕ) (bits : List ℕ) (bit : Bool)
    → All IsByte bits
    → IsFirst bits bit (scan address bits bit)
scan-IsFirst address bits bit h =
    rw (scan-scan_bytes address bits bit h)
      (from_start bits bit (scan_bytes bit bits 0) (scan_bytes-Located bit bits 0 h))
