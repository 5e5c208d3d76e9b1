-- ===== src/Value/Integer/Parse.antt =====
-- Decimal notation: the digits stand for the number that they spell, whichever way it overflows.
use lone.Prelude.{
  ℕ, zero, suc, ◌+◌, ◌-◌, ◌*◌, ◌^◌, ◌≤◌, ◌≡◌, refl, sym, ap, arith, ◌==◌, Bool, true, false, none,
  if◌then◌else◌, List, [], ◌∷◌, All, Bool-cases, inl, inr, ℤ, pos, negsuc, sub_ℕ, ◌+ℤ◌, negate,
  times_ten, fits,
}
use lone.Value.Integer.{integer_create, digit_of, parse_digits, integer_after, integer_parse}
use lone.Value.Integer.RoundTrip.{integer_create-refused}

abbrev pub IsDigit : ℕ → Type 0
IsDigit byte = (0x30 ≤ byte) × (byte ≤ 0x39)

-- The number that digits spell after a prefix that spells `n`.
unfoldable pub spelled : ℕ → List ℕ → ℕ
spelled n [] = n
spelled n (byte ∷ digits) = spelled (n * 10 + (byte - 0x30)) digits

spelled-le : (ds : List ℕ) (n : ℕ) → n ≤ spelled n ds
unfolding spelled
spelled-le [] n = omega arith
spelled-le (d ∷ ds) n = omega (arith, spelled-le ds (n * 10 + (d - 0x30)))

-- The integer of a magnitude, of either sign.
unfoldable pub signed : Bool → ℕ → ℤ
signed true n = negate (pos n)
signed false n = pos n

too_large : (s : Bool) (n : ℕ) → 2 ^ 63 ≤ n → integer_create (signed s n) ≡ none
unfolding signed negate fits
too_large true zero h = absurd (omega arith)
too_large true (suc n) h = integer_create-refused (negsuc n) (ground arith)
too_large false n h = integer_create-refused (pos n) (ground arith)

shifted : (s : Bool) (n : ℕ) → times_ten (signed s n) ≡ signed s (n * 10)
unfolding signed negate times_ten
shifted true zero = refl
shifted true (suc n) =
    ap (λ (x : ℕ). negate (pos x)) (let e : suc (n * 10 + 9) ≡ suc n * 10 = omega arith in e)
shifted false n = refl

signed-add : (s : Bool) (n m : ℕ) → signed s n +ℤ signed s m ≡ signed s (n + m)
unfolding signed negate ◌+ℤ◌ sub_ℕ
signed-add true zero zero = refl
signed-add true zero (suc m) = ground arith
signed-add true (suc n) zero = ground arith
signed-add true (suc n) (suc m) =
    ap (λ (x : ℕ). negate (pos x)) (let e : suc (suc (n + m)) ≡ suc n + suc m = omega arith in e)
signed-add false n m = refl

digit :
    (s : Bool) (d : ℕ)
    → IsDigit d
    → (if s then negate (digit_of d) else digit_of d) ≡ signed s (d - 0x30)
unfolding signed digit_of sub_ℕ
digit true d h = ground arith
digit false d h = ground arith

too_large_magnitude : (s : Bool) (n : ℕ) → fits 63 (signed s n) ≡ false → 2 ^ 63 ≤ n
unfolding signed negate fits
too_large_magnitude true zero h = ground arith
too_large_magnitude true (suc n) h = ground arith
too_large_magnitude false n h = ground arith

parsed :
    (s : Bool) (ds : List ℕ) (n : ℕ)
    → All IsDigit ds
    → integer_after (parse_digits s (signed s n) ds) ≡ integer_create (signed s (spelled n ds))
unfolding parse_digits integer_after spelled
parsed s [] n h = refl
parsed s (d ∷ ds) n h =
    let sum : signed s (n * 10) +ℤ signed s (d - 0x30) ≡ signed s (n * 10 + (d - 0x30)) =
      signed-add s (n * 10) (d - 0x30) in
    let rest : integer_after (parse_digits s (signed s (n * 10 + (d - 0x30))) ds)
        ≡ integer_create (signed s (spelled (n * 10 + (d - 0x30)) ds)) =
      parsed s ds (n * 10 + (d - 0x30)) h.1 in
    let large : 2 ^ 63 ≤ n * 10 + (d - 0x30)
        → integer_create (signed s (spelled (n * 10 + (d - 0x30)) ds)) ≡ none =
      λ l.
        too_large s (spelled (n * 10 + (d - 0x30)) ds)
          (omega (arith, l, spelled-le ds (n * 10 + (d - 0x30)))) in
    rw (shifted s n, digit s d h.0, sum)
      (elim (Bool-cases (fits 63 (signed s (n * 10)))) [
        | inl e ↦ elim (Bool-cases (fits 63 (signed s (n * 10 + (d - 0x30))))) [
          | inl f ↦ rw (e, f) rest
          | inr f ↦ rw (e, f) (sym (large (too_large_magnitude s (n * 10 + (d - 0x30)) f)))
        ]
        | inr e ↦ rw (e) (sym (large (omega (arith, too_large_magnitude s (n * 10) e))))
      ])

-- A numeral is digits, with a sign or without one.
pub data Sign : Type 0 where
  unsigned plus minus : Sign

abbrev pub numeral : Sign → List ℕ → List ℕ
numeral unsigned digits = digits
numeral plus digits = 0x2B ∷ digits
numeral minus digits = 0x2D ∷ digits

abbrev pub spells : Sign → List ℕ → ℤ
spells unsigned digits = pos (spelled 0 digits)
spells plus digits = pos (spelled 0 digits)
spells minus digits = negate (pos (spelled 0 digits))

-- Parsing decimal digits, with a sign or without, creates the integer that they spell, and exits
-- where that integer does not fit in 56 bits, for a digit string of any length.
pub integer_parse-numeral :
    (s : Sign) (ds : List ℕ)
    → All IsDigit ds
    → integer_parse (numeral s ds) ≡ integer_create (spells s ds)
unfolding integer_parse signed negate
integer_parse-numeral unsigned [] h = parsed false [] 0 h
integer_parse-numeral unsigned (d ∷ ds) h =
    let no_minus : (d == 0x2D) ≡ false = ground (arith, h.0) in
    let no_plus : (d == 0x2B) ≡ false = ground (arith, h.0) in
    rw (no_minus, no_plus) (parsed false (d ∷ ds) 0 h)
integer_parse-numeral plus ds h = parsed false ds 0 h
integer_parse-numeral minus ds h = parsed true ds 0 h
