-- ===== src/Bits/Scan/Words.antt =====
-- A word of the bitmap, and its eight bytes one by one.
use lone.Prelude.{
  IsByte, ℕ, zero, suc, ◌+◌, ◌-◌, ◌*◌, ◌/◌, ◌%◌, ◌^◌, ◌≤◌, ◌<◌, ◌≡◌, ◌≢◌, refl, fun_ext, ap, ◌∙◌,
  sym, arith, Bool, true, false, List, [], ◌∷◌, ◌++◌, map, Option, some, none, if◌then◌else◌,
  length, All, ◌==◌, take, drop, take-append-drop, length-drop, drop-drop, take-length,
}
use native.Mathlib.Decide.{ℕ_discrete}
use native.Mathlib.Nat.{one-le-pow}
use lone.Bytes.Endian.{u64le_read_sum}
use lone.Bits.{
  clz, bswap64, load_word_msb_first, find_first_one_in_byte, Progress, found, reached, scan_bytes,
  scan_words, scan, word_mask, count_leading_unaligned_bytes,
}
use lone.Bits.Clz.{two_pow-add, clz_skip, clz_field}

-- The number that a sequence of bytes stands for, the first byte the highest.
abbrev big : List ℕ → ℕ
big [] = 0
big (c ∷ cs) = c * 2 ^ (8 * length cs) + big cs

big-lt : (cs : List ℕ) → All IsByte cs → big cs < 2 ^ (8 * length cs)
big-lt [] h = omega arith
big-lt (c ∷ cs) h =
    let e : 2 ^ (8 * length (c ∷ cs)) ≡ 256 * 2 ^ (8 * length cs) =
      ap (λ (t : ℕ). 2 ^ t) (let e : 8 * length (c ∷ cs) ≡ 8 + 8 * length cs = omega arith in e)
      ∙ two_pow-add 8 (8 * length cs) in
    rw e (grind (arith, big-lt cs h.1))

pub find_first_one_in_byte_lem : (c : ℕ) → c < 256 → c ≢ 0 → find_first_one_in_byte c ≡ clz 8 c
unfolding find_first_one_in_byte
find_first_one_in_byte_lem c h ne =
    ap (λ (t : ℕ). clz 32 t) (let e : c * 2 ^ 24 % 2 ^ 32 ≡ c * 2 ^ 24 + 0 = omega arith in e)
    ∙ clz_field 8 24 c 0 h ne (omega arith)

positive : (c k : ℕ) → c ≢ 0 → 0 < c * 2 ^ k
positive c k ne = grind (arith, one-le-pow k 2)

-- Counting the leading zeros of the number finds the first bit that is set in its bytes.
clz-big :
    (cs : List ℕ) (i : ℕ)
    → All IsByte cs
    → (if big cs == 0
        then reached (i + 8 * length cs)
        else found (i + clz (8 * length cs) (big cs)))
      ≡ scan_bytes true cs i
unfolding scan_bytes
clz-big [] i h = ground arith
clz-big (c ∷ cs) i h = elim (ℕ_discrete c 0) [
  | yes e ↦ ground (
    arith,
    ap (λ (t : ℕ). t * 2 ^ (8 * length cs)) e,
    clz_skip 8 (8 * length cs) (big cs) (big-lt cs h.1),
    clz-big cs (i + 8) h.1,
  )
  | no ne ↦ ground (
    arith,
    positive c (8 * length cs) ne,
    find_first_one_in_byte_lem c h.0 ne,
    clz_field 8 (8 * length cs) c (big cs) h.0 ne (big-lt cs h.1),
  )
]

-- The byte swap puts the first byte on top.
load_word_lem :
    (a b c d e f g h : ℕ) (rest : List ℕ)
    → All IsByte (a ∷ b ∷ c ∷ d ∷ e ∷ f ∷ g ∷ h ∷ rest)
    → load_word_msb_first (a ∷ b ∷ c ∷ d ∷ e ∷ f ∷ g ∷ h ∷ rest)
      ≡ big (a ∷ b ∷ c ∷ d ∷ e ∷ f ∷ g ∷ h ∷ [])
unfolding load_word_msb_first bswap64
load_word_lem a b c d e f g h rest bytes =
    ap bswap64 (u64le_read_sum (a ∷ b ∷ c ∷ d ∷ e ∷ f ∷ g ∷ h ∷ rest) bytes) ∙ omega arith

-- Complementing the bytes of a word complements the word, and turns a search for a zero into one
-- for a one.
flip : ℕ → ℕ
flip b = 2 ^ 8 - 1 - b

complement_field : (c d p : ℕ) → c + d ≡ 255 → c * p + d * p ≡ 255 * p
complement_field c d p e = omega (arith, ap (λ (t : ℕ). t * p) e)

length-flip : (cs : List ℕ) → length (map flip cs) ≡ length cs
length-flip [] = refl
length-flip (c ∷ cs) = ap suc (length-flip cs)

big-flip : (cs : List ℕ) → All IsByte cs → big (map flip cs) + big cs + 1 ≡ 2 ^ (8 * length cs)
unfolding flip
big-flip [] h = refl
big-flip (c ∷ cs) h =
    let width : 2 ^ (8 * length (c ∷ cs)) ≡ 256 * 2 ^ (8 * length cs) =
      ap (λ (t : ℕ). 2 ^ t) (let e : 8 * length (c ∷ cs) ≡ 8 + 8 * length cs = omega arith in e)
      ∙ two_pow-add 8 (8 * length cs) in
    rw (width, length-flip cs)
      (omega
        (arith, big-flip cs h.1, complement_field c (flip c) (2 ^ (8 * length cs)) (omega arith)))

scan_bytes-flip :
    (bs : List ℕ) (i : ℕ) → All IsByte bs → scan_bytes false bs i ≡ scan_bytes true (map flip bs) i
unfolding scan_bytes flip
scan_bytes-flip [] i h = refl
scan_bytes-flip (b ∷ bs) i h = ground (arith, scan_bytes-flip bs (i + 8) h.1)

-- What the word loop does with a word, in terms of its bytes.
abbrev whole : ℕ → ℕ → Progress
whole w i = if w == 0 then reached (i + 64) else found (i + clz 64 w)

flip_test :
    (w i : ℕ)
    → w ≤ 2 ^ 64 - 1
    → (if w == 2 ^ 64 - 1 then reached (i + 64) else found (i + clz 64 (2 ^ 64 - 1 - w)))
      ≡ whole (2 ^ 64 - 1 - w) i
flip_test w i h = ground arith

-- One loop after another.
abbrev pub and_then : Progress → (ℕ → Progress) → Progress
and_then (found i) k = found i
and_then (reached i) k = k i

one_word :
    (bit : Bool) (a b c d e f g h i : ℕ) (rest : List ℕ)
    → All IsByte (a ∷ b ∷ c ∷ d ∷ e ∷ f ∷ g ∷ h ∷ rest)
    → let w = load_word_msb_first (a ∷ b ∷ c ∷ d ∷ e ∷ f ∷ g ∷ h ∷ rest) in
      (if w == word_mask bit
        then reached (i + 64)
        else found (i + clz 64 (if bit then w else 2 ^ 64 - 1 - w)))
      ≡ scan_bytes bit (a ∷ b ∷ c ∷ d ∷ e ∷ f ∷ g ∷ h ∷ []) i
one_word true a b c d e f g h i rest bytes =
    let cs = a ∷ b ∷ c ∷ d ∷ e ∷ f ∷ g ∷ h ∷ [] in
    rw (load_word_lem a b c d e f g h rest bytes) (clz-big cs i (omega arith))
one_word false a b c d e f g h i rest bytes =
    let cs = a ∷ b ∷ c ∷ d ∷ e ∷ f ∷ g ∷ h ∷ [] in
    let w = load_word_msb_first (a ∷ b ∷ c ∷ d ∷ e ∷ f ∷ g ∷ h ∷ rest) in
    let small : w ≤ 2 ^ 64 - 1 = omega (arith, load_word_lem a b c d e f g h rest bytes) in
    let flipped : 2 ^ 64 - 1 - w ≡ big (map flip cs) =
      omega (arith, load_word_lem a b c d e f g h rest bytes, big-flip cs (omega arith)) in
    flip_test w i small
    ∙ ap (λ (t : ℕ). whole t i) flipped
    ∙ clz-big (map flip cs) i (unfold flip in omega arith)
    ∙ sym (scan_bytes-flip cs i (omega arith))

scan_bytes-append :
    (bit : Bool) (xs ys : List ℕ) (i : ℕ)
    → scan_bytes bit (xs ++ ys) i ≡ and_then (scan_bytes bit xs i) (scan_bytes bit ys)
unfolding scan_bytes
scan_bytes-append bit [] ys i = refl
scan_bytes-append bit (x ∷ xs) ys i = ground (arith, scan_bytes-append bit xs ys (i + 8))

scan_words_step :
    (bit : Bool) (n i : ℕ) (a b c d e f g h : ℕ) (rest : List ℕ)
    → All IsByte (a ∷ b ∷ c ∷ d ∷ e ∷ f ∷ g ∷ h ∷ rest)
    → scan_words bit (suc n) (a ∷ b ∷ c ∷ d ∷ e ∷ f ∷ g ∷ h ∷ rest) i
      ≡ and_then (scan_bytes bit (a ∷ b ∷ c ∷ d ∷ e ∷ f ∷ g ∷ h ∷ []) i) (scan_words bit n rest)
unfolding scan_words
scan_words_step bit n i a b c d e f g h rest bytes =
    rw (← one_word bit a b c d e f g h i rest bytes) (ground arith)

scan_words_cons :
    (bit : Bool) (n i : ℕ) (a b c d e f g k : ℕ) (p : List ℕ)
    → All IsByte (a ∷ b ∷ c ∷ d ∷ e ∷ f ∷ g ∷ k ∷ p)
    → ((j : ℕ) → scan_words bit n p j ≡ scan_bytes bit (take (n * 8) p) j)
    → scan_words bit (suc n) (a ∷ b ∷ c ∷ d ∷ e ∷ f ∷ g ∷ k ∷ p) i
      ≡ scan_bytes bit (take (suc n * 8) (a ∷ b ∷ c ∷ d ∷ e ∷ f ∷ g ∷ k ∷ p)) i
scan_words_cons bit n i a b c d e f g k p h later =
    let word = a ∷ b ∷ c ∷ d ∷ e ∷ f ∷ g ∷ k ∷ [] in
    scan_words_step bit n i a b c d e f g k p h
    ∙ ap (and_then (scan_bytes bit word i)) (fun_ext later)
    ∙ sym (scan_bytes-append bit word (take (n * 8) p) i)
    ∙ ap (λ (m : ℕ). scan_bytes bit (take m (a ∷ b ∷ c ∷ d ∷ e ∷ f ∷ g ∷ k ∷ p)) i)
        (let e : suc (suc (suc (suc (suc (suc (suc (suc (n * 8)))))))) ≡ suc n * 8 = omega arith in
          e)

-- The loop over words is the loop over their bytes.
pub scan_words-scan_bytes :
    (bit : Bool) (n : ℕ) (p : List ℕ) (i : ℕ)
    → All IsByte p
    → n * 8 ≤ length p
    → scan_words bit n p i ≡ scan_bytes bit (take (n * 8) p) i
unfolding scan_words scan_bytes
scan_words-scan_bytes bit zero p i h enough = refl
scan_words-scan_bytes bit (suc n) (a ∷ b ∷ c ∷ d ∷ e ∷ f ∷ g ∷ k ∷ p) i h enough =
    scan_words_cons bit n i a b c d e f g k p h
      (λ j. scan_words-scan_bytes bit n p j h.1.1.1.1.1.1.1.1 (omega arith))
scan_words-scan_bytes bit (suc n) p i h enough = absurd (omega arith)

-- The bytes of the three phases are the bytes of the bitmap.
three_parts :
    (bits : List ℕ) (l n : ℕ)
    → n ≡ (length bits - l) / 8
    → take l bits
        ++ (take (n * 8) (drop l bits) ++ take ((length bits - l) % 8) (drop (l + n * 8) bits))
      ≡ bits
three_parts bits l n e =
    let rest = drop l bits in
    let tail = drop (n * 8) rest in
    ap (λ (r : List ℕ). take l bits ++ (take (n * 8) rest ++ r))
      (ap (λ (r : List ℕ). take ((length bits - l) % 8) r) (sym (drop-drop l (n * 8) bits))
        ∙ take-length ((length bits - l) % 8) tail
            (omega (arith, length-drop l bits, length-drop (n * 8) rest)))
    ∙ ap (λ (r : List ℕ). take l bits ++ r) (take-append-drop (n * 8) rest)
    ∙ take-append-drop l bits

abbrev pub result : Progress → Option ℕ
result p = elim p [ found i ↦ some i | reached i ↦ none ]

two_phases :
    (p : Progress) (g : ℕ → Progress)
    → (elim p [ found i ↦ some i | reached i ↦ elim (g i) [ found j ↦ some j | reached j ↦ none ] ])
      ≡ result (and_then p g)
two_phases (found i) g = refl
two_phases (reached i) g = refl

three_phases :
    (p : Progress) (f g : ℕ → Progress)
    → (elim p [
      | found i ↦ some i
      | reached i ↦ elim (f i) [
        | found j ↦ some j
        | reached j ↦ elim (g j) [ found k ↦ some k | reached k ↦ none ]
      ]
    ])
      ≡ result (and_then p (λ i. and_then (f i) g))
three_phases (found i) f g = refl
three_phases (reached i) f g = two_phases (f i) g

All-drop : (n : ℕ) (bs : List ℕ) → All IsByte bs → All IsByte (drop n bs)
All-drop zero bs h = h
All-drop (suc n) [] h = h
All-drop (suc n) (b ∷ bs) h = All-drop n bs h.1

-- Whatever the alignment, the scan in three phases returns what a scan byte by byte would.
pub scan-scan_bytes :
    (address : ℕ) (bits : List ℕ) (bit : Bool)
    → All IsByte bits
    → scan address bits bit ≡ result (scan_bytes bit bits 0)
unfolding scan
scan-scan_bytes address bits bit h =
    let l = count_leading_unaligned_bytes address (length bits) in
    let n = (length bits - l) / 8 in
    let middle = take (n * 8) (drop l bits) in
    let trailing = take ((length bits - l) % 8) (drop (l + n * 8) bits) in
    let words : (i : ℕ) → scan_words bit n (drop l bits) i ≡ scan_bytes bit middle i = λ i.
      scan_words-scan_bytes bit n (drop l bits) i (All-drop l bits h)
        (omega (arith, length-drop l bits)) in
    three_phases (scan_bytes bit (take l bits) 0) (scan_words bit n (drop l bits))
      (scan_bytes bit trailing)
    ∙ ap
        (λ (f : ℕ → Progress). result (
          and_then (scan_bytes bit (take l bits) 0)
            (λ i. and_then (f i) (scan_bytes bit trailing))))
        (fun_ext words)
    ∙ ap (λ (f : ℕ → Progress). result (and_then (scan_bytes bit (take l bits) 0) f))
        (fun_ext (λ i. sym (scan_bytes-append bit middle trailing i)))
    ∙ ap result (sym (scan_bytes-append bit (take l bits) (middle ++ trailing) 0))
    ∙ ap (λ (bs : List ℕ). result (scan_bytes bit bs 0)) (three_parts bits l n refl)
