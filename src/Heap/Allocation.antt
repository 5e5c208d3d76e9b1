-- ===== src/Heap/Allocation.antt =====
-- What an allocation gives.
use lone.Prelude.{
  IsByte, ℕ, zero, suc, ◌+◌, ◌-◌, ◌*◌, ◌/◌, ◌%◌, ◌^◌, ◌≤◌, ◌<◌, ◌≡◌, ◌≢◌, refl, sym, ap, ap₂, ◌∙◌,
  arith, Bool, true, false, List, [], ◌∷◌, Option, none, some, ◌==◌, if◌then◌else◌, length, get_or,
  set, drop, All, length-drop, length-set, get_or-drop, get_or-set_ne, get_or-set_self,
  Option-cases, inl, inr,
}
use native.Mathlib.Decide.{ℕ_discrete}
use lone.Bits.{get, find_first_zero, mark}
use lone.Bits.Access.{get-put, put_bytes, get-out_of_range}
use lone.Bits.Scan.{scan-IsFirst}
use lone.Heap.{
  Heap, HeapValue, blank, bitmap_size, grow, reset, occupy, take_found, retry, allocate_value,
}
use lone.Heap.Growth.{IsHeap, grown, grow-grown, grown-IsHeap, get_or-padded, get-padded}

-- What an allocation of the value at `i` changes: the value was dead and is live, with its flags
-- cleared, and every other value is as it was.
abbrev pub Allocated : Heap → Heap → ℕ → Type 0
Allocated before after i =
    (get before.live i ≡ false)
    × (i < after.capacity)
    × ((j : ℕ) → get after.live j ≡ (if i == j then true else get before.live j))
    × ((j : ℕ)
        → get_or after.values j blank
          ≡ (if i == j then reset (get_or before.values i blank) else get_or before.values j blank))
    × (before.capacity ≤ after.capacity)
    × IsHeap after

All-drop : (n : ℕ) (xs : List ℕ) → All IsByte xs → All IsByte (drop n xs)
All-drop zero xs h = h
All-drop (suc n) [] h = h
All-drop (suc n) (x ∷ xs) h = All-drop n xs h.1

get-drop : (n : ℕ) (bits : List ℕ) (i : ℕ) → get (drop n bits) i ≡ get bits (n * 8 + i)
unfolding get
get-drop n bits i =
    let byte : n + i / 8 ≡ (n * 8 + i) / 8 = omega arith in
    let bit : i % 8 ≡ (n * 8 + i) % 8 = omega arith in
    rw (get_or-drop n bits (i / 8) 0, byte, bit) refl

reset_at :
    (values : List HeapValue) (i j : ℕ)
    → i < length values
    → get_or (set values i (reset (get_or values i blank))) j blank
      ≡ (if i == j then reset (get_or values i blank) else get_or values j blank)
reset_at values i j l = elim (ℕ_discrete i j) [
  | yes e ↦
      let test : (i == j) ≡ true = ground (arith, e) in
      rw (test) (
        ap (λ (k : ℕ). get_or (set values i (reset (get_or values i blank))) k blank) (sym e)
        ∙ get_or-set_self values i (reset (get_or values i blank)) blank l)
  | no ne ↦
      let test : (i == j) ≡ false = ground (arith, ne) in
      rw (test) (get_or-set_ne values i j (reset (get_or values i blank)) blank ne)
]

-- Taking a dead value below the capacity.
occupied :
    (h : Heap) (i : ℕ)
    → IsHeap h
    → i < h.capacity
    → get h.live i ≡ false
    → Allocated h (occupy h i) i
unfolding occupy mark
occupied h i w l dead =
    let kept = put_bytes h.live i true w.5 in
    (
      dead,
      l,
      λ j. get-put h.live i j true w.5 (omega (arith, w)),
      λ j. reset_at h.values i j (omega (arith, w)),
      omega arith,
      (
        w.0,
        w.1,
        w.2,
        omega arith,
        kept.1 ∙ w.4,
        kept.0,
        length-set h.values i (reset (get_or h.values i blank)) ∙ w.6,
      ),
    )

-- The first round that finds a dead value takes it.
found_round :
    (remap : ℕ → ℕ → Bool) (fuel offset r : ℕ) (h : Heap)
    → IsHeap h
    → offset ≤ h.capacity / 8
    → find_first_zero offset (drop offset h.live) ≡ some r
    → (retry remap (suc fuel) offset h ≡ some (occupy h (offset * 8 + r), offset * 8 + r))
      × Allocated h (occupy h (offset * 8 + r)) (offset * 8 + r)
unfolding retry take_found find_first_zero
found_round remap fuel offset r h w o e =
    let first =
      rw (e) at (scan-IsFirst offset (drop offset h.live) false (All-drop offset h.live w.5)) in
    (
      ap
          (λ (o : Option ℕ).
            take_found offset h o
              (elim (grow remap h) [ none ↦ none | some g ↦ retry remap fuel offset g ]))
          e,
      occupied h (offset * 8 + r) w (omega (arith, first.0, length-drop offset h.live, w.4, w.1))
          (sym (get-drop offset h.live r) ∙ first.1),
    )

module _ (remap : ℕ → ℕ → Bool) (remaps : (a b : ℕ) → remap a b ≡ true) where
  -- A full bitmap makes the heap grow.
  full_round :
      (fuel offset : ℕ) (h : Heap)
      → h.capacity * 2 ≤ 2 ^ 40
      → find_first_zero offset (drop offset h.live) ≡ none
      → retry remap (suc fuel) offset h ≡ retry remap fuel offset (grown h)
  unfolding retry take_found
  full_round fuel offset h g e =
      ap
        (λ (o : Option ℕ).
          take_found offset h o
            (elim (grow remap h) [ none ↦ none | some r ↦ retry remap fuel offset r ]))
        e
      ∙ ap (λ (o : Option Heap). elim o [ none ↦ none | some r ↦ retry remap fuel offset r ])
          (grow-grown remap remaps h g)

-- After growing, the scan finds a dead value.
grown_not_full :
    (offset : ℕ) (h : Heap)
    → IsHeap h
    → h.capacity * 2 ≤ 2 ^ 40
    → offset ≤ h.capacity / 8
    → find_first_zero offset (drop offset (grown h).live) ≢ none
unfolding find_first_zero
grown_not_full offset h w g o e =
    let w2 = grown-IsHeap h w g in
    let all = rw (e) at (
      scan-IsFirst offset (drop offset (grown h).live) false
        (All-drop offset (grown h).live w2.5)) in
    let j = h.capacity - offset * 8 in
    let place : offset * 8 + j ≡ h.capacity = omega (arith, w.1) in
    let there : get (drop offset (grown h).live) j ≡ true =
      all j (omega (arith, length-drop offset (grown h).live, w2.4, w.0, w.1)) in
    let dead : get (drop offset (grown h).live) j ≡ false =
      get-drop offset (grown h).live j
      ∙ ap (get (grown h).live) place
      ∙ get-padded h.live (bitmap_size (h.capacity * 2) - bitmap_size h.capacity) h.capacity
      ∙ get-out_of_range h.live h.capacity (omega (arith, w.4)) in
    ground (arith, there, dead)

-- An allocation seen from before the growth.
ungrown : (h : Heap) (after : Heap) (i : ℕ) → Allocated (grown h) after i → Allocated h after i
ungrown h after i a =
    let k = bitmap_size (h.capacity * 2) - bitmap_size h.capacity in
    let n = h.capacity * 2 - h.capacity in
    (
      sym (get-padded h.live k i) ∙ a.0,
      a.1,
      λ j. a.2 j ∙ ap (λ (b : Bool). if i == j then true else b) (get-padded h.live k j),
      λ j.
          a.3 j
          ∙ ap₂ (λ (x y : HeapValue). if i == j then reset x else y)
              (get_or-padded h.values n i blank) (get_or-padded h.values n j blank),
      omega (arith, a.4),
      a.5,
    )

-- With two rounds or more and a kernel that grants the memory, an allocation in a heap below half of
-- the index range returns a value that was dead: it is within the capacity and live afterwards with
-- its flags cleared, no other value and no other live bit has changed, and the heap is well-formed.
pub allocate_value-Allocated :
    (remap : ℕ → ℕ → Bool) (fuel : ℕ) (h : Heap)
    → ((a b : ℕ) → remap a b ≡ true)
    → IsHeap h
    → h.capacity * 2 ≤ 2 ^ 40
    → (after : Heap) × (i : ℕ) × (allocate_value remap (suc (suc fuel)) h ≡ some (after, i))
      × Allocated h after i
unfolding allocate_value
allocate_value-Allocated remap fuel h remaps w g =
    let offset = h.first_dead / 8 in
    let within : offset ≤ h.capacity / 8 = omega (arith, w.3) in
    elim (Option-cases (find_first_zero offset (drop offset h.live))) [
      | inr (r, e) ↦
          let a = found_round remap (suc fuel) offset r h w within e in
          (occupy h (offset * 8 + r), offset * 8 + r, a.0, a.1)
      | inl e ↦ elim (Option-cases (find_first_zero offset (drop offset (grown h).live))) [
        | inl none_left ↦ absurd (grown_not_full offset h w g within none_left)
        | inr (r, f) ↦
            let a =
              found_round remap fuel offset r (grown h) (grown-IsHeap h w g) (omega (arith, within))
                f in
            (
              occupy (grown h) (offset * 8 + r),
              offset * 8 + r,
              full_round remap remaps (suc fuel) offset h g e ∙ a.0,
              ungrown h (occupy (grown h) (offset * 8 + r)) (offset * 8 + r) a.1,
            )
      ]
    ]
