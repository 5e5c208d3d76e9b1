-- ===== src/Collector/Sweep/Outcome.antt =====
-- What the sweep leaves of a heap.
use lone.Prelude.{
  ℕ, zero, suc, ◌+◌, ◌-◌, ◌*◌, ◌≤◌, ◌<◌, ◌≡◌, ◌⊎◌, inl, inr, refl, sym, ap, ◌∙◌, arith, true, false,
  List, ltb, ◌==◌, not, ◌&&◌, if◌then◌else◌, length, All, IsByte, Bool-cases, get_or, replicate,
  ◌/◌, ◌%◌, ◌^◌, zero-bit_and,
}
use mathlib.Core.Path.{subst}
use native.Mathlib.Decide.{ℕ_discrete}
use lone.Bits.{get, get_bit, clear}
use lone.Bits.Access.{get-put, put_bytes}
use lone.Collector.{ObjectHeap}
use lone.Collector.Sweep.{SweepState, Swept, sweep_value, sweep_values, kill_all_unmarked}

module _ (count : ℕ) (before marked : List ℕ) where
  -- The values below `i` are swept.
  pub record IsSwept (i : ℕ) (s : SweepState) : Type 0 where
    pub bytes : All IsByte s.live
    pub size : length s.live ≡ length before
    pub done : (x : ℕ) → x < i → get s.live x ≡ (get before x && get marked x)
    pub rest : (x : ℕ) → i ≤ x → get s.live x ≡ get before x
    pub lowest : (x : ℕ) → x < i → x < s.first_dead → get s.live x ≡ true
    pub dead : ((s.first_dead < i) × (get s.live s.first_dead ≡ false)) ⊎ (s.first_dead ≡ count)
    pub highest : (x : ℕ) → x < i → get s.live x ≡ true → x ≤ s.last_live
    pub last : (s.last_live ≡ 0) ⊎ ((s.last_live < i) × (get s.live s.last_live ≡ true))

  module _ (i : ℕ) (s : SweepState) (low : i < count) (inside : count ≤ 8 * length before)
      (w : IsSwept i s) where
    cleared : (j : ℕ) → get (clear s.live i) j ≡ (if i == j then false else get s.live j)
    unfolding clear
    cleared j = get-put s.live i j false w.bytes (omega (arith, w.size))

    cleared_bytes : All IsByte (clear s.live i) × (length (clear s.live i) ≡ length s.live)
    unfolding clear
    cleared_bytes = put_bytes s.live i false w.bytes

    abbrev lower : ℕ
    lower = if ltb i s.first_dead then i else s.first_dead

    abbrev lowered : List ℕ → SweepState
    lowered live = record { live = live; first_dead = lower; last_live = s.last_live }

    abbrev kept_value : SweepState
    kept_value = record { live = s.live; first_dead = s.first_dead; last_live = i }

    -- A value that is dead, or dies: the bitmap afterwards has its bit clear, and the others as before.
    lowered-IsSwept :
        (live : List ℕ)
        → All IsByte live
        → length live ≡ length before
        → ((j : ℕ) → get live j ≡ (if i == j then false else get s.live j))
        → (get before i && get marked i) ≡ false
        → IsSwept (suc i) (lowered live)
    lowered-IsSwept live b n at no_mark = record {
      bytes = b;
      size = n;
      done = λ x l. elim (ℕ_discrete i x) [
        | yes e ↦
            let g = at x in
            let m = ap (λ (y : ℕ). get before y && get marked y) (sym e) ∙ no_mark in
            ground (arith, g, e, m)
        | no ne ↦ let g = at x in let d = w.done x (omega arith) in ground (arith, g, ne, d)
      ];
      rest = λ x l. let g = at x in let r = w.rest x (omega arith) in ground (arith, g, r, l);
      lowest = λ x l m.
          let g = at x in
          elim (ℕ_discrete i x) [
            | yes e ↦ absurd (ground (arith, e, m))
            | no ne ↦
                let o = w.lowest x (omega arith) (ground (arith, m)) in ground (arith, g, ne, o)
          ];
      dead = elim (Bool-cases (ltb i s.first_dead)) [
        | inl e ↦ inl (ground (arith, e), let g = at i in rw (e) (ground (arith, g)))
        | inr e ↦ elim w.dead [
          | inl d ↦ inl (
            ground (arith, e, d.0),
            let g = at s.first_dead in let f = d.1 in rw (e) (ground (arith, g, f)),
          )
          | inr d ↦ absurd (ground (arith, e, d))
        ]
      ];
      highest = λ x l m.
          let g = at x in
          elim (ℕ_discrete i x) [
            | yes e ↦ absurd (ground (arith, g, e, m))
            | no ne ↦ w.highest x (omega arith) (ground (arith, g, ne, m))
          ];
      last = elim w.last [
        | inl e ↦ inl e
        | inr e ↦ inr (
          omega (arith, e.0),
          let g = at s.last_live in let f = e.1 in let l = e.0 in ground (arith, g, f, l),
        )
      ];
    }

    kept-IsSwept : get s.live i ≡ true → get marked i ≡ true → IsSwept (suc i) kept_value
    kept-IsSwept live mark = record {
      bytes = w.bytes;
      size = w.size;
      done = λ x l. elim (ℕ_discrete i x) [
        | yes e ↦
            let r = w.rest i (omega arith) in
            let here : get s.live i ≡ (get before i && get marked i) =
              ground (arith, r, live, mark) in
            ap (get s.live) (sym e) ∙ here ∙ ap (λ (y : ℕ). get before y && get marked y) e
        | no ne ↦ w.done x (omega arith)
      ];
      rest = λ x l. w.rest x (omega arith);
      lowest = λ x l m. elim (ℕ_discrete i x) [
        | yes e ↦ ap (get s.live) (sym e) ∙ live
        | no ne ↦ w.lowest x (omega arith) m
      ];
      dead = elim w.dead [ inl d ↦ inl (omega (arith, d.0), d.1) | inr d ↦ inr d ];
      highest = λ x l m. omega arith;
      last = inr (omega arith, live);
    }

    step : IsSwept (suc i) (sweep_value marked i s)
    unfolding sweep_value
    step = elim (Bool-cases (get s.live i)) [
      | inr dead ↦
          let r = w.rest i (omega arith) in
          rw (dead) (
            lowered-IsSwept s.live w.bytes w.size
              (λ j. elim (ℕ_discrete i j) [
                | yes e ↦ let f = ap (get s.live) (sym e) ∙ dead in ground (arith, e, f)
                | no ne ↦ ground (arith, ne)
              ])
              (ground (arith, r, dead)))
      | inl live ↦ elim (Bool-cases (get marked i)) [
        | inr no_mark ↦
            let b = cleared_bytes in
            rw (live, no_mark)
              (lowered-IsSwept (clear s.live i) b.0 (b.1 ∙ w.size) cleared
                (ground (arith, no_mark)))
        | inl mark ↦ rw (live, mark) (kept-IsSwept live mark)
      ]
    ]

  values-IsSwept :
      count ≤ 8 * length before
      → (left i : ℕ) (s : SweepState) → i + left ≡ count
      → IsSwept i s
      → IsSwept count (sweep_values left marked i s)
  unfolding sweep_values
  values-IsSwept inside zero i s e w =
      let all : i ≡ count = omega arith in subst (λ (n : ℕ). IsSwept n s) all w
  values-IsSwept inside (suc left) i s e w =
      let up : suc i ≡ i + 1 = omega arith in
      let next : IsSwept (i + 1) (sweep_value marked i s) =
        subst (λ (n : ℕ). IsSwept n (sweep_value marked i s)) up
          (step i s (omega (arith, e)) inside w) in
      values-IsSwept inside left (i + 1) (sweep_value marked i s) (omega (arith, e)) next

zero_bytes : (n i : ℕ) → ◌≡◌ {A = ℕ} (get_or (replicate n 0) i 0) 0
zero_bytes zero i = refl
zero_bytes (suc n) zero = refl
zero_bytes (suc n) (suc i) = zero_bytes n i

zero_bits : (n x : ℕ) → get (replicate n 0) x ≡ false
unfolding get get_bit
zero_bits n x = rw (zero_bytes n (x / 8), zero-bit_and (2 ^ (7 - x % 8))) refl

-- What holds of a heap of so many values once it is swept.
abbrev pub IsOutcome : ℕ → List ℕ → List ℕ → Swept → Type 0
IsOutcome count live marked after =
    ((x : ℕ) → x < count → get after.live x ≡ (get live x && get marked x))
    × ((x : ℕ) → count ≤ x → get after.live x ≡ get live x)
    × ((x : ℕ) → x < count → x < after.first_dead → get after.live x ≡ true)
    × (((after.first_dead < count) × (get after.live after.first_dead ≡ false))
        ⊎ (after.first_dead ≡ count))
    × ((x : ℕ) → x < count → get after.live x ≡ true → x < after.count)
    × ((after.count ≡ 0) ⊎ ((after.count ≤ count) × (get after.live (after.count - 1) ≡ true)))
    × ((x : ℕ) → get after.marked x ≡ false)

-- The new number of values.
abbrev count_after : ℕ → List ℕ → ℕ → ℕ
count_after count live last =
    if last == 0 && not (get live 0) then 0 else if ltb (last + 1) count then last + 1 else count

above :
    (count : ℕ) (live : List ℕ) (last x : ℕ)
    → x < count
    → x ≤ last
    → get live x ≡ true
    → x < count_after count live last
above count live last x l m e = elim (ℕ_discrete x 0) [
  | no ne ↦ ground (arith, l, m, ne)
  | yes z ↦ let f : get live 0 ≡ true = ap (get live) (sym z) ∙ e in ground (arith, l, m, f)
]

-- With a live value at `last`.
at_last :
    (count : ℕ) (live : List ℕ) (last : ℕ)
    → last < count
    → get live last ≡ true
    → (count_after count live last ≤ count) × (get live (count_after count live last - 1) ≡ true)
at_last count live last l e =
    let some_live : (last == 0 && not (get live 0)) ≡ false = elim (ℕ_discrete last 0) [
      | yes z ↦ let f : get live 0 ≡ true = ap (get live) (sym z) ∙ e in ground (arith, f)
      | no ne ↦ ground (arith, ne)
    ] in
    let value : count_after count live last ≡ last + 1 = ground (arith, some_live, l) in
    let place : last + 1 - 1 ≡ last = omega arith in
    (omega (arith, value, l), ap (λ (n : ℕ). get live (n - 1)) value ∙ ap (get live) place ∙ e)

tight :
    (count : ℕ) (live : List ℕ) (last : ℕ)
    → (last ≡ 0) ⊎ ((last < count) × (get live last ≡ true))
    → (count_after count live last ≡ 0)
      ⊎ ((count_after count live last ≤ count)
          × (get live (count_after count live last - 1) ≡ true))
tight count live last (inr h) = inr (at_last count live last h.0 h.1)
tight count live last (inl z) = elim (Bool-cases (get live 0)) [
  | inr e ↦ inl (ground (arith, z, e))
  | inl e ↦ elim (ℕ_discrete count 0) [
    | yes none_there ↦ inl (ground (arith, z, e, none_there))
    | no some_there ↦ inr (at_last count live last (omega arith) (ap (get live) z ∙ e))
  ]
]

-- In a heap within its bitmap, the values that stay live after the sweep are those that were live
-- and marked, and nothing beyond the heap's values changes; the first dead index is the lowest dead
-- one, or the number of values if all are live; the new number of values lies right above the
-- highest live one, or is zero; and no value is marked.
pub kill_all_unmarked-IsOutcome :
    (heap : ObjectHeap) (marked : List ℕ)
    → All IsByte heap.live
    → heap.count ≤ 8 * length heap.live
    → IsOutcome heap.count heap.live marked (kill_all_unmarked heap marked)
unfolding kill_all_unmarked
kill_all_unmarked-IsOutcome heap marked b inside =
    let s =
      sweep_values heap.count marked 0
        (record { live = heap.live; first_dead = heap.count; last_live = 0 }) in
    let w =
      values-IsSwept heap.count heap.live marked inside heap.count 0
        (record { live = heap.live; first_dead = heap.count; last_live = 0 }) (omega arith)
        (record {
          bytes = b;
          size = refl;
          done = λ x l. absurd (omega (arith, l));
          rest = λ x l. refl;
          lowest = λ x l m. absurd (omega (arith, l));
          dead = inr refl;
          highest = λ x l m. absurd (omega (arith, l));
          last = inl refl;
        }) in
    (
      w.done,
      w.rest,
      w.lowest,
      w.dead,
      (λ x l e. above heap.count s.live s.last_live x l (w.highest x l e) e),
      tight heap.count s.live s.last_live w.last,
      zero_bits (length marked),
    )
