-- ===== src/Collector/Native.antt =====
-- The scan of the native stack, as a marking and a pinning of what the tests of the scan let through.
use lone.Prelude.{
  ℕ, ◌-◌, ◌*◌, ◌/◌, ◌%◌, ◌<◌, ◌≡◌, ◌≢◌, ◌⊎◌, inl, inr, refl, sym, ap, ◌∙◌, arith, Bool, true, false,
  List, [], ◌∷◌, Option, some, ◌==◌, ◌&&◌, leb, ltb, if◌then◌else◌, Bool-cases, length,
}
use lone.Bits.{get, mark}
use lone.Value.{heap_index}
use lone.Collector.{
  ObjectHeap, Marked, points_to_heap, pin_and_mark, mark_native_word, mark_native_words,
}
use lone.Collector.Count.{unset_bits_mono}
use lone.Collector.Marking.{
  IsBitmap, dead_bits, Marks, idle, chained, restarted, mark_heap_value-Ends, mark-get,
}

module _ (values : ℕ) (heap : ObjectHeap) where
  -- What a word of the native stack may refer to: a pointer into the heap, or a tagged value.
  abbrev pub MayPoint : ℕ → ℕ → Type 0
  MayPoint word index = (points_to_heap values heap word ≡ true) × (index ≡ (word - values) / 64)

  abbrev pub MayTag : ℕ → ℕ → Type 0
  MayTag word index =
      ((word % 2 == 0 && leb (word % 256) 0x1E && ltb (heap_index word) heap.count) ≡ true)
      × (index ≡ heap_index word)

  abbrev pub MayRefer : List ℕ → ℕ → Type 0
  MayRefer [] index = ⊥
  MayRefer (word ∷ words) index = (MayPoint word index ⊎ MayTag word index) ⊎ MayRefer words index

  -- Values pinned from some values on.
  abbrev pub Pins : (ℕ → Type 0) → List ℕ → List ℕ → Type 0
  Pins Start pinned after =
      IsBitmap heap after
      × ((x : ℕ) → get after x ≡ true → (get pinned x ≡ true) ⊎ Start x)
      × ((x : ℕ) → get pinned x ≡ true → get after x ≡ true)
      × ((a : ℕ) → Start a → get heap.live a ≡ true → get after a ≡ true)

  -- A step that marks and pins ends.
  abbrev pub PinEnds : (ℕ → Type 0) → Marked → Option Marked → Type 0
  PinEnds Start bits result =
      (after : Marked) × (result ≡ some after)
      × Marks heap Start bits.0 after.0
      × Pins Start bits.1 after.1

  nothing :
      (Start : ℕ → Type 0) (bits : Marked)
      → IsBitmap heap bits.0
      → IsBitmap heap bits.1
      → ((a : ℕ) → Start a → get heap.live a ≢ true)
      → PinEnds Start bits (some bits)
  nothing Start bits w v none_live = (
    bits,
    refl,
    idle heap Start bits.0 w (λ a s l. absurd (none_live a s l)),
    (v, (λ x e. inl e), (λ x e. e), λ a s l. absurd (none_live a s l)),
  )

  then-Pins :
      (First Second : ℕ → Type 0) (bits between after : Marked)
      → Marks heap First bits.0 between.0
      → Pins First bits.1 between.1
      → Marks heap Second between.0 after.0
      → Pins Second between.1 after.1
      → Marks heap (λ a. First a ⊎ Second a) bits.0 after.0
        × Pins (λ a. First a ⊎ Second a) bits.1 after.1
  then-Pins First Second bits between after m p n q = (
    chained heap First Second bits.0 between.0 after.0 m n,
    (
      q.0,
      (λ x e. elim (q.1 x e) [
        | inr s ↦ inr (inr s)
        | inl f ↦ elim (p.1 x f) [ inl g ↦ inl g | inr s ↦ inr (inl s) ]
      ]),
      (λ x e. q.2 x (p.2 x e)),
      λ a s l. elim s [ inl f ↦ q.2 a (p.3 a f l) | inr f ↦ q.3 a f l ],
    ),
  )

  pin_and_mark-Ends :
      (rounds index : ℕ) (bits : Marked)
      → IsBitmap heap bits.0
      → IsBitmap heap bits.1
      → dead_bits heap bits.0 < rounds
      → PinEnds (λ a. a ≡ index) bits (pin_and_mark rounds heap index bits)
  unfolding pin_and_mark
  pin_and_mark-Ends rounds index bits w v enough = elim (Bool-cases (get heap.live index)) [
    | inr dead ↦ rw (dead) (
        nothing (λ a. a ≡ index) bits w v
          (λ a s l. let g = sym l ∙ ap (get heap.live) s ∙ dead in cc))
    | inl live ↦
        let r = mark_heap_value-Ends heap rounds index bits.0 w enough in
        let g = mark-get heap index bits.1 v live in
        (
          (r.0, mark bits.1 index),
          rw (pin_and_mark, live, r.1) refl,
          r.2,
          (
            g.0,
            (λ x e. elim (Bool-cases (index == x)) [
              | inl s ↦ inr (ground (arith, s))
              | inr s ↦ inl (let m = g.1 x in ground (arith, m, s, e))
            ]),
            (λ x e. let m = g.1 x in ground (arith, m, e)),
            λ a s l. let m = g.1 a in ground (arith, m, s),
          ),
        )
  ]

  -- A step that is taken where a test holds.
  tested :
      (test : Bool) (index rounds : ℕ) (bits : Marked)
      → IsBitmap heap bits.0
      → IsBitmap heap bits.1
      → dead_bits heap bits.0 < rounds
      → PinEnds
          (λ a. (test ≡ true) × (a ≡ index))
          bits
          (if test then pin_and_mark rounds heap index bits else some bits)
  tested true index rounds bits w v enough =
      let r = pin_and_mark-Ends rounds index bits w v enough in
      (
        r.0,
        r.1,
        restarted heap (λ a. a ≡ index) (λ a. (true ≡ true) × (a ≡ index)) bits.0 r.0.0
            (λ a s. (refl, s)) (λ a s. s.1) r.2,
        (
          r.3.0,
          (λ x e. elim (r.3.1 x e) [ inl f ↦ inl f | inr s ↦ inr (refl, s) ]),
          r.3.2,
          λ a s l. r.3.3 a s.1 l,
        ),
      )
  tested false index rounds bits w v enough =
      nothing (λ a. (false ≡ true) × (a ≡ index)) bits w v (λ a s l. let f = s.0 in cc)

  word-Ends :
      (rounds word : ℕ) (bits : Marked)
      → IsBitmap heap bits.0
      → IsBitmap heap bits.1
      → dead_bits heap bits.0 < rounds
      → PinEnds
          (λ a. MayPoint word a ⊎ MayTag word a)
          bits
          (mark_native_word rounds values heap word bits)
  unfolding mark_native_word
  word-Ends rounds word bits w v enough =
      let first =
        tested (points_to_heap values heap word) ((word - values) / 64) rounds bits w v enough in
      let fewer = unset_bits_mono (8 * length heap.live) bits.0 first.0.0 first.2.keeps in
      let second =
        tested (word % 2 == 0 && leb (word % 256) 0x1E && ltb (heap_index word) heap.count)
          (heap_index word) rounds first.0 first.2.bitmap first.3.0
          (omega (arith, fewer, enough)) in
      let both =
        then-Pins (MayPoint word) (MayTag word) bits first.0 second.0 first.2 first.3 second.2
          second.3 in
      (second.0, rw (mark_native_word, first.1) second.1, both.0, both.1)

  pub words-Ends :
      (rounds : ℕ) (words : List ℕ) (bits : Marked)
      → IsBitmap heap bits.0
      → IsBitmap heap bits.1
      → dead_bits heap bits.0 < rounds
      → PinEnds (MayRefer words) bits (mark_native_words rounds values heap words bits)
  unfolding mark_native_words
  words-Ends rounds [] bits w v enough = nothing (MayRefer []) bits w v (λ a s l. absurd s)
  words-Ends rounds (word ∷ words) bits w v enough =
      let first = word-Ends rounds word bits w v enough in
      let fewer = unset_bits_mono (8 * length heap.live) bits.0 first.0.0 first.2.keeps in
      let rest =
        words-Ends rounds words first.0 first.2.bitmap first.3.0 (omega (arith, fewer, enough)) in
      let both =
        then-Pins (λ a. MayPoint word a ⊎ MayTag word a) (MayRefer words) bits first.0 rest.0
          first.2 first.3 rest.2 rest.3 in
      (rest.0, rw (mark_native_words, first.1) rest.1, both.0, both.1)
