-- ===== src/Collector/Marking.antt =====
-- The marking of what a value or a list of words refers to.
use lone.Prelude.{
  ℕ, zero, suc, ◌+◌, ◌*◌, ◌%◌, ◌<◌, ◌≡◌, ◌≢◌, ◌⊎◌, inl, inr, refl, sym, ap, ◌∙◌, arith, true, false,
  List, [], ◌∷◌, Option, some, ◌==◌, if◌then◌else◌, Bool-cases, length, All, IsByte,
}
use mathlib.Core.Path.{subst}
use native.Mathlib.Decide.{ℕ_discrete, dec_lt}
use lone.Bits.{get, mark}
use lone.Bits.Access.{get-put, get-out_of_range, put_bytes}
use lone.Value.{heap_index}
use lone.Collector.{ObjectHeap, object_at, references, mark_value, mark_values, mark_heap_value}
use lone.Collector.Count.{unset_bits, unset_bits_mono, unset_bits_fewer}
use lone.Collector.Reachability.{Reaches, here, through}
use lone.Collector.References.{Refers, Refers-Holds}

module _ (heap : ObjectHeap) where
  -- A bitmap of the heap's size.
  abbrev pub IsBitmap : List ℕ → Type 0
  IsBitmap bits = All IsByte bits × (length bits ≡ length heap.live)

  abbrev pub dead_bits : List ℕ → ℕ
  dead_bits bits = unset_bits (8 * length heap.live) bits

  -- A marking from some values on: marks are kept, only what is reached is added, what a newly
  -- marked value refers to is marked, and so are the values it starts from.
  pub record Marks (Start : ℕ → Type 0) (bits after : List ℕ) : Type 0 where
    pub bitmap : IsBitmap after
    pub keeps : (x : ℕ) → get bits x ≡ true → get after x ≡ true
    pub only :
        (x : ℕ) → get after x ≡ true → (get bits x ≡ true) ⊎ ((a : ℕ) × Start a × Reaches heap a x)
    pub closed :
        (x y : ℕ)
        → get after x ≡ true
        → get bits x ≡ false
        → Refers (references (object_at heap x)) y
        → get heap.live y ≡ true
        → get after y ≡ true
    pub starts : (a : ℕ) → Start a → get heap.live a ≡ true → get after a ≡ true

  -- Nothing to mark.
  pub idle :
      (Start : ℕ → Type 0) (bits : List ℕ)
      → IsBitmap bits
      → ((a : ℕ) → Start a → get heap.live a ≡ true → get bits a ≡ true)
      → Marks Start bits bits
  idle Start bits w done = record {
    bitmap = w;
    keeps = λ x e. e;
    only = λ x e. inl e;
    closed = λ x y e f r l. absurd (let g = sym e ∙ f in cc);
    starts = done;
  }

  -- One marking after the other.
  pub chained :
      (First Second : ℕ → Type 0) (bits between after : List ℕ)
      → Marks First bits between
      → Marks Second between after
      → Marks (λ a. First a ⊎ Second a) bits after
  chained First Second bits between after m n = record {
    bitmap = n.bitmap;
    keeps = λ x e. n.keeps x (m.keeps x e);
    only = λ x e. elim (n.only x e) [
      | inr r ↦ inr (r.0, inr r.1, r.2)
      | inl f ↦ elim (m.only x f) [ inl g ↦ inl g | inr r ↦ inr (r.0, inl r.1, r.2) ]
    ];
    closed = λ x y e f r l. elim (Bool-cases (get between x)) [
      | inl g ↦ n.keeps y (m.closed x y g f r l)
      | inr g ↦ n.closed x y e g r l
    ];
    starts = λ a s l. elim s [ inl p ↦ n.keeps a (m.starts a p l) | inr p ↦ n.starts a p l ];
  }

  -- The same marking from values described otherwise.
  pub restarted :
      (First Second : ℕ → Type 0) (bits after : List ℕ)
      → ((a : ℕ) → First a → Second a)
      → ((a : ℕ) → Second a → First a)
      → Marks First bits after
      → Marks Second bits after
  restarted First Second bits after to from m = record {
    bitmap = m.bitmap;
    keeps = m.keeps;
    only = λ x e. elim (m.only x e) [ inl f ↦ inl f | inr r ↦ inr (r.0, to r.0 r.1, r.2) ];
    closed = m.closed;
    starts = λ a s l. m.starts a (from a s) l;
  }

  -- A marking that ends, from a bitmap with few enough bits to set.
  abbrev pub Ends : (ℕ → Type 0) → List ℕ → Option (List ℕ) → Type 0
  Ends Start bits result = (after : List ℕ) × (result ≡ some after) × Marks Start bits after

  -- Marking through words ends where marking a value does.
  module _ (rounds : ℕ) (mark_index : ℕ → List ℕ → Option (List ℕ))
      (ends : (index : ℕ) (bits : List ℕ)
        → IsBitmap bits
        → dead_bits bits < rounds
        → Ends (λ a. a ≡ index) bits (mark_index index bits)) where
    value-Ends :
        (word : ℕ) (bits : List ℕ)
        → IsBitmap bits
        → dead_bits bits < rounds
        → Ends
            (λ a. ((word % 2 == 1) ≡ false) × (heap_index word ≡ a))
            bits
            (mark_value mark_index word bits)
    unfolding mark_value
    value-Ends word bits w enough = elim (Bool-cases (word % 2 == 1)) [
      | inl e ↦ (
        bits,
        rw (mark_value, e) refl,
        idle (λ a. ((word % 2 == 1) ≡ false) × (heap_index word ≡ a)) bits w
            (λ a s l. absurd (let g = sym e ∙ s.0 in cc)),
      )
      | inr e ↦
          let r = ends (heap_index word) bits w enough in
          (
            r.0,
            rw (mark_value, e) r.1,
            restarted (λ a. a ≡ heap_index word)
                (λ a. ((word % 2 == 1) ≡ false) × (heap_index word ≡ a)) bits r.0
                (λ a s. (e, sym s)) (λ a s. sym s.1) r.2,
          )
    ]

    pub values-Ends :
        (words : List ℕ) (bits : List ℕ)
        → IsBitmap bits
        → dead_bits bits < rounds
        → Ends (Refers words) bits (mark_values mark_index words bits)
    unfolding mark_values
    values-Ends [] bits w enough = (bits, refl, idle (Refers []) bits w (λ a s l. absurd s))
    values-Ends (word ∷ words) bits w enough =
        let first = value-Ends word bits w enough in
        let fewer = unset_bits_mono (8 * length heap.live) bits first.0 first.2.keeps in
        let rest = values-Ends words first.0 first.2.bitmap (omega (arith, fewer, enough)) in
        (
          rest.0,
          rw (mark_values, first.1) rest.1,
          chained (λ a. ((word % 2 == 1) ≡ false) × (heap_index word ≡ a)) (Refers words) bits
              first.0 rest.0 first.2 rest.2,
        )

  -- The mark of a value and then the marking through its references.
  module _ (index : ℕ) (bits : List ℕ) (w : IsBitmap bits) (live : get heap.live index ≡ true) where
    low : index < 8 * length heap.live
    low = elim (dec_lt index (8 * length heap.live)) [
      | yes l ↦ l
      | no l ↦ absurd (let e = sym live ∙ get-out_of_range heap.live index (omega arith) in cc)
    ]

    -- The bit of a live value, and no other one, is set.
    pub mark-get :
        IsBitmap (mark bits index)
        × ((j : ℕ) → get (mark bits index) j ≡ (if index == j then true else get bits j))
    unfolding mark
    mark-get =
        let p = put_bytes bits index true w.0 in
        ((p.0, p.1 ∙ w.1), λ j. get-put bits index j true w.0 (omega (arith, low, w.1)))

    fewer : get bits index ≡ false → dead_bits (mark bits index) + 1 ≡ dead_bits bits
    fewer new =
        unset_bits_fewer (8 * length heap.live) bits (mark bits index) index mark-get.1 new low

    self : get (mark bits index) index ≡ true
    self = let m = mark-get.1 index in ground (arith, m)

    other : (x : ℕ) → index ≢ x → get (mark bits index) x ≡ get bits x
    other x ne = let m = mark-get.1 x in ground (arith, m, ne)

    marked-Marks :
        (after : List ℕ)
        → Marks (Refers (references (object_at heap index))) (mark bits index) after
        → Marks (λ a. a ≡ index) bits after
    marked-Marks after m = record {
      bitmap = m.bitmap;
      keeps = λ x e. m.keeps x (let g = mark-get.1 x in ground (arith, g, e));
      only = λ x e. elim (m.only x e) [
        | inr r ↦
            let held = (Refers-Holds (object_at heap index) r.0).0 r.1 in
            inr (index, refl, through index held.0 r.0 x live held.1 held.2 r.2)
        | inl f ↦ elim (ℕ_discrete index x) [
          | yes s ↦ inr (index, refl, subst (Reaches heap index) s (here index live))
          | no ne ↦ inl (sym (other x ne) ∙ f)
        ]
      ];
      closed = λ x y e f r l. elim (ℕ_discrete index x) [
        | yes s ↦
            m.starts y (subst (λ (t : ℕ). Refers (references (object_at heap t)) y) (sym s) r) l
        | no ne ↦ m.closed x y e (other x ne ∙ f) r l
      ];
      starts = λ a s l. m.keeps a (ap (get (mark bits index)) s ∙ self);
    }

  pub mark_heap_value-Ends :
      (rounds index : ℕ) (bits : List ℕ)
      → IsBitmap bits
      → dead_bits bits < rounds
      → Ends (λ a. a ≡ index) bits (mark_heap_value rounds heap index bits)
  unfolding mark_heap_value
  mark_heap_value-Ends zero index bits w enough = absurd (omega arith)
  mark_heap_value-Ends (suc rounds) index bits w enough = elim (Bool-cases (get heap.live index)) [
    | inr dead ↦ (
      bits,
      rw (dead) refl,
      idle (λ a. a ≡ index) bits w
          (λ a s l. absurd (let g = sym l ∙ ap (get heap.live) s ∙ dead in cc)),
    )
    | inl live ↦ elim (Bool-cases (get bits index)) [
      | inl old ↦
          (bits, rw (live, old) refl, idle (λ a. a ≡ index) bits w (λ a s l. ap (get bits) s ∙ old))
      | inr new ↦
          let r =
            values-Ends rounds (mark_heap_value rounds heap) (mark_heap_value-Ends rounds)
              (references (object_at heap index)) (mark bits index) (mark-get index bits w live).0
              (omega (arith, fewer index bits w live new, enough)) in
          (r.0, rw (live, new) r.1, marked-Marks index bits w live r.0 r.2)
    ]
  ]
