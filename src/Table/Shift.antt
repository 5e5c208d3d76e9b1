-- ===== src/Table/Shift.antt =====
-- The loop of the backward shift, and what holds on every round of it.
use lone.Prelude.{
  ℕ, zero, suc, ◌+◌, ◌^◌, ◌<◌, ◌≡◌, ◌≢◌, inl, inr, sym, ap, ap₂, ◌∙◌, arith, true, false, List, [],
  ◌∷◌, ◌==◌, if◌then◌else◌, Bool-cases, length, set, length-set,
}
use native.Mathlib.Decide.{ℕ_discrete}
use lone.Value.{tombstone}
use lone.Table.{Keys, Entry, entry_key, slot_at, index_empty, fills_hole}
use lone.Table.Cycle.{
  next, between, next-lt, fills_hole-between, between_trans, between-beyond, between-extend,
  not-between_self,
}
use lone.Table.Invariant.{occupied, home_for}
use lone.Table.Insert.{slot_at-set_self, slot_at-set_ne}

abbrev pub bit : ℕ → ℕ
bit v = if v == index_empty then 0 else 1

pub occupied-change :
    (indexes : List ℕ) (i v : ℕ)
    → i < length indexes
    → occupied (set indexes i v) + bit (slot_at indexes i) ≡ occupied indexes + bit v
unfolding slot_at
occupied-change [] i v h = absurd (omega arith)
occupied-change (x ∷ is) zero v h = omega arith
occupied-change (x ∷ is) (suc i) v h = omega (arith, occupied-change is i v (omega arith))

-- The entries of a table of 2 ^ k slots of which the entry at `l` is taken out.
module _ (keys : Keys) (k : ℕ) (entries : List Entry) (used l : ℕ) where
  abbrev pub cap : ℕ
  cap = 2 ^ k

  abbrev pub home_of : List ℕ → ℕ → ℕ
  home_of indexes s = home_for keys (entry_key entries (slot_at indexes s)) (2 ^ k)

  -- The slots with a hole at `i`, which still has an index in it, and those up to `j` seen.
  pub record IsHole (indexes : List ℕ) (i j : ℕ) : Type 0 where
    pub slots : length indexes ≡ 2 ^ k
    pub hole : i < 2 ^ k
    pub seen : j < 2 ^ k
    pub held : slot_at indexes i ≢ index_empty
    pub points :
        (s : ℕ)
        → s < 2 ^ k
        → s ≢ i
        → slot_at indexes s ≢ index_empty
        → (slot_at indexes s < used)
          × (entry_key entries (slot_at indexes s) ≢ tombstone)
          × (slot_at indexes s ≢ l)
    pub once :
        (s t : ℕ)
        → s < 2 ^ k
        → t < 2 ^ k
        → s ≢ i
        → t ≢ i
        → slot_at indexes s ≢ index_empty
        → slot_at indexes s ≡ slot_at indexes t
        → s ≡ t
    pub kept :
        (e : ℕ)
        → e < used
        → entry_key entries e ≢ tombstone
        → e ≢ l
        → (s : ℕ) × (s < 2 ^ k) × (s ≢ i) × (slot_at indexes s ≡ e)
    pub reach :
        (s x : ℕ)
        → s < 2 ^ k
        → x < 2 ^ k
        → s ≢ i
        → slot_at indexes s ≢ index_empty
        → between (home_of indexes s) s x ≡ true
        → slot_at indexes x ≢ index_empty
    pub pass :
        (s : ℕ)
        → s < 2 ^ k
        → s ≢ i
        → slot_at indexes s ≢ index_empty
        → between (next (2 ^ k) i) (next (2 ^ k) j) s ≡ true
        → between (home_of indexes s) s i ≡ false

  -- What the loop leaves: the hole emptied, and no slot in use beyond an empty one.
  pub record IsShifted (indexes : List ℕ) : Type 0 where
    pub slots : length indexes ≡ 2 ^ k
    pub points :
        (s : ℕ)
        → s < 2 ^ k
        → slot_at indexes s ≢ index_empty
        → (slot_at indexes s < used)
          × (entry_key entries (slot_at indexes s) ≢ tombstone)
          × (slot_at indexes s ≢ l)
    pub once :
        (s t : ℕ)
        → s < 2 ^ k
        → t < 2 ^ k
        → slot_at indexes s ≢ index_empty
        → slot_at indexes s ≡ slot_at indexes t
        → s ≡ t
    pub kept :
        (e : ℕ)
        → e < used
        → entry_key entries e ≢ tombstone
        → e ≢ l
        → (s : ℕ) × (s < 2 ^ k) × (slot_at indexes s ≡ e)
    pub reach :
        (s x : ℕ)
        → s < 2 ^ k
        → x < 2 ^ k
        → slot_at indexes s ≢ index_empty
        → between (home_of indexes s) s x ≡ true
        → slot_at indexes x ≢ index_empty

  -- The slot `n` does not fill the hole.
  pub passed :
      (indexes : List ℕ) (i j n : ℕ)
      → IsHole indexes i j
      → next cap j ≡ n
      → n ≢ i
      → fills_hole i n (home_of indexes n) ≡ false
      → IsHole indexes i n
  passed indexes i j n w at apart stays =
      let low : n < cap = rw (← at) (next-lt cap j w.seen) in
      record {
        slots = w.slots;
        hole = w.hole;
        seen = low;
        held = w.held;
        points = w.points;
        once = w.once;
        kept = w.kept;
        reach = w.reach;
        pass = λ s ls ne full b. elim (between-extend cap i n s w.hole low ls apart b) [
          | inl e ↦
              ap (λ (x : ℕ). between (home_of indexes x) x i) e
              ∙ sym (fills_hole-between i n (home_of indexes n) (λ e. apart (sym e)))
              ∙ stays
          | inr c ↦ w.pass s ls ne full (ap (λ (x : ℕ). between (next cap i) x s) at ∙ c)
        ];
      }

  -- The slot `n` fills the hole, and is the hole from then on.
  module _ (indexes : List ℕ) (i j n : ℕ) (w : IsHole indexes i j) (low : n < 2 ^ k) (apart : n ≢ i)
      (full : slot_at indexes n ≢ index_empty)
      (moves : fills_hole i n (home_of indexes n) ≡ true) where
    abbrev pub is : List ℕ
    is = set indexes i (slot_at indexes n)

    here : slot_at is i ≡ slot_at indexes n
    here = slot_at-set_self indexes i (slot_at indexes n) (omega (arith, w.slots, w.hole))

    there : (s : ℕ) → s ≢ i → slot_at is s ≡ slot_at indexes s
    there s ne = slot_at-set_ne indexes i s (slot_at indexes n) (λ e. ne (sym e))

    back : (s : ℕ) → s ≡ i → slot_at is s ≡ slot_at indexes n
    back s e = ap (slot_at is) e ∙ here

    moved_points :
        (s : ℕ)
        → s < 2 ^ k
        → s ≢ n
        → slot_at is s ≢ index_empty
        → (slot_at is s < used)
          × (entry_key entries (slot_at is s) ≢ tombstone)
          × (slot_at is s ≢ l)
    moved_points s ls ne some_index = elim (ℕ_discrete s i) [
      | yes a ↦ rw (back s a) (w.points n low apart full)
      | no a ↦ rw (there s a) (w.points s ls a (λ z. some_index (there s a ∙ z)))
    ]

    moved_once :
        (s t : ℕ)
        → s < 2 ^ k
        → t < 2 ^ k
        → s ≢ n
        → t ≢ n
        → slot_at is s ≢ index_empty
        → slot_at is s ≡ slot_at is t
        → s ≡ t
    moved_once s t ls lt_ a b some_index e = elim (ℕ_discrete s i) [
      | yes c ↦ elim (ℕ_discrete t i) [
        | yes d ↦ c ∙ sym d
        | no d ↦ absurd (b (sym (w.once n t low lt_ apart d full (sym (back s c) ∙ e ∙ there t d))))
      ]
      | no c ↦ elim (ℕ_discrete t i) [
        | yes d ↦
            absurd (a (sym (w.once n s low ls apart c full (sym (back t d) ∙ sym e ∙ there s c))))
        | no d ↦
            w.once s t ls lt_ c d (λ z. some_index (there s c ∙ z))
              (sym (there s c) ∙ e ∙ there t d)
      ]
    ]

    moved_kept :
        (e : ℕ)
        → e < used
        → entry_key entries e ≢ tombstone
        → e ≢ l
        → (s : ℕ) × (s < 2 ^ k) × (s ≢ n) × (slot_at is s ≡ e)
    moved_kept e le_ live ne =
        let old = w.kept e le_ live ne in
        elim (ℕ_discrete old.0 n) [
          | yes a ↦ (i, w.hole, (λ z. apart (sym z)), here ∙ ap (slot_at indexes) (sym a) ∙ old.3)
          | no a ↦ (old.0, old.1, a, there old.0 old.2 ∙ old.3)
        ]

    moved_reach :
        (s x : ℕ)
        → s < 2 ^ k
        → x < 2 ^ k
        → s ≢ n
        → slot_at is s ≢ index_empty
        → between (home_of is s) s x ≡ true
        → slot_at is x ≢ index_empty
    moved_reach s x ls lx ne some_index b = elim (ℕ_discrete x i) [
      | yes a ↦ λ z. full (sym (back x a) ∙ z)
      | no a ↦ elim (ℕ_discrete s i) [
        | yes c ↦
            let way : between (home_of indexes n) n i ≡ true =
              sym (fills_hole-between i n (home_of indexes n) (λ e. apart (sym e))) ∙ moves in
            let b1 : between (home_of indexes n) i x ≡ true =
              ap₂ (λ (v t : ℕ). between (home_for keys (entry_key entries v) (2 ^ k)) t x)
                (sym (back s c)) (sym c)
              ∙ b in
            λ z.
              w.reach n x low lx apart full (between_trans (home_of indexes n) n i x way b1)
                (sym (there x a) ∙ z)
        | no c ↦ λ z.
            w.reach s x ls lx c (λ y. some_index (there s c ∙ y))
              (ap (λ (v : ℕ). between (home_for keys (entry_key entries v) (2 ^ k)) s x)
                  (sym (there s c))
                ∙ b)
              (sym (there x a) ∙ z)
      ]
    ]

    pub moved : IsHole is n n
    moved = record {
      slots = length-set indexes i (slot_at indexes n) ∙ w.slots;
      hole = low;
      seen = low;
      held = λ z. full (sym (there n apart) ∙ z);
      points = moved_points;
      once = moved_once;
      kept = moved_kept;
      reach = moved_reach;
      pass =
          λ s ls ne some_index b. absurd (ground (arith, b, not-between_self (next (2 ^ k) n) s));
    }

  -- The slot `n` after those seen is empty, and so is the hole then.
  module _ (indexes : List ℕ) (i j : ℕ) (w : IsHole indexes i j)
      (stop : slot_at indexes (next (2 ^ k) j) ≡ index_empty) where
    hole_at : slot_at (set indexes i index_empty) i ≡ index_empty
    hole_at = slot_at-set_self indexes i index_empty (omega (arith, w.slots, w.hole))

    other : (s : ℕ) → s ≢ i → slot_at (set indexes i index_empty) s ≡ slot_at indexes s
    other s ne = slot_at-set_ne indexes i s index_empty (λ e. ne (sym e))

    not_hole : (s : ℕ) → slot_at (set indexes i index_empty) s ≢ index_empty → s ≢ i
    not_hole s some_index e = some_index (ap (slot_at (set indexes i index_empty)) e ∙ hole_at)

    -- No slot in use has the hole on its way.
    clear :
        (s : ℕ)
        → s < 2 ^ k
        → s ≢ i
        → slot_at indexes s ≢ index_empty
        → between (home_of indexes s) s i ≢ true
    clear s ls ne some_index b =
        let n = next (2 ^ k) j in
        let low : n < 2 ^ k = next-lt (2 ^ k) j w.seen in
        elim (Bool-cases (between (next (2 ^ k) i) n s)) [
          | inl c ↦ ground (arith, b, w.pass s ls ne some_index c)
          | inr c ↦
              w.reach s n ls low ne some_index
                (between-beyond (2 ^ k) (home_of indexes s) s i n w.hole low ls
                  (λ e. w.held (ap (slot_at indexes) e ∙ stop)) ne
                  (λ e. some_index (ap (slot_at indexes) e ∙ stop)) c b)
                stop
        ]

    pub finished : IsShifted (set indexes i index_empty)
    finished = record {
      slots = length-set indexes i index_empty ∙ w.slots;
      points = λ s ls some_index.
          let ne = not_hole s some_index in
          rw (other s ne) (w.points s ls ne (λ z. some_index (other s ne ∙ z)));
      once = λ s t ls lt_ some_index e.
          let a = not_hole s some_index in
          let b = not_hole t (λ z. some_index (e ∙ z)) in
          w.once s t ls lt_ a b (λ z. some_index (other s a ∙ z)) (sym (other s a) ∙ e ∙ other t b);
      kept = λ e le_ live ne.
          let old = w.kept e le_ live ne in (old.0, old.1, other old.0 old.2 ∙ old.3);
      reach = λ s x ls lx some_index b.
          let a = not_hole s some_index in
          let b1 : between (home_of indexes s) s x ≡ true =
            ap (λ (v : ℕ). between (home_for keys (entry_key entries v) (2 ^ k)) s x)
              (sym (other s a))
            ∙ b in
          let old : slot_at indexes s ≢ index_empty = λ z. some_index (other s a ∙ z) in
          let c : x ≢ i = λ e. clear s ls a old (ap (between (home_of indexes s) s) (sym e) ∙ b1) in
          λ z. w.reach s x ls lx a old b1 (sym (other x c) ∙ z);
    }
