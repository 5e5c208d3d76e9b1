-- ===== src/Table/Delete.antt =====
-- The backward shift as a whole, and the storage that an entry is taken out of.
use lone.Prelude.{
  ℕ, zero, suc, ◌+◌, ◌^◌, ◌≤◌, ◌<◌, ◌≡◌, ◌≢◌, inl, inr, refl, sym, ap, ap₂, ◌∙◌, arith, true, false,
  List, some, ◌==◌, Bool-cases, set, length-set,
}
use mathlib.Core.Path.{subst}
use native.Mathlib.Decide.{ℕ_discrete}
use lone.Value.{tombstone}
use lone.Table.{
  Keys, Entry, entry_key, slot_at, index_empty, is_empty, compute_hash_for, fills_hole, shift_back,
}
use lone.Table.Cycle.{
  next, between, next-lt, wrap_around-next, distance, distance-lt, distance-next, Ahead, Ahead-next,
  Ahead-here, next-apart, not-between_self,
}
use lone.Table.Invariant.{occupied, empty_slot, same, Hashable, home_for, compute_hash_for-home_for}
use lone.Table.Search.{IsStorage}
use lone.Table.Insert.{slot_at-set_ne, entry_key-set_self, entry_key-set_ne}
use lone.Table.Shift.{IsHole, IsShifted, home_of, passed, moved, finished, occupied-change}

-- The loop ends, empties one slot, and leaves every other index within reach.
abbrev Shifts : Keys → ℕ → List Entry → ℕ → ℕ → ℕ → List ℕ → ℕ → ℕ → Type 0
Shifts keys k entries used l rounds indexes i j =
    (after : List ℕ) × (shift_back keys rounds indexes entries (2 ^ k) i j ≡ some after)
    × IsShifted keys k entries used l after
    × (occupied after + 1 ≡ occupied indexes)

module _ (keys : Keys) (k : ℕ) (entries : List Entry) (used l : ℕ) where
  stops :
      (rounds : ℕ) (indexes : List ℕ) (i j : ℕ)
      → IsHole keys k entries used l indexes i j
      → slot_at indexes (next (2 ^ k) j) ≡ index_empty
      → Shifts keys k entries used l (suc rounds) indexes i j
  unfolding shift_back is_empty
  stops rounds indexes i j w stop =
      let c = occupied-change indexes i index_empty (omega (arith, w.slots, w.hole)) in
      (
        set indexes i index_empty,
        rw (wrap_around-next k (2 ^ k) j refl w.seen, stop) refl,
        finished keys k entries used l indexes i j w stop,
        ground (arith, c, w.held),
      )

  module _ (rounds : ℕ) (indexes : List ℕ) (i j : ℕ) (w : IsHole keys k entries used l indexes i j)
      (full : slot_at indexes (next (2 ^ k) j) ≢ index_empty) where
    abbrev n : ℕ
    n = next (2 ^ k) j

    stays :
        (start : ℕ)
        → compute_hash_for keys (entry_key entries (slot_at indexes n)) (2 ^ k) ≡ some start
        → fills_hole i n start ≡ false
        → Shifts keys k entries used l rounds indexes i n
        → Shifts keys k entries used l (suc rounds) indexes i j
    unfolding shift_back is_empty
    stays start home no_move r =
        let some_index : (slot_at indexes n == index_empty) ≡ false = ground (arith, full) in
        (
          r.0,
          rw
              (
                wrap_around-next k (2 ^ k) j refl w.seen,
                some_index,
                home,
                wrap_around-next k (2 ^ k) j refl w.seen,
                no_move,
              )
              r.1,
          r.2,
          r.3,
        )

    moves :
        (start : ℕ)
        → compute_hash_for keys (entry_key entries (slot_at indexes n)) (2 ^ k) ≡ some start
        → fills_hole i n start ≡ true
        → Shifts keys k entries used l rounds (set indexes i (slot_at indexes n)) n n
        → Shifts keys k entries used l (suc rounds) indexes i j
    unfolding shift_back is_empty
    moves start home move r =
        let some_index : (slot_at indexes n == index_empty) ≡ false = ground (arith, full) in
        let c = occupied-change indexes i (slot_at indexes n) (omega (arith, w.slots, w.hole)) in
        (
          r.0,
          rw
              (
                wrap_around-next k (2 ^ k) j refl w.seen,
                some_index,
                home,
                wrap_around-next k (2 ^ k) j refl w.seen,
                move,
              )
              r.1,
          r.2,
          ground (arith, c, r.3, w.held, full),
        )

  -- With an empty slot ahead and enough rounds to reach it, the loop ends.
  shift_back-Shifts :
      ((e : ℕ) → e < used → entry_key entries e ≢ tombstone → Hashable keys (entry_key entries e))
      → (rounds : ℕ) (indexes : List ℕ) (i j e : ℕ) → IsHole keys k entries used l indexes i j
      → e < 2 ^ k
      → slot_at indexes e ≡ index_empty
      → j ≢ e
      → Ahead (2 ^ k) i j e
      → distance (2 ^ k) j e ≤ rounds
      → Shifts keys k entries used l rounds indexes i j
  shift_back-Shifts hashed zero indexes i j e w le_ empty ne ahead enough =
      absurd (ground (arith, ne, enough, w.seen, le_))
  shift_back-Shifts hashed (suc rounds) indexes i j e w le_ empty ne ahead enough =
      let n = next (2 ^ k) j in
      let low : n < 2 ^ k = next-lt (2 ^ k) j w.seen in
      elim (ℕ_discrete (slot_at indexes n) index_empty) [
        | yes stop ↦ stops rounds indexes i j w stop
        | no full ↦
            let apart : n ≢ i = next-apart (2 ^ k) i j e w.hole w.seen le_ ne ahead in
            let ne1 : n ≢ e = λ s. full (ap (slot_at indexes) s ∙ empty) in
            let i_ne : i ≢ e = λ s. w.held (ap (slot_at indexes) s ∙ empty) in
            let d = distance-next (2 ^ k) j e w.seen le_ ne in
            let p = w.points n low apart full in
            let start = home_of keys k entries used l indexes n in
            let home =
              compute_hash_for-home_for keys (entry_key entries (slot_at indexes n)) (2 ^ k)
                (hashed (slot_at indexes n) p.0 p.1) in
            elim (Bool-cases (fills_hole i n (home_of keys k entries used l indexes n))) [
              | inl move ↦ moves rounds indexes i j w full start home move (
                  shift_back-Shifts hashed rounds (set indexes i (slot_at indexes n)) n n e
                    (moved keys k entries used l indexes i j n w low apart full move) le_
                    (slot_at-set_ne indexes i e (slot_at indexes n) i_ne ∙ empty) ne1
                    (Ahead-here (2 ^ k) n e) (omega (arith, d, enough)))
              | inr stay ↦ stays rounds indexes i j w full start home stay (
                  shift_back-Shifts hashed rounds indexes i n e
                    (passed keys k entries used l indexes i j n w refl apart stay) le_ empty ne1
                    (Ahead-next (2 ^ k) i j e w.hole w.seen le_ i_ne ne ahead)
                    (omega (arith, d, enough)))
            ]
      ]

-- A well-formed storage with the entry of a slot taken out.
module _ (keys : Keys) (k : ℕ) (indexes : List ℕ) (entries : List Entry) (used : ℕ)
    (w : IsStorage keys k indexes entries used) (i : ℕ) (low : i < 2 ^ k)
    (full : slot_at indexes i ≢ index_empty) where
  abbrev l : ℕ
  l = slot_at indexes i

  abbrev out : List Entry
  out = set entries l (tombstone, tombstone)

  first-IsHole : IsHole keys k entries used l indexes i i
  first-IsHole = record {
    slots = w.slots;
    hole = low;
    seen = low;
    held = full;
    points = λ s ls ne some_index.
        let p = w.points s ls some_index in (p.0, p.1, λ z. ne (w.once s i ls low some_index z));
    once = λ s t ls lt_ a b some_index e. w.once s t ls lt_ some_index e;
    kept = λ e le_ live ne.
        let p = w.kept e le_ live in (p.0, p.1, (λ z. ne (sym p.2 ∙ ap (slot_at indexes) z)), p.2);
    reach = λ s x ls lx ne some_index b. w.reach s x ls lx some_index b;
    pass = λ s ls ne some_index b. absurd (ground (arith, b, not-between_self (next (2 ^ k) i) s));
  }

  out_key : entry_key out l ≡ tombstone
  out_key =
      entry_key-set_self entries l (tombstone, tombstone)
        (omega (arith, w.points i low full, w.bound, w.places))

  same_key : (e : ℕ) → e ≢ l → entry_key out e ≡ entry_key entries e
  same_key e ne = entry_key-set_ne entries l e (tombstone, tombstone) (λ z. ne (sym z))

  stays_out : (e : ℕ) → entry_key out e ≢ tombstone → e ≢ l
  stays_out e live z = live (ap (entry_key out) z ∙ out_key)

  -- What the shift leaves, with the entry made a tombstone.
  shifted-IsStorage :
      (after : List ℕ) → IsShifted keys k entries used l after → IsStorage keys k after out used
  shifted-IsStorage after v = record {
    positive = w.positive;
    small = w.small;
    slots = v.slots;
    places = length-set entries l (tombstone, tombstone) ∙ w.places;
    bound = w.bound;
    points = λ s ls some_index.
        let p = v.points s ls some_index in
        (p.0, λ z. p.1 (sym (same_key (slot_at after s) p.2) ∙ z));
    once = v.once;
    kept =
        λ e le_ live. let ne = stays_out e live in v.kept e le_ (λ z. live (same_key e ne ∙ z)) ne;
    reach = λ s x ls lx some_index b. v.reach s x ls lx some_index (
        ap (λ (key : ℕ). between (home_for keys key (2 ^ k)) s x)
          (sym (same_key (slot_at after s) (v.points s ls some_index).2))
        ∙ b);
    distinct = λ e f le_ lf a b h.
        let c = same_key e (stays_out e a) in
        let d = same_key f (stays_out f b) in
        w.distinct e f le_ lf (λ z. a (c ∙ z)) (λ z. b (d ∙ z))
          (ap₂ (λ (x y : ℕ). same keys x y) (sym c) (sym d) ∙ h);
    hashed = λ e le_ a.
        let c = same_key e (stays_out e a) in
        subst (Hashable keys) (sym c) (w.hashed e le_ (λ z. a (c ∙ z)));
  }

  -- From a well-formed storage with a free slot, the backward shift ends within as many rounds as
  -- there are slots; with the entry of the slot made a tombstone the storage is well-formed again,
  -- and one slot fewer is in use.
  pub shift_back-IsStorage :
      occupied indexes < 2 ^ k
      → (after : List ℕ) × (shift_back keys (2 ^ k) indexes entries (2 ^ k) i i ≡ some after)
        × IsStorage keys k after (set entries (slot_at indexes i) (tombstone, tombstone)) used
        × (occupied after + 1 ≡ occupied indexes)
  shift_back-IsStorage room =
      let free = empty_slot indexes (rw (w.slots) room) in
      let e = free.0 in
      let le_ : e < 2 ^ k = rw (← w.slots) free.1 in
      let ne : i ≢ e = λ z. full (ap (slot_at indexes) z ∙ free.2) in
      let r =
        shift_back-Shifts keys k entries used l w.hashed (2 ^ k) indexes i i e first-IsHole le_
          free.2 ne (Ahead-here (2 ^ k) i e) (omega (arith, distance-lt (2 ^ k) i e low le_)) in
      (r.0, r.1, shifted-IsStorage r.0 r.2, r.3)
