-- ===== src/Table/Insert.antt =====
-- A new entry at the empty slot that a search has found.
use lone.Prelude.{
  ℕ, zero, suc, ◌+◌, ◌^◌, ◌<◌, ◌≡◌, ◌≢◌, sym, ap, ap₂, ◌∙◌, arith, true, false, List, [], ◌∷◌,
  length, set, get_or-set_self, get_or-set_ne, length-set,
}
use mathlib.Core.Path.{subst}
use native.Mathlib.Decide.{ℕ_discrete}
use lone.Value.{tombstone}
use lone.Table.{Keys, Entry, entry_key, slot_at, index_empty, no_entry}
use lone.Table.Cycle.{between}
use lone.Table.Invariant.{occupied, Hashable, home_for, same, same_symm}
use lone.Table.Search.{IsStorage, pow_small}

pub slot_at-set_self :
    (indexes : List ℕ) (i v : ℕ) → i < length indexes → slot_at (set indexes i v) i ≡ v
unfolding slot_at
slot_at-set_self indexes i v h = get_or-set_self indexes i v index_empty h

pub slot_at-set_ne :
    (indexes : List ℕ) (i j v : ℕ) → i ≢ j → slot_at (set indexes i v) j ≡ slot_at indexes j
unfolding slot_at
slot_at-set_ne indexes i j v h = get_or-set_ne indexes i j v index_empty h

pub entry_key-set_self :
    (entries : List Entry) (i : ℕ) (e : Entry)
    → i < length entries
    → entry_key (set entries i e) i ≡ e.0
entry_key-set_self entries i e h = ap (λ (x : Entry). x.0) (get_or-set_self entries i e no_entry h)

pub entry_key-set_ne :
    (entries : List Entry) (i j : ℕ) (e : Entry)
    → i ≢ j
    → entry_key (set entries i e) j ≡ entry_key entries j
entry_key-set_ne entries i j e h = ap (λ (x : Entry). x.0) (get_or-set_ne entries i j e no_entry h)

-- An empty slot filled, and one emptied, change the number of slots in use by one.
pub occupied-set :
    (indexes : List ℕ) (i v : ℕ)
    → i < length indexes
    → slot_at indexes i ≡ index_empty
    → v ≢ index_empty
    → occupied (set indexes i v) ≡ occupied indexes + 1
unfolding slot_at
occupied-set [] i v h e ne = absurd (omega arith)
occupied-set (x ∷ is) zero v h e ne = ground (arith, e, ne)
occupied-set (x ∷ is) (suc i) v h e ne = omega (arith, occupied-set is i v (omega arith) e ne)

module _ (keys : Keys) (k : ℕ) (indexes : List ℕ) (entries : List Entry) (used : ℕ)
    (w : IsStorage keys k indexes entries used) (key value r : ℕ) (room : used < 2 ^ k)
    (place : r < 2 ^ k) (empty : slot_at indexes r ≡ index_empty)
    (way : (x : ℕ)
      → x < 2 ^ k
      → between (home_for keys key (2 ^ k)) r x ≡ true
      → slot_at indexes x ≢ index_empty)
    (new : (e : ℕ)
      → e < used
      → entry_key entries e ≢ tombstone
      → same keys (entry_key entries e) key ≡ false)
    (live : key ≢ tombstone) (hash : Hashable keys key) where
  abbrev is : List ℕ
  is = set indexes r used

  abbrev es : List Entry
  es = set entries used (key, value)

  here : slot_at is r ≡ used
  here = slot_at-set_self indexes r used (omega (arith, w.slots))

  there : (s : ℕ) → r ≢ s → slot_at is s ≡ slot_at indexes s
  there s ne = slot_at-set_ne indexes r s used ne

  new_key : entry_key es used ≡ key
  new_key = entry_key-set_self entries used (key, value) (omega (arith, w.places))

  old_key : (e : ℕ) → used ≢ e → entry_key es e ≡ entry_key entries e
  old_key e ne = entry_key-set_ne entries used e (key, value) ne

  used-ne : used ≢ index_empty
  used-ne = omega (arith, pow_small k w.small)

  points :
      (s : ℕ)
      → s < 2 ^ k
      → slot_at is s ≢ index_empty
      → (slot_at is s < used + 1) × (entry_key es (slot_at is s) ≢ tombstone)
  points s l full = elim (ℕ_discrete r s) [
    | yes e ↦
        let at : slot_at is s ≡ used = ap (slot_at is) (sym e) ∙ here in
        (omega (arith, at), λ t. live (sym new_key ∙ ap (entry_key es) (sym at) ∙ t))
    | no ne ↦
        let old = w.points s l (λ t. full (there s ne ∙ t)) in
        let apart : used ≢ slot_at indexes s = omega (arith, old.0) in
        (
          omega (arith, there s ne, old.0),
          λ t.
              old.1 (
                sym (old_key (slot_at indexes s) apart) ∙ ap (entry_key es) (sym (there s ne)) ∙ t),
        )
  ]

  once :
      (s t : ℕ)
      → s < 2 ^ k
      → t < 2 ^ k
      → slot_at is s ≢ index_empty
      → slot_at is s ≡ slot_at is t
      → s ≡ t
  once s t l m full e = elim (ℕ_discrete r s) [
    | yes a ↦ elim (ℕ_discrete r t) [
      | yes b ↦ sym a ∙ b
      | no b ↦
          let at : slot_at is s ≡ used = ap (slot_at is) (sym a) ∙ here in
          let shared : slot_at indexes t ≡ used = sym (there t b) ∙ sym e ∙ at in
          absurd (omega (arith, (w.points t m (λ z. used-ne (sym shared ∙ z))).0, shared))
    ]
    | no a ↦ elim (ℕ_discrete r t) [
      | yes b ↦
          let shared : slot_at indexes s ≡ used =
            sym (there s a) ∙ e ∙ ap (slot_at is) (sym b) ∙ here in
          absurd (omega (arith, (w.points s l (λ z. used-ne (sym shared ∙ z))).0, shared))
      | no b ↦ w.once s t l m (λ z. full (there s a ∙ z)) (sym (there s a) ∙ e ∙ there t b)
    ]
  ]

  kept :
      (e : ℕ)
      → e < used + 1
      → entry_key es e ≢ tombstone
      → (s : ℕ) × (s < 2 ^ k) × (slot_at is s ≡ e)
  kept e l ok = elim (ℕ_discrete used e) [
    | yes a ↦ (r, place, here ∙ a)
    | no a ↦
        let old = w.kept e (omega arith) (λ z. ok (old_key e a ∙ z)) in
        let apart : r ≢ old.0 = λ z. absurd (
          omega (
            arith,
            sym empty ∙ ap (slot_at indexes) z ∙ old.2,
            used-ne,
            w.bound,
            pow_small k w.small,
            l,
          )) in
        (old.0, old.1, there old.0 apart ∙ old.2)
  ]

  reach :
      (s x : ℕ)
      → s < 2 ^ k
      → x < 2 ^ k
      → slot_at is s ≢ index_empty
      → between (home_for keys (entry_key es (slot_at is s)) (2 ^ k)) s x ≡ true
      → slot_at is x ≢ index_empty
  reach s x l m full b = elim (ℕ_discrete r x) [
    | yes a ↦ λ z. used-ne (sym here ∙ ap (slot_at is) a ∙ z)
    | no a ↦ λ z. elim (ℕ_discrete r s) [
      | yes c ↦
          let start : entry_key es (slot_at is s) ≡ key =
            ap (entry_key es) (ap (slot_at is) (sym c) ∙ here) ∙ new_key in
          way x m (ap₂ (λ (h t : ℕ). between (home_for keys h (2 ^ k)) t x) (sym start) c ∙ b)
            (sym (there x a) ∙ z)
      | no c ↦
          let old = w.points s l (λ t. full (there s c ∙ t)) in
          let start : entry_key es (slot_at is s) ≡ entry_key entries (slot_at indexes s) =
            ap (entry_key es) (there s c) ∙ old_key (slot_at indexes s) (omega (arith, old.0)) in
          w.reach s x l m (λ t. full (there s c ∙ t))
            (ap (λ (h : ℕ). between (home_for keys h (2 ^ k)) s x) (sym start) ∙ b)
            (sym (there x a) ∙ z)
    ]
  ]

  distinct :
      (e f : ℕ)
      → e < used + 1
      → f < used + 1
      → entry_key es e ≢ tombstone
      → entry_key es f ≢ tombstone
      → same keys (entry_key es e) (entry_key es f) ≡ true
      → e ≡ f
  distinct e f l m a b h = elim (ℕ_discrete used e) [
    | yes c ↦ elim (ℕ_discrete used f) [
      | yes d ↦ sym c ∙ d
      | no d ↦
          let hit : same keys key (entry_key entries f) ≡ true =
            ap₂ (λ (x y : ℕ). same keys x y) (sym (ap (entry_key es) (sym c) ∙ new_key))
              (sym (old_key f d))
            ∙ h in
          absurd (
            ground (
              arith,
              new f (omega arith) (λ z. b (old_key f d ∙ z)),
              same_symm keys key (entry_key entries f) hit,
            ))
    ]
    | no c ↦ elim (ℕ_discrete used f) [
      | yes d ↦
          let hit : same keys (entry_key entries e) key ≡ true =
            ap₂ (λ (x y : ℕ). same keys x y) (sym (old_key e c))
              (sym (ap (entry_key es) (sym d) ∙ new_key))
            ∙ h in
          absurd (ground (arith, new e (omega arith) (λ z. a (old_key e c ∙ z)), hit))
      | no d ↦
          w.distinct e f (omega arith) (omega arith) (λ z. a (old_key e c ∙ z))
            (λ z. b (old_key f d ∙ z))
            (ap₂ (λ (x y : ℕ). same keys x y) (sym (old_key e c)) (sym (old_key f d)) ∙ h)
    ]
  ]

  hashed : (e : ℕ) → e < used + 1 → entry_key es e ≢ tombstone → Hashable keys (entry_key es e)
  hashed e l a = elim (ℕ_discrete used e) [
    | yes c ↦ subst (Hashable keys) (sym (ap (entry_key es) (sym c) ∙ new_key)) hash
    | no c ↦
        subst (Hashable keys) (sym (old_key e c))
          (w.hashed e (omega arith) (λ z. a (old_key e c ∙ z)))
  ]

  -- A storage with the new entry is well-formed.
  pub added-IsStorage :
      IsStorage keys k (set indexes r used) (set entries used (key, value)) (used + 1)
  added-IsStorage = record {
    positive = w.positive;
    small = w.small;
    slots = length-set indexes r used ∙ w.slots;
    places = length-set entries used (key, value) ∙ w.places;
    bound = omega arith;
    points = points;
    once = once;
    kept = kept;
    reach = reach;
    distinct = distinct;
    hashed = hashed;
  }
