-- ===== src/Table/Contents.antt =====
-- What a table holds, as its client sees it: the keys and values in the order of insertion, with
-- the look-up, the assignment and the removal of a key.
use lone.Prelude.{
  ℕ, zero, suc, ◌+◌, ◌<◌, ◌≡◌, ◌≢◌, inl, inr, refl, ap, arith, true, false, List, [], ◌∷◌, ◌++◌,
  Option, none, some, ◌==◌, if◌then◌else◌, Bool-cases, length, get_or, set,
}
use lone.Value.{tombstone}
use lone.Table.{Keys, Entry, entry_key, no_entry}
use lone.Table.Invariant.{same}

abbrev pub entry_value : List Entry → ℕ → ℕ
entry_value entries i = (get_or entries i no_entry).1

-- The entries that are not deleted.
abbrev pub pairs : List Entry → List Entry
pairs [] = []
pairs (entry ∷ entries) = if entry.0 == tombstone then pairs entries else entry ∷ pairs entries

pub pairs-append : (xs ys : List Entry) → pairs (xs ++ ys) ≡ pairs xs ++ pairs ys
pairs-append [] ys = refl
pairs-append (x ∷ xs) ys = elim (Bool-cases (x.0 == tombstone)) [
  | inl e ↦ rw (e) (pairs-append xs ys)
  | inr e ↦ rw (e) (ap (λ (r : List Entry). x ∷ r) (pairs-append xs ys))
]

module _ (keys : Keys) where
  abbrev pub lookup : List Entry → ℕ → Option ℕ
  lookup [] key = none
  lookup (entry ∷ entries) key = if same keys entry.0 key then some entry.1 else lookup entries key

  -- The new value of a key that is there, in its place, or a new entry at the end.
  abbrev pub assign : List Entry → ℕ → ℕ → List Entry
  assign [] key value = (key, value) ∷ []
  assign (entry ∷ entries) key value =
      if same keys entry.0 key then (entry.0, value) ∷ entries else entry ∷ assign entries key value

  abbrev pub erase : List Entry → ℕ → List Entry
  erase [] key = []
  erase (entry ∷ entries) key = if same keys entry.0 key then entries else entry ∷ erase entries key

  -- No entry has the key.
  abbrev pub Misses : List Entry → ℕ → Type 0
  Misses xs key =
      (e : ℕ) → e < length xs → entry_key xs e ≢ tombstone → same keys (entry_key xs e) key ≡ false

  -- The entry at `e` has the key, and no other one.
  abbrev pub Hits : List Entry → ℕ → ℕ → Type 0
  Hits xs key e =
      (e < length xs)
      × (entry_key xs e ≢ tombstone)
      × (same keys (entry_key xs e) key ≡ true)
      × ((f : ℕ)
          → f < length xs
          → entry_key xs f ≢ tombstone
          → same keys (entry_key xs f) key ≡ true
          → f ≡ e)

  missed : (x : Entry) (xs : List Entry) (key : ℕ) → Misses (x ∷ xs) key → Misses xs key
  missed x xs key h e l live = h (suc e) (omega arith) live

  hit : (x : Entry) (xs : List Entry) (key e : ℕ) → Hits (x ∷ xs) key (suc e) → Hits xs key e
  hit x xs key e h = (
    omega (arith, h.0),
    h.1,
    h.2,
    λ f l live s. let p = h.3 (suc f) (omega arith) live s in omega (arith, p),
  )

  first_apart :
      (x : Entry) (xs : List Entry) (key e : ℕ)
      → Hits (x ∷ xs) key (suc e)
      → (x.0 == tombstone) ≡ false
      → same keys x.0 key ≡ false
  first_apart x xs key e h live = elim (Bool-cases (same keys x.0 key)) [
    | inl s ↦
        absurd (let p = h.3 0 (omega arith) (λ t. ground (arith, t, live)) s in omega (arith, p))
    | inr s ↦ s
  ]

  first_missed :
      (x : Entry) (xs : List Entry) (key : ℕ)
      → Misses (x ∷ xs) key
      → (x.0 == tombstone) ≡ false
      → same keys x.0 key ≡ false
  first_missed x xs key h live = h 0 (omega arith) (λ t. ground (arith, t, live))

  pub lookup-Misses : (xs : List Entry) (key : ℕ) → Misses xs key → lookup (pairs xs) key ≡ none
  lookup-Misses [] key h = refl
  lookup-Misses (x ∷ xs) key h = elim (Bool-cases (x.0 == tombstone)) [
    | inl e ↦ rw (e) (lookup-Misses xs key (missed x xs key h))
    | inr e ↦ rw (e, first_missed x xs key h e) (lookup-Misses xs key (missed x xs key h))
  ]

  pub assign-Misses :
      (xs : List Entry) (key value : ℕ)
      → Misses xs key
      → assign (pairs xs) key value ≡ pairs xs ++ ((key, value) ∷ [])
  assign-Misses [] key value h = refl
  assign-Misses (x ∷ xs) key value h = elim (Bool-cases (x.0 == tombstone)) [
    | inl e ↦ rw (e) (assign-Misses xs key value (missed x xs key h))
    | inr e ↦
        rw (e, first_missed x xs key h e)
          (ap (λ (r : List Entry). x ∷ r) (assign-Misses xs key value (missed x xs key h)))
  ]

  pub erase-Misses : (xs : List Entry) (key : ℕ) → Misses xs key → erase (pairs xs) key ≡ pairs xs
  erase-Misses [] key h = refl
  erase-Misses (x ∷ xs) key h = elim (Bool-cases (x.0 == tombstone)) [
    | inl e ↦ rw (e) (erase-Misses xs key (missed x xs key h))
    | inr e ↦
        rw (e, first_missed x xs key h e)
          (ap (λ (r : List Entry). x ∷ r) (erase-Misses xs key (missed x xs key h)))
  ]

  pub lookup-Hits :
      (xs : List Entry) (key e : ℕ)
      → Hits xs key e
      → lookup (pairs xs) key ≡ some (entry_value xs e)
  lookup-Hits [] key e h = absurd (omega (arith, h.0))
  lookup-Hits (x ∷ xs) key zero h =
      let live : (x.0 == tombstone) ≡ false = ground (arith, h.1) in rw (live, h.2) refl
  lookup-Hits (x ∷ xs) key (suc e) h = elim (Bool-cases (x.0 == tombstone)) [
    | inl t ↦ rw (t) (lookup-Hits xs key e (hit x xs key e h))
    | inr t ↦ rw (t, first_apart x xs key e h t) (lookup-Hits xs key e (hit x xs key e h))
  ]

  pub assign-Hits :
      (xs : List Entry) (key value e : ℕ)
      → Hits xs key e
      → assign (pairs xs) key value ≡ pairs (set xs e (entry_key xs e, value))
  assign-Hits [] key value e h = absurd (omega (arith, h.0))
  assign-Hits (x ∷ xs) key value zero h =
      let live : (x.0 == tombstone) ≡ false = ground (arith, h.1) in rw (live, h.2) refl
  assign-Hits (x ∷ xs) key value (suc e) h = elim (Bool-cases (x.0 == tombstone)) [
    | inl t ↦ rw (t) (assign-Hits xs key value e (hit x xs key e h))
    | inr t ↦
        rw (t, first_apart x xs key e h t)
          (ap (λ (r : List Entry). x ∷ r) (assign-Hits xs key value e (hit x xs key e h)))
  ]

  pub erase-Hits :
      (xs : List Entry) (key e : ℕ)
      → Hits xs key e
      → (erase (pairs xs) key ≡ pairs (set xs e (tombstone, tombstone)))
        × (length (pairs (set xs e (tombstone, tombstone))) + 1 ≡ length (pairs xs))
  erase-Hits [] key e h = absurd (omega (arith, h.0))
  erase-Hits (x ∷ xs) key zero h =
      let live : (x.0 == tombstone) ≡ false = ground (arith, h.1) in
      let gone : (tombstone == tombstone) ≡ true = ground arith in
      (rw (live, h.2, gone) refl, rw (live, gone) (omega arith))
  erase-Hits (x ∷ xs) key (suc e) h =
      let rest = erase-Hits xs key e (hit x xs key e h) in
      elim (Bool-cases (x.0 == tombstone)) [
        | inl t ↦ rw (t) rest
        | inr t ↦ (
          rw (t, first_apart x xs key e h t) (ap (λ (r : List Entry). x ∷ r) rest.0),
          rw (t) (omega (arith, rest.1)),
        )
      ]

  -- A new value changes no key.
  pub length-pairs-set :
      (xs : List Entry) (e v : ℕ)
      → length (pairs (set xs e (entry_key xs e, v))) ≡ length (pairs xs)
  length-pairs-set [] e v = refl
  length-pairs-set (x ∷ xs) zero v = elim (Bool-cases (x.0 == tombstone)) [
    | inl t ↦ rw (t) refl
    | inr t ↦ rw (t) refl
  ]
  length-pairs-set (x ∷ xs) (suc e) v = elim (Bool-cases (x.0 == tombstone)) [
    | inl t ↦ rw (t) (length-pairs-set xs e v)
    | inr t ↦ rw (t) (ap suc (length-pairs-set xs e v))
  ]
