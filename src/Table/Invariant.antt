-- ===== src/Table/Invariant.antt =====
-- The well-formed storages of a table, and what a search in one finds.
use lone.Prelude.{
  ℕ, zero, suc, ◌+◌, ◌-◌, ◌*◌, ◌/◌, ◌%◌, ◌^◌, ◌<◌, ◌≡◌, inl, inr, refl, sym, ap, ◌∙◌, arith, Bool,
  true, false, List, [], ◌∷◌, Option, none, some, ◌⊎◌, ◌==◌, if◌then◌else◌, Bool-cases, length,
}
use native.Mathlib.Nat.{one-le-pow, two-pow-succ, div-lt_iff_lt-mul}
use lone.Bits.Clz.{two_pow-add}
use mathlib.Core.Option.{some-injective}
use native.Mathlib.Decide.{ℕ_discrete}
use lone.Value.{type_of}
use lone.Table.{
  Keys, slot_at, index_empty, hash_to_index, ctz, key_matches, compute_hash_for, is_structural,
}

-- The slots in use.
abbrev pub occupied : List ℕ → ℕ
occupied [] = 0
occupied (i ∷ is) = (if i == index_empty then 0 else 1) + occupied is

-- A storage with room has an empty slot.
pub empty_slot :
    (indexes : List ℕ)
    → occupied indexes < length indexes
    → (e : ℕ) × (e < length indexes) × (slot_at indexes e ≡ index_empty)
unfolding slot_at
empty_slot [] h = absurd (omega arith)
empty_slot (i ∷ is) h = elim (Bool-cases (i == index_empty)) [
  | inl e ↦ (0, omega arith, ground (arith, e))
  | inr e ↦
      let later = empty_slot is (ground (arith, e, h)) in
      (suc later.0, omega (arith, later.1), later.2)
]

ctz-pow : (width k : ℕ) → k < width → ctz width (2 ^ k) ≡ k
unfolding ctz
ctz-pow zero k h = absurd (omega arith)
ctz-pow (suc width) zero h = refl
ctz-pow (suc width) (suc k) h =
    let even : (2 ^ suc k % 2 == 1) ≡ false = ground (arith, two-pow-succ k) in
    let half : 2 ^ suc k / 2 ≡ 2 ^ k = omega (arith, two-pow-succ k) in
    rw (even, half) (ap suc (ctz-pow width k (omega arith)))

pub hash_to_index-lt : (hash k : ℕ) → 0 < k → k < 64 → hash_to_index hash (2 ^ k) < 2 ^ k
unfolding hash_to_index
hash_to_index-lt hash k p h =
    let e : k + (64 - k) ≡ 64 = omega arith in
    let whole : 2 ^ k * 2 ^ (64 - k) ≡ 2 ^ 64 =
      sym (two_pow-add k (64 - k)) ∙ ap (λ (n : ℕ). 2 ^ n) e in
    rw (ctz-pow 64 k h)
      ((div-lt_iff_lt-mul (one-le-pow (64 - k) 2 (omega arith))).1 (omega (arith, whole)))

Option-cases : (o : Option ℕ) → (o ≡ none) ⊎ ((v : ℕ) × (o ≡ some v))
Option-cases none = inl refl
Option-cases (some v) = inr (v, refl)

module _ (keys : Keys) where
  abbrev pub Hashable : ℕ → Type 0
  Hashable key = (hash : ℕ) × (keys.hash_of key ≡ some hash)

  -- The slot from which a key that has a hash is searched.
  abbrev pub home_for : ℕ → ℕ → ℕ
  home_for key capacity = elim (keys.hash_of key) [
    | none ↦ 0
    | some hash ↦ hash_to_index hash capacity
  ]

  -- Keys that a table takes for one: the same word, or equal values of a type that is compared by its
  -- contents.
  abbrev pub same : ℕ → ℕ → Bool
  same a b = if a == b then true else if is_structural (type_of b) then keys.is_equal a b else false

  pub home_for-lt : (key k : ℕ) → 0 < k → k < 64 → home_for key (2 ^ k) < 2 ^ k
  home_for-lt key k p h = elim (Option-cases (keys.hash_of key)) [
    | inl e ↦ rw (home_for, e) (one-le-pow k 2 (omega arith))
    | inr (hash, e) ↦ rw (home_for, e) (hash_to_index-lt hash k p h)
  ]

  pub home_for-hash_to_index :
      (key capacity : ℕ) (h : Hashable key) → home_for key capacity ≡ hash_to_index h.0 capacity
  home_for-hash_to_index key capacity h = rw (home_for, h.1) refl

  pub compute_hash_for-home_for :
      (key capacity : ℕ)
      → Hashable key
      → compute_hash_for keys key capacity ≡ some (home_for key capacity)
  unfolding compute_hash_for
  compute_hash_for-home_for key capacity h = rw (compute_hash_for, home_for, h.1) refl

  pub same_refl : (a : ℕ) → same a a ≡ true
  same_refl a = ground arith

  pub same_symm : (a b : ℕ) → same a b ≡ true → same b a ≡ true
  same_symm a b h = grind (arith, keys.is_equal_symm a b, keys.is_equal-type_of a b)

  pub same-hash_of :
      (a b h g : ℕ) → same a b ≡ true → keys.hash_of a ≡ some h → keys.hash_of b ≡ some g → h ≡ g
  same-hash_of a b h g e f i = elim (ℕ_discrete a b) [
    | yes s ↦ some-injective h g (sym f ∙ ap keys.hash_of s ∙ i)
    | no ne ↦ keys.is_equal-hash_of a b h g (ground (arith, e, ne)) f i
  ]

  -- For a stored key and a key that have hashes, the comparison finds whether they are one.
  pub key_matches-same :
      (stored key hash : ℕ)
      → Hashable stored
      → keys.hash_of key ≡ some hash
      → key_matches keys stored key hash ≡ some (same stored key)
  unfolding key_matches
  key_matches-same stored key hash s e = elim (Bool-cases (stored == key)) [
    | inl one ↦ rw (one) refl
    | inr two ↦ elim (Bool-cases (is_structural (type_of key))) [
      | inr plain ↦ rw (two, plain) refl
      | inl structural ↦ elim (Bool-cases (s.0 == hash)) [
        | inl equal ↦ rw (two, structural, s.1, equal) refl
        | inr other ↦ elim (Bool-cases (keys.is_equal stored key)) [
          | inr unequal ↦ rw (two, structural, s.1, other, unequal) refl
          | inl equal ↦ absurd (
              let h = keys.is_equal-hash_of stored key s.0 hash equal s.1 e in
              ground (arith, other, h))
        ]
      ]
    ]
  ]

  pub same_trans : (a b c : ℕ) → same a b ≡ true → same b c ≡ true → same a c ≡ true
  same_trans a b c h g =
      grind (arith, keys.is_equal_trans a b c, keys.is_equal-type_of a b, keys.is_equal-type_of b c)
