-- ===== src/Table/Refinement.antt =====
-- The operations of a table against what it holds.
use lone.Prelude.{
  ℕ, ◌-◌, ◌^◌, ◌<◌, ◌≡◌, ◌≢◌, ◌⊎◌, inl, inr, refl, sym, ap, ap₂, ◌∙◌, arith, false, List, some,
  ◌==◌, length, set, take, length-take, get_or-take, take-set_at,
}
use mathlib.Core.Path.{subst}
use lone.Value.{tombstone}
use lone.Table.{
  Keys, Entry, HashTable, entry_key, no_entry, slot_at, index_empty, is_used, is_empty,
  find_index_for, hash_get, hash_delete, shift_back,
}
use lone.Table.Invariant.{occupied, Hashable, same, same_symm, same_trans}
use lone.Table.Search.{IsStorage, Finds, find_index_for-Finds}
use lone.Table.Delete.{shift_back-IsStorage}
use lone.Table.Contents.{
  pairs, lookup, erase, Misses, Hits, lookup-Misses, lookup-Hits, erase-Misses, erase-Hits,
}
use lone.Table.Rehash.{Unique, AreHashable}

-- The entries that a table holds, in the order of insertion.
abbrev pub pairs_of : HashTable → List Entry
pairs_of t = pairs (take t.used t.entries)

-- A table of 2 ^ k slots: its storage is well-formed, its count is the number of the slots in use
-- and of the entries it holds, and a slot is free.
pub record IsTable (keys : Keys) (k : ℕ) (t : HashTable) : Type 0 where
  pub power : t.capacity ≡ 2 ^ k
  pub storage : IsStorage keys k t.indexes t.entries t.used
  pub in_use : occupied t.indexes ≡ t.count
  pub counted : length (pairs_of t) ≡ t.count
  pub free : t.count < t.capacity

module _ (keys : Keys) (k : ℕ) (t : HashTable) (w : IsTable keys k t) where
  abbrev pub xs : List Entry
  xs = take t.used t.entries

  pub length-xs : length xs ≡ t.used
  length-xs =
      omega (arith, length-take {A = Entry} t.used t.entries, w.storage.bound, w.storage.places)

  pub key_at : (e : ℕ) → e < t.used → entry_key xs e ≡ entry_key t.entries e
  key_at e l = ap (λ (x : Entry). x.0) (get_or-take t.used t.entries e no_entry l)

  pub xs-Unique : Unique keys k xs
  xs-Unique e f l m a b h =
      let le_ : e < t.used = omega (arith, length-xs, l) in
      let lf : f < t.used = omega (arith, length-xs, m) in
      w.storage.distinct e f le_ lf (λ z. a (key_at e le_ ∙ z)) (λ z. b (key_at f lf ∙ z))
        (ap₂ (λ (x y : ℕ). same keys x y) (sym (key_at e le_)) (sym (key_at f lf)) ∙ h)

  pub xs-AreHashable : AreHashable keys k xs
  xs-AreHashable e l a =
      let le_ : e < t.used = omega (arith, length-xs, l) in
      subst (Hashable keys) (sym (key_at e le_))
        (w.storage.hashed e le_ (λ z. a (key_at e le_ ∙ z)))

  -- The outcome of a search, in terms of the entries in use.
  abbrev pub Outcome : ℕ → ℕ → Type 0
  Outcome key r =
      ((slot_at t.indexes r ≡ index_empty) × Misses keys xs key)
      ⊎ ((slot_at t.indexes r ≢ index_empty)
          × (slot_at t.indexes r < t.used)
          × Hits keys xs key (slot_at t.indexes r))

  outcome : (key r : ℕ) → Finds keys k t.indexes t.entries t.used key r → Outcome key r
  outcome key r f = elim f.2 [
    | inl empty ↦ inl (
      empty.0,
      λ e l live.
          let le_ : e < t.used = omega (arith, length-xs, l) in
          ap (λ (x : ℕ). same keys x key) (key_at e le_)
          ∙ empty.1 e le_ (λ z. live (key_at e le_ ∙ z)),
    )
    | inr hit ↦
        let p = w.storage.points r f.0 hit.0 in
        let at = slot_at t.indexes r in
        let here : entry_key xs at ≡ entry_key t.entries at = key_at at p.0 in
        inr (
          hit.0,
          p.0,
          (
            omega (arith, length-xs, p.0),
            (λ z. p.1 (sym here ∙ z)),
            ap (λ (x : ℕ). same keys x key) here ∙ hit.1,
            λ g l live h.
                let lg : g < t.used = omega (arith, length-xs, l) in
                w.storage.distinct g at lg p.0 (λ z. live (key_at g lg ∙ z)) p.1
                  (same_trans keys (entry_key t.entries g) key (entry_key t.entries at)
                    (ap (λ (x : ℕ). same keys x key) (sym (key_at g lg)) ∙ h)
                    (same_symm keys (entry_key t.entries at) key hit.1)),
          ),
        )
  ]

  pub search :
      (key : ℕ)
      → Hashable keys key
      → (r : ℕ) × (find_index_for keys key t.indexes t.entries t.capacity ≡ some r)
        × Finds keys k t.indexes t.entries t.used key r
        × Outcome key r
  search key hash =
      let f =
        find_index_for-Finds keys k t.indexes t.entries t.used key w.storage
          (omega (arith, w.in_use, w.free, w.power)) hash in
      (f.0, rw (w.power) f.1, f.2, outcome key f.0 f.2)

  -- Looking up a key gives the value of the entry that has it, and nothing if there is none.
  pub hash_get-lookup :
      (key : ℕ) → Hashable keys key → hash_get keys t key ≡ some (lookup keys (pairs_of t) key)
  unfolding hash_get is_used is_empty
  hash_get-lookup key hash =
      let s = search key hash in
      elim s.3 [
        | inl miss ↦ rw (s.1, hash_get, miss.0, lookup-Misses keys xs key miss.1) refl
        | inr hit ↦
            let full : (slot_at t.indexes s.0 == index_empty) ≡ false = ground (arith, hit.0) in
            rw (s.1, hash_get, full, lookup-Hits keys xs key (slot_at t.indexes s.0) hit.2)
              (ap (λ (x : Entry). some (some x.1))
                (sym (get_or-take t.used t.entries (slot_at t.indexes s.0) no_entry hit.1)))
      ]

  -- Deleting a key removes the entry that has it, if there is one, and keeps the others in their
  -- order; the table stays well-formed.
  pub hash_delete-erase :
      (key : ℕ)
      → Hashable keys key
      → (after : HashTable) × (hash_delete keys t key ≡ some after)
        × IsTable keys k after
        × (pairs_of after ≡ erase keys (pairs_of t) key)
  unfolding hash_delete is_empty
  hash_delete-erase key hash =
      let s = search key hash in
      elim s.3 [
        | inl miss ↦
            (t, rw (s.1, hash_delete, miss.0) refl, w, sym (erase-Misses keys xs key miss.1))
        | inr hit ↦
            let at = slot_at t.indexes s.0 in
            let full : (at == index_empty) ≡ false = ground (arith, hit.0) in
            let d =
              shift_back-IsStorage keys k t.indexes t.entries t.used w.storage s.0 s.2.0 hit.0
                (omega (arith, w.in_use, w.free, w.power)) in
            let gone = erase-Hits keys xs key at hit.2 in
            let held : pairs (take t.used (set t.entries at (tombstone, tombstone)))
                ≡ pairs (set xs at (tombstone, tombstone)) =
              ap pairs (take-set_at t.used t.entries at (tombstone, tombstone)) in
            let n = ap length held in
            (
              record {
                count = t.count - 1;
                capacity = t.capacity;
                generation = t.generation;
                used = t.used;
                indexes = d.0;
                entries = set t.entries at (tombstone, tombstone);
              },
              rw
                  (
                    s.1,
                    hash_delete,
                    full,
                    ap (λ (c : ℕ). shift_back keys c t.indexes t.entries c s.0 s.0) w.power,
                    d.1,
                  )
                  refl,
              record {
                power = w.power;
                storage = d.2;
                in_use = omega (arith, d.3, w.in_use);
                counted = omega (arith, n, gone.1, w.counted);
                free = omega (arith, w.free);
              },
              held ∙ sym gone.0,
            )
      ]
