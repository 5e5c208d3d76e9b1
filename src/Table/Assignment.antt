-- ===== src/Table/Assignment.antt =====
-- Assigning to a key of a table, with the resize that makes room for a new one.
use lone.Prelude.{
  ℕ, suc, ◌+◌, ◌*◌, ◌%◌, ◌^◌, ◌≤◌, ◌<◌, ◌≡◌, ◌≢◌, inl, inr, refl, sym, ap, ◌∙◌, arith, Bool, true,
  false, List, [], ◌∷◌, ◌++◌, Option, none, some, leb, ◌==◌, ◌||◌, Bool-cases, length, set,
  length-set, take, take-set_at, take-set, length-append, replicate,
}
use native.Mathlib.Decide.{ℕ_discrete}
use native.Mathlib.Nat.{two-pow-succ, mul-le-mul}
use lone.Value.{tombstone}
use lone.Memory.{array_size_in_bytes}
use lone.Table.{
  Keys, Entry, HashTable, entry_key, no_entry, slot_at, index_empty, is_used, is_empty,
  find_index_for, needs_resize, resize, allocate_hash_storage, add_entry, set_entry, hash_set,
}
use lone.Table.Invariant.{same, Hashable}
use lone.Table.Search.{Finds, pow_small}
use lone.Table.Insert.{entry_key-set_self, entry_key-set_ne, occupied-set, added-IsStorage}
use lone.Table.Contents.{
  pairs, pairs-append, lookup, assign, Misses, Hits, lookup-Misses, lookup-Hits, assign-Misses,
  assign-Hits, length-pairs-set,
}
use lone.Table.Rehash.{fresh-IsStorage, alike-IsStorage, rehash-Rehashed, occupied-replicate}
use lone.Table.Refinement.{
  IsTable, pairs_of, xs, length-xs, key_at, xs-Unique, xs-AreHashable, search,
}

or_true : (b : Bool) → (b || true) ≡ true
or_true false = refl
or_true true = refl

size-small :
    (k size : ℕ) → k ≤ 48 → size ≤ 16 → array_size_in_bytes (2 ^ k) size ≡ some (2 ^ k * size)
unfolding array_size_in_bytes
size-small k size small little =
    let bound : 2 ^ k * size ≤ 2 ^ 48 * 16 = mul-le-mul (pow_small k small) little in
    let fits_word : leb (2 ^ 64) (2 ^ k * size) ≡ false = ground (arith, bound) in
    rw (fits_word) refl

pub allocates :
    (memory : ℕ → Bool) (k : ℕ)
    → ((size : ℕ) → memory size ≡ true)
    → k ≤ 48
    → allocate_hash_storage memory (2 ^ k)
      ≡ some (replicate (2 ^ k) index_empty, replicate (2 ^ k) no_entry)
unfolding allocate_hash_storage
allocates memory k granted small =
    rw
      (
        allocate_hash_storage,
        size-small k 8 small (omega arith),
        size-small k 16 small (omega arith),
        granted (2 ^ k * 8),
        granted (2 ^ k * 16),
      )
      refl

-- A resized table holds what it held, in the entries from the first one on.
abbrev Resized : Keys → (ℕ → Bool) → ℕ → HashTable → Type 0
Resized keys memory k t =
    (after : HashTable) × (resize keys memory t (2 ^ k) ≡ some after)
    × IsTable keys k after
    × (pairs_of after ≡ pairs_of t)
    × (after.used ≡ t.count)
    × (after.count ≡ t.count)

resize-Resized :
    (keys : Keys) (memory : ℕ → Bool) (k n : ℕ) (t : HashTable)
    → ((size : ℕ) → memory size ≡ true)
    → IsTable keys k t
    → 0 < n
    → n ≤ 48
    → t.count < 2 ^ n
    → Resized keys memory n t
unfolding resize
resize-Resized keys memory k n t granted w p small room =
    let r =
      rehash-Rehashed keys n (xs keys k t w) (replicate (2 ^ n) index_empty)
        (replicate (2 ^ n) no_entry) 0 (fresh-IsStorage keys n p small) (occupied-replicate (2 ^ n))
        (omega (arith, w.counted, room)) (xs-Unique keys k t w) (xs-AreHashable keys k t w)
        (λ e f l m a. absurd (omega (arith, l))) in
    let used : r.2 ≡ t.count = omega (arith, r.6, w.counted) in
    (
      record {
        count = t.count;
        capacity = 2 ^ n;
        generation = t.generation + 1;
        used = r.2;
        indexes = r.0;
        entries = r.1;
      },
      rw (allocates memory n granted small, resize, r.3) refl,
      record {
        power = refl;
        storage = r.4;
        in_use = r.5 ∙ used;
        counted = ap length r.7 ∙ w.counted;
        free = room;
      },
      r.7,
      used,
      refl,
    )

module _ (keys : Keys) (k : ℕ) (t : HashTable) (w : IsTable keys k t) (key value : ℕ) where
  -- What the assignment gives, for a table of 2 ^ n slots.
  abbrev Assigned : ℕ → HashTable → Type 0
  Assigned n after = IsTable keys n after × (pairs_of after ≡ assign keys (pairs_of t) key value)

  -- A new entry where there is room for it.
  add_entry-Assigned :
      (r : ℕ)
      → Finds keys k t.indexes t.entries t.used key r
      → slot_at t.indexes r ≡ index_empty
      → Misses keys (xs keys k t w) key
      → key ≢ tombstone
      → t.used < 2 ^ k
      → t.count + 1 < 2 ^ k
      → Hashable keys key
      → Assigned k (add_entry keys t r key value)
  unfolding add_entry
  add_entry-Assigned r f empty misses live room space hash =
      let up : t.used + 1 ≡ suc t.used = omega arith in
      let low : t.used < length t.entries = omega (arith, w.storage.places, room) in
      let is_live : (key == tombstone) ≡ false = ground (arith, live) in
      let new : (e : ℕ)
          → e < t.used
          → entry_key t.entries e ≢ tombstone
          → same keys (entry_key t.entries e) key ≡ false =
        λ e l a.
          ap (λ (x : ℕ). same keys x key) (sym (key_at keys k t w e l))
          ∙ misses e (omega (arith, length-xs keys k t w, l))
              (λ z. a (sym (key_at keys k t w e l) ∙ z)) in
      let held : pairs (take (t.used + 1) (set t.entries t.used (key, value)))
          ≡ pairs_of t ++ ((key, value) ∷ []) =
        ap (λ (n : ℕ). pairs (take n (set t.entries t.used (key, value)))) up
        ∙ ap pairs (take-set t.used t.entries (key, value) low)
        ∙ pairs-append (xs keys k t w) ((key, value) ∷ [])
        ∙ rw (is_live) refl in
      (
        record {
          power = w.power;
          storage =
              added-IsStorage keys k t.indexes t.entries t.used w.storage key value r room f.0 empty
                f.1 new live hash;
          in_use =
              occupied-set t.indexes r t.used (omega (arith, w.storage.slots, f.0)) empty
                (omega (arith, room, pow_small k w.storage.small))
              ∙ ap (λ (n : ℕ). n + 1) w.in_use;
          counted =
              ap length held
              ∙ omega
                  (arith, length-append {A = Entry} (pairs_of t) ((key, value) ∷ []), w.counted);
          free = omega (arith, w.power, space);
        },
        held ∙ sym (assign-Misses keys (xs keys k t w) key value misses),
      )

  -- A new value for an entry that is there.
  set_entry-Assigned :
      (r : ℕ)
      → slot_at t.indexes r < t.used
      → Hits keys (xs keys k t w) key (slot_at t.indexes r)
      → Assigned k (set_entry keys t r value)
  unfolding set_entry
  set_entry-Assigned r l hits =
      let e = slot_at t.indexes r in
      let stored = entry_key t.entries e in
      let es = set t.entries e (stored, value) in
      let keeps : (f : ℕ) → f < t.used → entry_key es f ≡ entry_key t.entries f = λ f m.
        elim (ℕ_discrete e f) [
          | yes a ↦
              ap (entry_key es) (sym a)
              ∙ entry_key-set_self t.entries e (stored, value)
                  (omega (arith, l, w.storage.bound, w.storage.places))
              ∙ ap (entry_key t.entries) a
          | no a ↦ entry_key-set_ne t.entries e f (stored, value) a
        ] in
      let held : pairs (take t.used es)
          ≡ pairs (set (xs keys k t w) e (entry_key (xs keys k t w) e, value)) =
        ap pairs (take-set_at t.used t.entries e (stored, value))
        ∙ ap (λ (x : ℕ). pairs (set (xs keys k t w) e (x, value))) (sym (key_at keys k t w e l)) in
      (
        record {
          power = w.power;
          storage =
              alike-IsStorage keys k t.indexes t.entries es t.used w.storage
                (length-set t.entries e (stored, value)) keeps;
          in_use = w.in_use;
          counted = ap length held ∙ length-pairs-set keys (xs keys k t w) e value ∙ w.counted;
          free = w.free;
        },
        held ∙ sym (assign-Hits keys (xs keys k t w) key value e hits),
      )

module _ (memory : ℕ → Bool) (granted : (size : ℕ) → memory size ≡ true) (keys : Keys) (k : ℕ)
    (t : HashTable) (w : IsTable keys k t) (key value : ℕ) where
  -- What the assignment leads to.
  abbrev pub Assigns : Option HashTable → Type 0
  Assigns result =
      (n : ℕ) × (after : HashTable) × (result ≡ some after)
      × IsTable keys n after
      × (n ≤ suc k)
      × (pairs_of after ≡ assign keys (pairs_of t) key value)

  -- A new entry in a resized table.
  resize_and_add :
      (n : ℕ)
      → 0 < n
      → n ≤ 48
      → n ≤ suc k
      → t.count + 1 < 2 ^ n
      → key ≢ tombstone
      → lookup keys (pairs_of t) key ≡ none
      → Hashable keys key
      → Assigns (elim (resize keys memory t (2 ^ n)) [
        | none ↦ none
        | some resized ↦
            elim (find_index_for keys key resized.indexes resized.entries resized.capacity) [
              | none ↦ none
              | some r ↦ some (add_entry keys resized r key value)
            ]
      ])
  resize_and_add n p small grown space live absent hash =
      let r = resize-Resized keys memory k n t granted w p small (omega arith) in
      let s = search keys n r.0 r.2 key hash in
      elim s.3 [
        | inl miss ↦
            let a =
              add_entry-Assigned keys n r.0 r.2 key value s.0 s.2 miss.0 miss.1 live
                (omega (arith, r.4, space)) (omega (arith, r.5, space)) hash in
            (
              n,
              add_entry keys r.0 s.0 key value,
              rw (r.1, s.1) refl,
              a.0,
              grown,
              a.1 ∙ ap (λ (l : List Entry). assign keys l key value) r.3,
            )
        | inr hit ↦
            let found =
              sym (lookup-Hits keys (xs keys n r.0 r.2) key (slot_at r.0.indexes s.0) hit.2) in
            absurd (let e = found ∙ ap (λ (l : List Entry). lookup keys l key) r.3 ∙ absent in cc)
      ]

  -- Below the load factor there is room for one more and a free slot.
  roomy : needs_resize t 1 ≡ false → t.count + 1 < 2 ^ k
  unfolding needs_resize
  roomy fits = ground (arith, fits, w.power, w.free, pow_small k w.storage.small)

  -- Where the allocator has the memory, assigning to a key of a well-formed table below 2 ^ 48
  -- slots succeeds, with or without a resize: a key that is there gets the new value in its place,
  -- any other one is appended with it, the other entries are kept in their order, and the table
  -- stays well-formed, with at most twice the slots.
  pub hash_set-assign :
      k < 48 → key ≢ tombstone → Hashable keys key → Assigns (hash_set keys memory t key value)
  unfolding hash_set is_used is_empty
  hash_set-assign small live hash =
      let s = search keys k t w key hash in
      elim s.3 [
        | inr hit ↦
            let full : (slot_at t.indexes s.0 == index_empty) ≡ false = ground (arith, hit.0) in
            let a = set_entry-Assigned keys k t w key value s.0 hit.1 hit.2 in
            (k, set_entry keys t s.0 value, rw (s.1, hash_set, full) refl, a.0, omega arith, a.1)
        | inl miss ↦
            let absent = lookup-Misses keys (xs keys k t w) key miss.1 in
            elim (Bool-cases (needs_resize t 1)) [
              | inl grows ↦
                  let twice : t.capacity * 2 % 2 ^ 64 ≡ 2 ^ (suc k) =
                    omega (arith, w.power, two-pow-succ k, pow_small k w.storage.small) in
                  let either : (leb t.capacity t.used || true) ≡ true =
                    or_true (leb t.capacity t.used) in
                  rw (s.1, hash_set, miss.0, grows, either, ap (resize keys memory t) twice)
                    (resize_and_add (suc k) (omega arith) (omega arith) (omega arith)
                      (omega (arith, w.free, w.power, two-pow-succ k)) live absent hash)
              | inr fits ↦
                  let space = roomy fits in
                  elim (Bool-cases (leb t.capacity t.used)) [
                    | inl full ↦
                        rw (s.1, hash_set, miss.0, fits, full, ap (resize keys memory t) w.power)
                          (resize_and_add k w.storage.positive w.storage.small (omega arith) space
                            live absent hash)
                    | inr short ↦
                        let room : t.used < 2 ^ k = ground (arith, short, w.power) in
                        let a =
                          add_entry-Assigned keys k t w key value s.0 s.2 miss.0 miss.1 live room
                            space hash in
                        (
                          k,
                          add_entry keys t s.0 key value,
                          rw (s.1, hash_set, miss.0, fits, short) refl,
                          a.0,
                          omega arith,
                          a.1,
                        )
                  ]
            ]
      ]
