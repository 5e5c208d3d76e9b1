-- ===== src/Table/Object/Refinement.antt =====
-- The operations of a table of either kind against what it holds.
use lone.Prelude.{
  ℕ, ◌^◌, ◌≤◌, ◌<◌, ◌≡◌, ◌≢◌, inl, inr, refl, sym, ap, ap₂, ◌∙◌, arith, Bool, true, List, [],
  Option, some, length, replicate,
}
use mathlib.Core.Path.{subst}
use lone.Value.{tombstone}
use lone.Utilities.Power.{pow_mono, pow_reflects}
use lone.Table.{Keys, Entry, HashTable, hash_set, index_empty, no_entry, entry_key}
use lone.Table.Invariant.{same, Hashable}
use lone.Table.Contents.{lookup, assign, erase}
use lone.Table.Rehash.{Unique, AreHashable, fresh-IsStorage, occupied-replicate}
use lone.Table.Refinement.{IsTable, pairs_of, hash_get-lookup, hash_delete-erase}
use lone.Table.Assignment.{allocates, hash_set-assign}
use lone.Table.Object.{
  Table, Storage, hashed, shaped, table_create, table_set, table_delete, own_get, with_hash,
}
use lone.Table.Object.Fields.{Live, fields_set-Sets, fields_get-lookup}
use lone.Table.Object.Deoptimize.{deoptimize-IsTable, capacity_for-power}

-- The keys and values that a table holds itself, in their order.
abbrev pub contents : Storage → List Entry
contents (hashed t) = pairs_of t
contents (shaped t) = t.fields

-- A well-formed hash storage, or fields that have keys of their own, with hashes.
abbrev pub IsWell : Keys → Storage → Type 0
IsWell keys (hashed t) = (k : ℕ) × IsTable keys k t
IsWell keys (shaped t) =
    ((k : ℕ) → Unique keys k t.fields) × ((k : ℕ) → AreHashable keys k t.fields) × Live t.fields

-- Far below the limit of the address space.
abbrev pub Roomy : Storage → Type 0
Roomy (hashed t) = t.capacity < 2 ^ 48
Roomy (shaped t) = length t.fields < 2 ^ 47

abbrev pub object : Storage → ℕ → Table
object storage prototype = record { storage = storage; prototype = prototype }

-- The outcome of an operation: a well-formed table with the given contents and the same prototype.
abbrev pub Gives : Keys → Table → Option Table → List Entry → Type 0
Gives keys t result expected =
    (after : Table) × (result ≡ some after)
    × IsWell keys after.storage
    × (contents after.storage ≡ expected)
    × (after.prototype ≡ t.prototype)

pub own_get-lookup :
    (keys : Keys) (s : Storage) (key : ℕ)
    → IsWell keys s
    → Hashable keys key
    → own_get keys s key ≡ some (lookup keys (contents s) key)
unfolding own_get
own_get-lookup keys (hashed t) key w hash = hash_get-lookup keys w.0 t w.1 key hash
own_get-lookup keys (shaped t) key w hash = ap some (fields_get-lookup keys t.fields key)

module _ (memory : ℕ → Bool) (granted : (size : ℕ) → memory size ≡ true) (keys : Keys) where
  -- Fields with new values have the keys of the old ones.
  revalued-IsWell :
      (fields after : List Entry)
      → ((k : ℕ) → Unique keys k fields)
      → ((k : ℕ) → AreHashable keys k fields)
      → Live fields
      → length after ≡ length fields
      → ((e : ℕ) → entry_key after e ≡ entry_key fields e)
      → ((k : ℕ) → Unique keys k after) × ((k : ℕ) → AreHashable keys k after) × Live after
  revalued-IsWell fields after unique hashes live n key = (
    (λ k e f l m a b h.
        unique k e f (omega (arith, l, n)) (omega (arith, m, n)) (λ z. a (key e ∙ z))
          (λ z. b (key f ∙ z)) (ap₂ (λ (x y : ℕ). same keys x y) (sym (key e)) (sym (key f)) ∙ h)),
    (λ k e l a.
        subst (Hashable keys) (sym (key e))
          (hashes k e (omega (arith, l, n)) (λ z. a (key e ∙ z)))),
    λ e l z. live e (omega (arith, l, n)) (sym (key e) ∙ z),
  )

  -- A key set in a table that is hashed, or has become so.
  hashed_set :
      (t : Table) (k : ℕ) (h : HashTable) (key value : ℕ)
      → IsTable keys k h
      → k < 48
      → key ≢ tombstone
      → Hashable keys key
      → Gives keys t
          (with_hash keys t (hash_set keys memory h key value))
          (assign keys (pairs_of h) key value)
  hashed_set t k h key value w small live hash =
      let a = hash_set-assign memory granted keys k h w key value small live hash in
      (
        record { storage = hashed a.1; prototype = t.prototype },
        ap (with_hash keys t) a.2,
        (a.0, a.3),
        a.5,
        refl,
      )

  set_object :
      (s : Storage) (prototype key value : ℕ)
      → IsWell keys s
      → Roomy s
      → key ≢ tombstone
      → Hashable keys key
      → Gives keys
          (object s prototype)
          (table_set keys memory (object s prototype) key value)
          (assign keys (contents s) key value)
  unfolding table_set
  set_object (hashed h) prototype key value w roomy live hash =
      hashed_set (object (hashed h) prototype) w.0 h key value w.1
        (pow_reflects w.0 48 (omega (arith, roomy, w.1.power))) live hash
  set_object (shaped h) prototype key value w roomy live hash =
      elim (fields_set-Sets keys h.fields key value) [
        | inl r ↦ (
          record {
            storage = shaped (record { generation = h.generation; fields = r.0 });
            prototype = prototype;
          },
          rw (table_set, r.1) refl,
          revalued-IsWell h.fields r.0 w.0 w.1 w.2 r.3 r.4,
          r.2,
          refl,
        )
        | inr r ↦
            let d = deoptimize-IsTable keys memory granted h roomy w.0 w.1 w.2 in
            let a =
              hashed_set (object (shaped h) prototype) d.0 d.1 key value d.4 (omega (arith, d.3))
                live hash in
            (
              a.0,
              rw (table_set, r.0, d.2) a.1,
              a.2,
              a.3 ∙ ap (λ (l : List Entry). assign keys l key value) d.5,
              a.4,
            )
      ]

  delete_object :
      (s : Storage) (prototype key : ℕ)
      → IsWell keys s
      → Roomy s
      → Hashable keys key
      → Gives keys
          (object s prototype)
          (table_delete keys memory (object s prototype) key)
          (erase keys (contents s) key)
  unfolding table_delete
  delete_object (hashed h) prototype key w roomy hash =
      let a = hash_delete-erase keys w.0 h w.1 key hash in
      (
        record { storage = hashed a.0; prototype = prototype },
        ap (with_hash keys (object (hashed h) prototype)) a.1,
        (w.0, a.2),
        a.3,
        refl,
      )
  delete_object (shaped h) prototype key w roomy hash =
      let d = deoptimize-IsTable keys memory granted h roomy w.0 w.1 w.2 in
      let a = hash_delete-erase keys d.0 d.1 d.4 key hash in
      (
        record { storage = hashed a.0; prototype = prototype },
        rw (table_delete, d.2, a.1) refl,
        (d.0, a.2),
        a.3 ∙ ap (λ (l : List Entry). erase keys l key) d.5,
        refl,
      )

  -- Where the allocator has the memory, setting a key that has a hash in a well-formed table of either
  -- kind, within the limits of its size, succeeds: a key that is there gets the new value in its place, any other
  -- one is appended with it, the other entries keep theirs and their order, and the table stays
  -- well-formed, with its prototype.
  pub table_set-assign :
      (t : Table) (key value : ℕ)
      → IsWell keys t.storage
      → Roomy t.storage
      → key ≢ tombstone
      → Hashable keys key
      → Gives keys t
          (table_set keys memory t key value)
          (assign keys (contents t.storage) key value)
  table_set-assign t key value w roomy live hash =
      set_object t.storage t.prototype key value w roomy live hash

  -- Where the allocator has the memory, deleting a key that has a hash from a well-formed table of
  -- either kind, within the limits of its size, succeeds: the entry that has the key is removed, if there is one, the
  -- others are kept in their order, and the table stays well-formed, with its prototype.
  pub table_delete-erase :
      (t : Table) (key : ℕ)
      → IsWell keys t.storage
      → Roomy t.storage
      → Hashable keys key
      → Gives keys t (table_delete keys memory t key) (erase keys (contents t.storage) key)
  table_delete-erase t key w roomy hash = delete_object t.storage t.prototype key w roomy hash

  -- Where the allocator has the memory, a new table for at most 2 ^ 47 entries is well-formed, holds
  -- nothing and has the prototype given.
  pub table_create-IsWell :
      (count prototype : ℕ)
      → count ≤ 2 ^ 47
      → (new : Table) × (table_create memory count prototype ≡ some new)
        × IsWell keys new.storage
        × (contents new.storage ≡ [])
        × (new.prototype ≡ prototype)
  unfolding table_create
  table_create-IsWell count prototype small =
      let p = capacity_for-power count small in
      let k = p.0 in
      (
        object
            (hashed (record {
              count = 0;
              capacity = 2 ^ k;
              generation = 0;
              used = 0;
              indexes = replicate (2 ^ k) index_empty;
              entries = replicate (2 ^ k) no_entry;
            }))
            prototype,
        rw (table_create, p.1, allocates memory k granted (omega (arith, p.3)), p.1) refl,
        (
          k,
          record {
            power = refl;
            storage = fresh-IsStorage keys k p.2 (omega (arith, p.3));
            in_use = occupied-replicate (2 ^ k);
            counted = refl;
            free = pow_mono 0 k (omega arith);
          },
        ),
        refl,
        refl,
      )
