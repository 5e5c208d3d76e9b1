-- ===== src/Table/Object.antt =====
-- source/lone/lisp/value/table.c: tables as the program has them, with a hash storage or with the
-- values of a shape, and with a prototype that is asked for the keys that are not there. The shape's
-- keys and the values stand side by side in the fields of a shaped table. `none` stands for
-- `linux_exit(-1)`.

pub mod Fields
pub mod Deoptimize
pub mod Refinement
pub mod Chain
pub mod Iteration
use lone.Prelude.{
  ℕ, zero, suc, ◌+◌, ◌-◌, ◌*◌, ◌%◌, ◌^◌, Bool, true, false, List, [], ◌∷◌, Option, none, some, ltb,
  leb, ◌==◌, if◌then◌else◌, set, length, get_or,
}
use lone.Value.{type_of, nil, is_nil, is_tombstone}
use lone.Utilities.{next_power_of_2}
use lone.Table.{
  Keys, Entry, HashTable, no_entry, entry_key, is_structural, allocate_hash_storage, find_index_for,
  hash_set, hash_get, hash_delete,
}

pub record ShapedTable : Type 0 where
  pub generation : ℕ
  pub fields : List Entry

pub data Storage : Type 0 where
  hashed : HashTable → Storage
  shaped : ShapedTable → Storage

pub record Table : Type 0 where
  pub storage : Storage
  pub prototype : ℕ

-- Capacities are never below 2, since the hash is shifted by the width less the capacity's zeros.
unfoldable pub capacity_for : ℕ → ℕ
capacity_for count = let capacity = next_power_of_2 count in if ltb capacity 2 then 2 else capacity

unfoldable pub table_create : (ℕ → Bool) → ℕ → ℕ → Option Table
table_create memory count prototype = elim (allocate_hash_storage memory (capacity_for count)) [
  | none ↦ none
  | some new ↦ some (record {
    storage = hashed (record {
      count = 0;
      capacity = capacity_for count;
      generation = 0;
      used = 0;
      indexes = new.0;
      entries = new.1;
    });
    prototype = prototype;
  })
]

unfoldable pub table_count : Table → ℕ
table_count table = elim table.storage [ hashed t ↦ t.count | shaped t ↦ length t.fields ]

module _ (keys : Keys) where
  unfoldable pub shape_key_matches : ℕ → ℕ → Bool
  shape_key_matches stored key =
      if stored == key
      then true
      else if is_structural (type_of key)
      then keys.is_equal stored key
      else false

  -- The loop of the deoptimization over the fields, with `used` of them moved.
  unfoldable pub move_fields :
      List Entry → List ℕ → List Entry → ℕ → ℕ → Option (List ℕ × List Entry × ℕ)
  move_fields [] indexes entries capacity used = some (indexes, entries, used)
  move_fields (field ∷ fields) indexes entries capacity used =
      elim (find_index_for keys field.0 indexes entries capacity) [
        | none ↦ none
        | some index ↦
            move_fields fields (set indexes index used) (set entries used (field.0, field.1))
              capacity (used + 1)
      ]

  unfoldable pub deoptimize : (ℕ → Bool) → ShapedTable → Option HashTable
  deoptimize memory table =
      let count = length table.fields in
      let capacity = capacity_for (count + 1) in
      elim (allocate_hash_storage memory capacity) [
        | none ↦ none
        | some new ↦ elim (move_fields table.fields new.0 new.1 capacity 0) [
          | none ↦ none
          | some moved ↦ some (record {
            count = count;
            capacity = capacity;
            generation = table.generation + 1;
            used = moved.2;
            indexes = moved.0;
            entries = moved.1;
          })
        ]
      ]

  -- The loops over a shape's keys: `none` if no key matches.
  unfoldable pub fields_set : List Entry → ℕ → ℕ → Option (List Entry)
  fields_set [] key value = none
  fields_set (field ∷ fields) key value =
      if shape_key_matches field.0 key
      then some ((field.0, value) ∷ fields)
      else elim (fields_set fields key value) [ none ↦ none | some rest ↦ some (field ∷ rest) ]

  unfoldable pub fields_get : List Entry → ℕ → Option ℕ
  fields_get [] key = none
  fields_get (field ∷ fields) key =
      if shape_key_matches field.0 key then some field.1 else fields_get fields key

  -- A table with another hash storage.
  abbrev pub with_hash : Table → Option HashTable → Option Table
  with_hash table none = none
  with_hash table (some hash) = some (record { storage = hashed hash; prototype = table.prototype })

  unfoldable pub table_set : (ℕ → Bool) → Table → ℕ → ℕ → Option Table
  table_set memory table key value = elim table.storage [
    | hashed hash ↦ with_hash table (hash_set keys memory hash key value)
    | shaped shape ↦ elim (fields_set shape.fields key value) [
      | some fields ↦ some (record {
        storage = shaped (record { generation = shape.generation; fields = fields });
        prototype = table.prototype;
      })
      | none ↦ elim (deoptimize memory shape) [
        | none ↦ none
        | some hash ↦ with_hash table (hash_set keys memory hash key value)
      ]
    ]
  ]

  unfoldable pub table_delete : (ℕ → Bool) → Table → ℕ → Option Table
  table_delete memory table key = elim table.storage [
    | hashed hash ↦ with_hash table (hash_delete keys hash key)
    | shaped shape ↦ elim (deoptimize memory shape) [
      | none ↦ none
      | some hash ↦ with_hash table (hash_delete keys hash key)
    ]
  ]

  -- The table's own value of a key.
  unfoldable pub own_get : Storage → ℕ → Option (Option ℕ)
  own_get (hashed hash) key = hash_get keys hash key
  own_get (shaped shape) key = some (fields_get shape.fields key)

  -- The recursion to the prototypes, which the heap may close to a circle, takes a number of rounds.
  unfoldable pub table_get : ℕ → (ℕ → Table) → Table → ℕ → Option ℕ
  table_get zero heap table key = none
  table_get (suc rounds) heap table key =
      let rest = table_get rounds heap (heap table.prototype) key in
      elim (own_get table.storage key) [
        | none ↦ none
        | some (some value) ↦ some value
        | some none ↦ if is_nil table.prototype then some nil else rest
      ]

-- The loop of the iteration over the entries, from index `i` on with `left` of them to go: the index
-- where it stops, and the entry there.
unfoldable pub next_hashed : ℕ → List Entry → ℕ → ℕ × Option Entry
next_hashed zero entries i = (i, none)
next_hashed (suc left) entries i =
    let rest = next_hashed left entries (i + 1) in
    if is_tombstone (entry_key entries i) then rest else (i, some (get_or entries i no_entry))

unfoldable pub next_entry : Table → ℕ → ℕ × Option Entry
next_entry table i = elim table.storage [
  | hashed hash ↦ next_hashed (hash.used - i) hash.entries i
  | shaped shape ↦
      if ltb i (length shape.fields) then (i, some (get_or shape.fields i no_entry)) else (i, none)
]
