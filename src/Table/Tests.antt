-- ===== src/Table/Tests.antt =====
-- A table of a few entries, whose keys are integers and a symbol.
use lone.Prelude.{
  ℕ, zero, suc, ◌≡◌, ◌≢◌, ◌≤◌, refl, sym, ◌∙◌, arith, Bool, true, List, [], ◌∷◌, Option, some,
  replicate,
}
use mathlib.Core.Path.{subst}
use mathlib.Core.Option.{some-injective}
use lone.Memory.{array_size_in_bytes}
use lone.Value.{
  tombstone, code, type_of, is_tombstone, nil, is_nil, has_tag, symbol_tag, is_inline_value,
  heap_index,
}
use lone.Heap.{Heap, blank, symbol_contents}
use lone.Pairs.{with_contents}
use lone.Equivalence.{bytes_of}
use lone.Table.Hashing.{hash_of, hash_compute, hash_as_tagged_type, identity_keys}
use lone.Table.{
  Keys, HashTable, hash_set, no_entry, index_empty, is_used, is_empty, slot_at, needs_resize,
  add_entry, set_entry, find_index_for, probe, hash_to_index, ctz, wrap_around, key_matches, resize,
  rehash, allocate_hash_storage,
}
use lone.Table.Contents.{assign, erase}
use lone.Table.Rehash.{fresh-IsStorage, Unique, AreHashable}
use lone.Table.Refinement.{IsTable, pairs_of}
use lone.Table.Object.{Table, hashed, shaped, table_set, table_delete, table_get}
use lone.Table.Object.Fields.{Live}
use lone.Table.Object.Refinement.{IsWell, Gives, table_set-assign, table_delete-erase}
use lone.Table.Object.Chain.{IsChain, lookup_all, table_get-lookup_all}
use lone.Table.Object.Iteration.{for_each, for_each-contents}
use lone.Table.Assignment.{hash_set-assign}

-- A heap of one value, the symbol `lone`, whose word is 0x10.
abbrev heap : Heap
heap = record {
  capacity = 64;
  count = 1;
  first_dead = 1;
  values =
      with_contents blank (code symbol_tag) (symbol_contents (0x6C ∷ 0x6F ∷ 0x6E ∷ 0x65 ∷ []))
      ∷ replicate 63 blank;
  live = 0x80 ∷ replicate 7 0;
  marked = replicate 8 0;
  pinned = replicate 8 0;
}

abbrev random : List ℕ
random = replicate 16 0x5A

abbrev keys : Keys
keys = identity_keys 1 random heap

-- Integers are hashed by their words, and the symbol by its name.
integer_hash : hash_of 1 random heap 0x101 ≡ some 0x101
unfolding hash_of
integer_hash = refl

other_integer_hash : hash_of 1 random heap 0x201 ≡ some 0x201
unfolding hash_of
other_integer_hash = refl

symbol_hash :
    hash_of 1 random heap 0x10
    ≡ some (hash_as_tagged_type random (0x6C ∷ 0x6F ∷ 0x6E ∷ 0x65 ∷ []) symbol_tag)
unfolding hash_of hash_compute type_of code bytes_of is_inline_value heap_index
symbol_hash = refl

abbrev enough : ℕ → Bool
enough size = true

abbrev new_table : HashTable
new_table = record {
  count = 0;
  capacity = 2;
  generation = 0;
  used = 0;
  indexes = index_empty ∷ index_empty ∷ [];
  entries = no_entry ∷ no_entry ∷ [];
}

new_table-IsTable : IsTable keys 1 new_table
new_table-IsTable = record {
  power = refl;
  storage = fresh-IsStorage keys 1 (omega arith) (omega arith);
  in_use = refl;
  counted = refl;
  free = omega arith;
}

not_deleted : (0x101 ≢ tombstone) × (0x201 ≢ tombstone) × (0x10 ≢ tombstone)
unfolding tombstone code
not_deleted = omega arith

abbrev one_entry : HashTable
one_entry = record {
  count = 1;
  capacity = 2;
  generation = 0;
  used = 1;
  indexes = index_empty ∷ 0 ∷ [];
  entries = (0x101, 7) ∷ no_entry ∷ [];
}

-- The second entry made the table grow.
abbrev two_entries : HashTable
two_entries = record {
  count = 2;
  capacity = 4;
  generation = 1;
  used = 2;
  indexes = 1 ∷ index_empty ∷ index_empty ∷ 0 ∷ [];
  entries = (0x101, 7) ∷ (0x201, 8) ∷ no_entry ∷ no_entry ∷ [];
}

sets_first : hash_set keys enough new_table 0x101 7 ≡ some one_entry
unfolding hash_of hash_set find_index_for probe hash_to_index ctz wrap_around key_matches is_used
    is_empty slot_at needs_resize add_entry set_entry
sets_first = refl

sets_second : hash_set keys enough one_entry 0x201 8 ≡ some two_entries
unfolding hash_of hash_set find_index_for probe hash_to_index ctz wrap_around key_matches is_used
    is_empty slot_at needs_resize add_entry set_entry resize rehash allocate_hash_storage
    array_size_in_bytes is_tombstone type_of code
sets_second = refl

-- The table that an operation has given is well-formed.
result-IsTable :
    (result : Option HashTable) (t : HashTable)
    → result ≡ some t
    → (n : ℕ) (after : HashTable) → result ≡ some after
    → IsTable keys n after
    → IsTable keys n t
result-IsTable result t e n after f w =
    subst (IsTable keys n) (some-injective after t (sym f ∙ e)) w

one_entry-IsTable : (n : ℕ) × (n ≤ 2) × IsTable keys n one_entry
one_entry-IsTable =
    let a =
      hash_set-assign enough (λ size. refl) keys 1 new_table new_table-IsTable 0x101 7 (omega arith)
        not_deleted.0 (0x101, integer_hash) in
    (
      a.0,
      a.4,
      result-IsTable (hash_set keys enough new_table 0x101 7) one_entry sets_first a.0 a.1 a.2 a.3,
    )

two_entries-IsTable : (n : ℕ) × (n ≤ 3) × IsTable keys n two_entries
two_entries-IsTable =
    let w = one_entry-IsTable in
    let a =
      hash_set-assign enough (λ size. refl) keys w.0 one_entry w.2 0x201 8 (omega (arith, w.1))
        not_deleted.1 (0x201, other_integer_hash) in
    (
      a.0,
      omega (arith, a.4, w.1),
      result-IsTable (hash_set keys enough one_entry 0x201 8) two_entries sets_second a.0 a.1 a.2
          a.3,
    )

-- A table with a hash storage, and no prototype.
abbrev hashed_table : Table
hashed_table = record { storage = hashed two_entries; prototype = nil }

hashed_table-IsWell : IsWell keys hashed_table.storage
hashed_table-IsWell = (two_entries-IsTable.0, two_entries-IsTable.2)

-- A shaped table, with the other one as its prototype.
abbrev shaped_table : Table
shaped_table = record {
  storage = shaped (record { generation = 0; fields = (0x10, 5) ∷ (0x401, 6) ∷ [] });
  prototype = 0x510;
}

shaped-Unique : (k : ℕ) → Unique keys k ((0x10, 5) ∷ (0x401, 6) ∷ [])
shaped-Unique k zero zero l m a b h = refl
shaped-Unique k zero (suc zero) l m a b h = absurd (ground (arith, h))
shaped-Unique k zero (suc (suc f)) l m a b h = absurd (omega (arith, m))
shaped-Unique k (suc zero) zero l m a b h = absurd (ground (arith, h))
shaped-Unique k (suc zero) (suc zero) l m a b h = refl
shaped-Unique k (suc zero) (suc (suc f)) l m a b h = absurd (omega (arith, m))
shaped-Unique k (suc (suc e)) f l m a b h = absurd (omega (arith, l))

other_field_hash : hash_of 1 random heap 0x401 ≡ some 0x401
unfolding hash_of
other_field_hash = refl

shaped-AreHashable : (k : ℕ) → AreHashable keys k ((0x10, 5) ∷ (0x401, 6) ∷ [])
shaped-AreHashable k zero l a = (_, symbol_hash)
shaped-AreHashable k (suc zero) l a = (0x401, other_field_hash)
shaped-AreHashable k (suc (suc e)) l a = absurd (omega (arith, l))

shaped-Live : Live ((0x10, 5) ∷ (0x401, 6) ∷ [])
unfolding tombstone code
shaped-Live zero l = omega arith
shaped-Live (suc zero) l = omega arith
shaped-Live (suc (suc e)) l = absurd (omega (arith, l))

prototypes : IsChain (λ (word : ℕ). hashed_table) shaped_table (hashed_table ∷ [])
unfolding is_nil has_tag nil code
prototypes = (refl, refl, refl)

-- The third entry makes the table grow again.
table_set-assign_example :
    Gives keys hashed_table
      (table_set keys enough hashed_table 0x10 9)
      (assign keys (pairs_of two_entries) 0x10 9)
table_set-assign_example =
    table_set-assign enough (λ size. refl) keys hashed_table 0x10 9 hashed_table-IsWell
      (omega arith) not_deleted.2 (_, symbol_hash)

-- The shaped table gets a hash storage first.
table_delete-erase_example :
    Gives keys shaped_table
      (table_delete keys enough shaped_table 0x10)
      (erase keys ((0x10, 5) ∷ (0x401, 6) ∷ []) 0x10)
table_delete-erase_example =
    table_delete-erase enough (λ size. refl) keys shaped_table 0x10
      (shaped-Unique, shaped-AreHashable, shaped-Live) (omega arith) (_, symbol_hash)

-- The prototype has the key.
table_get-lookup_all_example :
    table_get keys 2 (λ (word : ℕ). hashed_table) shaped_table 0x201
    ≡ some (lookup_all keys (shaped_table ∷ hashed_table ∷ []) 0x201)
table_get-lookup_all_example =
    table_get-lookup_all keys (λ (word : ℕ). hashed_table) shaped_table (hashed_table ∷ []) 0x201
      prototypes ((shaped-Unique, shaped-AreHashable, shaped-Live), (hashed_table-IsWell, tt))
      (0x201, other_integer_hash) 2 (omega arith)

for_each-contents_example : for_each 3 hashed_table 0 ≡ pairs_of two_entries
for_each-contents_example = for_each-contents keys hashed_table hashed_table-IsWell 3 (omega arith)
