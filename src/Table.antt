-- ===== src/Table.antt =====
-- source/lone/lisp/value/table.c: tables with a hash storage. A table keeps its entries in the order
-- of insertion, and an array of their positions that is probed linearly from a key's slot on. The
-- hash of a key and structural equality are operations of `Keys`. `none` stands for
-- `linux_exit(-1)`, and for a loop that needs more rounds than it is given.
pub mod Cycle
pub mod Probe
pub mod Invariant
pub mod Search
pub mod Insert
pub mod Shift
pub mod Delete
pub mod Contents
pub mod Rehash
pub mod Hashing
pub mod Refinement
pub mod Assignment
pub mod Object
mod Tests
use lone.Prelude.{
  ℕ, zero, suc, ◌+◌, ◌-◌, ◌*◌, ◌/◌, ◌%◌, ◌^◌, ◌≡◌, Bool, true, false, List, [], ◌∷◌, Option, none,
  some, ltb, leb, ◌==◌, not, ◌&&◌, ◌||◌, if◌then◌else◌, bit_and, get_or, set, take, replicate,
}
use lone.Memory.{array_size_in_bytes}
use lone.Value.{code, list_tag, text_tag, bytes_tag, type_of, is_tombstone, tombstone}

-- What a table asks of `lone_lisp_hash_of` and `lone_lisp_is_equal`. The hash of a value that has
-- none is `none`, since the program exits. Values of one type only are equal, and equal values that
-- have hashes have the same one.
pub record Keys : Type 0 where
  pub hash_of : ℕ → Option ℕ
  pub is_equal : ℕ → ℕ → Bool
  pub is_equal_symm : (a b : ℕ) → is_equal a b ≡ true → is_equal b a ≡ true
  pub is_equal_trans : (a b c : ℕ) → is_equal a b ≡ true → is_equal b c ≡ true → is_equal a c ≡ true
  pub is_equal-hash_of :
      (a b h g : ℕ) → is_equal a b ≡ true → hash_of a ≡ some h → hash_of b ≡ some g → h ≡ g
  pub is_equal-type_of : (a b : ℕ) → is_equal a b ≡ true → type_of a ≡ type_of b

abbrev pub Entry : Type 0
Entry = ℕ × ℕ

-- `LONE_LISP_TABLE_INDEX_EMPTY`
abbrev pub index_empty : ℕ
index_empty = 2 ^ 64 - 1

pub record HashTable : Type 0 where
  pub count : ℕ
  pub capacity : ℕ
  pub generation : ℕ
  pub used : ℕ
  pub indexes : List ℕ
  pub entries : List Entry

abbrev pub no_entry : Entry
no_entry = (0, 0)

abbrev pub entry_key : List Entry → ℕ → ℕ
entry_key entries i = (get_or entries i no_entry).0

-- The storage of a new table: every index empty. `memory size` says whether the allocator has a
-- block of that size; without one the program exits.
unfoldable pub allocate_hash_storage : (ℕ → Bool) → ℕ → Option (List ℕ × List Entry)
allocate_hash_storage memory capacity = elim (array_size_in_bytes capacity 8) [
  | none ↦ none
  | some size ↦ elim (array_size_in_bytes capacity 16) [
    | none ↦ none
    | some entries_size ↦
        if memory size && memory entries_size
        then some (replicate capacity index_empty, replicate capacity no_entry)
        else none
  ]
]

unfoldable pub needs_resize : HashTable → ℕ → Bool
needs_resize table added = ltb (table.capacity * 70 % 2 ^ 64) ((table.count + added) * 100 % 2 ^ 64)

unfoldable pub slot_at : List ℕ → ℕ → ℕ
slot_at indexes index = get_or indexes index index_empty

unfoldable pub is_empty : List ℕ → ℕ → Bool
is_empty indexes index = slot_at indexes index == index_empty

unfoldable pub is_used : List ℕ → ℕ → Bool
is_used indexes index = not (is_empty indexes index)

unfoldable pub wrap_around : ℕ → ℕ → ℕ
wrap_around index capacity = bit_and index (capacity - 1)

-- `__builtin_ctzl` on a word of the given width
unfoldable pub ctz : ℕ → ℕ → ℕ
ctz zero n = 0
ctz (suc width) n = let rest = ctz width (n / 2) in if n % 2 == 1 then 0 else suc rest

unfoldable pub hash_to_index : ℕ → ℕ → ℕ
hash_to_index hash capacity = hash * 11400714819323198485 % 2 ^ 64 / 2 ^ (64 - ctz 64 capacity)

-- The test of the backward shift: whether the entry at `j`, whose probe starts at `k`, may move to
-- the hole at `i`.
unfoldable pub fills_hole : ℕ → ℕ → ℕ → Bool
fills_hole i j k = (ltb i j && (leb k i || ltb j k)) || (ltb j i && (leb k i && ltb j k))

-- Whether keys of a type are compared by their contents.
abbrev pub is_structural : ℕ → Bool
is_structural type = type == code list_tag || type == code text_tag || type == code bytes_tag

module _ (keys : Keys) where
  unfoldable pub compute_hash_for : ℕ → ℕ → Option ℕ
  compute_hash_for key capacity = elim (keys.hash_of key) [
    | none ↦ none
    | some hash ↦ some (hash_to_index hash capacity)
  ]

  unfoldable pub key_matches : ℕ → ℕ → ℕ → Option Bool
  key_matches stored key key_hash =
      if stored == key
      then some true
      else if is_structural (type_of key)
      then elim (keys.hash_of stored) [
        | none ↦ none
        | some hash ↦ if hash == key_hash then some (keys.is_equal stored key) else some false
      ]
      else some false

  -- The loop of the search, from index `i` on.
  unfoldable pub probe : ℕ → ℕ → ℕ → List ℕ → List Entry → ℕ → ℕ → Option ℕ
  probe zero key key_hash indexes entries capacity i = none
  probe (suc rounds) key key_hash indexes entries capacity i =
      let rest =
        probe rounds key key_hash indexes entries capacity (wrap_around (i + 1) capacity) in
      if is_used indexes i
      then elim (key_matches (entry_key entries (slot_at indexes i)) key key_hash) [
        | none ↦ none
        | some matches ↦ if not matches then rest else some i
      ]
      else some i

  unfoldable pub find_index_for : ℕ → List ℕ → List Entry → ℕ → Option ℕ
  find_index_for key indexes entries capacity = elim (keys.hash_of key) [
    | none ↦ none
    | some key_hash ↦
        probe capacity key key_hash indexes entries capacity (hash_to_index key_hash capacity)
  ]

  -- The loop of the resize over the old entries, with `j` of them moved.
  unfoldable pub rehash :
      List Entry → List ℕ → List Entry → ℕ → ℕ → Option (List ℕ × List Entry × ℕ)
  rehash [] indexes entries capacity j = some (indexes, entries, j)
  rehash (entry ∷ old) indexes entries capacity j =
      if is_tombstone entry.0
      then rehash old indexes entries capacity j
      else elim (find_index_for entry.0 indexes (set entries j entry) capacity) [
        | none ↦ none
        | some index ↦ rehash old (set indexes index j) (set entries j entry) capacity (j + 1)
      ]

  unfoldable pub resize : (ℕ → Bool) → HashTable → ℕ → Option HashTable
  resize memory table new_capacity = elim (allocate_hash_storage memory new_capacity) [
    | none ↦ none
    | some storage ↦
        elim (rehash (take table.used table.entries) storage.0 storage.1 new_capacity 0) [
          | none ↦ none
          | some moved ↦ some (record {
            count = table.count;
            capacity = new_capacity;
            generation = table.generation + 1;
            used = moved.2;
            indexes = moved.0;
            entries = moved.1;
          })
        ]
  ]

  -- A new entry at an empty index.
  unfoldable pub add_entry : HashTable → ℕ → ℕ → ℕ → HashTable
  add_entry table i key value = record {
    count = table.count + 1;
    capacity = table.capacity;
    generation = table.generation;
    used = table.used + 1;
    indexes = set table.indexes i table.used;
    entries = set table.entries table.used (key, value);
  }

  -- The new value of the entry at a used index.
  unfoldable pub set_entry : HashTable → ℕ → ℕ → HashTable
  set_entry table i value =
      let e = slot_at table.indexes i in
      record table { entries = set table.entries e (entry_key table.entries e, value) }

  unfoldable pub hash_set : (ℕ → Bool) → HashTable → ℕ → ℕ → Option HashTable
  hash_set memory table key value =
      elim (find_index_for key table.indexes table.entries table.capacity) [
        | none ↦ none
        | some i ↦
            let resizes = needs_resize table 1 in
            let new_capacity = if resizes then table.capacity * 2 % 2 ^ 64 else table.capacity in
            if is_used table.indexes i
            then some (set_entry table i value)
            else if leb table.capacity table.used || resizes
            then elim (resize memory table new_capacity) [
              | none ↦ none
              | some resized ↦
                  elim (find_index_for key resized.indexes resized.entries resized.capacity) [
                    | none ↦ none
                    | some k ↦ some (add_entry resized k key value)
                  ]
            ]
            else some (add_entry table i key value)
      ]

  -- The value of a key, if the table itself has it.
  unfoldable pub hash_get : HashTable → ℕ → Option (Option ℕ)
  hash_get table key = elim (find_index_for key table.indexes table.entries table.capacity) [
    | none ↦ none
    | some i ↦
        if is_used table.indexes i
        then some (some (get_or table.entries (slot_at table.indexes i) no_entry).1)
        else some none
  ]

  -- The loop of the backward shift, with the hole at `i` and the slots up to `j` seen.
  unfoldable pub shift_back : ℕ → List ℕ → List Entry → ℕ → ℕ → ℕ → Option (List ℕ)
  shift_back zero indexes entries capacity i j = none
  shift_back (suc rounds) indexes entries capacity i j =
      let next = wrap_around (j + 1) capacity in
      let slot = slot_at indexes next in
      let rest : Option (List ℕ) = elim (compute_hash_for (entry_key entries slot) capacity) [
        | none ↦ none
        | some home ↦
            let moves = fills_hole i next home in
            shift_back rounds (if moves then set indexes i slot else indexes) entries capacity
              (if moves then next else i) next
      ] in
      if is_empty indexes next then some (set indexes i index_empty) else rest

  unfoldable pub hash_delete : HashTable → ℕ → Option HashTable
  hash_delete table key = elim (find_index_for key table.indexes table.entries table.capacity) [
    | none ↦ none
    | some i ↦
        let l = slot_at table.indexes i in
        if is_empty table.indexes i
        then some table
        else elim (shift_back table.capacity table.indexes table.entries table.capacity i i) [
          | none ↦ none
          | some indexes ↦ some (record {
            count = table.count - 1;
            capacity = table.capacity;
            generation = table.generation;
            used = table.used;
            indexes = indexes;
            entries = set table.entries l (tombstone, tombstone);
          })
        ]
  ]
