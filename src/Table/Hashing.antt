-- ===== src/Table/Hashing.antt =====
-- source/lone/lisp/hash.c: the hash of a value on the heap. `none` stands for `linux_exit(-1)`, and
-- for a list that is nested deeper than the number of rounds. The cache of a heap value, which holds
-- what was computed before, is left out. A tag has 4 bytes in memory.
use lone.Prelude.{
  ℕ, zero, suc, ◌/◌, ◌%◌, ◌^◌, ◌≡◌, ap, ◌∙◌, sym, arith, true, List, [], ◌∷◌, Option, none, some,
  leb, ◌==◌, not, if◌then◌else◌, length, drop,
}
use mathlib.Core.Option.{some-injective}
use lone.Bytes.{u64le_read}
use lone.Value.{Tag, code, type_of, symbol_tag, text_tag, bytes_tag, list_tag, inline_bytes_create}
use lone.Hash.SipHash.{State, initialize, update, finish}
use lone.Heap.{Heap}
use lone.Pairs.{heap_value_of, pair_of}
use lone.Equivalence.{bytes_of, is_frozen}
use lone.Table.{Keys}

-- The bytes of a number in memory.
unfoldable pub bytes_in_memory : ℕ → ℕ → List ℕ
bytes_in_memory zero n = []
bytes_in_memory (suc width) n = n % 2 ^ 8 ∷ bytes_in_memory width (n / 2 ^ 8)

-- The system gives 16 random bytes.
unfoldable pub initialize_from_system : List ℕ → State
initialize_from_system random = initialize (u64le_read random) (u64le_read (drop 8 random))

unfoldable pub hash_as_tagged_type : List ℕ → List ℕ → Tag → ℕ
hash_as_tagged_type random bytes tag =
    finish (update (update (initialize_from_system random) (bytes_in_memory 4 (code tag))) bytes)

-- The hash of a pair from those of its two values.
unfoldable pub hash_of_pair : List ℕ → ℕ → ℕ → ℕ
hash_of_pair random first_hash rest_hash = finish (
    update
      (update (update (initialize_from_system random) (bytes_in_memory 4 (code list_tag)))
        (bytes_in_memory 8 first_hash))
      (bytes_in_memory 8 rest_hash))

-- `hash` is how the values of a pair are hashed.
unfoldable pub hash_compute : (ℕ → Option ℕ) → List ℕ → Heap → ℕ → Option ℕ
hash_compute hash random heap value =
    if type_of value == code symbol_tag
    then elim (bytes_of heap value) [
      | none ↦ none
      | some bytes ↦ some (hash_as_tagged_type random bytes symbol_tag)
    ]
    else if type_of value == code text_tag
    then elim (bytes_of heap value) [
      | none ↦ none
      | some bytes ↦ some (hash_as_tagged_type random bytes text_tag)
    ]
    else if type_of value == code bytes_tag
    then (if not (is_frozen heap value) then none else elim (bytes_of heap value) [
      | none ↦ none
      | some bytes ↦
          if leb (length bytes) 7
          then inline_bytes_create bytes
          else some (hash_as_tagged_type random bytes bytes_tag)
    ])
    else if type_of value == code list_tag
    then elim (pair_of (heap_value_of heap value).contents) [
      | none ↦ none
      | some pair ↦ elim (hash pair.0) [
        | none ↦ none
        | some first_hash ↦ elim (hash pair.1) [
          | none ↦ none
          | some rest_hash ↦ some (hash_of_pair random first_hash rest_hash)
        ]
      ]
    ]
    else none

unfoldable pub hash_of : ℕ → List ℕ → Heap → ℕ → Option ℕ
hash_of zero random heap value = none
hash_of (suc rounds) random heap value =
    let computed = hash_compute (hash_of rounds random heap) random heap value in
    if value % 2 == 1 then some value else computed

pub equal_words : (a b : ℕ) → (a == b) ≡ true → a ≡ b
equal_words a b h = ground (arith, h)

pub words_equal : (a b : ℕ) → a ≡ b → (a == b) ≡ true
words_equal a b h = ground (arith, h)

-- The keys of a program whose texts, byte strings and lists on the heap are no keys: inline values
-- and interned symbols, which are equal where their words are.
abbrev pub identity_keys : ℕ → List ℕ → Heap → Keys
identity_keys rounds random heap = record {
  hash_of = hash_of rounds random heap;
  is_equal = λ a b. a == b;
  is_equal_symm = λ a b h. words_equal b a (sym (equal_words a b h));
  is_equal_trans = λ a b c h g. words_equal a c (equal_words a b h ∙ equal_words b c g);
  is_equal-hash_of = λ a b h g e f i.
      some-injective h g (sym f ∙ ap (hash_of rounds random heap) (equal_words a b e) ∙ i);
  is_equal-type_of = λ a b h. ap type_of (equal_words a b h);
}
