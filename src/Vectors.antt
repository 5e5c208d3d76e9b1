-- ===== src/Vectors.antt =====
-- source/lone/lisp/value/vector.c: vectors, which grow as elements are set. `none` stands for
-- `linux_exit(-1)`. The allocator is a parameter: `memory size` says whether it has a block of that
-- size, and `junk` is a word that new memory may hold.
pub mod Contents
pub mod Push
mod Tests
use lone.Prelude.{
  ℕ, zero, suc, ◌+◌, ◌-◌, ◌*◌, ◌^◌, Bool, true, false, List, [], ◌∷◌, ◌++◌, Option, none, some, ltb,
  leb, if◌then◌else◌, not, get_or, set, take, replicate, length, ℤ, pos, negsuc,
}
use lone.Memory.{array_size_in_bytes, array_is_bounded}
use lone.Value.{nil, is_integer}
use lone.Value.Integer.{integer_of}

pub record Vector : Type 0 where
  pub values : List ℕ
  pub count : ℕ
  pub capacity : ℕ

-- The loop that makes the values from an index on nil.
unfoldable pub nil_from : ℕ → List ℕ → List ℕ
nil_from i [] = []
nil_from zero (x ∷ values) = nil ∷ nil_from zero values
nil_from (suc i) (x ∷ values) = x ∷ nil_from i values

unfoldable pub vector_create : (ℕ → Bool) → ℕ → ℕ → Option Vector
unfolding nil_from
vector_create memory junk capacity = elim (array_size_in_bytes capacity 8) [
  | none ↦ none
  | some size ↦
      if memory size
      then some
          (record { values = nil_from 0 (replicate capacity junk); count = 0; capacity = capacity })
      else none
]

-- A block that is moved keeps what it held, as far as the new one goes.
unfoldable pub reallocated : ℕ → ℕ → Vector → List ℕ
reallocated junk new_capacity vector =
    take new_capacity vector.values ++ replicate (new_capacity - vector.capacity) junk

unfoldable pub vector_resize : (ℕ → Bool) → ℕ → Vector → ℕ → Option Vector
unfolding nil_from reallocated
vector_resize memory junk vector new_capacity =
    let values = reallocated junk new_capacity vector in
    elim (array_size_in_bytes new_capacity 8) [
      | none ↦ none
      | some size ↦
          if not (memory size)
          then none
          else if ltb new_capacity vector.count
          then some (record { values = values; count = new_capacity; capacity = new_capacity })
          else some (record {
            values = nil_from vector.count values;
            count = vector.count;
            capacity = new_capacity;
          })
    ]

unfoldable pub get_value_at : Vector → ℕ → Option ℕ
get_value_at vector i = elim (array_is_bounded i vector.capacity 8) [
  | none ↦ none
  | some bounded ↦ some (if bounded then get_or vector.values i nil else nil)
]

-- The index of an integer value that is not negative.
unfoldable pub index_of : ℕ → Option ℕ
index_of index =
    if is_integer index
    then (elim (integer_of index) [ pos i ↦ some i | negsuc i ↦ none ])
    else none

unfoldable pub vector_get : Vector → ℕ → Option ℕ
unfolding index_of get_value_at
vector_get vector index = elim (index_of index) [ none ↦ none | some i ↦ get_value_at vector i ]

-- What `lone_lisp_vector_set_value_at` does once there is room.
unfoldable pub put_value : Vector → ℕ → ℕ → Vector
put_value vector i value = record vector {
  values = set vector.values i value;
  count = if ltb vector.count (i + 1) then i + 1 else vector.count;
}

unfoldable pub set_value_at : (ℕ → Bool) → ℕ → Vector → ℕ → ℕ → Option Vector
unfolding vector_resize put_value
set_value_at memory junk vector i value =
    if leb (2 ^ 64) (i + 1) then none else elim (array_is_bounded i vector.capacity 8) [
      | none ↦ none
      | some true ↦ some (put_value vector i value)
      | some false ↦
          if leb (2 ^ 64) ((i + 1) * 2)
          then none
          else elim (vector_resize memory junk vector ((i + 1) * 2)) [
            | none ↦ none
            | some resized ↦ some (put_value resized i value)
          ]
    ]

unfoldable pub vector_set : (ℕ → Bool) → ℕ → Vector → ℕ → ℕ → Option Vector
unfolding index_of set_value_at
vector_set memory junk vector index value = elim (index_of index) [
  | none ↦ none
  | some i ↦ set_value_at memory junk vector i value
]

unfoldable pub vector_push : (ℕ → Bool) → ℕ → Vector → ℕ → Option Vector
unfolding set_value_at
vector_push memory junk vector value = set_value_at memory junk vector vector.count value

unfoldable pub vector_push_all : (ℕ → Bool) → ℕ → Vector → List ℕ → Option Vector
unfolding vector_push
vector_push_all memory junk vector [] = some vector
vector_push_all memory junk vector (value ∷ values) = elim (vector_push memory junk vector value) [
  | none ↦ none
  | some pushed ↦ vector_push_all memory junk pushed values
]

unfoldable pub vector_build : (ℕ → Bool) → ℕ → List ℕ → Option Vector
unfolding vector_create vector_push_all
vector_build memory junk values = elim (vector_create memory junk (length values)) [
  | none ↦ none
  | some vector ↦ vector_push_all memory junk vector values
]
