-- ===== src/Pairs.antt =====
-- source/lone/lisp/value/list.c: lists as pairs on the heap. A function that changes the heap
-- returns it with its value; `none` stands for `linux_exit(-1)`.
pub mod Access
mod Tests
use lone.Prelude.{
  ℕ, zero, suc, ◌+◌, Bool, true, false, List, [], ◌∷◌, Option, none, some, ltb, leb, ◌==◌, not,
  if◌then◌else◌, length, get_or, set,
}
use lone.Value.{Tag, list_tag, code, nil, is_nil, is_list, heap_index, value_from_index}
use lone.Heap.{
  Heap, HeapValue, Contents, list_contents, unset, vector_contents, symbol_contents, text_contents,
  bytes_contents, blank, allocate_value,
}

abbrev pub heap_value_of : Heap → ℕ → HeapValue
heap_value_of heap value = get_or heap.values (heap_index value) blank

abbrev pub with_contents : HeapValue → ℕ → Contents → HeapValue
with_contents value type contents = record {
  should_deallocate_bytes = value.should_deallocate_bytes;
  frozen = value.frozen;
  hash_cached = value.hash_cached;
  code_point_count_cached = value.code_point_count_cached;
  shaped = value.shaped;
  type = type;
  contents = contents;
}

abbrev pub write_value : Heap → ℕ → HeapValue → Heap
write_value heap index value = record {
  capacity = heap.capacity;
  count = heap.count;
  first_dead = heap.first_dead;
  values = set heap.values index value;
  live = heap.live;
  marked = heap.marked;
  pinned = heap.pinned;
}

-- The fields of a pair. A heap value that does not hold one is not read as one.
abbrev pub pair_of : Contents → Option (ℕ × ℕ)
pair_of (list_contents first rest) = some (first, rest)
pair_of unset = none
pair_of (vector_contents values count) = none
pair_of (symbol_contents bytes) = none
pair_of (text_contents bytes) = none
pair_of (bytes_contents bytes) = none

abbrev pub first_of : Option (ℕ × ℕ) → Option ℕ
first_of none = none
first_of (some pair) = some pair.0

abbrev pub rest_of : Option (ℕ × ℕ) → Option ℕ
rest_of none = none
rest_of (some pair) = some pair.1

unfoldable pub list_first : Heap → ℕ → Option ℕ
list_first heap value =
    if is_nil value
    then some nil
    else if not (is_list value)
    then none
    else first_of (pair_of (heap_value_of heap value).contents)

unfoldable pub list_rest : Heap → ℕ → Option ℕ
list_rest heap value =
    if is_nil value
    then some nil
    else if not (is_list value)
    then none
    else rest_of (pair_of (heap_value_of heap value).contents)

unfoldable pub list_has_rest : Heap → ℕ → Option Bool
list_has_rest heap value =
    if is_nil value
    then some false
    else if not (is_list value)
    then none
    else elim (rest_of (pair_of (heap_value_of heap value).contents)) [
      | none ↦ none
      | some rest ↦ some (not (is_nil rest))
    ]

-- The loop of `lone_lisp_list_is_proper`; the outer `none` is a walk longer than the fuel.
unfoldable pub list_is_proper : ℕ → Heap → ℕ → Option Bool
list_is_proper zero heap list = none
list_is_proper (suc fuel) heap list =
    if is_nil list
    then some true
    else if not (is_list list)
    then some false
    else elim (list_rest heap list) [ none ↦ none | some rest ↦ list_is_proper fuel heap rest ]

-- The pair written to a heap value.
unfoldable pub place_pair : Heap → ℕ → ℕ → ℕ → Heap
place_pair heap i first rest =
    write_value heap i
      (with_contents (get_or heap.values i blank) (code list_tag) (list_contents first rest))

-- A write of one field of a pair: the other field is kept.
abbrev pub write_first : Contents → ℕ → Contents
write_first contents first = elim (pair_of contents) [
  | none ↦ contents
  | some pair ↦ list_contents first pair.1
]

abbrev pub write_rest : Contents → ℕ → Contents
write_rest contents rest = elim (pair_of contents) [
  | none ↦ contents
  | some pair ↦ list_contents pair.0 rest
]

abbrev pub write_contents : Heap → ℕ → (Contents → Contents) → Heap
write_contents heap value change =
    let old = heap_value_of heap value in
    write_value heap (heap_index value) (with_contents old old.type (change old.contents))

-- The state of a list under construction: its first pair and its last.
pub record Appended : Type 0 where
  pub heap : Heap
  pub first : ℕ
  pub head : ℕ

module _ (remap : ℕ → ℕ → Bool) (fuel : ℕ) where
  unfoldable pub list_create : Heap → ℕ → ℕ → Option (Heap × ℕ)
  list_create heap first rest = elim (allocate_value remap fuel heap) [
    | none ↦ none
    | some allocated ↦
        some (place_pair allocated.0 allocated.1 first rest, value_from_index allocated.1 list_tag)
  ]

  unfoldable pub list_create_nil : Heap → Option (Heap × ℕ)
  list_create_nil heap = list_create heap nil nil

  -- On `nil` the result is a new pair, which nothing else refers to.
  unfoldable pub list_set_first : Heap → ℕ → ℕ → Option (Heap × ℕ)
  list_set_first heap value first =
      if is_nil value
      then list_create heap first nil
      else if not (is_list value)
      then none
      else some (write_contents heap value (λ contents. write_first contents first), first)

  unfoldable pub list_set_rest : Heap → ℕ → ℕ → Option (Heap × ℕ)
  list_set_rest heap value rest =
      if is_nil value
      then list_create heap nil rest
      else if not (is_list value)
      then none
      else some (write_contents heap value (λ contents. write_rest contents rest), rest)

  unfoldable pub list_append : Appended → ℕ → Option Appended
  list_append state value = elim (list_create state.heap value nil) [
    | none ↦ none
    | some created ↦
        if is_nil state.head
        then some (record { heap = created.0; first = created.1; head = created.1 })
        else elim (list_set_rest created.0 state.head created.1) [
          | none ↦ none
          | some linked ↦ some (record { heap = linked.0; first = state.first; head = linked.1 })
        ]
  ]

  -- The loop of `lone_lisp_list_build` over the values that its arguments point to.
  unfoldable pub append_all : Appended → List ℕ → Option Appended
  append_all state [] = some state
  append_all state (value ∷ values) = elim (list_append state value) [
    | none ↦ none
    | some next ↦ append_all next values
  ]

  unfoldable pub list_build : Heap → List ℕ → Option (Heap × ℕ)
  list_build heap values =
      elim (append_all (record { heap = heap; first = nil; head = nil }) values) [
        | none ↦ none
        | some state ↦ some (state.heap, state.first)
      ]
