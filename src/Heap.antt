-- ===== src/Heap.antt =====
-- source/lone/lisp/heap.c: the lisp heap, with its bitmap of live values. The kernel is a parameter:
-- `remap old_size new_size` says whether `linux_mremap` succeeds, which then keeps the contents and
-- fills the new pages with zeros. Mappings start at a page, so the address of a byte of a bitmap
-- is congruent to its offset. `none` stands for `linux_exit(-1)`.
pub mod Growth
pub mod Allocation
mod Tests
use lone.Prelude.{
  ℕ, zero, suc, ◌+◌, ◌-◌, ◌*◌, ◌/◌, ◌%◌, ◌^◌, Bool, true, false, List, [], ◌∷◌, ◌++◌, Option, none,
  some, bit_and, ltb, leb, ◌==◌, ◌||◌, ◌&&◌, not, if◌then◌else◌, length, get_or, set, drop,
  replicate,
}
use lone.Bits.{find_first_zero, mark}

-- The union of a heap value, by the member that was last written. Members that this development
-- does not read are `unset`, as is a value of fresh pages.
pub data Contents : Type 0 where
  unset : Contents
  list_contents : (first rest : ℕ) → Contents
  vector_contents : (values : List ℕ) (count : ℕ) → Contents
  symbol_contents text_contents bytes_contents : (bytes : List ℕ) → Contents

pub record HeapValue : Type 0 where
  pub should_deallocate_bytes : Bool
  pub frozen : Bool
  pub hash_cached : Bool
  pub code_point_count_cached : Bool
  pub shaped : Bool
  pub type : ℕ
  pub contents : Contents

abbrev pub blank : HeapValue
blank = record {
  should_deallocate_bytes = false;
  frozen = false;
  hash_cached = false;
  code_point_count_cached = false;
  shaped = false;
  type = 0;
  contents = unset;
}

pub record Heap : Type 0 where
  pub capacity : ℕ
  pub count : ℕ
  pub first_dead : ℕ
  pub values : List HeapValue
  pub live : List ℕ
  pub marked : List ℕ
  pub pinned : List ℕ

-- A multiple of the size of a word that holds a bit for each value.
unfoldable pub bitmap_size : ℕ → ℕ
bitmap_size capacity = bit_and ((capacity + 7) / 8 + 7) (2 ^ 64 - 1 - 7)

-- The flags that an allocation resets; the rest of the value keeps its old contents.
unfoldable pub reset : HeapValue → HeapValue
reset value = record {
  should_deallocate_bytes = false;
  frozen = false;
  hash_cached = false;
  code_point_count_cached = false;
  shaped = false;
  type = value.type;
  contents = value.contents;
}

-- What follows a successful scan.
unfoldable pub occupy : Heap → ℕ → Heap
occupy heap i = record {
  capacity = heap.capacity;
  count = if leb heap.count i then i + 1 else heap.count;
  first_dead = i + 1;
  values = set heap.values i (reset (get_or heap.values i blank));
  live = mark heap.live i;
  marked = heap.marked;
  pinned = heap.pinned;
}

-- The value that a round finds, or what the next rounds give.
unfoldable pub take_found : ℕ → Heap → Option ℕ → Option (Heap × ℕ) → Option (Heap × ℕ)
take_found byte_offset heap none rest = rest
take_found byte_offset heap (some r) rest =
    some (occupy heap (byte_offset * 8 + r), byte_offset * 8 + r)

module _ (remap : ℕ → ℕ → Bool) where
  unfoldable pub grow : Heap → Option Heap
  grow heap =
      let new_capacity = heap.capacity * 2 in
      let old_bitmap_size = bitmap_size heap.capacity in
      let new_bitmap_size = bitmap_size new_capacity in
      let fresh_bitmap = replicate (new_bitmap_size - old_bitmap_size) 0 in
      if leb (2 ^ 64) new_capacity
      then none
      else if ltb (2 ^ 40) new_capacity
      then none
      else if leb (2 ^ 64) (new_capacity * 64)
      then none
      else if not (remap (heap.capacity * 64) (new_capacity * 64))
      then none
      else if not (remap old_bitmap_size new_bitmap_size)
      then none
      else some (record {
        capacity = new_capacity;
        count = heap.count;
        first_dead = heap.first_dead;
        values = heap.values ++ replicate (new_capacity - heap.capacity) blank;
        live = heap.live ++ fresh_bitmap;
        marked = heap.marked ++ fresh_bitmap;
        pinned = heap.pinned ++ fresh_bitmap;
      })

  -- The rounds from the label `retry` on; the fuel bounds their number.
  unfoldable pub retry : ℕ → ℕ → Heap → Option (Heap × ℕ)
  retry zero byte_offset heap = none
  retry (suc fuel) byte_offset heap =
      take_found byte_offset heap (find_first_zero byte_offset (drop byte_offset heap.live))
        (elim (grow heap) [ none ↦ none | some grown ↦ retry fuel byte_offset grown ])

  -- The heap after the allocation and the index of the value.
  unfoldable pub allocate_value : ℕ → Heap → Option (Heap × ℕ)
  allocate_value fuel heap = retry fuel (heap.first_dead / 8) heap

-- `lone_lisp_heap_initialize`, with `LONE_LISP_HEAP_INITIAL_CAPACITY`, which the build can set.
-- `map size` says whether `linux_mmap` gives that many zero bytes.
unfoldable pub initialize_heap : (ℕ → Bool) → ℕ → Option Heap
initialize_heap map initial_capacity =
    let size = bitmap_size initial_capacity in
    if leb (2 ^ 64) (initial_capacity * 64)
    then none
    else if not (map (initial_capacity * 64))
    then none
    else if not (map size)
    then none
    else some (record {
      capacity = initial_capacity;
      count = 0;
      first_dead = 0;
      values = replicate initial_capacity blank;
      live = replicate size 0;
      marked = replicate size 0;
      pinned = replicate size 0;
    })
