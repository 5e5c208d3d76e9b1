-- ===== src/Heap/Tests.antt =====
-- Allocations in small heaps.
use lone.Prelude.{ℕ, ◌≡◌, refl, arith, Bool, true, false, some, replicate}
use lone.Bits.{get}
use lone.Heap.{Heap, blank, allocate_value, initialize_heap}
use lone.Heap.Growth.{IsHeap, initialize_heap-IsHeap}
use lone.Heap.Allocation.{Allocated, allocate_value-Allocated}

abbrev granted : ℕ → ℕ → Bool
granted old_size new_size = true

-- Sixty-four values, all of them live.
abbrev full : Heap
full = record {
  capacity = 64;
  count = 64;
  first_dead = 64;
  values = replicate 64 blank;
  live = replicate 8 255;
  marked = replicate 8 0;
  pinned = replicate 8 0;
}

full-IsHeap : IsHeap full
full-IsHeap = (omega arith, refl, omega arith, omega arith, refl, omega arith, refl)

allocate_value-Allocated_example :
    (after : Heap) × (i : ℕ) × (allocate_value granted 2 full ≡ some (after, i))
    × Allocated full after i
allocate_value-Allocated_example =
    allocate_value-Allocated granted 0 full (λ a b. refl) full-IsHeap (omega arith)

initialize_heap-IsHeap_example :
    (heap : Heap) × (initialize_heap (λ size. true) 1048576 ≡ some heap)
    × IsHeap heap
    × ((j : ℕ) → get heap.live j ≡ false)
initialize_heap-IsHeap_example =
    initialize_heap-IsHeap (λ size. true) 1048576 (λ size. refl) (omega arith) (omega arith)
      (omega arith)
