-- ===== src/Pairs/Tests.antt =====
-- Pairs in a small heap.
use lone.Prelude.{ℕ, ◌≡◌, ◌≢◌, ◌<◌, refl, arith, Bool, true, ◌∷◌, some, replicate, length, get_or}
use lone.Value.{list_tag, code, is_nil, is_list, has_tag, heap_index}
use lone.Heap.{Heap, blank, list_contents}
use lone.Heap.Growth.{IsHeap}
use lone.Pairs.{list_create, list_first, list_rest, list_set_first, list_set_rest, with_contents}
use lone.Pairs.Access.{IsPair, IsNew, list_create-IsPair, list_set-IsPair}

abbrev granted : ℕ → ℕ → Bool
granted old_size new_size = true

-- A heap of which the first value is a pair of the integers 1 and 2.
abbrev small : Heap
small = record {
  capacity = 64;
  count = 1;
  first_dead = 1;
  values = with_contents blank (code list_tag) (list_contents 0x101 0x201) ∷ replicate 63 blank;
  live = 0x80 ∷ replicate 7 0;
  marked = replicate 8 0;
  pinned = replicate 8 0;
}

small-IsHeap : IsHeap small
small-IsHeap = (omega arith, refl, omega arith, omega arith, refl, omega arith, refl)

list_create-IsPair_example :
    (after : Heap) × (pair : ℕ) × (list_create granted 2 small 0x301 0x0A ≡ some (after, pair))
    × IsNew small after (heap_index pair)
    × (list_first after pair ≡ some 0x301)
    × (list_rest after pair ≡ some 0x0A)
    × IsHeap after
list_create-IsPair_example =
    list_create-IsPair granted 0 small 0x301 0x0A (λ a b. refl) small-IsHeap (omega arith)

-- The word 0x0A refers to the heap value 0.
small-IsPair : IsPair small 0x0A 0x101 0x201
unfolding is_nil is_list has_tag code heap_index
small-IsPair = (refl, refl, refl)

within : heap_index 0x0A < length small.values
unfolding heap_index
within = omega arith

elsewhere : heap_index 0x0A ≢ 5
unfolding heap_index
elsewhere = omega arith

list_set-IsPair_example :
    (after_first : Heap) × (after_rest : Heap) × (list_set_first granted 2 small 0x0A 0x501
      ≡ some (after_first, 0x501))
    × (list_set_rest granted 2 small 0x0A 0x501 ≡ some (after_rest, 0x501))
    × IsPair after_first 0x0A 0x501 0x201
    × IsPair after_rest 0x0A 0x101 0x501
    × (get_or after_first.values 5 blank ≡ get_or small.values 5 blank)
    × (get_or after_rest.values 5 blank ≡ get_or small.values 5 blank)
list_set-IsPair_example =
    list_set-IsPair granted 2 small 0x0A 0x101 0x201 0x501 5 small-IsPair within elsewhere
