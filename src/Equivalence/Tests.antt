-- ===== src/Equivalence/Tests.antt =====
-- A text in its word and the same text on the heap.
use lone.Prelude.{
  IsByte, ℕ, ◌≡◌, ◌↔◌, refl, arith, true, List, [], ◌∷◌, some, All, ◌==◌, ◌||◌, replicate,
}
use lone.Value.{
  text_tag, bytes_tag, code, type_of, has_same_type, is_inline_value, inline_value_bytes,
  memory_bytes, heap_index,
}
use lone.Heap.{Heap, blank, text_contents}
use lone.Pairs.{with_contents}
use lone.Equivalence.{bytes_of, is_equivalent}
use lone.Equivalence.Strings.{is_equivalent-bytes}

abbrev car : List ℕ
car = 0x63 ∷ 0x61 ∷ 0x72 ∷ []

abbrev heap : Heap
heap = record {
  capacity = 64;
  count = 1;
  first_dead = 1;
  values = with_contents blank (code text_tag) (text_contents car) ∷ replicate 63 blank;
  live = 0x80 ∷ replicate 7 0;
  marked = replicate 8 0;
  pinned = replicate 8 0;
}

car-IsByte : All IsByte car
car-IsByte = omega arith

-- The word 0x72616397 holds the text, and the word 0x12 refers to the heap value 0.
both_texts :
    (has_same_type 0x72616397 0x12 ≡ true)
    × ((type_of 0x72616397 == code text_tag || type_of 0x72616397 == code bytes_tag) ≡ true)
unfolding has_same_type type_of code
both_texts = (refl, refl)

both_car : (bytes_of heap 0x72616397 ≡ some car) × (bytes_of heap 0x12 ≡ some car)
unfolding bytes_of is_inline_value inline_value_bytes memory_bytes type_of code heap_index
both_car = (refl, refl)

is_equivalent-bytes_example :
    (is_equivalent (λ w. w) heap 0x72616397 0x12 ≡ some true) ↔ (car ≡ car)
is_equivalent-bytes_example =
    is_equivalent-bytes (λ w. w) heap 0x72616397 0x12 car car both_texts.0 both_texts.1 both_car.0
      both_car.1 car-IsByte car-IsByte (λ e. refl)
