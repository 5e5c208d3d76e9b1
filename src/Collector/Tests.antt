-- ===== src/Collector/Tests.antt =====
-- A heap of four values: a pair that refers to a text and to itself, and a vector that holds a text.
use lone.Prelude.{
  ℕ, zero, suc, ◌≡◌, ◌↔◌, refl, arith, true, false, [], ◌∷◌, some, ◌%◌, ◌/◌, ◌^◌, get_or, ◌-◌,
  zero-bit_and,
}
use lone.Bits.{get, get_bit}
use lone.Stack.{Stack}
use lone.Collector.{
  ObjectHeap, list_object, vector_object, bytes_object, Marked, mark_all_reachable,
}
use lone.Collector.Reachability.{Reaches}
use lone.Collector.Sweep.{kill_all_unmarked}
use lone.Collector.Sweep.Outcome.{IsOutcome, kill_all_unmarked-IsOutcome}
use lone.Collector.Scanned.{NativeRoot}
use lone.Collector.Roots.{IsClear, Root, mark_all_reachable-Reaches}

-- The pair at 0 refers to the text at 1 and to itself; the vector at 2 to the text at 3.
abbrev four_values : ObjectHeap
four_values = record {
  count = 4;
  objects =
      list_object 0x1000012 0x0A
      ∷ bytes_object
      ∷ vector_object (0x3000012 ∷ []) 1
      ∷ bytes_object
      ∷ [];
  live = 0xF0 ∷ [];
}

zero_byte : (n : ℕ) → ◌≡◌ {A = ℕ} (get_or (0 ∷ []) n 0) 0
zero_byte zero = refl
zero_byte (suc n) = refl

clear_bits : (x : ℕ) → get (0 ∷ []) x ≡ false
unfolding get get_bit
clear_bits x = rw (zero_byte (x / 8), zero-bit_and (2 ^ (7 - x % 8))) refl

four_values-IsClear : IsClear four_values (0 ∷ [])
four_values-IsClear = (((omega arith, tt), refl), clear_bits)

-- The pair is on the machine's stack, and the vector on the native one.
abbrev one_frame : Stack
one_frame = record { frames = 0x0A ∷ 0 ∷ []; top = 1 }

mark_all_reachable-Reaches_example :
    (after : Marked) × (mark_all_reachable 9 0x10000 four_values
        (0x3 ∷ [])
        one_frame
        (0x200000C ∷ [])
        (0 ∷ [], 0 ∷ [])
      ≡ some after)
    × ((x : ℕ)
        → (get after.0 x ≡ true) ↔ (
            (a : ℕ) × Root 0x10000 four_values (0x3 ∷ []) one_frame (0x200000C ∷ []) a
            × Reaches four_values a x))
    × ((x : ℕ)
        → get four_values.live x ≡ true
        → (get after.1 x ≡ true) ↔ NativeRoot 0x10000 four_values (0x200000C ∷ []) x)
mark_all_reachable-Reaches_example =
    mark_all_reachable-Reaches 9 0x10000 four_values (0x3 ∷ []) one_frame (0x200000C ∷ [])
      (0 ∷ [], 0 ∷ []) four_values-IsClear four_values-IsClear (omega arith) refl

-- The vector and its text are not marked.
kill_all_unmarked-IsOutcome_example :
    IsOutcome 4 (0xF0 ∷ []) (0xC0 ∷ []) (kill_all_unmarked four_values (0xC0 ∷ []))
kill_all_unmarked-IsOutcome_example =
    kill_all_unmarked-IsOutcome four_values (0xC0 ∷ []) (omega arith, tt) (omega arith)
