-- ===== src/Collector.antt =====
-- source/lone/lisp/garbage_collector.c: the mark phase. A heap value is what the collector
-- reads of it. The words of the native stack are those between its two ends, in either order of
-- the ends. The recursion of the marking takes a number of rounds; `none` stands for their end.
pub mod Count
pub mod Reachability
pub mod References
pub mod Marking
pub mod Native
pub mod Scanned
pub mod Roots
pub mod Sweep
mod Tests
use lone.Prelude.{
  ℕ, zero, suc, ◌+◌, ◌-◌, ◌*◌, ◌/◌, ◌%◌, ◌^◌, Bool, true, false, List, [], ◌∷◌, ◌++◌, Option, none,
  some, ltb, leb, ◌==◌, not, ◌&&◌, if◌then◌else◌, length, get_or, take,
}
use lone.Bits.{get, mark, clear}
use lone.Value.{heap_index, is_tombstone}
use lone.Stack.{Stack}
use lone.Table.{Entry}

-- The union of a heap value by its type. A generator's stack may be missing. Symbols, texts and
-- bytes refer to no other values.
pub data Object : Type 0 where
  module_object : (name environment exports : ℕ) → Object
  function_object : (arguments code environment shape : ℕ) → Object
  primitive_object : (name closure : ℕ) → Object
  continuation_object : (frames : List ℕ) → Object
  generator_object : (function : ℕ) (own caller : Option Stack) → Object
  list_object : (first rest : ℕ) → Object
  vector_object : (values : List ℕ) (count : ℕ) → Object
  hashed_object : (prototype used : ℕ) (entries : List Entry) → Object
  shaped_object : (prototype shape count : ℕ) (values : List ℕ) → Object
  shape_object : (keys : List ℕ) (count : ℕ) → Object
  bytes_object : Object

pub record ObjectHeap : Type 0 where
  pub count : ℕ
  pub objects : List Object
  pub live : List ℕ

-- The frames that `lone_lisp_mark_lisp_stack_roots_of` visits.
unfoldable pub stack_frames : Option Stack → List ℕ
stack_frames none = []
stack_frames (some stack) = take stack.top stack.frames

-- The keys and values that are not deleted.
unfoldable pub entry_words : List Entry → List ℕ
entry_words [] = []
entry_words (entry ∷ entries) =
    if is_tombstone entry.0 then entry_words entries else entry.0 ∷ entry.1 ∷ entry_words entries

-- The words that a heap value is marked through, in the order of the marking.
unfoldable pub references : Object → List ℕ
references (module_object name environment exports) = name ∷ environment ∷ exports ∷ []
references (function_object arguments code environment shape) =
    arguments ∷ code ∷ environment ∷ shape ∷ []
references (primitive_object name closure) = name ∷ closure ∷ []
references (continuation_object frames) = frames
references (generator_object function own caller) =
    function ∷ (stack_frames own ++ stack_frames caller)
references (list_object first rest) = first ∷ rest ∷ []
references (vector_object values count) = take count values
references (hashed_object prototype used entries) = prototype ∷ entry_words (take used entries)
references (shaped_object prototype shape count values) = prototype ∷ shape ∷ take count values
references (shape_object keys count) = take count keys
references bytes_object = []

abbrev pub object_at : ObjectHeap → ℕ → Object
object_at heap index = get_or heap.objects index bytes_object

-- `mark` is how a heap value is marked. A word with bit 0 set is no reference.
unfoldable pub mark_value : (ℕ → List ℕ → Option (List ℕ)) → ℕ → List ℕ → Option (List ℕ)
mark_value mark_index word marked =
    if word % 2 == 1 then some marked else mark_index (heap_index word) marked

unfoldable pub mark_values : (ℕ → List ℕ → Option (List ℕ)) → List ℕ → List ℕ → Option (List ℕ)
mark_values mark_index [] marked = some marked
mark_values mark_index (word ∷ words) marked = elim (mark_value mark_index word marked) [
  | none ↦ none
  | some after ↦ mark_values mark_index words after
]

unfoldable pub mark_heap_value : ℕ → ObjectHeap → ℕ → List ℕ → Option (List ℕ)
mark_heap_value zero heap index marked = none
mark_heap_value (suc rounds) heap index marked =
    let rest =
      mark_values (mark_heap_value rounds heap) (references (object_at heap index))
        (mark marked index) in
    if not (get heap.live index)
    then some marked
    else if get marked index
    then some marked
    else rest

-- `lone_lisp_points_to_heap` for a heap at an address
unfoldable pub points_to_heap : ℕ → ObjectHeap → ℕ → Bool
points_to_heap values heap pointer =
    if pointer % 64 == 0
    then leb values pointer && ltb pointer (values + heap.count * 64)
    else false

-- The bitmaps of the marked and of the pinned values.
abbrev pub Marked : Type 0
Marked = List ℕ × List ℕ

unfoldable pub pin_and_mark : ℕ → ObjectHeap → ℕ → Marked → Option Marked
pin_and_mark rounds heap index bits =
    if not (get heap.live index)
    then some bits
    else elim (mark_heap_value rounds heap index bits.0) [
      | none ↦ none
      | some marked ↦ some (marked, mark bits.1 index)
    ]

-- The two readings of a word of the native stack: a pointer, and a tagged value.
unfoldable pub mark_native_word : ℕ → ℕ → ObjectHeap → ℕ → Marked → Option Marked
mark_native_word rounds values heap word bits =
    elim (if points_to_heap values heap word
      then pin_and_mark rounds heap ((word - values) / 64) bits
      else some bits) [
        | none ↦ none
        | some after ↦
            if word % 2 == 0 && leb (word % 256) 0x1E && ltb (heap_index word) heap.count
            then pin_and_mark rounds heap (heap_index word) after
            else some after
      ]

unfoldable pub mark_native_words : ℕ → ℕ → ObjectHeap → List ℕ → Marked → Option Marked
mark_native_words rounds values heap [] bits = some bits
mark_native_words rounds values heap (word ∷ words) bits =
    elim (mark_native_word rounds values heap word bits) [
      | none ↦ none
      | some after ↦ mark_native_words rounds values heap words after
    ]

-- The known roots, the frames of the machine's stack, and the native stack with the registers.
unfoldable pub mark_all_reachable :
    ℕ → ℕ → ObjectHeap → List ℕ → Stack → List ℕ → Marked → Option Marked
mark_all_reachable rounds values heap known stack native bits =
    elim (mark_values (mark_heap_value rounds heap) known bits.0) [
      | none ↦ none
      | some after_known ↦
          elim (mark_values (mark_heap_value rounds heap) (stack_frames (some stack)) after_known) [
            | none ↦ none
            | some after_stack ↦ mark_native_words rounds values heap native (after_stack, bits.1)
          ]
    ]
