-- ===== src/Collector/Reachability.antt =====
-- What the collector is to keep, told by the fields of the heap values and by what a word means, and
-- not by the functions of the mark phase: the values that are reached from the roots through live
-- values.
use lone.Prelude.{
  ℕ, ◌*◌, ◌%◌, ◌^◌, ◌+◌, ◌<◌, ◌≤◌, ◌≡◌, ◌≢◌, ◌⊎◌, true, List, Option, none, some, length, get_or,
}
use lone.Bits.{get}
use lone.Value.{tombstone}
use lone.Stack.{Stack}
use lone.Table.{Entry, no_entry}
use lone.Collector.{
  Object, ObjectHeap, object_at, module_object, function_object, primitive_object,
  continuation_object, generator_object, list_object, vector_object, hashed_object, shaped_object,
  shape_object, bytes_object,
}

-- A word is one of the first `count` words of an array.
abbrev pub Among : List ℕ → ℕ → ℕ → Type 0
Among words count word = (i : ℕ) × (i < count) × (i < length words) × (get_or words i 0 ≡ word)

-- A word is a frame in use of a stack that is there.
abbrev pub Framed : Option Stack → ℕ → Type 0
Framed none word = ⊥
Framed (some stack) word = Among stack.frames stack.top word

-- A word is the key or the value of one of the first `used` entries, which is not deleted.
abbrev pub InEntries : List Entry → ℕ → ℕ → Type 0
InEntries entries used word =
    (i : ℕ) × (i < used)
    × (i < length entries)
    × ((get_or entries i no_entry).0 ≢ tombstone)
    × ((word ≡ (get_or entries i no_entry).0) ⊎ (word ≡ (get_or entries i no_entry).1))

-- A word is one of those that a heap value holds.
abbrev pub Holds : Object → ℕ → Type 0
Holds (module_object name environment exports) word =
    (word ≡ name) ⊎ ((word ≡ environment) ⊎ (word ≡ exports))
Holds (function_object arguments code environment shape) word =
    (word ≡ arguments) ⊎ ((word ≡ code) ⊎ ((word ≡ environment) ⊎ (word ≡ shape)))
Holds (primitive_object name closure) word = (word ≡ name) ⊎ (word ≡ closure)
Holds (continuation_object frames) word = Among frames (length frames) word
Holds (generator_object function own caller) word =
    (word ≡ function) ⊎ (Framed own word ⊎ Framed caller word)
Holds (list_object first rest) word = (word ≡ first) ⊎ (word ≡ rest)
Holds (vector_object values count) word = Among values count word
Holds (hashed_object prototype used entries) word = (word ≡ prototype) ⊎ InEntries entries used word
Holds (shaped_object prototype shape count values) word =
    (word ≡ prototype) ⊎ ((word ≡ shape) ⊎ Among values count word)
Holds (shape_object keys count) word = Among keys count word
Holds bytes_object word = ⊥

-- A word is even, and has the index above its 24 low bits: it is a reference to the value there.
abbrev pub Names : ℕ → ℕ → Type 0
Names word index = (word % 2 ≡ 0) × (index * 2 ^ 24 ≤ word) × (word < index * 2 ^ 24 + 2 ^ 24)

pub data Reaches (heap : ObjectHeap) : ℕ → ℕ → Type 0 where
  here : (index : ℕ) → get heap.live index ≡ true → Reaches heap index index
  through :
      (index word next last : ℕ)
      → get heap.live index ≡ true
      → Holds (object_at heap index) word
      → Names word next
      → Reaches heap next last
      → Reaches heap index last
