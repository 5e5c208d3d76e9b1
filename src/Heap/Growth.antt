-- ===== src/Heap/Growth.antt =====
-- Growing the heap.
use lone.Prelude.{
  IsByte, ℕ, zero, suc, ◌+◌, ◌-◌, ◌*◌, ◌/◌, ◌%◌, ◌^◌, ◌≤◌, ◌<◌, ◌≡◌, refl, ◌∙◌, arith, Bool, true,
  false, List, [], ◌∷◌, ◌++◌, some, bit_and-ones, leb, length, get_or, replicate, All,
  length-append, length-replicate,
}
use lone.Bits.{get}
use lone.Bits.Access.{get-out_of_range}
use lone.Heap.{Heap, blank, bitmap_size, grow, initialize_heap}
use lone.Value.Masks.{bit_and-double}

pub bitmap_size_lem : (n : ℕ) → n % 64 ≡ 0 → n < 2 ^ 62 → bitmap_size n ≡ n / 8
unfolding bitmap_size
bitmap_size_lem n h g =
    let m = (n + 7) / 8 + 7 in
    omega (
      arith,
      bit_and-double m 0x7FFFFFFFFFFFFFFC,
      bit_and-double (m / 2) 0x3FFFFFFFFFFFFFFE,
      bit_and-double (m / 2 / 2) 0x1FFFFFFFFFFFFFFF,
      bit_and-ones 61 (m / 2 / 2 / 2),
    )

-- A heap whose bitmap and values match its capacity.
abbrev pub IsHeap : Heap → Type 0
IsHeap h =
    (0 < h.capacity)
    × (h.capacity % 64 ≡ 0)
    × (h.capacity ≤ 2 ^ 40)
    × (h.first_dead ≤ h.capacity)
    × (length h.live ≡ h.capacity / 8)
    × All IsByte h.live
    × (length h.values ≡ h.capacity)

module _ {ℓ} {A : Type ℓ} where
  pub get_or-padded :
      (xs : List A) (k i : ℕ) (d : A) → get_or (xs ++ replicate k d) i d ≡ get_or xs i d
  get_or-padded [] zero i d = refl
  get_or-padded [] (suc k) zero d = refl
  get_or-padded [] (suc k) (suc i) d = get_or-padded [] k i d
  get_or-padded (x ∷ xs) k zero d = refl
  get_or-padded (x ∷ xs) k (suc i) d = get_or-padded xs k i d

pub get-padded : (bits : List ℕ) (k j : ℕ) → get (bits ++ replicate k 0) j ≡ get bits j
unfolding get
get-padded bits k j = rw (get_or-padded bits k (j / 8) 0) refl

All-padded : (bits : List ℕ) (k : ℕ) → All IsByte bits → All IsByte (bits ++ replicate k 0)
All-padded [] zero h = h
All-padded [] (suc k) h = (omega arith, All-padded [] k h)
All-padded (x ∷ xs) k h = (h.0, All-padded xs k h.1)

abbrev pub grown : Heap → Heap
grown h = record {
  capacity = h.capacity * 2;
  count = h.count;
  first_dead = h.first_dead;
  values = h.values ++ replicate (h.capacity * 2 - h.capacity) blank;
  live = h.live ++ replicate (bitmap_size (h.capacity * 2) - bitmap_size h.capacity) 0;
  marked = h.marked ++ replicate (bitmap_size (h.capacity * 2) - bitmap_size h.capacity) 0;
  pinned = h.pinned ++ replicate (bitmap_size (h.capacity * 2) - bitmap_size h.capacity) 0;
}

module _ (remap : ℕ → ℕ → Bool) (remaps : (a b : ℕ) → remap a b ≡ true) where
  pub grow-grown : (h : Heap) → h.capacity * 2 ≤ 2 ^ 40 → grow remap h ≡ some (grown h)
  unfolding grow
  grow-grown h g = ground (
    arith,
    remaps (h.capacity * 64) (h.capacity * 2 * 64),
    remaps (bitmap_size h.capacity) (bitmap_size (h.capacity * 2)),
  )

pub grown-IsHeap : (h : Heap) → IsHeap h → h.capacity * 2 ≤ 2 ^ 40 → IsHeap (grown h)
grown-IsHeap h w g =
    let old = bitmap_size_lem h.capacity w.1 (omega arith) in
    let new = bitmap_size_lem (h.capacity * 2) (omega arith) (omega arith) in
    (
      omega arith,
      omega arith,
      g,
      omega arith,
      omega (
        arith,
        length-append {A = ℕ} h.live
            (replicate (bitmap_size (h.capacity * 2) - bitmap_size h.capacity) 0),
        length-replicate {A = ℕ} (bitmap_size (h.capacity * 2) - bitmap_size h.capacity) 0,
      ),
      All-padded h.live (bitmap_size (h.capacity * 2) - bitmap_size h.capacity) w.5,
      omega (
        arith,
        length-append h.values (replicate (h.capacity * 2 - h.capacity) blank),
        length-replicate (h.capacity * 2 - h.capacity) blank,
      ),
    )

replicated : (k : ℕ) → All IsByte (replicate k 0)
replicated zero = tt
replicated (suc k) = (omega arith, replicated k)

-- A heap of a whole number of words of bitmap, within the index range, comes up well-formed and
-- with no value live, where the kernel grants the memory.
pub initialize_heap-IsHeap :
    (map : ℕ → Bool) (initial_capacity : ℕ)
    → ((size : ℕ) → map size ≡ true)
    → 0 < initial_capacity
    → initial_capacity % 64 ≡ 0
    → initial_capacity ≤ 2 ^ 40
    → (heap : Heap) × (initialize_heap map initial_capacity ≡ some heap)
      × IsHeap heap
      × ((j : ℕ) → get heap.live j ≡ false)
unfolding initialize_heap
initialize_heap-IsHeap map n maps positive whole small =
    let test : leb (2 ^ 64) (n * 64) ≡ false = ground arith in
    (
      record {
        capacity = n;
        count = 0;
        first_dead = 0;
        values = replicate n blank;
        live = replicate (bitmap_size n) 0;
        marked = replicate (bitmap_size n) 0;
        pinned = replicate (bitmap_size n) 0;
      },
      rw (test, maps (n * 64), maps (bitmap_size n)) refl,
      (
        positive,
        whole,
        small,
        omega arith,
        length-replicate {A = ℕ} (bitmap_size n) 0 ∙ bitmap_size_lem n whole (omega arith),
        replicated (bitmap_size n),
        length-replicate n blank,
      ),
      λ j. get-padded [] (bitmap_size n) j ∙ get-out_of_range [] j (omega arith),
    )
