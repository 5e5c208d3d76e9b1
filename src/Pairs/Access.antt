-- ===== src/Pairs/Access.antt =====
-- A new pair holds what it was made of, and changing one of its fields keeps the other.
use lone.Prelude.{
  ℕ, suc, ◌*◌, ◌^◌, ◌≤◌, ◌<◌, ◌≡◌, ◌≢◌, refl, sym, ap, ◌∙◌, arith, Bool, true, false, Option, none,
  some, ◌==◌, length, get_or, set, length-set, get_or-set_ne, get_or-set_self,
}
use mathlib.Core.Path.{subst}
use lone.Bits.{get}
use lone.Value.{list_tag, nil_tag, code, is_nil, is_list, heap_index, value_from_index}
use lone.Value.Index.{heap_index-value_from_index, has_tag-value_from_index}
use lone.Heap.{Heap, HeapValue, Contents, list_contents, blank}
use lone.Heap.Growth.{IsHeap}
use lone.Heap.Allocation.{Allocated, allocate_value-Allocated}
use lone.Pairs.{
  heap_value_of, with_contents, pair_of, list_first, list_rest, place_pair, list_create,
  list_set_first, list_set_rest, write_contents, write_first, write_rest,
}

-- A word that refers to a pair.
abbrev pub IsPair : Heap → ℕ → ℕ → ℕ → Type 0
IsPair heap value first rest =
    (is_nil value ≡ false)
    × (is_list value ≡ true)
    × (pair_of (heap_value_of heap value).contents ≡ some (first, rest))

pub pair_first :
    (h : Heap) (v a b : ℕ) → IsPair h v a b → (list_first h v ≡ some a) × (list_rest h v ≡ some b)
unfolding list_first list_rest
pair_first h v a b p = (rw (p.0, p.1, p.2) refl, rw (p.0, p.1, p.2) refl)

reference :
    (i : ℕ)
    → i < 2 ^ 40
    → (is_nil (value_from_index i list_tag) ≡ false)
      × (is_list (value_from_index i list_tag) ≡ true)
      × (heap_index (value_from_index i list_tag) ≡ i)
unfolding is_nil is_list code
reference i l = (
  has_tag-value_from_index i list_tag nil_tag l (omega arith),
  rw
      (
        has_tag-value_from_index i list_tag nil_tag l (omega arith),
        has_tag-value_from_index i list_tag list_tag l (omega arith),
      )
      refl,
  (heap_index-value_from_index i list_tag l (omega arith)).0,
)

placed :
    (h : Heap) (i a b : ℕ)
    → IsHeap h
    → i < h.capacity
    → IsPair (place_pair h i a b) (value_from_index i list_tag) a b
unfolding place_pair
placed h i a b w l =
    let r = reference i (omega (arith, w.2)) in
    let cell = with_contents (get_or h.values i blank) (code list_tag) (list_contents a b) in
    (
      r.0,
      r.1,
      ap (λ (v : HeapValue). pair_of v.contents)
          (ap (λ (k : ℕ). get_or (set h.values i cell) k blank) r.2
            ∙ get_or-set_self h.values i cell blank (omega (arith, l, w.6))),
    )

placed-IsHeap : (h : Heap) (i a b : ℕ) → IsHeap h → IsHeap (place_pair h i a b)
unfolding place_pair
placed-IsHeap h i a b w = (w.0, w.1, w.2, w.3, w.4, w.5, length-set h.values i _ ∙ w.6)

-- A heap value has been made at an index: it was dead and is live, and any other one is live where it
-- was, with what it held.
abbrev pub IsNew : Heap → Heap → ℕ → Type 0
IsNew before after i =
    (get before.live i ≡ false)
    × (get after.live i ≡ true)
    × ((j : ℕ) → i ≢ j → get after.live j ≡ get before.live j)
    × ((j : ℕ) → i ≢ j → get_or after.values j blank ≡ get_or before.values j blank)

placed-IsNew :
    (h after : Heap) (i a b : ℕ) → Allocated h after i → IsNew h (place_pair after i a b) i
unfolding place_pair
placed-IsNew h after i a b al = (
  al.0,
  (let m = al.2 i in ground (arith, m)),
  (λ j ne. let m = al.2 j in ground (arith, m, ne)),
  λ j ne.
      let test : (i == j) ≡ false = ground (arith, ne) in
      get_or-set_ne after.values i j _ blank ne ∙ (rw (test) at (al.3 j)),
)

-- A pair made in a well-formed heap with room to grow, by a kernel that grants the memory, is a new
-- heap value: the index of its word was dead and is live afterwards. It reads as the two values
-- given; every other index is live where it was, with the same heap value, and the heap stays
-- well-formed.
pub list_create-IsPair :
    (remap : ℕ → ℕ → Bool) (fuel : ℕ) (h : Heap) (first rest : ℕ)
    → ((a b : ℕ) → remap a b ≡ true)
    → IsHeap h
    → h.capacity * 2 ≤ 2 ^ 40
    → (after : Heap) × (pair : ℕ) × (list_create remap (suc (suc fuel)) h first rest
        ≡ some (after, pair))
      × IsNew h after (heap_index pair)
      × (list_first after pair ≡ some first)
      × (list_rest after pair ≡ some rest)
      × IsHeap after
unfolding list_create
list_create-IsPair remap fuel h first rest remaps w g =
    let a = allocate_value-Allocated remap fuel h remaps w g in
    let pair = value_from_index a.1 list_tag in
    let after = place_pair a.0 a.1 first rest in
    let fields = pair_first after pair first rest (placed a.0 a.1 first rest a.3.5 a.3.1) in
    let index = (reference a.1 (omega (arith, a.3.1, a.3.5.2))).2 in
    (
      after,
      pair,
      ap
          (λ (o : Option (Heap × ℕ)). elim o [
            | none ↦ none
            | some x ↦ some (place_pair x.0 x.1 first rest, value_from_index x.1 list_tag)
          ])
          a.2,
      subst (IsNew h after) (sym index) (placed-IsNew h a.0 a.1 first rest a.3),
      fields.0,
      fields.1,
      placed-IsHeap a.0 a.1 first rest a.3.5,
    )

changed :
    (h : Heap) (v a b c d : ℕ) (change : Contents → Contents)
    → IsPair h v a b
    → heap_index v < length h.values
    → change (heap_value_of h v).contents ≡ list_contents c d
    → IsPair (write_contents h v change) v c d
changed h v a b c d change p l e =
    let old = heap_value_of h v in
    (
      p.0,
      p.1,
      ap (λ (x : HeapValue). pair_of x.contents)
            (get_or-set_self h.values (heap_index v)
              (with_contents old old.type (change old.contents)) blank l)
          ∙ ap pair_of e,
    )

-- Setting a field of a pair within the heap succeeds, changes that field, keeps the other one, and
-- leaves the heap value at any other index alone.
pub list_set-IsPair :
    (remap : ℕ → ℕ → Bool) (fuel : ℕ) (h : Heap) (v a b c j : ℕ)
    → IsPair h v a b
    → heap_index v < length h.values
    → heap_index v ≢ j
    → (after_first : Heap) × (after_rest : Heap) × (list_set_first remap fuel h v c
        ≡ some (after_first, c))
      × (list_set_rest remap fuel h v c ≡ some (after_rest, c))
      × IsPair after_first v c b
      × IsPair after_rest v a c
      × (get_or after_first.values j blank ≡ get_or h.values j blank)
      × (get_or after_rest.values j blank ≡ get_or h.values j blank)
unfolding list_set_first list_set_rest
list_set-IsPair remap fuel h v a b c j p l ne = (
  write_contents h v (λ x. write_first x c),
  write_contents h v (λ x. write_rest x c),
  rw (p.0, p.1) refl,
  rw (p.0, p.1) refl,
  changed h v a b c b (λ x. write_first x c) p l
      (ap
        (λ (o : Option (ℕ × ℕ)). elim o [
          | none ↦ (heap_value_of h v).contents
          | some q ↦ list_contents c q.1
        ])
        p.2),
  changed h v a b a c (λ x. write_rest x c) p l
      (ap
        (λ (o : Option (ℕ × ℕ)). elim o [
          | none ↦ (heap_value_of h v).contents
          | some q ↦ list_contents q.0 c
        ])
        p.2),
  get_or-set_ne h.values (heap_index v) j _ blank ne,
  get_or-set_ne h.values (heap_index v) j _ blank ne,
)
