-- ===== src/Collector/Roots.antt =====
-- The mark phase as a whole: from the known roots, the stack of the machine and the native stack.
use lone.Prelude.{
  ℕ, ◌*◌, ◌%◌, ◌<◌, ◌≡◌, ◌⊎◌, inl, inr, sym, ◌∙◌, arith, true, false, List, some, ◌↔◌, length,
}
use lone.Bits.{get}
use lone.Stack.{Stack}
use lone.Collector.{
  ObjectHeap, object_at, mark_heap_value, stack_frames, Marked, mark_all_reachable,
}
use lone.Collector.Count.{unset_bits-le}
use lone.Collector.Reachability.{Among, Names, Reaches, here, through}
use lone.Collector.References.{Refers, Refers-Holds, Refers-Framed, Refers-Among, same_sum}
use lone.Collector.Marking.{IsBitmap, Marks, chained, values-Ends, mark_heap_value-Ends}
use lone.Collector.Native.{MayRefer, words-Ends}
use lone.Collector.Scanned.{NativeRoot, scanned}

live_start : (heap : ObjectHeap) (a x : ℕ) → Reaches heap a x → get heap.live a ≡ true
live_start heap a x (here index l) = l
live_start heap a x (through index word next last l h n rest) = l

-- A bitmap with no bit set.
abbrev pub IsClear : ObjectHeap → List ℕ → Type 0
IsClear heap bits = IsBitmap heap bits × ((x : ℕ) → get bits x ≡ false)

-- What is reached from a marked value is marked.
marked_path :
    (heap : ObjectHeap) (Start : ℕ → Type 0) (bits after : List ℕ)
    → ((x : ℕ) → get bits x ≡ false)
    → Marks heap Start bits after
    → (a x : ℕ) → Reaches heap a x
    → get after a ≡ true
    → get after x ≡ true
marked_path heap Start bits after clear m a x (here index l) e = e
marked_path heap Start bits after clear m a x (through index word next last l h n rest) e =
    marked_path heap Start bits after clear m next last rest (
      m.closed index next e (clear index)
        ((Refers-Holds (object_at heap index) next).1 (word, h, n))
        (live_start heap next last rest))

-- Marking from given values marks exactly what they reach.
reached-Marks :
    (heap : ObjectHeap) (Start : ℕ → Type 0) (bits after : List ℕ)
    → ((x : ℕ) → get bits x ≡ false)
    → Marks heap Start bits after
    → (x : ℕ) → (get after x ≡ true) ↔ ((a : ℕ) × Start a × Reaches heap a x)
reached-Marks heap Start bits after clear m x = (
  (λ e. elim (m.only x e) [ inl f ↦ absurd (let g = sym (clear x) ∙ f in cc) | inr r ↦ r ]),
  λ r.
      marked_path heap Start bits after clear m r.0 x r.2
        (m.starts r.0 r.1 (live_start heap r.0 x r.2)),
)

-- A marking from values given in another way.
renamed :
    (heap : ObjectHeap) (Start Other : ℕ → Type 0) (bits after : List ℕ)
    → ((a : ℕ) → Start a ↔ Other a)
    → Marks heap Start bits after
    → Marks heap Other bits after
renamed heap Start Other bits after same m = record {
  bitmap = m.bitmap;
  keeps = m.keeps;
  only = λ x e. elim (m.only x e) [ inl f ↦ inl f | inr (a, s, r) ↦ inr (a, (same a).0 s, r) ];
  closed = m.closed;
  starts = λ a s l. m.starts a ((same a).1 s) l;
}

-- The roots: what the known words name, what the frames in use of the machine's stack name, and what
-- the native stack may refer to.
abbrev pub Root : ℕ → ObjectHeap → List ℕ → Stack → List ℕ → ℕ → Type 0
Root values heap known stack native a =
    (((word : ℕ) × Among known (length known) word × Names word a)
      ⊎ ((word : ℕ) × Among stack.frames stack.top word × Names word a))
    ⊎ NativeRoot values heap native a

Root-iff :
    (values : ℕ) (heap : ObjectHeap) (known : List ℕ) (stack : Stack) (native : List ℕ) (a : ℕ)
    → values % 64 ≡ 0
    → ((Refers known a ⊎ Refers (stack_frames (some stack)) a) ⊎ MayRefer values heap native a)
      ↔ Root values heap known stack native a
Root-iff values heap known stack native a aligned =
    same_sum _ _ _ _ (same_sum _ _ _ _ (Refers-Among known a) (Refers-Framed stack a))
      (scanned values heap native a aligned)

-- With clear bitmaps, more rounds than there are bits, and the heap's values at a multiple of their
-- size, the mark phase ends: it marks exactly the values that are reached from the roots through the
-- words that live values hold, and pins exactly the live ones that the native stack may refer to.
pub mark_all_reachable-Reaches :
    (rounds values : ℕ) (heap : ObjectHeap) (known : List ℕ) (stack : Stack) (native : List ℕ)
    (bits : Marked)
    → IsClear heap bits.0
    → IsClear heap bits.1
    → 8 * length heap.live < rounds
    → values % 64 ≡ 0
    → (after : Marked) × (mark_all_reachable rounds values heap known stack native bits
        ≡ some after)
      × ((x : ℕ)
          → (get after.0 x ≡ true)
            ↔ ((a : ℕ) × Root values heap known stack native a × Reaches heap a x))
      × ((x : ℕ)
          → get heap.live x ≡ true
          → (get after.1 x ≡ true) ↔ NativeRoot values heap native x)
unfolding mark_all_reachable
mark_all_reachable-Reaches rounds values heap known stack native bits w v enough aligned =
    let frames = stack_frames (some stack) in
    let n = 8 * length heap.live in
    let first =
      values-Ends heap rounds (mark_heap_value rounds heap) (mark_heap_value-Ends heap rounds) known
        bits.0 w.0 (omega (arith, unset_bits-le n bits.0, enough)) in
    let second =
      values-Ends heap rounds (mark_heap_value rounds heap) (mark_heap_value-Ends heap rounds)
        frames first.0 first.2.bitmap (omega (arith, unset_bits-le n first.0, enough)) in
    let third =
      words-Ends values heap rounds native (second.0, bits.1) second.2.bitmap v.0
        (omega (arith, unset_bits-le n second.0, enough)) in
    let precise =
      chained heap (Refers known) (Refers frames) bits.0 first.0 second.0 first.2 second.2 in
    let all =
      chained heap (λ a. Refers known a ⊎ Refers frames a) (MayRefer values heap native) bits.0
        second.0 third.0.0 precise third.2 in
    (
      third.0,
      rw (mark_all_reachable, first.1, second.1) third.1,
      reached-Marks heap (Root values heap known stack native) bits.0 third.0.0 w.1 (
          renamed heap _ (Root values heap known stack native) bits.0 third.0.0
            (λ a. Root-iff values heap known stack native a aligned) all),
      λ x l.
          let names = scanned values heap native x aligned in
          (
            (λ e. elim (third.3.1 x e) [
              | inl f ↦ absurd (let g = sym (v.1 x) ∙ f in cc)
              | inr s ↦ names.0 s
            ]),
            λ s. third.3.3 x (names.1 s) l,
          ),
    )
