-- ===== src/Collector/Scanned.antt =====
-- What a word of the native stack may refer to, by arithmetic, against the tests of the scan.
use lone.Prelude.{
  ℕ, zero, suc, get_or, ◌+◌, ◌^◌, ◌≤◌, ◌*◌, ◌%◌, ◌<◌, ◌≡◌, ◌⊎◌, inl, inr, refl, sym, arith, List,
  [], ◌∷◌, ◌↔◌, length,
}
use mathlib.Core.Path.{subst}
use lone.Value.{heap_index}
use lone.Collector.{ObjectHeap, points_to_heap}
use lone.Collector.Reachability.{Among, Names}
use lone.Collector.Native.{MayPoint, MayTag, MayRefer}

-- A word of the native stack may refer to a heap value: it is the address of the value, each of which
-- has 64 bytes, or a tagged word that names it, with one of the tags of heap values.
abbrev pub MayName : ℕ → ObjectHeap → ℕ → ℕ → Type 0
MayName values heap word index =
    (index < heap.count)
    × ((word ≡ values + index * 64) ⊎ (Names word index × (word % 2 ^ 8 ≤ 0x1E)))

abbrev pub NativeRoot : ℕ → ObjectHeap → List ℕ → ℕ → Type 0
NativeRoot values heap native index =
    (word : ℕ) × Among native (length native) word × MayName values heap word index

-- The tests of the scan of the native stack.
scans :
    (values : ℕ) (heap : ObjectHeap) (word index : ℕ)
    → values % 64 ≡ 0
    → (MayPoint values heap word index ⊎ MayTag values heap word index)
      ↔ MayName values heap word index
unfolding points_to_heap heap_index
scans values heap word index aligned = (
  (λ h. elim h [
    | inl p ↦ (ground (arith, p, aligned), inl (ground (arith, p, aligned)))
    | inr t ↦ (
      ground (arith, t),
      inr ((ground (arith, t), ground (arith, t), ground (arith, t)), ground (arith, t)),
    )
  ]),
  λ h. elim h.1 [
    | inl e ↦ inl (ground (arith, h.0, e, aligned), omega (arith, e))
    | inr t ↦ inr (ground (arith, h.0, t), ground (arith, t))
  ],
)

found :
    (values : ℕ) (heap : ObjectHeap) (w : ℕ) (native : List ℕ) (index : ℕ)
    → values % 64 ≡ 0
    → (word i : ℕ) → i < suc (length native)
    → get_or (w ∷ native) i 0 ≡ word
    → MayName values heap word index
    → (NativeRoot values heap native index → MayRefer values heap native index)
    → MayRefer values heap (w ∷ native) index
found values heap w native index aligned word zero l e names rest = inl (
    (scans values heap w index aligned).1
      (subst (λ (x : ℕ). MayName values heap x index) (sym e) names))
found values heap w native index aligned word (suc i) l e names rest =
    inr (rest (word, (i, omega (arith, l), omega (arith, l), e), names))

pub scanned :
    (values : ℕ) (heap : ObjectHeap) (native : List ℕ) (index : ℕ)
    → values % 64 ≡ 0
    → MayRefer values heap native index ↔ NativeRoot values heap native index
scanned values heap [] index aligned = ((λ h. absurd h), λ h. absurd (omega (arith, h.1.1)))
scanned values heap (w ∷ native) index aligned = (
  (λ h. elim h [
    | inl p ↦ (w, (0, omega arith, omega arith, refl), (scans values heap w index aligned).0 p)
    | inr r ↦
        let p = (scanned values heap native index aligned).0 r in
        (p.0, (suc p.1.0, omega (arith, p.1.1), omega (arith, p.1.2), p.1.3), p.2)
  ]),
  λ h.
      found values heap w native index aligned h.0 h.1.0 h.1.1 h.1.3 h.2
        (λ r. (scanned values heap native index aligned).1 r),
)
