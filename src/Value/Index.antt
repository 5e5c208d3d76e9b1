-- ===== src/Value/Index.antt =====
-- References to heap values: the index in the upper 40 bits, the tag in the low byte.
use lone.Prelude.{
  ℕ, ◌+◌, ◌*◌, ◌/◌, ◌%◌, ◌^◌, ◌<◌, ◌≡◌, sym, ap, ◌∙◌, arith, bit_and, bit_or, bit_or-disjoint,
  bit_and-ones, ◌==◌,
}
use lone.Value.{Tag, code, heap_index, value_from_index, retag, type_of, has_tag}
use lone.Value.Masks.{bit_and-high}
use lone.Value.Classes.{type_of-low}

joined :
    (index : ℕ) (t : Tag)
    → index < 2 ^ 40
    → code t < 256
    → value_from_index index t ≡ index * 2 ^ 24 + code t
unfolding value_from_index
joined index t h g =
    ap (λ (x : ℕ). bit_or x (code t))
      (let e : index * 2 ^ 24 % 2 ^ 64 ≡ index * 2 ^ 24 = omega arith in e)
    ∙ bit_or-disjoint 24 index (code t) (omega arith)

-- A reference made from an index below 2 ^ 40 and a tag of one byte gives the index back, and it
-- has the type that its tag has.
pub heap_index-value_from_index :
    (index : ℕ) (t : Tag)
    → index < 2 ^ 40
    → code t < 256
    → (heap_index (value_from_index index t) ≡ index)
      × (type_of (value_from_index index t) ≡ type_of (code t))
unfolding heap_index
heap_index-value_from_index index t h g =
    let low : value_from_index index t % 256 ≡ code t % 256 = omega (arith, joined index t h g) in
    (
      omega (arith, joined index t h g),
      type_of-low (value_from_index index t) ∙ (ap type_of low ∙ sym (type_of-low (code t))),
    )

-- The tag test on a reference.
pub has_tag-value_from_index :
    (index : ℕ) (t u : Tag)
    → index < 2 ^ 40
    → code t < 256
    → has_tag (value_from_index index t) u ≡ (code t == code u)
unfolding has_tag
has_tag-value_from_index index t u h g =
    ap (λ (x : ℕ). x == code u)
      (let e : bit_and (value_from_index index t) 0xFF ≡ code t =
          omega (arith, bit_and-ones 8 (value_from_index index t), joined index t h g) in
        e)

retagged : (w : ℕ) (t : Tag) → w < 2 ^ 64 → code t < 256 → retag w t ≡ w / 256 * 256 + code t
unfolding retag
retagged w t h g =
    ap (λ (x : ℕ). bit_or x (code t)) (bit_and-high w h) ∙ bit_or-disjoint 8 (w / 256) (code t) g

-- Retagging a word replaces its tag byte and keeps every bit above it, the heap index among them.
pub retag-keeps :
    (w : ℕ) (t : Tag)
    → w < 2 ^ 64
    → code t < 256
    → (retag w t / 256 ≡ w / 256)
      × (heap_index (retag w t) ≡ heap_index w)
      × (retag w t % 256 ≡ code t)
unfolding heap_index
retag-keeps w t h g = (
  omega (arith, retagged w t h g),
  omega (arith, retagged w t h g),
  omega (arith, retagged w t h g),
)
