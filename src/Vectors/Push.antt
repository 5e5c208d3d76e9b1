-- ===== src/Vectors/Push.antt =====
-- Pushing values appends them.
use lone.Prelude.{
  ℕ, zero, suc, ◌+◌, ◌*◌, ◌^◌, ◌≤◌, ◌<◌, ◌≡◌, refl, sym, ap, ap₂, ◌∙◌, arith, Bool, true, false,
  List, [], ◌∷◌, ◌++◌, append_assoc, append-nil, some, ◌==◌, get_or, take, length,
}
use lone.Value.{nil}
use lone.Vectors.{Vector, vector_push, vector_push_all}
use lone.Vectors.Contents.{IsVector, Placed, set_value_at-Placed}

-- The values that a vector holds.
abbrev pub contents : Vector → List ℕ
contents v = take v.count v.values

take-agree :
    (n : ℕ) (xs ys : List ℕ)
    → n ≤ length xs
    → n ≤ length ys
    → ((j : ℕ) → j < n → get_or xs j nil ≡ get_or ys j nil)
    → take n xs ≡ take n ys
take-agree zero xs ys h k f = refl
take-agree (suc n) [] ys h k f = absurd (omega arith)
take-agree (suc n) (x ∷ xs) [] h k f = absurd (omega arith)
take-agree (suc n) (x ∷ xs) (y ∷ ys) h k f =
    ap₂ (λ (a : ℕ) (l : List ℕ). a ∷ l) (f zero (omega arith))
      (take-agree n xs ys (omega arith) (omega arith) (λ j l. f (suc j) (omega arith)))

take-suc :
    (n : ℕ) (xs : List ℕ) → n < length xs → take (suc n) xs ≡ take n xs ++ get_or xs n nil ∷ []
take-suc n [] h = absurd (omega arith)
take-suc zero (x ∷ xs) h = refl
take-suc (suc n) (x ∷ xs) h = ap (λ (l : List ℕ). x ∷ l) (take-suc n xs (omega arith))

Placed-contents :
    (v w : Vector) (value : ℕ)
    → IsVector v
    → Placed v w v.count value
    → (w.count ≡ suc v.count) × (contents w ≡ contents v ++ value ∷ [])
Placed-contents v w value inv p =
    let n = v.count in
    let more : w.count ≡ suc n = omega (arith, p.counted) in
    let room : n < length w.values = omega (arith, more, p.sound.within, p.sound.room) in
    let last : get_or w.values n nil ≡ value =
      p.placed n ∙ (let e : (n == n) ≡ true = ground arith in rw (e) refl) in
    (
      more,
      ap (λ (k : ℕ). take k w.values) more
          ∙ take-suc n w.values room
          ∙ ap₂ (λ (l : List ℕ) (x : ℕ). l ++ x ∷ [])
              (take-agree n w.values v.values (omega (arith, room))
                (omega (arith, inv.within, inv.room))
                (λ j l. p.placed j ∙ (let e : (j == n) ≡ false = ground (arith, l) in rw (e) refl)))
              last,
    )

-- Pushing values in turn onto a well-formed vector, with an allocator that grants every block and
-- sizes within 64 bits, succeeds and appends them to the values it holds; it stays well-formed.
pub vector_push_all-append :
    (memory : ℕ → Bool) (junk : ℕ) (values : List ℕ) (v : Vector)
    → IsVector v
    → v.capacity * 8 < 2 ^ 64
    → (v.count + length values) * 2 * 8 < 2 ^ 64
    → ((size : ℕ) → memory size ≡ true)
    → (w : Vector) × (vector_push_all memory junk v values ≡ some w)
      × IsVector w
      × (contents w ≡ contents v ++ values)
unfolding vector_push_all vector_push
vector_push_all-append memory junk [] v inv old small granted =
    (v, refl, inv, sym (append-nil (contents v)))
vector_push_all-append memory junk (value ∷ values) v inv old small granted =
    let s =
      set_value_at-Placed memory junk v v.count value inv old (omega (arith, small))
        (granted ((v.count + 1) * 2 * 8)) in
    let c = Placed-contents v s.0 value inv s.2 in
    let ih =
      vector_push_all-append memory junk values s.0 s.2.sound
        (omega (arith, s.2.capped, old, small)) (omega (arith, small, c.0)) granted in
    (
      ih.0,
      rw (vector_push_all, s.1) ih.1,
      ih.2,
      ih.3 ∙ ap (λ (l : List ℕ). l ++ values) c.1 ∙ append_assoc (contents v) (value ∷ []) values,
    )
