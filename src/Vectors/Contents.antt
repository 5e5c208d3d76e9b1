-- ===== src/Vectors/Contents.antt =====
-- The operations of a vector against the values that it holds.
use lone.Prelude.{
  ℕ, zero, suc, ◌+◌, ◌-◌, ◌*◌, ◌^◌, ◌≤◌, ◌<◌, ◌≡◌, refl, sym, ap, ◌∙◌, arith, Bool, true, false,
  List, [], ◌∷◌, some, ltb, leb, ◌==◌, ==_iff, if◌then◌else◌, max, get_or, set, take, replicate,
  length, length-set, length-append, length-replicate, take-length, get_or-set_self, get_or-set_ne,
  get_or-append_left, Bool-cases, inl, inr,
}
use lone.Memory.{array_size_in_bytes, array_is_bounded}
use lone.Value.{nil}
use lone.Vectors.{Vector, nil_from, reallocated, vector_resize, put_value, set_value_at}

-- A vector's capacity is the room of its values, which its count is within, and the values from its
-- count on are nil.
pub record IsVector (v : Vector) : Type 0 where
  pub room : length v.values ≡ v.capacity
  pub within : v.count ≤ v.capacity
  pub blank : (j : ℕ) → v.count ≤ j → get_or v.values j nil ≡ nil

pub get_or-nil_from :
    (i : ℕ) (xs : List ℕ) (j : ℕ)
    → get_or (nil_from i xs) j nil ≡ (if ltb j i then get_or xs j nil else nil)
unfolding nil_from
get_or-nil_from i [] j = ground arith
get_or-nil_from zero (x ∷ xs) zero = ground arith
get_or-nil_from zero (x ∷ xs) (suc j) = get_or-nil_from zero xs j ∙ ground arith
get_or-nil_from (suc i) (x ∷ xs) zero = ground arith
get_or-nil_from (suc i) (x ∷ xs) (suc j) = get_or-nil_from i xs j ∙ ground arith

length-nil_from : (i : ℕ) (xs : List ℕ) → length (nil_from i xs) ≡ length xs
unfolding nil_from
length-nil_from i [] = refl
length-nil_from zero (x ∷ xs) = ap suc (length-nil_from zero xs)
length-nil_from (suc i) (x ∷ xs) = ap suc (length-nil_from i xs)

bounded :
    (i capacity : ℕ)
    → (i + 1) * 8 < 2 ^ 64
    → capacity * 8 < 2 ^ 64
    → array_is_bounded i capacity 8 ≡ some (leb (i + 1) capacity)
unfolding array_is_bounded array_size_in_bytes
bounded i capacity h k = ground arith

-- What an operation leaves of a vector.
pub record Same (v w : Vector) : Type 0 where
  pub sound : IsVector w
  pub count_kept : w.count ≡ v.count
  pub kept : (j : ℕ) → get_or w.values j nil ≡ get_or v.values j nil

-- A vector that grows holds what it held.
vector_resize-Same :
    (memory : ℕ → Bool) (junk : ℕ) (v : Vector) (n : ℕ)
    → IsVector v
    → v.capacity ≤ n
    → n * 8 < 2 ^ 64
    → memory (n * 8) ≡ true
    → (w : Vector) × (vector_resize memory junk v n ≡ some w) × (w.capacity ≡ n) × Same v w
unfolding vector_resize array_size_in_bytes reallocated
vector_resize-Same memory junk v n inv grows small granted =
    let fits : leb (2 ^ 64) (n * 8) ≡ false = ground arith in
    let longer : ltb n v.count ≡ false = ground (arith, inv.within, grows) in
    let whole : take n v.values ≡ v.values =
      take-length n v.values (omega (arith, inv.room, grows)) in
    let values = nil_from v.count (reallocated junk n v) in
    let w : Vector = record { values = values; count = v.count; capacity = n } in
    let held : (j : ℕ) → get_or values j nil ≡ get_or v.values j nil = λ j.
      get_or-nil_from v.count (reallocated junk n v) j ∙ (elim (Bool-cases (ltb j v.count)) [
        | inl e ↦
            rw (e, whole)
              (get_or-append_left v.values (replicate (n - v.capacity) junk) j nil
                (ground (arith, e, inv.room, inv.within)))
        | inr e ↦ rw (e) (sym (inv.blank j (ground (arith, e))))
      ]) in
    (
      w,
      rw (vector_resize, fits, granted, longer) refl,
      refl,
      record {
        sound = record {
          room =
              length-nil_from v.count (reallocated junk n v)
              ∙ omega (
                arith,
                length-append (take n v.values) (replicate (n - v.capacity) junk),
                length-replicate (n - v.capacity) junk,
                ap (λ (x : List ℕ). length x) whole,
                inv.room,
                grows,
              );
          within = omega (arith, inv.within, grows);
          blank = λ j l. held j ∙ inv.blank j l;
        };
        count_kept = refl;
        kept = held;
      },
    )

-- A value set within the capacity.
pub record Placed (v w : Vector) (i value : ℕ) : Type 0 where
  pub sound : IsVector w
  pub counted : w.count ≡ max v.count (i + 1)
  pub capped : w.capacity ≤ max v.capacity ((i + 1) * 2)
  pub placed : (j : ℕ) → get_or w.values j nil ≡ (if j == i then value else get_or v.values j nil)

put_value-Placed :
    (v : Vector) (i value : ℕ)
    → IsVector v
    → i < v.capacity
    → Placed v (put_value v i value) i value
unfolding put_value
put_value-Placed v i value inv l =
    let at : (j : ℕ)
        → get_or (set v.values i value) j nil ≡ (if j == i then value else get_or v.values j nil) =
      λ j. elim (Bool-cases (j == i)) [
        | inl e ↦
            rw (e, (==_iff j i).0 e)
              (get_or-set_self v.values i value nil (omega (arith, inv.room, l)))
        | inr e ↦ rw (e) (get_or-set_ne v.values i j value nil (λ s. ground (arith, e, s)))
      ] in
    record {
      sound = record {
        room = length-set v.values i value ∙ inv.room;
        within = ground (arith, inv.within, l);
        blank = λ j h.
            let out : (j == i) ≡ false = ground (arith, h) in
            let old : v.count ≤ j = ground (arith, h) in at j ∙ rw (out) (inv.blank j old);
      };
      counted = ground arith;
      capped = omega arith;
      placed = at;
    }

-- Setting a value of a well-formed vector at any index, with an allocator that has the block of
-- twice the values up to the index and sizes within 64 bits, succeeds: the value is at the index,
-- every other index reads as it did, the count reaches beyond the index, the capacity is at most
-- the larger of the old one and that double, and the vector stays well-formed.
pub set_value_at-Placed :
    (memory : ℕ → Bool) (junk : ℕ) (v : Vector) (i value : ℕ)
    → IsVector v
    → v.capacity * 8 < 2 ^ 64
    → (i + 1) * 2 * 8 < 2 ^ 64
    → memory ((i + 1) * 2 * 8) ≡ true
    → (w : Vector) × (set_value_at memory junk v i value ≡ some w) × Placed v w i value
unfolding set_value_at
set_value_at-Placed memory junk v i value inv old small granted =
    let no_overflow : leb (2 ^ 64) (i + 1) ≡ false = ground (arith, small) in
    let no_overflow_twice : leb (2 ^ 64) ((i + 1) * 2) ≡ false = ground (arith, small) in
    let test = bounded i v.capacity (omega (arith, small)) old in
    elim (Bool-cases (leb (i + 1) v.capacity)) [
      | inl e ↦ (
        put_value v i value,
        rw (set_value_at, no_overflow, test, e) refl,
        put_value-Placed v i value inv (ground (arith, e)),
      )
      | inr e ↦
          let r =
            vector_resize-Same memory junk v ((i + 1) * 2) inv (ground (arith, e)) small granted in
          let p = put_value-Placed r.0 i value r.3.sound (omega (arith, r.2)) in
          (
            put_value r.0 i value,
            rw (set_value_at, no_overflow, test, e, no_overflow_twice, r.1) refl,
            record {
              sound = p.sound;
              counted = p.counted ∙ ap (λ (c : ℕ). max c (i + 1)) r.3.count_kept;
              capped = omega (arith, p.capped, r.2);
              placed = λ j. p.placed j ∙ ap (λ (x : ℕ). if j == i then value else x) (r.3.kept j);
            },
          )
    ]
