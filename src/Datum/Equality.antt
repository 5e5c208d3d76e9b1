-- ===== src/Datum/Equality.antt =====
-- Keys that match are the same value, and a value that has a hash matches itself.
use lone.Prelude.{
  ℕ, ◌≡◌, refl, ap, ap₂, Bool, true, false, List, [], ◌∷◌, ◌==◌, ==_iff, ==_refl, ◌&&◌, pos, negsuc,
}
use lone.Datum.{Datum, nil, boolean, integer, list, bytes, symbol, text}
use lone.Datum.Keys.{is_hashable, same_bytes, same_boolean, same_integer, key_matches}

pub and_true : (a b : Bool) → (a && b) ≡ true → (a ≡ true) × (b ≡ true)
and_true true b h = (refl, h)
and_true false b h = cc

same_bytes→eq : (xs ys : List ℕ) → same_bytes xs ys ≡ true → xs ≡ ys
unfolding same_bytes
same_bytes→eq [] [] h = refl
same_bytes→eq [] (y ∷ ys) h = cc
same_bytes→eq (x ∷ xs) [] h = cc
same_bytes→eq (x ∷ xs) (y ∷ ys) h =
    let p = and_true (x == y) (same_bytes xs ys) h in
    ap₂ (λ (a : ℕ) (l : List ℕ). a ∷ l) ((==_iff x y).0 p.0) (same_bytes→eq xs ys p.1)

same_bytes_refl : (xs : List ℕ) → same_bytes xs xs ≡ true
unfolding same_bytes
same_bytes_refl [] = refl
same_bytes_refl (x ∷ xs) = rw (==_refl x) (same_bytes_refl xs)

-- Keys that match are the same value.
pub key_matches→eq : (a b : Datum) → key_matches a b ≡ true → a ≡ b
unfolding key_matches same_boolean same_integer
key_matches→eq nil nil h = refl
key_matches→eq (boolean true) (boolean true) h = refl
key_matches→eq (boolean false) (boolean false) h = refl
key_matches→eq (integer (pos m)) (integer (pos n)) h =
    ap (λ (k : ℕ). integer (pos k)) ((==_iff m n).0 h)
key_matches→eq (integer (negsuc m)) (integer (negsuc n)) h =
    ap (λ (k : ℕ). integer (negsuc k)) ((==_iff m n).0 h)
key_matches→eq (bytes a) (bytes b) h = ap bytes (same_bytes→eq a b h)
key_matches→eq (symbol a) (symbol b) h = ap symbol (same_bytes→eq a b h)
key_matches→eq (text a) (text b) h = ap text (same_bytes→eq a b h)
key_matches→eq (list a b) (list c d) h =
    let p = and_true (key_matches a c) (key_matches b d) h in
    ap₂ list (key_matches→eq a c p.0) (key_matches→eq b d p.1)
key_matches→eq _ _ h = cc

-- A value that has a hash matches itself.
pub key_matches_refl : (a : Datum) → is_hashable a ≡ true → key_matches a a ≡ true
unfolding key_matches same_boolean same_integer is_hashable
key_matches_refl nil h = refl
key_matches_refl (boolean true) h = refl
key_matches_refl (boolean false) h = refl
key_matches_refl (integer (pos m)) h = ==_refl m
key_matches_refl (integer (negsuc m)) h = ==_refl m
key_matches_refl (bytes a) h = same_bytes_refl a
key_matches_refl (symbol a) h = same_bytes_refl a
key_matches_refl (text a) h = same_bytes_refl a
key_matches_refl (list a b) h =
    let p = and_true (is_hashable a) (is_hashable b) h in
    rw (key_matches_refl a p.0) (key_matches_refl b p.1)
key_matches_refl _ h = cc
