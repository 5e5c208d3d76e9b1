-- ===== src/Memory/Zero.antt =====
-- `lone_memory_is_zero`, word by word, against the test of every byte.
use lone.Prelude.{
  IsByte, ℕ, zero, suc, ◌+◌, ◌-◌, ◌*◌, ◌/◌, ◌≤◌, ◌<◌, ◌≡◌, ◌≢◌, refl, sym, ap, ◌∙◌, arith, true,
  List, [], ◌∷◌, length, length-drop, take, drop, drop-drop, All, ◌&&◌, ◌↔◌,
}
use lone.Memory.{leading_bytes, zero_bytes, zero_words, is_zero}
use lone.Memory.Words.{All-drop, u64le_read-zero}

zero_bytes-split :
    (n : ℕ) (p : List ℕ) → (zero_bytes (take n p) && zero_bytes (drop n p)) ≡ zero_bytes p
unfolding zero_bytes
zero_bytes-split zero p = refl
zero_bytes-split (suc n) [] = refl
zero_bytes-split (suc n) (b ∷ p) = ground (arith, zero_bytes-split n p)

zero_words-split :
    (n : ℕ) (p : List ℕ)
    → All IsByte p
    → n * 8 ≤ length p
    → (zero_words n p && zero_bytes (drop (n * 8) p)) ≡ zero_bytes p
unfolding zero_words
zero_words-split zero p h m = refl
zero_words-split (suc n) p h m =
    let step : 8 + n * 8 ≡ suc n * 8 = omega arith in
    let later : (zero_words n (drop 8 p) && zero_bytes (drop (suc n * 8) p))
        ≡ zero_bytes (drop 8 p) =
      ap (λ (x : List ℕ). zero_words n (drop 8 p) && zero_bytes x)
        (sym (drop-drop 8 (n * 8) p ∙ ap (λ (k : ℕ). drop k p) step))
      ∙ zero_words-split n (drop 8 p) (All-drop 8 p h) (omega (arith, length-drop 8 p)) in
    ground (arith, later, u64le_read-zero p h, zero_bytes-split 8 p)

leading_bytes-lt : (a : ℕ) → leading_bytes a < 8
unfolding leading_bytes
leading_bytes-lt a = ground arith

zero_bytes_iff : (p : List ℕ) → (zero_bytes p ≡ true) ↔ All (λ b. b ≡ 0) p
unfolding zero_bytes
zero_bytes_iff [] = (λ e. tt, λ h. refl)
zero_bytes_iff (b ∷ p) = (
  λ e. (ground (arith, e), (zero_bytes_iff p).0 (ground (arith, e))),
  λ h. ground (arith, h.0, (zero_bytes_iff p).1 h.1),
)

is_zero-zero_bytes : (x : ℕ) (p : List ℕ) → All IsByte p → x ≢ 0 → is_zero x p ≡ zero_bytes p
unfolding is_zero
is_zero-zero_bytes x p h ne =
    let k = leading_bytes x in
    let n = (length p - k) / 8 in
    let words : 8 ≤ length p
        → (zero_words n (drop k p) && zero_bytes (drop (k + n * 8) p)) ≡ zero_bytes (drop k p) =
      λ m.
        ap (λ (y : List ℕ). zero_words n (drop k p) && zero_bytes y) (sym (drop-drop k (n * 8) p))
        ∙ zero_words-split n (drop k p) (All-drop k p h)
            (omega (arith, length-drop k p, leading_bytes-lt x, m)) in
    ground (arith, words, zero_bytes-split k p)

-- A block that is not at the null pointer is found zero exactly where each of its bytes is zero.
pub is_zero_iff :
    (x : ℕ) (p : List ℕ) → All IsByte p → x ≢ 0 → (is_zero x p ≡ true) ↔ All (λ b. b ≡ 0) p
is_zero_iff x p h ne = (
  λ e. (zero_bytes_iff p).0 (sym (is_zero-zero_bytes x p h ne) ∙ e),
  λ a. is_zero-zero_bytes x p h ne ∙ (zero_bytes_iff p).1 a,
)
