-- ===== src/Hash/SipHash/Absorb.antt =====
-- The specification of the streaming state: the words after the complete blocks of the message, and
-- the bytes that wait for their block.
use lone.Prelude.{ℕ, zero, suc, ◌≤◌, ◌<◌, ◌≡◌, refl, arith, List, [], ◌∷◌, ◌++◌, length}
use lone.Bytes.{u64le_read}
use lone.Hash.SipHash.{Words, State, compress_words, compress, words_loop}

-- Eight bytes at a time, as one word; what is left is shorter than a block.
unfoldable pub blocks : Words → List ℕ → Words × List ℕ
blocks w (a ∷ b ∷ c ∷ d ∷ e ∷ f ∷ g ∷ h ∷ m) =
    blocks (compress_words w (u64le_read (a ∷ b ∷ c ∷ d ∷ e ∷ f ∷ g ∷ h ∷ []))) m
blocks w m = (w, m)

pub blocks-append :
    (w : Words) (x y : List ℕ) → blocks w (x ++ y) ≡ blocks (blocks w x).0 ((blocks w x).1 ++ y)
unfolding blocks
blocks-append w (a ∷ b ∷ c ∷ d ∷ e ∷ f ∷ g ∷ h ∷ x) y =
    blocks-append (compress_words w (u64le_read (a ∷ b ∷ c ∷ d ∷ e ∷ f ∷ g ∷ h ∷ []))) x y
blocks-append w x y = refl

pub blocks_rest : (w : Words) (m : List ℕ) → length (blocks w m).1 < 8
unfolding blocks
blocks_rest w (a ∷ b ∷ c ∷ d ∷ e ∷ f ∷ g ∷ h ∷ m) =
    blocks_rest (compress_words w (u64le_read (a ∷ b ∷ c ∷ d ∷ e ∷ f ∷ g ∷ h ∷ []))) m
blocks_rest w m = omega arith

-- A word is read from the first eight bytes.
pub u64le_read-append : (x y : List ℕ) → length x ≡ 8 → u64le_read (x ++ y) ≡ u64le_read x
unfolding u64le_read
u64le_read-append (a ∷ b ∷ c ∷ d ∷ e ∷ f ∷ g ∷ h ∷ []) y n = refl
u64le_read-append x y n = absurd (omega arith)

pub blocks_one :
    (w : Words) (x y : List ℕ)
    → length x ≡ 8
    → blocks w (x ++ y) ≡ blocks (compress_words w (u64le_read x)) y
unfolding blocks
blocks_one w (a ∷ b ∷ c ∷ d ∷ e ∷ f ∷ g ∷ h ∷ []) y n = refl
blocks_one w x y n = absurd (omega arith)

pub blocks_short : (w : Words) (m : List ℕ) → length m < 8 → blocks w m ≡ (w, m)
unfolding blocks
blocks_short w (a ∷ b ∷ c ∷ d ∷ e ∷ f ∷ g ∷ h ∷ m) n = absurd (omega arith)
blocks_short w m n = refl

-- The loop over whole words ends with the words and the rest of the specification.
pub words_loop-blocks :
    (rounds : ℕ) (s : State) (p : List ℕ)
    → length p ≤ rounds
    → words_loop rounds s p ≡ (record s { words = (blocks s.words p).0 }, (blocks s.words p).1)
unfolding words_loop blocks u64le_read compress
words_loop-blocks zero s [] n = refl
words_loop-blocks zero s (a ∷ p) n = absurd (omega arith)
words_loop-blocks (suc rounds) s (a ∷ b ∷ c ∷ d ∷ e ∷ f ∷ g ∷ h ∷ m) n = ground (
  arith,
  words_loop-blocks rounds (compress s (u64le_read (a ∷ b ∷ c ∷ d ∷ e ∷ f ∷ g ∷ h ∷ []))) m
      (omega arith),
)
words_loop-blocks (suc rounds) s p n = refl
