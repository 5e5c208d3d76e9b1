-- ===== src/Vectors/Tests.antt =====
-- Vectors at values.
use lone.Prelude.{ℕ, zero, suc, ◌≤◌, ◌≡◌, refl, arith, true, [], ◌∷◌, some, get_or}
use lone.Value.{nil}
use lone.Vectors.{Vector, set_value_at, vector_push_all}
use lone.Vectors.Contents.{IsVector, Placed, set_value_at-Placed}
use lone.Vectors.Push.{contents, vector_push_all-append}

-- Room for two values, of which one is set.
abbrev two : Vector
two = record { values = 0x0301 ∷ nil ∷ []; count = 1; capacity = 2 }

two-IsVector : IsVector two
unfolding nil
two-IsVector = record { room = refl; within = omega arith; blank = past }
  where
    past : (j : ℕ) → 1 ≤ j → get_or two.values j nil ≡ nil
    past zero h = absurd (omega arith)
    past (suc zero) h = refl
    past (suc (suc j)) h = refl

set_value_at-Placed_example :
    (w : Vector) × (set_value_at (λ _. true) 7 two 5 0x0501 ≡ some w) × Placed two w 5 0x0501
set_value_at-Placed_example =
    set_value_at-Placed (λ _. true) 7 two 5 0x0501 two-IsVector (omega arith) (omega arith) refl

vector_push_all-append_example :
    (w : Vector) × (vector_push_all (λ _. true) 7 two (0x0501 ∷ 0x0701 ∷ []) ≡ some w)
    × IsVector w
    × (contents w ≡ 0x0301 ∷ 0x0501 ∷ 0x0701 ∷ [])
vector_push_all-append_example =
    vector_push_all-append (λ _. true) 7 (0x0501 ∷ 0x0701 ∷ []) two two-IsVector (omega arith)
      (omega arith) (λ size. refl)
