-- ===== src/Stack/Unwind.antt =====
-- Where the unwinding of the stack stops.
use lone.Prelude.{
  ℕ, zero, suc, ◌+◌, ◌-◌, ◌≤◌, ◌<◌, ◌≡◌, ◌∙◌, refl, ap, arith, Bool, true, false, List, Option,
  none, some, get_or, ◌||◌, Bool-cases, inl, inr,
}
use native.Mathlib.Decide.{ℕ_discrete}
use lone.Value.{function_delimiter_tag, has_tag}
use lone.Stack.{step_code, tail_return}
use lone.Stack.Pop.{Unwound, at_delimiter, at_tail_return, is_step, unwind_from}

-- A frame that stops the unwinding.
abbrev pub is_marker : ℕ → Bool
is_marker frame = has_tag frame function_delimiter_tag || is_step frame (step_code tail_return)

-- The frames from `a` up to `b` do not stop it.
abbrev pub Plain : List ℕ → ℕ → ℕ → Type 0
Plain frames a b = (j : ℕ) → a ≤ j → j < b → is_marker (get_or frames j 0) ≡ false

-- The outcome for the frames below `n`: the highest frame that stops the unwinding is a delimiter,
-- which becomes the top frame, or the marker of a tail call, with the frame above it kept too; or
-- there is none.
abbrev pub Lands : List ℕ → ℕ → Option Unwound → Type 0
Lands frames n none = Plain frames 0 n
Lands frames n (some (at_delimiter top)) =
    (0 < top)
    × (top ≤ n)
    × (has_tag (get_or frames (top - 1) 0) function_delimiter_tag ≡ true)
    × Plain frames top n
Lands frames n (some (at_tail_return top)) =
    (1 < top)
    × (top ≤ n + 1)
    × (has_tag (get_or frames (top - 2) 0) function_delimiter_tag ≡ false)
    × (is_step (get_or frames (top - 2) 0) (step_code tail_return) ≡ true)
    × Plain frames (top - 1) n

extend :
    (frames : List ℕ) (a n : ℕ)
    → is_marker (get_or frames n 0) ≡ false
    → Plain frames a n
    → Plain frames a (suc n)
extend frames a n plain below j lo hi = elim (ℕ_discrete j n) [
  | yes e ↦ ap (λ (k : ℕ). is_marker (get_or frames k 0)) e ∙ plain
  | no ne ↦ below j lo (omega arith)
]

extended :
    (frames : List ℕ) (n : ℕ) (o : Option Unwound)
    → is_marker (get_or frames n 0) ≡ false
    → Lands frames n o
    → Lands frames (suc n) o
extended frames n none plain l = extend frames 0 n plain l
extended frames n (some (at_delimiter top)) plain l =
    (l.0, omega (arith, l.1), l.2, extend frames top n plain l.3)
extended frames n (some (at_tail_return top)) plain l =
    (l.0, omega (arith, l.1), l.2, l.3, extend frames (top - 1) n plain l.4)

nothing_above : (frames : List ℕ) (a : ℕ) → Plain frames a a
nothing_above frames a j lo hi = absurd (omega arith)

-- The unwinding from the top of a stack stops at the highest frame that is a function's delimiter
-- or the marker of a tail call: the delimiter becomes the top frame, and above the marker one frame
-- stays. It finds no place only if there is none.
pub unwind_from-Lands : (frames : List ℕ) (top : ℕ) → Lands frames top (unwind_from frames top)
unfolding unwind_from
unwind_from-Lands frames zero = nothing_above frames 0
unwind_from-Lands frames (suc n) =
    let frame = get_or frames n 0 in
    let up : n + 1 ≡ suc n = omega arith in
    elim (Bool-cases (has_tag frame function_delimiter_tag)) [
      | inl d ↦ rw (d) (
          let place : n + 1 - 1 ≡ n = omega arith in
          (
            omega arith,
            omega arith,
            ap (λ (k : ℕ). has_tag (get_or frames k 0) function_delimiter_tag) place ∙ d,
            λ j lo hi. absurd (omega arith),
          ))
      | inr d ↦ elim (Bool-cases (is_step frame (step_code tail_return))) [
        | inl t ↦
            rw (d, t)
              (let place : n + 2 - 2 ≡ n = omega arith in
                (
                  omega arith,
                  omega arith,
                  ap (λ (k : ℕ). has_tag (get_or frames k 0) function_delimiter_tag) place ∙ d,
                  ap (λ (k : ℕ). is_step (get_or frames k 0) (step_code tail_return)) place ∙ t,
                  λ j lo hi. absurd (omega arith),
                ))
        | inr t ↦
            rw (d, t)
              (extended frames n (unwind_from frames n) (rw (d, t) refl)
                (unwind_from-Lands frames n))
      ]
    ]
