-- ===== src/Stack/Tests.antt =====
-- Stacks of a few frames.
use lone.Prelude.{ℕ, ◌≡◌, inr, refl, arith, Bool, true, [], ◌∷◌, some, negsuc}
use lone.Value.{code, has_tag}
use lone.Stack.{Stack, Machine, step_code, stack_push, save_step}
use lone.Stack.Pop.{at_delimiter, restore_step, unwind_from, is_step}
use lone.Stack.Refinement.{IsStack, Pushed, stack_push-Pushed}
use lone.Stack.Steps.{SameMachine, restore-save_step}
use lone.Stack.Unwind.{Lands, unwind_from-Lands}

abbrev granted : ℕ → ℕ → Bool
granted old_size new_size = true

-- A full stack of four frames.
abbrev full : Stack
full = record { frames = 0x101 ∷ 0x201 ∷ 0x1240 ∷ 0x301 ∷ []; top = 4 }

full-IsStack : IsStack full
full-IsStack = omega arith

abbrev machine : Machine
machine = record {
  stack = full;
  initial_stack_count = 4;
  step = 7;
  primitive_step = negsuc 2;
  registers = [];
}

stack_push-Pushed_example :
    (after : Stack) × (stack_push granted full 0x501 ≡ some after) × Pushed full 0x501 after
stack_push-Pushed_example =
    stack_push-Pushed granted (λ a b. refl) full 0x501 full-IsStack (inr (omega arith))

restore-save_step_example :
    (saved : Machine) × (restored : Machine) × (save_step granted machine ≡ some saved)
    × (restore_step (record saved { step = 3 }) ≡ some restored)
    × SameMachine machine restored
restore-save_step_example =
    restore-save_step granted machine 3 (λ a b. refl) full-IsStack (inr (omega arith)) (omega arith)

-- The third frame is a function's delimiter.
unwinds : unwind_from full.frames 4 ≡ some (at_delimiter 3)
unfolding unwind_from has_tag code is_step step_code
unwinds = refl

unwind_from-Lands_example : Lands full.frames 4 (unwind_from full.frames 4)
unwind_from-Lands_example = unwind_from-Lands full.frames 4
