-- ===== src/Stack/Pop.antt =====
-- The reads of source/lone/lisp/machine/stack.c: pops, peeks, the tests of a step on the stack, and
-- the unwinding of the stack to a function's delimiter.
use lone.Prelude.{
  ℕ, zero, suc, ◌+◌, ◌-◌, ◌/◌, ◌%◌, ◌^◌, Bool, true, false, List, Option, none, some, ltb, ◌==◌,
  ◌&&◌, if◌then◌else◌, get_or, ℤ,
}
use lone.Value.{step_tag, function_delimiter_tag, has_tag}
use lone.Value.Integer.{integer_of}
use lone.Stack.{Machine, step_code, tail_return, can_pop, can_peek, with_stack}

-- `*--stack.top`
unfoldable pub pop : Machine → Option (Machine × ℕ)
pop machine =
    let top = machine.stack.top - 1 in
    if can_pop machine.stack
    then some (
      with_stack machine (record { frames = machine.stack.frames; top = top }),
      get_or machine.stack.frames top 0,
    )
    else none

unfoldable pub pop_value : Machine → Option (Machine × ℕ)
pop_value machine = pop machine

-- The pops of delimiters, which drop the frame.
unfoldable pub pop_delimiter : Machine → Option Machine
pop_delimiter machine = elim (pop machine) [ none ↦ none | some popped ↦ some popped.0 ]

unfoldable pub peek_value : Machine → ℕ → Option ℕ
peek_value machine depth =
    if can_peek machine.stack depth
    then some (get_or machine.stack.frames (machine.stack.top - depth) 0)
    else none

unfoldable pub pop_integer : Machine → Option (Machine × ℤ)
pop_integer machine = elim (pop machine) [
  | none ↦ none
  | some popped ↦ some (popped.0, integer_of popped.1)
]

-- The conversion to the enumeration keeps 32 bits.
unfoldable pub pop_step : Machine → Option (Machine × ℕ)
pop_step machine = elim (pop machine) [
  | none ↦ none
  | some popped ↦ some (popped.0, popped.1 / 2 ^ 8 % 2 ^ 32)
]

unfoldable pub restore_step : Machine → Option Machine
restore_step machine = elim (pop_step machine) [
  | none ↦ none
  | some popped ↦ some (record popped.0 { step = popped.1 })
]

unfoldable pub pop_primitive_step : Machine → Option (Machine × ℤ)
pop_primitive_step machine = elim (pop machine) [
  | none ↦ none
  | some popped ↦ some (popped.0, integer_of popped.1)
]

unfoldable pub restore_primitive_step : Machine → Option Machine
restore_primitive_step machine = elim (pop_primitive_step machine) [
  | none ↦ none
  | some popped ↦ some (record popped.0 { primitive_step = popped.1 })
]

-- `(tagged & MASK) == LONE_LISP_TAG_STEP && (tagged >> SHIFT) == step`, on a word: the shift keeps
-- the sign, so no negative number equals a step.
unfoldable pub is_step : ℕ → ℕ → Bool
is_step tagged step = has_tag tagged step_tag && (tagged / 2 ^ 8 == step)

-- The frame `offset` below the top.
unfoldable pub is_step_at : Machine → ℕ → ℕ → Bool
is_step_at machine offset step =
    if ltb machine.stack.top offset
    then false
    else is_step (get_or machine.stack.frames (machine.stack.top - offset) 0) step

unfoldable pub top_is_tail_return : Machine → Bool
top_is_tail_return machine = is_step_at machine 1 (step_code tail_return)

unfoldable pub is_tail_application : Machine → Bool
is_tail_application machine = is_step_at machine 2 (step_code tail_return)

-- How the unwinding ends: at a delimiter, or past the marker of a tail call.
pub data Unwound : Type 0 where
  at_delimiter at_tail_return : (top : ℕ) → Unwound

-- The loop over the frames below an index, from the highest down.
unfoldable pub unwind_from : List ℕ → ℕ → Option Unwound
unwind_from frames zero = none
unwind_from frames (suc frame) =
    let rest = unwind_from frames frame in
    let tagged = get_or frames frame 0 in
    if has_tag tagged function_delimiter_tag
    then some (at_delimiter (frame + 1))
    else if is_step tagged (step_code tail_return)
    then some (at_tail_return (frame + 2))
    else rest

unfoldable pub unwind_to_function_delimiter : Machine → Option (Machine × Bool)
unwind_to_function_delimiter machine = elim (unwind_from machine.stack.frames machine.stack.top) [
  | none ↦ none
  | some (at_delimiter top) ↦
      some (with_stack machine (record { frames = machine.stack.frames; top = top }), true)
  | some (at_tail_return top) ↦
      some (with_stack machine (record { frames = machine.stack.frames; top = top }), false)
]
