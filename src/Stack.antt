-- ===== src/Stack.antt =====
-- source/lone/lisp/machine/stack.c with the tests of source/lone/stack.c: the stack of the lisp
-- machine. The mapping of a stack is the list of the words it has room for; pointers into it are
-- indexes from its base, and its limit is its length. The kernel is a parameter: `remap old new`
-- says whether `linux_mremap` succeeds, which keeps the contents and fills new pages with zeros.
-- `none` stands for `linux_exit(-1)`.
pub mod Pop
pub mod Refinement
pub mod Steps
pub mod Unwind
mod Tests
use lone.Prelude.{
  ℕ, zero, suc, ◌+◌, ◌-◌, ◌*◌, ◌/◌, ◌%◌, ◌^◌, Bool, true, false, List, [], ◌∷◌, ◌++◌, Option, none,
  some, ltb, leb, ◌==◌, not, ◌&&◌, ◌||◌, if◌then◌else◌, bit_and, bit_or, length, get_or, set, take,
  replicate, ℤ, to_word,
}
use lone.Memory.{array_size_in_bytes}
use lone.Value.{
  Tag, code, integer_tag, step_tag, primitive_step_tag, function_delimiter_tag,
  continuation_delimiter_tag, interceptor_delimiter_tag, retag,
}
use lone.Value.Integer.{integer_of}

pub record Stack : Type 0 where
  pub frames : List ℕ
  pub top : ℕ

-- `enum lone_lisp_machine_step`
pub data MachineStep : Type 0 where
  evaluate apply evaluated_operator operand_evaluation operand_accumulation : MachineStep
  last_operand_accumulation application after_application sequence_evaluation : MachineStep
  sequence_evaluation_next resume_primitive tail_return generator_return : MachineStep
  load_expression load_applicable load_list halt : MachineStep

unfoldable pub step_code : MachineStep → ℕ
step_code evaluate = 0
step_code apply = 1
step_code evaluated_operator = 2
step_code operand_evaluation = 3
step_code operand_accumulation = 4
step_code last_operand_accumulation = 5
step_code application = 6
step_code after_application = 7
step_code sequence_evaluation = 8
step_code sequence_evaluation_next = 9
step_code resume_primitive = 10
step_code tail_return = 11
step_code generator_return = 12
step_code load_expression = 13
step_code load_applicable = 14
step_code load_list = 15
step_code halt = 16

-- The machine's stack and steps; its registers are passed through. A step is a number of 32 bits.
pub record Machine : Type 0 where
  pub stack : Stack
  pub initial_stack_count : ℕ
  pub step : ℕ
  pub primitive_step : ℤ
  pub registers : List ℕ

-- `LONE_LISP_MACHINE_STACK_MAXIMUM_SIZE`, in frames
abbrev pub maximum_size : ℕ
maximum_size = 65536

module _ (map : ℕ → Bool) where
  -- A new stack has zeroed pages.
  unfoldable pub allocate_stack : ℕ → Option Stack
  allocate_stack count =
      if leb (2 ^ 64) (count * 8)
      then none
      else if not (map (count * 8))
      then none
      else some (record { frames = replicate count 0; top = 0 })

module _ (remap : ℕ → ℕ → Bool) where
  -- `none` is the return of `false`.
  unfoldable pub grow : Stack → Option Stack
  grow stack =
      let old_count = length stack.frames in
      let new_count = old_count * 2 in
      if leb (2 ^ 64) new_count
      then none
      else if ltb maximum_size new_count
      then none
      else if leb (2 ^ 64) (old_count * 8)
      then none
      else if leb (2 ^ 64) (new_count * 8)
      then none
      else if not (remap (old_count * 8) (new_count * 8))
      then none
      else some
          (record { frames = stack.frames ++ replicate (new_count - old_count) 0; top = stack.top })

  -- The stack is reset: its top returns to its base, and half of its pages to the kernel.
  unfoldable pub shrink_stack : Machine → Machine
  shrink_stack machine =
      let capacity = length machine.stack.frames in
      let new_count = capacity / 2 in
      if leb (2 ^ 64) (machine.initial_stack_count * 8)
      then machine
      else if ltb capacity (machine.initial_stack_count * 8)
      then machine
      else if leb (2 ^ 64) (capacity * 8)
      then machine
      else if leb (2 ^ 64) (new_count * 8)
      then machine
      else if not (remap (capacity * 8) (new_count * 8))
      then machine
      else record machine {
        stack = record { frames = take new_count machine.stack.frames; top = 0 };
      }

unfoldable pub can_push_bytes : Stack → ℕ → Bool
can_push_bytes stack bytes = leb (stack.top * 8 + bytes) (length stack.frames * 8)

unfoldable pub can_push : Stack → Bool
can_push stack = can_push_bytes stack 8

unfoldable pub can_pop : Stack → Bool
can_pop stack = leb 8 (stack.top * 8)

unfoldable pub can_peek : Stack → ℕ → Bool
can_peek stack depth = leb depth stack.top

-- `*stack->top++ = frame`
unfoldable pub store : Stack → ℕ → Stack
store stack frame = record { frames = set stack.frames stack.top frame; top = stack.top + 1 }

-- The frames from an index on replaced by others.
unfoldable pub store_all : List ℕ → ℕ → List ℕ → List ℕ
store_all memory i [] = memory
store_all memory i (frame ∷ frames) = store_all (set memory i frame) (i + 1) frames

-- The registers of the machine with another stack.
abbrev pub with_stack : Machine → Stack → Machine
with_stack machine stack = record machine { stack = stack }

unfoldable pub on_machine : Machine → Option Stack → Option Machine
on_machine machine none = none
on_machine machine (some stack) = some (with_stack machine stack)

module _ (remap : ℕ → ℕ → Bool) where
  unfoldable pub stack_push : Stack → ℕ → Option Stack
  stack_push stack frame =
      if can_push stack
      then some (store stack frame)
      else elim (grow remap stack) [ none ↦ none | some grown ↦ some (store grown frame) ]

  -- The loop that grows the stack until a block fits.
  unfoldable pub make_room : ℕ → Stack → ℕ → Option Stack
  make_room zero stack size = none
  make_room (suc rounds) stack size =
      if can_push_bytes stack size
      then some stack
      else elim (grow remap stack) [ none ↦ none | some grown ↦ make_room rounds grown size ]

  unfoldable pub stack_push_frames : ℕ → Stack → List ℕ → Option Stack
  stack_push_frames rounds stack frames = elim (array_size_in_bytes (length frames) 8) [
    | none ↦ none
    | some size ↦ elim (make_room rounds stack size) [
      | none ↦ none
      | some roomy ↦ some (record {
        frames = store_all roomy.frames roomy.top frames;
        top = roomy.top + length frames;
      })
    ]
  ]

  unfoldable pub push : Machine → ℕ → Option Machine
  push machine frame = on_machine machine (stack_push machine.stack frame)

  unfoldable pub push_frames : ℕ → Machine → List ℕ → Option Machine
  push_frames rounds machine frames =
      on_machine machine (stack_push_frames rounds machine.stack frames)

  unfoldable pub push_value : Machine → ℕ → Option Machine
  push_value machine value = push machine value

  unfoldable pub push_function_delimiter : Machine → ℕ → Option Machine
  push_function_delimiter machine function = push machine (retag function function_delimiter_tag)

  unfoldable pub push_continuation_delimiter : Machine → Option Machine
  push_continuation_delimiter machine = push machine (code continuation_delimiter_tag)

  unfoldable pub push_interceptor_delimiter : Machine → Option Machine
  push_interceptor_delimiter machine = push machine (code interceptor_delimiter_tag)

  unfoldable pub push_integer : Machine → ℤ → Option Machine
  push_integer machine integer =
      push machine (bit_or (to_word integer * 2 ^ 8 % 2 ^ 64) (code integer_tag))

  unfoldable pub push_step : Machine → ℕ → Option Machine
  push_step machine step = push machine (bit_or (step * 2 ^ 8 % 2 ^ 64) (code step_tag))

  unfoldable pub save_step : Machine → Option Machine
  save_step machine = push_step machine machine.step

  unfoldable pub push_primitive_step : Machine → ℤ → Option Machine
  push_primitive_step machine primitive_step =
      push machine (bit_or (to_word primitive_step * 2 ^ 8 % 2 ^ 64) (code primitive_step_tag))

  unfoldable pub save_primitive_step : Machine → Option Machine
  save_primitive_step machine = push_primitive_step machine machine.primitive_step
