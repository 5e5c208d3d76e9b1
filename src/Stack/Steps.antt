-- ===== src/Stack/Steps.antt =====
-- Saving and restoring the steps of the machine.
use lone.Prelude.{
  ℕ, ◌*◌, ◌/◌, ◌%◌, ◌^◌, ◌≤◌, ◌<◌, ◌≡◌, ◌⊎◌, refl, sym, ap, ◌∙◌, arith, Bool, true, [], ◌∷◌, ◌++◌,
  Option, none, some, length, bit_or, bit_or-disjoint, ℤ, fits, to_word,
}
use mathlib.Core.List.{append_cancel_right}
use lone.Value.{code, step_tag, primitive_step_tag}
use lone.Value.Integer.{integer_of}
use lone.Value.Integer.RoundTrip.{integer_of-tagged}
use lone.Stack.{
  Stack, Machine, push, push_step, push_primitive_step, on_machine, with_stack, stack_push,
  save_step, save_primitive_step, maximum_size,
}
use lone.Stack.Pop.{pop, pop_step, pop_primitive_step, restore_step, restore_primitive_step}
use lone.Stack.Refinement.{
  IsStack, contents, stack_push-Pushed, pop-below_last, contents-below_last, below_last,
}

-- What is left of a machine that saved something and restored it: only the memory above its top can
-- differ.
abbrev pub SameMachine : Machine → Machine → Type 0
SameMachine m n =
    (contents n.stack ≡ contents m.stack)
    × (n.stack.top ≡ m.stack.top)
    × (n.step ≡ m.step)
    × (n.primitive_step ≡ m.primitive_step)
    × (n.registers ≡ m.registers)
    × (n.initial_stack_count ≡ m.initial_stack_count)

step_frame :
    (step : ℕ)
    → step < 2 ^ 32
    → bit_or (step * 2 ^ 8 % 2 ^ 64) (code step_tag) / 2 ^ 8 % 2 ^ 32 ≡ step
unfolding code
step_frame step h =
    let e : step * 2 ^ 8 % 2 ^ 64 ≡ step * 2 ^ 8 = omega arith in
    rw (e, bit_or-disjoint 8 step 0x21 (omega arith)) (omega arith)

-- A frame pushed, and popped again by a machine whose other state may have changed.
popped :
    (remap : ℕ → ℕ → Bool) (remaps : (a b : ℕ) → remap a b ≡ true) (s : Stack) (f : ℕ)
    → IsStack s
    → (s.top < length s.frames) ⊎ (length s.frames * 2 ≤ maximum_size)
    → (pushed : Stack) × (after : Stack) × (stack_push remap s f ≡ some pushed)
      × ((m : Machine) → pop (with_stack m pushed) ≡ some (with_stack m after, f))
      × (contents after ≡ contents s)
      × (after.top ≡ s.top)
popped remap remaps s f w room =
    let a = stack_push-Pushed remap remaps s f w room in
    let positive : 0 < a.0.top = omega (arith, a.2.3) in
    (
      a.0,
      below_last a.0,
      a.1,
      (λ m.
          pop-below_last (with_stack m a.0) positive
          ∙ ap (λ (g : ℕ). some (with_stack m (below_last a.0), g)) a.2.2),
      append_cancel_right (contents (below_last a.0)) (contents s) (f ∷ []) (
          sym (
            contents-below_last a.0 a.2.0 positive
            ∙ ap (λ (g : ℕ). contents (below_last a.0) ++ (g ∷ [])) a.2.2)
          ∙ a.2.1),
      omega (arith, a.2.3),
    )

primitive_frame :
    (z : ℤ)
    → fits 55 z ≡ true
    → integer_of (bit_or (to_word z * 2 ^ 8 % 2 ^ 64) (code primitive_step_tag)) ≡ z
unfolding code
primitive_frame z h = integer_of-tagged z 0x23 h (omega arith)

module _ (remap : ℕ → ℕ → Bool) (m : Machine) where
  -- A machine with room on its stack that saves its step and, its step changed meanwhile, restores
  -- it, is as it was but for the memory above its top, when the kernel grants the memory.
  pub restore-save_step :
      (other : ℕ)
      → ((a b : ℕ) → remap a b ≡ true)
      → IsStack m.stack
      → (m.stack.top < length m.stack.frames) ⊎ (length m.stack.frames * 2 ≤ maximum_size)
      → m.step < 2 ^ 32
      → (saved : Machine) × (restored : Machine) × (save_step remap m ≡ some saved)
        × (restore_step (record saved { step = other }) ≡ some restored)
        × SameMachine m restored
  unfolding save_step push_step push on_machine restore_step pop_step
  restore-save_step other remaps w room small =
      let frame = bit_or (m.step * 2 ^ 8 % 2 ^ 64) (code step_tag) in
      let p = popped remap remaps m.stack frame w room in
      (
        with_stack m p.0,
        record (with_stack m p.1) { step = m.step },
        ap (on_machine m) p.2,
        ap
              (λ (o : Option (Machine × ℕ)).
                elim (elim o as (λ x. Option (Machine × ℕ)) [
                  | none ↦ none
                  | some q ↦ some (q.0, q.1 / 2 ^ 8 % 2 ^ 32)
                ])
                  as (λ x. Option Machine) [
                    | none ↦ none
                    | some q ↦ some (record q.0 { step = q.1 })
                  ])
              (p.3 (record m { step = other }))
            ∙ ap (λ (n : ℕ). some (record (with_stack m p.1) { step = n }))
                (step_frame m.step small),
        (p.4, p.5, refl, refl, refl, refl),
      )

  -- The same for the step of a primitive, an integer of 56 bits.
  pub restore-save_primitive_step :
      (other : ℤ)
      → ((a b : ℕ) → remap a b ≡ true)
      → IsStack m.stack
      → (m.stack.top < length m.stack.frames) ⊎ (length m.stack.frames * 2 ≤ maximum_size)
      → fits 55 m.primitive_step ≡ true
      → (saved : Machine) × (restored : Machine) × (save_primitive_step remap m ≡ some saved)
        × (restore_primitive_step (record saved { primitive_step = other }) ≡ some restored)
        × SameMachine m restored
  unfolding save_primitive_step push_primitive_step push on_machine restore_primitive_step
      pop_primitive_step
  restore-save_primitive_step other remaps w room small =
      let frame = bit_or (to_word m.primitive_step * 2 ^ 8 % 2 ^ 64) (code primitive_step_tag) in
      let p = popped remap remaps m.stack frame w room in
      (
        with_stack m p.0,
        record (with_stack m p.1) { primitive_step = m.primitive_step },
        ap (on_machine m) p.2,
        ap
              (λ (o : Option (Machine × ℕ)).
                elim (elim o as (λ x. Option (Machine × ℤ)) [
                  | none ↦ none
                  | some q ↦ some (q.0, integer_of q.1)
                ])
                  as (λ x. Option Machine) [
                    | none ↦ none
                    | some q ↦ some (record q.0 { primitive_step = q.1 })
                  ])
              (p.3 (record m { primitive_step = other }))
            ∙ ap (λ (n : ℤ). some (record (with_stack m p.1) { primitive_step = n }))
                (primitive_frame m.primitive_step small),
        (p.4, p.5, refl, refl, refl, refl),
      )
