-- ===== src/Stack/Refinement.antt =====
-- The stack against the list of its frames, from the bottom up.
use lone.Prelude.{
  ℕ, zero, suc, ◌+◌, ◌-◌, ◌*◌, ◌≤◌, ◌<◌, ◌≡◌, refl, ap, ◌∙◌, arith, Bool, true, false, List, [],
  ◌∷◌, ◌++◌, none, some, leb, length, get_or, set, take, replicate, length-set, length-append,
  length-replicate, take-set, take-append, Bool-cases, inl, inr, ◌⊎◌, get_or-set_self,
}
use lone.Stack.{
  Stack, Machine, grow, can_push, can_push_bytes, can_pop, store, stack_push, with_stack,
  maximum_size,
}
use lone.Stack.Pop.{pop}

abbrev pub contents : Stack → List ℕ
contents s = take s.top s.frames

-- The top lies between the base and the limit, and there is room to double.
abbrev pub IsStack : Stack → Type 0
IsStack s = (s.top ≤ length s.frames) × (0 < length s.frames) × (length s.frames ≤ maximum_size)

-- What a push of a frame gives.
abbrev pub Pushed : Stack → ℕ → Stack → Type 0
Pushed s f after =
    IsStack after
    × (contents after ≡ contents s ++ (f ∷ []))
    × (get_or after.frames (after.top - 1) 0 ≡ f)
    × (after.top ≡ s.top + 1)

-- A push into free room.
stored : (s : Stack) (f : ℕ) → IsStack s → s.top < length s.frames → Pushed s f (store s f)
unfolding store
stored s f w room =
    let n = length-set s.frames s.top f in
    let up : s.top + 1 ≡ suc s.top = omega arith in
    let down : s.top + 1 - 1 ≡ s.top = omega arith in
    (
      (omega (arith, n, room), omega (arith, n, w), omega (arith, n, w)),
      ap (λ (k : ℕ). take k (set s.frames s.top f)) up ∙ take-set s.top s.frames f room,
      ap (λ (k : ℕ). get_or (set s.frames s.top f) k 0) down
          ∙ get_or-set_self s.frames s.top f 0 room,
      refl,
    )

module _ (remap : ℕ → ℕ → Bool) where
  grow-refused : (s : Stack) → maximum_size < length s.frames * 2 → grow remap s ≡ none
  unfolding grow
  grow-refused s h = ground arith

  -- A push to a full stack of more than half the largest size exits.
  pub stack_push-refused :
      (s : Stack) (f : ℕ)
      → s.top ≡ length s.frames
      → maximum_size < length s.frames * 2
      → stack_push remap s f ≡ none
  unfolding stack_push can_push can_push_bytes
  stack_push-refused s f full large =
      let e : leb (s.top * 8 + 8) (length s.frames * 8) ≡ false = ground (arith, full) in
      rw (e, grow-refused s large) refl

module _ (remap : ℕ → ℕ → Bool) (remaps : (a b : ℕ) → remap a b ≡ true) where
  abbrev doubled : Stack → Stack
  doubled s = record {
    frames = s.frames ++ replicate (length s.frames * 2 - length s.frames) 0;
    top = s.top;
  }

  grow-doubled : (s : Stack) → length s.frames * 2 ≤ maximum_size → grow remap s ≡ some (doubled s)
  unfolding grow
  grow-doubled s h = ground (arith, remaps (length s.frames * 8) (length s.frames * 2 * 8))

  doubled-IsStack :
      (s : Stack)
      → IsStack s
      → length s.frames * 2 ≤ maximum_size
      → IsStack (doubled s)
        × (s.top < length (doubled s).frames)
        × (contents (doubled s) ≡ contents s)
  doubled-IsStack s w h =
      let n =
        length-append {A = ℕ} s.frames (replicate (length s.frames * 2 - length s.frames) 0) in
      let m = length-replicate {A = ℕ} (length s.frames * 2 - length s.frames) 0 in
      (
        (omega (arith, n, m, w), omega (arith, n, m, w), omega (arith, n, m, w)),
        omega (arith, n, m, w),
        take-append s.top s.frames _ w.0,
      )

  -- A push to a well-formed stack that has room, or that is not beyond half of the largest size,
  -- succeeds when the kernel grants the memory, keeps the stack well-formed, and puts the frame on
  -- top of the frames that were there.
  pub stack_push-Pushed :
      (s : Stack) (f : ℕ)
      → IsStack s
      → (s.top < length s.frames) ⊎ (length s.frames * 2 ≤ maximum_size)
      → (after : Stack) × (stack_push remap s f ≡ some after) × Pushed s f after
  unfolding stack_push can_push can_push_bytes
  stack_push-Pushed s f w room = elim (Bool-cases (leb (s.top * 8 + 8) (length s.frames * 8))) [
    | inl e ↦ (store s f, rw (e) refl, stored s f w (ground (arith, e)))
    | inr e ↦ elim room [
      | inl r ↦ absurd (ground (arith, e, r))
      | inr r ↦
          let d = doubled-IsStack s w r in
          let p = stored (doubled s) f d.0 d.1 in
          (
            store (doubled s) f,
            rw (e, grow-doubled s r) refl,
            (p.0, p.1 ∙ ap (λ (l : List ℕ). l ++ (f ∷ [])) d.2, p.2, p.3),
          )
    ]
  ]

take_last :
    (n : ℕ) (xs : List ℕ) → n < length xs → take (suc n) xs ≡ take n xs ++ (get_or xs n 0 ∷ [])
take_last n [] h = absurd (omega arith)
take_last zero (x ∷ xs) h = refl
take_last (suc n) (x ∷ xs) h = ap (λ (r : List ℕ). x ∷ r) (take_last n xs (omega arith))

-- The stack below its last frame, and that frame.
abbrev pub below_last : Stack → Stack
below_last s = record { frames = s.frames; top = s.top - 1 }

abbrev pub last_frame : Stack → ℕ
last_frame s = get_or s.frames (s.top - 1) 0

pub pop-below_last :
    (m : Machine)
    → 0 < m.stack.top
    → pop m ≡ some (with_stack m (below_last m.stack), last_frame m.stack)
unfolding pop can_pop
pop-below_last m positive =
    let test : leb 8 (m.stack.top * 8) ≡ true = ground arith in rw (test) refl

pub contents-below_last :
    (s : Stack)
    → IsStack s
    → 0 < s.top
    → contents s ≡ contents (below_last s) ++ (last_frame s ∷ [])
contents-below_last s w positive =
    let up : s.top ≡ suc (s.top - 1) = omega arith in
    ap (λ (k : ℕ). take k s.frames) up ∙ take_last (s.top - 1) s.frames (omega (arith, w))

-- A pop from a well-formed stack that is not empty takes the last of its frames, and leaves the
-- others and the rest of the machine, with the stack well-formed.
pub pop-contents :
    (m : Machine)
    → IsStack m.stack
    → 0 < m.stack.top
    → (after : Stack) × (frame : ℕ) × (pop m ≡ some (with_stack m after, frame))
      × (contents m.stack ≡ contents after ++ (frame ∷ []))
      × IsStack after
pop-contents m w positive = (
  below_last m.stack,
  last_frame m.stack,
  pop-below_last m positive,
  contents-below_last m.stack w positive,
  (omega (arith, w.0), w.1, w.2),
)
