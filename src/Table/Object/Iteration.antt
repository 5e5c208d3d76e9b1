-- ===== src/Table/Object/Iteration.antt =====
-- The iteration over a table.
use lone.Prelude.{
  ℕ, zero, suc, ◌+◌, ◌-◌, ◌≤◌, ◌<◌, ◌≡◌, ◌⊎◌, inl, inr, refl, sym, ap, ◌∙◌, arith, true, false,
  List, [], ◌∷◌, Option, none, some, if◌then◌else◌, length, get_or, take, drop, ltb, Bool-cases,
  get_or-take, length-take, ◌==◌,
}
use native.Mathlib.Decide.{dec_le}
use lone.Value.{tombstone, is_tombstone}
use lone.Table.{Keys, Entry, entry_key, no_entry}
use lone.Table.Contents.{pairs}
use lone.Table.Object.{Table, Storage, hashed, shaped, next_entry, next_hashed}
use lone.Table.Object.Fields.{Live, pairs-Live}
use lone.Table.Object.Refinement.{contents, IsWell}

-- The loop over a table as `LONE_LISP_TABLE_FOR_EACH` writes it, with a bound on its rounds: the
-- entries that its body sees.
unfoldable pub for_each : ℕ → Table → ℕ → List Entry
for_each zero t i = []
for_each (suc rounds) t i =
    let step = next_entry t i in
    let rest = for_each rounds t (step.0 + 1) in
    elim step.1 [ none ↦ [] | some entry ↦ entry ∷ rest ]

drop-step :
    (xs : List Entry) (i : ℕ) → i < length xs → drop i xs ≡ get_or xs i no_entry ∷ drop (suc i) xs
drop-step [] i h = absurd (omega arith)
drop-step (x ∷ xs) zero h = refl
drop-step (x ∷ xs) (suc i) h = drop-step xs i (omega arith)

drop-beyond : (xs : List Entry) (i : ℕ) → length xs ≤ i → drop i xs ≡ []
drop-beyond [] zero h = refl
drop-beyond [] (suc i) h = refl
drop-beyond (x ∷ xs) zero h = absurd (omega arith)
drop-beyond (x ∷ xs) (suc i) h = drop-beyond xs i (omega arith)

-- What a step of the iteration gives, where the entries from `i` on are to come: the next one, and
-- the index it stands at, or nothing if there is none.
abbrev Yields : List Entry → ℕ → ℕ × Option Entry → Type 0
Yields xs i (j, none) = pairs (drop i xs) ≡ []
Yields xs i (j, some entry) =
    (i ≤ j) × (j < length xs) × (pairs (drop i xs) ≡ entry ∷ pairs (drop (j + 1) xs))

-- A deleted entry is passed over.
skipped :
    (xs : List Entry) (i : ℕ) (r : ℕ × Option Entry)
    → pairs (drop i xs) ≡ pairs (drop (i + 1) xs)
    → Yields xs (i + 1) r
    → Yields xs i r
skipped xs i (j, none) e y = e ∙ y
skipped xs i (j, some entry) e y = (omega (arith, y.0), y.1, e ∙ y.2)

module _ (es : List Entry) (used : ℕ) (bound : used ≤ length es) where
  abbrev xs : List Entry
  xs = take used es

  length-xs : length xs ≡ used
  length-xs = omega (arith, length-take {A = Entry} used es)

  hashed_step :
      (left i : ℕ)
      → (i + left ≡ used) ⊎ ((left ≡ 0) × (used ≤ i))
      → Yields xs i (next_hashed left es i)
  unfolding next_hashed
  hashed_step zero i h = ap pairs (
      drop-beyond xs i
        (let n = length-xs in elim h [ inl e ↦ omega (arith, n) | inr e ↦ omega (arith, n, e.1) ]))
  hashed_step (suc left) i h =
      let n = length-xs in
      let low : i < used = elim h [ inl e ↦ omega arith | inr e ↦ absurd (omega (arith, e.0)) ] in
      let rest_left : i + 1 + left ≡ used = elim h [
        | inl e ↦ omega arith
        | inr e ↦ absurd (omega (arith, e.0))
      ] in
      let up : suc i ≡ i + 1 = omega arith in
      let here = get_or-take used es i no_entry low in
      let segment : drop i xs ≡ get_or es i no_entry ∷ drop (i + 1) xs =
        drop-step xs i (omega (arith, n, low))
        ∙ ap (λ (x : Entry). x ∷ drop (suc i) xs) here
        ∙ ap (λ (m : ℕ). get_or es i no_entry ∷ drop m xs) up in
      elim (Bool-cases (entry_key es i == tombstone)) [
        | inl dead ↦
            let is_dead : is_tombstone (entry_key es i) ≡ true =
              unfold is_tombstone tombstone in dead in
            rw (is_dead) (
              skipped xs i (next_hashed left es (i + 1)) (ap pairs segment ∙ rw (dead) refl)
                (hashed_step left (i + 1) (inl rest_left)))
        | inr live ↦
            let is_alive : is_tombstone (entry_key es i) ≡ false =
              unfold is_tombstone tombstone in live in
            rw (is_alive) (omega arith, omega (arith, n, low), ap pairs segment ∙ rw (live) refl)
      ]

shaped_step :
    (fields : List Entry) (i : ℕ)
    → Live fields
    → Yields fields i
        (if ltb i (length fields) then (i, some (get_or fields i no_entry)) else (i, none))
shaped_step fields i live = elim (Bool-cases (ltb i (length fields))) [
  | inr e ↦ rw (e) (ap pairs (drop-beyond fields i (ground (arith, e))))
  | inl e ↦
      let low : i < length fields = ground (arith, e) in
      let up : suc i ≡ i + 1 = omega arith in
      let alive : (entry_key fields i == tombstone) ≡ false =
        let l = live i low in ground (arith, l) in
      rw (e) (
        omega arith,
        low,
        ap pairs
              (drop-step fields i low ∙ ap (λ (m : ℕ). get_or fields i no_entry ∷ drop m fields) up)
            ∙ rw (alive) refl,
      )
]

module _ (t : Table) (xs : List Entry) (step : (i : ℕ) → Yields xs i (next_entry t i)) where
  one_round :
      (rounds i : ℕ) (r : ℕ × Option Entry)
      → ((j : ℕ) → i ≤ j → j < length xs → for_each rounds t (j + 1) ≡ pairs (drop (j + 1) xs))
      → Yields xs i r
      → elim r.1 as (λ x. List Entry) [
        | none ↦ []
        | some entry ↦ entry ∷ for_each rounds t (r.0 + 1)
      ]
        ≡ pairs (drop i xs)
  one_round rounds i (j, none) later y = sym y
  one_round rounds i (j, some entry) later y =
      ap (λ (l : List Entry). entry ∷ l) (later j y.0 y.1) ∙ sym y.2

  loop-pairs : (rounds i : ℕ) → length xs - i < rounds → for_each rounds t i ≡ pairs (drop i xs)
  unfolding for_each
  loop-pairs zero i enough = absurd (omega arith)
  loop-pairs (suc rounds) i enough =
      one_round rounds i (next_entry t i)
        (λ j le_ low. loop-pairs rounds (j + 1) (omega (arith, enough, le_, low))) (step i)

within : (i used : ℕ) → (i + (used - i) ≡ used) ⊎ ((used - i ≡ 0) × (used ≤ i))
within i used = elim (dec_le i used) [
  | yes l ↦ inl (omega arith)
  | no l ↦ inr (omega arith, omega arith)
]

-- The indexes that an iteration runs over.
abbrev pub limit : Storage → ℕ
limit (hashed t) = t.used
limit (shaped t) = length t.fields

each_object :
    (keys : Keys) (s : Storage) (prototype : ℕ)
    → IsWell keys s
    → (rounds : ℕ) → limit s < rounds
    → for_each rounds (record { storage = s; prototype = prototype }) 0 ≡ contents s
unfolding next_entry
each_object keys (hashed h) prototype w rounds enough =
    let bound : h.used ≤ length h.entries = omega (arith, w.1.storage.bound, w.1.storage.places) in
    loop-pairs (record { storage = hashed h; prototype = prototype }) (take h.used h.entries)
      (λ i. hashed_step h.entries h.used bound (h.used - i) i (within i h.used)) rounds 0
      (omega (arith, length-xs h.entries h.used bound, enough))
each_object keys (shaped h) prototype w rounds enough =
    loop-pairs (record { storage = shaped h; prototype = prototype }) h.fields
      (λ i. shaped_step h.fields i w.2) rounds 0 (omega (arith, enough))
    ∙ pairs-Live h.fields w.2

-- The loop over a well-formed table of either kind ends, and its body sees each entry that the table
-- holds once, in their order.
pub for_each-contents :
    (keys : Keys) (t : Table)
    → IsWell keys t.storage
    → (rounds : ℕ) → limit t.storage < rounds
    → for_each rounds t 0 ≡ contents t.storage
for_each-contents keys t w rounds enough = each_object keys t.storage t.prototype w rounds enough
