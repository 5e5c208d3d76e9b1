-- ===== src/Table/Probe.antt =====
-- The search from a key's slot on: where it stops, and that what it does not meet is not there.
use lone.Prelude.{
  ℕ, zero, suc, ◌^◌, ◌<◌, ◌≡◌, ◌≢◌, inl, inr, refl, ap, ◌∙◌, arith, Bool, true, false, List, some,
  not, ◌&&◌, Bool-cases,
}
use lone.Table.{Keys, Entry, entry_key, slot_at, is_used, key_matches, probe}
use lone.Table.Invariant.{same}
use lone.Table.Cycle.{
  next, between, distance, wrap_around-next, next-lt, distance-next, between-next,
}

-- The storage that is searched, for a capacity that is a power of two.
module _ (keys : Keys) (key : ℕ) (indexes : List ℕ) (entries : List Entry) (k cap : ℕ)
    (power : cap ≡ 2 ^ k) where
  -- A slot that the search passes over.
  abbrev pub passes : ℕ → Bool
  passes x = is_used indexes x && not (same keys (entry_key entries (slot_at indexes x)) key)

  abbrev pub Stops : ℕ → ℕ → Type 0
  Stops i r =
      (r < cap) × (passes r ≡ false) × ((x : ℕ) → x < cap → between i r x ≡ true → passes x ≡ true)

  step_back : (i r : ℕ) → i < cap → passes i ≡ true → Stops (next cap i) r → Stops i r
  step_back i r h pass s = (
    s.0,
    s.1,
    λ x l b. elim (between-next cap i r x h s.0 l b) [
      | inl e ↦ ap passes e ∙ pass
      | inr c ↦ s.2 x l c
    ],
  )

  -- With an empty slot ahead and enough rounds to reach it, the search stops.
  pub probe-Stops :
      (key_hash : ℕ)
      → ((x : ℕ)
          → x < cap
          → is_used indexes x ≡ true
          → key_matches keys (entry_key entries (slot_at indexes x)) key key_hash
            ≡ some (same keys (entry_key entries (slot_at indexes x)) key))
      → (rounds i e : ℕ) → i < cap
      → e < cap
      → passes e ≡ false
      → distance cap i e < rounds
      → (r : ℕ) × (probe keys rounds key key_hash indexes entries cap i ≡ some r) × Stops i r
  unfolding probe
  probe-Stops key_hash matched zero i e h g empty enough = absurd (omega arith)
  probe-Stops key_hash matched (suc rounds) i e h g empty enough = elim (Bool-cases (passes i)) [
    | inr stop ↦ (
      i,
      elim (Bool-cases (is_used indexes i)) [
        | inr free ↦ rw (free) refl
        | inl used ↦
            let hit : same keys (entry_key entries (slot_at indexes i)) key ≡ true =
              ground (arith, stop, used) in
            rw (used, matched i h used, hit) refl
      ],
      (h, stop, λ x l b. absurd (ground (arith, b))),
    )
    | inl pass ↦
        let ne : i ≢ e = λ same. ground (arith, pass, empty, ap passes same) in
        let later =
          probe-Stops key_hash matched rounds (next cap i) e (next-lt cap i h) g empty
            (omega (arith, distance-next cap i e h g ne)) in
        let used : is_used indexes i ≡ true = ground (arith, pass) in
        let miss : same keys (entry_key entries (slot_at indexes i)) key ≡ false =
          ground (arith, pass) in
        (
          later.0,
          rw (used, matched i h used, miss, wrap_around-next k cap i power h) later.1,
          step_back i later.0 h pass later.2,
        )
  ]
