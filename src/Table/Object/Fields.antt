-- ===== src/Table/Object/Fields.antt =====
-- The fields of a shaped table against the operations on what a table holds.
use lone.Prelude.{
  ℕ, zero, suc, ◌<◌, ◌≡◌, ◌≢◌, ◌⊎◌, inl, inr, refl, ap, arith, false, List, [], ◌∷◌, ◌++◌, none,
  some, ◌==◌, Bool-cases, length,
}
use lone.Value.{tombstone}
use lone.Table.{Keys, Entry, entry_key}
use lone.Table.Invariant.{same}
use lone.Table.Contents.{pairs, lookup, assign}
use lone.Table.Object.{shape_key_matches, fields_set, fields_get}

-- Fields that are no tombstones are what the table holds.
abbrev pub Live : List Entry → Type 0
Live fields = (e : ℕ) → e < length fields → entry_key fields e ≢ tombstone

pub pairs-Live : (fields : List Entry) → Live fields → pairs fields ≡ fields
pairs-Live [] live = refl
pairs-Live (x ∷ fields) live =
    let alive : (x.0 == tombstone) ≡ false = let l = live 0 (omega arith) in ground (arith, l) in
    rw (alive)
      (ap (λ (r : List Entry). x ∷ r) (pairs-Live fields (λ e l. live (suc e) (omega (arith, l)))))

module _ (keys : Keys) where
  pub matches-same : (stored key : ℕ) → shape_key_matches keys stored key ≡ same keys stored key
  unfolding shape_key_matches
  matches-same stored key = refl

  pub fields_get-lookup :
      (fields : List Entry) (key : ℕ) → fields_get keys fields key ≡ lookup keys fields key
  unfolding fields_get
  fields_get-lookup [] key = refl
  fields_get-lookup (x ∷ fields) key = rw (matches-same x.0 key, fields_get-lookup fields key) refl

  keeps_head :
      (x : Entry) (value : ℕ) (fields : List Entry) (e : ℕ)
      → entry_key ((x.0, value) ∷ fields) e ≡ entry_key (x ∷ fields) e
  keeps_head x value fields zero = refl
  keeps_head x value fields (suc e) = refl

  keeps_tail :
      (x : Entry) (fields after : List Entry)
      → ((e : ℕ) → entry_key after e ≡ entry_key fields e)
      → (e : ℕ) → entry_key (x ∷ after) e ≡ entry_key (x ∷ fields) e
  keeps_tail x fields after h zero = refl
  keeps_tail x fields after h (suc e) = h e

  -- Either a field has the key and gets the value, or none has it.
  abbrev pub Sets : List Entry → ℕ → ℕ → Type 0
  Sets fields key value =
      ((after : List Entry) × (fields_set keys fields key value ≡ some after)
        × (after ≡ assign keys fields key value)
        × (length after ≡ length fields)
        × ((e : ℕ) → entry_key after e ≡ entry_key fields e))
      ⊎ ((fields_set keys fields key value ≡ none)
          × (assign keys fields key value ≡ fields ++ ((key, value) ∷ []))
          × (lookup keys fields key ≡ none))

  pub fields_set-Sets : (fields : List Entry) (key value : ℕ) → Sets fields key value
  unfolding fields_set
  fields_set-Sets [] key value = inr (refl, refl, refl)
  fields_set-Sets (x ∷ fields) key value = elim (Bool-cases (same keys x.0 key)) [
    | inl hit ↦ inl (
      (x.0, value) ∷ fields,
      rw (fields_set, matches-same x.0 key, hit) refl,
      rw (hit) refl,
      refl,
      keeps_head x value fields,
    )
    | inr miss ↦ elim (fields_set-Sets fields key value) [
      | inl r ↦ inl (
        x ∷ r.0,
        rw (fields_set, matches-same x.0 key, miss, r.1) refl,
        rw (miss) (ap (λ (l : List Entry). x ∷ l) r.2),
        ap suc r.3,
        keeps_tail x fields r.0 r.4,
      )
      | inr r ↦ inr (
        rw (fields_set, matches-same x.0 key, miss, r.0) refl,
        rw (miss) (ap (λ (l : List Entry). x ∷ l) r.1),
        rw (miss) r.2,
      )
    ]
  ]
