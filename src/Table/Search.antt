-- ===== src/Table/Search.antt =====
-- What a search in a well-formed storage finds.
use lone.Prelude.{
  ℕ, ◌^◌, ◌≤◌, ◌<◌, ◌≡◌, ◌≢◌, ◌⊎◌, inl, inr, refl, sym, ap, ◌∙◌, arith, true, false, List, some,
  Bool-cases, length,
}
use native.Mathlib.Decide.{ℕ_discrete}
use native.Mathlib.Nat.{pow-le-pow_right}
use lone.Value.{tombstone}
use lone.Table.{
  Keys, Entry, entry_key, slot_at, is_used, is_empty, index_empty, hash_to_index, find_index_for,
  key_matches, probe,
}
use lone.Table.Cycle.{between, distance-lt, between_total}
use lone.Table.Probe.{passes, Stops, probe-Stops}
use lone.Table.Invariant.{
  occupied, empty_slot, home_for, home_for-lt, home_for-hash_to_index, Hashable, key_matches-same,
  same, same-hash_of,
}

pub pow_small : (k : ℕ) → k ≤ 48 → 2 ^ k ≤ 2 ^ 48
pow_small k h = let two : 0 < 2 = omega arith in pow-le-pow_right two h

pub home-lt : (keys : Keys) (k key : ℕ) → 0 < k → k ≤ 48 → home_for keys key (2 ^ k) < 2 ^ k
home-lt keys k key p h = home_for-lt keys key k p (omega arith)

pub same-home :
    (keys : Keys) (k a b : ℕ)
    → same keys a b ≡ true
    → Hashable keys a
    → Hashable keys b
    → home_for keys a (2 ^ k) ≡ home_for keys b (2 ^ k)
same-home keys k a b h f g =
    home_for-hash_to_index keys a (2 ^ k) f
    ∙ ap (λ (x : ℕ). hash_to_index x (2 ^ k)) (same-hash_of keys a b f.0 g.0 h f.1 g.1)
    ∙ sym (home_for-hash_to_index keys b (2 ^ k) g)

-- A storage of 2 ^ k slots: every used slot refers to an entry that is there, each such entry has
-- exactly one slot, the slots on the way from its key's slot to its own are used, no two entries
-- have the same key, and all keys have hashes.
pub record IsStorage (keys : Keys) (k : ℕ) (indexes : List ℕ) (entries : List Entry) (used : ℕ)
    : Type 0 where
  pub positive : 0 < k
  pub small : k ≤ 48
  pub slots : length indexes ≡ 2 ^ k
  pub places : length entries ≡ 2 ^ k
  pub bound : used ≤ 2 ^ k
  pub points :
      (s : ℕ)
      → s < 2 ^ k
      → slot_at indexes s ≢ index_empty
      → (slot_at indexes s < used) × (entry_key entries (slot_at indexes s) ≢ tombstone)
  pub once :
      (s t : ℕ)
      → s < 2 ^ k
      → t < 2 ^ k
      → slot_at indexes s ≢ index_empty
      → slot_at indexes s ≡ slot_at indexes t
      → s ≡ t
  pub kept :
      (e : ℕ)
      → e < used
      → entry_key entries e ≢ tombstone
      → (s : ℕ) × (s < 2 ^ k) × (slot_at indexes s ≡ e)
  pub reach :
      (s x : ℕ)
      → s < 2 ^ k
      → x < 2 ^ k
      → slot_at indexes s ≢ index_empty
      → between (home_for keys (entry_key entries (slot_at indexes s)) (2 ^ k)) s x ≡ true
      → slot_at indexes x ≢ index_empty
  pub distinct :
      (e f : ℕ)
      → e < used
      → f < used
      → entry_key entries e ≢ tombstone
      → entry_key entries f ≢ tombstone
      → same keys (entry_key entries e) (entry_key entries f) ≡ true
      → e ≡ f
  pub hashed :
      (e : ℕ) → e < used → entry_key entries e ≢ tombstone → Hashable keys (entry_key entries e)

module _ (keys : Keys) (k : ℕ) (indexes : List ℕ) (entries : List Entry) (used : ℕ) where
  abbrev pub home : ℕ → ℕ
  home key = home_for keys key (2 ^ k)

  -- The outcome of a search: an empty slot where no entry has the key and all slots before are
  -- used, or the slot of the entry that has it.
  abbrev pub Finds : ℕ → ℕ → Type 0
  Finds key r =
      (r < 2 ^ k)
      × ((x : ℕ) → x < 2 ^ k → between (home key) r x ≡ true → slot_at indexes x ≢ index_empty)
      × (((slot_at indexes r ≡ index_empty)
            × ((e : ℕ)
                → e < used
                → entry_key entries e ≢ tombstone
                → same keys (entry_key entries e) key ≡ false))
          ⊎ ((slot_at indexes r ≢ index_empty)
              × (same keys (entry_key entries (slot_at indexes r)) key ≡ true)))

  abbrev Ends : ℕ → ℕ → Type 0
  Ends key r = Stops keys key indexes entries k (2 ^ k) refl (home key) r

  passed :
      (key x : ℕ)
      → passes keys key indexes entries k (2 ^ k) refl x ≡ true
      → (slot_at indexes x ≢ index_empty)
        × (same keys (entry_key entries (slot_at indexes x)) key ≡ false)
  unfolding is_used is_empty
  passed key x h = ((λ e. ground (arith, h, e)), ground (arith, h))

  stopped :
      (key x : ℕ)
      → passes keys key indexes entries k (2 ^ k) refl x ≡ false
      → slot_at indexes x ≢ index_empty
      → same keys (entry_key entries (slot_at indexes x)) key ≡ true
  unfolding is_used is_empty
  stopped key x h ne = ground (arith, h, ne)

  stops_at_empty :
      (key x : ℕ)
      → slot_at indexes x ≡ index_empty
      → passes keys key indexes entries k (2 ^ k) refl x ≡ false
  unfolding is_used is_empty
  stops_at_empty key x e = ground (arith, e)

  absent :
      (w : IsStorage keys k indexes entries used) (key r e : ℕ)
      → Hashable keys key
      → Ends key r
      → slot_at indexes r ≡ index_empty
      → e < used
      → entry_key entries e ≢ tombstone
      → same keys (entry_key entries e) key ≢ true
  absent w key r e hash stops empty l live hit =
      let place = w.kept e l live in
      let s = place.0 in
      let full : slot_at indexes s ≢ index_empty =
        omega (arith, place.2, w.bound, pow_small k w.small, l) in
      let ne : r ≢ s = λ same_place. full (ap (slot_at indexes) (sym same_place) ∙ empty) in
      elim (Bool-cases (between (home key) r s)) [
        | inl b ↦
            let missed = (passed key s (stops.2 s place.1 b)).1 in
            ground (arith, missed, hit, ap (λ (x : ℕ). same keys (entry_key entries x) key) place.2)
        | inr b ↦
            let later = between_total (home key) r s ne b in
            let start : home (entry_key entries (slot_at indexes s)) ≡ home key =
              ap (λ (x : ℕ). home (entry_key entries x)) place.2
              ∙ same-home keys k (entry_key entries e) key hit (w.hashed e l live) hash in
            w.reach s r place.1 stops.0 full (ap (λ (h : ℕ). between h s r) start ∙ later) empty
      ]

  matched :
      (key : ℕ) (hash : Hashable keys key)
      → IsStorage keys k indexes entries used
      → (x : ℕ) → x < 2 ^ k
      → is_used indexes x ≡ true
      → key_matches keys (entry_key entries (slot_at indexes x)) key hash.0
        ≡ some (same keys (entry_key entries (slot_at indexes x)) key)
  unfolding is_used is_empty
  matched key hash w x l full =
      let p = w.points x l (λ z. ground (arith, full, z)) in
      key_matches-same keys (entry_key entries (slot_at indexes x)) key hash.0
        (w.hashed (slot_at indexes x) p.0 p.1) hash.1

  searched :
      (key : ℕ) (hash : Hashable keys key) (r : ℕ)
      → probe keys (2 ^ k) key hash.0 indexes entries (2 ^ k) (home key) ≡ some r
      → find_index_for keys key indexes entries (2 ^ k) ≡ some r
  unfolding find_index_for
  searched key hash r e =
      rw (find_index_for, hash.1)
        (ap (probe keys (2 ^ k) key hash.0 indexes entries (2 ^ k))
            (sym (home_for-hash_to_index keys key (2 ^ k) hash))
          ∙ e)

  pub find_index_for-Finds :
      (key : ℕ)
      → IsStorage keys k indexes entries used
      → occupied indexes < 2 ^ k
      → Hashable keys key
      → (r : ℕ) × (find_index_for keys key indexes entries (2 ^ k) ≡ some r) × Finds key r
  find_index_for-Finds key w room hash =
      let start = home-lt keys k key w.positive w.small in
      let free = empty_slot indexes (rw (w.slots) room) in
      let e = free.0 in
      let l : e < 2 ^ k = rw (← w.slots) free.1 in
      let p =
        probe-Stops keys key indexes entries k (2 ^ k) refl hash.0 (matched key hash w) (2 ^ k)
          (home key) e start l (stops_at_empty key e free.2)
          (distance-lt (2 ^ k) (home key) e start l) in
      (
        p.0,
        searched key hash p.0 p.1,
        (
          p.2.0,
          (λ x lx b. (passed key x (p.2.2 x lx b)).0),
          elim (ℕ_discrete (slot_at indexes p.0) index_empty) [
            | yes f ↦ inl (
              f,
              λ e l live. elim (Bool-cases (same keys (entry_key entries e) key)) [
                | inl hit ↦ absurd (absent w key p.0 e hash p.2 f l live hit)
                | inr miss ↦ miss
              ],
            )
            | no f ↦ inr (f, stopped key p.0 p.2.1 f)
          ],
        ),
      )
