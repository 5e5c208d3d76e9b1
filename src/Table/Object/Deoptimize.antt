-- ===== src/Table/Object/Deoptimize.antt =====
-- The hash storage that a shaped table is moved into.
use lone.Prelude.{
  ℕ, suc, ◌+◌, ◌^◌, ◌≤◌, ◌<◌, ◌≡◌, ◌≢◌, inl, inr, refl, sym, ap, ◌∙◌, arith, Bool, true, false,
  List, [], ◌∷◌, ◌++◌, some, ltb, ◌==◌, Bool-cases, length, set, take, replicate, take-set,
  append_assoc, append-nil,
}
use lone.Value.{tombstone}
use lone.Utilities.{next_power_of_2}
use lone.Utilities.Power.{next_power_of_2-IsLeast, pow_reflects}
use lone.Table.{Keys, Entry, HashTable, entry_key, no_entry, slot_at, index_empty, find_index_for}
use lone.Table.Invariant.{occupied, same, Hashable}
use lone.Table.Search.{IsStorage, find_index_for-Finds, pow_small}
use lone.Table.Insert.{occupied-set, added-IsStorage}
use lone.Table.Contents.{pairs, pairs-append}
use lone.Table.Rehash.{Unique, AreHashable, Fresh, still-Fresh, fresh-IsStorage, occupied-replicate}
use lone.Table.Refinement.{IsTable, pairs_of}
use lone.Table.Assignment.{allocates}
use lone.Table.Object.{ShapedTable, capacity_for, move_fields, deoptimize}
use lone.Table.Object.Fields.{Live, pairs-Live}

module _ (keys : Keys) (k : ℕ) where
  -- The outcome: a storage of all fields, each in a slot of its own.
  abbrev Moves : List Entry → List ℕ → List Entry → ℕ → Type 0
  Moves fields indexes entries j =
      (is : List ℕ) × (es : List Entry) × (n : ℕ) × (move_fields keys fields indexes entries (2 ^ k)
          j
        ≡ some (is, es, n))
      × IsStorage keys k is es n
      × (occupied is ≡ n)
      × (n ≡ j + length fields)
      × (pairs (take n es) ≡ pairs (take j entries) ++ fields)

  module _ (x : Entry) (fields : List Entry) (indexes : List ℕ) (entries : List Entry) (j : ℕ)
      (w : IsStorage keys k indexes entries j) (count : occupied indexes ≡ j) (room : j < 2 ^ k)
      (fresh : Fresh keys k entries j (x ∷ fields)) (live : x.0 ≢ tombstone)
      (hash : Hashable keys x.0) where
    -- The search for a key that has not been moved ends at an empty slot.
    lands :
        (r : ℕ) × (find_index_for keys x.0 indexes entries (2 ^ k) ≡ some r)
        × IsStorage keys k (set indexes r j) (set entries j (x.0, x.1)) (j + 1)
        × (occupied (set indexes r j) ≡ j + 1)
    lands =
        let f =
          find_index_for-Finds keys k indexes entries j x.0 w (omega (arith, count, room)) hash in
        let apart : (e : ℕ)
            → e < j
            → entry_key entries e ≢ tombstone
            → same keys (entry_key entries e) x.0 ≡ false =
          λ e l a. fresh e 0 l (omega arith) live in
        elim f.2.2 [
          | inl empty ↦ (
            f.0,
            f.1,
            added-IsStorage keys k indexes entries j w x.0 x.1 f.0 room f.2.0 empty.0 f.2.1 apart
                live hash,
            occupied-set indexes f.0 j (omega (arith, w.slots, f.2.0)) empty.0
                  (omega (arith, room, pow_small k w.small))
                ∙ ap (λ (n : ℕ). n + 1) count,
          )
          | inr hit ↦
              let p = w.points f.0 f.2.0 hit.0 in
              absurd (let m = apart (slot_at indexes f.0) p.0 p.1 in ground (arith, m, hit.1))
        ]

    -- The entries with the field at their end.
    appended : pairs (take (j + 1) (set entries j (x.0, x.1))) ≡ pairs (take j entries) ++ (x ∷ [])
    appended =
        let n : j + 1 ≡ suc j = omega arith in
        let alive : (x.0 == tombstone) ≡ false = ground (arith, live) in
        ap (λ (t : ℕ). pairs (take t (set entries j (x.0, x.1)))) n
        ∙ ap pairs (take-set j entries (x.0, x.1) (omega (arith, w.places, room)))
        ∙ pairs-append (take j entries) ((x.0, x.1) ∷ [])
        ∙ rw (alive) refl

  move_fields-Moves :
      (fields : List Entry) (indexes : List ℕ) (entries : List Entry) (j : ℕ)
      → IsStorage keys k indexes entries j
      → occupied indexes ≡ j
      → j + length fields < 2 ^ k
      → Unique keys k fields
      → AreHashable keys k fields
      → Fresh keys k entries j fields
      → Live fields
      → Moves fields indexes entries j
  unfolding move_fields
  move_fields-Moves [] indexes entries j w count room unique hashes fresh live =
      (indexes, entries, j, refl, w, count, omega arith, sym (append-nil (pairs (take j entries))))
  move_fields-Moves (x ∷ fields) indexes entries j w count room unique hashes fresh live =
      let first : x.0 ≢ tombstone = live 0 (omega arith) in
      let alive : (x.0 == tombstone) ≡ false = ground (arith, first) in
      let rest_live : Live fields = λ e l. live (suc e) (omega (arith, l)) in
      let hash : Hashable keys x.0 = hashes 0 (omega arith) first in
      let rest_hashes : AreHashable keys k fields = λ e l a. hashes (suc e) (omega (arith, l)) a in
      let rest_unique : Unique keys k fields = λ e f l m a b h.
        let p = unique (suc e) (suc f) (omega (arith, l)) (omega (arith, m)) a b h in
        omega (arith, p) in
      let room_pairs : j + length (pairs (x ∷ fields)) < 2 ^ k =
        omega (arith, room, ap length (pairs-Live (x ∷ fields) live)) in
      let s = lands x fields indexes entries j w count (omega (arith, room)) fresh first hash in
      let r =
        move_fields-Moves fields (set indexes s.0 j) (set entries j (x.0, x.1)) (j + 1) s.2 s.3
          (omega (arith, room)) rest_unique rest_hashes
          (still-Fresh keys k x fields indexes entries j w count room_pairs unique fresh alive hash)
          rest_live in
      (
        r.0,
        r.1,
        r.2,
        rw (move_fields, s.1) r.3,
        r.4,
        r.5,
        omega (arith, r.6),
        r.7
            ∙ ap (λ (l : List Entry). l ++ fields)
                (appended x fields indexes entries j w count (omega (arith, room)) fresh first hash)
            ∙ append_assoc (pairs (take j entries)) (x ∷ []) fields,
      )

-- The capacity for a number of entries is a power of two that is at least 2 and not below it, and
-- less than twice as much where it is larger.
pub capacity_for-power :
    (n : ℕ) → n ≤ 2 ^ 47 → (k : ℕ) × (capacity_for n ≡ 2 ^ k) × (0 < k) × (k ≤ 47) × (n ≤ 2 ^ k)
unfolding capacity_for
capacity_for-power n h =
    let p = next_power_of_2-IsLeast n (omega arith) in
    elim (Bool-cases (ltb (next_power_of_2 n) 2)) [
      | inl e ↦ (1, rw (e) refl, omega arith, omega arith, ground (arith, e, p.1, p.2))
      | inr e ↦
          let least = p.3 47 h in
          let small : p.0 ≤ 47 =
            let q = pow_reflects p.0 48 (omega (arith, least)) in omega (arith, q) in
          let large : 0 < p.0 = pow_reflects 0 p.0 (ground (arith, e, p.1)) in
          (p.0, rw (e) p.1, large, small, p.2)
    ]

module _ (keys : Keys) (memory : ℕ → Bool) (granted : (size : ℕ) → memory size ≡ true) where
  -- Where the allocator has the memory, a shaped table whose fields have keys of their own becomes
  -- a well-formed one that holds the same.
  pub deoptimize-IsTable :
      (t : ShapedTable)
      → length t.fields < 2 ^ 47
      → ((k : ℕ) → Unique keys k t.fields)
      → ((k : ℕ) → AreHashable keys k t.fields)
      → Live t.fields
      → (k : ℕ) × (after : HashTable) × (deoptimize keys memory t ≡ some after)
        × (k ≤ 47)
        × IsTable keys k after
        × (pairs_of after ≡ t.fields)
  unfolding deoptimize
  deoptimize-IsTable t small unique hashes live =
      let p = capacity_for-power (length t.fields + 1) (omega (arith, small)) in
      let k = p.0 in
      let r =
        move_fields-Moves keys k t.fields (replicate (2 ^ k) index_empty)
          (replicate (2 ^ k) no_entry) 0 (fresh-IsStorage keys k p.2 (omega (arith, p.3)))
          (occupied-replicate (2 ^ k)) (omega (arith, p.4)) (unique k) (hashes k)
          (λ e f l m a. absurd (omega (arith, l))) live in
      (
        k,
        record {
          count = length t.fields;
          capacity = 2 ^ k;
          generation = t.generation + 1;
          used = r.2;
          indexes = r.0;
          entries = r.1;
        },
        rw (deoptimize, p.1, allocates memory k granted (omega (arith, p.3)), p.1, r.3, p.1) refl,
        p.3,
        record {
          power = refl;
          storage = r.4;
          in_use = omega (arith, r.5, r.6);
          counted = ap length r.7;
          free = omega (arith, p.4);
        },
        r.7,
      )
