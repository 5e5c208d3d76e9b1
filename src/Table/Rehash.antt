-- ===== src/Table/Rehash.antt =====
-- The storage that a resize builds from the entries of the old one.
use lone.Prelude.{
  ℕ, zero, suc, ◌+◌, ◌^◌, ◌≤◌, ◌<◌, ◌≡◌, ◌≢◌, inl, inr, refl, sym, ap, ap₂, ◌∙◌, arith, true, false,
  List, [], ◌∷◌, ◌++◌, some, ◌==◌, Bool-cases, length, get_or, set, length-set, take, replicate,
  length-replicate, take-set, append_assoc, append-nil,
}
use mathlib.Core.Path.{subst}
use native.Mathlib.Decide.{ℕ_discrete}
use lone.Value.{tombstone, is_tombstone}
use lone.Table.{Keys, Entry, entry_key, no_entry, slot_at, index_empty, rehash, find_index_for}
use lone.Table.Cycle.{between}
use lone.Table.Invariant.{occupied, same, Hashable, home_for}
use lone.Table.Search.{IsStorage, find_index_for-Finds, pow_small}
use lone.Table.Insert.{entry_key-set_self, entry_key-set_ne, occupied-set, added-IsStorage}
use lone.Table.Contents.{pairs, pairs-append}

get_or-replicate : (n i v : ℕ) → get_or (replicate n v) i v ≡ v
get_or-replicate zero i v = refl
get_or-replicate (suc n) zero v = refl
get_or-replicate (suc n) (suc i) v = get_or-replicate n i v

pub occupied-replicate : (n : ℕ) → occupied (replicate n index_empty) ≡ 0
occupied-replicate zero = refl
occupied-replicate (suc n) = omega (arith, occupied-replicate n)

set-set : (es : List Entry) (i : ℕ) (x y : Entry) → set (set es i x) i y ≡ set es i y
set-set [] i x y = refl
set-set (e ∷ es) zero x y = refl
set-set (e ∷ es) (suc i) x y = ap (λ (r : List Entry). e ∷ r) (set-set es i x y)

slot-fresh : (n s : ℕ) → slot_at (replicate n index_empty) s ≡ index_empty
unfolding slot_at
slot-fresh n s = get_or-replicate n s index_empty

-- The storage of a new table is well-formed.
pub fresh-IsStorage :
    (keys : Keys) (k : ℕ)
    → 0 < k
    → k ≤ 48
    → IsStorage keys k (replicate (2 ^ k) index_empty) (replicate (2 ^ k) no_entry) 0
fresh-IsStorage keys k p small = record {
  positive = p;
  small = small;
  slots = length-replicate {A = ℕ} (2 ^ k) index_empty;
  places = length-replicate {A = Entry} (2 ^ k) no_entry;
  bound = omega arith;
  points = λ s l full. absurd (full (slot-fresh (2 ^ k) s));
  once = λ s t l m full e. absurd (full (slot-fresh (2 ^ k) s));
  kept = λ e l live. absurd (omega (arith, l));
  reach = λ s x l m full b. absurd (full (slot-fresh (2 ^ k) s));
  distinct = λ e f l m a b h. absurd (omega (arith, l));
  hashed = λ e l a. absurd (omega (arith, l));
}

module _ (keys : Keys) (k : ℕ) where
  -- Only the keys of the entries in use matter.
  pub alike-IsStorage :
      (indexes : List ℕ) (entries es : List Entry) (used : ℕ)
      → IsStorage keys k indexes entries used
      → length es ≡ length entries
      → ((e : ℕ) → e < used → entry_key es e ≡ entry_key entries e)
      → IsStorage keys k indexes es used
  alike-IsStorage indexes entries es used w places key = record {
    positive = w.positive;
    small = w.small;
    slots = w.slots;
    places = places ∙ w.places;
    bound = w.bound;
    points = λ s l full.
        let p = w.points s l full in (p.0, λ z. p.1 (sym (key (slot_at indexes s) p.0) ∙ z));
    once = w.once;
    kept = λ e l live. w.kept e l (λ z. live (key e l ∙ z));
    reach = λ s y l m full b. w.reach s y l m full (
        ap (λ (h : ℕ). between (home_for keys h (2 ^ k)) s y)
          (sym (key (slot_at indexes s) (w.points s l full).0))
        ∙ b);
    distinct = λ e f l m a b h.
        w.distinct e f l m (λ z. a (key e l ∙ z)) (λ z. b (key f m ∙ z))
          (ap₂ (λ (y z : ℕ). same keys y z) (sym (key e l)) (sym (key f m)) ∙ h);
    hashed = λ e l a. subst (Hashable keys) (sym (key e l)) (w.hashed e l (λ z. a (key e l ∙ z)));
  }

  -- The old entries have keys of their own.
  abbrev pub Unique : List Entry → Type 0
  Unique old =
      (e f : ℕ)
      → e < length old
      → f < length old
      → entry_key old e ≢ tombstone
      → entry_key old f ≢ tombstone
      → same keys (entry_key old e) (entry_key old f) ≡ true
      → e ≡ f

  -- The old entries have keys with hashes.
  abbrev pub AreHashable : List Entry → Type 0
  AreHashable old =
      (e : ℕ) → e < length old → entry_key old e ≢ tombstone → Hashable keys (entry_key old e)

  -- No old entry has been moved yet.
  abbrev pub Fresh : List Entry → ℕ → List Entry → Type 0
  Fresh entries j old =
      (e f : ℕ)
      → e < j
      → f < length old
      → entry_key old f ≢ tombstone
      → same keys (entry_key entries e) (entry_key old f) ≡ false

  -- The outcome: a storage of all entries, each in a slot of its own.
  abbrev pub Rehashed : List Entry → List ℕ → List Entry → ℕ → Type 0
  Rehashed old indexes entries j =
      (is : List ℕ) × (es : List Entry) × (n : ℕ) × (rehash keys old indexes entries (2 ^ k) j
        ≡ some (is, es, n))
      × IsStorage keys k is es n
      × (occupied is ≡ n)
      × (n ≡ j + length (pairs old))
      × (pairs (take n es) ≡ pairs (take j entries) ++ pairs old)

  module _ (x : Entry) (old : List Entry) (indexes : List ℕ) (entries : List Entry) (j : ℕ)
      (w : IsStorage keys k indexes entries j) (count : occupied indexes ≡ j)
      (room : j + length (pairs (x ∷ old)) < 2 ^ k) (unique : Unique (x ∷ old))
      (fresh : Fresh entries j (x ∷ old)) (live : (x.0 == tombstone) ≡ false)
      (hash : Hashable keys x.0) where
    abbrev pub written : List Entry
    written = set entries j x

    low : j < 2 ^ k
    low = omega (arith, room)

    is_live : x.0 ≢ tombstone
    is_live t = ground (arith, t, live)

    written_key : entry_key written j ≡ x.0
    written_key = entry_key-set_self entries j x (omega (arith, w.places, low))

    old_key : (e : ℕ) → e < j → entry_key written e ≡ entry_key entries e
    old_key e l = entry_key-set_ne entries j e x (omega (arith, l))

    apart :
        (e : ℕ)
        → e < j
        → entry_key written e ≢ tombstone
        → same keys (entry_key written e) x.0 ≡ false
    apart e l a = ap (λ (y : ℕ). same keys y x.0) (old_key e l) ∙ fresh e 0 l (omega arith) is_live

    -- The search for a key that has not been moved ends at an empty slot.
    lands :
        (r : ℕ) × (find_index_for keys x.0 indexes written (2 ^ k) ≡ some r)
        × IsStorage keys k (set indexes r j) written (j + 1)
        × (occupied (set indexes r j) ≡ j + 1)
    lands =
        let v = alike-IsStorage indexes entries written j w (length-set entries j x) old_key in
        let f =
          find_index_for-Finds keys k indexes written j x.0 v (omega (arith, count, low)) hash in
        elim f.2.2 [
          | inl empty ↦ (
            f.0,
            f.1,
            rw (← set-set entries j x x) (
                added-IsStorage keys k indexes written j v x.0 x.1 f.0 low f.2.0 empty.0 f.2.1 apart
                  is_live hash),
            occupied-set indexes f.0 j (omega (arith, w.slots, f.2.0)) empty.0
                  (omega (arith, low, pow_small k w.small))
                ∙ ap (λ (n : ℕ). n + 1) count,
          )
          | inr hit ↦
              let p = v.points f.0 f.2.0 hit.0 in
              absurd (let m = apart (slot_at indexes f.0) p.0 p.1 in ground (arith, m, hit.1))
        ]

    pub still-Fresh : Fresh written (j + 1) old
    still-Fresh e f l m a = elim (ℕ_discrete e j) [
      | yes same_place ↦ elim (Bool-cases (same keys (entry_key written e) (entry_key old f))) [
        | inr miss ↦ miss
        | inl both ↦
            let first : entry_key written e ≡ x.0 =
              ap (entry_key written) same_place ∙ written_key in
            absurd (
              let p =
                unique 0 (suc f) (omega arith) (omega (arith, m)) is_live a
                  (ap (λ (y : ℕ). same keys y (entry_key old f)) (sym first) ∙ both) in
              omega (arith, p))
      ]
      | no ne ↦
          let below : e < j = omega arith in
          ap (λ (y : ℕ). same keys y (entry_key old f)) (old_key e below)
          ∙ fresh e (suc f) below (omega (arith, m)) a
    ]

  -- All old entries are moved, in their order, the deleted ones left out.
  pub rehash-Rehashed :
      (old : List Entry) (indexes : List ℕ) (entries : List Entry) (j : ℕ)
      → IsStorage keys k indexes entries j
      → occupied indexes ≡ j
      → j + length (pairs old) < 2 ^ k
      → Unique old
      → AreHashable old
      → Fresh entries j old
      → Rehashed old indexes entries j
  unfolding rehash
  rehash-Rehashed [] indexes entries j w count room unique hashes fresh =
      (indexes, entries, j, refl, w, count, omega arith, sym (append-nil (pairs (take j entries))))
  rehash-Rehashed (x ∷ old) indexes entries j w count room unique hashes fresh =
      let rest_hashes : AreHashable old = λ e l a. hashes (suc e) (omega (arith, l)) a in
      let rest_unique : Unique old = λ e f l m a b h.
        let p = unique (suc e) (suc f) (omega (arith, l)) (omega (arith, m)) a b h in
        omega (arith, p) in
      elim (Bool-cases (x.0 == tombstone)) [
        | inl dead ↦
            let is_dead : is_tombstone x.0 ≡ true = unfold is_tombstone tombstone in dead in
            rw (dead, is_dead)
              (rehash-Rehashed old indexes entries j w count (ground (arith, room, dead))
                rest_unique rest_hashes (λ e f l m a. fresh e (suc f) l (omega (arith, m)) a))
        | inr live ↦
            let is_alive : is_tombstone x.0 ≡ false = unfold is_tombstone tombstone in live in
            let hash : Hashable keys x.0 =
              hashes 0 (omega arith) (λ z. absurd (ground (arith, z, live))) in
            let s = lands x old indexes entries j w count room unique fresh live hash in
            let r =
              rehash-Rehashed old (set indexes s.0 j) (set entries j x) (j + 1) s.2 s.3
                (ground (arith, room, live)) rest_unique rest_hashes
                (still-Fresh x old indexes entries j w count room unique fresh live hash) in
            let n : j + 1 ≡ suc j = omega arith in
            let low : j < length entries = omega (arith, w.places, room) in
            let first : pairs (take (j + 1) (set entries j x))
                ≡ pairs (take j entries) ++ (x ∷ []) =
              ap (λ (t : ℕ). pairs (take t (set entries j x))) n
              ∙ ap pairs (take-set j entries x low)
              ∙ pairs-append (take j entries) (x ∷ [])
              ∙ rw (live) refl in
            (
              r.0,
              r.1,
              r.2,
              rw (is_alive, s.1) r.3,
              r.4,
              r.5,
              ground (arith, r.6, live),
              r.7
                  ∙ ap (λ (l : List Entry). l ++ pairs old) first
                  ∙ append_assoc (pairs (take j entries)) (x ∷ []) (pairs old)
                  ∙ rw (live) refl,
            )
      ]
