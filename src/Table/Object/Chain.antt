-- ===== src/Table/Object/Chain.antt =====
-- The look-up through the prototypes.
use lone.Prelude.{
  ℕ, zero, suc, ◌<◌, ◌⊎◌, ◌≡◌, refl, sym, ap, ◌∙◌, arith, true, false, List, [], ◌∷◌, Option, none,
  some, length, inl, inr,
}
use lone.Value.{nil, is_nil}
use lone.Table.{Keys}
use lone.Table.Invariant.{Hashable}
use lone.Table.Contents.{lookup}
use lone.Table.Object.{Table, table_get}
use lone.Table.Object.Refinement.{contents, IsWell, own_get-lookup}

-- `tables` are the table at hand and its prototypes, up to one that has none.
abbrev pub IsChain : (ℕ → Table) → Table → List Table → Type 0
IsChain heap t [] = is_nil t.prototype ≡ true
IsChain heap t (next ∷ rest) =
    (is_nil t.prototype ≡ false) × (next ≡ heap t.prototype) × IsChain heap next rest

-- The value in the first table that has the key, or nil.
abbrev pub lookup_all : Keys → List Table → ℕ → ℕ
lookup_all keys [] key = nil
lookup_all keys (t ∷ rest) key = elim (lookup keys (contents t.storage) key) [
  | none ↦ lookup_all keys rest key
  | some value ↦ value
]

abbrev pub AllWell : Keys → List Table → Type 0
AllWell keys [] = Unit {0}
AllWell keys (t ∷ rest) = IsWell keys t.storage × AllWell keys rest

Option-cases : (o : Option ℕ) → (o ≡ none) ⊎ ((v : ℕ) × (o ≡ some v))
Option-cases none = inl refl
Option-cases (some v) = inr (v, refl)

-- The look-up of a key that has a hash in a table with finitely many prototypes, all of them
-- well-formed, ends and gives the value in the first of these tables that has the key, and nil if none has it.
pub table_get-lookup_all :
    (keys : Keys) (heap : ℕ → Table) (t : Table) (prototypes : List Table) (key : ℕ)
    → IsChain heap t prototypes
    → AllWell keys (t ∷ prototypes)
    → Hashable keys key
    → (rounds : ℕ) → length prototypes < rounds
    → table_get keys rounds heap t key ≡ some (lookup_all keys (t ∷ prototypes) key)
unfolding table_get
table_get-lookup_all keys heap t prototypes key chain w hash zero enough =
    absurd (omega (arith, enough))
table_get-lookup_all keys heap t [] key chain w hash (suc rounds) enough =
    let own = own_get-lookup keys t.storage key w.0 hash in
    elim (Option-cases (lookup keys (contents t.storage) key)) [
      | inl n ↦ rw (table_get, own, lookup_all, n, chain) refl
      | inr v ↦ rw (table_get, own, lookup_all, v.1) refl
    ]
table_get-lookup_all keys heap t (next ∷ rest) key chain w hash (suc rounds) enough =
    let own = own_get-lookup keys t.storage key w.0 hash in
    elim (Option-cases (lookup keys (contents t.storage) key)) [
      | inl n ↦
          rw (table_get, own, lookup_all, n, chain.0)
            (ap (λ (x : Table). table_get keys rounds heap x key) (sym chain.1)
              ∙ table_get-lookup_all keys heap next rest key chain.2 w.1 hash rounds
                  (omega (arith, enough)))
      | inr v ↦ rw (table_get, own, lookup_all, v.1) refl
    ]
