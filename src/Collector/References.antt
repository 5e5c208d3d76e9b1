-- ===== src/Collector/References.antt =====
-- The words that the mark phase goes through, against the words that a heap value holds.
use lone.Prelude.{
  ℕ, zero, suc, ◌%◌, ◌<◌, ◌≡◌, ◌≢◌, ◌⊎◌, inl, inr, refl, sym, arith, false, List, [], ◌∷◌, ◌++◌,
  Option, none, some, ◌↔◌, ◌==◌, Bool-cases, length, get_or, take, take-length,
}
use mathlib.Core.Path.{subst}
use lone.Value.{heap_index, tombstone, is_tombstone, code}
use lone.Stack.{Stack}
use lone.Table.{Entry, no_entry}
use lone.Collector.{
  Object, references, stack_frames, entry_words, module_object, function_object, primitive_object,
  continuation_object, generator_object, list_object, vector_object, hashed_object, shaped_object,
  shape_object, bytes_object,
}
use lone.Collector.Reachability.{Among, Framed, InEntries, Holds, Names}

-- A word is one of a list.
abbrev pub In : List ℕ → ℕ → Type 0
In [] word = ⊥
In (w ∷ words) word = (word ≡ w) ⊎ In words word

-- One of the words is a reference to the value at an index, by the test of `lone_lisp_mark_value`.
abbrev pub Refers : List ℕ → ℕ → Type 0
Refers [] index = ⊥
Refers (word ∷ words) index =
    (((word % 2 == 1) ≡ false) × (heap_index word ≡ index)) ⊎ Refers words index

Names-heap_index :
    (word index : ℕ) → (((word % 2 == 1) ≡ false) × (heap_index word ≡ index)) ↔ Names word index
unfolding heap_index
Names-heap_index word index = (
  (λ h. (ground (arith, h.0), omega (arith, h.1), omega (arith, h.1))),
  λ h. (ground (arith, h.0), omega (arith, h.1, h.2)),
)

pub Refers-In :
    (words : List ℕ) (index : ℕ)
    → Refers words index ↔ ((word : ℕ) × In words word × Names word index)
Refers-In [] index = ((λ h. absurd h), λ h. absurd h.1)
Refers-In (w ∷ words) index = (
  (λ h. elim h [
    | inl e ↦ (w, inl refl, (Names-heap_index w index).0 e)
    | inr r ↦ let p = (Refers-In words index).0 r in (p.0, inr p.1, p.2)
  ]),
  λ (word, place, names). elim place [
    | inl e ↦ inl ((Names-heap_index w index).1 (subst (λ (x : ℕ). Names x index) e names))
    | inr r ↦ inr ((Refers-In words index).1 (word, r, names))
  ],
)

In-append : (xs ys : List ℕ) (word : ℕ) → In (xs ++ ys) word ↔ (In xs word ⊎ In ys word)
In-append [] ys word = ((λ h. inr h), λ h. elim h [ inl e ↦ absurd e | inr r ↦ r ])
In-append (x ∷ xs) ys word = (
  (λ h. elim h [
    | inl e ↦ inl (inl e)
    | inr r ↦ elim ((In-append xs ys word).0 r) [ inl a ↦ inl (inr a) | inr b ↦ inr b ]
  ]),
  λ h. elim h [
    | inl a ↦ elim a [ inl e ↦ inl e | inr r ↦ inr ((In-append xs ys word).1 (inl r)) ]
    | inr b ↦ inr ((In-append xs ys word).1 (inr b))
  ],
)

taken :
    (count : ℕ) (words : List ℕ) (word i : ℕ)
    → i < count
    → i < length words
    → get_or words i 0 ≡ word
    → In (take count words) word
taken zero words word i l m e = absurd (omega (arith, l))
taken (suc count) [] word i l m e = absurd (omega (arith, m))
taken (suc count) (w ∷ words) word zero l m e = inl (sym e)
taken (suc count) (w ∷ words) word (suc i) l m e =
    inr (taken count words word i (omega (arith, l)) (omega (arith, m)) e)

In-take :
    (count : ℕ) (words : List ℕ) (word : ℕ) → In (take count words) word → Among words count word
In-take zero words word h = absurd h
In-take (suc count) [] word h = absurd h
In-take (suc count) (w ∷ words) word (inl e) = (0, omega arith, omega arith, sym e)
In-take (suc count) (w ∷ words) word (inr r) =
    let p = In-take count words word r in (suc p.0, omega (arith, p.1), omega (arith, p.2), p.3)

In-Among :
    (count : ℕ) (words : List ℕ) (word : ℕ) → In (take count words) word ↔ Among words count word
In-Among count words word = (In-take count words word, λ h. taken count words word h.0 h.1 h.2 h.3)

In-whole : (words : List ℕ) (word : ℕ) → In words word ↔ Among words (length words) word
In-whole words word =
    subst (λ (xs : List ℕ). In xs word ↔ Among words (length words) word)
      (take-length (length words) words (omega arith)) (In-Among (length words) words word)

In-stack_frames :
    (stack : Option Stack) (word : ℕ) → In (stack_frames stack) word ↔ Framed stack word
unfolding stack_frames
In-stack_frames none word = ((λ h. h), λ h. h)
In-stack_frames (some stack) word = In-Among stack.top stack.frames word

kept_entry :
    (used : ℕ) (entries : List Entry) (word i : ℕ)
    → i < used
    → i < length entries
    → (get_or entries i no_entry).0 ≢ tombstone
    → (word ≡ (get_or entries i no_entry).0) ⊎ (word ≡ (get_or entries i no_entry).1)
    → In (entry_words (take used entries)) word
unfolding entry_words
kept_entry zero entries word i l m live e = absurd (omega (arith, l))
kept_entry (suc used) [] word i l m live e = absurd (omega (arith, m))
kept_entry (suc used) (x ∷ entries) word zero l m live e =
    let live_word : (x.0 == tombstone) ≡ false = ground (arith, live) in
    let alive : is_tombstone x.0 ≡ false = unfold is_tombstone tombstone in live_word in
    rw (alive) (elim e [ inl a ↦ inl a | inr b ↦ inr (inl b) ])
kept_entry (suc used) (x ∷ entries) word (suc i) l m live e =
    let rest = kept_entry used entries word i (omega (arith, l)) (omega (arith, m)) live e in
    elim (Bool-cases (is_tombstone x.0)) [
      | inl dead ↦ rw (dead) rest
      | inr alive ↦ rw (alive) (inr (inr rest))
    ]

later :
    (used : ℕ) (x : Entry) (entries : List Entry) (word : ℕ)
    → InEntries entries used word
    → InEntries (x ∷ entries) (suc used) word
later used x entries word p = (suc p.0, omega (arith, p.1), omega (arith, p.2), p.3, p.4)

In-entry_words :
    (used : ℕ) (entries : List Entry) (word : ℕ)
    → In (entry_words (take used entries)) word
    → InEntries entries used word
unfolding entry_words
In-entry_words zero entries word h = absurd h
In-entry_words (suc used) [] word h = absurd h
In-entry_words (suc used) (x ∷ entries) word h = elim (Bool-cases (is_tombstone x.0)) [
  | inl dead ↦ later used x entries word (In-entry_words used entries word (rw (dead) at h))
  | inr alive ↦
      let live : x.0 ≢ tombstone = λ z. absurd (
        let g : (x.0 == tombstone) ≡ false = unfold is_tombstone tombstone in alive in
        ground (arith, g, z)) in
      elim (rw (alive) at h) [
        | inl a ↦ (0, omega arith, omega arith, live, inl a)
        | inr b ↦ elim b [
          | inl c ↦ (0, omega arith, omega arith, live, inr c)
          | inr r ↦ later used x entries word (In-entry_words used entries word r)
        ]
      ]
]

entries_iff :
    (used : ℕ) (entries : List Entry) (word : ℕ)
    → In (entry_words (take used entries)) word ↔ InEntries entries used word
entries_iff used entries word =
    (In-entry_words used entries word, λ h. kept_entry used entries word h.0 h.1 h.2 h.3 h.4)

pub same_sum : (A B C D : Type 0) → (A ↔ C) → (B ↔ D) → (A ⊎ B) ↔ (C ⊎ D)
same_sum A B C D f g = (
  (λ h. elim h [ inl a ↦ inl (f.0 a) | inr b ↦ inr (g.0 b) ]),
  λ h. elim h [ inl c ↦ inl (f.1 c) | inr d ↦ inr (g.1 d) ],
)

both : (A B C : Type 0) → (A ↔ B) → (B ↔ C) → A ↔ C
both A B C f g = ((λ a. g.0 (f.0 a)), λ c. f.1 (g.1 c))

same_type : (A : Type 0) → A ↔ A
same_type A = ((λ a. a), λ a. a)

no_more : (A : Type 0) → (A ⊎ ⊥) ↔ A
no_more A = ((λ h. elim h [ inl a ↦ a | inr b ↦ absurd b ]), λ a. inl a)

-- The words that a heap value is marked through are those that it holds.
pub references-Holds :
    (object : Object) (word : ℕ) → In (references object) word ↔ Holds object word
unfolding references
references-Holds (module_object name environment exports) word =
    same_sum _ _ _ _ (same_type _) (same_sum _ _ _ _ (same_type _) (no_more (word ≡ exports)))
references-Holds (function_object arguments code environment shape) word =
    same_sum _ _ _ _ (same_type _)
      (same_sum _ _ _ _ (same_type _) (same_sum _ _ _ _ (same_type _) (no_more (word ≡ shape))))
references-Holds (primitive_object name closure) word =
    same_sum _ _ _ _ (same_type _) (no_more (word ≡ closure))
references-Holds (continuation_object frames) word = In-whole frames word
references-Holds (generator_object function own caller) word = same_sum _ _ _ _ (same_type _) (
    both _ _ _ (In-append (stack_frames own) (stack_frames caller) word)
      (same_sum _ _ _ _ (In-stack_frames own word) (In-stack_frames caller word)))
references-Holds (list_object first rest) word =
    same_sum _ _ _ _ (same_type _) (no_more (word ≡ rest))
references-Holds (vector_object values count) word = In-Among count values word
references-Holds (hashed_object prototype used entries) word =
    same_sum _ _ _ _ (same_type _) (entries_iff used entries word)
references-Holds (shaped_object prototype shape count values) word =
    same_sum _ _ _ _ (same_type _) (same_sum _ _ _ _ (same_type _) (In-Among count values word))
references-Holds (shape_object keys count) word = In-Among count keys word
references-Holds bytes_object word = same_type ⊥

-- The marking of a heap value goes to the values that its words name.
pub Refers-Holds :
    (object : Object) (index : ℕ)
    → Refers (references object) index ↔ ((word : ℕ) × Holds object word × Names word index)
Refers-Holds object index =
    let r = Refers-In (references object) index in
    (
      (λ h. let p = r.0 h in (p.0, (references-Holds object p.0).0 p.1, p.2)),
      λ h. r.1 (h.0, (references-Holds object h.0).1 h.1, h.2),
    )

pub Refers-Framed :
    (stack : Stack) (index : ℕ)
    → Refers (stack_frames (some stack)) index
      ↔ ((word : ℕ) × Among stack.frames stack.top word × Names word index)
Refers-Framed stack index =
    let r = Refers-In (stack_frames (some stack)) index in
    (
      (λ h. let p = r.0 h in (p.0, (In-stack_frames (some stack) p.0).0 p.1, p.2)),
      λ h. r.1 (h.0, (In-stack_frames (some stack) h.0).1 h.1, h.2),
    )

pub Refers-Among :
    (words : List ℕ) (index : ℕ)
    → Refers words index ↔ ((word : ℕ) × Among words (length words) word × Names word index)
Refers-Among words index =
    let r = Refers-In words index in
    (
      (λ h. let p = r.0 h in (p.0, (In-whole words p.0).0 p.1, p.2)),
      λ h. r.1 (h.0, (In-whole words h.0).1 h.1, h.2),
    )
