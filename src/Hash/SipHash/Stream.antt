-- ===== src/Hash/SipHash/Stream.antt =====
-- Feeding the hash in pieces is feeding it the whole message.
use lone.Prelude.{
  ℕ, zero, suc, ◌+◌, ◌-◌, ◌%◌, ◌^◌, ◌≤◌, ◌<◌, ◌≡◌, refl, ap, ◌∙◌, sym, arith, List, [], ◌∷◌, ◌++◌,
  length, length-append, append_assoc, ltb, take, set, length-set, length-take, take-set,
  take-length, append-nil, get_or-take, min, Bool-cases, ltb→lt, inl, inr, if◌then◌else◌,
}
use lone.Bytes.{u64le_read}
use lone.Hash.SipHash.{
  Words, State, compress, initialize, fill, keep, update_words, update, join_buffer, finish,
  siphash,
}
use lone.Hash.SipHash.Absorb.{
  blocks, blocks-append, blocks_rest, blocks_one, blocks_short, words_loop-blocks,
}

-- What the state means.
pub record View : Type 0 where
  pub words : Words
  pub pending : List ℕ
  pub total : ℕ

abbrev pub view : State → View
view s = record { words = s.words; pending = take s.buffered s.buffer; total = s.total }

pub feed : View → List ℕ → View
feed v bytes =
    let (w, rest) = blocks v.words (v.pending ++ bytes) in
    record { words = w; pending = rest; total = (v.total + length bytes) % 2 ^ 64 }

-- The buffer has room for a word, and less than a word waits in it.
pub record IsValid (s : State) : Type 0 where
  pub room : length s.buffer ≡ 8
  pub waits : s.buffered < 8

-- A byte set behind the first `n` extends them.
take-set_next :
    (buffer : List ℕ) (n b : ℕ) (p : List ℕ)
    → n < length buffer
    → take (n + 1) (set buffer n b) ++ p ≡ take n buffer ++ (b ∷ p)
take-set_next buffer n b p h =
    ap (λ (k : ℕ). take k (set buffer n b) ++ p) (let e : n + 1 ≡ suc n = omega arith in e)
    ∙ ap (λ (l : List ℕ). l ++ p) (take-set n buffer b h)
    ∙ append_assoc (take n buffer) (b ∷ []) p

-- The loop that fills the buffer moves bytes of `p` into it, as many as fit.
record Filled (s : State) (p : List ℕ) (r : State × List ℕ) : Type 0 where
  same : (r.0.words ≡ s.words) × (r.0.total ≡ s.total) × (length r.0.buffer ≡ 8)
  count : r.0.buffered ≡ min 8 (s.buffered + length p)
  left : length r.1 ≡ s.buffered + length p - r.0.buffered
  bytes : take r.0.buffered r.0.buffer ++ r.1 ≡ take s.buffered s.buffer ++ p

Filled-next :
    (s : State) (b : ℕ) (p : List ℕ) {r : State × List ℕ}
    → length s.buffer ≡ 8
    → Filled (record s { buffer = set s.buffer s.buffered b; buffered = s.buffered + 1 }) p r
    → s.buffered < 8
    → Filled s (b ∷ p) r
Filled-next s b p room f h = record {
  same = f.same;
  count = omega (arith, f.count);
  left = omega (arith, f.left);
  bytes = f.bytes ∙ take-set_next s.buffer s.buffered b p (omega arith);
}

fill-Filled :
    (s : State) (p : List ℕ) → length s.buffer ≡ 8 → s.buffered ≤ 8 → Filled s p (fill s p)
unfolding fill
fill-Filled s [] room waits = record {
  same = (refl, refl, room);
  count = omega arith;
  left = omega arith;
  bytes = refl;
}
fill-Filled s (b ∷ p) room waits = elim (Bool-cases (ltb s.buffered 8)) [
  | inl more ↦ rw more (
      Filled-next s b p room
        (fill-Filled (record s { buffer = set s.buffer s.buffered b; buffered = s.buffered + 1 }) p
          (length-set s.buffer s.buffered b ∙ room) (ground arith))
        (ltb→lt s.buffered 8 more))
  | inr full ↦ rw full (record {
    same = (refl, refl, room);
    count = ground arith;
    left = ground arith;
    bytes = refl;
  })
]

keep_lem :
    (rest buffer : List ℕ) (i : ℕ)
    → i + length rest ≤ length buffer
    → (length (keep buffer i rest) ≡ length buffer)
      × (take (i + length rest) (keep buffer i rest) ≡ take i buffer ++ rest)
unfolding keep
keep_lem [] buffer i h = (
  refl,
  ap (λ (k : ℕ). take k buffer) (let e : i + 0 ≡ i = omega arith in e)
      ∙ sym (append-nil (take i buffer)),
)
keep_lem (b ∷ rest) buffer i h =
    let (len, bytes) =
      keep_lem rest (set buffer i b) (i + 1) (omega (arith, length-set buffer i b)) in
    (
      len ∙ length-set buffer i b,
      ap (λ (k : ℕ). take k (keep (set buffer i b) (i + 1) rest))
            (let e : i + suc (length rest) ≡ i + 1 + length rest = omega arith in e)
          ∙ bytes
          ∙ take-set_next buffer i b rest (omega arith),
    )

-- A state that means what `v` says.
pub record Means (s : State) (v : View) : Type 0 where
  pub valid : IsValid s
  pub same : view s ≡ v

update_words-Means :
    (s : State) (p : List ℕ)
    → length s.buffer ≡ 8
    → Means
        (update_words s p)
        (record { words = (blocks s.words p).0; pending = (blocks s.words p).1; total = s.total })
unfolding update_words
update_words-Means s p room =
    let rest = (blocks s.words p).1 in
    let (len, bytes) = keep_lem rest s.buffer 0 (omega (arith, blocks_rest s.words p)) in
    rw (words_loop-blocks (length p) s p (omega arith)) (record {
      valid = record { room = len ∙ room; waits = blocks_rest s.words p };
      same =
          ap (λ (l : List ℕ). record { words = (blocks s.words p).0; pending = l; total = s.total })
            (ap (λ (k : ℕ). take k (keep s.buffer 0 rest))
                (let e : length rest ≡ 0 + length rest = omega arith in e)
              ∙ bytes);
    })

-- The result of feeding, from the blocks of what waited and what came.
abbrev fed : Words → List ℕ → ℕ → View
fed w message total = record {
  words = (blocks w message).0;
  pending = (blocks w message).1;
  total = total;
}

nil_of_length : (p : List ℕ) → length p ≡ 0 → p ≡ []
nil_of_length [] h = refl
nil_of_length (b ∷ p) h = absurd (omega arith)

-- A call that leaves the buffer short of a word.
still_waits :
    (s : State) (bytes : List ℕ) (r : State × List ℕ)
    → Filled s bytes r
    → r.0.buffered < 8
    → Means r.0 (fed s.words (take s.buffered s.buffer ++ bytes) s.total)
still_waits s bytes r f h =
    let none_left : r.1 ≡ [] = nil_of_length r.1 (omega (arith, f.left, f.count)) in
    let all : take r.0.buffered r.0.buffer ≡ take s.buffered s.buffer ++ bytes =
      sym (append-nil (take r.0.buffered r.0.buffer))
      ∙ ap (λ (l : List ℕ). take r.0.buffered r.0.buffer ++ l) (sym none_left)
      ∙ f.bytes in
    let short : length (take s.buffered s.buffer ++ bytes) < 8 =
      omega (arith, ap length all, length-take r.0.buffered r.0.buffer) in
    rw (blocks_short s.words (take s.buffered s.buffer ++ bytes) short) (record {
      valid = record { room = f.same.2; waits = h };
      same = λ i. record { words = f.same.0 i; pending = all i; total = f.same.1 i };
    })

-- A call that completes the word in the buffer.
completes :
    (s : State) (bytes : List ℕ) (r : State × List ℕ)
    → Filled s bytes r
    → 8 ≤ r.0.buffered
    → Means
        (update_words (record (compress r.0 (u64le_read r.0.buffer)) { buffered = 0 }) r.1)
        (fed s.words (take s.buffered s.buffer ++ bytes) s.total)
unfolding compress
completes s bytes r f h =
    let whole : take r.0.buffered r.0.buffer ≡ r.0.buffer =
      take-length r.0.buffered r.0.buffer (omega (arith, f.same.2)) in
    let message : take s.buffered s.buffer ++ bytes ≡ r.0.buffer ++ r.1 =
      sym f.bytes ∙ ap (λ (l : List ℕ). l ++ r.1) whole in
    let state = record (compress r.0 (u64le_read r.0.buffer)) { buffered = 0 } in
    rw (message, blocks_one s.words r.0.buffer r.1 f.same.2, ← f.same.0, ← f.same.1)
      (update_words-Means state r.1 f.same.2)

-- The `if` behind the loop that fills the buffer.
Filled-Means :
    (s : State) (bytes : List ℕ) (r : State × List ℕ)
    → Filled s bytes r
    → Means
        (if ltb r.0.buffered 8
          then r.0
          else update_words (record (compress r.0 (u64le_read r.0.buffer)) { buffered = 0 }) r.1)
        (fed s.words (take s.buffered s.buffer ++ bytes) s.total)
Filled-Means s bytes r f = elim (Bool-cases (ltb r.0.buffered 8)) [
  | inl short ↦ rw short (still_waits s bytes r f (ltb→lt r.0.buffered 8 short))
  | inr full ↦ rw full (completes s bytes r f (ground arith))
]

pub update-Means :
    {s : State} (bytes : List ℕ) → IsValid s → Means (update s bytes) (feed (view s) bytes)
unfolding update feed
update-Means {s} bytes v =
    let counted = record s { total = (s.total + length bytes) % 2 ^ 64 } in
    elim (Bool-cases (ltb 0 s.buffered)) [
      | inl waiting ↦ rw waiting (
          Filled-Means counted bytes (fill counted bytes)
            (fill-Filled counted bytes v.room (omega arith)))
      | inr nothing ↦
          let none_buffered : s.buffered ≡ 0 = ground arith in
          let empty : take s.buffered s.buffer ≡ [] =
            ap (λ (k : ℕ). take k s.buffer) none_buffered in
          rw (nothing, empty) (update_words-Means counted bytes v.room)
    ]

initialize-IsValid : (k0 k1 : ℕ) → IsValid (initialize k0 k1)
unfolding initialize
initialize-IsValid k0 k1 = omega arith

feed-feed : (v : View) (xs ys : List ℕ) → feed (feed v xs) ys ≡ feed v (xs ++ ys)
unfolding feed
feed-feed v xs ys =
    let whole : blocks v.words (v.pending ++ (xs ++ ys))
        ≡ blocks (blocks v.words (v.pending ++ xs)).0 ((blocks v.words (v.pending ++ xs)).1 ++ ys) =
      ap (λ (l : List ℕ). blocks v.words l) (sym (append_assoc v.pending xs ys))
      ∙ blocks-append v.words (v.pending ++ xs) ys in
    let total : ((v.total + length xs) % 2 ^ 64 + length ys) % 2 ^ 64
        ≡ (v.total + length (xs ++ ys)) % 2 ^ 64 =
      omega (arith, length-append xs ys) in
    λ i. record { words = (sym whole i).0; pending = (sym whole i).1; total = total i }

-- Feeding a valid state in two calls or in one leads to the same words, the same waiting bytes and
-- the same total, and keeps the buffer within its bounds.
pub update-update :
    (s : State) (xs ys : List ℕ)
    → IsValid s
    → (view (update (update s xs) ys) ≡ view (update s (xs ++ ys)))
      × IsValid (update (update s xs) ys)
update-update s xs ys v =
    let one = update-Means xs v in
    let two = update-Means ys one.valid in
    (
      two.same
          ∙ ap (λ w. feed w ys) one.same
          ∙ feed-feed (view s) xs ys
          ∙ sym (update-Means (xs ++ ys) v).same,
      two.valid,
    )

-- The last word is made of the bytes that wait, and of no other byte of the buffer.
join_buffer-take :
    (buffer : List ℕ) (k i left b : ℕ)
    → i + left ≤ k
    → join_buffer (take k buffer) i left b ≡ join_buffer buffer i left b
unfolding join_buffer
join_buffer-take buffer k i zero b h = refl
join_buffer-take buffer k i (suc left) b h =
    rw (get_or-take k buffer i 0 (omega arith))
      (join_buffer-take buffer k (i + 1) left _ (omega arith))

-- The digest of what a state means.
abbrev digest : View → ℕ
digest v =
    finish
      (record { words = v.words; buffer = v.pending; buffered = length v.pending; total = v.total })

finish-view : (s : State) → IsValid s → finish s ≡ digest (view s)
unfolding finish
finish-view s v =
    let waiting : length (take s.buffered s.buffer) ≡ s.buffered =
      omega (arith, length-take s.buffered s.buffer) in
    rw (waiting, join_buffer-take s.buffer s.buffered 0 s.buffered _ (omega arith))

unfoldable pub update_all : State → List (List ℕ) → State
update_all s [] = s
update_all s (x ∷ xs) = update_all (update s x) xs

unfoldable pub concat : List (List ℕ) → List ℕ
concat [] = []
concat (x ∷ xs) = x ++ concat xs

update_all-view :
    (pieces : List (List ℕ)) (s : State) (x : List ℕ)
    → IsValid s
    → (view (update_all (update s x) pieces) ≡ view (update s (x ++ concat pieces)))
      × IsValid (update_all (update s x) pieces)
unfolding update_all concat
update_all-view [] s x v =
    (ap (λ (l : List ℕ). view (update s l)) (sym (append-nil x)), (update-Means x v).valid)
update_all-view (y ∷ ys) s x v =
    let rest = update_all-view ys (update s x) y (update-Means x v).valid in
    (rest.0 ∙ (update-update s x (y ++ concat ys) v).0, rest.1)

digest-eq : (s t : State) → IsValid s → IsValid t → view s ≡ view t → finish s ≡ finish t
digest-eq s t vs vt e = finish-view s vs ∙ ap digest e ∙ sym (finish-view t vt)

-- Whatever the pieces in which a message is fed, empty ones included, the digest is that of the
-- whole message in one call.
pub finish-update_all :
    (pieces : List (List ℕ)) (k0 k1 : ℕ)
    → finish (update_all (initialize k0 k1) pieces) ≡ siphash (concat pieces) k0 k1
unfolding siphash update_all concat
finish-update_all [] k0 k1 =
    let v = initialize-IsValid k0 k1 in
    let m = update-Means [] v in
    digest-eq (initialize k0 k1) (update (initialize k0 k1) []) v m.valid
      (sym (m.same ∙ unfold feed blocks initialize in refl))
finish-update_all (x ∷ xs) k0 k1 =
    let v = initialize-IsValid k0 k1 in
    let rest = update_all-view xs (initialize k0 k1) x v in
    digest-eq (update_all (update (initialize k0 k1) x) xs)
      (update (initialize k0 k1) (x ++ concat xs)) rest.1 (update-Means (x ++ concat xs) v).valid
      rest.0
