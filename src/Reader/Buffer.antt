-- ===== src/Reader/Buffer.antt =====
-- The decoder of a literal writes within the buffer that is allocated for it.
use mathlib.Core.Path.{subst}
use lone.Prelude.{
  ℕ, zero, suc, ◌+◌, ◌≤◌, ◌≡◌, ◌≢◌, ◌⊎◌, refl, sym, ap, ◌∙◌, arith, true, false, List, [], ◌∷◌,
  ◌++◌, none, some, ◌==◌, ◌&&◌, not, if◌then◌else◌, length, length-append, Bool-cases, Option-cases,
  inl, inr,
}
use lone.Reader.{done, next_is}
use lone.Reader.Quoted.{
  Round, map_common_escape_sequence, measure_from, measure_quoted_content, unicode_escape,
  text_escape, text_round, byte_escape, bytes_escape, bytes_round, content_loop, consume_content,
  consume_text_content, consume_bytes_content,
}
use lone.Reader.Measure.{
  PassesTo, if-PassesTo, option-PassesTo, refused-PassesTo, written-PassesTo, later-PassesTo,
  unicode-PassesTo, byte-PassesTo, after_letter,
}

abbrev RoundPasses : (ℕ → List ℕ → Round) → Type 0
RoundPasses round =
    (c : ℕ) (input : List ℕ) → (c == b'"') ≡ false → PassesTo 0 (c ∷ input) (round c input)

-- An escape: of a letter with an escape of its own, or what follows another letter.
escape-PassesTo :
    (d letter : ℕ) (input : List ℕ) (more : Round)
    → PassesTo 2 input more
    → PassesTo 0 (b'\\' ∷ d ∷ input) (elim (map_common_escape_sequence d) [
      | some character ↦ (some (character ∷ []), input)
      | none ↦ if d == letter then more else (none, d ∷ input)
    ])
escape-PassesTo d letter input more h =
    option-PassesTo 0 (b'\\' ∷ d ∷ input) (map_common_escape_sequence d) _ _
      (if-PassesTo 0 (b'\\' ∷ d ∷ input) (d == letter) more (none, d ∷ input)
        (λ _. after_letter d input more h)
        (λ _. refused-PassesTo 0 (b'\\' ∷ d ∷ input) (d ∷ input)))
      (λ v _.
        after_letter d input (some (v ∷ []), input) (written-PassesTo 2 input _ (omega arith)))

behind_backslash :
    (escape : List ℕ → Round)
    → ((w : List ℕ) → (escape []).0 ≢ some w)
    → ((d : ℕ) (input : List ℕ) → PassesTo 0 (b'\\' ∷ d ∷ input) (escape (d ∷ input)))
    → (input : List ℕ) → PassesTo 0 (b'\\' ∷ input) (escape input)
behind_backslash escape stop go [] = λ w e. absurd (stop w e)
behind_backslash escape stop go (d ∷ input) = go d input

round-PassesTo :
    (escape : List ℕ → Round)
    → ((w : List ℕ) → (escape []).0 ≢ some w)
    → ((d : ℕ) (input : List ℕ) → PassesTo 0 (b'\\' ∷ d ∷ input) (escape (d ∷ input)))
    → (c : ℕ) (input : List ℕ) → (c == b'"') ≡ false
    → PassesTo 0 (c ∷ input) (if c == b'\\' then escape input else (some (c ∷ []), input))
round-PassesTo escape stop go c input q =
    if-PassesTo 0 (c ∷ input) (c == b'\\') (escape input) (some (c ∷ []), input)
      (λ t.
        let same : c ≡ b'\\' = ground (arith, t) in
        subst (λ (x : ℕ). PassesTo 0 (x ∷ input) (escape input)) (sym same)
          (behind_backslash escape stop go input))
      (λ p.
        later-PassesTo 0 c input (some (c ∷ []), input) q p
          (written-PassesTo 1 input (c ∷ []) (omega arith)))

text_round-Passes : RoundPasses text_round
unfolding text_round text_escape
text_round-Passes =
    round-PassesTo text_escape (λ w e. cc)
      (λ d input. escape-PassesTo d b'u' input (unicode_escape input) (unicode-PassesTo input))

bytes_round-Passes : RoundPasses bytes_round
unfolding bytes_round bytes_escape
bytes_round-Passes =
    round-PassesTo bytes_escape (λ w e. cc)
      (λ d input. escape-PassesTo d b'x' input (byte_escape input) (byte-PassesTo input))

-- What the loop has written when it stops: it stops behind the quote that the measure stops at.
Stops : ℕ → List ℕ → List ℕ → List ℕ → List ℕ → Type 0
Stops k input before output rest =
    (m : ℕ) × (measure_from k input ≡ k + m)
    × (length output ≤ length before + m)
    × (m + 1 + length rest ≡ length input)

quoted : (k c : ℕ) (input : List ℕ) → (c == b'"') ≡ true → measure_from k (c ∷ input) ≡ k
unfolding measure_from
quoted k c [] e = rw (measure_from, e) refl
quoted k c (d ∷ input) e = rw (measure_from, e) refl

content_loop-Stops :
    (round : ℕ → List ℕ → Round)
    → RoundPasses round
    → (f : ℕ) (before input output rest : List ℕ) (k : ℕ)
    → content_loop round f before input ≡ done (some output, rest)
    → (measure_from k input ≡ 0) ⊎ Stops k input before output rest
unfolding content_loop measure_from Stops
content_loop-Stops round passes f before [] output rest k h = inl refl
content_loop-Stops round passes zero before (c ∷ input) output rest k h = cc
content_loop-Stops round passes (suc f) before (c ∷ input) output rest k h =
    elim (Bool-cases (c == b'"')) [
      | inl e ↦
          let g = rw (content_loop, e) at h in
          let same : before ≡ output = cc in
          let left : input ≡ rest = cc in
          inr (
            0,
            quoted k c input e ∙ omega arith,
            omega (arith, ap (λ (x : List ℕ). length x) same),
            omega (arith, ap (λ (x : List ℕ). length x) left),
          )
      | inr e ↦ elim (Option-cases (round c input).0) [
        | inl w ↦ absurd (let g = rw (content_loop, e, w) at h in cc)
        | inr w ↦
            let p = passes c input e w.0 w.1 in
            let g = rw (content_loop, e, w.1) at h in
            let ih =
              content_loop-Stops round passes f (before ++ w.0) (round c input).1 output rest
                (k + p.used) g in
            elim ih [
              | inl z ↦ inl (p.measured k ∙ z)
              | inr t ↦ inr (
                p.used + t.0,
                p.measured k ∙ t.1 ∙ omega arith,
                omega (arith, t.2, p.fits, length-append before w.0),
                omega (arith, t.3, p.counted),
              )
            ]
      ]
    ]

-- Nothing but the quote.
at_quote :
    (round : ℕ → List ℕ → Round) (input output rest : List ℕ)
    → next_is (λ c. c == b'"') input ≡ true
    → content_loop round (length input) [] input ≡ done (some output, rest)
    → (length output ≡ 0) × (1 + length rest ≡ length input)
unfolding content_loop
at_quote round [] output rest q h = cc
at_quote round (c ∷ input) output rest q h =
    let g = rw (content_loop, q) at h in
    let same : [] ≡ output = cc in
    let left : input ≡ rest = cc in
    (
      omega (arith, ap (λ (x : List ℕ). length x) same),
      omega (arith, ap (λ (x : List ℕ). length x) left),
    )

fits_measure :
    (round : ℕ → List ℕ → Round)
    → RoundPasses round
    → (input output rest : List ℕ) → consume_content round input ≡ done (some output, rest)
    → (length output ≤ measure_quoted_content input)
      × (measure_quoted_content input + 1 + length rest ≡ length input)
unfolding consume_content measure_quoted_content Stops
fits_measure round passes input output rest h =
    elim (Bool-cases (measure_from 0 input == 0 && not (next_is (λ c. c == b'"') input))) [
      | inl e ↦ absurd (let g = rw (consume_content, e) at h in cc)
      | inr e ↦
          let g = rw (consume_content, e) at h in
          elim (content_loop-Stops round passes (length input) [] input output rest 0 g) [
            | inl z ↦ elim (Bool-cases (next_is (λ c. c == b'"') input)) [
              | inl q ↦
                  let o = at_quote round input output rest q g in
                  (omega (arith, o.0), omega (arith, z, o.1))
              | inr q ↦ absurd (let k = rw (z, q) at e in cc)
            ]
            | inr t ↦ (omega (arith, t.1, t.2), omega (arith, t.1, t.3))
          ]
    ]

-- The content of a text or byte literal that is decoded is no longer than the content that was
-- measured, for which the buffer is allocated with a byte to spare, and the decoder stops right
-- behind the quote at which the measure stopped.
pub consume_content-fits :
    (input output rest : List ℕ)
    → (consume_text_content input ≡ done (some output, rest))
      ⊎ (consume_bytes_content input ≡ done (some output, rest))
    → (length output ≤ measure_quoted_content input)
      × (measure_quoted_content input + 1 + length rest ≡ length input)
unfolding consume_text_content consume_bytes_content
consume_content-fits input output rest (inl h) =
    fits_measure text_round text_round-Passes input output rest h
consume_content-fits input output rest (inr h) =
    fits_measure bytes_round bytes_round-Passes input output rest h
