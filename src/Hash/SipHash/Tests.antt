-- ===== src/Hash/SipHash/Tests.antt =====
-- Tests and applications of the SipHash theorems, with reference vectors of SipHash-2-4.
use lone.Prelude.{ℕ, ◌≡◌, refl, arith, List, [], ◌∷◌}
use lone.Bytes.{u64le_read}
use lone.Hash.SipHash.{
  rotate_left, sip_round, compress_words, compress, initialize, fill, words_loop, keep,
  update_words, update, join_buffer, finish, siphash, State,
}
use lone.Hash.SipHash.Stream.{IsValid, view, update-update, concat, update_all, finish-update_all}

abbrev key : List ℕ
key = 0 ∷ 1 ∷ 2 ∷ 3 ∷ 4 ∷ 5 ∷ 6 ∷ 7 ∷ 8 ∷ 9 ∷ 10 ∷ 11 ∷ 12 ∷ 13 ∷ 14 ∷ []

abbrev k0 : ℕ
k0 = 0x0706050403020100

abbrev k1 : ℕ
k1 = 0x0f0e0d0c0b0a0908

siphash_vectors : (siphash [] k0 k1 ≡ 0x726fdb47dd0e0e31) × (siphash key k0 k1 ≡ 0xa129ca6149be45e5)
unfolding siphash rotate_left sip_round compress_words compress initialize fill words_loop keep
    update_words update join_buffer finish u64le_read
siphash_vectors = (refl, refl)

-- Seven bytes wait, and four more come.
abbrev waiting : State
waiting = record {
  words = record { v0 = 1; v1 = 2; v2 = 3; v3 = 4 };
  buffer = 9 ∷ 9 ∷ 9 ∷ 9 ∷ 9 ∷ 9 ∷ 9 ∷ 0 ∷ [];
  buffered = 7;
  total = 7;
}

waiting-IsValid : IsValid waiting
waiting-IsValid = omega arith

update-update_example :
    (view (update (update waiting (5 ∷ 6 ∷ [])) (7 ∷ 8 ∷ []))
      ≡ view (update waiting (5 ∷ 6 ∷ 7 ∷ 8 ∷ [])))
    × IsValid (update (update waiting (5 ∷ 6 ∷ [])) (7 ∷ 8 ∷ []))
update-update_example = update-update waiting (5 ∷ 6 ∷ []) (7 ∷ 8 ∷ []) waiting-IsValid

finish-update_all_example :
    finish (update_all (initialize k0 k1) ((1 ∷ 2 ∷ 3 ∷ []) ∷ [] ∷ key ∷ []))
    ≡ siphash (concat ((1 ∷ 2 ∷ 3 ∷ []) ∷ [] ∷ key ∷ [])) k0 k1
finish-update_all_example = finish-update_all ((1 ∷ 2 ∷ 3 ∷ []) ∷ [] ∷ key ∷ []) k0 k1
