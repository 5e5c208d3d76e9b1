-- ===== src/Hash/Tests.antt =====
-- Tests and applications of the FNV-1a theorems.
use lone.Prelude.{◌≡◌, refl, [], ◌∷◌}
use lone.Hash.Fnv1a.{fnv_offset_basis, fnv_1a}

fnv_1a_vector : fnv_1a (0x61 ∷ []) fnv_offset_basis ≡ 0xaf63dc4c8601ec8c
unfolding fnv_1a
fnv_1a_vector = refl
