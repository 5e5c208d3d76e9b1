-- ===== src/Bits/Tests.antt =====
-- Tests and applications of the bitmap theorems.
use lone.Prelude.{
  IsByte, ℕ, ◌≡◌, refl, arith, true, false, List, ◌∷◌, ◌++◌, some, none, replicate, All,
}
use lone.Bytes.{u64le_read}
use lone.Bits.{
  clz, bswap64, load_word_msb_first, find_first_one_in_byte, count_leading_unaligned_bytes,
  scan_bytes, scan_words, scan,
}
use lone.Bits.Scan.{IsFirst, scan-IsFirst}

-- Twenty bytes of ones and one zero bit, in a word that is scanned whole.
abbrev bitmap : List ℕ
bitmap = replicate 12 255 ++ (0xEF ∷ replicate 7 255)

finds :
    (scan 3 bitmap false ≡ some 99)
    × (scan 0 bitmap true ≡ some 0)
    × (scan 5 (replicate 20 0) true ≡ none)
unfolding scan scan_bytes scan_words count_leading_unaligned_bytes load_word_msb_first bswap64
    u64le_read find_first_one_in_byte clz
finds = (refl, refl, refl)

bitmap-IsByte : All IsByte bitmap
bitmap-IsByte = omega arith

scan-IsFirst_example : IsFirst bitmap false (scan 3 bitmap false)
scan-IsFirst_example = scan-IsFirst 3 bitmap false bitmap-IsByte
