-- ===== src/Hash/SipHash.antt =====
-- source/lone/hash/siphash.c: SipHash-2-4 with a 64-bit result, fed in pieces. Words are numbers
-- below 2 ^ 64, and their sums and shifts wrap.
pub mod Absorb
pub mod Stream
mod Tests
use lone.Prelude.{
  ℕ, zero, suc, ◌+◌, ◌-◌, ◌*◌, ◌/◌, ◌%◌, ◌^◌, Bool, true, false, List, [], ◌∷◌, bit_or, bit_xor,
  bit_and, ltb, leb, ◌==◌, if◌then◌else◌, length, get_or, set, take, drop, replicate,
}
use lone.Bytes.{u64le_read}

abbrev u64 : ℕ → ℕ
u64 n = n % 2 ^ 64

pub rotate_left : ℕ → ℕ → ℕ
rotate_left x b = bit_or (u64 (x * 2 ^ b)) (if b == 0 then 0 else x / 2 ^ (64 - b))

-- The four words of the state.
pub record Words : Type 0 where
  pub v0 : ℕ
  pub v1 : ℕ
  pub v2 : ℕ
  pub v3 : ℕ

-- SIPROUND, an assignment a line.
pub sip_round : Words → Words
sip_round w =
    let a0 = u64 (w.v0 + w.v1) in
    let a1 = rotate_left w.v1 13 in
    let b1 = bit_xor a1 a0 in
    let b0 = rotate_left a0 32 in
    let a2 = u64 (w.v2 + w.v3) in
    let a3 = rotate_left w.v3 16 in
    let b3 = bit_xor a3 a2 in
    let c0 = u64 (b0 + b3) in
    let c3 = rotate_left b3 21 in
    let d3 = bit_xor c3 c0 in
    let b2 = u64 (a2 + b1) in
    let c1 = rotate_left b1 17 in
    let d1 = bit_xor c1 b2 in
    let c2 = rotate_left b2 32 in record { v0 = c0; v1 = d1; v2 = c2; v3 = d3 }

-- The rounds for one word `m` of the message.
pub compress_words : Words → ℕ → Words
compress_words w m =
    let mixed = sip_round (sip_round (record w { v3 = bit_xor w.v3 m })) in
    record mixed { v0 = bit_xor mixed.v0 m }

-- `struct lone_hash_siphash_state`: `buffer` holds 8 bytes, of which the first `buffered` wait.
pub record State : Type 0 where
  pub words : Words
  pub buffer : List ℕ
  pub buffered : ℕ
  pub total : ℕ

pub compress : State → ℕ → State
compress s m = record s { words = compress_words s.words m }

-- The buffer is not set by the source; here it starts as zeros.
pub initialize : ℕ → ℕ → State
initialize k0 k1 = record {
  words = record {
    v0 = bit_xor k0 0x736f6d6570736575;
    v1 = bit_xor k1 0x646f72616e646f6d;
    v2 = bit_xor k0 0x6c7967656e657261;
    v3 = bit_xor k1 0x7465646279746573;
  };
  buffer = replicate 8 0;
  buffered = 0;
  total = 0;
}

-- `while (state->buffered < 8 && count > 0)`; the list is what `p` and `count` still show.
pub fill : State → List ℕ → State × List ℕ
fill s [] = (s, [])
fill s (b ∷ p) =
    let rest =
      fill (record s { buffer = set s.buffer s.buffered b; buffered = s.buffered + 1 }) p in
    if ltb s.buffered 8 then rest else (s, b ∷ p)

-- `while (count >= 8)`, with at most `rounds` rounds.
pub words_loop : ℕ → State → List ℕ → State × List ℕ
words_loop zero s p = (s, p)
words_loop (suc rounds) s p =
    let rest = words_loop rounds (compress s (u64le_read p)) (drop 8 p) in
    if leb 8 (length p) then rest else (s, p)

-- The `for` loop that keeps what is left, from index `i` on.
pub keep : List ℕ → ℕ → List ℕ → List ℕ
keep buffer i [] = buffer
keep buffer i (b ∷ p) = keep (set buffer i b) (i + 1) p

-- What follows the buffered bytes.
pub update_words : State → List ℕ → State
update_words s p =
    let (s', rest) = words_loop (length p) s p in
    record s' { buffer = keep s'.buffer 0 rest; buffered = length rest }

pub update : State → List ℕ → State
update s bytes =
    let counted = record s { total = u64 (s.total + length bytes) } in
    if ltb 0 s.buffered
    then (let (filled, p) = fill counted bytes in
        if ltb filled.buffered 8
        then filled
        else update_words (record (compress filled (u64le_read filled.buffer)) { buffered = 0 }) p)
    else update_words counted bytes

-- `for (i = 0; i < state->buffered; ++i)`, with `left` rounds to go.
pub join_buffer : List ℕ → ℕ → ℕ → ℕ → ℕ
join_buffer buffer i zero b = b
join_buffer buffer i (suc left) b =
    join_buffer buffer (i + 1) left (bit_or b (u64 (get_or buffer i 0 * 2 ^ (i * 8))))

pub finish : State → ℕ
finish s =
    let b = join_buffer s.buffer 0 s.buffered (u64 (bit_and s.total 0xff * 2 ^ 56)) in
    let last = compress_words s.words b in
    let w =
      sip_round (sip_round (sip_round (sip_round (record last { v2 = bit_xor last.v2 0xff })))) in
    bit_xor (bit_xor (bit_xor w.v0 w.v1) w.v2) w.v3

pub siphash : List ℕ → ℕ → ℕ → ℕ
siphash bytes k0 k1 = finish (update (initialize k0 k1) bytes)
