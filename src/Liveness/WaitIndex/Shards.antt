-- ===== src/Liveness/WaitIndex/Shards.antt =====
-- src/liveness/wait_index.ts, `fnv1a32` and `waitIndexShard`: the hash that picks a session's shard.
-- `Buffer.from(text, 'utf-8')` is written out; a lone surrogate is encoded as U+FFFD.
use Prim.Native.Nat.{bit_xor}
use by_framework_ts.Common.{
  ℕ, ◌+◌, ◌*◌, ◌/◌, ◌%◌, ◌^◌, ◌<◌, Text, ◌≡◌, refl, List, [], ◌∷◌, ◌++◌, arith, ltb, leb, ◌&&◌,
  if◌then◌else◌, codes,
}

unfoldable pub utf8_of : ℕ → List ℕ
utf8_of c =
    if ltb c 0x80
    then c ∷ []
    else if ltb c 0x800
    then (0xc0 + c / 64) ∷ (0x80 + c % 64) ∷ []
    else if leb 0xd800 c && leb c 0xdfff
    then 0xef ∷ 0xbf ∷ 0xbd ∷ []
    else if ltb c 0x10000
    then (0xe0 + c / 4096) ∷ (0x80 + c / 64 % 64) ∷ (0x80 + c % 64) ∷ []
    else (0xf0 + c / 262144) ∷ (0x80 + c / 4096 % 64) ∷ (0x80 + c / 64 % 64) ∷ (0x80 + c % 64) ∷ []

unfoldable pub utf8 : Text → List ℕ
utf8 [] = []
utf8 (c ∷ s) = utf8_of c ++ utf8 s

abbrev fnv_offset : ℕ
fnv_offset = 0x811c9dc5

abbrev fnv_prime : ℕ
fnv_prime = 0x01000193

-- `Math.imul(digest ^ byte, 0x01000193) >>> 0`
unfoldable pub fnv_round : ℕ → ℕ → ℕ
fnv_round digest byte = bit_xor digest byte * fnv_prime % 2 ^ 32

unfoldable pub fnv_loop : ℕ → List ℕ → ℕ
fnv_loop digest [] = digest
fnv_loop digest (b ∷ bs) = fnv_loop (fnv_round digest b) bs

unfoldable pub fnv1a32 : Text → ℕ
unfolding fnv_loop fnv_round utf8 utf8_of
fnv1a32 s = fnv_loop fnv_offset (utf8 s)

abbrev pub wait_index_shards : ℕ
wait_index_shards = 16

unfoldable pub wait_index_shard : Text → ℕ
wait_index_shard session_id = fnv1a32 session_id % wait_index_shards

fnv_loop-lt : (digest : ℕ) (bs : List ℕ) → digest < 2 ^ 32 → fnv_loop digest bs < 2 ^ 32
unfolding fnv_loop fnv_round
fnv_loop-lt digest [] h = h
fnv_loop-lt digest (b ∷ bs) h = fnv_loop-lt (fnv_round digest b) bs (omega arith)

-- The hash is an unsigned 32-bit integer for every text.
pub fnv1a32-lt : (s : Text) → fnv1a32 s < 2 ^ 32
unfolding fnv1a32
fnv1a32-lt s = fnv_loop-lt fnv_offset (utf8 s) (omega arith)

pub wait_index_shard-lt : (s : Text) → wait_index_shard s < wait_index_shards
unfolding wait_index_shard
wait_index_shard-lt s = omega arith

-- The published test vectors of FNV-1a.
fnv1a32_foobar : fnv1a32 (codes "foobar") ≡ 0xbf9cf968
unfolding fnv1a32
fnv1a32_foobar = refl
