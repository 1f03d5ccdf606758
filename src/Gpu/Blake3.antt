-- ===== src/Gpu/Blake3.antt =====
-- common/src/cuda/blake3_node.cuh: keyed BLAKE3 of the three blocks of a node, on words. A label is loaded and
-- stored word by word, little-endian; an aligned pointer gives the same words in two loads.
pub mod Spec
pub mod Fields
pub mod Label
use po_se_memory_wiping.Prelude.{
  ℕ, zero, suc, ◌+◌, ◌-◌, ◌^◌, Option, none, some, List, [], ◌∷◌, ◌++◌, map, get_or, range', bit_or,
  bit_xor,
}
use po_se_memory_wiping.Prelude.Words.{u8, u32, ◌<<<◌, ◌>>>◌, zeros}
use po_se_memory_wiping.Label.{Bytes}

-- `kIV`
abbrev pub blake3_iv : List ℕ
blake3_iv =
    0x6a09e667 ∷ 0xbb67ae85 ∷ 0x3c6ef372 ∷ 0xa54ff53a ∷ 0x510e527f ∷ 0x9b05688c ∷ 0x1f83d9ab
    ∷ 0x5be0cd19 ∷ []

-- `kMsgPermutation`
abbrev pub msg_permutation : List ℕ
msg_permutation = 2 ∷ 6 ∷ 3 ∷ 10 ∷ 7 ∷ 0 ∷ 4 ∷ 13 ∷ 1 ∷ 11 ∷ 12 ∷ 5 ∷ 9 ∷ 14 ∷ 15 ∷ 8 ∷ []

-- `FLAG_CHUNK_START`, `FLAG_CHUNK_END`, `FLAG_ROOT` and `FLAG_KEYED_HASH`
abbrev pub flag_chunk_start : ℕ
flag_chunk_start = 1

abbrev pub flag_chunk_end : ℕ
flag_chunk_end = 2

abbrev pub flag_root : ℕ
flag_root = 8

abbrev pub flag_keyed_hash : ℕ
flag_keyed_hash = 16

-- `rotr32` of blake3_node.cuh
abbrev pub gpu_rotr32 : ℕ → ℕ → ℕ
gpu_rotr32 v s = bit_or (v >>> s) (u32 (v <<< (32 - s)))

-- `st[i]` and `st[i] = v`
abbrev pub word : List ℕ → ℕ → ℕ
word st i = get_or st i 0

abbrev pub set_word : List ℕ → ℕ → ℕ → List ℕ
set_word [] i v = []
set_word (x ∷ st) zero v = v ∷ st
set_word (x ∷ st) (suc i) v = x ∷ set_word st i v

unfoldable pub mix : List ℕ → ℕ → ℕ → ℕ → ℕ → ℕ → ℕ → List ℕ
mix st a b c d mx my =
    let s1 = set_word st a (u32 (word st a + word st b + mx)) in
    let s2 = set_word s1 d (gpu_rotr32 (bit_xor (word s1 d) (word s1 a)) 16) in
    let s3 = set_word s2 c (u32 (word s2 c + word s2 d)) in
    let s4 = set_word s3 b (gpu_rotr32 (bit_xor (word s3 b) (word s3 c)) 12) in
    let s5 = set_word s4 a (u32 (word s4 a + word s4 b + my)) in
    let s6 = set_word s5 d (gpu_rotr32 (bit_xor (word s5 d) (word s5 a)) 8) in
    let s7 = set_word s6 c (u32 (word s6 c + word s6 d)) in
    set_word s7 b (gpu_rotr32 (bit_xor (word s7 b) (word s7 c)) 7)

unfoldable pub round_fn : List ℕ → List ℕ → List ℕ
round_fn st m =
    let s1 = mix st 0 4 8 12 (word m 0) (word m 1) in
    let s2 = mix s1 1 5 9 13 (word m 2) (word m 3) in
    let s3 = mix s2 2 6 10 14 (word m 4) (word m 5) in
    let s4 = mix s3 3 7 11 15 (word m 6) (word m 7) in
    let s5 = mix s4 0 5 10 15 (word m 8) (word m 9) in
    let s6 = mix s5 1 6 11 12 (word m 10) (word m 11) in
    let s7 = mix s6 2 7 8 13 (word m 12) (word m 13) in mix s7 3 4 9 14 (word m 14) (word m 15)

abbrev pub permute : List ℕ → List ℕ
permute m = map (word m) msg_permutation

-- `n` times a round and a permutation, and a last round.
unfoldable pub rounds_from : ℕ → List ℕ → List ℕ → List ℕ
rounds_from zero st m = round_fn st m
rounds_from (suc n) st m = rounds_from n (round_fn st m) (permute m)

-- The state that `compress` starts with.
abbrev pub compress_state : List ℕ → ℕ → ℕ → List ℕ
compress_state cv block_len flags =
    map (word cv) (range' 0 8)
    ++ map (word blake3_iv) (range' 0 4)
    ++ 0 ∷ 0 ∷ block_len ∷ flags ∷ []

-- `compress` of blake3_node.cuh; the result is the new `cv`.
unfoldable pub gpu_compress : List ℕ → List ℕ → ℕ → ℕ → List ℕ
gpu_compress cv block block_len flags =
    let st = rounds_from 6 (compress_state cv block_len flags) (map (word block) (range' 0 16)) in
    map (λ i. bit_xor (word st i) (word st (i + 8))) (range' 0 8)

-- `load_le32(p + i)`
abbrev pub load_le32 : Bytes → ℕ → ℕ
load_le32 p i =
    bit_or (bit_or (bit_or (get_or p i 0) (get_or p (i + 1) 0 <<< 8)) (get_or p (i + 2) 0 <<< 16))
      (get_or p (i + 3) 0 <<< 24)

abbrev pub load_label_words : Bytes → List ℕ
load_label_words p =
    load_le32 p 0
    ∷ load_le32 p 4
    ∷ load_le32 p 8
    ∷ load_le32 p 12
    ∷ load_le32 p 16
    ∷ load_le32 p 20
    ∷ load_le32 p 24
    ∷ load_le32 p 28
    ∷ []

abbrev pub store_label_words : List ℕ → Bytes
store_label_words [] = []
store_label_words (w ∷ ws) =
    u8 w ∷ u8 (w >>> 8) ∷ u8 (w >>> 16) ∷ u8 (w >>> 24) ∷ store_label_words ws

-- `bswap32`: the bytes of a word in the opposite order.
abbrev pub bswap32 : ℕ → ℕ
bswap32 v = load_le32 (u8 (v >>> 24) ∷ u8 (v >>> 16) ∷ u8 (v >>> 8) ∷ u8 v ∷ []) 0

-- `if (pred) load_label_words(words, pred); else ... words[i] = 0;`
abbrev pub pred_words : Option Bytes → List ℕ
pred_words none = zeros 8
pred_words (some p) = load_label_words p

-- `label_node` of blake3_node.cuh
unfoldable pub gpu_label_node : List ℕ → ℕ → Option Bytes → Option Bytes → Bytes → Bytes → Bytes
gpu_label_node key node_index pred0 pred1 seed descriptor =
    let head = bswap32 (u32 (node_index >>> 32)) ∷ bswap32 (u32 node_index) ∷ zeros 14 in
    let cv1 =
      gpu_compress (map (word key) (range' 0 8)) head 64
        (bit_or flag_keyed_hash flag_chunk_start) in
    let cv2 = gpu_compress cv1 (pred_words pred0 ++ pred_words pred1) 64 flag_keyed_hash in
    store_label_words (
      gpu_compress cv2 (load_label_words seed ++ load_label_words descriptor) 64
        (bit_or (bit_or flag_keyed_hash flag_chunk_end) flag_root))
