-- ===== src/Aes.antt =====
-- common/src/aes_prf.c: the message, the key schedule, the round-key cache, the CBC-MAC chains of the
-- two backends and `pose_aes_prf_many`.
--
-- A vector register is the list of its 16 bytes. The AES instructions of the processor are
-- parameters, with what the two instruction sets document of them; exclusive or is bitwise.
pub mod Backends
pub mod Buffers
pub mod Cache
pub mod Many
use po_se_memory_wiping.Prelude.{
  ℕ, zero, suc, ◌+◌, ◌-◌, ◌*◌, ◌/◌, ◌%◌, ◌≡◌, Bool, true, false, ◌||◌, ◌==◌, if◌then◌else◌, Option,
  none, some, List, [], ◌∷◌, ◌++◌, map, length, get_or, take, drop, range', bit_xor,
}
use po_se_memory_wiping.Prelude.Words.{Buffer, u64_be, zeros, same_bytes, write, xor_bytes}
use po_se_memory_wiping.Label.{Bytes, PredArray, head_pred, tail_preds}

-- `AES_BLOCKS` and `AES_MSG_BYTES`
abbrev pub aes_blocks : ℕ
aes_blocks = 7

abbrev pub aes_msg_bytes : ℕ
aes_msg_bytes = 112

-- The 32 bytes at a pointer. What is beyond the contents of its array reads as 0.
abbrev pub load32 : Bytes → Bytes
load32 p = take 32 (p ++ zeros 32)

-- A field of a message: the 32 bytes at the pointer, or zeros if it is NULL.
abbrev pub field_or_zeros : Option Bytes → Bytes
field_or_zeros none = zeros 32
field_or_zeros (some p) = load32 p

-- `build_aes_msg`, into a buffer that holds `stack`.
unfoldable pub build_aes_msg : Bytes → ℕ → Option Bytes → Option Bytes → Bytes → Bytes
build_aes_msg stack node_index pred0 pred1 descriptor =
    let indexed = write (write stack 0 (u64_be node_index)) 8 (zeros 8) in
    let with0 = write indexed 16 (field_or_zeros pred0) in
    let with1 = write with0 48 (field_or_zeros pred1) in write with1 80 (load32 descriptor)

-- `s_sbox`
abbrev pub s_sbox : List ℕ
s_sbox =
    0x63 ∷ 0x7c ∷ 0x77 ∷ 0x7b ∷ 0xf2 ∷ 0x6b ∷ 0x6f ∷ 0xc5 ∷ 0x30 ∷ 0x01 ∷ 0x67 ∷ 0x2b ∷ 0xfe ∷ 0xd7
    ∷ 0xab ∷ 0x76 ∷ 0xca ∷ 0x82 ∷ 0xc9 ∷ 0x7d ∷ 0xfa ∷ 0x59 ∷ 0x47 ∷ 0xf0 ∷ 0xad ∷ 0xd4 ∷ 0xa2
    ∷ 0xaf ∷ 0x9c ∷ 0xa4 ∷ 0x72 ∷ 0xc0 ∷ 0xb7 ∷ 0xfd ∷ 0x93 ∷ 0x26 ∷ 0x36 ∷ 0x3f ∷ 0xf7 ∷ 0xcc
    ∷ 0x34 ∷ 0xa5 ∷ 0xe5 ∷ 0xf1 ∷ 0x71 ∷ 0xd8 ∷ 0x31 ∷ 0x15 ∷ 0x04 ∷ 0xc7 ∷ 0x23 ∷ 0xc3 ∷ 0x18
    ∷ 0x96 ∷ 0x05 ∷ 0x9a ∷ 0x07 ∷ 0x12 ∷ 0x80 ∷ 0xe2 ∷ 0xeb ∷ 0x27 ∷ 0xb2 ∷ 0x75 ∷ 0x09 ∷ 0x83
    ∷ 0x2c ∷ 0x1a ∷ 0x1b ∷ 0x6e ∷ 0x5a ∷ 0xa0 ∷ 0x52 ∷ 0x3b ∷ 0xd6 ∷ 0xb3 ∷ 0x29 ∷ 0xe3 ∷ 0x2f
    ∷ 0x84 ∷ 0x53 ∷ 0xd1 ∷ 0x00 ∷ 0xed ∷ 0x20 ∷ 0xfc ∷ 0xb1 ∷ 0x5b ∷ 0x6a ∷ 0xcb ∷ 0xbe ∷ 0x39
    ∷ 0x4a ∷ 0x4c ∷ 0x58 ∷ 0xcf ∷ 0xd0 ∷ 0xef ∷ 0xaa ∷ 0xfb ∷ 0x43 ∷ 0x4d ∷ 0x33 ∷ 0x85 ∷ 0x45
    ∷ 0xf9 ∷ 0x02 ∷ 0x7f ∷ 0x50 ∷ 0x3c ∷ 0x9f ∷ 0xa8 ∷ 0x51 ∷ 0xa3 ∷ 0x40 ∷ 0x8f ∷ 0x92 ∷ 0x9d
    ∷ 0x38 ∷ 0xf5 ∷ 0xbc ∷ 0xb6 ∷ 0xda ∷ 0x21 ∷ 0x10 ∷ 0xff ∷ 0xf3 ∷ 0xd2 ∷ 0xcd ∷ 0x0c ∷ 0x13
    ∷ 0xec ∷ 0x5f ∷ 0x97 ∷ 0x44 ∷ 0x17 ∷ 0xc4 ∷ 0xa7 ∷ 0x7e ∷ 0x3d ∷ 0x64 ∷ 0x5d ∷ 0x19 ∷ 0x73
    ∷ 0x60 ∷ 0x81 ∷ 0x4f ∷ 0xdc ∷ 0x22 ∷ 0x2a ∷ 0x90 ∷ 0x88 ∷ 0x46 ∷ 0xee ∷ 0xb8 ∷ 0x14 ∷ 0xde
    ∷ 0x5e ∷ 0x0b ∷ 0xdb ∷ 0xe0 ∷ 0x32 ∷ 0x3a ∷ 0x0a ∷ 0x49 ∷ 0x06 ∷ 0x24 ∷ 0x5c ∷ 0xc2 ∷ 0xd3
    ∷ 0xac ∷ 0x62 ∷ 0x91 ∷ 0x95 ∷ 0xe4 ∷ 0x79 ∷ 0xe7 ∷ 0xc8 ∷ 0x37 ∷ 0x6d ∷ 0x8d ∷ 0xd5 ∷ 0x4e
    ∷ 0xa9 ∷ 0x6c ∷ 0x56 ∷ 0xf4 ∷ 0xea ∷ 0x65 ∷ 0x7a ∷ 0xae ∷ 0x08 ∷ 0xba ∷ 0x78 ∷ 0x25 ∷ 0x2e
    ∷ 0x1c ∷ 0xa6 ∷ 0xb4 ∷ 0xc6 ∷ 0xe8 ∷ 0xdd ∷ 0x74 ∷ 0x1f ∷ 0x4b ∷ 0xbd ∷ 0x8b ∷ 0x8a ∷ 0x70
    ∷ 0x3e ∷ 0xb5 ∷ 0x66 ∷ 0x48 ∷ 0x03 ∷ 0xf6 ∷ 0x0e ∷ 0x61 ∷ 0x35 ∷ 0x57 ∷ 0xb9 ∷ 0x86 ∷ 0xc1
    ∷ 0x1d ∷ 0x9e ∷ 0xe1 ∷ 0xf8 ∷ 0x98 ∷ 0x11 ∷ 0x69 ∷ 0xd9 ∷ 0x8e ∷ 0x94 ∷ 0x9b ∷ 0x1e ∷ 0x87
    ∷ 0xe9 ∷ 0xce ∷ 0x55 ∷ 0x28 ∷ 0xdf ∷ 0x8c ∷ 0xa1 ∷ 0x89 ∷ 0x0d ∷ 0xbf ∷ 0xe6 ∷ 0x42 ∷ 0x68
    ∷ 0x41 ∷ 0x99 ∷ 0x2d ∷ 0x0f ∷ 0xb0 ∷ 0x54 ∷ 0xbb ∷ 0x16 ∷ []

-- `s_rcon`
abbrev pub s_rcon : List ℕ
s_rcon = 0x01 ∷ 0x02 ∷ 0x04 ∷ 0x08 ∷ 0x10 ∷ 0x20 ∷ 0x40 ∷ 0x80 ∷ 0x1b ∷ 0x36 ∷ []

-- The rotation, the substitution and the round constant of every fourth word.
unfoldable pub schedule_core : ℕ → Bytes → Bytes
schedule_core i t =
    bit_xor (get_or s_sbox (get_or t 1 0) 0) (get_or s_rcon (i / 4 - 1) 0)
    ∷ get_or s_sbox (get_or t 2 0) 0
    ∷ get_or s_sbox (get_or t 3 0) 0
    ∷ get_or s_sbox (get_or t 0 0) 0
    ∷ []

-- The loop of `aes128_schedule_bytes`: `n` words to go, from word `i` on.
unfoldable pub schedule_words : ℕ → ℕ → Bytes → Bytes
schedule_words zero i w = w
schedule_words (suc n) i w =
    let t = take 4 (drop ((i - 1) * 4) w) in
    let t' = if i % 4 == 0 then schedule_core i t else t in
    schedule_words n (i + 1) (w ++ xor_bytes (take 4 (drop ((i - 4) * 4) w)) t')

-- `aes128_schedule_bytes`
unfoldable pub aes128_schedule_bytes : Bytes → Bytes
aes128_schedule_bytes key = schedule_words 40 4 (take 16 key)

-- `rk[i] = load(w + i * 16)`, for `i` below 11.
unfoldable pub aes128_expand : Bytes → List Bytes
aes128_expand key = map (λ i. take 16 (drop (i * 16) (aes128_schedule_bytes key))) (range' 0 11)

-- `aes_key_cache_t`
pub record KeyCache : Type 0 where
  pub seed : Bytes
  pub rk_hi : List Bytes
  pub rk_lo : List Bytes
  pub valid : Bool

-- `get_round_keys`
unfoldable pub get_round_keys : Bytes → KeyCache → KeyCache
get_round_keys seed cache =
    if (if cache.valid then false else true)
      || (if same_bytes cache.seed (take 32 seed) then false else true)
    then record {
      seed = take 32 seed;
      rk_hi = aes128_expand seed;
      rk_lo = aes128_expand (drop 16 seed);
      valid = true;
    }
    else cache

-- Which processor the code is compiled for.
pub data Isa : Type 0 where
  arm x86 : Isa

-- The AES instructions. `sub_shift` is SubBytes and ShiftRows, `mix` is MixColumns.
pub record AesInstructions : Type 0 where
  pub aese : Bytes → Bytes → Bytes
  pub aesmc : Bytes → Bytes
  pub aesenc : Bytes → Bytes → Bytes
  pub aesenclast : Bytes → Bytes → Bytes
  pub sub_shift : Bytes → Bytes
  pub mix : Bytes → Bytes
  pub aese-eq : (s k : Bytes) → aese s k ≡ sub_shift (xor_bytes s k)
  pub aesmc-eq : (s : Bytes) → aesmc s ≡ mix s
  pub aesenc-eq : (s k : Bytes) → aesenc s k ≡ xor_bytes (mix (sub_shift s)) k
  pub aesenclast-eq : (s k : Bytes) → aesenclast s k ≡ xor_bytes (sub_shift s) k

abbrev pub round_key : List Bytes → ℕ → Bytes
round_key rk r = get_or rk r []

module _ (cpu : AesInstructions) where
  open cpu use {aese, aesmc, aesenc, aesenclast}

  -- One step of one chain: `AR(r)` on ARM, `_mm_aesenc_si128(s, rk[r])` on x86.
  abbrev pub chain_round : Isa → List Bytes → ℕ → Bytes → Bytes
  chain_round arm rk r s = aesmc (aese s (round_key rk r))
  chain_round x86 rk r s = aesenc s (round_key rk r)

  -- What comes before the rounds: the CBC exclusive or, and on x86 the first round key.
  abbrev pub chain_start : Isa → List Bytes → Bytes → Bytes → Bytes
  chain_start arm rk m s = xor_bytes s m
  chain_start x86 rk m s = xor_bytes (xor_bytes s m) (round_key rk 0)

  -- The final round.
  abbrev pub chain_final : Isa → List Bytes → Bytes → Bytes
  chain_final arm rk s = xor_bytes (aese s (round_key rk 9)) (round_key rk 10)
  chain_final x86 rk s = aesenclast s (round_key rk 10)

  -- The first of the nine full rounds: `AR(0)` to `AR(8)`, `rk[1]` to `rk[9]`.
  abbrev pub first_round : Isa → ℕ
  first_round arm = 0
  first_round x86 = 1

  -- `n` rounds of one chain, from round `r` on.
  pub chain_rounds : Isa → List Bytes → ℕ → ℕ → Bytes → Bytes
  chain_rounds isa rk zero r s = s
  chain_rounds isa rk (suc n) r s = chain_rounds isa rk n (suc r) (chain_round isa rk r s)

  -- `cbc_mac_single`, the last `n` blocks from the pointer `msg` on.
  pub chain_blocks : Isa → List Bytes → ℕ → Bytes → Bytes → Bytes
  chain_blocks isa rk zero msg s = s
  chain_blocks isa rk (suc n) msg s = chain_blocks isa rk n (drop 16 msg) (
      chain_final isa rk
        (chain_rounds isa rk 9 (first_round isa) (chain_start isa rk (take 16 msg) s)))

  pub cbc_mac_single : Isa → List Bytes → Bytes → Bytes
  cbc_mac_single isa rk msg = chain_blocks isa rk aes_blocks msg (zeros 16)

  -- `cbc_mac_4x2`: for each message its high and its low chain, `h0`, `l0` to `h3`, `l3`. Every
  -- step is taken on all chains before the next one.
  abbrev pub on_chains :
      (Bytes → Bytes) → (Bytes → Bytes) → List (Bytes × Bytes) → List (Bytes × Bytes)
  on_chains hi lo = map (λ (c : Bytes × Bytes). (hi c.0, lo c.1))

  pub lanes_start :
      Isa → List Bytes → List Bytes → List Bytes → List (Bytes × Bytes) → List (Bytes × Bytes)
  lanes_start isa rk_hi rk_lo [] chains = []
  lanes_start isa rk_hi rk_lo (m ∷ msgs) [] = []
  lanes_start isa rk_hi rk_lo (m ∷ msgs) (c ∷ chains) =
      (chain_start isa rk_hi (take 16 m) c.0, chain_start isa rk_lo (take 16 m) c.1)
      ∷ lanes_start isa rk_hi rk_lo msgs chains

  pub lanes_rounds :
      Isa → List Bytes → List Bytes → ℕ → ℕ → List (Bytes × Bytes) → List (Bytes × Bytes)
  lanes_rounds isa rk_hi rk_lo zero r chains = chains
  lanes_rounds isa rk_hi rk_lo (suc n) r chains =
      lanes_rounds isa rk_hi rk_lo n (suc r)
        (on_chains (chain_round isa rk_hi r) (chain_round isa rk_lo r) chains)

  pub lanes_blocks :
      Isa → List Bytes → List Bytes → ℕ → List Bytes → List (Bytes × Bytes) → List (Bytes × Bytes)
  lanes_blocks isa rk_hi rk_lo zero msgs chains = chains
  lanes_blocks isa rk_hi rk_lo (suc n) msgs chains =
      lanes_blocks isa rk_hi rk_lo n (map (drop 16) msgs) (
        on_chains (chain_final isa rk_hi) (chain_final isa rk_lo) (
          lanes_rounds isa rk_hi rk_lo 9 (first_round isa)
            (lanes_start isa rk_hi rk_lo msgs chains)))

  -- The labels are the chains, high then low.
  pub cbc_mac_4x2 : Isa → List Bytes → List Bytes → List Bytes → List Bytes
  cbc_mac_4x2 isa rk_hi rk_lo msgs =
      map (λ (c : Bytes × Bytes). c.0 ++ c.1)
        (lanes_blocks isa rk_hi rk_lo aes_blocks msgs (map (λ m. (zeros 16, zeros 16)) msgs))

  -- `(is_source || !pred0s) ? NULL : pred0s[i]`
  abbrev pub pred_of : Bool → PredArray → Option Bytes
  pred_of source preds = if source then none else head_pred preds

  -- The messages of a call. `stack` is what the buffers of its messages hold, one after the other.
  pub aes_msgs :
      (ℕ → Buffer aes_msg_bytes) → Bool → List ℕ → PredArray → PredArray → Bytes → List Bytes
  aes_msgs stack source [] p0s p1s descriptor = []
  aes_msgs stack source (id ∷ ids) p0s p1s descriptor =
      build_aes_msg (stack 0).0 id (pred_of source p0s) (pred_of source p1s) descriptor
      ∷ aes_msgs (λ k. stack (suc k)) source ids (tail_preds p0s) (tail_preds p1s) descriptor

  -- The loop of the scalar path.
  pub mac_each : Isa → KeyCache → List Bytes → List Bytes
  mac_each isa kc = map (λ msg. cbc_mac_single isa kc.rk_hi msg ++ cbc_mac_single isa kc.rk_lo msg)

  -- `pose_aes_prf_many`, with the thread's cache.
  pub aes_prf_many :
      Isa
      → (ℕ → Buffer aes_msg_bytes)
      → Bool
      → List ℕ
      → PredArray
      → PredArray
      → Bytes
      → Bytes
      → KeyCache
      → List Bytes × KeyCache
  aes_prf_many isa stack source ids p0s p1s seed descriptor cache =
      let kc = get_round_keys seed cache in
      let msgs = aes_msgs stack source ids p0s p1s descriptor in
      (if length ids == 4 then cbc_mac_4x2 isa kc.rk_hi kc.rk_lo msgs else mac_each isa kc msgs, kc)
