-- ===== src/Tests/Hashing.antt =====
-- Runs of the hashes: the test vectors of the standards, and the theorems at toy instructions.
use po_se_memory_wiping.Prelude.{
  ℕ, ◌+◌, ◌%◌, ◌^◌, ◌≡◌, refl, true, false, none, some, List, [], ◌∷◌, ◌++◌, map, get_or, take,
  drop, range', arith,
}
use po_se_memory_wiping.Prelude.Words.{Buffer, zeros, write, xor_bytes}
use po_se_memory_wiping.Label.{Bytes, blake3, sha256, aes_prf, PredArray, label_each}
use po_se_memory_wiping.Sha256.{
  sha256_hash, ch, maj, big_sig0, big_sig1, sig0, sig1, load_words, schedule, rounds, compress,
  compress_blocks, put_bits, pad, digest,
}
use po_se_memory_wiping.Sha256.Spec.{
  root, sha256_reference, padded_message, next_word, spec_words, block_words, spec_step, spec_steps,
  spec_block, spec_blocks, hash_bytes_of,
}
use po_se_memory_wiping.Sha256.Padding.{sha256_hash-eq-sha256_reference}
use po_se_memory_wiping.Aes.{
  AesInstructions, KeyCache, arm, x86, s_sbox, schedule_core, schedule_words, aes128_schedule_bytes,
  aes128_expand, get_round_keys, aes_prf_many,
}
use po_se_memory_wiping.Aes.Cache.{IsCache, get_round_keys-IsCache}
use po_se_memory_wiping.Aes.Many.{aes_label, aes_prf_many-label_each, aes_prf_many_same}
use po_se_memory_wiping.Hash.{Blake3, build_node_msg, hash_label_node, hash_label_node_many}
use po_se_memory_wiping.Hash.State.{IsReady, label_value, hash_label_node-label_value}
use po_se_memory_wiping.Hash.Parity.{do_label_inplace_x86-eq-do_label_arm}
use po_se_memory_wiping.Graph.Chunk.{do_label, do_label_inplace}
use po_se_memory_wiping.Hash.Instance.{
  initial_hash_state, initial-IsReady, hash_label_node_many-hash_label_node, node_hash,
}
use po_se_memory_wiping.Hash.Message.{pred_field, parse_node_msg, parse_node_msg-build_node_msg}

abbrev abc : Bytes
abc = 97 ∷ 98 ∷ 99 ∷ []

-- FIPS 180-4, "abc".
sha256_reference_of_abc :
    sha256_reference abc
    ≡ 0xba ∷ 0x78 ∷ 0x16 ∷ 0xbf ∷ 0x8f ∷ 0x01 ∷ 0xcf ∷ 0xea ∷ 0x41 ∷ 0x41 ∷ 0x40 ∷ 0xde ∷ 0x5d
      ∷ 0xae ∷ 0x22 ∷ 0x23 ∷ 0xb0 ∷ 0x03 ∷ 0x61 ∷ 0xa3 ∷ 0x96 ∷ 0x17 ∷ 0x7a ∷ 0x9c ∷ 0xb4 ∷ 0x10
      ∷ 0xff ∷ 0x61 ∷ 0xf2 ∷ 0x00 ∷ 0x15 ∷ 0xad ∷ []
unfolding root sha256_reference padded_message next_word spec_words block_words spec_step spec_steps
    spec_block spec_blocks hash_bytes_of
sha256_reference_of_abc = refl

-- The code puts the length where only a message of four blocks has it.
sha256_hash_of_abc : get_or (sha256_hash (zeros 256) abc) 0 0 ≡ 0x5b
unfolding sha256_hash pad put_bits write ch maj big_sig0 big_sig1 sig0 sig1 load_words schedule
    rounds compress compress_blocks digest
sha256_hash_of_abc = refl

sha256_hash-eq-sha256_reference_example :
    sha256_hash (zeros 256) (zeros 192) ≡ sha256_reference (zeros 192)
sha256_hash-eq-sha256_reference_example =
    sha256_hash-eq-sha256_reference (zeros 256) (zeros 192) refl (omega arith) (omega arith)

-- FIPS 197, A.1.
abbrev fips_key : Bytes
fips_key =
    0x2b ∷ 0x7e ∷ 0x15 ∷ 0x16 ∷ 0x28 ∷ 0xae ∷ 0xd2 ∷ 0xa6 ∷ 0xab ∷ 0xf7 ∷ 0x15 ∷ 0x88 ∷ 0x09 ∷ 0xcf
    ∷ 0x4f ∷ 0x3c ∷ []

last_round_key :
    get_or (aes128_expand fips_key) 10 []
    ≡ 0xd0 ∷ 0x14 ∷ 0xf9 ∷ 0xa8 ∷ 0xc9 ∷ 0xee ∷ 0x25 ∷ 0x89 ∷ 0xe1 ∷ 0x3f ∷ 0x0c ∷ 0xc8 ∷ 0xb6
      ∷ 0x63 ∷ 0x0c ∷ 0xa6 ∷ []
unfolding aes128_expand aes128_schedule_bytes schedule_words schedule_core
last_round_key = refl

abbrev substitute : Bytes → Bytes
substitute = map (λ b. get_or s_sbox b 0)

abbrev pub toy_cpu : AesInstructions
toy_cpu = record {
  aese = λ s k. substitute (xor_bytes s k);
  aesmc = λ s. drop 1 s ++ take 1 s;
  aesenc = λ s k. xor_bytes (drop 1 (substitute s) ++ take 1 (substitute s)) k;
  aesenclast = λ s k. xor_bytes (substitute s) k;
  sub_shift = substitute;
  mix = λ s. drop 1 s ++ take 1 s;
  aese-eq = λ s k. refl;
  aesmc-eq = λ s. refl;
  aesenc-eq = λ s k. refl;
  aesenclast-eq = λ s k. refl;
}

abbrev toy_blake3 : Blake3
toy_blake3 = record {
  derive_key = λ context. context;
  hash_many = λ inputs blocks key. map (λ m. xor_bytes m key) inputs;
  hash_one = λ m blocks key. xor_bytes m key;
  hash_many-eq-map = λ inputs blocks key. refl;
  derive = λ context pieces n. take n context;
}

-- The buffers hold something else for every call.
abbrev pub aes_stack : ℕ → ℕ → Buffer 112
aes_stack call k = (map (λ i. call + k + i) (range' 0 112), refl)

abbrev pub sha_stack : ℕ → Buffer 256
sha_stack call = (map (λ i. call + i) (range' 0 256), refl)

abbrev chunk_seed : Bytes
chunk_seed = fips_key ++ fips_key

abbrev desc : Bytes
desc = zeros 32

abbrev empty_cache : KeyCache
empty_cache = record { seed = zeros 32; rk_hi = []; rk_lo = []; valid = false }

empty-IsCache : IsCache empty_cache
empty-IsCache p = absurd cc

abbrev four_ids : List ℕ
four_ids = 4 ∷ 5 ∷ 6 ∷ 7 ∷ []

abbrev four_preds : PredArray
four_preds = some (some (zeros 32) ∷ some fips_key ∷ none ∷ some chunk_seed ∷ [])

get_round_keys-IsCache_example :
    ((get_round_keys chunk_seed empty_cache).rk_hi ≡ aes128_expand chunk_seed)
    × ((get_round_keys chunk_seed empty_cache).rk_lo ≡ aes128_expand (drop 16 chunk_seed))
    × IsCache (get_round_keys chunk_seed empty_cache)
get_round_keys-IsCache_example = get_round_keys-IsCache chunk_seed empty_cache empty-IsCache

aes_prf_many-label_each_example :
    ((aes_prf_many toy_cpu arm
        (aes_stack 0)
        false
        four_ids
        four_preds
        none
        chunk_seed
        desc
        empty_cache).0
      ≡ label_each (aes_label toy_cpu arm) false four_ids four_preds none chunk_seed desc aes_prf)
    × IsCache
        (aes_prf_many toy_cpu arm
          (aes_stack 0)
          false
          four_ids
          four_preds
          none
          chunk_seed
          desc
          empty_cache).1
aes_prf_many-label_each_example =
    aes_prf_many-label_each toy_cpu arm (aes_stack 0) false four_ids four_preds none chunk_seed desc
      aes_prf empty_cache empty-IsCache

aes_prf_many_same_example :
    (aes_prf_many toy_cpu x86
      (aes_stack 0)
      false
      four_ids
      four_preds
      none
      chunk_seed
      desc
      empty_cache).0
    ≡ (aes_prf_many toy_cpu arm
        (aes_stack 1)
        false
        four_ids
        four_preds
        none
        chunk_seed
        desc
        empty_cache).0
aes_prf_many_same_example =
    aes_prf_many_same toy_cpu (aes_stack 0) (aes_stack 1) false four_ids four_preds none chunk_seed
      desc empty_cache empty_cache empty-IsCache empty-IsCache

ready : IsReady toy_blake3 toy_cpu x86 aes_stack sha_stack initial_hash_state
ready = initial-IsReady toy_blake3 toy_cpu x86 aes_stack sha_stack

hash_label_node-label_value_example :
    ((hash_label_node toy_blake3 toy_cpu x86 aes_stack sha_stack true 9 none none chunk_seed desc
        blake3 initial_hash_state).0
      ≡ label_value toy_blake3 toy_cpu x86 true 9 none none chunk_seed desc blake3)
    × IsReady toy_blake3 toy_cpu x86 aes_stack sha_stack
        (hash_label_node toy_blake3 toy_cpu x86 aes_stack sha_stack true 9 none none chunk_seed desc
          blake3 initial_hash_state).1
hash_label_node-label_value_example =
    hash_label_node-label_value toy_blake3 toy_cpu x86 aes_stack sha_stack true 9 none none
      chunk_seed desc blake3 initial_hash_state ready

hash_label_node_many-hash_label_node_example :
    ((hash_label_node_many toy_blake3 toy_cpu x86 aes_stack sha_stack false four_ids four_preds none
        chunk_seed desc sha256 initial_hash_state).0
      ≡ label_each
          (λ s i p q sd d a.
            (hash_label_node toy_blake3 toy_cpu x86 aes_stack sha_stack s i p q sd d a
              initial_hash_state).0)
          false
          four_ids
          four_preds
          none
          chunk_seed
          desc
          sha256)
    × IsReady toy_blake3 toy_cpu x86 aes_stack sha_stack
        (hash_label_node_many toy_blake3 toy_cpu x86 aes_stack sha_stack false four_ids four_preds
          none chunk_seed desc sha256 initial_hash_state).1
hash_label_node_many-hash_label_node_example =
    hash_label_node_many-hash_label_node toy_blake3 toy_cpu x86 aes_stack sha_stack false four_ids
      four_preds none chunk_seed desc sha256 initial_hash_state initial_hash_state (omega arith)
      ready ready

parse_node_msg-build_node_msg_example :
    parse_node_msg (build_node_msg 300 (some chunk_seed) none chunk_seed desc) ≡ record {
      index = 300 % 2 ^ 64;
      pred0 = pred_field (some chunk_seed);
      pred1 = pred_field none;
      seed = take 32 chunk_seed;
      descriptor = take 32 desc;
    }
parse_node_msg-build_node_msg_example =
    parse_node_msg-build_node_msg 300 (some chunk_seed) none chunk_seed desc (omega arith) tt
      (omega arith) (omega arith)

do_label_inplace_x86-eq-do_label_arm_example :
    do_label_inplace (node_hash toy_blake3 toy_cpu x86 aes_stack sha_stack) chunk_seed 3 aes_prf
    ≡ do_label
        (node_hash toy_blake3 toy_cpu arm
          (λ call. aes_stack (call + 1))
          (λ call. sha_stack (call + 1)))
        chunk_seed
        3
        (λ id. zeros 32)
        aes_prf
do_label_inplace_x86-eq-do_label_arm_example =
    do_label_inplace_x86-eq-do_label_arm toy_blake3 toy_cpu aes_stack (λ call. aes_stack (call + 1))
      sha_stack (λ call. sha_stack (call + 1)) chunk_seed 3 (λ id. zeros 32) aes_prf
      (λ e. absurd cc)
