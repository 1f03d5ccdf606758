-- ===== src/Aes/Many.antt =====
-- `pose_aes_prf_many` on the four-wide path and on the scalar one, beside the label of one node.
use po_se_memory_wiping.Prelude.{
  ℕ, zero, suc, ◌≡◌, refl, sym, ap, ap₂, ◌∙◌, Bool, true, false, ◌==◌, if◌then◌else◌, Option, none,
  List, [], ◌∷◌, ◌++◌, map, length, take, drop,
}
use po_se_memory_wiping.Prelude.Words.{Buffer, zeros}
use po_se_memory_wiping.Label.{Bytes, Algo, blake3, LabelNode, PredArray, tail_preds, label_each}
use po_se_memory_wiping.Aes.{
  aes_msg_bytes, Isa, arm, x86, AesInstructions, KeyCache, aes128_expand, get_round_keys,
  chain_round, chain_start, chain_final, first_round, chain_rounds, chain_blocks, cbc_mac_single,
  aes_blocks, on_chains, lanes_start, lanes_rounds, lanes_blocks, cbc_mac_4x2, pred_of, aes_msgs,
  mac_each, aes_prf_many,
}
use po_se_memory_wiping.Aes.Buffers.{aes_message, build_aes_msg-aes_message}
use po_se_memory_wiping.Aes.Backends.{cbc_mac_single_same}
use po_se_memory_wiping.Aes.Cache.{IsCache, get_round_keys-IsCache}

module _ (cpu : AesInstructions) (isa : Isa) where
  lanes_rounds-cons :
      (hi lo : List Bytes) (n r : ℕ) (c : Bytes × Bytes) (cs : List (Bytes × Bytes))
      → lanes_rounds cpu isa hi lo n r (c ∷ cs)
        ≡ (chain_rounds cpu isa hi n r c.0, chain_rounds cpu isa lo n r c.1)
          ∷ lanes_rounds cpu isa hi lo n r cs
  unfolding lanes_rounds chain_rounds
  lanes_rounds-cons hi lo zero r c cs = refl
  lanes_rounds-cons hi lo (suc n) r c cs =
      lanes_rounds-cons hi lo n (suc r) (chain_round cpu isa hi r c.0, chain_round cpu isa lo r c.1)
        (on_chains cpu (chain_round cpu isa hi r) (chain_round cpu isa lo r) cs)

  lanes_rounds-nil : (hi lo : List Bytes) (n r : ℕ) → lanes_rounds cpu isa hi lo n r [] ≡ []
  unfolding lanes_rounds
  lanes_rounds-nil hi lo zero r = refl
  lanes_rounds-nil hi lo (suc n) r = lanes_rounds-nil hi lo n (suc r)

  lanes_blocks-cons :
      (hi lo : List Bytes) (n : ℕ) (m : Bytes) (ms : List Bytes) (c : Bytes × Bytes)
      (cs : List (Bytes × Bytes))
      → lanes_blocks cpu isa hi lo n (m ∷ ms) (c ∷ cs)
        ≡ (chain_blocks cpu isa hi n m c.0, chain_blocks cpu isa lo n m c.1)
          ∷ lanes_blocks cpu isa hi lo n ms cs
  unfolding lanes_blocks chain_blocks lanes_start
  lanes_blocks-cons hi lo zero m ms c cs = refl
  lanes_blocks-cons hi lo (suc n) m ms c cs =
      ap
        (λ chains.
          lanes_blocks cpu isa hi lo n (drop 16 m ∷ map (drop 16) ms)
            (on_chains cpu (chain_final cpu isa hi) (chain_final cpu isa lo) chains))
        (lanes_rounds-cons hi lo 9 (first_round cpu isa)
          (chain_start cpu isa hi (take 16 m) c.0, chain_start cpu isa lo (take 16 m) c.1)
          (lanes_start cpu isa hi lo ms cs))
      ∙ lanes_blocks-cons hi lo n (drop 16 m) (map (drop 16) ms) _ _

  lanes_blocks-nil : (hi lo : List Bytes) (n : ℕ) → lanes_blocks cpu isa hi lo n [] [] ≡ []
  unfolding lanes_blocks lanes_start
  lanes_blocks-nil hi lo zero = refl
  lanes_blocks-nil hi lo (suc n) =
      ap
        (λ chains.
          lanes_blocks cpu isa hi lo n []
            (on_chains cpu (chain_final cpu isa hi) (chain_final cpu isa lo) chains))
        (lanes_rounds-nil hi lo 9 (first_round cpu isa))
      ∙ lanes_blocks-nil hi lo n

  -- The interleaved chains are the single ones.
  cbc_mac_4x2-mac_each :
      (kc : KeyCache) (msgs : List Bytes)
      → cbc_mac_4x2 cpu isa kc.rk_hi kc.rk_lo msgs ≡ mac_each cpu isa kc msgs
  unfolding cbc_mac_4x2 mac_each cbc_mac_single
  cbc_mac_4x2-mac_each kc [] =
      ap (map (λ (c : Bytes × Bytes). c.0 ++ c.1)) (lanes_blocks-nil kc.rk_hi kc.rk_lo aes_blocks)
  cbc_mac_4x2-mac_each kc (m ∷ ms) =
      ap (map (λ (c : Bytes × Bytes). c.0 ++ c.1)) (
        lanes_blocks-cons kc.rk_hi kc.rk_lo aes_blocks m ms (zeros 16, zeros 16)
          (map (λ m. (zeros 16, zeros 16)) ms))
      ∙ ap
          (λ rest.
            (chain_blocks cpu isa kc.rk_hi aes_blocks m (zeros 16)
              ++ chain_blocks cpu isa kc.rk_lo aes_blocks m (zeros 16))
            ∷ rest)
          (cbc_mac_4x2-mac_each kc ms)

  -- The label of one node.
  unfoldable pub aes_label : LabelNode
  aes_label source id p0 p1 seed desc algo =
      let msg = aes_message id (if source then none else p0) (if source then none else p1) desc in
      cbc_mac_single cpu isa (aes128_expand seed) msg
      ++ cbc_mac_single cpu isa (aes128_expand (drop 16 seed)) msg

  each_label :
      (stack : ℕ → Buffer aes_msg_bytes) (seed desc : Bytes) (algo : Algo) (source : Bool)
      (ids : List ℕ) (p0s p1s : PredArray) (kc : KeyCache)
      → kc.rk_hi ≡ aes128_expand seed
      → kc.rk_lo ≡ aes128_expand (drop 16 seed)
      → mac_each cpu isa kc (aes_msgs cpu stack source ids p0s p1s desc)
        ≡ label_each aes_label source ids p0s p1s seed desc algo
  unfolding mac_each aes_msgs label_each aes_label
  each_label stack seed desc algo source [] p0s p1s kc hi lo = refl
  each_label stack seed desc algo source (id ∷ ids) p0s p1s kc hi lo =
      ap₂ ◌∷◌
        (ap (λ m. cbc_mac_single cpu isa kc.rk_hi m ++ cbc_mac_single cpu isa kc.rk_lo m)
            (build_aes_msg-aes_message (stack 0) id (pred_of cpu source p0s)
              (pred_of cpu source p1s) desc)
          ∙ ap₂ (λ h l. cbc_mac_single cpu isa h msg ++ cbc_mac_single cpu isa l msg) hi lo)
        (each_label (λ k. stack (suc k)) seed desc algo source ids (tail_preds p0s) (tail_preds p1s)
          kc hi lo)
    where
      msg : Bytes
      msg = aes_message id (pred_of cpu source p0s) (pred_of cpu source p1s) desc

  -- If the thread's cache holds the keys of its seed where it is valid, `pose_aes_prf_many` gives for any
  -- number of nodes, whatever the buffers of the messages held, the label that each node has alone, and
  -- leaves such a cache.
  pub aes_prf_many-label_each :
      (stack : ℕ → Buffer aes_msg_bytes) (source : Bool) (ids : List ℕ) (p0s p1s : PredArray)
      (seed desc : Bytes) (algo : Algo) (cache : KeyCache)
      → IsCache cache
      → ((aes_prf_many cpu isa stack source ids p0s p1s seed desc cache).0
          ≡ label_each aes_label source ids p0s p1s seed desc algo)
        × IsCache (aes_prf_many cpu isa stack source ids p0s p1s seed desc cache).1
  unfolding aes_prf_many
  aes_prf_many-label_each stack source ids p0s p1s seed desc algo cache holds = (
    pick (length ids == 4) ∙ each_label stack seed desc algo source ids p0s p1s kc keys.0 keys.1,
    keys.2,
  )
    where
      kc : KeyCache
      kc = get_round_keys seed cache

      keys :
          (kc.rk_hi ≡ aes128_expand seed) × (kc.rk_lo ≡ aes128_expand (drop 16 seed)) × IsCache kc
      keys = get_round_keys-IsCache seed cache holds

      msgs : List Bytes
      msgs = aes_msgs cpu stack source ids p0s p1s desc

      pick :
          (b : Bool)
          → (if b then cbc_mac_4x2 cpu isa kc.rk_hi kc.rk_lo msgs else mac_each cpu isa kc msgs)
            ≡ mac_each cpu isa kc msgs
      pick true = cbc_mac_4x2-mac_each kc msgs
      pick false = refl

module _ (cpu : AesInstructions) where
  pub aes_label_same :
      (source : Bool) (id : ℕ) (p0 p1 : Option Bytes) (seed desc : Bytes) (algo : Algo)
      → aes_label cpu x86 source id p0 p1 seed desc algo
        ≡ aes_label cpu arm source id p0 p1 seed desc algo
  unfolding aes_label
  aes_label_same source id p0 p1 seed desc algo =
      ap₂ ◌++◌ (cbc_mac_single_same cpu (aes128_expand seed) _)
        (cbc_mac_single_same cpu (aes128_expand (drop 16 seed)) _)

  -- If the caches of both threads hold the keys of their seeds where they are valid, code compiled for ARM and code
  -- compiled for x86 give the same labels, for any number of nodes and whatever the message buffers of either held.
  pub aes_prf_many_same :
      (stack stack' : ℕ → Buffer aes_msg_bytes) (source : Bool) (ids : List ℕ) (p0s p1s : PredArray)
      (seed desc : Bytes) (cache cache' : KeyCache)
      → IsCache cache
      → IsCache cache'
      → (aes_prf_many cpu x86 stack source ids p0s p1s seed desc cache).0
        ≡ (aes_prf_many cpu arm stack' source ids p0s p1s seed desc cache').0
  aes_prf_many_same stack stack' source ids p0s p1s seed desc cache cache' holds holds' =
      (aes_prf_many-label_each cpu x86 stack source ids p0s p1s seed desc blake3 cache holds).0
      ∙ ap (λ f. label_each f source ids p0s p1s seed desc blake3)
          (λ i source id p0 p1 seed desc algo. aes_label_same source id p0 p1 seed desc algo i)
      ∙ sym
          (aes_prf_many-label_each cpu arm stack' source ids p0s p1s seed desc blake3 cache'
            holds').0
