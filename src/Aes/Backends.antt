-- ===== src/Aes/Backends.antt =====
-- The ARM backend and the x86 backend give the same labels.
use po_se_memory_wiping.Prelude.{
  ℕ, zero, suc, ◌+◌, ◌≡◌, refl, sym, ap, ◌∙◌, List, drop, take, arith,
}
use po_se_memory_wiping.Prelude.Words.{zeros, xor_bytes}
use po_se_memory_wiping.Label.{Bytes}
use po_se_memory_wiping.Aes.{
  arm, x86, AesInstructions, round_key, chain_start, chain_final, chain_rounds, chain_blocks,
  cbc_mac_single, aes_blocks,
}

module _ (cpu : AesInstructions) where
  open cpu use {
    aese, aesmc, aesenc, aesenclast, sub_shift, mix, aese-eq, aesmc-eq, aesenc-eq, aesenclast-eq,
  }

  -- On x86 the state carries the round key that ARM adds at the start of the next round.
  rounds_carry :
      (rk : List Bytes) (n r : ℕ) (s : Bytes)
      → chain_rounds cpu x86 rk n (suc r) (xor_bytes s (round_key rk r))
        ≡ xor_bytes (chain_rounds cpu arm rk n r s) (round_key rk (r + n))
  unfolding chain_rounds
  rounds_carry rk zero r s = ap (λ k. xor_bytes s (round_key rk k)) same
    where
      same : r ≡ r + zero
      same = omega arith
  rounds_carry rk (suc n) r s =
      ap (chain_rounds cpu x86 rk n (suc (suc r)))
        (step ∙ ap (λ t. xor_bytes t (round_key rk (suc r))) (sym next))
      ∙ rounds_carry rk n (suc r) (aesmc (aese s (round_key rk r)))
      ∙ ap
          (λ k.
            xor_bytes (chain_rounds cpu arm rk n (suc r) (aesmc (aese s (round_key rk r))))
              (round_key rk k))
          shift
    where
      step :
          aesenc (xor_bytes s (round_key rk r)) (round_key rk (suc r))
          ≡ xor_bytes (mix (sub_shift (xor_bytes s (round_key rk r)))) (round_key rk (suc r))
      step = aesenc-eq (xor_bytes s (round_key rk r)) (round_key rk (suc r))

      next : aesmc (aese s (round_key rk r)) ≡ mix (sub_shift (xor_bytes s (round_key rk r)))
      next = aesmc-eq (aese s (round_key rk r)) ∙ ap mix (aese-eq s (round_key rk r))

      shift : suc r + n ≡ r + suc n
      shift = omega arith

  -- One block: the encryption of the CBC-chained block.
  block_same :
      (rk : List Bytes) (m s : Bytes)
      → chain_final cpu x86 rk (chain_rounds cpu x86 rk 9 1 (chain_start cpu x86 rk m s))
        ≡ chain_final cpu arm rk (chain_rounds cpu arm rk 9 0 (chain_start cpu arm rk m s))
  block_same rk m s =
      ap (λ t. aesenclast t (round_key rk 10)) (rounds_carry rk 9 0 (xor_bytes s m))
      ∙ aesenclast-eq (xor_bytes before (round_key rk 9)) (round_key rk 10)
      ∙ ap (λ t. xor_bytes t (round_key rk 10)) (sym (aese-eq before (round_key rk 9)))
    where
      before : Bytes
      before = chain_rounds cpu arm rk 9 0 (xor_bytes s m)

  blocks_same :
      (rk : List Bytes) (n : ℕ) (msg s : Bytes)
      → chain_blocks cpu x86 rk n msg s ≡ chain_blocks cpu arm rk n msg s
  unfolding chain_blocks
  blocks_same rk zero msg s = refl
  blocks_same rk (suc n) msg s =
      ap (chain_blocks cpu x86 rk n (drop 16 msg)) (block_same rk (take 16 msg) s)
      ∙ blocks_same rk n (drop 16 msg) _

  pub cbc_mac_single_same :
      (rk : List Bytes) (msg : Bytes)
      → cbc_mac_single cpu x86 rk msg ≡ cbc_mac_single cpu arm rk msg
  unfolding cbc_mac_single
  cbc_mac_single_same rk msg = blocks_same rk aes_blocks msg (zeros 16)
