-- ===== src/Gpu/Blake3/Label.antt =====
-- `label_node` of blake3_node.cuh beside `pose_label_node` of hash.c: the words of the one and the message
-- of the other.
use native.Mathlib.Decide.{dec_lt}
use po_se_memory_wiping.Prelude.{
  ℕ, zero, suc, ◌+◌, ◌*◌, ◌≤◌, ◌<◌, ◌≡◌, refl, sym, ap, ap₂, ◌∙◌, inl, inr, Bool, true, false,
  Option, none, some, List, [], ◌∷◌, ◌++◌, length, get_or, take, length-take, bit_or, if◌then◌else◌,
  arith,
}
use po_se_memory_wiping.Prelude.Words.{
  Buffer, length-write, u8, u32, ◌<<<◌, ◌>>>◌, u64_be, zeros, length-zeros, write,
}
use po_se_memory_wiping.Label.{Bytes, blake3}
use po_se_memory_wiping.Aes.{aes_msg_bytes, Isa, AesInstructions}
use po_se_memory_wiping.Hash.Message.{length-write_pred, length-build_node_msg}
use po_se_memory_wiping.Hash.{
  Blake3, src_context, int_context, build_node_msg, write_pred, unless_source, store_label,
  hash_label_node,
}
use po_se_memory_wiping.Hash.State.{label_value, hash_label_node-label_value}
use po_se_memory_wiping.Hash.Instance.{initial_hash_state, initial-IsReady, node_hash}
use po_se_memory_wiping.Gpu.{GpuHash}
use po_se_memory_wiping.Gpu.Blake3.{
  flag_chunk_start, flag_chunk_end, flag_root, flag_keyed_hash, load_le32, store_label_words,
  bswap32, pred_words, gpu_label_node,
}
use po_se_memory_wiping.Gpu.Blake3.Spec.{blake3_compress, gpu_compress-blake3_compress}
use po_se_memory_wiping.Gpu.Blake3.Fields.{
  write_outside, write_inside, get_or_beyond, get_or-zeros, write_field, pred_bytes,
  write_pred_field, write_pred_outside,
}

-- `n` little-endian words from byte `i` on.
abbrev pub words_at : Bytes → ℕ → ℕ → List ℕ
words_at p i zero = []
words_at p i (suc n) = load_le32 p i ∷ words_at p (i + 4) n

-- Keyed BLAKE3 of a chunk of three blocks: one compression for each, the first and the last marked.
abbrev pub keyed_hash : Bytes → List ℕ → Bytes
keyed_hash m key =
    let cv1 = blake3_compress key (words_at m 0 16) 64 (bit_or flag_keyed_hash flag_chunk_start) in
    let cv2 = blake3_compress cv1 (words_at m 64 16) 64 flag_keyed_hash in
    store_label_words (
      blake3_compress cv2 (words_at m 128 16) 64
        (bit_or (bit_or flag_keyed_hash flag_chunk_end) flag_root))

-- vendor/blake3 hashes three blocks with a key as the specification of BLAKE3 has it.
pub record IsBlake3 (b3 : Blake3) : Type 0 where
  pub keyed : (m : Bytes) (key : List ℕ) → length m ≡ 192 → b3.hash_one m 3 key ≡ keyed_hash m key

module _ (id : ℕ) (p0 p1 : Option Bytes) (seed desc : Bytes) where
  abbrev msg0 : Bytes
  msg0 = write (zeros 192) 0 (u64_be id)

  abbrev msg1 : Bytes
  msg1 = write_pred msg0 64 p0

  abbrev msg2 : Bytes
  msg2 = write_pred msg1 96 p1

  abbrev msg3 : Bytes
  msg3 = write msg2 128 (take 32 seed)

  abbrev msg : Bytes
  msg = write msg3 160 (take 32 desc)

  lengths :
      (length msg0 ≡ 192)
      × (length msg1 ≡ 192)
      × (length msg2 ≡ 192)
      × (length msg3 ≡ 192)
      × (length msg ≡ 192)
  lengths =
      let l0 = length-write (zeros 192) 0 (u64_be id) ∙ length-zeros 192 in
      let l1 = length-write_pred msg0 64 p0 ∙ l0 in
      let l2 = length-write_pred msg1 96 p1 ∙ l1 in
      let l3 = length-write msg2 128 (take 32 seed) ∙ l2 in
      (l0, l1, l2, l3, length-write msg3 160 (take 32 desc) ∙ l3)

  head_byte : (k : ℕ) → get_or msg0 k 0 ≡ get_or (u64_be id) k 0
  head_byte k = elim (dec_lt k 8) [
    | yes lt ↦
        let at : 0 + k ≡ k = omega arith in
        ap (λ i. get_or msg0 i 0) (sym at)
        ∙ write_inside (zeros 192) 0 (u64_be id) k lt (omega (arith, length-zeros 192))
    | no ge ↦
        write_outside (zeros 192) 0 (u64_be id) k (inr (omega (arith, ge)))
        ∙ get_or-zeros 192 k
        ∙ sym (get_or_beyond (u64_be id) k (omega (arith, ge)))
  ]

  clear_byte : (i : ℕ) → 8 ≤ i → get_or msg0 i 0 ≡ 0
  clear_byte i le = head_byte i ∙ get_or_beyond (u64_be id) i le

  -- What the last two fields leave as it is.
  tail_low : (i : ℕ) → i < 128 → get_or msg i 0 ≡ get_or msg2 i 0
  tail_low i lt =
      write_outside msg3 160 (take 32 desc) i (inl (omega arith))
      ∙ write_outside msg2 128 (take 32 seed) i (inl lt)

  block0 : (k : ℕ) → k < 64 → get_or msg (0 + k) 0 ≡ get_or (u64_be id) k 0
  block0 k lt =
      let at : 0 + k ≡ k = omega arith in
      ap (λ i. get_or msg i 0) at
      ∙ tail_low k (omega arith)
      ∙ write_pred_outside msg1 96 p1 k (inl (omega arith))
      ∙ write_pred_outside msg0 64 p0 k (inl lt)
      ∙ head_byte k

  field0 : (k : ℕ) → k < 32 → get_or msg (64 + k) 0 ≡ get_or (pred_bytes p0) k 0
  field0 k lt =
      tail_low (64 + k) (omega arith)
      ∙ write_pred_outside msg1 96 p1 (64 + k) (inl (omega arith))
      ∙ write_pred_field msg0 64 p0 k lt (omega (arith, lengths))
          (clear_byte (64 + k) (omega arith))

  field1 : (k : ℕ) → k < 32 → get_or msg (96 + k) 0 ≡ get_or (pred_bytes p1) k 0
  field1 k lt =
      tail_low (96 + k) (omega arith)
      ∙ write_pred_field msg1 96 p1 k lt (omega (arith, lengths)) (
          write_pred_outside msg0 64 p0 (96 + k) (inr (omega arith))
          ∙ clear_byte (96 + k) (omega arith))

  above : (i : ℕ) → 128 ≤ i → get_or msg2 i 0 ≡ 0
  above i le =
      write_pred_outside msg1 96 p1 i (inr le)
      ∙ write_pred_outside msg0 64 p0 i (inr (omega arith))
      ∙ clear_byte i (omega arith)

  seed_field : (k : ℕ) → k < 32 → get_or msg (128 + k) 0 ≡ get_or seed k 0
  seed_field k lt =
      write_outside msg3 160 (take 32 desc) (128 + k) (inl (omega arith))
      ∙ write_field msg2 128 32 seed k lt (omega (arith, lengths)) (above (128 + k) (omega arith))

  desc_field : (k : ℕ) → k < 32 → get_or msg (160 + k) 0 ≡ get_or desc k 0
  desc_field k lt = write_field msg3 160 32 desc k lt (omega (arith, lengths)) (
      write_outside msg2 128 (take 32 seed) (160 + k) (inr (omega (arith, length-take 32 seed)))
      ∙ above (160 + k) (omega arith))

  -- The words of a field.
  words_field :
      (p : Bytes) (off size : ℕ)
      → ((k : ℕ) → k < size → get_or msg (off + k) 0 ≡ get_or p k 0)
      → (n i : ℕ) → i + 4 * n ≤ size
      → words_at msg (off + i) n ≡ words_at p i n
  words_field p off size same zero i le = refl
  words_field p off size same (suc n) i le =
      let rest = words_field p off size same n (i + 4) (omega arith) in
      let next : off + i + 4 ≡ off + (i + 4) = omega arith in
      ap₂ ◌∷◌ load (ap (λ j. words_at msg j n) next ∙ rest)
    where
      byte : (k : ℕ) → k < 4 → get_or msg (off + i + k) 0 ≡ get_or p (i + k) 0
      byte k lt =
          let at : off + i + k ≡ off + (i + k) = omega arith in
          ap (λ j. get_or msg j 0) at ∙ same (i + k) (omega arith)

      byte0 : get_or msg (off + i) 0 ≡ get_or p i 0
      byte0 = same i (omega arith)

      load : load_le32 msg (off + i) ≡ load_le32 p i
      load e =
          bit_or
            (bit_or (bit_or (byte0 e) (byte 1 (omega arith) e <<< 8))
              (byte 2 (omega arith) e <<< 16))
            (byte 3 (omega arith) e <<< 24)

  pred_words_lem : (p : Option Bytes) → words_at (pred_bytes p) 0 8 ≡ pred_words p
  pred_words_lem none = refl
  pred_words_lem (some p) = refl

  head_words : words_at (u64_be id) 0 16 ≡ bswap32 (u32 (id >>> 32)) ∷ bswap32 (u32 id) ∷ zeros 14
  head_words e =
      load_le32 (h0 e ∷ h1 e ∷ h2 e ∷ h3 e ∷ []) 0
      ∷ load_le32 (h4 e ∷ h5 e ∷ h6 e ∷ h7 e ∷ []) 0
      ∷ zeros 14
    where
      h0 : u8 (id >>> 56) ≡ u8 (u32 (id >>> 32) >>> 24)
      h0 = omega arith

      h1 : u8 (id >>> 48) ≡ u8 (u32 (id >>> 32) >>> 16)
      h1 = omega arith

      h2 : u8 (id >>> 40) ≡ u8 (u32 (id >>> 32) >>> 8)
      h2 = omega arith

      h3 : u8 (id >>> 32) ≡ u8 (u32 (id >>> 32))
      h3 = omega arith

      h4 : u8 (id >>> 24) ≡ u8 (u32 id >>> 24)
      h4 = omega arith

      h5 : u8 (id >>> 16) ≡ u8 (u32 id >>> 16)
      h5 = omega arith

      h6 : u8 (id >>> 8) ≡ u8 (u32 id >>> 8)
      h6 = omega arith

      h7 : u8 id ≡ u8 (u32 id)
      h7 = omega arith

  -- `label_node` of blake3_node.cuh is keyed BLAKE3 of the message that hash.c builds.
  gpu_label_node-keyed_hash :
      (key : List ℕ)
      → gpu_label_node key id p0 p1 seed desc ≡ keyed_hash (build_node_msg id p0 p1 seed desc) key
  unfolding gpu_label_node build_node_msg blake3_compress
  gpu_label_node-keyed_hash key = ap store_label_words (
      gpu_compress-blake3_compress _ _ 64 _
      ∙ ap₂
          (λ cv b.
            blake3_compress cv b 64 (bit_or (bit_or flag_keyed_hash flag_chunk_end) flag_root))
          (gpu_compress-blake3_compress _ _ 64 _
            ∙ ap₂ (λ cv b. blake3_compress cv b 64 flag_keyed_hash)
                (gpu_compress-blake3_compress _ _ 64 _
                  ∙ ap (λ b. blake3_compress key b 64 (bit_or flag_keyed_hash flag_chunk_start))
                      (sym (first_block ∙ head_words)))
                (sym (
                  ap₂ ◌++◌ (words (pred_bytes p0) 64 field0 ∙ pred_words_lem p0)
                    (words (pred_bytes p1) 96 field1 ∙ pred_words_lem p1))))
          (sym (ap₂ ◌++◌ (words seed 128 seed_field) (words desc 160 desc_field))))
    where
      words :
          (p : Bytes) (off : ℕ)
          → ((k : ℕ) → k < 32 → get_or msg (off + k) 0 ≡ get_or p k 0)
          → words_at msg off 8 ≡ words_at p 0 8
      words p off same =
          let at : off ≡ off + 0 = omega arith in
          ap (λ i. words_at msg i 8) at ∙ words_field p off 32 same 8 0 (omega arith)

      first_block : words_at msg 0 16 ≡ words_at (u64_be id) 0 16
      first_block = words_field (u64_be id) 0 64 block0 16 0 (omega arith)

module _ (b3 : Blake3) (spec : IsBlake3 b3) (cpu : AesInstructions) (isa : Isa)
    (aes_stack : ℕ → ℕ → Buffer aes_msg_bytes) (sha_stack : ℕ → Buffer 256) where
  pub gpu_label_node-hash_label_node :
      (source : Bool) (id : ℕ) (p0 p1 : Option Bytes) (seed desc : Bytes)
      → gpu_label_node
          (if source then b3.derive_key src_context else b3.derive_key int_context)
          id
          (unless_source source p0)
          (unless_source source p1)
          seed
          desc
        ≡ (hash_label_node b3 cpu isa aes_stack sha_stack source id p0 p1 seed desc blake3
            initial_hash_state).0
  unfolding label_value blake3_compress
  gpu_label_node-hash_label_node source id p0 p1 seed desc =
      gpu_label_node-keyed_hash id q0 q1 seed desc key
      ∙ ap store_label (sym (spec.keyed (build_node_msg id q0 q1 seed desc) key length_msg))
      ∙ sym
          (hash_label_node-label_value b3 cpu isa aes_stack sha_stack source id p0 p1 seed desc
            blake3 initial_hash_state (initial-IsReady b3 cpu isa aes_stack sha_stack)).0
    where
      key : List ℕ
      key = if source then b3.derive_key src_context else b3.derive_key int_context

      q0 : Option Bytes
      q0 = unless_source source p0

      q1 : Option Bytes
      q1 = unless_source source p1

      length_msg : length (build_node_msg id q0 q1 seed desc) ≡ 192
      length_msg = length-build_node_msg id q0 q1 seed desc

  -- blake3_node.cuh fills the interface of the kernels.
  abbrev pub gpu_hash : GpuHash (node_hash b3 cpu isa aes_stack sha_stack)
  gpu_hash = record {
    key_src = b3.derive_key src_context;
    key_int = b3.derive_key int_context;
    gpu_label = gpu_label_node;
    gpu_label_source = λ id seed desc. gpu_label_node-hash_label_node true id none none seed desc;
    gpu_label_internal = λ id p q seed desc. gpu_label_node-hash_label_node false id p q seed desc;
  }
