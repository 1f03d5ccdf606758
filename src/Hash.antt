-- ===== src/Hash.antt =====
-- common/src/hash.c: the message of a node, the label of a node and of a batch, the graph descriptor
-- and the seed of a chunk. BLAKE3 is a parameter, as the AES instructions are.
pub mod Message
pub mod State
pub mod Instance
pub mod Parity
use po_se_memory_wiping.Prelude.{
  ℕ, zero, suc, ◌+◌, ◌≡◌, Bool, true, false, if◌then◌else◌, Option, none, some, List, [], ◌∷◌, ◌++◌,
  map, length, take, drop,
}
use po_se_memory_wiping.Prelude.Words.{Buffer, u64_be, zeros, write}
use po_se_memory_wiping.Label.{
  Bytes, Algo, blake3, sha256, aes_prf, hash_bytes, PredArray, head_pred, tail_preds,
}
use po_se_memory_wiping.Sha256.{sha256_hash}
use po_se_memory_wiping.Aes.{aes_msg_bytes, Isa, AesInstructions, KeyCache, aes_prf_many}

-- What the code uses of vendor/blake3. `hash_many` is called with counter 0, without increments and
-- with the flags KEYED_HASH, CHUNK_START and CHUNK_END | ROOT; a hasher is its context and the
-- pieces that it was given. Each input is hashed on its own, whatever the width of the processor.
pub record Blake3 : Type 0 where
  pub derive_key : Bytes → List ℕ
  pub hash_many : List Bytes → ℕ → List ℕ → List Bytes
  pub hash_one : Bytes → ℕ → List ℕ → Bytes
  pub hash_many-eq-map :
      (inputs : List Bytes) (blocks : ℕ) (key : List ℕ)
      → hash_many inputs blocks key ≡ map (λ m. hash_one m blocks key) inputs
  pub derive : Bytes → List Bytes → ℕ → Bytes

-- "pose-db/label/src", "pose-db/label/int", "pose-db/descriptor" and "pose-db/chunk-seed" in ASCII.
abbrev pub label_context : Bytes
label_context = 112 ∷ 111 ∷ 115 ∷ 101 ∷ 45 ∷ 100 ∷ 98 ∷ 47 ∷ 108 ∷ 97 ∷ 98 ∷ 101 ∷ 108 ∷ 47 ∷ []

abbrev pub src_context : Bytes
src_context = label_context ++ 115 ∷ 114 ∷ 99 ∷ []

abbrev pub int_context : Bytes
int_context = label_context ++ 105 ∷ 110 ∷ 116 ∷ []

abbrev pub descriptor_context : Bytes
descriptor_context =
    112 ∷ 111 ∷ 115 ∷ 101 ∷ 45 ∷ 100 ∷ 98 ∷ 47 ∷ 100 ∷ 101 ∷ 115 ∷ 99 ∷ 114 ∷ 105 ∷ 112 ∷ 116 ∷ 111
    ∷ 114 ∷ []

abbrev pub chunk_seed_context : Bytes
chunk_seed_context =
    112 ∷ 111 ∷ 115 ∷ 101 ∷ 45 ∷ 100 ∷ 98 ∷ 47 ∷ 99 ∷ 104 ∷ 117 ∷ 110 ∷ 107 ∷ 45 ∷ 115 ∷ 101 ∷ 101
    ∷ 100 ∷ []

-- `g_keys_ready`, `g_key_src` and `g_key_int`, and the round-key cache of the thread.
pub record HashState : Type 0 where
  pub keys_ready : Bool
  pub key_src : List ℕ
  pub key_int : List ℕ
  pub cache : KeyCache

-- `NODE_MSG_BYTES`
abbrev pub node_msg_bytes : ℕ
node_msg_bytes = 192

-- `if (pred) memcpy(msg + off, pred, POSE_HASH_BYTES);`
abbrev pub write_pred : Bytes → ℕ → Option Bytes → Bytes
write_pred msg off none = msg
write_pred msg off (some p) = write msg off (take hash_bytes p)

-- `build_node_msg`
unfoldable pub build_node_msg : ℕ → Option Bytes → Option Bytes → Bytes → Bytes → Bytes
build_node_msg node_index pred0 pred1 seed descriptor =
    let indexed = write (zeros node_msg_bytes) 0 (u64_be node_index) in
    let with0 = write_pred indexed 64 pred0 in
    let with1 = write_pred with0 96 pred1 in
    let seeded = write with1 128 (take hash_bytes seed) in
    write seeded 160 (take hash_bytes descriptor)

-- `is_source ? NULL : pred`
abbrev pub unless_source : Bool → Option Bytes → Option Bytes
unless_source source pred = if source then none else pred

-- `store_label`
abbrev pub store_label : Bytes → Bytes
store_label src = take hash_bytes src

-- The first label of `tmp`.
abbrev pub first_label : List Bytes → Bytes
first_label [] = []
first_label (label ∷ labels) = label

module _ (b3 : Blake3) (cpu : AesInstructions) (isa : Isa)
    (aes_stack : ℕ → ℕ → Buffer aes_msg_bytes) (sha_stack : ℕ → Buffer 256) where
  -- `ensure_keys`
  pub ensure_keys : HashState → HashState
  ensure_keys st = if st.keys_ready then st else record st {
    keys_ready = true;
    key_src = b3.derive_key src_context;
    key_int = b3.derive_key int_context;
  }

  -- `is_source ? g_key_src : g_key_int`
  abbrev pub label_key : Bool → HashState → List ℕ
  label_key source st = if source then st.key_src else st.key_int

  -- `pose_label_node`. `aes_stack 0` and `sha_stack 0` are what the buffers of the callees hold at first.
  pub hash_label_node :
      Bool → ℕ → Option Bytes → Option Bytes → Bytes → Bytes → Algo → HashState → Bytes × HashState
  hash_label_node source id pred0 pred1 seed desc aes_prf st =
      let r =
        aes_prf_many cpu isa (aes_stack 0) source (id ∷ []) (some (unless_source source pred0 ∷ []))
          (some (unless_source source pred1 ∷ [])) seed desc st.cache in
      (store_label (first_label r.0), record st { cache = r.1 })
  hash_label_node source id pred0 pred1 seed desc sha256 st = (
    store_label (
        sha256_hash (sha_stack 0).0
          (build_node_msg id (unless_source source pred0) (unless_source source pred1) seed desc)),
    st,
  )
  hash_label_node source id pred0 pred1 seed desc blake3 st =
      let msg =
        build_node_msg id (unless_source source pred0) (unless_source source pred1) seed desc in
      let st' = ensure_keys st in
      (store_label (first_label (b3.hash_many (msg ∷ []) 3 (label_key source st'))), st')

  -- The messages of a batch.
  pub node_msgs : Bool → List ℕ → PredArray → PredArray → Bytes → Bytes → List Bytes
  node_msgs source [] p0s p1s seed desc = []
  node_msgs source (id ∷ ids) p0s p1s seed desc =
      build_node_msg id (unless_source source (head_pred p0s))
        (unless_source source (head_pred p1s)) seed desc
      ∷ node_msgs source ids (tail_preds p0s) (tail_preds p1s) seed desc

  -- `preds ? preds + 4 : NULL`
  abbrev pub drop_preds : ℕ → PredArray → PredArray
  drop_preds zero preds = preds
  drop_preds (suc n) preds = drop_preds n (tail_preds preds)

  -- The AES path in groups of four. `fuel` is the number of nodes: each group takes at least one, and
  -- its call has message buffers of its own.
  pub aes_groups :
      ℕ → Bool → List ℕ → PredArray → PredArray → Bytes → Bytes → KeyCache → List Bytes × KeyCache
  aes_groups fuel source [] p0s p1s seed desc cache = ([], cache)
  aes_groups zero source (id ∷ ids) p0s p1s seed desc cache = ([], cache)
  aes_groups (suc fuel) source (id ∷ ids) p0s p1s seed desc cache =
      let now =
        aes_prf_many cpu isa (aes_stack (suc fuel)) source (take 4 (id ∷ ids)) p0s p1s seed desc
          cache in
      let rest =
        aes_groups fuel source (drop 4 (id ∷ ids)) (drop_preds 4 p0s) (drop_preds 4 p1s) seed desc
          now.1 in
      (now.0 ++ rest.0, rest.1)

  -- The SHA-256 path: the calls `k`, `k + 1`, ... of `pose_sha256` and `store_label`.
  pub sha_each : ℕ → List Bytes → List Bytes
  sha_each k [] = []
  sha_each k (msg ∷ msgs) = store_label (sha256_hash (sha_stack k).0 msg) ∷ sha_each (k + 1) msgs

  -- `pose_label_node_many`
  pub hash_label_node_many :
      Bool
      → List ℕ
      → PredArray
      → PredArray
      → Bytes
      → Bytes
      → Algo
      → HashState
      → List Bytes × HashState
  hash_label_node_many source ids p0s p1s seed desc aes_prf st =
      let r = aes_groups (length ids) source ids p0s p1s seed desc st.cache in
      (map store_label r.0, record st { cache = r.1 })
  hash_label_node_many source ids p0s p1s seed desc sha256 st =
      (sha_each 1 (node_msgs source ids p0s p1s seed desc), st)
  hash_label_node_many source ids p0s p1s seed desc blake3 st =
      let st' = ensure_keys st in
      (
        map store_label
            (b3.hash_many (node_msgs source ids p0s p1s seed desc) 3 (label_key source st')),
        st',
      )

  -- `pose_graph_descriptor`
  pub hash_graph_descriptor : ℕ → ℕ → Bytes
  hash_graph_descriptor m n =
      b3.derive descriptor_context
        ((u64_be m ++ u64_be n ++ (0 ∷ 0 ∷ 0 ∷ 0 ∷ 0 ∷ 0 ∷ 1 ∷ 0 ∷ [])) ∷ []) hash_bytes

  -- `pose_chunk_seed`
  pub hash_chunk_seed : Bytes → ℕ → Bytes
  hash_chunk_seed session_seed chunk_index =
      b3.derive chunk_seed_context (session_seed ∷ u64_be chunk_index ∷ []) hash_bytes

  -- `pose_label_node_keys`
  pub label_node_keys : HashState → (List ℕ × List ℕ) × HashState
  label_node_keys st = let st' = ensure_keys st in ((st'.key_src, st'.key_int), st')
