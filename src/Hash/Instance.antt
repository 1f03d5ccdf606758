-- ===== src/Hash/Instance.antt =====
-- hash.c fills the interface that graph.c uses: a batch labels each of its nodes.
use po_se_memory_wiping.Prelude.{
  ℕ, ◌+◌, ◌≤◌, ◌≡◌, refl, sym, ap, ap₂, ◌∙◌, Bool, false, Option, List, [], ◌∷◌, map, length,
}
use native.Mathlib.Nat.{le_refl}
use po_se_memory_wiping.Prelude.Words.{Buffer, zeros}
use po_se_memory_wiping.Label.{
  Bytes, Algo, blake3, sha256, aes_prf, label_batch, LabelNode, PredArray, head_pred, tail_preds,
  label_each, NodeHash,
}
use po_se_memory_wiping.Aes.{aes_msg_bytes, Isa, AesInstructions}
use po_se_memory_wiping.Aes.Many.{aes_label}
use po_se_memory_wiping.Hash.{
  Blake3, HashState, build_node_msg, unless_source, store_label, hash_label_node, node_msgs,
  sha_each, hash_label_node_many, hash_graph_descriptor, hash_chunk_seed,
}
use po_se_memory_wiping.Hash.State.{
  sha256_node, IsReady, label_value, ensure_keys-IsReady, key_of, label_key_lem,
  hash_label_node-label_value, map-label_each, aes_groups_lem,
}

-- No key is derived and no round key is cached yet.
abbrev pub initial_hash_state : HashState
initial_hash_state = record {
  keys_ready = false;
  key_src = zeros 8;
  key_int = zeros 8;
  cache = record { seed = zeros 32; rk_hi = []; rk_lo = []; valid = false };
}

map-map : (f g : Bytes → Bytes) (xs : List Bytes) → map f (map g xs) ≡ map (λ x. f (g x)) xs
map-map f g [] = refl
map-map f g (x ∷ xs) = ap (λ l. f (g x) ∷ l) (map-map f g xs)

label_each-same :
    (f g : LabelNode) (source : Bool) (ids : List ℕ) (p0s p1s : PredArray) (seed desc : Bytes)
    (algo : Algo)
    → ((id : ℕ) (p q : Option Bytes)
        → f source id p q seed desc algo ≡ g source id p q seed desc algo)
    → label_each f source ids p0s p1s seed desc algo
      ≡ label_each g source ids p0s p1s seed desc algo
unfolding label_each
label_each-same f g source [] p0s p1s seed desc algo same = refl
label_each-same f g source (id ∷ ids) p0s p1s seed desc algo same =
    ap₂ ◌∷◌ (same id (head_pred p0s) (head_pred p1s))
      (label_each-same f g source ids (tail_preds p0s) (tail_preds p1s) seed desc algo same)

module _ (b3 : Blake3) (cpu : AesInstructions) (isa : Isa)
    (aes_stack : ℕ → ℕ → Buffer aes_msg_bytes) (sha_stack : ℕ → Buffer 256) where
  abbrev value : LabelNode
  value = label_value b3 cpu isa

  -- Hashing the messages of a batch one by one.
  node_msgs-label_each :
      (hash : Bytes → Bytes) (source : Bool) (ids : List ℕ) (p0s p1s : PredArray)
      (seed desc : Bytes) (algo : Algo)
      → map hash (node_msgs b3 cpu isa aes_stack sha_stack source ids p0s p1s seed desc)
        ≡ label_each
            (λ s i p q sd d a. hash (build_node_msg i (unless_source s p) (unless_source s q) sd d))
            source
            ids
            p0s
            p1s
            seed
            desc
            algo
  unfolding node_msgs label_each
  node_msgs-label_each hash source [] p0s p1s seed desc algo = refl
  node_msgs-label_each hash source (id ∷ ids) p0s p1s seed desc algo =
      ap
        (λ r.
          hash (
            build_node_msg id (unless_source source (head_pred p0s))
              (unless_source source (head_pred p1s)) seed desc)
          ∷ r)
        (node_msgs-label_each hash source ids (tail_preds p0s) (tail_preds p1s) seed desc algo)

  sha_each_lem :
      (k : ℕ) (source : Bool) (ids : List ℕ) (p0s p1s : PredArray) (seed desc : Bytes)
      → sha_each b3 cpu isa aes_stack sha_stack k
          (node_msgs b3 cpu isa aes_stack sha_stack source ids p0s p1s seed desc)
        ≡ label_each value source ids p0s p1s seed desc sha256
  unfolding sha_each node_msgs label_each label_value
  sha_each_lem k source [] p0s p1s seed desc = refl
  sha_each_lem k source (id ∷ ids) p0s p1s seed desc =
      ap₂ ◌∷◌
        (ap store_label (
          sha256_node (sha_stack k) id (unless_source source (head_pred p0s))
            (unless_source source (head_pred p1s)) seed desc))
        (sha_each_lem (k + 1) source ids (tail_preds p0s) (tail_preds p1s) seed desc)

  -- If the keys are derived where they are ready and the cache holds the keys of its seed where it is valid,
  -- `pose_label_node_many` of at most 16 nodes gives each node the label that `pose_label_node` gives it
  -- in any such state, for each of the three algorithms and whatever the buffers of the callees held, which
  -- are others for every call, and leaves such a state.
  pub hash_label_node_many-hash_label_node :
      (source : Bool) (ids : List ℕ) (p0s p1s : PredArray) (seed desc : Bytes) (algo : Algo)
      (st st' : HashState)
      → length ids ≤ label_batch
      → IsReady b3 cpu isa aes_stack sha_stack st
      → IsReady b3 cpu isa aes_stack sha_stack st'
      → ((hash_label_node_many b3 cpu isa aes_stack sha_stack source ids p0s p1s seed desc algo
            st).0
          ≡ label_each
              (λ s i p q sd d a.
                (hash_label_node b3 cpu isa aes_stack sha_stack s i p q sd d a st').0)
              source
              ids
              p0s
              p1s
              seed
              desc
              algo)
        × IsReady b3 cpu isa aes_stack sha_stack
            (hash_label_node_many b3 cpu isa aes_stack sha_stack source ids p0s p1s seed desc algo
              st).1
  unfolding hash_label_node_many label_value
  hash_label_node_many-hash_label_node source ids p0s p1s seed desc algo st st' small ready ready' =
      (
        (batch algo).0
            ∙ label_each-same value _ source ids p0s p1s seed desc algo (λ id p q.
              sym
                (hash_label_node-label_value b3 cpu isa aes_stack sha_stack source id p q seed desc
                  algo st' ready').0),
        (batch algo).1,
      )
    where
      msgs : List Bytes
      msgs = node_msgs b3 cpu isa aes_stack sha_stack source ids p0s p1s seed desc

      hashed :
          (hash : Bytes → Bytes) (algo : Algo)
          → ((id : ℕ) (p q : Option Bytes)
              → hash (build_node_msg id (unless_source source p) (unless_source source q) seed desc)
                ≡ value source id p q seed desc algo)
          → map hash msgs ≡ label_each value source ids p0s p1s seed desc algo
      hashed hash algo same =
          node_msgs-label_each hash source ids p0s p1s seed desc algo
          ∙ label_each-same _ value source ids p0s p1s seed desc algo same

      batch :
          (algo : Algo)
          → ((hash_label_node_many b3 cpu isa aes_stack sha_stack source ids p0s p1s seed desc algo
                st).0
              ≡ label_each value source ids p0s p1s seed desc algo)
            × IsReady b3 cpu isa aes_stack sha_stack
                (hash_label_node_many b3 cpu isa aes_stack sha_stack source ids p0s p1s seed desc
                  algo st).1
      batch aes_prf =
          let groups =
            aes_groups_lem b3 cpu isa aes_stack sha_stack (length ids) source ids p0s p1s seed desc
              st.cache (le_refl (length ids)) ready.1 in
          (
            ap (map store_label) groups.0
                ∙ map-label_each b3 cpu isa aes_stack sha_stack store_label (aes_label cpu isa)
                    source ids p0s p1s seed desc aes_prf
                ∙ label_each-same _ value source ids p0s p1s seed desc aes_prf (λ id p q. refl),
            (ready.0, groups.1),
          )
      batch sha256 = (sha_each_lem 1 source ids p0s p1s seed desc, ready)
      batch blake3 = (
        ap (map store_label) (
              b3.hash_many-eq-map msgs 3 _
              ∙ ap (λ k. map (λ m. b3.hash_one m 3 k) msgs)
                  (label_key_lem b3 cpu isa aes_stack sha_stack source st ready))
            ∙ map-map store_label
                (λ m. b3.hash_one m 3 (key_of b3 cpu isa aes_stack sha_stack source)) msgs
            ∙ hashed
                (λ m. store_label (b3.hash_one m 3 (key_of b3 cpu isa aes_stack sha_stack source)))
                blake3 (λ id p q. refl),
        (ensure_keys-IsReady b3 cpu isa aes_stack sha_stack st ready).2,
      )

  pub initial-IsReady : IsReady b3 cpu isa aes_stack sha_stack initial_hash_state
  initial-IsReady = (λ p. absurd cc, λ p. absurd cc)

  -- hash.c as graph.c sees it. The state between the calls does not show, so each call starts afresh.
  abbrev pub node_hash : NodeHash
  node_hash = record {
    label_node = λ s i p q sd d a.
        (hash_label_node b3 cpu isa aes_stack sha_stack s i p q sd d a initial_hash_state).0;
    label_node_many = λ s ids p0s p1s sd d a.
        (hash_label_node_many b3 cpu isa aes_stack sha_stack s ids p0s p1s sd d a
          initial_hash_state).0;
    graph_descriptor = hash_graph_descriptor b3 cpu isa aes_stack sha_stack;
    chunk_seed = hash_chunk_seed b3 cpu isa aes_stack sha_stack;
    label_node_many-eq-label_each = λ s ids p0s p1s sd d a small.
        (hash_label_node_many-hash_label_node s ids p0s p1s sd d a initial_hash_state
          initial_hash_state small initial-IsReady initial-IsReady).0;
  }
