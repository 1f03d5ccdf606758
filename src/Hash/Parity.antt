-- ===== src/Hash/Parity.antt =====
-- The graph of a prover and that of a verifier on another processor, with hash.c and aes_prf.c behind both.
use po_se_memory_wiping.Prelude.{
  ℕ, ◌+◌, ◌≡◌, ◌≢◌, refl, sym, ap, ◌∙◌, Bool, true, false, Option, none, some, List, [], ◌∷◌, map,
  update, Bool-cases, inl, inr,
}
use po_se_memory_wiping.Label.{Bytes, Algo, blake3, sha256, aes_prf, LabelNode, NodeHash}
use po_se_memory_wiping.Prelude.Words.{Buffer}
use po_se_memory_wiping.Aes.{aes_msg_bytes, arm, x86, AesInstructions}
use po_se_memory_wiping.Aes.Many.{aes_label_same}
use po_se_memory_wiping.Hash.{Blake3, store_label, hash_graph_descriptor}
use po_se_memory_wiping.Hash.State.{label_value, hash_label_node-label_value}
use po_se_memory_wiping.Hash.Instance.{initial_hash_state, initial-IsReady, node_hash}
use po_se_memory_wiping.Graph.Counts.{parameter_n}
use po_se_memory_wiping.Graph.Emitter.Spec.{Preds, source, one, two, label_of, fill}
use po_se_memory_wiping.Graph.Chunk.{done, out_of_range, do_label, do_label_inplace}
use po_se_memory_wiping.Graph.Chunk.Run.{graph_nodes}
use po_se_memory_wiping.Graph.Chunk.Output.{
  challenge_set, node_labels, do_label_in, do_label_out, do_label_inplace-eq-do_label,
}

-- The labels depend on the hash through `label_node` alone.
fill-label_node :
    (h h' : NodeHash) (seed desc : Bytes) (algo : Algo)
    → h.label_node ≡ h'.label_node
    → (l : ℕ → Bytes) (id : ℕ) (ps : List Preds)
    → fill h seed desc algo l id ps ≡ fill h' seed desc algo l id ps
unfolding fill
fill-label_node h h' seed desc algo same l id [] = refl
fill-label_node h h' seed desc algo same l id (p ∷ ps) =
    ap (λ v. fill h seed desc algo (update l id v) (id + 1) ps) (label p)
    ∙ fill-label_node h h' seed desc algo same (update l id (label_of h' seed desc algo l id p))
        (id + 1) ps
  where
    label : (p : Preds) → label_of h seed desc algo l id p ≡ label_of h' seed desc algo l id p
    label source = ap (λ (f : LabelNode). f true id none none seed desc algo) same
    label (one a) = ap (λ (f : LabelNode). f false id (some (l a)) none seed desc algo) same
    label (two a b) =
        ap (λ (f : LabelNode). f false id (some (l a)) (some (l b)) seed desc algo) same

module _ (b3 : Blake3) (cpu : AesInstructions) (aes_stack aes_stack' : ℕ → ℕ → Buffer aes_msg_bytes)
    (sha_stack sha_stack' : ℕ → Buffer 256) where
  label_value_same :
      (is_source : Bool) (id : ℕ) (p q : Option Bytes) (seed desc : Bytes) (algo : Algo)
      → label_value b3 cpu x86 is_source id p q seed desc algo
        ≡ label_value b3 cpu arm is_source id p q seed desc algo
  unfolding label_value
  label_value_same is_source id p q seed desc aes_prf =
      ap store_label (aes_label_same cpu is_source id p q seed desc aes_prf)
  label_value_same is_source id p q seed desc sha256 = refl
  label_value_same is_source id p q seed desc blake3 = refl

  pub label_node_same :
      (is_source : Bool) (id : ℕ) (p q : Option Bytes) (seed desc : Bytes) (algo : Algo)
      → (node_hash b3 cpu x86 aes_stack sha_stack).label_node is_source id p q seed desc algo
        ≡ (node_hash b3 cpu arm aes_stack' sha_stack').label_node is_source id p q seed desc algo
  label_node_same is_source id p q seed desc algo =
      (hash_label_node-label_value b3 cpu x86 aes_stack sha_stack is_source id p q seed desc algo
        initial_hash_state (initial-IsReady b3 cpu x86 aes_stack sha_stack)).0
      ∙ label_value_same is_source id p q seed desc algo
      ∙ sym
          (hash_label_node-label_value b3 cpu arm aes_stack' sha_stack' is_source id p q seed desc
            algo initial_hash_state (initial-IsReady b3 cpu arm aes_stack' sha_stack')).0

  label_nodes :
      (node_hash b3 cpu x86 aes_stack sha_stack).label_node
      ≡ (node_hash b3 cpu arm aes_stack' sha_stack').label_node
  label_nodes = λ i s id p q sd d a. label_node_same s id p q sd d a i

  -- For BLAKE3 and the AES PRF, with the code of hash.c and aes_prf.c behind the graph, `do_label_inplace` on x86
  -- gives what `do_label` gives on ARM, for every seed and every `m`, whatever the label buffer and the
  -- uninitialized buffers of either machine held.
  pub do_label_inplace_x86-eq-do_label_arm :
      (seed : Bytes) (m : ℕ) (labels_buf : ℕ → Bytes) (algo : Algo)
      → algo ≢ sha256
      → do_label_inplace (node_hash b3 cpu x86 aes_stack sha_stack) seed m algo
        ≡ do_label (node_hash b3 cpu arm aes_stack' sha_stack') seed m labels_buf algo
  unfolding node_labels hash_graph_descriptor
  do_label_inplace_x86-eq-do_label_arm seed m labels_buf algo other =
      do_label_inplace-eq-do_label on_x86 seed m algo labels_buf ∙ both
    where
      on_x86 : NodeHash
      on_x86 = node_hash b3 cpu x86 aes_stack sha_stack

      on_arm : NodeHash
      on_arm = node_hash b3 cpu arm aes_stack' sha_stack'

      labels : node_labels on_x86 seed m algo labels_buf ≡ node_labels on_arm seed m algo labels_buf
      labels =
          fill-label_node on_x86 on_arm seed (on_arm.graph_descriptor m (parameter_n m)) algo
            label_nodes labels_buf 0 (graph_nodes m)

      both : do_label on_x86 seed m labels_buf algo ≡ do_label on_arm seed m labels_buf algo
      both = elim (Bool-cases (out_of_range m)) [
        | inl e ↦
            do_label_out on_x86 seed m algo labels_buf e
            ∙ sym (do_label_out on_arm seed m algo labels_buf e)
        | inr e ↦
            do_label_in on_x86 seed m algo labels_buf e
            ∙ ap (λ l. done (map l (challenge_set m))) labels
            ∙ sym (do_label_in on_arm seed m algo labels_buf e)
      ]
