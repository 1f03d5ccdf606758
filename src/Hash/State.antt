-- ===== src/Hash/State.antt =====
-- The keys, the cache and the buffers behind `pose_label_node`, and the groups of four of a batch.
use po_se_memory_wiping.Prelude.{
  ℕ, zero, suc, ◌≤◌, ◌≡◌, refl, ap, ap₂, ◌∙◌, Bool, true, false, if◌then◌else◌, Option, some, List,
  [], ◌∷◌, ◌++◌, map, length, take, drop, arith, length-drop, Bool-cases, inl, inr,
}
use po_se_memory_wiping.Label.{
  Bytes, Algo, blake3, sha256, aes_prf, LabelNode, PredArray, head_pred, tail_preds, label_each,
}
use po_se_memory_wiping.Prelude.Words.{Buffer}
use po_se_memory_wiping.Sha256.{sha256_hash}
use po_se_memory_wiping.Sha256.Spec.{sha256_reference}
use po_se_memory_wiping.Sha256.Padding.{sha256_hash-eq-sha256_reference}
use po_se_memory_wiping.Aes.{aes_msg_bytes, Isa, AesInstructions, KeyCache}
use po_se_memory_wiping.Aes.Cache.{IsCache}
use po_se_memory_wiping.Aes.Many.{aes_label, aes_prf_many-label_each}
use po_se_memory_wiping.Hash.Message.{length-build_node_msg}
use po_se_memory_wiping.Hash.{
  Blake3, HashState, src_context, int_context, build_node_msg, unless_source, store_label,
  first_label, ensure_keys, label_key, hash_label_node, drop_preds, aes_groups,
}

-- The SHA-256 of the message of a node, whatever the buffer of `pose_sha256` held.
pub sha256_node :
    (stack : Buffer 256) (id : ℕ) (p0 p1 : Option Bytes) (seed desc : Bytes)
    → sha256_hash stack.0 (build_node_msg id p0 p1 seed desc)
      ≡ sha256_reference (build_node_msg id p0 p1 seed desc)
sha256_node stack id p0 p1 seed desc =
    sha256_hash-eq-sha256_reference stack.0 (build_node_msg id p0 p1 seed desc) stack.1
      (omega (arith, length-build_node_msg id p0 p1 seed desc))
      (omega (arith, length-build_node_msg id p0 p1 seed desc))

module _ (b3 : Blake3) (cpu : AesInstructions) (isa : Isa) where
  -- The label of a node, from its arguments alone: no key or cache, and no
  -- buffer that the code does not initialize.
  unfoldable pub label_value : LabelNode
  label_value source id p0 p1 seed desc aes_prf =
      store_label (aes_label cpu isa source id p0 p1 seed desc aes_prf)
  label_value source id p0 p1 seed desc sha256 = store_label (
      sha256_reference
        (build_node_msg id (unless_source source p0) (unless_source source p1) seed desc))
  label_value source id p0 p1 seed desc blake3 = store_label (
      b3.hash_one (build_node_msg id (unless_source source p0) (unless_source source p1) seed desc)
        3 (if source then b3.derive_key src_context else b3.derive_key int_context))

module _ (b3 : Blake3) (cpu : AesInstructions) (isa : Isa)
    (aes_stack : ℕ → ℕ → Buffer aes_msg_bytes) (sha_stack : ℕ → Buffer 256) where
  -- The keys are derived where they are ready, and the cache holds the keys of its seed where it is valid.
  abbrev pub IsReady : HashState → Type 0
  IsReady st =
      (st.keys_ready ≡ true
        → (st.key_src ≡ b3.derive_key src_context) × (st.key_int ≡ b3.derive_key int_context))
      × IsCache st.cache

  pub ensure_keys-IsReady :
      (st : HashState)
      → IsReady st
      → ((ensure_keys b3 cpu isa aes_stack sha_stack st).key_src ≡ b3.derive_key src_context)
        × ((ensure_keys b3 cpu isa aes_stack sha_stack st).key_int ≡ b3.derive_key int_context)
        × IsReady (ensure_keys b3 cpu isa aes_stack sha_stack st)
  unfolding ensure_keys
  ensure_keys-IsReady st ready = elim (Bool-cases st.keys_ready) [
    | inl done ↦ rw done ((ready.0 done).0, (ready.0 done).1, (λ p. ready.0 done, ready.1))
    | inr not_yet ↦ rw not_yet (refl, refl, (λ p. (refl, refl), ready.1))
  ]

  abbrev pub key_of : Bool → List ℕ
  key_of source = if source then b3.derive_key src_context else b3.derive_key int_context

  pub label_key_lem :
      (source : Bool) (st : HashState)
      → IsReady st
      → label_key b3 cpu isa aes_stack sha_stack source
          (ensure_keys b3 cpu isa aes_stack sha_stack st)
        ≡ key_of source
  label_key_lem true st ready = (ensure_keys-IsReady st ready).0
  label_key_lem false st ready = (ensure_keys-IsReady st ready).1

  -- A source has no predecessors, whatever it is called with.
  aes_label-unless_source :
      (source : Bool) (id : ℕ) (p0 p1 : Option Bytes) (seed desc : Bytes)
      → aes_label cpu isa source id
          (unless_source source p0)
          (unless_source source p1)
          seed
          desc
          aes_prf
        ≡ aes_label cpu isa source id p0 p1 seed desc aes_prf
  unfolding aes_label
  aes_label-unless_source true id p0 p1 seed desc = refl
  aes_label-unless_source false id p0 p1 seed desc = refl

  -- If the keys are derived where they are ready and the cache holds the keys of its seed where it is valid,
  -- `pose_label_node` gives a label that depends on its arguments alone, not on the state and not on what
  -- the buffers of its callees held, and leaves such a state.
  pub hash_label_node-label_value :
      (source : Bool) (id : ℕ) (p0 p1 : Option Bytes) (seed desc : Bytes) (algo : Algo)
      (st : HashState)
      → IsReady st
      → ((hash_label_node b3 cpu isa aes_stack sha_stack source id p0 p1 seed desc algo st).0
          ≡ label_value b3 cpu isa source id p0 p1 seed desc algo)
        × IsReady
            (hash_label_node b3 cpu isa aes_stack sha_stack source id p0 p1 seed desc algo st).1
  unfolding hash_label_node label_value label_each
  hash_label_node-label_value source id p0 p1 seed desc aes_prf st ready =
      let r =
        aes_prf_many-label_each cpu isa (aes_stack 0) source (id ∷ [])
          (some (unless_source source p0 ∷ [])) (some (unless_source source p1 ∷ [])) seed desc
          aes_prf st.cache ready.1 in
      (
        ap (λ ls. store_label (first_label ls)) r.0
            ∙ ap store_label (aes_label-unless_source source id p0 p1 seed desc),
        (ready.0, r.1),
      )
  hash_label_node-label_value source id p0 p1 seed desc sha256 st ready = (
    ap store_label (
        sha256_node (sha_stack 0) id (unless_source source p0) (unless_source source p1) seed desc),
    ready,
  )
  hash_label_node-label_value source id p0 p1 seed desc blake3 st ready = (
    ap (λ ls. store_label (first_label ls))
          (b3.hash_many-eq-map
            (build_node_msg id (unless_source source p0) (unless_source source p1) seed desc ∷ []) 3
            _)
        ∙ ap
            (λ k. store_label (
              b3.hash_one
                (build_node_msg id (unless_source source p0) (unless_source source p1) seed desc) 3
                k))
            (label_key_lem source st ready),
    (ensure_keys-IsReady st ready).2,
  )

  label_each-append :
      (f : LabelNode) (source : Bool) (n : ℕ) (ids : List ℕ) (p0s p1s : PredArray)
      (seed desc : Bytes) (algo : Algo)
      → label_each f source (take n ids) p0s p1s seed desc algo
          ++ label_each f source
              (drop n ids)
              (drop_preds b3 cpu isa aes_stack sha_stack n p0s)
              (drop_preds b3 cpu isa aes_stack sha_stack n p1s)
              seed
              desc
              algo
        ≡ label_each f source ids p0s p1s seed desc algo
  unfolding label_each drop_preds
  label_each-append f source zero ids p0s p1s seed desc algo = refl
  label_each-append f source (suc n) [] p0s p1s seed desc algo = refl
  label_each-append f source (suc n) (id ∷ ids) p0s p1s seed desc algo =
      ap (λ r. f source id (head_pred p0s) (head_pred p1s) seed desc algo ∷ r)
        (label_each-append f source n ids (tail_preds p0s) (tail_preds p1s) seed desc algo)

  pub map-label_each :
      (g : Bytes → Bytes) (f : LabelNode) (source : Bool) (ids : List ℕ) (p0s p1s : PredArray)
      (seed desc : Bytes) (algo : Algo)
      → map g (label_each f source ids p0s p1s seed desc algo)
        ≡ label_each (λ s i p q sd d a. g (f s i p q sd d a)) source ids p0s p1s seed desc algo
  unfolding label_each
  map-label_each g f source [] p0s p1s seed desc algo = refl
  map-label_each g f source (id ∷ ids) p0s p1s seed desc algo =
      ap (λ r. g (f source id (head_pred p0s) (head_pred p1s) seed desc algo) ∷ r)
        (map-label_each g f source ids (tail_preds p0s) (tail_preds p1s) seed desc algo)

  -- Groups of four, with enough fuel.
  pub aes_groups_lem :
      (fuel : ℕ) (source : Bool) (ids : List ℕ) (p0s p1s : PredArray) (seed desc : Bytes)
      (cache : KeyCache)
      → length ids ≤ fuel
      → IsCache cache
      → ((aes_groups b3 cpu isa aes_stack sha_stack fuel source ids p0s p1s seed desc cache).0
          ≡ label_each (aes_label cpu isa) source ids p0s p1s seed desc aes_prf)
        × IsCache
            (aes_groups b3 cpu isa aes_stack sha_stack fuel source ids p0s p1s seed desc cache).1
  unfolding aes_groups label_each
  aes_groups_lem fuel source [] p0s p1s seed desc cache enough holds = (refl, holds)
  aes_groups_lem zero source (id ∷ ids) p0s p1s seed desc cache enough holds = absurd (omega arith)
  aes_groups_lem (suc fuel) source (id ∷ ids) p0s p1s seed desc cache enough holds =
      let now =
        aes_prf_many-label_each cpu isa (aes_stack (suc fuel)) source (take 4 (id ∷ ids)) p0s p1s
          seed desc aes_prf cache holds in
      let rest =
        aes_groups_lem fuel source (drop 4 (id ∷ ids))
          (drop_preds b3 cpu isa aes_stack sha_stack 4 p0s)
          (drop_preds b3 cpu isa aes_stack sha_stack 4 p1s) seed desc _
          (omega (arith, length-drop 4 (id ∷ ids))) now.1 in
      (
        ap₂ ◌++◌ now.0 rest.0
            ∙ label_each-append (aes_label cpu isa) source 4 (id ∷ ids) p0s p1s seed desc aes_prf,
        rest.1,
      )
