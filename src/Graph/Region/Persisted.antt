-- ===== src/Graph/Region/Persisted.antt =====
-- The in-place region labeler persists, in every whole chunk, the labels that the verifier computes.
use po_se_memory_wiping.Prelude.{
  ℕ, ◌+◌, ◌-◌, ◌*◌, ◌/◌, ◌%◌, ◌≤◌, ◌<◌, ◌≡◌, refl, sym, ap, ◌∙◌, Bool, true, ltb, if◌then◌else◌, [],
  min, arith, Bool-cases, inl, inr, ltb→lt,
}
use native.Mathlib.Decide.{dec_lt}
use native.Mathlib.Nat.{mul-le-mul_right}
use po_se_memory_wiping.Label.{Bytes, Algo, NodeHash, hash_bytes}
use po_se_memory_wiping.Graph.Counts.{graph_max_m, resolve_chunk_blocks}
use po_se_memory_wiping.Graph.Chunk.{done, failed, graph_challenge}
use po_se_memory_wiping.Graph.Chunk.Output.{in_range, do_label_inplace_in}
use po_se_memory_wiping.Graph.Chunk.Verifier.{graph_challenge-do_label_inplace}
use po_se_memory_wiping.Graph.Region.{Labelling, label_region_pooled_inplace}
use po_se_memory_wiping.Graph.Region.Chunks.{labels_of_chunk, Labelled}
use po_se_memory_wiping.Graph.Region.Rounds.{resolve_pos, good_region}
use po_se_memory_wiping.Graph.Region.Super.{supers, supers_lem}

module _ (h : NodeHash) (session_seed : Bytes) (offset : ℕ) (algo : Algo) (scratch : ℕ → ℕ → Bytes)
    (region_len chunk_blocks : ℕ) (region : ℕ → Bytes) (pos : 1 ≤ region_len)
    (whole : region_len % hash_bytes ≡ 0)
    (small : resolve_chunk_blocks chunk_blocks ≤ graph_max_m) where
  abbrev cb : ℕ
  cb = resolve_chunk_blocks chunk_blocks

  abbrev total : ℕ
  total = region_len / hash_bytes

  abbrev LabelledTo : ℕ → (ℕ → Bytes) → Type 0
  LabelledTo =
      Labelled h session_seed offset algo scratch cb total (resolve_pos chunk_blocks) small region

  -- How a run ends: after some chunk `k` no whole chunk is left.
  ends :
      (k : ℕ) × (region' : ℕ → Bytes) × (label_region_pooled_inplace h session_seed offset algo
          scratch true region_len chunk_blocks region
        ≡ (region', done tt))
      × (total < k * cb + cb)
      × LabelledTo k region'
  unfolding label_region_pooled_inplace
  ends = elim (Bool-cases (ltb region_len (cb * hash_bytes))) [
    | inl less ↦ (
      0,
      region,
      rw (good_region region_len pos whole, less) refl,
      omega (arith, ltb→lt region_len (cb * hash_bytes) less),
      nothing_yet,
    )
    | inr enough ↦
        let run =
          supers_lem h session_seed offset algo scratch cb total (resolve_pos chunk_blocks) small
            region total 0 region nothing_yet (omega arith) in
        (
          run.0,
          run.1,
          ap (λ b. if b then (region, failed) else tested (ltb region_len (cb * hash_bytes)))
                (good_region region_len pos whole)
              ∙ ap tested enough
              ∙ ap (λ b. rounds_at b) start
              ∙ run.2,
          run.3,
          run.4,
        )
  ]
    where
      rounds_at : ℕ → Labelling
      rounds_at block =
          supers h session_seed offset algo scratch cb total (resolve_pos chunk_blocks) small total
            block region

      tested : Bool → Labelling
      tested b = if b then (region, done tt) else rounds_at 0

      start : 0 ≡ 0 * cb
      start = omega arith

      nothing_yet :
          Labelled h session_seed offset algo scratch cb total
            (resolve_pos chunk_blocks)
            small
            region
            0
            region
      nothing_yet = (λ j i lt. absurd (omega arith), λ b le. refl)

  -- If the region is a positive number of whole 32-byte blocks and chunks have at most 2^20 blocks,
  -- `pose_graph_label_region_pooled_inplace` comes to its end and returns 0.
  pub label_region_pooled_inplace_total :
      (region' : ℕ → Bytes) × (label_region_pooled_inplace h session_seed offset algo scratch true
          region_len chunk_blocks region
        ≡ (region', done tt))
  label_region_pooled_inplace_total = (ends.1, ends.2)

  -- If the region is a positive number of whole 32-byte blocks, chunks have at most 2^20 blocks,
  -- and `pose_graph_label_region_pooled_inplace` returns 0 and leaves `region'`, then for every
  -- whole chunk `k` of the region and every position `i` in it, `pose_graph_challenge`, given
  -- memory, with the seed of chunk index `(offset + k * chunk_blocks) / chunk_blocks` and
  -- `chunk_blocks` blocks, returns for `i` the block of `region'` at `k * chunk_blocks + i`.
  pub graph_challenge-label_region_pooled_inplace :
      (region' : ℕ → Bytes) (k i : ℕ) (labels_buf : ℕ → Bytes)
      → label_region_pooled_inplace h session_seed offset algo scratch true region_len chunk_blocks
          region
        ≡ (region', done tt)
      → k * resolve_chunk_blocks chunk_blocks + resolve_chunk_blocks chunk_blocks
        ≤ region_len / hash_bytes
      → i < resolve_chunk_blocks chunk_blocks
      → graph_challenge h true
          (h.chunk_seed session_seed
            ((offset + k * resolve_chunk_blocks chunk_blocks) / resolve_chunk_blocks chunk_blocks))
          (resolve_chunk_blocks chunk_blocks)
          i
          labels_buf
          algo
        ≡ done (region' (k * resolve_chunk_blocks chunk_blocks + i))
  graph_challenge-label_region_pooled_inplace region' k i labels_buf run fits lt =
      ap (λ b. graph_challenge h true seed b i labels_buf algo) blocks
      ∙ graph_challenge-do_label_inplace h seed (min cb (total - k * cb)) algo labels_buf
          (labels_of_chunk h session_seed offset algo scratch cb total (resolve_pos chunk_blocks)
            small k)
          i
          (do_label_inplace_in h seed (min cb (total - k * cb)) algo (λ i. [])
            (in_range (min cb (total - k * cb)) (omega arith) (omega arith)))
          (omega arith)
      ∙ ap done (
          sym (ends.4.0 k i reached (omega arith))
          ∙ ap (λ (r : Labelling). r.0 (k * cb + i)) (sym ends.2 ∙ run))
    where
      seed : Bytes
      seed = h.chunk_seed session_seed ((offset + k * cb) / cb)

      blocks : cb ≡ min cb (total - k * cb)
      blocks = omega arith

      reached : k < ends.0
      reached = elim (dec_lt k ends.0) [
        | yes r ↦ r
        | no beyond ↦
            absurd (omega (arith, ends.3, mul-le-mul_right {m = ends.0} {n = k} cb (omega arith)))
      ]
