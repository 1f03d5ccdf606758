-- ===== src/Gpu/Hbm.antt =====
-- `pose_graph_label_hbm` of label_gpu_common.cu, from the buffer to the labels in it.
use mathlib.Core.Path.{subst}
use native.Mathlib.Nat.{mul-le-mul_right}
use po_se_memory_wiping.Prelude.{
  ℕ, suc, ◌+◌, ◌*◌, ◌/◌, ◌%◌, ◌≤◌, ◌<◌, ◌≡◌, sym, ap, ◌∙◌, true, List, [], arith,
}
use po_se_memory_wiping.Label.{Bytes, blake3, NodeHash, hash_bytes}
use po_se_memory_wiping.Graph.Counts.{graph_max_m, resolve_chunk_blocks, scratch_node_count}
use po_se_memory_wiping.Graph.Chunk.{done, graph_challenge}
use po_se_memory_wiping.Graph.Region.{label_region_pooled_inplace}
use po_se_memory_wiping.Graph.Region.Persisted.{graph_challenge-label_region_pooled_inplace}
use po_se_memory_wiping.Graph.Region.Rounds.{resolve_pos}
use po_se_memory_wiping.Gpu.{GpuHash, Device}
use po_se_memory_wiping.Gpu.Topology.{Strategy}
use po_se_memory_wiping.Gpu.Driver.{CudaRuntime, GpuResult, label_hbm}
use po_se_memory_wiping.Gpu.Runs.{IsHealthy, IsDone}
use po_se_memory_wiping.Gpu.Strategies.{FairRun}
use po_se_memory_wiping.Gpu.HbmRuns

module _ (h : NodeHash) (gh : GpuHash h) (strategy : Strategy) (cuda : CudaRuntime)
    (healthy : IsHealthy cuda) (turns : ℕ → ℕ → List ℕ) (raw slot_out : ℕ → ℕ)
    (session_seed : Bytes) (chunk_blocks hbm_len offset : ℕ)
    (small : resolve_chunk_blocks chunk_blocks ≤ graph_max_m)
    (fair : FairRun strategy cuda (scratch_node_count (resolve_chunk_blocks chunk_blocks)) turns)
    (d : Device) where
  abbrev cb : ℕ
  cb = resolve_chunk_blocks chunk_blocks

  pos : 1 ≤ cb
  pos = resolve_pos chunk_blocks

  abbrev num_super : ℕ
  num_super = hbm_len / (cb * hash_bytes)

  abbrev labels : ℕ → ℕ → Bytes
  labels =
      HbmRuns.labels h gh strategy cuda healthy turns raw slot_out session_seed chunk_blocks hbm_len
        offset small fair d

  -- For every strategy, on a device that answers, with schedules that give every thread turns enough, and
  -- chunks of at most 2^20 blocks, `pose_graph_label_hbm` with BLAKE3, given memory, comes to its end and
  -- returns 0.
  pub label_hbm_total :
      (d' : Device) × (label_hbm h gh strategy cuda turns true true raw slot_out session_seed
          chunk_blocks hbm_len offset blake3 d
        ≡ (d', done tt))
  label_hbm_total =
      let r =
        HbmRuns.hbm_done h gh strategy cuda healthy turns raw slot_out session_seed chunk_blocks
          hbm_len offset small fair d strategy fair in
      (r.0, r.1)

  module _ (d' : Device)
      (run : label_hbm h gh strategy cuda turns true true raw slot_out session_seed chunk_blocks
          hbm_len offset blake3 d
        ≡ (d', done tt)) where
    persisted : IsDone cb labels 0 num_super d.persist d'.persist
    persisted =
        let r =
          HbmRuns.hbm_done h gh strategy cuda healthy turns raw slot_out session_seed chunk_blocks
            hbm_len offset small fair d strategy fair in
        subst (λ p. IsDone cb labels 0 num_super d.persist p)
          (ap (λ (p : GpuResult). p.0.persist) (sym r.1 ∙ run)) r.2

    -- For every strategy, on a device that answers, with schedules that give every thread turns enough, and
    -- chunks of at most 2^20 blocks: when `pose_graph_label_hbm` with BLAKE3, given memory, returns 0, then
    -- for every whole chunk `j` of the buffer and every rank `r` in it `pose_graph_challenge`, given memory,
    -- with the seed of chunk index `(offset + j * chunk_blocks) / chunk_blocks`, returns for `r` the
    -- block of the buffer at `j * chunk_blocks + r`.
    pub graph_challenge-label_hbm :
        (j r : ℕ) (labels_buf : ℕ → Bytes)
        → j < hbm_len / (resolve_chunk_blocks chunk_blocks * hash_bytes)
        → r < resolve_chunk_blocks chunk_blocks
        → graph_challenge h true
            (h.chunk_seed session_seed (
              (offset + j * resolve_chunk_blocks chunk_blocks) / resolve_chunk_blocks chunk_blocks))
            (resolve_chunk_blocks chunk_blocks)
            r
            labels_buf
            blake3
          ≡ done (d'.persist (j * resolve_chunk_blocks chunk_blocks + r))
    graph_challenge-label_hbm j r labels_buf lj lr =
        HbmRuns.challenge_of h gh strategy cuda healthy turns raw slot_out session_seed chunk_blocks
          hbm_len offset small fair d j r labels_buf lr
        ∙ ap done (sym (persisted.label j r (omega arith) lj lr))

    -- For every strategy, on a device that answers, with schedules that give every thread turns enough, and
    -- chunks of at most 2^20 blocks: when `pose_graph_label_hbm` with BLAKE3, given memory, returns 0 for a
    -- buffer of a positive number of whole blocks, and `pose_graph_label_region_pooled_inplace` returns 0
    -- for a region of that length, with the same seed, chunk size and offset, then both hold the same
    -- blocks in every whole chunk.
    pub label_hbm-eq-label_region_pooled_inplace :
        (scratch : ℕ → ℕ → Bytes) (region region' : ℕ → Bytes) (j r : ℕ)
        → 1 ≤ hbm_len
        → hbm_len % hash_bytes ≡ 0
        → label_region_pooled_inplace h session_seed offset blake3 scratch true hbm_len chunk_blocks
            region
          ≡ (region', done tt)
        → j < hbm_len / (resolve_chunk_blocks chunk_blocks * hash_bytes)
        → r < resolve_chunk_blocks chunk_blocks
        → d'.persist (j * resolve_chunk_blocks chunk_blocks + r)
          ≡ region' (j * resolve_chunk_blocks chunk_blocks + r)
    label_hbm-eq-label_region_pooled_inplace scratch region region' j r some_len whole cpu lj lr =
        same (
          sym (graph_challenge-label_hbm j r (λ id. []) lj lr)
          ∙ graph_challenge-label_region_pooled_inplace h session_seed offset blake3 scratch hbm_len
              chunk_blocks region some_len whole small region' j r (λ id. []) cpu fits lr)
      where
        same : {a b : Bytes} → done a ≡ done b → a ≡ b
        same p = cc

        fits : j * cb + cb ≤ hbm_len / hash_bytes
        fits =
            let size : 0 < cb * hash_bytes = omega (arith, pos) in
            let chunks : suc j * (cb * hash_bytes) ≤ num_super * (cb * hash_bytes) =
              mul-le-mul_right {m = suc j} {n = num_super} (cb * hash_bytes) (omega arith) in
            let all : num_super * (cb * hash_bytes) ≤ hbm_len = omega (arith, size) in
            let blocks : suc j * (cb * hash_bytes) ≡ (j * cb + cb) * hash_bytes = omega arith in
            omega (arith, chunks, all, blocks)
