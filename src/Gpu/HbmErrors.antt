-- ===== src/Gpu/HbmErrors.antt =====
-- What `pose_graph_label_hbm` rejects.
use po_se_memory_wiping.Prelude.{
  ℕ, ◌-◌, ◌*◌, ◌/◌, ◌^◌, ◌≤◌, ◌<◌, ◌≡◌, refl, inl, inr, true, ◌⊎◌, Bool, false, ◌||◌, ltb, ◌==◌,
  Bool-cases, List, arith,
}
use po_se_memory_wiping.Label.{Bytes, Algo, NodeHash, hash_bytes}
use po_se_memory_wiping.Graph.Counts.{graph_max_m, resolve_chunk_blocks}
use po_se_memory_wiping.Graph.Chunk.{failed, out_of_range}
use po_se_memory_wiping.Graph.Edges.{graph_edges}
use po_se_memory_wiping.Gpu.{GpuHash, Device}
use po_se_memory_wiping.Gpu.Topology.{Strategy, not_blake3, build_at, topo_build}
use po_se_memory_wiping.Gpu.Driver.{CudaRuntime, label_hbm}
use po_se_memory_wiping.Gpu.HbmRuns.{resolve_again}

module _ (h : NodeHash) (gh : GpuHash h) (strategy : Strategy) (cuda : CudaRuntime)
    (turns : ℕ → ℕ → List ℕ) (raw slot_out : ℕ → ℕ) (session_seed : Bytes)
    (chunk_blocks hbm_len offset : ℕ) (d : Device) where
  large_lem :
      (host upload : Bool) (algo : Algo) (cb : ℕ)
      → graph_max_m < cb
      → build_at h gh strategy host upload cb algo raw slot_out ≡ failed
  unfolding build_at graph_edges
  large_lem host upload algo cb large =
      elim (Bool-cases (not_blake3 algo || (cb == 0 || ltb (2 ^ 32 - 1) cb))) [
        | inl e ↦ rw e refl
        | inr e ↦ rw (e, too_large) refl
      ]
    where
      too_large : out_of_range cb ≡ true
      too_large = ground arith

  -- `pose_graph_label_hbm`, for every strategy and device, whether memory can be allocated or not, returns -1
  -- and changes nothing if the algorithm is not BLAKE3, or if chunks have more than 2^20 blocks and the
  -- buffer holds a whole chunk.
  pub label_hbm_failed :
      (host upload : Bool) (algo : Algo)
      → (not_blake3 algo ≡ true)
        ⊎ ((graph_max_m < resolve_chunk_blocks chunk_blocks)
            × (1 ≤ hbm_len / (resolve_chunk_blocks chunk_blocks * hash_bytes)))
      → label_hbm h gh strategy cuda turns host upload raw slot_out session_seed chunk_blocks
          hbm_len offset algo d
        ≡ (d, failed)
  unfolding label_hbm topo_build
  label_hbm_failed host upload algo (inl e) = rw e refl
  label_hbm_failed host upload algo (inr (large, fits)) =
      elim (Bool-cases (not_blake3 algo || (cb == 0 || ltb (2 ^ 32 - 1) cb))) [
        | inl e ↦ rw e refl
        | inr e ↦
            rw (e, some_super, large_lem host upload algo (resolve_chunk_blocks cb) large_again)
              refl
      ]
    where
      cb : ℕ
      cb = resolve_chunk_blocks chunk_blocks

      large_again : graph_max_m < resolve_chunk_blocks cb
      large_again = omega (arith, large, resolve_again chunk_blocks)

      some_super : (hbm_len / (cb * hash_bytes) == 0) ≡ false
      some_super = ground arith
