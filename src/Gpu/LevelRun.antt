-- ===== src/Gpu/LevelRun.antt =====
-- `label_gpu_run` of the level strategy, wave by wave.
use mathlib.Core.Path.{subst}
use native.Mathlib.Nat.{mul-le-mul}
use po_se_memory_wiping.Prelude.{
  ℕ, ◌+◌, ◌*◌, ◌^◌, ◌≤◌, ◌<◌, ◌≡◌, refl, sym, inl, inr, true, false, ltb, ltb→lt, if◌then◌else◌,
  Bool-cases, List, arith,
}
use po_se_memory_wiping.Label.{Bytes, NodeHash, hash_bytes}
use po_se_memory_wiping.Graph.Emitter.{Node}
use po_se_memory_wiping.Graph.Chunk.{done}
use po_se_memory_wiping.Graph.Edges.{graph_edges}
use po_se_memory_wiping.Gpu.{Topo, GpuContext, GpuHash, Device, extract_ranks, extract_outputs}
use po_se_memory_wiping.Gpu.Topology.{level_strategy, topo_of}
use po_se_memory_wiping.Gpu.Driver.{
  CudaRuntime, GpuResult, first_pool, batch_chunks, level_wave, label_gpu_level,
}
use po_se_memory_wiping.Gpu.Plan.{topo}
use po_se_memory_wiping.Gpu.Places.{level_count-le}
use po_se_memory_wiping.Gpu.Chunks.{IsPersisted}
use po_se_memory_wiping.Gpu.Runs.{
  first_pool_pos, first_pool_le, IsHealthy, IsDone, batch_chunks-IsDone, run_pool_lem,
}
use po_se_memory_wiping.Gpu.Items.{IsFair-le, grid_fits}
use po_se_memory_wiping.Gpu.Waves.{Labelled, all_levels_lem, each_level_lem}
use po_se_memory_wiping.Gpu.Outputs.{extract_ranks-IsPersisted, extract_outputs-batch_chunks}
use po_se_memory_wiping.Gpu.Strategies
use po_se_memory_wiping.Gpu.Strategies.{FairRun}

module _ (h : NodeHash) (gh : GpuHash h) (cb : ℕ) (nodes : ℕ → Node) (count : ℕ)
    (edges : graph_edges h true true cb ≡ done (nodes, count)) (raw slot : ℕ → ℕ) (pool_size : ℕ)
    (session_seed : Bytes) (offset num_super : ℕ) where
  abbrev t : Topo
  t = topo h gh cb nodes count edges raw slot pool_size

  abbrev ctx : GpuContext
  ctx = Strategies.ctx h gh cb nodes count edges raw slot pool_size session_seed offset num_super

  abbrev chunk_labels : ℕ → ℕ → Bytes
  chunk_labels =
      Strategies.chunk_labels h gh cb nodes count edges raw slot pool_size session_seed offset
        num_super

  abbrev seeds : ℕ → ℕ → Bytes
  seeds =
      Strategies.seeds h gh cb nodes count edges raw slot pool_size session_seed offset num_super

  abbrev bases : ℕ → ℕ → ℕ
  bases =
      Strategies.bases h gh cb nodes count edges raw slot pool_size session_seed offset num_super

  abbrev IsLabelledBy : Device → GpuResult → ℕ → Type 0
  IsLabelledBy =
      Strategies.IsLabelledBy h gh cb nodes count edges raw slot pool_size session_seed offset
        num_super

  module _ (cuda : CudaRuntime) (healthy : IsHealthy cuda) where
    -- A wave of the level strategy.
    module _ (small : count < 2 ^ 32) (few_blocks : cb < 2 ^ 32) (turns : ℕ → ℕ → List ℕ)
        (fair : FairRun level_strategy cuda count turns) where
      abbrev grid : ℕ
      grid = if cuda.cooperative then cuda.num_sm * cuda.blocks_per_sm else 0

      grid_bound : grid ≤ cuda.num_sm * cuda.blocks_per_sm
      grid_bound = ground arith

      wave_bound : (w k : ℕ) → w ≤ 64 → t.level_count k * w ≤ count * 64
      wave_bound w k few =
          mul-le-mul (level_count-le h gh cb nodes count edges raw slot pool_size k) few

      wave_copied :
          (base w : ℕ) (some_chunk : 1 ≤ w) (e e' : Device)
          → Labelled h gh cb nodes count edges raw slot pool_size
              (seeds base)
              (bases base)
              w
              some_chunk
              e'
          → e'.persist ≡ e.persist
          → IsDone cb chunk_labels base
              (base + w)
              e.persist
              (extract_outputs h gh t (seeds base) (bases base) w 0 e').persist
      unfolding topo_of
      wave_copied base w some_chunk e e' labelled same =
          let starts : base + 0 ≡ base = omega arith in
          let ends : base + (0 + w) ≡ base + w = omega arith in
          let Copies = λ (lo hi : ℕ) (old : ℕ → Bytes) (d : Device).
            IsDone cb chunk_labels lo hi old d.persist in
          subst (λ old. Copies base (base + w) old copied_out) same
            (subst (λ d. Copies base (base + w) e'.persist d)
              (sym (
                extract_outputs-batch_chunks h gh cb nodes count edges raw slot pool_size
                  (seeds base) (bases base) w some_chunk w 0 e'))
              (subst (λ k. Copies base k e'.persist chunks) ends
                (subst (λ k. Copies k (base + (0 + w)) e'.persist chunks) starts
                  (batch_chunks-IsDone cb chunk_labels Kept
                    (λ b. extract_ranks h gh t (seeds base) (bases base) b cb 0) base w 0 e'
                    (λ c d le lt keep.
                      let r =
                        extract_ranks-IsPersisted h gh cb nodes count edges raw slot pool_size
                          (seeds base) (bases base) w some_chunk c d (omega arith) keep in
                      (
                        subst
                            (λ x.
                              IsPersisted cb x (chunk_labels (base + c)) d.persist
                                (extract_ranks h gh t (seeds base) (bases base) c cb 0 d).persist)
                            (Strategies.bases_lem h gh cb nodes count edges raw slot pool_size
                              session_seed offset num_super base c)
                            r.0,
                        r.1,
                      ))
                    labelled))))
        where
          Kept : Device → Type 0
          Kept =
              Labelled h gh cb nodes count edges raw slot pool_size (seeds base) (bases base) w
                some_chunk

          copied_out : Device
          copied_out = extract_outputs h gh t (seeds base) (bases base) w 0 e'

          chunks : Device
          chunks = batch_chunks (λ b. extract_ranks h gh t (seeds base) (bases base) b cb 0) w 0 e'

      grid_wave :
          (base w : ℕ) (e : Device)
          → 1 ≤ w
          → w ≤ 64
          → ltb 0 grid ≡ true
          → ((level_wave h gh ctx cuda (turns base) base w e).1 ≡ true)
            × IsDone cb chunk_labels base
                (base + w)
                e.persist
                (level_wave h gh ctx cuda (turns base) base w e).0.persist
      unfolding level_wave topo_of
      grid_wave base w e some_chunk few has_grid =
          let r =
            all_levels_lem h gh cb nodes count edges raw slot pool_size (seeds base) (bases base) w
              some_chunk (grid * 256) (turns base) e (omega (arith, ltb→lt 0 grid has_grid))
              (λ k lt.
                IsFair-le (grid * 256) (t.level_count k * w)
                  (cuda.num_sm * cuda.blocks_per_sm * 256 + count * 64) (count * 64) (turns base k)
                  (omega (arith, grid_bound)) (wave_bound w k few) (fair base k)) in
          rw (has_grid, grid_fits cb w few_blocks few)
            (refl, wave_copied base w some_chunk e _ r.0 r.1)

      each_wave :
          (base w : ℕ) (e : Device)
          → 1 ≤ w
          → w ≤ 64
          → ltb 0 grid ≡ false
          → ((level_wave h gh ctx cuda (turns base) base w e).1 ≡ true)
            × IsDone cb chunk_labels base
                (base + w)
                e.persist
                (level_wave h gh ctx cuda (turns base) base w e).0.persist
      unfolding level_wave topo_of
      each_wave base w e some_chunk few no_grid =
          let r =
            each_level_lem h gh cb nodes count edges raw slot pool_size (seeds base) (bases base) w
              some_chunk (turns base) e small few
              (λ k lt.
                IsFair-le (t.level_count k * w) (t.level_count k * w)
                  (cuda.num_sm * cuda.blocks_per_sm * 256 + count * 64) (count * 64) (turns base k)
                  (omega (arith, wave_bound w k few)) (wave_bound w k few) (fair base k)) in
          rw (no_grid, r.0, grid_fits cb w few_blocks few)
            (refl, wave_copied base w some_chunk e _ r.1 r.2)

      pub level_run : (d : Device) → IsLabelledBy d (label_gpu_level h gh ctx cuda turns d) count
      unfolding label_gpu_level topo_of
      level_run d =
          let first_try = first_pool cuda.free_b (count * hash_bytes) 64 num_super in
          let r =
            run_pool_lem cb chunk_labels cuda healthy
              (λ base. level_wave h gh ctx cuda (turns base) base) num_super 64
              (λ base bc e fits some_chunk few. elim (Bool-cases (ltb 0 grid)) [
                | inl e' ↦ grid_wave base bc e some_chunk few e'
                | inr e' ↦ each_wave base bc e some_chunk few e'
              ])
              first_try count d (first_pool_pos _ _ _ _)
              (first_pool_le cuda.free_b (count * hash_bytes) 64 num_super (omega arith)) in
          (r.0, r.1, r.2, r.3, r.5, r.6)
