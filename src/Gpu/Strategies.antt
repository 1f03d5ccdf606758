-- ===== src/Gpu/Strategies.antt =====
-- `label_gpu_run` of the block, the warp and the thread strategy, and the schedules that they need.
use mathlib.Core.Path.{subst}
use native.Mathlib.Nat.{le_refl}
use po_se_memory_wiping.Prelude.{
  ℕ, ◌+◌, ◌*◌, ◌/◌, ◌≤◌, ◌<◌, ◌≡◌, ◌≢◌, refl, sym, ap, true, false, ◌==◌, List, [], arith,
}
use po_se_memory_wiping.Prelude.Words.{zeros}
use po_se_memory_wiping.Label.{Bytes, blake3, NodeHash, hash_bytes}
use po_se_memory_wiping.Graph.Emitter.{Node}
use po_se_memory_wiping.Graph.Chunk.{done}
use po_se_memory_wiping.Graph.Chunk.Output.{node_labels}
use po_se_memory_wiping.Graph.Edges.{graph_edges}
use po_se_memory_wiping.Gpu.{
  Topo, GpuContext, GpuHash, Device, chunk_levels, chunk_block, chunk_warp, chunk_thread_walk,
}
use po_se_memory_wiping.Gpu.Topology.{
  Strategy, level_strategy, block_strategy, thread_strategy, warp_strategy, topo_of,
}
use po_se_memory_wiping.Gpu.Driver.{
  CudaRuntime, GpuResult, first_pool, some_blocks, batch_chunks, batch_seeds, batch_bases, run_pool,
  label_gpu_block, label_gpu_warp, label_gpu_thread,
}
use po_se_memory_wiping.Gpu.Fair.{IsFair}
use po_se_memory_wiping.Gpu.Plan.{topo, uses}
use po_se_memory_wiping.Gpu.Places.{level_bounds', level_next, level_count-le}
use po_se_memory_wiping.Gpu.Chunks.{IsPersisted, chunk_levels-IsPersisted}
use po_se_memory_wiping.Gpu.Walk.{single_turns, single_turns-IsFair, chunk_thread_walk-chunk_levels}
use po_se_memory_wiping.Gpu.Items.{IsFair-le}
use po_se_memory_wiping.Gpu.Runs.{
  first_pool_pos, IsHealthy, IsDone, batch_chunks-IsDone, run_pool_lem,
}

-- Schedules that give every thread that a kernel has enough turns, on graphs of at most `n` nodes. A wave
-- has at most 64 scaffolds.
abbrev pub FairRun : Strategy → CudaRuntime → ℕ → (ℕ → ℕ → List ℕ) → Type 0
FairRun level_strategy cuda n turns =
    (base k : ℕ) → IsFair (cuda.num_sm * cuda.blocks_per_sm * 256 + n * 64) (n * 64) (turns base k)
FairRun block_strategy cuda n turns = (j k : ℕ) → IsFair 256 n (turns j k)
FairRun thread_strategy cuda n turns = Unit
FairRun warp_strategy cuda n turns = (j k : ℕ) → IsFair 32 n (turns j k)

module _ (h : NodeHash) (gh : GpuHash h) (cb : ℕ) (nodes : ℕ → Node) (count : ℕ)
    (edges : graph_edges h true true cb ≡ done (nodes, count)) (raw slot : ℕ → ℕ) (pool_size : ℕ)
    (session_seed : Bytes) (offset num_super : ℕ) where
  abbrev t : Topo
  t = topo h gh cb nodes count edges raw slot pool_size

  abbrev pub ctx : GpuContext
  ctx = record {
    session_seed = session_seed;
    region_block_offset = offset;
    num_super = num_super;
    topo = t;
  }

  -- The labels of chunk `j` of the region.
  abbrev pub chunk_labels : ℕ → ℕ → Bytes
  chunk_labels j =
      node_labels h (h.chunk_seed session_seed ((offset + j * cb) / cb)) cb blake3 (λ id. [])

  abbrev pub seeds : ℕ → ℕ → Bytes
  seeds = batch_seeds h gh ctx

  abbrev pub bases : ℕ → ℕ → ℕ
  bases = batch_bases h gh ctx

  pub bases_lem : (base b : ℕ) → bases base b ≡ (base + b) * cb
  unfolding topo_of
  bases_lem base b = let whole : cb * 32 / 32 ≡ cb = omega arith in ap (λ k. (base + b) * k) whole

  -- What a run ends with.
  abbrev pub IsLabelledBy : Device → GpuResult → ℕ → Type 0
  IsLabelledBy d result cells =
      (d' : Device) × (pool : ℕ) × (result ≡ (d', done tt))
      × IsDone cb chunk_labels 0 num_super d.persist d'.persist
      × (1 ≤ pool)
      × ((c x : ℕ) → c < pool → x < cells → d'.scratch c x ≡ zeros hash_bytes)

  module _ (cuda : CudaRuntime) (healthy : IsHealthy cuda) where
    module _
        (apart : (a b : ℕ)
          → a < count
          → b < count
          → a ≢ b
          → (uses h gh cb nodes count edges raw slot pool_size).level a
            ≤ (uses h gh cb nodes count edges raw slot pool_size).last_use b
          → (uses h gh cb nodes count edges raw slot pool_size).level b
            ≤ (uses h gh cb nodes count edges raw slot pool_size).last_use a
          → slot a ≢ slot b)
        (some_slots : 1 ≤ pool_size) where
      -- A chunk of a batch, by a kernel of `stride` threads.
      chunk-IsPersisted :
          (stride base b : ℕ) (turns : ℕ → List ℕ) (e : Device)
          → 0 < stride
          → ((k : ℕ) → k < t.num_levels → IsFair stride (t.level_count k) (turns k))
          → IsPersisted cb
              ((base + b) * cb)
              (chunk_labels (base + b))
              e.persist
              (chunk_levels h gh t
                (seeds base)
                (bases base)
                stride
                b
                turns
                t.num_levels
                0
                e).persist
      unfolding topo_of
      chunk-IsPersisted stride base b turns e pos fair =
          subst
            (λ x.
              IsPersisted cb x (chunk_labels (base + b)) e.persist
                (chunk_levels h gh t (seeds base) (bases base) stride b turns t.num_levels 0
                  e).persist)
            (bases_lem base b)
            (chunk_levels-IsPersisted h gh cb nodes count edges raw slot pool_size apart
              (seeds base) (bases base) b stride turns e pos fair)

      -- The runs of the strategies that label a chunk at a time.
      chunk_run :
          (kernel : ℕ → ℕ → Device → Device) (resident : ℕ) (d : Device)
          → ((base b : ℕ) (e : Device)
              → IsPersisted cb
                  ((base + b) * cb)
                  (chunk_labels (base + b))
                  e.persist
                  (kernel base b e).persist)
          → IsLabelledBy d
              (run_pool cuda
                (λ base bc e. (batch_chunks (kernel base) bc 0 e, true))
                num_super
                (first_pool cuda.free_b (pool_size * hash_bytes) resident num_super)
                pool_size
                d)
              pool_size
      chunk_run kernel resident d each =
          let first_try = first_pool cuda.free_b (pool_size * hash_bytes) resident num_super in
          let r =
            run_pool_lem cb chunk_labels cuda healthy _ num_super first_try
              (λ base bc e fits some_chunk few. (
                refl,
                batch e base bc (
                    batch_chunks-IsDone cb chunk_labels (λ e. Unit) (kernel base) base bc 0 e
                      (λ c e' le lt keep. (each base c e', tt)) tt),
              ))
              first_try pool_size d (first_pool_pos _ _ _ _) (le_refl first_try) in
          (r.0, r.1, r.2, r.3, r.5, r.6)
        where
          batch :
              (e : Device) (base bc : ℕ)
              → IsDone cb chunk_labels
                  (base + 0)
                  (base + (0 + bc))
                  e.persist
                  (batch_chunks (kernel base) bc 0 e).persist
              → IsDone cb chunk_labels base
                  (base + bc)
                  e.persist
                  (batch_chunks (kernel base) bc 0 e).persist
          batch e base bc is =
              let starts : base + 0 ≡ base = omega arith in
              let ends : base + (0 + bc) ≡ base + bc = omega arith in
              subst
                (λ k.
                  IsDone cb chunk_labels base k e.persist
                    (batch_chunks (kernel base) bc 0 e).persist)
                ends
                (subst
                  (λ k.
                    IsDone cb chunk_labels k (base + (0 + bc)) e.persist
                      (batch_chunks (kernel base) bc 0 e).persist)
                  starts is)

      few_nodes :
          (stride : ℕ) (turns : ℕ → List ℕ)
          → ((k : ℕ) → IsFair stride count (turns k))
          → (k : ℕ) → k < t.num_levels
          → IsFair stride (t.level_count k) (turns k)
      few_nodes stride turns fair k lt =
          IsFair-le stride (t.level_count k) stride count (turns k) (omega arith)
            (level_count-le h gh cb nodes count edges raw slot pool_size k) (fair k)

      some_pool : (pool_size == 0) ≡ false
      some_pool = ground arith

      pub block_run :
          (turns : ℕ → ℕ → List ℕ) (d : Device)
          → FairRun block_strategy cuda count turns
          → IsLabelledBy d (label_gpu_block h gh ctx cuda turns d) pool_size
      unfolding label_gpu_block chunk_block topo_of
      block_run turns d fair = rw some_pool (
          chunk_run (λ base b. chunk_block h gh t (seeds base) (bases base) b (turns (base + b)))
            (cuda.num_sm * some_blocks cuda.blocks_per_sm) d
            (λ base b e.
              chunk-IsPersisted 256 base b (turns (base + b)) e (omega arith)
                (few_nodes 256 (turns (base + b)) (fair (base + b)))))

      pub warp_run :
          (turns : ℕ → ℕ → List ℕ) (d : Device)
          → FairRun warp_strategy cuda count turns
          → IsLabelledBy d (label_gpu_warp h gh ctx cuda turns d) pool_size
      unfolding label_gpu_warp chunk_warp topo_of
      warp_run turns d fair = rw some_pool (
          chunk_run (λ base b. chunk_warp h gh t (seeds base) (bases base) b (turns (base + b)))
            (cuda.num_sm * some_blocks cuda.blocks_per_sm * 8) d
            (λ base b e.
              chunk-IsPersisted 32 base b (turns (base + b)) e (omega arith)
                (few_nodes 32 (turns (base + b)) (fair (base + b)))))

      pub thread_run : (d : Device) → IsLabelledBy d (label_gpu_thread h gh ctx cuda d) pool_size
      unfolding label_gpu_thread topo_of
      thread_run d = rw some_pool (
          chunk_run (λ base. chunk_thread_walk h gh t (seeds base) (bases base))
            (cuda.num_sm * some_blocks cuda.blocks_per_sm * 256) d
            (λ base b e.
              subst
                (λ (e' : Device).
                  IsPersisted cb ((base + b) * cb) (chunk_labels (base + b)) e.persist e'.persist)
                (sym (
                  chunk_thread_walk-chunk_levels h gh t (seeds base) (bases base) b e
                    (level_next h gh cb nodes count edges raw slot pool_size)
                    (level_bounds' h gh cb nodes count edges raw slot pool_size).0
                    (level_bounds' h gh cb nodes count edges raw slot pool_size).1))
                (chunk-IsPersisted 1 base b (λ k. single_turns (t.level_count k)) e (omega arith)
                  (λ k lt. single_turns-IsFair (t.level_count k)))))
