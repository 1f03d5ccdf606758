-- ===== src/Gpu/Driver.antt =====
-- The host side of the GPU labelers: `label_gpu_run` of the four strategies, `pose_graph_hbm_topo_label` and
-- `pose_graph_label_hbm`. What the CUDA runtime answers is a parameter. The printing is left out.
use po_se_memory_wiping.Prelude.{
  ℕ, zero, suc, ◌+◌, ◌-◌, ◌*◌, ◌/◌, ◌^◌, Bool, true, false, ◌&&◌, ◌||◌, ltb, ◌==◌, if◌then◌else◌,
  Option, none, some, List,
}
use po_se_memory_wiping.Prelude.Words.{zeros}
use po_se_memory_wiping.Label.{Bytes, Algo, NodeHash, hash_bytes}
use po_se_memory_wiping.Graph.Counts.{resolve_chunk_blocks}
use po_se_memory_wiping.Graph.Chunk.{Outcome, done, failed, fault}
use po_se_memory_wiping.Gpu.{
  Topo, GpuContext, GpuHash, Device, chunk_block, chunk_warp, chunk_thread_walk, all_levels,
  each_level, extract_outputs,
}
use po_se_memory_wiping.Gpu.Topology.{
  Strategy, level_strategy, block_strategy, thread_strategy, warp_strategy, not_blake3, topo_build,
}

-- What the runtime answers: the free memory, the shape of the device, for which numbers of regions the
-- scratch can be allocated, whether the seeds can, whether the scratch can be cleared, and, for the
-- batch from a chunk on, whether a call fails and what the device then holds.
pub record CudaRuntime : Type 0 where
  pub free_b : ℕ
  pub num_sm : ℕ
  pub blocks_per_sm : ℕ
  pub cooperative : Bool
  pub alloc : ℕ → Bool
  pub alloc_seeds : Bool
  pub crash : ℕ → Option Device
  pub memset : Bool

-- The device, and the result code.
abbrev pub GpuResult : Type 0
GpuResult = Device × Outcome (Unit {0})

-- How many regions to try first: what fits into the free memory less 64 MiB, at most `resident` and
-- `num_super`, and one even if memory is tight.
unfoldable pub first_pool : ℕ → ℕ → ℕ → ℕ → ℕ
first_pool free_b region_bytes resident num_super =
    let budget = if ltb (64 * 2 ^ 20) free_b then free_b - 64 * 2 ^ 20 else 0 in
    let fitting = if region_bytes == 0 then 0 else budget / region_bytes in
    let capped = if ltb resident fitting then resident else fitting in
    let needed = if ltb num_super capped then num_super else capped in
    if needed == 0 then 1 else needed

-- `while (pool >= 1) { if (cudaMalloc(...) == cudaSuccess) break; ... pool /= 2; }`, on fuel.
unfoldable pub alloc_pool : (ℕ → Bool) → ℕ → ℕ → Option ℕ
alloc_pool alloc zero pool = none
alloc_pool alloc (suc fuel) pool =
    let rest = alloc_pool alloc fuel (pool / 2) in
    if alloc pool then some pool else (if pool == 1 then none else rest)

-- `cudaMemset(d_scratch, 0, pool * region_bytes)`, for regions of `cells` labels.
unfoldable pub clear_scratch : ℕ → ℕ → Device → Device
clear_scratch pool cells d = record d {
  scratch = λ c x. if ltb c pool && ltb x cells then zeros hash_bytes else d.scratch c x;
}

-- The kernel on the chunks of a batch: `n` chunks from region `b` on. They write disjoint memory.
unfoldable pub batch_chunks : (ℕ → Device → Device) → ℕ → ℕ → Device → Device
batch_chunks kernel zero b d = d
batch_chunks kernel (suc n) b d = batch_chunks kernel n (b + 1) (kernel b d)

-- `for (base = 0; base < num_super; base += pool)`, from `base` on. Each batch has a chunk at least.
unfoldable pub run_batches :
    (ℕ → Option Device) → (ℕ → ℕ → Device → Device × Bool) → ℕ → ℕ → ℕ → ℕ → Device → GpuResult
run_batches crash batch num_super pool zero base d =
    if ltb base num_super then (d, fault) else (d, done tt)
run_batches crash batch num_super pool (suc fuel) base d =
    let bc = if ltb (num_super - base) pool then num_super - base else pool in
    let now = batch base bc d in
    let rest = run_batches crash batch num_super pool fuel (base + pool) now.0 in
    if ltb base num_super
    then elim (crash base) [
      | some broken ↦ (broken, failed)
      | none ↦ if now.1 then rest else (now.0, failed)
    ]
    else (d, done tt)

-- The last steps: the scratch is cleared unless a batch has failed.
abbrev pub finish_run : Bool → ℕ → ℕ → GpuResult → GpuResult
finish_run memset pool cells (d, done a) =
    if memset then (clear_scratch pool cells d, done tt) else (d, failed)
finish_run memset pool cells (d, failed) = (d, failed)
finish_run memset pool cells (d, fault) = (d, fault)

-- The batches, once some number of regions is allocated.
abbrev pub with_pool :
    CudaRuntime → (ℕ → ℕ → Device → Device × Bool) → ℕ → ℕ → Device → Option ℕ → GpuResult
with_pool cuda batch num_super cells d none = (d, failed)
with_pool cuda batch num_super cells d (some pool) =
    if cuda.alloc_seeds
    then finish_run cuda.memset pool cells
        (run_batches cuda.crash batch num_super pool num_super 0 d)
    else (d, failed)

-- The runs of all strategies, with the number of regions to try first and the labels of a region.
unfoldable pub run_pool :
    CudaRuntime → (ℕ → ℕ → Device → Device × Bool) → ℕ → ℕ → ℕ → Device → GpuResult
run_pool cuda batch num_super first cells d =
    with_pool cuda batch num_super cells d (alloc_pool cuda.alloc first first)

-- `blocksPerSm > 0 ? blocksPerSm : 1`
abbrev pub some_blocks : ℕ → ℕ
some_blocks zero = 1
some_blocks (suc n) = suc n

module _ (h : NodeHash) (gh : GpuHash h) (ctx : GpuContext) where
  -- The seed of scratch region `b` of the batch from chunk `base` on.
  abbrev pub batch_seeds : ℕ → ℕ → Bytes
  batch_seeds base b =
      h.chunk_seed ctx.session_seed
        ((ctx.region_block_offset + (base + b) * ctx.topo.chunk_blocks) / ctx.topo.chunk_blocks)

  -- The block of `persist` where the chunk of region `b` starts.
  abbrev pub batch_bases : ℕ → ℕ → ℕ
  batch_bases base b = (base + b) * (ctx.topo.super_bytes / hash_bytes)

  -- `label_gpu_run` of label_gpu_block.cu. `turns` is the schedule of each chunk on each level.
  unfoldable pub label_gpu_block : CudaRuntime → (ℕ → ℕ → List ℕ) → Device → GpuResult
  label_gpu_block cuda turns d =
      if ctx.topo.pool_size == 0
      then (d, failed)
      else run_pool cuda
          (λ base bc d. (
            batch_chunks
                (λ b.
                  chunk_block h gh ctx.topo (batch_seeds base) (batch_bases base) b
                    (turns (base + b)))
                bc 0 d,
            true,
          ))
          ctx.num_super
          (first_pool cuda.free_b (ctx.topo.pool_size * hash_bytes)
            (cuda.num_sm * some_blocks cuda.blocks_per_sm) ctx.num_super)
          ctx.topo.pool_size d

  -- `label_gpu_run` of label_gpu_warp.cu, eight warps in a block.
  unfoldable pub label_gpu_warp : CudaRuntime → (ℕ → ℕ → List ℕ) → Device → GpuResult
  label_gpu_warp cuda turns d =
      if ctx.topo.pool_size == 0
      then (d, failed)
      else run_pool cuda
          (λ base bc d. (
            batch_chunks
                (λ w.
                  chunk_warp h gh ctx.topo (batch_seeds base) (batch_bases base) w
                    (turns (base + w)))
                bc 0 d,
            true,
          ))
          ctx.num_super
          (first_pool cuda.free_b (ctx.topo.pool_size * hash_bytes)
            (cuda.num_sm * some_blocks cuda.blocks_per_sm * 8) ctx.num_super)
          ctx.topo.pool_size d

  -- `label_gpu_run` of label_gpu_thread.cu, 256 threads in a block.
  unfoldable pub label_gpu_thread : CudaRuntime → Device → GpuResult
  label_gpu_thread cuda d =
      if ctx.topo.pool_size == 0
      then (d, failed)
      else run_pool cuda
          (λ base bc d. (
            batch_chunks (chunk_thread_walk h gh ctx.topo (batch_seeds base) (batch_bases base)) bc
                0 d,
            true,
          ))
          ctx.num_super
          (first_pool cuda.free_b (ctx.topo.pool_size * hash_bytes)
            (cuda.num_sm * some_blocks cuda.blocks_per_sm * 256) ctx.num_super)
          ctx.topo.pool_size d

  -- A wave of label_gpu_level.cu: one cooperative launch on a grid of resident blocks where the device
  -- has that, or else a launch for each level, and the copies of the outputs.
  unfoldable pub level_wave : CudaRuntime → (ℕ → List ℕ) → ℕ → ℕ → Device → Device × Bool
  level_wave cuda turns base w_count d =
      let seeds = batch_seeds base in
      let bases = batch_bases base in
      let grid = if cuda.cooperative then cuda.num_sm * cuda.blocks_per_sm else 0 in
      let levels =
        if ltb 0 grid
        then (
          all_levels h gh ctx.topo seeds bases (grid * 256) w_count turns ctx.topo.num_levels 0 d,
          true,
        )
        else each_level h gh ctx.topo seeds bases w_count turns ctx.topo.num_levels 0 d in
      if levels.1
      then (if ltb 0x7fffffff ((ctx.topo.chunk_blocks * w_count + 256 - 1) / 256)
          then (levels.0, false)
          else (extract_outputs h gh ctx.topo seeds bases w_count 0 levels.0, true))
      else levels

  -- `label_gpu_run` of label_gpu_level.cu; `POSE_GPU_WAVE_CAP` is 64. `turns` is the schedule of the wave
  -- from a chunk on, on each level.
  unfoldable pub label_gpu_level : CudaRuntime → (ℕ → ℕ → List ℕ) → Device → GpuResult
  label_gpu_level cuda turns d =
      run_pool cuda (λ base. level_wave cuda (turns base) base) ctx.num_super
        (first_pool cuda.free_b (ctx.topo.count * hash_bytes) 64 ctx.num_super) ctx.topo.count d

module _ (h : NodeHash) (gh : GpuHash h) where
  -- The `label_gpu_run` that is compiled in.
  abbrev pub label_gpu_run :
      Strategy → GpuContext → CudaRuntime → (ℕ → ℕ → List ℕ) → Device → GpuResult
  label_gpu_run level_strategy ctx = label_gpu_level h gh ctx
  label_gpu_run block_strategy ctx = label_gpu_block h gh ctx
  label_gpu_run warp_strategy ctx = label_gpu_warp h gh ctx
  label_gpu_run thread_strategy ctx = λ cuda turns. label_gpu_thread h gh ctx cuda

  -- `pose_graph_hbm_topo_label`, of a topology that is not NULL.
  unfoldable pub topo_label :
      Strategy → CudaRuntime → (ℕ → ℕ → List ℕ) → Topo → Bytes → ℕ → ℕ → Device → GpuResult
  topo_label strategy cuda turns t session_seed hbm_len region_block_offset d =
      if hbm_len / t.super_bytes == 0
      then (d, done tt)
      else label_gpu_run strategy
          (record {
            session_seed = session_seed;
            region_block_offset = region_block_offset;
            num_super = hbm_len / t.super_bytes;
            topo = t;
          })
          cuda turns d

  -- `pose_graph_label_hbm`. `host` and `upload` are those of `pose_graph_hbm_topo_build`.
  unfoldable pub label_hbm :
      Strategy
      → CudaRuntime
      → (ℕ → ℕ → List ℕ)
      → Bool
      → Bool
      → (ℕ → ℕ)
      → (ℕ → ℕ)
      → Bytes
      → ℕ
      → ℕ
      → ℕ
      → Algo
      → Device
      → GpuResult
  label_hbm strategy cuda turns host upload raw slot_out session_seed chunk_blocks hbm_len
        region_block_offset algo d =
      let cb = resolve_chunk_blocks chunk_blocks in
      if not_blake3 algo || (cb == 0 || ltb (2 ^ 32 - 1) cb)
      then (d, failed)
      else (if hbm_len / (cb * hash_bytes) == 0
          then (d, done tt)
          else elim (topo_build h gh strategy host upload cb algo raw slot_out) [
            | failed ↦ (d, failed)
            | fault ↦ (d, fault)
            | done t ↦ topo_label strategy cuda turns t session_seed hbm_len region_block_offset d
          ])
