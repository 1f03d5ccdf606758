-- ===== src/Tests/Gpu.antt =====
-- The GPU labelers: BLAKE3 on a known input, and the theorems on a buffer of two chunks of two blocks.
use po_se_memory_wiping.Prelude.{
  ℕ, ◌+◌, ◌*◌, ◌/◌, ◌≤◌, ◌<◌, ◌≡◌, refl, inr, true, false, none, List, [], ◌∷◌, map, get_or, arith,
}
use po_se_memory_wiping.Prelude.Words.{zeros}
use po_se_memory_wiping.Label.{Bytes, blake3, NodeHash}
use po_se_memory_wiping.Aes.{x86}
use po_se_memory_wiping.Hash.{Blake3}
use po_se_memory_wiping.Hash.Instance.{node_hash}
use po_se_memory_wiping.Graph.Counts.{resolve_chunk_blocks, scratch_node_count}
use po_se_memory_wiping.Graph.Chunk.{done, failed, graph_challenge}
use po_se_memory_wiping.Graph.Region.{label_region_pooled_inplace}
use po_se_memory_wiping.Graph.Region.Persisted.{label_region_pooled_inplace_total}
use po_se_memory_wiping.Gpu.{GpuHash, Device}
use po_se_memory_wiping.Gpu.Topology.{block_strategy, warp_strategy, level_strategy}
use po_se_memory_wiping.Gpu.Driver.{CudaRuntime, label_hbm}
use po_se_memory_wiping.Gpu.Fair.{round_robin, round_robin-IsFair}
use po_se_memory_wiping.Gpu.Runs.{IsHealthy}
use po_se_memory_wiping.Gpu.Strategies.{FairRun}
use po_se_memory_wiping.Gpu.Hbm.{
  label_hbm_total, graph_challenge-label_hbm, label_hbm-eq-label_region_pooled_inplace,
}
use po_se_memory_wiping.Gpu.HbmErrors.{label_hbm_failed}
use po_se_memory_wiping.Gpu.Blake3.{blake3_iv, mix, round_fn, rounds_from, gpu_compress}
use po_se_memory_wiping.Gpu.Blake3.Label.{keyed_hash, IsBlake3, gpu_hash}
use po_se_memory_wiping.Tests.Hashing.{aes_stack, sha_stack, toy_cpu}

-- The hash of no bytes starts with af 13 49 b9.
compress_of_nothing : get_or (gpu_compress blake3_iv (zeros 16) 0 11) 0 0 ≡ 0xb94913af
unfolding gpu_compress rounds_from round_fn mix
compress_of_nothing = refl

abbrev b3 : Blake3
b3 = record {
  derive_key = λ context. context;
  hash_many = λ inputs blocks key. map (λ m. keyed_hash m key) inputs;
  hash_one = λ m blocks key. keyed_hash m key;
  hash_many-eq-map = λ inputs blocks key. refl;
  derive = λ context pieces n. zeros n;
}

b3-IsBlake3 : IsBlake3 b3
b3-IsBlake3 = record { keyed = λ m key e. refl }

abbrev hash : NodeHash
hash = node_hash b3 toy_cpu x86 aes_stack sha_stack

abbrev device_hash : GpuHash hash
device_hash = gpu_hash b3 b3-IsBlake3 toy_cpu x86 aes_stack sha_stack

-- A device with memory for one region, which answers every call.
abbrev cuda : CudaRuntime
cuda = record {
  free_b = 0;
  num_sm = 2;
  blocks_per_sm = 1;
  cooperative = true;
  alloc = λ n. true;
  alloc_seeds = true;
  crash = λ base. none;
  memset = true;
}

cuda-IsHealthy : IsHealthy cuda
cuda-IsHealthy = record { one_region = refl; seeds = refl; no_crash = λ base. refl; clears = refl }

abbrev dirty : Device
dirty = record { scratch = λ c x. c ∷ []; persist = λ x. x ∷ [] }

abbrev fresh : ℕ → ℕ
fresh i = 77

two_blocks : resolve_chunk_blocks 2 ≡ 2
unfolding resolve_chunk_blocks
two_blocks = refl

abbrev nodes : ℕ
nodes = scratch_node_count (resolve_chunk_blocks 2)

abbrev warp_turns : ℕ → ℕ → List ℕ
warp_turns j k = round_robin 32 (3 * nodes)

warp_turns-FairRun : FairRun warp_strategy cuda nodes warp_turns
warp_turns-FairRun j k = round_robin-IsFair 32 nodes

abbrev level_turns : ℕ → ℕ → List ℕ
level_turns base k = round_robin (2 * 1 * 256 + nodes * 64) (3 * (nodes * 64))

level_turns-FairRun : FairRun level_strategy cuda nodes level_turns
level_turns-FairRun base k = round_robin-IsFair (2 * 1 * 256 + nodes * 64) (nodes * 64)

label_hbm_total_example :
    (d' : Device) × (label_hbm hash device_hash level_strategy cuda level_turns true true fresh
        fresh
        (1 ∷ [])
        2
        160
        4
        blake3
        dirty
      ≡ (d', done tt))
label_hbm_total_example =
    label_hbm_total hash device_hash level_strategy cuda cuda-IsHealthy level_turns fresh fresh
      (1 ∷ []) 2 160 4 (omega (arith, two_blocks)) level_turns-FairRun dirty

labelled :
    (d' : Device) × (label_hbm hash device_hash warp_strategy cuda warp_turns true true fresh fresh
        (1 ∷ [])
        2
        160
        4
        blake3
        dirty
      ≡ (d', done tt))
labelled =
    label_hbm_total hash device_hash warp_strategy cuda cuda-IsHealthy warp_turns fresh fresh
      (1 ∷ []) 2 160 4 (omega (arith, two_blocks)) warp_turns-FairRun dirty

two_chunks : 1 < 160 / (resolve_chunk_blocks 2 * 32)
unfolding resolve_chunk_blocks
two_chunks = omega arith

graph_challenge-label_hbm_example :
    graph_challenge hash true
      (hash.chunk_seed (1 ∷ []) ((4 + 1 * resolve_chunk_blocks 2) / resolve_chunk_blocks 2))
      (resolve_chunk_blocks 2)
      1
      (λ id. zeros 32)
      blake3
    ≡ done (labelled.0.persist (1 * resolve_chunk_blocks 2 + 1))
graph_challenge-label_hbm_example =
    graph_challenge-label_hbm hash device_hash warp_strategy cuda cuda-IsHealthy warp_turns fresh
      fresh (1 ∷ []) 2 160 4 (omega (arith, two_blocks)) warp_turns-FairRun dirty labelled.0
      labelled.1 1 1 (λ id. zeros 32) two_chunks (omega (arith, two_blocks))

abbrev scratch : ℕ → ℕ → Bytes
scratch out i = zeros 32

on_cpu :
    (region' : ℕ → Bytes) × (label_region_pooled_inplace hash
        (1 ∷ [])
        4
        blake3
        scratch
        true
        160
        2
        (λ x. [])
      ≡ (region', done tt))
on_cpu =
    label_region_pooled_inplace_total hash (1 ∷ []) 4 blake3 scratch 160 2 (λ x. []) (omega arith)
      refl (omega (arith, two_blocks))

label_hbm-eq-label_region_pooled_inplace_example :
    labelled.0.persist (1 * resolve_chunk_blocks 2 + 1) ≡ on_cpu.0 (1 * resolve_chunk_blocks 2 + 1)
label_hbm-eq-label_region_pooled_inplace_example =
    label_hbm-eq-label_region_pooled_inplace hash device_hash warp_strategy cuda cuda-IsHealthy
      warp_turns fresh fresh (1 ∷ []) 2 160 4 (omega (arith, two_blocks)) warp_turns-FairRun dirty
      labelled.0 labelled.1 scratch (λ x. []) on_cpu.0 1 1 (omega arith) refl on_cpu.1 two_chunks
      (omega (arith, two_blocks))

large_chunks : 1048576 < resolve_chunk_blocks 1048577
unfolding resolve_chunk_blocks
large_chunks = omega arith

large_buffer : 1 ≤ 67108928 / (resolve_chunk_blocks 1048577 * 32)
unfolding resolve_chunk_blocks
large_buffer = omega arith

label_hbm_failed_example :
    label_hbm hash device_hash block_strategy cuda warp_turns true false fresh fresh
      (1 ∷ [])
      1048577
      67108928
      4
      blake3
      dirty
    ≡ (dirty, failed)
label_hbm_failed_example =
    label_hbm_failed hash device_hash block_strategy cuda warp_turns fresh fresh (1 ∷ []) 1048577
      67108928 4 dirty true false blake3 (inr (large_chunks, large_buffer))
