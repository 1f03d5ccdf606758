-- ===== src/Lib.antt =====
-- PoSE memory wiping: the graph that fills a memory with labels, as common/src/graph.c builds it.
--
-- A verifier hands out a seed; the prover fills its memory with labels, each the hash of the
-- labels of the node's predecessors in a depth-robust graph, and answers challenges by position.
-- The graph of `m` outputs is two copies of a recursive component over butterfly connectors.
-- graph.c emits its nodes in one order, for three purposes: to label them in a buffer by id
-- (`do_label`), to label them in a bounded arena and keep the outputs only (`do_label_inplace`),
-- and to export the graph (`pose_graph_edges`). The verifier recomputes single outputs
-- (`pose_graph_challenge`).
--
-- The files:
--   Prelude: shared names and lemmas. An array is a list, a memory a function from ids, code that
--     may fault a function from the state to an optional result and state.
--   Label: what graph.c takes from common/include/hash.h, as a record of functions with the law
--     that labelling a batch of at most 16 nodes labels each of them.
--   Sha256: the portable path of common/src/sha256.c, and SHA-256 of FIPS 180-4 (Sha256.Spec). A
--     buffer on the stack that the code does not initialize is an argument here.
--   Aes: common/src/aes_prf.c, the ARM and the x86 backend. A vector register is a list of 16
--     bytes; the AES instructions are parameters with their documented meaning as laws. Each message
--     buffer of each call, on each machine, holds bytes of its own at first (Aes.Buffers).
--   Hash: common/src/hash.c, which fills the interface of Label (Hash.Instance). The lazily
--     derived BLAKE3 keys and the round-key cache of the thread are explicit state; BLAKE3 is a
--     parameter with the law that many inputs are hashed one by one.
--   Graph.Counts: the node counts, `pose_graph_parameter_n` and the sizes of the scratch
--     buffers.
--   Graph.Emitter: `emitter_t`, `arena_alloc`, `emit_source`, `emit1`, `emit2` and the loops over
--     a layer. A batch computes its labels first and stores them then, as the code does.
--   Graph.Connector: `emit_connector` and `emit_merged_center_ingress`, in both modes.
--   Graph.Recursive: `emit_standalone` and `emit_connected`.
--   Graph.Inplace: `lemitter_t` and the `lc_` functions, with the assertion of `lc_arena_alloc`.
--   Graph.Chunk: `do_label`, `do_label_inplace`, `pose_graph_label` and `pose_graph_challenge`.
--   Graph.Edges: `pose_graph_edges`.
--   Graph.Region: `chunk_thread_fn` without a sink and the four labelers of a region. The chunks of
--     a round write disjoint blocks with a scratch buffer each, and run one after the other here;
--     Graph.Pool has their interleavings.
--   Graph.Pool: the thread pool, `pool_worker_fn` and the rounds of
--     `pose_graph_label_region_pooled`. What a thread does between two waits is one step under the
--     mutex, a list of events is an interleaving, and both waits may wake up spuriously. The in-place
--     labeler and the disk wave hand their chunks to the pool in the same way.
--   Graph.Wave: `pose_graph_label_disk_wave`, `chunk_thread_fn` with a sink and
--     `pose_graph_challenge_node_ids`. The sink is a parameter that sees the calls made before; the
--     chunks of a wave run in the order of their slots.
--   Graph.SlotMap: `pose_graph_slot_map`, without the assertion of a debug build on the size of the
--     pool. An array from `malloc` holds anything at first.
--   Gpu: common/src/cuda, the memories of a device and the kernels of its four strategies. Between two
--     barriers the threads of a kernel take turns in any order; a turn loads and hashes, stores, or
--     copies. A schedule lists the threads that move, and three turns are enough for a node. The chunks
--     of a batch have scratch regions of their own and run one after the other here.
--   Gpu.Blake3: blake3_node.cuh, with the compression function of the BLAKE3 specification
--     (Gpu.Blake3.Spec) and the proofs that compare it with hash.c (Gpu.Blake3.Label).
--   Gpu.Topology: `pose_graph_hbm_topo_build`. Gpu.Driver: the runs of label_gpu_block.cu,
--     label_gpu_warp.cu, label_gpu_thread.cu and label_gpu_level.cu, `pose_graph_hbm_topo_label` and
--     `pose_graph_label_hbm`. What the CUDA runtime answers is a parameter.
--   Gpu.Machine (Copies, Steps, Turns), Fair, Walk: the threads of a level. Gpu.Levels, Host, Plan,
--     Places: the schedule that the host builds. Gpu.Chunks, Items, Waves, Outputs: the kernels.
--     Gpu.Runs, Strategies, LevelRun: the strategies. Gpu.HbmRuns, Hbm, HbmErrors: the whole labeler.
--   Tests: concrete inputs, with a toy hash.
--
-- Bounds and fuel. The bit count of `pose_graph_parameter_n` has fuel 64, the bits of a uint64_t.
-- The batched loops have the width of the layer as fuel: each round takes at least one node.
-- The rounds of a region have its number of blocks as fuel: each takes at least one.
-- The allocation of device memory has the first number of regions as fuel, which it halves; the
-- batches of a run have the number of chunks as fuel, as each has at least one.
-- Everything else is structural recursion on the level. Ids and offsets are numbers without
-- wrap-around, which is exact as the counts for `m` up to 2^20 are far below 2^64; block
-- offsets of a region, chunk indices and byte offsets of a wave are taken to be far below 2^64 too.
-- POSE_REGION_THREADS is 4, as where the build does not set it. The bit operations of the in-place
-- labeler are on 32 bits, and widths are at most 2^20. The words of SHA-256 and the bytes of the
-- messages wrap around as in the code.
-- Bytes that a copy would read beyond the contents of an array in aes_prf.c are 0.
-- An arena that overruns is a fault of the model; the code of `arena_alloc` has no such test.
--
-- Not modelled: the vendored BLAKE3; the compression function of sha256.c in ARM intrinsics,
-- which an ARM build with __ARM_FEATURE_SHA2 has in place of the portable one; the abort of
-- aes_prf.c in a build without an AES backend; the output, the timing and the quiet flag of the CUDA
-- code and `pose_graph_hbm_topo_free`, which only frees; the benchmarks and tools, which only call the
-- library; prefetches, which have no effect on results; the pointers themselves (each array is its contents).
pub mod Prelude
pub mod Label
pub mod Sha256
pub mod Aes
pub mod Hash
pub mod Graph
pub mod Gpu
pub mod Tests
