-- ===== src/Graph/Region.antt =====
-- The labelers of a region in graph.c: `chunk_thread_fn`, `pose_graph_label_region`,
-- `pose_graph_label_region_ex`, `pose_graph_label_region_pooled` and
-- `pose_graph_label_region_pooled_inplace`.
--
-- A region is a memory of 32-byte blocks by index. The chunks of one round write disjoint blocks
-- and have a scratch buffer each, so they run one after the other here. `scratch` tells what the
-- buffer of the chunk at a block holds when the chunk starts, `launch` whether the thread of the
-- chunk at a block can be created.
pub mod Chunks
pub mod Rounds
pub mod Super
pub mod Apart
pub mod Filled
pub mod Persisted
use po_se_memory_wiping.Prelude.{
  ℕ, zero, suc, ◌+◌, ◌-◌, ◌*◌, ◌/◌, ◌%◌, Bool, true, false, ◌||◌, ltb, leb, ◌==◌, if◌then◌else◌,
  List, [], ◌∷◌, store_all,
}
use po_se_memory_wiping.Label.{Bytes, Algo, NodeHash, hash_bytes}
use po_se_memory_wiping.Graph.Counts.{resolve_chunk_blocks}
use po_se_memory_wiping.Graph.Chunk.{Outcome, done, failed, fault, do_label, do_label_inplace}

-- `POSE_REGION_THREADS`
abbrev pub region_threads : ℕ
region_threads = 4

-- `chunk_arg_t`, without a sink. `out` is the block of the region where the labels go.
pub record ChunkArg : Type 0 where
  pub cseed : Bytes
  pub m : ℕ
  pub out : ℕ
  pub algo : Algo
  pub inplace : Bool

-- The region, and the result code.
abbrev pub Labelling : Type 0
Labelling = (ℕ → Bytes) × Outcome (Unit {0})

-- The first code that is not 0.
abbrev pub first_error : Outcome (Unit {0}) → Outcome (Unit {0}) → Outcome (Unit {0})
first_error (done a) rc = rc
first_error failed rc = failed
first_error fault rc = fault

-- `!region || region_len == 0 || (region_len % POSE_HASH_BYTES) != 0`
abbrev pub bad_region : Bool → ℕ → Bool
bad_region present region_len =
    (if present then false else true)
    || region_len == 0
    || (if region_len % hash_bytes == 0 then false else true)

-- The labels go to the chunk's blocks, and the code to `a->rc`.
abbrev pub chunk_result : ℕ → (ℕ → Bytes) → Outcome (List Bytes) → Labelling
chunk_result out region (done labels) = (store_all region out labels, done tt)
chunk_result out region failed = (region, failed)
chunk_result out region fault = (region, fault)

-- `rc == 0` of the outer loop: the rest of the run, unless the round failed.
abbrev pub unless_error : Labelling → Labelling → Labelling
unless_error (region, done a) rest = rest
unless_error (region, failed) rest = (region, failed)
unless_error (region, fault) rest = (region, fault)

module _ (h : NodeHash) (session_seed : Bytes) (offset : ℕ) (algo : Algo)
    (scratch : ℕ → ℕ → Bytes) where
  -- `chunk_thread_fn` when `wt_sink` is NULL
  pub chunk_thread : ChunkArg → (ℕ → Bytes) → Labelling
  chunk_thread a region = chunk_result a.out region (
      if a.inplace
      then do_label_inplace h a.cseed a.m a.algo
      else do_label h a.cseed a.m (scratch a.out) a.algo)

  -- The chunks of a round, all of them: on the workers of the pool and the calling thread.
  unfoldable pub run_pooled : List ChunkArg → (ℕ → Bytes) → Labelling
  run_pooled [] region = (region, done tt)
  run_pooled (a ∷ args) region =
      let now = chunk_thread a region in
      let rest = run_pooled args now.0 in (rest.0, first_error now.1 rest.1)

  -- The chunks of a round on new threads, the last on the calling one. When a thread cannot be
  -- created, the chunks after those launched do not run.
  pub run_threads : (ℕ → Bool) → List ChunkArg → (ℕ → Bytes) → Labelling
  run_threads launch [] region = (region, done tt)
  run_threads launch (a ∷ []) region = chunk_thread a region
  run_threads launch (a ∷ b ∷ args) region =
      let now = chunk_thread a region in
      let rest = run_threads launch (b ∷ args) now.0 in
      if launch a.out then (rest.0, first_error now.1 rest.1) else (region, failed)

  module _ (chunk_blocks total_blocks : ℕ) where
    -- The inner loop: the next chunks, at most `n`, and the block after them.
    unfoldable pub next_chunks : ℕ → ℕ → List ChunkArg × ℕ
    next_chunks zero block = ([], block)
    next_chunks (suc n) block =
        let left = total_blocks - block in
        let this_blocks = if ltb chunk_blocks left then chunk_blocks else left in
        let rest = next_chunks n (block + this_blocks) in
        let arg : ChunkArg = record {
          cseed = h.chunk_seed session_seed ((offset + block) / chunk_blocks);
          m = this_blocks;
          out = block;
          algo = algo;
          inplace = false;
        } in
        if ltb block total_blocks then (arg ∷ rest.0, rest.1) else ([], block)

    -- The inner loop of the in-place labeler: whole chunks only.
    pub next_super_chunks : ℕ → ℕ → List ChunkArg × ℕ
    next_super_chunks zero block = ([], block)
    next_super_chunks (suc n) block =
        let rest = next_super_chunks n (block + chunk_blocks) in
        let arg : ChunkArg = record {
          cseed =
              h.chunk_seed session_seed
                ((offset + block / chunk_blocks * chunk_blocks) / chunk_blocks);
          m = chunk_blocks;
          out = block;
          algo = algo;
          inplace = true;
        } in
        if leb (block + chunk_blocks) total_blocks then (arg ∷ rest.0, rest.1) else ([], block)

    -- The outer loop, `while (block < total_blocks && rc == 0)`. Each round takes a block at least.
    pub region_rounds : (List ChunkArg → (ℕ → Bytes) → Labelling) → ℕ → ℕ → (ℕ → Bytes) → Labelling
    region_rounds run zero block region =
        if ltb block total_blocks then (region, fault) else (region, done tt)
    region_rounds run (suc fuel) block region =
        let next = next_chunks region_threads block in
        let round = run next.0 region in
        let rest = region_rounds run fuel next.1 round.0 in
        if ltb block total_blocks then unless_error round rest else (region, done tt)

    pub super_rounds : ℕ → ℕ → (ℕ → Bytes) → Labelling
    super_rounds zero block region =
        if leb (block + chunk_blocks) total_blocks then (region, fault) else (region, done tt)
    super_rounds (suc fuel) block region =
        let next = next_super_chunks region_threads block in
        let round = run_pooled next.0 region in
        let rest = super_rounds fuel next.1 round.0 in
        if leb (block + chunk_blocks) total_blocks
        then unless_error round rest
        else (region, done tt)

  -- `pose_graph_label_region_ex`. `present` tells whether `region` is not NULL.
  pub label_region_ex : (ℕ → Bool) → Bool → ℕ → ℕ → (ℕ → Bytes) → Labelling
  label_region_ex launch present region_len chunk_blocks region =
      if bad_region present region_len
      then (region, failed)
      else region_rounds (resolve_chunk_blocks chunk_blocks) (region_len / hash_bytes)
          (run_threads launch) (region_len / hash_bytes) 0 region

  -- `pose_graph_label_region`. `memory` tells whether its scratch buffers could be allocated.
  pub label_region : Bool → (ℕ → Bool) → Bool → ℕ → ℕ → (ℕ → Bytes) → Labelling
  label_region memory launch present region_len chunk_blocks region =
      if bad_region present region_len
      then (region, failed)
      else (if memory
          then region_rounds (resolve_chunk_blocks chunk_blocks) (region_len / hash_bytes)
              (run_threads launch) (region_len / hash_bytes) 0 region
          else (region, failed))

  -- `pose_graph_label_region_pooled`
  pub label_region_pooled : Bool → ℕ → ℕ → (ℕ → Bytes) → Labelling
  label_region_pooled present region_len chunk_blocks region =
      if bad_region present region_len
      then (region, failed)
      else region_rounds (resolve_chunk_blocks chunk_blocks) (region_len / hash_bytes) run_pooled
          (region_len / hash_bytes) 0 region

  -- `pose_graph_label_region_pooled_inplace`. A region smaller than one super-chunk is left alone.
  pub label_region_pooled_inplace : Bool → ℕ → ℕ → (ℕ → Bytes) → Labelling
  label_region_pooled_inplace present region_len chunk_blocks region =
      if bad_region present region_len
      then (region, failed)
      else (if ltb region_len (resolve_chunk_blocks chunk_blocks * hash_bytes)
          then (region, done tt)
          else super_rounds (resolve_chunk_blocks chunk_blocks) (region_len / hash_bytes)
              (region_len / hash_bytes) 0 region)
