-- ===== src/Gpu/Topology.antt =====
-- `pose_graph_hbm_topo_build` of label_gpu_common.cu: the graph, its levels, the nodes in order of their
-- levels, the challenge ranks, the keys and, for the strategies that recycle slots, the slot map.
-- `raw` is what a fresh array holds.
use po_se_memory_wiping.Prelude.{
  ℕ, zero, suc, ◌+◌, ◌-◌, ◌*◌, ◌^◌, Bool, true, false, ◌||◌, ltb, ◌==◌, if◌then◌else◌, Option, none,
  some, update,
}
use po_se_memory_wiping.Label.{Algo, blake3, sha256, aes_prf, NodeHash, hash_bytes}
use po_se_memory_wiping.Graph.Counts.{resolve_chunk_blocks, parameter_n}
use po_se_memory_wiping.Graph.Emitter.{Node}
use po_se_memory_wiping.Graph.Chunk.{Outcome, done, failed, fault}
use po_se_memory_wiping.Graph.Edges.{graph_edges}
use po_se_memory_wiping.Graph.SlotMap.{level_of, place, graph_slot_map}
use po_se_memory_wiping.Gpu.{Topo, GpuHash}

-- `LABEL_GPU_USES_SLOT_MAP` is 0 for the level strategy and 1 for the others.
pub data Strategy : Type 0 where
  level_strategy block_strategy thread_strategy warp_strategy : Strategy

abbrev pub uses_slot_map : Strategy → Bool
uses_slot_map level_strategy = false
uses_slot_map block_strategy = true
uses_slot_map thread_strategy = true
uses_slot_map warp_strategy = true

-- `algo != POSE_HASH_BLAKE3`
abbrev pub not_blake3 : Algo → Bool
not_blake3 blake3 = false
not_blake3 sha256 = true
not_blake3 aes_prf = true

-- `level`, `maxlevel`, `h_np`, `h_p0`, `h_p1`, `h_out_id` and `h_rank`
pub record HostArrays : Type 0 where
  pub level : ℕ → ℕ
  pub maxlevel : ℕ
  pub h_np : ℕ → ℕ
  pub h_p0 : ℕ → ℕ
  pub h_p1 : ℕ → ℕ
  pub h_out_id : ℕ → ℕ
  pub h_rank : ℕ → Option ℕ

-- `if (nodes[id].challenge_rank >= 0) h_out_id[nodes[id].challenge_rank] = id;`
abbrev pub put_out_id : Option ℕ → ℕ → (ℕ → ℕ) → ℕ → ℕ
put_out_id none id out_id = out_id
put_out_id (some r) id out_id = update out_id r id

-- The loop over the nodes: `n` nodes from `id` on.
unfoldable pub host_arrays : (ℕ → Node) → ℕ → ℕ → HostArrays → HostArrays
host_arrays nodes zero id a = a
host_arrays nodes (suc n) id a =
    let lv = level_of (nodes id) a.level in
    host_arrays nodes n (id + 1) (record {
      level = update a.level id lv;
      maxlevel = if ltb a.maxlevel lv then lv else a.maxlevel;
      h_np = update a.h_np id (nodes id).num_preds;
      h_p0 = update a.h_p0 id (nodes id).pred0;
      h_p1 = update a.h_p1 id (nodes id).pred1;
      h_out_id = put_out_id (nodes id).challenge_rank id a.h_out_id;
      h_rank = update a.h_rank id (nodes id).challenge_rank;
    })

abbrev pub no_arrays : (ℕ → ℕ) → HostArrays
no_arrays raw = record {
  level = raw;
  maxlevel = 0;
  h_np = raw;
  h_p0 = raw;
  h_p1 = raw;
  h_out_id = raw;
  h_rank = λ id. none;
}

-- `for (id...) level_count[level[id]]++;`
unfoldable pub count_levels : (ℕ → ℕ) → ℕ → ℕ → (ℕ → ℕ) → ℕ → ℕ
count_levels level zero id level_count = level_count
count_levels level (suc n) id level_count =
    count_levels level n (id + 1) (update level_count (level id) (level_count (level id) + 1))

-- `level_start` and `cursor`
pub record LevelStarts : Type 0 where
  pub level_start : ℕ → ℕ
  pub cursor : ℕ → ℕ

-- `for (i...) { level_start[i + 1] = level_start[i] + level_count[i]; cursor[i] = level_start[i]; }`
unfoldable pub sum_levels : (ℕ → ℕ) → ℕ → ℕ → LevelStarts → LevelStarts
sum_levels level_count zero i s = s
sum_levels level_count (suc n) i s = sum_levels level_count n (i + 1) (record {
  level_start = update s.level_start (i + 1) (s.level_start i + level_count i);
  cursor = update s.cursor i (s.level_start i);
})

module _ (h : NodeHash) (gh : GpuHash h) where
  -- The topology of `count` nodes, with the slots and the size of the pool.
  unfoldable pub topo_of : ℕ → (ℕ → Node) → ℕ → (ℕ → ℕ) → (ℕ → ℕ) → ℕ → Topo
  topo_of cb nodes count raw slot pool_size =
      let a = host_arrays nodes count 0 (no_arrays raw) in
      let level_count = count_levels a.level count 0 (λ i. 0) in
      let starts =
        sum_levels level_count (a.maxlevel + 1) 0
          (record { level_start = update raw 0 0; cursor = raw }) in
      record {
        chunk_blocks = cb;
        super_bytes = cb * hash_bytes;
        count = count;
        num_levels = a.maxlevel + 1;
        level_count = level_count;
        level_start = starts.level_start;
        pool_size = pool_size;
        np = a.h_np;
        p0 = a.h_p0;
        p1 = a.h_p1;
        order = place a.level count 0 starts.cursor raw;
        out_id = a.h_out_id;
        desc = h.graph_descriptor cb (parameter_n cb);
        ksrc = gh.key_src;
        kint = gh.key_int;
        slot = slot;
        rank = a.h_rank;
      }

  -- The body of `pose_graph_hbm_topo_build`, once the number of blocks of a chunk is known. `host` tells
  -- whether the host's arrays, those of `pose_graph_edges` and `pose_graph_slot_map` included, could be
  -- allocated, `upload` whether the device accepts the copies.
  unfoldable pub build_at : Strategy → Bool → Bool → ℕ → Algo → (ℕ → ℕ) → (ℕ → ℕ) → Outcome Topo
  build_at strategy host upload cb algo raw slot_out =
      if not_blake3 algo || (cb == 0 || ltb (2 ^ 32 - 1) cb)
      then failed
      else elim (graph_edges h host host cb) [
        | failed ↦ failed
        | fault ↦ fault
        | done (nodes, count) ↦
            if count == 0 || ltb (2 ^ 32 - 1) count
            then failed
            else (if host
                then (if uses_slot_map strategy
                    then elim (graph_slot_map h true host host host host cb raw slot_out) [
                      | failed ↦ failed
                      | fault ↦ fault
                      | done (slot, pool_size) ↦
                          if upload
                          then done (topo_of cb nodes count raw slot pool_size)
                          else failed
                    ]
                    else (if upload then done (topo_of cb nodes count raw raw 0) else failed))
                else failed)
      ]

  -- `pose_graph_hbm_topo_build`
  unfoldable pub topo_build : Strategy → Bool → Bool → ℕ → Algo → (ℕ → ℕ) → (ℕ → ℕ) → Outcome Topo
  topo_build strategy host upload chunk_blocks =
      build_at strategy host upload (resolve_chunk_blocks chunk_blocks)
