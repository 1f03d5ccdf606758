-- ===== src/Gpu.antt =====
-- The GPU labelers of common/src/cuda: the topology that label_gpu_common.cu keeps on the device, and
-- the kernels of the four strategies.
--
-- A device memory is a function from 32-byte cells. `scratch` has a region of cells for every chunk
-- that is labelled at a time, `persist` is the persisted region. The threads of a kernel take turns in
-- any order: a schedule lists which thread moves next. Between the levels the kernels wait for all
-- of their threads.
pub mod Blake3
pub mod Topology
pub mod Driver
pub mod Machine
pub mod Fair
pub mod Levels
pub mod Host
pub mod Plan
pub mod Places
pub mod Chunks
pub mod Walk
pub mod Runs
pub mod Items
pub mod Waves
pub mod Outputs
pub mod Strategies
pub mod LevelRun
pub mod HbmRuns
pub mod Hbm
pub mod HbmErrors
use po_se_memory_wiping.Prelude.{
  ℕ, zero, suc, ◌+◌, ◌-◌, ◌*◌, ◌/◌, ◌%◌, ◌≡◌, Bool, ltb, leb, ◌==◌, if◌then◌else◌, true, false,
  Option, none, some, List, [], ◌∷◌, update,
}
use po_se_memory_wiping.Label.{Bytes, blake3, NodeHash, hash_bytes}

-- `pose_hbm_topo`. The arrays of the device are the ones that the host uploads.
pub record Topo : Type 0 where
  pub chunk_blocks : ℕ
  pub super_bytes : ℕ
  pub count : ℕ
  pub num_levels : ℕ
  pub level_count : ℕ → ℕ
  pub level_start : ℕ → ℕ
  pub pool_size : ℕ
  pub np : ℕ → ℕ
  pub p0 : ℕ → ℕ
  pub p1 : ℕ → ℕ
  pub order : ℕ → ℕ
  pub out_id : ℕ → ℕ
  pub desc : Bytes
  pub ksrc : List ℕ
  pub kint : List ℕ
  pub slot : ℕ → ℕ
  pub rank : ℕ → Option ℕ

-- `label_gpu_ctx_t`, which repeats the fields of the topology.
pub record GpuContext : Type 0 where
  pub session_seed : Bytes
  pub region_block_offset : ℕ
  pub num_super : ℕ
  pub topo : Topo

-- The keys and the device function `label_node` as the kernels see them, with the promise that its
-- labels are those of hash.c. Gpu.Blake3.Label fills it with the code of blake3_node.cuh.
pub record GpuHash (h : NodeHash) : Type 0 where
  pub key_src : List ℕ
  pub key_int : List ℕ
  pub gpu_label : List ℕ → ℕ → Option Bytes → Option Bytes → Bytes → Bytes → Bytes
  pub gpu_label_source :
      (id : ℕ) (seed desc : Bytes)
      → gpu_label key_src id none none seed desc ≡ h.label_node true id none none seed desc blake3
  pub gpu_label_internal :
      (id : ℕ) (p q : Option Bytes) (seed desc : Bytes)
      → gpu_label key_int id p q seed desc ≡ h.label_node false id p q seed desc blake3

-- `d_scratch` or `d_work` by regions, and the persisted region.
pub record Device : Type 0 where
  pub scratch : ℕ → ℕ → Bytes
  pub persist : ℕ → Bytes

-- What a thread does next for its node: load and hash, store the label, copy it to `persist`.
pub data Stage : Type 0 where
  loading : Stage
  storing : Bytes → Stage
  copying : Stage

-- The loop variable of a thread, and how far it is with the node there.
pub record Lane : Type 0 where
  pub i : ℕ
  pub stage : Stage

-- What the threads of a kernel share on a level: the number of items, the scratch region and the node
-- of each, the cell of a node in its region, and the rank of a node that is copied.
pub record LevelWork : Type 0 where
  pub total : ℕ
  pub region : ℕ → ℕ
  pub node : ℕ → ℕ
  pub cell : ℕ → ℕ
  pub rank : ℕ → Option ℕ

pub record LevelState : Type 0 where
  pub lanes : ℕ → Lane
  pub device : Device

-- `if (r >= 0) copy_label(pbase + r * 32, dst);`
abbrev pub copy_ranked : Option ℕ → ℕ → Bytes → (ℕ → Bytes) → ℕ → Bytes
copy_ranked none base label persist = persist
copy_ranked (some r) base label persist = update persist (base + r) label

-- The cells of region `c` after the label is stored in `cell`.
abbrev pub store_cell : (ℕ → ℕ → Bytes) → ℕ → ℕ → Bytes → ℕ → ℕ → Bytes
store_cell scratch c cell label = update scratch c (update (scratch c) cell label)

module _ (h : NodeHash) (gh : GpuHash h) (topo : Topo) (seeds : ℕ → Bytes) (bases : ℕ → ℕ) where
  -- The arguments of `label_node`, from the cells of a region, and its label.
  abbrev pub label_item : (ℕ → ℕ) → (ℕ → Bytes) → Bytes → ℕ → Bytes
  label_item cell cells seed id =
      gh.gpu_label (if topo.np id == 0 then topo.ksrc else topo.kint) id
        (if leb 1 (topo.np id) then some (cells (cell (topo.p0 id))) else none)
        (if leb 2 (topo.np id) then some (cells (cell (topo.p1 id))) else none) seed topo.desc

  -- A turn of thread `t` at item `i`.
  unfoldable pub stage_turn : ℕ → LevelWork → ℕ → ℕ → Stage → LevelState → LevelState
  stage_turn stride w t i loading s = record s {
    lanes = update s.lanes t (record {
      i = i;
      stage =
          storing
            (label_item w.cell (s.device.scratch (w.region i)) (seeds (w.region i)) (w.node i));
    });
  }
  stage_turn stride w t i (storing label) s = record {
    lanes = update s.lanes t (record { i = i; stage = copying });
    device = record {
      scratch = store_cell s.device.scratch (w.region i) (w.cell (w.node i)) label;
      persist = s.device.persist;
    };
  }
  stage_turn stride w t i copying s = record {
    lanes = update s.lanes t (record { i = i + stride; stage = loading });
    device = record {
      scratch = s.device.scratch;
      persist =
          copy_ranked (w.rank (w.node i)) (bases (w.region i))
            (s.device.scratch (w.region i) (w.cell (w.node i))) s.device.persist;
    };
  }

  -- A turn of thread `t` of `stride`: nothing to do once its loop is over.
  unfoldable pub lane_turn : ℕ → LevelWork → ℕ → LevelState → LevelState
  lane_turn stride w t s =
      if ltb t stride
      then (if ltb (s.lanes t).i w.total
          then stage_turn stride w t (s.lanes t).i (s.lanes t).stage s
          else s)
      else s

  unfoldable pub lane_turns : ℕ → LevelWork → List ℕ → LevelState → LevelState
  lane_turns stride w [] s = s
  lane_turns stride w (t ∷ turns) s = lane_turns stride w turns (lane_turn stride w t s)

  -- One level, from where each thread starts its loop to the barrier.
  unfoldable pub run_level : ℕ → LevelWork → List ℕ → Device → Device
  run_level stride w turns d =
      (lane_turns stride w turns
        (record { lanes = λ t. record { i = t; stage = loading }; device = d })).device

  -- The work of level `lv` of the kernels that walk one chunk, in scratch region `b`.
  abbrev pub chunk_level : ℕ → ℕ → LevelWork
  chunk_level b lv = record {
    total = topo.level_start (lv + 1) - topo.level_start lv;
    region = λ i. b;
    node = λ i. topo.order (topo.level_start lv + i);
    cell = topo.slot;
    rank = topo.rank;
  }

  -- The loop over the levels: `n` levels from `lv` on, with the schedule of each.
  unfoldable pub chunk_levels : ℕ → ℕ → (ℕ → List ℕ) → ℕ → ℕ → Device → Device
  chunk_levels stride b turns zero lv d = d
  chunk_levels stride b turns (suc n) lv d =
      chunk_levels stride b turns n (lv + 1) (run_level stride (chunk_level b lv) (turns lv) d)

  -- `k_label_chunk_block` with 256 threads.
  unfoldable pub chunk_block : ℕ → (ℕ → List ℕ) → Device → Device
  chunk_block b turns = chunk_levels 256 b turns topo.num_levels 0

  -- `k_label_chunk_warp`, the 32 lanes of a warp.
  unfoldable pub chunk_warp : ℕ → (ℕ → List ℕ) → Device → Device
  chunk_warp w turns = chunk_levels 32 w turns topo.num_levels 0

  -- The loop of `k_label_chunk_thread` over `order`: `n` nodes from place `i` on.
  unfoldable pub walk_order : ℕ → ℕ → ℕ → Device → Device
  walk_order t zero i d = d
  walk_order t (suc n) i d =
      let id = topo.order i in
      let label = label_item topo.slot (d.scratch t) (seeds t) id in
      let scratch = store_cell d.scratch t (topo.slot id) label in
      walk_order t n (i + 1) (record {
        scratch = scratch;
        persist = copy_ranked (topo.rank id) (bases t) (scratch t (topo.slot id)) d.persist;
      })

  -- `k_label_chunk_thread`
  unfoldable pub chunk_thread_walk : ℕ → Device → Device
  chunk_thread_walk t = walk_order t topo.count 0

  -- The work of level `lv`, of `n` nodes, on the scaffolds of a wave, each in a region of its own where a node has the
  -- cell of its id. Nothing is copied to `persist` yet.
  abbrev pub wave_level : ℕ → ℕ → ℕ → LevelWork
  wave_level n w_count lv = record {
    total = n * w_count;
    region = λ i. i / n;
    node = λ i. topo.order (topo.level_start lv + i % n);
    cell = λ id. id;
    rank = λ id. none;
  }

  -- `k_label_all_levels` on a grid of `stride` threads: `n` levels from `lv` on.
  unfoldable pub all_levels : ℕ → ℕ → (ℕ → List ℕ) → ℕ → ℕ → Device → Device
  all_levels stride w_count turns zero lv d = d
  all_levels stride w_count turns (suc n) lv d = all_levels stride w_count turns n (lv + 1) (
      run_level stride (wave_level (topo.level_start (lv + 1) - topo.level_start lv) w_count lv)
        (turns lv) d)

  -- One launch of `k_label_level` for each level that has nodes, a thread for each item, in blocks of
  -- 256 threads. The flag tells whether every grid is small enough.
  unfoldable pub each_level : ℕ → (ℕ → List ℕ) → ℕ → ℕ → Device → Device × Bool
  each_level w_count turns zero lv d = (d, true)
  each_level w_count turns (suc n) lv d =
      let total = topo.level_count lv * w_count in
      let now =
        if topo.level_count lv == 0
        then d
        else run_level total (wave_level (topo.level_count lv) w_count lv) (turns lv) d in
      let rest = each_level w_count turns n (lv + 1) now in
      if ltb 0x7fffffff ((total + 256 - 1) / 256) then (d, false) else rest

  -- `k_extract_outputs`, for `n` ranks from `r` on of scaffold `w`.
  unfoldable pub extract_ranks : ℕ → ℕ → ℕ → Device → Device
  extract_ranks w zero r d = d
  extract_ranks w (suc n) r d =
      extract_ranks w n (r + 1)
        (record d { persist = update d.persist (bases w + r) (d.scratch w (topo.out_id r)) })

  -- `k_extract_outputs`, for `n` scaffolds from `w` on. The threads copy to different blocks.
  unfoldable pub extract_outputs : ℕ → ℕ → Device → Device
  extract_outputs zero w d = d
  extract_outputs (suc n) w d = extract_outputs n (w + 1) (extract_ranks w topo.chunk_blocks 0 d)
