-- ===== src/Gpu/HbmRuns.antt =====
-- `pose_graph_label_hbm` builds the topology and runs the strategy that is compiled in on it.
use po_se_memory_wiping.Prelude.{
  ℕ, zero, suc, ◌+◌, ◌-◌, ◌*◌, ◌/◌, ◌^◌, ◌≤◌, ◌<◌, ◌≡◌, refl, ap, ◌∙◌, inl, inr, true, false, ◌||◌,
  ltb, ◌==◌, Bool-cases, List, [], get_or, get_or-map, arith,
}
use po_se_memory_wiping.Label.{Bytes, blake3, NodeHash, hash_bytes}
use po_se_memory_wiping.Graph.Counts.{graph_max_m, resolve_chunk_blocks, scratch_node_count}
use po_se_memory_wiping.Graph.Counts.Scratch.{scratch_node_count-bounds}
use po_se_memory_wiping.Graph.Emitter.{Node}
use po_se_memory_wiping.Graph.Chunk.{Outcome, done, graph_challenge}
use po_se_memory_wiping.Graph.Chunk.Output.{
  in_range, node_labels, challenge_set, length-challenge_set, do_label_inplace_in,
}
use po_se_memory_wiping.Graph.Chunk.Verifier.{graph_challenge-do_label_inplace}
use po_se_memory_wiping.Graph.Edges.{graph_edges}
use po_se_memory_wiping.Graph.Edges.Run.{edge_nodes, graph_edges_in}
use po_se_memory_wiping.Graph.Region.Rounds.{resolve_pos}
use po_se_memory_wiping.Graph.SlotMap.{graph_slot_map}
use po_se_memory_wiping.Graph.SlotMap.Map.{graph_slot_map_total, graph_slot_map-lt, slots_apart}
use po_se_memory_wiping.Gpu.{Topo, GpuHash, Device}
use po_se_memory_wiping.Gpu.Topology.{
  Strategy, level_strategy, block_strategy, thread_strategy, warp_strategy, topo_of, build_at,
  topo_build,
}
use po_se_memory_wiping.Gpu.Driver.{CudaRuntime, GpuResult, label_gpu_run, topo_label, label_hbm}
use po_se_memory_wiping.Gpu.Runs.{IsHealthy, IsDone}
use po_se_memory_wiping.Gpu.Strategies.{
  FairRun, ctx, chunk_labels, IsLabelledBy, block_run, warp_run, thread_run,
}
use po_se_memory_wiping.Gpu.LevelRun.{level_run}

pub resolve_again : (n : ℕ) → resolve_chunk_blocks (resolve_chunk_blocks n) ≡ resolve_chunk_blocks n
unfolding resolve_chunk_blocks
resolve_again zero = refl
resolve_again (suc n) = refl

module _ (h : NodeHash) (gh : GpuHash h) (strategy : Strategy) (cuda : CudaRuntime)
    (healthy : IsHealthy cuda) (turns : ℕ → ℕ → List ℕ) (raw slot_out : ℕ → ℕ)
    (session_seed : Bytes) (chunk_blocks hbm_len offset : ℕ)
    (small : resolve_chunk_blocks chunk_blocks ≤ graph_max_m)
    (fair : FairRun strategy cuda (scratch_node_count (resolve_chunk_blocks chunk_blocks)) turns)
    (d : Device) where
  abbrev cb : ℕ
  cb = resolve_chunk_blocks chunk_blocks

  abbrev count : ℕ
  count = scratch_node_count cb

  abbrev nodes : ℕ → Node
  nodes = edge_nodes cb

  pos : 1 ≤ cb
  pos = resolve_pos chunk_blocks

  pub edges : graph_edges h true true cb ≡ done (nodes, count)
  edges = graph_edges_in h cb (in_range cb pos small)

  again : resolve_chunk_blocks cb ≡ cb
  again = resolve_again chunk_blocks

  edges_again : graph_edges h true true (resolve_chunk_blocks cb) ≡ done (nodes, count)
  edges_again = ap (graph_edges h true true) again ∙ edges

  bounds : (1 ≤ count) × (count < 2 ^ 32)
  bounds = scratch_node_count-bounds cb pos small

  good_blocks : (cb == 0 || ltb (2 ^ 32 - 1) cb) ≡ false
  good_blocks = let p = pos in ground arith

  good_count : (count == 0 || ltb (2 ^ 32 - 1) count) ≡ false
  good_count = let p = bounds in ground (arith, p)

  mapped :
      (slots : ℕ → ℕ) × (size : ℕ) × (graph_slot_map h true true true true true cb raw slot_out
        ≡ done (slots, size))
  mapped =
      graph_slot_map_total h cb (omega (arith, pos, again)) (omega (arith, small, again)) nodes
        count edges_again raw slot_out

  abbrev pub num_super : ℕ
  num_super = hbm_len / (cb * hash_bytes)

  -- The run of a strategy on a topology that is built.
  abbrev Labels : (ℕ → ℕ) → ℕ → GpuResult → ℕ → Type 0
  Labels slot size =
      IsLabelledBy h gh cb nodes count edges raw slot size session_seed offset num_super d

  abbrev run_on : Strategy → (ℕ → ℕ) → ℕ → GpuResult
  run_on s slot size =
      label_gpu_run h gh s
        (ctx h gh cb nodes count edges raw slot size session_seed offset num_super) cuda turns d

  slots_lem :
      (s : Strategy)
      → FairRun s cuda count turns
      → (s ≡ level_strategy → ⊥)
      → Labels mapped.0 mapped.1 (run_on s mapped.0 mapped.1) mapped.1
  slots_lem s fair' not_level = by_strategy s fair' not_level
    where
      pos' : 1 ≤ resolve_chunk_blocks cb
      pos' = omega (arith, pos, again)

      small' : resolve_chunk_blocks cb ≤ graph_max_m
      small' = omega (arith, small, again)

      some_slots : 1 ≤ mapped.1
      some_slots = omega (
        arith,
        bounds,
        graph_slot_map-lt h cb pos' small' nodes count edges_again raw slot_out mapped.0 mapped.1
            mapped.2 0 (omega (arith, bounds)),
      )

      by_strategy :
          (s : Strategy)
          → FairRun s cuda count turns
          → (s ≡ level_strategy → ⊥)
          → Labels mapped.0 mapped.1 (run_on s mapped.0 mapped.1) mapped.1
      by_strategy level_strategy f not_level = absurd (not_level refl)
      by_strategy block_strategy f not_level =
          block_run h gh cb nodes count edges raw mapped.0 mapped.1 session_seed offset num_super
            cuda healthy
            (slots_apart h cb pos' small' nodes count edges_again raw slot_out mapped.0 mapped.1
              mapped.2)
            some_slots turns d f
      by_strategy warp_strategy f not_level =
          warp_run h gh cb nodes count edges raw mapped.0 mapped.1 session_seed offset num_super
            cuda healthy
            (slots_apart h cb pos' small' nodes count edges_again raw slot_out mapped.0 mapped.1
              mapped.2)
            some_slots turns d f
      by_strategy thread_strategy f not_level =
          thread_run h gh cb nodes count edges raw mapped.0 mapped.1 session_seed offset num_super
            cuda healthy
            (slots_apart h cb pos' small' nodes count edges_again raw slot_out mapped.0 mapped.1
              mapped.2)
            some_slots d

  level_lem :
      FairRun level_strategy cuda count turns → Labels raw 0 (run_on level_strategy raw 0) count
  level_lem f =
      level_run h gh cb nodes count edges raw raw 0 session_seed offset num_super cuda healthy
        bounds.1 (omega (arith, small)) turns f d

  -- The topology that is built.
  abbrev build : Strategy → ℕ → Outcome Topo
  build s n = build_at h gh s true true n blake3 raw slot_out

  build_again : (s : Strategy) → topo_build h gh s true true cb blake3 raw slot_out ≡ build s cb
  unfolding topo_build
  build_again s = ap (build s) again

  build_slots :
      (s : Strategy)
      → (s ≡ level_strategy → ⊥)
      → build s cb ≡ done (topo_of h gh cb nodes count raw mapped.0 mapped.1)
  unfolding build_at
  build_slots level_strategy not_level = absurd (not_level refl)
  build_slots block_strategy not_level = rw (good_blocks, edges, good_count, mapped.2) refl
  build_slots warp_strategy not_level = rw (good_blocks, edges, good_count, mapped.2) refl
  build_slots thread_strategy not_level = rw (good_blocks, edges, good_count, mapped.2) refl

  build_level : build level_strategy cb ≡ done (topo_of h gh cb nodes count raw raw 0)
  unfolding build_at
  build_level = rw (good_blocks, edges, good_count) refl

  abbrev pub hbm : Strategy → GpuResult
  hbm s =
      label_hbm h gh s cuda turns true true raw slot_out session_seed chunk_blocks hbm_len offset
        blake3 d

  -- A buffer of one chunk at least.
  topo_label_run :
      (s : Strategy) (slot : ℕ → ℕ) (size : ℕ)
      → (num_super == 0) ≡ false
      → topo_label h gh s cuda turns
          (topo_of h gh cb nodes count raw slot size)
          session_seed
          hbm_len
          offset
          d
        ≡ run_on s slot size
  unfolding topo_label topo_of
  topo_label_run s slot size some_super = rw some_super refl

  hbm_run :
      (s : Strategy) (slot : ℕ → ℕ) (size : ℕ)
      → build s cb ≡ done (topo_of h gh cb nodes count raw slot size)
      → (num_super == 0) ≡ false
      → hbm s ≡ run_on s slot size
  unfolding label_hbm
  hbm_run s slot size built some_super =
      rw (good_blocks, some_super, build_again s, built) (topo_label_run s slot size some_super)

  hbm_small : (s : Strategy) → (num_super == 0) ≡ true → hbm s ≡ (d, done tt)
  unfolding label_hbm
  hbm_small s none_fits = rw (good_blocks, none_fits) refl

  abbrev pub labels : ℕ → ℕ → Bytes
  labels = chunk_labels h gh cb nodes count edges raw raw 0 session_seed offset num_super

  abbrev pub HbmDone : Strategy → Type 0
  HbmDone s =
      (d' : Device) × (hbm s ≡ (d', done tt)) × IsDone cb labels 0 num_super d.persist d'.persist

  pub hbm_done : (s : Strategy) → FairRun s cuda count turns → HbmDone s
  hbm_done s f = elim (Bool-cases (num_super == 0)) [
    | inl e ↦
        let no_super : num_super ≡ 0 = ground arith in
        (
          d,
          hbm_small s e,
          record {
            label = λ j r le lt. absurd (omega (arith, lt, no_super));
            others = λ x out. refl;
          },
        )
    | inr e ↦ by_strategy s f e
  ]
    where
      by_slots :
          (s : Strategy)
          → FairRun s cuda count turns
          → (num_super == 0) ≡ false
          → (s ≡ level_strategy → ⊥)
          → HbmDone s
      by_slots s f e not_level =
          let r = slots_lem s f not_level in
          (r.0, hbm_run s mapped.0 mapped.1 (build_slots s not_level) e ∙ r.2, r.3)

      by_strategy :
          (s : Strategy) → FairRun s cuda count turns → (num_super == 0) ≡ false → HbmDone s
      by_strategy level_strategy f e =
          let r = level_lem f in (r.0, hbm_run level_strategy raw 0 build_level e ∙ r.2, r.3)
      by_strategy block_strategy f e = by_slots block_strategy f e (λ q. absurd cc)
      by_strategy warp_strategy f e = by_slots warp_strategy f e (λ q. absurd cc)
      by_strategy thread_strategy f e = by_slots thread_strategy f e (λ q. absurd cc)

  pub challenge_of :
      (j r : ℕ) (labels_buf : ℕ → Bytes)
      → r < cb
      → graph_challenge h true
          (h.chunk_seed session_seed ((offset + j * cb) / cb))
          cb
          r
          labels_buf
          blake3
        ≡ done (labels j (get_or (challenge_set cb) r 0))
  challenge_of j r labels_buf lt =
      graph_challenge-do_label_inplace h seed cb blake3 labels_buf _ r
        (do_label_inplace_in h seed cb blake3 (λ id. []) (in_range cb pos small)) lt
      ∙ ap done (
          get_or-map (node_labels h seed cb blake3 (λ id. [])) (challenge_set cb) r 0 []
            (omega (arith, lt, length-challenge_set cb pos small)))
    where
      seed : Bytes
      seed = h.chunk_seed session_seed ((offset + j * cb) / cb)
