-- ===== src/Gpu/Plan.antt =====
-- The topology of `pose_graph_hbm_topo_build` beside the plan that the kernels rely on.
use po_se_memory_wiping.Prelude.{
  ℕ, ◌+◌, ◌≤◌, ◌<◌, ◌≡◌, ◌≢◌, refl, sym, ap, ap₂, ◌∙◌, inl, inr, true, false, leb, ◌==◌,
  if◌then◌else◌, Option, none, some, [], arith,
}
use po_se_memory_wiping.Label.{Bytes, blake3, NodeHash}
use po_se_memory_wiping.Graph.Emitter.{Node}
use po_se_memory_wiping.Graph.Chunk.{done}
use po_se_memory_wiping.Graph.Chunk.Output.{node_labels}
use po_se_memory_wiping.Graph.Edges.{graph_edges}
use po_se_memory_wiping.Graph.Edges.Follow.{label_from}
use po_se_memory_wiping.Graph.Edges.Export.{
  ReadsBelow, graph_edges_topological, challenge_rank_lem, node_labels_lem,
}
use po_se_memory_wiping.Graph.SlotMap.{Uses, node_uses}
use po_se_memory_wiping.Graph.SlotMap.Levels.{Reads, first, second, node_uses_lem, node_uses-Reads}
use po_se_memory_wiping.Gpu.{Topo, GpuHash, label_item}
use po_se_memory_wiping.Gpu.Topology.{HostArrays, host_arrays, no_arrays, topo_of}
use po_se_memory_wiping.Gpu.Host.{IsCopied, host_arrays-assign_levels, host_arrays-IsCopied}
use po_se_memory_wiping.Gpu.Machine.{IsPlan}

module _ (h : NodeHash) (gh : GpuHash h) (cb : ℕ) (nodes : ℕ → Node) (count : ℕ)
    (edges : graph_edges h true true cb ≡ done (nodes, count)) (raw slot : ℕ → ℕ)
    (pool_size : ℕ) where
  abbrev pub topo : Topo
  topo = topo_of h gh cb nodes count raw slot pool_size

  abbrev pub uses : Uses
  uses = node_uses nodes count raw

  abbrev pub arrays : HostArrays
  arrays = host_arrays nodes count 0 (no_arrays raw)

  pub ranks_unique :
      (a b r : ℕ)
      → a < count
      → b < count
      → (nodes a).challenge_rank ≡ some r
      → (nodes b).challenge_rank ≡ some r
      → a ≡ b
  ranks_unique a b r la lb ea eb =
      sym (challenge_rank_lem h cb nodes count edges a r la ea).1
      ∙ (challenge_rank_lem h cb nodes count edges b r lb eb).1

  pub copied : IsCopied nodes count ranks_unique count arrays
  copied =
      host_arrays-IsCopied nodes count ranks_unique count 0 (no_arrays raw) (omega arith) (record {
        np = λ i lt. absurd (omega arith);
        p0 = λ i lt. absurd (omega arith);
        p1 = λ i lt. absurd (omega arith);
        rank = λ i lt. absurd (omega arith);
        out_id = λ i r lt. absurd (omega arith);
      })

  pub same_levels : (arrays.level ≡ uses.level) × (arrays.maxlevel ≡ uses.maxlevel)
  unfolding node_uses
  same_levels =
      host_arrays-assign_levels nodes count 0 (no_arrays raw)
        (record { level = raw; last_use = raw; maxlevel = 0 }) refl refl

  pub lifetimes :
      (id : ℕ)
      → id < count
      → (uses.level id ≤ uses.last_use id) × (uses.last_use id ≤ uses.maxlevel)
  lifetimes = node_uses_lem nodes count (graph_edges_topological h cb nodes count edges) raw

  read_below : (id p : ℕ) → ReadsBelow id (nodes id) → Reads (nodes id) p → p < id
  read_below id p (inl e) (first some_pred is) = omega (arith, e)
  read_below id p (inl e) (second two_preds is) = omega (arith, e)
  read_below id p (inr (inl e)) (first some_pred is) = omega (arith, e.1, is)
  read_below id p (inr (inl e)) (second two_preds is) = omega (arith, e.0)
  read_below id p (inr (inr e)) (first some_pred is) = omega (arith, e.1, is)
  read_below id p (inr (inr e)) (second two_preds is) = omega (arith, e.2, is)

  -- The labels of the chunk with seed `seed`.
  abbrev pub labels_of : Bytes → ℕ → Bytes
  labels_of seed = node_labels h seed cb blake3 (λ id. [])

  module _ (seeds : ℕ → Bytes) (bases : ℕ → ℕ) (cell : ℕ → ℕ) where
    label_with : ℕ → (ℕ → Bytes) → Bytes → ℕ → ℕ → ℕ → Bytes
    label_with id cells seed np p0 p1 =
        gh.gpu_label (if np == 0 then gh.key_src else gh.key_int) id
          (if leb 1 np then some (cells (cell p0)) else none)
          (if leb 2 np then some (cells (cell p1)) else none) seed topo.desc

    -- The arguments that a kernel gives to `label_node`, for the record of a node.
    label_of_node :
        (n : Node) (id : ℕ) (cells : ℕ → Bytes) (seed : Bytes)
        → ReadsBelow id n
        → gh.gpu_label
            (if n.num_preds == 0 then gh.key_src else gh.key_int)
            id
            (if leb 1 n.num_preds then some (cells (cell n.pred0)) else none)
            (if leb 2 n.num_preds then some (cells (cell n.pred1)) else none)
            seed
            topo.desc
          ≡ label_from h seed topo.desc blake3 (λ p. cells (cell p)) id n
    label_of_node n id cells seed (inl e) = rw e (gh.gpu_label_source id seed topo.desc)
    label_of_node n id cells seed (inr (inl e)) =
        rw e.0 (gh.gpu_label_internal id (some (cells (cell n.pred0))) none seed topo.desc)
    label_of_node n id cells seed (inr (inr e)) = rw e.0 (
        gh.gpu_label_internal id (some (cells (cell n.pred0))) (some (cells (cell n.pred1))) seed
          topo.desc)

    -- It depends on what the node reads alone.
    label_from_reads :
        (n : Node) (id : ℕ) (f g : ℕ → Bytes) (seed : Bytes)
        → ReadsBelow id n
        → ((p : ℕ) → Reads n p → f p ≡ g p)
        → label_from h seed topo.desc blake3 f id n ≡ label_from h seed topo.desc blake3 g id n
    label_from_reads n id f g seed (inl e) same = rw e refl
    label_from_reads n id f g seed (inr (inl e)) same = rw e.0 (
        ap (λ p. h.label_node false id (some p) none seed topo.desc blake3)
          (same n.pred0 (first (omega (arith, e.0)) refl)))
    label_from_reads n id f g seed (inr (inr e)) same = rw e.0 (
        ap₂ (λ p q. h.label_node false id (some p) (some q) seed topo.desc blake3)
          (same n.pred0 (first (omega (arith, e.0)) refl))
          (same n.pred1 (second (omega (arith, e.0)) refl)))

    pub label_follows :
        (c id : ℕ) (cells : ℕ → Bytes)
        → id < count
        → ((p : ℕ) → Reads (nodes id) p → cells (cell p) ≡ labels_of (seeds c) p)
        → label_item h gh topo seeds bases cell cells (seeds c) id ≡ labels_of (seeds c) id
    unfolding topo_of label_with
    label_follows c id cells lt same =
        let below = graph_edges_topological h cb nodes count edges id lt in
        (λ i.
          label_with id cells (seeds c) (copied.np id lt i) (copied.p0 id lt i) (copied.p1 id lt i))
        ∙ label_of_node (nodes id) id cells (seeds c) below
        ∙ label_from_reads (nodes id) id (λ p. cells (cell p)) (labels_of (seeds c)) (seeds c) below
            same
        ∙ sym (node_labels_lem h cb nodes count edges (seeds c) blake3 (λ id. []) id lt)

    module _ (rank : ℕ → Option ℕ) (lo hi : ℕ)
        (apart : (a b : ℕ)
          → a < count
          → b < count
          → a ≢ b
          → uses.level a ≤ uses.last_use b
          → uses.level b ≤ uses.last_use a
          → cell a ≢ cell b)
        (unique : (c c' a b r r' : ℕ)
          → ((lo ≤ c) × (c < hi) × (lo ≤ c') × (c' < hi) × (a < count) × (b < count))
          → rank a ≡ some r
          → rank b ≡ some r'
          → bases c + r ≡ bases c' + r'
          → (c ≡ c') × (a ≡ b)) where
      pub topo-IsPlan :
          IsPlan h gh topo seeds bases nodes uses.level uses.last_use cell rank
            (λ c. labels_of (seeds c))
            lo
            hi
      unfolding topo_of
      topo-IsPlan = record {
        lives = λ id lt. (lifetimes id lt).0;
        reads = λ id p lt r.
            let below = read_below id p (graph_edges_topological h cb nodes count edges id lt) r in
            let levels =
              node_uses-Reads nodes count (graph_edges_topological h cb nodes count edges) raw id p
                lt r in
            (omega arith, levels.0, levels.1);
        apart = apart;
        unique = unique;
        follows = λ c id cells lt lo' hi' same. label_follows c id cells lt same;
      }
