-- ===== src/Gpu/Places.antt =====
-- Where the nodes stand in the topology of `pose_graph_hbm_topo_build`, by the levels of
-- `pose_graph_slot_map`.
use po_se_memory_wiping.Prelude.{ℕ, ◌+◌, ◌-◌, ◌≤◌, ◌<◌, ◌≡◌, sym, ap, ◌∙◌, true, arith}
use po_se_memory_wiping.Label.{NodeHash}
use po_se_memory_wiping.Graph.Emitter.{Node}
use po_se_memory_wiping.Graph.Chunk.{done}
use po_se_memory_wiping.Graph.Edges.{graph_edges}
use po_se_memory_wiping.Graph.SlotMap.Sort.{with_key}
use po_se_memory_wiping.Gpu.{Topo, GpuHash}
use po_se_memory_wiping.Gpu.Topology.{count_levels, topo_of}
use po_se_memory_wiping.Gpu.Levels.{
  with_key-le, count_levels_lem, level_size, order-level, order-place, level_bounds,
}
use po_se_memory_wiping.Gpu.Plan.{topo, uses, arrays, same_levels, lifetimes}

module _ (h : NodeHash) (gh : GpuHash h) (cb : ℕ) (nodes : ℕ → Node) (count : ℕ)
    (edges : graph_edges h true true cb ≡ done (nodes, count)) (raw slot : ℕ → ℕ)
    (pool_size : ℕ) where
  abbrev t : Topo
  t = topo h gh cb nodes count edges raw slot pool_size

  abbrev level : ℕ → ℕ
  level = (uses h gh cb nodes count edges raw slot pool_size).level

  abbrev own_level : ℕ → ℕ
  own_level = (arrays h gh cb nodes count edges raw slot pool_size).level

  abbrev top : ℕ
  top = (arrays h gh cb nodes count edges raw slot pool_size).maxlevel

  level_same : (id : ℕ) → own_level id ≡ level id
  level_same id = ap (λ f. f id) (same_levels h gh cb nodes count edges raw slot pool_size).0

  counts : ℕ → ℕ
  counts = count_levels own_level count 0 (λ i. 0)

  counted : (k : ℕ) → counts k ≡ with_key own_level k count
  unfolding counts
  counted k =
      let all : 0 + count ≡ count = omega arith in
      omega (arith, count_levels_lem own_level count 0 (λ i. 0) k, ap (with_key own_level k) all)

  keys : (i : ℕ) → i < count → own_level i < top + 1
  keys i lt = omega (
    arith,
    level_same i,
    (same_levels h gh cb nodes count edges raw slot pool_size).1,
    lifetimes h gh cb nodes count edges raw slot pool_size i lt,
  )

  pub num_levels_lem : (id : ℕ) → id < count → level id < t.num_levels
  unfolding topo_of
  num_levels_lem id lt = omega (arith, keys id lt, level_same id)

  pub level_size' :
      (lv : ℕ) → lv < t.num_levels → t.level_start (lv + 1) - t.level_start lv ≡ t.level_count lv
  unfolding topo_of counts
  level_size' lv lt =
      omega (arith, level_size own_level count counts counted (top + 1) raw keys lv lt)

  -- The nodes that stand in the places of a level.
  pub level_range :
      (lv j : ℕ)
      → lv < t.num_levels
      → j < t.level_count lv
      → (t.order (t.level_start lv + j) < count) × (level (t.order (t.level_start lv + j)) ≡ lv)
  unfolding topo_of counts
  level_range lv j lt fits =
      let r = order-level own_level count counts counted (top + 1) raw keys lv j lt fits in
      (r.0, sym (level_same _) ∙ r.1)

  -- Every node stands in a place of its level.
  pub level_place :
      (lv id : ℕ)
      → id < count
      → level id ≡ lv
      → (j : ℕ) × (j < t.level_count lv) × (t.order (t.level_start lv + j) ≡ id)
  unfolding topo_of counts
  level_place lv id lt e =
      let same : own_level id ≡ lv = level_same id ∙ e in
      let r = order-place own_level count counts counted (top + 1) raw keys id lt in
      (
        r.0,
        omega (arith, r.1, ap counts same),
        ap (λ l. t.order (t.level_start l + r.0)) (sym same) ∙ r.2,
      )

  pub level_bounds' : (t.level_start 0 ≡ 0) × (t.level_start t.num_levels ≡ count)
  unfolding topo_of counts
  level_bounds' = level_bounds own_level count counts counted (top + 1) raw keys

  pub level_next :
      (lv : ℕ) → lv < t.num_levels → t.level_start (lv + 1) ≡ t.level_start lv + t.level_count lv
  unfolding topo_of counts
  level_next = level_size own_level count counts counted (top + 1) raw keys

  pub level_count-le : (lv : ℕ) → t.level_count lv ≤ count
  unfolding topo_of counts
  level_count-le lv = omega (arith, counted lv, with_key-le own_level lv count)
