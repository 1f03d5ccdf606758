-- ===== src/Gpu/Waves.antt =====
-- The level strategy of label_gpu_level.cu: the scaffolds of a wave, level by level, in one launch or in one
-- for each level.
use mathlib.Core.Path.{subst}
use native.Mathlib.Decide.{ℕ_discrete}
use native.Mathlib.Nat.{mul-le-mul}
use po_se_memory_wiping.Prelude.{
  ℕ, zero, suc, ◌+◌, ◌-◌, ◌*◌, ◌/◌, ◌%◌, ◌^◌, ◌≤◌, ◌<◌, ◌≡◌, refl, sym, ap, ◌∙◌, inl, inr, true,
  false, ◌==◌, if◌then◌else◌, Bool-cases, Option, none, some, List, arith,
}
use po_se_memory_wiping.Label.{Bytes, NodeHash}
use po_se_memory_wiping.Graph.Emitter.{Node}
use po_se_memory_wiping.Graph.Chunk.{done}
use po_se_memory_wiping.Graph.Edges.{graph_edges}
use po_se_memory_wiping.Gpu.{Topo, GpuHash, Device, run_level, wave_level, all_levels, each_level}
use po_se_memory_wiping.Gpu.Topology.{topo_of}
use po_se_memory_wiping.Gpu.Fair.{IsFair}
use po_se_memory_wiping.Gpu.Machine.{IsPlan, Outside, IsBefore}
use po_se_memory_wiping.Gpu.Machine.Turns.{run_level-IsBefore}
use po_se_memory_wiping.Gpu.Plan.{topo, uses, labels_of, topo-IsPlan}
use po_se_memory_wiping.Gpu.Places.{
  num_levels_lem, level_size', level_range, level_place, level_count-le,
}
use po_se_memory_wiping.Gpu.Items.{item_of, item_range, item_fits, grid_fits}

module _ (h : NodeHash) (gh : GpuHash h) (cb : ℕ) (nodes : ℕ → Node) (count : ℕ)
    (edges : graph_edges h true true cb ≡ done (nodes, count)) (raw slot : ℕ → ℕ) (pool_size : ℕ)
    (seeds : ℕ → Bytes) (bases : ℕ → ℕ) (w_count : ℕ) (some_chunk : 1 ≤ w_count) where
  abbrev t : Topo
  t = topo h gh cb nodes count edges raw slot pool_size

  abbrev level : ℕ → ℕ
  level = (uses h gh cb nodes count edges raw slot pool_size).level

  abbrev last_use : ℕ → ℕ
  last_use = (uses h gh cb nodes count edges raw slot pool_size).last_use

  abbrev L : ℕ → ℕ → Bytes
  L c = labels_of h gh cb nodes count edges raw slot pool_size (seeds c)

  no_rank : (a r : ℕ) → ◌≡◌ {A = Option ℕ} none (some r) → ⊥
  no_rank a r e = cc

  -- Each node keeps its cell to the end.
  abbrev forever : ℕ → ℕ
  forever id = t.num_levels

  plan : IsPlan h gh t seeds bases nodes level forever (λ id. id) (λ id. none) L 0 w_count
  unfolding topo_of
  plan = record {
    lives = λ id lt. low id lt;
    reads = λ id p lt r. let q = recycled.reads id p lt r in (q.0, q.1, low id lt);
    apart = λ a b la lb ne x y. ne;
    unique = recycled.unique;
    follows = recycled.follows;
  }
    where
      recycled : IsPlan h gh t seeds bases nodes level last_use (λ id. id) (λ id. none) L 0 w_count
      recycled =
          topo-IsPlan h gh cb nodes count edges raw slot pool_size seeds bases (λ id. id)
            (λ id. none) 0 w_count (λ a b la lb ne x y. ne)
            (λ c c' x y r r' in_range ex ey same. absurd (no_rank x r ex))

      low : (id : ℕ) → id < count → level id ≤ t.num_levels
      low id lt = omega (arith, num_levels_lem h gh cb nodes count edges raw slot pool_size id lt)

  abbrev Before : (ℕ → Bytes) → ℕ → Device → Type 0
  Before = IsBefore h gh t seeds bases nodes level forever (λ id. id) (λ id. none) L 0 w_count

  -- A level of `n` nodes.
  wave_level-IsBefore :
      (stride n lv : ℕ) (turns : List ℕ) (old : ℕ → Bytes) (d : Device)
      → 0 < stride
      → lv < t.num_levels
      → n ≡ t.level_count lv
      → IsFair stride (n * w_count) turns
      → Before old lv d
      → Before old
          (lv + 1)
          (run_level h gh t seeds bases stride (wave_level h gh t seeds bases n w_count lv) turns d)
  unfolding topo_of
  wave_level-IsBefore stride n lv turns old d pos inside size fair before =
      run_level-IsBefore h gh t seeds bases nodes level forever (λ id. id) (λ id. none) L 0 w_count
        plan lv (n * w_count) (λ i. i / n) (λ i. t.order (t.level_start lv + i % n))
        (λ i lt.
          let p = item_range n w_count i lt in
          let r =
            level_range h gh cb nodes count edges raw slot pool_size lv (i % n) inside
              (omega (arith, size, p)) in
          (omega arith, p.1, r.0, r.1))
        stride old turns d pos
        (λ c id lo hi lt e.
          let p = level_place h gh cb nodes count edges raw slot pool_size lv id lt e in
          let fits : p.0 < n = omega (arith, p.1, size) in
          let item = item_of n c p.0 fits in
          (
            c * n + p.0,
            item_fits n w_count c p.0 fits hi,
            item.0,
            ap (λ k. t.order (t.level_start lv + k)) item.1 ∙ p.2,
          ))
        fair before

  all_levels-IsBefore :
      (stride : ℕ) (turns : ℕ → List ℕ) (old : ℕ → Bytes) (n lv : ℕ) (d : Device)
      → 0 < stride
      → lv + n ≡ t.num_levels
      → ((k : ℕ) → k < t.num_levels → IsFair stride (t.level_count k * w_count) (turns k))
      → Before old lv d
      → Before old t.num_levels (all_levels h gh t seeds bases stride w_count turns n lv d)
  unfolding all_levels
  all_levels-IsBefore stride turns old zero lv d pos at fair before =
      let same : lv ≡ t.num_levels = omega arith in subst (λ k. Before old k d) same before
  all_levels-IsBefore stride turns old (suc n) lv d pos at fair before =
      let inside : lv < t.num_levels = omega arith in
      let size = level_size' h gh cb nodes count edges raw slot pool_size lv inside in
      all_levels-IsBefore stride turns old n (lv + 1) _ pos (omega arith) fair (
        wave_level-IsBefore stride (t.level_start (lv + 1) - t.level_start lv) lv (turns lv) old d
          pos inside size
          (subst (λ k. IsFair stride (k * w_count) (turns lv)) (sym size) (fair lv inside)) before)

  -- A level without nodes is as good as done.
  empty_level :
      (old : ℕ → Bytes) (lv : ℕ) (d : Device)
      → t.level_count lv ≡ 0
      → Before old lv d
      → Before old (lv + 1) d
  unfolding topo_of
  empty_level old lv d none_there before = record {
    kept = λ c p lo hi lt low after. before.kept c p lo hi lt (lower p lt low) (omega arith);
    older = λ c p r lo hi lt low e. absurd (no_rank p r e);
    outside = before.outside;
  }
    where
      lower : (p : ℕ) → p < count → level p < lv + 1 → level p < lv
      lower p lt low = elim (ℕ_discrete (level p) lv) [
        | no ne ↦ omega (arith, ne)
        | yes e ↦ absurd (
            omega (
              arith,
              (level_place h gh cb nodes count edges raw slot pool_size lv p lt e).1,
              none_there,
            ))
      ]

  each_level-IsBefore :
      (turns : ℕ → List ℕ) (old : ℕ → Bytes) (n lv : ℕ) (d : Device)
      → count < 2 ^ 32
      → w_count ≤ 64
      → lv + n ≡ t.num_levels
      → ((k : ℕ)
          → k < t.num_levels
          → IsFair (t.level_count k * w_count) (t.level_count k * w_count) (turns k))
      → Before old lv d
      → ((each_level h gh t seeds bases w_count turns n lv d).1 ≡ true)
        × Before old t.num_levels (each_level h gh t seeds bases w_count turns n lv d).0
  unfolding each_level
  each_level-IsBefore turns old zero lv d small few at fair before =
      let same : lv ≡ t.num_levels = omega arith in (refl, subst (λ k. Before old k d) same before)
  each_level-IsBefore turns old (suc n) lv d small few at fair before =
      let inside : lv < t.num_levels = omega arith in
      let le = level_count-le h gh cb nodes count edges raw slot pool_size lv in
      rw (grid_fits (t.level_count lv) w_count (omega (arith, le)) few)
        (each_level-IsBefore turns old n (lv + 1) _ small few (omega arith) fair (now inside))
    where
      ran : Device
      ran =
          run_level h gh t seeds bases (t.level_count lv * w_count)
            (wave_level h gh t seeds bases (t.level_count lv) w_count lv) (turns lv) d

      some_items : (k : ℕ) → (k == 0) ≡ false → 0 < k * w_count
      some_items zero e = absurd (no_test e)
        where
          no_test : (zero == 0) ≡ false → ⊥
          no_test e = cc
      some_items (suc k) e =
          omega (
            arith,
            mul-le-mul {n₁ = 1} {m₁ = 1} {n₂ = suc k} {m₂ = w_count} (omega arith) some_chunk,
          )

      now : lv < t.num_levels → Before old (lv + 1) (if t.level_count lv == 0 then d else ran)
      now inside = elim (Bool-cases (t.level_count lv == 0)) [
        | inl e ↦
            let none_there : t.level_count lv ≡ 0 = ground arith in
            rw e (empty_level old lv d none_there before)
        | inr e ↦ rw e (
            wave_level-IsBefore (t.level_count lv * w_count) (t.level_count lv) lv (turns lv) old d
              (some_items (t.level_count lv) e) inside refl (fair lv inside) before)
      ]

  -- The labels of all scaffolds are in the work buffer.
  unfoldable pub Labelled : Device → Type 0
  Labelled d = (c p : ℕ) → c < w_count → p < count → d.scratch c p ≡ L c p

  Before-first : (d : Device) → Before d.persist 0 d
  Before-first d = record {
    kept = λ c p lo hi lt before. absurd (omega arith);
    older = λ c p r lo hi lt before. absurd (omega arith);
    outside = λ x out. refl;
  }

  labelled_after :
      (old : ℕ → Bytes) (d : Device) → Before old t.num_levels d → (Labelled d × (d.persist ≡ old))
  unfolding Labelled Outside topo_of
  labelled_after old d before = (
    λ c p lt lp.
        before.kept c p (omega arith) lt lp
          (num_levels_lem h gh cb nodes count edges raw slot pool_size p lp) (omega arith),
    λ i x. before.outside x (λ c id r lo hi lt e. absurd (no_rank id r e)) i,
  )

  pub all_levels_lem :
      (stride : ℕ) (turns : ℕ → List ℕ) (d : Device)
      → 0 < stride
      → ((k : ℕ) → k < t.num_levels → IsFair stride (t.level_count k * w_count) (turns k))
      → Labelled (all_levels h gh t seeds bases stride w_count turns t.num_levels 0 d)
        × ((all_levels h gh t seeds bases stride w_count turns t.num_levels 0 d).persist
            ≡ d.persist)
  all_levels_lem stride turns d pos fair = labelled_after d.persist _ (
      all_levels-IsBefore stride turns d.persist t.num_levels 0 d pos (omega arith) fair
        (Before-first d))

  pub each_level_lem :
      (turns : ℕ → List ℕ) (d : Device)
      → count < 2 ^ 32
      → w_count ≤ 64
      → ((k : ℕ)
          → k < t.num_levels
          → IsFair (t.level_count k * w_count) (t.level_count k * w_count) (turns k))
      → ((each_level h gh t seeds bases w_count turns t.num_levels 0 d).1 ≡ true)
        × Labelled (each_level h gh t seeds bases w_count turns t.num_levels 0 d).0
        × ((each_level h gh t seeds bases w_count turns t.num_levels 0 d).0.persist ≡ d.persist)
  each_level_lem turns d small few fair =
      let r =
        each_level-IsBefore turns d.persist t.num_levels 0 d small few (omega arith) fair
          (Before-first d) in
      let l = labelled_after d.persist _ r.1 in (r.0, l.0, l.1)
