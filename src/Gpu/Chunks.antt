-- ===== src/Gpu/Chunks.antt =====
-- The kernels that walk the levels of one chunk: `k_label_chunk_block` and `k_label_chunk_warp`.
use mathlib.Core.Path.{subst}
use po_se_memory_wiping.Prelude.{
  ℕ, zero, suc, ◌+◌, ◌-◌, ◌≤◌, ◌<◌, ◌≡◌, ◌≢◌, refl, sym, ap, ◌∙◌, true, some, List, get_or, arith,
}
use po_se_memory_wiping.Label.{Bytes, NodeHash}
use po_se_memory_wiping.Graph.Emitter.{Node}
use po_se_memory_wiping.Graph.Chunk.{done}
use po_se_memory_wiping.Graph.Chunk.Output.{challenge_set}
use po_se_memory_wiping.Graph.Edges.{graph_edges}
use po_se_memory_wiping.Graph.Edges.Export.{challenge_rank_lem, challenge_set-challenge_rank}
use po_se_memory_wiping.Gpu.{Topo, GpuHash, Device, chunk_levels}
use po_se_memory_wiping.Gpu.Topology.{topo_of}
use po_se_memory_wiping.Gpu.Fair.{IsFair}
use po_se_memory_wiping.Gpu.Machine.{IsPlan, Outside, IsBefore}
use po_se_memory_wiping.Gpu.Machine.Turns.{run_level-IsBefore}
use po_se_memory_wiping.Gpu.Plan.{topo, uses, copied, ranks_unique, labels_of, topo-IsPlan}
use po_se_memory_wiping.Gpu.Places.{num_levels_lem, level_size', level_range, level_place}

-- A chunk is persisted: its blocks have the labels of the challenge set, and the others what `old` has.
pub record IsPersisted (cb base : ℕ) (labels old persist : ℕ → Bytes) : Type 0 where
  pub label : (r : ℕ) → r < cb → persist (base + r) ≡ labels (get_or (challenge_set cb) r 0)
  pub others : (x : ℕ) → ((r : ℕ) → r < cb → x ≢ base + r) → persist x ≡ old x

module _ (h : NodeHash) (gh : GpuHash h) (cb : ℕ) (nodes : ℕ → Node) (count : ℕ)
    (edges : graph_edges h true true cb ≡ done (nodes, count)) (raw slot : ℕ → ℕ) (pool_size : ℕ)
    (apart : (a b : ℕ)
      → a < count
      → b < count
      → a ≢ b
      → (uses h gh cb nodes count edges raw slot pool_size).level a
        ≤ (uses h gh cb nodes count edges raw slot pool_size).last_use b
      → (uses h gh cb nodes count edges raw slot pool_size).level b
        ≤ (uses h gh cb nodes count edges raw slot pool_size).last_use a
      → slot a ≢ slot b)
    (seeds : ℕ → Bytes) (bases : ℕ → ℕ) (b : ℕ) where
  abbrev t : Topo
  t = topo h gh cb nodes count edges raw slot pool_size

  abbrev level : ℕ → ℕ
  level = (uses h gh cb nodes count edges raw slot pool_size).level

  abbrev last_use : ℕ → ℕ
  last_use = (uses h gh cb nodes count edges raw slot pool_size).last_use

  abbrev L : ℕ → ℕ → Bytes
  L c = labels_of h gh cb nodes count edges raw slot pool_size (seeds c)

  rank_is : (id : ℕ) → id < count → t.rank id ≡ (nodes id).challenge_rank
  unfolding topo_of
  rank_is = (copied h gh cb nodes count edges raw slot pool_size).rank

  plan : IsPlan h gh t seeds bases nodes level last_use slot t.rank L b (b + 1)
  plan =
      topo-IsPlan h gh cb nodes count edges raw slot pool_size seeds bases slot t.rank b (b + 1)
        apart
        (λ c c' x y r r' in_range ex ey same.
          let here : c ≡ c' = omega (arith, in_range) in
          let ranks : r ≡ r' = omega (arith, same, ap bases here) in
          (
            here,
            ranks_unique h gh cb nodes count edges raw slot pool_size x y r in_range.4 in_range.5
                (sym (rank_is x in_range.4) ∙ ex)
                (sym (rank_is y in_range.5) ∙ ey ∙ ap some (sym ranks)),
          ))

  abbrev Before : (ℕ → Bytes) → ℕ → Device → Type 0
  Before = IsBefore h gh t seeds bases nodes level last_use slot t.rank L b (b + 1)

  chunk_levels-IsBefore :
      (stride : ℕ) (turns : ℕ → List ℕ) (old : ℕ → Bytes) (n lv : ℕ) (d : Device)
      → 0 < stride
      → lv + n ≡ t.num_levels
      → ((k : ℕ) → k < t.num_levels → IsFair stride (t.level_count k) (turns k))
      → Before old lv d
      → Before old t.num_levels (chunk_levels h gh t seeds bases stride b turns n lv d)
  unfolding chunk_levels topo_of
  chunk_levels-IsBefore stride turns old zero lv d pos at fair before =
      let same : lv ≡ t.num_levels = omega arith in subst (λ k. Before old k d) same before
  chunk_levels-IsBefore stride turns old (suc n) lv d pos at fair before =
      chunk_levels-IsBefore stride turns old n (lv + 1) _ pos (omega arith) fair (
        run_level-IsBefore h gh t seeds bases nodes level last_use slot t.rank L b (b + 1) plan lv
          (t.level_start (lv + 1) - t.level_start lv) (λ i. b) (λ i. t.order (t.level_start lv + i))
          (λ i lt.
            let r =
              level_range h gh cb nodes count edges raw slot pool_size lv i inside
                (omega (arith, size, lt)) in
            (omega arith, omega arith, omega (arith, r.0, all), r.1))
          stride old (turns lv) d pos
          (λ c id lo hi lt e.
            let p =
              level_place h gh cb nodes count edges raw slot pool_size lv id
                (omega (arith, lt, all)) e in
            (p.0, omega (arith, p.1, size), omega arith, p.2))
          (subst (λ k. IsFair stride k (turns lv)) (sym size) (fair lv inside)) before)
    where
      inside : lv < t.num_levels
      inside = omega arith

      size : t.level_start (lv + 1) - t.level_start lv ≡ t.level_count lv
      size = level_size' h gh cb nodes count edges raw slot pool_size lv inside

      all : t.count ≡ count
      all = refl

  pub chunk_levels-IsPersisted :
      (stride : ℕ) (turns : ℕ → List ℕ) (d : Device)
      → 0 < stride
      → ((k : ℕ) → k < t.num_levels → IsFair stride (t.level_count k) (turns k))
      → IsPersisted cb
          (bases b)
          (L b)
          d.persist
          (chunk_levels h gh t seeds bases stride b turns t.num_levels 0 d).persist
  unfolding Outside topo_of
  chunk_levels-IsPersisted stride turns d pos fair = record {
    label = λ r lt.
        let c = challenge_set-challenge_rank h cb nodes count edges r lt in
        let id = get_or (challenge_set cb) r 0 in
        after.older b id r (omega arith) (omega arith) c.0
          (num_levels_lem h gh cb nodes count edges raw slot pool_size id c.0)
          (rank_is id c.0 ∙ c.1);
    others = λ x out. after.outside x (λ c id r lo hi lt e same.
        let rank = challenge_rank_lem h cb nodes count edges id r lt (sym (rank_is id lt) ∙ e) in
        let here : c ≡ b = omega arith in out r rank.0 (same ∙ ap (λ k. bases k + r) here));
  }
    where
      after :
          Before d.persist t.num_levels
            (chunk_levels h gh t seeds bases stride b turns t.num_levels 0 d)
      after =
          chunk_levels-IsBefore stride turns d.persist t.num_levels 0 d pos (omega arith) fair
            (record {
              kept = λ c p lo hi lt before. absurd (omega arith);
              older = λ c p r lo hi lt before. absurd (omega arith);
              outside = λ x out. refl;
            })
