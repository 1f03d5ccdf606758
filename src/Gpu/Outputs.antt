-- ===== src/Gpu/Outputs.antt =====
-- The copies of a wave: `k_extract_outputs` of label_gpu_level.cu.
use native.Mathlib.Decide.{ℕ_discrete}
use po_se_memory_wiping.Prelude.{
  ℕ, zero, suc, ◌+◌, ◌≤◌, ◌<◌, ◌≡◌, ◌≢◌, refl, sym, ap, ◌∙◌, true, get_or, update, update_self,
  update_ne, arith,
}
use po_se_memory_wiping.Label.{Bytes, NodeHash}
use po_se_memory_wiping.Graph.Emitter.{Node}
use po_se_memory_wiping.Graph.Chunk.{done}
use po_se_memory_wiping.Graph.Chunk.Output.{challenge_set}
use po_se_memory_wiping.Graph.Edges.{graph_edges}
use po_se_memory_wiping.Graph.Edges.Export.{challenge_set-challenge_rank}
use po_se_memory_wiping.Gpu.{
  Topo, GpuHash, Device, run_level, wave_level, all_levels, each_level, extract_ranks,
  extract_outputs,
}
use po_se_memory_wiping.Gpu.Topology.{topo_of}
use po_se_memory_wiping.Gpu.Plan.{topo, copied, labels_of}
use po_se_memory_wiping.Gpu.Driver.{batch_chunks}
use po_se_memory_wiping.Gpu.Chunks.{IsPersisted}
use po_se_memory_wiping.Gpu.Waves.{Labelled}

module _ (h : NodeHash) (gh : GpuHash h) (cb : ℕ) (nodes : ℕ → Node) (count : ℕ)
    (edges : graph_edges h true true cb ≡ done (nodes, count)) (raw slot : ℕ → ℕ) (pool_size : ℕ)
    (seeds : ℕ → Bytes) (bases : ℕ → ℕ) (w_count : ℕ) (some_chunk : 1 ≤ w_count) where
  abbrev t : Topo
  t = topo h gh cb nodes count edges raw slot pool_size

  abbrev L : ℕ → ℕ → Bytes
  L c = labels_of h gh cb nodes count edges raw slot pool_size (seeds c)

  abbrev Filled : Device → Type 0
  Filled = Labelled h gh cb nodes count edges raw slot pool_size seeds bases w_count some_chunk

  -- The copies for `n` ranks from `r` on.
  extract_ranks_lem :
      (w n r : ℕ) (d : Device)
      → ((extract_ranks h gh t seeds bases w n r d).scratch ≡ d.scratch)
        × ((q : ℕ)
            → r ≤ q
            → q < r + n
            → (extract_ranks h gh t seeds bases w n r d).persist (bases w + q)
              ≡ d.scratch w (t.out_id q))
        × ((x : ℕ)
            → ((q : ℕ) → r ≤ q → q < r + n → x ≢ bases w + q)
            → (extract_ranks h gh t seeds bases w n r d).persist x ≡ d.persist x)
  unfolding extract_ranks
  extract_ranks_lem w zero r d = (refl, λ q le lt. absurd (omega arith), λ x out. refl)
  extract_ranks_lem w (suc n) r d =
      let rest = extract_ranks_lem w n (r + 1) (record d { persist = now }) in
      (
        rest.0,
        λ q le lt. elim (ℕ_discrete q r) [
          | yes e ↦
              rest.2 (bases w + q) (λ q' le' lt' same. omega (arith, e, same))
              ∙ ap (λ k. now (bases w + k)) e
              ∙ update_self d.persist (bases w + r) (d.scratch w (t.out_id r))
              ∙ ap (λ k. d.scratch w (t.out_id k)) (sym e)
          | no ne ↦ rest.1 q (omega (arith, ne)) (omega arith)
        ],
        λ x out.
            rest.2 x (λ q le lt. out q (omega arith) (omega arith))
            ∙ update_ne d.persist (bases w + r) x (d.scratch w (t.out_id r))
                (out r (omega arith) (omega arith)),
      )
    where
      now : ℕ → Bytes
      now = update d.persist (bases w + r) (d.scratch w (t.out_id r))

  pub extract_ranks-IsPersisted :
      (w : ℕ) (d : Device)
      → w < w_count
      → Filled d
      → IsPersisted cb (bases w) (L w) d.persist (extract_ranks h gh t seeds bases w cb 0 d).persist
        × Filled (extract_ranks h gh t seeds bases w cb 0 d)
  unfolding po_se_memory_wiping.Gpu.Waves.Labelled topo_of
  extract_ranks-IsPersisted w d lt labelled = (
    record {
      label = λ r small.
          let c = challenge_set-challenge_rank h cb nodes count edges r small in
          let id = get_or (challenge_set cb) r 0 in
          copies.1 r (omega arith) (omega arith)
          ∙ ap (d.scratch w)
              ((copied h gh cb nodes count edges raw slot pool_size).out_id id r c.0 c.1)
          ∙ labelled w id lt c.0;
      others = λ x out. copies.2 x (λ q le small. out q (omega arith));
    },
    λ c p lc lp. ap (λ f. f c p) copies.0 ∙ labelled c p lc lp,
  )
    where
      copies :
          ((extract_ranks h gh t seeds bases w cb 0 d).scratch ≡ d.scratch)
          × ((q : ℕ)
              → 0 ≤ q
              → q < 0 + cb
              → (extract_ranks h gh t seeds bases w cb 0 d).persist (bases w + q)
                ≡ d.scratch w (t.out_id q))
          × ((x : ℕ)
              → ((q : ℕ) → 0 ≤ q → q < 0 + cb → x ≢ bases w + q)
              → (extract_ranks h gh t seeds bases w cb 0 d).persist x ≡ d.persist x)
      copies = extract_ranks_lem w cb 0 d

  -- The copies of a wave are those of its scaffolds, one after the other.
  pub extract_outputs-batch_chunks :
      (n w : ℕ) (d : Device)
      → extract_outputs h gh t seeds bases n w d
        ≡ batch_chunks (λ w. extract_ranks h gh t seeds bases w cb 0) n w d
  unfolding extract_outputs batch_chunks topo_of
  extract_outputs-batch_chunks zero w d = refl
  extract_outputs-batch_chunks (suc n) w d =
      extract_outputs-batch_chunks n (w + 1) (extract_ranks h gh t seeds bases w cb 0 d)
