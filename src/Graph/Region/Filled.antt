-- ===== src/Graph/Region/Filled.antt =====
-- The region labelers fill the whole region, and the verifier's challenge finds every label.
use po_se_memory_wiping.Prelude.{
  ℕ, ◌+◌, ◌-◌, ◌*◌, ◌/◌, ◌%◌, ◌≤◌, ◌<◌, ◌≡◌, refl, sym, ap, ◌∙◌, Bool, true, if◌then◌else◌, List,
  [], min, arith,
}
use native.Mathlib.Decide.{dec_lt}
use native.Mathlib.Nat.{mul-le-mul_right}
use po_se_memory_wiping.Label.{Bytes, Algo, NodeHash, hash_bytes}
use po_se_memory_wiping.Graph.Counts.{graph_max_m, resolve_chunk_blocks}
use po_se_memory_wiping.Graph.Chunk.{done, failed, graph_challenge}
use po_se_memory_wiping.Graph.Chunk.Output.{in_range, do_label_inplace_in}
use po_se_memory_wiping.Graph.Chunk.Verifier.{graph_challenge-do_label_inplace}
use po_se_memory_wiping.Graph.Region.{ChunkArg, Labelling, run_threads, region_rounds, label_region}
use po_se_memory_wiping.Graph.Region.Chunks.{seed_of, labels_of_chunk, Labelled}
use po_se_memory_wiping.Graph.Region.Rounds.{
  resolve_pos, good_region, threads_pooled, rounds, rounds_lem,
}

module _ (h : NodeHash) (session_seed : Bytes) (offset : ℕ) (algo : Algo)
    (scratch : ℕ → ℕ → Bytes) where
  -- How a run ends: after some chunk `k` the whole region is labelled.
  region_ends :
      (launch : ℕ → Bool) (region_len chunk_blocks : ℕ) (region : ℕ → Bytes)
      → ((at : ℕ) → launch at ≡ true)
      → 1 ≤ region_len
      → region_len % hash_bytes ≡ 0
      → (small : resolve_chunk_blocks chunk_blocks ≤ graph_max_m)
      → (k : ℕ) × (region' : ℕ → Bytes) × (label_region h session_seed offset algo scratch true
            launch true region_len chunk_blocks region
          ≡ (region', done tt))
        × (region_len / hash_bytes ≤ k * resolve_chunk_blocks chunk_blocks)
        × Labelled h session_seed offset algo scratch
            (resolve_chunk_blocks chunk_blocks)
            (region_len / hash_bytes)
            (resolve_pos chunk_blocks)
            small
            region
            k
            region'
  unfolding label_region
  region_ends launch region_len chunk_blocks region ok pos whole small = (
    ends.0,
    ends.1,
    ap
          (λ b.
            if b
            then (region, failed)
            else rounds_by (run_threads h session_seed offset algo scratch launch))
          (good_region region_len pos whole)
        ∙ ap rounds_by
            (λ i args r. threads_pooled h session_seed offset algo scratch launch ok args r i)
        ∙ ap
            (λ b.
              rounds h session_seed offset algo scratch cb total (resolve_pos chunk_blocks) small
                total b region)
            start
        ∙ ends.2,
    ends.3,
    ends.4,
  )
    where
      cb : ℕ
      cb = resolve_chunk_blocks chunk_blocks

      total : ℕ
      total = region_len / hash_bytes

      rounds_by : (List ChunkArg → (ℕ → Bytes) → Labelling) → Labelling
      rounds_by run = region_rounds h session_seed offset algo scratch cb total run total 0 region

      start : 0 ≡ min (0 * cb) total
      start = omega arith

      ends :
          (k' : ℕ) × (region' : ℕ → Bytes) × (rounds h session_seed offset algo scratch cb total
              (resolve_pos chunk_blocks)
              small
              total
              (min (0 * cb) total)
              region
            ≡ (region', done tt))
          × (total ≤ k' * cb)
          × Labelled h session_seed offset algo scratch cb total
              (resolve_pos chunk_blocks)
              small
              region
              k'
              region'
      ends =
          rounds_lem h session_seed offset algo scratch cb total (resolve_pos chunk_blocks) small
            region total 0 region (λ j i lt. absurd (omega arith), λ b le. refl) (omega arith)

  -- If memory and threads can be had, the region is a positive number of whole 32-byte blocks, and
  -- chunks have at most 2^20 blocks, `pose_graph_label_region` comes to its end,
  -- returns 0 and changes nothing beyond the region.
  pub label_region_total :
      (launch : ℕ → Bool) (region_len chunk_blocks : ℕ) (region : ℕ → Bytes)
      → ((at : ℕ) → launch at ≡ true)
      → 1 ≤ region_len
      → region_len % hash_bytes ≡ 0
      → resolve_chunk_blocks chunk_blocks ≤ graph_max_m
      → (region' : ℕ → Bytes) × (label_region h session_seed offset algo scratch true launch true
            region_len chunk_blocks region
          ≡ (region', done tt))
        × ((b : ℕ) → region' (region_len / hash_bytes + b) ≡ region (region_len / hash_bytes + b))
  label_region_total launch region_len chunk_blocks region ok pos whole small =
      let ends = region_ends launch region_len chunk_blocks region ok pos whole small in
      (ends.1, ends.2, λ b. ends.4.1 (region_len / hash_bytes + b) (omega arith))

  -- If memory and threads can be had, the region is a positive number of whole 32-byte blocks,
  -- chunks have at most 2^20 blocks, and `pose_graph_label_region` returns 0 and leaves
  -- `region'`, then for every chunk `k` of the region and every position `i` in it,
  -- `pose_graph_challenge`, given memory, with the seed of chunk index `(offset + k *
  -- chunk_blocks) / chunk_blocks` and the number of blocks that chunk `k` has, returns for `i`
  -- the block of `region'` at `k * chunk_blocks + i`.
  pub graph_challenge-label_region :
      (launch : ℕ → Bool) (region_len chunk_blocks : ℕ) (region region' : ℕ → Bytes) (k i : ℕ)
      (labels_buf : ℕ → Bytes)
      → ((at : ℕ) → launch at ≡ true)
      → 1 ≤ region_len
      → region_len % hash_bytes ≡ 0
      → resolve_chunk_blocks chunk_blocks ≤ graph_max_m
      → label_region h session_seed offset algo scratch true launch true region_len chunk_blocks
          region
        ≡ (region', done tt)
      → i
        < min
            (resolve_chunk_blocks chunk_blocks)
            (region_len / hash_bytes - k * resolve_chunk_blocks chunk_blocks)
      → graph_challenge h true
          (h.chunk_seed session_seed
            ((offset + k * resolve_chunk_blocks chunk_blocks) / resolve_chunk_blocks chunk_blocks))
          (min
            (resolve_chunk_blocks chunk_blocks)
            (region_len / hash_bytes - k * resolve_chunk_blocks chunk_blocks))
          i
          labels_buf
          algo
        ≡ done (region' (k * resolve_chunk_blocks chunk_blocks + i))
  graph_challenge-label_region launch region_len chunk_blocks region region' k i labels_buf ok pos
        whole small run lt =
      graph_challenge-do_label_inplace h
        (seed_of h session_seed offset algo scratch cb (region_len / hash_bytes)
          (resolve_pos chunk_blocks) small k)
        blocks algo labels_buf
        (labels_of_chunk h session_seed offset algo scratch cb (region_len / hash_bytes)
          (resolve_pos chunk_blocks) small k)
        i
        (do_label_inplace_in h
          (seed_of h session_seed offset algo scratch cb (region_len / hash_bytes)
            (resolve_pos chunk_blocks) small k)
          blocks algo (λ i. []) (in_range blocks (omega arith) (omega arith)))
        lt
      ∙ ap done (
          sym (ends.4.0 k i reached lt)
          ∙ ap (λ (r : Labelling). r.0 (k * cb + i)) (sym ends.2 ∙ run))
    where
      cb : ℕ
      cb = resolve_chunk_blocks chunk_blocks

      blocks : ℕ
      blocks = min cb (region_len / hash_bytes - k * cb)

      ends :
          (k' : ℕ) × (region'' : ℕ → Bytes) × (label_region h session_seed offset algo scratch true
              launch true region_len chunk_blocks region
            ≡ (region'', done tt))
          × (region_len / hash_bytes ≤ k' * cb)
          × Labelled h session_seed offset algo scratch cb
              (region_len / hash_bytes)
              (resolve_pos chunk_blocks)
              small
              region
              k'
              region''
      ends = region_ends launch region_len chunk_blocks region ok pos whole small

      reached : k < ends.0
      reached = elim (dec_lt k ends.0) [
        | yes r ↦ r
        | no beyond ↦
            absurd (omega (arith, ends.3, mul-le-mul_right {m = ends.0} {n = k} cb (omega arith)))
      ]
