-- ===== src/Graph/Chunk/Layout.antt =====
-- The scratch buffers of `do_label` and `do_label_inplace`, beside the sizes that
-- `pose_graph_scratch_bytes` and `pose_graph_scratch_bytes_inplace` ask for.
use po_se_memory_wiping.Prelude.{
  suc, true, [], ℕ, ◌+◌, ◌*◌, ◌^◌, ◌≤◌, ◌<◌, ◌≡◌, refl, some, List, length, length-map, arith,
}
use po_se_memory_wiping.Label.{Bytes, Algo, NodeHash, hash_bytes}
use po_se_memory_wiping.Graph.Counts.{graph_max_m, parameter_n, resolve_chunk_blocks}
use po_se_memory_wiping.Graph.Counts.Scratch.{
  graph_scratch_bytes, graph_scratch_bytes_inplace, scratch_bytes-bounds,
}
use po_se_memory_wiping.Graph.Emitter.{Emitter}
use po_se_memory_wiping.Graph.Recursive.Nodes.{length-standalone_base}
use po_se_memory_wiping.Graph.Inplace.{LEmitter}
use po_se_memory_wiping.Graph.Inplace.Connector.{filled}
use po_se_memory_wiping.Graph.Chunk.{
  half_width, emit_copies, emitter_init, lc_copies, lemitter_init,
}
use po_se_memory_wiping.Graph.Chunk.Run.{
  copy_level, left_total, graph_nodes, left_ids, right_ids, emit_copies_lem, lc_copies_lem,
}
use po_se_memory_wiping.Graph.Chunk.Output.{parameter_n-small}
use po_se_memory_wiping.Graph.Edges.Run.{length-graph_nodes}

twice : (n : ℕ) → 2 ^ (n + 1) ≡ 2 * 2 ^ n
twice n = rw (next n) (omega arith)
  where
    next : (n : ℕ) → n + 1 ≡ suc n
    next n = omega arith

length-ids : (m : ℕ) → length (left_ids m) + length (right_ids m) ≡ 4 * half_width m
length-ids m = omega (
  arith,
  length-standalone_base (copy_level m) 0,
  length-standalone_base (copy_level m) (left_total m),
  twice (parameter_n m),
)

module _ (h : NodeHash) (seed : Bytes) (algo : Algo) (chunk_blocks : ℕ)
    (pos : 1 ≤ resolve_chunk_blocks chunk_blocks)
    (small : resolve_chunk_blocks chunk_blocks ≤ graph_max_m) where
  abbrev m : ℕ
  m = resolve_chunk_blocks chunk_blocks

  -- For chunks of 1 to 2^20 blocks, `pose_graph_scratch_bytes` is below 2^64 and is the size of what
  -- `do_label` lays out: 32 bytes for every id that its emitter gives out, 8 for each id of the two bases
  -- that it ends with, and 8 for each slot of two arenas.
  pub graph_scratch_bytes-emit_copies :
      (labels_buf : ℕ → Bytes)
      → (bases : List ℕ × List ℕ) × (e : Emitter) × (emit_copies h
            (resolve_chunk_blocks chunk_blocks)
            (emitter_init h seed (resolve_chunk_blocks chunk_blocks) labels_buf algo)
          ≡ some (bases, e))
        × (graph_scratch_bytes chunk_blocks
            ≡ e.next_id * hash_bytes
              + (length bases.0 + length bases.1) * 8
              + (e.arena_cap + e.arena_cap) * 8)
        × (graph_scratch_bytes chunk_blocks < 2 ^ 64)
  unfolding emitter_init graph_scratch_bytes
  graph_scratch_bytes-emit_copies labels_buf = (
    _,
    _,
    emit_copies_lem h true m (emitter_init h seed m labels_buf algo) refl refl refl
        (refl, λ p. refl),
    omega (arith, length-ids m, length-graph_nodes m),
    (scratch_bytes-bounds chunk_blocks pos small).0,
  )

  -- For chunks of 1 to 2^20 blocks, `pose_graph_scratch_bytes_inplace` is below 2^64 and is the size of what
  -- `do_label_inplace` lays out: 32 bytes for each label of the two bases that it ends with and for each
  -- slot of its arena.
  pub graph_scratch_bytes_inplace-lc_copies :
      (bases : List Bytes × List Bytes) × (e : LEmitter) × (lc_copies h
          (resolve_chunk_blocks chunk_blocks)
          (lemitter_init h seed (resolve_chunk_blocks chunk_blocks) algo)
        ≡ some (bases, e))
      × (graph_scratch_bytes_inplace chunk_blocks
          ≡ (length bases.0 + length bases.1 + e.arena_cap) * hash_bytes)
      × (graph_scratch_bytes_inplace chunk_blocks < 2 ^ 64)
  unfolding lemitter_init graph_scratch_bytes_inplace
  graph_scratch_bytes_inplace-lc_copies = (
    _,
    _,
    lc_copies_lem h m (λ i. []) (lemitter_init h seed m algo) (parameter_n-small m pos small) refl
        refl refl refl,
    omega (arith, length-ids m, length-map label (left_ids m), length-map label (right_ids m)),
    (scratch_bytes-bounds chunk_blocks pos small).1,
  )
    where
      label : ℕ → Bytes
      label = filled h (lemitter_init h seed m algo) (λ i. []) 0 (graph_nodes m)
