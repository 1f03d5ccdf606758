-- ===== src/Graph/Counts/Scratch.antt =====
-- The sizes of the scratch buffers in graph.c: `pose_graph_scratch_bytes` and
-- `pose_graph_scratch_bytes_inplace`, without the wrap-around of `size_t`.
use po_se_memory_wiping.Prelude.{
  ℕ, zero, suc, ◌+◌, ◌-◌, ◌*◌, ◌^◌, ◌≤◌, ◌<◌, ◌≡◌, refl, sym, ap, arith,
}
use native.Mathlib.Nat.{pow-le-pow_right}
use po_se_memory_wiping.Label.{hash_bytes}
use po_se_memory_wiping.Graph.Counts.{
  graph_max_m, arena_factor, butterfly_node_count, connected_node_count, standalone_node_count,
  parameter_n, scratch_node_count, resolve_chunk_blocks,
}
use po_se_memory_wiping.Graph.Counts.Parameter.{parameter_n_least}

-- `pose_graph_scratch_bytes`; an id has 8 bytes.
unfoldable pub graph_scratch_bytes : ℕ → ℕ
graph_scratch_bytes chunk_blocks =
    let m = resolve_chunk_blocks chunk_blocks in
    let half_w = 2 ^ parameter_n m in
    let labels = scratch_node_count m * hash_bytes in
    let bases = 4 * half_w * 8 in
    let arenas = 2 * arena_factor * half_w * 8 in labels + bases + arenas

-- `pose_graph_scratch_bytes_inplace`
unfoldable pub graph_scratch_bytes_inplace : ℕ → ℕ
graph_scratch_bytes_inplace chunk_blocks =
    let half_w = 2 ^ parameter_n (resolve_chunk_blocks chunk_blocks) in
    let bases = 4 * half_w * hash_bytes in
    let arena = arena_factor * half_w * hash_bytes in bases + arena

standalone_node_count-suc : (n : ℕ) → standalone_node_count n ≤ standalone_node_count (suc n)
unfolding standalone_node_count
standalone_node_count-suc n = omega arith

standalone_node_count-le :
    (d level : ℕ) → standalone_node_count level ≤ standalone_node_count (level + d)
standalone_node_count-le zero level = rw (same level) (omega arith)
  where
    same : (n : ℕ) → n + zero ≡ n
    same n = omega arith
standalone_node_count-le (suc d) level =
    rw (shift level d)
      (omega (arith, standalone_node_count-le d level, standalone_node_count-suc (level + d)))
  where
    shift : (n d : ℕ) → n + suc d ≡ suc (n + d)
    shift n d = omega arith

smallest : 1 ≤ standalone_node_count 0
unfolding standalone_node_count
smallest = omega arith

-- The nodes of the largest copy.
largest_copy : standalone_node_count 20 ≡ 201326591
unfolding standalone_node_count connected_node_count butterfly_node_count
largest_copy = refl

copies :
    (m : ℕ)
    → 1 ≤ m
    → m ≤ graph_max_m
    → (standalone_node_count (parameter_n m + 1) ≤ standalone_node_count 20)
      × (2 ^ parameter_n m ≤ 2 ^ 19)
copies m pos small = (
  rw (sym top) (standalone_node_count-le (19 - parameter_n m) (parameter_n m + 1)),
  pow-le-pow_right {n = 2} (omega arith) {i = parameter_n m} {j = 19} n_small,
)
  where
    n_small : parameter_n m ≤ 19
    n_small = (parameter_n_least m 19 pos (omega arith)).1 (omega arith)

    top : parameter_n m + 1 + (19 - parameter_n m) ≡ 20
    top = omega (arith, n_small)

-- The nodes of a chunk, which fit in 32 bits.
pub scratch_node_count-bounds :
    (m : ℕ) → 1 ≤ m → m ≤ graph_max_m → (1 ≤ scratch_node_count m) × (scratch_node_count m < 2 ^ 32)
unfolding scratch_node_count
scratch_node_count-bounds m pos small = (
  omega (arith, smallest, standalone_node_count-le (parameter_n m + 1) 0, from_zero),
  omega (arith, (copies m pos small).0, largest_copy),
)
  where
    from_zero :
        standalone_node_count (0 + (parameter_n m + 1)) ≡ standalone_node_count (parameter_n m + 1)
    from_zero =
        let same : 0 + (parameter_n m + 1) ≡ parameter_n m + 1 = omega arith in
        ap standalone_node_count same

-- For chunks of 1 to 2^20 blocks, both scratch sizes are below 2^64, so that no `size_t` wraps
-- around.
pub scratch_bytes-bounds :
    (chunk_blocks : ℕ)
    → 1 ≤ resolve_chunk_blocks chunk_blocks
    → resolve_chunk_blocks chunk_blocks ≤ graph_max_m
    → (graph_scratch_bytes chunk_blocks < 2 ^ 64)
      × (graph_scratch_bytes_inplace chunk_blocks < 2 ^ 64)
unfolding graph_scratch_bytes graph_scratch_bytes_inplace scratch_node_count
scratch_bytes-bounds chunk_blocks pos small =
    let sizes = copies (resolve_chunk_blocks chunk_blocks) pos small in
    (omega (arith, sizes.0, sizes.1, largest_copy), omega (arith, sizes.1))
