-- ===== src/Graph/Counts.antt =====
-- The sizes of the graph: graph.c, `butterfly_node_count` to `standalone_node_count`,
-- `pose_graph_parameter_n` and `scratch_node_count`.
use po_se_memory_wiping.Prelude.{
  ℕ, zero, suc, ◌+◌, ◌-◌, ◌*◌, ◌/◌, ◌^◌, ◌≡◌, arith, ltb, leb, if◌then◌else◌,
}
pub mod Parameter
pub mod Scratch

-- `POSE_GRAPH_MAX_M`
abbrev pub graph_max_m : ℕ
graph_max_m = 2 ^ 20

-- `POSE_CHUNK_BLOCKS`
abbrev pub default_chunk_blocks : ℕ
default_chunk_blocks = 4096

-- `POSE_ARENA_FACTOR`
abbrev pub arena_factor : ℕ
arena_factor = 16

unfoldable pub butterfly_node_count : ℕ → ℕ
butterfly_node_count dim = (dim + 1) * 2 ^ dim

unfoldable pub connected_node_count : ℕ → ℕ
connected_node_count zero = 1
connected_node_count (suc level) = 2 * connected_node_count level + 2 * butterfly_node_count level

unfoldable pub standalone_node_count : ℕ → ℕ
standalone_node_count zero = 1
standalone_node_count (suc level) =
    standalone_node_count level + butterfly_node_count level + connected_node_count level

-- `while (v > 0) { bits++; v >>= 1; }`
pub bit_length : ℕ → ℕ → ℕ → ℕ
bit_length zero v bits = bits
bit_length (suc fuel) v bits =
    let rest = bit_length fuel (v / 2) (bits + 1) in if ltb 0 v then rest else bits

-- A `uint64_t` has at most 64 bits. `bits - 1` stops at 0, as `n < 0 ? 0 : n` does.
unfoldable pub parameter_n : ℕ → ℕ
unfolding bit_length
parameter_n m = if leb m 1 then 0 else bit_length 64 (m - 1) 0 - 1

unfoldable pub scratch_node_count : ℕ → ℕ
scratch_node_count m = 2 * standalone_node_count (parameter_n m + 1)

-- 0 asks for the default.
unfoldable pub resolve_chunk_blocks : ℕ → ℕ
resolve_chunk_blocks zero = default_chunk_blocks
resolve_chunk_blocks (suc n) = suc n

pub butterfly_size : (dim : ℕ) → butterfly_node_count dim ≡ dim * 2 ^ dim + 2 ^ dim
unfolding butterfly_node_count
butterfly_size dim = omega arith
