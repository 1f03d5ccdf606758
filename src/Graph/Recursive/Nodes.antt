-- ===== src/Graph/Recursive/Nodes.antt =====
-- The nodes of the recursive components, in the order of their ids, and where their bases are.
use po_se_memory_wiping.Prelude.{
  ℕ, zero, suc, ◌+◌, ◌*◌, ◌^◌, ◌≤◌, ◌<◌, ◌≡◌, List, [], ◌∷◌, ◌++◌, length, get_or, drop, All,
  All-append, All-range'-lt, arith, length-append, length-range', length-drop,
}
use po_se_memory_wiping.Graph.Counts.{
  butterfly_node_count, butterfly_size, connected_node_count, standalone_node_count,
}
use po_se_memory_wiping.Graph.Emitter.Spec.{Preds, source, one}
use po_se_memory_wiping.Graph.Connector.Nodes.{
  connector_nodes, connector_out, merged_nodes, merged_out, length-connector_nodes,
  length-merged_nodes,
}

-- Where the center and the right half of a connected copy begin.
abbrev pub center_at : ℕ → ℕ → ℕ
center_at level start = start + connected_node_count level

abbrev pub right_at : ℕ → ℕ → ℕ
right_at level start = start + connected_node_count level + 2 * butterfly_node_count level

unfoldable pub connected_base : ℕ → ℕ → List ℕ
connected_base zero start = start ∷ []
connected_base (suc level) start =
    connected_base level start ++ connected_base level (right_at level start)

unfoldable pub connected_nodes : ℕ → List ℕ → ℕ → List Preds
connected_nodes zero inputs start = one (get_or inputs 0 0) ∷ []
connected_nodes (suc level) inputs start =
    connected_nodes level inputs start
    ++ (merged_nodes level (connected_base level start) (drop (2 ^ level) inputs)
          (center_at level start)
        ++ connected_nodes level (merged_out level (center_at level start)) (right_at level start))

-- The same of a standalone copy.
abbrev pub standalone_center_at : ℕ → ℕ → ℕ
standalone_center_at level start = start + standalone_node_count level

abbrev pub standalone_right_at : ℕ → ℕ → ℕ
standalone_right_at level start = start + standalone_node_count level + butterfly_node_count level

unfoldable pub standalone_base : ℕ → ℕ → List ℕ
standalone_base zero start = start ∷ []
standalone_base (suc level) start =
    standalone_base level start ++ connected_base level (standalone_right_at level start)

unfoldable pub standalone_nodes : ℕ → ℕ → List Preds
standalone_nodes zero start = source ∷ []
standalone_nodes (suc level) start =
    standalone_nodes level start
    ++ (connector_nodes level (standalone_base level start) (standalone_center_at level start)
        ++ connected_nodes level (connector_out level (standalone_center_at level start))
            (standalone_right_at level start))

two_pow-suc : (n : ℕ) → 2 ^ suc n ≡ 2 * 2 ^ n
two_pow-suc n = omega arith

pub length-connected_base : (level start : ℕ) → length (connected_base level start) ≡ 2 ^ level
unfolding connected_base
length-connected_base zero start = omega arith
length-connected_base (suc level) start = omega (
  arith,
  length-append (connected_base level start) (connected_base level (right_at level start)),
  length-connected_base level start,
  length-connected_base level (right_at level start),
)

pub length-standalone_base : (level start : ℕ) → length (standalone_base level start) ≡ 2 ^ level
unfolding standalone_base
length-standalone_base zero start = omega arith
length-standalone_base (suc level) start = omega (
  arith,
  length-append (standalone_base level start)
      (connected_base level (standalone_right_at level start)),
  length-standalone_base level start,
  length-connected_base level (standalone_right_at level start),
)

pub length-connected_nodes :
    (level : ℕ) (inputs : List ℕ) (start : ℕ)
    → 2 ^ level ≤ length inputs
    → length (connected_nodes level inputs start) ≡ connected_node_count level
unfolding connected_nodes connected_node_count
length-connected_nodes zero inputs start enough = omega arith
length-connected_nodes (suc level) inputs start enough = omega (
  arith,
  length-append (connected_nodes level inputs start) _,
  length-append
      (merged_nodes level (connected_base level start) (drop (2 ^ level) inputs)
        (center_at level start))
      (connected_nodes level (merged_out level (center_at level start)) (right_at level start)),
  length-connected_nodes level inputs start (omega arith),
  length-merged_nodes level (connected_base level start) (drop (2 ^ level) inputs)
      (center_at level start) (omega (arith, length-drop (2 ^ level) inputs)),
  length-connected_nodes level (merged_out level (center_at level start)) (right_at level start) (
      omega (
        arith,
        length-range' (center_at level start + butterfly_node_count level + level * 2 ^ level)
            (2 ^ level),
      )),
)

pub length-standalone_nodes :
    (level start : ℕ) → length (standalone_nodes level start) ≡ standalone_node_count level
unfolding standalone_nodes standalone_node_count
length-standalone_nodes zero start = omega arith
length-standalone_nodes (suc level) start = omega (
  arith,
  length-append (standalone_nodes level start) _,
  length-append
      (connector_nodes level (standalone_base level start) (standalone_center_at level start))
      (connected_nodes level (connector_out level (standalone_center_at level start))
        (standalone_right_at level start)),
  length-standalone_nodes level start,
  length-connector_nodes level (standalone_base level start) (standalone_center_at level start)
      (omega (arith, length-standalone_base level start)),
  length-connected_nodes level (connector_out level (standalone_center_at level start))
      (standalone_right_at level start)
      (omega
        (arith, length-range' (standalone_center_at level start + level * 2 ^ level) (2 ^ level))),
)

-- A base lies among the copy's own ids.
pub connected_base-lt :
    (level start b : ℕ)
    → start + connected_node_count level ≤ b
    → All (λ j. j < b) (connected_base level start)
unfolding connected_base connected_node_count
connected_base-lt zero start b le = (omega arith, tt)
connected_base-lt (suc level) start b le =
    All-append (λ j. j < b) (connected_base level start)
      (connected_base level (right_at level start)) (connected_base-lt level start b (omega arith))
      (connected_base-lt level (right_at level start) b (omega arith))

pub standalone_base-lt :
    (level start b : ℕ)
    → start + standalone_node_count level ≤ b
    → All (λ j. j < b) (standalone_base level start)
unfolding standalone_base standalone_node_count
standalone_base-lt zero start b le = (omega arith, tt)
standalone_base-lt (suc level) start b le =
    All-append (λ j. j < b) (standalone_base level start)
      (connected_base level (standalone_right_at level start))
      (standalone_base-lt level start b (omega arith))
      (connected_base-lt level (standalone_right_at level start) b (omega arith))

pub connector_out-lt :
    (dim start b : ℕ)
    → start + butterfly_node_count dim ≤ b
    → All (λ j. j < b) (connector_out dim start)
connector_out-lt dim start b le =
    All-range'-lt (start + dim * 2 ^ dim) (2 ^ dim) b (omega (arith, butterfly_size dim))
