-- ===== src/Graph/Edges/Run.antt =====
-- What `pose_graph_edges` computes: the records of the nodes of both copies, with the ranks of the
-- challenge set.
use po_se_memory_wiping.Prelude.{
  ℕ, ◌+◌, ◌-◌, ◌*◌, ◌^◌, ◌≤◌, ◌<◌, ◌≡◌, refl, ap, ap₂, ◌∙◌, true, false, some, List, length, take,
  drop, All, All-append, All-take, All-drop, arith, length-append, length-take, length-drop,
}
use native.Mathlib.Numerals.{add-one}
use po_se_memory_wiping.Prelude.Exec.{bind_step}
use po_se_memory_wiping.Label.{NodeHash}
use po_se_memory_wiping.Graph.Counts.{graph_max_m, parameter_n, scratch_node_count}
use po_se_memory_wiping.Graph.Emitter.{Node, Emitter}
use po_se_memory_wiping.Graph.Emitter.Spec.{Preds, emit_all, emit_all-append, record_all}
use po_se_memory_wiping.Graph.Connector.Emitted.{InMode, InMode-emit_all}
use po_se_memory_wiping.Graph.Recursive.Nodes.{
  standalone_nodes, length-standalone_nodes, length-standalone_base, standalone_base-lt,
}
use po_se_memory_wiping.Graph.Recursive.Emitted.{emit_standalone_lem}
use po_se_memory_wiping.Graph.Chunk.{done, half_width, out_of_range}
use po_se_memory_wiping.Graph.Chunk.Run.{
  copy_level, left_total, graph_nodes, left_ids, right_ids, arena_enough,
}
use po_se_memory_wiping.Graph.Chunk.Output.{in_range, challenge_set}
use po_se_memory_wiping.Graph.Edges.{
  blank_node, edges_init, mark_ranks, mark_challenges, edge_copies, graph_edges,
}
use po_se_memory_wiping.Graph.Edges.Order.{InOrder, InOrder-append, standalone-InOrder}
use po_se_memory_wiping.Graph.Edges.Rank.{
  Rising, Rising-append, Rising-take, Rising-drop, standalone_base-Rising, mark_ranks-append,
}

pub length-graph_nodes : (m : ℕ) → length (graph_nodes m) ≡ scratch_node_count m
unfolding scratch_node_count
length-graph_nodes m = omega (
  arith,
  length-append (standalone_nodes (copy_level m) 0)
      (standalone_nodes (copy_level m) (left_total m)),
  length-standalone_nodes (copy_level m) 0,
  length-standalone_nodes (copy_level m) (left_total m),
)

pub graph_nodes-InOrder : (m : ℕ) → InOrder 0 (graph_nodes m)
graph_nodes-InOrder m =
    InOrder-append 0 (left_total m) (standalone_nodes (copy_level m) 0)
      (standalone_nodes (copy_level m) (left_total m))
      (omega (arith, length-standalone_nodes (copy_level m) 0))
      (standalone-InOrder (copy_level m) 0) (standalone-InOrder (copy_level m) (left_total m))

left_set : ℕ → List ℕ
left_set m = take (half_width m) (drop (half_width m) (left_ids m))

right_set : ℕ → List ℕ
right_set m = take (m - half_width m) (drop (half_width m) (right_ids m))

length-left_set : (m : ℕ) → length (left_set m) ≡ half_width m
unfolding left_set
length-left_set m = omega (
  arith,
  length-take (half_width m) (drop (half_width m) (left_ids m)),
  length-drop (half_width m) (left_ids m),
  twice,
  length-standalone_base (copy_level m) 0,
)
  where
    twice : 2 ^ (parameter_n m + 1) ≡ 2 * 2 ^ parameter_n m
    twice = rw add-one (omega arith)

pub challenge_set-Rising : (m : ℕ) → Rising 0 (challenge_set m)
unfolding challenge_set
challenge_set-Rising m =
    Rising-append 0 (left_total m) _ _ (omega arith)
      (Rising-take 0 (half_width m) _
        (Rising-drop 0 (half_width m) (left_ids m) (standalone_base-Rising (copy_level m) 0)))
      (All-take _ (half_width m) _ (
        All-drop _ (half_width m) (left_ids m)
          (standalone_base-lt (copy_level m) 0 (left_total m) (omega arith))))
      (Rising-take (left_total m) (m - half_width m) _ (
        Rising-drop (left_total m) (half_width m) (right_ids m)
          (standalone_base-Rising (copy_level m) (left_total m))))

pub challenge_set-lt : (m : ℕ) → All (λ id. id < scratch_node_count m) (challenge_set m)
unfolding challenge_set scratch_node_count
challenge_set-lt m =
    All-append (λ id. id < 2 * left_total m) _ _
      (All-take _ (half_width m) _ (
        All-drop _ (half_width m) (left_ids m)
          (standalone_base-lt (copy_level m) 0 (2 * left_total m) (omega arith))))
      (All-take _ (m - half_width m) _ (
        All-drop _ (half_width m) (right_ids m)
          (standalone_base-lt (copy_level m) (left_total m) (2 * left_total m) (omega arith))))

unfoldable pub edge_nodes : ℕ → ℕ → Node
edge_nodes m = mark_ranks (record_all (λ i. blank_node) 0 (graph_nodes m)) 0 (challenge_set m)

mark_challenges_lem :
    (m : ℕ) (t : ℕ → Node)
    → mark_challenges m (left_ids m) (right_ids m) t ≡ mark_ranks t 0 (challenge_set m)
unfolding mark_challenges challenge_set left_set right_set
mark_challenges_lem m t =
    ap (λ k. mark_ranks (mark_ranks t 0 (left_set m)) k (right_set m)) same
    ∙ mark_ranks-append t 0 (left_set m) (right_set m)
  where
    same : half_width m ≡ 0 + length (left_set m)
    same = omega (arith, length-left_set m)

module _ (h : NodeHash) where
  edge_copies_lem :
      (m : ℕ)
      → edge_copies h m (edges_init m)
        ≡ some ((left_ids m, right_ids m), emit_all h (graph_nodes m) (edges_init m))
  unfolding edge_copies edges_init
  edge_copies_lem m =
      bind_step _
        (emit_standalone_lem h false (copy_level m) 0 (edges_init m) refl mode
          (omega (arith, arena_enough m)))
        (bind_step _
          (emit_standalone_lem h false (copy_level m) (left_total m) e2
            (omega (arith, length-standalone_nodes (copy_level m) 0))
            (InMode-emit_all h false ns (edges_init m) mode) (omega (arith, arena_enough m)))
          (ap (λ s. some ((left_ids m, right_ids m), s))
            (emit_all-append h ns (standalone_nodes (copy_level m) (left_total m)) (edges_init m))))
    where
      ns : List Preds
      ns = standalone_nodes (copy_level m) 0

      e2 : Emitter
      e2 = emit_all h ns (edges_init m)

      mode : InMode false (edges_init m)
      mode = (refl, λ p. absurd cc)

  pub graph_edges_in :
      (m : ℕ)
      → out_of_range m ≡ false
      → graph_edges h true true m ≡ done (edge_nodes m, scratch_node_count m)
  unfolding graph_edges edges_init edge_nodes
  graph_edges_in m e =
      rw (e, edge_copies_lem m)
        (ap₂ (λ t k. done (t, k))
          (mark_challenges_lem m (record_all (λ i. blank_node) 0 (graph_nodes m)))
          (omega (arith, length-graph_nodes m)))

  -- `pose_graph_edges`, given memory, comes to its end for every `m` from 1 to 2^20, and counts the nodes
  -- for which `pose_graph_scratch_bytes` makes room.
  pub graph_edges_total :
      (m : ℕ)
      → 1 ≤ m
      → m ≤ graph_max_m
      → (nodes : ℕ → Node) × (graph_edges h true true m ≡ done (nodes, scratch_node_count m))
  graph_edges_total m pos small = (edge_nodes m, graph_edges_in m (in_range m pos small))
