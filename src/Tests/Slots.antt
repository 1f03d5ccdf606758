-- ===== src/Tests/Slots.antt =====
-- The slot map of the graph for two blocks, of six nodes.
use po_se_memory_wiping.Prelude.{ℕ, ◌<◌, ◌≡◌, ◌≢◌, refl, true, [], ◌∷◌, arith}
use po_se_memory_wiping.Label.{NodeHash, label_each}
use po_se_memory_wiping.Graph.Counts.{
  resolve_chunk_blocks, scratch_node_count, standalone_node_count, butterfly_node_count,
  connected_node_count, parameter_n,
}
use po_se_memory_wiping.Graph.Emitter.{Node}
use po_se_memory_wiping.Graph.Chunk.{done}
use po_se_memory_wiping.Graph.Chunk.Output.{in_range, challenge_set}
use po_se_memory_wiping.Graph.Edges.{graph_edges}
use po_se_memory_wiping.Graph.Edges.{mark_ranks}
use po_se_memory_wiping.Graph.Emitter.Spec.{record_all}
use po_se_memory_wiping.Graph.Recursive.Nodes.{
  standalone_nodes, connected_nodes, standalone_base, connected_base,
}
use po_se_memory_wiping.Graph.Connector.Nodes.{
  layer_nodes, layers_nodes, connector_nodes, merged_nodes,
}
use po_se_memory_wiping.Graph.Edges.Run.{edge_nodes, graph_edges_in}
use po_se_memory_wiping.Graph.SlotMap.{Uses, graph_slot_map, node_uses, assign_levels, level_of}
use po_se_memory_wiping.Graph.SlotMap.Levels.{Reads, first}
use po_se_memory_wiping.Graph.SlotMap.Map.{
  graph_slot_map_total, graph_slot_map-lt, graph_slot_map-Reads,
}

abbrev hash : NodeHash
hash = record {
  label_node = λ source id p0 p1 seed desc algo. id ∷ [];
  label_node_many = label_each (λ source id p0 p1 seed desc algo. id ∷ []);
  graph_descriptor = λ m n. m ∷ n ∷ [];
  chunk_seed = λ seed i. i ∷ seed;
  label_node_many-eq-label_each = λ source ids p0s p1s seed desc algo le. refl;
}

abbrev fresh : ℕ → ℕ
fresh i = 77

two_blocks : resolve_chunk_blocks 2 ≡ 2
unfolding resolve_chunk_blocks
two_blocks = refl

exported :
    graph_edges hash true true (resolve_chunk_blocks 2)
    ≡ done (edge_nodes (resolve_chunk_blocks 2), scratch_node_count (resolve_chunk_blocks 2))
exported =
    graph_edges_in hash (resolve_chunk_blocks 2)
      (in_range (resolve_chunk_blocks 2) (omega (arith, two_blocks)) (omega (arith, two_blocks)))

six_nodes : scratch_node_count (resolve_chunk_blocks 2) ≡ 6
unfolding resolve_chunk_blocks scratch_node_count parameter_n standalone_node_count
    butterfly_node_count connected_node_count
six_nodes = refl

abbrev nodes : ℕ → Node
nodes = edge_nodes (resolve_chunk_blocks 2)

-- Node 1 reads node 0, and node 3 is the source of the second copy.
reads : Reads (nodes 1) 0
unfolding resolve_chunk_blocks scratch_node_count parameter_n standalone_node_count
    butterfly_node_count connected_node_count edge_nodes record_all standalone_nodes connected_nodes
    merged_nodes layer_nodes layers_nodes connector_nodes standalone_base connected_base mark_ranks
    challenge_set
reads = first (omega arith) refl

abbrev first_uses : Uses
first_uses = node_uses nodes (scratch_node_count (resolve_chunk_blocks 2)) fresh

levels : (first_uses.level 0 ≡ 0) × (first_uses.level 1 ≡ 1) × (first_uses.level 3 ≡ 0)
unfolding resolve_chunk_blocks scratch_node_count parameter_n standalone_node_count
    butterfly_node_count connected_node_count edge_nodes record_all standalone_nodes connected_nodes
    merged_nodes layer_nodes layers_nodes connector_nodes standalone_base connected_base mark_ranks
    challenge_set node_uses assign_levels level_of
levels = (refl, refl, refl)

mapped :
    (slots : ℕ → ℕ) × (size : ℕ) × (graph_slot_map hash true true true true true 2 fresh fresh
      ≡ done (slots, size))
mapped =
    graph_slot_map_total hash 2 (omega (arith, two_blocks)) (omega (arith, two_blocks)) nodes
      (scratch_node_count (resolve_chunk_blocks 2)) exported fresh fresh

graph_slot_map-lt_example : mapped.0 5 < mapped.1
graph_slot_map-lt_example =
    graph_slot_map-lt hash 2 (omega (arith, two_blocks)) (omega (arith, two_blocks)) nodes
      (scratch_node_count (resolve_chunk_blocks 2)) exported fresh fresh mapped.0 mapped.1 mapped.2
      5 (omega (arith, six_nodes))

graph_slot_map-Reads_example : mapped.0 3 ≢ mapped.0 0
graph_slot_map-Reads_example =
    graph_slot_map-Reads hash 2 (omega (arith, two_blocks)) (omega (arith, two_blocks)) nodes
      (scratch_node_count (resolve_chunk_blocks 2)) exported fresh fresh mapped.0 mapped.1 mapped.2
      1 0 3 (omega (arith, six_nodes)) (omega (arith, six_nodes)) (omega (arith, six_nodes)) reads
      (λ e. omega arith) (omega (arith, levels)) (omega (arith, levels))
