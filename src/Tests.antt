-- ===== src/Tests.antt =====
-- Concrete runs of the graph, with a toy hash in place of hash.c, and what the theorems say of them.
mod Hashing
mod Threads
mod Waves
mod Slots
mod Gpu
use po_se_memory_wiping.Prelude.{
  ℕ, ◌+◌, ◌*◌, ◌^◌, ◌≤◌, ◌<◌, ◌≡◌, refl, ◌↔◌, ◌⊎◌, Bool, true, false, Option, none, some, List, [],
  ◌∷◌, map, get_or, length, arith, leb, min, ◌-◌, ◌/◌,
}
use po_se_memory_wiping.Label.{Bytes, blake3, LabelNode, label_each, NodeHash, hash_bytes}
use po_se_memory_wiping.Graph.Counts.{
  resolve_chunk_blocks, parameter_n, scratch_node_count, standalone_node_count,
  butterfly_node_count, connected_node_count,
}
use po_se_memory_wiping.Graph.Counts.Parameter.{parameter_n_least}
use po_se_memory_wiping.Graph.Counts.Scratch.{graph_scratch_bytes, graph_scratch_bytes_inplace}
use po_se_memory_wiping.Graph.Emitter.{Node, Emitter}
use po_se_memory_wiping.Graph.Emitter.Spec.{emit_all}
use po_se_memory_wiping.Graph.Recursive.{emit_standalone}
use po_se_memory_wiping.Graph.Recursive.Nodes.{standalone_base, standalone_nodes}
use po_se_memory_wiping.Graph.Recursive.Room.{standalone_room, connected_room}
use po_se_memory_wiping.Graph.Recursive.Emitted.{emit_standalone_lem}
use po_se_memory_wiping.Graph.Inplace.{LEmitter}
use po_se_memory_wiping.Graph.Chunk.{
  done, failed, half_width, out_of_range, emit_copies, emitter_init, do_label, lc_copies,
  lemitter_init, do_label_inplace, graph_challenge,
}
use po_se_memory_wiping.Graph.Chunk.Layout.{
  graph_scratch_bytes-emit_copies, graph_scratch_bytes_inplace-lc_copies,
}
use po_se_memory_wiping.Graph.Chunk.Run.{graph_nodes, left_ids, right_ids, emit_copies_lem}
use po_se_memory_wiping.Graph.Chunk.Output.{
  do_label_inplace-eq-do_label, do_label_total, lc_copies-arena_hi, node_labels, labels_after,
  challenge_set, do_label_in, do_label_inplace_in,
}
use po_se_memory_wiping.Graph.Chunk.Verifier.{
  graph_challenge-do_label_inplace, graph_challenge-failed,
}
use po_se_memory_wiping.Graph.Region.{
  label_region, label_region_ex, label_region_pooled, label_region_pooled_inplace,
}
use po_se_memory_wiping.Graph.Region.Persisted.{
  label_region_pooled_inplace_total, graph_challenge-label_region_pooled_inplace,
}
use po_se_memory_wiping.Graph.Region.Filled.{label_region_total, graph_challenge-label_region}
use po_se_memory_wiping.Graph.Edges.{graph_edges}
use po_se_memory_wiping.Graph.Edges.Run.{edge_nodes, graph_edges_in, graph_edges_total}
use po_se_memory_wiping.Graph.Edges.Follow.{label_from}
use po_se_memory_wiping.Graph.Edges.Export.{
  ReadsBelow, graph_edges_topological, labels_follow_edges, output-challenge_rank,
}

abbrev first : Option Bytes → ℕ
first none = 1
first (some b) = get_or b 0 0

abbrev toy_label : LabelNode
toy_label source id p0 p1 seed desc algo = (id + 3 * first p0 + 5 * first p1) ∷ []

abbrev toy : NodeHash
toy = record {
  label_node = toy_label;
  label_node_many = label_each toy_label;
  graph_descriptor = λ m n. m ∷ n ∷ [];
  chunk_seed = λ seed i. i ∷ seed;
  label_node_many-eq-label_each = λ source ids p0s p1s seed desc algo le. refl;
}

abbrev seed : Bytes
seed = 7 ∷ []

abbrev no_labels : ℕ → Bytes
no_labels i = []

-- The label buffer and the emitter after the two copies for `m = 2`.
abbrev start : Emitter
start = emitter_init toy seed 2 no_labels blake3

abbrev finish : Emitter
finish = emit_all toy (graph_nodes 2) start

finish_run : emit_copies toy 2 start ≡ some ((left_ids 2, right_ids 2), finish)
unfolding emitter_init
finish_run = emit_copies_lem toy true 2 start refl refl refl (refl, λ p. refl)

abbrev buffer : ℕ → Bytes
buffer = node_labels toy seed 2 blake3 no_labels

finish-labels : finish.labels ≡ some buffer
finish-labels = labels_after toy seed 2 blake3 no_labels (left_ids 2, right_ids 2) finish finish_run

six_nodes : scratch_node_count 2 ≡ 6
unfolding scratch_node_count parameter_n standalone_node_count butterfly_node_count
    connected_node_count
six_nodes = refl

two_fits : out_of_range 2 ≡ false
two_fits = refl

do_label_inplace-eq-do_label_example :
    do_label_inplace toy seed 3 blake3 ≡ do_label toy seed 3 no_labels blake3
do_label_inplace-eq-do_label_example = do_label_inplace-eq-do_label toy seed 3 blake3 no_labels

do_label_total_example :
    (out : List Bytes) × (do_label toy seed 3 no_labels blake3 ≡ done out) × (length out ≡ 3)
do_label_total_example = do_label_total toy seed 3 blake3 no_labels (omega arith) (omega arith)

lc_copies-arena_hi_example :
    (bases : List Bytes × List Bytes) × (e : LEmitter) × (lc_copies toy 3
        (lemitter_init toy seed 3 blake3)
      ≡ some (bases, e))
    × (2 * e.arena_hi ≤ 13 * half_width 3)
lc_copies-arena_hi_example = lc_copies-arena_hi toy seed 3 blake3 (omega arith) (omega arith)

two_edges : graph_edges toy true true 2 ≡ done (edge_nodes 2, scratch_node_count 2)
two_edges = graph_edges_in toy 2 two_fits

graph_edges_total_example :
    (nodes : ℕ → Node) × (graph_edges toy true true 3 ≡ done (nodes, scratch_node_count 3))
graph_edges_total_example = graph_edges_total toy 3 (omega arith) (omega arith)

graph_edges_topological_example : ReadsBelow 5 (edge_nodes 2 5)
graph_edges_topological_example =
    graph_edges_topological toy 2 (edge_nodes 2) (scratch_node_count 2) two_edges 5
      (omega (arith, six_nodes))

labels_follow_edges_example :
    buffer 5 ≡ label_from toy seed (2 ∷ parameter_n 2 ∷ []) blake3 buffer 5 (edge_nodes 2 5)
labels_follow_edges_example =
    labels_follow_edges toy 2 (edge_nodes 2) (scratch_node_count 2) two_edges seed blake3 no_labels
      (left_ids 2, right_ids 2) finish buffer finish_run finish-labels 5 (omega (arith, six_nodes))

two_labels : do_label toy seed 2 no_labels blake3 ≡ done (map buffer (challenge_set 2))
two_labels = do_label_in toy seed 2 blake3 no_labels two_fits

output-challenge_rank_example :
    (id : ℕ) × (id < scratch_node_count 2)
    × ((edge_nodes 2 id).challenge_rank ≡ some 1)
    × (get_or (map buffer (challenge_set 2)) 1 [] ≡ buffer id)
output-challenge_rank_example =
    output-challenge_rank toy 2 (edge_nodes 2) (scratch_node_count 2) two_edges seed blake3
      no_labels (left_ids 2, right_ids 2) finish buffer finish_run finish-labels
      (map buffer (challenge_set 2)) 1 two_labels (omega arith)

graph_challenge-do_label_inplace_example :
    graph_challenge toy true seed 2 1 no_labels blake3
    ≡ done (get_or (map buffer (challenge_set 2)) 1 [])
graph_challenge-do_label_inplace_example =
    graph_challenge-do_label_inplace toy seed 2 blake3 no_labels (map buffer (challenge_set 2)) 1
      (do_label_inplace_in toy seed 2 blake3 no_labels two_fits) (omega arith)

graph_challenge-failed_example :
    (graph_challenge toy false seed 2 1 no_labels blake3 ≡ failed)
    ↔ ((leb 2 1 ≡ true) ⊎ ((false ≡ false) ⊎ (out_of_range 2 ≡ true)))
graph_challenge-failed_example = graph_challenge-failed toy seed 2 blake3 false no_labels 1

parameter_n_least_example : (parameter_n 5 ≤ 2) ↔ (5 ≤ 2 ^ 3)
parameter_n_least_example = parameter_n_least 5 2 (omega arith) (omega arith)

emit_standalone_lem_example :
    emit_standalone toy 1 start
    ≡ some (standalone_base 1 0, emit_all toy (standalone_nodes 1 0) start)
unfolding emitter_init standalone_room connected_room parameter_n
emit_standalone_lem_example =
    emit_standalone_lem toy true 1 0 start refl (refl, λ p. refl) (omega arith)

-- A region of five blocks in chunks of two, and whatever the scratch buffers hold.
abbrev blank : ℕ → Bytes
blank i = []

abbrev dirty : ℕ → ℕ → Bytes
dirty at i = at ∷ i ∷ []

abbrev threads_start : ℕ → Bool
threads_start at = true

two_blocks : resolve_chunk_blocks 2 ≤ 2 ^ 20
unfolding resolve_chunk_blocks
two_blocks = omega arith

label_region_total_example :
    (region' : ℕ → Bytes) × (label_region toy seed 0 blake3 dirty true threads_start true 160 2
        blank
      ≡ (region', done tt))
    × ((b : ℕ) → region' (160 / 32 + b) ≡ [])
label_region_total_example =
    label_region_total toy seed 0 blake3 dirty threads_start 160 2 blank (λ at. refl) (omega arith)
      (omega arith) two_blocks

two_chunks_and_a_half :
    (region' : ℕ → Bytes) × (label_region toy seed 0 blake3 dirty true threads_start true 160 2
        blank
      ≡ (region', done tt))
    × ((b : ℕ) → region' (160 / 32 + b) ≡ [])
two_chunks_and_a_half =
    label_region_total toy seed 0 blake3 dirty threads_start 160 2 blank (λ at. refl) (omega arith)
      (omega arith) two_blocks

abbrev filled : ℕ → Bytes
filled = two_chunks_and_a_half.0

-- The last chunk has one block.
graph_challenge-label_region_example :
    graph_challenge toy true
      (((0 + 2 * resolve_chunk_blocks 2) / resolve_chunk_blocks 2) ∷ seed)
      (min (resolve_chunk_blocks 2) (160 / 32 - 2 * resolve_chunk_blocks 2))
      0
      no_labels
      blake3
    ≡ done (filled (2 * resolve_chunk_blocks 2 + 0))
unfolding resolve_chunk_blocks
graph_challenge-label_region_example =
    graph_challenge-label_region toy seed 0 blake3 dirty threads_start 160 2 blank filled 2 0
      no_labels (λ at. refl) (omega arith) (omega arith) two_blocks two_chunks_and_a_half.1
      (omega arith)

label_region_pooled_inplace_total_example :
    (region' : ℕ → Bytes) × (label_region_pooled_inplace toy seed 0 blake3 dirty true 160 2 blank
      ≡ (region', done tt))
label_region_pooled_inplace_total_example =
    label_region_pooled_inplace_total toy seed 0 blake3 dirty 160 2 blank (omega arith)
      (omega arith) two_blocks

two_chunks :
    (region' : ℕ → Bytes) × (label_region_pooled_inplace toy seed 0 blake3 dirty true 160 2 blank
      ≡ (region', done tt))
two_chunks =
    label_region_pooled_inplace_total toy seed 0 blake3 dirty 160 2 blank (omega arith)
      (omega arith) two_blocks

graph_challenge-label_region_pooled_inplace_example :
    graph_challenge toy true
      (((0 + 1 * resolve_chunk_blocks 2) / resolve_chunk_blocks 2) ∷ seed)
      (resolve_chunk_blocks 2)
      1
      no_labels
      blake3
    ≡ done (two_chunks.0 (1 * resolve_chunk_blocks 2 + 1))
unfolding resolve_chunk_blocks
graph_challenge-label_region_pooled_inplace_example =
    graph_challenge-label_region_pooled_inplace toy seed 0 blake3 dirty 160 2 blank (omega arith)
      (omega arith) two_blocks two_chunks.0 1 1 no_labels two_chunks.1 (omega arith) (omega arith)

graph_scratch_bytes-emit_copies_example :
    (bases : List ℕ × List ℕ) × (e : Emitter) × (emit_copies toy
        (resolve_chunk_blocks 2)
        (emitter_init toy seed (resolve_chunk_blocks 2) no_labels blake3)
      ≡ some (bases, e))
    × (graph_scratch_bytes 2
        ≡ e.next_id * hash_bytes
          + (length bases.0 + length bases.1) * 8
          + (e.arena_cap + e.arena_cap) * 8)
    × (graph_scratch_bytes 2 < 2 ^ 64)
unfolding resolve_chunk_blocks
graph_scratch_bytes-emit_copies_example =
    graph_scratch_bytes-emit_copies toy seed blake3 2 (omega arith) (omega arith) no_labels

graph_scratch_bytes_inplace-lc_copies_example :
    (bases : List Bytes × List Bytes) × (e : LEmitter) × (lc_copies toy
        (resolve_chunk_blocks 2)
        (lemitter_init toy seed (resolve_chunk_blocks 2) blake3)
      ≡ some (bases, e))
    × (graph_scratch_bytes_inplace 2 ≡ (length bases.0 + length bases.1 + e.arena_cap) * hash_bytes)
    × (graph_scratch_bytes_inplace 2 < 2 ^ 64)
unfolding resolve_chunk_blocks
graph_scratch_bytes_inplace-lc_copies_example =
    graph_scratch_bytes_inplace-lc_copies toy seed blake3 2 (omega arith) (omega arith)
