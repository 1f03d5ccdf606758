-- ===== src/Graph/Edges.antt =====
-- The exported graph of graph.c: `pose_graph_edges`, which runs the emitter in edge mode.
pub mod Order
pub mod Follow
pub mod Rank
pub mod Run
pub mod Export
use po_se_memory_wiping.Prelude.{
  ℕ, zero, suc, ◌+◌, ◌-◌, ◌*◌, Bool, true, false, Option, none, some, List, [], ◌∷◌, if◌then◌else◌,
  take, drop, update, range',
}
use po_se_memory_wiping.Prelude.Exec.{Exec, ◌>>=◌, pure}
use po_se_memory_wiping.Label.{Bytes, Algo, blake3, NodeHash, hash_bytes}
use po_se_memory_wiping.Graph.Counts.{arena_factor, parameter_n}
use po_se_memory_wiping.Graph.Emitter.{Node, Emitter}
use po_se_memory_wiping.Graph.Recursive.{emit_standalone}
use po_se_memory_wiping.Graph.Chunk.{Outcome, done, failed, fault, half_width, out_of_range}

-- What each entry of `nodes` is set to before the run.
abbrev pub blank_node : Node
blank_node = record { num_preds = 0; pred0 = 0; pred1 = 0; challenge_rank = none }

-- `memset(e.desc, 0, sizeof(e.desc))`
abbrev zeros : ℕ → Bytes
zeros zero = []
zeros (suc n) = 0 ∷ zeros n

-- The emitter at the start. `seed` is NULL, and no label is computed.
pub edges_init : ℕ → Emitter
edges_init m = record {
  next_id = 0;
  labels = none;
  nodes = some (λ i. blank_node);
  seed = [];
  desc = zeros hash_bytes;
  arena_cap = arena_factor * half_width m;
  arena_off = 0;
  algo = blake3;
}

-- `nodes[ids[i]].challenge_rank = rank + i`
unfoldable pub mark_ranks : (ℕ → Node) → ℕ → List ℕ → ℕ → Node
mark_ranks t rank [] = t
mark_ranks t rank (id ∷ ids) =
    mark_ranks (update t id (record (t id) { challenge_rank = some rank })) (rank + 1) ids

-- The two loops that mark the challenge set.
pub mark_challenges : ℕ → List ℕ → List ℕ → (ℕ → Node) → ℕ → Node
mark_challenges m left_base right_base t =
    mark_ranks (mark_ranks t 0 (take (half_width m) (drop (half_width m) left_base))) (half_width m)
      (take (m - half_width m) (drop (half_width m) right_base))

module _ (h : NodeHash) where
  -- The arena offset is back at 0 after the first copy, and `next_id` continues.
  pub edge_copies : ℕ → Exec Emitter (List ℕ × List ℕ)
  edge_copies m = do
    left_base ← emit_standalone h (parameter_n m + 1)
    right_base ← emit_standalone h (parameter_n m + 1)
    pure (left_base, right_base)

  -- `pose_graph_edges`: the nodes and their count. The first flag tells whether the array of nodes
  -- could be allocated, the second whether the bases and the arena could.
  unfoldable pub graph_edges : Bool → Bool → ℕ → Outcome ((ℕ → Node) × ℕ)
  graph_edges nodes_memory arena_memory m =
      if out_of_range m
      then failed
      else (if nodes_memory
          then (if arena_memory
              then elim (edge_copies m (edges_init m)) [
                | none ↦ fault
                | some (bases, e) ↦ elim e.nodes [
                  | none ↦ fault
                  | some t ↦ done (mark_challenges m bases.0 bases.1 t, e.next_id)
                ]
              ]
              else failed)
          else failed)
