-- ===== src/Graph/Connector.antt =====
-- The butterfly connectors of graph.c: `emit_connector` and `emit_merged_center_ingress`. The
-- layers are the same in labelling mode, where a layer goes in batches, and in edge mode, where
-- it goes node by node.
pub mod Nodes
pub mod Emitted
use po_se_memory_wiping.Prelude.{
  ℕ, zero, suc, ◌^◌, Bool, true, false, Option, none, some, List, [], ◌∷◌, map, get_or, take,
  range', bit_xor,
}
use po_se_memory_wiping.Prelude.Exec.{Exec, ◌>>=◌, ◌>>◌, pure}
use po_se_memory_wiping.Label.{Bytes, NodeHash}
use po_se_memory_wiping.Graph.Emitter.{
  Emitter, arena_alloc, arena_restore, emit1, emit2, emit1_loop, emit2_loop, label_batch1,
  label_batch2, batches,
}

-- `if (e->labels)`
abbrev pub labelling : Option (ℕ → Bytes) → Bool
labelling (some l) = true
labelling none = false

-- The two nodes that node `i` of a butterfly layer reads: `prev[i]` and `prev[i ^ bit]`.
unfoldable pub cross_preds : ℕ → List ℕ → ℕ → List (ℕ × ℕ)
cross_preds width prev bit =
    map (λ i. (get_or prev i 0, get_or prev (bit_xor i bit) 0)) (range' 0 width)

-- Layer 0 of the center: `primary_inputs[i]` and `ing_prev[i]`.
unfoldable pub pair_preds : ℕ → List ℕ → List ℕ → List (ℕ × ℕ)
pair_preds width primary ingress =
    map (λ i. (get_or primary i 0, get_or ingress i 0)) (range' 0 width)

module _ (h : NodeHash) where
  -- One layer of nodes with one predecessor, or with two.
  pub layer1 : Bool → ℕ → List ℕ → Exec Emitter (List ℕ)
  layer1 true width = batches (label_batch1 h) width
  layer1 false width = emit1_loop h

  pub layer2 : Bool → ℕ → List (ℕ × ℕ) → Exec Emitter (List ℕ)
  layer2 true width = batches (label_batch2 h) width
  layer2 false width = emit2_loop h

  -- The layers still to do, `bit` falling from `1 << (r - 1)` to 1. `prev` and `curr` are swapped
  -- after each.
  pub layers : Bool → ℕ → ℕ → List ℕ → Exec Emitter (List ℕ)
  layers mode width zero prev = pure prev
  layers mode width (suc r) prev = do
    curr ← layer2 mode width (cross_preds width prev (2 ^ r))
    layers mode width r curr

  pub connector_layers : Bool → ℕ → List ℕ → Exec Emitter (List ℕ)
  connector_layers mode dim inputs = do
    prev ← layer1 mode (2 ^ dim) (take (2 ^ dim) inputs)
    layers mode (2 ^ dim) dim prev

  -- `emit_connector`: two arrays of the arena, then the layers.
  pub emit_connector : ℕ → List ℕ → Exec Emitter (List ℕ)
  emit_connector dim inputs e =
      (do
        arena_alloc (2 ^ dim)
        arena_alloc (2 ^ dim)
        outputs ← connector_layers (labelling e.labels) dim inputs
        arena_restore e.arena_off
        pure outputs)
        e

  -- All ingress layers, then all center layers.
  pub merged_layers : Bool → ℕ → List ℕ → List ℕ → Exec Emitter (List ℕ)
  merged_layers mode dim primary_inputs ingress_inputs = do
    ing ← connector_layers mode dim ingress_inputs
    ctr ← layer2 mode (2 ^ dim) (pair_preds (2 ^ dim) primary_inputs ing)
    layers mode (2 ^ dim) dim ctr

  -- `emit_merged_center_ingress`. Width 1 needs no array of the arena.
  pub emit_merged_center_ingress : ℕ → List ℕ → List ℕ → Exec Emitter (List ℕ)
  emit_merged_center_ingress zero primary_inputs ingress_inputs e =
      (do
        ig ← emit1 h (get_or ingress_inputs 0 0)
        out ← emit2 h (get_or primary_inputs 0 0) ig
        pure (out ∷ []))
        e
  emit_merged_center_ingress (suc d) primary_inputs ingress_inputs e =
      (do
        arena_alloc (2 ^ suc d)
        arena_alloc (2 ^ suc d)
        arena_alloc (2 ^ suc d)
        arena_alloc (2 ^ suc d)
        outputs ← merged_layers (labelling e.labels) (suc d) primary_inputs ingress_inputs
        arena_restore e.arena_off
        pure outputs)
        e
