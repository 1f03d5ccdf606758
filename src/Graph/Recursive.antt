-- ===== src/Graph/Recursive.antt =====
-- The recursive graph components of graph.c: `emit_standalone` and `emit_connected`.
pub mod Nodes
pub mod Room
pub mod Emitted
use po_se_memory_wiping.Prelude.{ℕ, zero, suc, ◌/◌, ◌^◌, List, [], ◌∷◌, ◌++◌, get_or, drop}
use po_se_memory_wiping.Prelude.Exec.{Exec, ◌>>=◌, ◌>>◌, pure}
use po_se_memory_wiping.Label.{NodeHash}
use po_se_memory_wiping.Graph.Emitter.{Emitter, arena_alloc, arena_restore, emit_source, emit1}
use po_se_memory_wiping.Graph.Connector.{emit_connector, emit_merged_center_ingress}

module _ (h : NodeHash) where
  -- The node ids that the code copies to `base_out` are the result.
  pub emit_connected : ℕ → ℕ → List ℕ → Exec Emitter (List ℕ)
  emit_connected zero width inputs e = (do id ← emit1 h (get_or inputs 0 0); pure (id ∷ [])) e
  emit_connected (suc level) width inputs e =
      (do
        arena_alloc (width / 2)
        arena_alloc (width / 2)
        arena_alloc (width / 2)
        left_base ← emit_connected level (width / 2) inputs
        center_out ← emit_merged_center_ingress h level left_base (drop (width / 2) inputs)
        right_base ← emit_connected level (width / 2) center_out
        arena_restore e.arena_off
        pure (left_base ++ right_base))
        e

  pub emit_standalone : ℕ → Exec Emitter (List ℕ)
  emit_standalone zero e = (do id ← emit_source h; pure (id ∷ [])) e
  emit_standalone (suc level) e =
      (do
        arena_alloc (2 ^ level)
        arena_alloc (2 ^ level)
        arena_alloc (2 ^ level)
        left_base ← emit_standalone level
        center_out ← emit_connector h level left_base
        right_base ← emit_connected level (2 ^ level) center_out
        arena_restore e.arena_off
        pure (left_base ++ right_base))
        e
