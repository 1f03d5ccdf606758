-- ===== src/Graph/Recursive/Emitted.antt =====
-- In either mode the recursive components emit exactly their nodes, if the arena has room.
use po_se_memory_wiping.Prelude.{
  ℕ, zero, suc, ◌+◌, ◌*◌, ◌/◌, ◌^◌, ◌≤◌, ◌<◌, ◌≡◌, refl, sym, ap, ap₂, ◌∙◌, Bool, some, List, [],
  ◌∷◌, ◌++◌, length, get_or, drop, All, All-drop, All-weaken, arith, length-range', length-drop,
}
use po_se_memory_wiping.Prelude.Exec.{bind_step}
use po_se_memory_wiping.Label.{NodeHash}
use po_se_memory_wiping.Graph.Counts.{butterfly_node_count}
use po_se_memory_wiping.Graph.Emitter.{Emitter, arena_restore}
use po_se_memory_wiping.Graph.Emitter.Spec.{
  Preds, source, one, emit_all, emit_one, emit_all-nil, emit_all-cons, emit_all-append, emit1_lem,
  emit_source_lem,
}
use po_se_memory_wiping.Graph.Connector.Nodes.{
  connector_nodes, connector_out, merged_nodes, merged_out, length-connector_nodes,
  length-merged_nodes,
}
use po_se_memory_wiping.Graph.Connector.Emitted.{
  InMode, InMode-emit_all, arena_alloc_lem, emit_connector_at, emit_merged_at,
}
use po_se_memory_wiping.Graph.Recursive.{emit_connected, emit_standalone}
use po_se_memory_wiping.Graph.Recursive.Nodes.{
  center_at, right_at, standalone_center_at, standalone_right_at, connected_base, connected_nodes,
  standalone_base, standalone_nodes, length-standalone_base, length-connected_nodes,
  length-standalone_nodes, connected_base-lt, standalone_base-lt, connector_out-lt,
}
use po_se_memory_wiping.Graph.Recursive.Room.{connected_room, standalone_room}

module _ (h : NodeHash) where
  emit_last : (p : Preds) (e : Emitter) → emit_one h p e ≡ emit_all h (p ∷ []) e
  emit_last p e = sym (emit_all-nil h (emit_one h p e)) ∙ emit_all-cons h p [] e

  pub emit_connected_lem :
      (b : Bool) (level width : ℕ) (inputs : List ℕ) (start : ℕ) (e : Emitter)
      → width ≡ 2 ^ level
      → e.next_id ≡ start
      → InMode b e
      → 2 ^ level ≤ length inputs
      → All (λ p. p < start) inputs
      → e.arena_off + connected_room level ≤ e.arena_cap
      → emit_connected h level width inputs e
        ≡ some (connected_base level start, emit_all h (connected_nodes level inputs start) e)
  unfolding emit_connected connected_base connected_nodes connected_room arena_restore
  emit_connected_lem b zero width inputs start e is_w at m enough below room =
      bind_step _ (emit1_lem h (get_or inputs 0 0) e)
        (ap₂ (λ k s. some (k ∷ [], s)) at (emit_last (one (get_or inputs 0 0)) e))
  emit_connected_lem b (suc l) width inputs start e is_w at m enough below room =
      bind_step _ (arena_alloc_lem (width / 2) e (omega arith)) (
        bind_step _ (arena_alloc_lem (width / 2) _ (omega arith)) (
          bind_step _ (arena_alloc_lem (width / 2) _ (omega arith)) (
            bind_step _
              (emit_connected_lem b l (width / 2) inputs start e3 half at m (omega arith) below
                (omega arith))
              (bind_step _
                (emit_merged_at h b l base (drop (width / 2) inputs) c eL at_c mL
                    (omega (arith, length-drop (width / 2) inputs))
                    (connected_base-lt l start c (omega arith))
                    (All-drop _ (width / 2) inputs
                      (All-weaken _ inputs (λ p lt. omega arith) below))
                    (omega arith)
                  ∙ ap
                      (λ n.
                        some
                          (merged_out l c, emit_all h (merged_nodes l base (drop n inputs) c) eL))
                      half)
                (bind_step _
                  (emit_connected_lem b l (width / 2) (merged_out l c) r eM half
                    (omega (
                      arith,
                      at_c,
                      length-merged_nodes l base (drop (2 ^ l) inputs) c
                          (omega (arith, length-drop (2 ^ l) inputs)),
                    ))
                    (InMode-emit_all h b nsM eL mL)
                    (omega (arith, length-range' (c + butterfly_node_count l + l * 2 ^ l) (2 ^ l)))
                    (connector_out-lt l (c + butterfly_node_count l) r (omega arith)) (omega arith))
                  (ap (λ s. some (base ++ connected_base l r, record s { arena_off = e.arena_off }))
                    (emit_all-append h nsM nsR eL ∙ emit_all-append h nsL (nsM ++ nsR) e3)))))))
    where
      half : width / 2 ≡ 2 ^ l
      half = omega arith

      c : ℕ
      c = center_at l start

      base : List ℕ
      base = connected_base l start

      r : ℕ
      r = right_at l start

      e3 : Emitter
      e3 = record e { arena_off = e.arena_off + width / 2 + width / 2 + width / 2 }

      nsL : List Preds
      nsL = connected_nodes l inputs start

      eL : Emitter
      eL = emit_all h nsL e3

      mL : InMode b eL
      mL = InMode-emit_all h b nsL e3 m

      nsM : List Preds
      nsM = merged_nodes l base (drop (2 ^ l) inputs) c

      eM : Emitter
      eM = emit_all h nsM eL

      nsR : List Preds
      nsR = connected_nodes l (merged_out l c) r

      at_c : eL.next_id ≡ c
      at_c = omega (arith, length-connected_nodes l inputs start (omega arith))

  -- In labelling mode as in edge mode, if the arena has room for a standalone copy, `emit_standalone`
  -- does not fault, emits exactly the nodes of the copy from `next_id` on, in the order of
  -- `standalone_nodes`, returns the ids of its base and leaves the arena as it was.
  pub emit_standalone_lem :
      (b : Bool) (level start : ℕ) (e : Emitter)
      → e.next_id ≡ start
      → InMode b e
      → e.arena_off + standalone_room level ≤ e.arena_cap
      → emit_standalone h level e
        ≡ some (standalone_base level start, emit_all h (standalone_nodes level start) e)
  unfolding emit_standalone standalone_base standalone_nodes standalone_room arena_restore
  emit_standalone_lem b zero start e at m room =
      bind_step _ (emit_source_lem h e) (ap₂ (λ k s. some (k ∷ [], s)) at (emit_last source e))
  emit_standalone_lem b (suc l) start e at m room =
      bind_step _ (arena_alloc_lem (2 ^ l) e (omega arith)) (
        bind_step _ (arena_alloc_lem (2 ^ l) _ (omega arith)) (
          bind_step _ (arena_alloc_lem (2 ^ l) _ (omega arith)) (
            bind_step _ (emit_standalone_lem b l start e3 at m (omega arith)) (
              bind_step _
                (emit_connector_at h b l base c eL at_c (InMode-emit_all h b nsL e3 m)
                  (omega (arith, length-standalone_base l start))
                  (standalone_base-lt l start c (omega arith)) (omega arith))
                (bind_step _
                  (emit_connected_lem b l (2 ^ l) (connector_out l c) r eM refl
                    (omega (
                      arith,
                      at_c,
                      length-connector_nodes l base c
                          (omega (arith, length-standalone_base l start)),
                    ))
                    (InMode-emit_all h b nsM eL (InMode-emit_all h b nsL e3 m))
                    (omega (arith, length-range' (c + l * 2 ^ l) (2 ^ l)))
                    (connector_out-lt l c r (omega arith)) (omega arith))
                  (ap (λ s. some (base ++ connected_base l r, record s { arena_off = e.arena_off }))
                    (emit_all-append h nsM nsR eL ∙ emit_all-append h nsL (nsM ++ nsR) e3)))))))
    where
      c : ℕ
      c = standalone_center_at l start

      base : List ℕ
      base = standalone_base l start

      r : ℕ
      r = standalone_right_at l start

      e3 : Emitter
      e3 = record e { arena_off = e.arena_off + 2 ^ l + 2 ^ l + 2 ^ l }

      nsL : List Preds
      nsL = standalone_nodes l start

      eL : Emitter
      eL = emit_all h nsL e3

      nsM : List Preds
      nsM = connector_nodes l base c

      eM : Emitter
      eM = emit_all h nsM eL

      nsR : List Preds
      nsR = connected_nodes l (connector_out l c) r

      at_c : eL.next_id ≡ c
      at_c = omega (arith, length-standalone_nodes l start)
