-- ===== src/Graph/Connector/Emitted.antt =====
-- In either mode the connectors emit exactly their nodes, if the arena has room.
use mathlib.Core.Option
use po_se_memory_wiping.Prelude.{
  ℕ, zero, suc, ◌+◌, ◌*◌, ◌^◌, ◌≤◌, ◌<◌, ◌≡◌, refl, sym, ap, ap₂, ◌∙◌, Bool, true, false, Option,
  none, some, List, [], ◌∷◌, ◌++◌, map, length, get_or, take, range', All, All-take, All-range'-lt,
  All-weaken, arith, length-map, length-take, le→ltb,
}
use native.Mathlib.Nat.{one-le-pow}
use po_se_memory_wiping.Prelude.Exec.{bind_step}
use po_se_memory_wiping.Label.{Bytes, NodeHash}
use po_se_memory_wiping.Graph.Counts.{butterfly_node_count, butterfly_size}
use po_se_memory_wiping.Graph.Emitter.{Emitter, arena_alloc, arena_restore}
use po_se_memory_wiping.Graph.Emitter.Spec.{
  Preds, one, two_sorted, Below, emit_all, emit_one, emit_all-nil, emit_all-cons, emit_all-append,
  emit1_lem, emit2_lem,
}
use po_se_memory_wiping.Graph.Emitter.Loops.{
  emit1_loop_lem, emit2_loop_lem, batches_lem, label_batch1_lem, label_batch2_lem,
}
use po_se_memory_wiping.Graph.Connector.{
  labelling, cross_preds, pair_preds, layer1, layer2, layers, connector_layers, emit_connector,
  merged_layers, emit_merged_center_ingress,
}
use po_se_memory_wiping.Graph.Connector.Nodes.{
  merged_room, layer_nodes, layers_nodes, connector_nodes, connector_out, merged_nodes, merged_out,
  length-cross_preds, length-pair_preds, length-connector_nodes, cross_preds-Below,
  pair_preds-Below,
}

-- The emitter either labels or records, never both.
abbrev pub InMode : Bool → Emitter → Type 0
InMode b e = (labelling e.labels ≡ b) × (b ≡ true → e.nodes ≡ none)

labelling-map :
    (f : (ℕ → Bytes) → ℕ → Bytes) (o : Option (ℕ → Bytes))
    → labelling (Option.map f o) ≡ labelling o
labelling-map f none = refl
labelling-map f (some l) = refl

labelling-some : (o : Option (ℕ → Bytes)) → labelling o ≡ true → (l : ℕ → Bytes) × (o ≡ some l)
labelling-some none e = cc
labelling-some (some l) e = (l, refl)

pub arena_alloc_lem :
    (n : ℕ) (e : Emitter)
    → e.arena_off + n ≤ e.arena_cap
    → arena_alloc n e ≡ some (tt, record e { arena_off = e.arena_off + n })
unfolding arena_alloc
arena_alloc_lem n e room = rw (le→ltb _ _ room)

module _ (h : NodeHash) where
  pub InMode-emit_all :
      (b : Bool) (ns : List Preds) (e : Emitter) → InMode b e → InMode b (emit_all h ns e)
  InMode-emit_all b ns e m = (labelling-map _ e.labels ∙ m.0, λ p. ap (Option.map _) (m.1 p))

  layer1_lem :
      (b : Bool) (width : ℕ) (ps : List ℕ) (e : Emitter)
      → InMode b e
      → length ps ≡ width
      → All (λ p. p < e.next_id) ps
      → layer1 h b width ps e ≡ some (range' e.next_id width, emit_all h (map one ps) e)
  unfolding layer1
  layer1_lem true width ps e m len below =
      let (l, is_l) = labelling-some e.labels m.0 in
      batches_lem h one _ (label_batch1_lem h) width l ps e (omega arith) (is_l, m.1 refl, below)
      ∙ ap (λ k. some (range' e.next_id k, emit_all h (map one ps) e)) len
  layer1_lem false width ps e m len below =
      emit1_loop_lem h ps e ∙ ap (λ k. some (range' e.next_id k, emit_all h (map one ps) e)) len

  layer2_lem :
      (b : Bool) (width : ℕ) (ps : List (ℕ × ℕ)) (e : Emitter)
      → InMode b e
      → length ps ≡ width
      → All (λ p. Below e.next_id (two_sorted p)) ps
      → layer2 h b width ps e ≡ some (range' e.next_id width, emit_all h (map two_sorted ps) e)
  unfolding layer2
  layer2_lem true width ps e m len below =
      let (l, is_l) = labelling-some e.labels m.0 in
      batches_lem h two_sorted _ (label_batch2_lem h) width l ps e (omega arith)
        (is_l, m.1 refl, below)
      ∙ ap (λ k. some (range' e.next_id k, emit_all h (map two_sorted ps) e)) len
  layer2_lem false width ps e m len below =
      emit2_loop_lem h ps e
      ∙ ap (λ k. some (range' e.next_id k, emit_all h (map two_sorted ps) e)) len

  layers_lem :
      (b : Bool) (width r start : ℕ) (e : Emitter)
      → 0 < width
      → InMode b e
      → e.next_id ≡ start + width
      → layers h b width r (range' start width) e
        ≡ some (range' (start + r * width) width, emit_all h (layers_nodes width r start) e)
  unfolding layers layers_nodes layer_nodes
  layers_lem b width zero start e pos m at =
      ap₂ (λ k s. some (range' k width, s)) (omega arith) (sym (emit_all-nil h e))
  layers_lem b width (suc r) start e pos m at =
      bind_step _
        (layer2_lem b width ps e m (length-cross_preds width (range' start width) (2 ^ r))
            (cross_preds-Below width start (2 ^ r) e.next_id pos (omega arith))
          ∙ ap (λ k. some (range' k width, emit_all h ns e)) at)
        (layers_lem b width r (start + width) (emit_all h ns e) pos (InMode-emit_all b ns e m) (
            omega (
              arith,
              length-map two_sorted ps,
              length-cross_preds width (range' start width) (2 ^ r),
            ))
          ∙ ap₂ (λ k s. some (range' k width, s)) (omega arith)
              (emit_all-append h ns (layers_nodes width r (start + width)) e))
    where
      ps : List (ℕ × ℕ)
      ps = cross_preds width (range' start width) (2 ^ r)

      ns : List Preds
      ns = map two_sorted ps

  connector_layers_lem :
      (b : Bool) (dim : ℕ) (inputs : List ℕ) (e : Emitter)
      → InMode b e
      → 2 ^ dim ≤ length inputs
      → All (λ p. p < e.next_id) inputs
      → connector_layers h b dim inputs e
        ≡ some (connector_out dim e.next_id, emit_all h (connector_nodes dim inputs e.next_id) e)
  unfolding connector_layers connector_nodes
  connector_layers_lem b dim inputs e m enough below =
      bind_step _ (layer1_lem b (2 ^ dim) now e m len (All-take _ (2 ^ dim) inputs below)) (
        layers_lem b (2 ^ dim) dim e.next_id (emit_all h (map one now) e)
          (one-le-pow dim 2 (omega arith)) (InMode-emit_all b (map one now) e m)
          (omega (arith, length-map one now, len))
        ∙ ap (λ s. some (connector_out dim e.next_id, s))
            (emit_all-append h (map one now) (layers_nodes (2 ^ dim) dim e.next_id) e))
    where
      now : List ℕ
      now = take (2 ^ dim) inputs

      len : length now ≡ 2 ^ dim
      len = omega (arith, length-take (2 ^ dim) inputs)

  InMode-now : (b : Bool) (e : Emitter) → InMode b e → InMode (labelling e.labels) e
  InMode-now b e m = (refl, λ p. m.1 (sym m.0 ∙ p))

  -- `emit_connector` returns the ids of its last layer, has emitted its nodes, and leaves the
  -- arena as it was.
  pub emit_connector_lem :
      (b : Bool) (dim : ℕ) (inputs : List ℕ) (e : Emitter)
      → InMode b e
      → 2 ^ dim ≤ length inputs
      → All (λ p. p < e.next_id) inputs
      → e.arena_off + 2 * 2 ^ dim ≤ e.arena_cap
      → emit_connector h dim inputs e
        ≡ some (connector_out dim e.next_id, emit_all h (connector_nodes dim inputs e.next_id) e)
  unfolding emit_connector arena_restore
  emit_connector_lem b dim inputs e m enough below room =
      bind_step _ (arena_alloc_lem (2 ^ dim) e (omega arith)) (
        bind_step _ (arena_alloc_lem (2 ^ dim) _ (omega arith)) (
          bind_step _
            (connector_layers_lem (labelling e.labels) dim inputs _ (InMode-now b e m) enough below)
            refl))

  merged_layers_lem :
      (b : Bool) (dim : ℕ) (primary ingress : List ℕ) (e : Emitter)
      → InMode b e
      → 2 ^ dim ≤ length ingress
      → All (λ p. p < e.next_id) primary
      → All (λ p. p < e.next_id) ingress
      → merged_layers h b dim primary ingress e
        ≡ some (merged_out dim e.next_id, emit_all h (merged_nodes dim primary ingress e.next_id) e)
  unfolding merged_layers merged_nodes
  merged_layers_lem b dim primary ingress e m enough hp hi =
      bind_step _ (connector_layers_lem b dim ingress e m enough hi) (
        bind_step _
          (layer2_lem b (2 ^ dim) ps e1 (InMode-emit_all b ns1 e m)
              (length-pair_preds (2 ^ dim) primary (connector_out dim e.next_id))
              (pair_preds-Below (2 ^ dim) e1.next_id primary (connector_out dim e.next_id)
                (omega (arith, at1, size, wide)) (All-weaken _ primary (λ p lt. omega arith) hp)
                (All-range'-lt (e.next_id + dim * 2 ^ dim) (2 ^ dim) e1.next_id
                  (omega (arith, at1, size))))
            ∙ ap (λ k. some (range' k (2 ^ dim), emit_all h (map two_sorted ps) e1)) at1)
          (layers_lem b (2 ^ dim) dim (e.next_id + butterfly_node_count dim)
              (emit_all h (map two_sorted ps) e1) wide
              (InMode-emit_all b (map two_sorted ps) e1 (InMode-emit_all b ns1 e m))
              (omega (
                arith,
                at1,
                length-map two_sorted ps,
                length-pair_preds (2 ^ dim) primary (connector_out dim e.next_id),
              ))
            ∙ ap (λ s. some (merged_out dim e.next_id, s))
                (emit_all-append h (map two_sorted ps) ns3 e1
                  ∙ emit_all-append h ns1 (map two_sorted ps ++ ns3) e)))
    where
      ps : List (ℕ × ℕ)
      ps = pair_preds (2 ^ dim) primary (connector_out dim e.next_id)

      ns1 : List Preds
      ns1 = connector_nodes dim ingress e.next_id

      ns3 : List Preds
      ns3 = layers_nodes (2 ^ dim) dim (e.next_id + butterfly_node_count dim)

      e1 : Emitter
      e1 = emit_all h ns1 e

      at1 : e1.next_id ≡ e.next_id + butterfly_node_count dim
      at1 = omega (arith, length-connector_nodes dim ingress e.next_id enough)

      wide : 0 < 2 ^ dim
      wide = one-le-pow dim 2 (omega arith)

      size : butterfly_node_count dim ≡ dim * 2 ^ dim + 2 ^ dim
      size = butterfly_size dim

  emit_two : (p q : Preds) (e : Emitter) → emit_one h q (emit_one h p e) ≡ emit_all h (p ∷ q ∷ []) e
  emit_two p q e =
      sym (emit_all-nil h (emit_one h q (emit_one h p e)))
      ∙ emit_all-cons h q [] (emit_one h p e)
      ∙ emit_all-cons h p (q ∷ []) e

  merged_one :
      (primary ingress : List ℕ) (e : Emitter)
      → 1 ≤ length ingress
      → emit_merged_center_ingress h 0 primary ingress e
        ≡ some (merged_out 0 e.next_id, emit_all h (merged_nodes 0 primary ingress e.next_id) e)
  unfolding emit_merged_center_ingress merged_nodes connector_nodes layers_nodes pair_preds
      butterfly_node_count
  merged_one primary [] e enough = absurd (omega arith)
  merged_one primary (x ∷ xs) e enough = bind_step _ (emit1_lem h x e) (
      bind_step _ (emit2_lem h (get_or primary 0 0) e.next_id (emit_one h (one x) e)) (
        ap₂ (λ k s. some (k ∷ [], s)) out
          (emit_two (one x) (two_sorted (get_or primary 0 0, e.next_id)) e
            ∙ ap (λ k. emit_all h (one x ∷ two_sorted (get_or primary 0 0, k) ∷ []) e) here)))
    where
      out : e.next_id + 1 ≡ e.next_id + (0 + 1) * 2 ^ 0 + 0 * 2 ^ 0
      out = omega arith

      here : e.next_id ≡ e.next_id + 0 * 2 ^ 0
      here = omega arith

  -- So does `emit_merged_center_ingress`.
  pub emit_merged_lem :
      (b : Bool) (dim : ℕ) (primary ingress : List ℕ) (e : Emitter)
      → InMode b e
      → 2 ^ dim ≤ length ingress
      → All (λ p. p < e.next_id) primary
      → All (λ p. p < e.next_id) ingress
      → e.arena_off + merged_room dim ≤ e.arena_cap
      → emit_merged_center_ingress h dim primary ingress e
        ≡ some (merged_out dim e.next_id, emit_all h (merged_nodes dim primary ingress e.next_id) e)
  unfolding emit_merged_center_ingress arena_restore
  emit_merged_lem b zero primary ingress e m enough hp hi room = merged_one primary ingress e enough
  emit_merged_lem b (suc d) primary ingress e m enough hp hi room =
      bind_step _ (arena_alloc_lem (2 ^ suc d) e (omega arith)) (
        bind_step _ (arena_alloc_lem (2 ^ suc d) _ (omega arith)) (
          bind_step _ (arena_alloc_lem (2 ^ suc d) _ (omega arith)) (
            bind_step _ (arena_alloc_lem (2 ^ suc d) _ (omega arith)) (
              bind_step _
                (merged_layers_lem (labelling e.labels) (suc d) primary ingress _ (InMode-now b e m)
                  enough hp hi)
                refl))))

  -- The same where the next id is known under another name.
  pub emit_connector_at :
      (b : Bool) (dim : ℕ) (inputs : List ℕ) (start : ℕ) (e : Emitter)
      → e.next_id ≡ start
      → InMode b e
      → 2 ^ dim ≤ length inputs
      → All (λ p. p < start) inputs
      → e.arena_off + 2 * 2 ^ dim ≤ e.arena_cap
      → emit_connector h dim inputs e
        ≡ some (connector_out dim start, emit_all h (connector_nodes dim inputs start) e)
  emit_connector_at b dim inputs start e at m enough below room =
      emit_connector_lem b dim inputs e m enough (All-weaken _ inputs (λ p lt. omega arith) below)
        room
      ∙ ap (λ k. some (connector_out dim k, emit_all h (connector_nodes dim inputs k) e)) at

  pub emit_merged_at :
      (b : Bool) (dim : ℕ) (primary ingress : List ℕ) (start : ℕ) (e : Emitter)
      → e.next_id ≡ start
      → InMode b e
      → 2 ^ dim ≤ length ingress
      → All (λ p. p < start) primary
      → All (λ p. p < start) ingress
      → e.arena_off + merged_room dim ≤ e.arena_cap
      → emit_merged_center_ingress h dim primary ingress e
        ≡ some (merged_out dim start, emit_all h (merged_nodes dim primary ingress start) e)
  emit_merged_at b dim primary ingress start e at m enough hp hi room =
      emit_merged_lem b dim primary ingress e m enough
        (All-weaken _ primary (λ p lt. omega arith) hp)
        (All-weaken _ ingress (λ p lt. omega arith) hi) room
      ∙ ap (λ k. some (merged_out dim k, emit_all h (merged_nodes dim primary ingress k) e)) at
