-- ===== src/Graph/Inplace/Connector.antt =====
-- The label-carrying connectors compute the labels that the buffer holds at the outputs of the
-- id-indexed connectors, and raise the high-water mark by what they allocate.
use po_se_memory_wiping.Prelude.{
  ℕ, zero, suc, ◌+◌, ◌*◌, ◌^◌, ◌≤◌, ◌<◌, ◌≡◌, refl, sym, ap, ap₂, ◌∙◌, some, List, ◌++◌, map,
  length, take, range', All, All-map, All-take, All-weaken, All-range'-lt, All-range'-le, arith,
  length-map, length-take, length-range', map-take, map_agree, le→ltb, ltb, if◌then◌else◌, max,
}
use native.Mathlib.Nat.{one-le-pow}
use po_se_memory_wiping.Prelude.Exec.{bind_step}
use po_se_memory_wiping.Label.{Bytes, NodeHash}
use po_se_memory_wiping.Graph.Counts.{butterfly_node_count, butterfly_size}
use po_se_memory_wiping.Graph.Emitter.Spec.{Preds, one, two_sorted, Below, fill}
use po_se_memory_wiping.Graph.Emitter.Fill.{fill-append, fill-below, map-fill}
use po_se_memory_wiping.Graph.Connector.{cross_preds, pair_preds}
use po_se_memory_wiping.Graph.Connector.Nodes.{
  layer_nodes, layers_nodes, connector_nodes, connector_out, merged_nodes, merged_out,
  length-cross_preds, length-pair_preds, length-connector_nodes, cross_preds-Below,
  pair_preds-Below,
}
use po_se_memory_wiping.Graph.Inplace.{
  LEmitter, lc_pair_preds, lc_arena_alloc, lc_arena_restore, lc_batches, lc_batch1, lc_batch2,
  lc_layers, lc_connector_layers, lc_connector, lc_merged_layers,
}
use po_se_memory_wiping.Graph.Inplace.Order.{sorted_labels, lc_cross_preds_lem, lc_pair_preds_lem}
use po_se_memory_wiping.Graph.Inplace.Layers.{
  advance, reads1, reads2, lc_batches_lem, lc_batch1_lem, lc_batch2_lem, lc_each, lc_each-one,
  lc_each-two,
}

-- After `n` nodes and `peak` slots of the arena in use.
abbrev pub settled : ℕ → ℕ → LEmitter → LEmitter
settled n peak e = record e {
  next_id = e.next_id + n;
  arena_hi = max e.arena_hi (e.arena_off + peak);
}

if-max : (a b : ℕ) → (if ltb a b then b else a) ≡ max a b
if-max a b = ground arith

pub lc_arena_alloc_lem :
    (n : ℕ) (e : LEmitter)
    → e.arena_off + n ≤ e.arena_cap
    → lc_arena_alloc n e
      ≡ some (
        tt,
        record e { arena_off = e.arena_off + n; arena_hi = max e.arena_hi (e.arena_off + n) },
      )
unfolding lc_arena_alloc
lc_arena_alloc_lem n e room = rw (le→ltb _ _ room, if-max e.arena_hi (e.arena_off + n))

module _ (h : NodeHash) where
  -- The buffer after the nodes `ns` from `id` on, under the seed of `e`.
  abbrev pub filled : LEmitter → (ℕ → Bytes) → ℕ → List Preds → ℕ → Bytes
  filled e = fill h e.seed e.desc e.algo

  lc_layer1_lem :
      (width : ℕ) (ps : List ℕ) (m : ℕ → Bytes) (start : ℕ) (e : LEmitter)
      → e.next_id ≡ start
      → length ps ≡ width
      → All (λ p. p < start) ps
      → lc_batches (lc_batch1 h) width (map m ps) e
        ≡ some (map (filled e m start (map one ps)) (range' start width), advance width e)
  lc_layer1_lem width ps m start e at len below =
      lc_batches_lem h reads1 (lc_batch1 h) (lc_batch1_lem h) width (map m ps) e
        (omega (arith, length-map m ps))
      ∙ ap₂ (λ ls k. some (ls, advance k e))
          (ap (λ k. lc_each h reads1 e.seed e.desc e.algo k (map m ps)) at
            ∙ lc_each-one h e.seed e.desc e.algo m start ps
            ∙ sym (
                map-fill h e.seed e.desc e.algo start m m start (map one ps) (omega arith)
                  (λ j lt. refl) (All-map (Below start) one ps below))
            ∙ ap (λ k. map (filled e m start (map one ps)) (range' start k))
                (length-map one ps ∙ len))
          (length-map m ps ∙ len)

  lc_layer2_lem :
      (width : ℕ) (ps : List (ℕ × ℕ)) (labels : List (Bytes × Bytes)) (m : ℕ → Bytes) (start : ℕ)
      (e : LEmitter)
      → e.next_id ≡ start
      → length ps ≡ width
      → labels ≡ map (sorted_labels m) ps
      → All (λ p. Below start (two_sorted p)) ps
      → lc_batches (lc_batch2 h) width labels e
        ≡ some (map (filled e m start (map two_sorted ps)) (range' start width), advance width e)
  lc_layer2_lem width ps labels m start e at len are below =
      ap (λ ls. lc_batches (lc_batch2 h) width ls e) are
      ∙ lc_batches_lem h reads2 (lc_batch2 h) (lc_batch2_lem h) width (map (sorted_labels m) ps) e
          (omega (arith, length-map (sorted_labels m) ps))
      ∙ ap₂ (λ ls k. some (ls, advance k e))
          (ap (λ k. lc_each h reads2 e.seed e.desc e.algo k (map (sorted_labels m) ps)) at
            ∙ lc_each-two h e.seed e.desc e.algo m start ps
            ∙ sym (
                map-fill h e.seed e.desc e.algo start m m start (map two_sorted ps) (omega arith)
                  (λ j lt. refl) (All-map (Below start) two_sorted ps below))
            ∙ ap (λ k. map (filled e m start (map two_sorted ps)) (range' start k))
                (length-map two_sorted ps ∙ len))
          (length-map (sorted_labels m) ps ∙ len)

  lc_layers_lem :
      (dim r s : ℕ) (m : ℕ → Bytes) (e : LEmitter)
      → r ≤ dim
      → dim ≤ 32
      → e.next_id ≡ s + 2 ^ dim
      → lc_layers h (2 ^ dim) r (map m (range' s (2 ^ dim))) e
        ≡ some (
          map
              (filled e m (s + 2 ^ dim) (layers_nodes (2 ^ dim) r s))
              (range' (s + r * 2 ^ dim) (2 ^ dim)),
          advance (r * 2 ^ dim) e,
        )
  unfolding lc_layers layers_nodes layer_nodes fill
  lc_layers_lem dim zero s m e le small at =
      ap₂ (λ j k. some (map m (range' j (2 ^ dim)), record e { next_id = k })) (omega arith)
        (omega arith)
  lc_layers_lem dim (suc r) s m e le small at =
      bind_step _
        (lc_layer2_lem w ps _ m (s + w) e at (length-cross_preds w (range' s w) (2 ^ r))
          (lc_cross_preds_lem m dim r s le small)
          (cross_preds-Below w s (2 ^ r) (s + w) (one-le-pow dim 2 (omega arith)) (omega arith)))
        (lc_layers_lem dim r (s + w) m' (advance w e) (omega arith) small (omega arith)
          ∙ ap₂ (λ ls k. some (ls, record e { next_id = k }))
              (ap₂ (λ f k. map f (range' k w)) buffers (omega arith)) (omega arith))
    where
      w : ℕ
      w = 2 ^ dim

      ps : List (ℕ × ℕ)
      ps = cross_preds w (range' s w) (2 ^ r)

      m' : ℕ → Bytes
      m' = filled e m (s + w) (map two_sorted ps)

      buffers :
          filled e m' (s + w + w) (layers_nodes w r (s + w))
          ≡ filled e m (s + w) (map two_sorted ps ++ layers_nodes w r (s + w))
      buffers =
          ap (λ k. filled e m' k (layers_nodes w r (s + w)))
            (omega (arith, length-map two_sorted ps, length-cross_preds w (range' s w) (2 ^ r)))
          ∙ sym (
              fill-append h e.seed e.desc e.algo m (s + w) (map two_sorted ps)
                (layers_nodes w r (s + w)))

  lc_connector_layers_lem :
      (dim : ℕ) (inputs : List ℕ) (m : ℕ → Bytes) (start : ℕ) (e : LEmitter)
      → e.next_id ≡ start
      → dim ≤ 32
      → 2 ^ dim ≤ length inputs
      → All (λ p. p < start) inputs
      → lc_connector_layers h dim (map m inputs) e
        ≡ some (
          map (filled e m start (connector_nodes dim inputs start)) (connector_out dim start),
          advance (butterfly_node_count dim) e,
        )
  unfolding lc_connector_layers connector_nodes
  lc_connector_layers_lem dim inputs m start e at small enough below =
      bind_step _
        (ap (λ ls. lc_batches (lc_batch1 h) w ls e) (sym (map-take m w inputs))
          ∙ lc_layer1_lem w now m start e at len (All-take _ w inputs below))
        (lc_layers_lem dim dim start m' (advance w e) (omega arith) small (omega arith)
          ∙ ap₂ (λ f k. some (map f (connector_out dim start), record e { next_id = k })) buffers
              (omega (arith, butterfly_size dim)))
    where
      w : ℕ
      w = 2 ^ dim

      now : List ℕ
      now = take w inputs

      len : length now ≡ w
      len = omega (arith, length-take w inputs)

      m' : ℕ → Bytes
      m' = filled e m start (map one now)

      buffers :
          filled e m' (start + w) (layers_nodes w dim start)
          ≡ filled e m start (map one now ++ layers_nodes w dim start)
      buffers =
          ap (λ k. filled e m' k (layers_nodes w dim start))
            (omega (arith, length-map one now, len))
          ∙ sym
              (fill-append h e.seed e.desc e.algo m start (map one now) (layers_nodes w dim start))

  -- `lc_connector`
  pub lc_connector_lem :
      (dim : ℕ) (inputs : List ℕ) (m : ℕ → Bytes) (start : ℕ) (e : LEmitter)
      → e.next_id ≡ start
      → dim ≤ 32
      → 2 ^ dim ≤ length inputs
      → All (λ p. p < start) inputs
      → e.arena_off + 2 * 2 ^ dim ≤ e.arena_cap
      → lc_connector h dim (map m inputs) e
        ≡ some (
          map (filled e m start (connector_nodes dim inputs start)) (connector_out dim start),
          settled (butterfly_node_count dim) (2 * 2 ^ dim) e,
        )
  unfolding lc_connector lc_arena_restore
  lc_connector_lem dim inputs m start e at small enough below room =
      bind_step _ (lc_arena_alloc_lem (2 ^ dim) e (omega arith)) (
        bind_step _ (lc_arena_alloc_lem (2 ^ dim) _ (omega arith)) (
          bind_step _ (lc_connector_layers_lem dim inputs m start _ at small enough below) (
            ap
              (λ k. some (
                map (filled e m start (connector_nodes dim inputs start)) (connector_out dim start),
                record e { next_id = e.next_id + butterfly_node_count dim; arena_hi = k },
              ))
              (omega arith))))

  pub lc_merged_layers_lem :
      (dim : ℕ) (primary ingress : List ℕ) (m : ℕ → Bytes) (start : ℕ) (e : LEmitter)
      → e.next_id ≡ start
      → dim ≤ 32
      → 2 ^ dim ≤ length primary
      → 2 ^ dim ≤ length ingress
      → All (λ p. p < start) primary
      → All (λ p. p < start) ingress
      → lc_merged_layers h dim (map m primary) (map m ingress) e
        ≡ some (
          map (filled e m start (merged_nodes dim primary ingress start)) (merged_out dim start),
          advance (2 * butterfly_node_count dim) e,
        )
  unfolding lc_merged_layers merged_nodes
  lc_merged_layers_lem dim primary ingress m start e at small enough_p enough_i hp hi =
      bind_step _ (lc_connector_layers_lem dim ingress m start e at small enough_i hi) (
        bind_step _
          (lc_layer2_lem w ps _ m1 c (advance bf e) (omega arith)
            (length-pair_preds w primary (connector_out dim start))
            (ap (λ ls. lc_pair_preds w ls (map m1 (connector_out dim start)))
                (map_agree (λ p. p < start) m m1 primary
                  (λ p lt. sym (fill-below h e.seed e.desc e.algo m start ns1 p lt)) hp)
              ∙ lc_pair_preds_lem m1 w start primary (connector_out dim start) enough_p
                  (omega (arith, length-range' (start + dim * w) w)) hp
                  (All-range'-le (start + dim * w) w start (omega arith)))
            (pair_preds-Below w c primary (connector_out dim start)
              (omega (arith, butterfly_size dim, wide))
              (All-weaken _ primary (λ p lt. omega arith) hp)
              (All-range'-lt (start + dim * w) w c (omega (arith, butterfly_size dim)))))
          (lc_layers_lem dim dim c m2 (advance w (advance bf e)) (omega arith) small (omega arith)
            ∙ ap₂ (λ f k. some (map f (merged_out dim start), record e { next_id = k })) buffers
                (omega (arith, butterfly_size dim))))
    where
      w : ℕ
      w = 2 ^ dim

      wide : 0 < 2 ^ dim
      wide = one-le-pow dim 2 (omega arith)

      bf : ℕ
      bf = butterfly_node_count dim

      c : ℕ
      c = start + bf

      ns1 : List Preds
      ns1 = connector_nodes dim ingress start

      m1 : ℕ → Bytes
      m1 = filled e m start ns1

      ps : List (ℕ × ℕ)
      ps = pair_preds w primary (connector_out dim start)

      m2 : ℕ → Bytes
      m2 = filled e m1 c (map two_sorted ps)

      ns3 : List Preds
      ns3 = layers_nodes w dim c

      buffers : filled e m2 (c + w) ns3 ≡ filled e m start (ns1 ++ (map two_sorted ps ++ ns3))
      buffers =
          ap (λ k. filled e m2 k ns3)
            (omega (
              arith,
              length-map two_sorted ps,
              length-pair_preds w primary (connector_out dim start),
            ))
          ∙ sym (fill-append h e.seed e.desc e.algo m1 c (map two_sorted ps) ns3)
          ∙ ap (λ k. filled e m1 k (map two_sorted ps ++ ns3))
              (omega (arith, length-connector_nodes dim ingress start enough_i))
          ∙ sym (fill-append h e.seed e.desc e.algo m start ns1 (map two_sorted ps ++ ns3))
