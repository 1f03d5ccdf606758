-- ===== src/Graph/Edges/Order.antt =====
-- The nodes are in topological order: each reads nodes with smaller ids only.
use po_se_memory_wiping.Prelude.{
  ℕ, zero, suc, ◌+◌, ◌*◌, ◌^◌, ◌≤◌, ◌<◌, ◌≡◌, List, [], ◌∷◌, ◌++◌, map, length, get_or, take, drop,
  range', All, All-take, All-drop, All-map, All-weaken, All-get_or_lt, arith, length-map,
  length-range', length-take, length-drop, ◌∙◌,
}
use native.Mathlib.Nat.{one-le-pow}
use po_se_memory_wiping.Graph.Counts.{butterfly_node_count, butterfly_size}
use po_se_memory_wiping.Graph.Emitter.Spec.{Preds, source, one, two_sorted, Below}
use po_se_memory_wiping.Graph.Emitter.Loops.{Below-weaken}
use po_se_memory_wiping.Graph.Connector.{cross_preds, pair_preds}
use po_se_memory_wiping.Graph.Connector.Nodes.{
  layer_nodes, layers_nodes, connector_nodes, connector_out, merged_nodes, merged_out,
  length-connector_nodes, length-merged_nodes, length-cross_preds, length-pair_preds,
  cross_preds-Below, pair_preds-Below,
}
use po_se_memory_wiping.Graph.Recursive.Nodes.{
  center_at, right_at, standalone_center_at, standalone_right_at, connected_base, connected_nodes,
  standalone_base, standalone_nodes, length-standalone_base, length-connected_nodes,
  length-standalone_nodes, connected_base-lt, standalone_base-lt, connector_out-lt,
}

abbrev pub InOrder : ℕ → List Preds → Type 0
InOrder id [] = Unit
InOrder id (p ∷ ps) = Below id p × InOrder (id + 1) ps

pub InOrder-append :
    (id mid : ℕ) (ps qs : List Preds)
    → mid ≡ id + length ps
    → InOrder id ps
    → InOrder mid qs
    → InOrder id (ps ++ qs)
InOrder-append id mid [] qs at o r = let same : id ≡ mid = omega (arith, at) in rw same r
InOrder-append id mid (p ∷ ps) qs at o r =
    (o.0, InOrder-append (id + 1) mid ps qs (at ∙ omega arith) o.1 r)

-- Nodes that only read what is there before all of them.
InOrder-Below : (b id : ℕ) (ps : List Preds) → b ≤ id → All (Below b) ps → InOrder id ps
InOrder-Below b id [] le h = tt
InOrder-Below b id (p ∷ ps) le h =
    (Below-weaken b id p le h.0, InOrder-Below b (id + 1) ps (omega arith) h.1)

pub InOrder-get :
    (id : ℕ) (ps : List Preds) (i : ℕ)
    → i < length ps
    → InOrder id ps
    → Below (id + i) (get_or ps i source)
InOrder-get id [] i lt o = absurd (omega arith)
InOrder-get id (p ∷ ps) zero lt o = rw (same id) o.0
  where
    same : (n : ℕ) → n + zero ≡ n
    same n = omega arith
InOrder-get id (p ∷ ps) (suc i) lt o = rw (shift id i) (InOrder-get (id + 1) ps i (omega arith) o.1)
  where
    shift : (n i : ℕ) → n + suc i ≡ n + 1 + i
    shift n i = omega arith

layers-InOrder :
    (width r start : ℕ) → 0 < width → InOrder (start + width) (layers_nodes width r start)
unfolding layers_nodes layer_nodes
layers-InOrder width zero start pos = tt
layers-InOrder width (suc r) start pos =
    InOrder-append (start + width) (start + width + width) (layer_nodes width start r)
      (layers_nodes width r (start + width))
      (omega (
        arith,
        length-map two_sorted (cross_preds width (range' start width) (2 ^ r)),
        length-cross_preds width (range' start width) (2 ^ r),
      ))
      (InOrder-Below (start + width) (start + width) (layer_nodes width start r) (omega arith) (
        All-map (Below (start + width)) two_sorted (cross_preds width (range' start width) (2 ^ r))
          (cross_preds-Below width start (2 ^ r) (start + width) pos (omega arith))))
      (layers-InOrder width r (start + width) pos)

connector-InOrder :
    (dim : ℕ) (inputs : List ℕ) (start : ℕ)
    → 2 ^ dim ≤ length inputs
    → All (λ p. p < start) inputs
    → InOrder start (connector_nodes dim inputs start)
unfolding connector_nodes
connector-InOrder dim inputs start enough below =
    InOrder-append start (start + 2 ^ dim) (map one (take (2 ^ dim) inputs))
      (layers_nodes (2 ^ dim) dim start)
      (omega (arith, length-map one (take (2 ^ dim) inputs), length-take (2 ^ dim) inputs))
      (InOrder-Below start start (map one (take (2 ^ dim) inputs)) (omega arith)
        (All-map (Below start) one (take (2 ^ dim) inputs) (All-take _ (2 ^ dim) inputs below)))
      (layers-InOrder (2 ^ dim) dim start (one-le-pow dim 2 (omega arith)))

merged-InOrder :
    (dim : ℕ) (primary ingress : List ℕ) (start : ℕ)
    → 2 ^ dim ≤ length ingress
    → All (λ p. p < start) primary
    → All (λ p. p < start) ingress
    → InOrder start (merged_nodes dim primary ingress start)
unfolding merged_nodes
merged-InOrder dim primary ingress start enough below_p below_i =
    InOrder-append start center (connector_nodes dim ingress start) _
      (omega (arith, length-connector_nodes dim ingress start enough))
      (connector-InOrder dim ingress start enough below_i)
      (InOrder-append center (center + 2 ^ dim) (map two_sorted pairs)
        (layers_nodes (2 ^ dim) dim center)
        (omega (
          arith,
          length-map two_sorted pairs,
          length-pair_preds (2 ^ dim) primary (connector_out dim start),
        ))
        (InOrder-Below center center (map two_sorted pairs) (omega arith) (
          All-map (Below center) two_sorted pairs (
            pair_preds-Below (2 ^ dim) center primary (connector_out dim start) pos
              (All-weaken _ primary (λ p lt. omega arith) below_p)
              (connector_out-lt dim start center (omega arith)))))
        (layers-InOrder (2 ^ dim) dim center (one-le-pow dim 2 (omega arith))))
  where
    center : ℕ
    center = start + butterfly_node_count dim

    pairs : List (ℕ × ℕ)
    pairs = pair_preds (2 ^ dim) primary (connector_out dim start)

    pos : 0 < center
    pos = omega (arith, butterfly_size dim, one-le-pow dim 2 (omega arith))

connected-InOrder :
    (level : ℕ) (inputs : List ℕ) (start : ℕ)
    → 0 < start
    → 2 ^ level ≤ length inputs
    → All (λ p. p < start) inputs
    → InOrder start (connected_nodes level inputs start)
unfolding connected_nodes
connected-InOrder zero inputs start pos enough below =
    (All-get_or_lt (λ p. p < start) inputs 0 0 (omega arith) below, tt)
connected-InOrder (suc l) inputs start pos enough below =
    InOrder-append start c (connected_nodes l inputs start) _
      (omega (arith, length-connected_nodes l inputs start (omega arith)))
      (connected-InOrder l inputs start pos (omega arith) below)
      (InOrder-append c r (merged_nodes l (connected_base l start) ingress c) _
        (omega (arith, length-merged_nodes l (connected_base l start) ingress c room))
        (merged-InOrder l (connected_base l start) ingress c room
          (connected_base-lt l start c (omega arith))
          (All-drop _ (2 ^ l) inputs (All-weaken _ inputs (λ p lt. omega arith) below)))
        (connected-InOrder l (merged_out l c) r (omega arith)
          (omega (arith, length-range' (c + butterfly_node_count l + l * 2 ^ l) (2 ^ l)))
          (connector_out-lt l (c + butterfly_node_count l) r (omega arith))))
  where
    c : ℕ
    c = center_at l start

    r : ℕ
    r = right_at l start

    ingress : List ℕ
    ingress = drop (2 ^ l) inputs

    room : 2 ^ l ≤ length ingress
    room = omega (arith, length-drop (2 ^ l) inputs)

pub standalone-InOrder : (level start : ℕ) → InOrder start (standalone_nodes level start)
unfolding standalone_nodes
standalone-InOrder zero start = (tt, tt)
standalone-InOrder (suc l) start =
    InOrder-append start c (standalone_nodes l start) _
      (omega (arith, length-standalone_nodes l start)) (standalone-InOrder l start)
      (InOrder-append c r (connector_nodes l (standalone_base l start) c) _
        (omega (arith, length-connector_nodes l (standalone_base l start) c room))
        (connector-InOrder l (standalone_base l start) c room
          (standalone_base-lt l start c (omega arith)))
        (connected-InOrder l (connector_out l c) r
          (omega (arith, butterfly_size l, one-le-pow l 2 (omega arith)))
          (omega (arith, length-range' (c + l * 2 ^ l) (2 ^ l)))
          (connector_out-lt l c r (omega arith))))
  where
    c : ℕ
    c = standalone_center_at l start

    r : ℕ
    r = standalone_right_at l start

    room : 2 ^ l ≤ length (standalone_base l start)
    room = omega (arith, length-standalone_base l start)
