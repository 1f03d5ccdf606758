-- ===== src/Graph/Connector/Nodes.antt =====
-- The nodes of a butterfly connector and of a merged center ingress, in the order of their ids
-- from `start` on, and where the outputs are.
use po_se_memory_wiping.Prelude.{
  ℕ, zero, suc, ◌+◌, ◌*◌, ◌^◌, ◌≤◌, ◌<◌, ◌≡◌, ◌∙◌, List, [], ◌++◌, map, length, get_or, take,
  range', All, All-map, All-get_or, All-range'-lt, arith, length-append, length-map, length-range',
  length-take, bit_xor,
}
use po_se_memory_wiping.Graph.Counts.{butterfly_node_count, butterfly_size}
use po_se_memory_wiping.Graph.Emitter.Spec.{Preds, one, two_sorted, Below}
use po_se_memory_wiping.Graph.Connector.{cross_preds, pair_preds}

unfoldable pub layer_nodes : ℕ → ℕ → ℕ → List Preds
layer_nodes width start r = map two_sorted (cross_preds width (range' start width) (2 ^ r))

unfoldable pub layers_nodes : ℕ → ℕ → ℕ → List Preds
layers_nodes width zero start = []
layers_nodes width (suc r) start = layer_nodes width start r ++ layers_nodes width r (start + width)

unfoldable pub connector_nodes : ℕ → List ℕ → ℕ → List Preds
connector_nodes dim inputs start =
    map one (take (2 ^ dim) inputs) ++ layers_nodes (2 ^ dim) dim start

abbrev pub connector_out : ℕ → ℕ → List ℕ
connector_out dim start = range' (start + dim * 2 ^ dim) (2 ^ dim)

unfoldable pub merged_nodes : ℕ → List ℕ → List ℕ → ℕ → List Preds
merged_nodes dim primary ingress start =
    connector_nodes dim ingress start
    ++ (map two_sorted (pair_preds (2 ^ dim) primary (connector_out dim start))
        ++ layers_nodes (2 ^ dim) dim (start + butterfly_node_count dim))

abbrev pub merged_out : ℕ → ℕ → List ℕ
merged_out dim start = connector_out dim (start + butterfly_node_count dim)

-- The slots of the arena that a merged center ingress needs.
abbrev pub merged_room : ℕ → ℕ
merged_room zero = 0
merged_room (suc d) = 4 * 2 ^ suc d

pub length-cross_preds :
    (width : ℕ) (prev : List ℕ) (bit : ℕ) → length (cross_preds width prev bit) ≡ width
unfolding cross_preds
length-cross_preds width prev bit = length-map _ (range' 0 width) ∙ length-range' 0 width

pub length-pair_preds : (width : ℕ) (a b : List ℕ) → length (pair_preds width a b) ≡ width
unfolding pair_preds
length-pair_preds width a b = length-map _ (range' 0 width) ∙ length-range' 0 width

pub length-layers_nodes : (width r start : ℕ) → length (layers_nodes width r start) ≡ r * width
unfolding layers_nodes layer_nodes
length-layers_nodes width zero start = omega arith
length-layers_nodes width (suc r) start = omega (
  arith,
  length-append (layer_nodes width start r) (layers_nodes width r (start + width)),
  length-map two_sorted (cross_preds width (range' start width) (2 ^ r)),
  length-cross_preds width (range' start width) (2 ^ r),
  length-layers_nodes width r (start + width),
)

pub length-connector_nodes :
    (dim : ℕ) (inputs : List ℕ) (start : ℕ)
    → 2 ^ dim ≤ length inputs
    → length (connector_nodes dim inputs start) ≡ butterfly_node_count dim
unfolding connector_nodes butterfly_node_count
length-connector_nodes dim inputs start enough = omega (
  arith,
  length-append (map one (take (2 ^ dim) inputs)) (layers_nodes (2 ^ dim) dim start),
  length-map one (take (2 ^ dim) inputs),
  length-take (2 ^ dim) inputs,
  length-layers_nodes (2 ^ dim) dim start,
)

pub length-merged_nodes :
    (dim : ℕ) (primary ingress : List ℕ) (start : ℕ)
    → 2 ^ dim ≤ length ingress
    → length (merged_nodes dim primary ingress start) ≡ 2 * butterfly_node_count dim
unfolding merged_nodes
length-merged_nodes dim primary ingress start enough = omega (
  arith,
  length-append (connector_nodes dim ingress start) _,
  length-append (map two_sorted (pair_preds (2 ^ dim) primary (connector_out dim start)))
      (layers_nodes (2 ^ dim) dim (start + butterfly_node_count dim)),
  length-map two_sorted (pair_preds (2 ^ dim) primary (connector_out dim start)),
  length-pair_preds (2 ^ dim) primary (connector_out dim start),
  length-connector_nodes dim ingress start enough,
  length-layers_nodes (2 ^ dim) dim (start + butterfly_node_count dim),
  butterfly_size dim,
)

-- A test that holds of every number holds of every number of a run.
All-range'-of {ℓ} : (P : ℕ → Type ℓ) (s n : ℕ) → ((i : ℕ) → P i) → All P (range' s n)
All-range'-of P s zero f = tt
All-range'-of P s (suc n) f = (f s, All-range'-of P (s + 1) n f)

pub two_sorted-Below : (b p q : ℕ) → p < b → q < b → Below b (two_sorted (p, q))
two_sorted-Below b p q hp hq = ground arith

-- A layer reads nodes of the layer before.
pub cross_preds-Below :
    (width start bit b : ℕ)
    → 0 < width
    → start + width ≤ b
    → All (λ p. Below b (two_sorted p)) (cross_preds width (range' start width) bit)
unfolding cross_preds
cross_preds-Below width start bit b pos le =
    All-map (λ p. Below b (two_sorted p)) _ (range' 0 width)
      (All-range'-of _ 0 width (λ i. two_sorted-Below b _ _ (old i) (old (bit_xor i bit))))
  where
    old : (i : ℕ) → get_or (range' start width) i 0 < b
    old i =
        All-get_or (λ j. j < b) (range' start width) i 0 (All-range'-lt start width b le)
          (omega arith)

pub pair_preds-Below :
    (width b : ℕ) (primary ingress : List ℕ)
    → 0 < b
    → All (λ j. j < b) primary
    → All (λ j. j < b) ingress
    → All (λ p. Below b (two_sorted p)) (pair_preds width primary ingress)
unfolding pair_preds
pair_preds-Below width b primary ingress pos hp hi =
    All-map (λ p. Below b (two_sorted p)) _ (range' 0 width)
      (All-range'-of _ 0 width (λ i.
        two_sorted-Below b _ _ (All-get_or (λ j. j < b) primary i 0 hp pos)
          (All-get_or (λ j. j < b) ingress i 0 hi pos)))
