-- ===== src/Graph/Edges/Follow.antt =====
-- The label of each node follows from the labels of the nodes that its record names.
use po_se_memory_wiping.Prelude.{
  ℕ, zero, suc, ◌+◌, ◌≤◌, ◌<◌, ◌≡◌, refl, sym, ap, ◌∙◌, true, false, some, none, List, [], ◌∷◌,
  length, get_or, update, update_self, update_ne, arith, ◌==◌, if◌then◌else◌,
}
use po_se_memory_wiping.Label.{Bytes, Algo, NodeHash}
use po_se_memory_wiping.Graph.Emitter.{Node}
use po_se_memory_wiping.Graph.Emitter.Spec.{
  Preds, source, one, two, label_of, fill, record_of, record_all,
}
use po_se_memory_wiping.Graph.Emitter.Fill.{fill-below, label-Agree}
use po_se_memory_wiping.Graph.Edges.{blank_node}
use po_se_memory_wiping.Graph.Edges.Order.{InOrder}

pub record_all-below :
    (t : ℕ → Node) (id : ℕ) (ps : List Preds) (j : ℕ) → j < id → record_all t id ps j ≡ t j
unfolding record_all
record_all-below t id [] j lt = refl
record_all-below t id (p ∷ ps) j lt =
    record_all-below (update t id (record_of (t id) p)) (id + 1) ps j (omega arith)
    ∙ update_ne t id j (record_of (t id) p) (λ e. absurd (omega arith))

-- From a table of blank nodes, each node's record is made of what it reads.
pub record_all-at :
    (t : ℕ → Node) (id : ℕ) (ps : List Preds) (i : ℕ)
    → i < length ps
    → ((j : ℕ) → id ≤ j → t j ≡ blank_node)
    → record_all t id ps (id + i) ≡ record_of blank_node (get_or ps i source)
unfolding record_all
record_all-at t id [] i lt blank = absurd (omega arith)
record_all-at t id (p ∷ ps) zero lt blank =
    ap (record_all (update t id (record_of (t id) p)) (id + 1) ps) here
    ∙ record_all-below (update t id (record_of (t id) p)) (id + 1) ps id (omega arith)
    ∙ update_self t id (record_of (t id) p)
    ∙ ap (λ n. record_of n p) (blank id (omega arith))
  where
    here : id + zero ≡ id
    here = omega arith
record_all-at t id (p ∷ ps) (suc i) lt blank =
    ap (record_all (update t id (record_of (t id) p)) (id + 1) ps) there
    ∙ record_all-at (update t id (record_of (t id) p)) (id + 1) ps i (omega arith) (λ j le.
      update_ne t id j (record_of (t id) p) (λ e. absurd (omega arith)) ∙ blank j (omega arith))
  where
    there : id + suc i ≡ id + 1 + i
    there = omega arith

module _ (h : NodeHash) (seed desc : Bytes) (algo : Algo) where
  open h use {label_node}

  abbrev fills : (ℕ → Bytes) → ℕ → List Preds → ℕ → Bytes
  fills = fill h seed desc algo

  -- The label that a node of the exported graph has, from the labels of its predecessors.
  abbrev pub label_from : (ℕ → Bytes) → ℕ → Node → Bytes
  label_from l id n =
      if n.num_preds == 0
      then label_node true id none none seed desc algo
      else (if n.num_preds == 1
          then label_node false id (some (l n.pred0)) none seed desc algo
          else label_node false id (some (l n.pred0)) (some (l n.pred1)) seed desc algo)

  pub label_from-record_of :
      (l : ℕ → Bytes) (id : ℕ) (p : Preds)
      → label_from l id (record_of blank_node p) ≡ label_of h seed desc algo l id p
  label_from-record_of l id source = refl
  label_from-record_of l id (one p) = refl
  label_from-record_of l id (two p q) = refl

  pub fill-at :
      (l : ℕ → Bytes) (id : ℕ) (ps : List Preds) (i : ℕ)
      → i < length ps
      → InOrder id ps
      → fills l id ps (id + i)
        ≡ label_of h seed desc algo (fills l id ps) (id + i) (get_or ps i source)
  unfolding fill
  fill-at l id [] i lt o = absurd (omega arith)
  fill-at l id (p ∷ ps) zero lt o =
      ap after here
      ∙ fill-below h seed desc algo now (id + 1) ps id (omega arith)
      ∙ update_self l id (label_of h seed desc algo l id p)
      ∙ label-Agree h seed desc algo id l after id p old o.0
      ∙ ap (λ k. label_of h seed desc algo after k p) (sym here)
    where
      now : ℕ → Bytes
      now = update l id (label_of h seed desc algo l id p)

      after : ℕ → Bytes
      after = fills now (id + 1) ps

      here : id + zero ≡ id
      here = omega arith

      old : (j : ℕ) → j < id → l j ≡ after j
      old j lt = sym (
          fill-below h seed desc algo now (id + 1) ps j (omega arith)
          ∙ update_ne l id j (label_of h seed desc algo l id p) (λ e. absurd (omega arith)))
  fill-at l id (p ∷ ps) (suc i) lt o =
      ap after there
      ∙ fill-at (update l id (label_of h seed desc algo l id p)) (id + 1) ps i (omega arith) o.1
      ∙ ap (λ k. label_of h seed desc algo after k (get_or ps i source)) (sym there)
    where
      after : ℕ → Bytes
      after = fills (update l id (label_of h seed desc algo l id p)) (id + 1) ps

      there : id + suc i ≡ id + 1 + i
      there = omega arith
