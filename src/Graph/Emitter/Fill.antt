-- ===== src/Graph/Emitter/Fill.antt =====
-- The label buffer after a list of nodes: ids below the first are untouched, and nodes that read
-- only such ids may be labelled from the buffer before.
use po_se_memory_wiping.Prelude.{
  ℕ, ◌+◌, ◌≤◌, ◌<◌, ◌≡◌, refl, ap, ap₂, ◌∙◌, false, some, none, List, [], ◌∷◌, ◌++◌, map, length,
  range', update, update_self, update_ne, store_all, All, arith,
}
use po_se_memory_wiping.Label.{Bytes, Algo, NodeHash, label_each}
use po_se_memory_wiping.Graph.Emitter.{sort_preds}
use po_se_memory_wiping.Graph.Emitter.Spec.{
  Preds, source, one, two, Below, label_of, fill, two_sorted,
}

-- Two buffers that hold the same labels below `b`.
abbrev pub Agree : ℕ → (ℕ → Bytes) → (ℕ → Bytes) → Type 0
Agree b l m = (j : ℕ) → j < b → l j ≡ m j

module _ (h : NodeHash) (seed desc : Bytes) (algo : Algo) where
  abbrev fills : (ℕ → Bytes) → ℕ → List Preds → ℕ → Bytes
  fills = fill h seed desc algo

  abbrev label : (ℕ → Bytes) → ℕ → Preds → Bytes
  label = label_of h seed desc algo

  -- The labels of nodes that are all read from the buffer `l`.
  unfoldable pub labels_each : (ℕ → Bytes) → ℕ → List Preds → List Bytes
  labels_each l id [] = []
  labels_each l id (p ∷ ps) = label l id p ∷ labels_each l (id + 1) ps

  pub fill-below :
      (l : ℕ → Bytes) (id : ℕ) (ps : List Preds) (j : ℕ) → j < id → fills l id ps j ≡ l j
  unfolding fill
  fill-below l id [] j lt = refl
  fill-below l id (p ∷ ps) j lt =
      fill-below (update l id (label l id p)) (id + 1) ps j (omega arith)
      ∙ update_ne l id j (label l id p) (λ e. absurd (omega arith))

  pub fill-append :
      (l : ℕ → Bytes) (id : ℕ) (ps qs : List Preds)
      → fills l id (ps ++ qs) ≡ fills (fills l id ps) (id + length ps) qs
  unfolding fill
  fill-append l id [] qs = ap (λ n. fills l n qs) (omega arith)
  fill-append l id (p ∷ ps) qs =
      fill-append (update l id (label l id p)) (id + 1) ps qs
      ∙ ap (λ n. fills (fills (update l id (label l id p)) (id + 1) ps) n qs) (omega arith)

  pub label-Agree :
      (b : ℕ) (l m : ℕ → Bytes) (id : ℕ) (p : Preds)
      → Agree b l m
      → Below b p
      → label l id p ≡ label m id p
  label-Agree b l m id source a lt = refl
  label-Agree b l m id (one p) a lt =
      ap (λ v. h.label_node false id (some v) none seed desc algo) (a p lt)
  label-Agree b l m id (two p q) a lt =
      ap₂ (λ v w. h.label_node false id (some v) (some w) seed desc algo) (a p lt.0) (a q lt.1)

  Agree-update :
      (b : ℕ) (l m : ℕ → Bytes) (id : ℕ) (v : Bytes)
      → b ≤ id
      → Agree b l m
      → Agree b (update l id v) m
  Agree-update b l m id v le a j lt = update_ne l id j v (λ e. absurd (omega arith)) ∙ a j lt

  -- Storing a whole batch of labels at once gives the buffer that labelling one by one gives.
  pub store_all-labels_each :
      (b : ℕ) (l m : ℕ → Bytes) (id : ℕ) (ps : List Preds)
      → b ≤ id
      → Agree b m l
      → All (Below b) ps
      → store_all m id (labels_each l id ps) ≡ fills m id ps
  unfolding fill labels_each
  store_all-labels_each b l m id [] le a below = refl
  store_all-labels_each b l m id (p ∷ ps) le a below = rw (label-Agree b m l id p a below.0) (
      store_all-labels_each b l (update m id (label l id p)) (id + 1) ps (omega arith)
        (Agree-update b m l id (label l id p) le a) below.1)

  -- What the new ids hold then.
  pub map-fill :
      (b : ℕ) (l m : ℕ → Bytes) (id : ℕ) (ps : List Preds)
      → b ≤ id
      → Agree b m l
      → All (Below b) ps
      → map (fills m id ps) (range' id (length ps)) ≡ labels_each l id ps
  unfolding fill labels_each
  map-fill b l m id [] le a below = refl
  map-fill b l m id (p ∷ ps) le a below =
      ap₂ ◌∷◌
        (fill-below (update m id (label m id p)) (id + 1) ps id (omega arith)
          ∙ update_self m id (label m id p)
          ∙ label-Agree b m l id p a below.0)
        (map-fill b l (update m id (label m id p)) (id + 1) ps (omega arith)
          (Agree-update b m l id (label m id p) le a) below.1)

  pub label_each-one :
      (l : ℕ → Bytes) (id : ℕ) (ps : List ℕ)
      → label_each h.label_node false
          (range' id (length ps))
          (some (map (λ p. some (l p)) ps))
          none
          seed
          desc
          algo
        ≡ labels_each l id (map one ps)
  unfolding label_each labels_each
  label_each-one l id [] = refl
  label_each-one l id (p ∷ ps) = ap (λ r. label l id (one p) ∷ r) (label_each-one l (id + 1) ps)

  pub label_each-two :
      (l : ℕ → Bytes) (id : ℕ) (ps : List (ℕ × ℕ))
      → label_each h.label_node false
          (range' id (length ps))
          (some (map (λ (p : ℕ × ℕ). some (l (sort_preds p.0 p.1).0)) ps))
          (some (map (λ (p : ℕ × ℕ). some (l (sort_preds p.0 p.1).1)) ps))
          seed
          desc
          algo
        ≡ labels_each l id (map two_sorted ps)
  unfolding label_each labels_each
  label_each-two l id [] = refl
  label_each-two l id (p ∷ ps) =
      ap (λ r. label l id (two_sorted p) ∷ r) (label_each-two l (id + 1) ps)
