-- ===== src/Graph/Inplace/Layers.antt =====
-- One layer of the label-carrying emitter computes the labels that the id-indexed buffer holds
-- after the same layer.
use po_se_memory_wiping.Prelude.{
  ℕ, zero, suc, ◌+◌, ◌≤◌, ◌≡◌, refl, ap, ap₂, ◌∙◌, false, Option, none, some, List, [], ◌∷◌, ◌++◌,
  map, length, take, drop, range', arith, length-take, length-drop, length-range', length-append,
  take-append-drop,
}
use po_se_memory_wiping.Prelude.Exec.{Exec, bind_step}
use po_se_memory_wiping.Label.{Bytes, Algo, NodeHash, label_batch, label_each}
use po_se_memory_wiping.Graph.Emitter.Spec.{one, two_sorted}
use po_se_memory_wiping.Graph.Emitter.Fill.{labels_each}
use po_se_memory_wiping.Graph.Inplace.{LEmitter, lc_batches, lc_batch1, lc_batch2}
use po_se_memory_wiping.Graph.Inplace.Order.{sorted_labels}

-- The labels of a node's predecessors.
abbrev pub Reads : Type 0
Reads = Option Bytes × Option Bytes

abbrev pub reads1 : Bytes → Reads
reads1 p = (some p, none)

abbrev pub reads2 : Bytes × Bytes → Reads
reads2 p = (some p.0, some p.1)

abbrev pub advance : ℕ → LEmitter → LEmitter
advance n e = record e { next_id = e.next_id + n }

module _ (h : NodeHash) where
  -- The labels of nodes from `id` on.
  pub lc_each : {A : Type 0} → (A → Reads) → Bytes → Bytes → Algo → ℕ → List A → List Bytes
  lc_each reads seed desc algo id [] = []
  lc_each reads seed desc algo id (p ∷ ps) =
      h.label_node false id (reads p).0 (reads p).1 seed desc algo
      ∷ lc_each reads seed desc algo (id + 1) ps

  lc_each-append :
      {A : Type 0} (reads : A → Reads) (seed desc : Bytes) (algo : Algo) (id : ℕ) (ps qs : List A)
      → lc_each reads seed desc algo id ps ++ lc_each reads seed desc algo (id + length ps) qs
        ≡ lc_each reads seed desc algo id (ps ++ qs)
  unfolding lc_each
  lc_each-append reads seed desc algo id [] qs =
      ap (λ k. lc_each reads seed desc algo k qs) (omega arith)
  lc_each-append reads seed desc algo id (p ∷ ps) qs =
      ap (λ r. h.label_node false id (reads p).0 (reads p).1 seed desc algo ∷ r)
        (ap (λ k. lc_each reads seed desc algo (id + 1) ps ++ lc_each reads seed desc algo k qs)
            (omega arith)
          ∙ lc_each-append reads seed desc algo (id + 1) ps qs)

  abbrev pub LcBatchLem :
      {A : Type 0} → (A → Reads) → (List A → Exec LEmitter (List Bytes)) → Type 0
  LcBatchLem {A} reads batch =
      (ps : List A) (e : LEmitter)
      → length ps ≤ label_batch
      → batch ps e ≡ some (lc_each reads e.seed e.desc e.algo e.next_id ps, advance (length ps) e)

  each1 :
      (seed desc : Bytes) (algo : Algo) (id : ℕ) (ps : List Bytes)
      → label_each h.label_node false
          (range' id (length ps))
          (some (map (λ p. some p) ps))
          none
          seed
          desc
          algo
        ≡ lc_each reads1 seed desc algo id ps
  unfolding label_each lc_each
  each1 seed desc algo id [] = refl
  each1 seed desc algo id (p ∷ ps) =
      ap (λ r. h.label_node false id (some p) none seed desc algo ∷ r)
        (each1 seed desc algo (id + 1) ps)

  each2 :
      (seed desc : Bytes) (algo : Algo) (id : ℕ) (ps : List (Bytes × Bytes))
      → label_each h.label_node false
          (range' id (length ps))
          (some (map (λ (p : Bytes × Bytes). some p.0) ps))
          (some (map (λ (p : Bytes × Bytes). some p.1) ps))
          seed
          desc
          algo
        ≡ lc_each reads2 seed desc algo id ps
  unfolding label_each lc_each
  each2 seed desc algo id [] = refl
  each2 seed desc algo id (p ∷ ps) =
      ap (λ r. h.label_node false id (some p.0) (some p.1) seed desc algo ∷ r)
        (each2 seed desc algo (id + 1) ps)

  pub lc_batch1_lem : LcBatchLem reads1 (lc_batch1 h)
  unfolding lc_batch1
  lc_batch1_lem ps e small =
      ap (λ ls. some (ls, advance (length ps) e))
        (h.label_node_many-eq-label_each false (range' e.next_id (length ps)) _ none e.seed e.desc
            e.algo (omega (arith, length-range' e.next_id (length ps)))
          ∙ each1 e.seed e.desc e.algo e.next_id ps)

  pub lc_batch2_lem : LcBatchLem reads2 (lc_batch2 h)
  unfolding lc_batch2
  lc_batch2_lem ps e small =
      ap (λ ls. some (ls, advance (length ps) e))
        (h.label_node_many-eq-label_each false (range' e.next_id (length ps)) _ _ e.seed e.desc
            e.algo (omega (arith, length-range' e.next_id (length ps)))
          ∙ each2 e.seed e.desc e.algo e.next_id ps)

  pub lc_batches_lem :
      {A : Type 0} (reads : A → Reads) (batch : List A → Exec LEmitter (List Bytes))
      → LcBatchLem reads batch
      → (fuel : ℕ) (ps : List A) (e : LEmitter) → length ps ≤ fuel
      → lc_batches batch fuel ps e
        ≡ some (lc_each reads e.seed e.desc e.algo e.next_id ps, advance (length ps) e)
  unfolding lc_batches lc_each
  lc_batches_lem reads batch lem fuel [] e enough =
      ap (λ k. some ([], record e { next_id = k })) (omega arith)
  lc_batches_lem reads batch lem zero (p ∷ ps) e enough = absurd (omega arith)
  lc_batches_lem {A} reads batch lem (suc fuel) (p ∷ ps) e enough =
      bind_step _ (lem now e (omega (arith, length-take label_batch (p ∷ ps)))) (
        bind_step _
          (lc_batches_lem reads batch lem fuel later (advance (length now) e)
            (omega (arith, length-drop label_batch (p ∷ ps))))
          (ap₂ (λ ls k. some (ls, record e { next_id = k }))
              (lc_each-append reads e.seed e.desc e.algo e.next_id now later)
              (omega (arith, length-append now later))
            ∙ ap
                (λ xs.
                  some (lc_each reads e.seed e.desc e.algo e.next_id xs, advance (length xs) e))
                (take-append-drop label_batch (p ∷ ps))))
    where
      now : List A
      now = take label_batch (p ∷ ps)

      later : List A
      later = drop label_batch (p ∷ ps)

  module _ (seed desc : Bytes) (algo : Algo) (m : ℕ → Bytes) where
    pub lc_each-one :
        (id : ℕ) (ps : List ℕ)
        → lc_each reads1 seed desc algo id (map m ps)
          ≡ labels_each h seed desc algo m id (map one ps)
    unfolding lc_each labels_each
    lc_each-one id [] = refl
    lc_each-one id (p ∷ ps) = ap₂ ◌∷◌ refl (lc_each-one (id + 1) ps)

    pub lc_each-two :
        (id : ℕ) (ps : List (ℕ × ℕ))
        → lc_each reads2 seed desc algo id (map (sorted_labels m) ps)
          ≡ labels_each h seed desc algo m id (map two_sorted ps)
    unfolding lc_each labels_each
    lc_each-two id [] = refl
    lc_each-two id (p ∷ ps) = ap₂ ◌∷◌ refl (lc_each-two (id + 1) ps)
