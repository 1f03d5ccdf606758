-- ===== src/Graph/Emitter/Loops.antt =====
-- The loops over one layer: node by node and in batches they emit the same nodes.
use mathlib.Core.Option
use po_se_memory_wiping.Prelude.{
  ℕ, zero, suc, ◌+◌, ◌≤◌, ◌≡◌, refl, ap, ap₂, sym, ◌∙◌, false, Option, some, none, List, [], ◌∷◌,
  ◌++◌, map, length, take, drop, range', All, All-take, All-drop, All-map, All-weaken, arith,
  take-append-drop, length-take, length-drop, length-map, length-append, length-range',
  range'-append, map-append, store_all,
}
use po_se_memory_wiping.Prelude.Exec.{Exec, bind_step}
use po_se_memory_wiping.Label.{Bytes, NodeHash, label_batch}
use po_se_memory_wiping.Graph.Emitter.{
  Emitter, emit1_loop, emit2_loop, label_batch1, label_batch2, labels_of, batches,
}
use po_se_memory_wiping.Graph.Emitter.Spec.{
  Preds, source, one, two, Below, two_sorted, fill, record_all, emit_all, emit_one, Emitter_ext,
  emit_all-nil, emit_all-cons, emit_all-append, emit1_lem, emit2_lem,
}
use po_se_memory_wiping.Graph.Emitter.Fill.{
  store_all-labels_each, labels_each, label_each-one, label_each-two,
}

pub Below-weaken : (b c : ℕ) (p : Preds) → b ≤ c → Below b p → Below c p
Below-weaken b c source le h = tt
Below-weaken b c (one p) le h = omega arith
Below-weaken b c (two p q) le h = (omega arith, omega arith)

module _ (h : NodeHash) where
  pub emit1_loop_lem :
      (ps : List ℕ) (e : Emitter)
      → emit1_loop h ps e ≡ some (range' e.next_id (length ps), emit_all h (map one ps) e)
  unfolding emit1_loop
  emit1_loop_lem [] e = ap (λ s. some ([], s)) (sym (emit_all-nil h e))
  emit1_loop_lem (p ∷ ps) e = bind_step _ (emit1_lem h p e) (
      bind_step _ (emit1_loop_lem ps (emit_one h (one p) e)) (
        ap (λ s. some (range' e.next_id (suc (length ps)), s))
          (emit_all-cons h (one p) (map one ps) e)))

  pub emit2_loop_lem :
      (ps : List (ℕ × ℕ)) (e : Emitter)
      → emit2_loop h ps e ≡ some (range' e.next_id (length ps), emit_all h (map two_sorted ps) e)
  unfolding emit2_loop
  emit2_loop_lem [] e = ap (λ s. some ([], s)) (sym (emit_all-nil h e))
  emit2_loop_lem ((p, q) ∷ ps) e = bind_step _ (emit2_lem h p q e) (
      bind_step _ (emit2_loop_lem ps (emit_one h (two_sorted (p, q)) e)) (
        ap (λ s. some (range' e.next_id (suc (length ps)), s))
          (emit_all-cons h (two_sorted (p, q)) (map two_sorted ps) e)))

  -- A batch whose labels are those of its nodes, read from the buffer before.
  batch_lem :
      (l : ℕ → Bytes) (ps : List Preds) (n : ℕ) (outs : List Bytes) (e : Emitter)
      → e.labels ≡ some l
      → e.nodes ≡ none
      → n ≡ length ps
      → outs ≡ labels_each h e.seed e.desc e.algo l e.next_id ps
      → All (Below e.next_id) ps
      → record e { next_id = e.next_id + n; labels = some (store_all l e.next_id outs) }
        ≡ emit_all h ps e
  batch_lem l ps n outs e is_l is_n is_len is_outs below =
      Emitter_ext h e (ap (λ k. e.next_id + k) is_len)
        (ap (λ o. some (store_all l e.next_id o)) is_outs
          ∙ ap some (
              store_all-labels_each h e.seed e.desc e.algo e.next_id l l e.next_id ps (omega arith)
                (λ j lt. refl) below)
          ∙ sym (ap (Option.map (λ m. fill h e.seed e.desc e.algo m e.next_id ps)) is_l))
        (is_n ∙ sym (ap (Option.map (λ t. record_all t e.next_id ps)) is_n))

  -- The buffer is there, nothing is recorded, and the nodes read only labelled ids.
  abbrev pub Ready : {A : Type 0} → (A → Preds) → (ℕ → Bytes) → List A → Emitter → Type 0
  Ready node l ps e =
      (e.labels ≡ some l) × (e.nodes ≡ none) × All (λ x. Below e.next_id (node x)) ps

  -- What a batch does to at most 16 nodes.
  abbrev pub BatchLem :
      {A : Type 0} → (A → Preds) → ((ℕ → Bytes) → List A → Exec Emitter (List ℕ)) → Type 0
  BatchLem {A} node batch =
      (l : ℕ → Bytes) (ps : List A) (e : Emitter)
      → length ps ≤ label_batch
      → Ready node l ps e
      → batch l ps e ≡ some (range' e.next_id (length ps), emit_all h (map node ps) e)

  -- A batch of at most 16 nodes that read only labelled ids.
  pub label_batch1_lem : BatchLem one (label_batch1 h)
  unfolding label_batch1
  label_batch1_lem l ps e small ready =
      ap (λ s. some (range' e.next_id (length ps), s))
        (batch_lem l (map one ps) (length ps) _ e ready.0 ready.1 (sym (length-map one ps))
          (h.label_node_many-eq-label_each false (range' e.next_id (length ps)) _ none e.seed e.desc
              e.algo (omega (arith, length-range' e.next_id (length ps)))
            ∙ label_each-one h e.seed e.desc e.algo l e.next_id ps)
          (All-map (Below e.next_id) one ps ready.2))

  pub label_batch2_lem : BatchLem two_sorted (label_batch2 h)
  unfolding label_batch2
  label_batch2_lem l ps e small ready =
      ap (λ s. some (range' e.next_id (length ps), s))
        (batch_lem l (map two_sorted ps) (length ps) _ e ready.0 ready.1
          (sym (length-map two_sorted ps))
          (h.label_node_many-eq-label_each false (range' e.next_id (length ps)) _ _ e.seed e.desc
              e.algo (omega (arith, length-range' e.next_id (length ps)))
            ∙ label_each-two h e.seed e.desc e.algo l e.next_id ps)
          (All-map (Below e.next_id) two_sorted ps ready.2))

  -- Two consecutive runs of nodes are one.
  join :
      {A : Type 0} (node : A → Preds) (ps qs : List A) (e : Emitter)
      → ◌≡◌ {A = Option (List ℕ × Emitter)}
          (some (
            range' e.next_id (length ps) ++ range' (e.next_id + length (map node ps)) (length qs),
            emit_all h (map node qs) (emit_all h (map node ps) e),
          ))
          (some (range' e.next_id (length (ps ++ qs)), emit_all h (map node (ps ++ qs)) e))
  join node ps qs e =
      ap₂ (λ ids s. some (ids, s))
        (ap (λ k. range' e.next_id (length ps) ++ range' (e.next_id + k) (length qs))
            (length-map node ps)
          ∙ range'-append e.next_id (length ps) (length qs)
          ∙ ap (range' e.next_id) (sym (length-append ps qs)))
        (emit_all-append h (map node ps) (map node qs) e
          ∙ ap (λ ns. emit_all h ns e) (sym (map-append node ps qs)))

  Ready-drop :
      {A : Type 0} (node : A → Preds) (l : ℕ → Bytes) (n : ℕ) (ps : List A) (e : Emitter)
      → Ready node l ps e
      → Ready node
          (fill h e.seed e.desc e.algo l e.next_id (map node (take n ps)))
          (drop n ps)
          (emit_all h (map node (take n ps)) e)
  Ready-drop node l n ps e ready = (
    ap (Option.map (λ m. fill h e.seed e.desc e.algo m e.next_id (map node (take n ps)))) ready.0,
    ap (Option.map (λ t. record_all t e.next_id (map node (take n ps)))) ready.1,
    All-weaken _ (drop n ps) (λ x b. Below-weaken e.next_id _ (node x) (omega arith) b)
        (All-drop _ n ps ready.2),
  )

  -- Batches of any sizes up to 16 come to the same as one node after the other.
  pub batches_lem :
      {A : Type 0} (node : A → Preds) (batch : (ℕ → Bytes) → List A → Exec Emitter (List ℕ))
      → BatchLem node batch
      → (fuel : ℕ) (l : ℕ → Bytes) (ps : List A) (e : Emitter) → length ps ≤ fuel
      → Ready node l ps e
      → batches batch fuel ps e ≡ some (range' e.next_id (length ps), emit_all h (map node ps) e)
  unfolding batches labels_of
  batches_lem node batch lem fuel l [] e enough ready =
      ap (λ s. some ([], s)) (sym (emit_all-nil h e))
  batches_lem node batch lem zero l (p ∷ ps) e enough ready = absurd (omega arith)
  batches_lem {A} node batch lem (suc fuel) l (p ∷ ps) e enough ready =
      bind_step _ (ap (Option.map (λ m. (m, e))) ready.0) (
        bind_step _
          (lem l now e (omega (arith, length-take label_batch (p ∷ ps)))
            (ready.0, ready.1, All-take _ label_batch (p ∷ ps) ready.2))
          (bind_step _
            (batches_lem node batch lem fuel _ later (emit_all h (map node now) e)
              (omega (arith, length-drop label_batch (p ∷ ps)))
              (Ready-drop node l label_batch (p ∷ ps) e ready))
            (join node now later e
              ∙ ap (λ xs. some (range' e.next_id (length xs), emit_all h (map node xs) e))
                  (take-append-drop label_batch (p ∷ ps)))))
    where
      now : List A
      now = take label_batch (p ∷ ps)

      later : List A
      later = drop label_batch (p ∷ ps)
