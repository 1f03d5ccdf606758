-- ===== src/Graph/Inplace/Merged.antt =====
-- `lc_merged_center_ingress` computes the labels of the outputs of `emit_merged_center_ingress`.
use po_se_memory_wiping.Prelude.{
  ℕ, zero, suc, ◌+◌, ◌*◌, ◌^◌, ◌≤◌, ◌<◌, ◌≡◌, refl, sym, ap, ap₂, ◌∙◌, false, none, some, List, [],
  ◌∷◌, map, length, All, All-weaken, arith, update, update_self, update_ne, max,
}
use po_se_memory_wiping.Prelude.Exec.{bind_step}
use po_se_memory_wiping.Label.{Bytes, NodeHash}
use po_se_memory_wiping.Graph.Counts.{butterfly_node_count}
use po_se_memory_wiping.Graph.Emitter.Spec.{two, two_sorted, fill, label_of}
use po_se_memory_wiping.Graph.Connector.{pair_preds}
use po_se_memory_wiping.Graph.Connector.Nodes.{
  merged_room, layers_nodes, connector_nodes, merged_nodes, merged_out,
}
use po_se_memory_wiping.Graph.Inplace.{
  LEmitter, lc1, lc2, lc_arena_restore, lc_merged_center_ingress,
}
use po_se_memory_wiping.Graph.Inplace.Order.{sort_preds-le}
use po_se_memory_wiping.Graph.Inplace.Connector.{
  settled, filled, lc_arena_alloc_lem, lc_merged_layers_lem,
}

module _ (h : NodeHash) where
  -- The label of a node that reads an old label and the one just stored.
  label_of-update :
      (e : LEmitter) (m : ℕ → Bytes) (start y : ℕ) (v : Bytes)
      → y < start
      → label_of h e.seed e.desc e.algo (update m start v) (start + 1) (two_sorted (y, start))
        ≡ h.label_node false (start + 1) (some (m y)) (some v) e.seed e.desc e.algo
  label_of-update e m start y v lt =
      ap
        (λ (p : ℕ × ℕ).
          label_of h e.seed e.desc e.algo (update m start v) (start + 1) (two p.0 p.1))
        (sort_preds-le y start (omega arith))
      ∙ ap₂ (λ a b. h.label_node false (start + 1) (some a) (some b) e.seed e.desc e.algo)
          (update_ne m start y v (λ eq. absurd (omega arith))) (update_self m start v)

  lc_merged_one :
      (primary ingress : List ℕ) (m : ℕ → Bytes) (e : LEmitter)
      → 1 ≤ length primary
      → 1 ≤ length ingress
      → All (λ p. p < e.next_id) primary
      → lc_merged_center_ingress h 0 (map m primary) (map m ingress) e
        ≡ some (
          map
              (filled h e m e.next_id (merged_nodes 0 primary ingress e.next_id))
              (merged_out 0 e.next_id),
          record e { next_id = e.next_id + 2 },
        )
  unfolding lc_merged_center_ingress lc1 lc2 merged_nodes connector_nodes layers_nodes pair_preds
      butterfly_node_count fill
  lc_merged_one [] ingress m e p i hp = absurd (omega arith)
  lc_merged_one (y ∷ ys) [] m e p i hp = absurd (omega arith)
  lc_merged_one (y ∷ ys) (x ∷ xs) m e p i hp =
      ap₂ (λ l k. some (l ∷ [], record e { next_id = k }))
        (sym (label_of-update e m e.next_id y v hp.0)
          ∙ sym (
              update_self m1 (e.next_id + 1)
                (label_of h e.seed e.desc e.algo m1 (e.next_id + 1) (two_sorted (y, e.next_id))))
          ∙ ap₂
              (λ k j.
                update m1 (e.next_id + 1)
                  (label_of h e.seed e.desc e.algo m1 (e.next_id + 1) (two_sorted (y, k))) j)
              here out)
        (omega arith)
    where
      v : Bytes
      v = h.label_node false e.next_id (some (m x)) none e.seed e.desc e.algo

      m1 : ℕ → Bytes
      m1 = update m e.next_id v

      out : e.next_id + 1 ≡ e.next_id + (0 + 1) * 2 ^ 0 + 0 * 2 ^ 0
      out = omega arith

      here : e.next_id ≡ e.next_id + 0 * 2 ^ 0
      here = omega arith

  pub lc_merged_lem :
      (dim : ℕ) (primary ingress : List ℕ) (m : ℕ → Bytes) (start : ℕ) (e : LEmitter)
      → e.next_id ≡ start
      → dim ≤ 32
      → 2 ^ dim ≤ length primary
      → 2 ^ dim ≤ length ingress
      → All (λ p. p < start) primary
      → All (λ p. p < start) ingress
      → e.arena_off + merged_room dim ≤ e.arena_cap
      → e.arena_off ≤ e.arena_hi
      → lc_merged_center_ingress h dim (map m primary) (map m ingress) e
        ≡ some (
          map (filled h e m start (merged_nodes dim primary ingress start)) (merged_out dim start),
          settled (2 * butterfly_node_count dim) (merged_room dim) e,
        )
  unfolding lc_merged_center_ingress lc_arena_restore
  lc_merged_lem zero primary ingress m start e at small p i hp hi room off_hi =
      lc_merged_one primary ingress m e p i (All-weaken _ primary (λ p lt. omega arith) hp)
      ∙ ap₂
          (λ k s.
            some (map (filled h e m k (merged_nodes 0 primary ingress k)) (merged_out 0 k), s))
          at (λ j. record e { next_id = ids j; arena_hi = hi_same j })
    where
      ids : e.next_id + 2 ≡ e.next_id + 2 * butterfly_node_count 0
      ids = unfold butterfly_node_count in refl

      hi_same : e.arena_hi ≡ max e.arena_hi (e.arena_off + 0)
      hi_same = omega arith
  lc_merged_lem (suc d) primary ingress m start e at small p i hp hi room off_hi =
      bind_step _ (lc_arena_alloc_lem (2 ^ suc d) e (omega arith)) (
        bind_step _ (lc_arena_alloc_lem (2 ^ suc d) _ (omega arith)) (
          bind_step _ (lc_arena_alloc_lem (2 ^ suc d) _ (omega arith)) (
            bind_step _ (lc_arena_alloc_lem (2 ^ suc d) _ (omega arith)) (
              bind_step _
                (lc_merged_layers_lem h (suc d) primary ingress m start _ at small p i hp hi)
                (ap
                  (λ k. some (
                    map (filled h e m start (merged_nodes (suc d) primary ingress start))
                        (merged_out (suc d) start),
                    record e {
                      next_id = e.next_id + 2 * butterfly_node_count (suc d);
                      arena_hi = k;
                    },
                  ))
                  (omega arith))))))
