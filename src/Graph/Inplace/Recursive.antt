-- ===== src/Graph/Inplace/Recursive.antt =====
-- `lc_connected` and `lc_standalone` compute the labels of the bases of the id-indexed components.
use po_se_memory_wiping.Prelude.{
  ℕ, zero, suc, ◌+◌, ◌*◌, ◌/◌, ◌^◌, ◌≤◌, ◌<◌, ◌≡◌, refl, sym, ap, ap₂, ◌∙◌, true, false, none, some,
  List, [], ◌∷◌, ◌++◌, map, length, drop, All, All-drop, All-weaken, arith, map_agree, map-append,
  map-drop, length-drop, length-range', max, update_self,
}
use po_se_memory_wiping.Prelude.Exec.{bind_step}
use po_se_memory_wiping.Label.{Bytes, NodeHash}
use po_se_memory_wiping.Graph.Counts.{
  butterfly_node_count, connected_node_count, standalone_node_count,
}
use po_se_memory_wiping.Graph.Emitter.Spec.{Preds, fill}
use po_se_memory_wiping.Graph.Emitter.Fill.{fill-append, fill-below}
use po_se_memory_wiping.Graph.Connector.Nodes.{
  merged_room, connector_nodes, connector_out, merged_nodes, merged_out, length-connector_nodes,
  length-merged_nodes,
}
use po_se_memory_wiping.Graph.Recursive.Nodes.{
  center_at, right_at, standalone_center_at, standalone_right_at, connected_base, connected_nodes,
  standalone_base, standalone_nodes, length-connected_base, length-standalone_base,
  length-connected_nodes, length-standalone_nodes, connected_base-lt, standalone_base-lt,
  connector_out-lt,
}
use po_se_memory_wiping.Graph.Recursive.Room.{connected_room, standalone_room}
use po_se_memory_wiping.Graph.Inplace.{
  LEmitter, lc1, lc_source, lc_merged_center_ingress, lc_connected, lc_standalone, lc_arena_restore,
}
use po_se_memory_wiping.Graph.Inplace.Connector.{
  settled, filled, lc_arena_alloc_lem, lc_connector_lem,
}
use po_se_memory_wiping.Graph.Inplace.Merged.{lc_merged_lem}

module _ (h : NodeHash) where
  -- Three runs of nodes, one after the other.
  filled_three :
      (e : LEmitter) (m : ℕ → Bytes) (s c r : ℕ) (ns ms ks : List Preds)
      → c ≡ s + length ns
      → r ≡ c + length ms
      → filled h e (filled h e (filled h e m s ns) c ms) r ks ≡ filled h e m s (ns ++ (ms ++ ks))
  filled_three e m s c r ns ms ks at_c at_r =
      ap (λ k. filled h e (filled h e (filled h e m s ns) c ms) k ks) at_r
      ∙ sym (fill-append h e.seed e.desc e.algo (filled h e m s ns) c ms ks)
      ∙ ap (λ k. filled h e (filled h e m s ns) k (ms ++ ks)) at_c
      ∙ sym (fill-append h e.seed e.desc e.algo m s ns (ms ++ ks))

  -- Labels below the next id survive more nodes.
  pub map-filled :
      (e : LEmitter) (m : ℕ → Bytes) (s : ℕ) (ns : List Preds) (ids : List ℕ)
      → All (λ p. p < s) ids
      → map m ids ≡ map (filled h e m s ns) ids
  map-filled e m s ns ids below =
      map_agree (λ p. p < s) m (filled h e m s ns) ids
        (λ p lt. sym (fill-below h e.seed e.desc e.algo m s ns p lt)) below

  -- The two halves of a base, labelled before and after two more runs of nodes.
  bases :
      (e : LEmitter) (m : ℕ → Bytes) (s c r : ℕ) (ns ms ks : List Preds) (left right : List ℕ)
      → c ≡ s + length ns
      → r ≡ c + length ms
      → All (λ p. p < c) left
      → map (filled h e m s ns) left
          ++ map (filled h e (filled h e (filled h e m s ns) c ms) r ks) right
        ≡ map (filled h e m s (ns ++ (ms ++ ks))) (left ++ right)
  bases e m s c r ns ms ks left right at_c at_r below =
      ap₂ (λ a b. a ++ map b right)
        (map-filled e (filled h e m s ns) c ms left below
          ∙ map-filled e (filled h e (filled h e m s ns) c ms) r ks left
              (All-weaken _ left (λ p lt. omega arith) below)
          ∙ ap (λ b. map b left) all)
        all
      ∙ sym (map-append (filled h e m s (ns ++ (ms ++ ks))) left right)
    where
      all :
          filled h e (filled h e (filled h e m s ns) c ms) r ks ≡ filled h e m s (ns ++ (ms ++ ks))
      all = filled_three e m s c r ns ms ks at_c at_r

  pub lc_connected_lem :
      (level width : ℕ) (inputs : List ℕ) (m : ℕ → Bytes) (start : ℕ) (e : LEmitter)
      → width ≡ 2 ^ level
      → e.next_id ≡ start
      → level ≤ 32
      → 2 ^ level ≤ length inputs
      → All (λ p. p < start) inputs
      → e.arena_off + connected_room level ≤ e.arena_cap
      → e.arena_off ≤ e.arena_hi
      → lc_connected h level width (map m inputs) e
        ≡ some (
          map
              (filled h e m start (connected_nodes level inputs start))
              (connected_base level start),
          settled (connected_node_count level) (connected_room level) e,
        )
  unfolding lc_connected connected_base connected_nodes connected_room connected_node_count
      lc_arena_restore lc1 fill
  lc_connected_lem zero width [] m start e is_w at small enough below room off_hi =
      absurd (omega arith)
  lc_connected_lem zero width (x ∷ xs) m start e is_w at small enough below room off_hi =
      ap₂ (λ l k. some (l ∷ [], record e { next_id = e.next_id + 1; arena_hi = k }))
        (ap (λ k. h.label_node false k (some (m x)) none e.seed e.desc e.algo) at
          ∙ sym (
              update_self m start
                (h.label_node false start (some (m x)) none e.seed e.desc e.algo)))
        (omega arith)
  lc_connected_lem (suc l) width inputs m start e is_w at small enough below room off_hi =
      bind_step _ (lc_arena_alloc_lem (width / 2) e (omega arith)) (
        bind_step _ (lc_arena_alloc_lem (width / 2) _ (omega arith)) (
          bind_step _ (lc_arena_alloc_lem (width / 2) _ (omega arith)) (
            bind_step _
              (lc_connected_lem l (width / 2) inputs m start e3 half at (omega arith) (omega arith)
                below (omega arith) (omega arith))
              (bind_step _
                (ap (λ ls. lc_merged_center_ingress h l (map mL baseL) ls eL) tail
                  ∙ lc_merged_lem h l baseL (drop (2 ^ l) inputs) mL c eL (omega arith)
                      (omega arith) (omega (arith, length-connected_base l start))
                      (omega (arith, length-drop (2 ^ l) inputs))
                      (connected_base-lt l start c (omega arith))
                      (All-drop _ (2 ^ l) inputs (All-weaken _ inputs (λ p lt. omega arith) below))
                      (omega arith) (omega arith))
                (bind_step _
                  (lc_connected_lem l (width / 2) (merged_out l c) mM r eM half (omega arith)
                    (omega arith)
                    (omega (arith, length-range' (c + butterfly_node_count l + l * 2 ^ l) (2 ^ l)))
                    (connector_out-lt l (c + butterfly_node_count l) r (omega arith)) (omega arith)
                    (omega arith))
                  (ap₂ {B = LEmitter} (λ ls s. some (ls, s))
                    (bases e m start c r nsL nsM nsR baseL (connected_base l r) len_c len_r
                      (connected_base-lt l start c (omega arith)))
                    (λ i. record e { next_id = ids i; arena_hi = marks i })))))))
    where
      half : width / 2 ≡ 2 ^ l
      half = omega arith

      e3 : LEmitter
      e3 = record e {
        arena_off = e.arena_off + width / 2 + width / 2 + width / 2;
        arena_hi =
            max
              (max (max e.arena_hi (e.arena_off + width / 2)) (e.arena_off + width / 2 + width / 2))
              (e.arena_off + width / 2 + width / 2 + width / 2);
      }

      eL : LEmitter
      eL = settled (connected_node_count l) (connected_room l) e3

      eM : LEmitter
      eM = settled (2 * butterfly_node_count l) (merged_room l) eL

      ids :
          e.next_id + connected_node_count l + 2 * butterfly_node_count l + connected_node_count l
          ≡ e.next_id + connected_node_count (suc l)
      ids = omega arith

      marks :
          max eM.arena_hi (eM.arena_off + connected_room l)
          ≡ max e.arena_hi (e.arena_off + connected_room (suc l))
      marks = omega (arith, half)

      c : ℕ
      c = center_at l start

      r : ℕ
      r = right_at l start

      baseL : List ℕ
      baseL = connected_base l start

      nsL : List Preds
      nsL = connected_nodes l inputs start

      mL : ℕ → Bytes
      mL = filled h e m start nsL

      nsM : List Preds
      nsM = merged_nodes l baseL (drop (2 ^ l) inputs) c

      mM : ℕ → Bytes
      mM = filled h e mL c nsM

      nsR : List Preds
      nsR = connected_nodes l (merged_out l c) r

      len_c : c ≡ start + length nsL
      len_c = omega (arith, length-connected_nodes l inputs start (omega arith))

      len_r : r ≡ c + length nsM
      len_r = omega (
        arith,
        length-merged_nodes l baseL (drop (2 ^ l) inputs) c
            (omega (arith, length-drop (2 ^ l) inputs)),
      )

      tail : drop (width / 2) (map m inputs) ≡ map mL (drop (2 ^ l) inputs)
      tail =
          ap (λ k. drop k (map m inputs)) half
          ∙ sym (map-drop m (2 ^ l) inputs)
          ∙ map-filled e m start nsL (drop (2 ^ l) inputs) (All-drop _ (2 ^ l) inputs below)

  pub lc_standalone_lem :
      (level : ℕ) (m : ℕ → Bytes) (start : ℕ) (e : LEmitter)
      → e.next_id ≡ start
      → level ≤ 32
      → e.arena_off + standalone_room level ≤ e.arena_cap
      → e.arena_off ≤ e.arena_hi
      → lc_standalone h level e
        ≡ some (
          map (filled h e m start (standalone_nodes level start)) (standalone_base level start),
          settled (standalone_node_count level) (standalone_room level) e,
        )
  unfolding lc_standalone standalone_base standalone_nodes standalone_room standalone_node_count
      lc_arena_restore lc_source fill
  lc_standalone_lem zero m start e at small room off_hi =
      ap₂ (λ l k. some (l ∷ [], record e { next_id = e.next_id + 1; arena_hi = k }))
        (ap (λ k. h.label_node true k none none e.seed e.desc e.algo) at
          ∙ sym (update_self m start (h.label_node true start none none e.seed e.desc e.algo)))
        (omega arith)
  lc_standalone_lem (suc l) m start e at small room off_hi =
      bind_step _ (lc_arena_alloc_lem (2 ^ l) e (omega arith)) (
        bind_step _ (lc_arena_alloc_lem (2 ^ l) _ (omega arith)) (
          bind_step _ (lc_arena_alloc_lem (2 ^ l) _ (omega arith)) (
            bind_step _
              (lc_standalone_lem l m start e3 at (omega arith) (omega arith) (omega arith))
              (bind_step _
                (lc_connector_lem h l baseL mL c eL (omega arith) (omega arith)
                  (omega (arith, length-standalone_base l start))
                  (standalone_base-lt l start c (omega arith)) (omega arith))
                (bind_step _
                  (lc_connected_lem l (2 ^ l) (connector_out l c) mM r eM refl (omega arith)
                    (omega arith) (omega (arith, length-range' (c + l * 2 ^ l) (2 ^ l)))
                    (connector_out-lt l c r (omega arith)) (omega arith) (omega arith))
                  (ap₂ {B = LEmitter} (λ ls s. some (ls, s))
                    (bases e m start c r nsL nsM nsR baseL (connected_base l r) len_c len_r
                      (standalone_base-lt l start c (omega arith)))
                    (λ i. record e { next_id = ids i; arena_hi = marks i })))))))
    where
      e3 : LEmitter
      e3 = record e {
        arena_off = e.arena_off + 2 ^ l + 2 ^ l + 2 ^ l;
        arena_hi =
            max (max (max e.arena_hi (e.arena_off + 2 ^ l)) (e.arena_off + 2 ^ l + 2 ^ l))
              (e.arena_off + 2 ^ l + 2 ^ l + 2 ^ l);
      }

      eL : LEmitter
      eL = settled (standalone_node_count l) (standalone_room l) e3

      eM : LEmitter
      eM = settled (butterfly_node_count l) (2 * 2 ^ l) eL

      ids :
          e.next_id + standalone_node_count l + butterfly_node_count l + connected_node_count l
          ≡ e.next_id + standalone_node_count (suc l)
      ids = omega arith

      marks :
          max eM.arena_hi (eM.arena_off + connected_room l)
          ≡ max e.arena_hi (e.arena_off + standalone_room (suc l))
      marks = omega arith

      c : ℕ
      c = standalone_center_at l start

      r : ℕ
      r = standalone_right_at l start

      baseL : List ℕ
      baseL = standalone_base l start

      nsL : List Preds
      nsL = standalone_nodes l start

      mL : ℕ → Bytes
      mL = filled h e m start nsL

      nsM : List Preds
      nsM = connector_nodes l baseL c

      mM : ℕ → Bytes
      mM = filled h e mL c nsM

      nsR : List Preds
      nsR = connected_nodes l (connector_out l c) r

      len_c : c ≡ start + length nsL
      len_c = omega (arith, length-standalone_nodes l start)

      len_r : r ≡ c + length nsM
      len_r =
          omega (
            arith,
            length-connector_nodes l baseL c (omega (arith, length-standalone_base l start)),
          )
