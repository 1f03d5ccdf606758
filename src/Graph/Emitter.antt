-- ===== src/Graph/Emitter.antt =====
-- The emitter of graph.c: `emitter_t`, `arena_alloc`, `emit_source`, `emit1`, `emit2` and the
-- loops over one layer, batched in labelling mode and node by node in edge mode.
--
-- `labels` is the label buffer by node id (`none` is NULL), `nodes` the edge recorder. An array
-- that the code keeps in the arena is a list here; the arena itself is its bump offset, and an
-- allocation that overruns it is a fault.
pub mod Spec
pub mod Fill
pub mod Loops
use mathlib.Core.Option
use po_se_memory_wiping.Prelude.{
  ℕ, zero, suc, ◌+◌, Bool, true, false, ltb, if◌then◌else◌, Option, none, some, List, [], ◌∷◌, ◌++◌,
  map, length, get_or, take, drop, range', update, store_all, bit_xor, ◌^◌,
}
use po_se_memory_wiping.Prelude.Exec.{Exec, ◌>>=◌, ◌>>◌, pure}
use po_se_memory_wiping.Label.{Bytes, Algo, NodeHash, label_batch}

-- `pose_node_t`. The rank `none` is -1.
pub record Node : Type 0 where
  pub num_preds : ℕ
  pub pred0 : ℕ
  pub pred1 : ℕ
  pub challenge_rank : Option ℕ

-- `emitter_t`
pub record Emitter : Type 0 where
  pub next_id : ℕ
  pub labels : Option (ℕ → Bytes)
  pub nodes : Option (ℕ → Node)
  pub seed : Bytes
  pub desc : Bytes
  pub arena_cap : ℕ
  pub arena_off : ℕ
  pub algo : Algo

-- `arena_alloc`. The array is written before it is read, so only its room matters.
unfoldable pub arena_alloc : ℕ → Exec Emitter (Unit {0})
arena_alloc n e =
    let off = e.arena_off + n in
    if ltb e.arena_cap off then none else some (tt, record e { arena_off = off })

-- `e->arena_off = saved`
unfoldable pub arena_restore : ℕ → Exec Emitter (Unit {0})
arena_restore saved e = some (tt, record e { arena_off = saved })

-- The branchless sort of `emit2`: the lower id first.
abbrev pub sort_preds : ℕ → ℕ → ℕ × ℕ
sort_preds p0 p1 = if ltb p1 p0 then (p1, p0) else (p0, p1)

module _ (h : NodeHash) where
  open h use {label_node, label_node_many}

  pub emit_source : Exec Emitter ℕ
  emit_source e =
      let id = e.next_id in
      some (
        id,
        record e {
          next_id = id + 1;
          labels =
              Option.map (λ l. update l id (label_node true id none none e.seed e.desc e.algo))
                e.labels;
          nodes =
              Option.map (λ t. update t id (record (t id) { num_preds = 0; challenge_rank = none }))
                e.nodes;
        },
      )

  pub emit1 : ℕ → Exec Emitter ℕ
  emit1 pred0 e =
      let id = e.next_id in
      some (
        id,
        record e {
          next_id = id + 1;
          labels =
              Option.map
                (λ l. update l id (label_node false id (some (l pred0)) none e.seed e.desc e.algo))
                e.labels;
          nodes =
              Option.map
                (λ t.
                  update t id
                    (record (t id) { num_preds = 1; pred0 = pred0; challenge_rank = none }))
                e.nodes;
        },
      )

  pub emit2 : ℕ → ℕ → Exec Emitter ℕ
  emit2 a b e =
      let id = e.next_id in
      let p = sort_preds a b in
      some (
        id,
        record e {
          next_id = id + 1;
          labels =
              Option.map
                (λ l.
                  update l id
                    (label_node false id (some (l p.0)) (some (l p.1)) e.seed e.desc e.algo))
                e.labels;
          nodes =
              Option.map
                (λ t.
                  update t id
                    (record { num_preds = 2; pred0 = p.0; pred1 = p.1; challenge_rank = none }))
                e.nodes;
        },
      )

  -- `for (i = 0; i < width; i++) prev[i] = emit1(e, inputs[i]);`
  pub emit1_loop : List ℕ → Exec Emitter (List ℕ)
  emit1_loop [] = pure []
  emit1_loop (p ∷ ps) = do id ← emit1 p; ids ← emit1_loop ps; pure (id ∷ ids)

  -- `for (i = 0; i < width; i++) curr[i] = emit2(e, a[i], b[i]);`
  pub emit2_loop : List (ℕ × ℕ) → Exec Emitter (List ℕ)
  emit2_loop [] = pure []
  emit2_loop ((p, q) ∷ ps) = do id ← emit2 p q; ids ← emit2_loop ps; pure (id ∷ ids)

  -- One batch of nodes with one predecessor. The labels of the batch are computed into a buffer
  -- of `label_node_many` before any of them is stored.
  pub label_batch1 : (ℕ → Bytes) → List ℕ → Exec Emitter (List ℕ)
  label_batch1 l ps e =
      let ids = range' e.next_id (length ps) in
      let outs =
        label_node_many false ids (some (map (λ p. some (l p)) ps)) none e.seed e.desc e.algo in
      some (
        ids,
        record e { next_id = e.next_id + length ps; labels = some (store_all l e.next_id outs) },
      )

  -- One batch of nodes with two predecessors, sorted by id.
  pub label_batch2 : (ℕ → Bytes) → List (ℕ × ℕ) → Exec Emitter (List ℕ)
  label_batch2 l ps e =
      let ids = range' e.next_id (length ps) in
      let outs =
        label_node_many false ids (some (map (λ (p : ℕ × ℕ). some (l (sort_preds p.0 p.1).0)) ps))
          (some (map (λ (p : ℕ × ℕ). some (l (sort_preds p.0 p.1).1)) ps)) e.seed e.desc e.algo in
      some (
        ids,
        record e { next_id = e.next_id + length ps; labels = some (store_all l e.next_id outs) },
      )

-- In labelling mode `e->labels` is not NULL.
pub labels_of : Exec Emitter (ℕ → Bytes)
labels_of e = Option.map (λ l. (l, e)) e.labels

-- `for (i = 0; i < width; ) { batch = min(width - i, 16); ...; i += batch; }` in labelling mode,
-- over the nodes still to do. Each round takes at least one.
pub batches :
    {A : Type 0}
    → ((ℕ → Bytes) → List A → Exec Emitter (List ℕ))
    → ℕ
    → List A
    → Exec Emitter (List ℕ)
batches batch fuel [] = pure []
batches batch zero (p ∷ ps) = λ e. none
batches batch (suc fuel) (p ∷ ps) = do
  l ← labels_of
  ids ← batch l (take label_batch (p ∷ ps))
  rest ← batches batch fuel (drop label_batch (p ∷ ps))
  pure (ids ++ rest)
