-- ===== src/Graph/Inplace.antt =====
-- The label-carrying emitter of graph.c: `lemitter_t` and the `lc_` functions. An array of labels
-- is the list of its labels; the arena is its bump offset, its capacity and its high-water mark,
-- and the assertion of `lc_arena_alloc` is a fault when it fails.
pub mod Order
pub mod Layers
pub mod Connector
pub mod Merged
pub mod Recursive
use po_se_memory_wiping.Prelude.{
  ℕ, zero, suc, ◌+◌, ◌-◌, ◌/◌, ◌^◌, ltb, if◌then◌else◌, true, false, none, some, List, [], ◌∷◌,
  ◌++◌, map, length, get_or, take, drop, range', bit_and, bit_or,
}
use po_se_memory_wiping.Prelude.Exec.{Exec, ◌>>=◌, ◌>>◌, pure}
use po_se_memory_wiping.Label.{Bytes, Algo, NodeHash, label_batch}

-- `lemitter_t`
pub record LEmitter : Type 0 where
  pub next_id : ℕ
  pub seed : Bytes
  pub desc : Bytes
  pub arena_cap : ℕ
  pub arena_off : ℕ
  pub arena_hi : ℕ
  pub algo : Algo

-- `lc_arena_alloc`
pub lc_arena_alloc : ℕ → Exec LEmitter (Unit {0})
lc_arena_alloc n e =
    let off = e.arena_off + n in
    let hi = if ltb e.arena_hi off then off else e.arena_hi in
    if ltb e.arena_cap off then none else some (tt, record e { arena_off = off; arena_hi = hi })

-- `e->arena_off = saved`
pub lc_arena_restore : ℕ → Exec LEmitter (Unit {0})
lc_arena_restore saved e = some (tt, record e { arena_off = saved })

-- `idx & ~bit` and `idx | bit` of 32-bit integers.
pub clear_bit : ℕ → ℕ → ℕ
clear_bit idx bit = bit_and idx (2 ^ 32 - 1 - bit)

pub set_bit : ℕ → ℕ → ℕ
set_bit idx bit = bit_or idx bit

-- The labels that node `i` of a butterfly layer reads.
pub lc_cross_preds : ℕ → List Bytes → ℕ → List (Bytes × Bytes)
lc_cross_preds width prev bit =
    map (λ i. (get_or prev (clear_bit i bit) [], get_or prev (set_bit i bit) [])) (range' 0 width)

pub lc_pair_preds : ℕ → List Bytes → List Bytes → List (Bytes × Bytes)
lc_pair_preds width primary ingress =
    map (λ i. (get_or primary i [], get_or ingress i [])) (range' 0 width)

-- The batched loop over the nodes of a layer.
pub lc_batches :
    {A : Type 0} → (List A → Exec LEmitter (List Bytes)) → ℕ → List A → Exec LEmitter (List Bytes)
lc_batches batch fuel [] = pure []
lc_batches batch zero (p ∷ ps) = λ e. none
lc_batches batch (suc fuel) (p ∷ ps) = do
  now ← batch (take label_batch (p ∷ ps))
  rest ← lc_batches batch fuel (drop label_batch (p ∷ ps))
  pure (now ++ rest)

module _ (h : NodeHash) where
  open h use {label_node, label_node_many}

  pub lc_source : Exec LEmitter Bytes
  lc_source e = some (
    label_node true e.next_id none none e.seed e.desc e.algo,
    record e { next_id = e.next_id + 1 },
  )

  pub lc1 : Bytes → Exec LEmitter Bytes
  lc1 p0 e = some (
    label_node false e.next_id (some p0) none e.seed e.desc e.algo,
    record e { next_id = e.next_id + 1 },
  )

  pub lc2 : Bytes → Bytes → Exec LEmitter Bytes
  lc2 p0 p1 e = some (
    label_node false e.next_id (some p0) (some p1) e.seed e.desc e.algo,
    record e { next_id = e.next_id + 1 },
  )

  pub lc_batch1 : List Bytes → Exec LEmitter (List Bytes)
  lc_batch1 ps e = some (
    label_node_many false (range' e.next_id (length ps)) (some (map (λ p. some p) ps)) none e.seed
        e.desc e.algo,
    record e { next_id = e.next_id + length ps },
  )

  pub lc_batch2 : List (Bytes × Bytes) → Exec LEmitter (List Bytes)
  lc_batch2 ps e = some (
    label_node_many false (range' e.next_id (length ps))
        (some (map (λ (p : Bytes × Bytes). some p.0) ps))
        (some (map (λ (p : Bytes × Bytes). some p.1) ps)) e.seed e.desc e.algo,
    record e { next_id = e.next_id + length ps },
  )

  -- The layers still to do, `bit` falling from `1 << (r - 1)` to 1.
  pub lc_layers : ℕ → ℕ → List Bytes → Exec LEmitter (List Bytes)
  lc_layers width zero prev = pure prev
  lc_layers width (suc r) prev = do
    curr ← lc_batches lc_batch2 width (lc_cross_preds width prev (2 ^ r))
    lc_layers width r curr

  pub lc_connector_layers : ℕ → List Bytes → Exec LEmitter (List Bytes)
  lc_connector_layers dim inputs = do
    prev ← lc_batches lc_batch1 (2 ^ dim) (take (2 ^ dim) inputs)
    lc_layers (2 ^ dim) dim prev

  pub lc_connector : ℕ → List Bytes → Exec LEmitter (List Bytes)
  lc_connector dim inputs e =
      (do
        lc_arena_alloc (2 ^ dim)
        lc_arena_alloc (2 ^ dim)
        outputs ← lc_connector_layers dim inputs
        lc_arena_restore e.arena_off
        pure outputs)
        e

  pub lc_merged_layers : ℕ → List Bytes → List Bytes → Exec LEmitter (List Bytes)
  lc_merged_layers dim primary_inputs ingress_inputs = do
    ing ← lc_connector_layers dim ingress_inputs
    ctr ← lc_batches lc_batch2 (2 ^ dim) (lc_pair_preds (2 ^ dim) primary_inputs ing)
    lc_layers (2 ^ dim) dim ctr

  pub lc_merged_center_ingress : ℕ → List Bytes → List Bytes → Exec LEmitter (List Bytes)
  lc_merged_center_ingress zero primary_inputs ingress_inputs e =
      (do
        ig ← lc1 (get_or ingress_inputs 0 [])
        out ← lc2 (get_or primary_inputs 0 []) ig
        pure (out ∷ []))
        e
  lc_merged_center_ingress (suc d) primary_inputs ingress_inputs e =
      (do
        lc_arena_alloc (2 ^ suc d)
        lc_arena_alloc (2 ^ suc d)
        lc_arena_alloc (2 ^ suc d)
        lc_arena_alloc (2 ^ suc d)
        outputs ← lc_merged_layers (suc d) primary_inputs ingress_inputs
        lc_arena_restore e.arena_off
        pure outputs)
        e

  pub lc_connected : ℕ → ℕ → List Bytes → Exec LEmitter (List Bytes)
  lc_connected zero width inputs e = (do out ← lc1 (get_or inputs 0 []); pure (out ∷ [])) e
  lc_connected (suc level) width inputs e =
      (do
        lc_arena_alloc (width / 2)
        lc_arena_alloc (width / 2)
        lc_arena_alloc (width / 2)
        left_base ← lc_connected level (width / 2) inputs
        center_out ← lc_merged_center_ingress level left_base (drop (width / 2) inputs)
        right_base ← lc_connected level (width / 2) center_out
        lc_arena_restore e.arena_off
        pure (left_base ++ right_base))
        e

  pub lc_standalone : ℕ → Exec LEmitter (List Bytes)
  lc_standalone zero e = (do out ← lc_source; pure (out ∷ [])) e
  lc_standalone (suc level) e =
      (do
        lc_arena_alloc (2 ^ level)
        lc_arena_alloc (2 ^ level)
        lc_arena_alloc (2 ^ level)
        left_base ← lc_standalone level
        center_out ← lc_connector level left_base
        right_base ← lc_connected level (2 ^ level) center_out
        lc_arena_restore e.arena_off
        pure (left_base ++ right_base))
        e
