-- ===== src/Graph/SlotMap.antt =====
-- `pose_graph_slot_map` of graph.c: dependency levels, last uses, two counting sorts, and the slots that
-- a stack of free slots recycles. `raw` is what a fresh array holds. The assertion of a debug build on
-- the size of the pool is left out.
pub mod Sort
pub mod Live
pub mod Levels
pub mod Places
pub mod Safe
pub mod Map
use po_se_memory_wiping.Prelude.{
  ℕ, zero, suc, ◌+◌, ◌-◌, ◌^◌, Bool, true, false, ◌||◌, ltb, ◌==◌, if◌then◌else◌, List, [], ◌∷◌,
  update,
}
use po_se_memory_wiping.Label.{NodeHash}
use po_se_memory_wiping.Graph.Counts.{resolve_chunk_blocks}
use po_se_memory_wiping.Graph.Emitter.{Node}
use po_se_memory_wiping.Graph.Chunk.{Outcome, done, failed, fault, out_of_range}
use po_se_memory_wiping.Graph.Edges.{graph_edges}

-- `level`, `last_use` and `maxlevel`
pub record Uses : Type 0 where
  pub level : ℕ → ℕ
  pub last_use : ℕ → ℕ
  pub maxlevel : ℕ

-- The level of a node above those of its predecessors.
unfoldable pub level_of : Node → (ℕ → ℕ) → ℕ
level_of n level =
    if n.num_preds == 0
    then 0
    else (if n.num_preds == 1
        then level n.pred0 + 1
        else (if ltb (level n.pred1) (level n.pred0) then level n.pred0 else level n.pred1) + 1)

-- The first loop over the nodes: `n` nodes from `id` on.
unfoldable pub assign_levels : (ℕ → Node) → ℕ → ℕ → Uses → Uses
assign_levels nodes zero id u = u
assign_levels nodes (suc n) id u =
    let lv = level_of (nodes id) u.level in
    assign_levels nodes n (id + 1) (record {
      level = update u.level id lv;
      last_use = update u.last_use id lv;
      maxlevel = if ltb u.maxlevel lv then lv else u.maxlevel;
    })

-- `if (last_use[p] < lv) last_use[p] = lv;`
abbrev pub raise_use : ℕ → ℕ → (ℕ → ℕ) → ℕ → ℕ
raise_use lv p last_use = if ltb (last_use p) lv then update last_use p lv else last_use

-- The loop over the predecessors of a node, of which there are two at most.
unfoldable pub raise_preds : Node → ℕ → (ℕ → ℕ) → ℕ → ℕ
raise_preds n lv last_use =
    if n.num_preds == 0
    then last_use
    else (if n.num_preds == 1
        then raise_use lv n.pred0 last_use
        else raise_use lv n.pred1 (raise_use lv n.pred0 last_use))

-- The second loop over the nodes.
unfoldable pub raise_uses : (ℕ → Node) → (ℕ → ℕ) → ℕ → ℕ → (ℕ → ℕ) → ℕ → ℕ
raise_uses nodes level zero id last_use = last_use
raise_uses nodes level (suc n) id last_use =
    raise_uses nodes level n (id + 1) (raise_preds (nodes id) (level id) last_use)

-- `start[key[id] + 1]++`
unfoldable pub count_keys : (ℕ → ℕ) → ℕ → ℕ → (ℕ → ℕ) → ℕ → ℕ
count_keys key zero id start = start
count_keys key (suc n) id start =
    count_keys key n (id + 1) (update start (key id + 1) (start (key id + 1) + 1))

-- `start[i + 1] += start[i]`
unfoldable pub prefix_sums : ℕ → ℕ → (ℕ → ℕ) → ℕ → ℕ
prefix_sums zero i start = start
prefix_sums (suc n) i start = prefix_sums n (i + 1) (update start (i + 1) (start (i + 1) + start i))

-- `cur[i] = start[i]`
unfoldable pub copy_to : ℕ → ℕ → (ℕ → ℕ) → (ℕ → ℕ) → ℕ → ℕ
copy_to zero i start cur = cur
copy_to (suc n) i start cur = copy_to n (i + 1) start (update cur i (start i))

-- `order[cur[key[id]]++] = id`
unfoldable pub place : (ℕ → ℕ) → ℕ → ℕ → (ℕ → ℕ) → (ℕ → ℕ) → ℕ → ℕ
place key zero id cur order = order
place key (suc n) id cur order =
    place key n (id + 1) (update cur (key id) (cur (key id) + 1)) (update order (cur (key id)) id)

-- The buckets of a counting sort: those of key `k` stand in `order` from `start k` to `start (k + 1)`.
pub record Buckets : Type 0 where
  pub start : ℕ → ℕ
  pub order : ℕ → ℕ

unfoldable pub counting_sort : (ℕ → ℕ) → ℕ → ℕ → (ℕ → ℕ) → Buckets
counting_sort key count ln raw =
    let start = prefix_sums ln 0 (count_keys key count 0 (λ i. 0)) in
    record { start = start; order = place key count 0 (copy_to ln 0 start raw) raw }

-- `slot_out`, the stack of free slots and `next_new`
pub record Slots : Type 0 where
  pub slot_out : ℕ → ℕ
  pub free_stack : List ℕ
  pub next_new : ℕ

-- `(free_top > 0) ? free_stack[--free_top] : next_new++`
abbrev pub take_slot : ℕ → ℕ → (ℕ → ℕ) → List ℕ → Slots
take_slot id next_new slot_out [] = record {
  slot_out = update slot_out id next_new;
  free_stack = [];
  next_new = next_new + 1;
}
take_slot id next_new slot_out (s ∷ stack) = record {
  slot_out = update slot_out id s;
  free_stack = stack;
  next_new = next_new;
}

-- The loop over the nodes that are born on a level: `n` of them, from place `i` on.
unfoldable pub alloc_slots : (ℕ → ℕ) → ℕ → ℕ → Slots → Slots
alloc_slots order zero i s = s
alloc_slots order (suc n) i s =
    alloc_slots order n (i + 1) (take_slot (order i) s.next_new s.slot_out s.free_stack)

-- The loop over the nodes that are last used on a level.
unfoldable pub free_slots : (ℕ → ℕ) → ℕ → ℕ → Slots → Slots
free_slots order zero i s = s
free_slots order (suc n) i s =
    free_slots order n (i + 1) (record s { free_stack = s.slot_out (order i) ∷ s.free_stack })

-- The loop over the levels: `n` levels from `lv` on.
unfoldable pub level_slots : Buckets → Buckets → ℕ → ℕ → Slots → Slots
level_slots born dying zero lv s = s
level_slots born dying (suc n) lv s =
    let allocated =
      alloc_slots born.order (born.start (lv + 1) - born.start lv) (born.start lv) s in
    level_slots born dying n (lv + 1)
      (free_slots dying.order (dying.start (lv + 1) - dying.start lv) (dying.start lv) allocated)

-- `level`, `last_use` and `maxlevel` of `count` nodes.
unfoldable pub node_uses : (ℕ → Node) → ℕ → (ℕ → ℕ) → Uses
node_uses nodes count raw =
    let u = assign_levels nodes count 0 (record { level = raw; last_use = raw; maxlevel = 0 }) in
    record u { last_use = raise_uses nodes u.level count 0 u.last_use }

-- The slots of `count` nodes.
unfoldable pub assign_slots : (ℕ → Node) → ℕ → (ℕ → ℕ) → (ℕ → ℕ) → Slots
assign_slots nodes count raw slot_out =
    let u = node_uses nodes count raw in
    let ln = u.maxlevel + 1 in
    level_slots (counting_sort u.level count ln raw) (counting_sort u.last_use count ln raw) ln 0
      (record { slot_out = slot_out; free_stack = []; next_new = 0 })

-- `pose_graph_slot_map`, with the slots and the size of the pool. `present` tells whether the results
-- can be stored, and the other flags whether the arrays of `pose_graph_edges`, the levels and the
-- sorts can be allocated.
unfoldable pub graph_slot_map :
    NodeHash → Bool → Bool → Bool → Bool → Bool → ℕ → (ℕ → ℕ) → (ℕ → ℕ) → Outcome ((ℕ → ℕ) × ℕ)
graph_slot_map h present nodes_memory arena_memory level_memory sort_memory chunk_blocks raw
      slot_out =
    let cb = resolve_chunk_blocks chunk_blocks in
    if (if present then false else true) || out_of_range cb
    then failed
    else elim (graph_edges h nodes_memory arena_memory cb) [
      | failed ↦ failed
      | fault ↦ fault
      | done (nodes, count) ↦
          if count == 0 || ltb (2 ^ 32 - 1) count
          then failed
          else (if level_memory
              then (if sort_memory
                  then (let s = assign_slots nodes count raw slot_out in
                      done (s.slot_out, s.next_new))
                  else failed)
              else failed)
    ]
