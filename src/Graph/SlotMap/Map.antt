-- ===== src/Graph/SlotMap/Map.antt =====
-- `pose_graph_slot_map` on the graph that `pose_graph_edges` exports.
use po_se_memory_wiping.Prelude.{
  ℕ, ◌+◌, ◌-◌, ◌^◌, ◌≤◌, ◌<◌, ◌≡◌, ◌≢◌, refl, sym, ap, ◌∙◌, true, false, ◌||◌, ltb, ◌==◌, [], arith,
}
use native.Mathlib.Decide.{dec_le}
use po_se_memory_wiping.Label.{NodeHash}
use po_se_memory_wiping.Graph.Counts.{graph_max_m, resolve_chunk_blocks, scratch_node_count}
use po_se_memory_wiping.Graph.Counts.Scratch.{scratch_node_count-bounds}
use po_se_memory_wiping.Graph.Emitter.{Node}
use po_se_memory_wiping.Graph.Chunk.{Outcome, done, failed, fault}
use po_se_memory_wiping.Graph.Chunk.Output.{in_range}
use po_se_memory_wiping.Graph.Edges.{graph_edges}
use po_se_memory_wiping.Graph.Edges.Run.{graph_edges_in}
use po_se_memory_wiping.Graph.Edges.Export.{graph_edges_topological}
use po_se_memory_wiping.Graph.SlotMap.{Uses, Slots, node_uses, assign_slots, graph_slot_map}
use po_se_memory_wiping.Graph.SlotMap.Levels.{Reads, node_uses_lem, node_uses-Reads}
use po_se_memory_wiping.Graph.SlotMap.Live.{IsSound}
use po_se_memory_wiping.Graph.SlotMap.Places.{InUse}
use po_se_memory_wiping.Graph.SlotMap.Safe.{level_slots_lem}

module _ (h : NodeHash) (chunk_blocks : ℕ) (pos : 1 ≤ resolve_chunk_blocks chunk_blocks)
    (small : resolve_chunk_blocks chunk_blocks ≤ graph_max_m) (nodes : ℕ → Node) (count : ℕ)
    (edges : graph_edges h true true (resolve_chunk_blocks chunk_blocks) ≡ done (nodes, count))
    (raw slot_out : ℕ → ℕ) where
  abbrev pub uses : Uses
  uses = node_uses nodes count raw

  abbrev slots : Slots
  slots = assign_slots nodes count raw slot_out

  count_of : Outcome ((ℕ → Node) × ℕ) → ℕ
  count_of (done r) = r.1
  count_of failed = 0
  count_of fault = 0

  counted : count ≡ scratch_node_count (resolve_chunk_blocks chunk_blocks)
  unfolding count_of
  counted = ap count_of (
      sym edges
      ∙ graph_edges_in h (resolve_chunk_blocks chunk_blocks)
          (in_range (resolve_chunk_blocks chunk_blocks) pos small))

  runs :
      graph_slot_map h true true true true true chunk_blocks raw slot_out
      ≡ done (slots.slot_out, slots.next_new)
  unfolding graph_slot_map
  runs = rw (in_range (resolve_chunk_blocks chunk_blocks) pos small, edges, fits) refl
    where
      fits : (count == 0 || ltb (2 ^ 32 - 1) count) ≡ false
      fits =
          ground (
            arith,
            counted,
            scratch_node_count-bounds (resolve_chunk_blocks chunk_blocks) pos small,
          )

  lifetimes :
      (id : ℕ)
      → id < count
      → (uses.level id ≤ uses.last_use id) × (uses.last_use id ≤ uses.maxlevel)
  lifetimes =
      node_uses_lem nodes count
        (graph_edges_topological h (resolve_chunk_blocks chunk_blocks) nodes count edges) raw

  births : (id : ℕ) → id < count → uses.level id < uses.maxlevel + 1
  births id lt = omega (arith, lifetimes id lt)

  deaths : (id : ℕ) → id < count → uses.last_use id < uses.maxlevel + 1
  deaths id lt = omega (arith, lifetimes id lt)

  lives : (id : ℕ) → id < count → uses.level id ≤ uses.last_use id
  lives id lt = (lifetimes id lt).0

  no_slots : Slots
  no_slots = record { slot_out = slot_out; free_stack = []; next_new = 0 }

  no_slots-IsSound :
      IsSound
        (InUse count (uses.maxlevel + 1) uses.level uses.last_use raw births deaths lives 0 0)
        no_slots
  unfolding no_slots
  no_slots-IsSound = record {
    used = λ id live. absurd (omega (arith, live.2));
    apart = λ a b live. absurd (omega (arith, live.2));
    stack = tt;
    free = λ id live. tt;
    distinct = tt;
  }

  assigned :
      ((a b : ℕ)
        → a < count
        → b < count
        → a ≢ b
        → uses.level a ≤ uses.last_use b
        → uses.level b ≤ uses.last_use a
        → uses.level b ≤ uses.level a
        → slots.slot_out a ≢ slots.slot_out b)
      × ((id : ℕ) → id < count → slots.slot_out id < slots.next_new)
  unfolding assign_slots no_slots
  assigned =
      let all =
        level_slots_lem count (uses.maxlevel + 1) uses.level uses.last_use raw births deaths lives
          (uses.maxlevel + 1) 0 no_slots (omega arith) no_slots-IsSound in
      (
        λ a b la lb ne x y le. all.1 a b la lb ne x y (omega arith) le,
        λ id lt. all.2 id lt (omega arith),
      )

  -- For chunks of 1 to 2^20 blocks, with the nodes that `pose_graph_edges` exports,
  -- `pose_graph_slot_map`, given memory, comes to its end and returns 0.
  pub graph_slot_map_total :
      (slots' : ℕ → ℕ) × (size : ℕ) × (graph_slot_map h true true true true true chunk_blocks raw
          slot_out
        ≡ done (slots', size))
  graph_slot_map_total = (slots.slot_out, slots.next_new, runs)

  module _ (slots' : ℕ → ℕ) (size : ℕ)
      (run : graph_slot_map h true true true true true chunk_blocks raw slot_out
        ≡ done (slots', size)) where
    slots_of : Outcome ((ℕ → ℕ) × ℕ) → ℕ → ℕ
    slots_of (done r) = r.0
    slots_of failed = slot_out
    slots_of fault = slot_out

    same_slots : slots.slot_out ≡ slots'
    unfolding slots_of
    same_slots = ap slots_of (sym runs ∙ run)

    size_of : Outcome ((ℕ → ℕ) × ℕ) → ℕ
    size_of (done r) = r.1
    size_of failed = 0
    size_of fault = 0

    same_size : slots.next_new ≡ size
    unfolding size_of
    same_size = ap size_of (sym runs ∙ run)

    -- For chunks of 1 to 2^20 blocks, with the nodes that `pose_graph_edges` exports, every slot that
    -- `pose_graph_slot_map` assigns to a node is below the size of the pool that it returns.
    pub graph_slot_map-lt : (id : ℕ) → id < count → slots' id < size
    graph_slot_map-lt id lt = omega (arith, assigned.1 id lt, ap (λ f. f id) same_slots, same_size)

    -- Nodes that are in use at the same time have different slots.
    pub slots_apart :
        (a b : ℕ)
        → a < count
        → b < count
        → a ≢ b
        → uses.level a ≤ uses.last_use b
        → uses.level b ≤ uses.last_use a
        → slots' a ≢ slots' b
    slots_apart a b la lb ne x y same = elim (dec_le (uses.level b) (uses.level a)) [
      | yes le ↦
          assigned.0 a b la lb ne x y le
            (ap (λ f. f a) same_slots ∙ same ∙ sym (ap (λ f. f b) same_slots))
      | no gt ↦
          assigned.0 b a lb la (λ e. ne (sym e)) y x (omega arith)
            (ap (λ f. f b) same_slots ∙ sym same ∙ sym (ap (λ f. f a) same_slots))
    ]

    -- For chunks of 1 to 2^20 blocks, with the nodes that `pose_graph_edges` exports and the slots that
    -- `pose_graph_slot_map` returns: if node `id` reads node `p`, then no other node `b` whose level is
    -- between that of `p` and that of `id`, both included, has the slot of `p`. So the label of `p` is
    -- still there when `id` reads it, even if the nodes of a level are labelled at the same time.
    pub graph_slot_map-Reads :
        (id p b : ℕ)
        → id < count
        → p < count
        → b < count
        → Reads (nodes id) p
        → b ≢ p
        → uses.level p ≤ uses.level b
        → uses.level b ≤ uses.level id
        → slots' b ≢ slots' p
    graph_slot_map-Reads id p b li lp lb reads ne after before =
        let read =
          node_uses-Reads nodes count
            (graph_edges_topological h (resolve_chunk_blocks chunk_blocks) nodes count edges) raw id
            p li reads in
        slots_apart b p lb lp ne (omega (arith, read.1)) (omega (arith, lives b lb))
