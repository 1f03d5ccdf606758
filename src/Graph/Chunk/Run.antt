-- ===== src/Graph/Chunk/Run.antt =====
-- The two copies emit their nodes, in either emitter, within the arena that the code gives them.
use po_se_memory_wiping.Prelude.{
  ℕ, ◌+◌, ◌*◌, ◌≤◌, ◌<◌, ◌≡◌, refl, sym, ap, ap₂, ◌∙◌, Bool, some, List, ◌++◌, map, length, arith,
  max,
}
use native.Mathlib.Numerals.{add-one}
use po_se_memory_wiping.Prelude.Exec.{bind_step}
use po_se_memory_wiping.Label.{Bytes, NodeHash}
use po_se_memory_wiping.Graph.Counts.{arena_factor, parameter_n, standalone_node_count}
use po_se_memory_wiping.Graph.Emitter.{Emitter}
use po_se_memory_wiping.Graph.Emitter.Spec.{Preds, emit_all, emit_all-append}
use po_se_memory_wiping.Graph.Emitter.Fill.{fill-append}
use po_se_memory_wiping.Graph.Connector.Emitted.{InMode, InMode-emit_all}
use po_se_memory_wiping.Graph.Recursive.Nodes.{
  standalone_base, standalone_nodes, length-standalone_nodes, standalone_base-lt,
}
use po_se_memory_wiping.Graph.Recursive.Room.{standalone_room, standalone_room-le}
use po_se_memory_wiping.Graph.Recursive.Emitted.{emit_standalone_lem}
use po_se_memory_wiping.Graph.Inplace.{LEmitter}
use po_se_memory_wiping.Graph.Inplace.Connector.{filled, settled}
use po_se_memory_wiping.Graph.Inplace.Recursive.{lc_standalone_lem, map-filled}
use po_se_memory_wiping.Graph.Chunk.{half_width, emit_copies, lc_copies}

abbrev pub copy_level : ℕ → ℕ
copy_level m = parameter_n m + 1

abbrev pub left_total : ℕ → ℕ
left_total m = standalone_node_count (copy_level m)

-- The nodes of both copies, in the order of their ids.
abbrev pub graph_nodes : ℕ → List Preds
graph_nodes m = standalone_nodes (copy_level m) 0 ++ standalone_nodes (copy_level m) (left_total m)

abbrev pub left_ids : ℕ → List ℕ
left_ids m = standalone_base (copy_level m) 0

abbrev pub right_ids : ℕ → List ℕ
right_ids m = standalone_base (copy_level m) (left_total m)

-- The arena of POSE_ARENA_FACTOR * half_w slots is large enough.
pub arena_enough : (m : ℕ) → standalone_room (copy_level m) ≤ arena_factor * half_width m
arena_enough m = rw add-one (omega (arith, standalone_room-le (parameter_n m)))

module _ (h : NodeHash) where
  pub emit_copies_lem :
      (b : Bool) (m : ℕ) (e : Emitter)
      → e.next_id ≡ 0
      → e.arena_off ≡ 0
      → e.arena_cap ≡ arena_factor * half_width m
      → InMode b e
      → emit_copies h m e ≡ some ((left_ids m, right_ids m), emit_all h (graph_nodes m) e)
  unfolding emit_copies
  emit_copies_lem b m e at off cap mode =
      bind_step _
        (emit_standalone_lem h b (copy_level m) 0 e at mode (omega (arith, arena_enough m)))
        (bind_step _
          (emit_standalone_lem h b (copy_level m) (left_total m) e2 refl
            (InMode-emit_all h b ns e mode) (omega (arith, arena_enough m)))
          (ap (λ s. some ((left_ids m, right_ids m), s))
            (ap (emit_all h (standalone_nodes (copy_level m) (left_total m))) same
              ∙ emit_all-append h ns (standalone_nodes (copy_level m) (left_total m)) e)))
    where
      ns : List Preds
      ns = standalone_nodes (copy_level m) 0

      e2 : Emitter
      e2 = record (emit_all h ns e) {
        next_id = left_total m;
        arena_cap = arena_factor * half_width m;
        arena_off = 0;
      }

      ids : left_total m ≡ e.next_id + length ns
      ids = omega (arith, length-standalone_nodes (copy_level m) 0)

      same : e2 ≡ emit_all h ns e
      same = λ i. record (emit_all h ns e) {
        next_id = ids i;
        arena_cap = sym cap i;
        arena_off = sym off i;
      }

  -- The label-carrying emitter after both copies: its high-water mark is the room of one copy.
  abbrev pub lc_end : ℕ → LEmitter → LEmitter
  lc_end m e = record e {
    next_id = left_total m + left_total m;
    arena_hi = standalone_room (copy_level m);
  }

  pub lc_copies_lem :
      (m : ℕ) (l : ℕ → Bytes) (e : LEmitter)
      → parameter_n m < 32
      → e.next_id ≡ 0
      → e.arena_off ≡ 0
      → e.arena_hi ≡ 0
      → e.arena_cap ≡ arena_factor * half_width m
      → lc_copies h m e
        ≡ some (
          (
            map (filled h e l 0 (graph_nodes m)) (left_ids m),
            map (filled h e l 0 (graph_nodes m)) (right_ids m),
          ),
          lc_end m e,
        )
  unfolding lc_copies
  lc_copies_lem m l e small at off hi cap =
      bind_step _
        (lc_standalone_lem h (copy_level m) l 0 e at (omega arith) (omega (arith, arena_enough m))
          (omega arith))
        (bind_step _
          (lc_standalone_lem h (copy_level m) (filled h e l 0 ns) (left_total m) e2 refl
            (omega arith) (omega (arith, arena_enough m)) (omega arith))
          (ap₂ {B = LEmitter} (λ ls s. some (ls, s)) (ap₂ (λ a b. (a, b)) left right)
            (λ i. record e {
              arena_off = sym off i;
              next_id = left_total m + left_total m;
              arena_hi = mark i;
            })))
    where
      ns : List Preds
      ns = standalone_nodes (copy_level m) 0

      ms : List Preds
      ms = standalone_nodes (copy_level m) (left_total m)

      e2 : LEmitter
      e2 = record (settled (left_total m) (standalone_room (copy_level m)) e) {
        next_id = left_total m;
        arena_off = 0;
      }

      both : filled h e (filled h e l 0 ns) (left_total m) ms ≡ filled h e l 0 (ns ++ ms)
      both =
          ap (λ k. filled h e (filled h e l 0 ns) k ms)
            (omega (arith, length-standalone_nodes (copy_level m) 0))
          ∙ sym (fill-append h e.seed e.desc e.algo l 0 ns ms)

      left :
          map (filled h e l 0 ns) (left_ids m) ≡ map (filled h e l 0 (graph_nodes m)) (left_ids m)
      left =
          map-filled h e (filled h e l 0 ns) (left_total m) ms (left_ids m)
            (standalone_base-lt (copy_level m) 0 (left_total m) (omega arith))
          ∙ ap (λ f. map f (left_ids m)) both

      right :
          map (filled h e (filled h e l 0 ns) (left_total m) ms) (right_ids m)
          ≡ map (filled h e l 0 (graph_nodes m)) (right_ids m)
      right = ap (λ f. map f (right_ids m)) both

      mark :
          max e2.arena_hi (e2.arena_off + standalone_room (copy_level m))
          ≡ standalone_room (copy_level m)
      mark = omega arith
