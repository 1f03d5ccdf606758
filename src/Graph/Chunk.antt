-- ===== src/Graph/Chunk.antt =====
-- One chunk of graph.c: `do_label`, `do_label_inplace`, `pose_graph_label` and
-- `pose_graph_challenge`. A result of -1 is `failed`; a fault of the emitter is `fault`.
pub mod Run
pub mod Output
pub mod Verifier
pub mod Layout
use po_se_memory_wiping.Prelude.{
  ℕ, ◌+◌, ◌-◌, ◌*◌, ◌^◌, Bool, true, false, ◌||◌, ltb, leb, ◌==◌, if◌then◌else◌, Option, none, some,
  List, [], ◌++◌, map, get_or, take, drop,
}
use po_se_memory_wiping.Prelude.Exec.{Exec, ◌>>=◌, ◌>>◌, pure}
use po_se_memory_wiping.Label.{Bytes, Algo, NodeHash}
use po_se_memory_wiping.Graph.Counts.{graph_max_m, arena_factor, parameter_n, standalone_node_count}
use po_se_memory_wiping.Graph.Emitter.{Emitter}
use po_se_memory_wiping.Graph.Recursive.{emit_standalone}
use po_se_memory_wiping.Graph.Inplace.{LEmitter, lc_standalone}

pub data Outcome (A : Type 0) : Type 0 where
  done : A → Outcome A
  failed fault : Outcome A

-- `half_w = 1 << n`
abbrev pub half_width : ℕ → ℕ
half_width m = 2 ^ parameter_n m

-- `m == 0 || m > POSE_GRAPH_MAX_M`
abbrev pub out_of_range : ℕ → Bool
out_of_range m = m == 0 || ltb graph_max_m m

-- `e.next_id = left_total; e.arena = arena_right; e.arena_cap = arena_elems; e.arena_off = 0;`
abbrev pub second_copy : ℕ → ℕ → Exec Emitter (Unit {0})
second_copy left_total cap e =
    some (tt, record e { next_id = left_total; arena_cap = cap; arena_off = 0 })

module _ (h : NodeHash) where
  unfoldable pub emitter_init : Bytes → ℕ → (ℕ → Bytes) → Algo → Emitter
  emitter_init seed m labels_buf algo = record {
    next_id = 0;
    labels = some labels_buf;
    nodes = none;
    seed = seed;
    desc = h.graph_descriptor m (parameter_n m);
    arena_cap = arena_factor * half_width m;
    arena_off = 0;
    algo = algo;
  }

  -- The two standalone copies, one after the other.
  pub emit_copies : ℕ → Exec Emitter (List ℕ × List ℕ)
  emit_copies m = do
    left_base ← emit_standalone h (parameter_n m + 1)
    second_copy (standalone_node_count (parameter_n m + 1)) (arena_factor * half_width m)
    right_base ← emit_standalone h (parameter_n m + 1)
    pure (left_base, right_base)

  -- The ids of the challenge set: the second half of the left base, then `retained = m - half_w`
  -- of the second half of the right one.
  abbrev pub challenge_ids : ℕ → List ℕ → List ℕ → List ℕ
  challenge_ids m left_base right_base =
      take (half_width m) (drop (half_width m) left_base)
      ++ take (m - half_width m) (drop (half_width m) right_base)

  -- `do_label`, with what the label buffer holds at first. The result is what `out` receives.
  pub do_label : Bytes → ℕ → (ℕ → Bytes) → Algo → Outcome (List Bytes)
  do_label seed m labels_buf algo =
      if out_of_range m
      then failed
      else elim (emit_copies m (emitter_init seed m labels_buf algo)) [
        | none ↦ fault
        | some (bases, e) ↦ elim e.labels [
          | none ↦ fault
          | some l ↦ done (map l (challenge_ids m bases.0 bases.1))
        ]
      ]

  pub lemitter_init : Bytes → ℕ → Algo → LEmitter
  lemitter_init seed m algo = record {
    next_id = 0;
    seed = seed;
    desc = h.graph_descriptor m (parameter_n m);
    arena_cap = arena_factor * half_width m;
    arena_off = 0;
    arena_hi = 0;
    algo = algo;
  }

  -- `e.next_id = left_total; e.arena_off = 0;`
  abbrev pub second_half : ℕ → Exec LEmitter (Unit {0})
  second_half left_total e = some (tt, record e { next_id = left_total; arena_off = 0 })

  pub lc_copies : ℕ → Exec LEmitter (List Bytes × List Bytes)
  lc_copies m = do
    left_base ← lc_standalone h (parameter_n m + 1)
    second_half (standalone_node_count (parameter_n m + 1))
    right_base ← lc_standalone h (parameter_n m + 1)
    pure (left_base, right_base)

  -- `do_label_inplace`; the result is what `buf` receives.
  pub do_label_inplace : Bytes → ℕ → Algo → Outcome (List Bytes)
  do_label_inplace seed m algo =
      if out_of_range m then failed else elim (lc_copies m (lemitter_init seed m algo)) [
        | none ↦ fault
        | some (bases, e) ↦ done (
            take (half_width m) (drop (half_width m) bases.0)
            ++ take (m - half_width m) (drop (half_width m) bases.1))
      ]

  -- `pose_graph_label`. `memory` tells whether the scratch buffer could be allocated, and
  -- `labels_buf` is what it holds.
  pub graph_label : Bool → Bytes → ℕ → (ℕ → Bytes) → Algo → Outcome (List Bytes)
  graph_label memory seed m labels_buf algo =
      if memory then do_label seed m labels_buf algo else failed

  -- `pose_graph_challenge`
  pub graph_challenge : Bool → Bytes → ℕ → ℕ → (ℕ → Bytes) → Algo → Outcome Bytes
  graph_challenge memory seed m challenge_idx labels_buf algo =
      if leb m challenge_idx
      then failed
      else (if memory
          then elim (do_label seed m labels_buf algo) [
            | done all ↦ done (get_or all challenge_idx [])
            | failed ↦ failed
            | fault ↦ fault
          ]
          else failed)
