-- ===== src/Graph/Chunk/Output.antt =====
-- What `do_label` and `do_label_inplace` write: the labels of the challenge set, from the labels
-- of all the nodes of both copies.
use po_se_memory_wiping.Prelude.{
  ℕ, ◌+◌, ◌-◌, ◌*◌, ◌^◌, ◌≤◌, ◌<◌, ◌≡◌, refl, sym, ap, ap₂, ◌∙◌, true, false, some, List, [], ◌++◌,
  map, length, take, drop, arith, map-take, map-drop, map-append, length-append, length-take,
  length-drop, length-map, Bool-cases, inl, inr, Option, none,
}
use native.Mathlib.Numerals.{add-one}
use po_se_memory_wiping.Label.{Bytes, Algo, NodeHash}
use po_se_memory_wiping.Graph.Counts.{graph_max_m, parameter_n}
use po_se_memory_wiping.Graph.Counts.Parameter.{parameter_n-covers, parameter_n_least}
use po_se_memory_wiping.Graph.Emitter.{Emitter}
use po_se_memory_wiping.Graph.Emitter.Spec.{fill}
use po_se_memory_wiping.Graph.Recursive.Nodes.{length-standalone_base}
use po_se_memory_wiping.Graph.Recursive.Room.{standalone_room-le}
use po_se_memory_wiping.Graph.Inplace.{LEmitter}
use po_se_memory_wiping.Graph.Chunk.{
  done, failed, half_width, out_of_range, emit_copies, emitter_init, do_label, lc_copies,
  lemitter_init, do_label_inplace,
}
use po_se_memory_wiping.Graph.Chunk.Run.{
  copy_level, left_total, graph_nodes, left_ids, right_ids, emit_copies_lem, lc_copies_lem,
}

pub range_cases : (m : ℕ) → out_of_range m ≡ false → (1 ≤ m) × (m ≤ graph_max_m)
range_cases m e = ground arith

pub in_range : (m : ℕ) → 1 ≤ m → m ≤ graph_max_m → out_of_range m ≡ false
in_range m pos small = ground arith

pub parameter_n-small : (m : ℕ) → 1 ≤ m → m ≤ graph_max_m → parameter_n m < 32
parameter_n-small m pos small =
    omega (arith, (parameter_n_least m 19 pos (omega arith)).1 (omega arith))

-- The ids of the challenge set, in the order of their ranks.
unfoldable pub challenge_set : ℕ → List ℕ
challenge_set m =
    take (half_width m) (drop (half_width m) (left_ids m))
    ++ take (m - half_width m) (drop (half_width m) (right_ids m))

pub length-challenge_set : (m : ℕ) → 1 ≤ m → m ≤ graph_max_m → length (challenge_set m) ≡ m
unfolding challenge_set
length-challenge_set m pos small = omega (
  arith,
  length-append (take (half_width m) (drop (half_width m) (left_ids m)))
      (take (m - half_width m) (drop (half_width m) (right_ids m))),
  length-take (half_width m) (drop (half_width m) (left_ids m)),
  length-take (m - half_width m) (drop (half_width m) (right_ids m)),
  length-drop (half_width m) (left_ids m),
  length-drop (half_width m) (right_ids m),
  twice,
  length-standalone_base (copy_level m) 0,
  length-standalone_base (copy_level m) (left_total m),
  parameter_n-covers m pos (omega arith),
)
  where
    twice : 2 ^ (parameter_n m + 1) ≡ 2 * 2 ^ parameter_n m
    twice = rw add-one (omega arith)

module _ (h : NodeHash) (seed : Bytes) (m : ℕ) (algo : Algo) where
  -- The label of every node, by id, from the buffer that the code is given.
  unfoldable pub node_labels : (ℕ → Bytes) → ℕ → Bytes
  node_labels l = fill h seed (h.graph_descriptor m (parameter_n m)) algo l 0 (graph_nodes m)

  pub do_label_out : (l : ℕ → Bytes) → out_of_range m ≡ true → do_label h seed m l algo ≡ failed
  unfolding do_label
  do_label_out l e = rw e refl

  pub do_label_in :
      (l : ℕ → Bytes)
      → out_of_range m ≡ false
      → do_label h seed m l algo ≡ done (map (node_labels l) (challenge_set m))
  unfolding do_label emitter_init node_labels challenge_set
  do_label_in l e =
      rw
        (
          e,
          emit_copies_lem h true m (emitter_init h seed m l algo) refl refl refl (refl, λ p. refl),
        )
        refl

  -- The label buffer that the emitter of `do_label` ends with.
  pub labels_after :
      (l : ℕ → Bytes) (bases : List ℕ × List ℕ) (e : Emitter)
      → emit_copies h m (emitter_init h seed m l algo) ≡ some (bases, e)
      → e.labels ≡ some (node_labels l)
  unfolding emitter_init node_labels
  labels_after l bases e run = sym (
      ap
        (λ (o : Option ((List ℕ × List ℕ) × Emitter)). elim o [
          | none ↦ none
          | some (bases', e') ↦ e'.labels
        ])
        (sym (
            emit_copies_lem h true m (emitter_init h seed m l algo) refl refl refl
              (refl, λ p. refl))
          ∙ run))

  do_label_inplace_out : out_of_range m ≡ true → do_label_inplace h seed m algo ≡ failed
  unfolding do_label_inplace
  do_label_inplace_out e = rw e refl

  pub do_label_inplace_in :
      (l : ℕ → Bytes)
      → out_of_range m ≡ false
      → do_label_inplace h seed m algo ≡ done (map (node_labels l) (challenge_set m))
  unfolding do_label_inplace lemitter_init node_labels challenge_set
  do_label_inplace_in l e =
      rw (e, lc_copies_lem h m l (lemitter_init h seed m algo) small refl refl refl refl)
        (ap done parts)
    where
      small : parameter_n m < 32
      small = parameter_n-small m (range_cases m e).0 (range_cases m e).1

      part :
          (k n : ℕ) (ids : List ℕ)
          → take k (drop n (map (node_labels l) ids)) ≡ map (node_labels l) (take k (drop n ids))
      part k n ids =
          ap (take k) (sym (map-drop (node_labels l) n ids))
          ∙ sym (map-take (node_labels l) k (drop n ids))

      parts :
          take (half_width m) (drop (half_width m) (map (node_labels l) (left_ids m)))
            ++ take (m - half_width m) (drop (half_width m) (map (node_labels l) (right_ids m)))
          ≡ map (node_labels l) (challenge_set m)
      parts =
          ap₂ ◌++◌ (part (half_width m) (half_width m) (left_ids m))
            (part (m - half_width m) (half_width m) (right_ids m))
          ∙ sym (map-append (node_labels l) _ _)

module _ (h : NodeHash) (seed : Bytes) (m : ℕ) (algo : Algo) where
  -- The in-place labeler writes what `do_label` writes, or fails when it fails, whatever the label
  -- buffer held.
  pub do_label_inplace-eq-do_label :
      (labels_buf : ℕ → Bytes) → do_label_inplace h seed m algo ≡ do_label h seed m labels_buf algo
  do_label_inplace-eq-do_label l = elim (Bool-cases (out_of_range m)) [
    | inl e ↦ do_label_inplace_out h seed m algo e ∙ sym (do_label_out h seed m algo l e)
    | inr e ↦ do_label_inplace_in h seed m algo l e ∙ sym (do_label_in h seed m algo l e)
  ]

  -- For every `m` from 1 to 2^20, `do_label` comes to its end without a fault and writes exactly
  -- `m` labels.
  pub do_label_total :
      (labels_buf : ℕ → Bytes)
      → 1 ≤ m
      → m ≤ graph_max_m
      → (out : List Bytes) × (do_label h seed m labels_buf algo ≡ done out) × (length out ≡ m)
  do_label_total l pos small = (
    map (node_labels h seed m algo l) (challenge_set m),
    do_label_in h seed m algo l (in_range m pos small),
    length-map (node_labels h seed m algo l) (challenge_set m) ∙ length-challenge_set m pos small,
  )

  -- For every `m` from 1 to 2^20, the high-water mark of the label arena after both halves is at
  -- most 6.5 half widths, so that the assertion of `lc_arena_alloc` never fails.
  pub lc_copies-arena_hi :
      1 ≤ m
      → m ≤ graph_max_m
      → (bases : List Bytes × List Bytes) × (e : LEmitter) × (lc_copies h m
            (lemitter_init h seed m algo)
          ≡ some (bases, e))
        × (2 * e.arena_hi ≤ 13 * half_width m)
  unfolding lemitter_init
  lc_copies-arena_hi pos small = (
    _,
    _,
    lc_copies_lem h m (λ i. []) (lemitter_init h seed m algo) (parameter_n-small m pos small) refl
        refl refl refl,
    rw add-one (omega (arith, standalone_room-le (parameter_n m))),
  )
