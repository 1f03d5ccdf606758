-- ===== src/Graph/Edges/Export.antt =====
-- The exported graph is complete, in topological order, and the one whose labels `do_label` writes.
use mathlib.Core.Path.{subst}
use po_se_memory_wiping.Prelude.{
  ℕ, ◌+◌, ◌≤◌, ◌<◌, ◌≡◌, refl, sym, ap, ◌∙◌, true, false, Option, none, some, List, [], length,
  get_or, All-get_or_lt, arith, Bool-cases, inl, inr, ◌⊎◌, get_or-map,
}
use po_se_memory_wiping.Label.{Bytes, Algo, NodeHash}
use po_se_memory_wiping.Graph.Counts.{graph_max_m, parameter_n, scratch_node_count}
use po_se_memory_wiping.Graph.Emitter.{Node, Emitter}
use po_se_memory_wiping.Graph.Emitter.Spec.{
  Preds, source, one, two, Below, record_all, record_of, label_of,
}
use po_se_memory_wiping.Graph.Chunk.{
  Outcome, done, failed, out_of_range, emit_copies, emitter_init, do_label,
}
use po_se_memory_wiping.Graph.Chunk.Run.{graph_nodes}
use po_se_memory_wiping.Graph.Chunk.Output.{
  range_cases, challenge_set, length-challenge_set, node_labels, do_label_in, labels_after,
}
use po_se_memory_wiping.Graph.Edges.{blank_node, graph_edges}
use po_se_memory_wiping.Graph.Edges.Order.{InOrder-get}
use po_se_memory_wiping.Graph.Edges.Follow.{
  record_all-at, fill-at, label_from, label_from-record_of,
}
use po_se_memory_wiping.Graph.Edges.Rank.{mark_ranks-at, mark_ranks-keeps, mark_ranks-some}
use po_se_memory_wiping.Graph.Edges.Run.{
  length-graph_nodes, graph_nodes-InOrder, challenge_set-Rising, challenge_set-lt, edge_nodes,
  graph_edges_in,
}

-- What a node of the exported graph reads has a smaller id.
abbrev pub ReadsBelow : ℕ → Node → Type 0
ReadsBelow id n =
    (n.num_preds ≡ 0)
    ⊎ ((n.num_preds ≡ 1) × (n.pred0 < id))
    ⊎ ((n.num_preds ≡ 2) × (n.pred0 < id) × (n.pred1 < id))

ReadsBelow-record_of : (id : ℕ) (p : Preds) → Below id p → ReadsBelow id (record_of blank_node p)
ReadsBelow-record_of id source b = inl refl
ReadsBelow-record_of id (one p) b = inr (inl (refl, b))
ReadsBelow-record_of id (two p q) b = inr (inr (refl, b.0, b.1))

module _ (h : NodeHash) (m : ℕ) (nodes : ℕ → Node) (count : ℕ)
    (run : graph_edges h true true m ≡ done (nodes, count)) where
  run_in_range : out_of_range m ≡ false
  unfolding graph_edges
  run_in_range = elim (Bool-cases (out_of_range m)) [
    | inr good ↦ good
    | inl bad ↦ absurd (clash (sym (rejects bad) ∙ run))
  ]
    where
      rejects : out_of_range m ≡ true → graph_edges h true true m ≡ failed
      rejects bad = rw bad refl

      clash : ◌≡◌ {A = Outcome ((ℕ → Node) × ℕ)} failed (done (nodes, count)) → ⊥
      clash e = cc

  results : (edge_nodes m ≡ nodes) × (scratch_node_count m ≡ count)
  results = inverse (sym (graph_edges_in h m run_in_range) ∙ run)
    where
      inverse :
          ◌≡◌ {A = Outcome ((ℕ → Node) × ℕ)}
            (done (edge_nodes m, scratch_node_count m))
            (done (nodes, count))
          → (edge_nodes m ≡ nodes) × (scratch_node_count m ≡ count)
      inverse e = (cc, cc)

  -- A field other than the rank, from the nodes that the emitter recorded.
  field_at :
      {A : Type 0} (f : Node → A)
      → ((n : Node) (r : Option ℕ) → f (record n { challenge_rank = r }) ≡ f n)
      → (id : ℕ) → id < count
      → f (nodes id) ≡ f (record_of blank_node (get_or (graph_nodes m) id source))
  unfolding edge_nodes
  field_at f same id lt =
      ap (λ t. f (t id)) (sym results.0)
      ∙ mark_ranks-keeps f same (record_all (λ i. blank_node) 0 (graph_nodes m)) 0 (challenge_set m)
          id
      ∙ ap (λ k. f (record_all (λ i. blank_node) 0 (graph_nodes m) k)) at
      ∙ ap f (
          record_all-at (λ i. blank_node) 0 (graph_nodes m) id
            (omega (arith, length-graph_nodes m, results.1)) (λ j le. refl))
    where
      at : id ≡ 0 + id
      at = omega arith

  -- Whenever `pose_graph_edges`, given memory, returns nodes and their count, each of these
  -- nodes has at most two predecessors, all with smaller ids.
  pub graph_edges_topological : (id : ℕ) → id < count → ReadsBelow id (nodes id)
  graph_edges_topological id lt =
      rw
        (
          field_at (λ n. n.num_preds) (λ n r. refl) id lt,
          field_at (λ n. n.pred0) (λ n r. refl) id lt,
          field_at (λ n. n.pred1) (λ n r. refl) id lt,
        )
        (ReadsBelow-record_of id (get_or (graph_nodes m) id source) (at _ below))
    where
      below : Below (0 + id) (get_or (graph_nodes m) id source)
      below =
          InOrder-get 0 (graph_nodes m) id (omega (arith, length-graph_nodes m, results.1))
            (graph_nodes-InOrder m)

      at : (p : Preds) → Below (0 + id) p → Below id p
      at p b = let same : id ≡ 0 + id = omega arith in rw same b

  -- The challenge ranks of two nodes are different, and below `m`.
  pub challenge_rank_lem :
      (id r : ℕ)
      → id < count
      → (nodes id).challenge_rank ≡ some r
      → (r < m) × (get_or (challenge_set m) r 0 ≡ id)
  unfolding edge_nodes
  challenge_rank_lem id r lt e =
      let found =
        mark_ranks-some table 0 0 (challenge_set m) id r (challenge_set-Rising m) unmarked
          (ap (λ t. (t id).challenge_rank) results.0 ∙ e) in
      let range = range_cases m run_in_range in
      (
        omega (arith, found.1, found.3, length-challenge_set m range.0 range.1),
        ap (λ k. get_or (challenge_set m) k 0) (found.3 ∙ omega arith) ∙ found.2,
      )
    where
      table : ℕ → Node
      table = record_all (λ i. blank_node) 0 (graph_nodes m)

      no_rank : (p : Preds) → (record_of blank_node p).challenge_rank ≡ none
      no_rank source = refl
      no_rank (one p) = refl
      no_rank (two p q) = refl

      at : id ≡ 0 + id
      at = omega arith

      unmarked : (table id).challenge_rank ≡ none
      unmarked =
          ap (λ k. (table k).challenge_rank) at
          ∙ ap (λ n. n.challenge_rank)
              (record_all-at (λ i. blank_node) 0 (graph_nodes m) id
                (omega (arith, length-graph_nodes m, results.1)) (λ j le. refl))
          ∙ no_rank (get_or (graph_nodes m) id source)

  -- The nodes of the challenge set have their ranks.
  pub challenge_set-challenge_rank :
      (r : ℕ)
      → r < m
      → (get_or (challenge_set m) r 0 < count)
        × ((nodes (get_or (challenge_set m) r 0)).challenge_rank ≡ some r)
  unfolding edge_nodes
  challenge_set-challenge_rank r lt = (
    rw (sym results.1) (All-get_or_lt _ (challenge_set m) r 0 small (challenge_set-lt m)),
    ap (λ t. (t (get_or (challenge_set m) r 0)).challenge_rank) (sym results.0)
        ∙ mark_ranks-at (record_all (λ i. blank_node) 0 (graph_nodes m)) 0 0 (challenge_set m) r
            (challenge_set-Rising m) small
        ∙ ap some from_zero,
  )
    where
      range : (1 ≤ m) × (m ≤ graph_max_m)
      range = range_cases m run_in_range

      from_zero : 0 + r ≡ r
      from_zero = omega arith

      small : r < length (challenge_set m)
      small = omega (arith, length-challenge_set m range.0 range.1)

  -- The labels of the nodes follow from their records.
  pub node_labels_lem :
      (seed : Bytes) (algo : Algo) (labels_buf : ℕ → Bytes) (id : ℕ)
      → id < count
      → node_labels h seed m algo labels_buf id
        ≡ label_from h seed
            (h.graph_descriptor m (parameter_n m))
            algo
            (node_labels h seed m algo labels_buf)
            id
            (nodes id)
  unfolding node_labels
  node_labels_lem seed algo labels_buf id lt =
      let at : id ≡ 0 + id = omega arith in
      ap after at
      ∙ fill-at h seed desc algo labels_buf 0 (graph_nodes m) id
          (omega (arith, length-graph_nodes m, results.1)) (graph_nodes-InOrder m)
      ∙ ap (λ j. label_of h seed desc algo after j (get_or (graph_nodes m) id source)) (sym at)
      ∙ sym (label_from-record_of h seed desc algo after id (get_or (graph_nodes m) id source))
      ∙ sym (field_at (label_from h seed desc algo after id) (λ n r. refl) id lt)
    where
      desc : Bytes
      desc = h.graph_descriptor m (parameter_n m)

      after : ℕ → Bytes
      after = node_labels h seed m algo labels_buf

  module _ (seed : Bytes) (algo : Algo) (labels_buf : ℕ → Bytes) (bases : List ℕ × List ℕ)
      (e : Emitter) (l : ℕ → Bytes)
      (labels_run : emit_copies h m (emitter_init h seed m labels_buf algo) ≡ some (bases, e))
      (is_l : e.labels ≡ some l) where
    buffer : node_labels h seed m algo labels_buf ≡ l
    buffer = same (sym (labels_after h seed m algo labels_buf bases e labels_run) ∙ is_l)
      where
        same : {k : ℕ → Bytes} → some k ≡ some l → k ≡ l
        same p = cc

    -- If `pose_graph_edges`, given memory, returns nodes and their count, and the emitter of
    -- `do_label` ends with the label buffer `l`, then for each of these nodes `l` holds the label
    -- that follows from its record: from its id and the labels that `l` holds for its
    -- predecessors.
    pub labels_follow_edges :
        (id : ℕ)
        → id < count
        → l id ≡ label_from h seed (h.graph_descriptor m (parameter_n m)) algo l id (nodes id)
    labels_follow_edges id lt =
        subst
          (λ (k : ℕ → Bytes).
            k id ≡ label_from h seed (h.graph_descriptor m (parameter_n m)) algo k id (nodes id))
          buffer (node_labels_lem seed algo labels_buf id lt)

    -- If `pose_graph_edges`, given memory, returns nodes and their count, the emitter of
    -- `do_label` ends with the label buffer `l`, and `do_label` writes `out`, then for every rank
    -- `r` below `m` the label at `r` in `out` is the one that `l` holds for some exported node
    -- whose challenge rank is `r`.
    pub output-challenge_rank :
        (out : List Bytes) (r : ℕ)
        → do_label h seed m labels_buf algo ≡ done out
        → r < m
        → (id : ℕ) × (id < count) × ((nodes id).challenge_rank ≡ some r) × (get_or out r [] ≡ l id)
    output-challenge_rank out r written lt = (
      get_or (challenge_set m) r 0,
      (challenge_set-challenge_rank r lt).0,
      (challenge_set-challenge_rank r lt).1,
      ap (λ o. get_or o r [])
            (same (sym written ∙ do_label_in h seed m algo labels_buf run_in_range))
          ∙ get_or-map (node_labels h seed m algo labels_buf) (challenge_set m) r 0 [] small
          ∙ ap (λ k. k (get_or (challenge_set m) r 0)) buffer,
    )
      where
        range : (1 ≤ m) × (m ≤ graph_max_m)
        range = range_cases m run_in_range

        small : r < length (challenge_set m)
        small = omega (arith, length-challenge_set m range.0 range.1)

        same : {a b : List Bytes} → done a ≡ done b → a ≡ b
        same p = cc
