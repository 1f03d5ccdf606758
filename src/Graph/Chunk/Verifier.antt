-- ===== src/Graph/Chunk/Verifier.antt =====
-- `pose_graph_label` and `pose_graph_challenge` together: what the prover writes at a rank is what
-- the verifier computes for it.
use po_se_memory_wiping.Prelude.{
  ℕ, ◌≤◌, ◌<◌, ◌≡◌, refl, sym, ◌∙◌, Bool, true, false, List, [], get_or, map, leb, arith,
  if◌then◌else◌, Bool-cases, inl, inr, ◌⊎◌, ◌↔◌,
}
use po_se_memory_wiping.Label.{Bytes, Algo, NodeHash}
use po_se_memory_wiping.Graph.Chunk.{
  Outcome, done, failed, out_of_range, do_label_inplace, graph_challenge,
}
use po_se_memory_wiping.Graph.Chunk.Output.{
  node_labels, challenge_set, do_label_in, do_label_out, do_label_inplace-eq-do_label,
}

leb_small : (m i : ℕ) → i < m → leb m i ≡ false
leb_small m i lt = ground arith

leb_large : (m i : ℕ) → m ≤ i → leb m i ≡ true
leb_large m i le = ground arith

if_same : {A : Type 0} (b : Bool) (x : A) → (if b then x else x) ≡ x
if_same true x = refl
if_same false x = refl

module _ (h : NodeHash) (seed : Bytes) (m : ℕ) (algo : Algo) where
  -- If the in-place labeler returns the labels `out`, then for every rank below `m`
  -- `pose_graph_challenge`, given memory, returns the label at that rank of `out`, whatever its
  -- own label buffer held.
  pub graph_challenge-do_label_inplace :
      (labels_buf : ℕ → Bytes) (out : List Bytes) (i : ℕ)
      → do_label_inplace h seed m algo ≡ done out
      → i < m
      → graph_challenge h true seed m i labels_buf algo ≡ done (get_or out i [])
  unfolding graph_challenge
  graph_challenge-do_label_inplace l out i e lt =
      rw (leb_small m i lt, sym (do_label_inplace-eq-do_label h seed m algo l) ∙ e) refl

  no_done : {A : Type 0} {out : A} → done out ≡ failed → ⊥
  no_done e = cc

  -- `pose_graph_challenge` returns -1 exactly when the challenge is not below `m`, memory cannot be
  -- allocated, or `m` is 0 or above 2^20.
  pub graph_challenge-failed :
      (memory : Bool) (labels_buf : ℕ → Bytes) (i : ℕ)
      → (graph_challenge h memory seed m i labels_buf algo ≡ failed)
        ↔ ((leb m i ≡ true) ⊎ ((memory ≡ false) ⊎ (out_of_range m ≡ true)))
  unfolding graph_challenge
  graph_challenge-failed memory l i = (fails memory, why memory)
    where
      returns :
          (memory : Bool)
          → leb m i ≡ false
          → memory ≡ true
          → out_of_range m ≡ false
          → graph_challenge h memory seed m i l algo
            ≡ done (get_or (map (node_labels h seed m algo l) (challenge_set m)) i [])
      returns memory small has good = rw (small, has, do_label_in h seed m algo l good) refl

      why :
          (memory : Bool)
          → (leb m i ≡ true) ⊎ ((memory ≡ false) ⊎ (out_of_range m ≡ true))
          → graph_challenge h memory seed m i l algo ≡ failed
      why memory (inl e) = rw e refl
      why memory (inr (inl e)) = rw e (if_same (leb m i) failed)
      why memory (inr (inr e)) =
          rw (do_label_out h seed m algo l e, if_same {A = Outcome Bytes} memory failed)
            (if_same (leb m i) failed)

      fails :
          (memory : Bool)
          → graph_challenge h memory seed m i l algo ≡ failed
          → (leb m i ≡ true) ⊎ ((memory ≡ false) ⊎ (out_of_range m ≡ true))
      fails memory e = elim (Bool-cases (leb m i)) [
        | inl large ↦ inl large
        | inr small ↦ elim (Bool-cases memory) [
          | inr lacks ↦ inr (inl lacks)
          | inl has ↦ elim (Bool-cases (out_of_range m)) [
            | inl bad ↦ inr (inr bad)
            | inr good ↦ absurd (no_done (sym (returns memory small has good) ∙ e))
          ]
        ]
      ]
