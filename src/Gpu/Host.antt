-- ===== src/Gpu/Host.antt =====
-- The first loop of `pose_graph_hbm_topo_build`: it copies the records of the nodes, and its levels are those
-- of `pose_graph_slot_map`.
use po_se_memory_wiping.Prelude.{
  ℕ, zero, suc, ◌+◌, ◌<◌, ◌≡◌, ◌≢◌, refl, sym, ap, ap₂, ◌∙◌, ltb, if◌then◌else◌, Option, none, some,
  update, update_self, update_ne, arith,
}
use native.Mathlib.Decide.{ℕ_discrete}
use po_se_memory_wiping.Graph.Emitter.{Node}
use po_se_memory_wiping.Graph.SlotMap.{Uses, level_of, assign_levels}
use po_se_memory_wiping.Gpu.Topology.{HostArrays, put_out_id, host_arrays}

module _ (nodes : ℕ → Node) where
  pub host_arrays-assign_levels :
      (n id : ℕ) (a : HostArrays) (u : Uses)
      → a.level ≡ u.level
      → a.maxlevel ≡ u.maxlevel
      → ((host_arrays nodes n id a).level ≡ (assign_levels nodes n id u).level)
        × ((host_arrays nodes n id a).maxlevel ≡ (assign_levels nodes n id u).maxlevel)
  unfolding host_arrays assign_levels
  host_arrays-assign_levels zero id a u levels tops = (levels, tops)
  host_arrays-assign_levels (suc n) id a u levels tops =
      host_arrays-assign_levels n (id + 1) _ _
        (ap (λ l. update l id (level_of (nodes id) l)) levels)
        (ap₂ (λ l top. if ltb top (level_of (nodes id) l) then level_of (nodes id) l else top)
          levels tops)

  module _ (count : ℕ)
      (unique : (a b r : ℕ)
        → a < count
        → b < count
        → (nodes a).challenge_rank ≡ some r
        → (nodes b).challenge_rank ≡ some r
        → a ≡ b) where
    -- The records of the first `k` nodes are copied.
    pub record IsCopied (k : ℕ) (a : HostArrays) : Type 0 where
      pub np : (i : ℕ) → i < k → a.h_np i ≡ (nodes i).num_preds
      pub p0 : (i : ℕ) → i < k → a.h_p0 i ≡ (nodes i).pred0
      pub p1 : (i : ℕ) → i < k → a.h_p1 i ≡ (nodes i).pred1
      pub rank : (i : ℕ) → i < k → a.h_rank i ≡ (nodes i).challenge_rank
      pub out_id : (i r : ℕ) → i < k → (nodes i).challenge_rank ≡ some r → a.h_out_id r ≡ i

    copied_next :
        {A : Type 0} (f : ℕ → A) (g : ℕ → A) (k : ℕ)
        → ((i : ℕ) → i < k → f i ≡ g i)
        → (i : ℕ) → i < k + 1
        → update f k (g k) i ≡ g i
    copied_next f g k same i lt = elim (ℕ_discrete i k) [
      | yes e ↦ rw e (update_self f k (g k))
      | no ne ↦ update_ne f k i (g k) ne ∙ same i (omega (arith, ne))
    ]

    out_id_next :
        (f : ℕ → ℕ) (k : ℕ)
        → k < count
        → ((i r : ℕ) → i < k → (nodes i).challenge_rank ≡ some r → f r ≡ i)
        → (i r : ℕ) → i < k + 1
        → (nodes i).challenge_rank ≡ some r
        → put_out_id (nodes k).challenge_rank k f r ≡ i
    out_id_next f k lk old i r lt e = by_rank (nodes k).challenge_rank refl
      where
        clash : (nodes k).challenge_rank ≡ none → i ≡ k → ⊥
        clash is same = wrong (sym is ∙ ap (λ j. (nodes j).challenge_rank) (sym same) ∙ e)
          where
            wrong : none ≡ some r → ⊥
            wrong p = cc

        earlier : i ≢ k → i < k
        earlier ne = omega (arith, ne)

        by_rank : (o : Option ℕ) → (nodes k).challenge_rank ≡ o → put_out_id o k f r ≡ i
        by_rank none is = elim (ℕ_discrete i k) [
          | yes same ↦ absurd (clash is same)
          | no ne ↦ old i r (earlier ne) e
        ]
        by_rank (some q) is = elim (ℕ_discrete r q) [
          | yes same ↦
              ap (update f q k) same
              ∙ update_self f q k
              ∙ sym (unique i k r (omega arith) lk e (is ∙ ap some (sym same)))
          | no ne ↦ elim (ℕ_discrete i k) [
            | yes here ↦
                absurd (ne (inverse (sym e ∙ ap (λ j. (nodes j).challenge_rank) here ∙ is)))
            | no other ↦ update_ne f q r k ne ∙ old i r (earlier other) e
          ]
        ]
          where
            inverse : some r ≡ some q → r ≡ q
            inverse p = cc

    pub host_arrays-IsCopied :
        (n id : ℕ) (a : HostArrays)
        → id + n ≡ count
        → IsCopied id a
        → IsCopied count (host_arrays nodes n id a)
    unfolding host_arrays
    host_arrays-IsCopied zero id a at is = let same : id ≡ count = omega arith in rw (sym same) is
    host_arrays-IsCopied (suc n) id a at is =
        host_arrays-IsCopied n (id + 1) _ (omega arith) (record {
          np = copied_next a.h_np (λ i. (nodes i).num_preds) id is.np;
          p0 = copied_next a.h_p0 (λ i. (nodes i).pred0) id is.p0;
          p1 = copied_next a.h_p1 (λ i. (nodes i).pred1) id is.p1;
          rank = copied_next a.h_rank (λ i. (nodes i).challenge_rank) id is.rank;
          out_id = out_id_next a.h_out_id id (omega arith) is.out_id;
        })
