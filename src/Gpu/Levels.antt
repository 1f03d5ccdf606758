-- ===== src/Gpu/Levels.antt =====
-- The nodes in order of their levels, as `pose_graph_hbm_topo_build` lays them out: the nodes of level `lv`
-- stand in `order` from `level_start[lv]` on, every node once.
use po_se_memory_wiping.Prelude.{
  ℕ, zero, suc, ◌+◌, ◌≤◌, ◌<◌, ◌≡◌, ◌≢◌, refl, ap, ◌∙◌, inl, inr, ltb, lt→ltb, ◌==◌, if◌then◌else◌,
  Bool-cases, update, update_self, update_ne, arith,
}
use po_se_memory_wiping.Graph.SlotMap.{place}
use po_se_memory_wiping.Graph.SlotMap.Sort.{
  with_key, with_less, with_less-suc, with_key-lt, of_rank, place_of, place_lem,
}
use po_se_memory_wiping.Gpu.Topology.{LevelStarts, count_levels, sum_levels}

module _ (level : ℕ → ℕ) where
  with_key_next :
      (k n : ℕ) → with_key level k (n + 1) ≡ with_key level k n + (if level n == k then 1 else 0)
  with_key_next k n = let same : n + 1 ≡ suc n = omega arith in ap (with_key level k) same

  with_less_next :
      (k n : ℕ)
      → with_less level k (suc n) ≡ with_less level k n + (if ltb (level n) k then 1 else 0)
  with_less_next zero n = ground arith
  with_less_next (suc k) n =
      let parts : (if ltb (level n) k then 1 else 0) + (if level n == k then 1 else 0)
          ≡ (if ltb (level n) (suc k) then 1 else 0) =
        ground arith in
      omega (arith, with_less_next k n, parts)

  with_less_all : (k n : ℕ) → ((i : ℕ) → i < n → level i < k) → with_less level k n ≡ n
  with_less_all k zero all = none_yet k
    where
      none_yet : (k : ℕ) → with_less level k zero ≡ zero
      none_yet zero = refl
      none_yet (suc k) = omega (arith, none_yet k)
  with_less_all k (suc n) all =
      let counted : ◌≡◌ {A = ℕ} (if ltb (level n) k then 1 else 0) 1 =
        rw (lt→ltb (level n) k (all n (omega arith))) refl in
      omega (arith, with_less_next k n, with_less_all k n (λ i lt. all i (omega arith)), counted)

  -- No level has more nodes than there are.
  pub with_key-le : (k n : ℕ) → with_key level k n ≤ n
  with_key-le k zero = omega arith
  with_key-le k (suc n) =
      let one_more : (if level n == k then 1 else 0) ≤ 1 = ground arith in
      omega (arith, with_key-le k n, one_more)

  pub count_levels_lem :
      (n id : ℕ) (counts : ℕ → ℕ) (k : ℕ)
      → count_levels level n id counts k + with_key level k id
        ≡ counts k + with_key level k (id + n)
  unfolding count_levels
  count_levels_lem zero id counts k =
      let same : id ≡ id + zero = omega arith in omega (arith, ap (with_key level k) same)
  count_levels_lem (suc n) id counts k =
      let rest = count_levels_lem n (id + 1) (update counts (level id) (counts (level id) + 1)) k in
      let shift : id + 1 + n ≡ id + suc n = omega arith in
      elim (Bool-cases (level id == k)) [
        | inl e ↦
            let added : ◌≡◌ {A = ℕ} (if level id == k then 1 else 0) 1 = rw e refl in
            let same : level id ≡ k = ground arith in
            let here : update counts (level id) (counts (level id) + 1) k ≡ counts k + 1 =
              rw same (update_self counts k (counts k + 1)) in
            omega (arith, rest, with_key_next k id, added, here, ap (with_key level k) shift)
        | inr e ↦
            let added : ◌≡◌ {A = ℕ} (if level id == k then 1 else 0) 0 = rw e refl in
            let other : k ≢ level id = ground arith in
            let here : update counts (level id) (counts (level id) + 1) k ≡ counts k =
              update_ne counts (level id) k (counts (level id) + 1) other in
            omega (arith, rest, with_key_next k id, added, here, ap (with_key level k) shift)
      ]

  module _ (count : ℕ) (counts : ℕ → ℕ)
      (counted : (k : ℕ) → counts k ≡ with_key level k count) where
    sum_levels_lem :
        (n i : ℕ) (s : LevelStarts)
        → ((j : ℕ) → j ≤ i → s.level_start j ≡ with_less level j count)
        → ((j : ℕ) → j < i → s.cursor j ≡ with_less level j count)
        → ((j : ℕ) → j ≤ i + n → (sum_levels counts n i s).level_start j ≡ with_less level j count)
          × ((j : ℕ) → j < i + n → (sum_levels counts n i s).cursor j ≡ with_less level j count)
    unfolding sum_levels
    sum_levels_lem zero i s starts cursors =
        (λ j le. starts j (omega arith), λ j lt. cursors j (omega arith))
    sum_levels_lem (suc n) i s starts cursors =
        let rest =
          sum_levels_lem n (i + 1) _
            (λ j le. elim (Bool-cases (j == i + 1)) [
              | inl e ↦
                  let same : j ≡ i + 1 = ground arith in
                  rw same (
                    update_self s.level_start (i + 1) (s.level_start i + counts i)
                    ∙ omega (arith, starts i (omega arith), counted i, with_less-suc level i count))
              | inr e ↦
                  let other : j ≢ i + 1 = ground arith in
                  update_ne s.level_start (i + 1) j (s.level_start i + counts i) other
                  ∙ starts j (omega (arith, other))
            ])
            (λ j lt. elim (Bool-cases (j == i)) [
              | inl e ↦
                  let same : j ≡ i = ground arith in
                  rw same (update_self s.cursor i (s.level_start i) ∙ starts i (omega arith))
              | inr e ↦
                  let other : j ≢ i = ground arith in
                  update_ne s.cursor i j (s.level_start i) other ∙ cursors j (omega (arith, other))
            ]) in
        (λ j le. rest.0 j (omega arith), λ j lt. rest.1 j (omega arith))

    module _ (ln : ℕ) (raw : ℕ → ℕ) (keys : (i : ℕ) → i < count → level i < ln) where
      abbrev starts : LevelStarts
      starts = sum_levels counts ln 0 (record { level_start = update raw 0 0; cursor = raw })

      abbrev order : ℕ → ℕ
      order = place level count 0 starts.cursor raw

      summed :
          ((j : ℕ) → j ≤ 0 + ln → starts.level_start j ≡ with_less level j count)
          × ((j : ℕ) → j < 0 + ln → starts.cursor j ≡ with_less level j count)
      summed =
          sum_levels_lem ln 0 (record { level_start = update raw 0 0; cursor = raw })
            (λ j le. let first_one : j ≡ 0 = omega arith in rw first_one (update_self raw 0 0))
            (λ j lt. absurd (omega arith))

      ordered : (i : ℕ) → i < count → order (place_of level count i) ≡ i
      ordered =
          place_lem level count ln count 0 starts.cursor raw keys (omega arith)
            (λ k lt. summed.1 k (omega arith) ∙ omega arith) (λ i lt. absurd (omega arith))

      -- How many nodes a level has.
      pub level_size :
          (lv : ℕ) → lv < ln → (starts.level_start (lv + 1) ≡ starts.level_start lv + counts lv)
      level_size lv lt =
          summed.0 (lv + 1) (omega arith)
          ∙ omega (arith, with_less-suc level lv count, summed.0 lv (omega arith), counted lv)

      -- What stands in the places of a level.
      pub order-level :
          (lv j : ℕ)
          → lv < ln
          → j < counts lv
          → (order (starts.level_start lv + j) < count)
            × (level (order (starts.level_start lv + j)) ≡ lv)
      order-level lv j lt fits =
          let found = of_rank level lv j count (omega (arith, counted lv)) in
          let at : starts.level_start lv + j ≡ place_of level count found.0 = omega (
            arith,
            summed.0 lv (omega arith),
            found.3,
            ap (λ k. with_less level k count) found.2,
            ap (λ k. with_key level k found.0) found.2,
          ) in
          let is : order (starts.level_start lv + j) ≡ found.0 =
            ap order at ∙ ordered found.0 found.1 in
          rw is (found.1, found.2)

      -- Where a node stands.
      pub order-place :
          (id : ℕ)
          → id < count
          → (j : ℕ) × (j < counts (level id)) × (order (starts.level_start (level id) + j) ≡ id)
      order-place id lt = (
        with_key level (level id) id,
        omega (arith, with_key-lt level id count lt, counted (level id)),
        ap order at ∙ ordered id lt,
      )
        where
          at :
              starts.level_start (level id) + with_key level (level id) id ≡ place_of level count id
          at = omega (arith, summed.0 (level id) (omega (arith, keys id lt)))

      first_start : starts.level_start 0 ≡ 0
      first_start = summed.0 0 (omega arith)

      -- The starts of the levels end with the number of nodes.
      pub level_bounds : (starts.level_start 0 ≡ 0) × (starts.level_start ln ≡ count)
      level_bounds =
          (first_start, summed.0 ln (omega arith) ∙ with_less_all ln count (λ i lt. keys i lt))
