-- ===== src/Graph/SlotMap/Levels.antt =====
-- The levels and last uses of `pose_graph_slot_map`.
use mathlib.Core.Path.{subst}
use po_se_memory_wiping.Prelude.{
  ℕ, zero, suc, ◌+◌, ◌≤◌, ◌<◌, ◌≡◌, refl, ap, ap₂, ◌∙◌, inl, inr, true, ltb, ◌==◌, if◌then◌else◌,
  Bool-cases, update, update_ne, arith,
}
use po_se_memory_wiping.Graph.Emitter.{Node}
use po_se_memory_wiping.Graph.Edges.Export.{ReadsBelow}
use po_se_memory_wiping.Graph.SlotMap.{
  Uses, level_of, assign_levels, raise_use, raise_preds, raise_uses, node_uses,
}

-- The node reads `p`.
pub data Reads (n : Node) (p : ℕ) : Type 0 where
  first : 1 ≤ n.num_preds → p ≡ n.pred0 → Reads n p
  second : 2 ≤ n.num_preds → p ≡ n.pred1 → Reads n p

-- The level of a node depends on those of its predecessors alone.
level_of-same :
    (n : Node) (id : ℕ) (f g : ℕ → ℕ)
    → ReadsBelow id n
    → ((p : ℕ) → p < id → f p ≡ g p)
    → level_of n f ≡ level_of n g
unfolding level_of
level_of-same n id f g (inl e) same = rw e refl
level_of-same n id f g (inr (inl e)) same = rw e.0 (ap (λ l. l + 1) (same n.pred0 e.1))
level_of-same n id f g (inr (inr e)) same =
    rw e.0 (ap₂ (λ a b. (if ltb b a then a else b) + 1) (same n.pred0 e.1) (same n.pred1 e.2))

-- A node is above what it reads.
level_of-above : (n : Node) (p : ℕ) (f : ℕ → ℕ) → Reads n p → f p < level_of n f
unfolding level_of
level_of-above n p f (first some_pred e) = rw e (ground arith)
level_of-above n p f (second two_preds e) = rw e (ground arith)

module _ (nodes : ℕ → Node) (count : ℕ)
    (below : (id : ℕ) → id < count → ReadsBelow id (nodes id)) where
  -- The levels of the nodes below `k` are there, and no use is recorded yet.
  record IsLevelled (k : ℕ) (u : Uses) : Type 0 where
    highest : (id : ℕ) → id < k → u.level id ≤ u.maxlevel
    born : (id : ℕ) → id < k → u.last_use id ≡ u.level id
    rises : (id : ℕ) → id < k → level_of (nodes id) u.level ≡ u.level id

  next_uses : ℕ → ℕ → Uses → Uses
  next_uses k lv u = record {
    level = update u.level k lv;
    last_use = update u.last_use k lv;
    maxlevel = if ltb u.maxlevel lv then lv else u.maxlevel;
  }

  highest_after :
      (f : ℕ → ℕ) (k lv top id : ℕ)
      → (id < k → f id ≤ top)
      → id < k + 1
      → update f k lv id ≤ (if ltb top lv then lv else top)
  highest_after f k lv top id le lt = ground arith

  born_after :
      (f g : ℕ → ℕ) (k lv id : ℕ)
      → (id < k → f id ≡ g id)
      → id < k + 1
      → update f k lv id ≡ update g k lv id
  born_after f g k lv id same lt = ground arith

  next_uses-IsLevelled :
      (k : ℕ) (u : Uses)
      → k < count
      → IsLevelled k u
      → IsLevelled (k + 1) (next_uses k (level_of (nodes k) u.level) u)
  unfolding next_uses
  next_uses-IsLevelled k u in_count l = record {
    highest = λ id lt.
        highest_after u.level k (level_of (nodes k) u.level) u.maxlevel id (l.highest id) lt;
    born = λ id lt. born_after u.last_use u.level k (level_of (nodes k) u.level) id (l.born id) lt;
    rises = λ id lt.
        level_of-same (nodes id) id (update u.level k (level_of (nodes k) u.level)) u.level
          (below id (omega arith))
          (λ p lt'. update_ne u.level k p (level_of (nodes k) u.level) (λ e. omega arith))
        ∙ now id lt;
  }
    where
      now :
          (id : ℕ)
          → id < k + 1
          → level_of (nodes id) u.level ≡ update u.level k (level_of (nodes k) u.level) id
      now id lt = elim (Bool-cases (id == k)) [
        | inl e ↦
            let same : id ≡ k = ground arith in rw e (ap (λ j. level_of (nodes j) u.level) same)
        | inr e ↦ rw e (l.rises id (ground arith))
      ]

  assign_levels-IsLevelled :
      (n k : ℕ) (u : Uses)
      → k + n ≡ count
      → IsLevelled k u
      → IsLevelled count (assign_levels nodes n k u)
  unfolding assign_levels next_uses
  assign_levels-IsLevelled zero k u at l =
      let same : k ≡ count = omega arith in subst (λ j. IsLevelled j u) same l
  assign_levels-IsLevelled (suc n) k u at l =
      assign_levels-IsLevelled n (k + 1) _ (omega arith) (next_uses-IsLevelled k u (omega arith) l)

  -- Uses only grow, to the level of a reader at most.
  raise_use-grows : (lv p q : ℕ) (f : ℕ → ℕ) → f q ≤ raise_use lv p f q
  raise_use-grows lv p q f = ground arith

  raise_use-reaches : (lv p : ℕ) (f : ℕ → ℕ) → lv ≤ raise_use lv p f p
  raise_use-reaches lv p f = ground arith

  raise_use-bound : (lv p q top : ℕ) (f : ℕ → ℕ) → f q ≤ top → lv ≤ top → raise_use lv p f q ≤ top
  raise_use-bound lv p q top f le le' = ground arith

  raise_preds_lem :
      (n : Node) (lv q : ℕ) (f : ℕ → ℕ)
      → (f q ≤ raise_preds n lv f q)
        × ((top : ℕ) → f q ≤ top → lv ≤ top → raise_preds n lv f q ≤ top)
        × (Reads n q → lv ≤ raise_preds n lv f q)
  unfolding raise_preds
  raise_preds_lem n lv q f = elim (Bool-cases (n.num_preds == 0)) [
    | inl e ↦ rw e (omega arith, λ top le le'. le, λ r. absurd (none_read r e))
    | inr e ↦ elim (Bool-cases (n.num_preds == 1)) [
      | inl e' ↦
          rw (e, e')
            (
              raise_use-grows lv n.pred0 q f,
              λ top le le'. raise_use-bound lv n.pred0 q top f le le',
              λ r. one_read r e',
            )
      | inr e' ↦
          rw (e, e')
            (
              omega (
                arith,
                raise_use-grows lv n.pred0 q f,
                raise_use-grows lv n.pred1 q (raise_use lv n.pred0 f),
              ),
              λ top le le'.
                  raise_use-bound lv n.pred1 q top (raise_use lv n.pred0 f)
                    (raise_use-bound lv n.pred0 q top f le le') le',
              λ r. two_read r,
            )
    ]
  ]
    where
      none_read : Reads n q → (n.num_preds == 0) ≡ true → ⊥
      none_read (first le e) zero_preds = ground arith
      none_read (second le e) zero_preds = ground arith

      one_read : Reads n q → (n.num_preds == 1) ≡ true → lv ≤ raise_use lv n.pred0 f q
      one_read (first le e) one_pred = rw e (raise_use-reaches lv n.pred0 f)
      one_read (second le e) one_pred = absurd (ground arith)

      two_read : Reads n q → lv ≤ raise_use lv n.pred1 (raise_use lv n.pred0 f) q
      two_read (first le e) = rw e (
          omega (
            arith,
            raise_use-reaches lv n.pred0 f,
            raise_use-grows lv n.pred1 n.pred0 (raise_use lv n.pred0 f),
          ))
      two_read (second le e) = rw e (raise_use-reaches lv n.pred1 (raise_use lv n.pred0 f))

  -- After the second loop from node `k` on, every use by a node from `k` on is recorded.
  raise_uses_lem :
      (level : ℕ → ℕ) (top : ℕ)
      → ((id : ℕ) → id < count → level id ≤ top)
      → (n k : ℕ) (f : ℕ → ℕ) (q : ℕ) → k + n ≡ count
      → (f q ≤ raise_uses nodes level n k f q)
        × (f q ≤ top → raise_uses nodes level n k f q ≤ top)
        × ((id : ℕ)
            → k ≤ id
            → id < count
            → Reads (nodes id) q
            → level id ≤ raise_uses nodes level n k f q)
  unfolding raise_uses
  raise_uses_lem level top highest zero k f q at =
      (omega arith, λ le. le, λ id le lt r. absurd (omega arith))
  raise_uses_lem level top highest (suc n) k f q at =
      let now = raise_preds_lem (nodes k) (level k) q f in
      let rest =
        raise_uses_lem level top highest n (k + 1) (raise_preds (nodes k) (level k) f) q
          (omega arith) in
      (
        omega (arith, now.0, rest.0),
        λ le. rest.1 (now.1 top le (highest k (omega arith))),
        λ id le lt r. elim (Bool-cases (id == k)) [
          | inl e ↦
              let same : id ≡ k = ground arith in
              omega (arith, now.2 (subst (λ j. Reads (nodes j) q) same r), rest.0, ap level same)
          | inr e ↦ rest.2 id (ground arith) lt r
        ],
      )

  nothing-IsLevelled :
      (raw : ℕ → ℕ) → IsLevelled 0 (record { level = raw; last_use = raw; maxlevel = 0 })
  nothing-IsLevelled raw = record {
    highest = λ id lt. absurd (omega arith);
    born = λ id lt. absurd (omega arith);
    rises = λ id lt. absurd (omega arith);
  }

  -- A node is used from its level to its last use, which no level exceeds.
  pub node_uses_lem :
      (raw : ℕ → ℕ) (id : ℕ)
      → id < count
      → ((node_uses nodes count raw).level id ≤ (node_uses nodes count raw).last_use id)
        × ((node_uses nodes count raw).last_use id ≤ (node_uses nodes count raw).maxlevel)
  unfolding node_uses
  node_uses_lem raw id lt =
      let l =
        assign_levels-IsLevelled count 0 (record { level = raw; last_use = raw; maxlevel = 0 })
          (omega arith) (nothing-IsLevelled raw) in
      let uses =
        raise_uses_lem _ _ l.highest count 0
          (assign_levels nodes count 0
            (record { level = raw; last_use = raw; maxlevel = 0 })).last_use
          id (omega arith) in
      (omega (arith, l.born id lt, uses.0), uses.1 (omega (arith, l.born id lt, l.highest id lt)))

  -- What a node reads has a lower level, and is in use until the level of the node.
  pub node_uses-Reads :
      (raw : ℕ → ℕ) (id p : ℕ)
      → id < count
      → Reads (nodes id) p
      → ((node_uses nodes count raw).level p < (node_uses nodes count raw).level id)
        × ((node_uses nodes count raw).level id ≤ (node_uses nodes count raw).last_use p)
  unfolding node_uses
  node_uses-Reads raw id p lt reads =
      let l =
        assign_levels-IsLevelled count 0 (record { level = raw; last_use = raw; maxlevel = 0 })
          (omega arith) (nothing-IsLevelled raw) in
      let u : Uses =
        assign_levels nodes count 0 (record { level = raw; last_use = raw; maxlevel = 0 }) in
      let uses = raise_uses_lem _ _ l.highest count 0 u.last_use p (omega arith) in
      (
        omega (arith, level_of-above (nodes id) p u.level reads, l.rises id lt),
        uses.2 id (omega arith) lt reads,
      )
