-- ===== src/Gpu/Machine.antt =====
-- What the threads of a kernel keep on one level: the plan that they rely on, the labels that are in use, and
-- how far each thread is.
pub mod Copies
pub mod Steps
pub mod Turns
use mathlib.Core.Path.{subst}
use native.Mathlib.Decide.{ℕ_discrete, dec_le, dec_lt}
use native.Mathlib.Nat.{mul-le-mul_right}
use po_se_memory_wiping.Prelude.{
  ℕ, suc, ◌+◌, ◌*◌, ◌/◌, ◌%◌, ◌≤◌, ◌<◌, ◌≡◌, ◌≢◌, refl, sym, ap, ap₂, ◌∙◌, ◌⊎◌, inl, inr, ltb,
  ltb→lt, Bool-cases, Option, none, some, List, [], ◌∷◌, update, update_self, update_ne, arith,
}
use po_se_memory_wiping.Label.{Bytes, NodeHash}
use po_se_memory_wiping.Graph.Emitter.{Node}
use po_se_memory_wiping.Graph.SlotMap.Levels.{Reads}
use po_se_memory_wiping.Gpu.{
  Topo, GpuHash, Device, Stage, loading, storing, copying, Lane, LevelWork, LevelState, copy_ranked,
  store_cell, label_item, stage_turn, lane_turn, lane_turns, run_level,
}
use po_se_memory_wiping.Gpu.Fair.{IsFair, lane_turns-through}

pub store_cell_self :
    (scratch : ℕ → ℕ → Bytes) (c x : ℕ) (label : Bytes) → store_cell scratch c x label c x ≡ label
store_cell_self scratch c x label =
    ap (λ f. f x) (update_self scratch c (update (scratch c) x label))
    ∙ update_self (scratch c) x label

pub store_cell_ne :
    (scratch : ℕ → ℕ → Bytes) (c x : ℕ) (label : Bytes) (c' x' : ℕ)
    → (c' ≡ c → x' ≢ x)
    → store_cell scratch c x label c' x' ≡ scratch c' x'
store_cell_ne scratch c x label c' x' other = elim (ℕ_discrete c' c) [
  | yes e ↦ rw e (
      ap (λ f. f x') (update_self scratch c (update (scratch c) x label))
      ∙ update_ne (scratch c) x x' label (other e))
  | no off ↦ ap (λ f. f x') (update_ne scratch c c' (update (scratch c) x label) off)
]

module _ (h : NodeHash) (gh : GpuHash h) (topo : Topo) (seeds : ℕ → Bytes) (bases : ℕ → ℕ)
    (nodes : ℕ → Node) (level last_use cell : ℕ → ℕ) (rank : ℕ → Option ℕ) (L : ℕ → ℕ → Bytes)
    (lo hi : ℕ) where
  -- What the kernels rely on: a node is read above its level and no later than its last use, nodes
  -- that are in use at the same time have different cells, every label goes to a block of its own, and
  -- the label of a node follows from those that it reads.
  pub record IsPlan : Type 0 where
    pub lives : (id : ℕ) → id < topo.count → level id ≤ last_use id
    pub reads :
        (id p : ℕ)
        → id < topo.count
        → Reads (nodes id) p
        → (p < topo.count) × (level p < level id) × (level id ≤ last_use p)
    pub apart :
        (a b : ℕ)
        → a < topo.count
        → b < topo.count
        → a ≢ b
        → level a ≤ last_use b
        → level b ≤ last_use a
        → cell a ≢ cell b
    pub unique :
        (c c' a b r r' : ℕ)
        → ((lo ≤ c) × (c < hi) × (lo ≤ c') × (c' < hi) × (a < topo.count) × (b < topo.count))
        → rank a ≡ some r
        → rank b ≡ some r'
        → bases c + r ≡ bases c' + r'
        → (c ≡ c') × (a ≡ b)
    pub follows :
        (c id : ℕ) (cells : ℕ → Bytes)
        → id < topo.count
        → lo ≤ c
        → c < hi
        → ((p : ℕ) → Reads (nodes id) p → cells (cell p) ≡ L c p)
        → label_item h gh topo seeds bases cell cells (seeds c) id ≡ L c id

  -- A block that belongs to no chunk of these regions.
  unfoldable pub Outside : ℕ → Type 0
  Outside x = (c id r : ℕ) → lo ≤ c → c < hi → id < topo.count → rank id ≡ some r → x ≢ bases c + r

  -- Before level `lv`: the labels below it that are still in use, and the persisted ones; `old` is what
  -- the rest of the persisted region holds.
  pub record IsBefore (old : ℕ → Bytes) (lv : ℕ) (d : Device) : Type 0 where
    pub kept :
        (c p : ℕ)
        → lo ≤ c
        → c < hi
        → p < topo.count
        → level p < lv
        → lv ≤ last_use p
        → d.scratch c (cell p) ≡ L c p
    pub older :
        (c p r : ℕ)
        → lo ≤ c
        → c < hi
        → p < topo.count
        → level p < lv
        → rank p ≡ some r
        → d.persist (bases c + r) ≡ L c p
    pub outside : (x : ℕ) → Outside x → d.persist x ≡ old x

  module _ (plan : IsPlan) (lv total : ℕ) (region node : ℕ → ℕ)
      (range : (i : ℕ)
        → i < total
        → (lo ≤ region i) × (region i < hi) × (node i < topo.count) × (level (node i) ≡ lv)) where
    abbrev pub work : LevelWork
    work = record { total = total; region = region; node = node; cell = cell; rank = rank }

    -- The labels that are in use on this level, and those that are persisted, stay.
    pub record Keeps (d d' : Device) : Type 0 where
      pub cells :
          (c p : ℕ)
          → lo ≤ c
          → c < hi
          → p < topo.count
          → level p ≤ lv
          → lv ≤ last_use p
          → d.scratch c (cell p) ≡ L c p
          → d'.scratch c (cell p) ≡ L c p
      pub blocks :
          (c p r : ℕ)
          → lo ≤ c
          → c < hi
          → p < topo.count
          → rank p ≡ some r
          → d.persist (bases c + r) ≡ L c p
          → d'.persist (bases c + r) ≡ L c p
      pub untouched : (x : ℕ) → Outside x → d'.persist x ≡ d.persist x

    pub Keeps-same : (d : Device) → Keeps d d
    Keeps-same d = record {
      cells = λ c p _ _ _ _ _ e. e;
      blocks = λ c p r _ _ _ _ e. e;
      untouched = λ x out. refl;
    }

    -- Item `j` is stored.
    abbrev pub Passed : Lane → ℕ → Type 0
    Passed l j = (j < l.i) ⊎ ((j ≡ l.i) × (l.stage ≡ copying))

    abbrev pub Stored : Device → ℕ → Type 0
    Stored d j = d.scratch (region j) (cell (node j)) ≡ L (region j) (node j)

    abbrev pub Copied : Device → ℕ → Type 0
    Copied d j =
        (r : ℕ) → rank (node j) ≡ some r → d.persist (bases (region j) + r) ≡ L (region j) (node j)

    module _ (stride : ℕ) where
      abbrev pub Belongs : ℕ → ℕ → Type 0
      Belongs t j = (k : ℕ) × (j ≡ t + k * stride)

      pub record IsLane (t : ℕ) (l : Lane) (d : Device) : Type 0 where
        pub at : Belongs t l.i
        pub held :
            (label : Bytes)
            → l.i < total
            → l.stage ≡ storing label
            → label ≡ L (region l.i) (node l.i)
        pub stored : (j : ℕ) → j < total → Belongs t j → Passed l j → Stored d j
        pub copied : (j : ℕ) → j < total → Belongs t j → j < l.i → Copied d j

      -- The state on level `lv`, from a persisted region `old` on.
      pub record InLevel (old : ℕ → Bytes) (s : LevelState) : Type 0 where
        pub before : IsBefore old lv s.device
        pub lane : (t : ℕ) → t < stride → IsLane t (s.lanes t) s.device

      pub IsLane-Keeps :
          (t : ℕ) (l : Lane) (d d' : Device) → Keeps d d' → IsLane t l d → IsLane t l d'
      IsLane-Keeps t l d d' k is = record {
        at = is.at;
        held = is.held;
        stored = λ j lt b p.
            let r = range j lt in
            k.cells (region j) (node j) r.0 r.1 r.2 (omega (arith, r.3))
              (omega (arith, r.3, plan.lives (node j) r.2)) (is.stored j lt b p);
        copied = λ j lt b p rk e.
            let r = range j lt in
            k.blocks (region j) (node j) rk r.0 r.1 r.2 e (is.copied j lt b p rk e);
      }

      -- A turn of one thread: the device keeps what is needed, and the thread is as it should be.
      pub turned :
          (old : ℕ → Bytes) (s : LevelState) (t : ℕ) (l : Lane) (d : Device)
          → InLevel old s
          → Keeps s.device d
          → IsLane t l d
          → InLevel old (record { lanes = update s.lanes t l; device = d })
      turned old s t l d inv k is = record {
        before = record {
          kept = λ c p x y lt before after.
              k.cells c p x y lt (omega arith) after (inv.before.kept c p x y lt before after);
          older = λ c p r x y lt before e.
              k.blocks c p r x y lt e (inv.before.older c p r x y lt before e);
          outside = λ x out. k.untouched x out ∙ inv.before.outside x out;
        };
        lane = λ t' lt. elim (ℕ_discrete t' t) [
          | yes e ↦ rw e (subst (λ (l' : Lane). IsLane t l' d) (sym (update_self s.lanes t l)) is)
          | no off ↦
              subst (λ (l' : Lane). IsLane t' l' d) (sym (update_ne s.lanes t t' l off))
                (IsLane-Keeps t' (s.lanes t') s.device d k (inv.lane t' lt))
        ];
      }
