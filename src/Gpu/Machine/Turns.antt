-- ===== src/Gpu/Machine/Turns.antt =====
-- One level of a kernel, in whatever order its threads take their turns.
use native.Mathlib.Decide.{dec_lt}
use po_se_memory_wiping.Prelude.{
  ℕ, ◌+◌, ◌/◌, ◌%◌, ◌≤◌, ◌<◌, ◌≡◌, refl, sym, ap, ap₂, ◌∙◌, inl, inr, ltb, ltb→lt, Bool-cases,
  Option, List, [], ◌∷◌, arith,
}
use po_se_memory_wiping.Label.{Bytes, NodeHash}
use po_se_memory_wiping.Graph.Emitter.{Node}
use po_se_memory_wiping.Gpu.{
  Topo, GpuHash, Device, Stage, loading, storing, copying, LevelWork, LevelState, stage_turn,
  lane_turn, lane_turns, run_level,
}
use po_se_memory_wiping.Gpu.Fair.{IsFair, lane_turns-through}
use po_se_memory_wiping.Gpu.Machine
use po_se_memory_wiping.Gpu.Machine.Copies
use po_se_memory_wiping.Gpu.Machine.Steps

module _ (h : NodeHash) (gh : GpuHash h) (topo : Topo) (seeds : ℕ → Bytes) (bases : ℕ → ℕ)
    (nodes : ℕ → Node) (level last_use cell : ℕ → ℕ) (rank : ℕ → Option ℕ) (L : ℕ → ℕ → Bytes)
    (lo hi : ℕ) where
  abbrev IsBefore : (ℕ → Bytes) → ℕ → Device → Type 0
  IsBefore = Machine.IsBefore h gh topo seeds bases nodes level last_use cell rank L lo hi

  module _ (plan : Machine.IsPlan h gh topo seeds bases nodes level last_use cell rank L lo hi)
      (lv total : ℕ) (region node : ℕ → ℕ)
      (range : (i : ℕ)
        → i < total
        → (lo ≤ region i) × (region i < hi) × (node i < topo.count) × (level (node i) ≡ lv)) where
    abbrev work : LevelWork
    work =
        Machine.work h gh topo seeds bases nodes level last_use cell rank L lo hi plan lv total
          region node range

    module _ (stride : ℕ) where
      abbrev Belongs : ℕ → ℕ → Type 0
      Belongs =
          Machine.Belongs h gh topo seeds bases nodes level last_use cell rank L lo hi plan lv total
            region node range stride

      abbrev InLevel : (ℕ → Bytes) → LevelState → Type 0
      InLevel =
          Machine.InLevel h gh topo seeds bases nodes level last_use cell rank L lo hi plan lv total
            region node range stride

      abbrev turn : ℕ → LevelState → LevelState
      turn = lane_turn h gh topo seeds bases stride work

      abbrev turns' : List ℕ → LevelState → LevelState
      turns' = lane_turns h gh topo seeds bases stride work

      stage_turn-InLevel :
          (old : ℕ → Bytes) (t i : ℕ) (st : Stage) (s : LevelState)
          → t < stride
          → i < total
          → (s.lanes t).i ≡ i
          → (s.lanes t).stage ≡ st
          → InLevel old s
          → InLevel old (stage_turn h gh topo seeds bases stride work t i st s)
      unfolding stage_turn Steps.store_device Copies.copy_device
      stage_turn-InLevel old t i loading s thread lt at st inv =
          Machine.turned h gh topo seeds bases nodes level last_use cell rank L lo hi plan lv total
            region node range stride old s t _ s.device inv
            (Machine.Keeps-same h gh topo seeds bases nodes level last_use cell rank L lo hi plan lv
              total region node range s.device)
            (Steps.load-IsLane h gh topo seeds bases nodes level last_use cell rank L lo hi plan lv
              total region node range stride old t i s lt thread at st inv)
      stage_turn-InLevel old t i (storing label) s thread lt at st inv =
          let r =
            Steps.store-IsLane h gh topo seeds bases nodes level last_use cell rank L lo hi plan lv
              total region node range stride t i label (s.lanes t) s.device lt at st
              (inv.lane t thread) in
          Machine.turned h gh topo seeds bases nodes level last_use cell rank L lo hi plan lv total
            region node range stride old s t _
            (Steps.store_device h gh topo seeds bases nodes level last_use cell rank L lo hi plan lv
              total region node range i label s.device)
            inv r.1 r.0
      stage_turn-InLevel old t i copying s thread lt at st inv =
          let r =
            Steps.copy-IsLane h gh topo seeds bases nodes level last_use cell rank L lo hi plan lv
              total region node range stride t i (s.lanes t) s.device lt at st
              (inv.lane t thread) in
          Machine.turned h gh topo seeds bases nodes level last_use cell rank L lo hi plan lv total
            region node range stride old s t _
            (Copies.copy_device h gh topo seeds bases nodes level last_use cell rank L lo hi plan lv
              total region node range i s.device)
            inv r.1 r.0

      lane_turn-InLevel :
          (old : ℕ → Bytes) (t : ℕ) (s : LevelState) → InLevel old s → InLevel old (turn t s)
      unfolding lane_turn
      lane_turn-InLevel old t s inv = elim (Bool-cases (ltb t stride)) [
        | inr e ↦ rw e inv
        | inl e ↦ elim (Bool-cases (ltb (s.lanes t).i total)) [
          | inr f ↦ rw (e, f) inv
          | inl f ↦
              rw (e, f)
                (stage_turn-InLevel old t (s.lanes t).i (s.lanes t).stage s (ltb→lt _ _ e)
                  (ltb→lt _ _ f) refl refl inv)
        ]
      ]

      lane_turns-InLevel :
          (old : ℕ → Bytes) (ts : List ℕ) (s : LevelState)
          → InLevel old s
          → InLevel old (turns' ts s)
      unfolding lane_turns
      lane_turns-InLevel old [] s inv = inv
      lane_turns-InLevel old (t ∷ ts) s inv =
          lane_turns-InLevel old ts (turn t s) (lane_turn-InLevel old t s inv)

      start : Device → LevelState
      start d = record { lanes = λ t. record { i = t; stage = loading }; device = d }

      start-InLevel : (old : ℕ → Bytes) (d : Device) → IsBefore old lv d → InLevel old (start d)
      unfolding start
      start-InLevel old d b = record {
        before = b;
        lane = λ t lt. record {
          at = (0, omega arith);
          held = λ label lt' e. absurd cc;
          stored = λ j lj own p. elim p [
            | inl less ↦ absurd (omega (arith, own.1, less))
            | inr bad ↦ absurd (no_copy bad.1)
          ];
          copied = λ j lj own less. absurd (omega (arith, own.1, less));
        };
      }
        where
          no_copy : loading ≡ copying → ⊥
          no_copy e = cc

      -- A level whose items are all of its nodes, from where its threads start to the barrier.
      pub run_level-IsBefore :
          (old : ℕ → Bytes) (turns : List ℕ) (d : Device)
          → 0 < stride
          → ((c id : ℕ)
              → lo ≤ c
              → c < hi
              → id < topo.count
              → level id ≡ lv
              → (i : ℕ) × (i < total) × (region i ≡ c) × (node i ≡ id))
          → IsFair stride total turns
          → IsBefore old lv d
          → IsBefore old (lv + 1) (run_level h gh topo seeds bases stride work turns d)
      unfolding run_level start
      run_level-IsBefore old turns d some_stride covers fair b = record {
        kept = λ c p x y lp before after. elim (dec_lt (level p) lv) [
          | yes less ↦ inv.before.kept c p x y lp less (omega arith)
          | no not_less ↦
              let f = covers c p x y lp (omega arith) in
              let own = place f.0 f.1 in
              ap₂ (λ k q. s.device.scratch k (cell q)) (sym f.2) (sym f.3)
              ∙ (inv.lane own.0 own.1).stored f.0 f.1 own.2 (inl (through f.0 f.1 own.0 own.1))
              ∙ ap₂ L f.2 f.3
        ];
        older = λ c p r x y lp before e. elim (dec_lt (level p) lv) [
          | yes less ↦ inv.before.older c p r x y lp less e
          | no not_less ↦
              let f = covers c p x y lp (omega arith) in
              let own = place f.0 f.1 in
              ap (λ k. s.device.persist (bases k + r)) (sym f.2)
              ∙ (inv.lane own.0 own.1).copied f.0 f.1 own.2 (through f.0 f.1 own.0 own.1) r
                  (ap rank f.3 ∙ e)
              ∙ ap₂ L f.2 f.3
        ];
        outside = λ x out. inv.before.outside x out;
      }
        where
          s : LevelState
          s = turns' turns (start d)

          inv : InLevel old s
          inv = lane_turns-InLevel old turns (start d) (start-InLevel old d b)

          place : (j : ℕ) → j < total → (t : ℕ) × (t < stride) × Belongs t j
          place j lt =
              (j % stride, omega (arith, some_stride), (j / stride, omega (arith, some_stride)))

          through : (j : ℕ) → j < total → (t : ℕ) → t < stride → j < (s.lanes t).i
          through j lj t lt = omega (
            arith,
            lj,
            lane_turns-through h gh topo seeds bases stride work some_stride turns (start d) t fair
                lt,
          )
