-- ===== src/Gpu/Fair.antt =====
-- Schedules of the threads of a kernel, and how many turns a thread needs for its loop.
use po_se_memory_wiping.Prelude.{
  ℕ, zero, suc, ◌+◌, ◌-◌, ◌*◌, ◌≤◌, ◌<◌, ◌≡◌, ◌≢◌, refl, sym, ap, inl, inr, true, false, ltb, ◌==◌,
  if◌then◌else◌, Bool-cases, ltb→lt, lt→ltb, ==_iff, List, [], ◌∷◌, ◌++◌, range', update_self,
  update_ne, arith,
}
use native.Mathlib.Decide.{ℕ_discrete}
use po_se_memory_wiping.Label.{Bytes, NodeHash}
use po_se_memory_wiping.Gpu.{
  Topo, GpuHash, Stage, loading, storing, copying, Lane, LevelWork, LevelState, stage_turn,
  lane_turn, lane_turns,
}

-- How many turns thread `t` has.
abbrev pub turns_of : ℕ → List ℕ → ℕ
turns_of t [] = 0
turns_of t (x ∷ turns) = (if x == t then 1 else 0) + turns_of t turns

-- A schedule that gives every thread turns enough.
abbrev pub IsFair : ℕ → ℕ → List ℕ → Type 0
IsFair stride total turns = (t : ℕ) → t < stride → 3 * total ≤ turns_of t turns

stage_number : Stage → ℕ
stage_number loading = 0
stage_number (storing label) = 1
stage_number copying = 2

-- The turns that a thread still needs, at most.
effort : ℕ → Lane → ℕ
effort total l = if ltb l.i total then 3 * (total - l.i) - stage_number l.stage else 0

module _ (h : NodeHash) (gh : GpuHash h) (topo : Topo) (seeds : ℕ → Bytes) (bases : ℕ → ℕ)
    (stride : ℕ) (w : LevelWork) (some_stride : 0 < stride) where
  abbrev turn : ℕ → LevelState → LevelState
  turn = lane_turn h gh topo seeds bases stride w

  -- A thread's own turn.
  stage_turn-effort :
      (t i : ℕ) (st : Stage) (s : LevelState)
      → i < w.total
      → (s.lanes t).i ≡ i
      → (s.lanes t).stage ≡ st
      → effort w.total ((stage_turn h gh topo seeds bases stride w t i st s).lanes t) + 1
        ≤ effort w.total (s.lanes t)
  unfolding stage_turn effort stage_number
  stage_turn-effort t i loading s lt at is = rw (update_self s.lanes t, at, is) (ground arith)
  stage_turn-effort t i (storing label) s lt at is =
      rw (update_self s.lanes t, at, is) (ground arith)
  stage_turn-effort t i copying s lt at is = rw (update_self s.lanes t, at, is) (ground arith)

  -- The turn of another thread.
  stage_turn-other :
      (t t' i : ℕ) (st : Stage) (s : LevelState)
      → t' ≢ t
      → (stage_turn h gh topo seeds bases stride w t i st s).lanes t' ≡ s.lanes t'
  unfolding stage_turn
  stage_turn-other t t' i loading s ne = update_ne s.lanes t t' _ ne
  stage_turn-other t t' i (storing label) s ne = update_ne s.lanes t t' _ ne
  stage_turn-other t t' i copying s ne = update_ne s.lanes t t' _ ne

  same_test : (t : ℕ) → (t == t) ≡ true
  same_test t = ground arith

  other_test : (t x : ℕ) → t ≢ x → (x == t) ≡ false
  other_test t x ne = ground arith

  over : (l : Lane) → ltb l.i w.total ≡ false → effort w.total l ≡ 0
  unfolding effort
  over l e = rw e refl

  own_turn :
      (t : ℕ) (s : LevelState)
      → t < stride
      → effort w.total ((turn t s).lanes t) ≤ effort w.total (s.lanes t) - 1
  unfolding lane_turn
  own_turn t s lt = elim (Bool-cases (ltb (s.lanes t).i w.total)) [
    | inl e ↦
        rw (lt→ltb t stride lt, e)
          (omega
            (arith, stage_turn-effort t (s.lanes t).i (s.lanes t).stage s (ltb→lt _ _ e) refl refl))
    | inr e ↦ rw (lt→ltb t stride lt, e) (omega (arith, over (s.lanes t) e))
  ]

  other_turn : (t x : ℕ) (s : LevelState) → t ≢ x → (turn x s).lanes t ≡ s.lanes t
  unfolding lane_turn
  other_turn t x s ne = elim (Bool-cases (ltb x stride)) [
    | inr e ↦ rw e refl
    | inl e ↦ elim (Bool-cases (ltb (s.lanes x).i w.total)) [
      | inr f ↦ rw (e, f) refl
      | inl f ↦ rw (e, f) (stage_turn-other x t (s.lanes x).i (s.lanes x).stage s ne)
    ]
  ]

  lane_turns-effort :
      (t : ℕ) (ts : List ℕ) (s : LevelState)
      → t < stride
      → effort w.total ((lane_turns h gh topo seeds bases stride w ts s).lanes t)
        ≤ effort w.total (s.lanes t) - turns_of t ts
  unfolding lane_turns
  lane_turns-effort t [] s lt = omega arith
  lane_turns-effort t (x ∷ ts) s lt =
      let rest = lane_turns-effort t ts (turn x s) lt in
      elim (ℕ_discrete t x) [
        | yes e ↦
            let own : effort w.total ((turn x s).lanes t) ≤ effort w.total (s.lanes t) - 1 =
              rw (sym e) (own_turn t s lt) in
            let counted : ◌≡◌ {A = ℕ} (if x == t then 1 else 0) 1 = rw (sym e, same_test t) refl in
            omega (arith, rest, own, counted)
        | no ne ↦
            let same = ap (effort w.total) (other_turn t x s ne) in
            let counted : ◌≡◌ {A = ℕ} (if x == t then 1 else 0) 0 = rw (other_test t x ne) refl in
            omega (arith, rest, same, counted)
      ]

  no_effort : (l : Lane) → effort w.total l ≡ 0 → w.total ≤ l.i
  unfolding effort stage_number
  no_effort l e = by_stage l.i l.stage e
    where
      by_stage :
          (i : ℕ) (st : Stage)
          → (if ltb i w.total then 3 * (w.total - i) - stage_number st else 0) ≡ 0
          → w.total ≤ i
      by_stage i loading e = ground arith
      by_stage i (storing label) e = ground arith
      by_stage i copying e = ground arith

  bounded : (l : Lane) → effort w.total l ≤ 3 * w.total
  unfolding effort
  bounded l = ground arith

  -- After a fair schedule every thread has left its loop.
  pub lane_turns-through :
      (ts : List ℕ) (s : LevelState) (t : ℕ)
      → IsFair stride w.total ts
      → t < stride
      → w.total ≤ ((lane_turns h gh topo seeds bases stride w ts s).lanes t).i
  lane_turns-through ts s t fair lt =
      no_effort ((lane_turns h gh topo seeds bases stride w ts s).lanes t)
        (omega (arith, lane_turns-effort t ts s lt, fair t lt, at_most))
    where
      at_most : effort w.total (s.lanes t) ≤ 3 * w.total
      at_most = bounded (s.lanes t)

-- The threads in turn, `n` times.
abbrev pub round_robin : ℕ → ℕ → List ℕ
round_robin stride zero = []
round_robin stride (suc n) = range' 0 stride ++ round_robin stride n

turns_of-append : (t : ℕ) (xs ys : List ℕ) → turns_of t (xs ++ ys) ≡ turns_of t xs + turns_of t ys
turns_of-append t [] ys = omega arith
turns_of-append t (x ∷ xs) ys = omega (arith, turns_of-append t xs ys)

turns_of-range' : (t s n : ℕ) → s ≤ t → t < s + n → 1 ≤ turns_of t (range' s n)
turns_of-range' t s zero le lt = absurd (omega arith)
turns_of-range' t s (suc n) le lt = elim (ℕ_discrete s t) [
  | yes e ↦
      let counted : ◌≡◌ {A = ℕ} (if s == t then 1 else 0) 1 = rw ((==_iff s t).1 e) refl in
      omega (arith, counted)
  | no ne ↦ omega (arith, turns_of-range' t (s + 1) n (omega (arith, ne)) (omega arith))
]

-- There are schedules that give every thread turns enough.
pub round_robin-IsFair : (stride n : ℕ) → IsFair stride n (round_robin stride (3 * n))
round_robin-IsFair stride n t lt = enough (3 * n)
  where
    enough : (k : ℕ) → k ≤ turns_of t (round_robin stride k)
    enough zero = omega arith
    enough (suc k) = omega (
      arith,
      enough k,
      turns_of-append t (range' 0 stride) (round_robin stride k),
      turns_of-range' t 0 stride (omega arith) (omega arith),
    )
