-- ===== src/Graph/Pool/Life.antt =====
-- `pose_graph_pool_destroy`: every worker has returned when the pool is freed.
use mathlib.Core.Path.{subst}
use po_se_memory_wiping.Prelude.{
  ℕ, zero, suc, ◌+◌, ◌*◌, ◌≤◌, ◌<◌, ◌≡◌, refl, sym, ap, ◌∙◌, ◌⊎◌, inl, inr, true, false,
  if◌then◌else◌, Bool-cases, Option, none, some, List, [], ◌∷◌, length, All, arith,
}
use po_se_memory_wiping.Label.{Bytes, Algo, NodeHash}
use po_se_memory_wiping.Graph.Region.{ChunkArg}
use po_se_memory_wiping.Graph.Pool.{
  Slot, slot, ready, waiting, exited, running, Caller, joining, through, Pool, wake_all, wake_at,
  all_exited, pool_destroy, Event, worker_turn, spurious_wake, caller_turn, caller_wake, turn_at,
  count_done, caller_step, wake_caller, step,
}
use po_se_memory_wiping.Graph.Pool.Round.{IsIdle}
use po_se_memory_wiping.Graph.Pool.Progress.{slots_effort, pool_effort, pool_effort-bound}
use po_se_memory_wiping.Graph.Pool.Workers.{length-wake_all, length-turn_at}
use po_se_memory_wiping.Graph.Pool.Sweeps.{
  IsSweep, IsDue, run_sweeps, run_events-Inv, enough_sweeps,
}
use po_se_memory_wiping.Graph.Pool.Interleaving.{turn_due}

-- The worker is about to see `shutdown`, or has returned.
abbrev Closes : Slot → Type 0
Closes (slot none ready rc) = Unit
Closes (slot none exited rc) = Unit
Closes (slot none waiting rc) = ⊥
Closes (slot none (running a) rc) = ⊥
Closes (slot (some a) w rc) = ⊥

wake_all-Closes : (slots : List Slot) → All IsIdle slots → All Closes (wake_all slots)
wake_all-Closes [] idle = tt
wake_all-Closes (slot none ready rc ∷ slots) idle = (tt, wake_all-Closes slots idle.1)
wake_all-Closes (slot none waiting rc ∷ slots) idle = (tt, wake_all-Closes slots idle.1)
wake_all-Closes (slot none exited rc ∷ slots) idle = absurd idle.0
wake_all-Closes (slot none (running a) rc ∷ slots) idle = absurd idle.0
wake_all-Closes (slot (some a) w rc ∷ slots) idle = absurd idle.0

wake_at-Closes : (i : ℕ) (slots : List Slot) → All Closes slots → wake_at i slots ≡ slots
wake_at-Closes i [] closes = refl
wake_at-Closes zero (slot none ready rc ∷ slots) closes = refl
wake_at-Closes zero (slot none exited rc ∷ slots) closes = refl
wake_at-Closes zero (slot none waiting rc ∷ slots) closes = absurd closes.0
wake_at-Closes zero (slot none (running a) rc ∷ slots) closes = absurd closes.0
wake_at-Closes zero (slot (some a) w rc ∷ slots) closes = absurd closes.0
wake_at-Closes (suc i) (s ∷ slots) closes = ap (λ l. s ∷ l) (wake_at-Closes i slots closes.1)

-- A pool of `n` workers that is being destroyed.
pub record IsClosing (n : ℕ) (p : Pool) : Type 0 where
  pub closed : p.shutdown ≡ true
  pub closes : All Closes p.slots
  pub size : length p.slots ≡ n
  pub joins : (p.caller ≡ joining) ⊎ ((p.caller ≡ through) × (all_exited p.slots ≡ true))

module _ (h : NodeHash) (session_seed : Bytes) (offset : ℕ) (algo : Algo)
    (scratch : ℕ → ℕ → Bytes) where
  abbrev closing_turn : (ℕ → Bytes) → ℕ → List Slot → List Slot × Option ChunkArg
  closing_turn = turn_at h session_seed offset algo scratch true

  turn_at-Closes :
      (region : ℕ → Bytes) (i : ℕ) (slots : List Slot)
      → All Closes slots
      → All Closes (closing_turn region i slots).0
        × ((closing_turn region i slots).1 ≡ none)
        × (all_exited slots ≡ true → all_exited (closing_turn region i slots).0 ≡ true)
  turn_at-Closes region i [] closes = (tt, refl, λ e. e)
  turn_at-Closes region zero (slot none ready rc ∷ slots) closes = (closes, refl, λ e. absurd cc)
  turn_at-Closes region zero (slot none exited rc ∷ slots) closes = (closes, refl, λ e. e)
  turn_at-Closes region zero (slot none waiting rc ∷ slots) closes = absurd closes.0
  turn_at-Closes region zero (slot none (running a) rc ∷ slots) closes = absurd closes.0
  turn_at-Closes region zero (slot (some a) w rc ∷ slots) closes = absurd closes.0
  turn_at-Closes region (suc i) (slot none ready rc ∷ slots) closes =
      let rest = turn_at-Closes region i slots closes.1 in ((tt, rest.0), rest.1, λ e. absurd cc)
  turn_at-Closes region (suc i) (slot none exited rc ∷ slots) closes =
      let rest = turn_at-Closes region i slots closes.1 in ((tt, rest.0), rest.1, rest.2)
  turn_at-Closes region (suc i) (slot none waiting rc ∷ slots) closes = absurd closes.0
  turn_at-Closes region (suc i) (slot none (running a) rc ∷ slots) closes = absurd closes.0
  turn_at-Closes region (suc i) (slot (some a) w rc ∷ slots) closes = absurd closes.0

  -- A worker that has not returned can go on.
  not_exited :
      (region : ℕ → Bytes) (slots : List Slot)
      → All Closes slots
      → all_exited slots ≡ false
      → (i : ℕ) × (i < length slots)
        × (slots_effort (closing_turn region i slots).0 < slots_effort slots)
  not_exited region [] closes e = absurd cc
  not_exited region (slot none ready rc ∷ slots) closes e = (zero, omega arith, omega arith)
  not_exited region (slot none exited rc ∷ slots) closes e =
      let next = not_exited region slots closes.1 e in
      (suc next.0, omega (arith, next.1), omega (arith, next.2))
  not_exited region (slot none waiting rc ∷ slots) closes e = absurd closes.0
  not_exited region (slot none (running a) rc ∷ slots) closes e = absurd closes.0
  not_exited region (slot (some a) w rc ∷ slots) closes e = absurd closes.0

  abbrev step' : Event → Pool → Pool
  step' = step h session_seed offset algo scratch

  slots-IsClosing :
      (n : ℕ) (p : Pool) (result : List Slot × Option ChunkArg)
      → IsClosing n p
      → All Closes result.0
      → result.1 ≡ none
      → (all_exited p.slots ≡ true → all_exited result.0 ≡ true)
      → length result.0 ≡ n
      → IsClosing n
          (count_done h session_seed offset algo scratch result.1 (record p { slots = result.0 }))
  slots-IsClosing n p result c closes no_chunk stay size = rw no_chunk (record {
    closed = c.closed;
    closes = closes;
    size = size;
    joins = elim c.joins [ inl e ↦ inl e | inr e ↦ inr (e.0, stay e.1) ];
  })

  caller-IsClosing :
      (n : ℕ) (p : Pool)
      → IsClosing n p
      → IsClosing n (caller_step h session_seed offset algo scratch p.caller p)
  caller-IsClosing n p c = elim c.joins [
    | inl e ↦
        subst (λ x. IsClosing n (caller_step h session_seed offset algo scratch x p)) (sym e)
          (elim (Bool-cases (all_exited p.slots)) [
            | inl all ↦ record {
              closed = c.closed;
              closes = c.closes;
              size = c.size;
              joins = inr (ap (λ b. if b then through else joining) all, all);
            }
            | inr some_left ↦ record {
              closed = c.closed;
              closes = c.closes;
              size = c.size;
              joins = inl (ap (λ b. if b then through else joining) some_left);
            }
          ])
    | inr e ↦
        subst (λ x. IsClosing n (caller_step h session_seed offset algo scratch x p)) (sym e.0) c
  ]

  step-IsClosing : (n : ℕ) (e : Event) (p : Pool) → IsClosing n p → IsClosing n (step' e p)
  unfolding step
  step-IsClosing n (worker_turn i) p c =
      let closing = turn_at-Closes p.region i p.slots c.closes in
      slots-IsClosing n p (turn_at h session_seed offset algo scratch p.shutdown p.region i p.slots)
        c (rw c.closed closing.0) (rw c.closed closing.1) (rw c.closed closing.2)
        (length-turn_at h session_seed offset algo scratch i p p.slots ∙ c.size)
  step-IsClosing n (spurious_wake i) p c =
      subst (λ slots. IsClosing n (record p { slots = slots }))
        (sym (wake_at-Closes i p.slots c.closes)) c
  step-IsClosing n caller_turn p c = caller-IsClosing n p c
  step-IsClosing n caller_wake p c = record {
    closed = c.closed;
    closes = c.closes;
    size = c.size;
    joins = elim c.joins [ inl e ↦ inl (ap wake_caller e) | inr e ↦ inr (ap wake_caller e.0, e.1) ];
  }

  closing-IsDue :
      (n : ℕ) (p : Pool)
      → IsClosing n p
      → (p.caller ≡ through) ⊎ ((e : Event) × IsDue n e × (pool_effort (step' e p) < pool_effort p))
  unfolding step
  closing-IsDue n p c = elim c.joins [
    | inr e ↦ inl e.0
    | inl e ↦ elim (Bool-cases (all_exited p.slots)) [
      | inl all ↦ inr (caller_turn, tt, rw e (rw all (omega arith)))
      | inr some_left ↦
          let next = not_exited p.region p.slots c.closes some_left in
          inr (
            worker_turn next.0,
            omega (arith, c.size, next.1),
            turn_due h session_seed offset algo scratch p next.0 (rw c.closed next.2),
          )
    ]
  ]

  sweeps-IsClosing :
      (n : ℕ) (sweeps : List (List Event)) (p : Pool)
      → IsClosing n p
      → IsClosing n (run_sweeps h session_seed offset algo scratch sweeps p)
  sweeps-IsClosing n [] p c = c
  sweeps-IsClosing n (sweep ∷ sweeps) p c =
      sweeps-IsClosing n sweeps _ (
        run_events-Inv h session_seed offset algo scratch (IsClosing n) (step-IsClosing n) sweep p
          c)

  -- When `pose_graph_pool_destroy` is called on a pool without a chunk left, then after as many sweeps
  -- as five for each worker and two, in which each worker and the calling thread get a turn, the
  -- calling thread has joined them all, and every worker has returned before the pool is freed.
  pub run_sweeps-pool_destroy :
      (p : Pool) (sweeps : List (List Event))
      → All IsIdle p.slots
      → All (IsSweep (length p.slots)) sweeps
      → 5 * length p.slots + 2 ≤ length sweeps
      → ((run_sweeps h session_seed offset algo scratch sweeps (pool_destroy p)).caller ≡ through)
        × (all_exited (run_sweeps h session_seed offset algo scratch sweeps (pool_destroy p)).slots
            ≡ true)
  run_sweeps-pool_destroy p sweeps idle fair enough = (
    at,
    elim (sweeps-IsClosing (length p.slots) sweeps (pool_destroy p) start).joins [
      | inl e ↦ absurd (not_both e at)
      | inr e ↦ e.1
    ],
  )
    where
      start : IsClosing (length p.slots) (pool_destroy p)
      start = record {
        closed = refl;
        closes = wake_all-Closes p.slots idle;
        size = length-wake_all p.slots;
        joins = inl refl;
      }

      at : (run_sweeps h session_seed offset algo scratch sweeps (pool_destroy p)).caller ≡ through
      at =
          enough_sweeps h session_seed offset algo scratch (length p.slots)
            (IsClosing (length p.slots)) (step-IsClosing (length p.slots))
            (closing-IsDue (length p.slots)) sweeps (pool_destroy p) fair start
            (omega (arith, pool_effort-bound (pool_destroy p), length-wake_all p.slots))

      not_both : {c : Caller} → c ≡ joining → c ≡ through → ⊥
      not_both e f = absurd cc
