-- ===== src/Graph/Pool/Progress.antt =====
-- No wake-up is lost: whatever has happened, a round ends if every thread gets its turns.
use po_se_memory_wiping.Prelude.{
  ℕ, zero, suc, ◌+◌, ◌*◌, ◌≤◌, ◌<◌, ◌≡◌, refl, sym, ap, ◌⊎◌, inl, inr, Bool, true, false, ltb, leb,
  if◌then◌else◌, Bool-cases, Option, none, some, List, [], ◌∷◌, length, arith,
}
use po_se_memory_wiping.Label.{Bytes, Algo, NodeHash}
use po_se_memory_wiping.Graph.Region.{ChunkArg}
use po_se_memory_wiping.Graph.Pool.{
  Worker, Slot, slot, ready, waiting, exited, running, Caller, labelling, locking, sleeping,
  joining, through, Pool, wake_caller, all_exited, Event, worker_turn, spurious_wake, caller_turn,
  caller_wake, turn, turn_at, count_done, caller_step, step, run_events,
}

-- How many turns are left to take.
abbrev worker_effort : Worker → ℕ
worker_effort ready = 1
worker_effort waiting = 0
worker_effort exited = 0
worker_effort (running a) = 2

abbrev job_effort : Option ChunkArg → ℕ
job_effort none = 0
job_effort (some a) = 3

abbrev pub slot_effort : Slot → ℕ
slot_effort (slot job w rc) = job_effort job + worker_effort w

abbrev pub slots_effort : List Slot → ℕ
slots_effort [] = 0
slots_effort (s ∷ slots) = slot_effort s + slots_effort slots

abbrev pub caller_effort : Caller → ℕ
caller_effort (labelling many a) = 2
caller_effort locking = 1
caller_effort sleeping = 0
caller_effort joining = 1
caller_effort through = 0

abbrev pub pool_effort : Pool → ℕ
pool_effort p = caller_effort p.caller + slots_effort p.slots

slot_effort-bound : (s : Slot) → slot_effort s ≤ 5
slot_effort-bound (slot none ready rc) = omega arith
slot_effort-bound (slot none waiting rc) = omega arith
slot_effort-bound (slot none exited rc) = omega arith
slot_effort-bound (slot none (running a) rc) = omega arith
slot_effort-bound (slot (some b) ready rc) = omega arith
slot_effort-bound (slot (some b) waiting rc) = omega arith
slot_effort-bound (slot (some b) exited rc) = omega arith
slot_effort-bound (slot (some b) (running a) rc) = omega arith

slots_effort-bound : (slots : List Slot) → slots_effort slots ≤ 5 * length slots
slots_effort-bound [] = omega arith
slots_effort-bound (s ∷ slots) = omega (arith, slot_effort-bound s, slots_effort-bound slots)

pub pool_effort-bound : (p : Pool) → pool_effort p ≤ 5 * length p.slots + 2
pool_effort-bound p = omega (arith, caller_bound p.caller, slots_effort-bound p.slots)
  where
    caller_bound : (c : Caller) → caller_effort c ≤ 2
    caller_bound (labelling many a) = omega arith
    caller_bound locking = omega arith
    caller_bound sleeping = omega arith
    caller_bound joining = omega arith
    caller_bound through = omega arith

-- A turn changes nothing, passes a chunk on, or finishes one.
data Effect {A : Type 0} (effort : A → ℕ) (x : A) (result : A × Option ChunkArg) : Type 0 where
  stays : result ≡ (x, none) → Effect effort x result
  passes : result.1 ≡ none → effort result.0 < effort x → Effect effort x result
  completes :
      (a : ChunkArg) → result.1 ≡ some a → effort result.0 + 2 ≤ effort x → Effect effort x result

-- A turn, not a wake-up.
abbrev pub IsTurn : Event → Type 0
IsTurn (worker_turn i) = Unit
IsTurn (spurious_wake i) = ⊥
IsTurn caller_turn = Unit
IsTurn caller_wake = ⊥

wake_caller-effort :
    (c : Caller) (full : Bool)
    → caller_effort (if full then wake_caller c else c) ≤ caller_effort c + 1
wake_caller-effort c false = omega arith
wake_caller-effort (labelling many a) true = omega arith
wake_caller-effort locking true = omega arith
wake_caller-effort sleeping true = omega arith
wake_caller-effort joining true = omega arith
wake_caller-effort through true = omega arith

module _ (h : NodeHash) (session_seed : Bytes) (offset : ℕ) (algo : Algo)
    (scratch : ℕ → ℕ → Bytes) where
  abbrev step' : Event → Pool → Pool
  step' = step h session_seed offset algo scratch

  abbrev pub run' : List Event → Pool → Pool
  run' = run_events h session_seed offset algo scratch

  turn-Effect :
      (shutdown : Bool) (region : ℕ → Bytes) (s : Slot)
      → Effect slot_effort s (turn h session_seed offset algo scratch shutdown region s)
  turn-Effect true region (slot job ready rc) = passes refl (omega arith)
  turn-Effect false region (slot none ready rc) = passes refl (omega arith)
  turn-Effect false region (slot (some a) ready rc) = passes refl (omega arith)
  turn-Effect shutdown region (slot job waiting rc) = stays refl
  turn-Effect shutdown region (slot job exited rc) = stays refl
  turn-Effect true region (slot job (running a) rc) = completes a refl (omega arith)
  turn-Effect false region (slot none (running a) rc) = completes a refl (omega arith)
  turn-Effect false region (slot (some b) (running a) rc) = completes a refl (omega arith)

  turn_at-Effect :
      (shutdown : Bool) (region : ℕ → Bytes) (i : ℕ) (slots : List Slot)
      → Effect slots_effort slots
          (turn_at h session_seed offset algo scratch shutdown region i slots)
  turn_at-Effect shutdown region i [] = stays refl
  turn_at-Effect shutdown region zero (s ∷ slots) = elim (turn-Effect shutdown region s) [
    | stays e ↦ stays (ap (λ (r : Slot × Option ChunkArg). (r.0 ∷ slots, r.1)) e)
    | passes e less ↦ passes e (omega arith)
    | completes a e less ↦ completes a e (omega arith)
  ]
  turn_at-Effect shutdown region (suc i) (s ∷ slots) =
      elim (turn_at-Effect shutdown region i slots) [
        | stays e ↦ stays (ap (λ (r : List Slot × Option ChunkArg). (s ∷ r.0, r.1)) e)
        | passes e less ↦ passes e (omega arith)
        | completes a e less ↦ completes a e (omega arith)
      ]

  worker-effort :
      (p : Pool) (result : List Slot × Option ChunkArg)
      → Effect slots_effort p.slots result
      → (count_done h session_seed offset algo scratch result.1 (record p { slots = result.0 }) ≡ p)
        ⊎ (pool_effort (
              count_done h session_seed offset algo scratch result.1
                (record p { slots = result.0 }))
            < pool_effort p)
  worker-effort p result (stays e) = inl (
      ap
        (λ (r : List Slot × Option ChunkArg).
          count_done h session_seed offset algo scratch r.1 (record p { slots = r.0 }))
        e)
  worker-effort p result (passes e less) = inr (rw e (omega arith))
  worker-effort p result (completes a e less) =
      inr (rw e (omega (arith, wake_caller-effort p.caller (leb p.n_expected (p.n_done + 1)))))

  caller-effort :
      (c : Caller) (p : Pool)
      → p.caller ≡ c
      → (caller_step h session_seed offset algo scratch c p ≡ p)
        ⊎ (pool_effort (caller_step h session_seed offset algo scratch c p)
            < caller_effort c + slots_effort p.slots)
  caller-effort (labelling true a) p at = inr (omega arith)
  caller-effort (labelling false a) p at = inr (omega arith)
  caller-effort locking p at = elim (Bool-cases (ltb p.n_done p.n_expected)) [
    | inl e ↦ inr (rw e (omega arith))
    | inr e ↦ inr (rw e (omega arith))
  ]
  caller-effort sleeping p at = inl refl
  caller-effort joining p at = elim (Bool-cases (all_exited p.slots)) [
    | inl e ↦ inr (rw e (omega arith))
    | inr e ↦ inl (rw e (ap (λ c. record p { caller = c }) (sym at)))
  ]
  caller-effort through p at = inl refl

  -- A turn either changes nothing or makes progress.
  pub step-effort :
      (e : Event) (p : Pool)
      → IsTurn e
      → (step' e p ≡ p) ⊎ (pool_effort (step' e p) < pool_effort p)
  unfolding step
  step-effort (worker_turn i) p turn =
      worker-effort p (turn_at h session_seed offset algo scratch p.shutdown p.region i p.slots)
        (turn_at-Effect p.shutdown p.region i p.slots)
  step-effort (spurious_wake i) p turn = absurd turn
  step-effort caller_turn p turn = caller-effort p.caller p refl
  step-effort caller_wake p turn = absurd turn
