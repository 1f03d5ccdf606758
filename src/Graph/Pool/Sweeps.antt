-- ===== src/Graph/Pool/Sweeps.antt =====
-- Fair schedules: in a sweep every thread gets a turn at least once.
use mathlib.Core.List.{Memᴰ}
use mathlib.Core.List.Memᴰ
use mathlib.Core.Path.{subst}
use po_se_memory_wiping.Prelude.{
  ℕ, ◌+◌, ◌≤◌, ◌<◌, ◌≡◌, refl, sym, ap, ◌∙◌, ◌⊎◌, inl, inr, true, false, leb, if◌then◌else◌, Option,
  none, some, List, [], ◌∷◌, length, All, arith,
}
use po_se_memory_wiping.Label.{Bytes, Algo, NodeHash}
use po_se_memory_wiping.Graph.Region.{ChunkArg}
use po_se_memory_wiping.Graph.Pool.{
  through, Pool, wake_caller, Event, worker_turn, spurious_wake, caller_turn, caller_wake, turn_at,
  count_done, caller_step, step, run_events,
}
use po_se_memory_wiping.Graph.Pool.Progress.{pool_effort, IsTurn, run', step-effort}

-- Only turns, with one of each of the first `n` workers and of the calling thread.
pub record IsSweep (n : ℕ) (events : List Event) : Type 0 where
  pub turns : All IsTurn events
  pub workers : (i : ℕ) → i < n → Memᴰ (worker_turn i) events
  pub caller : Memᴰ caller_turn events

-- A turn that a sweep contains.
abbrev pub IsDue : ℕ → Event → Type 0
IsDue n (worker_turn i) = i < n
IsDue n (spurious_wake i) = ⊥
IsDue n caller_turn = Unit
IsDue n caller_wake = ⊥

due_in_sweep :
    (n : ℕ) (events : List Event) (e : Event) → IsSweep n events → IsDue n e → Memᴰ e events
due_in_sweep n events (worker_turn i) s due = s.workers i due
due_in_sweep n events (spurious_wake i) s due = absurd due
due_in_sweep n events caller_turn s due = s.caller
due_in_sweep n events caller_wake s due = absurd due

module _ (h : NodeHash) (session_seed : Bytes) (offset : ℕ) (algo : Algo)
    (scratch : ℕ → ℕ → Bytes) where
  abbrev step' : Event → Pool → Pool
  step' = step h session_seed offset algo scratch

  abbrev pool_run : List Event → Pool → Pool
  pool_run = run' h session_seed offset algo scratch

  -- One sweep after the other.
  abbrev pub run_sweeps : List (List Event) → Pool → Pool
  run_sweeps [] p = p
  run_sweeps (sweep ∷ sweeps) p = run_sweeps sweeps (pool_run sweep p)

  -- Turns that change nothing can all be taken in the same state.
  run_events-effort :
      (events : List Event) (p : Pool)
      → All IsTurn events
      → ((pool_run events p ≡ p) × ((e : Event) → Memᴰ e events → step' e p ≡ p))
        ⊎ (pool_effort (pool_run events p) < pool_effort p)
  unfolding run_events
  run_events-effort [] p turns = inl (refl, λ e m. absurd (Memᴰ.not-nil m))
  run_events-effort (d ∷ events) p turns =
      elim (step-effort h session_seed offset algo scratch d p turns.0) [
        | inl same ↦ elim (run_events-effort events p turns.1) [
          | inl rest ↦ inl (ap (pool_run events) same ∙ rest.0, λ e m. both e m same rest.1)
          | inr less ↦
              inr (subst (λ x. pool_effort (pool_run events x) < pool_effort p) (sym same) less)
        ]
        | inr less ↦ elim (run_events-effort events (step' d p) turns.1) [
          | inl rest ↦ inr (rw rest.0 less)
          | inr less' ↦ inr (omega arith)
        ]
      ]
    where
      both :
          (e : Event)
          → Memᴰ e (d ∷ events)
          → step' d p ≡ p
          → ((e : Event) → Memᴰ e events → step' e p ≡ p)
          → step' e p ≡ p
      both e (Memᴰ.head q) same rest = ap (λ x. step' x p) q ∙ same
      both e (Memᴰ.tail m) same rest = rest e m

  -- Once the calling thread is through, it stays so.
  step-through : (e : Event) (p : Pool) → p.caller ≡ through → (step' e p).caller ≡ through
  unfolding step
  step-through (worker_turn i) p at =
      counted (turn_at h session_seed offset algo scratch p.shutdown p.region i p.slots).1 _ at
    where
      counted :
          (o : Option ChunkArg) (q : Pool)
          → q.caller ≡ through
          → (count_done h session_seed offset algo scratch o q).caller ≡ through
      counted none q at = at
      counted (some a) q at =
          rw at
            (elim (leb q.n_expected (q.n_done + 1))
              as (λ b. (if b then through else through) ≡ through) [ true ↦ refl | false ↦ refl ])
  step-through (spurious_wake i) p at = at
  step-through caller_turn p at =
      ap (λ c. (caller_step h session_seed offset algo scratch c p).caller) at ∙ at
  step-through caller_wake p at = ap wake_caller at

  run_events-through :
      (events : List Event) (p : Pool) → p.caller ≡ through → (pool_run events p).caller ≡ through
  unfolding run_events
  run_events-through [] p at = at
  run_events-through (e ∷ events) p at = run_events-through events (step' e p) (step-through e p at)

  run_sweeps-through :
      (sweeps : List (List Event)) (p : Pool)
      → p.caller ≡ through
      → (run_sweeps sweeps p).caller ≡ through
  run_sweeps-through [] p at = at
  run_sweeps-through (sweep ∷ sweeps) p at =
      run_sweeps-through sweeps (pool_run sweep p) (run_events-through sweep p at)

  pub run_events-Inv :
      (Inv : Pool → Type 0)
      → ((e : Event) (p : Pool) → Inv p → Inv (step' e p))
      → (events : List Event) (p : Pool) → Inv p
      → Inv (pool_run events p)
  unfolding run_events
  run_events-Inv Inv keep [] p inv = inv
  run_events-Inv Inv keep (e ∷ events) p inv =
      run_events-Inv Inv keep events (step' e p) (keep e p inv)

  -- If something is due in every state of an invariant until the calling thread is through, enough
  -- sweeps bring it through.
  pub enough_sweeps :
      (n : ℕ) (Inv : Pool → Type 0)
      → ((e : Event) (p : Pool) → Inv p → Inv (step' e p))
      → ((p : Pool)
          → Inv p
          → (p.caller ≡ through)
            ⊎ ((e : Event) × IsDue n e × (pool_effort (step' e p) < pool_effort p)))
      → (sweeps : List (List Event)) (p : Pool) → All (IsSweep n) sweeps
      → Inv p
      → pool_effort p ≤ length sweeps
      → (run_sweeps sweeps p).caller ≡ through
  enough_sweeps n Inv keep due [] p fair inv le = elim (due p inv) [
    | inl at ↦ at
    | inr next ↦ absurd (omega (arith, next.2))
  ]
  enough_sweeps n Inv keep due (sweep ∷ sweeps) p fair inv le =
      elim (run_events-effort sweep p fair.0.turns) [
        | inr less ↦
            enough_sweeps n Inv keep due sweeps (pool_run sweep p) fair.1
              (run_events-Inv Inv keep sweep p inv) (omega arith)
        | inl idle ↦ elim (due p inv) [
          | inl at ↦ run_sweeps-through (sweep ∷ sweeps) p at
          | inr next ↦
              absurd (stuck (idle.1 next.0 (due_in_sweep n sweep next.0 fair.0 next.1)) next.2)
        ]
      ]
    where
      stuck : {q : Pool} → q ≡ p → pool_effort q < pool_effort p → ⊥
      stuck same less = omega (arith, ap pool_effort same)
