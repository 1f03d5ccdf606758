-- ===== src/Graph/Pool/Interleaving.antt =====
-- Every interleaving of a round: what it computes, and that it ends.
use po_se_memory_wiping.Prelude.{
  ℕ, zero, suc, ◌+◌, ◌-◌, ◌≤◌, ◌<◌, ◌≡◌, refl, sym, ap, ◌∙◌, ◌⊎◌, inl, inr, true, false, ltb,
  if◌then◌else◌, none, some, List, [], ◌∷◌, ◌++◌, length, length-append, All, arith,
}
use mathlib.Core.Path.{subst}
use po_se_memory_wiping.Label.{Bytes, Algo, NodeHash}
use po_se_memory_wiping.Graph.Region.{ChunkArg, Labelling, region_threads, next_chunks, run_pooled}
use po_se_memory_wiping.Graph.Region.Apart.{
  IsApart, chunk_thread_code, chunk_thread-commute, next_chunks-IsApart,
}
use po_se_memory_wiping.Graph.Pool.{
  Slot, slot, ready, waiting, exited, running, Caller, labelling, locking, sleeping, joining,
  through, Pool, dispatch, round_code, Event, worker_turn, caller_turn, work, turn_at, step,
  run_events,
}
use po_se_memory_wiping.Graph.Pool.Round.{
  code, HaveChunks, Commute, AllCommute, pending, pending_idle,
}
use po_se_memory_wiping.Graph.Pool.Safety.{
  IsQuiet, IsRunning, StandsAt, step-IsRunning, run_events-IsRunning,
}
use po_se_memory_wiping.Graph.Pool.Through.{dispatch-IsRunning, through_lem}
use po_se_memory_wiping.Graph.Pool.Progress.{
  slots_effort, pool_effort, pool_effort-bound, step-effort,
}
use po_se_memory_wiping.Graph.Pool.Workers.{count_done-slots, length-run_events, length-dispatch}
use po_se_memory_wiping.Graph.Pool.Sweeps.{IsSweep, IsDue, run_sweeps, enough_sweeps}

module _ (h : NodeHash) (session_seed : Bytes) (offset : ℕ) (algo : Algo)
    (scratch : ℕ → ℕ → Bytes) where
  IsApart-AllCommute :
      (jobs : List ChunkArg) (own : ChunkArg)
      → IsApart (jobs ++ own ∷ [])
      → AllCommute h session_seed offset algo scratch (own ∷ jobs)
  IsApart-AllCommute jobs own apart = (with_own jobs apart, each jobs apart)
    where
      with_own :
          (jobs : List ChunkArg)
          → IsApart (jobs ++ own ∷ [])
          → All (Commute h session_seed offset algo scratch own) jobs
      with_own [] apart = tt
      with_own (a ∷ jobs) apart = (
        λ r.
            sym (
              chunk_thread-commute h session_seed offset algo scratch a own r
                (before jobs apart.0)),
        with_own jobs apart.1,
      )
        where
          before :
              (jobs : List ChunkArg)
              → All (λ (b : ChunkArg). a.out + a.m ≤ b.out) (jobs ++ own ∷ [])
              → a.out + a.m ≤ own.out
          before [] all = all.0
          before (b ∷ jobs) all = before jobs all.1

      all_commute :
          (a : ChunkArg) (jobs : List ChunkArg)
          → All (λ (b : ChunkArg). a.out + a.m ≤ b.out) (jobs ++ own ∷ [])
          → All (Commute h session_seed offset algo scratch a) jobs
      all_commute a [] all = tt
      all_commute a (b ∷ jobs) all = (
        λ r. chunk_thread-commute h session_seed offset algo scratch a b r all.0,
        all_commute a jobs all.1,
      )

      each :
          (jobs : List ChunkArg)
          → IsApart (jobs ++ own ∷ [])
          → AllCommute h session_seed offset algo scratch jobs
      each [] apart = tt
      each (a ∷ jobs) apart = (all_commute a jobs apart.0, each jobs apart.1)

  -- A worker with a chunk can go on.
  busy :
      (jobs : List ChunkArg) (slots : List Slot) (region : ℕ → Bytes)
      → HaveChunks h session_seed offset algo scratch jobs slots
      → 1 ≤ pending slots
      → (i : ℕ) × (i < length jobs)
        × (slots_effort (turn_at h session_seed offset algo scratch false region i slots).0
            < slots_effort slots)
  busy [] slots region have more = absurd (omega (arith, pending_idle slots have))
  busy (a ∷ jobs) [] region have more = absurd have
  busy (a ∷ jobs) (slot none ready rc ∷ slots) region have more =
      let next = busy jobs slots region have.1 (omega arith) in
      (suc next.0, omega (arith, next.1), omega (arith, next.2))
  busy (a ∷ jobs) (slot none waiting rc ∷ slots) region have more =
      let next = busy jobs slots region have.1 (omega arith) in
      (suc next.0, omega (arith, next.1), omega (arith, next.2))
  busy (a ∷ jobs) (slot none exited rc ∷ slots) region have more = absurd have.0
  busy (a ∷ jobs) (slot none (running b) rc ∷ slots) region have more =
      (zero, omega arith, omega arith)
  busy (a ∷ jobs) (slot (some b) ready rc ∷ slots) region have more =
      (zero, omega arith, omega arith)
  busy (a ∷ jobs) (slot (some b) waiting rc ∷ slots) region have more = absurd have.0
  busy (a ∷ jobs) (slot (some b) exited rc ∷ slots) region have more = absurd have.0
  busy (a ∷ jobs) (slot (some b) (running d) rc ∷ slots) region have more = absurd have.0

  -- A turn that has an effect on the slots makes progress.
  pub turn_due :
      (p : Pool) (i : ℕ)
      → slots_effort (turn_at h session_seed offset algo scratch p.shutdown p.region i p.slots).0
        < slots_effort p.slots
      → pool_effort (step h session_seed offset algo scratch (worker_turn i) p) < pool_effort p
  unfolding step
  turn_due p i less = elim (step-effort h session_seed offset algo scratch (worker_turn i) p tt) [
    | inl same ↦ absurd (
        omega (
          arith,
          ap slots_effort (
              sym (
                count_done-slots h session_seed offset algo scratch
                  (turn_at h session_seed offset algo scratch p.shutdown p.region i p.slots).1
                  (record p {
                    slots =
                        (turn_at h session_seed offset algo scratch p.shutdown p.region i
                          p.slots).0;
                  }))
              ∙ ap (λ (q : Pool). q.slots) same),
        ))
    | inr progress ↦ progress
  ]

  -- Until the calling thread is through, some turn of a sweep makes progress.
  round-IsDue :
      (jobs : List ChunkArg) (own : ChunkArg) (old : ℕ → Bytes) (c : Caller) (p : Pool)
      → p.caller ≡ c
      → IsRunning h session_seed offset algo scratch jobs own old p
      → StandsAt h session_seed offset algo scratch jobs own old c p
      → (c ≡ through)
        ⊎ ((e : Event) × IsDue (length jobs) e
            × (pool_effort (step h session_seed offset algo scratch e p) < pool_effort p))
  unfolding step
  round-IsDue jobs own old (labelling true a) p at r s = inr (caller_turn, tt, rw at (omega arith))
  round-IsDue jobs own old (labelling false a) p at r s = inr (caller_turn, tt, rw at (omega arith))
  round-IsDue jobs own old locking p at r s = inr (
    caller_turn,
    tt,
    rw at
        (elim (ltb p.n_done p.n_expected)
          as (λ b.
            pool_effort (record p { caller = if b then sleeping else through })
            < 1 + slots_effort p.slots) [ true ↦ omega arith | false ↦ omega arith ]),
  )
  round-IsDue jobs own old sleeping p at r s =
      let next = busy jobs p.slots p.region r.have s.1 in
      inr (worker_turn next.0, next.1, turn_due p next.0 (rw r.open_for_work next.2))
  round-IsDue jobs own old joining p at r s = absurd s
  round-IsDue jobs own old through p at r s = inl refl

  module _ (chunk_blocks total_blocks block : ℕ) (jobs : List ChunkArg) (own : ChunkArg)
      (p : Pool) where
    -- The chunks that `pose_graph_label_region_pooled` takes at `block`.
    abbrev chunks : List ChunkArg
    chunks =
        (next_chunks h session_seed offset algo scratch chunk_blocks total_blocks region_threads
          block).0

    module _ (round : chunks ≡ jobs ++ own ∷ []) (workers : length p.slots ≡ region_threads - 1)
        (quiet : IsQuiet p) (events : List Event) where
      abbrev pub pool_after : Pool
      pool_after = run_events h session_seed offset algo scratch events (dispatch jobs own p)

      apart : IsApart (jobs ++ own ∷ [])
      apart =
          subst IsApart round
            (next_chunks-IsApart h session_seed offset algo scratch chunk_blocks total_blocks
              region_threads block).0

      few : length jobs ≤ length p.slots
      few = omega (
        arith,
        (next_chunks-IsApart h session_seed offset algo scratch chunk_blocks total_blocks
            region_threads block).2,
        ap length round,
        length-append jobs (own ∷ []),
      )

      codes :
          (a : ChunkArg) (r : ℕ → Bytes)
          → (work h session_seed offset algo scratch a r).1
            ≡ code h session_seed offset algo scratch a
      codes a r = chunk_thread_code h session_seed offset algo scratch a r (λ i. [])

      all_commute : AllCommute h session_seed offset algo scratch (own ∷ jobs)
      all_commute = IsApart-AllCommute jobs own apart

      after-IsRunning : IsRunning h session_seed offset algo scratch jobs own p.region pool_after
      after-IsRunning =
          run_events-IsRunning h session_seed offset algo scratch jobs own p.region codes
            all_commute events (dispatch jobs own p)
            (dispatch-IsRunning h session_seed offset algo scratch jobs own p few quiet)

      -- A round of `pose_graph_label_region_pooled` on a quiet pool of three workers: after any
      -- interleaving of the threads, with any spurious wake-ups, in which the calling thread has got
      -- through the round, the region and the code are those of the chunks run one after the other,
      -- and the pool is quiet again.
      pub run_events-dispatch :
          pool_after.caller ≡ through
          → ◌≡◌ {A = Labelling}
              (pool_after.region, round_code (length jobs) pool_after.slots pool_after.own_rc)
              (run_pooled h session_seed offset algo scratch chunks p.region)
            × IsQuiet pool_after
      run_events-dispatch at =
          let end =
            through_lem h session_seed offset algo scratch codes jobs own p.region pool_after
              after-IsRunning at in
          (
            end.0
                ∙ ap (λ args. run_pooled h session_seed offset algo scratch args p.region)
                    (sym round),
            end.1,
          )

      -- A round of `pose_graph_label_region_pooled` on a quiet pool of three workers, after any
      -- interleaving of the threads with any spurious wake-ups: no wake-up has been lost, for after at
      -- most 17 sweeps more, in each of which every worker that was given a chunk and the calling thread
      -- get a turn, the calling thread has got through the round.
      pub run_sweeps-dispatch :
          (sweeps : List (List Event))
          → All (IsSweep (length jobs)) sweeps
          → 17 ≤ length sweeps
          → (run_sweeps h session_seed offset algo scratch sweeps pool_after).caller ≡ through
      run_sweeps-dispatch sweeps fair enough =
          enough_sweeps h session_seed offset algo scratch (length jobs)
            (IsRunning h session_seed offset algo scratch jobs own p.region)
            (step-IsRunning h session_seed offset algo scratch jobs own p.region codes all_commute)
            (λ q r. round-IsDue jobs own p.region q.caller q refl r r.stands) sweeps pool_after fair
            after-IsRunning
            (omega (
              arith,
              pool_effort-bound pool_after,
              workers,
              length-run_events h session_seed offset algo scratch events (dispatch jobs own p),
              length-dispatch jobs own p,
            ))
