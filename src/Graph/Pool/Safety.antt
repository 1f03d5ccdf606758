-- ===== src/Graph/Pool/Safety.antt =====
-- Whatever the interleaving, a round on the pool leaves what its chunks give one after the other.
use po_se_memory_wiping.Prelude.{
  ℕ, suc, ◌+◌, ◌≤◌, ◌≡◌, refl, sym, ap, ap₂, ◌∙◌, Bool, true, false, ltb, leb, if◌then◌else◌,
  Option, List, [], ◌∷◌, All, arith,
}
use po_se_memory_wiping.Label.{Bytes, Algo, NodeHash}
use po_se_memory_wiping.Graph.Region.{ChunkArg}
use po_se_memory_wiping.Graph.Pool.{
  Slot, Caller, labelling, locking, sleeping, joining, through, Pool, wake_caller, Event,
  worker_turn, spurious_wake, caller_turn, caller_wake, work, turn_at, count_done, caller_step,
  step, run_events,
}
use po_se_memory_wiping.Graph.Pool.Round.{
  IsIdle, pending, pending_idle, code, written_by, HaveChunks, written, Commute, AllCommute, Turned,
  goes_on, finishes, turned_at, turn_at-HaveChunks, wake_at-HaveChunks,
}

abbrev is_cons : List ChunkArg → Bool
is_cons [] = false
is_cons (a ∷ jobs) = true

-- No round is under way: the workers are idle and the counters agree.
pub record IsQuiet (p : Pool) : Type 0 where
  pub open_for_work : p.shutdown ≡ false
  pub idle : All IsIdle p.slots
  pub counted : p.n_done ≡ p.n_expected

module _ (h : NodeHash) (session_seed : Bytes) (offset : ℕ) (algo : Algo) (scratch : ℕ → ℕ → Bytes)
    (jobs : List ChunkArg) (own : ChunkArg) (old : ℕ → Bytes) where
  abbrev done_by_workers : List Slot → ℕ → Bytes
  done_by_workers slots = written h session_seed offset algo scratch jobs slots old

  abbrev OwnDone : Pool → Type 0
  OwnDone p =
      (p.region ≡ written_by h session_seed offset algo scratch own (done_by_workers p.slots))
      × (p.own_rc ≡ code h session_seed offset algo scratch own)

  -- What holds of the region where the calling thread is.
  abbrev pub StandsAt : Caller → Pool → Type 0
  StandsAt (labelling many a) p =
      (a ≡ own) × (many ≡ is_cons jobs) × (p.region ≡ done_by_workers p.slots)
  StandsAt locking p = OwnDone p
  StandsAt sleeping p = OwnDone p × (1 ≤ pending p.slots)
  StandsAt joining p = ⊥
  StandsAt through p = OwnDone p × (pending p.slots ≡ 0)

  -- A round is under way.
  pub record IsRunning (p : Pool) : Type 0 where
    pub open_for_work : p.shutdown ≡ false
    pub have : HaveChunks h session_seed offset algo scratch jobs p.slots
    pub counted : p.n_done + pending p.slots ≡ p.n_expected
    pub stands : StandsAt p.caller p

  -- The slots change, but no chunk is finished.
  same_region :
      (c : Caller) (p : Pool) (slots : List Slot)
      → pending slots ≡ pending p.slots
      → done_by_workers slots ≡ done_by_workers p.slots
      → StandsAt c p
      → StandsAt c (record p { slots = slots })
  same_region (labelling many a) p slots n w s = (s.0, s.1, s.2 ∙ sym w)
  same_region locking p slots n w s =
      (s.0 ∙ ap (written_by h session_seed offset algo scratch own) (sym w), s.1)
  same_region sleeping p slots n w s =
      ((s.0.0 ∙ ap (written_by h session_seed offset algo scratch own) (sym w), s.0.1), omega arith)
  same_region joining p slots n w s = absurd s
  same_region through p slots n w s =
      ((s.0.0 ∙ ap (written_by h session_seed offset algo scratch own) (sym w), s.0.1), omega arith)

  slots-IsRunning :
      (p : Pool) (slots : List Slot)
      → HaveChunks h session_seed offset algo scratch jobs slots
      → pending slots ≡ pending p.slots
      → done_by_workers slots ≡ done_by_workers p.slots
      → IsRunning p
      → IsRunning (record p { slots = slots })
  slots-IsRunning p slots have n w r = record {
    open_for_work = r.open_for_work;
    have = have;
    counted = ap (λ k. p.n_done + k) n ∙ r.counted;
    stands = same_region p.caller p slots n w r.stands;
  }

  -- A worker has written its chunk: `full` says that the count has reached `n_expected`.
  after_chunk :
      (c : Caller) (p q : Pool) (a : ChunkArg) (full : Bool)
      → Commute h session_seed offset algo scratch own a
      → pending p.slots ≡ suc (pending q.slots)
      → done_by_workers q.slots
        ≡ written_by h session_seed offset algo scratch a (done_by_workers p.slots)
      → q.region ≡ written_by h session_seed offset algo scratch a p.region
      → q.own_rc ≡ p.own_rc
      → (full ≡ false → 1 ≤ pending q.slots)
      → StandsAt c p
      → StandsAt (if full then wake_caller c else c) q
  after_chunk c p q a full commute n w region rc more = at c full more
    where
      also : OwnDone p → OwnDone q
      also o = (
        region
            ∙ ap (written_by h session_seed offset algo scratch a) o.0
            ∙ commute (done_by_workers p.slots)
            ∙ ap (written_by h session_seed offset algo scratch own) (sym w),
        rc ∙ o.1,
      )

      at :
          (c : Caller) (full : Bool)
          → (full ≡ false → 1 ≤ pending q.slots)
          → StandsAt c p
          → StandsAt (if full then wake_caller c else c) q
      at (labelling many b) true more s =
          (s.0, s.1, region ∙ ap (written_by h session_seed offset algo scratch a) s.2 ∙ sym w)
      at (labelling many b) false more s =
          (s.0, s.1, region ∙ ap (written_by h session_seed offset algo scratch a) s.2 ∙ sym w)
      at locking true more s = also s
      at locking false more s = also s
      at sleeping true more s = also s.0
      at sleeping false more s = (also s.0, more refl)
      at joining full more s = absurd s
      at through full more s = absurd (omega (arith, s.1))

  count_done-IsRunning :
      (p : Pool) (result : List Slot × Option ChunkArg)
      → IsRunning p
      → HaveChunks h session_seed offset algo scratch jobs result.0
      → Turned h session_seed offset algo scratch
          (Commute h session_seed offset algo scratch own)
          jobs
          p.slots
          result
      → IsRunning
          (count_done h session_seed offset algo scratch result.1 (record p { slots = result.0 }))
  count_done-IsRunning p result r have (goes_on e n w) =
      rw e (slots-IsRunning p result.0 have n (w old) r)
  count_done-IsRunning p result r have (finishes a e commute n w) = rw e (record {
    open_for_work = r.open_for_work;
    have = have;
    counted = omega (arith, r.counted);
    stands =
        after_chunk p.caller p _ a (leb p.n_expected (p.n_done + 1)) commute n (w old) refl refl
          (λ short. omega (arith, r.counted, short_lem short)) r.stands;
  })
    where
      short_lem : leb p.n_expected (p.n_done + 1) ≡ false → p.n_done + 2 ≤ p.n_expected
      short_lem short = ground arith

  module _
      (codes : (a : ChunkArg) (r : ℕ → Bytes)
        → (work h session_seed offset algo scratch a r).1
          ≡ code h session_seed offset algo scratch a) where
    -- The calling thread goes on only when it may.
    caller_step-IsRunning :
        (c : Caller) (p : Pool)
        → p.caller ≡ c
        → IsRunning p
        → StandsAt c p
        → IsRunning (caller_step h session_seed offset algo scratch c p)
    caller_step-IsRunning (labelling many a) p at r s = record {
      open_for_work = r.open_for_work;
      have = r.have;
      counted = r.counted;
      stands = own_done many s.1;
    }
      where
        finished : OwnDone (caller_step h session_seed offset algo scratch (labelling many a) p)
        finished = (
          ap₂ (written_by h session_seed offset algo scratch) s.0 s.2,
          codes a p.region ∙ ap (code h session_seed offset algo scratch) s.0,
        )

        alone :
            (jobs' : List ChunkArg)
            → false ≡ is_cons jobs'
            → HaveChunks h session_seed offset algo scratch jobs' p.slots
            → pending p.slots ≡ 0
        alone [] e have = pending_idle p.slots have
        alone (b ∷ jobs') e have = absurd cc

        own_done :
            (many : Bool)
            → many ≡ is_cons jobs
            → StandsAt
                (if many then locking else through)
                (caller_step h session_seed offset algo scratch (labelling many a) p)
        own_done true e = finished
        own_done false e = (finished, alone jobs e r.have)
    caller_step-IsRunning locking p at r s = record {
      open_for_work = r.open_for_work;
      have = r.have;
      counted = r.counted;
      stands = tested (ltb p.n_done p.n_expected) refl;
    }
      where
        tested :
            (b : Bool)
            → ltb p.n_done p.n_expected ≡ b
            → StandsAt
                (if b then sleeping else through)
                (record p { caller = if b then sleeping else through })
        tested true e = (s, ground (arith, r.counted))
        tested false e = (s, ground (arith, r.counted))
    caller_step-IsRunning sleeping p at r s = r
    caller_step-IsRunning joining p at r s = absurd s
    caller_step-IsRunning through p at r s = r

    woken :
        (c c' : Caller) (p : Pool)
        → StandsAt c p
        → StandsAt (wake_caller c) (record p { caller = c' })
    woken (labelling many a) c' p s = s
    woken locking c' p s = s
    woken sleeping c' p s = s.0
    woken joining c' p s = s
    woken through c' p s = s

    pub step-IsRunning :
        AllCommute h session_seed offset algo scratch (own ∷ jobs)
        → (e : Event) (p : Pool) → IsRunning p
        → IsRunning (step h session_seed offset algo scratch e p)
    unfolding step
    step-IsRunning c (worker_turn i) p r =
        count_done-IsRunning p
          (turn_at h session_seed offset algo scratch p.shutdown p.region i p.slots) r
          (rw r.open_for_work turned.0) (rw r.open_for_work turned.1)
      where
        turned :
            HaveChunks h session_seed offset algo scratch jobs
              (turned_at h session_seed offset algo scratch p.region i p.slots).0
            × Turned h session_seed offset algo scratch
                (Commute h session_seed offset algo scratch own)
                jobs
                p.slots
                (turned_at h session_seed offset algo scratch p.region i p.slots)
        turned =
            turn_at-HaveChunks h session_seed offset algo scratch
              (Commute h session_seed offset algo scratch own) jobs p.slots p.region i codes c.1 c.0
              r.have
    step-IsRunning c (spurious_wake i) p r =
        let woke = wake_at-HaveChunks h session_seed offset algo scratch jobs p.slots i r.have in
        slots-IsRunning p _ woke.0 woke.1 (woke.2 old) r
    step-IsRunning c caller_turn p r = caller_step-IsRunning p.caller p refl r r.stands
    step-IsRunning c caller_wake p r = record {
      open_for_work = r.open_for_work;
      have = r.have;
      counted = r.counted;
      stands = woken p.caller (wake_caller p.caller) p r.stands;
    }

    pub run_events-IsRunning :
        AllCommute h session_seed offset algo scratch (own ∷ jobs)
        → (events : List Event) (p : Pool) → IsRunning p
        → IsRunning (run_events h session_seed offset algo scratch events p)
    unfolding run_events
    run_events-IsRunning c [] p r = r
    run_events-IsRunning c (e ∷ events) p r =
        run_events-IsRunning c events _ (step-IsRunning c e p r)
