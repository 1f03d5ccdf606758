-- ===== src/Graph/Pool/Workers.antt =====
-- The number of workers never changes.
use po_se_memory_wiping.Prelude.{
  ℕ, zero, suc, ◌≡◌, refl, ap, ◌∙◌, Option, none, some, List, [], ◌∷◌, length,
}
use po_se_memory_wiping.Label.{Bytes, Algo, NodeHash}
use po_se_memory_wiping.Graph.Region.{ChunkArg}
use po_se_memory_wiping.Graph.Pool.{
  Slot, slot, Caller, labelling, locking, sleeping, joining, through, Pool, wake_all, set_jobs,
  dispatch, Event, worker_turn, spurious_wake, caller_turn, caller_wake, wake_at, turn_at,
  count_done, caller_step, step, run_events,
}

pub length-wake_all : (slots : List Slot) → length (wake_all slots) ≡ length slots
length-wake_all [] = refl
length-wake_all (s ∷ slots) = ap suc (length-wake_all slots)

length-wake_at : (i : ℕ) (slots : List Slot) → length (wake_at i slots) ≡ length slots
length-wake_at i [] = refl
length-wake_at zero (s ∷ slots) = refl
length-wake_at (suc i) (s ∷ slots) = ap suc (length-wake_at i slots)

length-set_jobs :
    (jobs : List ChunkArg) (slots : List Slot) → length (set_jobs jobs slots) ≡ length slots
length-set_jobs [] slots = refl
length-set_jobs (a ∷ jobs) [] = refl
length-set_jobs (a ∷ jobs) (slot job w rc ∷ slots) = ap suc (length-set_jobs jobs slots)

pub length-dispatch :
    (jobs : List ChunkArg) (own : ChunkArg) (p : Pool)
    → length (dispatch jobs own p).slots ≡ length p.slots
length-dispatch [] own p = refl
length-dispatch (a ∷ jobs) own p =
    length-wake_all (set_jobs (a ∷ jobs) p.slots) ∙ length-set_jobs (a ∷ jobs) p.slots

module _ (h : NodeHash) (session_seed : Bytes) (offset : ℕ) (algo : Algo)
    (scratch : ℕ → ℕ → Bytes) where
  pub length-turn_at :
      (i : ℕ) (p : Pool) (slots : List Slot)
      → length (turn_at h session_seed offset algo scratch p.shutdown p.region i slots).0
        ≡ length slots
  length-turn_at i p [] = refl
  length-turn_at zero p (s ∷ slots) = refl
  length-turn_at (suc i) p (s ∷ slots) = ap suc (length-turn_at i p slots)

  pub count_done-slots :
      (o : Option ChunkArg) (q : Pool)
      → (count_done h session_seed offset algo scratch o q).slots ≡ q.slots
  count_done-slots none q = refl
  count_done-slots (some a) q = refl

  caller_step-slots :
      (c : Caller) (q : Pool) → (caller_step h session_seed offset algo scratch c q).slots ≡ q.slots
  caller_step-slots (labelling many a) q = refl
  caller_step-slots locking q = refl
  caller_step-slots sleeping q = refl
  caller_step-slots joining q = refl
  caller_step-slots through q = refl

  pub length-step :
      (e : Event) (p : Pool)
      → length (step h session_seed offset algo scratch e p).slots ≡ length p.slots
  unfolding step
  length-step (worker_turn i) p =
      let now = turn_at h session_seed offset algo scratch p.shutdown p.region i p.slots in
      ap length (count_done-slots now.1 (record p { slots = now.0 })) ∙ length-turn_at i p p.slots
  length-step (spurious_wake i) p = length-wake_at i p.slots
  length-step caller_turn p = ap length (caller_step-slots p.caller p)
  length-step caller_wake p = refl

  pub length-run_events :
      (events : List Event) (p : Pool)
      → length (run_events h session_seed offset algo scratch events p).slots ≡ length p.slots
  unfolding run_events
  length-run_events [] p = refl
  length-run_events (e ∷ events) p =
      length-run_events events (step h session_seed offset algo scratch e p) ∙ length-step e p
