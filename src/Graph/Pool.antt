-- ===== src/Graph/Pool.antt =====
-- The thread pool of graph.c: `pool_worker_fn`, `pose_graph_pool_create`, `pose_graph_pool_destroy`
-- and what a round of `pose_graph_label_region_pooled` does with the pool.
--
-- The mutex makes what a thread does between two waits one step. An event says which thread goes on,
-- so a list of events is an interleaving; a thread that is not ready to go on stays as it is. The
-- slot of worker `i` holds `jobs[i]`, where the worker is, and `args[i].rc`. A chunk is labelled at
-- the step that counts it as done: no other thread reads its blocks before.
pub mod Round
pub mod Safety
pub mod Through
pub mod Progress
pub mod Sweeps
pub mod Workers
pub mod Interleaving
pub mod Life
pub mod Create
use po_se_memory_wiping.Prelude.{
  ℕ, zero, suc, ◌+◌, ◌-◌, Bool, true, false, ltb, leb, if◌then◌else◌, Option, none, some, List, [],
  ◌∷◌, length,
}
use po_se_memory_wiping.Label.{Bytes, Algo, NodeHash}
use po_se_memory_wiping.Graph.Chunk.{Outcome, done}
use po_se_memory_wiping.Graph.Region.{
  ChunkArg, Labelling, first_error, chunk_thread, region_threads,
}

-- A worker is about to test its conditions, waits on `work_cond`, labels a chunk or has returned.
pub data Worker : Type 0 where
  ready waiting exited : Worker
  running : ChunkArg → Worker

pub data Slot : Type 0 where
  slot : Option ChunkArg → Worker → Outcome (Unit {0}) → Slot

-- The calling thread labels the last chunk (of several or not), is about to test `n_done`, waits on
-- `done_cond`, joins the workers, or has got through.
pub data Caller : Type 0 where
  labelling : Bool → ChunkArg → Caller
  locking sleeping joining through : Caller

-- `struct pose_graph_pool`, with the calling thread, the code of its chunk and the region.
pub record Pool : Type 0 where
  pub slots : List Slot
  pub n_done : ℕ
  pub n_expected : ℕ
  pub shutdown : Bool
  pub caller : Caller
  pub own_rc : Outcome (Unit {0})
  pub region : ℕ → Bytes

-- `pthread_cond_broadcast(&pool->work_cond)`
abbrev pub wake : Slot → Slot
wake (slot job waiting rc) = slot job ready rc
wake (slot job ready rc) = slot job ready rc
wake (slot job exited rc) = slot job exited rc
wake (slot job (running a) rc) = slot job (running a) rc

abbrev pub wake_all : List Slot → List Slot
wake_all [] = []
wake_all (s ∷ slots) = wake s ∷ wake_all slots

-- `pthread_cond_signal(&pool->done_cond)`
abbrev pub wake_caller : Caller → Caller
wake_caller sleeping = locking
wake_caller (labelling many a) = labelling many a
wake_caller locking = locking
wake_caller joining = joining
wake_caller through = through

-- `args[i].rc = 0` and `jobs[i] = &args[i]` for the first chunks.
abbrev pub set_jobs : List ChunkArg → List Slot → List Slot
set_jobs [] slots = slots
set_jobs (a ∷ jobs) [] = []
set_jobs (a ∷ jobs) (slot job w rc ∷ slots) = slot (some a) w (done tt) ∷ set_jobs jobs slots

-- `if (n > 1)`: the first chunks of a round go to the workers, the last to the calling thread.
abbrev pub dispatch : List ChunkArg → ChunkArg → Pool → Pool
dispatch [] own p = record p { caller = labelling false own; own_rc = done tt }
dispatch (a ∷ jobs) own p = record p {
  n_done = 0;
  n_expected = length (a ∷ jobs);
  slots = wake_all (set_jobs (a ∷ jobs) p.slots);
  caller = labelling true own;
  own_rc = done tt;
}

-- The tests of `pool_worker_fn`.
abbrev pub test_job : Bool → Option ChunkArg → Outcome (Unit {0}) → Slot
test_job true job rc = slot job exited rc
test_job false none rc = slot none waiting rc
test_job false (some a) rc = slot none (running a) rc

abbrev pub all_exited : List Slot → Bool
all_exited [] = true
all_exited (slot job exited rc ∷ slots) = all_exited slots
all_exited (slot job ready rc ∷ slots) = false
all_exited (slot job waiting rc ∷ slots) = false
all_exited (slot job (running a) rc ∷ slots) = false

-- The loop over `args[i].rc` after the round, for `n` workers and the calling thread.
abbrev pub round_code : ℕ → List Slot → Outcome (Unit {0}) → Outcome (Unit {0})
round_code zero slots own_rc = own_rc
round_code (suc n) [] own_rc = own_rc
round_code (suc n) (slot job w rc ∷ slots) own_rc = first_error rc (round_code n slots own_rc)

-- `pose_graph_pool_destroy`, up to the joins.
abbrev pub pool_destroy : Pool → Pool
pool_destroy p = record p { shutdown = true; slots = wake_all p.slots; caller = joining }

-- The loop of `pose_graph_pool_create`: the workers that could be launched, and whether all could.
abbrev pub create_workers : (ℕ → Bool) → ℕ → ℕ → List Slot × Bool
create_workers launch zero i = ([], true)
create_workers launch (suc n) i =
    let rest = create_workers launch n (i + 1) in
    if launch i then (slot none ready (done tt) ∷ rest.0, rest.1) else ([], false)

-- What `pose_graph_pool_create` comes to: a pool, a pool that it tears down before it returns NULL,
-- or NULL at once.
pub data Creation : Type 0 where
  created : Pool → Creation
  torn_down : Pool → Creation
  no_pool : Creation

-- `pose_graph_pool_create`. `memory` tells of `calloc`, `init` of the mutex and the conditions.
abbrev pub pool_create : Bool → Bool → (ℕ → Bool) → (ℕ → Bytes) → Creation
pool_create memory init launch region =
    let workers = create_workers launch (region_threads - 1) 0 in
    let pool : Pool = record {
      slots = workers.0;
      n_done = 0;
      n_expected = 0;
      shutdown = false;
      caller = through;
      own_rc = done tt;
      region = region;
    } in
    if memory
    then (if init
        then (if workers.1 then created pool else torn_down (pool_destroy pool))
        else no_pool)
    else no_pool

-- Worker `i` or the calling thread goes on, or wakes up spuriously.
pub data Event : Type 0 where
  worker_turn spurious_wake : ℕ → Event
  caller_turn caller_wake : Event

-- A wait of worker `i` may return at any time.
abbrev pub wake_at : ℕ → List Slot → List Slot
wake_at i [] = []
wake_at zero (s ∷ slots) = wake s ∷ slots
wake_at (suc i) (s ∷ slots) = s ∷ wake_at i slots

module _ (h : NodeHash) (session_seed : Bytes) (offset : ℕ) (algo : Algo)
    (scratch : ℕ → ℕ → Bytes) where
  abbrev pub work : ChunkArg → (ℕ → Bytes) → Labelling
  work = chunk_thread h session_seed offset algo scratch

  -- One turn of `pool_worker_fn`, with the chunk that it finished.
  abbrev pub turn : Bool → (ℕ → Bytes) → Slot → Slot × Option ChunkArg
  turn shutdown region (slot job ready rc) = (test_job shutdown job rc, none)
  turn shutdown region (slot job waiting rc) = (slot job waiting rc, none)
  turn shutdown region (slot job exited rc) = (slot job exited rc, none)
  turn shutdown region (slot job (running a) rc) = (test_job shutdown job (work a region).1, some a)

  abbrev pub turn_at : Bool → (ℕ → Bytes) → ℕ → List Slot → List Slot × Option ChunkArg
  turn_at shutdown region i [] = ([], none)
  turn_at shutdown region zero (s ∷ slots) =
      let now = turn shutdown region s in (now.0 ∷ slots, now.1)
  turn_at shutdown region (suc i) (s ∷ slots) =
      let rest = turn_at shutdown region i slots in (s ∷ rest.0, rest.1)

  -- `if (++pool->n_done >= pool->n_expected) pthread_cond_signal(&pool->done_cond);`
  abbrev pub count_done : Option ChunkArg → Pool → Pool
  count_done none p = p
  count_done (some a) p = record p {
    n_done = p.n_done + 1;
    region = (work a p.region).0;
    caller = if leb p.n_expected (p.n_done + 1) then wake_caller p.caller else p.caller;
  }

  -- The calling thread labels its chunk, tests `n_done`, or joins the workers.
  abbrev pub caller_step : Caller → Pool → Pool
  caller_step (labelling many a) p = record p {
    region = (work a p.region).0;
    own_rc = (work a p.region).1;
    caller = if many then locking else through;
  }
  caller_step locking p = record p {
    caller = if ltb p.n_done p.n_expected then sleeping else through;
  }
  caller_step sleeping p = p
  caller_step joining p = record p { caller = if all_exited p.slots then through else joining }
  caller_step through p = p

  unfoldable pub step : Event → Pool → Pool
  step (worker_turn i) p =
      let now = turn_at p.shutdown p.region i p.slots in
      count_done now.1 (record p { slots = now.0 })
  step (spurious_wake i) p = record p { slots = wake_at i p.slots }
  step caller_turn p = caller_step p.caller p
  step caller_wake p = record p { caller = wake_caller p.caller }

  unfoldable pub run_events : List Event → Pool → Pool
  run_events [] p = p
  run_events (e ∷ events) p = run_events events (step e p)
