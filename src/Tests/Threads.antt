-- ===== src/Tests/Threads.antt =====
-- The thread pool of graph.c on concrete schedules.
use mathlib.Core.List.{Memᴰ}
use po_se_memory_wiping.Prelude.{
  ℕ, zero, suc, ◌-◌, ◌≤◌, ◌<◌, ◌≡◌, refl, true, false, ◌==◌, none, List, [], ◌∷◌, length, All,
  arith,
}
use po_se_memory_wiping.Label.{Bytes, blake3, NodeHash, label_each}
use po_se_memory_wiping.Graph.Chunk.{done}
use po_se_memory_wiping.Graph.Region.{ChunkArg, Labelling, region_threads, next_chunks, run_pooled}
use po_se_memory_wiping.Graph.Pool.{
  slot, ready, waiting, through, Pool, dispatch, round_code, all_exited, pool_destroy, created,
  torn_down, pool_create, Event, worker_turn, spurious_wake, caller_turn, caller_wake, step,
  run_events,
}
use po_se_memory_wiping.Graph.Pool.Round.{IsIdle}
use po_se_memory_wiping.Graph.Pool.Safety.{IsQuiet}
use po_se_memory_wiping.Graph.Pool.Sweeps.{IsSweep, run_sweeps}
use po_se_memory_wiping.Graph.Pool.Interleaving.{run_events-dispatch, run_sweeps-dispatch}
use po_se_memory_wiping.Graph.Pool.Life.{run_sweeps-pool_destroy}
use po_se_memory_wiping.Graph.Pool.Create.{pool_create-IsQuiet, pool_create-failed}

abbrev hash : NodeHash
hash = record {
  label_node = λ source id p0 p1 seed desc algo. id ∷ [];
  label_node_many = label_each (λ source id p0 p1 seed desc algo. id ∷ []);
  graph_descriptor = λ m n. m ∷ n ∷ [];
  chunk_seed = λ seed i. i ∷ seed;
  label_node_many-eq-label_each = λ source ids p0s p1s seed desc algo le. refl;
}

abbrev dirty : ℕ → ℕ → Bytes
dirty at id = 9 ∷ []

abbrev blank : ℕ → Bytes
blank b = []

abbrev pool : Pool
pool = record {
  slots = slot none waiting (done tt) ∷ slot none ready (done tt) ∷ slot none ready (done tt) ∷ [];
  n_done = 0;
  n_expected = 0;
  shutdown = false;
  caller = through;
  own_rc = done tt;
  region = blank;
}

pool-IsQuiet : IsQuiet pool
pool-IsQuiet = record { open_for_work = refl; idle = (tt, (tt, (tt, tt))); counted = refl }

-- A region of five blocks in chunks of two.
abbrev chunk : ℕ → ℕ → ℕ → ChunkArg
chunk k m out = record { cseed = k ∷ []; m = m; out = out; algo = blake3; inplace = false }

abbrev jobs : List ChunkArg
jobs = chunk 0 2 0 ∷ chunk 1 2 2 ∷ []

abbrev own : ChunkArg
own = chunk 2 1 4

three_chunks :
    (next_chunks hash [] 0 blake3 dirty 2 5 region_threads 0).0
    ≡ chunk 0 2 0 ∷ chunk 1 2 2 ∷ chunk 2 1 4 ∷ []
unfolding next_chunks
three_chunks = refl

-- The second worker is first, and the calling thread waits in between.
abbrev schedule : List Event
schedule =
    worker_turn 1
    ∷ caller_turn
    ∷ spurious_wake 0
    ∷ worker_turn 1
    ∷ caller_turn
    ∷ worker_turn 0
    ∷ caller_wake
    ∷ caller_turn
    ∷ worker_turn 0
    ∷ caller_turn
    ∷ []

got_through : (run_events hash [] 0 blake3 dirty schedule (dispatch jobs own pool)).caller ≡ through
unfolding run_events step
got_through = refl

run_events-dispatch_example :
    ◌≡◌ {A = Labelling}
      (
        (run_events hash [] 0 blake3 dirty schedule (dispatch jobs own pool)).region,
        round_code 2
            (run_events hash [] 0 blake3 dirty schedule (dispatch jobs own pool)).slots
            (run_events hash [] 0 blake3 dirty schedule (dispatch jobs own pool)).own_rc,
      )
      (run_pooled hash [] 0 blake3 dirty
        (next_chunks hash [] 0 blake3 dirty 2 5 region_threads 0).0
        blank)
    × IsQuiet (run_events hash [] 0 blake3 dirty schedule (dispatch jobs own pool))
run_events-dispatch_example =
    run_events-dispatch hash [] 0 blake3 dirty 2 5 0 jobs own pool three_chunks refl pool-IsQuiet
      schedule got_through

abbrev repeat : ℕ → List Event → List (List Event)
repeat zero sweep = []
repeat (suc n) sweep = sweep ∷ repeat n sweep

repeat-All : (n k : ℕ) (sweep : List Event) → IsSweep k sweep → All (IsSweep k) (repeat n sweep)
repeat-All zero k sweep fair = tt
repeat-All (suc n) k sweep fair = (fair, repeat-All n k sweep fair)

abbrev sweep : List Event
sweep = caller_turn ∷ worker_turn 2 ∷ worker_turn 1 ∷ worker_turn 0 ∷ []

sweep-IsSweep : (k : ℕ) → k ≤ 3 → IsSweep k sweep
sweep-IsSweep k le = record {
  turns = (tt, (tt, (tt, (tt, tt))));
  workers = has k le;
  caller = Memᴰ.head refl;
}
  where
    has : (k : ℕ) → k ≤ 3 → (i : ℕ) → i < k → Memᴰ (worker_turn i) sweep
    has k le zero lt = Memᴰ.tail (Memᴰ.tail (Memᴰ.tail (Memᴰ.head refl)))
    has k le (suc zero) lt = Memᴰ.tail (Memᴰ.tail (Memᴰ.head refl))
    has k le (suc (suc zero)) lt = Memᴰ.tail (Memᴰ.head refl)
    has k le (suc (suc (suc i))) lt = absurd (omega arith)

run_sweeps-dispatch_example :
    (run_sweeps hash [] 0 blake3 dirty
      (repeat 17 sweep)
      (run_events hash [] 0 blake3 dirty (worker_turn 1 ∷ []) (dispatch jobs own pool))).caller
    ≡ through
run_sweeps-dispatch_example =
    run_sweeps-dispatch hash [] 0 blake3 dirty 2 5 0 jobs own pool three_chunks refl pool-IsQuiet
      (worker_turn 1 ∷ []) (repeat 17 sweep) (repeat-All 17 2 sweep (sweep-IsSweep 2 (omega arith)))
      (omega arith)

run_sweeps-pool_destroy_example :
    ((run_sweeps hash [] 0 blake3 dirty (repeat 17 sweep) (pool_destroy pool)).caller ≡ through)
    × (all_exited (run_sweeps hash [] 0 blake3 dirty (repeat 17 sweep) (pool_destroy pool)).slots
        ≡ true)
run_sweeps-pool_destroy_example =
    run_sweeps-pool_destroy hash [] 0 blake3 dirty pool (repeat 17 sweep) (tt, (tt, (tt, tt)))
      (repeat-All 17 3 sweep (sweep-IsSweep 3 (omega arith))) (omega arith)

pool_create-IsQuiet_example :
    (p : Pool) × (pool_create true true (λ i. true) blank ≡ created p)
    × IsQuiet p
    × (length p.slots ≡ region_threads - 1)
pool_create-IsQuiet_example = pool_create-IsQuiet (λ i. true) blank (λ i. refl)

pool_create-failed_example :
    (p : Pool) × (pool_create true true (λ i. i == 0) blank ≡ torn_down (pool_destroy p))
    × All IsIdle p.slots
    × (length p.slots ≡ 1)
pool_create-failed_example =
    pool_create-failed (λ i. i == 0) blank 1 (omega arith) first_starts refl
  where
    first_starts : (j : ℕ) → j < 1 → (j == 0) ≡ true
    first_starts j less = ground arith
