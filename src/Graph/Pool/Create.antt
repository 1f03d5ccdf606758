-- ===== src/Graph/Pool/Create.antt =====
-- `pose_graph_pool_create`: a quiet pool of three workers, or none.
use po_se_memory_wiping.Prelude.{
  ℕ, zero, suc, ◌+◌, ◌-◌, ◌<◌, ◌≡◌, refl, sym, ap, ◌∙◌, inl, inr, Bool, true, false, if◌then◌else◌,
  Bool-cases, length, All, arith,
}
use po_se_memory_wiping.Label.{Bytes}
use po_se_memory_wiping.Graph.Chunk.{done}
use po_se_memory_wiping.Graph.Region.{region_threads}
use po_se_memory_wiping.Graph.Pool.{
  through, Pool, pool_destroy, create_workers, torn_down, created, pool_create,
}
use po_se_memory_wiping.Graph.Pool.Round.{IsIdle}
use po_se_memory_wiping.Graph.Pool.Safety.{IsQuiet}

create_workers-IsIdle : (launch : ℕ → Bool) (n i : ℕ) → All IsIdle (create_workers launch n i).0
create_workers-IsIdle launch zero i = tt
create_workers-IsIdle launch (suc n) i = elim (Bool-cases (launch i)) [
  | inl e ↦ rw e (tt, create_workers-IsIdle launch n (i + 1))
  | inr e ↦ rw e tt
]

create_workers-all :
    (launch : ℕ → Bool) (n i : ℕ)
    → ((j : ℕ) → launch j ≡ true)
    → ((create_workers launch n i).1 ≡ true) × (length (create_workers launch n i).0 ≡ n)
create_workers-all launch zero i ok = (refl, refl)
create_workers-all launch (suc n) i ok =
    let rest = create_workers-all launch n (i + 1) ok in rw (ok i) (rest.0, ap suc rest.1)

create_workers-failed :
    (launch : ℕ → Bool) (n i k : ℕ)
    → k < n
    → ((j : ℕ) → j < k → launch (i + j) ≡ true)
    → launch (i + k) ≡ false
    → ((create_workers launch n i).1 ≡ false) × (length (create_workers launch n i).0 ≡ k)
create_workers-failed launch zero i k lt before missing = absurd (omega arith)
create_workers-failed launch (suc n) i zero lt before missing =
    let here : i + zero ≡ i = omega arith in rw (sym (ap launch here) ∙ missing) (refl, refl)
create_workers-failed launch (suc n) i (suc k) lt before missing =
    let here : i + zero ≡ i = omega arith in
    let rest =
      create_workers-failed launch n (i + 1) k (omega arith)
        (λ j less. ap launch (shift j) ∙ before (suc j) (omega arith))
        (ap launch (shift k) ∙ missing) in
    rw (sym (ap launch here) ∙ before zero (omega arith)) (rest.0, ap suc rest.1)
  where
    shift : (j : ℕ) → i + 1 + j ≡ i + suc j
    shift j = omega arith

abbrev pool_of : (ℕ → Bool) → (ℕ → Bytes) → Pool
pool_of launch region = record {
  slots = (create_workers launch (region_threads - 1) 0).0;
  n_done = 0;
  n_expected = 0;
  shutdown = false;
  caller = through;
  own_rc = done tt;
  region = region;
}

-- If there is memory, the mutex and the conditions can be initialized and every worker can be
-- launched, `pose_graph_pool_create` gives a quiet pool of three workers.
pub pool_create-IsQuiet :
    (launch : ℕ → Bool) (region : ℕ → Bytes)
    → ((i : ℕ) → launch i ≡ true)
    → (p : Pool) × (pool_create true true launch region ≡ created p)
      × IsQuiet p
      × (length p.slots ≡ region_threads - 1)
pool_create-IsQuiet launch region ok =
    let all = create_workers-all launch (region_threads - 1) 0 ok in
    (
      pool_of launch region,
      ap
          (λ b.
            if b
            then created (pool_of launch region)
            else torn_down (pool_destroy (pool_of launch region)))
          all.0,
      record {
        open_for_work = refl;
        idle = create_workers-IsIdle launch (region_threads - 1) 0;
        counted = refl;
      },
      all.1,
    )

-- If worker `i` is the first of the three that cannot be launched, `pose_graph_pool_create` destroys, before it
-- returns NULL, the pool of the `i` workers that were launched before it, all of them idle.
pub pool_create-failed :
    (launch : ℕ → Bool) (region : ℕ → Bytes) (i : ℕ)
    → i < region_threads - 1
    → ((j : ℕ) → j < i → launch j ≡ true)
    → launch i ≡ false
    → (p : Pool) × (pool_create true true launch region ≡ torn_down (pool_destroy p))
      × All IsIdle p.slots
      × (length p.slots ≡ i)
pool_create-failed launch region i lt before missing =
    let failed =
      create_workers-failed launch (region_threads - 1) 0 i lt
        (λ j less. ap launch (omega arith) ∙ before j less) (ap launch (omega arith) ∙ missing) in
    (
      pool_of launch region,
      ap
          (λ b.
            if b
            then created (pool_of launch region)
            else torn_down (pool_destroy (pool_of launch region)))
          failed.0,
      create_workers-IsIdle launch (region_threads - 1) 0,
      failed.1,
    )
