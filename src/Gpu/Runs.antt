-- ===== src/Gpu/Runs.antt =====
-- The batches of `label_gpu_run`, from the allocation of the scratch to its clearing.
use mathlib.Core.Path.{subst}
use native.Mathlib.Decide.{dec_lt}
use native.Mathlib.Nat.{mul-le-mul_right}
use po_se_memory_wiping.Prelude.{
  ℕ, zero, suc, ◌+◌, ◌-◌, ◌*◌, ◌/◌, ◌^◌, ◌≤◌, ◌<◌, ◌≡◌, refl, sym, ap, ◌∙◌, ◌⊎◌, inl, inr, Bool,
  true, false, ltb, lt→ltb, le→ltb, ◌==◌, ==_iff, if◌then◌else◌, Bool-cases, none, some, min,
  get_or, arith,
}
use po_se_memory_wiping.Prelude.Words.{zeros}
use po_se_memory_wiping.Label.{Bytes, hash_bytes}
use po_se_memory_wiping.Graph.Chunk.{done}
use po_se_memory_wiping.Graph.Chunk.Output.{challenge_set}
use po_se_memory_wiping.Gpu.{Device}
use po_se_memory_wiping.Gpu.Driver.{
  CudaRuntime, first_pool, alloc_pool, clear_scratch, batch_chunks, run_batches, with_pool,
  run_pool,
}
use po_se_memory_wiping.Gpu.Chunks.{IsPersisted}

-- Allocation by halving comes to an end: if one region can be allocated, some number of them is.
pub alloc_pool_lem :
    (alloc : ℕ → Bool) (fuel pool : ℕ)
    → alloc 1 ≡ true
    → 1 ≤ pool
    → pool ≤ fuel
    → (n : ℕ) × (1 ≤ n) × (n ≤ pool) × (alloc_pool alloc fuel pool ≡ some n)
unfolding alloc_pool
alloc_pool_lem alloc zero pool one_fits pos le = absurd (omega arith)
alloc_pool_lem alloc (suc fuel) pool one_fits pos le = elim (Bool-cases (alloc pool)) [
  | inl e ↦ (pool, pos, omega arith, rw e refl)
  | inr e ↦ elim (Bool-cases (pool == 1)) [
    | inl single ↦ absurd (clash ((==_iff pool 1).0 single) e)
    | inr more ↦
        let rest = alloc_pool_lem alloc fuel (pool / 2) one_fits (half more) (omega arith) in
        (rest.0, rest.1, omega (arith, rest.2), rw (e, more) rest.3)
  ]
]
  where
    clash : pool ≡ 1 → alloc pool ≡ false → ⊥
    clash single e = wrong (sym one_fits ∙ ap alloc (sym single) ∙ e)
      where
        wrong : true ≡ false → ⊥
        wrong p = cc

    half : (pool == 1) ≡ false → 1 ≤ pool / 2
    half more = ground arith

pub first_pool_pos : (f r p n : ℕ) → 1 ≤ first_pool f r p n
unfolding first_pool
first_pool_pos f r p n = at_least (if ltb n (capped fitting) then n else capped fitting)
  where
    budget : ℕ
    budget = if ltb (64 * 2 ^ 20) f then f - 64 * 2 ^ 20 else 0

    fitting : ℕ
    fitting = if r == 0 then 0 else budget / r

    capped : ℕ → ℕ
    capped k = if ltb p k then p else k

    at_least : (k : ℕ) → 1 ≤ (if k == 0 then 1 else k)
    at_least zero = omega arith
    at_least (suc k) = ground arith

pub first_pool_le : (f r p n : ℕ) → 1 ≤ p → first_pool f r p n ≤ p
unfolding first_pool
first_pool_le f r p n pos = at_most (if ltb n (capped fitting) then n else capped fitting) needed
  where
    budget : ℕ
    budget = if ltb (64 * 2 ^ 20) f then f - 64 * 2 ^ 20 else 0

    fitting : ℕ
    fitting = if r == 0 then 0 else budget / r

    capped : ℕ → ℕ
    capped k = if ltb p k then p else k

    capped_le : (k : ℕ) → capped k ≤ p
    capped_le k = ground arith

    needed : (if ltb n (capped fitting) then n else capped fitting) ≤ p
    needed = pick (capped fitting) (capped_le fitting)
      where
        pick : (k : ℕ) → k ≤ p → (if ltb n k then n else k) ≤ p
        pick k le = ground arith

    at_most : (k : ℕ) → k ≤ p → (if k == 0 then 1 else k) ≤ p
    at_most zero le = pos
    at_most (suc k) le = ground arith

-- What a device that answers does: one region can be allocated, and no call fails.
pub record IsHealthy (cuda : CudaRuntime) : Type 0 where
  pub one_region : cuda.alloc 1 ≡ true
  pub seeds : cuda.alloc_seeds ≡ true
  pub no_crash : (base : ℕ) → cuda.crash base ≡ none
  pub clears : cuda.memset ≡ true

module _ (cb : ℕ) (labels : ℕ → ℕ → Bytes) where
  -- The chunks from `lo` to `hi` are persisted, and the rest of the region is that of `old`.
  pub record IsDone (lo hi : ℕ) (old persist : ℕ → Bytes) : Type 0 where
    pub label :
        (j r : ℕ)
        → lo ≤ j
        → j < hi
        → r < cb
        → persist (j * cb + r) ≡ labels j (get_or (challenge_set cb) r 0)
    pub others : (x : ℕ) → (x < lo * cb) ⊎ (hi * cb ≤ x) → persist x ≡ old x

  IsDone-none : (lo : ℕ) (old : ℕ → Bytes) → IsDone lo lo old old
  IsDone-none lo old = record { label = λ j r le lt. absurd (omega arith); others = λ x out. refl }

  IsDone-join :
      (lo mid hi : ℕ) (old between persist : ℕ → Bytes)
      → lo ≤ mid
      → mid ≤ hi
      → IsDone lo mid old between
      → IsDone mid hi between persist
      → IsDone lo hi old persist
  IsDone-join lo mid hi old between persist before after a b = record {
    label = λ j r le lt small. elim (dec_lt j mid) [
      | yes early ↦
          b.others (j * cb + r)
            (inl (omega (arith, next j, mul-le-mul_right {m = suc j} {n = mid} cb (omega arith))))
          ∙ a.label j r le early small
      | no late ↦ b.label j r (omega arith) lt small
    ];
    others = λ x out. elim out [
      | inl below ↦
          b.others x (inl (omega (arith, mul-le-mul_right {m = lo} {n = mid} cb (omega arith))))
          ∙ a.others x (inl below)
      | inr above ↦
          b.others x (inr above)
          ∙ a.others x (inr (omega (arith, mul-le-mul_right {m = mid} {n = hi} cb (omega arith))))
    ];
  }
    where
      next : (j : ℕ) → suc j * cb ≡ j * cb + cb
      next j = omega arith

  IsDone-one :
      (j base : ℕ) (old persist : ℕ → Bytes)
      → base ≡ j * cb
      → IsPersisted cb base (labels j) old persist
      → IsDone j (j + 1) old persist
  IsDone-one j base old persist at is = record {
    label = λ k r le lt small.
        let same : k ≡ j = omega arith in
        rw same (ap (λ b. persist (b + r)) (sym at) ∙ is.label r small);
    others = λ x out. is.others x (λ r small e. elim out [
      | inl below ↦ omega (arith, at, e, below)
      | inr above ↦ omega (arith, at, e, above, next)
    ]);
  }
    where
      next : (j + 1) * cb ≡ j * cb + cb
      next = omega arith

  -- The chunks of a batch.
  pub batch_chunks-IsDone :
      (Keep : Device → Type 0) (kernel : ℕ → Device → Device) (base n b : ℕ) (d : Device)
      → ((c : ℕ) (e : Device)
          → b ≤ c
          → c < b + n
          → Keep e
          → IsPersisted cb ((base + c) * cb) (labels (base + c)) e.persist (kernel c e).persist
            × Keep (kernel c e))
      → Keep d
      → IsDone (base + b) (base + (b + n)) d.persist (batch_chunks kernel n b d).persist
  unfolding batch_chunks
  batch_chunks-IsDone Keep kernel base zero b d each keep =
      let same : base + b ≡ base + (b + zero) = omega arith in
      subst (λ k. IsDone (base + b) k d.persist d.persist) same (IsDone-none (base + b) d.persist)
  batch_chunks-IsDone Keep kernel base (suc n) b d each keep =
      let now = each b d (omega arith) (omega arith) keep in
      let rest =
        batch_chunks-IsDone Keep kernel base n (b + 1) (kernel b d)
          (λ c e le lt. each c e (omega arith) (omega arith)) now.1 in
      let here : base + (b + 1) ≡ base + b + 1 = omega arith in
      let ends : base + (b + 1 + n) ≡ base + (b + suc n) = omega arith in
      IsDone-join (base + b) (base + b + 1) (base + (b + suc n)) d.persist (kernel b d).persist _
        (omega arith) (omega arith)
        (IsDone-one (base + b) ((base + b) * cb) d.persist (kernel b d).persist refl now.0)
        (rw (sym here, sym ends) rest)

  module _ (cuda : CudaRuntime) (healthy : IsHealthy cuda) (batch : ℕ → ℕ → Device → Device × Bool)
      (num_super limit : ℕ)
      (batches : (base bc : ℕ) (d : Device)
        → base + bc ≤ num_super
        → 1 ≤ bc
        → bc ≤ limit
        → ((batch base bc d).1 ≡ true)
          × IsDone base (base + bc) d.persist (batch base bc d).0.persist) where
    -- All batches, from `base` on.
    run_batches_lem :
        (pool fuel base k : ℕ) (old : ℕ → Bytes) (d : Device)
        → 1 ≤ pool
        → pool ≤ limit
        → num_super ≤ base + fuel
        → k ≡ min base num_super
        → IsDone 0 k old d.persist
        → (d' : Device) × (run_batches cuda.crash batch num_super pool fuel base d ≡ (d', done tt))
          × IsDone 0 num_super old d'.persist
    unfolding run_batches
    run_batches_lem pool zero base k old d pos le enough at is =
        let same : k ≡ num_super = omega arith in
        (d, rw (le→ltb base num_super (omega arith)) refl, rw (sym same) is)
    run_batches_lem pool (suc fuel) base k old d pos le enough at is =
        elim (dec_lt base num_super) [
          | no over ↦
              let same : k ≡ num_super = omega (arith, over) in
              (d, rw (le→ltb base num_super (omega (arith, over))) refl, rw (sym same) is)
          | yes more ↦
              let bc = if ltb (num_super - base) pool then num_super - base else pool in
              let fits : base + bc ≤ num_super = ground arith in
              let ends : base + bc ≡ min (base + pool) num_super = ground arith in
              let same : k ≡ base = omega (arith, more) in
              let some_chunk : 1 ≤ bc = ground arith in
              let few : bc ≤ limit = ground arith in
              let now = batches base bc d fits some_chunk few in
              let so_far : IsDone 0 base old d.persist = rw (sym same) is in
              let rest =
                run_batches_lem pool fuel (base + pool) (base + bc) old (batch base bc d).0 pos le
                  (omega arith) ends
                  (IsDone-join 0 base (base + bc) old d.persist _ (omega arith) (omega arith) so_far
                    now.1) in
              (rest.0, rw (lt→ltb base num_super more, healthy.no_crash base, now.0) rest.1, rest.2)
        ]

    run_pool_at :
        (first_try cells pool : ℕ) (d d' : Device)
        → alloc_pool cuda.alloc first_try first_try ≡ some pool
        → run_batches cuda.crash batch num_super pool num_super 0 d ≡ (d', done tt)
        → run_pool cuda batch num_super first_try cells d ≡ (clear_scratch pool cells d', done tt)
    unfolding run_pool
    run_pool_at first_try cells pool d d' e run =
        ap (with_pool cuda batch num_super cells d) e ∙ rw (healthy.seeds, run, healthy.clears) refl

    -- A whole run: the region is labelled, and no region of the scratch keeps a label.
    pub run_pool_lem :
        (first_try cells : ℕ) (d : Device)
        → 1 ≤ first_try
        → first_try ≤ limit
        → (d' : Device) × (pool : ℕ) × (run_pool cuda batch num_super first_try cells d
            ≡ (d', done tt))
          × IsDone 0 num_super d.persist d'.persist
          × (alloc_pool cuda.alloc first_try first_try ≡ some pool)
          × (1 ≤ pool)
          × ((c x : ℕ) → c < pool → x < cells → d'.scratch c x ≡ zeros hash_bytes)
    unfolding clear_scratch
    run_pool_lem first_try cells d pos le =
        let a =
          alloc_pool_lem cuda.alloc first_try first_try healthy.one_region pos (omega arith) in
        let r =
          run_batches_lem a.0 num_super 0 0 d.persist d a.1 (omega (arith, a.2)) (omega arith)
            (omega arith) (IsDone-none 0 d.persist) in
        (
          clear_scratch a.0 cells r.0,
          a.0,
          run_pool_at first_try cells a.0 d r.0 a.3 r.1,
          r.2,
          a.3,
          a.1,
          λ c x lc lx. rw (lt→ltb c a.0 lc, lt→ltb x cells lx) refl,
        )
