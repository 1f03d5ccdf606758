-- ===== src/Graph/Region/Rounds.antt =====
-- The rounds of a region labeler, on new threads or on the pool, reach the end of the region.
use po_se_memory_wiping.Prelude.{
  ℕ, zero, suc, ◌+◌, ◌*◌, ◌%◌, ◌≤◌, ◌<◌, ◌≡◌, refl, sym, ap, ◌∙◌, Bool, true, false, if◌then◌else◌,
  List, [], ◌∷◌, le→ltb, lt→ltb, min, arith,
}
use native.Mathlib.Decide.{dec_lt}
use native.Mathlib.Nat.{suc-mul, mul-le-mul_right}
use po_se_memory_wiping.Label.{Bytes, Algo, NodeHash, hash_bytes}
use po_se_memory_wiping.Graph.Counts.{graph_max_m, resolve_chunk_blocks}
use po_se_memory_wiping.Graph.Chunk.{Outcome, done, failed, fault}
use po_se_memory_wiping.Graph.Region.{
  ChunkArg, Labelling, first_error, region_threads, bad_region, unless_error, chunk_thread,
  next_chunks, run_pooled, run_threads, region_rounds,
}
use po_se_memory_wiping.Graph.Region.Chunks.{Labelled, pooled-IsRound}

pub resolve_pos : (n : ℕ) → 1 ≤ resolve_chunk_blocks n
unfolding resolve_chunk_blocks
resolve_pos zero = omega arith
resolve_pos (suc n) = omega arith

pub good_region :
    (region_len : ℕ)
    → 1 ≤ region_len
    → region_len % hash_bytes ≡ 0
    → bad_region true region_len ≡ false
good_region region_len pos whole = ground arith

pub first_error-done : (rc : Outcome (Unit {0})) → first_error rc (done tt) ≡ rc
first_error-done (done tt) = refl
first_error-done failed = refl
first_error-done fault = refl

module _ (h : NodeHash) (session_seed : Bytes) (offset : ℕ) (algo : Algo)
    (scratch : ℕ → ℕ → Bytes) where
  -- If every thread can be created, new threads do what the pool does.
  pub threads_pooled :
      (launch : ℕ → Bool)
      → ((at : ℕ) → launch at ≡ true)
      → (args : List ChunkArg) (region : ℕ → Bytes)
      → run_threads h session_seed offset algo scratch launch args region
        ≡ run_pooled h session_seed offset algo scratch args region
  unfolding run_threads run_pooled
  threads_pooled launch ok [] region = refl
  threads_pooled launch ok (a ∷ []) region =
      ap (λ rc. ((chunk_thread h session_seed offset algo scratch a region).0, rc))
        (sym (first_error-done (chunk_thread h session_seed offset algo scratch a region).1))
  threads_pooled launch ok (a ∷ b ∷ args) region = rw (ok a.out) (
      ap
        (λ (rest : Labelling).
          (rest.0, first_error (chunk_thread h session_seed offset algo scratch a region).1 rest.1))
        (threads_pooled launch ok (b ∷ args)
          (chunk_thread h session_seed offset algo scratch a region).0))

  module _ (cb total : ℕ) (pos : 1 ≤ cb) (small : cb ≤ graph_max_m) where
    abbrev LabelledTo : (ℕ → Bytes) → ℕ → (ℕ → Bytes) → Type 0
    LabelledTo = Labelled h session_seed offset algo scratch cb total pos small

    abbrev pub rounds : ℕ → ℕ → (ℕ → Bytes) → Labelling
    rounds =
        region_rounds h session_seed offset algo scratch cb total
          (run_pooled h session_seed offset algo scratch)

    abbrev next_of : ℕ → List ChunkArg × ℕ
    next_of = next_chunks h session_seed offset algo scratch cb total region_threads

    rounds_step :
        (fuel block : ℕ) (region region' : ℕ → Bytes)
        → block < total
        → run_pooled h session_seed offset algo scratch (next_of block).0 region
          ≡ (region', done tt)
        → rounds (suc fuel) block region ≡ rounds fuel (next_of block).1 region'
    unfolding region_rounds
    rounds_step fuel block region region' left ran =
        ap
          (λ b.
            if b
            then unless_error
                (run_pooled h session_seed offset algo scratch (next_of block).0 region)
                (rounds fuel (next_of block).1
                  (run_pooled h session_seed offset algo scratch (next_of block).0 region).0)
            else (region, done tt))
          (lt→ltb block total left)
        ∙ ap (λ (round : Labelling). unless_error round (rounds fuel (next_of block).1 round.0)) ran

    -- Enough fuel: a block of the region per round.
    pub rounds_lem :
        (old : ℕ → Bytes) (fuel k : ℕ) (region : ℕ → Bytes)
        → LabelledTo old k region
        → total ≤ k * cb + fuel
        → (k' : ℕ) × (region' : ℕ → Bytes) × (rounds fuel (min (k * cb) total) region
            ≡ (region', done tt))
          × (total ≤ k' * cb)
          × LabelledTo old k' region'
    unfolding region_rounds
    rounds_lem old zero k region sofar enough =
        (k, region, rw (le→ltb (min (k * cb) total) total (omega arith)) refl, omega arith, sofar)
    rounds_lem old (suc fuel) k region sofar enough = elim (dec_lt (k * cb) total) [
      | no over ↦
          (k, region, rw (le→ltb (min (k * cb) total) total (omega arith)) refl, omega arith, sofar)
      | yes left ↦
          let round =
            pooled-IsRound h session_seed offset algo scratch cb total pos small old region_threads
              k region sofar in
          let later = round.2.more (omega arith) left in
          let rest =
            rounds_lem old fuel round.0 round.1 round.2.labelled
              (omega (arith, suc-mul k cb, mul-le-mul_right {m = suc k} {n = round.0} cb later)) in
          (
            rest.0,
            rest.1,
            rounds_step fuel (min (k * cb) total) region round.1 (omega arith) round.2.returned
                ∙ ap (λ b. rounds fuel b round.1) round.2.at
                ∙ rest.2,
            rest.3,
            rest.4,
          )
    ]
