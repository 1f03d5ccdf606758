-- ===== src/Graph/Region/Super.antt =====
-- The rounds of the in-place region labeler, over whole chunks.
use po_se_memory_wiping.Prelude.{
  ℕ, zero, suc, ◌+◌, ◌-◌, ◌*◌, ◌/◌, ◌≤◌, ◌<◌, ◌≡◌, refl, sym, ap, ap₂, ◌∙◌, true, false, leb,
  if◌then◌else◌, List, [], ◌∷◌, min, store_all, arith,
}
use native.Mathlib.Decide.{dec_le}
use native.Mathlib.Nat.{suc-mul, mul-le-mul_right, le-div_iff_mul-le, div-lt_iff_lt-mul}
use po_se_memory_wiping.Label.{Bytes, Algo, NodeHash}
use po_se_memory_wiping.Graph.Counts.{graph_max_m}
use po_se_memory_wiping.Graph.Chunk.{done}
use po_se_memory_wiping.Graph.Region.{
  ChunkArg, Labelling, unless_error, region_threads, run_pooled, next_super_chunks, super_rounds,
}
use po_se_memory_wiping.Graph.Region.Chunks.{
  labels_of_chunk, Labelled, Labelled-store_all, arg_of, run_pooled-cons,
}

fits : (a b : ℕ) → a ≤ b → leb a b ≡ true
fits a b le = ground arith

lacks : (a b : ℕ) → b < a → leb a b ≡ false
lacks a b lt = ground arith

module _ (h : NodeHash) (session_seed : Bytes) (offset : ℕ) (algo : Algo) (scratch : ℕ → ℕ → Bytes)
    (cb total : ℕ) (pos : 1 ≤ cb) (small : cb ≤ graph_max_m) where
  abbrev LabelledTo : (ℕ → Bytes) → ℕ → (ℕ → Bytes) → Type 0
  LabelledTo = Labelled h session_seed offset algo scratch cb total pos small

  abbrev labels_at : ℕ → List Bytes
  labels_at = labels_of_chunk h session_seed offset algo scratch cb total pos small

  abbrev super_arg : ℕ → ChunkArg
  super_arg = arg_of h session_seed offset algo scratch cb total pos small true

  abbrev next_from : ℕ → ℕ → List ChunkArg × ℕ
  next_from n k = next_super_chunks h session_seed offset algo scratch cb total n (k * cb)

  abbrev run_all : List ChunkArg → (ℕ → Bytes) → Labelling
  run_all = run_pooled h session_seed offset algo scratch

  quotient : (k : ℕ) → k * cb / cb ≡ k
  quotient k =
      let low : k ≤ k * cb / cb =
        (le-div_iff_mul-le {k = cb} {x = k} {y = k * cb} pos).1 (omega arith) in
      let high : k * cb / cb < suc k =
        (div-lt_iff_lt-mul {k = cb} {x = k * cb} {y = suc k} pos).1 (omega (arith, suc-mul k cb)) in
      omega (arith, low, high)

  super_more :
      (n k : ℕ)
      → k * cb + cb ≤ total
      → next_from (suc n) k ≡ (super_arg k ∷ (next_from n (suc k)).0, (next_from n (suc k)).1)
  unfolding next_super_chunks
  super_more n k left = rw (fits (k * cb + cb) total left) (
      ap₂ {B = ℕ}
        (λ q m. (
          record (super_arg k) { cseed = h.chunk_seed session_seed ((offset + q * cb) / cb); m = m }
              ∷ (next_super_chunks h session_seed offset algo scratch cb total n (k * cb + cb)).0,
          (next_super_chunks h session_seed offset algo scratch cb total n (k * cb + cb)).1,
        ))
        (quotient k) whole
      ∙ ap
          (λ b. (
            super_arg k ∷ (next_super_chunks h session_seed offset algo scratch cb total n b).0,
            (next_super_chunks h session_seed offset algo scratch cb total n b).1,
          ))
          (sym (suc-mul k cb)))
    where
      whole : cb ≡ min cb (total - k * cb)
      whole = omega arith

  super_none : (n k : ℕ) → total < k * cb + cb → next_from n k ≡ ([], k * cb)
  unfolding next_super_chunks
  super_none zero k over = refl
  super_none (suc n) k over = rw (lacks (k * cb + cb) total over) refl

  -- After a round that began at chunk `k`, the next chunk is `k'`.
  record IsSuperRound (old : ℕ → Bytes) (n k : ℕ) (next : List ChunkArg × ℕ) (run : Labelling)
      (region : ℕ → Bytes) (k' : ℕ) : Type 0 where
    at : next.1 ≡ k' * cb
    le : k ≤ k'
    more : 1 ≤ n → k * cb + cb ≤ total → k < k'
    returned : run ≡ (region, done tt)
    labelled : LabelledTo old k' region

  round-IsSuperRound :
      (old : ℕ → Bytes) (n k : ℕ) (region : ℕ → Bytes)
      → LabelledTo old k region
      → (k' : ℕ) × (region' : ℕ → Bytes) × IsSuperRound old n k
          (next_from n k)
          (run_all (next_from n k).0 region)
          region'
          k'
  unfolding next_super_chunks run_pooled
  round-IsSuperRound old zero k region sofar = (
    k,
    region,
    record {
      at = refl;
      le = omega arith;
      more = λ p. absurd (omega arith);
      returned = refl;
      labelled = sofar;
    },
  )
  round-IsSuperRound old (suc n) k region sofar = elim (dec_le (k * cb + cb) total) [
    | yes left ↦
        let ih = round-IsSuperRound old n (suc k) (store_all region (k * cb) (labels_at k)) (
          Labelled-store_all h session_seed offset algo scratch cb total pos small old k region
            (omega arith) sofar) in
        (
          ih.0,
          ih.1,
          record {
            at = ap (λ p. p.1) (super_more n k left) ∙ ih.2.at;
            le = omega (arith, ih.2.le);
            more = λ p q. omega (arith, ih.2.le);
            returned =
                ap (λ p. run_all p.0 region) (super_more n k left)
                ∙ run_pooled-cons h session_seed offset algo scratch cb total pos small true k
                    (next_from n (suc k)).0 region (omega arith)
                ∙ ih.2.returned;
            labelled = ih.2.labelled;
          },
        )
    | no over ↦ (
      k,
      region,
      record {
        at = ap (λ p. p.1) (super_none (suc n) k (omega arith));
        le = omega arith;
        more = λ p left. absurd (over left);
        returned = ap (λ p. run_all p.0 region) (super_none (suc n) k (omega arith));
        labelled = sofar;
      },
    )
  ]

  abbrev pub supers : ℕ → ℕ → (ℕ → Bytes) → Labelling
  supers = super_rounds h session_seed offset algo scratch cb total

  supers_step :
      (fuel k : ℕ) (region region' : ℕ → Bytes)
      → k * cb + cb ≤ total
      → run_all (next_from region_threads k).0 region ≡ (region', done tt)
      → supers (suc fuel) (k * cb) region ≡ supers fuel (next_from region_threads k).1 region'
  unfolding super_rounds
  supers_step fuel k region region' left ran =
      ap
        (λ b.
          if b
          then unless_error (run_all (next_from region_threads k).0 region) (
              supers fuel (next_from region_threads k).1
                (run_all (next_from region_threads k).0 region).0)
          else (region, done tt))
        (fits (k * cb + cb) total left)
      ∙ ap
          (λ (round : Labelling).
            unless_error round (supers fuel (next_from region_threads k).1 round.0))
          ran

  -- Enough fuel: a block of the region per round.
  pub supers_lem :
      (old : ℕ → Bytes) (fuel k : ℕ) (region : ℕ → Bytes)
      → LabelledTo old k region
      → total ≤ k * cb + fuel
      → (k' : ℕ) × (region' : ℕ → Bytes) × (supers fuel (k * cb) region ≡ (region', done tt))
        × (total < k' * cb + cb)
        × LabelledTo old k' region'
  unfolding super_rounds
  supers_lem old zero k region sofar enough =
      (k, region, rw (lacks (k * cb + cb) total (omega arith)) refl, omega arith, sofar)
  supers_lem old (suc fuel) k region sofar enough = elim (dec_le (k * cb + cb) total) [
    | no over ↦ (k, region, rw (lacks (k * cb + cb) total (omega arith)) refl, omega arith, sofar)
    | yes left ↦
        let round = round-IsSuperRound old region_threads k region sofar in
        let later = round.2.more (omega arith) left in
        let rest =
          supers_lem old fuel round.0 round.1 round.2.labelled
            (omega (arith, suc-mul k cb, mul-le-mul_right {m = suc k} {n = round.0} cb later)) in
        (
          rest.0,
          rest.1,
          supers_step fuel k region round.1 left round.2.returned
              ∙ ap (λ b. supers fuel b round.1) round.2.at
              ∙ rest.2,
          rest.3,
          rest.4,
        )
  ]
