-- ===== src/Graph/Region/Chunks.antt =====
-- One round of a region labeler: each chunk's blocks receive the chunk's labels.
use po_se_memory_wiping.Prelude.{
  ℕ, zero, suc, ◌+◌, ◌-◌, ◌*◌, ◌/◌, ◌≤◌, ◌<◌, ◌≡◌, refl, sym, ap, ap₂, ◌∙◌, Bool, true, false, ltb,
  if◌then◌else◌, List, [], ◌∷◌, le→ltb, lt→ltb, length, get_or, map, update, update_self, update_ne,
  store_all, min, arith, length-map,
}
use native.Mathlib.Nat.{suc-mul, mul-le-mul_right}
use native.Mathlib.Decide.{dec_lt}
use po_se_memory_wiping.Label.{Bytes, Algo, NodeHash}
use po_se_memory_wiping.Graph.Counts.{graph_max_m}
use po_se_memory_wiping.Graph.Chunk.{done}
use po_se_memory_wiping.Graph.Chunk.Output.{
  in_range, challenge_set, length-challenge_set, node_labels, do_label_inplace_in,
  do_label_inplace-eq-do_label,
}
use po_se_memory_wiping.Graph.Region.{
  ChunkArg, Labelling, first_error, chunk_result, chunk_thread, run_pooled, next_chunks,
}

pub store_all-below :
    (f : ℕ → Bytes) (i : ℕ) (vs : List Bytes) (j : ℕ) → j < i → store_all f i vs j ≡ f j
store_all-below f i [] j lt = refl
store_all-below f i (v ∷ vs) j lt =
    store_all-below (update f i v) (i + 1) vs j (omega arith)
    ∙ update_ne f i j v (λ e. absurd (omega arith))

pub store_all-above :
    (f : ℕ → Bytes) (i : ℕ) (vs : List Bytes) (j : ℕ) → i + length vs ≤ j → store_all f i vs j ≡ f j
store_all-above f i [] j le = refl
store_all-above f i (v ∷ vs) j le =
    store_all-above (update f i v) (i + 1) vs j (omega arith)
    ∙ update_ne f i j v (λ e. absurd (omega arith))

pub store_all-at :
    (f : ℕ → Bytes) (i : ℕ) (vs : List Bytes) (j : ℕ)
    → j < length vs
    → store_all f i vs (i + j) ≡ get_or vs j []
store_all-at f i [] j lt = absurd (omega arith)
store_all-at f i (v ∷ vs) zero lt =
    ap (store_all (update f i v) (i + 1) vs) here
    ∙ store_all-below (update f i v) (i + 1) vs i (omega arith)
    ∙ update_self f i v
  where
    here : i + zero ≡ i
    here = omega arith
store_all-at f i (v ∷ vs) (suc j) lt =
    ap (store_all (update f i v) (i + 1) vs) there
    ∙ store_all-at (update f i v) (i + 1) vs j (omega arith)
  where
    there : i + suc j ≡ i + 1 + j
    there = omega arith

module _ (h : NodeHash) (session_seed : Bytes) (offset : ℕ) (algo : Algo) (scratch : ℕ → ℕ → Bytes)
    (cb total : ℕ) (pos : 1 ≤ cb) (small : cb ≤ graph_max_m) where
  -- The blocks of chunk `k`, its seed and its labels.
  abbrev pub blocks_of : ℕ → ℕ
  blocks_of k = min cb (total - k * cb)

  abbrev pub seed_of : ℕ → Bytes
  seed_of k = h.chunk_seed session_seed ((offset + k * cb) / cb)

  abbrev pub labels_of_chunk : ℕ → List Bytes
  labels_of_chunk k =
      map (node_labels h (seed_of k) (blocks_of k) algo (λ i. [])) (challenge_set (blocks_of k))

  -- The first `k` chunks are labelled, and nothing beyond the region has changed.
  abbrev pub Labelled : (ℕ → Bytes) → ℕ → (ℕ → Bytes) → Type 0
  Labelled old k region =
      ((j i : ℕ) → j < k → i < blocks_of j → region (j * cb + i) ≡ get_or (labels_of_chunk j) i [])
      × ((b : ℕ) → total ≤ b → region b ≡ old b)

  before : (j k : ℕ) → j < k → j * cb + cb ≤ k * cb
  before j k lt = omega (arith, suc-mul j cb, mul-le-mul_right {m = suc j} {n = k} cb lt)

  length-labels_of_chunk : (k : ℕ) → 1 ≤ blocks_of k → length (labels_of_chunk k) ≡ blocks_of k
  length-labels_of_chunk k some_left =
      length-map (node_labels h (seed_of k) (blocks_of k) algo (λ i. []))
        (challenge_set (blocks_of k))
      ∙ length-challenge_set (blocks_of k) some_left (omega arith)

  -- The labels of chunk `k` complete it.
  pub Labelled-store_all :
      (old : ℕ → Bytes) (k : ℕ) (region : ℕ → Bytes)
      → k * cb < total
      → Labelled old k region
      → Labelled old (suc k) (store_all region (k * cb) (labels_of_chunk k))
  Labelled-store_all old k region left done_so_far = (
    λ j i lt in_chunk. elim (dec_lt j k) [
      | yes earlier ↦
          store_all-below region (k * cb) (labels_of_chunk k) (j * cb + i)
            (omega (arith, before j k earlier))
          ∙ done_so_far.0 j i earlier in_chunk
      | no now ↦
          let same : j ≡ k = omega arith in
          rw same (
            store_all-at region (k * cb) (labels_of_chunk k) i
              (omega (arith, length-labels_of_chunk k (omega arith), ap blocks_of same)))
    ],
    λ b le.
        store_all-above region (k * cb) (labels_of_chunk k) b
          (omega (arith, length-labels_of_chunk k (omega arith)))
        ∙ done_so_far.1 b le,
  )

  -- What the inner loop makes of chunk `k`.
  abbrev pub arg_of : Bool → ℕ → ChunkArg
  arg_of inplace k = record {
    cseed = seed_of k;
    m = blocks_of k;
    out = k * cb;
    algo = algo;
    inplace = inplace;
  }

  pub chunk_thread_lem :
      (inplace : Bool) (k : ℕ) (region : ℕ → Bytes)
      → k * cb < total
      → chunk_thread h session_seed offset algo scratch (arg_of inplace k) region
        ≡ (store_all region (k * cb) (labels_of_chunk k), done tt)
  unfolding chunk_thread
  chunk_thread_lem true k region left = ap (chunk_result (k * cb) region) (
      do_label_inplace_in h (seed_of k) (blocks_of k) algo (λ i. [])
        (in_range (blocks_of k) (omega arith) (omega arith)))
  chunk_thread_lem false k region left = ap (chunk_result (k * cb) region) (
      sym (do_label_inplace-eq-do_label h (seed_of k) (blocks_of k) algo (scratch (k * cb)))
      ∙ do_label_inplace_in h (seed_of k) (blocks_of k) algo (λ i. [])
          (in_range (blocks_of k) (omega arith) (omega arith)))

  if-min : (a b : ℕ) → (if ltb a b then a else b) ≡ min a b
  if-min a b = ground arith

  next_more :
      (n k : ℕ)
      → k * cb < total
      → next_chunks h session_seed offset algo scratch cb total (suc n) (k * cb) ≡ (
        arg_of false k
            ∷ (next_chunks h session_seed offset algo scratch cb total n
                (min (suc k * cb) total)).0,
        (next_chunks h session_seed offset algo scratch cb total n (min (suc k * cb) total)).1,
      )
  unfolding next_chunks
  next_more n k left = rw (lt→ltb (k * cb) total left) (
      ap₂ {B = ℕ}
        (λ m b. (
          record (arg_of false k) { m = m }
              ∷ (next_chunks h session_seed offset algo scratch cb total n b).0,
          (next_chunks h session_seed offset algo scratch cb total n b).1,
        ))
        (if-min cb (total - k * cb)) (omega (arith, if-min cb (total - k * cb), suc-mul k cb)))

  next_none :
      (n block : ℕ)
      → total ≤ block
      → next_chunks h session_seed offset algo scratch cb total n block ≡ ([], block)
  unfolding next_chunks
  next_none zero block over = refl
  next_none (suc n) block over = rw (le→ltb block total over) refl

  pub run_pooled-cons :
      (inplace : Bool) (k : ℕ) (args : List ChunkArg) (region : ℕ → Bytes)
      → k * cb < total
      → run_pooled h session_seed offset algo scratch (arg_of inplace k ∷ args) region
        ≡ run_pooled h session_seed offset algo scratch args
            (store_all region (k * cb) (labels_of_chunk k))
  unfolding run_pooled
  run_pooled-cons inplace k args region left =
      ap
        (λ (now : Labelling). (
          (run_pooled h session_seed offset algo scratch args now.0).0,
          first_error now.1 (run_pooled h session_seed offset algo scratch args now.0).1,
        ))
        (chunk_thread_lem inplace k region left)

  -- After a round that began at chunk `k`, the next chunk is `k'`.
  pub record IsRound (old : ℕ → Bytes) (n k : ℕ) (next : List ChunkArg × ℕ) (run : Labelling)
      (region : ℕ → Bytes) (k' : ℕ) : Type 0 where
    pub at : next.1 ≡ min (k' * cb) total
    pub le : k ≤ k'
    pub more : 1 ≤ n → k * cb < total → k < k'
    pub returned : run ≡ (region, done tt)
    pub labelled : Labelled old k' region

  abbrev pub next_from : ℕ → ℕ → List ChunkArg × ℕ
  next_from n k = next_chunks h session_seed offset algo scratch cb total n (min (k * cb) total)

  abbrev pub run_all : List ChunkArg → (ℕ → Bytes) → Labelling
  run_all = run_pooled h session_seed offset algo scratch

  pub pooled-IsRound :
      (old : ℕ → Bytes) (n k : ℕ) (region : ℕ → Bytes)
      → Labelled old k region
      → (k' : ℕ) × (region' : ℕ → Bytes) × IsRound old n k
          (next_from n k)
          (run_all (next_from n k).0 region)
          region'
          k'
  unfolding next_chunks run_pooled
  pooled-IsRound old zero k region sofar = (
    k,
    region,
    record {
      at = refl;
      le = omega arith;
      more = λ p. absurd (omega arith);
      returned = refl;
      labelled = sofar;
    },
  )
  pooled-IsRound old (suc n) k region sofar = elim (dec_lt (k * cb) total) [
    | yes left ↦
        let ih =
          pooled-IsRound old n (suc k) (store_all region (k * cb) (labels_of_chunk k))
            (Labelled-store_all old k region left sofar) in
        (
          ih.0,
          ih.1,
          record {
            at = ap (λ p. p.1) (taken left) ∙ ih.2.at;
            le = omega (arith, ih.2.le);
            more = λ p q. omega (arith, ih.2.le);
            returned =
                ap (λ p. run_all p.0 region) (taken left)
                ∙ run_pooled-cons false k (next_from n (suc k)).0 region left
                ∙ ih.2.returned;
            labelled = ih.2.labelled;
          },
        )
    | no over ↦ (
      k,
      region,
      record {
        at = ap (λ p. p.1) (next_none (suc n) (min (k * cb) total) (omega arith));
        le = omega arith;
        more = λ p left. absurd (over left);
        returned =
            ap (λ p. run_all p.0 region) (next_none (suc n) (min (k * cb) total) (omega arith));
        labelled = sofar;
      },
    )
  ]
    where
      taken :
          k * cb < total
          → next_from (suc n) k
            ≡ (arg_of false k ∷ (next_from n (suc k)).0, (next_from n (suc k)).1)
      taken left =
          let here : min (k * cb) total ≡ k * cb = omega arith in
          ap (next_chunks h session_seed offset algo scratch cb total (suc n)) here
          ∙ next_more n k left
