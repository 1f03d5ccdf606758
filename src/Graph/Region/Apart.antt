-- ===== src/Graph/Region/Apart.antt =====
-- The chunks of a round write disjoint blocks, so it does not matter which is written first.
use po_se_memory_wiping.Prelude.{
  ℕ, zero, suc, ◌+◌, ◌-◌, ◌≤◌, ◌≡◌, refl, sym, ◌∙◌, true, false, ltb, if◌then◌else◌, Bool-cases,
  inl, inr, List, [], ◌∷◌, length, All, update, store_all, length-map, arith,
}
use mathlib.Core.Path.{subst}
use native.Mathlib.Decide.{dec_lt}
use po_se_memory_wiping.Label.{Bytes, Algo, NodeHash}
use po_se_memory_wiping.Graph.Chunk.{
  Outcome, done, failed, fault, out_of_range, do_label, do_label_inplace,
}
use po_se_memory_wiping.Graph.Chunk.Output.{
  challenge_set, length-challenge_set, node_labels, do_label_in, do_label_out,
  do_label_inplace-eq-do_label,
}
use po_se_memory_wiping.Graph.Region.{ChunkArg, chunk_result, chunk_thread, next_chunks}
use po_se_memory_wiping.Graph.Region.Chunks.{store_all-below, store_all-above}

-- Each chunk ends before the ones after it begin.
abbrev pub IsApart : List ChunkArg → Type 0
IsApart [] = Unit
IsApart (a ∷ args) = All (λ (b : ChunkArg). a.out + a.m ≤ b.out) args × IsApart args

-- A cell that the stores leave alone keeps what is below.
store_all-cong :
    (f g : ℕ → Bytes) (i : ℕ) (xs : List Bytes) (j : ℕ)
    → f j ≡ g j
    → store_all f i xs j ≡ store_all g i xs j
store_all-cong f g i [] j same = same
store_all-cong f g i (x ∷ xs) j same =
    store_all-cong (update f i x) (update g i x) (i + 1) xs j (ground arith)

store_all-commute :
    (f : ℕ → Bytes) (i k : ℕ) (xs ys : List Bytes)
    → i + length xs ≤ k
    → store_all (store_all f i xs) k ys ≡ store_all (store_all f k ys) i xs
store_all-commute f i k xs ys le = λ t j. cell j t
  where
    cell : (j : ℕ) → store_all (store_all f i xs) k ys j ≡ store_all (store_all f k ys) i xs j
    cell j = elim (dec_lt j k) [
      | yes below ↦
          store_all-below (store_all f i xs) k ys j below
          ∙ store_all-cong f (store_all f k ys) i xs j (sym (store_all-below f k ys j below))
      | no over ↦
          store_all-cong (store_all f i xs) f k ys j (store_all-above f i xs j (omega arith))
          ∙ sym (store_all-above (store_all f k ys) i xs j (omega arith))
    ]

-- What is written fills the chunk.
abbrev Fills : ℕ → Outcome (List Bytes) → Type 0
Fills m (done labels) = length labels ≡ m
Fills m failed = Unit
Fills m fault = Unit

do_label-Fills :
    (h : NodeHash) (seed : Bytes) (m : ℕ) (l : ℕ → Bytes) (algo : Algo)
    → Fills m (do_label h seed m l algo)
do_label-Fills h seed m l algo = elim (Bool-cases (out_of_range m)) [
  | inl e ↦ subst (Fills m) (sym (do_label_out h seed m algo l e)) tt
  | inr e ↦ subst (Fills m) (sym (do_label_in h seed m algo l e)) (
      length-map (node_labels h seed m algo l) (challenge_set m)
      ∙ length-challenge_set m (ground arith) (ground arith))
]

results-commute :
    (i k m n : ℕ) (o p : Outcome (List Bytes)) (region : ℕ → Bytes)
    → Fills m o
    → i + m ≤ k
    → (chunk_result k (chunk_result i region o).0 p).0
      ≡ (chunk_result i (chunk_result k region p).0 o).0
results-commute i k m n (done xs) (done ys) region fills le =
    store_all-commute region i k xs ys (omega arith)
results-commute i k m n (done xs) failed region fills le = refl
results-commute i k m n (done xs) fault region fills le = refl
results-commute i k m n failed (done ys) region fills le = refl
results-commute i k m n failed failed region fills le = refl
results-commute i k m n failed fault region fills le = refl
results-commute i k m n fault (done ys) region fills le = refl
results-commute i k m n fault failed region fills le = refl
results-commute i k m n fault fault region fills le = refl

result_code :
    (i : ℕ) (o : Outcome (List Bytes)) (region region' : ℕ → Bytes)
    → (chunk_result i region o).1 ≡ (chunk_result i region' o).1
result_code i (done xs) region region' = refl
result_code i failed region region' = refl
result_code i fault region region' = refl

All-later :
    (k l : ℕ) (args : List ChunkArg)
    → l ≤ k
    → All (λ (b : ChunkArg). k ≤ b.out) args
    → All (λ (b : ChunkArg). l ≤ b.out) args
All-later k l [] le all = tt
All-later k l (b ∷ args) le all = (omega (arith, all.0), All-later k l args le all.1)

module _ (h : NodeHash) (session_seed : Bytes) (offset : ℕ) (algo : Algo)
    (scratch : ℕ → ℕ → Bytes) where
  abbrev outcome : ChunkArg → Outcome (List Bytes)
  outcome a =
      if a.inplace
      then do_label_inplace h a.cseed a.m a.algo
      else do_label h a.cseed a.m (scratch a.out) a.algo

  outcome-Fills : (a : ChunkArg) → Fills a.m (outcome a)
  outcome-Fills a =
      elim a.inplace
        as (λ b. Fills a.m (
          if b
          then do_label_inplace h a.cseed a.m a.algo
          else do_label h a.cseed a.m (scratch a.out) a.algo)) [
            | true ↦
                subst (Fills a.m)
                  (sym (do_label_inplace-eq-do_label h a.cseed a.m a.algo (scratch a.out)))
                  (do_label-Fills h a.cseed a.m (scratch a.out) a.algo)
            | false ↦ do_label-Fills h a.cseed a.m (scratch a.out) a.algo
          ]

  -- The code of a chunk does not depend on the region.
  pub chunk_thread_code :
      (a : ChunkArg) (region region' : ℕ → Bytes)
      → (chunk_thread h session_seed offset algo scratch a region).1
        ≡ (chunk_thread h session_seed offset algo scratch a region').1
  unfolding chunk_thread
  chunk_thread_code a region region' = result_code a.out (outcome a) region region'

  pub chunk_thread-commute :
      (a b : ChunkArg) (region : ℕ → Bytes)
      → a.out + a.m ≤ b.out
      → (chunk_thread h session_seed offset algo scratch b
          (chunk_thread h session_seed offset algo scratch a region).0).0
        ≡ (chunk_thread h session_seed offset algo scratch a
            (chunk_thread h session_seed offset algo scratch b region).0).0
  unfolding chunk_thread
  chunk_thread-commute a b region le =
      results-commute a.out b.out a.m b.m (outcome a) (outcome b) region (outcome-Fills a) le

  module _ (chunk_blocks total_blocks : ℕ) where
    abbrev chunks : ℕ → ℕ → List ChunkArg × ℕ
    chunks = next_chunks h session_seed offset algo scratch chunk_blocks total_blocks

    -- The inner loop takes at most `n` chunks, from `block` on.
    pub next_chunks-IsApart :
        (n block : ℕ)
        → IsApart (chunks n block).0
          × All (λ (b : ChunkArg). block ≤ b.out) (chunks n block).0
          × (length (chunks n block).0 ≤ n)
    unfolding next_chunks
    next_chunks-IsApart zero block = (tt, tt, omega arith)
    next_chunks-IsApart (suc n) block =
        let left : ℕ = total_blocks - block in
        let this_blocks : ℕ = if ltb chunk_blocks left then chunk_blocks else left in
        let rest = next_chunks-IsApart n (block + this_blocks) in
        elim (Bool-cases (ltb block total_blocks)) [
          | inl e ↦ rw e (
            (rest.1, rest.0),
            (omega arith, All-later (block + this_blocks) block _ (omega arith) rest.1),
            omega (arith, rest.2),
          )
          | inr e ↦ rw e (tt, tt, omega arith)
        ]
