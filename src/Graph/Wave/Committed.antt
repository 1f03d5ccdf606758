-- ===== src/Graph/Wave/Committed.antt =====
-- What a wave hands to the sink is what the verifier computes.
use po_se_memory_wiping.Prelude.{
  ℕ, zero, suc, ◌+◌, ◌*◌, ◌/◌, ◌≤◌, ◌<◌, ◌≡◌, refl, sym, ap, ◌∙◌, Bool, true, false, ◌&&◌, ◌||◌,
  ltb, if◌then◌else◌, List, [], ◌∷◌, ◌++◌, get_or, length, length-map, map, store_all, arith,
}
use mathlib.Core.Path.{subst}
use po_se_memory_wiping.Label.{Bytes, Algo, NodeHash}
use po_se_memory_wiping.Graph.Counts.{graph_max_m, resolve_chunk_blocks}
use po_se_memory_wiping.Graph.Chunk.{Outcome, done, failed, do_label_inplace, graph_challenge}
use po_se_memory_wiping.Graph.Chunk.Output.{
  in_range, challenge_set, length-challenge_set, node_labels, do_label_inplace_in,
}
use po_se_memory_wiping.Graph.Chunk.Verifier.{graph_challenge-do_label_inplace}
use po_se_memory_wiping.Graph.Region.{region_threads, first_error}
use po_se_memory_wiping.Graph.Region.Chunks.{store_all-at}
use po_se_memory_wiping.Graph.Wave.{
  SinkCall, WaveArg, Wave, super_chunk_blocks, challenge_node_ids, commit, wave_thread, run_wave,
  wave_args, label_disk_wave,
}

-- Whether the sink accepts all of its calls.
abbrev pub all_accepted : (List SinkCall → SinkCall → Bool) → List SinkCall → List SinkCall → Bool
all_accepted sink earlier [] = true
all_accepted sink earlier (c ∷ calls) =
    sink earlier c && all_accepted sink (earlier ++ c ∷ []) calls

module _ (h : NodeHash) (session_seed : Bytes) (offset : ℕ) (algo : Algo)
    (sink : List SinkCall → SinkCall → Bool)
    (chunk_blocks super_index_base byte_start write_len : ℕ)
    (pos : 1 ≤ super_chunk_blocks chunk_blocks)
    (small : super_chunk_blocks chunk_blocks ≤ graph_max_m) where
  abbrev cb : ℕ
  cb = super_chunk_blocks chunk_blocks

  abbrev seed_of : ℕ → Bytes
  seed_of i = h.chunk_seed session_seed ((offset + (super_index_base + i) * cb) / cb)

  -- The call commits super-chunk `i` of the wave: for each rank the verifier's label stands at the
  -- rank's block.
  abbrev pub Commits : ℕ → SinkCall → Type 0
  Commits i c =
      (c.off ≡ byte_start + (super_index_base + i) * write_len)
      × (c.len ≡ write_len)
      × ((r : ℕ) (node_ids : ℕ → ℕ) (labels_buf : ℕ → Bytes)
          → r < cb
          → graph_challenge h true (seed_of i) cb r labels_buf algo
            ≡ done (c.buf (challenge_node_ids chunk_blocks node_ids r)))

  -- One call for each super-chunk, from `i` on.
  abbrev pub CommitsFrom : ℕ → List SinkCall → Type 0
  CommitsFrom i [] = Unit
  CommitsFrom i (c ∷ calls) = Commits i c × CommitsFrom (i + 1) calls

  labels_at : ℕ → List Bytes
  labels_at i = map (node_labels h (seed_of i) cb algo (λ j. [])) (challenge_set cb)

  labelled : (i : ℕ) → do_label_inplace h (seed_of i) cb algo ≡ done (labels_at i)
  unfolding labels_at
  labelled i = do_label_inplace_in h (seed_of i) cb algo (λ j. []) (in_range cb pos small)

  at_rank : (node_ids : ℕ → ℕ) (r : ℕ) → r < cb → challenge_node_ids chunk_blocks node_ids r ≡ r
  unfolding challenge_node_ids super_chunk_blocks
  at_rank node_ids r lt = rw (in_range cb pos small) (ground arith)

  abbrev args_from : ℕ → ℕ → List WaveArg
  args_from =
      wave_args h session_seed offset algo sink (resolve_chunk_blocks chunk_blocks) super_index_base
        byte_start write_len

  abbrev run_from : ℕ → ℕ → (ℕ → ℕ → Bytes) → List SinkCall → Wave
  run_from n i = run_wave h session_seed offset algo sink (args_from n i)

  -- The code tells whether the sink has accepted every call.
  abbrev Reports : List SinkCall → Wave → Type 0
  Reports earlier w = w.rc ≡ (if all_accepted sink earlier w.calls then done tt else failed)

  reported :
      (accepted all : Bool) (rc : Outcome (Unit {0}))
      → rc ≡ (if all then done tt else failed)
      → first_error (if accepted then done tt else failed) rc
        ≡ (if accepted && all then done tt else failed)
  reported true all rc e = e
  reported false all rc e = refl

  abbrev arg_at : ℕ → WaveArg
  arg_at i = record {
    cseed = h.chunk_seed session_seed (
        (offset + (super_index_base + i) * resolve_chunk_blocks chunk_blocks)
        / resolve_chunk_blocks chunk_blocks);
    m = resolve_chunk_blocks chunk_blocks;
    slot = i;
    algo = algo;
    wt_off = byte_start + (super_index_base + i) * write_len;
    wt_len = write_len;
  }

  -- The rest of a wave, after the outcome of slot `i`.
  abbrev after : ℕ → ℕ → (ℕ → ℕ → Bytes) → List SinkCall → Outcome (List Bytes) → Wave
  after n i slots earlier o =
      let now = commit h session_seed offset algo sink (arg_at i) slots earlier o in
      let rest = run_from n (i + 1) now.slots (earlier ++ now.calls) in
      record {
        slots = rest.slots;
        calls = now.calls ++ rest.calls;
        rc = first_error now.rc rest.rc;
      }

  IsGood : ℕ → ℕ → List SinkCall → Wave → Type 0
  IsGood n i earlier w = CommitsFrom i w.calls × (length w.calls ≡ n) × Reports earlier w

  wave_lem :
      (n i : ℕ) (slots : ℕ → ℕ → Bytes) (earlier : List SinkCall)
      → IsGood n i earlier (run_from n i slots earlier)
  unfolding run_wave wave_args wave_thread super_chunk_blocks labelled labels_at IsGood
  wave_lem zero i slots earlier = (tt, refl, refl)
  wave_lem (suc n) i slots earlier =
      let now =
        commit h session_seed offset algo sink (arg_at i) slots earlier (done (labels_at i)) in
      let rest = wave_lem n (i + 1) now.slots (earlier ++ now.calls) in
      subst (λ o. IsGood (suc n) i earlier (after n i slots earlier o)) (sym (labelled i))
        (
          (
            (
              refl,
              refl,
              λ r node_ids labels_buf lt.
                  graph_challenge-do_label_inplace h (seed_of i) cb algo labels_buf (labels_at i) r
                    (labelled i) lt
                  ∙ ap done (
                      sym (store_all-at (slots i) 0 (labels_at i) r (omega (arith, size, lt)))
                      ∙ ap (store_all (slots i) 0 (labels_at i))
                          (start r ∙ sym (at_rank node_ids r lt))),
            ),
            rest.0,
          ),
          ap suc rest.1,
          reported (sink earlier _) _ _ rest.2,
        )
    where
      size : length (labels_at i) ≡ cb
      size =
          length-map (node_labels h (seed_of i) cb algo (λ j. [])) (challenge_set cb)
          ∙ length-challenge_set cb pos small

      start : (r : ℕ) → 0 + r ≡ r
      start r = omega arith

  call_at :
      (j i : ℕ) (calls : List SinkCall) (c : SinkCall)
      → i < length calls
      → CommitsFrom j calls
      → Commits (j + i) (get_or calls i c)
  call_at j i [] c lt commits = absurd (omega arith)
  call_at j zero (d ∷ calls) c lt commits =
      let here : j ≡ j + zero = omega arith in subst (λ k. Commits k d) here commits.0
  call_at j (suc i) (d ∷ calls) c lt commits =
      let there : j + 1 + i ≡ j + suc i = omega arith in
      subst (λ k. Commits k (get_or calls i c)) there
        (call_at (j + 1) i calls c (omega arith) commits.1)

  module _ (n_this : ℕ) (slots : ℕ → ℕ → Bytes) (some_chunk : 1 ≤ n_this)
      (few : n_this ≤ region_threads) where
    abbrev pub wave : Wave
    wave =
        label_disk_wave h session_seed offset algo sink true chunk_blocks n_this super_index_base
          byte_start write_len slots

    wave-IsGood : IsGood n_this 0 [] wave
    unfolding label_disk_wave
    wave-IsGood =
        subst
          (λ b. IsGood n_this 0 [] (
            if b
            then record { slots = slots; calls = []; rc = failed }
            else run_from n_this 0 slots []))
          (sym in_bounds) (wave_lem n_this 0 slots [])
      where
        in_bounds : (ltb n_this 1 || (ltb region_threads n_this || false)) ≡ false
        in_bounds = ground arith

    -- For chunks of 1 to 2^20 blocks and a wave of 1 to 4 super-chunks, `pose_graph_label_disk_wave`
    -- calls the sink once for each super-chunk, and returns 0 if the sink accepts every call and an
    -- error otherwise. A call that fails does not keep the others from being made.
    pub label_disk_wave-all_accepted :
        (length wave.calls ≡ n_this)
        × (wave.rc ≡ (if all_accepted sink [] wave.calls then done tt else failed))
    unfolding IsGood
    label_disk_wave-all_accepted = (wave-IsGood.1, wave-IsGood.2)

    -- For chunks of 1 to 2^20 blocks and a wave of 1 to 4 super-chunks, call `i` of the sink that
    -- `pose_graph_label_disk_wave` makes has `write_len` bytes for the offset
    -- `byte_start + (super_index_base + i) * write_len`, and for each rank `r` its buffer holds, at the
    -- block that `pose_graph_challenge_node_ids` gives for `r`, the label that `pose_graph_challenge`
    -- returns for `r` and this super-chunk.
    pub graph_challenge-label_disk_wave :
        (i r : ℕ) (node_ids : ℕ → ℕ) (labels_buf : ℕ → Bytes) (c : SinkCall)
        → i < n_this
        → r < super_chunk_blocks chunk_blocks
        → ((get_or wave.calls i c).off ≡ byte_start + (super_index_base + i) * write_len)
          × ((get_or wave.calls i c).len ≡ write_len)
          × (graph_challenge h true
                (h.chunk_seed session_seed (
                  (offset + (super_index_base + i) * super_chunk_blocks chunk_blocks)
                  / super_chunk_blocks chunk_blocks))
                (super_chunk_blocks chunk_blocks)
                r
                labels_buf
                algo
              ≡ done ((get_or wave.calls i c).buf (challenge_node_ids chunk_blocks node_ids r)))
    unfolding IsGood
    graph_challenge-label_disk_wave i r node_ids labels_buf c in_wave in_chunk =
        let commits = call_at 0 i wave.calls c (omega (arith, wave-IsGood.1)) wave-IsGood.0 in
        let same : 0 + i ≡ i = omega arith in
        let here : Commits i (get_or wave.calls i c) =
          subst (λ k. Commits k (get_or wave.calls i c)) same commits in
        (here.0, here.1, here.2 r node_ids labels_buf in_chunk)
