-- ===== src/Graph/Wave.antt =====
-- `pose_graph_label_disk_wave` of graph.c and `chunk_thread_fn` with a sink: super-chunks are labelled
-- in slots of their own and streamed to the sink.
--
-- The sink is the caller's function. Its result may depend on the calls before. The chunks of a wave
-- run one after the other here, in the order of their slots.
pub mod Committed
use po_se_memory_wiping.Prelude.{
  ℕ, zero, suc, ◌+◌, ◌*◌, ◌/◌, Bool, true, false, ◌&&◌, ◌||◌, ltb, ◌==◌, if◌then◌else◌, List, [],
  ◌∷◌, ◌++◌, update, store_all,
}
use po_se_memory_wiping.Label.{Bytes, Algo, NodeHash}
use po_se_memory_wiping.Graph.Counts.{graph_max_m, resolve_chunk_blocks}
use po_se_memory_wiping.Graph.Chunk.{Outcome, done, failed, fault, do_label_inplace, out_of_range}
use po_se_memory_wiping.Graph.Region.{region_threads, first_error}

-- What a call of the sink is given: the buffer in blocks, the bytes to commit, and their offset.
pub record SinkCall : Type 0 where
  pub buf : ℕ → Bytes
  pub len : ℕ
  pub off : ℕ

-- `chunk_arg_t` of a wave. `slot` is the slot whose buffer is `out`.
pub record WaveArg : Type 0 where
  pub cseed : Bytes
  pub m : ℕ
  pub slot : ℕ
  pub algo : Algo
  pub wt_off : ℕ
  pub wt_len : ℕ

-- The slots after a part of a wave, the calls of the sink that it made, and its code.
pub record Wave : Type 0 where
  pub slots : ℕ → ℕ → Bytes
  pub calls : List SinkCall
  pub rc : Outcome (Unit {0})

-- `pose_graph_super_chunk_blocks`
unfoldable pub super_chunk_blocks : ℕ → ℕ
super_chunk_blocks chunk_blocks = resolve_chunk_blocks chunk_blocks

-- `pose_graph_challenge_node_ids`, in an array that holds `node_ids` at first.
unfoldable pub challenge_node_ids : ℕ → (ℕ → ℕ) → ℕ → ℕ
challenge_node_ids chunk_blocks node_ids i =
    let cb = resolve_chunk_blocks chunk_blocks in
    if out_of_range cb then node_ids i else (if ltb i cb then i else node_ids i)

module _ (h : NodeHash) (session_seed : Bytes) (offset : ℕ) (algo : Algo)
    (sink : List SinkCall → SinkCall → Bool) where
  -- The outcome of labelling goes to the slot and, if it is 0, the buffer to the sink.
  abbrev pub commit : WaveArg → (ℕ → ℕ → Bytes) → List SinkCall → Outcome (List Bytes) → Wave
  commit a slots earlier (done labels) =
      let call : SinkCall = record {
        buf = store_all (slots a.slot) 0 labels;
        len = a.wt_len;
        off = a.wt_off;
      } in
      record {
        slots = update slots a.slot (store_all (slots a.slot) 0 labels);
        calls = call ∷ [];
        rc = if sink earlier call then done tt else failed;
      }
  commit a slots earlier failed = record { slots = slots; calls = []; rc = failed }
  commit a slots earlier fault = record { slots = slots; calls = []; rc = fault }

  -- `chunk_thread_fn` when `inplace` is 1 and `wt_sink` is not NULL
  pub wave_thread : WaveArg → (ℕ → ℕ → Bytes) → List SinkCall → Wave
  wave_thread a slots earlier = commit a slots earlier (do_label_inplace h a.cseed a.m a.algo)

  pub run_wave : List WaveArg → (ℕ → ℕ → Bytes) → List SinkCall → Wave
  run_wave [] slots earlier = record { slots = slots; calls = []; rc = done tt }
  run_wave (a ∷ args) slots earlier =
      let now = wave_thread a slots earlier in
      let rest = run_wave args now.slots (earlier ++ now.calls) in
      record {
        slots = rest.slots;
        calls = now.calls ++ rest.calls;
        rc = first_error now.rc rest.rc;
      }

  module _ (cb super_index_base byte_start write_len : ℕ) where
    -- The arguments of the slots from `i` on, `n` of them.
    pub wave_args : ℕ → ℕ → List WaveArg
    wave_args zero i = []
    wave_args (suc n) i =
        let arg : WaveArg = record {
          cseed = h.chunk_seed session_seed ((offset + (super_index_base + i) * cb) / cb);
          m = cb;
          slot = i;
          algo = algo;
          wt_off = byte_start + (super_index_base + i) * write_len;
          wt_len = write_len;
        } in
        arg ∷ wave_args n (i + 1)

  -- `pose_graph_label_disk_wave`. `present` tells whether `sink` is not NULL.
  pub label_disk_wave : Bool → ℕ → ℕ → ℕ → ℕ → ℕ → (ℕ → ℕ → Bytes) → Wave
  label_disk_wave present chunk_blocks n_this super_index_base byte_start write_len slots =
      if ltb n_this 1 || (ltb region_threads n_this || (if present then false else true))
      then record { slots = slots; calls = []; rc = failed }
      else run_wave
          (wave_args (resolve_chunk_blocks chunk_blocks) super_index_base byte_start write_len
            n_this 0)
          slots []
