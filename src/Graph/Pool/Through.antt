-- ===== src/Graph/Pool/Through.antt =====
-- A round from its dispatch to the point where the calling thread has got through.
use po_se_memory_wiping.Prelude.{
  ℕ, ◌≤◌, ◌≡◌, refl, sym, ap, ap₂, ◌∙◌, none, some, List, [], ◌∷◌, ◌++◌, length, arith,
}
use mathlib.Core.Path.{subst}
use po_se_memory_wiping.Label.{Bytes, Algo, NodeHash}
use po_se_memory_wiping.Graph.Region.{ChunkArg, Labelling, first_error, run_pooled}
use po_se_memory_wiping.Graph.Region.Rounds.{first_error-done}
use po_se_memory_wiping.Graph.Pool.{
  Slot, slot, ready, waiting, exited, running, through, Pool, dispatch, round_code, work,
}
use po_se_memory_wiping.Graph.Pool.Round.{
  pending, pending_idle, code, written_by, HaveChunks, written, set_jobs-HaveChunks,
  pending-HaveChunks,
}
use po_se_memory_wiping.Graph.Pool.Safety.{IsQuiet, IsRunning, StandsAt}

module _ (h : NodeHash) (session_seed : Bytes) (offset : ℕ) (algo : Algo)
    (scratch : ℕ → ℕ → Bytes) where
  pub dispatch-IsRunning :
      (jobs : List ChunkArg) (own : ChunkArg) (p : Pool)
      → length jobs ≤ length p.slots
      → IsQuiet p
      → IsRunning h session_seed offset algo scratch jobs own p.region (dispatch jobs own p)
  dispatch-IsRunning [] own p le quiet = record {
    open_for_work = quiet.open_for_work;
    have = quiet.idle;
    counted = omega (arith, quiet.counted, pending_idle p.slots quiet.idle);
    stands = (refl, refl, refl);
  }
  dispatch-IsRunning (a ∷ jobs) own p le quiet =
      let set =
        set_jobs-HaveChunks h session_seed offset algo scratch (a ∷ jobs) p.slots p.region le
          quiet.idle in
      record {
        open_for_work = quiet.open_for_work;
        have = set.0;
        counted = omega (arith, set.1);
        stands = (refl, refl, sym set.2);
      }

  module _
      (codes : (a : ChunkArg) (r : ℕ → Bytes)
        → (work h session_seed offset algo scratch a r).1
          ≡ code h session_seed offset algo scratch a) where
    abbrev in_order : List ChunkArg → (ℕ → Bytes) → Labelling
    in_order = run_pooled h session_seed offset algo scratch

    -- The chunks in the order of their slots, then that of the calling thread.
    all_written :
        (jobs : List ChunkArg) (own : ChunkArg) (slots : List Slot) (r : ℕ → Bytes)
        → HaveChunks h session_seed offset algo scratch jobs slots
        → pending slots ≡ 0
        → ◌≡◌ {A = Labelling}
            (
              written_by h session_seed offset algo scratch own
                  (written h session_seed offset algo scratch jobs slots r),
              round_code (length jobs) slots (code h session_seed offset algo scratch own),
            )
            (in_order (jobs ++ own ∷ []) r)
    unfolding run_pooled
    all_written [] own slots r have none_left =
        ap (λ rc. (written_by h session_seed offset algo scratch own r, rc))
          (sym (codes own r)
            ∙ sym (first_error-done (work h session_seed offset algo scratch own r).1))
    all_written (a ∷ jobs) own [] r have none_left = absurd have
    all_written (a ∷ jobs) own (slot none ready rc ∷ slots) r have none_left =
        ap₂ (λ first (rest : Labelling). (rest.0, first_error first rest.1))
          (have.0 ∙ sym (codes a r))
          (all_written jobs own slots (written_by h session_seed offset algo scratch a r) have.1
            (omega arith))
    all_written (a ∷ jobs) own (slot none waiting rc ∷ slots) r have none_left =
        ap₂ (λ first (rest : Labelling). (rest.0, first_error first rest.1))
          (have.0 ∙ sym (codes a r))
          (all_written jobs own slots (written_by h session_seed offset algo scratch a r) have.1
            (omega arith))
    all_written (a ∷ jobs) own (slot none exited rc ∷ slots) r have none_left = absurd have.0
    all_written (a ∷ jobs) own (slot none (running b) rc ∷ slots) r have none_left =
        absurd (omega arith)
    all_written (a ∷ jobs) own (slot (some b) w rc ∷ slots) r have none_left = absurd (omega arith)

    -- A round that the calling thread has got through.
    pub through_lem :
        (jobs : List ChunkArg) (own : ChunkArg) (old : ℕ → Bytes) (q : Pool)
        → IsRunning h session_seed offset algo scratch jobs own old q
        → q.caller ≡ through
        → ◌≡◌ {A = Labelling}
            (q.region, round_code (length jobs) q.slots q.own_rc)
            (in_order (jobs ++ own ∷ []) old)
          × IsQuiet q
    through_lem jobs own old q r at =
        let s : StandsAt h session_seed offset algo scratch jobs own old through q =
          subst (λ c. StandsAt h session_seed offset algo scratch jobs own old c q) at r.stands in
        (
          ap₂ (λ region rc. (region, round_code (length jobs) q.slots rc)) s.0.0 s.0.1
              ∙ all_written jobs own q.slots old r.have s.1,
          record {
            open_for_work = r.open_for_work;
            idle = pending-HaveChunks h session_seed offset algo scratch jobs q.slots r.have s.1;
            counted = omega (arith, r.counted, s.1);
          },
        )
