-- ===== src/Graph/Pool/Round.antt =====
-- One round on the pool: where each chunk stands, and what a turn of a worker changes.
use po_se_memory_wiping.Prelude.{
  ℕ, zero, suc, ◌+◌, ◌≤◌, ◌≡◌, refl, sym, ap, ◌∙◌, Bool, true, false, if◌then◌else◌, Option, none,
  some, List, [], ◌∷◌, length, All, arith,
}
use po_se_memory_wiping.Label.{Bytes, Algo, NodeHash}
use po_se_memory_wiping.Graph.Chunk.{Outcome}
use po_se_memory_wiping.Graph.Region.{ChunkArg}
use po_se_memory_wiping.Graph.Pool.{
  Slot, slot, ready, waiting, exited, running, wake_all, wake_at, set_jobs, work, turn_at,
}

-- No chunk is left with the worker, and it has not returned.
abbrev pub IsIdle : Slot → Type 0
IsIdle (slot none ready rc) = Unit
IsIdle (slot none waiting rc) = Unit
IsIdle (slot none exited rc) = ⊥
IsIdle (slot none (running a) rc) = ⊥
IsIdle (slot (some a) w rc) = ⊥

abbrev pub is_idle : Slot → Bool
is_idle (slot none ready rc) = true
is_idle (slot none waiting rc) = true
is_idle (slot none exited rc) = false
is_idle (slot none (running a) rc) = false
is_idle (slot (some a) w rc) = false

-- The chunks that the slot's worker has not finished.
abbrev pub pending_of : Slot → ℕ
pending_of (slot none ready rc) = 0
pending_of (slot none waiting rc) = 0
pending_of (slot none exited rc) = 0
pending_of (slot none (running a) rc) = 1
pending_of (slot (some a) w rc) = 1

abbrev pub pending : List Slot → ℕ
pending [] = 0
pending (s ∷ slots) = pending_of s + pending slots

pub pending_idle : (slots : List Slot) → All IsIdle slots → pending slots ≡ 0
pending_idle [] idle = refl
pending_idle (slot none ready rc ∷ slots) idle = omega (arith, pending_idle slots idle.1)
pending_idle (slot none waiting rc ∷ slots) idle = omega (arith, pending_idle slots idle.1)
pending_idle (slot none exited rc ∷ slots) idle = absurd idle.0
pending_idle (slot none (running a) rc ∷ slots) idle = absurd idle.0
pending_idle (slot (some a) w rc ∷ slots) idle = absurd idle.0

module _ (h : NodeHash) (session_seed : Bytes) (offset : ℕ) (algo : Algo)
    (scratch : ℕ → ℕ → Bytes) where
  abbrev pub code : ChunkArg → Outcome (Unit {0})
  code a = (work h session_seed offset algo scratch a (λ i. [])).1

  abbrev pub written_by : ChunkArg → (ℕ → Bytes) → ℕ → Bytes
  written_by a region = (work h session_seed offset algo scratch a region).0

  -- The chunk is queued, being labelled, or done.
  abbrev pub HasChunk : ChunkArg → Slot → Type 0
  HasChunk a (slot (some b) ready rc) = b ≡ a
  HasChunk a (slot (some b) waiting rc) = ⊥
  HasChunk a (slot (some b) exited rc) = ⊥
  HasChunk a (slot (some b) (running c) rc) = ⊥
  HasChunk a (slot none (running b) rc) = b ≡ a
  HasChunk a (slot none ready rc) = rc ≡ code a
  HasChunk a (slot none waiting rc) = rc ≡ code a
  HasChunk a (slot none exited rc) = ⊥

  -- Each chunk of a round is with the worker of its slot, and the other workers have none.
  abbrev pub HaveChunks : List ChunkArg → List Slot → Type 0
  HaveChunks [] slots = All IsIdle slots
  HaveChunks (a ∷ jobs) [] = ⊥
  HaveChunks (a ∷ jobs) (s ∷ slots) = HasChunk a s × HaveChunks jobs slots

  -- The region after the chunks that are done, in the order of their slots.
  abbrev pub written : List ChunkArg → List Slot → (ℕ → Bytes) → ℕ → Bytes
  written [] slots region = region
  written (a ∷ jobs) [] region = region
  written (a ∷ jobs) (s ∷ slots) region =
      written jobs slots (if is_idle s then written_by a region else region)

  -- It does not matter which chunk is written first.
  abbrev pub Commute : ChunkArg → ChunkArg → Type 0
  Commute a b =
      (region : ℕ → Bytes) → written_by b (written_by a region) ≡ written_by a (written_by b region)

  abbrev pub AllCommute : List ChunkArg → Type 0
  AllCommute [] = Unit
  AllCommute (a ∷ jobs) = All (Commute a) jobs × AllCommute jobs

  written-written_by :
      (a : ChunkArg) (jobs : List ChunkArg) (slots : List Slot) (region : ℕ → Bytes)
      → All (Commute a) jobs
      → written jobs slots (written_by a region) ≡ written_by a (written jobs slots region)
  written-written_by a [] slots region c = refl
  written-written_by a (b ∷ jobs) [] region c = refl
  written-written_by a (b ∷ jobs) (s ∷ slots) region c =
      elim (is_idle s)
        as (λ idle.
          written jobs slots
            (if idle then written_by b (written_by a region) else written_by a region)
          ≡ written_by a (written jobs slots (if idle then written_by b region else region))) [
            | true ↦
                ap (written jobs slots) (c.0 region)
                ∙ written-written_by a jobs slots (written_by b region) c.1
            | false ↦ written-written_by a jobs slots region c.1
          ]

  -- A turn passes the chunk on, or finishes it.
  pub data Turned (P : ChunkArg → Type 0) (jobs : List ChunkArg) (slots : List Slot)
      (result : List Slot × Option ChunkArg) : Type 0 where
    goes_on :
        result.1 ≡ none
        → pending result.0 ≡ pending slots
        → ((region : ℕ → Bytes) → written jobs result.0 region ≡ written jobs slots region)
        → Turned P jobs slots result
    finishes :
        (a : ChunkArg)
        → result.1 ≡ some a
        → P a
        → pending slots ≡ suc (pending result.0)
        → ((region : ℕ → Bytes)
            → written jobs result.0 region ≡ written_by a (written jobs slots region))
        → Turned P jobs slots result

  abbrev pub turned_at : (ℕ → Bytes) → ℕ → List Slot → List Slot × Option ChunkArg
  turned_at = turn_at h session_seed offset algo scratch false

  -- Without a chunk a worker goes to wait.
  turn_at-IsIdle :
      (P : ChunkArg → Type 0) (region : ℕ → Bytes) (i : ℕ) (slots : List Slot)
      → All IsIdle slots
      → All IsIdle (turned_at region i slots).0
        × ((turned_at region i slots).1 ≡ none)
        × (pending (turned_at region i slots).0 ≡ pending slots)
  turn_at-IsIdle P region i [] idle = (tt, refl, refl)
  turn_at-IsIdle P region zero (slot none ready rc ∷ slots) idle = (idle, refl, refl)
  turn_at-IsIdle P region zero (slot none waiting rc ∷ slots) idle = (idle, refl, refl)
  turn_at-IsIdle P region zero (slot none exited rc ∷ slots) idle = absurd idle.0
  turn_at-IsIdle P region zero (slot none (running a) rc ∷ slots) idle = absurd idle.0
  turn_at-IsIdle P region zero (slot (some a) w rc ∷ slots) idle = absurd idle.0
  turn_at-IsIdle P region (suc i) (s ∷ slots) idle =
      let rest = turn_at-IsIdle P region i slots idle.1 in
      ((idle.0, rest.0), rest.1, ap (λ n. pending_of s + n) rest.2)

  pub turn_at-HaveChunks :
      (P : ChunkArg → Type 0) (jobs : List ChunkArg) (slots : List Slot) (region : ℕ → Bytes)
      (i : ℕ)
      → ((a : ChunkArg) (r : ℕ → Bytes) → (work h session_seed offset algo scratch a r).1 ≡ code a)
      → AllCommute jobs
      → All P jobs
      → HaveChunks jobs slots
      → HaveChunks jobs (turned_at region i slots).0
        × Turned P jobs slots (turned_at region i slots)
  turn_at-HaveChunks P [] slots region i codes c p have =
      let idle = turn_at-IsIdle P region i slots have in (idle.0, goes_on idle.1 idle.2 (λ r. refl))
  turn_at-HaveChunks P (a ∷ jobs) [] region i codes c p have = absurd have
  turn_at-HaveChunks P (a ∷ jobs) (slot none ready rc ∷ slots) region zero codes c p have =
      (have, goes_on refl refl (λ r. refl))
  turn_at-HaveChunks P (a ∷ jobs) (slot none waiting rc ∷ slots) region zero codes c p have =
      (have, goes_on refl refl (λ r. refl))
  turn_at-HaveChunks P (a ∷ jobs) (slot none exited rc ∷ slots) region zero codes c p have =
      absurd have.0
  turn_at-HaveChunks P (a ∷ jobs) (slot none (running b) rc ∷ slots) region zero codes c p have = (
    (codes b region ∙ ap code have.0, have.1),
    finishes b refl (rw have.0 p.0) (omega arith) (λ r.
        written-written_by a jobs slots r c.0
        ∙ ap (λ x. written_by x (written jobs slots r)) (sym have.0)),
  )
  turn_at-HaveChunks P (a ∷ jobs) (slot (some b) ready rc ∷ slots) region zero codes c p have =
      (have, goes_on refl refl (λ r. refl))
  turn_at-HaveChunks P (a ∷ jobs) (slot (some b) waiting rc ∷ slots) region zero codes c p have =
      absurd have.0
  turn_at-HaveChunks P (a ∷ jobs) (slot (some b) exited rc ∷ slots) region zero codes c p have =
      absurd have.0
  turn_at-HaveChunks P (a ∷ jobs) (slot (some b) (running d) rc ∷ slots) region zero codes c p
        have =
      absurd have.0
  turn_at-HaveChunks P (a ∷ jobs) (s ∷ slots) region (suc i) codes c p have =
      let rest = turn_at-HaveChunks P jobs slots region i codes c.1 p.1 have.1 in
      ((have.0, rest.0), later rest.1)
    where
      later :
          Turned P jobs slots (turned_at region i slots)
          → Turned P (a ∷ jobs) (s ∷ slots) (turned_at region (suc i) (s ∷ slots))
      later (goes_on e n w) =
          goes_on e (ap (λ k. pending_of s + k) n)
            (λ r. w (if is_idle s then written_by a r else r))
      later (finishes b e pb n w) =
          finishes b e pb (omega arith) (λ r. w (if is_idle s then written_by a r else r))

  -- Waking a worker changes nothing else.
  pub wake_at-HaveChunks :
      (jobs : List ChunkArg) (slots : List Slot) (i : ℕ)
      → HaveChunks jobs slots
      → HaveChunks jobs (wake_at i slots)
        × (pending (wake_at i slots) ≡ pending slots)
        × ((region : ℕ → Bytes) → written jobs (wake_at i slots) region ≡ written jobs slots region)
  wake_at-HaveChunks [] slots i have =
      let idle = idle_wake slots i have in (idle.0, idle.1, λ r. refl)
    where
      idle_wake :
          (slots : List Slot) (i : ℕ)
          → All IsIdle slots
          → All IsIdle (wake_at i slots) × (pending (wake_at i slots) ≡ pending slots)
      idle_wake [] i have = (tt, refl)
      idle_wake (slot none ready rc ∷ slots) zero have = (have, refl)
      idle_wake (slot none waiting rc ∷ slots) zero have = (have, refl)
      idle_wake (slot none exited rc ∷ slots) zero have = absurd have.0
      idle_wake (slot none (running a) rc ∷ slots) zero have = absurd have.0
      idle_wake (slot (some a) w rc ∷ slots) zero have = absurd have.0
      idle_wake (s ∷ slots) (suc i) have =
          let rest = idle_wake slots i have.1 in
          ((have.0, rest.0), ap (λ n. pending_of s + n) rest.1)
  wake_at-HaveChunks (a ∷ jobs) [] i have = absurd have
  wake_at-HaveChunks (a ∷ jobs) (slot none ready rc ∷ slots) zero have = (have, refl, λ r. refl)
  wake_at-HaveChunks (a ∷ jobs) (slot none waiting rc ∷ slots) zero have = (have, refl, λ r. refl)
  wake_at-HaveChunks (a ∷ jobs) (slot none exited rc ∷ slots) zero have = absurd have.0
  wake_at-HaveChunks (a ∷ jobs) (slot none (running b) rc ∷ slots) zero have =
      (have, refl, λ r. refl)
  wake_at-HaveChunks (a ∷ jobs) (slot (some b) ready rc ∷ slots) zero have = (have, refl, λ r. refl)
  wake_at-HaveChunks (a ∷ jobs) (slot (some b) waiting rc ∷ slots) zero have = absurd have.0
  wake_at-HaveChunks (a ∷ jobs) (slot (some b) exited rc ∷ slots) zero have = absurd have.0
  wake_at-HaveChunks (a ∷ jobs) (slot (some b) (running d) rc ∷ slots) zero have = absurd have.0
  wake_at-HaveChunks (a ∷ jobs) (s ∷ slots) (suc i) have =
      let rest = wake_at-HaveChunks jobs slots i have.1 in
      (
        (have.0, rest.0),
        ap (λ n. pending_of s + n) rest.1,
        λ r. rest.2 (if is_idle s then written_by a r else r),
      )

  -- A round starts with every chunk queued and no label written.
  pub set_jobs-HaveChunks :
      (jobs : List ChunkArg) (slots : List Slot) (region : ℕ → Bytes)
      → length jobs ≤ length slots
      → All IsIdle slots
      → HaveChunks jobs (wake_all (set_jobs jobs slots))
        × (pending (wake_all (set_jobs jobs slots)) ≡ length jobs)
        × (written jobs (wake_all (set_jobs jobs slots)) region ≡ region)
  set_jobs-HaveChunks [] [] region le idle = (tt, refl, refl)
  set_jobs-HaveChunks [] (slot none ready rc ∷ slots) region le idle =
      let rest = set_jobs-HaveChunks [] slots region (omega arith) idle.1 in
      ((tt, rest.0), omega (arith, rest.1), refl)
  set_jobs-HaveChunks [] (slot none waiting rc ∷ slots) region le idle =
      let rest = set_jobs-HaveChunks [] slots region (omega arith) idle.1 in
      ((tt, rest.0), omega (arith, rest.1), refl)
  set_jobs-HaveChunks [] (slot none exited rc ∷ slots) region le idle = absurd idle.0
  set_jobs-HaveChunks [] (slot none (running a) rc ∷ slots) region le idle = absurd idle.0
  set_jobs-HaveChunks [] (slot (some a) w rc ∷ slots) region le idle = absurd idle.0
  set_jobs-HaveChunks (a ∷ jobs) [] region le idle = absurd (omega arith)
  set_jobs-HaveChunks (a ∷ jobs) (slot none ready rc ∷ slots) region le idle =
      let rest = set_jobs-HaveChunks jobs slots region (omega arith) idle.1 in
      ((refl, rest.0), omega (arith, rest.1), rest.2)
  set_jobs-HaveChunks (a ∷ jobs) (slot none waiting rc ∷ slots) region le idle =
      let rest = set_jobs-HaveChunks jobs slots region (omega arith) idle.1 in
      ((refl, rest.0), omega (arith, rest.1), rest.2)
  set_jobs-HaveChunks (a ∷ jobs) (slot none exited rc ∷ slots) region le idle = absurd idle.0
  set_jobs-HaveChunks (a ∷ jobs) (slot none (running b) rc ∷ slots) region le idle = absurd idle.0
  set_jobs-HaveChunks (a ∷ jobs) (slot (some b) w rc ∷ slots) region le idle = absurd idle.0

  -- When nothing is pending, every chunk is done and the workers are idle again.
  pub pending-HaveChunks :
      (jobs : List ChunkArg) (slots : List Slot)
      → HaveChunks jobs slots
      → pending slots ≡ 0
      → All IsIdle slots
  pending-HaveChunks [] slots have none_left = have
  pending-HaveChunks (a ∷ jobs) [] have none_left = tt
  pending-HaveChunks (a ∷ jobs) (slot none ready rc ∷ slots) have none_left =
      (tt, pending-HaveChunks jobs slots have.1 (omega arith))
  pending-HaveChunks (a ∷ jobs) (slot none waiting rc ∷ slots) have none_left =
      (tt, pending-HaveChunks jobs slots have.1 (omega arith))
  pending-HaveChunks (a ∷ jobs) (slot none exited rc ∷ slots) have none_left = absurd have.0
  pending-HaveChunks (a ∷ jobs) (slot none (running b) rc ∷ slots) have none_left =
      absurd (omega arith)
  pending-HaveChunks (a ∷ jobs) (slot (some b) w rc ∷ slots) have none_left = absurd (omega arith)
