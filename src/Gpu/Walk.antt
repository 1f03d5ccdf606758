-- ===== src/Gpu/Walk.antt =====
-- `k_label_chunk_thread` walks the nodes as one thread of the kernels by levels would.
use po_se_memory_wiping.Prelude.{
  ℕ, zero, suc, ◌+◌, ◌*◌, ◌≤◌, ◌<◌, ◌≡◌, refl, sym, ap, ◌∙◌, lt→ltb, List, [], ◌∷◌, update_self,
  arith,
}
use po_se_memory_wiping.Label.{Bytes, NodeHash}
use po_se_memory_wiping.Gpu.{
  Topo, GpuHash, Device, Stage, loading, storing, copying, Lane, LevelWork, LevelState, label_item,
  stage_turn, lane_turn, lane_turns, run_level, chunk_level, chunk_levels, walk_order,
  chunk_thread_walk,
}
use po_se_memory_wiping.Gpu.Fair.{turns_of, IsFair}

-- Three turns of thread 0 for each of `n` nodes.
abbrev pub single_turns : ℕ → List ℕ
single_turns zero = []
single_turns (suc n) = 0 ∷ 0 ∷ 0 ∷ single_turns n

pub single_turns-IsFair : (n : ℕ) → IsFair 1 n (single_turns n)
single_turns-IsFair n t lt = let same : t ≡ 0 = omega arith in rw same (enough n)
  where
    enough : (n : ℕ) → 3 * n ≤ turns_of 0 (single_turns n)
    enough zero = omega arith
    enough (suc n) = omega (arith, enough n)

module _ (h : NodeHash) (gh : GpuHash h) (topo : Topo) (seeds : ℕ → Bytes) (bases : ℕ → ℕ)
    (b : ℕ) where
  abbrev walk : ℕ → ℕ → Device → Device
  walk = walk_order h gh topo seeds bases b

  walk-append : (m n i : ℕ) (d : Device) → walk (m + n) i d ≡ walk n (i + m) (walk m i d)
  unfolding walk_order
  walk-append zero n i d =
      let same : zero + n ≡ n = omega arith in
      let at : i ≡ i + zero = omega arith in ap (λ k. walk k i d) same ∙ ap (λ k. walk n k d) at
  walk-append (suc m) n i d =
      let same : suc m + n ≡ suc (m + n) = omega arith in
      let at : i + 1 + m ≡ i + suc m = omega arith in
      ap (λ k. walk k i d) same
      ∙ walk-append m n (i + 1) _
      ∙ ap (λ k. walk n k (walk (suc m) i d)) at

  module _ (lv : ℕ) where
    abbrev w : LevelWork
    w = chunk_level h gh topo seeds bases b lv

    abbrev turn : LevelState → LevelState
    turn = lane_turn h gh topo seeds bases 1 w 0

    abbrev staged : ℕ → Stage → LevelState → LevelState
    staged = stage_turn h gh topo seeds bases 1 w 0

    turn_at :
        (s : LevelState) (i : ℕ) (st : Stage)
        → i < w.total
        → (s.lanes 0).i ≡ i
        → (s.lanes 0).stage ≡ st
        → turn s ≡ staged i st s
    unfolding lane_turn
    turn_at s i st lt at is = rw (at, is, lt→ltb i w.total lt) refl

    item_label : ℕ → LevelState → Bytes
    item_label i s =
        label_item h gh topo seeds bases topo.slot (s.device.scratch b) (seeds b)
          (topo.order (topo.level_start lv + i))

    after_item : ℕ → LevelState → LevelState
    after_item i s = staged i copying (staged i (storing (item_label i s)) (staged i loading s))

    three_turns :
        (s : LevelState) (i : ℕ)
        → i < w.total
        → (s.lanes 0).i ≡ i
        → (s.lanes 0).stage ≡ loading
        → turn (turn (turn s)) ≡ after_item i s
    unfolding after_item item_label stage_turn
    three_turns s i lt at is =
        ap (λ r. turn (turn r)) (turn_at s i loading lt at is)
        ∙ ap turn (
            turn_at s1 i (storing (item_label i s)) lt
              (ap (λ (l : Lane). l.i) (update_self s.lanes 0 l1))
              (ap (λ (l : Lane). l.stage) (update_self s.lanes 0 l1)))
        ∙ turn_at s2 i copying lt (ap (λ (l : Lane). l.i) (update_self s1.lanes 0 l2))
            (ap (λ (l : Lane). l.stage) (update_self s1.lanes 0 l2))
      where
        s1 : LevelState
        s1 = staged i loading s

        s2 : LevelState
        s2 = staged i (storing (item_label i s)) s1

        l1 : Lane
        l1 = record { i = i; stage = storing (item_label i s) }

        l2 : Lane
        l2 = record { i = i; stage = copying }

    after_item-lanes :
        (s : LevelState) (i : ℕ)
        → (((after_item i s).lanes 0).i ≡ i + 1)
          × (((after_item i s).lanes 0).stage ≡ loading)
          × ((after_item i s).device ≡ walk 1 (topo.level_start lv + i) s.device)
    unfolding after_item item_label stage_turn walk_order
    after_item-lanes s i = (
      ap (λ (l : Lane). l.i) (update_self lanes 0 l3),
      ap (λ (l : Lane). l.stage) (update_self lanes 0 l3),
      refl,
    )
      where
        lanes : ℕ → Lane
        lanes = (staged i (storing (item_label i s)) (staged i loading s)).lanes

        l3 : Lane
        l3 = record { i = i + 1; stage = loading }

    lane_turns-walk :
        (n i : ℕ) (s : LevelState)
        → i + n ≡ w.total
        → (s.lanes 0).i ≡ i
        → (s.lanes 0).stage ≡ loading
        → (lane_turns h gh topo seeds bases 1 w (single_turns n) s).device
          ≡ walk n (topo.level_start lv + i) s.device
    unfolding lane_turns walk_order
    lane_turns-walk zero i s total at is = refl
    lane_turns-walk (suc n) i s total at is =
        let next = after_item-lanes s i in
        let place : topo.level_start lv + (i + 1) ≡ topo.level_start lv + i + 1 = omega arith in
        ap (λ r. (lane_turns h gh topo seeds bases 1 w (single_turns n) r).device)
          (three_turns s i (omega arith) at is)
        ∙ lane_turns-walk n (i + 1) (after_item i s) (omega arith) next.0 next.1
        ∙ ap (λ k. walk n k (after_item i s).device) place
        ∙ ap (walk n (topo.level_start lv + i + 1)) next.2

    run_level-walk :
        (n : ℕ) (d : Device)
        → n ≡ w.total
        → run_level h gh topo seeds bases 1 w (single_turns n) d ≡ walk n (topo.level_start lv) d
    unfolding run_level
    run_level-walk n d e =
        let at : topo.level_start lv + 0 ≡ topo.level_start lv = omega arith in
        lane_turns-walk n 0 _ (omega (arith, e)) refl refl ∙ ap (λ k. walk n k d) at

  chunk_levels-walk :
      (n lv : ℕ) (d : Device)
      → ((k : ℕ) → k < lv + n → topo.level_start (k + 1) ≡ topo.level_start k + topo.level_count k)
      → (size : ℕ) × (topo.level_start (lv + n) ≡ topo.level_start lv + size)
        × (chunk_levels h gh topo seeds bases 1 b (λ k. single_turns (topo.level_count k)) n lv d
            ≡ walk size (topo.level_start lv) d)
  unfolding chunk_levels walk_order
  chunk_levels-walk zero lv d sums =
      let same : lv + zero ≡ lv = omega arith in (0, ap topo.level_start same ∙ omega arith, refl)
  chunk_levels-walk (suc n) lv d sums =
      let size = topo.level_count lv in
      let now = run_level-walk lv size d (omega (arith, sums lv (omega arith))) in
      let rest =
        chunk_levels-walk n (lv + 1) (walk size (topo.level_start lv) d)
          (λ k lt. sums k (omega arith)) in
      let shift : lv + suc n ≡ lv + 1 + n = omega arith in
      (
        size + rest.0,
        omega (arith, ap topo.level_start shift, rest.1, sums lv (omega arith)),
        ap
              (chunk_levels h gh topo seeds bases 1 b (λ k. single_turns (topo.level_count k)) n
                (lv + 1))
              now
            ∙ rest.2
            ∙ ap (λ k. walk rest.0 k (walk size (topo.level_start lv) d)) (sums lv (omega arith))
            ∙ sym (walk-append size rest.0 (topo.level_start lv) d),
      )

  -- If the levels fill the order from 0 to `count`, the walk of `k_label_chunk_thread` does what a kernel by
  -- levels does with one thread.
  pub chunk_thread_walk-chunk_levels :
      (d : Device)
      → ((k : ℕ)
          → k < topo.num_levels
          → topo.level_start (k + 1) ≡ topo.level_start k + topo.level_count k)
      → topo.level_start 0 ≡ 0
      → topo.level_start topo.num_levels ≡ topo.count
      → chunk_thread_walk h gh topo seeds bases b d
        ≡ chunk_levels h gh topo seeds bases 1 b
            (λ k. single_turns (topo.level_count k))
            topo.num_levels
            0
            d
  unfolding chunk_thread_walk
  chunk_thread_walk-chunk_levels d sums starts ends =
      let all = chunk_levels-walk topo.num_levels 0 d (λ k lt. sums k (omega arith)) in
      let same : 0 + topo.num_levels ≡ topo.num_levels = omega arith in
      let size : topo.count ≡ all.0 =
        omega (arith, all.1, starts, ends, ap topo.level_start same) in
      ap (λ k. walk k 0 d) size ∙ ap (λ k. walk all.0 k d) (sym starts) ∙ sym all.2
