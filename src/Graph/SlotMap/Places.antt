-- ===== src/Graph/SlotMap/Places.antt =====
-- One level of `pose_graph_slot_map`: its nodes take slots, then those last used there give theirs up.
use mathlib.Core.Path.{subst}
use po_se_memory_wiping.Prelude.{
  ℕ, zero, suc, ◌+◌, ◌≤◌, ◌<◌, ◌≡◌, ◌≢◌, refl, sym, ap, ◌∙◌, ◌⊎◌, inl, inr, ◌∷◌, arith,
}
use po_se_memory_wiping.Graph.SlotMap.{
  Buckets, counting_sort, Slots, take_slot, alloc_slots, free_slots,
}
use po_se_memory_wiping.Graph.SlotMap.Sort.{
  with_key, with_less, of_rank, rank_unique, place_of, counting_sort_lem,
}
use po_se_memory_wiping.Graph.SlotMap.Live.{
  IsSound, take_slot-IsSound, free_slot-IsSound, take_slot_lem,
}

module _ (count ln : ℕ) (birth death : ℕ → ℕ) (raw : ℕ → ℕ)
    (births : (i : ℕ) → i < count → birth i < ln) (deaths : (i : ℕ) → i < count → death i < ln)
    (lives : (i : ℕ) → i < count → birth i ≤ death i) where
  abbrev born : Buckets
  born = counting_sort birth count ln raw

  abbrev dying : Buckets
  dying = counting_sort death count ln raw

  -- In use on level `lv`, when its first `j` nodes have a slot.
  abbrev pub InUse : ℕ → ℕ → ℕ → Type 0
  InUse lv j id =
      (id < count)
      × (lv ≤ death id)
      × ((birth id < lv) ⊎ ((birth id ≡ lv) × (with_key birth (birth id) id < j)))

  -- In use on level `lv`, when the first `j` nodes that are last used there have given up their slots.
  abbrev pub StillInUse : ℕ → ℕ → ℕ → Type 0
  StillInUse lv j id =
      (id < count)
      × (birth id ≤ lv)
      × ((lv < death id) ⊎ ((death id ≡ lv) × (j ≤ with_key death (death id) id)))

  -- The id at place `j` of a bucket.
  in_bucket :
      (key : ℕ → ℕ) (lv j : ℕ)
      → ((i : ℕ) → i < count → key i < ln)
      → lv < ln
      → j < with_key key lv count
      → (id : ℕ) × (id < count)
        × (key id ≡ lv)
        × (with_key key (key id) id ≡ j)
        × ((counting_sort key count ln raw).order ((counting_sort key count ln raw).start lv + j)
            ≡ id)
  in_bucket key lv j keys lt more =
      let found = of_rank key lv j count more in
      let sorted = counting_sort_lem key count ln raw keys in
      let rank : with_key key (key found.0) found.0 ≡ j =
        ap (λ k. with_key key k found.0) found.2 ∙ found.3 in
      let here : (counting_sort key count ln raw).start lv + j ≡ place_of key count found.0 =
        omega (arith, sorted.0 lv (omega arith), rank, ap (λ k. with_less key k count) found.2) in
      (
        found.0,
        found.1,
        found.2,
        rank,
        ap (counting_sort key count ln raw).order here ∙ sorted.1 found.0 found.1,
      )

  abbrev pub Kept : ℕ → ℕ → Slots → Slots → Type 0
  Kept lv j s s' =
      ((b : ℕ)
        → b < count
        → (birth b < lv) ⊎ ((birth b ≡ lv) × (with_key birth (birth b) b < j))
        → s'.slot_out b ≡ s.slot_out b)
      × (s.next_new ≤ s'.next_new)

  -- The ids of the places before `j` are not the one at `j`.
  not_next :
      (lv j b id : ℕ)
      → birth id ≡ lv
      → with_key birth (birth id) id ≡ j
      → (birth b < lv) ⊎ ((birth b ≡ lv) × (with_key birth (birth b) b < j))
      → b ≢ id
  not_next lv j b id at rank (inl less) = λ e. omega (arith, ap birth e)
  not_next lv j b id at rank (inr here) =
      λ e. omega (arith, here.1, ap (λ x. with_key birth (birth x) x) e)

  -- An id at one of the places up to `j` of a bucket, but not the one at `j`, is at an earlier one.
  earlier :
      (key : ℕ → ℕ) (lv j b id : ℕ)
      → key id ≡ lv
      → with_key key (key id) id ≡ j
      → key b ≡ lv
      → b ≢ id
      → with_key key (key b) b ≢ j
  earlier key lv j b id at rank here ne same =
      ne (rank_unique key b id (here ∙ sym at) (same ∙ sym rank))

  InUse-earlier :
      (lv j b id : ℕ)
      → birth id ≡ lv
      → with_key birth (birth id) id ≡ j
      → b ≢ id
      → InUse lv (j + 1) b
      → InUse lv j b
  InUse-earlier lv j b id at rank ne live = (
    live.0,
    live.1,
    elim (live.2) [
      | inl less ↦ inl less
      | inr here ↦ inr (here.0, omega (arith, here.1, earlier birth lv j b id at rank here.0 ne))
    ],
  )

  later_bound :
      (lv j b : ℕ)
      → (birth b < lv) ⊎ ((birth b ≡ lv) × (with_key birth (birth b) b < j))
      → (birth b < lv) ⊎ ((birth b ≡ lv) × (with_key birth (birth b) b < j + 1))
  later_bound lv j b (inl less) = inl less
  later_bound lv j b (inr here) = inr (here.0, omega (arith, here.1))

  pub alloc_slots-IsSound :
      (lv n j : ℕ) (s : Slots)
      → lv < ln
      → j + n ≡ with_key birth lv count
      → IsSound (InUse lv j) s
      → IsSound
          (InUse lv (with_key birth lv count))
          (alloc_slots born.order n (born.start lv + j) s)
        × Kept lv j s (alloc_slots born.order n (born.start lv + j) s)
  unfolding alloc_slots
  alloc_slots-IsSound lv zero j s lt at sound =
      let all : j ≡ with_key birth lv count = omega arith in
      (subst (λ k. IsSound (InUse lv k) s) all sound, (λ b lt' old. refl, omega arith))
  alloc_slots-IsSound lv (suc n) j s lt at sound =
      let next = in_bucket birth lv j births lt (omega arith) in
      let s1 : Slots =
        take_slot (born.order (born.start lv + j)) s.next_new s.slot_out s.free_stack in
      let moved : born.start lv + (j + 1) ≡ born.start lv + j + 1 = omega arith in
      let sound1 : IsSound (InUse lv (j + 1)) s1 =
        take_slot-IsSound (InUse lv j) (InUse lv (j + 1)) (born.order (born.start lv + j))
          s.next_new s.slot_out s.free_stack sound
          (λ b live ne.
            InUse-earlier lv j b next.0 next.2 next.3 (λ e. ne (e ∙ sym next.4)) live) in
      let rest = alloc_slots-IsSound lv n (j + 1) s1 lt (omega arith) sound1 in
      let taken =
        take_slot_lem (born.order (born.start lv + j)) s.next_new s.slot_out s.free_stack in
      subst
        (λ i.
          IsSound (InUse lv (with_key birth lv count)) (alloc_slots born.order n i s1)
          × Kept lv j s (alloc_slots born.order n i s1))
        moved
        (
          rest.0,
          (
            λ b lt' old.
                rest.1.0 b lt' (later_bound lv j b old)
                ∙ taken.0 b (λ e. not_next lv j b next.0 next.2 next.3 old (e ∙ next.4)),
            omega (arith, rest.1.1, taken.1),
          ),
        )

  pub free_slots-IsSound :
      (lv n j : ℕ) (s : Slots)
      → lv < ln
      → j + n ≡ with_key death lv count
      → IsSound (StillInUse lv j) s
      → IsSound
          (StillInUse lv (with_key death lv count))
          (free_slots dying.order n (dying.start lv + j) s)
        × ((free_slots dying.order n (dying.start lv + j) s).slot_out ≡ s.slot_out)
        × ((free_slots dying.order n (dying.start lv + j) s).next_new ≡ s.next_new)
  unfolding free_slots
  free_slots-IsSound lv zero j s lt at sound =
      let all : j ≡ with_key death lv count = omega arith in
      (subst (λ k. IsSound (StillInUse lv k) s) all sound, refl, refl)
  free_slots-IsSound lv (suc n) j s lt at sound =
      let next = in_bucket death lv j deaths lt (omega arith) in
      let id : ℕ = dying.order (dying.start lv + j) in
      let s1 : Slots = record s { free_stack = s.slot_out id ∷ s.free_stack } in
      let moved : dying.start lv + (j + 1) ≡ dying.start lv + j + 1 = omega arith in
      let sound1 : IsSound (StillInUse lv (j + 1)) s1 =
        free_slot-IsSound (StillInUse lv j) (StillInUse lv (j + 1)) id s sound
          (subst (StillInUse lv j) (sym next.4) (
            next.1,
            omega (arith, lives next.0 next.1, next.2),
            inr (next.2, omega (arith, next.3)),
          ))
          (λ b live. (live.0, live.1, still lv j b live.2))
          (λ b live e. gone lv j b next.0 next.2 next.3 (e ∙ next.4) live.2) in
      let rest = free_slots-IsSound lv n (j + 1) s1 lt (omega arith) sound1 in
      subst
        (λ i.
          IsSound (StillInUse lv (with_key death lv count)) (free_slots dying.order n i s1)
          × ((free_slots dying.order n i s1).slot_out ≡ s.slot_out)
          × ((free_slots dying.order n i s1).next_new ≡ s.next_new))
        moved rest
    where
      still :
          (lv j b : ℕ)
          → (lv < death b) ⊎ ((death b ≡ lv) × (j + 1 ≤ with_key death (death b) b))
          → (lv < death b) ⊎ ((death b ≡ lv) × (j ≤ with_key death (death b) b))
      still lv j b (inl more) = inl more
      still lv j b (inr here) = inr (here.0, omega (arith, here.1))

      gone :
          (lv j b id : ℕ)
          → death id ≡ lv
          → with_key death (death id) id ≡ j
          → b ≡ id
          → (lv < death b) ⊎ ((death b ≡ lv) × (j + 1 ≤ with_key death (death b) b))
          → ⊥
      gone lv j b id at rank e (inl more) = omega (arith, ap death e)
      gone lv j b id at rank e (inr here) =
          omega (arith, here.1, ap (λ x. with_key death (death x) x) e)
