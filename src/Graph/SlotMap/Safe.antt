-- ===== src/Graph/SlotMap/Safe.antt =====
-- The slots that `pose_graph_slot_map` assigns: no slot is reused while its node is in use.
use mathlib.Core.Path.{subst}
use po_se_memory_wiping.Prelude.{
  ℕ, zero, suc, ◌+◌, ◌-◌, ◌≤◌, ◌<◌, ◌≡◌, ◌≢◌, refl, sym, ap, ◌∙◌, ◌⊎◌, inl, inr, arith,
}
use native.Mathlib.Decide.{dec_lt, dec_le}
use po_se_memory_wiping.Graph.SlotMap.{
  Buckets, counting_sort, Slots, alloc_slots, free_slots, level_slots,
}
use po_se_memory_wiping.Graph.SlotMap.Sort.{with_key, with_less-suc, with_key-lt, counting_sort_lem}
use po_se_memory_wiping.Graph.SlotMap.Live.{IsSound, weaken-IsSound}
use po_se_memory_wiping.Graph.SlotMap.Places.{
  InUse, StillInUse, Kept, alloc_slots-IsSound, free_slots-IsSound,
}

module _ (count ln : ℕ) (birth death : ℕ → ℕ) (raw : ℕ → ℕ)
    (births : (i : ℕ) → i < count → birth i < ln) (deaths : (i : ℕ) → i < count → death i < ln)
    (lives : (i : ℕ) → i < count → birth i ≤ death i) where
  abbrev born : Buckets
  born = counting_sort birth count ln raw

  abbrev dying : Buckets
  dying = counting_sort death count ln raw

  abbrev Taken : ℕ → ℕ → ℕ → Type 0
  Taken = InUse count ln birth death raw births deaths lives

  abbrev GivenUp : ℕ → ℕ → ℕ → Type 0
  GivenUp = StillInUse count ln birth death raw births deaths lives

  abbrev Leaves : ℕ → ℕ → Slots → Slots → Type 0
  Leaves = Kept count ln birth death raw births deaths lives

  bucket_size :
      (key : ℕ → ℕ) (lv : ℕ)
      → ((i : ℕ) → i < count → key i < ln)
      → lv < ln
      → 0
          + ((counting_sort key count ln raw).start (lv + 1)
              - (counting_sort key count ln raw).start lv)
        ≡ with_key key lv count
  bucket_size key lv keys lt =
      let sorted = counting_sort_lem key count ln raw keys in
      omega (
        arith,
        sorted.0 lv (omega arith),
        sorted.0 (lv + 1) (omega arith),
        with_less-suc key lv count,
      )

  abbrev allocated : ℕ → Slots → Slots
  allocated lv s = alloc_slots born.order (born.start (lv + 1) - born.start lv) (born.start lv) s

  abbrev freed : ℕ → Slots → Slots
  freed lv s = free_slots dying.order (dying.start (lv + 1) - dying.start lv) (dying.start lv) s

  allocated-IsSound :
      (lv : ℕ) (s : Slots)
      → lv < ln
      → IsSound (Taken lv 0) s
      → IsSound (Taken lv (with_key birth lv count)) (allocated lv s)
        × Leaves lv 0 s (allocated lv s)
  allocated-IsSound lv s lt sound =
      let whole : born.start lv + 0 ≡ born.start lv = omega arith in
      subst
        (λ i.
          IsSound (Taken lv (with_key birth lv count))
            (alloc_slots born.order (born.start (lv + 1) - born.start lv) i s)
          × Leaves lv 0 s (alloc_slots born.order (born.start (lv + 1) - born.start lv) i s))
        whole
        (alloc_slots-IsSound count ln birth death raw births deaths lives lv
          (born.start (lv + 1) - born.start lv) 0 s lt (bucket_size birth lv births lt) sound)

  born_by :
      (lv b : ℕ)
      → b < count
      → birth b ≤ lv
      → (birth b < lv) ⊎ ((birth b ≡ lv) × (with_key birth (birth b) b < with_key birth lv count))
  born_by lv b lt' le = elim (dec_lt (birth b) lv) [
    | yes less ↦ inl less
    | no not_less ↦
        let same : birth b ≡ lv = omega arith in
        inr (
          same,
          omega (arith, with_key-lt birth b count lt', ap (λ k. with_key birth k count) same),
        )
  ]

  freed-IsSound :
      (lv : ℕ) (s : Slots)
      → lv < ln
      → IsSound (Taken lv (with_key birth lv count)) s
      → IsSound (Taken (lv + 1) 0) (freed lv s)
        × ((freed lv s).slot_out ≡ s.slot_out)
        × ((freed lv s).next_new ≡ s.next_new)
  freed-IsSound lv s lt sound =
      let whole : dying.start lv + 0 ≡ dying.start lv = omega arith in
      let run =
        subst
          (λ i.
            IsSound (GivenUp lv (with_key death lv count))
              (free_slots dying.order (dying.start (lv + 1) - dying.start lv) i s)
            × ((free_slots dying.order (dying.start (lv + 1) - dying.start lv) i s).slot_out
                ≡ s.slot_out)
            × ((free_slots dying.order (dying.start (lv + 1) - dying.start lv) i s).next_new
                ≡ s.next_new))
          whole
          (free_slots-IsSound count ln birth death raw births deaths lives lv
            (dying.start (lv + 1) - dying.start lv) 0 s lt (bucket_size death lv deaths lt)
            (weaken-IsSound (Taken lv (with_key birth lv count)) (GivenUp lv 0) s
              (λ b live. (live.0, omega (arith, live.2), born_by lv b live.0 live.1)) sound)) in
      (
        weaken-IsSound (GivenUp lv (with_key death lv count)) (Taken (lv + 1) 0) (freed lv s)
            (λ b live. (live.0, omega (arith, live.2), inl (omega (arith, live.1)))) run.0,
        run.1,
        run.2,
      )

  -- The levels from `lv` on: nodes that are in use at the same time get different slots.
  pub level_slots_lem :
      (n lv : ℕ) (s : Slots)
      → lv + n ≡ ln
      → IsSound (Taken lv 0) s
      → ((b : ℕ)
          → b < count
          → birth b < lv
          → (level_slots born dying n lv s).slot_out b ≡ s.slot_out b)
        × ((a b : ℕ)
            → a < count
            → b < count
            → a ≢ b
            → birth a ≤ death b
            → birth b ≤ death a
            → lv ≤ birth a
            → birth b ≤ birth a
            → (level_slots born dying n lv s).slot_out a
              ≢ (level_slots born dying n lv s).slot_out b)
        × ((b : ℕ)
            → b < count
            → lv ≤ birth b
            → (level_slots born dying n lv s).slot_out b < (level_slots born dying n lv s).next_new)
        × (s.next_new ≤ (level_slots born dying n lv s).next_new)
  unfolding level_slots
  level_slots_lem zero lv s at sound = (
    λ b lt less. refl,
    λ a b la lb ne x y le le'. absurd (omega (arith, births a la)),
    λ b lt le. absurd (omega (arith, births b lt)),
    omega arith,
  )
  level_slots_lem (suc n) lv s at sound =
      let now = allocated-IsSound lv s (omega arith) sound in
      let s1 : Slots = allocated lv s in
      let after = freed-IsSound lv s1 (omega arith) now.0 in
      let s2 : Slots = freed lv s1 in
      let rest = level_slots_lem n (lv + 1) s2 (omega arith) after.0 in
      let at_end : (b : ℕ)
          → b < count
          → birth b ≤ lv
          → (level_slots born dying n (lv + 1) s2).slot_out b ≡ s1.slot_out b =
        λ b lt le. rest.0 b lt (omega arith) ∙ ap (λ f. f b) after.1 in
      (
        λ b lt less. at_end b lt (omega arith) ∙ now.1.0 b lt (inl less),
        λ a b la lb ne x y le le' same. elim (dec_le (lv + 1) (birth a)) [
          | yes later ↦ rest.1 a b la lb ne x y later le' same
          | no here ↦
              now.0.apart a b (la, omega (arith, lives a la), born_by lv a la (omega arith))
                (lb, omega arith, born_by lv b lb (omega arith)) ne
                (sym (at_end a la (omega arith)) ∙ same ∙ at_end b lb (omega arith))
        ],
        λ b lt le. elim (dec_le (lv + 1) (birth b)) [
          | yes later ↦ rest.2 b lt later
          | no here ↦ omega (
            arith,
            at_end b lt (omega arith),
            now.0.used b (lt, omega (arith, lives b lt), born_by lv b lt (omega arith)),
            after.2,
            rest.3,
          )
        ],
        omega (arith, now.1.1, after.2, rest.3),
      )
