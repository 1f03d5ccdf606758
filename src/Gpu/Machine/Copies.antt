-- ===== src/Gpu/Machine/Copies.antt =====
-- A turn that copies a label to the persisted region.
use native.Mathlib.Decide.{ℕ_discrete}
use po_se_memory_wiping.Prelude.{
  ℕ, ◌+◌, ◌≤◌, ◌<◌, ◌≡◌, refl, sym, ap, ap₂, ◌∙◌, ◌⊎◌, inl, inr, Option, none, some, update,
  update_self, update_ne,
}
use po_se_memory_wiping.Label.{Bytes, NodeHash}
use po_se_memory_wiping.Graph.Emitter.{Node}
use po_se_memory_wiping.Gpu.{Topo, GpuHash, Device, copy_ranked}
use po_se_memory_wiping.Gpu.Machine

module _ (h : NodeHash) (gh : GpuHash h) (topo : Topo) (seeds : ℕ → Bytes) (bases : ℕ → ℕ)
    (nodes : ℕ → Node) (level last_use cell : ℕ → ℕ) (rank : ℕ → Option ℕ) (L : ℕ → ℕ → Bytes)
    (lo hi : ℕ) where
  abbrev Outside : ℕ → Type 0
  Outside = Machine.Outside h gh topo seeds bases nodes level last_use cell rank L lo hi

  module _ (plan : Machine.IsPlan h gh topo seeds bases nodes level last_use cell rank L lo hi)
      (lv total : ℕ) (region node : ℕ → ℕ)
      (range : (i : ℕ)
        → i < total
        → (lo ≤ region i) × (region i < hi) × (node i < topo.count) × (level (node i) ≡ lv)) where
    abbrev Keeps : Device → Device → Type 0
    Keeps =
        Machine.Keeps h gh topo seeds bases nodes level last_use cell rank L lo hi plan lv total
          region node range

    abbrev Stored : Device → ℕ → Type 0
    Stored =
        Machine.Stored h gh topo seeds bases nodes level last_use cell rank L lo hi plan lv total
          region node range

    unfoldable pub copy_device : ℕ → Device → Device
    copy_device i d = record {
      scratch = d.scratch;
      persist =
          copy_ranked (rank (node i)) (bases (region i)) (d.scratch (region i) (cell (node i)))
            d.persist;
    }

    -- A label that is copied now, or was there before, is there afterwards.
    pub block_after :
        (i : ℕ) (d : Device)
        → i < total
        → Stored d i
        → (c p r : ℕ) → lo ≤ c
        → c < hi
        → p < topo.count
        → rank p ≡ some r
        → (d.persist (bases c + r) ≡ L c p) ⊎ ((c ≡ region i) × (p ≡ node i))
        → (copy_device i d).persist (bases c + r) ≡ L c p
    unfolding copy_device
    block_after i d lt v c p r x y lp is_rank was = by_rank (rank (node i)) refl
      where
        label : Bytes
        label = d.scratch (region i) (cell (node i))

        no_rank : rank p ≡ some r → rank (node i) ≡ none → p ≡ node i → ⊥
        no_rank a b e = clash (sym a ∙ ap rank e ∙ b)
          where
            clash : some r ≡ none → ⊥
            clash q = cc

        same_rank : (r0 : ℕ) → rank (node i) ≡ some r0 → p ≡ node i → r ≡ r0
        same_rank r0 e same = inverse (sym is_rank ∙ ap rank same ∙ e)
          where
            inverse : some r ≡ some r0 → r ≡ r0
            inverse q = cc

        by_rank :
            (o : Option ℕ)
            → rank (node i) ≡ o
            → copy_ranked o (bases (region i)) label d.persist (bases c + r) ≡ L c p
        by_rank none e = elim was [ inl there ↦ there | inr now ↦ absurd (no_rank is_rank e now.1) ]
        by_rank (some r0) e = elim (ℕ_discrete (bases c + r) (bases (region i) + r0)) [
          | yes hit ↦
              let owner =
                plan.unique c (region i) p (node i) r r0
                  (x, y, (range i lt).0, (range i lt).1, lp, (range i lt).2) is_rank e hit in
              ap (update d.persist (bases (region i) + r0) label) hit
              ∙ update_self d.persist (bases (region i) + r0) label
              ∙ v
              ∙ sym (ap₂ L owner.0 owner.1)
          | no miss ↦
              update_ne d.persist (bases (region i) + r0) (bases c + r) label miss ∙ elim was [
                | inl there ↦ there
                | inr now ↦ absurd (miss (ap₂ ◌+◌ (ap bases now.0) (same_rank r0 e now.1)))
              ]
        ]

    pub copy-Keeps : (i : ℕ) (d : Device) → i < total → Stored d i → Keeps d (copy_device i d)
    unfolding copy_device Machine.Outside
    copy-Keeps i d lt v = record {
      cells = λ c p _ _ _ _ _ e. e;
      blocks = λ c p r x y lp is_rank e. block_after i d lt v c p r x y lp is_rank (inl e);
      untouched = λ x out. apart_from x out (rank (node i)) refl;
    }
      where
        apart_from :
            (x : ℕ)
            → Outside x
            → (o : Option ℕ) → rank (node i) ≡ o
            → copy_ranked o (bases (region i)) (d.scratch (region i) (cell (node i))) d.persist x
              ≡ d.persist x
        apart_from x out none e = refl
        apart_from x out (some r) e =
            let in_range = range i lt in
            update_ne d.persist (bases (region i) + r) x (d.scratch (region i) (cell (node i)))
              (out (region i) (node i) r in_range.0 in_range.1 in_range.2 e)
