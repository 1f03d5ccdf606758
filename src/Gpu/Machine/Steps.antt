-- ===== src/Gpu/Machine/Steps.antt =====
-- What a turn of a thread does: load and hash, store, or copy.
use mathlib.Core.Path.{subst}
use native.Mathlib.Decide.{ℕ_discrete, dec_le}
use native.Mathlib.Nat.{mul-le-mul_right}
use po_se_memory_wiping.Prelude.{
  ℕ, suc, ◌+◌, ◌*◌, ◌≤◌, ◌<◌, ◌≡◌, refl, sym, ap, ◌∙◌, inl, inr, Option, arith,
}
use po_se_memory_wiping.Label.{Bytes, NodeHash}
use po_se_memory_wiping.Graph.Emitter.{Node}
use po_se_memory_wiping.Gpu.{
  Topo, GpuHash, Device, loading, storing, copying, Lane, LevelState, store_cell, label_item,
}
use po_se_memory_wiping.Gpu.Machine
use po_se_memory_wiping.Gpu.Machine.{store_cell_self, store_cell_ne}
use po_se_memory_wiping.Gpu.Machine.Copies

module _ (h : NodeHash) (gh : GpuHash h) (topo : Topo) (seeds : ℕ → Bytes) (bases : ℕ → ℕ)
    (nodes : ℕ → Node) (level last_use cell : ℕ → ℕ) (rank : ℕ → Option ℕ) (L : ℕ → ℕ → Bytes)
    (lo hi : ℕ) where
  module _ (plan : Machine.IsPlan h gh topo seeds bases nodes level last_use cell rank L lo hi)
      (lv total : ℕ) (region node : ℕ → ℕ)
      (range : (i : ℕ)
        → i < total
        → (lo ≤ region i) × (region i < hi) × (node i < topo.count) × (level (node i) ≡ lv)) where
    abbrev Keeps : Device → Device → Type 0
    Keeps =
        Machine.Keeps h gh topo seeds bases nodes level last_use cell rank L lo hi plan lv total
          region node range

    abbrev Stored : Device → ℕ → Type 0
    Stored =
        Machine.Stored h gh topo seeds bases nodes level last_use cell rank L lo hi plan lv total
          region node range

    unfoldable pub store_device : ℕ → Bytes → Device → Device
    store_device i label d = record {
      scratch = store_cell d.scratch (region i) (cell (node i)) label;
      persist = d.persist;
    }

    store-Keeps :
        (i : ℕ) (label : Bytes) (d : Device)
        → i < total
        → label ≡ L (region i) (node i)
        → Keeps d (store_device i label d)
    unfolding store_device
    store-Keeps i label d lt v = record {
      cells = λ c p x y lp before after e. elim (ℕ_discrete p (node i)) [
        | yes same ↦ elim (ℕ_discrete c (region i)) [
          | yes here ↦
              rw (same, here) (store_cell_self d.scratch (region i) (cell (node i)) label ∙ v)
          | no other ↦
              store_cell_ne d.scratch (region i) (cell (node i)) label c (cell p)
                (λ q. absurd (other q))
              ∙ e
        ]
        | no differs ↦
            store_cell_ne d.scratch (region i) (cell (node i)) label c (cell p) (λ q.
              plan.apart p (node i) lp (range i lt).2 differs
                (omega (arith, (range i lt).3, plan.lives (node i) (range i lt).2))
                (omega (arith, (range i lt).3)))
            ∙ e
      ];
      blocks = λ c p r _ _ _ _ e. e;
      untouched = λ x out. refl;
    }

    module _ (stride : ℕ) where
      abbrev Belongs : ℕ → ℕ → Type 0
      Belongs =
          Machine.Belongs h gh topo seeds bases nodes level last_use cell rank L lo hi plan lv total
            region node range stride

      abbrev IsLane : ℕ → Lane → Device → Type 0
      IsLane =
          Machine.IsLane h gh topo seeds bases nodes level last_use cell rank L lo hi plan lv total
            region node range stride

      abbrev InLevel : (ℕ → Bytes) → LevelState → Type 0
      InLevel =
          Machine.InLevel h gh topo seeds bases nodes level last_use cell rank L lo hi plan lv total
            region node range stride

      pub store-IsLane :
          (t i : ℕ) (label : Bytes) (l : Lane) (d : Device)
          → i < total
          → l.i ≡ i
          → l.stage ≡ storing label
          → IsLane t l d
          → IsLane t (record { i = i; stage = copying }) (store_device i label d)
            × Keeps d (store_device i label d)
      unfolding store_device
      store-IsLane t i label l d lt at st is =
          let v : label ≡ L (region i) (node i) =
            subst (λ k. label ≡ L (region k) (node k)) at (is.held label (omega (arith, at)) st) in
          let k = store-Keeps i label d lt v in
          let kept =
            Machine.IsLane-Keeps h gh topo seeds bases nodes level last_use cell rank L lo hi plan
              lv total region node range stride t l d (store_device i label d) k is in
          (
            record {
              at = subst (Belongs t) at is.at;
              held = λ label' lt' e. absurd cc;
              stored = λ j lj b p. elim p [
                | inl before ↦ kept.stored j lj b (inl (omega (arith, at, before)))
                | inr here ↦
                    subst (Stored (store_device i label d)) (sym here.0)
                      (store_cell_self d.scratch (region i) (cell (node i)) label ∙ v)
              ];
              copied = λ j lj b before. kept.copied j lj b (omega (arith, at, before));
            },
            k,
          )

      pub copy-IsLane :
          (t i : ℕ) (l : Lane) (d : Device)
          → i < total
          → l.i ≡ i
          → l.stage ≡ copying
          → IsLane t l d
          → IsLane t
              (record { i = i + stride; stage = loading })
              (Copies.copy_device h gh topo seeds bases nodes level last_use cell rank L lo hi plan
                lv total region node range i d)
            × Keeps d (
                Copies.copy_device h gh topo seeds bases nodes level last_use cell rank L lo hi plan
                  lv total region node range i d)
      unfolding Copies.copy_device
      copy-IsLane t i l d lt at st is =
          let own : Belongs t i = subst (Belongs t) at is.at in
          let v : Stored d i = is.stored i lt own (inr (sym at, st)) in
          let k =
            Copies.copy-Keeps h gh topo seeds bases nodes level last_use cell rank L lo hi plan lv
              total region node range i d lt v in
          let kept =
            Machine.IsLane-Keeps h gh topo seeds bases nodes level last_use cell rank L lo hi plan
              lv total region node range stride t l d
              (Copies.copy_device h gh topo seeds bases nodes level last_use cell rank L lo hi plan
                lv total region node range i d)
              k is in
          (
            record {
              at = (suc own.0, omega (arith, own.1, more own.0));
              held = λ label lt' e. absurd cc;
              stored = λ j lj b p. elim p [
                | inl before ↦ elim (ℕ_discrete j i) [
                  | yes e ↦ kept.stored j lj b (inr (e ∙ sym at, st))
                  | no off ↦ kept.stored j lj b (inl (omega (arith, at, off, next j own b before)))
                ]
                | inr bad ↦ absurd (no_copy bad.1)
              ];
              copied = λ j lj b before r is_rank. elim (ℕ_discrete j i) [
                | yes e ↦
                    let in_range = range j lj in
                    Copies.block_after h gh topo seeds bases nodes level last_use cell rank L lo hi
                      plan lv total region node range i d lt v (region j) (node j) r in_range.0
                      in_range.1 in_range.2 is_rank (inr (ap region e, ap node e))
                | no off ↦
                    kept.copied j lj b (omega (arith, at, off, next j own b before)) r is_rank
              ];
            },
            k,
          )
        where
          no_copy : loading ≡ copying → ⊥
          no_copy e = cc

          more : (k : ℕ) → suc k * stride ≡ k * stride + stride
          more k = omega arith

          -- The item of a thread before its next one is no later than the present one.
          next : (j : ℕ) → Belongs t i → Belongs t j → j < i + stride → j ≤ i
          next j a b before = elim (dec_le b.0 a.0) [
            | yes le ↦ omega (arith, a.1, b.1, mul-le-mul_right {m = b.0} {n = a.0} stride le)
            | no gt ↦ absurd (
                omega (
                  arith,
                  a.1,
                  b.1,
                  more a.0,
                  before,
                  mul-le-mul_right {m = suc a.0} {n = b.0} stride (omega arith),
                ))
          ]

      pub load-IsLane :
          (old : ℕ → Bytes) (t i : ℕ) (s : LevelState)
          → i < total
          → t < stride
          → (s.lanes t).i ≡ i
          → (s.lanes t).stage ≡ loading
          → InLevel old s
          → IsLane t
              (record {
                i = i;
                stage = storing (
                    label_item h gh topo seeds bases cell
                      (s.device.scratch (region i))
                      (seeds (region i))
                      (node i));
              })
              s.device
      load-IsLane old t i s lt thread at st inv =
          let is = inv.lane t thread in
          let r = range i lt in
          let v =
            plan.follows (region i) (node i) (s.device.scratch (region i)) r.2 r.0 r.1 (λ p reads.
              let q = plan.reads (node i) p r.2 reads in
              inv.before.kept (region i) p r.0 r.1 q.0 (omega (arith, q.1, r.3))
                (omega (arith, q.2, r.3))) in
          record {
            at = subst (Belongs t) at is.at;
            held = λ label lt' e. sym (value _ label e) ∙ v;
            stored = λ j lj b p. elim p [
              | inl before ↦ is.stored j lj b (inl (omega (arith, at, before)))
              | inr bad ↦ absurd (no_copy _ bad.1)
            ];
            copied = λ j lj b before. is.copied j lj b (omega (arith, at, before));
          }
        where
          value : (a b : Bytes) → storing a ≡ storing b → a ≡ b
          value a b e = cc

          no_copy : (a : Bytes) → storing a ≡ copying → ⊥
          no_copy a e = cc
