-- ===== src/Prelude/Memory.antt =====
-- A memory of cells, addressed by number.
use Prim.Native.Nat.{ℕ, ◌+◌}
use mathlib.Core.Path.{◌≡◌}
use mathlib.Core.Logic.{◌≢◌}
use mathlib.Core.List.{List, [], ◌∷◌}
use native.Mathlib.Omega.{arith}
use po_se_memory_wiping.Prelude.Tests.{◌==◌, if◌then◌else◌}

module _ {ℓ} {A : Type ℓ} where
  abbrev pub update : (ℕ → A) → ℕ → A → ℕ → A
  update f i v j = if j == i then v else f j

  pub update_self : (f : ℕ → A) (i : ℕ) (v : A) → update f i v i ≡ v
  update_self f i v = ground arith

  pub update_ne : (f : ℕ → A) (i j : ℕ) (v : A) → j ≢ i → update f i v j ≡ f j
  update_ne f i j v h = ground arith

  -- `memcpy` of whole cells to the cells from `i` on.
  abbrev pub store_all : (ℕ → A) → ℕ → List A → ℕ → A
  store_all f i [] = f
  store_all f i (v ∷ vs) = store_all (update f i v) (i + 1) vs
