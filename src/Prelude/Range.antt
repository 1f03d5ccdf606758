-- ===== src/Prelude/Range.antt =====
-- Runs of consecutive numbers, as the loops `for (i = 0; i < n; i++)` and `next_id++` give them.
use Prim.Native.Nat.{ℕ, zero, suc, ◌+◌, ◌≤◌, ◌<◌}
use mathlib.Core.Path.{◌≡◌, refl, ap, ap₂}
use mathlib.Core.List.{List, [], ◌∷◌, ◌++◌}
use native.Mathlib.Omega.{arith}
use po_se_memory_wiping.Prelude.Lists.{length, get_or, All}

-- The `n` numbers from `s` on.
abbrev pub range' : ℕ → ℕ → List ℕ
range' s zero = []
range' s (suc n) = s ∷ range' (s + 1) n

pub length-range' : (s n : ℕ) → length (range' s n) ≡ n
length-range' s zero = refl
length-range' s (suc n) = ap suc (length-range' (s + 1) n)

pub get_or-range' : (s n i d : ℕ) → i < n → get_or (range' s n) i d ≡ s + i
get_or-range' s zero i d h = absurd (omega arith)
get_or-range' s (suc n) zero d h = omega arith
get_or-range' s (suc n) (suc i) d h = omega (arith, get_or-range' (s + 1) n i d (omega arith))

pub range'-append : (s n m : ℕ) → range' s n ++ range' (s + n) m ≡ range' s (n + m)
range'-append s zero m = ap₂ range' (omega arith) (omega arith)
range'-append s (suc n) m = rw (shift, range'-append (s + 1) n m, total)
  where
    shift : s + suc n ≡ s + 1 + n
    shift = omega arith

    total : suc n + m ≡ suc (n + m)
    total = omega arith

pub All-range'-lt : (s n b : ℕ) → s + n ≤ b → All (λ j. j < b) (range' s n)
All-range'-lt s zero b h = tt
All-range'-lt s (suc n) b h = (omega arith, All-range'-lt (s + 1) n b (omega arith))

pub All-range'-le : (s n b : ℕ) → b ≤ s → All (λ j. b ≤ j) (range' s n)
All-range'-le s zero b h = tt
All-range'-le s (suc n) b h = (h, All-range'-le (s + 1) n b (omega arith))
