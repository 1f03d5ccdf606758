-- ===== src/Gpu/Items.antt =====
-- The items of a wave: the nodes of a level in each of its scaffolds, by quotient and remainder.
use native.Mathlib.Decide.{dec_lt}
use native.Mathlib.Nat.{mul-le-mul_right, mul-le-mul}
use po_se_memory_wiping.Prelude.{
  ℕ, zero, suc, ◌+◌, ◌-◌, ◌*◌, ◌/◌, ◌%◌, ◌^◌, ◌≤◌, ◌<◌, ◌≡◌, ap, false, ltb, le→ltb, List, arith,
}
use po_se_memory_wiping.Gpu.Fair.{IsFair}

-- Item `c * n + j` is node `j` of scaffold `c`.
pub item_of : (n c j : ℕ) → j < n → ((c * n + j) / n ≡ c) × ((c * n + j) % n ≡ j)
item_of n c j lt =
    let whole : (c * n + j) / n * n + (c * n + j) % n ≡ c * n + j = omega (arith, lt) in
    let rest : (c * n + j) % n < n = omega (arith, lt) in
    let quotient : (c * n + j) / n ≡ c = elim (dec_lt ((c * n + j) / n) c) [
      | yes low ↦ absurd (
          omega (
            arith,
            whole,
            rest,
            more ((c * n + j) / n),
            mul-le-mul_right {m = suc ((c * n + j) / n)} {n = c} n (omega arith),
          ))
      | no not_low ↦ elim (dec_lt c ((c * n + j) / n)) [
        | yes high ↦ absurd (
            omega (
              arith,
              whole,
              lt,
              more c,
              mul-le-mul_right {m = suc c} {n = (c * n + j) / n} n (omega arith),
            ))
        | no not_high ↦ omega arith
      ]
    ] in
    (quotient, omega (arith, whole, ap (λ q. q * n) quotient))
  where
    more : (q : ℕ) → suc q * n ≡ q * n + n
    more q = omega arith

pub item_range : (n w i : ℕ) → i < n * w → (0 < n) × (i / n < w) × (i % n < n)
item_range n w i lt = (pos n lt, quotient, omega (arith, pos n lt))
  where
    pos : (n : ℕ) → i < n * w → 0 < n
    pos zero lt = absurd (omega arith)
    pos (suc n) lt = omega arith

    quotient : i / n < w
    quotient = elim (dec_lt (i / n) w) [
      | yes less ↦ less
      | no not_less ↦ absurd (
          omega
            (arith, pos n lt, lt, mul-le-mul_right {m = w} {n = i / n} n (omega arith), swapped))
    ]
      where
        swapped : w * n ≡ n * w
        swapped = omega arith

pub item_fits : (n w c j : ℕ) → j < n → c < w → c * n + j < n * w
item_fits n w c j lj lc =
    omega (arith, next, mul-le-mul_right {m = suc c} {n = w} n (omega arith), swapped)
  where
    next : suc c * n ≡ c * n + n
    next = omega arith

    swapped : w * n ≡ n * w
    swapped = omega arith

pub IsFair-le :
    (s n s' n' : ℕ) (turns : List ℕ) → s ≤ s' → n ≤ n' → IsFair s' n' turns → IsFair s n turns
IsFair-le s n s' n' turns ls ln fair t lt = omega (arith, fair t (omega arith))

-- A grid of at most 64 scaffolds with less than 2^32 items each is small enough.
pub grid_fits : (n w : ℕ) → n < 2 ^ 32 → w ≤ 64 → ltb 0x7fffffff ((n * w + 256 - 1) / 256) ≡ false
grid_fits n w ln lw = le→ltb 0x7fffffff ((n * w + 256 - 1) / 256) (omega (arith, bound))
  where
    bound : n * w ≤ 2 ^ 32 * 64
    bound = let small : n ≤ 2 ^ 32 = omega arith in mul-le-mul small lw
