-- ===== src/Graph/Counts/Parameter.antt =====
-- `pose_graph_parameter_n` against its description in graph.h.
use po_se_memory_wiping.Prelude.{
  ℕ, zero, suc, ◌+◌, ◌-◌, ◌*◌, ◌/◌, ◌^◌, ◌≤◌, ◌<◌, ◌≡◌, arith, ◌∙◌, refl, ◌↔◌,
}
use native.Mathlib.Decide.{dec_lt}
use native.Mathlib.Numerals.{towards_suc}
use native.Mathlib.Nat.{pow-suc}
use native.Mathlib.Nat.{pow-le-pow_right}
use po_se_memory_wiping.Graph.Counts.{bit_length, parameter_n}

-- The loop counts the bits of `v`.
record IsBitLength (v k : ℕ) : Type 0 where
  below : v < 2 ^ k
  tight : 0 < v → 2 ^ k ≤ 2 * v
  empty : v ≡ 0 → k ≡ 0

bit_length-pos :
    (fuel v bits : ℕ) → 0 < v → bit_length (suc fuel) v bits ≡ bit_length fuel (v / 2) (bits + 1)
unfolding bit_length
bit_length-pos fuel v bits h = ground arith

bit_length-zero : (fuel bits : ℕ) → bit_length fuel 0 bits ≡ bits
unfolding bit_length
bit_length-zero zero bits = refl
bit_length-zero (suc fuel) bits = ground arith

IsBitLength-double : (v k : ℕ) → 0 < v → IsBitLength (v / 2) k → IsBitLength v (k + 1)
IsBitLength-double v k pos h = record {
  below = omega (arith, pow-suc 2 k, step);
  tight = λ _. elim (dec_lt 0 (v / 2)) [
    | yes more ↦ omega (arith, step, h.tight more)
    | no last ↦ rw (h.empty (omega arith)) (omega arith)
  ];
  empty = λ e. absurd (omega arith);
}
  where
    step : 2 ^ (k + 1) ≡ 2 * 2 ^ k
    step = simp towards_suc (omega arith)

-- Enough fuel: the bits of the number.
bit_length_lem :
    (fuel v bits : ℕ)
    → v < 2 ^ fuel
    → (k : ℕ) × (bit_length fuel v bits ≡ bits + k) × IsBitLength v k
bit_length_lem fuel zero bits h = (
  0,
  bit_length-zero fuel bits ∙ omega arith,
  record { below = omega arith; tight = λ p. omega arith; empty = λ e. refl },
)
bit_length_lem zero (suc v) bits h = absurd (omega arith)
bit_length_lem (suc fuel) (suc v) bits h =
    let rest = bit_length_lem fuel (suc v / 2) (bits + 1) (omega arith) in
    (
      rest.0 + 1,
      bit_length-pos fuel (suc v) bits (omega arith) ∙ rest.1 ∙ omega arith,
      IsBitLength-double (suc v) rest.0 (omega arith) rest.2,
    )

parameter_n_of_many : (m : ℕ) → 1 < m → parameter_n m ≡ bit_length 64 (m - 1) 0 - 1
unfolding parameter_n
parameter_n_of_many m h = ground arith

parameter_n_of_few : (m : ℕ) → m ≤ 1 → parameter_n m ≡ 0
unfolding parameter_n
parameter_n_of_few m h = ground arith

-- `half_w = 1 << n` is below `m` unless `m` is 1, and two copies of it cover `m`.
pub parameter_n-covers :
    (m : ℕ)
    → 1 ≤ m
    → m ≤ 2 ^ 64
    → (2 ^ parameter_n m ≤ m) × (m ≤ 2 * 2 ^ parameter_n m) × (1 < m → 2 ^ parameter_n m < m)
parameter_n-covers m pos small = elim (dec_lt 1 m) [
  | yes many ↦ covers many (bit_length_lem 64 (m - 1) 0 (omega arith))
  | no few ↦ rw (parameter_n_of_few m (omega arith)) (omega arith)
]
  where
    covers :
        1 < m
        → (k : ℕ) × (bit_length 64 (m - 1) 0 ≡ 0 + k) × IsBitLength (m - 1) k
        → (2 ^ parameter_n m ≤ m) × (m ≤ 2 * 2 ^ parameter_n m) × (1 < m → 2 ^ parameter_n m < m)
    covers many (zero, e, b) = absurd (omega (arith, b.below))
    covers many (suc k, e, b) =
        let n : parameter_n m ≡ k = parameter_n_of_many m many ∙ omega (arith, e) in
        rw n (omega (arith, b.below, b.tight (omega arith), pow-suc 2 k))

-- For every `m` from 1 to 2^64, `pose_graph_parameter_n(m)` is at most `n` exactly when
-- `m <= 2^(n+1)`: it is the smallest `n` with `m <= 2^(n+1)`.
pub parameter_n_least : (m n : ℕ) → 1 ≤ m → m ≤ 2 ^ 64 → (parameter_n m ≤ n) ↔ (m ≤ 2 ^ suc n)
parameter_n_least m n pos small = (fits, least)
  where
    covers : (2 ^ parameter_n m ≤ m) × (m ≤ 2 * 2 ^ parameter_n m) × (1 < m → 2 ^ parameter_n m < m)
    covers = parameter_n-covers m pos small

    fits : parameter_n m ≤ n → m ≤ 2 ^ suc n
    fits le = omega (
      arith,
      covers.1,
      pow-suc 2 n,
      pow-le-pow_right {n = 2} (omega arith) {i = parameter_n m} {j = n} le,
    )

    least : m ≤ 2 ^ suc n → parameter_n m ≤ n
    least room = elim (dec_lt n (parameter_n m)) [
      | no le ↦ omega arith
      | yes lt ↦ elim (dec_lt 1 m) [
        | yes many ↦ absurd (
            omega (
              arith,
              covers.2 many,
              pow-le-pow_right {n = 2} (omega arith) {i = suc n} {j = parameter_n m} lt,
            ))
        | no few ↦ absurd (omega (arith, parameter_n_of_few m (omega arith)))
      ]
    ]
