-- ===== src/Prelude/Bits.antt =====
-- The bits of an index: flipping, clearing and setting one bit by `^`, `& ~` and `|`.
use Prim.Native.Nat.{
  ℕ, zero, suc, ◌+◌, ◌-◌, ◌*◌, ◌/◌, ◌%◌, ◌^◌, ◌≤◌, ◌<◌, min, max, digits, differ, bit_and, bit_or,
  bit_xor, bit_and-bitwise, bit_or-bitwise, bit_xor-bitwise,
}
use mathlib.Core.Path.{◌≡◌, refl, ap, ap₂, ◌∙◌}
use mathlib.Core.Logic.{◌⊎◌, inl, inr}
use native.Mathlib.Nat.{le_refl, one-le-pow, pow-le-pow_right}
use native.Mathlib.Omega.{arith}
use native.Mathlib.Decide.{dec_lt}

-- The digit recursion behind the native operations needs no more fuel than the number.
module _ (z : ℕ → ℕ) (f : ℕ → ℕ → ℕ) where
  digits_enough : (n m a b : ℕ) → a ≤ n → a ≤ m → digits z f n a b ≡ digits z f m a b
  digits_enough zero zero a b p q = refl
  digits_enough zero (suc m) zero b p q = refl
  digits_enough zero (suc m) (suc a) b p q = absurd (omega arith)
  digits_enough (suc n) zero zero b p q = refl
  digits_enough (suc n) zero (suc a) b p q = absurd (omega arith)
  digits_enough (suc n) (suc m) zero b p q = refl
  digits_enough (suc n) (suc m) (suc a) b p q =
      rw (digits_enough n m (suc a / 2) (b / 2) (omega arith) (omega arith))

-- One equation for the lowest bit of each operation.
and_step : (a b : ℕ) → bit_and a b ≡ bit_and (a / 2) (b / 2) * 2 + min (a % 2) (b % 2)
and_step zero b = simp bit_and-bitwise (omega arith)
and_step (suc a) b = simp bit_and-bitwise (
    omega (
      arith,
      digits_enough (λ b. zero) min a (suc a / 2) (suc a / 2) (b / 2) (omega arith) (le_refl _),
    ))

or_step : (a b : ℕ) → bit_or a b ≡ bit_or (a / 2) (b / 2) * 2 + max (a % 2) (b % 2)
or_step zero b = simp bit_or-bitwise (omega arith)
or_step (suc a) b = simp bit_or-bitwise (
    omega (
      arith,
      digits_enough (λ b. b) max a (suc a / 2) (suc a / 2) (b / 2) (omega arith) (le_refl _),
    ))

xor_step : (a b : ℕ) → bit_xor a b ≡ bit_xor (a / 2) (b / 2) * 2 + differ (a % 2) (b % 2)
xor_step zero b = simp bit_xor-bitwise (omega arith)
xor_step (suc a) b = simp bit_xor-bitwise (
    omega (
      arith,
      digits_enough (λ b. b) differ a (suc a / 2) (suc a / 2) (b / 2) (omega arith) (le_refl _),
    ))

or_double : (i b : ℕ) → bit_or i (2 * b) ≡ bit_or (i / 2) b * 2 + i % 2
or_double i b = omega (arith, or_step i (2 * b), ap (λ k. bit_or (i / 2) k) half)
  where
    half : 2 * b / 2 ≡ b
    half = omega arith

xor_double : (i b : ℕ) → bit_xor i (2 * b) ≡ bit_xor (i / 2) b * 2 + i % 2
xor_double i b =
    xor_step i (2 * b) ∙ ap₂ (λ k d. bit_xor (i / 2) k * 2 + d) half (low (i % 2) (omega arith))
  where
    half : 2 * b / 2 ≡ b
    half = omega arith

    low : (d : ℕ) → d < 2 → differ d (2 * b % 2) ≡ d
    low zero lt = omega arith
    low (suc zero) lt = rw even
      where
        even : 2 * b % 2 ≡ 0
        even = omega arith
    low (suc (suc d)) lt = absurd (omega arith)

and_odd : (i k : ℕ) → bit_and i (2 * k + 1) ≡ bit_and (i / 2) k * 2 + i % 2
and_odd i k = omega (arith, and_step i (2 * k + 1), ap (λ n. bit_and (i / 2) n) half)
  where
    half : (2 * k + 1) / 2 ≡ k
    half = omega arith

and_even : (i k : ℕ) → bit_and i (2 * k) ≡ bit_and (i / 2) k * 2
and_even i k = omega (arith, and_step i (2 * k), ap (λ n. bit_and (i / 2) n) half)
  where
    half : 2 * k / 2 ≡ k
    half = omega arith

or_zero : (n a : ℕ) → a ≤ n → bit_or a 0 ≡ a
or_zero n zero le = refl
or_zero zero (suc a) le = absurd (omega arith)
or_zero (suc n) (suc a) le = omega (arith, or_double (suc a) 0, or_zero n (suc a / 2) (omega arith))

xor_zero : (n a : ℕ) → a ≤ n → bit_xor a 0 ≡ a
xor_zero n zero le = refl
xor_zero zero (suc a) le = absurd (omega arith)
xor_zero (suc n) (suc a) le =
    omega (arith, xor_double (suc a) 0, xor_zero n (suc a / 2) (omega arith))

and_ones : (w i : ℕ) → i < 2 ^ w → bit_and i (2 ^ w - 1) ≡ i
and_ones zero i lt = low i lt
  where
    low : (i : ℕ) → i < 2 ^ 0 → bit_and i (2 ^ 0 - 1) ≡ i
    low zero lt = refl
    low (suc i) lt = absurd (omega arith)
and_ones (suc w) i lt =
    ap (λ k. bit_and i k) odd
    ∙ omega (arith, and_odd i (2 ^ w - 1), and_ones w (i / 2) (omega arith))
  where
    odd : 2 ^ suc w - 1 ≡ 2 * (2 ^ w - 1) + 1
    odd = omega (arith, one-le-pow w 2 (omega arith))

-- What the three operations do with bit `r` of a number below `2 ^ w`.
abbrev pub Unset : ℕ → ℕ → ℕ → Type 0
Unset w r i =
    (bit_xor i (2 ^ r) ≡ i + 2 ^ r)
    × (bit_or i (2 ^ r) ≡ i + 2 ^ r)
    × (bit_and i (2 ^ w - 1 - 2 ^ r) ≡ i)
    × (i + 2 ^ r < 2 ^ w)

abbrev pub Set : ℕ → ℕ → ℕ → Type 0
Set w r i =
    (bit_xor i (2 ^ r) + 2 ^ r ≡ i)
    × (bit_or i (2 ^ r) ≡ i)
    × (bit_and i (2 ^ w - 1 - 2 ^ r) + 2 ^ r ≡ i)

xor_one : (i : ℕ) → bit_xor i (2 ^ 0) ≡ i / 2 * 2 + (1 - i % 2)
xor_one i =
    xor_step i 1
    ∙ ap₂ (λ k d. k * 2 + d) (xor_zero (i / 2) (i / 2) (le_refl _)) (low (i % 2) (omega arith))
  where
    low : (d : ℕ) → d < 2 → differ d 1 ≡ 1 - d
    low zero lt = refl
    low (suc zero) lt = refl
    low (suc (suc d)) lt = absurd (omega arith)

or_one : (i : ℕ) → bit_or i (2 ^ 0) ≡ i / 2 * 2 + 1
or_one i = omega (arith, or_step i 1, or_zero (i / 2) (i / 2) (le_refl _))

and_rest : (w i : ℕ) → i < 2 ^ suc w → bit_and i (2 ^ suc w - 1 - 2 ^ 0) ≡ i / 2 * 2
and_rest w i lt =
    ap (bit_and i) even ∙ omega (arith, and_even i (2 ^ w - 1), and_ones w (i / 2) (omega arith))
  where
    even : 2 ^ suc w - 1 - 2 ^ 0 ≡ 2 * (2 ^ w - 1)
    even = omega (arith, one-le-pow w 2 (omega arith))

lowest_bit : (w i : ℕ) → i < 2 ^ suc w → Unset (suc w) 0 i ⊎ Set (suc w) 0 i
lowest_bit w i lt =
    let x : bit_xor i (2 ^ 0) ≡ i / 2 * 2 + (1 - i % 2) = xor_one i in
    let o : bit_or i (2 ^ 0) ≡ i / 2 * 2 + 1 = or_one i in
    let a : bit_and i (2 ^ suc w - 1 - 2 ^ 0) ≡ i / 2 * 2 = and_rest w i lt in
    elim (dec_lt (i % 2) 1) [
      | yes even ↦ inl (x ∙ omega arith, o ∙ omega arith, a ∙ omega arith, omega arith)
      | no odd ↦
          inr (ap (λ k. k + 1) x ∙ omega arith, o ∙ omega arith, ap (λ k. k + 1) a ∙ omega arith)
    ]

pow-le : (w r : ℕ) → r < w → 2 ^ r + 1 ≤ 2 ^ w
pow-le w r lt = omega (
  arith,
  one-le-pow r 2 (omega arith),
  pow-le-pow_right {n = 2} (omega arith) {i = suc r} {j = w} lt,
)

-- Bit `r` of a number is unset or set, and the operations flip, set and clear it.
pub flip_cases : (w r i : ℕ) → r < w → i < 2 ^ w → Unset w r i ⊎ Set w r i
flip_cases zero r i lt small = absurd (omega arith)
flip_cases (suc w) zero i lt small = lowest_bit w i small
flip_cases (suc w) (suc r) i lt small =
    let x : bit_xor i (2 ^ suc r) ≡ bit_xor (i / 2) (2 ^ r) * 2 + i % 2 =
      ap (bit_xor i) twice ∙ xor_double i (2 ^ r) in
    let o : bit_or i (2 ^ suc r) ≡ bit_or (i / 2) (2 ^ r) * 2 + i % 2 =
      ap (bit_or i) twice ∙ or_double i (2 ^ r) in
    let a : bit_and i (2 ^ suc w - 1 - 2 ^ suc r)
        ≡ bit_and (i / 2) (2 ^ w - 1 - 2 ^ r) * 2 + i % 2 =
      ap (bit_and i) odd ∙ and_odd i (2 ^ w - 1 - 2 ^ r) in
    elim (flip_cases w r (i / 2) (omega arith) (omega arith)) [
      | inl c ↦ inl (
        x ∙ omega (arith, c.0),
        o ∙ omega (arith, c.1),
        a ∙ omega (arith, c.2),
        omega (arith, c.3),
      )
      | inr c ↦ inr (
        ap (λ k. k + 2 ^ suc r) x ∙ omega (arith, c.0),
        o ∙ omega (arith, c.1),
        ap (λ k. k + 2 ^ suc r) a ∙ omega (arith, c.2),
      )
    ]
  where
    twice : 2 ^ suc r ≡ 2 * 2 ^ r
    twice = omega arith

    odd : 2 ^ suc w - 1 - 2 ^ suc r ≡ 2 * (2 ^ w - 1 - 2 ^ r) + 1
    odd = omega (arith, pow-le w r (omega arith))

and_zero : (n a : ℕ) → a ≤ n → bit_and a 0 ≡ 0
and_zero n zero le = and_step 0 0 ∙ omega arith
and_zero zero (suc a) le = absurd (omega arith)
and_zero (suc n) (suc a) le =
    and_step (suc a) 0 ∙ omega (arith, and_zero n (suc a / 2) (omega arith))

-- `n & 0xff`
pub and_byte : (n : ℕ) → bit_and n 0xff ≡ n % 2 ^ 8
and_byte n =
    let b0 : bit_and n 255 ≡ bit_and (n / 2) 127 * 2 + n % 2 = and_odd n 127 in
    let b1 : bit_and (n / 2) 127 ≡ bit_and (n / 2 / 2) 63 * 2 + n / 2 % 2 = and_odd (n / 2) 63 in
    let b2 : bit_and (n / 2 / 2) 63 ≡ bit_and (n / 2 / 2 / 2) 31 * 2 + n / 2 / 2 % 2 =
      and_odd (n / 2 / 2) 31 in
    let b3 : bit_and (n / 2 / 2 / 2) 31 ≡ bit_and (n / 2 / 2 / 2 / 2) 15 * 2 + n / 2 / 2 / 2 % 2 =
      and_odd (n / 2 / 2 / 2) 15 in
    let b4 : bit_and (n / 2 / 2 / 2 / 2) 15
        ≡ bit_and (n / 2 / 2 / 2 / 2 / 2) 7 * 2 + n / 2 / 2 / 2 / 2 % 2 =
      and_odd (n / 2 / 2 / 2 / 2) 7 in
    let b5 : bit_and (n / 2 / 2 / 2 / 2 / 2) 7
        ≡ bit_and (n / 2 / 2 / 2 / 2 / 2 / 2) 3 * 2 + n / 2 / 2 / 2 / 2 / 2 % 2 =
      and_odd (n / 2 / 2 / 2 / 2 / 2) 3 in
    let b6 : bit_and (n / 2 / 2 / 2 / 2 / 2 / 2) 3
        ≡ bit_and (n / 2 / 2 / 2 / 2 / 2 / 2 / 2) 1 * 2 + n / 2 / 2 / 2 / 2 / 2 / 2 % 2 =
      and_odd (n / 2 / 2 / 2 / 2 / 2 / 2) 1 in
    let b7 : bit_and (n / 2 / 2 / 2 / 2 / 2 / 2 / 2) 1
        ≡ bit_and (n / 2 / 2 / 2 / 2 / 2 / 2 / 2 / 2) 0 * 2 + n / 2 / 2 / 2 / 2 / 2 / 2 / 2 % 2 =
      and_odd (n / 2 / 2 / 2 / 2 / 2 / 2 / 2) 0 in
    omega (
      arith,
      and_zero (n / 2 / 2 / 2 / 2 / 2 / 2 / 2 / 2) (n / 2 / 2 / 2 / 2 / 2 / 2 / 2 / 2) (le_refl _),
    )
