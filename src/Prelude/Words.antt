-- ===== src/Prelude/Words.antt =====
-- Bytes and machine words, and the byte buffers that the code writes into.
use Prim.Native.Nat.{ℕ, zero, suc, ◌+◌, ◌*◌, ◌/◌, ◌%◌, ◌^◌, ◌≤◌, bit_xor}
use mathlib.Core.Path.{◌≡◌, refl, ap, ap₂, ◌∙◌}
use mathlib.Core.Bool.{Bool, true, false, ◌&&◌}
use mathlib.Core.List.{List, [], ◌∷◌, ◌++◌}
use native.Mathlib.Omega.{arith}
use po_se_memory_wiping.Prelude.Tests.{◌==◌, ==_iff}
use po_se_memory_wiping.Prelude.Lists.{length, drop}

abbrev pub u8 : ℕ → ℕ
u8 n = n % 2 ^ 8

abbrev pub u32 : ℕ → ℕ
u32 n = n % 2 ^ 32

infixl 75 ◌<<<◌ ◌>>>◌
abbrev pub ◌<<<◌ : ℕ → ℕ → ℕ
x <<< k = x * 2 ^ k

abbrev pub ◌>>>◌ : ℕ → ℕ → ℕ
x >>> k = x / 2 ^ k

-- Big-endian: the eight bytes of a `uint64_t` and the four of a `uint32_t`.
abbrev pub u64_be : ℕ → List ℕ
u64_be n =
    u8 (n >>> 56)
    ∷ u8 (n >>> 48)
    ∷ u8 (n >>> 40)
    ∷ u8 (n >>> 32)
    ∷ u8 (n >>> 24)
    ∷ u8 (n >>> 16)
    ∷ u8 (n >>> 8)
    ∷ u8 n
    ∷ []

abbrev pub u32_be : ℕ → List ℕ
u32_be n = u8 (n >>> 24) ∷ u8 (n >>> 16) ∷ u8 (n >>> 8) ∷ u8 n ∷ []

-- The number that big-endian bytes stand for.
abbrev pub of_be : ℕ → List ℕ → ℕ
of_be n [] = n
of_be n (b ∷ bs) = of_be (n * 256 + b) bs

pub of_be-u64_be : (n : ℕ) → of_be 0 (u64_be n) ≡ n % 2 ^ 64
of_be-u64_be n = omega arith

abbrev pub zeros : ℕ → List ℕ
zeros zero = []
zeros (suc n) = 0 ∷ zeros n

pub length-zeros : (n : ℕ) → length (zeros n) ≡ n
length-zeros zero = refl
length-zeros (suc n) = ap suc (length-zeros n)

pub zeros-append : (m n : ℕ) → zeros (m + n) ≡ zeros m ++ zeros n
zeros-append zero n = ap zeros same
  where
    same : zero + n ≡ n
    same = omega arith
zeros-append (suc m) n = ap zeros more ∙ ap (λ l. 0 ∷ l) (zeros-append m n)
  where
    more : suc m + n ≡ suc (m + n)
    more = omega arith

-- `memcmp(a, b, n) == 0` of two buffers of `n` bytes.
abbrev pub same_bytes : List ℕ → List ℕ → Bool
same_bytes [] [] = true
same_bytes [] (b ∷ bs) = false
same_bytes (a ∷ rest) [] = false
same_bytes (a ∷ rest) (b ∷ bs) = a == b && same_bytes rest bs

and_cases : (c d : Bool) → (c && d) ≡ true → (c ≡ true) × (d ≡ true)
and_cases true true e = (refl, refl)
and_cases true false e = absurd cc
and_cases false d e = absurd cc

pub same_bytes_lem : (a b : List ℕ) → same_bytes a b ≡ true → a ≡ b
same_bytes_lem [] [] e = refl
same_bytes_lem [] (b ∷ bs) e = absurd cc
same_bytes_lem (a ∷ rest) [] e = absurd cc
same_bytes_lem (a ∷ rest) (b ∷ bs) e =
    let both = and_cases (a == b) (same_bytes rest bs) e in
    ap₂ ◌∷◌ ((==_iff a b).0 both.0) (same_bytes_lem rest bs both.1)

-- A buffer of `n` bytes.
abbrev pub Buffer : ℕ → Type 0
Buffer n = (bytes : List ℕ) × (length bytes ≡ n)

-- `a ^ b` byte by byte.
abbrev pub xor_bytes : List ℕ → List ℕ → List ℕ
xor_bytes [] ys = []
xor_bytes (x ∷ xs) [] = []
xor_bytes (x ∷ xs) (y ∷ ys) = bit_xor x y ∷ xor_bytes xs ys

module _ {ℓ} {A : Type ℓ} where
  -- `memcpy(buf + off, bytes, length)`. What would lie outside the buffer is not written.
  unfoldable pub write : List A → ℕ → List A → List A
  write [] off bs = []
  write (x ∷ xs) (suc off) bs = x ∷ write xs off bs
  write (x ∷ xs) zero [] = x ∷ xs
  write (x ∷ xs) zero (b ∷ bs) = b ∷ write xs zero bs

  pub length-write : (xs : List A) (off : ℕ) (bs : List A) → length (write xs off bs) ≡ length xs
  unfolding write
  length-write [] off bs = refl
  length-write (x ∷ xs) (suc off) bs = ap suc (length-write xs off bs)
  length-write (x ∷ xs) zero [] = refl
  length-write (x ∷ xs) zero (b ∷ bs) = ap suc (length-write xs zero bs)

  -- A write past the first part of a buffer.
  pub write-append :
      (xs ys : List A) (off at : ℕ) (bs : List A)
      → at ≡ length xs + off
      → write (xs ++ ys) at bs ≡ xs ++ write ys off bs
  unfolding write
  write-append [] ys off at bs e =
      let same : at ≡ off = omega (arith, e) in ap (λ n. write ys n bs) same
  write-append (x ∷ xs) ys off zero bs e = absurd (omega arith)
  write-append (x ∷ xs) ys off (suc at) bs e =
      ap (λ l. x ∷ l) (write-append xs ys off at bs (omega arith))

  -- A write of a whole buffer.
  pub write_all : (xs bs : List A) → length bs ≡ length xs → write xs zero bs ≡ bs
  unfolding write
  write_all [] [] e = refl
  write_all [] (b ∷ bs) e = absurd (omega arith)
  write_all (x ∷ xs) [] e = absurd (omega arith)
  write_all (x ∷ xs) (b ∷ bs) e = ap (λ l. b ∷ l) (write_all xs bs (omega arith))

  -- A write at the start of a buffer.
  pub write_start :
      (xs bs : List A) → length bs ≤ length xs → write xs zero bs ≡ bs ++ drop (length bs) xs
  unfolding write
  write_start [] [] le = refl
  write_start [] (b ∷ bs) le = absurd (omega arith)
  write_start (x ∷ xs) [] le = refl
  write_start (x ∷ xs) (b ∷ bs) le = ap (λ l. b ∷ l) (write_start xs bs (omega arith))
