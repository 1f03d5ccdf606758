-- ===== src/Gpu/Blake3/Fields.antt =====
-- Fields of a buffer that is built by writes, byte by byte.
use native.Mathlib.Decide.{dec_lt}
use po_se_memory_wiping.Prelude.{
  ℕ, zero, suc, ◌+◌, ◌≤◌, ◌<◌, ◌≡◌, refl, sym, ap, ◌∙◌, ◌⊎◌, inl, inr, Option, none, some, [], ◌∷◌,
  length, get_or, take, length-take, arith,
}
use po_se_memory_wiping.Prelude.Words.{zeros, write}
use po_se_memory_wiping.Label.{Bytes}
use po_se_memory_wiping.Hash.{write_pred}

pub write_outside :
    (xs : Bytes) (off : ℕ) (bs : Bytes) (i : ℕ)
    → (i < off) ⊎ (off + length bs ≤ i)
    → get_or (write xs off bs) i 0 ≡ get_or xs i 0
unfolding write
write_outside [] off bs i out = refl
write_outside (x ∷ xs) (suc off) bs zero out = refl
write_outside (x ∷ xs) (suc off) bs (suc i) (inl low) =
    write_outside xs off bs i (inl (omega arith))
write_outside (x ∷ xs) (suc off) bs (suc i) (inr high) =
    write_outside xs off bs i (inr (omega arith))
write_outside (x ∷ xs) zero [] i out = refl
write_outside (x ∷ xs) zero (b ∷ bs) zero (inl low) = absurd (omega arith)
write_outside (x ∷ xs) zero (b ∷ bs) zero (inr high) = absurd (omega arith)
write_outside (x ∷ xs) zero (b ∷ bs) (suc i) (inl low) = absurd (omega arith)
write_outside (x ∷ xs) zero (b ∷ bs) (suc i) (inr high) =
    write_outside xs zero bs i (inr (omega arith))

pub write_inside :
    (xs : Bytes) (off : ℕ) (bs : Bytes) (k : ℕ)
    → k < length bs
    → off + k < length xs
    → get_or (write xs off bs) (off + k) 0 ≡ get_or bs k 0
unfolding write
write_inside [] off bs k lt fits = absurd (omega arith)
write_inside (x ∷ xs) (suc off) bs k lt fits =
    let next : suc off + k ≡ suc (off + k) = omega arith in
    ap (λ i. get_or (x ∷ write xs off bs) i 0) next ∙ write_inside xs off bs k lt (omega arith)
write_inside (x ∷ xs) zero [] k lt fits = absurd (omega arith)
write_inside (x ∷ xs) zero (b ∷ bs) zero lt fits = refl
write_inside (x ∷ xs) zero (b ∷ bs) (suc k) lt fits =
    let next : zero + suc k ≡ suc (zero + k) = omega arith in
    ap (λ i. get_or (b ∷ write xs zero bs) i 0) next
    ∙ write_inside xs zero bs k (omega arith) (omega arith)

pub get_or_beyond : (xs : Bytes) (i : ℕ) → length xs ≤ i → get_or xs i 0 ≡ 0
get_or_beyond [] i le = refl
get_or_beyond (x ∷ xs) zero le = absurd (omega arith)
get_or_beyond (x ∷ xs) (suc i) le = get_or_beyond xs i (omega arith)

pub get_or-take : (n : ℕ) (xs : Bytes) (i : ℕ) → i < n → get_or (take n xs) i 0 ≡ get_or xs i 0
get_or-take zero xs i lt = absurd (omega arith)
get_or-take (suc n) [] i lt = refl
get_or-take (suc n) (x ∷ xs) zero lt = refl
get_or-take (suc n) (x ∷ xs) (suc i) lt = get_or-take n xs i (omega arith)

pub get_or-zeros : (n i : ℕ) → get_or (zeros n) i 0 ≡ 0
get_or-zeros zero i = refl
get_or-zeros (suc n) zero = refl
get_or-zeros (suc n) (suc i) = get_or-zeros n i

-- A field that is written over zeros, however long the buffer is that it comes from.
pub write_field :
    (xs : Bytes) (off n : ℕ) (p : Bytes) (k : ℕ)
    → k < n
    → off + n ≤ length xs
    → get_or xs (off + k) 0 ≡ 0
    → get_or (write xs off (take n p)) (off + k) 0 ≡ get_or p k 0
write_field xs off n p k lt fits empty = elim (dec_lt k (length (take n p))) [
  | yes inside ↦ write_inside xs off (take n p) k inside (omega arith) ∙ get_or-take n p k lt
  | no beyond ↦
      write_outside xs off (take n p) (off + k) (inr (omega (arith, beyond)))
      ∙ empty
      ∙ sym (get_or_beyond p k (omega (arith, beyond, length-take n p, lt)))
]

abbrev pub pred_bytes : Option Bytes → Bytes
pred_bytes none = []
pred_bytes (some p) = p

pub write_pred_field :
    (xs : Bytes) (off : ℕ) (p : Option Bytes) (k : ℕ)
    → k < 32
    → off + 32 ≤ length xs
    → get_or xs (off + k) 0 ≡ 0
    → get_or (write_pred xs off p) (off + k) 0 ≡ get_or (pred_bytes p) k 0
write_pred_field xs off none k lt fits empty = empty
write_pred_field xs off (some p) k lt fits empty = write_field xs off 32 p k lt fits empty

pub write_pred_outside :
    (xs : Bytes) (off : ℕ) (p : Option Bytes) (i : ℕ)
    → (i < off) ⊎ (off + 32 ≤ i)
    → get_or (write_pred xs off p) i 0 ≡ get_or xs i 0
write_pred_outside xs off none i out = refl
write_pred_outside xs off (some p) i (inl low) = write_outside xs off (take 32 p) i (inl low)
write_pred_outside xs off (some p) i (inr high) =
    write_outside xs off (take 32 p) i (inr (omega (arith, high, length-take 32 p)))
