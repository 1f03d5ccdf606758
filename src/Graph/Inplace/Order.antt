-- ===== src/Graph/Inplace/Order.antt =====
-- The label-carrying emitter reads a pair of labels by clearing and setting a bit of the index.
-- That is the order of the node ids, which the id-indexed emitter sorts by.
use po_se_memory_wiping.Prelude.{
  ℕ, ◌+◌, ◌^◌, ◌≤◌, ◌<◌, ◌≡◌, refl, sym, ap, ap₂, ◌∙◌, inl, inr, List, [], ◌∷◌, map, length, get_or,
  range', All, All-get_or_lt, All-range'-lt, arith, bit_xor, length-range', get_or-map,
  get_or-range', map_agree, le→ltb, lt→ltb,
}
use native.Mathlib.Nat.{one-le-pow, pow-le-pow_right}
use po_se_memory_wiping.Prelude.Bits.{flip_cases}
use po_se_memory_wiping.Label.{Bytes}
use po_se_memory_wiping.Graph.Emitter.{sort_preds}
use po_se_memory_wiping.Graph.Connector.{cross_preds, pair_preds}
use po_se_memory_wiping.Graph.Inplace.{clear_bit, set_bit, lc_cross_preds, lc_pair_preds}

-- The labels of a pair of nodes, the lower id first.
abbrev pub sorted_labels : (ℕ → Bytes) → ℕ × ℕ → Bytes × Bytes
sorted_labels m p = (m (sort_preds p.0 p.1).0, m (sort_preds p.0 p.1).1)

pub sort_preds-le : (p q : ℕ) → p ≤ q → sort_preds p q ≡ (p, q)
sort_preds-le p q h = rw (le→ltb q p h)

sort_preds-gt : (p q : ℕ) → q < p → sort_preds p q ≡ (q, p)
sort_preds-gt p q h = rw (lt→ltb q p h)

-- In a layer of consecutive ids, `idx & ~bit` and `idx | bit` are the pair of `idx` and
-- `idx ^ bit` in the order of their ids.
pub sort_preds-flip :
    (dim r i s : ℕ)
    → r < dim
    → dim ≤ 32
    → i < 2 ^ dim
    → (sort_preds (s + i) (s + bit_xor i (2 ^ r))
        ≡ (s + clear_bit i (2 ^ r), s + set_bit i (2 ^ r)))
      × (bit_xor i (2 ^ r) < 2 ^ dim)
      × (clear_bit i (2 ^ r) < 2 ^ dim)
      × (set_bit i (2 ^ r) < 2 ^ dim)
unfolding clear_bit set_bit
sort_preds-flip dim r i s lt small below = elim (flip_cases dim r i lt below) [
  | inl u ↦ elim (flip_cases 32 r i (omega arith) wide) [
    | inl c ↦ (
      sort_preds-le (s + i) (s + bit_xor i (2 ^ r)) (omega (arith, u.0))
          ∙ ap₂ (λ a b. (s + a, s + b)) (sym c.2) (u.0 ∙ sym c.1),
      omega (arith, u.0, u.3),
      omega (arith, c.2),
      omega (arith, c.1, u.3),
    )
    | inr c ↦ absurd (omega (arith, u.0, c.0, pos))
  ]
  | inr u ↦ elim (flip_cases 32 r i (omega arith) wide) [
    | inl c ↦ absurd (omega (arith, u.0, c.0, pos))
    | inr c ↦ (
      sort_preds-gt (s + i) (s + bit_xor i (2 ^ r)) (omega (arith, u.0, pos))
          ∙ ap₂ (λ a b. (s + a, s + b)) (omega (arith, u.0, c.2)) (sym c.1),
      omega (arith, u.0),
      omega (arith, c.2),
      omega (arith, c.1),
    )
  ]
]
  where
    wide : i < 2 ^ 32
    wide = omega (arith, pow-le-pow_right {n = 2} (omega arith) {i = dim} {j = 32} small)

    pos : 1 ≤ 2 ^ r
    pos = one-le-pow r 2 (omega arith)

-- The runs of indices below `n`.
All-index : (n : ℕ) → All (λ i. i < n) (range' 0 n)
All-index n = All-range'-lt 0 n n (omega arith)

map-map :
    {A B C : Type 0} (f : B → C) (g : A → B) (xs : List A)
    → map f (map g xs) ≡ map (λ x. f (g x)) xs
map-map f g [] = refl
map-map f g (x ∷ xs) = ap₂ ◌∷◌ refl (map-map f g xs)

pub lc_cross_preds_lem :
    (m : ℕ → Bytes) (dim r s : ℕ)
    → r < dim
    → dim ≤ 32
    → lc_cross_preds (2 ^ dim) (map m (range' s (2 ^ dim))) (2 ^ r)
      ≡ map (sorted_labels m) (cross_preds (2 ^ dim) (range' s (2 ^ dim)) (2 ^ r))
unfolding lc_cross_preds cross_preds
lc_cross_preds_lem m dim r s lt small =
    map_agree (λ i. i < 2 ^ dim) _ _ (range' 0 (2 ^ dim)) same (All-index (2 ^ dim))
    ∙ sym (map-map (sorted_labels m) _ (range' 0 (2 ^ dim)))
  where
    ids : List ℕ
    ids = range' s (2 ^ dim)

    at : (i : ℕ) → i < 2 ^ dim → get_or (map m ids) i [] ≡ m (s + i)
    at i h =
        get_or-map m ids i 0 [] (omega (arith, length-range' s (2 ^ dim)))
        ∙ ap m (get_or-range' s (2 ^ dim) i 0 h)

    same :
        (i : ℕ)
        → i < 2 ^ dim
        → ◌≡◌ {A = Bytes × Bytes}
            (get_or (map m ids) (clear_bit i (2 ^ r)) [], get_or (map m ids) (set_bit i (2 ^ r)) [])
            (sorted_labels m (get_or ids i 0, get_or ids (bit_xor i (2 ^ r)) 0))
    same i h =
        let f = sort_preds-flip dim r i s lt small h in
        ap₂ (λ a b. (a, b)) (at (clear_bit i (2 ^ r)) f.2) (at (set_bit i (2 ^ r)) f.3)
        ∙ ap (λ (p : ℕ × ℕ). (m p.0, m p.1)) (sym f.0)
        ∙ ap₂ (λ a b. sorted_labels m (a, b)) (sym (get_or-range' s (2 ^ dim) i 0 h))
            (sym (get_or-range' s (2 ^ dim) (bit_xor i (2 ^ r)) 0 f.1))

-- Layer 0 of the center: the primary inputs have the lower ids.
pub lc_pair_preds_lem :
    (m : ℕ → Bytes) (n b : ℕ) (primary ingress : List ℕ)
    → n ≤ length primary
    → n ≤ length ingress
    → All (λ j. j < b) primary
    → All (λ j. b ≤ j) ingress
    → lc_pair_preds n (map m primary) (map m ingress)
      ≡ map (sorted_labels m) (pair_preds n primary ingress)
unfolding lc_pair_preds pair_preds
lc_pair_preds_lem m n b primary ingress hp hi low high =
    map_agree (λ i. i < n) _ _ (range' 0 n) same (All-index n)
    ∙ sym (map-map (sorted_labels m) _ (range' 0 n))
  where
    same :
        (i : ℕ)
        → i < n
        → ◌≡◌ {A = Bytes × Bytes}
            (get_or (map m primary) i [], get_or (map m ingress) i [])
            (sorted_labels m (get_or primary i 0, get_or ingress i 0))
    same i h =
        ap₂ (λ a b. (a, b)) (get_or-map m primary i 0 [] (omega arith))
          (get_or-map m ingress i 0 [] (omega arith))
        ∙ ap (λ (p : ℕ × ℕ). (m p.0, m p.1))
            (sym (
              sort_preds-le (get_or primary i 0) (get_or ingress i 0) (
                omega (
                  arith,
                  All-get_or_lt (λ j. j < b) primary i 0 (omega arith) low,
                  All-get_or_lt (λ j. b ≤ j) ingress i 0 (omega arith) high,
                ))))
