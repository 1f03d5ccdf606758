-- ===== src/Gpu/Blake3/Spec.antt =====
-- The compression function of BLAKE3 as its specification has it, with the message schedule of each round as a
-- table, and that `compress` of blake3_node.cuh computes it.
use po_se_memory_wiping.Prelude.{
  ℕ, zero, suc, ◌+◌, ◌≡◌, refl, sym, ap, ap₂, ◌∙◌, List, [], ◌∷◌, map, length, range', bit_xor,
  arith,
}
use po_se_memory_wiping.Prelude.Words.{u32}
use po_se_memory_wiping.Gpu.Blake3.{
  gpu_rotr32, word, mix, round_fn, rounds_from, compress_state, gpu_compress,
}

-- Four words of the state.
pub record Quarter : Type 0 where
  pub a : ℕ
  pub b : ℕ
  pub c : ℕ
  pub d : ℕ

-- Half of the quarter-round: one message word and two rotations.
abbrev half_g : Quarter → ℕ → ℕ → ℕ → Quarter
half_g q m r s =
    let a = u32 (q.a + q.b + m) in
    let d = gpu_rotr32 (bit_xor q.d a) r in
    let c = u32 (q.c + d) in record { a = a; b = gpu_rotr32 (bit_xor q.b c) s; c = c; d = d }

-- The quarter-round G.
abbrev g_of : ℕ → ℕ → ℕ → ℕ → ℕ → ℕ → Quarter
g_of a b c d mx my = half_g (half_g (record { a = a; b = b; c = c; d = d }) mx 16 12) my 8 7

-- A round: G on the columns, then on the diagonals.
unfoldable pub spec_round : List ℕ → List ℕ → List ℕ
spec_round v m =
    let c0 = g_of (word v 0) (word v 4) (word v 8) (word v 12) (word m 0) (word m 1) in
    let c1 = g_of (word v 1) (word v 5) (word v 9) (word v 13) (word m 2) (word m 3) in
    let c2 = g_of (word v 2) (word v 6) (word v 10) (word v 14) (word m 4) (word m 5) in
    let c3 = g_of (word v 3) (word v 7) (word v 11) (word v 15) (word m 6) (word m 7) in
    let d0 = g_of c0.a c1.b c2.c c3.d (word m 8) (word m 9) in
    let d1 = g_of c1.a c2.b c3.c c0.d (word m 10) (word m 11) in
    let d2 = g_of c2.a c3.b c0.c c1.d (word m 12) (word m 13) in
    let d3 = g_of c3.a c0.b c1.c c2.d (word m 14) (word m 15) in
    d0.a ∷ d1.a ∷ d2.a ∷ d3.a ∷ d3.b ∷ d0.b ∷ d1.b ∷ d2.b ∷ d2.c ∷ d3.c ∷ d0.c ∷ d1.c ∷ d1.d ∷ d2.d
    ∷ d3.d ∷ d0.d ∷ []

-- The message words of the seven rounds.
abbrev msg_schedule : List (List ℕ)
msg_schedule =
    (0 ∷ 1 ∷ 2 ∷ 3 ∷ 4 ∷ 5 ∷ 6 ∷ 7 ∷ 8 ∷ 9 ∷ 10 ∷ 11 ∷ 12 ∷ 13 ∷ 14 ∷ 15 ∷ [])
    ∷ (2 ∷ 6 ∷ 3 ∷ 10 ∷ 7 ∷ 0 ∷ 4 ∷ 13 ∷ 1 ∷ 11 ∷ 12 ∷ 5 ∷ 9 ∷ 14 ∷ 15 ∷ 8 ∷ [])
    ∷ (3 ∷ 4 ∷ 10 ∷ 12 ∷ 13 ∷ 2 ∷ 7 ∷ 14 ∷ 6 ∷ 5 ∷ 9 ∷ 0 ∷ 11 ∷ 15 ∷ 8 ∷ 1 ∷ [])
    ∷ (10 ∷ 7 ∷ 12 ∷ 9 ∷ 14 ∷ 3 ∷ 13 ∷ 15 ∷ 4 ∷ 0 ∷ 11 ∷ 2 ∷ 5 ∷ 8 ∷ 1 ∷ 6 ∷ [])
    ∷ (12 ∷ 13 ∷ 9 ∷ 11 ∷ 15 ∷ 10 ∷ 14 ∷ 8 ∷ 7 ∷ 2 ∷ 5 ∷ 3 ∷ 0 ∷ 1 ∷ 6 ∷ 4 ∷ [])
    ∷ (9 ∷ 14 ∷ 11 ∷ 5 ∷ 8 ∷ 12 ∷ 15 ∷ 1 ∷ 13 ∷ 3 ∷ 0 ∷ 10 ∷ 2 ∷ 6 ∷ 4 ∷ 7 ∷ [])
    ∷ (11 ∷ 15 ∷ 5 ∷ 0 ∷ 1 ∷ 9 ∷ 8 ∷ 6 ∷ 14 ∷ 10 ∷ 2 ∷ 12 ∷ 3 ∷ 4 ∷ 7 ∷ 13 ∷ [])
    ∷ []

unfoldable pub spec_rounds : List ℕ → List (List ℕ) → List ℕ → List ℕ
spec_rounds block [] v = v
spec_rounds block (row ∷ rows) v = spec_rounds block rows (spec_round v (map (word block) row))

-- The compression function with counter 0: the new chaining value.
unfoldable pub blake3_compress : List ℕ → List ℕ → ℕ → ℕ → List ℕ
blake3_compress cv block block_len flags =
    let v = spec_rounds block msg_schedule (compress_state cv block_len flags) in
    map (λ i. bit_xor (word v i) (word v (i + 8))) (range' 0 8)

map-range'-suc :
    {A : Type 0} (f : ℕ → A) (s n : ℕ)
    → map f (range' (s + 1) n) ≡ map (λ i. f (suc i)) (range' s n)
map-range'-suc f s zero = refl
map-range'-suc f s (suc n) =
    let next : s + 1 ≡ suc s = omega arith in ap₂ ◌∷◌ (ap f next) (map-range'-suc f (s + 1) n)

-- A list by its words.
rebuild : (v : List ℕ) (n : ℕ) → length v ≡ n → map (word v) (range' 0 n) ≡ v
rebuild [] zero e = refl
rebuild [] (suc n) e = absurd (omega arith)
rebuild (x ∷ v) zero e = absurd (omega arith)
rebuild (x ∷ v) (suc n) e =
    ap (λ l. x ∷ l) (map-range'-suc (word (x ∷ v)) 0 n ∙ rebuild v n (omega arith))

round_fn-literal : (v m : List ℕ) → round_fn (map (word v) (range' 0 16)) m ≡ spec_round v m
unfolding round_fn mix spec_round
round_fn-literal v m = refl

round_fn-spec_round : (v m : List ℕ) → length v ≡ 16 → round_fn v m ≡ spec_round v m
round_fn-spec_round v m e = ap (λ w. round_fn w m) (sym (rebuild v 16 e)) ∙ round_fn-literal v m

length-spec_round : (v m : List ℕ) → length (spec_round v m) ≡ 16
unfolding spec_round
length-spec_round v m = refl

next_round : (x v m : List ℕ) → x ≡ v → length v ≡ 16 → round_fn x m ≡ spec_round v m
next_round x v m same e = ap (λ w. round_fn w m) same ∙ round_fn-spec_round v m e

rounds_from-spec_rounds :
    (block v : List ℕ)
    → length v ≡ 16
    → rounds_from 6 v (map (word block) (range' 0 16)) ≡ spec_rounds block msg_schedule v
unfolding rounds_from spec_rounds
rounds_from-spec_rounds block v e =
    next_round _ _ _
      (next_round _ _ _
        (next_round _ _ _
          (next_round _ _ _
            (next_round _ _ _ (next_round _ _ _ (round_fn-spec_round v _ e) (length-spec_round _ _))
              (length-spec_round _ _))
            (length-spec_round _ _))
          (length-spec_round _ _))
        (length-spec_round _ _))
      (length-spec_round _ _)

-- `compress` of blake3_node.cuh is the compression function of BLAKE3, whatever the chaining value and the block.
pub gpu_compress-blake3_compress :
    (cv block : List ℕ) (block_len flags : ℕ)
    → gpu_compress cv block block_len flags ≡ blake3_compress cv block block_len flags
unfolding gpu_compress blake3_compress
gpu_compress-blake3_compress cv block block_len flags =
    ap (λ st. map (λ i. bit_xor (word st i) (word st (i + 8))) (range' 0 8))
      (rounds_from-spec_rounds block (compress_state cv block_len flags) refl)
