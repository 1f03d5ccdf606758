-- ===== src/Graph/Edges/Rank.antt =====
-- The challenge set is in rising order of ids, so that marking its ranks gives each of its nodes its own rank.
use po_se_memory_wiping.Prelude.{
  ℕ, zero, suc, ◌+◌, ◌≤◌, ◌<◌, ◌≡◌, refl, sym, ap, ◌∙◌, Option, none, some, List, [], ◌∷◌, ◌++◌,
  length, get_or, take, drop, update, update_self, update_ne, All, arith,
}
use native.Mathlib.Decide.{ℕ_discrete}
use po_se_memory_wiping.Graph.Emitter.{Node}
use po_se_memory_wiping.Graph.Recursive.Nodes.{
  right_at, standalone_right_at, connected_base, standalone_base, connected_base-lt,
  standalone_base-lt,
}
use po_se_memory_wiping.Graph.Edges.{mark_ranks}

-- Strictly rising, from `b` on.
abbrev pub Rising : ℕ → List ℕ → Type 0
Rising b [] = Unit
Rising b (x ∷ xs) = (b ≤ x) × Rising (suc x) xs

pub Rising-weaken : (a b : ℕ) (xs : List ℕ) → a ≤ b → Rising b xs → Rising a xs
Rising-weaken a b [] le r = tt
Rising-weaken a b (x ∷ xs) le r = (omega arith, r.1)

pub Rising-append :
    (b c : ℕ) (xs ys : List ℕ)
    → b ≤ c
    → Rising b xs
    → All (λ x. x < c) xs
    → Rising c ys
    → Rising b (xs ++ ys)
Rising-append b c [] ys le r lt s = Rising-weaken b c ys le s
Rising-append b c (x ∷ xs) ys le r lt s =
    (r.0, Rising-append (suc x) c xs ys (omega arith) r.1 lt.1 s)

pub Rising-take : (b n : ℕ) (xs : List ℕ) → Rising b xs → Rising b (take n xs)
Rising-take b zero xs r = tt
Rising-take b (suc n) [] r = tt
Rising-take b (suc n) (x ∷ xs) r = (r.0, Rising-take (suc x) n xs r.1)

pub Rising-drop : (b n : ℕ) (xs : List ℕ) → Rising b xs → Rising b (drop n xs)
Rising-drop b zero xs r = r
Rising-drop b (suc n) [] r = tt
Rising-drop b (suc n) (x ∷ xs) r =
    Rising-weaken b (suc x) (drop n xs) (omega arith) (Rising-drop (suc x) n xs r.1)

connected_base-Rising : (level start : ℕ) → Rising start (connected_base level start)
unfolding connected_base
connected_base-Rising zero start = (omega arith, tt)
connected_base-Rising (suc l) start =
    Rising-append start (right_at l start) (connected_base l start)
      (connected_base l (right_at l start)) (omega arith) (connected_base-Rising l start)
      (connected_base-lt l start (right_at l start) (omega arith))
      (connected_base-Rising l (right_at l start))

pub standalone_base-Rising : (level start : ℕ) → Rising start (standalone_base level start)
unfolding standalone_base
standalone_base-Rising zero start = (omega arith, tt)
standalone_base-Rising (suc l) start =
    Rising-append start (standalone_right_at l start) (standalone_base l start)
      (connected_base l (standalone_right_at l start)) (omega arith)
      (standalone_base-Rising l start)
      (standalone_base-lt l start (standalone_right_at l start) (omega arith))
      (connected_base-Rising l (standalone_right_at l start))

pub mark_ranks-append :
    (t : ℕ → Node) (r : ℕ) (xs ys : List ℕ)
    → mark_ranks (mark_ranks t r xs) (r + length xs) ys ≡ mark_ranks t r (xs ++ ys)
unfolding mark_ranks
mark_ranks-append t r [] ys = ap (λ k. mark_ranks t k ys) same
  where
    same : r + 0 ≡ r
    same = omega arith
mark_ranks-append t r (x ∷ xs) ys =
    ap (λ k. mark_ranks (mark_ranks now (r + 1) xs) k ys) same ∙ mark_ranks-append now (r + 1) xs ys
  where
    now : ℕ → Node
    now = update t x (record (t x) { challenge_rank = some r })

    same : r + suc (length xs) ≡ r + 1 + length xs
    same = omega arith

mark_ranks-below :
    (t : ℕ → Node) (r b : ℕ) (xs : List ℕ) (j : ℕ) → Rising b xs → j < b → mark_ranks t r xs j ≡ t j
unfolding mark_ranks
mark_ranks-below t r b [] j rising lt = refl
mark_ranks-below t r b (x ∷ xs) j rising lt =
    mark_ranks-below (update t x (record (t x) { challenge_rank = some r })) (r + 1) (suc x) xs j
      rising.1 (omega arith)
    ∙ update_ne t x j (record (t x) { challenge_rank = some r }) (λ e. absurd (omega arith))

pub mark_ranks-at :
    (t : ℕ → Node) (r b : ℕ) (xs : List ℕ) (i : ℕ)
    → Rising b xs
    → i < length xs
    → (mark_ranks t r xs (get_or xs i 0)).challenge_rank ≡ some (r + i)
unfolding mark_ranks
mark_ranks-at t r b [] i rising lt = absurd (omega arith)
mark_ranks-at t r b (x ∷ xs) zero rising lt =
    ap (λ n. n.challenge_rank)
      (mark_ranks-below now (r + 1) (suc x) xs x rising.1 (omega arith)
        ∙ update_self t x (record (t x) { challenge_rank = some r }))
    ∙ ap some same
  where
    now : ℕ → Node
    now = update t x (record (t x) { challenge_rank = some r })

    same : r ≡ r + zero
    same = omega arith
mark_ranks-at t r b (x ∷ xs) (suc i) rising lt =
    mark_ranks-at (update t x (record (t x) { challenge_rank = some r })) (r + 1) (suc x) xs i
      rising.1 (omega arith)
    ∙ ap some same
  where
    same : r + 1 + i ≡ r + suc i
    same = omega arith

-- Marking changes nothing but ranks.
pub mark_ranks-keeps :
    {A : Type 0} (f : Node → A)
    → ((n : Node) (r : Option ℕ) → f (record n { challenge_rank = r }) ≡ f n)
    → (t : ℕ → Node) (r : ℕ) (xs : List ℕ) (j : ℕ) → f (mark_ranks t r xs j) ≡ f (t j)
unfolding mark_ranks
mark_ranks-keeps f same t r [] j = refl
mark_ranks-keeps f same t r (x ∷ xs) j =
    mark_ranks-keeps f same (update t x (record (t x) { challenge_rank = some r })) (r + 1) xs j
    ∙ kept j
  where
    kept : (j : ℕ) → f (update t x (record (t x) { challenge_rank = some r }) j) ≡ f (t j)
    kept j = elim (ℕ_discrete j x) [
      | yes at ↦
          rw at (
            ap f (update_self t x (record (t x) { challenge_rank = some r })) ∙ same (t x) (some r))
      | no off ↦ ap f (update_ne t x j (record (t x) { challenge_rank = some r }) off)
    ]

-- A node that had no rank before gets one only from its place in the list.
pub mark_ranks-some :
    (t : ℕ → Node) (r b : ℕ) (xs : List ℕ) (j q : ℕ)
    → Rising b xs
    → (t j).challenge_rank ≡ none
    → (mark_ranks t r xs j).challenge_rank ≡ some q
    → (i : ℕ) × (i < length xs) × (get_or xs i 0 ≡ j) × (q ≡ r + i)
unfolding mark_ranks
mark_ranks-some t r b [] j q rising unmarked e = absurd (clash (sym unmarked ∙ e))
  where
    clash : none ≡ some q → ⊥
    clash p = cc
mark_ranks-some t r b (x ∷ xs) j q rising unmarked e = elim (ℕ_discrete j x) [
  | yes here ↦ (0, omega arith, sym here, omega (arith, own here))
  | no other ↦
      let rest =
        mark_ranks-some now (r + 1) (suc x) xs j q rising.1
          (ap (λ n. n.challenge_rank) (update_ne t x j _ other) ∙ unmarked) e in
      (suc rest.0, omega (arith, rest.1), rest.2, omega (arith, rest.3))
]
  where
    now : ℕ → Node
    now = update t x (record (t x) { challenge_rank = some r })

    own : j ≡ x → q ≡ r
    own here = inverse (
        sym e
        ∙ ap (λ k. (mark_ranks now (r + 1) xs k).challenge_rank) here
        ∙ ap (λ n. n.challenge_rank)
            (mark_ranks-below now (r + 1) (suc x) xs x rising.1 (omega arith)
              ∙ update_self t x (record (t x) { challenge_rank = some r })))
      where
        inverse : some q ≡ some r → q ≡ r
        inverse p = cc
