-- ===== src/Graph/SlotMap/Live.antt =====
-- No two live nodes share a slot.
use mathlib.Core.Path.{subst}
use po_se_memory_wiping.Prelude.{
  ℕ, ◌+◌, ◌≤◌, ◌<◌, ◌≡◌, ◌≢◌, refl, sym, ◌∙◌, inl, inr, true, false, ◌==◌, Bool-cases, List, [],
  ◌∷◌, update, update_ne, All, arith,
}
use po_se_memory_wiping.Graph.SlotMap.{Slots, take_slot}

-- The slot is free: no live node has it, and it is not on the stack `stack`.
abbrev pub Distinct : List ℕ → Type 0
Distinct [] = Unit
Distinct (s ∷ stack) = All (λ t. s ≢ t) stack × Distinct stack

-- The live nodes have slots of their own, and the slots of the stack are free.
pub record IsSound (Live : ℕ → Type 0) (s : Slots) : Type 0 where
  pub used : (id : ℕ) → Live id → s.slot_out id < s.next_new
  pub apart : (a b : ℕ) → Live a → Live b → a ≢ b → s.slot_out a ≢ s.slot_out b
  pub stack : All (λ t. t < s.next_new) s.free_stack
  pub free : (id : ℕ) → Live id → All (λ t. s.slot_out id ≢ t) s.free_stack
  pub distinct : Distinct s.free_stack

-- What a map takes at a changed cell and elsewhere.
same_cell : (f : ℕ → ℕ) (id v b : ℕ) → (b == id) ≡ true → update f id v b ≡ v
same_cell f id v b e = rw e refl

other_cell : (f : ℕ → ℕ) (id v b : ℕ) → (b == id) ≡ false → update f id v b ≡ f b
other_cell f id v b e = rw e refl

equal_ids : (a b : ℕ) → (a == b) ≡ true → a ≡ b
equal_ids a b e = ground arith

different_ids : (a b : ℕ) → (a == b) ≡ false → a ≢ b
different_ids a b e = ground arith

-- A node takes the slot `v`, which is free.
module _ (Live Live' : ℕ → Type 0) (id v : ℕ) (slot_out : ℕ → ℕ)
    (only : (b : ℕ) → Live' b → b ≢ id → Live b) (is_free : (b : ℕ) → Live b → slot_out b ≢ v) where
  abbrev taken : ℕ → ℕ
  taken = update slot_out id v

  used_after :
      (k l : ℕ)
      → k ≤ l
      → v < l
      → ((b : ℕ) → Live b → slot_out b < k)
      → (b : ℕ) → Live' b
      → taken b < l
  used_after k l le lt used b live = elim (Bool-cases (b == id)) [
    | inl e ↦ omega (arith, same_cell slot_out id v b e)
    | inr e ↦
        omega (arith, other_cell slot_out id v b e, used b (only b live (different_ids b id e)))
  ]

  apart_after :
      ((a b : ℕ) → Live a → Live b → a ≢ b → slot_out a ≢ slot_out b)
      → (a b : ℕ) → Live' a
      → Live' b
      → a ≢ b
      → taken a ≢ taken b
  apart_after apart a b la lb ne = elim (Bool-cases (a == id)) [
    | inl ea ↦ elim (Bool-cases (b == id)) [
      | inl eb ↦ absurd (ne (equal_ids a id ea ∙ sym (equal_ids b id eb)))
      | inr eb ↦ λ same.
          is_free b (only b lb (different_ids b id eb))
            (sym (other_cell slot_out id v b eb) ∙ sym same ∙ same_cell slot_out id v a ea)
    ]
    | inr ea ↦ elim (Bool-cases (b == id)) [
      | inl eb ↦ λ same.
          is_free a (only a la (different_ids a id ea))
            (sym (other_cell slot_out id v a ea) ∙ same ∙ same_cell slot_out id v b eb)
      | inr eb ↦ λ same.
          apart a b (only a la (different_ids a id ea)) (only b lb (different_ids b id eb)) ne
            (sym (other_cell slot_out id v a ea) ∙ same ∙ other_cell slot_out id v b eb)
    ]
  ]

  free_after :
      (stack : List ℕ)
      → All (λ t. v ≢ t) stack
      → ((b : ℕ) → Live b → All (λ t. slot_out b ≢ t) stack)
      → (b : ℕ) → Live' b
      → All (λ t. taken b ≢ t) stack
  free_after stack fresh free b live = elim (Bool-cases (b == id)) [
    | inl e ↦ subst (λ x. All (λ t. x ≢ t) stack) (sym (same_cell slot_out id v b e)) fresh
    | inr e ↦
        subst (λ x. All (λ t. x ≢ t) stack) (sym (other_cell slot_out id v b e))
          (free b (only b live (different_ids b id e)))
  ]

-- A node that was not live takes a slot.
pub take_slot-IsSound :
    (Live Live' : ℕ → Type 0) (id next_new : ℕ) (slot_out : ℕ → ℕ) (stack : List ℕ)
    → IsSound Live (record { slot_out = slot_out; free_stack = stack; next_new = next_new })
    → ((b : ℕ) → Live' b → b ≢ id → Live b)
    → IsSound Live' (take_slot id next_new slot_out stack)
take_slot-IsSound Live Live' id next_new slot_out [] sound only =
    let is_new : (b : ℕ) → Live b → slot_out b ≢ next_new =
      λ b live same. omega (arith, sound.used b live) in
    record {
      used =
          used_after Live Live' id next_new slot_out only is_new next_new (next_new + 1)
            (omega arith) (omega arith) sound.used;
      apart = apart_after Live Live' id next_new slot_out only is_new sound.apart;
      stack = tt;
      free = λ b live. tt;
      distinct = tt;
    }
take_slot-IsSound Live Live' id next_new slot_out (t ∷ stack) sound only =
    let is_free : (b : ℕ) → Live b → slot_out b ≢ t = λ b live. (sound.free b live).0 in
    record {
      used =
          used_after Live Live' id t slot_out only is_free next_new next_new (omega arith)
            sound.stack.0 sound.used;
      apart = apart_after Live Live' id t slot_out only is_free sound.apart;
      stack = sound.stack.1;
      free =
          free_after Live Live' id t slot_out only is_free stack sound.distinct.0
            (λ b live. (sound.free b live).1);
      distinct = sound.distinct.1;
    }

-- A node that was live gives its slot back.
pub free_slot-IsSound :
    (Live Live' : ℕ → Type 0) (id : ℕ) (s : Slots)
    → IsSound Live s
    → Live id
    → ((b : ℕ) → Live' b → Live b)
    → ((b : ℕ) → Live' b → b ≢ id)
    → IsSound Live' (record s { free_stack = s.slot_out id ∷ s.free_stack })
free_slot-IsSound Live Live' id s sound was_live weaker gone = record {
  used = λ b live. sound.used b (weaker b live);
  apart = λ a b la lb. sound.apart a b (weaker a la) (weaker b lb);
  stack = (sound.used id was_live, sound.stack);
  free = λ b live.
      (sound.apart b id (weaker b live) was_live (gone b live), sound.free b (weaker b live));
  distinct = (sound.free id was_live, sound.distinct);
}

pub weaken-IsSound :
    (Live Live' : ℕ → Type 0) (s : Slots)
    → ((b : ℕ) → Live' b → Live b)
    → IsSound Live s
    → IsSound Live' s
weaken-IsSound Live Live' s weaker sound = record {
  used = λ b live. sound.used b (weaker b live);
  apart = λ a b la lb. sound.apart a b (weaker a la) (weaker b lb);
  stack = sound.stack;
  free = λ b live. sound.free b (weaker b live);
  distinct = sound.distinct;
}

-- Taking a slot leaves the other nodes' slots, and the pool only grows.
pub take_slot_lem :
    (id next_new : ℕ) (slot_out : ℕ → ℕ) (stack : List ℕ)
    → ((b : ℕ) → b ≢ id → (take_slot id next_new slot_out stack).slot_out b ≡ slot_out b)
      × (next_new ≤ (take_slot id next_new slot_out stack).next_new)
take_slot_lem id next_new slot_out [] = (λ b ne. update_ne slot_out id b next_new ne, omega arith)
take_slot_lem id next_new slot_out (t ∷ stack) = (λ b ne. update_ne slot_out id b t ne, omega arith)
