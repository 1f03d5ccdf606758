-- ===== src/Graph/Emitter/Spec.antt =====
-- What emitting does, free of modes and batches: a list of nodes, each with the nodes that it
-- reads, is labelled or recorded in order from the next id on.
use mathlib.Core.Option
use po_se_memory_wiping.Prelude.{
  ℕ, ◌+◌, ◌<◌, ◌≡◌, refl, ap, ◌≡⟨◌⟩◌, ◌∎, sym, true, false, Option, none, some, List, [], ◌∷◌, ◌++◌,
  length, update, arith,
}
use po_se_memory_wiping.Label.{Bytes, Algo, NodeHash}
use po_se_memory_wiping.Graph.Emitter.{Node, Emitter, sort_preds, emit_source, emit1, emit2}

-- The nodes that a node reads.
pub data Preds : Type 0 where
  source : Preds
  one : ℕ → Preds
  two : ℕ → ℕ → Preds

abbrev pub two_sorted : ℕ × ℕ → Preds
two_sorted p = two (sort_preds p.0 p.1).0 (sort_preds p.0 p.1).1

abbrev pub Below : ℕ → Preds → Type 0
Below b source = Unit
Below b (one p) = p < b
Below b (two p q) = (p < b) × (q < b)

abbrev pub record_of : Node → Preds → Node
record_of n source = record n { num_preds = 0; challenge_rank = none }
record_of n (one p) = record n { num_preds = 1; pred0 = p; challenge_rank = none }
record_of n (two p q) = record { num_preds = 2; pred0 = p; pred1 = q; challenge_rank = none }

unfoldable pub record_all : (ℕ → Node) → ℕ → List Preds → ℕ → Node
record_all t id [] = t
record_all t id (p ∷ ps) = record_all (update t id (record_of (t id) p)) (id + 1) ps

module _ (h : NodeHash) where
  open h use {label_node}

  -- The label of a node, from the labels of those that it reads.
  abbrev pub label_of : Bytes → Bytes → Algo → (ℕ → Bytes) → ℕ → Preds → Bytes
  label_of seed desc algo l id source = label_node true id none none seed desc algo
  label_of seed desc algo l id (one p) = label_node false id (some (l p)) none seed desc algo
  label_of seed desc algo l id (two p q) =
      label_node false id (some (l p)) (some (l q)) seed desc algo

  unfoldable pub fill : Bytes → Bytes → Algo → (ℕ → Bytes) → ℕ → List Preds → ℕ → Bytes
  fill seed desc algo l id [] = l
  fill seed desc algo l id (p ∷ ps) =
      fill seed desc algo (update l id (label_of seed desc algo l id p)) (id + 1) ps

  abbrev pub emit_one : Preds → Emitter → Emitter
  emit_one p e = record e {
    next_id = e.next_id + 1;
    labels =
        Option.map (λ l. update l e.next_id (label_of e.seed e.desc e.algo l e.next_id p)) e.labels;
    nodes = Option.map (λ t. update t e.next_id (record_of (t e.next_id) p)) e.nodes;
  }

  abbrev pub emit_all : List Preds → Emitter → Emitter
  emit_all ps e = record e {
    next_id = e.next_id + length ps;
    labels = Option.map (λ l. fill e.seed e.desc e.algo l e.next_id ps) e.labels;
    nodes = Option.map (λ t. record_all t e.next_id ps) e.nodes;
  }

  pub emit_source_lem : (e : Emitter) → emit_source h e ≡ some (e.next_id, emit_one source e)
  unfolding emit_source
  emit_source_lem e = refl

  pub emit1_lem : (p : ℕ) (e : Emitter) → emit1 h p e ≡ some (e.next_id, emit_one (one p) e)
  unfolding emit1
  emit1_lem p e = refl

  pub emit2_lem :
      (p q : ℕ) (e : Emitter) → emit2 h p q e ≡ some (e.next_id, emit_one (two_sorted (p, q)) e)
  unfolding emit2
  emit2_lem p q e = refl

  pub Emitter_ext :
      (e : Emitter) {n n' : ℕ} {l l' : Option (ℕ → Bytes)} {t t' : Option (ℕ → Node)}
      → n ≡ n'
      → l ≡ l'
      → t ≡ t'
      → record e { next_id = n; labels = l; nodes = t }
        ≡ record e { next_id = n'; labels = l'; nodes = t' }
  Emitter_ext e p q r = λ i. record e { next_id = p i; labels = q i; nodes = r i }

  pub emit_all-nil : (e : Emitter) → emit_all [] e ≡ e
  unfolding fill record_all
  emit_all-nil e = Emitter_ext e (omega arith) (same e.labels) (same e.nodes)
    where
      same : {A : Type 0} (o : Option A) → Option.map (λ a. a) o ≡ o
      same none = refl
      same (some a) = refl

  map-map {ℓ} :
      {A : Type ℓ} (f g : A → A) (o : Option A)
      → Option.map f (Option.map g o) ≡ Option.map (λ a. f (g a)) o
  map-map f g none = refl
  map-map f g (some a) = refl

  pub emit_all-cons :
      (p : Preds) (ps : List Preds) (e : Emitter) → emit_all ps (emit_one p e) ≡ emit_all (p ∷ ps) e
  unfolding fill record_all
  emit_all-cons p ps e = Emitter_ext e (omega arith) (map-map _ _ e.labels) (map-map _ _ e.nodes)

  pub emit_all-append :
      (ps qs : List Preds) (e : Emitter) → emit_all qs (emit_all ps e) ≡ emit_all (ps ++ qs) e
  emit_all-append [] qs e = ap (emit_all qs) (emit_all-nil e)
  emit_all-append (p ∷ ps) qs e =
      emit_all qs (emit_all (p ∷ ps) e)
      ≡⟨ ap (emit_all qs) (sym (emit_all-cons p ps e)) ⟩ emit_all qs (emit_all ps (emit_one p e))
      ≡⟨ emit_all-append ps qs (emit_one p e) ⟩ emit_all (ps ++ qs) (emit_one p e)
      ≡⟨ emit_all-cons p (ps ++ qs) e ⟩ emit_all (p ∷ ps ++ qs) e ∎
