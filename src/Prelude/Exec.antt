-- ===== src/Prelude/Exec.antt =====
-- Code that changes a state `S` and may fault: `none` is an assertion that fails or an access
-- out of bounds.
use mathlib.Core.Path.{◌≡◌, ap, ◌∙◌}
use mathlib.Core.Option.{Option, none, some}

abbrev pub Exec : Type 0 → Type 0 → Type 0
Exec S A = S → Option (A × S)

infixl 5 ◌>>=◌ ◌>>◌
abbrev pub ◌>>=◌ : {S A B : Type 0} → Exec S A → (A → Exec S B) → Exec S B
◌>>=◌ m f s = elim (m s) [ none ↦ none | some (a, s') ↦ f a s' ]

abbrev pub ◌>>◌ : {S B : Type 0} → Exec S (Unit {0}) → Exec S B → Exec S B
m >> k = m >>= λ _. k

abbrev pub pure : {S A : Type 0} → A → Exec S A
pure a s = some (a, s)

-- One step of a run: what the first part returns, and what the rest `f` then does.
pub bind_step :
    {S A B : Type 0} (f : A → S → Option (B × S)) {o : Option (A × S)} {s : S} {a : A}
    {r : Option (B × S)}
    → o ≡ some (a, s)
    → f a s ≡ r
    → elim o [ none ↦ none | some (a', s') ↦ f a' s' ] ≡ r
bind_step {S} {A} f p q =
    ap (λ (o : Option (A × S)). elim o [ none ↦ none | some (a, s') ↦ f a s' ]) p ∙ q
