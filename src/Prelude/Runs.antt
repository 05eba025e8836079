-- ===== src/Prelude/Runs.antt =====
-- A run of sequential code: it ends with a value, or it does not end. A run does not end where it
-- waits for a spinlock that is held or for a sequence counter that is odd, or where the rounds of
-- a chain walk are used up.
use mathlib.Core.Path.{◌≡◌, sym, ap, ◌∙◌, subst}

pub data Run {ℓ} (A : Type ℓ) : Type ℓ where
  diverges : Run A
  done : A → Run A

-- `P` holds of the value with which the run ends; a run that does not end has none.
abbrev pub Returns {ℓ κ} : {V : Type ℓ} (run : Run V) (P : V → Type κ) → Type (ℓ ⊔ κ)
Returns {V = V} run P = (v : V) × (run ≡ done v) × P v

value_or {ℓ} : {V : Type ℓ} → V → Run V → V
value_or other diverges = other
value_or other (done v) = v

-- What holds of the value of a run holds of the value that it is known to have.
pub Returns-at {ℓ κ} :
    {V : Type ℓ} {P : V → Type κ} (run : Run V) (v : V) → Returns run P → run ≡ done v → P v
unfolding value_or
Returns-at {P = P} run v (u, e, p) e' = subst P (ap (value_or u) (sym e ∙ e')) p

-- `P` holds of the value, if the run ends.
abbrev pub IfDone {ℓ} : {V : Type ℓ} → Run V → (V → Type 0) → Type 0
IfDone diverges P = Unit
IfDone (done v) P = P v

pub IfDone-at {ℓ} :
    {V : Type ℓ} (P : V → Type 0) (run : Run V) (v : V) → IfDone run P → run ≡ done v → P v
IfDone-at P run v h e = subst (λ r. IfDone r P) e h

infixl 5 ◌>>=◌
-- The next part of the code, on the value of the first.
abbrev pub ◌>>=◌ {ℓ κ} : {V : Type ℓ} {W : Type κ} → Run V → (V → Run W) → Run W
diverges >>= next = diverges
done v >>= next = next v

-- What the first part establishes is what the next part starts from.
pub IfDone-bind {ℓ κ} :
    {V : Type ℓ} {W : Type κ} (P : V → Type 0) (Q : W → Type 0) (run : Run V) (next : V → Run W)
    → IfDone run P
    → ((v : V) → P v → IfDone (next v) Q)
    → IfDone (run >>= next) Q
IfDone-bind P Q diverges next h f = tt
IfDone-bind P Q (done v) next h f = f v h
