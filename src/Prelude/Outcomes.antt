-- ===== src/Prelude/Outcomes.antt =====
-- What a call comes to: a result, undefined behaviour (an array index out of bounds), or the abort of
-- a failed CHECK.

pub data Outcome {ℓ} (A : Type ℓ) : Type ℓ where
  ok : A → Outcome A
  undefined : Outcome A
  check_failed : Outcome A

infixl 5 ◌>>=◌
abbrev pub ◌>>=◌ {ℓ κ} : {A : Type ℓ} {B : Type κ} → Outcome A → (A → Outcome B) → Outcome B
ok a >>= f = f a
undefined >>= f = undefined
check_failed >>= f = check_failed

-- The call returns, with a result of which `P` holds.
abbrev pub Returns {ℓ} : {A : Type ℓ} → (A → Type 0) → Outcome A → Type 0
Returns P (ok a) = P a
Returns P undefined = ⊥
Returns P check_failed = ⊥

pub Returns-map {ℓ} :
    {A : Type ℓ} (P Q : A → Type 0) (m : Outcome A)
    → ((y : A) → P y → Q y)
    → Returns P m
    → Returns Q m
Returns-map P Q (ok y) f p = f y p
Returns-map P Q undefined f p = p
Returns-map P Q check_failed f p = p

pub Returns-bind {ℓ κ} :
    {A : Type ℓ} {B : Type κ} (P : A → Type 0) (Q : B → Type 0) (m : Outcome A) (f : A → Outcome B)
    → Returns P m
    → ((y : A) → P y → Returns Q (f y))
    → Returns Q (m >>= f)
Returns-bind P Q (ok y) f p g = g y p
Returns-bind P Q undefined f p g = absurd p
Returns-bind P Q check_failed f p g = absurd p

pub Returns-both {ℓ} :
    {A : Type ℓ} (P Q : A → Type 0) (m : Outcome A)
    → Returns P m
    → Returns Q m
    → Returns (λ y. P y × Q y) m
Returns-both P Q (ok y) p q = (p, q)
Returns-both P Q undefined p q = p
Returns-both P Q check_failed p q = p
