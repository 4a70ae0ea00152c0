-- ===== src/Prelude/Exceptions.antt =====
-- Python's exceptions as values: a call returns or raises.

use mathlib.Core.Path.{◌≡◌, refl, ap}
use mathlib.Core.Logic.{◌⊎◌, inl, inr}

pub data Exception : Type 0 where
  zero_division_error value_error type_error key_error index_error attribute_error
        connection_error :
      Exception

pub data Raises {ℓ} (A : Type ℓ) : Type ℓ where
  ok : A → Raises A
  raised : Exception → Raises A

infixl 5 ◌>>=◌
abbrev pub ◌>>=◌ {ℓ κ} : {A : Type ℓ} {B : Type κ} → Raises A → (A → Raises B) → Raises B
ok a >>= f = f a
raised e >>= f = raised e

pub Raises-cases {ℓ} :
    {A : Type ℓ} (r : Raises A) → ((a : A) × (r ≡ ok a)) ⊎ ((e : Exception) × (r ≡ raised e))
Raises-cases (ok a) = inl (a, refl)
Raises-cases (raised e) = inr (e, refl)

-- What a chain of calls returns, each call returned.
pub bind_ok {ℓ κ} :
    {A : Type ℓ} {B : Type κ} (o : Raises A) (f : A → Raises B) {b : B}
    → o >>= f ≡ ok b
    → (a : A) × (o ≡ ok a) × (f a ≡ ok b)
bind_ok (ok a) f h = (a, refl, h)
bind_ok (raised e) f h = absurd cc

pub ok-injective {ℓ} : {A : Type ℓ} {a b : A} → ok a ≡ ok b → a ≡ b
ok-injective {a = a} h = ap (λ o. elim o [ ok x ↦ x | raised e ↦ a ]) h
