-- ===== src/Float.antt =====
-- Python's `float`, an IEEE 754 double. The type and its operations are parameters: the code
-- computes with `+ - * /`, the comparisons, `abs`, `round` and decimal literals, and nothing else.
pub mod Laws
pub mod Fixed
use mach.Prelude.Int.{ℤ}
use mach.Prelude.{ℕ, Bool, Raises, ok, raised, zero_division_error, if◌then◌else◌}

pub record Float {ℓ} (F : Type ℓ) : Type ℓ where
  pub lt : F → F → Bool
  pub le : F → F → Bool
  pub eq : F → F → Bool
  pub add : F → F → F
  pub sub : F → F → F
  pub mul : F → F → F
  pub quot : F → F → F
  pub neg : F → F
  pub abs : F → F
  -- `round(x, digits)`
  pub round : F → ℕ → F
  -- `int(x)`, which raises on NaN and on the infinities.
  pub to_int : F → Raises ℤ
  -- `decimal m k` is the literal m * 10 ^ -k: `decimal 5 4` is 0.0005.
  pub decimal : ℕ → ℕ → F

module _ {ℓ} {F : Type ℓ} ⦃fl : Float F⦄ where
  open fl use {lt, eq, add, sub, mul, quot, decimal}

  infixl 65 ◌⊕◌ ◌⊖◌
  infixl 70 ◌⊗◌
  abbrev pub ◌⊕◌ : F → F → F
  x ⊕ y = add x y

  abbrev pub ◌⊖◌ : F → F → F
  x ⊖ y = sub x y

  abbrev pub ◌⊗◌ : F → F → F
  x ⊗ y = mul x y

  -- 0.0
  abbrev pub nought : F
  nought = decimal 0 0

  -- 100.0
  abbrev pub hundred : F
  hundred = decimal 100 0

  -- `x / y`, which raises on a zero divisor.
  abbrev pub divide : F → F → Raises F
  divide x y = if eq y nought then raised zero_division_error else ok (quot x y)

  -- Python's `max(x, y)` and `min(x, y)`: the first unless the second is strictly beyond it.
  abbrev pub larger : F → F → F
  larger x y = if lt x y then y else x

  abbrev pub smaller : F → F → F
  smaller x y = if lt y x then y else x
