-- ===== src/Float/Fixed.antt =====
-- Fixed-point numbers with six decimals and a NaN. They meet every law of `Float.Laws`, which so
-- can be met, and make the definitions run on concrete inputs.
pub mod Lawful
use mathlib.Core.Bool.{false≢true}
use mach.Prelude.{
  ℕ, zero, suc, ◌+◌, ◌*◌, ◌/◌, ◌^◌, ◌≤◌, ◌≡◌, refl, Bool, true, false, Option, none, some, ok,
  raised, value_error, arith, ltb, leb, ◌==◌, if◌then◌else◌,
}
use mach.Prelude.Int.{ℤ, pos, negsuc, pos_part, neg_part, ◌+ℤ◌, ◌-ℤ◌, ltb_ℤ, leb_ℤ}
use mach.Float.{Float}

abbrev pub Fixed : Type 0
Fixed = Option ℤ

abbrev scale : ℕ
scale = 1_000_000

-- -n
abbrev neg_of : ℕ → ℤ
neg_of zero = pos 0
neg_of (suc n) = negsuc n

abbrev neg_ℤ : ℤ → ℤ
neg_ℤ (pos n) = neg_of n
neg_ℤ (negsuc n) = pos (suc n)

-- An operation on magnitudes, with the sign of the product.
abbrev signed : (ℕ → ℕ → ℕ) → ℤ → ℤ → ℤ
signed f (pos a) (pos b) = pos (f a b)
signed f (pos a) (negsuc b) = neg_of (f a (suc b))
signed f (negsuc a) (pos b) = neg_of (f (suc a) b)
signed f (negsuc a) (negsuc b) = pos (f (suc a) (suc b))

abbrev mul_fixed : ℕ → ℕ → ℕ
mul_fixed a b = a * b / scale

abbrev quot_fixed : ℕ → ℕ → ℕ
quot_fixed a b = a * scale / b

abbrev lift₂ : {A : Type 0} → A → (ℤ → ℤ → A) → Fixed → Fixed → A
lift₂ d f (some a) (some b) = f a b
lift₂ d f none y = d
lift₂ d f (some a) none = d

abbrev number₂ : (ℤ → ℤ → ℤ) → Fixed → Fixed → Fixed
number₂ f = lift₂ none λ a b. some (f a b)

abbrev map_fixed : (ℤ → ℤ) → Fixed → Fixed
map_fixed f none = none
map_fixed f (some a) = some (f a)

-- Cut to so many decimals, toward zero.
abbrev cut_fixed : ℕ → ℕ → ℕ
cut_fixed k n = n * 10 ^ k / scale * scale / 10 ^ k

abbrev cut : ℕ → ℤ → ℤ
cut k x = signed (λ n _. cut_fixed k n) x (pos 0)

abbrev abs_ℤ : ℤ → ℤ
abs_ℤ a = pos (pos_part a + neg_part a)

abbrev truncate : ℤ → ℤ
truncate (pos n) = pos (n / scale)
truncate (negsuc n) = neg_of (suc n / scale)

instance abbrev pub fixed_float : Float Fixed
fixed_float = record {
  lt = lift₂ false ltb_ℤ;
  le = lift₂ false leb_ℤ;
  eq = lift₂ false λ a b. pos_part a + neg_part b == pos_part b + neg_part a;
  add = number₂ ◌+ℤ◌;
  sub = number₂ ◌-ℤ◌;
  mul = number₂ (signed mul_fixed);
  quot = number₂ (signed quot_fixed);
  neg = map_fixed neg_ℤ;
  abs = map_fixed abs_ℤ;
  round = λ x k. map_fixed (cut k) x;
  to_int = elim [ none ↦ raised value_error | some x ↦ ok (truncate x) ];
  decimal = λ m k. some (pos (m * scale / 10 ^ k));
}
