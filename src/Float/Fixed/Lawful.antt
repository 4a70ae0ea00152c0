-- ===== src/Float/Fixed/Lawful.antt =====
-- The laws of `Float.Laws` hold of the fixed-point numbers.
use native.Mathlib.Nat.{mul_comm as mul_comm_ℕ}
use mach.Prelude.{ℕ, zero, suc, ◌*◌, ◌/◌, ◌≤◌, ◌≡◌, refl, ap, ◌^◌, true, false, none, some, arith}
use mach.Prelude.Int.{ℤ, pos, negsuc, ◌+ℤ◌, ◌-ℤ◌, ltb_ℤ}
use mach.Float.{◌⊕◌, ◌⊖◌, ◌⊗◌, nought}
use mach.Float.Laws.{IsOrdered, IsMonotone, IsNanStrict, IsSigned, IsScaled}
use mach.Float.Fixed.{Fixed, fixed_float, signed, mul_fixed, quot_fixed, cut_fixed, scale, neg_of}

pub Fixed-IsOrdered : IsOrdered Fixed
Fixed-IsOrdered = ground arith

add_mono : (c x y : Fixed) → fixed_float.lt y x ≡ false → fixed_float.lt (c ⊕ y) (c ⊕ x) ≡ false
unfolding ◌+ℤ◌
add_mono c x y h = ground arith

mul_fixed_mono : (a b c : ℕ) → a ≤ b → mul_fixed a c ≤ mul_fixed b c
mul_fixed_mono a b c h = grind arith

quot_fixed_mono : (a b c : ℕ) → a ≤ b → quot_fixed a c ≤ quot_fixed b c
quot_fixed_mono a b c h = grind arith

module _ (f : ℕ → ℕ → ℕ) (mono : (a b c : ℕ) → a ≤ b → f a c ≤ f b c) where
  signed_mono :
      (x y : ℤ) (c : ℕ)
      → ltb_ℤ y x ≡ false
      → ltb_ℤ (signed f y (pos c)) (signed f x (pos c)) ≡ false
  signed_mono (pos a) (pos b) c h = ground (arith, mono a b c)
  signed_mono (pos a) (negsuc b) c h = ground arith
  signed_mono (negsuc a) (pos b) c h = ground arith
  signed_mono (negsuc a) (negsuc b) c h = ground (arith, mono (suc b) (suc a) c)

mul_mono :
    (x y c : Fixed)
    → fixed_float.lt y x ≡ false
    → fixed_float.lt c nought ≡ false
    → fixed_float.lt (y ⊗ c) (x ⊗ c) ≡ false
mul_mono none none c h k = refl
mul_mono none (some y) none h k = refl
mul_mono none (some y) (some c) h k = refl
mul_mono (some x) none c h k = refl
mul_mono (some x) (some y) none h k = refl
mul_mono (some x) (some y) (some (pos c)) h k = signed_mono mul_fixed mul_fixed_mono x y c h
mul_mono (some x) (some y) (some (negsuc c)) h k = absurd (ground arith)

quot_mono :
    (x y c : Fixed)
    → fixed_float.lt y x ≡ false
    → fixed_float.lt nought c ≡ true
    → fixed_float.lt (fixed_float.quot y c) (fixed_float.quot x c) ≡ false
quot_mono none none c h k = refl
quot_mono none (some y) none h k = refl
quot_mono none (some y) (some c) h k = refl
quot_mono (some x) none c h k = refl
quot_mono (some x) (some y) none h k = refl
quot_mono (some x) (some y) (some (pos c)) h k = signed_mono quot_fixed quot_fixed_mono x y c h
quot_mono (some x) (some y) (some (negsuc c)) h k = absurd (ground arith)

div_mono : (a b c : ℕ) → a ≤ b → a / c ≤ b / c
div_mono a b c h = grind arith

cut_fixed_mono : (k a b : ℕ) → a ≤ b → cut_fixed k a ≤ cut_fixed k b
cut_fixed_mono k a b h =
    let p : ℕ = 10 ^ k in
    let scaled : a * p ≤ b * p = grind arith in
    div_mono _ _ p (omega (arith, div_mono (a * p) (b * p) scale scaled))

round_mono :
    (x y : Fixed) (k : ℕ)
    → fixed_float.lt y x ≡ false
    → fixed_float.lt (fixed_float.round y k) (fixed_float.round x k) ≡ false
round_mono none none k h = refl
round_mono none (some y) k h = refl
round_mono (some x) none k h = refl
round_mono (some x) (some y) k h =
    signed_mono (λ n _. cut_fixed k n) (λ a b c. cut_fixed_mono k a b) x y 0 h

mul_comm : (x y : Fixed) → x ⊗ y ≡ y ⊗ x
mul_comm none none = refl
mul_comm none (some y) = refl
mul_comm (some x) none = refl
mul_comm (some (pos a)) (some (pos b)) = ap (λ t. some (pos (t / scale))) (mul_comm_ℕ a b)
mul_comm (some (pos a)) (some (negsuc b)) =
    ap (λ t. some (neg_of (t / scale))) (mul_comm_ℕ a (suc b))
mul_comm (some (negsuc a)) (some (pos b)) =
    ap (λ t. some (neg_of (t / scale))) (mul_comm_ℕ (suc a) b)
mul_comm (some (negsuc a)) (some (negsuc b)) =
    ap (λ t. some (pos (t / scale))) (mul_comm_ℕ (suc a) (suc b))

mul_nonneg :
    (x y : Fixed)
    → fixed_float.lt x nought ≡ false
    → fixed_float.lt y nought ≡ false
    → fixed_float.lt (x ⊗ y) nought ≡ false
mul_nonneg x y h k = ground arith

quot_nonneg :
    (x c : Fixed)
    → fixed_float.lt x nought ≡ false
    → fixed_float.lt nought c ≡ true
    → fixed_float.lt (fixed_float.quot x c) nought ≡ false
quot_nonneg x y h k = ground arith

round_nonneg :
    (x : Fixed) (k : ℕ)
    → fixed_float.lt x nought ≡ false
    → fixed_float.lt (fixed_float.round x k) nought ≡ false
round_nonneg x k h = ground arith

add_nonneg : (x y : Fixed) → fixed_float.lt y nought ≡ false → fixed_float.lt (x ⊕ y) x ≡ false
unfolding ◌+ℤ◌
add_nonneg x y h = ground arith

sub_nonneg : (x y : Fixed) → fixed_float.lt y nought ≡ false → fixed_float.lt x (x ⊖ y) ≡ false
unfolding ◌-ℤ◌
sub_nonneg x y h = ground arith

sum_nonneg :
    (x y : Fixed)
    → fixed_float.lt x nought ≡ false
    → fixed_float.lt y nought ≡ false
    → fixed_float.lt (x ⊕ y) nought ≡ false
unfolding ◌+ℤ◌
sum_nonneg x y h k = ground arith

pub Fixed-IsMonotone : IsMonotone Fixed
Fixed-IsMonotone = record {
  add_mono = add_mono;
  mul_mono = mul_mono;
  quot_mono = quot_mono;
  round_mono = round_mono;
  mul_comm = mul_comm;
  mul_nonneg = mul_nonneg;
  quot_nonneg = quot_nonneg;
  round_nonneg = round_nonneg;
  add_nonneg = add_nonneg;
  sub_nonneg = sub_nonneg;
  sum_nonneg = sum_nonneg;
  hundred_pos = refl;
  decimal_nonneg = λ m k. ground arith;
}

pub Fixed-IsNanStrict : IsNanStrict Fixed
Fixed-IsNanStrict = ground arith

abs_neg : (x : Fixed) → fixed_float.abs (fixed_float.neg x) ≡ fixed_float.abs x
abs_neg none = refl
abs_neg (some (pos zero)) = refl
abs_neg (some (pos (suc n))) = ground arith
abs_neg (some (negsuc n)) = ground arith

pub Fixed-IsSigned : IsSigned Fixed
Fixed-IsSigned = record {
  abs_neg = abs_neg;
  neg_pos = λ x. ground arith;
  neg_below = λ x. ground arith;
}

quot_fixed_most : (a b : ℕ) → scale ≤ b → quot_fixed a b ≤ a
quot_fixed_most a b h = grind arith

quot_most :
    (x c : Fixed)
    → fixed_float.lt x nought ≡ false
    → fixed_float.lt c (fixed_float.decimal 1 0) ≡ false
    → fixed_float.lt x (fixed_float.quot x c) ≡ false
quot_most none none h k = refl
quot_most none (some c) h k = refl
quot_most (some x) none h k = refl
quot_most (some (pos a)) (some (pos b)) h k = ground (arith, quot_fixed_most a b)
quot_most (some (pos a)) (some (negsuc b)) h k = ground arith
quot_most (some (negsuc a)) (some c) h k = absurd (ground arith)

quot_least :
    (x c : Fixed)
    → fixed_float.lt x nought ≡ false
    → fixed_float.lt c (fixed_float.decimal 1 0) ≡ false
    → fixed_float.lt (fixed_float.quot x c) nought ≡ false
quot_least x c h k = ground arith

sub_least : (x y : Fixed) → fixed_float.lt x y ≡ false → fixed_float.lt (x ⊖ y) nought ≡ false
unfolding ◌-ℤ◌
sub_least x y h = ground arith

quot_sign :
    (x c : Fixed)
    → fixed_float.lt x nought ≡ false
    → fixed_float.lt c nought ≡ false
    → fixed_float.eq c nought ≡ false
    → fixed_float.lt (fixed_float.quot x c) nought ≡ false
quot_sign x c h k l = ground arith

pub Fixed-IsScaled : IsScaled Fixed
Fixed-IsScaled = record {
  quot_least = quot_least;
  quot_most = quot_most;
  sub_least = sub_least;
  quot_sign = quot_sign;
  step_pos = λ n. ground arith;
}
