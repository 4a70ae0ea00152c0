-- ===== src/Float/Laws.antt =====
-- What the theorems assume of floats. Each law holds of IEEE 754 doubles with NaN and the
-- infinities included: comparisons with NaN are false, and rounding is monotone.
use mach.Prelude.{ℕ, suc, ◌≡◌, true, false, Bool-cases, inl, inr}
use mach.Float.{Float, nought, hundred, ◌⊕◌, ◌⊖◌, ◌⊗◌, larger}

-- Every value but NaN is `<=` itself.
abbrev pub IsNumber {ℓ} : {F : Type ℓ} ⦃fl : Float F⦄ → F → Type 0
IsNumber ⦃fl⦄ x = fl.le x x ≡ true

-- The comparisons.
pub record IsOrdered {ℓ} (F : Type ℓ) ⦃fl : Float F⦄ : Type ℓ where
  pub lt_irrefl : (x : F) → fl.lt x x ≡ false
  pub lt_trans : (x y z : F) → fl.lt x y ≡ true → fl.lt y z ≡ true → fl.lt x z ≡ true
  pub not-lt_of_le : (x y : F) → fl.le x y ≡ true → fl.lt y x ≡ false
  pub le_of_not_lt : (x y : F) → IsNumber x → IsNumber y → fl.lt y x ≡ false → fl.le x y ≡ true
  pub le_of_lt : (x y : F) → fl.lt x y ≡ true → fl.le x y ≡ true
  pub le_trans : (x y z : F) → fl.le x y ≡ true → fl.le y z ≡ true → fl.le x z ≡ true
  pub number_of_le : (x y : F) → fl.le x y ≡ true → IsNumber x × IsNumber y
  pub number_of_lt : (x y : F) → fl.lt x y ≡ true → IsNumber x × IsNumber y
  pub lt_of_not_le : (x y : F) → IsNumber x → IsNumber y → fl.le x y ≡ false → fl.lt y x ≡ true
  pub not-lt_trans :
      (x y z : F) → IsNumber y → fl.lt y x ≡ false → fl.lt z y ≡ false → fl.lt z x ≡ false
  pub not-le_of_lt : (x y : F) → fl.lt x y ≡ true → fl.le y x ≡ false
  pub nought_number : IsNumber {F = F} nought

-- NaN: it passes through arithmetic, and every comparison with it is false.
pub record IsNanStrict {ℓ} (F : Type ℓ) ⦃fl : Float F⦄ : Type ℓ where
  pub add_nan : (x y : F) → fl.le y y ≡ false → fl.le (x ⊕ y) (x ⊕ y) ≡ false
  pub mul_nan : (x y : F) → fl.le x x ≡ false → fl.le (x ⊗ y) (x ⊗ y) ≡ false
  pub quot_nan : (x y : F) → fl.le x x ≡ false → fl.le (fl.quot x y) (fl.quot x y) ≡ false
  pub not-lt_nan : (x y : F) → fl.le y y ≡ false → fl.lt x y ≡ false

-- Arithmetic keeps order, in the form "not above" that holds of NaN too.
pub record IsMonotone {ℓ} (F : Type ℓ) ⦃fl : Float F⦄ : Type ℓ where
  pub add_mono : (c x y : F) → fl.lt y x ≡ false → fl.lt (c ⊕ y) (c ⊕ x) ≡ false
  pub mul_mono :
      (x y c : F) → fl.lt y x ≡ false → fl.lt c nought ≡ false → fl.lt (y ⊗ c) (x ⊗ c) ≡ false
  pub quot_mono :
      (x y c : F)
      → fl.lt y x ≡ false
      → fl.lt nought c ≡ true
      → fl.lt (fl.quot y c) (fl.quot x c) ≡ false
  pub round_mono :
      (x y : F) (k : ℕ) → fl.lt y x ≡ false → fl.lt (fl.round y k) (fl.round x k) ≡ false
  pub mul_comm : (x y : F) → x ⊗ y ≡ y ⊗ x
  pub mul_nonneg :
      (x y : F) → fl.lt x nought ≡ false → fl.lt y nought ≡ false → fl.lt (x ⊗ y) nought ≡ false
  pub quot_nonneg :
      (x c : F)
      → fl.lt x nought ≡ false
      → fl.lt nought c ≡ true
      → fl.lt (fl.quot x c) nought ≡ false
  pub round_nonneg : (x : F) (k : ℕ) → fl.lt x nought ≡ false → fl.lt (fl.round x k) nought ≡ false
  pub decimal_nonneg : (m k : ℕ) → fl.lt (fl.decimal m k) nought ≡ false
  pub hundred_pos : fl.lt nought hundred ≡ true
  pub add_nonneg : (x y : F) → fl.lt y nought ≡ false → fl.lt (x ⊕ y) x ≡ false
  pub sub_nonneg : (x y : F) → fl.lt y nought ≡ false → fl.lt x (x ⊖ y) ≡ false
  pub sum_nonneg :
      (x y : F) → fl.lt x nought ≡ false → fl.lt y nought ≡ false → fl.lt (x ⊕ y) nought ≡ false

-- Signs.
pub record IsSigned {ℓ} (F : Type ℓ) ⦃fl : Float F⦄ : Type ℓ where
  pub abs_neg : (x : F) → fl.abs (fl.neg x) ≡ fl.abs x
  pub neg_pos : (x : F) → fl.lt nought (fl.neg x) ≡ fl.lt x nought
  pub neg_below : (x : F) → fl.lt (fl.neg x) nought ≡ fl.lt nought x

-- Division by a number that is at least one, and by one that is not negative and not zero; numbers
-- as divisors.
pub record IsScaled {ℓ} (F : Type ℓ) ⦃fl : Float F⦄ : Type ℓ where
  pub quot_least :
      (x c : F)
      → fl.lt x nought ≡ false
      → fl.lt c (fl.decimal 1 0) ≡ false
      → fl.lt (fl.quot x c) nought ≡ false
  pub quot_most :
      (x c : F)
      → fl.lt x nought ≡ false
      → fl.lt c (fl.decimal 1 0) ≡ false
      → fl.lt x (fl.quot x c) ≡ false
  pub sub_least : (x y : F) → fl.lt x y ≡ false → fl.lt (x ⊖ y) nought ≡ false
  pub quot_sign :
      (x c : F)
      → fl.lt x nought ≡ false
      → fl.lt c nought ≡ false
      → fl.eq c nought ≡ false
      → fl.lt (fl.quot x c) nought ≡ false
  pub step_pos : (n : ℕ) → fl.lt nought (fl.decimal (suc n) 0) ≡ true

module _ {ℓ} {F : Type ℓ} ⦃fl : Float F⦄ (ordered : IsOrdered F) where
  open ordered use {lt_irrefl, not-lt_of_le, le_of_lt}

  pub lt_asym : (x y : F) → fl.lt x y ≡ true → fl.lt y x ≡ false
  lt_asym x y h = not-lt_of_le x y (le_of_lt x y h)

  -- `max(0.0, x)` is not negative, NaN included.
  pub larger_nonneg : (x : F) → fl.lt (larger nought x) nought ≡ false
  larger_nonneg x = elim (Bool-cases (fl.lt nought x)) [
    | inl e ↦ rw e (lt_asym nought x e)
    | inr e ↦ rw e (lt_irrefl nought)
  ]
