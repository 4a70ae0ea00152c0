-- ===== src/Indicators/Tests.antt =====
-- The indicators on concrete prices.
use mach.Prelude.{ℕ, ◌-◌, ◌+◌, ◌≡◌, refl, List, [], ◌∷◌, none, length, All, arith, zero, suc}
use mach.Prelude.Int.{◌+ℤ◌, ◌-ℤ◌}
use mach.Float.{nought}
use mach.Float.Fixed.{Fixed, fixed_float}
use mach.Float.Fixed.Lawful.{Fixed-IsOrdered, Fixed-IsMonotone, Fixed-IsSigned, Fixed-IsScaled}
use mach.Indicators.{
  Numpy, replicate, calculate_sma, calculate_ema, calculate_rsi, calculate_macd, calculate_atr,
  calculate_bollinger_bands, ema_from,
}
use mach.Indicators.Rsi.{InRange, IsNumpy, calculate_rsi-InRange}
use mach.Indicators.Alignment.{IsValid, IsAligned, indicators-IsAligned}
open fixed_float use {decimal as num, quot, add}

-- numpy as far as a test needs it: the mean of two, and a convolution of the right length.
abbrev small : Numpy Fixed
small = record {
  nan = none;
  mean = λ xs. nought;
  std = λ xs. nought;
  sqrt = λ x. x;
  log = λ x. x;
  convolve = λ xs ws. replicate (length xs + 1 - length ws) nought;
}

abbrev prices : List Fixed
prices = num 100 0 ∷ num 102 0 ∷ num 101 0 ∷ num 104 0 ∷ []

-- A period of two, from the average zero.
ema_runs : calculate_ema small prices 1 ≡ none ∷ nought ∷ num 67_333_266 6 ∷ num 91_777_730 6 ∷ []
unfolding calculate_ema ema_from ◌+ℤ◌ ◌-ℤ◌
ema_runs = refl

small-IsNumpy : IsNumpy small
small-IsNumpy = record {
  mean_nonneg = λ xs h. refl;
  nan_below = λ x. refl;
  nan_above = λ x. ground arith;
}

calculate_rsi-InRange_example : All InRange (calculate_rsi small prices 1)
calculate_rsi-InRange_example =
    calculate_rsi-InRange small Fixed-IsOrdered Fixed-IsMonotone Fixed-IsSigned Fixed-IsScaled
      small-IsNumpy prices 1

length-replicate-nought : (n : ℕ) → length (replicate n (nought {F = Fixed})) ≡ n
length-replicate-nought zero = refl
length-replicate-nought (suc n) = omega (arith, length-replicate-nought n)

small-IsValid : IsValid small
unfolding IsValid
small-IsValid xs ws h k = omega (arith, length-replicate-nought (length xs + 1 - length ws))

abbrev bars : List (Fixed × Fixed × Fixed)
bars = (num 103 0, num 99 0, num 102 0) ∷ (num 104 0, num 100 0, num 101 0) ∷ []

indicators-IsAligned_example :
    (length (calculate_sma small prices 1) ≡ length prices)
    × (length (calculate_ema small prices 1) ≡ length prices)
    × (length (calculate_rsi small prices 1) ≡ length prices)
    × (length (calculate_atr small bars 1) ≡ length bars)
    × IsAligned (calculate_macd small prices 1 2 1) (length prices)
    × IsAligned (calculate_bollinger_bands small prices 1 (num 2 0)) (length prices)
indicators-IsAligned_example = indicators-IsAligned small small-IsValid prices bars 1 2 1 (num 2 0)
