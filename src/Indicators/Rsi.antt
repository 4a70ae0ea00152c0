-- ===== src/Indicators/Rsi.antt =====
-- swaram/analytics/indicators.py: the range of the RSI.
use mach.Prelude.{
  ℕ, zero, suc, ◌≡◌, false, List, [], ◌∷◌, map, length, take, drop, leb, All, All-append,
  Bool-cases, inl, inr,
}
use mach.Float.{Float, nought, hundred}
use mach.Float.Laws.{IsOrdered, IsMonotone, IsSigned, IsScaled, lt_asym}
use mach.Indicators.{Numpy, replicate, gain, loss, rsi_of, smooth, rsi_from, diff, calculate_rsi}

module _ {ℓ} {F : Type ℓ} ⦃fl : Float F⦄ where
  open fl use {lt}

  -- Not below zero, in the form that NaN meets.
  abbrev pub NonNeg : F → Type 0
  NonNeg x = lt x nought ≡ false

  -- Between zero and a hundred, or NaN.
  abbrev pub InRange : F → Type 0
  InRange x = NonNeg x × (lt hundred x ≡ false)

module _ {ℓ} {F : Type ℓ} ⦃fl : Float F⦄ (np : Numpy F) where
  open fl use {lt, eq, quot, decimal}

  -- What is assumed of numpy: the mean of numbers that are not negative is not negative, and NaN
  -- is not in order with any number.
  pub record IsNumpy : Type ℓ where
    pub mean_nonneg : (xs : List F) → All NonNeg xs → NonNeg (np.mean xs)
    pub nan_below : (x : F) → lt np.nan x ≡ false
    pub nan_above : (x : F) → lt x np.nan ≡ false

  module _ (ordered : IsOrdered F) (mono : IsMonotone F) (signed : IsSigned F) (scaled : IsScaled F)
      (lawful : IsNumpy) where
    open mono use {add_nonneg, sub_nonneg, mul_nonneg, sum_nonneg, quot_nonneg, decimal_nonneg}
    open scaled use {quot_least, quot_most, sub_least, quot_sign, step_pos}

    gain_nonneg : (d : F) → NonNeg (gain d)
    gain_nonneg d = elim (Bool-cases (lt nought d)) [
      | inl e ↦ rw e (lt_asym ordered nought d e)
      | inr e ↦ rw e (ordered.lt_irrefl nought)
    ]

    loss_nonneg : (d : F) → NonNeg (loss d)
    loss_nonneg d = elim (Bool-cases (lt d nought)) [
      | inl e ↦ rw e (rw (signed.neg_below d) (lt_asym ordered d nought e))
      | inr e ↦ rw e (ordered.lt_irrefl nought)
    ]

    smooth_nonneg : (n : ℕ) (avg x : F) → NonNeg avg → NonNeg x → NonNeg (smooth n avg x)
    unfolding smooth
    smooth_nonneg n avg x a b =
        quot_nonneg _ _ (sum_nonneg _ _ (mul_nonneg avg _ a (decimal_nonneg n 0)) b) (step_pos n)

    rsi_of-InRange : (g l : F) → NonNeg g → NonNeg l → InRange (rsi_of g l)
    unfolding rsi_of
    rsi_of-InRange g l a b = elim (Bool-cases (eq l nought)) [
      | inl e ↦ rw e (lt_asym ordered nought hundred mono.hundred_pos, ordered.lt_irrefl hundred)
      | inr e ↦
          let above = add_nonneg (decimal 1 0) (quot g l) (quot_sign g l a b e) in
          rw e (
            sub_least hundred _ (quot_most hundred _ (decimal_nonneg 100 0) above),
            sub_nonneg hundred _ (quot_least hundred _ (decimal_nonneg 100 0) above),
          )
    ]

    rsi_from-InRange :
        (n : ℕ) (g l : F) (ds : List F) → NonNeg g → NonNeg l → All InRange (rsi_from n g l ds)
    unfolding rsi_from
    rsi_from-InRange n g l [] a b = (rsi_of-InRange g l a b, tt)
    rsi_from-InRange n g l (d ∷ ds) a b = (
      rsi_of-InRange g l a b,
      rsi_from-InRange n (smooth n g (gain d)) (smooth n l (loss d)) ds
          (smooth_nonneg n g _ a (gain_nonneg d)) (smooth_nonneg n l _ b (loss_nonneg d)),
    )

    replicate-InRange : (n : ℕ) → All InRange (replicate n np.nan)
    replicate-InRange zero = tt
    replicate-InRange (suc n) =
        ((lawful.nan_below nought, lawful.nan_above hundred), replicate-InRange n)

    gains_nonneg : (ds : List F) → All NonNeg (map gain ds)
    gains_nonneg [] = tt
    gains_nonneg (d ∷ ds) = (gain_nonneg d, gains_nonneg ds)

    losses_nonneg : (ds : List F) → All NonNeg (map loss ds)
    losses_nonneg [] = tt
    losses_nonneg (d ∷ ds) = (loss_nonneg d, losses_nonneg ds)

    -- Every value of the RSI lies between 0 and 100, or is NaN, for all prices, rising or falling
    -- without end, and also where there are too few of them. What is assumed of numpy's mean is
    -- that it is not negative where its numbers are not.
    pub calculate_rsi-InRange : (prices : List F) (n : ℕ) → All InRange (calculate_rsi np prices n)
    unfolding calculate_rsi
    calculate_rsi-InRange prices n = elim (Bool-cases (leb (length prices) (suc n))) [
      | inl few ↦ rw (few, calculate_rsi) (replicate-InRange (length prices))
      | inr enough ↦
          rw (enough, calculate_rsi)
            (All-append InRange (replicate (suc n) np.nan) _ (replicate-InRange (suc n)) (
              rsi_from-InRange n _ _ (drop (suc n) (diff prices))
                (lawful.mean_nonneg _ (gains_nonneg (take (suc n) (diff prices))))
                (lawful.mean_nonneg _ (losses_nonneg (take (suc n) (diff prices))))))
    ]
