-- ===== src/Risk/Sizing.antt =====
-- swaram/risk/engine.py: the bounds of `kelly_size` and of `fixed_fractional_size`.
use mach.Prelude.{◌≡◌, ◌↔◌, true, false, arith, ok, raised, zero_division_error}
use mach.Float.{Float, ◌⊗◌, ◌⊖◌, nought, larger, smaller}
use mach.Float.Laws.{IsOrdered, IsMonotone}
use mach.Risk.{kelly_size}

module _ {ℓ} {F : Type ℓ} ⦃fl : Float F⦄ where
  open fl use {lt, le, eq, quot, decimal, round}

  -- `kelly_size` raises exactly when it gets past its guards and the ratio of the average win to
  -- the average loss is zero: the average win is not among the guards.
  kelly_size-raises_iff :
      (win_rate avg_win avg_loss capital price fraction : F)
      → (kelly_size win_rate avg_win avg_loss capital price fraction ≡ raised zero_division_error)
        ↔ ((eq avg_loss nought ≡ false)
            × (eq price nought ≡ false)
            × (eq (quot avg_win avg_loss) nought ≡ true))
  unfolding kelly_size
  kelly_size-raises_iff win_rate avg_win avg_loss capital price fraction =
      (λ e. ground arith, λ e. ground arith)

  module _ (ordered : IsOrdered F) (mono : IsMonotone F) where
    open ordered use {lt_irrefl}
    open mono use {mul_mono, quot_mono, round_mono, mul_comm, decimal_nonneg}

    clamp_bounds :
        (x : F)
        → (lt (larger nought (smaller x (decimal 20 2))) nought ≡ false)
          × (lt (decimal 20 2) (larger nought (smaller x (decimal 20 2))) ≡ false)
    clamp_bounds x = ground (
      arith,
      decimal_nonneg 20 2,
      lt_irrefl nought,
      lt_irrefl (decimal 20 2),
      ordered.le_of_lt nought x,
      ordered.not-lt_of_le nought x,
      ordered.le_of_lt nought (decimal 20 2),
      ordered.not-lt_of_le nought (decimal 20 2),
    )

    mul_mono_left : (c x y : F) → lt y x ≡ false → lt c nought ≡ false → lt (c ⊗ y) (c ⊗ x) ≡ false
    mul_mono_left c x y h k = rw (mul_comm c y, mul_comm c x) (mul_mono x y c h k)

    size_mono :
        (capital price x y : F)
        → lt capital nought ≡ false
        → lt nought price ≡ true
        → lt y x ≡ false
        → lt (round (quot (capital ⊗ y) price) 4) (round (quot (capital ⊗ x) price) 4) ≡ false
    size_mono capital price x y c p h =
        round_mono _ _ 4 (quot_mono _ _ _ (mul_mono_left capital x y h c) p)

    -- Whatever the estimates, NaN included: with a capital that is not negative and a positive
    -- price, a size that `kelly_size` returns is not negative, and not above what a fifth of the
    -- capital buys.
    pub kelly_size_bounds :
        (win_rate avg_win avg_loss capital price fraction : F) {size : F}
        → lt capital nought ≡ false
        → lt nought price ≡ true
        → kelly_size win_rate avg_win avg_loss capital price fraction ≡ ok size
        → (lt size nought ≡ false)
          × (lt (round (quot (capital ⊗ decimal 20 2) price) 4) size ≡ false)
    unfolding kelly_size
    kelly_size_bounds win_rate avg_win avg_loss capital price fraction c p e =
        let odds = quot avg_win avg_loss in
        let kelly_fraction = win_rate ⊖ quot (decimal 1 0 ⊖ win_rate) odds in
        let (low, high) = clamp_bounds (kelly_fraction ⊗ fraction) in
        let safe = larger nought (smaller (kelly_fraction ⊗ fraction) (decimal 20 2)) in
        ground (
          arith,
          mono.round_nonneg _ 4 (mono.quot_nonneg _ _ (mono.mul_nonneg capital safe c low) p),
          size_mono capital price safe (decimal 20 2) c p high,
          mono.round_nonneg _ 4
              (mono.quot_nonneg _ _ (mono.mul_nonneg capital _ c (decimal_nonneg 20 2)) p),
          lt_irrefl nought,
        )
