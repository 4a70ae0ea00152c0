-- ===== src/Risk/Gate.antt =====
-- swaram/risk/engine.py: what the gate of `check_trade` admits, and when it fails.
use mach.Prelude.{◌≡◌, refl, ◌↔◌, ◌⊎◌, true, false, arith, ok, raised, zero_division_error}
use mach.Float.{Float, ◌⊕◌, ◌⊗◌, nought, hundred}
use mach.Float.Laws.{IsNumber, IsOrdered, IsMonotone, IsNanStrict}
use mach.Risk.{
  RiskState, RiskCheckResult, drawdown_pct, exposure_pct, max_loss_dollars, check_loss,
  check_limits, check_trade,
}

module _ {ℓ} {F : Type ℓ} ⦃fl : Float F⦄ where
  open fl use {lt, le, eq, quot, decimal}

  -- The exposure that the trade would lead to, where the initial capital is not zero.
  abbrev pub proposed_pct : RiskState F → F → F
  proposed_pct s qty = quot ((s.position_size ⊕ qty) ⊗ s.current_price) s.initial_capital ⊗ hundred

  -- The three limits, none of which is passed.
  pub record WithinLimits (s : RiskState F) (qty : F) : Type 0 where
    pub drawdown : le s.max_drawdown_pct (drawdown_pct s) ≡ false
    pub exposure : lt s.max_position_pct (proposed_pct s qty) ≡ false
    pub loss : lt (max_loss_dollars s) (qty ⊗ s.current_price) ≡ false

  pub Admits : RiskState F → F → Type ℓ
  Admits s qty = (r : RiskCheckResult F) × (check_trade s qty ≡ ok r) × (r.allowed ≡ true)

  within-Admits :
      (s : RiskState F) (qty : F)
      → eq s.initial_capital nought ≡ false
      → WithinLimits s qty
      → Admits s qty
  unfolding check_trade check_limits check_loss exposure_pct Admits
  within-Admits s qty solvent w = rw (solvent, w.drawdown, w.exposure, w.loss) (_, refl, refl)

  Admits-within :
      (s : RiskState F) (qty : F)
      → eq s.initial_capital nought ≡ false
      → Admits s qty
      → WithinLimits s qty
  unfolding check_trade check_limits check_loss exposure_pct Admits
  Admits-within s qty solvent (r, e, a) = record {
    drawdown = ground arith;
    exposure = ground arith;
    loss = ground arith;
  }

  -- With a nonzero initial capital, `check_trade` returns and allows a trade exactly when the
  -- drawdown is not at its limit, the exposure after the trade is not above its limit, and the
  -- value of the trade is not above the loss limit.
  pub Admits-iff :
      (s : RiskState F) (qty : F)
      → eq s.initial_capital nought ≡ false
      → Admits s qty ↔ WithinLimits s qty
  Admits-iff s qty solvent = (Admits-within s qty solvent, within-Admits s qty solvent)

  -- What a block suggests: nothing, or what the loss limit buys, to four decimals.
  pub Suggests : RiskState F → F → Type ℓ
  Suggests s q = (q ≡ nought) ⊎ (q ≡ fl.round (quot (max_loss_dollars s) s.current_price) 4)

  -- Every result of `check_trade` reports the drawdown; an allowed trade keeps its quantity, and a
  -- blocked one is answered by zero or by the quantity that the loss limit buys.
  check_trade_answer :
      (s : RiskState F) (qty : F) {r : RiskCheckResult F}
      → check_trade s qty ≡ ok r
      → (r.current_drawdown_pct ≡ drawdown_pct s)
        × (((r.allowed ≡ true) × (r.suggested_quantity ≡ qty))
            ⊎ ((r.allowed ≡ false) × Suggests s r.suggested_quantity))
  unfolding check_trade check_limits check_loss exposure_pct Suggests
  check_trade_answer s qty e = ground arith

  -- `check_trade` raises exactly when the initial capital is zero, or when the price is zero and
  -- the trade gets past the first two limits and is stopped by the third.
  check_trade-raises_iff :
      (s : RiskState F) (qty : F)
      → (check_trade s qty ≡ raised zero_division_error) ↔ (
          (eq s.initial_capital nought ≡ true)
          ⊎ ((le s.max_drawdown_pct (drawdown_pct s) ≡ false)
              × (lt s.max_position_pct (proposed_pct s qty) ≡ false)
              × (lt (max_loss_dollars s) (qty ⊗ s.current_price) ≡ true)
              × (eq s.current_price nought ≡ true)))
  unfolding check_trade check_limits check_loss exposure_pct
  check_trade-raises_iff s qty = (λ e. ground arith, λ e. ground arith)

  module _ (ordered : IsOrdered F) (mono : IsMonotone F) where
    open ordered use {not-lt_trans}
    open mono use {add_mono, mul_mono, quot_mono}

    proposed_pct_mono :
        (s : RiskState F) (x y : F)
        → lt s.current_price nought ≡ false
        → lt nought s.initial_capital ≡ true
        → lt y x ≡ false
        → lt (proposed_pct s y) (proposed_pct s x) ≡ false
    proposed_pct_mono s x y price capital h =
        mul_mono _ _ _
          (quot_mono _ _ _ (mul_mono _ _ _ (add_mono s.position_size x y h) price) capital)
          (mono.decimal_nonneg 100 0)

    -- The gate is monotone: with a positive initial capital and a price that is not negative, a
    -- trade that is not larger than an allowed one is allowed too, if the exposure and the value
    -- of the allowed trade are not NaN.
    pub Admits-smaller :
        (s : RiskState F) (small large : F)
        → eq s.initial_capital nought ≡ false
        → lt nought s.initial_capital ≡ true
        → lt s.current_price nought ≡ false
        → lt large small ≡ false
        → IsNumber (proposed_pct s large)
        → IsNumber (large ⊗ s.current_price)
        → Admits s large
        → Admits s small
    Admits-smaller s small large solvent capital price h n₁ n₂ a =
        let w = Admits-within s large solvent a in
        within-Admits s small solvent (record {
          drawdown = w.drawdown;
          exposure =
              not-lt_trans _ _ _ n₁ (proposed_pct_mono s small large price capital h) w.exposure;
          loss = not-lt_trans _ _ _ n₂ (mul_mono _ _ _ h price) w.loss;
        })

  module _ (strict : IsNanStrict F) where
    open strict use {add_nan, mul_nan, quot_nan, not-lt_nan}

    -- A quantity that is NaN passes both limits on the size of the trade: with a nonzero initial
    -- capital, and unless the drawdown is at its limit, `check_trade` allows it.
    Admits-nan :
        (s : RiskState F) (qty : F)
        → le qty qty ≡ false
        → eq s.initial_capital nought ≡ false
        → le s.max_drawdown_pct (drawdown_pct s) ≡ false
        → Admits s qty
    Admits-nan s qty nan solvent calm = within-Admits s qty solvent (record {
      drawdown = calm;
      exposure = not-lt_nan _ _ (mul_nan _ _ (quot_nan _ _ (mul_nan _ _ (add_nan _ _ nan))));
      loss = not-lt_nan _ _ (mul_nan _ _ nan);
    })
