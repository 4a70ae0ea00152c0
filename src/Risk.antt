-- ===== src/Risk.antt =====
-- swaram/risk/engine.py: the pre-trade gate and the two position sizes of `RiskEngine`.
-- A reason is its template with the numbers that the code formats into it.
pub mod Gate
pub mod Sizing
pub mod Route
mod Tests
use mach.Prelude.{ℕ, Bool, true, false, ◌||◌, Raises, ok, ◌>>=◌, if◌then◌else◌}
use mach.Float.{Float, ◌⊕◌, ◌⊖◌, ◌⊗◌, nought, hundred, divide, larger, smaller}

pub record RiskState {ℓ} (F : Type ℓ) : Type ℓ where
  pub current_capital : F
  pub initial_capital : F
  pub position_size : F
  pub entry_price : F
  pub current_price : F
  pub max_drawdown_pct : F
  pub max_position_pct : F
  pub max_loss_per_trade_pct : F

pub data Reason {ℓ} (F : Type ℓ) : Type ℓ where
  max_drawdown_guard : F → F → Reason F
  position_limit : F → F → Reason F
  per_trade_loss_limit : F → F → Reason F
  all_passed : Reason F

pub record RiskCheckResult {ℓ} (F : Type ℓ) : Type ℓ where
  pub allowed : Bool
  pub reason : Reason F
  pub suggested_quantity : F
  pub current_drawdown_pct : F
  pub current_exposure_pct : F

module _ {ℓ} {F : Type ℓ} ⦃fl : Float F⦄ where
  open fl use {lt, le, eq, quot, round, decimal}

  -- `_drawdown_pct`
  pub drawdown_pct : RiskState F → F
  drawdown_pct s =
      if eq s.initial_capital nought
      then nought
      else larger nought (quot (s.initial_capital ⊖ s.current_capital) s.initial_capital ⊗ hundred)

  -- A position's share of the initial capital, in percent.
  pub exposure_pct : RiskState F → F → Raises F
  exposure_pct s size = do
    share ← divide (size ⊗ s.current_price) s.initial_capital
    ok (share ⊗ hundred)

  -- `initial_capital * (max_loss_per_trade_pct / 100.0)`
  pub max_loss_dollars : RiskState F → F
  max_loss_dollars s = s.initial_capital ⊗ quot s.max_loss_per_trade_pct hundred

  -- Guard 3, and the verdict when no guard blocks.
  pub check_loss : RiskState F → F → F → F → Raises (RiskCheckResult F)
  check_loss s requested_qty drawdown exposure =
      if lt (max_loss_dollars s) (requested_qty ⊗ s.current_price)
      then (do
        suggested ← divide (max_loss_dollars s) s.current_price
        ok (record {
          allowed = false;
          reason = per_trade_loss_limit (requested_qty ⊗ s.current_price) (max_loss_dollars s);
          suggested_quantity = round suggested 4;
          current_drawdown_pct = drawdown;
          current_exposure_pct = exposure;
        }))
      else ok (record {
        allowed = true;
        reason = all_passed;
        suggested_quantity = requested_qty;
        current_drawdown_pct = drawdown;
        current_exposure_pct = exposure;
      })

  abbrev pub blocked : Reason F → F → F → RiskCheckResult F
  blocked why drawdown exposure = record {
    allowed = false;
    reason = why;
    suggested_quantity = nought;
    current_drawdown_pct = drawdown;
    current_exposure_pct = exposure;
  }

  -- Guards 1 and 2 on the computed percentages, then guard 3.
  pub check_limits : RiskState F → F → F → F → F → Raises (RiskCheckResult F)
  check_limits s requested_qty drawdown exposure proposed =
      if le s.max_drawdown_pct drawdown
      then ok (blocked (max_drawdown_guard drawdown s.max_drawdown_pct) drawdown exposure)
      else if lt s.max_position_pct proposed
      then ok (blocked (position_limit proposed s.max_position_pct) drawdown exposure)
      else check_loss s requested_qty drawdown exposure

  pub check_trade : RiskState F → F → Raises (RiskCheckResult F)
  check_trade s requested_qty = do
    let drawdown = drawdown_pct s
    exposure ← exposure_pct s s.position_size
    proposed ← exposure_pct s (s.position_size ⊕ requested_qty)
    check_limits s requested_qty drawdown exposure proposed

  -- The default `fraction` is 0.25.
  pub kelly_size : F → F → F → F → F → F → Raises F
  kelly_size win_rate avg_win avg_loss capital current_price fraction =
      if eq avg_loss nought then ok nought else if eq current_price nought then ok nought else (do
        let odds = quot avg_win avg_loss
        edge ← divide (decimal 1 0 ⊖ win_rate) odds
        let kelly_fraction = win_rate ⊖ edge
        let safe_fraction = larger nought (smaller (kelly_fraction ⊗ fraction) (decimal 20 2))
        ok (round (quot (capital ⊗ safe_fraction) current_price) 4))

  -- The default `risk_pct` is 2.0.
  pub fixed_fractional_size : F → F → F → F
  fixed_fractional_size capital current_price risk_pct =
      if eq current_price nought
      then nought
      else round (quot (quot (capital ⊗ risk_pct) hundred) current_price) 4
