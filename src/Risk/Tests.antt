-- ===== src/Risk/Tests.antt =====
-- The risk engine on concrete numbers.
use mach.Prelude.{◌≡◌, refl, ◌↔◌, true, false, ok, raised, zero_division_error}
use mach.Prelude.Int.{◌+ℤ◌, ◌-ℤ◌}
use mach.Float.{nought, ◌⊗◌}
use mach.Float.Fixed.{Fixed, fixed_float}
use mach.Float.Fixed.Lawful.{Fixed-IsOrdered, Fixed-IsMonotone}
use mach.Risk.{
  all_passed, per_trade_loss_limit, RiskState, RiskCheckResult, check_trade, check_limits,
  check_loss, exposure_pct, drawdown_pct, max_loss_dollars, kelly_size,
}
use mach.Risk.Gate.{Admits, Admits-iff, WithinLimits, Admits-smaller}
use mach.Risk.Sizing.{kelly_size_bounds}
open fixed_float use {decimal as num, quot, round, lt}

abbrev calm : RiskState Fixed
calm = record {
  current_capital = num 9900 0;
  initial_capital = num 10_000 0;
  position_size = num 1 0;
  entry_price = num 100 0;
  current_price = num 100 0;
  max_drawdown_pct = num 10 0;
  max_position_pct = num 20 0;
  max_loss_per_trade_pct = num 2 0;
}

-- A trade worth 150 passes, one worth 300 is answered by the quantity that 200 buys.
gate_runs :
    (check_trade calm (num 15 1)
      ≡ ok (record {
        allowed = true;
        reason = all_passed;
        suggested_quantity = num 15 1;
        current_drawdown_pct = num 1 0;
        current_exposure_pct = num 1 0;
      }))
    × (check_trade calm (num 3 0)
        ≡ ok (record {
          allowed = false;
          reason = per_trade_loss_limit (num 300 0) (num 200 0);
          suggested_quantity = num 2 0;
          current_drawdown_pct = num 1 0;
          current_exposure_pct = num 1 0;
        }))
unfolding check_trade check_limits check_loss exposure_pct drawdown_pct max_loss_dollars ◌+ℤ◌ ◌-ℤ◌
gate_runs = (refl, refl)

-- The guard against a zero divisor looks at the average loss alone.
kelly_runs :
    (kelly_size (num 55 2) (num 100 0) (num 50 0) (num 10_000 0) (num 100 0) (num 25 2)
      ≡ ok (num 81_250 4))
    × (kelly_size (num 55 2) (num 0 0) (num 50 0) (num 10_000 0) (num 100 0) (num 25 2)
        ≡ raised zero_division_error)
unfolding kelly_size ◌-ℤ◌
kelly_runs = (refl, refl)

Admits-iff_example : Admits calm (num 15 1) ↔ WithinLimits calm (num 15 1)
Admits-iff_example = Admits-iff calm (num 15 1) refl

calm_within : WithinLimits calm (num 15 1)
unfolding drawdown_pct max_loss_dollars ◌+ℤ◌ ◌-ℤ◌
calm_within = record { drawdown = refl; exposure = refl; loss = refl }

Admits-smaller_example : Admits calm (num 1 0)
unfolding ◌+ℤ◌
Admits-smaller_example =
    Admits-smaller Fixed-IsOrdered Fixed-IsMonotone calm (num 1 0) (num 15 1) refl refl refl refl
      refl refl ((Admits-iff calm (num 15 1) refl).1 calm_within)

abbrev allowed_trade : RiskCheckResult Fixed
allowed_trade = record {
  allowed = true;
  reason = all_passed;
  suggested_quantity = num 15 1;
  current_drawdown_pct = num 1 0;
  current_exposure_pct = num 1 0;
}

kelly_size_bounds_example :
    (lt (num 81_250 4) nought ≡ false)
    × (lt (round (quot (num 10_000 0 ⊗ num 20 2) (num 100 0)) 4) (num 81_250 4) ≡ false)
kelly_size_bounds_example =
    kelly_size_bounds Fixed-IsOrdered Fixed-IsMonotone (num 55 2) (num 100 0) (num 50 0)
      (num 10_000 0) (num 100 0) (num 25 2) refl refl kelly_runs.0
