-- ===== src/Risk/Route/Tests.antt =====
-- The risk routes on concrete requests.
use mach.Prelude.{◌≡◌, refl, ◌↔◌, none}
use mach.Text.{codes}
use mach.Float.{nought}
use mach.Float.Fixed.{Fixed, fixed_float}
use mach.Risk.Route.{PositionSizeRequest, critical, get_risk_state, risk_check}
use mach.Risk.Route.Guard.{Halts, default_check, get_risk_state-Halts_iff}
open fixed_float use {decimal as num, eq}

-- An account that lost 12%.
get_risk_state-Halts_iff_example :
    ((get_risk_state (num 8800 0) (num 10_000 0) (num 1 0) (num 100 0)).risk_status ≡ critical)
    ↔ Halts
        (risk_check (default_check (num 8800 0) (num 10_000 0) (num 1 0) (num 90 0) (num 1 0)) none)
get_risk_state-Halts_iff_example =
    get_risk_state-Halts_iff (num 8800 0) (num 10_000 0) (num 1 0) (num 100 0) none (num 1 0)
      (num 90 0) nought refl refl

abbrev broke : PositionSizeRequest Fixed
broke = record {
  method = codes "fixed_fractional";
  capital = nought;
  current_price = num 100 0;
  risk_pct = num 2 0;
  win_rate = num 55 2;
  avg_win = num 100 0;
  avg_loss = num 50 0;
}
