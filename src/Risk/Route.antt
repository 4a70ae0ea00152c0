-- ===== src/Risk/Route.antt =====
-- apps/api/routes/risk.py: the routes of the risk engine. Times in an answer are left out.
pub mod Guard
mod Tests
use mach.Prelude.{Bool, true, false, ◌&&◌, Option, none, some, Raises, ok, ◌>>=◌, if◌then◌else◌}
use mach.Text.{Text, codes, eq_text}
use mach.Float.{Float, ◌⊗◌, nought, hundred, divide}
use mach.Api.{Response, answer, answer_of}
use mach.Strategy.Runner.{Snapshot, price_of}
use mach.Risk.{
  RiskState, RiskCheckResult, drawdown_pct, check_trade, kelly_size, fixed_fractional_size,
}

pub data RiskStatus : Type 0 where
  critical warning fine : RiskStatus

pub record RiskStateAnswer {ℓ} (F : Type ℓ) : Type ℓ where
  pub current_capital : F
  pub initial_capital : F
  pub drawdown_pct : F
  pub exposure_pct : F
  pub risk_status : RiskStatus

pub record RiskCheckRequest {ℓ} (F : Type ℓ) : Type ℓ where
  pub requested_quantity : F
  pub current_capital : F
  pub initial_capital : F
  pub position_size : F
  pub entry_price : F
  pub max_drawdown_pct : F
  pub max_position_pct : F
  pub max_loss_per_trade_pct : F

pub record RiskCheckAnswer {ℓ} (F : Type ℓ) : Type ℓ where
  -- `allowed`, which is also the verdict, and the rest of the engine's result.
  pub result : RiskCheckResult F
  pub live_price : F

pub record PositionSizeRequest {ℓ} (F : Type ℓ) : Type ℓ where
  pub method : Text
  pub capital : F
  pub current_price : F
  pub risk_pct : F
  pub win_rate : F
  pub avg_win : F
  pub avg_loss : F

pub record PositionSizeAnswer {ℓ} (F : Type ℓ) : Type ℓ where
  pub recommended_quantity : F
  pub trade_value_usd : F
  pub risk_pct_of_capital : F

module _ {ℓ} {F : Type ℓ} ⦃fl : Float F⦄ where
  open fl use {lt, le, quot, round, decimal}

  -- The module's constants.
  abbrev pub default_max_drawdown_pct : F
  default_max_drawdown_pct = decimal 10 0

  abbrev pub default_max_position_pct : F
  default_max_position_pct = decimal 20 0

  abbrev pub default_max_loss_pct : F
  default_max_loss_pct = decimal 2 0

  abbrev pub state_of : F → F → F → F → RiskState F
  state_of capital initial position price = record {
    current_capital = capital;
    initial_capital = initial;
    position_size = position;
    entry_price = price;
    current_price = price;
    max_drawdown_pct = default_max_drawdown_pct;
    max_position_pct = default_max_position_pct;
    max_loss_per_trade_pct = default_max_loss_pct;
  }

  pub status_of : F → RiskStatus
  status_of drawdown =
      if le default_max_drawdown_pct drawdown
      then critical
      else if le (default_max_drawdown_pct ⊗ decimal 7 1) drawdown
      then warning
      else fine

  -- The guards make the division safe: a positive capital is not zero.
  pub shown_exposure : F → F → F → F
  shown_exposure initial position price =
      if lt nought initial && lt nought price
      then quot (position ⊗ price) initial ⊗ hundred
      else nought

  pub get_risk_state : F → F → F → F → RiskStateAnswer F
  unfolding status_of shown_exposure
  get_risk_state capital initial position price =
      let drawdown = drawdown_pct (state_of capital initial position price) in
      record {
        current_capital = capital;
        initial_capital = initial;
        drawdown_pct = round drawdown 2;
        exposure_pct = round (shown_exposure initial position price) 2;
        risk_status = status_of drawdown;
      }

  -- The live price, or the entry price where there is none.
  abbrev pub price_for : F → F → F
  price_for live entry = if lt nought live then live else entry

  abbrev pub request_state : RiskCheckRequest F → F → RiskState F
  request_state r price = record {
    current_capital = r.current_capital;
    initial_capital = r.initial_capital;
    position_size = r.position_size;
    entry_price = r.entry_price;
    current_price = price;
    max_drawdown_pct = r.max_drawdown_pct;
    max_position_pct = r.max_position_pct;
    max_loss_per_trade_pct = r.max_loss_per_trade_pct;
  }

  -- `snap` is what Redis holds for the symbol.
  pub risk_check : RiskCheckRequest F → Option (Snapshot F) → Response (RiskCheckAnswer F)
  risk_check r snap = answer_of (do
    live ← price_of snap
    let price = price_for live r.entry_price
    result ← check_trade (request_state r price) r.requested_quantity
    ok (record { result = result; live_price = price }))

  -- Every method but "kelly" is the fixed fraction.
  pub size_for : PositionSizeRequest F → Raises F
  size_for r =
      if eq_text r.method (codes "kelly")
      then kelly_size r.win_rate r.avg_win r.avg_loss r.capital r.current_price (decimal 25 2)
      else ok (fixed_fractional_size r.capital r.current_price r.risk_pct)

  pub calculate_position_size : PositionSizeRequest F → Response (PositionSizeAnswer F)
  unfolding size_for
  calculate_position_size r = answer_of (do
    qty ← size_for r
    let trade_value = qty ⊗ r.current_price
    share ← divide trade_value r.capital
    ok (record {
      recommended_quantity = qty;
      trade_value_usd = round trade_value 2;
      risk_pct_of_capital = round (share ⊗ hundred) 2;
    }))
