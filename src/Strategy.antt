-- ===== src/Strategy.antt =====
-- swaram/agents/strategy.py: the two rule-based strategies. A reason is its template with the
-- numbers that the code formats into it. Strategies are those of `STRATEGY_REGISTRY`. The fields
-- of a context that no strategy reads (symbol, macd, macd_signal, ema_9) are left out.
pub mod Decisions
pub mod Runner
pub mod Registry
mod Tests
use mach.Prelude.{
  Bool, true, false, ◌&&◌, not, Option, none, some, Raises, ok, ◌>>=◌, if◌then◌else◌,
}
use mach.Text.{Text, codes, eq_text}
use mach.Float.{Float, ◌⊗◌, nought, divide}

-- `TradeSignal`; `hold` is "none".
pub data TradeSignal : Type 0 where
  hold buy sell close : TradeSignal

pub record StrategyContext {ℓ} (F : Type ℓ) : Type ℓ where
  pub last_price : F
  pub rsi : Option F
  pub ema_21 : Option F
  pub vwap : Option F
  pub bollinger_upper : Option F
  pub bollinger_lower : Option F
  pub current_position : F
  pub current_capital : F

pub data Rationale {ℓ} (F : Type ℓ) : Type ℓ where
  insufficient_indicators no_signal : Rationale F
  -- The RSI, its threshold, the price and the VWAP.
  oversold : F → F → F → F → Rationale F
  overbought : F → F → Rationale F
  touched_lower : F → F → Rationale F
  recovered : F → F → Rationale F

pub record Decision {ℓ} (F : Type ℓ) : Type ℓ where
  pub signal : TradeSignal
  pub quantity : F
  pub reason : Rationale F

pub data Strategy {ℓ} (F : Type ℓ) : Type ℓ where
  -- The thresholds to buy and to sell.
  momentum : F → F → Strategy F
  mean_reversion : Strategy F

module _ {ℓ} {F : Type ℓ} ⦃fl : Float F⦄ where
  open fl use {lt, le, eq, round, decimal}

  abbrev pub decision : TradeSignal → F → Rationale F → Decision F
  decision s q r = record { signal = s; quantity = q; reason = r }

  -- 2% of the capital, at the price, which may be zero.
  pub entry_quantity : StrategyContext F → Raises F
  entry_quantity ctx = do
    qty ← divide (ctx.current_capital ⊗ decimal 2 2) ctx.last_price
    ok (round qty 4)

  abbrev pub has_position : StrategyContext F → Bool
  has_position ctx = lt nought ctx.current_position

  -- `MomentumStrategy.decide`, given its indicators and the quantity of an entry.
  pub decide_momentum : F → F → StrategyContext F → F → F → F → Decision F
  decide_momentum buy_below sell_above ctx rsi vwap qty =
      if not (has_position ctx) && (lt rsi buy_below && lt vwap ctx.last_price)
      then decision buy qty (oversold rsi buy_below ctx.last_price vwap)
      else if has_position ctx && lt sell_above rsi
      then decision sell ctx.current_position (overbought rsi sell_above)
      else decision hold nought no_signal

  -- A number that is there and is not zero.
  abbrev pub truthy : Option F → Bool
  truthy none = false
  truthy (some x) = not (eq x nought)

  -- `ctx.vwap or ctx.ema_21`
  abbrev pub middle : StrategyContext F → Option F
  middle ctx = if truthy ctx.vwap then ctx.vwap else ctx.ema_21

  -- The exit: a middle that is not zero, and the price at it or above it.
  pub exit_reversion : StrategyContext F → Option F → Decision F
  exit_reversion ctx none = decision hold nought no_signal
  exit_reversion ctx (some mid) =
      if has_position ctx && (not (eq mid nought) && le mid ctx.last_price)
      then decision sell ctx.current_position (recovered ctx.last_price mid)
      else decision hold nought no_signal

  -- `MeanReversionStrategy.decide`, given the lower band and the quantity of an entry.
  pub decide_reversion : StrategyContext F → F → F → Decision F
  unfolding exit_reversion
  decide_reversion ctx lower qty =
      if not (has_position ctx) && le ctx.last_price lower
      then decision buy qty (touched_lower ctx.last_price lower)
      else exit_reversion ctx (middle ctx)

  abbrev pub insufficient : Decision F
  insufficient = decision hold nought insufficient_indicators

  -- `MomentumStrategy.decide`, given its two indicators.
  pub decide_if_indicated : F → F → StrategyContext F → Option F → Option F → Raises (Decision F)
  unfolding decide_momentum entry_quantity
  decide_if_indicated b s ctx none vwap = ok insufficient
  decide_if_indicated b s ctx (some rsi) none = ok insufficient
  decide_if_indicated b s ctx (some rsi) (some vwap) = do
    qty ← entry_quantity ctx
    ok (decide_momentum b s ctx rsi vwap qty)

  -- `MeanReversionStrategy.decide`, given the two bands.
  pub decide_if_banded : StrategyContext F → Option F → Option F → Raises (Decision F)
  unfolding decide_reversion entry_quantity
  decide_if_banded ctx none upper = ok insufficient
  decide_if_banded ctx (some lower) none = ok insufficient
  decide_if_banded ctx (some lower) (some upper) = do
    qty ← entry_quantity ctx
    ok (decide_reversion ctx lower qty)

  pub decide : Strategy F → StrategyContext F → Raises (Decision F)
  unfolding decide_if_indicated decide_if_banded
  decide (momentum b s) ctx = decide_if_indicated b s ctx ctx.rsi ctx.vwap
  decide mean_reversion ctx = decide_if_banded ctx ctx.bollinger_lower ctx.bollinger_upper
