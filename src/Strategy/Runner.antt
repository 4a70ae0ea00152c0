-- ===== src/Strategy/Runner.antt =====
-- swaram/agents/loop.py: `StrategyRunner`. A cycle reads a snapshot, which Redis gives or not, asks
-- the strategy, and simulates its order. Log lines and the time of a result are left out.
pub mod Account
use mach.Prelude.{
  ℕ, ◌+◌, Bool, true, false, ◌&&◌, List, [], ◌∷◌, ◌++◌, Option, none, some, Raises, ok, ◌>>=◌,
  if◌then◌else◌, take_last,
}
use mach.Text.{Text}
use mach.Float.{Float, ◌⊗◌, ◌⊕◌, ◌⊖◌, nought, larger}
use mach.Strategy.{
  TradeSignal, hold, buy, sell, close, StrategyContext, Decision, Rationale, Strategy, decide,
}

-- The fields of a snapshot that the runner reads. A missing one is `none`. `last` is what `float()`
-- makes of the field: it raises on a text that Redis kept and that is no number. The indicators are
-- numbers; one that Redis keeps as a text is left out.
pub record Snapshot {ℓ} (F : Type ℓ) : Type ℓ where
  pub last : Option (Raises F)
  pub rsi : Option F
  pub ema_21 : Option F
  pub vwap : Option F
  pub bollinger_upper : Option F
  pub bollinger_lower : Option F

pub record CycleResult {ℓ} (F : Type ℓ) : Type ℓ where
  pub cycle : ℕ
  pub last_price : F
  pub signal : TradeSignal
  pub quantity : F
  pub reason : Rationale F
  pub position_after : F
  pub capital_after : F

-- What a cycle answers.
pub data Answer {ℓ} (F : Type ℓ) : Type ℓ where
  no_live_price : ℕ → Answer F
  cycled : CycleResult F → Answer F

pub record StrategyRunner {ℓ} (F : Type ℓ) : Type ℓ where
  pub strategy : Strategy F
  pub capital : F
  pub position : F
  pub cycle_count : ℕ
  pub trade_log : List (CycleResult F)

pub record RunnerStatus {ℓ} (F : Type ℓ) : Type ℓ where
  pub cycle_count : ℕ
  pub position : F
  pub capital : F
  pub last_trades : List (CycleResult F)

module _ {ℓ} {F : Type ℓ} ⦃fl : Float F⦄ where
  open fl use {lt, eq, round}

  unfoldable pub new_runner : Strategy F → F → StrategyRunner F
  new_runner s capital = record {
    strategy = s;
    capital = capital;
    position = nought;
    cycle_count = 0;
    trade_log = [];
  }

  -- `float(snap.get("last", 0.0)) if snap else 0.0`
  abbrev pub price_of : Option (Snapshot F) → Raises F
  price_of none = ok nought
  price_of (some s) = elim s.last [ none ↦ ok nought | some p ↦ p ]

  abbrev pub indicator : (Snapshot F → Option F) → Option (Snapshot F) → Option F
  indicator field none = none
  indicator field (some s) = field s

  abbrev pub context_of : StrategyRunner F → Option (Snapshot F) → F → StrategyContext F
  context_of r snap price = record {
    last_price = price;
    rsi = indicator (λ s. s.rsi) snap;
    ema_21 = indicator (λ s. s.ema_21) snap;
    vwap = indicator (λ s. s.vwap) snap;
    bollinger_upper = indicator (λ s. s.bollinger_upper) snap;
    bollinger_lower = indicator (λ s. s.bollinger_lower) snap;
    current_position = r.position;
    current_capital = r.capital;
  }

  abbrev bought : StrategyRunner F → F → F → StrategyRunner F
  bought r qty price = record r { capital = r.capital ⊖ qty ⊗ price; position = r.position ⊕ qty }

  abbrev sold : StrategyRunner F → F → F → StrategyRunner F
  sold r qty price = record r {
    capital = r.capital ⊕ qty ⊗ price;
    position = larger nought (r.position ⊖ qty);
  }

  -- The simulated execution.
  unfoldable pub execute : StrategyRunner F → F → TradeSignal → F → StrategyRunner F
  execute r price hold qty = r
  execute r price buy qty = if lt nought qty then bought r qty price else r
  execute r price sell qty = if lt nought qty then sold r qty price else r
  execute r price close qty = if lt nought qty then sold r qty price else r

  -- The rest of a cycle, after the decision: `r` has counted it.
  unfoldable pub finish : StrategyRunner F → F → Decision F → StrategyRunner F × Answer F
  unfolding execute
  finish r price d =
      let r' = execute r price d.signal d.quantity in
      let result : CycleResult F = record {
        cycle = r'.cycle_count;
        last_price = price;
        signal = d.signal;
        quantity = d.quantity;
        reason = d.reason;
        position_after = r'.position;
        capital_after = round r'.capital 2;
      } in
      (record r' { trade_log = r'.trade_log ++ result ∷ [] }, cycled result)

  abbrev counted : StrategyRunner F → StrategyRunner F
  counted r = record r { cycle_count = r.cycle_count + 1 }

  unfoldable pub run_once :
      StrategyRunner F → Option (Snapshot F) → Raises (StrategyRunner F × Answer F)
  unfolding finish
  run_once r snap = do
    price ← price_of snap
    if eq price nought
        then ok (r, no_live_price r.cycle_count)
        else (do d ← decide r.strategy (context_of r snap price); ok (finish (counted r) price d))

  -- The amount of capital is rounded.
  unfoldable pub runner_status : StrategyRunner F → RunnerStatus F
  runner_status r = record {
    cycle_count = r.cycle_count;
    position = r.position;
    capital = round r.capital 2;
    last_trades = take_last 5 r.trade_log;
  }

  -- The cycles of `_loop`, one for each snapshot that Redis answers.
  unfoldable pub run_cycles :
      StrategyRunner F → List (Option (Snapshot F)) → Raises (StrategyRunner F)
  run_cycles r [] = ok r
  run_cycles r (snap ∷ snaps) = do next ← run_once r snap; run_cycles next.0 snaps
