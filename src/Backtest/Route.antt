-- ===== src/Backtest/Route.antt =====
-- apps/api/routes/backtest.py: `run_backtest`. The candles that the database gives, the instrument
-- that it knows, numpy and the random walk of the demonstration are parameters. Of the record that
-- is saved, the times are left out.
pub mod Loop
pub mod Outcome
pub mod Alternation
mod Tests
use mach.Prelude.{
  ℕ, Bool, true, false, ◌&&◌, List, [], ◌∷◌, ◌++◌, Option, none, some, Raises, ok, raised,
  key_error, index_error, ◌>>=◌, if◌then◌else◌,
}
use mach.Text.{Text, codes}
use mach.Float.{Float, ◌⊕◌, ◌⊖◌, nought}
use mach.Api.{Response, answer, http_error, answer_of}
use mach.Backtest.{
  Engine, Trade, Numpy, Metrics, init, execute_market_order, update_portfolio,
  calculate_performance_metrics,
}

-- The columns of a candle that the loop reads.
pub record Candle {ℓ} (F : Type ℓ) : Type ℓ where
  pub timestamp : ℕ
  pub opening : F
  pub close : F

-- A row of `BacktestRunRecord`.
pub record RunRecord {ℓ} (F : Type ℓ) : Type ℓ where
  pub symbol : Text
  pub initial_capital : F
  pub final_capital : F
  pub total_trades : ℕ
  pub win_rate : F
  pub sharpe_ratio : F
  pub max_drawdown : F
  pub profit_factor : F
  pub trades : List (Trade F)

-- `xs[-1]`, which raises on an empty list.
abbrev pub indexed {ℓ} : {A : Type ℓ} → Option A → Raises A
indexed none = raised index_error
indexed (some a) = ok a

module _ {ℓ} {F : Type ℓ} ⦃fl : Float F⦄ where
  open fl use {lt, eq, decimal}

  -- The quantity of every order, 0.1.
  abbrev pub lot : F
  lot = decimal 1 1

  -- The walk that stands in for an empty database, from the price so far and the random moves.
  pub synthetic : ℕ → F → List F → List (Candle F)
  synthetic now price [] = []
  synthetic now price (move ∷ moves) =
      let price' = price ⊕ move in
      record { timestamp = now; opening = price' ⊖ decimal 2 0; close = price' }
      ∷ synthetic now price' moves

  abbrev pub rises : Candle F → Bool
  rises c = lt c.opening c.close

  abbrev pub falls : Candle F → Bool
  falls c = lt c.close c.opening

  -- The order for a candle, if any.
  pub trade_candle : Engine F → Candle F → Engine F
  trade_candle e c =
      if rises c && eq e.position nought
      then (execute_market_order e (codes "buy") lot c.close c.timestamp).0
      else if falls c && lt nought e.position
      then (execute_market_order e (codes "sell") lot c.close c.timestamp).0
      else e

  -- One round of the loop.
  pub step_candle : Engine F → Candle F → Option (Engine F)
  unfolding trade_candle
  step_candle e c = elim (update_portfolio (trade_candle e c) c.close) [
    | none ↦ none
    | some out ↦ some out.0
  ]

  pub run_candles : Engine F → List (Candle F) → Option (Engine F)
  run_candles e [] = some e
  run_candles e (c ∷ cs) = elim (step_candle e c) [ none ↦ none | some e' ↦ run_candles e' cs ]

  abbrev pub row_of : Text → Engine F → Metrics F → F → RunRecord F
  row_of symbol e m final = record {
    symbol = symbol;
    initial_capital = e.initial_capital;
    final_capital = final;
    total_trades = m.total_trades;
    win_rate = m.win_rate;
    sharpe_ratio = m.sharpe_ratio;
    max_drawdown = m.max_drawdown;
    profit_factor = m.profit_factor;
    trades = e.trades;
  }

  -- `metrics["final_capital"]` and the record that is added to the session.
  pub record_of : Text → Engine F → Metrics F → Raises (RunRecord F)
  record_of symbol e m = elim m.final_capital [
    | none ↦ raised key_error
    | some final ↦ ok (row_of symbol e m final)
  ]

  -- The loop, the metrics and the record.
  pub backtest_record : Numpy F → Text → F → F → List (Candle F) → Raises (Metrics F × RunRecord F)
  unfolding record_of run_candles
  backtest_record np symbol capital slippage candles = do
    e ← indexed (run_candles (init capital slippage) candles)
    m ← indexed (calculate_performance_metrics np e)
    row ← record_of symbol e m
    ok (m, row)

  -- The candles of the loop: the database's, or the walk.
  abbrev pub candles_or : ℕ → List F → List (Candle F) → List (Candle F)
  candles_or now moves [] = synthetic now (decimal 65_000 0) moves
  candles_or now moves (c ∷ cs) = c ∷ cs

  -- The table of runs after the request, and its answer. `db_candles` is what the database gives
  -- for the instrument, none where it does not know the instrument.
  pub run_backtest :
      Numpy F
      → ℕ
      → List F
      → Text
      → F
      → F
      → Option (List (Candle F))
      → List (RunRecord F)
      → List (RunRecord F) × Response (Metrics F)
  unfolding backtest_record
  run_backtest np now moves symbol capital slippage none table = (table, http_error 404)
  run_backtest np now moves symbol capital slippage (some db_candles) table =
      elim (backtest_record np symbol capital slippage (candles_or now moves db_candles)) [
        | raised x ↦ (table, answer_of (raised x))
        | ok out ↦ (table ++ out.1 ∷ [], answer out.0)
      ]
