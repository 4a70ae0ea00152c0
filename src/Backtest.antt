-- ===== src/Backtest.antt =====
-- swaram/backtest/engine.py: `BacktestEngine`, a simulated account. numpy's `mean`, `std` and `sqrt`
-- are parameters, and so is the type of a timestamp, which the engine only stores.
pub mod Ledger
pub mod Performance
pub mod Simulator
pub mod Route
mod Tests
use mach.Prelude.{
  ℕ, zero, suc, ◌+◌, ◌/◌, Bool, true, false, List, [], ◌∷◌, ◌++◌, Option, none, some, ltb, length,
  last?, ◌==◌, if◌then◌else◌,
}
use mach.Text.{Text, codes, lower, eq_text}
use mach.Float.{Float, ◌⊕◌, ◌⊖◌, ◌⊗◌, nought, hundred}

pub record Trade {ℓ} (F : Type ℓ) : Type ℓ where
  pub timestamp : ℕ
  pub side : Text
  pub quantity : F
  pub price : F
  pub value : F

pub record Engine {ℓ} (F : Type ℓ) : Type ℓ where
  pub initial_capital : F
  pub slippage_pct : F
  pub cash : F
  pub position : F
  pub entry_price : F
  pub equity_curve : List F
  pub returns : List F
  pub trades : List (Trade F)

-- The functions of numpy that the metrics call.
pub record Numpy {ℓ} (F : Type ℓ) : Type ℓ where
  pub mean : List F → F
  pub std : List F → F
  pub sqrt : F → F

pub record Metrics {ℓ} (F : Type ℓ) : Type ℓ where
  pub sharpe_ratio : F
  pub max_drawdown : F
  pub profit_factor : F
  pub win_rate : F
  pub total_trades : ℕ
  -- The answer for no trades has no such key.
  pub final_capital : Option F

-- The counters of the loop over closed pairs of trades.
pub record Tally {ℓ} (F : Type ℓ) : Type ℓ where
  pub wins : ℕ
  pub gross_profit : F
  pub gross_loss : F

abbrev pub is_buy : Text → Bool
is_buy side = eq_text side (codes "buy")

module _ {ℓ} {F : Type ℓ} ⦃fl : Float F⦄ where
  open fl use {lt, quot, neg, abs, round, decimal}

  pub init : F → F → Engine F
  init capital slippage = record {
    initial_capital = capital;
    slippage_pct = quot slippage hundred;
    cash = capital;
    position = nought;
    entry_price = nought;
    equity_curve = capital ∷ [];
    returns = [];
    trades = [];
  }

  -- The price of a fill, by the lowered side.
  pub fill_price : Engine F → Text → F → F
  fill_price e side current_price =
      if is_buy side
      then current_price ⊕ current_price ⊗ e.slippage_pct
      else current_price ⊖ current_price ⊗ e.slippage_pct

  pub execute_market_order : Engine F → Text → F → F → ℕ → Engine F × Trade F
  execute_market_order e raw_side qty current_price timestamp =
      let side = lower raw_side in
      let price = fill_price e side current_price in
      let cost = qty ⊗ price in
      let trade : Trade F = record {
        timestamp = timestamp;
        side = side;
        quantity = qty;
        price = price;
        value = cost;
      } in
      (
        record e {
          cash = if is_buy side then e.cash ⊖ cost else e.cash ⊕ cost;
          position = if is_buy side then e.position ⊕ qty else e.position ⊖ qty;
          entry_price = price;
          trades = e.trades ++ trade ∷ [];
        },
        trade,
      )

  pub portfolio_value : Engine F → F → F
  portfolio_value e current_price = e.cash ⊕ e.position ⊗ current_price

  -- The state after a mark, given the last point of the curve.
  pub marked : Engine F → F → F → Engine F
  unfolding portfolio_value
  marked e current_price prev_equity =
      let value = portfolio_value e current_price in
      let ret = if lt nought prev_equity then quot (value ⊖ prev_equity) prev_equity else nought in
      record e { equity_curve = e.equity_curve ++ value ∷ []; returns = e.returns ++ ret ∷ [] }

  -- `none` is the IndexError of `equity_curve[-1]` on an empty curve.
  pub update_portfolio : Engine F → F → Option (Engine F × F)
  update_portfolio e current_price = elim (last? e.equity_curve) [
    | none ↦ none
    | some prev_equity ↦ some (marked e current_price prev_equity, portfolio_value e current_price)
  ]

  -- The profit of a pair, negated for a short entry.
  pub pair_pnl : Trade F → Trade F → F
  pair_pnl entry exit =
      let pnl = (exit.price ⊖ entry.price) ⊗ entry.quantity in
      if eq_text entry.side (codes "sell") then neg pnl else pnl

  -- One round of the loop over pairs.
  pub tally_pair : Tally F → F → Tally F
  tally_pair t pnl =
      if lt nought pnl
      then record t { wins = t.wins + 1; gross_profit = t.gross_profit ⊕ pnl }
      else record t { gross_loss = t.gross_loss ⊕ abs pnl }

  -- `for i in range(1, len(trades), 2)`
  pub tally_pairs : Tally F → List (Trade F) → Tally F
  tally_pairs t [] = t
  tally_pairs t (entry ∷ []) = t
  tally_pairs t (entry ∷ exit ∷ rest) = tally_pairs (tally_pair t (pair_pnl entry exit)) rest

  -- The fall of a value below a peak, as a fraction of it.
  pub fall : F → F → F
  fall peak val = if lt nought peak then quot (peak ⊖ val) peak else nought

  -- The loop over the equity curve, from the peak and the drawdown so far.
  pub max_drawdown_from : F → F → List F → F
  max_drawdown_from peak max_dd [] = max_dd
  max_drawdown_from peak max_dd (val ∷ rest) =
      let peak' = if lt peak val then val else peak in
      let dd = fall peak' val in max_drawdown_from peak' (if lt max_dd dd then dd else max_dd) rest

  pub profit_factor_of : Tally F → F
  profit_factor_of t =
      if lt nought t.gross_loss
      then quot t.gross_profit t.gross_loss
      else if lt nought t.gross_profit
      then t.gross_profit
      else decimal 1 0

  pub win_rate_of : ℕ → ℕ → F
  win_rate_of wins total_trades =
      if ltb total_trades 2
      then nought
      else quot (decimal wins 0) (decimal (total_trades / 2) 0) ⊗ hundred

  pub sharpe_of : Numpy F → List F → F
  sharpe_of np daily_returns =
      let any_returns = ltb 0 (length daily_returns) in
      let mean_ret = if any_returns then np.mean daily_returns else nought in
      let std_ret = if any_returns then np.std daily_returns else nought in
      if lt nought std_ret then quot mean_ret std_ret ⊗ np.sqrt (decimal 252 0) else nought

  pub no_trades : Metrics F
  no_trades = record {
    sharpe_ratio = nought;
    max_drawdown = nought;
    profit_factor = decimal 1 0;
    win_rate = nought;
    total_trades = 0;
    final_capital = none;
  }

  -- The metrics of an engine with trades, given the last point of the curve.
  pub metrics_of : Numpy F → Engine F → F → Metrics F
  metrics_of np e final =
      let t =
        tally_pairs (record { wins = 0; gross_profit = nought; gross_loss = nought }) e.trades in
      record {
        sharpe_ratio = round (sharpe_of np e.returns) 4;
        max_drawdown =
            round (max_drawdown_from e.initial_capital nought e.equity_curve ⊗ hundred) 2;
        profit_factor = round (profit_factor_of t) 2;
        win_rate = round (win_rate_of t.wins (length e.trades)) 2;
        total_trades = length e.trades;
        final_capital = some (round final 2);
      }

  -- `none` is the IndexError of `equity_curve[-1]` on an empty curve.
  pub calculate_performance_metrics : Numpy F → Engine F → Option (Metrics F)
  calculate_performance_metrics np e =
      if length e.trades == 0
      then some no_trades
      else elim (last? e.equity_curve) [ none ↦ none | some final ↦ some (metrics_of np e final) ]
