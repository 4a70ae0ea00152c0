-- ===== src/Backtest/Tests.antt =====
-- The backtest engine on concrete numbers.
use mach.Prelude.{◌+◌, ◌≡◌, refl, false, List, [], ◌∷◌, length, All}
use mach.Prelude.Int.{◌+ℤ◌, ◌-ℤ◌}
use mach.Text.{Text, codes, lower, eq_text}
use mach.Float.{nought}
use mach.Float.Fixed.{Fixed, fixed_float}
use mach.Float.Fixed.Lawful.{Fixed-IsOrdered}
use mach.Backtest.{
  Trade, Engine, Tally, Numpy, init, execute_market_order, fill_price, tally_pairs, tally_pair,
  pair_pnl, fall, max_drawdown_from,
}
use mach.Backtest.Ledger.{Run, start, next, order, IsLedger, Run-IsLedger}
use mach.Backtest.Performance.{falls, max_drawdown_from_bounds}
use mach.Backtest.Simulator.{
  Simulator, intercept_place_order, Numbered, Answers, intercept_place_order_lem,
}
open fixed_float use {decimal as num, lt, neg}

abbrev fresh : Engine Fixed
fresh = record {
  initial_capital = num 10_000 0;
  slippage_pct = num 5 4;
  cash = num 10_000 0;
  position = nought;
  entry_price = nought;
  equity_curve = num 10_000 0 ∷ [];
  returns = [];
  trades = [];
}

fresh_runs : init (num 10_000 0) (num 5 2) ≡ fresh
unfolding init
fresh_runs = refl

abbrev bought : Engine Fixed
bought = (execute_market_order fresh (codes "BUY") (num 2 0) (num 100 0) 7).0

-- Two at 100.05, whatever the case of the side.
bought_runs : (bought.cash ≡ num 97_999 1) × (bought.position ≡ num 2 0)
unfolding execute_market_order fill_price eq_text lower ◌+ℤ◌ ◌-ℤ◌
bought_runs = (refl, refl)

-- numpy's functions, as far as a test needs them.
abbrev flat : Numpy Fixed
flat = record { mean = λ xs. nought; std = λ xs. nought; sqrt = λ x. x }

buys :
    Run
      (init (num 10_000 0) (num 5 2))
      (execute_market_order (init (num 10_000 0) (num 5 2)) (codes "BUY") (num 2 0) (num 100 0) 7).0
buys = next start (order (init (num 10_000 0) (num 5 2)) (codes "BUY") (num 2 0) (num 100 0) 7)

Run-IsLedger_example :
    IsLedger
      (execute_market_order (init (num 10_000 0) (num 5 2)) (codes "BUY") (num 2 0) (num 100 0) 7).0
Run-IsLedger_example = Run-IsLedger (num 10_000 0) (num 5 2) buys

abbrev trade_at : Text → Fixed → Trade Fixed
trade_at side price = record {
  timestamp = 0;
  side = side;
  quantity = num 1 0;
  price = price;
  value = price;
}

-- A won long pair, a lost short pair, and a trade that is not closed.
abbrev log : List (Trade Fixed)
log =
    trade_at (codes "buy") (num 100 0)
    ∷ trade_at (codes "sell") (num 110 0)
    ∷ trade_at (codes "sell") (num 100 0)
    ∷ trade_at (codes "buy") (num 104 0)
    ∷ trade_at (codes "buy") (num 90 0)
    ∷ []

abbrev zero_tally : Tally Fixed
zero_tally = record { wins = 0; gross_profit = nought; gross_loss = nought }

log_runs :
    tally_pairs zero_tally log ≡ record { wins = 1; gross_profit = num 10 0; gross_loss = num 4 0 }
unfolding tally_pairs tally_pair pair_pnl eq_text ◌+ℤ◌ ◌-ℤ◌
log_runs = refl

abbrev curve : List Fixed
curve = num 100 0 ∷ num 120 0 ∷ num 90 0 ∷ num 130 0 ∷ num 117 0 ∷ []

max_drawdown_runs : max_drawdown_from (num 100 0) nought curve ≡ num 25 2
unfolding max_drawdown_from fall ◌-ℤ◌
max_drawdown_runs = refl

max_drawdown_from_bounds_example :
    (lt (max_drawdown_from (num 100 0) nought curve) nought ≡ false)
    × All (λ d. lt (max_drawdown_from (num 100 0) nought curve) d ≡ false) (falls (num 100 0) curve)
unfolding fall ◌-ℤ◌
max_drawdown_from_bounds_example =
    max_drawdown_from_bounds Fixed-IsOrdered (num 100 0) nought curve refl
      (refl, (refl, (refl, (refl, (refl, tt)))))

abbrev simulator : Simulator Fixed
simulator = record { engine = fresh; orders = [] }

intercept_place_order_lem_example :
    let out =
      intercept_place_order simulator (codes "BTCUSD") (codes "buy") (num 5 1) (num 100 0) 9 in
    let (e', t) = execute_market_order fresh (codes "buy") (num 5 1) (num 100 0) 9 in
    (length out.0.engine.trades ≡ length fresh.trades + 1)
    × (out.0.engine ≡ e')
    × Numbered 0 out.0.orders
    × Answers simulator t out
intercept_place_order_lem_example =
    intercept_place_order_lem simulator (codes "BTCUSD") (codes "buy") (num 5 1) (num 100 0) 9 tt
