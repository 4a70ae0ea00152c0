-- ===== src/Backtest/Route/Tests.antt =====
-- The backtest route on concrete candles.
use mach.Prelude.{◌≡◌, refl, List, [], ◌∷◌, some}
use mach.Prelude.Int.{◌+ℤ◌, ◌-ℤ◌}
use mach.Text.{codes}
use mach.Float.{nought}
use mach.Float.Fixed.{Fixed, fixed_float}
use mach.Backtest.{Engine, Numpy, init}
use mach.Backtest.Route.{Candle, run_backtest, run_candles}
use mach.Backtest.Route.Outcome.{Outcome, run_backtest-Outcome}
use mach.Backtest.Route.Alternation.{IsPaired, IsLot, run_candles-IsPaired}
open fixed_float use {decimal as num}

abbrev flat : Numpy Fixed
flat = record { mean = λ xs. nought; std = λ xs. nought; sqrt = λ x. x }

abbrev candle_at : Fixed → Fixed → Candle Fixed
candle_at opening close = record { timestamp = 0; opening = opening; close = close }

-- Up, up again, down.
abbrev candles : List (Candle Fixed)
candles =
    candle_at (num 100 0) (num 101 0)
    ∷ candle_at (num 101 0) (num 103 0)
    ∷ candle_at (num 103 0) (num 102 0)
    ∷ []

run_backtest-Outcome_example :
    Outcome candles []
      (run_backtest flat 0 [] (codes "BTCUSD") (num 10_000 0) (num 5 2) (some candles) [])
run_backtest-Outcome_example =
    run_backtest-Outcome flat (num 10_000 0) (num 5 2) 0 [] (codes "BTCUSD") candles [] refl refl

Fixed-IsLot : IsLot Fixed
unfolding ◌+ℤ◌ ◌-ℤ◌
Fixed-IsLot = record { buy_one = refl; sell_one = refl; not_below = refl; lot_open = refl }

run_candles-IsPaired_example :
    (final : Engine Fixed) × (run_candles (init (num 10_000 0) (num 5 2)) candles ≡ some final)
    × IsPaired final
run_candles-IsPaired_example =
    run_candles-IsPaired Fixed-IsLot flat (num 10_000 0) (num 5 2) candles
