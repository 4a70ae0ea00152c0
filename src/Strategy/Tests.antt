-- ===== src/Strategy/Tests.antt =====
-- The strategies and the runner on concrete numbers.
use mach.Prelude.{◌⊎◌, raised, Exception, ◌≡◌, refl, [], ◌∷◌, List, Option, none, some, ok}
use mach.Float.Fixed.{Fixed, fixed_float}
use mach.Float.Fixed.Lawful.{Fixed-IsOrdered, Fixed-IsMonotone}
use mach.Strategy.{
  Strategy, StrategyContext, momentum, decide, decide_if_indicated, decide_momentum, entry_quantity,
  decision, buy, oversold,
}
use mach.Strategy.Decisions.{Decides, decide-Decides}
use mach.Strategy.Runner.{Snapshot, StrategyRunner, new_runner, run_cycles}
use mach.Strategy.Runner.Account.{IsAccount, FailsAt, run_cycles-new_runner}
open fixed_float use {decimal as num}

abbrev standard : Strategy Fixed
standard = momentum (num 35 0) (num 65 0)

abbrev context : StrategyContext Fixed
context = record {
  last_price = num 100 0;
  rsi = some (num 30 0);
  ema_21 = none;
  vwap = some (num 95 0);
  bollinger_upper = none;
  bollinger_lower = none;
  current_position = num 0 0;
  current_capital = num 10_000 0;
}

buys :
    decide standard context
    ≡ ok (decision buy (num 2 0) (oversold (num 30 0) (num 35 0) (num 100 0) (num 95 0)))
unfolding decide decide_if_indicated decide_momentum entry_quantity
buys = refl

decide-Decides_example : Decides context (decide standard context)
decide-Decides_example = decide-Decides standard context

abbrev snapshot : Fixed → Option (Snapshot Fixed)
snapshot rsi = some (record {
  last = some (ok (num 100 0));
  rsi = some rsi;
  ema_21 = none;
  vwap = some (num 95 0);
  bollinger_upper = none;
  bollinger_lower = none;
})

-- Bought, no price, sold.
abbrev snapshots : List (Option (Snapshot Fixed))
snapshots = snapshot (num 30 0) ∷ none ∷ snapshot (num 70 0) ∷ []

run_cycles-new_runner_example :
    ((r : StrategyRunner Fixed) × (run_cycles (new_runner standard (num 10_000 0)) snapshots ≡ ok r)
      × IsAccount r)
    ⊎ ((x : Exception) × (run_cycles (new_runner standard (num 10_000 0)) snapshots ≡ raised x)
        × FailsAt x snapshots)
run_cycles-new_runner_example =
    run_cycles-new_runner Fixed-IsOrdered Fixed-IsMonotone standard (num 10_000 0) snapshots
