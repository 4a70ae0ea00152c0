-- ===== src/Strategy/Registry/Tests.antt =====
-- The registry of runners on concrete requests.
use mach.Prelude.{◌≡◌, refl, [], ◌∷◌, false, raised, connection_error}
use mach.Float.Fixed.{Fixed, fixed_float}
use mach.Strategy.{Strategy, momentum, mean_reversion}
use mach.Strategy.Runner.{new_runner}
use mach.Text.{Text, codes, eq_text}
use mach.Dict.{lookup, store}
use mach.Api.{answer, http_error}
use mach.Strategy.Registry.{
  Entry, Process, strategy_start, strategy_stop, loop_round, strategy_registry, get_runner,
  start_known, start, set_runner,
}
use mach.Strategy.Registry.Exclusive.{
  Run, nothing, next, start_request, empty_process, IsExclusive, loops_of, Run-IsExclusive,
}
use mach.Strategy.Registry.Requests.{
  rest, asked, strategy_start-strategy_stop, strategy_start-loop_round,
}
open fixed_float use {decimal as num}

abbrev standard : Strategy Fixed
standard = momentum (num 35 0) (num 65 0)

abbrev btc : Text
btc = codes "BTCUSD"

-- One loop is started, and makes its first step.
abbrev one_loop : Process Fixed
one_loop = (strategy_start btc (codes "momentum") (num 1000 0) empty_process).0

one_loop_runs : Run one_loop
one_loop_runs = next nothing (start_request empty_process btc (codes "momentum") (num 1000 0))

Run-IsExclusive_example : IsExclusive one_loop
Run-IsExclusive_example = Run-IsExclusive one_loop_runs

strategy_start-strategy_stop_example :
    let q = (strategy_stop btc one_loop).0 in
    let r = strategy_start btc (codes "mean_reversion") (num 500 0) q in
    (loops_of btc q.live ≡ []) × (r.1 ≡ answer btc) × (loops_of btc r.0.live ≡ q.started ∷ [])
unfolding lookup eq_text strategy_registry
strategy_start-strategy_stop_example =
    strategy_start-strategy_stop btc (codes "mean_reversion") (num 500 0) mean_reversion
      one_loop_runs refl

abbrev first_entry : Entry Fixed
first_entry = record { id = 0; running = false; runner = new_runner standard (num 1000 0) }

-- Redis cannot be reached, and then a start is tried.
abbrev crashed : Process Fixed
crashed = loop_round btc first_entry (raised connection_error) one_loop

abbrev tried : Process Fixed
tried = (strategy_start btc (codes "mean_reversion") (num 5 0) crashed).0

strategy_start-loop_round_example :
    (loops_of btc tried.live ≡ [])
    × (strategy_start btc (codes "momentum") (num 1 0) tried ≡ (tried, http_error 409))
unfolding lookup store eq_text strategy_registry strategy_start get_runner start_known start
    set_runner
strategy_start-loop_round_example =
    strategy_start-loop_round btc (codes "momentum") (num 1 0) (raised connection_error) first_entry
      connection_error one_loop_runs refl refl (asked btc (codes "mean_reversion") (num 5 0) rest)
