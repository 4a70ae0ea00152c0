-- ===== src/MultiAsset/Tests.antt =====
-- apps/collectors/multi_asset_runner.py on concrete ticks.
use mach.Prelude.{ℕ, ◌+◌, ◌≤◌, ◌≡◌, refl, Bool, true, List, [], ◌∷◌, none, some, length}
use mach.Text.{codes, eq_text}
use mach.Float.Fixed.{Fixed, fixed_float}
use mach.Events.{Event, tick, TickEvent}
use mach.Buffering.{
  Action, receive, redis_fails, written, periodic_flush, flushed, begin_write, begin_flush,
  shut_down, end_write, end_flush, wake,
}
use mach.Buffering.Accounts.{Commits}
use mach.Collector.{Row, lookup_id, is_empty}
use mach.MultiAsset.{MultiAssetRunner, run_actions, act_once, process_tick, buffer_tick, flush_full}
use mach.MultiAsset.Ticks.{held, due, run_actions-Accounts}
open fixed_float use {decimal as num}

abbrev runner : MultiAssetRunner Fixed
runner = record {
  instrument_map = (codes "FX:EUR/USD", 3) ∷ [];
  db_batch_size = 2;
  rows = record { buffers = []; database = []; streaming = true; writing = none; flushing = none };
  snapshots = [];
}

abbrev euro : ℕ → Event Fixed
euro time = tick (record {
  canonical_symbol = codes "FX:EUR/USD";
  provider = codes "ctrader";
  timestamp = time;
  ingested_at = time;
  bid = some (num 109 2);
  ask = some (num 110 2);
  mid = none;
  last = none;
  bid_size = none;
  ask_size = none;
  source_timestamp = none;
})

-- Two ticks fill the batch while the loop's transaction is open; the stream ends with a tick that
-- Redis refuses.
abbrev ticks : List (Action (Event Fixed))
ticks =
    receive (euro 1)
    ∷ periodic_flush
    ∷ receive (euro 2)
    ∷ receive (euro 3)
    ∷ written true true
    ∷ flushed true
    ∷ redis_fails true (euro 4)
    ∷ []

ticks_run :
    (length (run_actions ticks runner).rows.database ≡ 3)
    × (length (run_actions ticks runner).snapshots ≡ 3)
unfolding run_actions act_once process_tick buffer_tick flush_full begin_write begin_flush shut_down
    end_write end_flush wake lookup_id eq_text is_empty
ticks_run = (refl, refl)

abbrev any_row : Row (TickEvent Fixed) → Bool
any_row r = true

run_actions-Accounts_example :
    let r = run_actions ticks runner in
    (held any_row r + due any_row runner ≤ held any_row runner + due any_row r)
    × (Commits ticks → held any_row r + due any_row runner ≡ held any_row runner + due any_row r)
run_actions-Accounts_example = run_actions-Accounts any_row ticks runner
