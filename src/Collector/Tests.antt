-- ===== src/Collector/Tests.antt =====
-- apps/collectors/delta_runner.py on concrete events.
use mach.Prelude.{ℕ, ◌≡◌, refl, true, false, List, [], ◌∷◌, none, arith}
use mach.Text.{codes, eq_text}
use mach.Float.Fixed.{Fixed, fixed_float}
use mach.Events.{Event, trade, TradeEvent}
use mach.Buffering.{
  Action, receive, redis_fails, written, periodic_flush, flushed, begin_write, begin_flush,
  shut_down, end_write, end_flush, wake,
}
use mach.Collector.{
  Row, Collector, run, act, no_rows, process_event, buffer_event, lookup_id, is_empty,
}
use mach.Collector.Flush.{RowTest}
use mach.Collector.Bounds.{IsBounded, run-IsBounded}
open fixed_float use {decimal as num}

abbrev collector : Collector Fixed
collector = record {
  instrument_map = (codes "CRYPTO:BTC/USD", 7) ∷ [];
  db_batch_size = 2;
  rows = record {
    buffers = no_rows;
    database = no_rows;
    streaming = true;
    writing = none;
    flushing = none;
  };
  snapshots = [];
}

abbrev trade_of : ℕ → Event Fixed
trade_of time = trade (record {
  canonical_symbol = codes "CRYPTO:BTC/USD";
  provider = codes "delta";
  timestamp = time;
  price = num 65_000 0;
  size = num 1 0;
  side = codes "buy";
  trade_id = none;
  ingested_at = time;
})

-- The first trade is flushed by the loop. The next two fill the batch, and their transaction commits
-- before that of the loop, so the first trade is stored last.
abbrev overtaken : List (Action (Event Fixed))
overtaken =
    receive (trade_of 1)
    ∷ periodic_flush
    ∷ receive (trade_of 2)
    ∷ receive (trade_of 3)
    ∷ written true true
    ∷ flushed true
    ∷ []

abbrev times : List (Row (TradeEvent Fixed)) → List ℕ
times [] = []
times (r ∷ rs) = r.event.timestamp ∷ times rs

overtaken_runs : times (run overtaken collector).rows.database.trades ≡ 2 ∷ 3 ∷ 1 ∷ []
unfolding run act process_event buffer_event begin_write begin_flush end_write end_flush wake
    lookup_id eq_text is_empty
overtaken_runs = refl

-- Redis fails at the second trade: the stream ends, and the first trade is written.
abbrev refused : List (Action (Event Fixed))
refused = receive (trade_of 1) ∷ redis_fails true (trade_of 2) ∷ written true true ∷ []

refused_runs :
    (times (run refused collector).rows.database.trades ≡ 1 ∷ [])
    × ((run refused collector).rows.streaming ≡ false)
unfolding run act process_event buffer_event shut_down begin_write end_write lookup_id eq_text
    is_empty
refused_runs = (refl, refl)

abbrev all_trades : RowTest Fixed
all_trades = record {
  ticks = λ r. false;
  trades = λ r. true;
  candles = λ r. false;
  orderbooks = λ r. false;
  fundings = λ r. false;
}

run-IsBounded_example : IsBounded (run overtaken collector)
run-IsBounded_example = run-IsBounded overtaken collector (record {
  batch = omega arith;
  ticks = omega arith;
  trades = omega arith;
  candles = omega arith;
})
