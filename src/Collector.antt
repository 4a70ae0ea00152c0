-- ===== src/Collector.antt =====
-- apps/collectors/delta_runner.py: the buffers of `DeltaCollectorRunner`. The database is the rows
-- committed to it, of each kind; the events whose snapshots Redis took are a log. The environment
-- chooses the steps of both tasks, what Redis takes and which transactions commit.
pub mod Flush
pub mod Bounds
mod Tests
use mach.Prelude.{
  ℕ, ◌+◌, ◌≡◌, Bool, true, false, ◌||◌, ◌&&◌, List, [], ◌∷◌, ◌++◌, Option, none, some, length, leb,
  ◌==◌, if◌then◌else◌,
}
use mach.Text.{Text, codes, eq_text}
use mach.Buffering.{
  Batch, Buffering, Action, receive, redis_fails, written, periodic_flush, flushed, stream_ends,
  begin_write, shut_down, end_write, end_flush, wake, end_stream, is_idle,
}
use mach.Events.{
  Event, tick, trade, candle, orderbook, funding, mark_spot, TickEvent, TradeEvent, CandleEvent,
  OrderbookEvent, FundingEvent,
}

-- A row is the event's fields with the instrument's id; the provider is always "delta".
pub record Row {ℓ} (E : Type ℓ) : Type ℓ where
  pub instrument_id : ℕ
  pub event : E

-- Rows of every kind: the write buffers, and the tables.
pub record Rows {ℓ} (F : Type ℓ) : Type ℓ where
  pub ticks : List (Row (TickEvent F))
  pub trades : List (Row (TradeEvent F))
  pub candles : List (Row (CandleEvent F))
  pub orderbooks : List (Row (OrderbookEvent F))
  pub fundings : List (Row (FundingEvent F))

pub record Collector {ℓ} (F : Type ℓ) : Type ℓ where
  pub instrument_map : List (Text × ℕ)
  pub db_batch_size : ℕ
  pub rows : Buffering (Rows F)
  pub snapshots : List (Event F)

module _ {ℓ} {A : Type ℓ} where
  unfoldable pub is_empty : List A → Bool
  is_empty [] = true
  is_empty (x ∷ xs) = false

  abbrev row : ℕ → A → List (Row A)
  row id e = record { instrument_id = id; event = e } ∷ []

-- `instrument_map.get(canonical)`
unfoldable pub lookup_id : Text → List (Text × ℕ) → Option ℕ
lookup_id k [] = none
lookup_id k ((j, v) ∷ m) = if eq_text j k then some v else lookup_id k m

module _ {ℓ} {F : Type ℓ} where
  abbrev pub no_rows : Rows F
  no_rows = record { ticks = []; trades = []; candles = []; orderbooks = []; fundings = [] }

  abbrev pub add_rows : Rows F → Rows F → Rows F
  add_rows a b = record {
    ticks = a.ticks ++ b.ticks;
    trades = a.trades ++ b.trades;
    candles = a.candles ++ b.candles;
    orderbooks = a.orderbooks ++ b.orderbooks;
    fundings = a.fundings ++ b.fundings;
  }

  abbrev pub nothing_buffered : Rows F → Bool
  nothing_buffered b =
      is_empty b.ticks
      && is_empty b.trades
      && is_empty b.candles
      && is_empty b.orderbooks
      && is_empty b.fundings

  instance abbrev pub rows_batch : Batch (Rows F)
  rows_batch = record {
    no_rows = no_rows;
    add_rows = add_rows;
    nothing_buffered = nothing_buffered;
  }

  abbrev pub canonical_of : Event F → Text
  canonical_of (tick e) = e.canonical_symbol
  canonical_of (trade e) = e.canonical_symbol
  canonical_of (candle e) = e.canonical_symbol
  canonical_of (orderbook e) = e.canonical_symbol
  canonical_of (funding e) = e.canonical_symbol
  canonical_of (mark_spot e) = e.canonical_symbol

  -- The row of an event, for the buffer of its kind.
  abbrev pub row_of : ℕ → Event F → Rows F
  row_of id (tick e) = record no_rows { ticks = row id e }
  row_of id (trade e) = record no_rows { trades = row id e }
  row_of id (candle e) = record no_rows { candles = row id e }
  row_of id (orderbook e) = record no_rows { orderbooks = row id e }
  row_of id (funding e) = record no_rows { fundings = row id e }
  row_of id (mark_spot e) = no_rows

  -- `if inst_id`: no row for an unknown instrument, nor for the id zero
  abbrev pub rows_of : Option ℕ → Event F → Rows F
  rows_of none e = no_rows
  rows_of (some id) e = if id == 0 then no_rows else row_of id e

  -- Every event updates the snapshot, but for a mark and spot price of which both are missing.
  abbrev pub snapshot_of : Event F → List (Event F)
  snapshot_of (mark_spot e) = elim e.mark_price [
    | some m ↦ mark_spot e ∷ []
    | none ↦ elim e.spot_price [ some s ↦ mark_spot e ∷ [] | none ↦ [] ]
  ]
  snapshot_of e = e ∷ []

  -- A buffer of ticks, trades or candles has reached the batch size. The others do not count.
  abbrev pub is_full : ℕ → Rows F → Bool
  is_full size b =
      leb size (length b.ticks) || leb size (length b.trades) || leb size (length b.candles)

  -- Once Redis has the snapshot of the event.
  unfoldable pub buffer_event : Event F → Collector F → Collector F
  unfolding lookup_id
  buffer_event e c = record c {
    snapshots = c.snapshots ++ snapshot_of e;
    rows = record c.rows {
      buffers = add_rows c.rows.buffers (rows_of (lookup_id (canonical_of e) c.instrument_map) e);
    };
  }

  -- `_process_event`, up to the commit of the flush that it may begin.
  unfoldable pub process_event : Event F → Collector F → Collector F
  unfolding buffer_event begin_write
  process_event e c =
      let c' = buffer_event e c in
      if is_full c.db_batch_size c'.rows.buffers
      then record c' { rows = begin_write c'.rows }
      else c'

  -- The stream's task takes an event: while the stream goes on and no commit is waited for.
  abbrev pub is_ready : Collector F → Bool
  is_ready c = c.rows.streaming && is_idle c.rows.writing

  -- One step. Where Redis fails, the exception ends the stream before the row is buffered; an event
  -- with no snapshot does not call it.
  unfoldable pub act : Action (Event F) → Collector F → Collector F
  unfolding process_event shut_down end_write end_flush wake end_stream
  act (receive e) c = if is_ready c then process_event e c else c
  act (redis_fails f e) c =
      if is_ready c
      then (if is_empty (snapshot_of e)
          then process_event e c
          else record c { rows = shut_down true f c.rows })
      else c
  act (written ok f) c = record c { rows = end_write ok f c.rows }
  act periodic_flush c = record c { rows = wake c.rows }
  act (flushed ok) c = record c { rows = end_flush ok c.rows }
  act (stream_ends w f) c = record c { rows = end_stream w f c.rows }

  unfoldable pub run : List (Action (Event F)) → Collector F → Collector F
  unfolding act
  run [] c = c
  run (a ∷ acts) c = run acts (act a c)
