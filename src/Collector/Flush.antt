-- ===== src/Collector/Flush.antt =====
-- apps/collectors/delta_runner.py: every row that is due is stored once, whatever the tasks do.
use mach.Prelude.{ℕ, ◌+◌, ◌≤◌, ◌≡◌, Bool, true, List, [], ◌∷◌}
use mach.Text.{Text}
use mach.Events.{Event, TickEvent, TradeEvent, CandleEvent, OrderbookEvent, FundingEvent}
use mach.Buffering.{Buffering}
use mach.Buffering.Accounts.{count, kept}
use mach.Collector.{Row, Rows, Collector, rows_batch, rows_of, canonical_of, lookup_id}

-- A test on the rows of each kind.
pub record RowTest {ℓ} (F : Type ℓ) : Type ℓ where
  pub ticks : Row (TickEvent F) → Bool
  pub trades : Row (TradeEvent F) → Bool
  pub candles : Row (CandleEvent F) → Bool
  pub orderbooks : Row (OrderbookEvent F) → Bool
  pub fundings : Row (FundingEvent F) → Bool

module _ {ℓ} {F : Type ℓ} where
  -- How many rows pass.
  abbrev pub count_rows : RowTest F → Rows F → ℕ
  count_rows p r =
      count p.ticks r.ticks
      + count p.trades r.trades
      + count p.candles r.candles
      + count p.orderbooks r.orderbooks
      + count p.fundings r.fundings

  -- How many pass of the rows that are due for these events, by the instruments that are known.
  abbrev pub count_due : RowTest F → List (Text × ℕ) → List (Event F) → ℕ
  count_due p m [] = 0
  count_due p m (e ∷ es) =
      count_rows p (rows_of (lookup_id (canonical_of e) m) e) + count_due p m es

  -- How many rows the collector holds, and how many are due for the events that Redis took.
  abbrev pub held : RowTest F → Collector F → ℕ
  held p c = kept (count_rows p) c.rows

  abbrev pub due : RowTest F → Collector F → ℕ
  due p c = count_due p c.instrument_map c.snapshots

  -- From one state to a later one: at most the rows that have become due are new, and exactly these
  -- if the transactions commit.
  abbrev pub Accounts : RowTest F → Bool → Collector F → Collector F → Type 0
  Accounts p ok c c' =
      (held p c' + due p c ≤ held p c + due p c')
      × (ok ≡ true → held p c' + due p c ≡ held p c + due p c')
