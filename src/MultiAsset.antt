-- ===== src/MultiAsset.antt =====
-- apps/collectors/multi_asset_runner.py: the tick buffer of `MultiAssetRunner`. The database is the
-- list of rows committed to it, the snapshots that Redis took are a log. The environment chooses the
-- steps of both tasks, what Redis takes and which transactions commit.
pub mod Ticks
mod Tests
use mach.Prelude.{
  ℕ, Bool, true, false, not, ◌&&◌, List, [], ◌∷◌, ◌++◌, Option, none, some, length, leb, ◌==◌,
  if◌then◌else◌,
}
use mach.Text.{Text}
use mach.Float.{Float, ◌⊖◌, nought}
use mach.Events.{Event, tick, trade, candle, orderbook, funding, mark_spot, TickEvent}
use mach.Buffering.{
  Batch, Buffering, Action, receive, redis_fails, written, periodic_flush, flushed, stream_ends,
  begin_write, shut_down, end_write, end_flush, wake, end_stream, is_idle,
}
use mach.Collector.{Row, lookup_id, is_empty}

-- The fields of a tick, with the spread that is sent beside them.
pub record TickSnapshot {ℓ} (F : Type ℓ) : Type ℓ where
  pub event : TickEvent F
  pub spread : Option F

pub record MultiAssetRunner {ℓ} (F : Type ℓ) : Type ℓ where
  pub instrument_map : List (Text × ℕ)
  pub db_batch_size : ℕ
  pub rows : Buffering (List (Row (TickEvent F)))
  pub snapshots : List (TickSnapshot F)

instance abbrev pub ticks_batch {ℓ} : {F : Type ℓ} → Batch (List (Row (TickEvent F)))
ticks_batch = record { no_rows = []; add_rows = λ xs ys. xs ++ ys; nothing_buffered = is_empty }

module _ {ℓ} {F : Type ℓ} ⦃fl : Float F⦄ where
  open fl use {eq, round}

  -- `round(ask - bid, 5) if ask and bid else None`
  abbrev pub spread_of : Option F → Option F → Option F
  spread_of (some ask) (some bid) =
      if not (eq ask nought) && not (eq bid nought) then some (round (ask ⊖ bid) 5) else none
  spread_of (some ask) none = none
  spread_of none bid = none

  -- `if inst_id`: no row for an unknown instrument, nor for the id zero
  abbrev pub tick_row : Option ℕ → TickEvent F → List (Row (TickEvent F))
  tick_row none e = []
  tick_row (some id) e = if id == 0 then [] else record { instrument_id = id; event = e } ∷ []

  -- Once Redis has the snapshot of the tick.
  unfoldable pub buffer_tick : TickEvent F → MultiAssetRunner F → MultiAssetRunner F
  unfolding lookup_id
  buffer_tick e r = record r {
    snapshots = r.snapshots ++ record { event = e; spread = spread_of e.ask e.bid } ∷ [];
    rows = record r.rows {
      buffers = r.rows.buffers ++ tick_row (lookup_id e.canonical_symbol r.instrument_map) e;
    };
  }

  -- `_process_event`, after the case of a tick and up to the commit of the flush that it may begin
  unfoldable pub flush_full : MultiAssetRunner F → MultiAssetRunner F
  unfolding begin_write
  flush_full r =
      if leb r.db_batch_size (length r.rows.buffers)
      then record r { rows = begin_write r.rows }
      else r

  -- `_process_event`: only a tick is sent to Redis and stored.
  unfoldable pub process_tick : Event F → MultiAssetRunner F → MultiAssetRunner F
  unfolding buffer_tick flush_full
  process_tick (tick e) r = flush_full (buffer_tick e r)
  process_tick (trade e) r = flush_full r
  process_tick (candle e) r = flush_full r
  process_tick (orderbook e) r = flush_full r
  process_tick (funding e) r = flush_full r
  process_tick (mark_spot e) r = flush_full r

  abbrev pub is_tick : Event F → Bool
  is_tick (tick e) = true
  is_tick _ = false

  abbrev pub is_ready : MultiAssetRunner F → Bool
  is_ready r = r.rows.streaming && is_idle r.rows.writing

  -- One step. Where Redis fails, the exception ends the stream before the tick is buffered.
  unfoldable pub act_once : Action (Event F) → MultiAssetRunner F → MultiAssetRunner F
  unfolding process_tick shut_down end_write end_flush wake end_stream
  act_once (receive e) r = if is_ready r then process_tick e r else r
  act_once (redis_fails f e) r =
      if is_ready r
      then (if is_tick e then record r { rows = shut_down true f r.rows } else process_tick e r)
      else r
  act_once (written ok f) r = record r { rows = end_write ok f r.rows }
  act_once periodic_flush r = record r { rows = wake r.rows }
  act_once (flushed ok) r = record r { rows = end_flush ok r.rows }
  act_once (stream_ends w f) r = record r { rows = end_stream w f r.rows }

  unfoldable pub run_actions : List (Action (Event F)) → MultiAssetRunner F → MultiAssetRunner F
  unfolding act_once
  run_actions [] r = r
  run_actions (a ∷ acts) r = run_actions acts (act_once a r)
