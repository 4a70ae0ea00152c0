-- ===== src/Events.antt =====
-- swaram/core/events.py: the events that providers emit. An instant is a number of microseconds.
-- `to_dict`, which formats an event for output, is not modelled.
pub mod Laws
use mach.Prelude.{ℕ, Option, none, some, List}
use mach.Prelude.Int.{ℤ}
use mach.Text.{Text}
use mach.Float.{Float, ◌⊕◌}

pub record TickEvent {ℓ} (F : Type ℓ) : Type ℓ where
  pub canonical_symbol : Text
  pub provider : Text
  pub timestamp : ℕ
  pub ingested_at : ℕ
  pub bid : Option F
  pub ask : Option F
  pub mid : Option F
  pub last : Option F
  pub bid_size : Option F
  pub ask_size : Option F
  pub source_timestamp : Option ℕ

pub record TradeEvent {ℓ} (F : Type ℓ) : Type ℓ where
  pub canonical_symbol : Text
  pub provider : Text
  pub timestamp : ℕ
  pub price : F
  pub size : F
  pub side : Text
  pub trade_id : Option Text
  pub ingested_at : ℕ

pub record CandleEvent {ℓ} (F : Type ℓ) : Type ℓ where
  pub canonical_symbol : Text
  pub provider : Text
  pub timeframe : Text
  pub timestamp : ℕ
  pub opening : F
  pub high : F
  pub low : F
  pub close : F
  pub volume : F
  pub trade_count : ℤ
  pub ingested_at : ℕ

pub record OrderbookEvent {ℓ} (F : Type ℓ) : Type ℓ where
  pub canonical_symbol : Text
  pub provider : Text
  pub timestamp : ℕ
  pub depth : ℕ
  pub best_bid : F
  pub best_ask : F
  pub spread : F
  pub spread_bps : F
  pub bid_depth : F
  pub ask_depth : F
  pub imbalance : F
  pub microprice : F
  pub bids : List (F × F)
  pub asks : List (F × F)
  pub ingested_at : ℕ

pub record FundingEvent {ℓ} (F : Type ℓ) : Type ℓ where
  pub canonical_symbol : Text
  pub provider : Text
  pub timestamp : ℕ
  pub funding_rate : F
  pub next_funding_time : Option ℕ
  pub ingested_at : ℕ

pub record MarkSpotPriceEvent {ℓ} (F : Type ℓ) : Type ℓ where
  pub canonical_symbol : Text
  pub provider : Text
  pub timestamp : ℕ
  pub mark_price : Option F
  pub spot_price : Option F
  pub ingested_at : ℕ

pub data Event {ℓ} (F : Type ℓ) : Type ℓ where
  tick : TickEvent F → Event F
  trade : TradeEvent F → Event F
  candle : CandleEvent F → Event F
  orderbook : OrderbookEvent F → Event F
  funding : FundingEvent F → Event F
  mark_spot : MarkSpotPriceEvent F → Event F

module _ {ℓ} {F : Type ℓ} ⦃fl : Float F⦄ where
  open fl use {quot, decimal}

  -- The midpoint of two sides that are both there.
  pub mid_of : Option F → Option F → Option F
  mid_of (some bid) (some ask) = some (quot (bid ⊕ ask) (decimal 2 0))
  mid_of (some bid) none = none
  mid_of none ask = none

  -- `TickEvent.__post_init__`
  pub post_init : TickEvent F → TickEvent F
  unfolding mid_of
  post_init e = record e {
    mid = elim e.mid [ some m ↦ some m | none ↦ mid_of e.bid e.ask ];
    source_timestamp = elim e.source_timestamp [ some t ↦ some t | none ↦ some e.timestamp ];
  }
