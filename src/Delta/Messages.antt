-- ===== src/Delta/Messages.antt =====
-- swaram/providers/crypto/delta_ws.py: `_parse_message` and the parsers of its channels. A message is
-- what `json.loads` gives. `now` stands for every call of the clock while one message is read.
pub mod Shared
pub mod Ticker
pub mod Trades
pub mod Levels
pub mod Lawful
mod Tests
use mach.Prelude.{
  ℕ, ◌-◌, Bool, true, false, not, ◌||◌, ◌&&◌, List, [], ◌∷◌, ◌++◌, Option, none, some, Raises, ok,
  raised, ◌>>=◌, type_error, attribute_error, if◌then◌else◌,
}
use mach.Prelude.Int.{ℤ, pos}
use mach.Text.{Text, codes, eq_text}
use mach.Symbols.{to_canonical}
use mach.Float.{Float, nought}
use mach.Health.{ProviderHealth, record_message}
use mach.Events.{
  Event, tick, trade, candle, orderbook, funding, mark_spot, TickEvent, TradeEvent, CandleEvent,
  FundingEvent, MarkSpotPriceEvent, post_init,
}
use mach.Delta.Book.{parse_levels}
use mach.Delta.Json.{
  Json, null, boolean, number, string, array, object, Items, no_items, item, Fields, no_fields,
  field, Reader, get, get_or, truthy, or_else, is_text, has_part, has_field, has_text, remove_text,
  to_float, to_integer, to_instant, from_epoch, source_time,
}
use mach.Delta.Messages.Shared.{
  either_text, Emission, event, undated, emit, symbol_of, payload_of, first_of, source_of,
  mark_spot_at, parse_with,
}
use mach.Delta.Messages.Ticker.{ticker_events, mark_spot_events}
use mach.Delta.Messages.Trades.{CandleValues, trade_events, candle_parts, candle_at}
use mach.Delta.Messages.Levels.{book_events}

module _ {ℓ} {F : Type ℓ} ⦃fl : Float F⦄ (rd : Reader F) (now : ℕ) where
  pub parse_ticker : Json F → ProviderHealth → ProviderHealth × Raises (List (Emission F))
  unfolding symbol_of payload_of source_of ticker_events parse_with
  parse_ticker msg h = elim (payload_of msg) [
    | raised e ↦ (h, raised e)
    | ok payload ↦
        parse_with now (symbol_of payload) (source_of rd now payload)
          (ticker_events rd now msg payload) h
  ]

  pub parse_trades : Json F → ProviderHealth → ProviderHealth × Raises (List (Emission F))
  unfolding symbol_of source_of trade_events parse_with
  parse_trades msg h =
      parse_with now (symbol_of msg) (source_of rd now msg) (trade_events rd now msg) h

  pub parse_candle : Json F → ProviderHealth → ProviderHealth × Raises (List (Emission F))
  unfolding candle_parts
  parse_candle msg h = elim (candle_parts rd now msg) [
    | raised e ↦ (h, raised e)
    | ok none ↦ (h, ok [])
    | ok (some (canonical, timeframe, c)) ↦ (
      record_message h now c.c_ts,
      ok (emit (candle_at rd now canonical timeframe c) c.c_ts ∷ []),
    )
  ]

  pub parse_orderbook : Json F → ProviderHealth → ProviderHealth × Raises (List (Emission F))
  unfolding symbol_of payload_of source_of book_events parse_with
  parse_orderbook msg h = elim (payload_of msg) [
    | raised e ↦ (h, raised e)
    | ok payload ↦
        parse_with now (symbol_of payload) (source_of rd now payload) (book_events rd now payload) h
  ]

  pub parse_mark_spot : Json F → ProviderHealth → ProviderHealth × Raises (List (Emission F))
  unfolding symbol_of source_of mark_spot_events parse_with
  parse_mark_spot msg h =
      parse_with now (symbol_of msg) (source_of rd now msg) (mark_spot_events rd now msg) h

  -- The channels that are found by a part of their name.
  pub parse_by_part : Json F → Json F → ProviderHealth → ProviderHealth × Raises (List (Emission F))
  unfolding parse_candle parse_orderbook parse_mark_spot
  parse_by_part msg_type msg h = elim (has_part (codes "candlestick") msg_type) [
    | raised e ↦ (h, raised e)
    | ok candles ↦
        if candles || is_text (codes "candle") msg_type
        then parse_candle msg h
        else elim (has_part (codes "orderbook") msg_type) [
          | raised e ↦ (h, raised e)
          | ok books ↦
              if books
              then parse_orderbook msg h
              else if either_text (codes "mark_price") (codes "spot_price") msg_type
              then parse_mark_spot msg h
              else (h, ok [])
        ]
  ]

  pub dispatch : Json F → Json F → ProviderHealth → ProviderHealth × Raises (List (Emission F))
  unfolding parse_ticker parse_trades parse_by_part
  dispatch msg_type msg h =
      if either_text (codes "pong") (codes "heartbeat") msg_type
      then (record_message h now none, ok [])
      else if either_text (codes "v2/ticker") (codes "ticker") msg_type
      then parse_ticker msg h
      else if either_text (codes "all_trades") (codes "trades") msg_type
      then parse_trades msg h
      else parse_by_part msg_type msg h

  -- `none` is a text that is no JSON.
  pub parse_message : Option (Json F) → ProviderHealth → ProviderHealth × Raises (List (Emission F))
  unfolding dispatch
  parse_message none h = (h, ok [])
  parse_message (some msg) h = elim (get_or (string []) (codes "type") msg) [
    | raised e ↦ (h, raised e)
    | ok msg_type ↦ dispatch msg_type msg h
  ]
