-- ===== src/Delta/Messages/Trades.antt =====
-- swaram/providers/crypto/delta_ws.py: `_parse_trades` and `_parse_candle`, the events of trades.
use mach.Prelude.{
  ℕ, List, [], ◌∷◌, Option, none, some, Raises, ok, raised, ◌>>=◌, attribute_error, if◌then◌else◌,
}
use mach.Prelude.Int.{ℤ, pos}
use mach.Text.{Text, codes}
use mach.Float.{Float, nought}
use mach.Events.{Event, trade, candle}
use mach.Delta.Json.{
  Json, null, number, string, array, object, Items, no_items, item, Reader, get, get_or, or_else,
  is_text, has_part, remove_text, to_float, to_integer, to_instant, source_time,
}
use mach.Delta.Messages.Shared.{Emission, emit, symbol_of, first_of}

-- Six values of a candle, with the number of its trades.
pub record CandleValues {ℓ} (F : Type ℓ) : Type ℓ where
  pub c_ts : Option ℕ
  pub c_open : F
  pub c_high : F
  pub c_low : F
  pub c_close : F
  pub c_vol : F
  pub c_trades : ℤ

module _ {ℓ} {F : Type ℓ} ⦃fl : Float F⦄ (rd : Reader F) (now : ℕ) where
  abbrev trade_at : Text → F → F → Text → Text → ℕ → Event F
  trade_at canonical price size side id src = trade (record {
    canonical_symbol = canonical;
    provider = codes "delta";
    timestamp = src;
    price = price;
    size = size;
    side = side;
    trade_id = some id;
    ingested_at = now;
  })

  -- The taker's side, or what the message says.
  unfoldable pub side_of : Json F → Raises Text
  side_of msg = do
    buyer_role ← get_or (string []) (codes "buyer_role") msg
    seller_role ← get_or (string []) (codes "seller_role") msg
    side ← get_or (string (codes "unknown")) (codes "side") msg
    ok (
        if is_text (codes "taker") buyer_role
        then codes "buy"
        else if is_text (codes "taker") seller_role
        then codes "sell"
        else elim side [ string s ↦ s | other ↦ rd.text_of other ])

  unfoldable pub trade_events : Json F → Text → Option ℕ → Raises (List (Emission F))
  unfolding side_of first_of
  trade_events msg canonical src = do
    price_val ← first_of msg (codes "price" ∷ []) (number nought)
    price ← to_float rd price_val
    size_val ← first_of msg (codes "size" ∷ []) (number nought)
    size ← to_float rd size_val
    side ← side_of msg
    id ← first_of msg (codes "id" ∷ []) (string [])
    ok (emit (trade_at canonical price size side (rd.text_of id)) src ∷ [])

  abbrev pub candle_at : Text → Text → CandleValues F → ℕ → Event F
  candle_at canonical timeframe c src = candle (record {
    canonical_symbol = canonical;
    provider = codes "delta";
    timeframe = timeframe;
    timestamp = src;
    opening = c.c_open;
    high = c.c_high;
    low = c.c_low;
    close = c.c_close;
    volume = c.c_vol;
    trade_count = c.c_trades;
    ingested_at = now;
  })

  -- The text after "candlestick_", or "1m".
  unfoldable pub timeframe_of : Json F → Raises Text
  timeframe_of msg = do
    msg_type ← get_or (string []) (codes "type") msg
    named ← has_part (codes "candlestick_") msg_type
    if named
        then elim msg_type [
          | string s ↦ ok (remove_text (codes "candlestick_") 0 s)
          | _ ↦ raised attribute_error
        ]
        else ok (codes "1m")

  -- `[timestamp, open, high, low, close, volume]`, and the trades if there are more.
  unfoldable pub listed_candle : Items F → Raises (Option (CandleValues F))
  listed_candle (item ts (item o (item h (item l (item c (item v rest)))))) = do
    c_ts ← to_instant rd ts
    c_open ← to_float rd o
    c_high ← to_float rd h
    c_low ← to_float rd l
    c_close ← to_float rd c
    c_vol ← to_float rd v
    c_trades ← elim rest [ no_items ↦ ok (pos 0) | item n more ↦ to_integer rd n ]
    ok (
        some (record {
          c_ts = some c_ts;
          c_open = c_open;
          c_high = c_high;
          c_low = c_low;
          c_close = c_close;
          c_vol = c_vol;
          c_trades = c_trades;
        }))
  listed_candle xs = ok none

  -- `float(x.get(k, 0))`
  unfoldable pub float_at : Text → Json F → Raises F
  float_at k x = do v ← get_or (number nought) k x; to_float rd v

  unfoldable pub named_candle : Json F → Raises (Option (CandleValues F))
  unfolding float_at first_of
  named_candle x = do
    raw ← first_of x (codes "time" ∷ []) null
    raw_2 ← get (codes "timestamp") x
    c_ts ← source_time rd now (or_else raw raw_2)
    c_open ← float_at (codes "open") x
    c_high ← float_at (codes "high") x
    c_low ← float_at (codes "low") x
    c_close ← float_at (codes "close") x
    c_vol ← float_at (codes "volume") x
    trades ← get_or (number nought) (codes "trades") x
    c_trades ← to_integer rd trades
    ok (
        some (record {
          c_ts = c_ts;
          c_open = c_open;
          c_high = c_high;
          c_low = c_low;
          c_close = c_close;
          c_vol = c_vol;
          c_trades = c_trades;
        }))

  unfoldable pub candle_of : Json F → Raises (Option (CandleValues F))
  unfolding listed_candle named_candle
  candle_of (array xs) = listed_candle xs
  candle_of (object fs) = named_candle (object fs)
  candle_of _ = ok none

  -- The symbol, the timeframe and the values, which are read before anything is recorded.
  unfoldable pub candle_parts : Json F → Raises (Option (Text × Text × CandleValues F))
  unfolding symbol_of first_of timeframe_of candle_of
  candle_parts msg = do
    sym ← symbol_of msg
    elim sym [
      | none ↦ ok none
      | some canonical ↦ (do
        candle_data ← first_of msg (codes "candle" ∷ []) msg
        timeframe ← timeframe_of msg
        values ← candle_of candle_data
        ok (elim values [ none ↦ none | some c ↦ some (canonical, timeframe, c) ]))
    ]
