-- ===== src/Delta/Messages/Tests.antt =====
-- swaram/providers/crypto/delta_ws.py: messages read on concrete values.
use mach.Prelude.{◌≡◌, refl, true, List, [], ◌∷◌, some, ok, raised, value_error, Exception, arith}
use mach.Text.{Text, codes, eq_text}
use mach.Float.Fixed.{Fixed, fixed_float}
use mach.Events.{trade}
use mach.Health.{new_health, record_message}
use mach.Symbols.{to_canonical}
use mach.Delta.{Provider, connecting, start_stream, on_connected, on_message}
use mach.Delta.Session.{Run, start, next, connected, message, IsSession}
use mach.Delta.Json.{
  Json, number, string, object, Fields, no_fields, field, Reader, get_or, find_field, truthy,
  or_else, is_text, to_float, source_time,
}
use mach.Delta.Messages.Shared.{event, symbol_of, first_of, source_of, parse_with}
use mach.Delta.Messages.Trades.{side_of, trade_events}
use mach.Delta.Messages.{parse_message, dispatch, parse_trades}
use mach.Delta.Messages.Lawful.{Effect, parse_message-Effect, message_parser, Run-message_parser}
open fixed_float use {decimal as num}

-- Python's readers, for messages that have no texts of numbers.
abbrev reader : Reader Fixed
reader = record {
  float_of = λ s. raised value_error;
  int_of = λ s. raised value_error;
  instant_of = λ s. raised value_error;
  from_timestamp = λ x. raised value_error;
  text_of = λ j. codes "7";
}

abbrev fields : List (Text × Json Fixed) → Fields Fixed
fields [] = no_fields
fields ((k, v) ∷ xs) = field k v (fields xs)

abbrev trade_message : Json Fixed
trade_message = object (
    fields (
      (codes "type", string (codes "all_trades"))
      ∷ (codes "symbol", string (codes "BTCUSD"))
      ∷ (codes "price", number (num 65_000 0))
      ∷ (codes "size", number (num 3 0))
      ∷ (codes "buyer_role", string (codes "taker"))
      ∷ []))

-- A trade without a timestamp is dated by the clock.
trade_runs : parse_message reader 9 (some trade_message) (new_health 5) ≡ (
  record_message (new_health 5) 9 (some 9),
  ok (
      event (
        trade (record {
          canonical_symbol = to_canonical (codes "delta") (codes "BTCUSD");
          provider = codes "delta";
          timestamp = 9;
          price = num 65_000 0;
          size = num 3 0;
          side = codes "buy";
          trade_id = some (codes "7");
          ingested_at = 9;
        }))
      ∷ []),
)
unfolding parse_message dispatch parse_trades parse_with symbol_of source_of source_time
    trade_events side_of first_of get_or find_field truthy or_else is_text to_float eq_text
trade_runs = refl

parse_message-Effect_example :
    Effect reader 9 (new_health 5) (parse_message reader 9 (some trade_message) (new_health 5))
parse_message-Effect_example = parse_message-Effect reader 9 (some trade_message) (new_health 5)

abbrev text_of_exception : Exception → Text
text_of_exception e = codes "error"

abbrev provider : Provider
provider = record { running = true; phase = connecting; health = new_health 5; delay = 1 }

abbrev after_trade : Provider
after_trade =
    on_message (message_parser reader text_of_exception (9, some trade_message))
      (on_connected (start_stream provider) 3)

trade_read : Run (message_parser reader text_of_exception) provider after_trade
unfolding start_stream on_connected
trade_read =
    next (next start (connected (start_stream provider) 3 refl))
      (message (on_connected (start_stream provider) 3) (9, some trade_message) refl)

Run-message_parser_example : IsSession after_trade
Run-message_parser_example =
    Run-message_parser reader text_of_exception provider (omega arith) trade_read
