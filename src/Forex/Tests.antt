-- ===== src/Forex/Tests.antt =====
-- swaram/providers/forex/ctrader.py: a run with one symbol.
use mach.Prelude.{◌≡◌, refl, ◌∷◌, [], some, Raises, ok, raised, value_error}
use mach.Text.{Text, codes, eq_text}
use mach.Dict.{lookup, store}
use mach.Float.Fixed.{Fixed, fixed_float}
use mach.Float.Fixed.Lawful.{Fixed-IsOrdered, Fixed-IsMonotone, Fixed-IsScaled}
use mach.Orders.{Reply}
use mach.Delta.Json.{
  number, array, object, no_items, item, no_fields, field, Reader, get_or, find_field, truthy,
  or_else, to_float,
}
use mach.Forex.{
  Provider, new_provider, connect, start_stream, on_fetched, fetch_all_prices, tasks, gathered,
  fetch_yahoo_price, price_in, first_item, update, on_symbol, price_now, quote,
}
use mach.Forex.Prices.{Run, created, connects, starts, fetches}
use mach.Forex.Quotes.{IsQuote, Run-IsQuote}
open fixed_float use {decimal as num}

abbrev reader : Reader Fixed
reader = record {
  float_of = λ s. raised value_error;
  int_of = λ s. raised value_error;
  instant_of = λ s. raised value_error;
  from_timestamp = λ x. raised value_error;
  text_of = λ j. [];
}

-- A server that gives every symbol the price 1.1.
abbrev steady : Text → Raises (Reply Fixed)
steady url =
    let meta = object (field (codes "regularMarketPrice") (number (num 11 1)) no_fields) in
    let result = array (item (object (field (codes "meta") meta no_fields)) no_items) in
    ok (record {
      status = 200;
      content = ok (
          object
            (field (codes "chart") (object (field (codes "result") result no_fields)) no_fields));
    })

abbrev euro : Text
euro = codes "EURUSD"

-- The provider connects, starts and downloads one round.
abbrev one_round : Provider Fixed
one_round =
    let p =
      start_stream
        (connect (fetch_all_prices reader steady (euro ∷ [])) (new_provider (some (euro ∷ [])))) in
    on_fetched (fetch_all_prices reader steady p.symbols) 5 p

one_round_runs : Run reader one_round
unfolding start_stream connect
one_round_runs = fetches steady 5 refl (starts (connects steady (created (some (euro ∷ [])))))

Run-IsQuote_example :
    (price : Fixed) × (lookup euro one_round.prices ≡ some price)
    × IsQuote euro 5 price (quote euro 5 6 (num 11 1))
unfolding start_stream connect on_fetched fetch_all_prices tasks gathered fetch_yahoo_price price_in
    first_item update on_symbol price_now quote lookup store get_or find_field truthy or_else
    to_float eq_text
Run-IsQuote_example =
    Run-IsQuote Fixed-IsOrdered Fixed-IsMonotone Fixed-IsScaled euro 5 [] 6 one_round_runs refl refl
