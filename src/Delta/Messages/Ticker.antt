-- ===== src/Delta/Messages/Ticker.antt =====
-- swaram/providers/crypto/delta_ws.py: `_parse_ticker` and `_parse_mark_spot`, the events of a quote.
use mach.Prelude.{
  ℕ, Bool, true, false, ◌||◌, List, [], ◌∷◌, ◌++◌, Option, none, some, Raises, ok, ◌>>=◌,
  if◌then◌else◌,
}
use mach.Text.{Text, codes}
use mach.Float.{Float, nought}
use mach.Events.{Event, tick, funding, post_init}
use mach.Delta.Json.{
  Json, null, number, object, no_fields, Reader, get, truthy, or_else, is_text, has_field, to_float,
  from_epoch,
}
use mach.Delta.Messages.Shared.{Emission, emit, first_of, mark_spot_at}

module _ {ℓ} {F : Type ℓ} ⦃fl : Float F⦄ (rd : Reader F) (now : ℕ) where
  open fl use {lt, eq}

  -- `float(x) if x is not None and float(x) > 0 else None`
  unfoldable pub positive : Json F → Raises (Option F)
  positive null = ok none
  positive x = do v ← to_float rd x; ok (if lt nought v then some v else none)

  -- `float(x) if x is not None else None`
  unfoldable pub maybe_float : Json F → Raises (Option F)
  maybe_float null = ok none
  maybe_float x = do v ← to_float rd x; ok (some v)

  -- `float(… or 0.0) or None`
  unfoldable pub nonzero : Json F → Raises (Option F)
  nonzero x = do v ← to_float rd x; ok (if eq v nought then none else some v)

  abbrev tick_at : Text → Option F → Option F → Option F → Option F → Option F → ℕ → Event F
  tick_at canonical bid ask bid_size ask_size last src = tick (
      post_init (record {
        canonical_symbol = canonical;
        provider = codes "delta";
        timestamp = src;
        ingested_at = now;
        bid = bid;
        ask = ask;
        mid = none;
        last = last;
        bid_size = bid_size;
        ask_size = ask_size;
        source_timestamp = some src;
      }))

  abbrev funding_at : Text → F → Option ℕ → ℕ → Event F
  funding_at canonical rate next src = funding (record {
    canonical_symbol = canonical;
    provider = codes "delta";
    timestamp = src;
    funding_rate = rate;
    next_funding_time = next;
    ingested_at = now;
  })

  -- The funding rate of a ticker, if it has one.
  unfoldable pub funding_events : Json F → Text → Option ℕ → Raises (List (Emission F))
  funding_events msg canonical src = do
    rate ← get (codes "funding_rate") msg
    elim rate [
      | null ↦ ok []
      | value ↦ (do
        next_raw ← get (codes "next_funding_realization") msg
        next ← if truthy next_raw then from_epoch rd next_raw else ok none
        r ← to_float rd value
        ok (emit (funding_at canonical r next) src ∷ []))
    ]

  -- `a.get(k) or b.get(k) or c.get(j)`, the order in which a quote is looked for
  unfoldable pub quote_of : Json F → Json F → Json F → Text → Text → Raises (Json F)
  quote_of quotes payload last_place k j = do
    a ← get k quotes
    b ← get k payload
    c ← get j last_place
    ok (or_else a (or_else b c))

  unfoldable pub ticker_events : Json F → Json F → Text → Option ℕ → Raises (List (Emission F))
  unfolding positive maybe_float nonzero funding_events quote_of first_of
  ticker_events msg payload canonical src = do
    quotes ← first_of payload (codes "quotes" ∷ []) (object no_fields)
    bid_val ← quote_of quotes payload payload (codes "best_bid") (codes "bid")
    ask_val ← quote_of quotes payload payload (codes "best_ask") (codes "ask")
    bid_sz_val ← quote_of quotes payload quotes (codes "best_bid_size") (codes "bid_size")
    ask_sz_val ← quote_of quotes payload quotes (codes "best_ask_size") (codes "ask_size")
    bid ← positive bid_val
    ask ← positive ask_val
    bid_size ← maybe_float bid_sz_val
    ask_size ← maybe_float ask_sz_val
    last_val ←
        first_of payload (codes "close" ∷ codes "last_price" ∷ codes "price" ∷ []) (number nought)
    last ← nonzero last_val
    mark_val ← first_of payload (codes "mark_price" ∷ []) (number nought)
    mark ← nonzero mark_val
    spot_val ← first_of payload (codes "spot_price" ∷ []) (number nought)
    spot ← nonzero spot_val
    funding_part ← funding_events msg canonical src
    let no_prices : Bool = elim mark [
      | none ↦ elim spot [ none ↦ true | some s ↦ false ]
      | some m ↦ false
    ]
    ok (
        emit (tick_at canonical bid ask bid_size ask_size last) src
        ∷ (funding_part
            ++ (if no_prices then [] else emit (mark_spot_at rd now canonical mark spot) src ∷ [])))

  -- `float(x.get("price") or x.get(k) or 0.0) if x.get("type") == k or k in x else None`
  unfoldable pub price_if : Text → Json F → Raises (Option F)
  unfolding first_of
  price_if k msg = do
    msg_type ← get (codes "type") msg
    if is_text k msg_type || has_field k msg
        then (do
          raw ← first_of msg (codes "price" ∷ k ∷ []) (number nought)
          v ← to_float rd raw
          ok (some v))
        else ok none

  unfoldable pub mark_spot_events : Json F → Text → Option ℕ → Raises (List (Emission F))
  unfolding price_if
  mark_spot_events msg canonical src = do
    mark ← price_if (codes "mark_price") msg
    spot ← price_if (codes "spot_price") msg
    ok (emit (mark_spot_at rd now canonical mark spot) src ∷ [])
