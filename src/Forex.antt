-- ===== src/Forex.antt =====
-- swaram/providers/forex/ctrader.py: prices polled from Yahoo Finance. `stream_events` is a state
-- machine; the answers of the server, the clock, `subscribe`, `connect` and `disconnect` choose its
-- steps. Instants and spans are in microseconds, and log lines are left out.
pub mod Prices
pub mod Quotes
mod Tests
use mach.Prelude.{
  ℕ, Bool, true, false, List, [], ◌∷◌, ◌++◌, Option, none, some, map, Raises, ok, raised, ◌>>=◌,
  key_error, index_error, type_error, ◌==◌, if◌then◌else◌,
}
use mach.Text.{Text, codes}
use mach.Dict.{lookup, store}
use mach.Float.{Float, ◌⊕◌, ◌⊖◌, nought}
use mach.Health.{ProviderHealth, new_health, record_message, record_error}
use mach.Events.{TickEvent}
use mach.Symbols.{to_canonical}
use mach.Orders.{Reply}
use mach.Delta.Json.{
  Json, null, boolean, number, string, array, object, no_items, item, no_fields, Reader, get,
  get_or, truthy, or_else, to_float,
}

abbrev pub yahoo_symbols : List (Text × Text)
yahoo_symbols =
    (codes "EURUSD", codes "EURUSD=X")
    ∷ (codes "GBPUSD", codes "GBPUSD=X")
    ∷ (codes "USDJPY", codes "JPY=X")
    ∷ (codes "USDCHF", codes "CHF=X")
    ∷ (codes "AUDUSD", codes "AUDUSD=X")
    ∷ (codes "XAUUSD", codes "GC=F")
    ∷ (codes "XAGUSD", codes "SI=F")
    ∷ (codes "WTIUSD", codes "CL=F")
    ∷ (codes "US10Y", codes "%5ETNX")
    ∷ []

abbrev pub yahoo_url : Text → Text
yahoo_url yahoo_sym =
    codes "https://query1.finance.yahoo.com/v8/finance/chart/"
    ++ yahoo_sym
    ++ codes "?interval=1m&range=5m"

-- The dictionary of downloads: one for each known symbol, in the order of its first mention.
unfoldable pub tasks : List Text → List (Text × Text) → List (Text × Text)
unfolding lookup store
tasks [] d = d
tasks (s ∷ ss) d = tasks ss (elim (lookup s yahoo_symbols) [ none ↦ d | some y ↦ store s y d ])

module _ {ℓ} {F : Type ℓ} ⦃fl : Float F⦄ where
  open fl use {lt, eq, quot, round, decimal}

  abbrev pub spreads : List (Text × F)
  spreads =
      (codes "EURUSD", decimal 10 5)
      ∷ (codes "GBPUSD", decimal 15 5)
      ∷ (codes "USDJPY", decimal 15 3)
      ∷ (codes "USDCHF", decimal 15 5)
      ∷ (codes "AUDUSD", decimal 15 5)
      ∷ (codes "XAUUSD", decimal 30 2)
      ∷ (codes "XAGUSD", decimal 3 2)
      ∷ (codes "WTIUSD", decimal 5 2)
      ∷ (codes "US10Y", decimal 1 3)
      ∷ []

  -- `x[0]`
  unfoldable pub first_item : Json F → Raises (Json F)
  first_item (array (item x xs)) = ok x
  first_item (array no_items) = raised index_error
  first_item (string (c ∷ s)) = ok (string (c ∷ []))
  first_item (string []) = raised index_error
  first_item (object fs) = raised key_error
  first_item null = raised type_error
  first_item (boolean b) = raised type_error
  first_item (number x) = raised type_error

  -- The price in the answer, if any.
  unfoldable pub price_in : Reader F → Json F → Raises (Option F)
  unfolding get_or truthy or_else to_float first_item
  price_in rd data' = do
    chart ← get_or (object no_fields) (codes "chart") data'
    result ← get_or (array no_items) (codes "result") chart
    if truthy result
        then (do
          first ← first_item result
          meta ← get_or (object no_fields) (codes "meta") first
          market ← get (codes "regularMarketPrice") meta
          close ← get (codes "previousClose") meta
          if truthy (or_else market close)
              then (do price ← to_float rd (or_else market close); ok (some price))
              else ok none)
        else ok none

  -- `except Exception: return None`
  abbrev pub or_none : Raises (Option F) → Option F
  or_none (ok x) = x
  or_none (raised e) = none

  unfoldable pub fetch_yahoo_price : Reader F → Raises (Reply F) → Option F
  unfolding price_in
  fetch_yahoo_price rd reply =
      or_none (do r ← reply; if r.status == 200 then (do j ← r.content; price_in rd j) else ok none)

  -- Only prices above zero are kept.
  abbrev pub kept : Text → Option F → List (Text × F) → List (Text × F)
  kept s none prices = prices
  kept s (some price) prices = if lt nought price then store s price prices else prices

  module _ (rd : Reader F) (web : Text → Raises (Reply F)) where
    unfoldable pub gathered : List (Text × Text) → List (Text × F) → List (Text × F)
    unfolding store fetch_yahoo_price
    gathered [] prices = prices
    gathered ((s, y) ∷ ts) prices =
        gathered ts (kept s (fetch_yahoo_price rd (web (yahoo_url y))) prices)

    unfoldable pub fetch_all_prices : List Text → List (Text × F)
    unfolding tasks gathered
    fetch_all_prices symbols = gathered (tasks symbols []) []

  -- `d.update(fresh)`
  unfoldable pub update : List (Text × F) → List (Text × F) → List (Text × F)
  unfolding store
  update d [] = d
  update d ((s, price) ∷ fresh) = update (store s price d) fresh

-- Where the generator stands: downloading, in the loop over symbols at the instant of the round,
-- asleep, or ended.
pub data Phase : Type 0 where
  fetching : Phase
  quoting : ℕ → List Text → Phase
  sleeping : Phase
  ended : Phase

pub record Provider {ℓ} (F : Type ℓ) : Type ℓ where
  pub symbols : List Text
  pub running : Bool
  pub health : ProviderHealth
  pub prices : List (Text × F)
  pub phase : Phase

abbrev pub loop_test : Bool → Phase
loop_test running = if running then fetching else ended

abbrev pub symbols_or_all : Option (List Text) → List Text
symbols_or_all none = map (λ e. e.0) yahoo_symbols
symbols_or_all (some []) = map (λ e. e.0) yahoo_symbols
symbols_or_all (some (s ∷ ss)) = s ∷ ss

module _ {ℓ} {F : Type ℓ} ⦃fl : Float F⦄ where
  open fl use {lt, eq, quot, round, decimal}

  -- The generator is not started: its phase is any.
  abbrev pub new_provider : Option (List Text) → Provider F
  new_provider symbols = record {
    symbols = symbols_or_all symbols;
    running = false;
    health = new_health 30_000_000;
    prices = [];
    phase = ended;
  }

  unfoldable pub connect : List (Text × F) → Provider F → Provider F
  connect warm p = record p {
    running = true;
    health = record p.health { connected = true };
    prices = warm;
  }

  unfoldable pub disconnect : Provider F → Provider F
  disconnect p = record p { running = false; health = record p.health { connected = false } }

  unfoldable pub subscribe : List Text → Provider F → Provider F
  subscribe symbols p = record p { symbols = symbols }

  unfoldable pub start_stream : Provider F → Provider F
  start_stream p = record p { phase = loop_test p.running }

  -- The downloads are there. An empty dictionary updates nothing, so `if fresh` changes nothing.
  unfoldable pub on_fetched : List (Text × F) → ℕ → Provider F → Provider F
  unfolding update
  on_fetched fresh ts p = record p { prices = update p.prices fresh; phase = quoting ts p.symbols }

  -- The downloads raised.
  unfoldable pub on_failure : Text → Provider F → Provider F
  unfolding record_error
  on_failure err p = record p { health = record_error p.health err; phase = sleeping }

  unfoldable pub on_wake : Provider F → Provider F
  on_wake p = record p { phase = loop_test p.running }

  unfoldable pub spread_of : Text → F
  unfolding lookup
  spread_of sym = elim (lookup {A = F} sym spreads) [ none ↦ decimal 1 4 | some spread ↦ spread ]

  abbrev pub half_spread : Text → F
  half_spread sym = quot (spread_of sym) (decimal 2 0)

  -- `now` is when the event is made.
  unfoldable pub quote : Text → ℕ → ℕ → F → TickEvent F
  unfolding spread_of to_canonical
  quote sym ts now mid = record {
    canonical_symbol = to_canonical (codes "ctrader") sym;
    provider = codes "ctrader";
    timestamp = ts;
    ingested_at = now;
    bid = some (round (mid ⊖ half_spread sym) 5);
    ask = some (round (mid ⊕ half_spread sym) 5);
    mid = some mid;
    last = some mid;
    bid_size = some (decimal 1_000_000 0);
    ask_size = some (decimal 1_000_000 0);
    source_timestamp = some ts;
  }

  -- `self._prices.get(sym)`, unless it is zero
  unfoldable pub price_now : Text → List (Text × F) → Option F
  unfolding lookup
  price_now sym prices = elim (lookup sym prices) [
    | none ↦ none
    | some mid ↦ if eq mid nought then none else some mid
  ]

  -- A symbol of the round, with the event that is yielded for it, if any.
  unfoldable pub on_symbol :
      Text → ℕ → List Text → ℕ → Provider F → Provider F × Option (TickEvent F)
  unfolding price_now quote record_message
  on_symbol sym ts rest now p = elim (price_now sym p.prices) [
    | none ↦ (record p { phase = quoting ts rest }, none)
    | some mid ↦ (
      record p { health = record_message p.health now (some ts); phase = quoting ts rest },
      some (quote sym ts now mid),
    )
  ]

  -- The end of the round.
  unfoldable pub on_end : Provider F → Provider F
  on_end p = record p { phase = sleeping }
