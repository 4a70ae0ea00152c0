-- ===== src/Symbols.antt =====
-- swaram/core/symbols.py: canonical symbols and their names at the providers. A dict is an
-- association list in the order of insertion.
pub mod Parse
pub mod Canonical
pub mod Written
pub mod Table
pub mod Resolve
mod Tests
use mach.Prelude.{
  ℕ, Bool, true, false, ◌&&◌, ◌||◌, not, List, [], ◌∷◌, ◌++◌, Option, none, some, Raises, ok,
  raised, ◌>>=◌, value_error, leb, ◌==◌, if◌then◌else◌, foldl,
}
use mach.Text.{Text, codes, eq_text, lower, upper, strip, contains, remove, one_of}
use Parse.{parse_canonical, split_at}

abbrev pub Meta : Type 0
Meta = List (Text × Text)

-- `DEFAULT_SYMBOL_MAP`
unfoldable pub default_symbol_map : List (Text × Meta)
default_symbol_map =
    (
      codes "CRYPTO:BTC/USD",
      (codes "asset_class", codes "crypto")
          ∷ (codes "base", codes "BTC")
          ∷ (codes "quote", codes "USD")
          ∷ (codes "delta", codes "BTCUSD")
          ∷ (codes "bybit", codes "BTCUSDT")
          ∷ (codes "deribit", codes "BTC-PERPETUAL")
          ∷ [],
    )
    ∷ (
      codes "CRYPTO:ETH/USD",
      (codes "asset_class", codes "crypto")
          ∷ (codes "base", codes "ETH")
          ∷ (codes "quote", codes "USD")
          ∷ (codes "delta", codes "ETHUSD")
          ∷ (codes "bybit", codes "ETHUSDT")
          ∷ (codes "deribit", codes "ETH-PERPETUAL")
          ∷ [],
    )
    ∷ (
      codes "FX:EUR/USD",
      (codes "asset_class", codes "fx")
          ∷ (codes "base", codes "EUR")
          ∷ (codes "quote", codes "USD")
          ∷ (codes "ctrader", codes "EURUSD")
          ∷ [],
    )
    ∷ (
      codes "FX:GBP/USD",
      (codes "asset_class", codes "fx")
          ∷ (codes "base", codes "GBP")
          ∷ (codes "quote", codes "USD")
          ∷ (codes "ctrader", codes "GBPUSD")
          ∷ [],
    )
    ∷ (
      codes "FX:USD/JPY",
      (codes "asset_class", codes "fx")
          ∷ (codes "base", codes "USD")
          ∷ (codes "quote", codes "JPY")
          ∷ (codes "ctrader", codes "USDJPY")
          ∷ [],
    )
    ∷ (
      codes "METAL:XAU/USD",
      (codes "asset_class", codes "metal")
          ∷ (codes "base", codes "XAU")
          ∷ (codes "quote", codes "USD")
          ∷ (codes "ctrader", codes "XAUUSD")
          ∷ [],
    )
    ∷ (
      codes "METAL:XAG/USD",
      (codes "asset_class", codes "metal")
          ∷ (codes "base", codes "XAG")
          ∷ (codes "quote", codes "USD")
          ∷ (codes "ctrader", codes "XAGUSD")
          ∷ [],
    )
    ∷ (
      codes "COMMODITY:WTI/USD",
      (codes "asset_class", codes "commodity")
          ∷ (codes "base", codes "WTI")
          ∷ (codes "quote", codes "USD")
          ∷ (codes "ctrader", codes "WTIUSD")
          ∷ [],
    )
    ∷ (
      codes "RATE:US10Y",
      (codes "asset_class", codes "rate")
          ∷ (codes "base", codes "US10Y")
          ∷ (codes "quote", codes "USD")
          ∷ (codes "ctrader", codes "US10Y")
          ∷ [],
    )
    ∷ []

-- `d.get(key)`
unfoldable pub find {ℓ} : {A : Type ℓ} → Text → List (Text × A) → Option A
find k [] = none
find k ((j, v) ∷ m) = if eq_text k j then some v else find k m

-- The keys of the reverse index: a provider and its symbol.
abbrev pub Key : Type 0
Key = Text × Text

abbrev pub same_key : Key → Key → Bool
same_key (p, s) (q, t) = eq_text p q && eq_text s t

unfoldable pub find_key : Key → List (Key × Text) → Option Text
find_key k [] = none
find_key k ((j, v) ∷ m) = if same_key k j then some v else find_key k m

-- `d[key] = value`
unfoldable pub put_key : Key → Text → List (Key × Text) → List (Key × Text)
put_key k v [] = (k, v) ∷ []
put_key k v ((j, w) ∷ m) =
    let rest = put_key k v m in if same_key k j then (j, v) ∷ m else (j, w) ∷ rest

-- `k not in ("asset_class", "base", "quote")`
abbrev pub is_provider : Text → Bool
is_provider k = not (one_of k (codes "asset_class" ∷ codes "base" ∷ codes "quote" ∷ []))

-- The inner loop, over one entry.
unfoldable pub index_meta : Text → List (Key × Text) → Meta → List (Key × Text)
unfolding put_key
index_meta canonical index [] = index
index_meta canonical index ((k, v) ∷ meta) =
    index_meta canonical
      (if is_provider k then put_key (lower k, upper v) canonical index else index) meta

unfoldable pub index_all : List (Key × Text) → List (Text × Meta) → List (Key × Text)
index_all index [] = index
index_all index ((canonical, meta) ∷ table) = index_all (index_meta canonical index meta) table

-- `PROVIDER_TO_CANONICAL`
unfoldable pub provider_to_canonical : List (Key × Text)
unfolding default_symbol_map
provider_to_canonical = index_all [] default_symbol_map

abbrev compact : Text → Text
compact s = remove b'_' (remove b'-' (remove b'/' s))

-- The heuristic names, then the fallback for a symbol.
unfoldable pub guess_canonical : Text → Text → Text
guess_canonical sym symbol =
    if one_of sym (codes "BTCUSD" ∷ codes "BTCUSDT" ∷ codes "XBTUSD" ∷ [])
    then codes "CRYPTO:BTC/USD"
    else if one_of sym (codes "ETHUSD" ∷ codes "ETHUSDT" ∷ [])
    then codes "CRYPTO:ETH/USD"
    else if eq_text sym (codes "EURUSD")
    then codes "FX:EUR/USD"
    else if eq_text sym (codes "GBPUSD")
    then codes "FX:GBP/USD"
    else if eq_text sym (codes "USDJPY")
    then codes "FX:USD/JPY"
    else if eq_text sym (codes "USDCHF")
    then codes "FX:USD/CHF"
    else if eq_text sym (codes "AUDUSD")
    then codes "FX:AUD/USD"
    else if one_of sym (codes "XAUUSD" ∷ codes "GOLD" ∷ codes "GCF" ∷ [])
    then codes "METAL:XAU/USD"
    else if one_of sym (codes "XAGUSD" ∷ codes "SILVER" ∷ codes "SIF" ∷ [])
    then codes "METAL:XAG/USD"
    else if one_of sym (codes "WTIUSD" ∷ codes "CL" ∷ codes "CLF" ∷ codes "OIL" ∷ [])
    then codes "COMMODITY:WTI/USD"
    else if one_of sym (codes "US10Y" ∷ codes "TNX" ∷ [])
    then codes "RATE:US10Y"
    else codes "UNKNOWN:" ++ upper symbol

unfoldable pub to_canonical : Text → Text → Text
unfolding guess_canonical
to_canonical provider symbol =
    elim (find_key (lower (strip provider), upper (strip symbol)) provider_to_canonical) [
      | some canonical ↦ canonical
      | none ↦ guess_canonical (compact (upper (strip symbol))) symbol
    ]

-- `s.split("/")[0]` and `[1]`, of a text with a slash
abbrev pub first_parts : Text → Text × Text
first_parts s = elim (split_at b'/' s) [
  | none ↦ (s, [])
  | some p ↦ (p.0, elim (split_at b'/' p.1) [ none ↦ p.1 | some q ↦ q.0 ])
]

-- The short names, then the guesses.
unfoldable pub guess_input : Text → Text → Text
guess_input clean input =
    if one_of clean (codes "BTC" ∷ codes "BTCUSD" ∷ codes "BTCUSDT" ∷ [])
    then codes "CRYPTO:BTC/USD"
    else if one_of clean (codes "ETH" ∷ codes "ETHUSD" ∷ codes "ETHUSDT" ∷ [])
    then codes "CRYPTO:ETH/USD"
    else if eq_text clean (codes "EURUSD")
    then codes "FX:EUR/USD"
    else if eq_text clean (codes "GBPUSD")
    then codes "FX:GBP/USD"
    else if eq_text clean (codes "USDJPY")
    then codes "FX:USD/JPY"
    else if eq_text clean (codes "USDCHF")
    then codes "FX:USD/CHF"
    else if eq_text clean (codes "AUDUSD")
    then codes "FX:AUD/USD"
    else if one_of clean (codes "XAUUSD" ∷ codes "GOLD" ∷ [])
    then codes "METAL:XAU/USD"
    else if one_of clean (codes "XAGUSD" ∷ codes "SILVER" ∷ [])
    then codes "METAL:XAG/USD"
    else if one_of clean (codes "WTIUSD" ∷ codes "OIL" ∷ codes "WTI" ∷ [])
    then codes "COMMODITY:WTI/USD"
    else if one_of clean (codes "US10Y" ∷ codes "TNX" ∷ [])
    then codes "RATE:US10Y"
    else if contains b'/' input
    then codes "CRYPTO:" ++ (first_parts input).0 ++ b'/' ∷ (first_parts input).1
    else codes "UNKNOWN:" ++ input

-- `resolve_canonical`, of the input stripped and in upper case
unfoldable pub resolve_input : Text → Text
unfolding guess_input
resolve_input input =
    if contains b':' input && contains b'/' input then input else guess_input (compact input) input

unfoldable pub resolve_canonical : Text → Text
resolve_canonical input = resolve_input (upper (strip input))

-- The base and the quote of a canonical symbol that has no entry for the provider.
unfoldable pub join_symbol : Text → Raises Text
join_symbol canonical = do parsed ← parse_canonical canonical; ok (parsed.base ++ parsed.quote)

-- `if meta and provider.lower() in meta`
unfoldable pub to_provider_symbol : Text → Text → Raises Text
to_provider_symbol canonical provider = elim (find (upper (strip canonical)) default_symbol_map) [
  | none ↦ join_symbol (upper (strip canonical))
  | some meta ↦ elim (find (lower provider) meta) [
    | none ↦ join_symbol (upper (strip canonical))
    | some symbol ↦ ok symbol
  ]
]
