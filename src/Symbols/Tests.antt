-- ===== src/Symbols/Tests.antt =====
-- The symbols on concrete texts.
use mach.Prelude.{◌≡◌, ◌↔◌, refl, [], ◌∷◌, true, some, ok, raised, value_error}
use mach.Text.{Text, codes, eq_text, one_of, lower, upper, strip, lstrip, rstrip, contains, remove}
use mach.Symbols.Parse.{
  CanonicalSymbol, value, parse_canonical, match_canonical, match_groups, split_at, all_of,
}
use mach.Symbols.{
  Meta, to_canonical, to_provider_symbol, resolve_canonical, resolve_input, guess_input,
  join_symbol, find, default_symbol_map, is_provider,
}
use mach.Symbols.Canonical.{IsCanonical, parse_canonical_iff}
use mach.Symbols.Table.{to_canonical-to_provider_symbol}

abbrev bitcoin : CanonicalSymbol
bitcoin = record { asset_class = codes "crypto"; base = codes "BTC"; quote = codes "USD" }

bitcoin-IsCanonical : IsCanonical bitcoin
unfolding all_of
bitcoin-IsCanonical = record { class_ok = refl; base_ok = refl; quote_ok = refl }

abbrev typed : Text
typed = codes " crypto:btc/usd "

parse_canonical_iff_example :
    (parse_canonical typed ≡ ok bitcoin)
    ↔ (IsCanonical bitcoin × (value bitcoin ≡ upper (strip typed)))
parse_canonical_iff_example = parse_canonical_iff typed bitcoin

parses : parse_canonical typed ≡ ok bitcoin
unfolding parse_canonical match_canonical match_groups split_at all_of lower upper strip lstrip
    rstrip
parses = refl

abbrev gold : Meta
gold =
    (codes "asset_class", codes "metal")
    ∷ (codes "base", codes "XAU")
    ∷ (codes "quote", codes "USD")
    ∷ (codes "ctrader", codes "XAUUSD")
    ∷ []

gold_found : find (upper (strip (codes " metal:xau/usd"))) default_symbol_map ≡ some gold
unfolding find default_symbol_map eq_text upper strip lstrip rstrip
gold_found = refl

ctrader_found : find (lower (codes "cTrader")) gold ≡ some (codes "XAUUSD")
unfolding find eq_text lower
ctrader_found = refl

ctrader_bare : strip (codes "cTrader") ≡ codes "cTrader"
unfolding strip lstrip rstrip
ctrader_bare = refl

ctrader_provider : is_provider (lower (codes "cTrader")) ≡ true
unfolding lower one_of eq_text
ctrader_provider = refl

to_canonical-to_provider_symbol_example :
    (to_provider_symbol (codes " metal:xau/usd") (codes "cTrader") ≡ ok (codes "XAUUSD"))
    × (to_canonical (codes "cTrader") (codes "XAUUSD") ≡ upper (strip (codes " metal:xau/usd")))
to_canonical-to_provider_symbol_example =
    to_canonical-to_provider_symbol (codes " metal:xau/usd") (codes "cTrader") (codes "XAUUSD") gold
      gold_found ctrader_found ctrader_provider ctrader_bare

-- The one canonical symbol of the table with no slash is not resolved to itself, and has no symbol
-- at a provider that its entry does not name.
rate_resolves : resolve_canonical (codes "RATE:US10Y") ≡ codes "UNKNOWN:RATE:US10Y"
unfolding resolve_canonical resolve_input guess_input one_of eq_text contains remove upper strip
    lstrip rstrip
rate_resolves = refl

rate_raises : to_provider_symbol (codes "RATE:US10Y") (codes "delta") ≡ raised value_error
unfolding to_provider_symbol join_symbol parse_canonical match_canonical match_groups split_at
    all_of find default_symbol_map one_of eq_text upper lower strip lstrip rstrip
rate_raises = refl
