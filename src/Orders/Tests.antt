-- ===== src/Orders/Tests.antt =====
-- apps/api/routes/execution.py on concrete requests, with an exchange that accepts nothing.
use mach.Prelude.{
  Exception, ◌⊎◌, ◌↔◌, true, ◌≡◌, refl, [], ◌∷◌, ◌++◌, Option, none, some, ok, raised, value_error,
}
use mach.Prelude.Int.{ℤ, pos}
use mach.Text.{Text, codes, eq_text, lower}
use mach.Float.Fixed.{Fixed, fixed_float}
use mach.Delta.Json.{Json, null, truthy}
use mach.Orders.{place_order, Library, Client}
use mach.Orders.Route.{
  Attributes, OrderPlaceRequest, OrderCancelRequest, simulated_order, get_account_balances,
  get_account_positions, place_order_route, cancel_order_route,
}
use mach.Orders.Signed.{Sends, routes-Sends}
use mach.Orders.Outcome.{Accepts, post, place_order-Accepts}
open fixed_float use {decimal as num, to_int}

-- An exchange that refuses every request with status 400.
abbrev refusing : Library Fixed
refusing = record {
  hmac_sha256 = λ secret message. secret ++ message;
  time_text = codes "17";
  dumps = λ body. codes "body";
  reader = record {
    float_of = λ s. raised value_error;
    int_of = λ s. ok (pos 7);
    instant_of = λ s. raised value_error;
    from_timestamp = λ x. raised value_error;
    text_of = λ j. codes "65000.0";
  };
  send = λ r. ok (record { status = 400; content = ok null });
}

abbrev keyed : Attributes
keyed =
    (codes "delta_api_key", codes "key")
    ∷ (codes "delta_api_secret", [])
    ∷ (codes "delta_rest_url", codes "https://x/")
    ∷ []

abbrev keyed_client : Client
keyed_client = record {
  base_url = codes "https://x";
  api_key = codes "key";
  api_secret = codes "demo_secret";
}

abbrev known : Text → Option Text
known s = some (codes "BTCUSD")

abbrev buy : OrderPlaceRequest Fixed
buy = record {
  symbol = codes "BTCUSD";
  side = codes "BUY";
  quantity = num 3 0;
  order_type = codes "market";
  price = none;
}

abbrev cancel : OrderCancelRequest
cancel = record { symbol = codes "BTCUSD"; order_id = codes "7" }

-- What is refused is shown as filled.
refused_fills :
    (simulated_order refusing (codes "1") (codes "BTCUSD") buy (pos 3)).state ≡ codes "filled"
unfolding simulated_order lower eq_text
refused_fills = refl

routes-Sends_example :
    Sends refusing keyed (get_account_balances refusing keyed).1
    × Sends refusing keyed (get_account_positions refusing keyed).1
    × Sends refusing keyed (place_order_route refusing known keyed (codes "1") buy).1
    × Sends refusing keyed (cancel_order_route refusing known keyed cancel).1
routes-Sends_example = routes-Sends refusing keyed known (codes "1") buy cancel

place_order-Accepts_example :
    ((x : Exception) × (to_int (num 3 0) ≡ raised x)
      × (place_order refusing keyed_client
            (codes "BTCUSD")
            (codes "buy")
            (num 3 0)
            (codes "market")
            none
          ≡ raised x))
    ⊎ ((size : ℤ) × (v : Json Fixed) × (to_int (num 3 0) ≡ ok size)
        × (place_order refusing keyed_client
              (codes "BTCUSD")
              (codes "buy")
              (num 3 0)
              (codes "market")
              none
            ≡ ok (
              post refusing keyed_client (codes "BTCUSD") (codes "buy") size (codes "market") none,
              v,
            ))
        × ((w : Json Fixed)
            → Accepts refusing
                (refusing.send (
                  post refusing keyed_client
                    (codes "BTCUSD")
                    (codes "buy")
                    size
                    (codes "market")
                    none))
                w
            → w ≡ v)
        × ((truthy v ≡ true)
            ↔ Accepts refusing
                (refusing.send (
                  post refusing keyed_client
                    (codes "BTCUSD")
                    (codes "buy")
                    size
                    (codes "market")
                    none))
                v))
place_order-Accepts_example =
    place_order-Accepts refusing keyed_client (codes "BTCUSD") (codes "buy") (codes "market")
      (num 3 0) none

abbrev no_values : Text → Text
no_values k = []
