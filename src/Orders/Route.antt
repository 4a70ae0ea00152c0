-- ===== src/Orders/Route.antt =====
-- apps/api/routes/execution.py: the routes of the account and of orders, over the attributes of
-- swaram/config/settings.py that are texts. The instruments that the database knows and the number
-- of a simulated order are parameters. Each route gives the request that it sends, if any, beside
-- its answer, in which times are left out.
use mach.Prelude.{
  List, [], ◌∷◌, Option, none, some, map, Raises, ok, raised, ◌>>=◌, attribute_error, if◌then◌else◌,
}
use mach.Prelude.Int.{ℤ}
use mach.Text.{Text, codes, eq_text, lower}
use mach.Dict.{lookup}
use mach.Float.{Float, nought}
use mach.Api.{Response, answer, http_error, failure}
use mach.Symbols.{resolve_canonical}
use mach.Delta.Json.{Json, null, boolean, number, string, array, object, truthy}
use mach.Orders.{
  Library, Client, Request, new_client, get_balances, get_positions, place_order, cancel_order,
}

abbrev pub Attributes : Type 0
Attributes = List (Text × Text)

-- The attributes of the class `Settings` that are texts.
abbrev pub setting_names : List Text
setting_names =
    codes "app_name"
    ∷ codes "environment"
    ∷ codes "log_level"
    ∷ codes "api_host"
    ∷ codes "timezone"
    ∷ codes "user_timezone"
    ∷ codes "database_url"
    ∷ codes "redis_url"
    ∷ codes "delta_ws_url"
    ∷ codes "delta_rest_url"
    ∷ codes "bybit_ws_url"
    ∷ codes "deribit_ws_url"
    ∷ []

-- `get_settings()`, from the values that the environment gives or that stand as defaults. What
-- else the environment names is ignored.
abbrev pub get_settings : (Text → Text) → Attributes
get_settings values = map (λ k. (k, values k)) setting_names

-- `settings.name`
unfoldable pub attribute : Text → Attributes → Raises Text
unfolding lookup
attribute k settings = elim (lookup k settings) [ none ↦ raised attribute_error | some v ↦ ok v ]

abbrev pub text_or : Text → Text → Text
text_or s default = if eq_text s [] then default else s

unfoldable pub get_private_client : Attributes → Raises Client
unfolding attribute new_client
get_private_client settings = do
  key ← attribute (codes "delta_api_key") settings
  secret ← attribute (codes "delta_api_secret") settings
  base_url ← attribute (codes "delta_rest_url") settings
  ok (new_client base_url (text_or key (codes "demo_key")) (text_or secret (codes "demo_secret")))

pub record OrderPlaceRequest {ℓ} (F : Type ℓ) : Type ℓ where
  pub symbol : Text
  pub side : Text
  pub quantity : F
  pub order_type : Text
  pub price : Option F

pub record OrderCancelRequest : Type 0 where
  pub symbol : Text
  pub order_id : Text

pub record SimulatedOrder : Type 0 where
  pub id : Text
  pub symbol : Text
  pub side : Text
  pub size : ℤ
  pub order_type : Text
  pub limit_price : Option Text
  pub state : Text
  pub average_fill_price : Text

pub record Cancelled : Type 0 where
  pub id : Text
  pub symbol : Text

-- The field "order" of an answer, whose status is always "success": the exchange's own result, or
-- one made up.
pub data Outcome {ℓ} (F : Type ℓ) (A : Type 0) : Type ℓ where
  confirmed : Json F → Outcome F A
  simulated : A → Outcome F A

pub record Balance : Type 0 where
  pub asset : Text
  pub balance : Text
  pub equity : Text
  pub available_margin : Text

abbrev pub placeholder_balances : List Balance
placeholder_balances =
    record {
      asset = codes "USDT";
      balance = codes "10000.00";
      equity = codes "10000.00";
      available_margin = codes "9500.00";
    }
    ∷ record {
      asset = codes "DETC";
      balance = codes "5.00000";
      equity = codes "5.00000";
      available_margin = codes "5.00000";
    }
    ∷ []

-- A call of the client as a route: what it raises is a failure, with nothing sent.
abbrev pub answered {ℓ} : {A : Type ℓ} → Raises (Request × A) → Response A × Option Request
answered (ok out) = (answer out.1, some out.0)
answered (raised e) = (failure e, none)

module _ {ℓ} {F : Type ℓ} where
  -- `if x is None`
  abbrev pub or_made_up : {A : Type 0} → Json F → A → Outcome F A
  or_made_up null a = simulated a
  or_made_up (boolean b) a = confirmed (boolean b)
  or_made_up (number x) a = confirmed (number x)
  or_made_up (string s) a = confirmed (string s)
  or_made_up (array xs) a = confirmed (array xs)
  or_made_up (object fs) a = confirmed (object fs)

module _ {ℓ} {F : Type ℓ} ⦃fl : Float F⦄ (lib : Library F) where
  open fl use {to_int, eq, decimal}

  unfoldable pub get_account_balances :
      Attributes → Response (Outcome F (List Balance)) × Option Request
  unfolding get_private_client get_balances
  get_account_balances settings = answered (do
    c ← get_private_client settings
    let out = get_balances lib c
    ok (out.0, or_made_up out.1 placeholder_balances))

  -- No positions are an empty list.
  unfoldable pub get_account_positions :
      Attributes → Response (Outcome F (List Balance)) × Option Request
  unfolding get_private_client get_positions
  get_account_positions settings = answered (do
    c ← get_private_client settings
    let out = get_positions lib c
    ok (out.0, or_made_up out.1 []))

  -- `str(price) if price else None`
  abbrev pub shown_limit : Option F → Option Text
  shown_limit none = none
  shown_limit (some price) =
      if eq price nought then none else some (lib.reader.text_of (number price))

  -- `price or 65000.0`
  abbrev pub fill_price : Option F → F
  fill_price none = decimal 65_000 0
  fill_price (some price) = if eq price nought then decimal 65_000 0 else price

  -- A market order is filled.
  unfoldable pub simulated_order : Text → Text → OrderPlaceRequest F → ℤ → SimulatedOrder
  unfolding lower eq_text
  simulated_order sim_id symbol r size = record {
    id = sim_id;
    symbol = symbol;
    side = lower r.side;
    size = size;
    order_type = lower r.order_type;
    limit_price = shown_limit r.price;
    state = if eq_text r.order_type (codes "market") then codes "filled" else codes "pending";
    average_fill_price = lib.reader.text_of (number (fill_price r.price));
  }

  unfoldable pub simulate : Text → Text → OrderPlaceRequest F → Raises SimulatedOrder
  unfolding simulated_order
  simulate sim_id symbol r = do size ← to_int r.quantity; ok (simulated_order sim_id symbol r size)

  -- `if not res`
  unfoldable pub place_known :
      Attributes → Text → Text → OrderPlaceRequest F → Raises (Request × Outcome F SimulatedOrder)
  unfolding get_private_client place_order truthy simulate
  place_known settings sim_id symbol r = do
    c ← get_private_client settings
    out ← place_order lib c symbol r.side r.quantity r.order_type r.price
    if truthy out.1
        then ok (out.0, confirmed out.1)
        else (do order ← simulate sim_id symbol r; ok (out.0, simulated order))

  unfoldable pub cancel_known :
      Attributes → Text → OrderCancelRequest → Raises (Request × Outcome F Cancelled)
  unfolding get_private_client cancel_order truthy
  cancel_known settings symbol r = do
    c ← get_private_client settings
    out ← cancel_order lib c symbol r.order_id
    ok (
      out.0,
      if truthy out.1
          then confirmed out.1
          else simulated (record { id = r.order_id; symbol = symbol }),
    )

  -- The database gives the name of an instrument at the provider.
  module _ (instruments : Text → Option Text) (settings : Attributes) where
    unfoldable pub place_order_route :
        Text → OrderPlaceRequest F → Response (Outcome F SimulatedOrder) × Option Request
    unfolding place_known resolve_canonical
    place_order_route sim_id r = elim (instruments (resolve_canonical r.symbol)) [
      | none ↦ (http_error 404, none)
      | some symbol ↦ answered (place_known settings sim_id symbol r)
    ]

    unfoldable pub cancel_order_route :
        OrderCancelRequest → Response (Outcome F Cancelled) × Option Request
    unfolding cancel_known resolve_canonical
    cancel_order_route r = elim (instruments (resolve_canonical r.symbol)) [
      | none ↦ (http_error 404, none)
      | some symbol ↦ answered (cancel_known settings symbol r)
    ]
