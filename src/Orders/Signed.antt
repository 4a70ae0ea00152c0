-- ===== src/Orders/Signed.antt =====
-- apps/api/routes/execution.py: what is sent to the exchange carries a signature over itself.
use mach.Prelude.{
  ◌≡◌, refl, Bool, true, false, if◌then◌else◌, [], ◌∷◌, ◌++◌, Option, none, some, Raises,
  Raises-cases, bind_ok, ok-injective, ok, ◌>>=◌, subst, append-nil, raised, inl, inr, ap, ◌∙◌,
}
use mach.Text.{Text, codes, upper, eq_text}
use mach.Float.{Float}
use mach.Orders.{
  Headers, Request, Library, Client, get_headers, generate_delta_signature, read_request,
  write_request, get_balances, get_positions, place_order, cancel_order, new_client,
}
use mach.Symbols.{resolve_canonical}
use mach.Orders.Route.{
  Attributes, get_private_client, OrderPlaceRequest, OrderCancelRequest, answered, attribute,
  text_or, get_account_balances, get_account_positions, place_known, cancel_known,
  place_order_route, cancel_order_route, Outcome, confirmed, simulated, SimulatedOrder, Cancelled,
  simulate,
}
use mach.Api.{Response, http_error}
use mach.Delta.Json.{Json, truthy}

abbrev body_text : Option Text → Text
body_text none = []
body_text (some s) = s

-- The exchange's side: the headers carry the client's key, and the signature of the request's own
-- method, time, path and body under the client's secret.
pub record IsSigned {ℓ} {F : Type ℓ} (lib : Library F) (c : Client) (r : Request) : Type 0 where
  pub path : Text
  pub headers : Headers
  pub reaches : r.url ≡ c.base_url ++ path
  pub carries : r.headers ≡ some headers
  pub key : headers.api_key ≡ c.api_key
  pub time : headers.timestamp ≡ lib.time_text
  pub signature :
      headers.signature
      ≡ lib.hmac_sha256 c.api_secret (r.method ++ headers.timestamp ++ path ++ body_text r.body)

-- What a route sends, if anything, is signed with the credentials of the settings.
pub data Sends {ℓ} {F : Type ℓ} (lib : Library F) (settings : Attributes)
    : Option Request → Type 0 where
  silent : Sends lib settings none
  signed :
      {r : Request} (c : Client)
      → get_private_client settings ≡ ok c
      → IsSigned lib c r
      → Sends lib settings (some r)

record HasKeys (c : Client) : Type 0 where
  key : eq_text c.api_key [] ≡ false
  secret : eq_text c.api_secret [] ≡ false

text_or_full : (s d : Text) → eq_text d [] ≡ false → eq_text (text_or s d) [] ≡ false
unfolding eq_text
text_or_full [] d h = h
text_or_full (c ∷ s) d h = refl

-- The demonstration's credentials stand in for empty ones.
get_private_client-HasKeys :
    (settings : Attributes) (c : Client) → get_private_client settings ≡ ok c → HasKeys c
unfolding get_private_client new_client eq_text
get_private_client-HasKeys settings c h =
    let (key, _, h1) = bind_ok (attribute (codes "delta_api_key") settings) _ h in
    let (secret, _, h2) = bind_ok (attribute (codes "delta_api_secret") settings) _ h1 in
    let (url, _, h3) = bind_ok (attribute (codes "delta_rest_url") settings) _ h2 in
    subst HasKeys (ok-injective h3) (record {
      key = text_or_full key (codes "demo_key") refl;
      secret = text_or_full secret (codes "demo_secret") refl;
    })

module _ {ℓ} {F : Type ℓ} ⦃fl : Float F⦄ (lib : Library F) where
  open fl use {to_int}

  get_headers-keys :
      (c : Client) (method path query body : Text)
      → HasKeys c
      → get_headers lib c method path query body
        ≡ some (record {
          api_key = c.api_key;
          signature =
              generate_delta_signature lib c.api_secret method lib.time_text path query body;
          timestamp = lib.time_text;
        })
  unfolding get_headers
  get_headers-keys c method path query body h = rw (h.key, h.secret) refl

  read_request-IsSigned :
      (c : Client) (path : Text) → HasKeys c → IsSigned lib c (read_request lib c path)
  unfolding generate_delta_signature upper
  read_request-IsSigned c path h = record {
    path = path;
    headers = _;
    reaches = refl;
    carries = get_headers-keys c (codes "GET") path [] [] h;
    key = refl;
    time = refl;
    signature = ap (λ m. lib.hmac_sha256 c.api_secret m) (append-nil _);
  }

  write_request-IsSigned :
      (c : Client) (method body : Text)
      → upper method ≡ method
      → HasKeys c
      → IsSigned lib c (write_request lib c method body)
  unfolding generate_delta_signature
  write_request-IsSigned c method body e h = record {
    path = codes "/v2/orders";
    headers = _;
    reaches = refl;
    carries = get_headers-keys c method (codes "/v2/orders") [] body h;
    key = refl;
    time = refl;
    signature =
        ap
          (λ m.
            lib.hmac_sha256 c.api_secret (m ++ lib.time_text ++ codes "/v2/orders" ++ [] ++ body))
          e
        ∙ ap (λ m. lib.hmac_sha256 c.api_secret (m ++ body)) (append-nil _);
  }

  place_order-request :
      (c : Client) (symbol side kind : Text) (quantity : F) (price : Option F)
      {out : Request × Json F}
      → place_order lib c symbol side quantity kind price ≡ ok out
      → (body : Text) × (write_request lib c (codes "POST") body ≡ out.0)
  unfolding place_order
  place_order-request c symbol side kind quantity price h =
      let (size, _, e) = bind_ok (to_int quantity) _ h in (_, ap (λ x. x.0) (ok-injective e))

  cancel_order-request :
      (c : Client) (symbol order_id : Text) {out : Request × Json F}
      → cancel_order lib c symbol order_id ≡ ok out
      → (body : Text) × (write_request lib c (codes "DELETE") body ≡ out.0)
  unfolding cancel_order
  cancel_order-request c symbol order_id h =
      let (id, _, e) = bind_ok (lib.reader.int_of order_id) _ h in
      (_, ap (λ x. x.0) (ok-injective e))

  module _ (settings : Attributes) where
    answered-Sends :
        {A : Type ℓ} (x : Raises (Request × A))
        → ((r : Request) (a : A) → x ≡ ok (r, a) → Sends lib settings (some r))
        → Sends lib settings (answered x).1
    answered-Sends (ok out) h = h out.0 out.1 refl
    answered-Sends (raised e) h = silent

    get_account_balances-Sends : Sends lib settings (get_account_balances lib settings).1
    unfolding get_account_balances get_balances
    get_account_balances-Sends = elim (Raises-cases (get_private_client settings)) [
      | inl (c, e) ↦
          rw e (signed c e (read_request-IsSigned c _ (get_private_client-HasKeys settings c e)))
      | inr (x, e) ↦ rw e silent
    ]

    get_account_positions-Sends : Sends lib settings (get_account_positions lib settings).1
    unfolding get_account_positions get_positions
    get_account_positions-Sends = elim (Raises-cases (get_private_client settings)) [
      | inl (c, e) ↦
          rw e (signed c e (read_request-IsSigned c _ (get_private_client-HasKeys settings c e)))
      | inr (x, e) ↦ rw e silent
    ]

    written-Sends :
        (c : Client) (method body : Text) {r : Request}
        → upper method ≡ method
        → get_private_client settings ≡ ok c
        → write_request lib c method body ≡ r
        → Sends lib settings (some r)
    written-Sends c method body shouts e same =
        subst (λ x. Sends lib settings (some x)) same
          (signed c e
            (write_request-IsSigned c method body shouts (get_private_client-HasKeys settings c e)))

    place_branch :
        (b : Bool) (o : Raises SimulatedOrder) (j : Json F) {r sent : Request}
        {a : Outcome F SimulatedOrder}
        → if◌then◌else◌ {A = Raises (Request × Outcome F SimulatedOrder)} b
            (ok (r, confirmed j))
            (do order ← o; ok (r, simulated order))
          ≡ ok (sent, a)
        → r ≡ sent
    place_branch true o j h = ap (λ x. x.0) (ok-injective h)
    place_branch false (ok order) j h = ap (λ x. x.0) (ok-injective h)
    place_branch false (raised e) j h = absurd cc

    place_known-Sends :
        (sim_id symbol : Text) (r : OrderPlaceRequest F) (sent : Request)
        (a : Outcome F SimulatedOrder)
        → place_known lib settings sim_id symbol r ≡ ok (sent, a)
        → Sends lib settings (some sent)
    unfolding place_known upper
    place_known-Sends sim_id symbol r sent a h =
        let (c, e, h1) = bind_ok (get_private_client settings) _ h in
        let (out, placed, h2) =
          bind_ok (place_order lib c symbol r.side r.quantity r.order_type r.price) _ h1 in
        let (body, made) =
          place_order-request c symbol r.side r.order_type r.quantity r.price placed in
        written-Sends c (codes "POST") body refl e
          (made ∙ place_branch (truthy out.1) (simulate lib sim_id symbol r) out.1 h2)

    cancel_known-Sends :
        (symbol : Text) (r : OrderCancelRequest) (sent : Request) (a : Outcome F Cancelled)
        → cancel_known lib settings symbol r ≡ ok (sent, a)
        → Sends lib settings (some sent)
    unfolding cancel_known upper
    cancel_known-Sends symbol r sent a h =
        let (c, e, h1) = bind_ok (get_private_client settings) _ h in
        let (out, placed, h2) = bind_ok (cancel_order lib c symbol r.order_id) _ h1 in
        let (body, made) = cancel_order-request c symbol r.order_id placed in
        written-Sends c (codes "DELETE") body refl e (made ∙ ap (λ x. x.0) (ok-injective h2))

    -- Whatever the settings, the instruments, the requests and the exchange's answers: what the four
    -- routes of the account and of orders send, if anything, carries the key of the settings' client,
    -- and the signature under its secret of the request's own method, time, path and body.
    pub routes-Sends :
        (instruments : Text → Option Text) (sim_id : Text) (place : OrderPlaceRequest F)
        (cancel : OrderCancelRequest)
        → Sends lib settings (get_account_balances lib settings).1
          × Sends lib settings (get_account_positions lib settings).1
          × Sends lib settings (place_order_route lib instruments settings sim_id place).1
          × Sends lib settings (cancel_order_route lib instruments settings cancel).1
    unfolding place_order_route cancel_order_route
    routes-Sends instruments sim_id place cancel = (
      get_account_balances-Sends,
      get_account_positions-Sends,
      elim (instruments (resolve_canonical place.symbol))
          as (λ o.
            Sends lib settings
              (elim o as (λ _. Response (Outcome F SimulatedOrder) × Option Request) [
                | none ↦ (http_error 404, none)
                | some symbol ↦ answered (place_known lib settings sim_id symbol place)
              ]).1) [
                | none ↦ silent
                | some symbol ↦
                    answered-Sends (place_known lib settings sim_id symbol place)
                      (place_known-Sends sim_id symbol place)
              ],
      elim (instruments (resolve_canonical cancel.symbol))
          as (λ o.
            Sends lib settings
              (elim o as (λ _. Response (Outcome F Cancelled) × Option Request) [
                | none ↦ (http_error 404, none)
                | some symbol ↦ answered (cancel_known lib settings symbol cancel)
              ]).1) [
                | none ↦ silent
                | some symbol ↦
                    answered-Sends (cancel_known lib settings symbol cancel)
                      (cancel_known-Sends symbol cancel)
              ],
    )
