-- ===== src/Orders.antt =====
-- swaram/providers/crypto/delta_private.py: the client that signs requests to the exchange. The hash,
-- the clock, `json.dumps`, Python's readers and the exchange itself are parameters. A call gives the
-- request that it sends beside what it returns, in which `None` is `null`.
pub mod Route
pub mod Signed
pub mod Outcome
mod Tests
use mach.Prelude.{
  ℕ, Bool, true, false, ◌&&◌, ◌||◌, List, [], ◌∷◌, ◌++◌, Option, none, some, Raises, ok, raised,
  ◌>>=◌, ◌==◌, if◌then◌else◌,
}
use mach.Prelude.Int.{ℤ}
use mach.Text.{Text, codes, eq_text, lower, upper}
use mach.Float.{Float}
use mach.Delta.Json.{Json, null, number, Reader, get}

-- A value in the body of a request.
pub data BodyValue : Type 0 where
  written : Text → BodyValue
  whole : ℤ → BodyValue

-- The type of the content is always JSON.
pub record Headers : Type 0 where
  pub api_key : Text
  pub signature : Text
  pub timestamp : Text

pub record Request : Type 0 where
  pub method : Text
  pub url : Text
  pub headers : Option Headers
  pub body : Option Text

-- What the exchange answers: the status, and the JSON of the body, which may be malformed.
pub record Reply {ℓ} (F : Type ℓ) : Type ℓ where
  pub status : ℕ
  pub content : Raises (Json F)

-- `hmac.new(secret, message, sha256).hexdigest()`, `str(int(time.time()))`, `json.dumps`, the readers,
-- and the network.
pub record Library {ℓ} (F : Type ℓ) : Type ℓ where
  pub hmac_sha256 : Text → Text → Text
  pub time_text : Text
  pub dumps : List (Text × BodyValue) → Text
  pub reader : Reader F
  pub send : Request → Raises (Reply F)

pub record Client : Type 0 where
  pub base_url : Text
  pub api_key : Text
  pub api_secret : Text

-- `s.rstrip("/")`
unfoldable pub rstrip_slash : Text → Text
rstrip_slash [] = []
rstrip_slash (c ∷ s) = elim (rstrip_slash s) [
  | [] ↦ if c == b'/' then [] else c ∷ []
  | d ∷ t ↦ c ∷ d ∷ t
]

unfoldable pub new_client : Text → Text → Text → Client
unfolding rstrip_slash
new_client base_url key secret = record {
  base_url = rstrip_slash base_url;
  api_key = key;
  api_secret = secret;
}

module _ {ℓ} {F : Type ℓ} (lib : Library F) where
  unfoldable pub generate_delta_signature : Text → Text → Text → Text → Text → Text → Text
  unfolding upper
  generate_delta_signature secret method timestamp path query_params body =
      lib.hmac_sha256 secret (upper method ++ timestamp ++ path ++ query_params ++ body)

  -- No headers where the key or the secret is empty.
  unfoldable pub get_headers : Client → Text → Text → Text → Text → Option Headers
  unfolding eq_text generate_delta_signature
  get_headers c method path query_params body =
      if eq_text c.api_key [] || eq_text c.api_secret []
      then none
      else some (record {
        api_key = c.api_key;
        signature =
            generate_delta_signature c.api_secret method lib.time_text path query_params body;
        timestamp = lib.time_text;
      })

  abbrev pub read_request : Client → Text → Request
  read_request c path = record {
    method = codes "GET";
    url = c.base_url ++ path;
    headers = get_headers c (codes "GET") path [] [];
    body = none;
  }

  abbrev pub write_request : Client → Text → Text → Request
  write_request c method body = record {
    method = method;
    url = c.base_url ++ codes "/v2/orders";
    headers = get_headers c method (codes "/v2/orders") [] body;
    body = some body;
  }

module _ {ℓ} {F : Type ℓ} ⦃fl : Float F⦄ where
  -- `except Exception: return None`
  abbrev pub or_null : Raises (Json F) → Json F
  or_null (ok j) = j
  or_null (raised e) = null

  -- The body is read only where the status is 200.
  unfoldable pub result_of : Raises (Reply F) → Json F
  result_of reply = or_null (do
    r ← reply
    if r.status == 200 then (do j ← r.content; get (codes "result") j) else ok null)

  -- The body is read first, and the result is taken where the status is accepted.
  unfoldable pub accepted_result : (ℕ → Bool) → Raises (Reply F) → Json F
  accepted_result accepts reply =
      or_null
        (do r ← reply; j ← r.content; if accepts r.status then get (codes "result") j else ok null)

module _ {ℓ} {F : Type ℓ} ⦃fl : Float F⦄ (lib : Library F) where
  open fl use {to_int}

  unfoldable pub get_balances : Client → Request × Json F
  unfolding result_of
  get_balances c =
      let r = read_request lib c (codes "/v2/wallet/balances") in (r, result_of (lib.send r))

  unfoldable pub get_positions : Client → Request × Json F
  unfolding result_of
  get_positions c =
      let r = read_request lib c (codes "/v2/positions") in (r, result_of (lib.send r))

  abbrev pub limit_field : Option F → List (Text × BodyValue)
  limit_field none = []
  limit_field (some price) = (codes "limit_price", written (lib.reader.text_of (number price))) ∷ []

  abbrev pub order_body : Text → Text → ℤ → Text → Option F → List (Text × BodyValue)
  order_body symbol side size order_type price =
      ((codes "symbol", written symbol)
        ∷ (codes "side", written (lower side))
        ∷ (codes "size", whole size)
        ∷ (codes "order_type", written (lower order_type))
        ∷ [])
      ++ limit_field price

  -- The quantity is converted before anything is sent.
  unfoldable pub place_order :
      Client → Text → Text → F → Text → Option F → Raises (Request × Json F)
  unfolding accepted_result
  place_order c symbol side quantity order_type price = do
    size ← to_int quantity
    let r =
        write_request lib c (codes "POST")
          (lib.dumps (order_body symbol side size order_type price))
    ok (r, accepted_result (λ n. n == 200 || n == 201) (lib.send r))

  -- The identifier is converted before anything is sent.
  unfoldable pub cancel_order : Client → Text → Text → Raises (Request × Json F)
  unfolding accepted_result
  cancel_order c symbol order_id = do
    id ← lib.reader.int_of order_id
    let r =
        write_request lib c (codes "DELETE")
          (lib.dumps ((codes "symbol", written symbol) ∷ (codes "id", whole id) ∷ []))
    ok (r, accepted_result (λ n. n == 200) (lib.send r))
