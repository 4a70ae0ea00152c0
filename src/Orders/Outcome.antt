-- ===== src/Orders/Outcome.antt =====
-- apps/api/routes/execution.py: what the routes answer.
use mach.Prelude.{
  Exception, Raises-cases, sym, ◌⊎◌, ◌↔◌, raised, ◌≡◌, refl, inl, inr, Bool, true, false, ◌||◌,
  ◌==◌, Option, none, some, Raises, ok, raised, bind_ok, ok-injective, if◌then◌else◌,
  attribute_error,
}
use mach.Prelude.Int.{ℤ}
use mach.Text.{Text, codes}
use mach.Float.{Float}
use mach.Api.{Response, http_error, failure}
use mach.Delta.Json.{Json, null, get, truthy}
use mach.Orders.{
  Request, Reply, Library, Client, or_null, accepted_result, write_request, order_body, place_order,
}

module _ {ℓ} {F : Type ℓ} ⦃fl : Float F⦄ (lib : Library F) where
  open fl use {to_int}

  -- The exchange accepts an order, with a result.
  pub record Accepts (reply : Raises (Reply F)) (v : Json F) : Type ℓ where
    pub answered : Reply F
    pub content : Json F
    pub replies : reply ≡ ok answered
    pub status : (answered.status == 200 || answered.status == 201) ≡ true
    pub reads : answered.content ≡ ok content
    pub result : get (codes "result") content ≡ ok v
    pub full : truthy v ≡ true

  or_null_full : (o : Raises (Json F)) → truthy (or_null o) ≡ true → o ≡ ok (or_null o)
  unfolding truthy
  or_null_full (ok j) h = refl
  or_null_full (raised e) h = absurd cc

  if_full :
      (b : Bool) (o : Raises (Json F)) {v : Json F}
      → truthy v ≡ true
      → (if b then o else ok null) ≡ ok v
      → (b ≡ true) × (o ≡ ok v)
  unfolding truthy
  if_full true o full h = (refl, h)
  if_full false o full h = absurd (let same = ok-injective h in let f = rw (← same) at full in cc)

  accepted_result-Accepts :
      (reply : Raises (Reply F))
      → truthy (accepted_result (λ n. n == 200 || n == 201) reply) ≡ true
      → Accepts reply (accepted_result (λ n. n == 200 || n == 201) reply)
  unfolding accepted_result truthy
  accepted_result-Accepts reply h =
      let (r, replies, h1) = bind_ok reply _ (or_null_full _ h) in
      let (j, reads, h2) = bind_ok r.content _ h1 in
      let (status, result) = if_full _ (get (codes "result") j) h h2 in
      record {
        answered = r;
        content = j;
        replies = replies;
        status = status;
        reads = reads;
        result = result;
        full = h;
      }

  Accepts-accepted_result :
      (reply : Raises (Reply F)) (v : Json F)
      → Accepts reply v
      → accepted_result (λ n. n == 200 || n == 201) reply ≡ v
  unfolding accepted_result
  Accepts-accepted_result reply v a = rw (a.replies, a.reads, a.status, a.result) refl

  abbrev pub post : Client → Text → Text → ℤ → Text → Option F → Request
  post c symbol side size order_type price =
      write_request lib c (codes "POST")
        (lib.dumps (order_body lib symbol side size order_type price))

  accepted_result-truthy_iff :
      (reply : Raises (Reply F))
      → let v = accepted_result (λ n. n == 200 || n == 201) reply in
        (truthy v ≡ true) ↔ Accepts reply v
  accepted_result-truthy_iff reply = (accepted_result-Accepts reply, λ a. a.full)

  -- `place_order` of every client, for every order and whatever the exchange does: where the quantity
  -- has no whole part it raises what `int` raises, and nothing is sent. Else one order is sent, with
  -- the whole part as its size; the call raises nothing, and any result but the one that the exchange
  -- gives with a status of 200 or 201 is empty: a refusal, a network failure and a malformed answer
  -- all come back as an empty result.
  pub place_order-Accepts :
      (c : Client) (symbol side order_type : Text) (quantity : F) (price : Option F)
      → ((x : Exception) × (to_int quantity ≡ raised x)
          × (place_order lib c symbol side quantity order_type price ≡ raised x))
        ⊎ ((size : ℤ) × (v : Json F) × (to_int quantity ≡ ok size)
            × (place_order lib c symbol side quantity order_type price
                ≡ ok (post c symbol side size order_type price, v))
            × ((w : Json F)
                → Accepts (lib.send (post c symbol side size order_type price)) w
                → w ≡ v)
            × ((truthy v ≡ true) ↔ Accepts (lib.send (post c symbol side size order_type price)) v))
  unfolding place_order
  place_order-Accepts c symbol side order_type quantity price =
      elim (Raises-cases (to_int quantity)) [
        | inr (x, bad) ↦ inl (x, bad, rw (place_order, bad) refl)
        | inl (size, whole) ↦
            let reply = lib.send (post c symbol side size order_type price) in
            inr (
              size,
              accepted_result (λ n. n == 200 || n == 201) reply,
              whole,
              rw (place_order, whole) refl,
              λ w a. sym (Accepts-accepted_result reply w a),
              accepted_result-truthy_iff reply,
            )
      ]

  abbrev pub lost : {A : Type ℓ} → Option Text → Response A × Option Request
  lost none = (http_error 404, none)
  lost (some symbol) = (failure attribute_error, none)
