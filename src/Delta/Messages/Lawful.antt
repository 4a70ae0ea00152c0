-- ===== src/Delta/Messages/Lawful.antt =====
-- swaram/providers/crypto/delta_ws.py: what reading a message does to the provider's health, and the
-- session with this parser.
use mach.Prelude.{
  ℕ, ◌≤◌, ◌≡◌, refl, ◌⊎◌, inl, inr, Bool, true, false, List, [], Option, none, some, Exception,
  Raises, ok, raised, Raises-cases, Option-cases, if◌then◌else◌, sym, ap,
}
use mach.Text.{Text, codes}
use mach.Float.{Float}
use mach.Health.{ProviderHealth, record_message}
use mach.Delta.{Provider}
use mach.Delta.Json.{Json, Reader, string, has_part, get_or}
use mach.Delta.Session.{Parser, IsParser, Run, IsSession, Run-IsSession}
use mach.Delta.Messages.Shared.{either_text, Emission, parse_with, payload_of, symbol_of, source_of}
use mach.Delta.Messages.Trades.{candle_parts, trade_events}
use mach.Delta.Messages.{
  parse_ticker, parse_trades, parse_candle, parse_orderbook, parse_mark_spot, parse_by_part,
  dispatch, parse_message,
}

module _ {ℓ} {F : Type ℓ} ⦃fl : Float F⦄ (rd : Reader F) (now : ℕ) where
  -- Nothing is recorded and no event given, or one message is recorded.
  pub Effect : ProviderHealth → ProviderHealth × Raises (List (Emission F)) → Type ℓ
  Effect h out =
      ((out.0 ≡ h) × ((events : List (Emission F)) → out.1 ≡ ok events → events ≡ []))
      ⊎ ((src : Option ℕ) × (out.0 ≡ record_message h now src))

  raised-Effect : (h : ProviderHealth) (e : Exception) → Effect h (h, raised e)
  unfolding Effect
  raised-Effect h e = inl (refl, λ events lost. absurd cc)

  empty-Effect : (h : ProviderHealth) → Effect h (h, ok [])
  unfolding Effect
  empty-Effect h =
      inl (refl, λ events same. ap (λ r. elim r [ ok es ↦ es | raised x ↦ [] ]) (sym same))

  recorded-Effect :
      (h : ProviderHealth) (src : Option ℕ) (out : Raises (List (Emission F)))
      → Effect h (record_message h now src, out)
  unfolding Effect
  recorded-Effect h src out = inr (src, refl)

  parse_with-Effect :
      (symbol : Raises (Option Text)) (src : Raises (Option ℕ))
      (build : Text → Option ℕ → Raises (List (Emission F))) (h : ProviderHealth)
      → Effect h (parse_with now symbol src build h)
  unfolding parse_with
  parse_with-Effect (raised e) src build h = raised-Effect h e
  parse_with-Effect (ok none) src build h = empty-Effect h
  parse_with-Effect (ok (some c)) (raised e) build h = raised-Effect h e
  parse_with-Effect (ok (some c)) (ok s) build h = recorded-Effect h s (build c s)

  parse_ticker-Effect : (msg : Json F) (h : ProviderHealth) → Effect h (parse_ticker rd now msg h)
  unfolding parse_ticker
  parse_ticker-Effect msg h = elim (Raises-cases (payload_of msg)) [
    | inl (payload, e) ↦ rw (parse_ticker, e) (parse_with-Effect _ _ _ h)
    | inr (x, e) ↦ rw (parse_ticker, e) (raised-Effect h x)
  ]

  parse_orderbook-Effect :
      (msg : Json F) (h : ProviderHealth) → Effect h (parse_orderbook rd now msg h)
  unfolding parse_orderbook
  parse_orderbook-Effect msg h = elim (Raises-cases (payload_of msg)) [
    | inl (payload, e) ↦ rw (parse_orderbook, e) (parse_with-Effect _ _ _ h)
    | inr (x, e) ↦ rw (parse_orderbook, e) (raised-Effect h x)
  ]

  parse_candle-Effect : (msg : Json F) (h : ProviderHealth) → Effect h (parse_candle rd now msg h)
  unfolding parse_candle
  parse_candle-Effect msg h = elim (Raises-cases (candle_parts rd now msg)) [
    | inr (x, e) ↦ rw (parse_candle, e) (raised-Effect h x)
    | inl (parts, e) ↦ elim (Option-cases parts) [
      | inl f ↦ rw (parse_candle, e, f) (empty-Effect h)
      | inr (c, f) ↦ rw (parse_candle, e, f) (recorded-Effect h _ _)
    ]
  ]

  if-Effect :
      (b : Bool) (h : ProviderHealth) (x y : ProviderHealth × Raises (List (Emission F)))
      → Effect h x
      → Effect h y
      → Effect h (if b then x else y)
  if-Effect true h x y p q = p
  if-Effect false h x y p q = q

  parse_by_part-Effect :
      (kind msg : Json F) (h : ProviderHealth) → Effect h (parse_by_part rd now kind msg h)
  unfolding parse_by_part parse_mark_spot
  parse_by_part-Effect kind msg h = elim (Raises-cases (has_part (codes "candlestick") kind)) [
    | inr (x, e) ↦ rw (parse_by_part, e) (raised-Effect h x)
    | inl (candles, e) ↦ elim (Raises-cases (has_part (codes "orderbook") kind)) [
      | inr (x, f) ↦
          rw (parse_by_part, e, f)
            (if-Effect _ h _ _ (parse_candle-Effect msg h) (raised-Effect h x))
      | inl (books, f) ↦
          rw (parse_by_part, e, f)
            (if-Effect _ h _ _ (parse_candle-Effect msg h) (
              if-Effect books h _ _ (parse_orderbook-Effect msg h)
                (if-Effect _ h _ _ (parse_with-Effect _ _ _ h) (empty-Effect h))))
    ]
  ]

  parse_trades-Effect : (msg : Json F) (h : ProviderHealth) → Effect h (parse_trades rd now msg h)
  unfolding parse_trades
  parse_trades-Effect msg h =
      parse_with-Effect (symbol_of msg) (source_of rd now msg) (trade_events rd now msg) h

  dispatch-Effect : (kind msg : Json F) (h : ProviderHealth) → Effect h (dispatch rd now kind msg h)
  unfolding dispatch
  dispatch-Effect kind msg h =
      if-Effect (either_text (codes "pong") (codes "heartbeat") kind) h
        (record_message h now none, ok []) _ (recorded-Effect h none (ok []))
        (if-Effect (either_text (codes "v2/ticker") (codes "ticker") kind) h
          (parse_ticker rd now msg h) _ (parse_ticker-Effect msg h)
          (if-Effect (either_text (codes "all_trades") (codes "trades") kind) h
            (parse_trades rd now msg h) (parse_by_part rd now kind msg h)
            (parse_trades-Effect msg h) (parse_by_part-Effect kind msg h)))

  -- Reading one message, of any shape, also one that raises: either the health is untouched and
  -- no event is given, or exactly one message is recorded in the health, at the instant of the
  -- reading, and nothing else in it changes.
  pub parse_message-Effect :
      (msg : Option (Json F)) (h : ProviderHealth) → Effect h (parse_message rd now msg h)
  unfolding parse_message
  parse_message-Effect none h = empty-Effect h
  parse_message-Effect (some msg) h = elim (Raises-cases (get_or (string []) (codes "type") msg)) [
    | inl (kind, e) ↦ rw (parse_message, e) (dispatch-Effect kind msg h)
    | inr (x, e) ↦ rw (parse_message, e) (raised-Effect h x)
  ]

module _ {ℓ} {F : Type ℓ} ⦃fl : Float F⦄ (rd : Reader F)
    (text_of_exception : Exception → Text) where
  -- The body of the loop over messages, for an instant and a message.
  pub message_parser : ℕ × Option (Json F) → Parser
  message_parser (now, msg) h =
      let out = parse_message rd now msg h in
      (out.0, elim out.1 [ ok events ↦ none | raised e ↦ some (text_of_exception e) ])

  message_parser-IsParser : (m : ℕ × Option (Json F)) → IsParser (message_parser m)
  unfolding message_parser Effect record_message
  message_parser-IsParser (now, msg) = record {
    reconnects = λ h. elim (parse_message-Effect rd now msg h) [
      | inl (same, events) ↦ ap (λ x. x.reconnect_count) same
      | inr (src, same) ↦ ap (λ x. x.reconnect_count) same
    ];
    errors = λ h. elim (parse_message-Effect rd now msg h) [
      | inl (same, events) ↦ ap (λ x. x.error_count) same
      | inr (src, same) ↦ ap (λ x. x.error_count) same
    ];
    connects = λ h on. elim (parse_message-Effect rd now msg h) [
      | inl (same, events) ↦ rw same on
      | inr (src, same) ↦ rw same refl
    ];
  }

  -- The session and its own parser together: over every run of `stream_events` on any messages,
  -- also malformed ones, with failures, closed connections and `disconnect` in between, and from
  -- no more reconnects than errors: the delay lies between one and thirty seconds, there are no
  -- more reconnects than errors, a provider that sleeps is not reported as connected, one that is
  -- running and streaming is, and the generator has ended only if it was stopped.
  pub Run-message_parser :
      (p : Provider) {q : Provider}
      → p.health.reconnect_count ≤ p.health.error_count
      → Run message_parser p q
      → IsSession q
  Run-message_parser p h r = Run-IsSession message_parser p message_parser-IsParser h r
