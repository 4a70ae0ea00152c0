-- ===== src/Risk/Route/Guard.antt =====
-- apps/api/routes/risk.py: the status that is shown against the gate that is applied.
use mach.Prelude.{
  ◌≡◌, refl, ◌↔◌, ◌⊎◌, true, false, Option, arith, ok, ap, raised, Raises, ◌>>=◌,
  zero_division_error,
}
use mach.Float.{Float, ◌⊗◌, nought, hundred}
use mach.Strategy.Runner.{Snapshot, price_of}
use mach.Api.{Response, answer, http_error, failure, answer_of}
use mach.Risk.{
  blocked, RiskState, RiskCheckResult, max_drawdown_guard, drawdown_pct, exposure_pct, check_limits,
  check_trade, check_loss, kelly_size,
}
use mach.Risk.Route.{
  RiskCheckRequest, RiskCheckAnswer, PositionSizeRequest, critical, status_of, get_risk_state,
  risk_check, price_for, state_of, default_max_drawdown_pct, default_max_position_pct,
  default_max_loss_pct, calculate_position_size, size_for, request_state,
}

module _ {ℓ} {F : Type ℓ} ⦃fl : Float F⦄ where
  open fl use {lt, le, eq, quot, decimal}

  -- A check with the default limits, of an account that the state route also shows.
  abbrev pub default_check : F → F → F → F → F → RiskCheckRequest F
  default_check capital initial position price qty = record {
    requested_quantity = qty;
    current_capital = capital;
    initial_capital = initial;
    position_size = position;
    entry_price = price;
    max_drawdown_pct = default_max_drawdown_pct;
    max_position_pct = default_max_position_pct;
    max_loss_per_trade_pct = default_max_loss_pct;
  }

  -- The drawdown guard blocks the check.
  pub Halts : Response (RiskCheckAnswer F) → Type ℓ
  Halts r =
      (a : RiskCheckAnswer F) × (drawdown : F) × (limit : F) × (r ≡ answer a)
      × (a.result.allowed ≡ false)
      × (a.result.reason ≡ max_drawdown_guard drawdown limit)

  drawdown_pct_same :
      (capital initial position price entry qty live : F)
      → drawdown_pct (request_state (default_check capital initial position entry qty) live)
        ≡ drawdown_pct (state_of capital initial position price)
  unfolding drawdown_pct
  drawdown_pct_same capital initial position price entry qty live = refl

  status_of_critical :
      (drawdown : F)
      → (status_of drawdown ≡ critical) ↔ (le default_max_drawdown_pct drawdown ≡ true)
  unfolding status_of
  status_of_critical drawdown = (λ e. ground arith, λ e. ground arith)

  abbrev halted : RiskState F → RiskCheckResult F
  halted s =
      blocked (max_drawdown_guard (drawdown_pct s) s.max_drawdown_pct) (drawdown_pct s)
        (quot (s.position_size ⊗ s.current_price) s.initial_capital ⊗ hundred)

  check_trade-halted :
      (s : RiskState F) (qty : F)
      → eq s.initial_capital nought ≡ false
      → le s.max_drawdown_pct (drawdown_pct s) ≡ true
      → check_trade s qty ≡ ok (halted s)
  unfolding check_trade check_limits exposure_pct
  check_trade-halted s qty solvent e = rw (solvent, e) refl

  check_trade_within :
      (s : RiskState F) (qty : F) {r : RiskCheckResult F} {drawdown limit : F}
      → check_trade s qty ≡ ok r
      → r.reason ≡ max_drawdown_guard drawdown limit
      → le s.max_drawdown_pct (drawdown_pct s) ≡ true
  unfolding check_trade check_limits check_loss exposure_pct
  check_trade_within s qty e why = ground arith

  answer_of-result :
      (o : Raises (RiskCheckResult F)) (price : F) {a : RiskCheckAnswer F}
      → answer_of (do result ← o; ok (record { result = result; live_price = price })) ≡ answer a
      → o ≡ ok a.result
  answer_of-result (ok r) price h =
      ap (λ x. elim x [ answer b ↦ ok b.result | http_error n ↦ ok r | failure y ↦ ok r ]) h
  answer_of-result (raised y) price h = absurd cc

  risk_check-Halts :
      (r : RiskCheckRequest F) (snap : Option (Snapshot F)) (live : F)
      → price_of snap ≡ ok live
      → eq r.initial_capital nought ≡ false
      → let dd = drawdown_pct (request_state r (price_for live r.entry_price)) in
        Halts (risk_check r snap) ↔ (le r.max_drawdown_pct dd ≡ true)
  unfolding risk_check Halts
  risk_check-Halts r snap live read solvent =
      let s = request_state r (price_for live r.entry_price) in
      (
        λ (a, d, l, e, blocks, why).
            check_trade_within s r.requested_quantity
              (answer_of-result (check_trade s r.requested_quantity) _ (rw (risk_check, read) at e))
              why,
        λ e. (
          record { result = halted s; live_price = price_for live r.entry_price },
          drawdown_pct s,
          s.max_drawdown_pct,
          rw (risk_check, read, check_trade-halted s r.requested_quantity solvent e) refl,
          refl,
          refl,
        ),
      )

  -- With a nonzero initial capital, and a price in Redis that `float()` reads or none: the state
  -- route shows an account as critical exactly when the check route, with the default limits, halts
  -- it on its drawdown, whatever the quantity, the live price and the entry price of the check.
  pub get_risk_state-Halts_iff :
      (capital initial position price : F) (snap : Option (Snapshot F)) (qty entry live : F)
      → price_of snap ≡ ok live
      → eq initial nought ≡ false
      → ((get_risk_state capital initial position price).risk_status ≡ critical)
        ↔ Halts (risk_check (default_check capital initial position entry qty) snap)
  unfolding get_risk_state
  get_risk_state-Halts_iff capital initial position price snap qty entry live read solvent =
      let r = default_check capital initial position entry qty in
      let dd = drawdown_pct (state_of capital initial position price) in
      let same =
        drawdown_pct_same capital initial position price entry qty (price_for live entry) in
      let halts : Halts (risk_check r snap) ↔ (le default_max_drawdown_pct dd ≡ true) =
        rw (← same) (risk_check-Halts r snap live read solvent) in
      (λ e. halts.1 ((status_of_critical dd).0 e), λ h. (status_of_critical dd).1 (halts.0 h))

  -- The size route fails on a division by zero exactly when the capital is zero, for each method,
  -- also where the engine gives a size, or the engine's own size fails on one.
  calculate_position_size-fails_iff :
      (r : PositionSizeRequest F)
      → (calculate_position_size r ≡ failure zero_division_error)
        ↔ ((eq r.capital nought ≡ true) ⊎ (size_for r ≡ raised zero_division_error))
  unfolding calculate_position_size size_for kelly_size
  calculate_position_size-fails_iff r = (λ e. ground arith, λ e. ground arith)
