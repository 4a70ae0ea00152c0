-- ===== src/Strategy/Decisions.antt =====
-- swaram/agents/strategy.py: what both strategies promise of a decision.
use mach.Prelude.{
  ◌≡◌, refl, ◌⊎◌, inl, inr, true, false, Bool-cases, ◌&&◌, not, Option, none, some, Raises, ok,
  raised, zero_division_error, arith,
}
use mach.Float.{Float, nought, ◌⊗◌}
use mach.Strategy.{
  hold, buy, sell, StrategyContext, Decision, Strategy, momentum, mean_reversion, has_position,
  entry_quantity, decide, decide_momentum, decide_reversion, exit_reversion, decide_if_indicated,
  decide_if_banded, decision, middle, Rationale,
}

module _ {ℓ} {F : Type ℓ} ⦃fl : Float F⦄ where
  open fl use {lt, le, eq, round, decimal, quot}

  -- `round(capital * 0.02 / price, 4)`
  abbrev pub two_percent : StrategyContext F → F
  two_percent ctx = round (quot (ctx.current_capital ⊗ decimal 2 2) ctx.last_price) 4

  -- Long only: a strategy enters only from a flat account, with 2% of the capital, and leaves only
  -- with all that it holds.
  pub data IsLongOnly (ctx : StrategyContext F) : Decision F → Type ℓ where
    enters :
        (r : Rationale F)
        → has_position ctx ≡ false
        → IsLongOnly ctx (decision buy (two_percent ctx) r)
    leaves :
        (r : Rationale F)
        → has_position ctx ≡ true
        → IsLongOnly ctx (decision sell ctx.current_position r)
    waits : (r : Rationale F) → IsLongOnly ctx (decision hold nought r)

  decide_momentum-IsLongOnly :
      (b s : F) (ctx : StrategyContext F) (rsi vwap : F)
      → IsLongOnly ctx (decide_momentum b s ctx rsi vwap (two_percent ctx))
  unfolding decide_momentum
  decide_momentum-IsLongOnly b s ctx rsi vwap = elim (Bool-cases (has_position ctx)) [
    | inl e ↦ elim (Bool-cases (lt s rsi)) [
      | inl f ↦ rw (decide_momentum, e, f) (leaves _ e)
      | inr f ↦ rw (decide_momentum, e, f) (waits _)
    ]
    | inr e ↦ elim (Bool-cases (lt rsi b && lt vwap ctx.last_price)) [
      | inl f ↦ rw (decide_momentum, e, f) (enters _ e)
      | inr f ↦ rw (decide_momentum, e, f) (waits _)
    ]
  ]

  exit_reversion-IsLongOnly :
      (ctx : StrategyContext F) (mid : Option F) → IsLongOnly ctx (exit_reversion ctx mid)
  unfolding exit_reversion
  exit_reversion-IsLongOnly ctx none = waits _
  exit_reversion-IsLongOnly ctx (some mid) = elim (Bool-cases (has_position ctx)) [
    | inl e ↦ elim (Bool-cases (not (eq mid nought) && le mid ctx.last_price)) [
      | inl f ↦ rw (exit_reversion, e, f) (leaves _ e)
      | inr f ↦ rw (exit_reversion, e, f) (waits _)
    ]
    | inr e ↦ rw (exit_reversion, e) (waits _)
  ]

  decide_reversion-IsLongOnly :
      (ctx : StrategyContext F) (lower : F)
      → IsLongOnly ctx (decide_reversion ctx lower (two_percent ctx))
  unfolding decide_reversion
  decide_reversion-IsLongOnly ctx lower =
      elim (Bool-cases (not (has_position ctx) && le ctx.last_price lower)) [
        | inl e ↦ rw (decide_reversion, e) (enters _ (ground arith))
        | inr e ↦ rw (decide_reversion, e) (exit_reversion-IsLongOnly ctx (middle ctx))
      ]

  -- A long-only decision, or the exception for a price of zero.
  abbrev pub Decides : StrategyContext F → Raises (Decision F) → Type ℓ
  Decides ctx r =
      ((d : Decision F) × (r ≡ ok d) × IsLongOnly ctx d)
      ⊎ ((r ≡ raised zero_division_error) × (eq ctx.last_price nought ≡ true))

  decide_if_indicated-Decides :
      (b s : F) (ctx : StrategyContext F) (rsi vwap : Option F)
      → Decides ctx (decide_if_indicated b s ctx rsi vwap)
  unfolding decide_if_indicated entry_quantity
  decide_if_indicated-Decides b s ctx none vwap = inl (_, refl, waits _)
  decide_if_indicated-Decides b s ctx (some rsi) none = inl (_, refl, waits _)
  decide_if_indicated-Decides b s ctx (some rsi) (some vwap) =
      elim (Bool-cases (eq ctx.last_price nought)) [
        | inl e ↦ inr (rw (decide_if_indicated, entry_quantity, e) refl, e)
        | inr e ↦ inl (
          decide_momentum b s ctx rsi vwap (two_percent ctx),
          rw (decide_if_indicated, entry_quantity, e) refl,
          decide_momentum-IsLongOnly b s ctx rsi vwap,
        )
      ]

  decide_if_banded-Decides :
      (ctx : StrategyContext F) (lower upper : Option F)
      → Decides ctx (decide_if_banded ctx lower upper)
  unfolding decide_if_banded entry_quantity
  decide_if_banded-Decides ctx none upper = inl (_, refl, waits _)
  decide_if_banded-Decides ctx (some lower) none = inl (_, refl, waits _)
  decide_if_banded-Decides ctx (some lower) (some upper) =
      elim (Bool-cases (eq ctx.last_price nought)) [
        | inl e ↦ inr (rw (decide_if_banded, entry_quantity, e) refl, e)
        | inr e ↦ inl (
          decide_reversion ctx lower (two_percent ctx),
          rw (decide_if_banded, entry_quantity, e) refl,
          decide_reversion-IsLongOnly ctx lower,
        )
      ]

  -- Both strategies are long only: a decision buys only where nothing is held, then for 2% of the
  -- capital, sells only where something is held, then all of it, and never has the signal to
  -- close. They raise only at a price of zero.
  pub decide-Decides : (s : Strategy F) (ctx : StrategyContext F) → Decides ctx (decide s ctx)
  unfolding decide
  decide-Decides (momentum b s) ctx = decide_if_indicated-Decides b s ctx ctx.rsi ctx.vwap
  decide-Decides mean_reversion ctx =
      decide_if_banded-Decides ctx ctx.bollinger_lower ctx.bollinger_upper
