-- ===== src/Backtest/Route/Loop.antt =====
-- apps/api/routes/backtest.py: the loop over candles as a run of the engine.
use mach.Prelude.{
  ◌≤◌, ◌≡◌, refl, inl, inr, Bool, true, false, ◌&&◌, ◌||◌, List, [], ◌∷◌, none, some, length, last?,
  Bool-cases, Option-cases, arith, sym, ap,
}
use mach.Text.{codes}
use mach.Float.{Float, nought}
use mach.Backtest.{Engine, Numpy, init, execute_market_order, update_portfolio, marked}
use mach.Backtest.Simulator.{trades-execute_market_order}
use mach.Backtest.Ledger.{Run, next, order, mark, Run_total}
use mach.Backtest.Route.{Candle, rises, falls, lot, trade_candle, step_candle, run_candles}

module _ {ℓ} {F : Type ℓ} ⦃fl : Float F⦄ where
  open fl use {lt, eq, decimal}

  trade_candle-Run : {e₀ e : Engine F} (c : Candle F) → Run e₀ e → Run e₀ (trade_candle e c)
  unfolding trade_candle
  trade_candle-Run {e = e} c r = elim (Bool-cases (rises c && eq e.position nought)) [
    | inl up ↦ rw up (next r (order e (codes "buy") lot c.close c.timestamp))
    | inr no_buy ↦ elim (Bool-cases (falls c && lt nought e.position)) [
      | inl down ↦ rw (no_buy, down) (next r (order e (codes "sell") lot c.close c.timestamp))
      | inr no_sell ↦ rw (no_buy, no_sell) r
    ]
  ]

  kept-update_portfolio :
      (e : Engine F) (price : F) {e' : Engine F} {v : F}
      → update_portfolio e price ≡ some (e', v)
      → (e'.trades ≡ e.trades) × (e'.position ≡ e.position)
  unfolding update_portfolio marked
  kept-update_portfolio e price {e'} h = elim (Option-cases (last? e.equity_curve)) [
    | inl lost ↦ absurd (let gone : none ≡ some (e', _) = rw (update_portfolio, lost) at h in cc)
    | inr (prev, found) ↦
        let same : marked e price prev ≡ e' = cc (h, found) in
        (sym (ap (λ x. x.trades) same), sym (ap (λ x. x.position) same))
  ]

  -- What a round gives: a run of the engine, with the trades and the position of its order.
  pub record Stepped (e₀ e : Engine F) (c : Candle F) : Type ℓ where
    pub after : Engine F
    pub steps : step_candle e c ≡ some after
    pub reached : Run e₀ after
    pub trades : after.trades ≡ (trade_candle e c).trades
    pub position : after.position ≡ (trade_candle e c).position

  -- A round never fails.
  pub step_candle-Stepped :
      (np : Numpy F) (capital slippage : F) (e : Engine F) (c : Candle F)
      → Run (init capital slippage) e
      → Stepped (init capital slippage) e c
  unfolding step_candle
  step_candle-Stepped np capital slippage e c r =
      let traded = trade_candle-Run c r in
      let (((e', v), h), done) = Run_total np capital slippage c.close traded in
      let (same_trades, same_position) = kept-update_portfolio (trade_candle e c) c.close h in
      record {
        after = e';
        steps = rw (step_candle, h) refl;
        reached = next traded (mark _ c.close h);
        trades = same_trades;
        position = same_position;
      }

  -- What a candle does on the engine: it buys, sells or leaves it.
  pub data Trades (e : Engine F) (c : Candle F) : Type ℓ where
    buys :
        rises c ≡ true
        → eq e.position nought ≡ true
        → trade_candle e c ≡ (execute_market_order e (codes "buy") lot c.close c.timestamp).0
        → Trades e c
    sells :
        falls c ≡ true
        → lt nought e.position ≡ true
        → trade_candle e c ≡ (execute_market_order e (codes "sell") lot c.close c.timestamp).0
        → Trades e c
    keeps : (rises c && eq e.position nought) ≡ false → trade_candle e c ≡ e → Trades e c

  pub trade_candle-Trades : (e : Engine F) (c : Candle F) → Trades e c
  unfolding trade_candle
  trade_candle-Trades e c = elim (Bool-cases (rises c && eq e.position nought)) [
    | inl up ↦ buys (ground arith) (ground arith) (rw (trade_candle, up) refl)
    | inr no_buy ↦ elim (Bool-cases (falls c && lt nought e.position)) [
      | inl down ↦ sells (ground arith) (ground arith) (rw (trade_candle, no_buy, down) refl)
      | inr no_sell ↦ keeps no_buy (rw (trade_candle, no_buy, no_sell) refl)
    ]
  ]

  trade_candle_grows :
      (e : Engine F) (c : Candle F) → length e.trades ≤ length (trade_candle e c).trades
  trade_candle_grows e c = elim (trade_candle-Trades e c) [
    | buys up flat same ↦
        rw same (omega (arith, trades-execute_market_order e (codes "buy") lot c.close c.timestamp))
    | sells down long same ↦
        rw same
          (omega (arith, trades-execute_market_order e (codes "sell") lot c.close c.timestamp))
    | keeps no_buy same ↦ rw same (omega arith)
  ]

  abbrev pub any_rises : List (Candle F) → Bool
  any_rises [] = false
  any_rises (c ∷ cs) = rises c || any_rises cs

  -- The engine after the loop.
  pub record Looped (e₀ e : Engine F) (cs : List (Candle F)) : Type ℓ where
    pub final : Engine F
    pub loops : run_candles e cs ≡ some final
    pub reached : Run e₀ final
    pub grows : length e.trades ≤ length final.trades

  module _ (np : Numpy F) (capital slippage : F) where
    -- The loop never fails, and no round loses a trade.
    pub run_candles-Looped :
        (e : Engine F) (cs : List (Candle F))
        → Run (init capital slippage) e
        → Looped (init capital slippage) e cs
    unfolding run_candles
    run_candles-Looped e [] r = record { final = e; loops = refl; reached = r; grows = omega arith }
    run_candles-Looped e (c ∷ cs) r =
        let s = step_candle-Stepped np capital slippage e c r in
        let l = run_candles-Looped s.after cs s.reached in
        record {
          final = l.final;
          loops = rw (run_candles, s.steps) l.loops;
          reached = l.reached;
          grows = omega (arith, trade_candle_grows e c, ap length s.trades, l.grows);
        }
