-- ===== src/Backtest/Route/Outcome.antt =====
-- apps/api/routes/backtest.py: when `run_backtest` answers, and what it saves.
use mach.Prelude.{
  ℕ, suc, ◌≡◌, refl, ◌⊎◌, inl, inr, true, false, not, some-injective, List, [], ◌∷◌, ◌++◌, none,
  some, length, key_error, last?, ◌==◌, Bool-cases, Option-cases, arith, sym, ap, ◌∙◌,
}
use mach.Text.{Text, codes}
use mach.Float.{Float, nought}
use mach.Api.{Response, answer, failure}
use mach.Backtest.{
  Engine, Numpy, Metrics, init, calculate_performance_metrics, no_trades, metrics_of,
}
use mach.Backtest.Simulator.{trades-execute_market_order}
use mach.Backtest.Ledger.{Run, start, Run_total}
use mach.Backtest.Route.{
  Candle, RunRecord, rises, lot, trade_candle, run_candles, record_of, row_of, backtest_record,
  candles_or, run_backtest,
}
use mach.Backtest.Route.Loop.{
  buys, sells, keeps, trade_candle-Trades, any_rises, run_candles-Looped, step_candle-Stepped,
}

module _ {ℓ} {F : Type ℓ} ⦃fl : Float F⦄ where
  -- The run that fails on a result with no final capital, and the run that saves its record.
  pub Outcome :
      List (Candle F) → List (RunRecord F) → List (RunRecord F) × Response (Metrics F) → Type ℓ
  Outcome cs table out =
      ((any_rises cs ≡ false) × (out ≡ (table, failure key_error)))
      ⊎ ((any_rises cs ≡ true)
          × ((m : Metrics F) × (row : RunRecord F) × (out ≡ (table ++ row ∷ [], answer m))
              × (m.final_capital ≡ some row.final_capital)
              × (row.total_trades ≡ length row.trades)))

module _ {ℓ} {F : Type ℓ} ⦃fl : Float F⦄ (np : Numpy F) (capital slippage : F) where
  open fl use {lt, eq, decimal}

  trade_candle_quiet :
      (e : Engine F) (c : Candle F)
      → lt nought nought ≡ false
      → e.position ≡ nought
      → rises c ≡ false
      → trade_candle e c ≡ e
  trade_candle_quiet e c irrefl flat calm = elim (trade_candle-Trades e c) [
    | buys up there same ↦ absurd (ground arith)
    | sells down long same ↦ absurd (let h = rw flat at long in cc)
    | keeps no_buy same ↦ same
  ]

  trade_candle_loud :
      (e : Engine F) (c : Candle F)
      → eq nought nought ≡ true
      → e.position ≡ nought
      → rises c ≡ true
      → length (trade_candle e c).trades ≡ suc (length e.trades)
  trade_candle_loud e c reflexive flat up = elim (trade_candle-Trades e c) [
    | buys up' there same ↦
        rw same (omega (arith, trades-execute_market_order e (codes "buy") lot c.close c.timestamp))
    | sells down long same ↦
        rw same
          (omega (arith, trades-execute_market_order e (codes "sell") lot c.close c.timestamp))
    | keeps no_buy same ↦ absurd (let h = rw (up, flat, reflexive) at no_buy in cc)
  ]

  -- From a flat account with no trades: none are made exactly if no candle rises.
  run_candles_trades :
      (e : Engine F) (cs : List (Candle F)) {final : Engine F}
      → eq nought nought ≡ true
      → lt nought nought ≡ false
      → Run (init capital slippage) e
      → e.position ≡ nought
      → length e.trades ≡ 0
      → run_candles e cs ≡ some final
      → (length final.trades == 0) ≡ not (any_rises cs)
  unfolding run_candles
  run_candles_trades e [] reflexive irrefl r flat empty h = rw (← some-injective _ _ h, empty) refl
  run_candles_trades e (c ∷ cs) {final} reflexive irrefl r flat empty h =
      let s = step_candle-Stepped np capital slippage e c r in
      let l = run_candles-Looped np capital slippage s.after cs s.reached in
      let rest : run_candles s.after cs ≡ some final = rw (run_candles, s.steps) at h in
      elim (Bool-cases (rises c)) [
        | inl up ↦
            let one = trade_candle_loud e c reflexive flat up in
            let same : l.final ≡ final = some-injective _ _ (sym l.loops ∙ rest) in
            rw up (ground (arith, l.grows, ap length s.trades, one, ap (λ x. length x.trades) same))
        | inr calm ↦
            let same = trade_candle_quiet e c irrefl flat calm in
            rw calm (
              run_candles_trades s.after cs reflexive irrefl s.reached
                (s.position ∙ ap (λ x. x.position) same ∙ flat)
                (ap length (s.trades ∙ ap (λ x. x.trades) same) ∙ empty) rest)
      ]

  calculate_performance_metrics_capital :
      (e : Engine F) (m : Metrics F)
      → calculate_performance_metrics np e ≡ some m
      → (length e.trades == 0) ≡ true
      → m.final_capital ≡ none
  unfolding calculate_performance_metrics no_trades
  calculate_performance_metrics_capital e m h empty =
      ap (λ x. x.final_capital)
        (some-injective _ _ (sym (rw (calculate_performance_metrics, empty) at h)))

  calculate_performance_metrics_traded :
      (e : Engine F) (m : Metrics F)
      → calculate_performance_metrics np e ≡ some m
      → (length e.trades == 0) ≡ false
      → (final : F) × (m.final_capital ≡ some final) × (m.total_trades ≡ length e.trades)
  unfolding calculate_performance_metrics metrics_of
  calculate_performance_metrics_traded e m h traded = elim (Option-cases (last? e.equity_curve)) [
    | inl lost ↦
        absurd
          (let gone : none ≡ some m = rw (calculate_performance_metrics, traded, lost) at h in cc)
    | inr (last, found) ↦
        let same : metrics_of np e last ≡ m =
          some-injective _ _ (rw (calculate_performance_metrics, traded, found) at h) in
        (fl.round last 2, sym (ap (λ x. x.final_capital) same), sym (ap (λ x. x.total_trades) same))
  ]

  -- For a known instrument, whatever the candles, and with the zero of floats equal to itself and
  -- not below itself: where no candle closes above its open, `run_backtest` fails on a missing key
  -- and saves nothing; where one does, it answers, and saves one record, with the final capital
  -- that it answers and the number of its trades.
  pub run_backtest-Outcome :
      (now : ℕ) (moves : List F) (symbol : Text) (db_candles : List (Candle F))
      (table : List (RunRecord F))
      → eq nought nought ≡ true
      → lt nought nought ≡ false
      → Outcome
          (candles_or now moves db_candles)
          table
          (run_backtest np now moves symbol capital slippage (some db_candles) table)
  unfolding init run_backtest backtest_record record_of Outcome
  run_backtest-Outcome now moves symbol db_candles table reflexive irrefl =
      let cs = candles_or now moves db_candles in
      let l = run_candles-Looped np capital slippage (init capital slippage) cs start in
      let traded =
        run_candles_trades (init capital slippage) cs reflexive irrefl start refl refl l.loops in
      let (ignored, (m, found)) = Run_total np capital slippage nought l.reached in
      elim (Bool-cases (any_rises cs)) [
        | inl up ↦
            let (final, has, counted) =
              calculate_performance_metrics_traded l.final m found (rw up at traded) in
            inr (
              up,
              (
                m,
                row_of symbol l.final m final,
                rw (run_backtest, backtest_record, l.loops, found, record_of, has) refl,
                has,
                counted,
              ),
            )
        | inr calm ↦
            let lacks = calculate_performance_metrics_capital l.final m found (rw calm at traded) in
            inl (calm, rw (run_backtest, backtest_record, l.loops, found, record_of, lacks) refl)
      ]
