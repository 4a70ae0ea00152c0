-- ===== src/Backtest/Route/Alternation.antt =====
-- apps/api/routes/backtest.py: the orders of the loop over candles.
use mach.Prelude.{
  ℕ, ◌≡◌, refl, Bool, true, false, List, [], ◌∷◌, ◌++◌, some, some-injective, if◌then◌else◌, sym,
  subst, ◌∙◌,
}
use mach.Text.{codes, lower, eq_text}
use mach.Float.{Float, nought}
use mach.Backtest.{Engine, Trade, Numpy, init, execute_market_order}
use mach.Backtest.Ledger.{Run, start}
use mach.Backtest.Route.{Candle, lot, trade_candle, run_candles}
use mach.Backtest.Route.Loop.{
  buys, sells, keeps, trade_candle-Trades, step_candle-Stepped, run_candles-Looped,
}

-- Every buy is answered by one sell before the next buy; the flag says that the last is open.
pub data Paired {ℓ} {F : Type ℓ} ⦃fl : Float F⦄ : Bool → List (Trade F) → Type ℓ where
  no_trades : Paired false []
  bought :
      (ts : List (Trade F)) (t : Trade F)
      → t.side ≡ codes "buy"
      → t.quantity ≡ lot
      → Paired false ts
      → Paired true (ts ++ t ∷ [])
  sold :
      (ts : List (Trade F)) (t : Trade F)
      → t.side ≡ codes "sell"
      → t.quantity ≡ lot
      → Paired true ts
      → Paired false (ts ++ t ∷ [])

-- What the loop needs of the two positions that it meets, zero and one lot.
pub record IsLot {ℓ} (F : Type ℓ) ⦃fl : Float F⦄ : Type ℓ where
  pub buy_one : fl.add nought lot ≡ lot
  pub sell_one : fl.sub lot lot ≡ nought
  pub not_below : fl.lt nought nought ≡ false
  pub lot_open : fl.eq lot nought ≡ false

module _ {ℓ} {F : Type ℓ} ⦃fl : Float F⦄ where
  abbrev pub position_of : Bool → F
  position_of open_trade = if open_trade then lot else nought

  pub record IsPaired (e : Engine F) : Type ℓ where
    pub is_open : Bool
    pub trades : Paired is_open e.trades
    pub position : e.position ≡ position_of is_open

  module _ (laws : IsLot F) where
    open laws use {buy_one, sell_one, not_below, lot_open}

    buy-IsPaired :
        (e : Engine F) (price : F) (time : ℕ) (o : Bool)
        → Paired o e.trades
        → e.position ≡ position_of o
        → fl.eq e.position nought ≡ true
        → IsPaired (execute_market_order e (codes "buy") lot price time).0
    unfolding execute_market_order lower eq_text
    buy-IsPaired e price time true ts at_lot flat =
        absurd (let h = rw (at_lot, lot_open) at flat in cc)
    buy-IsPaired e price time false ts at_zero flat = record {
      is_open = true;
      trades = bought e.trades _ refl refl ts;
      position = rw at_zero buy_one;
    }

    sell-IsPaired :
        (e : Engine F) (price : F) (time : ℕ) (o : Bool)
        → Paired o e.trades
        → e.position ≡ position_of o
        → fl.lt nought e.position ≡ true
        → IsPaired (execute_market_order e (codes "sell") lot price time).0
    unfolding execute_market_order lower eq_text
    sell-IsPaired e price time true ts at_lot long = record {
      is_open = false;
      trades = sold e.trades _ refl refl ts;
      position = rw at_lot sell_one;
    }
    sell-IsPaired e price time false ts at_zero long =
        absurd (let h = rw (at_zero, not_below) at long in cc)

    trade_candle-IsPaired : (e : Engine F) (c : Candle F) → IsPaired e → IsPaired (trade_candle e c)
    trade_candle-IsPaired e c p = elim (trade_candle-Trades e c) [
      | buys up flat same ↦
          subst IsPaired (sym same)
            (buy-IsPaired e c.close c.timestamp p.is_open p.trades p.position flat)
      | sells down long same ↦
          subst IsPaired (sym same)
            (sell-IsPaired e c.close c.timestamp p.is_open p.trades p.position long)
      | keeps no_buy same ↦ subst IsPaired (sym same) p
    ]

    run_candles-keeps :
        (np : Numpy F) (capital slippage : F) (e : Engine F) (cs : List (Candle F))
        {final : Engine F}
        → Run (init capital slippage) e
        → run_candles e cs ≡ some final
        → IsPaired e
        → IsPaired final
    unfolding run_candles
    run_candles-keeps np capital slippage e [] r h p = subst IsPaired (some-injective _ _ h) p
    run_candles-keeps np capital slippage e (c ∷ cs) {final} r h p =
        let s = step_candle-Stepped np capital slippage e c r in
        let traded = trade_candle-IsPaired e c p in
        let rest : run_candles s.after cs ≡ some final = rw (run_candles, s.steps) at h in
        run_candles-keeps np capital slippage s.after cs s.reached rest (record {
          is_open = traded.is_open;
          trades = subst (Paired traded.is_open) (sym s.trades) traded.trades;
          position = s.position ∙ traded.position;
        })

    -- The loop over candles ends without an exception, and its strategy never adds to a position
    -- and never goes short: in the log that it leaves, whatever the candles, buys and sells alternate from a buy on, each of one lot,
    -- and the position is one lot after a buy and exactly zero after a sell. What is assumed is
    -- that 0.1 - 0.1 is 0.0, that 0.0 + 0.1 is 0.1, and how the two compare with zero.
    pub run_candles-IsPaired :
        (np : Numpy F) (capital slippage : F) (cs : List (Candle F))
        → (final : Engine F) × (run_candles (init capital slippage) cs ≡ some final)
          × IsPaired final
    unfolding init
    run_candles-IsPaired np capital slippage cs =
        let l = run_candles-Looped np capital slippage (init capital slippage) cs start in
        let flat : IsPaired (init capital slippage) = record {
          is_open = false;
          trades = no_trades;
          position = refl;
        } in
        (
          l.final,
          l.loops,
          run_candles-keeps np capital slippage (init capital slippage) cs start l.loops flat,
        )
