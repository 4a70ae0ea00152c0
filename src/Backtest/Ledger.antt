-- ===== src/Backtest/Ledger.antt =====
-- swaram/backtest/engine.py: the account against its log of trades, over every run of the engine.
use mach.Prelude.{
  ℕ, suc, ◌≡◌, refl, List, [], ◌∷◌, some, length, length-append, ◌==◌, last?, foldl, foldl-append,
  if◌then◌else◌, arith, subst,
}
use mach.Text.{Text}
use mach.Float.{Float, ◌⊕◌, ◌⊖◌, nought}
use mach.Backtest.{
  Trade, Engine, Numpy, Metrics, is_buy, init, execute_market_order, marked, portfolio_value,
  no_trades, metrics_of, update_portfolio, calculate_performance_metrics,
}

last?-suc {ℓ} :
    {A : Type ℓ} (xs : List A) {n : ℕ} → length xs ≡ suc n → (x : A) × (last? xs ≡ some x)
last?-suc [] h = absurd (omega arith)
last?-suc (x ∷ []) h = (x, refl)
last?-suc (x ∷ y ∷ xs) h = let (z, e) = last?-suc (y ∷ xs) refl in (z, rw e)

module _ {ℓ} {F : Type ℓ} ⦃fl : Float F⦄ where
  abbrev pub post_cash : F → Trade F → F
  post_cash c t = if is_buy t.side then c ⊖ t.value else c ⊕ t.value

  abbrev pub post_position : F → Trade F → F
  post_position p t = if is_buy t.side then p ⊕ t.quantity else p ⊖ t.quantity

  -- The account is what the log says, and the curve has one point more than there are returns.
  pub record IsLedger (e : Engine F) : Type ℓ where
    pub cash : e.cash ≡ foldl post_cash e.initial_capital e.trades
    pub position : e.position ≡ foldl post_position nought e.trades
    pub entry : e.entry_price ≡ foldl (λ _ t. t.price) nought e.trades
    pub curve : length e.equity_curve ≡ suc (length e.returns)

  -- One call on the engine.
  pub data Step : Engine F → Engine F → Type ℓ where
    order :
        (e : Engine F) (side : Text) (qty price : F) (time : ℕ)
        → Step e (execute_market_order e side qty price time).0
    mark :
        (e : Engine F) (price : F) {e' : Engine F} {v : F}
        → update_portfolio e price ≡ some (e', v)
        → Step e e'

  pub data Run (e : Engine F) : Engine F → Type ℓ where
    start : Run e e
    next : {f g : Engine F} → Run e f → Step f g → Run e g

  order-IsLedger :
      (e : Engine F) (side : Text) (qty price : F) (time : ℕ)
      → IsLedger e
      → IsLedger (execute_market_order e side qty price time).0
  unfolding execute_market_order
  order-IsLedger e side qty price time l =
      let t = (execute_market_order e side qty price time).1 in
      record {
        cash = rw (foldl-append post_cash e.initial_capital e.trades, ← l.cash) refl;
        position = rw (foldl-append post_position nought e.trades, ← l.position) refl;
        entry = rw (foldl-append (λ (_ : F) (u : Trade F). u.price) nought e.trades);
        curve = l.curve;
      }

  marked-IsLedger : (e : Engine F) (price prev : F) → IsLedger e → IsLedger (marked e price prev)
  unfolding marked
  marked-IsLedger e price prev l = record {
    cash = l.cash;
    position = l.position;
    entry = l.entry;
    curve = omega (
      arith,
      l.curve,
      length-append e.equity_curve (portfolio_value e price ∷ []),
      length-append e.returns (_ ∷ []),
    );
  }

  mark-IsLedger :
      (e : Engine F) (price : F) {e' : Engine F} {v : F}
      → update_portfolio e price ≡ some (e', v)
      → IsLedger e
      → IsLedger e'
  unfolding update_portfolio
  mark-IsLedger e price {e'} h l =
      let (x, found) = last?-suc e.equity_curve l.curve in
      let same : marked e price x ≡ e' = cc (h, found) in
      subst IsLedger same (marked-IsLedger e price x l)

  init-IsLedger : (capital slippage : F) → IsLedger (init capital slippage)
  unfolding init
  init-IsLedger capital slippage = record {
    cash = refl;
    position = refl;
    entry = refl;
    curve = refl;
  }

  -- After any run of orders and marks from a new engine, cash, position and entry price are what
  -- replaying the log of trades gives, operation by operation, and the equity curve has one point
  -- more than there are returns.
  pub Run-IsLedger :
      (capital slippage : F) {e : Engine F} → Run (init capital slippage) e → IsLedger e
  Run-IsLedger capital slippage start = init-IsLedger capital slippage
  Run-IsLedger capital slippage (next r (order e side qty price time)) =
      order-IsLedger e side qty price time (Run-IsLedger capital slippage r)
  Run-IsLedger capital slippage (next r (mark e price h)) =
      mark-IsLedger e price h (Run-IsLedger capital slippage r)

  -- After any run from a new engine, neither `update_portfolio` nor
  -- `calculate_performance_metrics` fails on the last point of the equity curve.
  pub Run_total :
      (np : Numpy F) (capital slippage price : F) {e : Engine F}
      → Run (init capital slippage) e
      → ((r : Engine F × F) × (update_portfolio e price ≡ some r))
        × ((m : Metrics F) × (calculate_performance_metrics np e ≡ some m))
  unfolding update_portfolio calculate_performance_metrics
  Run_total np capital slippage price {e} r =
      let (x, found) = last?-suc e.equity_curve (Run-IsLedger capital slippage r).curve in
      (
        (((marked e price x, portfolio_value e price), rw (found, update_portfolio))),
        (
          if length e.trades == 0 then no_trades else metrics_of np e x,
          rw (found, calculate_performance_metrics) (ground arith),
        ),
      )
