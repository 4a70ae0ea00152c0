-- ===== src/Backtest/Simulator.antt =====
-- swaram/backtest/agent_sim.py: `AgentBacktestSimulator`, which routes an agent's orders and
-- queries to the engine. An order's id, `sim_<n>`, is its number; texts of numbers are the numbers.
use mach.Prelude.{
  ℕ, suc, ◌+◌, ◌≡◌, ◌⊎◌, inl, inr, refl, List, [], ◌∷◌, ◌++◌, Option, none, some, Raises, ok,
  raised, Exception, length, length-append, if◌then◌else◌, arith, ap, ◌∙◌,
}
use mach.Prelude.Int.{ℤ}
use mach.Text.{Text, lower}
use mach.Float.{Float, ◌⊕◌, ◌⊗◌, nought}
use mach.Backtest.{Engine, Trade, execute_market_order}

pub record SimOrder {ℓ} (F : Type ℓ) : Type ℓ where
  pub id : ℕ
  pub symbol : Text
  pub side : Text
  pub size : ℤ
  pub average_fill_price : F

pub record Simulator {ℓ} (F : Type ℓ) : Type ℓ where
  pub engine : Engine F
  pub orders : List (SimOrder F)

-- The one balance and the position, if there is one.
pub record AccountState {ℓ} (F : Type ℓ) : Type ℓ where
  pub balance : F
  pub equity : F
  pub available_margin : F
  pub position : Option (F × F)

module _ {ℓ} {F : Type ℓ} ⦃fl : Float F⦄ where
  open fl use {eq, to_int, round}

  -- The rest of the call, given the engine after the trade and `int(quantity)`.
  pub answer_order :
      Simulator F → Engine F → Trade F → Text → Text → Raises ℤ → Simulator F × Raises (SimOrder F)
  answer_order s engine trade symbol side (ok size) =
      let order : SimOrder F = record {
        id = length s.orders + 1;
        symbol = symbol;
        side = lower side;
        size = size;
        average_fill_price = trade.price;
      } in
      (record { engine = engine; orders = s.orders ++ order ∷ [] }, ok order)
  answer_order s engine trade symbol side (raised x) = (record s { engine = engine }, raised x)

  -- The engine trades before `int(quantity)` can raise, so the state comes back in both cases.
  pub intercept_place_order :
      Simulator F → Text → Text → F → F → ℕ → Simulator F × Raises (SimOrder F)
  intercept_place_order s symbol side quantity current_price timestamp =
      let (engine, trade) = execute_market_order s.engine side quantity current_price timestamp in
      answer_order s engine trade symbol side (to_int quantity)

  -- Amounts are shown with two decimals.
  pub intercept_get_account_state : Simulator F → F → AccountState F
  intercept_get_account_state s current_price =
      let e = s.engine in
      record {
        balance = round e.cash 2;
        equity = round (e.cash ⊕ e.position ⊗ current_price) 2;
        available_margin = round e.cash 2;
        position = if eq e.position nought then none else some (e.position, round e.entry_price 2);
      }

  -- Ids count up from one.
  abbrev pub Numbered : ℕ → List (SimOrder F) → Type 0
  Numbered n [] = Unit
  Numbered n (o ∷ os) = (o.id ≡ suc n) × Numbered (suc n) os

  Numbered-snoc :
      (n : ℕ) (os : List (SimOrder F)) (o : SimOrder F)
      → Numbered n os
      → o.id ≡ suc (n + length os)
      → Numbered n (os ++ o ∷ [])
  Numbered-snoc n [] o h e = omega arith
  Numbered-snoc n (p ∷ os) o (h, hs) e = (h, Numbered-snoc (suc n) os o hs (omega arith))

  pub trades-execute_market_order :
      (e : Engine F) (side : Text) (quantity price : F) (time : ℕ)
      → length (execute_market_order e side quantity price time).0.trades ≡ length e.trades + 1
  unfolding execute_market_order
  trades-execute_market_order e side quantity price time = length-append e.trades (_ ∷ [])

  -- An answer that carries the price of the trade and is kept, or an exception and nothing kept.
  pub Answers : Simulator F → Trade F → Simulator F × Raises (SimOrder F) → Type ℓ
  Answers s t (s', r) =
      ((o : SimOrder F) × (r ≡ ok o)
        × (o.average_fill_price ≡ t.price)
        × (s'.orders ≡ s.orders ++ o ∷ []))
      ⊎ ((x : Exception) × (r ≡ raised x) × (s'.orders ≡ s.orders))

  answer_order-Answers :
      (s : Simulator F) (e : Engine F) (t : Trade F) (symbol side : Text) (size : Raises ℤ)
      → Numbered 0 s.orders
      → let out = answer_order s e t symbol side size in
        (out.0.engine ≡ e) × Numbered 0 out.0.orders × Answers s t out
  unfolding answer_order Answers
  answer_order-Answers s e t symbol side (ok size) h =
      (refl, Numbered-snoc 0 s.orders _ h (omega arith), inl (_, refl, refl, refl))
  answer_order-Answers s e t symbol side (raised x) h = (refl, h, inr (x, refl, refl))

  -- The engine trades every order that reaches the simulator once, also an order whose quantity
  -- makes the call raise. Only the orders answered are kept; their ids count up from one with no
  -- gap, and an answer carries the price at which the engine traded.
  pub intercept_place_order_lem :
      (s : Simulator F) (symbol side : Text) (quantity price : F) (time : ℕ)
      → Numbered 0 s.orders
      → let out = intercept_place_order s symbol side quantity price time in
        let (e', t) = execute_market_order s.engine side quantity price time in
        (length out.0.engine.trades ≡ length s.engine.trades + 1)
        × (out.0.engine ≡ e')
        × Numbered 0 out.0.orders
        × Answers s t out
  unfolding intercept_place_order
  intercept_place_order_lem s symbol side quantity price time h =
      let (e', t) = execute_market_order s.engine side quantity price time in
      let (same, numbered, answers) = answer_order-Answers s e' t symbol side (to_int quantity) h in
      (
        ap (λ x. length x.trades) same
            ∙ trades-execute_market_order s.engine side quantity price time,
        same,
        numbered,
        answers,
      )
