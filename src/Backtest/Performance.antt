-- ===== src/Backtest/Performance.antt =====
-- swaram/backtest/engine.py: fills, the loop over pairs of trades, and the drawdown loop.
use mach.Prelude.{
  ℕ, suc, ◌+◌, ◌/◌, ◌≡◌, false, Bool-cases, inl, inr, List, [], ◌∷◌, length, All, if◌then◌else◌,
  arith,
}
use mach.Text.{Text, lower}
use mach.Float.{Float, ◌⊕◌, nought, larger}
use mach.Float.Laws.{IsNumber, IsOrdered, IsMonotone}
use mach.Backtest.{
  Trade, Engine, Tally, is_buy, fill_price, execute_market_order, tally_pair, tally_pairs, pair_pnl,
  fall, max_drawdown_from,
}

module _ {ℓ} {F : Type ℓ} ⦃fl : Float F⦄ where
  open fl use {lt, le, quot}

  -- The losing pairs of a log, an unpaired last trade left out.
  abbrev pub losses : List (Trade F) → ℕ
  losses [] = 0
  losses (entry ∷ []) = 0
  losses (entry ∷ exit ∷ rest) =
      if lt nought (pair_pnl entry exit) then losses rest else suc (losses rest)

  -- Every pair of trades counts once, as a win or as a loss, and no other trade counts: the wins
  -- that the loop adds and the losing pairs make up half of the log, rounded down. So the win rate
  -- is a share of the pairs.
  tally_pairs-wins :
      (t : Tally F) (trades : List (Trade F))
      → (tally_pairs t trades).wins + losses trades ≡ t.wins + length trades / 2
  unfolding tally_pairs tally_pair
  tally_pairs-wins t [] = omega arith
  tally_pairs-wins t (entry ∷ []) = omega arith
  tally_pairs-wins t (entry ∷ exit ∷ rest) =
      let pnl = pair_pnl entry exit in
      elim (Bool-cases (lt nought pnl)) [
        | inl won ↦ rw won (
            omega (
              arith,
              tally_pairs-wins (record t { wins = t.wins + 1; gross_profit = t.gross_profit ⊕ pnl })
                  rest,
            ))
        | inr lost ↦ rw lost (
            omega
              (arith, tally_pairs-wins (record t { gross_loss = t.gross_loss ⊕ fl.abs pnl }) rest))
      ]

  module _ (mono : IsMonotone F) where
    -- Slippage never helps: with a price and a slippage that are not negative, a buy is filled at
    -- no less than the price and any other order at no more, whatever the spelling of the side.
    execute_market_order_slips :
        (e : Engine F) (side : Text) (qty price : F) (time : ℕ)
        → lt price nought ≡ false
        → lt e.slippage_pct nought ≡ false
        → let trade = (execute_market_order e side qty price time).1 in
          (if is_buy (lower side) then lt trade.price price else lt price trade.price) ≡ false
    unfolding execute_market_order fill_price
    execute_market_order_slips e side qty price time p s =
        let slip = mono.mul_nonneg price e.slippage_pct p s in
        ground (arith, mono.add_nonneg price _ slip, mono.sub_nonneg price _ slip)

  -- The falls of a curve's points below the highest point before them, from a first peak.
  abbrev pub falls : F → List F → List F
  falls peak [] = []
  falls peak (val ∷ rest) = let peak' = larger peak val in fall peak' val ∷ falls peak' rest

  module _ (ordered : IsOrdered F) where
    open ordered use {lt_irrefl, not-lt_trans}

    below_larger :
        (x y z : F)
        → IsNumber x
        → IsNumber y
        → lt z (larger x y) ≡ false
        → (lt z x ≡ false) × (lt z y ≡ false)
    below_larger x y z n m h = ground (
      arith,
      ordered.le_of_lt x y,
      ordered.not-lt_of_le x y,
      not-lt_trans x y z m,
      not-lt_trans y x z n,
    )

    larger-IsNumber : (x y : F) → IsNumber x → IsNumber y → IsNumber (larger x y)
    larger-IsNumber x y n m = ground arith

    -- The drawdown loop returns a bound on every fall of the curve below its running peak, and on
    -- the drawdown that it starts from, if none of these is NaN.
    pub max_drawdown_from_bounds :
        (peak dd : F) (curve : List F)
        → IsNumber dd
        → All IsNumber (falls peak curve)
        → (lt (max_drawdown_from peak dd curve) dd ≡ false)
          × All (λ d. lt (max_drawdown_from peak dd curve) d ≡ false) (falls peak curve)
    unfolding max_drawdown_from
    max_drawdown_from_bounds peak dd [] n ns = (lt_irrefl dd, tt)
    max_drawdown_from_bounds peak dd (val ∷ rest) n (m, ns) =
        let d = fall (larger peak val) val in
        let (top, below) =
          max_drawdown_from_bounds (larger peak val) (larger dd d) rest (larger-IsNumber dd d n m)
            ns in
        let (h, k) = below_larger dd d _ n m top in (h, (k, below))
