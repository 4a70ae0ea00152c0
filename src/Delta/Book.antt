-- ===== src/Delta/Book.antt =====
-- swaram/providers/crypto/delta_ws.py: `_parse_orderbook`, from the levels read off a message to the
-- event. A level is its price and its size.
pub mod Best
use mach.Prelude.{
  ℕ, Bool, true, false, List, [], ◌∷◌, foldl, Option, none, some, take, length, min, if◌then◌else◌,
}
use mach.Text.{Text, codes}
use mach.Float.{Float, ◌⊕◌, ◌⊖◌, ◌⊗◌, nought, larger}
use mach.Events.{OrderbookEvent}

module _ {ℓ} {F : Type ℓ} ⦃fl : Float F⦄ where
  open fl use {lt, quot, decimal}

  -- A stable insertion, by a strict test of prices.
  unfoldable pub insert_level : (F → F → Bool) → F × F → List (F × F) → List (F × F)
  insert_level ahead x [] = x ∷ []
  insert_level ahead x (y ∷ ys) =
      let rest = insert_level ahead x ys in if ahead y.0 x.0 then y ∷ rest else x ∷ y ∷ ys

  -- `sorted(levels, key=lambda x: x[0])`, or with `reverse=True`: both are stable.
  unfoldable pub sort_levels : (F → F → Bool) → List (F × F) → List (F × F)
  unfolding insert_level
  sort_levels ahead [] = []
  sort_levels ahead (x ∷ xs) = insert_level ahead x (sort_levels ahead xs)

  abbrev pub descending : F → F → Bool
  descending x y = lt y x

  abbrev pub ascending : F → F → Bool
  ascending x y = lt x y

  abbrev pub sum_of : List (F × F) → F
  sum_of levels = foldl (λ total l. total ⊕ l.1) nought levels

  -- The event of a book whose sorted sides both have a first level.
  unfoldable pub event_of :
      Text → ℕ → ℕ → F × F → List (F × F) → F × F → List (F × F) → OrderbookEvent F
  event_of canonical src_dt now b bids a asks =
      let spread = larger nought (a.0 ⊖ b.0) in
      let mid = quot (b.0 ⊕ a.0) (decimal 2 0) in
      let bid_depth = sum_of (take 20 (b ∷ bids)) in
      let ask_depth = sum_of (take 20 (a ∷ asks)) in
      let total_depth = bid_depth ⊕ ask_depth in
      let denom = b.1 ⊕ a.1 in
      record {
        canonical_symbol = canonical;
        provider = codes "delta";
        timestamp = src_dt;
        depth = min (length (b ∷ bids)) (length (a ∷ asks));
        best_bid = b.0;
        best_ask = a.0;
        spread = spread;
        spread_bps = if lt nought mid then quot spread mid ⊗ decimal 10000 0 else nought;
        bid_depth = bid_depth;
        ask_depth = ask_depth;
        imbalance =
            if lt nought total_depth then quot (bid_depth ⊖ ask_depth) total_depth else nought;
        microprice = if lt nought denom then quot (b.0 ⊗ a.1 ⊕ a.0 ⊗ b.1) denom else mid;
        bids = take 20 (b ∷ bids);
        asks = take 20 (a ∷ asks);
        ingested_at = now;
      }

  -- The sorted sides: no event where one is empty.
  unfoldable pub event_of_sides :
      Text → ℕ → ℕ → List (F × F) → List (F × F) → Option (OrderbookEvent F)
  unfolding event_of
  event_of_sides canonical src_dt now [] asks = none
  event_of_sides canonical src_dt now (b ∷ bids) [] = none
  event_of_sides canonical src_dt now (b ∷ bids) (a ∷ asks) =
      some (event_of canonical src_dt now b bids a asks)

  unfoldable pub parse_levels :
      Text → ℕ → ℕ → List (F × F) → List (F × F) → Option (OrderbookEvent F)
  unfolding event_of_sides sort_levels
  parse_levels canonical src_dt now bids asks =
      event_of_sides canonical src_dt now (sort_levels descending bids) (sort_levels ascending asks)
