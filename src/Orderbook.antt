-- ===== src/Orderbook.antt =====
-- swaram/analytics/orderbook.py: microprice, depth and walls of an order book. numpy's `mean` is a
-- parameter.
pub mod Walls
mod Tests
use mach.Prelude.{
  ℕ, Bool, true, false, ◌&&◌, not, List, [], ◌∷◌, map, foldl, Option, none, some, take,
  if◌then◌else◌,
}
use mach.Float.{Float, ◌⊕◌, ◌⊖◌, ◌⊗◌, nought, larger}

pub record Level {ℓ} (F : Type ℓ) : Type ℓ where
  pub price : F
  pub size : F

pub record Wall {ℓ} (F : Type ℓ) : Type ℓ where
  pub price : F
  pub size : F
  pub multiple : F

pub record Depth {ℓ} (F : Type ℓ) : Type ℓ where
  pub bid_depth : F
  pub ask_depth : F
  pub imbalance : F

pub record LiquidityWalls {ℓ} (F : Type ℓ) : Type ℓ where
  pub bid_walls : List (Wall F)
  pub ask_walls : List (Wall F)

pub record OrderbookAnalyticsResult {ℓ} (F : Type ℓ) : Type ℓ where
  pub best_bid : F
  pub best_ask : F
  pub mid_price : F
  pub microprice : F
  pub spread : F
  pub spread_bps : F
  pub bid_depth_top20 : F
  pub ask_depth_top20 : F
  pub depth_imbalance : F
  pub liquidity_walls : LiquidityWalls F

module _ {ℓ} {F : Type ℓ} ⦃fl : Float F⦄ where
  open fl use {lt, le, eq, quot, round, decimal}

  pub calculate_microprice : F → F → F → F → F
  calculate_microprice best_bid bid_size best_ask ask_size =
      let denom = bid_size ⊕ ask_size in
      if eq denom nought
      then quot (best_bid ⊕ best_ask) (decimal 2 0)
      else quot (best_bid ⊗ ask_size ⊕ best_ask ⊗ bid_size) denom

  -- `sum(b[1] for b in …)`
  abbrev pub sum_sizes : List (Level F) → F
  sum_sizes levels = foldl (λ total l. total ⊕ l.size) nought levels

  -- The default number of levels is 20.
  pub calculate_depth_imbalance : List (Level F) → List (Level F) → ℕ → Depth F
  calculate_depth_imbalance bids asks depth_levels =
      let bid_depth = sum_sizes (take depth_levels bids) in
      let ask_depth = sum_sizes (take depth_levels asks) in
      if eq (bid_depth ⊕ ask_depth) nought
      then record { bid_depth = nought; ask_depth = nought; imbalance = nought }
      else record {
        bid_depth = bid_depth;
        ask_depth = ask_depth;
        imbalance = quot (bid_depth ⊖ ask_depth) (bid_depth ⊕ ask_depth);
      }

  -- The condition of the comprehension: a positive average, and a size of so many times it.
  abbrev pub is_wall : F → F → Level F → Bool
  is_wall avg multiplier l = lt nought avg && le (avg ⊗ multiplier) l.size

  -- The comprehension, over the levels that are left.
  unfoldable pub walls_among : F → F → List (Level F) → List (Wall F)
  walls_among avg multiplier [] = []
  walls_among avg multiplier (l ∷ levels) =
      let rest = walls_among avg multiplier levels in
      if is_wall avg multiplier l
      then record { price = l.price; size = l.size; multiple = round (quot l.size avg) 2 } ∷ rest
      else rest

  -- The walls of one side: the average is that of its top 20 levels.
  unfoldable pub walls_of : (List F → F) → F → List (Level F) → List (Wall F)
  walls_of mean multiplier levels =
      walls_among (mean (map (λ l. l.size) (take 20 levels))) multiplier (take 20 levels)

  abbrev pub no_walls : LiquidityWalls F
  no_walls = record { bid_walls = []; ask_walls = [] }

  -- The default multiplier is 3.0.
  unfoldable pub detect_liquidity_walls :
      (List F → F) → List (Level F) → List (Level F) → F → LiquidityWalls F
  unfolding walls_of
  detect_liquidity_walls mean [] asks multiplier = no_walls
  detect_liquidity_walls mean (b ∷ bids) [] multiplier = no_walls
  detect_liquidity_walls mean (b ∷ bids) (a ∷ asks) multiplier = record {
    bid_walls = walls_of mean multiplier (b ∷ bids);
    ask_walls = walls_of mean multiplier (a ∷ asks);
  }

  abbrev pub empty_result : OrderbookAnalyticsResult F
  empty_result = record {
    best_bid = nought;
    best_ask = nought;
    mid_price = nought;
    microprice = nought;
    spread = nought;
    spread_bps = nought;
    bid_depth_top20 = nought;
    ask_depth_top20 = nought;
    depth_imbalance = nought;
    liquidity_walls = no_walls;
  }

  -- The result for a book whose sides both have a first level.
  unfoldable pub analyze_from :
      (List F → F)
      → Level F
      → List (Level F)
      → Level F
      → List (Level F)
      → OrderbookAnalyticsResult F
  unfolding detect_liquidity_walls calculate_microprice calculate_depth_imbalance
  analyze_from mean b bids a asks =
      let mid = quot (b.price ⊕ a.price) (decimal 2 0) in
      let spread = larger nought (a.price ⊖ b.price) in
      let spread_bps = if lt nought mid then quot spread mid ⊗ decimal 10000 0 else nought in
      let depth = calculate_depth_imbalance (b ∷ bids) (a ∷ asks) 20 in
      record {
        best_bid = b.price;
        best_ask = a.price;
        mid_price = round mid 4;
        microprice = round (calculate_microprice b.price b.size a.price a.size) 4;
        spread = round spread 4;
        spread_bps = round spread_bps 2;
        bid_depth_top20 = round depth.bid_depth 4;
        ask_depth_top20 = round depth.ask_depth 4;
        depth_imbalance = round depth.imbalance 4;
        liquidity_walls = detect_liquidity_walls mean (b ∷ bids) (a ∷ asks) (decimal 3 0);
      }

  unfoldable pub analyze_orderbook_depth :
      (List F → F) → List (Level F) → List (Level F) → OrderbookAnalyticsResult F
  unfolding analyze_from
  analyze_orderbook_depth mean [] asks = empty_result
  analyze_orderbook_depth mean (b ∷ bids) [] = empty_result
  analyze_orderbook_depth mean (b ∷ bids) (a ∷ asks) = analyze_from mean b bids a asks
