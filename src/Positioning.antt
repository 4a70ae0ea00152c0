-- ===== src/Positioning.antt =====
-- swaram/analytics/positioning.py: funding yield and the regime of price against open interest.
pub mod Regimes
mod Tests
use mach.Prelude.{Bool, true, false, ◌&&◌, not, Option, none, some, if◌then◌else◌}
use mach.Float.{Float, ◌⊖◌, ◌⊗◌, nought, hundred}

-- The strings of `positioning_regime`.
pub data Regime : Type 0 where
  consolidation aggressive_long_building aggressive_short_building : Regime
  short_covering long_liquidation neutral : Regime

pub record PositioningResult {ℓ} (F : Type ℓ) : Type ℓ where
  pub funding_rate : Option F
  pub annualized_yield_pct : Option F
  pub open_interest : Option F
  pub open_interest_delta_24h_pct : Option F
  pub positioning_regime : Regime
  pub extreme_funding_warning : Bool

module _ {ℓ} {F : Type ℓ} ⦃fl : Float F⦄ where
  open fl use {lt, eq, quot, abs, round, decimal}

  abbrev pub map_option : (F → F) → Option F → Option F
  map_option f none = none
  map_option f (some x) = some (f x)

  pub calculate_annualized_funding_yield : Option F → Option F
  calculate_annualized_funding_yield none = none
  calculate_annualized_funding_yield (some rate) =
      some (rate ⊗ decimal 3 0 ⊗ decimal 365 0 ⊗ hundred)

  -- The regime of changes that are not both small.
  pub quadrant : F → F → Regime
  quadrant price oi =
      if lt nought price && lt nought oi
      then aggressive_long_building
      else if lt price nought && lt nought oi
      then aggressive_short_building
      else if lt nought price && lt oi nought
      then short_covering
      else if lt price nought && lt oi nought
      then long_liquidation
      else neutral

  -- The default threshold is 0.5.
  pub evaluate_positioning_regime : F → F → F → Regime
  unfolding quadrant
  evaluate_positioning_regime price oi threshold =
      if lt (abs price) threshold && lt (abs oi) threshold then consolidation else quadrant price oi

  -- The change of the open interest in percent, where both are there and the older is positive.
  pub oi_delta : Option F → Option F → Option F
  oi_delta none before = none
  oi_delta (some now) none = none
  oi_delta (some now) (some before) =
      if lt nought before then some (quot (now ⊖ before) before ⊗ hundred) else none

  -- `oi_delta_pct or 0.0`
  abbrev pub or_nought : Option F → F
  or_nought none = nought
  or_nought (some x) = if eq x nought then nought else x

  -- `abs(funding_rate) > 0.0005`
  pub is_extreme : Option F → Bool
  is_extreme none = false
  is_extreme (some rate) = lt (decimal 5 4) (abs rate)

  pub analyze_positioning : Option F → Option F → Option F → F → PositioningResult F
  unfolding oi_delta
  analyze_positioning funding_rate open_interest before price_change =
      let delta = oi_delta open_interest before in
      record {
        funding_rate = map_option (λ x. round x 6) funding_rate;
        annualized_yield_pct =
            map_option (λ x. round x 2) (calculate_annualized_funding_yield funding_rate);
        open_interest = map_option (λ x. round x 2) open_interest;
        open_interest_delta_24h_pct = map_option (λ x. round x 2) delta;
        positioning_regime =
            evaluate_positioning_regime price_change (or_nought delta) (decimal 5 1);
        extreme_funding_warning = is_extreme funding_rate;
      }
