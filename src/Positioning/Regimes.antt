-- ===== src/Positioning/Regimes.antt =====
-- swaram/analytics/positioning.py: the symmetry of the regimes, and the regime with no history.
use mach.Prelude.{
  ◌≡◌, refl, ◌⊎◌, inl, inr, Bool, true, false, Bool-cases, ◌&&◌, Option, none, arith, if◌then◌else◌,
}
use mach.Float.{Float, nought}
use mach.Float.Laws.{IsOrdered, IsSigned}
use mach.Positioning.{
  Regime, consolidation, aggressive_long_building, aggressive_short_building, short_covering,
  long_liquidation, neutral, quadrant, evaluate_positioning_regime, oi_delta, analyze_positioning,
}

-- The regime of the opposite move of the price.
abbrev pub mirror : Regime → Regime
mirror consolidation = consolidation
mirror aggressive_long_building = aggressive_short_building
mirror aggressive_short_building = aggressive_long_building
mirror short_covering = long_liquidation
mirror long_liquidation = short_covering
mirror neutral = neutral

-- The regime by the signs of the two changes: up and down of the price, then of the interest.
abbrev pick : Bool → Bool → Bool → Bool → Regime
pick a b c d =
    if a && c
    then aggressive_long_building
    else if b && c
    then aggressive_short_building
    else if a && d
    then short_covering
    else if b && d
    then long_liquidation
    else neutral

pick_swap : (a b c d : Bool) → (a ≡ true → b ≡ false) → pick b a c d ≡ mirror (pick a b c d)
pick_swap true true c d h = absurd (let clash : true ≡ false = h refl in cc)
pick_swap true false c d h = ground arith
pick_swap false true c d h = ground arith
pick_swap false false c d h = refl

pick_flat : (a b : Bool) → pick a b false false ≡ neutral
pick_flat a b = ground arith

module _ {ℓ} {F : Type ℓ} ⦃fl : Float F⦄ (ordered : IsOrdered F) (signed : IsSigned F) where
  open fl use {lt, abs, neg, decimal}
  open ordered use {lt_trans, lt_irrefl}
  open signed use {abs_neg, neg_pos, neg_below}

  not_both : (x : F) → lt nought x ≡ true → lt x nought ≡ false
  not_both x h = elim (Bool-cases (lt x nought)) [
    | inl e ↦ absurd (ground (arith, lt_trans x nought x e h, lt_irrefl x))
    | inr e ↦ e
  ]

  quadrant-neg : (price oi : F) → quadrant (neg price) oi ≡ mirror (quadrant price oi)
  unfolding quadrant
  quadrant-neg price oi =
      rw (quadrant, neg_pos price, neg_below price)
        (pick_swap (lt nought price) (lt price nought) (lt nought oi) (lt oi nought)
          (not_both price))

  -- An opposite move of the price mirrors the regime: building of longs and of shorts change
  -- places, and so do the covering of shorts and the liquidation of longs.
  evaluate_positioning_regime-neg :
      (price oi threshold : F)
      → evaluate_positioning_regime (neg price) oi threshold
        ≡ mirror (evaluate_positioning_regime price oi threshold)
  unfolding evaluate_positioning_regime
  evaluate_positioning_regime-neg price oi threshold =
      elim (Bool-cases (lt (abs price) threshold && lt (abs oi) threshold)) [
        | inl e ↦ rw (evaluate_positioning_regime, abs_neg price, e) refl
        | inr e ↦ rw (evaluate_positioning_regime, abs_neg price, e) (quadrant-neg price oi)
      ]

  -- Where an open interest is missing, or the older is not positive, no regime of building or of
  -- unwinding is reported.
  analyze_positioning_flat :
      (funding now before : Option F) (price : F)
      → oi_delta now before ≡ none
      → let r = (analyze_positioning funding now before price).positioning_regime in
        (r ≡ consolidation) ⊎ (r ≡ neutral)
  unfolding analyze_positioning evaluate_positioning_regime quadrant
  analyze_positioning_flat funding now before price missing =
      elim (Bool-cases (lt (abs price) (decimal 5 1) && lt (abs nought) (decimal 5 1))) [
        | inl e ↦ rw (analyze_positioning, missing, evaluate_positioning_regime, e) (inl refl)
        | inr e ↦
            rw (analyze_positioning, missing, evaluate_positioning_regime, e)
              (inr (rw (lt_irrefl nought) (pick_flat (lt nought price) (lt price nought))))
      ]
