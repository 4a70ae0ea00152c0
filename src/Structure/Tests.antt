-- ===== src/Structure/Tests.antt =====
-- swaram/analytics/structure.py on concrete bars.
use mach.Prelude.{
  ℕ, ◌≤◌, ◌≡◌, refl, ◌↔◌, inl, inr, true, false, List, [], ◌∷◌, some, All, foldl, drop, length,
  sort_by, arith,
}
use mach.Float.Fixed.{Fixed, fixed_float}
use mach.Structure.{Bar, TrendState, bullish}
use mach.Structure.Swings.{detect_swing_points, swings_from, is_swing}
use mach.Structure.Swings.Window.{Has}
use mach.Structure.Swings.Fractal.{IsFractal, AreNumbers, detect_swing_points_iff}
use mach.Structure.Gaps.{active_gaps, detect_gaps, keep_open, IsGap, active_gaps-eq}
use mach.Structure.Trend.{read_event, track_from, track_bar, check_break, on_break}
use mach.Structure.Result.{analyze_market_structure, analyze_market_structure_lem}
open fixed_float use {decimal as num}

abbrev bar : ℕ → ℕ → ℕ → ℕ → Bar Fixed
bar time high low close = record {
  timestamp = time;
  high = num high 0;
  low = num low 0;
  close = num close 0;
}

-- Highs at bars 1 and 3, a low between them, and a last bar that closes above both.
abbrev bars : List (Bar Fixed)
bars =
    bar 0 10 8 9
    ∷ bar 1 13 9 11
    ∷ bar 2 11 7 8
    ∷ bar 3 14 8 12
    ∷ bar 4 12 9 11
    ∷ bar 5 20 13 19
    ∷ []

run : (analyze_market_structure bars 1 1).trend ≡ bullish
unfolding analyze_market_structure track_from track_bar check_break on_break detect_swing_points
    swings_from is_swing sort_by
run = refl

high_at_one : Has true 1 (detect_swing_points bars 1 1)
unfolding detect_swing_points swings_from is_swing sort_by
high_at_one = inl (refl, refl)

high_at_three : Has true 3 (detect_swing_points bars 1 1)
unfolding detect_swing_points swings_from is_swing sort_by
high_at_three = inr (inr (inl (refl, refl)))

detect_swing_points_iff_example :
    Has true 3 (detect_swing_points bars 1 1) ↔ ((b : Bar Fixed) × IsFractal true bars 1 1 3 b)
detect_swing_points_iff_example = detect_swing_points_iff true bars 1 1 3

numbers : AreNumbers bars
numbers = ground arith

active_gaps-eq_example :
    (active_gaps bars ≡ keep_open (drop 2 bars) (detect_gaps bars))
    × All (λ z. IsGap z × (z.is_mitigated ≡ false)) (active_gaps bars)
active_gaps-eq_example = active_gaps-eq bars

analyze_market_structure_lem_example :
    let r = analyze_market_structure bars 1 1 in
    (length r.events ≤ 20)
    × (length r.active_order_blocks ≤ 10)
    × ((t : TrendState) × (foldl read_event (some t) r.events ≡ some r.trend))
analyze_market_structure_lem_example = analyze_market_structure_lem bars 1 1
