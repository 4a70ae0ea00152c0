-- ===== src/Structure/Result.antt =====
-- swaram/analytics/structure.py: `analyze_market_structure`, from bars to the result.
use mach.Prelude.{
  ℕ, zero, suc, ◌-◌, ◌≤◌, ◌≡◌, refl, Bool-cases, inl, inr, List, [], ◌∷◌, none, some, ltb, length,
  length-drop, take_last, foldl, Option-cases, drop, if◌then◌else◌, arith,
}
use mach.Float.{Float}
use mach.Structure.{Bar, SwingPoint, FvgZone, OrderBlockZone, TrendState, neutral, StructureEvent}
use mach.Structure.Swings.{detect_swing_points}
use mach.Structure.Gaps.{active_gaps}
use mach.Structure.Trend.{start, track_from, read_event, track_from-read}

pub record MarketStructureResult {ℓ} (F : Type ℓ) : Type ℓ where
  pub trend : TrendState
  pub swings : List (SwingPoint F)
  pub active_fvgs : List (FvgZone F)
  pub active_order_blocks : List (OrderBlockZone F)
  pub events : List (StructureEvent F)

length-take_last {ℓ} : {A : Type ℓ} (n : ℕ) (xs : List A) → length (take_last n xs) ≤ n
length-take_last n xs = omega (arith, length-drop (length xs - n) xs)

module _ {ℓ} {F : Type ℓ} ⦃fl : Float F⦄ where
  unfoldable pub analyze_market_structure : List (Bar F) → ℕ → ℕ → MarketStructureResult F
  analyze_market_structure bars left right =
      let swings = detect_swing_points bars left right in
      let t = track_from swings 0 none bars start in
      if ltb (length bars) 3
      then record {
        trend = neutral;
        swings = swings;
        active_fvgs = [];
        active_order_blocks = [];
        events = [];
      }
      else record {
        trend = t.trend;
        swings = swings;
        active_fvgs = active_gaps bars;
        active_order_blocks = take_last 10 t.order_blocks;
        events = take_last 20 t.events;
      }

  none-read : (xs : List (StructureEvent F)) → foldl read_event none xs ≡ none
  none-read [] = refl
  none-read (e ∷ xs) = none-read xs

  -- If a log explains a trend, its end explains it from some other.
  suffix-read :
      (t u : TrendState) (n : ℕ) (log : List (StructureEvent F))
      → foldl read_event (some t) log ≡ some u
      → (s : TrendState) × (foldl read_event (some s) (drop n log) ≡ some u)
  suffix-read t u zero log h = (t, h)
  suffix-read t u (suc n) [] h = (t, h)
  suffix-read t u (suc n) (e ∷ log) h = elim (Option-cases (read_event (some t) e)) [
    | inl lost ↦ absurd (ground (arith, rw lost at h, none-read log))
    | inr (s, read) ↦ suffix-read s u n log (rw read at h)
  ]

  -- The result keeps at most twenty events and ten order blocks, and its events explain its trend:
  -- read from some trend on, each change of character turns the trend, so that these alternate in
  -- direction, each break of structure goes with it, and they end in the trend reported.
  pub analyze_market_structure_lem :
      (bars : List (Bar F)) (left right : ℕ)
      → let r = analyze_market_structure bars left right in
        (length r.events ≤ 20)
        × (length r.active_order_blocks ≤ 10)
        × ((t : TrendState) × (foldl read_event (some t) r.events ≡ some r.trend))
  unfolding analyze_market_structure
  analyze_market_structure_lem bars left right = elim (Bool-cases (ltb (length bars) 3)) [
    | inl short ↦ rw (short, analyze_market_structure) (omega arith, omega arith, (neutral, refl))
    | inr long ↦
        rw (long, analyze_market_structure)
          (let t = track_from (detect_swing_points bars left right) 0 none bars start in
            (
              length-take_last 20 t.events,
              length-take_last 10 t.order_blocks,
              suffix-read neutral t.trend (length t.events - 20) t.events
                  (track_from-read (detect_swing_points bars left right) 0 none bars start refl),
            ))
  ]
