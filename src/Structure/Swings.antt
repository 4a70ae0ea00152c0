-- ===== src/Structure/Swings.antt =====
-- swaram/analytics/structure.py: `detect_swing_points`. A swing is a bar that no other bar of the
-- window around it beats. The bars are in range by the bounds of the loops; past the end, where
-- Python would raise, a bar beats no other.
pub mod Window
pub mod Order
pub mod Fractal
use mach.Prelude.{
  ℕ, zero, suc, ◌+◌, ◌-◌, Bool, true, false, ◌&&◌, not, List, [], ◌∷◌, ◌++◌, map, Option, none,
  some, ltb, ◌==◌, length, get_elem?, if◌then◌else◌, sort_by,
}
use mach.Float.{Float}
use mach.Structure.{Bar, SwingPoint}

module _ {ℓ} {F : Type ℓ} ⦃fl : Float F⦄ where
  open fl use {le}

  -- `highs[j] >= highs[i]` for a high, `lows[j] <= lows[i]` for a low
  abbrev pub beats : Bool → F → F → Bool
  beats is_high y x = if is_high then le x y else le y x

  abbrev pub level : Bool → Bar F → F
  level is_high b = if is_high then b.high else b.low

  -- Whether bar j stops the bar i, of level x, from being a swing.
  abbrev pub stops : Bool → List (Bar F) → ℕ → F → ℕ → Bool
  stops is_high bars i x j =
      not (j == i)
      && elim (get_elem? bars j) [ none ↦ false | some b ↦ beats is_high (level is_high b) x ]

  -- The loop over the n bars of the window from j on.
  unfoldable pub is_swing : Bool → List (Bar F) → ℕ → F → ℕ → ℕ → Bool
  is_swing is_high bars i x j zero = true
  is_swing is_high bars i x j (suc n) =
      let rest = is_swing is_high bars i x (suc j) n in
      if stops is_high bars i x j then false else rest

  -- The swing of one kind at bar i, if it is one.
  pub swing_of : Bool → List (Bar F) → ℕ → ℕ → ℕ → Bar F → List (SwingPoint F)
  swing_of is_high bars left right i b =
      if is_swing is_high bars i (level is_high b) (i - left) (left + right + 1)
      then record { index = i; timestamp = b.timestamp; price = level is_high b; is_high = is_high }
        ∷ []
      else []

  pub swings_at : List (Bar F) → ℕ → ℕ → ℕ → List (SwingPoint F)
  unfolding swing_of
  swings_at bars left right i = elim (get_elem? bars i) [
    | none ↦ []
    | some b ↦ swing_of true bars left right i b ++ swing_of false bars left right i b
  ]

  -- The loop over n bars from i on.
  unfoldable pub swings_from : List (Bar F) → ℕ → ℕ → ℕ → ℕ → List (SwingPoint F)
  unfolding swings_at
  swings_from bars left right i zero = []
  swings_from bars left right i (suc n) =
      swings_at bars left right i ++ swings_from bars left right (suc i) n

  unfoldable pub detect_swing_points : List (Bar F) → ℕ → ℕ → List (SwingPoint F)
  detect_swing_points bars left right =
      if ltb (length bars) (left + right + 1)
      then []
      else sort_by (λ s. s.index) (swings_from bars left right left (length bars - right - left))
