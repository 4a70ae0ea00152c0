-- ===== src/Structure/Swings/Order.antt =====
-- swaram/analytics/structure.py: the loops of `detect_swing_points` find swings in order, so that
-- its sort changes nothing.
use mach.Prelude.{
  ℕ, zero, suc, ◌+◌, ◌-◌, ◌≤◌, ◌≡◌, refl, inl, inr, Bool, true, false, Bool-cases, List, [], ◌∷◌,
  ltb, length, get_elem?, All, All-append, All-mono, IsSorted, IsSorted-append, sort_by-sorted,
  if◌then◌else◌, arith, Option-cases,
}
use mach.Float.{Float}
use mach.Structure.{Bar, SwingPoint}
use mach.Structure.Swings.{level, is_swing, swing_of, swings_at, swings_from, detect_swing_points}

module _ {ℓ} {F : Type ℓ} ⦃fl : Float F⦄ where
  open fl use {le, lt}

  swing_of-index :
      (h : Bool) (bars : List (Bar F)) (left right i : ℕ) (b : Bar F)
      → All (λ s. s.index ≡ i) (swing_of h bars left right i b)
  unfolding swing_of
  swing_of-index h bars left right i b =
      elim (Bool-cases (is_swing h bars i (level h b) (i - left) (left + right + 1))) [
        | inl e ↦ rw (e, swing_of) (refl, tt)
        | inr e ↦ rw (e, swing_of) tt
      ]

  swings_at-index :
      (bars : List (Bar F)) (left right i : ℕ)
      → All (λ s. s.index ≡ i) (swings_at bars left right i)
  unfolding swings_at
  swings_at-index bars left right i = elim (Option-cases (get_elem? bars i)) [
    | inl gone ↦ rw (gone, swings_at) tt
    | inr (b, found) ↦
        rw (found, swings_at)
          (All-append _ (swing_of true bars left right i b) _
            (swing_of-index true bars left right i b) (swing_of-index false bars left right i b))
  ]

  swings_from-index :
      (bars : List (Bar F)) (left right i n : ℕ)
      → All (λ s. i ≤ s.index) (swings_from bars left right i n)
  unfolding swings_from
  swings_from-index bars left right i zero = tt
  swings_from-index bars left right i (suc n) =
      All-append _ (swings_at bars left right i) _
        (All-mono _ (swings_at-index bars left right i) (λ s e. omega arith))
        (All-mono _ (swings_from-index bars left right (suc i) n) (λ s e. omega arith))

  constant-IsSorted :
      (i : ℕ) (ss : List (SwingPoint F)) → All (λ s. s.index ≡ i) ss → IsSorted (λ s. s.index) ss
  constant-IsSorted i [] h = tt
  constant-IsSorted i (s ∷ ss) (h, hs) =
      (All-mono ss hs (λ t e. omega arith), constant-IsSorted i ss hs)

  swings_from-IsSorted :
      (bars : List (Bar F)) (left right i n : ℕ)
      → IsSorted (λ s. s.index) (swings_from bars left right i n)
  unfolding swings_from
  swings_from-IsSorted bars left right i zero = tt
  swings_from-IsSorted bars left right i (suc n) =
      IsSorted-append (λ s. s.index) i (swings_at bars left right i) _
        (constant-IsSorted i _ (swings_at-index bars left right i))
        (All-mono _ (swings_at-index bars left right i) (λ s e. omega arith))
        (swings_from-IsSorted bars left right (suc i) n)
        (All-mono _ (swings_from-index bars left right (suc i) n) (λ s e. omega arith))

  -- The final sort changes nothing.
  pub detect_swing_points-eq :
      (bars : List (Bar F)) (left right : ℕ)
      → detect_swing_points bars left right ≡ (
          if ltb (length bars) (left + right + 1)
          then []
          else swings_from bars left right left (length bars - right - left))
  unfolding detect_swing_points
  detect_swing_points-eq bars left right = rw (
      sort_by-sorted (λ s. s.index) _
        (swings_from-IsSorted bars left right left (length bars - right - left)))
