-- ===== src/Structure/Swings/Fractal.antt =====
-- swaram/analytics/structure.py: `detect_swing_points` finds exactly the fractal swings, in order.
use mach.Prelude.{
  ℕ, zero, suc, ◌+◌, ◌-◌, ◌≤◌, ◌<◌, ◌≡◌, ◌≢◌, ◌↔◌, inl, inr, Bool, true, false, Bool-cases, List,
  [], ◌∷◌, some, ltb, length, get_elem?, All, arith, Option-cases, min,
}
use native.Mathlib.Decide.{dec_le}
use mathlib.Core.Option.{some-injective}
use mathlib.Core.Path.{subst}
use mach.Float.{Float}
use mach.Float.Laws.{IsNumber, IsOrdered}
use mach.Structure.{Bar}
use mach.Structure.Swings.{beats, level, detect_swing_points}
use mach.Structure.Swings.Window.{
  Unstopped, is_swing_sound, is_swing_complete, Has, swings_from_sound, swings_from_complete,
}
use mach.Structure.Swings.Order.{detect_swing_points-eq}

module _ {ℓ} {F : Type ℓ} ⦃fl : Float F⦄ where
  open fl use {le, lt}

  -- Bar i of the list b has a full window, and every other bar of the window is beaten strictly.
  pub record IsFractal (h : Bool) (bars : List (Bar F)) (left right i : ℕ) (b : Bar F)
      : Type ℓ where
    pub found : get_elem? bars i ≡ some b
    pub window_left : left ≤ i
    pub window_right : i + right < length bars
    pub unbeaten :
        (k : ℕ) (c : Bar F)
        → i ≤ k + left
        → k ≤ i + right
        → k ≢ i
        → get_elem? bars k ≡ some c
        → beats h (level h c) (level h b) ≡ false

  Unstopped-IsFractal :
      (h : Bool) (bars : List (Bar F)) (left right i : ℕ) (b : Bar F)
      → get_elem? bars i ≡ some b
      → left ≤ i
      → i + right < length bars
      → Unstopped h bars i (level h b) (i - left) (left + right + 1)
      → IsFractal h bars left right i b
  Unstopped-IsFractal h bars left right i b found wl wr u = record {
    found = found;
    window_left = wl;
    window_right = wr;
    unbeaten = λ k c near far other at. let s = u k (omega arith) (omega arith) in ground arith;
  }

  IsFractal-Unstopped :
      (h : Bool) (bars : List (Bar F)) (left right i : ℕ) (b : Bar F)
      → IsFractal h bars left right i b
      → Unstopped h bars i (level h b) (i - left) (left + right + 1)
  IsFractal-Unstopped h bars left right i b f k near far = elim (Option-cases (get_elem? bars k)) [
    | inl gone ↦ ground arith
    | inr (c, at) ↦ ground (arith, f.unbeaten k c)
  ]

  -- `detect_swing_points` reports a swing high or low at bar i exactly when the bar has a full
  -- window on both sides and no other bar of the window reaches its high or low.
  pub detect_swing_points_iff :
      (h : Bool) (bars : List (Bar F)) (left right i : ℕ)
      → Has h i (detect_swing_points bars left right)
        ↔ ((b : Bar F) × IsFractal h bars left right i b)
  detect_swing_points_iff h bars left right i =
      rw (detect_swing_points-eq bars left right)
        (elim (Bool-cases (ltb (length bars) (left + right + 1))) [
          | inl short ↦
              rw short (
                (λ m. elim m [ ]),
                λ (b, f). absurd (ground (arith, f.window_left, f.window_right)),
              )
          | inr long ↦ rw long (
            λ m.
                let (a, z, (b, found, e)) = swings_from_sound h bars left right i left _ m in
                (
                  b,
                  Unstopped-IsFractal h bars left right i b found a (ground arith)
                      (is_swing_sound h bars i (level h b) (i - left) (left + right + 1) e),
                ),
            λ (b, f).
                swings_from_complete h bars left right i left _ f.window_left
                  (ground (arith, f.window_left, f.window_right))
                  (
                    b,
                    f.found,
                    is_swing_complete h bars i (level h b) (i - left) (left + right + 1)
                        (IsFractal-Unstopped h bars left right i b f),
                  ),
          )
        ])

  -- Every high and low is a number.
  abbrev pub AreNumbers : List (Bar F) → Type 0
  AreNumbers = All λ b. IsNumber b.high × IsNumber b.low

  numbers_at :
      (bars : List (Bar F)) (i : ℕ) (b : Bar F) (h : Bool)
      → AreNumbers bars
      → get_elem? bars i ≡ some b
      → IsNumber (level h b)
  numbers_at [] i b h n e = cc
  numbers_at (c ∷ bars) zero b true (n, ns) e =
      subst (λ d. IsNumber d.high) (some-injective _ _ e) n.0
  numbers_at (c ∷ bars) zero b false (n, ns) e =
      subst (λ d. IsNumber d.low) (some-injective _ _ e) n.1
  numbers_at (c ∷ bars) (suc i) b h (n, ns) e = numbers_at bars i b h ns e

  module _ (ordered : IsOrdered F) where
    beats_total :
        (h : Bool) (x y : F)
        → IsNumber x
        → IsNumber y
        → beats h x y ≡ false
        → beats h y x ≡ false
        → ⊥
    beats_total h x y n m a b = ground (
      arith,
      ordered.lt_of_not_le x y n m,
      ordered.lt_of_not_le y x m n,
      ordered.le_of_lt y x,
      ordered.le_of_lt x y,
    )

    -- Without NaN, two swings of one kind that `detect_swing_points` reports lie further apart than
    -- the smaller of the two window sides.
    detect_swing_points_apart :
        (h : Bool) (bars : List (Bar F)) (left right i k : ℕ)
        → AreNumbers bars
        → Has h i (detect_swing_points bars left right)
        → Has h k (detect_swing_points bars left right)
        → i < k
        → i + min left right < k
    detect_swing_points_apart h bars left right i k numbers at_i at_k lt_ik =
        let (b, f) = (detect_swing_points_iff h bars left right i).0 at_i in
        let (c, g) = (detect_swing_points_iff h bars left right k).0 at_k in
        elim (dec_le k (i + min left right)) [
          | no far ↦ omega arith
          | yes close ↦ absurd (
              beats_total h (level h c) (level h b) (numbers_at bars k c h numbers g.found)
                (numbers_at bars i b h numbers f.found)
                (f.unbeaten k c (omega arith) (omega arith) (omega arith) g.found)
                (g.unbeaten i b (omega arith) (omega arith) (omega arith) f.found))
        ]
