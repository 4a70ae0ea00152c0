-- ===== src/Orderbook/Walls.antt =====
-- swaram/analytics/orderbook.py: which levels are walls.
use mach.Prelude.{
  ◌≤◌, ◌≡◌, inl, inr, true, Bool-cases, List, [], ◌∷◌, map, take, length, length-take, Any, ◌↔◌,
  arith,
}
use mach.Float.{Float, nought, ◌⊗◌}
use mach.Orderbook.{Level, Wall, is_wall, walls_among, walls_of}

module _ {F : Type 0} ⦃fl : Float F⦄ where
  open fl use {lt, le, quot, round}

  -- The wall at a level.
  abbrev pub IsWallOf : Level F → Wall F → Type 0
  IsWallOf l w = (w.price ≡ l.price) × (w.size ≡ l.size)

  -- A level of this price and size: at least so many times an average that is positive.
  abbrev pub IsLarge : F → F → F → F → Level F → Type 0
  IsLarge avg multiplier price size l =
      (l.price ≡ price)
      × (l.size ≡ size)
      × ((lt nought avg ≡ true) × (le (avg ⊗ multiplier) l.size ≡ true))

  abbrev pub Shows : F → F → Wall F → Type 0
  Shows price size w = (w.price ≡ price) × (w.size ≡ size)

  is_wall_iff :
      (avg multiplier : F) (l : Level F)
      → (is_wall avg multiplier l ≡ true)
        ↔ ((lt nought avg ≡ true) × (le (avg ⊗ multiplier) l.size ≡ true))
  is_wall_iff avg multiplier l = (λ e. ground arith, λ e. ground arith)

  walls_among_sound :
      (avg multiplier price size : F) (levels : List (Level F))
      → Any (Shows price size) (walls_among avg multiplier levels)
      → Any (IsLarge avg multiplier price size) levels
  unfolding walls_among
  walls_among_sound avg multiplier price size [] h = h
  walls_among_sound avg multiplier price size (l ∷ levels) h =
      elim (Bool-cases (is_wall avg multiplier l)) [
        | inl e ↦ elim (rw (walls_among, e) at h) [
          | inl (p, s) ↦ inl (p, s, (is_wall_iff avg multiplier l).0 e)
          | inr rest ↦ inr (walls_among_sound avg multiplier price size levels rest)
        ]
        | inr e ↦
            inr (walls_among_sound avg multiplier price size levels (rw (walls_among, e) at h))
      ]

  walls_among_complete :
      (avg multiplier price size : F) (levels : List (Level F))
      → Any (IsLarge avg multiplier price size) levels
      → Any (Shows price size) (walls_among avg multiplier levels)
  unfolding walls_among
  walls_among_complete avg multiplier price size [] h = h
  walls_among_complete avg multiplier price size (l ∷ levels) (inl (p, s, e)) =
      rw (walls_among, (is_wall_iff avg multiplier l).1 e) (inl (p, s))
  walls_among_complete avg multiplier price size (l ∷ levels) (inr h) =
      let rest = walls_among_complete avg multiplier price size levels h in
      elim (Bool-cases (is_wall avg multiplier l)) [
        | inl e ↦ rw (walls_among, e) (inr rest)
        | inr e ↦ rw (walls_among, e) rest
      ]

  length-walls_among :
      (avg multiplier : F) (levels : List (Level F))
      → length (walls_among avg multiplier levels) ≤ length levels
  unfolding walls_among
  length-walls_among avg multiplier [] = omega arith
  length-walls_among avg multiplier (l ∷ levels) =
      let rest = length-walls_among avg multiplier levels in
      elim (Bool-cases (is_wall avg multiplier l)) [
        | inl e ↦ rw (walls_among, e) (omega arith)
        | inr e ↦ rw (walls_among, e) (omega arith)
      ]

  -- The walls of a side are exactly the levels among its first twenty that are at least so many
  -- times as large as the average of these, where that average is positive; there are at most
  -- twenty.
  pub walls_of_iff :
      (mean : List F → F) (multiplier price size : F) (levels : List (Level F))
      → let top = take 20 levels in
        let avg = mean (map (λ l. l.size) top) in
        (Any (Shows price size) (walls_of mean multiplier levels)
          ↔ Any (IsLarge avg multiplier price size) top)
        × (length (walls_of mean multiplier levels) ≤ 20)
  unfolding walls_of
  walls_of_iff mean multiplier price size levels =
      let top = take 20 levels in
      let avg = mean (map (λ l. l.size) top) in
      (
        (
          walls_among_sound avg multiplier price size top,
          walls_among_complete avg multiplier price size top,
        ),
        omega (arith, length-walls_among avg multiplier top, length-take 20 levels),
      )
