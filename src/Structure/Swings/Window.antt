-- ===== src/Structure/Swings/Window.antt =====
-- swaram/analytics/structure.py: the loops of `detect_swing_points` against the windows they test.
use mach.Prelude.{
  ℕ, zero, suc, ◌+◌, ◌-◌, ◌≤◌, ◌<◌, ◌≡◌, refl, inl, inr, Bool, true, false, Bool-cases, List, some,
  get_elem?, Any, Any-append_left, Any-append_right, Any-append_split, arith, Option-cases,
}
use native.Mathlib.Decide.{dec_le}
use mathlib.Core.Path.{subst, subst₂}
use mach.Float.{Float}
use mach.Structure.{Bar, SwingPoint}
use mach.Structure.Swings.{level, stops, is_swing, swing_of, swings_at, swings_from}

module _ {ℓ} {F : Type ℓ} ⦃fl : Float F⦄ where
  open fl use {le, lt}

  -- No bar from j on, among n, stops bar i.
  abbrev pub Unstopped : Bool → List (Bar F) → ℕ → F → ℕ → ℕ → Type 0
  Unstopped h bars i x j n = (k : ℕ) → j ≤ k → k < j + n → stops h bars i x k ≡ false

  pub is_swing_sound :
      (h : Bool) (bars : List (Bar F)) (i : ℕ) (x : F) (j n : ℕ)
      → is_swing h bars i x j n ≡ true
      → Unstopped h bars i x j n
  unfolding is_swing
  is_swing_sound h bars i x j zero e k a b = absurd (omega arith)
  is_swing_sound h bars i x j (suc n) e k a b = elim (Bool-cases (stops h bars i x j)) [
    | inl s ↦ absurd (ground arith)
    | inr s ↦ elim (dec_le (suc j) k) [
      | yes later ↦ is_swing_sound h bars i x (suc j) n (rw s at e) k later (omega arith)
      | no now ↦ let same : j ≡ k = omega arith in rw (← same) s
    ]
  ]

  pub is_swing_complete :
      (h : Bool) (bars : List (Bar F)) (i : ℕ) (x : F) (j n : ℕ)
      → Unstopped h bars i x j n
      → is_swing h bars i x j n ≡ true
  unfolding is_swing
  is_swing_complete h bars i x j zero u = refl
  is_swing_complete h bars i x j (suc n) u =
      rw (u j (omega arith) (omega arith))
        (is_swing_complete h bars i x (suc j) n (λ k a b. u k (omega arith) (omega arith)))

  -- A swing of a kind at bar i.
  abbrev pub Has : Bool → ℕ → List (SwingPoint F) → Type 0
  Has h i = Any λ s. (s.index ≡ i) × (s.is_high ≡ h)

  -- Bar i is a swing of a kind, by the window's test.
  abbrev Passes : Bool → List (Bar F) → ℕ → ℕ → ℕ → Type ℓ
  Passes h bars left right i =
      (b : Bar F) × (get_elem? bars i ≡ some b)
      × (is_swing h bars i (level h b) (i - left) (left + right + 1) ≡ true)

  swing_of-Has :
      (h g : Bool) (bars : List (Bar F)) (left right i k : ℕ) (b : Bar F)
      → Has h i (swing_of g bars left right k b)
      → (k ≡ i) × (g ≡ h) × (is_swing g bars k (level g b) (k - left) (left + right + 1) ≡ true)
  unfolding swing_of
  swing_of-Has h g bars left right i k b m = ground arith

  swing_of-passes :
      (h : Bool) (bars : List (Bar F)) (left right i : ℕ) (b : Bar F)
      → is_swing h bars i (level h b) (i - left) (left + right + 1) ≡ true
      → Has h i (swing_of h bars left right i b)
  unfolding swing_of
  swing_of-passes h bars left right i b e = rw e (inl (refl, refl))

  swings_at_sound :
      (h : Bool) (bars : List (Bar F)) (left right i k : ℕ)
      → Has h i (swings_at bars left right k)
      → (k ≡ i) × Passes h bars left right i
  unfolding swings_at
  swings_at_sound h bars left right i k m = elim (Option-cases (get_elem? bars k)) [
    | inl gone ↦ absurd (rw (gone, swings_at) at m)
    | inr (b, found) ↦
        elim (Any-append_split _ (swing_of true bars left right k b)
          (swing_of false bars left right k b) (rw (found, swings_at) at m)) [
            | inl high ↦ passes_of true b found (swing_of-Has h true bars left right i k b high)
            | inr low ↦ passes_of false b found (swing_of-Has h false bars left right i k b low)
          ]
  ]
    where
      passes_of :
          (g : Bool) (b : Bar F)
          → get_elem? bars k ≡ some b
          → (k ≡ i) × (g ≡ h) × (is_swing g bars k (level g b) (k - left) (left + right + 1) ≡ true)
          → (k ≡ i) × Passes h bars left right i
      passes_of g b found (same, kind, e) = (
        same,
        (
          b,
          subst (λ t. get_elem? bars t ≡ some b) same found,
          subst₂ (λ t u. is_swing u bars t (level u b) (t - left) (left + right + 1) ≡ true) same
              kind e,
        ),
      )

  swings_at_complete :
      (h : Bool) (bars : List (Bar F)) (left right i : ℕ)
      → Passes h bars left right i
      → Has h i (swings_at bars left right i)
  unfolding swings_at
  swings_at_complete true bars left right i (b, found, e) =
      rw (found, swings_at) (Any-append_left _ _ _ (swing_of-passes true bars left right i b e))
  swings_at_complete false bars left right i (b, found, e) =
      rw (found, swings_at) (Any-append_right _ _ _ (swing_of-passes false bars left right i b e))

  pub swings_from_sound :
      (h : Bool) (bars : List (Bar F)) (left right i k n : ℕ)
      → Has h i (swings_from bars left right k n)
      → (k ≤ i) × (i < k + n) × Passes h bars left right i
  unfolding swings_from
  swings_from_sound h bars left right i k zero m = elim m [ ]
  swings_from_sound h bars left right i k (suc n) m =
      elim (Any-append_split _ (swings_at bars left right k) _ m) [
        | inl now ↦
            let (e, p) = swings_at_sound h bars left right i k now in (omega arith, omega arith, p)
        | inr later ↦
            let (a, b, p) = swings_from_sound h bars left right i (suc k) n later in
            (omega arith, omega arith, p)
      ]

  pub swings_from_complete :
      (h : Bool) (bars : List (Bar F)) (left right i k n : ℕ)
      → k ≤ i
      → i < k + n
      → Passes h bars left right i
      → Has h i (swings_from bars left right k n)
  unfolding swings_from
  swings_from_complete h bars left right i k zero a b p = absurd (omega arith)
  swings_from_complete h bars left right i k (suc n) a b p = elim (dec_le (suc k) i) [
    | yes later ↦
        Any-append_right _ (swings_at bars left right k) _
          (swings_from_complete h bars left right i (suc k) n later (omega arith) p)
    | no now ↦
        let same : i ≡ k = omega arith in
        Any-append_left _ (swings_at bars left right k) _
          (rw (← same) (swings_at_complete h bars left right i p))
  ]
