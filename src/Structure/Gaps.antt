-- ===== src/Structure/Gaps.antt =====
-- swaram/analytics/structure.py: the fair value gaps of `analyze_market_structure`.
use mach.Prelude.{
  ◌≡◌, refl, inl, inr, Bool, true, false, Bool-cases, not, ◌&&◌, List, [], ◌∷◌, ◌++◌, none, some,
  ltb, All, All-append, drop, map, if◌then◌else◌, arith,
}
use mach.Float.{Float}
use mach.Structure.{Bar, FvgZone}

module _ {ℓ} {F : Type ℓ} ⦃fl : Float F⦄ where
  open fl use {le, lt}

  -- The gap between a bar and the one two before it.
  unfoldable pub gap_of : Bar F → Bar F → List (FvgZone F)
  gap_of before b =
      if lt before.high b.low
      then record {
        timestamp = b.timestamp;
        high_level = b.low;
        low_level = before.high;
        is_bullish = true;
        is_mitigated = false;
        mitigated_at = none;
      }
        ∷ []
      else if lt b.high before.low
      then record {
        timestamp = b.timestamp;
        high_level = before.low;
        low_level = b.high;
        is_bullish = false;
        is_mitigated = false;
        mitigated_at = none;
      }
        ∷ []
      else []

  -- `for i in range(2, n)`: bars i - 2 and i, in step
  unfoldable pub detect_gaps : List (Bar F) → List (FvgZone F)
  unfolding gap_of
  detect_gaps [] = []
  detect_gaps (a ∷ []) = []
  detect_gaps (a ∷ b ∷ []) = []
  detect_gaps (a ∷ b ∷ c ∷ bars) = gap_of a c ++ detect_gaps (b ∷ c ∷ bars)

  -- Whether a bar enters a zone from the side that it was left on.
  abbrev pub enters : FvgZone F → Bar F → Bool
  enters z b =
      ltb z.timestamp b.timestamp
      && (if z.is_bullish then le b.low z.high_level else le z.low_level b.high)

  -- The first bar that enters a zone mitigates it, and the loop stops there.
  unfoldable pub mitigate : FvgZone F → List (Bar F) → FvgZone F
  mitigate z [] = z
  mitigate z (b ∷ bars) =
      let rest = mitigate z bars in
      if enters z b then record z { is_mitigated = true; mitigated_at = some b.timestamp } else rest

  abbrev pub unmitigated : List (FvgZone F) → List (FvgZone F)
  unmitigated [] = []
  unmitigated (z ∷ zs) = if z.is_mitigated then unmitigated zs else z ∷ unmitigated zs

  -- The zones that are left, of three bars or more.
  unfoldable pub active_gaps : List (Bar F) → List (FvgZone F)
  unfolding detect_gaps mitigate
  active_gaps bars = unmitigated (map (λ z. mitigate z (drop 2 bars)) (detect_gaps bars))

  -- A zone is a real gap: its low level lies strictly below its high level.
  abbrev pub IsGap : FvgZone F → Type 0
  IsGap z = lt z.low_level z.high_level ≡ true

  -- Whether no bar enters the zone.
  abbrev pub never_entered : FvgZone F → List (Bar F) → Bool
  never_entered z [] = true
  never_entered z (b ∷ bars) = not (enters z b) && never_entered z bars

  abbrev pub keep_open : List (Bar F) → List (FvgZone F) → List (FvgZone F)
  keep_open bars [] = []
  keep_open bars (z ∷ zs) =
      if never_entered z bars then z ∷ keep_open bars zs else keep_open bars zs

  gap_of-IsGap : (a b : Bar F) → All (λ z. IsGap z × (z.is_mitigated ≡ false)) (gap_of a b)
  unfolding gap_of
  gap_of-IsGap a b = ground arith

  detect_gaps-IsGap :
      (bars : List (Bar F)) → All (λ z. IsGap z × (z.is_mitigated ≡ false)) (detect_gaps bars)
  unfolding detect_gaps
  detect_gaps-IsGap [] = tt
  detect_gaps-IsGap (a ∷ []) = tt
  detect_gaps-IsGap (a ∷ b ∷ []) = tt
  detect_gaps-IsGap (a ∷ b ∷ c ∷ bars) =
      All-append _ (gap_of a c) _ (gap_of-IsGap a c) (detect_gaps-IsGap (b ∷ c ∷ bars))

  mitigate-open :
      (z : FvgZone F) (bars : List (Bar F)) → never_entered z bars ≡ true → mitigate z bars ≡ z
  unfolding mitigate
  mitigate-open z [] e = refl
  mitigate-open z (b ∷ bars) e = ground (arith, mitigate-open z bars)

  mitigate-entered :
      (z : FvgZone F) (bars : List (Bar F))
      → never_entered z bars ≡ false
      → (mitigate z bars).is_mitigated ≡ true
  unfolding mitigate
  mitigate-entered z [] e = cc
  mitigate-entered z (b ∷ bars) e = ground (arith, mitigate-entered z bars)

  unmitigated-eq :
      (zs : List (FvgZone F)) (bars : List (Bar F))
      → All (λ z. IsGap z × (z.is_mitigated ≡ false)) zs
      → unmitigated (map (λ z. mitigate z bars) zs) ≡ keep_open bars zs
  unmitigated-eq [] bars h = refl
  unmitigated-eq (z ∷ zs) bars ((g, fresh), h) = elim (Bool-cases (never_entered z bars)) [
    | inl open_zone ↦
        rw (open_zone, mitigate-open z bars open_zone, fresh, unmitigated-eq zs bars h)
    | inr entered ↦ rw (entered, mitigate-entered z bars entered) (unmitigated-eq zs bars h)
  ]

  keep_open-All :
      (P : FvgZone F → Type 0) (bars : List (Bar F)) (zs : List (FvgZone F))
      → All P zs
      → All P (keep_open bars zs)
  keep_open-All P bars [] h = tt
  keep_open-All P bars (z ∷ zs) (h, hs) = elim (Bool-cases (never_entered z bars)) [
    | inl e ↦ rw e (h, keep_open-All P bars zs hs)
    | inr e ↦ rw e (keep_open-All P bars zs hs)
  ]

  -- The gaps reported as active are exactly those detected that no bar after the second enters
  -- later, unchanged and in order; each is a real gap, with its low level strictly below its high
  -- level, and none is marked as mitigated.
  pub active_gaps-eq :
      (bars : List (Bar F))
      → (active_gaps bars ≡ keep_open (drop 2 bars) (detect_gaps bars))
        × All (λ z. IsGap z × (z.is_mitigated ≡ false)) (active_gaps bars)
  unfolding active_gaps
  active_gaps-eq bars =
      let gaps = detect_gaps-IsGap bars in
      let same = unmitigated-eq (detect_gaps bars) (drop 2 bars) gaps in
      (same, rw same (keep_open-All _ (drop 2 bars) (detect_gaps bars) gaps))
