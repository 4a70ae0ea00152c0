-- ===== src/Analytics/Volume.antt =====
-- swaram/analytics/volume.py. numpy's functions on arrays are parameters.
use mach.Prelude.{
  ℕ, ◌||◌, List, [], ◌∷◌, none, some, Raises, ok, raised, ◌>>=◌, index_error, length, get_elem?,
  if◌then◌else◌, ◌==◌,
}
use mach.Float.{Float, ◌⊕◌, ◌⊗◌, nought}
use mach.Indicators.{zip_with}

pub record VolumeNumpy {ℓ} (F : Type ℓ) : Type ℓ where
  pub cumsum : List F → List F
  pub sum : List F → F
  pub least : List F → F
  pub greatest : List F → F
  pub argmax : List F → ℕ
  -- `np.argsort(xs)[::-1]`
  pub argsort_down : List F → List ℕ
  -- `np.histogram(closes, bins=n, weights=volumes)`: the counts and the centers of the bins.
  pub histogram : List F → ℕ → List F → List F × List F

pub record VolumeProfileResult {ℓ} (F : Type ℓ) : Type ℓ where
  pub poc_price : F
  pub vah_price : F
  pub val_price : F
  pub total_volume : F
  pub profile_bins : List (F × F)

-- `xs[i]`
abbrev pub at_index {ℓ} : {A : Type ℓ} → List A → ℕ → Raises A
at_index xs i = elim (get_elem? xs i) [ none ↦ raised index_error | some x ↦ ok x ]

abbrev pub all_at {ℓ} : {A : Type ℓ} → List A → List ℕ → Raises (List A)
all_at xs [] = ok []
all_at xs (i ∷ is) = do x ← at_index xs i; rest ← all_at xs is; ok (x ∷ rest)

module _ {ℓ} {F : Type ℓ} ⦃fl : Float F⦄ where
  open fl use {le, eq, quot, round, decimal}

  -- The loop over the bins by falling volume: the bins that are taken.
  pub accumulate : List F → F → F → List ℕ → Raises (List ℕ)
  accumulate counts target acc [] = ok []
  accumulate counts target acc (i ∷ is) = do
    v ← at_index counts i
    rest ← if le target (acc ⊕ v) then ok [] else accumulate counts target (acc ⊕ v) is
    ok (i ∷ rest)

  module _ (np : VolumeNumpy F) where
    -- A cumulated volume of zero is replaced by 1e-9.
    unfoldable pub calculate_vwap : List F → List F → List F → List F → List F
    calculate_vwap closes highs lows volumes =
        let typical_price =
          zip_with (λ hl c. quot (hl ⊕ c) (decimal 3 0)) (zip_with ◌⊕◌ highs lows) closes in
        let cum_tp_vol = np.cumsum (zip_with ◌⊗◌ typical_price volumes) in
        let cum_vol = np.cumsum volumes in
        zip_with (λ tp v. quot tp (if eq v nought then decimal 1 9 else v)) cum_tp_vol cum_vol

    abbrev pub flat_profile : F → F → List (F × F) → VolumeProfileResult F
    flat_profile price total bins = record {
      poc_price = price;
      vah_price = price;
      val_price = price;
      total_volume = total;
      profile_bins = bins;
    }

    -- The profile of prices that differ. Bins whose rounded centers agree share a key of the
    -- dictionary; here each keeps its own.
    unfoldable pub binned_profile : List F → List F → ℕ → F → Raises (VolumeProfileResult F)
    unfolding accumulate
    binned_profile closes volumes num_bins value_area_pct = do
      let (counts, centers) = np.histogram closes num_bins volumes
      poc_price ← at_index centers (np.argmax counts)
      let total_volume = np.sum counts
      va_indices ← accumulate counts (total_volume ⊗ value_area_pct) nought (np.argsort_down counts)
      va_prices ← all_at centers va_indices
      ok (record {
        poc_price = poc_price;
        vah_price = np.greatest va_prices;
        val_price = np.least va_prices;
        total_volume = total_volume;
        profile_bins = zip_with (λ p v. (round p 4, v)) centers counts;
      })

    unfoldable pub calculate_volume_profile :
        List F → List F → ℕ → F → Raises (VolumeProfileResult F)
    unfolding binned_profile
    calculate_volume_profile closes volumes num_bins value_area_pct =
        let min_price = np.least closes in
        if length closes == 0 || eq (np.sum volumes) nought
        then ok (flat_profile nought nought [])
        else if eq min_price (np.greatest closes)
        then ok (flat_profile min_price (np.sum volumes) ((min_price, np.sum volumes) ∷ []))
        else binned_profile closes volumes num_bins value_area_pct
