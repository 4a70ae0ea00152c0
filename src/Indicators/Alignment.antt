-- ===== src/Indicators/Alignment.antt =====
-- swaram/analytics/indicators.py: every indicator is aligned with its prices.
use mach.Prelude.{
  ℕ, zero, suc, ◌+◌, ◌-◌, ◌≤◌, ◌≡◌, refl, Bool, true, false, List, [], ◌∷◌, ◌++◌, map, length, take,
  drop, length-append, length-drop, ltb, leb, min, if◌then◌else◌, Bool-cases, inl, inr, arith, ap,
  tests, ◌∙◌,
}
use mach.Float.{Float, ◌⊕◌, ◌⊖◌, ◌⊗◌}
use mach.Indicators.{
  Numpy, Lines, all_nan, replicate, zip_with, gain, loss, smooth, is_nan, ema_from, rsi_from, diff,
  scatter, valid, true_ranges, window_stds, calculate_sma, calculate_ema, calculate_rsi,
  calculate_macd, calculate_atr, calculate_bollinger_bands,
}

-- Three lines of the same length.
pub record IsAligned {ℓ} {F : Type ℓ} (lines : Lines F) (n : ℕ) : Type 0 where
  pub first : length lines.first ≡ n
  pub second : length lines.second ≡ n
  pub third : length lines.third ≡ n

length-replicate {ℓ} : {A : Type ℓ} (n : ℕ) (x : A) → length (replicate n x) ≡ n
length-replicate zero x = refl
length-replicate (suc n) x = ap suc (length-replicate n x)

length-zip_with {ℓ} :
    {A : Type ℓ} (f : A → A → A) (xs ys : List A)
    → length (zip_with f xs ys) ≡ min (length xs) (length ys)
length-zip_with f [] ys = omega arith
length-zip_with f (x ∷ xs) [] = omega arith
length-zip_with f (x ∷ xs) (y ∷ ys) = omega (arith, length-zip_with f xs ys)

length-if {ℓ} :
    {A : Type ℓ} (b : Bool) (xs ys : List A) {n : ℕ}
    → length xs ≡ n
    → (b ≡ false → length ys ≡ n)
    → length (if b then xs else ys) ≡ n
length-if true xs ys h k = h
length-if false xs ys h k = k refl

long_enough : (m n : ℕ) → ltb m (suc n) ≡ false → suc n ≤ m
long_enough m n h = ground arith

length-padded {ℓ} :
    {A : Type ℓ} (n : ℕ) (x : A) (ys : List A) → length (replicate n x ++ ys) ≡ n + length ys
length-padded n x ys = omega (arith, length-append (replicate n x) ys, length-replicate n x)

module _ {ℓ} {F : Type ℓ} ⦃fl : Float F⦄ where
  length-ema_from : (m prev : F) (vs : List F) → length (ema_from m prev vs) ≡ suc (length vs)
  unfolding ema_from
  length-ema_from m prev [] = refl
  length-ema_from m prev (v ∷ vs) = ap suc (length-ema_from m ((v ⊖ prev) ⊗ m ⊕ prev) vs)

  length-rsi_from : (n : ℕ) (g l : F) (ds : List F) → length (rsi_from n g l ds) ≡ suc (length ds)
  unfolding rsi_from
  length-rsi_from n g l [] = refl
  length-rsi_from n g l (d ∷ ds) =
      ap suc (length-rsi_from n (smooth n g (gain d)) (smooth n l (loss d)) ds)

  length-diff : (xs : List F) → length (diff xs) ≡ length xs - 1
  unfolding diff
  length-diff [] = refl
  length-diff (x ∷ []) = refl
  length-diff (x ∷ y ∷ xs) = omega (arith, length-diff (y ∷ xs))

  length-true_ranges :
      (prev : F) (bars : List (F × F × F)) → length (true_ranges prev bars) ≡ length bars
  unfolding true_ranges
  length-true_ranges prev [] = refl
  length-true_ranges prev ((high, low, close) ∷ bars) = ap suc (length-true_ranges close bars)

module _ {ℓ} {F : Type ℓ} ⦃fl : Float F⦄ (np : Numpy F) where
  -- numpy's convolution in its mode "valid": one value for each full overlap.
  unfoldable pub IsValid : Type ℓ
  IsValid =
      (xs ws : List F)
      → 1 ≤ length ws
      → length ws ≤ length xs
      → length (np.convolve xs ws) + length ws ≡ length xs + 1

  length-scatter : (xs sig : List F) → length (scatter np xs sig) ≡ length xs
  unfolding scatter
  length-scatter [] sig = refl
  length-scatter (x ∷ xs) [] = ap suc (length-scatter xs [])
  length-scatter (x ∷ xs) (s ∷ sig) = elim (Bool-cases (is_nan x)) [
    | inl e ↦ rw e (ap suc (length-scatter xs (s ∷ sig)))
    | inr e ↦ rw e (ap suc (length-scatter xs sig))
  ]

  length-window_stds :
      (n k : ℕ) (values : List F) → k ≤ length values → length (window_stds np n k values) ≡ k
  unfolding window_stds
  length-window_stds n zero values h = refl
  length-window_stds n (suc k) [] h = absurd (omega arith)
  length-window_stds n (suc k) (v ∷ values) h = ap suc (length-window_stds n k values (omega arith))

  length-calculate_ema :
      (values : List F) (n : ℕ) → length (calculate_ema np values n) ≡ length values
  unfolding calculate_ema
  length-calculate_ema values n = elim (Bool-cases (ltb (length values) (suc n))) [
    | inl few ↦ rw (few, calculate_ema) (length-replicate (length values) np.nan)
    | inr enough ↦
        let long : suc n ≤ length values = ground arith in
        rw (enough, calculate_ema)
          (omega (
            arith,
            length-padded n np.nan
                (ema_from _ (np.mean (take (suc n) values)) (drop (suc n) values)),
            length-ema_from _ (np.mean (take (suc n) values)) (drop (suc n) values),
            length-drop (suc n) values,
          ))
  ]

  length-calculate_rsi :
      (prices : List F) (n : ℕ) → length (calculate_rsi np prices n) ≡ length prices
  unfolding calculate_rsi
  length-calculate_rsi prices n = elim (Bool-cases (leb (length prices) (suc n))) [
    | inl few ↦ rw (few, calculate_rsi) (length-replicate (length prices) np.nan)
    | inr enough ↦
        let long : suc (suc n) ≤ length prices = ground arith in
        let rest = drop (suc n) (diff prices) in
        rw (enough, calculate_rsi)
          (omega (
            arith,
            length-padded (suc n) np.nan (rsi_from n _ _ rest),
            length-rsi_from n (np.mean (map gain (take (suc n) (diff prices))))
                (np.mean (map loss (take (suc n) (diff prices)))) rest,
            length-drop (suc n) (diff prices),
            length-diff prices,
          ))
  ]

  length-calculate_atr :
      (bars : List (F × F × F)) (n : ℕ) → length (calculate_atr np bars n) ≡ length bars
  unfolding calculate_atr
  length-calculate_atr [] n = refl
  length-calculate_atr (bar ∷ []) n = refl
  length-calculate_atr ((high, low, close) ∷ bar ∷ bars) n = omega (
    arith,
    length-calculate_ema ((high ⊖ low) ∷ true_ranges close (bar ∷ bars)) n,
    length-true_ranges close (bar ∷ bars),
  )

  calculate_macd-IsAligned :
      (prices : List F) (fast slow signal : ℕ)
      → IsAligned (calculate_macd np prices fast slow signal) (length prices)
  unfolding calculate_macd
  calculate_macd-IsAligned prices fast slow signal =
      let macd = zip_with ◌⊖◌ (calculate_ema np prices fast) (calculate_ema np prices slow) in
      let sig = scatter np macd (calculate_ema np (valid macd) signal) in
      let line : length macd ≡ length prices = omega (
        arith,
        length-zip_with ◌⊖◌ (calculate_ema np prices fast) (calculate_ema np prices slow),
        length-calculate_ema prices fast,
        length-calculate_ema prices slow,
      ) in
      let few = ltb (length (valid macd)) (suc signal) in
      let blank = length-replicate (length prices) np.nan in
      let second : length (if few then all_nan np prices else sig) ≡ length prices =
        length-if few (all_nan np prices) sig blank
          (λ _. length-scatter macd (calculate_ema np (valid macd) signal) ∙ line) in
      let both = length-zip_with ◌⊖◌ macd (if few then all_nan np prices else sig) in
      record {
        first = line;
        second = second;
        third =
            length-if few (all_nan np prices)
              (zip_with ◌⊖◌ macd (if few then all_nan np prices else sig)) blank
              (λ _. omega (arith, both, line, second));
      }

  module _ (overlaps : IsValid) where
    length-calculate_sma :
        (values : List F) (n : ℕ) → length (calculate_sma np values n) ≡ length values
    unfolding calculate_sma IsValid
    length-calculate_sma values n = elim (Bool-cases (ltb (length values) (suc n))) [
      | inl few ↦ rw (few, calculate_sma) (length-replicate (length values) np.nan)
      | inr enough ↦
          let long : suc n ≤ length values = ground arith in
          let weights = replicate (suc n) (fl.quot (fl.decimal 1 0) (fl.decimal (suc n) 0)) in
          let size : length weights ≡ suc n = length-replicate (suc n) _ in
          rw (enough, calculate_sma)
            (omega (
              arith,
              length-padded n np.nan (np.convolve values weights),
              overlaps values weights (omega arith) (omega arith),
              size,
            ))
    ]

    calculate_bollinger_bands-IsAligned :
        (prices : List F) (n : ℕ) (num_std : F)
        → IsAligned (calculate_bollinger_bands np prices n num_std) (length prices)
    unfolding calculate_bollinger_bands
    calculate_bollinger_bands-IsAligned prices n num_std =
        let mid = length-calculate_sma prices n in
        let sma = drop n (calculate_sma np prices n) in
        let stds = window_stds np n (length prices - n) prices in
        let few = ltb (length prices) (suc n) in
        let band : (side : F → F → F)
            → length (
                if few
                then all_nan np prices
                else replicate n np.nan ++ zip_with (λ m std. side m (num_std ⊗ std)) sma stds)
              ≡ length prices =
          λ side.
            length-if few (all_nan np prices) _ (length-replicate (length prices) np.nan) (λ enough.
              omega (
                tests,
                length-padded n np.nan (zip_with (λ m std. side m (num_std ⊗ std)) sma stds),
                length-zip_with (λ m std. side m (num_std ⊗ std)) sma stds,
                length-drop n (calculate_sma np prices n),
                mid,
                length-window_stds n (length prices - n) prices (omega arith),
                long_enough (length prices) n enough,
              )) in
        record { first = band ◌⊕◌; second = mid; third = band ◌⊖◌ }

    -- Every indicator has one value for each bar, for every period and however few the bars are:
    -- both averages, the RSI, the ATR, the three lines of MACD and the three bands. So the last
    -- value of each belongs to the last bar. What is assumed of numpy's convolution is the length
    -- of its result.
    pub indicators-IsAligned :
        (prices : List F) (bars : List (F × F × F)) (n slow signal : ℕ) (num_std : F)
        → (length (calculate_sma np prices n) ≡ length prices)
          × (length (calculate_ema np prices n) ≡ length prices)
          × (length (calculate_rsi np prices n) ≡ length prices)
          × (length (calculate_atr np bars n) ≡ length bars)
          × IsAligned (calculate_macd np prices n slow signal) (length prices)
          × IsAligned (calculate_bollinger_bands np prices n num_std) (length prices)
    indicators-IsAligned prices bars n slow signal num_std = (
      length-calculate_sma prices n,
      length-calculate_ema prices n,
      length-calculate_rsi prices n,
      length-calculate_atr bars n,
      calculate_macd-IsAligned prices n slow signal,
      calculate_bollinger_bands-IsAligned prices n num_std,
    )
