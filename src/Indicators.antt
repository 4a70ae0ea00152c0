-- ===== src/Indicators.antt =====
-- swaram/analytics/indicators.py: indicators over an array of numbers, which is a list. numpy's
-- `nan`, `mean`, `std`, `sqrt`, `log` and `convolve` are parameters; its divisions do not raise.
-- A period is given by the number before it, since each is positive at every call.
pub mod Alignment
pub mod Rsi
mod Tests
use mach.Prelude.{
  ℕ, zero, suc, ◌+◌, ◌-◌, ◌*◌, Bool, true, false, not, List, [], ◌∷◌, ◌++◌, map, length, take, drop,
  take_last, ltb, leb, ◌==◌, if◌then◌else◌,
}
use mach.Float.{Float, ◌⊕◌, ◌⊖◌, ◌⊗◌, nought, hundred}

pub record Numpy {ℓ} (F : Type ℓ) : Type ℓ where
  pub nan : F
  pub mean : List F → F
  pub std : List F → F
  pub sqrt : F → F
  pub log : F → F
  -- `np.convolve(values, weights, mode='valid')`
  pub convolve : List F → List F → List F

abbrev pub replicate {ℓ} : {A : Type ℓ} → ℕ → A → List A
replicate zero x = []
replicate (suc n) x = x ∷ replicate n x

-- An operation on two arrays, place by place.
abbrev pub zip_with {ℓ κ μ} :
    {A : Type ℓ} {B : Type κ} {C : Type μ} → (A → B → C) → List A → List B → List C
zip_with f [] ys = []
zip_with f (x ∷ xs) [] = []
zip_with f (x ∷ xs) (y ∷ ys) = f x y ∷ zip_with f xs ys

-- The three lines of MACD, and the three bands of Bollinger.
pub record Lines {ℓ} (F : Type ℓ) : Type ℓ where
  pub first : List F
  pub second : List F
  pub third : List F

module _ {ℓ} {F : Type ℓ} ⦃fl : Float F⦄ where
  open fl use {lt, eq, quot, neg, abs, decimal}

  abbrev pub is_nan : F → Bool
  is_nan x = not (eq x x)

  -- The loop, from the value before.
  pub ema_from : F → F → List F → List F
  ema_from multiplier prev [] = prev ∷ []
  ema_from multiplier prev (v ∷ vs) = prev ∷ ema_from multiplier ((v ⊖ prev) ⊗ multiplier ⊕ prev) vs

  -- `np.diff`
  pub diff : List F → List F
  diff [] = []
  diff (x ∷ []) = []
  diff (x ∷ y ∷ xs) = (y ⊖ x) ∷ diff (y ∷ xs)

  abbrev pub gain : F → F
  gain delta = if lt nought delta then delta else nought

  abbrev pub loss : F → F
  loss delta = if lt delta nought then neg delta else nought

  pub rsi_of : F → F → F
  rsi_of avg_gain avg_loss =
      if eq avg_loss nought
      then hundred
      else hundred ⊖ quot hundred (decimal 1 0 ⊕ quot avg_gain avg_loss)

  -- `(avg * (period - 1) + x) / period`
  pub smooth : ℕ → F → F → F
  smooth n avg x = quot (avg ⊗ decimal n 0 ⊕ x) (decimal (suc n) 0)

  -- The loop over the changes, from the averages before.
  pub rsi_from : ℕ → F → F → List F → List F
  unfolding rsi_of smooth
  rsi_from n avg_gain avg_loss [] = rsi_of avg_gain avg_loss ∷ []
  rsi_from n avg_gain avg_loss (d ∷ ds) =
      rsi_of avg_gain avg_loss
      ∷ rsi_from n (smooth n avg_gain (gain d)) (smooth n avg_loss (loss d)) ds

  -- `values[~np.isnan(values)]`
  pub valid : List F → List F
  valid [] = []
  valid (x ∷ xs) = let rest = valid xs in if is_nan x then rest else x ∷ rest

  -- `np.maximum`, which gives NaN where either side is NaN.
  pub maximum : F → F → F
  maximum x y = if is_nan x then x else if is_nan y then y else if lt x y then y else x

  -- The true ranges after the first, of the bars as (high, low, close) and the close before.
  pub true_ranges : F → List (F × F × F) → List F
  unfolding maximum
  true_ranges prev [] = []
  true_ranges prev ((high, low, close) ∷ bars) =
      maximum (high ⊖ low) (maximum (abs (high ⊖ prev)) (abs (low ⊖ prev))) ∷ true_ranges close bars

module _ {ℓ} {F : Type ℓ} ⦃fl : Float F⦄ (np : Numpy F) where
  open fl use {quot, decimal}

  -- `np.full_like(values, np.nan)`
  abbrev pub all_nan : List F → List F
  all_nan values = replicate (length values) np.nan

  pub calculate_sma : List F → ℕ → List F
  calculate_sma values n =
      if ltb (length values) (suc n)
      then all_nan values
      else replicate n np.nan
        ++ np.convolve values (replicate (suc n) (quot (decimal 1 0) (decimal (suc n) 0)))

  -- No values are fewer than any period.
  pub calculate_ema : List F → ℕ → List F
  unfolding ema_from
  calculate_ema values n =
      if ltb (length values) (suc n)
      then all_nan values
      else replicate n np.nan
        ++ ema_from (quot (decimal 2 0) (decimal (n + 2) 0)) (np.mean (take (suc n) values))
            (drop (suc n) values)

  pub calculate_rsi : List F → ℕ → List F
  unfolding diff rsi_from
  calculate_rsi prices n =
      let deltas = diff prices in
      if leb (length prices) (suc n)
      then all_nan prices
      else replicate (suc n) np.nan
        ++ rsi_from n (np.mean (map gain (take (suc n) deltas)))
            (np.mean (map loss (take (suc n) deltas))) (drop (suc n) deltas)

  -- `line[valid_idx] = sig`, on a line of NaN: the places of `xs` that are numbers take the next
  -- value, the others are NaN.
  pub scatter : List F → List F → List F
  scatter [] sig = []
  scatter (x ∷ xs) [] = np.nan ∷ scatter xs []
  scatter (x ∷ xs) (s ∷ sig) =
      let skip = scatter xs (s ∷ sig) in
      let fill = scatter xs sig in if is_nan x then np.nan ∷ skip else s ∷ fill

  -- The MACD, signal and histogram lines.
  pub calculate_macd : List F → ℕ → ℕ → ℕ → Lines F
  unfolding calculate_ema valid scatter
  calculate_macd prices fast slow signal =
      let macd_line = zip_with ◌⊖◌ (calculate_ema prices fast) (calculate_ema prices slow) in
      let signal_line =
        if ltb (length (valid macd_line)) (suc signal)
        then all_nan prices
        else scatter macd_line (calculate_ema (valid macd_line) signal) in
      record {
        first = macd_line;
        second = signal_line;
        third =
            if ltb (length (valid macd_line)) (suc signal)
            then all_nan prices
            else zip_with ◌⊖◌ macd_line signal_line;
      }

  pub calculate_atr : List (F × F × F) → ℕ → List F
  unfolding true_ranges calculate_ema
  calculate_atr [] n = []
  calculate_atr (bar ∷ []) n = np.nan ∷ []
  calculate_atr ((high, low, close) ∷ bar ∷ bars) n =
      calculate_ema ((high ⊖ low) ∷ true_ranges close (bar ∷ bars)) n

  -- The standard deviations of the windows, which are as many as there are places to fill.
  pub window_stds : ℕ → ℕ → List F → List F
  window_stds n zero values = []
  window_stds n (suc k) [] = []
  window_stds n (suc k) (v ∷ values) = np.std (take (suc n) (v ∷ values)) ∷ window_stds n k values

  -- The upper band, the average and the lower band.
  pub calculate_bollinger_bands : List F → ℕ → F → Lines F
  unfolding calculate_sma window_stds
  calculate_bollinger_bands prices n num_std =
      let sma = calculate_sma prices n in
      let stds = window_stds n (length prices - n) prices in
      let band : (F → F → F) → List F = λ side.
        if ltb (length prices) (suc n)
        then all_nan prices
        else replicate n np.nan
          ++ zip_with (λ mid std. side mid (num_std ⊗ std)) (drop n sma) stds in
      record { first = band ◌⊕◌; second = sma; third = band ◌⊖◌ }

  -- 365 days of 24 hours.
  pub calculate_realized_volatility : List F → ℕ → F
  unfolding diff
  calculate_realized_volatility closes window =
      let recent = if leb window (length closes) then take_last window closes else closes in
      let log_returns = diff (map np.log recent) in
      if ltb (length closes) 2
      then nought
      else if length log_returns == 0
      then nought
      else np.std log_returns ⊗ np.sqrt (decimal 8760 0)
