-- ===== src/Anomalies.antt =====
-- swaram/analytics/anomalies.py: the four detectors. A description is its template with the numbers
-- that the code formats into it.
pub mod Thresholds
mod Tests
use mach.Prelude.{Bool, true, false, Option, none, some, if◌then◌else◌}
use mach.Float.{Float, ◌⊖◌, ◌⊗◌, nought, hundred}

-- The strings of `anomaly_type`, and those of `severity`.
pub data AnomalyType : Type 0 where
  price_spike flash_crash spread_explosion extreme_imbalance volume_surge : AnomalyType

pub data Severity : Type 0 where
  warning critical : Severity

-- The word "SPIKE" or "FLASH CRASH", and "buying" or "selling".
pub data Description {ℓ} (F : Type ℓ) : Type ℓ where
  potential_spike potential_flash_crash : F → Description F
  spread_multiple volume_multiple : F → Description F
  buying_pressure selling_pressure : F → Description F

pub record AnomalyAlert {ℓ} (F : Type ℓ) : Type ℓ where
  pub anomaly_type : AnomalyType
  pub severity : Severity
  pub description : Description F
  pub trigger_value : F
  pub threshold_value : F

module _ {ℓ} {F : Type ℓ} ⦃fl : Float F⦄ where
  open fl use {lt, le, quot, abs, round, decimal}

  -- The default threshold is 2.0.
  pub price_alert : F → F → AnomalyAlert F
  price_alert pct_move threshold = record {
    anomaly_type = if lt pct_move nought then flash_crash else price_spike;
    severity = if le (threshold ⊗ decimal 2 0) (abs pct_move) then critical else warning;
    description =
        if lt nought pct_move then potential_spike pct_move else potential_flash_crash pct_move;
    trigger_value = round pct_move 4;
    threshold_value = threshold;
  }

  -- The move of a price in percent of the one before.
  abbrev pub pct_move_of : F → F → F
  pct_move_of last prev = quot (last ⊖ prev) prev ⊗ hundred

  pub detect_price_spike : F → F → F → Option (AnomalyAlert F)
  unfolding price_alert
  detect_price_spike last prev threshold =
      if le prev nought
      then none
      else if le threshold (abs (pct_move_of last prev))
      then some (price_alert (pct_move_of last prev) threshold)
      else none

  -- The default multiplier is 5.0.
  pub detect_spread_explosion : F → F → F → Option (AnomalyAlert F)
  detect_spread_explosion spread avg_spread multiplier =
      if le avg_spread nought
      then none
      else if le (avg_spread ⊗ multiplier) spread
      then some (record {
        anomaly_type = spread_explosion;
        severity = if le (avg_spread ⊗ multiplier ⊗ decimal 2 0) spread then critical else warning;
        description = spread_multiple (quot spread avg_spread);
        trigger_value = round spread 6;
        threshold_value = round (avg_spread ⊗ multiplier) 6;
      })
      else none

  -- The default threshold is 0.85.
  pub detect_imbalance_anomaly : F → F → Option (AnomalyAlert F)
  detect_imbalance_anomaly imbalance threshold =
      if le threshold (abs imbalance)
      then some (record {
        anomaly_type = extreme_imbalance;
        severity = warning;
        description =
            if lt nought imbalance then buying_pressure imbalance else selling_pressure imbalance;
        trigger_value = round imbalance 4;
        threshold_value = threshold;
      })
      else none

  -- The default multiplier is 4.0.
  pub detect_volume_anomaly : F → F → F → Option (AnomalyAlert F)
  detect_volume_anomaly volume avg_volume multiplier =
      if le avg_volume nought
      then none
      else if le (avg_volume ⊗ multiplier) volume
      then some (record {
        anomaly_type = volume_surge;
        severity = warning;
        description = volume_multiple (quot volume avg_volume);
        trigger_value = round volume 2;
        threshold_value = round (avg_volume ⊗ multiplier) 2;
      })
      else none
