-- ===== src/Anomalies/Tests.antt =====
-- The detectors on concrete numbers.
use mach.Prelude.{◌≡◌, refl, some}
use mach.Prelude.Int.{◌-ℤ◌}
use mach.Float.Fixed.{Fixed, fixed_float}
use mach.Anomalies.{
  AnomalyAlert, flash_crash, warning, potential_flash_crash, detect_price_spike, price_alert,
}
open fixed_float use {decimal as num, neg}

abbrev crash : AnomalyAlert Fixed
crash = record {
  anomaly_type = flash_crash;
  severity = warning;
  description = potential_flash_crash (neg (num 3 0));
  trigger_value = neg (num 3 0);
  threshold_value = num 2 0;
}

crash_found : detect_price_spike (num 97 0) (num 100 0) (num 2 0) ≡ some crash
unfolding detect_price_spike price_alert ◌-ℤ◌
crash_found = refl
