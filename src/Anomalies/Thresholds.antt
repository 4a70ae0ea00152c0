-- ===== src/Anomalies/Thresholds.antt =====
-- swaram/analytics/anomalies.py: how alerts depend on the thresholds.
use mach.Prelude.{◌≡◌, refl, inl, inr, true, Bool-cases, none, some, some-injective, ap}
use mach.Float.{Float, nought}
use mach.Float.Laws.{IsOrdered}
use mach.Anomalies.{AnomalyAlert, price_alert, detect_price_spike, pct_move_of}

module _ {ℓ} {F : Type ℓ} ⦃fl : Float F⦄ where
  open fl use {lt, le, abs, round}

  -- A lower threshold keeps every price alert: its kind, its description and its trigger value
  -- stay.
  detect_price_spike_mono :
      IsOrdered F
      → (last prev low high : F) (a : AnomalyAlert F) → le low high ≡ true
      → detect_price_spike last prev high ≡ some a
      → (b : AnomalyAlert F) × (detect_price_spike last prev low ≡ some b)
        × (b.anomaly_type ≡ a.anomaly_type)
        × (b.description ≡ a.description)
        × (b.trigger_value ≡ a.trigger_value)
  unfolding detect_price_spike price_alert
  detect_price_spike_mono ordered last prev low high a below found =
      let move = pct_move_of last prev in
      elim (Bool-cases (le prev nought)) [
        | inl e ↦ absurd (let lost : none ≡ some a = rw (detect_price_spike, e) at found in cc)
        | inr e ↦ elim (Bool-cases (le high (abs move))) [
          | inl f ↦
              let same = some-injective _ _ (rw (detect_price_spike, e, f) at found) in
              (
                price_alert move low,
                rw (detect_price_spike, e, ordered.le_trans low high (abs move) below f) refl,
                ap (λ x. x.anomaly_type) same,
                ap (λ x. x.description) same,
                ap (λ x. x.trigger_value) same,
              )
          | inr f ↦ absurd (let lost : none ≡ some a = rw (detect_price_spike, e, f) at found in cc)
        ]
      ]
