-- ===== src/Analytics/Tests.antt =====
-- The analytics on concrete values.
use mach.Prelude.{subst, sym, ◌≡◌, ◌↔◌, refl, true, [], ◌∷◌, none, some, arith, Any}
use mach.Prelude.Int.{ℤ, pos, negsuc}
use mach.Text.{codes}
use mach.Float.Fixed.{Fixed, fixed_float}
use mach.Analytics.Correlation.{
  CorrelationNumpy, Returns, compute_correlation_matrix, IsCorrelation,
  compute_correlation_matrix-IsCorrelation,
}
use mach.Analytics.Watchdog.{MacroEvent, IsNear, evaluate_risk_window, evaluate_risk_window_iff}
open fixed_float use {decimal as num, eq, round}

abbrev level : CorrelationNumpy Fixed
level = record { std = λ xs. num 1 0; corrcoef = λ xs ys. num 5 1 }

abbrev returns : Returns Fixed
returns =
    (codes "BTC", num 1 2 ∷ num 2 2 ∷ []) ∷ (codes "ETH", num 2 2 ∷ num 1 2 ∷ num 3 2 ∷ []) ∷ []

eq_itself : (a : ℤ) → eq (some a) (some a) ≡ true
eq_itself (pos n) = ground arith
eq_itself (negsuc n) = ground arith

round_some : (a : ℤ) → (b : ℤ) × (round (some a) 4 ≡ some b)
round_some a = (_, refl)

round_number : (x : Fixed) → eq x x ≡ true → eq (round x 4) (round x 4) ≡ true
round_number none h = h
round_number (some a) h =
    let (b, e) = round_some a in subst (λ x. eq x x ≡ true) (sym e) (eq_itself b)

compute_correlation_matrix-IsCorrelation_example :
    IsCorrelation level returns (compute_correlation_matrix level returns)
compute_correlation_matrix-IsCorrelation_example =
    compute_correlation_matrix-IsCorrelation level returns refl refl round_number

abbrev payrolls : MacroEvent
payrolls = record {
  event_name = codes "NFP";
  country = codes "US";
  category = codes "LABOR";
  impact_level = some (codes "HIGH");
  timestamp = some 2_000_000;
}

evaluate_risk_window_iff_example :
    ((evaluate_risk_window 900_000_000 1_000_000 (payrolls ∷ [])).is_high_risk_window ≡ true)
    ↔ Any (IsNear 900_000_000 1_000_000) (payrolls ∷ [])
evaluate_risk_window_iff_example = evaluate_risk_window_iff 900_000_000 1_000_000 (payrolls ∷ [])
