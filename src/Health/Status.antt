-- ===== src/Health/Status.antt =====
-- swaram/core/health.py: what `status` says after a message.
use mach.Prelude.{ℕ, zero, suc, ◌+◌, ◌≤◌, ◌<◌, ◌≡◌, refl, ◌↔◌, Option, arith}
use mach.Text.{Text}
use mach.Health.{ProviderHealth, stale, degraded, healthy, status, record_message, record_error}

-- `record_error`, for each of a list of errors
abbrev pub record_errors : ProviderHealth → ℕ → Text → ProviderHealth
record_errors h zero err = h
record_errors h (suc n) err = record_error (record_errors h n err) err

errors_fields :
    (h : ProviderHealth) (n : ℕ) (err : Text)
    → let g = record_errors h n err in
      (g.connected ≡ h.connected)
      × (g.last_message_at ≡ h.last_message_at)
      × (g.stale_threshold ≡ h.stale_threshold)
      × (g.error_count ≡ h.error_count + n)
unfolding record_error
errors_fields h zero err = (refl, refl, refl, omega arith)
errors_fields h (suc n) err = ground (arith, errors_fields h n err)

-- A provider that received a message, then n errors and nothing else, is seen at a later instant as
-- stale exactly when more than the threshold has passed, as degraded exactly when it has not and
-- there are more than ten errors in all, and as healthy exactly otherwise.
status-record_message :
    (h : ProviderHealth) (at later n : ℕ) (source : Option ℕ) (err : Text)
    → let s = status (record_errors (record_message h at source) n err) later in
      ((s ≡ stale) ↔ (at + h.stale_threshold < later))
      × ((s ≡ degraded) ↔ ((later ≤ at + h.stale_threshold) × (10 < h.error_count + n)))
      × ((s ≡ healthy) ↔ ((later ≤ at + h.stale_threshold) × (h.error_count + n ≤ 10)))
unfolding status record_message
status-record_message h at later n source err =
    let fields = errors_fields (record_message h at source) n err in
    (
      (λ e. ground (arith, fields), λ e. ground (arith, fields)),
      (λ e. ground (arith, fields), λ e. ground (arith, fields)),
      (λ e. ground (arith, fields), λ e. ground (arith, fields)),
    )
