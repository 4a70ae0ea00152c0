-- ===== src/Health.antt =====
-- swaram/core/health.py: `ProviderHealth`. Instants and spans are in microseconds; `now` is what
-- `now_utc()` returns.
pub mod Status
mod Tests
use mach.Prelude.{ℕ, ◌+◌, ◌-◌, Bool, true, false, not, Option, none, some, ltb, if◌then◌else◌}
use mach.Text.{Text}
use mach.Time.{calc_latency}

pub record ProviderHealth : Type 0 where
  pub connected : Bool
  pub last_message_at : Option ℕ
  pub messages_received : ℕ
  pub reconnect_count : ℕ
  pub error_count : ℕ
  pub last_error : Option Text
  pub last_latency : ℕ
  pub stale_threshold : ℕ

pub data HealthStatus : Type 0 where
  disconnected stale degraded healthy : HealthStatus

abbrev pub new_health : ℕ → ProviderHealth
new_health threshold = record {
  connected = false;
  last_message_at = none;
  messages_received = 0;
  reconnect_count = 0;
  error_count = 0;
  last_error = none;
  last_latency = 0;
  stale_threshold = threshold;
}

-- `age_seconds > stale_threshold_sec`, where the age is infinite before the first message and is
-- negative, so below every threshold, if the clock was set back.
pub too_old : ProviderHealth → ℕ → Bool
too_old h now = elim h.last_message_at [ none ↦ true | some t ↦ ltb (t + h.stale_threshold) now ]

pub is_stale : ProviderHealth → ℕ → Bool
unfolding too_old
is_stale h now = if not h.connected then true else too_old h now

pub status : ProviderHealth → ℕ → HealthStatus
unfolding is_stale
status h now =
    if not h.connected
    then disconnected
    else if is_stale h now
    then stale
    else if ltb 10 h.error_count
    then degraded
    else healthy

-- The latency is written only where the message has a source time.
unfoldable pub record_message : ProviderHealth → ℕ → Option ℕ → ProviderHealth
record_message h now source_time = record h {
  connected = true;
  last_message_at = some now;
  messages_received = h.messages_received + 1;
  last_latency = elim source_time [ none ↦ h.last_latency | some src ↦ calc_latency src now ];
}

unfoldable pub record_reconnect : ProviderHealth → ProviderHealth
record_reconnect h = record h { reconnect_count = h.reconnect_count + 1; connected = false }

unfoldable pub record_error : ProviderHealth → Text → ProviderHealth
record_error h err = record h { error_count = h.error_count + 1; last_error = some err }
