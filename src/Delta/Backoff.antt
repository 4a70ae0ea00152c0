-- ===== src/Delta/Backoff.antt =====
-- swaram/providers/crypto/delta_ws.py: the delays between attempts to connect.
use native.Mathlib.Nat.{pow-suc}
use mach.Prelude.{ℕ, zero, suc, ◌+◌, ◌*◌, ◌^◌, ◌≤◌, ◌≡◌, arith, min}
use mach.Text.{Text}
use mach.Health.{record_message, record_reconnect, record_error}
use mach.Delta.{Provider, max_delay, backoff, sleep_time, on_failure, on_wake, on_connected}

-- n failed attempts in a row, each with its error and the sleep after it
abbrev pub failures : ℕ → Text → Provider → Provider
failures zero err p = p
failures (suc n) err p = on_wake (on_failure err (failures n err p))

delay-failures_step : (n d : ℕ) → d ≡ min 30 (2 ^ n) → backoff d ≡ min 30 (2 ^ suc n)
unfolding backoff
delay-failures_step n d h = omega (arith, pow-suc 2 n)

failures_fields :
    (p : Provider) (now n : ℕ) (err : Text)
    → let q = failures n err (on_connected p now) in
      (q.delay ≡ min 30 (2 ^ n))
      × (q.health.reconnect_count ≡ p.health.reconnect_count + n)
      × (q.health.error_count ≡ p.health.error_count + n)
unfolding on_wake on_failure on_connected record_message record_reconnect record_error
failures_fields p now zero err = omega arith
failures_fields p now (suc n) err =
    let (delay, reconnects, errors) = failures_fields p now n err in
    (delay-failures_step n _ delay, omega arith, omega arith)

pow_pos : (n : ℕ) → 1 ≤ 2 ^ n
pow_pos zero = omega arith
pow_pos (suc n) = omega (arith, pow-suc 2 n, pow_pos n)

-- After a connection at which n attempts fail in a row, the delay is 2 ^ n seconds and thirty
-- seconds at most, and each failure counts as one reconnect and as one error. The next sleep, for a
-- jitter from a half to one and a half, lies between a half and one and a half of the delay, and is
-- thirty seconds at most.
pub delay-failures :
    (p : Provider) (now n jitter : ℕ) (err : Text)
    → 500 ≤ jitter
    → jitter ≤ 1500
    → let q = failures n err (on_connected p now) in
      let sleep = sleep_time q.delay jitter in
      (q.delay ≡ min max_delay (2 ^ n))
      × (q.health.reconnect_count ≡ p.health.reconnect_count + n)
      × (q.health.error_count ≡ p.health.error_count + n)
      × (500 * q.delay ≤ sleep)
      × (sleep ≤ 1500 * q.delay)
      × (sleep ≤ 30_000)
unfolding sleep_time
delay-failures p now n jitter err low high =
    let (delay, reconnects, errors) = failures_fields p now n err in
    let d = (failures n err (on_connected p now)).delay in
    let top : d ≤ 30 = omega arith in
    let least : 500 * d ≤ d * jitter = grind arith in
    let most : d * jitter ≤ 1500 * d = grind arith in
    (delay, reconnects, errors, omega arith, omega arith, omega arith)
