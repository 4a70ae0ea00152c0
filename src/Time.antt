-- ===== src/Time.antt =====
-- swaram/core/time.py: numbers as instants. A datetime is its microseconds since the start of the
-- year 1, in UTC; `datetime.fromtimestamp`, of seconds as a float, is a parameter.
use mach.Prelude.{ℕ, ◌-◌, Option, none, some, Raises, ok, ◌>>=◌, if◌then◌else◌}
use mach.Float.{Float, nought}

module _ {ℓ} {F : Type ℓ} ⦃fl : Float F⦄ (from_timestamp : F → Raises ℕ) where
  open fl use {lt, eq, quot, decimal}

  -- `to_utc`, of a number: microseconds, milliseconds or seconds by its size
  unfoldable pub to_utc : F → Raises ℕ
  to_utc dt =
      if lt (decimal 100_000_000_000_000 0) dt
      then from_timestamp (quot dt (decimal 1_000_000 0))
      else if lt (decimal 100_000_000_000 0) dt
      then from_timestamp (quot dt (decimal 1000 0))
      else from_timestamp dt

  -- `from_epoch_us`, of `None` or of what `float()` made of the argument
  unfoldable pub from_epoch_us : Option F → Raises (Option ℕ)
  unfolding to_utc
  from_epoch_us none = ok none
  from_epoch_us (some val) = if eq val nought then ok none else (do dt ← to_utc val; ok (some dt))

-- `calc_latency_ms`, in microseconds: never below zero
unfoldable pub calc_latency : ℕ → ℕ → ℕ
calc_latency source_time received_time = received_time - source_time
