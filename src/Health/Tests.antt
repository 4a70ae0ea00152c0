-- ===== src/Health/Tests.antt =====
-- swaram/core/health.py on concrete numbers.
use mach.Prelude.{◌≡◌, refl, none}
use mach.Health.{stale, healthy, disconnected, new_health, status, record_message, record_reconnect}

status_runs :
    (status (record_message (new_health 10) 100 none) 110 ≡ healthy)
    × (status (record_message (new_health 10) 100 none) 111 ≡ stale)
    × (status (record_reconnect (record_message (new_health 10) 100 none)) 101 ≡ disconnected)
unfolding status record_message record_reconnect
status_runs = (refl, refl, refl)
