-- ===== src/Delta.antt =====
-- swaram/providers/crypto/delta_ws.py: the connection of `DeltaWebSocketProvider`. `stream_events`
-- is a state machine; the network, the clock, the random jitter and `disconnect` choose its steps.
-- A message is parsed by a parameter, which gives the health after it and whether it raised.
pub mod Backoff
pub mod Session
pub mod Book
pub mod Json
pub mod Messages
mod Tests
use mach.Prelude.{ℕ, ◌+◌, ◌*◌, ◌/◌, ◌≡◌, Bool, true, false, Option, none, some, min, if◌then◌else◌}
use mach.Text.{Text}
use mach.Health.{ProviderHealth, record_message, record_reconnect, record_error}

-- Where the generator stands: before a connection, in a backoff sleep, in the loop over messages,
-- or ended.
pub data Phase : Type 0 where
  connecting sleeping streaming ended : Phase

-- Delays are whole seconds, which the doubling and the bound keep exact.
pub record Provider : Type 0 where
  pub running : Bool
  pub phase : Phase
  pub health : ProviderHealth
  pub delay : ℕ

abbrev pub base_delay : ℕ
base_delay = 1

abbrev pub max_delay : ℕ
max_delay = 30

-- The delay after a failure: `min(max_delay, delay * 2.0)`
pub backoff : ℕ → ℕ
backoff delay = min max_delay (delay * 2)

-- The sleep after a failure, in milliseconds, for a jitter in thousandths.
pub sleep_time : ℕ → ℕ → ℕ
sleep_time delay jitter = min (max_delay * 1000) (delay * jitter)

-- The test of the outer loop.
abbrev pub loop_test : Bool → Phase
loop_test running = if running then connecting else ended

-- The start of `stream_events`
pub start_stream : Provider → Provider
start_stream p = record p { phase = loop_test p.running; delay = base_delay }

-- The body of `async with websockets.connect`, up to the loop over messages
pub on_connected : Provider → ℕ → Provider
on_connected p now = record p {
  phase = streaming;
  health = record_message p.health now none;
  delay = base_delay;
}

-- One message: the parser's health, and an error if it raised; a provider that was stopped leaves
-- the loops.
pub on_message : (ProviderHealth → ProviderHealth × Option Text) → Provider → Provider
on_message parse p =
    if p.running
    then record p {
      health = elim (parse p.health).1 [
        | none ↦ (parse p.health).0
        | some err ↦ record_error (parse p.health).0 err
      ];
    }
    else record p { phase = ended }

-- The server closes in order: `async for` ends, and the outer loop is tested.
pub on_closed : Provider → Provider
on_closed p = record p { phase = loop_test p.running }

-- The handler of a failure, up to its sleep.
pub on_failure : Text → Provider → Provider
on_failure err p = record p {
  health = record_error (record_reconnect p.health) err;
  phase = if p.running then sleeping else ended;
}

-- After the sleep.
pub on_wake : Provider → Provider
unfolding backoff
on_wake p = record p { phase = loop_test p.running; delay = backoff p.delay }

-- `disconnect`, from outside
pub disconnect : Provider → Provider
disconnect p = record p { running = false; health = record p.health { connected = false } }
