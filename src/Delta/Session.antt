-- ===== src/Delta/Session.antt =====
-- swaram/providers/crypto/delta_ws.py: every run of `stream_events`, with `disconnect` at any time.
use mach.Prelude.{ℕ, zero, suc, ◌+◌, ◌≤◌, ◌<◌, ◌≡◌, ◌⊎◌, true, false, Option, arith}
use mach.Text.{Text}
use mach.Health.{ProviderHealth, record_message, record_reconnect, record_error}
use mach.Delta.{
  Provider, Phase, connecting, sleeping, streaming, ended, max_delay, backoff, start_stream,
  on_connected, on_message, on_closed, on_failure, on_wake, disconnect,
}

abbrev pub Parser : Type 0
Parser = ProviderHealth → ProviderHealth × Option Text

-- What `_parse_message` may do to the health: `record_message`, or nothing.
pub record IsParser (parse : Parser) : Type 0 where
  pub reconnects : (h : ProviderHealth) → (parse h).0.reconnect_count ≡ h.reconnect_count
  pub errors : (h : ProviderHealth) → (parse h).0.error_count ≡ h.error_count
  pub connects : (h : ProviderHealth) → h.connected ≡ true → (parse h).0.connected ≡ true

-- One step of the generator.
pub data Step {κ} {M : Type κ} (parse : M → Parser) : Provider → Provider → Type κ where
  connected : (p : Provider) (now : ℕ) → p.phase ≡ connecting → Step parse p (on_connected p now)
  message : (p : Provider) (m : M) → p.phase ≡ streaming → Step parse p (on_message (parse m) p)
  closed : (p : Provider) → p.phase ≡ streaming → Step parse p (on_closed p)
  failed :
      (p : Provider) (err : Text)
      → (p.phase ≡ connecting) ⊎ (p.phase ≡ streaming)
      → Step parse p (on_failure err p)
  woken : (p : Provider) → p.phase ≡ sleeping → Step parse p (on_wake p)

-- A run of the generator, in which `disconnect` is called between any two steps.
pub data Run {κ} {M : Type κ} (parse : M → Parser) (p : Provider) : Provider → Type κ where
  start : Run parse p (start_stream p)
  next : {q r : Provider} → Run parse p q → Step parse q r → Run parse p r
  stop : {q : Provider} → Run parse p q → Run parse p (disconnect q)

pub record IsSession (p : Provider) : Type 0 where
  pub delay_pos : 1 ≤ p.delay
  pub delay_le : p.delay ≤ max_delay
  pub counted : p.health.reconnect_count ≤ p.health.error_count
  pub asleep : p.phase ≡ sleeping → p.health.connected ≡ false
  pub awake : p.phase ≡ streaming → p.running ≡ true → p.health.connected ≡ true
  pub over : p.phase ≡ ended → p.running ≡ false

on_message-IsSession :
    (parse : Parser) (p : Provider)
    → IsParser parse
    → p.phase ≡ streaming
    → IsSession p
    → IsSession (on_message parse p)
unfolding on_message record_error
on_message-IsSession parse p laws here s =
    ground (arith, laws.reconnects p.health, laws.errors p.health, laws.connects p.health)

Step-IsSession {κ} :
    {M : Type κ} (parse : M → Parser) {p q : Provider}
    → ((m : M) → IsParser (parse m))
    → Step parse p q
    → IsSession p
    → IsSession q
unfolding on_connected on_closed on_failure on_wake backoff record_message record_reconnect
    record_error
Step-IsSession parse laws (connected p now here) s = ground arith
Step-IsSession parse laws (message p m here) s = on_message-IsSession (parse m) p (laws m) here s
Step-IsSession parse laws (closed p here) s = ground arith
Step-IsSession parse laws (failed p err here) s = ground arith
Step-IsSession parse laws (woken p here) s = ground arith

start_stream-IsSession :
    (p : Provider) → p.health.reconnect_count ≤ p.health.error_count → IsSession (start_stream p)
unfolding start_stream
start_stream-IsSession p h = ground arith

disconnect-IsSession : (p : Provider) → IsSession p → IsSession (disconnect p)
unfolding disconnect
disconnect-IsSession p s = ground arith

-- With a parser that, on each message, counts neither reconnects nor errors itself and keeps a
-- connected health connected, and from no more reconnects than errors: at every point of every run the delay lies
-- between one and thirty seconds, there are no more reconnects than errors, a provider that
-- sleeps is not reported as connected, one that is running and streaming is, and the generator
-- has ended only if it was stopped.
pub Run-IsSession {κ} :
    {M : Type κ} (parse : M → Parser) (p : Provider) {q : Provider}
    → ((m : M) → IsParser (parse m))
    → p.health.reconnect_count ≤ p.health.error_count
    → Run parse p q
    → IsSession q
Run-IsSession parse p laws h start = start_stream-IsSession p h
Run-IsSession parse p laws h (next r st) =
    Step-IsSession parse laws st (Run-IsSession parse p laws h r)
Run-IsSession parse p laws h (stop r) = disconnect-IsSession _ (Run-IsSession parse p laws h r)

-- How many steps a stopped generator has left, at most.
abbrev pub rank : Phase → ℕ
rank connecting = 2
rank sleeping = 1
rank streaming = 1
rank ended = 0

stopped-Step {κ} :
    {M : Type κ} (parse : M → Parser) {p q : Provider}
    → p.running ≡ false
    → Step parse p q
    → (q.running ≡ false) × (rank q.phase < rank p.phase)
unfolding on_connected on_message on_closed on_failure on_wake
stopped-Step parse h (connected p now here) = ground arith
stopped-Step parse h (message p m here) = ground arith
stopped-Step parse h (closed p here) = ground arith
stopped-Step parse h (failed p err here) = ground arith
stopped-Step parse h (woken p here) = ground arith

-- n steps in a row
pub data Steps {κ} {M : Type κ} (parse : M → Parser) (p : Provider) : ℕ → Provider → Type κ where
  none_yet : Steps parse p zero p
  one_more : {n : ℕ} {q r : Provider} → Steps parse p n q → Step parse q r → Steps parse p (suc n) r

-- Once stopped, the generator stays stopped and ends: the steps that it makes, and those that its
-- last phase leaves it, are no more than the rank of the phase in which it was stopped, so two.
pub Steps-stopped {κ} :
    {M : Type κ} (parse : M → Parser) (p : Provider) {n : ℕ} {q : Provider}
    → p.running ≡ false
    → Steps parse p n q
    → (q.running ≡ false) × (n + rank q.phase ≤ rank p.phase) × (rank p.phase ≤ 2)
Steps-stopped parse p h none_yet = (h, omega arith, ground arith)
Steps-stopped parse p h (one_more {q = q} ss st) =
    let (off, before, two) = Steps-stopped parse p h ss in
    let (off', less) = stopped-Step parse off st in (off', omega arith, two)

-- A `disconnect` while the connection is being made is undone in the health: the generator ends at
-- the first message, and the provider is reported as connected.
on_connected-disconnect :
    (parse : Parser) (p : Provider) (now : ℕ)
    → let q = on_message parse (on_connected (disconnect p) now) in
      (q.phase ≡ ended) × (q.running ≡ false) × (q.health.connected ≡ true)
unfolding on_message on_connected disconnect record_message
on_connected-disconnect parse p now = ground arith
