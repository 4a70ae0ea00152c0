-- ===== src/Delta/Tests.antt =====
-- swaram/providers/crypto/delta_ws.py: a session on concrete values.
use mach.Prelude.{
  ℕ, ◌+◌, ◌*◌, ◌^◌, ◌≤◌, ◌≡◌, refl, inl, true, false, none, some, List, [], ◌∷◌, arith, min,
}
use mach.Text.{codes}
use mach.Float.Fixed.{Fixed, fixed_float}
use mach.Float.Fixed.Lawful.{Fixed-IsOrdered}
use mach.Events.{OrderbookEvent}
use mach.Delta.Book.{insert_level, sort_levels, event_of, event_of_sides, parse_levels}
use mach.Delta.Book.Best.{IsBest, parse_levels-IsBest}
use mach.Health.{new_health, record_message}
use mach.Delta.{
  Provider, connecting, base_delay, max_delay, backoff, sleep_time, start_stream, on_connected,
  on_failure, on_wake,
}
use mach.Delta.Backoff.{failures, delay-failures}
use mach.Delta.Session.{
  Parser, IsParser, Run, start, next, Steps, none_yet, one_more, connected, failed, Steps-stopped,
  rank,
}
open fixed_float use {decimal as num}

abbrev provider : Provider
provider = record {
  running = true;
  phase = connecting;
  health = new_health 10_000_000;
  delay = base_delay;
}

-- A parser that records each message at instant five.
abbrev parser : Parser
parser h = (record_message h 5 none, none)

parser-IsParser : IsParser parser
unfolding record_message
parser-IsParser = record { reconnects = λ h. refl; errors = λ h. refl; connects = λ h c. refl }

-- The same for each message.
abbrev parsers : ℕ → Parser
parsers m = parser

delay_runs :
    ((failures 4 (codes "refused") (on_connected provider 3)).delay ≡ 16)
    × ((failures 5 (codes "refused") (on_connected provider 3)).delay ≡ 30)
unfolding on_connected on_failure on_wake backoff
delay_runs = (refl, refl)

delay-failures_example :
    let q = failures 4 (codes "refused") (on_connected provider 3) in
    let sleep = sleep_time q.delay 750 in
    (q.delay ≡ min max_delay (2 ^ 4))
    × (q.health.reconnect_count ≡ 0 + 4)
    × (q.health.error_count ≡ 0 + 4)
    × (500 * q.delay ≤ sleep)
    × (sleep ≤ 1500 * q.delay)
    × (sleep ≤ 30_000)
delay-failures_example =
    delay-failures provider 3 4 750 (codes "refused") (omega arith) (omega arith)

began : Run parsers provider (on_connected (start_stream provider) 3)
unfolding start_stream
began = next start (connected (start_stream provider) 3 refl)

abbrev stopped : Provider
stopped = record provider { running = false }

last-Steps : Steps parsers stopped 1 (on_failure (codes "refused") stopped)
last-Steps = one_more none_yet (failed stopped (codes "refused") (inl refl))

Steps-stopped_example :
    let q = on_failure (codes "refused") stopped in
    (q.running ≡ false) × (1 + rank q.phase ≤ rank stopped.phase) × (rank stopped.phase ≤ 2)
Steps-stopped_example = Steps-stopped parsers stopped refl last-Steps

-- Levels in no order.
abbrev raw_bids : List (Fixed × Fixed)
raw_bids = (num 98 0, num 2 0) ∷ (num 99 0, num 1 0) ∷ []

abbrev raw_asks : List (Fixed × Fixed)
raw_asks = (num 103 0, num 1 0) ∷ (num 101 0, num 3 0) ∷ (num 102 0, num 1 0) ∷ []

abbrev book : OrderbookEvent Fixed
book =
    event_of (codes "CRYPTO:BTC/USD") 5 6 (num 99 0, num 1 0) ((num 98 0, num 2 0) ∷ [])
      (num 101 0, num 3 0) ((num 102 0, num 1 0) ∷ (num 103 0, num 1 0) ∷ [])

book_parsed : parse_levels (codes "CRYPTO:BTC/USD") 5 6 raw_bids raw_asks ≡ some book
unfolding parse_levels event_of_sides sort_levels insert_level
book_parsed = refl

parse_levels-IsBest_example : IsBest Fixed-IsOrdered raw_bids raw_asks book
parse_levels-IsBest_example =
    parse_levels-IsBest Fixed-IsOrdered (codes "CRYPTO:BTC/USD") 5 6 raw_bids raw_asks book
      (refl, (refl, tt)) (refl, (refl, (refl, tt))) book_parsed
