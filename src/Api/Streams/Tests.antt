-- ===== src/Api/Streams/Tests.antt =====
-- The streams on concrete clients.
use mach.Prelude.{ℕ, ◌≡◌, refl, true, [], ◌∷◌, none}
use mach.Text.{codes, eq_text}
use mach.Api.Streams.{
  Turn, Client, quiet, says, waiting, pong, market_frame, turn, answer_client, stream, unregister,
}
use mach.Api.Streams.Counts.{Server}

abbrev turn_of : Client → Turn ℕ ℕ
turn_of client = record { snap = none; context = 0; sent = true; client = client }

-- A ping is answered.
stream_runs :
    stream market_frame (turn_of quiet ∷ turn_of (says (codes "ping")) ∷ [])
    ≡ (waiting ∷ waiting ∷ pong ∷ [], true)
unfolding stream turn answer_client eq_text
stream_runs = refl

-- Two sockets on two symbols, the first of which leaves.
abbrev two : Server
two = record {
  registry = (codes "BTC", 1 ∷ []) ∷ (codes "ETH", 2 ∷ []) ∷ [];
  streams = (codes "ETH", 2) ∷ (codes "BTC", 1) ∷ [];
}

abbrev one : Server
one = record { registry = unregister (codes "BTC") 1 two.registry; streams = (codes "ETH", 2) ∷ [] }
