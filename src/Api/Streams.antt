-- ===== src/Api/Streams.antt =====
-- apps/api/routes/ws.py: the two websocket streams and the registry of their connections. A socket
-- is known by a number. The snapshot and the context of an agent are what Redis and the context
-- builder give; times in a frame are left out.
pub mod Open
pub mod Counts
mod Tests
use mach.Prelude.{
  ℕ, ◌+◌, Bool, true, false, List, [], ◌∷◌, ◌++◌, Option, none, some, length, ◌==◌, if◌then◌else◌,
}
use mach.Text.{Text, codes, eq_text}
use mach.Dict.{lookup, store}

-- `_active_connections`
abbrev pub Registry : Type 0
Registry = List (Text × List ℕ)

abbrev pub or_empty : Option (List ℕ) → List ℕ
or_empty none = []
or_empty (some ws) = ws

-- The sockets of a symbol: `setdefault(symbol, set())`.
pub sockets : Text → Registry → List ℕ
sockets symbol d = or_empty (lookup symbol d)

-- `w in s`, `s.add(w)` and `s.discard(w)` of a set
pub among : ℕ → List ℕ → Bool
among w [] = false
among w (v ∷ vs) = let rest = among w vs in if w == v then true else rest

pub add_socket : ℕ → List ℕ → List ℕ
unfolding among
add_socket w vs = if among w vs then vs else w ∷ vs

pub discard_socket : ℕ → List ℕ → List ℕ
discard_socket w [] = []
discard_socket w (v ∷ vs) = let rest = discard_socket w vs in if w == v then rest else v ∷ rest

pub register : Text → ℕ → Registry → Registry
unfolding sockets add_socket
register symbol w d = store symbol (add_socket w (sockets symbol d)) d

-- A symbol that is not there gets no entry; the set of one that is there stays, also when empty.
pub unregister : Text → ℕ → Registry → Registry
unfolding discard_socket
unregister symbol w d = elim (lookup symbol d) [
  | none ↦ d
  | some ws ↦ store symbol (discard_socket w ws) d
]

-- `sum(len(v) for v in _active_connections.values())`
pub get_active_ws_count : Registry → ℕ
get_active_ws_count [] = 0
get_active_ws_count ((s, ws) ∷ d) = length ws + get_active_ws_count d

-- The fields of a snapshot that the market stream passes on.
pub record MarketSnapshot {ℓ} (F : Type ℓ) : Type ℓ where
  pub last : Option F
  pub bid : Option F
  pub ask : Option F
  pub spread : Option F
  pub volume_24h : Option F
  pub change_24h_pct : Option F

-- What is sent. The context of an agent is a parameter.
pub data Frame {ℓ} (F Context : Type ℓ) : Type ℓ where
  snapshot : MarketSnapshot F → Frame F Context
  waiting : Frame F Context
  agent_context : Context → Frame F Context
  pong : Frame F Context

-- What the client does after a frame.
pub data Client : Type 0 where
  quiet left : Client
  says : Text → Client

-- One round of a stream: what it has to send, whether the socket takes that, and the client.
pub record Turn {ℓ} (F Context : Type ℓ) : Type ℓ where
  pub snap : Option (MarketSnapshot F)
  pub context : Context
  pub sent : Bool
  pub client : Client

module _ {ℓ} {F Context : Type ℓ} where
  abbrev pub market_frame : Turn F Context → Frame F Context
  market_frame t = elim t.snap [ none ↦ waiting | some s ↦ snapshot s ]

  abbrev pub agent_frame : Turn F Context → Frame F Context
  agent_frame t = agent_context t.context

  -- The frames after the first, and whether the loop goes on.
  pub answer_client : Client → List (Frame F Context) × Bool
  answer_client quiet = ([], true)
  answer_client left = ([], false)
  answer_client (says msg) = (if eq_text msg (codes "ping") then pong ∷ [] else [], true)

  -- One round of either loop, given its frame: the frames that reach the client, and whether the
  -- loop goes on.
  pub turn : (Turn F Context → Frame F Context) → Turn F Context → List (Frame F Context) × Bool
  unfolding answer_client
  turn frame t =
      if t.sent
      then (frame t ∷ (answer_client t.client).0, (answer_client t.client).1)
      else ([], false)

  -- The loop, over the rounds that the outside offers: the frames, and whether it is still open.
  pub stream :
      (Turn F Context → Frame F Context) → List (Turn F Context) → List (Frame F Context) × Bool
  unfolding turn
  stream frame [] = ([], true)
  stream frame (t ∷ ts) =
      let rest = stream frame ts in
      if (turn frame t).1 then ((turn frame t).0 ++ rest.0, rest.1) else ((turn frame t).0, false)
