-- ===== src/Api/Streams/Counts.antt =====
-- apps/api/routes/ws.py: the registry of connections against the streams that are open.
use mach.Prelude.{ℕ, ◌≡◌, true, false, [], ◌∷◌, length}
use mach.Text.{Text}
use mach.Api.Streams.{Registry, sockets, among, register, unregister, get_active_ws_count}
use mach.Api.Streams.Open.{Open, sockets_of, opened, without, IsDistinct}

pub record Server : Type 0 where
  pub registry : Registry
  pub streams : Open

-- A handler registers its socket, which no open handler has, or one that is open ends, in whatever
-- way, and its `finally` runs. Frames in between do not touch the registry.
pub data Step : Server → Server → Type 0 where
  connect :
      (s : Server) (symbol : Text) (w : ℕ)
      → opened w s.streams ≡ false
      → Step s
          (record { registry = register symbol w s.registry; streams = (symbol, w) ∷ s.streams })
  finish :
      (s : Server) (symbol : Text) (w : ℕ)
      → among w (sockets_of symbol s.streams) ≡ true
      → Step s (record { registry = unregister symbol w s.registry; streams = without w s.streams })

pub data Run : Server → Type 0 where
  nothing : Run (record { registry = []; streams = [] })
  next : {s t : Server} → Run s → Step s t → Run t

-- The registry holds the sockets of the open handlers, and nothing else.
pub record IsCounted (s : Server) : Type 0 where
  pub distinct : IsDistinct s.streams
  pub registered : (t : Text) → sockets t s.registry ≡ sockets_of t s.streams
  pub count : get_active_ws_count s.registry ≡ length s.streams
