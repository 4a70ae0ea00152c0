-- ===== src/Events/Laws.antt =====
-- swaram/core/events.py: `TickEvent.__post_init__`.
use mach.Prelude.{◌≡◌, ◌≢◌, ◌↔◌, ◌⊎◌, none, arith}
use mach.Float.{Float}
use mach.Events.{TickEvent, post_init}

module _ {ℓ} {F : Type ℓ} ⦃fl : Float F⦄ where
  -- After the initialisation a tick has a source timestamp, its midpoint is missing exactly when it
  -- was not given and one side of the quote is missing, and to initialise again changes nothing.
  pub post_init_lem :
      (e : TickEvent F)
      → ((post_init e).source_timestamp ≢ none)
        × (((post_init e).mid ≡ none) ↔ ((e.mid ≡ none) × ((e.bid ≡ none) ⊎ (e.ask ≡ none))))
        × (post_init (post_init e) ≡ post_init e)
  unfolding post_init
  post_init_lem e = (ground arith, (ground arith, ground arith), ground arith)
