-- ===== src/Structure/Trend.antt =====
-- swaram/analytics/structure.py: the main loop of `analyze_market_structure`, which tracks the last
-- swings and turns closes beyond them into events.
use mach.Prelude.{
  ℕ, suc, ◌≡◌, refl, Bool, true, false, Bool-cases, not, ◌&&◌, List, [], ◌∷◌, ◌++◌, inl, inr,
  Option, Option-cases, none, some, ltb, foldl, foldl-append, if◌then◌else◌, arith,
}
use mach.Float.{Float}
use mach.Structure.{
  Bar, SwingPoint, OrderBlockZone, TrendState, bullish, bearish, neutral, Direction, up, down,
  sweep, bos, choch, StructureEvent,
}

pub record Tracker {ℓ} (F : Type ℓ) : Type ℓ where
  pub trend : TrendState
  pub events : List (StructureEvent F)
  pub order_blocks : List (OrderBlockZone F)

abbrev pub trend_of : Direction → TrendState
trend_of up = bullish
trend_of down = bearish

abbrev pub same_way : TrendState → Direction → Bool
same_way bullish up = true
same_way bearish down = true
same_way _ _ = false

module _ {ℓ} {F : Type ℓ} ⦃fl : Float F⦄ where
  open fl use {lt}

  -- The last swing of a kind before bar i: `sh_list[-1]`, or `sl_list[-1]`.
  unfoldable pub last_swing : Bool → ℕ → List (SwingPoint F) → Option (SwingPoint F)
  last_swing h i [] = none
  last_swing h i (s ∷ ss) = elim (last_swing h i ss) [
    | some t ↦ some t
    | none ↦ if ltb s.index i && (if h then s.is_high else not s.is_high) then some s else none
  ]

  -- The high runs above the last swing high and the close comes back below it.
  unfoldable pub sweep_high : Option (SwingPoint F) → Bar F → List (StructureEvent F)
  sweep_high none b = []
  sweep_high (some s) b =
      if lt s.price b.high && lt b.close s.price
      then record { kind = sweep; direction = down; timestamp = b.timestamp; price_level = s.price }
        ∷ []
      else []

  unfoldable pub sweep_low : Option (SwingPoint F) → Bar F → List (StructureEvent F)
  sweep_low none b = []
  sweep_low (some s) b =
      if lt b.low s.price && lt s.price b.close
      then record { kind = sweep; direction = up; timestamp = b.timestamp; price_level = s.price }
        ∷ []
      else []

  -- The level of a swing that the close lies beyond, above a high or below a low.
  unfoldable pub broken : Direction → Option (SwingPoint F) → Bar F → Option F
  broken d none b = none
  broken up (some s) b = if lt s.price b.close then some s.price else none
  broken down (some s) b = if lt b.close s.price then some s.price else none

  -- The order block is the bar before, where there is one (`if i >= 1`).
  unfoldable pub block_of : Direction → Option (Bar F) → List (OrderBlockZone F)
  block_of d none = []
  block_of d (some b) =
      record {
        timestamp = b.timestamp;
        high_level = b.high;
        low_level = b.low;
        is_bullish = elim d [ up ↦ true | down ↦ false ];
        is_mitigated = false;
      }
      ∷ []

  -- A break of structure goes on with the trend; a change of character turns it.
  unfoldable pub on_break : Direction → F → Bar F → Option (Bar F) → Tracker F → Tracker F
  unfolding block_of
  on_break d price b before t =
      if same_way t.trend d
      then record t {
        events =
            t.events
            ++ record { kind = bos; direction = d; timestamp = b.timestamp; price_level = price }
              ∷ [];
      }
      else record {
        trend = trend_of d;
        events =
            t.events
            ++ record { kind = choch; direction = d; timestamp = b.timestamp; price_level = price }
              ∷ [];
        order_blocks = t.order_blocks ++ block_of d before;
      }

  -- The `if` and `elif` over the two swings.
  unfoldable pub check_break :
      Option (SwingPoint F) → Option (SwingPoint F) → Bar F → Option (Bar F) → Tracker F → Tracker F
  unfolding on_break broken
  check_break sh sl b before t = elim (broken up sh b) [
    | some price ↦ on_break up price b before t
    | none ↦ elim (broken down sl b) [ some price ↦ on_break down price b before t | none ↦ t ]
  ]

  unfoldable pub track_bar :
      List (SwingPoint F) → ℕ → Bar F → Option (Bar F) → Tracker F → Tracker F
  unfolding sweep_high sweep_low last_swing
  track_bar swings i b before t =
      let sh = last_swing true i swings in
      let sl = last_swing false i swings in
      check_break sh sl b before
        (record t { events = t.events ++ (sweep_high sh b ++ sweep_low sl b) })

  -- The loop from bar i on, after the bar before it.
  unfoldable pub track_from :
      List (SwingPoint F) → ℕ → Option (Bar F) → List (Bar F) → Tracker F → Tracker F
  track_from swings i before [] t = t
  track_from swings i before (b ∷ bars) t =
      track_from swings (suc i) (some b) bars (track_bar swings i b before t)

  abbrev pub start : Tracker F
  start = record { trend = neutral; events = []; order_blocks = [] }

  -- Reading a log of events: a sweep leaves the trend alone, a break of structure must go with it,
  -- and a change of character must turn it. `none` is a log that no trend explains.
  abbrev pub read_event : Option TrendState → StructureEvent F → Option TrendState
  read_event none e = none
  read_event (some t) e = elim e.kind [
    | sweep ↦ some t
    | bos ↦ if same_way t e.direction then some t else none
    | choch ↦ if same_way t e.direction then none else some (trend_of e.direction)
  ]

  abbrev pub read_log : List (StructureEvent F) → Option TrendState
  read_log = foldl read_event (some neutral)

  sweep_high-read :
      (s : Option (SwingPoint F)) (b : Bar F) (t : Option TrendState)
      → foldl read_event t (sweep_high s b) ≡ t
  unfolding sweep_high
  sweep_high-read none b t = refl
  sweep_high-read (some s) b t = ground arith

  sweep_low-read :
      (s : Option (SwingPoint F)) (b : Bar F) (t : Option TrendState)
      → foldl read_event t (sweep_low s b) ≡ t
  unfolding sweep_low
  sweep_low-read none b t = refl
  sweep_low-read (some s) b t = ground arith

  on_break-read :
      (d : Direction) (price : F) (b : Bar F) (before : Option (Bar F)) (t : Tracker F)
      → read_log t.events ≡ some t.trend
      → read_log (on_break d price b before t).events ≡ some (on_break d price b before t).trend
  unfolding on_break
  on_break-read d price b before t h = elim (Bool-cases (same_way t.trend d)) [
    | inl same ↦ rw (same, foldl-append read_event (some neutral) t.events, h, same)
    | inr turn ↦ rw (turn, foldl-append read_event (some neutral) t.events, h, turn)
  ]

  check_break-read :
      (sh sl : Option (SwingPoint F)) (b : Bar F) (before : Option (Bar F)) (t : Tracker F)
      → read_log t.events ≡ some t.trend
      → read_log (check_break sh sl b before t).events ≡ some (check_break sh sl b before t).trend
  unfolding check_break
  check_break-read sh sl b before t h = elim (Option-cases (broken up sh b)) [
    | inr (price, e) ↦ rw (e, check_break) (on_break-read up price b before t h)
    | inl e ↦ elim (Option-cases (broken down sl b)) [
      | inr (price, f) ↦ rw (e, f, check_break) (on_break-read down price b before t h)
      | inl f ↦ rw (e, f, check_break) h
    ]
  ]

  track_bar-read :
      (swings : List (SwingPoint F)) (i : ℕ) (b : Bar F) (before : Option (Bar F)) (t : Tracker F)
      → read_log t.events ≡ some t.trend
      → read_log (track_bar swings i b before t).events ≡ some (track_bar swings i b before t).trend
  unfolding track_bar
  track_bar-read swings i b before t h =
      let sh = last_swing true i swings in
      let sl = last_swing false i swings in
      check_break-read sh sl b before
        (record t { events = t.events ++ (sweep_high sh b ++ sweep_low sl b) })
        (rw (
          foldl-append read_event (some neutral) t.events,
          h,
          foldl-append read_event (some t.trend) (sweep_high sh b),
          sweep_high-read sh b (some t.trend),
          sweep_low-read sl b (some t.trend),
        ))

  -- From any tracker whose events explain its trend, the events of the whole loop explain the final
  -- trend: each change of character turns the trend, so that they alternate in direction, each break
  -- of structure goes with the trend, and the trend that is reported is the one they lead to.
  pub track_from-read :
      (swings : List (SwingPoint F)) (i : ℕ) (before : Option (Bar F)) (bars : List (Bar F))
      (t : Tracker F)
      → read_log t.events ≡ some t.trend
      → read_log (track_from swings i before bars t).events
        ≡ some (track_from swings i before bars t).trend
  unfolding track_from
  track_from-read swings i before [] t h = h
  track_from-read swings i before (b ∷ bars) t h =
      track_from-read swings (suc i) (some b) bars (track_bar swings i b before t)
        (track_bar-read swings i b before t h)
