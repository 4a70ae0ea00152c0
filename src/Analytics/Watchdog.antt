-- ===== src/Analytics/Watchdog.antt =====
-- swaram/analytics/macro_watchdog.py. Instants and the buffer are in microseconds; an event is dated
-- by an instant or not at all, and the distance that is reported is left as a number of microseconds.
use mach.Prelude.{
  ℕ, ◌+◌, ◌≤◌, ◌≡◌, inl, inr, ◌↔◌, Bool, true, false, ◌&&◌, List, [], ◌∷◌, Option, none, some, leb,
  ltb, length, if◌then◌else◌, Bool-cases, Option-cases, arith, Any, some-injective, sym, ◌∙◌,
}
use mach.Prelude.Int.{ℤ, pos, ◌-ℤ◌}
use mach.Text.{Text, codes, eq_text}

pub record MacroEvent : Type 0 where
  pub event_name : Text
  pub country : Text
  pub category : Text
  -- `none` where the key is missing: the level is then "LOW".
  pub impact_level : Option Text
  pub timestamp : Option ℕ

pub record ActiveEvent : Type 0 where
  pub event_name : Text
  pub country : Text
  pub category : Text
  pub event_time : ℕ
  pub delta : ℤ

pub record RiskWindow : Type 0 where
  pub is_high_risk_window : Bool
  pub buffer : ℕ
  pub active_risk_events : List ActiveEvent
  pub evaluated_at : ℕ

abbrev pub is_high : MacroEvent → Bool
is_high e = elim e.impact_level [ none ↦ false | some level ↦ eq_text level (codes "HIGH") ]

-- `window_start <= now <= window_end`, with the first test moved to one side.
unfoldable pub in_window : ℕ → ℕ → ℕ → Bool
in_window buffer now t = leb t (now + buffer) && leb now (t + buffer)

abbrev pub active_event : MacroEvent → ℕ → ℕ → ActiveEvent
active_event e now t = record {
  event_name = e.event_name;
  country = e.country;
  category = e.category;
  event_time = t;
  delta = pos t -ℤ pos now;
}

-- The loop over the events.
unfoldable pub active_events : ℕ → ℕ → List MacroEvent → List ActiveEvent
unfolding in_window
active_events buffer now [] = []
active_events buffer now (e ∷ es) =
    let rest = active_events buffer now es in
    elim e.timestamp [
      | none ↦ rest
      | some t ↦ if is_high e && in_window buffer now t then active_event e now t ∷ rest else rest
    ]

unfoldable pub evaluate_risk_window : ℕ → ℕ → List MacroEvent → RiskWindow
unfolding active_events
evaluate_risk_window buffer now events = record {
  is_high_risk_window = ltb 0 (length (active_events buffer now events));
  buffer = buffer;
  active_risk_events = active_events buffer now events;
  evaluated_at = now;
}

-- An event of high impact, dated at most the buffer before or after an instant.
pub record IsNear (buffer now : ℕ) (e : MacroEvent) : Type 0 where
  pub high : is_high e ≡ true
  pub time : ℕ
  pub dated : e.timestamp ≡ some time
  pub not_past : now ≤ time + buffer
  pub not_far : time ≤ now + buffer

in_window-IsNear :
    (buffer now t : ℕ) (e : MacroEvent)
    → e.timestamp ≡ some t
    → (is_high e && in_window buffer now t) ≡ true
    → IsNear buffer now e
unfolding in_window
in_window-IsNear buffer now t e dated h = record {
  high = ground arith;
  time = t;
  dated = dated;
  not_past = ground arith;
  not_far = ground arith;
}

IsNear-in_window :
    (buffer now t : ℕ) (e : MacroEvent)
    → e.timestamp ≡ some t
    → IsNear buffer now e
    → (is_high e && in_window buffer now t) ≡ true
unfolding in_window
IsNear-in_window buffer now t e dated n =
    let same : n.time ≡ t = some-injective _ _ (sym n.dated ∙ dated) in
    rw (n.high) (ground (arith, same, n.not_past, n.not_far))

active_events-IsNear :
    (buffer now : ℕ) (es : List MacroEvent)
    → ltb 0 (length (active_events buffer now es)) ≡ true
    → Any (IsNear buffer now) es
unfolding active_events
active_events-IsNear buffer now [] h = absurd (ground arith)
active_events-IsNear buffer now (e ∷ es) h = elim (Option-cases e.timestamp) [
  | inl undated ↦ inr (active_events-IsNear buffer now es (rw (active_events, undated) at h))
  | inr (t, dated) ↦ elim (Bool-cases (is_high e && in_window buffer now t)) [
    | inl near ↦ inl (in_window-IsNear buffer now t e dated near)
    | inr far ↦ inr (active_events-IsNear buffer now es (rw (active_events, dated, far) at h))
  ]
]

IsNear-active_events :
    (buffer now : ℕ) (es : List MacroEvent)
    → Any (IsNear buffer now) es
    → ltb 0 (length (active_events buffer now es)) ≡ true
unfolding active_events
IsNear-active_events buffer now [] h = absurd h
IsNear-active_events buffer now (e ∷ es) (inl near) =
    rw (active_events, near.dated, IsNear-in_window buffer now near.time e near.dated near)
      (ground arith)
IsNear-active_events buffer now (e ∷ es) (inr later) =
    let rest = IsNear-active_events buffer now es later in
    elim (Option-cases e.timestamp) [
      | inl undated ↦ rw (active_events, undated) rest
      | inr (t, dated) ↦ elim (Bool-cases (is_high e && in_window buffer now t)) [
        | inl near ↦ rw (active_events, dated, near) (ground arith)
        | inr far ↦ rw (active_events, dated, far) rest
      ]
    ]

-- The watchdog reports a window of high risk exactly when some event has the impact "HIGH" and a
-- date, and lies at most the buffer before or after the instant: an event with no level or no date
-- never counts, and both ends of the window do.
pub evaluate_risk_window_iff :
    (buffer now : ℕ) (events : List MacroEvent)
    → ((evaluate_risk_window buffer now events).is_high_risk_window ≡ true)
      ↔ Any (IsNear buffer now) events
unfolding evaluate_risk_window
evaluate_risk_window_iff buffer now events =
    (active_events-IsNear buffer now events, IsNear-active_events buffer now events)
