-- ===== src/Delta/Messages/Shared.antt =====
-- swaram/providers/crypto/delta_ws.py: what the parsers of all channels share.
use mach.Prelude.{
  ◌||◌, Bool, ℕ, List, [], ◌∷◌, Option, none, some, Raises, ok, raised, ◌>>=◌, attribute_error,
  if◌then◌else◌,
}
use mach.Text.{Text, codes}
use mach.Symbols.{to_canonical}
use mach.Float.{Float}
use mach.Health.{ProviderHealth, record_message}
use mach.Events.{Event, mark_spot}
use mach.Delta.Json.{
  is_text, Json, string, object, Reader, get, get_or, truthy, or_else, source_time,
}

-- An event, or one whose timestamp is None, which the text of a zero leads to.
pub data Emission {ℓ} (F : Type ℓ) : Type ℓ where
  event : Event F → Emission F
  undated : Emission F

module _ {ℓ} {F : Type ℓ} ⦃fl : Float F⦄ where
  open fl use {lt, eq}

  abbrev pub emit : (ℕ → Event F) → Option ℕ → Emission F
  emit build none = undated
  emit build (some t) = event (build t)

  -- A missing symbol, or an empty one, is none. One that is no text has no `strip`.
  unfoldable pub symbol_of : Json F → Raises (Option Text)
  symbol_of msg = do
    sym ← get_or (string []) (codes "symbol") msg
    elim sym [
      | string [] ↦ ok none
      | string (c ∷ s) ↦ ok (some (to_canonical (codes "delta") (c ∷ s)))
      | other ↦ if truthy other then raised attribute_error else ok none
    ]

  -- `data.get("data") if isinstance(data.get("data"), dict) else data`
  unfoldable pub payload_of : Json F → Raises (Json F)
  payload_of msg = do
    inner ← get (codes "data") msg
    ok (elim inner [ object fs ↦ object fs | _ ↦ msg ])

  -- `x.get(a) or x.get(b) or … or default`
  unfoldable pub first_of : Json F → List Text → Json F → Raises (Json F)
  first_of x [] default = ok default
  first_of x (k ∷ ks) default = do v ← get k x; rest ← first_of x ks default; ok (or_else v rest)

  abbrev pub either_text : Text → Text → Json F → Bool
  either_text s t x = is_text s x || is_text t x

  -- The shape that four parsers share: no symbol, no effect; the source time is read and recorded,
  -- and then the events are built.
  unfoldable pub parse_with :
      ℕ
      → Raises (Option Text)
      → Raises (Option ℕ)
      → (Text → Option ℕ → Raises (List (Emission F)))
      → ProviderHealth
      → ProviderHealth × Raises (List (Emission F))
  parse_with now (raised e) src build h = (h, raised e)
  parse_with now (ok none) src build h = (h, ok [])
  parse_with now (ok (some canonical)) (raised e) build h = (h, raised e)
  parse_with now (ok (some canonical)) (ok src) build h =
      (record_message h now src, build canonical src)

module _ {ℓ} {F : Type ℓ} ⦃fl : Float F⦄ (rd : Reader F) (now : ℕ) where
  unfoldable pub source_of : Json F → Raises (Option ℕ)
  source_of msg = do raw ← get (codes "timestamp") msg; source_time rd now raw

  abbrev pub mark_spot_at : Text → Option F → Option F → ℕ → Event F
  mark_spot_at canonical mark spot src = mark_spot (record {
    canonical_symbol = canonical;
    provider = codes "delta";
    timestamp = src;
    mark_price = mark;
    spot_price = spot;
    ingested_at = now;
  })
