-- ===== src/Telemetry.antt =====
-- swaram/telemetry/prometheus.py: the counters and gauges that stand in for prometheus_client where
-- it is not installed. The latency histogram is left out.
pub mod Counts
mod Tests
use mach.Prelude.{
  ℕ, Bool, true, false, ◌&&◌, ◌||◌, List, [], ◌∷◌, ◌++◌, Option, none, some, ltb, leb, ◌==◌,
  if◌then◌else◌,
}
use mach.Text.{Text, codes, eq_text}
use mach.Float.{Float, ◌⊕◌, ◌⊖◌, nought}

-- `_last_key` is missing before the first call of `labels`.
pub record Counter {ℓ} (F : Type ℓ) : Type ℓ where
  pub last_key : Option Text
  pub values : List (Text × F)

-- `s < t` of texts
unfoldable pub lt_text : Text → Text → Bool
lt_text [] [] = false
lt_text [] (d ∷ t) = true
lt_text (c ∷ s) [] = false
lt_text (c ∷ s) (d ∷ t) = let rest = lt_text s t in ltb c d || c == d && rest

-- `sorted(kwargs.items())`: the names of keywords are distinct.
unfoldable pub insert_item : Text × Text → List (Text × Text) → List (Text × Text)
unfolding lt_text
insert_item x [] = x ∷ []
insert_item x (y ∷ ys) =
    let rest = insert_item x ys in if lt_text y.0 x.0 then y ∷ rest else x ∷ y ∷ ys

unfoldable pub sort_items : List (Text × Text) → List (Text × Text)
unfolding insert_item
sort_items [] = []
sort_items (x ∷ xs) = insert_item x (sort_items xs)

-- `",".join(f"{k}={v}" for k, v in …)`
unfoldable pub join_items : List (Text × Text) → Text
join_items [] = []
join_items (x ∷ []) = x.0 ++ b'=' ∷ x.1
join_items (x ∷ y ∷ xs) = (x.0 ++ b'=' ∷ x.1) ++ b',' ∷ join_items (y ∷ xs)

unfoldable pub key_of : List (Text × Text) → Text
unfolding sort_items join_items
key_of kwargs = join_items (sort_items kwargs)

module _ {ℓ} {F : Type ℓ} ⦃fl : Float F⦄ where
  abbrev pub new_counter : Counter F
  new_counter = record { last_key = none; values = [] }

  unfoldable pub labels : List (Text × Text) → Counter F → Counter F
  labels kwargs c = record c { last_key = some (key_of kwargs) }

  -- `getattr(self, "_last_key", "default")`
  abbrev pub current_key : Counter F → Text
  current_key c = elim c.last_key [ none ↦ codes "default" | some k ↦ k ]

  -- `values.get(key, 0.0)`
  unfoldable pub value_at : Text → List (Text × F) → F
  value_at k [] = nought
  value_at k ((j, v) ∷ m) = let rest = value_at k m in if eq_text k j then v else rest

  -- `values[key] = v`
  unfoldable pub set_at : Text → F → List (Text × F) → List (Text × F)
  set_at k v [] = (k, v) ∷ []
  set_at k v ((j, w) ∷ m) =
      let rest = set_at k v m in if eq_text k j then (j, v) ∷ m else (j, w) ∷ rest

  -- `_Counter.inc`
  unfoldable pub inc : F → Counter F → Counter F
  unfolding value_at set_at
  inc amount c =
      let key = current_key c in
      record c { values = set_at key (value_at key c.values ⊕ amount) c.values }

  -- `_Counter.get`
  unfoldable pub get : List (Text × Text) → Counter F → F
  unfolding value_at key_of
  get kwargs c = value_at (key_of kwargs) c.values

  -- `_Gauge.set`
  unfoldable pub set_gauge : F → Counter F → Counter F
  unfolding set_at
  set_gauge value c = record c { values = set_at (current_key c) value c.values }

  -- `_Gauge.dec`
  unfoldable pub dec : F → Counter F → Counter F
  unfolding value_at set_at
  dec amount c =
      let key = current_key c in
      record c { values = set_at key (value_at key c.values ⊖ amount) c.values }
