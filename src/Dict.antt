-- ===== src/Dict.antt =====
-- Python's `dict` with texts for keys, as an association list.
pub mod Laws
use mach.Prelude.{List, [], ◌∷◌, Option, none, some, if◌then◌else◌}
use mach.Text.{Text, eq_text}

module _ {ℓ} {A : Type ℓ} where
  -- `d.get(k)`
  unfoldable pub lookup : Text → List (Text × A) → Option A
  lookup k [] = none
  lookup k ((j, v) ∷ d) = let rest = lookup k d in if eq_text k j then some v else rest

  -- `d[k] = v`, which keeps the place of a key that is there.
  unfoldable pub store : Text → A → List (Text × A) → List (Text × A)
  store k v [] = (k, v) ∷ []
  store k v ((j, w) ∷ d) =
      let rest = store k v d in if eq_text k j then (j, v) ∷ d else (j, w) ∷ rest

  -- `d.pop(k, None)`
  unfoldable pub discard : Text → List (Text × A) → List (Text × A)
  discard k [] = []
  discard k ((j, w) ∷ d) = let rest = discard k d in if eq_text k j then rest else (j, w) ∷ rest
