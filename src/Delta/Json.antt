-- ===== src/Delta/Json.antt =====
-- The values that `json.loads` gives, and the built-in functions that the parsers of
-- swaram/providers/crypto/delta_ws.py apply to them. The texts of numbers and of instants are read by
-- Python's library, which is a parameter.
use mach.Prelude.{
  ℕ, zero, suc, ◌-◌, Bool, true, false, not, ◌||◌, [], ◌∷◌, Option, none, some, Raises, ok, raised,
  ◌>>=◌, type_error, value_error, attribute_error, length, if◌then◌else◌,
}
use mach.Prelude.Int.{ℤ, pos}
use mach.Text.{Text, eq_text}
use mach.Time.{to_utc, from_epoch_us}
use mach.Float.{Float, nought}

mutual
  pub data Json {ℓ} (F : Type ℓ) : Type ℓ where
    null : Json F
    boolean : Bool → Json F
    number : F → Json F
    string : Text → Json F
    array : Items F → Json F
    object : Fields F → Json F

  pub data Items {ℓ} (F : Type ℓ) : Type ℓ where
    no_items : Items F
    item : Json F → Items F → Items F

  pub data Fields {ℓ} (F : Type ℓ) : Type ℓ where
    no_fields : Fields F
    field : Text → Json F → Fields F → Fields F

-- `float(s)`, `int(s)`, `datetime.fromisoformat(s)`, `datetime.fromtimestamp(x)` and `str(x)`.
pub record Reader {ℓ} (F : Type ℓ) : Type ℓ where
  pub float_of : Text → Raises F
  pub int_of : Text → Raises ℤ
  pub instant_of : Text → Raises ℕ
  pub from_timestamp : F → Raises ℕ
  pub text_of : Json F → Text

-- Whether a text starts with another.
unfoldable pub starts_with : Text → Text → Bool
starts_with [] s = true
starts_with (c ∷ p) [] = false
starts_with (c ∷ p) (d ∷ s) =
    let rest = starts_with p s in if eq_text (c ∷ []) (d ∷ []) then rest else false

-- `p in s`, of texts
unfoldable pub has_text : Text → Text → Bool
unfolding starts_with
has_text p [] = starts_with p []
has_text p (c ∷ s) = let rest = has_text p s in starts_with p (c ∷ s) || rest

-- `s.replace(p, "")`, with so many characters of an occurrence left to skip
unfoldable pub remove_text : Text → ℕ → Text → Text
unfolding starts_with
remove_text p skip [] = []
remove_text p zero (c ∷ s) =
    let skipped = remove_text p (length p - 1) s in
    let kept = remove_text p zero s in if starts_with p (c ∷ s) then skipped else c ∷ kept
remove_text p (suc skip) (c ∷ s) = remove_text p skip s

module _ {ℓ} {F : Type ℓ} ⦃fl : Float F⦄ where
  open fl use {eq, to_int, decimal}

  unfoldable pub find_field : Text → Fields F → Option (Json F)
  find_field k no_fields = none
  find_field k (field j v fs) = let rest = find_field k fs in if eq_text k j then some v else rest

  -- `x.get(k)`, with a default
  unfoldable pub get_or : Json F → Text → Json F → Raises (Json F)
  unfolding find_field
  get_or default k (object fs) = elim (find_field k fs) [ none ↦ ok default | some v ↦ ok v ]
  get_or default k null = raised attribute_error
  get_or default k (boolean b) = raised attribute_error
  get_or default k (number x) = raised attribute_error
  get_or default k (string s) = raised attribute_error
  get_or default k (array xs) = raised attribute_error

  abbrev pub get : Text → Json F → Raises (Json F)
  get = get_or null

  -- `k in x`, of an object
  unfoldable pub has_field : Text → Json F → Bool
  unfolding find_field
  has_field k (object fs) = elim (find_field k fs) [ none ↦ false | some v ↦ true ]
  has_field k _ = false

  -- `bool(x)`
  unfoldable pub truthy : Json F → Bool
  truthy null = false
  truthy (boolean b) = b
  truthy (number x) = not (eq x nought)
  truthy (string []) = false
  truthy (string (c ∷ s)) = true
  truthy (array no_items) = false
  truthy (array (item x xs)) = true
  truthy (object no_fields) = false
  truthy (object (field k v fs)) = true

  -- `x or y`
  unfoldable pub or_else : Json F → Json F → Json F
  unfolding truthy
  or_else x y = if truthy x then x else y

  -- `x == s`, of a text
  unfoldable pub is_text : Text → Json F → Bool
  is_text s (string t) = eq_text t s
  is_text s _ = false

  unfoldable pub among_items : Text → Items F → Bool
  unfolding is_text
  among_items s no_items = false
  among_items s (item x xs) = let rest = among_items s xs in is_text s x || rest

  -- `s in x`, of any value
  unfoldable pub has_part : Text → Json F → Raises Bool
  unfolding has_text has_field among_items
  has_part s (string t) = ok (has_text s t)
  has_part s (array xs) = ok (among_items s xs)
  has_part s (object fs) = ok (has_field s (object fs))
  has_part s null = raised type_error
  has_part s (boolean b) = raised type_error
  has_part s (number x) = raised type_error

  module _ (rd : Reader F) where
    -- `float(x)`
    unfoldable pub to_float : Json F → Raises F
    to_float (number x) = ok x
    to_float (boolean b) = ok (if b then decimal 1 0 else nought)
    to_float (string s) = rd.float_of s
    to_float null = raised type_error
    to_float (array xs) = raised type_error
    to_float (object fs) = raised type_error

    -- `int(x)`
    unfoldable pub to_integer : Json F → Raises ℤ
    to_integer (number x) = to_int x
    to_integer (boolean b) = ok (pos (if b then 1 else 0))
    to_integer (string s) = rd.int_of s
    to_integer null = raised type_error
    to_integer (array xs) = raised type_error
    to_integer (object fs) = raised type_error

    -- `to_utc(x)`
    unfoldable pub to_instant : Json F → Raises ℕ
    unfolding to_utc
    to_instant (number x) = to_utc rd.from_timestamp x
    to_instant (boolean b) = to_utc rd.from_timestamp (if b then decimal 1 0 else nought)
    to_instant (string s) = rd.instant_of s
    to_instant null = raised value_error
    to_instant (array xs) = raised value_error
    to_instant (object fs) = raised value_error

    -- `from_epoch_us(x)`, of a value that is true: none for the text of a zero
    unfoldable pub from_epoch : Json F → Raises (Option ℕ)
    unfolding to_float from_epoch_us
    from_epoch x = do val ← to_float x; from_epoch_us rd.from_timestamp (some val)

    -- `from_epoch_us(x) if x else now_utc()`
    unfoldable pub source_time : ℕ → Json F → Raises (Option ℕ)
    unfolding truthy from_epoch
    source_time now raw = if truthy raw then from_epoch raw else ok (some now)
