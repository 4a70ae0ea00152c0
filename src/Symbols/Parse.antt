-- ===== src/Symbols/Parse.antt =====
-- swaram/core/symbols.py: `CanonicalSymbol` and `parse_canonical`.
use mach.Prelude.{
  ℕ, Bool, true, false, ◌&&◌, ◌||◌, [], ◌∷◌, ◌++◌, Option, none, some, Raises, ok, raised,
  value_error, leb, ◌==◌, if◌then◌else◌,
}
use mach.Text.{Text, lower, upper, strip}

pub record CanonicalSymbol : Type 0 where
  pub asset_class : Text
  pub base : Text
  pub quote : Text

-- `CanonicalSymbol.value`
unfoldable pub value : CanonicalSymbol → Text
value s = upper s.asset_class ++ b':' ∷ (upper s.base ++ b'/' ∷ upper s.quote)

-- `[A-Z]`, and `[A-Z0-9_\-]`
abbrev pub is_letter : ℕ → Bool
is_letter c = leb b'A' c && leb c b'Z'

abbrev pub is_symbol : ℕ → Bool
is_symbol c = is_letter c || leb b'0' c && leb c b'9' || c == b'_' || c == b'-'

unfoldable pub all_of : (ℕ → Bool) → Text → Bool
all_of p [] = true
all_of p (c ∷ s) = p c && all_of p s

-- `X+`, for a class X of characters
abbrev pub some_of : (ℕ → Bool) → Text → Bool
some_of p [] = false
some_of p (c ∷ s) = all_of p (c ∷ s)

-- The texts around the first occurrence of a character.
unfoldable pub split_at : ℕ → Text → Option (Text × Text)
split_at c [] = none
split_at c (d ∷ s) =
    if c == d
    then some ([], s)
    else elim (split_at c s) [ none ↦ none | some p ↦ some (d ∷ p.0, p.1) ]

-- The groups of a match. The classes hold neither separator, so the first of each must match.
unfoldable pub match_groups : Text → Text → Text → Raises CanonicalSymbol
match_groups cls base quote =
    if some_of is_letter cls && (some_of is_symbol base && some_of is_symbol quote)
    then ok (record { asset_class = lower cls; base = base; quote = quote })
    else raised value_error

unfoldable pub match_canonical : Text → Raises CanonicalSymbol
unfolding split_at match_groups
match_canonical s = elim (split_at b':' s) [
  | none ↦ raised value_error
  | some p ↦ elim (split_at b'/' p.1) [
    | none ↦ raised value_error
    | some q ↦ match_groups p.0 q.0 q.1
  ]
]

unfoldable pub parse_canonical : Text → Raises CanonicalSymbol
unfolding match_canonical
parse_canonical canonical = match_canonical (upper (strip canonical))
