-- ===== src/Symbols/Resolve.antt =====
-- swaram/core/symbols.py: `resolve_canonical` on texts that are canonical already.
use mach.Prelude.{ℕ, ◌≡◌, refl, true, [], ◌∷◌, ◌++◌, arith}
use mach.Text.{Text, upper, contains}
use mach.Symbols.Parse.{CanonicalSymbol, value}
use mach.Symbols.{resolve_canonical, resolve_input}
use mach.Symbols.Canonical.{IsCanonical}
use mach.Symbols.Written.{strip-plain, value_plain, upper-value}

contains_here : (c : ℕ) (s t : Text) → contains c (s ++ c ∷ t) ≡ true
unfolding contains
contains_here c [] t = ground arith
contains_here c (d ∷ s) t = ground (arith, contains_here c s t)

contains_later : (c d : ℕ) (s t : Text) → contains c t ≡ true → contains c (s ++ d ∷ t) ≡ true
unfolding contains
contains_later c d [] t h = ground arith
contains_later c d (e ∷ s) t h = ground (arith, contains_later c d s t h)

colon_in : (s : CanonicalSymbol) → contains b':' (value s) ≡ true
unfolding value
colon_in s = contains_here b':' (upper s.asset_class) (upper s.base ++ b'/' ∷ upper s.quote)

slash_in : (s : CanonicalSymbol) → contains b'/' (value s) ≡ true
unfolding value
slash_in s =
    contains_later b'/' b':' (upper s.asset_class) (upper s.base ++ b'/' ∷ upper s.quote)
      (contains_here b'/' (upper s.base) (upper s.quote))

-- The text of a canonical symbol is resolved to itself.
resolve_canonical-value :
    (s : CanonicalSymbol) → IsCanonical s → resolve_canonical (value s) ≡ value s
unfolding resolve_canonical resolve_input upper value
resolve_canonical-value s c =
    rw
      (
        resolve_canonical,
        strip-plain (value s) (value_plain s c),
        upper-value s,
        resolve_input,
        colon_in s,
        slash_in s,
      )
      refl
