-- ===== src/Symbols/Written.antt =====
-- swaram/core/symbols.py: `parse_canonical` on the text that `CanonicalSymbol.value` writes.
use mach.Prelude.{ℕ, ◌≡◌, refl, sym, ap, ◌∙◌, Bool, true, not, [], ◌∷◌, ◌++◌, ok, arith}
use mach.Text.{Text, upper, strip, lstrip, rstrip, is_space}
use mach.Text.Laws.{upper-upper}
use mach.Symbols.Parse.{CanonicalSymbol, value, all_of, is_letter, is_symbol, parse_canonical}
use mach.Symbols.Canonical.{
  is_lower, all_of-append, some_of-all_of, upper-append, upper-all_of, upper_letters,
  parse_canonical_iff, IsCanonical,
}

abbrev plain : ℕ → Bool
plain c = not (is_space c)

letters_plain : (s : Text) → all_of is_letter s ≡ true → all_of plain s ≡ true
unfolding all_of
letters_plain [] h = refl
letters_plain (c ∷ s) h = ground (arith, letters_plain s)

symbols_plain : (s : Text) → all_of is_symbol s ≡ true → all_of plain s ≡ true
unfolding all_of
symbols_plain [] h = refl
symbols_plain (c ∷ s) h = ground (arith, symbols_plain s)

lstrip-plain : (s : Text) → all_of plain s ≡ true → lstrip s ≡ s
unfolding lstrip all_of
lstrip-plain [] h = refl
lstrip-plain (c ∷ s) h = ground arith

rstrip-plain : (s : Text) → all_of plain s ≡ true → rstrip s ≡ s
unfolding rstrip all_of
rstrip-plain [] h = refl
rstrip-plain (c ∷ []) h = ground arith
rstrip-plain (c ∷ d ∷ s) h = rw (rstrip-plain (d ∷ s) (ground arith)) refl

pub strip-plain : (s : Text) → all_of plain s ≡ true → strip s ≡ s
unfolding strip
strip-plain s h = rw (rstrip-plain s h) (lstrip-plain s h)

plain_cons :
    (c : ℕ) (s : Text) → plain c ≡ true → all_of plain s ≡ true → all_of plain (c ∷ s) ≡ true
unfolding all_of
plain_cons c s h k = ground arith

pub value_plain : (s : CanonicalSymbol) → IsCanonical s → all_of plain (value s) ≡ true
unfolding value
value_plain s c =
    let cls = upper_letters s.asset_class (some_of-all_of is_lower s.asset_class c.class_ok) in
    let b = some_of-all_of is_symbol s.base c.base_ok in
    let q = some_of-all_of is_symbol s.quote c.quote_ok in
    rw (upper-all_of s.base b, upper-all_of s.quote q)
      (all_of-append plain (upper s.asset_class) _ (letters_plain (upper s.asset_class) cls) (
        plain_cons b':' _ refl (
          all_of-append plain s.base _ (symbols_plain s.base b)
            (plain_cons b'/' _ refl (symbols_plain s.quote q)))))

pub upper-value : (s : CanonicalSymbol) → upper (value s) ≡ value s
unfolding value upper
upper-value s =
    rw
      (
        upper-append (upper s.asset_class) (b':' ∷ (upper s.base ++ b'/' ∷ upper s.quote)),
        upper,
        upper-append (upper s.base) (b'/' ∷ upper s.quote),
        upper,
        upper-upper s.asset_class,
        upper-upper s.base,
        upper-upper s.quote,
      )
      refl

-- A canonical symbol is what its own text parses as.
parse_canonical-value : (s : CanonicalSymbol) → IsCanonical s → parse_canonical (value s) ≡ ok s
parse_canonical-value s c =
    (parse_canonical_iff (value s) s).1
      (c, sym (ap upper (strip-plain (value s) (value_plain s c)) ∙ upper-value s))
