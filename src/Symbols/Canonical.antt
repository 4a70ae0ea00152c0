-- ===== src/Symbols/Canonical.antt =====
-- swaram/core/symbols.py: `parse_canonical` against `CanonicalSymbol.value`.
use mach.Prelude.{
  ℕ, ◌≡◌, refl, sym, ap, ◌∙◌, ◌↔◌, inl, inr, Bool, true, Bool-cases, Option-cases, ◌&&◌, [], ◌∷◌,
  ◌++◌, some, some-injective, subst, ==_iff, ok, raised, leb, ◌==◌, arith, value_error,
}
use mach.Text.{Text, lower, upper, strip}
use mach.Symbols.Parse.{
  CanonicalSymbol, value, all_of, some_of, is_letter, is_symbol, split_at, match_groups,
  match_canonical, parse_canonical,
}

abbrev pub is_lower : ℕ → Bool
is_lower c = leb b'a' c && leb c b'z'

-- The class in lower case letters; base and quote in the characters of symbols.
pub record IsCanonical (s : CanonicalSymbol) : Type 0 where
  pub class_ok : some_of is_lower s.asset_class ≡ true
  pub base_ok : some_of is_symbol s.base ≡ true
  pub quote_ok : some_of is_symbol s.quote ≡ true

pub all_of-append :
    (p : ℕ → Bool) (s t : Text) → all_of p s ≡ true → all_of p t ≡ true → all_of p (s ++ t) ≡ true
unfolding all_of
all_of-append p [] t h k = k
all_of-append p (c ∷ s) t h k = ground (arith, all_of-append p s t)

pub some_of-all_of : (p : ℕ → Bool) (s : Text) → some_of p s ≡ true → all_of p s ≡ true
some_of-all_of p [] h = cc
some_of-all_of p (c ∷ s) h = h

pub upper-append : (s t : Text) → upper (s ++ t) ≡ upper s ++ upper t
unfolding upper
upper-append [] t = refl
upper-append (c ∷ s) t = rw (upper-append s t) refl

pub upper-all_of : (s : Text) → all_of is_symbol s ≡ true → upper s ≡ s
unfolding upper all_of
upper-all_of [] h = refl
upper-all_of (c ∷ s) h = ground (arith, upper-all_of s)

lower-upper : (s : Text) → all_of is_lower s ≡ true → lower (upper s) ≡ s
unfolding upper lower all_of
lower-upper [] h = refl
lower-upper (c ∷ s) h = ground (arith, lower-upper s)

upper-lower : (s : Text) → all_of is_letter s ≡ true → upper (lower s) ≡ s
unfolding upper lower all_of
upper-lower [] h = refl
upper-lower (c ∷ s) h = ground (arith, upper-lower s)

pub upper_letters : (s : Text) → all_of is_lower s ≡ true → all_of is_letter (upper s) ≡ true
unfolding upper all_of
upper_letters [] h = refl
upper_letters (c ∷ s) h = ground (arith, upper_letters s)

lower_letters : (s : Text) → all_of is_letter s ≡ true → all_of is_lower (lower s) ≡ true
unfolding lower all_of
lower_letters [] h = refl
lower_letters (c ∷ s) h = ground (arith, lower_letters s)

some_of-upper : (s : Text) → some_of is_lower s ≡ true → some_of is_letter (upper s) ≡ true
unfolding upper
some_of-upper [] h = cc
some_of-upper (c ∷ s) h = upper_letters (c ∷ s) h

some_of-lower : (s : Text) → some_of is_letter s ≡ true → some_of is_lower (lower s) ≡ true
unfolding lower
some_of-lower [] h = cc
some_of-lower (c ∷ s) h = lower_letters (c ∷ s) h

split_at_here :
    (s t : Text) → all_of is_letter s ≡ true → split_at b':' (s ++ b':' ∷ t) ≡ some (s, t)
unfolding split_at all_of
split_at_here [] t h = refl
split_at_here (c ∷ s) t h = elim (Bool-cases (b':' == c)) [
  | inl e ↦ ground arith
  | inr e ↦ rw (e, split_at_here s t (ground arith)) refl
]

split_at_slash :
    (s t : Text) → all_of is_symbol s ≡ true → split_at b'/' (s ++ b'/' ∷ t) ≡ some (s, t)
unfolding split_at all_of
split_at_slash [] t h = refl
split_at_slash (c ∷ s) t h = elim (Bool-cases (b'/' == c)) [
  | inl e ↦ ground arith
  | inr e ↦ rw (e, split_at_slash s t (ground arith)) refl
]

ok_same {ℓ} : {A : Type ℓ} {x y : A} → ok x ≡ ok y → x ≡ y
ok_same {x = x} e = ap (λ o. elim o [ ok z ↦ z | raised r ↦ x ]) e

split_at_sound : (c : ℕ) (s : Text) (p : Text × Text) → split_at c s ≡ some p → s ≡ p.0 ++ c ∷ p.1
unfolding split_at
split_at_sound c [] p h = cc
split_at_sound c (d ∷ s) p h = elim (Bool-cases (c == d)) [
  | inl e ↦
      subst (λ (q : Text × Text). d ∷ s ≡ q.0 ++ c ∷ q.1) (some-injective _ _ (rw e at h))
        (ap (λ x. x ∷ s) (sym ((==_iff c d).0 e)))
  | inr e ↦ elim (Option-cases (split_at c s)) [
    | inl lost ↦ absurd (ground arith)
    | inr (q, found) ↦
        subst (λ (r : Text × Text). d ∷ s ≡ r.0 ++ c ∷ r.1)
          (some-injective _ _ (rw (e, found) at h)) (ap (λ x. d ∷ x) (split_at_sound c s q found))
  ]
]

match_groups_sound :
    (cls base quote : Text) (s : CanonicalSymbol)
    → match_groups cls base quote ≡ ok s
    → IsCanonical s × (value s ≡ cls ++ b':' ∷ (base ++ b'/' ∷ quote))
unfolding match_groups value
match_groups_sound cls base quote s h =
    let good = some_of is_letter cls && (some_of is_symbol base && some_of is_symbol quote) in
    elim (Bool-cases good) [
      | inl e ↦
          let c : some_of is_letter cls ≡ true = ground arith in
          let b : some_of is_symbol base ≡ true = ground arith in
          let q : some_of is_symbol quote ≡ true = ground arith in
          subst (λ r. IsCanonical r × (value r ≡ cls ++ b':' ∷ (base ++ b'/' ∷ quote)))
            (ok_same (rw e at h))
            (
              record { class_ok = some_of-lower cls c; base_ok = b; quote_ok = q },
              rw
                  (
                    upper-lower cls (some_of-all_of is_letter cls c),
                    upper-all_of base (some_of-all_of is_symbol base b),
                    upper-all_of quote (some_of-all_of is_symbol quote q),
                  )
                  refl,
            )
      | inr e ↦ absurd (let lost : raised value_error ≡ ok s = rw e at h in cc)
    ]

match_canonical_sound :
    (t : Text) (s : CanonicalSymbol) → match_canonical t ≡ ok s → IsCanonical s × (value s ≡ t)
unfolding match_canonical
match_canonical_sound t s h = elim (Option-cases (split_at b':' t)) [
  | inl e ↦ absurd (let lost : raised value_error ≡ ok s = rw (e, match_canonical) at h in cc)
  | inr (p, e) ↦ elim (Option-cases (split_at b'/' p.1)) [
    | inl f ↦ absurd (let lost : raised value_error ≡ ok s = rw (e, f, match_canonical) at h in cc)
    | inr (q, f) ↦
        let (fine, eq) = match_groups_sound p.0 q.0 q.1 s (rw (e, f, match_canonical) at h) in
        (
          fine,
          eq
              ∙ ap (λ x. p.0 ++ b':' ∷ x) (sym (split_at_sound b'/' p.1 q f))
              ∙ sym (split_at_sound b':' t p e),
        )
  ]
]

match_canonical_complete : (s : CanonicalSymbol) → IsCanonical s → match_canonical (value s) ≡ ok s
unfolding match_canonical value match_groups
match_canonical_complete s c =
    let cls = some_of-all_of is_lower s.asset_class c.class_ok in
    let b = some_of-all_of is_symbol s.base c.base_ok in
    let q = some_of-all_of is_symbol s.quote c.quote_ok in
    rw
      (
        match_canonical,
        value,
        split_at_here (upper s.asset_class) (upper s.base ++ b'/' ∷ upper s.quote)
            (upper_letters s.asset_class cls),
        upper-all_of s.base b,
        upper-all_of s.quote q,
        split_at_slash s.base s.quote b,
        some_of-upper s.asset_class c.class_ok,
        c.base_ok,
        c.quote_ok,
        match_groups,
      )
      (ap (λ x. ok (record s { asset_class = x })) (lower-upper s.asset_class cls))

-- A text parses as a symbol exactly when the symbol is canonical and is written as that text, with
-- the text stripped and in upper case.
pub parse_canonical_iff :
    (t : Text) (s : CanonicalSymbol)
    → (parse_canonical t ≡ ok s) ↔ (IsCanonical s × (value s ≡ upper (strip t)))
unfolding parse_canonical
parse_canonical_iff t s = (
  λ h. match_canonical_sound (upper (strip t)) s h,
  λ (c, e). rw (sym e) (match_canonical_complete s c),
)
