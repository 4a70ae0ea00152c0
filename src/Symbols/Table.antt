-- ===== src/Symbols/Table.antt =====
-- swaram/core/symbols.py: `to_provider_symbol` and `to_canonical` on the table of symbols.
use mach.Prelude.{
  ◌≡◌, refl, sym, ap, ◌∙◌, subst, inl, inr, Bool, true, false, Bool-cases, ◌&&◌, ◌||◌, not, List,
  [], ◌∷◌, none, some, some-injective, Option-cases, ok, arith,
}
use mach.Text.{Text, eq_text, one_of, lower, upper, strip, lstrip, rstrip}
use mach.Text.Laws.{eq-eq_text}
use mach.Symbols.{
  Meta, default_symbol_map, find, find_key, provider_to_canonical, is_provider, to_canonical,
  to_provider_symbol, index_all, index_meta, put_key,
}

-- Whether a symbol is indexed under its canonical one.
abbrev indexed : Text → Text → Text → Bool
indexed canonical k symbol = elim (find_key (k, upper (strip symbol)) provider_to_canonical) [
  | none ↦ false
  | some c ↦ eq_text c canonical
]

abbrev meta_ok : Text → Meta → Bool
meta_ok canonical [] = true
meta_ok canonical ((k, v) ∷ meta) =
    (not (is_provider k) || indexed canonical k v) && meta_ok canonical meta

abbrev table_ok : List (Text × Meta) → Bool
table_ok [] = true
table_ok ((canonical, meta) ∷ table) = meta_ok canonical meta && table_ok table

default_ok : table_ok default_symbol_map ≡ true
unfolding default_symbol_map provider_to_canonical find_key strip lstrip rstrip upper lower eq_text
    one_of index_all index_meta put_key
default_ok = refl

find_table :
    (table : List (Text × Meta)) (canonical : Text) (meta : Meta)
    → table_ok table ≡ true
    → find canonical table ≡ some meta
    → meta_ok canonical meta ≡ true
unfolding find
find_table [] canonical meta good found = cc
find_table ((j, w) ∷ table) canonical meta good found = elim (Bool-cases (eq_text canonical j)) [
  | inl e ↦ rw (eq-eq_text canonical j e, sym (some-injective _ _ (rw e at found))) (ground arith)
  | inr e ↦ find_table table canonical meta (ground arith) (rw e at found)
]

head_ok : (a b c : Bool) → ((not a || b) && c) ≡ true → a ≡ true → b ≡ true
head_ok a b c h k = ground arith

find_meta :
    (meta : Meta) (canonical k symbol : Text)
    → meta_ok canonical meta ≡ true
    → find k meta ≡ some symbol
    → is_provider k ≡ true
    → indexed canonical k symbol ≡ true
unfolding find
find_meta [] canonical k symbol good found p = cc
find_meta ((j, w) ∷ meta) canonical k symbol good found p = elim (Bool-cases (eq_text k j)) [
  | inl e ↦
      let same = eq-eq_text k j e in
      let head =
        head_ok (is_provider j) (indexed canonical j w) (meta_ok canonical meta) good
          (subst (λ x. is_provider x ≡ true) same p) in
      subst (λ x. indexed canonical x symbol ≡ true) (sym same)
        (subst (λ x. indexed canonical j x ≡ true) (some-injective _ _ (rw e at found)) head)
  | inr e ↦ find_meta meta canonical k symbol (ground arith) (rw e at found) p
]

indexed_found :
    (canonical k symbol : Text)
    → indexed canonical k symbol ≡ true
    → find_key (k, upper (strip symbol)) provider_to_canonical ≡ some canonical
indexed_found canonical k symbol h =
    elim (Option-cases (find_key (k, upper (strip symbol)) provider_to_canonical)) [
      | inl e ↦ absurd (let lost : false ≡ true = rw (e, indexed) at h in cc)
      | inr (c, e) ↦ e ∙ ap some (eq-eq_text c canonical (rw (e, indexed) at h))
    ]

-- Where the table names a symbol for a provider, whose name has no white space around it,
-- `to_provider_symbol` gives that symbol, and `to_canonical` takes it back to the canonical one.
pub to_canonical-to_provider_symbol :
    (canonical provider symbol : Text) (meta : Meta)
    → find (upper (strip canonical)) default_symbol_map ≡ some meta
    → find (lower provider) meta ≡ some symbol
    → is_provider (lower provider) ≡ true
    → strip provider ≡ provider
    → (to_provider_symbol canonical provider ≡ ok symbol)
      × (to_canonical provider symbol ≡ upper (strip canonical))
unfolding to_provider_symbol to_canonical
to_canonical-to_provider_symbol canonical provider symbol meta in_table in_meta p bare =
    let good = find_table default_symbol_map (upper (strip canonical)) meta default_ok in_table in
    let back =
      indexed_found (upper (strip canonical)) (lower provider) symbol
        (find_meta meta (upper (strip canonical)) (lower provider) symbol good in_meta p) in
    (rw (to_provider_symbol, in_table, in_meta) refl, rw (to_canonical, bare, back) refl)
