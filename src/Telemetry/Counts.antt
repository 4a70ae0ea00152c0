-- ===== src/Telemetry/Counts.antt =====
-- swaram/telemetry/prometheus.py: what a counter shows after it is incremented.
use mach.Prelude.{
  ◌≡◌, refl, sym, ◌∙◌, ap, inl, inr, true, false, Bool-cases, List, [], ◌∷◌, if◌then◌else◌,
}
use mach.Text.{Text, eq_text}
use mach.Text.Laws.{eq-eq_text}
use mach.Float.{Float, ◌⊕◌}
use mach.Telemetry.{Counter, labels, inc, get, value_at, set_at, key_of}

module _ {ℓ} {F : Type ℓ} ⦃fl : Float F⦄ where
  value_at-set_at :
      (k j : Text) (v : F) (m : List (Text × F))
      → value_at k (set_at j v m) ≡ (if eq_text k j then v else value_at k m)
  unfolding value_at set_at
  value_at-set_at k j v [] = refl
  value_at-set_at k j v ((i, w) ∷ m) = elim (Bool-cases (eq_text j i)) [
    | inl e ↦
        let same = ap (eq_text k) (eq-eq_text j i e) in
        elim (Bool-cases (eq_text k i)) [
          | inl f ↦ rw (set_at, e, value_at, same, f) refl
          | inr f ↦ rw (set_at, e, value_at, same, f) refl
        ]
    | inr e ↦ elim (Bool-cases (eq_text k i)) [
      | inl f ↦ elim (Bool-cases (eq_text k j)) [
        | inl g ↦
            absurd (
              let clash : true ≡ false = sym f ∙ ap (λ x. eq_text x i) (eq-eq_text k j g) ∙ e in cc)
        | inr g ↦ rw (set_at, e, value_at, f, g) refl
      ]
      | inr f ↦ rw (set_at, e, value_at, f) (value_at-set_at k j v m)
    ]
  ]

  -- An increment under some labels adds to the value that the same labels show, and leaves that of all other labels.
  get-inc :
      (kwargs shown : List (Text × Text)) (amount : F) (c : Counter F)
      → get shown (inc amount (labels kwargs c))
        ≡ (if eq_text (key_of shown) (key_of kwargs) then get shown c ⊕ amount else get shown c)
  unfolding get inc labels
  get-inc kwargs shown amount c =
      let key = key_of kwargs in
      let at = value_at-set_at (key_of shown) key (value_at key c.values ⊕ amount) c.values in
      elim (Bool-cases (eq_text (key_of shown) key)) [
        | inl e ↦
            rw (get, inc, labels, at, e)
              (ap (λ x. value_at x c.values ⊕ amount) (sym (eq-eq_text (key_of shown) key e)))
        | inr e ↦ rw (get, inc, labels, at, e) refl
      ]
