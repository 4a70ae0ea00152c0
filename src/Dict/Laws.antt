-- ===== src/Dict/Laws.antt =====
-- Laws of `dict`.
use mach.Prelude.{◌≡◌, refl, List, [], ◌∷◌, none, some, Bool-cases, if◌then◌else◌, inl, inr, arith}
use mach.Text.{Text, eq_text}
use mach.Text.Laws.{eq-eq_text}
use mach.Dict.{lookup, store, discard}

pub eq_text_sym : (s t : Text) → eq_text s t ≡ eq_text t s
eq_text_sym s t = elim (Bool-cases (eq_text s t)) [
  | inl e ↦ rw (eq-eq_text s t e) refl
  | inr e ↦ elim (Bool-cases (eq_text t s)) [
    | inl f ↦ rw (eq-eq_text t s f) refl
    | inr f ↦ rw (e, f) refl
  ]
]

module _ {ℓ} {A : Type ℓ} where
  -- What is found after a store.
  pub lookup-store :
      (j k : Text) (v : A) (d : List (Text × A))
      → lookup j (store k v d) ≡ (if eq_text j k then some v else lookup j d)
  unfolding lookup store
  lookup-store j k v [] = refl
  lookup-store j k v ((i, w) ∷ d) = elim (Bool-cases (eq_text k i)) [
    | inl e ↦ rw (e, ← eq-eq_text k i e) (ground arith)
    | inr e ↦ elim (Bool-cases (eq_text j i)) [
      | inl f ↦ rw (e, f, eq-eq_text j i f, eq_text_sym i k, e) refl
      | inr f ↦ rw (e, f) (lookup-store j k v d)
    ]
  ]

  -- What is found after a removal.
  pub lookup-discard :
      (j k : Text) (d : List (Text × A))
      → lookup j (discard k d) ≡ (if eq_text j k then none else lookup j d)
  unfolding lookup discard
  lookup-discard j k [] = ground arith
  lookup-discard j k ((i, w) ∷ d) = elim (Bool-cases (eq_text k i)) [
    | inl e ↦ rw (e, ← eq-eq_text k i e) (ground (arith, lookup-discard j k d))
    | inr e ↦ elim (Bool-cases (eq_text j i)) [
      | inl f ↦ rw (e, f, eq-eq_text j i f, eq_text_sym i k, e) refl
      | inr f ↦ rw (e, f) (lookup-discard j k d)
    ]
  ]
