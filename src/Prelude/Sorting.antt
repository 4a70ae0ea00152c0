-- ===== src/Prelude/Sorting.antt =====
-- Python's `sorted` with a numeric key: a stable insertion sort.
use Prim.Native.Nat.{ℕ, ◌≤◌}
use mathlib.Core.Path.{◌≡◌, refl}
use mathlib.Core.List.{List, [], ◌∷◌, ◌++◌}
use native.Mathlib.Omega.{arith}
use native.Mathlib.Nat.{le_trans}
use mach.Prelude.Tests.{leb, if◌then◌else◌}
use mach.Prelude.Lists.{All, All-append, All-mono}

module _ {ℓ} {A : Type ℓ} (key : A → ℕ) where
  unfoldable pub insert_by : A → List A → List A
  insert_by x [] = x ∷ []
  insert_by x (y ∷ ys) = if leb (key x) (key y) then x ∷ y ∷ ys else y ∷ insert_by x ys

  unfoldable pub sort_by : List A → List A
  unfolding insert_by
  sort_by [] = []
  sort_by (x ∷ xs) = insert_by x (sort_by xs)

  -- Each key is at most all later ones.
  abbrev pub IsSorted : List A → Type 0
  IsSorted [] = Unit
  IsSorted (x ∷ xs) = All (λ y. key x ≤ key y) xs × IsSorted xs

  insert_by-least : (x : A) (xs : List A) → All (λ y. key x ≤ key y) xs → insert_by x xs ≡ x ∷ xs
  unfolding insert_by
  insert_by-least x [] h = refl
  insert_by-least x (y ∷ ys) h = ground arith

  -- Sorting a sorted list changes nothing.
  pub sort_by-sorted : (xs : List A) → IsSorted xs → sort_by xs ≡ xs
  unfolding sort_by
  sort_by-sorted [] h = refl
  sort_by-sorted (x ∷ xs) (h, hs) = rw (sort_by-sorted xs hs) (insert_by-least x xs h)

  -- Lists sorted one after the other.
  pub IsSorted-append :
      (k : ℕ) (xs ys : List A)
      → IsSorted xs
      → All (λ x. key x ≤ k) xs
      → IsSorted ys
      → All (λ y. k ≤ key y) ys
      → IsSorted (xs ++ ys)
  IsSorted-append k [] ys s b t c = t
  IsSorted-append k (x ∷ xs) ys (h, s) (b, bs) t c = (
    All-append (λ y. key x ≤ key y) xs ys h (All-mono ys c (λ y m. le_trans b m)),
    IsSorted-append k xs ys s bs t c,
  )
