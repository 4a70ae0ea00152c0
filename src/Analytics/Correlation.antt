-- ===== src/Analytics/Correlation.antt =====
-- swaram/analytics/correlation.py. A dictionary of returns has each symbol once. numpy's `std` and
-- `corrcoef` are parameters.
use mach.Prelude.{
  ℕ, ◌≡◌, refl, Bool, true, false, ◌||◌, List, [], ◌∷◌, map, Option, none, some, length, min, ltb,
  take_last, if◌then◌else◌, Bool-cases, Option-cases, inl, inr, ap, ◌∙◌,
}
use mach.Text.{Text, eq_text}
use mach.Text.Laws.{eq_text_refl}
use mach.Text.Laws.{eq-eq_text}
use mach.Dict.{lookup}
use mach.Float.{Float, nought}

pub record CorrelationNumpy {ℓ} (F : Type ℓ) : Type ℓ where
  pub std : List F → F
  -- `np.corrcoef(xs, ys)[0, 1]`
  pub corrcoef : List F → List F → F

abbrev pub Returns {ℓ} : Type ℓ → Type ℓ
Returns F = List (Text × List F)

abbrev pub Matrix {ℓ} : Type ℓ → Type ℓ
Matrix F = List (Text × List (Text × F))

-- `min(len(arr) for arr in …)`, of a dictionary with at least one entry
abbrev pub least_length {ℓ} : {F : Type ℓ} → List F → Returns F → ℕ
least_length xs [] = length xs
least_length xs ((s, ys) ∷ d) = min (length xs) (least_length ys d)

module _ {ℓ} {F : Type ℓ} ⦃fl : Float F⦄ (np : CorrelationNumpy F) where
  open fl use {eq, round, decimal}

  -- One pair of returns that are cut to a common length.
  pub entry : Text × List F → Text × List F → F
  entry (s1, r1) (s2, r2) =
      if eq_text s1 s2
      then decimal 1 0
      else if eq (np.std r1) nought || eq (np.std r2) nought
      then nought
      else if eq (np.corrcoef r1 r2) (np.corrcoef r1 r2)
      then round (np.corrcoef r1 r2) 4
      else nought

  -- The entry of a pair with too few returns.
  pub identity_entry : Text × List F → Text × List F → F
  identity_entry (s1, r1) (s2, r2) = if eq_text s1 s2 then decimal 1 0 else nought

  abbrev pub row_of :
      (Text × List F → Text × List F → F) → Returns F → Text × List F → List (Text × F)
  row_of f d a = map (λ b. (b.0, f a b)) d

  abbrev pub matrix_of : (Text × List F → Text × List F → F) → Returns F → Matrix F
  matrix_of f d = map (λ a. (a.0, row_of f d a)) d

  abbrev pub truncated : ℕ → Returns F → Returns F
  truncated n d = map (λ a. (a.0, take_last n a.1)) d

  unfoldable pub compute_correlation_matrix : Returns F → Matrix F
  unfolding entry identity_entry
  compute_correlation_matrix [] = []
  compute_correlation_matrix ((s, xs) ∷ d) =
      let min_len = least_length xs d in
      if ltb min_len 2
      then matrix_of identity_entry ((s, xs) ∷ d)
      else matrix_of entry (truncated min_len ((s, xs) ∷ d))

  abbrev in_row : Text → Option (List (Text × F)) → Option F
  in_row s none = none
  in_row s (some row) = lookup s row

  -- `matrix[s1][s2]`
  pub cell : Text → Text → Matrix F → Option F
  cell s1 s2 m = in_row s2 (lookup s1 m)

  abbrev with_key : {A B : Type ℓ} → Text → (Text × A → B) → Option A → Option B
  with_key s f none = none
  with_key s f (some a) = some (f (s, a))

  lookup-map :
      {A B : Type ℓ} (s : Text) (f : Text × A → B) (d : List (Text × A))
      → lookup s (map (λ a. (a.0, f a)) d) ≡ with_key s f (lookup s d)
  unfolding lookup
  lookup-map s f [] = refl
  lookup-map s f ((t, a) ∷ d) = elim (Bool-cases (eq_text s t)) [
    | inl e ↦ rw (e, eq-eq_text s t e) refl
    | inr e ↦ rw e (lookup-map s f d)
  ]

  abbrev pick :
      Text
      → Text
      → (Text × List F → Text × List F → F)
      → Option (List F)
      → Option (List F)
      → Option F
  pick s1 s2 f none b = none
  pick s1 s2 f (some a) none = none
  pick s1 s2 f (some a) (some b) = some (f (s1, a) (s2, b))

  cell-matrix_of :
      (s1 s2 : Text) (f : Text × List F → Text × List F → F) (d : Returns F)
      → cell s1 s2 (matrix_of f d) ≡ pick s1 s2 f (lookup s1 d) (lookup s2 d)
  unfolding cell
  cell-matrix_of s1 s2 f d =
      ap (in_row s2) (lookup-map s1 (row_of f d) d) ∙ elim (Option-cases (lookup s1 d)) [
        | inl gone ↦ rw gone refl
        | inr (a, here) ↦ rw here (
            lookup-map s2 (f (s1, a)) d ∙ elim (Option-cases (lookup s2 d)) [
              | inl gone ↦ rw gone refl
              | inr (b, there) ↦ rw there refl
            ])
      ]

  -- A number is equal to itself, and NaN is not.
  abbrev pub IsReal : F → Type 0
  IsReal x = eq x x ≡ true

  -- Every pair of symbols of the dictionary has a cell, which holds no NaN, and no other pair has
  -- one; on the diagonal stands 1.
  pub record IsCorrelation (d : Returns F) (m : Matrix F) : Type ℓ where
    pub complete :
        (s1 s2 : Text) (xs ys : List F)
        → lookup s1 d ≡ some xs
        → lookup s2 d ≡ some ys
        → (x : F) × (cell s1 s2 m ≡ some x) × IsReal x
    pub outside_row : (s1 s2 : Text) → lookup s1 d ≡ none → cell s1 s2 m ≡ none
    pub outside_column : (s1 s2 : Text) → lookup s2 d ≡ none → cell s1 s2 m ≡ none
    pub diagonal : (s : Text) (xs : List F) → lookup s d ≡ some xs → cell s s m ≡ some (decimal 1 0)

  pick-none :
      (s1 s2 : Text) (f : Text × List F → Text × List F → F) (o : Option (List F))
      → pick s1 s2 f o none ≡ none
  pick-none s1 s2 f none = refl
  pick-none s1 s2 f (some a) = refl

  matrix_of-IsCorrelation :
      (f : Text × List F → Text × List F → F) (d : Returns F)
      → ((s1 s2 : Text) (a b : List F) → IsReal (f (s1, a) (s2, b)))
      → ((s : Text) (a : List F) → f (s, a) (s, a) ≡ decimal 1 0)
      → IsCorrelation d (matrix_of f d)
  matrix_of-IsCorrelation f d real one = record {
    complete = λ s1 s2 xs ys here there.
        (f (s1, xs) (s2, ys), cell-matrix_of s1 s2 f d ∙ rw (here, there) refl, real s1 s2 xs ys);
    outside_row = λ s1 s2 gone. cell-matrix_of s1 s2 f d ∙ rw gone refl;
    outside_column =
        λ s1 s2 gone. cell-matrix_of s1 s2 f d ∙ rw gone (pick-none s1 s2 f (lookup s1 d));
    diagonal = λ s xs here. cell-matrix_of s s f d ∙ rw here (ap some (one s xs));
  }

  lookup-truncated :
      (n : ℕ) (s : Text) (d : Returns F)
      → lookup s (truncated n d) ≡ with_key s (λ a. take_last n a.1) (lookup s d)
  lookup-truncated n s d = lookup-map s (λ a. take_last n a.1) d

  truncated-IsCorrelation :
      (n : ℕ) (d : Returns F) (m : Matrix F) → IsCorrelation (truncated n d) m → IsCorrelation d m
  truncated-IsCorrelation n d m c = record {
    complete = λ s1 s2 xs ys here there.
        c.complete s1 s2 (take_last n xs) (take_last n ys) (lookup-truncated n s1 d ∙ rw here refl)
          (lookup-truncated n s2 d ∙ rw there refl);
    outside_row = λ s1 s2 gone. c.outside_row s1 s2 (lookup-truncated n s1 d ∙ rw gone refl);
    outside_column = λ s1 s2 gone. c.outside_column s1 s2 (lookup-truncated n s2 d ∙ rw gone refl);
    diagonal = λ s xs here. c.diagonal s (take_last n xs) (lookup-truncated n s d ∙ rw here refl);
  }

  if-IsCorrelation :
      (b : Bool) (d : Returns F) (m n : Matrix F)
      → IsCorrelation d m
      → IsCorrelation d n
      → IsCorrelation d (if b then m else n)
  if-IsCorrelation true d m n p q = p
  if-IsCorrelation false d m n p q = q

  if-IsReal : (b : Bool) (x y : F) → (b ≡ true → IsReal x) → IsReal y → IsReal (if b then x else y)
  if-IsReal true x y p q = p refl
  if-IsReal false x y p q = q

  -- Where 0 and 1 are equal to themselves, and rounding gives no NaN of a number: every pair of
  -- symbols of the dictionary has a cell, no other pair has one, 1 stands on the diagonal, and no
  -- cell is NaN, whatever `std` and `corrcoef` give, also where the returns are too few, do not vary
  -- or have a NaN among them.
  pub compute_correlation_matrix-IsCorrelation :
      (d : Returns F)
      → IsReal nought
      → IsReal (decimal 1 0)
      → ((x : F) → IsReal x → IsReal (round x 4))
      → IsCorrelation d (compute_correlation_matrix d)
  unfolding compute_correlation_matrix cell lookup entry identity_entry
  compute_correlation_matrix-IsCorrelation [] zero one rounds = record {
    complete = λ s1 s2 xs ys here there. absurd cc;
    outside_row = λ s1 s2 gone. refl;
    outside_column = λ s1 s2 gone. refl;
    diagonal = λ s xs here. absurd cc;
  }
  compute_correlation_matrix-IsCorrelation ((s, xs) ∷ d) zero one rounds =
      let n = least_length xs d in
      let all : Returns F = (s, xs) ∷ d in
      if-IsCorrelation (ltb n 2) all (matrix_of identity_entry all)
        (matrix_of entry (truncated n all))
        (matrix_of-IsCorrelation identity_entry all
          (λ s1 s2 a b. if-IsReal (eq_text s1 s2) (decimal 1 0) nought (λ e. one) zero)
          (λ t a. rw (eq_text_refl t) refl))
        (truncated-IsCorrelation n all _ (
          matrix_of-IsCorrelation entry (truncated n all)
            (λ s1 s2 a b.
              if-IsReal (eq_text s1 s2) (decimal 1 0) _ (λ e. one)
                (if-IsReal (eq (np.std a) nought || eq (np.std b) nought) nought _ (λ e. zero)
                  (if-IsReal (eq (np.corrcoef a b) (np.corrcoef a b)) (round (np.corrcoef a b) 4)
                    nought (λ e. rounds (np.corrcoef a b) e) zero)))
            (λ t a. rw (eq_text_refl t) refl)))
