-- ===== src/Text/Laws.antt =====
-- Laws of `str`.
use mach.Prelude.{ℕ, ◌≡◌, refl, true, [], ◌∷◌, arith}
use mach.Text.{Text, eq_text, upper, upper_code}

pub eq_text_refl : (s : Text) → eq_text s s ≡ true
unfolding eq_text
eq_text_refl [] = refl
eq_text_refl (c ∷ s) = ground (arith, eq_text_refl s)

pub eq-eq_text : (s t : Text) → eq_text s t ≡ true → s ≡ t
unfolding eq_text
eq-eq_text [] [] h = refl
eq-eq_text [] (d ∷ t) h = cc
eq-eq_text (c ∷ s) [] h = cc
eq-eq_text (c ∷ s) (d ∷ t) h = ground (arith, eq-eq_text s t)

upper_code_idem : (c : ℕ) → upper_code (upper_code c) ≡ upper_code c
upper_code_idem c = ground arith

pub upper-upper : (s : Text) → upper (upper s) ≡ upper s
unfolding upper
upper-upper [] = refl
upper-upper (c ∷ s) = ground (arith, upper_code_idem c, upper-upper s)
