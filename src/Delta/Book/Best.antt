-- ===== src/Delta/Book/Best.antt =====
-- swaram/providers/crypto/delta_ws.py: the best prices of the event of an order book.
use mach.Prelude.{
  ℕ, suc, ◌≡◌, refl, ◌∙◌, ap, subst, inl, inr, Bool, true, false, Bool-cases, List, [], ◌∷◌, some,
  some-injective, All, All-mono, length, min,
}
use mach.Text.{Text}
use mach.Float.{Float, nought, ◌⊖◌}
use mach.Float.Laws.{lt_asym, larger_nonneg, IsOrdered, IsNumber}
use mach.Events.{OrderbookEvent}
use mach.Delta.Book.{
  insert_level, sort_levels, descending, ascending, event_of, event_of_sides, parse_levels,
}

module _ {ℓ} {F : Type ℓ} ⦃fl : Float F⦄ where
  open fl use {lt}

  insert_level-All {κ} :
      (P : F × F → Type κ) (ahead : F → F → Bool) (x : F × F) (xs : List (F × F))
      → P x
      → All P xs
      → All P (insert_level ahead x xs)
  unfolding insert_level
  insert_level-All P ahead x [] h hs = (h, hs)
  insert_level-All P ahead x (y ∷ ys) h (k, ks) = elim (Bool-cases (ahead y.0 x.0)) [
    | inl e ↦ rw (insert_level, e) (k, insert_level-All P ahead x ys h ks)
    | inr e ↦ rw (insert_level, e) (h, (k, ks))
  ]

  insert_level_parts {κ} :
      (P : F × F → Type κ) (ahead : F → F → Bool) (x : F × F) (xs : List (F × F))
      → All P (insert_level ahead x xs)
      → P x × All P xs
  unfolding insert_level
  insert_level_parts P ahead x [] h = h
  insert_level_parts P ahead x (y ∷ ys) h = elim (Bool-cases (ahead y.0 x.0)) [
    | inl e ↦
        let (k, rest) = rw (insert_level, e) at h in
        let (px, ps) = insert_level_parts P ahead x ys rest in (px, (k, ps))
    | inr e ↦ rw (insert_level, e) at h
  ]

  sort_levels-All {κ} :
      (P : F × F → Type κ) (ahead : F → F → Bool) (xs : List (F × F))
      → All P xs
      → All P (sort_levels ahead xs)
  unfolding sort_levels
  sort_levels-All P ahead [] h = h
  sort_levels-All P ahead (x ∷ xs) (h, hs) =
      insert_level-All P ahead x (sort_levels ahead xs) h (sort_levels-All P ahead xs hs)

  sort_levels_parts {κ} :
      (P : F × F → Type κ) (ahead : F → F → Bool) (xs : List (F × F))
      → All P (sort_levels ahead xs)
      → All P xs
  unfolding sort_levels
  sort_levels_parts P ahead [] h = h
  sort_levels_parts P ahead (x ∷ xs) h =
      let (px, ps) = insert_level_parts P ahead x (sort_levels ahead xs) h in
      (px, sort_levels_parts P ahead xs ps)

  length-insert_level :
      (ahead : F → F → Bool) (x : F × F) (xs : List (F × F))
      → length (insert_level ahead x xs) ≡ suc (length xs)
  unfolding insert_level
  length-insert_level ahead x [] = refl
  length-insert_level ahead x (y ∷ ys) = elim (Bool-cases (ahead y.0 x.0)) [
    | inl e ↦ rw (insert_level, e) (ap suc (length-insert_level ahead x ys))
    | inr e ↦ rw (insert_level, e) refl
  ]

  length-sort_levels :
      (ahead : F → F → Bool) (xs : List (F × F)) → length (sort_levels ahead xs) ≡ length xs
  unfolding sort_levels
  length-sort_levels ahead [] = refl
  length-sort_levels ahead (x ∷ xs) =
      length-insert_level ahead x (sort_levels ahead xs) ∙ ap suc (length-sort_levels ahead xs)

  abbrev pub Numbers : List (F × F) → Type 0
  Numbers = All λ l. IsNumber l.0

  -- No level is ahead of the first.
  abbrev HeadFirst : (F → F → Bool) → List (F × F) → Type 0
  HeadFirst ahead [] = Unit
  HeadFirst ahead (x ∷ xs) = All (λ y. ahead y.0 x.0 ≡ false) (x ∷ xs)

  -- What the sort needs of its test, on numbers.
  record IsStrict (ahead : F → F → Bool) : Type ℓ where
    irrefl : (x : F) → ahead x x ≡ false
    asym : (x y : F) → ahead x y ≡ true → ahead y x ≡ false
    trans : (x y z : F) → IsNumber y → ahead x y ≡ false → ahead y z ≡ false → ahead x z ≡ false

  module _ (ahead : F → F → Bool) (strict : IsStrict ahead) where
    insert_level-HeadFirst :
        (x : F × F) (xs : List (F × F))
        → Numbers xs
        → HeadFirst ahead xs
        → HeadFirst ahead (insert_level ahead x xs)
    unfolding insert_level
    insert_level-HeadFirst x [] n h = (strict.irrefl x.0, tt)
    insert_level-HeadFirst x (y ∷ ys) (n, ns) h = elim (Bool-cases (ahead y.0 x.0)) [
      | inl e ↦
          rw (insert_level, e)
            (
              strict.irrefl y.0,
              insert_level-All (λ z. ahead z.0 y.0 ≡ false) ahead x ys (strict.asym y.0 x.0 e) h.1,
            )
      | inr e ↦
          rw (insert_level, e)
            (strict.irrefl x.0, All-mono (y ∷ ys) h λ z g. strict.trans z.0 y.0 x.0 n g e)
    ]

    sort_levels-HeadFirst :
        (xs : List (F × F)) → Numbers xs → HeadFirst ahead (sort_levels ahead xs)
    unfolding sort_levels
    sort_levels-HeadFirst [] n = tt
    sort_levels-HeadFirst (x ∷ xs) (n, ns) =
        insert_level-HeadFirst x (sort_levels ahead xs)
          (sort_levels-All (λ l. IsNumber l.0) ahead xs ns) (sort_levels-HeadFirst xs ns)

  module _ (ordered : IsOrdered F) where
    open ordered use {lt_irrefl, not-lt_trans}

    descending-IsStrict : IsStrict descending
    descending-IsStrict = record {
      irrefl = lt_irrefl;
      asym = λ x y h. lt_asym ordered y x h;
      trans = λ x y z n g h. not-lt_trans x y z n g h;
    }

    ascending-IsStrict : IsStrict ascending
    ascending-IsStrict = record {
      irrefl = lt_irrefl;
      asym = lt_asym ordered;
      trans = λ x y z n g h. not-lt_trans z y x n h g;
    }

    -- The best prices against all levels of the sides, the depth and the spread.
    pub record IsBest (bids asks : List (F × F)) (e : OrderbookEvent F) : Type ℓ where
      pub best_bid : All (λ b. lt e.best_bid b.0 ≡ false) bids
      pub best_ask : All (λ a. lt a.0 e.best_ask ≡ false) asks
      pub depth : e.depth ≡ min (length bids) (length asks)
      pub spread : lt e.spread nought ≡ false

    event_of_sides-IsBest :
        (canonical : Text) (src_dt now : ℕ) (bids asks : List (F × F)) (e : OrderbookEvent F)
        → event_of_sides canonical src_dt now bids asks ≡ some e
        → HeadFirst descending bids
        → HeadFirst ascending asks
        → IsBest bids asks e
    unfolding event_of_sides event_of
    event_of_sides-IsBest canonical src_dt now [] asks e found h k = cc
    event_of_sides-IsBest canonical src_dt now (b ∷ bids) [] e found h k = cc
    event_of_sides-IsBest canonical src_dt now (b ∷ bids) (a ∷ asks) e found h k =
        subst (IsBest (b ∷ bids) (a ∷ asks)) (some-injective _ _ found) (record {
          best_bid = h;
          best_ask = k;
          depth = refl;
          spread = larger_nonneg ordered (a.0 ⊖ b.0);
        })

    -- Where no price is NaN, the event of an order book has a best bid that no bid is above and a
    -- best ask that no ask is below, in whatever order the exchange sends them; its depth is the
    -- length of the shorter side, and its spread is not negative.
    pub parse_levels-IsBest :
        (canonical : Text) (src_dt now : ℕ) (bids asks : List (F × F)) (e : OrderbookEvent F)
        → Numbers bids
        → Numbers asks
        → parse_levels canonical src_dt now bids asks ≡ some e
        → IsBest bids asks e
    unfolding parse_levels
    parse_levels-IsBest canonical src_dt now bids asks e n m found =
        let best =
          event_of_sides-IsBest canonical src_dt now (sort_levels descending bids)
            (sort_levels ascending asks) e found
            (sort_levels-HeadFirst descending descending-IsStrict bids n)
            (sort_levels-HeadFirst ascending ascending-IsStrict asks m) in
        record {
          best_bid =
              sort_levels_parts (λ b. lt e.best_bid b.0 ≡ false) descending bids best.best_bid;
          best_ask =
              sort_levels_parts (λ a. lt a.0 e.best_ask ≡ false) ascending asks best.best_ask;
          depth =
              best.depth
              ∙ rw (length-sort_levels descending bids, length-sort_levels ascending asks);
          spread = best.spread;
        }
