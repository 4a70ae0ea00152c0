-- ===== src/Delta/Messages/Levels.antt =====
-- swaram/providers/crypto/delta_ws.py: the head of `_parse_orderbook`, up to the levels.
use mach.Prelude.{ℕ, List, [], ◌∷◌, Option, none, some, Raises, ok, raised, ◌>>=◌, type_error}
use mach.Text.{Text, codes}
use mach.Float.{Float}
use mach.Events.{orderbook}
use mach.Delta.Book.{parse_levels}
use mach.Delta.Json.{
  Json, null, boolean, number, string, array, object, Items, no_items, item, Reader, to_float,
}
use mach.Delta.Messages.Shared.{Emission, event, undated, first_of}
use mach.Delta.Messages.Trades.{float_at}

module _ {ℓ} {F : Type ℓ} ⦃fl : Float F⦄ (rd : Reader F) (now : ℕ) where
  -- One entry of a side of a book; others are passed over.
  unfoldable pub level_of : Json F → Raises (Option (F × F))
  unfolding float_at
  level_of (object fs) = do
    price ← float_at rd now (codes "price") (object fs)
    size ← float_at rd now (codes "size") (object fs)
    ok (some (price, size))
  level_of (array (item p (item s rest))) = do
    price ← to_float rd p
    size ← to_float rd s
    ok (some (price, size))
  level_of _ = ok none

  unfoldable pub levels_of_items : Items F → Raises (List (F × F))
  unfolding level_of
  levels_of_items no_items = ok []
  levels_of_items (item x xs) = do
    level ← level_of x
    rest ← levels_of_items xs
    ok (elim level [ none ↦ rest | some l ↦ l ∷ rest ])

  -- The loop over a side: the keys of an object and the letters of a text are no levels.
  unfoldable pub levels_of : Json F → Raises (List (F × F))
  unfolding levels_of_items
  levels_of (array xs) = levels_of_items xs
  levels_of (object fs) = ok []
  levels_of (string s) = ok []
  levels_of null = raised type_error
  levels_of (boolean b) = raised type_error
  levels_of (number x) = raised type_error

  unfoldable pub book_events : Json F → Text → Option ℕ → Raises (List (Emission F))
  unfolding levels_of first_of
  book_events payload canonical src = do
    raw_bids ← first_of payload (codes "buy" ∷ codes "bids" ∷ []) (array no_items)
    raw_asks ← first_of payload (codes "sell" ∷ codes "asks" ∷ []) (array no_items)
    bids ← levels_of raw_bids
    asks ← levels_of raw_asks
    ok (elim src [
      | none ↦ elim (parse_levels canonical now now bids asks) [
        | none ↦ []
        | some book ↦ undated ∷ []
      ]
      | some t ↦ elim (parse_levels canonical t now bids asks) [
        | none ↦ []
        | some book ↦ event (orderbook book) ∷ []
      ]
    ])
