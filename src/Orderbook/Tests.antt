-- ===== src/Orderbook/Tests.antt =====
-- An order book on concrete numbers.
use mach.Prelude.{◌≡◌, ◌≤◌, ◌↔◌, refl, List, [], ◌∷◌, length, Any}
use mach.Prelude.Int.{◌+ℤ◌}
use mach.Float.Fixed.{Fixed, fixed_float}
use mach.Orderbook.{Level, walls_of, walls_among, calculate_microprice}
use mach.Orderbook.Walls.{Shows, IsLarge, walls_of_iff}
open fixed_float use {decimal as num, lt}

abbrev bids : List (Level Fixed)
bids =
    record { price = num 99 0; size = num 1 0 }
    ∷ record { price = num 98 0; size = num 9 0 }
    ∷ record { price = num 97 0; size = num 1 0 }
    ∷ []

abbrev asks : List (Level Fixed)
asks = record { price = num 101 0; size = num 3 0 } ∷ []

-- A mean for the test: that of these sizes.
abbrev mean : List Fixed → Fixed
mean sizes = num 3 0

bid_walls :
    walls_of mean (num 3 0) bids
    ≡ record { price = num 98 0; size = num 9 0; multiple = num 3 0 } ∷ []
unfolding walls_of walls_among
bid_walls = refl

microprice : calculate_microprice (num 99 0) (num 1 0) (num 101 0) (num 3 0) ≡ num 995 1
unfolding calculate_microprice ◌+ℤ◌
microprice = refl

walls_of_iff_example :
    (Any (Shows (num 98 0) (num 9 0)) (walls_of mean (num 3 0) bids)
      ↔ Any (IsLarge (num 3 0) (num 3 0) (num 98 0) (num 9 0)) bids)
    × (length (walls_of mean (num 3 0) bids) ≤ 20)
walls_of_iff_example = walls_of_iff mean (num 3 0) (num 98 0) (num 9 0) bids
