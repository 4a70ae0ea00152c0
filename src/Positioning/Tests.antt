-- ===== src/Positioning/Tests.antt =====
-- Positioning on concrete numbers.
use mach.Prelude.{◌≡◌, refl, none, some}
use mach.Float.Fixed.{fixed_float}
use mach.Positioning.{oi_delta}
open fixed_float use {decimal as num, neg}

no_history : oi_delta (some (num 100 0)) none ≡ none
unfolding oi_delta
no_history = refl
