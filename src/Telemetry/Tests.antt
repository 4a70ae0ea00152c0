-- ===== src/Telemetry/Tests.antt =====
-- Counters on concrete labels.
use mach.Prelude.{◌≡◌, refl, List, [], ◌∷◌}
use mach.Prelude.Int.{◌+ℤ◌}
use mach.Text.{Text, codes, eq_text}
use mach.Float.Fixed.{fixed_float}
use mach.Telemetry.{
  new_counter, labels, inc, get, value_at, set_at, key_of, sort_items, insert_item, join_items,
  lt_text,
}
open fixed_float use {decimal as num}

abbrev delta : List (Text × Text)
delta = (codes "symbol", codes "BTC") ∷ (codes "provider", codes "delta") ∷ []

key_sorted : key_of delta ≡ codes "provider=delta,symbol=BTC"
unfolding key_of sort_items insert_item join_items lt_text
key_sorted = refl

-- An increment with no labels is not seen by `get` with none: it is stored under another key. After
-- a call of `labels` it goes to those labels.
unlabelled : get [] (inc (num 1 0) new_counter) ≡ num 0 0
unfolding get inc value_at set_at key_of sort_items join_items eq_text ◌+ℤ◌
unlabelled = refl

labels_stay : get delta (inc (num 1 0) (inc (num 1 0) (labels delta new_counter))) ≡ num 2 0
unfolding get inc labels value_at set_at key_of sort_items insert_item join_items lt_text eq_text
    ◌+ℤ◌
labels_stay = refl
