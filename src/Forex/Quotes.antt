-- ===== src/Forex/Quotes.antt =====
-- swaram/providers/forex/ctrader.py: the events that the provider yields.
use mach.Prelude.{
  ℕ, ◌≡◌, refl, true, false, List, ◌∷◌, some, some-injective, Option-cases, Bool-cases, inl, inr,
  ◌∙◌, subst,
}
use mach.Text.{Text, codes}
use mach.Dict.{lookup}
use mach.Float.{Float, nought, ◌⊕◌, ◌⊖◌}
use mach.Float.Laws.{IsOrdered, IsMonotone, IsScaled}
use mach.Delta.Json.{Reader}
use mach.Events.{TickEvent}
use mach.Symbols.{to_canonical}
use mach.Forex.{Provider, quoting, on_symbol, quote, price_now, spread_of, half_spread, spreads}
use mach.Forex.Prices.{AllValues, no_values, value, lookup-AllValues, Run, Run-AllValues}

-- An event for a symbol: a positive price, with a bid and an ask around it that are not crossed.
pub record IsQuote {ℓ} {F : Type ℓ} ⦃fl : Float F⦄ (s : Text) (ts : ℕ) (price : F) (t : TickEvent F)
    : Type ℓ where
  pub below : F
  pub above : F
  pub positive : fl.lt nought price ≡ true
  pub uncrossed : fl.lt above below ≡ false
  pub mid : t.mid ≡ some price
  pub last : t.last ≡ some price
  pub bid : t.bid ≡ some below
  pub ask : t.ask ≡ some above
  pub symbol : t.canonical_symbol ≡ to_canonical (codes "ctrader") s
  pub time : t.timestamp ≡ ts

module _ {ℓ} {F : Type ℓ} ⦃fl : Float F⦄ (ord : IsOrdered F) (mono : IsMonotone F)
    (scaled : IsScaled F) where
  open fl use {lt, quot, round, decimal}

  abbrev IsSpread : F → Type 0
  IsSpread x = lt x nought ≡ false

  spreads-AllValues : AllValues IsSpread (spreads {F = F})
  spreads-AllValues =
      let d = mono.decimal_nonneg in
      value (d 10 5) (
        value (d 15 5) (
          value (d 15 3) (
            value (d 15 5) (
              value (d 15 5)
                (value (d 30 2) (value (d 3 2) (value (d 5 2) (value (d 1 3) no_values))))))))

  spread_of-IsSpread : (s : Text) → IsSpread (spread_of s)
  unfolding spread_of
  spread_of-IsSpread s = elim (Option-cases (lookup s (spreads {F = F}))) [
    | inl e ↦ rw (spread_of, e) (mono.decimal_nonneg 1 4)
    | inr (x, e) ↦ rw (spread_of, e) (lookup-AllValues s spreads-AllValues e)
  ]

  quote_uncrossed :
      (s : Text) (price : F)
      → lt nought price ≡ true
      → lt (round (price ⊕ half_spread s) 5) (round (price ⊖ half_spread s) 5) ≡ false
  quote_uncrossed s price pos =
      let half = mono.quot_nonneg _ _ (spread_of-IsSpread s) (scaled.step_pos 1) in
      mono.round_mono _ _ 5 (
        ord.not-lt_trans _ price _ (ord.number_of_lt _ _ pos).1 (mono.sub_nonneg price _ half)
          (mono.add_nonneg price _ half))

  quote-IsQuote :
      (s : Text) (ts now : ℕ) (price : F)
      → lt nought price ≡ true
      → IsQuote s ts price (quote s ts now price)
  unfolding quote
  quote-IsQuote s ts now price pos = record {
    below = _;
    above = _;
    positive = pos;
    uncrossed = quote_uncrossed s price pos;
    mid = refl;
    last = refl;
    bid = refl;
    ask = refl;
    symbol = refl;
    time = refl;
  }

  price_now-lookup :
      (s : Text) (prices : List (Text × F)) {price : F}
      → price_now s prices ≡ some price
      → lookup s prices ≡ some price
  unfolding price_now
  price_now-lookup s prices h = elim (Option-cases (lookup s prices)) [
    | inl e ↦ absurd (let f = rw (price_now, e) at h in cc)
    | inr (price, e) ↦ elim (Bool-cases (fl.eq price nought)) [
      | inl zero ↦ absurd (let f = rw (price_now, e, zero) at h in cc)
      | inr nonzero ↦ e ∙ rw (price_now, e, nonzero) at h
    ]
  ]

  -- Every event that the generator yields, at every point of every run, with downloads that fail and
  -- methods called at any time: it has the price that is held for its symbol, above zero, as its mid
  -- and last price, the instant of its round, and an ask that is not below its bid.
  pub Run-IsQuote :
      {rd : Reader F} {p : Provider F} (s : Text) (ts : ℕ) (rest : List Text) (now : ℕ)
      {t : TickEvent F}
      → Run rd p
      → p.phase ≡ quoting ts (s ∷ rest)
      → (on_symbol s ts rest now p).1 ≡ some t
      → (price : F) × (lookup s p.prices ≡ some price) × IsQuote s ts price t
  unfolding on_symbol
  Run-IsQuote {rd} {p} s ts rest now r h yields = elim (Option-cases (price_now s p.prices)) [
    | inl e ↦ absurd (let f = rw (on_symbol, e) at yields in cc)
    | inr (price, e) ↦
        let held = price_now-lookup s p.prices e in
        let pos = lookup-AllValues s (Run-AllValues r) held in
        (
          price,
          held,
          subst (IsQuote s ts price) (some-injective _ _ (rw (on_symbol, e) at yields))
              (quote-IsQuote s ts now price pos),
        )
  ]
