-- ===== src/Forex/Prices.antt =====
-- swaram/providers/forex/ctrader.py: every price that is held is above zero.
use mach.Prelude.{
  ◌≡◌, ℕ, true, List, [], ◌∷◌, Option, none, some, Raises, Bool-cases, Option-cases, inl, inr,
  some-injective, subst, sym, refl,
}
use mach.Text.{Text, eq_text}
use mach.Dict.{lookup, store}
use mach.Float.{Float, nought}
use mach.Delta.Json.{Reader}
use mach.Orders.{Reply}
use mach.Forex.{
  tasks, kept, gathered, fetch_all_prices, update, Provider, fetching, quoting, sleeping,
  new_provider, connect, disconnect, subscribe, start_stream, on_fetched, on_failure, on_wake,
  on_symbol, on_end, price_now,
}

-- Every value of the dictionary.
pub data AllValues {ℓ} {A : Type ℓ} (P : A → Type 0) : List (Text × A) → Type ℓ where
  no_values : AllValues P []
  value : {k : Text} {v : A} {d : List (Text × A)} → P v → AllValues P d → AllValues P ((k, v) ∷ d)

module _ {ℓ} {A : Type ℓ} {P : A → Type 0} where
  store-AllValues :
      (k : Text) (v : A) {d : List (Text × A)} → P v → AllValues P d → AllValues P (store k v d)
  unfolding store
  store-AllValues k v h no_values = value h no_values
  store-AllValues k v h (value {k = j} {v = w} {d = d} g gs) = elim (Bool-cases (eq_text k j)) [
    | inl e ↦ rw e (value h gs)
    | inr e ↦ rw e (value g (store-AllValues k v h gs))
  ]

  pub lookup-AllValues :
      (k : Text) {v : A} {d : List (Text × A)} → AllValues P d → lookup k d ≡ some v → P v
  unfolding lookup
  lookup-AllValues k no_values h = absurd cc
  lookup-AllValues k (value {k = j} {v = w} {d = d} g gs) h = elim (Bool-cases (eq_text k j)) [
    | inl e ↦ subst P (some-injective _ _ (rw e at h)) g
    | inr e ↦ lookup-AllValues k gs (rw e at h)
  ]

module _ {ℓ} {F : Type ℓ} ⦃fl : Float F⦄ where
  open fl use {lt}

  abbrev pub IsPositive : F → Type 0
  IsPositive x = lt nought x ≡ true

  kept-AllValues :
      (s : Text) (o : Option F) {d : List (Text × F)}
      → AllValues IsPositive d
      → AllValues IsPositive (kept s o d)
  kept-AllValues s none h = h
  kept-AllValues s (some price) h = elim (Bool-cases (lt nought price)) [
    | inl e ↦ rw e (store-AllValues s price e h)
    | inr e ↦ rw e h
  ]

  gathered-AllValues :
      (rd : Reader F) (web : Text → Raises (Reply F)) (ts : List (Text × Text))
      {d : List (Text × F)}
      → AllValues IsPositive d
      → AllValues IsPositive (gathered rd web ts d)
  unfolding gathered
  gathered-AllValues rd web [] h = h
  gathered-AllValues rd web ((s, y) ∷ ts) h = gathered-AllValues rd web ts (kept-AllValues s _ h)

  pub fetch_all_prices-AllValues :
      (rd : Reader F) (web : Text → Raises (Reply F)) (symbols : List Text)
      → AllValues IsPositive (fetch_all_prices rd web symbols)
  unfolding fetch_all_prices
  fetch_all_prices-AllValues rd web symbols = gathered-AllValues rd web (tasks symbols []) no_values

  pub update-AllValues :
      {fresh d : List (Text × F)}
      → AllValues IsPositive fresh
      → AllValues IsPositive d
      → AllValues IsPositive (update d fresh)
  unfolding update
  update-AllValues no_values h = h
  update-AllValues (value {k = k} {v = v} g gs) h = update-AllValues gs (store-AllValues k v g h)

  -- A run of the provider: the steps of the generator, with calls of its methods in between. The
  -- server may answer each download anew.
  pub data Run (rd : Reader F) : Provider F → Type ℓ where
    created : (symbols : Option (List Text)) → Run rd (new_provider symbols)
    connects :
        {p : Provider F} (web : Text → Raises (Reply F))
        → Run rd p
        → Run rd (connect (fetch_all_prices rd web p.symbols) p)
    disconnects : {p : Provider F} → Run rd p → Run rd (disconnect p)
    subscribes : {p : Provider F} (symbols : List Text) → Run rd p → Run rd (subscribe symbols p)
    starts : {p : Provider F} → Run rd p → Run rd (start_stream p)
    fetches :
        {p : Provider F} (web : Text → Raises (Reply F)) (ts : ℕ)
        → p.phase ≡ fetching
        → Run rd p
        → Run rd (on_fetched (fetch_all_prices rd web p.symbols) ts p)
    fails :
        {p : Provider F} (err : Text) → p.phase ≡ fetching → Run rd p → Run rd (on_failure err p)
    visits :
        {p : Provider F} (s : Text) (ts : ℕ) (rest : List Text) (now : ℕ)
        → p.phase ≡ quoting ts (s ∷ rest)
        → Run rd p
        → Run rd (on_symbol s ts rest now p).0
    finishes : {p : Provider F} (ts : ℕ) → p.phase ≡ quoting ts [] → Run rd p → Run rd (on_end p)
    wakes : {p : Provider F} → p.phase ≡ sleeping → Run rd p → Run rd (on_wake p)

  prices-on_symbol :
      (s : Text) (ts : ℕ) (rest : List Text) (now : ℕ) (p : Provider F)
      → (on_symbol s ts rest now p).0.prices ≡ p.prices
  unfolding on_symbol
  prices-on_symbol s ts rest now p = elim (Option-cases (price_now s p.prices)) [
    | inl e ↦ rw (on_symbol, e) refl
    | inr (mid, e) ↦ rw (on_symbol, e) refl
  ]

  -- At every point of every run, with downloads that fail and methods called at any time: every price
  -- that is held is above zero, so no NaN and no zero.
  pub Run-AllValues : {rd : Reader F} {p : Provider F} → Run rd p → AllValues IsPositive p.prices
  unfolding connect disconnect subscribe start_stream on_fetched on_failure on_wake on_end
  Run-AllValues (created symbols) = no_values
  Run-AllValues {rd = rd} (connects {p = p} web r) = fetch_all_prices-AllValues rd web p.symbols
  Run-AllValues (disconnects r) = Run-AllValues r
  Run-AllValues (subscribes symbols r) = Run-AllValues r
  Run-AllValues (starts r) = Run-AllValues r
  Run-AllValues {rd = rd} (fetches {p = p} web ts h r) =
      update-AllValues (fetch_all_prices-AllValues rd web p.symbols) (Run-AllValues r)
  Run-AllValues (fails err h r) = Run-AllValues r
  Run-AllValues (visits {p = p} s ts rest now h r) =
      subst (AllValues IsPositive) (sym (prices-on_symbol s ts rest now p)) (Run-AllValues r)
  Run-AllValues (finishes ts h r) = Run-AllValues r
  Run-AllValues (wakes h r) = Run-AllValues r
