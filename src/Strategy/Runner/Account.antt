-- ===== src/Strategy/Runner/Account.antt =====
-- swaram/agents/loop.py: what the runner's account keeps over its cycles.
use mach.Prelude.{
  ◌+◌, ◌≡◌, refl, sym, ◌∙◌, ap, inl, inr, true, false, Bool-cases, List, [], ◌∷◌, Option, none,
  some, ok, raised, Raises-cases, Exception, ◌⊎◌, length, length-append, last?, last?-snoc, arith,
}
use mach.Float.{Float, ◌⊖◌, nought}
use mach.Float.Laws.{lt_asym, larger_nonneg, IsOrdered, IsMonotone}
use mach.Strategy.{Strategy, decide, Decision, TradeSignal, hold, buy, sell, close}
use mach.Strategy.Decisions.{decide-Decides}
use mach.Strategy.Runner.{
  Snapshot, Answer, no_live_price, StrategyRunner, new_runner, price_of, context_of, execute,
  finish, run_once, run_cycles, counted,
}

module _ {ℓ} {F : Type ℓ} ⦃fl : Float F⦄ where
  open fl use {lt, eq}

  -- The position is never short, every counted cycle is logged, and the log ends with the
  -- position held.
  pub record IsAccount (r : StrategyRunner F) : Type ℓ where
    pub long : lt r.position nought ≡ false
    pub logged : length r.trade_log ≡ r.cycle_count
    pub shown : r.position ≡ elim (last? r.trade_log) [ none ↦ nought | some e ↦ e.position_after ]

  execute_counts :
      (r : StrategyRunner F) (price : F) (s : TradeSignal) (qty : F)
      → ((execute r price s qty).cycle_count ≡ r.cycle_count)
        × ((execute r price s qty).trade_log ≡ r.trade_log)
  unfolding execute
  execute_counts r price hold qty = (refl, refl)
  execute_counts r price buy qty = ground arith
  execute_counts r price sell qty = ground arith
  execute_counts r price close qty = ground arith

  run_once_cycle :
      (r : StrategyRunner F) (snap : Option (Snapshot F)) (d : Decision F) {price : F}
      → price_of snap ≡ ok price
      → eq price nought ≡ false
      → decide r.strategy (context_of r snap price) ≡ ok d
      → run_once r snap ≡ ok (finish (counted r) price d)
  unfolding run_once
  run_once_cycle r snap d read priced e = rw (run_once, read, priced, e) refl

  -- A price among the snapshots on which `float()` raises.
  pub data FailsAt (x : Exception) : List (Option (Snapshot F)) → Type ℓ where
    here :
        {snap : Option (Snapshot F)} {snaps : List (Option (Snapshot F))}
        → price_of snap ≡ raised x
        → FailsAt x (snap ∷ snaps)
    there :
        {snap : Option (Snapshot F)} {snaps : List (Option (Snapshot F))}
        → FailsAt x snaps
        → FailsAt x (snap ∷ snaps)

  module _ (ordered : IsOrdered F) (mono : IsMonotone F) where
    open ordered use {lt_irrefl}
    open mono use {sum_nonneg}

    execute_long :
        (r : StrategyRunner F) (price : F) (s : TradeSignal) (qty : F)
        → lt r.position nought ≡ false
        → lt (execute r price s qty).position nought ≡ false
    unfolding execute
    execute_long r price hold qty h = h
    execute_long r price buy qty h = elim (Bool-cases (lt nought qty)) [
      | inl e ↦ rw (execute, e) (sum_nonneg r.position qty h (lt_asym ordered nought qty e))
      | inr e ↦ rw (execute, e) h
    ]
    execute_long r price sell qty h = elim (Bool-cases (lt nought qty)) [
      | inl e ↦ rw (execute, e) (larger_nonneg ordered (r.position ⊖ qty))
      | inr e ↦ rw (execute, e) h
    ]
    execute_long r price close qty h = elim (Bool-cases (lt nought qty)) [
      | inl e ↦ rw (execute, e) (larger_nonneg ordered (r.position ⊖ qty))
      | inr e ↦ rw (execute, e) h
    ]

    finish-IsAccount :
        (r : StrategyRunner F) (price : F) (d : Decision F)
        → IsAccount r
        → IsAccount (finish (counted r) price d).0
    unfolding finish
    finish-IsAccount r price d a =
        let (counts, log) = execute_counts (counted r) price d.signal d.quantity in
        record {
          long = execute_long (counted r) price d.signal d.quantity a.long;
          logged =
              length-append (execute (counted r) price d.signal d.quantity).trade_log (_ ∷ [])
              ∙ ap (λ n. n + 1) (ap length log ∙ a.logged)
              ∙ sym counts;
          shown =
              rw
                (last?-snoc (execute (counted r) price d.signal d.quantity).trade_log (record {
                  cycle = (execute (counted r) price d.signal d.quantity).cycle_count;
                  last_price = price;
                  signal = d.signal;
                  quantity = d.quantity;
                  reason = d.reason;
                  position_after = (execute (counted r) price d.signal d.quantity).position;
                  capital_after =
                      fl.round (execute (counted r) price d.signal d.quantity).capital 2;
                }))
                refl;
        }

    -- One cycle completes and keeps the account in order, or `float()` raises.
    run_once_total :
        (r : StrategyRunner F) (snap : Option (Snapshot F))
        → IsAccount r
        → ((out : StrategyRunner F × Answer F) × (run_once r snap ≡ ok out) × IsAccount out.0)
          ⊎ ((x : Exception) × (run_once r snap ≡ raised x) × (price_of snap ≡ raised x))
    unfolding run_once
    run_once_total r snap a = elim (Raises-cases (price_of snap)) [
      | inr (x, bad) ↦ inr (x, rw (run_once, bad) refl, bad)
      | inl (price, read) ↦ elim (Bool-cases (eq price nought)) [
        | inl e ↦ inl ((r, no_live_price r.cycle_count), rw (run_once, read, e) refl, a)
        | inr e ↦ elim (decide-Decides r.strategy (context_of r snap price)) [
          | inl (d, decided, fine) ↦
              inl (_, run_once_cycle r snap d read e decided, finish-IsAccount r price d a)
          | inr (lost, z) ↦ absurd (let clash : false ≡ true = sym e ∙ z in cc)
        ]
      ]
    ]

    run_cycles_total :
        (r : StrategyRunner F) (snaps : List (Option (Snapshot F)))
        → IsAccount r
        → ((r' : StrategyRunner F) × (run_cycles r snaps ≡ ok r') × IsAccount r')
          ⊎ ((x : Exception) × (run_cycles r snaps ≡ raised x) × FailsAt x snaps)
    unfolding run_cycles
    run_cycles_total r [] a = inl (r, refl, a)
    run_cycles_total r (snap ∷ snaps) a = elim (run_once_total r snap a) [
      | inr (x, e, bad) ↦ inr (x, rw (run_cycles, e) refl, here bad)
      | inl (out, e, b) ↦ elim (run_cycles_total out.0 snaps b) [
        | inr (x, f, bad) ↦ inr (x, rw (run_cycles, e) f, there bad)
        | inl (r', f, c) ↦ inl (r', rw (run_cycles, e) f, c)
      ]
    ]

    -- The cycles of a new runner, over any sequence of snapshots, missing ones and prices of zero
    -- included, whose indicators are numbers or missing: they raise only what `float()` raises on
    -- the price of one of these snapshots. Else they complete, and then the position is not short,
    -- all counted cycles are logged, and the log ends with the position held.
    pub run_cycles-new_runner :
        (s : Strategy F) (capital : F) (snaps : List (Option (Snapshot F)))
        → ((r : StrategyRunner F) × (run_cycles (new_runner s capital) snaps ≡ ok r) × IsAccount r)
          ⊎ ((x : Exception) × (run_cycles (new_runner s capital) snaps ≡ raised x)
              × FailsAt x snaps)
    unfolding new_runner
    run_cycles-new_runner s capital snaps =
        run_cycles_total (new_runner s capital) snaps
          (record { long = lt_irrefl nought; logged = refl; shown = refl })
