-- ===== src/MultiAsset/Ticks.antt =====
-- apps/collectors/multi_asset_runner.py: every tick that is due is stored once, whatever the tasks do.
use mach.Prelude.{
  ℕ, ◌+◌, ◌≤◌, ◌≡◌, refl, Bool, true, false, ◌&&◌, Bool-cases, inl, inr, List, [], ◌∷◌, ◌++◌, none,
  length, leb, arith, if◌then◌else◌,
}
use mach.Text.{Text}
use mach.Float.{Float}
use mach.Events.{Event, tick, trade, candle, orderbook, funding, mark_spot, TickEvent}
use mach.Buffering.{
  Buffering, Action, receive, redis_fails, written, periodic_flush, flushed, stream_ends, shut_down,
  wake, end_write, end_flush, end_stream,
}
use mach.Buffering.Accounts.{
  count, count-append, commits, Commits, kept, IsCount, Conserves, begin_write-kept, shut_down-kept,
  end_write-kept, end_flush-kept, wake-kept, end_stream-kept, is_idle-none, and_right,
}
use mach.Collector.{Row, lookup_id}
use mach.MultiAsset.{
  TickSnapshot, MultiAssetRunner, ticks_batch, tick_row, buffer_tick, flush_full, process_tick,
  is_tick, is_ready, act_once, run_actions,
}

module _ {ℓ} {F : Type ℓ} ⦃fl : Float F⦄ (p : Row (TickEvent F) → Bool) where
  -- How many rows pass that are due for these snapshots, by the instruments that are known.
  abbrev pub count_due : List (Text × ℕ) → List (TickSnapshot F) → ℕ
  count_due m [] = 0
  count_due m (s ∷ ss) =
      count p (tick_row (lookup_id s.event.canonical_symbol m) s.event) + count_due m ss

  -- How many rows the runner holds, and how many are due for the ticks that Redis took.
  abbrev pub held : MultiAssetRunner F → ℕ
  held r = kept (count p) r.rows

  abbrev pub due : MultiAssetRunner F → ℕ
  due r = count_due r.instrument_map r.snapshots

  -- From one state to a later one: at most the ticks that have become due are new, and exactly these
  -- if the transactions commit.
  abbrev Accounts : Bool → MultiAssetRunner F → MultiAssetRunner F → Type 0
  Accounts ok r r' =
      (held r' + due r ≤ held r + due r') × (ok ≡ true → held r' + due r ≡ held r + due r')

  count-IsCount : IsCount (count p)
  count-IsCount = record { count_none = refl; count_add = λ x y. count-append p x y }

  count_due-append :
      (m : List (Text × ℕ)) (xs ys : List (TickSnapshot F))
      → count_due m (xs ++ ys) ≡ count_due m xs + count_due m ys
  count_due-append m [] ys = omega arith
  count_due-append m (s ∷ xs) ys = omega (arith, count_due-append m xs ys)

  stays : (ok : Bool) (r : MultiAssetRunner F) → Accounts ok r r
  stays ok r = (omega arith, λ e. refl)

  put-Accounts :
      (ok : Bool) (r : MultiAssetRunner F) (s : Buffering (List (Row (TickEvent F))))
      → Conserves (count p) ok r.rows s
      → Accounts ok r (record r { rows = s })
  put-Accounts ok r s h = (omega (arith, h.0), λ e. omega (arith, h.1 e))

  buffer_tick-held :
      (e : TickEvent F) (r : MultiAssetRunner F)
      → held (buffer_tick e r) + due r ≡ held r + due (buffer_tick e r)
  unfolding buffer_tick
  buffer_tick-held e r =
      let m = r.instrument_map in
      omega (
        arith,
        count-append p r.rows.buffers (tick_row (lookup_id e.canonical_symbol m) e),
        count_due-append m r.snapshots (_ ∷ []),
      )

  flush_full-held :
      (r : MultiAssetRunner F)
      → r.rows.writing ≡ none
      → (held (flush_full r) ≡ held r) × (due (flush_full r) ≡ due r)
  unfolding flush_full
  flush_full-held r idle = elim (Bool-cases (leb r.db_batch_size (length r.rows.buffers))) [
    | inl full ↦ rw (flush_full, full) (begin_write-kept (count p) count-IsCount r.rows idle, refl)
    | inr room ↦ rw (flush_full, room) (refl, refl)
  ]

  process_tick-held :
      (e : Event F) (r : MultiAssetRunner F)
      → r.rows.writing ≡ none
      → held (process_tick e r) + due r ≡ held r + due (process_tick e r)
  unfolding process_tick buffer_tick
  process_tick-held (tick e) r idle =
      let (a, b) = flush_full-held (buffer_tick e r) idle in
      omega (arith, a, b, buffer_tick-held e r)
  process_tick-held (trade e) r idle = let (a, b) = flush_full-held r idle in omega (arith, a, b)
  process_tick-held (candle e) r idle = let (a, b) = flush_full-held r idle in omega (arith, a, b)
  process_tick-held (orderbook e) r idle =
      let (a, b) = flush_full-held r idle in omega (arith, a, b)
  process_tick-held (funding e) r idle = let (a, b) = flush_full-held r idle in omega (arith, a, b)
  process_tick-held (mark_spot e) r idle =
      let (a, b) = flush_full-held r idle in omega (arith, a, b)

  process_tick-Accounts :
      (ok : Bool) (e : Event F) (r : MultiAssetRunner F)
      → is_ready r ≡ true
      → Accounts ok r (process_tick e r)
  process_tick-Accounts ok e r ready =
      let idle = is_idle-none r.rows.writing (and_right r.rows.streaming _ ready) in
      let same = process_tick-held e r idle in (omega (arith, same), λ x. same)

  if-Accounts :
      (ok x : Bool) (r r' r'' : MultiAssetRunner F)
      → (x ≡ false → Accounts ok r r'')
      → (x ≡ true → Accounts ok r r')
      → Accounts ok r (if x then r' else r'')
  if-Accounts ok true r r' r'' h h' = h' refl
  if-Accounts ok false r r' r'' h h' = h refl

  act_once-Accounts :
      (a : Action (Event F)) (r : MultiAssetRunner F) → Accounts (commits a) r (act_once a r)
  unfolding act_once
  act_once-Accounts (receive e) r =
      if-Accounts true (is_ready r) r _ r (λ x. stays true r) (process_tick-Accounts true e r)
  act_once-Accounts (redis_fails f e) r =
      if-Accounts f (is_ready r) r _ r (λ x. stays f r)
        (λ ready.
          if-Accounts f (is_tick e) r _ _ (λ x. process_tick-Accounts f e r ready)
            (λ x.
              put-Accounts f r (shut_down true f r.rows)
                (shut_down-kept (count p) count-IsCount true f r.rows)))
  act_once-Accounts (written ok f) r =
      put-Accounts ok r (end_write ok f r.rows) (end_write-kept (count p) count-IsCount ok f r.rows)
  act_once-Accounts periodic_flush r =
      let same = wake-kept (count p) count-IsCount r.rows in
      put-Accounts true r (wake r.rows) (omega (arith, same), λ x. same)
  act_once-Accounts (flushed ok) r =
      put-Accounts ok r (end_flush ok r.rows) (end_flush-kept (count p) count-IsCount ok r.rows)
  act_once-Accounts (stream_ends w f) r =
      put-Accounts (w && f) r (end_stream w f r.rows)
        (end_stream-kept (count p) count-IsCount w f r.rows)

  run_at_most :
      (acts : List (Action (Event F))) (r : MultiAssetRunner F)
      → held (run_actions acts r) + due r ≤ held r + due (run_actions acts r)
  unfolding run_actions
  run_at_most [] r = omega arith
  run_at_most (a ∷ acts) r =
      omega (arith, run_at_most acts (act_once a r), (act_once-Accounts a r).0)

  run_exact :
      (acts : List (Action (Event F))) (r : MultiAssetRunner F)
      → Commits acts
      → held (run_actions acts r) + due r ≡ held r + due (run_actions acts r)
  unfolding run_actions
  run_exact [] r h = refl
  run_exact (a ∷ acts) r (h, hs) =
      omega (arith, run_exact acts (act_once a r) hs, (act_once-Accounts a r).1 h)

  -- Over every sequence of steps of the two tasks, in any interleaving, with ticks that Redis refuses,
  -- transactions that fail and an end of the stream at any time: of the rows that pass any test, the
  -- table, the open transactions and the buffer together have at most as many more as have become
  -- due, one for each tick of a known instrument that Redis took. So no tick is stored twice or made
  -- up, and other events leave no row. Where all transactions that end commit, they have exactly as
  -- many more. The order in which ticks are committed is left open.
  pub run_actions-Accounts :
      (acts : List (Action (Event F))) (r : MultiAssetRunner F)
      → (held (run_actions acts r) + due r ≤ held r + due (run_actions acts r))
        × (Commits acts → held (run_actions acts r) + due r ≡ held r + due (run_actions acts r))
  run_actions-Accounts acts r = (run_at_most acts r, λ h. run_exact acts r h)
