-- ===== src/Collector/Bounds.antt =====
-- apps/collectors/delta_runner.py: how far the buffers grow.
use mach.Prelude.{
  none, some, if◌then◌else◌, ℕ, ◌<◌, ◌≡◌, refl, Bool, true, false, Bool-cases, inl, inr, List, [],
  ◌∷◌, length, arith,
}
use mach.Events.{Event}
use mach.Buffering.{
  Buffering, Action, receive, redis_fails, written, periodic_flush, flushed, stream_ends,
  begin_write, begin_flush, shut_down, end_write, end_flush, wake, end_stream, is_idle,
}
use mach.Collector.{
  Rows, Collector, act, run, process_event, buffer_event, is_full, is_empty, is_ready, add_rows,
  snapshot_of, nothing_buffered, rows_batch,
}

length-is_empty {ℓ} : {A : Type ℓ} (xs : List A) → is_empty xs ≡ true → length xs ≡ 0
unfolding is_empty
length-is_empty [] h = refl
length-is_empty (x ∷ xs) h = cc

module _ {ℓ} {F : Type ℓ} where
  -- The three buffers that count are below the batch size.
  pub record IsBounded (c : Collector F) : Type 0 where
    pub batch : 0 < c.db_batch_size
    pub ticks : length c.rows.buffers.ticks < c.db_batch_size
    pub trades : length c.rows.buffers.trades < c.db_batch_size
    pub candles : length c.rows.buffers.candles < c.db_batch_size

  -- The same of the buffers alone.
  record Below (size : ℕ) (b : Rows F) : Type 0 where
    ticks : length b.ticks < size
    trades : length b.trades < size
    candles : length b.candles < size

  Below-no_rows : (size : ℕ) (b : Rows F) → 0 < size → nothing_buffered b ≡ true → Below size b
  Below-no_rows size b h empty =
      ground (arith, length-is_empty b.ticks, length-is_empty b.trades, length-is_empty b.candles)

  begin_write-Below :
      (size : ℕ) (s : Buffering (Rows F)) → 0 < size → Below size (begin_write s).buffers
  unfolding begin_write
  begin_write-Below size s h = elim (Bool-cases (nothing_buffered s.buffers)) [
    | inl empty ↦ rw (begin_write, empty) (Below-no_rows size s.buffers h empty)
    | inr more ↦ rw (begin_write, more) (record { ticks = h; trades = h; candles = h })
  ]

  begin_flush-Below :
      (size : ℕ) (s : Buffering (Rows F)) → 0 < size → Below size (begin_flush s).buffers
  unfolding begin_flush
  begin_flush-Below size s h = elim (Bool-cases (nothing_buffered s.buffers)) [
    | inl empty ↦ rw (begin_flush, empty) (Below-no_rows size s.buffers h empty)
    | inr more ↦ rw (begin_flush, more) (record { ticks = h; trades = h; candles = h })
  ]

  if-Below :
      (size : ℕ) (x : Bool) (s s' : Buffering (Rows F))
      → Below size s.buffers
      → Below size s'.buffers
      → Below size (if x then s' else s).buffers
  if-Below size true s s' h h' = h'
  if-Below size false s s' h h' = h

  shut_down-Below :
      (size : ℕ) (w f : Bool) (s : Buffering (Rows F))
      → 0 < size
      → Below size (shut_down w f s).buffers
  unfolding shut_down
  shut_down-Below size w f s h = begin_write-Below size _ h

  end_write-Below :
      (size : ℕ) (ok f : Bool) (s : Buffering (Rows F))
      → 0 < size
      → Below size s.buffers
      → Below size (end_write ok f s).buffers
  unfolding end_write
  end_write-Below size ok f s h b =
      elim s.writing
        as (λ o.
          Below size
            (elim o as (λ y. Buffering (Rows F)) [
              | none ↦ s
              | some rows ↦
                  if ok
                  then record s { database = add_rows s.database rows; writing = none }
                  else if s.streaming
                  then shut_down false f s
                  else record s { writing = none }
            ]).buffers) [
              | none ↦ b
              | some rows ↦
                  if-Below size ok
                    (if s.streaming then shut_down false f s else record s { writing = none })
                    (record s { database = add_rows s.database rows; writing = none })
                    (if-Below size s.streaming (record s { writing = none }) (shut_down false f s) b
                      (shut_down-Below size false f s h))
                    b
            ]

  bounded : (c : Collector F) → IsBounded c → Below c.db_batch_size c.rows.buffers
  bounded c h = record { ticks = h.ticks; trades = h.trades; candles = h.candles }

  -- New rows in a collector.
  put-IsBounded :
      (c : Collector F) (s : Buffering (Rows F))
      → 0 < c.db_batch_size
      → Below c.db_batch_size s.buffers
      → IsBounded (record c { rows = s })
  put-IsBounded c s h b = record {
    batch = h;
    ticks = b.ticks;
    trades = b.trades;
    candles = b.candles;
  }

  below :
      (n : ℕ) (c : Collector F)
      → is_full n c.rows.buffers ≡ false
      → c.db_batch_size ≡ n
      → 0 < n
      → IsBounded c
  below n c room same h = ground arith

  process_event-IsBounded :
      (e : Event F) (c : Collector F) → IsBounded c → IsBounded (process_event e c)
  unfolding process_event buffer_event
  process_event-IsBounded e c h =
      elim (Bool-cases (is_full c.db_batch_size (buffer_event e c).rows.buffers)) [
        | inl full ↦
            rw (process_event, full)
              (put-IsBounded (buffer_event e c) (begin_write (buffer_event e c).rows) h.batch
                (begin_write-Below c.db_batch_size (buffer_event e c).rows h.batch))
        | inr room ↦
            rw (process_event, room) (below c.db_batch_size (buffer_event e c) room refl h.batch)
      ]

  if-IsBounded :
      (x : Bool) (c c' : Collector F) → IsBounded c → IsBounded c' → IsBounded (if x then c' else c)
  if-IsBounded true c c' h h' = h'
  if-IsBounded false c c' h h' = h

  act-IsBounded : (a : Action (Event F)) (c : Collector F) → IsBounded c → IsBounded (act a c)
  unfolding act end_flush wake end_stream
  act-IsBounded (receive e) c h = if-IsBounded (is_ready c) c _ h (process_event-IsBounded e c h)
  act-IsBounded (redis_fails f e) c h = if-IsBounded (is_ready c) c _ h (
      if-IsBounded (is_empty (snapshot_of e)) (record c { rows = shut_down true f c.rows }) _
        (put-IsBounded c _ h.batch (shut_down-Below c.db_batch_size true f c.rows h.batch))
        (process_event-IsBounded e c h))
  act-IsBounded (written ok f) c h =
      put-IsBounded c _ h.batch (end_write-Below c.db_batch_size ok f c.rows h.batch (bounded c h))
  act-IsBounded periodic_flush c h = put-IsBounded c _ h.batch (
      if-Below c.db_batch_size c.rows.streaming c.rows _ (bounded c h) (
        if-Below c.db_batch_size (is_idle c.rows.flushing) c.rows _ (bounded c h)
          (begin_flush-Below c.db_batch_size c.rows h.batch)))
  act-IsBounded (flushed ok) c h = put-IsBounded c _ h.batch (bounded c h)
  act-IsBounded (stream_ends w f) c h = put-IsBounded c _ h.batch (
      if-Below c.db_batch_size c.rows.streaming c.rows _ (bounded c h)
        (shut_down-Below c.db_batch_size w f c.rows h.batch))

  -- Whatever Redis and the transactions do, after any sequence of steps of both tasks the buffers of
  -- ticks, trades and candles are each below the batch size, if they were so before.
  pub run-IsBounded :
      (acts : List (Action (Event F))) (c : Collector F) → IsBounded c → IsBounded (run acts c)
  unfolding run
  run-IsBounded [] c h = h
  run-IsBounded (a ∷ acts) c h = run-IsBounded acts (act a c) (act-IsBounded a c h)
