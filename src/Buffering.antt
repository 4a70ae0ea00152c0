-- ===== src/Buffering.antt =====
-- apps/collectors: the buffering of both runners, delta_runner.py and multi_asset_runner.py. Two tasks
-- share the write buffers with no lock: the one that reads the stream, and the periodic flush of
-- `_flush_loop`. A flush clears the buffers at once and then waits for its transaction, so that each
-- task has at most one transaction open while the other goes on.
pub mod Accounts
use mach.Prelude.{Bool, true, false, Option, none, some, if◌then◌else◌}

-- Rows of some kinds, as they are buffered and stored.
pub record Batch {ℓ} (R : Type ℓ) : Type ℓ where
  pub no_rows : R
  pub add_rows : R → R → R
  pub nothing_buffered : R → Bool

-- `streaming` holds until the stream ends; `writing` and `flushing` are the open transactions of the
-- two tasks.
pub record Buffering {ℓ} (R : Type ℓ) : Type ℓ where
  pub buffers : R
  pub database : R
  pub streaming : Bool
  pub writing : Option R
  pub flushing : Option R

-- What happens: an event whose snapshot Redis takes, or refuses; the end of the stream's transaction,
-- and that of the periodic flush; a wake-up of the flush loop; the end of the stream, by a signal
-- too. The Booleans say whether a transaction commits. Where the stream ends, those that are open are
-- cancelled, and may have committed or not.
pub data Action {ℓ} (E : Type ℓ) : Type ℓ where
  receive : E → Action E
  redis_fails : Bool → E → Action E
  written : Bool → Bool → Action E
  periodic_flush : Action E
  flushed : Bool → Action E
  stream_ends : Bool → Bool → Action E

abbrev pub is_idle {ℓ} : {R : Type ℓ} → Option R → Bool
is_idle none = true
is_idle (some r) = false

module _ {ℓ} {R : Type ℓ} ⦃b : Batch R⦄ where
  open b use {no_rows, add_rows, nothing_buffered}

  -- The end of a transaction: it commits, or rolls everything back.
  abbrev pub settle : Bool → Option R → R → R
  settle commits none database = database
  settle commits (some rows) database = if commits then add_rows database rows else database

  -- `_flush_buffers` in the stream's task, up to the commit.
  unfoldable pub begin_write : Buffering R → Buffering R
  begin_write s =
      if nothing_buffered s.buffers
      then s
      else record s { buffers = no_rows; writing = some s.buffers }

  -- `_flush_buffers` in the flush loop, up to the commit.
  unfoldable pub begin_flush : Buffering R → Buffering R
  begin_flush s =
      if nothing_buffered s.buffers
      then s
      else record s { buffers = no_rows; flushing = some s.buffers }

  -- The `finally` of `start`: the flush loop is cancelled, and what is buffered is written.
  unfoldable pub shut_down : Bool → Bool → Buffering R → Buffering R
  unfolding begin_write
  shut_down w f s = begin_write (record s {
    database = settle f s.flushing (settle w s.writing s.database);
    streaming = false;
    writing = none;
    flushing = none;
  })

  -- The stream's transaction ends. Where it fails, the call raises, which ends the stream.
  unfoldable pub end_write : Bool → Bool → Buffering R → Buffering R
  unfolding shut_down
  end_write commits f s = elim s.writing [
    | none ↦ s
    | some rows ↦
        if commits
        then record s { database = add_rows s.database rows; writing = none }
        else if s.streaming
        then shut_down false f s
        else record s { writing = none }
  ]

  -- The flush loop's transaction ends. Where it fails, the loop goes on.
  unfoldable pub end_flush : Bool → Buffering R → Buffering R
  end_flush commits s = record s {
    database = settle commits s.flushing s.database;
    flushing = none;
  }

  -- The flush loop wakes up, if it is not waiting for its transaction.
  unfoldable pub wake : Buffering R → Buffering R
  unfolding begin_flush
  wake s = if s.streaming then (if is_idle s.flushing then begin_flush s else s) else s

  unfoldable pub end_stream : Bool → Bool → Buffering R → Buffering R
  unfolding shut_down
  end_stream w f s = if s.streaming then shut_down w f s else s
