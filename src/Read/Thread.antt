-- ===== src/Read/Thread.antt =====
-- `jent_read_entropy` of src/jitterentropy-base.c in the world, with the start of the timer thread in
-- front of the blocks and its stop behind them.
--
-- The source stops the thread between the blocks and the wipe or the accounting, which do not depend
-- on it: here it stops behind them.
use jitterentropy_library.Prelude.{ℕ, Bool, true, false, Option, none, some, List}
use jitterentropy_library.Prelude.{◌==◌, if◌then◌else◌, length}
use jitterentropy_library.Collector.{RandData}
use jitterentropy_library.World.{Env, World, M, ◌>>=◌, pure}
use jitterentropy_library.Timer.{notime_settick, notime_unsettick}
use jitterentropy_library.Read.{Outcome, read_nothing, refuse_notime, read_running}

-- The outcome of a read in the world.
unfoldable pub note_read : World → Option Outcome → Option (Outcome × World)
note_read w none = none
note_read w (some o) = some (o, record w { reads = o.machine.reads; process = o.process })

-- `jent_notime_unsettick` at the label `err`.
unfoldable pub stop_reading : Outcome → M Outcome
stop_reading o = do
  stopped ← notime_unsettick o.machine.ec
  pure (record o { machine = record (o.machine) { ec = stopped } })

module _ (env : Env) (fuel : ℕ) where
  -- The clock is that of the collector.
  unfoldable pub read_ticking : List ℕ → RandData → M Outcome
  unfolding note_read
  read_ticking buffer ec w = note_read w (
      read_running (env.clock ec.enable_notime) fuel (record { ec = ec; reads = w.reads }) w.process
        buffer)

  -- Behind `jent_notime_settick`, which may have failed.
  unfoldable pub read_started : List ℕ → Bool × RandData → M Outcome
  unfolding read_ticking stop_reading
  read_started buffer (true, ec) =
      λ w. some (refuse_notime (record { ec = ec; reads = w.reads }) w.process buffer, w)
  read_started buffer (false, ec) = do o ← read_ticking buffer ec; stop_reading o

  unfoldable pub read_entropy : RandData → List ℕ → M Outcome
  unfolding read_started note_read
  read_entropy ec buffer =
      if length buffer == 0
      then (λ w.
          note_read w (some (read_nothing (record { ec = ec; reads = w.reads }) w.process buffer)))
      else (do started ← notime_settick env ec; read_started buffer started)
