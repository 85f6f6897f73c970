-- ===== src/Safe.antt =====
-- Reads that replace a collector whose health tests fail: `jent_read_entropy_safe` of
-- src/jitterentropy-base.c.
--
-- The buffer is what is filled and the rest.
pub mod Changes
use jitterentropy_library.Prelude.{
  ℕ, zero, suc, ◌+◌, Bool, true, false, Option, none, some, [], ◌++◌, List,
}
use jitterentropy_library.Prelude.{◌==◌, if◌then◌else◌, length, take, drop}
use jitterentropy_library.Collector.{RandData, Machine}
use jitterentropy_library.Health.Failure.{Error}
use jitterentropy_library.Read.{Return, bytes, error, Outcome, clamped_len}
use jitterentropy_library.Read.Thread.{read_entropy}
use jitterentropy_library.World.{Env, World, M, next, ◌>>=◌, pure}
use jitterentropy_library.Reset.{health_failure_reset}

-- Whether `jent_read_entropy_safe` replaces the collector on an error of a read.
unfoldable pub is_intermittent : Error → Bool
is_intermittent Error.rct = true
is_intermittent Error.apt = true
is_intermittent Error.lag = true
is_intermittent Error.rct_mem = true
is_intermittent Error.einval = false
is_intermittent Error.notime = false
is_intermittent Error.rct_permanent = false
is_intermittent Error.apt_permanent = false
is_intermittent Error.lag_permanent = false
is_intermittent Error.rct_mem_permanent = false
is_intermittent Error.selftest = false

-- What a safe read gives back: its return, the buffer, and the collector that it is now about.
pub record SafeOutcome : Type 0 where
  pub return : Return
  pub data_out : List ℕ
  pub ec : RandData

module _ (env : Env) (fuel : ℕ) where
  -- Behind the reset that an error asked for.
  unfoldable pub retry :
      (List ℕ → List ℕ → RandData → M SafeOutcome)
      → List ℕ
      → Outcome
      → Error
      → Option RandData
      → M SafeOutcome
  retry again done o e none =
      pure (record { return = error e; data_out = done ++ o.data_out; ec = o.machine.ec })
  retry again done o e (some new_ec) = again done o.data_out new_ec

  -- Behind a read: `done` is filled, and the read was given the rest.
  unfoldable pub judge_read :
      (List ℕ → List ℕ → RandData → M SafeOutcome) → List ℕ → Outcome → Return → M SafeOutcome
  unfolding retry
  judge_read again done o (bytes n) =
      again (done ++ take n o.data_out) (drop n o.data_out) o.machine.ec
  judge_read again done o (error e) =
      if is_intermittent e
      then (do replaced ← health_failure_reset env fuel o.machine.ec; retry again done o e replaced)
      else pure (record { return = error e; data_out = done ++ o.data_out; ec = o.machine.ec })

  -- The loop of `jent_read_entropy_safe`.
  unfoldable pub safe_loop : ℕ → List ℕ → List ℕ → RandData → M SafeOutcome
  unfolding judge_read
  safe_loop zero done rest ec = λ w. none
  safe_loop (suc rounds) done rest ec =
      if length rest == 0
      then pure (record { return = bytes (length done); data_out = done; ec = ec })
      else (do o ← read_entropy env fuel ec rest; judge_read (safe_loop rounds) done o o.return)

  unfoldable pub read_nothing_safe : RandData → List ℕ → M SafeOutcome
  read_nothing_safe ec buffer = do
    o ← read_entropy env fuel ec buffer
    pure (record { return = o.return; data_out = o.data_out; ec = o.machine.ec })

  -- The part of the buffer beyond the largest `ssize_t` is left alone.
  unfoldable pub read_entropy_safe : RandData → List ℕ → M SafeOutcome
  unfolding read_nothing_safe
  read_entropy_safe ec buffer = if length buffer == 0 then read_nothing_safe ec buffer else (do
    o ← safe_loop fuel [] (take (clamped_len buffer) buffer) ec
    pure (record o { data_out = o.data_out ++ drop (clamped_len buffer) buffer }))
