-- ===== src/Rngd/Wakeups.antt =====
-- The alarm, the signals and the turns of the main loop, src/rngd/jitterentropy-rngd.c.
use jitterentropy_library.Prelude.{
  ℕ, ◌+◌, Bool, true, false, not, Option, none, some, List, [], ◌∷◌, ◌&&◌, ◌||◌,
}
use jitterentropy_library.Prelude.{ltb, leb, if◌then◌else◌, ◌>>=◌, get_or, take}
use jitterentropy_library.Decimal.{strtol, out_of_range}
use jitterentropy_library.World.{Env}
use jitterentropy_library.Rngd.{Kernel, Options, Daemon, Written, wrote, failed, ended, dealloc}
use jitterentropy_library.Rngd.Gather.{gather_entropy_retry}

-- `read_entropy_value`: at most seven bytes are read of the file.
unfoldable pub read_entropy_value : Option (List ℕ) → Option ℕ
unfolding strtol out_of_range
read_entropy_value none = none
read_entropy_value (some []) = none
read_entropy_value (some (c ∷ text)) =
    let n = strtol (take 7 (c ∷ text)) in
    if out_of_range n || not n.converted || n.negative && ltb 0 n.magnitude || ltb 4096 n.magnitude
    then none
    else some n.magnitude

-- Whether the pool is known to be below its threshold.
unfoldable pub is_low : Option ℕ → Option ℕ → Bool
is_low none thresh = false
is_low (some entropy) none = false
is_low (some entropy) (some thresh) = ltb 0 thresh && ltb entropy thresh

-- What the wait of the main loop gives: the device is writable, a signal came, or an error.
pub data Poll : Type 0 where
  ready interrupted : Poll
  poll_failed : ℕ → Poll

module _ (env : Env) (fuel : ℕ) (kernel : Kernel) (opts : Options) where
  unfoldable pub install_alarm : ℕ → Daemon → Daemon
  install_alarm secs d = if kernel.lrng_present then d else record d { alarm = some secs }

  -- The end of an alarm, unless the process has ended.
  unfoldable pub rearm : Written × Daemon → Option (Written × Daemon)
  unfolding install_alarm
  rearm (ended status, d) = some (ended status, d)
  rearm (wrote n, d) = some (wrote n, install_alarm (get_or opts.alarm_period d.phase 0) d)
  rearm (failed errno, d) =
      some (failed errno, install_alarm (get_or opts.alarm_period d.phase 0) d)

  unfoldable pub gather_and_rearm : Daemon → Option (Written × Daemon)
  unfolding gather_entropy_retry rearm
  gather_and_rearm d = do g ← gather_entropy_retry env fuel kernel opts d; rearm g

  -- Whether this wakeup is to reseed whatever the pool holds.
  unfoldable pub is_forced : Daemon → Bool
  is_forced d = leb (get_or opts.force_reseed_wakeups d.phase 0) (d.wakeups + 1)

  -- `process_alarm`. A wakeup that gathers nothing counts as `wrote 0`.
  unfoldable pub process_alarm : Daemon → Option (Written × Daemon)
  unfolding gather_and_rearm read_entropy_value is_low is_forced
  process_alarm d =
      let counted = record d { wakeups = d.wakeups + 1; requests = d.requests + 1 } in
      if is_forced d
      then gather_and_rearm (record d { wakeups = 0; phase = 1 })
      else if is_low (read_entropy_value (kernel.entropy_avail d.requests))
          (read_entropy_value (kernel.entropy_thresh d.requests))
      then gather_and_rearm counted
      else rearm (wrote 0, counted)

  -- The exit of the process, behind its cleaning up.
  unfoldable pub exit_with : ℕ → Daemon → Option (Written × Daemon)
  unfolding dealloc
  exit_with status d = do gone ← dealloc d; some (ended status, gone)

  unfoldable pub process_term : Daemon → Option (Written × Daemon)
  unfolding exit_with
  process_term d = exit_with 0 (record d { alarm = none })

  -- What follows the wait. An error that is logged as such ends the process with status 1.
  unfoldable pub poll : Poll → Daemon → Option (Written × Daemon)
  unfolding gather_entropy_retry exit_with
  poll ready d = gather_entropy_retry env fuel kernel opts d
  poll interrupted d = some (wrote 0, d)
  poll (poll_failed errno) d = exit_with (if opts.exit_on_error then errno else 1) d

  -- A turn of the loop in `select_fd`; the wait is entered only if no signal is pending.
  unfoldable pub turn : Poll → Daemon → Option (Written × Daemon)
  unfolding process_alarm process_term poll
  turn p d =
      if d.term_pending
      then process_term d
      else if d.alarm_pending
      then process_alarm (record d { alarm_pending = false })
      else poll p d

-- The handlers of the signals.
unfoldable pub sig_entropy_avail : Daemon → Daemon
sig_entropy_avail d = record d { alarm_pending = true }

unfoldable pub sig_term : Daemon → Daemon
sig_term d = record d { term_pending = true }
