-- ===== src/Rngd/Turns.antt =====
-- The daemon over any sequence of signals and turns of its main loop.
use jitterentropy_library.Prelude.{ℕ, ◌+◌, true, false, Option, none, some, List, [], ◌∷◌, refl}
use jitterentropy_library.Prelude.{Ends, Ends-bind, Ends-if, ◌>>=◌, get_or, Bool-cases, inl, inr}
use jitterentropy_library.World.{Env}
use jitterentropy_library.Reset.Taken.{IsStopped}
use jitterentropy_library.Rngd.{Kernel, Options, Daemon, Written, wrote, failed, ended, dealloc}
use jitterentropy_library.Rngd.Gather.{gather_entropy_retry}
use jitterentropy_library.Rngd.Wakeups.{
  Poll, ready, interrupted, poll_failed, install_alarm, rearm, gather_and_rearm, is_forced, is_low,
  read_entropy_value, process_alarm, exit_with, process_term, poll, turn, sig_entropy_avail,
  sig_term,
}
use jitterentropy_library.Rngd.Memory.{
  Accounts, Accounts-refl, Accounts-trans, IsReleased, dealloc-Accounts,
}
use jitterentropy_library.Rngd.Accounts.{Left, behind, gather_entropy_retry-Left}

-- What can happen to the daemon: a signal, or a turn with what its wait gives.
pub data Event : Type 0 where
  alarm_signal term_signal : Event
  looped : Poll → Event

module _ (env : Env) (fuel : ℕ) (kernel : Kernel) (opts : Options) where
  abbrev pub step : Event → Daemon → Option (Written × Daemon)
  step alarm_signal d = some (wrote 0, sig_entropy_avail d)
  step term_signal d = some (wrote 0, sig_term d)
  step (looped p) d = turn env fuel kernel opts p d

  abbrev pub proceed :
      (Daemon → Option (Written × Daemon)) → Written × Daemon → Option (Written × Daemon)
  proceed next (ended status, d) = some (ended status, d)
  proceed next (wrote n, d) = next d
  proceed next (failed errno, d) = next d

  -- The events in turn, until the process ends.
  abbrev pub steps : List Event → Daemon → Option (Written × Daemon)
  steps [] d = some (wrote 0, d)
  steps (e ∷ events) d = do r ← step e d; proceed (steps events) r

  abbrev period : Daemon → ℕ
  period d = get_or opts.alarm_period d.phase 0

  install_alarm-Accounts :
      (secs : ℕ) (d : Daemon)
      → IsStopped d.ec
      → Accounts d (install_alarm env fuel kernel opts secs d)
  unfolding install_alarm
  install_alarm-Accounts secs d stopped = elim (Bool-cases kernel.lrng_present) [
    | inl lrng ↦ rw lrng (Accounts-refl d d (refl, refl) stopped)
    | inr legacy ↦ rw legacy (Accounts-refl d (record d { alarm = some secs }) (refl, refl) stopped)
  ]

  rearm-Left :
      (d : Daemon) (r : Written × Daemon) → Left d r → Ends (Left d) (rearm env fuel kernel opts r)
  unfolding rearm
  rearm-Left d (ended status, d') h = h
  rearm-Left d (wrote n, d') h = (
    Accounts-trans d d' (install_alarm env fuel kernel opts (period d') d') h.0
        (install_alarm-Accounts (period d') d' (h.0).1),
    tt,
  )
  rearm-Left d (failed errno, d') h = (
    Accounts-trans d d' (install_alarm env fuel kernel opts (period d') d') h.0
        (install_alarm-Accounts (period d') d' (h.0).1),
    tt,
  )

  gather_and_rearm-Left :
      (d : Daemon) → IsStopped d.ec → Ends (Left d) (gather_and_rearm env fuel kernel opts d)
  unfolding gather_and_rearm
  gather_and_rearm-Left d stopped =
      Ends-bind (Left d) (Left d) (gather_entropy_retry env fuel kernel opts d) _
        (gather_entropy_retry-Left env fuel kernel opts d stopped) (λ r h. rearm-Left d r h)

  process_alarm-Left :
      (d : Daemon) → IsStopped d.ec → Ends (Left d) (process_alarm env fuel kernel opts d)
  unfolding process_alarm
  process_alarm-Left d stopped =
      let counted = record d { wakeups = d.wakeups + 1; requests = d.requests + 1 } in
      Ends-if {A = Written × Daemon} (Left d) (is_forced env fuel kernel opts d) _ _
        (gather_and_rearm-Left (record d { wakeups = 0; phase = 1 }) stopped)
        (Ends-if {A = Written × Daemon} (Left d)
          (is_low (read_entropy_value (kernel.entropy_avail d.requests))
            (read_entropy_value (kernel.entropy_thresh d.requests)))
          (gather_and_rearm env fuel kernel opts counted)
          (rearm env fuel kernel opts (wrote 0, counted)) (gather_and_rearm-Left counted stopped)
          (rearm-Left d (wrote 0, counted) (Accounts-refl d counted (refl, refl) stopped, tt)))

  exit_with-Left :
      (status : ℕ) (d : Daemon)
      → IsStopped d.ec
      → Ends (Left d) (exit_with env fuel kernel opts status d)
  unfolding exit_with
  exit_with-Left status d stopped =
      Ends-bind (λ (g : Daemon). Accounts d g × IsReleased g) (Left d) (dealloc d) _
        (dealloc-Accounts d stopped) (λ g h. h)

  process_term-Left :
      (d : Daemon) → IsStopped d.ec → Ends (Left d) (process_term env fuel kernel opts d)
  unfolding process_term
  process_term-Left d stopped = exit_with-Left 0 (record d { alarm = none }) stopped

  poll-Left :
      (p : Poll) (d : Daemon) → IsStopped d.ec → Ends (Left d) (poll env fuel kernel opts p d)
  unfolding poll
  poll-Left ready d stopped = gather_entropy_retry-Left env fuel kernel opts d stopped
  poll-Left interrupted d stopped = (Accounts-refl d d (refl, refl) stopped, tt)
  poll-Left (poll_failed errno) d stopped = exit_with-Left _ d stopped

  step-Left : (e : Event) (d : Daemon) → IsStopped d.ec → Ends (Left d) (step e d)
  unfolding turn sig_entropy_avail sig_term
  step-Left alarm_signal d stopped =
      (Accounts-refl d (record d { alarm_pending = true }) (refl, refl) stopped, tt)
  step-Left term_signal d stopped =
      (Accounts-refl d (record d { term_pending = true }) (refl, refl) stopped, tt)
  step-Left (looped p) d stopped =
      Ends-if {A = Written × Daemon} (Left d) d.term_pending _ _ (process_term-Left d stopped) (
        Ends-if {A = Written × Daemon} (Left d) d.alarm_pending _ _
          (process_alarm-Left (record d { alarm_pending = false }) stopped) (poll-Left p d stopped))

  -- Over any sequence of alarms, termination signals and turns of the main loop, with whatever the
  -- kernel answers, the daemon, where it returns, keeps its books: the live allocations of the
  -- process have changed by exactly the difference of what its collectors hold, before and after, so
  -- that no retry, reset or reseed leaks memory, and no timer thread is left; a process that has
  -- ended has given up its collector, its buffer and every descriptor.
  pub steps-Left :
      (events : List Event) (d : Daemon) → IsStopped d.ec → Ends (Left d) (steps events d)
  steps-Left [] d stopped = (Accounts-refl d d (refl, refl) stopped, tt)
  steps-Left (e ∷ events) d stopped =
      Ends-bind (Left d) (Left d) (step e d) (proceed (steps events)) (step-Left e d stopped)
        λ r h. proceeded r h (λ x. steps-Left events x)
    where
      proceeded :
          (r : Written × Daemon)
          → Left d r
          → ((x : Daemon) → IsStopped x.ec → Ends (Left x) (steps events x))
          → Ends (Left d) (proceed (steps events) r)
      proceeded (ended status, d') h next = h
      proceeded (wrote n, d') h next =
          behind env fuel kernel opts d d' (steps events d') h.0 (next d' (h.0).1)
      proceeded (failed errno, d') h next =
          behind env fuel kernel opts d d' (steps events d') h.0 (next d' (h.0).1)
