-- ===== src/Rngd/Forced.antt =====
-- How long the alarms of the daemon can go without a gathering of entropy.
use jitterentropy_library.Prelude.{
  ℕ, zero, suc, ◌+◌, ◌≤◌, ◌<◌, ◌≡◌, ◌⊎◌, inl, inr, refl, arith, ap, Option, none, some,
}
use jitterentropy_library.Prelude.{Ends, Ends-bind, Ends-if, ◌>>=◌, get_or, Bool-cases, leb}
use jitterentropy_library.World.{Env}
use jitterentropy_library.Rngd.{Kernel, Options, Daemon, Written, wrote, failed, ended}
use jitterentropy_library.Rngd.Wakeups.{
  install_alarm, rearm, gather_and_rearm, is_forced, is_low, read_entropy_value, process_alarm,
}
use jitterentropy_library.Rngd.Turns.{proceed}
use jitterentropy_library.Rngd.Begun.{Begun, gather_and_rearm-Begun}

module _ (env : Env) (fuel : ℕ) (kernel : Kernel) (opts : Options) where
  -- A wakeup has been counted, and nothing else that decides on a gathering has changed.
  abbrev Waited : Daemon → Written × Daemon → Type 0
  Waited d r =
      (r.1.gathers ≡ d.gathers)
      × (r.1.wakeups ≡ d.wakeups + 1)
      × (r.1.phase ≡ d.phase)
      × (r.0 ≡ wrote 0)

  abbrev threshold : Daemon → ℕ
  threshold d = get_or opts.force_reseed_wakeups d.phase 0

  rearm-Waited :
      (d : Daemon)
      → Ends (Waited d) (
          rearm env fuel kernel opts
            (wrote 0, record d { wakeups = d.wakeups + 1; requests = d.requests + 1 }))
  unfolding rearm install_alarm
  rearm-Waited d = elim (Bool-cases kernel.lrng_present) [
    | inl lrng ↦ rw lrng (refl, refl, refl, refl)
    | inr legacy ↦ rw legacy (refl, refl, refl, refl)
  ]

  -- An alarm gathers, or counts a wakeup below the threshold.
  process_alarm-Waited :
      (d : Daemon)
      → Ends
          (λ r. Begun (d.gathers + 1) r.1 ⊎ (Waited d r × (d.wakeups + 1 < threshold d)))
          (process_alarm env fuel kernel opts d)
  unfolding process_alarm is_forced
  process_alarm-Waited d =
      let counted = record d { wakeups = d.wakeups + 1; requests = d.requests + 1 } in
      elim (Bool-cases (leb (threshold d) (d.wakeups + 1))) [
        | inl forced ↦ rw forced (
            gathers (gather_and_rearm env fuel kernel opts (record d { wakeups = 0; phase = 1 }))
              (gather_and_rearm-Begun env fuel kernel opts (record d { wakeups = 0; phase = 1 })))
        | inr early ↦
            let below : d.wakeups + 1 < threshold d = ground (arith, early) in
            rw early (
              Ends-if {A = Written × Daemon} _
                (is_low (read_entropy_value (kernel.entropy_avail d.requests))
                  (read_entropy_value (kernel.entropy_thresh d.requests)))
                (gather_and_rearm env fuel kernel opts counted)
                (rearm env fuel kernel opts (wrote 0, counted))
                (gathers (gather_and_rearm env fuel kernel opts counted)
                  (gather_and_rearm-Begun env fuel kernel opts counted))
                (waits below (rearm env fuel kernel opts (wrote 0, counted)) (rearm-Waited d)))
      ]
    where
      gathers :
          (o : Option (Written × Daemon))
          → Ends (λ r. Begun (d.gathers + 1) r.1) o
          → Ends (λ r. Begun (d.gathers + 1) r.1 ⊎ (Waited d r × (d.wakeups + 1 < threshold d))) o
      gathers none h = tt
      gathers (some r) h = inl h

      waits :
          (below : d.wakeups + 1 < threshold d) (o : Option (Written × Daemon))
          → Ends (Waited d) o
          → Ends (λ r. Begun (d.gathers + 1) r.1 ⊎ (Waited d r × (d.wakeups + 1 < threshold d))) o
      waits below none h = tt
      waits below (some r) h = inr (h, below)

  -- Alarms one after the other, until the process ends.
  abbrev pub alarms : ℕ → Daemon → Option (Written × Daemon)
  alarms zero d = some (wrote 0, d)
  alarms (suc n) d = do
    r ← process_alarm env fuel kernel opts d
    proceed env fuel kernel opts (alarms n) r

  -- Where it goes on from a wakeup.
  proceed-Begun :
      (n : ℕ) (rest : Daemon → Option (Written × Daemon)) (r : Written × Daemon)
      → Begun n r.1
      → ((d : Daemon) → Begun n d → Ends (λ r. Begun n r.1) (rest d))
      → Ends (λ r. Begun n r.1) (proceed env fuel kernel opts rest r)
  proceed-Begun n rest (ended status, d) h k = h
  proceed-Begun n rest (wrote m, d) h k = k d h
  proceed-Begun n rest (failed errno, d) h k = k d h

  alarms-Begun : (n left : ℕ) (d : Daemon) → Begun n d → Ends (λ r. Begun n r.1) (alarms left d)
  alarms-Begun n zero d h = h
  alarms-Begun n (suc left) d h =
      Ends-bind
        (λ (r : Written × Daemon).
          Begun (d.gathers + 1) r.1 ⊎ (Waited d r × (d.wakeups + 1 < threshold d)))
        (λ (r : Written × Daemon). Begun n r.1) (process_alarm env fuel kernel opts d) _
        (process_alarm-Waited d)
        λ r k. proceed-Begun n (alarms left) r (still r k) (λ x. alarms-Begun n left x)
    where
      still :
          (r : Written × Daemon)
          → Begun (d.gathers + 1) r.1 ⊎ (Waited d r × (d.wakeups + 1 < threshold d))
          → Begun n r.1
      still r (inl more) = omega (arith, h, more)
      still r (inr (waited, below)) = omega (arith, h, waited.0)

  -- However full the pool is and whatever the entropy files say, the daemon, where it returns, does
  -- not let as many alarms pass as lead from its count of wakeups to the limit of its phase without
  -- a gathering of entropy: the last of them is forced, if none before it gathered or ended the
  -- process.
  pub alarms-gathers :
      (left : ℕ) (d : Daemon)
      → 0 < left
      → get_or opts.force_reseed_wakeups d.phase 0 ≤ d.wakeups + left
      → Ends (λ r. d.gathers < r.1.gathers) (alarms left d)
  alarms-gathers zero d positive due = absurd (omega (arith, positive))
  alarms-gathers (suc left) d positive due =
      Ends-bind
        (λ (r : Written × Daemon).
          Begun (d.gathers + 1) r.1 ⊎ (Waited d r × (d.wakeups + 1 < threshold d)))
        (λ (r : Written × Daemon). d.gathers < r.1.gathers) (process_alarm env fuel kernel opts d) _
        (process_alarm-Waited d) λ r h. next_alarm r h (λ x. alarms-gathers left x)
    where
      more :
          (o : Option (Written × Daemon))
          → Ends (λ r. Begun (d.gathers + 1) r.1) o
          → Ends (λ r. d.gathers < r.1.gathers) o
      more none h = tt
      more (some r) h = omega (arith, h)

      as_before :
          (x : Daemon) (o : Option (Written × Daemon))
          → x.gathers ≡ d.gathers
          → Ends (λ r. x.gathers < r.1.gathers) o
          → Ends (λ r. d.gathers < r.1.gathers) o
      as_before x none same h = tt
      as_before x (some r) same h = omega (arith, h, same)

      next_alarm :
          (r : Written × Daemon)
          → Begun (d.gathers + 1) r.1 ⊎ (Waited d r × (d.wakeups + 1 < threshold d))
          → ((x : Daemon)
              → 0 < left
              → threshold x ≤ x.wakeups + left
              → Ends (λ r. x.gathers < r.1.gathers) (alarms left x))
          → Ends (λ r. d.gathers < r.1.gathers) (proceed env fuel kernel opts (alarms left) r)
      next_alarm r (inl begun) ih = more (proceed env fuel kernel opts (alarms left) r) (
          proceed-Begun (d.gathers + 1) (alarms left) r begun
            (λ x. alarms-Begun (d.gathers + 1) left x))
      next_alarm (ended status, x) (inr (waited, below)) ih = cc
      next_alarm (failed errno, x) (inr (waited, below)) ih = cc
      next_alarm (wrote n, x) (inr (waited, below)) ih =
          let same : threshold x ≡ threshold d =
            ap (λ p. get_or opts.force_reseed_wakeups p 0) waited.2 in
          as_before x (alarms left x) waited.0
            (ih x (omega (arith, due, below)) (omega (arith, due, same, waited.1)))
