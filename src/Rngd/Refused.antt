-- ===== src/Rngd/Refused.antt =====
-- A collector with a recorded failure does not reach the kernel: the daemon of
-- rngd/jitterentropy-rngd.c over `jent_read_entropy`.
use jitterentropy_library.Prelude.{
  ℕ, suc, ◌+◌, ◌≡◌, refl, ap, arith, ◌∙◌, true, false, Option, none, some, List, ◌>>=◌, replicate,
  length, ◌<◌,
}
use jitterentropy_library.Collector.{RandData}
use jitterentropy_library.World.{Env}
use jitterentropy_library.Read.Blocked.{read_entropy-IsBlocked}
use jitterentropy_library.Noise.Blocked.{IsBlocked}
use jitterentropy_library.Rngd.{
  Kernel, Options, Daemon, Written, failed, eopnotsupp, rndaddentropy_bufsize, count,
}
use jitterentropy_library.Rngd.Gather.{
  read_jent_with, read_jent, inject, judge_written, conclude, gather_entropy,
}

module _ (env : Env) (fuel : ℕ) (kernel : Kernel) (opts : Options) where
  -- Nothing was read, and the kernel was not asked.
  abbrev Unread : Daemon → Option (Option ℕ × List ℕ × Daemon) → Type 0
  Unread d o =
      (r : Option ℕ × List ℕ × Daemon) × (o ≡ some r)
      × (r.0 ≡ none)
      × (r.2.injected ≡ d.injected)
      × (r.2.requests ≡ d.requests)
      × (r.2.seeded ≡ d.seeded)

  read_jent_with-IsBlocked :
      (k : ℕ) (held_ec : Option RandData) (ec : RandData) (buf : List ℕ) (d : Daemon)
      → opts.force_sp80090b ≡ true
      → held_ec ≡ some ec
      → 0 < length buf
      → IsBlocked k ec
      → Unread d (read_jent_with env (suc fuel) kernel opts held_ec buf d)
  unfolding read_jent_with
  read_jent_with-IsBlocked k held_ec ec buf d strict held nonempty blocked =
      let (o, same, refused, kept) =
        read_entropy-IsBlocked env k fuel ec buf d.world nonempty blocked in
      rw (held, strict, same) (_, refl, ap count refused.1, refl, refl, refl)

  inject-none :
      (n : Option ℕ) (buf : List ℕ) (d : Daemon)
      → n ≡ none
      → inject env (suc fuel) kernel opts n buf d ≡ (failed eopnotsupp, d)
  unfolding inject
  inject-none n buf d refused = rw refused refl

  conclude-failed :
      (errno : ℕ) (d : Daemon)
      → opts.exit_on_error ≡ false
      → conclude env (suc fuel) kernel opts (failed errno) d ≡ some (failed errno, d)
  unfolding conclude
  conclude-failed errno d stays = rw stays refl

  -- What was not given to the kernel.
  abbrev pub Withholds : Daemon → Option (Written × Daemon) → Type 0
  Withholds d o =
      (r : Written × Daemon) × (o ≡ some r)
      × (r.0 ≡ failed eopnotsupp)
      × (r.1.injected ≡ d.injected)
      × (r.1.requests ≡ d.requests)
      × (r.1.seeded ≡ d.seeded)

  -- In the mode of SP 800-90B and without an exit on errors, a gathering with a collector that has a
  -- failure recorded in FIPS mode returns, with fuel for one pass, whatever the clock and the kernel
  -- do: it reports EOPNOTSUPP, asks nothing of the kernel, injects nothing and does not count as a
  -- seeding.
  pub gather_entropy-Withholds :
      (k : ℕ) (d : Daemon) (ec : RandData)
      → opts.force_sp80090b ≡ true
      → opts.exit_on_error ≡ false
      → d.ec ≡ some ec
      → IsBlocked k ec
      → Withholds d (gather_entropy env (suc fuel) kernel opts d)
  unfolding gather_entropy read_jent judge_written
  gather_entropy-Withholds k d ec strict stays held blocked =
      let counted = record d { gathers = d.gathers + 1 } in
      let buf = replicate rndaddentropy_bufsize 0 in
      let (r, same, refused, injected, requests, seeded) =
        read_jent_with-IsBlocked k d.ec ec buf counted strict held (omega arith) blocked in
      let ended = λ (w : Written × Daemon).
        conclude env (suc fuel) kernel opts (judge_written env (suc fuel) kernel opts w.0) w.1 in
      let returned =
        ap (λ o. o >>= λ r. ended (inject env (suc fuel) kernel opts r.0 r.1 r.2)) same
        ∙ ap ended (inject-none r.0 r.1 r.2 refused)
        ∙ conclude-failed eopnotsupp r.2 stays in
      (_, returned, refl, injected, requests, seeded)
