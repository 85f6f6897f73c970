-- ===== src/Rngd/Accounts.antt =====
-- A gathering and its retries keep the books: the daemon holds what its collector holds.
use jitterentropy_library.Prelude.{
  ℕ, zero, suc, ◌+◌, Bool, not, Option, none, some, List, ◌≡◌, refl, subst, sym, arith,
}
use jitterentropy_library.Prelude.{Ends, Ends-bind, Ends-if, ◌==◌, replicate, ltb, ◌||◌}
use jitterentropy_library.Collector.{RandData}
use jitterentropy_library.Gcd.{InitError}
use jitterentropy_library.World.{Env, World}
use jitterentropy_library.World.Changes.{Change, Change-as}
use jitterentropy_library.Timer.Changes.{held, held_opt}
use jitterentropy_library.Read.{Outcome}
use jitterentropy_library.Init.{entropy_init_ex}
use jitterentropy_library.Init.Entropy.{entropy_init_ex-Quiet}
use jitterentropy_library.Reset.{collector_alloc}
use jitterentropy_library.Reset.Taken.{IsStopped, Yields}
use jitterentropy_library.Reset.Startup.{collector_alloc-Yields}
use jitterentropy_library.Safe.{SafeOutcome, read_entropy_safe}
use jitterentropy_library.Read.Thread.{read_entropy}
use jitterentropy_library.Safe.Changes.{read_entropy-Rests, read_entropy_safe-Hands}
use jitterentropy_library.Rngd.{
  Kernel, Options, Daemon, Written, wrote, failed, ended, rndaddentropy_bufsize, run, release,
  dealloc,
}
use jitterentropy_library.Rngd.Gather.{
  read_jent_with, read_jent, inject, judge_written, conclude, gather_entropy, alloc_jent,
  realloc_jent, retry_loop, nap, gather_entropy_retry,
}
use jitterentropy_library.Rngd.Memory.{
  Accounts, Accounts-refl, Accounts-trans, Goes, Stays, either_Goes, run-Ends, IsReleased,
  release-Accounts, dealloc-Accounts, write_random-Stays,
}

-- A process that has ended has given up its collector.
abbrev pub Gone : Written → Daemon → Type 0
Gone (wrote n) d = Unit {0}
Gone (failed errno) d = Unit {0}
Gone (ended status) d = IsReleased d

-- The books are kept by the daemon that is left, whatever is returned.
abbrev pub Left : Daemon → Written × Daemon → Type 0
Left d r = Accounts d r.1 × Gone r.0 r.1

module _ (env : Env) (fuel : ℕ) (kernel : Kernel) (opts : Options) where
  -- A read hands back a collector.
  read_jent_with-Accounts :
      (held_ec : Option RandData) (buf : List ℕ) (d : Daemon)
      → d.ec ≡ held_ec
      → IsStopped held_ec
      → Ends (λ r. Accounts d r.2) (read_jent_with env fuel kernel opts held_ec buf d)
  unfolding read_jent_with
  read_jent_with-Accounts none buf d same stopped =
      Accounts-refl d d (refl, refl) (subst IsStopped (sym same) stopped)
  read_jent_with-Accounts (some ec) buf d same stopped =
      Ends-if {A = Option ℕ × List ℕ × Daemon} (λ r. Accounts d r.2) opts.force_sp80090b _ _
        (Ends-bind (λ (o : Outcome × Daemon). Handed d (some o.0.machine.ec) o.1) _
          (run (read_entropy env fuel ec buf) d) _
          (run-Ends (read_entropy env fuel ec buf) d _ _
            (read_entropy-Rests env fuel ec buf d.world stopped)
            λ o w h. handed (some o.machine.ec) w h)
          λ o h. h)
        (Ends-bind (λ (o : SafeOutcome × Daemon). Handed d (some o.0.ec) o.1) _
          (run (read_entropy_safe env fuel ec buf) d) _
          (run-Ends (read_entropy_safe env fuel ec buf) d _ _
            (read_entropy_safe-Hands env fuel ec buf d.world stopped)
            λ o w h. handed (some o.ec) w h)
          λ o h. h)
    where
      Handed : Daemon → Option RandData → Daemon → Type 0
      Handed from ec to =
          Change from.world to.world (held_opt from.world.handler from.ec)
            (held_opt from.world.handler ec) 0 0
          × IsStopped ec

      handed :
          (new_ec : Option RandData) (w : World)
          → Change d.world w (held d.world.handler ec) (held_opt d.world.handler new_ec) 0 0
            × IsStopped new_ec
          → Handed d new_ec (record d { world = w })
      handed new_ec w h = (
        subst
            (λ e.
              Change d.world w (held_opt d.world.handler e) (held_opt d.world.handler new_ec) 0 0)
            (sym same) h.0,
        h.1,
      )

  inject-Stays :
      (n : Option ℕ) (buf : List ℕ) (d : Daemon) → Stays d (inject env fuel kernel opts n buf d)
  unfolding inject
  inject-Stays none buf d = ((refl, refl), tt)
  inject-Stays (some n) buf d = write_random-Stays kernel buf n (not kernel.lrng_present) d

  judge_written-Goes : (w : Written) → Goes w → Goes (judge_written env fuel kernel opts w)
  unfolding judge_written
  judge_written-Goes (wrote n) h =
      either_Goes (n == rndaddentropy_bufsize) (wrote n) (wrote 0) tt tt
  judge_written-Goes (failed errno) h = tt
  judge_written-Goes (ended status) h = h

  conclude-Left :
      (w : Written) (d : Daemon)
      → IsStopped d.ec
      → Goes w
      → Ends (Left d) (conclude env fuel kernel opts w d)
  unfolding conclude
  conclude-Left (failed errno) d stopped goes =
      Ends-if {A = Written × Daemon} (Left d) opts.exit_on_error _ _
        (Ends-bind (λ (g : Daemon). Accounts d g × IsReleased g) (Left d) (dealloc d) _
          (dealloc-Accounts d stopped) (λ g h. h))
        (Accounts-refl d d (refl, refl) stopped, tt)
  conclude-Left (wrote n) d stopped goes =
      (Accounts-refl d (record d { seeded = d.seeded || ltb 0 n }) (refl, refl) stopped, tt)
  conclude-Left (ended status) d stopped goes = absurd goes

  -- One part behind another.
  pub behind :
      (d d' : Daemon) (o : Option (Written × Daemon))
      → Accounts d d'
      → Ends (Left d') o
      → Ends (Left d) o
  behind d d' none p q = tt
  behind d d' (some r) p q = (Accounts-trans d d' r.1 p q.0, q.1)

  pub gather_entropy-Left :
      (d : Daemon) → IsStopped d.ec → Ends (Left d) (gather_entropy env fuel kernel opts d)
  unfolding gather_entropy read_jent
  gather_entropy-Left d stopped =
      let counted = record d { gathers = d.gathers + 1 } in
      Ends-bind (λ (r : Option ℕ × List ℕ × Daemon). Accounts counted r.2) _
        (read_jent_with env fuel kernel opts d.ec (replicate rndaddentropy_bufsize 0) counted) _
        (read_jent_with-Accounts d.ec (replicate rndaddentropy_bufsize 0) counted refl stopped)
        λ r h.
          let w = inject env fuel kernel opts r.0 r.1 r.2 in
          let (same, goes) = inject-Stays r.0 r.1 r.2 in
          behind d w.1 (conclude env fuel kernel opts (judge_written env fuel kernel opts w.0) w.1)
            (Accounts-trans counted r.2 w.1 h (Accounts-refl r.2 w.1 same h.1))
            (conclude-Left (judge_written env fuel kernel opts w.0) w.1
              (subst IsStopped (sym same.1) h.1) (judge_written-Goes w.0 goes))

  alloc_jent-Accounts :
      (init : Option InitError) (d : Daemon)
      → d.ec ≡ none
      → Ends (λ r. Accounts d r.1) (alloc_jent env fuel kernel opts init d)
  unfolding alloc_jent
  alloc_jent-Accounts (some e) d gone =
      Accounts-refl d d (refl, refl) (subst IsStopped (sym gone) tt)
  alloc_jent-Accounts none d gone =
      Ends-bind (λ (r : Option RandData × Daemon). Accounts d (record (r.1) { ec = r.0 })) _
        (run (collector_alloc env fuel opts.jent_osr opts.jent_flags) d) _
        (run-Ends (collector_alloc env fuel opts.jent_osr opts.jent_flags) d
          (λ r w. Yields d.world 0 0 r w) _
          (collector_alloc-Yields env fuel opts.jent_osr opts.jent_flags d.world)
          λ r w y. (
            subst
                (λ e.
                  Change d.world w (held_opt d.world.handler e) (held_opt d.world.handler r) 0 0)
                (sym gone) y.0,
            y.1,
          ))
        λ r h. h

  realloc_jent-Accounts :
      (d : Daemon)
      → IsStopped d.ec
      → Ends (λ r. Accounts d r.1) (realloc_jent env fuel kernel opts d)
  unfolding realloc_jent
  realloc_jent-Accounts d stopped =
      Ends-bind (λ (g : Daemon). Accounts d g × (g.ec ≡ none)) _ (release d) _
        (release-Accounts d stopped)
        λ g h.
          Ends-bind (λ (r : Option InitError × Daemon). Accounts d r.1 × (r.1.ec ≡ none)) _
            (run (entropy_init_ex env fuel opts.jent_osr opts.jent_flags) g)
            (λ init. alloc_jent env fuel kernel opts init.0 init.1)
            (run-Ends (entropy_init_ex env fuel opts.jent_osr opts.jent_flags) g
              (λ r w. Change g.world w 0 0 0 0) _
              (entropy_init_ex-Quiet env fuel opts.jent_osr opts.jent_flags g.world)
              λ r w c. (
                Accounts-trans d g (record g { world = w }) h.0
                    (Change-as _ _ 0 0 (omega arith) (omega arith) c, (h.0).1),
                h.1,
              ))
            λ init k.
              joined d init.1 (alloc_jent env fuel kernel opts init.0 init.1) k.0
                (alloc_jent-Accounts init.0 init.1 k.1)
    where
      joined :
          (a b : Daemon) (o : Option (Bool × Daemon))
          → Accounts a b
          → Ends (λ r. Accounts b r.1) o
          → Ends (λ r. Accounts a r.1) o
      joined a b none p q = tt
      joined a b (some r) p q = Accounts-trans a b r.1 p q

  -- What was returned before, if the process has not ended by it.
  retry_loop-Left :
      (left : ℕ) (w : Written) (d : Daemon)
      → IsStopped d.ec
      → Gone w d
      → Ends (Left d) (retry_loop env fuel kernel opts left w d)
  unfolding retry_loop
  retry_loop-Left zero w d stopped gone = (Accounts-refl d d (refl, refl) stopped, gone)
  retry_loop-Left (suc left) (wrote n) d stopped gone = (Accounts-refl d d (refl, refl) stopped, tt)
  retry_loop-Left (suc left) (ended status) d stopped gone =
      (Accounts-refl d d (refl, refl) stopped, gone)
  retry_loop-Left (suc left) (failed errno) d stopped gone =
      Ends-bind (λ (r : Bool × Daemon). Accounts d r.1) _ (realloc_jent env fuel kernel opts d) _
        (realloc_jent-Accounts d stopped)
        λ renewed h.
          Ends-if {A = Written × Daemon} (Left d) renewed.0 _ _
            (Ends-bind (Left d) (Left d) (gather_entropy env fuel kernel opts renewed.1) _
              (behind d renewed.1 (gather_entropy env fuel kernel opts renewed.1) h
                (gather_entropy-Left renewed.1 h.1))
              λ g k.
                behind d g.1 (retry_loop env fuel kernel opts left g.0 g.1) k.0
                  (retry_loop-Left left g.0 g.1 (k.0).1 k.1))
            (behind d renewed.1 (retry_loop env fuel kernel opts left (failed errno) renewed.1) h
              (retry_loop-Left left (failed errno) renewed.1 h.1 tt))

  nap-Left :
      (w : Written) (d : Daemon)
      → IsStopped d.ec
      → Gone w d
      → Left d (w, nap env fuel kernel opts w d)
  unfolding nap
  nap-Left (failed errno) d stopped gone =
      (Accounts-refl d (record d { naps = d.naps + 1 }) (refl, refl) stopped, tt)
  nap-Left (wrote n) d stopped gone = (Accounts-refl d d (refl, refl) stopped, tt)
  nap-Left (ended status) d stopped gone = (Accounts-refl d d (refl, refl) stopped, gone)

  pub gather_entropy_retry-Left :
      (d : Daemon) → IsStopped d.ec → Ends (Left d) (gather_entropy_retry env fuel kernel opts d)
  unfolding gather_entropy_retry
  gather_entropy_retry-Left d stopped =
      Ends-bind (Left d) (Left d) (gather_entropy env fuel kernel opts d) _
        (gather_entropy-Left d stopped)
        λ first h.
          Ends-bind (Left d) (Left d) (retry_loop env fuel kernel opts 5 first.0 first.1) _
            (behind d first.1 (retry_loop env fuel kernel opts 5 first.0 first.1) h.0
              (retry_loop-Left 5 first.0 first.1 (h.0).1 h.1))
            λ last k.
              behind d last.1 (some (last.0, nap env fuel kernel opts last.0 last.1)) k.0
                (nap-Left last.0 last.1 (k.0).1 k.1)
