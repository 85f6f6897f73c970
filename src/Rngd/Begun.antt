-- ===== src/Rngd/Begun.antt =====
-- The count of the gatherings of the daemon never goes down, and a gathering raises it.
use jitterentropy_library.Prelude.{
  ℕ, zero, suc, ◌+◌, ◌≤◌, inl, inr, arith, Bool, true, false, not, ◌&&◌, Option, none, some, List,
}
use jitterentropy_library.Prelude.{
  Ends, Ends-bind, Ends-if, if◌then◌else◌, Bool-cases, replicate, length,
}
use jitterentropy_library.Collector.{RandData}
use jitterentropy_library.Gcd.{InitError}
use jitterentropy_library.World.{Env, M, anything, Anything}
use jitterentropy_library.Alloc.{collector_free}
use jitterentropy_library.Read.{Outcome}
use jitterentropy_library.Init.{entropy_init_ex}
use jitterentropy_library.Reset.{collector_alloc}
use jitterentropy_library.Safe.{SafeOutcome, read_entropy_safe}
use jitterentropy_library.Read.Thread.{read_entropy}
use jitterentropy_library.Rngd.{
  Kernel, Options, Daemon, Written, wrote, failed, ended, eoverflow, run, rndaddentropy_bufsize,
  after_reseed, after_injection, write_random, release_with, release, dealloc,
}
use jitterentropy_library.Rngd.Gather.{
  read_jent_with, read_jent, inject, conclude, gather_entropy, alloc_jent, realloc_jent, retry_loop,
  nap, gather_entropy_retry,
}
use jitterentropy_library.Rngd.Wakeups.{install_alarm, rearm, gather_and_rearm}
use jitterentropy_library.Rngd.Memory.{run-Ends}

-- At least so many gatherings have begun.
abbrev pub Begun : ℕ → Daemon → Type 0
Begun n d = n ≤ d.gathers

run-Begun :
    {A : Type 0} (n : ℕ) (m : M A) (d : Daemon) → Begun n d → Ends (λ r. Begun n r.1) (run m d)
run-Begun n m d h = run-Ends m d Anything _ (anything (m d.world)) (λ a w t. h)

release_with-Begun :
    (n : ℕ) (ec : Option RandData) (d : Daemon) → Begun n d → Ends (Begun n) (release_with ec d)
unfolding release_with
release_with-Begun n none d h = h
release_with-Begun n (some ec) d h =
    Ends-bind (λ (r : Unit {0} × Daemon). Begun n r.1) (Begun n) (run (collector_free ec) d) _
      (run-Begun n (collector_free ec) d h) (λ r k. k)

release-Begun : (n : ℕ) (d : Daemon) → Begun n d → Ends (Begun n) (release d)
unfolding release
release-Begun n d h = release_with-Begun n d.ec d h

dealloc-Begun : (n : ℕ) (d : Daemon) → Begun n d → Ends (Begun n) (dealloc d)
unfolding dealloc
dealloc-Begun n d h = Ends-bind (Begun n) (Begun n) (release d) _ (release-Begun n d h) (λ g k. k)

either_Begun :
    (n : ℕ) (b : Bool) (x y : Written × Daemon)
    → Begun n x.1
    → Begun n y.1
    → Begun n (if b then x else y).1
either_Begun n true x y p q = p
either_Begun n false x y p q = q

after_reseed-Begun :
    (n len : ℕ) (d : Daemon) (answer : Option ℕ) → Begun n d → Begun n (after_reseed len d answer).1
unfolding after_reseed
after_reseed-Begun n len d none h = h
after_reseed-Begun n len d (some errno) h = h

module _ (env : Env) (fuel : ℕ) (kernel : Kernel) (opts : Options) where
  after_injection-Begun :
      (n : ℕ) (buf : List ℕ) (bytes : ℕ) (force : Bool) (d : Daemon) (answer : Option ℕ)
      → Begun n d
      → Begun n (after_injection kernel buf bytes force d answer).1
  unfolding after_injection
  after_injection-Begun n buf bytes force d (some errno) h = h
  after_injection-Begun n buf bytes force d none h =
      either_Begun n (force && not kernel.lrng_present) _ _
        (after_reseed-Begun n (length buf) _ _ h) h

  inject-Begun :
      (n : ℕ) (count : Option ℕ) (buf : List ℕ) (d : Daemon)
      → Begun n d
      → Begun n (inject env fuel kernel opts count buf d).1
  unfolding inject write_random
  inject-Begun n none buf d h = h
  inject-Begun n (some bytes) buf d h =
      either_Begun n _ (failed eoverflow, d) _ h
        (after_injection-Begun n buf bytes (not kernel.lrng_present) d
          (kernel.add_entropy d.requests) h)

  read_jent_with-Begun :
      (n : ℕ) (ec : Option RandData) (buf : List ℕ) (d : Daemon)
      → Begun n d
      → Ends (λ r. Begun n r.2) (read_jent_with env fuel kernel opts ec buf d)
  unfolding read_jent_with
  read_jent_with-Begun n none buf d h = h
  read_jent_with-Begun n (some ec) buf d h =
      Ends-if {A = Option ℕ × List ℕ × Daemon} (λ r. Begun n r.2) opts.force_sp80090b _ _
        (Ends-bind (λ (o : Outcome × Daemon). Begun n o.1) _ (run (read_entropy env fuel ec buf) d)
          _ (run-Begun n (read_entropy env fuel ec buf) d h) (λ o k. k))
        (Ends-bind (λ (o : SafeOutcome × Daemon). Begun n o.1) _
          (run (read_entropy_safe env fuel ec buf) d) _
          (run-Begun n (read_entropy_safe env fuel ec buf) d h) (λ o k. k))

  conclude-Begun :
      (n : ℕ) (w : Written) (d : Daemon)
      → Begun n d
      → Ends (λ r. Begun n r.1) (conclude env fuel kernel opts w d)
  unfolding conclude
  conclude-Begun n (failed errno) d h =
      Ends-if {A = Written × Daemon} (λ r. Begun n r.1) opts.exit_on_error _ _
        (Ends-bind (Begun n) (λ (r : Written × Daemon). Begun n r.1) (dealloc d) _
          (dealloc-Begun n d h) (λ g k. k))
        h
  conclude-Begun n (wrote k) d h = h
  conclude-Begun n (ended status) d h = h

  gather_entropy-Begun :
      (n : ℕ) (d : Daemon)
      → n ≤ d.gathers + 1
      → Ends (λ r. Begun n r.1) (gather_entropy env fuel kernel opts d)
  unfolding gather_entropy read_jent
  gather_entropy-Begun n d h =
      let counted = record d { gathers = d.gathers + 1 } in
      Ends-bind (λ (r : Option ℕ × List ℕ × Daemon). Begun n r.2)
        (λ (r : Written × Daemon). Begun n r.1)
        (read_jent_with env fuel kernel opts d.ec (replicate rndaddentropy_bufsize 0) counted) _
        (read_jent_with-Begun n d.ec (replicate rndaddentropy_bufsize 0) counted h)
        λ r k. conclude-Begun n _ _ (inject-Begun n r.0 r.1 r.2 k)

  alloc_jent-Begun :
      (n : ℕ) (init : Option InitError) (d : Daemon)
      → Begun n d
      → Ends (λ r. Begun n r.1) (alloc_jent env fuel kernel opts init d)
  unfolding alloc_jent
  alloc_jent-Begun n (some e) d h = h
  alloc_jent-Begun n none d h =
      Ends-bind (λ (r : Option RandData × Daemon). Begun n r.1) _
        (run (collector_alloc env fuel opts.jent_osr opts.jent_flags) d) _
        (run-Begun n (collector_alloc env fuel opts.jent_osr opts.jent_flags) d h) (λ r k. k)

  retry_loop-Begun :
      (n left : ℕ) (w : Written) (d : Daemon)
      → Begun n d
      → Ends (λ r. Begun n r.1) (retry_loop env fuel kernel opts left w d)
  unfolding retry_loop realloc_jent
  retry_loop-Begun n zero w d h = h
  retry_loop-Begun n (suc left) (wrote k) d h = h
  retry_loop-Begun n (suc left) (ended status) d h = h
  retry_loop-Begun n (suc left) (failed errno) d h =
      Ends-bind (λ (r : Bool × Daemon). Begun n r.1) (λ (r : Written × Daemon). Begun n r.1)
        (realloc_jent env fuel kernel opts d) _
        (Ends-bind (Begun n) (λ (r : Bool × Daemon). Begun n r.1) (release d) _
          (release-Begun n d h)
          λ g k.
            Ends-bind (λ (r : Option InitError × Daemon). Begun n r.1)
              (λ (r : Bool × Daemon). Begun n r.1)
              (run (entropy_init_ex env fuel opts.jent_osr opts.jent_flags) g)
              (λ init. alloc_jent env fuel kernel opts init.0 init.1)
              (run-Begun n (entropy_init_ex env fuel opts.jent_osr opts.jent_flags) g k)
              (λ init m. alloc_jent-Begun n init.0 init.1 m))
        λ renewed k.
          Ends-if {A = Written × Daemon} (λ r. Begun n r.1) renewed.0 _ _
            (Ends-bind (λ (r : Written × Daemon). Begun n r.1)
              (λ (r : Written × Daemon). Begun n r.1)
              (gather_entropy env fuel kernel opts renewed.1) _
              (gather_entropy-Begun n renewed.1 (omega (arith, k)))
              (λ g m. retry_loop-Begun n left g.0 g.1 m))
            (retry_loop-Begun n left (failed errno) renewed.1 k)

  nap-Begun :
      (n : ℕ) (w : Written) (d : Daemon) → Begun n d → Begun n (nap env fuel kernel opts w d)
  unfolding nap
  nap-Begun n (failed errno) d h = h
  nap-Begun n (wrote k) d h = h
  nap-Begun n (ended status) d h = h

  rearm-Begun :
      (n : ℕ) (w : Written) (d : Daemon)
      → Begun n d
      → Ends (λ r. Begun n r.1) (rearm env fuel kernel opts (w, d))
  unfolding rearm install_alarm
  rearm-Begun n (ended status) d h = h
  rearm-Begun n (wrote k) d h = elim (Bool-cases kernel.lrng_present) [
    | inl lrng ↦ rw lrng h
    | inr legacy ↦ rw legacy h
  ]
  rearm-Begun n (failed errno) d h = elim (Bool-cases kernel.lrng_present) [
    | inl lrng ↦ rw lrng h
    | inr legacy ↦ rw legacy h
  ]

  -- A gathering has begun.
  pub gather_and_rearm-Begun :
      (d : Daemon) → Ends (λ r. Begun (d.gathers + 1) r.1) (gather_and_rearm env fuel kernel opts d)
  unfolding gather_and_rearm gather_entropy_retry
  gather_and_rearm-Begun d =
      let n = d.gathers + 1 in
      Ends-bind (λ (r : Written × Daemon). Begun n r.1) (λ (r : Written × Daemon). Begun n r.1)
        (gather_entropy_retry env fuel kernel opts d) (rearm env fuel kernel opts)
        (Ends-bind (λ (r : Written × Daemon). Begun n r.1) (λ (r : Written × Daemon). Begun n r.1)
          (gather_entropy env fuel kernel opts d) _ (gather_entropy-Begun n d (omega arith))
          λ first h.
            Ends-bind (λ (r : Written × Daemon). Begun n r.1)
              (λ (r : Written × Daemon). Begun n r.1)
              (retry_loop env fuel kernel opts 5 first.0 first.1) _
              (retry_loop-Begun n 5 first.0 first.1 h) (λ last k. nap-Begun n last.0 last.1 k))
        λ r h. rearm-Begun n r.0 r.1 h
