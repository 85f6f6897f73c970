-- ===== src/Rngd/Memory.antt =====
-- The memory and the threads of the daemon: what it takes through its collector, and gives back.
use jitterentropy_library.Prelude.{
  ℕ, Bool, true, false, not, Option, none, some, List, ◌≡◌, refl, subst, sym,
}
use jitterentropy_library.Prelude.{Ends, Ends-bind, ◌>>=◌, if◌then◌else◌, ◌==◌, ◌&&◌, length}
use jitterentropy_library.Collector.{RandData}
use jitterentropy_library.World.{World, M, After}
use jitterentropy_library.World.Changes.{Change, Change-refl, Change-trans}
use jitterentropy_library.Timer.Changes.{held, held_opt, ticks}
use jitterentropy_library.Alloc.{collector_free}
use jitterentropy_library.Alloc.Released.{collector_free-Change}
use jitterentropy_library.Reset.Taken.{IsStopped}
use jitterentropy_library.Rngd.{
  Kernel, Daemon, Written, wrote, failed, ended, einval, eoverflow, run, after_reseed,
  after_injection, write_random, release_with, release, dealloc,
}

-- From `d` to `d'` the live allocations of the process change by what the collectors hold, and no
-- thread is left.
abbrev pub Accounts : Daemon → Daemon → Type 0
Accounts d d' =
    Change d.world d'.world (held_opt d.world.handler d.ec) (held_opt d.world.handler d'.ec) 0 0
    × IsStopped d'.ec

-- The same collector in the same process.
abbrev pub SameProcess : Daemon → Daemon → Type 0
SameProcess d d' = (d'.world ≡ d.world) × (d'.ec ≡ d.ec)

pub Accounts-refl : (d d' : Daemon) → SameProcess d d' → IsStopped d.ec → Accounts d d'
Accounts-refl d d' same stopped =
    subst
      (λ w.
        Change d.world w (held_opt d.world.handler d.ec) (held_opt d.world.handler d'.ec) 0 0
        × IsStopped d'.ec)
      (sym same.0)
      (subst
        (λ c.
          Change d.world d.world (held_opt d.world.handler d.ec) (held_opt d.world.handler c) 0 0
          × IsStopped c)
        (sym same.1) (Change-refl d.world (held_opt d.world.handler d.ec) 0, stopped))

pub Accounts-trans : (a b c : Daemon) → Accounts a b → Accounts b c → Accounts a c
Accounts-trans a b c p q = (
  Change-trans p.0
      (subst (λ h. Change b.world c.world (held_opt h b.ec) (held_opt h c.ec) 0 0) p.0.handler q.0),
  q.1,
)

-- An operation of the library in the daemon's process.
pub run-Ends :
    {A : Type 0} (m : M A) (d : Daemon) (P : A → World → Type 0) (Q : A × Daemon → Type 0)
    → After P (m d.world)
    → ((a : A) (w : World) → P a w → Q (a, record d { world = w }))
    → Ends Q (run m d)
run-Ends {A} m d P Q h k = behind (m d.world) h
  where
    behind :
        (o : Option (A × World))
        → After P o
        → Ends Q (do r ← o; some (r.0, record d { world = r.1 }))
    behind none p = tt
    behind (some (a, w)) p = k a w p

release_with-Accounts :
    (held_ec : Option RandData) (d : Daemon)
    → d.ec ≡ held_ec
    → IsStopped held_ec
    → Ends (λ g. Accounts d g × (g.ec ≡ none)) (release_with held_ec d)
unfolding release_with
release_with-Accounts none d same stopped =
    (Accounts-refl d d (refl, refl) (subst IsStopped (sym same) stopped), same)
release_with-Accounts (some ec) d same stopped =
    Ends-bind (λ (r : Unit {0} × Daemon). Change d.world r.1.world (held d.world.handler ec) 0 0 0)
      (λ g. Accounts d g × (g.ec ≡ none)) (run (collector_free ec) d) _
      (run-Ends (collector_free ec) d
        (λ r w. Change d.world w (held d.world.handler ec) 0 (ticks ec) 0) _
        (collector_free-Change ec d.world)
        λ r w c. subst (λ t. Change d.world w (held d.world.handler ec) 0 t 0) stopped c)
      λ freed c. (
        (
          subst (λ e. Change d.world freed.1.world (held_opt d.world.handler e) 0 0 0) (sym same) c,
          tt,
        ),
        refl,
      )

pub release-Accounts :
    (d : Daemon) → IsStopped d.ec → Ends (λ g. Accounts d g × (g.ec ≡ none)) (release d)
unfolding release
release-Accounts d stopped = release_with-Accounts d.ec d refl stopped

-- No collector, no buffer and no descriptor.
abbrev pub IsReleased : Daemon → Type 0
IsReleased d = (d.ec ≡ none) × (d.rpi ≡ false) × (d.descriptors ≡ 0)

pub dealloc-Accounts :
    (d : Daemon) → IsStopped d.ec → Ends (λ g. Accounts d g × IsReleased g) (dealloc d)
unfolding dealloc
dealloc-Accounts d stopped =
    Ends-bind (λ (g : Daemon). Accounts d g × (g.ec ≡ none))
      (λ (g : Daemon). Accounts d g × IsReleased g) (release d) _ (release-Accounts d stopped)
      (λ g h. (h.0, (h.1, refl, refl)))

-- A write into the kernel returns, and leaves the process alone.
abbrev pub Goes : Written → Type 0
Goes (wrote n) = Unit {0}
Goes (failed errno) = Unit {0}
Goes (ended status) = ⊥

abbrev pub Stays : Daemon → Written × Daemon → Type 0
Stays d r = SameProcess d r.1 × Goes r.0

either_Stays :
    (d : Daemon) (b : Bool) (x y : Written × Daemon)
    → Stays d x
    → Stays d y
    → Stays d (if b then x else y)
either_Stays d true x y p q = p
either_Stays d false x y p q = q

pub either_Goes : (b : Bool) (x y : Written) → Goes x → Goes y → Goes (if b then x else y)
either_Goes true x y p q = p
either_Goes false x y p q = q

after_reseed-Stays :
    (len : ℕ) (d : Daemon) (answer : Option ℕ) → Stays d (after_reseed len d answer)
unfolding after_reseed
after_reseed-Stays len d none = ((refl, refl), tt)
after_reseed-Stays len d (some errno) =
    ((refl, refl), either_Goes (errno == einval) (wrote len) (failed errno) tt tt)

module _ (kernel : Kernel) where
  after_injection-Stays :
      (buf : List ℕ) (n : ℕ) (force : Bool) (d : Daemon) (answer : Option ℕ)
      → Stays d (after_injection kernel buf n force d answer)
  unfolding after_injection
  after_injection-Stays buf n force d (some errno) = ((refl, refl), tt)
  after_injection-Stays buf n force d none =
      either_Stays d (force && not kernel.lrng_present) _ _ (after_reseed-Stays (length buf) _ _)
        ((refl, refl), tt)

  pub write_random-Stays :
      (buf : List ℕ) (n : ℕ) (force : Bool) (d : Daemon)
      → Stays d (write_random kernel buf n force d)
  unfolding write_random
  write_random-Stays buf n force d =
      either_Stays d _ (failed eoverflow, d) _ ((refl, refl), tt)
        (after_injection-Stays buf n force d _)
