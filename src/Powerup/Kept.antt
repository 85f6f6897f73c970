-- ===== src/Powerup/Kept.antt =====
-- What a startup does to the collector that it measures: the configuration stays.
use jitterentropy_library.Prelude.{
  ℕ, zero, suc, ◌+◌, ◌≡◌, arith, Bool, true, false, not, Option, none, some, subst, sym,
}
use jitterentropy_library.Prelude.{ltb, Ends, Ends-bind}
use jitterentropy_library.Collector.{RandData, Machine}
use jitterentropy_library.Gcd.{InitError}
use jitterentropy_library.Health.Stuck.Kept.{Kept, Kept-refl, Kept-trans}
use jitterentropy_library.Noise.Measure.{Measured}
use jitterentropy_library.Noise.Kept.{measure_jitter-Kept}
use jitterentropy_library.Noise.Collected.{random_data_with-Kept}
use jitterentropy_library.World.{Env}
use jitterentropy_library.Powerup.{
  Powerup, powerup_step, powerup_next, powerup_loop, start_powerup, measure, powerup,
  powerup_testloopcount, clearcache,
}

KeptIn-powerup :
    (a b : RandData) (o : Option Powerup)
    → Kept a b
    → Ends (λ (p : Powerup). Kept b p.machine.ec) o
    → Ends (λ (p : Powerup). Kept a p.machine.ec) o
KeptIn-powerup a b none p q = tt
KeptIn-powerup a b (some after) p q = Kept-trans a b after.machine.ec p q

powerup_next-Kept :
    (ec : RandData) (continue : Powerup → Option Powerup) (p : Powerup) (failed : Option InitError)
    → Kept ec p.machine.ec
    → Ends (λ (p' : Powerup). Kept p.machine.ec p'.machine.ec) (continue p)
    → Ends (λ (p' : Powerup). Kept ec p'.machine.ec) (powerup_next continue p failed)
unfolding powerup_next
powerup_next-Kept ec continue p none kept rest =
    KeptIn-powerup ec p.machine.ec (continue p) kept rest
powerup_next-Kept ec continue p (some e) kept rest = kept

module _ (env : Env) (fuel : ℕ) where
  measure-Kept :
      (notime health : Bool) (m : Machine)
      → Ends (λ after. Kept m.ec after.2.ec) (measure env fuel notime health m)
  unfolding measure
  measure-Kept notime health m =
      measure_jitter-Kept (env.clock notime) _
        (random_data_with-Kept (env.clock notime) (λ m. none) (λ m. tt) fuel) 0 health m

  powerup_step-machine :
      (warming : Bool) (start_time : ℕ) (measured : Measured) (p : Powerup)
      → (powerup_step warming start_time measured p).machine ≡ measured.2
  unfolding powerup_step
  powerup_step-machine warming start_time measured p = ground arith

  powerup_loop-Kept :
      (notime : Bool) (left : ℕ) (p : Powerup)
      → Ends
          (λ p'. Kept p.machine.ec p'.machine.ec)
          (powerup_loop (measure env fuel notime true) left p)
  unfolding powerup_loop
  powerup_loop-Kept notime zero p = Kept-refl p.machine.ec
  powerup_loop-Kept notime (suc left) p =
      Ends-bind (λ (after : Measured). Kept p.machine.ec after.2.ec)
        (λ (p' : Powerup). Kept p.machine.ec p'.machine.ec) (measure env fuel notime true p.machine)
        _ (measure-Kept notime true p.machine)
        λ measured kept.
          let warming = not (ltb left powerup_testloopcount) in
          let stepped = powerup_step warming p.machine.ec.prev_time measured p in
          let kept' : Kept p.machine.ec stepped.machine.ec =
            subst (λ (x : Machine). Kept p.machine.ec x.ec)
              (sym (powerup_step-machine warming p.machine.ec.prev_time measured p)) kept in
          powerup_next-Kept p.machine.ec (powerup_loop (measure env fuel notime true) left) stepped
            stepped.failed kept' (powerup_loop-Kept notime left stepped)

  pub powerup-Kept :
      (notime : Bool) (m : Machine)
      → Ends (λ (p : Powerup). Kept m.ec p.machine.ec) (powerup env fuel notime m)
  unfolding powerup start_powerup
  powerup-Kept notime m =
      Ends-bind (λ (after : Measured). Kept m.ec after.2.ec)
        (λ (p : Powerup). Kept m.ec p.machine.ec) (measure env fuel notime false m) _
        (measure-Kept notime false m)
        λ primed kept.
          KeptIn-powerup m.ec primed.2.ec _ kept
            (powerup_loop-Kept notime (clearcache + powerup_testloopcount) (start_powerup primed.2))
