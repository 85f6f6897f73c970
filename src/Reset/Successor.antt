-- ===== src/Reset/Successor.antt =====
-- What a reset gives: a successor of the collector, also through the resets of its own startup.
use jitterentropy_library.Prelude.{ℕ, zero, suc, ◌≤◌, arith, Bool, Option, none, some}
use jitterentropy_library.Prelude.{◌==◌}
use jitterentropy_library.Collector.{RandData, Machine}
use jitterentropy_library.Health.Stuck.Kept.{Kept}
use jitterentropy_library.Noise.Collect.{random_data}
use jitterentropy_library.Noise.Collected.{random_data-KeptIn}
use jitterentropy_library.World.{
  Env, World, M, ◌>>=◌, pure, After, After-next, After-if, Anything, anything,
}
use jitterentropy_library.World.Changes.{Change}
use jitterentropy_library.Timer.{notime_settick, notime_unsettick}
use jitterentropy_library.Alloc.{collector_free, fail}
use jitterentropy_library.Init.{health_failure_in}
use jitterentropy_library.Init.Parts.{run-After}
use jitterentropy_library.Reset.{
  reset_quietly, collect_in, start_or_free, restart, mend, finish_startup, startup_again,
  startup_loop, collector_startup, health_failure_reset,
}
use jitterentropy_library.Reset.Continued.{
  IsHeir, InheritsFrom, IsHeir-refl, IsHeir-trans, Kept-IsHeir, Continues, settick-Continues,
  unsettick-Continues,
}
use jitterentropy_library.Reset.Heir.{Succeeds, Bounded, Keeping, reset_with-Succeeds}

-- An heir within the bounds.
abbrev Bequeaths : RandData → Option RandData → World → Type 0
Bequeaths ec r w = InheritsFrom ec r w × Bounded r

Bequeaths-add :
    (a b : RandData) (o : Option (Option RandData × World))
    → IsHeir a b
    → After (Bequeaths b) o
    → After (Bequeaths a) o
Bequeaths-add a b none h k = tt
Bequeaths-add a b (some (none, w)) h k = (tt, tt)
Bequeaths-add a b (some (some c, w)) h k = (IsHeir-trans a b c h k.0, k.1)

fail-Bequeaths : (a ec : RandData) (w : World) → After (Bequeaths a) (fail ec w)
fail-Bequeaths a ec w =
    After-next Anything (Bequeaths a) (collector_free ec w) (λ r. pure none)
      (anything (collector_free ec w)) (λ r w' u. (tt, tt))

module _ (env : Env) (fuel : ℕ) where
  reset_quietly-Succeeds :
      (old : RandData) (w : World) → After (Succeeds old) (reset_quietly env fuel old w)
  unfolding reset_quietly
  reset_quietly-Succeeds old w =
      reset_with-Succeeds env fuel (λ ec. pure (some ec)) (λ ec w' le. (IsHeir-refl ec, le)) old w

  -- The bound is that of the collector that the operation is given.
  start_or_free-Keeping :
      (then_do : RandData → M (Option RandData))
      → Keeping then_do
      → Keeping (start_or_free env fuel then_do)
  unfolding start_or_free
  start_or_free-Keeping then_do keeping ec w le =
      After-next (λ (r : Bool × RandData) w'. Continues ec r.1) (Bequeaths ec)
        (notime_settick env ec w) _ (settick-Continues env ec w)
        λ ticking w1 h.
          After-if (Bequeaths ec) ticking.0 (fail ticking.1) (then_do ticking.1) w1
            (fail-Bequeaths ec ticking.1 w1)
            (Bequeaths-add ec ticking.1 (then_do ticking.1 w1) h.0
              (keeping ticking.1 w1 (omega (arith, h.1, le))))

  finish_startup-Keeping : Keeping (finish_startup env fuel)
  unfolding finish_startup
  finish_startup-Keeping ec w le =
      After-next (λ r w'. Continues ec r) (Bequeaths ec) (notime_unsettick ec w)
        (λ stopped. pure (some stopped)) (unsettick-Continues ec w)
        (λ stopped w' h. (h.0, omega (arith, h.1, le)))

  module _ (then_do : RandData → M (Option RandData)) (keeping : Keeping then_do) where
    restart-Bequeaths :
        (old : RandData) (replaced : Option RandData) (w w1 : World)
        → Succeeds old replaced w
        → After (Bequeaths old) (restart env fuel then_do old replaced w1)
    unfolding restart
    restart-Bequeaths old none w w1 h = fail-Bequeaths old old w1
    restart-Bequeaths old (some new_ec) w w1 h =
        Bequeaths-add old new_ec (start_or_free env fuel then_do new_ec w1) h.0
          (start_or_free-Keeping then_do keeping new_ec w1 h.2)

    mend-Bequeaths :
        (ec : RandData) (failure : ℕ) (w : World)
        → ec.osr ≤ 20
        → After (Bequeaths ec) (mend env fuel then_do ec failure w)
    unfolding mend
    mend-Bequeaths ec failure w le =
        After-if (Bequeaths ec) (failure == 0) (then_do ec)
          (reset_quietly env fuel ec >>= restart env fuel then_do ec) w (keeping ec w le)
          (After-next (Succeeds ec) (Bequeaths ec) (reset_quietly env fuel ec w)
            (restart env fuel then_do ec) (reset_quietly-Succeeds ec w)
            (λ replaced w1 h. restart-Bequeaths ec replaced w1 w1 h))

  collect_in-Kept :
      (ec : RandData) (w : World) → After (λ r w'. Kept ec r) (collect_in env fuel ec w)
  unfolding collect_in
  collect_in-Kept ec w =
      After-next (λ (m : Machine) w'. Change w w' 0 0 0 0 × Kept ec m.ec) (λ r w'. Kept ec r) _
        (λ m. pure m.ec)
        (run-After (λ (m : Machine). Kept ec m.ec) (random_data (env.clock ec.enable_notime) fuel)
          (λ m. m) ec w (random_data-KeptIn (env.clock ec.enable_notime) fuel _))
        (λ m w1 h. h.1)

  startup_again-Keeping :
      (again : RandData → M (Option RandData))
      → Keeping again
      → Keeping (startup_again env fuel again)
  unfolding startup_again
  startup_again-Keeping again keeping ec w le =
      After-if (Bequeaths ec) _ (finish_startup env fuel ec) (again ec) w
        (finish_startup-Keeping ec w le) (keeping ec w le)

  startup_loop-Keeping : (rounds : ℕ) → Keeping (startup_loop env fuel rounds)
  unfolding startup_loop
  startup_loop-Keeping zero ec w le = tt
  startup_loop-Keeping (suc rounds) ec w le =
      After-next (λ r w'. Kept ec r) (Bequeaths ec) (collect_in env fuel ec w) _
        (collect_in-Kept ec w)
        λ collected w1 kept.
          After-next Anything (Bequeaths ec) (health_failure_in collected w1) _
            (anything (health_failure_in collected w1))
            λ failure w2 u. Bequeaths-add ec collected _ (Kept-IsHeir ec collected kept) (
              mend-Bequeaths (startup_again env fuel (startup_loop env fuel rounds))
                (startup_again-Keeping (startup_loop env fuel rounds) (startup_loop-Keeping rounds))
                collected failure w2 (omega (arith, kept.osr, le)))

  collector_startup-Keeping : Keeping (collector_startup env fuel)
  unfolding collector_startup
  collector_startup-Keeping =
      start_or_free-Keeping (startup_loop env fuel fuel) (startup_loop-Keeping fuel)

  -- A replacement that a reset gives, with the startup of the replacement and every reset within
  -- it, has the identifier, the accounting and the memory cap setting of the old collector, at an
  -- oversampling rate that is above the old one and 20 at most.
  pub health_failure_reset-Succeeds :
      (old : RandData) (w : World) → After (Succeeds old) (health_failure_reset env fuel old w)
  unfolding health_failure_reset
  health_failure_reset-Succeeds old w =
      reset_with-Succeeds env fuel (collector_startup env fuel) collector_startup-Keeping old w
