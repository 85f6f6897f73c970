-- ===== src/Reset/Startup.antt =====
-- What a startup with its resets and a whole allocation take and give back.
use jitterentropy_library.Prelude.{ℕ, zero, suc, ◌≡◌, arith, ◌∙◌, Option, none, some, ap, ◌==◌}
use jitterentropy_library.Collector.{RandData, Machine}
use jitterentropy_library.Health.Stuck.Kept.{Kept}
use jitterentropy_library.Noise.Collect.{random_data}
use jitterentropy_library.Noise.Collected.{random_data-KeptIn}
use jitterentropy_library.World.{Env, World, M, ◌>>=◌, pure, After, After-next, After-if}
use jitterentropy_library.World.Changes.{Change, Change-refl, Change-trans, Change-as}
use jitterentropy_library.Timer.{ask}
use jitterentropy_library.Timer.Changes.{held, ticks, request-Change}
use jitterentropy_library.Init.{health_failure_in}
use jitterentropy_library.Init.Parts.{held-Kept, ticks-Kept, run-After, health_failure_in-Change}
use jitterentropy_library.Reset.{
  if_some, alloc_ready, reset_quietly, collect_in, restart, mend, finish_startup, startup_again,
  startup_loop, collector_startup, health_failure_reset, assign_uuid, startup_and_uuid,
  collector_alloc_flags, collector_alloc,
}
use jitterentropy_library.Reset.Taken.{
  Yields, Yields-add, Takes, TakesStopped, fail-Yields, finish_startup-Takes, start_or_free-Takes,
}
use jitterentropy_library.Reset.Changes.{Resets, alloc_ready-Yields, reset_with-Resets}

module _ (env : Env) (fuel : ℕ) where
  reset_quietly-Resets :
      (old : RandData) (w : World)
      → After (λ r w'. Resets old w r w') (reset_quietly env fuel old w)
  unfolding reset_quietly
  reset_quietly-Resets old w =
      reset_with-Resets env fuel (λ ec. pure (some ec))
        (λ ec w' stopped.
          (Change-as _ _ _ _ (omega arith) (omega (arith, stopped)) (Change-refl w' 0 0), stopped))
        old w

  module _ (then_do : RandData → M (Option RandData)) (takes : Takes then_do) where
    restart-Yields :
        (old : RandData) (replaced : Option RandData) (w w1 : World)
        → Resets old w replaced w1
        → After
            (λ r w'. Yields w (held w.handler old) (ticks old) r w')
            (restart env fuel then_do old replaced w1)
    unfolding restart
    restart-Yields old none w w1 c =
        Yields-add w w1 (held w.handler old) (held w.handler old) (ticks old) (ticks old) _
          (Change-as _ _ _ _ (omega arith) (omega arith) c) (ap (λ k. held k old) c.handler)
          (fail-Yields old w1)
    restart-Yields old (some new_ec) w w1 h =
        Yields-add w w1 (held w.handler old) (held w.handler new_ec) (ticks old) 0 _ h.0
          (ap (λ k. held k new_ec) h.0.handler)
          (start_or_free-Takes env fuel then_do takes new_ec w1 h.1)

    mend-Yields :
        (ec : RandData) (failure : ℕ) (w : World)
        → After
            (λ r w'. Yields w (held w.handler ec) (ticks ec) r w')
            (mend env fuel then_do ec failure w)
    unfolding mend
    mend-Yields ec failure w =
        After-if (λ (r : Option RandData) w'. Yields w (held w.handler ec) (ticks ec) r w')
          (failure == 0) (then_do ec) (reset_quietly env fuel ec >>= restart env fuel then_do ec) w
          (takes ec w)
          (After-next (λ r w'. Resets ec w r w')
            (λ (r : Option RandData) w'. Yields w (held w.handler ec) (ticks ec) r w')
            (reset_quietly env fuel ec w) (restart env fuel then_do ec) (reset_quietly-Resets ec w)
            λ replaced w1 h. restart-Yields ec replaced w w1 h)

  collect_in-Change :
      (ec : RandData) (w : World)
      → After (λ ec' w'. Change w w' 0 0 0 0 × Kept ec ec') (collect_in env fuel ec w)
  unfolding collect_in
  collect_in-Change ec w =
      After-next (λ (m : Machine) w'. Change w w' 0 0 0 0 × Kept ec m.ec)
        (λ ec' w'. Change w w' 0 0 0 0 × Kept ec ec') _ (λ m. pure m.ec)
        (run-After (λ (m : Machine). Kept ec m.ec) (random_data (env.clock ec.enable_notime) fuel)
          (λ m. m) ec w (random_data-KeptIn (env.clock ec.enable_notime) fuel _))
        λ m w1 h. h

  startup_again-Takes :
      (again : RandData → M (Option RandData)) → Takes again → Takes (startup_again env fuel again)
  unfolding startup_again
  startup_again-Takes again takes ec w =
      After-if (λ r w'. Yields w (held w.handler ec) (ticks ec) r w') _ (finish_startup env fuel ec)
        (again ec) w (finish_startup-Takes env fuel ec w) (takes ec w)

  startup_loop-Takes : (rounds : ℕ) → Takes (startup_loop env fuel rounds)
  unfolding startup_loop
  startup_loop-Takes zero ec w = tt
  startup_loop-Takes (suc rounds) ec w =
      After-next (λ ec' w'. Change w w' 0 0 0 0 × Kept ec ec')
        (λ (r : Option RandData) w'. Yields w (held w.handler ec) (ticks ec) r w')
        (collect_in env fuel ec w) _ (collect_in-Change ec w)
        λ collected w1 h.
          After-next (λ (r : ℕ) w'. Change w1 w' 0 0 0 0)
            (λ (r : Option RandData) w'. Yields w (held w.handler ec) (ticks ec) r w')
            (health_failure_in collected w1) _ (health_failure_in-Change collected w1)
            λ failure w2 c.
              Yields-add w w2 (held w.handler ec) (held w.handler ec) (ticks ec) (ticks collected) _
                (Change-as _ _ _ _ (omega arith) (omega (arith, ticks-Kept ec collected h.1))
                  (Change-trans h.0 c))
                (ap (λ k. held k collected) (c.handler ∙ h.0.handler)
                  ∙ held-Kept w.handler ec collected h.1)
                (mend-Yields (startup_again env fuel (startup_loop env fuel rounds))
                  (startup_again-Takes (startup_loop env fuel rounds) (startup_loop-Takes rounds))
                  collected failure w2)

  collector_startup-Takes : TakesStopped (collector_startup env fuel)
  unfolding collector_startup
  collector_startup-Takes =
      start_or_free-Takes env fuel (startup_loop env fuel fuel) (startup_loop-Takes fuel)

  -- A reset of a collector, with the startup of the replacement, where it returns: if it gives a
  -- replacement, the old collector is released with all that it held and its thread is stopped; if
  -- it gives none, all that it took is given back, and the old collector still holds what it held.
  pub health_failure_reset-Resets :
      (old : RandData) (w : World)
      → After (λ r w'. Resets old w r w') (health_failure_reset env fuel old w)
  unfolding health_failure_reset
  health_failure_reset-Resets old w =
      reset_with-Resets env fuel (collector_startup env fuel) collector_startup-Takes old w

  assign_uuid-Yields :
      (ec : RandData) (w : World)
      → ticks ec ≡ 0
      → After (λ r w'. Yields w (held w.handler ec) 0 r w') (assign_uuid env fuel ec w)
  unfolding assign_uuid ask
  assign_uuid-Yields ec w stopped =
      (Change-as _ _ _ _ (omega arith) (omega arith) (request-Change w), stopped)

  named-Yields :
      (before : ℕ) (started : Option RandData) (w w1 : World)
      → Yields w before 0 started w1
      → After (λ r w'. Yields w before 0 r w') (if_some (assign_uuid env fuel) started w1)
  unfolding if_some
  named-Yields before none w w1 y = y
  named-Yields before (some ec) w w1 y =
      Yields-add w w1 before (held w.handler ec) 0 0 _ y.0 (ap (λ k. held k ec) y.0.handler)
        (assign_uuid-Yields ec w1 y.1)

  started-Yields :
      (allocated : Option RandData) (w w1 : World)
      → Yields w 0 0 allocated w1
      → After (λ r w'. Yields w 0 0 r w') (if_some (startup_and_uuid env fuel) allocated w1)
  unfolding if_some startup_and_uuid
  started-Yields none w w1 y = y
  started-Yields (some ec) w w1 y =
      Yields-add w w1 0 (held w.handler ec) 0 0 _ y.0 (ap (λ k. held k ec) y.0.handler) (
        After-next (λ r w'. Yields w1 (held w1.handler ec) 0 r w')
          (λ (r : Option RandData) w'. Yields w1 (held w1.handler ec) 0 r w')
          (collector_startup env fuel ec w1) (if_some (assign_uuid env fuel))
          (collector_startup-Takes ec w1 y.1)
          λ started w2 z. named-Yields (held w1.handler ec) started w1 w2 z)

  -- An allocation of a collector with its startup, where it returns, takes exactly what the
  -- collector that it gives holds, and nothing if it gives none, on every path through the
  -- initializations, the startup and its resets; no thread runs then. The internal timer stays
  -- forced, an established divisor stays, no window of configuration opens again, and the handler,
  -- the callback and the CPU of the timer are those registered before.
  pub collector_alloc-Yields :
      (osr flags : ℕ) (w : World)
      → After (λ r w'. Yields w 0 0 r w') (collector_alloc env fuel osr flags w)
  unfolding collector_alloc collector_alloc_flags
  collector_alloc-Yields osr flags w =
      After-if (λ (r : Option RandData) w'. Yields w 0 0 r w') _ (pure none)
        (alloc_ready env fuel osr _ >>= if_some (startup_and_uuid env fuel)) w
        (Change-refl w 0 0, tt)
        (After-next (λ r w'. Yields w 0 0 r w') (λ (r : Option RandData) w'. Yields w 0 0 r w')
          (alloc_ready env fuel osr _ w) (if_some (startup_and_uuid env fuel))
          (alloc_ready-Yields env fuel osr _ w) λ allocated w1 y. started-Yields allocated w w1 y)
