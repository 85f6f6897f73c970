-- ===== src/Init/Changes.antt =====
-- What the initialization takes and gives back: nothing stays with it.
use jitterentropy_library.Prelude.{
  ℕ, ◌≡◌, ◌⊎◌, arith, ◌∙◌, Bool, true, false, Option, none, some, subst, bit_or, ap,
}
use jitterentropy_library.Prelude.{if◌then◌else◌}
use jitterentropy_library.Collector.{RandData, force_fips, measure_clock}
use jitterentropy_library.Gcd.{InitError}
use jitterentropy_library.Health.Stuck.Kept.{Kept}
use jitterentropy_library.World.{
  Env, World, M, pure, After, After-next, After-imp, After-if, zalloc, zfree,
}
use jitterentropy_library.World.Changes.{
  Change, Change-refl, Change-trans, Change-as, Change-add, Quiet,
}
use jitterentropy_library.World.Quiet.{Quiet-if, Quiet-pure}
use jitterentropy_library.Timer.{notime_forced, notime_settick, notime_unsettick}
use jitterentropy_library.Timer.Changes.{
  held, held_opt, ticks, KeptIdle, zalloc-Change, zfree-Change, notime_settick-Change,
  notime_unsettick-Change,
}
use jitterentropy_library.Alloc.{collector_free}
use jitterentropy_library.Alloc.Released.{collector_free-Change}
use jitterentropy_library.Alloc.Changes.{ticks-zero, Gives, IsIdle, alloc_internal-Gives}
use jitterentropy_library.Powerup.{Powerup, powerup}
use jitterentropy_library.Powerup.Kept.{powerup-Kept}
use jitterentropy_library.Init.{
  conclude, run, measured, measure_running, startup_alloc, measure_allocated, measured_startup,
  select_timer, attempt, judge_history, time_entropy_init_with, time_entropy_init,
}
use jitterentropy_library.Init.Parts.{
  held-Kept, ticks-Kept, run-After, conclude-Quiet, select_timer-Quiet,
}

-- What the measurements on a collector leave to the caller.
abbrev Leaves : World → RandData → ℕ → Option InitError × RandData → World → Type 0
Leaves w ec ticking r w' =
    Change w w' 0 0 ticking (ticks r.1) × (held w.handler r.1 ≡ held w.handler ec)

module _ (env : Env) (fuel : ℕ) where
  measure_running-Leaves :
      (ec : RandData) (w : World)
      → After (λ r w'. Leaves w ec (ticks ec) r w') (measure_running env fuel ec w)
  unfolding measure_running
  measure_running-Leaves ec w =
      After-next (λ (p : Powerup) w'. Change w w' 0 0 0 0 × Kept ec p.machine.ec) _
        (run (powerup env fuel ec.enable_notime) (λ p. p.machine) ec w) _
        (run-After (λ (p : Powerup). Kept ec p.machine.ec) _ _ ec w
          (powerup-Kept env fuel ec.enable_notime _))
        λ p w1 h.
          After-next (λ ret w'. Change w1 w' 0 0 0 0) _ (conclude p w1) _ (conclude-Quiet p w1)
            λ ret w2 c. (
              Change-as _ _ _ _ (omega arith) (omega (arith, ticks-Kept ec p.machine.ec h.1))
                  (Change-trans h.0 c),
              held-Kept w.handler ec p.machine.ec h.1,
            )

  measured-Leaves :
      (ec : RandData) (w : World)
      → ticks ec ≡ 0
      → After (λ r w'. Leaves w ec 0 r w') (measured env fuel ec w)
  unfolding measured
  measured-Leaves ec w idle =
      After-next
        (λ (r : Bool × RandData) w'.
          Change w w' 0 0 0 (ticks r.1) × KeptIdle ec r.1 × ((r.0 ≡ false) ⊎ (ticks r.1 ≡ 0)))
        (λ r w'. Leaves w ec 0 r w') (notime_settick env ec w) _
        (notime_settick-Change env ec w idle)
        λ ticking w1 h.
          let same : held w.handler ticking.1 ≡ held w.handler ec = omega (
            arith,
            held-Kept w.handler ec (record (ticking.1) { notime_running = ec.notime_running }) h.1,
          ) in
          After-if (λ (r : Option InitError × RandData) w'. Leaves w ec 0 r w') ticking.0
            (pure (some InitError.emem, ticking.1)) (measure_running env fuel ticking.1) w1
            (h.0, same)
            (After-imp _ _ (measure_running env fuel ticking.1 w1)
              (measure_running-Leaves ticking.1 w1)
              λ r w2 l. (
                Change-trans h.0 l.0,
                subst (λ k. held k r.1 ≡ held k ticking.1) h.0.handler l.1 ∙ same,
              ))

  measure_allocated-Change :
      (allocated : Option RandData) (w : World)
      → IsIdle allocated
      → After
          (λ r w'. Change w w' (held_opt w.handler allocated) 0 0 0)
          (measure_allocated env fuel allocated w)
  unfolding measure_allocated
  measure_allocated-Change none w idle = Change-refl w 0 0
  measure_allocated-Change (some ec) w idle =
      After-next (λ r w'. Leaves w ec 0 r w') _ (measured env fuel ec w) _
        (measured-Leaves ec w (ticks-zero ec idle))
        λ ret w1 l.
          After-next (λ r w'. Change w1 w' 0 0 (ticks ret.1) 0 × KeptIdle ret.1 r × (ticks r ≡ 0)) _
            (notime_unsettick ret.1 w1) _ (notime_unsettick-Change ret.1 w1)
            λ stopped w2 h.
              After-next (λ r w'. Change w2 w' (held w2.handler stopped) 0 (ticks stopped) 0)
                (λ (r : Option InitError) w'. Change w w' (held w.handler ec) 0 0 0)
                (collector_free stopped w2) _ (collector_free-Change stopped w2)
                λ r w3 c.
                  Change-as (held w.handler ec) 0 0 0
                    (omega (
                      arith,
                      held-Kept w2.handler ret.1
                          (record stopped { notime_running = ret.1.notime_running }) h.1,
                      ap (λ k. held k ret.1) (h.0.handler ∙ l.0.handler),
                      l.1,
                    ))
                    (omega (arith, h.2)) (Change-add (Change-add l.0 h.0) c)

  module _ (nested : ℕ → ℕ → M (Option InitError))
      (quiet : (osr flags : ℕ) → Quiet (nested osr flags)) where
    measured_startup-Quiet : (osr flags : ℕ) → Quiet (measured_startup env fuel nested osr flags)
    unfolding measured_startup startup_alloc
    measured_startup-Quiet osr flags w =
        After-next (λ r w'. Gives w 0 r w') (λ (r : Option InitError) w'. Change w w' 0 0 0 0) _ _
          (alloc_internal-Gives env nested quiet (λ o f. pure none)
            (λ o f. Quiet-pure {A = Option InitError} none) osr
            (bit_or (bit_or flags force_fips) measure_clock) w)
          λ allocated w1 g.
            After-imp _ _ (measure_allocated env fuel allocated w1)
              (measure_allocated-Change allocated w1 g.1)
              λ r w2 c.
                Change-trans g.0
                  (subst (λ k. Change w1 w2 (held_opt k allocated) 0 0 0) g.0.handler c)

    judge_history-Change :
        (osr flags : ℕ) (ok : Bool) (w w1 : World)
        → Change w w1 0 (if ok then 1 else 0) 0 0
        → After (λ r w'. Change w w' 0 0 0 0) (judge_history env fuel nested osr flags ok w1)
    unfolding judge_history attempt notime_forced
    judge_history-Change osr flags false w w1 c = c
    judge_history-Change osr flags true w w1 c =
        After-next (λ r w'. Change w1 w' 0 0 0 0) (λ (r : Option InitError) w'. Change w w' 0 0 0 0)
          (select_timer flags w1) _ (select_timer-Quiet flags w1)
          λ selected w2 c2.
            After-next (λ r w'. Change w2 w' 0 0 0 0)
              (λ (r : Option InitError) w'. Change w w' 0 0 0 0)
              (attempt env fuel nested osr w2.forced selected w2) _
              (Quiet-if _ (pure (some InitError.enotime)) _ (Quiet-pure (some InitError.enotime))
                (measured_startup-Quiet osr selected) w2)
              λ ret w3 c3.
                After-next (λ r w'. Change w3 w' 1 0 0 0)
                  (λ (r : Option InitError) w'. Change w w' 0 0 0 0) (zfree w3) _ (zfree-Change w3)
                  λ r w4 c4.
                    Change-as 0 0 0 0 (omega arith) (omega arith)
                      (Change-add (Change-add (Change-add c c2) c3) c4)

    time_entropy_init_with-Quiet :
        (osr flags : ℕ) → Quiet (time_entropy_init_with env fuel nested osr flags)
    unfolding time_entropy_init_with
    time_entropy_init_with-Quiet osr flags w =
        After-next (λ ok w'. Change w w' 0 (if ok then 1 else 0) 0 0)
          (λ (r : Option InitError) w'. Change w w' 0 0 0 0) (zalloc env w) _ (zalloc-Change env w)
          λ ok w1 c. judge_history-Change osr flags ok w w1 c

  -- A startup gives back all that it takes, on every path.
  pub time_entropy_init-Quiet : (osr flags : ℕ) → Quiet (time_entropy_init env fuel osr flags)
  unfolding time_entropy_init
  time_entropy_init-Quiet osr flags =
      time_entropy_init_with-Quiet (λ o f w. none) (λ o f w. tt) osr flags
