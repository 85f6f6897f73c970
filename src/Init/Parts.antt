-- ===== src/Init/Parts.antt =====
-- What the parts of a startup do to the process, src/jitterentropy-base.c.
use jitterentropy_library.Prelude.{
  ℕ, ◌+◌, ◌≡◌, inr, refl, arith, Bool, true, false, Option, none, some, subst, bit_or, sym, ap₂,
  ◌&&◌, ◌==◌,
}
use jitterentropy_library.Prelude.{if◌then◌else◌, ltb, Ends}
use jitterentropy_library.Collector.{
  RandData, Machine, force_internal_timer, disable_internal_timer,
}
use jitterentropy_library.Config.{flag_set}
use jitterentropy_library.Gcd.{InitError, Store, Verdict, gcd_store}
use jitterentropy_library.Health.Stuck.Kept.{Kept}
use jitterentropy_library.World.{World, ◌>>=◌, pure, After}
use jitterentropy_library.World.Changes.{
  Change, Change-refl, Change-counts, Latched, Latched-refl, WrittenOnce, Quiet,
}
use jitterentropy_library.World.Quiet.{Quiet-next, Quiet-if, Quiet-pure, latch-Quiet}
use jitterentropy_library.Timer.{notime_force}
use jitterentropy_library.Timer.Changes.{held, ticks, context}
use jitterentropy_library.Powerup.{Powerup, judge_powerup}
use jitterentropy_library.Health.Failure.Codes.{health_failure-keeps}
use jitterentropy_library.Init.{
  settle, query, conclude_with, conclude, note_reads, run, select_timer, health_failure_in,
}

-- The collector that holds the region `a` has holds as much with the same region and context.
pub held-Kept : (h : Option ℕ) (a b : RandData) → Kept a b → held h b ≡ held h a
held-Kept h a b kept =
    ap₂ (λ m c. 1 + (if m == 0 then 0 else 1) + context h c) kept.memmask kept.notime_thread_ctx

pub ticks-Kept : (a b : RandData) → Kept a b → ticks b ≡ ticks a
ticks-Kept a b kept = ap₂ (λ e r. if e && r then 1 else 0) kept.enable_notime kept.notime_running

-- The clocks are read: only the number of requests changes.
pub run-After :
    {A : Type 0} (P : A → Type 0) (f : Machine → Option A) (machine_of : A → Machine)
    (ec : RandData) (w : World)
    → Ends P (f (record { ec = ec; reads = w.reads }))
    → After (λ a w'. Change w w' 0 0 0 0 × P a) (run f machine_of ec w)
unfolding run
run-After {A} P f machine_of ec w ends = noted (f (record { ec = ec; reads = w.reads })) ends
  where
    noted :
        (o : Option A)
        → Ends P o
        → After (λ a w'. Change w w' 0 0 0 0 × P a) (note_reads machine_of w o)
    noted none p = tt
    noted (some a) p = (Change-counts w _ _ _ _ _ 0 0 0 0 refl refl, p)

-- Only the calls of the callback are recorded.
pub health_failure_in-Change :
    (ec : RandData) (w : World) → After (λ r w'. Change w w' 0 0 0 0) (health_failure_in ec w)
unfolding health_failure_in
health_failure_in-Change ec w =
    let keeps = health_failure-keeps w.process ec in
    record {
      memory = refl;
      threads = refl;
      forced = Latched-refl w.forced;
      switch_blocked = Latched-refl w.switch_blocked;
      cb_blocked =
          subst (Latched w.process.cb_switch_blocked) (sym keeps.1)
            (Latched-refl w.process.cb_switch_blocked);
      platform = inr refl;
      notime = inr refl;
      handler = refl;
      notime_cpu = refl;
      fips_cb = keeps.0;
    }

gcd_store-WrittenOnce :
    (d : Store) (gcd : ℕ) (notime : Bool)
    → WrittenOnce d.platform (gcd_store d gcd notime).platform
      × WrittenOnce d.notime (gcd_store d gcd notime).notime
unfolding gcd_store
gcd_store-WrittenOnce d gcd true = ground arith
gcd_store-WrittenOnce d gcd false = ground arith

settle-Quiet : (notime : Bool) (v : Verdict) → Quiet (settle notime v)
unfolding settle
settle-Quiet notime (Verdict.refused e) w = Change-refl w 0 0
settle-Quiet notime (Verdict.established gcd) w =
    let once = gcd_store-WrittenOnce w.gcd gcd notime in
    record {
      memory = refl;
      threads = refl;
      forced = Latched-refl w.forced;
      switch_blocked = Latched-refl w.switch_blocked;
      cb_blocked = Latched-refl w.process.cb_switch_blocked;
      platform = once.0;
      notime = once.1;
      handler = refl;
      notime_cpu = refl;
      fips_cb = refl;
    }

query-Quiet : (p : Powerup) → Quiet (query p)
unfolding query
query-Quiet p =
    Quiet-if (ltb 3 p.time_backwards) (pure 0) (health_failure_in p.machine.ec)
      (Quiet-pure {A = ℕ} 0) (health_failure_in-Change p.machine.ec)

conclude_with-Quiet : (p : Powerup) (failed : Option InitError) → Quiet (conclude_with p failed)
unfolding conclude_with
conclude_with-Quiet p (some e) = Quiet-pure (some e)
conclude_with-Quiet p none =
    Quiet-next (query p) _ (query-Quiet p)
      λ failure. settle-Quiet p.machine.ec.enable_notime (judge_powerup p failure)

pub conclude-Quiet : (p : Powerup) → Quiet (conclude p)
unfolding conclude
conclude-Quiet p = conclude_with-Quiet p p.failed

pub select_timer-Quiet : (flags : ℕ) → Quiet (select_timer flags)
unfolding select_timer notime_force
select_timer-Quiet flags =
    Quiet-if (flag_set flags force_internal_timer) (notime_force >>= λ r. pure flags)
      (pure (bit_or flags disable_internal_timer))
      (Quiet-next notime_force (λ r. pure flags)
        (latch-Quiet (λ w. true) (λ w. w.switch_blocked) (λ w. w.selftest_run) (λ w. inr refl)
          (λ w. Latched-refl w.switch_blocked))
        (λ r. Quiet-pure flags))
      (Quiet-pure (bit_or flags disable_internal_timer))
