-- ===== src/Init.antt =====
-- The initialization of the library, `jent_time_entropy_init` and `jent_entropy_init*` of
-- src/jitterentropy-base.c: the self tests, and a startup that measures a clock and establishes its
-- divisor.
--
-- The counting thread's own startup may run within the allocation of a collector; the startup that
-- allocates this collector is given it as an argument. The tests of a startup stop it at once. The
-- list holds the deltas that enter the analysis.
pub mod Changes
pub mod Parts
pub mod Entropy
use jitterentropy_library.Prelude.{
  ℕ, zero, suc, ◌+◌, ◌*◌, ◌/◌, Bool, true, false, not, Option, none, some, [], ◌∷◌, ◌++◌, List,
  ◌||◌, ◌&&◌,
}
use jitterentropy_library.Prelude.{bit_or, ltb, ◌==◌, if◌then◌else◌}
use jitterentropy_library.Collector.{
  RandData, Machine, measure_clock, max_osr, disable_internal_timer, force_internal_timer,
  force_fips, ntg1, rct_failure, rct_failure_permanent,
}
use jitterentropy_library.Config.{flag_set, update_secure_mem, memaccess_contradicts}
use jitterentropy_library.Gcd.{
  InitError, enotime, ecoarsetime, enomonotonic, estuck, ehealth, erct, ehash, emem, egcd, eprogerr,
  Verdict, gcd_verdict, gcd_store, gcd_selftest,
}
use jitterentropy_library.Health.Failure.{
  Process, health_failure, has, health_cb_block_switch, set_fips_failure_callback,
}
use jitterentropy_library.Noise.Measure.{Measured, measure_jitter}
use jitterentropy_library.Noise.Collect.{random_data_with}
use jitterentropy_library.Sha3.Selftest.{sha3_tester}
use jitterentropy_library.World
use jitterentropy_library.World.{
  Env, World, M, next, ◌>>=◌, ◌>>◌, pure, gets, modify, zalloc, zfree,
}
use jitterentropy_library.Powerup.{Powerup, judge_powerup, powerup}
use jitterentropy_library.Timer.{
  notime_block_switch, notime_force, notime_forced, notime_settick, notime_unsettick,
}
use jitterentropy_library.Alloc.{alloc_internal, collector_free, collector_free_opt}

-- `jent_selftest` bound to a collector: a failure puts it out of service, a pass brings it back.
unfoldable pub selftest : RandData → Option InitError × RandData
selftest ec =
    if sha3_tester
    then (some ehash, record ec { selftest_failed = true })
    else (none, record ec { selftest_failed = false })

-- A startup establishes the divisor of the clock that it measured, and only when it passes.
unfoldable pub settle : Bool → Verdict → M (Option InitError)
settle notime (Verdict.refused e) = pure (some e)
settle notime (Verdict.established gcd) = do
  modify λ w. record w { gcd = gcd_store w.gcd gcd notime }
  pure none

-- `jent_health_failure`, which may call back.
unfoldable pub health_failure_in : RandData → M ℕ
health_failure_in ec w =
    let (failure, process) = health_failure w.process ec in
    some (failure, record w { process = process })

-- The health tests' verdict is asked for where the clock has not run backwards too often.
unfoldable pub query : Powerup → M ℕ
unfolding health_failure_in
query p = if ltb 3 p.time_backwards then pure 0 else health_failure_in p.machine.ec

unfoldable pub conclude_with : Powerup → Option InitError → M (Option InitError)
conclude_with p (some e) = pure (some e)
conclude_with p none = do
  failure ← query p
  settle p.machine.ec.enable_notime (judge_powerup p failure)

unfoldable pub conclude : Powerup → M (Option InitError)
unfolding conclude_with
conclude p = conclude_with p p.failed

-- `jent_selftest_run`.
unfoldable pub mark_selftest : Bool → M (Unit {0})
mark_selftest mark = modify λ w. record w { selftest_run = mark }

-- Computations on the collector alone, run in the world.
unfoldable pub note_reads : {A : Type 0} → (A → Machine) → World → Option A → Option (A × World)
note_reads machine_of w none = none
note_reads machine_of w (some a) = some (a, record w { reads = (machine_of a).reads })

unfoldable pub run : {A : Type 0} → (Machine → Option A) → (A → Machine) → RandData → M A
unfolding note_reads
run f machine_of ec w = note_reads machine_of w (f (record { ec = ec; reads = w.reads }))

-- The choice of the clock in the flags; forcing the counting thread is one-way.
unfoldable pub select_timer : ℕ → M ℕ
select_timer flags =
    if flag_set flags force_internal_timer
    then (do notime_force; pure flags)
    else pure (bit_or flags disable_internal_timer)

module _ (env : Env) (fuel : ℕ) where
  -- The measurements on a collector whose thread runs.
  unfoldable pub measure_running : RandData → M (Option InitError × RandData)
  measure_running ec = do
    p ← run (powerup env fuel ec.enable_notime) (λ p. p.machine) ec
    ret ← conclude p
    pure (ret, p.machine.ec)

  -- A startup on a collector: an error or none, and the collector to release.
  unfoldable pub measured : RandData → M (Option InitError × RandData)
  measured ec = do
    ticking ← notime_settick env ec
    if ticking.0 then pure (some emem, ticking.1) else measure_running ticking.1

  unfoldable pub measure_allocated : Option RandData → M (Option InitError)
  measure_allocated none = pure (some emem)
  measure_allocated (some ec) = do
    ret ← measured ec
    stopped ← notime_unsettick ret.1
    collector_free stopped
    pure ret.0

  module _ (nested : ℕ → ℕ → M (Option InitError)) where
    -- No initialization runs within the allocation for a startup.
    unfoldable pub startup_alloc : ℕ → ℕ → M (Option RandData)
    startup_alloc osr flags =
        alloc_internal env nested (λ o f. pure none) osr
          (bit_or (bit_or flags force_fips) measure_clock)

    unfoldable pub measured_startup : ℕ → ℕ → M (Option InitError)
    unfolding measure_allocated
    measured_startup osr flags = do allocated ← startup_alloc osr flags; measure_allocated allocated

    -- An attempt at a clock that cannot be chosen any more is not made.
    unfoldable pub attempt : ℕ → Bool → ℕ → M (Option InitError)
    attempt osr forced flags =
        if forced && flag_set flags disable_internal_timer
        then pure (some enotime)
        else measured_startup osr flags

    -- Behind the request for the delta history.
    unfoldable pub judge_history : ℕ → ℕ → Bool → M (Option InitError)
    judge_history osr flags false = pure (some emem)
    judge_history osr flags true = do
      selected ← select_timer flags
      forced ← notime_forced
      ret ← attempt osr forced selected
      zfree
      pure ret

    unfoldable pub time_entropy_init_with : ℕ → ℕ → M (Option InitError)
    unfolding judge_history
    time_entropy_init_with osr flags = do ok ← zalloc env; judge_history osr flags ok

  -- `jent_time_entropy_init`. The startup within it is never reached.
  unfoldable pub time_entropy_init : ℕ → ℕ → M (Option InitError)
  time_entropy_init = time_entropy_init_with (λ osr flags w. none)

  -- Behind the request for the memory of the self test.
  unfoldable pub run_gcd_selftest : Bool → M (Option InitError)
  run_gcd_selftest true = do zfree; pure (gcd_selftest true)
  run_gcd_selftest false = pure (gcd_selftest false)

  unfoldable pub gcd_selftest_in : M (Option InitError)
  unfolding run_gcd_selftest
  gcd_selftest_in = do ok ← zalloc env; run_gcd_selftest ok

  unfoldable pub block_switches : M (Unit {0})
  block_switches = do
    notime_block_switch
    modify λ w. record w { process = health_cb_block_switch w.process }

  -- The verdict of the self tests.
  unfoldable pub selftests : M (Option InitError)
  selftests = if sha3_tester then pure (some ehash) else gcd_selftest_in

  -- A verdict that failed unmarks the process; one that passed does not mark it yet.
  unfoldable pub note_selftests : Option InitError → M (Option InitError)
  note_selftests none = pure none
  note_selftests (some e) = do mark_selftest false; pure (some e)

  unfoldable pub entropy_init_common_pre : M (Option InitError)
  unfolding note_selftests
  entropy_init_common_pre = do block_switches; ret ← selftests; note_selftests ret

  unfoldable pub entropy_init_common_post : Option InitError → M (Option InitError)
  entropy_init_common_post none = do mark_selftest true; pure none
  entropy_init_common_post (some e) = do mark_selftest false; pure (some e)

  -- The counting thread, behind an attempt at the platform clock.
  unfoldable pub fall_back : Bool → ℕ → ℕ → Option InitError → M (Option InitError)
  fall_back allowed osr flags none = pure none
  fall_back allowed osr flags (some e) =
      if allowed then time_entropy_init osr (bit_or flags force_internal_timer) else pure (some e)

  -- The platform clock first, unless the caller wants the other, then the counting thread.
  unfoldable pub choose_clock : ℕ → ℕ → M (Option InitError)
  unfolding fall_back
  choose_clock osr flags = do
    first ←
        if flag_set flags force_internal_timer
        then pure (some enotime)
        else time_entropy_init osr (bit_or flags disable_internal_timer)
    fall_back (not (flag_set flags (bit_or disable_internal_timer ntg1))) osr flags first

  unfoldable pub either_clock : ℕ → M (Option InitError)
  unfolding fall_back
  either_clock flags = do
    first ← time_entropy_init 0 (bit_or flags disable_internal_timer)
    fall_back true 0 flags first

  -- A startup by `measuring`, behind the verdict of the self tests.
  unfoldable pub measure_tested : M (Option InitError) → Option InitError → M (Option InitError)
  unfolding entropy_init_common_post
  measure_tested measuring (some e) = pure (some e)
  measure_tested measuring none = do ret ← measuring; entropy_init_common_post ret

  unfoldable pub entropy_init : M (Option InitError)
  unfolding measure_tested
  entropy_init = do
    pre ← entropy_init_common_pre
    measure_tested (either_clock (update_secure_mem env.fips 0)) pre

  -- Arguments that every allocation refuses.
  unfoldable pub init_contradicts : ℕ → ℕ → Bool
  init_contradicts osr flags =
      ltb max_osr osr
      || memaccess_contradicts env.fips flags
      || (flag_set flags disable_internal_timer && flag_set flags force_internal_timer)

  unfoldable pub init_checked : ℕ → ℕ → M (Option InitError)
  unfolding measure_tested
  init_checked osr flags = do
    pre ← entropy_init_common_pre
    measure_tested (choose_clock osr flags) pre

  unfoldable pub entropy_init_ex : ℕ → ℕ → M (Option InitError)
  entropy_init_ex osr given = do
    let flags = update_secure_mem env.fips given
    block_switches
    if init_contradicts osr flags
        then pure (some eprogerr)
        else if flag_set flags ntg1 && flag_set flags force_internal_timer
        then pure (some enotime)
        else init_checked osr flags
