-- ===== src/Reset.antt =====
-- The startup of a collector and its replacement when a health test has failed:
-- `jent_entropy_collector_startup`, `jent_health_failure_reset` and `jent_entropy_collector_alloc*`
-- of src/jitterentropy-base.c.
--
-- A reset gives the replacement, the old collector released, or nothing, the old one left to the
-- caller. The reset of a startup runs no startup itself, so the two are functions one above the
-- other.
pub mod Taken
pub mod Changes
pub mod Startup
pub mod Continued
pub mod Heir
pub mod Successor
use jitterentropy_library.Prelude.{
  ℕ, zero, suc, ◌+◌, ◌-◌, Bool, true, false, not, Option, none, some, [], ◌∷◌, ◌++◌, List, ◌||◌,
}
use jitterentropy_library.Prelude.{bit_or, bit_and, ltb, ◌==◌, if◌then◌else◌, u32, ◌^◌}
use jitterentropy_library.Collector.{
  RandData, Machine, StartupState, completed, sha3, memory, measure_clock, max_osr,
  disable_internal_timer, force_internal_timer,
}
use jitterentropy_library.Config.{
  update_secure_mem, memaccess_contradicts, update_memsize, update_hashloop,
}
use jitterentropy_library.Gcd.{InitError}
use jitterentropy_library.Health.Failure.{Error}
use jitterentropy_library.Health.Stuck.{health_duplicate}
use jitterentropy_library.Noise.Collect.{random_data}
use jitterentropy_library.World.{Env, World, M, next, ◌>>=◌, ◌>>◌, pure, gets, modify}
use jitterentropy_library.Timer.{ask, notime_settick, notime_unsettick}
use jitterentropy_library.Alloc.{alloc_internal, collector_free, fail}
use jitterentropy_library.Init.{
  run, health_failure_in, time_entropy_init, entropy_init_ex, entropy_init_common_pre,
}

unfoldable pub is_completed : StartupState → Bool
is_completed completed = true
is_completed sha3 = false
is_completed memory = false

-- The flags of a replacement: the clock of a compliant collector is pinned, the memory grows unless
-- the caller has set it, and the hash loop grows.
unfoldable pub reset_flags : (Bool → ℕ) → RandData → ℕ
reset_flags cache_size ec =
    let pinned =
      if ec.is_fips_enabled
      then bit_or ec.flags
          (if ec.enable_notime then force_internal_timer else disable_internal_timer)
      else ec.flags in
    update_hashloop (if ec.max_mem_set then pinned else update_memsize cache_size pinned 1) 1

-- What the replacement takes over from the old collector.
unfoldable pub carry_over : RandData → RandData → RandData
carry_over old new_ec = record new_ec {
  max_mem_set = old.max_mem_set;
  uuid = old.uuid;
  reinit_count = u32 (old.reinit_count + 1);
  read_invocations = old.read_invocations;
  bytes_output = old.bytes_output;
}

-- A step with the collector, if there is one.
unfoldable pub if_some : (RandData → M (Option RandData)) → Option RandData → M (Option RandData)
if_some then_do none = pure none
if_some then_do (some ec) = then_do ec

module _ (env : Env) (fuel : ℕ) where
  -- `jent_entropy_collector_alloc_internal`.
  unfoldable pub alloc_ready : ℕ → ℕ → M (Option RandData)
  alloc_ready = alloc_internal env (time_entropy_init env fuel) (entropy_init_ex env fuel)

  -- Behind an initialization at the oversampling rate `osr`: the rate that passed.
  unfoldable pub climb_on : M (Option ℕ) → ℕ → Option InitError → M (Option ℕ)
  climb_on higher osr none = pure (some osr)
  climb_on higher osr (some e) = if ltb max_osr (osr + 1) then pure none else higher

  -- The initialization with a growing oversampling rate.
  unfoldable pub climb : ℕ → ℕ → ℕ → M (Option ℕ)
  unfolding climb_on
  climb zero osr flags = pure none
  climb (suc left) osr flags = do
    failed ← entropy_init_ex env fuel osr flags
    climb_on (climb left (osr + 1) flags) osr failed

  -- The replacement takes over what remains valid, and the old collector goes.
  unfoldable pub replace : RandData → RandData → M (Option RandData)
  replace old new_ec = do collector_free old; pure (some (health_duplicate new_ec old))

  module _ (startup : RandData → M (Option RandData)) where
    unfoldable pub reset_with_new : RandData → RandData → M (Option RandData)
    reset_with_new old new_ec = do
      started ← startup (carry_over old new_ec)
      if_some (replace old) started

    unfoldable pub reset_at : RandData → ℕ → Option ℕ → M (Option RandData)
    reset_at old flags none = pure none
    reset_at old flags (some osr) = do
      allocated ← alloc_ready osr flags
      if_some (reset_with_new old) allocated

    -- `jent_health_failure_reset`, by the startup that it runs.
    unfoldable pub reset_with : RandData → M (Option RandData)
    unfolding reset_at
    reset_with ec = if ltb max_osr (ec.osr + 1) then pure none else (do
      climbed ← climb max_osr (ec.osr + 1) (reset_flags env.cache_size ec)
      reset_at ec (reset_flags env.cache_size ec) climbed)

  -- The reset within a startup.
  unfoldable pub reset_quietly : RandData → M (Option RandData)
  reset_quietly = reset_with (λ ec. pure (some ec))

  unfoldable pub collect_in : RandData → M RandData
  collect_in ec = do m ← run (random_data (env.clock ec.enable_notime) fuel) (λ m. m) ec; pure m.ec

  -- The thread of a collector starts, or the collector goes.
  unfoldable pub start_or_free : (RandData → M (Option RandData)) → RandData → M (Option RandData)
  start_or_free then_do ec = do
    ticking ← notime_settick env ec
    if ticking.0 then fail ticking.1 else then_do ticking.1

  -- Behind the reset of a startup.
  unfoldable pub restart :
      (RandData → M (Option RandData)) → RandData → Option RandData → M (Option RandData)
  restart then_do old none = fail old
  restart then_do old (some new_ec) = start_or_free then_do new_ec

  -- What follows a collection of the startup: the collector goes on, or its replacement.
  unfoldable pub mend : (RandData → M (Option RandData)) → RandData → ℕ → M (Option RandData)
  unfolding restart
  mend then_do ec failure =
      if failure == 0
      then then_do ec
      else (do replaced ← reset_quietly ec; restart then_do ec replaced)

  unfoldable pub finish_startup : RandData → M (Option RandData)
  finish_startup ec = do stopped ← notime_unsettick ec; pure (some stopped)

  -- The condition of the loop.
  unfoldable pub startup_again : (RandData → M (Option RandData)) → RandData → M (Option RandData)
  startup_again again ec = if is_completed ec.startup_state then finish_startup ec else again ec

  unfoldable pub startup_loop : ℕ → RandData → M (Option RandData)
  startup_loop zero ec = λ w. none
  startup_loop (suc rounds) ec = do
    collected ← collect_in ec
    failure ← health_failure_in collected
    mend (startup_again (startup_loop rounds)) collected failure

  unfoldable pub collector_startup : RandData → M (Option RandData)
  collector_startup = start_or_free (startup_loop fuel)

  unfoldable pub health_failure_reset : RandData → M (Option RandData)
  health_failure_reset = reset_with collector_startup

  -- The identifier is drawn once.
  unfoldable pub assign_uuid : RandData → M (Option RandData)
  assign_uuid ec = do uuid ← ask env.uuid; pure (some (record ec { uuid = uuid }))

  unfoldable pub startup_and_uuid : RandData → M (Option RandData)
  startup_and_uuid ec = do started ← collector_startup ec; if_some assign_uuid started

  -- `_jent_entropy_collector_alloc`.
  unfoldable pub collector_alloc_flags : ℕ → ℕ → M (Option RandData)
  collector_alloc_flags osr flags = if memaccess_contradicts env.fips flags then pure none else (do
    allocated ← alloc_ready osr (update_secure_mem env.fips flags)
    if_some startup_and_uuid allocated)

  unfoldable pub collector_alloc : ℕ → ℕ → M (Option RandData)
  collector_alloc osr flags = collector_alloc_flags osr (bit_and flags (2 ^ 32 - 1 - measure_clock))

  -- Behind the self tests of a recording.
  unfoldable pub alloc_raw_tested : ℕ → ℕ → Option InitError → M (Option RandData)
  alloc_raw_tested osr flags (some e) = pure none
  alloc_raw_tested osr flags none =
      alloc_ready osr (bit_or (update_secure_mem env.fips flags) measure_clock)

  -- The raw collector of a recording.
  unfoldable pub collector_alloc_raw : ℕ → ℕ → M (Option RandData)
  unfolding alloc_raw_tested
  collector_alloc_raw osr flags =
      if memaccess_contradicts env.fips flags
      then pure none
      else (do failed ← entropy_init_common_pre env fuel; alloc_raw_tested osr flags failed)
