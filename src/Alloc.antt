-- ===== src/Alloc.antt =====
-- The allocation of a collector without its startup and the release of one:
-- `jent_entropy_collector_alloc_internal` and `jent_entropy_collector_free` of
-- src/jitterentropy-base.c.
--
-- The initialization that the allocation may have to run, and the startup that the timer thread may
-- have to run, are arguments. The region of memory is there exactly if `memmask` is not zero.
pub mod Released
pub mod Changes
pub mod Built
pub mod Ready
use jitterentropy_library.Prelude.{
  ℕ, ◌+◌, ◌-◌, ◌^◌, Bool, true, false, not, Option, none, some, [], List, ◌||◌, ◌&&◌,
}
use jitterentropy_library.Prelude.{bit_or, ltb, ◌==◌, if◌then◌else◌, replicate}
use jitterentropy_library.Collector.{
  RandData, Rct, Apt, RctMem, Lag, StartupState, memory, completed, measure_clock, max_osr,
  disable_memory_access, disable_internal_timer, force_internal_timer, force_fips, ntg1,
}
use jitterentropy_library.Config.{
  flag_set, ensure_osr_is_at_least_minimal, update_memsize, jent_memsize, update_hashloop,
  hashloop_cnt, flags_to_max_memsize,
}
use jitterentropy_library.Gcd.{InitError, gcd_get}
use jitterentropy_library.Health.Stuck.{HealthInitType, health_init}
use jitterentropy_library.Sha3.Selftest.{blank}
use jitterentropy_library.Sha3.Sponge.{shake256_init}
use jitterentropy_library.World.{Env, World, M, next, ◌>>=◌, ◌>>◌, pure, gets, zalloc, zfree}
use jitterentropy_library.Timer.{NotimeError, notime_enable, notime_unsettick, notime_disable}

abbrev pub mem_acc_loop_default : ℕ
mem_acc_loop_default = 128

unfoldable pub zeroed : ℕ → List ℕ
zeroed n = replicate n 0

abbrev pub zero_lag : Lag
zero_lag = record {
  global_cutoff = 0;
  global_cutoff_permanent = 0;
  local_cutoff = 0;
  local_cutoff_permanent = 0;
  prediction_success_count = 0;
  prediction_success_run = 0;
  best_predictor = 0;
  observations = 0;
  delta_history = replicate 8 0;
  scoreboard = replicate 8 0;
}

-- What `jent_zalloc` gives for a collector.
abbrev pub zero_data : RandData
zero_data = record {
  hash_state = blank;
  prev_time = 0;
  flags = 0;
  osr = 0;
  uuid = replicate 16 0;
  reinit_count = 0;
  read_invocations = 0;
  bytes_output = 0;
  startup_state = completed;
  mem = [];
  memmask = 0;
  memlocation = 0;
  memaccessloops = 0;
  hashloopcnt = 0;
  rct = record { count = 0; cutoff = 0; cutoff_permanent = 0 };
  apt = record {
    cutoff = 0;
    cutoff_permanent = 0;
    observations = 0;
    count = 0;
    base = 0;
    base_set = false;
  };
  health_failure = 0;
  rct_mem = record { ctr = 0; nosr = 0; count = 0; cutoff = 0; cutoff_permanent = 0 };
  selftest_failed = false;
  is_fips_enabled = false;
  enable_notime = false;
  notime_running = false;
  notime_thread_ctx = false;
  max_mem_set = false;
  in_recovery = false;
  stuck_prime = 0;
  common_timer_gcd = 0;
  lag = zero_lag;
}

-- The size of the memory region as the release takes it.
unfoldable pub free_mem : RandData → M (Unit {0})
free_mem ec = if ec.memmask == 0 then pure tt else zfree

unfoldable pub collector_free : RandData → M (Unit {0})
collector_free ec = do
  stopped ← notime_unsettick ec
  disabled ← notime_disable stopped
  free_mem disabled
  zfree

-- The release of what may be null.
unfoldable pub collector_free_opt : Option RandData → M (Unit {0})
collector_free_opt none = pure tt
collector_free_opt (some ec) = collector_free ec

unfoldable pub is_failure : {A : Type 0} → Option A → Bool
is_failure none = false
is_failure (some e) = true

-- The flags that no collector can have together.
unfoldable pub timer_contradicts : ℕ → Bool
timer_contradicts flags =
    flag_set flags (bit_or disable_internal_timer ntg1) && flag_set flags force_internal_timer

-- The configuration of a collector whose memory is in place.
unfoldable pub configure : Bool → ℕ → ℕ → RandData → RandData
configure fips osr flags ec =
    let looped = update_hashloop flags 0 in
    let compliant = flag_set looped force_fips || fips || flag_set looped ntg1 in
    record ec {
      hashloopcnt = hashloop_cnt looped;
      hash_state = shake256_init ec.hash_state;
      startup_state = if compliant then memory else ec.startup_state;
      is_fips_enabled = if compliant then true else ec.is_fips_enabled;
      osr = osr;
      flags = looped;
    }

unfoldable pub health_type : ℕ → HealthInitType
health_type flags = if flag_set flags ntg1 then HealthInitType.ntg1 else HealthInitType.common

-- The region and its mask.
unfoldable pub set_region : RandData → ℕ → RandData
set_region ec memsize = record ec {
  mem = zeroed memsize;
  memmask = memsize - 1;
  memaccessloops = mem_acc_loop_default;
}

abbrev pub fail : RandData → M (Option RandData)
fail ec = do collector_free ec; pure none

-- The divisor of the clock that the collector reads.
unfoldable pub give_gcd : RandData → Option ℕ → M (Option RandData)
give_gcd ec (some divisor) = pure (some (record ec { common_timer_gcd = divisor }))
give_gcd ec none =
    if flag_set ec.flags measure_clock
    then pure (some (record ec { common_timer_gcd = 1 }))
    else fail ec

unfoldable pub set_gcd : RandData → M (Option RandData)
unfolding give_gcd
set_gcd ec = do divisor ← gets λ w. gcd_get w.gcd ec.enable_notime; give_gcd ec divisor

-- Behind the choice of the clock.
unfoldable pub judge_clock : Option NotimeError → RandData → M (Option RandData)
judge_clock none ec = set_gcd ec
judge_clock (some e) ec = fail ec

module _ (env : Env) (time_entropy_init : ℕ → ℕ → M (Option InitError)) where
  -- The clock of the collector.
  unfoldable pub set_clock : RandData → M (Option RandData)
  set_clock ec = if flag_set ec.flags disable_internal_timer then set_gcd ec else (do
    enabled ←
        notime_enable env (time_entropy_init ec.osr (bit_or ec.flags force_internal_timer)) ec
          ec.flags
    judge_clock enabled.0 enabled.1)

  -- The health tests and the clock of a configured collector.
  unfoldable pub set_up : RandData → M (Option RandData)
  set_up ec =
      let started = health_init ec (health_type ec.flags) in
      if started.0 then set_clock started.1 else fail started.1

  -- Behind the request for the memory region.
  unfoldable pub judge_memory : ℕ → ℕ → RandData → Bool → M (Option RandData)
  judge_memory osr flags ec true =
      set_up (configure env.fips osr flags (set_region ec (jent_memsize flags)))
  judge_memory osr flags ec false = fail ec

  -- A collector with its memory region, unless it is to have none.
  unfoldable pub set_memory : ℕ → ℕ → RandData → M (Option RandData)
  unfolding judge_memory
  set_memory osr flags ec =
      if flag_set flags disable_memory_access
      then set_up (configure env.fips osr flags ec)
      else (do ok ← zalloc env; judge_memory osr (update_memsize env.cache_size flags 0) ec ok)

  -- Behind the request for the collector: whether the caller has set a memory size is recorded.
  unfoldable pub judge_data : ℕ → ℕ → Bool → M (Option RandData)
  judge_data osr flags true =
      set_memory osr flags
        (record zero_data { max_mem_set = not (flags_to_max_memsize flags == 0) })
  judge_data osr flags false = pure none

  unfoldable pub alloc_flagged : ℕ → ℕ → M (Option RandData)
  unfolding judge_data
  alloc_flagged osr flags = do
    forced ← gets λ w. w.forced
    if forced && flag_set flags disable_internal_timer
        then pure none
        else (do ok ← zalloc env; judge_data osr flags ok)

  -- Whether an initialization is needed and does not pass.
  unfoldable pub init_refuses : (ℕ → ℕ → M (Option InitError)) → ℕ → ℕ → M Bool
  init_refuses entropy_init_ex osr flags = do
    run ← gets λ w. w.selftest_run
    if flag_set flags measure_clock || run
        then pure false
        else (do failed ← entropy_init_ex osr flags; pure (is_failure failed))

  -- Behind the initialization. Under NTG.1 the internal timer is disabled.
  unfoldable pub alloc_tested : ℕ → ℕ → Bool → M (Option RandData)
  alloc_tested osr flags true = pure none
  alloc_tested osr flags false =
      alloc_flagged osr (if flag_set flags ntg1 then bit_or flags disable_internal_timer else flags)

  unfoldable pub alloc_internal : (ℕ → ℕ → M (Option InitError)) → ℕ → ℕ → M (Option RandData)
  unfolding alloc_tested
  alloc_internal entropy_init_ex osr flags =
      let enough = ensure_osr_is_at_least_minimal osr in
      if timer_contradicts flags || ltb max_osr enough then pure none else (do
        refused ← init_refuses entropy_init_ex enough flags
        alloc_tested enough flags refused)
