-- ===== src/Noise/Collect.antt =====
-- The collection of one block of entropy, `jent_random_data` of src/jitterentropy-noise.c, and the
-- generation of output from the pool.
--
-- The loop over the measurements has no bound of its own, so it takes fuel, and `none` means that
-- the fuel ran out. The recovery loop of the health test with memory calls `jent_random_data`
-- again, with the recovery flag set, under which there is no third call.
use jitterentropy_library.Prelude.{ℕ, zero, suc, ◌+◌, ◌*◌, ◌/◌, true, false, ◌||◌}
use jitterentropy_library.Prelude.{Option, none, some, bit_or, ltb, leb, ◌==◌}
use jitterentropy_library.Prelude.{if◌then◌else◌, ◌>>=◌, List}
use jitterentropy_library.Collector.{
  RandData, Machine, StartupState, completed, sha3, memory, rct_mem_failure_permanent,
}
use jitterentropy_library.Config.{flag_set}
use jitterentropy_library.Collector.{ntg1}
use jitterentropy_library.Health.Failure.{health_failure_query}
use jitterentropy_library.Health.Stuck.{HealthInitType, health_init}
use jitterentropy_library.Noise.Measure.{
  Measured, measure_jitter, measure_jitter_ntg1_sha3, measure_jitter_ntg1_memaccess,
}
use jitterentropy_library.Sha3.Xdrbg.{xdrbg256_generate_block}

abbrev pub data_size_bits : ℕ
data_size_bits = 256

abbrev pub entropy_safety_factor : ℕ
entropy_safety_factor = 65

-- `JENT_ADJUSTED_MEASURE_JITTER_LOOP_CTR`, on 64 bits.
abbrev pub measure_jitter_loop_ctr : ℕ → ℕ → ℕ
measure_jitter_loop_ctr osr safety_factor = ((data_size_bits + safety_factor) * osr + 2) / 3 * 3

-- `ctr` measurements that were not stuck are done.
unfoldable pub collect : ℕ → (Machine → Option Measured) → ℕ → Machine → Option Machine
collect zero measure ctr m = none
collect (suc fuel) measure ctr m =
    let next = (do
      measured ← measure m
      let again = collect fuel measure ctr measured.2
      let more = collect fuel measure (ctr + 1) measured.2
      if measured.0
          then again
          else if leb measured.2.ec.rct_mem.nosr (ctr + 1)
          then some measured.2
          else more) in
    if health_failure_query m.ec == 0 then next else some m

-- The measurements that a block takes, those that are stuck not counted.
unfoldable pub samples_wanted : RandData → ℕ
samples_wanted ec =
    measure_jitter_loop_ctr ec.osr (if ec.is_fips_enabled then entropy_safety_factor else 0)

-- A number of measurements that does not fit is a permanent failure.
unfoldable pub refuse_block : Machine → Machine
refuse_block m = record m {
  ec = record (m.ec) {
    rct_mem = record (m.ec.rct_mem) { ctr = 0 };
    health_failure = bit_or m.ec.health_failure rct_mem_failure_permanent;
  };
}

-- The window of the health test with memory is opened anew.
unfoldable pub open_window : Machine → ℕ → Machine
open_window m nosr = record m {
  ec = record (m.ec) { rct_mem = record (m.ec.rct_mem) { ctr = 0; nosr = nosr } };
}

unfoldable pub random_data_one : ℕ → (Machine → Option Measured) → Machine → Option Machine
random_data_one fuel measure m =
    let nosr = samples_wanted m.ec in
    if ltb 65535 nosr || ltb nosr data_size_bits
    then some (refuse_block m)
    else collect fuel measure 0 (open_window m nosr)

-- The health tests start anew behind a startup stage.
unfoldable pub finish_stage : StartupState → Machine → Machine
finish_stage next m =
    let staged = record (m.ec) { startup_state = next } in
    let inittype =
      if flag_set m.ec.flags ntg1 then HealthInitType.ntg1 else HealthInitType.common in
    record m { ec = (health_init staged inittype).1 }

module _ (clock : ℕ → ℕ) (recovery : Machine → Option Machine) (fuel : ℕ) where
  unfoldable pub memory_stage : Machine → Option Machine
  memory_stage m = do
    sampled ← random_data_one fuel (measure_jitter_ntg1_memaccess clock recovery 0 true) m
    some (finish_stage sha3 sampled)

  unfoldable pub sha3_stage : Machine → Option Machine
  sha3_stage m = do
    sampled ← random_data_one fuel (measure_jitter_ntg1_sha3 clock recovery 0 true) m
    some (finish_stage completed sampled)

  unfoldable pub normal_block : Machine → Option Machine
  normal_block m = do
    primed ← measure_jitter clock recovery 0 false m
    random_data_one fuel (measure_jitter clock recovery 0 true) primed.2

  -- The switch on the startup state, the first stage falling through to the second.
  unfoldable pub random_data_from : StartupState → Machine → Option Machine
  random_data_from memory m = do m' ← memory_stage m; sha3_stage m'
  random_data_from sha3 m = sha3_stage m
  random_data_from completed m = normal_block m

  unfoldable pub random_data_with : Machine → Option Machine
  random_data_with m = random_data_from m.ec.startup_state m

-- `jent_random_data`.
unfoldable pub random_data : (ℕ → ℕ) → ℕ → Machine → Option Machine
random_data clock fuel = random_data_with clock (random_data_with clock (λ m. none) fuel) fuel

unfoldable pub read_random_block : RandData → ℕ → RandData × List ℕ
read_random_block ec dst_len =
    let (ctx, out) = xdrbg256_generate_block ec.hash_state dst_len in
    (record ec { hash_state = ctx }, out)
