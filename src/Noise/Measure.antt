-- ===== src/Noise/Measure.antt =====
-- The three measurements of src/jitterentropy-noise.c. Each takes the loop count and whether the
-- health tests are run, and gives the verdict of the stuck test, the delta and the new state.
use jitterentropy_library.Prelude.{ℕ, ◌+◌, ◌*◌, ◌/◌, Bool, true, false, Option, some}
use jitterentropy_library.Prelude.{u32, set, replicate, List, ◌==◌, if◌then◌else◌, ◌>>=◌}
use jitterentropy_library.Collector.{Machine, sha3_256_size_block}
use jitterentropy_library.Health.Lag.{delta}
use jitterentropy_library.Health.Stuck.{jent_stuck}
use jitterentropy_library.Noise.Sources.{
  hash_insert, hash_loop, memaccess_pseudorandom, memaccess_deterministic, offset_domainseparator,
}

abbrev pub mem_acc_loop_init : ℕ
mem_acc_loop_init = 3

abbrev pub hash_loop_init : ℕ
hash_loop_init = 3

abbrev pub Measured : Type 0
Measured = Bool × ℕ × Machine

abbrev pub blank_intermediary : List ℕ
blank_intermediary = replicate sha3_256_size_block 0

-- The health tests, unless the caller leaves them out.
unfoldable pub check_stuck :
    (Machine → Option Machine) → Bool → Machine → ℕ → Option (Bool × Machine)
check_stuck random_data true m current_delta = jent_stuck random_data m current_delta
check_stuck random_data false m current_delta = some (false, m)

-- The delta goes into the pool under the separator of its noise source.
unfoldable pub insert_delta : Machine → ℕ → List ℕ → ℕ → Machine
insert_delta m current_delta intermediary separator = record m {
  ec = hash_insert m.ec current_delta (set intermediary offset_domainseparator separator);
}

module _ (clock : ℕ → ℕ) (random_data : Machine → Option Machine) where
  unfoldable pub measure_jitter_ntg1_memaccess : ℕ → Bool → Machine → Option Measured
  measure_jitter_ntg1_memaccess loop_cnt health m =
      let loops =
        if loop_cnt == 0 then u32 (m.ec.memaccessloops * mem_acc_loop_init) else loop_cnt in
      let (current_delta, accessed) = memaccess_deterministic clock m loops in
      do
        checked ← check_stuck random_data health accessed current_delta
        some
            (checked.0, current_delta, insert_delta checked.1 current_delta blank_intermediary 0x01)

  unfoldable pub measure_jitter_ntg1_sha3 : ℕ → Bool → Machine → Option Measured
  measure_jitter_ntg1_sha3 loop_cnt health m =
      let started = record m {
        ec = record (m.ec) { prev_time = clock m.reads };
        reads = m.reads + 2;
      } in
      let loops = if loop_cnt == 0 then u32 (m.ec.hashloopcnt * hash_loop_init) else loop_cnt in
      let intermediary = hash_loop started.ec blank_intermediary loops in
      let current_delta =
        delta started.ec.prev_time (clock (m.reads + 1)) / m.ec.common_timer_gcd in
      do
        checked ← check_stuck random_data health started current_delta
        some (checked.0, current_delta, insert_delta checked.1 current_delta intermediary 0x02)

  unfoldable pub measure_jitter : ℕ → Bool → Machine → Option Measured
  measure_jitter loop_cnt health m =
      let accessed = memaccess_pseudorandom clock m loop_cnt in
      let time_now = clock accessed.reads in
      let current_delta = delta accessed.ec.prev_time time_now / accessed.ec.common_timer_gcd in
      let timed = record accessed {
        ec = record (accessed.ec) { prev_time = time_now };
        reads = accessed.reads + 1;
      } in
      do
        checked ← check_stuck random_data health timed current_delta
        let intermediary = hash_loop checked.1.ec blank_intermediary loop_cnt
        some (checked.0, current_delta, insert_delta checked.1 current_delta intermediary 0x03)
