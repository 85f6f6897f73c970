-- ===== src/Health/Stuck.antt =====
-- The stuck test, the insertion of time stamps, and the start and the copy of the health state,
-- src/jitterentropy-health.c.
pub mod Start
pub mod Derivatives
pub mod Kept
use jitterentropy_library.Prelude.{ℕ, ◌-◌, ◌/◌, Bool, true, false, ◌||◌, Option, some}
use jitterentropy_library.Prelude.{ltb, ◌==◌, if◌then◌else◌, ◌>>=◌, bool_eq}
use jitterentropy_library.Collector.{RandData, Machine, max_osr}
use jitterentropy_library.Health.Cutoffs.{lag_init, apt_init, apt_init_ntg1, rct_init}
use jitterentropy_library.Health.Cutoffs.{rct_mem_init, rct_mem_init_ntg1}
use jitterentropy_library.Health.Rct.{rct_insert, rct_duplicate}
use jitterentropy_library.Health.Apt.{apt_insert, apt_reset, apt_duplicate}
use jitterentropy_library.Health.Lag.{lag_insert, lag_reset, lag_duplicate, delta, delta2, delta3}
use jitterentropy_library.Health.RctMem.{rct_mem_insert, rct_mem_duplicate}

abbrev pub stuck_prime_init : ℕ
stuck_prime_init = 2

-- The verdict on a delta: it or one of the higher differences is zero.
unfoldable pub is_stuck : RandData → ℕ → Bool
is_stuck ec current_delta =
    let second = delta2 ec.lag current_delta in
    current_delta == 0 || second == 0 || delta3 ec.lag second == 0

-- The tests that a judged measurement passes through before the one with memory.
unfoldable pub insert_judged : RandData → ℕ → Bool → RandData
insert_judged ec current_delta stuck =
    rct_insert (lag_insert (apt_insert ec current_delta) current_delta) stuck

module _ (random_data : Machine → Option Machine) where
  -- `jent_stuck`. While the reference is primed the measurement only enters the lag history.
  unfoldable pub jent_stuck : Machine → ℕ → Option (Bool × Machine)
  jent_stuck m current_delta =
      let stuck = is_stuck m.ec current_delta in
      if m.ec.stuck_prime == 0
      then (do
        inserted ←
            rct_mem_insert random_data (record m { ec = insert_judged m.ec current_delta stuck })
              stuck
        some (stuck, inserted))
      else (let primed = record (m.ec) { stuck_prime = m.ec.stuck_prime - 1 } in
          some (true, record m { ec = lag_insert primed current_delta }))

  unfoldable pub health_insert_timestamp : Machine → ℕ → Option (Bool × Machine)
  health_insert_timestamp m timestamp =
      let gcd = if m.ec.common_timer_gcd == 0 then 1 else m.ec.common_timer_gcd in
      let current_delta = delta m.ec.prev_time timestamp / gcd in
      jent_stuck (record m { ec = record (m.ec) { prev_time = timestamp } }) current_delta

pub data HealthInitType : Type 0 where
  common ntg1 : HealthInitType

-- The cutoffs of the two startup types.
unfoldable pub health_init_cutoffs : RandData → HealthInitType → RandData
health_init_cutoffs ec ntg1 = record ec {
  apt = apt_init_ntg1 ec.apt ec.osr;
  rct = rct_init ec.rct ec.osr 8;
  rct_mem = rct_mem_init_ntg1 ec.rct_mem ec.osr;
}
health_init_cutoffs ec common = record ec {
  apt = apt_init ec.apt ec.osr;
  rct = rct_init ec.rct ec.osr 0;
  rct_mem = rct_mem_init ec.rct_mem ec.osr;
}

-- `jent_health_init`: `false` for the nonzero return, where only the repetition count is reset.
unfoldable pub health_init : RandData → HealthInitType → Bool × RandData
health_init ec inittype =
    let cleared = record ec { rct = record (ec.rct) { count = 0 } } in
    if ec.osr == 0 || ltb max_osr ec.osr
    then (false, cleared)
    else (let started = record cleared {
      apt = apt_reset cleared.apt;
      lag = lag_init (lag_reset cleared.lag) ec.osr;
      stuck_prime = stuck_prime_init;
    } in
        (true, health_init_cutoffs started inittype))

-- The adaptive proportion test and the lag predictor are carried over on the same clock only.
unfoldable pub health_duplicate : RandData → RandData → RandData
health_duplicate new_ec old_ec =
    let counted = record new_ec {
      rct = rct_duplicate new_ec.rct;
      rct_mem = rct_mem_duplicate new_ec.rct_mem old_ec.rct_mem;
    } in
    if bool_eq new_ec.enable_notime old_ec.enable_notime
    then record counted {
      apt = apt_duplicate counted.apt old_ec.apt;
      lag = lag_duplicate counted.lag old_ec.lag;
    }
    else counted
