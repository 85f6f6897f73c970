-- ===== src/Noise/Kept.antt =====
-- What no measurement and no collection changes: the configuration, and failures that are recorded.
use jitterentropy_library.Prelude.{ℕ, Bool, true, false, List, Option, some, arith}
use jitterentropy_library.Prelude.{Ends, Ends-bind, ◌==◌, ◌+◌, ◌*◌, ◌>>=◌, u32, if◌then◌else◌}
use jitterentropy_library.Collector.{RandData, Machine, StartupState}
use jitterentropy_library.Health.Stuck.{
  HealthInitType, common, ntg1, health_init, health_init_cutoffs,
}
use jitterentropy_library.Health.Stuck.Kept.{Kept, Kept-refl, Kept-trans, Keeps, jent_stuck-Kept}
use jitterentropy_library.Noise.Sources.{
  hash_insert, hash_loop, memaccess_pseudorandom, memaccess_deterministic,
}
use jitterentropy_library.Noise.Measure.{
  Measured, blank_intermediary, check_stuck, insert_delta, measure_jitter_ntg1_memaccess,
  measure_jitter_ntg1_sha3, measure_jitter,
}
use jitterentropy_library.Noise.Collect.{finish_stage}

pub insert_delta-Kept :
    (m : Machine) (delta : ℕ) (intermediary : List ℕ) (separator : ℕ)
    → Kept m.ec (insert_delta m delta intermediary separator).ec
unfolding insert_delta hash_insert
insert_delta-Kept m delta intermediary separator = grind arith

pub health_init-Kept :
    (ec : RandData) (inittype : HealthInitType) → Kept ec (health_init ec inittype).1
unfolding health_init health_init_cutoffs
health_init-Kept ec common = grind arith
health_init-Kept ec ntg1 = grind arith

pub finish_stage-Kept : (next : StartupState) (m : Machine) → Kept m.ec (finish_stage next m).ec
unfolding finish_stage
finish_stage-Kept next m =
    Kept-trans m.ec (record (m.ec) { startup_state = next }) _ (state-Kept m.ec next)
      (health_init-Kept (record (m.ec) { startup_state = next }) _)
  where
    state-Kept :
        (ec : RandData) (next : StartupState) → Kept ec (record ec { startup_state = next })
    state-Kept ec next = grind arith

pub time-Kept : (ec : RandData) (time : ℕ) → Kept ec (record ec { prev_time = time })
time-Kept ec time = grind arith

module _ (clock : ℕ → ℕ) where
  pub memaccess_pseudorandom-Kept :
      (m : Machine) (loop_cnt : ℕ) → Kept m.ec (memaccess_pseudorandom clock m loop_cnt).ec
  unfolding memaccess_pseudorandom
  memaccess_pseudorandom-Kept m loop_cnt = grind arith

  memaccess_deterministic-Kept :
      (m : Machine) (loop_cnt : ℕ) → Kept m.ec (memaccess_deterministic clock m loop_cnt).1.ec
  unfolding memaccess_deterministic
  memaccess_deterministic-Kept m loop_cnt = grind arith

  module _ (recovery : Machine → Option Machine) (keeps : Keeps recovery) where
    check_stuck-Kept :
        (health : Bool) (m : Machine) (delta : ℕ)
        → Ends (λ after. Kept m.ec after.1.ec) (check_stuck recovery health m delta)
    unfolding check_stuck
    check_stuck-Kept true m delta = jent_stuck-Kept recovery keeps m delta
    check_stuck-Kept false m delta = Kept-refl m.ec

    -- A measurement ends with the stuck test and the insertion of the delta.
    tested-Kept :
        (health : Bool) (m timed : Machine) (delta : ℕ) (intermediary : Machine → List ℕ)
        (separator : ℕ)
        → Kept m.ec timed.ec
        → Ends
            (λ (after : Measured). Kept m.ec after.2.ec)
            (do
              checked ← check_stuck recovery health timed delta
              some (
                checked.0,
                delta,
                insert_delta checked.1 delta (intermediary checked.1) separator,
              ))
    tested-Kept health m timed delta intermediary separator kept =
        Ends-bind (λ after. Kept timed.ec after.1.ec) (λ (after : Measured). Kept m.ec after.2.ec)
          (check_stuck recovery health timed delta) _ (check_stuck-Kept health timed delta)
          λ checked p. Kept-trans m.ec timed.ec _ kept (
            Kept-trans timed.ec checked.1.ec _ p
              (insert_delta-Kept checked.1 delta (intermediary checked.1) separator))

    pub measure_jitter-Kept :
        (loop_cnt : ℕ) (health : Bool) (m : Machine)
        → Ends
            (λ (after : Measured). Kept m.ec after.2.ec)
            (measure_jitter clock recovery loop_cnt health m)
    unfolding measure_jitter
    measure_jitter-Kept loop_cnt health m =
        tested-Kept health m timed _ (λ x. hash_loop x.ec blank_intermediary loop_cnt) 0x03
          (Kept-trans m.ec accessed.ec timed.ec (memaccess_pseudorandom-Kept m loop_cnt)
            (time-Kept accessed.ec _))
      where
        accessed : Machine
        accessed = memaccess_pseudorandom clock m loop_cnt

        timed : Machine
        timed = record accessed {
          ec = record (accessed.ec) { prev_time = clock accessed.reads };
          reads = accessed.reads + 1;
        }

    pub measure_jitter_ntg1_sha3-Kept :
        (loop_cnt : ℕ) (health : Bool) (m : Machine)
        → Ends
            (λ (after : Measured). Kept m.ec after.2.ec)
            (measure_jitter_ntg1_sha3 clock recovery loop_cnt health m)
    unfolding measure_jitter_ntg1_sha3
    measure_jitter_ntg1_sha3-Kept loop_cnt health m =
        tested-Kept health m started _
          (λ x.
            hash_loop started.ec blank_intermediary
              (if loop_cnt == 0 then u32 (m.ec.hashloopcnt * 3) else loop_cnt))
          0x02 (time-Kept m.ec _)
      where
        started : Machine
        started = record m { ec = record (m.ec) { prev_time = clock m.reads }; reads = m.reads + 2 }

    pub measure_jitter_ntg1_memaccess-Kept :
        (loop_cnt : ℕ) (health : Bool) (m : Machine)
        → Ends
            (λ (after : Measured). Kept m.ec after.2.ec)
            (measure_jitter_ntg1_memaccess clock recovery loop_cnt health m)
    unfolding measure_jitter_ntg1_memaccess
    measure_jitter_ntg1_memaccess-Kept loop_cnt health m =
        tested-Kept health m (memaccess_deterministic clock m loops).1 _ (λ x. blank_intermediary)
          0x01 (memaccess_deterministic-Kept m loops)
      where
        loops : ℕ
        loops = if loop_cnt == 0 then u32 (m.ec.memaccessloops * 3) else loop_cnt
