-- ===== src/Health/RctMem.antt =====
-- The repetition count test with memory, src/jitterentropy-health.c. `jent_random_data`, which it
-- calls for its recovery loop, calls it in turn: here it is the argument `random_data`, and
-- src/jitterentropy-noise.c passes itself. `none` is a generation that does not return.
pub mod Window
pub mod Recovery
use jitterentropy_library.Prelude.{ℕ, zero, suc, ◌+◌, ◌%◌, Bool, true, false, not, ◌&&◌}
use jitterentropy_library.Prelude.{Option, some, bit_or, u16, ltb, leb, ◌==◌}
use jitterentropy_library.Prelude.{if◌then◌else◌, ◌>>=◌}
use jitterentropy_library.Collector.{RandData, RctMem, Machine, rct_mem_failure}
use jitterentropy_library.Collector.{rct_mem_failure_permanent, StartupState}

abbrev pub rct_mem_recovery_loop_cnt : ℕ
rct_mem_recovery_loop_cnt = 10

abbrev pub rct_mem_in_window : RctMem → Bool
rct_mem_in_window rct_mem = ltb rct_mem.ctr rct_mem.nosr

abbrev pub rct_mem_skip_stuck : RctMem → Bool
rct_mem_skip_stuck rct_mem = not (rct_mem.ctr % 3 == 0)

-- The count of a new measurement: a window's first one clears it, and a stuck one is counted if
-- it is inside the window and the third.
unfoldable pub rct_mem_count_stuck : RctMem → Bool → RctMem
rct_mem_count_stuck rct_mem stuck =
    let count = if rct_mem.ctr == 0 then 0 else rct_mem.count in
    record rct_mem {
      count =
          if stuck && rct_mem_in_window rct_mem && not (rct_mem_skip_stuck rct_mem)
          then u16 (count + 1)
          else count;
    }

-- The bit is set inside the window only.
unfoldable pub rct_mem_fail : RandData → ℕ → RandData
rct_mem_fail ec failure =
    if rct_mem_in_window ec.rct_mem
    then record ec { health_failure = bit_or ec.health_failure failure }
    else ec

unfoldable pub rct_mem_advance : RctMem → RctMem
rct_mem_advance rct_mem =
    if rct_mem_in_window rct_mem then record rct_mem { ctr = u16 (rct_mem.ctr + 1) } else rct_mem

module _ (random_data : Machine → Option Machine) where
  unfoldable pub recovery_loop : ℕ → Machine → Option Machine
  recovery_loop zero m = some m
  recovery_loop (suc left) m = do m' ← random_data m; recovery_loop left m'

  -- The recovery runs in the completed startup state, with the recovery flag set.
  unfoldable pub rct_mem_recover : Machine → Option Machine
  rct_mem_recover m = do
    let saved_state = m.ec.startup_state
    let entered = record m {
      ec = record (m.ec) {
        rct_mem = record (m.ec.rct_mem) { count = 0 };
        in_recovery = true;
        startup_state = StartupState.completed;
      };
    }
    left ← recovery_loop rct_mem_recovery_loop_cnt entered
    some
        (record left { ec = record (left.ec) { startup_state = saved_state; in_recovery = false } })

  -- The cutoffs, on the new count.
  unfoldable pub rct_mem_judge : Machine → Option Machine
  rct_mem_judge m =
      let rct_mem = m.ec.rct_mem in
      if leb rct_mem.cutoff_permanent rct_mem.count
      then some (record m { ec = rct_mem_fail m.ec rct_mem_failure_permanent })
      else if rct_mem.count == rct_mem.cutoff
      then (if m.ec.in_recovery
          then some (record m { ec = rct_mem_fail m.ec rct_mem_failure })
          else rct_mem_recover m)
      else some m

  unfoldable pub rct_mem_insert : Machine → Bool → Option Machine
  rct_mem_insert m stuck = do
    judged ←
        rct_mem_judge
          (record m { ec = record (m.ec) { rct_mem = rct_mem_count_stuck m.ec.rct_mem stuck } })
    some (record judged { ec = record (judged.ec) { rct_mem = rct_mem_advance judged.ec.rct_mem } })

unfoldable pub rct_mem_duplicate : RctMem → RctMem → RctMem
rct_mem_duplicate new old = record new { count = old.cutoff }
