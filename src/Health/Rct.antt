-- ===== src/Health/Rct.antt =====
-- The repetition count test on stuck measurements, src/jitterentropy-health.c.
pub mod Runs
use jitterentropy_library.Prelude.{◌+◌, Bool, bit_or, u32, leb, ◌==◌, if◌then◌else◌}
use jitterentropy_library.Collector.{RandData, Rct, rct_failure, rct_failure_permanent}

unfoldable pub rct_insert : RandData → Bool → RandData
rct_insert ec stuck =
    if stuck
    then (let count = u32 (ec.rct.count + 1) in
        let rct = record (ec.rct) { count = count } in
        if leb ec.rct.cutoff_permanent count
        then record ec {
          rct = rct;
          health_failure = bit_or ec.health_failure rct_failure_permanent;
        }
        else if count == ec.rct.cutoff
        then record ec { rct = rct; health_failure = bit_or ec.health_failure rct_failure }
        else record ec { rct = rct })
    else record ec { rct = record (ec.rct) { count = 0 } }

unfoldable pub rct_duplicate : Rct → Rct
rct_duplicate new = record new { count = new.cutoff }
