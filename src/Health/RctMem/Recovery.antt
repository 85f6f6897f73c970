-- ===== src/Health/RctMem/Recovery.antt =====
-- The recovery of the repetition count test with memory: when it runs, and what it leaves.
use jitterentropy_library.Prelude.{◌≡◌, ◌≢◌, Bool, true, false, Option, none, some, arith}
use jitterentropy_library.Collector.{Machine}
use jitterentropy_library.Health.RctMem.{
  rct_mem_insert, rct_mem_judge, rct_mem_recover, rct_mem_fail,
}

-- Inside a recovery the test starts none: the measurement is inserted in one step, in the same way
-- whatever a recovery would do.
pub rct_mem_insert-in_recovery :
    (f g : Machine → Option Machine) (m : Machine) (stuck : Bool)
    → m.ec.in_recovery ≡ true
    → (rct_mem_insert f m stuck ≡ rct_mem_insert g m stuck) × (rct_mem_insert f m stuck ≢ none)
unfolding rct_mem_insert rct_mem_judge rct_mem_fail
rct_mem_insert-in_recovery f g m stuck h = ground arith

-- A recovery that ends has run in the completed startup state with the recovery flag set and a
-- cleared count, and leaves the startup state as it was and the flag clear.
pub rct_mem_recover_lem :
    (f : Machine → Option Machine) (m after : Machine)
    → rct_mem_recover f m ≡ some after
    → (after.ec.startup_state ≡ m.ec.startup_state) × (after.ec.in_recovery ≡ false)
unfolding rct_mem_recover
rct_mem_recover_lem f m after h = ground arith
