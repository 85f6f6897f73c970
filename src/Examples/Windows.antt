-- ===== src/Examples/Windows.antt =====
-- The health tests over sequences of measurements, at concrete values.
use jitterentropy_library.Prelude.{ℕ, ◌<◌, ◌≤◌, ◌≡◌, ◌↔◌, ◌⊎◌, refl, arith, Bool, true, false}
use jitterentropy_library.Prelude.{List, [], ◌∷◌, length, replicate, bit}
use jitterentropy_library.Prelude.{none, some, ◌++◌}
use jitterentropy_library.Collector.{Machine}
use jitterentropy_library.Examples.{collector, rct_mem}
use jitterentropy_library.Health.Rct.Runs.{rct_feed, rct_feed-longest_run, Detects}
use jitterentropy_library.Health.Apt.Window.{apt_feed, occurrences, apt_feed-window}
use jitterentropy_library.Health.Cutoffs.{rct_mem_init}
use jitterentropy_library.Health.RctMem.Window.{
  rct_mem_inserts, stuck_thirds, rct_mem_inserts-stuck_thirds, rct_mem_inserts-common,
}

abbrev verdicts : List Bool
verdicts = true ∷ false ∷ true ∷ true ∷ true ∷ []

rct_feed-longest_run_example : Detects collector 0 verdicts (rct_feed collector verdicts)
rct_feed-longest_run_example =
    rct_feed-longest_run collector verdicts refl (omega arith) (omega arith) (omega arith)

apt_feed-window_example :
    let after = apt_feed collector (9 ∷ 4 ∷ 9 ∷ 9 ∷ []) in
    let count = occurrences 9 (9 ∷ 4 ∷ 9 ∷ 9 ∷ []) in
    ((bit 17 after.health_failure ≡ 1)
      ↔ ((bit 17 collector.health_failure ≡ 1) ⊎ (collector.apt.cutoff_permanent ≤ count)))
    × ((bit 1 after.health_failure ≡ 1) ↔ (
        (bit 1 collector.health_failure ≡ 1)
        ⊎ ((collector.apt.cutoff < collector.apt.cutoff_permanent)
            × (collector.apt.cutoff ≤ count))))
    × ((after.apt.base_set ≡ false) ↔ (length {A = ℕ} (4 ∷ 9 ∷ 9 ∷ []) ≡ 511))
apt_feed-window_example =
    apt_feed-window collector 9 (4 ∷ 9 ∷ 9 ∷ [])
      (omega arith, (omega arith, (omega arith, (omega arith, tt)))) (omega arith) refl
      (omega arith) (omega arith)

-- The collector of the examples with the cutoffs of its rate.
abbrev measured : Machine
measured = record { ec = record collector { rct_mem = rct_mem_init rct_mem 3 }; reads = 0 }

rct_mem_inserts-stuck_thirds_example :
    (after : Machine) × (rct_mem_inserts (λ m. none) measured verdicts ≡ some after)
    × (after.ec.rct_mem.count ≡ stuck_thirds 0 verdicts)
    × (after.ec.health_failure ≡ measured.ec.health_failure)
unfolding rct_mem_init
rct_mem_inserts-stuck_thirds_example =
    rct_mem_inserts-stuck_thirds (λ m. none) measured verdicts refl (omega arith) (omega arith)
      (omega arith) (omega arith) (omega arith)

-- A window in which no measurement but the first ones is stuck.
abbrev window : List Bool
window = verdicts ++ replicate 958 false

rct_mem_inserts-common_example :
    (after : Machine) × (rct_mem_inserts (λ m. none) measured window ≡ some after)
    × (after.ec.rct_mem.count < measured.ec.rct_mem.cutoff)
    × (after.ec.health_failure ≡ measured.ec.health_failure)
unfolding rct_mem_init
rct_mem_inserts-common_example =
    rct_mem_inserts-common (λ m. none) measured 3 window (omega arith) (omega arith) refl refl refl
      refl (omega arith)
