-- ===== src/Powerup.antt =====
-- The measurements of a startup and the tests on them, in `jent_time_entropy_init` of
-- src/jitterentropy-base.c.
--
-- The tests of a measurement stop the startup at once. The list holds the deltas that enter the
-- analysis.
pub mod Kept
pub mod Judged
pub mod Counts
use jitterentropy_library.Prelude.{
  ℕ, zero, suc, ◌+◌, ◌*◌, ◌/◌, Bool, true, false, not, Option, none, some, [], ◌∷◌, ◌++◌, List,
  ◌||◌, ◌>>=◌,
}
use jitterentropy_library.Prelude.{bit_or, ltb, ◌==◌, if◌then◌else◌}
use jitterentropy_library.Collector.{Machine, rct_failure, rct_failure_permanent}
use jitterentropy_library.Gcd.{
  InitError, enotime, ecoarsetime, enomonotonic, estuck, ehealth, erct, Verdict, gcd_verdict,
}
use jitterentropy_library.Health.Failure.{has}
use jitterentropy_library.Noise.Measure.{Measured, measure_jitter}
use jitterentropy_library.Noise.Collect.{random_data_with}
use jitterentropy_library.World.{Env}

abbrev pub powerup_testloopcount : ℕ
powerup_testloopcount = 1024

abbrev pub clearcache : ℕ
clearcache = 100

-- `JENT_STUCK_INIT_THRES`.
abbrev pub stuck_init_thres : ℕ → ℕ
stuck_init_thres x = x * 9 / 10

-- The variables of the loop over the measurements, and the error it stopped with.
pub record Powerup : Type 0 where
  pub machine : Machine
  pub time_backwards : ℕ
  pub count_stuck : ℕ
  pub delta_history : List ℕ
  pub failed : Option InitError

-- What one measurement leads to: `start_time` is the reading before it, and the first rounds only
-- clear the caches.
unfoldable pub powerup_step : Bool → ℕ → Measured → Powerup → Powerup
powerup_step warming start_time measured p =
    let delta = measured.1 in
    let end_time = measured.2.ec.prev_time in
    let count_stuck = if measured.0 then p.count_stuck + 1 else p.count_stuck in
    if start_time == 0 || end_time == 0
    then record p { machine = measured.2; failed = some enotime }
    else if delta == 0
    then record p { machine = measured.2; failed = some ecoarsetime }
    else if warming
    then record p { machine = measured.2 }
    else if ltb start_time end_time
    then record p {
      machine = measured.2;
      count_stuck = count_stuck;
      delta_history = p.delta_history ++ delta ∷ [];
    }
    else record p {
      machine = measured.2;
      count_stuck = count_stuck;
      time_backwards = p.time_backwards + 1;
    }

-- The tests of a measurement stop the loop at once.
unfoldable pub powerup_next :
    (Powerup → Option Powerup) → Powerup → Option InitError → Option Powerup
powerup_next continue p none = continue p
powerup_next continue p (some e) = some p

-- The loop over the measurements, `left` to go.
unfoldable pub powerup_loop : (Machine → Option Measured) → ℕ → Powerup → Option Powerup
unfolding powerup_next
powerup_loop measure zero p = some p
powerup_loop measure (suc left) p = do
  measured ← measure p.machine
  let p' = powerup_step (not (ltb left powerup_testloopcount)) p.machine.ec.prev_time measured p
  powerup_next (powerup_loop measure left) p' p'.failed

-- The tests behind the loop: an error, or the divisor.
unfoldable pub judge_powerup : Powerup → ℕ → Verdict
judge_powerup p failure =
    if ltb 3 p.time_backwards
    then Verdict.refused enomonotonic
    else if not (failure == 0)
    then Verdict.refused
        (if has failure (bit_or rct_failure rct_failure_permanent) then erct else ehealth)
    else elim (gcd_verdict p.delta_history p.machine.ec.osr) [
      | Verdict.refused e ↦ Verdict.refused e
      | Verdict.established gcd ↦
          if ltb (stuck_init_thres powerup_testloopcount) p.count_stuck
          then Verdict.refused estuck
          else Verdict.established gcd
    ]

unfoldable pub start_powerup : Machine → Powerup
start_powerup m = record {
  machine = m;
  time_backwards = 0;
  count_stuck = 0;
  delta_history = [];
  failed = none;
}

module _ (env : Env) (fuel : ℕ) where
  -- The measurement of the collector's clock, as the noise source does it.
  unfoldable pub measure : Bool → Bool → Machine → Option Measured
  measure notime health =
      measure_jitter (env.clock notime) (random_data_with (env.clock notime) (λ m. none) fuel) 0
        health

  -- The priming measurement and the loop.
  unfoldable pub powerup : Bool → Machine → Option Powerup
  powerup notime m = do
    primed ← measure notime false m
    powerup_loop (measure notime true) (clearcache + powerup_testloopcount) (start_powerup primed.2)
