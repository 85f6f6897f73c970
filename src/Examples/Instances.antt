-- ===== src/Examples/Instances.antt =====
-- The initialization, the allocation, the reset and the safe read, at concrete values.
use jitterentropy_library.Prelude.{
  ℕ, ◌+◌, ◌*◌, ◌≤◌, ◌≡◌, ◌↔◌, refl, true, false, none, some, [], ◌∷◌, replicate, Ends,
  if◌then◌else◌, ◌<◌, ◌⊎◌, inl, bit, arith, false,
}
use jitterentropy_library.Gcd.{Verdict, gcd_verdict}
use jitterentropy_library.World.{Env, World, After}
use jitterentropy_library.World.Changes.{Change}
use jitterentropy_library.Examples.{collector, machine, process, buffer}
use jitterentropy_library.Powerup.{Powerup, judge_powerup, powerup_loop, start_powerup}
use jitterentropy_library.Collector.{Machine}
use jitterentropy_library.Health.RctMem.{rct_mem_recover}
use jitterentropy_library.Noise.Collect.{random_data_with, samples_wanted}
use jitterentropy_library.Noise.Recovery.{rct_mem_recover-Returns}
use jitterentropy_library.Powerup.Judged.{judge_powerup-established}
use jitterentropy_library.Powerup.Counts.{Ended, powerup_loop_lem}
use jitterentropy_library.Alloc.{alloc_internal}
use jitterentropy_library.Alloc.Ready.{RateGiven, alloc_internal-RateGiven}
use jitterentropy_library.Init.{entropy_init_ex}
use jitterentropy_library.Init.Entropy.{entropy_init_ex-Quiet}
use jitterentropy_library.Reset.{collector_alloc, health_failure_reset}
use jitterentropy_library.Reset.Taken.{Yields}
use jitterentropy_library.Reset.Changes.{Resets}
use jitterentropy_library.Reset.Startup.{collector_alloc-Yields, health_failure_reset-Resets}
use jitterentropy_library.Reset.Heir.{Succeeds}
use jitterentropy_library.Reset.Successor.{health_failure_reset-Succeeds}
use jitterentropy_library.Examples.{failed}
use jitterentropy_library.Collector.{RandData}
use jitterentropy_library.Read.Thread.{read_entropy}
use jitterentropy_library.Read.Outcomes.{IsReported, read_entropy-IsReported}
use jitterentropy_library.Read.Blocked.{IsRefused, read_entropy-IsBlocked}
use jitterentropy_library.Safe.{read_entropy_safe}
use jitterentropy_library.Safe.Changes.{Hands, read_entropy_safe-Hands}

-- A platform clock and a faster counter, four CPUs and no lack of memory.
abbrev pub env : Env
env = record {
  clock = λ notime n. if notime then n * 7 + 1 else n * n * 31 + 5;
  memory = λ n. true;
  thread_create = λ n. true;
  handler_init = λ n. none;
  handler_start = λ n. false;
  ncpu = some 4;
  cache_size = λ all. 32768;
  fips = false;
  uuid = λ n. replicate 16 n;
}

abbrev pub fresh : World
fresh = record {
  reads = 0;
  allocs = 0;
  frees = 0;
  starts = 0;
  stops = 0;
  gcd = record { platform = 0; notime = 0 };
  process = process;
  selftest_run = false;
  forced = false;
  switch_blocked = false;
  notime_cpu = none;
  handler = none;
}

collector_alloc-Yields_example :
    After (λ r w'. Yields fresh 0 0 r w') (collector_alloc env 5000 3 0 fresh)
collector_alloc-Yields_example = collector_alloc-Yields env 5000 3 0 fresh

-- A failed collector on the counting thread.
abbrev ticking : RandData
ticking = record (failed.ec) { enable_notime = true; notime_thread_ctx = true }

refused : IsRefused buffer (read_entropy env 1 ticking buffer fresh)
refused = read_entropy-IsBlocked env 1 0 ticking buffer fresh (omega arith) (refl, refl)

read_entropy-IsBlocked_example : IsRefused buffer (read_entropy env 1 ticking buffer fresh)
read_entropy-IsBlocked_example =
    read_entropy-IsBlocked env 1 0 ticking buffer fresh (omega arith) (refl, refl)

read_entropy-IsReported_example : IsReported ticking buffer (refused.0).0
read_entropy-IsReported_example =
    read_entropy-IsReported env 1 ticking buffer fresh (refused.0).1 (refused.0).0 (omega arith)
      (omega arith) refused.1

read_entropy_safe-Hands_example :
    After (λ o w'. Hands fresh collector o w') (read_entropy_safe env 5000 collector buffer fresh)
read_entropy_safe-Hands_example = read_entropy_safe-Hands env 5000 collector buffer fresh refl

health_failure_reset-Resets_example :
    After (λ r w'. Resets collector fresh r w') (health_failure_reset env 5000 collector fresh)
health_failure_reset-Resets_example = health_failure_reset-Resets env 5000 collector fresh

health_failure_reset-Succeeds_example :
    After (Succeeds collector) (health_failure_reset env 5000 collector fresh)
health_failure_reset-Succeeds_example = health_failure_reset-Succeeds env 5000 collector fresh

entropy_init_ex-Quiet_example :
    After (λ r w'. Change fresh w' 0 0 0 0) (entropy_init_ex env 5000 3 0 fresh)
entropy_init_ex-Quiet_example = entropy_init_ex-Quiet env 5000 3 0 fresh

-- A process with an established divisor of 4, so that the allocation gives a collector.
abbrev established : World
established = record fresh { gcd = record { platform = 4; notime = 0 }; selftest_run = true }

alloc_internal-RateGiven_example :
    After
      (RateGiven 1)
      (alloc_internal env (λ o f w. some (none, w)) (λ o f w. some (none, w)) 1 0 established)
alloc_internal-RateGiven_example =
    alloc_internal-RateGiven env (λ o f w. some (none, w)) (λ o f w. some (none, w)) 1 0 established

abbrev measured : Powerup
measured = record {
  machine = machine;
  time_backwards = 1;
  count_stuck = 4;
  delta_history = 12 ∷ 20 ∷ 8 ∷ [];
  failed = none;
}

judge_powerup-established_example : (judge_powerup measured 0 ≡ Verdict.established 4) ↔ (
    (1 ≤ 3)
    × (◌≡◌ {A = ℕ} 0 0)
    × (gcd_verdict (12 ∷ 20 ∷ 8 ∷ []) 3 ≡ Verdict.established 4)
    × (4 ≤ 921))
judge_powerup-established_example = judge_powerup-established measured 0 4

powerup_loop_example : Ends Ended (
    powerup_loop
      (λ m. some (false, 5, record m { reads = m.reads + 1 }))
      1124
      (start_powerup machine))
powerup_loop_example =
    powerup_loop_lem (λ m. some (false, 5, record m { reads = m.reads + 1 })) machine

rct_mem_recover-Returns_example :
    (after : Machine) × (rct_mem_recover
        (random_data_with (λ n. n * n * 31 + 5) (λ x. none) 6000)
        machine
      ≡ some after)
    × (after.ec.in_recovery ≡ false)
    × (after.ec.startup_state ≡ machine.ec.startup_state)
    × (after.ec.rct.cutoff_permanent ≡ machine.ec.rct.cutoff_permanent)
    × ((after.ec.rct.count < machine.ec.rct.cutoff_permanent)
        ⊎ (bit 16 after.ec.health_failure ≡ 1))
    × (after.ec.stuck_prime ≤ machine.ec.stuck_prime)
unfolding samples_wanted
rct_mem_recover-Returns_example =
    rct_mem_recover-Returns (λ n. n * n * 31 + 5) 6000 machine refl (omega arith)
      (inl (omega arith)) (omega arith)
