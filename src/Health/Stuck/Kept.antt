-- ===== src/Health/Stuck/Kept.antt =====
-- What no insertion into the health tests changes: the configuration of the collector, its
-- accounting, and the failure bits that are set.
use jitterentropy_library.Prelude.{ℕ, zero, suc, ◌≤◌, ◌≡◌, Bool, true, false, Option, some}
use jitterentropy_library.Prelude.{
  bit, bit-bit_or, bit_or, arith, refl, ◌∙◌, ◌-◌, Ends, Ends-bind, leb, Ends-if, Bool-cases, inl,
  inr, ltb, ◌==◌, none,
}
use jitterentropy_library.Collector.{
  rct_mem_failure, rct_mem_failure_permanent, RandData, Machine, Lag, RctMem, StartupState,
}
use jitterentropy_library.Health.Rct.{rct_insert}
use jitterentropy_library.Health.Apt.{apt_insert}
use jitterentropy_library.Health.Lag.{lag_insert, lag_guess}
use jitterentropy_library.Health.RctMem.{
  rct_mem_fail, rct_mem_count_stuck, rct_mem_insert, rct_mem_judge, rct_mem_recover, recovery_loop,
}
use jitterentropy_library.Health.Stuck.{jent_stuck, insert_judged, is_stuck}

pub record Kept (before after : RandData) : Type 0 where
  pub sticky : (k : ℕ) → bit k before.health_failure ≤ bit k after.health_failure
  pub osr : after.osr ≡ before.osr
  pub flags : after.flags ≡ before.flags
  pub uuid : after.uuid ≡ before.uuid
  pub reinit_count : after.reinit_count ≡ before.reinit_count
  pub read_invocations : after.read_invocations ≡ before.read_invocations
  pub bytes_output : after.bytes_output ≡ before.bytes_output
  pub selftest_failed : after.selftest_failed ≡ before.selftest_failed
  pub is_fips_enabled : after.is_fips_enabled ≡ before.is_fips_enabled
  pub enable_notime : after.enable_notime ≡ before.enable_notime
  pub notime_running : after.notime_running ≡ before.notime_running
  pub notime_thread_ctx : after.notime_thread_ctx ≡ before.notime_thread_ctx
  pub max_mem_set : after.max_mem_set ≡ before.max_mem_set
  pub memmask : after.memmask ≡ before.memmask
  pub common_timer_gcd : after.common_timer_gcd ≡ before.common_timer_gcd

pub Kept-refl : (ec : RandData) → Kept ec ec
Kept-refl ec = record {
  sticky = λ k. omega arith;
  osr = refl;
  flags = refl;
  uuid = refl;
  reinit_count = refl;
  read_invocations = refl;
  bytes_output = refl;
  selftest_failed = refl;
  is_fips_enabled = refl;
  enable_notime = refl;
  notime_running = refl;
  notime_thread_ctx = refl;
  max_mem_set = refl;
  memmask = refl;
  common_timer_gcd = refl;
}

pub Kept-trans : (a b c : RandData) → Kept a b → Kept b c → Kept a c
Kept-trans a b c p q = record {
  sticky = λ k. omega (arith, p.sticky k, q.sticky k);
  osr = q.osr ∙ p.osr;
  flags = q.flags ∙ p.flags;
  uuid = q.uuid ∙ p.uuid;
  reinit_count = q.reinit_count ∙ p.reinit_count;
  read_invocations = q.read_invocations ∙ p.read_invocations;
  bytes_output = q.bytes_output ∙ p.bytes_output;
  selftest_failed = q.selftest_failed ∙ p.selftest_failed;
  is_fips_enabled = q.is_fips_enabled ∙ p.is_fips_enabled;
  enable_notime = q.enable_notime ∙ p.enable_notime;
  notime_running = q.notime_running ∙ p.notime_running;
  notime_thread_ctx = q.notime_thread_ctx ∙ p.notime_thread_ctx;
  max_mem_set = q.max_mem_set ∙ p.max_mem_set;
  memmask = q.memmask ∙ p.memmask;
  common_timer_gcd = q.common_timer_gcd ∙ p.common_timer_gcd;
}

-- Setting one more bit loses none.
pub bit_or-sticky : (k a b : ℕ) → bit k a ≤ bit k (bit_or a b)
bit_or-sticky k a b = omega (arith, bit-bit_or k a b)

rct_insert-Kept : (ec : RandData) (stuck : Bool) → Kept ec (rct_insert ec stuck)
unfolding rct_insert
rct_insert-Kept ec stuck = grind (arith, bit_or-sticky)

pub apt_insert-Kept : (ec : RandData) (delta : ℕ) → Kept ec (apt_insert ec delta)
unfolding apt_insert
apt_insert-Kept ec delta = grind (arith, bit_or-sticky)

lag_guess-Kept : (ec : RandData) (delta : ℕ) → Kept ec (lag_guess ec delta)
unfolding lag_guess
lag_guess-Kept ec delta = grind (arith, bit_or-sticky)

Kept-lag : (ec : RandData) (lag : Lag) → Kept ec (record ec { lag = lag })
Kept-lag ec lag = grind arith

pub lag_insert-Kept : (ec : RandData) (delta : ℕ) → Kept ec (lag_insert ec delta)
unfolding lag_insert
lag_insert-Kept ec delta = elim (Bool-cases (ltb ec.lag.observations 8)) [
  | inl filling ↦ rw filling (Kept-lag ec _)
  | inr full ↦ rw full (
      Kept-trans ec (lag_guess ec delta) _ (lag_guess-Kept ec delta)
        (Kept-lag (lag_guess ec delta) _))
]

pub insert_judged-Kept :
    (ec : RandData) (delta : ℕ) (stuck : Bool) → Kept ec (insert_judged ec delta stuck)
unfolding insert_judged
insert_judged-Kept ec delta stuck =
    Kept-trans ec (lag_insert (apt_insert ec delta) delta) _
      (Kept-trans ec (apt_insert ec delta) _ (apt_insert-Kept ec delta) (lag_insert-Kept _ delta))
      (rct_insert-Kept _ stuck)

rct_mem-Kept : (ec : RandData) (rct_mem : RctMem) → Kept ec (record ec { rct_mem = rct_mem })
rct_mem-Kept ec rct_mem = grind arith

rct_mem_fail-Kept : (ec : RandData) (failure : ℕ) → Kept ec (rct_mem_fail ec failure)
unfolding rct_mem_fail
rct_mem_fail-Kept ec failure = grind (arith, bit_or-sticky)

-- The state that a recovery runs in, and the one that it leaves.
stage-Kept :
    (ec : RandData) (rct_mem : RctMem) (flag : Bool) (state : StartupState)
    → Kept ec (record ec { rct_mem = rct_mem; in_recovery = flag; startup_state = state })
stage-Kept ec rct_mem flag state = grind arith

pub prime-Kept : (ec : RandData) (n : ℕ) → Kept ec (record ec { stuck_prime = n })
prime-Kept ec n = grind arith

-- Where a generation returns, it has kept all this.
abbrev pub KeptIn : Machine → Option Machine → Type 0
KeptIn m = Ends (λ after. Kept m.ec after.ec)

abbrev pub Keeps : (Machine → Option Machine) → Type 0
Keeps f = (m : Machine) → KeptIn m (f m)

pub KeptIn-trans : (m n : Machine) (o : Option Machine) → Kept m.ec n.ec → KeptIn n o → KeptIn m o
KeptIn-trans m n none p q = tt
KeptIn-trans m n (some after) p q = Kept-trans m.ec n.ec after.ec p q

module _ (f : Machine → Option Machine) (keeps : Keeps f) where
  recovery_loop-Kept : (left : ℕ) (m : Machine) → KeptIn m (recovery_loop f left m)
  unfolding recovery_loop
  recovery_loop-Kept zero m = Kept-refl m.ec
  recovery_loop-Kept (suc left) m =
      Ends-bind _ _ (f m) (recovery_loop f left) (keeps m)
        λ next p. KeptIn-trans m next (recovery_loop f left next) p (recovery_loop-Kept left next)

  rct_mem_recover-Kept : (m : Machine) → KeptIn m (rct_mem_recover f m)
  unfolding rct_mem_recover
  rct_mem_recover-Kept m =
      Ends-bind _ _ (recovery_loop f 10 entered) _
        (KeptIn-trans m entered (recovery_loop f 10 entered)
          (stage-Kept m.ec entered.ec.rct_mem true StartupState.completed)
          (recovery_loop-Kept 10 entered))
        λ left p.
          Kept-trans m.ec left.ec _ p (stage-Kept left.ec left.ec.rct_mem false m.ec.startup_state)
    where
      entered : Machine
      entered = record m {
        ec = record (m.ec) {
          rct_mem = record (m.ec.rct_mem) { count = 0 };
          in_recovery = true;
          startup_state = StartupState.completed;
        };
      }

  rct_mem_judge-Kept : (m : Machine) → KeptIn m (rct_mem_judge f m)
  unfolding rct_mem_judge
  rct_mem_judge-Kept m = elim (Bool-cases (leb m.ec.rct_mem.cutoff_permanent m.ec.rct_mem.count)) [
    | inl permanent ↦ rw permanent (rct_mem_fail-Kept m.ec rct_mem_failure_permanent)
    | inr below ↦ rw below (elim (Bool-cases (m.ec.rct_mem.count == m.ec.rct_mem.cutoff)) [
      | inr other ↦ rw other (Kept-refl m.ec)
      | inl reached ↦ rw reached (
          Ends-if {A = Machine} (λ x. Kept m.ec x.ec) m.ec.in_recovery
            (some (record m { ec = rct_mem_fail m.ec rct_mem_failure })) (rct_mem_recover f m)
            (rct_mem_fail-Kept m.ec rct_mem_failure) (rct_mem_recover-Kept m))
    ])
  ]

  pub rct_mem_insert-Kept : (m : Machine) (stuck : Bool) → KeptIn m (rct_mem_insert f m stuck)
  unfolding rct_mem_insert
  rct_mem_insert-Kept m stuck =
      Ends-bind _ _ (rct_mem_judge f counted) _
        (KeptIn-trans m counted (rct_mem_judge f counted) (rct_mem-Kept m.ec counted.ec.rct_mem)
          (rct_mem_judge-Kept counted))
        λ judged p. Kept-trans m.ec judged.ec _ p (rct_mem-Kept judged.ec _)
    where
      counted : Machine
      counted = record m { ec = record (m.ec) { rct_mem = rct_mem_count_stuck m.ec.rct_mem stuck } }

  -- If the collection that a recovery runs changes no configuration and clears no failure, then
  -- neither does the stuck test with all that it runs, where it returns.
  pub jent_stuck-Kept :
      (m : Machine) (delta : ℕ) → Ends (λ after. Kept m.ec after.1.ec) (jent_stuck f m delta)
  unfolding jent_stuck
  jent_stuck-Kept m delta = elim (Bool-cases (m.ec.stuck_prime == 0)) [
    | inl primed_already ↦ rw primed_already (
        Ends-bind _ _ (rct_mem_insert f judged (is_stuck m.ec delta)) _
          (KeptIn-trans m judged (rct_mem_insert f judged (is_stuck m.ec delta))
            (insert_judged-Kept m.ec delta (is_stuck m.ec delta))
            (rct_mem_insert-Kept judged (is_stuck m.ec delta)))
          λ inserted p. p)
    | inr priming ↦ rw priming (
        Kept-trans m.ec primed _ (prime-Kept m.ec (m.ec.stuck_prime - 1))
          (lag_insert-Kept primed delta))
  ]
    where
      judged : Machine
      judged = record m { ec = insert_judged m.ec delta (is_stuck m.ec delta) }

      primed : RandData
      primed = record (m.ec) { stuck_prime = m.ec.stuck_prime - 1 }
