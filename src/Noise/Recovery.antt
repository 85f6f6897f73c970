-- ===== src/Noise/Recovery.antt =====
-- The recovery of the health test with memory, as `jent_rct_mem_insert` of
-- src/jitterentropy-health.c runs it with `jent_random_data` of src/jitterentropy-noise.c.
use jitterentropy_library.Prelude.{
  ℕ, zero, suc, ◌+◌, ◌*◌, ◌-◌, ◌^◌, ◌≤◌, ◌<◌, ◌≡◌, ◌⊎◌, inl, inr, refl, arith, Bool, true, false,
  Option, none, some, subst, sym, Ends,
}
use jitterentropy_library.Prelude.{bit, ltb, ◌||◌, Bool-cases}
use jitterentropy_library.Collector.{RandData, Machine, StartupState}
use jitterentropy_library.Health.RctMem.{recovery_loop, rct_mem_recover}
use jitterentropy_library.Health.Stuck.Kept.{Kept}
use jitterentropy_library.Noise.Sources.{hash_insert}
use jitterentropy_library.Noise.Measure.{Measured, measure_jitter, check_stuck, insert_delta}
use jitterentropy_library.Noise.Kept.{measure_jitter-Kept}
use jitterentropy_library.Noise.Collected.{refuse_block-Kept, random_data_with-Kept}
use jitterentropy_library.Noise.Steady.{Steady, memaccess-Steady}
use jitterentropy_library.Noise.Returns.{IsBounded, patience, passes, passes-pred, collect-Returns}
use jitterentropy_library.Noise.Bounded.{IsBounded-carried}
use jitterentropy_library.Noise.Measured.{measure_jitter-Steps}
use jitterentropy_library.Noise.Collect.{
  collect, random_data_one, normal_block, random_data_with, random_data_from, samples_wanted,
  refuse_block, open_window, data_size_bits,
}

passes-mul : (left run : ℕ) → passes left run ≡ left * run
passes-mul zero run = omega arith
passes-mul (suc left) run = omega (arith, passes-mul left run)

refuse_block-Steady : (m : Machine) → Steady m.ec (refuse_block m).ec
unfolding refuse_block
refuse_block-Steady m = (refl, refl, refl, refl, refl)

samples_wanted-Kept : (a b : RandData) → Kept a b → samples_wanted b ≡ samples_wanted a
unfolding samples_wanted
samples_wanted-Kept a b kept = rw (kept.osr, kept.is_fips_enabled) refl

-- A measurement without the health tests returns.
unjudged-Steady :
    (clock : ℕ → ℕ) (f : Machine → Option Machine) (m : Machine)
    → (r : Bool × ℕ × Machine) × (measure_jitter clock f 0 false m ≡ some r) × Steady m.ec r.2.ec
unfolding measure_jitter check_stuck insert_delta hash_insert
unjudged-Steady clock f m = (_, refl, memaccess-Steady clock m 0)

module _ (clock : ℕ → ℕ) (fuel primes cutoff : ℕ) (small : cutoff < 2 ^ 32) where
  abbrev collection : Machine → Option Machine
  collection = random_data_with clock (λ m. none) fuel

  -- A collector in a recovery, in the window of its last collection.
  abbrev Ready : RandData → Type 0
  Ready ec = IsBounded ec.rct_mem.nosr primes cutoff ec

  abbrev Enough : RandData → Type 0
  Enough ec = samples_wanted ec * (primes + cutoff + 1) < fuel

  Enough-Kept : (a b : RandData) → Kept a b → Enough a → Enough b
  Enough-Kept a b kept =
      subst (λ n. n * (primes + cutoff + 1) < fuel) (sym (samples_wanted-Kept a b kept))

  ready : (nosr : ℕ) (ec : RandData) → IsBounded nosr primes cutoff ec → Ready ec
  ready nosr ec b = record {
    recovery = b.recovery;
    fips = b.fips;
    started = b.started;
    window = refl;
    prime = b.prime;
    cutoff = b.cutoff;
    count = b.count;
  }

  abbrev Again : Option Machine → Type 0
  Again o = (after : Machine) × (o ≡ some after) × Ready after.ec

  none-Keeps : (m : Machine) → Ends (λ (after : Machine). Kept m.ec after.ec) none
  none-Keeps m = tt

  opened :
      (m : Machine) (nosr : ℕ) → Ready m.ec → IsBounded nosr primes cutoff (open_window m nosr).ec
  unfolding open_window
  opened m nosr b = record {
    recovery = b.recovery;
    fips = b.fips;
    started = b.started;
    window = refl;
    prime = b.prime;
    cutoff = b.cutoff;
    count = b.count;
  }

  window-Returns :
      (nosr : ℕ) (m : Machine)
      → 0 < nosr
      → nosr * (primes + cutoff + 1) < fuel
      → IsBounded nosr primes cutoff m.ec
      → Again (collect fuel (measure_jitter clock (λ x. none) 0 true) 0 m)
  window-Returns nosr m positive enough b =
      let run = primes + cutoff + 1 in
      let spent : passes (nosr - 1) run + patience cutoff m.ec < fuel =
        omega (arith, enough, passes-mul nosr run, passes-pred nosr run positive, b.prime) in
      let total : 0 + suc (nosr - 1) ≡ nosr = omega (arith, positive) in
      let (after, e, bounded) =
        collect-Returns nosr primes cutoff (measure_jitter clock (λ x. none) 0 true)
          (measure_jitter-Steps nosr primes cutoff small (λ x. none) none-Keeps clock 0) fuel 0
          (nosr - 1) m b total spent in
      (after, e, ready nosr after.ec bounded)

  block-Returns :
      (m : Machine)
      → Ready m.ec
      → Enough m.ec
      → Again (random_data_one fuel (measure_jitter clock (λ x. none) 0 true) m)
  unfolding random_data_one
  block-Returns m b enough =
      elim (Bool-cases
        (ltb 65535 (samples_wanted m.ec) || ltb (samples_wanted m.ec) data_size_bits)) [
          | inl refused ↦ rw refused (
            refuse_block m,
            refl,
            ready m.ec.rct_mem.nosr (refuse_block m).ec (
                IsBounded-carried m.ec.rct_mem.nosr primes cutoff m.ec (refuse_block m).ec
                  (refuse_block-Kept m) (refuse_block-Steady m) b),
          )
          | inr fits ↦ rw fits (
              window-Returns (samples_wanted m.ec) (open_window m (samples_wanted m.ec))
                (ground (arith, fits)) enough (opened m (samples_wanted m.ec) b))
        ]

  normal_block-Returns :
      (m : Machine) → Ready m.ec → Enough m.ec → Again (normal_block clock (λ x. none) fuel m)
  unfolding normal_block
  normal_block-Returns m b enough =
      let (primed, e, steady) = unjudged-Steady clock (λ x. none) m in
      let kept : Kept m.ec primed.2.ec =
        subst (λ o. Ends (λ (r : Measured). Kept m.ec r.2.ec) o) e
          (measure_jitter-Kept clock (λ x. none) none-Keeps 0 false m) in
      rw e (
        block-Returns primed.2
          (ready m.ec.rct_mem.nosr primed.2.ec
            (IsBounded-carried m.ec.rct_mem.nosr primes cutoff m.ec primed.2.ec kept steady b))
          (Enough-Kept m.ec primed.2.ec kept enough))

  collection-Returns : (m : Machine) → Ready m.ec → Enough m.ec → Again (collection m)
  unfolding random_data_with random_data_from
  collection-Returns m b enough =
      subst (λ s. Again (random_data_from clock (λ x. none) fuel s m)) (sym b.started)
        (normal_block-Returns m b enough)

  recovery_loop-Returns :
      (left : ℕ) (m : Machine) → Ready m.ec → Enough m.ec → Again (recovery_loop collection left m)
  unfolding recovery_loop
  recovery_loop-Returns zero m b enough = (m, refl, b)
  recovery_loop-Returns (suc left) m b enough =
      let (next, e, bounded) = collection-Returns m b enough in
      let kept : Kept m.ec next.ec =
        subst (λ o. Ends (λ x. Kept m.ec x.ec) o) e
          (random_data_with-Kept clock (λ x. none) none-Keeps fuel m) in
      rw e (recovery_loop-Returns left next bounded (Enough-Kept m.ec next.ec kept enough))

-- The recovery of the health test with memory, its ten collections included, returns, whatever the
-- clock gives: with FIPS mode enabled, a permanent cutoff of the repetition count test on 32 bits
-- that its count is below (unless its permanent failure is recorded), and as fuel for each collection
-- more than the wanted samples times one more than the measurements to prime and that cutoff
-- together. The collector has left the recovery then, in the startup state and with the cutoff that
-- it had, its count is below the cutoff or the permanent failure is recorded, and there are no more
-- measurements to prime than before.
pub rct_mem_recover-Returns :
    (clock : ℕ → ℕ) (fuel : ℕ) (m : Machine)
    → m.ec.is_fips_enabled ≡ true
    → m.ec.rct.cutoff_permanent < 2 ^ 32
    → (m.ec.rct.count < m.ec.rct.cutoff_permanent) ⊎ (bit 16 m.ec.health_failure ≡ 1)
    → samples_wanted m.ec * (m.ec.stuck_prime + m.ec.rct.cutoff_permanent + 1) < fuel
    → (after : Machine) × (rct_mem_recover (random_data_with clock (λ x. none) fuel) m ≡ some after)
      × (after.ec.in_recovery ≡ false)
      × (after.ec.startup_state ≡ m.ec.startup_state)
      × (after.ec.rct.cutoff_permanent ≡ m.ec.rct.cutoff_permanent)
      × ((after.ec.rct.count < m.ec.rct.cutoff_permanent) ⊎ (bit 16 after.ec.health_failure ≡ 1))
      × (after.ec.stuck_prime ≤ m.ec.stuck_prime)
unfolding rct_mem_recover samples_wanted
rct_mem_recover-Returns clock fuel m fips small count enough =
    let entered : Machine = record m {
      ec = record (m.ec) {
        rct_mem = record (m.ec.rct_mem) { count = 0 };
        in_recovery = true;
        startup_state = StartupState.completed;
      };
    } in
    let bounded : IsBounded entered.ec.rct_mem.nosr m.ec.stuck_prime m.ec.rct.cutoff_permanent
        entered.ec =
      record {
        recovery = refl;
        fips = fips;
        started = refl;
        window = refl;
        prime = omega arith;
        cutoff = refl;
        count = count;
      } in
    let (left, e, b) =
      recovery_loop-Returns clock fuel m.ec.stuck_prime m.ec.rct.cutoff_permanent small 10 entered
        bounded enough in
    rw e (_, refl, refl, refl, b.cutoff, b.count, b.prime)
