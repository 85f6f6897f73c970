-- ===== src/Noise/Returns.antt =====
-- A collection inside a recovery returns, whatever the clock gives: a run of stuck measurements
-- ends in the permanent failure of the repetition count test.
use jitterentropy_library.Prelude.{
  ℕ, zero, suc, ◌+◌, ◌-◌, ◌≤◌, ◌<◌, ◌≡◌, ◌⊎◌, inl, inr, refl, arith, true, false, Option, some, ap,
}
use jitterentropy_library.Prelude.{bit, leb, ◌==◌, Bool-cases}
use jitterentropy_library.Collector.{RandData, Machine, completed}
use jitterentropy_library.Health.Failure.{health_failure_query}
use jitterentropy_library.Noise.Measure.{Measured}
use jitterentropy_library.Noise.Collect.{collect}
use jitterentropy_library.Noise.Blocked.{IsBlocked, health_failure_query-IsBlocked}

-- A collector in a recovery, in FIPS mode, in a window of `nosr` measurements: with at most `primes`
-- measurements to prime, and below the permanent cutoff of the repetition count test or failed.
pub record IsBounded (nosr primes limit : ℕ) (ec : RandData) : Type 0 where
  pub recovery : ec.in_recovery ≡ true
  pub fips : ec.is_fips_enabled ≡ true
  pub started : ec.startup_state ≡ completed
  pub window : ec.rct_mem.nosr ≡ nosr
  pub prime : ec.stuck_prime ≤ primes
  pub cutoff : ec.rct.cutoff_permanent ≡ limit
  pub count : (ec.rct.count < limit) ⊎ (bit 16 ec.health_failure ≡ 1)

-- How many stuck measurements there can still be.
abbrev pub patience : ℕ → RandData → ℕ
patience cutoff ec = ec.stuck_prime + (cutoff - ec.rct.count)

-- A measurement returns, keeps the bounds, and fails, is not stuck or has used up some patience.
abbrev pub Steps : ℕ → ℕ → ℕ → Machine → Option Measured → Type 0
Steps nosr primes cutoff m o =
    (r : Measured) × (o ≡ some r)
    × IsBounded nosr primes cutoff r.2.ec
    × ((bit 16 r.2.ec.health_failure ≡ 1)
        ⊎ (r.0 ≡ false)
        ⊎ (patience cutoff r.2.ec < patience cutoff m.ec))

-- The passes for `left` measurements that are not stuck, each behind a run of stuck ones.
abbrev pub passes : ℕ → ℕ → ℕ
passes zero run = 0
passes (suc left) run = run + passes left run

pub passes-pred : (left run : ℕ) → 0 < left → passes left run ≡ run + passes (left - 1) run
passes-pred zero run h = absurd (omega (arith, h))
passes-pred (suc left) run h =
    let same : left ≡ suc left - 1 = omega arith in ap (λ n. run + passes n run) same

-- Without a recorded failure there is patience left.
patient :
    (nosr primes cutoff : ℕ) (ec : RandData)
    → IsBounded nosr primes cutoff ec
    → (health_failure_query ec == 0) ≡ true
    → 0 < patience cutoff ec
patient nosr primes cutoff ec bounded clear = below bounded.count
  where
    below : (ec.rct.count < cutoff) ⊎ (bit 16 ec.health_failure ≡ 1) → 0 < patience cutoff ec
    below (inl lt) = omega (arith, lt)
    below (inr failed) =
        let blocked = health_failure_query-IsBlocked 16 ec (bounded.fips, failed) in cc

module _ (nosr primes cutoff : ℕ) (measure : Machine → Option Measured)
    (steps : (m : Machine)
      → IsBounded nosr primes cutoff m.ec
      → Steps nosr primes cutoff m (measure m)) where
  -- What is asked of the rest of the loop.
  abbrev pub Rest : (fuel ctr : ℕ) (m : Machine) → Type 0
  Rest fuel ctr m =
      (after : Machine) × (collect fuel measure ctr m ≡ some after)
      × IsBounded nosr primes cutoff after.ec

  failed-Returns :
      (fuel ctr : ℕ) (m : Machine)
      → 0 < fuel
      → IsBounded nosr primes cutoff m.ec
      → IsBlocked 16 m.ec
      → Rest fuel ctr m
  unfolding collect
  failed-Returns zero ctr m positive bounded failed = absurd (omega (arith, positive))
  failed-Returns (suc fuel) ctr m positive bounded failed =
      rw (health_failure_query-IsBlocked 16 m.ec failed) (m, refl, bounded)

  -- A pass whose measurement was stuck.
  stuck-Returns :
      (fuel ctr : ℕ) (before : Machine) (r : Measured)
      → 0 < fuel
      → IsBounded nosr primes cutoff r.2.ec
      → ((bit 16 r.2.ec.health_failure ≡ 1)
          ⊎ (r.0 ≡ false)
          ⊎ (patience cutoff r.2.ec < patience cutoff before.ec))
      → r.0 ≡ true
      → (patience cutoff r.2.ec < patience cutoff before.ec → Rest fuel ctr r.2)
      → Rest fuel ctr r.2
  stuck-Returns fuel ctr before r positive bounded (inl failed) stuck rest =
      failed-Returns fuel ctr r.2 positive bounded (bounded.fips, failed)
  stuck-Returns fuel ctr before r positive bounded (inr (inl judged)) stuck rest = cc
  stuck-Returns fuel ctr before r positive bounded (inr (inr spent)) stuck rest = rest spent

  pub collect-Returns :
      (fuel ctr left : ℕ) (m : Machine)
      → IsBounded nosr primes cutoff m.ec
      → ctr + suc left ≡ nosr
      → passes left (primes + cutoff + 1) + patience cutoff m.ec < fuel
      → Rest fuel ctr m
  unfolding collect
  collect-Returns zero ctr left m bounded total enough = absurd (omega (arith, enough))
  collect-Returns (suc fuel) ctr left m bounded total enough =
      elim (Bool-cases (health_failure_query m.ec == 0)) [
        | inr failing ↦ rw failing (m, refl, bounded)
        | inl clear ↦
            let s = steps m bounded in
            rw (clear, s.1)
              (elim (Bool-cases (s.0).0) [
                | inl stuck ↦ rw stuck (
                    stuck-Returns fuel ctr m s.0
                      (omega (arith, enough, patient nosr primes cutoff m.ec bounded clear)) s.2 s.3
                      stuck
                      λ spent.
                        collect-Returns fuel ctr left (s.0).2 s.2 total
                          (omega (arith, enough, spent)))
                | inr judged ↦
                    rw judged (elim (Bool-cases (leb (s.0).2.ec.rct_mem.nosr (ctr + 1))) [
                      | inl full ↦ rw full ((s.0).2, refl, s.2)
                      | inr open_yet ↦
                          let more : 0 < left = ground (arith, open_yet, s.2.window, total) in
                          rw open_yet (
                            collect-Returns fuel (ctr + 1) (left - 1) (s.0).2 s.2
                              (omega (arith, total, more))
                              (omega (
                                arith,
                                enough,
                                passes-pred left (primes + cutoff + 1) more,
                                s.2.prime,
                              )))
                    ])
              ])
      ]
