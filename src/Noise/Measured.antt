-- ===== src/Noise/Measured.antt =====
-- A measurement inside a recovery returns, keeps the bounds, and is not stuck, fails or uses up some
-- of the patience.
use jitterentropy_library.Prelude.{
  ℕ, ◌+◌, ◌-◌, ◌/◌, ◌^◌, ◌<◌, ◌≡◌, inl, inr, refl, arith, Bool, true, false, Option, some, subst,
}
use jitterentropy_library.Prelude.{◌==◌, ◌>>=◌, Bool-cases, Ends}
use jitterentropy_library.Collector.{RandData, Machine}
use jitterentropy_library.Health.Rct.{rct_insert}
use jitterentropy_library.Health.Apt.{apt_insert}
use jitterentropy_library.Health.Lag.{lag_insert, delta}
use jitterentropy_library.Health.RctMem.{rct_mem_insert}
use jitterentropy_library.Health.Stuck.Kept.{
  Kept, Kept-trans, Keeps, apt_insert-Kept, lag_insert-Kept, rct_mem_insert-Kept,
}
use jitterentropy_library.Noise.Kept.{memaccess_pseudorandom-Kept, insert_delta-Kept, time-Kept}
use jitterentropy_library.Health.Stuck.{jent_stuck, insert_judged, is_stuck}
use jitterentropy_library.Noise.Sources.{memaccess_pseudorandom, hash_loop}
use jitterentropy_library.Noise.Measure.{
  measure_jitter, check_stuck, insert_delta, blank_intermediary,
}
use jitterentropy_library.Noise.Returns.{IsBounded, Steps}
use jitterentropy_library.Noise.Steady.{
  Steady, Steady-trans, apt_insert-Steady, lag_insert-Steady, memaccess-Steady, insert_delta-Steady,
  rct_mem_insert-Steady,
}
use jitterentropy_library.Noise.Bounded.{
  IsBounded-carried, Spent, Spent-before, Spent-after, rct_insert-Spent,
}

module _ (nosr primes cutoff : ℕ) (small : cutoff < 2 ^ 32) (f : Machine → Option Machine)
    (keeps : Keeps f) where
  -- What the stuck test makes of the bounds.
  abbrev pub StepsOn : Machine → Option (Bool × Machine) → Type 0
  StepsOn m o =
      (r : Bool × Machine) × (o ≡ some r)
      × IsBounded nosr primes cutoff r.1.ec
      × Spent cutoff m.ec r.0 r.1.ec

  judged-Steps :
      (m : Machine) (delta : ℕ) (stuck : Bool)
      → IsBounded nosr primes cutoff m.ec
      → StepsOn m (do
        inserted ← rct_mem_insert f (record m { ec = insert_judged m.ec delta stuck }) stuck
        some (stuck, inserted))
  unfolding insert_judged
  judged-Steps m delta stuck b =
      let applied = apt_insert m.ec delta in
      let lagged = lag_insert applied delta in
      let steady : Steady m.ec lagged =
        Steady-trans m.ec applied lagged (apt_insert-Steady m.ec delta)
          (lag_insert-Steady applied delta) in
      let kept : Kept m.ec lagged =
        Kept-trans m.ec applied lagged (apt_insert-Kept m.ec delta)
          (lag_insert-Kept applied delta) in
      let judged : Machine = record m { ec = rct_insert lagged stuck } in
      let (bounded, spent) =
        rct_insert-Spent nosr primes cutoff lagged stuck small
          (IsBounded-carried nosr primes cutoff m.ec lagged kept steady b) in
      let (after, e, same) = rct_mem_insert-Steady f judged stuck bounded.recovery in
      let still : Kept judged.ec after.ec =
        subst (λ o. Ends (λ x. Kept judged.ec x.ec) o) e
          (rct_mem_insert-Kept f keeps judged stuck) in
      rw e (
        (stuck, after),
        refl,
        IsBounded-carried nosr primes cutoff judged.ec after.ec still same bounded,
        Spent-before cutoff m.ec lagged after.ec stuck steady
            (Spent-after cutoff lagged judged.ec after.ec stuck still same spent),
      )

  primed-Steps :
      (m : Machine) (delta : ℕ)
      → (m.ec.stuck_prime == 0) ≡ false
      → IsBounded nosr primes cutoff m.ec
      → StepsOn m (
          some (
            true,
            record m {
              ec = lag_insert (record (m.ec) { stuck_prime = m.ec.stuck_prime - 1 }) delta;
            },
          ))
  primed-Steps m delta priming b =
      let primed : RandData = record (m.ec) { stuck_prime = m.ec.stuck_prime - 1 } in
      let lagged = lag_insert primed delta in
      let some_left : 0 < m.ec.stuck_prime = ground (arith, priming) in
      let bounded : IsBounded nosr primes cutoff primed = record {
        recovery = b.recovery;
        fips = b.fips;
        started = b.started;
        window = b.window;
        prime = omega (arith, b.prime);
        cutoff = b.cutoff;
        count = b.count;
      } in
      let kept : Kept primed lagged = lag_insert-Kept primed delta in
      let same : Steady primed lagged = lag_insert-Steady primed delta in
      let spent : Spent cutoff m.ec true primed = inr (inr (omega (arith, some_left))) in
      (
        (true, record m { ec = lagged }),
        refl,
        IsBounded-carried nosr primes cutoff primed lagged kept same bounded,
        Spent-after cutoff m.ec primed lagged true kept same spent,
      )

  jent_stuck-Steps :
      (m : Machine) (delta : ℕ)
      → IsBounded nosr primes cutoff m.ec
      → StepsOn m (jent_stuck f m delta)
  unfolding jent_stuck
  jent_stuck-Steps m delta b = elim (Bool-cases (m.ec.stuck_prime == 0)) [
    | inl primed ↦ rw primed (judged-Steps m delta (is_stuck m.ec delta) b)
    | inr priming ↦ rw priming (primed-Steps m delta priming b)
  ]

  -- The measurement of a collection, inside a recovery.
  pub measure_jitter-Steps :
      (clock : ℕ → ℕ) (loop_cnt : ℕ) (m : Machine)
      → IsBounded nosr primes cutoff m.ec
      → Steps nosr primes cutoff m (measure_jitter clock f loop_cnt true m)
  unfolding measure_jitter check_stuck
  measure_jitter-Steps clock loop_cnt m b =
      let accessed = memaccess_pseudorandom clock m loop_cnt in
      let timed : Machine = record accessed {
        ec = record (accessed.ec) { prev_time = clock accessed.reads };
        reads = accessed.reads + 1;
      } in
      let kept : Kept m.ec timed.ec =
        Kept-trans m.ec accessed.ec timed.ec (memaccess_pseudorandom-Kept clock m loop_cnt)
          (time-Kept accessed.ec (clock accessed.reads)) in
      let steady : Steady m.ec timed.ec = memaccess-Steady clock m loop_cnt in
      let current_delta =
        delta accessed.ec.prev_time (clock accessed.reads) / accessed.ec.common_timer_gcd in
      let (checked, e, bounded, spent) =
        jent_stuck-Steps timed current_delta
          (IsBounded-carried nosr primes cutoff m.ec timed.ec kept steady b) in
      let intermediary = hash_loop checked.1.ec blank_intermediary loop_cnt in
      let inserted = insert_delta checked.1 current_delta intermediary 0x03 in
      let last_kept : Kept checked.1.ec inserted.ec =
        insert_delta-Kept checked.1 current_delta intermediary 0x03 in
      let last_same : Steady checked.1.ec inserted.ec =
        insert_delta-Steady checked.1 current_delta intermediary 0x03 in
      rw e (
        (checked.0, current_delta, inserted),
        refl,
        IsBounded-carried nosr primes cutoff checked.1.ec inserted.ec last_kept last_same bounded,
        Spent-before cutoff m.ec timed.ec inserted.ec checked.0 steady (
            Spent-after cutoff timed.ec checked.1.ec inserted.ec checked.0 last_kept last_same
              spent),
      )
